-- ===== src/Policy/Selection/Order.antt =====
-- Sorting candidates whose ranks count from one changes nothing.
use revenue_guard.Prelude.{ℕ, ◌+◌, ◌≡◌, refl, ap, ◌∙◌, true, List, [], ◌∷◌, arith}
use revenue_guard.Policy.Candidate.{CandidateAction}
use revenue_guard.Policy.Snapshot.{ranked_from}
use revenue_guard.Policy.Decide.{key_le, insert_sorted, sorted}

key_le_of_rank : (a b : CandidateAction) (n : ℕ) → a.rank ≡ n → b.rank ≡ n + 1 → key_le a b ≡ true
unfolding key_le
key_le_of_rank a b n h k = ground arith

insert_first :
    (n : ℕ) (a : CandidateAction) (bs : List CandidateAction)
    → a.rank ≡ n
    → ranked_from (n + 1) bs ≡ true
    → insert_sorted a bs ≡ a ∷ bs
unfolding insert_sorted
insert_first n a [] h k = refl
insert_first n a (b ∷ bs) h k = ground (arith, key_le_of_rank a b n)

pub ranked-sorted : (n : ℕ) (cs : List CandidateAction) → ranked_from n cs ≡ true → sorted cs ≡ cs
unfolding sorted
ranked-sorted n [] h = refl
ranked-sorted n (c ∷ cs) h =
    let later : ranked_from (n + 1) cs ≡ true = ground arith in
    ap (insert_sorted c) (ranked-sorted (n + 1) cs later) ∙ insert_first n c cs (ground arith) later
