-- ===== src/Ledger/Appended.antt =====
-- `AuditLedger.append` as a whole.
use mathlib.Core.List.{append_assoc}
use revenue_guard.Prelude.{
  ℕ, ◌+◌, String, ◌≡◌, refl, sym, ap, ◌∙◌, subst, ◌≢◌, inl, inr, true, false, List, [], ◌∷◌, ◌++◌,
  arith, Bool-cases, length, if◌then◌else◌, ◌==◌,
}
use revenue_guard.Fault.{ok, ◌>>=◌, >>=-eq-ok, ok-injective}
use revenue_guard.Ledger.{
  AuditAppend, AuditEntry, Store, zero_hash, is_genesis, entry_from_request, genesis_request,
  sealed_by, append_after, append, verify, find_head, locked_head, fresh_head, entries_of,
  validate_append,
}
use revenue_guard.Ledger.Chain.{latest_hash, newest_first, Sealed, Intact}
use revenue_guard.Ledger.Appends.{Extends, after-Extends, genesis-is_genesis}

no_entries-hash : (l : List AuditEntry) → length l ≡ 0 → latest_hash l ≡ zero_hash
no_entries-hash [] h = refl
no_entries-hash (a ∷ l) h = absurd (omega (arith, h))

module _ (sha256 : List ℕ → String) where
  -- A merchant's ledger with what `append` has added, and the ledgers of the others.
  pub record Appended (s : Store) (merchant : String) (a : AuditEntry) (t : Store) : Type 0 where
    pub own : a.merchant_id ≡ merchant
    pub intact : Intact sha256 t merchant
    -- the genesis, where the ledger was empty
    pub first : List AuditEntry
    pub grown : entries_of t.entries merchant ≡ entries_of s.entries merchant ++ (first ++ a ∷ [])
    pub first_if_empty :
        length first ≡ (if (locked_head s.heads merchant).latest_sequence == 0 then 1 else 0)
    pub others : (other : String) → other ≢ merchant → verify sha256 t other ≡ verify sha256 s other

  others-verify :
      (s t : Store) (other : String)
      → entries_of t.entries other ≡ entries_of s.entries other
      → find_head t.heads other ≡ find_head s.heads other
      → verify sha256 t other ≡ verify sha256 s other
  unfolding verify
  others-verify s t other e h = rw (e, h)

  once-Appended :
      (s : Store) (merchant : String) (a : AuditEntry) (t : Store)
      → Extends sha256 s merchant a t
      → ((locked_head s.heads merchant).latest_sequence == 0) ≡ false
      → Appended s merchant a t
  once-Appended s merchant a t x h = record {
    own = x.own;
    intact = x.intact;
    first = [];
    grown = x.one_more;
    first_if_empty = rw h;
    others = λ other differ.
        others-verify s t other (x.others_entries other differ) (x.others_head other differ);
  }

  twice-Appended :
      (s : Store) (merchant : String) (g a : AuditEntry) (r t : Store)
      → Extends sha256 s merchant g r
      → Extends sha256 r merchant a t
      → ((locked_head s.heads merchant).latest_sequence == 0) ≡ true
      → Appended s merchant a t
  twice-Appended s merchant g a r t x y h = record {
    own = y.own;
    intact = y.intact;
    first = g ∷ [];
    grown =
        y.one_more
        ∙ ap (λ l. l ++ a ∷ []) x.one_more
        ∙ append_assoc (entries_of s.entries merchant) (g ∷ []) (a ∷ []);
    first_if_empty = rw h;
    others = λ other differ.
        others-verify r t other (y.others_entries other differ) (y.others_head other differ)
        ∙ others-verify s r other (x.others_entries other differ) (x.others_head other differ);
  }

  fresh-Sealed :
      (s : Store) (merchant : String)
      → Intact sha256 s merchant
      → ((locked_head s.heads merchant).latest_sequence == 0) ≡ true
      → Sealed (fresh_head merchant) (newest_first (entries_of s.entries merchant))
  fresh-Sealed s merchant i h =
      let empty : 0 ≡ length (newest_first (entries_of s.entries merchant)) =
        ground (arith, i.is_sealed.0, h) in
      (empty, sym (no_entries-hash (newest_first (entries_of s.entries merchant)) (sym empty)))

  after-genesis :
      (s : Store) (q : AuditAppend) (id : String) (g : AuditEntry) (r : Store)
      → append_after sha256 s (fresh_head q.merchant_id) (genesis_request sha256 q) id ≡ ok (g, r)
      → is_genesis g ≡ true
  unfolding append_after
  after-genesis s q id g r h =
      let (b, made, e) =
        >>=-eq-ok (entry_from_request sha256 (genesis_request sha256 q) (0 + 1) zero_hash id) _ h in
      subst (λ x. is_genesis x ≡ true) (ap (λ (x : AuditEntry × Store). x.0) (ok-injective e))
        (genesis-is_genesis sha256 q (0 + 1) id b made)

  genesis_first :
      (s t : Store) (q : AuditAppend) (genesis_id entry_id : String) (a : AuditEntry)
      → Intact sha256 s q.merchant_id
      → ((locked_head s.heads q.merchant_id).latest_sequence == 0) ≡ true
      → (append_after sha256 s (fresh_head q.merchant_id) (genesis_request sha256 q) genesis_id
          >>= λ x. append_after sha256 x.1 (sealed_by sha256 x.0) q entry_id)
        ≡ ok (a, t)
      → Appended s q.merchant_id a t
  genesis_first s t q genesis_id entry_id a i h k =
      let start =
        append_after sha256 s (fresh_head q.merchant_id) (genesis_request sha256 q) genesis_id in
      let ((g, r), made, e) = >>=-eq-ok start _ k in
      let x =
        after-Extends sha256 s (fresh_head q.merchant_id) (genesis_request sha256 q) genesis_id g r
          i (fresh-Sealed s q.merchant_id i h) (λ _. after-genesis s q genesis_id g r made) made in
      twice-Appended s q.merchant_id g a r t x
        (after-Extends sha256 r (sealed_by sha256 g) q entry_id a t x.intact
          (subst (λ l. Sealed l (newest_first (entries_of r.entries q.merchant_id))) x.head_on
            x.intact.is_sealed)
          (λ z. absurd (omega (arith, x.numbered, z))) e)
        h

  -- An append to an intact ledger leaves it intact with the entry at its end, after a genesis where
  -- the ledger was empty, and the verification of every other merchant as it was.
  pub append-Appended :
      (s t : Store) (q : AuditAppend) (genesis_id entry_id : String) (a : AuditEntry)
      → Intact sha256 s q.merchant_id
      → append sha256 s q genesis_id entry_id ≡ ok (a, t)
      → Appended s q.merchant_id a t
  unfolding append
  append-Appended s t q genesis_id entry_id a i h =
      let (u, checked, k) = >>=-eq-ok (validate_append q) _ h in
      elim (Bool-cases ((locked_head s.heads q.merchant_id).latest_sequence == 0)) [
        | inl empty ↦ genesis_first s t q genesis_id entry_id a i empty (rw empty at k)
        | inr more ↦
            once-Appended s q.merchant_id a t
              (after-Extends sha256 s (locked_head s.heads q.merchant_id) q entry_id a t i
                i.is_sealed (λ z. absurd (ground (arith, more, z))) (rw more at k))
              more
      ]
