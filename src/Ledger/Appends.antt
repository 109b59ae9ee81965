-- ===== src/Ledger/Appends.antt =====
-- What `append` does to the ledgers.
use revenue_guard.Prelude.{
  ℕ, ◌+◌, ◌≤◌, ◌<◌, String, ◌≡◌, refl, sym, ap, ◌∙◌, subst, ◌≢◌, inl, inr, true, some, List, [],
  ◌∷◌, ◌++◌, arith, Bool-cases, length, All, str_eq, str_eq_iff,
}
use revenue_guard.Fault.{ok, >>=-eq-ok, ok-injective}
use revenue_guard.Ledger.Payload.{canonical_payload, audit_utc}
use revenue_guard.Ledger.{
  AuditAppend, AuditEntry, AuditLedgerHead, Store, zero_hash, is_genesis, digest_payload,
  entry_digest, entry_document, entry_from_request, genesis_request, sealed_by, append_after,
  find_head, locked_head, put_head, insert_entry, entries_of,
}
use revenue_guard.Ledger.Chain.{
  latest_hash, reverse_onto, newest_first, Sealed, IsLinked, Chained, Intact, locked-found,
}

-- The rows of the heads: a row that is put is found, and no other row is touched.
str_eq_refl : (s : String) → str_eq s s ≡ true
str_eq_refl s = (str_eq_iff s s).1 refl

find-put :
    (hs : List AuditLedgerHead) (head : AuditLedgerHead)
    → find_head (put_head hs head) head.merchant_id ≡ some head
unfolding find_head put_head
find-put [] head = rw (str_eq_refl head.merchant_id)
find-put (h ∷ hs) head = elim (Bool-cases (str_eq h.merchant_id head.merchant_id)) [
  | inl same ↦ ground (arith, same, str_eq_refl head.merchant_id)
  | inr other ↦ ground (arith, other, find-put hs head)
]

find-put_other :
    (hs : List AuditLedgerHead) (head : AuditLedgerHead) (merchant : String)
    → merchant ≢ head.merchant_id
    → find_head (put_head hs head) merchant ≡ find_head hs merchant
unfolding find_head put_head
find-put_other [] head merchant h = ground (arith, str_eq_iff head.merchant_id merchant)
find-put_other (x ∷ hs) head merchant h = ground (
  arith,
  find-put_other hs head merchant h,
  str_eq_iff x.merchant_id head.merchant_id,
  str_eq_iff x.merchant_id merchant,
  str_eq_iff head.merchant_id merchant,
)

entries-same :
    (a : AuditEntry) (as' : List AuditEntry)
    → entries_of (a ∷ as') a.merchant_id ≡ insert_entry a (entries_of as' a.merchant_id)
unfolding entries_of
entries-same a as' = ground (arith, str_eq_refl a.merchant_id)

entries-other :
    (a : AuditEntry) (as' : List AuditEntry) (merchant : String)
    → merchant ≢ a.merchant_id
    → entries_of (a ∷ as') merchant ≡ entries_of as' merchant
unfolding entries_of
entries-other a as' merchant h = ground (arith, str_eq_iff a.merchant_id merchant)

abbrev Before : ℕ → AuditEntry → Type 0
Before n a = a.sequence < n

-- An entry with the greatest sequence comes last.
insert-last :
    (a : AuditEntry) (as' : List AuditEntry)
    → All (Before a.sequence) as'
    → insert_entry a as' ≡ as' ++ a ∷ []
unfolding insert_entry
insert-last a [] h = refl
insert-last a (b ∷ bs) h = ground (arith, insert-last a bs h.1, h.0)

reverse-last :
    (as' acc : List AuditEntry) (a : AuditEntry)
    → reverse_onto (as' ++ a ∷ []) acc ≡ a ∷ reverse_onto as' acc
reverse-last [] acc a = refl
reverse-last (b ∷ bs) acc a = reverse-last bs (b ∷ acc) a

All-onto :
    (P : AuditEntry → Type 0) (as' acc : List AuditEntry)
    → All P (reverse_onto as' acc)
    → All P as' × All P acc
All-onto P [] acc h = (tt, h)
All-onto P (a ∷ as') acc h = let (x, y) = All-onto P as' (a ∷ acc) h in ((y.0, x), y.1)

module _ (sha256 : List ℕ → String) where
  Chained-Before :
      (n : ℕ) (as' : List AuditEntry) → Chained sha256 as' → length as' < n → All (Before n) as'
  Chained-Before n [] h k = tt
  Chained-Before n (a ∷ as') h k =
      (omega (arith, h.0.in_sequence, k), Chained-Before n as' h.1 (omega (arith, k)))

  -- The entry that is made of a request after a head.
  entry-IsLinked :
      (q : AuditAppend) (n : ℕ) (previous id : String) (a : AuditEntry)
      → entry_from_request sha256 q (n + 1) previous id ≡ ok a
      → (n ≡ 0 → is_genesis a ≡ true)
      → IsLinked sha256 n previous a × (a.merchant_id ≡ q.merchant_id)
  unfolding entry_from_request entry_document
  entry-IsLinked q n previous id a h begins =
      let (payload, p, h1) = >>=-eq-ok (canonical_payload q.payload) _ h in
      let (now, t, h2) = >>=-eq-ok (audit_utc q.recorded_at) _ h1 in
      let e = ok-injective h2 in
      (
        record {
          in_sequence = ap (λ (x : AuditEntry). x.sequence) (sym e);
          begins = begins;
          follows = ap (λ (x : AuditEntry). x.previous_entry_hash) (sym e);
          payload_sealed =
              subst (λ (x : AuditEntry). x.payload_sha256 ≡ digest_payload sha256 x.payload) e refl;
          entry_sealed =
              subst
                (λ (x : AuditEntry).
                  x.entry_hash ≡ entry_digest sha256 x (digest_payload sha256 x.payload))
                e refl;
        },
        ap (λ (x : AuditEntry). x.merchant_id) (sym e),
      )

  -- What a step of `append` does to the merchant's own ledger: one more entry, and the head on it.
  pub record Extends (s : Store) (merchant : String) (a : AuditEntry) (t : Store) : Type 0 where
    pub own : a.merchant_id ≡ merchant
    pub intact : Intact sha256 t merchant
    pub numbered : 1 ≤ a.sequence
    pub head_on : locked_head t.heads merchant ≡ sealed_by sha256 a
    pub one_more : entries_of t.entries merchant ≡ entries_of s.entries merchant ++ a ∷ []
    pub others_entries :
        (other : String)
        → other ≢ merchant
        → entries_of t.entries other ≡ entries_of s.entries other
    pub others_head :
        (other : String) → other ≢ merchant → find_head t.heads other ≡ find_head s.heads other

  add-Extends :
      (s : Store) (merchant : String) (a : AuditEntry)
      → Intact sha256 s merchant
      → a.merchant_id ≡ merchant
      → IsLinked sha256
          (length (newest_first (entries_of s.entries merchant)))
          (latest_hash (newest_first (entries_of s.entries merchant)))
          a
      → Extends s merchant a
          (record { entries = a ∷ s.entries; heads = put_head s.heads (sealed_by sha256 a) })
  add-Extends s merchant a i own linked = record {
    own = own;
    intact = record {
      chained = subst (λ l. Chained sha256 l) (sym newest) (linked, i.chained);
      is_sealed =
          subst (λ l. Sealed (locked_head heads merchant) l) (sym newest)
            (subst (λ h. Sealed h (a ∷ before)) (sym head_there)
              (omega (arith, linked.in_sequence), refl));
    };
    numbered = omega (arith, linked.in_sequence);
    head_on = head_there;
    one_more = grown;
    others_entries = λ other differ. entries-other a s.entries other (λ same. differ (same ∙ own));
    others_head = λ other differ.
        find-put_other s.heads (sealed_by sha256 a) other (λ same. differ (same ∙ own));
  }
    where
      before : List AuditEntry
      before = newest_first (entries_of s.entries merchant)

      heads : List AuditLedgerHead
      heads = put_head s.heads (sealed_by sha256 a)

      earlier : All (Before a.sequence) (entries_of s.entries merchant)
      earlier =
          (All-onto (Before a.sequence) (entries_of s.entries merchant) []
            (Chained-Before a.sequence before i.chained (omega (arith, linked.in_sequence)))).0

      grown : entries_of (a ∷ s.entries) merchant ≡ entries_of s.entries merchant ++ a ∷ []
      grown =
          subst (λ m. entries_of (a ∷ s.entries) m ≡ insert_entry a (entries_of s.entries m)) own
            (entries-same a s.entries)
          ∙ insert-last a (entries_of s.entries merchant) earlier

      newest : newest_first (entries_of (a ∷ s.entries) merchant) ≡ a ∷ before
      newest = ap newest_first grown ∙ reverse-last (entries_of s.entries merchant) [] a

      head_there : locked_head heads merchant ≡ sealed_by sha256 a
      head_there = locked-found heads merchant (sealed_by sha256 a) (
          subst (λ m. find_head heads m ≡ some (sealed_by sha256 a)) own
            (find-put s.heads (sealed_by sha256 a)))

  pub after-Extends :
      (s : Store) (head : AuditLedgerHead) (q : AuditAppend) (id : String) (a : AuditEntry)
      (t : Store)
      → Intact sha256 s q.merchant_id
      → Sealed head (newest_first (entries_of s.entries q.merchant_id))
      → (head.latest_sequence ≡ 0 → is_genesis a ≡ true)
      → append_after sha256 s head q id ≡ ok (a, t)
      → Extends s q.merchant_id a t
  unfolding append_after
  after-Extends s head q id a t i sealed begins h =
      let (b, made, e) =
        >>=-eq-ok (entry_from_request sha256 q (head.latest_sequence + 1) head.latest_entry_hash id)
          _ h in
      let same : (
        b,
        record { entries = b ∷ s.entries; heads = put_head s.heads (sealed_by sha256 b) },
      )
          ≡ (a, t) =
        ok-injective e in
      let same_entry = ap (λ (x : AuditEntry × Store). x.0) same in
      let (linked, own) =
        entry-IsLinked q head.latest_sequence head.latest_entry_hash id a
          (subst
            (λ x.
              entry_from_request sha256 q (head.latest_sequence + 1) head.latest_entry_hash id
              ≡ ok x)
            same_entry made)
          begins in
      subst (λ x. Extends s q.merchant_id a x)
        (ap (λ x. record { entries = x ∷ s.entries; heads = put_head s.heads (sealed_by sha256 x) })
            (sym same_entry)
          ∙ ap (λ (x : AuditEntry × Store). x.1) same)
        (add-Extends s q.merchant_id a i own (
          subst
            (λ n.
              IsLinked sha256 n (latest_hash (newest_first (entries_of s.entries q.merchant_id))) a)
            sealed.0 (subst (λ p. IsLinked sha256 head.latest_sequence p a) sealed.1 linked)))

  pub genesis-is_genesis :
      (q : AuditAppend) (n : ℕ) (id : String) (a : AuditEntry)
      → entry_from_request sha256 (genesis_request sha256 q) n zero_hash id ≡ ok a
      → is_genesis a ≡ true
  unfolding entry_from_request canonical_payload is_genesis
  genesis-is_genesis q n id a h =
      let (now, t, e) = >>=-eq-ok (audit_utc q.recorded_at) _ h in
      subst (λ x. is_genesis x ≡ true) (ok-injective e) (rw (str_eq_refl q.merchant_id))
