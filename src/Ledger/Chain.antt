-- ===== src/Ledger/Chain.antt =====
-- A merchant's entries as a chain, and what `verify` accepts.
use revenue_guard.Prelude.{
  ℕ, ◌+◌, String, ◌≡◌, refl, sym, ap, ◌∙◌, subst, ◌≢◌, ◌↔◌, inl, inr, true, none, some, List, [],
  ◌∷◌, arith, Option-cases, str_eq_iff, length,
}
use revenue_guard.Ledger.{
  AuditEntry, AuditLedgerHead, Store, zero_hash, valid, AuditVerificationStatus, is_genesis,
  digest_payload, entry_digest, entry_fault, verify_entries, verify, find_head, locked_head,
  fresh_head, entries_of,
}

-- The hash that the next entry has to name, of the entries with the newest first.
abbrev pub latest_hash : List AuditEntry → String
latest_hash [] = zero_hash
latest_hash (a ∷ as') = a.entry_hash

abbrev pub reverse_onto : List AuditEntry → List AuditEntry → List AuditEntry
reverse_onto [] acc = acc
reverse_onto (a ∷ as') acc = reverse_onto as' (a ∷ acc)

-- The newest entry first.
abbrev pub newest_first : List AuditEntry → List AuditEntry
newest_first as' = reverse_onto as' []

abbrev pub Sealed : AuditLedgerHead → List AuditEntry → Type 0
Sealed head as' = (head.latest_sequence ≡ length as') × (head.latest_entry_hash ≡ latest_hash as')

pub locked-found :
    (hs : List AuditLedgerHead) (merchant : String) (head : AuditLedgerHead)
    → find_head hs merchant ≡ some head
    → locked_head hs merchant ≡ head
locked-found hs merchant head h = rw (h, locked_head)

pub locked-missing :
    (hs : List AuditLedgerHead) (merchant : String)
    → find_head hs merchant ≡ none
    → locked_head hs merchant ≡ fresh_head merchant
locked-missing hs merchant h = rw (h, locked_head)

module _ (sha256 : List ℕ → String) where
  -- An entry that follows `n` others, of which the newest has this hash.
  pub record IsLinked (n : ℕ) (previous : String) (a : AuditEntry) : Type 0 where
    pub in_sequence : a.sequence ≡ n + 1
    pub begins : n ≡ 0 → is_genesis a ≡ true
    pub follows : a.previous_entry_hash ≡ previous
    pub payload_sealed : a.payload_sha256 ≡ digest_payload sha256 a.payload
    pub entry_sealed : a.entry_hash ≡ entry_digest sha256 a (digest_payload sha256 a.payload)

  abbrev pub Chained : List AuditEntry → Type 0
  Chained [] = Unit
  Chained (a ∷ as') = IsLinked (length as') (latest_hash as') a × Chained as'

  -- The merchant's entries are a chain, and the head seals it. A merchant without a head has none.
  pub record Intact (s : Store) (merchant : String) : Type 0 where
    pub chained : Chained (newest_first (entries_of s.entries merchant))
    pub is_sealed :
        Sealed (locked_head s.heads merchant) (newest_first (entries_of s.entries merchant))

  no_fault-IsLinked :
      (n : ℕ) (previous : String) (a : AuditEntry)
      → entry_fault sha256 (n + 1) previous a ≡ none
      → IsLinked n previous a
  unfolding entry_fault
  no_fault-IsLinked n previous a h = ground (
    arith,
    str_eq_iff a.previous_entry_hash previous,
    str_eq_iff a.payload_sha256 (digest_payload sha256 a.payload),
    str_eq_iff a.entry_hash (entry_digest sha256 a (digest_payload sha256 a.payload)),
  )

  IsLinked-no_fault :
      (n : ℕ) (previous : String) (a : AuditEntry)
      → IsLinked n previous a
      → entry_fault sha256 (n + 1) previous a ≡ none
  unfolding entry_fault
  IsLinked-no_fault n previous a h = ground (
    arith,
    str_eq_iff a.previous_entry_hash previous,
    str_eq_iff a.payload_sha256 (digest_payload sha256 a.payload),
    str_eq_iff a.entry_hash (entry_digest sha256 a (digest_payload sha256 a.payload)),
  )

  fault-not_valid :
      (n : ℕ) (previous : String) (a : AuditEntry) → entry_fault sha256 n previous a ≢ some valid
  unfolding entry_fault
  fault-not_valid n previous a h = ground arith

  Chained-onto : (as' acc : List AuditEntry) → Chained (reverse_onto as' acc) → Chained acc
  Chained-onto [] acc h = h
  Chained-onto (a ∷ as') acc h = (Chained-onto as' (a ∷ acc) h).1

  module _ (merchant : String) (head : AuditLedgerHead) where
    verify-next :
        (n : ℕ) (previous : String) (a : AuditEntry) (as' : List AuditEntry)
        → entry_fault sha256 n previous a ≡ none
        → verify_entries sha256 merchant head n previous (a ∷ as')
          ≡ verify_entries sha256 merchant head (n + 1) a.entry_hash as'
    unfolding verify_entries
    verify-next n previous a as' h = rw (h, verify_entries)

    verify-stop :
        (n : ℕ) (previous : String) (a : AuditEntry) (as' : List AuditEntry)
        (status : AuditVerificationStatus)
        → entry_fault sha256 n previous a ≡ some status
        → (verify_entries sha256 merchant head n previous (a ∷ as')).status ≡ status
    unfolding verify_entries
    verify-stop n previous a as' status h = rw (h, verify_entries)

    verify-end :
        (acc : List AuditEntry)
        → (verify_entries sha256 merchant head (length acc + 1) (latest_hash acc) []).status ≡ valid
        → Sealed head acc
    unfolding verify_entries
    verify-end acc h = ground (arith, str_eq_iff head.latest_entry_hash (latest_hash acc))

    Sealed-end :
        (acc : List AuditEntry)
        → Sealed head acc
        → (verify_entries sha256 merchant head (length acc + 1) (latest_hash acc) []).status ≡ valid
    unfolding verify_entries
    Sealed-end acc h = ground (arith, str_eq_iff head.latest_entry_hash (latest_hash acc))

    one_more : (a : AuditEntry) (acc : List AuditEntry) → length acc + 1 + 1 ≡ length (a ∷ acc) + 1
    one_more a acc = omega arith

    accepted-Chained :
        (as' acc : List AuditEntry)
        → Chained acc
        → (verify_entries sha256 merchant head (length acc + 1) (latest_hash acc) as').status
          ≡ valid
        → Chained (reverse_onto as' acc) × Sealed head (reverse_onto as' acc)
    accepted-Chained [] acc k h = (k, verify-end acc h)
    accepted-Chained (a ∷ as') acc k h =
        elim (Option-cases (entry_fault sha256 (length acc + 1) (latest_hash acc) a)) [
          | inr (status, found) ↦ absurd (
              fault-not_valid (length acc + 1) (latest_hash acc) a (
                found
                ∙ ap (λ x. some x)
                    (sym (verify-stop (length acc + 1) (latest_hash acc) a as' status found) ∙ h)))
          | inl clear ↦
              accepted-Chained as' (a ∷ acc)
                (no_fault-IsLinked (length acc) (latest_hash acc) a clear, k)
                (subst
                  (λ n. (verify_entries sha256 merchant head n a.entry_hash as').status ≡ valid)
                  (one_more a acc)
                  (rw (verify-next (length acc + 1) (latest_hash acc) a as' clear) at h))
        ]

    Chained-accepted :
        (as' acc : List AuditEntry)
        → Chained (reverse_onto as' acc)
        → Sealed head (reverse_onto as' acc)
        → (verify_entries sha256 merchant head (length acc + 1) (latest_hash acc) as').status
          ≡ valid
    Chained-accepted [] acc k h = Sealed-end acc h
    Chained-accepted (a ∷ as') acc k h =
        let linked = (Chained-onto as' (a ∷ acc) k).0 in
        let clear = IsLinked-no_fault (length acc) (latest_hash acc) a linked in
        rw (verify-next (length acc + 1) (latest_hash acc) a as' clear) (
          subst (λ n. (verify_entries sha256 merchant head n a.entry_hash as').status ≡ valid)
            (sym (one_more a acc)) (Chained-accepted as' (a ∷ acc) k h))

  length-onto :
      (as' acc : List AuditEntry) → length (reverse_onto as' acc) ≡ length as' + length acc
  length-onto [] acc = omega arith
  length-onto (a ∷ as') acc = omega (arith, length-onto as' (a ∷ acc))

  -- A head that seals some entry is there.
  seals_some :
      (hs : List AuditLedgerHead) (merchant : String) (a : AuditEntry) (as' : List AuditEntry)
      → Sealed (locked_head hs merchant) (newest_first (a ∷ as'))
      → find_head hs merchant ≡ some (locked_head hs merchant)
  seals_some hs merchant a as' h = elim (Option-cases (find_head hs merchant)) [
    | inr (head, found) ↦ found ∙ ap (λ x. some x) (sym (locked-found hs merchant head found))
    | inl missing ↦
        let zero_there : 0 ≡ length (newest_first (a ∷ as')) =
          (rw (locked-missing hs merchant missing) at h).0 in
        absurd (omega (arith, length-onto as' (a ∷ []), zero_there))
  ]

  Intact-found :
      (s : Store) (merchant : String) (as' : List AuditEntry)
      → entries_of s.entries merchant ≡ as'
      → Chained (newest_first as')
      → Sealed (locked_head s.heads merchant) (newest_first as')
      → (verify sha256 s merchant).status ≡ valid
  unfolding verify
  Intact-found s merchant [] e k h = rw e
  Intact-found s merchant (a ∷ as') e k h =
      rw (e, seals_some s.heads merchant a as' h)
        (Chained-accepted merchant (locked_head s.heads merchant) (a ∷ as') [] k h)

  found-Intact :
      (s : Store) (merchant : String) (as' : List AuditEntry)
      → entries_of s.entries merchant ≡ as'
      → (verify sha256 s merchant).status ≡ valid
      → (as' ≡ [] → Sealed (locked_head s.heads merchant) [])
      → Chained (newest_first as') × Sealed (locked_head s.heads merchant) (newest_first as')
  unfolding verify
  found-Intact s merchant [] e h k = (tt, k refl)
  found-Intact s merchant (a ∷ as') e h k = elim (Option-cases (find_head s.heads merchant)) [
    | inl missing ↦ absurd (cc (rw (e, missing) at h))
    | inr (head, found) ↦
        rw (locked-found s.heads merchant head found)
          (accepted-Chained merchant head (a ∷ as') [] tt (rw (e, found) at h))
  ]

  -- `verify` accepts the merchant's entries exactly if they are a chain that the head seals; only
  -- where a merchant has no entry does it not look at the head.
  pub verify-Intact :
      (s : Store) (merchant : String)
      → Intact s merchant ↔ (
          ((verify sha256 s merchant).status ≡ valid)
          × (entries_of s.entries merchant ≡ [] → Sealed (locked_head s.heads merchant) []))
  verify-Intact s merchant = (
    λ h. (
      Intact-found s merchant (entries_of s.entries merchant) refl h.chained h.is_sealed,
      λ none_there.
          subst (λ as'. Sealed (locked_head s.heads merchant) (newest_first as')) none_there
            h.is_sealed,
    ),
    λ h.
        let both = found-Intact s merchant (entries_of s.entries merchant) refl h.0 h.1 in
        record { chained = both.0; is_sealed = both.1 },
  )
