-- ===== src/Ledger/Tamper.antt =====
-- A head binds the whole history of its merchant.
use revenue_guard.Prelude.{
  ℕ, String, ◌≡◌, refl, sym, ap, ap₂, ◌∙◌, ◌⊎◌, inl, inr, false, List, [], ◌∷◌, map, arith, length,
}
use revenue_guard.Canonical.{Json}
use revenue_guard.Canonical.Access.{field_text}
use revenue_guard.Digest.{Collision, digest-binds}
use revenue_guard.Ledger.{
  AuditEntry, AuditLedgerHead, Store, digest_payload, entry_document, locked_head, entries_of,
}
use revenue_guard.Ledger.Chain.{latest_hash, newest_first, IsLinked, Chained, Intact}

module _ (sha256 : List ℕ → String) where
  -- All that an entry records but its payload: its fields, with the payload's digest and the text of
  -- its time.
  abbrev pub record_of : AuditEntry → Json
  record_of a = entry_document a (digest_payload sha256 a.payload)

  same_links :
      (a b : AuditEntry)
      → record_of a ≡ record_of b
      → (a.previous_entry_hash ≡ b.previous_entry_hash)
        × (digest_payload sha256 a.payload ≡ digest_payload sha256 b.payload)
  unfolding entry_document
  same_links a b h = (ap (field_text 14) h, ap (field_text 12) h)

  abbrev pub SameHistory : List AuditEntry → List AuditEntry → Type 0
  SameHistory as' bs =
      (map record_of as' ≡ map record_of bs)
      × (map (λ (a : AuditEntry). a.payload) as' ≡ map (λ (b : AuditEntry). b.payload) bs)

  same_entry :
      (n m : ℕ) (h k : String) (a b : AuditEntry)
      → IsLinked sha256 n h a
      → IsLinked sha256 m k b
      → a.entry_hash ≡ b.entry_hash
      → ((record_of a ≡ record_of b) × (a.payload ≡ b.payload) × (h ≡ k)) ⊎ Collision sha256
  same_entry n m h k a b x y e =
      elim (digest-binds sha256 false (record_of a) (record_of b)
        (sym x.entry_sealed ∙ e ∙ y.entry_sealed)) [
          | inr clash ↦ inr clash
          | inl same ↦
              let (links, payloads) = same_links a b same in
              elim (digest-binds sha256 false a.payload b.payload payloads) [
                | inr clash ↦ inr clash
                | inl same_payload ↦ inl (same, same_payload, sym x.follows ∙ links ∙ y.follows)
              ]
        ]

  chain-binds :
      (as' bs : List AuditEntry)
      → Chained sha256 as'
      → Chained sha256 bs
      → length as' ≡ length bs
      → latest_hash as' ≡ latest_hash bs
      → SameHistory as' bs ⊎ Collision sha256
  chain-binds [] [] h k l e = inl (refl, refl)
  chain-binds [] (b ∷ bs) h k l e = absurd (omega (arith, l))
  chain-binds (a ∷ as') [] h k l e = absurd (omega (arith, l))
  chain-binds (a ∷ as') (b ∷ bs) h k l e =
      elim (same_entry (length as') (length bs) (latest_hash as') (latest_hash bs) a b h.0 k.0 e) [
        | inr clash ↦ inr clash
        | inl (same, same_payload, previous) ↦
            elim (chain-binds as' bs h.1 k.1 (omega (arith, l)) previous) [
              | inr clash ↦ inr clash
              | inl (records, payloads) ↦
                  inl
                    (ap₂ (λ x xs. x ∷ xs) same records, ap₂ (λ x xs. x ∷ xs) same_payload payloads)
            ]
      ]

  -- Two ledgers of a merchant that are intact and have the same head hold the same history, record
  -- by record and payload by payload, unless they show a collision of the hash.
  pub head-binds :
      (s t : Store) (merchant : String)
      → Intact sha256 s merchant
      → Intact sha256 t merchant
      → locked_head s.heads merchant ≡ locked_head t.heads merchant
      → SameHistory
          (newest_first (entries_of s.entries merchant))
          (newest_first (entries_of t.entries merchant))
        ⊎ Collision sha256
  head-binds s t merchant h k e =
      chain-binds (newest_first (entries_of s.entries merchant))
        (newest_first (entries_of t.entries merchant)) h.chained k.chained
        (sym h.is_sealed.0 ∙ ap (λ (x : AuditLedgerHead). x.latest_sequence) e ∙ k.is_sealed.0)
        (sym h.is_sealed.1 ∙ ap (λ (x : AuditLedgerHead). x.latest_entry_hash) e ∙ k.is_sealed.1)
