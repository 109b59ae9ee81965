-- ===== src/Outbox/Outcomes.antt =====
-- packages/integrations/src/revenueguard_integrations/persistence/action_repositories.py: the outcomes
-- of actions, and the money that they prove to be recovered.
use revenue_guard.Prelude.{
  ℕ, ◌+◌, String, Bool, not, ◌&&◌, ◌||◌, Option, none, some, List, [], ◌∷◌, any, ltb, if◌then◌else◌,
  is_none, str_eq,
}
use revenue_guard.Prelude.Int.{pos}
use revenue_guard.Fault.{Result, ok, integrity_error, ◌>>=◌, ◌>>◌, raise_if}
use revenue_guard.Clock.{Datetime}
use revenue_guard.Value.{no_entry, entry_at, int_value, str_value, bool_value}
use revenue_guard.Actions.{VerifiedOutcome, is_succeeded}
use revenue_guard.Ledger.{AuditAppend}
use revenue_guard.Table.{select, first_row, order_by}
use revenue_guard.Outbox.Tables.{ActionRow, OutcomeRow, Database, status_value, outcome_constraints}
use revenue_guard.Outbox.Enqueue.{get_action, action_request, record_audit}
use revenue_guard.Outbox.Attempt.{required_action}

abbrev pub instant_of : Option Datetime → Option ℕ
instant_of none = none
instant_of (some t) = some t.instant

abbrev pub row_of_outcome : VerifiedOutcome → OutcomeRow
row_of_outcome o = record {
  merchant_id = o.merchant_id;
  id = o.outcome_id;
  recovery_action_id = o.action_id;
  recovery_case_id = o.case_id;
  outcome_status = o.outcome_status;
  is_authoritative = o.is_authoritative;
  evidence_source = o.evidence_source;
  evidence_reference = o.evidence_reference;
  provider_object_id = o.provider_object_id;
  recovered_amount_minor = o.recovered_amount_minor;
  currency = o.currency;
  reason_code = o.reason_code;
  observed_at = o.observed_at.instant;
  verified_at = instant_of o.verified_at;
  created_at = o.created_at.instant;
  schema_version = o.schema;
}

abbrev pub has_outcome_key : String → String → OutcomeRow → Bool
has_outcome_key merchant outcome o = str_eq o.merchant_id merchant && str_eq o.id outcome

abbrev pub is_proof : OutcomeRow → Bool
is_proof o = o.is_authoritative && is_succeeded o.outcome_status

abbrev pub outcome_of : String → String → OutcomeRow → Bool
outcome_of merchant action o = str_eq o.merchant_id merchant && str_eq o.recovery_action_id action

-- The unique index `uq_verified_outcomes_authoritative_success`.
abbrev pub proves_again : OutcomeRow → OutcomeRow → Bool
proves_again new o =
    is_proof new && is_proof o && outcome_of new.merchant_id new.recovery_action_id o

-- The flush of a new outcome. Its action has to be there; its case, whose table stands outside the
-- outbox, is taken to be.
unfoldable pub insert_outcome : Database → OutcomeRow → Result Database
insert_outcome db o = do
  raise_if (is_none (get_action db o.merchant_id o.recovery_action_id)) integrity_error
  raise_if (not (outcome_constraints o) || any (proves_again o) db.outcomes) integrity_error
  ok (record db { outcomes = o ∷ db.outcomes })

abbrev pub outcome_request : ActionRow → OutcomeRow → AuditAppend
outcome_request r o =
    action_request (record r { merchant_id = o.merchant_id; id = o.recovery_action_id })
      (if o.is_authoritative then "OUTCOME_VERIFIED" else "OUTCOME_OBSERVED") (some o.id) "SYSTEM"
      "outcome-verifier"
      (entry_at "currency" (str_value o.currency) (
        entry_at "is_authoritative" (bool_value o.is_authoritative) (
          entry_at "outcome_status" (str_value (status_value o.outcome_status)) (
            entry_at "recovered_amount_minor" (int_value (pos o.recovered_amount_minor))
              no_entry))))
      (some o.schema_version) o.observed_at

module _ (sha256 : List ℕ → String) where
  unfoldable pub add_outcome :
      Database → OutcomeRow → String × String → Result (OutcomeRow × Database)
  add_outcome db o ids = do
    stored ← insert_outcome db o
    r ← required_action stored o.merchant_id o.recovery_action_id
    audited ← record_audit sha256 stored (outcome_request r o) ids
    ok (o, audited)

  -- `store_outcome`.
  unfoldable pub store_outcome :
      Database → VerifiedOutcome → String × String → Result (OutcomeRow × Database)
  store_outcome db o ids =
      elim (first_row (has_outcome_key o.merchant_id o.outcome_id) db.outcomes) [
        | some existing ↦ ok (existing, db)
        | none ↦ add_outcome db (row_of_outcome o) ids
      ]

pub record RecoveryTotals : Type 0 where
  pub merchant_id : String
  pub currency : String
  pub recovered_amount_minor : ℕ
  pub verified_action_count : ℕ

-- The conditions of the query in `recovered_totals`.
unfoldable pub counts_for : String → OutcomeRow → Bool
counts_for merchant o =
    str_eq o.merchant_id merchant
    && is_succeeded o.outcome_status
    && o.is_authoritative
    && ltb 0 o.recovered_amount_minor

-- One more outcome in the group of its currency.
abbrev pub group_of : String → OutcomeRow → RecoveryTotals
group_of merchant o = record {
  merchant_id = merchant;
  currency = o.currency;
  recovered_amount_minor = o.recovered_amount_minor;
  verified_action_count = 1;
}

abbrev pub grown : RecoveryTotals → OutcomeRow → RecoveryTotals
grown t o = record t {
  recovered_amount_minor = t.recovered_amount_minor + o.recovered_amount_minor;
  verified_action_count = t.verified_action_count + 1;
}

unfoldable pub add_to_groups : String → OutcomeRow → List RecoveryTotals → List RecoveryTotals
add_to_groups merchant o [] = group_of merchant o ∷ []
add_to_groups merchant o (t ∷ ts) =
    let rest = add_to_groups merchant o ts in
    if str_eq t.currency o.currency then grown t o ∷ ts else t ∷ rest

-- `group_by(VerifiedOutcome.currency)`, with the sums and the counts.
unfoldable pub group_outcomes : String → List OutcomeRow → List RecoveryTotals
unfolding add_to_groups
group_outcomes merchant [] = []
group_outcomes merchant (o ∷ os) = add_to_groups merchant o (group_outcomes merchant os)

module _ (text_before : String → String → Bool) where
  -- `order_by(VerifiedOutcome.currency)`, by the collation of the database.
  abbrev pub reports_before : RecoveryTotals → RecoveryTotals → Bool
  reports_before t u = text_before t.currency u.currency

  -- `recovered_totals`.
  unfoldable pub recovered_totals : Database → String → List RecoveryTotals
  recovered_totals db merchant =
      order_by reports_before (group_outcomes merchant (select (counts_for merchant) db.outcomes))
