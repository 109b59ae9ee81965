-- ===== src/Lib.antt =====
-- RevenueGuard: a bounded, event-driven control plane that recovers failed revenue for merchants.
--
-- A payment failure opens a recovery case. The merchant's policy, which is deterministic, decides
-- about ranked candidate actions; a large or uncertain one needs a human review. An action that
-- proceeds is recorded under an idempotency key and executed once, its outcome is verified by
-- evidence, and the facts are appended to a tamper-evident audit ledger. The modules:
--
--   Cases      packages/domain/src/revenueguard_domain/cases.py: RecoveryCase, its state machine and
--              transition_case. Cases/Validity is about __post_init__, Graph about the table of
--              transitions and docs/contracts/v1/case-state-machine.json, Moves about one call, History
--              about any sequence of calls.
--   Policy     policy.py: Vocabulary has the enumerations and tables, Candidate CandidateAction and
--              IncidentConstraint, Snapshot the policy and the evaluation input, Evaluate
--              _evaluate_candidate as the sequence of its stages, Decide evaluate_policy. Authorized
--              says what an action needs to proceed, Selection which candidate is chosen, Outcome
--              what is decided, QuietHours that the two functions on quiet hours agree.
--   Reviews    reviews.py: review requests, decisions, expiry, and the fingerprint of an action.
--   Actions    actions.py: idempotency keys, recovery actions, verified outcomes.
--   Ledger     packages/integrations/src/revenueguard_integrations/persistence/audit_ledger.py:
--              append and verify over the two tables of the ledger. Entries has the rows and what is
--              hashed of them, Payload the canonical form of a payload.
--   Portfolio  portfolio.py: the ranking of candidates by expected net recovery. Ranked says that
--              the result is an input for the policy, Order in which order it is. The decimal
--              logistic function, rounded to basis points, is a parameter.
--   Events     events.py: RevenueRiskEvent and its checks.
--   Outbox     packages/integrations/src/revenueguard_integrations/persistence/
--              action_repositories.py: the actions to execute with their attempts and outcomes.
--              Tables has the rows and the constraints, Enqueue stores and reads actions, Claim
--              leases them to workers, Attempt begins and ends a call of a provider, Resolve settles
--              an action by other means, Outcomes stores what was observed. Sound is the invariant,
--              Steps any sequence of operations, Between what workers do while one of them is at work
--              on an action, Exclusive that no two execute it at once, Totals the report of recovered
--              money. Table has the queries and updates.
--   Execution  packages/integrations/src/revenueguard_integrations/execution/service.py, over the
--              outbox and the table of cases: World moves a case and stores an observation,
--              Attempted takes the answer of a provider, Lost the loss of a worker, Lookup what a
--              later lookup says, and Signed a signed event; Waiting is the query for the actions
--              that are to be looked up.
--              Settled is about Attempted, with Closed on the end of an attempt and Ended on the case;
--              Doubted, Resolved and Proved are about Lookup, Credit and Verified about Signed, Backoff
--              about the delay between attempts, and Moved and Observed about World.
--   Canonical  json.dumps of Python's library, as these parts call it, with the proof that the text
--              of a document determines it; Digest is the hash of such a text, Clock datetimes and
--              their formats, Value the values of a mapping, Identifier the bounded texts, and Fault
--              the exceptions as values.
--
-- A call that may raise returns a Result; the f-strings of messages are kept by their parts. A
-- constructor of a frozen dataclass is the function init_..., which returns the object as it is
-- after __post_init__. isinstance tests are given by the types, and integers that the code requires
-- to be non-negative are natural numbers; an amount that may be negative is an integer.
--
-- SHA-256 is a parameter: where a theorem needs that it tells texts apart, its alternative is a
-- collision, exhibited. The time zone database is a parameter too, and so are the identifiers that
-- uuid4 draws. A zone maps instants and readings of its clock, both counted from year 1, so a reading
-- before the first instant of a zone east of UTC, like one that a change of the clock leaves out, is
-- not read back. Instants count microseconds; a datetime is naive, in UTC or in another zone. Nothing
-- here runs on fuel: the loops are over lists, and the decimal digits of a number over its size.
--
-- A table is a list of rows, newest first. The constraints of the outbox's three tables are tested where
-- the code flushes, and a row of another table that a foreign key names is a Boolean argument; the
-- unique, foreign-key and length constraints of the two tables of the ledger, which can only refuse
-- more appends, are not tested. A column of text, of an enumeration or of JSON (the parameters of an
-- action) is taken to give back what was stored, which for JSON holds of the values that JSON has and
-- not of datetimes, tuples or keys that are not text. A payload has no floats, which verify can refuse
-- with an exception where it forms the canonical text anew. A call runs within one transaction and is
-- one step. The order that the database gives texts (its collation), the rows that other workers have
-- locked and the tokens that are drawn are parameters.
--
-- Not modelled: preparing an execution with its second check of the policy, the repositories of
-- events, reviews and playbooks and the services over them, the HTTP calls of the providers, the
-- agents that call language models, the HTTP API, the worker's tasks and the dashboards. That a sum
-- of a time and a delay leaves the range of datetime, which raises OverflowError, is not modelled; that
-- the product in the delay before a retry leaves the range of timedelta is.
mod Prelude
pub mod Fault
pub mod Clock
pub mod Identifier
pub mod Value
pub mod Canonical
pub mod Digest
pub mod Cases
pub mod Reviews
pub mod Policy
pub mod Actions
pub mod Ledger
pub mod Portfolio
pub mod Table
pub mod Events
pub mod Outbox
pub mod Execution
