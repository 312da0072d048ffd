-- ===== src/Ledger.antt =====
-- packages/core/src/ledger.ts: the convergence ledger of one file, and the statement of
-- packages/server/src/db/media-file-repo.ts that claims a row.
--
-- Times are milliseconds since the epoch and counters are natural numbers. `signature` and
-- `reviewReason` are `none` where the source has null or undefined. sha256 is an argument of what
-- hashes facts.
pub mod Attempts
pub mod Convergence
pub mod Steps
mod Tests
use trawlarr.Prelude.{
  ℕ, ◌+◌, ◌-◌, ◌*◌, ◌≤◌, ◌<◌, Bool, true, false, ◌&&◌, ◌||◌, not, Option, none, some, Str, codes,
  trim, or_else, str_eq, if◌then◌else◌, ltb, leb, ◌==◌, min, is_some,
}
use trawlarr.Facts.{FactSet, facts_hash, opt_str_eq}

pub data FileState : Type 0 where
  unknown queued running good failed not_converging held : FileState

pub record LedgerRecord : Type 0 where
  pub state : FileState
  pub signature : Option Str
  pub attempt_count : ℕ
  pub consecutive_noop_count : ℕ
  pub hold_until_ms : Option ℕ
  pub review_reason : Option Str

pub record RunOutcome : Type 0 where
  pub success : Bool
  pub held : Bool
  pub review_reason : Option Str
  pub claimed_modified : Bool
  pub pre_facts : FactSet
  pub post_facts : Option FactSet

abbrev pub max_attempts : ℕ
max_attempts = 3

abbrev pub noop_limit : ℕ
noop_limit = 1

abbrev pub minute_ms : ℕ
minute_ms = 60000

-- `BACKOFF_MINUTES[index] ?? BACKOFF_MINUTES[BACKOFF_MINUTES.length - 1]`
abbrev pub backoff_minutes : ℕ → ℕ
backoff_minutes index = if index == 0 then 5 else if index == 1 then 25 else 125

unfoldable pub new_ledger_record : LedgerRecord
new_ledger_record = record {
  state = unknown;
  signature = none;
  attempt_count = 0;
  consecutive_noop_count = 0;
  hold_until_ms = none;
  review_reason = none;
}

abbrev pub is_good : FileState → Bool
is_good good = true
is_good _ = false

unfoldable pub is_known_good : LedgerRecord → Str → Bool
is_known_good r signature = is_good r.state && opt_str_eq r.signature (some signature)

-- For no attempt the index is -1, which is out of range: the last entry.
unfoldable pub backoff_for : ℕ → ℕ
backoff_for attempt_count =
    if attempt_count == 0
    then 125 * minute_ms
    else backoff_minutes (min (attempt_count - 1) 2) * minute_ms

unfoldable pub record_failed_attempt : LedgerRecord → ℕ → LedgerRecord
unfolding backoff_for
record_failed_attempt r now_ms =
    let attempts = r.attempt_count + 1 in
    if is_some r.review_reason
    then record r { state = held; hold_until_ms = none }
    else if leb max_attempts attempts
    then record r { state = failed; attempt_count = attempts; hold_until_ms = none }
    else record r {
      state = held;
      attempt_count = attempts;
      hold_until_ms = some (now_ms + backoff_for attempts);
    }

abbrev trimmed : Option Str → Str
trimmed none = codes ""
trimmed (some s) = trim s

-- The modification claim is unverified or the facts did not change.
unfoldable pub was_noop : (Str → Str) → RunOutcome → Bool
was_noop sha o = o.claimed_modified && elim o.post_facts [
  | none ↦ true
  | some post ↦ opt_str_eq (facts_hash sha o.pre_facts) (facts_hash sha post)
]

unfoldable pub apply_run_outcome : (Str → Str) → LedgerRecord → RunOutcome → Str → ℕ → LedgerRecord
unfolding record_failed_attempt was_noop
apply_run_outcome sha r o current_signature now_ms =
    if o.held
    then record r {
      state = held;
      hold_until_ms = none;
      review_reason =
          some (or_else (trimmed o.review_reason) (codes "Review requested by the flow."));
    }
    else if not o.success
    then record_failed_attempt r now_ms
    else let noops = if was_noop sha o then r.consecutive_noop_count + 1 else 0 in
      record {
        state = if leb noop_limit noops then not_converging else good;
        signature = some current_signature;
        attempt_count = 0;
        consecutive_noop_count = noops;
        hold_until_ms = none;
        review_reason = none;
      }

unfoldable pub apply_stall : LedgerRecord → ℕ → LedgerRecord
unfolding record_failed_attempt
apply_stall r now_ms = record_failed_attempt r now_ms

unfoldable pub apply_requeue : LedgerRecord → LedgerRecord
apply_requeue r = record r {
  state = queued;
  attempt_count = 0;
  consecutive_noop_count = 0;
  hold_until_ms = none;
  review_reason = none;
}

abbrev released : FileState → FileState
released running = queued
released s = s

unfoldable pub apply_release_unpenalised : LedgerRecord → LedgerRecord
apply_release_unpenalised r = record r { state = released r.state }

abbrev hold_over : Option ℕ → ℕ → Bool
hold_over none now_ms = true
hold_over (some until) now_ms = ltb until now_ms

abbrev waiting : FileState → Bool
waiting queued = true
waiting held = true
waiting _ = false

unfoldable pub is_eligible : LedgerRecord → ℕ → Bool
is_eligible r now_ms =
    if is_some r.review_reason
    then false
    else if waiting r.state
    then hold_over r.hold_until_ms now_ms
    else false

-- One candidate row of the claiming statement: its ledger columns, whether the scanner has marked it
-- missing, and whether some row under review occupies its path.
pub record Candidate : Type 0 where
  pub ledger : LedgerRecord
  pub missing : Bool
  pub path_under_review : Bool

-- The `WHERE` clause of the claiming statement, for a library that the caller asked for.
unfoldable pub claimable : Candidate → ℕ → Bool
claimable c now_ms =
    waiting c.ledger.state
    && (not c.missing
        && (not (is_some c.ledger.review_reason)
            && (not c.path_under_review && hold_over c.ledger.hold_until_ms now_ms)))

-- `SET state = 'running'`
abbrev pub claimed : LedgerRecord → LedgerRecord
claimed r = record r { state = running }

abbrev never_requeue : FileState → Bool
never_requeue failed = true
never_requeue not_converging = true
never_requeue running = true
never_requeue _ = false

-- What a scan writes for a file that it settled, given the signature of what it found; `none` if the
-- library has no flow or the file was never probed.
unfoldable pub scan_settled : LedgerRecord → Option Str → LedgerRecord
unfolding is_known_good
scan_settled r none = r
scan_settled r (some signature) =
    if never_requeue r.state || is_some r.review_reason
    then r
    else if is_known_good r signature
    then r
    else record r { state = queued }
