-- ===== src/Lease.antt =====
-- packages/core/src/lease.ts: a remote claim's lease, and `decideCommitFor` and `stepLeaseFor` of
-- packages/server/src/nodes/hub.ts, which read a job's row and grant or refuse its commit.
--
-- A refusal carries a constructor for each message of the source. Of the database the hub reads one
-- file's state and the jobs of that file, the newest first.
pub mod Safety
pub mod Grace
mod Tests
use trawlarr.Prelude.{
  ℕ, ◌+◌, Bool, true, false, ◌&&◌, ◌||◌, not, Option, none, some, List, [], ◌∷◌, Str, str_eq, find,
  if◌then◌else◌, leb, is_some, map,
}

pub data LeaseState : Type 0 where
  connected grace committing expired : LeaseState

pub record Lease : Type 0 where
  pub state : LeaseState
  pub expires_at_ms : Option ℕ

unfoldable pub lease_on_claim : Lease
lease_on_claim = record { state = connected; expires_at_ms = none }

unfoldable pub lease_on_disconnect : Lease → ℕ → ℕ → Lease
lease_on_disconnect l now_ms grace_ms = elim l.state [
  | connected ↦ record { state = grace; expires_at_ms = some (now_ms + grace_ms) }
  | _ ↦ l
]

unfoldable pub lease_on_daemon_start : Lease → ℕ → ℕ → Lease
lease_on_daemon_start l now_ms grace_ms = elim l.state [
  | connected ↦ record { state = grace; expires_at_ms = some (now_ms + grace_ms) }
  | grace ↦ record { state = grace; expires_at_ms = some (now_ms + grace_ms) }
  | _ ↦ l
]

abbrev passed : Option ℕ → ℕ → Bool
passed none now_ms = false
passed (some deadline) now_ms = leb deadline now_ms

abbrev is_grace : LeaseState → Bool
is_grace grace = true
is_grace _ = false

abbrev is_expired : LeaseState → Bool
is_expired expired = true
is_expired _ = false

unfoldable pub lease_is_expired : Lease → ℕ → Bool
lease_is_expired l now_ms = is_grace l.state && passed l.expires_at_ms now_ms

unfoldable pub lease_on_reconnect : Lease → ℕ → Lease
unfolding lease_is_expired
lease_on_reconnect l now_ms =
    if is_expired l.state || lease_is_expired l now_ms
    then record { state = expired; expires_at_ms = l.expires_at_ms }
    else if is_grace l.state
    then record { state = connected; expires_at_ms = none }
    else l

abbrev is_committing : LeaseState → Bool
is_committing committing = true
is_committing _ = false

unfoldable pub lease_after_step : Lease → Lease
lease_after_step l =
    if is_committing l.state then record { state = connected; expires_at_ms = none } else l

pub data CommitKind : Type 0 where
  replace plugin : CommitKind

-- The messages of a refusal, the hub's two first.
pub data Refusal : Type 0 where
  not_running : Refusal
  cancelled : Refusal
  not_claimed : Refusal
  lease_is : LeaseState → Refusal

pub data Decision : Type 0 where
  granted : Lease → Decision
  refused : Refusal → Decision

abbrev is_live : LeaseState → Bool
is_live connected = true
is_live committing = true
is_live _ = false

abbrev granted_lease : CommitKind → Lease → Lease
granted_lease replace l = record { state = committing; expires_at_ms = none }
granted_lease plugin l = l

unfoldable pub decide_commit : Lease → Bool → CommitKind → Decision
decide_commit l still_claimed kind =
    if not still_claimed
    then refused not_claimed
    else if not (is_live l.state)
    then refused (lease_is l.state)
    else granted (granted_lease kind l)

-- A job's row: `ended` for `endedAt !== null`, and the columns that hold its lease.
pub record JobRow : Type 0 where
  pub id : Str
  pub ended : Bool
  pub cancel_requested : Bool
  pub lease : Option Lease

-- One file as the hub sees it: its row's state is `running`, and its jobs.
pub record FileView : Type 0 where
  pub running : Bool
  pub jobs : List JobRow

abbrev is_latest : Str → List JobRow → Bool
is_latest id [] = false
is_latest id (latest ∷ _) = str_eq latest.id id && not latest.ended

abbrev pub has_id : Str → JobRow → Bool
has_id id row = str_eq row.id id

-- `setLeaseIfChanged`
pub set_lease : Str → Lease → List JobRow → List JobRow
set_lease id l [] = []
set_lease id l (row ∷ rows) =
    (if has_id id row then record row { lease = some l } else row) ∷ set_lease id l rows

abbrev commit_with : FileView → JobRow → Lease → CommitKind → FileView × Option Refusal
commit_with f row l kind = elim (decide_commit l (f.running && is_latest row.id f.jobs) kind) [
  | refused why ↦ (f, some why)
  | granted l' ↦ (record f { jobs = set_lease row.id l' f.jobs }, none)
]

-- The rows after the request, and the refusal, if it is one.
unfoldable pub decide_commit_for : FileView → Str → CommitKind → FileView × Option Refusal
unfolding decide_commit set_lease
decide_commit_for f id kind = elim (find (has_id id) f.jobs) [
  | none ↦ (f, some not_running)
  | some row ↦ if row.ended then (f, some not_running) else elim row.lease [
    | none ↦ (f, some not_running)
    | some l ↦ if row.cancel_requested then (f, some cancelled) else commit_with f row l kind
  ]
]

unfoldable pub step_lease_for : FileView → Str → FileView
unfolding lease_after_step set_lease
step_lease_for f id = elim (find (has_id id) f.jobs) [
  | none ↦ f
  | some row ↦ if row.ended then f else elim row.lease [
    | none ↦ f
    | some l ↦ record f { jobs = set_lease id (lease_after_step l) f.jobs }
  ]
]
