-- ===== src/Lease/Grace.antt =====
-- The lease alone, through any sequence of what can happen to it: core/src/lease.ts and, of
-- packages/server/src/nodes/hub.ts, `release`, the answer to a node that returns, and the sweep.
use trawlarr.Prelude.{
  ℕ, ◌+◌, ◌*◌, ◌≤◌, ◌<◌, ◌≡◌, ◌≢◌, refl, Bool, true, false, ◌&&◌, none, List, [], ◌∷◌, arith, ltb,
  ◌⊎◌, if◌then◌else◌,
}
use trawlarr.Lease.{
  connected, grace, committing, expired, LeaseState, Lease, lease_on_claim, lease_on_disconnect,
  lease_on_daemon_start, lease_is_expired, lease_on_reconnect, lease_after_step, CommitKind,
  replace, plugin, Decision, granted, refused, decide_commit,
}

abbrev is_grace : LeaseState → Bool
is_grace grace = true
is_grace _ = false

abbrev is_expired : LeaseState → Bool
is_expired expired = true
is_expired _ = false

abbrev is_live : LeaseState → Bool
is_live connected = true
is_live committing = true
is_live _ = false

-- `release`: nothing changes while the job's report is being settled.
unfoldable pub release_lease : Lease → Bool → Lease
release_lease l settling =
    if settling then l else record { state = expired; expires_at_ms = l.expires_at_ms }

-- What `reconcile` does for a job that the returning node still runs.
unfoldable pub running_returns : Lease → ℕ → Bool → Lease
unfolding lease_on_reconnect release_lease
running_returns l now_ms settling =
    let next = lease_on_reconnect l now_ms in
    if is_expired l.state
    then l
    else if is_expired next.state
    then release_lease l settling
    else next

-- What it does for a job whose finished report the node holds; the clock is not read.
unfoldable pub held_report_returns : Lease → Lease
held_report_returns l =
    if is_grace l.state then record { state = connected; expires_at_ms = none } else l

-- What it does for a job that the node lost or does not mention.
unfoldable pub lost_returns : Lease → Bool → Lease
unfolding release_lease
lost_returns l settling = if is_expired l.state then l else release_lease l settling

-- `DEFAULT_STALE_AFTER_MS`, 24 hours
abbrev pub stale_after_ms : ℕ
stale_after_ms = 24 * 3600000

-- `sweepLeases` for one job, whose last sign of life was at `last_ms`.
unfoldable pub sweep_lease : Lease → ℕ → ℕ → Bool → Lease
unfolding lease_is_expired release_lease
sweep_lease l now_ms last_ms settling =
    if is_expired l.state
    then l
    else if lease_is_expired l now_ms
    then release_lease l settling
    else if is_live l.state && ltb (last_ms + stale_after_ms) now_ms
    then release_lease l settling
    else l

-- The node's connection is lost, the daemon starts, the node returns with the job running, with its
-- report or without it, the leases are swept, a step ends, or a commit is asked for.
pub data Event : Type 0 where
  disconnect : ℕ → ℕ → Event
  daemon_start : ℕ → ℕ → Event
  reconnect : ℕ → Bool → Event
  held_report : Event
  lost : Bool → Event
  sweep : ℕ → ℕ → Bool → Event
  after_step : Event
  commit : Bool → CommitKind → Event

abbrev decided : Lease → Decision → Lease
decided l (granted l') = l'
decided l (refused why) = l

unfoldable pub step : Lease → Event → Lease
unfolding lease_on_disconnect lease_on_daemon_start lease_after_step decide_commit running_returns
    held_report_returns lost_returns sweep_lease
step l (disconnect now g) = lease_on_disconnect l now g
step l (daemon_start now g) = lease_on_daemon_start l now g
step l (reconnect now settling) = running_returns l now settling
step l held_report = held_report_returns l
step l (lost settling) = lost_returns l settling
step l (sweep now last settling) = sweep_lease l now last settling
step l after_step = lease_after_step l
step l (commit claimed kind) = decided l (decide_commit l claimed kind)

unfoldable pub run : Lease → List Event → Lease
unfolding step
run l [] = l
run l (e ∷ es) = run (step l e) es

abbrev pub is_granted : Decision → Bool
is_granted (granted l) = true
is_granted (refused why) = false

-- A deadline stands beside `grace`, and not beside a live state.
abbrev pub IsValid : Lease → Type 0
IsValid l =
    (l.state ≡ grace → l.expires_at_ms ≢ none)
    × ((l.state ≡ connected) ⊎ (l.state ≡ committing) → l.expires_at_ms ≡ none)

step-IsValid : (l : Lease) (e : Event) → IsValid l → IsValid (step l e)
unfolding step
step-IsValid l (disconnect now g) v = (λ p. ground arith, λ p. ground arith)
step-IsValid l (daemon_start now g) v = (λ p. ground arith, λ p. ground arith)
step-IsValid l (reconnect now false) v = (λ p. ground arith, λ p. ground arith)
step-IsValid l (reconnect now true) v = (λ p. ground arith, λ p. ground arith)
step-IsValid l (lost false) v = (λ p. ground arith, λ p. ground arith)
step-IsValid l (lost true) v = (λ p. ground arith, λ p. ground arith)
step-IsValid l (sweep now last false) v = (λ p. ground arith, λ p. ground arith)
step-IsValid l (sweep now last true) v = (λ p. ground arith, λ p. ground arith)
step-IsValid l held_report v = (λ p. ground arith, λ p. ground arith)
step-IsValid l after_step v = (λ p. ground arith, λ p. ground arith)
step-IsValid l (commit true replace) v = (λ p. ground arith, λ p. ground arith)
step-IsValid l (commit true plugin) v = (λ p. ground arith, λ p. ground arith)
step-IsValid l (commit false kind) v = (λ p. ground arith, λ p. ground arith)

run_from-IsValid : (l : Lease) (es : List Event) → IsValid l → IsValid (run l es)
unfolding run
run_from-IsValid l [] v = v
run_from-IsValid l (e ∷ es) v = run_from-IsValid (step l e) es (step-IsValid l e v)

-- Whatever happens after a claim, the lease carries a deadline while it is in grace, and none while
-- it is connected or committing.
pub run-IsValid : (es : List Event) → IsValid (run lease_on_claim es)
unfolding lease_on_claim
run-IsValid es = run_from-IsValid lease_on_claim es (λ p. ground arith, λ p. refl)

step-expired : (l : Lease) (e : Event) → l.state ≡ expired → step l e ≡ l
unfolding step
step-expired l (disconnect now g) h = ground arith
step-expired l (daemon_start now g) h = ground arith
step-expired l (reconnect now settling) h = ground arith
step-expired l held_report h = ground arith
step-expired l (lost settling) h = ground arith
step-expired l (sweep now last settling) h = ground arith
step-expired l after_step h = ground arith
step-expired l (commit true kind) h = ground arith
step-expired l (commit false kind) h = ground arith

run-expired : (l : Lease) (es : List Event) → l.state ≡ expired → (run l es).state ≡ expired
unfolding run
run-expired l [] h = h
run-expired l (e ∷ es) h = run-expired (step l e) es (rw (step-expired l e h) h)

not_granted_expired :
    (l : Lease) (claimed : Bool) (kind : CommitKind)
    → l.state ≡ expired
    → is_granted (decide_commit l claimed kind) ≡ false
unfolding decide_commit
not_granted_expired l true kind h = ground arith
not_granted_expired l false kind h = refl

-- A node disconnects at `t0` and comes back at `t`, with nothing done to the lease in between, and no
-- report of the job is being settled. If it still runs the job, it has its lease back exactly if `t`
-- is before the end of its grace; otherwise the lease is expired, and whatever happens later it stays
-- so and no commit of the job is ever granted. If it holds the finished report, it has its lease back
-- whatever the time is.
pub late_return :
    (l : Lease) (t0 g t : ℕ)
    → l.state ≡ connected
    → let away = lease_on_disconnect l t0 g in
      let back = step away (reconnect t false) in
      (t < t0 + g → back.state ≡ connected)
      × (t0 + g ≤ t
          → (back.state ≡ expired)
            × ((es : List Event) (claimed : Bool) (kind : CommitKind)
                → ((run back es).state ≡ expired)
                  × (is_granted (decide_commit (run back es) claimed kind) ≡ false)))
      × ((step away held_report).state ≡ connected)
unfolding step running_returns lease_on_reconnect lease_on_disconnect held_report_returns
late_return l t0 g t h = (
  λ p. ground arith,
  λ p. (
    ground arith,
    λ es claimed kind.
        let ends = run-expired _ es (ground arith) in
        (ends, not_granted_expired _ claimed kind ends),
  ),
  ground arith,
)

-- What ends a commit.
abbrev pub Ends : Event → Type 0
Ends after_step = Unit
Ends (lost settling) = settling ≡ false
Ends (sweep now last settling) = (settling ≡ false) × (last + stale_after_ms < now)
Ends _ = ⊥
