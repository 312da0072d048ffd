-- ===== src/Ledger/Steps.antt =====
-- The life of one file's record: what the claim, the end of a run, a release, a scan and a person do
-- to it, in any order.
use trawlarr.Prelude.{
  ℕ, ◌+◌, ◌-◌, ◌≤◌, ◌<◌, ◌≡◌, ◌≢◌, refl, Bool, true, false, Option, none, some, Str, List, [], ◌∷◌,
  All, arith, if◌then◌else◌, is_some,
}
use trawlarr.Ledger.{
  FileState, running, failed, held, LedgerRecord, RunOutcome, apply_run_outcome, apply_stall,
  apply_requeue, apply_release_unpenalised, is_eligible, claimed, scan_settled,
}

-- `park` is what POST /files/:id/hold writes: a hold with a deadline, whatever the state was.
pub data Event : Type 0 where
  claim : ℕ → Event
  finish : RunOutcome → Str → ℕ → Event
  stall : ℕ → Event
  release : Event
  scan : Option Str → Event
  requeue : Event
  park : ℕ → Event

abbrev pub is_running : FileState → Bool
is_running running = true
is_running _ = false

unfoldable pub parked : LedgerRecord → ℕ → LedgerRecord
parked r until = record r { state = held; hold_until_ms = some until }

-- The end of a run and a stall fold into the record whatever its state is, as in
-- packages/server/src/worker/apply-report.ts (`applyJobReport`, `stallAttempt`): a report can come
-- late, after the job was given up.
unfoldable pub step : (Str → Str) → LedgerRecord → Event → LedgerRecord
unfolding parked apply_run_outcome apply_stall apply_requeue apply_release_unpenalised is_eligible
    scan_settled
step sha r (claim t) = if is_eligible r t then claimed r else r
step sha r (finish o sig t) = apply_run_outcome sha r o sig t
step sha r (stall t) = apply_stall r t
step sha r release = apply_release_unpenalised r
step sha r (scan signature) = scan_settled r signature
step sha r requeue = apply_requeue r
step sha r (park until) = parked r until

unfoldable pub run : (Str → Str) → LedgerRecord → List Event → LedgerRecord
unfolding step
run sha r [] = r
run sha r (e ∷ es) = run sha (step sha r e) es

-- How many claims took the file, and how often a claim was given back without an attempt.
abbrev claim_taken : LedgerRecord → Event → ℕ
claim_taken r (claim t) = if is_eligible r t then 1 else 0
claim_taken r _ = 0

abbrev given_back : LedgerRecord → Event → ℕ
given_back r release = if is_running r.state then 1 else 0
given_back r _ = 0

unfoldable pub claims : (Str → Str) → LedgerRecord → List Event → ℕ
unfolding step
claims sha r [] = 0
claims sha r (e ∷ es) = claim_taken r e + claims sha (step sha r e) es

unfoldable pub releases : (Str → Str) → LedgerRecord → List Event → ℕ
unfolding step
releases sha r [] = 0
releases sha r (e ∷ es) = given_back r e + releases sha (step sha r e) es

-- An event that neither ends a run well nor is a person's decision.
abbrev pub IsFruitless : Event → Type 0
IsFruitless (finish o sig t) = o.success ≡ false
IsFruitless requeue = ⊥
IsFruitless (park until) = ⊥
IsFruitless _ = Unit

abbrev HasBudget : LedgerRecord → Type 0
HasBudget r = r.review_reason ≡ none → r.state ≢ failed → r.attempt_count < 3

abbrev left_in : FileState → ℕ → ℕ
left_in running n = 2 - n
left_in _ n = 3 - n

left : LedgerRecord → ℕ
left r = if is_some r.review_reason then 0 else left_in r.state r.attempt_count

step-HasBudget :
    (sha : Str → Str) (r : LedgerRecord) (e : Event)
    → IsFruitless e
    → HasBudget r
    → HasBudget (step sha r e)
unfolding step
step-HasBudget sha r (claim t) f h = ground arith
step-HasBudget sha r (finish o sig t) f h = ground arith
step-HasBudget sha r (stall t) f h = ground arith
step-HasBudget sha r release f h = ground arith
step-HasBudget sha r (scan s) f h = ground arith
step-HasBudget sha r requeue f h = absurd f
step-HasBudget sha r (park until) f h = absurd f

step-left :
    (sha : Str → Str) (r : LedgerRecord) (e : Event)
    → IsFruitless e
    → HasBudget r
    → claim_taken r e + left (step sha r e) ≤ left r + given_back r e
unfolding step left
step-left sha r (claim t) f h = ground arith
step-left sha r (finish o sig t) f h = ground arith
step-left sha r (stall t) f h = ground arith
step-left sha r release f h = ground arith
step-left sha r (scan s) f h = ground arith
step-left sha r requeue f h = absurd f
step-left sha r (park until) f h = absurd f

claims-left :
    (sha : Str → Str) (r : LedgerRecord) (es : List Event)
    → All IsFruitless es
    → HasBudget r
    → claims sha r es ≤ left r + releases sha r es
unfolding claims releases
claims-left sha r [] f h = omega arith
claims-left sha r (e ∷ es) (f, fs) h = omega (
  arith,
  step-left sha r e f h,
  claims-left sha (step sha r e) es fs (step-HasBudget sha r e f h),
)

left-le : (r : LedgerRecord) → left r ≤ 3
unfolding left
left-le r = ground arith

-- Until a run succeeds or a person steps in, a file that has a budget left is claimed at most three
-- times, not counting claims that were given back without an attempt; whatever claims, failing or
-- held reports, stalls, releases and scans happen to it, late ones included, at whatever times, in
-- whatever order.
pub claims-le :
    (sha : Str → Str) (r : LedgerRecord) (es : List Event)
    → r.attempt_count < 3
    → All IsFruitless es
    → claims sha r es ≤ 3 + releases sha r es
claims-le sha r es h f = omega (arith, claims-left sha r es f (λ m n. h), left-le r)

-- A claim, a stall, a release, a scan, or the report of a run that failed and asked for no review.
abbrev pub IsFailing : Event → Type 0
IsFailing (finish o sig t) = (o.success ≡ false) × (o.held ≡ false)
IsFailing requeue = ⊥
IsFailing (park until) = ⊥
IsFailing _ = Unit

-- How many failed attempts are reported.
unfoldable pub failures : List Event → ℕ
failures [] = 0
failures (finish o sig t ∷ es) = 1 + failures es
failures (stall t ∷ es) = 1 + failures es
failures (claim t ∷ es) = failures es
failures (release ∷ es) = failures es
failures (scan signature ∷ es) = failures es
failures (requeue ∷ es) = failures es
failures (park until ∷ es) = failures es

abbrev pub IsSpent : LedgerRecord → Type 0
IsSpent r = (r.state ≡ failed) × (r.review_reason ≡ none) × (3 ≤ r.attempt_count)

step-IsSpent :
    (sha : Str → Str) (r : LedgerRecord) (e : Event)
    → IsFailing e
    → IsSpent r
    → IsSpent (step sha r e)
unfolding step
step-IsSpent sha r (claim t) f h = (ground arith, ground arith, ground arith)
step-IsSpent sha r (finish o sig t) f h = (ground arith, ground arith, ground arith)
step-IsSpent sha r (stall t) f h = (ground arith, ground arith, ground arith)
step-IsSpent sha r release f h = (ground arith, ground arith, ground arith)
step-IsSpent sha r (scan none) f h = h
step-IsSpent sha r (scan (some s)) f h = (ground arith, ground arith, ground arith)
step-IsSpent sha r requeue f h = absurd f
step-IsSpent sha r (park until) f h = absurd f

step-failures :
    (sha : Str → Str) (r : LedgerRecord) (e : Event) (es : List Event)
    → IsFailing e
    → IsSpent r
    → (claim_taken r e ≡ 0)
      × ((step sha r e).attempt_count + failures es ≡ r.attempt_count + failures (e ∷ es))
unfolding step failures
step-failures sha r (claim t) es f h = (ground arith, ground arith)
step-failures sha r (finish o sig t) es f h = (refl, ground arith)
step-failures sha r (stall t) es f h = (refl, ground arith)
step-failures sha r release es f h = (refl, refl)
step-failures sha r (scan none) es f h = (refl, refl)
step-failures sha r (scan (some s)) es f h = (refl, ground arith)
step-failures sha r requeue es f h = absurd f
step-failures sha r (park until) es f h = absurd f

-- A failed file that is not under review and has at least three attempts stays failed, is claimed by
-- no one, and counts each failed attempt that is still reported, whatever claims, late failing
-- reports, late stalls, releases and scans follow, in whatever order. The reports that follow are of
-- runs that failed and asked for no review.
pub spent_stays_failed :
    (sha : Str → Str) (r : LedgerRecord) (es : List Event)
    → r.state ≡ failed
    → r.review_reason ≡ none
    → 3 ≤ r.attempt_count
    → All IsFailing es
    → ((run sha r es).state ≡ failed)
      × (claims sha r es ≡ 0)
      × ((run sha r es).attempt_count ≡ r.attempt_count + failures es)
unfolding run claims failures
spent_stays_failed sha r [] f n a es = (f, refl, omega arith)
spent_stays_failed sha r (e ∷ es) f n a (h, hs) =
    let (f', n', a') = step-IsSpent sha r e h (f, n, a) in
    let (none_taken, counted) = step-failures sha r e es h (f, n, a) in
    let (state, taken, total) = spent_stays_failed sha (step sha r e) es f' n' a' hs in
    (state, omega (arith, none_taken, taken), omega (arith, counted, total))

-- A hold by a person reopens a failed file, with no requeue: a claim after the deadline takes it,
-- with the attempts that it had, and a stall of that run counts one more.
pub hold_reopens :
    (sha : Str → Str) (r : LedgerRecord) (until t t' : ℕ)
    → r.state ≡ failed
    → r.review_reason ≡ none
    → until < t
    → let after = run sha r (park until ∷ claim t ∷ []) in
      (after.state ≡ running)
      × (after.attempt_count ≡ r.attempt_count)
      × ((step sha after (stall t')).attempt_count ≡ r.attempt_count + 1)
unfolding run step parked
hold_reopens sha r until t t' f n h = (ground arith, ground arith, ground arith)
