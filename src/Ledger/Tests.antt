-- ===== src/Ledger/Tests.antt =====
-- Records and outcomes at concrete values, and the theorems at them.
use trawlarr.Prelude.{
  ℕ, ◌+◌, ◌*◌, ◌≤◌, ◌<◌, ◌≡◌, ◌≢◌, ◌↔◌, ◌⊎◌, refl, Bool, true, false, ◌&&◌, not, none, some, List,
  [], ◌∷◌, codes, Str, str_eq, str_lt, int_text, trim, arith, inr,
}
use trawlarr.Facts.{FactSet, facts_hash}
use trawlarr.Ledger.{
  queued, running, failed, held, not_converging, LedgerRecord, RunOutcome, record_failed_attempt,
  apply_run_outcome, apply_stall, apply_requeue, is_eligible, is_known_good, claimed, was_noop,
  Candidate, claimable,
}
use trawlarr.Ledger.Attempts.{three_failures, failed_attempt_eligible_iff}
use trawlarr.Ledger.Convergence.{
  noop_stops, success_known_good, review_holds, claimable-is_eligible,
}
use trawlarr.Ledger.Steps.{
  Event, claim, stall, release, scan, park, step, run, claims, releases, claims-le,
  spent_stays_failed, failures, finish, hold_reopens,
}

abbrev movie : FactSet
movie = record {
  container = codes "mkv";
  size_bytes = 7000;
  duration_ms = some 5400;
  width = some 1920;
  height = some 1080;
  streams = [];
}

-- A stand-in for a hash that loses nothing.
abbrev plain : Str → Str
plain s = s

abbrev fresh : LedgerRecord
fresh = record {
  state = queued;
  signature = none;
  attempt_count = 0;
  consecutive_noop_count = 0;
  hold_until_ms = none;
  review_reason = none;
}

abbrev lost : LedgerRecord
lost = record fresh { state = failed; attempt_count = 3 }

abbrev outcome : Bool → Bool → FactSet → RunOutcome
outcome success on_hold post = record {
  success = success;
  held = on_hold;
  review_reason = some (codes "  ");
  claimed_modified = true;
  pre_facts = movie;
  post_facts = some post;
}

abbrev shrunk : FactSet
shrunk = record movie { size_bytes = 3000 }

three_failures_example :
    let first = record_failed_attempt fresh 10 in
    let second = record_failed_attempt (claimed first) 400000 in
    let third = record_failed_attempt (claimed second) 3000000 in
    (first.hold_until_ms ≡ some (10 + 5 * 60000))
    × (second.hold_until_ms ≡ some (400000 + 25 * 60000))
    × (third.state ≡ failed)
    × (third.attempt_count ≡ 3)
    × ((t : ℕ) → is_eligible third t ≡ false)
three_failures_example = three_failures fresh 10 400000 3000000 refl refl

failed_attempt_eligible_iff_example :
    (is_eligible (record_failed_attempt fresh 10) 300011 ≡ true) ↔ (
      (fresh.review_reason ≡ none)
      × (((fresh.attempt_count ≡ 0) × (10 + 300000 < 300011))
          ⊎ ((fresh.attempt_count ≡ 1) × (10 + 1500000 < 300011))))
failed_attempt_eligible_iff_example = failed_attempt_eligible_iff fresh 10 300011

noop_stops_example :
    let after = apply_run_outcome plain fresh (outcome true false movie) (codes "v1") 7 in
    (after.state ≡ not_converging)
    × (after.signature ≡ some (codes "v1"))
    × ((t : ℕ) → is_eligible after t ≡ false)
noop_stops_example =
    noop_stops plain fresh (outcome true false movie) (codes "v1") 7 refl refl refl (inr refl)

progress : was_noop plain (outcome true false shrunk) ≡ false
unfolding was_noop facts_hash str_eq str_lt int_text
progress = refl

success_known_good_example :
    let after = apply_run_outcome plain fresh (outcome true false shrunk) (codes "v1") 7 in
    (is_known_good after (codes "v1") ≡ not (was_noop plain (outcome true false shrunk)))
    × (after.attempt_count ≡ 0)
    × (after.hold_until_ms ≡ none)
    × (after.review_reason ≡ none)
success_known_good_example =
    success_known_good plain fresh (outcome true false shrunk) (codes "v1") 7 refl refl

default_reason :
    (apply_run_outcome plain fresh (outcome true true movie) (codes "v1") 7).review_reason
    ≡ some (codes "Review requested by the flow.")
unfolding apply_run_outcome trim
default_reason = refl

review_holds_example :
    let after = apply_run_outcome plain fresh (outcome true true movie) (codes "v1") 7 in
    (after.state ≡ held)
    × (after.review_reason ≢ none)
    × (after.attempt_count ≡ 0)
    × ((t : ℕ) → is_eligible after t ≡ false)
    × (apply_stall after 9 ≡ after)
    × ((t : ℕ) → is_eligible (apply_requeue after) t ≡ true)
review_holds_example = review_holds plain fresh (outcome true true movie) (codes "v1") 7 9 refl

claimable-is_eligible_example :
    let c : Candidate = record { ledger = fresh; missing = false; path_under_review = false } in
    claimable c 5 ≡ (is_eligible fresh 5 && true)
claimable-is_eligible_example =
    claimable-is_eligible (record { ledger = fresh; missing = false; path_under_review = false }) 5

abbrev bad_day : List Event
bad_day =
    claim 1
    ∷ stall 2
    ∷ claim 3
    ∷ claim 300003
    ∷ release
    ∷ claim 300004
    ∷ stall 300005
    ∷ scan (some (codes "v1"))
    ∷ claim 9000000
    ∷ stall 9000001
    ∷ claim 99000000
    ∷ []

bad_day_count : claims plain fresh bad_day ≡ 4
unfolding claims
bad_day_count = refl

claims-le_example : claims plain fresh bad_day ≤ 3 + releases plain fresh bad_day
claims-le_example =
    claims-le plain fresh bad_day (omega arith)
      (tt, (tt, (tt, (tt, (tt, (tt, (tt, (tt, (tt, (tt, (tt, tt)))))))))))

abbrev late_news : List Event
late_news =
    stall 40
    ∷ scan (some (codes "v2"))
    ∷ claim 50
    ∷ finish (outcome false false movie) (codes "v1") 60
    ∷ []

spent_stays_failed_example :
    ((run plain lost late_news).state ≡ failed)
    × (claims plain lost late_news ≡ 0)
    × ((run plain lost late_news).attempt_count ≡ 3 + failures late_news)
spent_stays_failed_example =
    spent_stays_failed plain lost late_news refl refl (omega arith)
      (tt, (tt, (tt, ((refl, refl), tt))))

hold_reopens_example :
    let after = run plain lost (park 100 ∷ claim 101 ∷ []) in
    (after.state ≡ running)
    × (after.attempt_count ≡ 3)
    × ((step plain after (stall 102)).attempt_count ≡ 3 + 1)
hold_reopens_example = hold_reopens plain lost 100 101 102 refl refl (omega arith)
