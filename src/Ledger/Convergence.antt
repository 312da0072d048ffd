-- ===== src/Ledger/Convergence.antt =====
-- Runs that succeed, and files that wait for a person.
use trawlarr.Prelude.{
  ℕ, ◌≡◌, true, false, ◌&&◌, not, none, some, Str, str_eq_refl, arith, ◌≢◌, ◌⊎◌, inl, inr,
}
use trawlarr.Facts.Laws.{facts_hash_total}
use trawlarr.Ledger.{
  LedgerRecord, RunOutcome, held, not_converging, was_noop, apply_run_outcome, apply_stall,
  apply_requeue, is_known_good, is_eligible, Candidate, claimable,
}

-- A run that claims to have modified the file and left the same facts, or none to compare, stops the
-- file: it is not converging, and at no time eligible.
pub noop_stops :
    (sha : Str → Str) (r : LedgerRecord) (o : RunOutcome) (sig : Str) (now : ℕ)
    → o.held ≡ false
    → o.success ≡ true
    → o.claimed_modified ≡ true
    → (o.post_facts ≡ none) ⊎ (o.post_facts ≡ some o.pre_facts)
    → let after = apply_run_outcome sha r o sig now in
      (after.state ≡ not_converging)
      × (after.signature ≡ some sig)
      × ((t : ℕ) → is_eligible after t ≡ false)
unfolding apply_run_outcome is_eligible was_noop
noop_stops sha r o sig now h s c p = elim p [
  | inl e ↦ (ground arith, ground arith, λ t. ground arith)
  | inr e ↦
      let (text, hashed) = facts_hash_total sha o.pre_facts in
      (
        ground (arith, str_eq_refl text),
        ground (arith, str_eq_refl text),
        λ t. ground (arith, str_eq_refl text),
      )
]

-- A successful run that does not hold the file clears the attempts, the hold and the review, and
-- leaves the file known good under the current signature exactly if it was no no-op.
pub success_known_good :
    (sha : Str → Str) (r : LedgerRecord) (o : RunOutcome) (sig : Str) (now : ℕ)
    → o.held ≡ false
    → o.success ≡ true
    → let after = apply_run_outcome sha r o sig now in
      (is_known_good after sig ≡ not (was_noop sha o))
      × (after.attempt_count ≡ 0)
      × (after.hold_until_ms ≡ none)
      × (after.review_reason ≡ none)
unfolding apply_run_outcome is_known_good
success_known_good sha r o sig now h s =
    (ground (arith, str_eq_refl sig), ground arith, ground arith, ground arith)

-- A run that asks for a review holds the file: it keeps its attempts, is at no time eligible, a stall
-- leaves its record as it is, and a requeue makes it eligible at once.
pub review_holds :
    (sha : Str → Str) (r : LedgerRecord) (o : RunOutcome) (sig : Str) (now now' : ℕ)
    → o.held ≡ true
    → let after = apply_run_outcome sha r o sig now in
      (after.state ≡ held)
      × (after.review_reason ≢ none)
      × (after.attempt_count ≡ r.attempt_count)
      × ((t : ℕ) → is_eligible after t ≡ false)
      × (apply_stall after now' ≡ after)
      × ((t : ℕ) → is_eligible (apply_requeue after) t ≡ true)
unfolding apply_run_outcome is_eligible apply_stall apply_requeue
review_holds sha r o sig now now' h =
    (ground arith, ground arith, ground arith, λ t. ground arith, ground arith, λ t. ground arith)

-- The claiming statement takes a row exactly when its ledger is eligible, its file is not marked
-- missing and no row under review occupies its path.
pub claimable-is_eligible :
    (c : Candidate) (now : ℕ)
    → claimable c now ≡ (is_eligible c.ledger now && (not c.missing && not c.path_under_review))
unfolding claimable is_eligible
claimable-is_eligible c now = ground arith
