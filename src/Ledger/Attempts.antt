-- ===== src/Ledger/Attempts.antt =====
-- Failed attempts: the retry budget and the waits between tries.
use trawlarr.Prelude.{ℕ, ◌+◌, ◌*◌, ◌<◌, ◌≡◌, true, false, none, some, arith, ◌⊎◌, ◌↔◌}
use trawlarr.Ledger.{LedgerRecord, failed, record_failed_attempt, is_eligible, claimed}

-- A file that starts with a full budget and fails three runs in a row waits five minutes, then
-- twenty-five, and is then failed, with no hold and no further try at any time.
pub three_failures :
    (r : LedgerRecord) (t1 t2 t3 : ℕ)
    → r.attempt_count ≡ 0
    → r.review_reason ≡ none
    → let first = record_failed_attempt r t1 in
      let second = record_failed_attempt (claimed first) t2 in
      let third = record_failed_attempt (claimed second) t3 in
      (first.hold_until_ms ≡ some (t1 + 5 * 60000))
      × (second.hold_until_ms ≡ some (t2 + 25 * 60000))
      × (third.state ≡ failed)
      × (third.attempt_count ≡ 3)
      × ((t : ℕ) → is_eligible third t ≡ false)
unfolding record_failed_attempt is_eligible
three_failures r t1 t2 t3 none_yet no_review =
    (ground arith, ground arith, ground arith, ground arith, λ t. ground arith)

-- A failed attempt leaves the file eligible at a time `t` exactly if it waits for no review and this
-- was its first failure and `t` is more than five minutes later, or its second and `t` is more than
-- twenty-five minutes later.
pub failed_attempt_eligible_iff :
    (r : LedgerRecord) (now t : ℕ)
    → (is_eligible (record_failed_attempt r now) t ≡ true) ↔ (
        (r.review_reason ≡ none)
        × (((r.attempt_count ≡ 0) × (now + 300000 < t))
            ⊎ ((r.attempt_count ≡ 1) × (now + 1500000 < t))))
unfolding record_failed_attempt is_eligible
failed_attempt_eligible_iff r now t = (λ h. ground arith, λ (e, c). ground arith)
