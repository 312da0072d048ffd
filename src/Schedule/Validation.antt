-- ===== src/Schedule/Validation.antt =====
-- Which schedules are accepted.
use trawlarr.Prelude.{
  ℕ, ◌≤◌, ◌≡◌, refl, ◌↔◌, inl, inr, Bool, true, none, List, [], ◌∷◌, Str, arith, Bool-cases, All,
  pos, negsuc,
}
use trawlarr.Schedule.{
  Number, int, other, RawWindow, RawSchedule, max_safe_integer, is_whole_number_in_range,
  first_bad_count, all_days, check_window, check_windows, validate_schedule,
}

abbrev pub IsInRange : ℕ → ℕ → Number → Type 0
IsInRange low high (int (pos n)) = (low ≤ n) × (n ≤ high)
IsInRange low high (int (negsuc n)) = ⊥
IsInRange low high other = ⊥

abbrev pub IsCount : Str × Number → Type 0
IsCount c = IsInRange 0 max_safe_integer c.1

pub record IsValidWindow (w : RawWindow) : Type 0 where
  pub start_fits : IsInRange 0 1439 w.start_minute
  pub end_fits : IsInRange 1 1440 w.end_minute
  pub days_fit : All (IsInRange 0 6) w.days
  pub counts_fit : All IsCount w.counts

pub record IsValidSchedule (known : Str → Bool) (s : RawSchedule) : Type 0 where
  pub zone_known : known s.timezone ≡ true
  pub base_fits : All IsCount s.base_counts
  pub windows_fit : All IsValidWindow s.windows

IsInRange-iff :
    (x : Number) (low high : ℕ)
    → (is_whole_number_in_range x low high ≡ true) ↔ IsInRange low high x
unfolding is_whole_number_in_range
IsInRange-iff (int (pos n)) low high = (λ h. (ground arith, ground arith), λ h. ground arith)
IsInRange-iff (int (negsuc n)) low high = (λ h. cc h, λ h. absurd h)
IsInRange-iff other low high = (λ h. cc h, λ h. absurd h)

first_bad_count_iff : (cs : List (Str × Number)) → (first_bad_count cs ≡ none) ↔ All IsCount cs
unfolding first_bad_count
first_bad_count_iff [] = (λ h. tt, λ h. refl)
first_bad_count_iff ((key, x) ∷ cs) =
    elim (Bool-cases (is_whole_number_in_range x 0 max_safe_integer)) [
      | inl t ↦ (
        λ h. (
          (IsInRange-iff x 0 max_safe_integer).0 t,
          (first_bad_count_iff cs).0 (rw (t, first_bad_count) at h),
        ),
        λ h. rw t ((first_bad_count_iff cs).1 h.1),
      )
      | inr f ↦ (
        λ h. cc (rw (f, first_bad_count) at h),
        λ h. cc ((IsInRange-iff x 0 max_safe_integer).1 h.0, f),
      )
    ]

all_days_iff : (ds : List Number) → (all_days ds ≡ true) ↔ All (IsInRange 0 6) ds
unfolding all_days
all_days_iff [] = (λ h. tt, λ h. refl)
all_days_iff (d ∷ ds) = elim (Bool-cases (is_whole_number_in_range d 0 6)) [
  | inl t ↦ (
    λ h. ((IsInRange-iff d 0 6).0 t, (all_days_iff ds).0 (rw (t, all_days) at h)),
    λ h. rw t ((all_days_iff ds).1 h.1),
  )
  | inr f ↦ (λ h. cc (rw (f, all_days) at h), λ h. cc ((IsInRange-iff d 0 6).1 h.0, f))
]

check_window_iff : (w : RawWindow) → (check_window w ≡ none) ↔ IsValidWindow w
unfolding check_window
check_window_iff w = (
  λ h. record {
    start_fits = (IsInRange-iff w.start_minute 0 1439).0 (ground arith);
    end_fits = (IsInRange-iff w.end_minute 1 1440).0 (ground arith);
    days_fit = (all_days_iff w.days).0 (ground arith);
    counts_fit = (first_bad_count_iff w.counts).0 (ground arith);
  },
  λ v.
      rw
        (
          (IsInRange-iff w.start_minute 0 1439).1 v.start_fits,
          (IsInRange-iff w.end_minute 1 1440).1 v.end_fits,
          (all_days_iff w.days).1 v.days_fit,
          (first_bad_count_iff w.counts).1 v.counts_fit,
        )
        refl,
)

check_windows_iff : (ws : List RawWindow) → (check_windows ws ≡ none) ↔ All IsValidWindow ws
unfolding check_windows
check_windows_iff [] = (λ h. tt, λ h. refl)
check_windows_iff (w ∷ ws) = (
  λ h. ((check_window_iff w).0 (ground arith), (check_windows_iff ws).0 (ground arith)),
  λ h. rw ((check_window_iff w).1 h.0, (check_windows_iff ws).1 h.1, check_windows) refl,
)

-- Nothing is thrown exactly for the schedules whose zone is known, whose counts are non-negative safe
-- integers, and whose windows start at 0 to 1439, end at 1 to 1440, and name the days 0 to 6.
pub validate_schedule-none_iff :
    (known : Str → Bool) (s : RawSchedule)
    → (validate_schedule known s ≡ none) ↔ IsValidSchedule known s
unfolding validate_schedule
validate_schedule-none_iff known s = (
  λ h. record {
    zone_known = ground arith;
    base_fits = (first_bad_count_iff s.base_counts).0 (ground arith);
    windows_fit = (check_windows_iff s.windows).0 (ground arith);
  },
  λ v.
      rw
        (
          v.zone_known,
          (first_bad_count_iff s.base_counts).1 v.base_fits,
          (check_windows_iff s.windows).1 v.windows_fit,
        )
        refl,
)
