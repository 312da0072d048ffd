-- ===== src/Schedule/Weekly.antt =====
-- A window as a span of the week.
use trawlarr.Prelude.{
  ℕ, ◌+◌, ◌-◌, ◌*◌, ◌%◌, ◌≤◌, ◌<◌, ◌≡◌, refl, ◌↔◌, ◌⊎◌, inl, inr, true, List, [], ◌∷◌, arith,
  if◌then◌else◌, leb, ◌==◌, Memᴰ, All, Bool-cases,
}
use trawlarr.Schedule.{
  ScheduleWindow, ZonedInstant, window_contains, includes_day, in_span, started_on, is_empty,
}

-- What validation demands of a window, and what a projection onto a zone gives.
pub record IsWindow (w : ScheduleWindow) : Type 0 where
  pub start_bound : w.start_minute ≤ 1439
  pub end_positive : 1 ≤ w.end_minute
  pub end_bound : w.end_minute ≤ 1440
  pub day_bounds : All (λ d. d ≤ 6) w.days

pub record IsInstant (at : ZonedInstant) : Type 0 where
  pub weekday_bound : at.weekday < 7
  pub minute_bound : at.minute_of_day < 1440

-- How long the window lasts, in minutes.
abbrev pub duration : ScheduleWindow → ℕ
duration w =
    if leb w.end_minute w.start_minute
    then w.end_minute + 1440 - w.start_minute
    else w.end_minute - w.start_minute

-- The minutes since the window's start on the given day, round the week of 10080 minutes.
abbrev pub elapsed : ScheduleWindow → ℕ → ZonedInstant → ℕ
elapsed w day at =
    (at.weekday * 1440 + at.minute_of_day + 10080 - (day * 1440 + w.start_minute)) % 10080

span_of_elapsed :
    (w : ScheduleWindow) (at : ZonedInstant) (day : ℕ)
    → IsWindow w
    → IsInstant at
    → day < 7
    → elapsed w day at < duration w
    → (in_span w at.minute_of_day ≡ true) × (started_on w at ≡ day)
span_of_elapsed w at day v i d h = (ground arith, ground arith)

elapsed_of_span :
    (w : ScheduleWindow) (at : ZonedInstant)
    → IsWindow w
    → IsInstant at
    → in_span w at.minute_of_day ≡ true
    → (started_on w at < 7) × (elapsed w (started_on w at) at < duration w)
elapsed_of_span w at v i h = (ground arith, ground arith)

includes_day_sound : (days : List ℕ) (d : ℕ) → includes_day days d ≡ true → Memᴰ d days
unfolding includes_day
includes_day_sound [] d h = cc
includes_day_sound (x ∷ xs) d h = elim (Bool-cases (x == d)) [
  | inl same ↦ Memᴰ.head (ground arith)
  | inr other ↦ Memᴰ.tail (includes_day_sound xs d (rw (other, includes_day) at h))
]

includes_day_complete : (days : List ℕ) (d : ℕ) → Memᴰ d days → includes_day days d ≡ true
unfolding includes_day
includes_day_complete [] d m = elim m [ ]
includes_day_complete (x ∷ xs) d (Memᴰ.head e) = ground arith
includes_day_complete (x ∷ xs) d (Memᴰ.tail m) = ground (arith, includes_day_complete xs d m)

-- A start of the window, on one of its days (on any day, if it names none), whose span covers the
-- instant.
pub record IsActive (w : ScheduleWindow) (at : ZonedInstant) : Type 0 where
  pub day : ℕ
  pub day_bound : day < 7
  pub named : (w.days ≡ []) ⊎ Memᴰ day w.days
  pub covered : elapsed w day at < duration w

active-contains :
    (w : ScheduleWindow) (at : ZonedInstant)
    → IsWindow w
    → IsInstant at
    → IsActive w at
    → window_contains w at ≡ true
unfolding window_contains
active-contains w at v i a =
    let (span, day) = span_of_elapsed w at a.day v i a.day_bound a.covered in
    elim a.named [
      | inl any_day ↦ rw (span, any_day) refl
      | inr m ↦
          let found : includes_day w.days (started_on w at) ≡ true =
            rw day (includes_day_complete w.days a.day m) in
          rw (span, found) (ground arith)
    ]

contains-IsActive :
    (w : ScheduleWindow) (at : ZonedInstant)
    → IsWindow w
    → IsInstant at
    → window_contains w at ≡ true
    → IsActive w at
unfolding window_contains
contains-IsActive w at v i h = elim (Bool-cases (in_span w at.minute_of_day)) [
  | inr outside ↦ cc (rw (outside, window_contains) at h)
  | inl span ↦
      let (bound, covered) = elapsed_of_span w at v i span in
      record {
        day = started_on w at;
        day_bound = bound;
        named = named w.days (rw (span, window_contains) at h);
        covered = covered;
      }
]
  where
    named :
        (days : List ℕ)
        → (if is_empty days then true else includes_day days (started_on w at)) ≡ true
        → (days ≡ []) ⊎ Memᴰ (started_on w at) days
    named [] e = inl refl
    named (d ∷ ds) e = inr (includes_day_sound (d ∷ ds) (started_on w at) e)

-- A window contains an instant exactly if the span of some start of it, on a day that it names (any
-- day if it names none), covers the instant; the span begins at the start minute of that day, runs
-- to the end minute, over midnight if that comes first, and over the end of the week.
pub window_contains-IsActive :
    (w : ScheduleWindow) (at : ZonedInstant)
    → IsWindow w
    → IsInstant at
    → (window_contains w at ≡ true) ↔ IsActive w at
window_contains-IsActive w at v i = (contains-IsActive w at v i, active-contains w at v i)
