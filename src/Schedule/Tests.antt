-- ===== src/Schedule/Tests.antt =====
-- A Saturday night window, and the theorems at it.
use trawlarr.Prelude.{
  ℕ, ◌≡◌, ◌↔◌, refl, true, false, none, some, List, [], ◌∷◌, Str, codes, str_eq, arith, pos,
}
use trawlarr.Schedule.{
  transcode, ScheduleWindow, ScheduleConfig, ZonedInstant, window_contains, includes_day,
  zoned_instant, evaluate_schedule, overwrite, RawSchedule, int, bad_start, validate_schedule,
}
use trawlarr.Schedule.Weekly.{IsActive, window_contains-IsActive}
use trawlarr.Schedule.Evaluation.{count_of, last_count, evaluate_schedule-last_count}
use trawlarr.Schedule.Validation.{IsValidSchedule, validate_schedule-none_iff}

-- Saturday 23:00 to 06:00.
abbrev night : ScheduleWindow
night = record {
  id = codes "night";
  days = 6 ∷ [];
  start_minute = 1380;
  end_minute = 360;
  counts = record { transcode = some 4; health = none };
}

abbrev sunday_two : ZonedInstant
sunday_two = record { weekday = 0; minute_of_day = 120 }

night_holds : window_contains night sunday_two ≡ true
unfolding window_contains includes_day
night_holds = refl

sunday_window_not : window_contains (record night { days = 0 ∷ [] }) sunday_two ≡ false
unfolding window_contains includes_day
sunday_window_not = refl

window_contains-IsActive_example :
    (window_contains night sunday_two ≡ true) ↔ IsActive night sunday_two
window_contains-IsActive_example =
    window_contains-IsActive night sunday_two
      (record {
        start_bound = omega arith;
        end_positive = omega arith;
        end_bound = omega arith;
        day_bounds = (omega arith, tt);
      })
      (record { weekday_bound = omega arith; minute_bound = omega arith })

abbrev clock : Str → ℕ → List (Str × Str)
clock zone now =
    (codes "weekday", codes "Sun")
    ∷ (codes "literal", codes ", ")
    ∷ (codes "hour", codes "02")
    ∷ (codes "minute", codes "00")
    ∷ []

abbrev plan : ScheduleConfig
plan = record {
  timezone = codes "Europe/London";
  base_counts = record { transcode = 1; health = 0 };
  windows = night ∷ record night { days = []; start_minute = 0; end_minute = 60 } ∷ [];
}

night_counts : evaluate_schedule clock plan 7 ≡ record { transcode = 4; health = 0 }
unfolding evaluate_schedule window_contains includes_day str_eq
night_counts = refl

evaluate_schedule-last_count_example :
    count_of transcode (evaluate_schedule clock plan 7)
    ≡ overwrite
        (last_count transcode (zoned_instant clock 7 (codes "Europe/London")) plan.windows)
        1
evaluate_schedule-last_count_example = evaluate_schedule-last_count clock plan 7 transcode

abbrev raw_plan : RawSchedule
raw_plan = record {
  timezone = codes "UTC";
  base_counts = (codes "transcode", int (pos 1)) ∷ [];
  windows =
      record {
        id = codes "late";
        days = [];
        start_minute = int (pos 1440);
        end_minute = int (pos 1440);
        counts = [];
      }
      ∷ [];
}

late_refused : validate_schedule (λ z. true) raw_plan ≡ some (bad_start (codes "late"))
unfolding validate_schedule
late_refused = refl

validate_schedule-none_iff_example :
    (validate_schedule (λ z. true) raw_plan ≡ none) ↔ IsValidSchedule (λ z. true) raw_plan
validate_schedule-none_iff_example = validate_schedule-none_iff (λ z. true) raw_plan
