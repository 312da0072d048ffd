-- ===== src/Schedule.antt =====
-- packages/core/src/schedule.ts: worker counts by the time of the week.
--
-- `Intl.DateTimeFormat` is an argument: the parts that it prints for a zone and an instant, and
-- whether it knows a zone. The counts of the two worker classes are the fields of a record. What is
-- validated is a number of JavaScript: an integer, or something else.
pub mod Weekly
pub mod Evaluation
pub mod Validation
mod Tests
use trawlarr.Prelude.{
  ℕ, zero, suc, ◌+◌, ◌-◌, ◌*◌, ◌%◌, ◌≤◌, ◌<◌, Bool, true, false, ◌&&◌, ◌||◌, not, Option, none,
  some, List, [], ◌∷◌, Str, codes, str_eq, any, if◌then◌else◌, ltb, leb, ◌==◌, ℤ, pos, negsuc,
}

pub data WorkerClass : Type 0 where
  transcode health : WorkerClass

pub record Counts : Type 0 where
  pub transcode : ℕ
  pub health : ℕ

pub record PartialCounts : Type 0 where
  pub transcode : Option ℕ
  pub health : Option ℕ

pub record ScheduleWindow : Type 0 where
  pub id : Str
  pub days : List ℕ
  pub start_minute : ℕ
  pub end_minute : ℕ
  pub counts : PartialCounts

pub record ScheduleConfig : Type 0 where
  pub timezone : Str
  pub base_counts : Counts
  pub windows : List ScheduleWindow

pub record ZonedInstant : Type 0 where
  pub weekday : ℕ
  pub minute_of_day : ℕ

-- `WEEKDAY_INDEX[name] ?? 0`
unfoldable pub weekday_index : Str → ℕ
weekday_index name =
    if str_eq name (codes "Mon")
    then 1
    else if str_eq name (codes "Tue")
    then 2
    else if str_eq name (codes "Wed")
    then 3
    else if str_eq name (codes "Thu")
    then 4
    else if str_eq name (codes "Fri")
    then 5
    else if str_eq name (codes "Sat")
    then 6
    else 0

-- `parts.find((part) => part.type === type)?.value ?? ''`
unfoldable pub part_value : Str → List (Str × Str) → Str
part_value type [] = []
part_value type ((kind, value) ∷ parts) = if str_eq kind type then value else part_value type parts

-- `Number(text)` of a text of digits.
unfoldable pub digits_value : ℕ → Str → ℕ
digits_value acc [] = acc
digits_value acc (c ∷ s) = digits_value (acc * 10 + (c - 48)) s

unfoldable pub zoned_instant : (Str → ℕ → List (Str × Str)) → ℕ → Str → ZonedInstant
unfolding weekday_index part_value digits_value
zoned_instant format_to_parts now_ms timezone =
    let parts = format_to_parts timezone now_ms in
    record {
      weekday = weekday_index (part_value (codes "weekday") parts);
      minute_of_day =
          digits_value 0 (part_value (codes "hour") parts) * 60
          + digits_value 0 (part_value (codes "minute") parts);
    }

-- `days.includes(day)`
unfoldable pub includes_day : List ℕ → ℕ → Bool
includes_day days day = any (λ d. d == day) days

abbrev wraps : ScheduleWindow → Bool
wraps w = leb w.end_minute w.start_minute

abbrev in_span : ScheduleWindow → ℕ → Bool
in_span w minute =
    if wraps w
    then leb w.start_minute minute || ltb minute w.end_minute
    else leb w.start_minute minute && ltb minute w.end_minute

abbrev started_on : ScheduleWindow → ZonedInstant → ℕ
started_on w at =
    if wraps w && ltb at.minute_of_day w.end_minute then (at.weekday + 6) % 7 else at.weekday

abbrev is_empty : List ℕ → Bool
is_empty [] = true
is_empty (d ∷ ds) = false

unfoldable pub window_contains : ScheduleWindow → ZonedInstant → Bool
window_contains w at =
    if not (in_span w at.minute_of_day)
    then false
    else if is_empty w.days
    then true
    else includes_day w.days (started_on w at)

abbrev pub overwrite : Option ℕ → ℕ → ℕ
overwrite none n = n
overwrite (some count) n = count

abbrev pub apply_counts : PartialCounts → Counts → Counts
apply_counts p c = record {
  transcode = overwrite p.transcode c.transcode;
  health = overwrite p.health c.health;
}

-- The loop over the windows.
unfoldable pub counts_at : ZonedInstant → Counts → List ScheduleWindow → Counts
counts_at at counts [] = counts
counts_at at counts (w ∷ ws) =
    counts_at at (if window_contains w at then apply_counts w.counts counts else counts) ws

unfoldable pub evaluate_schedule : (Str → ℕ → List (Str × Str)) → ScheduleConfig → ℕ → Counts
unfolding counts_at zoned_instant
evaluate_schedule format_to_parts schedule now_ms =
    counts_at (zoned_instant format_to_parts now_ms schedule.timezone) schedule.base_counts
      schedule.windows

pub data Number : Type 0 where
  int : ℤ → Number
  other : Number

pub record RawWindow : Type 0 where
  pub id : Str
  pub days : List Number
  pub start_minute : Number
  pub end_minute : Number
  pub counts : List (Str × Number)

pub record RawSchedule : Type 0 where
  pub timezone : Str
  pub base_counts : List (Str × Number)
  pub windows : List RawWindow

pub data ScheduleConfigError : Type 0 where
  unknown_timezone : Str → ScheduleConfigError
  bad_base_count : Str → ScheduleConfigError
  bad_start bad_end bad_day : Str → ScheduleConfigError
  bad_count : Str → Str → ScheduleConfigError

abbrev pub max_safe_integer : ℕ
max_safe_integer = 9007199254740991

unfoldable pub is_whole_number_in_range : Number → ℕ → ℕ → Bool
is_whole_number_in_range (int (pos n)) low high = leb low n && leb n high
is_whole_number_in_range (int (negsuc n)) low high = false
is_whole_number_in_range other low high = false

-- The first key whose count is no count.
first_bad_count : List (Str × Number) → Option Str
unfolding is_whole_number_in_range
first_bad_count [] = none
first_bad_count ((key, count) ∷ counts) =
    if is_whole_number_in_range count 0 max_safe_integer then first_bad_count counts else some key

all_days : List Number → Bool
unfolding is_whole_number_in_range
all_days [] = true
all_days (d ∷ ds) = if is_whole_number_in_range d 0 6 then all_days ds else false

unfoldable pub check_window : RawWindow → Option ScheduleConfigError
unfolding first_bad_count all_days
check_window w =
    if not (is_whole_number_in_range w.start_minute 0 1439)
    then some (bad_start w.id)
    else if not (is_whole_number_in_range w.end_minute 1 1440)
    then some (bad_end w.id)
    else if not (all_days w.days)
    then some (bad_day w.id)
    else elim (first_bad_count w.counts) [ none ↦ none | some key ↦ some (bad_count w.id key) ]

check_windows : List RawWindow → Option ScheduleConfigError
unfolding check_window
check_windows [] = none
check_windows (w ∷ ws) =
    let later = check_windows ws in elim (check_window w) [ some e ↦ some e | none ↦ later ]

-- `none` if nothing is thrown.
unfoldable pub validate_schedule : (Str → Bool) → RawSchedule → Option ScheduleConfigError
unfolding check_windows first_bad_count
validate_schedule known_timezone s =
    if not (known_timezone s.timezone)
    then some (unknown_timezone s.timezone)
    else elim (first_bad_count s.base_counts) [
      | some key ↦ some (bad_base_count key)
      | none ↦ check_windows s.windows
    ]
