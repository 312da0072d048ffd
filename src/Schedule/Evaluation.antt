-- ===== src/Schedule/Evaluation.antt =====
-- Which window decides a count.
use trawlarr.Prelude.{
  ℕ, ◌≡◌, refl, ap, ◌∙◌, inl, inr, Option, none, some, List, [], ◌∷◌, Str, if◌then◌else◌,
  Bool-cases,
}
use trawlarr.Schedule.{
  WorkerClass, transcode, health, Counts, PartialCounts, ScheduleWindow, ScheduleConfig,
  ZonedInstant, zoned_instant, window_contains, overwrite, apply_counts, counts_at,
  evaluate_schedule,
}

abbrev pub count_of : WorkerClass → Counts → ℕ
count_of transcode c = c.transcode
count_of health c = c.health

abbrev pub named_count : WorkerClass → PartialCounts → Option ℕ
named_count transcode c = c.transcode
named_count health c = c.health

abbrev first_some : Option ℕ → Option ℕ → Option ℕ
first_some (some n) other = some n
first_some none other = other

-- The count of the last active window that names the class.
pub last_count : WorkerClass → ZonedInstant → List ScheduleWindow → Option ℕ
last_count c at [] = none
last_count c at (w ∷ ws) =
    first_some (last_count c at ws) (if window_contains w at then named_count c w.counts else none)

overwrite_last :
    (later now : Option ℕ) (n : ℕ)
    → overwrite later (overwrite now n) ≡ overwrite (first_some later now) n
overwrite_last none now n = refl
overwrite_last (some k) now n = refl

count-apply_counts :
    (c : WorkerClass) (p : PartialCounts) (counts : Counts)
    → count_of c (apply_counts p counts) ≡ overwrite (named_count c p) (count_of c counts)
count-apply_counts transcode p counts = refl
count-apply_counts health p counts = refl

counts_at-last :
    (c : WorkerClass) (at : ZonedInstant) (counts : Counts) (ws : List ScheduleWindow)
    → count_of c (counts_at at counts ws) ≡ overwrite (last_count c at ws) (count_of c counts)
unfolding counts_at last_count
counts_at-last c at counts [] = refl
counts_at-last c at counts (w ∷ ws) = elim (Bool-cases (window_contains w at)) [
  | inl t ↦ rw t (
      counts_at-last c at (apply_counts w.counts counts) ws
      ∙ ap (overwrite (last_count c at ws)) (count-apply_counts c w.counts counts)
      ∙ overwrite_last (last_count c at ws) (named_count c w.counts) (count_of c counts))
  | inr f ↦
      rw f (
        counts_at-last c at counts ws
        ∙ overwrite_last (last_count c at ws) none (count_of c counts))
]

-- The count of a class is the one that the last active window naming the class gives, and the base
-- count if no active window names it.
pub evaluate_schedule-last_count :
    (format_to_parts : Str → ℕ → List (Str × Str)) (s : ScheduleConfig) (now : ℕ) (c : WorkerClass)
    → count_of c (evaluate_schedule format_to_parts s now)
      ≡ overwrite
          (last_count c (zoned_instant format_to_parts now s.timezone) s.windows)
          (count_of c s.base_counts)
unfolding evaluate_schedule
evaluate_schedule-last_count f s now c =
    counts_at-last c (zoned_instant f now s.timezone) s.base_counts s.windows
