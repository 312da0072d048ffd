-- ===== src/Alerts/Tests.antt =====
-- Alerts of one library, offered and collected.
use trawlarr.Prelude.{
  ℕ, ◌+◌, ◌≤◌, ◌≡◌, true, refl, some, List, [], ◌∷◌, Str, codes, str_eq, includes, arith,
}
use trawlarr.Alerts.{daemon, file_failed, Limits, Offer, key_of, offer}
use trawlarr.Alerts.Conservation.{
  Action, offered, collected, run, reported, total_pending, none_lost,
}
use trawlarr.Alerts.Bounds.{announced, window-announced}

abbrev limits : Limits
limits = record { window_ms = 1000; max_causes_per_window = 2; repeat_ms = 5000 }

abbrev failure_of : Str → ℕ → Offer
failure_of cause now_ms = record {
  event = daemon file_failed;
  scope = codes "films";
  cause = cause;
  example = some (codes "a.mkv");
  now_ms = now_ms;
}

-- Two causes go out, the third is counted, as is the repetition of the first; the window closes.
abbrev flood : List Action
flood =
    offered (failure_of (codes "disk") 0)
    ∷ offered (failure_of (codes "codec") 10)
    ∷ offered (failure_of (codes "mount") 20)
    ∷ offered (failure_of (codes "disk") 30)
    ∷ collected 1000
    ∷ offered (failure_of (codes "disk") 1010)
    ∷ []

flood-reported : reported limits [] flood ≡ 4
unfolding reported str_eq includes
flood-reported = refl

flood_pending : total_pending (run limits [] flood) ≡ 1
unfolding run str_eq includes
flood_pending = refl

none_lost_example : reported limits [] flood + total_pending (run limits [] flood) ≡ 5
none_lost_example = none_lost limits flood (refl, (refl, (refl, (refl, (tt, (refl, tt))))))

-- The same, and a collection before the window's end.
abbrev first_window : List Action
first_window =
    offered (failure_of (codes "codec") 10)
    ∷ offered (failure_of (codes "mount") 20)
    ∷ collected 999
    ∷ offered (failure_of (codes "disk") 30)
    ∷ []

abbrev films_key : Str
films_key = key_of file_failed (codes "films")

first_window_count :
    announced limits films_key [] (offered (failure_of (codes "disk") 0) ∷ first_window) ≡ 2
unfolding announced str_eq includes
first_window_count = refl

window-announced_example :
    ((offer limits (failure_of (codes "disk") 0) []).1 ≡ true)
    × (announced limits films_key [] (offered (failure_of (codes "disk") 0) ∷ first_window) ≤ 2)
window-announced_example =
    window-announced limits [] file_failed (failure_of (codes "disk") 0) first_window (omega arith)
      refl tt (tt, (tt, (omega arith, (tt, tt))))
