-- ===== src/Lease/Tests.antt =====
-- Leases at concrete times, and the theorems at them.
use trawlarr.Prelude.{
  ◌+◌, ◌≤◌, ◌<◌, ◌≡◌, refl, Bool, true, false, none, some, List, [], ◌∷◌, codes, str_eq, find,
}
use trawlarr.Lease.{
  connected, committing, expired, Lease, lease_on_claim, lease_on_disconnect, CommitKind, replace,
  plugin, decide_commit, JobRow, FileView, decide_commit_for, step_lease_for, cancelled,
}
use trawlarr.Lease.Grace.{
  Event, disconnect, reconnect, held_report, step, run, is_granted, late_return,
}
use trawlarr.Lease.Safety.{
  IsEntitled, commit-IsEntitled, commit_exclusive, commit_refused_unchanged,
}
use trawlarr.Lease.Grace.{IsValid, run-IsValid}

abbrev in_install : Lease
in_install = record { state = committing; expires_at_ms = none }

abbrev outage : List Event
outage = disconnect 10 5 ∷ reconnect 12 false ∷ []

run-IsValid_example : IsValid (run lease_on_claim outage)
run-IsValid_example = run-IsValid outage

late_return_example :
    let away = lease_on_disconnect lease_on_claim 100 60 in
    let back = step away (reconnect 160 false) in
    (160 < 100 + 60 → back.state ≡ connected)
    × (100 + 60 ≤ 160
        → (back.state ≡ expired)
          × ((es : List Event) (claimed : Bool) (kind : CommitKind)
              → ((run back es).state ≡ expired)
                × (is_granted (decide_commit (run back es) claimed kind) ≡ false)))
    × ((step away held_report).state ≡ connected)
unfolding lease_on_claim
late_return_example = late_return lease_on_claim 100 60 160 refl

abbrev leased : JobRow
leased = record {
  id = codes "j2";
  ended = false;
  cancel_requested = false;
  lease = some (record { state = connected; expires_at_ms = none });
}

abbrev older : JobRow
older = record { id = codes "j"; ended = true; cancel_requested = false; lease = none }

abbrev view : FileView
view = record { running = true; jobs = leased ∷ older ∷ [] }

abbrev cancelled_view : FileView
cancelled_view = record {
  running = true;
  jobs = record leased { cancel_requested = true } ∷ older ∷ [];
}

grant : (decide_commit_for view (codes "j2") replace).1 ≡ none
unfolding decide_commit_for find str_eq
grant = refl

grant_moves_lease :
    (decide_commit_for view (codes "j2") replace).0.jobs
    ≡ record leased { lease = some in_install } ∷ older ∷ []
unfolding decide_commit_for find str_eq
grant_moves_lease = refl

step_clears : step_lease_for (decide_commit_for view (codes "j2") replace).0 (codes "j2") ≡ view
unfolding decide_commit_for step_lease_for find str_eq
step_clears = refl

grant_after_cancel : (decide_commit_for cancelled_view (codes "j2") replace).1 ≡ some cancelled
unfolding decide_commit_for find str_eq
grant_after_cancel = refl

commit-IsEntitled_example : IsEntitled view (codes "j2")
commit-IsEntitled_example = commit-IsEntitled view (codes "j2") replace grant

commit_exclusive_example : codes "j2" ≡ codes "j2"
commit_exclusive_example =
    commit_exclusive view (codes "j2") (codes "j2") replace replace grant grant

commit_refused_unchanged_example :
    (decide_commit_for cancelled_view (codes "j2") plugin).0 ≡ cancelled_view
unfolding decide_commit_for find str_eq
commit_refused_unchanged_example =
    commit_refused_unchanged cancelled_view (codes "j2") plugin (λ e. cc)
