-- ===== src/Lease/Safety.antt =====
-- The commit gate of the hub: which job may write to the library.
use trawlarr.Prelude.{
  ◌≡◌, ◌≢◌, refl, sym, ◌∙◌, true, false, none, some, List, [], ◌∷◌, Str, str_eq_iff, arith, find,
  find-some, Option-cases, Bool-cases, inl, inr, Memᴰ,
}
use trawlarr.Lease.{
  Lease, CommitKind, JobRow, FileView, decide_commit, decide_commit_for, is_latest, has_id, is_live,
  commit_with,
}

-- What a grant rests on: the newest job of the running file, not ended and not cancelled, with a
-- live lease.
pub record IsEntitled (f : FileView) (id : Str) : Type 0 where
  pub row : JobRow
  pub listed : Memᴰ row f.jobs
  pub named : row.id ≡ id
  pub open_row : row.ended ≡ false
  pub wanted : row.cancel_requested ≡ false
  pub lease : Lease
  pub holds : row.lease ≡ some lease
  pub live : is_live lease.state ≡ true
  pub file_running : f.running ≡ true
  pub newest : is_latest id f.jobs ≡ true

commit_with-live :
    (f : FileView) (row : JobRow) (l : Lease) (kind : CommitKind)
    → (commit_with f row l kind).1 ≡ none
    → (is_live l.state ≡ true) × (f.running ≡ true) × (is_latest row.id f.jobs ≡ true)
unfolding decide_commit
commit_with-live f row l kind h = ground arith

-- A commit is granted only to the newest job of a file that is running, while that job is neither
-- ended nor cancelled and its lease is connected or committing.
pub commit-IsEntitled :
    (f : FileView) (id : Str) (kind : CommitKind)
    → (decide_commit_for f id kind).1 ≡ none
    → IsEntitled f id
unfolding decide_commit_for
commit-IsEntitled f id kind h = elim (Option-cases (find (has_id id) f.jobs)) [
  | inl absent ↦ cc (rw (absent, decide_commit_for) at h)
  | inr (row, found) ↦
      let (named, listed) = find-some (has_id id) f.jobs found in
      let same = (str_eq_iff row.id id).0 named in
      elim (Bool-cases row.ended) [
        | inl over ↦ cc (rw (found, over, decide_commit_for) at h)
        | inr on ↦ elim (Option-cases row.lease) [
          | inl bare ↦ cc (rw (found, on, bare, decide_commit_for) at h)
          | inr (l, holds) ↦ elim (Bool-cases row.cancel_requested) [
            | inl cancel ↦ cc (rw (found, on, holds, cancel, decide_commit_for) at h)
            | inr wanted ↦
                let (live, running, newest) =
                  commit_with-live f row l kind
                    (rw (found, on, holds, wanted, decide_commit_for) at h) in
                record {
                  row = row;
                  listed = listed;
                  named = same;
                  open_row = on;
                  wanted = wanted;
                  lease = l;
                  holds = holds;
                  live = live;
                  file_running = running;
                  newest = rw (← same) newest;
                }
          ]
        ]
      ]
]

is_latest_unique :
    (a b : Str) (jobs : List JobRow) → is_latest a jobs ≡ true → is_latest b jobs ≡ true → a ≡ b
is_latest_unique a b [] h k = cc
is_latest_unique a b (j ∷ jobs) h k =
    sym ((str_eq_iff j.id a).0 (ground arith)) ∙ (str_eq_iff j.id b).0 (ground arith)

-- At most one job of a file can be granted a commit: if two requests would both be granted on the
-- same rows, they are for the same job.
pub commit_exclusive :
    (f : FileView) (id id' : Str) (kind kind' : CommitKind)
    → (decide_commit_for f id kind).1 ≡ none
    → (decide_commit_for f id' kind').1 ≡ none
    → id ≡ id'
commit_exclusive f id id' kind kind' h h' =
    is_latest_unique id id' f.jobs (commit-IsEntitled f id kind h).newest
      (commit-IsEntitled f id' kind' h').newest

commit_with_unchanged :
    (f : FileView) (row : JobRow) (l : Lease) (kind : CommitKind)
    → (commit_with f row l kind).1 ≢ none
    → (commit_with f row l kind).0 ≡ f
unfolding decide_commit
commit_with_unchanged f row l kind h = ground arith

-- A refused request changes no row.
pub commit_refused_unchanged :
    (f : FileView) (id : Str) (kind : CommitKind)
    → (decide_commit_for f id kind).1 ≢ none
    → (decide_commit_for f id kind).0 ≡ f
unfolding decide_commit_for
commit_refused_unchanged f id kind h = elim (Option-cases (find (has_id id) f.jobs)) [
  | inl absent ↦ rw (absent, decide_commit_for) refl
  | inr (row, found) ↦ elim (Bool-cases row.ended) [
    | inl over ↦ rw (found, over, decide_commit_for) refl
    | inr on ↦ elim (Option-cases row.lease) [
      | inl bare ↦ rw (found, on, bare, decide_commit_for) refl
      | inr (l, holds) ↦ elim (Bool-cases row.cancel_requested) [
        | inl cancel ↦ rw (found, on, holds, cancel, decide_commit_for) refl
        | inr wanted ↦
            rw (found, on, holds, wanted, decide_commit_for)
              (commit_with_unchanged f row l kind
                (rw (found, on, holds, wanted, decide_commit_for) at h))
      ]
    ]
  ]
]
