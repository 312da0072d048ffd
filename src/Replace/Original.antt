-- ===== src/Replace/Original.antt =====
-- The runner of the replacement, and the original: where it is when the runner ends or is stopped.
use trawlarr.Prelude.{
  ℕ, ◌≡◌, refl, sym, ◌∙◌, ◌⊎◌, inl, inr, Bool, true, false, ◌&&◌, ◌||◌, Option, none, some, is_some,
  Str, str_eq, ◌==◌, Bool-cases,
}
use trawlarr.Disk.{
  Node, FileStats, World, Exit, returned, thrown, crashed, Io, ◌>>=◌, ◌>>◌, Settled, fine, failed,
  settled, ignore, lstat, stat_file, unlink, visit, now_ms, set_note, same_path,
}
use trawlarr.Disk.Keeps.{
  Leads, Leads->>=, Leads-settled, Leads-if, Leads-done, Caught, At, Keeps, Keeps-pure, Keeps-lstat,
  Keeps-visit, Keeps-if, Keeps-stat_file, Keeps-exists, Keeps-unlink, Keeps-Leads, IsCalm,
  settled-IsCalm, calm_then, ignore-IsCalm,
}
use trawlarr.Replace.Move.{move_to_trash}
use trawlarr.Replace.Swap.{StagedReplacement}
use trawlarr.Replace.Runner.{
  Job, Output, refuse, final_path, end_note, drop_copy, after_trash, after_note, trash_and_swap,
  record_and_swap, after_stage, stage_and_swap, after_companions, check_destination, check_symlink,
  check_duration, check_original, check_new, replace_original,
}
use trawlarr.Replace.Safety.Trash.{IsApart, InTrash, IsFound, HasTrashed, move_to_trash-HasTrashed}
use trawlarr.Replace.Safety.Install.{IsStaged, IsStagedBeside, stage_replacement-IsStagedBeside}
use trawlarr.Replace.Safety.Swapped.{HasSwapped, Keeps-set_note, end_note-IsCalm, swap-HasSwapped}

module _ (o : Node) (job : Job) (apart : IsApart job) where
  abbrev Swaps : Io Output → Type 0
  Swaps m = Leads (At o job.original_path) m (HasSwapped o job)

  refused : Swaps (refuse job.original_path)
  refused = Leads-done _ (λ w at. inr (at, refl))

  -- After an attempt that leaves the original where it is.
  attempted :
      {A : Type 0} (m : Io A) (f : Settled A → Io Output)
      → Keeps o job.original_path m
      → ((r : Settled A) → Swaps (f r))
      → Swaps (settled m >>= f)
  attempted m f k h =
      calm_then o job.original_path (settled m) f (settled-IsCalm o job.original_path m k) h
        (λ w at. inl at)

  module _ (new_size : ℕ) (s : Option StagedReplacement)
      (staged : IsStaged job.paths (final_path job) s) where
    drop_copy-IsCalm : Leads (At o job.original_path) (drop_copy job s) (IsCalm o job.original_path)
    unfolding drop_copy
    drop_copy-IsCalm = by_copy s staged
      where
        by_copy :
            (s' : Option StagedReplacement)
            → IsStaged job.paths (final_path job) s'
            → Leads (At o job.original_path) (drop_copy job s') (IsCalm o job.original_path)
        by_copy none h = Leads-done (returned tt) (λ w at. at)
        by_copy (some t) h = ignore-IsCalm o job.original_path (unlink t.path) (
            Keeps-unlink o job.original_path t.path
              (λ e. apart.staged h.uuid job.original_path (inl refl) (sym h.is ∙ e)))

    after_trash-HasSwapped :
        (r : Settled Str)
        → Leads
            (Caught (HasTrashed o job) (returned r))
            (after_trash job new_size s r)
            (HasSwapped o job)
    unfolding after_trash
    after_trash-HasSwapped (fine p) = record {
      leads = λ w at. (swap-HasSwapped o job apart p at.0 new_size s staged).leads w at.1;
    }
    after_trash-HasSwapped (failed c) =
        calm_then o job.original_path (end_note job) _ (end_note-IsCalm o job job.original_path)
          (λ u.
            calm_then o job.original_path (drop_copy job s) _ drop_copy-IsCalm
              (λ v.
                calm_then o job.original_path (ignore (stat_file job.original_path)) _
                  (ignore-IsCalm o job.original_path _ (Keeps-stat_file o job.original_path _))
                  (λ x. refused) (λ w at. inl at))
              (λ w at. inl at))
          (λ w at. inl at)

    trash_and_swap-HasSwapped : (now : ℕ) → Swaps (trash_and_swap job new_size s now)
    unfolding trash_and_swap
    trash_and_swap-HasSwapped now =
        Leads->>= (Caught (HasTrashed o job)) _ _
          (Leads-settled (HasTrashed o job) _ (
            Leads->>= (λ e w. At o job.original_path w) visit
              (λ u. move_to_trash job.paths job.trash_dir job.original_path now)
              (Keeps-Leads o job.original_path visit (Keeps-visit o job.original_path))
              (λ u. move_to_trash-HasTrashed o job apart now) (λ c w at. at) (λ w at. inl at)))
          after_trash-HasSwapped (λ c w at. absurd at) (λ w at. at)

    after_note-HasSwapped : (now : ℕ) (r : Settled Unit) → Swaps (after_note job new_size s now r)
    unfolding after_note
    after_note-HasSwapped now (fine u) = trash_and_swap-HasSwapped now
    after_note-HasSwapped now (failed c) =
        calm_then o job.original_path (drop_copy job s) _ drop_copy-IsCalm (λ u. refused)
          (λ w at. inl at)

    record_and_swap-HasSwapped : Swaps (record_and_swap job new_size s)
    unfolding record_and_swap
    record_and_swap-HasSwapped =
        calm_then o job.original_path now_ms _ (record { leads = λ w at. at })
          (λ now.
            Leads-if (is_some s && job.keeps_notes) _ _
              (attempted (visit >> set_note (some now)) (after_note job new_size s now)
                (Keeps-set_note o job job.original_path (some now)) (after_note-HasSwapped now))
              (trash_and_swap-HasSwapped now))
          (λ w at. inl at)

  after_stage-HasSwapped :
      (new_size : ℕ) (r : Settled (Option StagedReplacement))
      → Leads
          (Caught
            (IsStagedBeside o job.original_path job.paths
              (final_path job)
              (λ uuid. apart.staged uuid job.original_path (inl refl)))
            (returned r))
          (after_stage job new_size r)
          (HasSwapped o job)
  unfolding after_stage
  after_stage-HasSwapped new_size (failed c) = refused
  after_stage-HasSwapped new_size (fine s) = record {
    leads = λ w at. (record_and_swap-HasSwapped new_size s at.1).leads w at.0;
  }

  stage_and_swap-HasSwapped :
      (new_size : ℕ) (already : Bool) → Swaps (stage_and_swap job new_size already)
  unfolding stage_and_swap
  stage_and_swap-HasSwapped new_size already =
      Leads-if already _ _ (record_and_swap-HasSwapped new_size none tt) (
        Leads->>= _ _ _
          (Leads-settled _ _ (
            stage_replacement-IsStagedBeside o job.original_path job.paths (final_path job)
              (λ uuid. apart.staged uuid job.original_path (inl refl)) job.allow_cross_device
              job.new_path new_size))
          (after_stage-HasSwapped new_size) (λ c w at. absurd at) (λ w at. inl at))

  after_companions-HasSwapped :
      (new_size : ℕ) (already : Bool) (r : Settled Unit)
      → Swaps (after_companions job new_size already r)
  unfolding after_companions
  after_companions-HasSwapped new_size already (failed c) = refused
  after_companions-HasSwapped new_size already (fine u) = stage_and_swap-HasSwapped new_size already

  check_destination-HasSwapped : (new_size : ℕ) → Swaps (check_destination job new_size)
  unfolding check_destination
  check_destination-HasSwapped new_size =
      calm_then o job.original_path (same_path (final_path job) job.original_path) _
        (record { leads = λ w at. at })
        (λ in_place.
          calm_then o job.original_path (same_path (final_path job) job.new_path) _
            (record { leads = λ w at. at })
            (λ already.
              Leads->>= (λ e w. At o job.original_path w) _ _
                (Keeps-Leads o job.original_path _ (
                  Keeps-if o job.original_path (in_place || already)
                    (Keeps-pure o job.original_path false)
                    (Keeps-exists o job.original_path (final_path job))))
                (λ occupied. Leads-if occupied _ _ refused (
                  attempted visit _ (Keeps-visit o job.original_path)
                    (after_companions-HasSwapped new_size already)))
                (λ c w at. at) (λ w at. inl at))
            (λ w at. inl at))
        (λ w at. inl at)

  check_symlink-HasSwapped :
      (new_size : ℕ) (r : Settled Node) → Swaps (check_symlink job new_size r)
  unfolding check_symlink
  check_symlink-HasSwapped new_size (failed c) = refused
  check_symlink-HasSwapped new_size (fine n) =
      Leads-if n.symlink _ _ refused (check_destination-HasSwapped new_size)

  check_duration-HasSwapped :
      (new_size : ℕ) (s : FileStats) (r : Settled Unit) → Swaps (check_duration job new_size s r)
  unfolding check_duration
  check_duration-HasSwapped new_size s (failed c) = refused
  check_duration-HasSwapped new_size s (fine u) = Leads-if _ _ _ refused (
      Leads-if _ _ _ refused (
        attempted (lstat job.original_path) _ (Keeps-lstat o job.original_path job.original_path)
          (check_symlink-HasSwapped new_size)))

  check_original-HasSwapped :
      (new_size : ℕ) (r : Settled FileStats) → Swaps (check_original job new_size r)
  unfolding check_original
  check_original-HasSwapped new_size (failed c) = refused
  check_original-HasSwapped new_size (fine s) =
      attempted visit _ (Keeps-visit o job.original_path) (check_duration-HasSwapped new_size s)

  check_new-HasSwapped : (r : Settled FileStats) → Swaps (check_new job r)
  unfolding check_new
  check_new-HasSwapped (failed c) = refused
  check_new-HasSwapped (fine s) = Leads-if (s.size == 0) _ _ refused (
      attempted (stat_file job.original_path) _
        (Keeps-stat_file o job.original_path job.original_path) (check_original-HasSwapped s.size))

  -- How a replacement that starts in `w` ends.
  abbrev pub HasEnded : World → Exit Output → World → Type 0
  HasEnded w (returned out) w' =
      InTrash o job w'
      ⊎ (At o job.original_path w'
          × ((out.output_number ≡ 2)
              ⊎ (str_eq (w.machine.real_path w.disk job.new_path)
                    (w.machine.real_path w.disk job.original_path)
                  ≡ true)))
  HasEnded w (thrown c) w' = At o job.original_path w'
  HasEnded w crashed w' = IsFound o job w'

  ends : (w : World) (e : Exit Output) (w' : World) → HasSwapped o job e w' → HasEnded w e w'
  ends w (returned out) w' (inl h) = inl h
  ends w (returned out) w' (inr h) = inr (h.0, inl h.1)
  ends w (thrown c) w' h = h
  ends w crashed w' h = h

  -- Take a job none of whose other file names is a name of the original, and a machine on which the
  -- others leave the original its names. However calls fail, however often the machine's other users
  -- act between them, and before whichever call the machine stops, the original is then at its own
  -- name or under one of the job's trash names. When the runner throws an error, it is at its own
  -- name; when the runner returns, it is in the trash, or it is at its own name and the output is 2
  -- or there was nothing to replace.
  pub replace_original-HasEnded :
      (w : World)
      → At o job.original_path w
      → HasEnded w (replace_original job w).0 (replace_original job w).1
  unfolding replace_original
  replace_original-HasEnded w at =
      elim (Bool-cases (
        str_eq (w.machine.real_path w.disk job.new_path)
          (w.machine.real_path w.disk job.original_path))) [
            | inl t ↦ rw t (inr (at, inr t))
            | inr f ↦ ends w _ _ (
                rw f (
                  (attempted (stat_file job.new_path) (check_new job)
                      (Keeps-stat_file o job.original_path job.new_path) check_new-HasSwapped).leads
                    w at))
          ]
