-- ===== src/Replace/Safety/Swapped.antt =====
-- The runner from where the original is in the trash on.
use trawlarr.Prelude.{ℕ, ◌≡◌, refl, sym, ◌⊎◌, inl, inr, true, Option, none, is_some, Str}
use trawlarr.Disk.{
  Node, World, Exit, returned, thrown, crashed, pure, ◌>>◌, Settled, fine, failed, settled, ignore,
  stat_file, visit, now_ms, set_note,
}
use trawlarr.Disk.Keeps.{
  Leads, Leads->>=, Leads-settled, Leads-if, Leads-done, Caught, At, Keeps, Keeps->>=, Keeps-visit,
  Keeps-stat_file, IsCalm, settled-IsCalm, calm_then, ignore-IsCalm,
}
use trawlarr.Replace.Swap.{StagedReplacement, swap_landed}
use trawlarr.Replace.Runner.{
  Job, Output, final_path, end_note, companions_moved, describe_and_finish, settle_landed,
  end_if_restored, restore_original, after_swap, swap,
}
use trawlarr.Replace.Safety.{HasGone, move_exclusively-HasGone}
use trawlarr.Replace.Safety.Trash.{IsTrashName, IsApart, InTrash, IsFound}
use trawlarr.Replace.Safety.Install.{IsStaged, Keeps-swap_into_place, swap_landed-IsCalm}

module _ (o : Node) (job : Job) where
  -- The original is in the trash, or at home with the second output.
  abbrev pub HasSwapped : Exit Output → World → Type 0
  HasSwapped (returned out) w =
      InTrash o job w ⊎ (At o job.original_path w × (out.output_number ≡ 2))
  HasSwapped (thrown c) w = At o job.original_path w
  HasSwapped crashed w = IsFound o job w

  pub Keeps-set_note : (p : Str) (n : Option ℕ) → Keeps o p (visit >> set_note n)
  Keeps-set_note p n =
      Keeps->>= o p visit (λ u. set_note n) (Keeps-visit o p) (λ u. record { keeps = λ w at. at })

  pub end_note-IsCalm : (p : Str) → Leads (At o p) (end_note job) (IsCalm o p)
  unfolding end_note
  end_note-IsCalm p =
      calm_then o p (λ w. (returned (is_some w.note), w)) _ (record { leads = λ w at. at })
        (λ noted.
          Leads-if noted _ _ (ignore-IsCalm o p (visit >> set_note none) (Keeps-set_note p none))
            (Leads-done (returned tt) (λ w at. at)))
        (λ w at. at)

  module _ (apart : IsApart job) (p : Str) (is_name : IsTrashName job p) where
    trashed : (w : World) → At o p w → InTrash o job w
    trashed w at = record { name = p; is_name = is_name; at = at }

    ends :
        (path : Str) (n : ℕ)
        → Leads (At o p) (pure (record { output_number = n; path = path })) HasSwapped
    ends path n = Leads-done _ (λ w at. inl (trashed w at))

    companions_moved-HasSwapped :
        (r : Settled Unit) → Leads (At o p) (companions_moved job r) HasSwapped
    unfolding companions_moved
    companions_moved-HasSwapped (fine u) = ends _ 1
    companions_moved-HasSwapped (failed c) = ends _ 2

    describe_and_finish-HasSwapped : Leads (At o p) (describe_and_finish job) HasSwapped
    unfolding describe_and_finish
    describe_and_finish-HasSwapped =
        calm_then o p (end_note job) _ (end_note-IsCalm p)
          (λ u.
            calm_then o p (ignore (stat_file (final_path job))) _
              (ignore-IsCalm o p _ (Keeps-stat_file o p _))
              (λ v.
                calm_then o p (settled visit) _ (settled-IsCalm o p _ (Keeps-visit o p))
                  companions_moved-HasSwapped (λ w at. inr (trashed w at)))
              (λ w at. inr (trashed w at)))
          (λ w at. inr (trashed w at))

    settle_landed-HasSwapped : Leads (At o p) (settle_landed job) HasSwapped
    unfolding settle_landed
    settle_landed-HasSwapped =
        calm_then o p (settled (stat_file (final_path job))) _
          (settled-IsCalm o p _ (Keeps-stat_file o p _))
          (λ stats.
            calm_then o p (end_note job) _ (end_note-IsCalm p)
              (λ u.
                Leads-if _ _ _
                  (calm_then o p (ignore (stat_file (final_path job))) _
                    (ignore-IsCalm o p _ (Keeps-stat_file o p _)) (λ v. ends (final_path job) 2)
                    (λ w at. inr (trashed w at)))
                  describe_and_finish-HasSwapped)
              (λ w at. inr (trashed w at)))
          (λ w at. inr (trashed w at))

    end_if_restored-HasSwapped :
        (r : Settled Unit)
        → Leads
            (Caught (HasGone o p job.original_path) (returned r))
            (end_if_restored job r)
            HasSwapped
    unfolding end_if_restored
    end_if_restored-HasSwapped (failed c) = ends job.original_path 2
    end_if_restored-HasSwapped (fine u) =
        calm_then o job.original_path (end_note job) _ (end_note-IsCalm job.original_path)
          (λ v. Leads-done _ (λ w at. inr (at, refl))) (λ w at. inl at)

    restore_original-HasSwapped : Leads (At o p) (restore_original job p) HasSwapped
    unfolding restore_original
    restore_original-HasSwapped =
        Leads->>= (Caught (HasGone o p job.original_path)) _ _
          (Leads-settled (HasGone o p job.original_path) _ (
            move_exclusively-HasGone o p job.original_path job.paths now_ms
              (record { keeps = λ w at. at }) (apart.reservation job.original_path p (inr is_name))
              ((apart.reservation job.original_path job.original_path (inl refl)).reservation) true
              (λ e. apart.trash p is_name (sym e))))
          end_if_restored-HasSwapped (λ c w at. absurd at) stopped
      where
        stopped : (w : World) → HasGone o p job.original_path crashed w → IsFound o job w
        stopped w (inl at) = inr (trashed w at)
        stopped w (inr at) = inl at

    after_swap-HasSwapped :
        (new_size : ℕ) (r : Settled Unit) → Leads (At o p) (after_swap job new_size p r) HasSwapped
    unfolding after_swap
    after_swap-HasSwapped new_size (fine u) = describe_and_finish-HasSwapped
    after_swap-HasSwapped new_size (failed c) = record {
      leads = λ w at.
          (calm_then o p (swap_landed job.new_path w.staged_path (final_path job) new_size) _
              (swap_landed-IsCalm o p job.new_path w.staged_path (final_path job) new_size)
              (λ landed. Leads-if landed _ _ settle_landed-HasSwapped restore_original-HasSwapped)
              (λ w at. inr (trashed w at))).leads
            w at;
    }

    pub swap-HasSwapped :
        (new_size : ℕ) (s : Option StagedReplacement)
        → IsStaged job.paths (final_path job) s
        → Leads (At o p) (swap job new_size s p) HasSwapped
    unfolding swap
    swap-HasSwapped new_size s h =
        calm_then o p _ _
          (settled-IsCalm o p _ (
            Keeps-swap_into_place o p job.paths (final_path job)
              (λ uuid. apart.staged uuid p (inr is_name)) job.new_path (apart.new_file p is_name)
              (apart.final_file p is_name) (apart.reservation (final_path job) p (inr is_name))
              job.allow_cross_device s h))
          (after_swap-HasSwapped new_size) (λ w at. inr (trashed w at))
