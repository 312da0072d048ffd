-- ===== src/Replace/Safety/Trash.antt =====
-- The original on its way to the trash.
use trawlarr.Prelude.{ℕ, zero, suc, ◌≡◌, ◌≢◌, refl, ◌⊎◌, inl, inr, false, Str}
use trawlarr.Disk.{
  other, is_eexist, Node, World, Exit, returned, thrown, crashed, pure, Settled, fine, failed,
}
use trawlarr.Disk.Keeps.{
  Leads, Leads->>=, Leads-settled, Leads-if, Leads-done, Caught, At, Keeps-pure,
}
use trawlarr.Replace.{trash_path, staged_path_for}
use trawlarr.Replace.Move.{next_trash_name, trash_from, move_to_trash}
use trawlarr.Replace.Runner.{Job, final_path}
use trawlarr.Replace.Safety.{HasGone, move_exclusively-HasGone}
use trawlarr.Replace.Safety.Bystanders.{IsReservedApart}

module _ (job : Job) where
  pub record IsTrashName (p : Str) : Type 0 where
    pub now : ℕ
    pub attempt : ℕ
    pub is : p ≡ trash_path job.paths job.trash_dir job.original_path now attempt

  -- The names under which the job leaves the original.
  abbrev pub IsHome : Str → Type 0
  IsHome p = (p ≡ job.original_path) ⊎ IsTrashName p

  -- The original's names are not those of the other files of the job.
  pub record IsApart : Type 0 where
    pub trash : (p : Str) → IsTrashName p → p ≢ job.original_path
    pub new_file : (p : Str) → IsTrashName p → job.new_path ≢ p
    pub final_file : (p : Str) → IsTrashName p → final_path job ≢ p
    pub staged : (uuid p : Str) → IsHome p → staged_path_for job.paths (final_path job) uuid ≢ p
    pub reservation : (to p : Str) → IsHome p → IsReservedApart job.paths p to

module _ (o : Node) (job : Job) where
  pub record InTrash (w : World) : Type 0 where
    pub name : Str
    pub is_name : IsTrashName job name
    pub at : At o name w

  -- At its own name, or in the trash.
  abbrev pub IsFound : World → Type 0
  IsFound w = At o job.original_path w ⊎ InTrash w

  abbrev pub HasTrashed : Exit Str → World → Type 0
  HasTrashed (returned p) w = IsTrashName job p × At o p w
  HasTrashed (thrown c) w = At o job.original_path w
  HasTrashed crashed w = IsFound w

  module _ (apart : IsApart job) (now : ℕ) where
    abbrev name : ℕ → Str
    name attempt = trash_path job.paths job.trash_dir job.original_path now attempt

    name-IsTrashName : (attempt : ℕ) → IsTrashName job (name attempt)
    name-IsTrashName attempt = record { now = now; attempt = attempt; is = refl }

    gone-IsFound :
        (attempt : ℕ) (w : World) → HasGone o job.original_path (name attempt) crashed w → IsFound w
    gone-IsFound attempt w (inl at) = inl at
    gone-IsFound attempt w (inr at) =
        inr (record { name = name attempt; is_name = name-IsTrashName attempt; at = at })

    trash_from-HasTrashed :
        (left attempt : ℕ)
        → Leads
            (At o job.original_path)
            (trash_from job.paths job.trash_dir job.original_path now left attempt)
            HasTrashed
    unfolding trash_from
    trash_from-HasTrashed zero attempt = Leads-done (thrown other) (λ w at. at)
    trash_from-HasTrashed (suc left) attempt =
        Leads->>= (Caught (HasGone o job.original_path (name attempt))) _ _
          (Leads-settled (HasGone o job.original_path (name attempt)) _ (
            move_exclusively-HasGone o job.original_path (name attempt) job.paths (pure now)
              (Keeps-pure o job.original_path now)
              (apart.reservation (name attempt) job.original_path (inl refl))
              ((apart.reservation (name attempt) (name attempt)
                (inr (name-IsTrashName attempt))).reservation)
              false (apart.trash (name attempt) (name-IsTrashName attempt))))
          (tried (trash_from-HasTrashed left (suc attempt))) (λ c w at. absurd at)
          (gone-IsFound attempt)
      where
        tried :
            Leads
              (At o job.original_path)
              (trash_from job.paths job.trash_dir job.original_path now left (suc attempt))
              HasTrashed
            → (r : Settled Unit)
            → Leads
                (Caught (HasGone o job.original_path (name attempt)) (returned r))
                (next_trash_name job.paths job.trash_dir job.original_path now
                  (trash_from job.paths job.trash_dir job.original_path now left (suc attempt))
                  (name attempt)
                  r)
                HasTrashed
        tried h (fine u) =
            Leads-done (returned (name attempt)) (λ w at. (name-IsTrashName attempt, at))
        tried h (failed c) = Leads-if (is_eexist c) _ _ h (Leads-done (thrown c) (λ w at. at))

    pub move_to_trash-HasTrashed :
        Leads
          (At o job.original_path)
          (move_to_trash job.paths job.trash_dir job.original_path now)
          HasTrashed
    unfolding move_to_trash
    move_to_trash-HasTrashed = trash_from-HasTrashed 10000 0
