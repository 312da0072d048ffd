-- ===== src/Replace/Runner.antt =====
-- The runner of the Replace Original File node.
--
-- A probe gives a file's running time in milliseconds, `none` where it has no readable one; which
-- of its clocks two files are compared by is an argument with the probes' results. The companion
-- files are listed and moved by code that is an argument; what it changes is among what others do.
use trawlarr.Prelude.{
  ℕ, ◌+◌, ◌-◌, ◌*◌, Bool, true, false, ◌&&◌, ◌||◌, not, Option, none, some, is_some, Str,
  if◌then◌else◌, ltb, leb, ◌==◌, max,
}
use trawlarr.Disk.{
  Node, FileStats, Io, pure, ◌>>=◌, ◌>>◌, Settled, fine, failed, settled, ignore, lstat, stat_file,
  unlink, visit, now_ms, set_note, exists, same_path, returned,
}
use trawlarr.Replace.{Paths, replacement_path_for}
use trawlarr.Replace.Move.{move_exclusively, move_to_trash}
use trawlarr.Replace.Swap.{StagedReplacement, stage_replacement, swap_into_place, swap_landed}

pub record Job : Type 0 where
  pub paths : Paths
  pub original_path : Str
  pub new_path : Str
  pub trash_dir : Str
  pub allow_hardlinked : Bool
  pub allow_cross_device : Bool
  pub keeps_notes : Bool
  pub new_duration_ms : Option ℕ
  pub original_duration_ms : Option ℕ

pub record Output : Type 0 where
  pub output_number : ℕ
  pub path : Str

abbrev drift : ℕ → ℕ → ℕ
drift a b = (a - b) + (b - a)

pub data DurationVerdict : Type 0 where
  install abstain too_different unreadable : DurationVerdict

-- A tenth of the original's running time, and at least ten seconds.
abbrev pub judge_drift : ℕ → ℕ → DurationVerdict
judge_drift new_ms original_ms =
    if leb (drift new_ms original_ms * 10) (max original_ms 100000) then install else too_different

abbrev pub judge_against : ℕ → Option ℕ → DurationVerdict
judge_against original_ms none = unreadable
judge_against original_ms (some new_ms) = judge_drift new_ms original_ms

unfoldable pub guard_duration_change : Option ℕ → Option ℕ → DurationVerdict
guard_duration_change new_ms none = abstain
guard_duration_change new_ms (some original_ms) =
    if original_ms == 0 then abstain else judge_against original_ms new_ms

abbrev pub installs : DurationVerdict → Bool
installs install = true
installs abstain = true
installs too_different = false
installs unreadable = false

abbrev pub refuse : Str → Io Output
refuse path = pure (record { output_number = 2; path = path })

abbrev pub done : Str → Io Output
done path = pure (record { output_number = 1; path = path })

module _ (job : Job) where
  unfoldable pub final_path : Str
  unfolding replacement_path_for
  final_path = replacement_path_for job.paths job.original_path job.new_path

  abbrev is_noted : Io Bool
  is_noted w = (returned (is_some w.note), w)

  unfoldable pub end_note : Io Unit
  unfolding visit
  end_note = do noted ← is_noted; if noted then ignore (visit >> set_note none) else pure tt

  unfoldable pub companions_moved : Settled Unit → Io Output
  unfolding final_path
  companions_moved (fine u) = done final_path
  companions_moved (failed c) = refuse final_path

  -- The size is read again for the flow's own account; a failure to read it changes nothing else.
  unfoldable pub describe_and_finish : Io Output
  unfolding end_note visit stat_file companions_moved final_path
  describe_and_finish = do
    end_note
    ignore (stat_file final_path)
    moved ← settled visit
    companions_moved moved

  abbrev has_links : Settled FileStats → Bool
  has_links (fine s) = ltb 1 s.nlink
  has_links (failed c) = false

  -- The replacement is in place though an error was reported; it must not have a second name.
  unfoldable pub settle_landed : Io Output
  unfolding end_note stat_file describe_and_finish final_path
  settle_landed = do
    stats ← settled (stat_file final_path)
    end_note
    if has_links stats
        then ignore (stat_file final_path) >> refuse final_path
        else describe_and_finish

  unfoldable pub end_if_restored : Settled Unit → Io Output
  unfolding end_note
  end_if_restored (fine u) = end_note >> refuse job.original_path
  end_if_restored (failed c) = refuse job.original_path

  unfoldable pub restore_original : Str → Io Output
  unfolding move_exclusively end_if_restored
  restore_original trashed =
      settled (move_exclusively job.paths now_ms true trashed job.original_path) >>= end_if_restored

  abbrev pub staged_path_now : Io (Option Str)
  staged_path_now w = (returned w.staged_path, w)

  unfoldable pub after_swap : ℕ → Str → Settled Unit → Io Output
  unfolding describe_and_finish swap_landed settle_landed restore_original final_path
  after_swap new_size trashed (fine u) = describe_and_finish
  after_swap new_size trashed (failed c) = do
    staged_path ← staged_path_now
    landed ← swap_landed job.new_path staged_path final_path new_size
    if landed then settle_landed else restore_original trashed

  unfoldable pub swap : ℕ → Option StagedReplacement → Str → Io Output
  unfolding swap_into_place after_swap final_path
  swap new_size staged trashed = do
    swapped ←
        settled (swap_into_place job.paths job.allow_cross_device job.new_path final_path staged)
    after_swap new_size trashed swapped

  unfoldable pub drop_copy : Option StagedReplacement → Io Unit
  unfolding unlink
  drop_copy none = pure tt
  drop_copy (some staged) = ignore (unlink staged.path)

  unfoldable pub after_trash : ℕ → Option StagedReplacement → Settled Str → Io Output
  unfolding swap end_note drop_copy stat_file
  after_trash new_size staged (fine trashed) = swap new_size staged trashed
  after_trash new_size staged (failed c) = do
    end_note
    drop_copy staged
    ignore (stat_file job.original_path)
    refuse job.original_path

  unfoldable pub trash_and_swap : ℕ → Option StagedReplacement → ℕ → Io Output
  unfolding visit move_to_trash after_trash
  trash_and_swap new_size staged now =
      settled (visit >> move_to_trash job.paths job.trash_dir job.original_path now)
      >>= after_trash new_size staged

  unfoldable pub after_note : ℕ → Option StagedReplacement → ℕ → Settled Unit → Io Output
  unfolding drop_copy trash_and_swap
  after_note new_size staged now (fine u) = trash_and_swap new_size staged now
  after_note new_size staged now (failed c) = drop_copy staged >> refuse job.original_path

  -- What is at stake is recorded before the original moves.
  unfoldable pub record_and_swap : ℕ → Option StagedReplacement → Io Output
  unfolding visit after_note trash_and_swap
  record_and_swap new_size staged = do
    now ← now_ms
    if is_some staged && job.keeps_notes
        then settled (visit >> set_note (some now)) >>= after_note new_size staged now
        else trash_and_swap new_size staged now

  unfoldable pub after_stage : ℕ → Settled (Option StagedReplacement) → Io Output
  unfolding record_and_swap
  after_stage new_size (failed c) = refuse job.original_path
  after_stage new_size (fine staged) = record_and_swap new_size staged

  unfoldable pub stage_and_swap : ℕ → Bool → Io Output
  unfolding stage_replacement after_stage record_and_swap final_path
  stage_and_swap new_size already =
      if already
      then record_and_swap new_size none
      else settled
          (stage_replacement job.paths job.allow_cross_device job.new_path final_path new_size)
        >>= after_stage new_size

  unfoldable pub after_companions : ℕ → Bool → Settled Unit → Io Output
  unfolding stage_and_swap
  after_companions new_size already (failed c) = refuse job.original_path
  after_companions new_size already (fine u) = stage_and_swap new_size already

  unfoldable pub check_destination : ℕ → Io Output
  unfolding exists visit after_companions final_path
  check_destination new_size = do
    in_place ← same_path final_path job.original_path
    already ← same_path final_path job.new_path
    occupied ← if in_place || already then pure false else exists final_path
    if occupied
        then refuse job.original_path
        else settled visit >>= after_companions new_size already

  unfoldable pub check_symlink : ℕ → Settled Node → Io Output
  unfolding check_destination
  check_symlink new_size (failed c) = refuse job.original_path
  check_symlink new_size (fine n) =
      if n.symlink then refuse job.original_path else check_destination new_size

  unfoldable pub check_duration : ℕ → FileStats → Settled Unit → Io Output
  unfolding lstat check_symlink guard_duration_change
  check_duration new_size original (failed c) = refuse job.original_path
  check_duration new_size original (fine u) =
      if not (installs (guard_duration_change job.new_duration_ms job.original_duration_ms))
      then refuse job.original_path
      else if ltb 1 original.nlink && not job.allow_hardlinked
      then refuse job.original_path
      else settled (lstat job.original_path) >>= check_symlink new_size

  unfoldable pub check_original : ℕ → Settled FileStats → Io Output
  unfolding visit check_duration
  check_original new_size (failed c) = refuse job.original_path
  check_original new_size (fine original) = settled visit >>= check_duration new_size original

  unfoldable pub check_new : Settled FileStats → Io Output
  unfolding stat_file check_original
  check_new (failed c) = refuse job.original_path
  check_new (fine new) =
      if new.size == 0
      then refuse job.original_path
      else settled (stat_file job.original_path) >>= check_original new.size

  unfoldable pub replace_original : Io Output
  unfolding stat_file check_new
  replace_original = do
    same ← same_path job.new_path job.original_path
    if same then done job.original_path else settled (stat_file job.new_path) >>= check_new
