-- ===== src/Replace/Swap.antt =====
-- The new file beside its destination, and into its place; and whether it got there.
use trawlarr.Prelude.{
  ℕ, Bool, true, false, not, Option, none, some, List, [], ◌∷◌, Str, if◌then◌else◌, ◌==◌,
}
use trawlarr.Disk.{
  Code, other, is_eexist, is_exdev, Node, FileStats, Io, pure, throw, ◌>>=◌, ◌>>◌, Settled, fine,
  failed, settled, ignore, lstat, stat_file, link, unlink, copy_file, now_ms, random_uuid,
  set_staged_path, same_path,
}
use trawlarr.Replace.{Paths, staged_path_for}
use trawlarr.Replace.Move.{move_exclusively}

pub record StagedReplacement : Type 0 where
  pub path : Str
  pub via_link : Bool

abbrev pub same_size : ℕ → FileStats → Io Unit
same_size expected s = if s.size == expected then pure tt else throw other

unfoldable pub copy_verified : Str → Str → ℕ → Io Unit
unfolding copy_file stat_file
copy_verified from to expected = do
  copy_file from to
  copied ← stat_file to
  same_size expected copied

unfoldable pub staged_copy : Str → Settled Unit → Io (Option StagedReplacement)
unfolding unlink
staged_copy path (fine u) = pure (some (record { path = path; via_link = false }))
staged_copy path (failed c) = do ignore (unlink path); throw c

unfoldable pub staged_link : Bool → Str → Str → ℕ → Settled Unit → Io (Option StagedReplacement)
unfolding copy_verified staged_copy
staged_link allow_cross_device new_path path expected (fine u) =
    pure (some (record { path = path; via_link = true }))
staged_link allow_cross_device new_path path expected (failed c) =
    if not (is_exdev c)
    then pure none
    else if not allow_cross_device
    then throw other
    else settled (copy_verified new_path path expected) >>= staged_copy path

module _ (ps : Paths) where
  -- `none` where the swap has to find out.
  unfoldable pub stage_replacement : Bool → Str → Str → ℕ → Io (Option StagedReplacement)
  unfolding link staged_link staged_path_for
  stage_replacement allow_cross_device new_path final_path expected = do
    uuid ← random_uuid
    let path = staged_path_for ps final_path uuid
    linked ← settled (link new_path path)
    staged_link allow_cross_device new_path path expected linked

  abbrev pub occupied_or : Code → Code
  occupied_or c = if is_eexist c then other else c

  unfoldable pub drop_staged : Str → Code → Io Unit
  unfolding unlink
  drop_staged path c = do ignore (unlink path); throw (occupied_or c)

  -- The installed file must not keep its old name, or the installation is undone.
  unfoldable pub undo_unless : Str → Settled Unit → Io Unit
  unfolding unlink
  undo_unless final_path (fine u) = pure tt
  undo_unless final_path (failed c) = do ignore (unlink final_path); throw other

  unfoldable pub finish_staged : Str → Str → StagedReplacement → Settled Unit → Io Unit
  unfolding unlink undo_unless drop_staged
  finish_staged new_path final_path staged (failed c) = drop_staged staged.path c
  finish_staged new_path final_path staged (fine u) =
      if staged.via_link
      then settled (unlink new_path) >>= undo_unless final_path
      else ignore (unlink new_path)

  unfoldable pub swap_staged : Str → Str → StagedReplacement → Io Unit
  unfolding move_exclusively finish_staged
  swap_staged new_path final_path staged = do
    set_staged_path staged.path
    moved ← settled (move_exclusively ps now_ms false staged.path final_path)
    finish_staged new_path final_path staged moved

  unfoldable pub copied_in : Str → Str → Settled Unit → Io Unit
  unfolding unlink drop_staged
  copied_in new_path path (fine u) = ignore (unlink new_path)
  copied_in new_path path (failed c) = drop_staged path c

  unfoldable pub swap_copy : Str → Str → Io Unit
  unfolding copy_file move_exclusively copied_in staged_path_for
  swap_copy new_path final_path = do
    uuid ← random_uuid
    let path = staged_path_for ps final_path uuid
    set_staged_path path
    moved ← settled (copy_file new_path path >> move_exclusively ps now_ms false path final_path)
    copied_in new_path path moved

  unfoldable pub moved_or_copied : Bool → Str → Str → Settled Unit → Io Unit
  unfolding swap_copy
  moved_or_copied allow_cross_device new_path final_path (fine u) = pure tt
  moved_or_copied allow_cross_device new_path final_path (failed c) =
      if is_eexist c
      then throw other
      else if not (is_exdev c)
      then throw c
      else if not allow_cross_device
      then throw other
      else swap_copy new_path final_path

  unfoldable pub swap_direct : Bool → Str → Str → Io Unit
  unfolding move_exclusively moved_or_copied
  swap_direct allow_cross_device new_path final_path =
      settled (move_exclusively ps now_ms false new_path final_path)
      >>= moved_or_copied allow_cross_device new_path final_path

  unfoldable pub swap_by : Bool → Str → Str → Option StagedReplacement → Io Unit
  unfolding swap_staged swap_direct
  swap_by allow_cross_device new_path final_path (some staged) =
      swap_staged new_path final_path staged
  swap_by allow_cross_device new_path final_path none =
      swap_direct allow_cross_device new_path final_path

  unfoldable pub swap_into_place : Bool → Str → Str → Option StagedReplacement → Io Unit
  unfolding swap_by
  swap_into_place allow_cross_device new_path final_path staged = do
    already ← same_path new_path final_path
    if already then pure tt else swap_by allow_cross_device new_path final_path staged

abbrev same_ino : Node → Node → Bool
same_ino a b = a.ino == b.ino

-- The sources in order; `found` tells whether one was there.
abbrev pub next_source : (Bool → Io Bool) → Node → Bool → Settled Node → Io Bool
next_source rest destination found (failed c) = rest found
next_source rest destination found (fine n) =
    if same_ino n destination then pure true else rest true

unfoldable pub any_source_is : Node → ℕ → Bool → List Str → Io Bool
unfolding lstat
any_source_is destination expected found [] =
    pure (if found then false else destination.size == expected)
any_source_is destination expected found (source ∷ sources) =
    settled (lstat source)
    >>= next_source (λ found'. any_source_is destination expected found' sources) destination found

abbrev pub sources_of : Str → Option Str → List Str
sources_of new_path none = new_path ∷ []
sources_of new_path (some staged_path) = new_path ∷ staged_path ∷ []

unfoldable pub landed_at : Str → Option Str → ℕ → Settled Node → Io Bool
unfolding any_source_is
landed_at new_path staged_path expected (failed c) = pure false
landed_at new_path staged_path expected (fine destination) =
    any_source_is destination expected false (sources_of new_path staged_path)

-- Whether the destination is the new file, by identity where a source is left.
unfoldable pub swap_landed : Str → Option Str → Str → ℕ → Io Bool
unfolding lstat landed_at
swap_landed new_path staged_path final_path expected =
    settled (lstat final_path) >>= landed_at new_path staged_path expected
