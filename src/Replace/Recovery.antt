-- ===== src/Replace/Recovery.antt =====
-- packages/server/src/library/swap-recovery.ts: what becomes of one swap note when the daemon starts.
--
-- What the database tells of the note's job is an argument, with the row of its file. A folder's
-- entries, the real path of a path and lower case are arguments too. Every entry of the disk is a
-- regular file or a symbolic link.
pub mod Links
pub mod Safety
pub mod Notes
pub mod Progress
pub mod Restored
mod Tests
use trawlarr.Prelude.{
  ℕ, ◌+◌, Bool, true, false, ◌&&◌, ◌||◌, not, Option, none, some, is_some, List, [], ◌∷◌, ◌++◌, Str,
  codes, str_eq, starts_with, ends_with, includes, if◌then◌else◌, leb, ◌==◌, decimal, drop, length,
}
use trawlarr.Disk.{
  Code, eexist, eperm, enosys, eopnotsupp, enotsup, eacces, Node, Disk, World, returned, Io, pure,
  throw, ◌>>=◌, ◌>>◌, Settled, fine, failed, settled, ignore, call, lstat, link, unlink, rename,
  visit, set_note, is_eexist,
}
use trawlarr.Replace.{Paths, working_file_prefix}

-- The row of the file, with what its library says.
pub record Row : Type 0 where
  pub path : Str
  pub inode_key : Option ℕ
  pub is_missing : Bool
  pub roots : List Str
  pub trash_dir : Str
  pub extensions : List Str

-- The job that the note is named after, and the other jobs of its file.
pub record NotedJob : Type 0 where
  pub is_known : Bool
  pub has_ended : Bool
  pub file_running : Bool
  pub other_open : Bool
  pub row : Option Row

pub data Outcome : Type 0 where
  restored already_settled retained not_acted_on : Outcome

abbrev pub restore_unsupported : Code → Bool
restore_unsupported eperm = true
restore_unsupported enotsup = true
restore_unsupported eopnotsupp = true
restore_unsupported enosys = true
restore_unsupported eacces = true
restore_unsupported _ = false

abbrev root_with_slash : Str → Str
root_with_slash parent = if ends_with parent (codes "/") then parent else parent ++ codes "/"

abbrev within_root : Str → Str → Bool
within_root parent child = str_eq child parent || starts_with child (root_with_slash parent)

abbrev within_any : List Str → Str → Bool
within_any [] child = false
within_any (root ∷ roots) child = within_root root child || within_any roots child

abbrev is_digit : ℕ → Bool
is_digit c = leb 48 c && leb c 57

abbrev skip_digits : Str → Str
skip_digits [] = []
skip_digits (c ∷ s) = if is_digit c then skip_digits s else c ∷ s

-- Digits, and then the extension.
abbrev numbered : Str → Str → Bool
numbered [] extension = false
numbered (c ∷ s) extension = is_digit c && str_eq (skip_digits s) extension

abbrev ends_entry : Str → Str → Bool
ends_entry [] extension = str_eq [] extension
ends_entry (c ∷ s) extension = str_eq (c ∷ s) extension || c == 45 && numbered s extension

-- A call that is caught and does not matter.
abbrev pub drop_note : Outcome → Io Outcome
drop_note o = ignore (visit >> set_note none) >> pure o

unfoldable pub resolve : Str → Io Str
unfolding call
resolve p w = call (λ d. (returned (w.machine.real_path d p), d)) w

module _ (ps : Paths) where
  abbrev entry_head : Str → ℕ → Str
  entry_head original_path now = ps.stem original_path ++ codes "." ++ decimal now

  unfoldable pub trash_entry_pattern : Str → ℕ → Str → Bool
  unfolding starts_with
  trash_entry_pattern original_path now entry =
      let head = entry_head original_path now in
      starts_with entry head && ends_entry (drop (length head) entry) (ps.extname original_path)

module _ (ps : Paths) (row : Row) where
  abbrev settled_eq : Settled Str → Str → Bool
  settled_eq (fine a) b = str_eq a b
  settled_eq (failed c) b = false

  abbrev is_original : ℕ → Settled Node → Bool
  is_original ino (fine n) = not n.symlink && n.ino == ino
  is_original ino (failed c) = false

  abbrev has_ino : ℕ → Settled Node → Bool
  has_ino ino (fine n) = n.ino == ino
  has_ino ino (failed c) = false

  unfoldable pub clear_missing : Io Unit
  unfolding visit
  clear_missing = if row.is_missing then visit else pure tt

  unfoldable pub finish_restored : Bool → Str → Io Outcome
  unfolding unlink clear_missing visit
  finish_restored renamed trashed = do
    if renamed then pure tt else ignore (unlink trashed)
    clear_missing
    drop_note restored

  -- The name that was made is removed only if it stands for the file that was linked there.
  unfoldable pub undo_restored : ℕ → Str → Settled Node → Io Outcome
  unfolding unlink
  undo_restored ino target created =
      if has_ino ino created then ignore (unlink target) >> pure not_acted_on else pure not_acted_on

  unfoldable pub check_restored : Bool → Str → ℕ → Str → Str → Io Outcome
  unfolding lstat resolve finish_restored undo_restored
  check_restored renamed dir ino trashed target = do
    created ← settled (lstat target)
    dir_after ← settled (resolve (ps.dirname row.path))
    if is_original ino created && settled_eq dir_after dir
        then finish_restored renamed trashed
        else undo_restored ino target created

  unfoldable pub rename_back : Str → ℕ → Str → Str → Settled Node → Io Outcome
  unfolding rename check_restored visit
  rename_back dir ino trashed target (fine n) = drop_note already_settled
  rename_back dir ino trashed target (failed c) =
      rename trashed target >> check_restored true dir ino trashed target

  unfoldable pub linked_back : Str → ℕ → Str → Str → Settled Unit → Io Outcome
  unfolding check_restored rename_back lstat visit
  linked_back dir ino trashed target (fine u) = check_restored false dir ino trashed target
  linked_back dir ino trashed target (failed c) =
      if is_eexist c
      then drop_note already_settled
      else if not (restore_unsupported c)
      then pure not_acted_on
      else settled (lstat target) >>= rename_back dir ino trashed target

  unfoldable pub put_back : Str → ℕ → Str → Str → Io Outcome
  unfolding link linked_back
  put_back dir ino trashed target =
      settled (link trashed target) >>= linked_back dir ino trashed target

  -- The folder and the entry are looked at once more.
  unfoldable pub check_use : Str → ℕ → Str → Io Outcome
  unfolding resolve lstat put_back
  check_use dir ino trashed = do
    dir_now ← settled (resolve (ps.dirname row.path))
    trashed_now ← settled (lstat trashed)
    if settled_eq dir_now dir && is_original ino trashed_now
        then put_back dir ino trashed (ps.join dir (ps.basename row.path))
        else pure not_acted_on

  abbrev found_or : ℕ → Str → Io (Option Str) → Settled Node → Io (Option Str)
  found_or ino path next r = if is_original ino r then pure (some path) else next

  unfoldable pub find_trashed : ℕ → Str → ℕ → List Str → Io (Option Str)
  unfolding lstat trash_entry_pattern
  find_trashed now trash_dir ino [] = pure none
  find_trashed now trash_dir ino (entry ∷ entries) =
      let rest = find_trashed now trash_dir ino entries in
      if trash_entry_pattern ps row.path now entry
      then settled (lstat (ps.join trash_dir entry)) >>= found_or ino (ps.join trash_dir entry) rest
      else rest

  unfoldable pub use_found : Str → ℕ → Option Str → Io Outcome
  unfolding check_use
  use_found dir ino none = pure not_acted_on
  use_found dir ino (some trashed) = check_use dir ino trashed

  abbrev or_empty : Settled (List Str) → List Str
  or_empty (fine entries) = entries
  or_empty (failed c) = []

  module _ (entries : Disk → Str → List Str) (lower : Str → Str) where
    unfoldable pub read_dir : Str → Io (List Str)
    unfolding call
    read_dir p = call (λ d. (returned (entries d p), d))

    unfoldable pub search_trash : Str → ℕ → Option ℕ → Io Outcome
    unfolding resolve read_dir find_trashed use_found
    search_trash dir now none = pure not_acted_on
    search_trash dir now (some ino) = do
      trash_dir ← resolve row.trash_dir
      names ← settled (read_dir trash_dir)
      found ← find_trashed now trash_dir ino (or_empty names)
      use_found dir ino found

    abbrev is_sibling : Str → Bool
    is_sibling entry =
        str_eq (ps.stem entry) (ps.stem row.path)
        && not (starts_with entry working_file_prefix)
        && includes row.extensions (lower (drop 1 (ps.extname entry)))

    abbrev any_sibling : List Str → Bool
    any_sibling [] = false
    any_sibling (entry ∷ names) = is_sibling entry || any_sibling names

    unfoldable pub restore_at : Str → ℕ → Settled Node → Io Outcome
    unfolding read_dir search_trash visit
    restore_at dir now (fine n) = if n.symlink then pure not_acted_on else drop_note already_settled
    restore_at dir now (failed c) = do
      names ← read_dir dir
      if any_sibling names then pure not_acted_on else search_trash dir now row.inode_key

    abbrev resolve_roots : List Str → Io (List Str)
    resolve_roots [] = pure []
    resolve_roots (root ∷ roots) = do
      first ← resolve root
      rest ← resolve_roots roots
      pure (first ∷ rest)

    unfoldable pub restore : ℕ → Io Outcome
    unfolding resolve lstat restore_at
    restore now = do
      dir ← resolve (ps.dirname row.path)
      roots ← resolve_roots row.roots
      if within_any roots dir
          then settled (lstat (ps.join dir (ps.basename row.path))) >>= restore_at dir now
          else pure not_acted_on

abbrev or_not_acted_on : Settled Outcome → Io Outcome
or_not_acted_on (fine o) = pure o
or_not_acted_on (failed c) = pure not_acted_on

abbrev read_note : Settled Unit → Io (Option ℕ)
read_note (fine u) w = (returned w.note, w)
read_note (failed c) w = (returned none, w)

module _ (ps : Paths) (entries : Disk → Str → List Str) (lower : Str → Str) where
  unfoldable pub act_on : Option ℕ → Option Row → Io Outcome
  unfolding restore
  act_on none row = pure not_acted_on
  act_on (some now) none = pure not_acted_on
  act_on (some now) (some row) = settled (restore ps row entries lower now) >>= or_not_acted_on

  unfoldable pub recover_swap : NotedJob → Io Outcome
  unfolding visit act_on
  recover_swap job =
      if not job.is_known
      then pure not_acted_on
      else if not job.has_ended
      then pure retained
      else if job.file_running || job.other_open
      then pure retained
      else do read ← settled visit; note ← read_note read; act_on note job.row
