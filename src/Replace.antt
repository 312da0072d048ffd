-- ===== src/Replace.antt =====
-- packages/engine/src/executor/replace-original.ts: replacing a library file by the file that a flow
-- produced, on the file system of Disk.
--
-- What `node:path` does with texts is an argument. What is written to the job's log, the
-- measurements of a copy's progress, and the refreshed time of a reservation that is held are left
-- out.
pub mod Move
pub mod Swap
pub mod Runner
pub mod Safety
pub mod Original
pub mod Recovery
mod Tests
use trawlarr.Prelude.{
  ℕ, Bool, Option, none, some, List, [], ◌∷◌, ◌++◌, Str, codes, if◌then◌else◌, ◌==◌, decimal,
}

pub record Paths : Type 0 where
  pub dirname : Str → Str
  pub basename : Str → Str
  pub stem : Str → Str
  pub extname : Str → Str
  pub join : Str → Str → Str

abbrev pub working_file_prefix : Str
working_file_prefix = codes ".trawlarr-"

abbrev extension_or : Str → Str → Str
extension_or [] b = b
extension_or (c ∷ a) b = c ∷ a

module _ (ps : Paths) where
  -- The original's name with the new file's extension, if that has one.
  unfoldable pub replacement_path_for : Str → Str → Str
  replacement_path_for original_path new_path =
      ps.join (ps.dirname original_path)
        (ps.stem original_path ++ extension_or (ps.extname new_path) (ps.extname original_path))

  unfoldable pub reservation_path_for : Str → Str
  reservation_path_for final_path =
      ps.join (ps.dirname final_path)
        (working_file_prefix ++ codes "reserve-" ++ ps.basename final_path)

  abbrev pub displaced_path : Str → Str → Str
  displaced_path reservation uuid = reservation ++ codes "." ++ uuid

  unfoldable pub staged_path_for : Str → Str → Str
  staged_path_for final_path uuid =
      ps.join (ps.dirname final_path)
        (working_file_prefix ++ codes "replace-" ++ uuid ++ ps.extname final_path)

  abbrev suffix_of : ℕ → Str
  suffix_of attempt = if attempt == 0 then [] else codes "-" ++ decimal attempt

  -- The name of an original in the trash.
  unfoldable pub trash_path : Str → Str → ℕ → ℕ → Str
  trash_path trash_dir original_path now_ms attempt = ps.join trash_dir (
      ps.stem original_path
      ++ codes "."
      ++ decimal now_ms
      ++ suffix_of attempt
      ++ ps.extname original_path)
