-- ===== src/Replace/Tests.antt =====
-- Runs of a replacement on a concrete machine.
use trawlarr.Prelude.{
  ℕ, zero, suc, ◌+◌, ◌≡◌, refl, ap, inl, inr, Bool, true, false, none, some, [], ◌∷◌, ◌++◌, Str,
  codes, str_eq, ◌==◌, if◌then◌else◌, decimal,
}
use trawlarr.Disk.{
  now_ms, Fate, Disk, Exit, Machine, Node, World, call, copy_file, crash, eperm, exists, fail, go,
  link, lookup, lstat, open_exclusive, other, rename, returned, stat_file, unlink, visit,
}
use trawlarr.Replace.{
  Paths, replacement_path_for, reservation_path_for, staged_path_for, trash_path,
}
use trawlarr.Replace.Move.{
  claim, release_if, release_reservation, rename_if_free, rename_to_free, rename_reserved,
  keep_or_roll_back, remove_source, reclaim_moved, reclaim_from, claim_or_reclaim,
  reserve_destination, link_or_reserve, create_exclusively, move_exclusively, trash_from,
  move_to_trash,
}
use trawlarr.Replace.Swap.{
  copy_verified, staged_copy, staged_link, stage_replacement, drop_staged, undo_unless,
  finish_staged, swap_staged, copied_in, swap_copy, moved_or_copied, swap_direct, swap_by,
  swap_into_place, any_source_is, landed_at, swap_landed,
}
use trawlarr.Replace.Runner.{
  Job, Output, guard_duration_change, final_path, end_note, companions_moved, describe_and_finish,
  settle_landed, end_if_restored, restore_original, after_swap, swap, drop_copy, after_trash,
  trash_and_swap, after_note, record_and_swap, after_stage, stage_and_swap, after_companions,
  check_destination, check_symlink, check_duration, check_original, check_new, replace_original,
}
use trawlarr.Replace.Safety.Trash.{IsTrashName, IsHome, IsApart}
use trawlarr.Replace.Safety.Occupied.{IsRefused, move_exclusively-IsRefused}
use trawlarr.Replace.Original.{HasEnded, replace_original-HasEnded}

abbrev one_folder : Paths
one_folder = record {
  dirname = λ p. codes "/m";
  basename = λ p. codes "film.mkv";
  stem = λ p. codes "film";
  extname = λ p. codes ".mkv";
  join = λ a b. a ++ codes "/" ++ b;
}

abbrev film_job : Job
film_job = record {
  paths = one_folder;
  original_path = codes "/m/film.mkv";
  new_path = codes "/c/out.mkv";
  trash_dir = codes "/t";
  allow_hardlinked = false;
  allow_cross_device = true;
  keeps_notes = true;
  new_duration_ms = some 600000;
  original_duration_ms = some 600500;
}

abbrev film : Node
film = record { ino = 7; size = 900; symlink = false; mtime_ms = 5 }

abbrev encoded : Node
encoded = record { ino = 8; size = 400; symlink = false; mtime_ms = 6 }

abbrev machine_of : (ℕ → Fate) → Machine
machine_of decide = record {
  decide = decide;
  decide_link = decide;
  others = λ n d. d;
  clock = λ n. 1000 + n;
  uuid = λ n. decimal n;
  new_ino = λ n. 100 + n;
  copied = λ n. 3;
  follow = λ n. none;
  real_path = λ d p. p;
}

abbrev world_of : (ℕ → Fate) → World
world_of decide = record {
  machine = machine_of decide;
  disk = (codes "/m/film.mkv", film) ∷ (codes "/c/out.mkv", encoded) ∷ [];
  note = none;
  staged_path = none;
  calls = 0;
}

abbrev nth : ℕ → Str → ℕ
nth n [] = 0
nth zero (c ∷ s) = c
nth (suc n) (c ∷ s) = nth n s

abbrev is_nth : ℕ → ℕ → Str → Bool
is_nth n c s = nth n s == c

home-is_nth : (p : Str) → IsHome film_job p → is_nth 3 102 p ≡ true
unfolding trash_path
home-is_nth p (inl e) = ap (is_nth 3 102) e
home-is_nth p (inr h) = ap (is_nth 3 102) h.is

trash-is_nth : (p : Str) → IsTrashName film_job p → is_nth 1 116 p ≡ true
unfolding trash_path
trash-is_nth p h = ap (is_nth 1 116) h.is

film_job-IsApart : IsApart film_job
unfolding final_path replacement_path_for reservation_path_for staged_path_for
film_job-IsApart = record {
  trash = λ p h e. cc (trash-is_nth p h, ap (is_nth 1 116) e);
  new_file = λ p h e. cc (trash-is_nth p h, ap (is_nth 1 116) e);
  final_file = λ p h e. cc (trash-is_nth p h, ap (is_nth 1 116) e);
  staged = λ uuid p h e. cc (home-is_nth p h, ap (is_nth 3 102) e);
  reservation = λ to p h. record {
    reservation = λ e. cc (home-is_nth p h, ap (is_nth 3 102) e);
    displaced = λ uuid e. cc (home-is_nth p h, ap (is_nth 3 102) e);
  };
}

abbrev dies_at : ℕ → ℕ → Fate
dies_at n m = if m == n then crash else go

abbrev run_file : (ℕ → Fate) → Exit Output × Disk
run_file decide = let r = replace_original film_job (world_of decide) in (r.0, r.1.disk)

film_is_there :
    (decide : ℕ → Fate) → lookup (world_of decide).disk film_job.original_path ≡ some film
unfolding str_eq
film_is_there decide = refl

-- The new file takes the original's name, and the original goes to the trash; a swap that fails
-- puts the original back.
replace_original_runs :
    (run_file (λ n. go) ≡ (
      returned (record { output_number = 1; path = codes "/m/film.mkv" }),
      (codes "/m/film.mkv", encoded) ∷ (codes "/t/film.1006.mkv", film) ∷ [],
    ))
    × (run_file (λ n. if n == 12 then fail other else go) ≡ (
      returned (record { output_number = 2; path = codes "/m/film.mkv" }),
      (codes "/m/film.mkv", film) ∷ (codes "/c/out.mkv", encoded) ∷ [],
    ))
unfolding call lstat stat_file link unlink rename open_exclusive copy_file visit exists
    replacement_path_for reservation_path_for staged_path_for trash_path claim release_if
    release_reservation rename_if_free rename_to_free rename_reserved keep_or_roll_back
    remove_source reclaim_moved reclaim_from claim_or_reclaim reserve_destination link_or_reserve
    create_exclusively move_exclusively trash_from move_to_trash copy_verified staged_copy
    staged_link stage_replacement drop_staged undo_unless finish_staged swap_staged copied_in
    swap_copy moved_or_copied swap_direct swap_by swap_into_place any_source_is landed_at
    swap_landed guard_duration_change final_path end_note companions_moved describe_and_finish
    settle_landed end_if_restored restore_original after_swap swap drop_copy after_trash
    trash_and_swap after_note record_and_swap after_stage stage_and_swap after_companions
    check_destination check_symlink check_duration check_original check_new replace_original str_eq
    decimal
replace_original_runs = (refl, refl)

replace_original-HasEnded_example :
    HasEnded film film_job film_job-IsApart
      (world_of (dies_at 11))
      (replace_original film_job (world_of (dies_at 11))).0
      (replace_original film_job (world_of (dies_at 11))).1
replace_original-HasEnded_example =
    replace_original-HasEnded film film_job film_job-IsApart (world_of (dies_at 11))
      (λ n d p e. e, film_is_there (dies_at 11))

abbrev no_links : ℕ → Fate
no_links n = if n == 0 then fail eperm else go

move_exclusively-IsRefused_example :
    IsRefused film
      (codes "/c/out.mkv")
      (codes "/m/film.mkv")
      (move_exclusively one_folder now_ms false
        (codes "/c/out.mkv")
        (codes "/m/film.mkv")
        (world_of no_links)).0
      (move_exclusively one_folder now_ms false
        (codes "/c/out.mkv")
        (codes "/m/film.mkv")
        (world_of no_links)).1
move_exclusively-IsRefused_example =
    move_exclusively-IsRefused film (codes "/c/out.mkv") (codes "/m/film.mkv") one_folder now_ms
      (record { keeps = λ w at. at })
      (film_job-IsApart.reservation (codes "/m/film.mkv") (codes "/m/film.mkv") (inl refl)) false
      (world_of no_links) (λ n d p e. e, film_is_there no_links)
