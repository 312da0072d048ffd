-- ===== src/Replace/Recovery/Tests.antt =====
-- Recoveries on a concrete machine, and the theorem at one.
use trawlarr.Prelude.{
  Memᴰ, ℕ, ◌+◌, ◌≡◌, ◌≢◌, refl, sym, ap, ◌∙◌, Bool, true, false, ◌||◌, none, some, List, [], ◌∷◌,
  ◌++◌, Str, codes, str_eq, str_eq_refl, starts_with, ends_with, includes, drop, length, decimal,
  ◌==◌, if◌then◌else◌,
}
use trawlarr.Disk.{
  call, lstat, link, unlink, rename, visit, eperm, other, Node, Disk, lookup, Fate, go, crash, fail,
  World, Exit, returned,
}
use trawlarr.Replace.{Paths}
use trawlarr.Replace.Recovery.{
  resolve, trash_entry_pattern, clear_missing, finish_restored, undo_restored, check_restored,
  rename_back, linked_back, put_back, check_use, find_trashed, use_found, read_dir, search_trash,
  restore_at, restore, act_on, recover_swap, Row, NotedJob, Outcome, restored, not_acted_on,
}
use trawlarr.Replace.Recovery.Links.{HasLinks, is_link_fate}
use trawlarr.Replace.Recovery.Safety.{IsKept}
use trawlarr.Replace.Recovery.Notes.{recover_swap-IsKept}
use trawlarr.Disk.Calm.{IsIdeal}
use trawlarr.Replace.Recovery.Progress.{IsRestored}
use trawlarr.Replace.Recovery.Restored.{IsStranded, recover_swap-IsRestored}

abbrev one_folder : Paths
one_folder = record {
  dirname = λ p. codes "/m";
  basename = λ p. codes "film.mkv";
  stem = λ p. codes "film";
  extname = λ p. codes ".mkv";
  join = λ a b. a ++ (codes "/" ++ b);
}

abbrev film : Node
film = record { ino = 7; size = 900; symlink = false; mtime_ms = 5 }

abbrev trashed_name : Str
trashed_name = codes "/t/film.1006.mkv"

abbrev world_of : (ℕ → Fate) → World
world_of decide = record {
  machine = record {
    decide = decide;
    decide_link = decide;
    others = λ n d. d;
    clock = λ n. 1000 + n;
    uuid = λ n. decimal n;
    new_ino = λ n. 100 + n;
    copied = λ n. 3;
    follow = λ n. none;
    real_path = λ d p. p;
  };
  disk = (trashed_name, film) ∷ [];
  note = some 1006;
  staged_path = none;
  calls = 0;
}

-- The names in a folder.
abbrev names_in : Disk → Str → List Str
names_in [] dir = []
names_in ((p, n) ∷ d) dir =
    let rest = names_in d dir in
    if starts_with p (dir ++ codes "/") then drop (length (dir ++ codes "/")) p ∷ rest else rest

abbrev film_row : Row
film_row = record {
  path = codes "/m/film.mkv";
  inode_key = some 7;
  is_missing = true;
  roots = codes "/m" ∷ [];
  trash_dir = codes "/t";
  extensions = codes "mkv" ∷ [];
}

abbrev dead_job : NotedJob
dead_job = record {
  is_known = true;
  has_ended = true;
  file_running = false;
  other_open = false;
  row = some film_row;
}

abbrev recovery : (ℕ → Fate) → Exit Outcome × Disk
recovery decide =
    let r = recover_swap one_folder names_in (λ s. s) dead_job (world_of decide) in (r.0, r.1.disk)

abbrev no_links_then_fails : ℕ → Fate
no_links_then_fails n = if n == 10 then fail eperm else if n == 14 then fail other else go

-- The original is put back; and where there are no links, a folder that cannot be resolved after the
-- rename costs the file its only name.
recover_swap_runs :
    (recovery (λ n. go) ≡ (returned restored, (codes "/m/film.mkv", film) ∷ []))
    × (recovery (λ n. if n == 10 then fail eperm else go)
        ≡ (returned restored, (codes "/m/film.mkv", film) ∷ []))
    × (recovery no_links_then_fails ≡ (returned not_acted_on, []))
unfolding call lstat link unlink rename visit resolve trash_entry_pattern clear_missing
    finish_restored undo_restored check_restored rename_back linked_back put_back check_use
    find_trashed use_found read_dir search_trash restore_at restore act_on recover_swap str_eq
    decimal starts_with ends_with includes
recover_swap_runs = (refl, refl, refl)

abbrev has_end : Str → Str → Bool
has_end t [] = str_eq [] t
has_end t (c ∷ s) = str_eq (c ∷ s) t || has_end t s

folder-has_end : (dir : Str) → has_end (codes "/film.mkv") (dir ++ codes "/film.mkv") ≡ true
folder-has_end [] = rw (str_eq_refl (codes "/film.mkv")) refl
folder-has_end (c ∷ dir) =
    by_first (str_eq (c ∷ (dir ++ codes "/film.mkv")) (codes "/film.mkv")) (folder-has_end dir)
  where
    by_first :
        (b : Bool)
        → has_end (codes "/film.mkv") (dir ++ codes "/film.mkv") ≡ true
        → (b || has_end (codes "/film.mkv") (dir ++ codes "/film.mkv")) ≡ true
    by_first true h = refl
    by_first false h = h

trashed-has_end : has_end (codes "/film.mkv") trashed_name ≡ false
unfolding str_eq
trashed-has_end = refl

folder_apart : (dir : Str) → one_folder.join dir (one_folder.basename film_row.path) ≢ trashed_name
folder_apart dir e =
    let same : true ≡ false =
      sym (folder-has_end dir) ∙ (ap (has_end (codes "/film.mkv")) e ∙ trashed-has_end) in
    cc

-- The machine stops when the original has two names.
abbrev dies_linked : ℕ → Fate
dies_linked n = if n == 12 then crash else go

dies_linked-HasLinks : HasLinks (world_of dies_linked).machine
dies_linked-HasLinks n = by_call (n == 12)
  where
    by_call : (b : Bool) → is_link_fate (if b then crash else go) ≡ true
    by_call true = refl
    by_call false = refl

trashed_there : lookup (world_of dies_linked).disk trashed_name ≡ some film
unfolding str_eq
trashed_there = refl

recover_swap-IsKept_example :
    IsKept film trashed_name one_folder film_row folder_apart
      (recover_swap one_folder names_in (λ s. s) dead_job (world_of dies_linked)).1
recover_swap-IsKept_example =
    recover_swap-IsKept film trashed_name one_folder film_row folder_apart names_in (λ s. s)
      dead_job refl (world_of dies_linked) (λ n d p e. e, trashed_there) dies_linked-HasLinks

abbrev calm_world : World
calm_world = world_of (λ n. go)

film_stranded :
    IsStranded calm_world.machine one_folder names_in (λ s. s) film_row 1006 7 calm_world.disk
unfolding str_eq starts_with ends_with includes decimal trash_entry_pattern
film_stranded = record {
  steady = λ d' p. refl;
  key = refl;
  in_root = refl;
  free = refl;
  alone = refl;
  entry = codes "film.1006.mkv";
  file = film;
  listed = Memᴰ.head refl;
  named = refl;
  at = refl;
  own = refl;
}

calm_world-IsIdeal : IsIdeal calm_world.machine
calm_world-IsIdeal = record { works = λ n. refl; works_link = λ n. refl; alone = λ n d. refl }

recover_swap-IsRestored_example :
    IsRestored calm_world.machine calm_world-IsIdeal
      (some 1006)
      one_folder
      film_row
      7
      calm_world.disk
      film_stranded.steady
      (recover_swap one_folder names_in (λ s. s) dead_job calm_world).0
      (recover_swap one_folder names_in (λ s. s) dead_job calm_world).1
recover_swap-IsRestored_example =
    recover_swap-IsRestored calm_world.machine one_folder names_in (λ s. s) film_row
      calm_world-IsIdeal 1006 7 calm_world.disk film_stranded dead_job refl refl refl refl refl
      calm_world (refl, refl, refl)
