-- ===== src/Replace/Recovery/Restored.antt =====
-- The recovery of a note on a machine that works: the original gets its place back.
use trawlarr.Prelude.{ℕ, ◌≡◌, refl, true, false, Option, none, some, List, [], ◌∷◌, Memᴰ, Str}
use trawlarr.Disk.{
  enoent, Node, Disk, lookup, Machine, World, returned, Io, ◌>>=◌, Settled, fine, failed, settled,
  lstat, visit,
}
use trawlarr.Disk.Keeps.{Leads, Leads->>=, Leads-settled, Leads-done, Caught}
use trawlarr.Disk.Calm.{
  IsIdeal, On, Gives, call-Gives, then-Gives, settled-Gives, settled-lstat-none, visit-Gives,
}
use trawlarr.Replace.{Paths}
use trawlarr.Replace.Recovery.{
  Row, NotedJob, Outcome, resolve, find_trashed, search_trash, read_dir, restore_at, restore,
  act_on, recover_swap, trash_entry_pattern, is_original, any_sibling, resolve_roots, within_any,
  read_note, or_not_acted_on,
}
use trawlarr.Replace.Recovery.Progress.{
  IsRestored, HasFound, resolve-Gives, find_trashed-Finds, use_found-Succeeds,
}

module _ (m : Machine) (ps : Paths) (entries : Disk → Str → List Str) (lower : Str → Str)
    (row : Row) where
  -- The real paths of the paths in a list.
  abbrev real_paths : Disk → List Str → List Str
  real_paths d [] = []
  real_paths d (p ∷ paths) = m.real_path d p ∷ real_paths d paths

  -- The library's path is empty and the original, by its inode, is in the trash under a name that the
  -- job gave it; no file beside it could be the replacement.
  pub record IsStranded (now ino : ℕ) (d : Disk) : Type 0 where
    pub steady : (d' : Disk) (p : Str) → m.real_path d' p ≡ m.real_path d p
    pub key : row.inode_key ≡ some ino
    pub in_root : within_any (real_paths d row.roots) (m.real_path d (ps.dirname row.path)) ≡ true
    pub free :
        lookup d (ps.join (m.real_path d (ps.dirname row.path)) (ps.basename row.path)) ≡ none
    pub alone :
        any_sibling ps row entries lower (entries d (m.real_path d (ps.dirname row.path))) ≡ false
    pub entry : Str
    pub file : Node
    pub listed : Memᴰ entry (entries d (m.real_path d row.trash_dir))
    pub named : trash_entry_pattern ps row.path now entry ≡ true
    pub at : lookup d (ps.join (m.real_path d row.trash_dir) entry) ≡ some file
    pub own : is_original ps row ino (fine file) ≡ true

  module _ (ideal : IsIdeal m) (note : Option ℕ) (now ino : ℕ) (d : Disk)
      (stranded : IsStranded now ino d) where
    abbrev Succeeds : Io Outcome → Type 0
    Succeeds p = Leads (On m note d) p (IsRestored m ideal note ps row ino d stranded.steady)

    read_dir-Gives :
        (p : Str)
        → Gives m note ideal d (read_dir ps row entries lower p) (returned (entries d p)) d
    unfolding read_dir
    read_dir-Gives p = call-Gives m note ideal d (λ d'. (returned (entries d' p), d'))

    search_trash-Succeeds :
        Succeeds
          (search_trash ps row entries lower (m.real_path d (ps.dirname row.path)) now (some ino))
    unfolding search_trash
    search_trash-Succeeds =
        then-Gives m note ideal d d (resolve row.trash_dir) _ (m.real_path d row.trash_dir)
          (resolve-Gives m ideal note d row.trash_dir)
          (then-Gives m note ideal d d
            (settled (read_dir ps row entries lower (m.real_path d row.trash_dir))) _
            (fine (entries d (m.real_path d row.trash_dir)))
            (settled-Gives m note ideal d d
              (read_dir ps row entries lower (m.real_path d row.trash_dir)) _
              (read_dir-Gives (m.real_path d row.trash_dir)))
            (Leads->>= (HasFound m ideal note ps row ino d stranded.steady stranded.free)
              (find_trashed ps row now (m.real_path d row.trash_dir) ino
                (entries d (m.real_path d row.trash_dir)))
              _
              (find_trashed-Finds m ideal note ps row ino d stranded.steady stranded.free now
                (m.real_path d row.trash_dir) (entries d (m.real_path d row.trash_dir))
                stranded.entry stranded.file stranded.listed stranded.named stranded.at
                stranded.own)
              (use_found-Succeeds m ideal note ps row ino d stranded.steady stranded.free now
                (m.real_path d row.trash_dir))
              (λ c w h. cc (h.0.2)) (λ w h. cc (h.0.2))))

    restore_at-Succeeds :
        Succeeds (
          restore_at ps row entries lower (m.real_path d (ps.dirname row.path)) now (failed enoent))
    unfolding restore_at
    restore_at-Succeeds =
        then-Gives m note ideal d d
          (read_dir ps row entries lower (m.real_path d (ps.dirname row.path))) _
          (entries d (m.real_path d (ps.dirname row.path)))
          (read_dir-Gives (m.real_path d (ps.dirname row.path)))
          (rw (stranded.alone, stranded.key) search_trash-Succeeds)

    resolve_roots-Gives :
        (roots : List Str)
        → Gives m note ideal d
            (resolve_roots ps row entries lower roots)
            (returned (real_paths d roots))
            d
    resolve_roots-Gives [] = record { leads = λ w on. (refl, on) }
    resolve_roots-Gives (root ∷ roots) =
        then-Gives m note ideal d d (resolve root) _ (m.real_path d root)
          (resolve-Gives m ideal note d root)
          (then-Gives m note ideal d d (resolve_roots ps row entries lower roots) _
            (real_paths d roots) (resolve_roots-Gives roots)
            (record { leads = λ w on. (refl, on) }))

    restore-Succeeds : Succeeds (restore ps row entries lower now)
    unfolding restore
    restore-Succeeds =
        then-Gives m note ideal d d (resolve (ps.dirname row.path)) _
          (m.real_path d (ps.dirname row.path)) (resolve-Gives m ideal note d (ps.dirname row.path))
          (then-Gives m note ideal d d (resolve_roots ps row entries lower row.roots) _
            (real_paths d row.roots) (resolve_roots-Gives row.roots)
            (rw (stranded.in_root) (
              then-Gives m note ideal d d
                (settled
                  (lstat (ps.join (m.real_path d (ps.dirname row.path)) (ps.basename row.path))))
                _ (failed enoent)
                (settled-lstat-none m note ideal d
                  (ps.join (m.real_path d (ps.dirname row.path)) (ps.basename row.path))
                  stranded.free)
                restore_at-Succeeds)))

    or_not_acted_on-Succeeds :
        (r : Settled Outcome)
        → Leads
            (Caught (IsRestored m ideal note ps row ino d stranded.steady) (returned r))
            (or_not_acted_on r)
            (IsRestored m ideal note ps row ino d stranded.steady)
    or_not_acted_on-Succeeds (fine out) = Leads-done (returned out) (λ w h. h)
    or_not_acted_on-Succeeds (failed c) = record { leads = λ w h. cc (h.0) }

    act_on-Succeeds : Succeeds (act_on ps entries lower (some now) (some row))
    unfolding act_on
    act_on-Succeeds =
        Leads->>= (Caught (IsRestored m ideal note ps row ino d stranded.steady))
          (settled (restore ps row entries lower now)) or_not_acted_on
          (Leads-settled (IsRestored m ideal note ps row ino d stranded.steady)
            (restore ps row entries lower now) restore-Succeeds)
          or_not_acted_on-Succeeds (λ c w h. absurd h) (λ w h. h)

  module _ (ideal : IsIdeal m) (now ino : ℕ) (d : Disk) (stranded : IsStranded now ino d) where
    noted-Succeeds :
        Succeeds ideal
          (some now)
          now
          ino
          d
          stranded
          (read_note (fine tt) >>= λ note. act_on ps entries lower note (some row))
    noted-Succeeds = record { leads = λ w on. by_note w on w.note on.1 }
      where
        by_note :
            (w : World)
            → On m (some now) d w
            → (note : Option ℕ) → note ≡ some now
            → IsRestored m ideal
                (some now)
                ps
                row
                ino
                d
                stranded.steady
                (act_on ps entries lower note (some row) w).0
                (act_on ps entries lower note (some row) w).1
        by_note w on read same =
            rw same ((act_on-Succeeds ideal (some now) now ino d stranded).leads w on)

    -- Take the note of a job that has ended, for a file that no job has open, on a machine on which
    -- every call works, nobody else acts, and paths resolve the same throughout. If the library's path
    -- is empty, its folder is inside the roots and holds no sibling of the same stem, and the trash
    -- lists an entry of the note's name that is a regular file with the row's inode, then the recovery
    -- ends with `restored`, and a regular file with that inode is at the library's path.
    pub recover_swap-IsRestored :
        (job : NotedJob)
        → job.is_known ≡ true
        → job.has_ended ≡ true
        → job.file_running ≡ false
        → job.other_open ≡ false
        → job.row ≡ some row
        → (w : World) → On m (some now) d w
        → IsRestored m ideal
            (some now)
            ps
            row
            ino
            d
            stranded.steady
            (recover_swap ps entries lower job w).0
            (recover_swap ps entries lower job w).1
    unfolding recover_swap
    recover_swap-IsRestored job known ended idle closed same w on =
        rw (known, ended, idle, closed, same)
          ((then-Gives m (some now) ideal d d (settled visit) _ (fine tt)
              (settled-Gives m (some now) ideal d d visit (returned tt)
                (visit-Gives m (some now) ideal d))
              noted-Succeeds).leads
            w on)
