-- ===== src/Replace/Recovery/Notes.antt =====
-- The recovery from the reading of a note on.
use trawlarr.Prelude.{ℕ, ◌≡◌, ◌≢◌, ◌||◌, not, Option, none, some, List, [], ◌∷◌, Str, inl}
use trawlarr.Disk.{
  Node, Disk, World, returned, Io, pure, ◌>>=◌, Settled, fine, failed, settled, lstat, visit,
}
use trawlarr.Disk.Keeps.{Leads, Leads->>=, Leads-settled, Leads-if, Leads-done, Caught, At}
use trawlarr.Disk.Reads.{
  IsStable, Reads, Reads-call, Reads-lstat, Reads-visit, settled_then, then_read,
}
use trawlarr.Replace.{Paths}
use trawlarr.Replace.Recovery.{
  Row, NotedJob, Outcome, already_settled, retained, not_acted_on, drop_note, resolve, find_trashed,
  use_found, search_trash, read_dir, restore_at, restore, act_on, recover_swap, trash_entry_pattern,
  is_original, found_or, any_sibling, resolve_roots, within_any, read_note, or_not_acted_on,
  or_empty,
}
use trawlarr.Replace.Recovery.Links.{HasLinks, Reads-resolve, Keeps-drop_note}
use trawlarr.Replace.Recovery.Safety.{
  IsKept, Recovers, linking-IsStable, kept, unmoved, check_use-IsKept,
}

module _ (o : Node) (p : Str) where
  abbrev Linking : World → Type 0
  Linking w = At o p w × HasLinks w.machine

  Reads-bind :
      {A B : Type 0} (m : Io A) (f : A → Io B)
      → Reads Linking m
      → ((a : A) → Reads Linking (f a))
      → Reads Linking (m >>= f)
  Reads-bind m f h k = then_read (λ w x. x) m f h k

  module _ (ps : Paths) (row : Row)
      (apart : (dir : Str) → ps.join dir (ps.basename row.path) ≢ p) where
    stable : IsStable Linking
    stable = linking-IsStable o p ps row apart

    Reads-find_trashed :
        (now : ℕ) (trash_dir : Str) (ino : ℕ) (entries : List Str)
        → Reads Linking (find_trashed ps row now trash_dir ino entries)
    unfolding find_trashed
    Reads-find_trashed now trash_dir ino [] = Leads-done (returned none) (λ w h. h)
    Reads-find_trashed now trash_dir ino (entry ∷ entries) =
        let rest = Reads-find_trashed now trash_dir ino entries in
        Leads-if (trash_entry_pattern ps row.path now entry)
          (settled (lstat (ps.join trash_dir entry))
            >>= found_or ps row ino (ps.join trash_dir entry)
                (find_trashed ps row now trash_dir ino entries))
          (find_trashed ps row now trash_dir ino entries)
          (settled_then (λ w h. h) (lstat (ps.join trash_dir entry)) _
            (Reads-lstat stable (ps.join trash_dir entry))
            (λ r.
              Leads-if (is_original ps row ino r) (pure (some (ps.join trash_dir entry)))
                (find_trashed ps row now trash_dir ino entries)
                (Leads-done (returned (some (ps.join trash_dir entry))) (λ w h. h)) rest))
          rest

    use_found-IsKept :
        (dir : Str) (ino : ℕ) (found : Option Str)
        → Recovers o p ps row apart (use_found ps row dir ino found)
    unfolding use_found
    use_found-IsKept dir ino none = unmoved o p ps row apart not_acted_on
    use_found-IsKept dir ino (some trashed) = check_use-IsKept o p ps row apart dir ino trashed

    module _ (entries : Disk → Str → List Str) (lower : Str → Str) where
      Reads-read_dir : (q : Str) → Reads Linking (read_dir ps row entries lower q)
      unfolding read_dir
      Reads-read_dir q = Reads-call stable (λ d. returned (entries d q))

      search_trash-IsKept :
          (dir : Str) (now : ℕ) (key : Option ℕ)
          → Recovers o p ps row apart (search_trash ps row entries lower dir now key)
      unfolding search_trash
      search_trash-IsKept dir now none = unmoved o p ps row apart not_acted_on
      search_trash-IsKept dir now (some ino) =
          then_read (kept o p ps row apart) (resolve row.trash_dir) _
            (Reads-resolve stable row.trash_dir)
            (λ trash_dir.
              settled_then (kept o p ps row apart) (read_dir ps row entries lower trash_dir) _
                (Reads-read_dir trash_dir)
                (λ names.
                  then_read (kept o p ps row apart)
                    (find_trashed ps row now trash_dir ino (or_empty ps row names)) _
                    (Reads-find_trashed now trash_dir ino (or_empty ps row names))
                    (use_found-IsKept dir ino)))

      restore_at-IsKept :
          (dir : Str) (now : ℕ) (r : Settled Node)
          → Recovers o p ps row apart (restore_at ps row entries lower dir now r)
      unfolding restore_at
      restore_at-IsKept dir now (fine n) =
          Leads-if n.symlink (pure not_acted_on) (drop_note already_settled)
            (unmoved o p ps row apart not_acted_on)
            (record { leads = λ w h. inl ((Keeps-drop_note o p already_settled).keeps w h.0) })
      restore_at-IsKept dir now (failed c) =
          then_read (kept o p ps row apart) (read_dir ps row entries lower dir) _
            (Reads-read_dir dir)
            (λ names.
              Leads-if (any_sibling ps row entries lower names) (pure not_acted_on)
                (search_trash ps row entries lower dir now row.inode_key)
                (unmoved o p ps row apart not_acted_on) (search_trash-IsKept dir now row.inode_key))

      Reads-resolve_roots :
          (roots : List Str) → Reads Linking (resolve_roots ps row entries lower roots)
      Reads-resolve_roots [] = Leads-done (returned []) (λ w h. h)
      Reads-resolve_roots (root ∷ roots) =
          Reads-bind (resolve root) _ (Reads-resolve stable root) (λ first.
            Reads-bind (resolve_roots ps row entries lower roots) _ (Reads-resolve_roots roots)
              (λ rest. Leads-done (returned (first ∷ rest)) (λ w h. h)))

      restore-IsKept : (now : ℕ) → Recovers o p ps row apart (restore ps row entries lower now)
      unfolding restore
      restore-IsKept now =
          then_read (kept o p ps row apart) (resolve (ps.dirname row.path)) _
            (Reads-resolve stable (ps.dirname row.path))
            (λ dir.
              then_read (kept o p ps row apart) (resolve_roots ps row entries lower row.roots) _
                (Reads-resolve_roots row.roots)
                (λ roots.
                  Leads-if (within_any roots dir)
                    (settled (lstat (ps.join dir (ps.basename row.path)))
                      >>= restore_at ps row entries lower dir now)
                    (pure not_acted_on)
                    (settled_then (kept o p ps row apart)
                      (lstat (ps.join dir (ps.basename row.path))) _
                      (Reads-lstat stable (ps.join dir (ps.basename row.path)))
                      (restore_at-IsKept dir now))
                    (unmoved o p ps row apart not_acted_on)))

      act_on-IsKept :
          (note : Option ℕ) → Recovers o p ps row apart (act_on ps entries lower note (some row))
      unfolding act_on
      act_on-IsKept none = unmoved o p ps row apart not_acted_on
      act_on-IsKept (some now) =
          Leads->>= (Caught (λ e w. IsKept o p ps row apart w))
            (settled (restore ps row entries lower now)) _
            (Leads-settled (λ e w. IsKept o p ps row apart w) _ (restore-IsKept now)) by_result
            (λ c w h. absurd h) (λ w h. h)
        where
          by_result :
              (r : Settled Outcome)
              → Leads
                  (Caught (λ e w. IsKept o p ps row apart w) (returned r))
                  (or_not_acted_on r)
                  (λ e w. IsKept o p ps row apart w)
          by_result (fine out) = Leads-done (returned out) (λ w h. h)
          by_result (failed c) = Leads-done (returned not_acted_on) (λ w h. h)

      module _ (job : NotedJob) where
        recover_open-IsKept :
            (read : Settled Unit)
            → Recovers o p ps row apart
                (read_note read >>= λ note. act_on ps entries lower note (some row))
        recover_open-IsKept (fine u) = record { leads = λ w h. (act_on-IsKept w.note).leads w h }
        recover_open-IsKept (failed c) = record { leads = λ w h. (act_on-IsKept none).leads w h }

        recover-IsKept :
            job.row ≡ some row → Recovers o p ps row apart (recover_swap ps entries lower job)
        unfolding recover_swap
        recover-IsKept same = rw same (
            Leads-if (not job.is_known) (pure not_acted_on) _
              (unmoved o p ps row apart not_acted_on)
              (Leads-if (not job.has_ended) (pure retained) _ (unmoved o p ps row apart retained) (
                Leads-if (job.file_running || job.other_open) (pure retained)
                  (settled visit >>= λ read.
                    read_note read >>= λ note. act_on ps entries lower note (some row))
                  (unmoved o p ps row apart retained)
                  (settled_then (kept o p ps row apart) visit
                    (λ read. read_note read >>= λ note. act_on ps entries lower note (some row))
                    (Reads-visit stable) recover_open-IsKept))))

        -- Take a file under a name that is in no folder the name of the library's file, as in the
        -- trash, on a machine whose other users leave it its names and on which no call that makes a
        -- hard link fails with one of the codes at which the recovery renames instead. However calls fail, and before whichever call the machine stops, the file is
        -- after the recovery of a note under that name, or under the library file's name in a folder.
        pub recover_swap-IsKept :
            job.row ≡ some row
            → (w : World) → At o p w
            → HasLinks w.machine
            → IsKept o p ps row apart (recover_swap ps entries lower job w).1
        recover_swap-IsKept same w at links = (recover-IsKept same).leads w (at, links)
