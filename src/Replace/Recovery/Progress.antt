-- ===== src/Replace/Recovery/Progress.antt =====
-- A recovery that nothing disturbs.
use trawlarr.Prelude.{
  ℕ, ◌≡◌, ◌≢◌, refl, sym, ap, subst, ◌∙◌, inl, inr, Bool, true, false, Option, none, some, List, [],
  ◌∷◌, Memᴰ, Str, str_eq_refl, if◌then◌else◌, Bool-cases,
}
use trawlarr.Disk.{
  enoent, Node, Disk, lookup, put, remove, Machine, World, Exit, returned, Io, pure, ◌>>=◌, ◌>>◌,
  Settled, fine, failed, settled, ignore, lstat, link, unlink, visit, set_note,
}
use trawlarr.Disk.Names.{lookup-remove_other, lookup-put_same, lookup-put_other}
use trawlarr.Disk.Keeps.{Leads, Leads->>=, Leads-settled, Leads-done, Caught}
use trawlarr.Disk.Calm.{
  IsIdeal, On, Gives, call-Gives, then-Gives, settled-Gives, settled-lstat-some, settled-lstat-none,
  settled-link-free, ignore-unlink-some, visit-Gives,
}
use trawlarr.Replace.{Paths}
use trawlarr.Replace.Recovery.{
  Row, Outcome, restored, drop_note, resolve, clear_missing, finish_restored, check_restored,
  linked_back, put_back, check_use, find_trashed, use_found, trash_entry_pattern, is_original,
  found_or,
}

module _ (m : Machine) (ideal : IsIdeal m) (note : Option ℕ) where
  -- The program ends with `restored`, on the disk `d'`.
  abbrev Restores : Disk → Io Outcome → Disk → Type 0
  Restores d p d' = Leads (On m note d) p (λ e w. (e ≡ returned restored) × (w.disk ≡ d'))

  drop_note-Restores : (d : Disk) → Restores d (drop_note restored) d
  drop_note-Restores d =
      Leads->>= done (ignore (visit >> set_note none)) (λ u. pure restored)
        (Leads->>= (Caught done) (settled (visit >> set_note none)) (λ r. pure tt)
          (Leads-settled done (visit >> set_note none) (
            then-Gives m note ideal d d visit (λ u. set_note none) tt (visit-Gives m note ideal d)
              (record { leads = λ w on. (refl, on.2) })))
          caught (λ c w h. absurd h) (λ w h. cc))
        (λ u. Leads-done (returned restored) (λ w h. (refl, h.1))) (λ c w h. cc) (λ w h. cc)
    where
      done : Exit Unit → World → Type 0
      done e w = (e ≡ returned tt) × (w.disk ≡ d)

      caught : (r : Settled Unit) → Leads (Caught done (returned r)) (pure tt) done
      caught (fine u) = Leads-done (returned tt) (λ w h. (refl, h.1))
      caught (failed c) = Leads-done (returned tt) (λ w h. cc)

  pub resolve-Gives :
      (d : Disk) (p : Str) → Gives m note ideal d (resolve p) (returned (m.real_path d p)) d
  unfolding resolve
  resolve-Gives d p = record {
    leads = λ w on.
        renamed w on (
          (call-Gives m note ideal d (λ d'. (returned (w.machine.real_path d' p), d'))).leads w on);
  }
    where
      renamed :
          (w : World)
          → On m note d w
          → ((resolve p w).0 ≡ returned (w.machine.real_path d p)) × On m note d (resolve p w).1
          → ((resolve p w).0 ≡ returned (m.real_path d p)) × On m note d (resolve p w).1
      renamed w on (e, h) = (e ∙ ap (λ n. returned (n.real_path d p)) on.0, h)

  module _ (ps : Paths) (row : Row) where
    clear_missing-Gives : (d : Disk) → Gives m note ideal d (clear_missing ps row) (returned tt) d
    unfolding clear_missing
    clear_missing-Gives d = by_row row.is_missing
      where
        by_row : (b : Bool) → Gives m note ideal d (if b then visit else pure tt) (returned tt) d
        by_row true = visit-Gives m note ideal d
        by_row false = record { leads = λ w on. (refl, on) }

    finish_restored-Restores :
        (d : Disk) (trashed : Str) (n : Node)
        → lookup d trashed ≡ some n
        → Restores d (finish_restored ps row false trashed) (remove d trashed)
    unfolding finish_restored
    finish_restored-Restores d trashed n at =
        then-Gives m note ideal d (remove d trashed) (ignore (unlink trashed)) _ tt
          (ignore-unlink-some m note ideal d trashed n at)
          (then-Gives m note ideal (remove d trashed) (remove d trashed) (clear_missing ps row) _ tt
            (clear_missing-Gives (remove d trashed)) (drop_note-Restores (remove d trashed)))

  module _ (ps : Paths) (row : Row) (ino : ℕ) (d : Disk)
      (steady : (d' : Disk) (p : Str) → m.real_path d' p ≡ m.real_path d p) where
    abbrev pub dir : Str
    dir = m.real_path d (ps.dirname row.path)

    abbrev pub target : Str
    target = ps.join dir (ps.basename row.path)

    -- The file that the row is about is at the target.
    abbrev pub IsRestored : Exit Outcome → World → Type 0
    IsRestored e w =
        (e ≡ returned restored)
        × ((n : Node) × (lookup w.disk target ≡ some n) × (is_original ps row ino (fine n) ≡ true))

    abbrev Succeeds : Io Outcome → Type 0
    Succeeds p = Leads (On m note d) p IsRestored

    resolved :
        (d' : Disk)
        → Gives m note ideal d' (settled (resolve (ps.dirname row.path))) (returned (fine dir)) d'
    resolved d' =
        subst
          (λ x.
            Gives m note ideal d' (settled (resolve (ps.dirname row.path))) (returned (fine x)) d')
          (steady d' (ps.dirname row.path))
          (settled-Gives m note ideal d' d' (resolve (ps.dirname row.path)) _
            (resolve-Gives d' (ps.dirname row.path)))

    module _ (free : lookup d target ≡ none) where
      module _ (trashed : Str) (n : Node) (at : lookup d trashed ≡ some n)
          (own : is_original ps row ino (fine n) ≡ true) where
        apart : trashed ≢ target
        apart e = cc (at, free, ap (lookup d) e)

        trashed_stays : lookup (put d target n) trashed ≡ some n
        trashed_stays = lookup-put_other d trashed target n (λ e. apart (sym e)) ∙ at

        check_restored-Restores :
            Restores
              (put d target n)
              (check_restored ps row false dir ino trashed target)
              (remove (put d target n) trashed)
        unfolding check_restored
        check_restored-Restores =
            then-Gives m note ideal (put d target n) (put d target n) (settled (lstat target)) _
              (fine n)
              (settled-lstat-some m note ideal (put d target n) target n
                (lookup-put_same d target n))
              (then-Gives m note ideal (put d target n) (put d target n)
                (settled (resolve (ps.dirname row.path))) _ (fine dir) (resolved (put d target n))
                (rw (own, str_eq_refl dir)
                  (finish_restored-Restores ps row (put d target n) trashed n trashed_stays)))

        put_back-Succeeds : Succeeds (put_back ps row dir ino trashed target)
        unfolding put_back linked_back
        put_back-Succeeds =
            then-Gives m note ideal d (put d target n) (settled (link trashed target)) _ (fine tt)
              (settled-link-free m note ideal d trashed target n at free)
              (record {
                leads = λ w on.
                    there (check_restored ps row false dir ino trashed target w).0
                      (check_restored ps row false dir ino trashed target w).1
                      (check_restored-Restores.leads w on);
              })
          where
            there :
                (e : Exit Outcome) (w : World)
                → (e ≡ returned restored) × (w.disk ≡ remove (put d target n) trashed)
                → IsRestored e w
            there e w (same, disk) = (
              same,
              (
                n,
                ap (λ x. lookup x target) disk
                    ∙ (lookup-remove_other (put d target n) target trashed apart
                        ∙ lookup-put_same d target n),
                own,
              ),
            )

        check_use-Succeeds : Succeeds (check_use ps row dir ino trashed)
        unfolding check_use
        check_use-Succeeds =
            then-Gives m note ideal d d (settled (resolve (ps.dirname row.path))) _ (fine dir)
              (resolved d)
              (then-Gives m note ideal d d (settled (lstat trashed)) _ (fine n)
                (settled-lstat-some m note ideal d trashed n at)
                (rw (own, str_eq_refl dir) put_back-Succeeds))

      abbrev pub HasFound : Exit (Option Str) → World → Type 0
      HasFound e w =
          ((path : Str) × (n : Node) × (e ≡ returned (some path))
            × (lookup d path ≡ some n)
            × (is_original ps row ino (fine n) ≡ true))
          × On m note d w

      module _ (now : ℕ) (trash_dir : Str) where
        abbrev Finds : Io (Option Str) → Type 0
        Finds p = Leads (On m note d) p HasFound

        found_here :
            (entry : Str) (next : Io (Option Str)) (n : Node)
            → lookup d (ps.join trash_dir entry) ≡ some n
            → is_original ps row ino (fine n) ≡ true
            → Finds (
                settled (lstat (ps.join trash_dir entry))
                >>= found_or ps row ino (ps.join trash_dir entry) next)
        found_here entry next n at own =
            then-Gives m note ideal d d (settled (lstat (ps.join trash_dir entry))) _ (fine n)
              (settled-lstat-some m note ideal d (ps.join trash_dir entry) n at)
              (rw own
                (record { leads = λ w on. ((ps.join trash_dir entry, n, refl, at, own), on) }))

        found_later :
            (entry : Str) (next : Io (Option Str)) (at : Option Node)
            → lookup d (ps.join trash_dir entry) ≡ at
            → Finds next
            → Finds (
                settled (lstat (ps.join trash_dir entry))
                >>= found_or ps row ino (ps.join trash_dir entry) next)
        found_later entry next none e h =
            then-Gives m note ideal d d (settled (lstat (ps.join trash_dir entry))) _
              (failed enoent) (settled-lstat-none m note ideal d (ps.join trash_dir entry) e) h
        found_later entry next (some n) e h = elim (Bool-cases (is_original ps row ino (fine n))) [
          | inl t ↦ found_here entry next n e t
          | inr f ↦
              then-Gives m note ideal d d (settled (lstat (ps.join trash_dir entry))) _ (fine n)
                (settled-lstat-some m note ideal d (ps.join trash_dir entry) n e) (rw f h)
        ]

        pub find_trashed-Finds :
            (entries : List Str) (entry : Str) (o : Node)
            → Memᴰ entry entries
            → trash_entry_pattern ps row.path now entry ≡ true
            → lookup d (ps.join trash_dir entry) ≡ some o
            → is_original ps row ino (fine o) ≡ true
            → Finds (find_trashed ps row now trash_dir ino entries)
        unfolding find_trashed
        find_trashed-Finds [] entry o i named at own = elim i [ ]
        find_trashed-Finds (e ∷ es) entry o (Memᴰ.head same) named at own =
            rw (← same, named)
              (found_here entry (find_trashed ps row now trash_dir ino es) o at own)
        find_trashed-Finds (e ∷ es) entry o (Memᴰ.tail i) named at own =
            let rest = find_trashed-Finds es entry o i named at own in
            elim (Bool-cases (trash_entry_pattern ps row.path now e)) [
              | inl t ↦ rw t (
                  found_later e (find_trashed ps row now trash_dir ino es)
                    (lookup d (ps.join trash_dir e)) refl rest)
              | inr f ↦ rw f rest
            ]

        pub use_found-Succeeds :
            (a : Option Str) → Leads (HasFound (returned a)) (use_found ps row dir ino a) IsRestored
        unfolding use_found
        use_found-Succeeds none = record { leads = λ w h. cc (h.0.2) }
        use_found-Succeeds (some path) = record {
          leads = λ w h. by_name h.0.0 h.0.1 (cc (h.0.2)) h.0.3 h.0.4 w h.1;
        }
          where
            by_name :
                (path' : Str) (n : Node)
                → path ≡ path'
                → lookup d path' ≡ some n
                → is_original ps row ino (fine n) ≡ true
                → (w : World) → On m note d w
                → IsRestored (check_use ps row dir ino path w).0 (check_use ps row dir ino path w).1
            by_name path' n same at own w on =
                (check_use-Succeeds path n (ap (lookup d) same ∙ at) own).leads w on
