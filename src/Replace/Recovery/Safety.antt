-- ===== src/Replace/Recovery/Safety.antt =====
-- The recovery of an interrupted replacement, and the file in the trash.
use trawlarr.Prelude.{
  ℕ, ◌≡◌, ◌≢◌, sym, ap, ◌∙◌, ◌⊎◌, inl, inr, Bool, true, false, ◌&&◌, Str, str_eq, str_eq-cases,
}
use trawlarr.Disk.{
  is_eexist, Node, lookup, World, Exit, returned, thrown, crashed, Io, pure, Settled, fine, failed,
  settled, ignore, lstat, link, unlink,
}
use trawlarr.Disk.Keeps.{
  Leads, Leads->>=, Leads-settled, Leads-if, Leads-done, Caught, At, Keeps, Keeps-pure, Keeps-if,
  Keeps->>=, Keeps-ignore, Keeps-visit, Keeps-link, Keeps-unlink,
}
use trawlarr.Disk.Moves.{HasBoth, link-HasBoth}
use trawlarr.Disk.Reads.{IsStable, Reads-lstat, settled_then}
use trawlarr.Replace.{Paths}
use trawlarr.Replace.Recovery.{
  Row, Outcome, restored, already_settled, not_acted_on, restore_unsupported, drop_note, resolve,
  clear_missing, finish_restored, undo_restored, check_restored, linked_back, put_back, check_use,
  is_original, settled_eq, has_ino,
}
use trawlarr.Replace.Recovery.Links.{
  HasLinks, IsSupported, link-IsSupported, Reads-resolve, At-IsStable, Keeps-drop_note,
}

module _ (o : Node) (p : Str) (ps : Paths) (row : Row)
    (apart : (dir : Str) → ps.join dir (ps.basename row.path) ≢ p) where
  pub record InFolder (w : World) : Type 0 where
    pub folder : Str
    pub at : At o (ps.join folder (ps.basename row.path)) w

  -- The file has the name that it had in the trash, or that of the library's file.
  abbrev pub IsKept : World → Type 0
  IsKept w = At o p w ⊎ InFolder w

  abbrev pub Recovers : Io Outcome → Type 0
  Recovers m = Leads (λ w. At o p w × HasLinks w.machine) m (λ e w. IsKept w)

  pub linking-IsStable : IsStable (λ w. At o p w × HasLinks w.machine)
  linking-IsStable w h = (At-IsStable o p w h.0, h.1)

  pub kept : (w : World) → At o p w × HasLinks w.machine → IsKept w
  kept w h = inl h.0

  pub unmoved : (out : Outcome) → Recovers (pure out)
  unmoved out = Leads-done (returned out) kept

  pub stays : {A : Type 0} (m : Io A) → Keeps o p m → Leads (At o p) m (λ e w. IsKept w)
  stays m k = record { leads = λ w at. inl (k.keeps w at) }

  Keeps-clear_missing : (q : Str) → Keeps o q (clear_missing ps row)
  unfolding clear_missing
  Keeps-clear_missing q = Keeps-if o q row.is_missing (Keeps-visit o q) (Keeps-pure o q tt)

  Keeps-finish_restored :
      (q trashed : Str) (renamed : Bool)
      → trashed ≢ q
      → Keeps o q (finish_restored ps row renamed trashed)
  unfolding finish_restored
  Keeps-finish_restored q trashed renamed h =
      Keeps->>= o q _ _
        (Keeps-if o q renamed (Keeps-pure o q tt)
          (Keeps-ignore o q (unlink trashed) (Keeps-unlink o q trashed h)))
        (λ u.
          Keeps->>= o q (clear_missing ps row) _ (Keeps-clear_missing q)
            (λ v. Keeps-drop_note o q restored))

  Keeps-undo_restored :
      (ino : ℕ) (target : Str) (r : Settled Node)
      → target ≢ p
      → Keeps o p (undo_restored ps row ino target r)
  unfolding undo_restored
  Keeps-undo_restored ino target r h =
      Keeps-if o p (has_ino ps row ino r)
        (Keeps->>= o p (ignore (unlink target)) _
          (Keeps-ignore o p (unlink target) (Keeps-unlink o p target h))
          (λ u. Keeps-pure o p not_acted_on))
        (Keeps-pure o p not_acted_on)

  module _ (dir : Str) (ino : ℕ) where
    abbrev target : Str
    target = ps.join dir (ps.basename row.path)

    -- From a file that has both names, and the trashed one to lose.
    check_restored-IsKept :
        (trashed : Str)
        → trashed ≡ p
        → Leads
            (λ w. At o p w × At o target w)
            (check_restored ps row false dir ino trashed target)
            (λ e w. IsKept w)
    unfolding check_restored
    check_restored-IsKept trashed same =
        settled_then both (lstat target) _ (Reads-lstat both_stable target) (λ created.
          settled_then both (resolve (ps.dirname row.path)) _
            (Reads-resolve both_stable (ps.dirname row.path))
            (λ dir_after.
              Leads-if (is_original ps row ino created && settled_eq ps row dir_after dir)
                (finish_restored ps row false trashed) (undo_restored ps row ino target created)
                (record {
                  leads = λ w h. inr (record {
                    folder = dir;
                    at =
                        (Keeps-finish_restored target trashed false
                            (λ e. apart dir (sym e ∙ same))).keeps
                          w h.1;
                  });
                })
                (record {
                  leads =
                      λ w h. inl ((Keeps-undo_restored ino target created (apart dir)).keeps w h.0);
                })))
      where
        both : (w : World) → At o p w × At o target w → IsKept w
        both w h = inl h.0

        both_stable : IsStable (λ w. At o p w × At o target w)
        both_stable w h = (At-IsStable o p w h.0, At-IsStable o target w h.1)

    Keeps-check_restored :
        (trashed : Str)
        → trashed ≢ p
        → Leads (At o p) (check_restored ps row false dir ino trashed target) (λ e w. IsKept w)
    unfolding check_restored
    Keeps-check_restored trashed h =
        settled_then (λ w. inl) (lstat target) _ (Reads-lstat (At-IsStable o p) target)
          (λ created.
            settled_then (λ w. inl) (resolve (ps.dirname row.path)) _
              (Reads-resolve (At-IsStable o p) (ps.dirname row.path))
              (λ dir_after.
                Leads-if (is_original ps row ino created && settled_eq ps row dir_after dir)
                  (finish_restored ps row false trashed) (undo_restored ps row ino target created)
                  (stays _ (Keeps-finish_restored p trashed false h))
                  (stays _ (Keeps-undo_restored ino target created (apart dir)))))

    module _ (trashed : Str) where
      -- After the link: it stands, or its error is not that there are no links.
      abbrev HasLinked : Exit Unit → World → Type 0
      HasLinked (returned u) w = At o p w × ((trashed ≢ p) ⊎ ((trashed ≡ p) × At o target w))
      HasLinked (thrown c) w = At o p w × (restore_unsupported c ≡ false)
      HasLinked crashed w = At o p w

      linked :
          (e : Exit Unit) (w : World)
          → At o p w
          → IsSupported trashed target e w
          → ((trashed ≢ p) ⊎ ((trashed ≡ p) × HasBoth o trashed target e w))
          → HasLinked e w
      linked (returned u) w at s (inl n) = (at, inl n)
      linked (returned u) w at s (inr (same, both)) = (at, inr (same, both.1))
      linked (thrown c) w at s h = (at, s)
      linked crashed w at s h = at

      link-HasLinked : Leads (λ w. At o p w × HasLinks w.machine) (link trashed target) HasLinked
      link-HasLinked = record {
        leads = λ w h.
            linked (link trashed target w).0 (link trashed target w).1
              ((Keeps-link o p trashed target).keeps w h.0)
              ((link-IsSupported trashed target).leads w h.1)
              (by_name w h.0 (str_eq-cases trashed p));
      }
        where
          by_name :
              (w : World)
              → At o p w
              → ((trashed ≡ p) × (str_eq trashed p ≡ true))
                ⊎ ((trashed ≢ p) × (str_eq trashed p ≡ false))
              → (trashed ≢ p)
                ⊎ ((trashed ≡ p)
                    × HasBoth o trashed target (link trashed target w).0 (link trashed target w).1)
          by_name w at (inl (same, t)) =
              inr (
                same,
                (link-HasBoth o trashed target).leads w (at.0, ap (lookup w.disk) same ∙ at.1),
              )
          by_name w at (inr (n, f)) = inl n

      linked_back-IsKept :
          (r : Settled Unit)
          → Leads
              (Caught HasLinked (returned r))
              (linked_back ps row dir ino trashed target r)
              (λ e w. IsKept w)
      unfolding linked_back
      linked_back-IsKept (fine u) = record { leads = λ w h. by_name w h.0 h.1 }
        where
          by_name :
              (w : World)
              → At o p w
              → (trashed ≢ p) ⊎ ((trashed ≡ p) × At o target w)
              → IsKept (check_restored ps row false dir ino trashed target w).1
          by_name w at (inl n) = (Keeps-check_restored trashed n).leads w at
          by_name w at (inr (same, there)) =
              (check_restored-IsKept trashed same).leads w (at, there)
      linked_back-IsKept (failed c) = record {
        leads = λ w h. rw (h.1) (
            (Leads-if (is_eexist c) (drop_note already_settled) (pure not_acted_on)
                (stays _ (Keeps-drop_note o p already_settled))
                (stays _ (Keeps-pure o p not_acted_on))).leads
              w h.0);
      }

      put_back-IsKept : Recovers (put_back ps row dir ino trashed target)
      unfolding put_back
      put_back-IsKept =
          Leads->>= (Caught HasLinked) (settled (link trashed target)) _
            (Leads-settled HasLinked (link trashed target) link-HasLinked) linked_back-IsKept
            (λ c w h. absurd h) (λ w at. inl at)

      pub check_use-IsKept : Recovers (check_use ps row dir ino trashed)
      unfolding check_use
      check_use-IsKept =
          settled_then kept (resolve (ps.dirname row.path)) _
            (Reads-resolve linking-IsStable (ps.dirname row.path))
            (λ dir_now.
              settled_then kept (lstat trashed) _ (Reads-lstat linking-IsStable trashed)
                (λ trashed_now.
                  Leads-if (settled_eq ps row dir_now dir && is_original ps row ino trashed_now)
                    (put_back ps row dir ino trashed target) (pure not_acted_on) put_back-IsKept
                    (unmoved not_acted_on)))
