-- ===== src/Replace/Safety/Install.antt =====
-- The installation of the new file, which finds the original at home and leaves it there.
use trawlarr.Prelude.{
  ℕ, ◌≡◌, ◌≢◌, refl, sym, ◌∙◌, Bool, true, false, not, Option, none, some, List, [], ◌∷◌, Str, ◌==◌,
}
use trawlarr.Disk.{
  Code, other, is_eexist, is_exdev, Node, World, Exit, returned, thrown, crashed, Io, Settled, fine,
  failed, settled, ignore, lstat, link, unlink, now_ms, random_uuid, set_staged_path, same_path,
}
use trawlarr.Disk.Keeps.{
  Leads, Leads-done, Leads-if, At, Keeps, Keeps-pure, Keeps-throw, Keeps-settled, Keeps-if,
  Keeps->>=, Keeps-ignore, Keeps-lstat, Keeps-stat_file, Keeps-link, Keeps-unlink, Keeps-copy_file,
  IsCalm, settled-IsCalm, ignore-IsCalm, calm_then,
}
use trawlarr.Replace.{Paths, staged_path_for}
use trawlarr.Replace.Swap.{
  StagedReplacement, copy_verified, staged_copy, staged_link, stage_replacement, occupied_or,
  drop_staged, undo_unless, finish_staged, swap_staged, copied_in, moved_or_copied, swap_copy,
  swap_direct, swap_by, swap_into_place, next_source, any_source_is, sources_of, landed_at,
  swap_landed,
}
use trawlarr.Replace.Safety.Bystanders.{IsReservedApart, Keeps-move_exclusively}

abbrev IsStagedAs : Str → Option StagedReplacement → Type 0
IsStagedAs path none = Unit
IsStagedAs path (some s) = s.path ≡ path

module _ (ps : Paths) (final : Str) where
  pub record IsStagedName (path : Str) : Type 0 where
    pub uuid : Str
    pub is : path ≡ staged_path_for ps final uuid

  abbrev pub IsStaged : Option StagedReplacement → Type 0
  IsStaged none = Unit
  IsStaged (some s) = IsStagedName s.path

module _ (o : Node) (p : Str) where
  Keeps-now_ms : Keeps o p now_ms
  Keeps-now_ms = record { keeps = λ w at. at }

  Keeps-random_uuid : Keeps o p random_uuid
  Keeps-random_uuid = record { keeps = λ w at. at }

  Keeps-copy_verified :
      (from to : Str) (expected : ℕ) → to ≢ p → Keeps o p (copy_verified from to expected)
  unfolding copy_verified
  Keeps-copy_verified from to expected h = Keeps->>= o p _ _ (Keeps-copy_file o p from to h) (λ u.
      Keeps->>= o p _ _ (Keeps-stat_file o p to)
        (λ s. Keeps-if o p (s.size == expected) (Keeps-pure o p tt) (Keeps-throw o p other)))

  module _ (path : Str) (path_apart : path ≢ p) where
    -- What is staged is under the given name.
    abbrev HasStaged : Exit (Option StagedReplacement) → World → Type 0
    HasStaged (returned s) w = At o p w × IsStagedAs path s
    HasStaged (thrown c) w = At o p w
    HasStaged crashed w = At o p w

    staged_copy-HasStaged : (r : Settled Unit) → Leads (At o p) (staged_copy path r) HasStaged
    unfolding staged_copy
    staged_copy-HasStaged (fine u) = Leads-done _ (λ w at. (at, refl))
    staged_copy-HasStaged (failed c) =
        calm_then o p (ignore (unlink path)) _
          (ignore-IsCalm o p _ (Keeps-unlink o p path path_apart))
          (λ u. Leads-done (thrown c) (λ w at. at)) (λ w at. at)

    staged_link-HasStaged :
        (allow : Bool) (new_path : Str) (expected : ℕ) (r : Settled Unit)
        → Leads (At o p) (staged_link allow new_path path expected r) HasStaged
    unfolding staged_link
    staged_link-HasStaged allow new_path expected (fine u) = Leads-done _ (λ w at. (at, refl))
    staged_link-HasStaged allow new_path expected (failed c) =
        Leads-if (not (is_exdev c)) _ _ (Leads-done (returned none) (λ w at. (at, tt))) (
          Leads-if (not allow) _ _ (Leads-done (thrown other) (λ w at. at)) (
            calm_then o p _ _
              (settled-IsCalm o p _ (Keeps-copy_verified new_path path expected path_apart))
              staged_copy-HasStaged (λ w at. at)))

  module _ (ps : Paths) (final : Str)
      (staged_apart : (uuid : Str) → staged_path_for ps final uuid ≢ p) where
    -- What the staging gives is under a staged name, and the file stays.
    abbrev pub IsStagedBeside : Exit (Option StagedReplacement) → World → Type 0
    IsStagedBeside (returned s) w = At o p w × IsStaged ps final s
    IsStagedBeside (thrown c) w = At o p w
    IsStagedBeside crashed w = At o p w

    beside :
        (uuid : Str) (m : Io (Option StagedReplacement))
        → Leads (At o p) m (HasStaged (staged_path_for ps final uuid) (staged_apart uuid))
        → Leads (At o p) m IsStagedBeside
    beside uuid m h = record { leads = λ w at. by_exit (m w).0 (m w).1 (h.leads w at) }
      where
        by_exit :
            (e : Exit (Option StagedReplacement)) (w : World)
            → HasStaged (staged_path_for ps final uuid) (staged_apart uuid) e w
            → IsStagedBeside e w
        by_exit (returned none) w at = at
        by_exit (returned (some t)) w at = (at.0, record { uuid = uuid; is = at.1 })
        by_exit (thrown c) w at = at
        by_exit crashed w at = at

    pub stage_replacement-IsStagedBeside :
        (allow : Bool) (new_path : Str) (expected : ℕ)
        → Leads (At o p) (stage_replacement ps allow new_path final expected) IsStagedBeside
    unfolding stage_replacement
    stage_replacement-IsStagedBeside allow new_path expected =
        calm_then o p random_uuid _ (record { leads = λ w at. at })
          (λ uuid.
            calm_then o p (settled (link new_path (staged_path_for ps final uuid))) _
              (settled-IsCalm o p _ (Keeps-link o p new_path (staged_path_for ps final uuid)))
              (λ r. beside uuid _ (
                staged_link-HasStaged (staged_path_for ps final uuid) (staged_apart uuid) allow
                  new_path expected r))
              (λ w at. at))
          (λ w at. at)

    module _ (new_path : Str) (new_apart : new_path ≢ p) (final_apart : final ≢ p)
        (reserved : IsReservedApart ps p final) where
      Keeps-drop_staged : (path : Str) (c : Code) → path ≢ p → Keeps o p (drop_staged ps path c)
      unfolding drop_staged
      Keeps-drop_staged path c h =
          Keeps->>= o p _ _ (Keeps-ignore o p _ (Keeps-unlink o p path h))
            (λ u. Keeps-throw o p (occupied_or ps c))

      Keeps-undo_unless : (r : Settled Unit) → Keeps o p (undo_unless ps final r)
      unfolding undo_unless
      Keeps-undo_unless (fine u) = Keeps-pure o p tt
      Keeps-undo_unless (failed c) =
          Keeps->>= o p _ _ (Keeps-ignore o p _ (Keeps-unlink o p final final_apart))
            (λ u. Keeps-throw o p other)

      Keeps-finish_staged :
          (s : StagedReplacement)
          → s.path ≢ p
          → (r : Settled Unit) → Keeps o p (finish_staged ps new_path final s r)
      unfolding finish_staged
      Keeps-finish_staged s h (failed c) = Keeps-drop_staged s.path c h
      Keeps-finish_staged s h (fine u) =
          Keeps-if o p s.via_link
            (Keeps->>= o p _ _ (Keeps-settled o p _ (Keeps-unlink o p new_path new_apart))
              Keeps-undo_unless)
            (Keeps-ignore o p _ (Keeps-unlink o p new_path new_apart))

      Keeps-set_staged_path : (path : Str) → Keeps o p (set_staged_path path)
      Keeps-set_staged_path path = record { keeps = λ w at. at }

      Keeps-swap_staged :
          (s : StagedReplacement) → s.path ≢ p → Keeps o p (swap_staged ps new_path final s)
      unfolding swap_staged
      Keeps-swap_staged s h = Keeps->>= o p _ _ (Keeps-set_staged_path s.path) (λ u.
          Keeps->>= o p _ _
            (Keeps-settled o p _ (
              Keeps-move_exclusively o p ps now_ms Keeps-now_ms final reserved s.path h final_apart
                false))
            (Keeps-finish_staged s h))

      Keeps-copied_in :
          (path : Str) → path ≢ p → (r : Settled Unit) → Keeps o p (copied_in ps new_path path r)
      unfolding copied_in
      Keeps-copied_in path h (fine u) = Keeps-ignore o p _ (Keeps-unlink o p new_path new_apart)
      Keeps-copied_in path h (failed c) = Keeps-drop_staged path c h

      Keeps-swap_copy : Keeps o p (swap_copy ps new_path final)
      unfolding swap_copy
      Keeps-swap_copy = Keeps->>= o p _ _ Keeps-random_uuid (λ uuid.
          Keeps->>= o p _ _ (Keeps-set_staged_path (staged_path_for ps final uuid)) (λ u.
            Keeps->>= o p _ _
              (Keeps-settled o p _ (
                Keeps->>= o p _ _ (Keeps-copy_file o p new_path _ (staged_apart uuid)) (λ v.
                  Keeps-move_exclusively o p ps now_ms Keeps-now_ms final reserved _
                    (staged_apart uuid) final_apart false)))
              (Keeps-copied_in _ (staged_apart uuid))))

      Keeps-moved_or_copied :
          (allow : Bool) (r : Settled Unit) → Keeps o p (moved_or_copied ps allow new_path final r)
      unfolding moved_or_copied
      Keeps-moved_or_copied allow (fine u) = Keeps-pure o p tt
      Keeps-moved_or_copied allow (failed c) = Keeps-if o p (is_eexist c) (Keeps-throw o p other) (
          Keeps-if o p (not (is_exdev c)) (Keeps-throw o p c)
            (Keeps-if o p (not allow) (Keeps-throw o p other) Keeps-swap_copy))

      Keeps-swap_by :
          (allow : Bool) (s : Option StagedReplacement)
          → IsStaged ps final s
          → Keeps o p (swap_by ps allow new_path final s)
      unfolding swap_by swap_direct
      Keeps-swap_by allow (some s) h = Keeps-swap_staged s (λ e. staged_apart h.uuid (sym h.is ∙ e))
      Keeps-swap_by allow none h =
          Keeps->>= o p _ _
            (Keeps-settled o p _ (
              Keeps-move_exclusively o p ps now_ms Keeps-now_ms final reserved new_path new_apart
                final_apart false))
            (Keeps-moved_or_copied allow)

      pub Keeps-swap_into_place :
          (allow : Bool) (s : Option StagedReplacement)
          → IsStaged ps final s
          → Keeps o p (swap_into_place ps allow new_path final s)
      unfolding swap_into_place
      Keeps-swap_into_place allow s h =
          Keeps->>= o p (same_path new_path final) _ (record { keeps = λ w at. at })
            (λ already. Keeps-if o p already (Keeps-pure o p tt) (Keeps-swap_by allow s h))

  any_source_is-IsCalm :
      (destination : Node) (expected : ℕ) (found : Bool) (sources : List Str)
      → Leads (At o p) (any_source_is destination expected found sources) (IsCalm o p)
  unfolding any_source_is
  any_source_is-IsCalm destination expected found [] = Leads-done _ (λ w at. at)
  any_source_is-IsCalm destination expected found (source ∷ sources) =
      calm_then o p (settled (lstat source)) _ (settled-IsCalm o p _ (Keeps-lstat o p source))
        (tried (λ found'. any_source_is-IsCalm destination expected found' sources)) (λ w at. at)
    where
      tried :
          ((found' : Bool)
            → Leads (At o p) (any_source_is destination expected found' sources) (IsCalm o p))
          → (r : Settled Node)
          → Leads
              (At o p)
              (next_source
                (λ found'. any_source_is destination expected found' sources)
                destination
                found
                r)
              (IsCalm o p)
      tried h (failed c) = h found
      tried h (fine n) =
          Leads-if (n.ino == destination.ino) _ _ (Leads-done (returned true) (λ w at. at)) (h true)

  pub swap_landed-IsCalm :
      (new_path : Str) (staged_path : Option Str) (final : Str) (expected : ℕ)
      → Leads (At o p) (swap_landed new_path staged_path final expected) (IsCalm o p)
  unfolding swap_landed landed_at
  swap_landed-IsCalm new_path staged_path final expected =
      calm_then o p (settled (lstat final)) _ (settled-IsCalm o p _ (Keeps-lstat o p final)) by_node
        (λ w at. at)
    where
      by_node :
          (r : Settled Node)
          → Leads (At o p) (landed_at new_path staged_path expected r) (IsCalm o p)
      by_node (failed c) = Leads-done (returned false) (λ w at. at)
      by_node (fine n) = any_source_is-IsCalm n expected false (sources_of new_path staged_path)
