-- ===== src/Replace/Safety.antt =====
-- A move takes a file to its new name, or leaves it at its old one.
pub mod Bystanders
pub mod Trash
pub mod Install
pub mod Swapped
pub mod Occupied
use trawlarr.Prelude.{
  ℕ, suc, ◌≡◌, ◌≢◌, refl, sym, ap, ◌∙◌, ◌⊎◌, inl, inr, Bool, true, false, Option, none, some, List,
  [], ◌∷◌, ◌++◌, Str, if◌then◌else◌, ◌==◌,
}
use trawlarr.Disk.{
  Code, eexist, other, Node, World, Exit, returned, thrown, crashed, Io, pure, throw, ◌>>=◌, ◌>>◌,
  Settled, fine, failed, settled, ignore, lstat, link, unlink, rename, open_exclusive, random_uuid,
  exists,
}
use trawlarr.Disk.Keeps.{
  Leads, Leads->>=, Leads-settled, Leads-if, Leads-done, Caught, IsFair, At, Keeps, Keeps-pure,
  Keeps-throw, Keeps-settled, Keeps-if, Keeps->>=, Keeps-ignore, Keeps-lstat, Keeps-exists,
  Keeps-link, Keeps-open_exclusive, Keeps-unlink, Keeps-rename, Keeps-Leads, IsCalm, ignore-IsCalm,
}
use trawlarr.Disk.Moves.{
  HasBoth, HasMoved, HasOther, link-HasBoth, rename-HasMoved, unlink-HasOther,
}
use trawlarr.Replace.{Paths, reservation_path_for, displaced_path}
use trawlarr.Replace.Move.{
  link_unsupported, Created, linked, renamed, claim, release_if, release_reservation, reclaim_moved,
  reclaim_from, claim_or_reclaim, reserve_destination, rename_if_free, rename_to_free, as_renamed,
  rename_reserved, link_or_reserve, create_exclusively, keep_or_roll_back, remove_source,
  move_exclusively,
}
use trawlarr.Replace.Safety.Bystanders.{
  IsReservedApart, Keeps-release_reservation, Keeps-reserve_destination,
}

module _ (o : Node) (from to : Str) where
  -- After a move, which may be stopped anywhere.
  abbrev pub HasGone : Exit Unit → World → Type 0
  HasGone (returned u) w = At o to w
  HasGone (thrown c) w = At o from w
  HasGone crashed w = At o from w ⊎ At o to w

  abbrev HasCreated : Exit Created → World → Type 0
  HasCreated (returned linked) w = At o from w × At o to w
  HasCreated (returned renamed) w = At o to w
  HasCreated (thrown c) w = At o from w
  HasCreated crashed w = At o from w ⊎ At o to w

  release_if-IsCalm :
      (p path : Str) (held : ℕ) (r : Settled Node)
      → path ≢ p
      → Leads (Caught (λ e w. At o p w) (returned r)) (release_if path held r) (IsCalm o p)
  unfolding release_if
  release_if-IsCalm p path held (failed c) h = Leads-done (returned tt) (λ w at. at)
  release_if-IsCalm p path held (fine n) h =
      Leads-if (n.ino == held) _ _ (ignore-IsCalm o p (unlink path) (Keeps-unlink o p path h))
        (Leads-done (returned tt) (λ w at. at))

  pub release_reservation-IsCalm :
      (p path : Str) (held : ℕ)
      → path ≢ p
      → Leads (At o p) (release_reservation path held) (IsCalm o p)
  unfolding release_reservation
  release_reservation-IsCalm p path held h =
      Leads->>= (Caught (λ e w. At o p w)) _ _
        (Leads-settled (λ e w. At o p w) _ (Keeps-Leads o p _ (Keeps-lstat o p path)))
        (λ r. release_if-IsCalm p path held r h) (λ c w at. at) (λ w at. at)

  rename_to_free-HasMoved : Leads (At o from) (rename_to_free from to) (HasMoved o from to)
  unfolding rename_to_free rename_if_free
  rename_to_free-HasMoved =
      Leads->>= (λ e w. At o from w) (exists to) _ (Keeps-Leads o from _ (Keeps-exists o from to))
        (λ there.
          Leads-if there _ _ (Leads-done (thrown eexist) (λ w at. at)) (rename-HasMoved o from to))
        (λ c w at. at) (λ w at. at)

  module _ (path : Str) (path_from : path ≢ from) (path_to : path ≢ to) where
    rename_reserved-HasCreated :
        (held : ℕ) → Leads (At o from) (rename_reserved path from to held) HasCreated
    unfolding rename_reserved
    rename_reserved-HasCreated held =
        Leads->>= (Caught (HasMoved o from to)) _ _
          (Leads-settled (HasMoved o from to) (rename_to_free from to) rename_to_free-HasMoved)
          released (λ c w at. absurd at) (λ w at. inl at)
      where
        released :
            (moved : Settled Unit)
            → Leads
                (Caught (HasMoved o from to) (returned moved))
                (release_reservation path held >>= λ u. as_renamed moved)
                HasCreated
        released (fine u) =
            Leads->>= (IsCalm o to) (release_reservation path held) _
              (release_reservation-IsCalm to path held path_to)
              (λ u. Leads-done (returned renamed) (λ w at. at)) (λ c w at. absurd at)
              (λ w at. inr at)
        released (failed c) =
            Leads->>= (IsCalm o from) (release_reservation path held) _
              (release_reservation-IsCalm from path held path_from)
              (λ u. Leads-done (thrown c) (λ w at. at)) (λ c w at. absurd at) (λ w at. inl at)

  keep_or_roll_back-HasGone :
      (keep : Bool) (r : Settled Unit)
      → to ≢ from
      → Leads (Caught (HasOther o from to) (returned r)) (keep_or_roll_back keep to r) HasGone
  unfolding keep_or_roll_back
  keep_or_roll_back-HasGone keep (fine u) h = Leads-done (returned tt) (λ w at. at)
  keep_or_roll_back-HasGone keep (failed c) h =
      Leads-if keep _ _ (Leads-done (returned tt) (λ w at. at.1)) (
        Leads->>= (IsCalm o from) (ignore (unlink to)) _
          (weaken (ignore-IsCalm o from (unlink to) (Keeps-unlink o from to h)))
          (λ u. Leads-done (thrown other) (λ w at. at)) (λ c w at. absurd at) (λ w at. inl at))
    where
      weaken :
          {Q : Exit Unit → World → Type 0}
          → Leads (At o from) (ignore (unlink to)) Q
          → Leads (λ w. At o from w × At o to w) (ignore (unlink to)) Q
      weaken x = record { leads = λ w at. x.leads w at.0 }

  remove_source-HasGone :
      (keep : Bool) (c : Created)
      → to ≢ from
      → Leads (HasCreated (returned c)) (remove_source keep from to c) HasGone
  unfolding remove_source
  remove_source-HasGone keep renamed h = Leads-done (returned tt) (λ w at. at)
  remove_source-HasGone keep linked h =
      Leads->>= (Caught (HasOther o from to)) _ _
        (Leads-settled (HasOther o from to) (unlink from)
          (unlink-HasOther o from to (λ e. h (sym e))))
        (λ r. keep_or_roll_back-HasGone keep r h) (λ c w at. absurd at) (λ w at. inl at.0)

  module _ (ps : Paths) (clock : Io ℕ) (clock_keeps : Keeps o from clock)
      (apart : IsReservedApart ps from to) (path_to : reservation_path_for ps to ≢ to) where
    link_or_reserve-HasCreated :
        (r : Settled Unit)
        → Leads
            (Caught (HasBoth o from to) (returned r))
            (link_or_reserve ps clock from to r)
            HasCreated
    unfolding link_or_reserve
    link_or_reserve-HasCreated (fine u) = Leads-done (returned linked) (λ w at. at)
    link_or_reserve-HasCreated (failed c) =
        Leads-if (link_unsupported c) _ _
          (Leads->>= (λ e w. At o from w) (reserve_destination ps clock to) _
            (Keeps-Leads o from _ (Keeps-reserve_destination o from ps clock clock_keeps to apart))
            (rename_reserved-HasCreated (reservation_path_for ps to) apart.reservation path_to)
            (λ c w at. at) (λ w at. inl at))
          (Leads-done (thrown c) (λ w at. at))

    -- A move ends with the file under its new name, or, with an error, under the old one; stopped
    -- anywhere, it leaves it one of the two.
    pub move_exclusively-HasGone :
        (keep : Bool)
        → to ≢ from
        → Leads (At o from) (move_exclusively ps clock keep from to) HasGone
    unfolding move_exclusively create_exclusively
    move_exclusively-HasGone keep h =
        Leads->>= HasCreated (create_exclusively ps clock from to) _
          (Leads->>= (Caught (HasBoth o from to)) (settled (link from to)) _
            (Leads-settled (HasBoth o from to) (link from to) (link-HasBoth o from to))
            link_or_reserve-HasCreated (λ c w at. absurd at) (λ w at. inl at))
          (λ c. remove_source-HasGone keep c h) (λ c w at. at) (λ w at. at)
