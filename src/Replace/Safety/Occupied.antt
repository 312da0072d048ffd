-- ===== src/Replace/Safety/Occupied.antt =====
-- A move to a name that is taken.
use trawlarr.Prelude.{◌≡◌, ◌≢◌, refl, Bool, true, false, Option, none, some, ℕ, Str}
use trawlarr.Disk.{
  Code, eexist, enoent, exdev, eperm, enosys, eopnotsupp, enotsup, eacces, other, fault, is_enoent,
  Node, lookup, Fate, go, crash, fail, torn, World, Exit, returned, thrown, crashed, Io, ◌>>=◌,
  Settled, fine, failed, settled, arrive, do_call, call, node_or, lstat, link_at, link, if_enoent,
  exists,
}
use trawlarr.Disk.Keeps.{
  Leads, Leads->>=, Leads-settled, Leads-if, Leads-done, Caught, At, Keeps, Keeps-Leads, IsCalm,
}
use trawlarr.Replace.{Paths, reservation_path_for}
use trawlarr.Replace.Move.{
  link_unsupported, as_renamed, release_reservation, rename_if_free, rename_to_free,
  rename_reserved, reserve_destination, link_or_reserve, create_exclusively, remove_source,
  move_exclusively,
}
use trawlarr.Replace.Safety.{release_reservation-IsCalm}
use trawlarr.Replace.Safety.Bystanders.{IsReservedApart, Keeps-reserve_destination}

module _ (o : Node) (from to : Str) where
  -- An end without a result, with the name as it was.
  abbrev pub IsRefused : {A : Type 0} → Exit A → World → Type 0
  IsRefused (returned a) w = ⊥
  IsRefused (thrown c) w = At o to w
  IsRefused crashed w = At o to w

  link-IsRefused : Leads (At o to) (link from to) IsRefused
  unfolding link
  link-IsRefused = record {
    leads = λ w at.
        by_decision (arrive w) (at.0, at.0 w.calls w.disk to at.1) (w.machine.decide_link w.calls);
  }
    where
      by_source :
          (w : World)
          → At o to w
          → (source : Option Node)
          → IsRefused
              (link_at w.disk to source (some o)).0
              (record w { disk = (link_at w.disk to source (some o)).1 })
      by_source w at none = at
      by_source w at (some n) = at

      by_decision :
          (w : World)
          → At o to w
          → (x : Fate)
          → IsRefused
              (do_call x (λ d. link_at d to (lookup d from) (lookup d to)) w).0
              (do_call x (λ d. link_at d to (lookup d from) (lookup d to)) w).1
      by_decision w at go = rw (at.1) (by_source w at (lookup w.disk from))
      by_decision w at crash = at
      by_decision w at (fail c) = at
      by_decision w at (torn c) = at

  abbrev IsThere : Exit Bool → World → Type 0
  IsThere (returned there) w = At o to w × (there ≡ true)
  IsThere (thrown c) w = At o to w
  IsThere crashed w = At o to w

  -- A look at a name that is taken does not find it free.
  abbrev IsSeen : Exit Node → World → Type 0
  IsSeen (returned n) w = At o to w
  IsSeen (thrown c) w = At o to w × (is_enoent c ≡ false)
  IsSeen crashed w = At o to w

  fault-is_enoent : (c : Code) → is_enoent (fault c) ≡ false
  fault-is_enoent eexist = refl
  fault-is_enoent enoent = refl
  fault-is_enoent exdev = refl
  fault-is_enoent eperm = refl
  fault-is_enoent enosys = refl
  fault-is_enoent eopnotsupp = refl
  fault-is_enoent enotsup = refl
  fault-is_enoent eacces = refl
  fault-is_enoent other = refl

  lstat-IsSeen : Leads (At o to) (lstat to) IsSeen
  unfolding lstat call
  lstat-IsSeen = record {
    leads = λ w at.
        by_decision (arrive w) (at.0, at.0 w.calls w.disk to at.1) (w.machine.decide w.calls);
  }
    where
      by_decision :
          (w : World)
          → At o to w
          → (x : Fate)
          → IsSeen
              (do_call x (λ d. (node_or (lookup d to), d)) w).0
              (do_call x (λ d. (node_or (lookup d to), d)) w).1
      by_decision w at go = rw (at.1) at
      by_decision w at crash = at
      by_decision w at (fail c) = (at, fault-is_enoent c)
      by_decision w at (torn c) = (at, fault-is_enoent c)

  exists-IsThere : Leads (At o to) (exists to) IsThere
  unfolding exists
  exists-IsThere =
      Leads->>= (Caught IsSeen) (settled (lstat to)) if_enoent
        (Leads-settled IsSeen (lstat to) lstat-IsSeen) by_node (λ c w at. absurd at) (λ w at. at)
    where
      by_node : (r : Settled Node) → Leads (Caught IsSeen (returned r)) (if_enoent r) IsThere
      by_node (fine n) = Leads-done (returned true) (λ w at. (at, refl))
      by_node (failed c) = record { leads = λ w at. rw (at.1) (at.0) }

  rename_to_free-IsRefused : Leads (At o to) (rename_to_free from to) IsRefused
  unfolding rename_to_free rename_if_free
  rename_to_free-IsRefused =
      Leads->>= IsThere (exists to) _ exists-IsThere
        (λ there. record { leads = λ w at. rw (at.1) (at.0) }) (λ c w at. at) (λ w at. at)

  rename_reserved-IsRefused :
      (path : Str) (held : ℕ)
      → path ≢ to
      → Leads (At o to) (rename_reserved path from to held) IsRefused
  unfolding rename_reserved
  rename_reserved-IsRefused path held h =
      Leads->>= (Caught IsRefused) _ _
        (Leads-settled IsRefused (rename_to_free from to) rename_to_free-IsRefused) released
        (λ c w at. absurd at) (λ w at. at)
    where
      released :
          (moved : Settled Unit)
          → Leads
              (Caught IsRefused (returned moved))
              (release_reservation path held >>= λ u. as_renamed moved)
              IsRefused
      released (fine u) = record { leads = λ w at. absurd at }
      released (failed c) =
          Leads->>= (IsCalm o to) (release_reservation path held) _
            (release_reservation-IsCalm o from to to path held h)
            (λ u. Leads-done (thrown c) (λ w at. at)) (λ d w at. absurd at) (λ w at. at)

  module _ (ps : Paths) (clock : Io ℕ) (clock_keeps : Keeps o to clock)
      (apart : IsReservedApart ps to to) where
    link_or_reserve-IsRefused :
        (r : Settled Unit)
        → Leads (Caught IsRefused (returned r)) (link_or_reserve ps clock from to r) IsRefused
    unfolding link_or_reserve
    link_or_reserve-IsRefused (fine u) = record { leads = λ w at. absurd at }
    link_or_reserve-IsRefused (failed c) =
        Leads-if (link_unsupported c) _ _
          (Leads->>= (λ e w. At o to w) (reserve_destination ps clock to) _
            (Keeps-Leads o to _ (Keeps-reserve_destination o to ps clock clock_keeps to apart))
            (λ held. rename_reserved-IsRefused (reservation_path_for ps to) held apart.reservation)
            (λ d w at. at) (λ w at. at))
          (Leads-done (thrown c) (λ w at. at))

    create_exclusively-IsRefused : Leads (At o to) (create_exclusively ps clock from to) IsRefused
    unfolding create_exclusively
    create_exclusively-IsRefused =
        Leads->>= (Caught IsRefused) (settled (link from to)) _
          (Leads-settled IsRefused (link from to) link-IsRefused) link_or_reserve-IsRefused
          (λ c w at. absurd at) (λ w at. at)

    -- A move to a name that another file has, and that the machine's other users leave it, never
    -- returns, by a link or under a reservation: it throws an error or is stopped, and the file keeps
    -- the name. The names of the reservation are not the destination's, and the clock changes nothing.
    pub move_exclusively-IsRefused :
        (keep : Bool) (w : World)
        → At o to w
        → IsRefused
            (move_exclusively ps clock keep from to w).0
            (move_exclusively ps clock keep from to w).1
    unfolding move_exclusively
    move_exclusively-IsRefused keep =
        (Leads->>= IsRefused {Q = IsRefused} (create_exclusively ps clock from to)
          (remove_source keep from to) create_exclusively-IsRefused
          (λ c. record { leads = λ w at. absurd at }) (λ c w at. at) (λ w at. at)).leads
