-- ===== src/Replace/Safety/Bystanders.antt =====
-- What the moves do to files that are not theirs: nothing.
use trawlarr.Prelude.{ℕ, ◌≢◌, Bool, Str, ◌==◌}
use trawlarr.Disk.{eexist, is_eexist, other, Node, Io, Settled, fine, failed, random_uuid}
use trawlarr.Disk.Keeps.{
  Keeps, Keeps-pure, Keeps-throw, Keeps-settled, Keeps-if, Keeps->>=, Keeps-ignore, Keeps-lstat,
  Keeps-exists, Keeps-link, Keeps-open_exclusive, Keeps-unlink, Keeps-rename,
}
use trawlarr.Replace.{Paths, reservation_path_for, displaced_path}
use trawlarr.Replace.Move.{
  link_unsupported, Created, linked, renamed, claim, is_stale, release_if, release_reservation,
  reclaim_moved, reclaim_from, claim_or_reclaim, reserve_destination, rename_if_free,
  rename_to_free, as_renamed, rename_reserved, link_or_reserve, create_exclusively,
  keep_or_roll_back, remove_source, move_exclusively,
}

-- The reservation of a destination, and the names it is displaced to, are not `p`.
pub record IsReservedApart (ps : Paths) (p to : Str) : Type 0 where
  pub reservation : reservation_path_for ps to ≢ p
  pub displaced : (uuid : Str) → displaced_path ps (reservation_path_for ps to) uuid ≢ p

module _ (o : Node) (p : Str) where
  Keeps-claim : (q : Str) → Keeps o p (claim q)
  unfolding claim
  Keeps-claim q =
      Keeps->>= o p _ _ (Keeps-open_exclusive o p q)
        (λ u. Keeps->>= o p _ _ (Keeps-lstat o p q) (λ n. Keeps-pure o p _))

  Keeps-release_if :
      (path : Str) (held : ℕ) → path ≢ p → (r : Settled Node) → Keeps o p (release_if path held r)
  unfolding release_if
  Keeps-release_if path held h (failed c) = Keeps-pure o p tt
  Keeps-release_if path held h (fine n) =
      Keeps-if o p (n.ino == held) (Keeps-ignore o p _ (Keeps-unlink o p path h))
        (Keeps-pure o p tt)

  pub Keeps-release_reservation :
      (path : Str) (held : ℕ) → path ≢ p → Keeps o p (release_reservation path held)
  unfolding release_reservation
  Keeps-release_reservation path held h =
      Keeps->>= o p _ _ (Keeps-settled o p _ (Keeps-lstat o p path)) (Keeps-release_if path held h)

  module _ (from to : Str) (from_apart : from ≢ p) (to_apart : to ≢ p) where
    Keeps-rename_to_free : Keeps o p (rename_to_free from to)
    unfolding rename_to_free rename_if_free
    Keeps-rename_to_free = Keeps->>= o p _ _ (Keeps-exists o p to) (λ there.
        Keeps-if o p there (Keeps-throw o p eexist) (Keeps-rename o p from to from_apart to_apart))

    Keeps-as_renamed : (r : Settled Unit) → Keeps o p (as_renamed r)
    Keeps-as_renamed (fine u) = Keeps-pure o p renamed
    Keeps-as_renamed (failed c) = Keeps-throw o p c

    Keeps-rename_reserved :
        (path : Str) (held : ℕ) → path ≢ p → Keeps o p (rename_reserved path from to held)
    unfolding rename_reserved
    Keeps-rename_reserved path held h =
        Keeps->>= o p _ _ (Keeps-settled o p _ Keeps-rename_to_free) (λ moved.
          Keeps->>= o p _ _ (Keeps-release_reservation path held h) (λ u. Keeps-as_renamed moved))

    Keeps-keep_or_roll_back :
        (keep : Bool) (r : Settled Unit) → Keeps o p (keep_or_roll_back keep to r)
    unfolding keep_or_roll_back
    Keeps-keep_or_roll_back keep (fine u) = Keeps-pure o p tt
    Keeps-keep_or_roll_back keep (failed c) = Keeps-if o p keep (Keeps-pure o p tt) (
        Keeps->>= o p _ _ (Keeps-ignore o p _ (Keeps-unlink o p to to_apart))
          (λ u. Keeps-throw o p other))

    Keeps-remove_source : (keep : Bool) (c : Created) → Keeps o p (remove_source keep from to c)
    unfolding remove_source
    Keeps-remove_source keep renamed = Keeps-pure o p tt
    Keeps-remove_source keep linked =
        Keeps->>= o p _ _ (Keeps-settled o p _ (Keeps-unlink o p from from_apart))
          (Keeps-keep_or_roll_back keep)

  module _ (ps : Paths) (clock : Io ℕ) (clock_keeps : Keeps o p clock) (to : Str)
      (apart : IsReservedApart ps p to) where
    Keeps-reclaim_moved :
        (displaced : Str)
        → displaced ≢ p
        → (r : Settled Unit)
        → Keeps o p (reclaim_moved ps clock (reservation_path_for ps to) displaced r)
    unfolding reclaim_moved
    Keeps-reclaim_moved displaced h (failed c) = Keeps-throw o p eexist
    Keeps-reclaim_moved displaced h (fine u) =
        Keeps->>= o p _ _ (Keeps-ignore o p _ (Keeps-unlink o p displaced h)) (λ v. Keeps-claim _)

    Keeps-reclaim_from :
        (r : Settled Node) → Keeps o p (reclaim_from ps clock (reservation_path_for ps to) r)
    unfolding reclaim_from
    Keeps-reclaim_from (failed c) = Keeps-throw o p eexist
    Keeps-reclaim_from (fine n) = Keeps->>= o p clock _ clock_keeps (λ now.
        Keeps->>= o p random_uuid _ (record { keeps = λ w h. h })
          (λ uuid.
            Keeps-if o p (is_stale now n)
              (Keeps->>= o p _ _
                (Keeps-settled o p _
                  (Keeps-rename o p _ _ apart.reservation (apart.displaced uuid)))
                (Keeps-reclaim_moved _ (apart.displaced uuid)))
              (Keeps-throw o p eexist)))

    Keeps-claim_or_reclaim :
        (r : Settled ℕ) → Keeps o p (claim_or_reclaim ps clock (reservation_path_for ps to) r)
    unfolding claim_or_reclaim
    Keeps-claim_or_reclaim (fine held) = Keeps-pure o p held
    Keeps-claim_or_reclaim (failed c) =
        Keeps-if o p (is_eexist c)
          (Keeps->>= o p _ _ (Keeps-settled o p _ (Keeps-lstat o p _)) Keeps-reclaim_from)
          (Keeps-throw o p c)

    pub Keeps-reserve_destination : Keeps o p (reserve_destination ps clock to)
    unfolding reserve_destination
    Keeps-reserve_destination =
        Keeps->>= o p _ _ (Keeps-settled o p _ (Keeps-claim _)) Keeps-claim_or_reclaim

    -- The move of another file, to another name.
    module _ (from : Str) (from_apart : from ≢ p) (to_apart : to ≢ p) where
      Keeps-link_or_reserve : (r : Settled Unit) → Keeps o p (link_or_reserve ps clock from to r)
      unfolding link_or_reserve
      Keeps-link_or_reserve (fine u) = Keeps-pure o p linked
      Keeps-link_or_reserve (failed c) =
          Keeps-if o p (link_unsupported c)
            (Keeps->>= o p _ _ Keeps-reserve_destination
              (λ held. Keeps-rename_reserved from to from_apart to_apart _ held apart.reservation))
            (Keeps-throw o p c)

      pub Keeps-move_exclusively :
          (keep : Bool) → Keeps o p (move_exclusively ps clock keep from to)
      unfolding move_exclusively create_exclusively
      Keeps-move_exclusively keep =
          Keeps->>= o p _ _
            (Keeps->>= o p _ _ (Keeps-settled o p _ (Keeps-link o p from to)) Keeps-link_or_reserve)
            (Keeps-remove_source from to from_apart to_apart keep)
