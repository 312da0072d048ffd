-- ===== src/Replace/Move.antt =====
-- Moves that never overwrite their destination: by a link, or under a reservation of its name.
use trawlarr.Prelude.{ℕ, zero, suc, ◌+◌, Bool, true, false, ◌&&◌, Str, if◌then◌else◌, leb, ◌==◌}
use trawlarr.Disk.{
  Code, eexist, eperm, enosys, eopnotsupp, enotsup, other, is_eexist, Node, Io, pure, throw, ◌>>=◌,
  ◌>>◌, Settled, fine, failed, settled, ignore, lstat, link, unlink, rename, open_exclusive,
  random_uuid, exists,
}
use trawlarr.Replace.{Paths, reservation_path_for, displaced_path, trash_path}

abbrev pub link_unsupported : Code → Bool
link_unsupported eperm = true
link_unsupported enosys = true
link_unsupported eopnotsupp = true
link_unsupported enotsup = true
link_unsupported _ = false

abbrev pub reservation_stale_ms : ℕ
reservation_stale_ms = 3600000

pub data Created : Type 0 where
  linked renamed : Created

-- What is held of a reservation is its identity; its path is that of the destination.
unfoldable pub claim : Str → Io ℕ
unfolding open_exclusive lstat
claim path = do open_exclusive path; stats ← lstat path; pure stats.ino

abbrev pub is_stale : ℕ → Node → Bool
is_stale now n = n.size == 0 && leb (n.mtime_ms + reservation_stale_ms) now

unfoldable pub release_if : Str → ℕ → Settled Node → Io Unit
unfolding unlink
release_if path held (failed c) = pure tt
release_if path held (fine n) = if n.ino == held then ignore (unlink path) else pure tt

unfoldable pub release_reservation : Str → ℕ → Io Unit
unfolding lstat release_if
release_reservation path held = settled (lstat path) >>= release_if path held

unfoldable pub rename_if_free : Str → Str → Bool → Io Unit
unfolding rename
rename_if_free from to there = if there then throw eexist else rename from to

unfoldable pub rename_to_free : Str → Str → Io Unit
unfolding exists rename_if_free
rename_to_free from to = exists to >>= rename_if_free from to

abbrev pub as_renamed : Settled Unit → Io Created
as_renamed (fine u) = pure renamed
as_renamed (failed c) = throw c

-- Under the reservation, which is released whatever happens.
unfoldable pub rename_reserved : Str → Str → Str → ℕ → Io Created
unfolding rename_to_free release_reservation
rename_reserved path from to held = do
  moved ← settled (rename_to_free from to)
  release_reservation path held
  as_renamed moved

unfoldable pub keep_or_roll_back : Bool → Str → Settled Unit → Io Unit
unfolding unlink
keep_or_roll_back keep to (fine u) = pure tt
keep_or_roll_back keep to (failed c) = if keep then pure tt else do ignore (unlink to); throw other

unfoldable pub remove_source : Bool → Str → Str → Created → Io Unit
unfolding unlink keep_or_roll_back
remove_source keep from to renamed = pure tt
remove_source keep from to linked = settled (unlink from) >>= keep_or_roll_back keep to

module _ (ps : Paths) (clock : Io ℕ) where
  unfoldable pub reclaim_moved : Str → Str → Settled Unit → Io ℕ
  unfolding claim unlink
  reclaim_moved path displaced (failed c) = throw eexist
  reclaim_moved path displaced (fine u) = do ignore (unlink displaced); claim path

  unfoldable pub reclaim_from : Str → Settled Node → Io ℕ
  unfolding rename reclaim_moved
  reclaim_from path (failed c) = throw eexist
  reclaim_from path (fine n) = do
    now ← clock
    uuid ← random_uuid
    if is_stale now n
        then settled (rename path (displaced_path ps path uuid))
          >>= reclaim_moved path (displaced_path ps path uuid)
        else throw eexist

  unfoldable pub claim_or_reclaim : Str → Settled ℕ → Io ℕ
  unfolding lstat reclaim_from
  claim_or_reclaim path (fine held) = pure held
  claim_or_reclaim path (failed c) =
      if is_eexist c then settled (lstat path) >>= reclaim_from path else throw c

  unfoldable pub reserve_destination : Str → Io ℕ
  unfolding claim claim_or_reclaim reservation_path_for
  reserve_destination final_path =
      settled (claim (reservation_path_for ps final_path))
      >>= claim_or_reclaim (reservation_path_for ps final_path)

  unfoldable pub link_or_reserve : Str → Str → Settled Unit → Io Created
  unfolding reserve_destination rename_reserved reservation_path_for
  link_or_reserve from to (fine u) = pure linked
  link_or_reserve from to (failed c) =
      if link_unsupported c
      then reserve_destination to >>= rename_reserved (reservation_path_for ps to) from to
      else throw c

  unfoldable pub create_exclusively : Str → Str → Io Created
  unfolding link link_or_reserve
  create_exclusively from to = settled (link from to) >>= link_or_reserve from to

  -- `keep` is the answer 'keep' to a source that cannot be removed.
  unfoldable pub move_exclusively : Bool → Str → Str → Io Unit
  unfolding create_exclusively remove_source
  move_exclusively keep from to = create_exclusively from to >>= remove_source keep from to

-- The names that are tried, from the given one on; the fuel is the number of attempts left.
module _ (ps : Paths) (trash_dir original_path : Str) (now : ℕ) where
  abbrev pub next_trash_name : Io Str → Str → Settled Unit → Io Str
  next_trash_name next candidate (fine u) = pure candidate
  next_trash_name next candidate (failed c) = if is_eexist c then next else throw c

  unfoldable pub trash_from : ℕ → ℕ → Io Str
  unfolding move_exclusively trash_path
  trash_from zero attempt = throw other
  trash_from (suc left) attempt =
      let candidate = trash_path ps trash_dir original_path now attempt in
      let next = trash_from left (suc attempt) in
      settled (move_exclusively ps (pure now) false original_path candidate)
      >>= next_trash_name next candidate

  unfoldable pub move_to_trash : Io Str
  unfolding trash_from
  move_to_trash = trash_from 10000 0
