-- ===== src/Disk.antt =====
-- The calls that the executor makes of the file system (`node:fs/promises`), as a machine that may
-- fail any of them, that may stop before any of them, and on which others are at work.
--
-- A file's identity (its device and inode) is one number. A path is a name in its directory; what a
-- symbolic link leads to, the real path of a path, the time and the random names are arguments.
-- A call that reports an error had no effect, but for a copy, which may leave part of a file; and
-- a call that fails for some other reason does not report that the file is missing.
pub mod Names
pub mod Keeps
pub mod Moves
pub mod Reads
pub mod Calm
use trawlarr.Prelude.{
  ℕ, zero, suc, ◌+◌, ◌≡◌, Bool, true, false, Option, none, some, List, [], ◌∷◌, Str, str_eq,
  if◌then◌else◌, ◌==◌,
}

pub data Code : Type 0 where
  eexist enoent exdev eperm enosys eopnotsupp enotsup eacces other : Code

abbrev pub is_eexist : Code → Bool
is_eexist eexist = true
is_eexist _ = false

abbrev pub is_enoent : Code → Bool
is_enoent enoent = true
is_enoent _ = false

abbrev pub is_exdev : Code → Bool
is_exdev exdev = true
is_exdev _ = false

pub record Node : Type 0 where
  pub ino : ℕ
  pub size : ℕ
  pub symlink : Bool
  pub mtime_ms : ℕ

pub record FileStats : Type 0 where
  pub size : ℕ
  pub nlink : ℕ

abbrev pub Disk : Type 0
Disk = List (Str × Node)

abbrev pub lookup : Disk → Str → Option Node
lookup [] p = none
lookup ((q, n) ∷ d) p = if str_eq q p then some n else lookup d p

abbrev pub remove : Disk → Str → Disk
remove [] p = []
remove ((q, n) ∷ d) p = if str_eq q p then remove d p else (q, n) ∷ remove d p

abbrev pub put : Disk → Str → Node → Disk
put d p n = (p, n) ∷ remove d p

-- How many names a file has.
abbrev pub links : Disk → ℕ → ℕ
links [] i = 0
links ((q, n) ∷ d) i = (if n.ino == i then 1 else 0) + links d i

-- What becomes of a call. A torn copy leaves a file of `copied` bytes, as one does at which the
-- machine stops.
pub data Fate : Type 0 where
  go crash : Fate
  fail torn : Code → Fate

-- `decide` tells the fate of a call by its number, `decide_link` that of one that makes a hard link.
pub record Machine : Type 0 where
  pub decide : ℕ → Fate
  pub decide_link : ℕ → Fate
  pub others : ℕ → Disk → Disk
  pub clock : ℕ → ℕ
  pub uuid : ℕ → Str
  pub new_ino : ℕ → ℕ
  pub copied : ℕ → ℕ
  pub follow : Node → Option FileStats
  pub real_path : Disk → Str → Str

-- `note` is the swap note of the job, `staged_path` the variable of that name of a swap.
pub record World : Type 0 where
  pub machine : Machine
  pub disk : Disk
  pub note : Option ℕ
  pub staged_path : Option Str
  pub calls : ℕ

pub data Exit (A : Type 0) : Type 0 where
  returned : A → Exit A
  thrown : Code → Exit A
  crashed : Exit A

abbrev pub Io : Type 0 → Type 0
Io A = World → Exit A × World

abbrev pub pure : {A : Type 0} → A → Io A
pure a w = (returned a, w)

abbrev pub throw : {A : Type 0} → Code → Io A
throw c w = (thrown c, w)

abbrev pub on_exit : {A B : Type 0} → Exit A → World → (A → Io B) → Exit B × World
on_exit (returned a) w f = f a w
on_exit (thrown c) w f = (thrown c, w)
on_exit crashed w f = (crashed, w)

infixl 5 ◌>>=◌ ◌>>◌
abbrev pub ◌>>=◌ : {A B : Type 0} → Io A → (A → Io B) → Io B
◌>>=◌ m f w = on_exit (m w).0 (m w).1 f

abbrev pub ◌>>◌ : {A B : Type 0} → Io A → Io B → Io B
m >> k = m >>= λ _. k

-- The result of a call whose error is caught.
pub data Settled (A : Type 0) : Type 0 where
  fine : A → Settled A
  failed : Code → Settled A

abbrev pub settle_exit : {A : Type 0} → Exit A → World → Exit (Settled A) × World
settle_exit (returned a) w = (returned (fine a), w)
settle_exit (thrown c) w = (returned (failed c), w)
settle_exit crashed w = (crashed, w)

abbrev pub settled : {A : Type 0} → Io A → Io (Settled A)
settled m w = settle_exit (m w).0 (m w).1

-- `.catch(() => {})`
abbrev pub ignore : {A : Type 0} → Io A → Io Unit
ignore m = settled m >>= λ r. pure tt

-- Others act, and time goes on.
abbrev pub arrive : World → World
arrive w = record w { disk = w.machine.others w.calls w.disk; calls = suc w.calls }

abbrev pub fault : Code → Code
fault enoent = other
fault c = c

abbrev pub do_call : {A : Type 0} → Fate → (Disk → Exit A × Disk) → Io A
do_call go f w = ((f w.disk).0, record w { disk = (f w.disk).1 })
do_call crash f w = (crashed, w)
do_call (fail c) f w = (thrown (fault c), w)
do_call (torn c) f w = (thrown (fault c), w)

abbrev pub call_by : {A : Type 0} → (Machine → ℕ → Fate) → (Disk → Exit A × Disk) → Io A
call_by fates f w = do_call (fates w.machine w.calls) f (arrive w)

unfoldable pub call : {A : Type 0} → (Disk → Exit A × Disk) → Io A
call f = call_by (λ m. m.decide) f

abbrev pub node_or : Option Node → Exit Node
node_or none = thrown enoent
node_or (some n) = returned n

unfoldable pub lstat : Str → Io Node
unfolding call
lstat p = call (λ d. (node_or (lookup d p), d))

abbrev stats_or : Option FileStats → Exit FileStats
stats_or none = thrown enoent
stats_or (some s) = returned s

abbrev stats_of : Machine → Disk → Option Node → Exit FileStats
stats_of m d none = thrown enoent
stats_of m d (some n) =
    if n.symlink
    then stats_or (m.follow n)
    else returned (record { size = n.size; nlink = links d n.ino })

unfoldable pub stat_file : Str → Io FileStats
unfolding call
stat_file p w = call (λ d. (stats_of w.machine d (lookup d p), d)) w

abbrev pub link_at : Disk → Str → Option Node → Option Node → Exit Unit × Disk
link_at d to none at = (thrown enoent, d)
link_at d to (some n) (some m) = (thrown eexist, d)
link_at d to (some n) none = (returned tt, put d to n)

unfoldable pub link : Str → Str → Io Unit
link from to = call_by (λ m. m.decide_link) (λ d. link_at d to (lookup d from) (lookup d to))

abbrev pub unlink_at : Disk → Str → Option Node → Exit Unit × Disk
unlink_at d p none = (thrown enoent, d)
unlink_at d p (some n) = (returned tt, remove d p)

unfoldable pub unlink : Str → Io Unit
unfolding call
unlink p = call (λ d. unlink_at d p (lookup d p))

abbrev pub rename_at : Disk → Str → Str → Option Node → Exit Unit × Disk
rename_at d from to none = (thrown enoent, d)
rename_at d from to (some n) = (returned tt, put (remove d from) to n)

-- `rename` replaces what is there.
unfoldable pub rename : Str → Str → Io Unit
unfolding call
rename from to = call (λ d. rename_at d from to (lookup d from))

abbrev pub created_file : World → ℕ → Node
created_file w size = record {
  ino = w.machine.new_ino w.calls;
  size = size;
  symlink = false;
  mtime_ms = w.machine.clock w.calls;
}

abbrev pub open_at : Node → Disk → Str → Option Node → Exit Unit × Disk
open_at n d p (some m) = (thrown eexist, d)
open_at n d p none = (returned tt, put d p n)

unfoldable pub open_exclusive : Str → Io Unit
unfolding call
open_exclusive p w = call (λ d. open_at (created_file w 0) d p (lookup d p)) w

abbrev pub copy_at : World → Disk → Str → Option Node → ℕ → Disk
copy_at w d to none size = d
copy_at w d to (some n) size = put d to (created_file w size)

abbrev pub copy_done : World → Str → Option Node → Exit Unit × World
copy_done w to none = (thrown enoent, w)
copy_done w to (some n) = (returned tt, record w { disk = put w.disk to (created_file w n.size) })

abbrev pub copy_call : Fate → Str → Str → Io Unit
copy_call go from to w = copy_done w to (lookup w.disk from)
copy_call crash from to w = (
  crashed,
  record w { disk = copy_at w w.disk to (lookup w.disk from) (w.machine.copied w.calls) },
)
copy_call (fail c) from to w = (thrown (fault c), w)
copy_call (torn c) from to w = (
  thrown (fault c),
  record w { disk = copy_at w w.disk to (lookup w.disk from) (w.machine.copied w.calls) },
)

unfoldable pub copy_file : Str → Str → Io Unit
copy_file from to w = copy_call (w.machine.decide w.calls) from to (arrive w)

-- A call that changes nothing by itself: of what is done beside it, `others` tells.
unfoldable pub visit : Io Unit
unfolding call
visit = call (λ d. (returned tt, d))

-- `Date.now()` and `randomUUID()`.
abbrev pub now_ms : Io ℕ
now_ms w = (returned (w.machine.clock w.calls), w)

abbrev pub random_uuid : Io Str
random_uuid w = (returned (w.machine.uuid w.calls), w)

abbrev pub set_note : Option ℕ → Io Unit
set_note n w = (returned tt, record w { note = n })

abbrev pub set_staged_path : Str → Io Unit
set_staged_path p w = (returned tt, record w { staged_path = some p })

abbrev pub if_enoent : Settled Node → Io Bool
if_enoent (fine n) = pure true
if_enoent (failed c) = if is_enoent c then pure false else throw c

unfoldable pub exists : Str → Io Bool
unfolding lstat
exists p = settled (lstat p) >>= if_enoent

-- `canonicalPath(a) === canonicalPath(b)`
abbrev pub same_path : Str → Str → Io Bool
same_path a b w =
    (returned (str_eq (w.machine.real_path w.disk a) (w.machine.real_path w.disk b)), w)
