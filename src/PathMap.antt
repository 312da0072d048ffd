-- ===== src/PathMap.antt =====
-- packages/core/src/path-map.ts: server path <-> node path.
--
-- A path that is not a string is `none`. A thrown `PathMapError` is a constructor for its message,
-- with the paths that it names.
pub mod Paths
pub mod Moves
pub mod Checks
pub mod RoundTrip
mod Tests
use mathlib.Core.List.{reverse}
use trawlarr.Prelude.{
  ℕ, zero, suc, ◌+◌, Bool, true, false, ◌&&◌, ◌||◌, not, Option, none, some, List, [], ◌∷◌, ◌++◌,
  Str, codes, str_eq, starts_with, includes, any, drop, length, if◌then◌else◌, ltb, ◌==◌,
}

pub record PathMapping : Type 0 where
  pub server_path : Str
  pub node_path : Str

pub data PathMapError : Type 0 where
  not_a_list : PathMapError
  not_absolute : PathMapError
  dot_segments : Str → PathMapError
  duplicate_server : Str → PathMapError
  duplicate_node : Str → PathMapError
  nest_differently : PathMapping → PathMapping → PathMapError
  nested_elsewhere : PathMapping → PathMapping → PathMapError

-- What a check returns, or throws.
pub data Checked {ℓ} (Value : Type ℓ) : Type ℓ where
  refused : PathMapError → Checked Value
  accepted : Value → Checked Value

infixl 5 ◌>>=◌
abbrev pub ◌>>=◌ {ℓ κ} :
    {Value : Type ℓ} {Next : Type κ} → Checked Value → (Value → Checked Next) → Checked Next
refused why >>= next = refused why
accepted value >>= next = next value

abbrev pub slash : ℕ
slash = b'/'

abbrev pub root_path : Str
root_path = slash ∷ []

-- On the reversed path: its end comes first.
unfoldable pub strip : Str → Str
strip [] = []
strip (c ∷ []) = c ∷ []
strip (c ∷ d ∷ s) = if c == slash then strip (d ∷ s) else c ∷ d ∷ s

unfoldable pub trim_trailing : Str → Str
unfolding strip
trim_trailing path = reverse (strip (reverse path))

-- `path.split('/')`, with the segment that is being read.
segments_from : Str → Str → List Str
segments_from current [] = current ∷ []
segments_from current (c ∷ s) =
    let closed = current ∷ segments_from [] s in
    let longer = segments_from (current ++ c ∷ []) s in if c == slash then closed else longer

unfoldable pub segments : Str → List Str
unfolding segments_from
segments path = segments_from [] path

abbrev is_dots : Str → Bool
is_dots segment = str_eq segment (codes ".") || str_eq segment (codes "..")

unfoldable pub check_absolute : Option Str → Checked Str
unfolding segments trim_trailing
check_absolute none = refused not_absolute
check_absolute (some path) =
    if not (starts_with path root_path)
    then refused not_absolute
    else if any is_dots (segments path)
    then refused (dot_segments path)
    else accepted (trim_trailing path)

unfoldable pub within : Str → Str → Bool
within root path =
    str_eq root root_path || (str_eq path root || starts_with path (root ++ root_path))

-- `path` below `root`, without a leading slash.
unfoldable pub relative_to : Str → Str → Str
relative_to root path =
    if str_eq path root
    then []
    else if str_eq root root_path
    then drop 1 path
    else drop (length root + 1) path

-- The body of `map.map(...)`: the entries in order, with the paths seen so far.
unfoldable pub check_entries :
    List Str → List Str → List (Option Str × Option Str) → Checked (List PathMapping)
unfolding check_absolute
check_entries seen_server seen_node [] = accepted []
check_entries seen_server seen_node ((raw_server, raw_node) ∷ raw) = do
  server ← check_absolute raw_server
  node ← check_absolute raw_node
  let rest = check_entries (server ∷ seen_server) (node ∷ seen_node) raw
  if includes seen_server server
      then refused (duplicate_server server)
      else if includes seen_node node
      then refused (duplicate_node node)
      else rest >>= λ entries.
          accepted (record { server_path = server; node_path = node } ∷ entries)

-- The body of the two loops, for two different entries.
unfoldable pub check_pair : PathMapping → PathMapping → Option PathMapError
unfolding within relative_to
check_pair a b =
    if within a.node_path b.node_path && not (within a.server_path b.server_path)
      || not (within a.node_path b.node_path) && within a.server_path b.server_path
    then some (nest_differently a b)
    else if not (within a.server_path b.server_path)
    then none
    else if not
        (str_eq (relative_to a.server_path b.server_path) (relative_to a.node_path b.node_path))
    then some (nested_elsewhere a b)
    else none

abbrev pub indexed {ℓ} : {A : Type ℓ} → ℕ → List A → List (ℕ × A)
indexed i [] = []
indexed i (x ∷ xs) = (i, x) ∷ indexed (suc i) xs

-- `a === b` compares objects: the positions.
check_against : ℕ × PathMapping → List (ℕ × PathMapping) → Option PathMapError
unfolding check_pair
check_against a [] = none
check_against a (b ∷ bs) =
    let rest = check_against a bs in
    if a.0 == b.0 then rest else elim (check_pair a.1 b.1) [ some e ↦ some e | none ↦ rest ]

check_nesting : List (ℕ × PathMapping) → List (ℕ × PathMapping) → Option PathMapError
unfolding check_against
check_nesting [] all = none
check_nesting (a ∷ rest) all =
    let later = check_nesting rest all in
    elim (check_against a all) [ some e ↦ some e | none ↦ later ]

-- `none` for a map that is no array.
unfoldable pub validate_path_map :
    Option (List (Option Str × Option Str)) → Checked (List PathMapping)
unfolding check_entries check_nesting
validate_path_map none = refused not_a_list
validate_path_map (some raw) = do
  entries ← check_entries [] [] raw
  elim (check_nesting (indexed 0 entries) (indexed 0 entries)) [
    | some e ↦ refused e
    | none ↦ accepted entries
  ]

pub data Direction : Type 0 where
  to_node to_server : Direction

-- The two ends of an entry, in the direction of the mapping.
abbrev pub ends : Direction → PathMapping → Str × Str
ends to_node e = (e.server_path, e.node_path)
ends to_server e = (e.node_path, e.server_path)

abbrev longer : Str → Option (Str × Str) → Bool
longer from none = true
longer from (some best) = ltb (length best.0) (length from)

-- The loop of `mapPath`: the first of the longest matching ends.
unfoldable pub best_from :
    Direction → Str → Option (Str × Str) → List PathMapping → Option (Str × Str)
unfolding within
best_from direction path best [] = best
best_from direction path best (e ∷ es) =
    best_from direction path
      (if within (ends direction e).0 path && longer (ends direction e).0 best
        then some (ends direction e)
        else best)
      es

-- What follows the loop.
unfoldable pub replace_root : Str × Str → Str → Str
replace_root (from, to) path =
    let rest = if str_eq from root_path then drop 1 path else drop (length from + 1) path in
    if str_eq path from
    then to
    else if str_eq to root_path
    then slash ∷ rest
    else to ++ slash ∷ rest

unfoldable pub map_path : List PathMapping → Str → Direction → Option Str
unfolding best_from replace_root
map_path map path direction = elim (best_from direction path none map) [
  | none ↦ none
  | some best ↦ some (replace_root best path)
]
