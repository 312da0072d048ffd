-- ===== src/PathMap/RoundTrip.antt =====
-- An accepted path map is a bijection between the paths that it maps.
use mathlib.Core.List.{append_assoc}
use trawlarr.Prelude.{
  ◌≤◌, ◌≡◌, ◌≢◌, refl, sym, ap, subst, ◌∙◌, ◌⊎◌, ◌↔◌, inl, inr, true, false, ◌&&◌, Option, none,
  some, List, [], ◌∷◌, ◌++◌, Str, arith, Memᴰ, All-mem, Bool-cases, Option-cases, if◌then◌else◌,
  drop, length,
}
use trawlarr.PathMap.{
  slash, root_path, PathMapping, accepted, within, relative_to, validate_path_map, Direction,
  to_node, to_server, ends, longer, best_from, replace_root, map_path,
}
use trawlarr.PathMap.Paths.{
  IsPath, NoTrail, base, Below, base_injective, within_intro, within_elim, NoTrail-slash,
}
use trawlarr.PathMap.Moves.{relative_to_lem, replace_root_lem}
use trawlarr.PathMap.Checks.{IsMapping, NestAlike, IsConsistent, validate_path_map-IsConsistent}

abbrev pub opposite : Direction → Direction
opposite to_node = to_server
opposite to_server = to_node

-- The loop keeps an entry at least as long as the one it has.
best_from-kept :
    (d : Direction) (path : Str) (best : Str × Str) (es : List PathMapping)
    → (r : Str × Str) × (best_from d path (some best) es ≡ some r) × (length best.0 ≤ length r.0)
unfolding best_from
best_from-kept d path best [] = (best, refl, omega arith)
best_from-kept d path best (e ∷ es) =
    elim (Bool-cases (within (ends d e).0 path && longer (ends d e).0 (some best))) [
      | inl t ↦
          let (r, found, le) = best_from-kept d path (ends d e) es in (r, rw t found, ground arith)
      | inr f ↦ let (r, found, le) = best_from-kept d path best es in (r, rw f found, le)
    ]

-- Every entry that contains the path is at most as long as the one found.
best_from-longest :
    (d : Direction) (path : Str) (best : Option (Str × Str)) (es : List PathMapping)
    (e : PathMapping)
    → Memᴰ e es
    → within (ends d e).0 path ≡ true
    → (r : Str × Str) × (best_from d path best es ≡ some r) × (length (ends d e).0 ≤ length r.0)
unfolding best_from
best_from-longest d path best [] e m w = elim m [ ]
best_from-longest d path best (x ∷ es) e (Memᴰ.tail m) w =
    best_from-longest d path
      (if within (ends d x).0 path && longer (ends d x).0 best then some (ends d x) else best) es e
      m w
best_from-longest d path none (x ∷ es) e (Memᴰ.head p) w =
    let w' : within (ends d x).0 path ≡ true = rw (← p) w in
    let (r, found, le) = best_from-kept d path (ends d x) es in (r, rw w' found, rw p le)
best_from-longest d path (some best) (x ∷ es) e (Memᴰ.head p) w =
    let w' : within (ends d x).0 path ≡ true = rw (← p) w in
    elim (Bool-cases (longer (ends d x).0 (some best))) [
      | inl t ↦
          let (r, found, le) = best_from-kept d path (ends d x) es in (r, rw (w', t) found, rw p le)
      | inr f ↦
          let (r, found, le) = best_from-kept d path best es in
          (r, rw (w', f) found, rw p (ground arith))
    ]

-- What is found is an entry of the map that contains the path.
best_from-entry :
    (d : Direction) (path : Str) (best : Option (Str × Str)) (es : List PathMapping) (r : Str × Str)
    → best_from d path best es ≡ some r
    → (best ≡ some r)
      ⊎ ((e : PathMapping) × Memᴰ e es × (ends d e ≡ r) × (within (ends d e).0 path ≡ true))
unfolding best_from
best_from-entry d path best [] r h = inl h
best_from-entry d path best (x ∷ es) r h =
    elim (Bool-cases (within (ends d x).0 path && longer (ends d x).0 best)) [
      | inl t ↦ elim (best_from-entry d path (some (ends d x)) es r (rw (t, best_from) at h)) [
        | inl same ↦ inr (x, Memᴰ.head refl, cc, ground arith)
        | inr (e, m, q, w) ↦ inr (e, Memᴰ.tail m, q, w)
      ]
      | inr f ↦ elim (best_from-entry d path best es r (rw (f, best_from) at h)) [
        | inl same ↦ inl same
        | inr (e, m, q, w) ↦ inr (e, Memᴰ.tail m, q, w)
      ]
    ]

IsPath-ends :
    (d : Direction) (e : PathMapping) → IsMapping e → IsPath (ends d e).0 × IsPath (ends d e).1
IsPath-ends to_node e h = h
IsPath-ends to_server e h = (h.1, h.0)

-- Nesting is the same from both sides.
nest_ends :
    (d : Direction) (a b : PathMapping)
    → NestAlike a b
    → within (ends d a).1 (ends d b).1 ≡ true
    → (within (ends d a).0 (ends d b).0 ≡ true)
      × (relative_to (ends d a).0 (ends d b).0 ≡ relative_to (ends d a).1 (ends d b).1)
nest_ends to_node a b h w = let w' = h.0 ∙ w in (w', h.1 w')
nest_ends to_server a b h w = (sym h.0 ∙ w, sym (h.1 w))

base-le :
    (a b : Str) → IsPath a → IsPath b → length a ≤ length b → length (base a) ≤ length (base b)
base-le [] b h k l = absurd h
base-le (c ∷ []) b h k l = omega arith
base-le (c ∷ d ∷ a) [] h k l = absurd k
base-le (c ∷ d ∷ a) (e ∷ []) h k l = absurd (omega arith)
base-le (c ∷ d ∷ a) (e ∷ f ∷ b) h k l = l

-- Of two beginnings of one list the shorter one begins the longer one.
common_start :
    (a b s t : Str)
    → a ++ s ≡ b ++ t
    → length a ≤ length b
    → (u : Str) × (b ≡ a ++ u) × (s ≡ u ++ t)
common_start [] b s t e l = (b, refl, e)
common_start (x ∷ a) [] s t e l = absurd (omega arith)
common_start (x ∷ a) (y ∷ b) s t e l =
    let (u, p, q) = common_start a b s t (cc) (omega arith) in (u, cc, q)

base-not_slash : (p r : Str) → IsPath p → base p ≢ r ++ root_path
base-not_slash [] r h e = absurd h
base-not_slash (c ∷ []) [] h e = cc
base-not_slash (c ∷ []) (a ∷ r) h e = cc
base-not_slash (c ∷ d ∷ p) [] h e = cc
base-not_slash (c ∷ d ∷ p) (a ∷ r) h e =
    let ended : d ∷ p ≡ r ++ root_path = cc in NoTrail-slash r (subst NoTrail ended h.1)

-- The part that the longer root adds is itself something below the shorter one.
Below-added : (p r u s' s : Str) → IsPath p → base p ≡ r ++ u → s ≡ u ++ s' → Below s → Below u
Below-added p r [] s' s h e q b = tt
Below-added p r (x ∷ []) [] s h e q b = subst Below q b
Below-added p r (x ∷ []) (y ∷ s') s h e q b =
    let is_slash : x ≡ slash = subst Below q b in
    absurd (base-not_slash p r h (e ∙ ap (λ z. r ++ z ∷ []) is_slash))
Below-added p r (x ∷ y ∷ u) s' s h e q b = subst Below q b

Below-drop : (u v : Str) → Below u → Below v → drop 1 u ≡ drop 1 v → u ≡ v
Below-drop [] [] b k e = refl
Below-drop [] (y ∷ []) b k e = absurd k
Below-drop [] (y ∷ z ∷ v) b k e = cc
Below-drop (x ∷ []) v b k e = absurd b
Below-drop (x ∷ y ∷ u) [] b k e = cc
Below-drop (x ∷ y ∷ u) (z ∷ []) b k e = absurd k
Below-drop (x ∷ y ∷ u) (z ∷ w ∷ v) b k e = cc

-- Two entries whose far ends both contain the mapped path: going back through the longer one gives
-- the path that came in.
module _ (d : Direction) (a b : PathMapping) (alike : NestAlike a b) (ha : IsMapping a)
    (hb : IsMapping b) where
  back :
      (p q s s' : Str)
      → IsPath p
      → IsPath q
      → Below s
      → Below s'
      → base p ≡ base (ends d a).0 ++ s
      → base q ≡ base (ends d a).1 ++ s
      → base q ≡ base (ends d b).1 ++ s'
      → length (ends d a).1 ≤ length (ends d b).1
      → replace_root ((ends d b).1, (ends d b).0) q ≡ p
  back p q s s' hp hq below below' from_a to_a to_b longest =
      let (fa, ta) = IsPath-ends d a ha in
      let (fb, tb) = IsPath-ends d b hb in
      let (u, more, split) =
        common_start (base (ends d a).1) (base (ends d b).1) s s' (sym to_a ∙ to_b)
          (base-le (ends d a).1 (ends d b).1 ta tb longest) in
      let below_u = Below-added (ends d b).1 (base (ends d a).1) u s' s tb more split below in
      let nested = within_intro (ends d a).1 (ends d b).1 u ta tb below_u more in
      let (near, same) = nest_ends d a b alike nested in
      let (v, below_v, near_more) = within_elim (ends d a).0 (ends d b).0 fa fb near in
      let equal : v ≡ u = Below-drop v u below_v below_u (
        sym (relative_to_lem (ends d a).0 (ends d b).0 v fa fb below_v near_more)
        ∙ same
        ∙ relative_to_lem (ends d a).1 (ends d b).1 u ta tb below_u more) in
      let (is_path, under) = replace_root_lem (ends d b).1 (ends d b).0 q s' tb fb hq below' to_b in
      base_injective _ p is_path hp (
        under
        ∙ ap (λ z. z ++ s') (near_more ∙ ap (λ z. base (ends d a).0 ++ z) equal)
        ∙ append_assoc (base (ends d a).0) u s'
        ∙ ap (λ z. base (ends d a).0 ++ z) (sym split)
        ∙ sym from_a)

ends-opposite :
    (d : Direction) (e : PathMapping) → ends (opposite d) e ≡ ((ends d e).1, (ends d e).0)
ends-opposite to_node e = refl
ends-opposite to_server e = refl

map_path-entry :
    (map : List PathMapping) (d : Direction) (p q : Str)
    → map_path map p d ≡ some q
    → (e : PathMapping) × Memᴰ e map
      × (within (ends d e).0 p ≡ true)
      × (replace_root (ends d e) p ≡ q)
unfolding map_path
map_path-entry map d p q h = elim (Option-cases (best_from d p none map)) [
  | inl absent ↦ cc (rw (absent, map_path) at h)
  | inr (r, found) ↦ elim (best_from-entry d p none map r found) [
    | inl wrong ↦ cc
    | inr (e, m, same, w) ↦ (e, m, w, rw same (cc (rw (found, map_path) at h)))
  ]
]

map_path_back :
    (map : List PathMapping) (d : Direction) (p q : Str)
    → IsConsistent map
    → IsPath p
    → map_path map p d ≡ some q
    → map_path map q (opposite d) ≡ some p
unfolding map_path
map_path_back map d p q ok_map hp h =
    let (a, ma, wa, qa) = map_path-entry map d p q h in
    let ha = All-mem IsMapping map ok_map.mappings ma in
    let (fa, ta) = IsPath-ends d a ha in
    let (s, below, from_a) = within_elim (ends d a).0 p fa hp wa in
    let (is_path, under) = replace_root_lem (ends d a).0 (ends d a).1 p s fa ta hp below from_a in
    let hq : IsPath q = subst IsPath qa is_path in
    let to_a : base q ≡ base (ends d a).1 ++ s = ap base (sym qa) ∙ under in
    let contains : within (ends (opposite d) a).0 q ≡ true =
      rw (ends-opposite d a) (within_intro (ends d a).1 q s ta hq below to_a) in
    let (r, found, longest) = best_from-longest (opposite d) q none map a ma contains in
    elim (best_from-entry (opposite d) q none map r found) [
      | inl wrong ↦ cc
      | inr (b, mb, same, wb) ↦
          let hb = All-mem IsMapping map ok_map.mappings mb in
          let (fb, tb) = IsPath-ends d b hb in
          let ends_b : r ≡ ((ends d b).1, (ends d b).0) = sym same ∙ ends-opposite d b in
          let (s', below', to_b) =
            within_elim (ends d b).1 q tb hq (rw (ends-opposite d b) at wb) in
          let le : length (ends d a).1 ≤ length (ends d b).1 =
            rw (ends-opposite d a, ends_b) at longest in
          let home =
            back d a b (ok_map.nest_alike a b ma mb) ha hb p q s s' hp hq below below' from_a to_a
              to_b le in
          rw (found, map_path) (rw ends_b (ap some home))
    ]

-- For every path map that validation accepts: a path that is mapped to the other side is mapped back
-- to itself, in both directions. The path is absolute and, unless it is the root, does not end with
-- a slash.
pub map_path_round_trip :
    (raw : Option (List (Option Str × Option Str))) (map : List PathMapping) (d : Direction)
    (p q : Str)
    → validate_path_map raw ≡ accepted map
    → IsPath p
    → map_path map p d ≡ some q
    → map_path map q (opposite d) ≡ some p
map_path_round_trip raw map d p q valid hp h =
    map_path_back map d p q (validate_path_map-IsConsistent raw map valid) hp h

-- A path is left unmapped exactly if no entry of the map contains it.
pub map_path-none_iff :
    (map : List PathMapping) (d : Direction) (p : Str)
    → (map_path map p d ≡ none) ↔ ((e : PathMapping) → Memᴰ e map → within (ends d e).0 p ≡ false)
unfolding map_path
map_path-none_iff map d p = (
  λ h e m. elim (Bool-cases (within (ends d e).0 p)) [
    | inr f ↦ f
    | inl w ↦
        let (r, found, le) = best_from-longest d p none map e m w in cc (rw (found, map_path) at h)
  ],
  λ all. elim (Option-cases (best_from d p none map)) [
    | inl absent ↦ rw (absent, map_path) refl
    | inr (r, found) ↦ elim (best_from-entry d p none map r found) [
      | inl wrong ↦ cc
      | inr (e, m, same, w) ↦ cc (all e m, w)
    ]
  ],
)
