-- ===== src/PathMap/Moves.antt =====
-- What `relativeTo` and the end of `mapPath` compute, in terms of what lies below a root.
use mathlib.Core.List.{append-nil}
use trawlarr.Prelude.{
  ℕ, suc, ◌+◌, ◌≡◌, ◌≢◌, refl, sym, ap, subst, ◌∙◌, true, false, [], ◌∷◌, ◌++◌, Str, str_eq,
  str_eq_iff, str_eq_ne, if◌then◌else◌, drop, length, append-cancel_left, arith,
}
use trawlarr.PathMap.{slash, root_path, relative_to, replace_root}
use trawlarr.PathMap.Paths.{IsPath, NoTrail, base, Below, base_injective, base_long}

drop-past : (r : Str) (x : ℕ) (t : Str) → drop (length r + 1) (r ++ x ∷ t) ≡ t
drop-past r x t = let n : length r + 1 ≡ suc (length r) = omega arith in rw n (past r)
  where
    past : (r : Str) → drop (suc (length r)) (r ++ x ∷ t) ≡ t
    past [] = refl
    past (a ∷ r) = past r

nothing_below : (root s : Str) → base root ≡ base root ++ s → s ≡ []
nothing_below root s e = append-cancel_left (base root) s [] (sym e ∙ sym (append-nil (base root)))

-- The path from its base, where something lies below the root.
path_below :
    (root path : Str) (x y : ℕ) (s : Str)
    → base path ≡ base root ++ x ∷ y ∷ s
    → path ≡ base root ++ x ∷ y ∷ s
path_below root path x y s e = base_long path (nonempty (base root) e) ∙ e
  where
    nonempty : (r : Str) → base path ≡ r ++ x ∷ y ∷ s → base path ≢ []
    nonempty [] e z = cc
    nonempty (a ∷ r) e z = cc

long_ne_root : (c d : ℕ) (r : Str) → str_eq (c ∷ d ∷ r) root_path ≡ false
unfolding str_eq
long_ne_root c d r = ground arith

abbrev cut : Str → Str → Str
cut root path = if str_eq root root_path then drop 1 path else drop (length root + 1) path

-- The slice behind a root and its slash.
cut_lem :
    (root path : Str) (x y : ℕ) (s : Str)
    → IsPath root
    → base path ≡ base root ++ x ∷ y ∷ s
    → cut root path ≡ y ∷ s
cut_lem [] path x y s h e = absurd h
cut_lem (c ∷ []) path x y s h e =
    let is_root : str_eq (c ∷ []) root_path ≡ true =
      (str_eq_iff (c ∷ []) root_path).1 (ap (λ z. z ∷ []) h) in
    rw is_root (rw (path_below (c ∷ []) path x y s e) refl)
cut_lem (c ∷ d ∷ r) path x y s h e =
    rw (long_ne_root c d r)
      (rw (path_below (c ∷ d ∷ r) path x y s e) (drop-past (c ∷ d ∷ r) x (y ∷ s)))

ne_root : (root path : Str) (x y : ℕ) (s : Str) → base path ≡ base root ++ x ∷ y ∷ s → path ≢ root
ne_root root path x y s e same =
    let z = nothing_below root (x ∷ y ∷ s) (ap base (sym same) ∙ e) in cc

pub relative_to_lem :
    (root path s : Str)
    → IsPath root
    → IsPath path
    → Below s
    → base path ≡ base root ++ s
    → relative_to root path ≡ drop 1 s
unfolding relative_to
relative_to_lem root path [] h k b e =
    let same : path ≡ root = base_injective path root k h (e ∙ append-nil (base root)) in
    rw ((str_eq_iff path root).1 same) refl
relative_to_lem root path (x ∷ []) h k b e = absurd b
relative_to_lem root path (x ∷ y ∷ s) h k b e =
    rw (str_eq_ne path root (ne_root root path x y s e)) (cut_lem root path x y s h e)

NoTrail-end : (r : Str) (x y : ℕ) (s : Str) → NoTrail (r ++ x ∷ y ∷ s) → NoTrail (y ∷ s)
NoTrail-end [] x y s h = h
NoTrail-end (a ∷ []) x y s h = h
NoTrail-end (a ∷ b ∷ r) x y s h = NoTrail-end (b ∷ r) x y s h

NoTrail-extend : (r : Str) (x y : ℕ) (s : Str) → NoTrail (y ∷ s) → NoTrail (r ++ x ∷ y ∷ s)
NoTrail-extend [] x y s h = h
NoTrail-extend (a ∷ []) x y s h = h
NoTrail-extend (a ∷ b ∷ r) x y s h = NoTrail-extend (b ∷ r) x y s h

IsPath-end : (root : Str) (x y : ℕ) (s : Str) → IsPath (base root ++ x ∷ y ∷ s) → NoTrail (y ∷ s)
IsPath-end [] x y s h = h.1
IsPath-end (c ∷ []) x y s h = h.1
IsPath-end (c ∷ d ∷ r) x y s h = NoTrail-end (d ∷ r) x y s h.1

IsPath-extend :
    (root : Str) (x y : ℕ) (s : Str)
    → IsPath root
    → x ≡ slash
    → NoTrail (y ∷ s)
    → IsPath (base root ++ x ∷ y ∷ s)
IsPath-extend [] x y s h p n = absurd h
IsPath-extend (c ∷ []) x y s h p n = (p, n)
IsPath-extend (c ∷ d ∷ r) x y s h p n = (h.0, NoTrail-extend (d ∷ r) x y s n)

base_extended :
    (root : Str) (x y : ℕ) (s : Str) → base (base root ++ x ∷ y ∷ s) ≡ base root ++ x ∷ y ∷ s
base_extended [] x y s = refl
base_extended (c ∷ []) x y s = refl
base_extended (c ∷ d ∷ r) x y s = refl

-- Joining a root and what lies below it.
joined :
    (to rest : Str)
    → IsPath to
    → (if str_eq to root_path then slash ∷ rest else to ++ slash ∷ rest) ≡ base to ++ slash ∷ rest
joined [] rest h = absurd h
joined (c ∷ []) rest h = rw ((str_eq_iff (c ∷ []) root_path).1 (ap (λ z. z ∷ []) h)) refl
joined (c ∷ d ∷ r) rest h = rw (long_ne_root c d r) refl

-- The end of `mapPath` puts the new root above what lay below the old one.
pub replace_root_lem :
    (from to path s : Str)
    → IsPath from
    → IsPath to
    → IsPath path
    → Below s
    → base path ≡ base from ++ s
    → IsPath (replace_root (from, to) path) × (base (replace_root (from, to) path) ≡ base to ++ s)
unfolding replace_root
replace_root_lem from to path [] h g k b e =
    let same : path ≡ from = base_injective path from k h (e ∙ append-nil (base from)) in
    rw ((str_eq_iff path from).1 same) (g, sym (append-nil (base to)))
replace_root_lem from to path (x ∷ []) h g k b e = absurd b
replace_root_lem from to path (x ∷ y ∷ s) h g k b e =
    let ends = IsPath-end from x y s (subst IsPath (path_below from path x y s e) k) in
    let whole : replace_root (from, to) path ≡ base to ++ x ∷ y ∷ s =
      rw (str_eq_ne path from (ne_root from path x y s e)) (
        rw (cut_lem from path x y s h e)
          (joined to (y ∷ s) g ∙ ap (λ z. base to ++ z ∷ y ∷ s) (sym b))) in
    (
      subst IsPath (sym whole) (IsPath-extend to x y s g b ends),
      ap base whole ∙ base_extended to x y s,
    )
