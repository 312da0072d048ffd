-- ===== src/PathMap/Paths.antt =====
-- Absolute paths without a trailing slash, split into a root and what lies below it.
use mathlib.Core.List.{reverse, reverse-cons, reverse-append, append-nil, append_assoc}
use trawlarr.Prelude.{
  ℕ, ◌≡◌, ◌≢◌, refl, sym, ap, subst, ◌∙◌, inl, inr, true, false, List, [], ◌∷◌, ◌++◌, Str,
  str_eq_iff, str_eq-cases, starts_with, starts_with_sound, starts_with-append, drop, length, arith,
  ◌==◌, Bool-cases,
}
use trawlarr.PathMap.{slash, root_path, strip, trim_trailing, within}

abbrev pub NoTrail : Str → Type 0
NoTrail [] = Unit
NoTrail (c ∷ []) = c ≢ slash
NoTrail (c ∷ d ∷ s) = NoTrail (d ∷ s)

-- `/`, or a path that starts with a slash and does not end with one.
abbrev pub IsPath : Str → Type 0
IsPath [] = ⊥
IsPath (c ∷ []) = c ≡ slash
IsPath (c ∷ d ∷ s) = (c ≡ slash) × NoTrail (d ∷ s)

-- The path with the root's slash left out, so that `base root ++ below` is the path again.
abbrev pub base : Str → Str
base [] = []
base (c ∷ []) = []
base (c ∷ d ∷ s) = c ∷ d ∷ s

-- What may follow a root: nothing, or a slash and at least one character.
abbrev pub Below : Str → Type 0
Below [] = Unit
Below (c ∷ []) = ⊥
Below (c ∷ d ∷ s) = c ≡ slash

NoTrail-snoc : (s : Str) (c : ℕ) → c ≢ slash → NoTrail (s ++ c ∷ [])
NoTrail-snoc [] c n = n
NoTrail-snoc (a ∷ []) c n = n
NoTrail-snoc (a ∷ b ∷ s) c n = NoTrail-snoc (b ∷ s) c n

IsPath-snoc : (s : Str) (c : ℕ) → c ≢ slash → IsPath (slash ∷ (s ++ c ∷ []))
IsPath-snoc [] c n = (refl, n)
IsPath-snoc (a ∷ s) c n = (refl, NoTrail-snoc (a ∷ s) c n)

reverse-rooted : (c : ℕ) (l : Str) → reverse (c ∷ (l ++ root_path)) ≡ slash ∷ (reverse l ++ c ∷ [])
reverse-rooted c l = reverse-append (c ∷ l) root_path ∙ ap (λ t. slash ∷ t) (reverse-cons c l)

strip_kept : (c d : ℕ) (s : Str) → (c == slash) ≡ false → strip (c ∷ d ∷ s) ≡ c ∷ d ∷ s
unfolding strip
strip_kept c d s n = rw n

strip_dropped : (c d : ℕ) (s : Str) → (c == slash) ≡ true → strip (c ∷ d ∷ s) ≡ strip (d ∷ s)
unfolding strip
strip_dropped c d s e = rw e

-- What `strip` leaves of a reversed path that ends with the slash of the root.
strip-snoc : (s : Str) → IsPath (reverse (strip (s ++ root_path)))
unfolding strip
strip-snoc [] = refl
strip-snoc (c ∷ []) = elim (Bool-cases (c == slash)) [
  | inl e ↦ subst (λ t. IsPath (reverse t)) (sym (strip_dropped c slash [] e)) refl
  | inr n ↦
      subst (λ t. IsPath (reverse t)) (sym (strip_kept c slash [] n)) (refl, λ e. ground arith)
]
strip-snoc (c ∷ d ∷ s) = elim (Bool-cases (c == slash)) [
  | inl e ↦
      subst (λ t. IsPath (reverse t)) (sym (strip_dropped c d (s ++ root_path) e))
        (strip-snoc (d ∷ s))
  | inr n ↦
      subst (λ t. IsPath (reverse t)) (sym (strip_kept c d (s ++ root_path) n))
        (subst IsPath (sym (reverse-rooted c (d ∷ s)))
          (IsPath-snoc (reverse (d ∷ s)) c (λ e. ground arith)))
]

pub trim_trailing-IsPath : (s : Str) → IsPath (trim_trailing (slash ∷ s))
unfolding trim_trailing
trim_trailing-IsPath s =
    subst (λ t. IsPath (reverse (strip t))) (sym (reverse-cons slash s)) (strip-snoc (reverse s))

pub base_long : (p : Str) → base p ≢ [] → p ≡ base p
base_long [] n = refl
base_long (c ∷ []) n = absurd (n refl)
base_long (c ∷ d ∷ p) n = refl

cons_ne_nil {ℓ} : {A : Type ℓ} (x : A) (xs : List A) → x ∷ xs ≢ []
cons_ne_nil x xs e = cc

-- The base of a path determines it.
pub base_injective : (p q : Str) → IsPath p → IsPath q → base p ≡ base q → p ≡ q
base_injective [] q h k e = absurd h
base_injective (c ∷ []) [] h k e = absurd k
base_injective (c ∷ []) (d ∷ []) h k e = cc
base_injective (c ∷ []) (d ∷ d' ∷ q) h k e = cc
base_injective (c ∷ c' ∷ p) [] h k e = absurd k
base_injective (c ∷ c' ∷ p) (d ∷ []) h k e = cc
base_injective (c ∷ c' ∷ p) (d ∷ d' ∷ q) h k e = e

pub NoTrail-slash : (s : Str) → ¬ NoTrail (s ++ root_path)
NoTrail-slash [] h = h refl
NoTrail-slash (a ∷ []) h = h refl
NoTrail-slash (a ∷ b ∷ s) h = NoTrail-slash (b ∷ s) h

Below-base : (p : Str) → IsPath p → Below (base p)
Below-base [] h = tt
Below-base (c ∷ []) h = tt
Below-base (c ∷ d ∷ p) h = h.0

append_slash : (r s : Str) → (r ++ root_path) ++ s ≡ r ++ slash ∷ s
append_slash r s = append_assoc r root_path s

pub within_intro :
    (root path s : Str)
    → IsPath root
    → IsPath path
    → Below s
    → base path ≡ base root ++ s
    → within root path ≡ true
unfolding within
within_intro [] path s h k b e = absurd h
within_intro (c ∷ []) path s h k b e =
    ground (arith, str_eq_iff (c ∷ []) root_path, ap (λ z. z ∷ []) h)
within_intro (c ∷ d ∷ r) path [] h k b e =
    let same : path ≡ c ∷ d ∷ r =
      base_long path (λ z. cons_ne_nil c (d ∷ (r ++ [])) (sym e ∙ z))
      ∙ e
      ∙ append-nil (c ∷ d ∷ r) in
    ground (arith, (str_eq_iff path (c ∷ d ∷ r)).1 same)
within_intro (c ∷ d ∷ r) path (x ∷ []) h k b e = absurd b
within_intro (c ∷ d ∷ r) path (x ∷ y ∷ s) h k b e =
    let whole : path ≡ (c ∷ d ∷ r) ++ x ∷ y ∷ s =
      base_long path (λ z. cons_ne_nil c (d ∷ (r ++ x ∷ y ∷ s)) (sym e ∙ z)) ∙ e in
    let parts : path ≡ ((c ∷ d ∷ r) ++ root_path) ++ y ∷ s =
      whole ∙ ap (λ z. (c ∷ d ∷ r) ++ z ∷ y ∷ s) b ∙ sym (append_slash (c ∷ d ∷ r) (y ∷ s)) in
    let starts : starts_with path ((c ∷ d ∷ r) ++ root_path) ≡ true =
      rw parts (starts_with-append ((c ∷ d ∷ r) ++ root_path) (y ∷ s)) in
    ground (arith, starts)

pub within_elim :
    (root path : Str)
    → IsPath root
    → IsPath path
    → within root path ≡ true
    → (s : Str) × Below s × (base path ≡ base root ++ s)
unfolding within
within_elim [] path h k w = absurd h
within_elim (c ∷ []) path h k w = (base path, Below-base path k, refl)
within_elim (c ∷ d ∷ r) path h k w = elim (str_eq-cases path (c ∷ d ∷ r)) [
  | inl (same, t) ↦ ([], tt, ap base same ∙ sym (append-nil (c ∷ d ∷ r)))
  | inr (other, f) ↦
      let starts : starts_with path ((c ∷ d ∷ r) ++ root_path) ≡ true =
        ground (arith, str_eq_iff (c ∷ d ∷ r) root_path) in
      let rest = drop (length ((c ∷ d ∷ r) ++ root_path)) path in
      let whole : path ≡ (c ∷ d ∷ r) ++ slash ∷ rest =
        starts_with_sound path ((c ∷ d ∷ r) ++ root_path) starts ∙ append_slash (c ∷ d ∷ r) rest in
      (slash ∷ rest, below rest (subst IsPath whole k), ap base whole)
]
  where
    below : (rest : Str) → IsPath ((c ∷ d ∷ r) ++ slash ∷ rest) → Below (slash ∷ rest)
    below [] (p, t) = absurd (NoTrail-slash (d ∷ r) t)
    below (x ∷ rest) p = refl
