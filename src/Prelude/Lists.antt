-- ===== src/Prelude/Lists.antt =====
-- Lists measured by native numbers, and the searches that JavaScript's arrays offer
-- (`some`, `every`, `find`, `filter`, `includes`).
use Prim.Native.Nat.{ℕ, zero, suc, ◌+◌}
use mathlib.Core.Path.{◌≡◌, refl}
use mathlib.Core.Logic.{inl, inr}
use mathlib.Core.Bool.{Bool, true, false, ◌&&◌, ◌||◌}
use mathlib.Core.Option.{Option, none, some}
use mathlib.Core.List.{List, [], ◌∷◌, ◌++◌, Memᴰ}
use native.Mathlib.Omega.{arith}
use trawlarr.Prelude.Tests.{if◌then◌else◌, Bool-cases}

module _ {ℓ} {A : Type ℓ} where
  abbrev pub length : List A → ℕ
  length [] = 0
  length (x ∷ xs) = suc (length xs)

  pub length-append : (xs ys : List A) → length (xs ++ ys) ≡ length xs + length ys
  length-append [] ys = omega arith
  length-append (x ∷ xs) ys = omega (arith, length-append xs ys)

  abbrev pub drop : ℕ → List A → List A
  drop zero xs = xs
  drop (suc n) [] = []
  drop (suc n) (x ∷ xs) = drop n xs

  pub drop-append : (xs ys : List A) → drop (length xs) (xs ++ ys) ≡ ys
  drop-append [] ys = refl
  drop-append (x ∷ xs) ys = drop-append xs ys

  pub append-cancel_left : (xs ys zs : List A) → xs ++ ys ≡ xs ++ zs → ys ≡ zs
  append-cancel_left [] ys zs e = e
  append-cancel_left (x ∷ xs) ys zs e = append-cancel_left xs ys zs (cc)

  -- `xs.some(p)`
  abbrev pub any : (A → Bool) → List A → Bool
  any p [] = false
  any p (x ∷ xs) = p x || any p xs

  -- `xs.every(p)`
  abbrev pub all : (A → Bool) → List A → Bool
  all p [] = true
  all p (x ∷ xs) = p x && all p xs

  -- `xs.find(p)`
  unfoldable pub find : (A → Bool) → List A → Option A
  find p [] = none
  find p (x ∷ xs) = if p x then some x else find p xs

  -- `xs.filter(p)`
  unfoldable pub filter : (A → Bool) → List A → List A
  filter p [] = []
  filter p (x ∷ xs) = if p x then x ∷ filter p xs else filter p xs

  abbrev pub All {κ} : (A → Type κ) → List A → Type κ
  All P [] = Unit
  All P (x ∷ xs) = P x × All P xs

  pub All-mem {κ} : (P : A → Type κ) {x : A} (xs : List A) → All P xs → Memᴰ x xs → P x
  All-mem P [] h m = elim m [ ]
  All-mem P (y ∷ xs) (p, h) (Memᴰ.head e) = rw e p
  All-mem P (y ∷ xs) (p, h) (Memᴰ.tail m) = All-mem P xs h m

  pub All-mem_intro {κ} : (P : A → Type κ) (xs : List A) → ((x : A) → Memᴰ x xs → P x) → All P xs
  All-mem_intro P [] h = tt
  All-mem_intro P (x ∷ xs) h = (h x (Memᴰ.head refl), All-mem_intro P xs (λ y m. h y (Memᴰ.tail m)))

  pub find-some :
      (p : A → Bool) (xs : List A) {x : A} → find p xs ≡ some x → (p x ≡ true) × Memᴰ x xs
  unfolding find
  find-some p [] e = cc
  find-some p (y ∷ xs) {x} e = elim (Bool-cases (p y)) [
    | inl t ↦ let same : y ≡ x = cc (rw (t, find) at e) in (rw (← same) t, Memᴰ.head (rw same))
    | inr f ↦ let (q, m) = find-some p xs (rw (f, find) at e) in (q, Memᴰ.tail m)
  ]

  pub find-none : (p : A → Bool) (xs : List A) → find p xs ≡ none → All (λ x. p x ≡ false) xs
  unfolding find
  find-none p [] e = tt
  find-none p (y ∷ xs) e = elim (Bool-cases (p y)) [
    | inl t ↦ cc (rw (t, find) at e)
    | inr f ↦ (f, find-none p xs (rw (f, find) at e))
  ]

  pub any_none : (p : A → Bool) (xs : List A) → any p xs ≡ false → All (λ x. p x ≡ false) xs
  any_none p [] e = tt
  any_none p (x ∷ xs) e = (ground arith, any_none p xs (ground arith))

  pub any_some : (p : A → Bool) (xs : List A) → any p xs ≡ true → (x : A) × Memᴰ x xs × (p x ≡ true)
  any_some p [] e = cc
  any_some p (x ∷ xs) e = elim (Bool-cases (p x)) [
    | inl t ↦ (x, Memᴰ.head refl, t)
    | inr f ↦ let (y, m, q) = any_some p xs (ground arith) in (y, Memᴰ.tail m, q)
  ]
