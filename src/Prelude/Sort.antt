-- ===== src/Prelude/Sort.antt =====
-- `xs.sort(...)` by a string key. JavaScript's sort is stable, so insertion from the back gives its
-- result; with distinct keys the result does not depend on the order of `xs`.
use mathlib.Core.Path.{◌≡◌, refl, sym, ap, subst, ◌∙◌}
use mathlib.Core.Logic.{◌≢◌}
use mathlib.Core.List.{List, [], ◌∷◌, Permᴰ}
use native.Mathlib.Omega.{arith}
use trawlarr.Prelude.Tests.{if◌then◌else◌}
use trawlarr.Prelude.Lists.{All}
use trawlarr.Prelude.Text.{Str, str_lt, str_lt_trans, str_lt_total, str_lt_irrefl}

module _ {ℓ} {A : Type ℓ} (key : A → Str) where
  pub insert_by : A → List A → List A
  insert_by x [] = x ∷ []
  insert_by x (y ∷ ys) = if str_lt (key y) (key x) then y ∷ insert_by x ys else x ∷ y ∷ ys

  unfoldable pub sort_by : List A → List A
  unfolding insert_by
  sort_by [] = []
  sort_by (x ∷ xs) = insert_by x (sort_by xs)

  abbrev pub HasDistinctKeys : List A → Type ℓ
  HasDistinctKeys [] = Unit
  HasDistinctKeys (x ∷ xs) = All (λ y. key x ≢ key y) xs × HasDistinctKeys xs

  insert_by_comm :
      (x y : A) (l : List A)
      → key x ≢ key y
      → insert_by x (insert_by y l) ≡ insert_by y (insert_by x l)
  unfolding insert_by
  insert_by_comm x y [] n = ground (
    arith,
    str_lt_total (key x) (key y),
    str_lt_trans (key x) (key y) (key x),
    str_lt_irrefl (key x),
  )
  insert_by_comm x y (z ∷ l) n = ground (
    arith,
    insert_by_comm x y l n,
    str_lt_total (key x) (key y),
    str_lt_trans (key x) (key y) (key x),
    str_lt_irrefl (key x),
    str_lt_trans (key x) (key z) (key y),
    str_lt_trans (key y) (key z) (key x),
    str_lt_trans (key z) (key x) (key y),
    str_lt_trans (key z) (key y) (key x),
  )

  All-Permᴰ {κ} : (P : A → Type κ) {xs ys : List A} → Permᴰ xs ys → All P xs → All P ys
  All-Permᴰ P Permᴰ.nil h = h
  All-Permᴰ P (Permᴰ.cons e p) (h, hs) = (rw (← e) h, All-Permᴰ P p hs)
  All-Permᴰ P (Permᴰ.swap e f) (h, (k, hs)) = (rw (← f) k, (rw (← e) h, hs))
  All-Permᴰ P (Permᴰ.trans p q) h = All-Permᴰ P q (All-Permᴰ P p h)

  avoids :
      {a b : A} → a ≡ b → (l : List A) → All (λ y. key a ≢ key y) l → All (λ y. key b ≢ key y) l
  avoids e l = subst (λ z. All (λ y. key z ≢ key y) l) e

  pub HasDistinctKeys-Permᴰ :
      {xs ys : List A} → Permᴰ xs ys → HasDistinctKeys xs → HasDistinctKeys ys
  HasDistinctKeys-Permᴰ Permᴰ.nil d = d
  HasDistinctKeys-Permᴰ (Permᴰ.cons e p) (n, d) =
      (avoids e _ (All-Permᴰ _ p n), HasDistinctKeys-Permᴰ p d)
  HasDistinctKeys-Permᴰ (Permᴰ.swap e f) ((n, ns), (ms, d)) =
      ((λ q. n (ap key e ∙ sym q ∙ ap key (sym f)), avoids f _ ms), (avoids e _ ns, d))
  HasDistinctKeys-Permᴰ (Permᴰ.trans p q) d = HasDistinctKeys-Permᴰ q (HasDistinctKeys-Permᴰ p d)

  -- The sorted list forgets the order in which the elements came.
  pub sort_by-Permᴰ : {xs ys : List A} → Permᴰ xs ys → HasDistinctKeys xs → sort_by xs ≡ sort_by ys
  unfolding sort_by
  sort_by-Permᴰ Permᴰ.nil d = refl
  sort_by-Permᴰ (Permᴰ.cons e p) (n, d) = rw (e, sort_by-Permᴰ p d)
  sort_by-Permᴰ (Permᴰ.swap {a} {b} {l} e f) ((n, ns), (ms, d)) =
      insert_by_comm a b (sort_by l) n ∙ rw (e, f)
  sort_by-Permᴰ (Permᴰ.trans p q) d =
      sort_by-Permᴰ p d ∙ sort_by-Permᴰ q (HasDistinctKeys-Permᴰ p d)
