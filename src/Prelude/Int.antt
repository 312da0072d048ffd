-- ===== src/Prelude/Int.antt =====
-- Integers, and the decimal text that JavaScript gives an integer (`String(n)`, `JSON.stringify(n)`).
-- The program's numbers are integers of magnitude below 10^21 wherever they are printed, so no
-- exponent form arises.
use Prim.Native.Nat.{ℕ, zero, suc, ◌+◌, ◌-◌, ◌*◌, ◌/◌, ◌%◌, ◌≤◌, ◌<◌}
use mathlib.Core.Path.{◌≡◌, sym, ap, ◌∙◌}
use mathlib.Core.Bool.{Bool, true, false}
use mathlib.Core.Logic.{inl, inr}
use mathlib.Core.List.{[], ◌∷◌}
use native.Mathlib.Omega.{arith}
use trawlarr.Prelude.Tests.{if◌then◌else◌, ltb, leb, ◌==◌, Bool-cases}
use trawlarr.Prelude.Lists.{All}
use trawlarr.Prelude.Text.{Str}

-- `negsuc n` is -(n + 1).
pub data ℤ : Type 0 where
  pos : ℕ → ℤ
  negsuc : ℕ → ℤ

-- a - b, as an integer.
unfoldable pub sub_ℕ : ℕ → ℕ → ℤ
sub_ℕ a b = if leb b a then pos (a - b) else negsuc (b - a - 1)

unfoldable pub int_eq : ℤ → ℤ → Bool
int_eq (pos a) (pos b) = a == b
int_eq (negsuc a) (negsuc b) = a == b
int_eq _ _ = false

pub int_eq_sound : (a b : ℤ) → int_eq a b ≡ true → a ≡ b
unfolding int_eq
int_eq_sound (pos a) (pos b) h = ground arith
int_eq_sound (negsuc a) (negsuc b) h = ground arith
int_eq_sound (pos a) (negsuc b) h = cc
int_eq_sound (negsuc a) (pos b) h = cc

pub int_eq_refl : (a : ℤ) → int_eq a a ≡ true
unfolding int_eq
int_eq_refl (pos a) = ground arith
int_eq_refl (negsuc a) = ground arith

digits_from : ℕ → ℕ → Str → Str
digits_from zero n acc = acc
digits_from (suc f) n acc =
    let more = digits_from f (n / 10) ((48 + n % 10) ∷ acc) in
    if ltb n 10 then (48 + n) ∷ acc else more

unfoldable pub decimal : ℕ → Str
unfolding digits_from
decimal n = digits_from (suc n) n []

unfoldable pub int_text : ℤ → Str
unfolding decimal
int_text (pos n) = decimal n
int_text (negsuc n) = b'-' ∷ decimal (n + 1)

-- Reading the digits back.
value_from : ℕ → Str → ℕ
value_from acc [] = acc
value_from acc (c ∷ s) = value_from (acc * 10 + (c - 48)) s

value-digits_from :
    (f n : ℕ) (acc : Str) → n < f → value_from 0 (digits_from f n acc) ≡ value_from n acc
unfolding digits_from value_from
value-digits_from zero n acc h = elim h [ ]
value-digits_from (suc f) n acc h = elim (Bool-cases (ltb n 10)) [
  | inl small ↦ rw small (ap (λ k. value_from k acc) (omega arith))
  | inr big ↦ rw big (
      value-digits_from f (n / 10) ((48 + n % 10) ∷ acc) (ground arith)
      ∙ ap (λ k. value_from k acc) (omega arith))
]

value-decimal : (n : ℕ) → value_from 0 (decimal n) ≡ n
unfolding decimal value_from
value-decimal n = value-digits_from (suc n) n [] (omega arith)

pub decimal_injective : (m n : ℕ) → decimal m ≡ decimal n → m ≡ n
decimal_injective m n e = sym (value-decimal m) ∙ ap (value_from 0) e ∙ value-decimal n

abbrev pub IsDigit : ℕ → Type 0
IsDigit c = (48 ≤ c) × (c ≤ 57)

digits_from-IsDigit : (f n : ℕ) (acc : Str) → All IsDigit acc → All IsDigit (digits_from f n acc)
unfolding digits_from
digits_from-IsDigit zero n acc h = h
digits_from-IsDigit (suc f) n acc h = elim (Bool-cases (ltb n 10)) [
  | inl small ↦ rw small (ground arith, h)
  | inr big ↦ rw big (digits_from-IsDigit f (n / 10) ((48 + n % 10) ∷ acc) (omega arith, h))
]

pub decimal-IsDigit : (n : ℕ) → All IsDigit (decimal n)
unfolding decimal
decimal-IsDigit n = digits_from-IsDigit (suc n) n [] tt

no_space_of_IsDigit : (s : Str) → All IsDigit s → All (λ c. ¬ (c ≡ 32)) s
no_space_of_IsDigit [] h = tt
no_space_of_IsDigit (c ∷ s) (d, h) = (omega arith, no_space_of_IsDigit s h)

-- No character of a printed integer is a space.
pub int_text_no_space : (a : ℤ) → All (λ c. ¬ (c ≡ 32)) (int_text a)
unfolding int_text
int_text_no_space (pos n) = no_space_of_IsDigit (decimal n) (decimal-IsDigit n)
int_text_no_space (negsuc n) =
    (omega arith, no_space_of_IsDigit (decimal (n + 1)) (decimal-IsDigit (n + 1)))

minus_not_digits : (s t : Str) → All IsDigit s → s ≡ b'-' ∷ t → ⊥
minus_not_digits [] t h e = cc
minus_not_digits (c ∷ s) t (d, h) e = ground arith

pub int_text_injective : (a b : ℤ) → int_text a ≡ int_text b → a ≡ b
unfolding int_text
int_text_injective (pos a) (pos b) e = ap pos (decimal_injective a b e)
int_text_injective (pos a) (negsuc b) e = absurd (minus_not_digits _ _ (decimal-IsDigit a) e)
int_text_injective (negsuc a) (pos b) e = absurd (minus_not_digits _ _ (decimal-IsDigit b) (sym e))
int_text_injective (negsuc a) (negsuc b) e =
    ap negsuc (omega (arith, decimal_injective (a + 1) (b + 1) (cc)))
