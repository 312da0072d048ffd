-- ===== src/Disk/Names.antt =====
-- What a name stands for after a name was removed or given.
use trawlarr.Prelude.{
  ◌≡◌, ◌≢◌, refl, sym, ap, ◌∙◌, inl, inr, false, none, some, [], ◌∷◌, Str, str_eq, str_eq_refl,
  str_eq_sound, str_eq_ne, Bool-cases,
}
use trawlarr.Disk.{Node, Disk, lookup, remove, put}

pub lookup-remove_other : (d : Disk) (p q : Str) → q ≢ p → lookup (remove d q) p ≡ lookup d p
lookup-remove_other [] p q h = refl
lookup-remove_other ((r, n) ∷ d) p q h = elim (Bool-cases (str_eq r q)) [
  | inl t ↦
      let other : str_eq r p ≡ false = str_eq_ne r p (λ e. h (sym (str_eq_sound r q t) ∙ e)) in
      rw (t, other) (lookup-remove_other d p q h)
  | inr f ↦ elim (Bool-cases (str_eq r p)) [
    | inl t ↦ rw (f, t) refl
    | inr g ↦ rw (f, g) (lookup-remove_other d p q h)
  ]
]

pub lookup-put_same : (d : Disk) (p : Str) (n : Node) → lookup (put d p n) p ≡ some n
lookup-put_same d p n = rw (str_eq_refl p) refl

pub lookup-put_other : (d : Disk) (p q : Str) (n : Node) → q ≢ p → lookup (put d q n) p ≡ lookup d p
lookup-put_other d p q n h = rw (str_eq_ne q p h) (lookup-remove_other d p q h)

-- A name that is given to a file for the first time takes no other's place.
pub lookup-put_free :
    (d : Disk) (p q : Str) (n : Node) {o : Node}
    → lookup d q ≡ none
    → lookup d p ≡ some o
    → lookup (put d q n) p ≡ some o
lookup-put_free d p q n {o} free at =
    lookup-put_other d p q n (λ e. cc (free, at, ap (lookup d) e)) ∙ at
