-- ===== src/Flow/Validate/Groups.antt =====
-- The groups of a `Map` of lists: how often a key occurs.
use trawlarr.Prelude.{
  ℕ, ◌+◌, ◌≤◌, ◌≡◌, sym, ap, inl, inr, Bool, true, false, List, [], ◌∷◌, Str, str_eq, str_eq_sound,
  str_eq_refl, length, length-append, All-mem_intro, HasDistinctKeys, Memᴰ, Bool-cases,
  if◌then◌else◌, ltb, arith,
}
use trawlarr.Flow.{FlowNode, FlowEdge}
use trawlarr.Flow.Validate.{push_group, groups_from, duplicate_ids, ambiguous_edges}

abbrev one_if : Bool → ℕ
one_if b = if b then 1 else 0

module _ {ℓ} {A : Type ℓ} where
  -- How many were pushed under `k`.
  abbrev group_size : Str → List (Str × List A) → ℕ
  group_size k [] = 0
  group_size k ((k', xs) ∷ groups) = if str_eq k' k then length xs else group_size k groups

  group_size-push_group :
      (k key : Str) (x : A) (groups : List (Str × List A))
      → group_size k (push_group key x groups) ≡ one_if (str_eq key k) + group_size k groups
  group_size-push_group k key x [] = ground arith
  group_size-push_group k key x ((k', xs) ∷ groups) = elim (Bool-cases (str_eq k' key)) [
    | inl t ↦
        let same = str_eq_sound k' key t in rw (t, same) (ground (arith, length-append xs (x ∷ [])))
    | inr f ↦ elim (Bool-cases (str_eq key k)) [
      | inl t' ↦
          let same = str_eq_sound key k t' in
          let other : str_eq k' k ≡ false = rw (← same) f in
          rw (f, other) (group_size-push_group k key x groups)
      | inr f' ↦ rw (f) (ground (arith, group_size-push_group k key x groups))
    ]
  ]

  module _ (key : A → Str) where
    abbrev occurrences : Str → List A → ℕ
    occurrences k [] = 0
    occurrences k (x ∷ xs) = one_if (str_eq (key x) k) + occurrences k xs

    group_size-groups_from :
        (k : Str) (groups : List (Str × List A)) (xs : List A)
        → group_size k (groups_from key groups xs) ≡ group_size k groups + occurrences k xs
    unfolding groups_from
    group_size-groups_from k groups [] = omega arith
    group_size-groups_from k groups (x ∷ xs) = omega (
      arith,
      group_size-groups_from k (push_group (key x) x groups) xs,
      group_size-push_group k (key x) x groups,
    )

    occurrences-mem : (k : Str) (xs : List A) {y : A} → Memᴰ y xs → key y ≡ k → 1 ≤ occurrences k xs
    occurrences-mem k [] m e = elim m [ ]
    occurrences-mem k (x ∷ xs) (Memᴰ.head h) e =
        let same : str_eq (key x) k ≡ true = rw (← h, e) (str_eq_refl k) in rw same (omega arith)
    occurrences-mem k (x ∷ xs) (Memᴰ.tail m) e = omega (arith, occurrences-mem k xs m e)

    -- Keys that occur at most once are distinct.
    distinct : (xs : List A) → ((k : Str) → occurrences k xs ≤ 1) → HasDistinctKeys key xs
    distinct [] h = tt
    distinct (x ∷ xs) h = (
      All-mem_intro _ xs (λ y m e. absurd (
          omega (
            arith,
            h (key x),
            occurrences-mem (key x) xs m (sym e),
            ap one_if (str_eq_refl (key x)),
          ))),
      distinct xs (λ k. omega (arith, h k)),
    )

    pub groups_from-HasDistinctKeys :
        (xs : List A)
        → ((k : Str) → group_size k (groups_from key [] xs) ≤ 1)
        → HasDistinctKeys key xs
    groups_from-HasDistinctKeys xs h =
        distinct xs (λ k. omega (arith, h k, group_size-groups_from k [] xs))

pub duplicate_ids-le :
    (k : Str) (groups : List (Str × List FlowNode))
    → duplicate_ids groups ≡ []
    → group_size k groups ≤ 1
unfolding duplicate_ids
duplicate_ids-le k [] h = omega arith
duplicate_ids-le k ((k', nodes) ∷ groups) h = elim (Bool-cases (ltb (length nodes) 2)) [
  | inr f ↦ cc (rw (f, duplicate_ids) at h)
  | inl t ↦ let rest = duplicate_ids-le k groups (rw (t, duplicate_ids) at h) in ground arith
]

pub ambiguous_edges-le :
    (k : Str) (groups : List (Str × List FlowEdge))
    → ambiguous_edges groups ≡ []
    → group_size k groups ≤ 1
unfolding ambiguous_edges
ambiguous_edges-le k [] h = omega arith
ambiguous_edges-le k ((k', []) ∷ groups) h =
    let rest = ambiguous_edges-le k groups h in ground arith
ambiguous_edges-le k ((k', e ∷ []) ∷ groups) h =
    let rest = ambiguous_edges-le k groups h in ground arith
ambiguous_edges-le k ((k', e ∷ e' ∷ es) ∷ groups) h = cc
