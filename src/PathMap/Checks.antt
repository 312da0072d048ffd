-- ===== src/PathMap/Checks.antt =====
-- What an accepted path map satisfies.
use trawlarr.Prelude.{
  ℕ, suc, ◌≤◌, ◌≡◌, refl, sym, ap, subst, ◌∙◌, ◌⊎◌, inl, inr, true, Option, none, some, List, [],
  ◌∷◌, Str, str_eq_iff, str_eq_refl, starts_with, includes, any, arith, Memᴰ, All, Bool-cases,
  Option-cases, ◌==◌, if◌then◌else◌,
}
use trawlarr.PathMap.{
  PathMapping, duplicate_server, duplicate_node, Checked, accepted, refused, ◌>>=◌, slash,
  root_path, trim_trailing, segments, is_dots, check_absolute, within, relative_to, check_entries,
  check_pair, indexed, check_against, check_nesting, validate_path_map,
}
use trawlarr.PathMap.Paths.{IsPath, trim_trailing-IsPath}

abbrev pub IsMapping : PathMapping → Type 0
IsMapping e = IsPath e.server_path × IsPath e.node_path

-- Two entries nest on both sides or on neither, and then at the same place.
abbrev pub NestAlike : PathMapping → PathMapping → Type 0
NestAlike a b =
    (within a.server_path b.server_path ≡ within a.node_path b.node_path)
    × (within a.server_path b.server_path ≡ true
        → relative_to a.server_path b.server_path ≡ relative_to a.node_path b.node_path)

pub record IsConsistent (map : List PathMapping) : Type 0 where
  pub mappings : All IsMapping map
  pub nest_alike : (a b : PathMapping) → Memᴰ a map → Memᴰ b map → NestAlike a b

>>=-accepted {ℓ κ} :
    {Value : Type ℓ} {Next : Type κ} {result : Next} (checked : Checked Value)
    (next : Value → Checked Next)
    → (checked >>= next) ≡ accepted result
    → (value : Value) × (checked ≡ accepted value) × (next value ≡ accepted result)
>>=-accepted (refused why) next h = cc
>>=-accepted (accepted value) next h = (value, refl, h)

starts_slash : (c : ℕ) (s : Str) → starts_with (c ∷ s) root_path ≡ true → c ≡ slash
unfolding starts_with
starts_slash c s t = ground arith

rooted-IsPath : (path : Str) → starts_with path root_path ≡ true → IsPath (trim_trailing path)
unfolding starts_with
rooted-IsPath [] t = cc
rooted-IsPath (c ∷ s) t =
    let rooted : slash ∷ s ≡ c ∷ s = ap (λ z. z ∷ s) (omega (arith, starts_slash c s t)) in
    subst (λ p. IsPath (trim_trailing p)) rooted (trim_trailing-IsPath s)

check_absolute-IsPath : (raw : Option Str) (p : Str) → check_absolute raw ≡ accepted p → IsPath p
unfolding check_absolute
check_absolute-IsPath none p h = cc
check_absolute-IsPath (some path) p h = elim (Bool-cases (starts_with path root_path)) [
  | inr f ↦ cc (rw (f, check_absolute) at h)
  | inl t ↦ elim (Bool-cases (any is_dots (segments path))) [
    | inl dots ↦ cc (rw (t, dots, check_absolute) at h)
    | inr fine ↦
        let same : trim_trailing path ≡ p = cc (rw (t, fine, check_absolute) at h) in
        subst IsPath same (rooted-IsPath path t)
  ]
]

-- The entries of a checked list, and of what follows them.
check_entries-mappings :
    (seen_server seen_node : List Str) (raw : List (Option Str × Option Str))
    (entries : List PathMapping)
    → check_entries seen_server seen_node raw ≡ accepted entries
    → All IsMapping entries
unfolding check_entries
check_entries-mappings ss ns [] [] h = tt
check_entries-mappings ss ns [] (e ∷ es) h = cc
check_entries-mappings ss ns ((raw_server, raw_node) ∷ raw) entries h =
    let (server, h1, k1) = >>=-accepted (check_absolute raw_server) _ h in
    let (node, h2, k2) = >>=-accepted (check_absolute raw_node) _ k1 in
    entry_checked server node (check_absolute-IsPath raw_server server h1)
      (check_absolute-IsPath raw_node node h2)
      (check_entries-mappings (server ∷ ss) (node ∷ ns) raw) k2
  where
    entry_checked :
        (server node : Str)
        → IsPath server
        → IsPath node
        → ((es : List PathMapping)
            → check_entries (server ∷ ss) (node ∷ ns) raw ≡ accepted es
            → All IsMapping es)
        → (if includes ss server
            then refused (duplicate_server server)
            else if includes ns node
            then refused (duplicate_node node)
            else (check_entries (server ∷ ss) (node ∷ ns) raw >>= λ es.
                accepted (record { server_path = server; node_path = node } ∷ es)))
          ≡ accepted entries
        → All IsMapping entries
    entry_checked server node p q ih k = elim (Bool-cases (includes ss server)) [
      | inl dup ↦ cc (rw dup at k)
      | inr new ↦ elim (Bool-cases (includes ns node)) [
        | inl dup ↦ cc (rw (new, dup) at k)
        | inr new' ↦
            let (es, found, same) =
              >>=-accepted (check_entries (server ∷ ss) (node ∷ ns) raw) _ (rw (new, new') at k) in
            let whole : record { server_path = server; node_path = node } ∷ es ≡ entries =
              cc same in
            subst (All IsMapping) whole ((p, q), ih es found)
      ]
    ]

check_pair-NestAlike : (a b : PathMapping) → check_pair a b ≡ none → NestAlike a b
unfolding check_pair
check_pair-NestAlike a b h = (
  ground arith,
  λ w.
      (str_eq_iff (relative_to a.server_path b.server_path) (relative_to a.node_path b.node_path)).0
        (ground arith),
)

check_against-NestAlike :
    (a : ℕ × PathMapping) (bs : List (ℕ × PathMapping))
    → check_against a bs ≡ none
    → (b : ℕ × PathMapping) → Memᴰ b bs
    → (a.0 ≡ b.0) ⊎ NestAlike a.1 b.1
unfolding check_against
check_against-NestAlike a [] h b m = elim m [ ]
check_against-NestAlike a (x ∷ xs) h b (Memᴰ.head e) = elim (Bool-cases (a.0 == x.0)) [
  | inl same ↦ inl (ground arith)
  | inr other ↦ elim (Option-cases (check_pair a.1 x.1)) [
    | inl fine ↦ inr (rw e (check_pair-NestAlike a.1 x.1 fine))
    | inr (e', bad) ↦ cc (rw (other, bad, check_against) at h)
  ]
]
check_against-NestAlike a (x ∷ xs) h b (Memᴰ.tail m) =
    check_against-NestAlike a xs (ground arith) b m

check_nesting-NestAlike :
    (todo all : List (ℕ × PathMapping))
    → check_nesting todo all ≡ none
    → (a : ℕ × PathMapping) → Memᴰ a todo
    → check_against a all ≡ none
unfolding check_nesting
check_nesting-NestAlike [] all h a m = elim m [ ]
check_nesting-NestAlike (x ∷ xs) all h a (Memᴰ.head e) = rw e (ground arith)
check_nesting-NestAlike (x ∷ xs) all h a (Memᴰ.tail m) =
    check_nesting-NestAlike xs all (ground arith) a m

module _ {A : Type 0} where
  Memᴰ-indexed : (n : ℕ) {x : A} (xs : List A) → Memᴰ x xs → (i : ℕ) × Memᴰ (i, x) (indexed n xs)
  Memᴰ-indexed n [] m = elim m [ ]
  Memᴰ-indexed n (y ∷ xs) (Memᴰ.head e) = (n, Memᴰ.head (ap (λ z. (n, z)) e))
  Memᴰ-indexed n (y ∷ xs) (Memᴰ.tail m) = let (i, k) = Memᴰ-indexed (suc n) xs m in (i, Memᴰ.tail k)

  indexed-le : (n : ℕ) (x : ℕ × A) (xs : List A) → Memᴰ x (indexed n xs) → n ≤ x.0
  indexed-le n x [] m = elim m [ ]
  indexed-le n x (y ∷ xs) (Memᴰ.head e) = omega (arith, ap (λ z. z.0) e)
  indexed-le n x (y ∷ xs) (Memᴰ.tail m) = omega (arith, indexed-le (suc n) x xs m)

  indexed_unique :
      (n : ℕ) (x y : ℕ × A) (xs : List A)
      → Memᴰ x (indexed n xs)
      → Memᴰ y (indexed n xs)
      → x.0 ≡ y.0
      → x.1 ≡ y.1
  indexed_unique n x y [] m k e = elim m [ ]
  indexed_unique n x y (z ∷ xs) (Memᴰ.head p) (Memᴰ.head q) e =
      ap (λ t. t.1) p ∙ sym (ap (λ t. t.1) q)
  indexed_unique n x y (z ∷ xs) (Memᴰ.head p) (Memᴰ.tail k) e =
      absurd (omega (arith, ap (λ t. t.0) p, indexed-le (suc n) y xs k))
  indexed_unique n x y (z ∷ xs) (Memᴰ.tail m) (Memᴰ.head q) e =
      absurd (omega (arith, ap (λ t. t.0) q, indexed-le (suc n) x xs m))
  indexed_unique n x y (z ∷ xs) (Memᴰ.tail m) (Memᴰ.tail k) e = indexed_unique (suc n) x y xs m k e

NestAlike-self : (a : PathMapping) → NestAlike a a
unfolding within relative_to
NestAlike-self a = (
  ground (arith, str_eq_refl a.server_path, str_eq_refl a.node_path),
  λ w. rw (str_eq_refl a.server_path, str_eq_refl a.node_path) refl,
)

check_nesting-pairs :
    (map : List PathMapping) (a b : PathMapping)
    → check_nesting (indexed 0 map) (indexed 0 map) ≡ none
    → Memᴰ a map
    → Memᴰ b map
    → NestAlike a b
check_nesting-pairs map a b h m k =
    let (i, im) = Memᴰ-indexed 0 map m in
    let (j, jm) = Memᴰ-indexed 0 map k in
    let against = check_nesting-NestAlike (indexed 0 map) (indexed 0 map) h (i, a) im in
    elim (check_against-NestAlike (i, a) (indexed 0 map) against (j, b) jm) [
      | inl same ↦
          subst (NestAlike a) (indexed_unique 0 (i, a) (j, b) map im jm same) (NestAlike-self a)
      | inr alike ↦ alike
    ]

pub validate_path_map-IsConsistent :
    (raw : Option (List (Option Str × Option Str))) (map : List PathMapping)
    → validate_path_map raw ≡ accepted map
    → IsConsistent map
unfolding validate_path_map
validate_path_map-IsConsistent none map h = cc
validate_path_map-IsConsistent (some raw) map h =
    let (entries, checked, k) = >>=-accepted (check_entries [] [] raw) _ h in
    elim (Option-cases (check_nesting (indexed 0 entries) (indexed 0 entries))) [
      | inr (e, bad) ↦ cc (rw bad at k)
      | inl fine ↦
          let same : entries ≡ map = cc (rw fine at k) in
          record {
            mappings =
                subst (All IsMapping) same (check_entries-mappings [] [] raw entries checked);
            nest_alike = λ a b m k'.
                subst (λ t. Memᴰ a t → Memᴰ b t → NestAlike a b) same
                  (check_nesting-pairs entries a b fine) m k';
          }
    ]
