-- ===== src/Ffmpeg/Noop/Unchanged.antt =====
-- The streams of a command that changes nothing, and what they are compiled to.
use trawlarr.Prelude.{
  arith, ==_iff, ℕ, suc, ◌≤◌, ◌≡◌, refl, sym, ap, inl, inr, Bool, true, false, ◌&&◌, not, Option,
  none, some, List, [], ◌∷◌, ◌++◌, Str, codes, str_eq_sound, decimal, length, map, any, filter,
  Bool-cases, All,
}
use trawlarr.Ffmpeg.{
  Stream, is_empty, Placed, numbered_from, map_args_of, map_index, needs_encode, should_copy_stream,
  inputs_of, substitute, same_type, copy_of, stream_args,
}
use trawlarr.Ffmpeg.Noop.{
  CommandChange, when, is_identity_map_args, order_changes, place_change, changes_of,
  stream_arguments, changes_of_each,
}

module _ {A : Type 0} where
  pub append-empty : (xs ys : List A) → xs ++ ys ≡ [] → (xs ≡ []) × (ys ≡ [])
  append-empty [] ys h = (refl, h)
  append-empty (x ∷ xs) ys h = cc

  pub empty : (xs : List A) → is_empty xs ≡ true → xs ≡ []
  empty [] h = refl
  empty (x ∷ xs) h = cc

  length-filter : (p : A → Bool) (xs : List A) → length (filter p xs) ≤ length xs
  unfolding filter
  length-filter p [] = omega arith
  length-filter p (x ∷ xs) = elim (Bool-cases (p x)) [
    | inl t ↦ rw t (omega (arith, length-filter p xs))
    | inr f ↦ rw f (omega (arith, length-filter p xs))
  ]

  -- A filter that drops nothing.
  pub filter-All :
      (p : A → Bool) (xs : List A) → length xs ≤ length (filter p xs) → All (λ x. p x ≡ true) xs
  unfolding filter
  filter-All p [] h = tt
  filter-All p (x ∷ xs) h = elim (Bool-cases (p x)) [
    | inl t ↦ (
      t,
      filter-All p xs
          (let h' : suc (length xs) ≤ suc (length (filter p xs)) = rw t at h in omega arith),
    )
    | inr f ↦
        let h' : suc (length xs) ≤ length (filter p xs) = rw f at h in
        absurd (omega (arith, length-filter p xs))
  ]

  pub All-filter : (p : A → Bool) (xs : List A) → All (λ x. p x ≡ true) xs → filter p xs ≡ xs
  unfolding filter
  All-filter p [] h = refl
  All-filter p (x ∷ xs) (t, h) = rw (t, All-filter p xs h) refl

pub when-none : (b : Bool) (change : CommandChange) → when b change ≡ [] → b ≡ false
when-none true change h = cc
when-none false change h = refl

pub not-false : (b : Bool) → not b ≡ false → b ≡ true
not-false true h = refl
not-false false h = cc

-- The stream is the file's, and nothing is asked of it.
pub record IsUnchanged (s : Stream) (i : Option ℕ) : Type 0 where
  probe_index : ℕ
  stream_index : s.index ≡ some probe_index
  source_index : i ≡ some probe_index
  unforced : s.force_encoding ≡ false
  no_output_args : s.output_args ≡ []
  no_input_args : s.input_args ≡ []
  mapped : is_identity_map_args s.index s.map_args ≡ true

abbrev pub AllUnchanged : List Stream → List (Option ℕ) → Type 0
AllUnchanged [] [] = Unit
AllUnchanged (s ∷ ss) (i ∷ is) = IsUnchanged s i × AllUnchanged ss is
AllUnchanged [] (i ∷ is) = ⊥
AllUnchanged (s ∷ ss) [] = ⊥

place-same : (a b : Option ℕ) → place_change a b ≡ [] → (k : ℕ) × (a ≡ some k) × (b ≡ some k)
place-same none b h = cc
place-same (some j) none h = cc
place-same (some j) (some k) h =
    (j, refl, ap some (sym ((==_iff j k).0 (not-false _ (when-none _ _ h)))))

pub order-AllUnchanged :
    (ss : List Stream) (is : List (Option ℕ))
    → length ss ≡ length is
    → order_changes ss is ≡ []
    → changes_of_each ss ≡ []
    → AllUnchanged ss is
order-AllUnchanged [] [] e h k = tt
order-AllUnchanged [] (i ∷ is) e h k = absurd (omega arith)
order-AllUnchanged (s ∷ ss) [] e h k = absurd (omega arith)
order-AllUnchanged (s ∷ ss) (i ∷ is) e h k =
    let (here, later) = append-empty (place_change s.index i) (order_changes ss is) h in
    let (mine, others) = append-empty (changes_of s) (changes_of_each ss) k in
    let (forced, m1) = append-empty (when s.force_encoding stream_arguments) _ mine in
    let (outputs, m2) = append-empty (when (not (is_empty s.output_args)) stream_arguments) _ m1 in
    let (inputs, mapping) =
      append-empty (when (not (is_empty s.input_args)) stream_arguments) _ m2 in
    let (index, a, b) = place-same s.index i here in
    (
      record {
        probe_index = index;
        stream_index = a;
        source_index = b;
        unforced = when-none _ _ forced;
        no_output_args = empty _ (not-false _ (when-none _ _ outputs));
        no_input_args = empty _ (not-false _ (when-none _ _ inputs));
        mapped = not-false _ (when-none _ _ mapping);
      },
      order-AllUnchanged ss is (omega arith) later others,
    )

-- The mapping of the file's streams in their order.
abbrev pub plain_maps : List (Option ℕ) → List Str
plain_maps [] = []
plain_maps (none ∷ is) = plain_maps is
plain_maps (some i ∷ is) = map_index i ++ plain_maps is

-- The file is read, its streams are mapped and copied.
abbrev pub plain_copy : Str → List (Option ℕ) → Str → List Str
plain_copy path is output_path =
    codes "-i" ∷ path ∷ (plain_maps is ++ (codes "-c" ∷ codes "copy" ∷ output_path ∷ []))

identity-map_index :
    (i : ℕ) (args : List Str)
    → is_identity_map_args (some i) args ≡ true
    → is_empty args ≡ false
    → args ≡ map_index i
identity-map_index i [] h k = cc
identity-map_index i (flag ∷ []) h k = cc
identity-map_index i (flag ∷ value ∷ more ∷ rest) h k = cc
identity-map_index i (flag ∷ value ∷ []) h k =
    let a : flag ≡ codes "-map" = str_eq_sound flag (codes "-map") (ground arith) in
    let b : value ≡ codes "0:" ++ decimal i =
      str_eq_sound value (codes "0:" ++ decimal i) (ground arith) in
    cc

map_args_of-unchanged :
    (n : ℕ) (s : Stream) (i : Option ℕ) (h : IsUnchanged s i)
    → map_args_of (n, s) ≡ map_index h.probe_index
map_args_of-unchanged n s i h = elim (Bool-cases (is_empty s.map_args)) [
  | inl t ↦ rw (t, h.stream_index) refl
  | inr f ↦
      let mapped : is_identity_map_args (some h.probe_index) s.map_args ≡ true =
        rw (h.stream_index) at h.mapped in
      rw f (identity-map_index h.probe_index s.map_args mapped f)
]

and_false : (b : Bool) → (b && false) ≡ false
and_false true = refl
and_false false = refl

copy_of-none : (b : Bool) (index : ℕ) → copy_of (b && false) index ≡ []
copy_of-none b index = rw (and_false b) refl

join-four :
    (i : ℕ) (maps outputs copies rest rest' : List Str)
    → maps ≡ map_index i
    → outputs ≡ []
    → copies ≡ []
    → rest ≡ rest'
    → maps ++ outputs ++ copies ++ rest ≡ map_index i ++ rest'
join-four i maps outputs copies rest rest' a b c d = rw (a, b, c, d) refl

pub stream_args-unchanged :
    (n : ℕ) (earlier : List Placed) (ss : List Stream) (is : List (Option ℕ))
    → AllUnchanged ss is
    → stream_args false earlier (numbered_from n ss) ≡ plain_maps is
stream_args-unchanged n earlier [] [] h = refl
stream_args-unchanged n earlier [] (i ∷ is) h = absurd h
stream_args-unchanged n earlier (s ∷ ss) [] h = absurd h
stream_args-unchanged n earlier (s ∷ ss) (i ∷ is) (h, hs) = rw (h.source_index) (
    join-four h.probe_index _ _ _ _ _ (map_args_of-unchanged n s i h)
      (ap (map (substitute (length earlier) (length (filter (same_type s) earlier))))
        h.no_output_args)
      (copy_of-none (not (needs_encode (n, s))) (length earlier))
      (stream_args-unchanged (suc n) (earlier ++ ((n, s) ∷ [])) ss is hs))

pub needs_encode-unchanged :
    (n : ℕ) (ss : List Stream) (is : List (Option ℕ))
    → AllUnchanged ss is
    → any needs_encode (numbered_from n ss) ≡ false
unfolding should_copy_stream
needs_encode-unchanged n [] is h = refl
needs_encode-unchanged n (s ∷ ss) [] h = absurd h
needs_encode-unchanged n (s ∷ ss) (i ∷ is) (h, hs) =
    rw (h.unforced, h.no_output_args, needs_encode-unchanged (suc n) ss is hs) refl

pub inputs_of-unchanged :
    (n : ℕ) (ss : List Stream) (is : List (Option ℕ))
    → AllUnchanged ss is
    → inputs_of (numbered_from n ss) ≡ []
inputs_of-unchanged n [] is h = refl
inputs_of-unchanged n (s ∷ ss) [] h = absurd h
inputs_of-unchanged n (s ∷ ss) (i ∷ is) (h, hs) =
    rw (h.no_input_args, inputs_of-unchanged (suc n) ss is hs) refl
