-- ===== src/Ffmpeg/Streams.antt =====
-- Which streams of a file a compiled command writes.
use trawlarr.Prelude.{
  arith, ℕ, suc, ◌≡◌, refl, ap, ◌∙◌, inl, inr, Bool, true, false, List, [], ◌∷◌, Memᴰ, Str, str_eq,
  str_eq_refl, all, filter, Bool-cases,
}
use trawlarr.Ffmpeg.{
  Stream, Command, audio, is_audio, is_empty, is_writable, is_removed, is_candidate,
  guard_stream_removal, survives, Placed, numbered_from, is_kept, kept_of, all_args, clean,
  compiled, arguments, compile_ffmpeg_args,
}

module _ {A : Type 0} where
  filter-mem : (p : A → Bool) (xs : List A) {x : A} → Memᴰ x xs → p x ≡ true → Memᴰ x (filter p xs)
  unfolding filter
  filter-mem p [] m h = elim m [ ]
  filter-mem p (y ∷ xs) (Memᴰ.head e) h = rw (← e, h) (Memᴰ.head refl)
  filter-mem p (y ∷ xs) (Memᴰ.tail m) h = elim (Bool-cases (p y)) [
    | inl t ↦ rw t (Memᴰ.tail (filter-mem p xs m h))
    | inr f ↦ rw f (filter-mem p xs m h)
  ]

  mem-filter :
      (p : A → Bool) (xs : List A) {x : A} → Memᴰ x (filter p xs) → Memᴰ x xs × (p x ≡ true)
  unfolding filter
  mem-filter p [] m = elim m [ ]
  mem-filter p (y ∷ xs) {x} m = elim (Bool-cases (p y)) [
    | inl t ↦ by_place (mem-filter p xs) t (rw t at m)
    | inr f ↦ let (n, h) = mem-filter p xs (rw f at m) in (Memᴰ.tail n, h)
  ]
    where
      by_place :
          (Memᴰ x (filter p xs) → Memᴰ x xs × (p x ≡ true))
          → p y ≡ true
          → Memᴰ x (y ∷ filter p xs)
          → Memᴰ x (y ∷ xs) × (p x ≡ true)
      by_place h t (Memᴰ.head e) = (Memᴰ.head e, rw e t)
      by_place h t (Memᴰ.tail n) = (Memᴰ.tail (h n).0, (h n).1)

  is_empty-mem : (xs : List A) {x : A} → Memᴰ x xs → is_empty xs ≡ false
  is_empty-mem [] m = elim m [ ]
  is_empty-mem (y ∷ xs) m = refl

  all-mem : (p : A → Bool) (xs : List A) {x : A} → Memᴰ x xs → p x ≡ false → all p xs ≡ false
  all-mem p [] m h = elim m [ ]
  all-mem p (y ∷ xs) (Memᴰ.head e) h = rw (← e, h) refl
  all-mem p (y ∷ xs) (Memᴰ.tail m) h =
      let rest : all p xs ≡ false = all-mem p xs m h in ground arith

  all-false : (p : A → Bool) (xs : List A) → all p xs ≡ false → (x : A) × Memᴰ x xs × (p x ≡ false)
  all-false p [] h = cc
  all-false p (y ∷ xs) h = elim (Bool-cases (p y)) [
    | inl t ↦ let (x, m, f) = all-false p xs (ground arith) in (x, Memᴰ.tail m, f)
    | inr f ↦ (y, Memᴰ.head refl, f)
  ]

numbered_from-mem :
    (n : ℕ) (streams : List Stream) {s : Stream}
    → Memᴰ s streams
    → (k : ℕ) × Memᴰ (k, s) (numbered_from n streams)
numbered_from-mem n [] m = elim m [ ]
numbered_from-mem n (t ∷ streams) (Memᴰ.head e) = (n, Memᴰ.head (ap (λ s. (n, s)) e))
numbered_from-mem n (t ∷ streams) (Memᴰ.tail m) =
    let (k, at) = numbered_from-mem (suc n) streams m in (k, Memᴰ.tail at)

module _ (lower : Str → Str) where
  survives-unremoved :
      (restored : Bool) (s : Stream) → is_removed lower s ≡ false → survives lower restored s ≡ true
  survives-unremoved restored s h = rw h refl

  survives-restored : (s : Stream) → is_candidate lower s ≡ true → survives lower true s ≡ true
  survives-restored s h = ground arith

  module _ (streams : List Stream) (s : Stream) (at : Memᴰ s streams) (sound : s.codec_type ≡ audio)
      (writable : is_writable lower s ≡ true) (t : Stream) (left_at : Memᴰ t streams)
      (left_writable : is_writable lower t ≡ true) (left : t.removed ≡ false) where
    s-is_candidate : is_candidate lower s ≡ true
    s-is_candidate =
        let same : is_audio s ≡ true = ap (λ c. str_eq c audio) sound ∙ str_eq_refl audio in
        rw (same, writable) refl

    guard-all :
        guard_stream_removal lower streams
        ≡ all (is_removed lower) (filter (is_candidate lower) streams)
    unfolding guard_stream_removal
    guard-all =
        let unfinished : all (is_removed lower) (filter (is_writable lower) streams) ≡ false =
          all-mem (is_removed lower) (filter (is_writable lower) streams)
            (filter-mem (is_writable lower) streams left_at left_writable) left in
        let some_candidate : is_empty (filter (is_candidate lower) streams) ≡ false =
          is_empty-mem (filter (is_candidate lower) streams)
            (filter-mem (is_candidate lower) streams at s-is_candidate) in
        let some_writable : is_empty (filter (is_writable lower) streams) ≡ false =
          is_empty-mem (filter (is_writable lower) streams)
            (filter-mem (is_writable lower) streams left_at left_writable) in
        rw (unfinished, some_candidate, some_writable) refl

    survivor :
        (a : Stream) × Memᴰ a streams
        × (is_candidate lower a ≡ true)
        × (survives lower (guard_stream_removal lower streams) a ≡ true)
    survivor = elim (Bool-cases (all (is_removed lower) (filter (is_candidate lower) streams))) [
      | inl t ↦ (s, at, s-is_candidate, rw (guard-all, t) (survives-restored s s-is_candidate))
      | inr f ↦
          let (a, m, stays) =
            all-false (is_removed lower) (filter (is_candidate lower) streams) f in
          let (n, candidate) = mem-filter (is_candidate lower) streams m in
          (a, n, candidate, survives-unremoved (guard_stream_removal lower streams) a stays)
    ]

  pub compiled-arguments :
      (c : Command) (output_path : Str) (kept : List (Placed))
      → is_empty kept ≡ false
      → compiled c output_path kept ≡ arguments (clean (all_args c output_path kept))
  compiled-arguments c output_path [] h = cc
  compiled-arguments c output_path (k ∷ kept) h = refl

  module _ (c : Command) (output_path : Str) (ready : c.init ≡ true)
      (has_input : is_empty c.input_files ≡ false) (s : Stream) (at : Memᴰ s c.streams)
      (sound : s.codec_type ≡ audio) (writable : is_writable lower s ≡ true) (t : Stream)
      (left_at : Memᴰ t c.streams) (left_writable : is_writable lower t ≡ true)
      (left : t.removed ≡ false) where
    -- Take a command that was begun and has an input, one of whose streams is audio that can be
    -- written. If the flow leaves some stream that can be written, then the command is compiled to
    -- arguments, and an audio stream is among those that it writes, whatever the flow removed.
    pub compile_ffmpeg_args-audio :
        ((n : ℕ) × (a : Stream) × Memᴰ (n, a) (kept_of lower c) × (is_audio a ≡ true))
        × (compile_ffmpeg_args lower c output_path
            ≡ arguments (clean (all_args c output_path (kept_of lower c))))
    unfolding compile_ffmpeg_args
    compile_ffmpeg_args-audio =
        let (a, m, candidate, stays) =
          survivor c.streams s at sound writable t left_at left_writable left in
        let (n, place) = numbered_from-mem 0 c.streams m in
        let heard : is_audio a ≡ true = ground arith in
        let written : is_writable lower a ≡ true = ground arith in
        let kept : Memᴰ (n, a) (kept_of lower c) =
          filter-mem (is_kept lower (guard_stream_removal lower c.streams))
            (numbered_from 0 c.streams) place (rw (stays, written) refl) in
        (
          (n, a, kept, heard),
          rw (ready, has_input)
              (compiled-arguments c output_path (kept_of lower c)
                (is_empty-mem (kept_of lower c) kept)),
        )
