-- ===== src/Ffmpeg/Noop/Copy.antt =====
-- A command with no changes is a plain copy.
use trawlarr.Prelude.{
  arith, ==_iff, ℕ, suc, ◌-◌, ◌≤◌, ◌≡◌, refl, ap, ◌∙◌, inl, inr, Bool, true, false, not, Option,
  none, some, List, [], ◌∷◌, ◌++◌, Str, codes, str_eq, str_eq_sound, length, subst, filter, ltb,
  ◌==◌, Bool-cases, All,
}
use trawlarr.Ffmpeg.{
  Stream, Command, is_empty, is_writable, survives, guard_stream_removal, numbered_from, is_kept,
  kept_of, files_of, copy_all, stream_args, all_args, clean, compiled, arguments,
  compile_ffmpeg_args,
}
use trawlarr.Ffmpeg.Streams.{compiled-arguments}
use trawlarr.Ffmpeg.Noop.{
  CommandSource, when, input_changes, normalise_container, container, overall_arguments, stream_set,
  set_or_order, changes_against, describe_against, order_changes, changes_of_each,
  describe_command_changes,
}
use trawlarr.Ffmpeg.Noop.Unchanged.{
  append-empty, empty, filter-All, All-filter, when-none, not-false, order-AllUnchanged,
  stream_args-unchanged, needs_encode-unchanged, inputs_of-unchanged, AllUnchanged, plain_maps,
  plain_copy,
}

input-same : (files : List Str) (path : Str) → input_changes files path ≡ [] → files ≡ path ∷ []
input-same [] path h = cc
input-same (file ∷ []) path h =
    ap (λ f. f ∷ []) (str_eq_sound file path (not-false _ (when-none _ _ h)))
input-same (file ∷ other ∷ files) path h = cc

diff-le : (a b : ℕ) → ltb 0 (a - b) ≡ false → a ≤ b
diff-le a b h = ground arith

set_or_order-none :
    (kept : List Stream) (is : List (Option ℕ))
    → set_or_order kept is ≡ []
    → (length kept ≡ length is) × (order_changes kept is ≡ [])
set_or_order-none kept is h = elim (Bool-cases (length kept == length is)) [
  | inl t ↦ ((==_iff (length kept) (length is)).0 t, rw t at h)
  | inr f ↦ cc (rw f at h)
]

module _ (lower : Str → Str) where
  kept-All :
      (restored : Bool) (n : ℕ) (ss : List Stream)
      → All (λ s. survives lower restored s ≡ true) ss
      → All (λ s. is_writable lower s ≡ true) ss
      → filter (is_kept lower restored) (numbered_from n ss) ≡ numbered_from n ss
  unfolding filter
  kept-All restored n [] h k = refl
  kept-All restored n (s ∷ ss) (h, hs) (k, ks) =
      let both : is_kept lower restored (n, s) ≡ true = ground arith in
      rw (both, kept-All restored (suc n) ss hs ks) refl

  -- What a command without changes is about.
  record IsPlain (c : Command) (path : Str) (is : List (Option ℕ)) : Type 0 where
    input_path : c.input_files ≡ path ∷ []
    no_input_arguments : c.overall_input_arguments ≡ []
    no_output_arguments : c.overall_output_arguments ≡ []
    all_kept : kept_of lower c ≡ numbered_from 0 c.streams
    unchanged : AllUnchanged c.streams is

  changes-IsPlain :
      (c : Command) (source : CommandSource) (is : List (Option ℕ))
      → changes_against lower c source is ≡ []
      → IsPlain c source.path is
  changes-IsPlain c source is h =
      let restored = guard_stream_removal lower c.streams in
      let surviving = filter (survives lower restored) c.streams in
      let kept = filter (is_writable lower) surviving in
      let (files, h1) = append-empty (input_changes c.input_files source.path) _ h in
      let (named, h2) =
        append-empty
          (when
            (not (
              str_eq (normalise_container lower c.container)
                (normalise_container lower source.container)))
            container)
          _ h1 in
      let (inputs, h3) =
        append-empty (when (not (is_empty c.overall_input_arguments)) overall_arguments) _ h2 in
      let (outputs, h4) =
        append-empty (when (not (is_empty c.overall_output_arguments)) overall_arguments) _ h3 in
      let (hardware, h5) = append-empty (when c.hardware_decoding overall_arguments) _ h4 in
      let (gone, h6) =
        append-empty (when (ltb 0 (length c.streams - length surviving)) stream_set) _ h5 in
      let (dropped, h7) =
        append-empty (when (ltb 0 (length surviving - length kept)) stream_set) _ h6 in
      let (order, asked) = append-empty (set_or_order kept is) (changes_of_each surviving) h7 in
      let stay : All (λ s. survives lower restored s ≡ true) c.streams =
        filter-All (survives lower restored) c.streams (diff-le _ _ (when-none _ _ gone)) in
      let all_survive : surviving ≡ c.streams =
        All-filter (survives lower restored) c.streams stay in
      let write : All (λ s. is_writable lower s ≡ true) surviving =
        filter-All (is_writable lower) surviving (diff-le _ _ (when-none _ _ dropped)) in
      let all_written : kept ≡ surviving = All-filter (is_writable lower) surviving write in
      let (lengths, orders) = set_or_order-none kept is order in
      record {
        input_path = input-same c.input_files source.path files;
        no_input_arguments = empty _ (not-false _ (when-none _ _ inputs));
        no_output_arguments = empty _ (not-false _ (when-none _ _ outputs));
        all_kept =
            kept-All restored 0 c.streams stay
              (subst (All (λ s. is_writable lower s ≡ true)) all_survive write);
        unchanged =
            order-AllUnchanged c.streams is
              (subst (λ k. length k ≡ length is) (all_written ∙ all_survive) lengths)
              (subst (λ k. order_changes k is ≡ []) (all_written ∙ all_survive) orders)
              (subst (λ k. changes_of_each k ≡ []) all_survive asked);
      }

  ends-copy :
      (xs : List Str) (out : Str)
      → xs ++ (codes "-c" ∷ codes "copy" ∷ []) ++ [] ++ (out ∷ [])
        ≡ xs ++ (codes "-c" ∷ codes "copy" ∷ out ∷ [])
  ends-copy [] out = refl
  ends-copy (x ∷ xs) out = ap (λ ys. x ∷ ys) (ends-copy xs out)

  module _ (c : Command) (path output_path : Str) (is : List (Option ℕ))
      (plain : IsPlain c path is) where
    all_args-plain :
        all_args c output_path (numbered_from 0 c.streams) ≡ plain_copy path is output_path
    all_args-plain =
        joined (λ b. stream_args b [] (numbered_from 0 c.streams))
          (needs_encode-unchanged 0 c.streams is plain.unchanged) plain.no_input_arguments
          (inputs_of-unchanged 0 c.streams is plain.unchanged) (ap files_of plain.input_path)
          (stream_args-unchanged 0 [] c.streams is plain.unchanged) plain.no_output_arguments
      where
        joined :
            (of_streams : Bool → List Str) {b : Bool} {before inputs files after : List Str}
            → b ≡ false
            → before ≡ []
            → inputs ≡ []
            → files ≡ codes "-i" ∷ path ∷ []
            → of_streams false ≡ plain_maps is
            → after ≡ []
            → before ++ inputs ++ files ++ of_streams b ++ copy_all b ++ after ++ (output_path ∷ [])
              ≡ plain_copy path is output_path
        joined of_streams eb e1 e2 e3 e4 e5 =
            rw (eb, e1, e2, e3, e4, e5)
              (ap (λ ys. codes "-i" ∷ path ∷ ys) (ends-copy (plain_maps is) output_path))

  kept-some :
      (ss : List Stream) (i : Option ℕ) (is : List (Option ℕ))
      → AllUnchanged ss (i ∷ is)
      → is_empty (numbered_from 0 ss) ≡ false
  kept-some [] i is h = absurd h
  kept-some (s ∷ ss) i is h = refl

  compile-plain :
      (c : Command) (path output_path : Str) (i : Option ℕ) (is : List (Option ℕ))
      → c.init ≡ true
      → IsPlain c path (i ∷ is)
      → compile_ffmpeg_args lower c output_path
        ≡ arguments (clean (plain_copy path (i ∷ is) output_path))
  unfolding compile_ffmpeg_args
  compile-plain c path output_path i is ready plain =
      let has_input : is_empty c.input_files ≡ false = ap is_empty plain.input_path in
      let args : compiled c output_path (kept_of lower c)
          ≡ arguments (clean (plain_copy path (i ∷ is) output_path)) =
        ap (compiled c output_path) plain.all_kept
        ∙ (compiled-arguments lower c output_path (numbered_from 0 c.streams)
              (kept-some c.streams i is plain.unchanged)
            ∙ ap (λ a. arguments (clean a)) (all_args-plain c path output_path (i ∷ is) plain)) in
      rw (ready, has_input) args

  -- If a command that was begun changes nothing of a file by describeCommandChanges, then the file's
  -- streams were probed and the command is compiled to the plain copy of the file: it is read once,
  -- each of its streams is mapped once, by its ffprobe index and in the file's order, all of them are
  -- copied, and no other argument is given.
  pub no_changes-plain_copy :
      (c : Command) (source : CommandSource) (output_path : Str)
      → c.init ≡ true
      → describe_command_changes lower c source ≡ []
      → (is : List (Option ℕ)) × (source.streams ≡ some is)
        × (compile_ffmpeg_args lower c output_path
            ≡ arguments (clean (plain_copy source.path is output_path)))
  unfolding describe_command_changes
  no_changes-plain_copy c source output_path ready h = by_streams source.streams refl h
    where
      by_streams :
          (streams : Option (List (Option ℕ)))
          → source.streams ≡ streams
          → describe_against lower c source streams ≡ []
          → (is : List (Option ℕ)) × (source.streams ≡ some is)
            × (compile_ffmpeg_args lower c output_path
                ≡ arguments (clean (plain_copy source.path is output_path)))
      by_streams none e k = cc
      by_streams (some []) e k = cc
      by_streams (some (i ∷ is)) e k = (
        i ∷ is,
        e,
        compile-plain c source.path output_path i is ready (changes-IsPlain c source (i ∷ is) k),
      )
