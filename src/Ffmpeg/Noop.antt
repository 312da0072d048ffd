-- ===== src/Ffmpeg/Noop.antt =====
-- packages/core/src/ffmpeg-noop.ts: what a command would change of the file that it is about.
pub mod Unchanged
pub mod Copy
use trawlarr.Prelude.{
  ℕ, ◌-◌, Bool, true, false, ◌&&◌, not, Option, none, some, List, [], ◌∷◌, ◌++◌, Str, codes, str_eq,
  trim, decimal, length, filter, if◌then◌else◌, ltb, ◌==◌,
}
use trawlarr.Ffmpeg.{Stream, Command, is_empty, is_writable, guard_stream_removal, survives}

pub data CommandChange : Type 0 where
  input container overall_arguments stream_set stream_order stream_arguments stream_mapping
        unverifiable :
      CommandChange

-- Of the streams that ffprobe found only the indexes are read.
pub record CommandSource : Type 0 where
  pub path : Str
  pub container : Str
  pub streams : Option (List (Option ℕ))

abbrev pub when : Bool → CommandChange → List CommandChange
when b change = if b then change ∷ [] else []

abbrev strip_dots : Str → Str
strip_dots [] = []
strip_dots (c ∷ s) = if c == 46 then strip_dots s else c ∷ s

abbrev pub is_map_of : Option ℕ → Str → Str → Bool
is_map_of none flag value = false
is_map_of (some i) flag value = str_eq flag (codes "-map") && str_eq value (codes "0:" ++ decimal i)

abbrev pub is_identity_map_args : Option ℕ → List Str → Bool
is_identity_map_args index [] = true
is_identity_map_args index (flag ∷ []) = false
is_identity_map_args index (flag ∷ value ∷ []) = is_map_of index flag value
is_identity_map_args index (flag ∷ value ∷ more ∷ rest) = false

abbrev pub input_changes : List Str → Str → List CommandChange
input_changes [] path = input ∷ []
input_changes (file ∷ []) path = when (not (str_eq file path)) input
input_changes (file ∷ other ∷ files) path = input ∷ []

abbrev pub place_change : Option ℕ → Option ℕ → List CommandChange
place_change (some a) (some b) = when (not (a == b)) stream_order
place_change none b = unverifiable ∷ []
place_change (some a) none = unverifiable ∷ []

-- Place by place.
abbrev pub order_changes : List Stream → List (Option ℕ) → List CommandChange
order_changes [] sources = []
order_changes (s ∷ kept) [] = []
order_changes (s ∷ kept) (i ∷ sources) = place_change s.index i ++ order_changes kept sources

abbrev pub set_or_order : List Stream → List (Option ℕ) → List CommandChange
set_or_order kept sources =
    if length kept == length sources then order_changes kept sources else stream_set ∷ []

abbrev pub changes_of : Stream → List CommandChange
changes_of s =
    when s.force_encoding stream_arguments
    ++ (when (not (is_empty s.output_args)) stream_arguments
        ++ (when (not (is_empty s.input_args)) stream_arguments
            ++ when (not (is_identity_map_args s.index s.map_args)) stream_mapping))

abbrev pub changes_of_each : List Stream → List CommandChange
changes_of_each [] = []
changes_of_each (s ∷ streams) = changes_of s ++ changes_of_each streams

module _ (lower : Str → Str) where
  abbrev pub normalise_container : Str → Str
  normalise_container value = lower (strip_dots (trim value))

  -- The streams, and those of them that survive the removals and can be written.
  abbrev stream_changes :
      List Stream → List Stream → List Stream → List (Option ℕ) → List CommandChange
  stream_changes streams surviving kept sources =
      when (ltb 0 (length streams - length surviving)) stream_set
      ++ (when (ltb 0 (length surviving - length kept)) stream_set
          ++ (set_or_order kept sources ++ changes_of_each surviving))

  abbrev pub changes_against : Command → CommandSource → List (Option ℕ) → List CommandChange
  changes_against c source sources =
      let surviving = filter (survives lower (guard_stream_removal lower c.streams)) c.streams in
      let kept = filter (is_writable lower) surviving in
      input_changes c.input_files source.path
      ++ (when
            (not (str_eq (normalise_container c.container) (normalise_container source.container)))
            container
          ++ (when (not (is_empty c.overall_input_arguments)) overall_arguments
              ++ (when (not (is_empty c.overall_output_arguments)) overall_arguments
                  ++ (when c.hardware_decoding overall_arguments
                      ++ stream_changes c.streams surviving kept sources))))

  abbrev pub describe_against :
      Command → CommandSource → Option (List (Option ℕ)) → List CommandChange
  describe_against c source none = unverifiable ∷ []
  describe_against c source (some []) = unverifiable ∷ []
  describe_against c source (some (i ∷ sources)) = changes_against c source (i ∷ sources)

  unfoldable pub describe_command_changes : Command → CommandSource → List CommandChange
  unfolding filter guard_stream_removal
  describe_command_changes c source = describe_against c source source.streams

  abbrev would_command_change_file : Command → CommandSource → Bool
  would_command_change_file c source = not (is_empty (describe_command_changes c source))
