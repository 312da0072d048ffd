-- ===== src/Ffmpeg.antt =====
-- packages/core/src/ffmpeg-command.ts, ffmpeg-compile.ts and ffmpeg-noop.ts: the command that a flow
-- builds, the arguments it is compiled to, and what it would change of a file.
--
-- A stream object of a command is told from the others by its place in the list. Lower case is an
-- argument, as is whether a declared dimension is a finite number above 0; messages are left out.
pub mod Streams
pub mod Noop
mod Tests
use trawlarr.Prelude.{
  ℕ, zero, suc, ◌-◌, Bool, true, false, ◌&&◌, ◌||◌, not, Option, none, some, List, [], ◌∷◌, ◌++◌,
  map, Str, codes, str_eq, starts_with, includes, trim, decimal, drop, length, any, all, filter,
  if◌then◌else◌, ◌==◌,
}

-- `codec_name`, which may be absent or null.
pub data CodecName : Type 0 where
  absent null_name : CodecName
  named : Str → CodecName

pub data Dimension : Type 0 where
  undeclared usable unusable : Dimension

pub record Stream : Type 0 where
  pub index : Option ℕ
  pub codec_name : CodecName
  pub codec_type : Str
  pub probe_described : Bool
  pub width : Dimension
  pub height : Dimension
  pub removed : Bool
  pub force_encoding : Bool
  pub map_args : List Str
  pub input_args : List Str
  pub output_args : List Str

pub record Command : Type 0 where
  pub init : Bool
  pub input_files : List Str
  pub streams : List Stream
  pub container : Str
  pub hardware_decoding : Bool
  pub should_process : Bool
  pub overall_input_arguments : List Str
  pub overall_output_arguments : List Str

abbrev pub is_empty : {A : Type 0} → List A → Bool
is_empty [] = true
is_empty (x ∷ xs) = false

abbrev changes_stream : Stream → Bool
changes_stream s = s.removed || not (is_empty s.output_args) || s.force_encoding

unfoldable pub derive_should_process : Command → Bool
derive_should_process c =
    c.should_process
    || not (is_empty c.overall_input_arguments)
    || not (is_empty c.overall_output_arguments)
    || any changes_stream c.streams

abbrev pub close_ffmpeg_command : Command → Command
close_ffmpeg_command c = record c { init = false; should_process = false }

abbrev no_codec_names : List Str
no_codec_names = [] ∷ codes "none" ∷ codes "unknown" ∷ []

abbrev pub audio : Str
audio = codes "audio"

abbrev pub is_audio : Stream → Bool
is_audio s = str_eq s.codec_type audio

abbrev is_usable : Dimension → Bool
is_usable usable = true
is_usable _ = false

abbrev is_declared : Dimension → Bool
is_declared undeclared = false
is_declared _ = true

module _ (lower : Str → Str) where
  abbrev reports_no_codec : CodecName → Bool → Bool
  reports_no_codec absent probe_described = probe_described
  reports_no_codec null_name probe_described = true
  reports_no_codec (named n) probe_described = includes no_codec_names (lower (trim n))

  unfoldable pub is_unmappable_stream : Stream → Bool
  unfolding includes
  is_unmappable_stream s =
      reports_no_codec s.codec_name s.probe_described
      || (is_declared s.width || is_declared s.height)
        && not (is_usable s.width && is_usable s.height)

  abbrev pub is_writable : Stream → Bool
  is_writable s = not (is_unmappable_stream s)

  abbrev pub is_removed : Stream → Bool
  is_removed s = s.removed

  abbrev pub is_candidate : Stream → Bool
  is_candidate s = is_audio s && is_writable s

  -- Whether the audio that the flow removed is restored: all of it was, and not all that could be
  -- written was.
  unfoldable pub guard_stream_removal : List Stream → Bool
  unfolding filter
  guard_stream_removal streams =
      let writable = filter is_writable streams in
      let candidates = filter is_candidate streams in
      if not (is_empty writable) && all is_removed writable
      then false
      else not (is_empty candidates) && all is_removed candidates

  abbrev pub is_removed_after_guard : Bool → Stream → Bool
  is_removed_after_guard restored s = s.removed && not (restored && is_candidate s)

  abbrev pub survives : Bool → Stream → Bool
  survives restored s = not (is_removed_after_guard restored s)

  unfoldable pub surviving_streams : List Stream → List Stream
  unfolding filter guard_stream_removal
  surviving_streams streams = filter (survives (guard_stream_removal streams)) streams

  unfoldable pub mappable_streams : List Stream → List Stream
  unfolding filter surviving_streams
  mappable_streams streams = filter is_writable (surviving_streams streams)

-- A stream with its place in the command.
abbrev pub Placed : Type 0
Placed = ℕ × Stream

abbrev pub numbered_from : ℕ → List Stream → List Placed
numbered_from n [] = []
numbered_from n (s ∷ streams) = (n, s) ∷ numbered_from (suc n) streams

abbrev pub index_or : Option ℕ → ℕ → ℕ
index_or none n = n
index_or (some i) n = i

abbrev pub map_index : ℕ → List Str
map_index i = codes "-map" ∷ (codes "0:" ++ decimal i) ∷ []

abbrev pub map_args_of : Placed → List Str
map_args_of (n, s) = if is_empty s.map_args then map_index (index_or s.index n) else s.map_args

-- `text.replaceAll(name, value)`, whose first `skip` characters are part of a match.
abbrev replace_from : Str → Str → ℕ → Str → Str
replace_from name value skip [] = []
replace_from name value zero (c ∷ s) =
    let matched = replace_from name value (length name - 1) s in
    let rest = replace_from name value zero s in
    if starts_with (c ∷ s) name then value ++ matched else c ∷ rest
replace_from name value (suc skip) (c ∷ s) = replace_from name value skip s

abbrev pub same_type : Stream → Placed → Bool
same_type s (n, t) = str_eq t.codec_type s.codec_type

abbrev pub substitute : ℕ → ℕ → Str → Str
substitute index type_index arg =
    replace_from (codes "{outputTypeIndex}") (decimal type_index) zero
      (replace_from (codes "{outputIndex}") (decimal index) zero arg)

abbrev until_colon : Str → Str
until_colon [] = []
until_colon (c ∷ s) = if c == 58 then [] else c ∷ until_colon s

abbrev option_name_of : Str → Str
option_name_of [] = []
option_name_of (c ∷ s) = if c == 45 then until_colon s else []

abbrev tagging_options : List Str
tagging_options = codes "metadata" ∷ codes "disposition" ∷ []

abbrev codec_options : List Str
codec_options =
    codes "c"
    ∷ codes "codec"
    ∷ codes "vcodec"
    ∷ codes "acodec"
    ∷ codes "scodec"
    ∷ codes "dcodec"
    ∷ []

abbrev is_tagging : Str → Bool
is_tagging flag =
    not (includes codec_options (option_name_of flag))
    && includes tagging_options (option_name_of flag)

-- Flags stand at the even places.
unfoldable pub should_copy_stream : List Str → Bool
unfolding includes
should_copy_stream [] = true
should_copy_stream (flag ∷ []) = is_tagging flag
should_copy_stream (flag ∷ value ∷ rest) = is_tagging flag && should_copy_stream rest

abbrev pub needs_encode : Placed → Bool
needs_encode (n, s) = s.force_encoding || not (should_copy_stream s.output_args)

abbrev pub inputs_of : List Placed → List Str
inputs_of [] = []
inputs_of ((n, s) ∷ kept) = s.input_args ++ inputs_of kept

abbrev pub files_of : List Str → List Str
files_of [] = []
files_of (file ∷ files) = codes "-i" ∷ file ∷ files_of files

abbrev pub copy_of : Bool → ℕ → List Str
copy_of copies index = if copies then (codes "-c:" ++ decimal index) ∷ codes "copy" ∷ [] else []

-- `earlier` are the kept streams before those that are left.
abbrev pub stream_args : Bool → List Placed → List Placed → List Str
stream_args any_encodes earlier [] = []
stream_args any_encodes earlier ((n, s) ∷ kept) =
    let index = length earlier in
    let type_index = length (filter (same_type s) earlier) in
    map_args_of (n, s)
    ++ map (substitute index type_index) s.output_args
    ++ copy_of (not (needs_encode (n, s)) && any_encodes) index
    ++ stream_args any_encodes (earlier ++ ((n, s) ∷ [])) kept

pub data Compiled : Type 0 where
  not_initialised no_input no_streams : Compiled
  arguments : List Str → Compiled

abbrev pub clean : List Str → List Str
clean args = filter (λ a. not (is_empty a)) (map trim args)

abbrev pub copy_all : Bool → List Str
copy_all any_encodes = if any_encodes then [] else codes "-c" ∷ codes "copy" ∷ []

abbrev pub all_args : Command → Str → List Placed → List Str
all_args c output_path kept =
    c.overall_input_arguments
    ++ inputs_of kept
    ++ files_of c.input_files
    ++ stream_args (any needs_encode kept) [] kept
    ++ copy_all (any needs_encode kept)
    ++ c.overall_output_arguments
    ++ (output_path ∷ [])

abbrev pub compiled : Command → Str → List Placed → Compiled
compiled c output_path [] = no_streams
compiled c output_path (s ∷ kept) = arguments (clean (all_args c output_path (s ∷ kept)))

module _ (lower : Str → Str) where
  abbrev pub is_kept : Bool → Placed → Bool
  is_kept restored (n, s) = survives lower restored s && is_writable lower s

  abbrev pub kept_of : Command → List Placed
  kept_of c = filter (is_kept (guard_stream_removal lower c.streams)) (numbered_from 0 c.streams)

  unfoldable pub compile_ffmpeg_args : Command → Str → Compiled
  unfolding filter guard_stream_removal should_copy_stream
  compile_ffmpeg_args c output_path =
      if not c.init
      then not_initialised
      else if is_empty c.input_files
      then no_input
      else compiled c output_path (kept_of c)
