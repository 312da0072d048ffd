-- ===== src/Ffmpeg/Tests.antt =====
-- The commands of a film with a video and two audio streams.
use trawlarr.Prelude.{
  ℕ, ◌≡◌, refl, Bool, true, false, Option, some, List, [], ◌∷◌, Memᴰ, Str, codes, str_eq,
  starts_with, includes, trim, decimal, filter,
}
use trawlarr.Ffmpeg.{
  named, undeclared, Stream, Command, is_audio, is_writable, is_unmappable_stream,
  guard_stream_removal, should_copy_stream, kept_of, all_args, clean, not_initialised, arguments,
  compile_ffmpeg_args, close_ffmpeg_command,
}
use trawlarr.Ffmpeg.Streams.{compile_ffmpeg_args-audio}
use trawlarr.Ffmpeg.Noop.{CommandSource, describe_command_changes}
use trawlarr.Ffmpeg.Noop.Unchanged.{plain_copy}
use trawlarr.Ffmpeg.Noop.Copy.{no_changes-plain_copy}

abbrev stream_of : ℕ → Str → Bool → List Str → Stream
stream_of index codec_type removed output_args = record {
  index = some index;
  codec_name = named (codes "x");
  codec_type = codec_type;
  probe_described = true;
  width = undeclared;
  height = undeclared;
  removed = removed;
  force_encoding = false;
  map_args = [];
  input_args = [];
  output_args = output_args;
}

abbrev command_of : List Stream → Command
command_of streams = record {
  init = true;
  input_files = codes "a.mkv" ∷ [];
  streams = streams;
  container = codes "mkv";
  hardware_decoding = false;
  should_process = false;
  overall_input_arguments = [];
  overall_output_arguments = [];
}

abbrev video : Stream
video = stream_of 0 (codes "video") false []

abbrev sound : Stream
sound = stream_of 1 (codes "audio") true []

-- The flow removes all audio.
abbrev silenced : Command
silenced = command_of (video ∷ sound ∷ sound ∷ [])

abbrev same_text : Str → Str
same_text s = s

abbrev untouched : Command
untouched = command_of (video ∷ stream_of 1 (codes "audio") false [] ∷ [])

abbrev source : CommandSource
source = record {
  path = codes "a.mkv";
  container = codes ".mkv";
  streams = some (some 0 ∷ some 1 ∷ []);
}

compile_runs :
    (compile_ffmpeg_args same_text silenced (codes "b.mkv")
      ≡ arguments (
          codes "-i"
          ∷ codes "a.mkv"
          ∷ codes "-map"
          ∷ codes "0:0"
          ∷ codes "-map"
          ∷ codes "0:1"
          ∷ codes "-map"
          ∷ codes "0:1"
          ∷ codes "-c"
          ∷ codes "copy"
          ∷ codes "b.mkv"
          ∷ []))
    × (compile_ffmpeg_args same_text
          (command_of (
            video
            ∷ stream_of 1 (codes "audio") false (codes "-c:{outputIndex}" ∷ codes "aac" ∷ [])
            ∷ []))
          (codes "b.mkv")
        ≡ arguments (
            codes "-i"
            ∷ codes "a.mkv"
            ∷ codes "-map"
            ∷ codes "0:0"
            ∷ codes "-c:0"
            ∷ codes "copy"
            ∷ codes "-map"
            ∷ codes "0:1"
            ∷ codes "-c:1"
            ∷ codes "aac"
            ∷ codes "b.mkv"
            ∷ []))
    × (compile_ffmpeg_args same_text (close_ffmpeg_command silenced) (codes "b.mkv")
        ≡ not_initialised)
unfolding compile_ffmpeg_args filter guard_stream_removal should_copy_stream is_unmappable_stream
    str_eq starts_with includes trim decimal
compile_runs = (refl, refl, refl)

writable : (s : Stream) → s ≡ video → is_writable same_text s ≡ true
unfolding is_unmappable_stream str_eq includes trim
writable s e = rw e refl

sound_writable : is_writable same_text sound ≡ true
unfolding is_unmappable_stream str_eq includes trim
sound_writable = refl

compile_ffmpeg_args-audio_example :
    ((n : ℕ) × (a : Stream) × Memᴰ (n, a) (kept_of same_text silenced) × (is_audio a ≡ true))
    × (compile_ffmpeg_args same_text silenced (codes "b.mkv")
        ≡ arguments (clean (all_args silenced (codes "b.mkv") (kept_of same_text silenced))))
compile_ffmpeg_args-audio_example =
    compile_ffmpeg_args-audio same_text silenced (codes "b.mkv") refl refl sound
      (Memᴰ.tail (Memᴰ.head refl)) refl sound_writable video (Memᴰ.head refl) (writable video refl)
      refl

untouched_unchanged : describe_command_changes same_text untouched source ≡ []
unfolding describe_command_changes filter guard_stream_removal is_unmappable_stream str_eq includes
    trim decimal
untouched_unchanged = refl

no_changes-plain_copy_example :
    (is : List (Option ℕ)) × (source.streams ≡ some is)
    × (compile_ffmpeg_args same_text untouched (codes "b.mkv")
        ≡ arguments (clean (plain_copy source.path is (codes "b.mkv"))))
no_changes-plain_copy_example =
    no_changes-plain_copy same_text untouched source (codes "b.mkv") refl untouched_unchanged
