-- ===== src/Facts.antt =====
-- packages/core/src/facts.ts: the facts that are compared and hashed.
--
-- Sizes, durations and dimensions are non-negative integers, as ffprobe reports them; a `null` is
-- `none`. The infinite duration that `extractFacts` reads from a text such as `Infinity` is left out:
-- there the source's `canonicalJson` throws. `sizeRatio` is the fraction `ratio_num / ratio_den`, so that the quotient of the source is
-- compared exactly. sha256 comes from node:crypto and is an argument.
pub mod Laws
mod Tests
use mathlib.Core.Option
use trawlarr.Prelude.{
  ℕ, ◌+◌, ◌-◌, ◌*◌, Bool, true, false, ◌&&◌, ◌||◌, not, Option, none, some, List, [], ◌∷◌, Str,
  codes, if◌then◌else◌, ltb, leb, ◌==◌, pos, str_eq, max, length, is_some,
}
use trawlarr.Json.{Json, null, num, str, arr, obj, Items, nil, item, end, field, canonical_json}

pub record StreamFact : Type 0 where
  pub index : ℕ
  pub codec_type : Str
  pub codec_name : Str
  pub language : Option Str
  pub disposition : Option Str

pub record FactSet : Type 0 where
  pub container : Str
  pub size_bytes : ℕ
  pub duration_ms : Option ℕ
  pub width : Option ℕ
  pub height : Option ℕ
  pub streams : List StreamFact

pub record FactTolerance : Type 0 where
  pub duration_ms : ℕ
  pub ratio_num : ℕ
  pub ratio_den : ℕ

-- One second, and 0.01.
abbrev pub default_fact_tolerance : FactTolerance
default_fact_tolerance = record { duration_ms = 1000; ratio_num = 1; ratio_den = 100 }

-- `===` on values that may be null.
abbrev pub opt_str_eq : Option Str → Option Str → Bool
opt_str_eq none none = true
opt_str_eq (some a) (some b) = str_eq a b
opt_str_eq _ _ = false

abbrev pub opt_nat_eq : Option ℕ → Option ℕ → Bool
opt_nat_eq none none = true
opt_nat_eq (some a) (some b) = a == b
opt_nat_eq _ _ = false

-- `Math.abs(a - b)`
abbrev pub distance : ℕ → ℕ → ℕ
distance a b = (a - b) + (b - a)

pub stream_equivalent : StreamFact → StreamFact → Bool
stream_equivalent a b =
    (a.index == b.index)
    && (str_eq a.codec_type b.codec_type
        && (str_eq a.codec_name b.codec_name
            && (opt_str_eq a.language b.language && opt_str_eq a.disposition b.disposition)))

every_equivalent : List StreamFact → List StreamFact → Bool
unfolding stream_equivalent
every_equivalent [] rs = true
every_equivalent (a ∷ ls) [] = false
every_equivalent (a ∷ ls) (b ∷ rs) = stream_equivalent a b && every_equivalent ls rs

pub streams_equivalent : List StreamFact → List StreamFact → Bool
unfolding every_equivalent
streams_equivalent a b = if length a == length b then every_equivalent a b else false

-- The test of the duration: both unknown, or both known and closer than the tolerance.
pub duration_close : FactTolerance → Option ℕ → Option ℕ → Bool
duration_close t none none = true
duration_close t (some a) (some b) = ltb (distance a b) t.duration_ms
duration_close t _ _ = false

-- `drift > sizeRatio`, with `drift` the difference over the larger size.
pub size_drifted : FactTolerance → ℕ → ℕ → Bool
size_drifted t a b =
    let largest = max a b in
    ltb 0 largest && ltb (t.ratio_num * largest) (distance a b * t.ratio_den)

unfoldable pub facts_equivalent : FactSet → FactSet → FactTolerance → Bool
unfolding duration_close size_drifted streams_equivalent
facts_equivalent a b t =
    if not (str_eq a.container b.container)
    then false
    else if not (opt_nat_eq a.width b.width) || not (opt_nat_eq a.height b.height)
    then false
    else if not (duration_close t a.duration_ms b.duration_ms)
    then false
    else if size_drifted t a.size_bytes b.size_bytes
    then false
    else streams_equivalent a.streams b.streams

abbrev opt_str_json : Option Str → Json
opt_str_json none = null
opt_str_json (some s) = str s

abbrev opt_nat_json : Option ℕ → Json
opt_nat_json none = null
opt_nat_json (some n) = num (pos n)

stream_json : StreamFact → Json
stream_json s = obj (
    field (codes "index") (num (pos s.index)) (
      field (codes "codecType") (str s.codec_type) (
        field (codes "codecName") (str s.codec_name) (
          field (codes "language") (opt_str_json s.language)
            (field (codes "disposition") (opt_str_json s.disposition) end)))))

streams_json : List StreamFact → Items
unfolding stream_json
streams_json [] = nil
streams_json (s ∷ ss) = item (stream_json s) (streams_json ss)

pub facts_json : FactSet → Json
unfolding streams_json
facts_json f = obj (
    field (codes "container") (str f.container) (
      field (codes "sizeBytes") (num (pos f.size_bytes)) (
        field (codes "durationMs") (opt_nat_json f.duration_ms) (
          field (codes "width") (opt_nat_json f.width) (
            field (codes "height") (opt_nat_json f.height)
              (field (codes "streams") (arr (streams_json f.streams)) end))))))

-- `none` would be a refusal of `canonicalJson`.
unfoldable pub facts_hash : (Str → Str) → FactSet → Option Str
unfolding facts_json canonical_json
facts_hash sha256_hex f = Option.map sha256_hex (canonical_json (facts_json f))
