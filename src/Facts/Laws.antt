-- ===== src/Facts/Laws.antt =====
-- The tolerant comparison and the exact hash.
use mathlib.Core.Option
use trawlarr.Prelude.{
  ℕ, ◌<◌, ◌≡◌, refl, sym, ap, true, false, Option, none, some, List, [], ◌∷◌, Str, codes, str_eq,
  str_eq_refl, str_eq_iff, arith, Bool-eq_of_iff, length, max,
}
use trawlarr.Json.{Fields, end, field, arr}
use trawlarr.Json.Serialisable.{
  Serialisable, SerialisableItems, SerialisableFields, field-Serialisable, item-Serialisable,
  canonical_json-some_iff,
}
use trawlarr.Facts.{
  StreamFact, FactSet, FactTolerance, opt_str_eq, opt_nat_eq, opt_str_json, opt_nat_json,
  stream_equivalent, every_equivalent, streams_equivalent, duration_close, size_drifted,
  facts_equivalent, distance, stream_json, streams_json, facts_json, facts_hash,
}

str_eq_sym : (s t : Str) → str_eq s t ≡ str_eq t s
str_eq_sym s t =
    Bool-eq_of_iff (str_eq s t) (str_eq t s) (λ e. (str_eq_iff t s).1 (sym ((str_eq_iff s t).0 e)))
      (λ e. (str_eq_iff s t).1 (sym ((str_eq_iff t s).0 e)))

opt_str_eq_sym : (s t : Option Str) → opt_str_eq s t ≡ opt_str_eq t s
opt_str_eq_sym none none = refl
opt_str_eq_sym (some a) (some b) = str_eq_sym a b
opt_str_eq_sym none (some b) = refl
opt_str_eq_sym (some a) none = refl

opt_nat_eq_sym : (s t : Option ℕ) → opt_nat_eq s t ≡ opt_nat_eq t s
opt_nat_eq_sym none none = refl
opt_nat_eq_sym (some a) (some b) = ground arith
opt_nat_eq_sym none (some b) = refl
opt_nat_eq_sym (some a) none = refl

stream_equivalent_sym : (a b : StreamFact) → stream_equivalent a b ≡ stream_equivalent b a
unfolding stream_equivalent
stream_equivalent_sym a b =
    rw
      (
        str_eq_sym a.codec_type b.codec_type,
        str_eq_sym a.codec_name b.codec_name,
        opt_str_eq_sym a.language b.language,
        opt_str_eq_sym a.disposition b.disposition,
      )
      (ground arith)

every_equivalent_sym :
    (ls rs : List StreamFact)
    → length ls ≡ length rs
    → every_equivalent ls rs ≡ every_equivalent rs ls
unfolding every_equivalent
every_equivalent_sym [] [] h = refl
every_equivalent_sym (a ∷ ls) (b ∷ rs) h =
    rw (stream_equivalent_sym a b, every_equivalent_sym ls rs (omega arith))
every_equivalent_sym [] (b ∷ rs) h = absurd (omega arith)
every_equivalent_sym (a ∷ ls) [] h = absurd (omega arith)

streams_equivalent_sym :
    (ls rs : List StreamFact) → streams_equivalent ls rs ≡ streams_equivalent rs ls
unfolding streams_equivalent
streams_equivalent_sym ls rs = ground (arith, every_equivalent_sym ls rs)

duration_close_sym :
    (t : FactTolerance) (a b : Option ℕ) → duration_close t a b ≡ duration_close t b a
unfolding duration_close
duration_close_sym t none none = refl
duration_close_sym t (some a) (some b) = ground arith
duration_close_sym t none (some b) = refl
duration_close_sym t (some a) none = refl

size_drifted_sym : (t : FactTolerance) (a b : ℕ) → size_drifted t a b ≡ size_drifted t b a
unfolding size_drifted
size_drifted_sym t a b =
    let m : max a b ≡ max b a = omega arith in
    let d : distance a b ≡ distance b a = omega arith in rw (m, d)

-- Which of two fact sets is the earlier one does not matter to the comparison.
pub facts_equivalent_comm :
    (a b : FactSet) (t : FactTolerance) → facts_equivalent a b t ≡ facts_equivalent b a t
unfolding facts_equivalent
facts_equivalent_comm a b t = rw (
  str_eq_sym a.container b.container,
  opt_nat_eq_sym a.width b.width,
  opt_nat_eq_sym a.height b.height,
  duration_close_sym t a.duration_ms b.duration_ms,
  size_drifted_sym t a.size_bytes b.size_bytes,
  streams_equivalent_sym a.streams b.streams,
)

opt_str_eq_refl : (s : Option Str) → opt_str_eq s s ≡ true
opt_str_eq_refl none = refl
opt_str_eq_refl (some s) = str_eq_refl s

stream_equivalent_refl : (a : StreamFact) → stream_equivalent a a ≡ true
unfolding stream_equivalent
stream_equivalent_refl a = ground (
  arith,
  str_eq_refl a.codec_type,
  str_eq_refl a.codec_name,
  opt_str_eq_refl a.language,
  opt_str_eq_refl a.disposition,
)

every_equivalent_refl : (ls : List StreamFact) → every_equivalent ls ls ≡ true
unfolding every_equivalent
every_equivalent_refl [] = refl
every_equivalent_refl (a ∷ ls) = rw (stream_equivalent_refl a) (every_equivalent_refl ls)

duration_close_refl :
    (t : FactTolerance) (d : Option ℕ) → 0 < t.duration_ms → duration_close t d d ≡ true
unfolding duration_close
duration_close_refl t none h = refl
duration_close_refl t (some d) h = ground arith

size_drifted_refl : (t : FactTolerance) (a : ℕ) → size_drifted t a a ≡ false
unfolding size_drifted
size_drifted_refl t a = let z : distance a a ≡ 0 = omega arith in rw z (ground arith)

opt_nat_eq_refl : (s : Option ℕ) → opt_nat_eq s s ≡ true
opt_nat_eq_refl none = refl
opt_nat_eq_refl (some s) = ground arith

-- Facts that did not change count as no change, for every tolerance with a positive duration.
pub facts_equivalent_refl :
    (f : FactSet) (t : FactTolerance) → 0 < t.duration_ms → facts_equivalent f f t ≡ true
unfolding facts_equivalent streams_equivalent
facts_equivalent_refl f t h =
    rw
      (
        str_eq_refl f.container,
        opt_nat_eq_refl f.width,
        opt_nat_eq_refl f.height,
        duration_close_refl t f.duration_ms h,
        size_drifted_refl t f.size_bytes,
        every_equivalent_refl f.streams,
      )
      (ground arith)

opt_nat_json-Serialisable : (n : Option ℕ) → Serialisable (opt_nat_json n)
opt_nat_json-Serialisable none = tt
opt_nat_json-Serialisable (some n) = tt

opt_str_json-Serialisable : (s : Option Str) → Serialisable (opt_str_json s)
opt_str_json-Serialisable none = tt
opt_str_json-Serialisable (some s) = tt

stream_json-Serialisable : (s : StreamFact) → Serialisable (stream_json s)
unfolding stream_json
stream_json-Serialisable s =
    let last : Fields = field (codes "disposition") (opt_str_json s.disposition) end in
    let last_fits : SerialisableFields last =
      field-Serialisable (codes "disposition") (opt_str_json s.disposition) end
        (opt_str_json-Serialisable s.disposition) tt in
    (
      tt,
      (
        tt,
        (
          tt,
          field-Serialisable (codes "language") (opt_str_json s.language) last
              (opt_str_json-Serialisable s.language) last_fits,
        ),
      ),
    )

streams_json-Serialisable : (ls : List StreamFact) → SerialisableItems (streams_json ls)
unfolding streams_json
streams_json-Serialisable [] = tt
streams_json-Serialisable (s ∷ ls) =
    item-Serialisable (stream_json s) (streams_json ls) (stream_json-Serialisable s)
      (streams_json-Serialisable ls)

facts_json-Serialisable : (f : FactSet) → Serialisable (facts_json f)
unfolding facts_json
facts_json-Serialisable f =
    let streams : Fields = field (codes "streams") (arr (streams_json f.streams)) end in
    let height : Fields = field (codes "height") (opt_nat_json f.height) streams in
    let width : Fields = field (codes "width") (opt_nat_json f.width) height in
    let height_fits : SerialisableFields height =
      field-Serialisable (codes "height") (opt_nat_json f.height) streams
        (opt_nat_json-Serialisable f.height) (streams_json-Serialisable f.streams, tt) in
    let width_fits : SerialisableFields width =
      field-Serialisable (codes "width") (opt_nat_json f.width) height
        (opt_nat_json-Serialisable f.width) height_fits in
    (
      tt,
      (
        tt,
        field-Serialisable (codes "durationMs") (opt_nat_json f.duration_ms) width
            (opt_nat_json-Serialisable f.duration_ms) width_fits,
      ),
    )

-- The facts of the model are finite, so `canonicalJson` gives a text for them.
pub facts_hash_total : (sha : Str → Str) (f : FactSet) → (h : Str) × (facts_hash sha f ≡ some h)
unfolding facts_hash
facts_hash_total sha f =
    let (t, e) = (canonical_json-some_iff (facts_json f)).1 (facts_json-Serialisable f) in
    (sha t, ap (Option.map sha) e)
