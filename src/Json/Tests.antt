-- ===== src/Json/Tests.antt =====
-- Values as text.
use trawlarr.Prelude.{
  ◌≡◌, ◌↔◌, refl, true, none, some, [], ◌∷◌, codes, Str, str_lt, int_text, negsuc, Permᴰ, arith,
}
use trawlarr.Json.{
  undef, callable, not_finite, bool, num, str, arr, obj, nil, item, Fields, end, field,
  canonical_json,
}
use trawlarr.Json.Serialisable.{Serialisable, canonical_json-some_iff}
use trawlarr.Json.Order.{canonical_json-Permᴰ}

abbrev config : Fields
config =
    field (codes "b") (num (negsuc 4))
      (field (codes "a") (arr (item undef (item (bool true) nil))) (field (codes "c") undef end))

abbrev reordered : Fields
reordered =
    field (codes "a") (arr (item undef (item (bool true) nil)))
      (field (codes "b") (num (negsuc 4)) (field (codes "c") undef end))

config_text : canonical_json (obj config) ≡ some (codes "{\"a\":[null,true],\"b\":-5}")
unfolding canonical_json str_lt int_text
config_text = refl

-- A function inside of an object is refused, not left out.
function_refused : canonical_json (obj (field (codes "a") callable end)) ≡ none
unfolding canonical_json
function_refused = refl

escapes :
    canonical_json (str (34 ∷ 92 ∷ 10 ∷ 1 ∷ 0xD83D ∷ 0xDE00 ∷ 0xD83D ∷ []))
    ≡ some (
        34 ∷ 92 ∷ 34 ∷ 92 ∷ 92 ∷ 92 ∷ b'n' ∷ 92 ∷ b'u' ∷ b'0' ∷ b'0' ∷ b'0' ∷ b'1' ∷ 0xD83D ∷ 0xDE00
        ∷ 92 ∷ b'u' ∷ b'd' ∷ b'8' ∷ b'3' ∷ b'd' ∷ 34 ∷ [])
unfolding canonical_json
escapes = refl

canonical_json-Permᴰ_example : canonical_json (obj config) ≡ canonical_json (obj reordered)
canonical_json-Permᴰ_example =
    canonical_json-Permᴰ config reordered (Permᴰ.swap refl refl)
      (((λ e. ground arith), ((λ e. ground arith), tt)), (((λ e. ground arith), tt), (tt, tt)))

canonical_json-some_iff_example :
    ((t : Str) × (canonical_json (arr (item not_finite nil)) ≡ some t))
    ↔ Serialisable (arr (item not_finite nil))
canonical_json-some_iff_example = canonical_json-some_iff (arr (item not_finite nil))
