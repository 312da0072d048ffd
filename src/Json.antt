-- ===== src/Json.antt =====
-- packages/core/src/canonical-json.ts: deterministic JSON text.
--
-- `Json` holds the values that the function distinguishes: `undef` is undefined, `callable` a function
-- or a symbol, `not_finite` NaN or an infinity, `opaque` an object that is neither an array nor a
-- plain object. `num` is an integer below 10 ^ 21 in absolute value; `other_num` is any other finite
-- number, given by the text that `JSON.stringify` prints for it. An array has no holes. A value here
-- is a tree, so values with circular references, which the source refuses, are left out. A refusal
-- (`throw`) is `none`.
pub mod Order
pub mod Serialisable
mod Tests
use trawlarr.Prelude.{
  ℕ, ◌+◌, ◌/◌, ◌%◌, Bool, true, false, ◌&&◌, ◌||◌, Option, none, some, List, [], ◌∷◌, ◌++◌, Str,
  codes, if◌then◌else◌, ltb, leb, ◌==◌, ℤ, int_text, decimal, sort_by,
}

mutual
  pub data Json : Type 0 where
    null : Json
    undef : Json
    callable : Json
    not_finite : Json
    opaque : Json
    bool : Bool → Json
    num : ℤ → Json
    other_num : Str → Json
    big : ℤ → Json
    str : Str → Json
    arr : Items → Json
    obj : Fields → Json

  pub data Items : Type 0 where
    nil : Items
    item : Json → Items → Items

  -- The own enumerable properties of a plain object, in the order in which they were created.
  pub data Fields : Type 0 where
    end : Fields
    field : Str → Json → Fields → Fields

hex_digit : ℕ → ℕ
hex_digit d = if ltb d 10 then 48 + d else 87 + d

unicode_escape : ℕ → Str
unfolding hex_digit
unicode_escape c =
    b'\\'
    ∷ b'u'
    ∷ hex_digit (c / 4096)
    ∷ hex_digit (c / 256 % 16)
    ∷ hex_digit (c / 16 % 16)
    ∷ hex_digit (c % 16)
    ∷ []

is_high_surrogate : ℕ → Bool
is_high_surrogate c = leb 0xD800 c && leb c 0xDBFF

is_low_surrogate : ℕ → Bool
is_low_surrogate c = leb 0xDC00 c && leb c 0xDFFF

-- The escape of one code unit that is no part of a surrogate pair.
escape_unit : ℕ → Str
unfolding unicode_escape is_high_surrogate is_low_surrogate
escape_unit c =
    if c == 34
    then b'\\' ∷ 34 ∷ []
    else if c == b'\\'
    then b'\\' ∷ b'\\' ∷ []
    else if c == 8
    then codes "\\b"
    else if c == 9
    then codes "\\t"
    else if c == 10
    then codes "\\n"
    else if c == 12
    then codes "\\f"
    else if c == 13
    then codes "\\r"
    else if ltb c 32
    then unicode_escape c
    else if is_high_surrogate c || is_low_surrogate c
    then unicode_escape c
    else c ∷ []

escape : Str → Str
unfolding escape_unit is_high_surrogate is_low_surrogate
escape [] = []
escape (c ∷ []) = escape_unit c
escape (c ∷ d ∷ s) =
    let pair = c ∷ d ∷ escape s in
    let single = escape_unit c ++ escape (d ∷ s) in
    if is_high_surrogate c && is_low_surrogate d then pair else single

-- `JSON.stringify` of a string.
unfoldable pub quote : Str → Str
unfolding escape
quote s = 34 ∷ (escape s ++ 34 ∷ [])

-- `parts.join(',')`
unfoldable pub join_comma : List Str → Str
join_comma [] = []
join_comma (s ∷ []) = s
join_comma (s ∷ t ∷ l) = s ++ (b',' ∷ join_comma (t ∷ l))

-- One printed member of an object.
unfoldable pub member_text : Str × Str → Str
unfolding quote
member_text (key, value) = quote key ++ (b':' ∷ value)

abbrev pub cons_some {ℓ} : {A : Type ℓ} → Option A → Option (List A) → Option (List A)
cons_some (some x) (some xs) = some (x ∷ xs)
cons_some _ _ = none

abbrev pub member : Str → Option Str → Option (Str × Str)
member key none = none
member key (some text) = some (key, text)

abbrev pub key_of : Str × Str → Str
key_of m = m.0

abbrev map_text : List (Str × Str) → List Str
map_text [] = []
map_text (m ∷ ms) = member_text m ∷ map_text ms

abbrev close_array : Option (List Str) → Option Str
close_array none = none
close_array (some parts) = some (b'[' ∷ (join_comma parts ++ b']' ∷ []))

-- The members in the order of their keys, printed and joined.
unfoldable pub close_object : Option (List (Str × Str)) → Option Str
unfolding join_comma member_text sort_by
close_object none = none
close_object (some ms) = some (b'{' ∷ (join_comma (map_text (sort_by key_of ms)) ++ b'}' ∷ []))

-- An undefined entry of an array prints as null, an undefined member of an object is left out. The
-- source sorts the keys before it prints the values; here the printed members are sorted, since a
-- member's text does not depend on its place.
unfoldable mutual
  unfolding quote join_comma close_object

  pub canonical_json : Json → Option Str
  canonical_json null = some (codes "null")
  canonical_json undef = none
  canonical_json callable = none
  canonical_json not_finite = none
  canonical_json opaque = none
  canonical_json (bool true) = some (codes "true")
  canonical_json (bool false) = some (codes "false")
  canonical_json (num n) = some (int_text n)
  canonical_json (other_num text) = some text
  canonical_json (big n) = some (quote (int_text n))
  canonical_json (str s) = some (quote s)
  canonical_json (arr xs) = close_array (item_texts xs)
  canonical_json (obj fs) = close_object (field_texts fs)

  pub item_texts : Items → Option (List Str)
  item_texts nil = some []
  item_texts (item undef xs) = cons_some (some (codes "null")) (item_texts xs)
  item_texts (item x xs) = cons_some (canonical_json x) (item_texts xs)

  pub field_texts : Fields → Option (List (Str × Str))
  field_texts end = some []
  field_texts (field key undef fs) = field_texts fs
  field_texts (field key x fs) = cons_some (member key (canonical_json x)) (field_texts fs)
