-- ===== src/Json/Serialisable.antt =====
-- Which values `canonicalJson` accepts.
use trawlarr.Prelude.{◌≡◌, refl, ◌↔◌, Option, none, some, List, true, false, Str, codes}
use trawlarr.Json.{
  Json, null, undef, callable, not_finite, opaque, bool, num, other_num, big, str, arr, obj, Items,
  nil, item, Fields, end, field, canonical_json, item_texts, field_texts, close_object, close_array,
  cons_some, member,
}

-- No NaN, no infinity, no function or symbol and no exotic object anywhere, and undefined only
-- directly in an array or an object.
abbrev mutual
  pub Serialisable : Json → Type 0
  Serialisable undef = ⊥
  Serialisable callable = ⊥
  Serialisable not_finite = ⊥
  Serialisable opaque = ⊥
  Serialisable (arr xs) = SerialisableItems xs
  Serialisable (obj fs) = SerialisableFields fs
  Serialisable _ = Unit

  pub SerialisableItems : Items → Type 0
  SerialisableItems nil = Unit
  SerialisableItems (item undef xs) = SerialisableItems xs
  SerialisableItems (item x xs) = Serialisable x × SerialisableItems xs

  pub SerialisableFields : Fields → Type 0
  SerialisableFields end = Unit
  SerialisableFields (field key undef fs) = SerialisableFields fs
  SerialisableFields (field key x fs) = Serialisable x × SerialisableFields fs

abbrev Some {ℓ} : {A : Type ℓ} → Option A → Type ℓ
Some {A} o = (a : A) × (o ≡ some a)

close_array-Some : (r : Option (List Str)) → Some r → Some (close_array r)
close_array-Some none (a, e) = cc
close_array-Some (some ms) h = (_, refl)

close_object-Some : (r : Option (List (Str × Str))) → Some r → Some (close_object r)
unfolding close_object
close_object-Some none (a, e) = cc
close_object-Some (some ms) h = (_, refl)

cons_some-Some {ℓ} :
    {A : Type ℓ} (x : Option A) (xs : Option (List A)) → Some x → Some xs → Some (cons_some x xs)
cons_some-Some none xs (a, e) k = cc
cons_some-Some (some x) none h (a, e) = cc
cons_some-Some (some x) (some xs) h k = (_, refl)

member-Some : (key : Str) (t : Option Str) → Some t → Some (member key t)
member-Some key none (a, e) = cc
member-Some key (some t) h = (_, refl)

mutual
  unfolding canonical_json item_texts field_texts

  accepts : (j : Json) → Serialisable j → Some (canonical_json j)
  accepts null h = (_, refl)
  accepts undef h = absurd h
  accepts callable h = absurd h
  accepts not_finite h = absurd h
  accepts opaque h = absurd h
  accepts (bool true) h = (_, refl)
  accepts (bool false) h = (_, refl)
  accepts (num n) h = (_, refl)
  accepts (other_num text) h = (_, refl)
  accepts (big n) h = (_, refl)
  accepts (str s) h = (_, refl)
  accepts (arr xs) h = close_array-Some (item_texts xs) (accepts_items xs h)
  accepts (obj fs) h = close_object-Some (field_texts fs) (accepts_fields fs h)

  accepts_items : (xs : Items) → SerialisableItems xs → Some (item_texts xs)
  accepts_items nil h = (_, refl)
  accepts_items (item undef xs) h = cons_some-Some _ _ (_, refl) (accepts_items xs h)
  accepts_items (item x xs) (p, h) = cons_some-Some _ _ (accepts x p) (accepts_items xs h)

  accepts_fields : (fs : Fields) → SerialisableFields fs → Some (field_texts fs)
  accepts_fields end h = (_, refl)
  accepts_fields (field key undef fs) h = accepts_fields fs h
  accepts_fields (field key x fs) (p, h) =
      cons_some-Some _ _ (member-Some key (canonical_json x) (accepts x p)) (accepts_fields fs h)

close_array-inv : (r : Option (List Str)) → Some (close_array r) → Some r
close_array-inv none (a, e) = cc
close_array-inv (some ms) h = (ms, refl)

close_object-inv : (r : Option (List (Str × Str))) → Some (close_object r) → Some r
unfolding close_object
close_object-inv none (a, e) = cc
close_object-inv (some ms) h = (ms, refl)

cons_some-inv {ℓ} :
    {A : Type ℓ} (x : Option A) (xs : Option (List A)) → Some (cons_some x xs) → Some x × Some xs
cons_some-inv none xs (a, e) = cc
cons_some-inv (some x) none (a, e) = cc
cons_some-inv (some x) (some xs) h = ((x, refl), (xs, refl))

member-inv : (key : Str) (t : Option Str) → Some (member key t) → Some t
member-inv key none (a, e) = cc
member-inv key (some t) h = (t, refl)

mutual
  unfolding canonical_json item_texts field_texts

  accepted : (j : Json) → Some (canonical_json j) → Serialisable j
  accepted null h = tt
  accepted undef (t, e) = cc
  accepted callable (t, e) = cc
  accepted not_finite (t, e) = cc
  accepted opaque (t, e) = cc
  accepted (bool b) h = tt
  accepted (num n) h = tt
  accepted (other_num text) h = tt
  accepted (big n) h = tt
  accepted (str s) h = tt
  accepted (arr xs) h = accepted_items xs (close_array-inv (item_texts xs) h)
  accepted (obj fs) h = accepted_fields fs (close_object-inv (field_texts fs) h)

  accepted_items : (xs : Items) → Some (item_texts xs) → SerialisableItems xs
  accepted_items nil h = tt
  accepted_items (item undef xs) h =
      accepted_items xs (cons_some-inv (some (codes "null")) (item_texts xs) h).1
  accepted_items (item x xs) h =
      let (p, q) = cons_some-inv (canonical_json x) (item_texts xs) h in
      (accepted x p, accepted_items xs q)

  accepted_fields : (fs : Fields) → Some (field_texts fs) → SerialisableFields fs
  accepted_fields end h = tt
  accepted_fields (field key undef fs) h = accepted_fields fs h
  accepted_fields (field key x fs) h =
      let (p, q) = cons_some-inv (member key (canonical_json x)) (field_texts fs) h in
      (accepted x (member-inv key (canonical_json x) p), accepted_fields fs q)

-- For a value without circular references, `canonicalJson` returns a text exactly if it has no NaN, no
-- infinity, no function or symbol and no exotic object anywhere, arrays and objects included, and is
-- not undefined itself; it throws for all others.
pub canonical_json-some_iff :
    (j : Json) → ((t : Str) × (canonical_json j ≡ some t)) ↔ Serialisable j
canonical_json-some_iff j = (accepted j, accepts j)

pub field-Serialisable :
    (key : Str) (j : Json) (fs : Fields)
    → Serialisable j
    → SerialisableFields fs
    → SerialisableFields (field key j fs)
field-Serialisable key undef fs h k = k
field-Serialisable key j fs h k = (h, k)

pub item-Serialisable :
    (j : Json) (xs : Items) → Serialisable j → SerialisableItems xs → SerialisableItems (item j xs)
item-Serialisable undef xs h k = k
item-Serialisable j xs h k = (h, k)
