-- ===== src/Json/Order.antt =====
-- The printed form of an object does not depend on the order of its properties.
use mathlib.Core.List.Permᴰ
use trawlarr.Prelude.{
  ◌≡◌, refl, ap, ◌∙◌, sym, ◌≢◌, Option, none, some, List, [], ◌∷◌, Str, All, HasDistinctKeys,
  sort_by-Permᴰ, Permᴰ,
}
use trawlarr.Json.{
  Json, undef, obj, Fields, end, field, canonical_json, field_texts, close_object, cons_some,
  member, key_of,
}

abbrev pub entries : Fields → List (Str × Json)
entries end = []
entries (field key x fs) = (key, x) ∷ entries fs

abbrev pub entry_key : Str × Json → Str
entry_key e = e.0

-- What one property contributes: nothing if it is undefined.
put : Str → Json → Option (List (Str × Str)) → Option (List (Str × Str))
put key undef rest = rest
put key x rest = cons_some (member key (canonical_json x)) rest

collect : List (Str × Json) → Option (List (Str × Str))
collect [] = some []
collect ((key, x) ∷ l) = put key x (collect l)

field_texts-collect : (fs : Fields) → field_texts fs ≡ collect (entries fs)
unfolding canonical_json field_texts collect put
field_texts-collect end = refl
field_texts-collect (field key undef fs) = field_texts-collect fs
field_texts-collect (field key x fs) =
    ap (λ r. cons_some (member key (canonical_json x)) r) (field_texts-collect fs)

-- Two results that hold the same members, or that both refuse.
abbrev Same : Option (List (Str × Str)) → Option (List (Str × Str)) → Type 0
Same none none = Unit
Same (some ms) (some ns) = Permᴰ ms ns
Same _ _ = ⊥

Same-refl : (r : Option (List (Str × Str))) → Same r r
Same-refl none = tt
Same-refl (some ms) = Permᴰ.refl ms

Same-trans : (r s t : Option (List (Str × Str))) → Same r s → Same s t → Same r t
Same-trans none none none h k = tt
Same-trans (some _) (some _) (some _) h k = Permᴰ.trans h k
Same-trans none none (some _) h k = k
Same-trans none (some _) t h k = absurd h
Same-trans (some _) none t h k = absurd h
Same-trans (some _) (some _) none h k = k

Same-cons :
    (m : Option (Str × Str)) (r s : Option (List (Str × Str)))
    → Same r s
    → Same (cons_some m r) (cons_some m s)
Same-cons none r s h = tt
Same-cons (some m) none none h = tt
Same-cons (some m) (some _) (some _) h = Permᴰ.cons refl h
Same-cons (some m) none (some _) h = h
Same-cons (some m) (some _) none h = h

Same-swap :
    (m n : Option (Str × Str)) (r : Option (List (Str × Str)))
    → Same (cons_some m (cons_some n r)) (cons_some n (cons_some m r))
Same-swap none none r = tt
Same-swap none (some n) r = tt
Same-swap (some m) none r = tt
Same-swap (some m) (some n) none = tt
Same-swap (some m) (some n) (some ms) = Permᴰ.swap refl refl

Same-put :
    (key : Str) (x : Json) (r s : Option (List (Str × Str)))
    → Same r s
    → Same (put key x r) (put key x s)
unfolding put
Same-put key undef r s h = h
Same-put key x r s h = Same-cons (member key (canonical_json x)) r s h

Same-put_swap :
    (key : Str) (x : Json) (key' : Str) (y : Json) (r : Option (List (Str × Str)))
    → Same (put key x (put key' y r)) (put key' y (put key x r))
unfolding put
Same-put_swap key undef key' y r = Same-refl _
Same-put_swap key x key' undef r = Same-refl _
Same-put_swap key x key' y r =
    Same-swap (member key (canonical_json x)) (member key' (canonical_json y)) r

collect-Permᴰ : {l m : List (Str × Json)} → Permᴰ l m → Same (collect l) (collect m)
unfolding collect
collect-Permᴰ Permᴰ.nil = Permᴰ.nil
collect-Permᴰ (Permᴰ.cons {a} {l₁} {l₂} e p) =
    rw (← e) (Same-put a.0 a.1 (collect l₁) (collect l₂) (collect-Permᴰ p))
collect-Permᴰ (Permᴰ.swap {a} {b} {l} e f) =
    rw (← e, ← f) (Same-put_swap a.0 a.1 b.0 b.1 (collect l))
collect-Permᴰ (Permᴰ.trans {l₁} {l₂} {l₃} p q) =
    Same-trans (collect l₁) (collect l₂) (collect l₃) (collect-Permᴰ p) (collect-Permᴰ q)

-- The keys that are printed are keys of the object, each once.
abbrev Fresh : Str → Option (List (Str × Str)) → Type 0
Fresh k none = Unit
Fresh k (some ms) = All (λ m. k ≢ key_of m) ms

abbrev Distinct : Option (List (Str × Str)) → Type 0
Distinct none = Unit
Distinct (some ms) = HasDistinctKeys key_of ms

Fresh-put :
    (k key : Str) (x : Json) (r : Option (List (Str × Str)))
    → k ≢ key
    → Fresh k r
    → Fresh k (put key x r)
unfolding put
Fresh-put k key undef r n h = h
Fresh-put k key x r n h = cons (canonical_json x) r h
  where
    cons :
        (t : Option Str) (r : Option (List (Str × Str)))
        → Fresh k r
        → Fresh k (cons_some (member key t) r)
    cons none r h = tt
    cons (some t) none h = tt
    cons (some t) (some ms) h = (n, h)

Distinct-put :
    (key : Str) (x : Json) (r : Option (List (Str × Str)))
    → Fresh key r
    → Distinct r
    → Distinct (put key x r)
unfolding put
Distinct-put key undef r f h = h
Distinct-put key x r f h = cons (canonical_json x) r f h
  where
    cons :
        (t : Option Str) (r : Option (List (Str × Str)))
        → Fresh key r
        → Distinct r
        → Distinct (cons_some (member key t) r)
    cons none r f h = tt
    cons (some t) none f h = tt
    cons (some t) (some ms) f h = (f, h)

collect-Fresh :
    (k : Str) (l : List (Str × Json)) → All (λ e. k ≢ entry_key e) l → Fresh k (collect l)
unfolding collect
collect-Fresh k [] h = tt
collect-Fresh k ((key, x) ∷ l) (n, h) = Fresh-put k key x (collect l) n (collect-Fresh k l h)

collect-Distinct : (l : List (Str × Json)) → HasDistinctKeys entry_key l → Distinct (collect l)
unfolding collect
collect-Distinct [] h = tt
collect-Distinct ((key, x) ∷ l) (n, h) =
    Distinct-put key x (collect l) (collect-Fresh key l n) (collect-Distinct l h)

close_object-Same :
    (r s : Option (List (Str × Str))) → Same r s → Distinct r → close_object r ≡ close_object s
unfolding close_object
close_object-Same none none h d = refl
close_object-Same none (some _) h d = absurd h
close_object-Same (some _) none h d = absurd h
close_object-Same (some ms) (some ns) h d = rw (sort_by-Permᴰ key_of h d)

-- Two objects with the same properties, written in any order, print as the same text (or are both
-- refused).
pub canonical_json-Permᴰ :
    (fs gs : Fields)
    → Permᴰ (entries fs) (entries gs)
    → HasDistinctKeys entry_key (entries fs)
    → canonical_json (obj fs) ≡ canonical_json (obj gs)
unfolding canonical_json
canonical_json-Permᴰ fs gs p d =
    ap close_object (field_texts-collect fs)
    ∙ close_object-Same (collect (entries fs)) (collect (entries gs)) (collect-Permᴰ p)
        (collect-Distinct (entries fs) d)
    ∙ ap close_object (sym (field_texts-collect gs))
