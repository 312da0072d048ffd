-- ===== src/Alerts/Bounds.antt =====
-- How many causes a window of the coalescer announces.
use trawlarr.Prelude.{
  ℕ, ◌+◌, ◌≤◌, ◌<◌, ◌≡◌, refl, sym, inl, inr, Bool, true, false, ◌&&◌, Option, none, some, List, [],
  ◌∷◌, Str, str_eq, str_eq_iff, str_eq_refl, All, Bool-cases, arith, if◌then◌else◌,
}
use trawlarr.Alerts.{
  AlertEventType, AlertEventName, daemon, recovered, flow_message, test, Limits, Group, Groups,
  Offer, key_of, new_group, count_offer, offer_to, offer_at, offer_event, offer, in_window,
  due_group, keep_some, due,
}
use trawlarr.Alerts.Conservation.{Action, offered, collected, step}

-- The offer is of the daemon's event and the scope that the key stands for.
abbrev pub has_key : Str → AlertEventName → Str → Bool
has_key key (daemon event) scope = str_eq (key_of event scope) key
has_key key _ scope = false

abbrev announces : Limits → Str → Groups → Action → ℕ
announces limits key groups (offered o) =
    if has_key key o.event o.scope && (offer limits o groups).1 then 1 else 0
announces limits key groups (collected now_ms) = 0

-- How many offers of the key the coalescer says to send at once.
unfoldable pub announced : Limits → Str → Groups → List Action → ℕ
unfolding step offer
announced limits key groups [] = 0
announced limits key groups (a ∷ acts) =
    announces limits key groups a + announced limits key (step limits groups a) acts

-- No follow-ups are collected at `end_ms` or later.
abbrev pub IsBefore : ℕ → Action → Type 0
IsBefore end_ms (offered o) = Unit
IsBefore end_ms (collected now_ms) = now_ms < end_ms

-- The first entry of the key is in a window that lasts until `end_ms` at least, and has announced
-- `sent` causes, no more than the limit.
data IsOpen (limits : Limits) (key : Str) (end_ms : ℕ) (sent : ℕ) : Groups → Type 0 where
  here :
      {k : Str} {g : Group} {groups : Groups}
      → str_eq k key ≡ true
      → in_window g.phase ≡ true
      → end_ms ≤ g.window_end_ms
      → g.sent_this_window ≡ sent
      → sent ≤ limits.max_causes_per_window
      → IsOpen limits key end_ms sent ((k, g) ∷ groups)
  later :
      {k : Str} {g : Group} {groups : Groups}
      → str_eq k key ≡ false
      → IsOpen limits key end_ms sent groups
      → IsOpen limits key end_ms sent ((k, g) ∷ groups)

IsOpen-le :
    {limits : Limits} {key : Str} {end_ms sent : ℕ} {groups : Groups}
    → IsOpen limits key end_ms sent groups
    → sent ≤ limits.max_causes_per_window
IsOpen-le (here e w b s le) = le
IsOpen-le (later n h) = IsOpen-le h

offer_to-IsOpen :
    (limits : Limits) (key : Str) (end_ms sent : ℕ) (o : Offer) (k : Str) (g : Group)
    (groups : Groups)
    → str_eq k key ≡ true
    → in_window g.phase ≡ true
    → end_ms ≤ g.window_end_ms
    → g.sent_this_window ≡ sent
    → sent ≤ limits.max_causes_per_window
    → IsOpen limits key end_ms
        (sent + (if (offer_to limits o g).1 then 1 else 0))
        ((k, (offer_to limits o g).0) ∷ groups)
unfolding offer_to count_offer
offer_to-IsOpen limits key end_ms sent o k g groups e w b s le =
    here e (ground arith) (ground arith) (ground arith) (ground arith)

offer_at-IsOpen :
    (limits : Limits) (event : AlertEventType) (o : Offer) (end_ms sent : ℕ) {groups : Groups}
    → IsOpen limits (key_of event o.scope) end_ms sent groups
    → IsOpen limits
        (key_of event o.scope)
        end_ms
        (sent + (if (offer_at limits event o groups).1 then 1 else 0))
        (offer_at limits event o groups).0
unfolding offer_at
offer_at-IsOpen limits event o end_ms sent (here {k} {g} {groups} e w b s le) =
    rw e (offer_to-IsOpen limits _ end_ms sent o k g groups e w b s le)
offer_at-IsOpen limits event o end_ms sent (later n h) =
    rw n (later n (offer_at-IsOpen limits event o end_ms sent h))

offer_at_other-IsOpen :
    (limits : Limits) (event : AlertEventType) (o : Offer) (key : Str) (end_ms sent : ℕ)
    {groups : Groups}
    → str_eq (key_of event o.scope) key ≡ false
    → IsOpen limits key end_ms sent groups
    → IsOpen limits key end_ms sent (offer_at limits event o groups).0
unfolding offer_at
offer_at_other-IsOpen limits event o key end_ms sent other (here {k} {g} {groups} e w b s le) =
    elim (Bool-cases (str_eq k (key_of event o.scope))) [
      | inl t ↦
          let same : k ≡ key_of event o.scope = (str_eq_iff k (key_of event o.scope)).0 t in
          cc (rw same at e)
      | inr f ↦ rw f (here e w b s le)
    ]
offer_at_other-IsOpen limits event o key end_ms sent other (later {k} n h) =
    elim (Bool-cases (str_eq k (key_of event o.scope))) [
      | inl t ↦ rw t (later n h)
      | inr f ↦ rw f (later n (offer_at_other-IsOpen limits event o key end_ms sent other h))
    ]

keep_some-IsOpen :
    {limits : Limits} {key : Str} {end_ms sent : ℕ} (k : Str) (left : Option Group)
    {groups : Groups}
    → str_eq k key ≡ false
    → IsOpen limits key end_ms sent groups
    → IsOpen limits key end_ms sent (keep_some k left groups)
keep_some-IsOpen k none n h = h
keep_some-IsOpen k (some g) n h = later n h

due_group_open :
    (limits : Limits) (now_ms : ℕ) (g : Group)
    → in_window g.phase ≡ true
    → now_ms < g.window_end_ms
    → (due_group limits now_ms g).0 ≡ some g
unfolding due_group
due_group_open limits now_ms g w b = ground arith

due-IsOpen :
    (limits : Limits) (now_ms : ℕ) {key : Str} {end_ms sent : ℕ} {groups : Groups}
    → now_ms < end_ms
    → IsOpen limits key end_ms sent groups
    → IsOpen limits key end_ms sent (due limits now_ms groups).0
unfolding due
due-IsOpen limits now_ms before (here {k} {g} e w b s le) =
    rw (due_group_open limits now_ms g w (omega arith)) (here e w b s le)
due-IsOpen limits now_ms before (later {k} n h) =
    keep_some-IsOpen k _ n (due-IsOpen limits now_ms before h)

-- `s + 0` is `s`.
nothing_sent :
    {limits : Limits} {key : Str} {end_ms sent : ℕ} {groups : Groups}
    → IsOpen limits key end_ms sent groups
    → IsOpen limits key end_ms (sent + 0) groups
nothing_sent {sent} h = let same : sent + 0 ≡ sent = omega arith in rw same h

offer_event-IsOpen :
    (limits : Limits) (key : Str) (end_ms sent : ℕ) (groups : Groups) (o : Offer)
    (name : AlertEventName)
    → IsOpen limits key end_ms sent groups
    → IsOpen limits key end_ms
        (sent + (if has_key key name o.scope && (offer_event limits name o groups).1 then 1 else 0))
        (offer_event limits name o groups).0
unfolding offer_event
offer_event-IsOpen limits key end_ms sent groups o (daemon event) h =
    elim (Bool-cases (str_eq (key_of event o.scope) key)) [
      | inl t ↦
          let same : key ≡ key_of event o.scope =
            sym ((str_eq_iff (key_of event o.scope) key).0 t) in
          rw t (rw same (offer_at-IsOpen limits event o end_ms sent (rw same at h)))
      | inr f ↦ rw f (nothing_sent (offer_at_other-IsOpen limits event o key end_ms sent f h))
    ]
offer_event-IsOpen limits key end_ms sent groups o (recovered event) h = nothing_sent h
offer_event-IsOpen limits key end_ms sent groups o flow_message h = nothing_sent h
offer_event-IsOpen limits key end_ms sent groups o test h = nothing_sent h

step-IsOpen :
    (limits : Limits) (key : Str) (end_ms sent : ℕ) (groups : Groups) (a : Action)
    → IsBefore end_ms a
    → IsOpen limits key end_ms sent groups
    → IsOpen limits key end_ms (sent + announces limits key groups a) (step limits groups a)
unfolding step offer
step-IsOpen limits key end_ms sent groups (offered o) b h =
    offer_event-IsOpen limits key end_ms sent groups o o.event h
step-IsOpen limits key end_ms sent groups (collected now_ms) b h =
    nothing_sent (due-IsOpen limits now_ms b h)

IsOpen-announced :
    (limits : Limits) (key : Str) (end_ms sent : ℕ) (groups : Groups) (acts : List Action)
    → All (IsBefore end_ms) acts
    → IsOpen limits key end_ms sent groups
    → sent + announced limits key groups acts ≤ limits.max_causes_per_window
unfolding announced
IsOpen-announced limits key end_ms sent groups [] b h = omega (arith, IsOpen-le h)
IsOpen-announced limits key end_ms sent groups (a ∷ acts) (b, bs) h = omega (
  arith,
  IsOpen-announced limits key end_ms (sent + announces limits key groups a) (step limits groups a)
      acts bs (step-IsOpen limits key end_ms sent groups a b h),
)

-- No group stands for the key.
abbrev pub IsNew : Str → Groups → Type 0
IsNew key groups = All (λ entry. str_eq entry.0 key ≡ false) groups

opened :
    (limits : Limits) (event : AlertEventType) (o : Offer) (groups : Groups)
    → 1 ≤ limits.max_causes_per_window
    → IsNew (key_of event o.scope) groups
    → IsOpen limits
        (key_of event o.scope)
        (o.now_ms + limits.window_ms)
        1
        (offer_at limits event o groups).0
unfolding offer_at new_group
opened limits event o [] c n = here (str_eq_refl (key_of event o.scope)) refl (omega arith) refl c
opened limits event o ((k, g) ∷ groups) c (n, ns) =
    rw n (later n (opened limits event o groups c ns))

opening-announces :
    (limits : Limits) (event : AlertEventType) (o : Offer) (groups : Groups)
    → IsNew (key_of event o.scope) groups
    → (offer_at limits event o groups).1 ≡ true
unfolding offer_at
opening-announces limits event o [] n = refl
opening-announces limits event o ((k, g) ∷ groups) (n, ns) =
    rw n (opening-announces limits event o groups ns)

one_at_most : (b : Bool) → (if b then 1 else 0) ≤ 1
one_at_most b = ground arith

-- An offer of a daemon's event for which no group stands is sent, and opens a window. From it on,
-- until follow-ups are collected at the end of the window or later, at most `maxCausesPerWindow`
-- offers of the event and the scope are sent, the first one included, whatever is offered and
-- collected in between. The limit is at least one.
pub window-announced :
    (limits : Limits) (groups : Groups) (event : AlertEventType) (o : Offer) (acts : List Action)
    → 1 ≤ limits.max_causes_per_window
    → o.event ≡ daemon event
    → IsNew (key_of event o.scope) groups
    → All (IsBefore (o.now_ms + limits.window_ms)) acts
    → ((offer limits o groups).1 ≡ true)
      × (announced limits (key_of event o.scope) groups (offered o ∷ acts)
          ≤ limits.max_causes_per_window)
unfolding announced offer step
window-announced limits groups event o acts c e n b =
    let sent : (offer limits o groups).1 ≡ true =
      rw e (opening-announces limits event o groups n) in
    let standing = opened limits event o groups c n in
    let rest = IsOpen-announced limits _ _ 1 _ acts b standing in
    (sent, rw e (omega (arith, one_at_most (_ && _), rest)))
