-- ===== src/Alerts/Conservation.antt =====
-- No alert of a file is lost between the offers and what is sent.
use trawlarr.Prelude.{
  ℕ, suc, ◌+◌, ◌≡◌, refl, ap, ◌∙◌, inl, inr, Bool, false, Option, none, some, List, [], ◌∷◌, Str,
  str_eq, All, Bool-cases, if◌then◌else◌, arith,
}
use trawlarr.Alerts.{
  AlertEventType, AlertEventName, daemon, recovered, flow_message, test, is_outage, FollowUp,
  Limits, Group, Groups, Offer, key_of, new_group, count_offer, offer_to, offer_at, offer_event,
  offer, take, close_window, due_group, keep_some, cons_some, due,
}

pub data Action : Type 0 where
  offered : Offer → Action
  collected : ℕ → Action

-- A daemon's event about a file.
abbrev pub IsFileEvent : AlertEventName → Type 0
IsFileEvent (daemon event) = is_outage event ≡ false
IsFileEvent _ = ⊥

abbrev pub IsFileAction : Action → Type 0
IsFileAction (offered o) = IsFileEvent o.event
IsFileAction (collected now_ms) = Unit

unfoldable pub step : Limits → Groups → Action → Groups
unfolding offer due
step limits groups (offered o) = (offer limits o groups).0
step limits groups (collected now_ms) = (due limits now_ms groups).0

unfoldable pub run : Limits → Groups → List Action → Groups
unfolding step
run limits groups [] = groups
run limits groups (a ∷ acts) = run limits (step limits groups a) acts

abbrev pub one_if : Bool → ℕ
one_if b = if b then 1 else 0

abbrev pub total_count : List FollowUp → ℕ
total_count [] = 0
total_count (f ∷ out) = f.count + total_count out

-- The alerts that an action sends by themselves, and those that its follow-ups count.
abbrev reported_by : Limits → Groups → Action → ℕ
unfolding offer due
reported_by limits groups (offered o) = one_if (offer limits o groups).1
reported_by limits groups (collected now_ms) = total_count (due limits now_ms groups).1

unfoldable pub reported : Limits → Groups → List Action → ℕ
unfolding step reported_by
reported limits groups [] = 0
reported limits groups (a ∷ acts) =
    reported_by limits groups a + reported limits (step limits groups a) acts

abbrev pub is_offer : Action → ℕ
is_offer (offered o) = 1
is_offer (collected now_ms) = 0

abbrev pub offers : List Action → ℕ
offers [] = 0
offers (a ∷ acts) = is_offer a + offers acts

abbrev pub total_pending : Groups → ℕ
total_pending [] = 0
total_pending ((key, g) ∷ groups) = g.pending + total_pending groups

abbrev AboutFiles : Groups → Type 0
AboutFiles groups = All (λ entry. is_outage entry.1.event ≡ false) groups

offer_to-pending :
    (limits : Limits) (o : Offer) (g : Group)
    → is_outage g.event ≡ false
    → one_if (offer_to limits o g).1 + (offer_to limits o g).0.pending ≡ suc g.pending
unfolding offer_to count_offer
offer_to-pending limits o g f = ground arith

offer_to-event : (limits : Limits) (o : Offer) (g : Group) → (offer_to limits o g).0.event ≡ g.event
unfolding offer_to count_offer
offer_to-event limits o g = ground arith

offer_at-pending :
    (limits : Limits) (event : AlertEventType) (o : Offer) (groups : Groups)
    → AboutFiles groups
    → one_if (offer_at limits event o groups).1 + total_pending (offer_at limits event o groups).0
      ≡ suc (total_pending groups)
unfolding offer_at new_group
offer_at-pending limits event o [] h = refl
offer_at-pending limits event o ((key, g) ∷ groups) (f, h) =
    elim (Bool-cases (str_eq key (key_of event o.scope))) [
      | inl t ↦ rw t (omega (arith, offer_to-pending limits o g f))
      | inr n ↦ rw n (omega (arith, offer_at-pending limits event o groups h))
    ]

offer_at-AboutFiles :
    (limits : Limits) (event : AlertEventType) (o : Offer) (groups : Groups)
    → is_outage event ≡ false
    → AboutFiles groups
    → AboutFiles (offer_at limits event o groups).0
unfolding offer_at new_group
offer_at-AboutFiles limits event o [] f h = (f, tt)
offer_at-AboutFiles limits event o ((key, g) ∷ groups) f (e, h) =
    elim (Bool-cases (str_eq key (key_of event o.scope))) [
      | inl t ↦ rw t (ap is_outage (offer_to-event limits o g) ∙ e, h)
      | inr n ↦ rw n (e, offer_at-AboutFiles limits event o groups f h)
    ]

abbrev pending_of : Option Group → ℕ
pending_of none = 0
pending_of (some g) = g.pending

abbrev count_of : Option FollowUp → ℕ
count_of none = 0
count_of (some f) = f.count

due_group-pending :
    (limits : Limits) (now_ms : ℕ) (g : Group)
    → count_of (due_group limits now_ms g).1 + pending_of (due_group limits now_ms g).0 ≡ g.pending
unfolding due_group close_window take
due_group-pending limits now_ms g = ground arith

IsAbout : Option Group → Type 0
IsAbout none = Unit
IsAbout (some g) = is_outage g.event ≡ false

due_group-IsAbout :
    (limits : Limits) (now_ms : ℕ) (g : Group)
    → is_outage g.event ≡ false
    → IsAbout (due_group limits now_ms g).0
unfolding due_group close_window take IsAbout
due_group-IsAbout limits now_ms g f = ground arith

total_pending-keep_some :
    (key : Str) (g : Option Group) (groups : Groups)
    → total_pending (keep_some key g groups) ≡ pending_of g + total_pending groups
total_pending-keep_some key none groups = omega arith
total_pending-keep_some key (some g) groups = omega arith

total_count-cons_some :
    (f : Option FollowUp) (out : List FollowUp)
    → total_count (cons_some f out) ≡ count_of f + total_count out
total_count-cons_some none out = omega arith
total_count-cons_some (some f) out = omega arith

due-pending :
    (limits : Limits) (now_ms : ℕ) (groups : Groups)
    → total_count (due limits now_ms groups).1 + total_pending (due limits now_ms groups).0
      ≡ total_pending groups
unfolding due
due-pending limits now_ms [] = refl
due-pending limits now_ms ((key, g) ∷ groups) = omega (
  arith,
  due-pending limits now_ms groups,
  due_group-pending limits now_ms g,
  total_pending-keep_some key (due_group limits now_ms g).0 (due limits now_ms groups).0,
  total_count-cons_some (due_group limits now_ms g).1 (due limits now_ms groups).1,
)

keep_some-AboutFiles :
    (key : Str) (g : Option Group) (groups : Groups)
    → IsAbout g
    → AboutFiles groups
    → AboutFiles (keep_some key g groups)
unfolding IsAbout
keep_some-AboutFiles key none groups f h = h
keep_some-AboutFiles key (some g) groups f h = (f, h)

due-AboutFiles :
    (limits : Limits) (now_ms : ℕ) (groups : Groups)
    → AboutFiles groups
    → AboutFiles (due limits now_ms groups).0
unfolding due
due-AboutFiles limits now_ms [] h = tt
due-AboutFiles limits now_ms ((key, g) ∷ groups) (f, h) =
    keep_some-AboutFiles key _ _ (due_group-IsAbout limits now_ms g f)
      (due-AboutFiles limits now_ms groups h)

step-pending :
    (limits : Limits) (groups : Groups) (a : Action)
    → IsFileAction a
    → AboutFiles groups
    → reported_by limits groups a + total_pending (step limits groups a)
      ≡ is_offer a + total_pending groups
unfolding step reported_by offer offer_event
step-pending limits groups (offered o) f h = by_event o.event f
  where
    by_event :
        (name : AlertEventName)
        → IsFileEvent name
        → one_if (offer_event limits name o groups).1
            + total_pending (offer_event limits name o groups).0
          ≡ 1 + total_pending groups
    by_event (daemon event) f = omega (arith, offer_at-pending limits event o groups h)
    by_event (recovered event) f = absurd f
    by_event flow_message f = absurd f
    by_event test f = absurd f
step-pending limits groups (collected now_ms) f h = omega (arith, due-pending limits now_ms groups)

step-AboutFiles :
    (limits : Limits) (groups : Groups) (a : Action)
    → IsFileAction a
    → AboutFiles groups
    → AboutFiles (step limits groups a)
unfolding step offer offer_event
step-AboutFiles limits groups (offered o) f h = by_event o.event f
  where
    by_event :
        (name : AlertEventName) → IsFileEvent name → AboutFiles (offer_event limits name o groups).0
    by_event (daemon event) f = offer_at-AboutFiles limits event o groups f h
    by_event (recovered event) f = absurd f
    by_event flow_message f = absurd f
    by_event test f = absurd f
step-AboutFiles limits groups (collected now_ms) f h = due-AboutFiles limits now_ms groups h

run-pending :
    (limits : Limits) (groups : Groups) (acts : List Action)
    → All IsFileAction acts
    → AboutFiles groups
    → reported limits groups acts + total_pending (run limits groups acts)
      ≡ offers acts + total_pending groups
unfolding reported run
run-pending limits groups [] f h = omega arith
run-pending limits groups (a ∷ acts) (f, fs) h = omega (
  arith,
  step-pending limits groups a f h,
  run-pending limits (step limits groups a) acts fs (step-AboutFiles limits groups a f h),
)

-- However offers of the daemon's events about files and collections of follow-ups alternate, from an
-- empty coalescer: the alerts that were sent by themselves, those that the follow-ups counted and
-- those that wait for the next follow-up are together as many as were offered.
pub none_lost :
    (limits : Limits) (acts : List Action)
    → All IsFileAction acts
    → reported limits [] acts + total_pending (run limits [] acts) ≡ offers acts
none_lost limits acts f = omega (arith, run-pending limits [] acts f tt)
