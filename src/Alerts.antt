-- ===== src/Alerts.antt =====
-- packages/core/src/alerts.ts: the coalescer of alerts.
--
-- The `Map` of the groups is the list of its entries in the order of insertion. Its key is the text
-- of the event and the scope.
pub mod Conservation
pub mod Bounds
mod Tests
use trawlarr.Prelude.{
  ℕ, zero, suc, ◌+◌, ◌-◌, ◌≤◌, ◌<◌, Bool, true, false, ◌&&◌, ◌||◌, not, Option, none, some, List,
  [], ◌∷◌, ◌++◌, Str, codes, str_eq, includes, if◌then◌else◌, ltb, leb, ◌==◌, ℤ, pos, negsuc, sub_ℕ,
  length, any,
}

pub data AlertEventType : Type 0 where
  file_failed file_not_converging node_offline library_root_missing : AlertEventType
  scan_aborted library_paused hardware_check_failed : AlertEventType

-- An event that coalesces, the recovery from an outage, a flow's message or a test.
pub data AlertEventName : Type 0 where
  daemon : AlertEventType → AlertEventName
  recovered : AlertEventType → AlertEventName
  flow_message test : AlertEventName

abbrev pub is_outage : AlertEventType → Bool
is_outage file_failed = false
is_outage file_not_converging = false
is_outage node_offline = true
is_outage library_root_missing = true
is_outage scan_aborted = true
is_outage library_paused = true
is_outage hardware_check_failed = true

abbrev event_text : AlertEventType → Str
event_text file_failed = codes "file.failed"
event_text file_not_converging = codes "file.not_converging"
event_text node_offline = codes "node.offline"
event_text library_root_missing = codes "library.root_missing"
event_text scan_aborted = codes "scan.aborted"
event_text library_paused = codes "library.paused"
event_text hardware_check_failed = codes "hardware.check_failed"

pub data FollowUpKind : Type 0 where
  summary still_down : FollowUpKind

pub record FollowUp : Type 0 where
  pub event : AlertEventType
  pub scope : Str
  pub kind : FollowUpKind
  pub count : ℕ
  pub other_causes : ℕ
  pub examples : List Str

pub record Limits : Type 0 where
  pub window_ms : ℕ
  pub max_causes_per_window : ℕ
  pub repeat_ms : ℕ

abbrev pub max_examples : ℕ
max_examples = 3

pub data Phase : Type 0 where
  window repeat : Phase

-- Sets are lists without repetition. The time of a notice is an integer, since it is a difference.
pub record Group : Type 0 where
  pub event : AlertEventType
  pub scope : Str
  pub window_end_ms : ℕ
  pub phase : Phase
  pub notice_at_ms : ℤ
  pub causes : List Str
  pub seen : List Str
  pub sent_this_window : ℕ
  pub overflow_causes : List Str
  pub pending : ℕ
  pub examples : List Str

abbrev pub key_of : AlertEventType → Str → Str
key_of event scope = event_text event ++ b'|' ∷ scope

abbrev pub Groups : Type 0
Groups = List (Str × Group)

pub record Offer : Type 0 where
  pub event : AlertEventName
  pub scope : Str
  pub cause : Str
  pub example : Option Str
  pub now_ms : ℕ

-- `set.add(x)`
abbrev pub add : Str → List Str → List Str
add x xs = if includes xs x then xs else xs ++ x ∷ []

unfoldable pub new_group : Limits → AlertEventType → Offer → Group
new_group limits event o = record {
  event = event;
  scope = o.scope;
  window_end_ms = o.now_ms + limits.window_ms;
  phase = window;
  notice_at_ms = pos o.now_ms;
  causes = o.cause ∷ [];
  seen = o.cause ∷ [];
  sent_this_window = 1;
  overflow_causes = [];
  pending = 0;
  examples = [];
}

abbrev pub in_window : Phase → Bool
in_window window = true
in_window repeat = false

unfoldable pub keep_example : Option Str → List Str → List Str
keep_example none examples = examples
keep_example (some e) examples =
    if ltb (length examples) max_examples && not (includes examples e)
    then examples ++ e ∷ []
    else examples

-- A further occurrence of a known cause, or of one beyond the cap.
unfoldable pub count_offer : Offer → Group → Group
unfolding keep_example
count_offer o g = record g {
  pending = g.pending + 1;
  seen = if includes g.causes o.cause then add o.cause g.seen else g.seen;
  examples = keep_example o.example g.examples;
}

-- An offer to a group that stands; whether to send it.
unfoldable pub offer_to : Limits → Offer → Group → Group × Bool
unfolding count_offer
offer_to limits o g =
    if not (includes g.causes o.cause)
    then if ltb g.sent_this_window limits.max_causes_per_window
      then (
        record g {
          causes = add o.cause g.causes;
          seen = add o.cause g.seen;
          sent_this_window = g.sent_this_window + 1;
        },
        true,
      )
      else (count_offer o (record g { overflow_causes = add o.cause g.overflow_causes }), false)
    else if is_outage g.event && in_window g.phase
    then (g, false)
    else (count_offer o g, false)

-- The entry of the key is changed, or added at the end.
unfoldable pub offer_at : Limits → AlertEventType → Offer → Groups → Groups × Bool
unfolding offer_to new_group
offer_at limits event o [] = ((key_of event o.scope, new_group limits event o) ∷ [], true)
offer_at limits event o ((key, g) ∷ groups) =
    let here = offer_to limits o g in
    let later = offer_at limits event o groups in
    if str_eq key (key_of event o.scope)
    then ((key, here.0) ∷ groups, here.1)
    else ((key, g) ∷ later.0, later.1)

abbrev pub offer_event : Limits → AlertEventName → Offer → Groups → Groups × Bool
unfolding offer_at
offer_event limits (daemon event) o groups = offer_at limits event o groups
offer_event limits (recovered event) o groups = (groups, true)
offer_event limits flow_message o groups = (groups, true)
offer_event limits test o groups = (groups, true)

unfoldable pub offer : Limits → Offer → Groups → Groups × Bool
unfolding offer_event
offer limits o groups = offer_event limits o.event o groups

-- The group with its counters reset.
unfoldable pub take : Group → Group
take g = record g { pending = 0; sent_this_window = 0; overflow_causes = []; examples = [] }

abbrev pub follow_up : FollowUpKind → Group → FollowUp
follow_up kind g = record {
  event = g.event;
  scope = g.scope;
  kind = kind;
  count = g.pending;
  other_causes = length g.overflow_causes;
  examples = g.examples;
}

abbrev pub is_quiet : Group → Bool
is_quiet g = g.pending == 0 && length g.overflow_causes == 0

-- The close of a window.
unfoldable pub close_window : Limits → ℕ → Group → Option Group
unfolding take
close_window limits now_ms g =
    if is_outage g.event
    then some (record (take g) {
      phase = repeat;
      notice_at_ms = if g.pending == 0 then sub_ℕ g.window_end_ms limits.window_ms else pos now_ms;
    })
    else if not (is_quiet g)
    then some
        (record (take g) { window_end_ms = now_ms + limits.window_ms; causes = g.seen; seen = [] })
    else none

-- `nowMs < noticeAtMs + repeatMs`
abbrev pub before_repeat : Limits → ℕ → ℤ → Bool
before_repeat limits now_ms (pos n) = ltb now_ms (n + limits.repeat_ms)
before_repeat limits now_ms (negsuc n) = ltb (now_ms + suc n) limits.repeat_ms

-- One group when the follow-ups are collected: what is left of it, and what is sent.
unfoldable pub due_group : Limits → ℕ → Group → Option Group × Option FollowUp
unfolding take close_window
due_group limits now_ms g =
    if in_window g.phase
    then if ltb now_ms g.window_end_ms
      then (some g, none)
      else (close_window limits now_ms g, if is_quiet g then none else some (follow_up summary g))
    else if before_repeat limits now_ms g.notice_at_ms
    then (some g, none)
    else if g.pending == 0
    then (none, none)
    else (some (record (take g) { notice_at_ms = pos now_ms }), some (follow_up still_down g))

abbrev pub keep_some : Str → Option Group → Groups → Groups
keep_some key none groups = groups
keep_some key (some g) groups = (key, g) ∷ groups

abbrev pub cons_some : Option FollowUp → List FollowUp → List FollowUp
cons_some none out = out
cons_some (some f) out = f ∷ out

unfoldable pub due : Limits → ℕ → Groups → Groups × List FollowUp
unfolding due_group
due limits now_ms [] = ([], [])
due limits now_ms ((key, g) ∷ groups) =
    let rest = due limits now_ms groups in
    let here = due_group limits now_ms g in (keep_some key here.0 rest.0, cons_some here.1 rest.1)

-- No group has the key of an event other than the daemon's, so clearing one changes nothing.
unfoldable pub clear : AlertEventType → Str → Groups → Groups
clear event scope [] = []
clear event scope ((key, g) ∷ groups) =
    let rest = clear event scope groups in
    if str_eq key (key_of event scope) then rest else (key, g) ∷ rest
