-- ===== src/Watchdog.antt =====
-- zen_ma2_agent/watchdog.py: `WatchdogMonitor`. The lock makes `observe` one step. Components arrive with
-- their fields of the declared types.
pub mod Edges
pub mod Bounds
mod Tests
use Prim.Native.Nat.{ℕ, zero, suc, ◌+◌, ◌-◌}
use zen_ma2_agent.Prelude.{
  Bool, true, false, not, ◌&&◌, ◌||◌, Option, none, some, List, [], ◌∷◌, ◌++◌, if◌then◌else◌, any,
  map, length, drop, ltb, Result, ok, raise, raise_if, ◌>>=◌, ◌>>◌,
}
use zen_ma2_agent.Prelude.Eq.{◌==◌, nat_eq, member}
use zen_ma2_agent.Prelude.Dict.{Dict, lookup, insert}
use zen_ma2_agent.Prelude.Sort.{sort}
use zen_ma2_agent.Prelude.Text.{Text, codes, text_eq, text_leb}
use zen_ma2_agent.Workers.{ComponentState, online, offline, degraded, unknown}

pub data WatchdogSeverity : Type 0 where
  info warning critical : WatchdogSeverity

pub record WatchdogComponent : Type 0 where
  pub component_id : Text
  pub state : ComponentState
  pub required : Bool
  pub detail : Option Text

pub record WatchdogEvent : Type 0 where
  pub sequence : ℕ
  pub component_id : Text
  pub previous_state : Option ComponentState
  pub current_state : ComponentState
  pub severity : WatchdogSeverity
  pub message : Text

pub record WatchdogMonitor : Type 0 where
  pub event_capacity : ℕ
  pub components : Dict Text WatchdogComponent
  pub events : List WatchdogEvent
  pub sequence : ℕ

pub data WatchdogError : Type 0 where
  bad_capacity too_many_components empty_text text_too_long duplicate_component : WatchdogError

abbrev pub max_components : ℕ
max_components = 64

abbrev pub max_events : ℕ
max_events = 128

-- `WatchdogMonitor(event_capacity=…)`
unfoldable pub new_monitor : ℕ → Result WatchdogError WatchdogMonitor
new_monitor capacity = do
  raise_if (ltb capacity 1 || ltb max_events capacity) bad_capacity
  ok (record { event_capacity = capacity; components = []; events = []; sequence = 0 })

abbrev is_blank : Text → Bool
is_blank [] = true
is_blank _ = false

unfoldable pub bounded_text : Text → ℕ → Result WatchdogError Text
bounded_text value max_length = do
  raise_if (is_blank value) empty_text
  raise_if (ltb max_length (length value)) text_too_long
  ok value

unfoldable pub optional_bounded_text : Option Text → ℕ → Result WatchdogError (Option Text)
unfolding bounded_text
optional_bounded_text none max_length = ok none
optional_bounded_text (some value) max_length = do t ← bounded_text value max_length; ok (some t)

-- One component is checked.
unfoldable pub normalize : WatchdogComponent → Result WatchdogError WatchdogComponent
unfolding bounded_text optional_bounded_text
normalize c = do
  id ← bounded_text c.component_id 128
  detail ← optional_bounded_text c.detail 512
  ok (record c { component_id = id; detail = detail })

-- The first loop of `observe`: the components, checked, none twice.
unfoldable pub normalize_all :
    (seen : List Text) → List WatchdogComponent → Result WatchdogError (List WatchdogComponent)
unfolding normalize
normalize_all seen [] = ok []
normalize_all seen (c ∷ cs) = do
  item ← normalize c
  raise_if (member item.component_id seen) duplicate_component
  items ← normalize_all (item.component_id ∷ seen) cs
  ok (item ∷ items)

abbrev pub same_state : ComponentState → ComponentState → Bool
same_state online online = true
same_state offline offline = true
same_state degraded degraded = true
same_state unknown unknown = true
same_state _ _ = false

-- `previous_state == item.state`
abbrev pub unchanged : Option WatchdogComponent → WatchdogComponent → Bool
unchanged none item = false
unchanged (some p) item = same_state p.state item.state

-- `previous.state if previous is not None else None`
abbrev pub state_of : Option WatchdogComponent → Option ComponentState
state_of none = none
state_of (some p) = some p.state

severity_of : WatchdogComponent → WatchdogSeverity
severity_of c = elim c.state [
  | offline ↦ if c.required then critical else warning
  | degraded ↦ warning
  | _ ↦ info
]

verb_of : ComponentState → Text
verb_of online = codes " recovered"
verb_of degraded = codes " degraded"
verb_of _ = codes " offline"

with_detail : Option Text → Text → Text
with_detail none message = message
with_detail (some detail) message =
    if is_blank detail then message else message ++ codes ": " ++ detail

-- Whether a change is reported: not a first `ONLINE`, and never `UNKNOWN`.
unfoldable pub is_reported : Option ComponentState → ComponentState → Bool
is_reported none online = false
is_reported previous unknown = false
is_reported previous state = true

-- `_transition_event`, with the sequence number that the event takes.
unfoldable pub transition_event :
    ℕ → WatchdogComponent → Option ComponentState → Option WatchdogEvent
unfolding severity_of verb_of with_detail is_reported
transition_event sequence c previous =
    if is_reported previous c.state
    then some (record {
      sequence = sequence;
      component_id = c.component_id;
      previous_state = previous;
      current_state = c.state;
      severity = severity_of c;
      message = with_detail c.detail (c.component_id ++ verb_of c.state);
    })
    else none

-- `append` of a `deque(maxlen=capacity)`
unfoldable pub append_bounded : ℕ → List WatchdogEvent → WatchdogEvent → List WatchdogEvent
append_bounded capacity events e =
    let all_events = events ++ e ∷ [] in drop (length all_events - capacity) all_events

-- The body of the second loop: the event, if there is one, and the monitor.
unfoldable pub observe_one :
    WatchdogComponent → WatchdogMonitor → Option WatchdogEvent × WatchdogMonitor
unfolding transition_event append_bounded
observe_one item m =
    let previous = lookup item.component_id m.components in
    let m' : WatchdogMonitor = record m {
      components = insert item.component_id item m.components;
    } in
    if unchanged previous item
    then (none, m')
    else elim (transition_event (m.sequence + 1) item (state_of previous)) [
      | none ↦ (none, m')
      | some e ↦ (
        some e,
        record m' {
          events = append_bounded m.event_capacity m.events e;
          sequence = m.sequence + 1;
        },
      )
    ]

abbrev pub cons_option : Option WatchdogEvent → List WatchdogEvent → List WatchdogEvent
cons_option none es = es
cons_option (some e) es = e ∷ es

-- The second loop: the events that it generates, and the monitor.
unfoldable pub observe_all :
    List WatchdogComponent → WatchdogMonitor → List WatchdogEvent × WatchdogMonitor
unfolding observe_one
observe_all [] m = ([], m)
observe_all (item ∷ items) m =
    let (e, m') = observe_one item m in
    let (es, m'') = observe_all items m' in (cons_option e es, m'')

unfoldable pub observe :
    List WatchdogComponent
    → WatchdogMonitor
    → Result WatchdogError (List WatchdogEvent) × WatchdogMonitor
unfolding normalize_all observe_all
observe cs m =
    if ltb max_components (length cs)
    then (raise too_many_components, m)
    else elim (normalize_all [] cs) [
      | raise e ↦ (raise e, m)
      | ok items ↦ let (es, m') = observe_all items m in (ok es, m')
    ]

-- The overall state of `snapshot`.
unfoldable pub overall : List WatchdogComponent → ComponentState
overall cs =
    if any (λ c. c.required && same_state c.state offline) cs
    then offline
    else if any (λ c. same_state c.state degraded || (not c.required && same_state c.state offline))
        cs
    then degraded
    else if length cs == 0 || any (λ c. same_state c.state unknown) cs
    then unknown
    else online

-- `snapshot`: the overall state, the components by identifier, and the events.
unfoldable pub snapshot :
    WatchdogMonitor → ComponentState × List WatchdogComponent × List WatchdogEvent
unfolding overall
snapshot m =
    let cs = sort (λ a b. text_leb a.component_id b.component_id) (map (λ p. p.1) m.components) in
    (overall cs, cs, m.events)
