-- ===== src/Watchdog/Tests.antt =====
-- A monitor of one component, and the theorems on observations at it.
use Prim.Native.Nat.{◌+◌, ◌≤◌}
use zen_ma2_agent.Prelude.{◌≡◌, refl, ◌⊎◌, true, none, List, [], ◌∷◌, arith, map, length, ok, raise}
use zen_ma2_agent.Prelude.Dict.{lookup}
use zen_ma2_agent.Prelude.Text.{codes, text_eq}
use zen_ma2_agent.Workers.{offline}
use zen_ma2_agent.Watchdog.{
  critical, WatchdogComponent, WatchdogEvent, WatchdogMonitor, WatchdogError, bounded_text,
  optional_bounded_text, normalize, normalize_all, is_reported, transition_event, observe_one,
  observe_all, observe,
}
use zen_ma2_agent.Watchdog.Edges.{observe_again}
use zen_ma2_agent.Watchdog.Bounds.{numbers, observe_lem}

abbrev console_down : WatchdogComponent
console_down = record {
  component_id = codes "ma2";
  state = offline;
  required = true;
  detail = none;
}

abbrev fresh_monitor : WatchdogMonitor
fresh_monitor = record { event_capacity = 2; components = []; events = []; sequence = 0 }

abbrev down_event : WatchdogEvent
down_event = record {
  sequence = 1;
  component_id = codes "ma2";
  previous_state = none;
  current_state = offline;
  severity = critical;
  message = codes "ma2 offline";
}

down_reported : (observe (console_down ∷ []) fresh_monitor).0 ≡ ok (down_event ∷ [])
unfolding observe normalize_all normalize bounded_text optional_bounded_text observe_all observe_one
    lookup transition_event is_reported
down_reported = refl

observe_again_example :
    let m = (observe (console_down ∷ []) fresh_monitor).1 in
    let out = observe (console_down ∷ []) m in
    (out.0 ≡ ok []) × (out.1.events ≡ m.events) × (out.1.sequence ≡ m.sequence)
observe_again_example =
    observe_again (console_down ∷ []) fresh_monitor (down_event ∷ []) down_reported

observe_lem_example :
    let out = observe (console_down ∷ []) fresh_monitor in
    (length out.1.events ≤ 2)
    × (((error : WatchdogError) × (out ≡ (raise error, fresh_monitor)))
        ⊎ ((es : List WatchdogEvent) × (out.0 ≡ ok es)
            × (map (λ e. e.sequence) es ≡ numbers (0 + 1) (length es))
            × (out.1.sequence ≡ 0 + length es)))
observe_lem_example = observe_lem (console_down ∷ []) fresh_monitor (omega arith)
