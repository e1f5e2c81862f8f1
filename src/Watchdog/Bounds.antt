-- ===== src/Watchdog/Bounds.antt =====
-- The numbers of the events of zen_ma2_agent/watchdog.py and the bound on how many are kept.
use Prim.Native.Nat.{ℕ, zero, suc, ◌+◌, ◌-◌, ◌≤◌}
use zen_ma2_agent.Prelude.{
  ◌≡◌, refl, ◌∙◌, ap, ◌⊎◌, inl, inr, Option, none, some, List, [], ◌∷◌, ◌++◌, arith, map,
  Bool-cases, Option-cases, Result-cases, ok, raise, length, length-drop, ltb,
}
use zen_ma2_agent.Prelude.Dict.{lookup}
use zen_ma2_agent.Prelude.Text.{text_eq}
use zen_ma2_agent.Workers.{ComponentState}
use zen_ma2_agent.Watchdog.{
  WatchdogComponent, WatchdogEvent, WatchdogMonitor, WatchdogError, max_components,
  transition_event, append_bounded, observe_one, observe_all, observe, unchanged, state_of,
  normalize_all,
}

length-append_bounded :
    (capacity : ℕ) (es : List WatchdogEvent) (e : WatchdogEvent)
    → length (append_bounded capacity es e) ≤ capacity
unfolding append_bounded
length-append_bounded capacity es e =
    omega (arith, length-drop (length (es ++ e ∷ []) - capacity) (es ++ e ∷ []))

-- `count` numbers from `start` on.
abbrev pub numbers : (start count : ℕ) → List ℕ
numbers start zero = []
numbers start (suc count) = start ∷ numbers (suc start) count

sequence-transition_event :
    (n : ℕ) (c : WatchdogComponent) (p : Option ComponentState) (e : WatchdogEvent)
    → transition_event n c p ≡ some e
    → e.sequence ≡ n
unfolding transition_event
sequence-transition_event n c p e h = ground arith

observe_one_cases :
    (c : WatchdogComponent) (m : WatchdogMonitor)
    → let out = observe_one c m in
      (out.1.event_capacity ≡ m.event_capacity)
      × (((out.0 ≡ none) × (out.1.sequence ≡ m.sequence) × (out.1.events ≡ m.events))
          ⊎ ((e : WatchdogEvent) × (out.0 ≡ some e)
              × (e.sequence ≡ m.sequence + 1)
              × (out.1.sequence ≡ m.sequence + 1)
              × (out.1.events ≡ append_bounded m.event_capacity m.events e)))
unfolding observe_one
observe_one_cases c m = elim (Bool-cases (unchanged (lookup c.component_id m.components) c)) [
  | inl same ↦ rw (same, observe_one) (refl, inl (refl, refl, refl))
  | inr edge ↦
      elim (Option-cases
        (transition_event (m.sequence + 1) c (state_of (lookup c.component_id m.components)))) [
          | inl silent ↦ rw (edge, silent, observe_one) (refl, inl (refl, refl, refl))
          | inr (e, found) ↦
              rw (edge, found, observe_one)
                (
                  refl,
                  inr (
                    e,
                    refl,
                    sequence-transition_event (m.sequence + 1) c
                        (state_of (lookup c.component_id m.components)) e found,
                    refl,
                    refl,
                  ),
                )
        ]
]

observe_all_lem :
    (cs : List WatchdogComponent) (m : WatchdogMonitor)
    → length m.events ≤ m.event_capacity
    → let out = observe_all cs m in
      (length out.1.events ≤ out.1.event_capacity)
      × (out.1.event_capacity ≡ m.event_capacity)
      × (map (λ e. e.sequence) out.0 ≡ numbers (m.sequence + 1) (length out.0))
      × (out.1.sequence ≡ m.sequence + length out.0)
unfolding observe_all
observe_all_lem [] m b = (b, refl, refl, omega arith)
observe_all_lem (c ∷ cs) m b =
    let m' = (observe_one c m).1 in
    let (cap, which) = observe_one_cases c m in
    elim which [
      | inl (silent, kept, es) ↦
          let (b', c', ns, s) = observe_all_lem cs m' (rw (cap, es) b) in
          rw silent (b', c' ∙ cap, rw kept at ns, omega arith)
      | inr (e, out, num, s1, es) ↦
          let short = length-append_bounded m.event_capacity m.events e in
          let (b', c', ns, s) = observe_all_lem cs m' (rw (cap, es) short) in
          let next : suc (m.sequence + 1) ≡ m.sequence + 1 + 1 = omega arith in
          rw out
            (b', c' ∙ cap, rw (num, next) (ap (◌∷◌ (m.sequence + 1)) (rw s1 at ns)), omega arith)
    ]

-- An observation, accepted or refused, keeps no more events than the capacity. A refused one changes
-- nothing; an accepted one numbers its events one after the other from the next number of the monitor,
-- and the number of the monitor becomes that of the last one.
pub observe_lem :
    (cs : List WatchdogComponent) (m : WatchdogMonitor)
    → length m.events ≤ m.event_capacity
    → let out = observe cs m in
      (length out.1.events ≤ m.event_capacity)
      × (((error : WatchdogError) × (out ≡ (raise error, m)))
          ⊎ ((es : List WatchdogEvent) × (out.0 ≡ ok es)
              × (map (λ e. e.sequence) es ≡ numbers (m.sequence + 1) (length es))
              × (out.1.sequence ≡ m.sequence + length es)))
unfolding observe
observe_lem cs m b = elim (Bool-cases (ltb max_components (length cs))) [
  | inl many ↦ rw many (b, inl (_, refl))
  | inr few ↦ elim (Result-cases (normalize_all [] cs)) [
    | inr (e, bad) ↦ rw (few, bad) (b, inl (e, refl))
    | inl (items, good) ↦
        let (b', cap, ns, s) = observe_all_lem items m b in
        rw (few, good) (rw cap at b', inr ((observe_all items m).0, refl, ns, s))
  ]
]
