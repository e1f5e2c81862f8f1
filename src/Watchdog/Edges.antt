-- ===== src/Watchdog/Edges.antt =====
-- `WatchdogMonitor` of zen_ma2_agent/watchdog.py is edge-triggered.
use Prim.Native.Nat.{◌+◌}
use mathlib.Core.Path.{subst}
use zen_ma2_agent.Prelude.{
  ◌≡◌, refl, sym, ◌∙◌, ap, ◌≢◌, inl, inr, true, false, some, List, [], ◌∷◌, arith, Bool-cases,
  Option-cases, Result-cases, ok, All, All-map, length, ltb,
}
use zen_ma2_agent.Prelude.Eq.{◌==◌, member, ==_self, ==_true}
use zen_ma2_agent.Prelude.Dict.{
  Dict, lookup, insert, lookup-insert, lookup-insert_self, lookup-insert_ne,
}
use zen_ma2_agent.Prelude.Text.{Text, text_eq}
use zen_ma2_agent.Workers.{ComponentState, online, offline, degraded, unknown}
use zen_ma2_agent.Watchdog.{
  WatchdogComponent, WatchdogEvent, WatchdogMonitor, max_components, same_state, unchanged,
  observe_one, observe_all, observe, normalize_all, transition_event, state_of, normalize,
}

same_state_self : (s : ComponentState) → same_state s s ≡ true
same_state_self online = refl
same_state_self offline = refl
same_state_self degraded = refl
same_state_self unknown = refl

-- The monitor has each of the components as it is in the list.
abbrev Holds : Dict Text WatchdogComponent → List WatchdogComponent → Type 0
Holds d = All (λ c. lookup c.component_id d ≡ some c)

components-observe_one :
    (c : WatchdogComponent) (m : WatchdogMonitor)
    → (observe_one c m).1.components ≡ insert c.component_id c m.components
unfolding observe_one
components-observe_one c m = elim (Bool-cases (unchanged (lookup c.component_id m.components) c)) [
  | inl same ↦ rw (same, observe_one)
  | inr edge ↦
      elim (Option-cases
        (transition_event (m.sequence + 1) c (state_of (lookup c.component_id m.components)))) [
          | inl silent ↦ rw (edge, silent, observe_one)
          | inr (e, found) ↦ rw (edge, found, observe_one)
        ]
]

-- To insert a component that is held changes nothing that is looked up.
insert_held :
    (c : WatchdogComponent) (d : Dict Text WatchdogComponent) (j : Text)
    → lookup c.component_id d ≡ some c
    → lookup j (insert c.component_id c d) ≡ lookup j d
insert_held c d j h = elim (Bool-cases (c.component_id == j)) [
  | inl same ↦
      rw (lookup-insert c.component_id j c d, same)
        (sym h ∙ ap (λ k. lookup k d) (==_true c.component_id j same))
  | inr other ↦ rw (lookup-insert c.component_id j c d, other)
]

Holds-insert :
    (c : WatchdogComponent) (d : Dict Text WatchdogComponent) (cs : List WatchdogComponent)
    → lookup c.component_id d ≡ some c
    → Holds d cs
    → Holds (insert c.component_id c d) cs
Holds-insert c d [] h hs = tt
Holds-insert c d (x ∷ cs) h hs =
    (insert_held c d x.component_id h ∙ hs.0, Holds-insert c d cs h hs.1)

-- What is held gives no event, and leaves the events and their number.
observe_all-held :
    (cs : List WatchdogComponent) (m : WatchdogMonitor)
    → Holds m.components cs
    → let out = observe_all cs m in
      (out.0 ≡ []) × (out.1.events ≡ m.events) × (out.1.sequence ≡ m.sequence)
unfolding observe_all observe_one
observe_all-held [] m h = (refl, refl, refl)
observe_all-held (c ∷ cs) m h =
    let m' : WatchdogMonitor = record m { components = insert c.component_id c m.components } in
    rw (h.0, observe_one)
      (rw (same_state_self c.state)
        (observe_all-held cs m' (Holds-insert c m.components cs h.0 h.1)))

-- None of the components has an identifier of the list.
abbrev Avoids : List Text → List WatchdogComponent → Type 0
Avoids seen = All (λ c. member c.component_id seen ≡ false)

abbrev DistinctIds : List WatchdogComponent → Type 0
DistinctIds [] = Unit
DistinctIds (c ∷ cs) = All (λ d. c.component_id ≢ d.component_id) cs × DistinctIds cs

member_tail :
    (i : Text) (seen : List Text) (c : WatchdogComponent)
    → member c.component_id (i ∷ seen) ≡ false
    → member c.component_id seen ≡ false
member_tail i seen c h = ground arith

member_head :
    (i : Text) (seen : List Text) (c : WatchdogComponent)
    → member c.component_id (i ∷ seen) ≡ false
    → i ≢ c.component_id
member_head i seen c h same = cc (==_self i, rw (sym same) at h)

normalize_all-distinct :
    (seen : List Text) (cs items : List WatchdogComponent)
    → normalize_all seen cs ≡ ok items
    → Avoids seen items × DistinctIds items
unfolding normalize_all
normalize_all-distinct seen [] items h =
    let e : [] ≡ items = cc h in subst (λ l. Avoids seen l × DistinctIds l) e (tt, tt)
normalize_all-distinct seen (c ∷ cs) items h = elim (Result-cases (normalize c)) [
  | inr (e, bad) ↦ absurd (cc (rw (bad, normalize_all) at h))
  | inl (item, good) ↦ elim (Bool-cases (member item.component_id seen)) [
    | inl twice ↦ absurd (cc (rw (good, twice, normalize_all) at h))
    | inr fresh ↦ elim (Result-cases (normalize_all (item.component_id ∷ seen) cs)) [
      | inr (e, bad) ↦ absurd (cc (rw (good, fresh, bad, normalize_all) at h))
      | inl (rest, tail) ↦
          let k = rw (good, fresh, tail, normalize_all) at h in
          let e : item ∷ rest ≡ items = cc k in
          let (avoid, distinct) = normalize_all-distinct (item.component_id ∷ seen) cs rest tail in
          subst (λ l. Avoids seen l × DistinctIds l) e
            (
              (
                fresh,
                All-map (λ d. member d.component_id (item.component_id ∷ seen) ≡ false)
                    (member_tail item.component_id seen) rest avoid,
              ),
              (
                All-map (λ d. member d.component_id (item.component_id ∷ seen) ≡ false)
                    (member_head item.component_id seen) rest avoid,
                distinct,
              ),
            )
    ]
  ]
]

lookup-observe_all :
    (j : Text) (cs : List WatchdogComponent) (m : WatchdogMonitor)
    → All (λ c. j ≢ c.component_id) cs
    → lookup j (observe_all cs m).1.components ≡ lookup j m.components
unfolding observe_all
lookup-observe_all j [] m h = refl
lookup-observe_all j (c ∷ cs) m h =
    lookup-observe_all j cs (observe_one c m).1 h.1
    ∙ (rw (components-observe_one c m)
        (lookup-insert_ne c.component_id j c m.components (λ e. h.0 (sym e))))

observe_all-Holds :
    (cs : List WatchdogComponent) (m : WatchdogMonitor)
    → DistinctIds cs
    → Holds (observe_all cs m).1.components cs
unfolding observe_all
observe_all-Holds [] m h = tt
observe_all-Holds (c ∷ cs) m h = (
  lookup-observe_all c.component_id cs (observe_one c m).1 h.0
      ∙ (rw (components-observe_one c m) (lookup-insert_self c.component_id c m.components)),
  observe_all-Holds cs (observe_one c m).1 h.1,
)

-- An accepted observation that is made again at once is accepted, gives no event, and leaves the events
-- and their number.
pub observe_again :
    (cs : List WatchdogComponent) (m : WatchdogMonitor) (es : List WatchdogEvent)
    → (observe cs m).0 ≡ ok es
    → let m' = (observe cs m).1 in
      let out = observe cs m' in
      (out.0 ≡ ok []) × (out.1.events ≡ m'.events) × (out.1.sequence ≡ m'.sequence)
unfolding observe
observe_again cs m es h = elim (Bool-cases (ltb max_components (length cs))) [
  | inl many ↦ absurd (cc (rw (many, observe) at h))
  | inr few ↦ elim (Result-cases (normalize_all [] cs)) [
    | inr (e, bad) ↦ absurd (cc (rw (few, bad, observe) at h))
    | inl (items, good) ↦
        let (_, distinct) = normalize_all-distinct [] cs items good in
        let (silent, same, number) =
          observe_all-held items (observe_all items m).1 (observe_all-Holds items m distinct) in
        rw (few, good, observe) (rw (few, good) (ap ok silent, same, number))
  ]
]
