-- ===== src/Llm/Loaded.antt =====
-- What `load_provider_slots` of zen_ma2_agent/llm/router.py accepts, and what a router has whose slots come
-- from it.
use Prim.Native.Nat.{ℕ, zero, suc, ◌≤◌, max}
use native.Mathlib.Omega.{arith}
use zen_ma2_agent.Prelude.{
  ◌≡◌, refl, sym, ap, ◌⊎◌, inl, inr, true, false, not, ◌&&◌, none, some, List, [], ◌∷◌, map, All,
  ltb, Bool-cases, Option-cases, ok, bind-ok, raise_if-ok, ok_inj,
}
use zen_ma2_agent.Prelude.Eq.{member}
use zen_ma2_agent.Prelude.Dict.{Dict}
use zen_ma2_agent.Prelude.Text.{Text, codes, text_eq, strip}
use zen_ma2_agent.Json.{pos, negsuc}
use zen_ma2_agent.Llm.Slots.{
  Builtins, bad_cost_class, bad_response_format, bad_mode, ProviderSlot, cost_classes,
  response_formats, reasoning_efforts, is_set, or_none, post_init,
}
use zen_ma2_agent.Llm.Config.{
  value_or, RawSlot, read_slot, slot_of, check_slot, timeout_of, priority_of, load_slot, load_slots,
  explicit_count, provider_slot_count, max_detected, mode_of, modes, load_provider_slots,
}

-- The numbers `n`, `n + 1`, … of `count` slots.
unfoldable pub numbers_from : (n count : ℕ) → List ℕ
numbers_from n zero = []
numbers_from n (suc count) = n ∷ numbers_from (suc n) count

-- What the checks of the loader leave of a slot.
abbrev pub IsLoaded : Builtins → ProviderSlot → Type 0
IsLoaded py s =
    (py.is_timeout s.timeout_seconds ≡ true)
    × (s.priority ≤ 10000)
    × (member s.cost_class cost_classes ≡ true)
    × (member s.response_format response_formats ≡ true)
    × ((s.reasoning_effort ≡ none)
        ⊎ ((e : Text) × (s.reasoning_effort ≡ some e) × (member e reasoning_efforts ≡ true)))

module _ (py : Builtins) where
  timeout_of-ok : (t x : Text) → timeout_of py t ≡ ok x → py.is_timeout x ≡ true
  unfolding timeout_of
  timeout_of-ok t x h = elim (Option-cases (py.to_float t)) [
    | inl bad ↦ absurd (cc (rw (bad, timeout_of) at h))
    | inr (y, good) ↦
        let (within, same) =
          raise_if-ok (not (py.is_timeout y)) _ (ok y) x (rw (good, timeout_of) at h) in
        elim (Bool-cases (py.is_timeout x)) [
          | inl e ↦ e
          | inr e ↦ absurd (cc (rw (ok_inj same, e) at within))
        ]
  ]

  priority_of-ok : (t : Text) (n : ℕ) → priority_of py t ≡ ok n → n ≤ 10000
  unfolding priority_of
  priority_of-ok t n h = elim (Option-cases (py.to_int t)) [
    | inl bad ↦ absurd (cc (rw (bad, priority_of) at h))
    | inr (negsuc m, good) ↦ absurd (cc (rw (good, priority_of) at h))
    | inr (pos m, good) ↦
        let (within, same) = raise_if-ok (ltb 10000 m) _ (ok m) n (rw (good, priority_of) at h) in
        ground (arith, within, ok_inj same)
  ]

  effort_of : ProviderSlot → Text
  effort_of s = py.upper (strip (elim s.reasoning_effort [ none ↦ [] | some e ↦ e ]))

  post_init-ok :
      (s s' : ProviderSlot)
      → post_init py s ≡ ok s'
      → (record s { reasoning_effort = or_none (effort_of s) } ≡ s')
        × ((or_none (effort_of s) ≡ none)
            ⊎ ((e : Text) × (or_none (effort_of s) ≡ some e) × (member e reasoning_efforts ≡ true)))
  unfolding post_init effort_of
  post_init-ok s s' h =
      let (known, same) =
        raise_if-ok (is_set (effort_of s) && not (member (effort_of s) reasoning_efforts)) _ _ s'
          h in
      (ok_inj same, cases (effort_of s) known)
    where
      cases :
          (e : Text)
          → (is_set e && not (member e reasoning_efforts)) ≡ false
          → (or_none e ≡ none)
            ⊎ ((f : Text) × (or_none e ≡ some f) × (member f reasoning_efforts ≡ true))
      cases [] h = inl refl
      cases (c ∷ e) h = elim (Bool-cases (member (c ∷ e) reasoning_efforts)) [
        | inl known ↦ inr (c ∷ e, refl, known)
        | inr unknown ↦ absurd (cc (rw unknown at h))
      ]

  is_listed : (c : Text) (l : List Text) → not (member c l) ≡ false → member c l ≡ true
  is_listed c l h = elim (Bool-cases (member c l)) [ inl e ↦ e | inr e ↦ absurd (cc (rw e at h)) ]

  check_slot-ok :
      (n : ℕ) (raw : RawSlot) (s : ProviderSlot)
      → check_slot py n raw ≡ ok s
      → (s.number ≡ n) × IsLoaded py s
  unfolding check_slot slot_of
  check_slot-ok n raw s h =
      let (x, timeout, h1) = bind-ok (timeout_of py raw.timeout) _ s h in
      let (p, priority, h2) = bind-ok (priority_of py raw.priority) _ s h1 in
      let (cost, h3) =
        raise_if-ok (not (member raw.cost_class cost_classes)) bad_cost_class _ s h2 in
      let (format, h4) =
        raise_if-ok (not (member raw.response_format response_formats)) bad_response_format _ s
          h3 in
      let (same, effort) = post_init-ok (slot_of n raw x p) s h4 in
      rw (sym same) (
        refl,
        (
          timeout_of-ok raw.timeout x timeout,
          priority_of-ok raw.priority p priority,
          is_listed raw.cost_class cost_classes cost,
          is_listed raw.response_format response_formats format,
          effort,
        ),
      )

  load_slots-ok :
      (values : Dict Text Text) (n count : ℕ) (slots : List ProviderSlot)
      → load_slots py values n count ≡ ok slots
      → (map (λ s. s.number) slots ≡ numbers_from n count) × All (IsLoaded py) slots
  unfolding load_slots load_slot numbers_from
  load_slots-ok values n zero slots h = rw (sym (ok_inj h)) (refl, tt)
  load_slots-ok values n (suc count) slots h =
      let (s, first, h1) = bind-ok (load_slot py values n) _ slots h in
      let (rest, others, h2) = bind-ok (load_slots py values (suc n) count) _ slots h1 in
      let (number, loaded) = check_slot-ok n (read_slot py values n) s first in
      let (numbers, all_loaded) = load_slots-ok values (suc n) count rest others in
      rw (sym (ok_inj h2)) (rw (number, numbers) refl, (loaded, all_loaded))

  provider_slot_count-ok :
      (values : Dict Text Text) (n : ℕ) → provider_slot_count py values ≡ ok n → 3 ≤ n
  unfolding provider_slot_count
  provider_slot_count-ok values n h =
      let (explicit, _, h1) =
        bind-ok (explicit_count py (strip (value_or (codes "ZEN_PROVIDER_SLOT_COUNT") [] values))) _
          n h in
      let (detected, _, h2) = bind-ok (max_detected py values) _ n h1 in
      let same : max (max explicit detected) 3 ≡ n = ok_inj h2 in omega (arith, same)

  -- What the loader accepts: one of the four modes, at least three slots, numbered from 1 on, and in each a
  -- time limit and a priority in their ranges, a known cost class and response format, and a reasoning effort
  -- that is a known one or none.
  pub load_provider_slots-ok :
      (values : Dict Text Text) (mode : Text) (slots : List ProviderSlot)
      → load_provider_slots py values ≡ ok (mode, slots)
      → (n : ℕ) × (3 ≤ n)
        × (map (λ s. s.number) slots ≡ numbers_from 1 n)
        × All (IsLoaded py) slots
        × (member mode modes ≡ true)
  unfolding load_provider_slots
  load_provider_slots-ok values mode slots h =
      let (known, h1) =
        raise_if-ok (not (member (mode_of py values) modes)) bad_mode _ (mode, slots) h in
      let (n, count, h2) = bind-ok (provider_slot_count py values) _ (mode, slots) h1 in
      let (loaded, load, h3) = bind-ok (load_slots py values 1 n) _ (mode, slots) h2 in
      let same : loaded ≡ slots = ap (λ x. x.1) (ok_inj h3) in
      let same_mode : mode_of py values ≡ mode = ap (λ x. x.0) (ok_inj h3) in
      let (numbers, all_loaded) = load_slots-ok values 1 n loaded load in
      (
        n,
        provider_slot_count-ok values n count,
        rw (sym same) numbers,
        rw (sym same) all_loaded,
        rw (sym same_mode) (is_listed (mode_of py values) modes known),
      )
