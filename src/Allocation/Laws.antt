-- ===== src/Allocation/Laws.antt =====
-- What `first_free_from_front` of zen_ma2_agent/allocation.py returns, and when it raises.
use Prim.Native.Nat.{ℕ, zero, suc, ◌+◌, ◌-◌, ◌≤◌, ◌<◌}
use zen_ma2_agent.Prelude.{
  ◌≡◌, refl, ◌⊎◌, inl, inr, Bool, true, false, none, some, List, [], ◌∷◌, ◌++◌, arith, Bool-cases,
  all, ltb, ok, raise,
}
use zen_ma2_agent.Prelude.Eq.{nat_eq, member}
use zen_ma2_agent.Json.{Value, int, pos}
use zen_ma2_agent.Allocation.{
  no_free_number, positive, positive_numbers, first_outside, first_free_from_front,
}

-- `range(start, start + count)`
abbrev pub range : (start count : ℕ) → List ℕ
range start zero = []
range start (suc count) = start ∷ range (suc start) count

module _ (unavailable : List ℕ) where
  -- Every number from `start` on, `count` of them, is unavailable.
  abbrev pub full : (start count : ℕ) → Bool
  full start count = all (λ m. member m unavailable) (range start count)

  first_outside_cases :
      (count candidate : ℕ)
      → ((first_outside unavailable count candidate ≡ none) × (full candidate count ≡ true))
        ⊎ ((n k : ℕ) × (first_outside unavailable count candidate ≡ some n)
            × (n ≡ candidate + k)
            × (k < count)
            × (member n unavailable ≡ false)
            × (full candidate k ≡ true))
  unfolding first_outside
  first_outside_cases zero candidate = inl (refl, refl)
  first_outside_cases (suc count) candidate = elim (Bool-cases (member candidate unavailable)) [
    | inr free ↦ inr (candidate, 0, rw free, omega arith, omega arith, free, refl)
    | inl taken ↦ elim (first_outside_cases count (suc candidate)) [
      | inl (out, rest) ↦ inl (rw taken out, rw (taken, rest))
      | inr (n, k, out, at_k, less, free, rest) ↦
          inr (n, suc k, rw taken out, omega arith, omega arith, free, rw (taken, rest))
    ]
  ]

-- With positive bounds in order, the answer is the least number from `start` to `end` that is neither
-- occupied nor protected; the call raises exactly when there is none.
pub first_free_from_front_lem :
    (occupied protected : List Value) (s e : ℕ)
    → 0 < s
    → s ≤ e
    → let unavailable = positive_numbers occupied ++ positive_numbers protected in
      let out = first_free_from_front occupied protected (int (pos s)) (int (pos e)) in
      ((out ≡ raise no_free_number) × (full unavailable s (suc e - s) ≡ true))
      ⊎ ((n : ℕ) × (out ≡ ok n)
          × (s ≤ n)
          × (n ≤ e)
          × (member n unavailable ≡ false)
          × (full unavailable s (n - s) ≡ true))
unfolding first_free_from_front positive
first_free_from_front_lem occupied protected s zero p h = absurd (omega arith)
first_free_from_front_lem occupied protected zero (suc e) p h = absurd (omega arith)
first_free_from_front_lem occupied protected (suc s) (suc e) p h =
    let unavailable = positive_numbers occupied ++ positive_numbers protected in
    let in_order : ltb (suc e) (suc s) ≡ false = ground arith in
    rw in_order (elim (first_outside_cases unavailable (suc (suc e) - suc s) (suc s)) [
      | inl (out, taken) ↦ inl (rw out, taken)
      | inr (n, k, out, at_k, less, free, rest) ↦
          let distance : n - suc s ≡ k = omega arith in
          inr (n, rw out, omega arith, omega arith, free, rw distance rest)
    ])
