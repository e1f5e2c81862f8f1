-- ===== src/Allocation/Tests.antt =====
-- A small pool, and the theorem on the first free number at it.
use Prim.Native.Nat.{ℕ, ◌-◌, ◌≤◌}
use zen_ma2_agent.Prelude.{◌≡◌, refl, ◌⊎◌, true, false, List, [], ◌∷◌, ◌++◌, arith, ok, raise}
use zen_ma2_agent.Prelude.Eq.{nat_eq, member}
use zen_ma2_agent.Json.{Value, int, bool, pos, str}
use zen_ma2_agent.Allocation.{
  no_free_number, positive, positive_numbers, first_outside, first_free_from_front,
}
use zen_ma2_agent.Allocation.Laws.{full, first_free_from_front_lem}

abbrev some_taken : List Value
some_taken = int (pos 1) ∷ bool true ∷ str "2" ∷ int (pos 3) ∷ []

first_is_four :
    first_free_from_front some_taken (int (pos 2) ∷ []) (int (pos 1)) (int (pos 9)) ≡ ok 4
unfolding first_free_from_front positive positive_numbers first_outside
first_is_four = refl

first_free_from_front_lem_example :
    let unavailable = positive_numbers some_taken ++ positive_numbers [] in
    let out = first_free_from_front some_taken [] (int (pos 1)) (int (pos 9)) in
    ((out ≡ raise no_free_number) × (full unavailable 1 9 ≡ true))
    ⊎ ((n : ℕ) × (out ≡ ok n)
        × (1 ≤ n)
        × (n ≤ 9)
        × (member n unavailable ≡ false)
        × (full unavailable 1 (n - 1) ≡ true))
first_free_from_front_lem_example =
    first_free_from_front_lem some_taken [] 1 9 (omega arith) (omega arith)
