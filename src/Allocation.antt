-- ===== src/Allocation.antt =====
-- zen_ma2_agent/allocation.py and protected_objects.py: the first free number of a pool. The regular
-- expression that finds executors in a text inventory is an argument: the pairs of page and number that it
-- finds. An address `page.number` is the pair.
pub mod Laws
mod Tests
use Prim.Native.Nat.{ℕ, zero, suc, ◌+◌, ◌-◌}
use zen_ma2_agent.Prelude.{
  Bool, true, false, not, ◌&&◌, Option, none, some, List, [], ◌∷◌, ◌++◌, if◌then◌else◌, filter, map,
  ltb, leb, Result, ok, raise, raise_if, ◌>>=◌, ◌>>◌,
}
use zen_ma2_agent.Prelude.Eq.{◌==◌, nat_eq, member}
use zen_ma2_agent.Json.{ℤ, pos, negsuc, Value, int, bool, dict, Fields, get}

pub data AllocationError : Type 0 where
  bad_bounds no_free_number bad_page : AllocationError

-- `isinstance(v, int) and not isinstance(v, bool) and v > 0`
unfoldable pub positive : Value → Option ℕ
positive (int (pos (suc n))) = some (suc n)
positive _ = none

unfoldable pub positive_numbers : List Value → List ℕ
unfolding positive
positive_numbers [] = []
positive_numbers (v ∷ vs) =
    let rest = positive_numbers vs in elim (positive v) [ none ↦ rest | some n ↦ n ∷ rest ]

-- The loop over `range(candidate, candidate + count)`.
unfoldable pub first_outside : List ℕ → (count candidate : ℕ) → Option ℕ
first_outside unavailable zero candidate = none
first_outside unavailable (suc count) candidate =
    let rest = first_outside unavailable count (suc candidate) in
    if member candidate unavailable then rest else some candidate

unfoldable pub first_free_from_front :
    (occupied protected : List Value) (start end : Value) → Result AllocationError ℕ
unfolding positive positive_numbers first_outside
first_free_from_front occupied protected start end = elim (positive start) [
  | none ↦ raise bad_bounds
  | some s ↦ elim (positive end) [
    | none ↦ raise bad_bounds
    | some e ↦
        if ltb e s
        then raise bad_bounds
        else elim (first_outside (positive_numbers occupied ++ positive_numbers protected)
            (suc e - s) s) [ none ↦ raise no_free_number | some n ↦ ok n ]
  ]
]

pub data Inventory : Type 0 where
  -- a text, as the pairs `int(page)`, `int(number)` that `_EXECUTOR_RE.findall` gives
  text : List (ℕ × ℕ) → Inventory
  rows : List Value → Inventory

-- `item.get("page") == page`, where the page of a row is no float: `True == 1` and `False == 0`
on_page : ℕ → Option Value → Bool
on_page page (some (int (pos n))) = n == page
on_page page (some (bool b)) = (if b then 1 else 0) == page
on_page page _ = false

-- The number that one row of an inventory occupies on the page.
row_number : ℕ → Value → Option ℕ
unfolding on_page positive
row_number page (dict row) =
    if on_page page (get "page" row)
    then elim (get "executor" row) [ none ↦ none | some v ↦ positive v ]
    else none
row_number page _ = none

row_numbers : ℕ → List Value → List ℕ
unfolding row_number
row_numbers page [] = []
row_numbers page (v ∷ vs) =
    let rest = row_numbers page vs in elim (row_number page v) [ none ↦ rest | some n ↦ n ∷ rest ]

unfoldable pub occupied_executor_numbers :
    Inventory → (page : Value) → Result AllocationError (List ℕ)
unfolding positive row_numbers
occupied_executor_numbers inventory page = elim (positive page) [
  | none ↦ raise bad_page
  | some p ↦ elim inventory [
    | text found ↦ ok (map (λ x. x.1) (filter (λ x. x.0 == p && ltb 0 x.1) found))
    | rows vs ↦ ok (row_numbers p vs)
  ]
]

-- The address: the page and the number.
unfoldable pub first_free_executor :
    Inventory
    → (page : Value) → (protected : List Value) → (start end : Value)
    → Result AllocationError (Value × ℕ)
unfolding occupied_executor_numbers first_free_from_front
first_free_executor inventory page protected start end = do
  occupied ← occupied_executor_numbers inventory page
  number ← first_free_from_front (map (λ n. int (pos n)) occupied) protected start end
  ok (page, number)

abbrev protected_sequences : List ℕ
protected_sequences = []

abbrev protected_fixture_ids : List ℕ
protected_fixture_ids = 9999 ∷ []

pub data ProtectedObjectError : Type 0 where
  protected_sequence protected_fixture : ProtectedObjectError

unfoldable pub assert_sequence_allowed : ℕ → Result ProtectedObjectError (Unit {0})
assert_sequence_allowed n = raise_if (member n protected_sequences) protected_sequence

unfoldable pub assert_fixture_allowed : ℕ → Result ProtectedObjectError (Unit {0})
assert_fixture_allowed n = raise_if (member n protected_fixture_ids) protected_fixture
