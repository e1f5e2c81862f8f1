-- ===== src/Timecode.antt =====
-- zen_ma2_agent/timecode_offset.py: from a request to move a timecode to the offset that the console is given.
pub mod Laws
mod Tests
use Prim.Native.Nat.{ℕ, ◌+◌, ◌*◌, ◌/◌, ◌%◌}
use Prim.Native.String.{String}
use zen_ma2_agent.Prelude.{
  Bool, true, false, not, ◌&&◌, ◌||◌, Option, none, some, List, [], ◌∷◌, ◌++◌, if◌then◌else◌, ltb,
  nat_beq, Result, ok, raise, raise_if, ◌>>=◌, ◌>>◌,
}
use zen_ma2_agent.Prelude.Eq.{◌==◌, string_eq}
use zen_ma2_agent.Prelude.Text.{Text, codes, decimal}
use zen_ma2_agent.Json.{
  ℤ, pos, negsuc, Value, null, bool, int, float, dict, Items, nil, cons, Fields, end, field, get,
}
use zen_ma2_agent.Workflow.{Intent}

pub data TimecodeError : Type 0 where
  unsupported_intent bad_number not_found bad_offset negative_offset range_offset not_at_30_fps :
      TimecodeError
  not_positive not_10_ms : TimecodeError

-- What the source calls of Python and of its libraries.
pub record Builtins : Type 0 where
  -- `x == n` for a float by its `repr`
  pub float_equal : String → ℤ → Bool
  -- `str(name or number)`
  pub name_or : Option Value → ℤ → Text
  -- the SHA-256 of the JSON text
  pub digest : Fields → Text

-- Without the fields that are the same in every specification: no range, forward, no selected events.
pub record TimecodeOffsetSpec : Type 0 where
  pub timecode_number : ℤ
  pub timecode_name : Text
  pub offset_ms : ℕ
  pub source_request : String
  pub state_fingerprint : Text

-- `isinstance(v, int)`: a Boolean is one.
unfoldable pub int_at : Option Value → Option ℤ
int_at (some (int z)) = some z
int_at (some (bool b)) = some (pos (if b then 1 else 0))
int_at _ = none

same_int : ℤ → ℤ → Bool
same_int (pos m) (pos n) = nat_beq m n
same_int (negsuc m) (negsuc n) = nat_beq m n
same_int _ _ = false

-- `v == n`
same_number : Builtins → Option Value → ℤ → Bool
unfolding same_int
same_number py (some (int z)) n = same_int z n
same_number py (some (bool b)) n = same_int (pos (if b then 1 else 0)) n
same_number py (some (float x)) n = py.float_equal x n
same_number py _ n = false

unfoldable pub find_timecode : Builtins → ℤ → List Fields → Option Fields
unfolding same_number
find_timecode py number [] = none
find_timecode py number (t ∷ ts) =
    if same_number py (get "timecode_number" t) number then some t else find_timecode py number ts

abbrev or_null : Option Value → Value
or_null none = null
or_null (some v) = v

unfoldable pub fingerprint_timecode : Builtins → Fields → Text
fingerprint_timecode py t = py.digest (
    field "timecode_number" (or_null (get "timecode_number" t)) (
      field "name" (or_null (get "name" t)) (
        field "offset_raw" (or_null (get "offset_raw" t)) (
          field "offset_ms" (or_null (get "offset_ms" t))
            (field "source" (or_null (get "source" t)) end)))))

-- `is not None`
abbrev is_given : Option Value → Bool
is_given none = false
is_given (some null) = false
is_given (some _) = true

abbrev pub at_least_one : ℤ → Bool
at_least_one (pos n) = not (ltb n 1)
at_least_one (negsuc n) = false

-- The checks of the offset, once the timecode is found.
unfoldable pub offset_of : Fields → Result TimecodeError ℕ
unfolding int_at
offset_of p = elim (int_at (get "offset_ms" p)) [
  | none ↦ raise bad_offset
  | some (negsuc n) ↦ raise negative_offset
  | some (pos n) ↦ do
    raise_if (nat_beq n 0) bad_offset
    raise_if (is_given (get "range_start_ms" p) || is_given (get "range_end_ms" p)) range_offset
    raise_if (not (nat_beq (n * 30 % 1000) 0)) not_at_30_fps
    ok n
]

unfoldable pub number_of : Fields → Result TimecodeError ℤ
unfolding int_at
number_of p = elim (int_at (get "timecode_number" p)) [
  | none ↦ raise bad_number
  | some n ↦ raise_if (not (at_least_one n)) bad_number >> ok n
]

abbrev pub or_not_found : Option Fields → Result TimecodeError Fields
or_not_found none = raise not_found
or_not_found (some t) = ok t

unfoldable pub resolve_timecode_offset_spec :
    Builtins → Intent → List Fields → Result TimecodeError TimecodeOffsetSpec
unfolding number_of find_timecode offset_of fingerprint_timecode
resolve_timecode_offset_spec py intent timecodes = do
  raise_if (not (intent.kind == "offset_timecode")) unsupported_intent
  number ← number_of intent.parameters
  timecode ← or_not_found (find_timecode py number timecodes)
  offset ← offset_of intent.parameters
  ok (record {
    timecode_number = number;
    timecode_name = py.name_or (get "name" timecode) number;
    offset_ms = offset;
    source_request = intent.source_text;
    state_fingerprint = fingerprint_timecode py timecode;
  })

-- `f"{n:02d}"` below 100
abbrev pub two_digits : ℕ → Text
two_digits n = (48 + n / 10) ∷ (48 + n % 10) ∷ []

unfoldable pub ma2_seconds : ℤ → Result TimecodeError Text
unfolding decimal
ma2_seconds (negsuc n) = raise not_positive
ma2_seconds (pos n) = do
  raise_if (nat_beq n 0) not_positive
  raise_if (not (nat_beq (n % 1000 % 10) 0)) not_10_ms
  ok (decimal (n / 1000) ++ codes "." ++ two_digits (n % 1000 / 10) ++ codes "s")
