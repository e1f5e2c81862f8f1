-- ===== src/GroupOrder.antt =====
-- zen_ma2_agent/group_order_builder.py: a write that changes the order of a group's fixtures and nothing else.
pub mod Laws
mod Tests
use Prim.Native.Nat.{ℕ}
use zen_ma2_agent.Prelude.{
  Bool, true, false, not, ◌&&◌, ◌||◌, Option, none, some, List, [], ◌∷◌, ◌++◌, if◌then◌else◌, map,
  all, length, ltb, nat_beq, Result, ok, raise, raise_if, ◌>>=◌, ◌>>◌,
}
use zen_ma2_agent.Prelude.Eq.{◌==◌, member}
use zen_ma2_agent.Prelude.Text.{Text, codes, text_eq, strip, split_once, decimal}
use zen_ma2_agent.Json.{pos, Value, int}

pub data GroupOrderError : Type 0 where
  protected_fixture bad_reference bad_group_id no_name duplicate_members membership_changed :
      GroupOrderError
  readback_order readback_membership : GroupOrderError
  -- `int` refuses a text for which `isdigit` holds
  bad_digits : GroupOrderError

-- What the source calls of Python's `str` and `int`.
pub record Digits : Type 0 where
  pub isdigit : Text → Bool
  pub int_of : Text → Option ℕ

pub record GroupOrderSpec : Type 0 where
  pub group_id : ℕ
  pub group_name : Text
  pub members_before : List Text
  pub desired_order : List Text

abbrev pub is_empty : Text → Bool
is_empty [] = true
is_empty _ = false

unfoldable pub int_of_digits : Digits → Text → Result GroupOrderError ℕ
int_of_digits py t = elim (py.int_of t) [ none ↦ raise bad_digits | some n ↦ ok n ]

-- A positive number, or what the caller raises.
unfoldable pub positive_number : Digits → Text → Result GroupOrderError ℕ
unfolding int_of_digits
positive_number py t = do
  raise_if (not (py.isdigit t)) bad_reference
  n ← int_of_digits py t
  raise_if (nat_beq n 0) bad_reference
  ok n

-- `text == "9999" or text.startswith("9999.")`
unfoldable pub is_protected : Text → Bool
unfolding split_once
is_protected text =
    text == codes "9999"
    || elim (split_once 46 text) [ none ↦ false | some (a, b) ↦ a == codes "9999" ]

-- A fixture and a subfixture, both of digits.
unfoldable pub sub_ref : Digits → (fixture sub : Text) → Result GroupOrderError Text
unfolding int_of_digits decimal
sub_ref py fixture sub = do
  m ← int_of_digits py fixture
  raise_if (nat_beq m 0) bad_reference
  n ← int_of_digits py sub
  raise_if (nat_beq n 0) bad_reference
  ok (decimal m ++ codes "." ++ decimal n)

-- `ref`: a fixture or a fixture and a subfixture, with its numbers written out again
unfoldable pub ref : Digits → Text → Result GroupOrderError Text
unfolding strip is_protected positive_number sub_ref split_once decimal
ref py value =
    let text = strip value in
    if is_empty text || is_protected text
    then raise protected_fixture
    else elim (split_once 46 text) [
      | none ↦ positive_number py text >>= λ n. ok (decimal n)
      | some (fixture, sub) ↦
          if py.isdigit fixture && py.isdigit sub
          then sub_ref py fixture sub
          else raise bad_reference
    ]

unfoldable pub refs : Digits → List Text → Result GroupOrderError (List Text)
unfolding ref
refs py [] = ok []
refs py (v ∷ vs) = do t ← ref py v; rest ← refs py vs; ok (t ∷ rest)

-- `len(l) == len(set(l))`, and `set(l) == set(m)`
unfoldable pub no_repeats : List Text → Bool
no_repeats [] = true
no_repeats (x ∷ xs) = not (member x xs) && no_repeats xs

abbrev pub same_set : List Text → List Text → Bool
same_set xs ys = all (λ x. member x ys) xs && all (λ y. member y xs) ys

abbrev pub group_id_of : Value → Result GroupOrderError ℕ
group_id_of (int (pos n)) = raise_if (ltb n 1) bad_group_id >> ok n
group_id_of _ = raise bad_group_id

unfoldable pub create :
    Digits
    → (group_id : Value) → (group_name : Text) → (members_before desired_order : List Text)
    → Result GroupOrderError GroupOrderSpec
unfolding strip refs no_repeats
create py group_id group_name members_before desired_order = do
  id ← group_id_of group_id
  raise_if (is_empty (strip group_name)) no_name
  before ← refs py members_before
  desired ← refs py desired_order
  raise_if (not (no_repeats before)) duplicate_members
  raise_if (not (nat_beq (length before) (length desired)) || not (same_set before desired))
      membership_changed
  ok (record {
    group_id = id;
    group_name = strip group_name;
    members_before = before;
    desired_order = desired;
  })

unfoldable pub commands : GroupOrderSpec → List Text
unfolding decimal
commands s =
    codes "ClearAll" ∷ map (λ item. codes "Fixture " ++ item) s.desired_order
    ++ (codes "Store Group " ++ decimal s.group_id ++ codes " /overwrite /nc")
      ∷ codes "ClearAll"
      ∷ []

-- `actual != self.desired_order`, on tuples
unfoldable pub same_order : List Text → List Text → Bool
same_order [] [] = true
same_order (x ∷ xs) (y ∷ ys) = x == y && same_order xs ys
same_order _ _ = false

unfoldable pub verify : GroupOrderSpec → List Text → Result GroupOrderError (Unit {0})
unfolding strip same_order
verify s readback =
    let actual = map strip readback in
    do
      raise_if (not (same_order actual s.desired_order)) readback_order
      raise_if
          (not (same_set actual s.members_before)
            || not (nat_beq (length actual) (length s.members_before)))
          readback_membership
      ok tt
