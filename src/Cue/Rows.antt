-- ===== src/Cue/Rows.antt =====
-- How zen_ma2_agent/cue_content_verifier.py reads the export of a sequence: numbers, addresses and rows.
use Prim.Native.Nat.{ℕ, suc}
use Prim.Native.String.{String}
use zen_ma2_agent.Prelude.{
  Bool, true, false, not, ◌&&◌, ◌||◌, Option, none, some, List, [], ◌∷◌, ◌++◌, if◌then◌else◌, ltb,
  Result, ok, raise, ◌>>=◌,
}
use zen_ma2_agent.Prelude.Eq.{◌==◌, nat_eq, string_eq, member}
use zen_ma2_agent.Prelude.Dict.{Dict, lookup, insert, contains}
use zen_ma2_agent.Prelude.Text.{Text, codes, text_eq, split_on}
use zen_ma2_agent.Json.{
  ℤ, pos, Value, null, bool, int, float, str, list, dict, Items, nil, cons, Fields, get,
}

pub data CueError : Type 0 where
  no_cue_list no_export cue_not_object bad_cue_number no_actions bad_action bad_group bad_level :
      CueError
  bad_preset bad_effect : CueError
  -- `int` refuses a text for which `isdigit` holds
  bad_digits : CueError

-- What the source calls of Python's `str`, `int` and `Decimal`.
pub record Reading : Type 0 where
  pub isdigit : Text → Bool
  pub int_of : Text → Option ℕ
  -- `str(v).strip()`
  pub text_of : Value → Text
  -- `Decimal(str(v).strip()) == Decimal(n)`, false where it raises
  pub decimal_equal : Value → ℤ → Bool

abbrev pub items_of : Items → List Value
items_of nil = []
items_of (cons v vs) = v ∷ items_of vs

abbrev pub list_at : Option Value → Option (List Value)
list_at (some (list vs)) = some (items_of vs)
list_at _ = none

-- `v.get(key)` where `v` is a mapping
abbrev pub dict_at : Option Value → Option Fields
dict_at (some (dict d)) = some d
dict_at _ = none

-- An `int` that is not a `bool`, of at least 1.
abbrev pub positive_at : Option Value → Option ℕ
positive_at (some (int (pos n))) = if ltb 0 n then some n else none
positive_at _ = none

abbrev positive : ℕ → Option ℕ
positive n = if ltb 0 n then some n else none

unfoldable pub int_of_digits : Reading → Text → Result CueError ℕ
int_of_digits r t = elim (r.int_of t) [ none ↦ raise bad_digits | some n ↦ ok n ]

unfoldable pub strict_positive_int : Reading → Option Value → Result CueError (Option ℕ)
unfolding int_of_digits
strict_positive_int r (some (int (pos n))) = ok (positive n)
strict_positive_int r (some (str s)) =
    if r.isdigit (codes s) then (int_of_digits r (codes s) >>= λ n. ok (positive n)) else ok none
strict_positive_int r v = ok none

-- `sub_number in (None, "", "0", 0)`
abbrev no_sub_number : Option Value → Bool
no_sub_number none = true
no_sub_number (some null) = true
no_sub_number (some (str s)) = s == "" || s == "0"
no_sub_number (some (int (pos n))) = n == 0
no_sub_number (some (bool b)) = not b
no_sub_number (some (float x)) = x == "0.0" || x == "-0.0"
no_sub_number _ = false

unfoldable pub cue_number : Reading → Option Value → Result CueError (Option ℕ)
unfolding strict_positive_int
cue_number r v = elim (dict_at v) [
  | none ↦ ok none
  | some d ↦ strict_positive_int r (get "number" d) >>= λ n.
      ok (if no_sub_number (get "sub_number" d) then n else none)
]

unfoldable pub fixture_id : Reading → Fields → Result CueError (Option ℕ)
unfolding strict_positive_int
fixture_id r row = elim (dict_at (get "channel" row)) [
  | none ↦ ok none
  | some channel ↦ strict_positive_int r (get "fixture_id" channel)
]

-- One component of an address; `none` where it is none.
component_of : Reading → Value → Result CueError (Option ℕ)
unfolding int_of_digits
component_of r (bool b) = ok none
component_of r v =
    if r.isdigit (r.text_of v)
    then (int_of_digits r (r.text_of v) >>= λ n. ok (some n))
    else ok none

components_of : Reading → List Value → Result CueError (Option (List ℕ))
unfolding component_of
components_of r [] = ok (some [])
components_of r (v ∷ vs) = component_of r v >>= λ c. elim c [
  | none ↦ ok none
  | some n ↦ components_of r vs >>= λ rest. ok (elim rest [ none ↦ none | some ns ↦ some (n ∷ ns) ])
]

unfoldable pub address_components : Reading → Option Value → Result CueError (Option (List ℕ))
unfolding components_of
address_components r v = elim (dict_at v) [
  | none ↦ ok none
  | some d ↦ elim (list_at (get "no_components" d)) [
    | none ↦ ok none
    | some [] ↦ ok none
    | some (x ∷ xs) ↦ components_of r (x ∷ xs)
  ]
]

-- `actual[-2:] == (a, b)` and `actual[-1] == n`
unfoldable pub ends_with_pair : ℕ → ℕ → List ℕ → Bool
ends_with_pair a b [] = false
ends_with_pair a b (x ∷ xs) =
    let deeper = ends_with_pair a b xs in
    elim xs [ [] ↦ false | y ∷ ys ↦ elim ys [ [] ↦ x == a && y == b | _ ∷ _ ↦ deeper ] ]

unfoldable pub ends_with : ℕ → List ℕ → Bool
ends_with n [] = false
ends_with n (x ∷ xs) = let deeper = ends_with n xs in elim xs [ [] ↦ x == n | _ ∷ _ ↦ deeper ]

-- The two numbers of a preset reference.
unfoldable pub reference_parts : Reading → String → Result CueError (ℕ × ℕ)
unfolding split_on int_of_digits
reference_parts r reference = elim (split_on 46 (codes reference)) [
  | [] ↦ raise bad_preset
  | a ∷ rest ↦ elim rest [
    | [] ↦ raise bad_preset
    | b ∷ more ↦ elim more [
      | _ ∷ _ ↦ raise bad_preset
      | [] ↦
          if r.isdigit a && r.isdigit b
          then (int_of_digits r a >>= λ m. int_of_digits r b >>= λ n. ok (m, n))
          else raise bad_preset
    ]
  ]
]

unfoldable pub preset_suffix_matches : Reading → Option Value → String → Result CueError Bool
unfolding reference_parts address_components ends_with_pair
preset_suffix_matches r address reference = reference_parts r reference >>= λ p.
    address_components r address >>= λ actual.
    ok (elim actual [ none ↦ false | some ns ↦ ends_with_pair p.0 p.1 ns ])

unfoldable pub effect_matches : Reading → Option Value → ℕ → Result CueError Bool
unfolding address_components ends_with
effect_matches r address effect_id = address_components r address >>= λ actual.
    ok (elim actual [ none ↦ false | some ns ↦ ends_with effect_id ns ])

-- `_flatten_rows`
rows_in : List Value → List Fields
rows_in [] = []
rows_in (dict row ∷ vs) = row ∷ rows_in vs
rows_in (_ ∷ vs) = rows_in vs

or_empty : Option (List Value) → List Value
or_empty none = []
or_empty (some vs) = vs

rows_of_parts : List Value → List Fields
unfolding rows_in or_empty
rows_of_parts [] = []
rows_of_parts (dict part ∷ vs) =
    rows_in (or_empty (list_at (get "cue_data" part))) ++ rows_of_parts vs
rows_of_parts (_ ∷ vs) = rows_of_parts vs

unfoldable pub flatten_rows : Fields → List Fields
unfolding rows_of_parts or_empty
flatten_rows cue = rows_of_parts (or_empty (list_at (get "parts" cue)))

-- `rows_by_fixture`, and `rows_by_fixture.get(fixture, [])`
unfoldable pub rows_at : ℕ → Dict ℕ (List Fields) → List Fields
unfolding lookup
rows_at fixture d = elim (lookup fixture d) [ none ↦ [] | some rows ↦ rows ]

unfoldable pub index_rows :
    Reading → List Fields → Dict ℕ (List Fields) → Result CueError (Dict ℕ (List Fields))
unfolding fixture_id rows_at insert
index_rows r [] d = ok d
index_rows r (row ∷ rows) d = fixture_id r row >>= λ id. elim id [
  | none ↦ index_rows r rows d
  | some n ↦ index_rows r rows (insert n (rows_at n d ++ row ∷ []) d)
]

-- The exported cues by number: the first of each number, the numbers that came again, and how many had none.
pub record CueIndex : Type 0 where
  pub numbered : Dict ℕ Fields
  pub duplicates : List ℕ
  pub unnumbered : ℕ

abbrev pub add : ℕ → List ℕ → List ℕ
add n ns = if member n ns then ns else ns ++ n ∷ []

unfoldable pub index_cue : Option ℕ → Fields → CueIndex → CueIndex
unfolding lookup insert
index_cue none cue i = record i { unnumbered = suc i.unnumbered }
index_cue (some n) cue i =
    if contains n i.numbered
    then record i { duplicates = add n i.duplicates }
    else record i { numbered = insert n cue i.numbered }

unfoldable pub index_cues : Reading → List Value → CueIndex → Result CueError CueIndex
unfolding cue_number index_cue
index_cues r [] i = ok i
index_cues r (dict cue ∷ vs) i =
    cue_number r (get "number" cue) >>= λ n. index_cues r vs (index_cue n cue i)
index_cues r (_ ∷ vs) i = index_cues r vs i
