-- ===== src/Cue/Verify.antt =====
-- `verify_cue_content` of zen_ma2_agent/cue_content_verifier.py. Of a report its status, its numbers and its
-- reasons are kept; labels, the raw values it quotes and its explanations are left out.
use Prim.Native.Nat.{ℕ, suc}
use Prim.Native.String.{String}
use zen_ma2_agent.Prelude.{
  Bool, true, false, not, ◌&&◌, ◌||◌, Option, none, some, List, [], ◌∷◌, if◌then◌else◌, all,
  is_some, Result, ok, raise, ◌>>=◌,
}
use zen_ma2_agent.Prelude.Eq.{◌==◌, nat_eq, string_eq, member}
use zen_ma2_agent.Prelude.Dict.{Dict, lookup}
use zen_ma2_agent.Json.{ℤ, Value, null, int, str, dict, Fields, get}
use zen_ma2_agent.Cue.Rows.{
  CueError, no_cue_list, no_export, cue_not_object, bad_cue_number, no_actions, bad_action,
  bad_group, bad_level, bad_preset, bad_effect, Reading, list_at, dict_at, positive_at,
  preset_suffix_matches, effect_matches, flatten_rows, rows_at, index_rows, CueIndex, index_cues,
}

pub data Reason : Type 0 where
  group_membership_unavailable dim_value_mismatch_or_absent preset_identity_mismatch_or_absent :
      Reason
  effect_identity_mismatch_or_absent unsupported_approved_action : Reason
  duplicate_numbered_cue expected_cue_absent : Reason

-- The evidence of one action; without a reason it is verified.
pub record Evidence : Type 0 where
  pub action_index : ℕ
  pub group : ℕ
  pub group_members : List ℕ
  pub reason : Option Reason
  pub missing_fixtures : List ℕ

pub record CueResult : Type 0 where
  pub cue_number : ℕ
  pub reason : Option Reason
  pub actions : List Evidence

pub record CueReport : Type 0 where
  pub verified : Bool
  pub unnumbered_system_cues : ℕ
  pub duplicate_numbered_cues : List ℕ
  pub cues : List CueResult

-- The members of a group that are numbers of fixtures.
unfoldable pub members_of : Option (List Value) → List ℕ
members_of none = []
members_of (some vs) = keep vs
  where
    keep : List Value → List ℕ
    keep [] = []
    keep (v ∷ vs) = elim (positive_at (some v)) [ none ↦ keep vs | some n ↦ n ∷ keep vs ]

abbrev is_text : String → Option Value → Bool
is_text s (some (str t)) = s == t
is_text s _ = false

abbrev is_null : Value → Bool
is_null null = true
is_null _ = false

-- A row of the `DIM` attribute with the value of the level.
unfoldable pub shows_level : Reading → ℤ → Fields → Bool
shows_level r level row =
    is_text "DIM"
      (elim (dict_at (get "channel" row)) [ none ↦ none | some c ↦ get "attribute_name" c ])
    && elim (dict_at (get "raw_values" row)) [
      | none ↦ false
      | some values ↦ elim (get "Value" values) [
        | none ↦ false
        | some v ↦ not (is_null v) && r.decimal_equal v level
      ]
    ]

-- What an action asks of the rows of a fixture, and the reason when no row shows it.
pub data Check : Type 0 where
  level : ℤ → Check
  preset : String → Check
  effect : ℕ → Check
  unsupported : Check

abbrev level_of : Option Value → Result CueError Check
level_of (some (int z)) = ok (level z)
level_of _ = raise bad_level

abbrev preset_of : Option Value → Result CueError Check
preset_of (some (str s)) = ok (preset s)
preset_of _ = raise bad_preset

abbrev effect_of : Option Value → Result CueError Check
effect_of v = elim (dict_at v) [
  | none ↦ raise bad_effect
  | some d ↦ elim (positive_at (get "id" d)) [ none ↦ raise bad_effect | some n ↦ ok (effect n) ]
]

unfoldable pub check_of : Fields → Result CueError Check
check_of action =
    let operation = get "operation" action in
    if is_text "SET_DIMMER" operation
    then level_of (get "level" action)
    else if is_text "CALL_PRESET" operation
    then preset_of (get "preset_ref" action)
    else if is_text "CALL_EFFECT" operation
    then effect_of (get "effect_ref" action)
    else ok unsupported

-- Whether a row shows what is asked; the comparison of an address may raise.
unfoldable pub row_shows : Reading → Check → Fields → Result CueError Bool
unfolding shows_level preset_suffix_matches effect_matches
row_shows r (level z) row = ok (shows_level r z row)
row_shows r (preset reference) row = preset_suffix_matches r (get "preset" row) reference
row_shows r (effect n) row = effect_matches r (get "effect" row) n
row_shows r unsupported row = ok false

abbrev reason_of : Check → Reason
reason_of (level _) = dim_value_mismatch_or_absent
reason_of (preset _) = preset_identity_mismatch_or_absent
reason_of (effect _) = effect_identity_mismatch_or_absent
reason_of unsupported = unsupported_approved_action

-- Every row is compared, also after a match.
unfoldable pub any_shows : Reading → Check → List Fields → Result CueError Bool
unfolding row_shows
any_shows r c [] = ok false
any_shows r c (row ∷ rows) =
    row_shows r c row >>= λ here. any_shows r c rows >>= λ later. ok (here || later)

-- The members without a row that shows what is asked.
unfoldable pub missing_of :
    Reading → Check → Dict ℕ (List Fields) → List ℕ → Result CueError (List ℕ)
unfolding any_shows rows_at
missing_of r c by_fixture [] = ok []
missing_of r c by_fixture (fixture ∷ members) =
    any_shows r c (rows_at fixture by_fixture) >>= λ shown.
    missing_of r c by_fixture members >>= λ rest. ok (if shown then rest else fixture ∷ rest)

abbrev pub reason_if_missing : Check → List ℕ → Option Reason
reason_if_missing unsupported missing = some unsupported_approved_action
reason_if_missing c [] = none
reason_if_missing c (_ ∷ _) = some (reason_of c)

-- An action of another kind names no fixture.
abbrev listed_missing : Check → List ℕ → List ℕ
listed_missing unsupported missing = []
listed_missing c missing = missing

-- What the members of a group must show, for one action.
unfoldable pub verify_members :
    Reading → Dict ℕ (List Fields) → (index group : ℕ) → Fields → List ℕ → Result CueError Evidence
unfolding check_of missing_of
verify_members r by_fixture index group action [] = ok (record {
  action_index = index;
  group = group;
  group_members = [];
  reason = some group_membership_unavailable;
  missing_fixtures = [];
})
verify_members r by_fixture index group action (m ∷ members) = check_of action >>= λ c.
    missing_of r c by_fixture (m ∷ members) >>= λ missing. ok (record {
      action_index = index;
      group = group;
      group_members = m ∷ members;
      reason = reason_if_missing c missing;
      missing_fixtures = listed_missing c missing;
    })

-- `target.get("ref")`, a positive number
unfoldable pub group_of : Fields → Option ℕ
group_of action = elim (dict_at (get "target" action)) [
  | none ↦ none
  | some t ↦ positive_at (get "ref" t)
]

unfoldable pub verify_actions :
    Reading
    → (groups : Dict ℕ (List Value)) → Dict ℕ (List Fields)
    → (index : ℕ) → List Value
    → Result CueError (List Evidence)
unfolding members_of verify_members lookup group_of
verify_actions r groups by_fixture index [] = ok []
verify_actions r groups by_fixture index (dict action ∷ actions) = elim (group_of action) [
  | none ↦ raise bad_group
  | some group ↦
      verify_members r by_fixture index group action (members_of (lookup group groups)) >>= λ e.
      verify_actions r groups by_fixture (suc index) actions >>= λ rest. ok (e ∷ rest)
]
verify_actions r groups by_fixture index (_ ∷ actions) = raise bad_action

-- One expected cue.
unfoldable pub verify_cue :
    Reading → (groups : Dict ℕ (List Value)) → CueIndex → Value → Result CueError CueResult
unfolding flatten_rows index_rows verify_actions
verify_cue r groups index (dict cue) = elim (positive_at (get "cue_number" cue)) [
  | none ↦ raise bad_cue_number
  | some number ↦
      if member number index.duplicates
      then ok (record { cue_number = number; reason = some duplicate_numbered_cue; actions = [] })
      else elim (lookup number index.numbered) [
        | none ↦
            ok (record { cue_number = number; reason = some expected_cue_absent; actions = [] })
        | some actual ↦ index_rows r (flatten_rows actual) [] >>= λ by_fixture.
            elim (list_at (get "actions" cue)) [
              | none ↦ raise no_actions
              | some actions ↦ verify_actions r groups by_fixture 1 actions >>= λ evidence.
                  ok (record { cue_number = number; reason = none; actions = evidence })
            ]
      ]
]
verify_cue r groups index _ = raise cue_not_object

unfoldable pub verify_cues :
    Reading
    → (groups : Dict ℕ (List Value)) → CueIndex
    → List Value
    → Result CueError (List CueResult)
unfolding verify_cue
verify_cues r groups index [] = ok []
verify_cues r groups index (cue ∷ cues) = verify_cue r groups index cue >>= λ result.
    verify_cues r groups index cues >>= λ rest. ok (result ∷ rest)

abbrev pub is_verified : CueResult → Bool
is_verified c = not (is_some c.reason) && all (λ e. not (is_some e.reason)) c.actions

unfoldable pub verify_cue_content :
    Reading
    → (show_plan sequence_discovery : Fields) → (groups : Dict ℕ (List Value))
    → Result CueError CueReport
unfolding index_cues verify_cues
verify_cue_content r show_plan discovery groups = elim (list_at (get "cues" show_plan)) [
  | none ↦ raise no_cue_list
  | some cues ↦ elim cues [
    | [] ↦ raise no_cue_list
    | first ∷ more ↦ elim (list_at (get "cues" discovery)) [
      | none ↦ raise no_export
      | some exported ↦
          index_cues r exported (record { numbered = []; duplicates = []; unnumbered = 0 })
          >>= λ index. verify_cues r groups index (first ∷ more) >>= λ results. ok (record {
            verified = all is_verified results;
            unnumbered_system_cues = index.unnumbered;
            duplicate_numbered_cues = index.duplicates;
            cues = results;
          })
    ]
  ]
]
