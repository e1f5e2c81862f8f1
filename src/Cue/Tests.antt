-- ===== src/Cue/Tests.antt =====
-- A plan of one cue that sets a group of one fixture to a level, and the export that shows it.
use Prim.Native.Nat.{ℕ}
use zen_ma2_agent.Prelude.{◌≡◌, refl, ◌≢◌, true, none, some, List, [], ◌∷◌, All, ok}
use zen_ma2_agent.Prelude.Eq.{nat_eq, string_eq}
use zen_ma2_agent.Prelude.Dict.{Dict}
use zen_ma2_agent.Prelude.Text.{codes}
use zen_ma2_agent.Json.{pos, Value, int, str, list, dict, nil, cons, Fields, end, field, get}
use zen_ma2_agent.Cue.Rows.{Reading, list_at}
use zen_ma2_agent.Cue.Verify.{CueReport, verify_cue_content}
use zen_ma2_agent.Cue.Sound.{CueShown, verify_cue_content-shown}

abbrev reading : Reading
reading = record {
  isdigit = λ t. true;
  int_of = λ t. some 7;
  text_of = λ v. codes "50";
  decimal_equal = λ v z. true;
}

abbrev one : Value → Value
one v = list (cons v nil)

abbrev set_dimmer : Fields
set_dimmer =
    field "operation" (str "SET_DIMMER")
      (field "target" (dict (field "ref" (int (pos 3)) end)) (field "level" (int (pos 50)) end))

abbrev plan : Fields
plan =
    field "cues"
      (one (dict (field "cue_number" (int (pos 1)) (field "actions" (one (dict set_dimmer)) end))))
      end

abbrev dim_row : Fields
dim_row =
    field "channel" (dict (field "fixture_id" (str "7") (field "attribute_name" (str "DIM") end)))
      (field "raw_values" (dict (field "Value" (str "50") end)) end)

abbrev discovery : Fields
discovery =
    field "cues"
      (one (
        dict (
          field "number" (dict (field "number" (int (pos 1)) end))
            (field "parts" (one (dict (field "cue_data" (one (dict dim_row)) end))) end))))
      end

abbrev groups : Dict ℕ (List Value)
groups = (3, int (pos 7) ∷ []) ∷ []

abbrev report : CueReport
report = record {
  verified = true;
  unnumbered_system_cues = 0;
  duplicate_numbered_cues = [];
  cues =
      record {
        cue_number = 1;
        reason = none;
        actions =
            record {
              action_index = 1;
              group = 3;
              group_members = 7 ∷ [];
              reason = none;
              missing_fixtures = [];
            }
            ∷ [];
      }
      ∷ [];
}

compared : verify_cue_content reading plan discovery groups ≡ ok report
unfolding verify_cue_content get
compared = refl

verify_cue_content-shown_example :
    (cues : List Value) × (exported : List Value) × (list_at (get "cues" plan) ≡ some cues)
    × (list_at (get "cues" discovery) ≡ some exported)
    × (cues ≢ [])
    × All (CueShown reading groups exported) cues
verify_cue_content-shown_example =
    verify_cue_content-shown reading plan discovery groups report compared refl
