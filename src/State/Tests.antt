-- ===== src/State/Tests.antt =====
-- Runs of the store, and its theorems at concrete inputs.
use Prim.Native.String.{String}
use zen_ma2_agent.Prelude.{
  ◌≡◌, refl, ◌≢◌, ◌⊎◌, Bool, true, false, Option, none, some, [], ◌∷◌, ok, raise,
}
use zen_ma2_agent.Prelude.Eq.{◌==◌, nat_eq, string_eq, member}
use zen_ma2_agent.Prelude.Dict.{lookup}
use zen_ma2_agent.Json.{Value, Fields, end, field, str, pos, int, get}
use zen_ma2_agent.State.{
  StateSnapshot, StateStore, resources, unknown_resource, create, find, put, values_of, without,
  upsert, record_error, mark_all_stale, has,
}
use zen_ma2_agent.State.Laws.{mark_all_stale_lem, put_lem, matching, upsert_lem, record_error_lem}

abbrev wash : Fields
wash = field "number" (int (pos 1)) (field "name" (str "Wash") end)

abbrev spot : Fields
spot = field "number" (int (pos 2)) (field "name" (str "Spot") end)

abbrev wash_renamed : Fields
wash_renamed = field "number" (int (pos 1)) (field "name" (str "Front") end)

abbrev two_groups : StateStore
two_groups = record {
  snapshots =
      (
        "groups",
        record {
          resource = "groups";
          values = wash ∷ spot ∷ [];
          updated_at = "t0";
          source = "list";
          stale = false;
          error = none;
          capability = none;
        },
      )
      ∷ [];
}

-- Rows are compared by whether they have the key and by a number under it.
abbrev same_number : Option Value → Option Value → Bool
same_number (some (int (pos a))) (some (int (pos b))) = a == b
same_number (some (str a)) (some (str b)) = a == b
same_number none none = true
same_number _ _ = false

rename_keeps_spot :
    upsert same_number "t1" two_groups "groups" "number" wash_renamed "list" none
    ≡ put "t1" two_groups "groups" (spot ∷ wash_renamed ∷ []) "list" none
unfolding upsert without get find lookup
rename_keeps_spot = refl

mark_all_stale_lem_example :
    has (mark_all_stale resources "gone" two_groups) ("groups" ∷ []) ≡ false
mark_all_stale_lem_example = mark_all_stale_lem resources "gone" two_groups "groups" refl

put_lem_example :
    ((member "groups" resources ≡ false)
      × (put "t1" two_groups "groups" [] "list" none ≡ raise (unknown_resource "groups")))
    ⊎ ((member "groups" resources ≡ true)
        × (t : StateStore) × (put "t1" two_groups "groups" [] "list" none
            ≡ ok (create "t1" "groups" [] "list" none, t))
        × (has t ("groups" ∷ []) ≡ true)
        × (values_of (find t "groups") ≡ [])
        × ((q : String) → "groups" ≢ q → find t q ≡ find two_groups q))
put_lem_example = put_lem "t1" two_groups "groups" [] "list" none

upsert_lem_example :
    (shot : StateSnapshot) × (t : StateStore) × (upsert same_number "t1" two_groups "groups"
        "number" wash_renamed "list" none
      ≡ ok (shot, t))
    × (matching same_number "number" wash_renamed (values_of (find t "groups")) ≡ wash_renamed ∷ [])
    × (without same_number "number" wash_renamed (values_of (find t "groups"))
        ≡ without same_number "number" wash_renamed (values_of (find two_groups "groups")))
unfolding get
upsert_lem_example =
    upsert_lem same_number "t1" two_groups "groups" "number" wash_renamed "list" none refl refl

record_error_lem_example :
    let t = (record_error "t1" two_groups "groups" "UNSUPPORTED" "list" none).1 in
    (values_of (find t "groups") ≡ values_of (find two_groups "groups"))
    × (has t ("groups" ∷ []) ≡ elim (find two_groups "groups") [
      | none ↦ ◌==◌ {A = String} "UNSUPPORTED" ""
      | some _ ↦ false
    ])
    × ((q : String) → "groups" ≢ q → find t q ≡ find two_groups q)
record_error_lem_example = record_error_lem "t1" two_groups "groups" "UNSUPPORTED" "list" none
