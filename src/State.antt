-- ===== src/State.antt =====
-- zen_ma2_agent/state/store.py and state/models.py: the cache of what was read from the show. The
-- clock is an argument; `normalize` of a row is the identity, since a row is a `dict` here.
pub mod Laws
mod Tests
use Prim.Native.String.{String}
use text.Mathlib.Text.{starts_with}
use zen_ma2_agent.Prelude.{
  ℕ, Bool, true, false, not, ◌&&◌, Option, none, some, List, [], ◌∷◌, ◌++◌, if◌then◌else◌, all,
  filter, length, is_some, Result, ok, raise,
}
use zen_ma2_agent.Prelude.Eq.{◌==◌, string_eq, member}
use zen_ma2_agent.Prelude.Dict.{Dict, lookup, insert}
use zen_ma2_agent.Json.{Value, Fields, get}

pub record StateSnapshot : Type 0 where
  pub resource : String
  pub values : List Fields
  pub updated_at : String
  pub source : String
  pub stale : Bool
  pub error : Option String
  pub capability : Option Fields

pub record StateStore : Type 0 where
  pub snapshots : Dict String StateSnapshot

abbrev pub resources : List String
resources =
    "groups" ∷ "fixtures" ∷ "fixture_geometry" ∷ "fixture_type_profiles" ∷ "group_membership"
    ∷ "layouts" ∷ "layout_items" ∷ "selection" ∷ "programmer" ∷ "sequences" ∷ "cues" ∷ "presets"
    ∷ "effects" ∷ "pages" ∷ "executors" ∷ "timecodes" ∷ []

pub data StoreError : Type 0 where
  unknown_resource : String → StoreError

-- `StateSnapshot.create`
unfoldable pub create :
    (now resource : String) → List Fields → (source : String) → Option Fields → StateSnapshot
create now resource values source capability = record {
  resource = resource;
  values = values;
  updated_at = now;
  source = source;
  stale = false;
  error = none;
  capability = capability;
}

-- `StateStore.get`
unfoldable pub find : StateStore → String → Option StateSnapshot
find s resource = lookup resource s.snapshots

save : StateStore → StateSnapshot → StateStore
save s shot = record { snapshots = insert shot.resource shot s.snapshots }

unfoldable pub put :
    (now : String)
    → StateStore
    → (resource : String) → List Fields
    → (source : String) → Option Fields
    → Result StoreError (StateSnapshot × StateStore)
unfolding create save
put now s resource values source capability =
    if member resource resources
    then (let shot = create now resource values source capability in ok (shot, save s shot))
    else raise (unknown_resource resource)

-- The values of a snapshot that may be missing.
unfoldable pub values_of : Option StateSnapshot → List Fields
values_of none = []
values_of (some shot) = shot.values

-- `same` is Python's `==` between what two rows hold under the key.
module _ (same : Option Value → Option Value → Bool) where
  unfoldable pub without : String → Fields → List Fields → List Fields
  without key value = filter (λ item. not (same (get key item) (get key value)))

  unfoldable pub upsert :
      (now : String)
      → StateStore
      → (resource key : String) → Fields
      → (source : String) → Option Fields
      → Result StoreError (StateSnapshot × StateStore)
  unfolding put find values_of without
  upsert now s resource key value source capability =
      put now s resource (without key value (values_of (find s resource)) ++ value ∷ []) source
        capability

capability_of : Option Fields → Option StateSnapshot → Option Fields
capability_of (some c) old = some c
capability_of none none = none
capability_of none (some shot) = shot.capability

unfoldable pub record_error :
    (now : String)
    → StateStore
    → (resource error source : String) → Option Fields
    → StateSnapshot × StateStore
unfolding create save find values_of capability_of
record_error now s resource error source capability =
    let old = find s resource in
    let fresh = create now resource (values_of old) source (capability_of capability old) in
    let shot : StateSnapshot = record fresh { stale = is_some old; error = some error } in
    (shot, save s shot)

unfoldable pub mark_stale : StateStore → (resource reason : String) → StateStore
unfolding find
mark_stale s resource reason = elim (find s resource) [
  | none ↦ s
  | some shot ↦ record {
    snapshots = insert resource (record shot { stale = true; error = some reason }) s.snapshots;
  }
]

-- The loop `for resource in RESOURCES: mark_stale(resource)` of `AgentCore`.
unfoldable pub mark_all_stale : List String → String → StateStore → StateStore
unfolding mark_stale
mark_all_stale [] reason s = s
mark_all_stale (r ∷ rs) reason s = mark_all_stale rs reason (mark_stale s r reason)

-- `not snapshot.error`: no error text, or an empty one.
unfoldable pub no_error : Option String → Bool
no_error none = true
no_error (some e) = e == ""

unfoldable pub is_fresh : Option StateSnapshot → Bool
unfolding no_error
is_fresh none = false
is_fresh (some shot) = not shot.stale && no_error shot.error

unfoldable pub has : StateStore → List String → Bool
unfolding is_fresh find
has s names = all (λ r. is_fresh (find s r)) names

pub data Availability : Type 0 where
  not_available unsupported error available : Availability

unfoldable pub status_of : Option String → Availability
unfolding no_error
status_of none = available
status_of (some e) =
    if no_error (some e)
    then available
    else if starts_with e "UNSUPPORTED"
    then unsupported
    else error

-- A row of `summary`: the status, the count and the snapshot.
unfoldable pub summary_row : StateStore → String → Availability × ℕ × Option StateSnapshot
unfolding find status_of
summary_row s name = elim (find s name) [
  | none ↦ (not_available, 0, none)
  | some shot ↦ (status_of shot.error, length shot.values, some shot)
]
