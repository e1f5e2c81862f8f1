-- ===== src/Llm/Router.antt =====
-- `ProviderRouter` of zen_ma2_agent/llm/router.py: its construction, the order of the candidates, and the
-- readiness of the pool.
use Prim.Native.Nat.{ℕ, min}
use zen_ma2_agent.Prelude.{
  Bool, true, false, not, ◌&&◌, ◌||◌, Option, none, some, List, [], ◌∷◌, ◌++◌, if◌then◌else◌, map,
  filter, take, length, all, ltb, nat_beq, Result, ok, raise, raise_if, ◌>>=◌, ◌>>◌,
}
use zen_ma2_agent.Prelude.Eq.{◌==◌, nat_eq, member}
use zen_ma2_agent.Prelude.Dict.{Dict, lookup, insert}
use zen_ma2_agent.Prelude.Sort.{sort}
use zen_ma2_agent.Prelude.Text.{Text, codes, text_eq, text_leb, strip}
use zen_ma2_agent.Json.{ℤ, pos, negsuc}
use zen_ma2_agent.Llm.Slots.{
  Builtins, ConfigError, parallelism_not_integer, parallelism_out_of_range, ProviderSlot, is_set,
  has_roles, configured, supports, SafeIdentity, safe_identity,
}
use zen_ma2_agent.Llm.Config.{value_or, roles_of, load_provider_slots}

pub record ProviderRouter : Type 0 where
  pub mode : Text
  pub slots : List ProviderSlot
  pub parallelism : ℕ
  pub parallel_roles : List Text

-- A set as a list without repetitions.
unfoldable pub as_set : List Text → List Text
as_set [] = []
as_set (x ∷ xs) = let rest = as_set xs in if member x xs then rest else x ∷ rest

-- `__init__`
unfoldable pub new_router :
    Builtins → Text → List ProviderSlot → ℤ → List Text → Result ConfigError ProviderRouter
unfolding strip as_set
new_router py mode slots (negsuc n) roles = raise parallelism_out_of_range
new_router py mode slots (pos n) roles = do
  raise_if (ltb n 1 || ltb 4 n) parallelism_out_of_range
  ok (record {
    mode = mode;
    slots = slots;
    parallelism = n;
    parallel_roles = as_set (map (λ t. py.upper (strip t)) (filter (λ t. is_set (strip t)) roles));
  })

unfoldable pub parallelism_of : Builtins → Dict Text Text → Result ConfigError ℤ
unfolding value_or
parallelism_of py values =
    elim (py.to_int (value_or (codes "ZEN_PROVIDER_PARALLELISM") (codes "1") values)) [
      | none ↦ raise parallelism_not_integer
      | some n ↦ ok n
    ]

unfoldable pub parallel_roles_of : Builtins → Dict Text Text → List Text
unfolding value_or roles_of
parallel_roles_of py values = roles_of py (value_or (codes "ZEN_PROVIDER_PARALLEL_ROLES") [] values)

unfoldable pub from_portable_config : Builtins → Dict Text Text → Result ConfigError ProviderRouter
unfolding parallelism_of parallel_roles_of load_provider_slots new_router
from_portable_config py values = do
  (mode, slots) ← load_provider_slots py values
  parallelism ← parallelism_of py values
  new_router py mode slots parallelism (parallel_roles_of py values)

-- The order of tuples of numbers of the same length.
unfoldable pub tuple_leb : List ℕ → List ℕ → Bool
tuple_leb [] ys = true
tuple_leb (x ∷ xs) [] = false
tuple_leb (x ∷ xs) (y ∷ ys) = ltb x y || (nat_beq x y && tuple_leb xs ys)

-- `cost_rank.get(slot.cost_class, 2)`
unfoldable pub cost_rank : Text → ℕ
cost_rank c =
    if c == codes "FREE"
    then 0
    else if c == codes "LOCAL"
    then 1
    else if c == codes "UNKNOWN"
    then 2
    else if c == codes "PAID"
    then 3
    else 2

abbrev pub role_rank : ProviderSlot → ℕ
role_rank s = if has_roles s then 0 else 1

abbrev pub peer_key : ProviderSlot → List ℕ
peer_key s = s.priority ∷ s.number ∷ []

unfoldable pub free_key : ProviderSlot → List ℕ
unfolding cost_rank
free_key s = cost_rank s.cost_class ∷ role_rank s ∷ peer_key s

-- `sorted(…, key=…)`
abbrev pub sorted_by : (ProviderSlot → List ℕ) → List ProviderSlot → List ProviderSlot
sorted_by key slots = sort (λ x y. tuple_leb (key x) (key y)) slots

unfoldable pub eligible : Builtins → Text → ProviderRouter → List ProviderSlot
unfolding configured supports
eligible py role r = filter (λ s. configured s && supports py role s) r.slots

unfoldable pub order_by_mode : Text → List ProviderSlot → List ProviderSlot
unfolding sort tuple_leb free_key
order_by_mode mode slots =
    if mode == codes "PRIMARY_ONLY"
    then take 1 slots
    else if mode == codes "FALLBACK"
    then slots
    else if mode == codes "ROUTED"
    then sorted_by peer_key (filter has_roles slots)
      ++ sorted_by peer_key (filter (λ s. not (has_roles s)) slots)
    else sorted_by free_key slots

unfoldable pub candidates : Builtins → Text → ProviderRouter → List ProviderSlot
unfolding eligible order_by_mode
candidates py role r = order_by_mode r.mode (eligible py role r)

unfoldable pub configured_slots : ProviderRouter → List ProviderSlot
unfolding configured
configured_slots r = filter configured r.slots

-- `n or 1`
abbrev at_least_one : ℕ → ℕ
at_least_one n = if nat_beq n 0 then 1 else n

abbrev no_parallel_roles : ProviderRouter → Bool
no_parallel_roles r = elim r.parallel_roles [ [] ↦ true | _ ∷ _ ↦ false ]

unfoldable pub parallel_limit : Builtins → Text → ProviderRouter → ℕ
unfolding candidates
parallel_limit py role r =
    if ltb r.parallelism 2
    then 1
    else if not (no_parallel_roles r) && not (member (py.upper role) r.parallel_roles)
    then 1
    else min r.parallelism (at_least_one (length (candidates py (py.upper role) r)))

-- What a probe said of a slot: a Boolean or a word.
pub data Health : Type 0 where
  flag : Bool → Health
  word : Text → Health

pub record SlotRow : Type 0 where
  pub identity : SafeIdentity
  pub configured : Bool
  pub healthy : Health
  pub eligible_roles : List Text
  pub cost_class : Text
  pub failure_class : Text

pub data RoleStatus : Type 0 where
  not_ready unknown_health ready insufficient_healthy_providers : RoleStatus

pub record RoleRow : Type 0 where
  pub configured_parallelism : ℕ
  pub eligible_configured_slots : List ℕ
  pub healthy_independent_slots : ℕ
  pub parallelism_satisfied : Option Bool
  pub status : RoleStatus

pub record Readiness : Type 0 where
  pub mode : Text
  pub parallelism : ℕ
  pub parallel_roles : List Text
  pub slots : List SlotRow
  pub roles : Dict Text RoleRow

-- `health_by_slot.get(slot.number, "UNKNOWN") if configured else False`, in upper case
unfoldable pub health_of : Builtins → Dict ℕ Health → ProviderSlot → Health
unfolding configured lookup
health_of py health s = if not (configured s) then flag false else elim (lookup s.number health) [
  | none ↦ word (py.upper (codes "UNKNOWN"))
  | some (flag b) ↦ flag b
  | some (word t) ↦ word (py.upper t)
]

abbrev is_unknown : Health → Bool
is_unknown (flag b) = false
is_unknown (word t) = t == codes "UNKNOWN"

unfoldable pub failure_of : Builtins → Dict ℕ Health → Dict ℕ Text → ProviderSlot → Text
unfolding health_of
failure_of py health failures s = elim (lookup s.number failures) [
  | some f ↦ f
  | none ↦
      if not (configured s)
      then codes "NOT_CONFIGURED"
      else if is_unknown (health_of py health s)
      then codes "NOT_TESTED"
      else codes "NONE"
]

unfoldable pub slot_row :
    Builtins → Dict ℕ Health → Dict ℕ Text → List Text → ProviderSlot → SlotRow
unfolding health_of failure_of supports safe_identity
slot_row py health failures roles s = record {
  identity = safe_identity s;
  configured = configured s;
  healthy = health_of py health s;
  eligible_roles = map py.upper (filter (λ role. supports py role s) roles);
  cost_class = s.cost_class;
  failure_class = failure_of py health failures s;
}

-- `value is True or value == "ONLINE"`, and `value in (None, "UNKNOWN")`
abbrev is_healthy : Option Health → Bool
is_healthy (some (flag b)) = b
is_healthy (some (word t)) = t == codes "ONLINE"
is_healthy none = false

abbrev is_silent : Option Health → Bool
is_silent none = true
is_silent (some h) = is_unknown h

abbrev no_health : Dict ℕ Health → Bool
no_health [] = true
no_health _ = false

unfoldable pub required_parallelism : ProviderRouter → Text → ℕ
required_parallelism r role =
    if ltb 1 r.parallelism && member role r.parallel_roles then r.parallelism else 1

-- The row of a role, from the numbers of its candidates.
unfoldable pub role_row : Dict ℕ Health → (required : ℕ) → List ℕ → RoleRow
unfolding lookup
role_row health required numbers =
    let known = map (λ n. lookup n health) numbers in
    let healthy = length (filter is_healthy known) in
    record {
      configured_parallelism = required;
      eligible_configured_slots = numbers;
      healthy_independent_slots = healthy;
      parallelism_satisfied = if no_health health then none else some (not (ltb healthy required));
      status =
          if nat_beq (length known) 0
          then not_ready
          else if no_health health || all is_silent known
          then unknown_health
          else if not (ltb healthy required)
          then ready
          else insufficient_healthy_providers;
    }

-- The loop over the roles: a role that comes again replaces its row.
unfoldable pub role_rows :
    Builtins → ProviderRouter → Dict ℕ Health → List Text → Dict Text RoleRow → Dict Text RoleRow
unfolding candidates required_parallelism role_row insert
role_rows py r health [] rows = rows
role_rows py r health (role ∷ roles) rows =
    let normalized = py.upper role in
    let numbers = map (λ s. s.number) (candidates py normalized r) in
    role_rows py r health roles
      (insert normalized (role_row health (required_parallelism r normalized) numbers) rows)

unfoldable pub pool_readiness :
    Builtins → Dict ℕ Health → Dict ℕ Text → List Text → ProviderRouter → Readiness
unfolding slot_row role_rows sort text_leb
pool_readiness py health failures roles r =
    let roles = map py.upper roles in
    record {
      mode = r.mode;
      parallelism = r.parallelism;
      parallel_roles = sort text_leb r.parallel_roles;
      slots = map (slot_row py health failures roles) r.slots;
      roles = role_rows py r health roles [];
    }
