-- ===== src/Workers.antt =====
-- zen_ma2_agent/remote_workers.py: the registry of remote workers and the choice of one. `state` is a
-- `ComponentState` of operator_api.py. A registered worker is shared with its owner; only `set_state`
-- changes it here.
pub mod Route
pub mod Health
mod Tests
use Prim.Native.Nat.{ℕ, ◌+◌}
use zen_ma2_agent.Prelude.{
  Bool, true, false, not, ◌&&◌, ◌||◌, Option, none, some, List, [], ◌∷◌, if◌then◌else◌, any, filter,
  map, length, take, ltb, leb, Result, ok, raise, raise_if, ◌>>=◌, ◌>>◌,
}
use zen_ma2_agent.Prelude.Dict.{Dict, lookup, insert, contains}
use zen_ma2_agent.Prelude.Sort.{sort, min_by}
use zen_ma2_agent.Prelude.Text.{Text, codes, text_eq, text_leb}
use zen_ma2_agent.Json.{ℤ, pos, negsuc}

pub data ComponentState : Type 0 where
  online offline degraded unknown : ComponentState

abbrev pub max_registered_workers : ℕ
max_registered_workers = 32

abbrev pub max_worker_id_length : ℕ
max_worker_id_length = 128

pub record WorkerCapabilities : Type 0 where
  pub gpu_name : Option Text
  pub model_runtime_available : Option Bool

pub record RegisteredWorker : Type 0 where
  pub worker_id : Text
  pub priority : ℤ
  pub state : ComponentState
  pub capabilities : WorkerCapabilities
  pub last_error : Option Text
  pub consecutive_failures : ℕ

pub record WorkerStatus : Type 0 where
  pub worker_id : Text
  pub state : ComponentState
  pub gpu_name : Option Text
  pub model_runtime_available : Option Bool

pub data WorkerError : Type 0 where
  bad_worker_id registry_full unknown_worker : WorkerError

abbrev is_blank : Text → Bool
is_blank [] = true
is_blank _ = false

unfoldable pub validate_worker_id : Text → Result WorkerError Text
validate_worker_id id = do
  raise_if (is_blank id) bad_worker_id
  raise_if (ltb max_worker_id_length (length id)) bad_worker_id
  ok id

abbrev pub Registry : Type 0
Registry = Dict Text RegisteredWorker

-- A worker as it is constructed: its identifier is checked.
unfoldable pub new_worker : Text → ℤ → Result WorkerError RegisteredWorker
unfolding validate_worker_id
new_worker id priority = do
  id ← validate_worker_id id
  ok (record {
    worker_id = id;
    priority = priority;
    state = unknown;
    capabilities = record { gpu_name = none; model_runtime_available = none };
    last_error = none;
    consecutive_failures = 0;
  })

unfoldable pub register : RegisteredWorker → Registry → Result WorkerError Registry
register w ws =
    if not (contains w.worker_id ws) && leb max_registered_workers (length ws)
    then raise registry_full
    else ok (insert w.worker_id w ws)

-- `WorkerRegistry(workers)`
unfoldable pub register_all : List RegisteredWorker → Registry → Result WorkerError Registry
unfolding register
register_all [] ws = ok ws
register_all (w ∷ rest) ws = do ws' ← register w ws; register_all rest ws'

unfoldable pub get_worker : Text → Registry → Result WorkerError RegisteredWorker
unfolding validate_worker_id
get_worker id ws = do
  id ← validate_worker_id id
  elim (lookup id ws) [ none ↦ raise unknown_worker | some w ↦ ok w ]

abbrev or_keep : Option WorkerCapabilities → WorkerCapabilities → WorkerCapabilities
or_keep none old = old
or_keep (some c) old = c

-- `error[:512]` of a text, or nothing
abbrev short_error : Option Text → Option Text
short_error none = none
short_error (some e) = some (take 512 e)

-- The worker after its state is set.
unfoldable pub with_state :
    ComponentState → Option WorkerCapabilities → Option Text → RegisteredWorker → RegisteredWorker
with_state state capabilities error w =
    let v : RegisteredWorker = record w {
      state = state;
      capabilities = or_keep capabilities w.capabilities;
    } in
    elim state [
      | online ↦ record v { last_error = none; consecutive_failures = 0 }
      | unknown ↦ record v { last_error = short_error error }
      | offline ↦ record v {
        last_error = short_error error;
        consecutive_failures = w.consecutive_failures + 1;
      }
      | degraded ↦ record v {
        last_error = short_error error;
        consecutive_failures = w.consecutive_failures + 1;
      }
    ]

unfoldable pub set_state :
    Text
    → ComponentState
    → Option WorkerCapabilities
    → Option Text
    → Registry
    → Result WorkerError Registry
unfolding get_worker with_state
set_state id state capabilities error ws = do
  w ← get_worker id ws
  ok (insert id (with_state state capabilities error w) ws)

-- `state == ONLINE and capabilities.model_runtime_available is True`
unfoldable pub is_usable : RegisteredWorker → Bool
is_usable w = elim w.state [
  | online ↦ elim w.capabilities.model_runtime_available [ none ↦ false | some b ↦ b ]
  | _ ↦ false
]

abbrev pub values : Registry → List RegisteredWorker
values = map (λ p. p.1)

unfoldable pub remote_ai_available : Registry → Bool
unfolding is_usable
remote_ai_available ws = any is_usable (values ws)

abbrev pub int_leb : ℤ → ℤ → Bool
int_leb (pos a) (pos b) = leb a b
int_leb (pos a) (negsuc b) = false
int_leb (negsuc a) (pos b) = true
int_leb (negsuc a) (negsuc b) = leb b a

-- The order of `(item.priority, item.worker_id)`
unfoldable pub key_leb : RegisteredWorker → RegisteredWorker → Bool
key_leb v w =
    not (int_leb w.priority v.priority)
    || (int_leb v.priority w.priority && text_leb v.worker_id w.worker_id)

unfoldable pub operator_status : RegisteredWorker → WorkerStatus
operator_status w = record {
  worker_id = w.worker_id;
  state = w.state;
  gpu_name = w.capabilities.gpu_name;
  model_runtime_available = w.capabilities.model_runtime_available;
}

unfoldable pub operator_workers : Registry → List WorkerStatus
unfolding key_leb operator_status
operator_workers ws = map operator_status (sort key_leb (values ws))

pub record WorkerRouteDecision : Type 0 where
  pub selected_worker_id : Option Text
  pub reason : Text
  pub remote_ai_available : Bool

unfoldable pub route : Registry → WorkerRouteDecision
unfolding key_leb is_usable
route ws = elim (filter is_usable (values ws)) [
  | [] ↦ record {
    selected_worker_id = none;
    reason = codes "NO_WORKER_AVAILABLE";
    remote_ai_available = false;
  }
  | w ∷ rest ↦ record {
    selected_worker_id = some (min_by key_leb w rest).worker_id;
    reason = codes "PREFERRED_ONLINE_WORKER";
    remote_ai_available = true;
  }
]
