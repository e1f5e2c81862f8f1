-- ===== src/Workers/Health.antt =====
-- zen_ma2_agent/worker_health.py: what a probe of a worker does to the registry. The HTTP client is outside:
-- `Reply` is the parsed body that a request gave, or what it raised.
pub mod Replies
pub mod Laws
use zen_ma2_agent.Prelude.{
  ◌≡◌, sym, ap, ◌≢◌, inl, inr, Bool, false, not, Option, none, some, ◌++◌, take, Result-cases,
  Result, ok, raise, raise_if, ◌>>=◌, ◌>>◌,
}
use zen_ma2_agent.Prelude.Eq.{◌==◌, string_eq}
use zen_ma2_agent.Prelude.Dict.{lookup, insert, lookup-insert_self, lookup-insert_ne}
use zen_ma2_agent.Prelude.Text.{Text, codes, text_eq}
use zen_ma2_agent.Json.{Value, null, bool, str, dict, get}
use zen_ma2_agent.Workers.{
  ComponentState, online, offline, degraded, WorkerCapabilities, RegisteredWorker, Registry,
  WorkerError, unknown_worker, validate_worker_id, get_worker, with_state, set_state,
}

-- An exception with its text: an `httpx.HTTPError`, a `ValueError` or a `TypeError`, which the probe catches,
-- or another one, which it lets through.
pub data Failure : Type 0 where
  caught escaping : Text → Failure

abbrev pub Reply : Type 0
Reply = Result Failure Value

-- What a probe raises.
pub data ProbeError : Type 0 where
  registry_error : WorkerError → ProbeError
  escaped : Text → ProbeError

-- `payload.get(key) == s`
abbrev pub is_text : Text → Option Value → Bool
is_text t (some (str s)) = codes s == t
is_text t _ = false

unfoldable pub validate_health : Text → Value → Result Failure (Unit {0})
validate_health id (dict p) = do
  raise_if (not (is_text (codes "zen.worker.health.v0.1") (get "schema_version" p)))
      (caught (codes "worker health schema mismatch"))
  raise_if (not (is_text id (get "worker_id" p))) (caught (codes "worker health identity mismatch"))
  raise_if (not (is_text (codes "ONLINE") (get "status" p)))
      (caught (codes "worker health status is not ONLINE"))
validate_health id _ = raise (caught (codes "worker health payload must be an object"))

-- `payload.get(key)` where it must be a text, or a Boolean, or null
unfoldable pub text_or_null : Option Value → Result Failure (Option Text)
text_or_null none = ok none
text_or_null (some null) = ok none
text_or_null (some (str s)) = ok (some (codes s))
text_or_null _ = raise (caught (codes "worker gpu_name must be string or null"))

unfoldable pub bool_or_null : Option Value → Result Failure (Option Bool)
bool_or_null none = ok none
bool_or_null (some null) = ok none
bool_or_null (some (bool b)) = ok (some b)
bool_or_null _ = raise (caught (codes "worker model_runtime_available must be boolean or null"))

-- `_validate_capabilities`, with the capabilities that are read after it
unfoldable pub validate_capabilities : Text → Value → Result Failure WorkerCapabilities
unfolding text_or_null bool_or_null
validate_capabilities id (dict p) = do
  raise_if (not (is_text (codes "zen.worker.capabilities.v0.1") (get "schema_version" p)))
      (caught (codes "worker capabilities schema mismatch"))
  raise_if (not (is_text id (get "worker_id" p)))
      (caught (codes "worker capabilities identity mismatch"))
  gpu ← text_or_null (get "gpu_name" p)
  runtime ← bool_or_null (get "model_runtime_available" p)
  ok (record { gpu_name = gpu; model_runtime_available = runtime })
validate_capabilities id _ = raise (caught (codes "worker capabilities payload must be an object"))

-- Both requests, each with its checks: the capabilities of a healthy worker, and why not otherwise.
unfoldable pub health_of : Text → Reply → Result Failure (Unit {0})
unfolding validate_health
health_of id health = health >>= validate_health id

unfoldable pub capabilities_of : Text → Reply → Result Failure WorkerCapabilities
unfolding validate_capabilities
capabilities_of id capabilities = capabilities >>= validate_capabilities id

-- `registry.set_state`
abbrev pub in_registry : Result WorkerError Registry → Result ProbeError Registry
in_registry (ok ws) = ok ws
in_registry (raise e) = raise (registry_error e)

-- `_poll_endpoint`
unfoldable pub poll_endpoint :
    (id : Text) (health capabilities : Reply) → Registry → Result ProbeError Registry
unfolding health_of capabilities_of
poll_endpoint id health capabilities ws = elim (health_of id health) [
  | raise f ↦ elim f [
    | escaping t ↦ raise (escaped t)
    | caught t ↦
        in_registry
          (set_state id offline none (some (codes "worker health unavailable: " ++ take 400 t)) ws)
  ]
  | ok _ ↦ elim (capabilities_of id capabilities) [
    | raise f ↦ elim f [
      | escaping t ↦ raise (escaped t)
      | caught t ↦
          in_registry (
            set_state id degraded none (some (codes "capabilities unavailable: " ++ take 400 t)) ws)
    ]
    | ok c ↦ in_registry (set_state id online (some c) none ws)
  ]
]
