-- ===== src/Operator/Status.antt =====
-- The snapshot of zen_ma2_agent/operator_api.py and the dictionaries that its `to_dict` methods build. A
-- bounded text raises when it is empty or too long.
use Prim.Native.Nat.{ℕ}
use Prim.Native.String.{String, count}
use zen_ma2_agent.Prelude.{
  Bool, false, not, ◌&&◌, Option, none, some, List, [], ◌∷◌, length, ltb, Result, ok, raise_if,
  ◌>>=◌, ◌>>◌,
}
use zen_ma2_agent.Prelude.Eq.{◌==◌, string_eq}
use zen_ma2_agent.Json.{
  ℤ, pos, negsuc, Value, null, bool, int, str, list, dict, Items, nil, cons, Fields, end, field,
}
use zen_ma2_agent.Workers.{ComponentState, online, offline, degraded, unknown}

pub data StatusError : Type 0 where
  empty_text text_too_long bad_port too_many_workers : StatusError

pub data MaConnectionState : Type 0 where
  ready connecting disconnected ma_degraded ma_unknown : MaConnectionState

pub data PipelineState : Type 0 where
  idle running done failed pipeline_unknown : PipelineState

pub record MaTarget : Type 0 where
  pub host : String
  pub port : ℤ

pub record WorkerStatus : Type 0 where
  pub worker_id : String
  pub state : ComponentState
  pub gpu_name : Option String
  pub model_runtime_available : Option Bool

pub record PipelineStatus : Type 0 where
  pub researcher : PipelineState
  pub designer : PipelineState
  pub critic : PipelineState
  pub finalizer : PipelineState

pub record RootWorkflowStatus : Type 0 where
  pub schema : String
  pub state : String
  pub phase : String
  pub action_id : Option String

pub record ArtifactSummary : Type 0 where
  pub artifact_id : String
  pub schema : String
  pub request_hash : String
  pub show_context_hash : Option String
  pub created_at : Option String
  pub source_worker_id : Option String

pub record OperatorStatusSnapshot : Type 0 where
  pub field_core_available : Bool
  pub field_core_state : ComponentState
  pub ma_bridge_state : ComponentState
  pub ma_connection_state : MaConnectionState
  pub remote_ai_available : Bool
  pub workers : List WorkerStatus
  pub pipeline : PipelineStatus
  pub latest_artifact : Option ArtifactSummary
  pub generated_at : Option String
  pub ma_target : Option MaTarget
  pub root_workflow : Option RootWorkflowStatus

abbrev pub max_workers : ℕ
max_workers = 32

-- `_bounded_text` and `_optional_bounded_text`
unfoldable pub bounded_text : String → ℕ → Result StatusError String
bounded_text value max_length = do
  raise_if (value == "") empty_text
  raise_if (ltb max_length (count value)) text_too_long
  ok value

unfoldable pub optional_bounded_text : Option String → ℕ → Result StatusError (Option String)
unfolding bounded_text
optional_bounded_text none max_length = ok none
optional_bounded_text (some value) max_length = do s ← bounded_text value max_length; ok (some s)

-- A text or `None`, and a Boolean or `None`, as values
abbrev pub text_value : Option String → Value
text_value none = null
text_value (some s) = str s

bool_value : Option Bool → Value
bool_value none = null
bool_value (some b) = bool b

component_value : ComponentState → Value
component_value online = str "ONLINE"
component_value offline = str "OFFLINE"
component_value degraded = str "DEGRADED"
component_value unknown = str "UNKNOWN"

connection_value : MaConnectionState → Value
connection_value ready = str "READY"
connection_value connecting = str "CONNECTING"
connection_value disconnected = str "DISCONNECTED"
connection_value ma_degraded = str "DEGRADED"
connection_value ma_unknown = str "UNKNOWN"

pipeline_value : PipelineState → Value
pipeline_value idle = str "IDLE"
pipeline_value running = str "RUNNING"
pipeline_value done = str "DONE"
pipeline_value failed = str "FAILED"
pipeline_value pipeline_unknown = str "UNKNOWN"

-- `1 <= port <= 65535`
unfoldable pub is_port : ℤ → Bool
is_port (pos n) = not (ltb n 1) && not (ltb 65535 n)
is_port (negsuc n) = false

unfoldable pub target_to_dict : MaTarget → Result StatusError Fields
unfolding bounded_text is_port
target_to_dict t = do
  host ← bounded_text t.host 255
  raise_if (not (is_port t.port)) bad_port
  ok (field "host" (str host) (field "port" (int t.port) end))

unfoldable pub worker_to_dict : WorkerStatus → Result StatusError Fields
unfolding bounded_text optional_bounded_text component_value bool_value
worker_to_dict w = do
  id ← bounded_text w.worker_id 128
  gpu ← optional_bounded_text w.gpu_name 256
  ok (
      field "worker_id" (str id) (
        field "state" (component_value w.state) (
          field "gpu_name" (text_value gpu)
            (field "model_runtime_available" (bool_value w.model_runtime_available) end))))

-- `[worker.to_dict() for worker in workers]`
unfoldable pub workers_to_list : List WorkerStatus → Result StatusError Items
unfolding worker_to_dict
workers_to_list [] = ok nil
workers_to_list (w ∷ ws) = do
  d ← worker_to_dict w
  rest ← workers_to_list ws
  ok (cons (dict d) rest)

pipeline_to_dict : PipelineStatus → Fields
unfolding pipeline_value
pipeline_to_dict p = field "researcher" (pipeline_value p.researcher) (
    field "designer" (pipeline_value p.designer) (
      field "critic" (pipeline_value p.critic)
        (field "finalizer" (pipeline_value p.finalizer) end)))

root_to_dict : RootWorkflowStatus → Result StatusError Fields
unfolding bounded_text optional_bounded_text
root_to_dict r = do
  state ← bounded_text r.state 64
  phase ← bounded_text r.phase 64
  id ← optional_bounded_text r.action_id 128
  ok (
      field "schema" (str r.schema) (
        field "state" (str state)
          (field "phase" (str phase) (field "action_id" (text_value id) end))))

artifact_to_dict : ArtifactSummary → Result StatusError Fields
unfolding bounded_text optional_bounded_text
artifact_to_dict a = do
  id ← bounded_text a.artifact_id 256
  schema ← bounded_text a.schema 128
  request ← bounded_text a.request_hash 128
  show ← optional_bounded_text a.show_context_hash 128
  worker ← optional_bounded_text a.source_worker_id 128
  ok (
      field "artifact_id" (str id) (
        field "schema" (str schema) (
          field "request_hash" (str request) (
            field "show_context_hash" (text_value show) (
              field "created_at" (text_value a.created_at)
                (field "source_worker_id" (text_value worker) end))))))

-- `x.to_dict() if x is not None else None`
or_null : {A : Type 0} → (A → Result StatusError Fields) → Option A → Result StatusError Value
or_null f none = ok null
or_null f (some a) = f a >>= λ d. ok (dict d)

unfoldable pub snapshot_to_dict : OperatorStatusSnapshot → Result StatusError Fields
unfolding component_value connection_value target_to_dict workers_to_list pipeline_to_dict
    root_to_dict artifact_to_dict or_null
snapshot_to_dict s = do
  raise_if (ltb max_workers (length s.workers)) too_many_workers
  target ← or_null target_to_dict s.ma_target
  workers ← workers_to_list s.workers
  artifact ← or_null artifact_to_dict s.latest_artifact
  root ← or_null root_to_dict s.root_workflow
  ok (
      field "schema" (str "zen.operator_status.v0.1") (
        field "generated_at" (text_value s.generated_at) (
          field "field_core"
            (dict (
              field "available" (bool s.field_core_available)
                (field "state" (component_value s.field_core_state) end)))
            (field "ma"
              (dict (
                field "bridge_state" (component_value s.ma_bridge_state) (
                  field "connection_state" (connection_value s.ma_connection_state)
                    (field "target" target end))))
              (field "remote_ai_available" (bool s.remote_ai_available) (
                field "workers" (list workers) (
                  field "pipeline" (dict (pipeline_to_dict s.pipeline))
                    (field "latest_artifact" artifact (field "root_workflow" root end)))))))))
