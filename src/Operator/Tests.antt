-- ===== src/Operator/Tests.antt =====
-- A core with a dangerous plan that waits, behind the operator's tools, and the theorems on the tools at it.
use Prim.Native.String.{String}
use zen_ma2_agent.Prelude.{
  ◌≡◌, refl, ◌⊎◌, Bool, Option, true, false, none, some, [], ◌∷◌, ok, raise,
}
use zen_ma2_agent.Prelude.Eq.{string_eq}
use zen_ma2_agent.Prelude.Dict.{lookup}
use zen_ma2_agent.Prelude.Text.{codes}
use zen_ma2_agent.Json.{pos, bool, str, Fields, end, field, get, has_exactly}
use zen_ma2_agent.Workflow.{dangerous, WorkflowPlan}
use zen_ma2_agent.Workers.{unknown}
use zen_ma2_agent.Agent.{pending_approval, ActionRecord, AgentCore}
use zen_ma2_agent.Agent.Approve.{Console, AgentError}
use zen_ma2_agent.Operator.Status.{OperatorStatusSnapshot, pipeline_unknown, ma_unknown}
use zen_ma2_agent.Operator.Payload.{within}
use zen_ma2_agent.Operator.Invoke.{OperatorAdapter, Handler, call, payload_within_limit, invoke}
use zen_ma2_agent.Operator.ReadOnly.{reads_only, invoke-read_only}
use zen_ma2_agent.Operator.Authority.{
  core_approve, invoke-approve_authority, invoke-approve_unconfirmed,
}

abbrev delete_plan : WorkflowPlan
delete_plan = record {
  task = record {
    id = codes "t9";
    title = "Delete";
    intent = record { kind = "delete_sequence"; parameters = end; source_text = "delete 9" };
    skill_id = "sequence.delete";
    required_state = [];
  };
  subtasks = [];
  skill_graph = [];
  steps = [];
  safety = dangerous;
  preview_note = "Delete";
  approval_gates = [];
  verification_strategy = "look";
  rollback_strategy = none;
  executable = true;
  current_phase = none;
  root_state = none;
  continuation_context = none;
}

abbrev delete_record : ActionRecord
delete_record = record {
  id = "d9";
  workflow = delete_plan;
  status = pending_approval;
  result = none;
  execution_skill_id = none;
  execution_intent = none;
}

abbrev owner : AgentCore
owner = record {
  actions = ("d9", delete_record) ∷ [];
  active_action_id = some "d9";
  root_workflow_status = record { state = "IDLE"; phase = "UNDERSTAND"; action_id = none };
  side = record {
    progress = "";
    chat = [];
    events = [];
    store = record { snapshots = [] };
    sent = [];
    isolated_geometry_test_loaded = false;
  };
}

abbrev desk : Console
desk = record {
  registry = record {
    json_length = λ fs. some 2;
    sha256 = λ fs. "";
    manifests = [];
    implementations = [];
  };
  ready = true;
  unchanged = λ kind a s. (ok tt, s);
  execute = λ kind a s. (ok "done", s);
  respond = λ sent c. ok "OK";
  join = λ rs. "OK";
  reports_error = λ t. false;
  verify = λ kind a text s. (ok text, s);
}

abbrev shown : String → Fields
shown text = field "result" (str text) end

abbrev told : AgentError → String
told e = "refused"

abbrev status : OperatorStatusSnapshot
status = record {
  field_core_available = true;
  field_core_state = unknown;
  ma_bridge_state = unknown;
  ma_connection_state = ma_unknown;
  remote_ai_available = false;
  workers = [];
  pipeline = record {
    researcher = pipeline_unknown;
    designer = pipeline_unknown;
    critic = pipeline_unknown;
    finalizer = pipeline_unknown;
  };
  latest_artifact = none;
  generated_at = none;
  ma_target = some (record { host = "10.0.0.2"; port = pos 30000 });
  root_workflow = none;
}

abbrev adapter : OperatorAdapter AgentCore
adapter = record {
  json_length = λ fs. some 46;
  status_provider = λ s. (ok status, s);
  watchdog_provider = some (λ s. (raise "down", s));
  host_status_provider = none;
  visual_observation_provider = none;
  stage_visual_provider = none;
  design_request_handler = none;
  preview_handler = none;
  approve_handler = some (core_approve desk shown told);
  position_preview_handler = none;
  raw_position_preview_handler = none;
  position_calibration_preview_handler = none;
  semantic_position_bindings_handler = none;
  semantic_position_bind_handler = none;
  department_status_provider = none;
  department_preview_handler = none;
}

abbrev approval : Fields
approval = field "action_id" (str "d9") (field "danger_confirmed" (bool false) end)

invoke-read_only_example :
    invoke adapter "zen.ma.status" none none owner
    ≡ invoke (reads_only adapter) "zen.ma.status" none none owner
invoke-read_only_example = invoke-read_only adapter "zen.ma.status" none none owner refl

invoke-approve_authority_example :
    ((invoke adapter "zen.approve" (some approval) none owner).1 ≡ owner)
    ⊎ ((h : String → Bool → Handler AgentCore) × (id : String) × (danger : Bool) × (out : Option
          String)
        × (adapter.approve_handler ≡ some h)
        × (payload_within_limit adapter approval ≡ true)
        × (has_exactly ("action_id" ∷ "danger_confirmed" ∷ []) approval ≡ true)
        × (get "action_id" approval ≡ some (str id))
        × (within 128 id ≡ true)
        × (get "danger_confirmed" approval ≡ some (bool danger))
        × (invoke adapter "zen.approve" (some approval) none owner
            ≡ call "zen.approve" out (h id danger) owner))
invoke-approve_authority_example = invoke-approve_authority adapter (some approval) none owner

found_delete : lookup "d9" owner.actions ≡ some delete_record
unfolding lookup
found_delete = refl

named : get "action_id" approval ≡ some (str "d9")
unfolding get
named = refl

unconfirmed_flag : get "danger_confirmed" approval ≡ some (bool false)
unfolding get
unconfirmed_flag = refl

invoke-approve_unconfirmed_example :
    (invoke adapter "zen.approve" (some approval) none owner).1 ≡ owner
invoke-approve_unconfirmed_example =
    invoke-approve_unconfirmed adapter desk shown told approval none "d9" owner delete_record refl
      named unconfirmed_flag found_delete refl
