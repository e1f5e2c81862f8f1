-- ===== src/Agent/Tests.antt =====
-- A core with one plan on a small console, and the theorems on its approval at it.
use Prim.Native.String.{String}
use zen_ma2_agent.Prelude.{
  ◌≡◌, refl, ◌≢◌, ◌⊎◌, true, false, none, some, List, [], ◌∷◌, ◌++◌, Result, ok, raise,
  if◌then◌else◌,
}
use zen_ma2_agent.Prelude.Eq.{◌==◌, nat_eq, string_eq, ==_false}
use zen_ma2_agent.Prelude.Dict.{lookup, insert}
use zen_ma2_agent.Prelude.Text.{codes}
use zen_ma2_agent.Json.{end}
use zen_ma2_agent.Workflow.{safe, Intent, WorkflowPlan, commands}
use zen_ma2_agent.Agent.{pending_approval, cancelled, ActionRecord, RootStatus, Side, AgentCore}
use zen_ma2_agent.Agent.Queue.{
  new_record, cancel_previous, enqueue, queue_workflow, cancel_action, cancel_found,
}
use zen_ma2_agent.Agent.Context.{
  Registry, bounded_name, bounded_source, in_graph, encodable, fits, inline_context,
  bounded_child_context, compose_with, compose_show_program_child, effective_execution_context,
}
use zen_ma2_agent.Agent.Approve.{
  Console, AgentError, run_action, not_awaiting, raised, pending_action, context_of, gates,
  send_all, approve_action,
}
use zen_ma2_agent.Agent.Lifecycle.{IsValid}
use zen_ma2_agent.Agent.Gates.{approve_action-Permitted, Permitted, ended, returned}
use zen_ma2_agent.Agent.Steps.{
  queued, cancelling, Reach, here, then_step, new_core, Reach-IsValid, Reach-one_pending,
  Reach-settled, approve_action_outcome,
}
use zen_ma2_agent.Agent.Sent.{Answers, send_all_cases, Sends, is_plain, approve_action-Sends}
use zen_ma2_agent.Agent.Composition.{compose_resolves}

abbrev go_intent : Intent
go_intent = record { kind = "go_sequence"; parameters = end; source_text = "go 3" }

abbrev go_plan : WorkflowPlan
go_plan = record {
  task = record {
    id = codes "t1";
    title = "Go";
    intent = go_intent;
    skill_id = "sequence.go";
    required_state = [];
  };
  subtasks = [];
  skill_graph =
      record { id = codes "n1"; skill_id = "sequence.go"; title = "Go"; parent_id = none } ∷ [];
  steps =
      record {
        id = codes "s1";
        title = "Go";
        kind = "command";
        command = some "Go Sequence 3";
        safety = safe;
        depends_on = [];
        verification = none;
        rollback = none;
      }
      ∷ [];
  safety = safe;
  preview_note = "Go";
  approval_gates = "PREVIEW" ∷ [];
  verification_strategy = "look";
  rollback_strategy = none;
  executable = true;
  current_phase = none;
  root_state = none;
  continuation_context = none;
}

abbrev root_plan : WorkflowPlan
root_plan = record go_plan {
  task = record {
    id = codes "r";
    title = "Show";
    skill_id = "show.program";
    required_state = [];
    intent = record { kind = "program_show"; parameters = end; source_text = "program" };
  };
  skill_graph = [];
  steps = [];
}

abbrev digest : String
digest = "0123456789012345678901234567890123456789012345678901234567890123"

abbrev registry : Registry
registry = record {
  json_length = λ fs. some 100;
  sha256 = λ fs. digest;
  manifests = ("sequence.go", "go_sequence" ∷ []) ∷ [];
  implementations = ("sequence.go", λ w. ok tt) ∷ [];
}

abbrev console : Console
console = record {
  registry = registry;
  ready = true;
  unchanged = λ kind a s. (ok tt, s);
  execute = λ kind a s. (ok "done", s);
  respond = λ sent c. if c == "Bad" then raise "timeout" else ok "OK";
  join = λ rs. "OK";
  reports_error = λ t. false;
  verify = λ kind a text s. (ok text, s);
}

abbrev side : Side
side = record {
  progress = "Idle";
  chat = [];
  events = [];
  store = record { snapshots = [] };
  sent = [];
  isolated_geometry_test_loaded = false;
}

abbrev no_root : RootStatus
no_root = record { state = "IDLE"; phase = "UNDERSTAND"; action_id = none }

abbrev core : AgentCore
core = new_core side no_root

abbrev waiting : AgentCore
waiting = (queue_workflow "a1" go_plan core).1

abbrev go_record : ActionRecord
go_record = record {
  id = "a1";
  workflow = go_plan;
  status = pending_approval;
  result = none;
  execution_skill_id = none;
  execution_intent = none;
}

found_waiting : lookup "a1" waiting.actions ≡ some go_record
unfolding queue_workflow enqueue new_record cancel_previous insert lookup
found_waiting = refl

Reach-waiting : Reach core waiting
unfolding lookup
Reach-waiting = then_step (here core) (queued "a1" go_plan core (==_false "a1" "" refl) refl)

passes : gates console "a1" false waiting ≡ ok (go_record, "sequence.go", go_intent)
unfolding gates pending_action context_of effective_execution_context queue_workflow enqueue
    new_record cancel_previous insert lookup
passes = refl

abbrev stopped : AgentCore
stopped = (cancel_action "a1" waiting).1

abbrev cancelled_record : ActionRecord
cancelled_record = record go_record { status = cancelled }

found_stopped : lookup "a1" stopped.actions ≡ some cancelled_record
unfolding cancel_action cancel_found queue_workflow enqueue new_record cancel_previous insert lookup
found_stopped = refl

Reach-IsValid_example : IsValid waiting
Reach-IsValid_example = Reach-IsValid side no_root Reach-waiting

stopped-IsValid : IsValid stopped
stopped-IsValid = Reach-IsValid side no_root (then_step Reach-waiting (cancelling "a1" waiting))

Reach-one_pending_example : ◌≡◌ {A = String} "a1" "a1"
Reach-one_pending_example =
    Reach-one_pending side no_root "a1" "a1" go_record go_record Reach-waiting found_waiting refl
      found_waiting refl

Reach-settled_example :
    (lookup "a1" stopped.actions ≡ some cancelled_record)
    × (approve_action console "a1" true stopped ≡ (raise not_awaiting, stopped))
Reach-settled_example =
    Reach-settled "a1" cancelled_record console true stopped-IsValid (here stopped) found_stopped
      refl

approve_action-Permitted_example :
    ((e : AgentError) × (approve_action console "a1" false waiting ≡ (raise e, waiting))
      × ((a : ActionRecord) (skill : String) (intent : Intent)
          → ¬ Permitted console "a1" false waiting a skill intent))
    ⊎ ((a : ActionRecord) × (skill : String) × (intent : Intent) × Permitted console "a1" false
          waiting a skill intent
        × (approve_action console "a1" false waiting
            ≡ run_action console "a1" a skill intent waiting))
approve_action-Permitted_example = approve_action-Permitted console "a1" false waiting

approve_action_outcome_example :
    let out = approve_action console "a1" false waiting in
    ((e : String) × (out.0 ≡ raise (raised e))
      × (out.1.actions ≡ waiting.actions)
      × (out.1.active_action_id ≡ waiting.active_action_id))
    ⊎ ((r : Result String String) × (out.0 ≡ returned r)
        × (lookup "a1" out.1.actions ≡ some (ended go_record r))
        × ((j : String) → "a1" ≢ j → lookup j out.1.actions ≡ lookup j waiting.actions)
        × (out.1.active_action_id ≡ none))
approve_action_outcome_example =
    approve_action_outcome console "a1" false waiting go_record "sequence.go" go_intent passes

send_all_cases_example :
    let out = send_all console.respond ("Go" ∷ "Bad" ∷ "Off" ∷ []) side in
    ((rs : List String) × (out ≡ (ok rs, record side { sent = "Go" ∷ "Bad" ∷ "Off" ∷ [] }))
      × Answers console.respond [] ("Go" ∷ "Bad" ∷ "Off" ∷ []) rs)
    ⊎ ((pre post rs : List String) × (c e : String) × ("Go" ∷ "Bad" ∷ "Off" ∷ [] ≡ pre ++ c ∷ post)
        × Answers console.respond [] pre rs
        × (console.respond ([] ++ pre) c ≡ raise e)
        × (out ≡ (raise e, record side { sent = [] ++ pre ++ c ∷ [] })))
send_all_cases_example = send_all_cases console.respond ("Go" ∷ "Bad" ∷ "Off" ∷ []) side

approve_action-Sends_example :
    let out = approve_action console "a1" false waiting in
    Sends (commands go_record.workflow) waiting.side out.0 out.1.side
unfolding is_plain
approve_action-Sends_example =
    approve_action-Sends console "a1" false waiting go_record "sequence.go" go_intent passes refl

abbrev composed : WorkflowPlan
composed = compose_with root_plan go_plan (inline_context "sequence.go" go_intent)

abbrev root_record : ActionRecord
root_record = record {
  id = "a2";
  workflow = composed;
  status = pending_approval;
  result = none;
  execution_skill_id = some "sequence.go";
  execution_intent = some go_intent;
}

compose_resolves_example :
    effective_execution_context registry root_record ≡ ok ("sequence.go", go_intent)
unfolding compose_show_program_child bounded_child_context bounded_name bounded_source encodable
    fits compose_with commands in_graph lookup
compose_resolves_example =
    compose_resolves registry root_plan go_plan composed root_record ("go_sequence" ∷ []) refl refl
      refl refl refl refl refl refl refl
