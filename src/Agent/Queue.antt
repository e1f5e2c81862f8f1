-- ===== src/Agent/Queue.antt =====
-- How an action enters the registry and leaves it without running: `_queue_workflow`, the tails of
-- `handle_request` and `program_show_request`, and `cancel_action`. The fresh identifier,
-- `uuid4().hex[:12]`, is an argument.
use Prim.Native.String.{String, ◌++◌ as str_append}
use zen_ma2_agent.Prelude.{Bool, true, false, Option, none, some, List, [], ◌∷◌, if◌then◌else◌}
use zen_ma2_agent.Prelude.Eq.{◌==◌, string_eq, member}
use zen_ma2_agent.Prelude.Dict.{Dict, lookup, insert}
use zen_ma2_agent.Workflow.{Intent, WorkflowPlan}
use zen_ma2_agent.Agent.{
  Status, pending_approval, cancelled, ActionRecord, AgentCore, progressing, emit, say,
}

abbrev pub is_pending : Status → Bool
is_pending pending_approval = true
is_pending _ = false

-- `if self._active_action_id:` an empty identifier does not count.
abbrev pub truthy : Option String → Option String
truthy none = none
truthy (some id) = if id == "" then none else some id

cancel_record : String → (ActionRecord → Bool) → Dict String ActionRecord → Dict String ActionRecord
cancel_record id when actions = elim (lookup id actions) [
  | none ↦ actions
  | some r ↦ if when r then insert id (record r { status = cancelled }) actions else actions
]

-- The previous active action is cancelled when `when` holds of it.
unfoldable pub cancel_previous :
    (ActionRecord → Bool) → Option String → Dict String ActionRecord → Dict String ActionRecord
unfolding cancel_record
cancel_previous when active actions = elim (truthy active) [
  | none ↦ actions
  | some id ↦ cancel_record id when actions
]

unfoldable pub new_record : String → WorkflowPlan → Option String → Option Intent → ActionRecord
new_record id w skill intent = record {
  id = id;
  workflow = w;
  status = pending_approval;
  result = none;
  execution_skill_id = skill;
  execution_intent = intent;
}

-- The common tail: a plan that cannot run is only shown, as `disabled`; any other waits for approval
-- and is announced by `shown`, and a pending predecessor is cancelled.
unfoldable pub enqueue :
    (shown disabled : WorkflowPlan → String) (fresh : String)
    → WorkflowPlan
    → AgentCore
    → Option String × AgentCore
unfolding cancel_previous new_record
enqueue shown disabled fresh w c =
    if w.executable
    then (
      some fresh,
      record c {
        actions =
            insert fresh (new_record fresh w none none)
              (cancel_previous (λ r. is_pending r.status) c.active_action_id c.actions);
        active_action_id = some fresh;
        side = emit "plan" (
            progressing "Waiting for approval" (
              say
                (record {
                  role = "assistant";
                  kind = "ACTION_PLAN";
                  text = shown w;
                  action_id = some fresh;
                })
                c.side));
      },
    )
    else (
      none,
      record c {
        side = emit "plan" (
            progressing "Idle" (
              say
                (record {
                  role = "assistant";
                  kind = "ACTION_PLAN";
                  text = disabled w;
                  action_id = none;
                })
                c.side));
      },
    )

-- `_queue_workflow`
unfoldable pub queue_workflow :
    (fresh : String) → WorkflowPlan → AgentCore → Option String × AgentCore
unfolding enqueue
queue_workflow =
    enqueue (λ w. w.preview_note)
      (λ w.
        str_append w.preview_note (str_append "\n\nExecution: Disabled — " w.verification_strategy))

abbrev own_preview : List String
own_preview =
    "effects.builder" ∷ "timecode.offset" ∷ "clone.geometry" ∷ "geometry.test_environment" ∷ []

-- The end of `handle_request`, from the planned workflow on.
unfoldable pub queue_request :
    (fresh : String) → WorkflowPlan → AgentCore → Option String × AgentCore
unfolding enqueue
queue_request =
    enqueue
      (λ w.
        if member w.task.skill_id own_preview
        then w.preview_note
        else "Workflow plan ready for review.")
      (λ w.
        str_append w.preview_note
          "\n\nExecution: Disabled pending safe real-machine Clone write validation.")

-- `workflow.root_state or (…)`
abbrev or_default : Option String → String → String
or_default none d = d
or_default (some s) d = if s == "" then d else s

-- The tail of `program_show_request`: the root plan with the child that will run. The predecessor
-- is cancelled whatever its status.
unfoldable pub queue_root :
    (fresh skill_id : String) → Intent → WorkflowPlan → AgentCore → Option String × AgentCore
unfolding cancel_previous new_record
queue_root fresh skill_id intent w c =
    if w.executable
    then (
      some fresh,
      record c {
        actions =
            insert fresh (new_record fresh w (some skill_id) (some intent))
              (cancel_previous (λ r. true) c.active_action_id c.actions);
        active_action_id = some fresh;
        root_workflow_status = record {
          state = "PENDING_APPROVAL";
          phase = "PREVIEW";
          action_id = some fresh;
        };
        side = emit "plan" (progressing "Waiting for approval" c.side);
      },
    )
    else (
      none,
      record c {
        root_workflow_status = record {
          state = or_default w.root_state "NEEDS_INPUT";
          phase = or_default w.current_phase "UNDERSTAND";
          action_id = none;
        };
        side = emit "plan" c.side;
      },
    )

abbrev cancel_marks_root : List String
cancel_marks_root =
    "verify_position_application" ∷ "verify_position_raw_cue"
    ∷ "merge_sequence302_authored_resources" ∷ []

unfoldable pub cancel_found : String → ActionRecord → AgentCore → AgentCore
cancel_found id r c = record {
  actions = insert id (record r { status = cancelled }) c.actions;
  active_action_id = elim c.active_action_id [
    | none ↦ none
    | some a ↦ if a == id then none else some a
  ];
  root_workflow_status =
      if member r.workflow.task.intent.kind cancel_marks_root
      then record { state = "CANCELLED"; phase = "DONE"; action_id = some id }
      else c.root_workflow_status;
  side = emit "plan" (progressing "Idle" c.side);
}

unfoldable pub cancel_action : String → AgentCore → Bool × AgentCore
unfolding cancel_found
cancel_action id c = elim (lookup id c.actions) [
  | none ↦ (false, c)
  | some r ↦ if is_pending r.status then (true, cancel_found id r c) else (false, c)
]
