-- ===== src/Agent/Approve.antt =====
-- `AgentCore.approve_action`, `SkillRegistry.approved_commands` and
-- `AgentRuntime.execute_approved_commands`. What an action of a special kind does on the console (its
-- `_ensure_*`, `_execute_*` and `_verify_*` methods) and the MA2 client are operations of `Console`:
-- each may change `Side`, where the commands sent are listed, and may raise.
use Prim.Native.String.{String, ◌++◌ as str_append}
use text.Mathlib.Text.{starts_with}
use zen_ma2_agent.Prelude.{
  Bool, true, false, not, ◌&&◌, Option, none, some, List, [], ◌∷◌, ◌++◌, if◌then◌else◌, Result, ok,
  raise, raise_if, ◌>>=◌, ◌>>◌,
}
use zen_ma2_agent.Prelude.Eq.{◌==◌, string_eq, member}
use zen_ma2_agent.Prelude.Dict.{lookup, insert}
use zen_ma2_agent.State.{resources, mark_all_stale}
use zen_ma2_agent.Workflow.{SafetyLevel, dangerous, Intent, WorkflowPlan, commands}
use zen_ma2_agent.Agent.{
  Status, approved, executed, failed, ActionRecord, RootStatus, Side, AgentCore, progressing, emit,
  say,
}
use zen_ma2_agent.Agent.Queue.{is_pending}
use zen_ma2_agent.Agent.Context.{ContextError, Registry, effective_execution_context}

-- A method that writes `Side` and returns a value or raises with a message.
abbrev pub M : Type 0 → Type 0
M A = Side → Result String A × Side

infixl 5 ◌>>>=◌
abbrev pub ◌>>>=◌ : {A B : Type 0} → M A → (A → M B) → M B
◌>>>=◌ m f s = let (r, s') = m s in elim r [ ok a ↦ f a s' | raise e ↦ (raise e, s') ]

pub record Console : Type 0 where
  pub registry : Registry
  -- `runtime.ready`
  pub ready : Bool
  -- the `_ensure_*_state_unchanged` method of an intent's kind
  pub unchanged : String → ActionRecord → M (Unit {0})
  -- the `_execute_*` method of an intent's kind
  pub execute : String → ActionRecord → M String
  -- `client.execute`: the response to a command, after the commands that were sent before it
  pub respond : List String → String → Result String String
  -- the responses that are not empty, joined by new lines
  pub join : List String → String
  -- whether a response reports an error of the console
  pub reports_error : String → Bool
  -- the `_verify_*` method that ends an action of a kind or of a skill
  pub verify : String → ActionRecord → String → M String

pub data AgentError : Type 0 where
  not_awaiting not_active not_ready unconfirmed : AgentError
  bad_context : ContextError → AgentError
  raised : String → AgentError

abbrev pub guarded_kinds : List String
guarded_kinds =
    "offset_timecode" ∷ "geometry_clone" ∷ "verify_position_application" ∷ "verify_position_raw_cue"
    ∷ "verify_position_calibration" ∷ "merge_existing_cue_position"
    ∷ "merge_existing_cue_dynamic_program" ∷ "merge_sequence302_authored_resources" ∷ []

abbrev pub special_kinds : List String
special_kinds =
    "verify_cue_effect_application" ∷ "verify_position_application" ∷ "verify_position_raw_cue"
    ∷ "verify_position_calibration" ∷ "merge_existing_cue_position"
    ∷ "merge_existing_cue_dynamic_program" ∷ "merge_sequence302_authored_resources" ∷ []

abbrev pub is_dangerous : SafetyLevel → Bool
is_dangerous dangerous = true
is_dangerous _ = false

abbrev pub is_active : String → Option String → Bool
is_active id none = false
is_active id (some a) = a == id

-- `actions.get(action_id)` where that record is pending
unfoldable pub pending_action : String → AgentCore → Result AgentError ActionRecord
pending_action id c = elim (lookup id c.actions) [
  | none ↦ raise not_awaiting
  | some a ↦ if is_pending a.status then ok a else raise not_awaiting
]

unfoldable pub context_of : Console → ActionRecord → Result AgentError (String × Intent)
context_of k a = elim (effective_execution_context k.registry a) [
  | raise e ↦ raise (bad_context e)
  | ok context ↦ ok context
]

-- What is checked before anything is done.
unfoldable pub gates :
    Console → String → Bool → AgentCore → Result AgentError (ActionRecord × String × Intent)
unfolding pending_action context_of
gates k id danger_confirmed c = do
  a ← pending_action id c
  raise_if (not (is_active id c.active_action_id)) not_active
  context ← context_of k a
  raise_if (not k.ready) not_ready
  raise_if (is_dangerous a.workflow.safety && not danger_confirmed) unconfirmed
  ok (a, context.0, context.1)

unfoldable pub ensure_unchanged : Console → String → ActionRecord → M (Unit {0})
ensure_unchanged k kind a s = if member kind guarded_kinds then k.unchanged kind a s else (ok tt, s)

-- `skills.approved_commands(skill_id, workflow)`
unfoldable pub approved_commands : Registry → String → WorkflowPlan → Result String (List String)
approved_commands r skill w = elim (lookup skill r.implementations) [
  | none ↦ raise "Installed Skills do not have an approved executable implementation."
  | some validate ↦ elim (validate w) [
    | raise e ↦ raise e
    | ok _ ↦
        if w.task.skill_id == skill
        then ok (commands w)
        else raise "Skill cannot execute another Skill's workflow."
  ]
]

-- The loop of `execute_approved_commands`: it stops at the first command that raises.
unfoldable pub send_all :
    (List String → String → Result String String)
    → List String
    → Side
    → Result String (List String) × Side
send_all respond [] s = (ok [], s)
send_all respond (c ∷ cs) s =
    let s' : Side = record s { sent = s.sent ++ c ∷ [] } in
    let rest = send_all respond cs s' in
    elim (respond s.sent c) [
      | raise e ↦ (raise e, s')
      | ok r ↦ elim rest.0 [ raise e ↦ (raise e, rest.1) | ok rs ↦ (ok (r ∷ rs), rest.1) ]
    ]

abbrev pub is_nil : List String → Bool
is_nil [] = true
is_nil _ = false

unfoldable pub execute_approved_commands : Console → List String → M (List String)
unfolding send_all
execute_approved_commands k cs s =
    if not k.ready
    then (raise "Connect and reach MA2 READY before executing.", s)
    else if is_nil cs
    then (raise "Approved workflow has no MA2 commands.", s)
    else send_all k.respond cs s

-- `results.join or "…"`
abbrev pub or_message : String → String
or_message s = if s == "" then "Approved MA2 workflow commands sent" else s

unfoldable pub run_commands : Console → ActionRecord → M String
unfolding approved_commands execute_approved_commands
run_commands k a s = elim (approved_commands k.registry a.workflow.task.skill_id a.workflow) [
  | raise e ↦ (raise e, s)
  | ok cs ↦ (execute_approved_commands k cs >>>= λ rs s'. (ok (or_message (k.join rs)), s')) s
]

unfoldable pub execute_kind : Console → String → ActionRecord → M String
unfolding run_commands
execute_kind k kind a = if member kind special_kinds then k.execute kind a else run_commands k a

unfoldable pub refuse_reported : Console → String → String → M String
refuse_reported k kind result s =
    if starts_with kind "geometry_test_" && k.reports_error result
    then (raise "MA2 reported an error while executing the approved workflow.", s)
    else (ok result, s)

-- The end of a load or a restore of a show: every resource is stale.
unfoldable pub reloaded : Bool → String → String → M String
reloaded isolated note result s = (
  ok (str_append result note),
  record s {
    isolated_geometry_test_loaded = isolated;
    store = mark_all_stale resources "Connection changed; refresh required." s.store;
  },
)

abbrev pub verified_kinds : List String
verified_kinds = "offset_timecode" ∷ "geometry_clone" ∷ "build_first_song" ∷ []

unfoldable pub verify_kind : Console → String → String → ActionRecord → String → M String
unfolding reloaded
verify_kind k kind skill a result =
    if kind == "geometry_test_load_show"
    then reloaded true loaded result
    else if kind == "geometry_test_restore_show"
    then reloaded false restored result
    else if kind == "geometry_test_setup_groups"
    then k.verify kind a result
    else if skill == "effects.builder"
    then k.verify skill a result
    else if member kind verified_kinds
    then k.verify kind a result
    else λ s. (ok result, s)
  where
    loaded : String
    loaded =
        "\nVerification: Test Show \"MA2_EFFECT_PROBE_WORK\" load command completed. Refresh its Fixture inventory before any setup."

    restored : String
    restored =
        "\nVerification: Production Show \"zen templ show\" restore command completed. Refresh production state."

-- The body of the `try`.
unfoldable pub perform : Console → ActionRecord → String → Intent → M String
unfolding execute_kind refuse_reported verify_kind
perform k a skill intent = execute_kind k intent.kind a >>>= λ r.
    refuse_reported k intent.kind r >>>= λ r'. verify_kind k intent.kind skill a r'

abbrev done_kinds : List String
done_kinds = "merge_existing_cue_position" ∷ "merge_existing_cue_dynamic_program" ∷ []

abbrev root_kinds : List String
root_kinds =
    "verify_position_application" ∷ "verify_position_raw_cue" ∷ "verify_position_calibration"
    ∷ "merge_sequence302_authored_resources" ∷ []

unfoldable pub set_root : String → ActionRecord → String → String → String → RootStatus → RootStatus
set_root id a kind state phase old =
    if a.workflow.task.skill_id == "show.program"
    then record { state = state; phase = phase; action_id = some id }
    else if member kind root_kinds
    then record { state = state; phase = "DONE"; action_id = some id }
    else old

-- The registry after the action ran: `status`, its result, and no active action.
unfoldable pub finish :
    String → ActionRecord → Status → String → RootStatus → Side → AgentCore → AgentCore
finish id a status text root side c = record {
  actions = insert id (record a { status = status; result = some text }) c.actions;
  active_action_id = none;
  root_workflow_status = root;
  side = side;
}

unfoldable pub settle :
    String
    → ActionRecord
    → Intent
    → AgentCore
    → Result String String × Side
    → Result AgentError String × AgentCore
unfolding finish set_root
settle id a intent c (ok text, s) = (
  ok text,
  finish id a executed text
      (set_root id a intent.kind "EXECUTED"
        (if member intent.kind done_kinds then "DONE" else "VERIFY_ACTUAL_CONTENT")
        c.root_workflow_status)
      (emit "execution" (
        progressing "Verifying" (
          say (record { role = "assistant"; kind = "result"; text = text; action_id = some id })
            s)))
      c,
)
settle id a intent c (raise e, s) = (
  raise (raised e),
  finish id a failed e
      (set_root id a intent.kind "FAILED" "SELF_HEAL_IF_NEEDED" c.root_workflow_status)
      (emit "error" (progressing "Idle" s)) c,
)

unfoldable pub mark_approved : String → ActionRecord → Side → AgentCore → AgentCore
mark_approved id a side c = record c {
  actions = insert id (record a { status = approved }) c.actions;
  side = emit "progress" (progressing "Executing" side);
}

-- The call from the last check on.
unfoldable pub run_action :
    Console
    → String
    → ActionRecord
    → String
    → Intent
    → AgentCore
    → Result AgentError String × AgentCore
unfolding ensure_unchanged mark_approved settle
run_action k id a skill intent c =
    let (r, s) = ensure_unchanged k intent.kind a c.side in
    elim r [
      | raise e ↦ (raise (raised e), record c { side = s })
      | ok _ ↦
          let c' = mark_approved id a s c in
          settle id a intent c' (perform k a skill intent c'.side)
    ]

unfoldable pub approve_action :
    Console → String → Bool → AgentCore → Result AgentError String × AgentCore
unfolding run_action
approve_action k id danger_confirmed c = elim (gates k id danger_confirmed c) [
  | raise e ↦ (raise e, c)
  | ok (a, skill, intent) ↦ run_action k id a skill intent c
]
