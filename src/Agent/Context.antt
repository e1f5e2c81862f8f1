-- ===== src/Agent/Context.antt =====
-- The child execution context of a composed `show.program` plan: `_bounded_child_execution_context`
-- and `compose_show_program_child` (show_program.py) write it, and `_effective_execution_context`
-- (core.py) reads it back before approval. `json.dumps` and `sha256` are operations of `Registry`:
-- the length of the canonical encoding in bytes (`none` where it raises) and the digest of it.
use Prim.Native.Nat.{ℕ}
use Prim.Native.String.{String, count}
use zen_ma2_agent.Prelude.{
  Bool, true, false, not, ◌&&◌, Option, none, some, List, [], ◌∷◌, if◌then◌else◌, any, ltb, Result,
  ok, raise, raise_if, ◌>>=◌, ◌>>◌,
}
use zen_ma2_agent.Prelude.Eq.{◌==◌, nat_eq, string_eq, member}
use zen_ma2_agent.Prelude.Dict.{Dict, lookup}
use zen_ma2_agent.Json.{
  Value, null, str, dict, Fields, end, field, get, put, has_exactly, as_str, as_dict,
}
use zen_ma2_agent.Workflow.{Intent, WorkflowPlan, SkillGraphNode, commands, with_child, or_else}
use zen_ma2_agent.Agent.{ActionRecord}

pub data ContextError : Type 0 where
  not_executable no_context invalid_context invalid_parameters not_json_safe too_large
        reference_mismatch hash_mismatch invalid_skill_id invalid_intent_kind invalid_source_text
        outside_graph unknown_skill intent_mismatch not_a_root :
      ContextError

pub record Registry : Type 0 where
  pub json_length : Fields → Option ℕ
  pub sha256 : Fields → String
  -- the intents of each skill's manifest
  pub manifests : Dict String (List String)
  -- each implementation's own validation of a plan that it is to execute
  pub implementations : Dict String (WorkflowPlan → Result String (Unit {0}))

abbrev pub show_program : String
show_program = "show.program"

abbrev pub child_key : String
child_key = "child_execution"

abbrev pub max_child_context_bytes : ℕ
max_child_context_bytes = 65536

abbrev pub max_stored_child_parameters_bytes : ℕ
max_stored_child_parameters_bytes = 2097152

-- `1 <= len(s) <= n`, and `len(s) <= n`
unfoldable pub bounded_name : String → Bool
bounded_name s = not (s == "") && not (ltb 128 (count s))

unfoldable pub bounded_source : String → Bool
bounded_source s = not (ltb 2048 (count s))

-- `_encoded_child_parameters`, up to the bytes: it raises or passes.
unfoldable pub encodable : Registry → Fields → Result ContextError (Unit {0})
encodable r ps = elim (r.json_length ps) [
  | none ↦ raise not_json_safe
  | some n ↦ raise_if (ltb max_stored_child_parameters_bytes n) too_large
]

unfoldable pub child_parameters_sha256 : Registry → Fields → Result ContextError String
unfolding encodable
child_parameters_sha256 r ps = do encodable r ps; ok (r.sha256 ps)

unfoldable pub inline_context : String → Intent → Fields
inline_context skill intent = field "skill_id" (str skill) (
    field "intent_kind" (str intent.kind) (
      field "parameters" (dict intent.parameters)
        (field "source_text" (str intent.source_text) end)))

unfoldable pub reference_context : Registry → String → Intent → Fields
reference_context r skill intent = field "skill_id" (str skill) (
    field "intent_kind" (str intent.kind) (
      field "parameters_sha256" (str (r.sha256 intent.parameters))
        (field "source_text" (str intent.source_text) end)))

unfoldable pub fits : Registry → Fields → Result ContextError Bool
fits r fs = elim (r.json_length fs) [
  | none ↦ raise not_json_safe
  | some n ↦ ok (not (ltb max_child_context_bytes n))
]

unfoldable pub bounded_child_context : Registry → String → Intent → Result ContextError Fields
unfolding bounded_name bounded_source encodable inline_context reference_context fits
bounded_child_context r skill intent = do
  raise_if (not (bounded_name skill)) invalid_skill_id
  raise_if (not (bounded_name intent.kind)) invalid_intent_kind
  raise_if (not (bounded_source intent.source_text)) invalid_source_text
  encodable r intent.parameters
  small ← fits r (inline_context skill intent)
  ok (if small then inline_context skill intent else reference_context r skill intent)

abbrev pub context_or_empty : Option Fields → Fields
context_or_empty none = end
context_or_empty (some fs) = fs

abbrev is_empty : List String → Bool
is_empty [] = true
is_empty _ = false

unfoldable pub compose_with : WorkflowPlan → WorkflowPlan → Fields → WorkflowPlan
compose_with root child context =
    let combined = with_child root child in
    let executable = child.executable && not (is_empty (commands child)) in
    record combined {
      executable = executable;
      preview_note = child.preview_note;
      verification_strategy = child.verification_strategy;
      rollback_strategy = or_else child.rollback_strategy combined.rollback_strategy;
      current_phase = some (if executable then "PREVIEW" else "RESEARCH_IF_NEEDED");
      root_state = some (if executable then "READY" else "NEEDS_RESEARCH");
      continuation_context =
          some (put child_key (dict context) (context_or_empty root.continuation_context));
    }

unfoldable pub compose_show_program_child :
    Registry → WorkflowPlan → WorkflowPlan → Result ContextError WorkflowPlan
unfolding compose_with
compose_show_program_child r root child = do
  raise_if (not (root.task.skill_id == show_program)) not_a_root
  context ← bounded_child_context r child.task.skill_id child.task.intent
  ok (compose_with root child context)

unfoldable pub or_raise {ℓ} : {A : Type ℓ} → Option A → ContextError → Result ContextError A
or_raise none e = raise e
or_raise (some a) e = ok a

-- `==` of an optional text and what a field holds
unfoldable pub same_text : Option String → Option Value → Bool
same_text (some s) (some (str t)) = s == t
same_text none none = true
same_text none (some null) = true
same_text _ _ = false

-- The branch with the parameters in the context.
unfoldable pub resolve_inline : Registry → Fields → Result ContextError Fields
unfolding or_raise
resolve_inline r child = do
  ps ← or_raise (as_dict (get "parameters" child)) invalid_parameters
  n ← or_raise (r.json_length child) not_json_safe
  raise_if (ltb max_child_context_bytes n) too_large
  ok ps

unfoldable pub matches_stored : ActionRecord → Fields → Intent → Bool
unfolding same_text
matches_stored a child stored =
    same_text a.execution_skill_id (get "skill_id" child)
    && same_text (some stored.kind) (get "intent_kind" child)
    && same_text (some stored.source_text) (get "source_text" child)

-- The branch with a digest in the context and the parameters in the record.
unfoldable pub resolve_reference : Registry → ActionRecord → Fields → Result ContextError Fields
unfolding or_raise matches_stored child_parameters_sha256
resolve_reference r a child = do
  stored ← or_raise a.execution_intent reference_mismatch
  raise_if (not (matches_stored a child stored)) reference_mismatch
  expected ← or_raise (as_str (get "parameters_sha256" child)) reference_mismatch
  raise_if (not (count expected == 64)) reference_mismatch
  digest ← child_parameters_sha256 r stored.parameters
  raise_if (not (digest == expected)) hash_mismatch
  ok stored.parameters

abbrev inline_keys : List String
inline_keys = "skill_id" ∷ "intent_kind" ∷ "parameters" ∷ "source_text" ∷ []

abbrev reference_keys : List String
reference_keys = "skill_id" ∷ "intent_kind" ∷ "parameters_sha256" ∷ "source_text" ∷ []

unfoldable pub resolve_parameters : Registry → ActionRecord → Fields → Result ContextError Fields
unfolding resolve_inline resolve_reference
resolve_parameters r a child =
    if has_exactly inline_keys child
    then resolve_inline r child
    else if has_exactly reference_keys child
    then resolve_reference r a child
    else raise invalid_context

unfoldable pub in_graph : String → List SkillGraphNode → Bool
in_graph skill = any (λ n. n.skill_id == skill && not (n.skill_id == show_program))

-- The checks after the parameters are resolved.
unfoldable pub check_child :
    Registry → WorkflowPlan → Fields → Fields → Result ContextError (String × Intent)
unfolding or_raise bounded_name bounded_source in_graph
check_child r w child ps = do
  skill ← or_raise (as_str (get "skill_id" child)) invalid_skill_id
  raise_if (not (bounded_name skill)) invalid_skill_id
  kind ← or_raise (as_str (get "intent_kind" child)) invalid_intent_kind
  raise_if (not (bounded_name kind)) invalid_intent_kind
  source ← or_raise (as_str (get "source_text" child)) invalid_source_text
  raise_if (not (bounded_source source)) invalid_source_text
  raise_if (not (in_graph skill w.skill_graph)) outside_graph
  intents ← or_raise (lookup skill r.manifests) unknown_skill
  raise_if (not (member kind intents)) intent_mismatch
  ok (skill, record { kind = kind; parameters = ps; source_text = source })

unfoldable pub resolve_child : Registry → ActionRecord → Result ContextError (String × Intent)
unfolding or_raise resolve_parameters check_child
resolve_child r a = do
  raise_if (not a.workflow.executable) not_executable
  context ← or_raise a.workflow.continuation_context no_context
  child ← or_raise (as_dict (get child_key context)) invalid_context
  ps ← resolve_parameters r a child
  check_child r a.workflow child ps

unfoldable pub effective_execution_context :
    Registry → ActionRecord → Result ContextError (String × Intent)
unfolding resolve_child
effective_execution_context r a =
    if a.workflow.task.skill_id == show_program
    then resolve_child r a
    else ok (a.workflow.task.skill_id, a.workflow.task.intent)
