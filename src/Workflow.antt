-- ===== src/Workflow.antt =====
-- zen_ma2_agent/models.py and zen_ma2_agent/workflow.py: intents, command plans and the workflow plan
-- that is previewed, approved and executed. `title_case` is `str.title`, whose tables are Unicode's,
-- and the identifier that `uuid4` draws is an argument.
pub mod Laws
mod Tests
use Prim.Native.String.{String}
use zen_ma2_agent.Prelude.{
  ℕ, Bool, true, false, ◌&&◌, Option, none, some, List, [], ◌∷◌, ◌++◌, map, if◌then◌else◌, ltb, not,
}
use zen_ma2_agent.Prelude.Eq.{◌==◌, string_eq, member}
use zen_ma2_agent.Prelude.Text.{Text, codes, text_eq}
use zen_ma2_agent.Json.{Fields}

pub data SafetyLevel : Type 0 where
  safe modify dangerous : SafetyLevel

pub record Intent : Type 0 where
  pub kind : String
  pub parameters : Fields
  pub source_text : String

pub record CommandPlan : Type 0 where
  pub intent : Intent
  pub command : Option String
  pub safety : SafetyLevel
  pub preview_note : String
  pub executable : Bool

pub record Task : Type 0 where
  pub id : Text
  pub title : String
  pub intent : Intent
  pub skill_id : String
  pub required_state : List String

pub record Subtask : Type 0 where
  pub id : Text
  pub title : String
  pub phase : String
  pub status : String

pub record SkillGraphNode : Type 0 where
  pub id : Text
  pub skill_id : String
  pub title : String
  pub parent_id : Option Text

pub record ActionStep : Type 0 where
  pub id : Text
  pub title : String
  pub kind : String
  pub command : Option String
  pub safety : SafetyLevel
  pub depends_on : List Text
  pub verification : Option String
  pub rollback : Option String

pub record WorkflowPlan : Type 0 where
  pub task : Task
  pub subtasks : List Subtask
  pub skill_graph : List SkillGraphNode
  pub steps : List ActionStep
  pub safety : SafetyLevel
  pub preview_note : String
  pub approval_gates : List String
  pub verification_strategy : String
  pub rollback_strategy : Option String
  pub executable : Bool
  pub current_phase : Option String
  pub root_state : Option String
  pub continuation_context : Option Fields

-- `a or b` of two optional texts: an empty text does not count.
abbrev pub or_else : Option String → Option String → Option String
or_else none b = b
or_else (some a) b = if a == "" then b else some a

gates_for : SafetyLevel → List String
gates_for dangerous = "PREVIEW" ∷ "SECOND_CONFIRMATION" ∷ []
gates_for _ = "PREVIEW" ∷ []

-- `WorkflowPlan.from_command`
unfoldable pub from_command :
    (title_case : String → String) (fresh : Text) (skill_id : String)
    → Intent
    → CommandPlan
    → WorkflowPlan
unfolding gates_for
from_command title_case fresh skill_id intent command = record {
  task = task;
  subtasks =
      record {
        id = codes "inspect";
        title = "Validate deterministic request";
        phase = "Planning";
        status = "PLANNED";
      }
      ∷ record {
        id = codes "execute";
        title = "Execute approved MA2 command";
        phase = "Execution";
        status = "PLANNED";
      }
      ∷ record {
        id = codes "verify";
        title = "Record MA2 response";
        phase = "Verification";
        status = "PLANNED";
      }
      ∷ [];
  skill_graph =
      record { id = codes "root"; skill_id = skill_id; title = task.title; parent_id = none } ∷ [];
  steps =
      record {
        id = codes "command-1";
        title = "MA2 command";
        kind = "command";
        command = command.command;
        safety = command.safety;
        depends_on = [];
        verification = some "Record Telnet response";
        rollback = none;
      }
      ∷ [];
  safety = command.safety;
  preview_note = command.preview_note;
  approval_gates = gates_for command.safety;
  verification_strategy = "Record MA2 response";
  rollback_strategy = none;
  executable = command.executable;
  current_phase = none;
  root_state = none;
  continuation_context = none;
}
  where
    task : Task
    task = record {
      id = fresh;
      title = title_case command.intent.kind;
      intent = intent;
      skill_id = skill_id;
      required_state = [];
    }

-- `step.kind == "command" and step.command`
command_of : ActionStep → List String
command_of s = elim s.command [
  | none ↦ []
  | some c ↦ if s.kind == "command" && not (c == "") then c ∷ [] else []
]

commands_of : List ActionStep → List String
unfolding command_of
commands_of [] = []
commands_of (s ∷ steps) = command_of s ++ commands_of steps

-- `WorkflowPlan.commands`
unfoldable pub commands : WorkflowPlan → List String
unfolding commands_of
commands p = commands_of p.steps

unfoldable pub rank : SafetyLevel → ℕ
rank safe = 0
rank modify = 1
rank dangerous = 2

-- `max((a, b), key=rank)`: the first of two equals
unfoldable pub max_safety : SafetyLevel → SafetyLevel → SafetyLevel
unfolding rank
max_safety a b = if ltb (rank a) (rank b) then b else a

-- `tuple(dict.fromkeys(l))`: the first occurrences, in order. `seen` is what came before.
unfoldable pub dedup : List String → List String → List String
dedup seen [] = []
dedup seen (x ∷ xs) =
    let old = dedup seen xs in
    let new = x ∷ dedup (x ∷ seen) xs in if member x seen then old else new

unfoldable pub prefix_node : Text → SkillGraphNode → SkillGraphNode
prefix_node prefix n = record n {
  id = prefix ++ n.id;
  parent_id = some (elim n.parent_id [ none ↦ codes "root" | some p ↦ prefix ++ p ]);
}

prefix_step : Text → ActionStep → ActionStep
prefix_step prefix s = record s {
  id = prefix ++ s.id;
  depends_on = map (λ d. prefix ++ d) s.depends_on;
}

-- `WorkflowPlan.with_child`
unfoldable pub with_child : WorkflowPlan → WorkflowPlan → WorkflowPlan
unfolding prefix_node prefix_step
with_child p child =
    let prefix = child.task.id ++ codes "-" in
    record p {
      subtasks = p.subtasks ++ child.subtasks;
      skill_graph = p.skill_graph ++ map (prefix_node prefix) child.skill_graph;
      steps = p.steps ++ map (prefix_step prefix) child.steps;
      safety = max_safety p.safety child.safety;
      approval_gates = dedup [] (p.approval_gates ++ child.approval_gates);
      rollback_strategy = or_else p.rollback_strategy child.rollback_strategy;
      executable = p.executable && child.executable;
    }
