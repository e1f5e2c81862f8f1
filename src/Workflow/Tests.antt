-- ===== src/Workflow/Tests.antt =====
-- Two small plans, and the theorems on merging at them.
use Prim.Native.String.{String}
use zen_ma2_agent.Prelude.{◌≡◌, refl, ◌≤◌, ◌⊎◌, ◌↔◌, true, none, some, [], ◌∷◌, ◌++◌}
use zen_ma2_agent.Prelude.Eq.{string_eq, member}
use zen_ma2_agent.Prelude.Text.{codes, text_beq}
use zen_ma2_agent.Json.{end}
use zen_ma2_agent.Workflow.{
  safe, modify, dangerous, rank, Intent, CommandPlan, ActionStep, WorkflowPlan, from_command,
  commands, max_safety, dedup, with_child,
}
use zen_ma2_agent.Workflow.Laws.{
  commands-with_child, safety-with_child, IsFresh, gates-with_child, ids, DependsWithin,
  depends-with_child,
}

abbrev intent : Intent
intent = record { kind = "go_sequence"; parameters = end; source_text = "go 3" }

abbrev go : CommandPlan
go = record {
  intent = intent;
  command = some "Go Sequence 3";
  safety = safe;
  preview_note = "note";
  executable = true;
}

abbrev delete : CommandPlan
delete = record go { command = some "Delete Cue 1"; safety = dangerous }

abbrev parent : WorkflowPlan
parent = from_command (λ s. s) (codes "p1") "sequence.go" intent go

abbrev child : WorkflowPlan
child = from_command (λ s. s) (codes "c1") "cue.delete" intent delete

merged_commands : commands (with_child parent child) ≡ "Go Sequence 3" ∷ "Delete Cue 1" ∷ []
unfolding commands with_child from_command
merged_commands = refl

merged_gates : (with_child parent child).approval_gates ≡ "PREVIEW" ∷ "SECOND_CONFIRMATION" ∷ []
unfolding with_child from_command dedup
merged_gates = refl

merged_dangerous : (with_child parent child).safety ≡ dangerous
unfolding with_child from_command max_safety
merged_dangerous = refl

commands-with_child_example : commands (with_child parent child) ≡ commands parent ++ commands child
commands-with_child_example = commands-with_child parent child

safety-with_child_example :
    let m = with_child parent child in
    (rank parent.safety ≤ rank m.safety)
    × (rank child.safety ≤ rank m.safety)
    × ((m.safety ≡ parent.safety) ⊎ (m.safety ≡ child.safety))
    × ((m.executable ≡ true) ↔ ((parent.executable ≡ true) × (child.executable ≡ true)))
safety-with_child_example = safety-with_child parent child

gates-with_child_example :
    ((g : String)
      → member g (with_child parent child).approval_gates
        ≡ member g (parent.approval_gates ++ child.approval_gates))
    × IsFresh [] (with_child parent child).approval_gates
gates-with_child_example = gates-with_child parent child

abbrev label_step : ActionStep
label_step = record {
  id = codes "label";
  title = "Label";
  kind = "command";
  command = some "Label Cue 1";
  safety = modify;
  depends_on = codes "command-1" ∷ [];
  verification = none;
  rollback = none;
}

abbrev chained : WorkflowPlan
chained = let p = child in record p { steps = p.steps ++ label_step ∷ [] }

depends-with_child_example :
    DependsWithin (ids (with_child parent chained).steps) (with_child parent chained).steps
unfolding from_command ids text_beq
depends-with_child_example = depends-with_child parent chained (tt, tt) (tt, ((refl, tt), tt))
