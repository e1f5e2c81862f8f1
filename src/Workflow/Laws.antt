-- ===== src/Workflow/Laws.antt =====
-- What merging a planned child into its parent keeps.
use Prim.Native.String.{String}
use zen_ma2_agent.Prelude.{
  ◌≡◌, refl, ◌≤◌, ap, sym, ◌∙◌, ◌⊎◌, ◌↔◌, inl, inr, true, false, none, some, List, [], ◌∷◌, ◌++◌,
  map, append_assoc, arith, if◌then◌else◌, Bool-cases, Option-cases, All, All-append, All-map,
}
use mathlib.Core.Path.{subst}
use zen_ma2_agent.Prelude.Eq.{Comparable, ◌==◌, string_eq, member, ==_self, ==_true}
use zen_ma2_agent.Prelude.Text.{Text, codes, text_eq}
use zen_ma2_agent.Workflow.{
  SafetyLevel, safe, modify, dangerous, Intent, CommandPlan, ActionStep, WorkflowPlan, gates_for,
  from_command, command_of, commands_of, commands, rank, max_safety, dedup, prefix_step, with_child,
}

commands_of-append : (a b : List ActionStep) → commands_of (a ++ b) ≡ commands_of a ++ commands_of b
unfolding commands_of
commands_of-append [] b = refl
commands_of-append (s ∷ a) b =
    ap (λ l. command_of s ++ l) (commands_of-append a b)
    ∙ sym (append_assoc (command_of s) (commands_of a) (commands_of b))

commands_of-prefix :
    (prefix : Text) (steps : List ActionStep)
    → commands_of (map (prefix_step prefix) steps) ≡ commands_of steps
unfolding commands_of prefix_step
commands_of-prefix prefix [] = refl
commands_of-prefix prefix (s ∷ steps) =
    ap (λ l. command_of s ++ l) (commands_of-prefix prefix steps)

-- The merged plan sends the parent's commands and then the child's, in order, and no other.
pub commands-with_child :
    (p child : WorkflowPlan) → commands (with_child p child) ≡ commands p ++ commands child
unfolding commands with_child
commands-with_child p child =
    commands_of-append p.steps (map (prefix_step (child.task.id ++ codes "-")) child.steps)
    ∙ ap (λ l. commands_of p.steps ++ l)
        (commands_of-prefix (child.task.id ++ codes "-") child.steps)

-- The merged plan is as dangerous as the more dangerous of the two, and runs only if both may.
pub safety-with_child :
    (p child : WorkflowPlan)
    → let m = with_child p child in
      (rank p.safety ≤ rank m.safety)
      × (rank child.safety ≤ rank m.safety)
      × ((m.safety ≡ p.safety) ⊎ (m.safety ≡ child.safety))
      × ((m.executable ≡ true) ↔ ((p.executable ≡ true) × (child.executable ≡ true)))
unfolding with_child max_safety
safety-with_child p child = (ground arith, ground arith, ground arith, ground arith)

module _ {ℓ} {A : Type ℓ} ⦃e : Comparable A⦄ where
  member-append_left : (g : A) (xs ys : List A) → member g xs ≡ true → member g (xs ++ ys) ≡ true
  member-append_left g [] ys h = cc
  member-append_left g (x ∷ xs) ys h = elim (Bool-cases (x == g)) [
    | inl same ↦ rw same
    | inr other ↦ rw other (member-append_left g xs ys (rw other at h))
  ]

  member-append_right : (g : A) (xs ys : List A) → member g ys ≡ true → member g (xs ++ ys) ≡ true
  member-append_right g [] ys h = h
  member-append_right g (x ∷ xs) ys h = elim (Bool-cases (x == g)) [
    | inl same ↦ rw same
    | inr other ↦ rw other (member-append_right g xs ys h)
  ]

-- `dedup` keeps every name that was not seen before.
member-dedup :
    (seen xs : List String) (g : String)
    → member g seen ≡ false
    → member g (dedup seen xs) ≡ member g xs
unfolding dedup
member-dedup seen [] g h = refl
member-dedup seen (x ∷ xs) g h = elim (Bool-cases (member x seen)) [
  | inl old ↦ rw old (elim (Bool-cases (x == g)) [
    | inl same ↦
        let q : member g seen ≡ true = subst (λ y. member y seen ≡ true) (==_true x g same) old in
        cc
    | inr other ↦ rw other (member-dedup seen xs g h)
  ])
  | inr new ↦ rw new (elim (Bool-cases (x == g)) [
    | inl same ↦ rw same
    | inr other ↦ rw other (member-dedup (x ∷ seen) xs g (rw other h))
  ])
]

-- No name occurs twice, nor one of `seen`.
abbrev pub IsFresh : List String → List String → Type 0
IsFresh seen [] = Unit
IsFresh seen (x ∷ xs) = (member x seen ≡ false) × IsFresh (x ∷ seen) xs

dedup-IsFresh : (seen xs : List String) → IsFresh seen (dedup seen xs)
unfolding dedup
dedup-IsFresh seen [] = tt
dedup-IsFresh seen (x ∷ xs) = elim (Bool-cases (member x seen)) [
  | inl old ↦ rw old (dedup-IsFresh seen xs)
  | inr new ↦ rw new (new, dedup-IsFresh (x ∷ seen) xs)
]

-- The merged plan asks for exactly the gates of the two plans, each once.
pub gates-with_child :
    (p child : WorkflowPlan)
    → ((g : String)
        → member g (with_child p child).approval_gates
          ≡ member g (p.approval_gates ++ child.approval_gates))
      × IsFresh [] (with_child p child).approval_gates
unfolding with_child
gates-with_child p child = (
  λ g. member-dedup [] (p.approval_gates ++ child.approval_gates) g refl,
  dedup-IsFresh [] (p.approval_gates ++ child.approval_gates),
)

gates_for_confirmation :
    (l : SafetyLevel) → (member "SECOND_CONFIRMATION" (gates_for l) ≡ true) ↔ (l ≡ dangerous)
unfolding gates_for
gates_for_confirmation safe = (λ h. cc, λ h. cc)
gates_for_confirmation modify = (λ h. cc, λ h. cc)
gates_for_confirmation dangerous = (λ h. refl, λ h. refl)

gates_for_preview : (l : SafetyLevel) → member "PREVIEW" (gates_for l) ≡ true
unfolding gates_for
gates_for_preview safe = refl
gates_for_preview modify = refl
gates_for_preview dangerous = refl

-- A plan made of one command asks for a second confirmation exactly if the command is dangerous, and
-- sends exactly that command, if it is not empty.
pub from_command_lem :
    (title_case : String → String) (fresh : Text) (skill_id : String) (intent : Intent)
    (c : CommandPlan)
    → let p = from_command title_case fresh skill_id intent c in
      ((member "SECOND_CONFIRMATION" p.approval_gates ≡ true) ↔ (p.safety ≡ dangerous))
      × (member "PREVIEW" p.approval_gates ≡ true)
      × (commands p ≡ elim c.command [ none ↦ [] | some s ↦ if s == "" then [] else s ∷ [] ])
unfolding from_command commands command_of
from_command_lem title_case fresh skill_id intent c = (
  gates_for_confirmation c.safety,
  gates_for_preview c.safety,
  elim (Option-cases c.command) [
    | inl missing ↦ rw (missing, command_of)
    | inr (s, found) ↦
        rw (found, command_of)
          (elim (Bool-cases (s == "")) [ inl empty ↦ rw empty | inr other ↦ rw other ])
  ],
)

-- The identifiers of the steps, and that every step depends on steps of the plan.
unfoldable pub ids : List ActionStep → List Text
ids [] = []
ids (s ∷ steps) = s.id ∷ ids steps

abbrev pub DependsWithin : List Text → List ActionStep → Type 0
DependsWithin known = All (λ s. All (λ d. member d known ≡ true) s.depends_on)

ids-append : (a b : List ActionStep) → ids (a ++ b) ≡ ids a ++ ids b
unfolding ids
ids-append [] b = refl
ids-append (s ∷ a) b = ap (λ l. s.id ∷ l) (ids-append a b)

member-prefix :
    (prefix d : Text) (steps : List ActionStep)
    → member d (ids steps) ≡ true
    → member (prefix ++ d) (ids (map (prefix_step prefix) steps)) ≡ true
unfolding ids prefix_step
member-prefix prefix d [] h = cc
member-prefix prefix d (s ∷ steps) h = elim (Bool-cases (s.id == d)) [
  | inl same ↦ rw (
      subst (λ t. ((prefix ++ s.id) == (prefix ++ t)) ≡ true) (==_true s.id d same)
        (==_self (prefix ++ s.id)))
  | inr other ↦ elim (Bool-cases ((prefix ++ s.id) == (prefix ++ d))) [
    | inl same ↦ rw same
    | inr differs ↦ rw differs (member-prefix prefix d steps (rw other at h))
  ]
]

DependsWithin-left :
    (known more : List Text) (steps : List ActionStep)
    → DependsWithin known steps
    → DependsWithin (known ++ more) steps
DependsWithin-left known more [] h = tt
DependsWithin-left known more (s ∷ steps) h = (
  All-map (λ d. member d known ≡ true) (λ d. member-append_left d known more) s.depends_on h.0,
  DependsWithin-left known more steps h.1,
)

deps-prefix :
    (known : List Text) (prefix : Text) (steps : List ActionStep) (deps : List Text)
    → All (λ d. member d (ids steps) ≡ true) deps
    → All
        (λ d. member d (known ++ ids (map (prefix_step prefix) steps)) ≡ true)
        (map (λ d. prefix ++ d) deps)
deps-prefix known prefix steps [] h = tt
deps-prefix known prefix steps (d ∷ deps) h = (
  member-append_right (prefix ++ d) known (ids (map (prefix_step prefix) steps))
      (member-prefix prefix d steps h.0),
  deps-prefix known prefix steps deps h.1,
)

DependsWithin-prefix :
    (known : List Text) (prefix : Text) (all_steps steps : List ActionStep)
    → DependsWithin (ids all_steps) steps
    → DependsWithin
        (known ++ ids (map (prefix_step prefix) all_steps))
        (map (prefix_step prefix) steps)
unfolding prefix_step
DependsWithin-prefix known prefix all_steps [] h = tt
DependsWithin-prefix known prefix all_steps (s ∷ steps) h = (
  deps-prefix known prefix all_steps s.depends_on h.0,
  DependsWithin-prefix known prefix all_steps steps h.1,
)

-- If in each plan every step depends on steps of that plan, so it is in the merged plan.
pub depends-with_child :
    (p child : WorkflowPlan)
    → DependsWithin (ids p.steps) p.steps
    → DependsWithin (ids child.steps) child.steps
    → DependsWithin (ids (with_child p child).steps) (with_child p child).steps
unfolding with_child
depends-with_child p child hp hc =
    let prefix = child.task.id ++ codes "-" in
    let moved = map (prefix_step prefix) child.steps in
    subst (λ l. DependsWithin l (p.steps ++ moved)) (sym (ids-append p.steps moved))
      (All-append (λ s. All (λ d. member d (ids p.steps ++ ids moved) ≡ true) s.depends_on) p.steps
        moved (DependsWithin-left (ids p.steps) (ids moved) p.steps hp)
        (DependsWithin-prefix (ids p.steps) prefix child.steps child.steps hc))
