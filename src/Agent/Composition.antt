-- ===== src/Agent/Composition.antt =====
-- The child context that show_program.py writes and core.py reads back before an approval.
use Prim.Native.String.{String, count}
use zen_ma2_agent.Prelude.{
  ◌++◌, map, ◌≡◌, refl, sym, ◌∙◌, ap, ◌⊎◌, inl, inr, ℕ, true, false, some, List, [], ◌∷◌, arith,
  ltb, Bool-cases, Option-cases, Result-cases, ok,
}
use zen_ma2_agent.Prelude.Eq.{◌==◌, nat_eq, string_eq, member, ==_self, ==_true}
use zen_ma2_agent.Prelude.Dict.{lookup}
use zen_ma2_agent.Prelude.Text.{Text}
use zen_ma2_agent.Json.{Value, dict, Fields, end, field, get, put, has_exactly, as_dict, as_str}
use zen_ma2_agent.Workflow.{Intent, WorkflowPlan, SkillGraphNode, prefix_node, with_child, commands}
use zen_ma2_agent.Agent.{ActionRecord}
use zen_ma2_agent.Agent.Context.{
  Registry, show_program, child_key, max_child_context_bytes, bounded_name, bounded_source,
  encodable, child_parameters_sha256, inline_context, reference_context, fits,
  bounded_child_context, compose_with, compose_show_program_child, resolve_inline,
  resolve_reference, resolve_parameters, matches_stored, in_graph, check_child, resolve_child,
  or_raise, same_text, effective_execution_context, context_or_empty,
}

bounded_cases :
    (r : Registry) (skill : String) (intent : Intent) (context : Fields)
    → bounded_child_context r skill intent ≡ ok context
    → (bounded_name skill ≡ true)
      × (bounded_name intent.kind ≡ true)
      × (bounded_source intent.source_text ≡ true)
      × (encodable r intent.parameters ≡ ok tt)
      × (((fits r (inline_context skill intent) ≡ ok true)
            × (context ≡ inline_context skill intent))
          ⊎ (context ≡ reference_context r skill intent))
unfolding bounded_child_context
bounded_cases r skill intent context h = ground arith

fits-small :
    (r : Registry) (fs : Fields)
    → fits r fs ≡ ok true
    → (n : ℕ) × (r.json_length fs ≡ some n) × (ltb max_child_context_bytes n ≡ false)
unfolding fits
fits-small r fs h = elim (Option-cases (r.json_length fs)) [
  | inl missing ↦ absurd (cc (rw (missing, fits) at h))
  | inr (n, found) ↦ let e = rw (found, fits) at h in (n, found, ground arith)
]

resolve-inline :
    (r : Registry) (a : ActionRecord) (skill : String) (intent : Intent)
    → fits r (inline_context skill intent) ≡ ok true
    → resolve_parameters r a (inline_context skill intent) ≡ ok intent.parameters
unfolding resolve_parameters resolve_inline inline_context or_raise has_exactly get as_dict
resolve-inline r a skill intent h =
    let (n, found, small) = fits-small r (inline_context skill intent) h in rw (found, small)

get-put : (k : String) (v : Value) (fs : Fields) → get k (put k v fs) ≡ some v
unfolding get put
get-put k v end = rw (==_self k)
get-put k v (field j w fs) = elim (Bool-cases (j == k)) [
  | inl same ↦ rw same (rw same)
  | inr other ↦ rw other (rw other (get-put k v fs))
]

module _ (r : Registry) (a : ActionRecord) (skill : String) (intent : Intent) where
  stored_matches :
      a.execution_skill_id ≡ some skill
      → matches_stored a (reference_context r skill intent) intent ≡ true
  unfolding matches_stored reference_context same_text get
  stored_matches s = rw (s, ==_self skill, ==_self intent.kind, ==_self intent.source_text)

  resolve-reference :
      a.execution_skill_id ≡ some skill
      → a.execution_intent ≡ some intent
      → encodable r intent.parameters ≡ ok tt
      → count (r.sha256 intent.parameters) ≡ 64
      → resolve_parameters r a (reference_context r skill intent) ≡ ok intent.parameters
  unfolding resolve_parameters resolve_reference or_raise child_parameters_sha256 has_exactly
      reference_context get as_str
  resolve-reference s i e n = rw (i, stored_matches s, n, e, ==_self (r.sha256 intent.parameters))

compose_parts :
    (r : Registry) (root child w : WorkflowPlan)
    → compose_show_program_child r root child ≡ ok w
    → (root.task.skill_id ≡ show_program)
      × (context : Fields) × (bounded_child_context r child.task.skill_id child.task.intent
          ≡ ok context)
      × (w ≡ compose_with root child context)
unfolding compose_show_program_child
compose_parts r root child w h = elim (Bool-cases (root.task.skill_id == show_program)) [
  | inr other ↦ absurd (cc (rw (other, compose_show_program_child) at h))
  | inl same ↦ elim (Result-cases (bounded_child_context r child.task.skill_id child.task.intent)) [
    | inr (e, bad) ↦ absurd (cc (rw (same, bad, compose_show_program_child) at h))
    | inl (context, good) ↦
        let e = rw (same, good, compose_show_program_child) at h in
        (==_true root.task.skill_id show_program same, context, good, cc e)
  ]
]

in_graph-append :
    (skill : String) (xs ys : List SkillGraphNode)
    → in_graph skill ys ≡ true
    → in_graph skill (xs ++ ys) ≡ true
unfolding in_graph
in_graph-append skill [] ys h = h
in_graph-append skill (x ∷ xs) ys h = rw (in_graph-append skill xs ys h) (ground arith)

in_graph-prefix :
    (skill : String) (prefix : Text) (xs : List SkillGraphNode)
    → in_graph skill (map (prefix_node prefix) xs) ≡ in_graph skill xs
unfolding in_graph prefix_node
in_graph-prefix skill prefix [] = refl
in_graph-prefix skill prefix (x ∷ xs) = rw (in_graph-prefix skill prefix xs)

in_graph-compose :
    (skill : String) (root child : WorkflowPlan) (context : Fields)
    → in_graph skill child.skill_graph ≡ true
    → in_graph skill (compose_with root child context).skill_graph ≡ true
unfolding compose_with with_child
in_graph-compose skill root child context h =
    in_graph-append skill root.skill_graph _ (in_graph-prefix skill _ child.skill_graph ∙ h)

-- The checks after the parameters are resolved pass at a context that was written.
module _ (r : Registry) (w : WorkflowPlan) (skill : String) (intent : Intent)
    (intents : List String) where
  Passes : Fields → Type 0
  Passes context = check_child r w context intent.parameters ≡ ok (skill, intent)

  check-written :
      (context : Fields)
      → ((context ≡ inline_context skill intent) ⊎ (context ≡ reference_context r skill intent))
      → bounded_name skill ≡ true
      → bounded_name intent.kind ≡ true
      → bounded_source intent.source_text ≡ true
      → in_graph skill w.skill_graph ≡ true
      → lookup skill r.manifests ≡ some intents
      → member intent.kind intents ≡ true
      → Passes context
  unfolding Passes check_child or_raise inline_context reference_context get as_str
  check-written context (inl e) bs bk bt g m i = rw e (rw (bs, bk, bt, g, m, i))
  check-written context (inr e) bs bk bt g m i = rw e (rw (bs, bk, bt, g, m, i))

resolve-written :
    (r : Registry) (a : ActionRecord) (skill : String) (intent : Intent) (context : Fields)
    → bounded_child_context r skill intent ≡ ok context
    → a.execution_skill_id ≡ some skill
    → a.execution_intent ≡ some intent
    → count (r.sha256 intent.parameters) ≡ 64
    → resolve_parameters r a context ≡ ok intent.parameters
resolve-written r a skill intent context h s i n =
    let (_, _, _, e, which) = bounded_cases r skill intent context h in
    elim which [
      | inl (small, same) ↦ rw same (resolve-inline r a skill intent small)
      | inr same ↦ rw same (resolve-reference r a skill intent s i e n)
    ]

which_context :
    (r : Registry) (skill : String) (intent : Intent) (context : Fields)
    → bounded_child_context r skill intent ≡ ok context
    → (context ≡ inline_context skill intent) ⊎ (context ≡ reference_context r skill intent)
which_context r skill intent context h =
    let (_, _, _, _, which) = bounded_cases r skill intent context h in
    elim which [ inl (_, same) ↦ inl same | inr same ↦ inr same ]

-- A record that holds a composed plan, its child's skill and its child's intent resolves to exactly that
-- skill and that intent, if the plan is executable, the child's graph and the skill's manifest name them,
-- and a digest has 64 characters.
pub compose_resolves :
    (r : Registry) (root child w : WorkflowPlan) (a : ActionRecord) (intents : List String)
    → compose_show_program_child r root child ≡ ok w
    → w.executable ≡ true
    → a.workflow ≡ w
    → a.execution_skill_id ≡ some child.task.skill_id
    → a.execution_intent ≡ some child.task.intent
    → in_graph child.task.skill_id child.skill_graph ≡ true
    → lookup child.task.skill_id r.manifests ≡ some intents
    → member child.task.intent.kind intents ≡ true
    → count (r.sha256 child.task.intent.parameters) ≡ 64
    → effective_execution_context r a ≡ ok (child.task.skill_id, child.task.intent)
unfolding effective_execution_context resolve_child or_raise compose_with with_child as_dict
    commands get put has_exactly Passes
compose_resolves r root child w a intents h x aw s i g m k n =
    let (root_is, context, written, shape) = compose_parts r root child w h in
    let (bs, bk, bt, _, _) =
      bounded_cases r child.task.skill_id child.task.intent context written in
    let skill = child.task.skill_id in
    let graph = in_graph-compose skill root child context g in
    let exec = sym (ap (λ (v : WorkflowPlan). v.executable) shape) ∙ x in
    rw
      (
        aw,
        shape,
        root_is,
        ==_self show_program,
        exec,
        get-put child_key (dict context) (context_or_empty root.continuation_context),
        resolve-written r a skill child.task.intent context written s i n,
      )
      (check-written r (compose_with root child context) skill child.task.intent intents context
        (which_context r skill child.task.intent context written) bs bk bt graph m k)
