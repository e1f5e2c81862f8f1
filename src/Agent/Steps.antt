-- ===== src/Agent/Steps.antt =====
-- The registry of core.py over whole histories: any sequence of requests, cancellations and approvals,
-- under a console that may differ from call to call.
use Prim.Native.String.{String}
use zen_ma2_agent.Prelude.{
  ◌≡◌, refl, ◌≢◌, ◌⊎◌, inl, inr, Bool, true, false, none, some, [], Bool-cases, Result-cases,
  Result, ok, raise,
}
use zen_ma2_agent.Prelude.Eq.{◌==◌, string_eq}
use zen_ma2_agent.Prelude.Dict.{lookup, insert, lookup-insert, lookup-insert_self, lookup-insert_ne}
use zen_ma2_agent.Workflow.{Intent, WorkflowPlan}
use zen_ma2_agent.Agent.{approved, ActionRecord, RootStatus, Side, AgentCore}
use zen_ma2_agent.Agent.Queue.{is_pending, queue_workflow, queue_request, queue_root, cancel_action}
use zen_ma2_agent.Agent.Approve.{Console, not_awaiting, raised, gates, run_action, approve_action}
use zen_ma2_agent.Agent.Lifecycle.{IsValid, pending_unique}
use zen_ma2_agent.Agent.Preserve.{
  Keeps, same_registry, queue_workflow-Keeps, queue_request-Keeps, queue_root-Keeps, end-Keeps,
  cancel_action-Keeps,
}
use zen_ma2_agent.Agent.Gates.{
  gates_iff, approve_action-settled, ended, returned, ended-not_pending, run_action_cases,
}

run_action-Keeps :
    (k : Console) (id : String) (a : ActionRecord) (skill : String) (intent : Intent)
    (c : AgentCore)
    → IsValid c
    → lookup id c.actions ≡ some a
    → is_pending a.status ≡ true
    → Keeps c (run_action k id a skill intent c).1
run_action-Keeps k id a skill intent c v found pend =
    elim (run_action_cases k id a skill intent c) [
      | inl (_, _, acts, act) ↦ same_registry v acts act
      | inr (r, _, acts, act) ↦
          end-Keeps id a (ended a r) v found pend (ended-not_pending a r)
            (λ j.
              rw
                (
                  acts,
                  lookup-insert id j (ended a r)
                      (insert id (record a { status = approved }) c.actions),
                  lookup-insert id j (record a { status = approved }) c.actions,
                )
                (elim (Bool-cases (id == j)) [ inl same ↦ rw same | inr other ↦ rw other ]))
            act
    ]

pub approve_action-Keeps :
    (k : Console) (id : String) (danger_confirmed : Bool) (c : AgentCore)
    → IsValid c
    → Keeps c (approve_action k id danger_confirmed c).1
unfolding approve_action
approve_action-Keeps k id danger_confirmed c v =
    elim (Result-cases (gates k id danger_confirmed c)) [
      | inr (e, bad) ↦ rw (bad, approve_action) (same_registry v refl refl)
      | inl ((a, skill, intent), good) ↦
          let (found, pend, _, _, _, _) =
            (gates_iff k id danger_confirmed c a skill intent).0 good in
          rw (good, approve_action) (run_action-Keeps k id a skill intent c v found pend)
    ]

-- One call on the core. A fresh identifier is not empty and names no action yet; every other method
-- of the core writes `Side` or the status of the root alone.
pub data Step : AgentCore → AgentCore → Type 0 where
  queued :
      (fresh : String) (w : WorkflowPlan) (c : AgentCore)
      → fresh ≢ ""
      → lookup fresh c.actions ≡ none
      → Step c (queue_workflow fresh w c).1
  requested :
      (fresh : String) (w : WorkflowPlan) (c : AgentCore)
      → fresh ≢ ""
      → lookup fresh c.actions ≡ none
      → Step c (queue_request fresh w c).1
  rooted :
      (fresh skill : String) (intent : Intent) (w : WorkflowPlan) (c : AgentCore)
      → fresh ≢ ""
      → lookup fresh c.actions ≡ none
      → Step c (queue_root fresh skill intent w c).1
  cancelling : (id : String) (c : AgentCore) → Step c (cancel_action id c).1
  approving :
      (k : Console) (id : String) (danger_confirmed : Bool) (c : AgentCore)
      → Step c (approve_action k id danger_confirmed c).1
  elsewhere :
      (s : Side) (root : RootStatus) (c : AgentCore)
      → Step c (record c { root_workflow_status = root; side = s })

pub data Reach : AgentCore → AgentCore → Type 0 where
  here : (c : AgentCore) → Reach c c
  then_step : {c d e : AgentCore} → Reach c d → Step d e → Reach c e

Step-Keeps : {c d : AgentCore} → Step c d → IsValid c → Keeps c d
Step-Keeps (queued fresh w c ne new) v = queue_workflow-Keeps fresh w c v ne new
Step-Keeps (requested fresh w c ne new) v = queue_request-Keeps fresh w c v ne new
Step-Keeps (rooted fresh skill intent w c ne new) v =
    queue_root-Keeps fresh skill intent w c v ne new
Step-Keeps (cancelling id c) v = cancel_action-Keeps id c v
Step-Keeps (approving k id danger_confirmed c) v = approve_action-Keeps k id danger_confirmed c v
Step-Keeps (elsewhere s root c) v = same_registry v refl refl

Reach-Keeps : {c d : AgentCore} → IsValid c → Reach c d → Keeps c d
Reach-Keeps v (here c) = (v, λ i r h p. h)
Reach-Keeps v (then_step r s) =
    let (w, kept) = Reach-Keeps v r in
    let (x, kept') = Step-Keeps s w in (x, λ i q h p. kept' i q (kept i q h p) p)

abbrev pub new_core : Side → RootStatus → AgentCore
new_core s root = record {
  actions = [];
  active_action_id = none;
  root_workflow_status = root;
  side = s;
}

new_core-IsValid : (s : Side) (root : RootStatus) → IsValid (new_core s root)
unfolding lookup
new_core-IsValid s root = record {
  pending_active = λ i r h p. absurd (cc h);
  active_pending = λ i h. absurd (cc h);
}

-- In any core that calls lead to from a new one, an action that waits for approval is the active
-- one, and the active one waits for approval.
pub Reach-IsValid :
    (s : Side) (root : RootStatus) {c : AgentCore} → Reach (new_core s root) c → IsValid c
Reach-IsValid s root r = (Reach-Keeps (new_core-IsValid s root) r).0

-- In any core that calls lead to from a new one, two actions never wait for approval at once.
pub Reach-one_pending :
    (s : Side) (root : RootStatus) {c : AgentCore} (i j : String) (q r : ActionRecord)
    → Reach (new_core s root) c
    → lookup i c.actions ≡ some q
    → is_pending q.status ≡ true
    → lookup j c.actions ≡ some r
    → is_pending r.status ≡ true
    → i ≡ j
Reach-one_pending s root i j q r h = pending_unique i j (Reach-IsValid s root h)

-- Once an action of a valid core was executed, has failed or was cancelled, its record stays and its
-- approval, on any console, is refused and changes nothing, whatever was called in between.
pub Reach-settled :
    {c d : AgentCore} (i : String) (r : ActionRecord) (k : Console) (danger_confirmed : Bool)
    → IsValid c
    → Reach c d
    → lookup i c.actions ≡ some r
    → is_pending r.status ≡ false
    → (lookup i d.actions ≡ some r)
      × (approve_action k i danger_confirmed d ≡ (raise not_awaiting, d))
Reach-settled {c} {d} i r k danger_confirmed v h found settled =
    let kept = (Reach-Keeps v h).1 i r found settled in
    (kept, approve_action-settled k i danger_confirmed d r kept settled)

-- A call whose checks pass either raises before the approval and leaves the registry as it was, or
-- gives the action its final record: executed with the result that is returned, or failed with the
-- error that is raised; then nothing is active and no other record has changed.
pub approve_action_outcome :
    (k : Console) (id : String) (danger_confirmed : Bool) (c : AgentCore) (a : ActionRecord)
    (skill : String) (intent : Intent)
    → gates k id danger_confirmed c ≡ ok (a, skill, intent)
    → let out = approve_action k id danger_confirmed c in
      ((e : String) × (out.0 ≡ raise (raised e))
        × (out.1.actions ≡ c.actions)
        × (out.1.active_action_id ≡ c.active_action_id))
      ⊎ ((r : Result String String) × (out.0 ≡ returned r)
          × (lookup id out.1.actions ≡ some (ended a r))
          × ((j : String) → id ≢ j → lookup j out.1.actions ≡ lookup j c.actions)
          × (out.1.active_action_id ≡ none))
unfolding approve_action
approve_action_outcome k id danger_confirmed c a skill intent good =
    rw (good, approve_action)
      (elim (run_action_cases k id a skill intent c) [
        | inl e ↦ inl e
        | inr (r, res, acts, act) ↦ inr (
          r,
          res,
          rw (
            acts,
            lookup-insert_self id (ended a r)
                (insert id (record a { status = approved }) c.actions),
          ),
          λ j ne. rw (
            acts,
            lookup-insert_ne id j (ended a r) (insert id (record a { status = approved }) c.actions)
                ne,
            lookup-insert_ne id j (record a { status = approved }) c.actions ne,
          ),
          act,
        )
      ])
