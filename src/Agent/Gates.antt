-- ===== src/Agent/Gates.antt =====
-- What `approve_action` of core.py checks before anything is done, and what a call that is refused or
-- that runs leaves in the registry.
use Prim.Native.String.{String}
use zen_ma2_agent.Prelude.{
  ◌≡◌, refl, ap, ◌↔◌, ◌⊎◌, inl, inr, Bool, true, false, not, ◌&&◌, Option, none, some, arith,
  some_inj, Result-cases, Result, ok, raise,
}
use zen_ma2_agent.Prelude.Eq.{string_eq, ==_self, ==_true}
use zen_ma2_agent.Prelude.Dict.{lookup, insert}
use zen_ma2_agent.Workflow.{Intent}
use zen_ma2_agent.Agent.{approved, executed, failed, ActionRecord, Side, AgentCore}
use zen_ma2_agent.Agent.Queue.{is_pending}
use zen_ma2_agent.Agent.Context.{effective_execution_context}
use zen_ma2_agent.Agent.Approve.{
  Console, AgentError, not_awaiting, raised, is_active, is_dangerous, pending_action, context_of,
  gates, ensure_unchanged, mark_approved, settle, finish, run_action, perform, approve_action,
}

is_active_iff : (id : String) (o : Option String) → (is_active id o ≡ true) ↔ (o ≡ some id)
is_active_iff id none = ground arith
is_active_iff id (some a) = (λ h. ap some (==_true a id h), λ e. rw (some_inj e) (==_self id))

-- That an action may run: it is pending and active, its context resolves, the console is ready, and a
-- dangerous plan has its own confirmation.
abbrev pub Permitted :
    Console
    → String
    → (danger_confirmed : Bool) → AgentCore
    → ActionRecord
    → (skill : String) → Intent
    → Type 0
Permitted k id danger_confirmed c a skill intent =
    (lookup id c.actions ≡ some a)
    × (is_pending a.status ≡ true)
    × (c.active_action_id ≡ some id)
    × (effective_execution_context k.registry a ≡ ok (skill, intent))
    × (k.ready ≡ true)
    × (is_dangerous a.workflow.safety && not danger_confirmed ≡ false)

-- The checks pass exactly for an action that may run.
pub gates_iff :
    (k : Console) (id : String) (danger_confirmed : Bool) (c : AgentCore) (a : ActionRecord)
    (skill : String) (intent : Intent)
    → (gates k id danger_confirmed c ≡ ok (a, skill, intent))
      ↔ Permitted k id danger_confirmed c a skill intent
unfolding gates pending_action context_of
gates_iff k id danger_confirmed c a skill intent =
    ground (arith, is_active_iff id c.active_action_id)

-- A call that the checks refuse changes nothing, the commands sent included.
pub approve_action-refused :
    (k : Console) (id : String) (danger_confirmed : Bool) (c : AgentCore) (e : AgentError)
    → gates k id danger_confirmed c ≡ raise e
    → approve_action k id danger_confirmed c ≡ (raise e, c)
unfolding approve_action
approve_action-refused k id danger_confirmed c e h = rw (h, approve_action)

-- An approval runs the action of the given identifier with its context, if it may run: it is pending and
-- active, its context resolves, the console is ready, and a dangerous plan has its own confirmation. If there
-- is no such action and context, the approval raises and leaves the whole core as it was.
pub approve_action-Permitted :
    (k : Console) (id : String) (danger_confirmed : Bool) (c : AgentCore)
    → ((e : AgentError) × (approve_action k id danger_confirmed c ≡ (raise e, c))
        × ((a : ActionRecord) (skill : String) (intent : Intent)
            → ¬ Permitted k id danger_confirmed c a skill intent))
      ⊎ ((a : ActionRecord) × (skill : String) × (intent : Intent) × Permitted k id danger_confirmed
            c a skill intent
          × (approve_action k id danger_confirmed c ≡ run_action k id a skill intent c))
unfolding approve_action
approve_action-Permitted k id danger_confirmed c =
    elim (Result-cases (gates k id danger_confirmed c)) [
      | inr (e, bad) ↦ inl (
        e,
        approve_action-refused k id danger_confirmed c e bad,
        λ a skill intent may. cc (bad, (gates_iff k id danger_confirmed c a skill intent).1 may),
      )
      | inl ((a, skill, intent), good) ↦ inr (
        a,
        skill,
        intent,
        (gates_iff k id danger_confirmed c a skill intent).0 good,
        rw (good, approve_action),
      )
    ]

-- An action that is unknown or has ended never runs again.
pub approve_action-settled :
    (k : Console) (id : String) (danger_confirmed : Bool) (c : AgentCore) (r : ActionRecord)
    → lookup id c.actions ≡ some r
    → is_pending r.status ≡ false
    → approve_action k id danger_confirmed c ≡ (raise not_awaiting, c)
unfolding gates pending_action
approve_action-settled k id danger_confirmed c r found settled =
    approve_action-refused k id danger_confirmed c not_awaiting
      (rw (found, settled, pending_action))

-- The record of an action that ran, and what the call returns.
abbrev pub ended : ActionRecord → Result String String → ActionRecord
ended a (ok text) = record a { status = executed; result = some text }
ended a (raise e) = record a { status = failed; result = some e }

abbrev pub returned : Result String String → Result AgentError String
returned (ok text) = ok text
returned (raise e) = raise (raised e)

pub ended-not_pending :
    (a : ActionRecord) (r : Result String String) → is_pending (ended a r).status ≡ false
ended-not_pending a (ok text) = refl
ended-not_pending a (raise e) = refl

settle_lem :
    (id : String) (a : ActionRecord) (intent : Intent) (c : AgentCore)
    (p : Result String String × Side)
    → let out = settle id a intent c p in
      (out.0 ≡ returned p.0)
      × (out.1.actions ≡ insert id (ended a p.0) c.actions)
      × (out.1.active_action_id ≡ none)
unfolding settle finish
settle_lem id a intent c (ok text, s) = (refl, refl, refl)
settle_lem id a intent c (raise e, s) = (refl, refl, refl)

-- The registry after the checks passed: as it was, when the `_ensure_*` method raised; otherwise the
-- action has its final record, the one that the call returns, and nothing is active.
pub run_action_cases :
    (k : Console) (id : String) (a : ActionRecord) (skill : String) (intent : Intent)
    (c : AgentCore)
    → let out = run_action k id a skill intent c in
      ((e : String) × (out.0 ≡ raise (raised e))
        × (out.1.actions ≡ c.actions)
        × (out.1.active_action_id ≡ c.active_action_id))
      ⊎ ((r : Result String String) × (out.0 ≡ returned r)
          × (out.1.actions
              ≡ insert id (ended a r) (insert id (record a { status = approved }) c.actions))
          × (out.1.active_action_id ≡ none))
unfolding run_action mark_approved
run_action_cases k id a skill intent c =
    elim (Result-cases (ensure_unchanged k intent.kind a c.side).0) [
      | inr (e, bad) ↦ inl (e, rw (bad, run_action), rw (bad, run_action), rw (bad, run_action))
      | inl (u, good) ↦
          let c' = mark_approved id a (ensure_unchanged k intent.kind a c.side).1 c in
          let p = perform k a skill intent c'.side in
          let (res, acts, act) = settle_lem id a intent c' p in
          inr
            (p.0, rw (good, run_action) res, rw (good, run_action) acts, rw (good, run_action) act)
    ]
