-- ===== src/Agent/Preserve.antt =====
-- Each operation of the registry of core.py, the invariant on the pending action and the records of the
-- actions that have ended.
use Prim.Native.String.{String}
use mathlib.Core.Path.{subst}
use zen_ma2_agent.Prelude.{
  ◌≡◌, refl, sym, ◌∙◌, ap, ◌≢◌, inl, inr, Bool, true, false, none, some, if◌then◌else◌, Bool-cases,
  Option-cases, some_inj,
}
use zen_ma2_agent.Prelude.Eq.{◌==◌, string_eq, ==_self, ==_false, ==_ne}
use zen_ma2_agent.Prelude.Dict.{lookup, insert, lookup-insert, lookup-insert_ne}
use zen_ma2_agent.Workflow.{Intent, WorkflowPlan}
use zen_ma2_agent.Agent.{cancelled, ActionRecord, AgentCore}
use zen_ma2_agent.Agent.Queue.{
  is_pending, cancel_previous, new_record, cancel_found, enqueue, queue_workflow, queue_request,
  queue_root, cancel_action,
}
use zen_ma2_agent.Agent.Lifecycle.{IsValid, clash, not_pending_kept, installed, retired}

-- What has ended in `c` has the same record in `d`.
abbrev pub Settled : AgentCore → AgentCore → Type 0
Settled c d =
    (i : String) (r : ActionRecord)
    → lookup i c.actions ≡ some r
    → is_pending r.status ≡ false
    → lookup i d.actions ≡ some r

-- What an operation keeps.
abbrev pub Keeps : AgentCore → AgentCore → Type 0
Keeps c d = IsValid d × Settled c d

pub same_registry :
    {c d : AgentCore}
    → IsValid c
    → d.actions ≡ c.actions
    → d.active_action_id ≡ c.active_action_id
    → Keeps c d
same_registry {c} {d} v acts act = (
  record {
    pending_active = λ i r h p. act ∙ v.pending_active i r (rw acts at h) p;
    active_pending = λ i e. rw acts (v.active_pending i (sym act ∙ e));
  },
  λ i r h p. rw acts h,
)

-- A new record at a fresh identifier, after the previous active action is cancelled.
install-Keeps :
    (when : ActionRecord → Bool)
    → ((r : ActionRecord) → is_pending r.status ≡ true → when r ≡ true)
    → {c d : AgentCore} (fresh : String) (a : ActionRecord) → IsValid c
    → fresh ≢ ""
    → lookup fresh c.actions ≡ none
    → is_pending a.status ≡ true
    → d.actions ≡ insert fresh a (cancel_previous when c.active_action_id c.actions)
    → d.active_action_id ≡ some fresh
    → Keeps c d
install-Keeps when w {c} {d} fresh a v ne new p acts act = (
  installed when w c d fresh a v ne p acts act,
  λ i r h q.
      let other : fresh ≢ i =
        λ same. let old = subst (λ j. lookup j c.actions ≡ some r) (sym same) h in cc (new, old) in
      rw
        (acts, lookup-insert_ne fresh i a (cancel_previous when c.active_action_id c.actions) other)
        (not_pending_kept when w v i r h q),
)

enqueue-Keeps :
    (shown disabled : WorkflowPlan → String) (fresh : String) (w : WorkflowPlan) (c : AgentCore)
    → IsValid c
    → fresh ≢ ""
    → lookup fresh c.actions ≡ none
    → Keeps c (enqueue shown disabled fresh w c).1
unfolding enqueue new_record
enqueue-Keeps shown disabled fresh w c v ne new = elim (Bool-cases w.executable) [
  | inl e ↦
      rw (e, enqueue)
        (install-Keeps (λ r. is_pending r.status) (λ r h. h) fresh _ v ne new refl refl refl)
  | inr e ↦ rw (e, enqueue) (same_registry v refl refl)
]

pub queue_workflow-Keeps :
    (fresh : String) (w : WorkflowPlan) (c : AgentCore)
    → IsValid c
    → fresh ≢ ""
    → lookup fresh c.actions ≡ none
    → Keeps c (queue_workflow fresh w c).1
unfolding queue_workflow
queue_workflow-Keeps = enqueue-Keeps _ _

pub queue_request-Keeps :
    (fresh : String) (w : WorkflowPlan) (c : AgentCore)
    → IsValid c
    → fresh ≢ ""
    → lookup fresh c.actions ≡ none
    → Keeps c (queue_request fresh w c).1
unfolding queue_request
queue_request-Keeps = enqueue-Keeps _ _

pub queue_root-Keeps :
    (fresh skill : String) (intent : Intent) (w : WorkflowPlan) (c : AgentCore)
    → IsValid c
    → fresh ≢ ""
    → lookup fresh c.actions ≡ none
    → Keeps c (queue_root fresh skill intent w c).1
unfolding queue_root new_record
queue_root-Keeps fresh skill intent w c v ne new = elim (Bool-cases w.executable) [
  | inl e ↦
      rw (e, queue_root) (install-Keeps (λ r. true) (λ r h. refl) fresh _ v ne new refl refl refl)
  | inr e ↦ rw (e, queue_root) (same_registry v refl refl)
]

-- The one pending action is given a record that is not pending, and nothing is active any more.
pub end-Keeps :
    {c d : AgentCore} (id : String) (q a : ActionRecord)
    → IsValid c
    → lookup id c.actions ≡ some q
    → is_pending q.status ≡ true
    → is_pending a.status ≡ false
    → ((j : String) → lookup j d.actions ≡ (if id == j then some a else lookup j c.actions))
    → d.active_action_id ≡ none
    → Keeps c d
end-Keeps {c} {d} id q a v found pend p acts act = (
  retired c d id v (v.pending_active id q found pend)
      (λ j r h pr. elim (Bool-cases (id == j)) [
        | inl same ↦
            let e : some a ≡ some r = rw same at (sym (acts j) ∙ h) in
            let same_status : is_pending a.status ≡ is_pending r.status =
              ap (λ (x : ActionRecord). is_pending x.status) (some_inj e) in
            absurd (cc (same_status, p, pr))
        | inr other ↦ (==_false id j other, rw other at (sym (acts j) ∙ h))
      ])
      act,
  λ j r h pr. rw (acts j, ==_ne id j (clash id j c.actions q r found pend h pr)) h,
)

pub cancel_action-Keeps : (id : String) (c : AgentCore) → IsValid c → Keeps c (cancel_action id c).1
unfolding cancel_action cancel_found
cancel_action-Keeps id c v = elim (Option-cases (lookup id c.actions)) [
  | inl missing ↦ rw (missing, cancel_action) (same_registry v refl refl)
  | inr (q, found) ↦ elim (Bool-cases (is_pending q.status)) [
    | inl pend ↦
        let act = v.pending_active id q found pend in
        rw (found, pend, cancel_action)
          (end-Keeps id q (record q { status = cancelled }) v found pend refl
            (λ j. lookup-insert id j (record q { status = cancelled }) c.actions)
            (rw (act, ==_self id)))
    | inr settled ↦ rw (found, settled, cancel_action) (same_registry v refl refl)
  ]
]
