-- ===== src/Agent/Lifecycle.antt =====
-- The registry of core.py: what holds of the pending action, and what cancelling the previous one does.
use Prim.Native.String.{String}
use mathlib.Core.Path.{subst}
use zen_ma2_agent.Prelude.{
  ◌≡◌, sym, ◌∙◌, ap, ◌≢◌, ◌⊎◌, inl, inr, Bool, true, false, none, some, arith, Option-cases,
  some_inj,
}
use zen_ma2_agent.Prelude.Eq.{string_eq, ==_ne}
use zen_ma2_agent.Prelude.Dict.{
  Dict, lookup, insert, lookup-insert_self, lookup-insert_ne, lookup-insert_cases,
}
use zen_ma2_agent.Agent.{cancelled, ActionRecord, AgentCore}
use zen_ma2_agent.Agent.Queue.{is_pending, cancel_previous}

-- The active action is the one that waits for approval.
pub record IsValid (c : AgentCore) : Type 0 where
  pub pending_active :
      (i : String) (r : ActionRecord)
      → lookup i c.actions ≡ some r
      → is_pending r.status ≡ true
      → c.active_action_id ≡ some i
  pub active_pending :
      (i : String)
      → c.active_action_id ≡ some i
      → (i ≢ "") × (r : ActionRecord) × (lookup i c.actions ≡ some r) × (is_pending r.status ≡ true)

-- At most one action waits for approval.
pub pending_unique :
    {c : AgentCore} (i j : String) {q r : ActionRecord}
    → IsValid c
    → lookup i c.actions ≡ some q
    → is_pending q.status ≡ true
    → lookup j c.actions ≡ some r
    → is_pending r.status ≡ true
    → i ≡ j
pending_unique i j {q} {r} v hi pi hj pj =
    cc (v.pending_active i q hi pi, v.pending_active j r hj pj)

pending_not :
    (q r : ActionRecord) → some q ≡ some r → is_pending q.status ≡ true → is_pending r.status ≡ true
pending_not q r e p = subst (λ (x : ActionRecord). is_pending x.status ≡ true) (some_inj e) p

pub clash :
    (id i : String) (actions : Dict String ActionRecord) (q r : ActionRecord)
    → lookup id actions ≡ some q
    → is_pending q.status ≡ true
    → lookup i actions ≡ some r
    → is_pending r.status ≡ false
    → id ≢ i
clash id i actions q r found pend h p same =
    let eq : some q ≡ some r = sym found ∙ (rw same h) in
    let bad = pending_not q r eq pend in cc (bad, p)

module _ (when : ActionRecord → Bool) where
  cancel_previous-some :
      (id : String) (q : ActionRecord) (actions : Dict String ActionRecord)
      → id ≢ ""
      → lookup id actions ≡ some q
      → when q ≡ true
      → cancel_previous when (some id) actions ≡ insert id (record q { status = cancelled }) actions
  unfolding cancel_previous
  cancel_previous-some id q actions ne found w = ground (arith, ==_ne id "" ne)

  -- What the cancellation of the predecessor does, where `when` holds of every pending action.
  cancel_previous_cases :
      ((r : ActionRecord) → is_pending r.status ≡ true → when r ≡ true)
      → {c : AgentCore} (v : IsValid c)
      → ((c.active_action_id ≡ none)
          × (cancel_previous when c.active_action_id c.actions ≡ c.actions))
        ⊎ ((id : String) × (q : ActionRecord) × (c.active_action_id ≡ some id)
            × (lookup id c.actions ≡ some q)
            × (is_pending q.status ≡ true)
            × (cancel_previous when c.active_action_id c.actions
                ≡ insert id (record q { status = cancelled }) c.actions))
  unfolding cancel_previous
  cancel_previous_cases w {c} v = elim (Option-cases c.active_action_id) [
    | inl e ↦ inl (e, rw (e, cancel_previous))
    | inr (id, e) ↦
        let (ne, q, found, pend) = v.active_pending id e in
        inr (
          id,
          q,
          e,
          found,
          pend,
          ap (λ a. cancel_previous when a c.actions) e
              ∙ cancel_previous-some id q c.actions ne found (w q pend),
        )
  ]

  -- After the predecessor is cancelled nothing is pending.
  pub none_pending :
      ((r : ActionRecord) → is_pending r.status ≡ true → when r ≡ true)
      → {c : AgentCore} (v : IsValid c) (i : String) (r : ActionRecord)
      → lookup i (cancel_previous when c.active_action_id c.actions) ≡ some r
      → is_pending r.status ≡ true
      → ⊥
  none_pending w {c} v i r h p = elim (cancel_previous_cases w v) [
    | inl (e, same) ↦ cc (v.pending_active i r (rw same at h) p)
    | inr (id, q, e, found, pend, new) ↦
        elim (lookup-insert_cases id i (record q { status = cancelled }) r c.actions
          (rw new at h)) [
            | inl (_, same) ↦
                let bad = subst (λ (x : ActionRecord). is_pending x.status ≡ true) (sym same) p in
                cc bad
            | inr (other, old) ↦ let now = v.pending_active i r old p in absurd (other (cc))
          ]
  ]

  -- The cancellation leaves the record of an action that is not pending.
  pub not_pending_kept :
      ((r : ActionRecord) → is_pending r.status ≡ true → when r ≡ true)
      → {c : AgentCore} (v : IsValid c) (i : String) (r : ActionRecord)
      → lookup i c.actions ≡ some r
      → is_pending r.status ≡ false
      → lookup i (cancel_previous when c.active_action_id c.actions) ≡ some r
  not_pending_kept w {c} v i r h p = elim (cancel_previous_cases w v) [
    | inl (e, same) ↦ rw same h
    | inr (id, q, e, found, pend, new) ↦ rw new (
        rw
          (lookup-insert_ne id i (record q { status = cancelled }) c.actions
            (clash id i c.actions q r found pend h p))
          h)
  ]

-- A core whose active action is the new record at `fresh`, the one pending action.
pub installed :
    (when : ActionRecord → Bool)
    → ((r : ActionRecord) → is_pending r.status ≡ true → when r ≡ true)
    → (c d : AgentCore) (fresh : String) (a : ActionRecord) → IsValid c
    → fresh ≢ ""
    → is_pending a.status ≡ true
    → d.actions ≡ insert fresh a (cancel_previous when c.active_action_id c.actions)
    → d.active_action_id ≡ some fresh
    → IsValid d
installed when w c d fresh a v ne p acts act = record {
  pending_active = λ i r h pend.
      elim (lookup-insert_cases fresh i a r (cancel_previous when c.active_action_id c.actions)
        (rw acts at h)) [
          | inl (same, _) ↦ rw act (ap some same)
          | inr (_, old) ↦ absurd (none_pending when w v i r old pend)
        ];
  active_pending = λ i e.
      let same : fresh ≡ i = some_inj (sym act ∙ e) in
      rw (sym same) (
        ne,
        a,
        rw acts (lookup-insert_self fresh a (cancel_previous when c.active_action_id c.actions)),
        p,
      );
}

-- A core that has no pending action left, where the only one there was is no longer pending.
pub retired :
    (c d : AgentCore) (id : String)
    → IsValid c
    → c.active_action_id ≡ some id
    → ((j : String) (r : ActionRecord)
        → lookup j d.actions ≡ some r
        → is_pending r.status ≡ true
        → (id ≢ j) × (lookup j c.actions ≡ some r))
    → d.active_action_id ≡ none
    → IsValid d
retired c d id v act back e = record {
  pending_active = λ i r h p.
      let (other, old) = back i r h p in
      absurd (other (some_inj (sym act ∙ v.pending_active i r old p)));
  active_pending = λ i h. absurd (cc (e, h));
}
