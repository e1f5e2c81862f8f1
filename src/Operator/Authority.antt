-- ===== src/Operator/Authority.antt =====
-- What the approval tool of zen_ma2_agent/operator_api.py may do to the state of its owner, and the tool over
-- the `AgentCore` of core.py, as field_host.py connects them.
use Prim.Native.String.{String}
use zen_ma2_agent.Prelude.{
  ◌≡◌, sym, ◌∙◌, ap, ◌⊎◌, inl, inr, Bool, true, false, Option, none, some, [], ◌∷◌, Bool-cases,
  Option-cases, some_inj, Result-cases, Result, ok, raise,
}
use zen_ma2_agent.Prelude.Eq.{string_eq}
use zen_ma2_agent.Prelude.Dict.{lookup}
use zen_ma2_agent.Json.{Value, bool, null, str, Fields, get, has_exactly}
use zen_ma2_agent.Agent.{ActionRecord, AgentCore}
use zen_ma2_agent.Agent.Approve.{Console, AgentError, is_dangerous, gates, approve_action}
use zen_ma2_agent.Agent.Gates.{gates_iff, approve_action-refused}
use zen_ma2_agent.Operator.Status.{optional_bounded_text}
use zen_ma2_agent.Operator.Payload.{within}
use zen_ma2_agent.Operator.Invoke.{
  rejected, not_implemented, result_of, ToolResult, OperatorError, bad_request_id, Handler,
  OperatorAdapter, no_handler, reject, succeed, call, bounded_id, as_bool, approve, invoke_tool,
  payload_within_limit, or_empty, invoke,
}

-- The call `invoke "zen.approve"`, up to the payload's own checks.
invoke-approve :
    {S : Type 0} (a : OperatorAdapter S) (payload : Option Fields) (rid : Option String) (s : S)
    → ((r : Result OperatorError ToolResult) × (invoke a "zen.approve" payload rid s ≡ (r, s)))
      ⊎ ((out : Option String) × (payload_within_limit a (or_empty payload) ≡ true)
          × (invoke a "zen.approve" payload rid s
              ≡ approve "zen.approve" a.approve_handler (or_empty payload) out s))
unfolding invoke invoke_tool reject
invoke-approve a payload rid s = elim (Result-cases (optional_bounded_text rid 128)) [
  | inr (e, bad) ↦ inl (raise (bad_request_id e), rw bad)
  | inl (out, good) ↦ elim (Bool-cases (payload_within_limit a (or_empty payload))) [
    | inr large ↦ inl (
      ok (result_of "zen.approve" rejected null (some "PAYLOAD_INVALID_OR_TOO_LARGE") out),
      rw good (rw large),
    )
    | inl small ↦ inr (out, small, rw good (rw small))
  ]
]

-- What the approval tool needs of its payload, and what it then calls: the handler at the identifier and
-- the confirmation of the payload.
approve-success :
    {S : Type 0} (a : OperatorAdapter S) (p : Fields) (rid : Option String) (s : S)
    → ((r : ToolResult) × (approve "zen.approve" a.approve_handler p rid s ≡ (ok r, s)))
      ⊎ ((h : String → Bool → Handler S) × (id : String) × (danger : Bool) × (a.approve_handler
            ≡ some h)
          × (has_exactly ("action_id" ∷ "danger_confirmed" ∷ []) p ≡ true)
          × (bounded_id (get "action_id" p) ≡ some id)
          × (as_bool (get "danger_confirmed" p) ≡ some danger)
          × (approve "zen.approve" a.approve_handler p rid s
              ≡ call "zen.approve" rid (h id danger) s))
unfolding approve no_handler reject
approve-success a p rid s = elim (Option-cases a.approve_handler) [
  | inl missing ↦ inl (result_of "zen.approve" not_implemented null none rid, rw (missing, approve))
  | inr (h, given) ↦ elim (Bool-cases (has_exactly ("action_id" ∷ "danger_confirmed" ∷ []) p)) [
    | inr other ↦ inl (
      result_of "zen.approve" rejected null (some "INVALID_ARGUMENTS") rid,
      rw (given, approve) (rw other),
    )
    | inl exact ↦ elim (Option-cases (bounded_id (get "action_id" p))) [
      | inl missing ↦ inl (
        result_of "zen.approve" rejected null (some "INVALID_ACTION_ID") rid,
        rw (given, approve) (rw (exact, missing)),
      )
      | inr (id, found) ↦ elim (Option-cases (as_bool (get "danger_confirmed" p))) [
        | inl bad ↦ inl (
          result_of "zen.approve" rejected null (some "INVALID_DANGER_CONFIRMED") rid,
          rw (given, approve) (rw (exact, found, bad)),
        )
        | inr (danger, good) ↦ inr (
          h,
          id,
          danger,
          given,
          exact,
          found,
          good,
          rw (given, approve) (rw (exact, found, good)),
        )
      ]
    ]
  ]
]

bounded_id_lem :
    (v : Option Value) (id : String)
    → bounded_id v ≡ some id
    → (v ≡ some (str id)) × (within 128 id ≡ true)
bounded_id_lem none id h = absurd (cc h)
bounded_id_lem (some (str s)) id h = elim (Bool-cases (within 128 s)) [
  | inl short ↦
      let same : s ≡ id = some_inj (rw short at h) in
      (ap (λ t. some (str t)) same, rw (sym same) short)
  | inr long ↦ absurd (cc (rw long at h))
]
bounded_id_lem (some _) id h = absurd (cc h)

as_bool_lem : (v : Option Value) (b : Bool) → as_bool v ≡ some b → v ≡ some (bool b)
as_bool_lem none b h = absurd (cc h)
as_bool_lem (some (bool c)) b h = ap (λ x. some (bool x)) (some_inj h)
as_bool_lem (some _) b h = absurd (cc h)

-- The approval tool changes the state only through its handler, called once at an identifier of 1 to 128
-- characters and a Boolean that the payload, of the allowed size, holds under its only two keys.
pub invoke-approve_authority :
    {S : Type 0} (a : OperatorAdapter S) (payload : Option Fields) (rid : Option String) (s : S)
    → ((invoke a "zen.approve" payload rid s).1 ≡ s)
      ⊎ ((h : String → Bool → Handler S) × (id : String) × (danger : Bool) × (out : Option String)
          × (a.approve_handler ≡ some h)
          × (payload_within_limit a (or_empty payload) ≡ true)
          × (has_exactly ("action_id" ∷ "danger_confirmed" ∷ []) (or_empty payload) ≡ true)
          × (get "action_id" (or_empty payload) ≡ some (str id))
          × (within 128 id ≡ true)
          × (get "danger_confirmed" (or_empty payload) ≡ some (bool danger))
          × (invoke a "zen.approve" payload rid s ≡ call "zen.approve" out (h id danger) s))
invoke-approve_authority a payload rid s = elim (invoke-approve a payload rid s) [
  | inl (r, same) ↦ inl (ap (λ x. x.1) same)
  | inr (out, small, run) ↦ elim (approve-success a (or_empty payload) out s) [
    | inl (r, same) ↦ inl (ap (λ x. x.1) (run ∙ same))
    | inr (h, id, danger, given, exact, found, good, calls) ↦
        let (text, short) = bounded_id_lem (get "action_id" (or_empty payload)) id found in
        inr (
          h,
          id,
          danger,
          out,
          given,
          small,
          exact,
          text,
          short,
          as_bool_lem (get "danger_confirmed" (or_empty payload)) danger good,
          run ∙ calls,
        )
  ]
]

-- `approve_handler` of field_host.py: the method of the core. `view` is the dictionary that it returns and
-- `message` the text of what it raises.
unfoldable pub core_approve :
    (k : Console) (view : String → Fields) (message : AgentError → String)
    → String
    → Bool
    → Handler AgentCore
core_approve k view message id danger c =
    let (r, c') = approve_action k id danger c in
    (elim r [ ok text ↦ ok (view text) | raise e ↦ raise (message e) ], c')

core_approve-unconfirmed :
    (k : Console) (view : String → Fields) (message : AgentError → String) (id : String)
    (c : AgentCore) (r : ActionRecord)
    → lookup id c.actions ≡ some r
    → is_dangerous r.workflow.safety ≡ true
    → (core_approve k view message id false c).1 ≡ c
unfolding core_approve
core_approve-unconfirmed k view message id c r found danger =
    elim (Result-cases (gates k id false c)) [
      | inr (e, bad) ↦ ap (λ x. x.1) (approve_action-refused k id false c e bad)
      | inl ((q, skill, intent), good) ↦
          let (same, _, _, _, _, safe) = (gates_iff k id false c q skill intent).0 good in
          let e : r ≡ q = some_inj (sym found ∙ same) in absurd (cc (danger, rw (sym e) at safe))
    ]

call-state :
    {S : Type 0} (tool : String) (rid : Option String) (h : Handler S) (s : S)
    → (call tool rid h s).1 ≡ (h s).1
unfolding call succeed
call-state tool rid h s = elim (Result-cases (h s).0) [
  | inl (d, good) ↦ rw (good, call)
  | inr (e, bad) ↦ rw (bad, call)
]

-- Over the core, an approval tool call that names a dangerous plan and does not confirm the danger leaves
-- the whole core as it was, so nothing is sent.
pub invoke-approve_unconfirmed :
    (a : OperatorAdapter AgentCore) (k : Console) (view : String → Fields)
    (message : AgentError → String) (payload : Fields) (rid : Option String) (id : String)
    (c : AgentCore) (r : ActionRecord)
    → a.approve_handler ≡ some (core_approve k view message)
    → get "action_id" payload ≡ some (str id)
    → get "danger_confirmed" payload ≡ some (bool false)
    → lookup id c.actions ≡ some r
    → is_dangerous r.workflow.safety ≡ true
    → (invoke a "zen.approve" (some payload) rid c).1 ≡ c
invoke-approve_unconfirmed a k view message payload rid id c r given named unconfirmed found
      danger =
    elim (invoke-approve_authority a (some payload) rid c) [
      | inl same ↦ same
      | inr (h, i, d, out, given', _, _, named', _, flag, run) ↦
          let handler : core_approve k view message ≡ h = some_inj (sym given ∙ given') in
          let same_id : id ≡ i = cc (sym named ∙ named') in
          let no : false ≡ d = cc (sym unconfirmed ∙ flag) in
          ap (λ x. x.1) run
          ∙ (call-state "zen.approve" out (h i d) c
              ∙ (rw (sym handler, sym same_id, sym no)
                  (core_approve-unconfirmed k view message id c r found danger)))
    ]
