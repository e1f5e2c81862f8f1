-- ===== src/Operator/Answers.antt =====
-- Every call of `invoke` in zen_ma2_agent/operator_api.py: what it asks of the tool, of the identifier and of
-- the payload, and the shape of what it answers.
use Prim.Native.String.{String}
use zen_ma2_agent.Prelude.{◌≡◌, ◌⊎◌, false, Bool, true, Option, none, some, ok, raise}
use zen_ma2_agent.Prelude.Eq.{string_eq, member}
use zen_ma2_agent.Json.{Fields}
use zen_ma2_agent.Operator.Payload.{within}
use zen_ma2_agent.Operator.Invoke.{
  unknown_tool, bad_request_id, rejected, OperatorAdapter, Outcome, payload_within_limit, or_empty,
  allowed_tools,
}
use zen_ma2_agent.Operator.Envelope.{Shape, Envelope}
use zen_ma2_agent.Operator.Tools.{has_handler}

-- A text of 1 to 128 characters, or none.
abbrev pub fits : Option String → Bool
fits none = true
fits (some r) = within 128 r

module _ {S : Type 0} (a : OperatorAdapter S) (tool : String) (payload : Option Fields)
    (rid : Option String) (s : S) where
  -- What a call that returns or raises tells of its arguments, and what it returns.
  abbrev pub Answered : Outcome S → Type 0
  Answered out = elim out.0 [
    | raise e ↦ elim e [
      | unknown_tool t ↦ (t ≡ tool) × (member tool allowed_tools ≡ false) × (out.1 ≡ s)
      | bad_request_id _ ↦ (member tool allowed_tools ≡ true) × (fits rid ≡ false) × (out.1 ≡ s)
      | _ ↦
          (member tool allowed_tools ≡ true)
          × (fits rid ≡ true)
          × (payload_within_limit a (or_empty payload) ≡ true)
          × (has_handler tool a ≡ true)
    ]
    | ok r ↦
        (member tool allowed_tools ≡ true)
        × (fits rid ≡ true)
        × (r.tool ≡ tool)
        × (r.request_id ≡ rid)
        × ((r.status ≡ rejected) ⊎ (payload_within_limit a (or_empty payload) ≡ true))
        × Shape s out.1 (has_handler tool a) r
  ]
