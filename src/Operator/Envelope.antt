-- ===== src/Operator/Envelope.antt =====
-- The answers of the single tools of zen_ma2_agent/operator_api.py have the shape of their status.
use Prim.Native.String.{String, count}
use zen_ma2_agent.Prelude.{
  ◌≡◌, refl, false, inl, inr, Bool, true, ◌||◌, Option, none, some, List, [], ◌∷◌, is_some,
  Bool-cases, Option-cases, Result-cases, Result, ok, raise, ltb,
}
use zen_ma2_agent.Prelude.Eq.{string_eq}
use zen_ma2_agent.Json.{null, Fields, get, has_exactly, as_str, as_dict}
use zen_ma2_agent.Operator.Status.{OperatorStatusSnapshot, snapshot_to_dict}
use zen_ma2_agent.Operator.Payload.{exact_keys, is_blank}
use zen_ma2_agent.Operator.Invoke.{
  success, rejected, not_implemented, ToolResult, OperatorError, unknown_tool, bad_request_id,
  Handler, Outcome, result_of, no_handler, reject, succeed, call, design_request, exact_call,
  semantic_bindings, asking, optional_id, preview, bounded_id, as_bool, approve, department_preview,
  status_tool, is_empty,
}

-- What a tool raises comes from a handler or from the snapshot of a provider.
abbrev pub Raised : (present : Bool) → OperatorError → Type 0
Raised present (unknown_tool _) = ⊥
Raised present (bad_request_id _) = ⊥
Raised present _ = present ≡ true

module _ {S : Type 0} where
  -- A success has no error and comes from a handler. A refusal has an error and no result, a missing handler
  -- neither, and both leave the state.
  abbrev pub Shape : (before after : S) → (present : Bool) → ToolResult → Type 0
  Shape s s' present r = elim r.status [
    | success ↦ (r.error ≡ none) × (present ≡ true)
    | rejected ↦ (r.result ≡ null) × (is_some r.error ≡ true) × (s' ≡ s)
    | not_implemented ↦ (r.result ≡ null) × (r.error ≡ none) × (s' ≡ s) × (present ≡ false)
  ]

  abbrev pub Envelope : String → Option String → S → (present : Bool) → Outcome S → Type 0
  Envelope tool rid s present out = elim out.0 [
    | raise e ↦ Raised present e
    | ok r ↦ (r.tool ≡ tool) × (r.request_id ≡ rid) × Shape s out.1 present r
  ]

  module _ (tool : String) (rid : Option String) (s : S) where
    pub no_handler-Envelope : Envelope tool rid s false (no_handler tool rid s)
    unfolding no_handler result_of
    no_handler-Envelope = (refl, refl, (refl, refl, refl, refl))

    pub reject-Envelope :
        (present : Bool) (code : String) → Envelope tool rid s present (reject tool code rid s)
    unfolding reject result_of
    reject-Envelope present code = (refl, refl, (refl, refl, refl))

    pub call-Envelope : (h : Handler S) → Envelope tool rid s true (call tool rid h s)
    unfolding call succeed result_of
    call-Envelope h = elim (Result-cases (h s).0) [
      | inl (d, good) ↦ rw (good, call) (refl, refl, (refl, refl))
      | inr (e, bad) ↦ rw (bad, call) refl
    ]

    pub design_request-Envelope :
        (h : Option (String → Handler S)) (p : Fields)
        → Envelope tool rid s (is_some h) (design_request tool h p rid s)
    unfolding design_request
    design_request-Envelope none p = no_handler-Envelope
    design_request-Envelope (some h) p = elim (Bool-cases (exact_keys p ("request" ∷ []))) [
      | inr more ↦ rw more (reject-Envelope true "UNEXPECTED_ARGUMENT")
      | inl exact ↦ elim (Option-cases (as_str (get "request" p))) [
        | inl missing ↦ rw (exact, missing) (reject-Envelope true "INVALID_REQUEST")
        | inr (r, found) ↦ elim (Bool-cases (is_blank r || ltb 2048 (count r))) [
          | inl bad ↦ rw (exact, found) (rw bad (reject-Envelope true "INVALID_REQUEST"))
          | inr good ↦ rw (exact, found) (rw good (call-Envelope (h r)))
        ]
      ]
    ]

    pub exact_call-Envelope :
        (required : List String) (types : Fields → Bool) (h : Option (Fields → Handler S))
        (p : Fields)
        → Envelope tool rid s (is_some h) (exact_call tool required types h p rid s)
    unfolding exact_call
    exact_call-Envelope required types none p = no_handler-Envelope
    exact_call-Envelope required types (some h) p = elim (Bool-cases (has_exactly required p)) [
      | inr other ↦ rw other (reject-Envelope true "INVALID_ARGUMENTS")
      | inl exact ↦ elim (Bool-cases (types p)) [
        | inr bad ↦ rw (exact, bad) (reject-Envelope true "INVALID_ARGUMENTS")
        | inl good ↦ rw (exact, good) (call-Envelope (h p))
      ]
    ]

    pub semantic_bindings-Envelope :
        (h : Option (Handler S)) (p : Fields)
        → Envelope tool rid s (is_some h) (semantic_bindings tool h p rid s)
    unfolding semantic_bindings
    semantic_bindings-Envelope none p = no_handler-Envelope
    semantic_bindings-Envelope (some h) p = elim (Bool-cases (is_empty p)) [
      | inl empty ↦ rw empty (call-Envelope h)
      | inr more ↦ rw more (reject-Envelope true "UNEXPECTED_ARGUMENT")
    ]

    pub preview-Envelope :
        (h : Option (Option String → Handler S)) (p : Fields)
        → Envelope tool rid s (is_some h) (preview tool h p rid s)
    unfolding preview
    preview-Envelope none p = no_handler-Envelope
    preview-Envelope (some h) p = elim (Bool-cases (exact_keys p ("action_id" ∷ []))) [
      | inr more ↦ rw more (reject-Envelope true "UNEXPECTED_ARGUMENT")
      | inl exact ↦ elim (Option-cases (optional_id (get "action_id" p))) [
        | inl missing ↦ rw (exact, missing) (reject-Envelope true "INVALID_ACTION_ID")
        | inr (id, found) ↦ rw (exact, found) (call-Envelope (h id))
      ]
    ]

    pub approve-Envelope :
        (h : Option (String → Bool → Handler S)) (p : Fields)
        → Envelope tool rid s (is_some h) (approve tool h p rid s)
    unfolding approve
    approve-Envelope none p = no_handler-Envelope
    approve-Envelope (some h) p =
        elim (Bool-cases (has_exactly ("action_id" ∷ "danger_confirmed" ∷ []) p)) [
          | inr other ↦ rw other (reject-Envelope true "INVALID_ARGUMENTS")
          | inl exact ↦ elim (Option-cases (bounded_id (get "action_id" p))) [
            | inl missing ↦ rw (exact, missing) (reject-Envelope true "INVALID_ACTION_ID")
            | inr (id, found) ↦ elim (Option-cases (as_bool (get "danger_confirmed" p))) [
              | inl bad ↦ rw (exact, found, bad) (reject-Envelope true "INVALID_DANGER_CONFIRMED")
              | inr (danger, good) ↦ rw (exact, found, good) (call-Envelope (h id danger))
            ]
          ]
        ]

    pub department_preview-Envelope :
        (h : Option (String → String → Fields → Handler S)) (p : Fields)
        → Envelope tool rid s (is_some h) (department_preview tool h p rid s)
    unfolding department_preview
    department_preview-Envelope none p = no_handler-Envelope
    department_preview-Envelope (some h) p =
        elim (Bool-cases (has_exactly ("adapter_id" ∷ "tool_name" ∷ "arguments" ∷ []) p)) [
          | inr other ↦ rw other (reject-Envelope true "INVALID_ARGUMENTS")
          | inl exact ↦ elim (Option-cases (bounded_id (get "adapter_id" p))) [
            | inl missing ↦ rw (exact, missing) (reject-Envelope true "INVALID_ARGUMENTS")
            | inr (id, found) ↦ elim (Option-cases (bounded_id (get "tool_name" p))) [
              | inl missing ↦ rw (exact, found, missing) (reject-Envelope true "INVALID_ARGUMENTS")
              | inr (remote, named) ↦ elim (Option-cases (as_dict (get "arguments" p))) [
                | inl bad ↦ rw (exact, found, named, bad) (reject-Envelope true "INVALID_ARGUMENTS")
                | inr (args, good) ↦
                    rw (exact, found, named, good) (call-Envelope (h id remote args))
              ]
            ]
          ]
        ]

    pub asking-Envelope :
        (h : Option (Handler S)) → Envelope tool rid s (is_some h) (asking tool h rid s)
    unfolding asking
    asking-Envelope none = no_handler-Envelope
    asking-Envelope (some h) = call-Envelope h

    pub status_tool-Envelope :
        (provider : S → Result String OperatorStatusSnapshot × S)
        → Envelope tool rid s true (status_tool provider tool rid s)
    unfolding status_tool succeed result_of
    status_tool-Envelope provider = elim (Result-cases (provider s).0) [
      | inr (e, bad) ↦ rw (bad, status_tool) refl
      | inl (snapshot, taken) ↦ elim (Result-cases (snapshot_to_dict snapshot)) [
        | inl (d, good) ↦ rw (taken, good, status_tool) (refl, refl, (refl, refl))
        | inr (e, bad) ↦ rw (taken, bad, status_tool) refl
      ]
    ]
