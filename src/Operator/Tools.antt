-- ===== src/Operator/Tools.antt =====
-- The chain of tools of `invoke` in zen_ma2_agent/operator_api.py: which have a handler, and that each answers in the
-- shape of its status.
use Prim.Native.String.{String}
use zen_ma2_agent.Prelude.{
  ◌≡◌, sym, false, inl, inr, Bool, true, not, Option, is_some, if◌then◌else◌, Bool-cases,
}
use zen_ma2_agent.Prelude.Eq.{◌==◌, string_eq, member, ==_ne, ==_false}
use zen_ma2_agent.Json.{Fields}
use zen_ma2_agent.Operator.Payload.{
  preset_keys, preset_types, raw_keys, raw_types, bind_keys, bind_types,
}
use zen_ma2_agent.Operator.Invoke.{
  OperatorAdapter, no_handler, reject, exact_call, semantic_bindings, preview, approve,
  department_preview, invoke_plain, invoke_tool, reserved_tools, is_empty,
}
use zen_ma2_agent.Operator.Envelope.{
  Envelope, reject-Envelope, design_request-Envelope, exact_call-Envelope,
  semantic_bindings-Envelope, preview-Envelope, approve-Envelope, department_preview-Envelope,
  asking-Envelope, status_tool-Envelope,
}

not_equal : (a b : String) → (a == b) ≡ false → (b == a) ≡ false
not_equal a b other = ==_ne b a (λ same. ==_false a b other (sym same))

-- A tool that is none of the reserved ones.
not_reserved :
    (tool : String)
    → (tool == "zen.design.request") ≡ false
    → (tool == "zen.position.preview") ≡ false
    → (tool == "zen.position.raw.preview") ≡ false
    → (tool == "zen.position.calibration.preview") ≡ false
    → (tool == "zen.position.semantic.bind") ≡ false
    → (tool == "zen.preview") ≡ false
    → (tool == "zen.approve") ≡ false
    → (tool == "zen.department.preview") ≡ false
    → member tool reserved_tools ≡ false
not_reserved tool a b c d e f g h = rw (
  not_equal tool _ a,
  not_equal tool _ b,
  not_equal tool _ c,
  not_equal tool _ d,
  not_equal tool _ e,
  not_equal tool _ f,
  not_equal tool _ g,
  not_equal tool _ h,
)

module _ {S : Type 0} (tool : String) (a : OperatorAdapter S) where
  -- Whether a tool has what it calls.
  unfoldable pub plain_handler : Bool
  plain_handler =
      if tool == "zen.department.status"
      then is_some a.department_status_provider
      else if tool == "zen.watchdog.status"
      then is_some a.watchdog_provider
      else if tool == "zen.host.status"
      then is_some a.host_status_provider
      else if tool == "zen.ma.visual"
      then is_some a.visual_observation_provider
      else if tool == "zen.ma.stage.visual"
      then is_some a.stage_visual_provider
      else true

  unfoldable late_handler : Bool
  unfolding plain_handler
  late_handler =
      if tool == "zen.position.semantic.bindings"
      then is_some a.semantic_position_bindings_handler
      else if tool == "zen.position.semantic.bind"
      then is_some a.semantic_position_bind_handler
      else if tool == "zen.preview"
      then is_some a.preview_handler
      else if tool == "zen.approve"
      then is_some a.approve_handler
      else if tool == "zen.department.preview"
      then is_some a.department_preview_handler
      else plain_handler

  unfoldable pub has_handler : Bool
  unfolding late_handler
  has_handler =
      if tool == "zen.design.request"
      then is_some a.design_request_handler
      else if tool == "zen.position.preview"
      then is_some a.position_preview_handler
      else if tool == "zen.position.raw.preview"
      then is_some a.raw_position_preview_handler
      else if tool == "zen.position.calibration.preview"
      then is_some a.position_calibration_preview_handler
      else late_handler

module _ {S : Type 0} (tool : String) (rid : Option String) (s : S) (a : OperatorAdapter S) where
  invoke_plain-Envelope : Envelope tool rid s (plain_handler tool a) (invoke_plain a tool rid s)
  unfolding invoke_plain plain_handler
  invoke_plain-Envelope = elim (Bool-cases (tool == "zen.department.status")) [
    | inl e ↦ rw e (asking-Envelope tool rid s a.department_status_provider)
    | inr e1 ↦ elim (Bool-cases (tool == "zen.watchdog.status")) [
      | inl e ↦ rw (e1, e) (asking-Envelope tool rid s a.watchdog_provider)
      | inr e2 ↦ elim (Bool-cases (tool == "zen.host.status")) [
        | inl e ↦ rw (e1, e2, e) (asking-Envelope tool rid s a.host_status_provider)
        | inr e3 ↦ elim (Bool-cases (tool == "zen.ma.visual")) [
          | inl e ↦ rw (e1, e2, e3, e) (asking-Envelope tool rid s a.visual_observation_provider)
          | inr e4 ↦ elim (Bool-cases (tool == "zen.ma.stage.visual")) [
            | inl e ↦ rw (e1, e2, e3, e4, e) (asking-Envelope tool rid s a.stage_visual_provider)
            | inr e ↦ rw (e1, e2, e3, e4, e) (status_tool-Envelope tool rid s a.status_provider)
          ]
        ]
      ]
    ]
  ]

  module _ (p : Fields) where
    rest-Envelope :
        member tool reserved_tools ≡ false
        → Envelope tool rid s (plain_handler tool a) (
            (if not (is_empty p)
                then reject tool "UNEXPECTED_ARGUMENT" rid
                else if member tool reserved_tools
                then no_handler tool rid
                else invoke_plain a tool rid)
              s)
    rest-Envelope free = elim (Bool-cases (is_empty p)) [
      | inr more ↦ rw more (reject-Envelope tool rid s (plain_handler tool a) "UNEXPECTED_ARGUMENT")
      | inl none_given ↦ rw (none_given, free) invoke_plain-Envelope
    ]

    pub invoke_tool-Envelope : Envelope tool rid s (has_handler tool a) (invoke_tool a tool p rid s)
    unfolding invoke_tool has_handler late_handler
    invoke_tool-Envelope = elim (Bool-cases (tool == "zen.design.request")) [
      | inl e ↦ rw e (design_request-Envelope tool rid s a.design_request_handler p)
      | inr e1 ↦ elim (Bool-cases (tool == "zen.position.preview")) [
        | inl e ↦
            rw (e1, e)
              (exact_call-Envelope tool rid s preset_keys preset_types a.position_preview_handler p)
        | inr e2 ↦ elim (Bool-cases (tool == "zen.position.raw.preview")) [
          | inl e ↦
              rw (e1, e2, e)
                (exact_call-Envelope tool rid s raw_keys raw_types a.raw_position_preview_handler p)
          | inr e3 ↦ elim (Bool-cases (tool == "zen.position.calibration.preview")) [
            | inl e ↦
                rw (e1, e2, e3, e)
                  (exact_call-Envelope tool rid s raw_keys raw_types
                    a.position_calibration_preview_handler p)
            | inr e4 ↦ rw (e1, e2, e3, e4) (late e1 e2 e3 e4)
          ]
        ]
      ]
    ]
      where
        late :
            (tool == "zen.design.request") ≡ false
            → (tool == "zen.position.preview") ≡ false
            → (tool == "zen.position.raw.preview") ≡ false
            → (tool == "zen.position.calibration.preview") ≡ false
            → Envelope tool rid s (late_handler tool a) (
                (if tool == "zen.position.semantic.bindings"
                    then semantic_bindings tool a.semantic_position_bindings_handler p rid
                    else if tool == "zen.position.semantic.bind"
                    then exact_call tool bind_keys bind_types a.semantic_position_bind_handler p rid
                    else if tool == "zen.preview"
                    then preview tool a.preview_handler p rid
                    else if tool == "zen.approve"
                    then approve tool a.approve_handler p rid
                    else if tool == "zen.department.preview"
                    then department_preview tool a.department_preview_handler p rid
                    else if not (is_empty p)
                    then reject tool "UNEXPECTED_ARGUMENT" rid
                    else if member tool reserved_tools
                    then no_handler tool rid
                    else invoke_plain a tool rid)
                  s)
        late e1 e2 e3 e4 = elim (Bool-cases (tool == "zen.position.semantic.bindings")) [
          | inl e ↦
              rw e (semantic_bindings-Envelope tool rid s a.semantic_position_bindings_handler p)
          | inr e5 ↦ elim (Bool-cases (tool == "zen.position.semantic.bind")) [
            | inl e ↦
                rw (e5, e)
                  (exact_call-Envelope tool rid s bind_keys bind_types
                    a.semantic_position_bind_handler p)
            | inr e6 ↦ elim (Bool-cases (tool == "zen.preview")) [
              | inl e ↦ rw (e5, e6, e) (preview-Envelope tool rid s a.preview_handler p)
              | inr e7 ↦ elim (Bool-cases (tool == "zen.approve")) [
                | inl e ↦ rw (e5, e6, e7, e) (approve-Envelope tool rid s a.approve_handler p)
                | inr e8 ↦ elim (Bool-cases (tool == "zen.department.preview")) [
                  | inl e ↦
                      rw (e5, e6, e7, e8, e)
                        (department_preview-Envelope tool rid s a.department_preview_handler p)
                  | inr e ↦
                      rw (e5, e6, e7, e8, e)
                        (rest-Envelope (not_reserved tool e1 e2 e3 e4 e6 e7 e8 e))
                ]
              ]
            ]
          ]
        ]
