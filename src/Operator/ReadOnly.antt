-- ===== src/Operator/ReadOnly.antt =====
-- The read-only tools of zen_ma2_agent/operator_api.py call no handler that proposes, binds, navigates or approves.
use Prim.Native.String.{String}
use mathlib.Core.Path.{subst}
use zen_ma2_agent.Prelude.{
  ◌≡◌, refl, inl, inr, true, false, Option, none, List, Bool-cases, Result-cases,
}
use zen_ma2_agent.Prelude.Eq.{◌==◌, string_eq, member, ==_true}
use zen_ma2_agent.Json.{Fields}
use zen_ma2_agent.Operator.Status.{optional_bounded_text}
use zen_ma2_agent.Operator.Invoke.{
  OperatorAdapter, invoke_plain, invoke_tool, payload_within_limit, or_empty, invoke, allowed_tools,
  read_only_tools, reserved_tools, is_empty,
}

-- A name that is not in a list is no element of it.
other_tool :
    (tool name : String) (tools : List String)
    → member tool tools ≡ true
    → member name tools ≡ false
    → (tool == name) ≡ false
other_tool tool name tools h n = elim (Bool-cases (tool == name)) [
  | inr other ↦ other
  | inl same ↦ absurd (cc (n, subst (λ t. member t tools ≡ true) (==_true tool name same) h))
]

module _ {S : Type 0} (a : OperatorAdapter S) where
  -- The adapter with the providers of the read-only tools alone.
  abbrev pub reads_only : OperatorAdapter S
  reads_only = record a {
    stage_visual_provider = none;
    design_request_handler = none;
    preview_handler = none;
    approve_handler = none;
    position_preview_handler = none;
    raw_position_preview_handler = none;
    position_calibration_preview_handler = none;
    semantic_position_bind_handler = none;
    department_preview_handler = none;
  }

  module _ (tool : String) (known : member tool read_only_tools ≡ true) (rid : Option String)
      (s : S) where
    not_named : (name : String) → member name read_only_tools ≡ false → (tool == name) ≡ false
    not_named name n = other_tool tool name read_only_tools known n

    plain_same : invoke_plain a tool rid s ≡ invoke_plain reads_only tool rid s
    unfolding invoke_plain
    plain_same = elim (Bool-cases (tool == "zen.department.status")) [
      | inl e ↦ rw e
      | inr e1 ↦ elim (Bool-cases (tool == "zen.watchdog.status")) [
        | inl e ↦ rw (e1, e)
        | inr e2 ↦ elim (Bool-cases (tool == "zen.host.status")) [
          | inl e ↦ rw (e1, e2, e)
          | inr e3 ↦ elim (Bool-cases (tool == "zen.ma.visual")) [
            | inl e ↦ rw (e1, e2, e3, e)
            | inr e4 ↦ rw (e1, e2, e3, e4, not_named "zen.ma.stage.visual" refl)
          ]
        ]
      ]
    ]

    tool_same : (p : Fields) → invoke_tool a tool p rid s ≡ invoke_tool reads_only tool p rid s
    unfolding invoke_tool
    tool_same p =
        rw
          (
            not_named "zen.design.request" refl,
            not_named "zen.position.preview" refl,
            not_named "zen.position.raw.preview" refl,
            not_named "zen.position.calibration.preview" refl,
          )
          (elim (Bool-cases (tool == "zen.position.semantic.bindings")) [
            | inl e ↦ rw e
            | inr e ↦
                rw
                  (
                    e,
                    not_named "zen.position.semantic.bind" refl,
                    not_named "zen.preview" refl,
                    not_named "zen.approve" refl,
                    not_named "zen.department.preview" refl,
                  )
                  (elim (Bool-cases (is_empty p)) [
                    | inr more ↦ rw more
                    | inl bare ↦ elim (Bool-cases (member tool reserved_tools)) [
                      | inl kept ↦ rw (bare, kept)
                      | inr plain ↦ rw (bare, plain) plain_same
                    ]
                  ])
          ])

  -- A read-only tool answers, and leaves the state, as if there were no handler for a design request, a
  -- preview, a binding, an approval or a view of the stage: whatever those handlers do, it calls none.
  pub invoke-read_only :
      (tool : String) (payload : Option Fields) (rid : Option String) (s : S)
      → member tool read_only_tools ≡ true
      → invoke a tool payload rid s ≡ invoke reads_only tool payload rid s
  unfolding invoke payload_within_limit
  invoke-read_only tool payload rid s known = elim (Bool-cases (member tool allowed_tools)) [
    | inr other ↦ rw other
    | inl allowed ↦ elim (Result-cases (optional_bounded_text rid 128)) [
      | inr (e, bad) ↦ rw (allowed, bad)
      | inl (out, good) ↦ elim (Bool-cases (payload_within_limit a (or_empty payload))) [
        | inr large ↦ rw (allowed, good) (rw large)
        | inl small ↦ rw (allowed, good) (rw small (tool_same tool known out s (or_empty payload)))
      ]
    ]
  ]
