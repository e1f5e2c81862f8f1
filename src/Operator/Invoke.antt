-- ===== src/Operator/Invoke.antt =====
-- `OpenClawOperatorAdapter.invoke` of zen_ma2_agent/operator_api.py. Handlers and providers alike may read and
-- write the state `S` of their owner and may raise. The message of an error is left out; its code is kept.
use Prim.Native.Nat.{ℕ}
use Prim.Native.String.{String, count}
use zen_ma2_agent.Prelude.{
  Bool, true, false, not, ◌||◌, Option, none, some, List, [], ◌∷◌, ◌++◌, if◌then◌else◌, ltb, Result,
  ok, raise,
}
use zen_ma2_agent.Prelude.Eq.{◌==◌, string_eq, member}
use zen_ma2_agent.Json.{
  Value, null, bool, str, dict, Fields, end, field, get, has_exactly, as_str, as_dict,
}
use zen_ma2_agent.Operator.Status.{
  StatusError, OperatorStatusSnapshot, optional_bounded_text, snapshot_to_dict,
}
use zen_ma2_agent.Operator.Payload.{
  max_tool_payload_bytes, exact_keys, is_blank, within, raw_keys, preset_keys, bind_keys, raw_types,
  preset_types, bind_types,
}

abbrev pub read_only_tools : List String
read_only_tools =
    "zen.status" ∷ "zen.worker.status" ∷ "zen.ma.status" ∷ "zen.artifact.latest"
    ∷ "zen.watchdog.status" ∷ "zen.host.status" ∷ "zen.ma.visual" ∷ "zen.position.semantic.bindings"
    ∷ "zen.department.status" ∷ []

abbrev pub navigation_tools : List String
navigation_tools = "zen.ma.stage.visual" ∷ []

abbrev pub reserved_tools : List String
reserved_tools =
    "zen.design.request" ∷ "zen.position.preview" ∷ "zen.position.raw.preview"
    ∷ "zen.position.calibration.preview" ∷ "zen.position.semantic.bind" ∷ "zen.preview"
    ∷ "zen.approve" ∷ "zen.department.preview" ∷ []

abbrev pub allowed_tools : List String
allowed_tools = read_only_tools ++ navigation_tools ++ reserved_tools

pub data ToolStatus : Type 0 where
  success rejected not_implemented : ToolStatus

pub record ToolResult : Type 0 where
  pub tool : String
  pub status : ToolStatus
  pub result : Value
  pub error : Option String
  pub request_id : Option String

pub data OperatorError : Type 0 where
  unknown_tool : String → OperatorError
  bad_request_id : StatusError → OperatorError
  bad_status : StatusError → OperatorError
  handler_raised : String → OperatorError

unfoldable pub result_of : String → ToolStatus → Value → Option String → Option String → ToolResult
result_of tool status result error rid = record {
  tool = tool;
  status = status;
  result = result;
  error = error;
  request_id = rid;
}

abbrev pub is_empty : Fields → Bool
is_empty end = true
is_empty _ = false

-- `action_id is None`, or a text of 1 to 128 characters
abbrev pub optional_id : Option Value → Option (Option String)
optional_id none = some none
optional_id (some null) = some none
optional_id (some (str s)) = if within 128 s then some (some s) else none
optional_id _ = none

abbrev pub bounded_id : Option Value → Option String
bounded_id (some (str s)) = if within 128 s then some s else none
bounded_id _ = none

abbrev pub as_bool : Option Value → Option Bool
as_bool (some (bool b)) = some b
as_bool _ = none

at_or_null : String → Fields → Value
at_or_null k d = elim (get k d) [ none ↦ null | some v ↦ v ]

-- The part of the snapshot that a status tool shows.
unfoldable pub status_part : String → Fields → Value
unfolding at_or_null
status_part tool d =
    if tool == "zen.status"
    then dict d
    else if tool == "zen.worker.status"
    then dict (
        field "remote_ai_available" (at_or_null "remote_ai_available" d)
          (field "workers" (at_or_null "workers" d) end))
    else if tool == "zen.ma.status"
    then at_or_null "ma" d
    else at_or_null "latest_artifact" d

abbrev pub or_empty : Option Fields → Fields
or_empty none = end
or_empty (some p) = p

module _ (S : Type 0) where
  abbrev pub Handler : Type 0
  Handler = S → Result String Fields × S

  pub record OperatorAdapter : Type 0 where
    -- the length of the JSON text of a payload in bytes, where it has one
    pub json_length : Fields → Option ℕ
    pub status_provider : S → Result String OperatorStatusSnapshot × S
    pub watchdog_provider : Option Handler
    pub host_status_provider : Option Handler
    pub visual_observation_provider : Option Handler
    pub stage_visual_provider : Option Handler
    pub design_request_handler : Option (String → Handler)
    pub preview_handler : Option (Option String → Handler)
    pub approve_handler : Option (String → Bool → Handler)
    pub position_preview_handler : Option (Fields → Handler)
    pub raw_position_preview_handler : Option (Fields → Handler)
    pub position_calibration_preview_handler : Option (Fields → Handler)
    pub semantic_position_bindings_handler : Option Handler
    pub semantic_position_bind_handler : Option (Fields → Handler)
    pub department_status_provider : Option Handler
    pub department_preview_handler : Option (String → String → Fields → Handler)

  -- What a call returns or raises, and the state after it
  abbrev pub Outcome : Type 0
  Outcome = Result OperatorError ToolResult × S

module _ {S : Type 0} where
  unfoldable pub no_handler : String → Option String → S → Outcome S
  unfolding result_of
  no_handler tool rid s = (ok (result_of tool not_implemented null none rid), s)

  -- `_rejected`
  unfoldable pub reject : String → String → Option String → S → Outcome S
  unfolding result_of
  reject tool code rid s = (ok (result_of tool rejected null (some code) rid), s)

  unfoldable pub succeed : String → Value → Option String → S → Outcome S
  unfolding result_of
  succeed tool value rid s = (ok (result_of tool success value none rid), s)

  -- `self._result(tool_name, "SUCCESS", dict(handler(…)), None, request_id)`
  unfoldable pub call : String → Option String → Handler S → S → Outcome S
  unfolding succeed
  call tool rid h s =
      let (r, s') = h s in
      elim r [ raise e ↦ (raise (handler_raised e), s') | ok d ↦ succeed tool (dict d) rid s' ]

  unfoldable pub design_request :
      String → Option (String → Handler S) → Fields → Option String → S → Outcome S
  unfolding no_handler reject call exact_keys is_blank
  design_request tool none p rid = no_handler tool rid
  design_request tool (some h) p rid =
      if not (exact_keys p ("request" ∷ []))
      then reject tool "UNEXPECTED_ARGUMENT" rid
      else elim (as_str (get "request" p)) [
        | none ↦ reject tool "INVALID_REQUEST" rid
        | some request ↦
            if is_blank request || ltb 2048 (count request)
            then reject tool "INVALID_REQUEST" rid
            else call tool rid (h request)
      ]

  -- The three previews and the binding: exact keys, then types, then the handler with the payload.
  unfoldable pub exact_call :
      (tool : String)
      → List String
      → (Fields → Bool)
      → Option (Fields → Handler S)
      → Fields
      → Option String
      → S
      → Outcome S
  unfolding no_handler reject call
  exact_call tool required types none p rid = no_handler tool rid
  exact_call tool required types (some h) p rid =
      if not (has_exactly required p)
      then reject tool "INVALID_ARGUMENTS" rid
      else if not (types p)
      then reject tool "INVALID_ARGUMENTS" rid
      else call tool rid (h p)

  -- A tool without arguments that asks a provider.
  unfoldable pub asking : String → Option (Handler S) → Option String → S → Outcome S
  unfolding no_handler call
  asking tool none rid = no_handler tool rid
  asking tool (some h) rid = call tool rid h

  unfoldable pub semantic_bindings :
      String → Option (Handler S) → Fields → Option String → S → Outcome S
  unfolding no_handler reject call
  semantic_bindings tool none p rid = no_handler tool rid
  semantic_bindings tool (some h) p rid =
      if is_empty p then call tool rid h else reject tool "UNEXPECTED_ARGUMENT" rid

  unfoldable pub preview :
      String → Option (Option String → Handler S) → Fields → Option String → S → Outcome S
  unfolding no_handler reject call exact_keys within
  preview tool none p rid = no_handler tool rid
  preview tool (some h) p rid =
      if not (exact_keys p ("action_id" ∷ []))
      then reject tool "UNEXPECTED_ARGUMENT" rid
      else elim (optional_id (get "action_id" p)) [
        | none ↦ reject tool "INVALID_ACTION_ID" rid
        | some id ↦ call tool rid (h id)
      ]

  unfoldable pub approve :
      String → Option (String → Bool → Handler S) → Fields → Option String → S → Outcome S
  unfolding no_handler reject call within
  approve tool none p rid = no_handler tool rid
  approve tool (some h) p rid =
      if not (has_exactly ("action_id" ∷ "danger_confirmed" ∷ []) p)
      then reject tool "INVALID_ARGUMENTS" rid
      else elim (bounded_id (get "action_id" p)) [
        | none ↦ reject tool "INVALID_ACTION_ID" rid
        | some id ↦ elim (as_bool (get "danger_confirmed" p)) [
          | none ↦ reject tool "INVALID_DANGER_CONFIRMED" rid
          | some danger ↦ call tool rid (h id danger)
        ]
      ]

  unfoldable pub department_preview :
      String
      → Option (String → String → Fields → Handler S)
      → Fields
      → Option String
      → S
      → Outcome S
  unfolding no_handler reject call within
  department_preview tool none p rid = no_handler tool rid
  department_preview tool (some h) p rid =
      if not (has_exactly ("adapter_id" ∷ "tool_name" ∷ "arguments" ∷ []) p)
      then reject tool "INVALID_ARGUMENTS" rid
      else elim (bounded_id (get "adapter_id" p)) [
        | none ↦ reject tool "INVALID_ARGUMENTS" rid
        | some adapter ↦ elim (bounded_id (get "tool_name" p)) [
          | none ↦ reject tool "INVALID_ARGUMENTS" rid
          | some remote ↦ elim (as_dict (get "arguments" p)) [
            | none ↦ reject tool "INVALID_ARGUMENTS" rid
            | some arguments ↦ call tool rid (h adapter remote arguments)
          ]
        ]
      ]

  unfoldable pub status_tool :
      (S → Result String OperatorStatusSnapshot × S) → String → Option String → S → Outcome S
  unfolding succeed
  status_tool provider tool rid s =
      let (r, s') = provider s in
      elim r [
        | raise e ↦ (raise (handler_raised e), s')
        | ok snapshot ↦ elim (snapshot_to_dict snapshot) [
          | raise e ↦ (raise (bad_status e), s')
          | ok d ↦ succeed tool (status_part tool d) rid s'
        ]
      ]

module _ {S : Type 0} (a : OperatorAdapter S) where
  -- The tools that take no argument.
  unfoldable pub invoke_plain : String → Option String → S → Outcome S
  unfolding asking status_tool
  invoke_plain tool rid =
      if tool == "zen.department.status"
      then asking tool a.department_status_provider rid
      else if tool == "zen.watchdog.status"
      then asking tool a.watchdog_provider rid
      else if tool == "zen.host.status"
      then asking tool a.host_status_provider rid
      else if tool == "zen.ma.visual"
      then asking tool a.visual_observation_provider rid
      else if tool == "zen.ma.stage.visual"
      then asking tool a.stage_visual_provider rid
      else status_tool a.status_provider tool rid

  -- The chain of tools, from the payload on. No reserved tool is left where the payload is tested.
  unfoldable pub invoke_tool : String → Fields → Option String → S → Outcome S
  unfolding design_request exact_call semantic_bindings preview approve department_preview
      invoke_plain no_handler reject
  invoke_tool tool p rid =
      if tool == "zen.design.request"
      then design_request tool a.design_request_handler p rid
      else if tool == "zen.position.preview"
      then exact_call tool preset_keys preset_types a.position_preview_handler p rid
      else if tool == "zen.position.raw.preview"
      then exact_call tool raw_keys raw_types a.raw_position_preview_handler p rid
      else if tool == "zen.position.calibration.preview"
      then exact_call tool raw_keys raw_types a.position_calibration_preview_handler p rid
      else if tool == "zen.position.semantic.bindings"
      then semantic_bindings tool a.semantic_position_bindings_handler p rid
      else if tool == "zen.position.semantic.bind"
      then exact_call tool bind_keys bind_types a.semantic_position_bind_handler p rid
      else if tool == "zen.preview"
      then preview tool a.preview_handler p rid
      else if tool == "zen.approve"
      then approve tool a.approve_handler p rid
      else if tool == "zen.department.preview"
      then department_preview tool a.department_preview_handler p rid
      else if not (is_empty p)
      then reject tool "UNEXPECTED_ARGUMENT" rid
      else if member tool reserved_tools
      then no_handler tool rid
      else invoke_plain tool rid

  -- `_payload_within_limit`
  unfoldable pub payload_within_limit : Fields → Bool
  payload_within_limit p = elim (a.json_length p) [
    | none ↦ false
    | some n ↦ not (ltb max_tool_payload_bytes n)
  ]

  unfoldable pub invoke : String → Option Fields → Option String → S → Outcome S
  unfolding invoke_tool payload_within_limit reject
  invoke tool payload rid s =
      if not (member tool allowed_tools)
      then (raise (unknown_tool tool), s)
      else elim (optional_bounded_text rid 128) [
        | raise e ↦ (raise (bad_request_id e), s)
        | ok rid ↦
            if not (payload_within_limit (or_empty payload))
            then reject tool "PAYLOAD_INVALID_OR_TOO_LARGE" rid s
            else invoke_tool tool (or_empty payload) rid s
      ]
