-- ===== src/Bridge/Dispatch.antt =====
-- `RequestDeduplicator` of zen_ma2_agent/ma_bridge/protocol.py and `BridgeDispatcher` of
-- zen_ma2_agent/ma_bridge/server.py. The lock makes `dispatch` one step. The status payload is what the
-- provider returned, `none` where it raised, and `is_alnum` is `str.isalnum` of one character.
use Prim.Native.Nat.{ℕ}
use zen_ma2_agent.Prelude.{
  Bool, not, ◌&&◌, ◌||◌, Option, none, some, List, [], ◌∷◌, if◌then◌else◌, all, length, ltb, Result,
  ok, raise,
}
use zen_ma2_agent.Prelude.Eq.{◌==◌, nat_eq}
use zen_ma2_agent.Prelude.Dict.{Dict, lookup, insert, move_to_end}
use zen_ma2_agent.Prelude.Text.{Text, text_eq, codes, split, strip}
use zen_ma2_agent.Bridge.Protocol.{
  BridgeCommand, ping, status, dimmer, design, BridgeError, invalid_request_id, invalid_argument,
  duplicate_argument, missing_argument, invalid_protocol, line_too_long, control_character,
  unknown_command, request_id_conflict, value_error, Numbers, Arguments, BridgeRequest,
  max_request_id_length, is_empty, parse_request_line, format_ready, format_error,
}

pub record RequestDeduplicator : Type 0 where
  pub capacity : ℕ
  pub seen : Dict Text Text

pub data DedupState : Type 0 where
  new duplicate : DedupState

-- `while len(d) > capacity: d.popitem(last=False)`
unfoldable pub evict {ℓ} : {A : Type ℓ} → ℕ → List A → List A
evict capacity [] = []
evict capacity (x ∷ xs) =
    let rest = evict capacity xs in if ltb capacity (length (x ∷ xs)) then rest else x ∷ xs

-- `d[k] = v; d.move_to_end(k)` and the eviction
unfoldable pub remember : ℕ → Text → Text → Dict Text Text → Dict Text Text
unfolding evict
remember capacity k v d = evict capacity (move_to_end k (insert k v d))

module _ {F : Type 0} where
  unfoldable pub check :
      BridgeRequest F → RequestDeduplicator → Result BridgeError DedupState × RequestDeduplicator
  unfolding remember
  check r d = elim (lookup r.request_id d.seen) [
    | none ↦ (ok new, record d { seen = remember d.capacity r.request_id r.payload_hash d.seen })
    | some previous ↦ (
      if previous == r.payload_hash then ok duplicate else raise request_id_conflict,
      record d { seen = move_to_end r.request_id d.seen },
    )
  ]

pub record BridgeDispatcher : Type 0 where
  pub dedup : RequestDeduplicator
  pub responses : Dict Text Text
  pub capacity : ℕ

module _ {F : Type 0} (status_payload : Option Text) where
  -- The response to a command, before it is remembered.
  unfoldable pub respond : BridgeRequest F → Result BridgeError Text
  respond r = elim r.command [
    | ping ↦ format_ready r.request_id (some (codes "PONG"))
    | status ↦ elim status_payload [
      | none ↦ raise value_error
      | some payload ↦ format_ready r.request_id (some (strip payload))
    ]
    | dimmer ↦ format_ready r.request_id (some (codes "NOT_EXECUTED"))
    | design ↦ format_ready r.request_id (some (codes "NOT_IMPLEMENTED"))
  ]

  -- A response is computed and remembered.
  unfoldable pub answer :
      BridgeRequest F → BridgeDispatcher → Result BridgeError Text × BridgeDispatcher
  unfolding respond remember
  answer r d = elim (respond r) [
    | raise e ↦ (raise e, d)
    | ok response ↦ (
      ok response,
      record d { responses = remember d.capacity r.request_id response d.responses },
    )
  ]

  unfoldable pub dispatch :
      BridgeRequest F → BridgeDispatcher → Result BridgeError Text × BridgeDispatcher
  unfolding check answer
  dispatch r d =
      let (state, dedup) = check r d.dedup in
      let d' : BridgeDispatcher = record d { dedup = dedup } in
      elim state [
        | raise e ↦ (raise e, d')
        | ok new ↦ answer r d'
        | ok duplicate ↦ elim (lookup r.request_id d'.responses) [
          | none ↦ answer r d'
          | some cached ↦
              (ok cached, record d' { responses = move_to_end r.request_id d'.responses })
        ]
      ]

-- `exc.code`; every exception of another type is answered as `INTERNAL_ERROR`.
unfoldable pub error_code : BridgeError → Text
error_code invalid_request_id = codes "INVALID_REQUEST_ID"
error_code invalid_argument = codes "INVALID_ARGUMENT"
error_code duplicate_argument = codes "DUPLICATE_ARGUMENT"
error_code missing_argument = codes "MISSING_ARGUMENT"
error_code invalid_protocol = codes "INVALID_PROTOCOL"
error_code line_too_long = codes "LINE_TOO_LONG"
error_code control_character = codes "CONTROL_CHARACTER"
error_code unknown_command = codes "UNKNOWN_COMMAND"
error_code request_id_conflict = codes "REQUEST_ID_CONFLICT"
error_code value_error = codes "INTERNAL_ERROR"

third_token : List Text → Text
third_token (_ ∷ _ ∷ candidate ∷ _) = candidate
third_token _ = []

unfoldable pub request_id_hint : (is_alnum : ℕ → Bool) → Text → Text
unfolding third_token
request_id_hint is_alnum line =
    let candidate = third_token (split line) in
    if not (is_empty candidate)
      && not (ltb max_request_id_length (length candidate))
      && all (λ c. is_alnum c || c == 46 || c == 95 || c == 45) candidate
    then candidate
    else codes "UNKNOWN"

module _ {F : Type 0} (n : Numbers F) (canonical_hash : Text → BridgeCommand → Arguments F → Text)
    (is_alnum : ℕ → Bool) (status_payload : Option Text) where
  -- The body of the `try`.
  unfoldable pub try_line : Text → BridgeDispatcher → Result BridgeError Text × BridgeDispatcher
  unfolding dispatch
  try_line line d = elim (parse_request_line n canonical_hash line) [
    | raise e ↦ (raise e, d)
    | ok r ↦ dispatch status_payload r d
  ]

  unfoldable pub handle_line : Text → BridgeDispatcher → Result BridgeError Text × BridgeDispatcher
  unfolding try_line error_code request_id_hint
  handle_line line d =
      let (response, d') = try_line line d in
      elim response [
        | ok text ↦ (ok text, d')
        | raise e ↦ (format_error (request_id_hint is_alnum line) (error_code e), d')
      ]
