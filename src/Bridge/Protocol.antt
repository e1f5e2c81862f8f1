-- ===== src/Bridge/Protocol.antt =====
-- zen_ma2_agent/ma_bridge/protocol.py: a request line is checked and parsed, a response is formatted.
-- `int`, `float` and the digest of the canonical payload are operations of `Numbers`. An error keeps its
-- code; its message is not sent and is left out.
use Prim.Native.Nat.{ℕ}
use zen_ma2_agent.Prelude.{
  Bool, true, false, not, ◌&&◌, ◌||◌, Option, none, some, List, [], ◌∷◌, ◌++◌, if◌then◌else◌, all,
  any, length, ltb, leb, Result, ok, raise, raise_if, ◌>>=◌, ◌>>◌,
}
use zen_ma2_agent.Prelude.Eq.{◌==◌, nat_eq, member}
use zen_ma2_agent.Prelude.Dict.{Dict, lookup, insert, contains}
use zen_ma2_agent.Prelude.Text.{Text, text_eq, codes, utf8_length, split, split_once}
use zen_ma2_agent.Json.{ℤ, pos, negsuc}

pub data BridgeCommand : Type 0 where
  ping status dimmer design : BridgeCommand

-- The code of a `BridgeProtocolError`; `value_error` stands for the exceptions of other types.
pub data BridgeError : Type 0 where
  invalid_request_id invalid_argument duplicate_argument missing_argument invalid_protocol
        line_too_long control_character unknown_command request_id_conflict value_error :
      BridgeError

pub record Numbers (F : Type 0) : Type 0 where
  -- `int(s, 10)` and `float(s)`, where they do not raise
  pub parse_int : Text → Option ℤ
  pub parse_float : Text → Option F
  -- `0.0 <= f <= 100.0`
  pub in_range : F → Bool
  -- `int(f)` where `f.is_integer()`
  pub whole : F → Option ℤ

pub data Level (F : Type 0) : Type 0 where
  integral : ℤ → Level F
  fractional : F → Level F

pub data Arguments (F : Type 0) : Type 0 where
  no_arguments : Arguments F
  dimmer_arguments : (group : ℤ) (value : Level F) → Arguments F
  design_arguments : (request : Text) → Arguments F

pub record BridgeRequest (F : Type 0) : Type 0 where
  pub request_id : Text
  pub command : BridgeCommand
  pub arguments : Arguments F
  pub payload_hash : Text

abbrev pub protocol_version : Text
protocol_version = codes "ZEN/1"

abbrev pub max_line_bytes : ℕ
max_line_bytes = 1024

abbrev pub max_request_id_length : ℕ
max_request_id_length = 64

abbrev pub max_design_request_length : ℕ
max_design_request_length = 128

abbrev is_upper : ℕ → Bool
is_upper c = leb 65 c && leb c 90

abbrev is_lower : ℕ → Bool
is_lower c = leb 97 c && leb c 122

abbrev is_digit : ℕ → Bool
is_digit c = leb 48 c && leb c 57

-- `[A-Za-z0-9._-]` and `[A-Za-z0-9._:-]`
unfoldable pub is_id_char : ℕ → Bool
is_id_char c = is_upper c || is_lower c || is_digit c || c == 46 || c == 95 || c == 45

unfoldable pub is_design_char : ℕ → Bool
unfolding is_id_char
is_design_char c = is_id_char c || c == 58

-- `^[A-Z][A-Z0-9_]*$`
unfoldable pub is_key : Text → Bool
is_key [] = false
is_key (c ∷ s) = is_upper c && all (λ d. is_upper d || is_digit d || d == 95) s

-- `ord(char) < 32 or ord(char) == 127`
unfoldable pub is_control : ℕ → Bool
is_control c = ltb c 32 || c == 127

abbrev pub is_empty {ℓ} : {A : Type ℓ} → List A → Bool
is_empty [] = true
is_empty _ = false

unfoldable pub validate_request_id : Text → Result BridgeError Text
unfolding is_id_char
validate_request_id id = do
  raise_if (is_empty id || ltb max_request_id_length (length id)) invalid_request_id
  raise_if (not (all is_id_char id)) invalid_request_id
  ok id

-- The checks on one argument and its key and value.
parse_argument : Dict Text Text → Text → Result BridgeError (Text × Text)
unfolding is_key
parse_argument parsed token = elim (split_once 61 token) [
  | none ↦ raise invalid_argument
  | some (key, value) ↦ do
    raise_if (not (is_key key)) invalid_argument
    raise_if (is_empty value) invalid_argument
    raise_if (contains key parsed) duplicate_argument
    ok (key, value)
]

-- The loop of `_parse_argument_tokens`, from the arguments parsed so far.
unfoldable pub parse_argument_tokens :
    Dict Text Text → List Text → Result BridgeError (Dict Text Text)
unfolding parse_argument
parse_argument_tokens parsed [] = ok parsed
parse_argument_tokens parsed (token ∷ tokens) = do
  (key, value) ← parse_argument parsed token
  parse_argument_tokens (insert key value parsed) tokens

unfoldable pub require_exact_arguments : Dict Text Text → List Text → Result BridgeError (Unit {0})
require_exact_arguments raw required = do
  raise_if (not (all (λ k. contains k raw) required)) missing_argument
  raise_if (not (all (λ p. member p.0 required) raw)) invalid_argument
  ok tt

-- `raw[key]` at a key that was required
unfoldable pub at_key : Text → Dict Text Text → Result BridgeError Text
at_key key raw = elim (lookup key raw) [ none ↦ raise missing_argument | some v ↦ ok v ]

unfoldable pub or_invalid {ℓ} : {A : Type ℓ} → Option A → Result BridgeError A
or_invalid none = raise invalid_argument
or_invalid (some a) = ok a

unfoldable pub is_positive : ℤ → Bool
is_positive (pos n) = ltb 0 n
is_positive (negsuc n) = false

module _ {F : Type 0} (n : Numbers F) where
  unfoldable pub level_of : F → Level F
  level_of f = elim (n.whole f) [ none ↦ fractional f | some z ↦ integral z ]

  unfoldable pub parse_dimmer : Dict Text Text → Result BridgeError (Arguments F)
  unfolding require_exact_arguments at_key or_invalid is_positive level_of
  parse_dimmer raw = do
    require_exact_arguments raw (codes "GROUP" ∷ codes "VALUE" ∷ [])
    group_text ← at_key (codes "GROUP") raw
    group ← or_invalid (n.parse_int group_text)
    raise_if (not (is_positive group)) invalid_argument
    value_text ← at_key (codes "VALUE") raw
    value ← or_invalid (n.parse_float value_text)
    raise_if (not (n.in_range value)) invalid_argument
    ok (dimmer_arguments group (level_of value))

  unfoldable pub parse_design : Dict Text Text → Result BridgeError (Arguments F)
  unfolding require_exact_arguments at_key is_design_char
  parse_design raw = do
    require_exact_arguments raw (codes "REQUEST" ∷ [])
    request ← at_key (codes "REQUEST") raw
    raise_if (ltb max_design_request_length (length request)) invalid_argument
    raise_if (is_empty request || not (all is_design_char request)) invalid_argument
    ok (design_arguments request)

  unfoldable pub parse_command : Text → Result BridgeError BridgeCommand
  parse_command s =
      if s == codes "PING"
      then ok ping
      else if s == codes "STATUS"
      then ok status
      else if s == codes "DIMMER"
      then ok dimmer
      else if s == codes "DESIGN"
      then ok design
      else raise unknown_command

  unfoldable pub parse_arguments : BridgeCommand → Dict Text Text → Result BridgeError (Arguments F)
  unfolding parse_dimmer parse_design
  parse_arguments ping raw = do raise_if (not (is_empty raw)) invalid_argument; ok no_arguments
  parse_arguments status raw = do raise_if (not (is_empty raw)) invalid_argument; ok no_arguments
  parse_arguments dimmer raw = parse_dimmer raw
  parse_arguments design raw = parse_design raw

  -- The four tokens that every request has, and the rest.
  unfoldable pub parse_tokens :
      (canonical_hash : Text → BridgeCommand → Arguments F → Text)
      → List Text
      → Result BridgeError (BridgeRequest F)
  unfolding validate_request_id parse_command parse_argument_tokens parse_arguments
  parse_tokens canonical_hash (version ∷ kind ∷ id ∷ word ∷ rest) = do
    raise_if (not (version == protocol_version)) invalid_protocol
    raise_if (not (kind == codes "REQ")) invalid_protocol
    request_id ← validate_request_id id
    command ← parse_command word
    raw ← parse_argument_tokens [] rest
    arguments ← parse_arguments command raw
    ok (record {
      request_id = request_id;
      command = command;
      arguments = arguments;
      payload_hash = canonical_hash request_id command arguments;
    })
  parse_tokens canonical_hash _ = raise invalid_protocol

  unfoldable pub parse_request_line :
      (canonical_hash : Text → BridgeCommand → Arguments F → Text)
      → Text
      → Result BridgeError (BridgeRequest F)
  unfolding is_control split parse_tokens
  parse_request_line canonical_hash line = do
    raise_if (is_empty line) invalid_protocol
    raise_if (ltb max_line_bytes (utf8_length line)) line_too_long
    raise_if (any is_control line) control_character
    parse_tokens canonical_hash (split line)

-- `f"{PROTOCOL_VERSION} {kind} {id} {payload}"`
abbrev response_line : Text → Text → Text → Text
response_line kind id rest = protocol_version ++ codes " " ++ kind ++ codes " " ++ id ++ rest

unfoldable pub format_ready : Text → Option Text → Result BridgeError Text
unfolding validate_request_id is_control
format_ready id payload = do
  id ← validate_request_id id
  elim payload [
    | none ↦ ok (response_line (codes "READY") id [])
    | some s ↦ if is_empty s then ok (response_line (codes "READY") id []) else do
      raise_if (any is_control s) value_error
      raise_if (ltb max_line_bytes (utf8_length s)) value_error
      ok (response_line (codes "READY") id (codes " " ++ s))
  ]

unfoldable pub format_error : Text → Text → Result BridgeError Text
unfolding validate_request_id is_key
format_error id code = do
  id ← validate_request_id id
  raise_if (not (is_key code)) value_error
  ok (response_line (codes "ERROR") id (codes " " ++ code))
