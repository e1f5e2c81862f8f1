-- ===== src/Bridge/Tests.antt =====
-- Lines on a small bridge, and its theorems at them.
use Prim.Native.Nat.{ℕ, ◌≤◌}
use zen_ma2_agent.Prelude.{◌≡◌, refl, false, none, some, [], arith, ok, raise, any, leb}
use zen_ma2_agent.Prelude.Eq.{nat_eq, ==_false}
use zen_ma2_agent.Prelude.Dict.{lookup}
use zen_ma2_agent.Prelude.Text.{Text, text_eq, text_beq, codes, utf8_length, split}
use zen_ma2_agent.Json.{pos}
use zen_ma2_agent.Bridge.Protocol.{
  BridgeCommand, ping, status, invalid_request_id, request_id_conflict, Numbers, Arguments,
  no_arguments, BridgeRequest, is_control, validate_request_id, parse_tokens, parse_request_line,
  parse_argument_tokens, parse_arguments, parse_command, format_ready, format_error, is_id_char,
}
use zen_ma2_agent.Bridge.Dispatch.{
  BridgeDispatcher, check, respond, answer, dispatch, handle_line, try_line, request_id_hint,
  error_code,
}
use zen_ma2_agent.Bridge.Retransmission.{
  IsValid, dispatch_again, dispatch-IsValid, dispatch_conflict,
}
use zen_ma2_agent.Bridge.Bounds.{IsAccepted, parse_request_line-IsAccepted}

-- Every number is read as 5.
abbrev fives : Numbers ℕ
fives = record {
  parse_int = λ s. some (pos 5);
  parse_float = λ s. some 5;
  in_range = λ f. leb f 100;
  whole = λ f. some (pos f);
}

abbrev by_command : Text → BridgeCommand → Arguments ℕ → Text
by_command id c a = elim c [ ping ↦ codes "p" | status ↦ codes "s" | _ ↦ codes "o" ]

abbrev ping_line : Text
ping_line = codes "ZEN/1 REQ r1 PING"

abbrev ping_request : BridgeRequest ℕ
ping_request = record {
  request_id = codes "r1";
  command = ping;
  arguments = no_arguments;
  payload_hash = codes "p";
}

abbrev status_request : BridgeRequest ℕ
status_request = record {
  request_id = codes "r1";
  command = status;
  arguments = no_arguments;
  payload_hash = codes "s";
}

abbrev empty : BridgeDispatcher
empty = record { dedup = record { capacity = 2; seen = [] }; responses = []; capacity = 2 }

empty-IsValid : IsValid empty
empty-IsValid = record {
  seen_distinct = tt;
  seen_bound = omega arith;
  responses_distinct = tt;
  responses_bound = omega arith;
}

ping_parsed : parse_request_line fives by_command ping_line ≡ ok ping_request
unfolding parse_request_line parse_tokens parse_argument_tokens parse_arguments parse_command
    validate_request_id split is_control is_id_char utf8_length text_beq
ping_parsed = refl

pong : (dispatch none ping_request empty).0 ≡ ok (codes "ZEN/1 READY r1 PONG")
unfolding dispatch check answer respond format_ready validate_request_id is_id_char lookup
    is_control utf8_length
pong = refl

parse_request_line-IsAccepted_example :
    (utf8_length ping_line ≤ 1024)
    × (any is_control ping_line ≡ false)
    × IsAccepted fives by_command ping_request
parse_request_line-IsAccepted_example =
    parse_request_line-IsAccepted fives by_command ping_line ping_request ping_parsed

dispatch_again_example :
    (dispatch (some (codes "UP")) ping_request (dispatch none ping_request empty).1).0
    ≡ ok (codes "ZEN/1 READY r1 PONG")
dispatch_again_example =
    dispatch_again none (some (codes "UP")) ping_request empty 1 1 (codes "ZEN/1 READY r1 PONG")
      empty-IsValid refl refl pong

dispatch-IsValid_example : IsValid (dispatch none ping_request empty).1
dispatch-IsValid_example = dispatch-IsValid none ping_request empty empty-IsValid

dispatch_conflict_example :
    (dispatch (some (codes "UP")) status_request (dispatch none ping_request empty).1).0
    ≡ raise request_id_conflict
unfolding text_beq
dispatch_conflict_example =
    dispatch_conflict none (some (codes "UP")) ping_request status_request empty 1 1
      (codes "ZEN/1 READY r1 PONG") empty-IsValid refl refl pong refl
      (==_false (codes "p") (codes "s") refl)

-- A line whose identifier holds a letter outside ASCII is not answered: formatting the error raises.
no_answer_outside_ascii :
    (handle_line fives by_command (λ c. leb 97 c) none (codes "ZEN/1 REQ é PING") empty).0
    ≡ raise invalid_request_id
unfolding handle_line try_line request_id_hint format_error error_code parse_request_line
    parse_tokens validate_request_id split is_control is_id_char utf8_length text_beq
no_answer_outside_ascii = refl
