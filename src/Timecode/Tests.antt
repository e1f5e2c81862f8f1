-- ===== src/Timecode/Tests.antt =====
-- A request to move timecode 3 by half a second.
use Prim.Native.Nat.{ℕ, ◌*◌}
use zen_ma2_agent.Prelude.{◌≡◌, ◌≢◌, refl, false, some, List, [], ◌∷◌, ok}
use zen_ma2_agent.Prelude.Text.{Text, codes, decimal}
use zen_ma2_agent.Json.{pos, int, Fields, end, field, get}
use zen_ma2_agent.Workflow.{Intent}
use zen_ma2_agent.Timecode.{Builtins, TimecodeOffsetSpec, resolve_timecode_offset_spec, ma2_seconds}
use zen_ma2_agent.Timecode.Laws.{read_seconds, resolve_timecode_offset_spec-ma2_seconds}

abbrev builtins : Builtins
builtins = record {
  float_equal = λ x n. false;
  name_or = λ v n. codes "Song";
  digest = λ f. codes "d";
}

abbrev request : Intent
request = record {
  kind = "offset_timecode";
  parameters = field "timecode_number" (int (pos 3)) (field "offset_ms" (int (pos 500)) end);
  source_text = "move timecode 3 by 500 ms";
}

abbrev inventory : List Fields
inventory =
    field "timecode_number" (int (pos 1)) end ∷ field "timecode_number" (int (pos 3)) end ∷ []

abbrev resolved : TimecodeOffsetSpec
resolved = record {
  timecode_number = pos 3;
  timecode_name = codes "Song";
  offset_ms = 500;
  source_request = "move timecode 3 by 500 ms";
  state_fingerprint = codes "d";
}

request_is_resolved : resolve_timecode_offset_spec builtins request inventory ≡ ok resolved
unfolding resolve_timecode_offset_spec get
request_is_resolved = refl

half_a_second : ma2_seconds (pos 500) ≡ ok (codes "0.50s")
unfolding ma2_seconds decimal
half_a_second = refl

resolve_timecode_offset_spec-ma2_seconds_example :
    (text : Text) × (ma2_seconds (pos 500) ≡ ok text)
    × (centis : ℕ) × (read_seconds text ≡ some centis)
    × (centis * 10 ≡ 500)
    × (centis ≢ 0)
resolve_timecode_offset_spec-ma2_seconds_example =
    resolve_timecode_offset_spec-ma2_seconds builtins request inventory resolved request_is_resolved
