-- ===== src/Operator/Payload.antt =====
-- The checks of zen_ma2_agent/operator_api.py on the arguments of a tool.
use Prim.Native.Nat.{ℕ}
use Prim.Native.String.{String, count}
use zen_ma2_agent.Prelude.{
  Bool, true, false, not, ◌&&◌, Option, none, some, List, [], ◌∷◌, all, length, ltb,
}
use zen_ma2_agent.Prelude.Eq.{◌==◌, nat_eq, string_eq, member}
use zen_ma2_agent.Prelude.Text.{codes, is_space}
use zen_ma2_agent.Json.{pos, Value, int, str, list, Items, nil, cons, Fields, get, keys}

abbrev pub max_tool_payload_bytes : ℕ
max_tool_payload_bytes = 8192

-- `_exact_keys(payload, allowed)`: no key besides.
unfoldable pub exact_keys : Fields → List String → Bool
unfolding keys
exact_keys payload allowed = all (λ k. member k allowed) (keys payload)

-- `not s.strip()`
unfoldable pub is_blank : String → Bool
unfolding is_space
is_blank s = all is_space (codes s)

-- `1 <= len(s) <= n`
unfoldable pub within : ℕ → String → Bool
within n s = not (s == "") && not (ltb n (count s))

-- A text for which a test holds, of what a field holds.
abbrev pub text_that : (String → Bool) → Option Value → Bool
text_that p (some (str s)) = p s
text_that p _ = false

-- `isinstance(v, int) and not isinstance(v, bool)`
abbrev pub is_int : Option Value → Bool
is_int (some (int z)) = true
is_int _ = false

abbrev pub is_positive_int : Option Value → Bool
is_positive_int (some (int (pos n))) = ltb 0 n
is_positive_int _ = false

-- The texts of a list of which every item is one.
unfoldable pub texts_of : Items → Option (List String)
texts_of nil = some []
texts_of (cons (str s) rest) = elim (texts_of rest) [ none ↦ none | some ss ↦ some (s ∷ ss) ]
texts_of (cons _ rest) = none

abbrev pub texts_at : Option Value → Option (List String)
texts_at (some (list items)) = texts_of items
texts_at _ = none

-- A list of texts for which a test holds, of what a field holds.
abbrev pub texts_that : (List String → Bool) → Option Value → Bool
texts_that p v = elim (texts_at v) [ none ↦ false | some ss ↦ p ss ]

-- `len(refs) == len(set(refs))`
unfoldable pub no_repeats : List String → Bool
no_repeats [] = true
no_repeats (s ∷ ss) = not (member s ss) && no_repeats ss

abbrev pub raw_keys : List String
raw_keys =
    "expected_show_fingerprint" ∷ "group_id" ∷ "expected_group_name" ∷ "expected_exact_refs" ∷ []

abbrev pub preset_keys : List String
preset_keys =
    "expected_show_fingerprint" ∷ "group_id" ∷ "expected_group_name" ∷ "expected_exact_refs"
    ∷ "preset_ref" ∷ "expected_preset_label" ∷ []

abbrev pub bind_keys : List String
bind_keys =
    "expected_show_fingerprint" ∷ "group_id" ∷ "expected_group_name" ∷ "expected_exact_refs"
    ∷ "preset_ref" ∷ "expected_preset_label" ∷ "semantic_target" ∷ []

-- The types of the arguments of the raw and the calibration preview.
unfoldable pub raw_types : Fields → Bool
unfolding texts_of
raw_types p =
    text_that (λ s. true) (get "expected_show_fingerprint" p)
    && is_int (get "group_id" p)
    && text_that (λ s. true) (get "expected_group_name" p)
    && texts_that (λ ss. true) (get "expected_exact_refs" p)

unfoldable pub preset_types : Fields → Bool
unfolding raw_types
preset_types p =
    raw_types p
    && text_that (λ s. true) (get "preset_ref" p)
    && text_that (λ s. true) (get "expected_preset_label" p)

-- The types and bounds of the arguments of the semantic binding.
unfoldable pub bind_types : Fields → Bool
unfolding texts_of within no_repeats
bind_types p =
    text_that (λ s. count s == 64) (get "expected_show_fingerprint" p)
    && is_positive_int (get "group_id" p)
    && text_that (within 256) (get "expected_group_name" p)
    && texts_that
        (λ ss.
          not (length ss == 0) && not (ltb 128 (length ss)) && all (within 32) ss && no_repeats ss)
        (get "expected_exact_refs" p)
    && text_that (within 32) (get "preset_ref" p)
    && text_that (within 256) (get "expected_preset_label" p)
    && text_that (within 128) (get "semantic_target" p)
