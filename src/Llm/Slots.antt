-- ===== src/Llm/Slots.antt =====
-- `ProviderSlot` of zen_ma2_agent/llm/router.py. A float is kept by its `repr`, as in Json.
use Prim.Native.Nat.{ℕ}
use zen_ma2_agent.Prelude.{
  Bool, true, false, not, ◌&&◌, ◌||◌, Option, none, some, List, [], ◌∷◌, Result, ok, raise_if, ◌>>◌,
}
use zen_ma2_agent.Prelude.Eq.{member}
use zen_ma2_agent.Prelude.Text.{Text, codes, text_eq, strip}
use zen_ma2_agent.Json.{ℤ}

-- What the source calls of Python's `str`, `int` and `float`.
pub record Builtins : Type 0 where
  pub upper : Text → Text
  pub casefold : Text → Text
  -- the characters that `\d` matches
  pub is_decimal : ℕ → Bool
  pub to_int : Text → Option ℤ
  pub to_float : Text → Option Text
  -- `1 <= x <= 900`
  pub is_timeout : Text → Bool

pub data ConfigError : Type 0 where
  slot_count_not_integer slot_count_out_of_range bad_mode timeout_not_numeric timeout_out_of_range :
      ConfigError
  priority_not_integer priority_out_of_range bad_cost_class bad_response_format : ConfigError
  bad_reasoning_effort parallelism_not_integer parallelism_out_of_range : ConfigError

pub record ProviderSlot : Type 0 where
  pub number : ℕ
  pub provider_type : Text
  pub model : Text
  pub base_url : Text
  pub api_key : Text
  pub roles : List Text
  pub timeout_seconds : Text
  pub priority : ℕ
  pub cost_class : Text
  pub response_format : Text
  pub reasoning_effort : Option Text

abbrev pub local_types : List Text
local_types = codes "OPENAI_COMPATIBLE_LOCAL" ∷ []

abbrev pub cost_classes : List Text
cost_classes = codes "FREE" ∷ codes "LOCAL" ∷ codes "PAID" ∷ codes "UNKNOWN" ∷ []

abbrev pub response_formats : List Text
response_formats = codes "JSON_OBJECT" ∷ codes "NONE" ∷ []

abbrev pub reasoning_efforts : List Text
reasoning_efforts = codes "LOW" ∷ codes "MEDIUM" ∷ codes "HIGH" ∷ codes "MAX" ∷ []

-- `bool(s)`
abbrev pub is_set : Text → Bool
is_set [] = false
is_set _ = true

-- `s or None`
abbrev pub or_none : Text → Option Text
or_none [] = none
or_none s = some s

abbrev pub has_roles : ProviderSlot → Bool
has_roles s = elim s.roles [ [] ↦ false | _ ∷ _ ↦ true ]

-- `slot.configured`
unfoldable pub configured : ProviderSlot → Bool
configured s =
    is_set s.provider_type
    && is_set s.model
    && is_set s.base_url
    && (member s.provider_type local_types || is_set s.api_key)

unfoldable pub supports : Builtins → Text → ProviderSlot → Bool
supports py role s = not (has_roles s) || member (py.upper role) s.roles

-- `__post_init__`
unfoldable pub post_init : Builtins → ProviderSlot → Result ConfigError ProviderSlot
unfolding strip
post_init py s =
    let effort = py.upper (strip (elim s.reasoning_effort [ none ↦ [] | some e ↦ e ])) in
    raise_if (is_set effort && not (member effort reasoning_efforts)) bad_reasoning_effort
    >> ok (record s { reasoning_effort = or_none effort })

-- The dictionary that `safe_identity` returns.
pub record SafeIdentity : Type 0 where
  pub slot : ℕ
  pub type : Text
  pub model : Text
  pub base_url_configured : Bool
  pub api_key_configured : Bool
  pub api_key_required : Bool
  pub roles : List Text
  pub priority : ℕ
  pub cost_class : Text
  pub response_format : Text
  pub reasoning_effort : Option Text

unfoldable pub safe_identity : ProviderSlot → SafeIdentity
safe_identity s = record {
  slot = s.number;
  type = s.provider_type;
  model = s.model;
  base_url_configured = is_set s.base_url;
  api_key_configured = is_set s.api_key;
  api_key_required = not (member s.provider_type local_types);
  roles = s.roles;
  priority = s.priority;
  cost_class = s.cost_class;
  response_format = s.response_format;
  reasoning_effort = s.reasoning_effort;
}
