-- ===== src/Llm/Config.antt =====
-- The private environment of zen_ma2_agent/llm/router.py: `_read_private_env`, `_provider_slot_count` and
-- `load_provider_slots`. The process environment and the lines of the file are arguments.
use Prim.Native.Nat.{ℕ, zero, suc, max}
use zen_ma2_agent.Prelude.{
  Bool, true, false, not, ◌&&◌, ◌||◌, Option, none, some, List, [], ◌∷◌, ◌++◌, if◌then◌else◌, map,
  filter, ltb, Result, ok, raise, raise_if, ◌>>=◌, ◌>>◌,
}
use mathlib.Core.List.{reverse}
use zen_ma2_agent.Prelude.Eq.{◌==◌, nat_eq, member}
use zen_ma2_agent.Prelude.Dict.{Dict, lookup, insert}
use zen_ma2_agent.Prelude.Text.{Text, codes, text_eq, strip, split_once, split_on, decimal}
use zen_ma2_agent.Json.{ℤ, pos, negsuc}
use zen_ma2_agent.Llm.Slots.{
  Builtins, ConfigError, slot_count_not_integer, slot_count_out_of_range, bad_mode,
  timeout_not_numeric, timeout_out_of_range, priority_not_integer, priority_out_of_range,
  bad_cost_class, bad_response_format, ProviderSlot, local_types, cost_classes, response_formats,
  is_set, post_init,
}

-- The rest of a text after a prefix that it starts with.
unfoldable pub after : Text → Text → Option Text
after [] s = some s
after (c ∷ p) [] = none
after (c ∷ p) (d ∷ s) = let rest = after p s in if c == d then rest else none

abbrev pub starts_with : Text → Text → Bool
starts_with p s = elim (after p s) [ none ↦ false | some _ ↦ true ]

lstrip_char : ℕ → Text → Text
lstrip_char q [] = []
lstrip_char q (c ∷ s) = if c == q then lstrip_char q s else c ∷ s

-- `s.strip(q)` at one character
strip_char : ℕ → Text → Text
unfolding lstrip_char
strip_char q s = reverse (lstrip_char q (reverse (lstrip_char q s)))

abbrev pub provider_prefix : Text
provider_prefix = codes "ZEN_PROVIDER_"

-- One line of the file: an assignment to a name with the prefix, or nothing.
unfoldable pub read_line : Text → Dict Text Text → Dict Text Text
unfolding after strip strip_char split_once insert
read_line raw values =
    let line = strip raw in
    if not (is_set line) || starts_with (codes "#") line
    then values
    else elim (split_once 61 line) [
      | none ↦ values
      | some (key, value) ↦
          if starts_with provider_prefix (strip key)
          then insert (strip key) (strip_char 39 (strip_char 34 (strip value))) values
          else values
    ]

read_lines : List Text → Dict Text Text → Dict Text Text
unfolding read_line
read_lines [] values = values
read_lines (l ∷ ls) values = read_lines ls (read_line l values)

-- `_read_private_env`
unfoldable pub read_private_env : Dict Text Text → Option (List Text) → Dict Text Text
unfolding read_lines after
read_private_env environ file =
    let values = filter (λ p. starts_with provider_prefix p.0) environ in
    elim file [ none ↦ values | some lines ↦ read_lines lines values ]

-- `values.get(key, default)`
unfoldable pub value_or : Text → Text → Dict Text Text → Text
unfolding lookup
value_or key default values = elim (lookup key values) [ none ↦ default | some v ↦ v ]

-- The longest run at the front of a text that a test accepts, and the rest.
span : (ℕ → Bool) → Text → Text × Text
span p [] = ([], [])
span p (c ∷ s) = let (run, rest) = span p s in if p c then (c ∷ run, rest) else ([], c ∷ s)

-- `re.match(r"^ZEN_PROVIDER_(\d+)_", key)`: its group
slot_digits : Builtins → Text → Option Text
unfolding after span
slot_digits py key = elim (after provider_prefix key) [
  | none ↦ none
  | some s ↦
      let (run, rest) = span py.is_decimal s in
      if is_set run && starts_with (codes "_") rest then some run else none
]

abbrev pub natural : ℤ → ℕ
natural (pos n) = n
natural (negsuc n) = 0

-- `max([int(match.group(1)) for key in values if …], default=0)`
unfoldable pub max_detected : Builtins → Dict Text Text → Result ConfigError ℕ
unfolding slot_digits
max_detected py [] = ok 0
max_detected py ((key, v) ∷ values) = elim (slot_digits py key) [
  | none ↦ max_detected py values
  | some run ↦ elim (py.to_int run) [
    | none ↦ raise slot_count_not_integer
    | some n ↦ max_detected py values >>= λ m. ok (max (natural n) m)
  ]
]

-- `ZEN_PROVIDER_SLOT_COUNT`, or 3 where it is empty
unfoldable pub explicit_count : Builtins → Text → Result ConfigError ℕ
explicit_count py raw = if not (is_set raw) then ok 3 else elim (py.to_int raw) [
  | none ↦ raise slot_count_not_integer
  | some (pos n) ↦ raise_if (ltb n 1 || ltb 16 n) slot_count_out_of_range >> ok n
  | some (negsuc n) ↦ raise slot_count_out_of_range
]

-- `_provider_slot_count`
unfoldable pub provider_slot_count : Builtins → Dict Text Text → Result ConfigError ℕ
unfolding value_or strip explicit_count max_detected
provider_slot_count py values = do
  explicit ← explicit_count py (strip (value_or (codes "ZEN_PROVIDER_SLOT_COUNT") [] values))
  detected ← max_detected py values
  ok (max (max explicit detected) 3)

-- `tuple(role.strip().upper() for role in s.split(",") if role.strip())`
unfoldable pub roles_of : Builtins → Text → List Text
unfolding split_on strip
roles_of py s =
    map (λ role. py.upper (strip role)) (filter (λ role. is_set (strip role)) (split_on 44 s))

-- `s or default`
abbrev pub or_text : Text → Text → Text
or_text [] default = default
or_text s default = s

-- `float(…)` in its range, and `int(…)` in its range
unfoldable pub timeout_of : Builtins → Text → Result ConfigError Text
timeout_of py s = elim (py.to_float s) [
  | none ↦ raise timeout_not_numeric
  | some x ↦ raise_if (not (py.is_timeout x)) timeout_out_of_range >> ok x
]

unfoldable pub priority_of : Builtins → Text → Result ConfigError ℕ
priority_of py s = elim (py.to_int s) [
  | none ↦ raise priority_not_integer
  | some (pos n) ↦ raise_if (ltb 10000 n) priority_out_of_range >> ok n
  | some (negsuc n) ↦ raise priority_out_of_range
]

-- The texts that one turn of the loop reads, before its checks.
pub record RawSlot : Type 0 where
  pub provider_type : Text
  pub model : Text
  pub base_url : Text
  pub api_key : Text
  pub roles : List Text
  pub timeout : Text
  pub priority : Text
  pub cost_class : Text
  pub response_format : Text
  pub reasoning_effort : Text

unfoldable pub read_slot : Builtins → Dict Text Text → ℕ → RawSlot
unfolding value_or strip decimal roles_of
read_slot py values number =
    let prefix = provider_prefix ++ decimal number ++ codes "_" in
    let provider_type = py.upper (strip (value_or (prefix ++ codes "TYPE") [] values)) in
    let default_cost =
      if member provider_type local_types then codes "LOCAL" else codes "UNKNOWN" in
    record {
      provider_type = provider_type;
      model = strip (value_or (prefix ++ codes "MODEL") [] values);
      base_url = strip (value_or (prefix ++ codes "BASE_URL") [] values);
      api_key = strip (value_or (prefix ++ codes "API_KEY") [] values);
      roles = roles_of py (value_or (prefix ++ codes "ROLES") [] values);
      timeout = value_or (prefix ++ codes "TIMEOUT_SECONDS") (codes "45") values;
      priority = value_or (prefix ++ codes "PRIORITY") (codes "100") values;
      cost_class =
          or_text (py.upper (strip (value_or (prefix ++ codes "COST_CLASS") default_cost values)))
            default_cost;
      response_format =
          or_text
            (py.upper
              (strip (value_or (prefix ++ codes "RESPONSE_FORMAT") (codes "JSON_OBJECT") values)))
            (codes "JSON_OBJECT");
      reasoning_effort = value_or (prefix ++ codes "REASONING_EFFORT") [] values;
    }

unfoldable pub slot_of : ℕ → RawSlot → (timeout : Text) → (priority : ℕ) → ProviderSlot
slot_of number raw timeout priority = record {
  number = number;
  provider_type = raw.provider_type;
  model = raw.model;
  base_url = raw.base_url;
  api_key = raw.api_key;
  roles = raw.roles;
  timeout_seconds = timeout;
  priority = priority;
  cost_class = raw.cost_class;
  response_format = raw.response_format;
  reasoning_effort = some raw.reasoning_effort;
}

-- The checks of one turn, in their order.
unfoldable pub check_slot : Builtins → ℕ → RawSlot → Result ConfigError ProviderSlot
unfolding timeout_of priority_of slot_of post_init
check_slot py number raw = do
  timeout ← timeout_of py raw.timeout
  priority ← priority_of py raw.priority
  raise_if (not (member raw.cost_class cost_classes)) bad_cost_class
  raise_if (not (member raw.response_format response_formats)) bad_response_format
  post_init py (slot_of number raw timeout priority)

-- The body of the loop over the numbers of the slots.
unfoldable pub load_slot : Builtins → Dict Text Text → ℕ → Result ConfigError ProviderSlot
unfolding read_slot check_slot
load_slot py values number = check_slot py number (read_slot py values number)

-- `count` slots, from `number` on
unfoldable pub load_slots :
    Builtins → Dict Text Text → (number count : ℕ) → Result ConfigError (List ProviderSlot)
unfolding load_slot
load_slots py values number zero = ok []
load_slots py values number (suc count) = do
  slot ← load_slot py values number
  rest ← load_slots py values (suc number) count
  ok (slot ∷ rest)

abbrev pub modes : List Text
modes = codes "PRIMARY_ONLY" ∷ codes "FALLBACK" ∷ codes "ROUTED" ∷ codes "FREE_FIRST" ∷ []

unfoldable pub mode_of : Builtins → Dict Text Text → Text
unfolding value_or strip
mode_of py values =
    or_text (py.upper (strip (value_or (codes "ZEN_PROVIDER_MODE") (codes "PRIMARY_ONLY") values)))
      (codes "PRIMARY_ONLY")

unfoldable pub load_provider_slots :
    Builtins → Dict Text Text → Result ConfigError (Text × List ProviderSlot)
unfolding mode_of provider_slot_count load_slots
load_provider_slots py values = do
  raise_if (not (member (mode_of py values) modes)) bad_mode
  count ← provider_slot_count py values
  slots ← load_slots py values 1 count
  ok (mode_of py values, slots)
