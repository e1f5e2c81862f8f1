-- ===== src/Bridge/Bounds.antt =====
-- What `parse_request_line` of zen_ma2_agent/ma_bridge/protocol.py accepts.
use Prim.Native.Nat.{◌≤◌}
use mathlib.Core.Path.{subst}
use zen_ma2_agent.Prelude.{
  ◌≡◌, refl, inl, inr, true, false, not, List, [], ◌∷◌, arith, Bool-cases, Option-cases,
  Result-cases, Result, ok, raise_if, ◌>>=◌, ◌>>◌, length, all, any, ltb,
}
use zen_ma2_agent.Prelude.Eq.{◌==◌, nat_eq}
use zen_ma2_agent.Prelude.Dict.{Dict}
use zen_ma2_agent.Prelude.Text.{Text, text_eq, codes, utf8_length, split}
use zen_ma2_agent.Json.{ℤ}
use zen_ma2_agent.Bridge.Protocol.{
  BridgeCommand, ping, status, dimmer, design, BridgeError, invalid_argument, Numbers, Arguments,
  no_arguments, dimmer_arguments, design_arguments, BridgeRequest, is_id_char, is_design_char,
  is_control, is_positive, is_empty, protocol_version, validate_request_id, parse_argument_tokens,
  parse_dimmer, parse_design, parse_arguments, parse_command, parse_tokens, parse_request_line,
  max_line_bytes, level_of, require_exact_arguments, at_key, or_invalid,
}

validate_request_id_lem :
    (id out : Text)
    → validate_request_id id ≡ ok out
    → (out ≡ id) × (is_empty id ≡ false) × (length id ≤ 64) × (all is_id_char id ≡ true)
unfolding validate_request_id
validate_request_id_lem id out h = ground arith

module _ {F : Type 0} (n : Numbers F) where
  -- The arguments that go with a command.
  unfoldable pub Fits : BridgeCommand → Arguments F → Type 0
  Fits ping a = a ≡ no_arguments
  Fits status a = a ≡ no_arguments
  Fits dimmer a =
      (group : ℤ) × (f : F) × (is_positive group ≡ true)
      × (n.in_range f ≡ true)
      × (a ≡ dimmer_arguments group (level_of n f))
  Fits design a =
      (s : Text) × (is_empty s ≡ false)
      × (length s ≤ 128)
      × (all is_design_char s ≡ true)
      × (a ≡ design_arguments s)

  parse_design-Fits :
      (raw : Dict Text Text) (a : Arguments F) → parse_design n raw ≡ ok a → Fits design a
  unfolding Fits parse_design
  parse_design-Fits raw a h =
      elim (Result-cases (require_exact_arguments raw (codes "REQUEST" ∷ []))) [
        | inr (e, bad) ↦ absurd (cc (rw (bad, parse_design) at h))
        | inl (u, good) ↦ elim (Result-cases (at_key (codes "REQUEST") raw)) [
          | inr (e, bad) ↦ absurd (cc (rw (good, bad, parse_design) at h))
          | inl (s, found) ↦
              let k = rw (good, found, parse_design) at h in
              (s, ground arith, ground arith, ground arith, ground arith)
        ]
      ]

  -- The part of `parse_dimmer` that reads the value.
  value_of :
      (raw : Dict Text Text) (z : ℤ) (a : Arguments F)
      → (at_key (codes "VALUE") raw >>= λ t. or_invalid (n.parse_float t) >>= λ f.
          raise_if (not (n.in_range f)) invalid_argument >> ok (dimmer_arguments z (level_of n f)))
        ≡ ok a
      → (f : F) × (n.in_range f ≡ true) × (a ≡ dimmer_arguments z (level_of n f))
  unfolding or_invalid
  value_of raw z a h = elim (Result-cases (at_key (codes "VALUE") raw)) [
    | inr (e, bad) ↦ absurd (cc (rw bad at h))
    | inl (t, found) ↦ elim (Option-cases (n.parse_float t)) [
      | inl bad ↦ absurd (cc (rw (found, bad) at h))
      | inr (f, float) ↦ let k = rw (found, float) at h in (f, ground arith, ground arith)
    ]
  ]

  parse_dimmer-Fits :
      (raw : Dict Text Text) (a : Arguments F) → parse_dimmer n raw ≡ ok a → Fits dimmer a
  unfolding Fits parse_dimmer or_invalid
  parse_dimmer-Fits raw a h =
      elim (Result-cases (require_exact_arguments raw (codes "GROUP" ∷ codes "VALUE" ∷ []))) [
        | inr (e, bad) ↦ absurd (cc (rw (bad, parse_dimmer) at h))
        | inl (u, good) ↦ elim (Result-cases (at_key (codes "GROUP") raw)) [
          | inr (e, bad) ↦ absurd (cc (rw (good, bad, parse_dimmer) at h))
          | inl (s, found) ↦ elim (Option-cases (n.parse_int s)) [
            | inl bad ↦ absurd (cc (rw (good, found, bad, parse_dimmer) at h))
            | inr (z, int) ↦ elim (Bool-cases (is_positive z)) [
              | inr bad ↦ absurd (cc (rw (good, found, int, bad, parse_dimmer) at h))
              | inl p ↦
                  let (t, found', k) =
                    value_of raw z a (rw (good, found, int, p, parse_dimmer) at h) in
                  (z, t, p, found', k)
            ]
          ]
        ]
      ]

  parse_arguments-Fits :
      (c : BridgeCommand) (raw : Dict Text Text) (a : Arguments F)
      → parse_arguments n c raw ≡ ok a
      → Fits c a
  unfolding Fits parse_arguments
  parse_arguments-Fits ping raw a h = ground arith
  parse_arguments-Fits status raw a h = ground arith
  parse_arguments-Fits dimmer raw a h = parse_dimmer-Fits raw a h
  parse_arguments-Fits design raw a h = parse_design-Fits raw a h

  module _ (canonical_hash : Text → BridgeCommand → Arguments F → Text) where
    -- What holds of a request that was parsed.
    pub record IsAccepted (r : BridgeRequest F) : Type 0 where
      pub id_not_empty : is_empty r.request_id ≡ false
      pub id_length : length r.request_id ≤ 64
      pub id_chars : all is_id_char r.request_id ≡ true
      pub arguments_fit : Fits r.command r.arguments
      pub hash_of : r.payload_hash ≡ canonical_hash r.request_id r.command r.arguments

    accepted :
        (i : Text) (c : BridgeCommand) (a : Arguments F) (r : BridgeRequest F)
        → is_empty i ≡ false
        → length i ≤ 64
        → all is_id_char i ≡ true
        → Fits c a
        → ◌≡◌ {A = Result BridgeError (BridgeRequest F)}
            (ok (record {
              request_id = i;
              command = c;
              arguments = a;
              payload_hash = canonical_hash i c a;
            }))
            (ok r)
        → IsAccepted r
    accepted i c a r full short chars fit k =
        let made : BridgeRequest F = record {
          request_id = i;
          command = c;
          arguments = a;
          payload_hash = canonical_hash i c a;
        } in
        let same : made ≡ r = cc k in
        subst IsAccepted same (record {
          id_not_empty = full;
          id_length = short;
          id_chars = chars;
          arguments_fit = fit;
          hash_of = refl;
        })

    abbrev Parses : List Text → BridgeRequest F → Type 0
    Parses ts r = parse_tokens n canonical_hash ts ≡ ok r

    parse_tokens-IsAccepted : (ts : List Text) (r : BridgeRequest F) → Parses ts r → IsAccepted r
    unfolding parse_tokens
    parse_tokens-IsAccepted [] r h = absurd (cc h)
    parse_tokens-IsAccepted (_ ∷ []) r h = absurd (cc h)
    parse_tokens-IsAccepted (_ ∷ _ ∷ []) r h = absurd (cc h)
    parse_tokens-IsAccepted (_ ∷ _ ∷ _ ∷ []) r h = absurd (cc h)
    parse_tokens-IsAccepted (version ∷ kind ∷ id ∷ word ∷ rest) r h =
        elim (Bool-cases (version == protocol_version)) [
          | inr v ↦ absurd (cc (rw v at h))
          | inl v ↦ elim (Bool-cases (kind == codes "REQ")) [
            | inr q ↦ absurd (cc (rw (v, q) at h))
            | inl q ↦ after_header id word rest r (rw (v, q) at h)
          ]
        ]
      where
        after_header :
            (id word : Text) (rest : List Text) (r : BridgeRequest F)
            → (validate_request_id id >>= λ request_id. parse_command n word >>= λ command.
                parse_argument_tokens [] rest >>= λ raw.
                parse_arguments n command raw >>= λ arguments. ok (record {
                  request_id = request_id;
                  command = command;
                  arguments = arguments;
                  payload_hash = canonical_hash request_id command arguments;
                }))
              ≡ ok r
            → IsAccepted r
        after_header id word rest r h = elim (Result-cases (validate_request_id id)) [
          | inr (e, bad) ↦ absurd (cc (rw bad at h))
          | inl (i, valid) ↦
              let (id_is, full, short, chars) = validate_request_id_lem id i valid in
              elim (Result-cases (parse_command n word)) [
                | inr (e, bad) ↦ absurd (cc (rw (valid, bad) at h))
                | inl (c, command) ↦ elim (Result-cases (parse_argument_tokens [] rest)) [
                  | inr (e, bad) ↦ absurd (cc (rw (valid, command, bad) at h))
                  | inl (raw, tokens) ↦ elim (Result-cases (parse_arguments n c raw)) [
                    | inr (e, bad) ↦ absurd (cc (rw (valid, command, tokens, bad) at h))
                    | inl (a, arguments) ↦
                        accepted i c a r (rw id_is full) (rw id_is short) (rw id_is chars)
                          (parse_arguments-Fits c raw a arguments)
                          (rw (valid, command, tokens, arguments) at h)
                  ]
                ]
              ]
        ]

    -- A line that is accepted has at most 1024 bytes and no control character, its identifier has 1 to 64
    -- of the allowed characters, its arguments are those of the command and in range, and its digest is
    -- that of the identifier, the command and the arguments.
    pub parse_request_line-IsAccepted :
        (line : Text) (r : BridgeRequest F)
        → parse_request_line n canonical_hash line ≡ ok r
        → (utf8_length line ≤ 1024) × (any is_control line ≡ false) × IsAccepted r
    unfolding parse_request_line
    parse_request_line-IsAccepted line r h = elim (Bool-cases (is_empty line)) [
      | inl bad ↦ absurd (cc (rw (bad, parse_request_line) at h))
      | inr full ↦ elim (Bool-cases (ltb max_line_bytes (utf8_length line))) [
        | inl bad ↦ absurd (cc (rw (full, bad, parse_request_line) at h))
        | inr short ↦ elim (Bool-cases (any is_control line)) [
          | inl bad ↦ absurd (cc (rw (full, short, bad, parse_request_line) at h))
          | inr clean ↦ (
            ground arith,
            clean,
            parse_tokens-IsAccepted (split line) r
                (rw (full, short, clean, parse_request_line) at h),
          )
        ]
      ]
    ]
