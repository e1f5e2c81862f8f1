-- ===== src/Timecode/Laws.antt =====
-- The offset that zen_ma2_agent/timecode_offset.py writes out is the one that was resolved.
use Prim.Native.Nat.{ℕ, zero, suc, ◌+◌, ◌-◌, ◌*◌, ◌/◌, ◌%◌, ◌<◌}
use native.Mathlib.Omega.{arith}
use zen_ma2_agent.Prelude.{
  Bool, true, ◌||◌, ◌&&◌, if◌then◌else◌, leb, all, all-append, length, length-append, ◌≡◌, ◌≢◌,
  refl, ◌∙◌, ap, inl, inr, false, not, Option, none, some, List, [], ◌∷◌, ◌++◌, ltb, nat_beq, All,
  All-append, append_assoc, Bool-cases, Option-cases, ok, bind-ok, raise_if-ok, ok_inj,
}
use zen_ma2_agent.Prelude.Eq.{◌==◌, ==_self}
use zen_ma2_agent.Prelude.Text.{text_eq, Text, codes, digits, decimal, split_once}
use zen_ma2_agent.Json.{pos, negsuc, Fields, get}
use zen_ma2_agent.Workflow.{Intent}
use zen_ma2_agent.Timecode.{
  unsupported_intent, bad_offset, range_offset, not_at_30_fps, Builtins, TimecodeOffsetSpec, int_at,
  find_timecode, offset_of, number_of, or_not_found, resolve_timecode_offset_spec, two_digits,
  ma2_seconds,
}

-- The number that a text of digits stands for.
unfoldable pub value_from : ℕ → Text → ℕ
value_from n [] = n
value_from n (c ∷ s) = value_from (n * 10 + (c - 48)) s

value_from-append_one :
    (n : ℕ) (s : Text) (c : ℕ) → value_from n (s ++ c ∷ []) ≡ value_from n s * 10 + (c - 48)
unfolding value_from
value_from-append_one n [] c = refl
value_from-append_one n (d ∷ s) c = value_from-append_one (n * 10 + (d - 48)) s c

value_from-digits : (fuel n : ℕ) → n < fuel → value_from 0 (digits fuel n) ≡ n
unfolding digits value_from
value_from-digits zero n h = absurd (omega (arith, h))
value_from-digits (suc fuel) n h = elim (Bool-cases (ltb n 10)) [
  | inl small ↦ rw small (omega arith)
  | inr large ↦ rw large (
      value_from-append_one 0 (digits fuel (n / 10)) (48 + n % 10)
      ∙ rw (value_from-digits fuel (n / 10) (ground (arith, large, h))) (omega arith))
]

-- No digit is a full stop.
no_stop-digits : (fuel n : ℕ) → All (λ c. nat_beq c 46 ≡ false) (digits fuel n)
unfolding digits
no_stop-digits zero n = tt
no_stop-digits (suc fuel) n = elim (Bool-cases (ltb n 10)) [
  | inl small ↦ rw small (ground arith, tt)
  | inr large ↦ rw large (
      All-append (λ c. nat_beq c 46 ≡ false) (digits fuel (n / 10)) ((48 + n % 10) ∷ [])
        (no_stop-digits fuel (n / 10)) (ground arith, tt))
]

split_once-stop :
    (s t : Text) → All (λ c. nat_beq c 46 ≡ false) s → split_once 46 (s ++ 46 ∷ t) ≡ some (s, t)
unfolding split_once
split_once-stop [] t h = refl
split_once-stop (c ∷ s) t h = rw (h.0, split_once-stop s t h.1)

abbrev pub is_digit : ℕ → Bool
is_digit c = leb 48 c && leb c 57

-- The hundredths of a second that a literal such as `12.50s` stands for: digits, a full stop, two digits and
-- the unit `s`; no other text stands for any.
unfoldable pub read_seconds : Text → Option ℕ
unfolding value_from split_once
read_seconds s = elim (split_once 46 s) [
  | none ↦ none
  | some (whole, part) ↦ elim part [
    | [] ↦ none
    | a ∷ rest ↦ elim rest [
      | [] ↦ none
      | b ∷ unit ↦
          if nat_beq (length whole) 0
            || not (all is_digit whole && is_digit a && is_digit b && unit == codes "s")
          then none
          else some (value_from 0 whole * 100 + ((a - 48) * 10 + (b - 48)))
    ]
  ]
]

are_digits : (fuel n : ℕ) → n < fuel → all is_digit (digits fuel n) ≡ true
unfolding digits
are_digits zero n h = absurd (omega (arith, h))
are_digits (suc fuel) n h = elim (Bool-cases (ltb n 10)) [
  | inl small ↦ rw small (ground arith)
  | inr large ↦ rw large (
      all-append is_digit (digits fuel (n / 10)) ((48 + n % 10) ∷ [])
        (are_digits fuel (n / 10) (ground (arith, large, h))) (ground arith))
]

no_empty : (fuel n : ℕ) → n < fuel → nat_beq (length (digits fuel n)) 0 ≡ false
unfolding digits
no_empty zero n h = absurd (omega (arith, h))
no_empty (suc fuel) n h = elim (Bool-cases (ltb n 10)) [
  | inl small ↦ rw small
  | inr large ↦ rw large (ground (arith, length-append (digits fuel (n / 10)) ((48 + n % 10) ∷ [])))
]

read_seconds-written :
    (s h : ℕ)
    → h < 100
    → read_seconds (decimal s ++ codes "." ++ two_digits h ++ codes "s") ≡ some (s * 100 + h)
unfolding read_seconds decimal
read_seconds-written s h small =
    let tens : is_digit (48 + h / 10) ≡ true = ground (arith, small) in
    let ones : is_digit (48 + h % 10) ≡ true = ground arith in
    rw
      (
        append_assoc (digits (suc s) s) (codes ".") (two_digits h),
        append_assoc (digits (suc s) s) (46 ∷ two_digits h) (codes "s"),
        read_seconds,
        split_once-stop (digits (suc s) s) (two_digits h ++ codes "s") (no_stop-digits (suc s) s),
      )
      (rw
        (
          no_empty (suc s) s (omega arith),
          are_digits (suc s) s (omega arith),
          tens,
          ones,
          ==_self (codes "s"),
          value_from-digits (suc s) s (omega arith),
        )
        (ap some (omega (arith, small))))

-- An offset of whole frames is one of whole tenths of a second.
at_30_fps :
    (m n : ℕ)
    → nat_beq m 0 ≡ false
    → not (nat_beq (m * 30 % 1000) 0) ≡ false
    → m ≡ n
    → (n ≢ 0) × (n % 100 ≡ 0)
at_30_fps m n nonzero whole same =
    ((λ zero_n. ground (arith, nonzero, same, zero_n)), ground (arith, whole, same))

offset_of-ok : (p : Fields) (n : ℕ) → offset_of p ≡ ok n → (n ≢ 0) × (n % 100 ≡ 0)
unfolding offset_of
offset_of-ok p n h = elim (Option-cases (int_at (get "offset_ms" p))) [
  | inl missing ↦ absurd (cc (rw (missing, offset_of) at h))
  | inr (negsuc m, found) ↦ absurd (cc (rw (found, offset_of) at h))
  | inr (pos m, found) ↦
      let (nonzero, h1) = raise_if-ok (nat_beq m 0) bad_offset _ n (rw (found, offset_of) at h) in
      let (_, h2) = raise_if-ok _ range_offset _ n h1 in
      let (whole, h3) = raise_if-ok (not (nat_beq (m * 30 % 1000) 0)) not_at_30_fps _ n h2 in
      at_30_fps m n nonzero whole (ok_inj h3)
]

number_of-then :
    (py : Builtins) (intent : Intent) (timecodes : List Fields) (spec : TimecodeOffsetSpec)
    → resolve_timecode_offset_spec py intent timecodes ≡ ok spec
    → offset_of intent.parameters ≡ ok spec.offset_ms
unfolding resolve_timecode_offset_spec
number_of-then py intent timecodes spec h =
    let (_, h1) = raise_if-ok _ unsupported_intent _ spec h in
    let (number, _, h2) = bind-ok (number_of intent.parameters) _ spec h1 in
    let (timecode, _, h3) = bind-ok (or_not_found (find_timecode py number timecodes)) _ spec h2 in
    let (n, found, h4) = bind-ok (offset_of intent.parameters) _ spec h3 in
    found ∙ ap (λ x. ok x.offset_ms) (ok_inj h4)

-- The text that is written for a resolved offset exists and is a literal of seconds: digits, a full stop, two
-- digits and the unit `s`, which stand for just that offset, and the offset is positive.
pub resolve_timecode_offset_spec-ma2_seconds :
    (py : Builtins) (intent : Intent) (timecodes : List Fields) (spec : TimecodeOffsetSpec)
    → resolve_timecode_offset_spec py intent timecodes ≡ ok spec
    → (text : Text) × (ma2_seconds (pos spec.offset_ms) ≡ ok text)
      × (centis : ℕ) × (read_seconds text ≡ some centis)
      × (centis * 10 ≡ spec.offset_ms)
      × (centis ≢ 0)
unfolding ma2_seconds
resolve_timecode_offset_spec-ma2_seconds py intent timecodes spec h =
    let n = spec.offset_ms in
    let (nonzero, hundred) =
      offset_of-ok intent.parameters n (number_of-then py intent timecodes spec h) in
    let written = read_seconds-written (n / 1000) (n % 1000 / 10) (omega arith) in
    let positive : nat_beq n 0 ≡ false = ground (arith, nonzero) in
    let tens : not (nat_beq (n % 1000 % 10) 0) ≡ false = ground (arith, hundred) in
    (
      decimal (n / 1000) ++ codes "." ++ two_digits (n % 1000 / 10) ++ codes "s",
      rw (positive, tens) refl,
      n / 1000 * 100 + n % 1000 / 10,
      written,
      omega (arith, hundred),
      λ none_left. nonzero (omega (arith, hundred, none_left)),
    )
