-- ===== src/Llm/Batches.antt =====
-- The loop of `complete_parallel_with_diagnostics` in zen_ma2_agent/llm/router.py, turn by turn: after the
-- slots `p` were asked, the dictionaries hold exactly what these slots answered.
use Prim.Native.Nat.{ℕ, suc, ◌+◌, ◌≤◌}
use native.Mathlib.Omega.{arith}
use zen_ma2_agent.Prelude.{
  ◌≡◌, refl, sym, ◌∙◌, ap, inl, inr, false, none, some, List, [], ◌∷◌, ◌++◌, map, length,
  Bool-cases, Option-cases,
}
use zen_ma2_agent.Prelude.Eq.{◌==◌, nat_eq, member, ==_false, ==_ne}
use zen_ma2_agent.Prelude.Dict.{Dict, lookup, insert}
use zen_ma2_agent.Prelude.Text.{Text}
use zen_ma2_agent.Llm.Slots.{Builtins, ProviderSlot}
use zen_ma2_agent.Llm.Parallel.{Reply, Diagnostic, Progress, content_of, diagnostic_of}

number_of : ProviderSlot → ℕ
number_of s = s.number

-- No slot of a list has the number.
abbrev pub Absent : ℕ → List ProviderSlot → Type 0
Absent n slots = member n (map (λ s. s.number) slots) ≡ false

-- No two slots have the same number.
abbrev pub NoRepeat : List ProviderSlot → Type 0
NoRepeat [] = Unit
NoRepeat (s ∷ slots) = Absent s.number slots × NoRepeat slots

other_number :
    (n : ℕ) (s : ProviderSlot) (p r : List ProviderSlot)
    → Absent n (p ++ s ∷ r)
    → (s.number == n) ≡ false
other_number n s [] r h = elim (Bool-cases (s.number == n)) [
  | inl e ↦ absurd (cc (rw e at h))
  | inr e ↦ e
]
other_number n s (t ∷ p) r h = elim (Bool-cases (t.number == n)) [
  | inl e ↦ absurd (cc (rw e at h))
  | inr e ↦ other_number n s p r (rw e at h)
]

-- A slot further on has a number of its own.
pub NoRepeat-split :
    (s : ProviderSlot) (p r : List ProviderSlot) → NoRepeat (p ++ s ∷ r) → Absent s.number p
NoRepeat-split s [] r h = refl
NoRepeat-split s (t ∷ p) r h =
    let e : (t.number == s.number) ≡ false =
      ==_ne t.number s.number
        (λ same. ==_false s.number t.number (other_number t.number s p r h.0) (sym same)) in
    rw (e, NoRepeat-split s p r h.1)

pub insert_fresh :
    {V : Type 0} (k : ℕ) (v : V) (d : Dict ℕ V)
    → lookup k d ≡ none
    → insert k v d ≡ d ++ (k, v) ∷ []
unfolding insert lookup
insert_fresh k v [] h = refl
insert_fresh k v ((j, w) ∷ d) h = elim (Bool-cases (j == k)) [
  | inl same ↦ absurd (cc (rw same at h))
  | inr other ↦ rw other (ap (◌∷◌ (j, w)) (insert_fresh k v d (rw other at h)))
]

module _ (py : Builtins) (reply : ProviderSlot → Reply) where
  -- The successes of a list of slots, in its order.
  unfoldable pub answers : List ProviderSlot → List (Text × ProviderSlot)
  answers [] = []
  answers (s ∷ slots) = elim (content_of (reply s)) [
    | none ↦ answers slots
    | some content ↦ (content, s) ∷ answers slots
  ]

  -- The rows of a list of slots that are asked one after the other.
  unfoldable pub rows : (order : ℕ) → List ProviderSlot → List Diagnostic
  rows order [] = []
  rows order (s ∷ slots) = diagnostic_of py (suc order) s (reply s) ∷ rows (suc order) slots

  unfoldable pub result_entries : List ProviderSlot → Dict ℕ (Text × ProviderSlot)
  result_entries [] = []
  result_entries (s ∷ slots) = elim (content_of (reply s)) [
    | none ↦ result_entries slots
    | some content ↦ (s.number, (content, s)) ∷ result_entries slots
  ]

  unfoldable pub row_entries : (order : ℕ) → List ProviderSlot → Dict ℕ Diagnostic
  row_entries order [] = []
  row_entries order (s ∷ slots) =
      (s.number, diagnostic_of py (suc order) s (reply s)) ∷ row_entries (suc order) slots

  -- The state after the slots `p` were asked, up to the two counters.
  abbrev pub after_slots : List ProviderSlot → (next order : ℕ) → Progress
  after_slots p n k = record {
    results = result_entries p;
    diagnostics = row_entries 0 p;
    next_index = n;
    attempt_order = k;
  }

  pub length-result_entries :
      (p : List ProviderSlot) → length (result_entries p) ≡ length (answers p)
  unfolding result_entries answers
  length-result_entries [] = refl
  length-result_entries (s ∷ p) = elim (Option-cases (content_of (reply s))) [
    | inl e ↦ rw (e, result_entries, answers) (length-result_entries p)
    | inr (c, e) ↦ rw (e, result_entries, answers) (ap suc (length-result_entries p))
  ]

  pub answers-append : (p q : List ProviderSlot) → answers (p ++ q) ≡ answers p ++ answers q
  unfolding answers
  answers-append [] q = refl
  answers-append (s ∷ p) q = elim (Option-cases (content_of (reply s))) [
    | inl e ↦ rw (e, answers) (answers-append p q)
    | inr (c, e) ↦ rw (e, answers) (ap (◌∷◌ (c, s)) (answers-append p q))
  ]

  pub length-answers_le : (p : List ProviderSlot) → length (answers p) ≤ length p
  unfolding answers
  length-answers_le [] = omega arith
  length-answers_le (s ∷ p) = elim (Option-cases (content_of (reply s))) [
    | inl e ↦ rw (e, answers) (omega (arith, length-answers_le p))
    | inr (c, e) ↦ rw (e, answers) (omega (arith, length-answers_le p))
  ]

  pub result_entries-append :
      (p q : List ProviderSlot) → result_entries (p ++ q) ≡ result_entries p ++ result_entries q
  unfolding result_entries
  result_entries-append [] q = refl
  result_entries-append (s ∷ p) q = elim (Option-cases (content_of (reply s))) [
    | inl e ↦ rw (e, result_entries) (result_entries-append p q)
    | inr (c, e) ↦ rw (e, result_entries) (ap (◌∷◌ (s.number, (c, s))) (result_entries-append p q))
  ]

  pub row_entries-append :
      (order : ℕ) (p q : List ProviderSlot)
      → row_entries order (p ++ q) ≡ row_entries order p ++ row_entries (order + length p) q
  unfolding row_entries
  row_entries-append order [] q = ap (λ n. row_entries n q) (omega arith)
  row_entries-append order (s ∷ p) q =
      ap (◌∷◌ (s.number, diagnostic_of py (suc order) s (reply s))) (
        row_entries-append (suc order) p q
        ∙ ap (λ n. row_entries (suc order) p ++ row_entries n q) (omega arith))

  pub missing_result :
      (n : ℕ) (p : List ProviderSlot) → Absent n p → lookup n (result_entries p) ≡ none
  unfolding result_entries lookup
  missing_result n [] h = refl
  missing_result n (s ∷ p) h = elim (Bool-cases (s.number == n)) [
    | inl same ↦ absurd (cc (rw same at h))
    | inr other ↦ elim (Option-cases (content_of (reply s))) [
      | inl e ↦ rw (e, result_entries) (missing_result n p (rw other at h))
      | inr (c, e) ↦ rw (e, result_entries) (rw other (missing_result n p (rw other at h)))
    ]
  ]

  pub missing_row :
      (n order : ℕ) (p : List ProviderSlot) → Absent n p → lookup n (row_entries order p) ≡ none
  unfolding row_entries lookup
  missing_row n order [] h = refl
  missing_row n order (s ∷ p) h = elim (Bool-cases (s.number == n)) [
    | inl same ↦ absurd (cc (rw same at h))
    | inr other ↦ rw other (missing_row n (suc order) p (rw other at h))
  ]
