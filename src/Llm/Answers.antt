-- ===== src/Llm/Answers.antt =====
-- What `complete_parallel_with_diagnostics` of zen_ma2_agent/llm/router.py returns, against the successes of
-- the candidates in their order.
use Prim.Native.Nat.{ℕ, zero, suc, ◌≤◌, ◌<◌, min}
use native.Mathlib.Omega.{arith}
use mathlib.Core.Path.{subst, ap₂}
use zen_ma2_agent.Prelude.{
  ◌≡◌, refl, sym, ◌∙◌, ap, ◌⊎◌, inl, inr, true, false, ◌||◌, List, [], ◌∷◌, ◌++◌, map, take, length,
  length-append, All, ltb, leb, nat_beq, Bool-cases, Option-cases, Result, ok, ◌>>=◌,
}
use zen_ma2_agent.Prelude.Eq.{◌==◌, nat_eq, ==_ne, ==_self, ==_false}
use zen_ma2_agent.Prelude.Dict.{Dict, lookup}
use zen_ma2_agent.Prelude.Sort.{IsSorted, sort, sort-fixed}
use zen_ma2_agent.Prelude.Text.{Text}
use zen_ma2_agent.Llm.Slots.{Builtins, ProviderSlot}
use zen_ma2_agent.Llm.Router.{ProviderRouter, candidates}
use zen_ma2_agent.Llm.Parallel.{
  Reply, Diagnostic, Progress, ParallelError, content_of, diagnostic_of, pick, start, order_leb,
  run_batches, complete_parallel_with_diagnostics,
}
use zen_ma2_agent.Llm.Futures.{Completes}
use zen_ma2_agent.Llm.Batches.{
  Absent, NoRepeat, answers, rows, result_entries, row_entries, answers-append, missing_result,
  length-answers_le,
}
use zen_ma2_agent.Llm.Turn.{Absent-front}
use zen_ma2_agent.Llm.Turns.{Stopped, run_batches-Stopped}

pick-Absent :
    (s : ProviderSlot) (x : Text × ProviderSlot) (d : Dict ℕ (Text × ProviderSlot))
    (slots : List ProviderSlot)
    → Absent s.number slots
    → pick ((s.number, x) ∷ d) slots ≡ pick d slots
unfolding pick lookup
pick-Absent s x d [] h = refl
pick-Absent s x d (t ∷ slots) h = elim (Bool-cases (t.number == s.number)) [
  | inl same ↦ absurd (cc (rw same at h))
  | inr other ↦
      let e : (s.number == t.number) ≡ false =
        ==_ne s.number t.number (λ same. ==_false t.number s.number other (sym same)) in
      let rest = pick-Absent s x d slots (rw other at h) in
      elim (Option-cases (lookup t.number d)) [
        | inl missing ↦ rw (e, pick) (rw (missing, pick) rest)
        | inr (y, found) ↦ rw (e, pick) (rw (found, pick) (ap (◌∷◌ y) rest))
      ]
]

pick-nothing : (slots : List ProviderSlot) → pick [] slots ≡ []
unfolding pick lookup
pick-nothing [] = refl
pick-nothing (s ∷ slots) = pick-nothing slots

module _ (py : Builtins) (reply : ProviderSlot → Reply) where
  pick-answers :
      (p r : List ProviderSlot)
      → NoRepeat (p ++ r)
      → pick (result_entries py reply p) (p ++ r) ≡ answers py reply p
  unfolding pick lookup result_entries answers
  pick-answers [] r h = pick-nothing r
  pick-answers (s ∷ p) r h = elim (Option-cases (content_of (reply s))) [
    | inl e ↦
        rw (e, result_entries, answers)
          (rw (missing_result py reply s.number p (Absent-front s.number p r h.0), pick)
            (pick-answers p r h.1))
    | inr (c, e) ↦
        rw (e, result_entries, answers)
          (rw (==_self s.number, pick)
            (ap (◌∷◌ (c, s)) (
              pick-Absent s (c, s) (result_entries py reply p) (p ++ r) h.0
              ∙ pick-answers p r h.1)))
  ]

  rows-row_entries :
      (order : ℕ) (p : List ProviderSlot)
      → map (λ x. x.1) (row_entries py reply order p) ≡ rows py reply order p
  unfolding row_entries rows
  rows-row_entries order [] = refl
  rows-row_entries order (s ∷ p) =
      ap (◌∷◌ (diagnostic_of py (suc order) s (reply s))) (rows-row_entries (suc order) p)

  diagnostic_of-order :
      (order : ℕ) (s : ProviderSlot) (r : Reply)
      → (diagnostic_of py order s r).attempt_order ≡ order
  unfolding diagnostic_of
  diagnostic_of-order order s r = elim (Option-cases (content_of r)) [
    | inl e ↦ rw (e, diagnostic_of)
    | inr (c, e) ↦ rw (e, diagnostic_of)
  ]

  rows-later :
      (k order : ℕ) (d : Diagnostic) (p : List ProviderSlot)
      → d.attempt_order ≤ order
      → All (λ x. order_leb d x ≡ true) (rows py reply order p)
  unfolding rows
  rows-later k order d [] h = tt
  rows-later k order d (s ∷ p) h = (
    rw (diagnostic_of-order (suc order) s (reply s)) (ground (arith, h)),
    rows-later k (suc order) d p (omega (arith, h)),
  )

  rows-IsSorted : (order : ℕ) (p : List ProviderSlot) → IsSorted order_leb (rows py reply order p)
  unfolding rows
  rows-IsSorted order [] = tt
  rows-IsSorted order (s ∷ p) = (
    rows-later 0 (suc order) (diagnostic_of py (suc order) s (reply s)) p
        (rw (diagnostic_of-order (suc order) s (reply s)) (omega arith)),
    rows-IsSorted (suc order) p,
  )

take-front :
    {A : Type 0} (n : ℕ) (xs ys : List A)
    → length xs ≤ n
    → (length xs ≡ n) ⊎ (length ys ≡ 0)
    → take n (xs ++ ys) ≡ xs
take-front zero [] ys h e = refl
take-front (suc n) [] [] h e = refl
take-front (suc n) [] (y ∷ ys) h e =
    absurd (elim e [ inl full ↦ omega (arith, full) | inr none_left ↦ omega (arith, none_left) ])
take-front zero (x ∷ xs) ys h e = absurd (omega (arith, h))
take-front (suc n) (x ∷ xs) ys h e = ap (◌∷◌ x) (
    take-front n xs ys (omega (arith, h))
      (elim e [ inl full ↦ inl (omega (arith, full)) | inr none_left ↦ inr none_left ]))

module _ (py : Builtins) (reply : ProviderSlot → Reply) (finish : ℕ → Dict ℕ Reply → Dict ℕ Reply)
    (completes : (n : ℕ) (xs : Dict ℕ Reply) → Completes xs (finish n xs)) where
  -- A stopped loop has the first successes that were wanted.
  stopped_answers :
      (limit : ℕ) (asked left : List ProviderSlot)
      → (length (answers py reply asked) ≡ min limit (length (asked ++ left)))
        ⊎ ((left ≡ []) × (length (answers py reply asked) ≤ min limit (length (asked ++ left))))
      → take limit (answers py reply (asked ++ left)) ≡ answers py reply asked
  stopped_answers limit asked left h = rw (answers-append py reply asked left) (
      take-front limit (answers py reply asked) (answers py reply left)
        (elim h [ inl full ↦ omega (arith, full) | inr (_, most) ↦ omega (arith, most) ])
        (elim h [
          | inl full ↦ elim (Bool-cases (leb limit (length (asked ++ left)))) [
            | inl fits ↦ inl (ground (arith, full))
            | inr over ↦ inr (
                ground (
                  arith,
                  full,
                  length-append asked left,
                  length-answers_le py reply asked,
                  length-answers_le py reply left,
                ))
          ]
          | inr (nothing, _) ↦ inr (rw nothing (unfold answers in refl))
        ]))

  nothing_left :
      (limit : ℕ) (asked left : List ProviderSlot)
      → (length (answers py reply asked) ≡ min limit (length (asked ++ left)))
        ⊎ ((left ≡ []) × (length (answers py reply asked) ≤ min limit (length (asked ++ left))))
      → (length (answers py reply asked) ≡ limit) ⊎ (left ≡ [])
  nothing_left limit asked [] h = inr refl
  nothing_left limit asked (s ∷ left) (inr (none_left, _)) = inr none_left
  nothing_left limit asked (s ∷ left) (inl full) =
      inl (omega (arith, full, length-append asked (s ∷ left), length-answers_le py reply asked))

  -- What is returned of the dictionaries of a stopped loop.
  returned :
      (limit : ℕ) (asked left : List ProviderSlot)
      → NoRepeat (asked ++ left)
      → (length (answers py reply asked) ≡ min limit (length (asked ++ left)))
        ⊎ ((left ≡ []) × (length (answers py reply asked) ≤ min limit (length (asked ++ left))))
      → ◌≡◌ {A = List (Text × ProviderSlot) × List Diagnostic}
          (
            pick (result_entries py reply asked) (asked ++ left),
            sort order_leb (map (λ x. x.1) (row_entries py reply 0 asked)),
          )
          (take limit (answers py reply (asked ++ left)), rows py reply 0 asked)
  returned limit asked left alone h =
      ap₂ (λ x y. (x, y))
        (pick-answers py reply asked left alone ∙ sym (stopped_answers limit asked left h))
        (rw (rows-row_entries py reply 0 asked)
          (sort-fixed order_leb (rows py reply 0 asked) (rows-IsSorted py reply 0 asked)))

  module _ (role : Text) (limit : ℕ) (r : ProviderRouter) (low : 1 ≤ limit) (high : limit ≤ 4)
      (many : 1 ≤ r.parallelism) (some_slot : 0 < length (candidates py role r))
      (alone : NoRepeat (candidates py role r)) where
    abbrev desired : ℕ
    desired = min limit (length (candidates py role r))

    abbrev loop : Result ParallelError Progress
    loop =
        run_batches py reply finish (length (candidates py role r)) (candidates py role r) desired
          (min r.parallelism desired) start

    loop-Stopped : Stopped py reply finish completes (candidates py role r) desired loop
    unfolding answers result_entries row_entries
    loop-Stopped =
        run_batches-Stopped py reply finish completes (length (candidates py role r)) []
          (candidates py role r) desired (min r.parallelism desired) alone
          (omega (arith, low, many, some_slot)) (omega arith) (omega arith)

    runs : complete_parallel_with_diagnostics py reply finish role limit r ≡ (
        loop >>= λ p.
        ok (pick p.results (candidates py role r), sort order_leb (map (λ x. x.1) p.diagnostics)))
    unfolding complete_parallel_with_diagnostics
    runs =
        let a : (ltb limit 1 || ltb 4 limit) ≡ false = ground (arith, low, high) in
        let b : nat_beq (length (candidates py role r)) 0 ≡ false = ground (arith, some_slot) in
        rw a (rw b refl)

    -- The slots that are asked are the first candidates; the results are the first `limit` successes of all
    -- candidates, in their order; the rows are those of the slots that were asked, in order; and slots are
    -- asked until `limit` of them answered or none is left. This for a limit of 1 to 4, a parallelism of at
    -- least 1, candidates with different numbers, at least one, and any order in which requests complete.
    pub complete_parallel_with_diagnostics-answers :
        (asked : List ProviderSlot) × (left : List ProviderSlot) × (candidates py role r
          ≡ asked ++ left)
        × (complete_parallel_with_diagnostics py reply finish role limit r
            ≡ ok (take limit (answers py reply (candidates py role r)), rows py reply 0 asked))
        × ((length (answers py reply asked) ≡ limit) ⊎ (left ≡ []))
    complete_parallel_with_diagnostics-answers =
        let stopped = loop-Stopped in
        let cs = candidates py role r in
        let enough =
          subst
            (λ c.
              (length (answers py reply stopped.asked) ≡ min limit (length c))
              ⊎ ((stopped.left ≡ [])
                  × (length (answers py reply stopped.asked) ≤ min limit (length c))))
            stopped.position stopped.enough in
        let result =
          returned limit stopped.asked stopped.left (subst NoRepeat stopped.position alone)
            enough in
        (
          stopped.asked,
          stopped.left,
          stopped.position,
          runs ∙ (rw stopped.progress (ap ok (rw stopped.position result))),
          nothing_left limit stopped.asked stopped.left enough,
        )
