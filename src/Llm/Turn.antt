-- ===== src/Llm/Turn.antt =====
-- One turn of the loop of `complete_parallel_with_diagnostics` in zen_ma2_agent/llm/router.py.
use Prim.Native.Nat.{ℕ, suc, ◌-◌, ◌≤◌, ◌<◌, min}
use native.Mathlib.Omega.{arith}
use mathlib.Core.Path.{subst, ap₂}
use zen_ma2_agent.Prelude.{
  ◌≡◌, refl, sym, ◌∙◌, ap, inl, inr, false, none, some, List, [], ◌∷◌, ◌++◌, map, take, drop,
  length, length-append, take-append-drop, append-nil, append_assoc, Bool-cases, Option-cases, ok,
}
use zen_ma2_agent.Prelude.Eq.{◌==◌, nat_eq, ==_self}
use zen_ma2_agent.Prelude.Dict.{Dict, lookup, insert, Distinct}
use zen_ma2_agent.Llm.Slots.{Builtins, ProviderSlot}
use zen_ma2_agent.Llm.Parallel.{
  Reply, content_of, diagnostic_of, index_batch, fill, record_reply, collect, run_batch,
}
use zen_ma2_agent.Llm.Futures.{Completes, fill-Completes}
use zen_ma2_agent.Llm.Batches.{
  Absent, NoRepeat, NoRepeat-split, insert_fresh, answers, result_entries, row_entries, after_slots,
  length-result_entries, result_entries-append, row_entries-append, missing_result, missing_row,
}

-- The requests of a batch have orders of their own.
missing_order :
    (reply : ProviderSlot → Reply) (k order : ℕ) (b : List ProviderSlot)
    → k ≤ order
    → lookup k (map (λ x. (x.0, reply x.1)) (index_batch order b)) ≡ none
unfolding index_batch lookup
missing_order reply k order [] h = refl
missing_order reply k order (s ∷ b) h =
    let e : (suc order == k) ≡ false = ground arith in
    rw e (missing_order reply k (suc order) b (omega (arith, h)))

requests-Distinct :
    (reply : ProviderSlot → Reply) (order : ℕ) (b : List ProviderSlot)
    → Distinct (map (λ x. (x.0, reply x.1)) (index_batch order b))
unfolding index_batch
requests-Distinct reply order [] = tt
requests-Distinct reply order (s ∷ b) = (
  missing_order reply (suc order) (suc order) b (omega arith),
  requests-Distinct reply (suc order) b,
)

module _ (py : Builtins) (reply : ProviderSlot → Reply) where
  next_results :
      (s : ProviderSlot) (p : List ProviderSlot)
      → Absent s.number p
      → (elim (content_of (reply s)) [
        | none ↦ result_entries py reply p
        | some content ↦ insert s.number (content, s) (result_entries py reply p)
      ])
        ≡ result_entries py reply (p ++ s ∷ [])
  unfolding result_entries
  next_results s p fresh =
      elim (Option-cases (content_of (reply s))) [
        | inl e ↦ rw (e, result_entries) (sym (append-nil (result_entries py reply p)))
        | inr (c, e) ↦
            rw (e, result_entries)
              (insert_fresh s.number (c, s) (result_entries py reply p)
                (missing_result py reply s.number p fresh))
      ]
      ∙ sym (result_entries-append py reply p (s ∷ []))

  next_rows :
      (s : ProviderSlot) (p : List ProviderSlot)
      → Absent s.number p
      → insert s.number (diagnostic_of py (suc (length p)) s (reply s)) (row_entries py reply 0 p)
        ≡ row_entries py reply 0 (p ++ s ∷ [])
  unfolding row_entries
  next_rows s p fresh =
      insert_fresh s.number (diagnostic_of py (suc (length p)) s (reply s))
        (row_entries py reply 0 p) (missing_row py reply s.number 0 p fresh)
      ∙ (ap (λ n. row_entries py reply 0 p ++ row_entries py reply n (s ∷ [])) (omega arith)
          ∙ sym (row_entries-append py reply 0 p (s ∷ [])))

  record_reply-next :
      (s : ProviderSlot) (p : List ProviderSlot) (n k : ℕ)
      → Absent s.number p
      → record_reply py (suc (length p)) s (reply s) (after_slots py reply p n k)
        ≡ after_slots py reply (p ++ s ∷ []) n k
  unfolding record_reply
  record_reply-next s p n k fresh =
      ap₂ (λ x y. record (after_slots py reply p n k) { results = x; diagnostics = y })
        (next_results s p fresh) (next_rows s p fresh)

  -- The replies of a batch, whatever the order in which they completed.
  Collected : Dict ℕ Reply → ℕ → List ProviderSlot → Type 0
  Collected completed order [] = Unit
  Collected completed order (s ∷ b) =
      (lookup (suc order) completed ≡ some (reply s)) × Collected completed (suc order) b

  collect-after_slots :
      (completed : Dict ℕ Reply) (b p : List ProviderSlot) (n k order : ℕ)
      → order ≡ length p
      → Collected completed order b
      → NoRepeat (p ++ b)
      → collect py (index_batch order b) completed (after_slots py reply p n k)
        ≡ ok (after_slots py reply (p ++ b) n k)
  unfolding collect index_batch Collected
  collect-after_slots completed [] p n k order here got alone =
      ap (λ q. ok (after_slots py reply q n k)) (sym (append-nil p))
  collect-after_slots completed (s ∷ b) p n k order here got alone =
      rw (got.0, collect)
        (rw (here, record_reply-next s p n k (NoRepeat-split s p b alone))
          (collect-after_slots completed b (p ++ s ∷ []) n k (suc (length p))
              (omega (arith, length-append p (s ∷ [])))
              (subst (λ o. Collected completed (suc o) b) here got.1)
              (subst NoRepeat (sym (append_assoc p (s ∷ []) b)) alone)
            ∙ ap (λ q. ok (after_slots py reply q n k)) (append_assoc p (s ∷ []) b)))

  requests-Collected :
      (completed : Dict ℕ Reply) (order : ℕ) (b : List ProviderSlot)
      → ((j : ℕ)
          → order < j
          → lookup j completed ≡ lookup j (map (λ x. (x.0, reply x.1)) (index_batch order b)))
      → Collected completed order b
  unfolding Collected index_batch lookup
  requests-Collected completed order [] h = tt
  requests-Collected completed order (s ∷ b) h = (
    h (suc order) (omega arith) ∙ rw (==_self (suc order)),
    requests-Collected completed (suc order) b (λ j above.
        let e : (suc order == j) ≡ false = ground arith in h j (omega (arith, above)) ∙ rw e),
  )

drop-append : {A : Type 0} (p r : List A) → drop (length p) (p ++ r) ≡ r
drop-append [] r = refl
drop-append (x ∷ p) r = drop-append p r

pub Absent-front : (n : ℕ) (p r : List ProviderSlot) → Absent n (p ++ r) → Absent n p
Absent-front n [] r h = refl
Absent-front n (s ∷ p) r h = elim (Bool-cases (s.number == n)) [
  | inl same ↦ absurd (cc (rw same at h))
  | inr other ↦ rw (other, Absent-front n p r (rw other at h))
]

NoRepeat-front : (p r : List ProviderSlot) → NoRepeat (p ++ r) → NoRepeat p
NoRepeat-front [] r h = tt
NoRepeat-front (s ∷ p) r h = (Absent-front s.number p r h.0, NoRepeat-front p r h.1)

NoRepeat-take : (k : ℕ) (p r : List ProviderSlot) → NoRepeat (p ++ r) → NoRepeat (p ++ take k r)
NoRepeat-take k p r h =
    NoRepeat-front (p ++ take k r) (drop k r)
      (rw (append_assoc p (take k r) (drop k r), take-append-drop k r) h)

module _ (py : Builtins) (reply : ProviderSlot → Reply) (finish : ℕ → Dict ℕ Reply → Dict ℕ Reply)
    (completes : (n : ℕ) (xs : Dict ℕ Reply) → Completes xs (finish n xs)) where
  -- A turn asks the next slots, no more than may be asked at once and no more than are still wanted.
  pub run_batch_lem :
      (p r : List ProviderSlot) (desired concurrency : ℕ)
      → NoRepeat (p ++ r)
      → let b = take (min concurrency (desired - length (answers py reply p))) r in
        run_batch py reply finish
          (p ++ r)
          desired
          concurrency
          (after_slots py reply p (length p) (length p))
        ≡ ok (after_slots py reply (p ++ b) (length (p ++ b)) (length (p ++ b)))
  unfolding run_batch
  run_batch_lem p r desired concurrency alone =
      let b = take (min concurrency (desired - length (answers py reply p))) r in
      let requests = map (λ x. (x.0, reply x.1)) (index_batch (length p) b) in
      let completed = fill (finish (length p) requests) [] in
      rw (drop-append p r, length-result_entries py reply p, sym (length-append p b))
        (collect-after_slots py reply completed b p (length (p ++ b)) (length (p ++ b)) (length p)
          refl
          (requests-Collected py reply completed (length p) b (λ j above.
            fill-Completes j requests (finish (length p) requests) (completes (length p) requests)
              (requests-Distinct reply (length p) b)))
          (NoRepeat-take (min concurrency (desired - length (answers py reply p))) p r alone))
