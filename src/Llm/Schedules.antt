-- ===== src/Llm/Schedules.antt =====
-- The result of `complete_parallel_with_diagnostics` in zen_ma2_agent/llm/router.py does not depend on the
-- order in which its requests complete.
use Prim.Native.Nat.{ℕ, zero, suc, ◌-◌, min}
use mathlib.Core.Path.{subst}
use zen_ma2_agent.Prelude.{
  ◌≡◌, refl, ◌∙◌, ap, inl, inr, List, [], ◌++◌, take, drop, length, append_assoc, take-append-drop,
  Bool-cases,
}
use zen_ma2_agent.Prelude.Dict.{Dict}
use zen_ma2_agent.Prelude.Text.{Text}
use zen_ma2_agent.Llm.Slots.{Builtins, ProviderSlot}
use zen_ma2_agent.Llm.Router.{ProviderRouter, candidates}
use zen_ma2_agent.Llm.Parallel.{Reply, goes_on, run_batches, complete_parallel_with_diagnostics}
use zen_ma2_agent.Llm.Futures.{Completes}
use zen_ma2_agent.Llm.Batches.{NoRepeat, answers, result_entries, row_entries}
use zen_ma2_agent.Llm.Turn.{run_batch_lem}
use zen_ma2_agent.Llm.Turns.{At}

module _ (py : Builtins) (reply : ProviderSlot → Reply)
    (finish finish' : ℕ → Dict ℕ Reply → Dict ℕ Reply)
    (completes : (n : ℕ) (xs : Dict ℕ Reply) → Completes xs (finish n xs))
    (completes' : (n : ℕ) (xs : Dict ℕ Reply) → Completes xs (finish' n xs)) where
  run_batches-same :
      (fuel : ℕ) (p r : List ProviderSlot) (desired concurrency : ℕ)
      → NoRepeat (p ++ r)
      → run_batches py reply finish fuel
          (p ++ r)
          desired
          concurrency
          (At py reply finish completes p)
        ≡ run_batches py reply finish' fuel
            (p ++ r)
            desired
            concurrency
            (At py reply finish completes p)
  unfolding run_batches
  run_batches-same zero p r desired concurrency alone = refl
  run_batches-same (suc fuel) p r desired concurrency alone =
      let k = min concurrency (desired - length (answers py reply p)) in
      elim (Bool-cases (goes_on (p ++ r) desired (At py reply finish completes p))) [
        | inr stops ↦ rw stops
        | inl on ↦
            let again =
              append_assoc p (take k r) (drop k r) ∙ ap (λ x. p ++ x) (take-append-drop k r) in
            rw on (
              rw
                (
                  run_batch_lem py reply finish completes p r desired concurrency alone,
                  run_batch_lem py reply finish' completes' p r desired concurrency alone,
                )
                (subst
                  (λ cs.
                    run_batches py reply finish fuel cs desired concurrency
                      (At py reply finish completes (p ++ take k r))
                    ≡ run_batches py reply finish' fuel cs desired concurrency
                        (At py reply finish completes (p ++ take k r)))
                  again
                  (run_batches-same fuel (p ++ take k r) (drop k r) desired concurrency
                    (rw again alone))))
      ]

  -- Two orders of completion give the same results and the same rows, or the same error, for a role whose
  -- candidates have different numbers.
  pub complete_parallel_with_diagnostics-schedule :
      (role : Text) (limit : ℕ) (r : ProviderRouter)
      → NoRepeat (candidates py role r)
      → complete_parallel_with_diagnostics py reply finish role limit r
        ≡ complete_parallel_with_diagnostics py reply finish' role limit r
  unfolding complete_parallel_with_diagnostics answers result_entries row_entries
  complete_parallel_with_diagnostics-schedule role limit r alone =
      let cs = candidates py role r in
      let desired = min limit (length cs) in
      let same = run_batches-same (length cs) [] cs desired (min r.parallelism desired) alone in
      rw same
