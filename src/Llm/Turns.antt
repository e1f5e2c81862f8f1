-- ===== src/Llm/Turns.antt =====
-- All turns of the loop of `complete_parallel_with_diagnostics` in zen_ma2_agent/llm/router.py.
use Prim.Native.Nat.{ℕ, zero, suc, ◌-◌, ◌≤◌, ◌<◌, min}
use native.Mathlib.Omega.{arith}
use mathlib.Core.Path.{subst}
use zen_ma2_agent.Prelude.{
  ◌≡◌, refl, sym, ◌∙◌, ap, ◌⊎◌, inl, inr, true, false, ◌&&◌, List, [], ◌∷◌, ◌++◌, take, drop,
  length, length-append, length-take, length-drop, take-append-drop, append_assoc, ltb, Bool-cases,
  Result, ok,
}
use zen_ma2_agent.Prelude.Eq.{nat_eq}
use zen_ma2_agent.Prelude.Dict.{Dict}
use zen_ma2_agent.Llm.Slots.{Builtins, ProviderSlot}
use zen_ma2_agent.Llm.Parallel.{Reply, Progress, ParallelError, goes_on, run_batches}
use zen_ma2_agent.Llm.Futures.{Completes}
use zen_ma2_agent.Llm.Batches.{
  NoRepeat, answers, after_slots, length-result_entries, answers-append, length-answers_le,
}
use zen_ma2_agent.Llm.Turn.{run_batch_lem}

module _ (py : Builtins) (reply : ProviderSlot → Reply) (finish : ℕ → Dict ℕ Reply → Dict ℕ Reply)
    (completes : (n : ℕ) (xs : Dict ℕ Reply) → Completes xs (finish n xs)) where
  -- Where the loop stops: the slots `asked` were asked, and enough of them succeeded or none was left.
  pub record Stopped (cs : List ProviderSlot) (desired : ℕ) (r : Result ParallelError Progress)
      : Type 0 where
    pub asked : List ProviderSlot
    pub left : List ProviderSlot
    pub position : cs ≡ asked ++ left
    pub progress : r ≡ ok (after_slots py reply asked (length asked) (length asked))
    pub enough :
        (length (answers py reply asked) ≡ desired)
        ⊎ ((left ≡ []) × (length (answers py reply asked) ≤ desired))

  abbrev pub At : List ProviderSlot → Progress
  At p = after_slots py reply p (length p) (length p)

  pub goes_on_lem :
      (p r : List ProviderSlot) (desired : ℕ)
      → goes_on (p ++ r) desired (At p)
        ≡ (ltb (length (answers py reply p)) desired && ltb 0 (length r))
  goes_on_lem p r desired =
      rw (length-result_entries py reply p, length-append p r)
        (ap (λ b. ltb (length (answers py reply p)) desired && b) (ground arith))

  stop :
      (p r : List ProviderSlot) (desired : ℕ)
      → length (answers py reply p) ≤ desired
      → goes_on (p ++ r) desired (At p) ≡ false
      → (result : Result ParallelError Progress) → result ≡ ok (At p)
      → Stopped (p ++ r) desired result
  stop p r desired most stops result e = record {
    asked = p;
    left = r;
    position = refl;
    progress = e;
    enough = enough r (sym (goes_on_lem p r desired) ∙ stops);
  }
    where
      enough :
          (r : List ProviderSlot)
          → (ltb (length (answers py reply p)) desired && ltb 0 (length r)) ≡ false
          → (length (answers py reply p) ≡ desired)
            ⊎ ((r ≡ []) × (length (answers py reply p) ≤ desired))
      enough [] h = inr (refl, most)
      enough (s ∷ r) h = inl (ground (arith, most))

  module _ (p r : List ProviderSlot) (desired concurrency : ℕ) (alone : NoRepeat (p ++ r))
      (many : 1 ≤ concurrency) (on : goes_on (p ++ r) desired (At p) ≡ true) where
    abbrev pub width : ℕ
    width = min concurrency (desired - length (answers py reply p))

    wanted : (length (answers py reply p) < desired) × (0 < length r)
    wanted = ground (arith, sym (goes_on_lem p r desired) ∙ on)

    pub split_again : (p ++ take width r) ++ drop width r ≡ p ++ r
    split_again =
        append_assoc p (take width r) (drop width r) ∙ ap (λ x. p ++ x) (take-append-drop width r)

    fewer : (fuel : ℕ) → length r ≤ suc fuel → length (drop width r) ≤ fuel
    fewer fuel h = omega (arith, length-drop width r, wanted.0, wanted.1, many, h)

    still_most : length (answers py reply (p ++ take width r)) ≤ desired
    still_most = rw (answers-append py reply p (take width r)) (
        omega (
          arith,
          length-append (answers py reply p) (answers py reply (take width r)),
          length-answers_le py reply (take width r),
          length-take width r,
          wanted.0,
        ))

  -- From a state in which the slots `p` were asked and the slots `r` are left, with fuel for each of these, the
  -- loop ends without an error: the slots asked are the first ones, the dictionaries hold exactly what they
  -- answered, and enough of them succeeded or none is left. This for slots with different numbers, at least
  -- one request at a time, and any order in which requests complete.
  pub run_batches-Stopped :
      (fuel : ℕ) (p r : List ProviderSlot) (desired concurrency : ℕ)
      → NoRepeat (p ++ r)
      → 1 ≤ concurrency
      → length r ≤ fuel
      → length (answers py reply p) ≤ desired
      → Stopped
          (p ++ r)
          desired
          (run_batches py reply finish fuel (p ++ r) desired concurrency (At p))
  unfolding run_batches
  run_batches-Stopped zero p r desired concurrency alone many fuel most =
      elim (Bool-cases (goes_on (p ++ r) desired (At p))) [
        | inr stops ↦ rw stops (stop p r desired most stops (ok (At p)) refl)
        | inl on ↦ absurd (omega (arith, (wanted p r desired concurrency alone many on).1, fuel))
      ]
  run_batches-Stopped (suc fuel) p r desired concurrency alone many fuel_left most =
      elim (Bool-cases (goes_on (p ++ r) desired (At p))) [
        | inr stops ↦ rw stops (stop p r desired most stops (ok (At p)) refl)
        | inl on ↦
            let b = take (width p r desired concurrency alone many on) r in
            let rest = drop (width p r desired concurrency alone many on) r in
            let again = split_again p r desired concurrency alone many on in
            rw on (
              rw (run_batch_lem py reply finish completes p r desired concurrency alone) (
                subst
                  (λ cs.
                    Stopped cs desired
                      (run_batches py reply finish fuel cs desired concurrency (At (p ++ b))))
                  again
                  (run_batches-Stopped fuel (p ++ b) rest desired concurrency (rw again alone) many
                    (fewer p r desired concurrency alone many on fuel fuel_left)
                    (still_most p r desired concurrency alone many on))))
      ]
