-- ===== src/Llm/Parallel.antt =====
-- `ProviderRouter.complete_parallel` and `complete_parallel_with_diagnostics` of zen_ma2_agent/llm/router.py:
-- batches of concurrent requests, until enough succeeded. A slot is asked at most once in a stage, so
-- `reply` gives what it answers whenever that is; `finish` gives the order in which the requests of a batch
-- complete, by the index of the batch's first slot. The elapsed time of a request is left out.
use Prim.Native.Nat.{ℕ, zero, suc, ◌+◌, ◌-◌, min}
use zen_ma2_agent.Prelude.{
  Bool, true, false, not, ◌&&◌, ◌||◌, Option, none, some, List, [], ◌∷◌, if◌then◌else◌, map, take,
  drop, length, all, filter, ltb, leb, nat_beq, Result, ok, raise, raise_if, ◌>>=◌, ◌>>◌,
}
use zen_ma2_agent.Prelude.Eq.{nat_eq}
use zen_ma2_agent.Prelude.Dict.{Dict, lookup, insert}
use zen_ma2_agent.Prelude.Sort.{sort}
use zen_ma2_agent.Prelude.Text.{Text, codes, is_space}
use zen_ma2_agent.Llm.Slots.{Builtins, ProviderSlot, SafeIdentity, safe_identity}
use zen_ma2_agent.Llm.Router.{ProviderRouter, candidates}
use zen_ma2_agent.Llm.Complete.{Failure, failure_diagnostic}

-- What the adapter returned or raised for one slot.
abbrev pub Reply : Type 0
Reply = Result Failure Text

-- A row of the outcomes per slot.
pub record Diagnostic : Type 0 where
  pub slot_number : ℕ
  pub provider_identity : SafeIdentity
  pub attempt_order : ℕ
  pub transport_success : Bool
  pub failure_class : Text
  pub failure_reason : Option Text

pub record Progress : Type 0 where
  pub results : Dict ℕ (Text × ProviderSlot)
  pub diagnostics : Dict ℕ Diagnostic
  pub next_index : ℕ
  pub attempt_order : ℕ

pub data ParallelError : Type 0 where
  bad_limit no_candidate missing_completion : ParallelError
  -- the fuel of the model ran out
  out_of_fuel : ParallelError
  -- the slots that failed and why
  all_failed : List (ℕ × Option Text) → ParallelError

-- `content.strip()` is not empty
unfoldable pub has_text : Text → Bool
unfolding is_space
has_text s = not (all is_space s)

-- The content that counts as a success.
unfoldable pub content_of : Reply → Option Text
unfolding has_text
content_of (ok content) = if has_text content then some content else none
content_of (raise e) = none

-- The row of a slot that was asked.
unfoldable pub diagnostic_of : Builtins → (order : ℕ) → ProviderSlot → Reply → Diagnostic
unfolding content_of failure_diagnostic
diagnostic_of py order slot r =
    let (class, reason) = failure_diagnostic py (elim r [ ok content ↦ none | raise e ↦ some e ]) in
    elim (content_of r) [
      | some content ↦ record {
        slot_number = slot.number;
        provider_identity = safe_identity slot;
        attempt_order = order;
        transport_success = true;
        failure_class = codes "NONE";
        failure_reason = none;
      }
      | none ↦ record {
        slot_number = slot.number;
        provider_identity = safe_identity slot;
        attempt_order = order;
        transport_success = false;
        failure_class = class;
        failure_reason = some reason;
      }
    ]

-- The slots of a batch with their numbers in the order of the attempts.
unfoldable pub index_batch : (order : ℕ) → List ProviderSlot → Dict ℕ ProviderSlot
index_batch order [] = []
index_batch order (slot ∷ slots) = (suc order, slot) ∷ index_batch (suc order) slots

-- `completed`, filled as the requests complete.
unfoldable pub fill : Dict ℕ Reply → Dict ℕ Reply → Dict ℕ Reply
unfolding insert
fill [] completed = completed
fill ((order, r) ∷ finished) completed = fill finished (insert order r completed)

-- The row and, for a success, the result of one slot.
unfoldable pub record_reply : Builtins → ℕ → ProviderSlot → Reply → Progress → Progress
unfolding insert content_of diagnostic_of
record_reply py order slot r p = record p {
  results = elim (content_of r) [
    | none ↦ p.results
    | some content ↦ insert slot.number (content, slot) p.results
  ];
  diagnostics = insert slot.number (diagnostic_of py order slot r) p.diagnostics;
}

-- `for order, slot in indexed_batch: …`
unfoldable pub collect :
    Builtins → Dict ℕ ProviderSlot → Dict ℕ Reply → Progress → Result ParallelError Progress
unfolding lookup record_reply
collect py [] completed p = ok p
collect py ((order, slot) ∷ batch) completed p = elim (lookup order completed) [
  | none ↦ raise missing_completion
  | some r ↦ collect py batch completed (record_reply py order slot r p)
]

-- `tuple(results[slot.number] for slot in candidates if slot.number in results)`
unfoldable pub pick : Dict ℕ (Text × ProviderSlot) → List ProviderSlot → List (Text × ProviderSlot)
unfolding lookup
pick results [] = []
pick results (slot ∷ slots) = elim (lookup slot.number results) [
  | none ↦ pick results slots
  | some x ↦ x ∷ pick results slots
]

-- The test of the loop.
abbrev pub goes_on : List ProviderSlot → (desired : ℕ) → Progress → Bool
goes_on cs desired p = ltb (length p.results) desired && ltb p.next_index (length cs)

abbrev pub start : Progress
start = record { results = []; diagnostics = []; next_index = 0; attempt_order = 0 }

abbrev pub order_leb : Diagnostic → Diagnostic → Bool
order_leb x y = leb x.attempt_order y.attempt_order

module _ (py : Builtins) (reply : ProviderSlot → Reply)
    (finish : ℕ → Dict ℕ Reply → Dict ℕ Reply) where
  -- One turn of the loop.
  unfoldable pub run_batch :
      (cs : List ProviderSlot) (desired concurrency : ℕ) → Progress → Result ParallelError Progress
  unfolding index_batch fill collect
  run_batch cs desired concurrency p =
      let remaining = desired - length p.results in
      let batch = take (min concurrency remaining) (drop p.next_index cs) in
      let indexed = index_batch p.attempt_order batch in
      let requests = map (λ x. (x.0, reply x.1)) indexed in
      collect py indexed (fill (finish p.next_index requests) []) (record p {
        next_index = p.next_index + length batch;
        attempt_order = p.attempt_order + length batch;
      })

  -- The loop, on fuel: a turn asks at least one more slot.
  unfoldable pub run_batches :
      (fuel : ℕ) (cs : List ProviderSlot) (desired concurrency : ℕ)
      → Progress
      → Result ParallelError Progress
  unfolding run_batch
  run_batches zero cs desired concurrency p =
      if goes_on cs desired p then raise out_of_fuel else ok p
  run_batches (suc fuel) cs desired concurrency p =
      let rest = run_batches fuel cs desired concurrency in
      if goes_on cs desired p then run_batch cs desired concurrency p >>= rest else ok p

  unfoldable pub complete_parallel_with_diagnostics :
      (role : Text) (limit : ℕ) (r : ProviderRouter)
      → Result ParallelError (List (Text × ProviderSlot) × List Diagnostic)
  unfolding candidates run_batches pick sort
  complete_parallel_with_diagnostics role limit r =
      let cs = candidates py role r in
      if ltb limit 1 || ltb 4 limit
      then raise bad_limit
      else if nat_beq (length cs) 0
      then raise no_candidate
      else let desired = min limit (length cs) in
        run_batches (length cs) cs desired (min r.parallelism desired) start >>= λ p.
        ok (pick p.results cs, sort order_leb (map (λ x. x.1) p.diagnostics))

  unfoldable pub complete_parallel :
      (role : Text) (limit : ℕ) (r : ProviderRouter)
      → Result ParallelError (List (Text × ProviderSlot))
  unfolding complete_parallel_with_diagnostics
  complete_parallel role limit r = do
    (results, rows) ← complete_parallel_with_diagnostics role limit r
    raise_if (nat_beq (length results) 0) (
        all_failed (
          map (λ row. (row.slot_number, row.failure_reason))
            (filter (λ row. not row.transport_success) rows)))
    ok results
