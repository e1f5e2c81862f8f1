-- ===== src/Llm/Stage.antt =====
-- A stage of concurrent requests over the slots of the private configuration: `from_portable_config` and
-- `complete_parallel_with_diagnostics` of zen_ma2_agent/llm/router.py together.
use Prim.Native.Nat.{ℕ, ◌≤◌, ◌<◌}
use native.Mathlib.Omega.{arith}
use zen_ma2_agent.Prelude.{
  ◌≡◌, refl, sym, ◌⊎◌, ◌||◌, List, [], ◌++◌, take, length, ltb, ok, bind-ok, raise_if-ok, ok_inj,
}
use zen_ma2_agent.Prelude.Dict.{Dict}
use zen_ma2_agent.Prelude.Text.{Text}
use zen_ma2_agent.Json.{ℤ, pos, negsuc}
use zen_ma2_agent.Llm.Slots.{Builtins, ProviderSlot, parallelism_out_of_range}
use zen_ma2_agent.Llm.Config.{load_provider_slots}
use zen_ma2_agent.Llm.Router.{
  ProviderRouter, new_router, parallelism_of, parallel_roles_of, from_portable_config, candidates,
}
use zen_ma2_agent.Llm.Parallel.{Reply, complete_parallel_with_diagnostics}
use zen_ma2_agent.Llm.Futures.{Completes}
use zen_ma2_agent.Llm.Batches.{NoRepeat, answers, rows}
use zen_ma2_agent.Llm.Answers.{complete_parallel_with_diagnostics-answers}
use zen_ma2_agent.Llm.Loaded.{load_provider_slots-ok}
use zen_ma2_agent.Llm.Numbers.{candidates-NoRepeat, different_numbers}

new_router-ok :
    (py : Builtins) (mode : Text) (slots : List ProviderSlot) (n : ℤ) (roles : List Text)
    (r : ProviderRouter)
    → new_router py mode slots n roles ≡ ok r
    → (r.slots ≡ slots) × (1 ≤ r.parallelism) × (r.parallelism ≤ 4)
unfolding new_router
new_router-ok py mode slots (negsuc n) roles r h = absurd (cc h)
new_router-ok py mode slots (pos n) roles r h =
    let (within, same) = raise_if-ok (ltb n 1 || ltb 4 n) parallelism_out_of_range _ r h in
    let e = ok_inj same in rw (sym e) (refl, ground (arith, within), ground (arith, within))

-- A router from the configuration asks for one to four replies at once, and its slots differ in number.
from_portable_config-ok :
    (py : Builtins) (values : Dict Text Text) (r : ProviderRouter)
    → from_portable_config py values ≡ ok r
    → NoRepeat r.slots × (1 ≤ r.parallelism) × (r.parallelism ≤ 4)
unfolding from_portable_config
from_portable_config-ok py values r h =
    let (loaded, load, h1) = bind-ok (load_provider_slots py values) _ r h in
    let (n, _, h2) = bind-ok (parallelism_of py values) _ r h1 in
    let (count, _, numbers, _, _) = load_provider_slots-ok py values loaded.0 loaded.1 load in
    let (same, low, high) =
      new_router-ok py loaded.0 loaded.1 n (parallel_roles_of py values) r h2 in
    (rw same (different_numbers 1 count loaded.1 numbers), low, high)

-- For a router from the configuration and a limit of 1 to 4, if the role has a candidate: the slots that are
-- asked are its first candidates, the results are the first `limit` successes of all its candidates, in
-- their order, the rows are those of the slots that were asked, in order, and slots are asked until `limit`
-- of them answered or none is left. This for any order in which the requests of a batch complete.
pub from_portable_config-answers :
    (py : Builtins) (reply : ProviderSlot → Reply) (finish : ℕ → Dict ℕ Reply → Dict ℕ Reply)
    (completes : (n : ℕ) (xs : Dict ℕ Reply) → Completes xs (finish n xs)) (values : Dict Text Text)
    (r : ProviderRouter) (role : Text) (limit : ℕ)
    → from_portable_config py values ≡ ok r
    → 1 ≤ limit
    → limit ≤ 4
    → 0 < length (candidates py role r)
    → (asked : List ProviderSlot) × (left : List ProviderSlot) × (candidates py role r
        ≡ asked ++ left)
      × (complete_parallel_with_diagnostics py reply finish role limit r
          ≡ ok (take limit (answers py reply (candidates py role r)), rows py reply 0 asked))
      × ((length (answers py reply asked) ≡ limit) ⊎ (left ≡ []))
from_portable_config-answers py reply finish completes values r role limit h low high some_slot =
    let (alone, many, _) = from_portable_config-ok py values r h in
    complete_parallel_with_diagnostics-answers py reply finish completes role limit r low high many
      some_slot (candidates-NoRepeat py role r alone)
