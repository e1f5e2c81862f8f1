-- ===== src/Llm/Tests.antt =====
-- A private environment with two configured slots, the router that is loaded from it, and the theorems on
-- routers at it.
use Prim.Native.Nat.{ℕ, ◌+◌, ◌≤◌, ◌<◌}
use native.Mathlib.Omega.{arith}
use zen_ma2_agent.Prelude.{
  ◌≡◌, refl, ◌⊎◌, true, false, none, some, List, [], ◌∷◌, ◌++◌, map, take, length, All,
  if◌then◌else◌, ok, raise,
}
use zen_ma2_agent.Prelude.Eq.{◌==◌, nat_eq, member}
use zen_ma2_agent.Prelude.Dict.{Dict}
use zen_ma2_agent.Prelude.Text.{Text, codes, text_eq, text_beq}
use zen_ma2_agent.Json.{pos}
use zen_ma2_agent.Llm.Slots.{Builtins, ProviderSlot, is_set, configured, supports}
use zen_ma2_agent.Llm.Config.{load_provider_slots, modes}
use zen_ma2_agent.Llm.Router.{
  ProviderRouter, eligible, order_by_mode, candidates, pool_readiness, flag, from_portable_config,
}
use zen_ma2_agent.Llm.Order.{Chosen, candidates_lem}
use zen_ma2_agent.Llm.Secrets.{reseal_all, pool_readiness-reseal}
use zen_ma2_agent.Llm.Complete.{Adapter, Prompt, unavailable, complete_with_diagnostics}
use zen_ma2_agent.Llm.Fallback.{Fallback, complete_with_diagnostics-Fallback}
use zen_ma2_agent.Llm.Parallel.{Reply, run_batches, complete_parallel_with_diagnostics}
use zen_ma2_agent.Llm.Futures.{Completes, all_done, next}
use zen_ma2_agent.Llm.Batches.{NoRepeat, answers, rows}
use zen_ma2_agent.Llm.Turns.{Stopped, At, run_batches-Stopped}
use zen_ma2_agent.Llm.Schedules.{complete_parallel_with_diagnostics-schedule}
use zen_ma2_agent.Llm.Loaded.{IsLoaded, numbers_from, load_provider_slots-ok}
use zen_ma2_agent.Llm.Stage.{from_portable_config-answers}

abbrev builtins : Builtins
builtins = record {
  upper = λ s. s;
  casefold = λ s. s;
  is_decimal = λ c. false;
  to_int = λ s. some (pos 4);
  to_float = λ s. some s;
  is_timeout = λ s. true;
}

abbrev slot : ℕ → ProviderSlot
slot n = record {
  number = n;
  provider_type = codes "OPENAI";
  model = codes "m";
  base_url = codes "http://h";
  api_key = codes "k";
  roles = [];
  timeout_seconds = codes "45";
  priority = 100;
  cost_class = codes "UNKNOWN";
  response_format = codes "JSON_OBJECT";
  reasoning_effort = none;
}

abbrev pool : ProviderRouter
pool = record {
  mode = codes "FALLBACK";
  slots = slot 1 ∷ slot 2 ∷ slot 3 ∷ [];
  parallelism = 2;
  parallel_roles = [];
}

abbrev critic : Text
critic = codes "CRITIC"

-- The first slot does not answer.
abbrev replies : ProviderSlot → Reply
replies s = if s.number == 1 then raise (unavailable (codes "timeout")) else ok (codes "{}")

abbrev as_submitted : ℕ → Dict ℕ Reply → Dict ℕ Reply
as_submitted n xs = xs

submitted-Completes : (xs : Dict ℕ Reply) → Completes xs xs
submitted-Completes [] = all_done
submitted-Completes ((k, r) ∷ xs) = next [] xs k r xs (submitted-Completes xs)

-- The second of two requests completes first.
abbrev last_first : ℕ → Dict ℕ Reply → Dict ℕ Reply
last_first n (x ∷ y ∷ []) = y ∷ x ∷ []
last_first n xs = xs

last_first-Completes : (n : ℕ) (xs : Dict ℕ Reply) → Completes xs (last_first n xs)
last_first-Completes n [] = all_done
last_first-Completes n ((k, r) ∷ []) = submitted-Completes ((k, r) ∷ [])
last_first-Completes n ((k, r) ∷ (j, q) ∷ []) =
    next ((k, r) ∷ []) [] j q ((k, r) ∷ []) (submitted-Completes ((k, r) ∷ []))
last_first-Completes n (x ∷ y ∷ z ∷ xs) = submitted-Completes (x ∷ y ∷ z ∷ xs)

candidates-pool : candidates builtins critic pool ≡ slot 1 ∷ slot 2 ∷ slot 3 ∷ []
unfolding candidates order_by_mode eligible configured supports text_beq
candidates-pool = refl

NoRepeat-pool : NoRepeat (candidates builtins critic pool)
NoRepeat-pool = rw candidates-pool (refl, (refl, (refl, tt)))

candidates_lem_example :
    Chosen pool.mode (eligible builtins critic pool) (candidates builtins critic pool)
candidates_lem_example = candidates_lem builtins critic pool

hidden : Text → Text
hidden [] = []
hidden (c ∷ s) = 42 ∷ []

hidden-is_set : (t : Text) → is_set (hidden t) ≡ is_set t
unfolding hidden
hidden-is_set [] = refl
hidden-is_set (c ∷ s) = refl

pool_readiness-reseal_example :
    pool_readiness builtins ((1, flag true) ∷ []) [] (critic ∷ []) (reseal_all hidden hidden pool)
    ≡ pool_readiness builtins ((1, flag true) ∷ []) [] (critic ∷ []) pool
pool_readiness-reseal_example =
    pool_readiness-reseal hidden hidden hidden-is_set hidden-is_set builtins ((1, flag true) ∷ [])
      [] (critic ∷ []) pool

adapter : Adapter ℕ
adapter = record { complete = λ s system user w. (replies s, w + 1); complete_with_image = none }

prompt : Prompt
prompt = record { role = critic; system = codes "s"; user = codes "u"; visual_evidence = none }

complete_with_diagnostics-Fallback_example :
    Fallback builtins adapter prompt
      (candidates builtins critic pool)
      []
      0
      (complete_with_diagnostics builtins adapter prompt pool 0)
unfolding prompt
complete_with_diagnostics-Fallback_example =
    complete_with_diagnostics-Fallback builtins adapter prompt pool 0

trio : List ProviderSlot
trio = slot 1 ∷ slot 2 ∷ slot 3 ∷ []

trio-NoRepeat : NoRepeat trio
unfolding trio
trio-NoRepeat = (refl, (refl, (refl, tt)))

no_answers : length (answers builtins replies []) ≤ 2
unfolding answers
no_answers = omega arith

short : length trio ≤ 3
unfolding trio
short = omega arith

run_batches-Stopped_example : Stopped builtins replies last_first last_first-Completes trio 2 (
    run_batches builtins replies last_first 3 trio 2 2
      (At builtins replies last_first last_first-Completes []))
run_batches-Stopped_example =
    run_batches-Stopped builtins replies last_first last_first-Completes 3 [] trio 2 2 trio-NoRepeat
      (omega arith) short no_answers

complete_parallel_with_diagnostics-schedule_example :
    complete_parallel_with_diagnostics builtins replies as_submitted critic 2 pool
    ≡ complete_parallel_with_diagnostics builtins replies last_first critic 2 pool
complete_parallel_with_diagnostics-schedule_example =
    complete_parallel_with_diagnostics-schedule builtins replies as_submitted last_first
      (λ n. submitted-Completes) last_first-Completes critic 2 pool NoRepeat-pool

abbrev values : Dict Text Text
values =
    (codes "ZEN_PROVIDER_1_TYPE", codes "OPENAI")
    ∷ (codes "ZEN_PROVIDER_1_MODEL", codes "m")
    ∷ (codes "ZEN_PROVIDER_1_BASE_URL", codes "http://h")
    ∷ (codes "ZEN_PROVIDER_1_API_KEY", codes "k")
    ∷ []

abbrev loaded_slot : ProviderSlot
loaded_slot = record (slot 1) { priority = 4 }

abbrev blank_slot : ℕ → ProviderSlot
blank_slot n = record (slot n) {
  provider_type = [];
  model = [];
  base_url = [];
  api_key = [];
  priority = 4;
}

abbrev loaded_slots : List ProviderSlot
loaded_slots = loaded_slot ∷ blank_slot 2 ∷ blank_slot 3 ∷ []

abbrev loaded : ProviderRouter
loaded = record {
  mode = codes "PRIMARY_ONLY";
  slots = loaded_slots;
  parallelism = 4;
  parallel_roles = [];
}

loads : load_provider_slots builtins values ≡ ok (codes "PRIMARY_ONLY", loaded_slots)
unfolding load_provider_slots text_beq
loads = refl

load_provider_slots-ok_example :
    (n : ℕ) × (3 ≤ n)
    × (map (λ s. s.number) loaded_slots ≡ numbers_from 1 n)
    × All (IsLoaded builtins) loaded_slots
    × (member (codes "PRIMARY_ONLY") modes ≡ true)
load_provider_slots-ok_example =
    load_provider_slots-ok builtins values (codes "PRIMARY_ONLY") loaded_slots loads

configures : from_portable_config builtins values ≡ ok loaded
unfolding from_portable_config text_beq
configures = refl

candidates-loaded : candidates builtins critic loaded ≡ loaded_slot ∷ []
unfolding candidates text_beq
candidates-loaded = refl

one_candidate : 0 < length (candidates builtins critic loaded)
one_candidate = rw candidates-loaded (omega arith)

from_portable_config-answers_example :
    (asked : List ProviderSlot) × (left : List ProviderSlot) × (candidates builtins critic loaded
      ≡ asked ++ left)
    × (complete_parallel_with_diagnostics builtins replies last_first critic 2 loaded
        ≡ ok (
          take 2 (answers builtins replies (candidates builtins critic loaded)),
          rows builtins replies 0 asked,
        ))
    × ((length (answers builtins replies asked) ≡ 2) ⊎ (left ≡ []))
from_portable_config-answers_example =
    from_portable_config-answers builtins replies last_first last_first-Completes values loaded
      critic 2 configures (omega arith) (omega arith) one_candidate
