-- ===== src/Workers/Tests.antt =====
-- Two workers, and the theorems on the registry at them.
use Prim.Native.Nat.{◌≤◌}
use mathlib.Core.List.{Memᴰ}
use zen_ma2_agent.Prelude.{
  ◌≡◌, refl, raise, true, none, some, [], ◌∷◌, ◌⊎◌, arith, filter, length, All, ok, ◌≢◌,
}
use zen_ma2_agent.Prelude.Dict.{lookup, insert}
use zen_ma2_agent.Prelude.Sort.{min_by}
use zen_ma2_agent.Json.{dict, str, field, end}
use zen_ma2_agent.Prelude.Text.{Text, text_eq, text_beq, text_leb, codes}
use zen_ma2_agent.Json.{pos}
use zen_ma2_agent.Workers.{
  online, RegisteredWorker, Registry, register, register_all, validate_worker_id, is_usable, values,
  remote_ai_available, key_leb, route,
}
use zen_ma2_agent.Workers.Health.{Reply, caught, escaping, escaped, poll_endpoint}
use zen_ma2_agent.Workers.Health.Replies.{Healthy}
use zen_ma2_agent.Workers.Health.Laws.{Found, poll_endpoint_lem}
use zen_ma2_agent.Workers.Route.{register_all_bound, route_lem}

abbrev desk : RegisteredWorker
desk = record {
  worker_id = codes "desk";
  priority = pos 10;
  state = online;
  capabilities = record { gpu_name = none; model_runtime_available = some true };
  last_error = none;
  consecutive_failures = 0;
}

abbrev attic : RegisteredWorker
attic = record desk { worker_id = codes "attic" }

abbrev both : Registry
both = (codes "desk", desk) ∷ (codes "attic", attic) ∷ []

both_registered : register_all (desk ∷ attic ∷ []) [] ≡ ok both
unfolding register_all register lookup insert text_beq
both_registered = refl

attic_is_first : (route both).selected_worker_id ≡ some (codes "attic")
unfolding route is_usable key_leb text_leb min_by
attic_is_first = refl

register_all_bound_example : length both ≤ 32
register_all_bound_example =
    register_all_bound (desk ∷ attic ∷ []) [] both (omega arith) both_registered

route_lem_example :
    let out = route both in
    (out.remote_ai_available ≡ remote_ai_available both)
    × (((filter is_usable (values both) ≡ []) × (out.selected_worker_id ≡ none))
        ⊎ ((best : RegisteredWorker) × (out.selected_worker_id ≡ some best.worker_id)
            × Memᴰ best (values both)
            × (is_usable best ≡ true)
            × All (λ w. key_leb best w ≡ true) (filter is_usable (values both))))
route_lem_example = route_lem both

abbrev up : Reply
up = ok (
    dict (
      field "schema_version" (str "zen.worker.health.v0.1")
        (field "worker_id" (str "desk") (field "status" (str "ONLINE") end))))

abbrev timeout : Reply
timeout = raise (caught (codes "timed out"))

poll_endpoint_lem_example :
    ((t : Text) × (poll_endpoint (codes "desk") up timeout both ≡ raise (escaped t))
      × ((up ≡ raise (escaping t)) ⊎ (Healthy (codes "desk") up × (timeout ≡ raise (escaping t)))))
    ⊎ ((out : Registry) × (x : RegisteredWorker) × (poll_endpoint (codes "desk") up timeout both
          ≡ ok out)
        × (lookup (codes "desk") out ≡ some x)
        × Found (codes "desk") up timeout x
        × ((j : Text) → codes "desk" ≢ j → lookup j out ≡ lookup j both))
unfolding validate_worker_id lookup text_beq
poll_endpoint_lem_example = poll_endpoint_lem (codes "desk") up timeout both desk refl refl
