-- ===== src/Workers/Health/Laws.antt =====
-- What a probe of zen_ma2_agent/worker_health.py finds, and what it leaves in the registry.
use zen_ma2_agent.Prelude.{
  ◌≡◌, refl, ap, ◌≢◌, ◌⊎◌, inl, inr, Option, none, some, Result-cases, Result, ok, raise, ◌>>=◌,
}
use zen_ma2_agent.Prelude.Eq.{string_eq}
use zen_ma2_agent.Prelude.Dict.{lookup, insert, lookup-insert_self, lookup-insert_ne}
use zen_ma2_agent.Prelude.Text.{Text, text_eq}
use zen_ma2_agent.Workers.{
  ComponentState, online, offline, degraded, WorkerCapabilities, RegisteredWorker, Registry,
  unknown_worker, validate_worker_id, get_worker, with_state, set_state,
}
use zen_ma2_agent.Workers.Health.{
  caught, escaping, Reply, ProbeError, escaped, validate_health, validate_capabilities, health_of,
  capabilities_of, in_registry, poll_endpoint,
}
use zen_ma2_agent.Workers.Health.Replies.{
  Healthy, Tells, health_of-Healthy, Healthy-health_of, capabilities_of-Tells,
  Tells-capabilities_of, caught_only_health, caught_only_capabilities, from_request,
}

-- What the record of a worker says after a probe.
abbrev pub Found : Text → (health capabilities : Reply) → RegisteredWorker → Type 0
Found id health capabilities v =
    ((v.state ≡ online)
      × Healthy id health
      × ((c : WorkerCapabilities) × (v.capabilities ≡ c) × Tells id capabilities c))
    ⊎ (((v.state ≡ degraded)
          × Healthy id health
          × ((c : WorkerCapabilities) → ¬ Tells id capabilities c))
        ⊎ ((v.state ≡ offline) × (¬ Healthy id health)))

-- Writing the record of a registered worker.
module _ (id : Text) (health capabilities : Reply) (ws : Registry) (w : RegisteredWorker)
    (v : validate_worker_id id ≡ ok id) (found : lookup id ws ≡ some w) where
  set_state_lem :
      (state : ComponentState) (c : Option WorkerCapabilities) (e : Option Text)
      → set_state id state c e ws ≡ ok (insert id (with_state state c e w) ws)
  unfolding set_state get_worker
  set_state_lem state c e =
      let step : elim (lookup id ws) [ none ↦ raise unknown_worker | some x ↦ ok x ] ≡ ok w =
        rw found in
      rw v (ap (λ r. r >>= (λ x. ok (insert id (with_state state c e x) ws))) step)

  -- What the probe does, once it is known what it writes.
  Written : Result ProbeError Registry → Type 0
  Written r =
      (out : Registry) × (x : RegisteredWorker) × (r ≡ ok out)
      × (lookup id out ≡ some x)
      × Found id health capabilities x
      × ((j : Text) → id ≢ j → lookup j out ≡ lookup j ws)

  writes :
      (state : ComponentState) (c : Option WorkerCapabilities) (e : Option Text)
      → Found id health capabilities (with_state state c e w)
      → Written (in_registry (set_state id state c e ws))
  unfolding Written
  writes state c e holds =
      let x = with_state state c e w in
      (
        insert id x ws,
        x,
        ap in_registry (set_state_lem state c e),
        lookup-insert_self id x ws,
        holds,
        λ j ne. lookup-insert_ne id j x ws ne,
      )

  -- A probe of a registered worker lets an exception through that is no `httpx.HTTPError`, `ValueError` or
  -- `TypeError`: of the first request, or of the second if the first reply was that of a worker that is up.
  -- Otherwise it succeeds, and no other worker is changed: the worker is online, with the capabilities told, if
  -- both replies are right, degraded if only the first is, and offline if the first is not.
  pub poll_endpoint_lem :
      (((t : Text) × (poll_endpoint id health capabilities ws ≡ raise (escaped t))
          × ((health ≡ raise (escaping t))
              ⊎ (Healthy id health × (capabilities ≡ raise (escaping t)))))
        ⊎ ((out : Registry) × (x : RegisteredWorker) × (poll_endpoint id health capabilities ws
              ≡ ok out)
            × (lookup id out ≡ some x)
            × Found id health capabilities x
            × ((j : Text) → id ≢ j → lookup j out ≡ lookup j ws)))
  unfolding poll_endpoint with_state Written health_of capabilities_of
  poll_endpoint_lem = elim (Result-cases (health_of id health)) [
    | inr (caught t, bad) ↦
        inr (rw (bad, poll_endpoint) (writes offline none (some _) (inr (inr (refl, ill t bad)))))
    | inr (escaping t, bad) ↦ inl (
      t,
      rw (bad, poll_endpoint),
      inl (from_request health (validate_health id) t (caught_only_health id) bad),
    )
    | inl (u, good) ↦
        let up = health_of-Healthy id health u good in
        elim (Result-cases (capabilities_of id capabilities)) [
          | inr (caught t, bad) ↦ inr (
              rw (good, bad, poll_endpoint)
                (writes degraded none (some _) (inr (inl (refl, up, silent t bad)))))
          | inr (escaping t, bad) ↦ inl (
            t,
            rw (good, bad, poll_endpoint),
            inr (
              up,
              from_request capabilities (validate_capabilities id) t (caught_only_capabilities id)
                  bad,
            ),
          )
          | inl (c, told) ↦ inr (
              rw (good, told, poll_endpoint)
                (writes online (some c) none
                  (inl (refl, up, (c, refl, capabilities_of-Tells id capabilities c told)))))
        ]
  ]
    where
      ill : (t : Text) → health_of id health ≡ raise (caught t) → ¬ Healthy id health
      ill t bad up = cc (bad, Healthy-health_of id health up)

      silent :
          (t : Text)
          → capabilities_of id capabilities ≡ raise (caught t)
          → (c : WorkerCapabilities) → ¬ Tells id capabilities c
      silent t bad c told = cc (bad, Tells-capabilities_of id capabilities c told)
