-- ===== src/Workers/Health/Replies.antt =====
-- The replies that the checks of zen_ma2_agent/worker_health.py accept, and what they raise.
use zen_ma2_agent.Prelude.{
  ◌≡◌, refl, ◌∙◌, ap, inl, inr, Bool, Bool-cases, true, false, not, Option, none, some,
  Result-cases, Result, ok, raise, raise_if, ◌>>=◌, bind-ok, raise_if-ok, ok_inj,
}
use zen_ma2_agent.Prelude.Eq.{string_eq}
use zen_ma2_agent.Prelude.Text.{Text, codes, text_eq}
use zen_ma2_agent.Json.{Value, null, bool, str, dict, Fields, get}
use zen_ma2_agent.Workers.{WorkerCapabilities}
use zen_ma2_agent.Workers.Health.{
  Failure, escaping, Reply, is_text, text_or_null, bool_or_null, validate_health,
  validate_capabilities, health_of, capabilities_of,
}

-- The reply of a worker that is up: a dictionary with the schema, the worker's own identifier and `ONLINE`.
abbrev pub Healthy : Text → Reply → Type 0
Healthy id health =
    (p : Fields) × (health ≡ ok (dict p))
    × (is_text (codes "zen.worker.health.v0.1") (get "schema_version" p) ≡ true)
    × (is_text id (get "worker_id" p) ≡ true)
    × (is_text (codes "ONLINE") (get "status" p) ≡ true)

-- The reply of a worker that tells these capabilities.
abbrev pub Tells : Text → Reply → WorkerCapabilities → Type 0
Tells id capabilities c =
    (p : Fields) × (capabilities ≡ ok (dict p))
    × (is_text (codes "zen.worker.capabilities.v0.1") (get "schema_version" p) ≡ true)
    × (is_text id (get "worker_id" p) ≡ true)
    × (text_or_null (get "gpu_name" p) ≡ ok c.gpu_name)
    × (bool_or_null (get "model_runtime_available" p) ≡ ok c.model_runtime_available)

passed : (b : Bool) → not b ≡ false → b ≡ true
passed true h = refl
passed false h = absurd (cc h)

last_guard : (c : Bool) (f : Failure) (u : Unit {0}) → raise_if c f ≡ ok u → c ≡ false
last_guard true f u h = absurd (cc h)
last_guard false f u h = refl

pub health_of-Healthy :
    (id : Text) (health : Reply) (u : Unit {0}) → health_of id health ≡ ok u → Healthy id health
unfolding health_of validate_health
health_of-Healthy id (ok (dict p)) u h =
    let (a, h1) = raise_if-ok _ _ _ u h in
    let (b, h2) = raise_if-ok _ _ _ u h1 in
    let c = last_guard _ _ u h2 in (p, refl, passed _ a, passed _ b, passed _ c)
health_of-Healthy id (ok _) u h = absurd (cc h)
health_of-Healthy id (raise e) u h = absurd (cc h)

pub Healthy-health_of :
    (id : Text) (health : Reply) → Healthy id health → health_of id health ≡ ok tt
unfolding health_of validate_health
Healthy-health_of id health (p, given, a, b, c) = rw (given, health_of) (rw (a, b, c))

pub capabilities_of-Tells :
    (id : Text) (capabilities : Reply) (c : WorkerCapabilities)
    → capabilities_of id capabilities ≡ ok c
    → Tells id capabilities c
unfolding capabilities_of validate_capabilities
capabilities_of-Tells id (ok (dict p)) c h =
    let (a, h1) = raise_if-ok _ _ _ c h in
    let (b, h2) = raise_if-ok _ _ _ c h1 in
    let (gpu, named, h3) = bind-ok (text_or_null (get "gpu_name" p)) _ c h2 in
    let (runtime, told, h4) = bind-ok (bool_or_null (get "model_runtime_available" p)) _ c h3 in
    (
      p,
      refl,
      passed _ a,
      passed _ b,
      named ∙ ap (λ x. ok x.gpu_name) (ok_inj h4),
      told ∙ ap (λ x. ok x.model_runtime_available) (ok_inj h4),
    )
capabilities_of-Tells id (ok _) c h = absurd (cc h)
capabilities_of-Tells id (raise e) c h = absurd (cc h)

pub Tells-capabilities_of :
    (id : Text) (capabilities : Reply) (c : WorkerCapabilities)
    → Tells id capabilities c
    → capabilities_of id capabilities ≡ ok c
unfolding capabilities_of validate_capabilities
Tells-capabilities_of id capabilities c (p, given, a, b, named, told) =
    rw (given, capabilities_of) (rw (a, b) (rw (named, told) refl))

-- That nothing escapes the probe.
unfoldable pub caught_only : {A : Type 0} → Result Failure A → Bool
caught_only (raise (escaping _)) = false
caught_only _ = true

pub caught_only_health : (id : Text) (v : Value) → caught_only (validate_health id v) ≡ true
unfolding validate_health caught_only
caught_only_health id (dict p) =
    elim (Bool-cases (is_text (codes "zen.worker.health.v0.1") (get "schema_version" p))) [
      | inr bad ↦ rw bad
      | inl schema ↦ elim (Bool-cases (is_text id (get "worker_id" p))) [
        | inr bad ↦ rw (schema, bad)
        | inl self ↦ elim (Bool-cases (is_text (codes "ONLINE") (get "status" p))) [
          | inr bad ↦ rw (schema, self, bad)
          | inl up ↦ rw (schema, self, up)
        ]
      ]
    ]
caught_only_health id _ = refl

caught_only_text : (v : Option Value) → caught_only (text_or_null v) ≡ true
unfolding text_or_null caught_only
caught_only_text none = refl
caught_only_text (some null) = refl
caught_only_text (some (str s)) = refl
caught_only_text (some _) = refl

caught_only_bool : (v : Option Value) → caught_only (bool_or_null v) ≡ true
unfolding bool_or_null caught_only
caught_only_bool none = refl
caught_only_bool (some null) = refl
caught_only_bool (some (bool b)) = refl
caught_only_bool (some _) = refl

pub caught_only_capabilities :
    (id : Text) (v : Value) → caught_only (validate_capabilities id v) ≡ true
unfolding validate_capabilities caught_only
caught_only_capabilities id (dict p) =
    elim (Bool-cases (is_text (codes "zen.worker.capabilities.v0.1") (get "schema_version" p))) [
      | inr bad ↦ rw bad
      | inl schema ↦ elim (Bool-cases (is_text id (get "worker_id" p))) [
        | inr bad ↦ rw (schema, bad)
        | inl self ↦ elim (Result-cases (text_or_null (get "gpu_name" p))) [
          | inr (e, bad) ↦
              rw (schema, self) (rw bad (rw bad at (caught_only_text (get "gpu_name" p))))
          | inl (gpu, named) ↦
              elim (Result-cases (bool_or_null (get "model_runtime_available" p))) [
                | inr (e, bad) ↦
                    rw (schema, self)
                      (rw (named, bad)
                        (rw bad at (caught_only_bool (get "model_runtime_available" p))))
                | inl (runtime, told) ↦ rw (schema, self) (rw (named, told) refl)
              ]
        ]
      ]
    ]
caught_only_capabilities id _ = refl

-- What escapes was raised by the request.
pub from_request :
    {A : Type 0} (reply : Reply) (f : Value → Result Failure A) (t : Text)
    → ((v : Value) → caught_only (f v) ≡ true)
    → (reply >>= f) ≡ raise (escaping t)
    → reply ≡ raise (escaping t)
unfolding caught_only
from_request (ok v) f t safe h = absurd (cc (rw h at (safe v)))
from_request (raise e) f t safe h = cc h
