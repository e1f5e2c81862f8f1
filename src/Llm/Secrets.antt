-- ===== src/Llm/Secrets.antt =====
-- What zen_ma2_agent/llm/router.py shows of the private configuration of its slots.
use Prim.Native.Nat.{ℕ}
use zen_ma2_agent.Prelude.{
  ◌≡◌, refl, sym, ap, inl, inr, Bool, not, ◌&&◌, List, [], ◌∷◌, ◌++◌, map, filter, take, Bool-cases,
  Option-cases,
}
use zen_ma2_agent.Prelude.Eq.{◌==◌, nat_eq}
use zen_ma2_agent.Prelude.Dict.{Dict, lookup, insert}
use zen_ma2_agent.Prelude.Sort.{sort-map}
use zen_ma2_agent.Prelude.Text.{Text, codes, text_eq}
use zen_ma2_agent.Llm.Slots.{
  Builtins, ProviderSlot, is_set, has_roles, configured, supports, safe_identity,
}
use zen_ma2_agent.Llm.Router.{
  ProviderRouter, tuple_leb, peer_key, free_key, sorted_by, eligible, order_by_mode, candidates,
  Health, RoleRow, health_of, failure_of, slot_row, required_parallelism, role_row, role_rows,
  pool_readiness,
}

map-append : {A B : Type 0} (f : A → B) (xs ys : List A) → map f (xs ++ ys) ≡ map f xs ++ map f ys
map-append f [] ys = refl
map-append f (x ∷ xs) ys = ap (◌∷◌ (f x)) (map-append f xs ys)

map-take : {A B : Type 0} (f : A → B) (xs : List A) → take 1 (map f xs) ≡ map f (take 1 xs)
map-take f [] = refl
map-take f (x ∷ xs) = refl

-- A test that does not see the change made by `f`.
filter-map :
    {A B : Type 0} (f : A → B) (p : A → Bool) (q : B → Bool)
    → ((x : A) → q (f x) ≡ p x)
    → (xs : List A) → filter q (map f xs) ≡ map f (filter p xs)
filter-map f p q h [] = refl
filter-map f p q h (x ∷ xs) = elim (Bool-cases (p x)) [
  | inl e ↦ rw (h x, e, filter-map f p q h xs)
  | inr e ↦ rw (h x, e, filter-map f p q h xs)
]

map-same :
    {A B C : Type 0} (f : A → B) (g : B → C) (k : A → C)
    → ((x : A) → g (f x) ≡ k x)
    → (xs : List A) → map g (map f xs) ≡ map k xs
map-same f g k h [] = refl
map-same f g k h (x ∷ xs) = rw (h x, map-same f g k h xs)

-- Other keys and addresses in the same slots.
module _ (key url : Text → Text) where
  unfoldable pub reseal : ProviderSlot → ProviderSlot
  reseal s = record s { api_key = key s.api_key; base_url = url s.base_url }

  unfoldable pub reseal_all : ProviderRouter → ProviderRouter
  unfolding reseal
  reseal_all r = record r { slots = map reseal r.slots }

  module _ (same_key : (t : Text) → is_set (key t) ≡ is_set t)
      (same_url : (t : Text) → is_set (url t) ≡ is_set t) where
    configured-reseal : (s : ProviderSlot) → configured (reseal s) ≡ configured s
    unfolding configured reseal
    configured-reseal s = rw (same_key s.api_key, same_url s.base_url)

    eligible-reseal :
        (py : Builtins) (role : Text) (r : ProviderRouter)
        → eligible py role (reseal_all r) ≡ map reseal (eligible py role r)
    unfolding eligible reseal_all
    eligible-reseal py role r =
        filter-map reseal (λ s. configured s && supports py role s)
          (λ s. configured s && supports py role s)
          (λ s. rw (configured-reseal s) (unfold supports reseal in refl)) r.slots

    by_peer :
        (xs : List ProviderSlot)
        → sorted_by peer_key (map reseal xs) ≡ map reseal (sorted_by peer_key xs)
    by_peer xs =
        sort-map reseal (λ x y. tuple_leb (peer_key x) (peer_key y))
          (λ x y. tuple_leb (peer_key x) (peer_key y)) (λ x y. unfold reseal in refl) xs

    by_cost :
        (xs : List ProviderSlot)
        → sorted_by free_key (map reseal xs) ≡ map reseal (sorted_by free_key xs)
    by_cost xs =
        sort-map reseal (λ x y. tuple_leb (free_key x) (free_key y))
          (λ x y. tuple_leb (free_key x) (free_key y)) (λ x y. unfold reseal free_key in refl) xs

    order-reseal :
        (mode : Text) (slots : List ProviderSlot)
        → order_by_mode mode (map reseal slots) ≡ map reseal (order_by_mode mode slots)
    unfolding order_by_mode
    order-reseal mode slots = elim (Bool-cases (mode == codes "PRIMARY_ONLY")) [
      | inl e ↦ rw e (map-take reseal slots)
      | inr e1 ↦ elim (Bool-cases (mode == codes "FALLBACK")) [
        | inl e ↦ rw (e1, e)
        | inr e2 ↦ elim (Bool-cases (mode == codes "ROUTED")) [
          | inl e ↦
              rw (e1, e2, e)
                (rw
                  (
                    filter-map reseal has_roles has_roles (λ s. unfold reseal in refl) slots,
                    filter-map reseal (λ s. not (has_roles s)) (λ s. not (has_roles s))
                        (λ s. unfold reseal in refl) slots,
                    by_peer (filter has_roles slots),
                    by_peer (filter (λ s. not (has_roles s)) slots),
                  )
                  (sym (
                    map-append reseal (sorted_by peer_key (filter has_roles slots))
                      (sorted_by peer_key (filter (λ s. not (has_roles s)) slots)))))
          | inr e3 ↦ rw (e1, e2, e3) (by_cost slots)
        ]
      ]
    ]

    candidates-reseal :
        (py : Builtins) (role : Text) (r : ProviderRouter)
        → candidates py role (reseal_all r) ≡ map reseal (candidates py role r)
    unfolding candidates
    candidates-reseal py role r =
        rw (eligible-reseal py role r)
          (unfold reseal_all in order-reseal r.mode (eligible py role r))

    safe_identity-reseal : (s : ProviderSlot) → safe_identity (reseal s) ≡ safe_identity s
    unfolding safe_identity reseal
    safe_identity-reseal s = rw (same_key s.api_key, same_url s.base_url)

    health_of-reseal :
        (py : Builtins) (health : Dict ℕ Health) (s : ProviderSlot)
        → health_of py health (reseal s) ≡ health_of py health s
    unfolding health_of
    health_of-reseal py health s = rw (configured-reseal s) (unfold reseal in refl)

    failure_of-reseal :
        (py : Builtins) (health : Dict ℕ Health) (failures : Dict ℕ Text) (s : ProviderSlot)
        → failure_of py health failures (reseal s) ≡ failure_of py health failures s
    unfolding failure_of reseal
    failure_of-reseal py health failures s = elim (Option-cases (lookup s.number failures)) [
      | inl missing ↦
          rw (missing, failure_of) (rw (health_of-reseal py health s, configured-reseal s))
      | inr (f, found) ↦ rw (found, failure_of)
    ]

    slot_row-reseal :
        (py : Builtins) (health : Dict ℕ Health) (failures : Dict ℕ Text) (roles : List Text)
        (s : ProviderSlot)
        → slot_row py health failures roles (reseal s) ≡ slot_row py health failures roles s
    unfolding slot_row
    slot_row-reseal py health failures roles s =
        rw (safe_identity-reseal s, configured-reseal s, failure_of-reseal py health failures s)
          (unfold reseal supports in refl)

    role_rows-reseal :
        (py : Builtins) (r : ProviderRouter) (health : Dict ℕ Health) (roles : List Text)
        (rows : Dict Text RoleRow)
        → role_rows py (reseal_all r) health roles rows ≡ role_rows py r health roles rows
    unfolding role_rows reseal_all
    role_rows-reseal py r health [] rows = refl
    role_rows-reseal py r health (role ∷ roles) rows =
        rw
          (
            candidates-reseal py (py.upper role) r,
            map-same reseal (λ s. s.number) (λ s. s.number) (λ s. unfold reseal in refl)
                (candidates py (py.upper role) r),
          )
          (role_rows-reseal py r health roles (
            insert (py.upper role)
              (role_row health (required_parallelism r (py.upper role))
                (map (λ s. s.number) (candidates py (py.upper role) r)))
              rows))

    -- The readiness report depends on the keys and the addresses of the slots only through which of them are
    -- set: two routers that agree on that, and on all else, have the same report.
    pub pool_readiness-reseal :
        (py : Builtins) (health : Dict ℕ Health) (failures : Dict ℕ Text) (roles : List Text)
        (r : ProviderRouter)
        → pool_readiness py health failures roles (reseal_all r)
          ≡ pool_readiness py health failures roles r
    unfolding pool_readiness
    pool_readiness-reseal py health failures roles r =
        rw (role_rows-reseal py r health (map py.upper roles) []) (
          unfold reseal_all in
          rw (
            map-same reseal (slot_row py health failures (map py.upper roles))
              (slot_row py health failures (map py.upper roles))
              (slot_row-reseal py health failures (map py.upper roles)) r.slots))
