-- ===== src/State/Laws.antt =====
-- What the operations of `StateStore` promise to the agents that plan from it.
use Prim.Native.String.{String}
use zen_ma2_agent.Prelude.{
  ◌≡◌, refl, ◌≢◌, ◌⊎◌, inl, inr, Bool, true, false, Option, none, some, List, [], ◌∷◌, ◌++◌, arith,
  Bool-cases, Option-cases, filter, ok, raise,
}
use mathlib.Core.Path.{subst, ap}
use zen_ma2_agent.Prelude.Eq.{◌==◌, string_eq, member, ==_true}
use zen_ma2_agent.Prelude.Dict.{lookup, insert, lookup-insert, lookup-insert_self, lookup-insert_ne}
use zen_ma2_agent.Json.{Value, Fields, get}
use zen_ma2_agent.State.{
  StateSnapshot, StateStore, resources, unknown_resource, create, find, put, values_of, without,
  upsert, record_error, mark_stale, mark_all_stale, is_fresh, has,
}

abbrev default_source : String
default_source = "ma2_telnet_list"

is_fresh-mark_stale :
    (s : StateStore) (r reason : String) → is_fresh (find (mark_stale s r reason) r) ≡ false
unfolding find mark_stale is_fresh
is_fresh-mark_stale s r reason = elim (Option-cases (lookup r s.snapshots)) [
  | inl missing ↦ rw (missing, mark_stale) (rw missing)
  | inr (shot, found) ↦ rw (found, mark_stale) (rw (lookup-insert_self r _ s.snapshots))
]

-- To mark one resource leaves every resource that was stale or missing so.
is_fresh-mark_stale_other :
    (s : StateStore) (q r reason : String)
    → is_fresh (find s r) ≡ false
    → is_fresh (find (mark_stale s q reason) r) ≡ false
unfolding find mark_stale
is_fresh-mark_stale_other s q r reason h = elim (Option-cases (lookup q s.snapshots)) [
  | inl missing ↦ rw (missing, mark_stale) h
  | inr (shot, found) ↦
      rw (found, mark_stale)
        (rw (lookup-insert q r _ s.snapshots) (elim (Bool-cases (q == r)) [
          | inl same ↦ rw same (unfold is_fresh in refl)
          | inr other ↦ rw other h
        ]))
]

mark_all_stale_keeps :
    (names : List String) (reason : String) (s : StateStore) (r : String)
    → is_fresh (find s r) ≡ false
    → is_fresh (find (mark_all_stale names reason s) r) ≡ false
unfolding mark_all_stale
mark_all_stale_keeps [] reason s r h = h
mark_all_stale_keeps (n ∷ names) reason s r h =
    mark_all_stale_keeps names reason (mark_stale s n reason) r
      (is_fresh-mark_stale_other s n r reason h)

-- After the loop that marks every listed resource stale, as `disconnect` runs it over all
-- resources, no listed resource is fresh.
pub mark_all_stale_lem :
    (names : List String) (reason : String) (s : StateStore) (r : String)
    → member r names ≡ true
    → has (mark_all_stale names reason s) (r ∷ []) ≡ false
unfolding mark_all_stale has
mark_all_stale_lem [] reason s r h = cc
mark_all_stale_lem (n ∷ names) reason s r h = elim (Bool-cases (n == r)) [
  | inl same ↦ rw (
      mark_all_stale_keeps names reason (mark_stale s n reason) r (
        subst (λ x. is_fresh (find (mark_stale s n reason) x) ≡ false) (==_true n r same)
          (is_fresh-mark_stale s n reason)))
  | inr other ↦ mark_all_stale_lem names reason (mark_stale s n reason) r (rw other at h)
]

-- A `put` succeeds exactly at a known resource; then that resource is fresh and holds the given
-- rows, and every other resource is as it was.
pub put_lem :
    (now : String) (s : StateStore) (r : String) (values : List Fields) (source : String)
    (capability : Option Fields)
    → ((member r resources ≡ false)
        × (put now s r values source capability ≡ raise (unknown_resource r)))
      ⊎ ((member r resources ≡ true)
          × (t : StateStore) × (put now s r values source capability
              ≡ ok (create now r values source capability, t))
          × (has t (r ∷ []) ≡ true)
          × (values_of (find t r) ≡ values)
          × ((q : String) → r ≢ q → find t q ≡ find s q))
unfolding put find has create values_of
put_lem now s r values source capability = elim (Bool-cases (member r resources)) [
  | inl known ↦ inr (
    known,
    record { snapshots = insert r (create now r values source capability) s.snapshots },
    rw (known, put),
    rw (lookup-insert_self r (create now r values source capability) s.snapshots),
    rw (lookup-insert_self r (create now r values source capability) s.snapshots),
    λ q ne. lookup-insert_ne r q (create now r values source capability) s.snapshots ne,
  )
  | inr other ↦ inl (other, rw (other, put))
]

module _ (same : Option Value → Option Value → Bool) where
  -- The rows that hold `value`'s entry under `key`, and those that do not.
  abbrev pub matching : String → Fields → List Fields → List Fields
  matching key value = filter (λ item. same (get key item) (get key value))

  matching-without :
      (key : String) (value : Fields) (rows : List Fields)
      → matching key value (without same key value rows ++ value ∷ [])
        ≡ matching key value (value ∷ [])
  unfolding without
  matching-without key value [] = refl
  matching-without key value (x ∷ rows) = elim (Bool-cases (same (get key x) (get key value))) [
    | inl yes_same ↦ rw yes_same (matching-without key value rows)
    | inr not_same ↦ rw (not_same, not_same) (matching-without key value rows)
  ]

  without_again :
      (key : String) (value : Fields) (rows : List Fields)
      → same (get key value) (get key value) ≡ true
      → without same key value (without same key value rows ++ value ∷ [])
        ≡ without same key value rows
  unfolding without
  without_again key value [] h = rw h
  without_again key value (x ∷ rows) h = elim (Bool-cases (same (get key x) (get key value))) [
    | inl yes_same ↦ rw yes_same (without_again key value rows h)
    | inr not_same ↦ rw (not_same, not_same) (ap (◌∷◌ x) (without_again key value rows h))
  ]

  -- If entries compare equal to themselves, an `upsert` at a known resource succeeds, the new row is
  -- the one row that has its key's value, and the rows with another value stay, in order.
  pub upsert_lem :
      (now : String) (s : StateStore) (r key : String) (value : Fields) (source : String)
      (capability : Option Fields)
      → same (get key value) (get key value) ≡ true
      → member r resources ≡ true
      → (shot : StateSnapshot) × (t : StateStore) × (upsert same now s r key value source capability
          ≡ ok (shot, t))
        × (matching key value (values_of (find t r)) ≡ value ∷ [])
        × (without same key value (values_of (find t r))
            ≡ without same key value (values_of (find s r)))
  unfolding upsert
  upsert_lem now s r key value source capability self known =
      elim (put_lem now s r (without same key value (values_of (find s r)) ++ value ∷ []) source
        capability) [
          | inl (other, _) ↦ cc
          | inr (_, t, done, _, rows, _) ↦ (
            create now r (without same key value (values_of (find s r)) ++ value ∷ []) source
                capability,
            t,
            done,
            rw rows (rw (matching-without key value (values_of (find s r))) (rw self)),
            rw rows (without_again key value (values_of (find s r)) self),
          )
        ]

-- `record_error` keeps the rows that were read before and never leaves the resource fresh, unless
-- nothing was read before and the error text is empty.
pub record_error_lem :
    (now : String) (s : StateStore) (r error source : String) (capability : Option Fields)
    → let t = (record_error now s r error source capability).1 in
      (values_of (find t r) ≡ values_of (find s r))
      × (has t (r ∷ []) ≡ elim (find s r) [ none ↦ error == "" | some _ ↦ false ])
      × ((q : String) → r ≢ q → find t q ≡ find s q)
unfolding record_error find has is_fresh values_of create
record_error_lem now s r error source capability = elim (Option-cases (lookup r s.snapshots)) [
  | inl missing ↦ (
    rw (lookup-insert_self r _ s.snapshots) (rw missing),
    rw (lookup-insert_self r _ s.snapshots) (rw missing (ground arith)),
    λ q ne. lookup-insert_ne r q _ s.snapshots ne,
  )
  | inr (shot, found) ↦ (
    rw (lookup-insert_self r _ s.snapshots) (rw found),
    rw (lookup-insert_self r _ s.snapshots) (rw found),
    λ q ne. lookup-insert_ne r q _ s.snapshots ne,
  )
]
