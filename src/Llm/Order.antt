-- ===== src/Llm/Order.antt =====
-- The order of the candidates of `ProviderRouter` in zen_ma2_agent/llm/router.py.
use Prim.Native.Nat.{ℕ}
use native.Mathlib.Omega.{arith}
use mathlib.Core.List.{Perm}
use mathlib.Core.List.Perm
use zen_ma2_agent.Prelude.{
  ◌≡◌, refl, sym, ◌∙◌, ◌<◌, ◌⊎◌, inl, inr, true, not, List, [], ◌∷◌, ◌++◌, if◌then◌else◌, filter,
  take, Bool-cases, All, All-map, All-filter_self,
}
use zen_ma2_agent.Prelude.Eq.{◌==◌}
use zen_ma2_agent.Prelude.Sort.{
  IsOrder, IsOrder-key, IsSorted, sort-perm, sort-All, sort-IsSorted, append-IsSorted, filter-perm,
}
use zen_ma2_agent.Prelude.Text.{Text, codes, text_eq}
use zen_ma2_agent.Llm.Slots.{Builtins, ProviderSlot, has_roles}
use zen_ma2_agent.Llm.Router.{
  ProviderRouter, tuple_leb, role_rank, peer_key, free_key, sorted_by, eligible, order_by_mode,
  candidates,
}

tuple_leb_total : (s t : List ℕ) → (tuple_leb s t ≡ true) ⊎ (tuple_leb t s ≡ true)
unfolding tuple_leb
tuple_leb_total [] t = inl refl
tuple_leb_total (x ∷ xs) [] = inr refl
tuple_leb_total (x ∷ xs) (y ∷ ys) = ground (arith, tuple_leb_total xs ys)

tuple_leb_trans :
    (s t u : List ℕ) → tuple_leb s t ≡ true → tuple_leb t u ≡ true → tuple_leb s u ≡ true
unfolding tuple_leb
tuple_leb_trans [] t u h k = refl
tuple_leb_trans (x ∷ xs) [] u h k = cc
tuple_leb_trans (x ∷ xs) (y ∷ ys) [] h k = cc
tuple_leb_trans (x ∷ xs) (y ∷ ys) (z ∷ zs) h k = ground (arith, tuple_leb_trans xs ys zs)

tuple-IsOrder : IsOrder tuple_leb
tuple-IsOrder = record { total = tuple_leb_total; trans = tuple_leb_trans }

-- Role-scoped slots come first, then priority and number decide.
unfoldable pub routed_key : ProviderSlot → List ℕ
routed_key s = role_rank s ∷ peer_key s

-- In order by a key.
abbrev pub IsOrdered : (ProviderSlot → List ℕ) → List ProviderSlot → Type 0
IsOrdered key slots = IsSorted (λ x y. tuple_leb (key x) (key y)) slots

-- What the candidates are for the eligible slots, in each mode.
abbrev pub Chosen : Text → (slots cs : List ProviderSlot) → Type 0
Chosen mode slots cs =
    if mode == codes "PRIMARY_ONLY"
    then cs ≡ take 1 slots
    else if mode == codes "FALLBACK"
    then cs ≡ slots
    else if mode == codes "ROUTED"
    then Perm cs slots × IsOrdered routed_key cs
    else Perm cs slots × IsOrdered free_key cs

sorted_by-IsOrdered :
    (key : ProviderSlot → List ℕ) (slots : List ProviderSlot) → IsOrdered key (sorted_by key slots)
sorted_by-IsOrdered key slots = sort-IsSorted (IsOrder-key key tuple-IsOrder) slots

tuple_leb_cons :
    (x y : ℕ) (xs ys : List ℕ) → x ≡ y → tuple_leb xs ys ≡ true → tuple_leb (x ∷ xs) (y ∷ ys) ≡ true
unfolding tuple_leb
tuple_leb_cons x y xs ys e h = ground arith

tuple_leb_lt : (x y : ℕ) (xs ys : List ℕ) → x < y → tuple_leb (x ∷ xs) (y ∷ ys) ≡ true
unfolding tuple_leb
tuple_leb_lt x y xs ys h = ground arith

module _ (rank : ℕ) where
  before_peers :
      (s : ProviderSlot) (ts : List ProviderSlot)
      → role_rank s ≡ rank
      → All (λ t. role_rank t ≡ rank) ts
      → All (λ t. tuple_leb (peer_key s) (peer_key t) ≡ true) ts
      → All (λ t. tuple_leb (routed_key s) (routed_key t) ≡ true) ts
  unfolding routed_key
  before_peers s [] e r k = tt
  before_peers s (t ∷ ts) e r k = (
    tuple_leb_cons (role_rank s) (role_rank t) (peer_key s) (peer_key t) (e ∙ sym r.0) k.0,
    before_peers s ts e r.1 k.1,
  )

  -- Slots of one rank that are in order by their peer key are so by the rank and that key.
  same_rank :
      (slots : List ProviderSlot)
      → All (λ s. role_rank s ≡ rank) slots
      → IsOrdered peer_key slots
      → IsOrdered routed_key slots
  same_rank [] h o = tt
  same_rank (s ∷ slots) h o = (before_peers s slots h.0 h.1 o.0, same_rank slots h.1 o.1)

before_general :
    (s : ProviderSlot) (ts : List ProviderSlot)
    → role_rank s ≡ 0
    → All (λ t. role_rank t ≡ 1) ts
    → All (λ t. tuple_leb (routed_key s) (routed_key t) ≡ true) ts
unfolding routed_key
before_general s [] e r = tt
before_general s (t ∷ ts) e r = (
  tuple_leb_lt (role_rank s) (role_rank t) (peer_key s) (peer_key t) (omega (arith, e, r.0)),
  before_general s ts e r.1,
)

specific_rank : (slots : List ProviderSlot) → All (λ s. role_rank s ≡ 0) (filter has_roles slots)
specific_rank slots =
    All-map (λ s. has_roles s ≡ true) (λ s h. rw h) (filter has_roles slots)
      (All-filter_self has_roles slots)

general_rank :
    (slots : List ProviderSlot) → All (λ s. role_rank s ≡ 1) (filter (λ s. not (has_roles s)) slots)
general_rank slots =
    All-map (λ s. not (has_roles s) ≡ true)
      (λ s h. elim (Bool-cases (has_roles s)) [ inl e ↦ absurd (cc (rw e at h)) | inr e ↦ rw e ])
      (filter (λ s. not (has_roles s)) slots) (All-filter_self (λ s. not (has_roles s)) slots)

module _ (slots : List ProviderSlot) where
  abbrev specific : List ProviderSlot
  specific = filter has_roles slots

  abbrev general : List ProviderSlot
  general = filter (λ s. not (has_roles s)) slots

  routed-perm : Perm (sorted_by peer_key specific ++ sorted_by peer_key general) slots
  routed-perm =
      Perm.trans
        (Perm.append (sort-perm (λ x y. tuple_leb (peer_key x) (peer_key y)) specific)
          (sort-perm (λ x y. tuple_leb (peer_key x) (peer_key y)) general))
        (filter-perm has_roles slots)

  routed-IsOrdered :
      IsOrdered routed_key (sorted_by peer_key specific ++ sorted_by peer_key general)
  routed-IsOrdered =
      let first =
        sort-All (λ x y. tuple_leb (peer_key x) (peer_key y)) (λ s. role_rank s ≡ 0) specific
          (specific_rank slots) in
      let second =
        sort-All (λ x y. tuple_leb (peer_key x) (peer_key y)) (λ s. role_rank s ≡ 1) general
          (general_rank slots) in
      append-IsSorted (λ x y. tuple_leb (routed_key x) (routed_key y)) (sorted_by peer_key specific)
        (sorted_by peer_key general)
        (same_rank 0 (sorted_by peer_key specific) first (sorted_by-IsOrdered peer_key specific))
        (same_rank 1 (sorted_by peer_key general) second (sorted_by-IsOrdered peer_key general))
        (All-map (λ s. role_rank s ≡ 0)
          (λ s e. before_general s (sorted_by peer_key general) e second)
          (sorted_by peer_key specific) first)

-- The candidates are the slots that are configured and support the role: the first of them in
-- `PRIMARY_ONLY`, all as listed in `FALLBACK`; in `ROUTED` all, the role-scoped ones first and each kind by
-- priority and number; in any other mode all, by cost, then role-scoped first, priority and number.
pub candidates_lem :
    (py : Builtins) (role : Text) (r : ProviderRouter)
    → Chosen r.mode (eligible py role r) (candidates py role r)
unfolding candidates order_by_mode
candidates_lem py role r =
    let slots = eligible py role r in
    elim (Bool-cases (r.mode == codes "PRIMARY_ONLY")) [
      | inl e ↦ rw e refl
      | inr e1 ↦ elim (Bool-cases (r.mode == codes "FALLBACK")) [
        | inl e ↦ rw (e1, e) refl
        | inr e2 ↦ elim (Bool-cases (r.mode == codes "ROUTED")) [
          | inl e ↦ rw (e1, e2, e) (routed-perm slots, routed-IsOrdered slots)
          | inr e3 ↦
              rw (e1, e2, e3)
                (
                  sort-perm (λ x y. tuple_leb (free_key x) (free_key y)) slots,
                  sorted_by-IsOrdered free_key slots,
                )
        ]
      ]
    ]
