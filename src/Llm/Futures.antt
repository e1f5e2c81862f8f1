-- ===== src/Llm/Futures.antt =====
-- The order in which the requests of a batch of zen_ma2_agent/llm/router.py complete does not change what is
-- read back from `completed`.
use Prim.Native.Nat.{ℕ}
use zen_ma2_agent.Prelude.{
  ◌≡◌, refl, sym, ◌∙◌, inl, inr, false, none, some, [], ◌∷◌, ◌++◌, if◌then◌else◌, Bool-cases,
  Option-cases,
}
use zen_ma2_agent.Prelude.Eq.{◌==◌, nat_eq, ==_true, ==_false}
use zen_ma2_agent.Prelude.Dict.{Dict, lookup, insert, Distinct, lookup-insert}
use zen_ma2_agent.Llm.Parallel.{Reply, fill}

-- `as_completed`: the pending requests, and an order in which they complete, one of them at a time.
pub data Completes : Dict ℕ Reply → Dict ℕ Reply → Type 0 where
  all_done : Completes [] []
  next :
      (xs ys : Dict ℕ Reply) (order : ℕ) (r : Reply) (zs : Dict ℕ Reply)
      → Completes (xs ++ ys) zs
      → Completes (xs ++ (order, r) ∷ ys) ((order, r) ∷ zs)

missing_rest :
    (j k : ℕ) (r : Reply) (xs ys : Dict ℕ Reply)
    → lookup j (xs ++ (k, r) ∷ ys) ≡ none
    → ((k == j) ≡ false) × (lookup j (xs ++ ys) ≡ none)
unfolding lookup
missing_rest j k r [] ys h = elim (Bool-cases (k == j)) [
  | inl same ↦ absurd (cc (rw same at h))
  | inr other ↦ (other, rw other at h)
]
missing_rest j k r ((i, s) ∷ xs) ys h = elim (Bool-cases (i == j)) [
  | inl same ↦ absurd (cc (rw same at h))
  | inr other ↦ rw other (missing_rest j k r xs ys (rw other at h))
]

Distinct-rest :
    (k : ℕ) (r : Reply) (xs ys : Dict ℕ Reply)
    → Distinct (xs ++ (k, r) ∷ ys)
    → Distinct (xs ++ ys) × (lookup k (xs ++ ys) ≡ none)
unfolding lookup
Distinct-rest k r [] ys h = (h.1, h.0)
Distinct-rest k r ((i, s) ∷ xs) ys h =
    let (d, missing) = Distinct-rest k r xs ys h.1 in
    let (other, missing_i) = missing_rest i k r xs ys h.0 in
    (
      (missing_i, d),
      elim (Bool-cases (i == k)) [
        | inl same ↦ absurd (==_false k i other (sym (==_true i k same)))
        | inr ne ↦ rw ne missing
      ],
    )

lookup_middle :
    (j k : ℕ) (r : Reply) (xs ys : Dict ℕ Reply)
    → lookup k (xs ++ ys) ≡ none
    → lookup j (xs ++ (k, r) ∷ ys) ≡ (if k == j then some r else lookup j (xs ++ ys))
unfolding lookup
lookup_middle j k r [] ys h = refl
lookup_middle j k r ((i, s) ∷ xs) ys h = elim (Bool-cases (i == k)) [
  | inl same ↦ absurd (cc (rw same at h))
  | inr other ↦ elim (Bool-cases (i == j)) [
    | inr ne ↦ rw ne (lookup_middle j k r xs ys (rw other at h))
    | inl ij ↦ elim (Bool-cases (k == j)) [
      | inl kj ↦ absurd (==_false i k other (==_true i j ij ∙ sym (==_true k j kj)))
      | inr kj ↦ rw (ij, kj)
    ]
  ]
]

lookup-Completes :
    (j : ℕ) (xs zs : Dict ℕ Reply)
    → Completes xs zs
    → Distinct xs
    → Distinct zs × (lookup j zs ≡ lookup j xs)
unfolding lookup
lookup-Completes j [] [] all_done h = (tt, refl)
lookup-Completes j _ _ (next xs ys k r zs c) h =
    let (d, missing) = Distinct-rest k r xs ys h in
    let (dz, same) = lookup-Completes j (xs ++ ys) zs c d in
    let (_, gone) = lookup-Completes k (xs ++ ys) zs c d in
    ((gone ∙ missing, dz), rw same (sym (lookup_middle j k r xs ys missing)))

-- What is filled in last wins, so each key has its own reply when no key comes twice.
lookup-fill :
    (j : ℕ) (zs d : Dict ℕ Reply)
    → Distinct zs
    → lookup j (fill zs d) ≡ elim (lookup j zs) [ none ↦ lookup j d | some r ↦ some r ]
unfolding fill lookup
lookup-fill j [] d h = refl
lookup-fill j ((k, r) ∷ zs) d h =
    lookup-fill j zs (insert k r d) h.1 ∙ elim (Option-cases (lookup j zs)) [
      | inl missing ↦ rw missing (
          lookup-insert k j r d
          ∙ elim (Bool-cases (k == j)) [ inl same ↦ rw same | inr other ↦ rw other ])
      | inr (s, found) ↦ rw found (elim (Bool-cases (k == j)) [
        | inl same ↦ absurd (cc (found, rw (==_true k j same) at h.0))
        | inr other ↦ rw other
      ])
    ]

pub fill-Completes :
    (j : ℕ) (xs zs : Dict ℕ Reply)
    → Completes xs zs
    → Distinct xs
    → lookup j (fill zs []) ≡ lookup j xs
fill-Completes j xs zs c h =
    let (d, same) = lookup-Completes j xs zs c h in
    lookup-fill j zs [] d
    ∙ rw same (elim (Option-cases (lookup j xs)) [
      | inl missing ↦ rw missing (unfold lookup in refl)
      | inr (r, found) ↦ rw found
    ])
