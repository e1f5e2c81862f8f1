-- ===== src/Prelude/Dict.antt =====
-- A Python `dict` or `OrderedDict`: an association list in insertion order.
use Prim.Native.Nat.{◌+◌, ◌≤◌}
use mathlib.Core.Path.{◌≡◌, refl, sym, ◌∙◌}
use mathlib.Core.Logic.{◌≢◌, ◌⊎◌, inl, inr}
use mathlib.Core.Bool.{Bool, true, false}
use mathlib.Core.Option.{Option, none, some}
use mathlib.Core.List.{List, [], ◌∷◌, ◌++◌}
use native.Mathlib.Omega.{arith}
use zen_ma2_agent.Prelude.Tests.{if◌then◌else◌, Bool-cases, Option-cases, is_some, some_inj}
use zen_ma2_agent.Prelude.Lists.{length, length-append}
use zen_ma2_agent.Prelude.Eq.{Comparable, ◌==◌, ==_self, ==_ne, ==_true, ==_false}

abbrev pub Dict {ℓ κ} : Type ℓ → Type κ → Type (ℓ ⊔ κ)
Dict K V = List (K × V)

module _ {ℓ κ} {K : Type ℓ} {V : Type κ} ⦃e : Comparable K⦄ where
  -- `d.get(k)`
  unfoldable pub lookup : K → Dict K V → Option V
  lookup k [] = none
  lookup k ((j, v) ∷ d) = if j == k then some v else lookup k d

  -- `d[k] = v`: an old key keeps its place, a new one goes to the end.
  unfoldable pub insert : K → V → Dict K V → Dict K V
  insert k v [] = (k, v) ∷ []
  insert k v ((j, w) ∷ d) = if j == k then (j, v) ∷ d else (j, w) ∷ insert k v d

  -- `del d[k]`
  unfoldable pub erase : K → Dict K V → Dict K V
  erase k [] = []
  erase k ((j, w) ∷ d) = if j == k then d else (j, w) ∷ erase k d

  -- `d.move_to_end(k)` at a key that is there
  unfoldable pub move_to_end : K → Dict K V → Dict K V
  unfolding lookup
  move_to_end k d = elim (lookup k d) [ none ↦ d | some v ↦ erase k d ++ (k, v) ∷ [] ]

  -- `k in d`
  abbrev pub contains : K → Dict K V → Bool
  contains k d = is_some (lookup k d)

  pub lookup-insert :
      (k j : K) (v : V) (d : Dict K V)
      → lookup j (insert k v d) ≡ (if k == j then some v else lookup j d)
  unfolding lookup insert
  lookup-insert k j v [] = refl
  lookup-insert k j v ((i, w) ∷ d) = elim (Bool-cases (i == k)) [
    | inl same ↦ rw same (elim (Bool-cases (k == j)) [
      | inl kj ↦ let q : (i == j) ≡ true = rw (==_true i k same) kj in rw (q, kj)
      | inr kj ↦ let q : (i == j) ≡ false = rw (==_true i k same) kj in rw (q, kj)
    ])
    | inr other ↦ rw other (elim (Bool-cases (i == j)) [
      | inl ij ↦
          let q : (k == j) ≡ false =
            ==_ne k j (λ kj. ==_false i k other (==_true i j ij ∙ sym kj)) in
          rw (ij, q)
      | inr ij ↦ rw (ij, lookup-insert k j v d)
    ])
  ]

  pub lookup-insert_self : (k : K) (v : V) (d : Dict K V) → lookup k (insert k v d) ≡ some v
  lookup-insert_self k v d = rw (lookup-insert k k v d, ==_self k)

  pub lookup-insert_ne :
      (k j : K) (v : V) (d : Dict K V) → k ≢ j → lookup j (insert k v d) ≡ lookup j d
  lookup-insert_ne k j v d h = rw (lookup-insert k j v d, ==_ne k j h)

  pub length-insert_le : (k : K) (v : V) (d : Dict K V) → length (insert k v d) ≤ length d + 1
  unfolding insert
  length-insert_le k v [] = omega arith
  length-insert_le k v (x ∷ d) = ground (arith, length-insert_le k v d)

  pub length-insert_old :
      (k : K) (v : V) (d : Dict K V) → contains k d ≡ true → length (insert k v d) ≡ length d
  unfolding insert lookup
  length-insert_old k v [] h = ground arith
  length-insert_old k v (x ∷ d) h = ground (arith, length-insert_old k v d)

  pub length-erase :
      (k : K) (d : Dict K V) → contains k d ≡ true → length (erase k d) + 1 ≡ length d
  unfolding erase lookup
  length-erase k [] h = ground arith
  length-erase k (x ∷ d) h = ground (arith, length-erase k d)

  pub length-move_to_end : (k : K) (d : Dict K V) → length (move_to_end k d) ≡ length d
  unfolding move_to_end
  length-move_to_end k d = elim (Option-cases (lookup k d)) [
    | inl missing ↦ rw (missing, move_to_end)
    | inr (v, found) ↦
        rw (found, move_to_end)
          (omega (arith, length-append (erase k d) ((k, v) ∷ []), length-erase k d (rw found)))
  ]

  -- No key occurs twice.
  abbrev pub Distinct : Dict K V → Type κ
  Distinct [] = Unit
  Distinct ((k, v) ∷ d) = (lookup k d ≡ none) × Distinct d

  pub Distinct-insert : (k : K) (v : V) (d : Dict K V) → Distinct d → Distinct (insert k v d)
  unfolding insert
  Distinct-insert k v [] h = (unfold lookup in refl, tt)
  Distinct-insert k v ((j, w) ∷ d) h = elim (Bool-cases (j == k)) [
    | inl same ↦ rw same h
    | inr other ↦ rw other (
      rw (lookup-insert_ne k j v d (λ kj. ==_false j k other (sym kj))) h.0,
      Distinct-insert k v d h.1,
    )
  ]

  pub lookup-erase_ne : (k j : K) (d : Dict K V) → k ≢ j → lookup j (erase k d) ≡ lookup j d
  unfolding lookup erase
  lookup-erase_ne k j [] h = refl
  lookup-erase_ne k j ((i, w) ∷ d) h = elim (Bool-cases (i == k)) [
    | inl same ↦
        let q : (i == j) ≡ false = ==_ne i j (λ ij. h (sym (==_true i k same) ∙ ij)) in rw (same, q)
    | inr other ↦
        rw other (elim (Bool-cases (i == j)) [
          | inl ij ↦ rw ij
          | inr ij ↦ rw (ij, lookup-erase_ne k j d h)
        ])
  ]

  pub lookup-erase_self : (k : K) (d : Dict K V) → Distinct d → lookup k (erase k d) ≡ none
  unfolding lookup erase
  lookup-erase_self k [] h = refl
  lookup-erase_self k ((i, w) ∷ d) h = elim (Bool-cases (i == k)) [
    | inl same ↦ rw same (rw (sym (==_true i k same)) h.0)
    | inr other ↦ rw (other, other) (lookup-erase_self k d h.1)
  ]

  pub Distinct-erase : (k : K) (d : Dict K V) → Distinct d → Distinct (erase k d)
  unfolding erase
  Distinct-erase k [] h = tt
  Distinct-erase k ((j, w) ∷ d) h = elim (Bool-cases (j == k)) [
    | inl same ↦ rw same h.1
    | inr other ↦
        rw other (
          rw (lookup-erase_ne k j d (λ kj. ==_false j k other (sym kj))) h.0,
          Distinct-erase k d h.1,
        )
  ]

  pub lookup-append :
      (j : K) (xs ys : Dict K V)
      → lookup j (xs ++ ys) ≡ elim (lookup j xs) [ none ↦ lookup j ys | some v ↦ some v ]
  unfolding lookup
  lookup-append j [] ys = refl
  lookup-append j ((i, w) ∷ xs) ys = elim (Bool-cases (i == j)) [
    | inl same ↦ rw same
    | inr other ↦ rw other (lookup-append j xs ys)
  ]

  -- Where an entry of `insert k v d` comes from.
  pub lookup-insert_cases :
      (k j : K) (v w : V) (d : Dict K V)
      → lookup j (insert k v d) ≡ some w
      → ((k ≡ j) × (v ≡ w)) ⊎ ((k ≢ j) × (lookup j d ≡ some w))
  lookup-insert_cases k j v w d h = elim (Bool-cases (k == j)) [
    | inl same ↦ inl (==_true k j same, some_inj (rw same at (rw (lookup-insert k j v d) at h)))
    | inr other ↦ inr (==_false k j other, rw other at (rw (lookup-insert k j v d) at h))
  ]
