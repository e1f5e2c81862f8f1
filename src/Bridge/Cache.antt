-- ===== src/Bridge/Cache.antt =====
-- The bounded caches of zen_ma2_agent/ma_bridge: what eviction keeps.
use Prim.Native.Nat.{ℕ, suc, ◌≤◌}
use zen_ma2_agent.Prelude.{
  ◌≡◌, refl, sym, inl, inr, true, false, none, some, List, [], ◌∷◌, ◌++◌, arith, Bool-cases,
  Option-cases, length, length-append, ltb,
}
use zen_ma2_agent.Prelude.Eq.{◌==◌, ==_self, ==_ne, ==_false}
use zen_ma2_agent.Prelude.Dict.{
  Dict, lookup, insert, erase, move_to_end, lookup-insert_self, Distinct, Distinct-insert,
  Distinct-erase, lookup-erase_self, lookup-append,
}
use zen_ma2_agent.Prelude.Text.{Text, text_eq}
use zen_ma2_agent.Bridge.Dispatch.{evict, remember}

pub length-evict {ℓ} : {A : Type ℓ} (n : ℕ) (xs : List A) → length (evict n xs) ≤ n
unfolding evict
length-evict n [] = omega arith
length-evict n (x ∷ xs) = ground (arith, length-evict n xs)

evict-last {ℓ} :
    {A : Type ℓ} (n : ℕ) (xs : List A) (x : A) → evict (suc n) (xs ++ x ∷ []) ≡ evict n xs ++ x ∷ []
unfolding evict
evict-last n [] x = ground arith
evict-last n (y ∷ xs) x = elim (Bool-cases (ltb n (length (y ∷ xs)))) [
  | inl over ↦
      let big : ltb (suc n) (length (y ∷ (xs ++ x ∷ []))) ≡ true =
        rw (length-append xs (x ∷ [])) (ground arith) in
      rw (over, big) (evict-last n xs x)
  | inr under ↦
      let small : ltb (suc n) (length (y ∷ (xs ++ x ∷ []))) ≡ false =
        rw (length-append xs (x ∷ [])) (ground arith) in
      rw (under, small)
]

module _ (n : ℕ) (k : Text) where
  lookup-evict-none : (d : Dict Text Text) → lookup k d ≡ none → lookup k (evict n d) ≡ none
  unfolding evict lookup
  lookup-evict-none [] h = refl
  lookup-evict-none ((j, v) ∷ d) h = elim (Bool-cases (j == k)) [
    | inl same ↦ absurd (cc (rw same at h))
    | inr other ↦ elim (Bool-cases (ltb n (length ((j, v) ∷ d)))) [
      | inl over ↦ rw over (lookup-evict-none d (rw other at h))
      | inr under ↦ rw under h
    ]
  ]

pub Distinct-evict : (n : ℕ) (d : Dict Text Text) → Distinct d → Distinct (evict n d)
unfolding evict
Distinct-evict n [] h = tt
Distinct-evict n ((j, v) ∷ d) h = elim (Bool-cases (ltb n (length ((j, v) ∷ d)))) [
  | inl over ↦ rw over (Distinct-evict n d h.1)
  | inr under ↦ rw under h
]

Distinct-append :
    (k v : Text) (d : Dict Text Text) → Distinct d → lookup k d ≡ none → Distinct (d ++ (k, v) ∷ [])
unfolding lookup
Distinct-append k v [] h e = (refl, tt)
Distinct-append k v ((j, w) ∷ d) h e = elim (Bool-cases (j == k)) [
  | inl same ↦ absurd (cc (rw same at e))
  | inr other ↦ (
    rw (lookup-append j d ((k, v) ∷ []), h.0) (rw (==_ne k j (λ kj. ==_false j k other (sym kj)))),
    Distinct-append k v d h.1 (rw other at e),
  )
]

module _ (k : Text) (d : Dict Text Text) (u : Distinct d) where
  pub Distinct-move_to_end : Distinct (move_to_end k d)
  unfolding move_to_end
  Distinct-move_to_end = elim (Option-cases (lookup k d)) [
    | inl missing ↦ rw (missing, move_to_end) u
    | inr (v, found) ↦
        rw (found, move_to_end)
          (Distinct-append k v (erase k d) (Distinct-erase k d u) (lookup-erase_self k d u))
  ]

  pub lookup-move_to_end : lookup k (move_to_end k d) ≡ lookup k d
  unfolding move_to_end lookup
  lookup-move_to_end = elim (Option-cases (lookup k d)) [
    | inl missing ↦ rw (missing, move_to_end) (rw missing)
    | inr (v, found) ↦
        rw (found, move_to_end)
          (rw (lookup-append k (erase k d) ((k, v) ∷ []), lookup-erase_self k d u) (rw (==_self k)))
  ]

  -- What was remembered last is found, whatever was evicted.
  pub lookup-remember : (n : ℕ) (v : Text) → lookup k (remember (suc n) k v d) ≡ some v
  unfolding remember move_to_end lookup
  lookup-remember n v =
      let d' = insert k v d in
      let u' = Distinct-insert k v d u in
      rw (
        lookup-insert_self k v d,
        move_to_end,
        evict-last n (erase k d') (k, v),
        lookup-append k (evict n (erase k d')) ((k, v) ∷ []),
        lookup-evict-none n k (erase k d') (lookup-erase_self k d' u'),
        ==_self k,
      )

pub Distinct-remember :
    (n : ℕ) (k v : Text) (d : Dict Text Text) → Distinct d → Distinct (remember n k v d)
unfolding remember
Distinct-remember n k v d u =
    Distinct-evict n (move_to_end k (insert k v d))
      (Distinct-move_to_end k (insert k v d) (Distinct-insert k v d u))

pub length-remember : (n : ℕ) (k v : Text) (d : Dict Text Text) → length (remember n k v d) ≤ n
unfolding remember
length-remember n k v d = length-evict n (move_to_end k (insert k v d))
