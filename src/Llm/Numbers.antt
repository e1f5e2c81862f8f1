-- ===== src/Llm/Numbers.antt =====
-- The candidates of a router of zen_ma2_agent/llm/router.py whose slots were loaded have different numbers.
use Prim.Native.Nat.{ℕ, zero, suc, ◌<◌}
use native.Mathlib.Omega.{arith}
use mathlib.Core.Path.{subst}
use mathlib.Core.HLevel.{×_prop}
use mathlib.Core.Logic.{∥∥₁_elim}
use mathlib.Core.Bool.{Bool-set}
use mathlib.Core.List.{Perm, Permᴰ}
use mathlib.Core.List.Perm
use zen_ma2_agent.Prelude.{
  ◌≡◌, refl, sym, inl, inr, Bool, true, false, ◌&&◌, ◌||◌, List, [], ◌∷◌, map, filter, take,
  Bool-cases,
}
use zen_ma2_agent.Prelude.Eq.{◌==◌, nat_eq, member, ==_ne, ==_false}
use zen_ma2_agent.Prelude.Text.{Text, codes, text_eq}
use zen_ma2_agent.Llm.Slots.{Builtins, ProviderSlot, configured, supports}
use zen_ma2_agent.Llm.Router.{ProviderRouter, eligible, candidates}
use zen_ma2_agent.Llm.Order.{Chosen, candidates_lem}
use zen_ma2_agent.Llm.Batches.{Absent, NoRepeat}
use zen_ma2_agent.Llm.Loaded.{numbers_from}

Absent-filter :
    (n : ℕ) (p : ProviderSlot → Bool) (slots : List ProviderSlot)
    → Absent n slots
    → Absent n (filter p slots)
Absent-filter n p [] h = refl
Absent-filter n p (s ∷ slots) h = elim (Bool-cases (s.number == n)) [
  | inl same ↦ absurd (cc (rw same at h))
  | inr other ↦ elim (Bool-cases (p s)) [
    | inl kept ↦ rw kept (rw (other, Absent-filter n p slots (rw other at h)))
    | inr left ↦ rw left (Absent-filter n p slots (rw other at h))
  ]
]

NoRepeat-filter :
    (p : ProviderSlot → Bool) (slots : List ProviderSlot)
    → NoRepeat slots
    → NoRepeat (filter p slots)
NoRepeat-filter p [] h = tt
NoRepeat-filter p (s ∷ slots) h = elim (Bool-cases (p s)) [
  | inl kept ↦ rw kept (Absent-filter s.number p slots h.0, NoRepeat-filter p slots h.1)
  | inr left ↦ rw left (NoRepeat-filter p slots h.1)
]

or_false : (a b : Bool) → (a || b) ≡ false → (a ≡ false) × (b ≡ false)
or_false true b h = absurd (cc h)
or_false false b h = (refl, h)

Absent-perm : (n : ℕ) (xs ys : List ProviderSlot) → Permᴰ xs ys → Absent n xs → Absent n ys
Absent-perm n [] [] Permᴰ.nil h = h
Absent-perm n _ _ (Permᴰ.cons {a = a} {b = b} {l₁ = xs} {l₂ = ys} e d) h =
    let (first, others) = or_false (a.number == n) (member n (map (λ s. s.number) xs)) h in
    rw (sym e) (rw (first, Absent-perm n xs ys d others))
Absent-perm n _ _ (Permᴰ.swap {a = a} {b = b} {a' = c} {b' = d} {l = l} e f) h =
    let (first, others) = or_false (a.number == n) (member n (map (λ s. s.number) (b ∷ l))) h in
    let (second, more) = or_false (b.number == n) (member n (map (λ s. s.number) l)) others in
    rw (sym e, sym f) (rw (second, first, more))
Absent-perm n xs ys (Permᴰ.trans {l₂ = zs} d e) h = Absent-perm n zs ys e (Absent-perm n xs zs d h)

NoRepeat-swap :
    (a b : ProviderSlot) (l : List ProviderSlot) → NoRepeat (a ∷ b ∷ l) → NoRepeat (b ∷ a ∷ l)
NoRepeat-swap a b l h =
    let (other, others) =
      or_false (b.number == a.number) (member a.number (map (λ s. s.number) l)) h.0 in
    let swapped : (a.number == b.number) ≡ false =
      ==_ne a.number b.number (λ same. ==_false b.number a.number other (sym same)) in
    (rw swapped h.1.0, (others, h.1.1))

NoRepeat-permᴰ : (xs ys : List ProviderSlot) → Permᴰ xs ys → NoRepeat xs → NoRepeat ys
NoRepeat-permᴰ [] [] Permᴰ.nil h = h
NoRepeat-permᴰ _ _ (Permᴰ.cons {a = a} {b = b} {l₁ = xs} {l₂ = ys} e d) h =
    (rw (sym e) (Absent-perm a.number xs ys d h.0), NoRepeat-permᴰ xs ys d h.1)
NoRepeat-permᴰ _ _ (Permᴰ.swap {a = a} {b = b} {a' = c} {b' = d} {l = l} e f) h =
    subst (λ x. NoRepeat (x ∷ d ∷ l)) f
      (subst (λ y. NoRepeat (b ∷ y ∷ l)) e (NoRepeat-swap a b l h))
NoRepeat-permᴰ xs ys (Permᴰ.trans {l₂ = zs} d e) h =
    NoRepeat-permᴰ zs ys e (NoRepeat-permᴰ xs zs d h)

NoRepeat-prop : (xs : List ProviderSlot) → IsProp (NoRepeat xs)
NoRepeat-prop [] = λ x y. refl
NoRepeat-prop (s ∷ xs) =
    ×_prop (Bool-set (member s.number (map (λ t. t.number) xs)) false) (NoRepeat-prop xs)

NoRepeat-perm : (xs ys : List ProviderSlot) → Perm xs ys → NoRepeat xs → NoRepeat ys
NoRepeat-perm xs ys p h = ∥∥₁_elim p (NoRepeat-prop ys) (λ d. NoRepeat-permᴰ xs ys d h)

take_one-NoRepeat : (slots : List ProviderSlot) → NoRepeat (take 1 slots)
take_one-NoRepeat [] = tt
take_one-NoRepeat (s ∷ slots) = (refl, tt)

-- In every mode the candidates have different numbers when the slots do.
pub candidates-NoRepeat :
    (py : Builtins) (role : Text) (r : ProviderRouter)
    → NoRepeat r.slots
    → NoRepeat (candidates py role r)
candidates-NoRepeat py role r h =
    cases r.mode (eligible py role r) (candidates py role r) alone (candidates_lem py role r)
  where
    alone : NoRepeat (eligible py role r)
    alone = unfold eligible in NoRepeat-filter (λ s. configured s && supports py role s) r.slots h

    cases :
        (mode : Text) (slots cs : List ProviderSlot)
        → NoRepeat slots
        → Chosen mode slots cs
        → NoRepeat cs
    cases mode slots cs h c = elim (Bool-cases (mode == codes "PRIMARY_ONLY")) [
      | inl e ↦ let same : cs ≡ take 1 slots = rw e at c in rw same (take_one-NoRepeat slots)
      | inr e1 ↦ elim (Bool-cases (mode == codes "FALLBACK")) [
        | inl e ↦ let same : cs ≡ slots = rw (e1, e) at c in rw same h
        | inr e2 ↦ elim (Bool-cases (mode == codes "ROUTED")) [
          | inl e ↦ NoRepeat-perm slots cs (Perm.symm (rw (e1, e2, e) at c).0) h
          | inr e3 ↦ NoRepeat-perm slots cs (Perm.symm (rw (e1, e2, e3) at c).0) h
        ]
      ]
    ]

not_in_later : (n m count : ℕ) → n < m → member n (numbers_from m count) ≡ false
unfolding numbers_from
not_in_later n m zero h = refl
not_in_later n m (suc count) h =
    let e : (m == n) ≡ false = ground (arith, h) in
    rw (e, not_in_later n (suc m) count (omega (arith, h)))

pub different_numbers :
    (n count : ℕ) (slots : List ProviderSlot)
    → map (λ s. s.number) slots ≡ numbers_from n count
    → NoRepeat slots
unfolding numbers_from
different_numbers n count [] h = tt
different_numbers n zero (s ∷ slots) h = absurd (cc h)
different_numbers n (suc count) (s ∷ slots) h =
    let rest : map (λ t. t.number) slots ≡ numbers_from (suc n) count = cc h in
    let first : s.number ≡ n = cc h in
    (
      rw (rest, first) (not_in_later n (suc n) count (omega arith)),
      different_numbers (suc n) count slots rest,
    )
