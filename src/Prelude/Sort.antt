-- ===== src/Prelude/Sort.antt =====
-- `sorted` and `min` of Python with a key: a stable insertion sort by a Boolean order, and the first
-- least element.
use mathlib.Core.Path.{◌≡◌, refl}
use mathlib.Core.Logic.{◌⊎◌, inl, inr}
use mathlib.Core.Bool.{Bool, true, false, not}
use mathlib.Core.List.{List, [], ◌∷◌, ◌++◌, map, Perm, perm_middle}
use mathlib.Core.List.Perm
use zen_ma2_agent.Prelude.Tests.{if◌then◌else◌, Bool-cases}
use zen_ma2_agent.Prelude.Lists.{All, All-map, All-append, filter}

-- A total preorder, as the comparison of keys is.
pub record IsOrder {ℓ} {A : Type ℓ} (le : A → A → Bool) : Type ℓ where
  pub total : (x y : A) → (le x y ≡ true) ⊎ (le y x ≡ true)
  pub trans : (x y z : A) → le x y ≡ true → le y z ≡ true → le x z ≡ true

-- The order of `key(x)` is one if the order of the keys is.
pub IsOrder-key {ℓ κ} :
    {A : Type ℓ} {B : Type κ} {le : B → B → Bool} (key : A → B)
    → IsOrder le
    → IsOrder (λ x y. le (key x) (key y))
IsOrder-key key o = record {
  total = λ x y. o.total (key x) (key y);
  trans = λ x y z. o.trans (key x) (key y) (key z);
}

module _ {ℓ} {A : Type ℓ} (le : A → A → Bool) where
  -- An equal element that came earlier stays in front: the sort is stable.
  unfoldable pub insert_sorted : A → List A → List A
  insert_sorted x [] = x ∷ []
  insert_sorted x (y ∷ ys) = if le x y then x ∷ y ∷ ys else y ∷ insert_sorted x ys

  -- `sorted(l, key=…)`
  unfoldable pub sort : List A → List A
  unfolding insert_sorted
  sort [] = []
  sort (x ∷ xs) = insert_sorted x (sort xs)

  -- The first of the least elements of `x ∷ xs`: `min(l, key=…)`.
  unfoldable pub min_by : A → List A → A
  min_by x [] = x
  min_by x (y ∷ ys) = min_by (if le x y then x else y) ys

  -- Each element is at most all that follow.
  abbrev pub IsSorted : List A → Type 0
  IsSorted [] = Unit
  IsSorted (x ∷ xs) = All (λ y. le x y ≡ true) xs × IsSorted xs

  pub insert_sorted-perm : (x : A) (ys : List A) → Perm (insert_sorted x ys) (x ∷ ys)
  unfolding insert_sorted
  insert_sorted-perm x [] = Perm.refl (x ∷ [])
  insert_sorted-perm x (y ∷ ys) = elim (Bool-cases (le x y)) [
    | inl first ↦ rw first (Perm.refl (x ∷ y ∷ ys))
    | inr later ↦ rw later (Perm.trans (Perm.cons y (insert_sorted-perm x ys)) (Perm.swap x y ys))
  ]

  -- Sorting keeps every element, as often.
  pub sort-perm : (xs : List A) → Perm (sort xs) xs
  unfolding sort
  sort-perm [] = Perm.refl []
  sort-perm (x ∷ xs) = Perm.trans (insert_sorted-perm x (sort xs)) (Perm.cons x (sort-perm xs))

  pub insert_sorted-All {κ} :
      (P : A → Type κ) (x : A) (ys : List A) → P x → All P ys → All P (insert_sorted x ys)
  unfolding insert_sorted
  insert_sorted-All P x [] hx h = (hx, tt)
  insert_sorted-All P x (y ∷ ys) hx h = elim (Bool-cases (le x y)) [
    | inl first ↦ rw first (hx, h)
    | inr later ↦ rw later (h.0, insert_sorted-All P x ys hx h.1)
  ]

  pub sort-All {κ} : (P : A → Type κ) (xs : List A) → All P xs → All P (sort xs)
  unfolding sort
  sort-All P [] h = tt
  sort-All P (x ∷ xs) h = insert_sorted-All P x (sort xs) h.0 (sort-All P xs h.1)

  pub min_by-All {κ} : (P : A → Type κ) (x : A) (xs : List A) → P x → All P xs → P (min_by x xs)
  unfolding min_by
  min_by-All P x [] hx h = hx
  min_by-All P x (y ∷ ys) hx h = elim (Bool-cases (le x y)) [
    | inl first ↦ rw first (min_by-All P x ys hx h.1)
    | inr later ↦ rw later (min_by-All P y ys h.0 h.1)
  ]

module _ {ℓ} {A : Type ℓ} {le : A → A → Bool} (o : IsOrder le) where
  flip : (x y : A) → le x y ≡ false → le y x ≡ true
  flip x y h = elim (o.total x y) [ inl e ↦ cc | inr e ↦ e ]

  insert_sorted-IsSorted :
      (x : A) (ys : List A) → IsSorted le ys → IsSorted le (insert_sorted le x ys)
  unfolding insert_sorted
  insert_sorted-IsSorted x [] h = (tt, tt)
  insert_sorted-IsSorted x (y ∷ ys) h = elim (Bool-cases (le x y)) [
    | inl first ↦
        rw first ((first, All-map (λ z. le y z ≡ true) (λ z. o.trans x y z first) ys h.0), h)
    | inr later ↦ rw later (
      insert_sorted-All le (λ z. le y z ≡ true) x ys (flip x y later) h.0,
      insert_sorted-IsSorted x ys h.1,
    )
  ]

  -- The result of `sort` is in order.
  pub sort-IsSorted : (xs : List A) → IsSorted le (sort le xs)
  unfolding sort
  sort-IsSorted [] = tt
  sort-IsSorted (x ∷ xs) = insert_sorted-IsSorted x (sort le xs) (sort-IsSorted xs)

  -- The smaller of two is at most both.
  pick-le :
      (x y : A) → (le (if le x y then x else y) x ≡ true) × (le (if le x y then x else y) y ≡ true)
  pick-le x y = elim (Bool-cases (le x y)) [
    | inl first ↦ rw first (elim (o.total x x) [ inl e ↦ e | inr e ↦ e ], first)
    | inr later ↦ rw later (flip x y later, elim (o.total y y) [ inl e ↦ e | inr e ↦ e ])
  ]

  -- `min_by` is at most its start and at most every element.
  pub min_by-least :
      (x : A) (xs : List A)
      → (le (min_by le x xs) x ≡ true) × All (λ y. le (min_by le x xs) y ≡ true) xs
  unfolding min_by
  min_by-least x [] = (elim (o.total x x) [ inl e ↦ e | inr e ↦ e ], tt)
  min_by-least x (y ∷ ys) =
      let h = min_by-least (if le x y then x else y) ys in
      let p = pick-le x y in
      (
        o.trans (min_by le (if le x y then x else y) ys) (if le x y then x else y) x h.0 p.0,
        (o.trans (min_by le (if le x y then x else y) ys) (if le x y then x else y) y h.0 p.1, h.1),
      )

-- Sorting commutes with a map that keeps the order.
module _ {ℓ κ} {A : Type ℓ} {B : Type κ} (f : A → B) (le : A → A → Bool) (le' : B → B → Bool)
    (same : (x y : A) → le' (f x) (f y) ≡ le x y) where
  insert_sorted-map :
      (x : A) (ys : List A) → insert_sorted le' (f x) (map f ys) ≡ map f (insert_sorted le x ys)
  unfolding insert_sorted
  insert_sorted-map x [] = refl
  insert_sorted-map x (y ∷ ys) = elim (Bool-cases (le x y)) [
    | inl first ↦ rw (same x y, first)
    | inr later ↦ rw (same x y, later, insert_sorted-map x ys)
  ]

  pub sort-map : (xs : List A) → sort le' (map f xs) ≡ map f (sort le xs)
  unfolding sort
  sort-map [] = refl
  sort-map (x ∷ xs) = rw (sort-map xs, insert_sorted-map x (sort le xs))

-- Two sorted lists in a row are sorted if all of the first comes before all of the second.
pub append-IsSorted {ℓ} :
    {A : Type ℓ} (le : A → A → Bool) (xs ys : List A)
    → IsSorted le xs
    → IsSorted le ys
    → All (λ x. All (λ y. le x y ≡ true) ys) xs
    → IsSorted le (xs ++ ys)
append-IsSorted le [] ys hx hy h = hy
append-IsSorted le (x ∷ xs) ys hx hy h =
    (All-append (λ y. le x y ≡ true) xs ys hx.0 h.0, append-IsSorted le xs ys hx.1 hy h.1)

-- The elements that pass a test, and then those that do not, are all of them.
pub filter-perm {ℓ} :
    {A : Type ℓ} (p : A → Bool) (xs : List A) → Perm (filter p xs ++ filter (λ x. not (p x)) xs) xs
filter-perm p [] = Perm.refl []
filter-perm p (x ∷ xs) = elim (Bool-cases (p x)) [
  | inl pass ↦ rw pass (Perm.cons x (filter-perm p xs))
  | inr other ↦ rw other (
      Perm.trans (perm_middle (filter p xs) (filter (λ x. not (p x)) xs))
        (Perm.cons x (filter-perm p xs)))
]

insert_sorted-front {ℓ} :
    {A : Type ℓ} (le : A → A → Bool) (x : A) (ys : List A)
    → All (λ y. le x y ≡ true) ys
    → insert_sorted le x ys ≡ x ∷ ys
unfolding insert_sorted
insert_sorted-front le x [] h = refl
insert_sorted-front le x (y ∷ ys) h = rw h.0

-- A list in order is left as it is.
pub sort-fixed {ℓ} :
    {A : Type ℓ} (le : A → A → Bool) (xs : List A) → IsSorted le xs → sort le xs ≡ xs
unfolding sort
sort-fixed le [] h = refl
sort-fixed le (x ∷ xs) h = rw (sort-fixed le xs h.1, insert_sorted-front le x xs h.0)
