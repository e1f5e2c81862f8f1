-- ===== src/GroupOrder/Laws.antt =====
-- A group order of zen_ma2_agent/group_order_builder.py keeps the members of the group.
use native.Mathlib.Omega.{arith}
use mathlib.Core.List.{Perm, perm_middle}
use mathlib.Core.List.Perm
use mathlib.Core.Path.{subst}
use zen_ma2_agent.Prelude.{
  ◌≡◌, refl, sym, ◌∙◌, ap, ◌↔◌, inl, inr, Bool, true, false, not, ◌||◌, List, [], ◌∷◌, ◌++◌, map,
  all, length, length-append, nat_beq, nat_beq_iff, Bool-cases, and-true, ok, bind-ok, raise_if-ok,
  ok_inj,
}
use zen_ma2_agent.Prelude.Eq.{◌==◌, member, ==_true, ==_false, ==_self, ==_ne}
use zen_ma2_agent.Prelude.Text.{Text, text_eq, strip}
use zen_ma2_agent.Json.{Value}
use zen_ma2_agent.GroupOrder.{
  Digits, GroupOrderSpec, is_empty, refs, no_repeats, same_set, group_id_of, create, same_order,
  verify, no_name, duplicate_members, membership_changed, readback_order,
}

-- Where a member stands in a list.
member-split :
    (x : Text) (ys : List Text)
    → member x ys ≡ true
    → (front : List Text) × (back : List Text) × (ys ≡ front ++ x ∷ back)
member-split x [] h = absurd (cc h)
member-split x (y ∷ ys) h = elim (Bool-cases (y == x)) [
  | inl same ↦ ([], ys, ap (λ z. z ∷ ys) (==_true y x same))
  | inr other ↦
      let (front, back, e) = member-split x ys (rw other at h) in (y ∷ front, back, ap (◌∷◌ y) e)
]

-- A member other than the one taken out is still there.
member-without :
    (x z : Text) (front back : List Text)
    → (x == z) ≡ false
    → member z (front ++ x ∷ back) ≡ true
    → member z (front ++ back) ≡ true
member-without x z [] back e h = rw e at h
member-without x z (y ∷ front) back e h = elim (Bool-cases (y == z)) [
  | inl same ↦ rw same
  | inr other ↦ rw other (member-without x z front back e (rw other at h))
]

others_inside :
    (x : Text) (xs front back : List Text)
    → member x xs ≡ false
    → all (λ z. member z (front ++ x ∷ back)) xs ≡ true
    → all (λ z. member z (front ++ back)) xs ≡ true
others_inside x [] front back new h = refl
others_inside x (z ∷ xs) front back new h =
    let (inside, rest) =
      and-true (member z (front ++ x ∷ back)) (all (λ w. member w (front ++ x ∷ back)) xs) h in
    elim (Bool-cases (z == x)) [
      | inl same ↦ absurd (cc (rw same at new))
      | inr other ↦
          let e : (x == z) ≡ false = ==_ne x z (λ same. ==_false z x other (sym same)) in
          rw (
            member-without x z front back e inside,
            others_inside x xs front back (rw other at new) rest,
          )
    ]

-- A list without repetitions, inside a list of the same length, has the same elements.
no_repeats-perm :
    (xs ys : List Text)
    → no_repeats xs ≡ true
    → all (λ x. member x ys) xs ≡ true
    → length xs ≡ length ys
    → Perm xs ys
unfolding no_repeats
no_repeats-perm [] [] alone inside same = Perm.refl []
no_repeats-perm [] (y ∷ ys) alone inside same = absurd (omega (arith, same))
no_repeats-perm (x ∷ xs) ys alone inside same =
    let (first, rest) = and-true (member x ys) (all (λ z. member z ys) xs) inside in
    let (new, alone') = and-true (not (member x xs)) (no_repeats xs) alone in
    let (front, back, e) = member-split x ys first in
    let fewer : length xs ≡ length (front ++ back) =
      omega (arith, same, ap length e, length-append front (x ∷ back), length-append front back) in
    let inside' =
      others_inside x xs front back (is_false (member x xs) new)
        (subst (λ l. all (λ z. member z l) xs ≡ true) e rest) in
    subst (Perm (x ∷ xs)) (sym e) (
      Perm.trans (Perm.cons x (no_repeats-perm xs (front ++ back) alone' inside' fewer))
        (Perm.symm (perm_middle front back)))
  where
    is_false : (b : Bool) → not b ≡ true → b ≡ false
    is_false true h = absurd (cc h)
    is_false false h = refl

same_order_iff : (xs ys : List Text) → (same_order xs ys ≡ true) ↔ (xs ≡ ys)
unfolding same_order
same_order_iff [] [] = (λ h. refl, λ h. refl)
same_order_iff [] (y ∷ ys) = (λ h. absurd (cc h), λ h. absurd (cc h))
same_order_iff (x ∷ xs) [] = (λ h. absurd (cc h), λ h. absurd (cc h))
same_order_iff (x ∷ xs) (y ∷ ys) = (
  λ h.
      let (first, rest) = and-true (x == y) (same_order xs ys) h in
      ap (λ z. z ∷ xs) (==_true x y first) ∙ ap (◌∷◌ y) ((same_order_iff xs ys).0 rest),
  λ h.
      let first : x ≡ y = cc h in
      let rest : xs ≡ ys = cc h in rw (first, ==_self y) ((same_order_iff xs ys).1 rest),
)

double_negation : (b : Bool) → not b ≡ false → b ≡ true
double_negation true h = refl
double_negation false h = absurd (cc h)

neither : (a b : Bool) → (not a || not b) ≡ false → (a ≡ true) × (b ≡ true)
neither true b h = (refl, double_negation b h)
neither false b h = absurd (cc h)

-- What the checks of `create` leave: both lists as they were given, with the same members.
create-checked :
    (py : Digits) (id : Value) (name : Text) (members order : List Text) (spec : GroupOrderSpec)
    → create py id name members order ≡ ok spec
    → (refs py members ≡ ok spec.members_before)
      × (refs py order ≡ ok spec.desired_order)
      × (no_repeats spec.members_before ≡ true)
      × (length spec.members_before ≡ length spec.desired_order)
      × (same_set spec.members_before spec.desired_order ≡ true)
unfolding create
create-checked py id name members order spec h =
    let (n, _, h1) = bind-ok (group_id_of id) _ spec h in
    let (_, h2) = raise_if-ok (is_empty (strip name)) no_name _ spec h1 in
    let (before, given, h3) = bind-ok (refs py members) _ spec h2 in
    let (desired, asked, h4) = bind-ok (refs py order) _ spec h3 in
    let (alone, h5) = raise_if-ok (not (no_repeats before)) duplicate_members _ spec h4 in
    let (kept, h6) =
      raise_if-ok (not (nat_beq (length before) (length desired)) || not (same_set before desired))
        membership_changed _ spec h5 in
    let (long, sets) =
      neither (nat_beq (length before) (length desired)) (same_set before desired) kept in
    rw (sym (ok_inj h6)) (
      given,
      asked,
      double_negation (no_repeats before) alone,
      (nat_beq_iff (length before) (length desired)).0 long,
      sets,
    )

-- An accepted order holds the two lists that were asked for, each member read as a reference, and the
-- second is a permutation of the first; the readback is accepted exactly when it shows the second.
pub create-keeps :
    (py : Digits) (id : Value) (name : Text) (members order readback : List Text)
    (spec : GroupOrderSpec)
    → create py id name members order ≡ ok spec
    → (refs py members ≡ ok spec.members_before)
      × (refs py order ≡ ok spec.desired_order)
      × Perm spec.members_before spec.desired_order
      × ((verify spec readback ≡ ok tt) ↔ (map strip readback ≡ spec.desired_order))
unfolding verify
create-keeps py id name members order readback spec h =
    let (given, asked, alone, long, sets) = create-checked py id name members order spec h in
    let (inside, outside) =
      and-true (all (λ x. member x spec.desired_order) spec.members_before)
        (all (λ y. member y spec.members_before) spec.desired_order) sets in
    (
      given,
      asked,
      no_repeats-perm spec.members_before spec.desired_order alone inside long,
      (
        λ v.
            let (same, _) =
              raise_if-ok (not (same_order (map strip readback) spec.desired_order)) readback_order
                _ tt v in
            (same_order_iff (map strip readback) spec.desired_order).0
              (double_negation (same_order (map strip readback) spec.desired_order) same),
        λ e.
            let same = (same_order_iff (map strip readback) spec.desired_order).1 e in
            let counts : nat_beq (length spec.desired_order) (length spec.members_before) ≡ true =
              (nat_beq_iff (length spec.desired_order) (length spec.members_before)).1 (sym long) in
            rw same (rw e (rw (outside, inside, counts) refl)),
      ),
    )
