-- ===== src/GroupOrder/Tests.antt =====
-- A group of two fixtures that is turned round, and a protected fixture written with a leading zero.
use Prim.Native.Nat.{ℕ}
use mathlib.Core.List.{Perm}
use zen_ma2_agent.Prelude.{◌≡◌, refl, ◌↔◌, ◌+◌, ◌*◌, ◌-◌, true, some, [], ◌∷◌, map, ok}
use zen_ma2_agent.Prelude.Text.{Text, codes, text_beq, strip}
use zen_ma2_agent.Json.{pos, int}
use zen_ma2_agent.GroupOrder.{Digits, GroupOrderSpec, create, refs, verify}
use zen_ma2_agent.GroupOrder.Laws.{create-keeps}

-- The numbers of texts of ASCII digits.
value_from : ℕ → Text → ℕ
value_from n [] = n
value_from n (c ∷ s) = value_from (n * 10 + (c - 48)) s

digits : Digits
digits = record { isdigit = λ t. true; int_of = λ t. some (value_from 0 t) }

abbrev turned : GroupOrderSpec
turned = record {
  group_id = 3;
  group_name = codes "Spots";
  members_before = codes "1" ∷ codes "2" ∷ [];
  desired_order = codes "2" ∷ codes "1" ∷ [];
}

accepted :
    create digits
      (int (pos 3))
      (codes "Spots")
      (codes "1" ∷ codes "2" ∷ [])
      (codes "2" ∷ codes "1" ∷ [])
    ≡ ok turned
unfolding create digits text_beq value_from
accepted = refl

create-keeps_example :
    (refs digits (codes "1" ∷ codes "2" ∷ []) ≡ ok turned.members_before)
    × (refs digits (codes "2" ∷ codes "1" ∷ []) ≡ ok turned.desired_order)
    × Perm turned.members_before turned.desired_order
    × ((verify turned (codes " 2" ∷ codes "1" ∷ []) ≡ ok tt)
        ↔ (map strip (codes " 2" ∷ codes "1" ∷ []) ≡ turned.desired_order))
create-keeps_example =
    create-keeps digits (int (pos 3)) (codes "Spots") (codes "1" ∷ codes "2" ∷ [])
      (codes "2" ∷ codes "1" ∷ []) (codes " 2" ∷ codes "1" ∷ []) turned accepted

abbrev protected_spec : GroupOrderSpec
protected_spec = record {
  group_id = 3;
  group_name = codes "Spots";
  members_before = codes "9999" ∷ [];
  desired_order = codes "9999" ∷ [];
}

-- The protected fixture passes when its number has a leading zero.
leading_zero :
    create digits (int (pos 3)) (codes "Spots") (codes "09999" ∷ []) (codes "09999" ∷ [])
    ≡ ok protected_spec
unfolding create digits text_beq value_from
leading_zero = refl
