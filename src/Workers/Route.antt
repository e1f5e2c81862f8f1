-- ===== src/Workers/Route.antt =====
-- What the registry and the routing of zen_ma2_agent/remote_workers.py promise.
use Prim.Native.Nat.{◌≤◌}
use mathlib.Core.List.{Memᴰ}
use zen_ma2_agent.Prelude.{
  All-filter, All-map, ◌≡◌, refl, sym, ◌⊎◌, inl, inr, Bool, true, false, none, some, List, [], ◌∷◌,
  arith, Bool-cases, Result-cases, any, filter, length, leb, All, All-filter_self, ok,
}
use zen_ma2_agent.Prelude.Dict.{insert, contains, length-insert_le, length-insert_old}
use zen_ma2_agent.Prelude.Sort.{IsOrder, min_by, min_by-All, min_by-least}
use zen_ma2_agent.Prelude.Text.{text_eq, text-IsOrder}
use zen_ma2_agent.Json.{ℤ, pos, negsuc}
use zen_ma2_agent.Workers.{
  RegisteredWorker, Registry, register, register_all, is_usable, values, remote_ai_available,
  int_leb, key_leb, route,
}

int_leb_total : (a b : ℤ) → (int_leb a b ≡ true) ⊎ (int_leb b a ≡ true)
int_leb_total (pos a) (pos b) = ground arith
int_leb_total (pos a) (negsuc b) = inr refl
int_leb_total (negsuc a) (pos b) = inl refl
int_leb_total (negsuc a) (negsuc b) = ground arith

int_leb_trans : (a b c : ℤ) → int_leb a b ≡ true → int_leb b c ≡ true → int_leb a c ≡ true
int_leb_trans (pos a) (pos b) (pos c) h k = ground arith
int_leb_trans (pos a) (pos b) (negsuc c) h k = cc
int_leb_trans (pos a) (negsuc b) c h k = cc
int_leb_trans (negsuc a) b (pos c) h k = refl
int_leb_trans (negsuc a) (pos b) (negsuc c) h k = cc
int_leb_trans (negsuc a) (negsuc b) (negsuc c) h k = ground arith

pub key-IsOrder : IsOrder key_leb
unfolding key_leb
key-IsOrder = record {
  total = λ v w.
      ground
        (arith, int_leb_total v.priority w.priority, text-IsOrder.total v.worker_id w.worker_id);
  trans = λ u v w h k. ground (
    arith,
    int_leb_total u.priority v.priority,
    int_leb_total v.priority w.priority,
    int_leb_total u.priority w.priority,
    int_leb_trans u.priority v.priority w.priority,
    int_leb_trans w.priority u.priority v.priority,
    int_leb_trans v.priority w.priority u.priority,
    text-IsOrder.trans u.worker_id v.worker_id w.worker_id,
  );
}

register_bound :
    (w : RegisteredWorker) (ws out : Registry)
    → length ws ≤ 32
    → register w ws ≡ ok out
    → length out ≤ 32
unfolding register
register_bound w ws out b h = elim (Bool-cases (contains w.worker_id ws)) [
  | inl old ↦
      let same : insert w.worker_id w ws ≡ out = cc (rw (old, register) at h) in
      rw (sym same) (rw (length-insert_old w.worker_id w ws old) b)
  | inr fresh ↦ elim (Bool-cases (leb 32 (length ws))) [
    | inl full ↦ absurd (cc (rw (fresh, full, register) at h))
    | inr room ↦
        let same : insert w.worker_id w ws ≡ out = cc (rw (fresh, room, register) at h) in
        rw (sym same) (ground (arith, length-insert_le w.worker_id w ws))
  ]
]

-- Registrations that all succeed take a registry of at most 32 workers to one of at most 32 workers.
pub register_all_bound :
    (rest : List RegisteredWorker) (ws out : Registry)
    → length ws ≤ 32
    → register_all rest ws ≡ ok out
    → length out ≤ 32
unfolding register_all
register_all_bound [] ws out b h = let same : ws ≡ out = cc h in rw (sym same) b
register_all_bound (w ∷ rest) ws out b h = elim (Result-cases (register w ws)) [
  | inr (e, bad) ↦ absurd (cc (rw (bad, register_all) at h))
  | inl (mid, good) ↦
      register_all_bound rest mid out (register_bound w ws mid b good)
        (rw (good, register_all) at h)
]

any-filter :
    (p : RegisteredWorker → Bool) (xs : List RegisteredWorker)
    → any p xs ≡ elim (filter p xs) [ [] ↦ false | _ ∷ _ ↦ true ]
any-filter p [] = refl
any-filter p (x ∷ xs) = elim (Bool-cases (p x)) [
  | inl good ↦ rw good
  | inr other ↦ rw other (any-filter p xs)
]

List-cases :
    (l : List RegisteredWorker)
    → (l ≡ []) ⊎ ((x : RegisteredWorker) × (xs : List RegisteredWorker) × (l ≡ x ∷ xs))
List-cases [] = inl refl
List-cases (x ∷ xs) = inr (x, xs, refl)

-- Every element of a list is in it.
All-Memᴰ : (ws : List RegisteredWorker) → All (λ w. Memᴰ w ws) ws
All-Memᴰ [] = tt
All-Memᴰ (w ∷ ws) = (Memᴰ.head refl, All-map (λ v. Memᴰ v ws) (λ v m. Memᴰ.tail m) ws (All-Memᴰ ws))

-- The route takes a usable worker of the registry that comes no later, by priority and identifier, than any
-- usable worker of it, and reports that remote AI is available; without one it takes none and reports so.
pub route_lem :
    (ws : Registry)
    → let out = route ws in
      (out.remote_ai_available ≡ remote_ai_available ws)
      × (((filter is_usable (values ws) ≡ []) × (out.selected_worker_id ≡ none))
          ⊎ ((best : RegisteredWorker) × (out.selected_worker_id ≡ some best.worker_id)
              × Memᴰ best (values ws)
              × (is_usable best ≡ true)
              × All (λ w. key_leb best w ≡ true) (filter is_usable (values ws))))
unfolding route remote_ai_available
route_lem ws = elim (List-cases (filter is_usable (values ws))) [
  | inl none_usable ↦ (
    rw (any-filter is_usable (values ws), none_usable, route),
    inl (none_usable, rw (none_usable, route)),
  )
  | inr (w, rest, usable) ↦
      let (good, rest_good) = rw usable at (All-filter_self is_usable (values ws)) in
      let (here, rest_here) =
        rw usable at
          (All-filter (λ x. Memᴰ x (values ws)) is_usable (values ws) (All-Memᴰ (values ws))) in
      let (first, least) = min_by-least key-IsOrder w rest in
      (
        rw (any-filter is_usable (values ws), usable, route),
        inr (
          min_by key_leb w rest,
          rw (usable, route),
          min_by-All key_leb (λ x. Memᴰ x (values ws)) w rest here rest_here,
          min_by-All key_leb (λ x. is_usable x ≡ true) w rest good rest_good,
          rw usable (first, least),
        ),
      )
]
