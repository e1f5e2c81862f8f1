-- ===== src/Llm/Fallback.antt =====
-- What `complete_with_diagnostics` of zen_ma2_agent/llm/router.py answers: the first candidate that does.
use Prim.Native.Nat.{ℕ, suc, ◌≤◌}
use native.Mathlib.Omega.{arith}
use zen_ma2_agent.Prelude.{
  ◌≡◌, refl, sym, ◌∙◌, ap, ◌≢◌, ◌⊎◌, inl, inr, Bool, true, false, List, [], ◌∷◌, ◌++◌, map, length,
  length-take, append_assoc, append-nil, Bool-cases, Result-cases, Result, ok, raise,
}
use zen_ma2_agent.Prelude.Eq.{◌==◌}
use zen_ma2_agent.Prelude.Text.{Text, codes, text_eq}
use zen_ma2_agent.Llm.Slots.{Builtins, ProviderSlot}
use zen_ma2_agent.Llm.Router.{ProviderRouter, eligible, order_by_mode, candidates}
use zen_ma2_agent.Llm.Complete.{
  Failure, unavailable, other_exception, Prompt, Adapter, Attempt, not_eligible, exhausted,
  passed_on, ask, failed_row, success_row, Answer, try_in_order, complete_with_diagnostics,
}

-- What a row says: its slot, and whether the slot answered.
abbrev pub brief : Attempt → ℕ × Bool
brief row = (row.slot_number, row.transport_success)

abbrev pub no_answer : ProviderSlot → ℕ × Bool
no_answer slot = (slot.number, false)

map-append : {A B : Type 0} (f : A → B) (xs ys : List A) → map f (xs ++ ys) ≡ map f xs ++ map f ys
map-append f [] ys = refl
map-append f (x ∷ xs) ys = ap (◌∷◌ (f x)) (map-append f xs ys)

module _ {W : Type 0} (py : Builtins) (a : Adapter W) (q : Prompt) where
  -- Every slot of a list is asked, in order, and says that it is not available.
  pub data Refused : List ProviderSlot → W → W → Type 0 where
    nobody : (w : W) → Refused [] w w
    refused :
        (slot : ProviderSlot) (slots : List ProviderSlot) (message : Text) (w w' w'' : W)
        → ask py a q slot w ≡ (raise (unavailable message), w')
        → Refused slots w' w''
        → Refused (slot ∷ slots) w w''

  -- The slots before `slot` are asked and refuse, and then `slot` is asked, last of all.
  pub record Reached (slots : List ProviderSlot) (w : W) (slot : ProviderSlot)
      (r : Result Failure Text) (end : W) : Type 0 where
    pub before : List ProviderSlot
    pub later : List ProviderSlot
    pub then_world : W
    pub position : slots ≡ before ++ slot ∷ later
    pub all_refused : Refused before w then_world
    pub asked : ask py a q slot then_world ≡ (r, end)

  -- `acc` are the rows of what was asked earlier.
  abbrev pub Fallback : List ProviderSlot → List Attempt → W → Answer py a q → Type 0
  Fallback slots acc w out = elim out.0 [
    | ok (content, slot, rows) ↦
        (r : Reached slots w slot (ok content) out.1) × (map brief rows
          ≡ map brief acc ++ (map no_answer r.before ++ (slot.number, true) ∷ []))
    | raise e ↦ elim e [
      | not_eligible ↦ (slots ≡ []) × (out.1 ≡ w)
      | exhausted failures rows ↦
          Refused slots w out.1 × (map brief rows ≡ map brief acc ++ map no_answer slots)
      | passed_on name ↦
          (slot : ProviderSlot) × Reached slots w slot (raise (other_exception name)) out.1
    ]
  ]

  failed_row-brief :
      (slot : ProviderSlot) (order : ℕ) (message : Text)
      → brief (failed_row py a q slot order message) ≡ no_answer slot
  unfolding failed_row
  failed_row-brief slot order message = refl

  success_row-brief :
      (slot : ProviderSlot) (order : ℕ)
      → brief (success_row py a q slot order) ≡ (slot.number, true)
  unfolding success_row
  success_row-brief slot order = refl

  more_rows :
      (acc : List Attempt) (row : Attempt) (rest : List (ℕ × Bool))
      → map brief (acc ++ row ∷ []) ++ rest ≡ map brief acc ++ brief row ∷ rest
  more_rows acc row rest =
      rw (map-append brief acc (row ∷ [])) (append_assoc (map brief acc) (brief row ∷ []) rest)

  further :
      (slot : ProviderSlot) (slots : List ProviderSlot) (message : Text) (w w' : W)
      (last : ProviderSlot) (r : Result Failure Text) (end : W)
      → ask py a q slot w ≡ (raise (unavailable message), w')
      → Reached slots w' last r end
      → Reached (slot ∷ slots) w last r end
  further slot slots message w w' last r end refuses x = record {
    before = slot ∷ x.before;
    later = x.later;
    then_world = x.then_world;
    position = ap (◌∷◌ slot) x.position;
    all_refused = refused slot x.before message w w' x.then_world refuses x.all_refused;
    asked = x.asked;
  }

  extend :
      (slot : ProviderSlot) (slots : List ProviderSlot) (order : ℕ) (message : Text)
      (acc : List Attempt) (w w' : W) (out : Answer py a q)
      → ask py a q slot w ≡ (raise (unavailable message), w')
      → out.0 ≢ raise not_eligible
      → Fallback slots (acc ++ failed_row py a q slot order message ∷ []) w' out
      → Fallback (slot ∷ slots) acc w out
  unfolding further
  extend slot slots order message acc w w' (ok (content, last, rows), end) refuses new (x, h) = (
    further slot slots message w w' last (ok content) end refuses x,
    h
        ∙ more_rows acc (failed_row py a q slot order message)
            (map no_answer x.before ++ (last.number, true) ∷ [])
        ∙ rw (failed_row-brief slot order message),
  )
  extend slot slots order message acc w w' (raise not_eligible, end) refuses new h =
      absurd (new refl)
  extend slot slots order message acc w w' (raise (exhausted failures rows), end) refuses new
        (x, h) =
      (
        refused slot slots message w w' end refuses x,
        h
            ∙ more_rows acc (failed_row py a q slot order message) (map no_answer slots)
            ∙ rw (failed_row-brief slot order message),
      )
  extend slot slots order message acc w w' (raise (passed_on name), end) refuses new (last, x) =
      (last, further slot slots message w w' last (raise (other_exception name)) end refuses x)

  -- Only the first candidate is left when the mode stops after one.
  abbrev Stops : Text → List ProviderSlot → Type 0
  Stops mode slots = (mode == codes "PRIMARY_ONLY" ≡ false) ⊎ (length slots ≤ 1)

  try_in_order-eligible :
      (mode : Text) (slots : List ProviderSlot) (order : ℕ) (failures : List (ℕ × Text))
      (acc : List Attempt) (w : W)
      → (try_in_order py a q mode slots order failures acc w).0 ≢ raise not_eligible
  unfolding try_in_order
  try_in_order-eligible mode [] order failures acc w = λ h. cc h
  try_in_order-eligible mode (slot ∷ slots) order failures acc w =
      elim (Result-cases (ask py a q slot w).0) [
        | inl (content, e) ↦ rw (e, try_in_order) (λ h. cc h)
        | inr (other_exception name, e) ↦ rw (e, try_in_order) (λ h. cc h)
        | inr (unavailable message, e) ↦
            rw (e, try_in_order)
              (elim (Bool-cases (mode == codes "PRIMARY_ONLY")) [
                | inl stop ↦ rw stop (λ h. cc h)
                | inr on ↦ rw on (
                    try_in_order-eligible mode slots (suc order)
                      (failures ++ (slot.number, message) ∷ [])
                      (acc ++ failed_row py a q slot order message ∷ []) (ask py a q slot w).1)
              ])
      ]

  answered :
      (slot : ProviderSlot) (w : W) (r : Result Failure Text)
      → (ask py a q slot w).0 ≡ r
      → ask py a q slot w ≡ (r, (ask py a q slot w).1)
  answered slot w r e = ap (λ x. (x, (ask py a q slot w).1)) e

  first :
      (slot : ProviderSlot) (slots : List ProviderSlot) (w : W) (r : Result Failure Text)
      → (ask py a q slot w).0 ≡ r
      → Reached (slot ∷ slots) w slot r (ask py a q slot w).1
  first slot slots w r e = record {
    before = [];
    later = slots;
    then_world = w;
    position = refl;
    all_refused = nobody w;
    asked = answered slot w r e;
  }

  -- The mode stops after a slot that was the last one anyway.
  stop_here :
      (slot : ProviderSlot) (slots : List ProviderSlot) (order : ℕ) (message : Text)
      (failures : List (ℕ × Text)) (acc : List Attempt) (w : W)
      → (ask py a q slot w).0 ≡ raise (unavailable message)
      → length (slot ∷ slots) ≤ 1
      → Fallback (slot ∷ slots) acc w (
        raise (exhausted failures (acc ++ failed_row py a q slot order message ∷ [])),
        (ask py a q slot w).1,
      )
  stop_here slot [] order message failures acc w e one =
      let end = (ask py a q slot w).1 in
      (
        refused slot [] message w end end (answered slot w (raise (unavailable message)) e)
            (nobody end),
        map-append brief acc (failed_row py a q slot order message ∷ [])
            ∙ rw (failed_row-brief slot order message),
      )
  stop_here slot (next ∷ slots) order message failures acc w e one = absurd (omega (arith, one))

  try_in_order-Fallback :
      (mode : Text) (slots : List ProviderSlot) (order : ℕ) (failures : List (ℕ × Text))
      (acc : List Attempt) (w : W)
      → Stops mode slots
      → Fallback slots acc w (try_in_order py a q mode slots order failures acc w)
  unfolding try_in_order first
  try_in_order-Fallback mode [] order failures acc w stops =
      (nobody w, sym (append-nil (map brief acc)))
  try_in_order-Fallback mode (slot ∷ slots) order failures acc w stops =
      elim (Result-cases (ask py a q slot w).0) [
        | inl (content, e) ↦
            rw (e, try_in_order)
              (
                first slot slots w (ok content) e,
                map-append brief acc (success_row py a q slot order ∷ [])
                    ∙ rw (success_row-brief slot order),
              )
        | inr (other_exception name, e) ↦
            rw (e, try_in_order) (slot, first slot slots w (raise (other_exception name)) e)
        | inr (unavailable message, e) ↦
            rw (e, try_in_order)
              (elim (Bool-cases (mode == codes "PRIMARY_ONLY")) [
                | inl stop ↦ rw stop (
                    stop_here slot slots order message (failures ++ (slot.number, message) ∷ []) acc
                      w e (elim stops [ inl on ↦ absurd (cc (stop, on)) | inr one ↦ one ]))
                | inr on ↦
                    let failures' = failures ++ (slot.number, message) ∷ [] in
                    let acc' = acc ++ failed_row py a q slot order message ∷ [] in
                    let w' = (ask py a q slot w).1 in
                    rw on (
                      extend slot slots order message acc w w'
                        (try_in_order py a q mode slots (suc order) failures' acc' w')
                        (answered slot w (raise (unavailable message)) e)
                        (try_in_order-eligible mode slots (suc order) failures' acc' w')
                        (try_in_order-Fallback mode slots (suc order) failures' acc' w' (inl on)))
              ])
      ]

  candidates-Stops : (r : ProviderRouter) → Stops r.mode (candidates py q.role r)
  unfolding candidates order_by_mode
  candidates-Stops r = elim (Bool-cases (r.mode == codes "PRIMARY_ONLY")) [
    | inr on ↦ inl on
    | inl stop ↦ inr (rw stop (omega (arith, length-take 1 (eligible py q.role r))))
  ]

  -- Every answer of the ordered fallback. A text comes from the first candidate that gives one, after all
  -- those before it were asked, in order and once each, and refused; the rows are one failure for each of
  -- them and one success. Without a text, all candidates were asked in order and refused, and the rows say so
  -- for each, also in the mode that stops after one; or there was none, and nothing was asked; or a candidate
  -- that was reached like this raised another exception, which is passed on.
  pub complete_with_diagnostics-Fallback :
      (r : ProviderRouter) (w : W)
      → Fallback (candidates py q.role r) [] w (complete_with_diagnostics py a q r w)
  unfolding complete_with_diagnostics
  complete_with_diagnostics-Fallback r w = cases (candidates py q.role r) (candidates-Stops r)
    where
      cases :
          (cs : List ProviderSlot)
          → Stops r.mode cs
          → Fallback cs [] w (elim cs [
            | [] ↦ (raise not_eligible, w)
            | slot ∷ slots ↦ try_in_order py a q r.mode (slot ∷ slots) 1 [] [] w
          ])
      cases [] stops = (refl, refl)
      cases (slot ∷ slots) stops = try_in_order-Fallback r.mode (slot ∷ slots) 1 [] [] w stops
