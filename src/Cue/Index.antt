-- ===== src/Cue/Index.antt =====
-- The numbering of the exported cues in zen_ma2_agent/cue_content_verifier.py: a number stands for the only
-- cue that has it.
use Prim.Native.Nat.{ℕ}
use mathlib.Core.Path.{subst}
use zen_ma2_agent.Prelude.{
  ◌≡◌, refl, sym, ◌∙◌, ap, inl, inr, Bool, true, false, ◌||◌, Option, none, some, List, [], ◌∷◌,
  ◌++◌, if◌then◌else◌, append_assoc, append-nil, Bool-cases, Result-cases, some_inj, ok, raise,
  ok_inj,
}
use zen_ma2_agent.Prelude.Eq.{◌==◌, nat_eq, member, ==_true, ==_false, ==_self}
use zen_ma2_agent.Prelude.Dict.{lookup, lookup-insert_self, lookup-insert_ne}
use zen_ma2_agent.Json.{Value, dict, Fields, get}
use zen_ma2_agent.Cue.Rows.{Reading, cue_number, CueIndex, add, index_cue, index_cues}

module _ (r : Reading) where
  -- The exported cues with a number, in their order.
  unfoldable pub numbered_as : ℕ → List Value → List Fields
  unfolding cue_number
  numbered_as n [] = []
  numbered_as n (dict cue ∷ vs) =
      let rest = numbered_as n vs in
      elim (cue_number r (get "number" cue)) [
        | raise e ↦ rest
        | ok id ↦ elim id [ none ↦ rest | some m ↦ if m == n then cue ∷ rest else rest ]
      ]
  numbered_as n (_ ∷ vs) = numbered_as n vs

-- What an index knows of a number whose cues so far are the list.
abbrev Tracks : ℕ → CueIndex → List Fields → Type 0
Tracks n i [] = (lookup n i.numbered ≡ none) × (member n i.duplicates ≡ false)
Tracks n i (c ∷ []) = (lookup n i.numbered ≡ some c) × (member n i.duplicates ≡ false)
Tracks n i (c ∷ d ∷ cs) = (lookup n i.numbered ≡ some c) × (member n i.duplicates ≡ true)

or_assoc : (a b c : Bool) → (a || (b || c)) ≡ ((a || b) || c)
or_assoc true b c = refl
or_assoc false b c = refl

or_false : (a : Bool) → (a || false) ≡ a
or_false true = refl
or_false false = refl

or_true : (a : Bool) → (a || true) ≡ true
or_true true = refl
or_true false = refl

member-append_one : (n m : ℕ) (ns : List ℕ) → member n (ns ++ m ∷ []) ≡ (member n ns || (m == n))
member-append_one n m [] = or_false (m == n)
member-append_one n m (x ∷ ns) =
    ap (λ b. (x == n) || b) (member-append_one n m ns) ∙ or_assoc (x == n) (member n ns) (m == n)

member-add : (n m : ℕ) (ns : List ℕ) → member n (add m ns) ≡ (member n ns || (m == n))
member-add n m ns = elim (Bool-cases (member m ns)) [
  | inr new ↦ rw new (member-append_one n m ns)
  | inl old ↦ rw old (elim (Bool-cases (m == n)) [
    | inl same ↦
        let there : member n ns ≡ true = ap (λ x. member x ns) (sym (==_true m n same)) ∙ old in
        rw there
    | inr other ↦ rw other (sym (or_false (member n ns)))
  ])
]

-- Only the entry of the number counts.
Tracks-same :
    (n : ℕ) (i j : CueIndex) (cs : List Fields)
    → lookup n j.numbered ≡ lookup n i.numbered
    → member n j.duplicates ≡ member n i.duplicates
    → Tracks n i cs
    → Tracks n j cs
Tracks-same n i j [] e f h = (e ∙ h.0, f ∙ h.1)
Tracks-same n i j (c ∷ []) e f h = (e ∙ h.0, f ∙ h.1)
Tracks-same n i j (c ∷ d ∷ cs) e f h = (e ∙ h.0, f ∙ h.1)

same_cue :
    (n : ℕ) (cue : Fields) (i : CueIndex) (cs : List Fields)
    → Tracks n i cs
    → Tracks n (index_cue (some n) cue i) (cs ++ cue ∷ [])
unfolding index_cue
same_cue n cue i [] (h, k) = rw (h, index_cue) (lookup-insert_self n cue i.numbered, k)
same_cue n cue i (c ∷ []) (h, k) =
    rw (h, index_cue)
      (h, member-add n n i.duplicates ∙ rw (==_self n) (or_true (member n i.duplicates)))
same_cue n cue i (c ∷ d ∷ cs) (h, k) = rw (h, index_cue) (h, member-add n n i.duplicates ∙ rw k)

other_cue :
    (n m : ℕ) (cue : Fields) (i : CueIndex) (cs : List Fields)
    → (m == n) ≡ false
    → Tracks n i cs
    → Tracks n (index_cue (some m) cue i) cs
unfolding index_cue
other_cue n m cue i cs e h =
    Tracks-same n i (index_cue (some m) cue i) cs (numbers (lookup m i.numbered) refl)
      (repeats (lookup m i.numbered) refl) h
  where
    numbers :
        (o : Option Fields)
        → lookup m i.numbered ≡ o
        → lookup n (index_cue (some m) cue i).numbered ≡ lookup n i.numbered
    numbers none f = rw (f, index_cue) (lookup-insert_ne m n cue i.numbered (==_false m n e))
    numbers (some c) f = rw (f, index_cue)

    repeats :
        (o : Option Fields)
        → lookup m i.numbered ≡ o
        → member n (index_cue (some m) cue i).duplicates ≡ member n i.duplicates
    repeats none f = rw (f, index_cue)
    repeats (some c) f =
        rw (f, index_cue) (member-add n m i.duplicates ∙ rw e (or_false (member n i.duplicates)))

module _ (r : Reading) where
  index_cues-Tracks :
      (n : ℕ) (vs : List Value) (i j : CueIndex) (cs : List Fields)
      → Tracks n i cs
      → index_cues r vs i ≡ ok j
      → Tracks n j (cs ++ numbered_as r n vs)
  unfolding index_cues numbered_as
  index_cues-Tracks n [] i j cs t h = rw (append-nil cs, sym (ok_inj h)) t
  index_cues-Tracks n (dict cue ∷ vs) i j cs t h =
      elim (Result-cases (cue_number r (get "number" cue))) [
        | inr (e, bad) ↦ absurd (cc (rw (bad, index_cues) at h))
        | inl (none, good) ↦
            rw (good, numbered_as)
              (index_cues-Tracks n vs (index_cue none cue i) j cs
                (unfold index_cue in Tracks-same n i (index_cue none cue i) cs refl refl t)
                (rw (good, index_cues) at h))
        | inl (some m, good) ↦
            rw (good, numbered_as)
              (elim (Bool-cases (m == n)) [
                | inr other ↦ rw other (
                    index_cues-Tracks n vs (index_cue (some m) cue i) j cs
                      (other_cue n m cue i cs other t) (rw (good, index_cues) at h))
                | inl same ↦ rw same (
                    subst (Tracks n j) (append_assoc cs (cue ∷ []) (numbered_as r n vs)) (
                      index_cues-Tracks n vs (index_cue (some m) cue i) j (cs ++ cue ∷ [])
                        (subst (λ k. Tracks n (index_cue (some k) cue i) (cs ++ cue ∷ []))
                          (sym (==_true m n same)) (same_cue n cue i cs t))
                        (rw (good, index_cues) at h)))
              ])
      ]
  index_cues-Tracks n (_ ∷ vs) i j cs t h = index_cues-Tracks n vs i j cs t h

  -- A number that is found and did not come again is that of one exported cue only.
  pub index_cues-only :
      (n : ℕ) (vs : List Value) (j : CueIndex) (cue : Fields)
      → index_cues r vs (record { numbered = []; duplicates = []; unnumbered = 0 }) ≡ ok j
      → member n j.duplicates ≡ false
      → lookup n j.numbered ≡ some cue
      → numbered_as r n vs ≡ cue ∷ []
  unfolding lookup
  index_cues-only n vs j cue h once found = cases (numbered_as r n vs) (
      index_cues-Tracks n vs (record { numbered = []; duplicates = []; unnumbered = 0 }) j []
        (refl, refl) h)
    where
      cases : (cs : List Fields) → Tracks n j cs → cs ≡ cue ∷ []
      cases [] t = absurd (cc (t.0, found))
      cases (c ∷ []) t = ap (λ x. x ∷ []) (some_inj (sym t.0 ∙ found))
      cases (c ∷ d ∷ cs) t = absurd (cc (t.1, once))
