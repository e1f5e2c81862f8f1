-- ===== src/Cue/Sound.antt =====
-- What a verified report of zen_ma2_agent/cue_content_verifier.py shows of the rows that were read back.
use Prim.Native.Nat.{ℕ, suc}
use zen_ma2_agent.Prelude.{
  ◌≡◌, refl, ◌∙◌, ap, ◌≢◌, inl, inr, true, false, not, Option, none, some, List, [], ◌∷◌, all, All,
  is_some, Bool-cases, Option-cases, and-true, ok, bind-ok, ok_inj,
}
use zen_ma2_agent.Prelude.Eq.{nat_eq, member}
use zen_ma2_agent.Prelude.Dict.{Dict, lookup}
use zen_ma2_agent.Json.{Value, dict, Fields, get}
use zen_ma2_agent.Cue.Rows.{
  Reading, list_at, positive_at, flatten_rows, index_rows, CueIndex, index_cues,
}
use zen_ma2_agent.Cue.Index.{numbered_as, index_cues-only}
use zen_ma2_agent.Cue.Verify.{
  Evidence, CueReport, CueResult, members_of, Check, level, preset, effect, unsupported,
  reason_if_missing, check_of, missing_of, verify_members, group_of, verify_actions, verify_cue,
  verify_cues, is_verified, verify_cue_content,
}
use zen_ma2_agent.Cue.Fixtures.{Shown, missing_of-nothing}

module _ (r : Reading) where
  -- What a verified action shows: its group has members, and each has a row that shows what is asked.
  abbrev pub ActionShown : Dict ℕ (List Value) → List Fields → Value → Type 0
  ActionShown groups rows v =
      (action : Fields) × (group : ℕ) × (c : Check) × (v ≡ dict action)
      × (group_of action ≡ some group)
      × (check_of action ≡ ok c)
      × (c ≢ unsupported)
      × (members_of (lookup group groups) ≢ [])
      × All (Shown r c rows) (members_of (lookup group groups))

  no_reason :
      (c : Check) (missing : List ℕ)
      → reason_if_missing c missing ≡ none
      → (c ≢ unsupported) × (missing ≡ [])
  no_reason unsupported missing h = absurd (cc h)
  no_reason (level z) [] h = (λ e. cc e, refl)
  no_reason (level z) (x ∷ xs) h = absurd (cc h)
  no_reason (preset s) [] h = (λ e. cc e, refl)
  no_reason (preset s) (x ∷ xs) h = absurd (cc h)
  no_reason (effect n) [] h = (λ e. cc e, refl)
  no_reason (effect n) (x ∷ xs) h = absurd (cc h)

  verify_members-Shown :
      (d : Dict ℕ (List Fields)) (rows : List Fields) (index group : ℕ) (action : Fields)
      (members : List ℕ) (e : Evidence)
      → index_rows r rows [] ≡ ok d
      → verify_members r d index group action members ≡ ok e
      → e.reason ≡ none
      → (c : Check) × (check_of action ≡ ok c)
        × (c ≢ unsupported)
        × (members ≢ [])
        × All (Shown r c rows) members
  unfolding verify_members
  verify_members-Shown d rows index group action [] e indexed h fine =
      absurd (cc (ap (λ x. x.reason) (ok_inj h), fine))
  verify_members-Shown d rows index group action (m ∷ members) e indexed h fine =
      let (c, checked, h1) = bind-ok (check_of action) _ e h in
      let (missing, found, h2) = bind-ok (missing_of r c d (m ∷ members)) _ e h1 in
      let (known, nothing) = no_reason c missing (ap (λ x. x.reason) (ok_inj h2) ∙ fine) in
      (
        c,
        checked,
        known,
        (λ e. cc e),
        missing_of-nothing r c rows d (m ∷ members) indexed (found ∙ ap ok nothing),
      )

  has_none : {A : Type 0} (o : Option A) → not (is_some o) ≡ true → o ≡ none
  has_none none h = refl
  has_none (some a) h = absurd (cc h)

  verify_actions-shown :
      (groups : Dict ℕ (List Value)) (d : Dict ℕ (List Fields)) (rows : List Fields) (index : ℕ)
      (actions : List Value) (es : List Evidence)
      → index_rows r rows [] ≡ ok d
      → verify_actions r groups d index actions ≡ ok es
      → all (λ e. not (is_some e.reason)) es ≡ true
      → All (ActionShown groups rows) actions
  unfolding verify_actions
  verify_actions-shown groups d rows index [] es indexed h fine = tt
  verify_actions-shown groups d rows index (dict action ∷ actions) es indexed h fine =
      elim (Option-cases (group_of action)) [
        | inl missing ↦ absurd (cc (rw (missing, verify_actions) at h))
        | inr (group, found) ↦
            let members = members_of (lookup group groups) in
            let (e, one, h1) =
              bind-ok (verify_members r d index group action members) _ es
                (rw (found, verify_actions) at h) in
            let (rest, more, h2) =
              bind-ok (verify_actions r groups d (suc index) actions) _ es h1 in
            let (good, others) =
              and-true (not (is_some e.reason)) (all (λ x. not (is_some x.reason)) rest)
                (ap (all (λ x. not (is_some x.reason))) (ok_inj h2) ∙ fine) in
            let (c, checked, known, filled, shown) =
              verify_members-Shown d rows index group action members e indexed one
                (has_none e.reason good) in
            (
              (action, group, c, refl, found, checked, known, filled, shown),
              verify_actions-shown groups d rows (suc index) actions rest indexed more others,
            )
      ]
  verify_actions-shown groups d rows index (_ ∷ actions) es indexed h fine = absurd (cc h)

  -- What a verified cue shows: it stands for the only exported cue of its number, whose rows show every action.
  abbrev pub CueShown : (groups : Dict ℕ (List Value)) → (exported : List Value) → Value → Type 0
  CueShown groups exported v =
      (cue : Fields) × (number : ℕ) × (actual : Fields) × (actions : List Value) × (v ≡ dict cue)
      × (positive_at (get "cue_number" cue) ≡ some number)
      × (numbered_as r number exported ≡ actual ∷ [])
      × (list_at (get "actions" cue) ≡ some actions)
      × All (ActionShown groups (flatten_rows actual)) actions

  module _ (groups : Dict ℕ (List Value)) (exported : List Value) (index : CueIndex)
      (indexed : index_cues r exported (record { numbered = []; duplicates = []; unnumbered = 0 })
        ≡ ok index) where
    -- The comparison of a cue whose number was found once.
    found_cue :
        (cue : Fields) (number : ℕ) (actual : Fields) (result : CueResult)
        → positive_at (get "cue_number" cue) ≡ some number
        → member number index.duplicates ≡ false
        → lookup number index.numbered ≡ some actual
        → verify_cue r groups index (dict cue) ≡ ok result
        → is_verified result ≡ true
        → CueShown groups exported (dict cue)
    unfolding verify_cue
    found_cue cue number actual result numbered once found h fine =
        let compared =
          rw (found, verify_cue) at (rw (once, verify_cue) at (rw (numbered, verify_cue) at h)) in
        let (d, rows, h1) = bind-ok (index_rows r (flatten_rows actual) []) _ result compared in
        elim (Option-cases (list_at (get "actions" cue))) [
          | inl missing ↦ absurd (cc (rw missing at h1))
          | inr (actions, listed) ↦
              let (es, verified, h2) =
                bind-ok (verify_actions r groups d 1 actions) _ result (rw listed at h1) in
              (
                cue,
                number,
                actual,
                actions,
                refl,
                numbered,
                index_cues-only r number exported index actual indexed once found,
                listed,
                verify_actions-shown groups d (flatten_rows actual) 1 actions es rows verified
                    (ap is_verified (ok_inj h2) ∙ fine),
              )
        ]

    verify_cue-shown :
        (v : Value) (result : CueResult)
        → verify_cue r groups index v ≡ ok result
        → is_verified result ≡ true
        → CueShown groups exported v
    unfolding verify_cue
    verify_cue-shown (dict cue) result h fine =
        elim (Option-cases (positive_at (get "cue_number" cue))) [
          | inl missing ↦ absurd (cc (rw (missing, verify_cue) at h))
          | inr (number, numbered) ↦ elim (Bool-cases (member number index.duplicates)) [
            | inl again ↦ absurd (
                cc (
                  ap is_verified
                    (ok_inj (rw (again, verify_cue) at (rw (numbered, verify_cue) at h)))
                  ∙ fine))
            | inr once ↦ elim (Option-cases (lookup number index.numbered)) [
              | inl absent ↦ absurd (
                  cc (
                    ap is_verified (
                      ok_inj (
                        rw (absent, verify_cue) at
                          (rw (once, verify_cue) at (rw (numbered, verify_cue) at h))))
                    ∙ fine))
              | inr (actual, found) ↦ found_cue cue number actual result numbered once found h fine
            ]
          ]
        ]
    verify_cue-shown _ result h fine = absurd (cc h)

    verify_cues-shown :
        (cues : List Value) (results : List CueResult)
        → verify_cues r groups index cues ≡ ok results
        → all is_verified results ≡ true
        → All (CueShown groups exported) cues
    unfolding verify_cues
    verify_cues-shown [] results h fine = tt
    verify_cues-shown (cue ∷ cues) results h fine =
        let (result, one, h1) = bind-ok (verify_cue r groups index cue) _ results h in
        let (rest, more, h2) = bind-ok (verify_cues r groups index cues) _ results h1 in
        let (good, others) =
          and-true (is_verified result) (all is_verified rest)
            (ap (all is_verified) (ok_inj h2) ∙ fine) in
        (verify_cue-shown cue result one good, verify_cues-shown cues rest more others)

  -- When the report says that the content is verified, each cue of the plan has a number that exactly one
  -- exported cue has, and for each of its actions, which is of a known kind, the group has members, and for
  -- each member a row of that exported cue is one of the member and shows the level, the preset or the effect.
  pub verify_cue_content-shown :
      (show_plan discovery : Fields) (groups : Dict ℕ (List Value)) (report : CueReport)
      → verify_cue_content r show_plan discovery groups ≡ ok report
      → report.verified ≡ true
      → (cues : List Value) × (exported : List Value) × (list_at (get "cues" show_plan) ≡ some cues)
        × (list_at (get "cues" discovery) ≡ some exported)
        × (cues ≢ [])
        × All (CueShown groups exported) cues
  unfolding verify_cue_content
  verify_cue_content-shown show_plan discovery groups report h fine =
      elim (Option-cases (list_at (get "cues" show_plan))) [
        | inl missing ↦ absurd (cc (rw (missing, verify_cue_content) at h))
        | inr ([], none_planned) ↦ absurd (cc (rw (none_planned, verify_cue_content) at h))
        | inr (cue ∷ cues, planned) ↦ elim (Option-cases (list_at (get "cues" discovery))) [
          | inl missing ↦ absurd (cc (rw missing at (rw (planned, verify_cue_content) at h)))
          | inr (exported, listed) ↦
              let compared = rw listed at (rw (planned, verify_cue_content) at h) in
              let (index, indexed, h1) =
                bind-ok
                  (index_cues r exported
                    (record { numbered = []; duplicates = []; unnumbered = 0 }))
                  _ report compared in
              let (results, verified, h2) =
                bind-ok (verify_cues r groups index (cue ∷ cues)) _ report h1 in
              (
                cue ∷ cues,
                exported,
                planned,
                listed,
                (λ e. cc e),
                verify_cues-shown groups exported index indexed (cue ∷ cues) results verified
                    (ap (λ x. x.verified) (ok_inj h2) ∙ fine),
              )
        ]
      ]
