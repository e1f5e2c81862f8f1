-- ===== src/Cue/Fixtures.antt =====
-- What the rows of a fixture show, in zen_ma2_agent/cue_content_verifier.py.
use Prim.Native.Nat.{ℕ}
use zen_ma2_agent.Prelude.{
  ◌≡◌, refl, sym, ◌∙◌, ap, inl, inr, Bool, true, false, ◌&&◌, none, some, List, [], ◌∷◌, ◌++◌,
  if◌then◌else◌, any, filter, All, append_assoc, append-nil, Bool-cases, Result-cases, ok, raise,
  bind-ok, ok_inj,
}
use zen_ma2_agent.Prelude.Eq.{◌==◌, nat_eq, ==_true}
use zen_ma2_agent.Prelude.Dict.{Dict, insert, lookup-insert}
use zen_ma2_agent.Json.{Fields}
use zen_ma2_agent.Cue.Rows.{Reading, fixture_id, rows_at, index_rows}
use zen_ma2_agent.Cue.Verify.{Check, row_shows, any_shows, missing_of}

module _ (r : Reading) where
  -- The row is one of the fixture.
  unfoldable pub belongs : ℕ → Fields → Bool
  belongs fixture row = elim (fixture_id r row) [
    | raise e ↦ false
    | ok id ↦ elim id [ none ↦ false | some n ↦ n == fixture ]
  ]

  -- The row shows what is asked.
  unfoldable pub shows : Check → Fields → Bool
  shows c row = elim (row_shows r c row) [ raise e ↦ false | ok b ↦ b ]

  rows_at-insert :
      (f n : ℕ) (rows : List Fields) (d : Dict ℕ (List Fields))
      → rows_at f (insert n rows d) ≡ (if n == f then rows else rows_at f d)
  unfolding rows_at
  rows_at-insert f n rows d =
      rw (rows_at, lookup-insert n f rows d)
        (elim (Bool-cases (n == f)) [ inl same ↦ rw same | inr other ↦ rw other ])

  -- The rows of a fixture, in their order.
  index_rows-filter :
      (f : ℕ) (rows : List Fields) (d d' : Dict ℕ (List Fields))
      → index_rows r rows d ≡ ok d'
      → rows_at f d' ≡ rows_at f d ++ filter (belongs f) rows
  unfolding index_rows belongs
  index_rows-filter f [] d d' h = ap (rows_at f) (sym (ok_inj h)) ∙ sym (append-nil (rows_at f d))
  index_rows-filter f (row ∷ rows) d d' h = elim (Result-cases (fixture_id r row)) [
    | inr (e, bad) ↦ absurd (cc (rw (bad, index_rows) at h))
    | inl (none, good) ↦
        rw (good, belongs) (index_rows-filter f rows d d' (rw (good, index_rows) at h))
    | inl (some n, good) ↦
        index_rows-filter f rows (insert n (rows_at n d ++ row ∷ []) d) d'
          (rw (good, index_rows) at h)
        ∙ rw (rows_at-insert f n (rows_at n d ++ row ∷ []) d) (
            rw (good, belongs)
              (elim (Bool-cases (n == f)) [
                | inl same ↦ rw same (
                    rw (==_true n f same)
                      (append_assoc (rows_at f d) (row ∷ []) (filter (belongs f) rows)))
                | inr other ↦ rw other
              ]))
  ]

  any_shows-any :
      (c : Check) (rows : List Fields) (b : Bool)
      → any_shows r c rows ≡ ok b
      → any (shows c) rows ≡ b
  unfolding any_shows shows
  any_shows-any c [] b h = ok_inj h
  any_shows-any c (row ∷ rows) b h =
      let (here, one, h1) = bind-ok (row_shows r c row) _ b h in
      let (later, more, h2) = bind-ok (any_shows r c rows) _ b h1 in
      rw (one, shows) (rw (any_shows-any c rows later more) (ok_inj h2))

  any-filter :
      (p q : Fields → Bool) (rows : List Fields)
      → any q (filter p rows) ≡ any (λ row. p row && q row) rows
  any-filter p q [] = refl
  any-filter p q (row ∷ rows) = elim (Bool-cases (p row)) [
    | inl pass ↦ rw pass (rw (any-filter p q rows))
    | inr other ↦ rw other (any-filter p q rows)
  ]

  -- A row of the fixture shows what is asked.
  abbrev pub Shown : Check → List Fields → ℕ → Type 0
  Shown c rows fixture = any (λ row. belongs fixture row && shows c row) rows ≡ true

  pub missing_of-nothing :
      (c : Check) (rows : List Fields) (d : Dict ℕ (List Fields)) (members : List ℕ)
      → index_rows r rows [] ≡ ok d
      → missing_of r c d members ≡ ok []
      → All (Shown c rows) members
  unfolding missing_of
  missing_of-nothing c rows d [] indexed h = tt
  missing_of-nothing c rows d (f ∷ members) indexed h =
      let (shown, one, h1) = bind-ok (any_shows r c (rows_at f d)) _ [] h in
      let (rest, more, h2) = bind-ok (missing_of r c d members) _ [] h1 in
      let same : rows_at f d ≡ filter (belongs f) rows = index_rows-filter f rows [] d indexed in
      elim (Bool-cases shown) [
        | inr absent ↦ absurd (cc (rw absent at (ok_inj h2)))
        | inl found ↦ (
          sym (any-filter (belongs f) (shows c) rows)
              ∙ (ap (any (shows c)) (sym same) ∙ (any_shows-any c (rows_at f d) shown one ∙ found)),
          missing_of-nothing c rows d members indexed (more ∙ ap ok (rw found at (ok_inj h2))),
        )
      ]
