-- ===== src/Agent/Sent.antt =====
-- What an approved action of a plain kind sends to the console: `execute_approved_commands` of
-- runtime.py under `approve_action` of core.py.
use Prim.Native.String.{String}
use mathlib.Core.Path.{subst}
use text.Mathlib.Text.{starts_with}
use zen_ma2_agent.Prelude.{
  ◌≡◌, refl, sym, ◌∙◌, ap, ◌⊎◌, inl, inr, Bool, true, false, not, ◌&&◌, List, [], ◌∷◌, ◌++◌,
  append-nil, append_assoc, arith, Bool-cases, Option-cases, Result-cases, Result, ok, raise,
}
use zen_ma2_agent.Prelude.Eq.{◌==◌, string_eq, member, ==_true, ==_self}
use zen_ma2_agent.Prelude.Dict.{lookup}
use zen_ma2_agent.Workflow.{Intent, commands}
use zen_ma2_agent.Agent.{ActionRecord, Side, AgentCore}
use zen_ma2_agent.Agent.Approve.{
  Console, raised, M, ◌>>>=◌, or_message, guarded_kinds, special_kinds, verified_kinds, is_nil,
  approved_commands, send_all, execute_approved_commands, run_commands, execute_kind,
  refuse_reported, verify_kind, perform, gates, ensure_unchanged, mark_approved, settle, finish,
  run_action, approve_action,
}

-- The responses to commands that are sent one after another, all of which succeed.
abbrev pub Answers :
    (respond : List String → String → Result String String)
    → (sent commands responses : List String) → Type 0
Answers respond sent [] [] = Unit
Answers respond sent (c ∷ cs) (r ∷ rs) =
    (respond sent c ≡ ok r) × Answers respond (sent ++ c ∷ []) cs rs
Answers respond sent _ _ = ⊥

-- The loop sends every command, each is answered, and it returns those responses in order; or it stops at a
-- command that raises, with what that raised, after every command before it was answered, and sends nothing
-- further. Nothing else is written.
pub send_all_cases :
    (respond : List String → String → Result String String) (cs : List String) (s : Side)
    → let out = send_all respond cs s in
      ((rs : List String) × (out ≡ (ok rs, record s { sent = s.sent ++ cs }))
        × Answers respond s.sent cs rs)
      ⊎ ((pre post rs : List String) × (c e : String) × (cs ≡ pre ++ c ∷ post)
          × Answers respond s.sent pre rs
          × (respond (s.sent ++ pre) c ≡ raise e)
          × (out ≡ (raise e, record s { sent = s.sent ++ pre ++ c ∷ [] })))
unfolding send_all
send_all_cases respond [] s = inl ([], rw (append-nil s.sent), tt)
send_all_cases respond (c ∷ cs) s =
    let s' : Side = record s { sent = s.sent ++ c ∷ [] } in
    elim (Result-cases (respond s.sent c)) [
      | inr (e, bad) ↦ inr (
        [],
        cs,
        [],
        c,
        e,
        refl,
        tt,
        rw (append-nil s.sent) bad,
        rw (bad, send_all, append-nil s.sent),
      )
      | inl (r, good) ↦ elim (send_all_cases respond cs s') [
        | inl (rs, out, answers) ↦ inl (
          r ∷ rs,
          rw (
            good,
            send_all,
            ap (λ p. p.0) out,
            ap (λ p. p.1) out,
            ← append_assoc s.sent (c ∷ []) cs,
          ),
          (good, answers),
        )
        | inr (pre, post, rs, d, e, split, answers, bad, out) ↦ inr (
          c ∷ pre,
          post,
          r ∷ rs,
          d,
          e,
          ap (◌∷◌ c) split,
          (good, answers),
          rw (append_assoc s.sent (c ∷ []) pre) at bad,
          rw (
            good,
            send_all,
            ap (λ p. p.0) out,
            ap (λ p. p.1) out,
            append_assoc s.sent (c ∷ []) pre,
          ),
        )
      ]
    ]

-- An intent and a skill for which `approve_action` has no case of their own.
unfoldable pub is_plain : (kind skill : String) → Bool
is_plain kind skill =
    not (member kind guarded_kinds)
    && not (member kind special_kinds)
    && not (starts_with kind "geometry_test_")
    && not (member kind verified_kinds)
    && not (skill == "effects.builder")

five_not :
    (a b c d e : Bool)
    → (not a && not b && not c && not d && not e) ≡ true
    → (a ≡ false) × (b ≡ false) × (c ≡ false) × (d ≡ false) × (e ≡ false)
five_not a b c d e h = ground arith

-- A step that only passes its value on.
bind_pure :
    {A : Type 0} (f : A → M A)
    → ((r : A) (s : Side) → f r s ≡ (ok r, s))
    → (p : Result String A × Side) → elim p.0 [ ok a ↦ f a p.1 | raise e ↦ (raise e, p.1) ] ≡ p
bind_pure f h (ok a, s) = h a s
bind_pure f h (raise e, s) = refl

other_kind :
    (kind name : String)
    → starts_with kind "geometry_test_" ≡ false
    → starts_with name "geometry_test_" ≡ true
    → (kind == name) ≡ false
other_kind kind name h n = elim (Bool-cases (kind == name)) [
  | inr other ↦ other
  | inl same ↦
      absurd (
        cc (h, subst (λ x. starts_with x "geometry_test_" ≡ true) (sym (==_true kind name same)) n))
]

plain_parts :
    (kind skill : String)
    → is_plain kind skill ≡ true
    → (member kind guarded_kinds ≡ false)
      × (member kind special_kinds ≡ false)
      × (starts_with kind "geometry_test_" ≡ false)
      × (member kind verified_kinds ≡ false)
      × ((skill == "effects.builder") ≡ false)
unfolding is_plain
plain_parts kind skill h =
    five_not (member kind guarded_kinds) (member kind special_kinds)
      (starts_with kind "geometry_test_") (member kind verified_kinds) (skill == "effects.builder")
      h

verify_kind-plain :
    (k : Console) (a : ActionRecord) (kind skill result : String) (s : Side)
    → is_plain kind skill ≡ true
    → verify_kind k kind skill a result s ≡ (ok result, s)
unfolding verify_kind
verify_kind-plain k a kind skill result s h =
    let (_, _, geo, ver, eff) = plain_parts kind skill h in
    rw (
      other_kind kind "geometry_test_load_show" geo refl,
      other_kind kind "geometry_test_restore_show" geo refl,
      other_kind kind "geometry_test_setup_groups" geo refl,
      eff,
      ver,
    )

perform-plain :
    (k : Console) (a : ActionRecord) (skill : String) (intent : Intent) (s : Side)
    → is_plain intent.kind skill ≡ true
    → perform k a skill intent s ≡ run_commands k a s
unfolding perform execute_kind refuse_reported
perform-plain k a skill intent s h =
    let (_, special, geo, _, _) = plain_parts intent.kind skill h in
    rw special (
      bind_pure
        (λ r. ◌>>>=◌ (refuse_reported k intent.kind r) (λ r'. verify_kind k intent.kind skill a r'))
        (λ r s'. rw (geo, refuse_reported) (verify_kind-plain k a intent.kind skill r s' h))
        (run_commands k a s))

-- What a call that writes `Side` adds to the commands sent: all of `cs`, or a part from the front.
abbrev pub Sends : {A E : Type 0} → List String → Side → Result E A → Side → Type 0
Sends {A} {E} cs s r t =
    ((text : A) × (r ≡ ok text) × (t.sent ≡ s.sent ++ cs))
    ⊎ ((e : E) × (pre post : List String) × (r ≡ raise e)
        × (cs ≡ pre ++ post)
        × (t.sent ≡ s.sent ++ pre))

Sends-nothing :
    {A E : Type 0} (cs : List String) (s : Side) (e : E) → Sends {A = A} cs s (raise e) s
Sends-nothing cs s e = inr (e, [], cs, refl, refl, sym (append-nil s.sent))

execute-Sends :
    (k : Console) (cs : List String) (s : Side)
    → let out = execute_approved_commands k cs s in Sends cs s out.0 out.1
unfolding execute_approved_commands
execute-Sends k cs s = elim (Bool-cases k.ready) [
  | inr down ↦ rw down (Sends-nothing cs s _)
  | inl up ↦ elim (Bool-cases (is_nil cs)) [
    | inl empty ↦ rw (up, empty) (Sends-nothing cs s _)
    | inr full ↦
        rw (up, full)
          (elim (send_all_cases k.respond cs s) [
            | inl (rs, out, _) ↦ inl (rs, ap (λ p. p.0) out, rw out)
            | inr (pre, post, _, d, e, split, _, _, out) ↦ inr (
              e,
              pre ++ d ∷ [],
              post,
              ap (λ p. p.0) out,
              split ∙ sym (append_assoc pre (d ∷ []) post),
              rw out (rw (append_assoc s.sent pre (d ∷ []))),
            )
          ])
  ]
]

map-Sends :
    {A B E : Type 0} (f : A → B) (cs : List String) (s : Side) (p : Result E A × Side)
    → Sends cs s p.0 p.1
    → let q : Result E B × Side = elim p.0 [ ok a ↦ (ok (f a), p.1) | raise e ↦ (raise e, p.1) ] in
      Sends cs s q.0 q.1
map-Sends f cs s (ok a, t) (inl (text, h, sent)) = inl (f a, refl, sent)
map-Sends f cs s (ok a, t) (inr (e, pre, post, h, _, _)) = absurd (cc h)
map-Sends f cs s (raise e, t) (inl (text, h, sent)) = absurd (cc h)
map-Sends f cs s (raise e, t) (inr (e', pre, post, h, split, sent)) =
    inr (e, pre, post, refl, split, sent)

settle-Sends :
    (id : String) (a : ActionRecord) (intent : Intent) (c : AgentCore) (cs : List String) (s : Side)
    (p : Result String String × Side)
    → Sends cs s p.0 p.1
    → let out = settle id a intent c p in Sends cs s out.0 out.1.side
unfolding settle finish
settle-Sends id a intent c cs s (ok a', t) (inl (text, h, sent)) = inl (a', refl, sent)
settle-Sends id a intent c cs s (ok a', t) (inr (e, pre, post, h, _, _)) = absurd (cc h)
settle-Sends id a intent c cs s (raise e, t) (inl (text, h, sent)) = absurd (cc h)
settle-Sends id a intent c cs s (raise e, t) (inr (e', pre, post, h, split, sent)) =
    inr (raised e, pre, post, refl, split, sent)

run_commands-Sends :
    (k : Console) (a : ActionRecord) (s : Side)
    → let out = run_commands k a s in Sends (commands a.workflow) s out.0 out.1
unfolding run_commands approved_commands
run_commands-Sends k a s =
    elim (Option-cases (lookup a.workflow.task.skill_id k.registry.implementations)) [
      | inl missing ↦ rw (missing, run_commands) (Sends-nothing (commands a.workflow) s _)
      | inr (validate, found) ↦ elim (Result-cases (validate a.workflow)) [
        | inr (e, bad) ↦ rw (found, bad, run_commands) (Sends-nothing (commands a.workflow) s _)
        | inl (u, good) ↦
            rw (found, good, ==_self a.workflow.task.skill_id, run_commands)
              (map-Sends (λ rs. or_message (k.join rs)) (commands a.workflow) s
                (execute_approved_commands k (commands a.workflow) s)
                (execute-Sends k (commands a.workflow) s))
      ]
    ]

run_action-plain :
    (k : Console) (id : String) (a : ActionRecord) (skill : String) (intent : Intent)
    (c : AgentCore)
    → is_plain intent.kind skill ≡ true
    → let d = mark_approved id a c.side c in
      run_action k id a skill intent c ≡ settle id a intent d (run_commands k a d.side)
unfolding run_action ensure_unchanged
run_action-plain k id a skill intent c plain =
    let (guarded, _, _, _, _) = plain_parts intent.kind skill plain in
    let d = mark_approved id a c.side c in
    let same : ensure_unchanged k intent.kind a c.side ≡ (ok tt, c.side) = rw guarded in
    rw (run_action, ap (λ p. p.0) same, ap (λ p. p.1) same)
      (ap (settle id a intent d) (perform-plain k a skill intent d.side plain))

-- A plan of a plain kind whose approval passes the checks: when the call returns, exactly the commands
-- of the plan were sent, in order; when it raises, a part of them from the front.
pub approve_action-Sends :
    (k : Console) (id : String) (danger_confirmed : Bool) (c : AgentCore) (a : ActionRecord)
    (skill : String) (intent : Intent)
    → gates k id danger_confirmed c ≡ ok (a, skill, intent)
    → is_plain intent.kind skill ≡ true
    → let out = approve_action k id danger_confirmed c in
      Sends (commands a.workflow) c.side out.0 out.1.side
unfolding approve_action mark_approved
approve_action-Sends k id danger_confirmed c a skill intent good plain =
    let d = mark_approved id a c.side c in
    rw (good, approve_action)
      (rw (run_action-plain k id a skill intent c plain) (
        settle-Sends id a intent d (commands a.workflow) c.side (run_commands k a d.side)
          (run_commands-Sends k a d.side)))
