-- ===== src/Bridge/Retransmission.antt =====
-- What `BridgeDispatcher.dispatch` of zen_ma2_agent/ma_bridge/server.py promises to a client that sends a
-- request again, and the bound on its caches.
use Prim.Native.Nat.{ℕ, suc, ◌≤◌}
use zen_ma2_agent.Prelude.{
  ◌≡◌, refl, ap, ◌≢◌, ◌⊎◌, inl, inr, Option, none, some, Bool-cases, Option-cases, Result-cases, ok,
  raise, length,
}
use zen_ma2_agent.Prelude.Eq.{◌==◌, ==_self, ==_ne, ==_true, ==_false}
use zen_ma2_agent.Prelude.Dict.{lookup, move_to_end, length-move_to_end, Distinct}
use zen_ma2_agent.Prelude.Text.{Text, text_eq}
use zen_ma2_agent.Bridge.Protocol.{request_id_conflict, BridgeRequest}
use zen_ma2_agent.Bridge.Dispatch.{
  RequestDeduplicator, DedupState, new, duplicate, remember, check, BridgeDispatcher, respond,
  answer, dispatch,
}
use zen_ma2_agent.Bridge.Cache.{
  Distinct-move_to_end, lookup-move_to_end, lookup-remember, Distinct-remember, length-remember,
}

-- Both caches have no key twice and are within the capacity.
pub record IsValid (d : BridgeDispatcher) : Type 0 where
  pub seen_distinct : Distinct d.dedup.seen
  pub seen_bound : length d.dedup.seen ≤ d.dedup.capacity
  pub responses_distinct : Distinct d.responses
  pub responses_bound : length d.responses ≤ d.capacity

module _ {F : Type 0} where
  -- The deduplicator after a check, whatever the check found.
  check_cases :
      (r : BridgeRequest F) (d : RequestDeduplicator)
      → ((lookup r.request_id d.seen ≡ none)
          × (check r d ≡ (
            ok new,
            record d { seen = remember d.capacity r.request_id r.payload_hash d.seen },
          )))
        ⊎ ((lookup r.request_id d.seen ≡ some r.payload_hash)
            × (check r d ≡ (ok duplicate, record d { seen = move_to_end r.request_id d.seen })))
        ⊎ ((previous : Text) × (lookup r.request_id d.seen ≡ some previous)
            × (previous ≢ r.payload_hash)
            × (check r d
                ≡ (raise request_id_conflict, record d { seen = move_to_end r.request_id d.seen })))
  unfolding check
  check_cases r d = elim (Option-cases (lookup r.request_id d.seen)) [
    | inl missing ↦ inl (missing, rw (missing, check))
    | inr (previous, found) ↦ elim (Bool-cases (previous == r.payload_hash)) [
      | inl same ↦ inr (
          inl (
            rw found (ap some (==_true previous r.payload_hash same)),
            rw (found, check) (rw same),
          ))
      | inr other ↦ inr (
          inr
            (previous, found, ==_false previous r.payload_hash other, rw (found, check) (rw other)))
    ]
  ]

  check_keeps :
      (r : BridgeRequest F) (d : RequestDeduplicator)
      → Distinct d.seen
      → length d.seen ≤ d.capacity
      → let e = (check r d).1 in
        Distinct e.seen × (length e.seen ≤ e.capacity) × (e.capacity ≡ d.capacity)
  check_keeps r d u b = elim (check_cases r d) [
    | inl (_, out) ↦ rw out (
      Distinct-remember d.capacity r.request_id r.payload_hash d.seen u,
      length-remember d.capacity r.request_id r.payload_hash d.seen,
      refl,
    )
    | inr (inl (_, out)) ↦ rw out (
      Distinct-move_to_end r.request_id d.seen u,
      rw (length-move_to_end r.request_id d.seen) b,
      refl,
    )
    | inr (inr (_, _, _, out)) ↦ rw out (
      Distinct-move_to_end r.request_id d.seen u,
      rw (length-move_to_end r.request_id d.seen) b,
      refl,
    )
  ]

  -- After a check that passes, the same request is a duplicate.
  check_again :
      (r : BridgeRequest F) (d : RequestDeduplicator) (n : ℕ) (s : DedupState)
      → Distinct d.seen
      → d.capacity ≡ suc n
      → (check r d).0 ≡ ok s
      → lookup r.request_id (check r d).1.seen ≡ some r.payload_hash
  check_again r d n s u c h = elim (check_cases r d) [
    | inl (_, out) ↦ rw (out, c) (lookup-remember r.request_id d.seen u n r.payload_hash)
    | inr (inl (found, out)) ↦ rw out (rw (lookup-move_to_end r.request_id d.seen u) found)
    | inr (inr (_, _, _, out)) ↦ absurd (cc (rw out at h))
  ]

  answer_dedup :
      (p : Option Text) (r : BridgeRequest F) (d : BridgeDispatcher)
      → (answer p r d).1.dedup ≡ d.dedup
  unfolding answer
  answer_dedup p r d = elim (Result-cases (respond p r)) [
    | inl (text, good) ↦ rw (good, answer)
    | inr (e, bad) ↦ rw (bad, answer)
  ]

  dispatch_dedup :
      (p : Option Text) (r : BridgeRequest F) (d : BridgeDispatcher)
      → (dispatch p r d).1.dedup ≡ (check r d.dedup).1
  unfolding dispatch
  dispatch_dedup p r d =
      let d' : BridgeDispatcher = record d { dedup = (check r d.dedup).1 } in
      elim (Result-cases (check r d.dedup).0) [
        | inr (e, bad) ↦ rw (bad, dispatch)
        | inl (new, good) ↦ rw (good, dispatch) (answer_dedup p r d')
        | inl (duplicate, good) ↦ elim (Option-cases (lookup r.request_id d.responses)) [
          | inl missing ↦ rw (good, dispatch, missing) (answer_dedup p r d')
          | inr (cached, found) ↦ rw (good, dispatch, found)
        ]
      ]

  answer_remembers :
      (p : Option Text) (r : BridgeRequest F) (d : BridgeDispatcher) (n : ℕ) (text : Text)
      → Distinct d.responses
      → d.capacity ≡ suc n
      → (answer p r d).0 ≡ ok text
      → lookup r.request_id (answer p r d).1.responses ≡ some text
  unfolding answer
  answer_remembers p r d n text u c h = elim (Result-cases (respond p r)) [
    | inr (e, bad) ↦ absurd (cc (rw (bad, answer) at h))
    | inl (t, good) ↦
        let e = rw (good, answer) at h in
        let same : t ≡ text = cc e in
        rw (good, answer, c, same) (lookup-remember r.request_id d.responses u n text)
  ]

  dispatch_remembers :
      (p : Option Text) (r : BridgeRequest F) (d : BridgeDispatcher) (n : ℕ) (text : Text)
      → Distinct d.responses
      → d.capacity ≡ suc n
      → (dispatch p r d).0 ≡ ok text
      → ((s : DedupState) × ((check r d.dedup).0 ≡ ok s))
        × (lookup r.request_id (dispatch p r d).1.responses ≡ some text)
  unfolding dispatch
  dispatch_remembers p r d n text u c h =
      let d' : BridgeDispatcher = record d { dedup = (check r d.dedup).1 } in
      elim (Result-cases (check r d.dedup).0) [
        | inr (e, bad) ↦ absurd (cc (rw (bad, dispatch) at h))
        | inl (new, good) ↦ (
          (new, good),
          rw (good, dispatch) (answer_remembers p r d' n text u c (rw (good, dispatch) at h)),
        )
        | inl (duplicate, good) ↦ elim (Option-cases (lookup r.request_id d.responses)) [
          | inl missing ↦ (
            (duplicate, good),
            rw (good, dispatch, missing)
                (answer_remembers p r d' n text u c (rw (good, dispatch, missing) at h)),
          )
          | inr (cached, found) ↦
              let e = rw (good, dispatch, found) at h in
              let same : cached ≡ text = cc e in
              (
                (duplicate, good),
                rw (good, dispatch, found)
                    (rw (lookup-move_to_end r.request_id d.responses u) (rw found (ap some same))),
              )
        ]
      ]

  dispatch_cached :
      (q : Option Text) (r : BridgeRequest F) (d : BridgeDispatcher) (text : Text)
      → lookup r.request_id d.dedup.seen ≡ some r.payload_hash
      → lookup r.request_id d.responses ≡ some text
      → (dispatch q r d).0 ≡ ok text
  unfolding dispatch check
  dispatch_cached q r d text seen held =
      rw (seen, check, dispatch) (rw (==_self r.payload_hash) (rw held))

  -- A request that was answered and is sent again, with nothing in between, gets the response of the
  -- first time, even if the status has changed, where both caches are valid and hold at least one entry.
  pub dispatch_again :
      (p q : Option Text) (r : BridgeRequest F) (d : BridgeDispatcher) (m n : ℕ) (text : Text)
      → IsValid d
      → d.dedup.capacity ≡ suc m
      → d.capacity ≡ suc n
      → (dispatch p r d).0 ≡ ok text
      → (dispatch q r (dispatch p r d).1).0 ≡ ok text
  dispatch_again p q r d m n text v cm cn h =
      let ((s, good), held) = dispatch_remembers p r d n text v.responses_distinct cn h in
      dispatch_cached q r (dispatch p r d).1 text
        (rw (dispatch_dedup p r d) (check_again r d.dedup m s v.seen_distinct cm good)) held

  answer_keeps :
      (p : Option Text) (r : BridgeRequest F) (d : BridgeDispatcher)
      → Distinct d.responses
      → length d.responses ≤ d.capacity
      → let e = (answer p r d).1 in Distinct e.responses × (length e.responses ≤ e.capacity)
  unfolding answer
  answer_keeps p r d u b = elim (Result-cases (respond p r)) [
    | inr (e, bad) ↦ rw (bad, answer) (u, b)
    | inl (t, good) ↦
        rw (good, answer)
          (
            Distinct-remember d.capacity r.request_id t d.responses u,
            length-remember d.capacity r.request_id t d.responses,
          )
  ]

  dispatch_keeps :
      (p : Option Text) (r : BridgeRequest F) (d : BridgeDispatcher)
      → Distinct d.responses
      → length d.responses ≤ d.capacity
      → let e = (dispatch p r d).1 in Distinct e.responses × (length e.responses ≤ e.capacity)
  unfolding dispatch
  dispatch_keeps p r d u b =
      let d' : BridgeDispatcher = record d { dedup = (check r d.dedup).1 } in
      elim (Result-cases (check r d.dedup).0) [
        | inr (e, bad) ↦ rw (bad, dispatch) (u, b)
        | inl (new, good) ↦ rw (good, dispatch) (answer_keeps p r d' u b)
        | inl (duplicate, good) ↦ elim (Option-cases (lookup r.request_id d.responses)) [
          | inl missing ↦ rw (good, dispatch, missing) (answer_keeps p r d' u b)
          | inr (cached, found) ↦
              rw (good, dispatch, found)
                (
                  Distinct-move_to_end r.request_id d.responses u,
                  rw (length-move_to_end r.request_id d.responses) b,
                )
        ]
      ]

  -- A request, answered or refused, leaves both caches without a repeated key and within the capacity.
  pub dispatch-IsValid :
      (p : Option Text) (r : BridgeRequest F) (d : BridgeDispatcher)
      → IsValid d
      → IsValid (dispatch p r d).1
  dispatch-IsValid p r d v =
      let (u, b, c) = check_keeps r d.dedup v.seen_distinct v.seen_bound in
      let (u', b') = dispatch_keeps p r d v.responses_distinct v.responses_bound in
      record {
        seen_distinct = rw (dispatch_dedup p r d) u;
        seen_bound = rw (dispatch_dedup p r d) b;
        responses_distinct = u';
        responses_bound = b';
      }

  -- After an answered request, another payload under the same identifier is refused as a conflict.
  pub dispatch_conflict :
      (p q : Option Text) (r s : BridgeRequest F) (d : BridgeDispatcher) (m n : ℕ) (text : Text)
      → IsValid d
      → d.dedup.capacity ≡ suc m
      → d.capacity ≡ suc n
      → (dispatch p r d).0 ≡ ok text
      → s.request_id ≡ r.request_id
      → r.payload_hash ≢ s.payload_hash
      → (dispatch q s (dispatch p r d).1).0 ≡ raise request_id_conflict
  unfolding dispatch check
  dispatch_conflict p q r s d m n text v cm cn h same other =
      let ((st, good), _) = dispatch_remembers p r d n text v.responses_distinct cn h in
      let seen : lookup s.request_id (dispatch p r d).1.dedup.seen ≡ some r.payload_hash =
        rw (same, dispatch_dedup p r d) (check_again r d.dedup m st v.seen_distinct cm good) in
      rw (seen, check, dispatch) (rw (==_ne r.payload_hash s.payload_hash other))
