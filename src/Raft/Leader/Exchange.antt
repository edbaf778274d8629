-- ===== src/Raft/Leader/Exchange.antt =====
-- What a round between a leader and a follower does to what the leader knows and to the follower's
-- log (src/handle_append_entries.cxx).
use nu_raft.Common.{
  ℕ, ◌+◌, ◌-◌, ◌≡◌, ◌≢◌, ◌≤◌, ap, sym, ◌∙◌, arith, true, false, Option, List, ◌++◌, length,
  length-take, length-drop, take, drop, take-append-drop, Bool-cases, inl, inr, ◌⊎◌, ◌==◌, ==_iff,
}
use nu_raft.Raft.Types.{
  leader, follower, LogEntry, ReqMsg, RespMsg, append_entries_request, SrvState,
}
use nu_raft.Raft.LogStore.{LogStore}
use nu_raft.Raft.Server.{Server, Peer}
use nu_raft.Raft.Follower.{Answers, term_for_log, log_okay, handle_append_entries}
use nu_raft.Raft.Follower.Merge.{merge}
use nu_raft.Raft.Follower.Prepare.{Prepared}
use nu_raft.Raft.Follower.Replicate.{
  Accepted, Denied, handle_append_entries-Accepted, handle_append_entries-refuses,
}
use nu_raft.Raft.Leader.{new_req, create_append_entries_req}
use nu_raft.Raft.Leader.Request.{next_for, Describes, create_append_entries_req-Describes}
use nu_raft.Raft.Leader.Response.{note_response}
use nu_raft.Raft.Leader.Matching.{Matching, merge-prefix}
use nu_raft.Raft.Leader.Round.{
  Paired, take_answer, deliver, exchange, agree_before, Synced, Exchanged, note_response-accepted,
  note_response-declined, taken, lowered,
}

module _ (L : LogStore) where
  open L use {Store, start_index, next_slot, term_at, entries, next_slot_lem, term_at_lem}

  -- The request of this round.
  sent_req : Server Store → Peer → ℕ → ℕ → ReqMsg
  sent_req s p skipped count =
      new_req s.state.term append_entries_request s.id p.id
        (term_for_log L s (start_index s.log_store + skipped - 1))
        (start_index s.log_store + skipped - 1) s.quick_commit_index
        (take count (drop skipped (entries s.log_store)))

  -- What an accepted request leaves, at the follower and in what the leader knows.
  Synced-Accepted :
      (s t u : Server Store) (p q : Peer) (m : RespMsg) (skipped count : ℕ)
      → Paired L s p t
      → skipped ≤ length (entries s.log_store)
      → skipped ≤ length (entries t.log_store)
      → take skipped (entries t.log_store) ≡ take skipped (entries s.log_store)
      → m.accepted ≡ true
      → m.next_idx ≡ skipped + length (take count (drop skipped (entries s.log_store))) + 1
      → entries u.log_store
        ≡ take skipped (entries t.log_store)
          ++ merge
              (drop skipped (entries t.log_store))
              (take count (drop skipped (entries s.log_store)))
      → Synced L s u (note_response m q)
  Synced-Accepted s t u p q m skipped count w inside short same sure next log =
      let (next', matched') =
        note_response-accepted L m q sure (omega (arith, next))
          (omega (arith, next, sent_short, w.small)) in
      let (prefix, again) =
        merge-prefix front (drop skipped (entries t.log_store)) behind count both in
      record {
        matched_inside = omega (arith, matched', next, sent_short);
        next = omega (arith, next', matched', next);
        same = rw (matched' ∙ place next) (
            ap (take (length front + length es)) log_now
            ∙ prefix
            ∙ ap (take (length front + length es)) whole);
        matching = rw log_now (rw whole at again);
      }
    where
      front : List LogEntry
      front = take skipped (entries s.log_store)

      behind : List LogEntry
      behind = drop skipped (entries s.log_store)

      es : List LogEntry
      es = take count behind

      whole : front ++ behind ≡ entries s.log_store
      whole = take-append-drop skipped (entries s.log_store)

      peer_log : front ++ drop skipped (entries t.log_store) ≡ entries t.log_store
      peer_log =
          ap (λ xs. xs ++ drop skipped (entries t.log_store)) (sym same)
          ∙ take-append-drop skipped (entries t.log_store)

      both : Matching (front ++ drop skipped (entries t.log_store)) (front ++ behind)
      both = rw (peer_log, whole) w.matching

      sent_short : length es + skipped ≤ length (entries s.log_store)
      sent_short =
          omega (arith, length-take count behind, length-drop skipped (entries s.log_store), inside)

      log_now : entries u.log_store ≡ front ++ merge (drop skipped (entries t.log_store)) es
      log_now = log ∙ ap (λ xs. xs ++ merge (drop skipped (entries t.log_store)) es) same

      place : m.next_idx ≡ skipped + length es + 1 → m.next_idx - 1 ≡ length front + length es
      place e = omega (arith, e, length-take skipped (entries s.log_store), inside)

  Exchanged-Accepted :
      (s t : Server Store) (p q : Peer) (skipped count : ℕ) (out : Server Store × Option RespMsg)
      → Paired L s p t
      → skipped ≤ length (entries s.log_store)
      → skipped ≤ length (entries t.log_store)
      → take skipped (entries t.log_store) ≡ take skipped (entries s.log_store)
      → start_index s.log_store + skipped - 1 ≡ skipped
      → Accepted L (sent_req s p skipped count) t out.0 out.1 (
          take skipped (entries t.log_store)
          ++ merge
              (drop skipped (entries t.log_store))
              (take count (drop skipped (entries s.log_store))))
      → Exchanged L s p t (take_answer L q out)
  unfolding take_answer sent_req
  Exchanged-Accepted s t p q skipped count out w inside short same place a =
      let (m, is_m, sure, next) = a.answer in
      rw is_m (
        taken sure (
          Synced-Accepted s t out.0 p q m skipped count w inside short same sure
            (omega (arith, next, place)) a.log))

  Exchanged-okay :
      (answers : Answers) (s t : Server Store) (p q : Peer) (skipped count : ℕ)
      → Paired L s p t
      → answers.entries_accepted ≡ true
      → skipped ≤ length (entries s.log_store)
      → log_okay L (sent_req s p skipped count) t ≡ true
      → Exchanged L s p t
          (take_answer L q (handle_append_entries L (sent_req s p skipped count) answers t))
  unfolding sent_req
  Exchanged-okay answers s t p q skipped count w taking inside okay =
      let place : start_index s.log_store + skipped - 1 ≡ skipped = omega (arith, w.leader_start) in
      let (short, same) =
        agree_before L s t p (sent_req s p skipped count) skipped w place
          (ap (term_for_log L s) place) inside okay in
      Exchanged-Accepted s t p q skipped count
        (handle_append_entries L (sent_req s p skipped count) answers t) w inside short same place
        (handle_append_entries-Accepted L (sent_req s p skipped count) answers t
          (take skipped (entries t.log_store)) (drop skipped (entries t.log_store)) w.role w.run
          w.term okay taking (sym (take-append-drop skipped (entries t.log_store)))
          (omega (arith, place, w.start, length-take skipped (entries t.log_store), short)))

  -- A follower that declined is as it was.
  Paired-Prepared :
      (s t u : Server Store) (p q : Peer)
      → Paired L s p t
      → Prepared L t u
      → q.next_log_idx ≤ length (entries s.log_store) + 1
      → Paired L s q u
  Paired-Prepared s t u p q w kept next = record {
    whole = w.whole;
    leader_start = w.leader_start;
    next = next;
    small = w.small;
    role = λ e. not_leading kept.rank e;
    run = kept.run ∙ w.run;
    term = w.term ∙ ap (λ (st : SrvState). st.term) (sym kept.state);
    start = ap start_index kept.log ∙ w.start;
    no_snapshot = kept.snapshot ∙ w.no_snapshot;
    matching = rw (ap entries kept.log) w.matching;
  }
    where
      not_leading : (u.role ≡ t.role) ⊎ (u.role ≡ follower) → u.role ≡ leader → ⊥
      not_leading (inl same) e = w.role (sym same ∙ e)
      not_leading (inr follows) e = ground (arith, follows, e)

  Exchanged-Denied :
      (s t : Server Store) (p q : Peer) (out : Server Store × Option RespMsg)
      → Paired L s p t
      → Denied L t out.0 out.1
      → 2 ≤ q.next_log_idx
      → q.next_log_idx ≤ length (entries s.log_store) + 1
      → q.next_log_idx ≡ next_for p (s.precommit_index + 1)
      → Exchanged L s p t (take_answer L q out)
  unfolding take_answer
  Exchanged-Denied s t p q out w d room fits from =
      let (m, is_m, no_accept, next, term, rewind) = d.answer in
      let (pos, less) =
        note_response-declined L m q no_accept rewind
          (omega (arith, next, next_slot_lem t.log_store, w.start)) room in
      rw is_m (
        lowered no_accept
          (Paired-Prepared s t out.0 p (note_response m q) w d.unchanged
            (omega (arith, less, fits)))
          (ap entries d.unchanged.log) pos (omega (arith, less, from)))

  denied_front : false ≢ true
  denied_front e = ground (arith, e)

  okay_at_front : (req : ReqMsg) (t : Server Store) → req.last_log_idx ≡ 0 → log_okay L req t ≡ true
  unfolding log_okay
  okay_at_front req t e = ground (arith, e)

  Exchanged-Describes :
      (answers : Answers) (s t : Server Store) (p : Peer) (skipped : ℕ)
      → Paired L s p t
      → answers.entries_accepted ≡ true
      → next_for p (s.precommit_index + 1) ≡ start_index s.log_store + skipped
      → skipped ≤ length (entries s.log_store)
      → Describes L p s skipped (create_append_entries_req L p s)
      → Exchanged L s p t (exchange L answers s p t)
  unfolding exchange deliver sent_req
  Exchanged-Describes answers s t p skipped w taking from inside d =
      let req = sent_req s p skipped d.count in
      let q : Peer = (create_append_entries_req L p s).0 in
      rw d.sent (elim (Bool-cases (log_okay L req t)) [
        | inl okay ↦ Exchanged-okay answers s t p q skipped d.count w taking inside okay
        | inr bad ↦
            Exchanged-Denied s t p q (handle_append_entries L req answers t) w
              (handle_append_entries-refuses L req answers t (inl w.role) (inr bad))
              (room d.count bad) (omega (arith, d.next_idx, w.leader_start, inside))
              (d.next_idx ∙ sym from)
      ])
    where
      room :
          (count : ℕ)
          → log_okay L (sent_req s p skipped count) t ≡ false
          → 2 ≤ (create_append_entries_req L p s).0.next_log_idx
      room count bad = elim (Bool-cases (skipped == 0)) [
        | inl front ↦ absurd (
            denied_front (
              sym bad
              ∙ okay_at_front (sent_req s p skipped count) t
                  (omega (arith, w.leader_start, (==_iff skipped 0).0 front))))
        | inr later ↦ ground (arith, later, d.next_idx, w.leader_start)
      ]

  next_for_bounds :
      (s t : Server Store) (p : Peer)
      → Paired L s p t
      → (1 ≤ next_for p (s.precommit_index + 1))
        × (next_for p (s.precommit_index + 1) ≤ length (entries s.log_store) + 1)
  unfolding next_for
  next_for_bounds s t p w = (ground arith, ground (arith, w.whole, w.next))

  -- A leader sends a request to a follower of the same term that is not stopping, whose
  -- application takes entries, both with logs from index 1 on that match. If the request is
  -- accepted, the two logs are the same up to the matched index that the leader notes, the next
  -- index is the one behind it, and the logs match. If it is declined, the follower's log stays and
  -- the next index is lower, and not below 1.
  pub exchange-Exchanged :
      (answers : Answers) (s : Server Store) (p : Peer) (t : Server Store)
      → Paired L s p t
      → answers.entries_accepted ≡ true
      → Exchanged L s p t (exchange L answers s p t)
  exchange-Exchanged answers s p t w taking =
      let (low, high) = next_for_bounds s t p w in
      let skipped = next_for p (s.precommit_index + 1) - 1 in
      let from : next_for p (s.precommit_index + 1) ≡ start_index s.log_store + skipped =
        omega (arith, w.leader_start, low) in
      let inside : skipped ≤ length (entries s.log_store) = omega (arith, high) in
      Exchanged-Describes answers s t p skipped w taking from inside (
        create_append_entries_req-Describes L p s skipped (omega (arith, w.whole, w.leader_start))
          from inside)
