-- ===== src/Raft/Leader/Round.antt =====
-- One round between a leader and a follower: a request of `create_append_entries_req`, the
-- follower's `handle_append_entries`, and what the leader keeps of the answer
-- (`handle_append_entries_resp`), all of src/handle_append_entries.cxx.
use nu_raft.Common.{
  ℕ, zero, suc, ◌+◌, ◌-◌, ◌^◌, ◌≡◌, ◌≢◌, ◌≤◌, ◌<◌, refl, ap, sym, ◌∙◌, arith, Bool, true, false,
  Option, some, none, length, take, get_elem?-inside,
}
use nu_raft.Raft.Types.{leader, ReqMsg, RespMsg}
use nu_raft.Raft.LogStore.{LogStore}
use nu_raft.Raft.Server.{Server, Peer}
use nu_raft.Raft.Follower.{Answers, term_for_log, log_okay, snapshot_matches, handle_append_entries}
use nu_raft.Raft.Leader.{Message, request, create_append_entries_req}
use nu_raft.Raft.Leader.Request.{next_for}
use nu_raft.Raft.Leader.Response.{before, note_response}
use nu_raft.Raft.Leader.Matching.{Matching}

module _ (L : LogStore) where
  open L use {Store, start_index, next_slot, term_at, entries, next_slot_lem, term_at_lem}

  -- The follower has the entry before the request's, of the same term.
  pub okay-term :
      (req : ReqMsg) (t : Server Store)
      → log_okay L req t ≡ true
      → t.last_snapshot ≡ none
      → 1 ≤ req.last_log_idx
      → start_index t.log_store ≤ req.last_log_idx
      → (req.last_log_idx < next_slot t.log_store)
        × (req.last_log_term ≡ term_at t.log_store req.last_log_idx)
  unfolding log_okay term_for_log snapshot_matches
  okay-term req t okay no_snapshot pos from = ground (arith, okay, no_snapshot, pos, from)

  pub term_for_log-inside :
      (s : Server Store) (i : ℕ)
      → 1 ≤ i
      → start_index s.log_store ≤ i
      → term_for_log L s i ≡ term_at s.log_store i
  unfolding term_for_log
  term_for_log-inside s i pos from = ground (arith, pos, from)

  -- A leader and a peer that both have their logs from index 1 on, in one term.
  pub record Paired (s : Server Store) (p : Peer) (t : Server Store) : Type 0 where
    pub whole : s.precommit_index ≡ length (entries s.log_store)
    pub leader_start : start_index s.log_store ≡ 1
    pub next : p.next_log_idx ≤ length (entries s.log_store) + 1
    pub small : length (entries s.log_store) + 1 < 2 ^ 63
    pub role : t.role ≢ leader
    pub run : t.stopping ≡ false
    pub term : s.state.term ≡ t.state.term
    pub start : start_index t.log_store ≡ 1
    pub no_snapshot : t.last_snapshot ≡ none
    pub matching : Matching (entries t.log_store) (entries s.log_store)

  unfoldable pub take_answer : Peer → Server Store × Option RespMsg → Peer × Server Store × Bool
  take_answer q (u, none) = (q, u, false)
  take_answer q (u, some m) = (note_response m q, u, m.accepted)

  unfoldable pub deliver : Answers → Peer × Message → Server Store → Peer × Server Store × Bool
  unfolding take_answer
  deliver answers (q, request req) t = take_answer q (handle_append_entries L req answers t)
  deliver answers (q, _) t = (q, t, false)

  -- One request and its answer: what the leader knows of the peer then, the peer's server, and
  -- whether the request was accepted.
  unfoldable pub exchange :
      Answers → Server Store → Peer → Server Store → Peer × Server Store × Bool
  unfolding deliver
  exchange answers s p t = deliver answers (create_append_entries_req L p s) t

  pub agree_before :
      (s t : Server Store) (p : Peer) (req : ReqMsg) (skipped : ℕ)
      → Paired s p t
      → req.last_log_idx ≡ skipped
      → req.last_log_term ≡ term_for_log L s skipped
      → skipped ≤ length (entries s.log_store)
      → log_okay L req t ≡ true
      → (skipped ≤ length (entries t.log_store))
        × (take skipped (entries t.log_store) ≡ take skipped (entries s.log_store))
  agree_before s t p req zero w here same_term inside okay = (omega arith, refl)
  agree_before s t p req (suc k) w here same_term inside okay =
      let (below, at_peer) =
        okay-term req t okay w.no_snapshot (omega (arith, here)) (omega (arith, here, w.start)) in
      let short : k < length (entries t.log_store) =
        omega (arith, below, next_slot_lem t.log_store, w.start, here) in
      let (x, is_x) = get_elem?-inside (entries t.log_store) k short in
      let (y, is_y) = get_elem?-inside (entries s.log_store) k (omega (arith, inside)) in
      let place_t : start_index t.log_store + k ≡ suc k = omega (arith, w.start) in
      let place_s : start_index s.log_store + k ≡ suc k = omega (arith, w.leader_start) in
      (
        omega (arith, short),
        w.matching.agree k x y is_x is_y (
            sym (term_at_lem t.log_store k x is_x)
            ∙ ap (term_at t.log_store) (place_t ∙ sym here)
            ∙ sym at_peer
            ∙ same_term
            ∙ term_for_log-inside s (suc k) (omega arith) (omega (arith, w.leader_start))
            ∙ ap (term_at s.log_store) (sym place_s)
            ∙ term_at_lem s.log_store k y is_y),
      )

  -- What is reached when a request is accepted: both logs are the same up to the matched index.
  pub record Synced (s u : Server Store) (q : Peer) : Type 0 where
    pub matched_inside : q.matched_idx ≤ length (entries s.log_store)
    pub next : q.next_log_idx ≡ q.matched_idx + 1
    pub same : take q.matched_idx (entries u.log_store) ≡ take q.matched_idx (entries s.log_store)
    pub matching : Matching (entries u.log_store) (entries s.log_store)

  pub data Exchanged (s : Server Store) (p : Peer) (t : Server Store)
      : Peer × Server Store × Bool → Type 0 where
    taken :
        {q : Peer} {u : Server Store} {b : Bool}
        → b ≡ true
        → Synced s u q
        → Exchanged s p t (q, u, b)
    lowered :
        {q : Peer} {u : Server Store} {b : Bool}
        → b ≡ false
        → Paired s q u
        → entries u.log_store ≡ entries t.log_store
        → 1 ≤ q.next_log_idx
        → q.next_log_idx < next_for p (s.precommit_index + 1)
        → Exchanged s p t (q, u, b)

  pub note_response-accepted :
      (m : RespMsg) (q : Peer)
      → m.accepted ≡ true
      → 1 ≤ m.next_idx
      → m.next_idx < 2 ^ 64
      → ((note_response m q).next_log_idx ≡ m.next_idx)
        × ((note_response m q).matched_idx ≡ m.next_idx - 1)
  unfolding note_response before
  note_response-accepted m q sure pos small =
      (ground (arith, sure), ground (arith, sure, pos, small))

  pub note_response-declined :
      (m : RespMsg) (q : Peer)
      → m.accepted ≡ false
      → m.do_not_rewind ≡ false
      → 1 ≤ m.next_idx
      → 2 ≤ q.next_log_idx
      → (1 ≤ (note_response m q).next_log_idx) × ((note_response m q).next_log_idx < q.next_log_idx)
  unfolding note_response
  note_response-declined m q no_accept rewind pos room =
      (ground (arith, no_accept, rewind, pos, room), ground (arith, no_accept, rewind, pos, room))
