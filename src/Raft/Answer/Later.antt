-- ===== src/Raft/Answer/Later.antt =====
-- The term and the vote of a server under the answers of its peers: `handle_append_entries_resp` of
-- src/handle_append_entries.cxx and `handle_peer_resp` of raft_server.cxx.
use nu_raft.Common.{
  ◌+◌, ◌^◌, ◌≡◌, ◌<◌, refl, ap, ◌∙◌, arith, Bool, true, false, ◌&&◌, ltb, if_elim, Option-cases,
  inl, inr, if◌then◌else◌,
}
use nu_raft.Raft.Types.{RespMsg, SrvState, is_leader, no_server}
use nu_raft.Raft.LogStore.{LogStore}
use nu_raft.Raft.Server.{Server, Peer, emit, long_election_timeout, update_term}
use nu_raft.Raft.Quorum.{get_expected_committed_log_idx}
use nu_raft.Raft.Leader.{Surroundings, find_peer, update_peer}
use nu_raft.Raft.Leader.State.{state-commit, state-request_append_entries}
use nu_raft.Raft.Leader.Response.{
  note_response, drop_leaving, check_srv_to_leave_timeout, has_left, take_response, ready_to_resign,
  resign_for, catch_up, settle, after_response, checked_response, handle_append_entries_resp,
}
use nu_raft.Raft.Election.State.{
  Campaign-Later, state-handle_vote_resp, handle_prevote_resp-Campaign,
}
use nu_raft.Raft.Process.Term.{Later, update_term-Later}
use nu_raft.Raft.Process.VoteOnce.{Later-refl, Later-trans, Later-of}
use nu_raft.Raft.Notice.Kept.{state-handle_custom_notification_resp}
use nu_raft.Raft.Leadership.State.{state-become_follower}
use nu_raft.Raft.Answer.{
  Taker, prevote_taker, vote_taker, append_taker, notice_taker, no_taker, taker_of, is_valid_msg,
  reset_resp_timer, take_resp, handle_peer_resp,
}

module _ (L : LogStore) where
  open L use {Store}

  pub state-check_srv_to_leave_timeout :
      (s : Server Store) → (check_srv_to_leave_timeout L s).state ≡ s.state
  unfolding check_srv_to_leave_timeout drop_leaving
  state-check_srv_to_leave_timeout s = ground arith

  state-take_response :
      (env : Surroundings) (resp : RespMsg) (p : Peer) (s : Server Store)
      → (take_response L env resp p s).state ≡ s.state
  unfolding take_response
  state-take_response env resp p s =
      if_elim (λ (t : Server Store). t.state ≡ s.state) resp.accepted
        (state-commit L (get_expected_committed_log_idx env.sort env.adjust env.durable_index noted)
          noted)
        refl
    where
      noted : Server Store
      noted = record s { peers = update_peer (note_response resp p) s.peers }

  state-resign_for : (p : Peer) (s : Server Store) → (resign_for L p s).state ≡ s.state
  unfolding resign_for emit
  state-resign_for p s = state-become_follower (
      emit long_election_timeout (record s {
        leader_id = no_server;
        peers = update_peer (record p { busy = true }) s.peers;
      }))

  state-catch_up :
      (env : Surroundings) (resp : RespMsg) (more : Bool) (p : Peer) (s : Server Store)
      → (catch_up L env resp more p s).state ≡ s.state
  unfolding catch_up
  state-catch_up env resp more p s =
      if_elim (λ (t : Server Store). t.state ≡ s.state)
        (is_leader s.role && more && ltb resp.next_batch_size_hint (2 ^ 63))
        (state-request_append_entries L env p.id s) refl

  state-settle :
      (env : Surroundings) (resp : RespMsg) (more : Bool) (p : Peer) (s : Server Store)
      → (settle L env resp more p s).state ≡ s.state
  unfolding settle
  state-settle env resp more p s =
      if_elim (λ (t : Server Store). t.state ≡ s.state) (ready_to_resign L p s)
        (state-resign_for p s) (state-catch_up env resp more p s)

  state-after_response :
      (env : Surroundings) (resp : RespMsg) (p : Peer) (s : Server Store)
      → (after_response L env resp p s).state ≡ s.state
  unfolding after_response
  state-after_response env resp p s =
      elim (Option-cases (find_peer resp.src (take_response L env resp p s).peers)) [
        | inl gone ↦ rw (after_response, gone) (state-take_response env resp p s)
        | inr (q, there) ↦
            rw (after_response, there)
              (state-settle env resp _ _ (record (take_response L env resp p s) {
                peers =
                    update_peer (if resp.accepted then record q { pending_commit = false } else q)
                      (take_response L env resp p s).peers;
              })
                ∙ state-take_response env resp p s)
      ]

  state-checked_response :
      (env : Surroundings) (resp : RespMsg) (s : Server Store)
      → (checked_response L env resp s).state ≡ s.state
  unfolding checked_response drop_leaving emit
  state-checked_response env resp s = elim (Option-cases (find_peer resp.src s.peers)) [
    | inl gone ↦ rw (checked_response, gone) refl
    | inr (q, there) ↦
        rw (checked_response, there)
          (if_elim (λ (t : Server Store). t.state ≡ s.state) (has_left L resp q s) refl
            (state-after_response env resp q s))
  ]

  -- An answer to an append request changes neither the term nor the vote.
  pub state-handle_append_entries_resp :
      (env : Surroundings) (resp : RespMsg) (s : Server Store)
      → (handle_append_entries_resp L env resp s).state ≡ s.state
  unfolding handle_append_entries_resp
  state-handle_append_entries_resp env resp s = elim (Option-cases (find_peer resp.src s.peers)) [
    | inl gone ↦ rw (handle_append_entries_resp, gone) refl
    | inr (q, there) ↦
        rw (handle_append_entries_resp, there)
          (state-checked_response env resp (check_srv_to_leave_timeout L s)
            ∙ state-check_srv_to_leave_timeout s)
  ]

  take_resp-Later :
      (taker : Taker) (env : Surroundings) (resp : RespMsg) (s : Server Store)
      → s.state.term + 1 < 2 ^ 64
      → Later s.state (take_resp L taker env resp s).state
  unfolding take_resp
  take_resp-Later prevote_taker env resp s fits =
      Campaign-Later L s _ fits (handle_prevote_resp-Campaign L env resp s)
  take_resp-Later vote_taker env resp s fits = Later-of (state-handle_vote_resp L env resp s)
  take_resp-Later append_taker env resp s fits =
      Later-of (state-handle_append_entries_resp env resp s)
  take_resp-Later notice_taker env resp s fits =
      Later-of (state-handle_custom_notification_resp resp s)
  take_resp-Later no_taker env resp s fits = Later-refl s.state

  state-reset_resp_timer :
      (resp : RespMsg) (s : Server Store) → (reset_resp_timer resp s).state ≡ s.state
  unfolding reset_resp_timer
  state-reset_resp_timer resp s = ground arith

  -- An answer of a peer, of any kind, takes a server's term and vote on, where its next term is a
  -- number of 64 bits.
  pub handle_peer_resp-Later :
      (env : Surroundings) (resp : RespMsg) (s : Server Store)
      → s.state.term + 1 < 2 ^ 64
      → Later s.state (handle_peer_resp L env resp s).state
  unfolding handle_peer_resp
  handle_peer_resp-Later env resp s fits = Later-trans (Later-of (state-reset_resp_timer resp s)) (
      if_elim (λ (t : Server Store). Later timed.state t.state) (is_valid_msg resp.msg_type)
        (by_term (update_term resp.term timed) (update_term-Later resp.term timed))
        (take_resp-Later (taker_of resp.msg_type) env resp timed fits'))
    where
      timed : Server Store
      timed = reset_resp_timer resp s

      fits' : timed.state.term + 1 < 2 ^ 64
      fits' = omega (arith, fits, ap (λ (st : SrvState). st.term) (state-reset_resp_timer resp s))

      by_term :
          (out : Server Store × Bool)
          → Later timed.state out.0.state × (out.1 ≡ false → out.0 ≡ timed)
          → Later timed.state
              (if out.1 then out.0 else take_resp L (taker_of resp.msg_type) env resp out.0).state
      by_term (u, true) (l, same) = l
      by_term (u, false) (l, same) =
          Later-trans (Later-of (ap (λ (x : Server Store). x.state) (same refl))) (
            take_resp-Later (taker_of resp.msg_type) env resp u
              (omega (arith, fits', ap (λ (x : Server Store). x.state.term) (same refl))))
