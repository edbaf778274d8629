-- ===== src/Raft/Timeout/Later.antt =====
-- The term and the vote of a server under its timers (src/handle_timeout.cxx).
use nu_raft.Common.{
  ℕ, ◌+◌, ◌*◌, ◌^◌, ◌≡◌, ◌<◌, refl, ap, ◌∙◌, arith, Bool, false, not, ◌&&◌, ◌||◌, length, ltb, leb,
  ◌==◌, if_elim, Option-cases, inl, inr,
}
use nu_raft.Raft.Types.{SrvState, is_leader}
use nu_raft.Raft.LogStore.{LogStore, LogPack}
use nu_raft.Raft.Server.{
  Server, Peer, emit, heartbeat_callback, update_target_priority, decay_target_priority,
}
use nu_raft.Raft.Quorum.{get_quorum_for_election}
use nu_raft.Raft.Leader.{Surroundings, find_peer, update_peer, request_append_entries}
use nu_raft.Raft.Leader.State.{state-request_append_entries}
use nu_raft.Raft.Leader.Response.{check_srv_to_leave_timeout}
use nu_raft.Raft.Leadership.{check_leadership_validity}
use nu_raft.Raft.Leadership.State.{state-check_leadership_validity, state-resign_now}
use nu_raft.Raft.Election.{await_votes}
use nu_raft.Raft.Election.State.{
  Campaign-Later, state-request_prevote, state-await_votes, initiate_vote-Campaign,
}
use nu_raft.Raft.Process.Term.{Later}
use nu_raft.Raft.Process.VoteOnce.{Later-refl, Later-trans, Later-of}
use nu_raft.Raft.Answer.Later.{state-check_srv_to_leave_timeout}
use nu_raft.Raft.Membership.State.{state-handle_leave_rpc_err, state-sync_log_to_new_srv}
use nu_raft.Raft.Timeout.{
  count_down, fresh_pre_vote, decay_if_alone, is_busy_itself, start_election, run_election,
  handle_election_timeout, next_heartbeat, send_heartbeat, count_leave, beat, heartbeat_of,
  retry_snapshot, heartbeat_or_retry, handle_hb_timeout,
}

module _ {S : Type 0} where
  count_down-Later : (s : Server S) → Later s.state (count_down s).state
  unfolding count_down emit
  count_down-Later s =
      if_elim (λ (t : Server S). Later s.state t.state) (s.steps_to_down == 1)
        (record { term = omega arith; vote = λ same. inr refl }) (Later-refl s.state)

  state-ready : (s : Server S) → (fresh_pre_vote (decay_if_alone s)).state ≡ s.state
  unfolding fresh_pre_vote decay_if_alone decay_target_priority
  state-ready s = ground arith

module _ (L : LogStore) where
  open L use {Store}

  start_election-Later :
      (env : Surroundings) (s : Server Store)
      → s.state.term + 1 < 2 ^ 64
      → Later s.state (start_election L env s).state
  unfolding start_election
  start_election-Later env s fits =
      if_elim (λ (t : Server Store). Later s.state t.state)
        (length ready.peers == 0 || ready.pre_vote.is_done || get_quorum_for_election ready == 0)
        (Later-trans (Later-of (state-ready s))
          (Campaign-Later L ready _ fits' (initiate_vote-Campaign L env false ready)))
        (Later-of (state-request_prevote L env ready ∙ state-ready s))
    where
      ready : Server Store
      ready = fresh_pre_vote (decay_if_alone s)

      fits' : ready.state.term + 1 < 2 ^ 64
      fits' = omega (arith, fits, ap (λ (st : SrvState). st.term) (state-ready s))

  run_election-Later :
      (env : Surroundings) (s : Server Store)
      → s.state.term + 1 < 2 ^ 64
      → Later s.state (run_election L env s).state
  unfolding run_election
  run_election-Later env s fits =
      if_elim (λ (t : Server Store). Later s.state t.state) (is_leader s.role) (Later-refl s.state)
        (if_elim (λ (t : Server Store). Later s.state (await_votes L t).state) s.im_learner
          (Later-of (state-await_votes L s))
          (Later-trans (start_election-Later env s fits)
            (Later-of (state-await_votes L (start_election L env s)))))

  pub handle_election_timeout-Later :
      (env : Surroundings) (s : Server Store)
      → s.state.term + 1 < 2 ^ 64
      → Later s.state (handle_election_timeout L env s).state
  unfolding handle_election_timeout emit
  handle_election_timeout-Later env s fits =
      let stays = Later-refl s.state in
      if_elim from s.stopping stays (
        if_elim from (ltb 0 s.steps_to_down) (count_down-Later s) (
          if_elim from s.catching_up stays (
            if_elim from s.out_of_log_range stays (
              if_elim from (s.receiving_snapshot && ltb s.et_cnt_receiving_snapshot 20) stays
                (if_elim from (is_busy_itself env s) stays (run_election-Later env s fits))))))
    where
      from : Server Store → Type 0
      from t = Later s.state t.state

  state-next_heartbeat : (id : ℕ) (s : Server Store) → (next_heartbeat L id s).state ≡ s.state
  unfolding next_heartbeat emit
  state-next_heartbeat id s = elim (Option-cases (find_peer id s.peers)) [
    | inl gone ↦ rw (next_heartbeat, gone) refl
    | inr (p, there) ↦
        rw (next_heartbeat, there)
          (if_elim (λ (t : Server Store). t.state ≡ s.state) p.hb_enabled refl refl)
  ]

  state-send_heartbeat :
      (env : Surroundings) (id : ℕ) (s : Server Store) → (send_heartbeat L env id s).state ≡ s.state
  unfolding send_heartbeat update_target_priority
  state-send_heartbeat env id s =
      if_elim (λ (t : Server Store). t.state ≡ s.state) (check_leadership_validity env s).1
        (state-next_heartbeat id (request_append_entries L env id (update_target_priority valid)).0
          ∙ state-request_append_entries L env id (update_target_priority valid)
          ∙ kept)
        kept
    where
      valid : Server Store
      valid = (check_leadership_validity env s).0

      kept : valid.state ≡ s.state
      kept = state-check_leadership_validity env s

  state-count_leave :
      (env : Surroundings) (p : Peer) (s : Server Store) → (count_leave L env p s).0.state ≡ s.state
  unfolding count_leave
  state-count_leave env p s = if_elim same (not p.leave_flag) refl (
      if_elim same (leb s.params.leave_limit (p.hb_cnt_since_leave + 1))
        (state-handle_leave_rpc_err L env p.id (record s {
          peers = update_peer (record p { hb_cnt_since_leave = p.hb_cnt_since_leave + 1 }) s.peers;
        }))
        refl)
    where
      same : Server Store × Bool → Type 0
      same out = out.0.state ≡ s.state

  state-beat : (env : Surroundings) (p : Peer) (s : Server Store) → (beat L env p s).state ≡ s.state
  unfolding beat emit
  state-beat env p s = if_elim same (count_leave L env p s).1 counted (
      if_elim same (count_leave L env p s).0.stopping counted (
        state-send_heartbeat env p.id (emit (heartbeat_callback p.id) (count_leave L env p s).0)
        ∙ counted))
    where
      same : Server Store → Type 0
      same t = t.state ≡ s.state

      counted : (count_leave L env p s).0.state ≡ s.state
      counted = state-count_leave env p s

  state-heartbeat_of :
      (env : Surroundings) (id : ℕ) (s : Server Store) → (heartbeat_of L env id s).state ≡ s.state
  unfolding heartbeat_of
  state-heartbeat_of env id s = elim (Option-cases (find_peer id s.peers)) [
    | inl gone ↦ rw (heartbeat_of, gone) refl
    | inr (p, there) ↦ rw (heartbeat_of, there) (state-beat env p s)
  ]

module _ (L : LogStore) (P : LogPack L) where
  open L use {Store}

  state-retry_snapshot :
      (env : Surroundings) (j : Peer) (s : Server Store)
      → (retry_snapshot L P env j s).state ≡ s.state
  unfolding retry_snapshot
  state-retry_snapshot env j s =
      if_elim (λ (t : Server Store). t.state ≡ s.state)
        (env.need_to_reconnect
          && (leb (s.params.heart_beat_interval * s.params.response_limit) j.resp_elapsed_ms
              || not env.reconnected))
        refl (state-sync_log_to_new_srv L P env 0 j s)

  state-heartbeat_or_retry :
      (env : Surroundings) (id : ℕ) (s : Server Store)
      → (heartbeat_or_retry L P env id s).state ≡ s.state
  unfolding heartbeat_or_retry
  state-heartbeat_or_retry env id s = elim (Option-cases s.srv_to_join) [
    | inl nobody ↦ rw (heartbeat_or_retry, nobody) (state-heartbeat_of L env id s)
    | inr (j, there) ↦
        rw (heartbeat_or_retry, there)
          (if_elim (λ (t : Server Store). t.state ≡ s.state)
            (s.srv_to_join_snp_retry_required && j.id == id) (state-retry_snapshot env j s)
            (state-heartbeat_of L env id s))
  ]

  -- Neither the heartbeats of a leader nor its resignation change its term or its vote.
  pub state-handle_hb_timeout :
      (env : Surroundings) (id : ℕ) (s : Server Store)
      → (handle_hb_timeout L P env id s).state ≡ s.state
  unfolding handle_hb_timeout
  state-handle_hb_timeout env id s =
      if_elim (λ (t : Server Store). t.state ≡ s.state) (checked.write_paused && env.reelection_due)
        (state-resign_now checked ∙ kept) (state-heartbeat_or_retry env id checked ∙ kept)
    where
      checked : Server Store
      checked = check_srv_to_leave_timeout L s

      kept : checked.state ≡ s.state
      kept = state-check_srv_to_leave_timeout L s
