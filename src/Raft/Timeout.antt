-- ===== src/Raft/Timeout.antt =====
-- Timers that are over: `handle_election_timeout` and `handle_hb_timeout` of
-- src/handle_timeout.cxx. Starting and stopping a timer is an effect.
pub mod Later
use nu_raft.Common.{
  ℕ, zero, suc, ◌+◌, ◌-◌, ◌*◌, Bool, true, false, not, ◌&&◌, ◌||◌, Option, none, some, List, [],
  ◌∷◌, length, ltb, leb, ◌==◌, if◌then◌else◌,
}
use nu_raft.Raft.Types.{is_leader}
use nu_raft.Raft.LogStore.{LogStore, LogPack}
use nu_raft.Raft.Server.{
  Server, Peer, emit, save_state, restart_election_timer, cancel_schedulers, heartbeat_callback,
  schedule_heartbeat, reset_pre_vote, decay_target_priority, update_target_priority,
}
use nu_raft.Raft.Quorum.{get_quorum_for_election}
use nu_raft.Raft.Leader.{Surroundings, find_peer, update_peer, request_append_entries}
use nu_raft.Raft.Leader.Response.{check_srv_to_leave_timeout}
use nu_raft.Raft.Election.{request_prevote, initiate_vote, await_votes}
use nu_raft.Raft.Leadership.{resign_now, check_leadership_validity}
use nu_raft.Raft.Membership.Join.{sync_log_to_new_srv}
use nu_raft.Raft.Membership.Leave.{handle_leave_rpc_err}

module _ {S : Type 0} where
  -- A server that was removed waits for news from the leader, and then stops for good.
  unfoldable pub count_down : Server S → Server S
  unfolding emit
  count_down s =
      if s.steps_to_down == 1
      then (let closed : Server S = record s {
        steps_to_down = 0;
        state = record (s.state) { election_timer_allowed = false };
      } in
          emit cancel_schedulers (emit (save_state closed.state) closed))
      else emit restart_election_timer (record s { steps_to_down = s.steps_to_down - 1 })

  -- A pre-vote of another term counts for nothing.
  unfoldable pub fresh_pre_vote : Server S → Server S
  fresh_pre_vote s =
      if s.pre_vote.term == s.state.term
      then s
      else record s { pre_vote = reset_pre_vote s.pre_vote s.state.term }

  -- Not the first timeout without a leader.
  unfoldable pub decay_if_alone : Server S → Server S
  unfolding decay_target_priority
  decay_if_alone s = if s.hb_alive then s else decay_target_priority s

  -- Nothing has been heard for a while because the server itself is busy.
  unfoldable pub is_busy_itself : Surroundings → Server S → Bool
  is_busy_itself env s =
      s.serving_req || ltb env.election_elapsed_ms s.params.election_timeout_lower_bound

module _ (L : LogStore) where
  open L use {Store}

  -- Without peers, with a pre-vote that is won, or with a quorum of one, the vote itself begins.
  unfoldable pub start_election : Surroundings → Server Store → Server Store
  unfolding initiate_vote request_prevote get_quorum_for_election fresh_pre_vote decay_if_alone
  start_election env s =
      let ready = fresh_pre_vote (decay_if_alone s) in
      if length ready.peers == 0 || ready.pre_vote.is_done || get_quorum_for_election ready == 0
      then initiate_vote L env false ready
      else request_prevote L env ready

  -- Only voting members stand for election.
  unfoldable pub run_election : Surroundings → Server Store → Server Store
  unfolding start_election await_votes
  run_election env s =
      if is_leader s.role
      then s
      else await_votes L (if s.im_learner then s else start_election env s)

  unfoldable pub handle_election_timeout : Surroundings → Server Store → Server Store
  unfolding count_down is_busy_itself run_election emit
  handle_election_timeout env s =
      if s.stopping
      then s
      else if ltb 0 s.steps_to_down
      then count_down s
      else if s.catching_up
      then emit restart_election_timer s
      else if s.out_of_log_range
      then s
      else if s.receiving_snapshot && ltb s.et_cnt_receiving_snapshot 20
      then emit restart_election_timer
          (record s { et_cnt_receiving_snapshot = s.et_cnt_receiving_snapshot + 1 })
      else if is_busy_itself env s
      then emit restart_election_timer s
      else run_election env s

  -- The next heartbeat is scheduled while they are enabled.
  unfoldable pub next_heartbeat : ℕ → Server Store → Server Store
  unfolding emit find_peer
  next_heartbeat id s = elim (find_peer id s.peers) [
    | none ↦ s
    | some p ↦ if p.hb_enabled then emit (schedule_heartbeat id) s else s
  ]

  unfoldable pub send_heartbeat : Surroundings → ℕ → Server Store → Server Store
  unfolding check_leadership_validity update_target_priority request_append_entries next_heartbeat
  send_heartbeat env id s =
      let (valid, leads) = check_leadership_validity env s in
      if leads
      then next_heartbeat id (request_append_entries L env id (update_target_priority valid)).0
      else valid

  -- Heartbeats since a leave request without an answer; after some the server is removed.
  unfoldable pub count_leave : Surroundings → Peer → Server Store → Server Store × Bool
  unfolding handle_leave_rpc_err update_peer
  count_leave env p s =
      let counted : Server Store = record s {
        peers = update_peer (record p { hb_cnt_since_leave = p.hb_cnt_since_leave + 1 }) s.peers;
      } in
      if not p.leave_flag
      then (s, false)
      else if leb s.params.leave_limit (p.hb_cnt_since_leave + 1)
      then (handle_leave_rpc_err L env p.id counted, true)
      else (counted, false)

  unfoldable pub beat : Surroundings → Peer → Server Store → Server Store
  unfolding count_leave send_heartbeat emit
  beat env p s =
      let (counted, removed) = count_leave env p s in
      if removed
      then counted
      else (let told = emit (heartbeat_callback p.id) counted in
          if told.stopping then told else send_heartbeat env p.id told)

  unfoldable pub heartbeat_of : Surroundings → ℕ → Server Store → Server Store
  unfolding beat find_peer
  heartbeat_of env id s = elim (find_peer id s.peers) [ none ↦ s | some p ↦ beat env p s ]

module _ (L : LogStore) (P : LogPack L) where
  open L use {Store}

  -- A snapshot for a server that is joining could not be read before. Without an answer for long,
  -- or without a connection, it is given up.
  unfoldable pub retry_snapshot : Surroundings → Peer → Server Store → Server Store
  unfolding sync_log_to_new_srv
  retry_snapshot env j s =
      if env.need_to_reconnect
        && (leb (s.params.heart_beat_interval * s.params.response_limit) j.resp_elapsed_ms
            || not env.reconnected)
      then record s { srv_to_join = some (record j { snapshot_in_sync = false }) }
      else sync_log_to_new_srv L P env 0 j s

  unfoldable pub heartbeat_or_retry : Surroundings → ℕ → Server Store → Server Store
  unfolding retry_snapshot heartbeat_of
  heartbeat_or_retry env id s = elim s.srv_to_join [
    | none ↦ heartbeat_of L env id s
    | some j ↦
        if s.srv_to_join_snp_retry_required && j.id == id
        then retry_snapshot env j s
        else heartbeat_of L env id s
  ]

  -- A leader that waits for its successor too long resigns.
  unfoldable pub handle_hb_timeout : Surroundings → ℕ → Server Store → Server Store
  unfolding check_srv_to_leave_timeout resign_now heartbeat_or_retry
  handle_hb_timeout env id s =
      let checked = check_srv_to_leave_timeout L s in
      if checked.write_paused && env.reelection_due
      then resign_now checked
      else heartbeat_or_retry env id checked
