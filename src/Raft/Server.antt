-- ===== src/Raft/Server.antt =====
-- The state of a server (include/libnuraft/raft_server.hxx, peer.hxx, raft_params.hxx) and the
-- transitions that its handlers share: src/raft_server.cxx, handle_priority.cxx, handle_commit.cxx.
-- Effects on the outside are recorded, the newest first. Log messages are left out.
use nu_raft.Common.{
  ℕ, ◌-◌, ◌/◌, max, Bool, true, false, ◌&&◌, Option, none, List, [], ◌∷◌, length, map, ltb, leb,
  ◌==◌, if◌then◌else◌,
}
use nu_raft.Raft.Types.{Role, follower, SrvState, ReqMsg, no_server, lt_i32}
use nu_raft.Config.{ClusterConfig, SrvConfig}

pub record Peer : Type 0 where
  pub id : ℕ
  pub learner : Bool
  pub priority : ℕ
  -- 0: not known, which stands for the leader's next index.
  pub next_log_idx : ℕ
  pub last_accepted_log_idx : ℕ
  -- An `int64` bit pattern.
  pub next_batch_size_hint : ℕ
  pub matched_idx : ℕ
  -- A request is on its way and not answered yet.
  pub busy : Bool
  pub pending_commit : Bool
  pub last_sent_idx : ℕ
  pub cnt_not_applied : ℕ
  pub stepping_down : Bool
  pub rsv_msg : Option ReqMsg
  pub hb_enabled : Bool
  pub abandoned : Bool
  -- Whether a snapshot is being sent to the peer.
  pub snapshot_in_sync : Bool
  -- Milliseconds since the last successful response, as the clock has it now.
  pub resp_elapsed_ms : ℕ
  -- Milliseconds since the last activity of the peer's connection.
  pub active_elapsed_ms : ℕ
  -- A leave request was sent to the peer, and the heartbeats since then.
  pub leave_flag : Bool
  pub hb_cnt_since_leave : ℕ

pub record Params : Type 0 where
  pub custom_commit_quorum_size : ℕ
  pub custom_election_quorum_size : ℕ
  pub exclude_snp_receiver_from_quorum : Bool
  pub use_full_consensus_among_healthy_members : Bool
  pub auto_adjust_quorum_for_small_cluster : Bool
  pub heart_beat_interval : ℕ
  pub fresh_log_gap : ℕ
  pub response_limit : ℕ
  pub parallel_log_appending : Bool
  pub max_append_size : ℕ
  pub stale_log_gap : ℕ
  pub reconnect_limit : ℕ
  pub leave_limit : ℕ
  pub vote_limit : ℕ
  pub pre_vote_rejection_limit : ℕ
  pub grace_period : ℕ
  pub snapshot_distance : ℕ
  pub reserved_log_items : ℕ
  pub allow_temporary_zero_priority_leader : Bool
  -- An `int32`; 0 means twenty heartbeats, a negative value that leadership does not expire.
  pub leadership_expiry : ℕ
  pub leadership_transfer_min_wait_time : ℕ
  pub election_timeout_lower_bound : ℕ
  pub log_sync_stop_gap : ℕ
  pub log_sync_batch_size : ℕ

pub record PreVote : Type 0 where
  pub term : ℕ
  pub is_done : Bool
  pub live : ℕ
  pub dead : ℕ
  pub gone : ℕ
  pub quorum_reject_count : ℕ
  pub failure_count : ℕ

pub data Effect : Type 0 where
  save_state : SrvState → Effect
  restart_election_timer become_follower_callback drop_pending_commits : Effect
  pre_commit rollback rollback_config : ℕ → Effect
  notify_commit_thread become_fresh_callback : Effect
  request_append : ℕ → Effect
  -- `peer::send_req`.
  send : ReqMsg → Effect
  -- `create_sync_snapshot_req` for a peer: its last index, the term and the commit index.
  sync_snapshot : ℕ → ℕ → ℕ → ℕ → Effect
  reconnect enable_heartbeat : ℕ → Effect
  system_exit stop_election_timer become_leader_callback removed_callback : Effect
  -- `commit_ext` of the state machine with the entry at an index, and `commit_config`.
  commit_log : ℕ → List ℕ → Effect
  commit_config execution_callback new_config_callback : ℕ → Effect
  save_config : ClusterConfig → Effect
  create_snapshot : ℕ → ℕ → Effect
  compact_log : ℕ → Effect
  joined_callback become_stale_callback : Effect
  out_of_log_callback server_join_failed_callback heartbeat_callback append_logs_callback :
      ℕ → Effect
  -- The heartbeat of a peer is scheduled once more.
  schedule_heartbeat : ℕ → Effect
  -- `log_store::end_of_append_batch`: the start and the number of entries.
  end_of_append_batch : ℕ → ℕ → Effect
  cancel_schedulers restart_reelection_timer : Effect
  -- A part of a snapshot is saved: index and term, the object, its bytes, whether it is the first
  -- and whether the last.
  save_snapshot_object : ℕ → ℕ → ℕ → List ℕ → Bool → Bool → Effect
  apply_snapshot : ℕ → ℕ → Effect
  -- An iterator into `peers_` is used after its element is erased, or a null pointer is read.
  undefined_behavior : Effect
  -- The grace period of a lagging state machine starts anew.
  restart_grace_period long_election_timeout reconnect_request : Effect

pub record Server (S : Type 0) : Type 0 where
  pub id : ℕ
  pub role : Role
  pub leader_id : ℕ
  pub state : SrvState
  pub hb_alive : Bool
  pub initialized : Bool
  pub catching_up : Bool
  pub im_learner : Bool
  pub stopping : Bool
  pub my_priority : ℕ
  pub target_priority : ℕ
  pub pre_vote : PreVote
  pub election_completed : Bool
  pub votes_granted : ℕ
  pub votes_responded : ℕ
  pub config : ClusterConfig
  pub uncommitted_config : Option ClusterConfig
  pub config_changing : Bool
  pub peers : List Peer
  pub srv_to_join : Option Peer
  pub srv_to_join_snp_retry_required : Bool
  pub conf_to_add : Option SrvConfig
  -- The server is one of `peers` as long as it is here.
  pub srv_to_leave : Option ℕ
  pub srv_to_leave_target_idx : ℕ
  pub write_paused : Bool
  pub next_leader_candidate : ℕ
  pub index_at_becoming_leader : ℕ
  pub vote_init_timer_term : ℕ
  pub log_store : S
  -- Index and term of the last snapshot, of the server and of its state machine alike.
  pub last_snapshot : Option (ℕ × ℕ)
  pub precommit_index : ℕ
  pub quick_commit_index : ℕ
  pub sm_commit_index : ℕ
  pub leader_commit_index : ℕ
  pub lagging_sm_target_index : ℕ
  pub snp_in_progress : Bool
  pub snp_creation_scheduled : Bool
  pub data_fresh : Bool
  pub out_of_log_range : Bool
  pub receiving_snapshot : Bool
  pub et_cnt_receiving_snapshot : ℕ
  pub initial_commit_index : ℕ
  pub serving_req : Bool
  pub steps_to_down : ℕ
  pub params : Params
  pub effects : List Effect

-- `pre_vote_status_t::reset`; the two counters below it stay.
abbrev pub reset_pre_vote : PreVote → ℕ → PreVote
reset_pre_vote p term = record p { term = term; is_done = false; live = 0; dead = 0; gone = 0 }

-- `peer::enable_hb(false)`.
unfoldable pub disable_hb : Peer → Peer
disable_hb p = if p.abandoned then p else record p { hb_enabled = false }

unfoldable pub max_priority : ℕ → List Peer → ℕ
max_priority p [] = p
max_priority p (x ∷ xs) = max_priority (if lt_i32 p x.priority then x.priority else p) xs

module _ {S : Type 0} where
  unfoldable pub emit : Effect → Server S → Server S
  emit e s = record s { effects = e ∷ s.effects }

  -- The default quorum comes back when a two-node cluster has a leader again.
  restore_quorum : Server S → Server S
  restore_quorum s =
      if s.params.auto_adjust_quorum_for_small_cluster
        && length s.peers == 1
        && s.params.custom_commit_quorum_size == 1
      then record s {
        params = record (s.params) {
          custom_commit_quorum_size = 0;
          custom_election_quorum_size = 0;
        };
      }
      else s

  unfoldable pub become_follower : Server S → Server S
  unfolding emit restore_quorum disable_hb
  become_follower s =
      let demoted : Server S = record s {
        peers = map disable_hb s.peers;
        srv_to_join = none;
        role = follower;
        index_at_becoming_leader = 0;
      } in
      let called : Server S = record (emit become_follower_callback demoted) {
        write_paused = false;
        next_leader_candidate = no_server;
        initialized = true;
        uncommitted_config = none;
        pre_vote = record (s.pre_vote) { quorum_reject_count = 0; failure_count = 0 };
      } in
      emit restart_election_timer (emit drop_pending_commits (restore_quorum called))

  -- The state is saved before `become_follower`, with no vote for the new term.
  unfoldable pub update_term : ℕ → Server S → Server S × Bool
  unfolding become_follower emit
  update_term term s =
      if ltb s.state.term term
      then (let updated : Server S = record s {
        role = follower;
        state = record { term = term; voted_for = no_server; election_timer_allowed = true };
        election_completed = false;
        votes_granted = 0;
        votes_responded = 0;
      } in
          (become_follower (emit (save_state updated.state) updated), true))
      else (s, false)

  -- `target_priority_` is positive, so that the truncated difference agrees with `max(1, _)`.
  unfoldable pub decay_target_priority : Server S → Server S
  decay_target_priority s = record s {
    target_priority = max 1 (s.target_priority - max 10 (s.target_priority / 5));
  }

  unfoldable pub update_target_priority : Server S → Server S
  unfolding max_priority
  update_target_priority s =
      let top = max_priority s.my_priority s.peers in
      record s {
        target_priority = if lt_i32 0 top then top else 1;
        hb_alive = true;
        pre_vote = reset_pre_vote s.pre_vote s.state.term;
      }

  -- One thread: the exchange succeeds at once, or the index is there already.
  unfoldable pub try_update_precommit_index : ℕ → Server S → Server S × Bool
  try_update_precommit_index desired s =
      if ltb s.precommit_index desired
      then (record s { precommit_index = desired }, true)
      else (s, leb desired s.precommit_index)

  unfoldable pub request_append_for_all : List Peer → Server S → Server S
  unfolding emit
  request_append_for_all [] s = s
  request_append_for_all (p ∷ ps) s = request_append_for_all ps (emit (request_append p.id) s)
