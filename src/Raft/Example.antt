-- ===== src/Raft/Example.antt =====
-- A server with two peers and a log of three entries, and requests to it.
use nu_raft.Common.{ℕ, ◌+◌, true, false, none, [], ◌∷◌}
use nu_raft.Config.{SrvConfig}
use nu_raft.Raft.Types.{
  Role, LogEntry, app_log, ReqMsg, append_entries_request, request_vote_request, no_server,
}
use nu_raft.Raft.Server.{Server, Peer, Params}
use nu_raft.Raft.Follower.{Answers}
use nu_raft.Raft.Leader.{Surroundings}
use nu_raft.Raft.Quorum.Sort.{insertion_sort}
use nu_raft.InmemLogStore.Interface.{HeldStore}
use nu_raft.InmemLogStore.Tests.{held_three, third}

abbrev pub params : Params
params = record {
  custom_commit_quorum_size = 0;
  custom_election_quorum_size = 0;
  exclude_snp_receiver_from_quorum = false;
  use_full_consensus_among_healthy_members = false;
  auto_adjust_quorum_for_small_cluster = false;
  heart_beat_interval = 500;
  fresh_log_gap = 200;
  response_limit = 20;
  parallel_log_appending = false;
  max_append_size = 100;
  stale_log_gap = 2000;
  reconnect_limit = 50;
  leave_limit = 5;
  vote_limit = 5;
  pre_vote_rejection_limit = 20;
  grace_period = 0;
  snapshot_distance = 0;
  reserved_log_items = 10;
  allow_temporary_zero_priority_leader = true;
  leadership_expiry = 0;
  leadership_transfer_min_wait_time = 0;
  election_timeout_lower_bound = 1000;
  log_sync_stop_gap = 99999;
  log_sync_batch_size = 1000;
}

abbrev pub peer : ℕ → ℕ → Peer
peer id matched = record {
  id = id;
  learner = false;
  priority = 1;
  next_log_idx = matched + 1;
  last_accepted_log_idx = matched;
  next_batch_size_hint = 0;
  matched_idx = matched;
  busy = false;
  pending_commit = false;
  last_sent_idx = 0;
  cnt_not_applied = 0;
  stepping_down = false;
  rsv_msg = none;
  hb_enabled = false;
  abandoned = false;
  snapshot_in_sync = false;
  resp_elapsed_ms = 0;
  active_elapsed_ms = 0;
  leave_flag = false;
  hb_cnt_since_leave = 0;
}

abbrev pub member : ℕ → SrvConfig
member id = record { id = id; dc_id = 0; endpoint = []; aux = []; learner = false; priority = 1 }

-- In term 2, with no vote yet.
abbrev pub server_as : Role → Server HeldStore
server_as role = record {
  id = 1;
  role = role;
  leader_id = no_server;
  state = record { term = 2; voted_for = no_server; election_timer_allowed = true };
  hb_alive = false;
  initialized = true;
  catching_up = false;
  im_learner = false;
  stopping = false;
  my_priority = 1;
  target_priority = 1;
  pre_vote = record {
    term = 2;
    is_done = false;
    live = 0;
    dead = 0;
    gone = 0;
    quorum_reject_count = 0;
    failure_count = 0;
  };
  election_completed = false;
  votes_granted = 0;
  votes_responded = 0;
  config = record {
    log_idx = 1;
    prev_log_idx = 0;
    async_replication = false;
    user_ctx = [];
    servers = member 1 ∷ member 2 ∷ member 3 ∷ [];
  };
  uncommitted_config = none;
  config_changing = false;
  peers = peer 2 3 ∷ peer 3 1 ∷ [];
  srv_to_join = none;
  srv_to_join_snp_retry_required = false;
  conf_to_add = none;
  srv_to_leave = none;
  srv_to_leave_target_idx = 0;
  write_paused = false;
  next_leader_candidate = no_server;
  index_at_becoming_leader = 0;
  vote_init_timer_term = 2;
  log_store = held_three;
  last_snapshot = none;
  precommit_index = 3;
  quick_commit_index = 1;
  sm_commit_index = 1;
  leader_commit_index = 1;
  lagging_sm_target_index = 0;
  snp_in_progress = false;
  snp_creation_scheduled = false;
  data_fresh = false;
  out_of_log_range = false;
  receiving_snapshot = false;
  et_cnt_receiving_snapshot = 0;
  initial_commit_index = 0;
  serving_req = false;
  steps_to_down = 0;
  params = params;
  effects = [];
}

abbrev pub willing : Answers
willing = record { request_accepted = true; entries_accepted = true; batch_size_hint = 0 }

abbrev pub fourth : LogEntry
fourth = record { term = 2; value_type = app_log; buff = 1 ∷ [] }

-- Entries 2 and 3 of the leader: the second replaces one of an older term.
abbrev pub append_req : ReqMsg
append_req = record {
  term = 2;
  msg_type = append_entries_request;
  src = 2;
  dst = 1;
  last_log_term = 1;
  last_log_idx = 1;
  commit_idx = 2;
  log_entries = fourth ∷ third ∷ [];
}

abbrev pub vote_req : ℕ → ℕ → ReqMsg
vote_req src term = record {
  term = term;
  msg_type = request_vote_request;
  src = src;
  dst = 1;
  last_log_term = 2;
  last_log_idx = 3;
  commit_idx = 1;
  log_entries = [];
}

-- Nothing in the way, and nothing due.
abbrev pub calm : Surroundings
calm = record {
  request_allowed = true;
  adjustment_allowed = true;
  check_due = false;
  need_to_reconnect = false;
  reconnected = false;
  snapshot_timed_out = false;
  priority_settled = false;
  grace_over = true;
  yield_allowed = true;
  reelection_due = false;
  transfer_due = false;
  transfer_allowed = true;
  election_elapsed_ms = 2000;
  snapshot_read = true;
  durable_index = 3;
  sort = insertion_sort;
  adjust = λ current expected. expected;
}
