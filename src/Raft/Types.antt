-- ===== src/Raft/Types.antt =====
-- Messages and log entries: include/libnuraft/msg_type.hxx, msg_base.hxx, req_msg.hxx, resp_msg.hxx,
-- log_entry.hxx, log_val_type.hxx, srv_role.hxx and srv_state.hxx.
use nu_raft.Common.{ℕ, ◌+◌, ◌%◌, ◌^◌, Bool, true, false, List, ltb}

pub data Role : Type 0 where
  follower candidate leader : Role

abbrev pub is_leader : Role → Bool
is_leader leader = true
is_leader _ = false

abbrev pub is_candidate : Role → Bool
is_candidate candidate = true
is_candidate _ = false

abbrev pub is_follower : Role → Bool
is_follower follower = true
is_follower _ = false

pub data LogValType : Type 0 where
  app_log conf cluster_server log_pack snp_sync_req custom : LogValType

-- The timestamp and the checksum, which the modelled code only hands on, are left out.
pub record LogEntry : Type 0 where
  pub term : ℕ
  pub value_type : LogValType
  pub buff : List ℕ

pub data MsgType : Type 0 where
  request_vote_request request_vote_response append_entries_request append_entries_response :
      MsgType
  client_request add_server_request add_server_response remove_server_request : MsgType
  remove_server_response sync_log_request sync_log_response join_cluster_request : MsgType
  join_cluster_response leave_cluster_request leave_cluster_response : MsgType
  install_snapshot_request install_snapshot_response ping_request ping_response : MsgType
  pre_vote_request pre_vote_response other_request other_response : MsgType
  priority_change_request priority_change_response reconnect_request reconnect_response : MsgType
  custom_notification_request custom_notification_response : MsgType

pub record ReqMsg : Type 0 where
  pub term : ℕ
  pub msg_type : MsgType
  pub src : ℕ
  pub dst : ℕ
  pub last_log_term : ℕ
  pub last_log_idx : ℕ
  pub commit_idx : ℕ
  pub log_entries : List LogEntry

-- `do_not_rewind` is the appendix that a declining application adds; other contents of the
-- context are not used by the modelled messages.
pub record RespMsg : Type 0 where
  pub term : ℕ
  pub msg_type : MsgType
  pub src : ℕ
  pub dst : ℕ
  pub next_idx : ℕ
  pub next_batch_size_hint : ℕ
  pub accepted : Bool
  pub do_not_rewind : Bool

-- The constructor's defaults.
abbrev pub new_resp : ℕ → MsgType → ℕ → ℕ → ℕ → RespMsg
new_resp term type src dst next_idx = record {
  term = term;
  msg_type = type;
  src = src;
  dst = dst;
  next_idx = next_idx;
  next_batch_size_hint = 0;
  accepted = false;
  do_not_rewind = false;
}

abbrev pub accept : RespMsg → ℕ → RespMsg
accept r next_idx = record r { next_idx = next_idx; accepted = true }

pub record SrvState : Type 0 where
  pub term : ℕ
  pub voted_for : ℕ
  pub election_timer_allowed : Bool

abbrev pub no_server : ℕ
no_server = 0xffff_ffff

-- `a < b` on `int32` bit patterns.
abbrev pub lt_i32 : ℕ → ℕ → Bool
lt_i32 a b = ltb ((a + 2 ^ 31) % 2 ^ 32) ((b + 2 ^ 31) % 2 ^ 32)
