-- ===== src/Raft/Leader.antt =====
-- A leader's side of log replication: `request_append_entries` and `create_append_entries_req` of
-- src/handle_append_entries.cxx. The timers and counters that only choose a log message are left
-- out. Snapshots go through one thread (`use_bg_thread_for_snapshot_io_` is off).

pub mod Response
pub mod Matching
pub mod Request
pub mod Round
pub mod Exchange
pub mod Converge
pub mod Become
pub mod Core
pub mod State
pub mod Dangling
pub mod Tests
use nu_raft.Common.{
  ℕ, zero, suc, ◌+◌, ◌-◌, ◌*◌, ◌/◌, ◌^◌, max, min, Bool, true, false, not, ◌&&◌, ◌||◌, Option, none,
  some, List, [], ◌∷◌, length, map, ltb, leb, ◌==◌, if◌then◌else◌,
}
use nu_raft.Raft.Types.{
  is_leader, MsgType, ReqMsg, LogEntry, LogValType, custom, append_entries_request,
  custom_notification_request,
}
use nu_raft.Raft.LogStore.{LogStore}
use nu_raft.Raft.Server.{Server, Peer, Effect, emit, send, sync_snapshot, reconnect, system_exit}
use nu_raft.Raft.Quorum.{
  get_num_voting_members, get_quorum_for_commit, get_not_responding_peers, get_current_leader_index,
}
use nu_raft.Raft.Follower.{term_for_log, commit}
use nu_raft.Raft.Notification.{out_of_log_range_warning, out_of_log_bytes, notification_bytes}

-- What the surroundings say while a server works: its callbacks, its timers, the connection to the
-- peer, the last durable index, and the state machine's adjustment of an index to commit.
pub record Surroundings : Type 0 where
  pub request_allowed : Bool
  pub adjustment_allowed : Bool
  pub check_due : Bool
  pub need_to_reconnect : Bool
  pub reconnected : Bool
  pub snapshot_timed_out : Bool
  -- Of elections: the priorities have not changed for twenty heartbeats, and the grace period of a
  -- lagging state machine is over.
  pub priority_settled : Bool
  pub grace_over : Bool
  -- Of leadership: the application lets the leader resign, and the time for the next one to be
  -- elected is over.
  pub yield_allowed : Bool
  pub reelection_due : Bool
  -- It has led long enough to hand over, and the state machine lets it.
  pub transfer_due : Bool
  pub transfer_allowed : Bool
  -- How long ago the election timer was started.
  pub election_elapsed_ms : ℕ
  -- The state machine reads the part of a snapshot that is to be sent.
  pub snapshot_read : Bool
  pub durable_index : ℕ
  pub sort : List ℕ → List ℕ
  pub adjust : ℕ → ℕ → ℕ

-- `peers_` is a map by id.
unfoldable pub find_peer : ℕ → List Peer → Option Peer
find_peer id [] = none
find_peer id (p ∷ ps) = if p.id == id then some p else find_peer id ps

unfoldable pub update_peer : Peer → List Peer → List Peer
update_peer q [] = []
update_peer q (p ∷ ps) = if p.id == q.id then q ∷ ps else p ∷ update_peer q ps

-- What is sent to a peer: a request, a part of a snapshot, or nothing, as the process ends.
pub data Message : Type 0 where
  request : ReqMsg → Message
  snapshot_for : ℕ → ℕ → ℕ → Message
  too_large : Message

abbrev pub new_req : ℕ → MsgType → ℕ → ℕ → ℕ → ℕ → ℕ → List LogEntry → ReqMsg
new_req term type src dst last_log_term last_log_idx commit_idx entries = record {
  term = term;
  msg_type = type;
  src = src;
  dst = dst;
  last_log_term = last_log_term;
  last_log_idx = last_log_idx;
  commit_idx = commit_idx;
  log_entries = entries;
}

-- The peer lacks entries that the leader's snapshot has.
snapshot_helps : Option (ℕ × ℕ) → ℕ → ℕ → Bool
snapshot_helps none last_log_idx starting_idx = false
snapshot_helps (some (i, t)) last_log_idx starting_idx =
    ltb last_log_idx starting_idx && ltb last_log_idx i

pub known_next_idx : Peer → ℕ → Peer
known_next_idx p cur_nxt_idx =
    if p.next_log_idx == 0 then record p { next_log_idx = cur_nxt_idx } else p

-- Where the batch ends; after five tries without success it is one entry.
pub count_retry : ℕ → ℕ → ℕ → Peer → Peer × ℕ
count_retry max_append_size last_log_idx cur_nxt_idx p =
    let end_idx = min cur_nxt_idx (last_log_idx + 1 + max_append_size) in
    if last_log_idx + 1 == p.last_sent_idx && ltb (last_log_idx + 2) end_idx
    then (
      record p { cnt_not_applied = p.cnt_not_applied + 1 },
      if leb 5 (p.cnt_not_applied + 1) then min cur_nxt_idx (last_log_idx + 2) else end_idx,
    )
    else (record p { cnt_not_applied = 0 }, end_idx)

module _ (L : LogStore) where
  open L use {Store, start_index, next_slot, log_entries_ext}

  -- `none`: they are not there. Nothing is read where there is nothing new.
  pub read_entries : ℕ → ℕ → ℕ → ℕ → Server Store → Option (List LogEntry)
  read_entries last_log_idx end_idx cur_nxt_idx hint s =
      if leb cur_nxt_idx (last_log_idx + 1)
      then (if leb (start_index s.log_store) (last_log_idx + 1) then some [] else none)
      else if leb (start_index s.log_store) (last_log_idx + 1)
      then log_entries_ext (last_log_idx + 1) end_idx hint s.log_store
      else none

  missing_entries : ℕ → Peer → Server Store → Message
  unfolding snapshot_helps notification_bytes out_of_log_bytes
  missing_entries last_log_idx p s =
      if snapshot_helps s.last_snapshot last_log_idx (start_index s.log_store)
      then snapshot_for last_log_idx s.state.term s.quick_commit_index
      else request (
          new_req s.state.term custom_notification_request s.id p.id 0 last_log_idx
            s.quick_commit_index
            (record {
              term = 0;
              value_type = custom;
              buff = notification_bytes (record {
                notification_type = out_of_log_range_warning;
                ctx = some (out_of_log_bytes (start_index s.log_store));
              });
            }
              ∷ []))

  unfoldable pub create_append_entries_req : Peer → Server Store → Peer × Message
  unfolding known_next_idx count_retry read_entries missing_entries term_for_log
  create_append_entries_req p s =
      let cur_nxt_idx = s.precommit_index + 1 in
      let known = known_next_idx p cur_nxt_idx in
      let last_log_idx = known.next_log_idx - 1 in
      let (counted, end_idx) =
        count_retry s.params.max_append_size last_log_idx cur_nxt_idx known in
      if leb cur_nxt_idx last_log_idx
      then (known, too_large)
      else elim (read_entries last_log_idx end_idx cur_nxt_idx p.next_batch_size_hint s) [
        | none ↦ (counted, missing_entries last_log_idx counted s)
        | some entries ↦ (
          record counted { last_sent_idx = last_log_idx + 1 },
          request (
              new_req s.state.term append_entries_request s.id p.id (term_for_log L s last_log_idx)
                last_log_idx s.quick_commit_index entries),
        )
      ]

count_stale : ℕ → ℕ → List Peer → ℕ
count_stale last gap [] = 0
count_stale last gap (p ∷ ps) =
    (if ltb (p.last_accepted_log_idx + gap) last then 1 else 0) + count_stale last gap ps

pub is_leaving : Option ℕ → ℕ → Bool
is_leaving none id = false
is_leaving (some i) id = i == id

module _ (L : LogStore) where
  open L use {Store, next_slot}

  pub get_num_stale_peers : Server Store → ℕ
  unfolding count_stale
  get_num_stale_peers s =
      if s.leader_id == s.id
      then count_stale (next_slot s.log_store - 1) s.params.stale_log_gap s.peers
      else 0

  with_quorum : ℕ → Server Store → Server Store
  with_quorum n s = record s {
    params = record (s.params) { custom_commit_quorum_size = n; custom_election_quorum_size = n };
  }

  -- In a cluster of two, a follower that does not keep up is left out of the quorum.
  pub auto_adjust : Surroundings → Server Store → Server Store
  unfolding get_num_stale_peers with_quorum commit
  auto_adjust env s =
      let healthy = get_not_responding_peers s == 0 && get_num_stale_peers s == 0 in
      if s.params.auto_adjust_quorum_for_small_cluster
        && get_num_voting_members s == 2
        && env.check_due
      then (if leb 1 (get_quorum_for_commit s)
          then (if not healthy && env.adjustment_allowed
              then commit L (get_current_leader_index env.durable_index s) (with_quorum 1 s)
              else s)
          else if healthy && s.params.custom_commit_quorum_size == 1
          then with_quorum 0 s
          else s)
      else s

  -- After a connection that was lost, nothing is known of the peer's log any more.
  pub try_reconnect : Surroundings → Peer → Server Store → Server Store
  unfolding is_leaving emit update_peer
  try_reconnect env p s =
      let silent =
        ltb (s.params.heart_beat_interval * s.params.reconnect_limit) p.active_elapsed_ms
        && not (is_leaving s.srv_to_leave p.id) in
      let noted = if silent then record p { active_elapsed_ms = 0 } else p in
      if silent || env.need_to_reconnect
      then emit (reconnect p.id) (record s {
        peers =
            update_peer
              (if env.reconnected && not (p.next_log_idx == 0)
                then record noted { next_log_idx = 0; matched_idx = 0 }
                else noted)
              s.peers;
      })
      else record s { peers = update_peer noted s.peers }

  -- A server that is to leave steps down with the response to this request.
  step_down_with : ReqMsg → Peer → Server Store → Peer
  unfolding is_leaving
  step_down_with req p s =
      if is_leaving s.srv_to_leave p.id
        && leb s.srv_to_leave_target_idx req.commit_idx
        && not p.stepping_down
      then record p { stepping_down = true }
      else p

  send_message : Peer → Message → Server Store → Server Store
  unfolding step_down_with emit update_peer
  send_message p (request req) s =
      emit (send req) (record s { peers = update_peer (step_down_with req p s) s.peers })
  send_message p (snapshot_for idx term commit_idx) s =
      emit (sync_snapshot p.id idx term commit_idx) (record s { peers = update_peer p s.peers })
  send_message p too_large s = emit system_exit (record s { peers = update_peer p s.peers })

  -- To a peer that is free; a reserved message goes first.
  pub send_next : Peer → Server Store → Server Store
  unfolding create_append_entries_req send_message
  send_next p s =
      let taken : Peer = record p { busy = true } in
      elim p.rsv_msg [
        | some req ↦ send_message (record taken { rsv_msg = none }) (request req) s
        | none ↦ let (q, msg) = create_append_entries_req L taken s in send_message q msg s
      ]

  pub check_snapshot_timeout : Surroundings → Peer → Peer
  check_snapshot_timeout env p =
      if p.snapshot_in_sync && env.snapshot_timed_out
      then record p { snapshot_in_sync = false }
      else p

  request_of : Surroundings → ℕ → Server Store → Server Store × Bool
  unfolding try_reconnect send_next check_snapshot_timeout find_peer update_peer
  request_of env id s = elim (find_peer id s.peers) [
    | none ↦ (s, false)
    | some p ↦
        let connected = try_reconnect env p s in
        elim (find_peer id connected.peers) [
          | none ↦ (connected, false)
          | some q ↦
              if q.busy
              then (
                record connected {
                  peers = update_peer (check_snapshot_timeout env q) connected.peers;
                },
                false,
              )
              else (send_next q connected, true)
        ]
  ]

  -- To one peer. False: it is busy, or this is no leader.
  unfoldable pub request_append_entries : Surroundings → ℕ → Server Store → Server Store × Bool
  unfolding auto_adjust request_of
  request_append_entries env id s =
      if not (is_leader s.role)
      then (s, false)
      else if not env.request_allowed
      then (s, true)
      else request_of env id (auto_adjust env s)

  request_each : Surroundings → List Peer → Server Store → Server Store
  unfolding request_append_entries
  request_each env [] s = s
  request_each env (p ∷ ps) s = request_each env ps (request_append_entries env p.id s).0

  -- To all peers; a leader that is a quorum on its own commits at once.
  unfoldable pub request_append_entries_to_all : Surroundings → Server Store → Server Store
  unfolding request_each commit
  request_append_entries_to_all env s =
      if length s.peers == 0 || get_quorum_for_commit s == 0
      then commit L (get_current_leader_index env.durable_index s) s
      else request_each env s.peers s
