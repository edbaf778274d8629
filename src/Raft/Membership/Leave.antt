-- ===== src/Raft/Membership/Leave.antt =====
-- A server leaves: the leader asks it to go, and proposes the configuration without it, of
-- src/handle_join_leave.cxx.
use nu_raft.Common.{
  ℕ, ◌-◌, true, false, not, ◌||◌, none, some, List, [], length, ◌==◌, if◌then◌else◌, Result, ok,
  throw, ◌>>=◌,
}
use nu_raft.Buffer
use nu_raft.Buffer.Put.{filled}
use nu_raft.Raft.Types.{
  is_leader, ReqMsg, RespMsg, new_resp, accept, leave_cluster_request, leave_cluster_response,
}
use nu_raft.Raft.LogStore.{LogStore}
use nu_raft.Raft.Server.{Server, Peer, emit, send, server_join_failed_callback}
use nu_raft.Raft.Follower.{is_some}
use nu_raft.Raft.Leader.{
  Surroundings, find_peer, update_peer, new_req, request_append_entries_to_all,
}
use nu_raft.Raft.Leader.Response.{drop_leaving, erase_peer, check_srv_to_leave_timeout}
use nu_raft.Raft.Membership.{
  ChangeAnswer, bad_request, not_leader, config_changing, server_is_leaving, cannot_remove_leader,
  server_not_found, change_failed, change_accepted, sole_entry, any_leave_flag, without_server,
  latest_conf, next_conf, propose, reset_srv_to_join,
}

-- The number that an entry holds.
unfoldable pub id_of : List ℕ → Result ℕ
id_of bytes = do
  b ← filled (λ i. 0) (Buffer.put_raw bytes) (length bytes)
  (id, rest) ← Buffer.get_int b
  ok id

module _ (L : LogStore) where
  open L use {Store, next_slot}

  -- A peer that is busy gets the request later.
  unfoldable pub ask_to_leave : Peer → Server Store → Server Store
  unfolding emit update_peer
  ask_to_leave p s =
      let req =
        new_req s.state.term leave_cluster_request s.id p.id 0 (next_slot s.log_store - 1)
          s.quick_commit_index [] in
      let flagged : Peer = record p { leave_flag = true } in
      if p.busy
      then record s { peers = update_peer (record flagged { rsv_msg = some req }) s.peers }
      else emit (send req)
          (record s { peers = update_peer (record flagged { busy = true }) s.peers })

  unfoldable pub rm_srv : ℕ → Server Store → Server Store × ChangeAnswer
  unfolding ask_to_leave find_peer
  rm_srv id s = if id == s.id then (s, cannot_remove_leader) else elim (find_peer id s.peers) [
    | none ↦ (s, server_not_found)
    | some p ↦ (ask_to_leave p s, change_accepted (next_slot s.log_store))
  ]

  unfoldable pub rm_srv_of : Result ℕ → Server Store → Server Store × ChangeAnswer
  unfolding rm_srv
  rm_srv_of (ok id) s = rm_srv id s
  rm_srv_of (throw e) s = (s, change_failed)

  -- One server at a time, and no change while another one is on its way.
  unfoldable pub rm_srv_in_turn : List ℕ → Server Store → Server Store × ChangeAnswer
  unfolding rm_srv_of id_of any_leave_flag
  rm_srv_in_turn bytes s =
      if is_some s.srv_to_leave || any_leave_flag s.peers
      then (s, server_is_leaving)
      else if s.config_changing
      then (s, config_changing)
      else rm_srv_of (id_of bytes) s

  unfoldable pub handle_rm_srv_req : ReqMsg → Server Store → Server Store × ChangeAnswer
  unfolding rm_srv_in_turn check_srv_to_leave_timeout sole_entry
  handle_rm_srv_req req s = elim (sole_entry req.log_entries) [
    | none ↦ (s, bad_request)
    | some e ↦
        if not (length e.buff == 4)
        then (s, bad_request)
        else if not (is_leader s.role) || s.write_paused
        then (s, not_leader)
        else rm_srv_in_turn e.buff (check_srv_to_leave_timeout L s)
  ]

  unfoldable pub handle_leave_cluster_req : ReqMsg → Server Store → Server Store × RespMsg
  handle_leave_cluster_req req s =
      let resp = new_resp s.state.term leave_cluster_response s.id req.src 0 in
      if s.config_changing
      then (s, resp)
      else (record s { steps_to_down = 2 }, accept resp (next_slot s.log_store))

  -- The peer is kept until it has the configuration that it is not in.
  unfoldable pub mark_leaving : ℕ → ℕ → Server Store → Server Store
  unfolding find_peer
  mark_leaving id target s =
      if is_some (find_peer id s.peers)
      then record s { srv_to_leave = some id; srv_to_leave_target_idx = target }
      else s

  unfoldable pub rm_srv_from_cluster : Surroundings → ℕ → Server Store → Server Store
  unfolding next_conf propose mark_leaving without_server latest_conf request_append_entries_to_all
  rm_srv_from_cluster env id s =
      if is_some s.srv_to_leave
      then s
      else (let slot = next_slot s.log_store in
          request_append_entries_to_all L env (
            mark_leaving id slot
              (propose L (next_conf slot (without_server id (latest_conf s).servers) s) s)))

  unfoldable pub handle_leave_cluster_resp : Surroundings → RespMsg → Server Store → Server Store
  unfolding rm_srv_from_cluster
  handle_leave_cluster_resp env resp s =
      if resp.accepted then rm_srv_from_cluster env resp.src s else s

  -- With one peer only it goes at once.
  unfoldable pub drop_only_peer : ℕ → Server Store → Server Store
  unfolding erase_peer
  drop_only_peer id s =
      if length s.peers == 1
      then record s {
        peers = erase_peer id s.peers;
        srv_to_leave = none;
        srv_to_leave_target_idx = if is_some s.srv_to_leave then 0 else s.srv_to_leave_target_idx;
      }
      else s

  -- The leave request got no answer. A server that is leaving already is dropped; otherwise the
  -- configuration without it is proposed.
  unfoldable pub handle_leave_rpc_err : Surroundings → ℕ → Server Store → Server Store
  unfolding drop_only_peer drop_leaving rm_srv_from_cluster
  handle_leave_rpc_err env id s =
      let dropped = drop_only_peer id s in
      elim dropped.srv_to_leave [
        | some leaving ↦ drop_leaving L leaving dropped
        | none ↦ rm_srv_from_cluster env id dropped
      ]

  -- The server that was asked to join does not answer.
  unfoldable pub handle_join_rpc_err : ℕ → Server Store → Server Store
  unfolding reset_srv_to_join emit
  handle_join_rpc_err id s =
      emit (server_join_failed_callback id)
        (reset_srv_to_join (record s { config_changing = false }))
