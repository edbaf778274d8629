-- ===== src/Raft/Leader/Response.antt =====
-- What a leader does with the answer to an append request: `handle_append_entries_resp` and
-- `notify_log_append_completion` of src/handle_append_entries.cxx, with what they call of
-- handle_timeout.cxx, handle_commit.cxx and handle_join_leave.cxx.
use nu_raft.Common.{
  ℕ, ◌+◌, ◌-◌, ◌*◌, ◌%◌, ◌^◌, Bool, true, false, not, ◌&&◌, ◌||◌, none, some, List, [], ◌∷◌, ltb,
  ◌==◌, if◌then◌else◌,
}
use nu_raft.Raft.Types.{is_leader, RespMsg, custom, custom_notification_request, no_server}
use nu_raft.Raft.LogStore.{LogStore}
use nu_raft.Raft.Server.{
  Server, Peer, emit, send, long_election_timeout, system_exit, undefined_behavior, become_follower,
  request_append_for_all,
}
use nu_raft.Raft.Quorum.{get_expected_committed_log_idx}
use nu_raft.Raft.Follower.{term_for_log, commit}
use nu_raft.Raft.Notification.{leadership_takeover, notification_bytes}
use nu_raft.Raft.Leader.{
  Surroundings, find_peer, update_peer, is_leaving, new_req, request_append_entries,
}

unfoldable pub erase_peer : ℕ → List Peer → List Peer
erase_peer id [] = []
erase_peer id (p ∷ ps) = if p.id == id then ps else p ∷ erase_peer id ps

-- A `uint64_t` minus one.
unfoldable pub before : ℕ → ℕ
before n = (n + (2 ^ 64 - 1)) % 2 ^ 64

unfoldable pub note_accepted : ℕ → Peer → Peer
unfolding before
note_accepted next_idx p = record p {
  next_log_idx = next_idx;
  matched_idx = before next_idx;
  last_accepted_log_idx = before next_idx;
}

-- Back to where the peer says its log ends, or by one.
unfoldable pub note_declined : RespMsg → Peer → Peer
note_declined resp p =
    if ltb 0 resp.next_idx && ltb resp.next_idx p.next_log_idx
    then record p { next_log_idx = resp.next_idx }
    else if not resp.do_not_rewind && not (p.next_log_idx == 0)
    then record p { next_log_idx = p.next_log_idx - 1 }
    else p

unfoldable pub note_response : RespMsg → Peer → Peer
unfolding note_accepted note_declined
note_response resp p =
    let hinted : Peer = record p { next_batch_size_hint = resp.next_batch_size_hint } in
    if resp.accepted then note_accepted resp.next_idx hinted else note_declined resp hinted

module _ (L : LogStore) where
  open L use {Store, next_slot}

  -- `remove_peer_from_peers` and `reset_srv_to_leave`. The peer is given up as a whole, so that its
  -- heartbeat and its snapshot need no reset.
  unfoldable pub drop_leaving : ℕ → Server Store → Server Store
  unfolding erase_peer
  drop_leaving id s = record s {
    peers = erase_peer id s.peers;
    srv_to_leave = none;
    srv_to_leave_target_idx = 0;
  }

  unfoldable pub check_srv_to_leave_timeout : Server Store → Server Store
  unfolding drop_leaving find_peer
  check_srv_to_leave_timeout s = elim s.srv_to_leave [
    | none ↦ s
    | some id ↦ elim (find_peer id s.peers) [
      | none ↦ s
      | some p ↦
          if ltb (s.params.leave_limit * s.params.heart_beat_interval) p.resp_elapsed_ms
          then drop_leaving id s
          else s
    ]
  ]

  -- The leaving server has all up to the configuration without it.
  unfoldable pub has_left : RespMsg → Peer → Server Store → Bool
  unfolding is_leaving
  has_left resp p s =
      is_leaving s.srv_to_leave resp.src
      && p.stepping_down
      && ltb s.srv_to_leave_target_idx resp.next_idx

  -- The peer's indexes and, after an accepted request, the commit index.
  unfoldable pub take_response : Surroundings → RespMsg → Peer → Server Store → Server Store
  unfolding note_response commit get_expected_committed_log_idx update_peer
  take_response env resp p s =
      let noted : Server Store = record s { peers = update_peer (note_response resp p) s.peers } in
      if resp.accepted
      then commit L (get_expected_committed_log_idx env.sort env.adjust env.durable_index noted)
          noted
      else noted

  -- The leader waits for this peer to take over, and the peer has the whole log.
  unfoldable pub ready_to_resign : Peer → Server Store → Bool
  ready_to_resign p s =
      s.write_paused
      && p.id == s.next_leader_candidate
      && not (p.matched_idx == 0)
      && p.matched_idx == next_slot s.log_store - 1
      && not p.busy

  unfoldable pub resign_for : Peer → Server Store → Server Store
  unfolding emit become_follower term_for_log update_peer notification_bytes
  resign_for p s =
      let last = next_slot s.log_store - 1 in
      let left : Server Store = become_follower (
        emit long_election_timeout (record s {
          leader_id = no_server;
          peers = update_peer (record p { busy = true }) s.peers;
        })) in
      let quiet : Server Store = record left { hb_alive = false } in
      emit
        (send (
          new_req quiet.state.term custom_notification_request quiet.id p.id
            (term_for_log L quiet last) last quiet.quick_commit_index
            (record {
              term = 0;
              value_type = custom;
              buff =
                  notification_bytes
                    (record { notification_type = leadership_takeover; ctx = none });
            }
              ∷ [])))
        quiet

  -- Whether there is more for the peer, and that its pending commit is taken up.
  unfoldable pub catch_up : Surroundings → RespMsg → Bool → Peer → Server Store → Server Store
  unfolding request_append_entries
  catch_up env resp need_to_catchup p s =
      if is_leader s.role && need_to_catchup && ltb resp.next_batch_size_hint (2 ^ 63)
      then (request_append_entries L env p.id s).0
      else s

  unfoldable pub settle : Surroundings → RespMsg → Bool → Peer → Server Store → Server Store
  unfolding ready_to_resign resign_for catch_up
  settle env resp need_to_catchup p s =
      if ready_to_resign p s then resign_for p s else catch_up env resp need_to_catchup p s

  unfoldable pub after_response : Surroundings → RespMsg → Peer → Server Store → Server Store
  unfolding take_response settle update_peer find_peer
  after_response env resp p s =
      let taken = take_response env resp p s in
      elim (find_peer resp.src taken.peers) [
        | none ↦ taken
        | some q ↦
            let cleared : Peer = if resp.accepted then record q { pending_commit = false } else q in
            settle env resp
              (if resp.accepted
                then q.pending_commit || ltb resp.next_idx (next_slot taken.log_store)
                else true)
              cleared (record taken { peers = update_peer cleared taken.peers })
      ]

  unfoldable pub checked_response : Surroundings → RespMsg → Server Store → Server Store
  unfolding drop_leaving has_left after_response find_peer emit
  checked_response env resp s = elim (find_peer resp.src s.peers) [
    | none ↦ emit undefined_behavior s
    | some q ↦ if has_left resp q s then drop_leaving resp.src s else after_response env resp q s
  ]

  -- The peer is looked up before the timeout of a leaving server is checked, and the iterator is
  -- used behind that check.
  unfoldable pub handle_append_entries_resp : Surroundings → RespMsg → Server Store → Server Store
  unfolding check_srv_to_leave_timeout checked_response find_peer
  handle_append_entries_resp env resp s = elim (find_peer resp.src s.peers) [
    | none ↦ s
    | some p ↦ checked_response env resp (check_srv_to_leave_timeout s)
  ]

  -- The log store reports that what was appended is durable, or that it failed.
  unfoldable pub notify_log_append_completion : Surroundings → Bool → Server Store → Server Store
  unfolding commit get_expected_committed_log_idx request_append_for_all become_follower emit
  notify_log_append_completion env done s =
      if is_leader s.role
      then (if done
          then (let committed =
                commit L (get_expected_committed_log_idx env.sort env.adjust env.durable_index s)
                  s in
              if ltb s.quick_commit_index committed.quick_commit_index
              then request_append_for_all committed.peers committed
              else committed)
          else record (become_follower (record s { leader_id = no_server })) { hb_alive = false })
      else if done
      then s
      else emit system_exit s
