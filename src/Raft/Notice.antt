-- ===== src/Raft/Notice.antt =====
-- What a server does with a notification and with the answer to one: the handlers of
-- src/handle_custom_notification.cxx. `none` in place of a response: an exception leaves the
-- handler.
pub mod Takeover
pub mod Kept
pub mod Tests
use nu_raft.Common.{
  ℕ, ◌-◌, Bool, true, false, ◌&&◌, Option, none, some, List, [], ◌∷◌, ◌==◌, if◌then◌else◌, ok,
  throw,
}
use nu_raft.Raft.Types.{
  is_leader, is_follower, ReqMsg, RespMsg, LogEntry, new_resp, accept, custom_notification_response,
}
use nu_raft.Raft.LogStore.{LogStore}
use nu_raft.Raft.Server.{
  Server, Peer, emit, update_term, restart_election_timer, out_of_log_callback, undefined_behavior,
}
use nu_raft.Raft.Leader.{Surroundings, find_peer, update_peer}
use nu_raft.Raft.Leadership.{yield_leadership}
use nu_raft.Raft.Election.{initiate_vote, await_votes}
use nu_raft.Raft.Notification.{
  CustomNotification, out_of_log_range_warning, leadership_takeover, request_resignation,
  notification_of, out_of_log_of,
}

module _ {S : Type 0} where
  -- `raft_server::is_leader`.
  unfoldable pub is_leading : Server S → Bool
  is_leading s = s.leader_id == s.id && is_leader s.role

  -- A form of a heartbeat: the timer starts anew.
  unfoldable pub tell_out_of_log : ReqMsg → ℕ → Server S → Server S
  unfolding emit
  tell_out_of_log req start_idx s =
      emit (out_of_log_callback start_idx) (
        if req.term == s.state.term && is_follower s.role then emit restart_election_timer s else s)

  -- The context is read without a test whether it is there.
  unfoldable pub handle_out_of_log_msg :
      ReqMsg → Option (List ℕ) → RespMsg → Server S → Server S × Option RespMsg
  unfolding update_term tell_out_of_log out_of_log_of emit
  handle_out_of_log_msg req ctx resp s =
      let told : Server S = record ((update_term req.term s).0) { out_of_log_range = true } in
      elim ctx [
        | none ↦ (emit undefined_behavior told, none)
        | some bytes ↦ elim (out_of_log_of bytes) [
          | ok start_idx ↦ (tell_out_of_log req start_idx told, some resp)
          | throw e ↦ (told, none)
        ]
      ]

  unfoldable pub handle_resignation_request : Surroundings → ReqMsg → Server S → Server S
  unfolding is_leading yield_leadership
  handle_resignation_request env req s =
      if is_leading s then yield_leadership env false req.src s else s

  -- The peer tells where its log ends.
  unfoldable pub handle_custom_notification_resp : RespMsg → Server S → Server S
  unfolding find_peer update_peer
  handle_custom_notification_resp resp s =
      if resp.accepted
      then elim (find_peer resp.src s.peers) [
        | none ↦ s
        | some p ↦ record s {
          peers = update_peer (record p { next_log_idx = resp.next_idx }) s.peers;
        }
      ]
      else s

module _ (L : LogStore) where
  open L use {Store, next_slot}

  -- A vote out of turn, whatever the priority.
  unfoldable pub handle_leadership_takeover : Surroundings → Server Store → Server Store
  unfolding is_leading initiate_vote await_votes
  handle_leadership_takeover env s =
      if is_leading s then s else await_votes L (initiate_vote L env true s)

  unfoldable pub take_notification :
      Surroundings
      → ReqMsg
      → CustomNotification
      → RespMsg
      → Server Store
      → Server Store × Option RespMsg
  unfolding handle_out_of_log_msg handle_leadership_takeover handle_resignation_request
  take_notification env req m resp s =
      if m.notification_type == out_of_log_range_warning
      then handle_out_of_log_msg req m.ctx resp s
      else if m.notification_type == leadership_takeover
      then (handle_leadership_takeover env s, some resp)
      else if m.notification_type == request_resignation
      then (handle_resignation_request env req s, some resp)
      else (s, some resp)

  -- The answer has the term from before the notification. Only the first entry is read.
  unfoldable pub handle_custom_notification_req :
      Surroundings → ReqMsg → Server Store → Server Store × Option RespMsg
  unfolding take_notification notification_of
  handle_custom_notification_req env req s =
      let slot = next_slot s.log_store in
      let resp =
        accept (new_resp s.state.term custom_notification_response s.id req.src slot) slot in
      elim req.log_entries [
        | [] ↦ (s, some resp)
        | entry ∷ more ↦ elim (notification_of entry.buff) [
          | ok m ↦ take_notification env req m resp s
          | throw e ↦ (s, none)
        ]
      ]
