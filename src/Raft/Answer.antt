-- ===== src/Raft/Answer.antt =====
-- What a server does with the answers of its peers: `raft_server::handle_peer_resp` of
-- src/raft_server.cxx, where there is an answer. Answers about snapshots are not followed
-- further; those to pings and priorities change nothing.

pub mod Later
pub mod Reach
pub mod Tests
use nu_raft.Common.{
  ℕ, ◌+◌, Bool, true, false, Option, none, some, List, [], ◌∷◌, ◌==◌, if◌then◌else◌,
}
use nu_raft.Raft.Types.{
  MsgType, priority_change_request, priority_change_response, reconnect_request, reconnect_response,
  custom_notification_request, custom_notification_response, pre_vote_response,
  request_vote_response, append_entries_response, RespMsg,
}
use nu_raft.Raft.LogStore.{LogStore}
use nu_raft.Raft.Server.{Server, Peer, update_term}
use nu_raft.Raft.Notice.{handle_custom_notification_resp}
use nu_raft.Raft.Leader.{Surroundings, find_peer, update_peer}
use nu_raft.Raft.Leader.Response.{handle_append_entries_resp}
use nu_raft.Raft.Election.{handle_vote_resp, handle_prevote_resp}

-- The types up to `other_response`.
pub is_valid_msg : MsgType → Bool
is_valid_msg priority_change_request = false
is_valid_msg priority_change_response = false
is_valid_msg reconnect_request = false
is_valid_msg reconnect_response = false
is_valid_msg custom_notification_request = false
is_valid_msg custom_notification_response = false
is_valid_msg _ = true

-- Which handler takes an answer.
pub data Taker : Type 0 where
  prevote_taker vote_taker append_taker notice_taker no_taker : Taker

pub taker_of : MsgType → Taker
taker_of pre_vote_response = prevote_taker
taker_of request_vote_response = vote_taker
taker_of append_entries_response = append_taker
taker_of custom_notification_response = notice_taker
taker_of _ = no_taker

module _ {S : Type 0} where
  pub reset_resp_timer : RespMsg → Server S → Server S
  unfolding find_peer update_peer
  reset_resp_timer resp s =
      if resp.accepted
      then elim (find_peer resp.src s.peers) [
        | none ↦ s
        | some p ↦ record s { peers = update_peer (record p { resp_elapsed_ms = 0 }) s.peers }
      ]
      else s

module _ (L : LogStore) where
  open L use {Store}

  pub take_resp : Taker → Surroundings → RespMsg → Server Store → Server Store
  unfolding handle_prevote_resp handle_vote_resp handle_append_entries_resp
      handle_custom_notification_resp
  take_resp prevote_taker env resp s = handle_prevote_resp L env resp s
  take_resp vote_taker env resp s = handle_vote_resp L env resp s
  take_resp append_taker env resp s = handle_append_entries_resp L env resp s
  take_resp notice_taker env resp s = handle_custom_notification_resp resp s
  take_resp no_taker env resp s = s

  -- With a newer term there is nothing else to do.
  unfoldable pub handle_peer_resp : Surroundings → RespMsg → Server Store → Server Store
  unfolding reset_resp_timer update_term is_valid_msg taker_of take_resp
  handle_peer_resp env resp s =
      let timed = reset_resp_timer resp s in
      let (updated, is_new) = update_term resp.term timed in
      if is_valid_msg resp.msg_type
      then (if is_new then updated else take_resp (taker_of resp.msg_type) env resp updated)
      else take_resp (taker_of resp.msg_type) env resp timed
