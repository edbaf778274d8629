-- ===== src/Raft/Process.antt =====
-- `raft_server::process_req` of src/raft_server.cxx: what is done with every request, and which
-- handler takes it.
pub mod Term
pub mod VoteOnce
use nu_raft.Common.{
  ℕ, ◌+◌, Bool, true, false, not, ◌&&◌, ◌||◌, Option, none, some, List, [], ◌∷◌, ltb, ◌==◌,
  if◌then◌else◌,
}
use nu_raft.Raft.Types.{
  MsgType, append_entries_request, request_vote_request, pre_vote_request, ping_request,
  ping_response, install_snapshot_request, ReqMsg, RespMsg, new_resp,
}
use nu_raft.Raft.LogStore.{LogStore}
use nu_raft.Raft.Server.{Server, update_term, decay_target_priority}
use nu_raft.Raft.Follower.{Answers, handle_append_entries}
use nu_raft.Raft.Vote.{handle_vote_req, handle_prevote_req}

-- The requests that carry their sender's term to the server.
pub carries_term : MsgType → Bool
carries_term append_entries_request = true
carries_term request_vote_request = true
carries_term install_snapshot_request = true
carries_term _ = false

pub is_vote_request : MsgType → Bool
is_vote_request request_vote_request = true
is_vote_request _ = false

-- Which handler takes a message. The others (client requests, membership, snapshots, priorities and
-- notifications) go to handlers that are an argument here.
pub data Handler : Type 0 where
  append_handler vote_handler prevote_handler ping_handler other_handler : Handler

unfoldable pub handler_of : MsgType → Handler
handler_of append_entries_request = append_handler
handler_of request_vote_request = vote_handler
handler_of pre_vote_request = prevote_handler
handler_of ping_request = ping_handler
handler_of _ = other_handler

module _ {S : Type 0} where
  -- A voter that sees a newer term while no leader is alive lowers its target priority. A server
  -- that is about to go down gets some more time.
  pub take_term : ReqMsg → Server S → Server S
  unfolding update_term decay_target_priority is_vote_request
  take_term req s =
      let (updated, is_new) = update_term req.term s in
      let decayed : Server S =
        if not updated.im_learner && not updated.hb_alive && is_new && is_vote_request req.msg_type
        then decay_target_priority updated
        else updated in
      if ltb 0 decayed.steps_to_down then record decayed { steps_to_down = 2 } else decayed

-- The handlers of the other requests.
abbrev pub Others : Type 0 → Type 0
Others S = ReqMsg → Server S → Server S × Option RespMsg

module _ (L : LogStore) where
  open L use {Store}

  pub dispatch :
      Others Store → Handler → ReqMsg → Answers → Server Store → Server Store × Option RespMsg
  unfolding handle_append_entries handle_vote_req handle_prevote_req
  dispatch others append_handler req answers s = handle_append_entries L req answers s
  dispatch others vote_handler req answers s =
      let (s', resp) = handle_vote_req L req s in (s', some resp)
  dispatch others prevote_handler req answers s = (s, some (handle_prevote_req L req s))
  dispatch others ping_handler req answers s =
      (s, some (new_resp s.state.term ping_response s.id req.src 0))
  dispatch others other_handler req answers s = others req s

  unfoldable pub process_req :
      Others Store → ReqMsg → Answers → Server Store → Server Store × Option RespMsg
  unfolding take_term carries_term handler_of dispatch
  process_req others req answers s =
      if not answers.request_accepted || s.stopping
      then (s, none)
      else dispatch others (handler_of req.msg_type) req answers
          (if carries_term req.msg_type then take_term req s else s)
