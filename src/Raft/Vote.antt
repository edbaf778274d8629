-- ===== src/Raft/Vote.antt =====
-- The voters' side of an election: src/handle_vote.cxx.
pub mod Grant
pub mod Compacted
use nu_raft.Common.{
  ℕ, ◌+◌, ◌-◌, ◌^◌, Bool, true, false, not, ◌&&◌, ◌||◌, List, [], ◌∷◌, ltb, leb, ◌==◌,
  if◌then◌else◌,
}
use nu_raft.Raft.Types.{
  ReqMsg, RespMsg, LogEntry, no_server, new_resp, accept, lt_i32, request_vote_response,
  pre_vote_response,
}
use nu_raft.Raft.LogStore.{LogStore}
use nu_raft.Raft.Server.{Server, Peer, Effect, emit, save_state}
use nu_raft.Config.{ClusterConfig, SrvConfig}

-- A force vote comes with an entry, whatever it says.
pub is_force_vote : List LogEntry → Bool
is_force_vote [] = false
is_force_vote (e ∷ es) = true

-- A member of priority 0 is not held back: it starts an election only on purpose.
unfoldable pub has_low_priority : ℕ → ℕ → List SrvConfig → Bool
has_low_priority src target [] = false
has_low_priority src target (c ∷ cs) =
    (c.id == src && not (c.priority == 0) && lt_i32 c.priority target)
    || has_low_priority src target cs

pub has_peer : ℕ → List Peer → Bool
has_peer src [] = false
has_peer src (p ∷ ps) = p.id == src || has_peer src ps

module _ (L : LogStore) where
  open L use {Store, next_slot, last_term}

  -- The candidate's log is no older than the server's.
  unfoldable pub is_up_to_date : ReqMsg → Server Store → Bool
  is_up_to_date req s =
      ltb (last_term s.log_store) req.last_log_term
      || (req.last_log_term == last_term s.log_store
          && leb (next_slot s.log_store - 1) req.last_log_idx)

  pub can_grant : ReqMsg → Server Store → Bool
  unfolding is_up_to_date
  can_grant req s =
      req.term == s.state.term
      && is_up_to_date req s
      && (s.state.voted_for == req.src || s.state.voted_for == no_server)

  pub ignores_priority : ReqMsg → Server Store → Bool
  unfolding is_force_vote
  ignores_priority req s = is_force_vote req.log_entries || s.catching_up

  -- The vote is saved before the answer goes out.
  pub grant : ReqMsg → Server Store → Server Store
  unfolding emit
  grant req s =
      let voted : Server Store = record s { state = record (s.state) { voted_for = req.src } } in
      emit (save_state voted.state) voted

  unfoldable pub handle_vote_req : ReqMsg → Server Store → Server Store × RespMsg
  unfolding can_grant ignores_priority has_low_priority grant
  handle_vote_req req s =
      let resp = new_resp s.state.term request_vote_response s.id req.src 0 in
      if can_grant req s
      then (if not (ignores_priority req s)
            && has_low_priority req.src s.target_priority s.config.servers
          then (s, resp)
          else (grant req s, accept resp (next_slot s.log_store)))
      else (s, resp)

  -- Nothing changes. A server that is no peer any more is told so by the greatest index.
  unfoldable pub handle_prevote_req : ReqMsg → Server Store → RespMsg
  unfolding has_peer
  handle_prevote_req req s =
      let resp =
        new_resp req.term pre_vote_response s.id req.src
          (if has_peer req.src s.peers then 0 else 2 ^ 64 - 1) in
      if not s.hb_alive || s.catching_up then accept resp (next_slot s.log_store) else resp
