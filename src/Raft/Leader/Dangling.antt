-- ===== src/Raft/Leader/Dangling.antt =====
-- The order of the checks in `handle_append_entries_resp` of src/handle_append_entries.cxx.
use nu_raft.Common.{ℕ, ◌*◌, ◌≡◌, ◌<◌, refl, ap, ◌∙◌, none, some, lt→ltb}
use nu_raft.Raft.Types.{RespMsg}
use nu_raft.Raft.LogStore.{LogStore}
use nu_raft.Raft.Server.{Server, Peer, emit, undefined_behavior}
use nu_raft.Raft.Leader.{Surroundings, find_peer}
use nu_raft.Raft.Leader.Response.{
  erase_peer, drop_leaving, check_srv_to_leave_timeout, checked_response,
  handle_append_entries_resp,
}

module _ (L : LogStore) where
  open L use {Store}

  checked_response-dangling :
      (env : Surroundings) (resp : RespMsg) (s : Server Store)
      → find_peer resp.src s.peers ≡ none
      → checked_response L env resp s ≡ emit undefined_behavior s
  unfolding checked_response
  checked_response-dangling env resp s gone = rw (checked_response, gone) refl

  check_srv_to_leave_timeout-late :
      (id : ℕ) (s : Server Store) (p : Peer)
      → s.srv_to_leave ≡ some id
      → find_peer id s.peers ≡ some p
      → s.params.leave_limit * s.params.heart_beat_interval < p.resp_elapsed_ms
      → check_srv_to_leave_timeout L s ≡ drop_leaving L id s
  unfolding check_srv_to_leave_timeout
  check_srv_to_leave_timeout-late id s p leaves there late =
      rw (check_srv_to_leave_timeout, leaves) (rw there (rw (lt→ltb _ _ late) refl))

  -- An answer comes from the server that is to leave, whose last successful response is longer ago
  -- than the limit, and which is in the list of peers once. Then the peer is erased while the
  -- handler holds an iterator to it, and the handler goes on with that iterator.
  pub handle_append_entries_resp-dangling :
      (env : Surroundings) (resp : RespMsg) (s : Server Store) (p : Peer)
      → s.srv_to_leave ≡ some resp.src
      → find_peer resp.src s.peers ≡ some p
      → find_peer resp.src (erase_peer resp.src s.peers) ≡ none
      → s.params.leave_limit * s.params.heart_beat_interval < p.resp_elapsed_ms
      → handle_append_entries_resp L env resp s
        ≡ emit undefined_behavior (drop_leaving L resp.src s)
  unfolding handle_append_entries_resp
  handle_append_entries_resp-dangling env resp s p leaves there once late =
      rw (there, handle_append_entries_resp)
        (ap (checked_response L env resp) dropped
          ∙ checked_response-dangling env resp (drop_leaving L resp.src s)
              (unfold drop_leaving in once))
    where
      dropped : check_srv_to_leave_timeout L s ≡ drop_leaving L resp.src s
      dropped = check_srv_to_leave_timeout-late resp.src s p leaves there late
