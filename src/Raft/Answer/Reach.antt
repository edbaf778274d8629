-- ===== src/Raft/Answer/Reach.antt =====
-- A server over any sequence of events: requests (`process_req`), answers (`handle_peer_resp`),
-- timers (src/handle_timeout.cxx) and elections (src/handle_vote.cxx), reports of the log store
-- (src/handle_append_entries.cxx), notifications (src/handle_custom_notification.cxx), requests of
-- clients (src/handle_client_request.cxx) and changes of the membership (src/handle_join_leave.cxx).
-- Left out is a request to join: it takes the vote away.
use nu_raft.Common.{none, ℕ, ◌+◌, ◌^◌, ◌≡◌, ◌≢◌, ◌≤◌, ◌<◌, refl, ◌∙◌, Bool, inl, inr, if_elim, ltb}
use nu_raft.Raft.Types.{ReqMsg, RespMsg, no_server, is_leader}
use nu_raft.Raft.LogStore.{LogStore, LogPack}
use nu_raft.Raft.Server.{Server, emit}
use nu_raft.Raft.Quorum.{get_expected_committed_log_idx}
use nu_raft.Raft.Follower.{Answers, commit}
use nu_raft.Raft.Leader.{Surroundings}
use nu_raft.Raft.Leader.State.{state-commit, state-request_append_for_all}
use nu_raft.Raft.Leader.Response.{notify_log_append_completion}
use nu_raft.Raft.Election.{request_prevote, initiate_vote}
use nu_raft.Raft.Election.State.{Campaign-Later, state-request_prevote, initiate_vote-Campaign}
use nu_raft.Raft.Process.{process_req}
use nu_raft.Raft.Process.Term.{Later}
use nu_raft.Raft.Process.VoteOnce.{Later-refl, Later-trans, Later-of, process_req-Step}
use nu_raft.Raft.Notice.{handle_custom_notification_req}
use nu_raft.Raft.Notice.Kept.{handle_custom_notification_req-Later}
use nu_raft.Raft.Answer.{handle_peer_resp}
use nu_raft.Raft.Answer.Later.{handle_peer_resp-Later}
use nu_raft.Raft.ClientRequest.{CliParams, handle_cli_req_prelock}
use nu_raft.Raft.ClientRequest.State.{state-handle_cli_req_prelock}
use nu_raft.Raft.Membership.{handle_add_srv_req}
use nu_raft.Raft.Membership.Join.{
  handle_join_cluster_resp, handle_log_sync_req, handle_log_sync_resp,
}
use nu_raft.Raft.Membership.Leave.{
  handle_rm_srv_req, handle_leave_cluster_req, handle_leave_cluster_resp, handle_join_rpc_err,
  handle_leave_rpc_err,
}
use nu_raft.Raft.Membership.State.{
  state-handle_join_cluster_resp, state-handle_leave_cluster_resp, state-handle_log_sync_req,
  state-handle_log_sync_resp, state-handle_join_rpc_err, state-handle_leave_rpc_err,
}
use nu_raft.Raft.Membership.Requests.{
  state-handle_add_srv_req, state-handle_rm_srv_req, state-handle_leave_cluster_req,
}
use nu_raft.Raft.Timeout.{handle_election_timeout, handle_hb_timeout}
use nu_raft.Raft.Timeout.Later.{handle_election_timeout-Later, state-handle_hb_timeout}
use nu_raft.Raft.Leadership.{check_leadership_transfer}
use nu_raft.Raft.Leadership.State.{state-check_leadership_transfer, state-become_follower}

pub data Event : Type 0 where
  request : ReqMsg → Answers → Event
  answer : Surroundings → RespMsg → Event
  -- The timer, and a pre-vote without it.
  election_timeout : Surroundings → Event
  prevote_start : Surroundings → Event
  heartbeat_timeout : Surroundings → ℕ → Event
  overall_check : Surroundings → Event
  vote_start : Surroundings → Bool → Event
  append_report : Surroundings → Bool → Event
  notification : Surroundings → ReqMsg → Event
  client_request : Surroundings → CliParams → ReqMsg → Event
  add_request : ReqMsg → Event
  remove_request : ReqMsg → Event
  leave_request : ReqMsg → Event
  join_answer : Surroundings → Bool → RespMsg → Event
  leave_answer : Surroundings → RespMsg → Event
  sync_request : ReqMsg → Event
  sync_answer : Surroundings → RespMsg → Event
  join_failed : ℕ → Event
  leave_failed : Surroundings → ℕ → Event

module _ (L : LogStore) (P : LogPack L) where
  open L use {Store}

  unfoldable pub handle : Event → Server Store → Server Store
  unfolding process_req handle_peer_resp request_prevote initiate_vote notify_log_append_completion
      handle_custom_notification_req handle_election_timeout handle_hb_timeout
      check_leadership_transfer handle_cli_req_prelock handle_add_srv_req handle_rm_srv_req
      handle_leave_cluster_req handle_join_cluster_resp handle_leave_cluster_resp
      handle_log_sync_req handle_log_sync_resp handle_join_rpc_err handle_leave_rpc_err
  handle (request req answers) s = (process_req L (λ other t. (t, none)) req answers s).0
  handle (answer env resp) s = handle_peer_resp L env resp s
  handle (election_timeout env) s = handle_election_timeout L env s
  handle (prevote_start env) s = request_prevote L env s
  handle (heartbeat_timeout env id) s = handle_hb_timeout L P env id s
  handle (vote_start env force_vote) s = initiate_vote L env force_vote s
  handle (overall_check env) s = check_leadership_transfer env s
  handle (append_report env done) s = notify_log_append_completion L env done s
  handle (notification env req) s = (handle_custom_notification_req L env req s).0
  handle (client_request env ext req) s = (handle_cli_req_prelock L env ext req s).0
  handle (add_request req) s = (handle_add_srv_req L req s).0
  handle (remove_request req) s = (handle_rm_srv_req L req s).0
  handle (leave_request req) s = (handle_leave_cluster_req L req s).0
  handle (join_answer env from_it resp) s = handle_join_cluster_resp L P env from_it resp s
  handle (leave_answer env resp) s = handle_leave_cluster_resp L env resp s
  handle (sync_request req) s = (handle_log_sync_req L P req s).0
  handle (sync_answer env resp) s = handle_log_sync_resp L P env resp s
  handle (join_failed id) s = handle_join_rpc_err L id s
  handle (leave_failed env id) s = handle_leave_rpc_err L env id s

  -- `t` is reached from `s`, with every next term on the way a number of 64 bits.
  pub data Reach (s : Server Store) : Server Store → Type 0 where
    at_start : Reach s s
    go_on :
        {t : Server Store}
        → Reach s t
        → (e : Event) → t.state.term + 1 < 2 ^ 64
        → Reach s (handle e t)

  state-notify_log_append_completion :
      (env : Surroundings) (done : Bool) (s : Server Store)
      → (notify_log_append_completion L env done s).state ≡ s.state
  unfolding notify_log_append_completion emit
  state-notify_log_append_completion env done s =
      if_elim same (is_leader s.role)
        (if_elim same done
          (if_elim same (ltb s.quick_commit_index committed.quick_commit_index)
            (state-request_append_for_all committed.peers committed ∙ kept) kept)
          (state-become_follower (record s { leader_id = no_server })))
        (if_elim same done refl refl)
    where
      same : Server Store → Type 0
      same t = t.state ≡ s.state

      target : ℕ
      target = get_expected_committed_log_idx env.sort env.adjust env.durable_index s

      committed : Server Store
      committed = commit L target s

      kept : committed.state ≡ s.state
      kept = state-commit L target s

  handle-Later :
      (e : Event) (s : Server Store) → s.state.term + 1 < 2 ^ 64 → Later s.state (handle e s).state
  unfolding handle
  handle-Later (request req answers) s fits =
      (process_req-Step L (λ other t. (t, none)) req answers s (λ u e. Later-refl u.state)).later
  handle-Later (answer env resp) s fits = handle_peer_resp-Later L env resp s fits
  handle-Later (election_timeout env) s fits = handle_election_timeout-Later L env s fits
  handle-Later (prevote_start env) s fits = Later-of (state-request_prevote L env s)
  handle-Later (heartbeat_timeout env id) s fits = Later-of (state-handle_hb_timeout L P env id s)
  handle-Later (vote_start env force_vote) s fits =
      Campaign-Later L s _ fits (initiate_vote-Campaign L env force_vote s)
  handle-Later (overall_check env) s fits = Later-of (state-check_leadership_transfer env s)
  handle-Later (append_report env done) s fits =
      Later-of (state-notify_log_append_completion env done s)
  handle-Later (notification env req) s fits = handle_custom_notification_req-Later L env req s fits
  handle-Later (client_request env ext req) s fits =
      Later-of (state-handle_cli_req_prelock L env ext req s)
  handle-Later (add_request req) s fits = Later-of (state-handle_add_srv_req L req s)
  handle-Later (remove_request req) s fits = Later-of (state-handle_rm_srv_req L req s)
  handle-Later (leave_request req) s fits = Later-of (state-handle_leave_cluster_req L req s)
  handle-Later (join_answer env from_it resp) s fits =
      Later-of (state-handle_join_cluster_resp L P env from_it resp s)
  handle-Later (leave_answer env resp) s fits =
      Later-of (state-handle_leave_cluster_resp L env resp s)
  handle-Later (sync_request req) s fits = Later-of (state-handle_log_sync_req L P req s)
  handle-Later (sync_answer env resp) s fits = Later-of (state-handle_log_sync_resp L P env resp s)
  handle-Later (join_failed id) s fits = Later-of (state-handle_join_rpc_err L id s)
  handle-Later (leave_failed env id) s fits = Later-of (state-handle_leave_rpc_err L env id s)

  Reach-Later : (s t : Server Store) → Reach s t → Later s.state t.state
  Reach-Later s t at_start = Later-refl s.state
  Reach-Later s t (go_on {t = u} r e fits) = Later-trans (Reach-Later s u r) (handle-Later e u fits)

  -- Over any sequence of requests and answers between servers, requests of clients, changes of the
  -- membership, notifications, timeouts, elections of the server's own and reports of the log store,
  -- without requests to join and while terms are numbers of 64 bits: the term does not fall, and a
  -- vote that a server has given in a term, to another or to itself, is its vote as long as that
  -- term lasts.
  pub Reach-vote :
      (s t : Server Store)
      → Reach s t
      → (s.state.term ≤ t.state.term)
        × (s.state.term ≡ t.state.term
            → s.state.voted_for ≢ no_server
            → t.state.voted_for ≡ s.state.voted_for)
  Reach-vote s t r = (l.term, λ same gave. kept same gave)
    where
      l : Later s.state t.state
      l = Reach-Later s t r

      kept :
          s.state.term ≡ t.state.term
          → s.state.voted_for ≢ no_server
          → t.state.voted_for ≡ s.state.voted_for
      kept same gave = elim (l.vote same) [ inl open_vote ↦ absurd (gave open_vote) | inr e ↦ e ]
