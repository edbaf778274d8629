-- ===== src/Raft/Election.antt =====
-- The candidate's side of an election: src/handle_vote.cxx. Whether a peer's connection is to be
-- renewed is one answer of the surroundings for all peers.
pub mod State
pub mod Asked
use nu_raft.Common.{
  ℕ, zero, suc, ◌+◌, ◌-◌, ◌*◌, ◌%◌, ◌^◌, Bool, true, false, not, ◌&&◌, ◌||◌, Option, none, some,
  List, [], ◌∷◌, length, ltb, leb, ◌==◌, if◌then◌else◌,
}
use nu_raft.Raft.Types.{
  candidate, is_leader, ReqMsg, RespMsg, LogEntry, custom, MsgType, pre_vote_request,
  request_vote_request, no_server, lt_i32,
}
use nu_raft.Raft.LogStore.{LogStore}
use nu_raft.Raft.Server.{
  Server, Peer, Effect, emit, send, save_state, restart_election_timer, reconnect,
  restart_grace_period, reconnect_request, removed_callback, reset_pre_vote,
}
use nu_raft.Raft.Quorum.{is_regular_member, get_num_voting_members, get_quorum_for_election}
use nu_raft.Raft.Follower.{is_some, term_for_log}
use nu_raft.Raft.Leader.{Surroundings, update_peer, new_req}
use nu_raft.Raft.Leader.Become.{become_leader}
use nu_raft.Config.{get_server}

-- The force-vote message: its version.
abbrev pub force_vote_entry : LogEntry
force_vote_entry = record { term = 0; value_type = custom; buff = 0 ∷ [] }

module _ {S : Type 0} where
  -- A member of priority 0 may stand in where nobody else is left.
  pub check_cond_for_zp_election : Surroundings → Server S → Bool
  check_cond_for_zp_election env s =
      s.params.allow_temporary_zero_priority_leader
      && s.target_priority == 1
      && s.my_priority == 0
      && env.priority_settled

  renew_connections : Surroundings → List Peer → Server S → Server S
  unfolding emit is_regular_member get_server is_some
  renew_connections env [] s = s
  renew_connections env (p ∷ ps) s = renew_connections env ps (
      if is_regular_member s p
        && is_some (get_server s.config p.id)
        && (s.hb_alive
            || env.need_to_reconnect
            || ltb (s.params.heart_beat_interval * s.params.reconnect_limit) p.active_elapsed_ms)
      then emit (reconnect p.id) s
      else s)

  -- To every voter that is free.
  send_to_voters : (Peer → ReqMsg) → List Peer → Server S → Server S
  unfolding emit is_regular_member update_peer
  send_to_voters f [] s = s
  send_to_voters f (p ∷ ps) s = send_to_voters f ps (
      if is_regular_member s p && not p.busy
      then emit (send (f p)) (record s { peers = update_peer (record p { busy = true }) s.peers })
      else s)

  -- The last pre-vote is looked at before a new one begins: too few voters answered it.
  count_failure : Server S → Server S
  unfolding get_quorum_for_election
  count_failure s =
      if ltb 0 (s.pre_vote.live + s.pre_vote.dead)
      then record s {
        pre_vote = record (s.pre_vote) {
          failure_count =
              if ltb (s.pre_vote.live + s.pre_vote.dead) (get_quorum_for_election s + 1)
              then s.pre_vote.failure_count + 1
              else 0;
        };
      }
      else s

  -- A cluster of two whose other server is down goes on with one.
  shrink_quorum : Surroundings → Server S → Server S
  shrink_quorum env s =
      if s.params.auto_adjust_quorum_for_small_cluster
        && get_num_voting_members s == 2
        && ltb s.params.vote_limit s.pre_vote.failure_count
        && env.adjustment_allowed
      then record s {
        params = record (s.params) {
          custom_commit_quorum_size = 1;
          custom_election_quorum_size = 1;
        };
      }
      else s

  -- A candidate, that counts itself among those that see no leader.
  begin_prevote : Server S → Server S
  begin_prevote s = record s {
    hb_alive = false;
    leader_id = no_server;
    role = candidate;
    index_at_becoming_leader = 0;
    pre_vote = record (reset_pre_vote s.pre_vote s.state.term) { dead = 1 };
  }

module _ (L : LogStore) where
  open L use {Store, next_slot}

  voter_req : MsgType → List LogEntry → Server Store → Peer → ReqMsg
  unfolding term_for_log
  voter_req type entries s p =
      let last = next_slot s.log_store - 1 in
      new_req s.state.term type s.id p.id (term_for_log L s last) last s.quick_commit_index entries

  -- A server of low priority waits.
  ask_prevotes : Surroundings → Server Store → Server Store
  unfolding check_cond_for_zp_election send_to_voters voter_req emit
  ask_prevotes env s =
      if lt_i32 s.my_priority s.target_priority && not (check_cond_for_zp_election env s)
      then emit restart_election_timer s
      else send_to_voters (voter_req pre_vote_request [] s) s.peers s

  unfoldable pub request_prevote : Surroundings → Server Store → Server Store
  unfolding renew_connections count_failure shrink_quorum begin_prevote ask_prevotes
  request_prevote env s =
      ask_prevotes env
        (begin_prevote (shrink_quorum env (count_failure (renew_connections env s.peers s))))

  -- The first vote is the server's own, and it is saved.
  vote_for_self : Server Store → Server Store
  unfolding emit
  vote_for_self s =
      let voted : Server Store = record s {
        state = record (s.state) { voted_for = s.id };
        votes_granted = s.votes_granted + 1;
        votes_responded = s.votes_responded + 1;
      } in
      emit (save_state voted.state) voted

  -- The only voter wins at once.
  ask_votes : Surroundings → List LogEntry → Server Store → Server Store
  unfolding become_leader send_to_voters voter_req get_quorum_for_election
  ask_votes env entries s =
      if ltb (get_quorum_for_election s) s.votes_granted
      then become_leader L env (record s { election_completed = true })
      else send_to_voters (voter_req request_vote_request entries s) s.peers s

  unfoldable pub request_vote : Surroundings → Bool → Server Store → Server Store
  unfolding ask_votes vote_for_self
  request_vote env force_vote s =
      ask_votes env (if force_vote then force_vote_entry ∷ [] else []) (vote_for_self s)

  -- The state machine lags behind, and gets some time. The grace period starts once in a term.
  in_grace : Surroundings → Bool → Server Store → Bool
  in_grace env force_vote s =
      not force_vote
      && not (s.params.grace_period == 0)
      && ltb s.sm_commit_index s.lagging_sm_target_index

  note_grace : Server Store → Server Store
  unfolding emit
  note_grace s =
      if s.vote_init_timer_term == s.state.term
      then s
      else emit restart_grace_period (record s { vote_init_timer_term = s.state.term })

  may_stand : Surroundings → Bool → Server Store → Bool
  unfolding check_cond_for_zp_election get_quorum_for_election
  may_stand env force_vote s =
      not (lt_i32 s.my_priority s.target_priority)
      || force_vote
      || check_cond_for_zp_election env s
      || (get_quorum_for_election s == 0 && lt_i32 0 s.my_priority)

  -- A candidate of the next term, with no votes.
  unfoldable pub next_term : Server Store → Server Store
  next_term s = record s {
    state = record (s.state) { term = (s.state.term + 1) % 2 ^ 64; voted_for = no_server };
    role = candidate;
    index_at_becoming_leader = 0;
    votes_granted = 0;
    votes_responded = 0;
    election_completed = false;
  }

  without_leader : Server Store → Server Store
  without_leader s =
      if is_leader s.role then s else record s { hb_alive = false; leader_id = no_server }

  stand : Surroundings → Bool → Server Store → Server Store
  unfolding may_stand next_term request_vote without_leader
  stand env force_vote s =
      without_leader
        (if may_stand env force_vote s then request_vote env force_vote (next_term s) else s)

  unfoldable pub initiate_vote : Surroundings → Bool → Server Store → Server Store
  unfolding in_grace note_grace stand
  initiate_vote env force_vote s =
      if in_grace env force_vote s
      then (if not (s.vote_init_timer_term == s.state.term) || not env.grace_over
          then note_grace s
          else stand env force_vote (note_grace s))
      else stand env force_vote s

  -- One more answer, and one more vote if it is one.
  unfoldable pub count_vote : RespMsg → Server Store → Server Store
  unfolding get_num_voting_members
  count_vote resp s = record s {
    votes_responded = s.votes_responded + 1;
    votes_granted = if resp.accepted then s.votes_granted + 1 else s.votes_granted;
    election_completed =
        leb (get_num_voting_members s) (s.votes_responded + 1) || s.election_completed;
  }

  unfoldable pub handle_vote_resp : Surroundings → RespMsg → Server Store → Server Store
  unfolding count_vote become_leader get_quorum_for_election
  handle_vote_resp env resp s =
      if s.election_completed || not (resp.term == s.state.term)
      then s
      else (let counted = count_vote resp s in
          if leb (get_quorum_for_election counted + 1) counted.votes_granted
          then become_leader L env (record counted { election_completed = true })
          else counted)

  -- Who sees no leader, who does, and who knows nothing of this server any more.
  count_prevote : RespMsg → Server Store → Server Store
  count_prevote resp s = record s {
    pre_vote =
        if resp.accepted
        then record (s.pre_vote) { dead = s.pre_vote.dead + 1 }
        else if not (resp.next_idx == 2 ^ 64 - 1)
        then record (s.pre_vote) { live = s.pre_vote.live + 1 }
        else record (s.pre_vote) { gone = s.pre_vote.gone + 1 };
  }

  -- The vote itself, once; without it the timer goes on.
  unfoldable pub await_votes : Server Store → Server Store
  unfolding emit
  await_votes s = if is_leader s.role then s else emit restart_election_timer s

  prevote_won : Surroundings → Server Store → Server Store
  unfolding initiate_vote await_votes
  prevote_won env s =
      if s.pre_vote.is_done
      then s
      else await_votes
          (initiate_vote env false (record s { pre_vote = record (s.pre_vote) { is_done = true } }))

  prevote_rejected : Server Store → Server Store
  unfolding emit
  prevote_rejected s =
      let counted : Server Store = record s {
        pre_vote = record (s.pre_vote) { quorum_reject_count = s.pre_vote.quorum_reject_count + 1 };
      } in
      if leb s.params.pre_vote_rejection_limit counted.pre_vote.quorum_reject_count
      then emit reconnect_request counted
      else counted

  -- Each count is compared as it is then; the quorum was taken before.
  judge_prevote : Surroundings → ℕ → Server Store → Server Store
  unfolding prevote_won
  judge_prevote env quorum s = if leb quorum s.pre_vote.dead then prevote_won env s else s

  judge_rejection : ℕ → Server Store → Server Store
  unfolding prevote_rejected emit
  judge_rejection quorum s =
      let rejected = if leb quorum s.pre_vote.live then prevote_rejected s else s in
      if leb quorum rejected.pre_vote.gone
      then emit removed_callback (record rejected { steps_to_down = 2 })
      else rejected

  unfoldable pub handle_prevote_resp : Surroundings → RespMsg → Server Store → Server Store
  unfolding count_prevote judge_prevote judge_rejection get_quorum_for_election
  handle_prevote_resp env resp s =
      let counted = count_prevote resp s in
      let quorum = get_quorum_for_election counted + 1 in
      if not (resp.term == s.pre_vote.term)
      then s
      else judge_rejection quorum (judge_prevote env quorum counted)
