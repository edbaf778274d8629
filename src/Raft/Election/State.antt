-- ===== src/Raft/Election/State.antt =====
-- The term and the vote of a candidate (src/handle_vote.cxx): an election is a step to the next
-- term with a vote for the server itself, and nothing else of an election touches them.
use nu_raft.Common.{
  ℕ, ◌+◌, ◌%◌, ◌^◌, ◌≡◌, ◌<◌, refl, ap, ◌∙◌, arith, Bool, true, false, not, ◌||◌, List, [], ◌∷◌,
  ◌==◌, leb, ltb, Bool-cases, if_elim, inl, inr,
}
use nu_raft.Raft.Types.{ReqMsg, RespMsg, SrvState, LogEntry, request_vote_request, pre_vote_request}
use nu_raft.Raft.LogStore.{LogStore}
use nu_raft.Raft.Server.{Server, Peer}
use nu_raft.Raft.Quorum.{get_quorum_for_election}
use nu_raft.Raft.Leader.{Surroundings}
use nu_raft.Raft.Leader.State.{state-become_leader}
use nu_raft.Raft.Election.{
  renew_connections, send_to_voters, count_failure, shrink_quorum, begin_prevote, voter_req,
  ask_prevotes, vote_for_self, ask_votes, without_leader, await_votes, judge_prevote,
  judge_rejection, request_prevote, request_vote, in_grace, note_grace, may_stand, next_term, stand,
  initiate_vote, count_vote, handle_vote_resp, count_prevote, prevote_won, prevote_rejected,
  handle_prevote_resp,
}
use nu_raft.Raft.Process.Term.{Later}
use nu_raft.Raft.Process.VoteOnce.{Later-of}

module _ {S : Type 0} where
  state-renew_connections :
      (env : Surroundings) (ps : List Peer) (s : Server S)
      → (renew_connections env ps s).state ≡ s.state
  unfolding renew_connections
  state-renew_connections env [] s = refl
  state-renew_connections env (p ∷ ps) s = state-renew_connections env ps _ ∙ ground arith

  state-send_to_voters :
      (f : Peer → ReqMsg) (ps : List Peer) (s : Server S) → (send_to_voters f ps s).state ≡ s.state
  unfolding send_to_voters
  state-send_to_voters f [] s = refl
  state-send_to_voters f (p ∷ ps) s = state-send_to_voters f ps _ ∙ ground arith

  state-count_failure : (s : Server S) → (count_failure s).state ≡ s.state
  unfolding count_failure
  state-count_failure s = ground arith

  state-shrink_quorum : (env : Surroundings) (s : Server S) → (shrink_quorum env s).state ≡ s.state
  unfolding shrink_quorum
  state-shrink_quorum env s = ground arith

  state-begun :
      (env : Surroundings) (s : Server S)
      → (begin_prevote (shrink_quorum env (count_failure (renew_connections env s.peers s)))).state
        ≡ s.state
  unfolding begin_prevote
  state-begun env s =
      state-shrink_quorum env (count_failure (renew_connections env s.peers s))
      ∙ state-count_failure (renew_connections env s.peers s)
      ∙ state-renew_connections env s.peers s

module _ (L : LogStore) where
  open L use {Store}

  state-ask_prevotes :
      (env : Surroundings) (s : Server Store) → (ask_prevotes L env s).state ≡ s.state
  unfolding ask_prevotes
  state-ask_prevotes env s =
      ground (arith, state-send_to_voters (voter_req L pre_vote_request [] s) s.peers s)

  pub state-request_prevote :
      (env : Surroundings) (s : Server Store) → (request_prevote L env s).state ≡ s.state
  unfolding request_prevote
  state-request_prevote env s =
      state-ask_prevotes env
        (begin_prevote (shrink_quorum env (count_failure (renew_connections env s.peers s))))
      ∙ state-begun env s

  state-ask_votes :
      (env : Surroundings) (es : List LogEntry) (s : Server Store)
      → (ask_votes L env es s).state ≡ s.state
  unfolding ask_votes
  state-ask_votes env es s =
      if_elim (λ (t : Server Store). t.state ≡ s.state)
        (ltb (get_quorum_for_election s) s.votes_granted)
        (state-become_leader L env (record s { election_completed = true }))
        (state-send_to_voters (voter_req L request_vote_request es s) s.peers s)

  state-request_vote :
      (env : Surroundings) (force_vote : Bool) (s : Server Store)
      → (request_vote L env force_vote s).state ≡ record (s.state) { voted_for = s.id }
  unfolding request_vote vote_for_self
  state-request_vote env force_vote s = state-ask_votes env _ (vote_for_self L s)

  -- An election is a step to the next term, with the server's own vote.
  pub data Campaign (s t : Server Store) : Type 0 where
    waits : t.state ≡ s.state → Campaign s t
    stands :
        t.state ≡ record (s.state) { term = (s.state.term + 1) % 2 ^ 64; voted_for = s.id }
        → Campaign s t

  state-without_leader : (s : Server Store) → (without_leader L s).state ≡ s.state
  unfolding without_leader
  state-without_leader s = ground arith

  stand-Campaign :
      (env : Surroundings) (force_vote : Bool) (s : Server Store)
      → Campaign s (stand L env force_vote s)
  unfolding stand next_term
  stand-Campaign env force_vote s = elim (Bool-cases (may_stand L env force_vote s)) [
    | inl free ↦
        rw (stand, free)
          (stands (
            state-without_leader (request_vote L env force_vote (next_term L s))
            ∙ state-request_vote env force_vote (next_term L s)))
    | inr held ↦ rw (stand, held) (waits (state-without_leader s))
  ]

  note_grace-kept :
      (s : Server Store) → ((note_grace L s).state ≡ s.state) × ((note_grace L s).id ≡ s.id)
  unfolding note_grace
  note_grace-kept s = (ground arith, ground arith)

  Campaign-from :
      (s u t : Server Store) → u.state ≡ s.state → u.id ≡ s.id → Campaign u t → Campaign s t
  Campaign-from s u t same who (waits e) = waits (e ∙ same)
  Campaign-from s u t same who (stands e) = stands (rw (← same, ← who) e)

  pub initiate_vote-Campaign :
      (env : Surroundings) (force_vote : Bool) (s : Server Store)
      → Campaign s (initiate_vote L env force_vote s)
  unfolding initiate_vote
  initiate_vote-Campaign env force_vote s = elim (Bool-cases (in_grace L env force_vote s)) [
    | inr free ↦ rw (initiate_vote, free) (stand-Campaign env force_vote s)
    | inl grace ↦
        elim (Bool-cases (not (s.vote_init_timer_term == s.state.term) || not env.grace_over)) [
          | inl held ↦ rw (initiate_vote, grace, held) (waits (note_grace-kept s).0)
          | inr over ↦
              rw (initiate_vote, grace, over)
                (Campaign-from s (note_grace L s) _ (note_grace-kept s).0 (note_grace-kept s).1
                  (stand-Campaign env force_vote (note_grace L s)))
        ]
  ]

  pub state-handle_vote_resp :
      (env : Surroundings) (resp : RespMsg) (s : Server Store)
      → (handle_vote_resp L env resp s).state ≡ s.state
  unfolding handle_vote_resp count_vote
  state-handle_vote_resp env resp s =
      if_elim (λ (t : Server Store). t.state ≡ s.state)
        (s.election_completed || not (resp.term == s.state.term)) refl
        (if_elim (λ (t : Server Store). t.state ≡ s.state)
          (leb (get_quorum_for_election counted + 1) counted.votes_granted)
          (state-become_leader L env (record counted { election_completed = true })) refl)
    where
      counted : Server Store
      counted = count_vote L resp s

  may_stand-forced : (env : Surroundings) (s : Server Store) → may_stand L env true s ≡ true
  unfolding may_stand
  may_stand-forced env s = ground arith

  -- A vote that is forced is held whatever the priority.
  pub state-initiate_vote_forced :
      (env : Surroundings) (s : Server Store)
      → (initiate_vote L env true s).state
        ≡ record (s.state) { term = (s.state.term + 1) % 2 ^ 64; voted_for = s.id }
  unfolding initiate_vote in_grace stand next_term
  state-initiate_vote_forced env s = rw (may_stand-forced env s) (
      state-without_leader (request_vote L env true (next_term L s))
      ∙ state-request_vote env true (next_term L s))

  pub state-await_votes : (s : Server Store) → (await_votes L s).state ≡ s.state
  unfolding await_votes
  state-await_votes s = ground arith

  Campaign-on : (s t u : Server Store) → u.state ≡ t.state → Campaign s t → Campaign s u
  Campaign-on s t u same (waits e) = waits (same ∙ e)
  Campaign-on s t u same (stands e) = stands (same ∙ e)

  prevote_won-Campaign : (env : Surroundings) (s : Server Store) → Campaign s (prevote_won L env s)
  unfolding prevote_won
  prevote_won-Campaign env s = if_elim (Campaign s) s.pre_vote.is_done (waits refl) (
      Campaign-from s marked _ refl refl (
        Campaign-on marked started _ (state-await_votes started)
          (initiate_vote-Campaign env false marked)))
    where
      marked : Server Store
      marked = record s { pre_vote = record (s.pre_vote) { is_done = true } }

      started : Server Store
      started = initiate_vote L env false marked

  judge_prevote-Campaign :
      (env : Surroundings) (quorum : ℕ) (s : Server Store)
      → Campaign s (judge_prevote L env quorum s)
  unfolding judge_prevote
  judge_prevote-Campaign env quorum s =
      if_elim (Campaign s) (leb quorum s.pre_vote.dead) (prevote_won-Campaign env s) (waits refl)

  state-judge_rejection :
      (quorum : ℕ) (s : Server Store) → (judge_rejection L quorum s).state ≡ s.state
  unfolding judge_rejection prevote_rejected
  state-judge_rejection quorum s = ground arith

  pub handle_prevote_resp-Campaign :
      (env : Surroundings) (resp : RespMsg) (s : Server Store)
      → Campaign s (handle_prevote_resp L env resp s)
  unfolding handle_prevote_resp count_prevote
  handle_prevote_resp-Campaign env resp s = elim (Bool-cases (resp.term == s.pre_vote.term)) [
    | inr other ↦ rw (handle_prevote_resp, other) (waits refl)
    | inl this_term ↦
        rw (handle_prevote_resp, this_term)
          (Campaign-from s counted _ refl refl (
            Campaign-on counted (judge_prevote L env quorum counted) _
              (state-judge_rejection quorum (judge_prevote L env quorum counted))
              (judge_prevote-Campaign env quorum counted)))
  ]
    where
      counted : Server Store
      counted = count_prevote L resp s

      quorum : ℕ
      quorum = get_quorum_for_election counted + 1

  -- Where the next term is a number of 64 bits, an election goes on from the term and vote there are.
  pub Campaign-Later :
      (s t : Server Store) → s.state.term + 1 < 2 ^ 64 → Campaign s t → Later s.state t.state
  Campaign-Later s t fits (waits e) = Later-of e
  Campaign-Later s t fits (stands e) = record {
    term = omega (arith, next, fits);
    vote = λ same. absurd (omega (arith, next, fits, same));
  }
    where
      next : t.state.term ≡ (s.state.term + 1) % 2 ^ 64
      next = ap (λ (st : SrvState). st.term) e
