-- ===== src/Raft/Tests.antt =====
-- The theorems of the protocol at a server with two peers and a log of three entries.
use nu_raft.Common.{
  take, drop, ℕ, zero, suc, ap, Option, get_elem?, ◌≢◌, ◌+◌, ◌≡◌, ◌≤◌, inl, inr, refl, arith, true,
  none, some, List, [], ◌∷◌, ◌++◌, ◌==◌, leb, not, max,
}
use nu_raft.Raft.Types.{follower, candidate, leader, LogEntry, ReqMsg}
use nu_raft.Raft.Server.{Server, update_term, become_follower, decay_target_priority}
use nu_raft.Raft.Follower.{Answers, log_okay, handle_append_entries}
use nu_raft.Raft.Follower.Agree.{terms, handle_append_entries-terms}
use nu_raft.Raft.Follower.Merge.{merge}
use nu_raft.Raft.Follower.Replicate.{Accepted, Denied, handle_append_entries-Accepted}
use nu_raft.Raft.Follower.Refuse.{Missing, handle_append_entries-Denied}
use nu_raft.Raft.Quorum.{
  is_regular_member, quorum_size, get_num_voting_members, get_quorum_for_election,
  get_quorum_for_commit, get_expected_committed_log_idx, commit_quorum_idx, matched_indexes,
}
use nu_raft.Raft.Quorum.Commit.{count_reached, expected_commit-quorum}
use nu_raft.Raft.Quorum.Majority.{Overlap, voters, election-commit-Overlap}
use nu_raft.Raft.Quorum.Sort.{insertion_sort, insertion_sort-IsSort}
use nu_raft.Raft.Vote.{handle_vote_req, can_grant}
use nu_raft.Raft.Vote.Compacted.{can_grant-compacted}
use nu_raft.Raft.Vote.Grant.{Vote, handle_vote_req-Vote}
use nu_raft.Raft.Process.{handler_of, Others, vote_handler, other_handler, process_req, take_term}
use nu_raft.Raft.Process.Term.{Later, take_term-Later}
use nu_raft.Raft.Follower.State.{state-handle_append_entries}
use nu_raft.Raft.Process.VoteOnce.{votes, FromServers, OnlyCore, votes-once}
use nu_raft.InmemLogStore
use nu_raft.InmemLogStore.{dummy}
use nu_raft.InmemLogStore.Entries.{number}
use nu_raft.InmemLogStore.Interface.{HeldStore, inmem}
use nu_raft.InmemLogStore.Tests.{first, second, third}
use nu_raft.Raft.Example.{server_as, willing, fourth, append_req, vote_req}

handle_append_entries-Accepted_example :
    let out = handle_append_entries inmem append_req willing (server_as candidate) in
    Accepted inmem append_req
      (server_as candidate)
      out.0
      out.1
      ((first ∷ []) ++ merge (second ∷ third ∷ []) (fourth ∷ third ∷ []))
unfolding log_okay InmemLogStore.next_slot InmemLogStore.term_at InmemLogStore.find_or_dummy
    InmemLogStore.find
handle_append_entries-Accepted_example =
    handle_append_entries-Accepted inmem append_req willing (server_as candidate) (first ∷ [])
      (second ∷ third ∷ []) (λ e. ground arith) refl refl refl refl refl refl

handle_append_entries-terms_example :
    let log =
      inmem.entries
        (handle_append_entries inmem append_req willing (server_as candidate)).0.log_store in
    (take 1 log ≡ first ∷ []) × (terms (take 2 (drop 1 log)) ≡ 2 ∷ 2 ∷ [])
unfolding log_okay InmemLogStore.next_slot InmemLogStore.term_at InmemLogStore.find_or_dummy
    InmemLogStore.find
handle_append_entries-terms_example =
    handle_append_entries-terms inmem append_req willing (server_as candidate) (first ∷ [])
      (second ∷ third ∷ []) (λ e. ground arith) refl refl refl refl refl refl

-- The log has an entry of term 1 at index 1, and the request speaks of one of term 2.
abbrev mismatched : ReqMsg
mismatched = record append_req { last_log_term = 2 }

term_found : Option LogEntry → ℕ
term_found none = 0
term_found (some e) = e.term

first_term :
    (i : ℕ) (e : LogEntry)
    → 1 + i ≡ 1
    → get_elem? (first ∷ second ∷ third ∷ []) i ≡ some e
    → e.term ≢ 2
unfolding term_found
first_term zero e at there same = omega (arith, ap term_found there, same)
first_term (suc i) e at there same = omega (arith, at)

mismatched-Missing : Missing inmem mismatched (server_as follower)
mismatched-Missing = record {
  before = omega arith;
  no_snapshot = λ e. ground arith;
  no_entry = first_term;
}

handle_append_entries-Denied_example :
    let out = handle_append_entries inmem mismatched willing (server_as follower) in
    Denied inmem (server_as follower) out.0 out.1
handle_append_entries-Denied_example =
    handle_append_entries-Denied inmem mismatched willing (server_as follower)
      (inl (λ e. ground arith)) (inr mismatched-Missing)

handle_vote_req-Vote_example :
    let out = handle_vote_req inmem (vote_req 2 2) (server_as follower) in
    Vote inmem (vote_req 2 2) (server_as follower) out.0 out.1
handle_vote_req-Vote_example = handle_vote_req-Vote inmem (vote_req 2 2) (server_as follower)

-- Two candidates of term 3, then the first again.
abbrev elections : List (ReqMsg × Answers)
elections = (vote_req 2 3, willing) ∷ (vote_req 3 3, willing) ∷ (vote_req 2 3, willing) ∷ []

elections-FromServers : FromServers elections
elections-FromServers = ((λ e. ground arith), ((λ e. ground arith), ((λ e. ground arith), tt)))

abbrev no_others : Others HeldStore
no_others req s = (s, none)

not_other : vote_handler ≢ other_handler
not_other e = ground (arith, e)

elections-OnlyCore : OnlyCore elections
unfolding handler_of
elections-OnlyCore = (not_other, (not_other, (not_other, tt)))

abbrev candidate_id : ℕ
candidate_id = 2

-- The first and the third request get the vote, the second does not.
elections-votes : votes inmem no_others elections (server_as follower) ≡ (3, 2) ∷ (3, 2) ∷ []
unfolding votes process_req update_term become_follower decay_target_priority handle_vote_req
    InmemLogStore.last_entry InmemLogStore.next_slot InmemLogStore.find_or_dummy InmemLogStore.find
elections-votes = refl

votes-once_example : candidate_id ≡ candidate_id
votes-once_example =
    votes-once inmem no_others elections (server_as follower) 3 candidate_id candidate_id
      elections-FromServers elections-OnlyCore (rw elections-votes (inl (refl, refl)))
      (rw elections-votes (inr (inl (refl, refl))))

expected_commit-quorum_example :
    let v =
      get_expected_committed_log_idx insertion_sort
        (λ current expected. expected)
        0
        (server_as leader) in
    (commit_quorum_idx (server_as leader) + 1
      ≤ count_reached v (matched_indexes 0 (server_as leader)))
    × ((w : ℕ)
        → commit_quorum_idx (server_as leader) + 1
          ≤ count_reached w (matched_indexes 0 (server_as leader))
        → w ≤ v)
expected_commit-quorum_example =
    expected_commit-quorum (server_as leader) insertion_sort 0 insertion_sort-IsSort refl

-- Votes of the servers 1 and 2, copies at 1 and 3.
election-commit-Overlap_example :
    Overlap (λ i. leb i 2) (λ i. not (i == 2)) (voters (server_as leader))
unfolding get_quorum_for_election get_quorum_for_commit get_num_voting_members is_regular_member
    quorum_size
election-commit-Overlap_example =
    election-commit-Overlap (server_as leader) (λ i. leb i 2) (λ i. not (i == 2)) refl refl refl
      (omega arith) (omega arith)

state-handle_append_entries_example :
    (handle_append_entries inmem append_req willing (server_as follower)).0.state
    ≡ (server_as follower).state
state-handle_append_entries_example =
    state-handle_append_entries inmem append_req willing (server_as follower)

take_term-Later_example :
    Later (server_as leader).state (take_term (vote_req 2 3) (server_as leader)).state
    × ((take_term (vote_req 2 3) (server_as leader)).state.term ≡ max 3 2)
take_term-Later_example = take_term-Later (vote_req 2 3) (server_as leader)

-- The log ends at index 10 with term 5, all of it in the snapshot.
abbrev empty_store : HeldStore
unfolding number
empty_store = record {
  store = record { logs = (0, dummy) ∷ []; start_idx = 11 };
  held = [];
  holds = record { start_pos = omega arith; logs_lem = refl };
}

abbrev compacted : Server HeldStore
compacted = record (server_as follower) { log_store = empty_store; last_snapshot = some (10, 5) }

stale_req : ReqMsg
stale_req = record (vote_req 2 2) { last_log_term = 1; last_log_idx = 1 }

can_grant-compacted_example : can_grant inmem stale_req compacted ≡ true
unfolding stale_req empty_store
can_grant-compacted_example = can_grant-compacted stale_req compacted refl refl (omega arith) refl
