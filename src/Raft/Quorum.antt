-- ===== src/Raft/Quorum.antt =====
-- Quorum sizes and the index that a quorum has: src/raft_server.cxx, handle_append_entries.cxx.
-- Counts of members are small, so that the `int32` and `size_t` sums do not wrap.
pub mod Majority
pub mod Commit
pub mod Sort
use nu_raft.Common.{
  ℕ, zero, suc, ◌+◌, ◌-◌, ◌*◌, ◌/◌, ◌^◌, ◌≡◌, ◌≤◌, Bool, true, false, not, ◌&&◌, ◌||◌, Option, none,
  some, List, [], ◌∷◌, length, get_or, ltb, leb, ◌==◌, if◌then◌else◌, min,
}
use nu_raft.Raft.Server.{Server, Peer, Params}

-- A custom size that is not positive, or above the number of members, counts for nothing.
unfoldable pub quorum_size : ℕ → ℕ → ℕ
quorum_size custom members =
    if custom == 0 || leb (2 ^ 31) custom || ltb members custom then members / 2 else custom - 1

-- The count goes down for each peer, and stops at zero.
without_receivers : List Peer → ℕ → ℕ
without_receivers [] n = n
without_receivers (p ∷ ps) n =
    without_receivers ps (if not (n == 0) && p.snapshot_in_sync then n - 1 else n)

module _ {S : Type 0} where
  is_leaving : Server S → Peer → Bool
  is_leaving s p = elim s.srv_to_leave [ none ↦ false | some i ↦ i == p.id ]

  unfoldable pub is_regular_member : Server S → Peer → Bool
  unfolding is_leaving
  is_regular_member s p = if is_leaving s p then false else if p.learner then false else true

  count_regular : Server S → List Peer → ℕ
  count_regular s [] = 0
  count_regular s (p ∷ ps) = (if is_regular_member s p then 1 else 0) + count_regular s ps

  unfoldable pub get_num_voting_members : Server S → ℕ
  unfolding count_regular
  get_num_voting_members s = count_regular s s.peers + (if s.im_learner then 0 else 1)

  unfoldable pub get_quorum_for_election : Server S → ℕ
  get_quorum_for_election s =
      quorum_size s.params.custom_election_quorum_size (get_num_voting_members s)

  unfoldable pub get_quorum_for_commit : Server S → ℕ
  unfolding quorum_size without_receivers
  get_quorum_for_commit s = quorum_size s.params.custom_commit_quorum_size (
      if s.params.exclude_snp_receiver_from_quorum
      then without_receivers s.peers (get_num_voting_members s)
      else get_num_voting_members s)

  -- `response_limit` is the limit of the library, 20 heartbeats unless it was changed.
  count_not_responding : Server S → ℕ → List Peer → ℕ
  count_not_responding s expiry [] = 0
  count_not_responding s expiry (p ∷ ps) =
      (if is_regular_member s p && ltb expiry p.resp_elapsed_ms then 1 else 0)
      + count_not_responding s expiry ps

  pub get_not_responding_peers : Server S → ℕ
  unfolding count_not_responding
  get_not_responding_peers s =
      count_not_responding s (s.params.heart_beat_interval * s.params.response_limit) s.peers

  -- With parallel appending the leader counts only what is durable.
  pub get_current_leader_index : ℕ → Server S → ℕ
  get_current_leader_index durable_index s =
      if s.params.parallel_log_appending
      then min s.precommit_index durable_index
      else s.precommit_index

  regular_matched : Server S → List Peer → List ℕ
  regular_matched s [] = []
  regular_matched s (p ∷ ps) =
      if is_regular_member s p then p.matched_idx ∷ regular_matched s ps else regular_matched s ps

  pub matched_indexes : ℕ → Server S → List ℕ
  unfolding regular_matched
  matched_indexes durable_index s =
      get_current_leader_index durable_index s ∷ regular_matched s s.peers

  -- Full consensus among healthy members asks for all that respond, if they are a quorum.
  pub commit_quorum_idx : Server S → ℕ
  commit_quorum_idx s =
      let quorum_idx = get_quorum_for_commit s in
      let not_responding = get_not_responding_peers s in
      if s.params.use_full_consensus_among_healthy_members
      then (if ltb not_responding (get_num_voting_members s - quorum_idx)
          then get_num_voting_members s - not_responding - 1
          else quorum_idx)
      else quorum_idx

  -- `sort` is `std::sort` with `std::greater`, `adjust` the hook of the state machine, which gets
  -- the current and the expected index.
  unfoldable pub get_expected_committed_log_idx : (List ℕ → List ℕ) → (ℕ → ℕ → ℕ) → ℕ → Server S → ℕ
  unfolding commit_quorum_idx matched_indexes
  get_expected_committed_log_idx sort adjust durable_index s =
      adjust s.quick_commit_index
        (get_or (sort (matched_indexes durable_index s)) (commit_quorum_idx s) 0)
