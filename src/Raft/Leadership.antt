-- ===== src/Raft/Leadership.antt =====
-- How long a leader stays one: `check_leadership_validity`, `yield_leadership` and
-- `check_leadership_transfer` of src/raft_server.cxx.
pub mod State
use nu_raft.Common.{
  ℕ, ◌+◌, ◌-◌, ◌*◌, ◌^◌, Bool, true, false, not, ◌&&◌, ◌||◌, Option, none, some, List, [], ◌∷◌, ltb,
  leb, ◌==◌, if◌then◌else◌,
}
use nu_raft.Raft.Types.{is_leader, no_server, lt_i32}
use nu_raft.Raft.Server.{Server, Peer, emit, become_follower, restart_reelection_timer}
use nu_raft.Raft.Quorum.{get_num_voting_members, get_quorum_for_commit, get_not_responding_peers}
use nu_raft.Raft.Leader.{Surroundings, find_peer}

-- The peer of the highest positive priority that has answered within a heartbeat, and its priority;
-- the first of several.
best_peer : ℕ → ℕ → List Peer → ℕ × ℕ → ℕ × ℕ
best_peer self hb [] best = best
best_peer self hb (p ∷ ps) (id, top) = best_peer self hb ps (
    if not (p.id == self) && leb p.resp_elapsed_ms hb && lt_i32 top p.priority
    then (p.id, p.priority)
    else (id, top))

module _ {S : Type 0} where
  -- No more leader at once.
  unfoldable pub resign_now : Server S → Server S
  unfolding become_follower
  resign_now s = record (become_follower (record s { leader_id = no_server })) { hb_alive = false }

  -- The successor that is asked for, or the best peer. A negative id asks for none.
  unfoldable pub find_successor : ℕ → Server S → ℕ
  unfolding best_peer find_peer
  find_successor successor s =
      let best = (best_peer s.id s.params.heart_beat_interval s.peers (no_server, 0)).0 in
      if lt_i32 successor 0
      then best
      else elim (find_peer successor s.peers) [ none ↦ best | some p ↦ p.id ]

  -- Writing stops until the successor takes over, or the time for that is over.
  unfoldable pub nominate : ℕ → Server S → Server S
  unfolding find_successor emit
  nominate successor s =
      let next = find_successor successor s in
      emit restart_reelection_timer (record s {
        write_paused = true;
        next_leader_candidate = if lt_i32 next 0 then s.next_leader_candidate else next;
      })

  unfoldable pub yield_leadership : Surroundings → Bool → ℕ → Server S → Server S
  unfolding resign_now nominate get_num_voting_members
  yield_leadership env immediate_yield successor s =
      if s.write_paused
        || not (s.id == s.leader_id)
        || leb (get_num_voting_members s) 1
        || not env.yield_allowed
      then s
      else if immediate_yield
      then resign_now s
      else nominate successor s

  -- Too many peers that do not answer, unless leadership does not expire. `size_t` counts.
  unfoldable pub lost_quorum : Server S → Bool
  unfolding get_num_voting_members get_quorum_for_commit
  lost_quorum s =
      let nr_peers =
        if lt_i32 s.params.leadership_expiry 0 then 0 else get_not_responding_peers s in
      ltb (get_num_voting_members s) (get_quorum_for_commit s + 1 + nr_peers)

  -- A cluster that is no larger than its quorum keeps its leader.
  unfoldable pub check_leadership_validity : Surroundings → Server S → Server S × Bool
  unfolding lost_quorum yield_leadership
  check_leadership_validity env s =
      if not (is_leader s.role)
      then (s, false)
      else if not (lost_quorum s)
      then (s, true)
      else if leb (get_num_voting_members s) (get_quorum_for_commit s + 1)
      then (s, true)
      else (yield_leadership env true no_server s, false)

  -- A peer that lags behind or does not answer.
  unfoldable pub hinders_transfer : Server S → Peer → Bool
  hinders_transfer s p =
      ltb (p.matched_idx + s.params.stale_log_gap) s.quick_commit_index
      || ltb s.params.election_timeout_lower_bound p.resp_elapsed_ms

  -- The first peer of the highest priority above that of the server; `none` if one peer hinders.
  unfoldable pub transfer_target : Server S → List Peer → ℕ × ℕ → Option (ℕ × ℕ)
  unfolding hinders_transfer
  transfer_target s [] best = some best
  transfer_target s (p ∷ ps) (id, top) =
      let rest =
        transfer_target s ps (if lt_i32 top p.priority then (p.id, p.priority) else (id, top)) in
      if hinders_transfer s p then none else rest

  unfoldable pub transfer_to : Surroundings → Option (ℕ × ℕ) → Server S → Server S
  unfolding yield_leadership
  transfer_to env none s = s
  transfer_to env (some (id, top)) s =
      if not (lt_i32 s.my_priority top) || id == no_server || not env.transfer_allowed
      then s
      else yield_leadership env false id s

  unfoldable pub check_leadership_transfer : Surroundings → Server S → Server S
  unfolding transfer_target transfer_to
  check_leadership_transfer env s =
      if s.params.leadership_transfer_min_wait_time == 0 || not env.transfer_due
      then s
      else transfer_to env (transfer_target s s.peers (no_server, s.my_priority)) s
