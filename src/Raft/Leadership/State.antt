-- ===== src/Raft/Leadership/State.antt =====
-- Giving leadership away leaves the term and the vote alone (src/raft_server.cxx).
use nu_raft.Common.{
  ℕ, ◌+◌, ◌≡◌, refl, arith, Bool, true, not, ◌||◌, leb, ◌==◌, if_elim, false, Option, none, some,
}
use nu_raft.Raft.Types.{is_leader, no_server, lt_i32}
use nu_raft.Raft.Server.{Server, become_follower}
use nu_raft.Raft.Quorum.{get_num_voting_members, get_quorum_for_commit}
use nu_raft.Raft.Leader.{Surroundings}
use nu_raft.Raft.Leadership.{
  resign_now, nominate, yield_leadership, lost_quorum, check_leadership_validity, transfer_target,
  transfer_to, check_leadership_transfer,
}

module _ {S : Type 0} where
  pub state-become_follower : (s : Server S) → (become_follower s).state ≡ s.state
  unfolding become_follower
  state-become_follower s = ground arith

  pub state-resign_now : (s : Server S) → (resign_now s).state ≡ s.state
  unfolding resign_now
  state-resign_now s = state-become_follower (record s { leader_id = no_server })

  pub state-yield_leadership :
      (env : Surroundings) (immediate_yield : Bool) (successor : ℕ) (s : Server S)
      → (yield_leadership env immediate_yield successor s).state ≡ s.state
  unfolding yield_leadership nominate
  state-yield_leadership env immediate_yield successor s =
      if_elim (λ (t : Server S). t.state ≡ s.state)
        (s.write_paused
          || not (s.id == s.leader_id)
          || leb (get_num_voting_members s) 1
          || not env.yield_allowed)
        refl
        (if_elim (λ (t : Server S). t.state ≡ s.state) immediate_yield (state-resign_now s) refl)

  pub state-check_leadership_validity :
      (env : Surroundings) (s : Server S) → (check_leadership_validity env s).0.state ≡ s.state
  unfolding check_leadership_validity
  state-check_leadership_validity env s = if_elim same (not (is_leader s.role)) refl (
      if_elim same (not (lost_quorum s)) refl (
        if_elim same (leb (get_num_voting_members s) (get_quorum_for_commit s + 1)) refl
          (state-yield_leadership env true no_server s)))
    where
      same : Server S × Bool → Type 0
      same out = out.0.state ≡ s.state

  state-transfer_to :
      (env : Surroundings) (o : Option (ℕ × ℕ)) (s : Server S)
      → (transfer_to env o s).state ≡ s.state
  unfolding transfer_to
  state-transfer_to env none s = refl
  state-transfer_to env (some (id, top)) s =
      if_elim (λ (t : Server S). t.state ≡ s.state)
        (not (lt_i32 s.my_priority top) || id == no_server || not env.transfer_allowed) refl
        (state-yield_leadership env false id s)

  pub state-check_leadership_transfer :
      (env : Surroundings) (s : Server S) → (check_leadership_transfer env s).state ≡ s.state
  unfolding check_leadership_transfer
  state-check_leadership_transfer env s =
      if_elim (λ (t : Server S). t.state ≡ s.state)
        (s.params.leadership_transfer_min_wait_time == 0 || not env.transfer_due) refl
        (state-transfer_to env (transfer_target s s.peers (no_server, s.my_priority)) s)
