-- ===== src/Raft/Leader/State.antt =====
-- Sending append requests and taking over as leader (src/handle_append_entries.cxx,
-- raft_server.cxx) leave the term and the vote alone.
use nu_raft.Common.{ℕ, ◌≡◌, refl, ap, ◌∙◌, arith, false, List, [], ◌∷◌, ltb, ◌&&◌, ◌==◌, if_elim}
use nu_raft.Raft.Leadership.State.{state-yield_leadership}
use nu_raft.Raft.Quorum.{get_num_voting_members}
use nu_raft.Raft.Types.{no_server, LogEntry}
use nu_raft.Raft.LogStore.{LogStore}
use nu_raft.Raft.Server.{Server, Peer, stop_election_timer, emit, request_append_for_all}
use nu_raft.Raft.Follower.{commit, store_log_entry}
use nu_raft.Raft.Leader.{Surroundings, request_append_entries, request_append_entries_to_all}
use nu_raft.Raft.Leader.Core.{
  CoreOf, core-request_append_for_all, core-commit, core-request_append_entries,
  core-request_append_entries_to_all,
}
use nu_raft.Raft.Leader.Become.{start_heartbeats, config_entry, as_leader, take_over, become_leader}

module _ {S : Type 0} where
  pub state-request_append_for_all :
      (ps : List Peer) (s : Server S) → (request_append_for_all ps s).state ≡ s.state
  state-request_append_for_all ps s =
      ap (λ (c : CoreOf S). c.state) (core-request_append_for_all ps s)

  state-start_heartbeats : (ps : List Peer) (s : Server S) → (start_heartbeats ps s).state ≡ s.state
  unfolding start_heartbeats
  state-start_heartbeats [] s = refl
  state-start_heartbeats (p ∷ ps) s = state-start_heartbeats ps _

module _ (L : LogStore) where
  open L use {Store}

  pub state-commit : (i : ℕ) (s : Server Store) → (commit L i s).state ≡ s.state
  state-commit i s = ap (λ (c : CoreOf Store). c.state) (core-commit L i s)

  pub state-request_append_entries :
      (env : Surroundings) (id : ℕ) (s : Server Store)
      → (request_append_entries L env id s).0.state ≡ s.state
  state-request_append_entries env id s =
      ap (λ (c : CoreOf Store). c.state) (core-request_append_entries L env id s)

  pub state-request_append_entries_to_all :
      (env : Surroundings) (s : Server Store)
      → (request_append_entries_to_all L env s).state ≡ s.state
  state-request_append_entries_to_all env s =
      ap (λ (c : CoreOf Store). c.state) (core-request_append_entries_to_all L env s)

  pub state-store_log_entry :
      (e : LogEntry) (i : ℕ) (s : Server Store) → (store_log_entry L e i s).0.state ≡ s.state
  unfolding store_log_entry
  state-store_log_entry e i s = ground arith

  state-take_over : (s : Server Store) → (take_over L s).state ≡ s.state
  unfolding take_over as_leader emit
  state-take_over s =
      state-store_log_entry (config_entry L (as_leader L s)) 0 (as_leader L s)
      ∙ state-start_heartbeats s.peers (emit stop_election_timer s)

  -- A server that takes over keeps its term and its vote.
  pub state-become_leader :
      (env : Surroundings) (s : Server Store) → (become_leader L env s).state ≡ s.state
  unfolding become_leader
  state-become_leader env s =
      if_elim (λ (t : Server Store). t.state ≡ s.state)
        (led.my_priority == 0 && ltb 1 (get_num_voting_members led))
        (state-yield_leadership env false no_server led ∙ kept) kept
    where
      led : Server Store
      led = request_append_entries_to_all L env (take_over L s)

      kept : led.state ≡ s.state
      kept = state-request_append_entries_to_all env (take_over L s) ∙ state-take_over s
