-- ===== src/Raft/Membership/Revote.antt =====
-- A request to join makes a server forget the vote that it has given (src/handle_join_leave.cxx,
-- `handle_join_cluster_req`).
use nu_raft.Common.{ℕ, ◌≡◌, ◌≢◌, refl, ap, ◌∙◌, sym, true, false, [], ◌∷◌, ok}
use nu_raft.Config.{ClusterConfig}
use nu_raft.Raft.Types.{conf, LogEntry, ReqMsg, SrvState, no_server}
use nu_raft.Raft.LogStore.{LogStore}
use nu_raft.Raft.Server.{Server, emit, save_config}
use nu_raft.Raft.Vote.{is_up_to_date, has_low_priority, handle_vote_req}
use nu_raft.Raft.Vote.Grant.{handle_vote_req-granted}
use nu_raft.Raft.Leader.Become.{config_of}
use nu_raft.Raft.Committer.Quiet.{reconfigure-Quiet}
use nu_raft.Raft.Membership.Join.{follow_new_leader, take_config, handle_join_cluster_req}

module _ (L : LogStore) where
  open L use {Store, next_slot}

  pub join-step :
      (req : ReqMsg) (e : LogEntry) (new : ClusterConfig) (s : Server Store)
      → req.log_entries ≡ e ∷ []
      → e.value_type ≡ conf
      → config_of e.buff ≡ ok new
      → (handle_join_cluster_req L req s).0
        ≡ take_config (next_slot s.log_store) new (follow_new_leader req s)
  unfolding handle_join_cluster_req
  join-step req e new s there kind reads = rw (handle_join_cluster_req, there, kind, reads) refl

  state-take_config :
      (slot : ℕ) (new : ClusterConfig) (s : Server Store) → (take_config slot new s).state ≡ s.state
  unfolding take_config emit
  state-take_config slot new s = (reconfigure-Quiet slot new (emit (save_config new) s)).state

  pub state-handle_join_cluster_req :
      (req : ReqMsg) (e : LogEntry) (new : ClusterConfig) (s : Server Store)
      → req.log_entries ≡ e ∷ []
      → e.value_type ≡ conf
      → config_of e.buff ≡ ok new
      → (handle_join_cluster_req L req s).0.state
        ≡ record (s.state) { voted_for = no_server; term = req.term }
  unfolding follow_new_leader emit
  state-handle_join_cluster_req req e new s there kind reads =
      ap (λ (t : Server Store). t.state) (join-step req e new s there kind reads)
      ∙ state-take_config (next_slot s.log_store) new (follow_new_leader req s)

  -- A server that has voted in its term for another candidate is asked to join, in the same term,
  -- with a configuration that can be read. Then it grants a request of that term for a vote by any
  -- candidate whose log is recent enough and that has no low priority: it has given two votes in one
  -- term.
  pub handle_vote_req-revote :
      (join : ReqMsg) (e : LogEntry) (new : ClusterConfig) (req : ReqMsg) (s : Server Store)
      → s.state.voted_for ≢ no_server
      → s.state.voted_for ≢ req.src
      → join.log_entries ≡ e ∷ []
      → e.value_type ≡ conf
      → config_of e.buff ≡ ok new
      → join.term ≡ s.state.term
      → req.term ≡ s.state.term
      → is_up_to_date L req (handle_join_cluster_req L join s).0 ≡ true
      → has_low_priority req.src
          (handle_join_cluster_req L join s).0.target_priority
          (handle_join_cluster_req L join s).0.config.servers
        ≡ false
      → let out = handle_vote_req L req (handle_join_cluster_req L join s).0 in
        (out.1.accepted ≡ true)
        × (out.0.state.term ≡ s.state.term)
        × (out.0.state.voted_for ≡ req.src)
        × (out.0.state.voted_for ≢ s.state.voted_for)
  handle_vote_req-revote join e new req s voted other there kind reads joins asks recent high =
      let t = (handle_join_cluster_req L join s).0 in
      let same = state-handle_join_cluster_req join e new s there kind reads in
      let term_of : t.state.term ≡ s.state.term = ap (λ (x : SrvState). x.term) same ∙ joins in
      let (term, vote, yes_vote) =
        handle_vote_req-granted L req t (asks ∙ sym term_of)
          (ap (λ (x : SrvState). x.voted_for) same) recent high in
      (yes_vote, term ∙ term_of, vote, λ again. other (sym again ∙ vote))
