-- ===== src/Raft/Membership/State.antt =====
-- Changes of the membership leave the term and the vote alone, with the exception of a server that
-- is asked to join (src/handle_join_leave.cxx).
use nu_raft.Common.{
  ℕ, ◌+◌, ◌-◌, ◌≡◌, refl, ◌∙◌, arith, Bool, not, ◌||◌, Option, none, some, length, min, ltb, ◌==◌,
  ◌&&◌, if_elim, Option-cases, inl, inr,
}
use nu_raft.Config.{ClusterConfig, SrvConfig}
use nu_raft.Config.Format.{encode_cluster}
use nu_raft.Raft.Types.{conf, ReqMsg, RespMsg}
use nu_raft.Raft.LogStore.{LogStore, LogPack}
use nu_raft.Raft.Server.{Server, Peer, emit}
use nu_raft.Raft.Follower.{is_some}
use nu_raft.Raft.Leader.{Surroundings, find_peer}
use nu_raft.Raft.Leader.Response.{drop_leaving, before}
use nu_raft.Raft.Leader.State.{
  state-commit, state-store_log_entry, state-request_append_entries_to_all,
}
use nu_raft.Raft.Membership.{sole_entry, propose, reset_srv_to_join}
use nu_raft.Raft.Membership.Join.{
  is_log_pack, admit_server, put_into_cluster, send_snapshot_to_new, send_pack_to_new, sync_done,
  sync_log_to_new_srv, handle_join_cluster_resp, handle_log_sync_resp, take_pack,
  handle_log_sync_req,
}
use nu_raft.Raft.Membership.Leave.{
  mark_leaving, rm_srv_from_cluster, handle_leave_cluster_resp, drop_only_peer,
  handle_leave_rpc_err, handle_join_rpc_err,
}

module _ (L : LogStore) where
  open L use {Store, next_slot, start_index}

  state-propose : (new : ClusterConfig) (s : Server Store) → (propose L new s).state ≡ s.state
  unfolding propose encode_cluster
  state-propose new s =
      state-store_log_entry L
        (record { term = s.state.term; value_type = conf; buff = encode_cluster new }) 0 s

  state-admit_server :
      (o : Option SrvConfig) (env : Surroundings) (s : Server Store)
      → (admit_server L o env s).state ≡ s.state
  unfolding admit_server emit
  state-admit_server none env s = refl
  state-admit_server (some c) env s =
      state-request_append_entries_to_all L env (propose L _ s) ∙ state-propose _ s

  state-put_into_cluster :
      (env : Surroundings) (s : Server Store) → (put_into_cluster L env s).state ≡ s.state
  unfolding put_into_cluster
  state-put_into_cluster env s = state-admit_server s.conf_to_add env s

  state-mark_leaving :
      (id target : ℕ) (s : Server Store) → (mark_leaving L id target s).state ≡ s.state
  unfolding mark_leaving
  state-mark_leaving id target s =
      if_elim (λ (t : Server Store). t.state ≡ s.state) (is_some (find_peer id s.peers)) refl refl

  state-rm_srv_from_cluster :
      (env : Surroundings) (id : ℕ) (s : Server Store)
      → (rm_srv_from_cluster L env id s).state ≡ s.state
  unfolding rm_srv_from_cluster
  state-rm_srv_from_cluster env id s =
      if_elim (λ (t : Server Store). t.state ≡ s.state) (is_some s.srv_to_leave) refl
        (state-request_append_entries_to_all L env
            (mark_leaving L id (next_slot s.log_store) (propose L _ s))
          ∙ state-mark_leaving id (next_slot s.log_store) (propose L _ s)
          ∙ state-propose _ s)

  state-drop_only_peer : (id : ℕ) (s : Server Store) → (drop_only_peer L id s).state ≡ s.state
  unfolding drop_only_peer
  state-drop_only_peer id s =
      if_elim (λ (t : Server Store). t.state ≡ s.state) (length s.peers == 1) refl refl

  state-drop_leaving : (id : ℕ) (s : Server Store) → (drop_leaving L id s).state ≡ s.state
  unfolding drop_leaving
  state-drop_leaving id s = ground arith

  pub state-handle_leave_rpc_err :
      (env : Surroundings) (id : ℕ) (s : Server Store)
      → (handle_leave_rpc_err L env id s).state ≡ s.state
  unfolding handle_leave_rpc_err
  state-handle_leave_rpc_err env id s = elim (Option-cases (drop_only_peer L id s).srv_to_leave) [
    | inl free ↦
        rw (handle_leave_rpc_err, free)
          (state-rm_srv_from_cluster env id (drop_only_peer L id s) ∙ state-drop_only_peer id s)
    | inr (i, taken) ↦
        rw (handle_leave_rpc_err, taken)
          (state-drop_leaving i (drop_only_peer L id s) ∙ state-drop_only_peer id s)
  ]

  pub state-handle_leave_cluster_resp :
      (env : Surroundings) (resp : RespMsg) (s : Server Store)
      → (handle_leave_cluster_resp L env resp s).state ≡ s.state
  unfolding handle_leave_cluster_resp
  state-handle_leave_cluster_resp env resp s =
      if_elim (λ (t : Server Store). t.state ≡ s.state) resp.accepted
        (state-rm_srv_from_cluster env resp.src s) refl

  pub state-handle_join_rpc_err :
      (id : ℕ) (s : Server Store) → (handle_join_rpc_err L id s).state ≡ s.state
  unfolding handle_join_rpc_err reset_srv_to_join emit
  state-handle_join_rpc_err id s = refl

  state-send_snapshot_to_new :
      (env : Surroundings) (start_idx : ℕ) (j : Peer) (s : Server Store)
      → (send_snapshot_to_new L env start_idx j s).state ≡ s.state
  unfolding send_snapshot_to_new emit
  state-send_snapshot_to_new env start_idx j s =
      if_elim (λ (t : Server Store). t.state ≡ s.state) env.snapshot_read refl refl

module _ (L : LogStore) (P : LogPack L) where
  open L use {Store, start_index, next_slot}

  state-send_pack_to_new :
      (gap start_idx : ℕ) (j : Peer) (s : Server Store)
      → (send_pack_to_new L P gap start_idx j s).state ≡ s.state
  unfolding send_pack_to_new emit
  state-send_pack_to_new gap start_idx j s =
      elim (Option-cases (P.pack start_idx (min gap s.params.log_sync_batch_size) s.log_store)) [
        | inl gone ↦ rw (send_pack_to_new, gone) refl
        | inr (bytes, there) ↦ rw (send_pack_to_new, there) refl
      ]

  pub state-sync_log_to_new_srv :
      (env : Surroundings) (start_idx : ℕ) (j : Peer) (s : Server Store)
      → (sync_log_to_new_srv L P env start_idx j s).state ≡ s.state
  unfolding sync_log_to_new_srv
  state-sync_log_to_new_srv env start_idx j s =
      if_elim (λ (t : Server Store). t.state ≡ s.state)
        (sync_done (s.quick_commit_index - start_idx) s) (state-put_into_cluster L env s)
        (if_elim (λ (t : Server Store). t.state ≡ s.state) (ltb start_idx (start_index s.log_store))
          (state-send_snapshot_to_new L env start_idx j s)
          (state-send_pack_to_new (s.quick_commit_index - start_idx) start_idx j s))

  pub state-handle_join_cluster_resp :
      (env : Surroundings) (from_it : Bool) (resp : RespMsg) (s : Server Store)
      → (handle_join_cluster_resp L P env from_it resp s).state ≡ s.state
  unfolding handle_join_cluster_resp
  state-handle_join_cluster_resp env from_it resp s = elim (Option-cases s.srv_to_join) [
    | inl nobody ↦ rw (handle_join_cluster_resp, nobody) refl
    | inr (j, there) ↦
        rw (handle_join_cluster_resp, there)
          (if_elim (λ (t : Server Store). t.state ≡ s.state) (from_it && resp.accepted)
            (state-sync_log_to_new_srv env resp.next_idx j s) refl)
  ]

  pub state-handle_log_sync_resp :
      (env : Surroundings) (resp : RespMsg) (s : Server Store)
      → (handle_log_sync_resp L P env resp s).state ≡ s.state
  unfolding handle_log_sync_resp before
  state-handle_log_sync_resp env resp s = elim (Option-cases s.srv_to_join) [
    | inl nobody ↦ rw (handle_log_sync_resp, nobody) refl
    | inr (j, there) ↦
        rw (handle_log_sync_resp, there)
          (state-sync_log_to_new_srv env resp.next_idx (known j)
            (record s { srv_to_join = some (known j) }))
  ]
    where
      known : Peer → Peer
      known j = record j { next_log_idx = resp.next_idx; matched_idx = before resp.next_idx }

  state-take_pack : (store : Store) (s : Server Store) → (take_pack L P store s).state ≡ s.state
  unfolding take_pack
  state-take_pack store s =
      state-commit L (next_slot store - 1)
        (record s { log_store = store; precommit_index = next_slot store - 1 })

  pub state-handle_log_sync_req :
      (req : ReqMsg) (s : Server Store) → (handle_log_sync_req L P req s).0.state ≡ s.state
  unfolding handle_log_sync_req
  state-handle_log_sync_req req s = elim (Option-cases (sole_entry req.log_entries)) [
    | inl many ↦ rw (handle_log_sync_req, many) refl
    | inr (e, one) ↦
        rw (handle_log_sync_req, one)
          (if_elim same (not (is_log_pack e.value_type) || not s.catching_up) refl
            (elim (Option-cases (P.apply_pack (req.last_log_idx + 1) e.buff s.log_store)) [
              | inl bad ↦ rw bad refl
              | inr (store, good) ↦ rw good (state-take_pack store s)
            ]))
  ]
    where
      same : Server Store × Option RespMsg → Type 0
      same out = out.0.state ≡ s.state
