-- ===== src/Raft/Membership/Join.antt =====
-- A server joins: the invitation, the transfer of the committed log and the new configuration, of
-- src/handle_join_leave.cxx. The leader's next message to the joining server is sent at once.
use nu_raft.Common.{
  ℕ, ◌+◌, ◌-◌, min, Bool, true, false, not, ◌&&◌, ◌||◌, Option, none, some, [], ◌∷◌, ◌++◌, ltb,
  ◌==◌, if◌then◌else◌, ok, throw,
}
use nu_raft.Config.{ClusterConfig, SrvConfig}
use nu_raft.Raft.Types.{
  follower, LogValType, log_pack, ReqMsg, RespMsg, new_resp, accept, no_server, lt_i32,
  join_cluster_response, sync_log_request, sync_log_response,
}
use nu_raft.Raft.LogStore.{LogStore, LogPack}
use nu_raft.Raft.Server.{
  Server, Peer, emit, send, save_state, save_config, become_follower_callback, enable_heartbeat,
  sync_snapshot, undefined_behavior,
}
use nu_raft.Raft.Follower.{commit}
use nu_raft.Raft.Leader.{Surroundings, new_req, request_append_entries_to_all}
use nu_raft.Raft.Leader.Response.{before}
use nu_raft.Raft.Leader.Become.{config_of}
use nu_raft.Raft.Reconfigure.{reconfigure}
use nu_raft.Raft.Membership.{is_conf, sole_entry, latest_conf, next_conf, propose}

abbrev pub is_log_pack : LogValType → Bool
is_log_pack log_pack = true
is_log_pack _ = false

module _ {S : Type 0} where
  -- The term and the vote are those of the leader that asks; the commit indexes go back to where
  -- the server started, unless it is catching up already.
  unfoldable pub follow_new_leader : ReqMsg → Server S → Server S
  unfolding emit
  follow_new_leader req s =
      let followed : Server S = record s {
        catching_up = true;
        role = follower;
        index_at_becoming_leader = 0;
        leader_id = req.src;
        sm_commit_index = if s.catching_up then s.sm_commit_index else s.initial_commit_index;
        quick_commit_index = if s.catching_up then s.quick_commit_index else s.initial_commit_index;
        state = record (s.state) { voted_for = no_server; term = req.term };
      } in
      emit become_follower_callback (emit (save_state followed.state) followed)

  -- The configuration is saved before it takes effect.
  unfoldable pub take_config : ℕ → ClusterConfig → Server S → Server S
  unfolding reconfigure emit
  take_config slot new s = reconfigure slot new (emit (save_config new) s)

  -- The gap that is left is small enough, or it does not matter.
  unfoldable pub sync_done : ℕ → Server S → Bool
  sync_done gap s =
      (lt_i32 0 s.params.log_sync_stop_gap && ltb gap s.params.log_sync_stop_gap)
      || s.params.log_sync_stop_gap == 0

module _ (L : LogStore) where
  open L use {Store, start_index, next_slot}

  -- `none` in place of the answer: the configuration cannot be read.
  unfoldable pub handle_join_cluster_req : ReqMsg → Server Store → Server Store × Option RespMsg
  unfolding follow_new_leader take_config config_of sole_entry
  handle_join_cluster_req req s =
      let resp = new_resp s.state.term join_cluster_response s.id req.src 0 in
      elim (sole_entry req.log_entries) [
        | none ↦ (s, some resp)
        | some e ↦ if not (is_conf e.value_type) then (s, some resp) else elim (config_of e.buff) [
          | throw x ↦ (follow_new_leader req s, none)
          | ok new ↦
              let joined = take_config (next_slot s.log_store) new (follow_new_leader req s) in
              (joined, some (accept resp (joined.quick_commit_index + 1)))
        ]
      ]

  -- The configuration with the new server is proposed, and the peers are asked to replicate it.
  unfoldable pub admit_server : Option SrvConfig → Surroundings → Server Store → Server Store
  unfolding next_conf propose request_append_entries_to_all latest_conf emit
  admit_server none env s = emit undefined_behavior s
  admit_server (some c) env s =
      request_append_entries_to_all L env
        (propose L (next_conf (next_slot s.log_store) ((latest_conf s).servers ++ (c ∷ [])) s) s)

  unfoldable pub put_into_cluster : Surroundings → Server Store → Server Store
  unfolding admit_server
  put_into_cluster env s = admit_server s.conf_to_add env s

  -- What the server lacks is in the snapshot only; if it cannot be read, a heartbeat retries it.
  unfoldable pub send_snapshot_to_new : Surroundings → ℕ → Peer → Server Store → Server Store
  unfolding emit
  send_snapshot_to_new env start_idx j s =
      if env.snapshot_read
      then emit (sync_snapshot j.id start_idx s.state.term s.quick_commit_index)
          (record s { srv_to_join_snp_retry_required = false })
      else emit (enable_heartbeat j.id) (record s {
        srv_to_join_snp_retry_required = true;
        srv_to_join = some (if j.abandoned then j else record j { hb_enabled = true });
      })

module _ (L : LogStore) (P : LogPack L) where
  open L use {Store, start_index, next_slot}
  open P use {pack, apply_pack}

  unfoldable pub send_pack_to_new : ℕ → ℕ → Peer → Server Store → Server Store
  unfolding emit before
  send_pack_to_new gap start_idx j s =
      elim (pack start_idx (min gap s.params.log_sync_batch_size) s.log_store) [
        | none ↦ emit undefined_behavior s
        | some bytes ↦
            emit
              (send (
                new_req s.state.term sync_log_request s.id j.id 0 (before start_idx)
                  s.quick_commit_index
                  (record { term = s.state.term; value_type = log_pack; buff = bytes } ∷ [])))
              s
      ]

  -- Only committed entries are sent.
  unfoldable pub sync_log_to_new_srv : Surroundings → ℕ → Peer → Server Store → Server Store
  unfolding sync_done put_into_cluster send_snapshot_to_new send_pack_to_new
  sync_log_to_new_srv env start_idx j s =
      let gap = s.quick_commit_index - start_idx in
      if sync_done gap s
      then put_into_cluster L env s
      else if ltb start_idx (start_index s.log_store)
      then send_snapshot_to_new L env start_idx j s
      else send_pack_to_new gap start_idx j s

  -- `from_it`: the answer comes over the connection to the server that is joining.
  unfoldable pub handle_join_cluster_resp :
      Surroundings → Bool → RespMsg → Server Store → Server Store
  unfolding sync_log_to_new_srv
  handle_join_cluster_resp env from_it resp s = elim s.srv_to_join [
    | none ↦ s
    | some j ↦ if from_it && resp.accepted then sync_log_to_new_srv env resp.next_idx j s else s
  ]

  unfoldable pub handle_log_sync_resp : Surroundings → RespMsg → Server Store → Server Store
  unfolding sync_log_to_new_srv before
  handle_log_sync_resp env resp s = elim s.srv_to_join [
    | none ↦ s
    | some j ↦
        let known : Peer = record j {
          next_log_idx = resp.next_idx;
          matched_idx = before resp.next_idx;
        } in
        sync_log_to_new_srv env resp.next_idx known (record s { srv_to_join = some known })
  ]

  -- What was received is pre-committed and committed.
  unfoldable pub take_pack : Store → Server Store → Server Store
  unfolding commit
  take_pack store s =
      commit L (next_slot store - 1)
        (record s { log_store = store; precommit_index = next_slot store - 1 })

  unfoldable pub handle_log_sync_req : ReqMsg → Server Store → Server Store × Option RespMsg
  unfolding take_pack sole_entry
  handle_log_sync_req req s =
      let resp = new_resp s.state.term sync_log_response s.id req.src (next_slot s.log_store) in
      elim (sole_entry req.log_entries) [
        | none ↦ (s, some resp)
        | some e ↦
            if not (is_log_pack e.value_type) || not s.catching_up
            then (s, some resp)
            else elim (apply_pack (req.last_log_idx + 1) e.buff s.log_store) [
              | none ↦ (s, none)
              | some store ↦ (take_pack store s, some (accept resp (next_slot store)))
            ]
      ]
