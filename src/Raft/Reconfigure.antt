-- ===== src/Raft/Reconfigure.antt =====
-- A committed configuration takes effect: `raft_server::reconfigure` of src/handle_commit.cxx.
-- Connections and heartbeat tasks are effects.
use nu_raft.Common.{
  Option, ℕ, true, false, not, ◌&&◌, ◌||◌, none, some, List, [], ◌∷◌, ◌++◌, map, ◌==◌,
  if◌then◌else◌,
}
use nu_raft.Raft.Types.{is_leader, is_follower}
use nu_raft.Raft.Server.{
  Server, Peer, emit, enable_heartbeat, restart_election_timer, removed_callback, joined_callback,
  update_target_priority,
}
use nu_raft.Raft.Follower.{is_some}
use nu_raft.Raft.Leader.{find_peer, update_peer}
use nu_raft.Raft.Leader.Response.{erase_peer}
use nu_raft.Config.{ClusterConfig, SrvConfig, get_server}

-- The constructor of `peer`, with the next index that follows it.
unfoldable pub new_peer : SrvConfig → ℕ → Peer
new_peer c slot = record {
  id = c.id;
  learner = c.learner;
  priority = c.priority;
  next_log_idx = slot;
  last_accepted_log_idx = 0;
  next_batch_size_hint = 0;
  matched_idx = 0;
  busy = false;
  pending_commit = false;
  last_sent_idx = 0;
  cnt_not_applied = 0;
  stepping_down = false;
  rsv_msg = none;
  hb_enabled = false;
  abandoned = false;
  snapshot_in_sync = false;
  resp_elapsed_ms = 0;
  active_elapsed_ms = 0;
  leave_flag = false;
  hb_cnt_since_leave = 0;
}

-- `insert` keeps an element that is there. The order of `peers_`, a hash map, is not specified.
insert_peer : Peer → List Peer → List Peer
unfolding find_peer
insert_peer p ps = if is_some (find_peer p.id ps) then ps else ps ++ (p ∷ [])

-- A peer takes over what its configuration says now.
unfoldable pub follow_config : ClusterConfig → Peer → Peer
follow_config new p = elim (get_server new p.id) [
  | none ↦ p
  | some c ↦ record p { learner = c.learner; priority = c.priority }
]

unfoldable pub not_in : ClusterConfig → List Peer → List ℕ
not_in new [] = []
not_in new (p ∷ ps) = if is_some (get_server new p.id) then not_in new ps else p.id ∷ not_in new ps

module _ {S : Type 0} where
  -- The server finds itself in the new configuration.
  unfoldable pub note_self : SrvConfig → Server S → Server S
  unfolding emit
  note_self c s =
      let known : Server S = record s { my_priority = c.priority; steps_to_down = 0 } in
      if is_follower s.role && s.catching_up
      then emit restart_election_timer (record known { catching_up = false })
      else known

  unfoldable pub added : List SrvConfig → Server S → List SrvConfig
  unfolding find_peer
  added [] s = []
  added (c ∷ cs) s =
      if is_some (find_peer c.id s.peers) || c.id == s.id then added cs s else c ∷ added cs s

  -- A leader starts the heartbeat, and knows more of a server that it asked to join.
  unfoldable pub add_server : ℕ → SrvConfig → Server S → Server S
  unfolding new_peer insert_peer emit
  add_server slot c s =
      let fresh = new_peer c slot in
      if is_leader s.role
      then elim s.srv_to_join [
        | some j ↦
            if j.id == c.id
            then emit (enable_heartbeat c.id) (record s {
              peers =
                  insert_peer (record fresh { hb_enabled = true; next_log_idx = j.next_log_idx })
                    s.peers;
              srv_to_join = none;
            })
            else emit (enable_heartbeat c.id)
                (record s { peers = insert_peer (record fresh { hb_enabled = true }) s.peers })
        | none ↦
            emit (enable_heartbeat c.id)
              (record s { peers = insert_peer (record fresh { hb_enabled = true }) s.peers })
      ]
      else record s { peers = insert_peer fresh s.peers }

  unfoldable pub add_servers : ℕ → List SrvConfig → Server S → Server S
  unfolding add_server
  add_servers slot [] s = s
  add_servers slot (c ∷ cs) s = add_servers slot cs (add_server slot c s)

  -- A server that is removed itself steps down soon.
  unfoldable pub note_removed : ℕ → Server S → Server S
  unfolding emit
  note_removed id s =
      if id == s.id && not s.catching_up
      then emit removed_callback (record s { steps_to_down = 2 })
      else s

  unfoldable pub stop_sync : ℕ → Server S → Server S
  unfolding find_peer update_peer
  stop_sync id s = elim (find_peer id s.peers) [
    | none ↦ s
    | some q ↦ record s { peers = update_peer (record q { snapshot_in_sync = false }) s.peers }
  ]

  -- A leader keeps the server that leaves until it has caught up.
  unfoldable pub drop_removed : ℕ → Option ℕ → Server S → Server S
  unfolding stop_sync erase_peer
  drop_removed id none s = record s { peers = erase_peer id s.peers }
  drop_removed id (some leaving) s =
      if is_leader s.role then stop_sync leaving s else record s { peers = erase_peer id s.peers }

  unfoldable pub remove_server : ℕ → Server S → Server S
  unfolding note_removed drop_removed find_peer
  remove_server id s =
      let told = note_removed id s in
      if is_some (find_peer id told.peers) then drop_removed id told.srv_to_leave told else told

  unfoldable pub remove_servers : List ℕ → Server S → Server S
  unfolding remove_server
  remove_servers [] s = s
  remove_servers (i ∷ is) s = remove_servers is (remove_server i s)

  unfoldable pub set_config : ClusterConfig → Server S → Server S
  unfolding follow_config
  set_config new s = record s {
    config = new;
    uncommitted_config = elim s.uncommitted_config [
      | none ↦ none
      | some u ↦ if u.log_idx == new.log_idx then none else some u
    ];
    peers = map (follow_config new) s.peers;
  }

  -- `slot` is the log's next slot.
  unfoldable pub reconfigure : ℕ → ClusterConfig → Server S → Server S
  unfolding note_self added add_servers not_in remove_servers set_config update_target_priority emit
      get_server
  reconfigure slot new s =
      let joins = not (is_some (get_server s.config s.id)) && is_some (get_server new s.id) in
      let noted : Server S = elim (get_server new s.id) [ none ↦ s | some c ↦ note_self c s ] in
      let gone = not_in new s.peers ++ (if is_some (get_server new s.id) then [] else s.id ∷ []) in
      let changed =
        set_config new (remove_servers gone (add_servers slot (added new.servers s) noted)) in
      update_target_priority (if joins then emit joined_callback changed else changed)
