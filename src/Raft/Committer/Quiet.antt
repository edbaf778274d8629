-- ===== src/Raft/Committer/Quiet.antt =====
-- What a new configuration, a snapshot and the checks around the execution of entries leave alone
-- (src/handle_commit.cxx): the log, the commit indexes, and what the state machine has executed.
use nu_raft.Common.{
  ℕ, ◌≡◌, refl, ◌∙◌, arith, Bool, true, false, not, ◌&&◌, ◌==◌, Option, none, some, List, [], ◌∷◌,
  ◌++◌, if_elim, if◌then◌else◌,
}
use nu_raft.Raft.LogStore.{LogStore}
use nu_raft.Raft.Server.{
  Server, Peer, Effect, emit, commit_log, joined_callback, update_target_priority,
}
use nu_raft.Raft.Types.{is_leader, is_follower}
use nu_raft.Raft.Leader.{find_peer, update_peer}
use nu_raft.Raft.Follower.{is_some}
use nu_raft.Raft.Reconfigure.{
  note_self, add_server, add_servers, note_removed, stop_sync, drop_removed, remove_server,
  remove_servers, set_config, added, not_in, reconfigure,
}
use nu_raft.Raft.Committer.{
  Machine, snapshot_due, snapshot_below, snapshot_and_compact, check_freshness,
}
use nu_raft.Config.{ClusterConfig, SrvConfig, get_server}

-- What the state machine was given, the newest first.
unfoldable pub executed : List Effect → List (ℕ × List ℕ)
executed [] = []
executed (commit_log i buff ∷ es) = (i, buff) ∷ executed es
executed (_ ∷ es) = executed es

module _ {S : Type 0} where
  pub record Quiet (s t : Server S) : Type 0 where
    pub log : t.log_store ≡ s.log_store
    pub quick : t.quick_commit_index ≡ s.quick_commit_index
    pub precommit : t.precommit_index ≡ s.precommit_index
    pub sm : t.sm_commit_index ≡ s.sm_commit_index
    pub state : t.state ≡ s.state
    pub given : executed t.effects ≡ executed s.effects

  pub Quiet-refl : (s : Server S) → Quiet s s
  Quiet-refl s = record {
    log = refl;
    quick = refl;
    precommit = refl;
    sm = refl;
    state = refl;
    given = refl;
  }

  pub Quiet-trans : {s t u : Server S} → Quiet s t → Quiet t u → Quiet s u
  Quiet-trans a b = record {
    log = b.log ∙ a.log;
    quick = b.quick ∙ a.quick;
    precommit = b.precommit ∙ a.precommit;
    sm = b.sm ∙ a.sm;
    state = b.state ∙ a.state;
    given = b.given ∙ a.given;
  }

  same :
      (s t : Server S)
      → t.log_store ≡ s.log_store
      → t.quick_commit_index ≡ s.quick_commit_index
      → t.precommit_index ≡ s.precommit_index
      → t.sm_commit_index ≡ s.sm_commit_index
      → t.state ≡ s.state
      → executed t.effects ≡ executed s.effects
      → Quiet s t
  same s t log quick precommit sm state given = record {
    log = log;
    quick = quick;
    precommit = precommit;
    sm = sm;
    state = state;
    given = given;
  }

  note_self-Quiet : (c : SrvConfig) (s : Server S) → Quiet s (note_self c s)
  unfolding note_self executed emit
  note_self-Quiet c s =
      if_elim (λ (t : Server S). Quiet s t) (is_follower s.role && s.catching_up)
        (same s _ refl refl refl refl refl refl) (same s _ refl refl refl refl refl refl)

  add_server-Quiet : (slot : ℕ) (c : SrvConfig) (s : Server S) → Quiet s (add_server slot c s)
  unfolding add_server executed emit
  add_server-Quiet slot c s = record {
    log = ground arith;
    quick = ground arith;
    precommit = ground arith;
    sm = ground arith;
    state = ground arith;
    given = ground arith;
  }

  add_servers-Quiet :
      (slot : ℕ) (cs : List SrvConfig) (s : Server S) → Quiet s (add_servers slot cs s)
  unfolding add_servers
  add_servers-Quiet slot [] s = Quiet-refl s
  add_servers-Quiet slot (c ∷ cs) s =
      Quiet-trans (add_server-Quiet slot c s) (add_servers-Quiet slot cs (add_server slot c s))

  note_removed-Quiet : (id : ℕ) (s : Server S) → Quiet s (note_removed id s)
  unfolding note_removed executed emit
  note_removed-Quiet id s =
      if_elim (λ (t : Server S). Quiet s t) (id == s.id && not s.catching_up)
        (same s _ refl refl refl refl refl refl) (Quiet-refl s)

  stopped-Quiet :
      (o : Option Peer) (s : Server S)
      → Quiet s (elim o as (λ x. Server S) [
        | none ↦ s
        | some q ↦ record s { peers = update_peer (record q { snapshot_in_sync = false }) s.peers }
      ])
  stopped-Quiet none s = Quiet-refl s
  stopped-Quiet (some q) s = same s _ refl refl refl refl refl refl

  stop_sync-Quiet : (id : ℕ) (s : Server S) → Quiet s (stop_sync id s)
  unfolding stop_sync
  stop_sync-Quiet id s = stopped-Quiet (find_peer id s.peers) s

  drop_removed-Quiet : (id : ℕ) (o : Option ℕ) (s : Server S) → Quiet s (drop_removed id o s)
  unfolding drop_removed
  drop_removed-Quiet id none s = same s _ refl refl refl refl refl refl
  drop_removed-Quiet id (some leaving) s =
      if_elim (λ (t : Server S). Quiet s t) (is_leader s.role) (stop_sync-Quiet leaving s)
        (same s _ refl refl refl refl refl refl)

  remove_server-Quiet : (id : ℕ) (s : Server S) → Quiet s (remove_server id s)
  unfolding remove_server
  remove_server-Quiet id s =
      if_elim (λ (t : Server S). Quiet s t) (is_some (find_peer id (note_removed id s).peers))
        (Quiet-trans (note_removed-Quiet id s)
          (drop_removed-Quiet id (note_removed id s).srv_to_leave (note_removed id s)))
        (note_removed-Quiet id s)

  remove_servers-Quiet : (is : List ℕ) (s : Server S) → Quiet s (remove_servers is s)
  unfolding remove_servers
  remove_servers-Quiet [] s = Quiet-refl s
  remove_servers-Quiet (i ∷ is) s =
      Quiet-trans (remove_server-Quiet i s) (remove_servers-Quiet is (remove_server i s))

  set_config-Quiet : (new : ClusterConfig) (s : Server S) → Quiet s (set_config new s)
  unfolding set_config
  set_config-Quiet new s = record {
    log = refl;
    quick = refl;
    precommit = refl;
    sm = refl;
    state = refl;
    given = refl;
  }

  noted-Quiet :
      (o : Option SrvConfig) (s : Server S)
      → Quiet s (elim o as (λ x. Server S) [ none ↦ s | some c ↦ note_self c s ])
  noted-Quiet none s = Quiet-refl s
  noted-Quiet (some c) s = note_self-Quiet c s

  joined-Quiet :
      (b : Bool) (s : Server S)
      → Quiet s (update_target_priority (if b then emit joined_callback s else s))
  unfolding update_target_priority executed emit
  joined-Quiet true s = record {
    log = refl;
    quick = refl;
    precommit = refl;
    sm = refl;
    state = refl;
    given = refl;
  }
  joined-Quiet false s = record {
    log = refl;
    quick = refl;
    precommit = refl;
    sm = refl;
    state = refl;
    given = refl;
  }

  -- A new configuration touches neither the log nor what is committed.
  pub reconfigure-Quiet :
      (slot : ℕ) (new : ClusterConfig) (s : Server S) → Quiet s (reconfigure slot new s)
  unfolding reconfigure
  reconfigure-Quiet slot new s = Quiet-trans (noted-Quiet (get_server new s.id) s) (
      Quiet-trans (add_servers-Quiet slot new_ones noted) (
        Quiet-trans (remove_servers-Quiet gone grown) (
          Quiet-trans (set_config-Quiet new (remove_servers gone grown))
            (joined-Quiet joins (set_config new (remove_servers gone grown))))))
    where
      noted : Server S
      noted = elim (get_server new s.id) [ none ↦ s | some c ↦ note_self c s ]

      new_ones : List SrvConfig
      new_ones = added new.servers s

      grown : Server S
      grown = add_servers slot new_ones noted

      gone : List ℕ
      gone = not_in new s.peers ++ (if is_some (get_server new s.id) then [] else s.id ∷ [])

      joins : Bool
      joins = not (is_some (get_server s.config s.id)) && is_some (get_server new s.id)

module _ (L : LogStore) where
  open L use {Store}

  pub snapshot_and_compact-Quiet :
      (m : Machine) (idx : ℕ) (forced : Bool) (s : Server Store)
      → Quiet s (snapshot_and_compact L m idx forced s).0
  unfolding snapshot_and_compact executed emit
  snapshot_and_compact-Quiet m idx forced s =
      if_elim (λ (out : Server Store × Bool). Quiet s out.0)
        (snapshot_due L m idx forced s && snapshot_below idx s.last_snapshot)
        (record {
          log = refl;
          quick = refl;
          precommit = refl;
          sm = refl;
          state = refl;
          given = refl;
        })
        (Quiet-refl s)

  pub check_freshness-Quiet : (s : Server Store) → Quiet s (check_freshness L s)
  unfolding check_freshness executed emit
  check_freshness-Quiet s = record {
    log = ground arith;
    quick = ground arith;
    precommit = ground arith;
    sm = ground arith;
    state = ground arith;
    given = ground arith;
  }
