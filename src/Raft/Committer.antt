-- ===== src/Raft/Committer.antt =====
-- The commit thread: `commit_in_bg_exec` of src/handle_commit.cxx with what it calls, run by one
-- thread with no time limit. What waiting clients are told is left out, and so is the configuration
-- that a snapshot carries. An entry that cannot be executed ends the process.
pub mod Quiet
pub mod Order
pub mod Tests
use nu_raft.Common.{
  ℕ, zero, suc, ◌+◌, ◌-◌, ◌%◌, ◌^◌, min, Bool, true, false, not, ◌&&◌, ◌||◌, Option, none, some,
  List, [], ◌∷◌, ltb, leb, ◌==◌, if◌then◌else◌, ok, throw,
}
use nu_raft.Raft.Types.{is_follower, LogEntry, app_log, conf}
use nu_raft.Raft.LogStore.{LogStore}
use nu_raft.Raft.Server.{
  Server, Effect, emit, commit_log, commit_config, execution_callback, new_config_callback,
  save_config, create_snapshot, system_exit, become_fresh_callback, become_stale_callback,
  compact_log,
}
use nu_raft.Raft.Leader.Become.{config_of}
use nu_raft.Raft.Reconfigure.{reconfigure}
use nu_raft.Config.{ClusterConfig}

-- What the application says of snapshots, the distance of the first one where that is random, and
-- whether the execution is paused.
pub record Machine : Type 0 where
  pub wants_snapshot : Bool
  pub snapshot_allowed : Bool
  pub first_distance : Option ℕ
  pub paused : Bool

-- The index of a snapshot is at most this.
snapshot_below : ℕ → Option (ℕ × ℕ) → Bool
snapshot_below i none = true
snapshot_below i (some (j, t)) = ltb j i

far_from : ℕ → ℕ → Option (ℕ × ℕ) → Bool
far_from i distance none = true
far_from i distance (some (j, t)) = leb (distance + j) i

distance_of : Machine → Option (ℕ × ℕ) → ℕ → ℕ
distance_of m (some snapshot) usual = usual
distance_of m none usual = elim m.first_distance [
  | none ↦ usual
  | some first ↦ if usual == 0 then usual else first
]

module _ (L : LogStore) where
  open L use {Store, start_index, next_slot, entry_at, term_at}

  -- A forced snapshot, or one that a user has scheduled, keeps no distance. The subtraction is one
  -- of `uint64_t`.
  snapshot_due : Machine → ℕ → Bool → Server Store → Bool
  unfolding distance_of far_from
  snapshot_due m idx forced s =
      let distance = distance_of m s.last_snapshot s.params.snapshot_distance in
      let length_so_far = (idx + 2 ^ 64 - start_index s.log_store + 1) % 2 ^ 64 in
      let ordered = forced || s.snp_creation_scheduled in
      ltb s.config.prev_log_idx (next_slot s.log_store)
      && (ordered
          || (not (s.params.snapshot_distance == 0)
              && leb distance length_so_far
              && m.wants_snapshot))
      && m.snapshot_allowed
      && (ordered || far_from idx distance s.last_snapshot)
      && not s.snp_in_progress

  -- In progress until `on_snapshot_completed`. One for an older index than the last is not made.
  unfoldable pub snapshot_and_compact : Machine → ℕ → Bool → Server Store → Server Store × Bool
  unfolding snapshot_due snapshot_below emit
  snapshot_and_compact m idx forced s =
      if snapshot_due m idx forced s && snapshot_below idx s.last_snapshot
      then (
        emit (create_snapshot idx (term_at s.log_store idx)) (record s { snp_in_progress = true }),
        true,
      )
      else (s, false)

  -- `raft_server::create_snapshot`: the index of the snapshot, or 0.
  pub create_snapshot_now : Machine → Server Store → Server Store × ℕ
  unfolding snapshot_and_compact
  create_snapshot_now m s =
      let (t, made) = snapshot_and_compact m s.sm_commit_index true s in
      (t, if made then s.sm_commit_index else 0)

  pub schedule_snapshot_creation : Server Store → Server Store
  schedule_snapshot_creation s = record s { snp_creation_scheduled = true }

  -- The state machine's last snapshot is the server's now; the log behind a reserve goes.
  pub on_snapshot_completed : Bool → Bool → ℕ × ℕ → Server Store → Server Store
  unfolding emit
  on_snapshot_completed done scheduled (idx, term) s =
      let taken : Server Store = record s {
        snp_in_progress = false;
        snp_creation_scheduled = if scheduled then false else s.snp_creation_scheduled;
        last_snapshot = if done then some (idx, term) else s.last_snapshot;
      } in
      if done && ltb s.params.reserved_log_items idx
      then emit (compact_log (idx - s.params.reserved_log_items)) taken
      else taken

  -- False: the process ends, as the entry was never pre-committed.
  commit_app_log : ℕ → LogEntry → Server Store → Server Store × Bool
  unfolding emit
  commit_app_log idx entry s =
      if ltb s.precommit_index idx
      then (emit system_exit s, false)
      else (emit (commit_log idx entry.buff) s, true)

  -- An older configuration does not overwrite a newer one.
  apply_config : ℕ → ClusterConfig → Server Store → Server Store
  unfolding reconfigure emit
  apply_config idx new s =
      let settled : Server Store = record s { config_changing = false } in
      let applied =
        if ltb s.config.log_idx new.log_idx
        then reconfigure (next_slot s.log_store) new (emit (save_config new) settled)
        else settled in
      emit (commit_config idx) (emit (new_config_callback idx) applied)

  -- False: the entry is no configuration, and the exception ends the process.
  commit_conf : ℕ → LogEntry → Server Store → Server Store × Bool
  unfolding apply_config config_of emit
  commit_conf idx entry s = elim (config_of entry.buff) [
    | ok new ↦ (apply_config idx new s, true)
    | throw e ↦ (emit system_exit s, false)
  ]

  execute : ℕ → LogEntry → Server Store → Server Store × Bool
  unfolding commit_app_log commit_conf
  execute idx entry s = elim entry.value_type [
    | app_log ↦ commit_app_log idx entry s
    | conf ↦ commit_conf idx entry s
    | _ ↦ (s, true)
  ]

  -- What follows the execution of an entry.
  advance : Machine → ℕ → Server Store → Server Store
  unfolding snapshot_and_compact emit
  advance m idx s =
      emit (execution_callback idx)
        (snapshot_and_compact m idx false (record s { sm_commit_index = idx })).0

  -- The next entry; one of term 0 is a broken log.
  commit_next : Machine → Server Store → Server Store × Bool
  unfolding execute advance emit
  commit_next m s =
      let idx = s.sm_commit_index + 1 in
      let entry = entry_at s.log_store idx in
      if entry.term == 0
      then (emit system_exit s, false)
      else (let (t, alive) = execute idx entry s in
          if alive then (advance m idx t, true) else (t, false))

  has_next : Machine → Server Store → Bool
  has_next m s =
      ltb s.sm_commit_index s.quick_commit_index
      && ltb s.sm_commit_index (next_slot s.log_store - 1)
      && not m.paused

  pub commit_loop : ℕ → Machine → Server Store → Server Store
  unfolding has_next commit_next
  commit_loop zero m s = s
  commit_loop (suc n) m s = elim (has_next m s) [
    | false ↦ s
    | true ↦ let (t, alive) = commit_next m s in elim alive [ true ↦ commit_loop n m t | false ↦ t ]
  ]

  -- Entries before the log are taken as executed.
  skip_to_log : Server Store → Server Store
  skip_to_log s =
      if not (start_index s.log_store == 0) && ltb s.sm_commit_index (start_index s.log_store - 1)
      then record s { sm_commit_index = start_index s.log_store - 1 }
      else s

  pub check_freshness : Server Store → Server Store
  unfolding emit
  check_freshness s =
      if not (is_follower s.role)
      then s
      else if s.data_fresh && ltb (s.sm_commit_index + s.params.stale_log_gap) s.leader_commit_index
      then emit become_stale_callback (record s { data_fresh = false })
      else if not s.data_fresh
          && ltb s.leader_commit_index (s.sm_commit_index + s.params.fresh_log_gap)
      then emit become_fresh_callback (record s { data_fresh = true })
      else s

  -- As many rounds as there are entries to execute.
  rounds : Server Store → ℕ
  rounds s = min s.quick_commit_index (next_slot s.log_store - 1) - s.sm_commit_index

  pub commit_in_bg_exec : Machine → Server Store → Server Store
  unfolding skip_to_log rounds commit_loop check_freshness
  commit_in_bg_exec m s =
      let ready = skip_to_log s in check_freshness (commit_loop (rounds ready) m ready)
