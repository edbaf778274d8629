-- ===== src/Raft/Follower.antt =====
-- A follower's side of log replication: `raft_server::handle_append_entries` of
-- src/handle_append_entries.cxx with what it calls. Waiting for durable logs under parallel
-- appending changes no state and is left out, and so are the timers that only choose a log level.
pub mod Merge
pub mod Steps
pub mod Write
pub mod Prepare
pub mod Finish
pub mod Replicate
pub mod Refuse
pub mod State
pub mod Agree
use nu_raft.Common.{
  ℕ, zero, suc, ◌+◌, ◌-◌, ◌*◌, ◌/◌, ◌^◌, max, min, Bool, true, false, not, ◌&&◌, ◌||◌, Option, none,
  some, List, [], ◌∷◌, length, map, ltb, leb, ◌==◌, if◌then◌else◌,
}
use nu_raft.Raft.Types.{
  Role, follower, candidate, leader, is_leader, is_follower, is_candidate, SrvState, ReqMsg,
  RespMsg, LogEntry, LogValType, app_log, conf, no_server, new_resp, accept,
  append_entries_response,
}
use nu_raft.Raft.LogStore.{LogStore}
use nu_raft.Raft.Server.{
  Server, Effect, emit, end_of_append_batch, become_follower, update_target_priority,
  try_update_precommit_index, pre_commit, rollback, rollback_config, notify_commit_thread,
  become_fresh_callback, restart_election_timer, request_append, request_append_for_all,
}
use nu_raft.Config.{ClusterConfig, get_server}

-- What the application answers while a request is handled: whether its callbacks let the request
-- be handled and accept the entries, and the hint for the next batch (an `int64` bit pattern; -1
-- is 2 ^ 64 - 1).
pub record Answers : Type 0 where
  pub request_accepted : Bool
  pub entries_accepted : Bool
  pub batch_size_hint : ℕ

abbrev pub is_some {ℓ} : {A : Type ℓ} → Option A → Bool
is_some none = false
is_some (some a) = true

-- The last snapshot is at this index, of this term.
unfoldable pub snapshot_matches : Option (ℕ × ℕ) → ℕ → ℕ → Bool
snapshot_matches none idx term = false
snapshot_matches (some (i, t)) idx term = i == idx && t == term

unfoldable pub snapshot_term : Option (ℕ × ℕ) → ℕ → ℕ
snapshot_term none idx = 0
snapshot_term (some (i, t)) idx = if i == idx then t else 0

module _ (L : LogStore) where
  open L use {Store, start_index, next_slot, entry_at, term_at, append, write_at}

  unfoldable pub term_for_log : Server Store → ℕ → ℕ
  unfolding snapshot_term
  term_for_log s log_idx =
      if log_idx == 0
      then 0
      else if leb (start_index s.log_store) log_idx
      then term_at s.log_store log_idx
      else snapshot_term s.last_snapshot log_idx

  -- Index 0 asks for an append. The flush after a configuration is taken to succeed: where it
  -- fails, the process ends.
  unfoldable pub store_log_entry : LogEntry → ℕ → Server Store → Server Store × ℕ
  unfolding try_update_precommit_index
  store_log_entry entry index s =
      let log_index = if index == 0 then next_slot s.log_store else index in
      let stored : Server Store = record s {
        log_store =
            if index == 0 then append entry s.log_store else write_at index entry s.log_store;
      } in
      elim entry.value_type [
        | conf ↦
            if is_leader s.role
            then ((try_update_precommit_index log_index stored).0, log_index)
            else (stored, log_index)
        | _ ↦ (stored, log_index)
      ]

  -- A leader also asks its peers to replicate; a follower that is up to date reports itself fresh.
  unfoldable pub commit : ℕ → Server Store → Server Store
  unfolding emit request_append_for_all
  commit target_idx s =
      let advanced : Server Store =
        if ltb s.quick_commit_index target_idx
        then (let moved : Server Store = record s {
          quick_commit_index = target_idx;
          lagging_sm_target_index = target_idx;
        } in
            if is_leader s.role then request_append_for_all s.peers moved else moved)
        else s in
      if ltb advanced.sm_commit_index (next_slot advanced.log_store - 1)
        && ltb advanced.sm_commit_index advanced.quick_commit_index
      then emit notify_commit_thread advanced
      else if is_follower advanced.role
          && not advanced.data_fresh
          && ltb advanced.leader_commit_index
              (advanced.sm_commit_index + advanced.params.fresh_log_gap)
      then emit become_fresh_callback (record advanced { data_fresh = true })
      else advanced

  -- Skipping the entries that the log has already, with the same term: the index and the entries
  -- that are left.
  pub skip_existing : Store → ℕ → List LogEntry → ℕ × List LogEntry
  skip_existing log log_idx [] = (log_idx, [])
  skip_existing log log_idx (e ∷ es) =
      if ltb log_idx (next_slot log) && term_at log log_idx == e.term
      then skip_existing log (log_idx + 1) es
      else (log_idx, e ∷ es)

  pub rollback_entry : ℕ → Server Store → Server Store
  unfolding emit
  rollback_entry idx s = elim (entry_at s.log_store idx).value_type [
    | app_log ↦ emit (rollback idx) s
    | conf ↦ record (emit (rollback_config idx) s) { config_changing = false }
    | _ ↦ s
  ]

  -- From `idx` downwards, `n` entries.
  pub rollback_loop : ℕ → ℕ → Server Store → Server Store
  unfolding rollback_entry
  rollback_loop zero idx s = s
  rollback_loop (suc n) idx s = rollback_loop n (idx - 1) (rollback_entry idx s)

  -- Only with an entry to overwrite. The log itself is cut by the write that follows.
  pub rollback_logs : ℕ → List LogEntry → Server Store → Server Store
  unfolding rollback_loop
  rollback_logs log_idx [] s = s
  rollback_logs log_idx (e ∷ es) s =
      let my_last_log_idx = next_slot s.log_store - 1 in
      if leb log_idx my_last_log_idx
      then rollback_loop (my_last_log_idx - log_idx + 1) my_last_log_idx (record s {
        quick_commit_index =
            if leb log_idx s.quick_commit_index then log_idx - 1 else s.quick_commit_index;
        sm_commit_index = if leb log_idx s.sm_commit_index then log_idx - 1 else s.sm_commit_index;
      })
      else s

  -- What both loops do with an entry that is stored: a pre-commit, or a pending configuration.
  pub after_store : ℕ → LogEntry → Server Store → Server Store
  unfolding emit
  after_store idx entry s = elim entry.value_type [
    | app_log ↦ emit (pre_commit idx) s
    | conf ↦ record s { config_changing = true }
    | _ ↦ s
  ]

  -- The entries that are left, and whether the server is stopping.
  pub overwrite_loop : List LogEntry → ℕ → Server Store → Server Store × List LogEntry × Bool
  unfolding store_log_entry after_store
  overwrite_loop [] log_idx s = (s, [], false)
  overwrite_loop (e ∷ es) log_idx s = elim (ltb log_idx (next_slot s.log_store)) [
    | false ↦ (s, e ∷ es, false)
    | true ↦
        let written = after_store log_idx e (store_log_entry e log_idx s).0 in
        elim written.stopping [
          | true ↦ (written, es, true)
          | false ↦ overwrite_loop es (log_idx + 1) written
        ]
  ]

  pub append_loop : List LogEntry → Server Store → Server Store × Bool
  unfolding store_log_entry after_store
  append_loop [] s = (s, false)
  append_loop (e ∷ es) s =
      let (stored, idx) = store_log_entry e 0 s in
      let appended = after_store idx e stored in
      elim appended.stopping [ true ↦ (appended, true) | false ↦ append_loop es appended ]

  -- The whole of the writing. True: the server is stopping and the rest is not done.
  pub write_entries : ReqMsg → Server Store → Server Store × Bool
  unfolding skip_existing rollback_logs overwrite_loop append_loop
  write_entries req s =
      let (log_idx, rest) = skip_existing s.log_store (req.last_log_idx + 1) req.log_entries in
      let (overwritten, left, stopped) =
        overwrite_loop rest log_idx (rollback_logs log_idx rest s) in
      if stopped then (overwritten, true) else append_loop left overwritten

  -- The entries before the first new one are the leader's.
  unfoldable pub log_okay : ReqMsg → Server Store → Bool
  unfolding term_for_log snapshot_matches
  log_okay req s =
      let log_term =
        if ltb req.last_log_idx (next_slot s.log_store)
        then term_for_log s req.last_log_idx
        else 0 in
      req.last_log_idx == 0
      || (not (log_term == 0) && req.last_log_term == log_term)
      || snapshot_matches s.last_snapshot req.last_log_idx req.last_log_term

  pub clear_catching_up : Server Store → Server Store
  clear_catching_up s =
      if s.catching_up && is_some (get_server s.config s.id)
      then record s { catching_up = false }
      else s

  -- A candidate of the same term follows; `none`: there is another leader of this term.
  pub accept_leader : ReqMsg → Server Store → Option (Server Store)
  unfolding become_follower update_target_priority
  accept_leader req s =
      if req.term == s.state.term
      then elim s.role [
        | candidate ↦ some (become_follower s)
        | leader ↦ none
        | follower ↦ some (update_target_priority s)
      ]
      else some s

  -- After the entries are written.
  pub finish_append : ReqMsg → Answers → RespMsg → Server Store → Server Store × RespMsg
  unfolding try_update_precommit_index commit emit
  finish_append req answers resp s =
      let target = req.last_log_idx + length req.log_entries in
      let followed : Server Store = record s {
        leader_id = req.src;
        leader_commit_index = req.commit_idx;
      } in
      let (precommitted, updated) = try_update_precommit_index target followed in
      let committed : Server Store =
        if updated then commit (min req.commit_idx target) precommitted else precommitted in
      let timed : Server Store =
        if req.term == committed.state.term && is_follower committed.role
        then emit restart_election_timer committed
        else committed in
      (
        record timed { out_of_log_range = false },
        record (accept resp (target + 1)) { next_batch_size_hint = answers.batch_size_hint },
      )

  -- The store is told where the batch ends, if there is one.
  pub end_batch : ReqMsg → Server Store → Server Store
  unfolding emit
  end_batch req s =
      if length req.log_entries == 0
      then s
      else emit (end_of_append_batch (req.last_log_idx + 1) (length req.log_entries)) s

  pub append_or_deny : ReqMsg → Answers → Server Store → Server Store × RespMsg
  unfolding log_okay write_entries end_batch finish_append emit
  append_or_deny req answers s =
      let resp =
        new_resp s.state.term append_entries_response s.id req.src (next_slot s.log_store) in
      if ltb req.term s.state.term || not (log_okay req s)
      then (s, record resp { next_batch_size_hint = answers.batch_size_hint })
      else (let ready : Server Store = record s { initialized = true } in
          if not answers.entries_accepted
          then (
            emit restart_election_timer ready,
            record resp { do_not_rewind = true; next_batch_size_hint = 2 ^ 64 - 1 },
          )
          else (let (written, stopped) = write_entries req ready in
              if stopped
              then (written, resp)
              else finish_append req answers resp (end_batch req written)))

  -- `none` is the null response.
  unfoldable pub handle_append_entries :
      ReqMsg → Answers → Server Store → Server Store × Option RespMsg
  unfolding clear_catching_up accept_leader append_or_deny
  handle_append_entries req answers s = elim (accept_leader req (clear_catching_up s)) [
    | none ↦ (clear_catching_up s, none)
    | some s' ↦ let (s'', resp) = append_or_deny req answers s' in (s'', some resp)
  ]
