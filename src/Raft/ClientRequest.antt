-- ===== src/Raft/ClientRequest.antt =====
-- Requests of clients: `handle_cli_req_prelock` and `handle_cli_req` of
-- src/handle_client_request.cxx, without the background thread for urgent commits. What a waiting
-- client is told later is left out, and so are timestamps.
pub mod State
pub mod Stored
pub mod Tests
use nu_raft.Common.{
  ℕ, zero, suc, ◌+◌, ◌-◌, Bool, true, false, not, ◌&&◌, ◌||◌, Option, none, some, List, [], ◌∷◌,
  length, ◌==◌, if◌then◌else◌,
}
use nu_raft.Raft.Types.{is_leader, LogEntry, ReqMsg}
use nu_raft.Raft.LogStore.{LogStore}
use nu_raft.Raft.Server.{
  Server, emit, pre_commit, end_of_append_batch, append_logs_callback, try_update_precommit_index,
}
use nu_raft.Raft.Follower.{store_log_entry}
use nu_raft.Raft.Leader.{Surroundings, request_append_entries_to_all}

-- The codes NOT_LEADER and TERM_MISMATCH, no response, as the application wants it, or the index
-- behind the log that the client waits for.
pub data CliAnswer : Type 0 where
  not_leader term_mismatch dropped : CliAnswer
  appended_up_to : ℕ → CliAnswer

-- What a request brings along: the term that the client expects, or 0, and whether the callback
-- lets the response pass.
pub record CliParams : Type 0 where
  pub expected_term : ℕ
  pub appending_accepted : Bool

-- A leader's term is forced on the entry.
unfoldable pub stamp : ℕ → LogEntry → LogEntry
stamp term e = record e { term = term }

-- Only a leader that is not about to resign, and in the term that is expected.
unfoldable pub cli_refusal : {S : Type 0} → CliParams → Server S → Option CliAnswer
cli_refusal ext s =
    if not (is_leader s.role) || s.write_paused
    then some not_leader
    else if not (ext.expected_term == 0) && not (ext.expected_term == s.state.term)
    then some term_mismatch
    else none

module _ (L : LogStore) where
  open L use {Store, next_slot}

  pub store_cli_entry : LogEntry → Server Store → Server Store × ℕ
  unfolding store_log_entry emit stamp
  store_cli_entry e s =
      let (stored, idx) = store_log_entry L (stamp s.state.term e) 0 s in
      (emit (pre_commit idx) stored, idx)

  pub store_cli_entries : List LogEntry → ℕ → Server Store → Server Store × ℕ
  unfolding store_cli_entry
  store_cli_entries [] last_idx s = (s, last_idx)
  store_cli_entries (e ∷ es) last_idx s =
      store_cli_entries es (store_cli_entry e s).1 (store_cli_entry e s).0

  note_batch : ℕ → ℕ → Server Store → Server Store
  unfolding emit
  note_batch zero last_idx s = s
  note_batch (suc n) last_idx s = emit (end_of_append_batch (last_idx - suc n) (suc n)) s

  -- The entries are appended, and the log store is told of the batch.
  pub append_batch : List LogEntry → Server Store → Server Store × ℕ
  unfolding store_cli_entries note_batch
  append_batch es s =
      let (stored, last_idx) = store_cli_entries es 0 s in
      (note_batch (length es) last_idx stored, last_idx)

  unfoldable pub take_cli_req : CliParams → List LogEntry → Server Store → Server Store × CliAnswer
  unfolding append_batch try_update_precommit_index emit
  take_cli_req ext es s =
      let (stored, last_idx) = append_batch es s in
      let told =
        emit (append_logs_callback last_idx) (try_update_precommit_index last_idx stored).0 in
      (told, if ext.appending_accepted then appended_up_to (next_slot told.log_store) else dropped)

  unfoldable pub handle_cli_req : CliParams → ReqMsg → Server Store → Server Store × CliAnswer
  unfolding cli_refusal take_cli_req
  handle_cli_req ext req s = elim (cli_refusal ext s) [
    | some answer ↦ (s, answer)
    | none ↦ take_cli_req ext req.log_entries s
  ]

  -- Whatever the answer is, the peers are asked to replicate.
  unfoldable pub handle_cli_req_prelock :
      Surroundings → CliParams → ReqMsg → Server Store → Server Store × CliAnswer
  unfolding handle_cli_req request_append_entries_to_all
  handle_cli_req_prelock env ext req s =
      let (t, answer) = handle_cli_req ext req s in (request_append_entries_to_all L env t, answer)
