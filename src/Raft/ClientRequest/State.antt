-- ===== src/Raft/ClientRequest/State.antt =====
-- Requests of clients leave the term and the vote alone (src/handle_client_request.cxx).
use nu_raft.Common.{
  ℕ, zero, suc, ◌≡◌, refl, ◌∙◌, List, [], ◌∷◌, length, Option-cases, inl, inr, arith,
}
use nu_raft.Raft.Types.{LogEntry, ReqMsg}
use nu_raft.Raft.LogStore.{LogStore}
use nu_raft.Raft.Server.{Server, emit, try_update_precommit_index}
use nu_raft.Raft.Leader.{Surroundings}
use nu_raft.Raft.Leader.State.{state-store_log_entry, state-request_append_entries_to_all}
use nu_raft.Raft.ClientRequest.{
  CliParams, stamp, cli_refusal, store_cli_entry, store_cli_entries, note_batch, append_batch,
  take_cli_req, handle_cli_req, handle_cli_req_prelock,
}

module _ (L : LogStore) where
  open L use {Store}

  state-store_cli_entries :
      (es : List LogEntry) (last : ℕ) (s : Server Store)
      → (store_cli_entries L es last s).0.state ≡ s.state
  unfolding store_cli_entries store_cli_entry emit
  state-store_cli_entries [] last s = refl
  state-store_cli_entries (e ∷ es) last s =
      state-store_cli_entries es (store_cli_entry L e s).1 (store_cli_entry L e s).0
      ∙ state-store_log_entry L (stamp s.state.term e) 0 s

  state-note_batch : (n last : ℕ) (s : Server Store) → (note_batch L n last s).state ≡ s.state
  unfolding note_batch emit
  state-note_batch zero last s = refl
  state-note_batch (suc n) last s = refl

  state-append_batch :
      (es : List LogEntry) (s : Server Store) → (append_batch L es s).0.state ≡ s.state
  unfolding append_batch
  state-append_batch es s =
      state-note_batch (length es) (store_cli_entries L es 0 s).1 (store_cli_entries L es 0 s).0
      ∙ state-store_cli_entries es 0 s

  state-raised : (idx : ℕ) (s : Server Store) → (try_update_precommit_index idx s).0.state ≡ s.state
  unfolding try_update_precommit_index
  state-raised idx s = ground arith

  state-handle_cli_req :
      (ext : CliParams) (req : ReqMsg) (s : Server Store)
      → (handle_cli_req L ext req s).0.state ≡ s.state
  unfolding handle_cli_req take_cli_req emit
  state-handle_cli_req ext req s = elim (Option-cases (cli_refusal ext s)) [
    | inr (answer, refused) ↦ rw (handle_cli_req, refused) refl
    | inl taken ↦
        rw (handle_cli_req, taken)
          (state-raised (append_batch L req.log_entries s).1 (append_batch L req.log_entries s).0
            ∙ state-append_batch req.log_entries s)
  ]

  pub state-handle_cli_req_prelock :
      (env : Surroundings) (ext : CliParams) (req : ReqMsg) (s : Server Store)
      → (handle_cli_req_prelock L env ext req s).0.state ≡ s.state
  unfolding handle_cli_req_prelock
  state-handle_cli_req_prelock env ext req s =
      state-request_append_entries_to_all L env (handle_cli_req L ext req s).0
      ∙ state-handle_cli_req ext req s
