-- ===== src/Raft/Follower/State.antt =====
-- `handle_append_entries` (src/handle_append_entries.cxx) leaves the term and the vote alone on
-- every branch.
use nu_raft.Common.{
  ◌≡◌, refl, ◌∙◌, arith, true, not, ◌||◌, ltb, some, Bool-cases, inl, inr, Option-cases,
}
use nu_raft.Raft.Types.{ReqMsg, new_resp, append_entries_response}
use nu_raft.Raft.LogStore.{LogStore}
use nu_raft.Raft.Server.{Server, become_follower, update_target_priority}
use nu_raft.Raft.Follower.{
  Answers, write_entries, end_batch, log_okay, clear_catching_up, accept_leader, append_or_deny,
  handle_append_entries,
}
use nu_raft.Raft.Follower.Finish.{state-finish_append}
use nu_raft.Raft.Follower.Steps.{write_entries-Calm, end_batch-Calm}

module _ (L : LogStore) where
  open L use {Store}

  state-append_or_deny :
      (req : ReqMsg) (answers : Answers) (s : Server Store)
      → (append_or_deny L req answers s).0.state ≡ s.state
  unfolding append_or_deny
  state-append_or_deny req answers s =
      elim (Bool-cases (ltb req.term s.state.term || not (log_okay L req s))) [
        | inl refused ↦ rw (append_or_deny, refused) refl
        | inr okay ↦ elim (Bool-cases answers.entries_accepted) [
          | inr declined ↦ rw (append_or_deny, okay, declined) refl
          | inl taken ↦
              elim (Bool-cases (write_entries L req (record s { initialized = true })).1) [
                | inl stopped ↦
                    rw (append_or_deny, okay, taken, stopped)
                      (write_entries-Calm L req (record s { initialized = true })).state
                | inr written ↦
                    rw (append_or_deny, okay, taken, written)
                      (state-finish_append L req answers
                          (new_resp s.state.term append_entries_response s.id req.src
                            (L.next_slot s.log_store))
                          (end_batch L req
                            (write_entries L req (record s { initialized = true })).0)
                        ∙ (end_batch-Calm L req
                            (write_entries L req (record s { initialized = true })).0).state
                        ∙ (write_entries-Calm L req (record s { initialized = true })).state)
              ]
        ]
      ]

  state-accept_leader :
      (req : ReqMsg) (s t : Server Store) → accept_leader L req s ≡ some t → t.state ≡ s.state
  unfolding accept_leader become_follower update_target_priority
  state-accept_leader req s t e = ground (arith, e)

  state-clear_catching_up : (s : Server Store) → (clear_catching_up L s).state ≡ s.state
  unfolding clear_catching_up
  state-clear_catching_up s = ground arith

  -- An append request, whatever the server answers, changes neither the term nor the vote.
  pub state-handle_append_entries :
      (req : ReqMsg) (answers : Answers) (s : Server Store)
      → (handle_append_entries L req answers s).0.state ≡ s.state
  unfolding handle_append_entries
  state-handle_append_entries req answers s =
      elim (Option-cases (accept_leader L req (clear_catching_up L s))) [
        | inl nobody ↦ rw (handle_append_entries, nobody) (state-clear_catching_up s)
        | inr (t, e) ↦
            rw (handle_append_entries, e)
              (state-append_or_deny req answers t
                ∙ state-accept_leader req (clear_catching_up L s) t e
                ∙ state-clear_catching_up s)
      ]
