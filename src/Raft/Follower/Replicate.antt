-- ===== src/Raft/Follower/Replicate.antt =====
-- The contract of `raft_server::handle_append_entries` (src/handle_append_entries.cxx): when it
-- accepts, what the log and the indexes are then, and what a refusal leaves alone.
use nu_raft.Common.{
  ◌+◌, ◌≡◌, ◌≢◌, ◌≤◌, ◌<◌, refl, ap, sym, ◌∙◌, arith, true, false, not, ◌||◌, Option, some, List,
  ◌++◌, length, ltb, inl, inr, ltb_of_le, min, max, ◌⊎◌,
}
use nu_raft.Raft.Types.{
  follower, leader, LogEntry, ReqMsg, RespMsg, SrvState, append_entries_response, new_resp,
}
use nu_raft.Raft.LogStore.{LogStore}
use nu_raft.Raft.Server.{Server}
use nu_raft.Raft.Follower.{
  Answers, write_entries, end_batch, log_okay, finish_append, append_or_deny, handle_append_entries,
}
use nu_raft.Raft.Follower.Steps.{
  Calm, Calm-trans, write_entries-Calm, end_batch-Calm, log-end_batch,
}
use native.Mathlib.Decide.{ℕ_discrete}
use nu_raft.Raft.Follower.Prepare.{
  Prepared, Prepared-refl, Prepared-trans, clear_catching_up-Prepared, Prepared-same_term,
  prepared_other_term, log_okay-Prepared,
}
use nu_raft.Raft.Follower.Finish.{Finished, finish_append-Finished}
use nu_raft.Raft.Follower.Merge.{merge}
use nu_raft.Raft.Follower.Write.{Written, write_entries-merge}

module _ (L : LogStore) where
  open L use {Store, start_index, next_slot, entries}

  -- The contract of an accepted request.
  pub record Accepted (req : ReqMsg) (s t : Server Store) (r : Option RespMsg)
      (goal : List LogEntry) : Type 0 where
    pub answer :
        (m : RespMsg) × (r ≡ some m)
        × (m.accepted ≡ true)
        × (m.next_idx ≡ req.last_log_idx + length req.log_entries + 1)
    pub log : entries t.log_store ≡ goal
    pub from : start_index t.log_store ≡ start_index s.log_store
    pub role : t.role ≡ follower
    pub state : t.state ≡ s.state
    pub follows : t.leader_id ≡ req.src
    pub commit_high :
        t.quick_commit_index
        ≤ max s.quick_commit_index (min req.commit_idx (req.last_log_idx + length req.log_entries))
    pub commit_low :
        min req.commit_idx (req.last_log_idx + length req.log_entries) ≤ t.quick_commit_index
    pub executed_high : t.sm_commit_index ≤ s.sm_commit_index

  follower_accepts :
      (req : ReqMsg) (answers : Answers) (s : Server Store) (pre rest : List LogEntry)
      → s.role ≡ follower
      → s.stopping ≡ false
      → req.term ≡ s.state.term
      → log_okay L req s ≡ true
      → answers.entries_accepted ≡ true
      → entries s.log_store ≡ pre ++ rest
      → req.last_log_idx + 1 ≡ start_index s.log_store + length pre
      → Accepted req s
          (append_or_deny L req answers s).0
          (some (append_or_deny L req answers s).1)
          (pre ++ merge rest req.log_entries)
  unfolding append_or_deny
  follower_accepts req answers s pre rest here run same okay taken e at =
      rw (ltb_of_le req.term s.state.term (omega (arith, same)), okay, taken, append_or_deny)
        (rw (w.completed, append_or_deny)
          (record {
            answer = (finished.1, refl, f.accepted, f.next_idx);
            log = ap entries (f.log ∙ log) ∙ w.holds;
            from = ap start_index (f.log ∙ log) ∙ w.from;
            role = f.role;
            state = f.state ∙ calm.state;
            follows = f.follows;
            commit_high = omega (arith, f.quick, calm.quick);
            commit_low = omega (arith, f.quick);
            executed_high = omega (arith, f.executed, calm.executed);
          }))
    where
      ready : Server Store
      ready = record s { initialized = true }

      w : Written L ready (pre ++ merge rest req.log_entries) (write_entries L req ready)
      w = write_entries-merge L req ready pre rest run e at

      done : Server Store
      done = end_batch L req (write_entries L req ready).0

      log : done.log_store ≡ (write_entries L req ready).0.log_store
      log = log-end_batch L req (write_entries L req ready).0

      calm : Calm L ready done
      calm =
          Calm-trans L (write_entries-Calm L req ready)
            (end_batch-Calm L req (write_entries L req ready).0)

      resp : RespMsg
      resp = new_resp s.state.term append_entries_response s.id req.src (next_slot s.log_store)

      finished : Server Store × RespMsg
      finished = finish_append L req answers resp done

      f : Finished L req done finished.0 finished.1
      f = finish_append-Finished L req answers resp done (calm.role ∙ here)

  Accepted-from :
      (req : ReqMsg) (s u t : Server Store) (r : Option RespMsg) (goal : List LogEntry)
      → Prepared L s u
      → Accepted req u t r goal
      → Accepted req s t r goal
  Accepted-from req s u t r goal p a = record {
    answer = a.answer;
    log = a.log;
    from = a.from ∙ ap start_index p.log;
    role = a.role;
    state = a.state ∙ p.state;
    follows = a.follows;
    commit_high = omega (arith, a.commit_high, p.quick);
    commit_low = a.commit_low;
    executed_high = omega (arith, a.executed_high, p.executed);
  }

  -- A server that is not stopping and does not lead gets a request of its own term whose previous
  -- entry it has (`log_okay`), whose entries begin inside the log or right behind it, and which
  -- the application does not decline. Then it accepts; the log is `merge` of what it had from
  -- there on with the leader's entries; the server follows the sender in the same term; and the
  -- commit index rises to what is committed of the entries that are known to agree, and not above.
  pub handle_append_entries-Accepted :
      (req : ReqMsg) (answers : Answers) (s : Server Store) (pre rest : List LogEntry)
      → s.role ≢ leader
      → s.stopping ≡ false
      → req.term ≡ s.state.term
      → log_okay L req s ≡ true
      → answers.entries_accepted ≡ true
      → entries s.log_store ≡ pre ++ rest
      → req.last_log_idx + 1 ≡ start_index s.log_store + length pre
      → let out = handle_append_entries L req answers s in
        Accepted req s out.0 out.1 (pre ++ merge rest req.log_entries)
  unfolding handle_append_entries
  handle_append_entries-Accepted req answers s pre rest not_leader run same okay taken e at =
      let (u, is_u, p, role) = Prepared-same_term L req s same not_leader in
      rw (is_u, handle_append_entries)
        (Accepted-from req s u _ _ _ p (
          follower_accepts req answers u pre rest role (p.run ∙ run)
            (same ∙ ap (λ (st : SrvState). st.term) (sym p.state))
            (log_okay-Prepared L req s u p ∙ okay) taken (ap entries p.log ∙ e)
            (at ∙ ap (λ (l : Store). start_index l + length pre) (sym p.log))))

  -- What a refusal says, and what it leaves alone.
  pub record Denied (s t : Server Store) (r : Option RespMsg) : Type 0 where
    pub answer :
        (m : RespMsg) × (r ≡ some m)
        × (m.accepted ≡ false)
        × (m.next_idx ≡ next_slot s.log_store)
        × (m.term ≡ s.state.term)
        × (m.do_not_rewind ≡ false)
    pub unchanged : Prepared L s t

  Denied-here :
      (req : ReqMsg) (answers : Answers) (s : Server Store)
      → (req.term < s.state.term) ⊎ (log_okay L req s ≡ false)
      → Denied s (append_or_deny L req answers s).0 (some (append_or_deny L req answers s).1)
  unfolding append_or_deny
  Denied-here req answers s why =
      rw (refused, append_or_deny)
        (record { answer = (_, refl, refl, refl, refl, refl); unchanged = Prepared-refl L s })
    where
      refused : (ltb req.term s.state.term || not (log_okay L req s)) ≡ true
      refused = ground arith

  Denied-from :
      (s u t : Server Store) (r : Option RespMsg) → Prepared L s u → Denied u t r → Denied s t r
  Denied-from s u t r p d =
      let (m, e, no_accept, next, term, rewind) = d.answer in
      record {
        answer = (
          m,
          e,
          no_accept,
          next ∙ ap next_slot p.log,
          term ∙ ap (λ (st : SrvState). st.term) p.state,
          rewind,
        );
        unchanged = Prepared-trans L p d.unchanged;
      }

  pub handle_append_entries-refuses :
      (req : ReqMsg) (answers : Answers) (s : Server Store)
      → (s.role ≢ leader) ⊎ (req.term ≢ s.state.term)
      → (req.term < s.state.term) ⊎ (log_okay L req s ≡ false)
      → let out = handle_append_entries L req answers s in Denied s out.0 out.1
  unfolding handle_append_entries
  handle_append_entries-refuses req answers s leads why = elim (ℕ_discrete req.term s.state.term) [
    | yes same ↦
        let (u, is_u, p, role) = Prepared-same_term L req s same (not_leading leads same) in
        rw (is_u, handle_append_entries)
          (Denied-from s u _ _ p (Denied-here req answers u (carried u p)))
    | no differs ↦
        let p = clear_catching_up-Prepared L s in
        rw (prepared_other_term L req s differs, handle_append_entries)
          (Denied-from s _ _ _ p (Denied-here req answers _ (carried _ p)))
  ]
    where
      not_leading :
          (s.role ≢ leader) ⊎ (req.term ≢ s.state.term) → req.term ≡ s.state.term → s.role ≢ leader
      not_leading (inl h) same = h
      not_leading (inr h) same = absurd (h same)

      moved :
          (u : Server Store)
          → Prepared L s u
          → (req.term < s.state.term) ⊎ (log_okay L req s ≡ false)
          → (req.term < u.state.term) ⊎ (log_okay L req u ≡ false)
      moved u p (inl old) = inl (omega (arith, old, ap (λ (st : SrvState). st.term) p.state))
      moved u p (inr bad) = inr (log_okay-Prepared L req s u p ∙ bad)

      carried :
          (u : Server Store)
          → Prepared L s u
          → (req.term < u.state.term) ⊎ (log_okay L req u ≡ false)
      carried u p = moved u p why
