-- ===== src/Raft/Follower/Steps.antt =====
-- The single writes of `handle_append_entries` (src/handle_append_entries.cxx), and what all its
-- loops leave alone.
use nu_raft.Common.{
  ℕ, zero, suc, ◌+◌, ◌-◌, ◌≡◌, ◌≤◌, refl, ◌∙◌, arith, Bool, List, [], ◌∷◌, ltb, leb, ◌==◌, length,
  if_elim, if◌then◌else◌, inl, inr, Bool-cases,
}
use nu_raft.Raft.Types.{LogEntry, ReqMsg}
use nu_raft.Raft.LogStore.{LogStore}
use nu_raft.Raft.Server.{Server}
use nu_raft.Raft.Follower.{
  store_log_entry, skip_existing, rollback_entry, rollback_loop, rollback_logs, after_store,
  overwrite_loop, append_loop, write_entries, end_batch,
}

module _ (L : LogStore) where
  open L use {
    Store, start_index, next_slot, entry_at, term_at, append, write_at, entries, start_pos,
    next_slot_lem, term_at_lem, start-append, entries-append, start-write_at, entries-write_at,
  }

  -- What one write does to the log; the rest of the server that matters here stays.
  pub log-append :
      (e : LogEntry) (s : Server Store)
      → (store_log_entry L e 0 s).0.log_store ≡ append e s.log_store
  unfolding store_log_entry
  log-append e s = ground arith

  pub log-write_at :
      (e : LogEntry) (i : ℕ) (s : Server Store)
      → 1 ≤ i
      → (store_log_entry L e i s).0.log_store ≡ write_at i e s.log_store
  unfolding store_log_entry
  log-write_at e i s h = ground arith

  pub stopping-store_log_entry :
      (e : LogEntry) (i : ℕ) (s : Server Store) → (store_log_entry L e i s).0.stopping ≡ s.stopping
  unfolding store_log_entry
  stopping-store_log_entry e i s = ground arith

  pub log-after_store :
      (i : ℕ) (e : LogEntry) (s : Server Store) → (after_store L i e s).log_store ≡ s.log_store
  unfolding after_store
  log-after_store i e s = ground arith

  pub stopping-after_store :
      (i : ℕ) (e : LogEntry) (s : Server Store) → (after_store L i e s).stopping ≡ s.stopping
  unfolding after_store
  stopping-after_store i e s = ground arith

  pub log-rollback_entry :
      (i : ℕ) (s : Server Store)
      → ((rollback_entry L i s).log_store ≡ s.log_store)
        × ((rollback_entry L i s).stopping ≡ s.stopping)
  unfolding rollback_entry
  log-rollback_entry i s = (ground arith, ground arith)

  pub log-rollback_loop :
      (n i : ℕ) (s : Server Store)
      → ((rollback_loop L n i s).log_store ≡ s.log_store)
        × ((rollback_loop L n i s).stopping ≡ s.stopping)
  unfolding rollback_loop
  log-rollback_loop zero i s = (refl, refl)
  log-rollback_loop (suc n) i s =
      let (log, run) = log-rollback_loop n (i - 1) (rollback_entry L i s) in
      let (log', run') = log-rollback_entry i s in (log ∙ log', run ∙ run')

  pub log-rollback_logs :
      (i : ℕ) (es : List LogEntry) (s : Server Store)
      → ((rollback_logs L i es s).log_store ≡ s.log_store)
        × ((rollback_logs L i es s).stopping ≡ s.stopping)
  unfolding rollback_logs
  log-rollback_logs i [] s = (refl, refl)
  log-rollback_logs i (e ∷ es) s =
      let cut : Server Store = record s {
        quick_commit_index = if leb i s.quick_commit_index then i - 1 else s.quick_commit_index;
        sm_commit_index = if leb i s.sm_commit_index then i - 1 else s.sm_commit_index;
      } in
      let last = next_slot s.log_store - 1 in
      let (log, run) = log-rollback_loop (last - i + 1) last cut in
      elim (Bool-cases (leb i last)) [
        | inl more ↦ rw (more, rollback_logs) (log, run)
        | inr none_there ↦ rw (none_there, rollback_logs) (refl, refl)
      ]

  -- The role and the term stay, and the commit indexes do not go up.
  pub record Calm (s t : Server Store) : Type 0 where
    pub role : t.role ≡ s.role
    pub state : t.state ≡ s.state
    pub quick : t.quick_commit_index ≤ s.quick_commit_index
    pub executed : t.sm_commit_index ≤ s.sm_commit_index

  Calm-refl : (s : Server Store) → Calm s s
  Calm-refl s = record { role = refl; state = refl; quick = omega arith; executed = omega arith }

  pub Calm-trans : {s t u : Server Store} → Calm s t → Calm t u → Calm s u
  Calm-trans a b = record {
    role = b.role ∙ a.role;
    state = b.state ∙ a.state;
    quick = omega (arith, a.quick, b.quick);
    executed = omega (arith, a.executed, b.executed);
  }

  store_log_entry-Calm :
      (e : LogEntry) (i : ℕ) (s : Server Store) → Calm s (store_log_entry L e i s).0
  unfolding store_log_entry
  store_log_entry-Calm e i s = record {
    role = ground arith;
    state = ground arith;
    quick = ground arith;
    executed = ground arith;
  }

  after_store-Calm : (i : ℕ) (e : LogEntry) (s : Server Store) → Calm s (after_store L i e s)
  unfolding after_store
  after_store-Calm i e s = record {
    role = ground arith;
    state = ground arith;
    quick = ground arith;
    executed = ground arith;
  }

  rollback_entry-Calm : (i : ℕ) (s : Server Store) → Calm s (rollback_entry L i s)
  unfolding rollback_entry
  rollback_entry-Calm i s = record {
    role = ground arith;
    state = ground arith;
    quick = ground arith;
    executed = ground arith;
  }

  rollback_loop-Calm : (n i : ℕ) (s : Server Store) → Calm s (rollback_loop L n i s)
  unfolding rollback_loop
  rollback_loop-Calm zero i s = Calm-refl s
  rollback_loop-Calm (suc n) i s =
      Calm-trans (rollback_entry-Calm i s) (rollback_loop-Calm n (i - 1) (rollback_entry L i s))

  rollback_logs-Calm :
      (i : ℕ) (es : List LogEntry) (s : Server Store) → Calm s (rollback_logs L i es s)
  unfolding rollback_logs
  rollback_logs-Calm i [] s = Calm-refl s
  rollback_logs-Calm i (e ∷ es) s = elim (Bool-cases (leb i last)) [
    | inl more ↦
        rw (more, rollback_logs) (Calm-trans lowered (rollback_loop-Calm (last - i + 1) last cut))
    | inr none_there ↦ rw (none_there, rollback_logs) (Calm-refl s)
  ]
    where
      last : ℕ
      last = next_slot s.log_store - 1

      cut : Server Store
      cut = record s {
        quick_commit_index = if leb i s.quick_commit_index then i - 1 else s.quick_commit_index;
        sm_commit_index = if leb i s.sm_commit_index then i - 1 else s.sm_commit_index;
      }

      lowered : Calm s cut
      lowered = record { role = refl; state = refl; quick = ground arith; executed = ground arith }

  stored_one-Calm :
      (e : LogEntry) (i j : ℕ) (s : Server Store)
      → Calm s (after_store L j e (store_log_entry L e i s).0)
  stored_one-Calm e i j s =
      Calm-trans (store_log_entry-Calm e i s) (after_store-Calm j e (store_log_entry L e i s).0)

  append_loop-Calm : (es : List LogEntry) (s : Server Store) → Calm s (append_loop L es s).0
  unfolding append_loop
  append_loop-Calm [] s = Calm-refl s
  append_loop-Calm (e ∷ es) s = elim (Bool-cases appended.stopping) [
    | inl stop ↦ rw (stop, append_loop) one
    | inr go ↦
        rw (go, append_loop)
          (Calm-trans one (
            append_loop-Calm es
              (after_store L (store_log_entry L e 0 s).1 e (store_log_entry L e 0 s).0)))
  ]
    where
      appended : Server Store
      appended = after_store L (store_log_entry L e 0 s).1 e (store_log_entry L e 0 s).0

      one : Calm s appended
      one = stored_one-Calm e 0 (store_log_entry L e 0 s).1 s

  overwrite_loop-Calm :
      (es : List LogEntry) (i : ℕ) (s : Server Store) → Calm s (overwrite_loop L es i s).0
  unfolding overwrite_loop
  overwrite_loop-Calm [] i s = Calm-refl s
  overwrite_loop-Calm (e ∷ es) i s = elim (Bool-cases (ltb i (next_slot s.log_store))) [
    | inr past ↦ rw (past, overwrite_loop) (Calm-refl s)
    | inl inside ↦ elim (Bool-cases written.stopping) [
      | inl stop ↦ rw (inside, stop, overwrite_loop) one
      | inr go ↦
          rw (inside, go, overwrite_loop)
            (Calm-trans one
              (overwrite_loop-Calm es (i + 1) (after_store L i e (store_log_entry L e i s).0)))
    ]
  ]
    where
      written : Server Store
      written = after_store L i e (store_log_entry L e i s).0

      one : Calm s written
      one = stored_one-Calm e i i s

  pub write_entries-Calm : (req : ReqMsg) (s : Server Store) → Calm s (write_entries L req s).0
  unfolding write_entries
  write_entries-Calm req s = elim (Bool-cases overwritten.2) [
    | inl stop ↦ rw (stop, write_entries) one
    | inr go ↦
        rw (go, write_entries) (Calm-trans one (append_loop-Calm overwritten.1 overwritten.0))
  ]
    where
      skipped : ℕ × List LogEntry
      skipped = skip_existing L s.log_store (req.last_log_idx + 1) req.log_entries

      undone : Server Store
      undone = rollback_logs L skipped.0 skipped.1 s

      overwritten : Server Store × List LogEntry × Bool
      overwritten = overwrite_loop L skipped.1 skipped.0 undone

      one : Calm s overwritten.0
      one =
          Calm-trans (rollback_logs-Calm skipped.0 skipped.1 s)
            (overwrite_loop-Calm skipped.1 skipped.0 undone)

  -- Only the record of what was done grows.
  pub end_batch-Calm : (req : ReqMsg) (s : Server Store) → Calm s (end_batch L req s)
  unfolding end_batch
  end_batch-Calm req s =
      if_elim (Calm s) (length req.log_entries == 0) (Calm-refl s)
        (record { role = refl; state = refl; quick = omega arith; executed = omega arith })

  pub log-end_batch :
      (req : ReqMsg) (s : Server Store) → (end_batch L req s).log_store ≡ s.log_store
  unfolding end_batch
  log-end_batch req s =
      if_elim (λ (t : Server Store). t.log_store ≡ s.log_store) (length req.log_entries == 0) refl
        refl
