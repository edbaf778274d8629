-- ===== src/Raft/Follower/Write.antt =====
-- The writing loops of `handle_append_entries` (src/handle_append_entries.cxx): what they leave in
-- the log.
use nu_raft.Common.{
  ℕ, zero, suc, ◌+◌, ◌≡◌, ◌≤◌, ◌<◌, refl, ap, sym, ◌∙◌, arith, Bool, true, false, List, [], ◌∷◌,
  ◌++◌, length, length-append, take, append_assoc, append-nil, ltb, if◌then◌else◌, ltb_of_le,
  lt→ltb,
}
use nu_raft.Raft.Types.{LogEntry, ReqMsg}
use nu_raft.Raft.LogStore.{LogStore}
use nu_raft.Raft.Server.{Server}
use nu_raft.Raft.Follower.{
  store_log_entry, rollback_logs, after_store, overwrite_loop, append_loop, write_entries,
}
use nu_raft.Raft.Follower.Steps.{
  log-append, log-write_at, stopping-store_log_entry, log-after_store, stopping-after_store,
  log-rollback_logs,
}
use nu_raft.Raft.Follower.Merge.{merge, Skip, kept, at_end, conflict, skip_existing-Skip}

module _ (L : LogStore) where
  open L use {
    Store, start_index, next_slot, entry_at, term_at, append, write_at, entries, start_pos,
    next_slot_lem, term_at_lem, start-append, entries-append, start-write_at, entries-write_at,
  }

  -- `r` is the outcome of writing: not stopped, with these entries, from the same index on.
  pub record Written (s : Server Store) (goal : List LogEntry) (r : Server Store × Bool)
      : Type 0 where
    pub completed : r.1 ≡ false
    pub holds : entries r.0.log_store ≡ goal
    pub from : start_index r.0.log_store ≡ start_index s.log_store

  append_one : LogEntry → Server Store → Server Store
  append_one e s = after_store L (store_log_entry L e 0 s).1 e (store_log_entry L e 0 s).0

  stopping-append_one : (e : LogEntry) (s : Server Store) → (append_one e s).stopping ≡ s.stopping
  unfolding append_one
  stopping-append_one e s =
      stopping-after_store L (store_log_entry L e 0 s).1 e (store_log_entry L e 0 s).0
      ∙ stopping-store_log_entry L e 0 s

  log-append_one :
      (e : LogEntry) (s : Server Store) → (append_one e s).log_store ≡ append e s.log_store
  unfolding append_one
  log-append_one e s =
      log-after_store L (store_log_entry L e 0 s).1 e (store_log_entry L e 0 s).0 ∙ log-append L e s

  append_loop-Written :
      (es : List LogEntry) (s : Server Store)
      → s.stopping ≡ false
      → Written s (entries s.log_store ++ es) (append_loop L es s)
  unfolding append_loop append_one
  append_loop-Written [] s run = record {
    completed = refl;
    holds = sym (append-nil (entries s.log_store));
    from = refl;
  }
  append_loop-Written (e ∷ es) s run =
      let running : (append_one e s).stopping ≡ false = stopping-append_one e s ∙ run in
      let rest = append_loop-Written es (append_one e s) running in
      rw (running, append_loop)
        (record {
          completed = rest.completed;
          holds =
              rest.holds
              ∙ ap (λ (xs : List LogEntry). xs ++ es)
                  (ap entries (log-append_one e s) ∙ entries-append s.log_store e)
              ∙ append_assoc (entries s.log_store) (e ∷ []) es;
          from = rest.from ∙ ap start_index (log-append_one e s) ∙ start-append s.log_store e;
        })

  -- The part of `write_entries` behind the skipping.
  write_rest : ℕ × List LogEntry → Server Store → Server Store × Bool
  write_rest (log_idx, rest) s =
      let (overwritten, left, stopped) =
        overwrite_loop L rest log_idx (rollback_logs L log_idx rest s) in
      if stopped then (overwritten, true) else append_loop L left overwritten

  -- From the end of the log on nothing is overwritten.
  overwrite_loop_end :
      (es : List LogEntry) (i : ℕ) (s : Server Store)
      → next_slot s.log_store ≤ i
      → overwrite_loop L es i s ≡ (s, es, false)
  unfolding overwrite_loop
  overwrite_loop_end [] i s h = refl
  overwrite_loop_end (e ∷ es) i s h = rw (ltb_of_le i (next_slot s.log_store) h, overwrite_loop)

  overwrite_one : LogEntry → ℕ → Server Store → Server Store
  overwrite_one e i s = after_store L i e (store_log_entry L e i s).0

  stopping-overwrite_one :
      (e : LogEntry) (i : ℕ) (s : Server Store) → (overwrite_one e i s).stopping ≡ s.stopping
  unfolding overwrite_one
  stopping-overwrite_one e i s =
      stopping-after_store L i e (store_log_entry L e i s).0 ∙ stopping-store_log_entry L e i s

  log-overwrite_one :
      (e : LogEntry) (i : ℕ) (s : Server Store)
      → 1 ≤ i
      → (overwrite_one e i s).log_store ≡ write_at i e s.log_store
  unfolding overwrite_one
  log-overwrite_one e i s h =
      log-after_store L i e (store_log_entry L e i s).0 ∙ log-write_at L e i s h

  length-take_inside : {A : Type 0} (i : ℕ) (xs : List A) → i < length xs → length (take i xs) ≡ i
  length-take_inside i [] h = elim h [ ]
  length-take_inside zero (x ∷ xs) h = refl
  length-take_inside (suc i) (x ∷ xs) h = ap suc (length-take_inside i xs (omega arith))

  -- The first write cuts the log behind it, so that one round is all.
  overwrite_loop_conflict :
      (e : LogEntry) (es : List LogEntry) (i : ℕ) (s : Server Store)
      → s.stopping ≡ false
      → i < length (entries s.log_store)
      → let at = start_index s.log_store + i in
        overwrite_loop L (e ∷ es) at s ≡ (overwrite_one e at s, es, false)
  unfolding overwrite_loop overwrite_one
  overwrite_loop_conflict e es i s run h =
      rw (inside, running, overwrite_loop)
        (overwrite_loop_end es (at + 1) (overwrite_one e at s) cut)
    where
      at : ℕ
      at = start_index s.log_store + i

      inside : ltb at (next_slot s.log_store) ≡ true
      inside = lt→ltb _ _ (omega (arith, next_slot_lem s.log_store))

      running : (overwrite_one e at s).stopping ≡ false
      running = stopping-overwrite_one e at s ∙ run

      log : (overwrite_one e at s).log_store ≡ write_at at e s.log_store
      log = log-overwrite_one e at s (omega (arith, start_pos s.log_store))

      cut : next_slot (overwrite_one e at s).log_store ≤ at + 1
      cut = omega (
        arith,
        next_slot_lem (overwrite_one e at s).log_store,
        ap start_index log ∙ start-write_at s.log_store i e h,
        ap length (ap entries log ∙ entries-write_at s.log_store i e h),
        length-append (take i (entries s.log_store)) (e ∷ []),
        length-take_inside i (entries s.log_store) h,
      )

  module _ (s : Server Store) (run : s.stopping ≡ false) where
    write_kept : (i : ℕ) → Written s (entries s.log_store) (write_rest (i, []) s)
    unfolding write_rest rollback_logs overwrite_loop append_loop
    write_kept i = record { completed = refl; holds = refl; from = refl }

    write_at_end :
        (es : List LogEntry) (i : ℕ)
        → i ≡ next_slot s.log_store
        → Written s (entries s.log_store ++ es) (write_rest (i, es) s)
    unfolding write_rest
    write_at_end es i end =
        let undone = rollback_logs L i es s in
        let (log, still) = log-rollback_logs L i es s in
        let behind : next_slot undone.log_store ≤ i = omega (arith, ap next_slot log) in
        let rest = append_loop-Written es undone (still ∙ run) in
        rw (overwrite_loop_end es i undone behind) (record {
          completed = rest.completed;
          holds = rest.holds ∙ ap (λ (l : Store). entries l ++ es) log;
          from = rest.from ∙ ap start_index log;
        })

    write_conflict :
        (e : LogEntry) (es : List LogEntry) (i : ℕ)
        → i < length (entries s.log_store)
        → Written s
            (take i (entries s.log_store) ++ (e ∷ es))
            (write_rest (start_index s.log_store + i, e ∷ es) s)
    unfolding write_rest
    write_conflict e es i h =
        rw (one_round, write_rest)
          (record {
            completed = rest.completed;
            holds =
                rest.holds
                ∙ ap (λ (xs : List LogEntry). xs ++ es) replaced
                ∙ append_assoc (take i (entries s.log_store)) (e ∷ []) es;
            from = rest.from ∙ same_start;
          })
      where
        at : ℕ
        at = start_index s.log_store + i

        undone : Server Store
        undone = rollback_logs L at (e ∷ es) s

        log : undone.log_store ≡ s.log_store
        log = (log-rollback_logs L at (e ∷ es) s).0

        still : undone.stopping ≡ false
        still = (log-rollback_logs L at (e ∷ es) s).1 ∙ run

        one_round : overwrite_loop L (e ∷ es) at undone ≡ (overwrite_one e at undone, es, false)
        one_round =
            rw (ap start_index log) at (overwrite_loop_conflict e es i undone still (rw log h))

        written : (overwrite_one e at undone).log_store ≡ write_at at e s.log_store
        written =
            log-overwrite_one e at undone (omega (arith, start_pos s.log_store))
            ∙ ap (write_at at e) log

        replaced :
            entries (overwrite_one e at undone).log_store ≡ take i (entries s.log_store) ++ (e ∷ [])
        replaced = ap entries written ∙ entries-write_at s.log_store i e h

        same_start : start_index (overwrite_one e at undone).log_store ≡ start_index s.log_store
        same_start = ap start_index written ∙ start-write_at s.log_store i e h

        rest :
            Written
              (overwrite_one e at undone)
              (entries (overwrite_one e at undone).log_store ++ es)
              (append_loop L es (overwrite_one e at undone))
        rest =
            append_loop-Written es (overwrite_one e at undone)
              (stopping-overwrite_one e at undone ∙ still)

  write_rest-Written :
      (s : Server Store) (goal : List LogEntry) (r : ℕ × List LogEntry)
      → s.stopping ≡ false
      → Skip L s.log_store goal r
      → Written s goal (write_rest r s)
  write_rest-Written s goal (i, es) run (kept e g) = rw (e, g) (write_kept s run i)
  write_rest-Written s goal (i, es) run (at_end e g) = rw g (write_at_end s run es i e)
  write_rest-Written s goal (i, es) run (conflict j e more at h e' g) =
      rw (at, e', g) (write_conflict s run e more j h)

  -- On a server that is not stopping, and whose log reaches up to the first new entry: the loops
  -- leave the log as `merge` says, from the same start index on, and are not cut short.
  pub write_entries-merge :
      (req : ReqMsg) (s : Server Store) (pre rest : List LogEntry)
      → s.stopping ≡ false
      → entries s.log_store ≡ pre ++ rest
      → req.last_log_idx + 1 ≡ start_index s.log_store + length pre
      → Written s (pre ++ merge rest req.log_entries) (write_entries L req s)
  unfolding write_entries write_rest
  write_entries-merge req s pre rest run e at =
      rw (at, write_entries)
        (write_rest-Written s (pre ++ merge rest req.log_entries) _ run
          (skip_existing-Skip L s.log_store pre rest req.log_entries e))
