-- ===== src/Raft/Committer/Order.antt =====
-- The commit thread (src/handle_commit.cxx) gives the entries of the log to the state machine in
-- their order, each once, and ends.
use nu_raft.Common.{
  ℕ, zero, suc, ◌+◌, ◌-◌, ◌≡◌, ◌≢◌, ◌≤◌, ◌<◌, refl, ap, sym, ◌∙◌, arith, min, max, Bool, true,
  false, List, [], ◌∷◌, ◌++◌, append_assoc, ltb, ◌==◌, ok, if_elim, ltb_of_le,
}
use nu_raft.Raft.Types.{
  LogEntry, LogValType, app_log, conf, cluster_server, log_pack, snp_sync_req, custom,
}
use nu_raft.Raft.LogStore.{LogStore}
use nu_raft.Raft.Server.{
  Server, Effect, emit, commit_log, commit_config, new_config_callback, save_config,
}
use nu_raft.Raft.Leader.Become.{config_of}
use nu_raft.Raft.Reconfigure.{reconfigure}
use nu_raft.Raft.Committer.{
  Machine, commit_app_log, apply_config, commit_conf, execute, advance, commit_next, has_next,
  commit_loop, skip_to_log, rounds, commit_in_bg_exec,
}
use nu_raft.Raft.Committer.Quiet.{
  executed, Quiet, Quiet-refl, Quiet-trans, reconfigure-Quiet, snapshot_and_compact-Quiet,
  check_freshness-Quiet,
}
use nu_raft.Config.{ClusterConfig}

-- What an entry gives the state machine.
unfoldable pub given_by : ℕ → LogEntry → List (ℕ × List ℕ)
given_by idx entry = elim entry.value_type [ app_log ↦ (idx, entry.buff) ∷ [] | _ ↦ [] ]

module _ (L : LogStore) where
  open L use {Store, start_index, next_slot, entry_at}

  -- The entries of applications among `n` from `idx` on, the last one first.
  unfoldable pub app_logs : ℕ → ℕ → Store → List (ℕ × List ℕ)
  unfolding given_by
  app_logs zero idx log = []
  app_logs (suc n) idx log = app_logs n (idx + 1) log ++ given_by idx (entry_at log idx)

  -- An entry that can be executed: it is not broken, an application's was pre-committed, and a
  -- configuration can be read.
  pub record CanRun (idx : ℕ) (s : Server Store) : Type 0 where
    pub not_broken : (entry_at s.log_store idx).term ≢ 0
    pub before_commit : idx ≤ s.precommit_index
    pub readable :
        (entry_at s.log_store idx).value_type ≡ conf
        → (c : ClusterConfig) × (config_of (entry_at s.log_store idx).buff ≡ ok c)

  apply_config-Quiet :
      (idx : ℕ) (new : ClusterConfig) (s : Server Store) → Quiet s (apply_config L idx new s)
  unfolding apply_config emit executed
  apply_config-Quiet idx new s =
      if_elim (λ (t : Server Store). Quiet s (after t)) (ltb s.config.log_idx new.log_idx)
        (Quiet-trans (Quiet-trans saved-Quiet (reconfigure-Quiet (next_slot s.log_store) new saved))
          (after-Quiet (reconfigure (next_slot s.log_store) new saved)))
        (Quiet-trans settled-Quiet (after-Quiet settled))
    where
      after : Server Store → Server Store
      after t = emit (commit_config idx) (emit (new_config_callback idx) t)

      after-Quiet : (t : Server Store) → Quiet t (after t)
      after-Quiet t = record {
        log = refl;
        quick = refl;
        precommit = refl;
        sm = refl;
        state = refl;
        given = refl;
      }

      settled : Server Store
      settled = record s { config_changing = false }

      settled-Quiet : Quiet s settled
      settled-Quiet = record {
        log = refl;
        quick = refl;
        precommit = refl;
        sm = refl;
        state = refl;
        given = refl;
      }

      saved : Server Store
      saved = emit (save_config new) settled

      saved-Quiet : Quiet s saved
      saved-Quiet = record {
        log = refl;
        quick = refl;
        precommit = refl;
        sm = refl;
        state = refl;
        given = refl;
      }

  -- The state after an entry, but for the commit index.
  record Ran (idx : ℕ) (s t : Server Store) : Type 0 where
    log : t.log_store ≡ s.log_store
    quick : t.quick_commit_index ≡ s.quick_commit_index
    precommit : t.precommit_index ≡ s.precommit_index
    given : executed t.effects ≡ given_by idx (entry_at s.log_store idx) ++ executed s.effects

  Ran-Quiet :
      (idx : ℕ) (s t : Server Store)
      → given_by idx (entry_at s.log_store idx) ≡ []
      → Quiet s t
      → Ran idx s t
  Ran-Quiet idx s t nothing q = record {
    log = q.log;
    quick = q.quick;
    precommit = q.precommit;
    given = q.given ∙ ap (λ xs. xs ++ executed s.effects) (sym nothing);
  }

  execute-Ran :
      (idx : ℕ) (s : Server Store)
      → CanRun idx s
      → (t : Server Store) × (execute L idx (entry_at s.log_store idx) s ≡ (t, true)) × Ran idx s t
  unfolding execute given_by commit_app_log commit_conf executed emit
  execute-Ran idx s can = by_type (entry_at s.log_store idx).value_type refl
    where
      entry : LogEntry
      entry = entry_at s.log_store idx

      by_type :
          (v : LogValType)
          → entry.value_type ≡ v
          → (t : Server Store) × (execute L idx entry s ≡ (t, true)) × Ran idx s t
      by_type app_log e = (
        emit (commit_log idx entry.buff) s,
        rw (execute, e) (rw (ltb_of_le s.precommit_index idx can.before_commit) refl),
        record { log = refl; quick = refl; precommit = refl; given = rw (given_by, e) refl },
      )
      by_type conf e =
          let (c, reads) = can.readable e in
          (
            apply_config L idx c s,
            rw (execute, e) (rw (commit_conf, reads) refl),
            Ran-Quiet idx s (apply_config L idx c s) (rw (given_by, e) refl)
                (apply_config-Quiet idx c s),
          )
      by_type cluster_server e =
          (s, rw (execute, e) refl, Ran-Quiet idx s s (rw (given_by, e) refl) (Quiet-refl s))
      by_type log_pack e =
          (s, rw (execute, e) refl, Ran-Quiet idx s s (rw (given_by, e) refl) (Quiet-refl s))
      by_type snp_sync_req e =
          (s, rw (execute, e) refl, Ran-Quiet idx s s (rw (given_by, e) refl) (Quiet-refl s))
      by_type custom e =
          (s, rw (execute, e) refl, Ran-Quiet idx s s (rw (given_by, e) refl) (Quiet-refl s))

  advance-Quiet :
      (m : Machine) (idx : ℕ) (s : Server Store)
      → Quiet (record s { sm_commit_index = idx }) (advance L m idx s)
  unfolding advance emit executed
  advance-Quiet m idx s =
      let q = snapshot_and_compact-Quiet L m idx false (record s { sm_commit_index = idx }) in
      record {
        log = q.log;
        quick = q.quick;
        precommit = q.precommit;
        sm = q.sm;
        state = q.state;
        given = q.given;
      }

  commit_next-Ran :
      (m : Machine) (s : Server Store)
      → CanRun (s.sm_commit_index + 1) s
      → (t : Server Store) × (commit_next L m s ≡ (t, true))
        × Ran (s.sm_commit_index + 1) s t
        × (t.sm_commit_index ≡ s.sm_commit_index + 1)
  unfolding commit_next
  commit_next-Ran m s can =
      let idx = s.sm_commit_index + 1 in
      let (u, done, ran) = execute-Ran idx s can in
      let q = advance-Quiet m idx u in
      (
        advance L m idx u,
        rw (sound, done) refl,
        record {
          log = q.log ∙ ran.log;
          quick = q.quick ∙ ran.quick;
          precommit = q.precommit ∙ ran.precommit;
          given = q.given ∙ ran.given;
        },
        q.sm,
      )
    where
      sound : ((entry_at s.log_store (s.sm_commit_index + 1)).term == 0) ≡ false
      sound = ground (arith, can.not_broken)

  has_next-true :
      (m : Machine) (s : Server Store) (n : ℕ)
      → m.paused ≡ false
      → s.sm_commit_index + suc n ≤ min s.quick_commit_index (next_slot s.log_store - 1)
      → has_next L m s ≡ true
  unfolding has_next
  has_next-true m s n awake more = ground (arith, awake, more)

  -- What a loop leaves.
  pub record Committed (n : ℕ) (s t : Server Store) : Type 0 where
    pub sm : t.sm_commit_index ≡ s.sm_commit_index + n
    pub log : t.log_store ≡ s.log_store
    pub quick : t.quick_commit_index ≡ s.quick_commit_index
    pub given :
        executed t.effects ≡ app_logs n (s.sm_commit_index + 1) s.log_store ++ executed s.effects

  CanRun-kept :
      (idx : ℕ) (s t : Server Store)
      → t.log_store ≡ s.log_store
      → t.precommit_index ≡ s.precommit_index
      → CanRun idx s
      → CanRun idx t
  CanRun-kept idx s t log pre can = record {
    not_broken = rw log can.not_broken;
    before_commit = omega (arith, can.before_commit, pre);
    readable = rw log can.readable;
  }

  next_rounds : ℕ → Machine → Server Store × Bool → Server Store
  next_rounds n m (t, alive) = elim alive [ true ↦ commit_loop L n m t | false ↦ t ]

  next_rounds-alive :
      (n : ℕ) (m : Machine) (t : Server Store) (out : Server Store × Bool)
      → out ≡ (t, true)
      → next_rounds n m out ≡ commit_loop L n m t
  unfolding next_rounds
  next_rounds-alive n m t out e = rw e refl

  commit_loop-next :
      (n : ℕ) (m : Machine) (s t : Server Store)
      → has_next L m s ≡ true
      → commit_next L m s ≡ (t, true)
      → commit_loop L (suc n) m s ≡ commit_loop L n m t
  unfolding commit_loop next_rounds
  commit_loop-next n m s t more done =
      rw (commit_loop, more) (next_rounds-alive n m t (commit_next L m s) done)

  commit_loop-Committed :
      (n : ℕ) (m : Machine) (s : Server Store)
      → m.paused ≡ false
      → s.sm_commit_index + n ≤ min s.quick_commit_index (next_slot s.log_store - 1)
      → ((idx : ℕ) → s.sm_commit_index < idx → idx ≤ s.sm_commit_index + n → CanRun idx s)
      → Committed n s (commit_loop L n m s)
  unfolding app_logs
  commit_loop-Committed zero m s awake room can =
      unfold commit_loop in record { sm = omega arith; log = refl; quick = refl; given = refl }
  commit_loop-Committed (suc n) m s awake room can =
      let (t, done, ran, sm) =
        commit_next-Ran m s (can (s.sm_commit_index + 1) (omega arith) (omega arith)) in
      let rest =
        commit_loop-Committed n m t awake (omega (arith, sm, room, ran.quick, ap next_slot ran.log))
          (λ idx low high.
            CanRun-kept idx s t ran.log ran.precommit
              (can idx (omega (arith, low, sm)) (omega (arith, high, sm)))) in
      rw (commit_loop-next n m s t (has_next-true m s n awake room) done) (record {
        sm = omega (arith, rest.sm, sm);
        log = rest.log ∙ ran.log;
        quick = rest.quick ∙ ran.quick;
        given =
            rest.given
            ∙ ap (λ (xs : List (ℕ × List ℕ)). app_logs n (t.sm_commit_index + 1) t.log_store ++ xs)
                ran.given
            ∙ rw (sm, ran.log)
                (sym (append_assoc (app_logs n (s.sm_commit_index + 1 + 1) s.log_store) _ _));
      })

  skip_to_log-Quiet :
      (s : Server Store)
      → ((skip_to_log L s).log_store ≡ s.log_store)
        × ((skip_to_log L s).quick_commit_index ≡ s.quick_commit_index)
        × ((skip_to_log L s).effects ≡ s.effects)
        × ((skip_to_log L s).precommit_index ≡ s.precommit_index)
        × ((skip_to_log L s).sm_commit_index ≡ max s.sm_commit_index (start_index s.log_store - 1))
  unfolding skip_to_log
  skip_to_log-Quiet s = (ground arith, ground arith, ground arith, ground arith, ground arith)

  same_logs :
      {n n' i i' : ℕ} {l l' : Store} {es es' : List Effect}
      → n ≡ n'
      → i ≡ i'
      → l ≡ l'
      → es ≡ es'
      → app_logs n (i + 1) l ++ executed es ≡ app_logs n' (i' + 1) l' ++ executed es'
  same_logs a b c d = rw (a, b, c, d) refl

  -- The first entry to execute is the one behind `begin`, the last one `target`.
  abbrev pub begin : Server Store → ℕ
  begin s = max s.sm_commit_index (start_index s.log_store - 1)

  abbrev pub target : Server Store → ℕ
  target s = min s.quick_commit_index (next_slot s.log_store - 1)

  -- Where the execution is not paused and the committed entries that are to be executed can be,
  -- `commit_in_bg_exec` ends with all of them executed: the commit index is that of the last one,
  -- and the state machine was given the entries of applications among them, each once, in the order
  -- of the log.
  pub commit_in_bg_exec-Committed :
      (m : Machine) (s : Server Store)
      → m.paused ≡ false
      → begin s ≤ target s
      → ((idx : ℕ) → begin s < idx → idx ≤ target s → CanRun idx s)
      → let t = commit_in_bg_exec L m s in
        (t.sm_commit_index ≡ target s)
        × (executed t.effects
            ≡ app_logs (target s - begin s) (begin s + 1) s.log_store ++ executed s.effects)
  unfolding commit_in_bg_exec rounds
  commit_in_bg_exec-Committed m s awake room can =
      let (log, quick, effects, pre, sm) = skip_to_log-Quiet s in
      let ready = skip_to_log L s in
      let n = target ready - ready.sm_commit_index in
      let same_target : target ready ≡ target s = omega (arith, quick, ap next_slot log) in
      let count : n ≡ target s - begin s = omega (arith, same_target, sm) in
      let done =
        commit_loop-Committed n m ready awake (omega (arith, same_target, sm, room))
          (λ idx low high.
            CanRun-kept idx s ready log pre
              (can idx (omega (arith, low, sm)) (omega (arith, high, sm, same_target, room)))) in
      let q = check_freshness-Quiet L (commit_loop L n m ready) in
      (
        omega (arith, q.sm, done.sm, sm, count, room),
        q.given ∙ done.given ∙ same_logs count sm log effects,
      )
