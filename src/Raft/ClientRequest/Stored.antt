-- ===== src/Raft/ClientRequest/Stored.antt =====
-- What a client's request leaves in the log of a leader (src/handle_client_request.cxx).
use nu_raft.Common.{
  ℕ, zero, suc, ◌+◌, ◌≡◌, ◌≤◌, refl, ap, sym, subst, ◌∙◌, arith, true, false, ◌⊎◌, none, List, [],
  ◌∷◌, ◌++◌, length, map, length-append, append_assoc, append-nil,
}
use nu_raft.Raft.Types.{leader, LogEntry, ReqMsg, SrvState}
use nu_raft.Raft.LogStore.{LogStore}
use nu_raft.Raft.Server.{Server, Effect, pre_commit, emit, try_update_precommit_index}
use nu_raft.Raft.Follower.{store_log_entry}
use nu_raft.Raft.Follower.Steps.{log-append}
use nu_raft.Raft.ClientRequest.{
  appended_up_to, CliParams, stamp, store_cli_entry, store_cli_entries, append_batch, cli_refusal,
  take_cli_req, handle_cli_req,
}

-- What the state machine was given ahead of the commit, the newest first.
pub pre_committed : List Effect → List ℕ
pre_committed [] = []
pre_committed (pre_commit i ∷ es) = i ∷ pre_committed es
pre_committed (_ ∷ es) = pre_committed es

-- `n` indexes from `idx` on, the newest first, before others.
pub onto : ℕ → ℕ → List ℕ → List ℕ
onto zero idx is = is
onto (suc n) idx is = onto n (idx + 1) (idx ∷ is)

module _ (L : LogStore) where
  open L use {Store, next_slot, start_index, entries, entries-append, start-append, next_slot_lem}

  -- `es` is appended to the log as it is, and told to the state machine.
  pub record Appended (es : List LogEntry) (s t : Server Store) : Type 0 where
    pub log : entries t.log_store ≡ entries s.log_store ++ es
    pub start : start_index t.log_store ≡ start_index s.log_store
    pub state : t.state ≡ s.state
    pub told :
        pre_committed t.effects ≡ onto (length es) (next_slot s.log_store) (pre_committed s.effects)

  record OneStored (e : LogEntry) (s t : Server Store) (idx : ℕ) : Type 0 where
    pub log : entries t.log_store ≡ entries s.log_store ++ (e ∷ [])
    pub start : start_index t.log_store ≡ start_index s.log_store
    pub state : t.state ≡ s.state
    pub told : pre_committed t.effects ≡ idx ∷ pre_committed s.effects
    pub at : idx ≡ next_slot s.log_store
    pub pre : t.precommit_index ≤ next_slot s.log_store

  effects-store_log_entry :
      (e : LogEntry) (s : Server Store) → (store_log_entry L e 0 s).0.effects ≡ s.effects
  unfolding store_log_entry
  effects-store_log_entry e s = ground arith

  state-store_log_entry :
      (e : LogEntry) (s : Server Store) → (store_log_entry L e 0 s).0.state ≡ s.state
  unfolding store_log_entry
  state-store_log_entry e s = ground arith

  index-store_log_entry :
      (e : LogEntry) (s : Server Store) → (store_log_entry L e 0 s).1 ≡ next_slot s.log_store
  unfolding store_log_entry
  index-store_log_entry e s = ground arith

  precommit-store_log_entry :
      (e : LogEntry) (s : Server Store)
      → s.precommit_index ≤ next_slot s.log_store
      → (store_log_entry L e 0 s).0.precommit_index ≤ next_slot s.log_store
  unfolding store_log_entry
  precommit-store_log_entry e s low = ground (arith, low)

  store_cli_entry-OneStored :
      (e : LogEntry) (s : Server Store)
      → s.precommit_index ≤ next_slot s.log_store
      → OneStored (stamp s.state.term e) s (store_cli_entry L e s).0 (store_cli_entry L e s).1
  unfolding store_cli_entry emit pre_committed
  store_cli_entry-OneStored e s low =
      let e' = stamp s.state.term e in
      record {
        log = ap entries (log-append L e' s) ∙ entries-append s.log_store e';
        start = ap start_index (log-append L e' s) ∙ start-append s.log_store e';
        state = state-store_log_entry e' s;
        told =
            ap (λ (es : List Effect). (store_log_entry L e' 0 s).1 ∷ pre_committed es)
              (effects-store_log_entry e' s);
        at = index-store_log_entry e' s;
        pre = precommit-store_log_entry e' s low;
      }

  slot_after :
      (e : LogEntry) (s t : Server Store) (idx : ℕ)
      → OneStored e s t idx
      → next_slot t.log_store ≡ next_slot s.log_store + 1
  slot_after e s t idx one = omega (
    arith,
    next_slot_lem t.log_store,
    next_slot_lem s.log_store,
    one.start,
    ap length one.log,
    length-append (entries s.log_store) (e ∷ []),
  )

  Appended-one :
      (e : LogEntry) (es : List LogEntry) (s t u : Server Store) (idx : ℕ)
      → OneStored e s t idx
      → Appended es t u
      → Appended (e ∷ es) s u
  unfolding onto
  Appended-one e es s t u idx one rest = record {
    log =
        rest.log
        ∙ ap (λ (front : List LogEntry). front ++ es) one.log
        ∙ append_assoc (entries s.log_store) (e ∷ []) es;
    start = rest.start ∙ one.start;
    state = rest.state ∙ one.state;
    told = rest.told ∙ rw (slot_after e s t idx one, one.told, one.at) refl;
  }

  -- The loop behind an entry that was stored: the last index is that of the log.
  record AllStored (es : List LogEntry) (s : Server Store) (out : Server Store × ℕ) : Type 0 where
    pub appended : Appended es s out.0
    pub last_idx : out.1 + 1 ≡ next_slot out.0.log_store
    pub pre : out.0.precommit_index + 1 ≤ next_slot out.0.log_store

  Stored-cons :
      (e : LogEntry) (es : List LogEntry) (s t : Server Store) (idx : ℕ) (out : Server Store × ℕ)
      → OneStored (stamp s.state.term e) s t idx
      → AllStored (map (stamp t.state.term) es) t out
      → AllStored (map (stamp s.state.term) (e ∷ es)) s out
  Stored-cons e es s t idx out one all = record {
    appended = Appended-one (stamp s.state.term e) (map (stamp s.state.term) es) s t out.0 idx one (
        subst (λ (k : ℕ). Appended (map (stamp k) es) t out.0)
          (ap (λ (x : SrvState). x.term) one.state) all.appended);
    last_idx = all.last_idx;
    pre = all.pre;
  }

  store_cli_entries-AllStored :
      (es : List LogEntry) (last : ℕ) (s : Server Store)
      → last + 1 ≡ next_slot s.log_store
      → s.precommit_index + 1 ≤ next_slot s.log_store
      → AllStored (map (stamp s.state.term) es) s (store_cli_entries L es last s)
  unfolding store_cli_entries onto
  store_cli_entries-AllStored [] last s at low = record {
    appended = record {
      log = sym (append-nil (entries s.log_store));
      start = refl;
      state = refl;
      told = refl;
    };
    last_idx = at;
    pre = low;
  }
  store_cli_entries-AllStored (e ∷ es) last s at low =
      let one = store_cli_entry-OneStored e s (omega (arith, low)) in
      let slot = slot_after (stamp s.state.term e) s (store_cli_entry L e s).0 _ one in
      Stored-cons e es s (store_cli_entry L e s).0 (store_cli_entry L e s).1 _ one (
        store_cli_entries-AllStored es (store_cli_entry L e s).1 (store_cli_entry L e s).0
          (omega (arith, slot, one.at)) (omega (arith, slot, one.pre)))

  -- With a first entry the last index is known without one before.
  append_batch-AllStored :
      (e : LogEntry) (es : List LogEntry) (s : Server Store)
      → s.precommit_index ≤ next_slot s.log_store
      → AllStored (map (stamp s.state.term) (e ∷ es)) s (append_batch L (e ∷ es) s)
  unfolding append_batch store_cli_entries emit pre_committed
  append_batch-AllStored e es s low =
      let one = store_cli_entry-OneStored e s low in
      let slot = slot_after (stamp s.state.term e) s (store_cli_entry L e s).0 _ one in
      let all =
        Stored-cons e es s (store_cli_entry L e s).0 (store_cli_entry L e s).1
          (store_cli_entries L es (store_cli_entry L e s).1 (store_cli_entry L e s).0) one
          (store_cli_entries-AllStored es (store_cli_entry L e s).1 (store_cli_entry L e s).0
            (omega (arith, slot, one.at)) (omega (arith, slot, one.pre))) in
      record {
        appended = record {
          log = all.appended.log;
          start = all.appended.start;
          state = all.appended.state;
          told = all.appended.told;
        };
        last_idx = all.last_idx;
        pre = all.pre;
      }

  not_refused :
      (ext : CliParams) (s : Server Store)
      → s.role ≡ leader
      → s.write_paused ≡ false
      → (ext.expected_term ≡ 0) ⊎ (ext.expected_term ≡ s.state.term)
      → cli_refusal ext s ≡ none
  unfolding cli_refusal
  not_refused ext s leads running expects = ground arith

  raised :
      (idx : ℕ) (s : Server Store)
      → idx + 1 ≡ next_slot s.log_store
      → s.precommit_index + 1 ≤ next_slot s.log_store
      → (try_update_precommit_index idx s).0.precommit_index ≡ idx
  unfolding try_update_precommit_index
  raised idx s at low = ground (arith, at, low)

  raised-rest :
      (idx : ℕ) (s : Server Store)
      → ((try_update_precommit_index idx s).0.log_store ≡ s.log_store)
        × ((try_update_precommit_index idx s).0.state ≡ s.state)
        × ((try_update_precommit_index idx s).0.effects ≡ s.effects)
  unfolding try_update_precommit_index
  raised-rest idx s = (ground arith, ground arith, ground arith)

  end_of :
      (es : List LogEntry) (s t : Server Store)
      → Appended es s t
      → next_slot t.log_store ≡ next_slot s.log_store + length es
  end_of es s t a = omega (
    arith,
    next_slot_lem t.log_store,
    next_slot_lem s.log_store,
    a.start,
    ap length a.log,
    length-append (entries s.log_store) es,
  )

  length-stamped : (k : ℕ) (es : List LogEntry) → length (map (stamp k) es) ≡ length es
  length-stamped k [] = refl
  length-stamped k (e ∷ es) = ap suc (length-stamped k es)

  take_cli_req-Appended :
      (ext : CliParams) (e : LogEntry) (es : List LogEntry) (s : Server Store)
      → s.precommit_index ≤ next_slot s.log_store
      → let out = take_cli_req L ext (e ∷ es) s in
        Appended (map (stamp s.state.term) (e ∷ es)) s out.0
        × (out.0.precommit_index + 1 ≡ next_slot out.0.log_store)
        × (ext.appending_accepted ≡ true
            → out.1 ≡ appended_up_to (next_slot s.log_store + length (e ∷ es)))
  unfolding take_cli_req emit pre_committed
  take_cli_req-Appended ext e es s low =
      let all = append_batch-AllStored e es s low in
      let stored = append_batch L (e ∷ es) s in
      let (log, state, effects) = raised-rest stored.1 stored.0 in
      (
        record {
          log = ap entries log ∙ all.appended.log;
          start = ap start_index log ∙ all.appended.start;
          state = state ∙ all.appended.state;
          told = ap pre_committed effects ∙ all.appended.told;
        },
        rw (log, raised stored.1 stored.0 all.last_idx all.pre) all.last_idx,
        λ passes.
            rw (passes, log)
              (ap appended_up_to (
                end_of (map (stamp s.state.term) (e ∷ es)) s stored.0 all.appended
                ∙ ap (λ (n : ℕ). next_slot s.log_store + n)
                    (length-stamped s.state.term (e ∷ es)))),
      )

  -- A leader that takes requests, in the term that the client expects, if it expects one: the
  -- entries of the request, at least one, are appended in order with the leader's term and without
  -- a gap, the state machine is told of each before it is committed, in the same order, and the
  -- last one is the last index that is pre-committed. Where the application lets the answer pass,
  -- it is the index behind the log. The term and the vote stay.
  pub handle_cli_req-Appended :
      (ext : CliParams) (req : ReqMsg) (e : LogEntry) (es : List LogEntry) (s : Server Store)
      → s.role ≡ leader
      → s.write_paused ≡ false
      → (ext.expected_term ≡ 0) ⊎ (ext.expected_term ≡ s.state.term)
      → req.log_entries ≡ e ∷ es
      → s.precommit_index ≤ next_slot s.log_store
      → let out = handle_cli_req L ext req s in
        Appended (map (stamp s.state.term) (e ∷ es)) s out.0
        × (out.0.precommit_index + 1 ≡ next_slot out.0.log_store)
        × (ext.appending_accepted ≡ true
            → out.1 ≡ appended_up_to (next_slot s.log_store + length (e ∷ es)))
  unfolding handle_cli_req
  handle_cli_req-Appended ext req e es s leads running expects there low =
      rw (handle_cli_req, not_refused ext s leads running expects, there)
        (take_cli_req-Appended ext e es s low)
