-- ===== src/InmemLogStore/Interface.antt =====
-- The store of examples/in_memory_log_store.cxx fills the interface of log stores.
use nu_raft.Common.{
  ℕ, ◌+◌, ◌-◌, ◌≡◌, ◌≤◌, ◌<◌, refl, ap, ◌∙◌, arith, true, false, some, List, [], ◌∷◌, ◌++◌, length,
  take, length-take, get_elem?, ltb, ◌==◌, lt→ltb, ltb→lt, Bool,
}
use nu_raft.Raft.Types.{LogEntry}
use nu_raft.Raft.LogStore.{LogStore}
use nu_raft.InmemLogStore.{
  InmemLogStore, dummy, fresh, assign, erase_from, next_slot, last_entry, append, write_at,
  entry_at, term_at, log_entries_ext,
}
use nu_raft.InmemLogStore.Entries.{Holds, number, length-number, assign-number, erase_from-number}
use nu_raft.InmemLogStore.Range.{find_or_dummy-Holds, log_entries_ext-front}

pub fresh-Holds : Holds fresh []
unfolding number
fresh-Holds = record { start_pos = omega arith; logs_lem = refl }

-- A store that holds some entries has its next slot right behind them.
pub next_slot-Holds :
    (s : InmemLogStore) (es : List LogEntry) → Holds s es → next_slot s ≡ s.start_idx + length es
unfolding next_slot
next_slot-Holds s es h = omega (arith, ap length h.logs_lem, length-number s.start_idx es)

pub term_at-Holds :
    (s : InmemLogStore) (es : List LogEntry) (i : ℕ) (e : LogEntry)
    → Holds s es
    → get_elem? es i ≡ some e
    → term_at (s.start_idx + i) s ≡ e.term
unfolding term_at
term_at-Holds s es i e h at_i = ap (λ (x : LogEntry). x.term) (find_or_dummy-Holds s es i e h at_i)

pub start-append_inmem : (s : InmemLogStore) (e : LogEntry) → (append e s).start_idx ≡ s.start_idx
unfolding append
start-append_inmem s e = refl

-- Assigning behind the entries puts the entry at their end.
pub assign-Holds :
    (k : ℕ) (es : List LogEntry) (e : LogEntry) (j : ℕ)
    → j ≡ k + length es
    → 1 ≤ k
    → assign j e ((0, dummy) ∷ number k es) ≡ (0, dummy) ∷ number k (es ++ (e ∷ []))
unfolding assign
assign-Holds k es e j h pos = rw (below, far) (ap (λ xs. (0, dummy) ∷ xs) (assign-number k es e h))
  where
    below : ltb j 0 ≡ false
    below = ground (arith, h)

    far : (j == 0) ≡ false
    far = ground (arith, h, pos)

-- Appending to a store without gaps puts the entry behind the others, and the start stays.
pub append-Holds :
    (s : InmemLogStore) (es : List LogEntry) (e : LogEntry)
    → Holds s es
    → Holds (append e s) (es ++ (e ∷ []))
unfolding append
append-Holds s es e h = record {
  start_pos = h.start_pos;
  logs_lem =
      ap (λ xs. assign (s.start_idx + length s.logs - 1) e xs) h.logs_lem
      ∙ assign-Holds s.start_idx es e (s.start_idx + length s.logs - 1)
          (omega (arith, ap length h.logs_lem, length-number s.start_idx es)) h.start_pos;
}

-- Writing at an index inside a store without gaps puts the entry there, and what lay behind is gone.
pub write_at-Holds :
    (s : InmemLogStore) (es : List LogEntry) (i : ℕ) (e : LogEntry)
    → Holds s es
    → i < length es
    → Holds (write_at (s.start_idx + i) e s) (take i es ++ (e ∷ []))
unfolding write_at erase_from
write_at-Holds s es i e h inside = record {
  start_pos = h.start_pos;
  logs_lem =
      ap (λ xs. assign (s.start_idx + i) e (erase_from (s.start_idx + i) xs)) h.logs_lem
      ∙ ap (assign (s.start_idx + i) e) erased
      ∙ assign-Holds s.start_idx (take i es) e (s.start_idx + i) (omega (arith, length-take i es))
          h.start_pos;
}
  where
    not_dummy : ltb 0 (s.start_idx + i) ≡ true
    not_dummy = ground (arith, h.start_pos)

    erased :
        erase_from (s.start_idx + i) ((0, dummy) ∷ number s.start_idx es)
        ≡ (0, dummy) ∷ number s.start_idx (take i es)
    erased = rw (not_dummy) (ap (λ xs. (0, dummy) ∷ xs) (erase_from-number s.start_idx i es refl))

-- A store with what it holds.
pub record HeldStore : Type 0 where
  pub store : InmemLogStore
  pub held : List LogEntry
  pub holds : Holds store held

unfoldable pub write_inside :
    (h : HeldStore) (k : ℕ) (e : LogEntry) (b : Bool) → ltb k (length h.held) ≡ b → HeldStore
write_inside h k e true inside = record {
  store = write_at (h.store.start_idx + k) e h.store;
  held = take k h.held ++ (e ∷ []);
  holds = write_at-Holds h.store h.held k e h.holds (ltb→lt _ _ inside);
}
write_inside h k e false outside = h

unfoldable pub write_held : ℕ → LogEntry → HeldStore → HeldStore
write_held i e h =
    write_inside h (i - h.store.start_idx) e (ltb (i - h.store.start_idx) (length h.held)) refl

held-write_inside :
    (h : HeldStore) (k i : ℕ) (e : LogEntry) (b : Bool) (eq : ltb k (length h.held) ≡ b)
    → k ≡ i
    → i < length h.held
    → ((write_inside h k e b eq).store.start_idx ≡ h.store.start_idx)
      × ((write_inside h k e b eq).held ≡ take i h.held ++ (e ∷ []))
unfolding write_inside
held-write_inside h k i e true eq same inside = (unfold write_at in refl, rw same refl)
held-write_inside h k i e false eq same inside =
    absurd (ground (arith, lt→ltb k (length h.held) (omega arith)))

pub held-write_held :
    (h : HeldStore) (i : ℕ) (e : LogEntry)
    → i < length h.held
    → ((write_held (h.store.start_idx + i) e h).store.start_idx ≡ h.store.start_idx)
      × ((write_held (h.store.start_idx + i) e h).held ≡ take i h.held ++ (e ∷ []))
unfolding write_held
held-write_held h i e inside = held-write_inside h _ i e _ refl (omega arith) inside

-- The store as an instance of the interface. A write outside the log, of which the interface
-- promises nothing, goes to its start or is dropped.
abbrev pub inmem : LogStore
inmem = record {
  Store = HeldStore;
  start_index = λ h. h.store.start_idx;
  next_slot = λ h. next_slot h.store;
  entry_at = λ h i. entry_at i h.store;
  term_at = λ h i. term_at i h.store;
  last_term = λ h. (last_entry h.store).term;
  append = λ e h. record {
    store = append e h.store;
    held = h.held ++ (e ∷ []);
    holds = append-Holds h.store h.held e h.holds;
  };
  write_at = write_held;
  log_entries_ext = λ start end hint h. some (log_entries_ext start end hint h.store);
  entries = λ h. h.held;
  start_pos = λ h. h.holds.start_pos;
  next_slot_lem = λ h. next_slot-Holds h.store h.held h.holds;
  term_at_lem = λ h i e at_i. term_at-Holds h.store h.held i e h.holds at_i;
  start-append = λ h e. start-append_inmem h.store e;
  entries-append = λ h e. refl;
  start-write_at = λ h i e inside. (held-write_held h i e inside).0;
  entries-write_at = λ h i e inside. (held-write_held h i e inside).1;
  log_entries_ext_lem = λ h i n hint inside.
      let (m, le, same) = log_entries_ext-front h.store h.held i n hint h.holds inside in
      (m, le, ap some same);
}
