-- ===== src/Raft/LogStore.antt =====
-- include/libnuraft/log_store.hxx: the interface of the log, with what its comments promise as laws
-- over the list of entries from `start_index` on.
use nu_raft.Common.{
  ℕ, ◌+◌, ◌≤◌, ◌<◌, ◌≡◌, Option, some, List, [], ◌∷◌, ◌++◌, length, take, drop, get_elem?,
}
use nu_raft.Raft.Types.{LogEntry}

pub record LogStore : Type 1 where
  pub Store : Type 0
  pub start_index : Store → ℕ
  pub next_slot : Store → ℕ
  pub entry_at : Store → ℕ → LogEntry
  pub term_at : Store → ℕ → ℕ
  -- `last_entry()->get_term()`.
  pub last_term : Store → ℕ
  pub append : LogEntry → Store → Store
  pub write_at : ℕ → LogEntry → Store → Store
  -- The entries of `[start, end)`, cut where the hint says; `none` if one of them is gone.
  pub log_entries_ext : ℕ → ℕ → ℕ → Store → Option (List LogEntry)
  -- What the store holds, from `start_index` on.
  pub entries : Store → List LogEntry
  pub start_pos : (s : Store) → 1 ≤ start_index s
  pub next_slot_lem : (s : Store) → next_slot s ≡ start_index s + length (entries s)
  pub term_at_lem :
      (s : Store) (i : ℕ) (e : LogEntry)
      → get_elem? (entries s) i ≡ some e
      → term_at s (start_index s + i) ≡ e.term
  pub start-append : (s : Store) (e : LogEntry) → start_index (append e s) ≡ start_index s
  pub entries-append : (s : Store) (e : LogEntry) → entries (append e s) ≡ entries s ++ (e ∷ [])
  pub start-write_at :
      (s : Store) (i : ℕ) (e : LogEntry)
      → i < length (entries s)
      → start_index (write_at (start_index s + i) e s) ≡ start_index s
  -- "All log entries after the given index should be truncated."
  pub entries-write_at :
      (s : Store) (i : ℕ) (e : LogEntry)
      → i < length (entries s)
      → entries (write_at (start_index s + i) e s) ≡ take i (entries s) ++ (e ∷ [])
  -- Inside the log the entries are there, and the hint only leaves some of the last ones out.
  pub log_entries_ext_lem :
      (s : Store) (i n hint : ℕ)
      → i + n ≤ length (entries s)
      → (m : ℕ) × (m ≤ n)
        × (log_entries_ext (start_index s + i) (start_index s + i + n) hint s
            ≡ some (take m (drop i (entries s))))

-- Entries in one buffer, for a server that joins: `pack` and `apply_pack` of
-- include/libnuraft/log_store.hxx. `none`: an entry is not there, or the buffer holds no pack.
pub record LogPack (L : LogStore) : Type 1 where
  pub pack : ℕ → ℕ → LogStore.Store L → Option (List ℕ)
  pub apply_pack : ℕ → List ℕ → LogStore.Store L → Option (LogStore.Store L)
