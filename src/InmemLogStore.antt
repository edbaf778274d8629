-- ===== src/InmemLogStore.antt =====
-- examples/in_memory_log_store.cxx: a log store in a sorted map. Entries are copied in and out, so
-- that values serve for the clones. The emulation of a slow disk is off (`disk_emul_delay` is 0).
pub mod Entries
pub mod Interface
pub mod Compact
pub mod Pack
pub mod PackFormat
pub mod PackKeep
pub mod PackRoundTrip
pub mod Range
pub mod Tests
use nu_raft.Common.{
  ℕ, zero, suc, ◌+◌, ◌-◌, ◌^◌, Bool, not, ◌&&◌, Option, none, some, List, [], ◌∷◌, length, ltb, leb,
  ◌==◌, if◌then◌else◌,
}
use nu_raft.Raft.Types.{LogEntry, app_log}

pub record InmemLogStore : Type 0 where
  -- `std::map`, by ascending index.
  pub logs : List (ℕ × LogEntry)
  pub start_idx : ℕ

-- Eight bytes of a fresh buffer, which nothing has written.
abbrev pub dummy : LogEntry
dummy = record { term = 0; value_type = app_log; buff = 0 ∷ 0 ∷ 0 ∷ 0 ∷ 0 ∷ 0 ∷ 0 ∷ 0 ∷ [] }

abbrev pub fresh : InmemLogStore
fresh = record { logs = (0, dummy) ∷ []; start_idx = 1 }

-- `std::map::find`.
unfoldable pub find : ℕ → List (ℕ × LogEntry) → Option LogEntry
find k [] = none
find k ((i, e) ∷ rest) = if k == i then some e else find k rest

-- `std::map::operator[]` assigned to.
unfoldable pub assign : ℕ → LogEntry → List (ℕ × LogEntry) → List (ℕ × LogEntry)
assign k e [] = (k, e) ∷ []
assign k e ((i, d) ∷ rest) =
    if ltb k i
    then (k, e) ∷ (i, d) ∷ rest
    else if k == i
    then (k, e) ∷ rest
    else (i, d) ∷ assign k e rest

-- From `lower_bound(k)` on all is erased.
unfoldable pub erase_from : ℕ → List (ℕ × LogEntry) → List (ℕ × LogEntry)
erase_from k [] = []
erase_from k ((i, d) ∷ rest) = if ltb i k then (i, d) ∷ erase_from k rest else []

pub erase : ℕ → List (ℕ × LogEntry) → List (ℕ × LogEntry)
erase k [] = []
erase k ((i, d) ∷ rest) = if k == i then rest else (i, d) ∷ erase k rest

-- `find`, and the dummy entry at index 0 where that fails. The map always has it.
unfoldable pub find_or_dummy : ℕ → InmemLogStore → LogEntry
unfolding find
find_or_dummy k s = elim (find k s.logs) [
  | some e ↦ e
  | none ↦ elim (find 0 s.logs) [ some e ↦ e | none ↦ dummy ]
]

unfoldable pub next_slot : InmemLogStore → ℕ
next_slot s = s.start_idx + length s.logs - 1

abbrev pub start_index : InmemLogStore → ℕ
start_index s = s.start_idx

unfoldable pub last_entry : InmemLogStore → LogEntry
unfolding find_or_dummy next_slot
last_entry s = find_or_dummy (next_slot s - 1) s

unfoldable pub append : LogEntry → InmemLogStore → InmemLogStore
unfolding assign
append entry s = record s { logs = assign (s.start_idx + length s.logs - 1) entry s.logs }

unfoldable pub write_at : ℕ → LogEntry → InmemLogStore → InmemLogStore
unfolding assign erase_from
write_at index entry s = record s { logs = assign index entry (erase_from index s.logs) }

unfoldable pub entry_at : ℕ → InmemLogStore → LogEntry
unfolding find_or_dummy
entry_at index s = find_or_dummy index s

unfoldable pub term_at : ℕ → InmemLogStore → ℕ
unfolding find_or_dummy
term_at index s = (find_or_dummy index s).term

-- `count` entries from `start` on, which is the range up to `end`.
pub log_entries : ℕ → ℕ → InmemLogStore → List LogEntry
unfolding find_or_dummy
log_entries start zero s = []
log_entries start (suc count) s = find_or_dummy start s ∷ log_entries (start + 1) count s

-- The loop of `log_entries_ext`: at most `count` entries, until their sizes reach the hint.
unfoldable pub log_entries_loop : ℕ → ℕ → ℕ → ℕ → InmemLogStore → List LogEntry
unfolding find_or_dummy
log_entries_loop hint accum_size start zero s = []
log_entries_loop hint accum_size start (suc count) s =
    let src = find_or_dummy start s in
    let size = accum_size + length src.buff in
    let rest = log_entries_loop hint size (start + 1) count s in
    src ∷ (if not (hint == 0) && leb hint size then [] else rest)

-- The hint is an `int64` bit pattern, and a negative one asks for nothing.
unfoldable pub log_entries_ext : ℕ → ℕ → ℕ → InmemLogStore → List LogEntry
unfolding log_entries_loop
log_entries_ext start end hint s =
    if leb (2 ^ 63) hint then [] else log_entries_loop hint 0 start (end - start) s

-- The loop of `compact`, with the number of rounds.
pub erase_range : ℕ → ℕ → List (ℕ × LogEntry) → List (ℕ × LogEntry)
unfolding erase
erase_range from zero logs = logs
erase_range from (suc n) logs = erase_range (from + 1) n (erase from logs)

pub compact : ℕ → InmemLogStore → InmemLogStore
unfolding erase_range
compact last_log_index s = record {
  logs = erase_range s.start_idx (last_log_index + 1 - s.start_idx) s.logs;
  start_idx = if leb s.start_idx last_log_index then last_log_index + 1 else s.start_idx;
}
