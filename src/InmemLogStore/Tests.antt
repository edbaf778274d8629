-- ===== src/InmemLogStore/Tests.antt =====
-- A store with three entries, and the theorems of the store at it.
use nu_raft.Common.{ℕ, ◌≡◌, ◌<◌, ◌^◌, refl, arith, List, [], ◌∷◌, max, drop, length, ok}
use nu_raft.Buffer
use nu_raft.Raft.EntryFormat.{encode_entry}
use nu_raft.InmemLogStore.Pack.{pack, apply_pack}
use nu_raft.InmemLogStore.PackFormat.{encode_each, encode_pack}
use nu_raft.InmemLogStore.PackRoundTrip.{apply_pack-pack}
use nu_raft.Raft.Types.{LogEntry, app_log, conf}
use nu_raft.InmemLogStore.{
  InmemLogStore, dummy, append, write_at, compact, next_slot, log_entries_ext, log_entries_loop,
  find_or_dummy, find,
}
use nu_raft.InmemLogStore.Range.{Ranged, log_entries_ext-take}
use nu_raft.InmemLogStore.Entries.{Holds, number}
use nu_raft.InmemLogStore.Interface.{HeldStore, append-Holds, write_at-Holds}
use nu_raft.InmemLogStore.Compact.{compact-Holds}

abbrev pub first : LogEntry
first = record { term = 1; value_type = conf; buff = 7 ∷ [] }

abbrev pub second : LogEntry
second = record { term = 1; value_type = app_log; buff = 8 ∷ 9 ∷ [] }

abbrev pub third : LogEntry
third = record { term = 2; value_type = app_log; buff = [] }

abbrev pub three : InmemLogStore
three = record { logs = (0, dummy) ∷ (1, first) ∷ (2, second) ∷ (3, third) ∷ []; start_idx = 1 }

pub three-Holds : Holds three (first ∷ second ∷ third ∷ [])
unfolding number
three-Holds = record { start_pos = omega arith; logs_lem = refl }

-- The store as it is handed to a server.
abbrev pub held_three : HeldStore
held_three = record { store = three; held = first ∷ second ∷ third ∷ []; holds = three-Holds }

append-Holds_example : Holds (append first three) (first ∷ second ∷ third ∷ first ∷ [])
append-Holds_example = append-Holds three (first ∷ second ∷ third ∷ []) first three-Holds

write_at-Holds_example : Holds (write_at 2 third three) (first ∷ third ∷ [])
write_at-Holds_example =
    write_at-Holds three (first ∷ second ∷ third ∷ []) 1 third three-Holds (omega arith)

compact-Holds_example :
    Holds (compact 2 three) (third ∷ [])
    × ((compact 2 three).start_idx ≡ max 1 3)
    × (next_slot (compact 2 three) ≡ max (next_slot three) 3)
compact-Holds_example = compact-Holds three (first ∷ second ∷ third ∷ []) 2 three-Holds

-- A hint of two bytes is reached by the first of the two entries.
abbrev hint : ℕ
hint = 2

log_entries_ext-take_example :
    Ranged hint 2 (drop 1 (first ∷ second ∷ third ∷ [])) (log_entries_ext 2 4 hint three)
log_entries_ext-take_example =
    log_entries_ext-take three (first ∷ second ∷ third ∷ []) 1 2 hint three-Holds (omega arith)

reads_one : log_entries_ext 2 4 hint three ≡ second ∷ []
unfolding log_entries_ext log_entries_loop find_or_dummy find
reads_one = refl

-- A store with the first entry only gets the other two.
abbrev one : InmemLogStore
one = record { logs = (0, dummy) ∷ (1, first) ∷ []; start_idx = 1 }

one-Holds : Holds one (first ∷ [])
unfolding number
one-Holds = record { start_pos = omega arith; logs_lem = refl }

small : length (encode_pack (second ∷ third ∷ [])) < 2 ^ 31
unfolding encode_pack encode_each encode_entry Buffer.shifted_bytes
small = omega arith

apply_pack-pack_example :
    (bytes : List ℕ) × (t' : InmemLogStore) × (pack 2 2 three ≡ ok bytes)
    × (apply_pack 2 bytes one ≡ ok t')
    × Holds t' (first ∷ second ∷ third ∷ [])
    × (t'.start_idx ≡ 1)
apply_pack-pack_example =
    apply_pack-pack three one (first ∷ second ∷ third ∷ []) (first ∷ []) 1 2 three-Holds one-Holds
      refl (omega arith) (omega arith) (omega arith, (omega arith, tt)) small
