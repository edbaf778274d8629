-- ===== src/InmemLogStore/Compact.antt =====
-- What `inmem_log_store::compact` and `log_entries` (examples/in_memory_log_store.cxx) do to the
-- list of entries.
use nu_raft.Common.{
  ℕ, zero, suc, ◌+◌, ◌-◌, ◌≡◌, ◌≤◌, refl, ap, ◌∙◌, arith, true, false, List, [], ◌∷◌, length,
  length-drop, take, drop, drop_all, max, ◌==◌,
}
use nu_raft.Raft.Types.{LogEntry}
use nu_raft.InmemLogStore.{
  InmemLogStore, dummy, erase, erase_range, compact, next_slot, log_entries,
}
use nu_raft.InmemLogStore.Entries.{Holds, number}
use nu_raft.InmemLogStore.Interface.{next_slot-Holds}
use nu_raft.InmemLogStore.Range.{find_or_dummy-Holds, drop_at}

-- Erasing the first index takes the first entry off.
erase_front :
    (k : ℕ) (es : List LogEntry)
    → 1 ≤ k
    → erase k ((0, dummy) ∷ number k es) ≡ (0, dummy) ∷ number (k + 1) (drop 1 es)
unfolding erase number
erase_front k [] pos = rw (far) refl
  where
    far : (k == 0) ≡ false
    far = ground (arith, pos)
erase_front k (e ∷ es) pos = rw (far, here) refl
  where
    far : (k == 0) ≡ false
    far = ground (arith, pos)

    here : (k == k) ≡ true
    here = ground arith

drop_once : (n : ℕ) (es : List LogEntry) → drop n (drop 1 es) ≡ drop (suc n) es
drop_once n [] = drop_all n [] (omega arith)
drop_once n (e ∷ es) = refl

erase_range-number :
    (n k : ℕ) (es : List LogEntry)
    → 1 ≤ k
    → erase_range k n ((0, dummy) ∷ number k es) ≡ (0, dummy) ∷ number (k + n) (drop n es)
unfolding erase_range
erase_range-number zero k es pos = ap (λ i. (0, dummy) ∷ number i es) (omega arith)
erase_range-number (suc n) k es pos =
    ap (erase_range (k + 1) n) (erase_front k es pos)
    ∙ erase_range-number n (k + 1) (drop 1 es) (omega arith)
    ∙ ap (λ (i : ℕ). (0, dummy) ∷ number i (drop n (drop 1 es))) (omega arith)
    ∙ ap (λ xs. (0, dummy) ∷ number (k + suc n) xs) (drop_once n es)

start-compact :
    (s : InmemLogStore) (last : ℕ)
    → (compact last s).start_idx ≡ s.start_idx + (last + 1 - s.start_idx)
unfolding compact
start-compact s last = ground arith

-- A store without gaps that is compacted up to `last` holds what comes behind `last`, from the
-- later of its start and the index after `last` on. Its next slot stays, or is the index after
-- `last` where that is further.
pub compact-Holds :
    (s : InmemLogStore) (es : List LogEntry) (last : ℕ)
    → Holds s es
    → Holds (compact last s) (drop (last + 1 - s.start_idx) es)
      × ((compact last s).start_idx ≡ max s.start_idx (last + 1))
      × (next_slot (compact last s) ≡ max (next_slot s) (last + 1))
compact-Holds s es last h = (
  held,
  omega (arith, start-compact s last),
  omega (
    arith,
    start-compact s last,
    next_slot-Holds s es h,
    next_slot-Holds (compact last s) _ held,
    length-drop (last + 1 - s.start_idx) es,
  ),
)
  where
    logs :
        (compact last s).logs
        ≡ (0, dummy)
          ∷ number (s.start_idx + (last + 1 - s.start_idx)) (drop (last + 1 - s.start_idx) es)
    logs =
        unfold compact in
        ap (erase_range s.start_idx (last + 1 - s.start_idx)) h.logs_lem
        ∙ erase_range-number (last + 1 - s.start_idx) s.start_idx es h.start_pos

    held : Holds (compact last s) (drop (last + 1 - s.start_idx) es)
    held = record {
      start_pos = omega (arith, start-compact s last, h.start_pos);
      logs_lem = rw (start-compact s last) logs;
    }

-- A range that lies in a store without gaps is read as it is held.
log_entries-Holds :
    (s : InmemLogStore) (es : List LogEntry) (i n : ℕ)
    → Holds s es
    → i + n ≤ length es
    → log_entries (s.start_idx + i) n s ≡ take n (drop i es)
unfolding log_entries
log_entries-Holds s es i zero h inside = refl
log_entries-Holds s es i (suc n) h inside =
    let (e, at_i, front) = drop_at es i (omega arith) in
    rw (front, find_or_dummy-Holds s es i e h at_i, next)
      (ap (λ xs. e ∷ xs) (log_entries-Holds s es (suc i) n h (omega arith)))
  where
    next : s.start_idx + i + 1 ≡ s.start_idx + suc i
    next = omega arith
