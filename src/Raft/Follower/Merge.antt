-- ===== src/Raft/Follower/Merge.antt =====
-- The log that a follower should have after an append request, and that the loops of
-- `handle_append_entries` (src/handle_append_entries.cxx) leave it so.
use nu_raft.Common.{
  ℕ, suc, ◌+◌, ◌≡◌, ◌≤◌, ◌<◌, refl, ap, sym, ◌∙◌, arith, true, some, List, [], ◌∷◌, ◌++◌, length,
  length-append, take, take_front, get_elem?, append_assoc, append-nil, ltb, ◌==◌, if◌then◌else◌,
  inl, inr, Bool-cases, ltb_of_le, lt→ltb,
}
use nu_raft.Raft.Types.{LogEntry}
use nu_raft.Raft.LogStore.{LogStore}
use nu_raft.Raft.Follower.{skip_existing}

-- Entries of the same term are kept; from the first conflict on the leader's take their place.
-- What lies behind the leader's entries stays if there is no conflict.
unfoldable pub merge : List LogEntry → List LogEntry → List LogEntry
merge olds [] = olds
merge [] (e ∷ es) = e ∷ es
merge (o ∷ os) (e ∷ es) = if o.term == e.term then o ∷ merge os es else e ∷ es

get_elem?-front :
    (xs ys : List LogEntry) (y : LogEntry) → get_elem? (xs ++ (y ∷ ys)) (length xs) ≡ some y
get_elem?-front [] ys y = refl
get_elem?-front (x ∷ xs) ys y = get_elem?-front xs ys y

module _ (L : LogStore) where
  open L use {
    Store, start_index, next_slot, entry_at, term_at, append, write_at, entries, start_pos,
    next_slot_lem, term_at_lem, start-append, entries-append, start-write_at, entries-write_at,
  }

  -- Where the skipping stops, and what is still to be done to reach `goal`.
  pub data Skip (log : Store) (goal : List LogEntry) (r : ℕ × List LogEntry) : Type 0 where
    kept : r.1 ≡ [] → goal ≡ entries log → Skip log goal r
    at_end : r.0 ≡ next_slot log → goal ≡ entries log ++ r.1 → Skip log goal r
    conflict :
        (i : ℕ) (e : LogEntry) (es : List LogEntry)
        → r.0 ≡ start_index log + i
        → i < length (entries log)
        → r.1 ≡ e ∷ es
        → goal ≡ take i (entries log) ++ (e ∷ es)
        → Skip log goal r

  pub skip_existing-Skip :
      (log : Store) (pre rest es : List LogEntry)
      → entries log ≡ pre ++ rest
      → Skip log (pre ++ merge rest es) (skip_existing L log (start_index log + length pre) es)
  unfolding skip_existing merge
  skip_existing-Skip log pre rest [] h = kept refl (sym h)
  skip_existing-Skip log pre [] (e ∷ es) h =
      rw (ltb_of_le (start_index log + length pre) (next_slot log) at_slot) (
        at_end (omega (arith, next_slot_lem log, ap length h, ap length (append-nil pre)))
          (ap (λ (xs : List LogEntry). xs ++ (e ∷ es)) (sym (h ∙ append-nil pre))))
    where
      at_slot : next_slot log ≤ start_index log + length pre
      at_slot = omega (arith, next_slot_lem log, ap length h, ap length (append-nil pre))
  skip_existing-Skip log pre (o ∷ os) (e ∷ es) h = elim (Bool-cases (o.term == e.term)) [
    | inl same ↦
        rw (inside, here, same, longer, ← append_assoc pre (o ∷ []) (merge os es))
          (skip_existing-Skip log (pre ++ (o ∷ [])) os es (h ∙ sym (append_assoc pre (o ∷ []) os)))
    | inr differ ↦
        rw (inside, here, differ)
          (conflict (length pre) e es refl (omega (arith, total)) refl
            (ap (λ (xs : List LogEntry). xs ++ (e ∷ es)) front))
  ]
    where
      total : length (entries log) ≡ length pre + suc (length os)
      total = ap length h ∙ length-append pre (o ∷ os)

      inside : ltb (start_index log + length pre) (next_slot log) ≡ true
      inside = lt→ltb _ _ (omega (arith, next_slot_lem log, total))

      here : term_at log (start_index log + length pre) ≡ o.term
      here = term_at_lem log (length pre) o (rw h (get_elem?-front pre os o))

      longer : start_index log + length pre + 1 ≡ start_index log + length (pre ++ (o ∷ []))
      longer = omega (arith, length-append pre (o ∷ []))

      front : pre ≡ take (length pre) (entries log)
      front = rw h (sym (take_front pre (o ∷ os)))
