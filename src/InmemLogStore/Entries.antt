-- ===== src/InmemLogStore/Entries.antt =====
-- The contents of the store of examples/in_memory_log_store.cxx as a list of entries without gaps.
use nu_raft.Common.{
  ℕ, zero, suc, ◌+◌, ◌≡◌, ◌≤◌, refl, ap, arith, List, [], ◌∷◌, ◌++◌, length, take, get_elem?, true,
  false, ltb, ◌==◌,
}
use nu_raft.Raft.Types.{LogEntry}
use nu_raft.InmemLogStore.{InmemLogStore, find, assign, erase_from, dummy}

-- Entries under successive indexes.
unfoldable pub number : ℕ → List LogEntry → List (ℕ × LogEntry)
number i [] = []
number i (e ∷ es) = (i, e) ∷ number (i + 1) es

-- The store has these entries from `start_idx` on, and the dummy entry.
pub record Holds (s : InmemLogStore) (es : List LogEntry) : Type 0 where
  pub start_pos : 1 ≤ s.start_idx
  pub logs_lem : s.logs ≡ (0, dummy) ∷ number s.start_idx es

pub length-number : (i : ℕ) (es : List LogEntry) → length (number i es) ≡ length es
unfolding number
length-number i [] = refl
length-number i (e ∷ es) = ap suc (length-number (i + 1) es)

-- An index that is `i` places behind the first.
pub find-number :
    (k i : ℕ) (es : List LogEntry) {j : ℕ} → j ≡ k + i → find j (number k es) ≡ get_elem? es i
unfolding find number
find-number k i [] h = refl
find-number k zero (e ∷ es) {j = j} h = rw (here) refl
  where
    here : (j == k) ≡ true
    here = ground (arith, h)
find-number k (suc i) (e ∷ es) {j = j} h = rw (far) (find-number (k + 1) i es (omega arith))
  where
    far : (j == k) ≡ false
    far = ground (arith, h)

pub assign-number :
    (k : ℕ) (es : List LogEntry) (e : LogEntry) {j : ℕ}
    → j ≡ k + length es
    → assign j e (number k es) ≡ number k (es ++ (e ∷ []))
unfolding assign number
assign-number k [] e h = ap (λ i. (i, e) ∷ []) (omega arith)
assign-number k (d ∷ es) e {j = j} h =
    rw (below, far) (ap (λ xs. (k, d) ∷ xs) (assign-number (k + 1) es e (omega arith)))
  where
    below : ltb j k ≡ false
    below = ground (arith, h)

    far : (j == k) ≡ false
    far = ground (arith, h)

pub erase_from-number :
    (k i : ℕ) (es : List LogEntry) {j : ℕ}
    → j ≡ k + i
    → erase_from j (number k es) ≡ number k (take i es)
unfolding erase_from number
erase_from-number k zero [] h = refl
erase_from-number k (suc i) [] h = refl
erase_from-number k zero (e ∷ es) {j = j} h = rw (at_end) refl
  where
    at_end : ltb k j ≡ false
    at_end = ground (arith, h)
erase_from-number k (suc i) (e ∷ es) {j = j} h =
    rw (below) (ap (λ xs. (k, e) ∷ xs) (erase_from-number (k + 1) i es (omega arith)))
  where
    below : ltb k j ≡ true
    below = ground (arith, h)
