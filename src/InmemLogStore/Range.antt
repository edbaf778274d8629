-- ===== src/InmemLogStore/Range.antt =====
-- Single entries and ranges of them, read from the store of examples/in_memory_log_store.cxx.
use nu_raft.Common.{
  ℕ, zero, suc, ◌+◌, ◌-◌, ◌^◌, ◌≡◌, ◌≤◌, ◌<◌, refl, ap, ◌∙◌, arith, false, not, ◌&&◌, some, List,
  [], ◌∷◌, length, take, drop, get_elem?, leb, ◌==◌, Bool-cases, inl, inr, ◌⊎◌, true,
}
use nu_raft.Raft.Types.{LogEntry}
use nu_raft.InmemLogStore.{InmemLogStore, find, find_or_dummy, log_entries_loop, log_entries_ext}
use nu_raft.InmemLogStore.Entries.{Holds, find-number}

-- What stands at an index is found there.
pub find_or_dummy-Holds :
    (s : InmemLogStore) (es : List LogEntry) (i : ℕ) (e : LogEntry)
    → Holds s es
    → get_elem? es i ≡ some e
    → find_or_dummy (s.start_idx + i) s ≡ e
unfolding find_or_dummy find
find_or_dummy-Holds s es i e h at_i = rw (find_or_dummy, found) refl
  where
    after_dummy : ((s.start_idx + i) == 0) ≡ false
    after_dummy = ground (arith, h.start_pos)

    found : find (s.start_idx + i) s.logs ≡ some e
    found = rw (h.logs_lem, after_dummy) (find-number s.start_idx i es refl ∙ at_i)

-- The rest of a list from an index inside it on begins with the element there.
pub drop_at :
    (es : List LogEntry) (i : ℕ)
    → i < length es
    → (e : LogEntry) × (get_elem? es i ≡ some e) × (drop i es ≡ e ∷ drop (suc i) es)
drop_at [] i h = absurd (omega arith)
drop_at (e ∷ es) zero h = (e, refl, refl)
drop_at (e ∷ es) (suc i) h = drop_at es i (omega arith)

pub sum_bytes_of : List LogEntry → ℕ
sum_bytes_of [] = 0
sum_bytes_of (e ∷ es) = length e.buff + sum_bytes_of es

-- `m` of the first `n` entries, with `accum` bytes before them: as few as reach the hint, and all
-- `n` if they do not reach it or the hint is 0.
pub record Cut (hint accum n : ℕ) (es : List LogEntry) (m : ℕ) : Type 0 where
  pub bound : m ≤ n
  pub enough : (m ≡ n) ⊎ ((1 ≤ hint) × (hint ≤ accum + sum_bytes_of (take m es)))
  pub least : (k : ℕ) → k < m → (hint ≡ 0) ⊎ (accum + sum_bytes_of (take k es) < hint)

-- What is read of `es`, which has `n` entries at least.
abbrev Reading : ℕ → ℕ → ℕ → List LogEntry → List LogEntry → Type 0
Reading hint accum n es result = (m : ℕ) × Cut hint accum n es m × (result ≡ take m es)

Cut-first :
    (hint accum n : ℕ) (e : LogEntry) (es : List LogEntry)
    → (hint ≡ 0) ⊎ (accum < hint)
    → (not (hint == 0) && leb hint (accum + length e.buff)) ≡ true
    → Cut hint accum (suc n) (e ∷ es) 1
unfolding sum_bytes_of
Cut-first hint accum n e es low full = record {
  bound = omega arith;
  enough = inr (ground (arith, full), ground (arith, full));
  least = only;
}
  where
    only : (k : ℕ) → k < 1 → (hint ≡ 0) ⊎ (accum + sum_bytes_of (take k (e ∷ es)) < hint)
    only zero h = ground (arith, low)
    only (suc k) h = absurd (omega (arith, h))

Cut-more :
    (hint accum n m : ℕ) (e : LogEntry) (es : List LogEntry)
    → (hint ≡ 0) ⊎ (accum < hint)
    → Cut hint (accum + length e.buff) n es m
    → Cut hint accum (suc n) (e ∷ es) (suc m)
unfolding sum_bytes_of
Cut-more hint accum n m e es low c = record {
  bound = omega (arith, c.bound);
  enough = ground (arith, c.enough);
  least = further;
}
  where
    further : (k : ℕ) → k < suc m → (hint ≡ 0) ⊎ (accum + sum_bytes_of (take k (e ∷ es)) < hint)
    further zero h = ground (arith, low)
    further (suc k) h = ground (arith, c.least k (omega (arith, h)))

log_entries_loop-take :
    (s : InmemLogStore) (es : List LogEntry) (hint accum i n : ℕ)
    → Holds s es
    → i + n ≤ length es
    → (hint ≡ 0) ⊎ (accum < hint)
    → Reading hint accum n (drop i es) (log_entries_loop hint accum (s.start_idx + i) n s)
unfolding log_entries_loop
log_entries_loop-take s es hint accum i zero h inside low = (
  0,
  record { bound = omega arith; enough = inl refl; least = λ k e. absurd (omega (arith, e)) },
  refl,
)
log_entries_loop-take s es hint accum i (suc n) h inside low =
    let (e, at_i, front) = drop_at es i (omega arith) in
    taken e (find_or_dummy-Holds s es i e h at_i) front (λ room.
      log_entries_loop-take s es hint (accum + length e.buff) (suc i) n h (omega arith) room)
  where
    next : s.start_idx + i + 1 ≡ s.start_idx + suc i
    next = omega arith

    taken :
        (e : LogEntry)
        → find_or_dummy (s.start_idx + i) s ≡ e
        → drop i es ≡ e ∷ drop (suc i) es
        → ((hint ≡ 0) ⊎ (accum + length e.buff < hint)
            → Reading hint
                (accum + length e.buff)
                n
                (drop (suc i) es)
                (log_entries_loop hint (accum + length e.buff) (s.start_idx + suc i) n s))
        → Reading hint accum
            (suc n)
            (drop i es)
            (log_entries_loop hint accum (s.start_idx + i) (suc n) s)
    taken e found front rest =
        elim (Bool-cases (not (hint == 0) && leb hint (accum + length e.buff))) [
          | inl full ↦
              rw (found, full, front, log_entries_loop)
                (1, Cut-first hint accum n e (drop (suc i) es) low full, refl)
          | inr room ↦
              let (m, c, same) = rest (ground (arith, room)) in
              rw (found, room, front, log_entries_loop, next)
                (suc m, Cut-more hint accum n m e (drop (suc i) es) low c, ap (λ xs. e ∷ xs) same)
        ]

-- What a range gives: with a negative hint nothing, else what the hint allows of its entries.
pub data Ranged (hint n : ℕ) (es out : List LogEntry) : Type 0 where
  negative : 2 ^ 63 ≤ hint → out ≡ [] → Ranged hint n es out
  hinted : (m : ℕ) → hint < 2 ^ 63 → Cut hint 0 n es m → out ≡ take m es → Ranged hint n es out

-- A range inside a store without gaps is read from its front: as few entries as reach the hint in
-- bytes, and all if they do not reach it or the hint is 0; with a negative hint none.
pub log_entries_ext-take :
    (s : InmemLogStore) (es : List LogEntry) (i n hint : ℕ)
    → Holds s es
    → i + n ≤ length es
    → Ranged hint n (drop i es) (log_entries_ext (s.start_idx + i) (s.start_idx + i + n) hint s)
unfolding log_entries_ext
log_entries_ext-take s es i n hint h inside = elim (Bool-cases (leb (2 ^ 63) hint)) [
  | inl none_wanted ↦
      rw (none_wanted, log_entries_ext) (negative (ground (arith, none_wanted)) refl)
  | inr wanted ↦
      let count : s.start_idx + i + n - (s.start_idx + i) ≡ n = omega arith in
      let (m, c, same) = log_entries_loop-take s es hint 0 i n h inside (ground arith) in
      rw (wanted, log_entries_ext, count) (hinted m (ground (arith, wanted)) c same)
]

-- In short, some of the first entries.
pub log_entries_ext-front :
    (s : InmemLogStore) (es : List LogEntry) (i n hint : ℕ)
    → Holds s es
    → i + n ≤ length es
    → (m : ℕ) × (m ≤ n)
      × (log_entries_ext (s.start_idx + i) (s.start_idx + i + n) hint s ≡ take m (drop i es))
log_entries_ext-front s es i n hint h inside = elim (log_entries_ext-take s es i n hint h inside) [
  | negative big nothing ↦ (0, omega arith, nothing)
  | hinted m small c same ↦ (m, c.bound, same)
]
