-- ===== src/Raft/Follower/Refuse.antt =====
-- Which requests `raft_server::handle_append_entries` (src/handle_append_entries.cxx) refuses for
-- the state of the log, by what the log and the snapshot hold.
use nu_raft.Common.{
  ℕ, zero, suc, ◌+◌, ◌-◌, ◌≡◌, ◌≢◌, ◌≤◌, ◌<◌, ◌⊎◌, inl, inr, refl, arith, Bool, false, not, ◌&&◌,
  ◌||◌, Option, none, some, List, [], ◌∷◌, length, get_elem?, ltb, leb, ◌==◌, Bool-cases,
  if◌then◌else◌, subst,
}
use nu_raft.Raft.Types.{leader, LogEntry, ReqMsg}
use nu_raft.Raft.LogStore.{LogStore}
use nu_raft.Raft.Server.{Server}
use nu_raft.Raft.Follower.{
  Answers, snapshot_matches, snapshot_term, term_for_log, log_okay, handle_append_entries,
}
use nu_raft.Raft.Follower.Replicate.{Denied, handle_append_entries-refuses}

elem_there :
    (es : List LogEntry) (i : ℕ) → i < length es → (e : LogEntry) × (get_elem? es i ≡ some e)
elem_there [] i h = absurd (omega (arith, h))
elem_there (e ∷ es) zero h = (e, refl)
elem_there (e ∷ es) (suc i) h = elem_there es i (omega (arith, h))

neither : {a b c : Bool} → a ≡ false → b ≡ false → c ≡ false → (a || b || c) ≡ false
neither e e' e'' = rw (e, e', e'') refl

unequal :
    (i t idx term : ℕ)
    → ◌≢◌ {A = Option (ℕ × ℕ)} (some (i, t)) (some (idx, term))
    → (i == idx && t == term) ≡ false
unequal i t idx term differs = elim (Bool-cases (i == idx)) [
  | inr apart ↦ rw apart refl
  | inl here ↦ elim (Bool-cases (t == term)) [
    | inr apart ↦ rw (here, apart) refl
    | inl same ↦ absurd (differs (both (ground (arith, here)) (ground (arith, same))))
  ]
]
  where
    both : i ≡ idx → t ≡ term → ◌≡◌ {A = Option (ℕ × ℕ)} (some (i, t)) (some (idx, term))
    both e e' = rw (e, e') refl

module _ (L : LogStore) where
  open L use {Store, start_index, next_slot, entries, term_at, next_slot_lem, term_at_lem}

  -- There is an entry before those of the request, and the server has none of that index and term,
  -- neither in its log nor as the last one of its snapshot.
  pub record Missing (req : ReqMsg) (s : Server Store) : Type 0 where
    pub before : 1 ≤ req.last_log_idx
    pub no_snapshot : s.last_snapshot ≢ some (req.last_log_idx, req.last_log_term)
    pub no_entry :
        (i : ℕ) (e : LogEntry)
        → start_index s.log_store + i ≡ req.last_log_idx
        → get_elem? (entries s.log_store) i ≡ some e
        → e.term ≢ req.last_log_term

  unmatched :
      (o : Option (ℕ × ℕ)) (idx term : ℕ)
      → o ≢ some (idx, term)
      → snapshot_matches o idx term ≡ false
  unfolding snapshot_matches
  unmatched none idx term differs = refl
  unmatched (some (i, t)) idx term differs = unequal i t idx term differs

  -- The term that the snapshot gives for its own index only.
  snapshot_apart :
      (o : Option (ℕ × ℕ)) (idx term : ℕ)
      → o ≢ some (idx, term)
      → (not (snapshot_term o idx == 0) && term == snapshot_term o idx) ≡ false
  unfolding snapshot_term
  snapshot_apart none idx term differs = refl
  snapshot_apart (some (i, t)) idx term differs = elim (Bool-cases (i == idx)) [
    | inr apart ↦ rw apart refl
    | inl here ↦ ground (arith, here, unequal i t idx term differs)
  ]

  -- The term of the entry before, or 0.
  unfoldable own_term : ReqMsg → Server Store → ℕ
  unfolding term_for_log
  own_term req s =
      if ltb req.last_log_idx (next_slot s.log_store) then term_for_log L s req.last_log_idx else 0

  own_term-differs :
      (req : ReqMsg) (s : Server Store)
      → Missing req s
      → (not (own_term req s == 0) && req.last_log_term == own_term req s) ≡ false
  unfolding own_term term_for_log
  own_term-differs req s m =
      let idx = req.last_log_idx in
      let start = start_index s.log_store in
      let nonzero : (idx == 0) ≡ false = ground (arith, m.before) in
      elim (Bool-cases (ltb idx (next_slot s.log_store))) [
        | inr beyond ↦ rw beyond refl
        | inl inside ↦ elim (Bool-cases (leb start idx)) [
          | inr compacted ↦
              rw (inside, nonzero, compacted)
                (snapshot_apart s.last_snapshot idx req.last_log_term m.no_snapshot)
          | inl held ↦
              let low : start ≤ idx = ground (arith, held) in
              let high : idx < next_slot s.log_store = ground (arith, inside) in
              let (e, there) =
                elem_there (entries s.log_store) (idx - start)
                  (omega (arith, low, high, next_slot_lem s.log_store)) in
              let at : start + (idx - start) ≡ idx = omega (arith, low) in
              let term : term_at s.log_store idx ≡ e.term =
                subst (λ (k : ℕ). term_at s.log_store k ≡ e.term) at
                  (term_at_lem s.log_store (idx - start) e there) in
              rw (inside, nonzero, held, term)
                (other_term e.term req.last_log_term (m.no_entry (idx - start) e at there))
        ]
      ]
    where
      other_term : (t term : ℕ) → t ≢ term → (not (t == 0) && term == t) ≡ false
      other_term t term differs = ground (arith, differs)

  log_okay-Missing : (req : ReqMsg) (s : Server Store) → Missing req s → log_okay L req s ≡ false
  unfolding log_okay own_term
  log_okay-Missing req s m =
      let nonzero : (req.last_log_idx == 0) ≡ false = ground (arith, m.before) in
      neither nonzero (own_term-differs req s m)
        (unmatched s.last_snapshot req.last_log_idx req.last_log_term m.no_snapshot)

  -- A request of an older term, or one whose previous entry the server has not, is refused by a
  -- server that does not lead its term: the answer carries the server's term and its next slot,
  -- from which the leader goes on, and the log, the term, the vote and the indexes stay.
  pub handle_append_entries-Denied :
      (req : ReqMsg) (answers : Answers) (s : Server Store)
      → (s.role ≢ leader) ⊎ (req.term ≢ s.state.term)
      → (req.term < s.state.term) ⊎ Missing req s
      → let out = handle_append_entries L req answers s in Denied L s out.0 out.1
  handle_append_entries-Denied req answers s leads (inl old) =
      handle_append_entries-refuses L req answers s leads (inl old)
  handle_append_entries-Denied req answers s leads (inr missing) =
      handle_append_entries-refuses L req answers s leads (inr (log_okay-Missing req s missing))
