-- ===== src/Raft/Vote/Grant.antt =====
-- What a vote means: `handle_vote_req` of src/handle_vote.cxx on all its branches.
use nu_raft.Common.{
  ℕ, ◌-◌, ◌≡◌, ◌≢◌, ◌≤◌, ◌<◌, ◌⊎◌, List, [], ◌&&◌, not, ◌==◌, inl, inr, refl, arith, true, false,
  ◌∷◌, Bool-cases,
}
use nu_raft.Raft.Types.{LogEntry, ReqMsg, RespMsg, no_server, lt_i32}
use nu_raft.Config.{SrvConfig}
use nu_raft.Raft.LogStore.{LogStore}
use nu_raft.Raft.Server.{Server, save_state, emit}
use nu_raft.Raft.Vote.{
  is_force_vote, is_up_to_date, can_grant, ignores_priority, has_low_priority, grant,
  handle_vote_req,
}

-- The log that ends later: by the term of the last entry, then by its index.
abbrev pub EndsNoEarlier : ℕ → ℕ → ℕ → ℕ → Type 0
EndsNoEarlier term idx my_term my_idx = (my_term < term) ⊎ ((term ≡ my_term) × (my_idx ≤ idx))

-- The log that ends earlier.
abbrev pub EndsEarlier : ℕ → ℕ → ℕ → ℕ → Type 0
EndsEarlier term idx my_term my_idx = (term < my_term) ⊎ ((term ≡ my_term) × (idx < my_idx))

-- A member of that id with a priority of its own, below the target.
abbrev pub IsLow : ℕ → ℕ → List SrvConfig → Type 0
IsLow src target [] = ⊥
IsLow src target (c ∷ cs) =
    ((c.id ≡ src) × (c.priority ≢ 0) × (lt_i32 c.priority target ≡ true)) ⊎ IsLow src target cs

has_low_priority-IsLow :
    (src target : ℕ) (cs : List SrvConfig)
    → has_low_priority src target cs ≡ true
    → IsLow src target cs
unfolding has_low_priority
has_low_priority-IsLow src target [] low = absurd (ground (arith, low))
has_low_priority-IsLow src target (c ∷ cs) low =
    elim (Bool-cases (c.id == src && not (c.priority == 0) && lt_i32 c.priority target)) [
      | inl here ↦ inl (ground (arith, here), ground (arith, here), ground (arith, here))
      | inr apart ↦ inr (has_low_priority-IsLow src target cs (ground (arith, low, apart)))
    ]

not-IsLow :
    (src target : ℕ) (cs : List SrvConfig)
    → has_low_priority src target cs ≡ false
    → IsLow src target cs
    → ⊥
unfolding has_low_priority
not-IsLow src target [] high low = low
not-IsLow src target (c ∷ cs) high (inl (same, own, below)) = ground (arith, high, same, own, below)
not-IsLow src target (c ∷ cs) high (inr low) = not-IsLow src target cs (ground (arith, high)) low

module _ (L : LogStore) where
  open L use {Store, next_slot, last_term}

  List-cases :
      (es : List LogEntry) → (es ≡ []) ⊎ ((e : LogEntry) × (rest : List LogEntry) × (es ≡ e ∷ rest))
  List-cases [] = inl refl
  List-cases (e ∷ rest) = inr (e, rest, refl)

  -- Priorities do not count for a forced vote, and not for a server that is catching up.
  abbrev pub Ignored : ReqMsg → Server Store → Type 0
  Ignored req s = (req.log_entries ≢ []) ⊎ (s.catching_up ≡ true)

  abbrev pub Heeded : ReqMsg → Server Store → Type 0
  Heeded req s = (req.log_entries ≡ []) × (s.catching_up ≡ false)

  -- A vote that is given.
  pub record Granted (req : ReqMsg) (s t : Server Store) (r : RespMsg) : Type 0 where
    pub same_term : req.term ≡ s.state.term
    pub free : (s.state.voted_for ≡ req.src) ⊎ (s.state.voted_for ≡ no_server)
    pub up_to_date :
        EndsNoEarlier req.last_log_term req.last_log_idx
          (last_term s.log_store)
          (next_slot s.log_store - 1)
    pub rank : Ignored req s ⊎ (IsLow req.src s.target_priority s.config.servers → ⊥)
    pub vote : t.state ≡ record (s.state) { voted_for = req.src }
    pub saved : t.effects ≡ save_state t.state ∷ s.effects
    pub log : t.log_store ≡ s.log_store
    pub answer_term : r.term ≡ t.state.term

  -- A vote that is refused, and why.
  pub record Refused (req : ReqMsg) (s t : Server Store) (r : RespMsg) : Type 0 where
    pub why :
        (req.term ≢ s.state.term)
        ⊎ EndsEarlier req.last_log_term req.last_log_idx
            (last_term s.log_store)
            (next_slot s.log_store - 1)
        ⊎ ((s.state.voted_for ≢ req.src) × (s.state.voted_for ≢ no_server))
        ⊎ (Heeded req s × IsLow req.src s.target_priority s.config.servers)
    pub unchanged : t ≡ s

  pub data Vote (req : ReqMsg) (s t : Server Store) (r : RespMsg) : Type 0 where
    granted : r.accepted ≡ true → Granted req s t r → Vote req s t r
    refused : r.accepted ≡ false → Refused req s t r → Vote req s t r

  ignored_lem : (req : ReqMsg) (s : Server Store) → ignores_priority L req s ≡ true → Ignored req s
  unfolding ignores_priority is_force_vote
  ignored_lem req s h = elim (List-cases req.log_entries) [
    | inl none_there ↦ inr (ground (arith, rw none_there at h))
    | inr (e, es, there) ↦ inl (λ e'. ground (arith, there, e'))
  ]

  heeded_lem : (req : ReqMsg) (s : Server Store) → ignores_priority L req s ≡ false → Heeded req s
  unfolding ignores_priority is_force_vote
  heeded_lem req s h = elim (List-cases req.log_entries) [
    | inl none_there ↦ (none_there, ground (arith, rw none_there at h))
    | inr (e, es, there) ↦ absurd (ground (arith, rw there at h))
  ]

  can_grant-Granted :
      (req : ReqMsg) (s : Server Store) (r : RespMsg)
      → can_grant L req s ≡ true
      → Ignored req s ⊎ (IsLow req.src s.target_priority s.config.servers → ⊥)
      → r.term ≡ s.state.term
      → Granted req s (grant L req s) r
  unfolding can_grant is_up_to_date grant
  can_grant-Granted req s r h rank term = record {
    same_term = ground (arith, h);
    free = ground (arith, h);
    up_to_date = ground (arith, h);
    rank = rank;
    vote = refl;
    saved = refl;
    log = refl;
    answer_term = term;
  }

  earlier :
      (req : ReqMsg) (s : Server Store)
      → is_up_to_date L req s ≡ false
      → EndsEarlier req.last_log_term req.last_log_idx
          (last_term s.log_store)
          (next_slot s.log_store - 1)
  unfolding is_up_to_date
  earlier req s old = ground (arith, old)

  cannot_grant-Refused :
      (req : ReqMsg) (s : Server Store) (r : RespMsg)
      → can_grant L req s ≡ false
      → Refused req s s r
  unfolding can_grant
  cannot_grant-Refused req s r cannot = elim (Bool-cases (req.term == s.state.term)) [
    | inr other ↦ record { why = inl (ground (arith, other)); unchanged = refl }
    | inl same ↦ elim (Bool-cases (is_up_to_date L req s)) [
      | inr old ↦ record { why = inr (inl (earlier req s old)); unchanged = refl }
      | inl recent ↦ record {
        why = inr (
            inr (inl (ground (arith, cannot, same, recent), ground (arith, cannot, same, recent))));
        unchanged = refl;
      }
    ]
  ]

  -- A server accepts a vote request only of its own term, for a candidate whose log ends no
  -- earlier than its own, if it has not voted for another candidate in the term, and, unless the
  -- vote is forced or the server is catching up, if the candidate is no member of a priority of its
  -- own that is below the target; then the vote is recorded and saved, and the log stays. Else it
  -- answers no, and nothing changes; the reason is another term, a log that ends earlier, a vote for
  -- another candidate, or such a low priority that counts.
  pub handle_vote_req-Vote :
      (req : ReqMsg) (s : Server Store)
      → Vote req s (handle_vote_req L req s).0 (handle_vote_req L req s).1
  unfolding handle_vote_req
  handle_vote_req-Vote req s = elim (Bool-cases (can_grant L req s)) [
    | inr cannot ↦ rw (handle_vote_req, cannot) (refused refl (cannot_grant-Refused req s _ cannot))
    | inl yes_grant ↦ elim (Bool-cases (ignores_priority L req s)) [
      | inl ignored ↦
          rw (handle_vote_req, yes_grant, ignored)
            (granted refl
              (can_grant-Granted req s _ yes_grant (inl (ignored_lem req s ignored)) refl))
      | inr heeded ↦
          elim (Bool-cases (has_low_priority req.src s.target_priority s.config.servers)) [
            | inl low ↦
                rw (handle_vote_req, yes_grant, heeded, low)
                  (refused refl (record {
                    why =
                        inr (inr (inr (heeded_lem req s heeded, has_low_priority-IsLow _ _ _ low)));
                    unchanged = refl;
                  }))
            | inr high ↦
                rw (handle_vote_req, yes_grant, heeded, high)
                  (granted refl
                    (can_grant-Granted req s _ yes_grant (inr (not-IsLow _ _ _ high)) refl))
          ]
    ]
  ]

  -- A candidate that can be voted for, and has no low priority, gets the vote.
  pub handle_vote_req-granted :
      (req : ReqMsg) (s : Server Store)
      → req.term ≡ s.state.term
      → s.state.voted_for ≡ no_server
      → is_up_to_date L req s ≡ true
      → has_low_priority req.src s.target_priority s.config.servers ≡ false
      → ((handle_vote_req L req s).0.state.term ≡ s.state.term)
        × ((handle_vote_req L req s).0.state.voted_for ≡ req.src)
        × ((handle_vote_req L req s).1.accepted ≡ true)
  unfolding handle_vote_req can_grant grant emit
  handle_vote_req-granted req s same free recent high = (
    ground (arith, same, free, recent, high),
    ground (arith, same, free, recent, high),
    ground (arith, same, free, recent, high),
  )
