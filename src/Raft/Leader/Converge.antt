-- ===== src/Raft/Leader/Converge.antt =====
-- A leader that goes back in its log for a follower (src/handle_append_entries.cxx) reaches a
-- request that the follower accepts.
use nu_raft.Common.{ℕ, zero, suc, ◌+◌, ◌≡◌, ◌≤◌, refl, arith, Bool, true, false}
use nu_raft.Raft.LogStore.{LogStore}
use nu_raft.Raft.Server.{Server, Peer}
use nu_raft.Raft.Follower.{Answers}
use nu_raft.Raft.Leader.Request.{next_for}
use nu_raft.Raft.Leader.Round.{Paired, Synced, Exchanged, taken, lowered, exchange}
use nu_raft.Raft.Leader.Exchange.{exchange-Exchanged}

module _ (L : LogStore) where
  open L use {Store}

  -- Rounds until one is accepted: what the leader knows of the peer, the peer's server, and whether
  -- it was accepted.
  pub replicate_to : ℕ → Answers → Server Store → Peer → Server Store → Peer × Server Store × Bool
  unfolding exchange
  replicate_to zero answers s p t = (p, t, false)
  replicate_to (suc n) answers s p t =
      let (q, u, b) = exchange L answers s p t in
      elim b [ true ↦ (q, u, true) | false ↦ replicate_to n answers s q u ]

  -- A round, and then the others.
  continues : ℕ → Answers → Server Store → Peer × Server Store × Bool → Peer × Server Store × Bool
  continues n answers s (q, u, b) = elim b [
    | true ↦ (q, u, true)
    | false ↦ replicate_to n answers s q u
  ]

  next_for_known : (q : Peer) (cur : ℕ) → 1 ≤ q.next_log_idx → next_for q cur ≡ q.next_log_idx
  unfolding next_for
  next_for_known q cur pos = ground (arith, pos)

  next_for_pos : (p : Peer) (cur : ℕ) → 1 ≤ cur → 1 ≤ next_for p cur
  unfolding next_for
  next_for_pos p cur pos = ground (arith, pos)

  abbrev Done : Server Store → Peer × Server Store × Bool → Type 0
  Done s out = (out.2 ≡ true) × Synced L s out.1 out.0

  after_round :
      (n : ℕ) (answers : Answers) (s t : Server Store) (p : Peer) (out : Peer × Server Store × Bool)
      → ((q : Peer) (u : Server Store)
          → Paired L s q u
          → next_for q (s.precommit_index + 1) ≤ n
          → Done s (replicate_to n answers s q u))
      → next_for p (s.precommit_index + 1) ≤ suc n
      → Exchanged L s p t out
      → Done s (continues n answers s out)
  unfolding continues
  after_round n answers s t p (q, u, b) go enough (taken sure synced) = rw sure (refl, synced)
  after_round n answers s t p (q, u, b) go enough (lowered declined w log pos less) =
      rw declined
        (go q u w (omega (arith, next_for_known q (s.precommit_index + 1) pos, less, enough)))

  -- From a leader and a follower that are paired, where the application takes entries: after at
  -- most as many rounds as the peer's next index says, a request is accepted, and the two logs are
  -- the same up to the matched index then.
  pub replicate_to-accepts :
      (n : ℕ) (answers : Answers) (s : Server Store) (p : Peer) (t : Server Store)
      → Paired L s p t
      → answers.entries_accepted ≡ true
      → next_for p (s.precommit_index + 1) ≤ n
      → let out = replicate_to n answers s p t in (out.2 ≡ true) × Synced L s out.1 out.0
  unfolding replicate_to continues
  replicate_to-accepts zero answers s p t w taking enough =
      absurd (omega (arith, enough, next_for_pos p (s.precommit_index + 1) (omega arith)))
  replicate_to-accepts (suc n) answers s p t w taking enough =
      after_round n answers s t p (exchange L answers s p t)
        (λ q u w' le. replicate_to-accepts n answers s q u w' taking le) enough
        (exchange-Exchanged L answers s p t w taking)
