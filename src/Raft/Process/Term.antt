-- ===== src/Raft/Process/Term.antt =====
-- The term and the vote of a server under `process_req` (src/raft_server.cxx).
use nu_raft.Common.{
  ℕ, ◌≡◌, ◌≤◌, ◌<◌, ◌⊎◌, inl, inr, refl, arith, true, false, ltb, Bool-cases, lt→ltb, ltb→lt,
  ltb_of_le, max,
}
use nu_raft.Raft.Types.{ReqMsg, SrvState, follower, no_server}
use nu_raft.Raft.Server.{Server, update_term, become_follower}
use nu_raft.Raft.Process.{take_term}

-- The state of a server goes on from `a` to `b`: the term does not fall, and within a term a vote
-- that is given stays.
pub record Later (a b : SrvState) : Type 0 where
  pub term : a.term ≤ b.term
  pub vote : a.term ≡ b.term → (a.voted_for ≡ no_server) ⊎ (b.voted_for ≡ a.voted_for)

module _ {S : Type 0} where
  update_term_newer :
      (term : ℕ) (s : Server S)
      → s.state.term < term
      → ((update_term term s).0.state
          ≡ record { term = term; voted_for = no_server; election_timer_allowed = true })
        × ((update_term term s).0.role ≡ follower)
  unfolding update_term become_follower
  update_term_newer term s h = rw (lt→ltb _ _ h) (ground arith, ground arith)

  update_term_same :
      (term : ℕ) (s : Server S) → term ≤ s.state.term → update_term term s ≡ (s, false)
  unfolding update_term
  update_term_same term s h = rw (ltb_of_le _ _ h) refl

  update_term_told :
      (term : ℕ) (s : Server S) → ltb s.state.term term ≡ true → (update_term term s).1 ≡ false → ⊥
  unfolding update_term
  update_term_told term s newer same = ground (arith, newer, same)

  -- A newer term comes with no vote; otherwise nothing changes.
  pub update_term-Later :
      (term : ℕ) (s : Server S)
      → Later s.state (update_term term s).0.state
        × ((update_term term s).1 ≡ false → (update_term term s).0 ≡ s)
  update_term-Later term s = elim (Bool-cases (ltb s.state.term term)) [
    | inl newer ↦ (
      rw ((update_term_newer term s (ltb→lt _ _ newer)).0) (record {
        term = omega (arith, ltb→lt _ _ newer);
        vote = λ e. absurd (omega (arith, e, ltb→lt _ _ newer));
      }),
      λ same. absurd (update_term_told term s newer same),
    )
    | inr older ↦
        rw (update_term_same term s (ground (arith, older)))
          (record { term = omega arith; vote = λ e. inr refl }, λ e. refl)
  ]

  state-take_term :
      (req : ReqMsg) (s : Server S) → (take_term req s).state ≡ (update_term req.term s).0.state
  unfolding take_term
  state-take_term req s = ground arith

  -- After `take_term` the server's term is the greater of its own and the request's. The term does
  -- not fall, and within a term a vote that was given stays.
  pub take_term-Later :
      (req : ReqMsg) (s : Server S)
      → Later s.state (take_term req s).state
        × ((take_term req s).state.term ≡ max req.term s.state.term)
  take_term-Later req s =
      rw (state-take_term req s) (elim (Bool-cases (ltb s.state.term req.term)) [
        | inl newer ↦ rw ((update_term_newer req.term s (ltb→lt _ _ newer)).0) (
          record {
            term = omega (arith, ltb→lt _ _ newer);
            vote = λ e. absurd (omega (arith, ltb→lt _ _ newer));
          },
          omega (arith, ltb→lt _ _ newer),
        )
        | inr older ↦
            rw (update_term_same req.term s (not_lt older))
              (record { term = omega arith; vote = λ e. inr refl }, omega (arith, not_lt older))
      ])
    where
      not_lt : ltb s.state.term req.term ≡ false → req.term ≤ s.state.term
      not_lt h = ground arith
