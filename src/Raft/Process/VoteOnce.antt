-- ===== src/Raft/Process/VoteOnce.antt =====
-- Over any sequence of requests (`process_req` of src/raft_server.cxx) a server gives its vote to
-- one candidate in a term at most.
use nu_raft.Common.{
  ℕ, ◌≡◌, ◌≢◌, ◌<◌, ◌⊎◌, inl, inr, refl, ap, sym, ◌∙◌, arith, Bool, true, false, not, ◌||◌, Option,
  none, some, List, [], ◌∷◌, if◌then◌else◌, Bool-cases,
}
use nu_raft.Raft.Types.{ReqMsg, RespMsg, SrvState, no_server}
use nu_raft.Raft.LogStore.{LogStore}
use nu_raft.Raft.Server.{Server}
use nu_raft.Raft.Follower.{Answers}
use nu_raft.Raft.Follower.State.{state-handle_append_entries}
use nu_raft.Raft.Vote.Grant.{Vote, granted, refused, handle_vote_req-Vote}
use nu_raft.Raft.Process.{
  Handler, append_handler, vote_handler, prevote_handler, ping_handler, other_handler, handler_of,
  Others, take_term, carries_term, dispatch, process_req,
}
use nu_raft.Raft.Process.Term.{Later, take_term-Later}

-- Whether a request is answered with a vote.
abbrev pub gives_vote : Handler → Option RespMsg → Bool
gives_vote vote_handler (some m) = m.accepted
gives_vote _ _ = false

-- A vote of this term for this candidate is among those given.
abbrev pub Given : ℕ → ℕ → List (ℕ × ℕ) → Type 0
Given term candidate [] = ⊥
Given term candidate ((t, c) ∷ rest) = ((term ≡ t) × (candidate ≡ c)) ⊎ Given term candidate rest

-- Candidates are servers.
abbrev pub FromServers : List (ReqMsg × Answers) → Type 0
FromServers [] = Unit
FromServers ((req, answers) ∷ rest) = (req.src ≢ no_server) × FromServers rest

-- Append, vote, pre-vote and ping requests only.
abbrev pub OnlyCore : List (ReqMsg × Answers) → Type 0
OnlyCore [] = Unit
OnlyCore ((req, answers) ∷ rest) = (handler_of req.msg_type ≢ other_handler) × OnlyCore rest

pub Later-refl : (a : SrvState) → Later a a
Later-refl a = record { term = omega arith; vote = λ e. inr refl }

pub Later-trans : {a b c : SrvState} → Later a b → Later b c → Later a c
Later-trans {a} {b} {c} l m = record {
  term = omega (arith, l.term, m.term);
  vote = λ e.
      both (l.vote (omega (arith, l.term, m.term, e))) (m.vote (omega (arith, l.term, m.term, e)));
}
  where
    both :
        (a.voted_for ≡ no_server) ⊎ (b.voted_for ≡ a.voted_for)
        → (b.voted_for ≡ no_server) ⊎ (c.voted_for ≡ b.voted_for)
        → (a.voted_for ≡ no_server) ⊎ (c.voted_for ≡ a.voted_for)
    both (inl h) _ = inl h
    both (inr h) (inl g) = inl (sym h ∙ g)
    both (inr h) (inr g) = inr (g ∙ h)

pub Later-of : {a b : SrvState} → b ≡ a → Later a b
Later-of {a} e = rw e (Later-refl a)

no_vote_given : false ≢ true
no_vote_given e = ground arith

module _ (L : LogStore) (others : Others (LogStore.Store L)) where
  open L use {Store}

  -- The votes given over a sequence of requests: term and candidate.
  unfoldable pub votes : List (ReqMsg × Answers) → Server Store → List (ℕ × ℕ)
  unfolding process_req handler_of
  votes [] s = []
  votes ((req, answers) ∷ rest) s =
      let (t, resp) = process_req L others req answers s in
      let later = votes rest t in
      if gives_vote (handler_of req.msg_type) resp then (req.term, req.src) ∷ later else later

  pub record Step (h : Handler) (req : ReqMsg) (s t : Server Store) (r : Option RespMsg)
      : Type 0 where
    pub later : Later s.state t.state
    voted : gives_vote h r ≡ true → (req.term ≡ t.state.term) × (req.src ≡ t.state.voted_for)

  Vote-Step :
      (req : ReqMsg) (s t : Server Store) (r : RespMsg)
      → Vote L req s t r
      → Step vote_handler req s t (some r)
  Vote-Step req s t r (granted yes_vote g) = record {
    later = record { term = omega (arith, kept_term); vote = λ e. choice g.free };
    voted = λ e. (g.same_term ∙ sym kept_term, sym new_vote);
  }
    where
      kept_term : t.state.term ≡ s.state.term
      kept_term = ap (λ (st : SrvState). st.term) g.vote

      new_vote : t.state.voted_for ≡ req.src
      new_vote = ap (λ (st : SrvState). st.voted_for) g.vote

      choice :
          (s.state.voted_for ≡ req.src) ⊎ (s.state.voted_for ≡ no_server)
          → (s.state.voted_for ≡ no_server) ⊎ (t.state.voted_for ≡ s.state.voted_for)
      choice (inl same) = inr (new_vote ∙ sym same)
      choice (inr open_vote) = inl open_vote
  Vote-Step req s t r (refused no_vote g) = record {
    later = Later-of (ap (λ (x : Server Store). x.state) g.unchanged);
    voted = λ e. absurd (no_vote_given (sym no_vote ∙ e));
  }

  dispatch-Step :
      (h : Handler) (req : ReqMsg) (answers : Answers) (s : Server Store)
      → (h ≡ other_handler → Later s.state (others req s).0.state)
      → Step h req s (dispatch L others h req answers s).0 (dispatch L others h req answers s).1
  unfolding dispatch
  dispatch-Step append_handler req answers s kept = record {
    later = Later-of (state-handle_append_entries L req answers s);
    voted = λ e. absurd (no_vote_given e);
  }
  dispatch-Step vote_handler req answers s kept = Vote-Step req s _ _ (handle_vote_req-Vote L req s)
  dispatch-Step prevote_handler req answers s kept = record {
    later = Later-refl s.state;
    voted = λ e. absurd (no_vote_given e);
  }
  dispatch-Step ping_handler req answers s kept = record {
    later = Later-refl s.state;
    voted = λ e. absurd (no_vote_given e);
  }
  dispatch-Step other_handler req answers s kept = record {
    later = kept refl;
    voted = λ e. absurd (no_vote_given e);
  }

  from-Step :
      (h : Handler) (req : ReqMsg) (s u t : Server Store) (r : Option RespMsg)
      → Later s.state u.state
      → Step h req u t r
      → Step h req s t r
  from-Step h req s u t r l step = record { later = Later-trans l step.later; voted = step.voted }

  nothing-Step : (h : Handler) (req : ReqMsg) (s : Server Store) → Step h req s s none
  nothing-Step vote_handler req s = record {
    later = Later-refl s.state;
    voted = λ e. absurd (no_vote_given e);
  }
  nothing-Step append_handler req s = record {
    later = Later-refl s.state;
    voted = λ e. absurd (no_vote_given e);
  }
  nothing-Step prevote_handler req s = record {
    later = Later-refl s.state;
    voted = λ e. absurd (no_vote_given e);
  }
  nothing-Step ping_handler req s = record {
    later = Later-refl s.state;
    voted = λ e. absurd (no_vote_given e);
  }
  nothing-Step other_handler req s = record {
    later = Later-refl s.state;
    voted = λ e. absurd (no_vote_given e);
  }

  pub process_req-Step :
      (req : ReqMsg) (answers : Answers) (s : Server Store)
      → ((u : Server Store)
          → handler_of req.msg_type ≡ other_handler
          → Later u.state (others req u).0.state)
      → Step
          (handler_of req.msg_type)
          req
          s
          (process_req L others req answers s).0
          (process_req L others req answers s).1
  unfolding process_req
  process_req-Step req answers s kept =
      elim (Bool-cases (not answers.request_accepted || s.stopping)) [
        | inl ignored ↦ rw (process_req, ignored) (nothing-Step (handler_of req.msg_type) req s)
        | inr handled ↦
            rw (process_req, handled)
              (elim (Bool-cases (carries_term req.msg_type)) [
                | inl with_term ↦ rw (with_term) (
                    from-Step (handler_of req.msg_type) req s (take_term req s) _ _
                      (take_term-Later req s).0
                      (dispatch-Step (handler_of req.msg_type) req answers (take_term req s)
                        (kept (take_term req s))))
                | inr without_term ↦
                    rw (without_term)
                      (dispatch-Step (handler_of req.msg_type) req answers s (kept s))
              ])
      ]

  core-Step :
      (req : ReqMsg) (answers : Answers) (s : Server Store)
      → handler_of req.msg_type ≢ other_handler
      → Step
          (handler_of req.msg_type)
          req
          s
          (process_req L others req answers s).0
          (process_req L others req answers s).1
  core-Step req answers s core = process_req-Step req answers s (λ u e. absurd (core e))

  -- A vote for `candidate` in `term` has been given, or the term is over.
  abbrev Bound : ℕ → ℕ → Server Store → Type 0
  Bound term candidate s =
      (term < s.state.term) ⊎ ((term ≡ s.state.term) × (candidate ≡ s.state.voted_for))

  Bound-Later :
      (term candidate : ℕ) (s t : Server Store)
      → candidate ≢ no_server
      → Bound term candidate s
      → Later s.state t.state
      → Bound term candidate t
  Bound-Later term candidate s t real (inl over) l = inl (omega (arith, over, l.term))
  Bound-Later term candidate s t real (inr (now, same)) l =
      ground (arith, now, same, real, l.term, l.vote)

  -- A vote is given by the first request, or by a later one.
  first_or_later :
      (req : ReqMsg) (answers : Answers) (rest : List (ReqMsg × Answers)) (s : Server Store)
      (term a : ℕ)
      → handler_of req.msg_type ≢ other_handler
      → Given term a (votes ((req, answers) ∷ rest) s)
      → let t = (process_req L others req answers s).0 in
        ((term ≡ t.state.term) × (a ≡ t.state.voted_for) × (a ≡ req.src))
        ⊎ Given term a (votes rest t)
  unfolding votes
  first_or_later req answers rest s term a core given =
      elim (Bool-cases
        (gives_vote (handler_of req.msg_type) (process_req L others req answers s).1)) [
          | inr silent ↦ inr (rw (votes, silent) at given)
          | inl gives ↦ by_order (step.voted gives) (rw (votes, gives) at given)
        ]
    where
      t : Server Store
      t = (process_req L others req answers s).0

      step : Step (handler_of req.msg_type) req s t (process_req L others req answers s).1
      step = core-Step req answers s core

      by_order :
          (req.term ≡ t.state.term) × (req.src ≡ t.state.voted_for)
          → ((term ≡ req.term) × (a ≡ req.src)) ⊎ Given term a (votes rest t)
          → ((term ≡ t.state.term) × (a ≡ t.state.voted_for) × (a ≡ req.src))
            ⊎ Given term a (votes rest t)
      by_order (now, vote) (inl (at_term, for)) = inl (at_term ∙ now, for ∙ vote, for)
      by_order voted (inr later) = inr later

  agree :
      (s : Server Store) (term a b : ℕ)
      → Bound term a s
      → (term ≡ s.state.term) × (b ≡ s.state.voted_for)
      → b ≡ a
  agree s term a b (inl over) (now, vote) = absurd (omega (arith, over, now))
  agree s term a b (inr (here, mine)) (now, vote) = vote ∙ sym mine

  Bound-votes :
      (reqs : List (ReqMsg × Answers)) (s : Server Store) (term a b : ℕ)
      → OnlyCore reqs
      → a ≢ no_server
      → Bound term a s
      → Given term b (votes reqs s)
      → b ≡ a
  unfolding votes
  Bound-votes [] s term a b tt real bound given = absurd given
  Bound-votes ((req, answers) ∷ rest) s term a b (core, more) real bound given =
      let t = (process_req L others req answers s).0 in
      let after = Bound-Later term a s t real bound (core-Step req answers s core).later in
      elim (first_or_later req answers rest s term b core given) [
        | inl (now, vote, from) ↦ agree t term a b after (now, vote)
        | inr later ↦ Bound-votes rest t term a b more real after later
      ]

  -- However append, vote, pre-vote and ping requests arrive, from servers, in any order and number, a
  -- server that starts in any state does not give its vote to two candidates in the same term, where
  -- it starts no election of its own between them and gets no other requests.
  pub votes-once :
      (reqs : List (ReqMsg × Answers)) (s : Server Store) (term a b : ℕ)
      → FromServers reqs
      → OnlyCore reqs
      → Given term a (votes reqs s)
      → Given term b (votes reqs s)
      → a ≡ b
  unfolding votes
  votes-once [] s term a b real tt given_a given_b = absurd given_a
  votes-once ((req, answers) ∷ rest) s term a b (here, real) (core, more) given_a given_b =
      let t = (process_req L others req answers s).0 in
      elim (first_or_later req answers rest s term a core given_a) [
        | inl (now, vote, from) ↦ elim (first_or_later req answers rest s term b core given_b) [
          | inl (now', vote', from') ↦ from ∙ sym from'
          | inr later ↦
              sym (Bound-votes rest t term a b more (is_server from) (inr (now, vote)) later)
        ]
        | inr given_a' ↦ elim (first_or_later req answers rest s term b core given_b) [
          | inl (now, vote, from) ↦
              Bound-votes rest t term b a more (is_server from) (inr (now, vote)) given_a'
          | inr given_b' ↦ votes-once rest t term a b real more given_a' given_b'
        ]
      ]
    where
      is_server : {c : ℕ} → c ≡ req.src → c ≢ no_server
      is_server from same = here (sym from ∙ same)
