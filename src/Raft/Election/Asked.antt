-- ===== src/Raft/Election/Asked.antt =====
-- A forced election asks every voter that is free (src/handle_vote.cxx, `initiate_vote` and
-- `request_vote`).
use nu_raft.Common.{
  ◌+◌, ◌-◌, ◌==◌, ◌%◌, ◌^◌, ◌≡◌, ◌≤◌, ◌⊎◌, inl, inr, refl, ◌∙◌, arith, true, false, not, ◌&&◌, List,
  [], ◌∷◌, ltb, if_elim, if◌then◌else◌, Bool-cases,
}
use nu_raft.Raft.Types.{ReqMsg, candidate, request_vote_request}
use nu_raft.Raft.LogStore.{LogStore}
use nu_raft.Raft.Server.{Server, Peer, Effect, send, emit}
use nu_raft.Raft.Quorum.{is_regular_member, get_quorum_for_election}
use nu_raft.Raft.Leader.{Surroundings, update_peer}
use nu_raft.Raft.Election.{
  force_vote_entry, send_to_voters, voter_req, vote_for_self, ask_votes, request_vote, in_grace,
  may_stand, next_term, without_leader, stand, initiate_vote, await_votes,
}

-- Among those that were recorded.
abbrev pub Recorded : Effect → List Effect → Type 0
Recorded x [] = ⊥
Recorded x (e ∷ es) = (x ≡ e) ⊎ Recorded x es

abbrev pub IsPeer : Peer → List Peer → Type 0
IsPeer p [] = ⊥
IsPeer p (q ∷ qs) = (p ≡ q) ⊎ IsPeer p qs

module _ {S : Type 0} (f : Peer → ReqMsg) where
  -- The step of the loop.
  unfoldable ask_one : Peer → Server S → Server S
  unfolding emit update_peer
  ask_one p s =
      if is_regular_member s p && not p.busy
      then emit (send (f p)) (record s { peers = update_peer (record p { busy = true }) s.peers })
      else s

  ask_one-kept :
      (p : Peer) (s : Server S) (x : Effect)
      → Recorded x s.effects
      → Recorded x (ask_one p s).effects
  unfolding ask_one emit
  ask_one-kept p s x there =
      if_elim (λ (t : Server S). Recorded x t.effects) (is_regular_member s p && not p.busy)
        (inr there) there

  ask_one-regular :
      (p q : Peer) (s : Server S) → is_regular_member (ask_one p s) q ≡ is_regular_member s q
  unfolding ask_one emit is_regular_member
  ask_one-regular p q s =
      if_elim (λ (t : Server S). is_regular_member t q ≡ is_regular_member s q)
        (is_regular_member s p && not p.busy) refl refl

  ask_one-asks :
      (p : Peer) (s : Server S)
      → is_regular_member s p ≡ true
      → p.busy ≡ false
      → Recorded (send (f p)) (ask_one p s).effects
  unfolding ask_one emit
  ask_one-asks p s regular free = rw (ask_one, regular, free) (inl refl)

  send_to_voters-kept :
      (ps : List Peer) (s : Server S) (x : Effect)
      → Recorded x s.effects
      → Recorded x (send_to_voters f ps s).effects
  unfolding send_to_voters ask_one
  send_to_voters-kept [] s x there = there
  send_to_voters-kept (p ∷ ps) s x there =
      send_to_voters-kept ps (ask_one p s) x (ask_one-kept p s x there)

  send_to_voters-asks :
      (ps : List Peer) (s : Server S) (p : Peer)
      → IsPeer p ps
      → is_regular_member s p ≡ true
      → p.busy ≡ false
      → Recorded (send (f p)) (send_to_voters f ps s).effects
  unfolding send_to_voters ask_one
  send_to_voters-asks [] s p there regular free = absurd there
  send_to_voters-asks (q ∷ qs) s p (inl same) regular free =
      send_to_voters-kept qs (ask_one q s) (send (f p))
        (rw same (ask_one-asks q s (rw (← same) regular) (rw (← same) free)))
  send_to_voters-asks (q ∷ qs) s p (inr later) regular free =
      send_to_voters-asks qs (ask_one q s) p later (ask_one-regular q p s ∙ regular) free

  role-send_to_voters : (ps : List Peer) (s : Server S) → (send_to_voters f ps s).role ≡ s.role
  unfolding send_to_voters ask_one emit
  role-send_to_voters [] s = refl
  role-send_to_voters (p ∷ ps) s =
      role-send_to_voters ps (ask_one p s)
      ∙ if_elim (λ (t : Server S). t.role ≡ s.role) (is_regular_member s p && not p.busy) refl refl

module _ (L : LogStore) where
  open L use {Store, next_slot}

  -- A candidate, and what a peer is asked: a forced vote in the term of the candidate.
  pub record Asked (s t : Server Store) (p : Peer) (m : ReqMsg) : Type 0 where
    pub asked : Recorded (send m) t.effects
    pub kind : m.msg_type ≡ request_vote_request
    pub term : m.term ≡ (s.state.term + 1) % 2 ^ 64
    pub src : m.src ≡ s.id
    pub dst : m.dst ≡ p.id
    pub last : m.last_log_idx ≡ next_slot s.log_store - 1
    pub forced : m.log_entries ≡ force_vote_entry ∷ []

  -- What stands for election in the next term: a candidate that asks all voters that are free.
  pub record Standing (s t : Server Store) : Type 0 where
    pub role : t.role ≡ candidate
    pub asks :
        (p : Peer)
        → IsPeer p s.peers
        → is_regular_member s p ≡ true
        → p.busy ≡ false
        → (m : ReqMsg) × Asked s t p m

  may_stand-true : (env : Surroundings) (s : Server Store) → may_stand L env true s ≡ true
  unfolding may_stand
  may_stand-true env s = ground arith

  -- The candidate with its own vote.
  voted : Server Store → Server Store
  unfolding vote_for_self next_term
  voted s = vote_for_self L (next_term L s)

  -- What it asks for.
  asking : Server Store → Peer → ReqMsg
  unfolding voter_req
  asking s = voter_req L request_vote_request (force_vote_entry ∷ []) (voted s)

  ask_all : Server Store → Server Store
  unfolding send_to_voters
  ask_all s = send_to_voters (asking s) (voted s).peers (voted s)

  initiate_vote-asks :
      (env : Surroundings) (s : Server Store)
      → 1 ≤ get_quorum_for_election s
      → initiate_vote L env true s ≡ without_leader L (ask_all s)
  unfolding initiate_vote in_grace stand request_vote ask_votes voted vote_for_self next_term
      get_quorum_for_election ask_all asking emit
  initiate_vote-asks env s others = rw (may_stand-true env s, more) refl
    where
      more : ltb (get_quorum_for_election (voted s)) 1 ≡ false
      more = ground (arith, others)

  role-ask_all : (s : Server Store) → (ask_all s).role ≡ candidate
  unfolding ask_all voted vote_for_self next_term emit
  role-ask_all s = role-send_to_voters (asking s) (voted s).peers (voted s)

  -- The end of an election that is still open adds to what was recorded.
  ended-kept :
      (t : Server Store) (x : Effect)
      → t.role ≡ candidate
      → Recorded x t.effects
      → Recorded x (await_votes L (without_leader L t)).effects
  unfolding await_votes without_leader emit
  ended-kept t x standing there = rw (standing) (inr there)

  role-ended :
      (t : Server Store)
      → t.role ≡ candidate
      → (await_votes L (without_leader L t)).role ≡ candidate
  unfolding await_votes without_leader emit
  role-ended t standing = rw (standing) refl

  -- What a server does that stands in an election which is forced, and that needs other votes.
  Standing-of :
      (env : Surroundings) (s : Server Store)
      → 1 ≤ get_quorum_for_election s
      → Standing s (await_votes L (initiate_vote L env true s))
  unfolding voted vote_for_self next_term asking voter_req emit is_regular_member ask_all
  Standing-of env s others = rw (initiate_vote-asks env s others) (record {
    role = role-ended (ask_all s) (role-ask_all s);
    asks = λ p there regular free. (
      asking s p,
      record {
        asked =
            ended-kept (ask_all s) (send (asking s p)) (role-ask_all s)
              (send_to_voters-asks (asking s) (voted s).peers (voted s) p there regular free);
        kind = refl;
        term = refl;
        src = refl;
        dst = refl;
        last = refl;
        forced = refl;
      },
    );
  })

  -- A server that needs no other votes, or one that asks for them.
  pub initiate_vote-Standing :
      (env : Surroundings) (s : Server Store)
      → (get_quorum_for_election s ≡ 0) ⊎ Standing s (await_votes L (initiate_vote L env true s))
  initiate_vote-Standing env s = elim (Bool-cases (get_quorum_for_election s == 0)) [
    | inl alone ↦ inl (ground (arith, alone))
    | inr others ↦ inr (Standing-of env s (ground (arith, others)))
  ]
