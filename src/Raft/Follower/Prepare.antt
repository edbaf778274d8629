-- ===== src/Raft/Follower/Prepare.antt =====
-- What `handle_append_entries` (src/handle_append_entries.cxx) does before it looks at the log.
use nu_raft.Common.{◌≡◌, ◌≢◌, refl, ap, sym, ◌∙◌, arith, some, ◌⊎◌, inl, inr}
use nu_raft.Raft.Types.{Role, follower, candidate, leader, ReqMsg, SrvState}
use nu_raft.Raft.LogStore.{LogStore}
use nu_raft.Raft.Server.{Server, become_follower, update_target_priority}
use nu_raft.Raft.Follower.{log_okay, clear_catching_up, accept_leader}

module _ (L : LogStore) where
  open L use {Store, start_index, next_slot, entries}

  -- What clearing the catch-up flag and following the sender leave alone.
  pub record Prepared (s t : Server Store) : Type 0 where
    pub log : t.log_store ≡ s.log_store
    pub state : t.state ≡ s.state
    pub snapshot : t.last_snapshot ≡ s.last_snapshot
    pub run : t.stopping ≡ s.stopping
    pub quick : t.quick_commit_index ≡ s.quick_commit_index
    pub executed : t.sm_commit_index ≡ s.sm_commit_index
    pub precommit : t.precommit_index ≡ s.precommit_index
    pub who : t.id ≡ s.id
    pub rank : (t.role ≡ s.role) ⊎ (t.role ≡ follower)

  pub clear_catching_up-Prepared : (s : Server Store) → Prepared s (clear_catching_up L s)
  unfolding clear_catching_up
  clear_catching_up-Prepared s = record {
    log = ground arith;
    state = ground arith;
    snapshot = ground arith;
    run = ground arith;
    quick = ground arith;
    executed = ground arith;
    precommit = ground arith;
    who = ground arith;
    rank = inl (ground arith);
  }

  become_follower-Prepared : (s : Server Store) → Prepared s (become_follower s)
  unfolding become_follower
  become_follower-Prepared s = record {
    log = ground arith;
    state = ground arith;
    snapshot = ground arith;
    run = ground arith;
    quick = ground arith;
    executed = ground arith;
    precommit = ground arith;
    who = ground arith;
    rank = inr (ground arith);
  }

  update_target_priority-Prepared : (s : Server Store) → Prepared s (update_target_priority s)
  unfolding update_target_priority
  update_target_priority-Prepared s = record {
    log = refl;
    state = refl;
    snapshot = refl;
    run = refl;
    quick = refl;
    executed = refl;
    precommit = refl;
    who = refl;
    rank = inl refl;
  }

  role-become_follower : (s : Server Store) → (become_follower s).role ≡ follower
  unfolding become_follower
  role-become_follower s = ground arith

  role-update_target_priority : (s : Server Store) → (update_target_priority s).role ≡ s.role
  unfolding update_target_priority
  role-update_target_priority s = refl

  -- A sender of the server's own term is followed, unless the server leads the term itself.
  pub accept_leader_cases :
      (req : ReqMsg) (s : Server Store)
      → req.term ≡ s.state.term
      → s.role ≢ leader
      → (t : Server Store) × (accept_leader L req s ≡ some t) × Prepared s t × (t.role ≡ follower)
  unfolding accept_leader
  accept_leader_cases req s same not_leader = by_role s.role refl
    where
      by_role :
          (r : Role)
          → s.role ≡ r
          → (t : Server Store) × (accept_leader L req s ≡ some t)
            × Prepared s t
            × (t.role ≡ follower)
      by_role leader e = absurd (not_leader e)
      by_role candidate e =
          (become_follower s, ground arith, become_follower-Prepared s, role-become_follower s)
      by_role follower e = (
        update_target_priority s,
        ground arith,
        update_target_priority-Prepared s,
        role-update_target_priority s ∙ e,
      )

  pub log_okay-Prepared :
      (req : ReqMsg) (s t : Server Store) → Prepared s t → log_okay L req t ≡ log_okay L req s
  unfolding log_okay
  log_okay-Prepared req s t p = ground (arith, p.log, p.snapshot)

  pub Prepared-trans : {s t u : Server Store} → Prepared s t → Prepared t u → Prepared s u
  Prepared-trans {s} {t} {u} a b = record {
    log = b.log ∙ a.log;
    state = b.state ∙ a.state;
    snapshot = b.snapshot ∙ a.snapshot;
    run = b.run ∙ a.run;
    quick = b.quick ∙ a.quick;
    executed = b.executed ∙ a.executed;
    precommit = b.precommit ∙ a.precommit;
    who = b.who ∙ a.who;
    rank = both a.rank b.rank;
  }
    where
      both :
          (t.role ≡ s.role) ⊎ (t.role ≡ follower)
          → (u.role ≡ t.role) ⊎ (u.role ≡ follower)
          → (u.role ≡ s.role) ⊎ (u.role ≡ follower)
      both e (inr h) = inr h
      both (inl e) (inl h) = inl (h ∙ e)
      both (inr e) (inl h) = inr (h ∙ e)

  role-clear_catching_up : (s : Server Store) → (clear_catching_up L s).role ≡ s.role
  unfolding clear_catching_up
  role-clear_catching_up s = ground arith

  -- The two steps together, for a sender of the server's own term.
  pub Prepared-same_term :
      (req : ReqMsg) (s : Server Store)
      → req.term ≡ s.state.term
      → s.role ≢ leader
      → (t : Server Store) × (accept_leader L req (clear_catching_up L s) ≡ some t)
        × Prepared s t
        × (t.role ≡ follower)
  Prepared-same_term req s same not_leader =
      let cleared = clear_catching_up-Prepared s in
      let (t, e, p, role) =
        accept_leader_cases req (clear_catching_up L s)
          (same ∙ ap (λ (st : SrvState). st.term) (sym cleared.state))
          (λ r. not_leader (sym (role-clear_catching_up s) ∙ r)) in
      (t, e, Prepared-trans cleared p, role)

  -- For any other sender only the flag is cleared.
  pub prepared_other_term :
      (req : ReqMsg) (s : Server Store)
      → req.term ≢ s.state.term
      → accept_leader L req (clear_catching_up L s) ≡ some (clear_catching_up L s)
  unfolding accept_leader clear_catching_up
  prepared_other_term req s differs = ground arith

  pub Prepared-refl : (s : Server Store) → Prepared s s
  Prepared-refl s = record {
    log = refl;
    state = refl;
    snapshot = refl;
    run = refl;
    quick = refl;
    executed = refl;
    precommit = refl;
    who = refl;
    rank = inl refl;
  }
