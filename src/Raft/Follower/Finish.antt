-- ===== src/Raft/Follower/Finish.antt =====
-- The end of `handle_append_entries` and `commit` (src/handle_append_entries.cxx,
-- src/handle_commit.cxx): the indexes move up, and the log stays.
use nu_raft.Common.{
  ℕ, ◌+◌, ◌≡◌, refl, ap, ◌∙◌, arith, Bool, true, false, ◌&&◌, List, [], ◌∷◌, length, ◌==◌,
  if◌then◌else◌, min, max,
}
use nu_raft.Raft.Types.{follower, is_follower, is_leader, ReqMsg, RespMsg}
use nu_raft.Raft.LogStore.{LogStore}
use nu_raft.Raft.Server.{
  Server, Peer, emit, try_update_precommit_index, request_append_for_all, restart_election_timer,
}
use nu_raft.Raft.Follower.{Answers, commit, finish_append}

module _ {S : Type 0} where
  state-request_append_for_all :
      (ps : List Peer) (s : Server S) → (request_append_for_all ps s).state ≡ s.state
  unfolding request_append_for_all
  state-request_append_for_all [] s = refl
  state-request_append_for_all (p ∷ ps) s = state-request_append_for_all ps _

module _ (L : LogStore) where
  open L use {Store, start_index, next_slot, entries}

  -- The commit index goes up to the target and never down; the log stays.
  pub record Commits (target : ℕ) (s t : Server Store) : Type 0 where
    pub quick : t.quick_commit_index ≡ max s.quick_commit_index target
    pub executed : t.sm_commit_index ≡ s.sm_commit_index
    pub same_log : t.log_store ≡ s.log_store
    pub same_role : t.role ≡ s.role
    pub same_state : t.state ≡ s.state
    pub same_leader : t.leader_id ≡ s.leader_id
    pub same_precommit : t.precommit_index ≡ s.precommit_index

  pub commit-Commits :
      (target : ℕ) (s : Server Store)
      → is_leader s.role ≡ false
      → Commits target s (commit L target s)
  unfolding commit
  commit-Commits target s not_leader = record {
    quick = ground arith;
    executed = ground arith;
    same_log = ground arith;
    same_role = ground arith;
    same_state = ground arith;
    same_leader = ground arith;
    same_precommit = ground arith;
  }

  -- What is true after the entries are written and the rest of the handler has run.
  pub record Finished (req : ReqMsg) (s t : Server Store) (r : RespMsg) : Type 0 where
    pub accepted : r.accepted ≡ true
    pub next_idx : r.next_idx ≡ req.last_log_idx + length req.log_entries + 1
    pub log : t.log_store ≡ s.log_store
    pub role : t.role ≡ follower
    pub state : t.state ≡ s.state
    pub follows : t.leader_id ≡ req.src
    pub quick :
        t.quick_commit_index
        ≡ max s.quick_commit_index (min req.commit_idx (req.last_log_idx + length req.log_entries))
    pub executed : t.sm_commit_index ≡ s.sm_commit_index

  precommitted : ReqMsg → Server Store → Server Store
  unfolding try_update_precommit_index
  precommitted req s =
      (try_update_precommit_index (req.last_log_idx + length req.log_entries)
        (record s { leader_id = req.src; leader_commit_index = req.commit_idx })).0

  always_updated :
      (desired : ℕ) (s : Server Store) → (try_update_precommit_index desired s).1 ≡ true
  unfolding try_update_precommit_index
  always_updated desired s = ground arith

  precommitted_fields :
      (req : ReqMsg) (s : Server Store)
      → ((precommitted req s).log_store ≡ s.log_store)
        × ((precommitted req s).role ≡ s.role)
        × ((precommitted req s).state ≡ s.state)
        × ((precommitted req s).leader_id ≡ req.src)
        × ((precommitted req s).quick_commit_index ≡ s.quick_commit_index)
        × ((precommitted req s).sm_commit_index ≡ s.sm_commit_index)
  unfolding precommitted
  precommitted_fields req s =
      (ground arith, ground arith, ground arith, ground arith, ground arith, ground arith)

  timed : Bool → Server Store → Server Store
  unfolding emit
  timed again s = if again then emit restart_election_timer s else s

  timed-Commits :
      (again : Bool) (target : ℕ) (s t : Server Store)
      → Commits target s t
      → Commits target s (timed again t)
  unfolding timed
  timed-Commits true target s t c = record {
    quick = c.quick;
    executed = c.executed;
    same_log = c.same_log;
    same_role = c.same_role;
    same_state = c.same_state;
    same_leader = c.same_leader;
    same_precommit = c.same_precommit;
  }
  timed-Commits false target s t c = c

  pub finish_append-Finished :
      (req : ReqMsg) (answers : Answers) (resp : RespMsg) (s : Server Store)
      → s.role ≡ follower
      → Finished req s (finish_append L req answers resp s).0 (finish_append L req answers resp s).1
  unfolding finish_append emit precommitted timed
  finish_append-Finished req answers resp s here =
      rw
        (
          always_updated target
              (record s { leader_id = req.src; leader_commit_index = req.commit_idx }),
          finish_append,
        )
        (record {
          accepted = refl;
          next_idx = refl;
          log = c.same_log ∙ fields.0;
          role = c.same_role ∙ fields.1 ∙ here;
          state = c.same_state ∙ fields.2;
          follows = c.same_leader ∙ fields.3;
          quick = c.quick ∙ ap (λ (q : ℕ). max q (min req.commit_idx target)) fields.4;
          executed = c.executed ∙ fields.5;
        })
    where
      target : ℕ
      target = req.last_log_idx + length req.log_entries

      fields :
          ((precommitted req s).log_store ≡ s.log_store)
          × ((precommitted req s).role ≡ s.role)
          × ((precommitted req s).state ≡ s.state)
          × ((precommitted req s).leader_id ≡ req.src)
          × ((precommitted req s).quick_commit_index ≡ s.quick_commit_index)
          × ((precommitted req s).sm_commit_index ≡ s.sm_commit_index)
      fields = precommitted_fields req s

      committed : Server Store
      committed = commit L (min req.commit_idx target) (precommitted req s)

      c :
          Commits
            (min req.commit_idx target)
            (precommitted req s)
            (timed (req.term == committed.state.term && is_follower committed.role) committed)
      c =
          timed-Commits (req.term == committed.state.term && is_follower committed.role)
            (min req.commit_idx target) (precommitted req s) committed
            (commit-Commits (min req.commit_idx target) (precommitted req s)
              (ap is_leader (fields.1 ∙ here)))

  state-commit : (target : ℕ) (s : Server Store) → (commit L target s).state ≡ s.state
  unfolding commit
  state-commit target s = ground (
    arith,
    state-request_append_for_all s.peers
        (record s { quick_commit_index = target; lagging_sm_target_index = target }),
  )

  state-timed : (again : Bool) (s : Server Store) → (timed again s).state ≡ s.state
  unfolding timed
  state-timed true s = refl
  state-timed false s = refl

  -- The term and the vote stay, whatever the role.
  pub state-finish_append :
      (req : ReqMsg) (answers : Answers) (resp : RespMsg) (s : Server Store)
      → (finish_append L req answers resp s).0.state ≡ s.state
  unfolding finish_append precommitted timed
  state-finish_append req answers resp s =
      rw
        (
          always_updated target
              (record s { leader_id = req.src; leader_commit_index = req.commit_idx }),
          finish_append,
        )
        (state-timed (req.term == committed.state.term && is_follower committed.role) committed
          ∙ state-commit (min req.commit_idx target) (precommitted req s)
          ∙ (precommitted_fields req s).2)
    where
      target : ℕ
      target = req.last_log_idx + length req.log_entries

      committed : Server Store
      committed = commit L (min req.commit_idx target) (precommitted req s)
