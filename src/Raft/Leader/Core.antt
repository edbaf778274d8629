-- ===== src/Raft/Leader/Core.antt =====
-- What sending append requests (src/handle_append_entries.cxx) and moving the commit index
-- (src/handle_commit.cxx) leave alone.
use nu_raft.Common.{
  ℕ, ◌≡◌, refl, ◌∙◌, arith, Bool, true, false, Option, none, List, [], ◌∷◌, Bool-cases,
  Option-cases, inl, inr, not, if◌then◌else◌,
}
use nu_raft.Raft.Types.{Role, SrvState, is_leader}
use nu_raft.Raft.LogStore.{LogStore}
use nu_raft.Raft.Server.{Server, Peer, request_append_for_all}
use nu_raft.Raft.Quorum.{get_current_leader_index}
use nu_raft.Raft.Follower.{commit}
use nu_raft.Raft.Leader.{
  Surroundings, Message, request, snapshot_for, too_large, find_peer, create_append_entries_req,
  auto_adjust, try_reconnect, send_message, send_next, request_of, request_append_entries,
  request_each, request_append_entries_to_all, with_quorum,
}
use nu_raft.Config.{ClusterConfig, SrvConfig}

pub record CoreOf (S : Type 0) : Type 0 where
  pub role : Role
  pub state : SrvState
  pub log_store : S
  pub precommit_index : ℕ
  pub sm_commit_index : ℕ
  pub config : ClusterConfig
  pub uncommitted_config : Option ClusterConfig
  pub config_changing : Bool
  pub srv_to_join : Option Peer
  pub conf_to_add : Option SrvConfig
  pub srv_to_leave : Option ℕ
  pub srv_to_leave_target_idx : ℕ

abbrev pub core : {S : Type 0} → Server S → CoreOf S
core s = record {
  role = s.role;
  state = s.state;
  log_store = s.log_store;
  precommit_index = s.precommit_index;
  sm_commit_index = s.sm_commit_index;
  config = s.config;
  uncommitted_config = s.uncommitted_config;
  config_changing = s.config_changing;
  srv_to_join = s.srv_to_join;
  conf_to_add = s.conf_to_add;
  srv_to_leave = s.srv_to_leave;
  srv_to_leave_target_idx = s.srv_to_leave_target_idx;
}

module _ {S : Type 0} where
  pub core-request_append_for_all :
      (ps : List Peer) (s : Server S) → core (request_append_for_all ps s) ≡ core s
  unfolding request_append_for_all
  core-request_append_for_all [] s = refl
  core-request_append_for_all (p ∷ ps) s = core-request_append_for_all ps _

module _ (L : LogStore) where
  open L use {Store}

  pub core-commit : (i : ℕ) (s : Server Store) → core (commit L i s) ≡ core s
  unfolding commit
  core-commit i s = grind (arith, core-request_append_for_all)

  core-auto_adjust : (env : Surroundings) (s : Server Store) → core (auto_adjust L env s) ≡ core s
  unfolding auto_adjust with_quorum
  core-auto_adjust env s =
      ground (arith, core-commit (get_current_leader_index env.durable_index s) (with_quorum L 1 s))

  core-try_reconnect :
      (env : Surroundings) (p : Peer) (s : Server Store) → core (try_reconnect L env p s) ≡ core s
  unfolding try_reconnect
  core-try_reconnect env p s = ground arith

  core-send_message :
      (p : Peer) (msg : Message) (s : Server Store) → core (send_message L p msg s) ≡ core s
  unfolding send_message
  core-send_message p (request req) s = refl
  core-send_message p (snapshot_for i t c) s = refl
  core-send_message p too_large s = refl

  core-send_next : (p : Peer) (s : Server Store) → core (send_next L p s) ≡ core s
  unfolding send_next
  core-send_next p s = elim (Option-cases p.rsv_msg) [
    | inl normal ↦
        rw (send_next, normal)
          (core-send_message (create_append_entries_req L (record p { busy = true }) s).0
            (create_append_entries_req L (record p { busy = true }) s).1 s)
    | inr (req, reserved) ↦
        rw (send_next, reserved)
          (core-send_message (record p { busy = true; rsv_msg = none }) (request req) s)
  ]

  core-request_of :
      (env : Surroundings) (id : ℕ) (s : Server Store) → core (request_of L env id s).0 ≡ core s
  unfolding request_of
  core-request_of env id s = elim (Option-cases (find_peer id s.peers)) [
    | inl unknown ↦ rw (request_of, unknown) refl
    | inr (p, known) ↦
        rw (request_of, known)
          (elim (Option-cases (find_peer id (try_reconnect L env p s).peers)) [
            | inl gone ↦ rw gone (core-try_reconnect env p s)
            | inr (q, there) ↦ rw there (elim (Bool-cases q.busy) [
              | inl busy ↦ rw busy (core-try_reconnect env p s)
              | inr free ↦
                  rw free (core-send_next q (try_reconnect L env p s) ∙ core-try_reconnect env p s)
            ])
          ])
  ]

  pub core-request_append_entries :
      (env : Surroundings) (id : ℕ) (s : Server Store)
      → core (request_append_entries L env id s).0 ≡ core s
  unfolding request_append_entries
  core-request_append_entries env id s = either (is_leader s.role) env.request_allowed
    where
      adjusted : Server Store
      adjusted = auto_adjust L env s

      by_peer : core (request_of L env id adjusted).0 ≡ core s
      by_peer = core-request_of env id adjusted ∙ core-auto_adjust env s

      either :
          (a b : Bool)
          → core
              (if not a
                then (s, false)
                else if not b
                then (s, true)
                else request_of L env id adjusted).0
            ≡ core s
      either false b = refl
      either true false = refl
      either true true = by_peer

  core-request_each :
      (env : Surroundings) (ps : List Peer) (s : Server Store)
      → core (request_each L env ps s) ≡ core s
  unfolding request_each
  core-request_each env [] s = refl
  core-request_each env (p ∷ ps) s =
      core-request_each env ps _ ∙ core-request_append_entries env p.id s

  pub core-request_append_entries_to_all :
      (env : Surroundings) (s : Server Store)
      → core (request_append_entries_to_all L env s) ≡ core s
  unfolding request_append_entries_to_all
  core-request_append_entries_to_all env s = grind (arith, core-commit, core-request_each)
