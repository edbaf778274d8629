-- ===== src/Raft/Membership/Requests.antt =====
-- Requests for a change of the membership leave the term and the vote alone
-- (src/handle_join_leave.cxx).
use nu_raft.Common.{
  ℕ, ◌≡◌, refl, ◌∙◌, not, ◌||◌, List, length, leb, ◌*◌, ◌==◌, if_elim, Option-cases, inl, inr,
  Result, ok, throw,
}
use nu_raft.Config.{SrvConfig}
use nu_raft.Raft.Types.{ReqMsg, RespMsg, is_leader}
use nu_raft.Raft.LogStore.{LogStore}
use nu_raft.Raft.Server.{Server, Peer}
use nu_raft.Raft.Follower.{is_some}
use nu_raft.Raft.Leader.{find_peer}
use nu_raft.Raft.Leader.Response.{check_srv_to_leave_timeout}
use nu_raft.Raft.Answer.Later.{state-check_srv_to_leave_timeout}
use nu_raft.Raft.Membership.{
  ChangeAnswer, is_cluster_server, sole_entry, srv_of, any_leave_flag, reset_srv_to_join, invite,
  start_join, replace_join, add_srv, add_srv_of, handle_add_srv_req,
}
use nu_raft.Raft.Membership.Leave.{
  id_of, ask_to_leave, rm_srv, rm_srv_of, rm_srv_in_turn, handle_rm_srv_req,
  handle_leave_cluster_req,
}

module _ (L : LogStore) where
  open L use {Store}

  Same : (s : Server Store) → Server Store × ChangeAnswer → Type 0
  Same s out = out.0.state ≡ s.state

  start_join-Same : (c : SrvConfig) (s : Server Store) → Same s (start_join L c s)
  unfolding Same start_join invite
  start_join-Same c s = refl

  replace_join-Same : (c : SrvConfig) (s : Server Store) → Same s (replace_join L c s)
  unfolding Same replace_join start_join invite reset_srv_to_join
  replace_join-Same c s = elim (Option-cases s.srv_to_join) [
    | inl nobody ↦ rw (replace_join, nobody) refl
    | inr (j, there) ↦
        rw (replace_join, there)
          (if_elim (Same s)
            (leb j.active_elapsed_ms (s.params.response_limit * s.params.heart_beat_interval)) refl
            refl)
  ]

  add_srv-Same : (c : SrvConfig) (s : Server Store) → Same s (add_srv L c s)
  unfolding Same add_srv
  add_srv-Same c s =
      if_elim (Same s) (is_some (find_peer c.id s.peers) || s.id == c.id) refl
        (if_elim (Same s) s.config_changing refl (replace_join-Same c s))

  add_srv_of-Same : (r : Result SrvConfig) (s : Server Store) → Same s (add_srv_of L r s)
  unfolding Same add_srv_of
  add_srv_of-Same (ok c) s = add_srv-Same c s
  add_srv_of-Same (throw e) s = refl

  pub state-handle_add_srv_req :
      (req : ReqMsg) (s : Server Store) → (handle_add_srv_req L req s).0.state ≡ s.state
  unfolding Same handle_add_srv_req
  state-handle_add_srv_req req s = elim (Option-cases (sole_entry req.log_entries)) [
    | inl many ↦ rw (handle_add_srv_req, many) refl
    | inr (e, one) ↦
        rw (handle_add_srv_req, one)
          (if_elim (Same s) (not (is_cluster_server e.value_type)) refl (
            if_elim (Same s) (not (is_leader s.role) || s.write_paused) refl (
              add_srv_of-Same (srv_of e.buff) (check_srv_to_leave_timeout L s)
              ∙ state-check_srv_to_leave_timeout L s)))
  ]

  ask_to_leave-kept : (p : Peer) (s : Server Store) → (ask_to_leave L p s).state ≡ s.state
  unfolding ask_to_leave
  ask_to_leave-kept p s = if_elim (λ (t : Server Store). t.state ≡ s.state) p.busy refl refl

  rm_srv-Same : (id : ℕ) (s : Server Store) → Same s (rm_srv L id s)
  unfolding Same rm_srv
  rm_srv-Same id s =
      if_elim (Same s) (id == s.id) refl (elim (Option-cases (find_peer id s.peers)) [
        | inl unknown ↦ rw unknown refl
        | inr (p, known) ↦ rw known (ask_to_leave-kept p s)
      ])

  rm_srv_of-Same : (r : Result ℕ) (s : Server Store) → Same s (rm_srv_of L r s)
  unfolding Same rm_srv_of
  rm_srv_of-Same (ok id) s = rm_srv-Same id s
  rm_srv_of-Same (throw e) s = refl

  rm_srv_in_turn-Same : (bytes : List ℕ) (s : Server Store) → Same s (rm_srv_in_turn L bytes s)
  unfolding Same rm_srv_in_turn
  rm_srv_in_turn-Same bytes s =
      if_elim (Same s) (is_some s.srv_to_leave || any_leave_flag s.peers) refl
        (if_elim (Same s) s.config_changing refl (rm_srv_of-Same (id_of bytes) s))

  pub state-handle_rm_srv_req :
      (req : ReqMsg) (s : Server Store) → (handle_rm_srv_req L req s).0.state ≡ s.state
  unfolding Same handle_rm_srv_req
  state-handle_rm_srv_req req s = elim (Option-cases (sole_entry req.log_entries)) [
    | inl many ↦ rw (handle_rm_srv_req, many) refl
    | inr (e, one) ↦
        rw (handle_rm_srv_req, one)
          (if_elim (Same s) (not (length e.buff == 4)) refl (
            if_elim (Same s) (not (is_leader s.role) || s.write_paused) refl (
              rm_srv_in_turn-Same e.buff (check_srv_to_leave_timeout L s)
              ∙ state-check_srv_to_leave_timeout L s)))
  ]

  pub state-handle_leave_cluster_req :
      (req : ReqMsg) (s : Server Store) → (handle_leave_cluster_req L req s).0.state ≡ s.state
  unfolding handle_leave_cluster_req
  state-handle_leave_cluster_req req s =
      if_elim (λ (out : Server Store × RespMsg). out.0.state ≡ s.state) s.config_changing refl refl
