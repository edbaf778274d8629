-- ===== src/Raft/Notice/Kept.antt =====
-- The handlers of notifications take a server's term and vote on
-- (src/handle_custom_notification.cxx).
use nu_raft.Common.{
  ℕ, ◌+◌, ◌^◌, ◌≡◌, ◌<◌, true, false, refl, ◌∙◌, Option, some, none, List, [], ◌∷◌, if_elim, ◌&&◌,
  ◌==◌, Result, ok, throw, Option-cases, inl, inr,
}
use nu_raft.Raft.Types.{ReqMsg, RespMsg, LogEntry, is_follower}
use nu_raft.Raft.LogStore.{LogStore}
use nu_raft.Raft.Server.{Server, emit, update_term}
use nu_raft.Raft.Leader.{Surroundings, find_peer}
use nu_raft.Raft.Leadership.State.{state-yield_leadership}
use nu_raft.Raft.Election.{initiate_vote, await_votes}
use nu_raft.Raft.Election.State.{
  Campaign-Later, stands, state-initiate_vote_forced, state-await_votes,
}
use nu_raft.Raft.Process.Term.{Later, update_term-Later}
use nu_raft.Raft.Process.VoteOnce.{Later-refl, Later-trans, Later-of}
use nu_raft.Raft.Notification.{
  CustomNotification, out_of_log_range_warning, leadership_takeover, request_resignation,
  notification_of, out_of_log_of,
}
use nu_raft.Raft.Notice.{
  is_leading, tell_out_of_log, handle_out_of_log_msg, handle_resignation_request,
  handle_custom_notification_resp, handle_leadership_takeover, take_notification,
  handle_custom_notification_req,
}

module _ {S : Type 0} where
  state-tell_out_of_log :
      (req : ReqMsg) (start_idx : ℕ) (s : Server S)
      → (tell_out_of_log req start_idx s).state ≡ s.state
  unfolding tell_out_of_log emit
  state-tell_out_of_log req start_idx s =
      if_elim (λ (t : Server S). t.state ≡ s.state) (req.term == s.state.term && is_follower s.role)
        refl refl

  state-out_of_log_read :
      (r : Result ℕ) (req : ReqMsg) (resp : RespMsg) (s : Server S)
      → (elim r as (λ x. Server S × Option RespMsg) [
        | ok start_idx ↦ (tell_out_of_log req start_idx s, some resp)
        | throw e ↦ (s, none)
      ]).0.state
        ≡ s.state
  state-out_of_log_read (ok start_idx) req resp s = state-tell_out_of_log req start_idx s
  state-out_of_log_read (throw e) req resp s = refl

  handle_out_of_log_msg-Later :
      (req : ReqMsg) (ctx : Option (List ℕ)) (resp : RespMsg) (s : Server S)
      → Later s.state (handle_out_of_log_msg req ctx resp s).0.state
  unfolding handle_out_of_log_msg emit
  handle_out_of_log_msg-Later req none resp s = (update_term-Later req.term s).0
  handle_out_of_log_msg-Later req (some bytes) resp s =
      Later-trans (update_term-Later req.term s).0 (
        Later-of (
          state-out_of_log_read (out_of_log_of bytes) req resp
            (record ((update_term req.term s).0) { out_of_log_range = true })))

  state-handle_resignation_request :
      (env : Surroundings) (req : ReqMsg) (s : Server S)
      → (handle_resignation_request env req s).state ≡ s.state
  unfolding handle_resignation_request
  state-handle_resignation_request env req s =
      if_elim (λ (t : Server S). t.state ≡ s.state) (is_leading s)
        (state-yield_leadership env false req.src s) refl

  pub state-handle_custom_notification_resp :
      (resp : RespMsg) (s : Server S) → (handle_custom_notification_resp resp s).state ≡ s.state
  unfolding handle_custom_notification_resp
  state-handle_custom_notification_resp resp s = elim (Option-cases (find_peer resp.src s.peers)) [
    | inl gone ↦ rw (gone) (if_elim (λ (t : Server S). t.state ≡ s.state) resp.accepted refl refl)
    | inr (p, there) ↦
        rw (there) (if_elim (λ (t : Server S). t.state ≡ s.state) resp.accepted refl refl)
  ]

module _ (L : LogStore) where
  open L use {Store}

  handle_leadership_takeover-Later :
      (env : Surroundings) (s : Server Store)
      → s.state.term + 1 < 2 ^ 64
      → Later s.state (handle_leadership_takeover L env s).state
  unfolding handle_leadership_takeover
  handle_leadership_takeover-Later env s fits =
      if_elim (λ (t : Server Store). Later s.state t.state) (is_leading s) (Later-refl s.state)
        (Campaign-Later L s (await_votes L (initiate_vote L env true s)) fits (
          stands (
            state-await_votes L (initiate_vote L env true s) ∙ state-initiate_vote_forced L env s)))

  take_notification-Later :
      (env : Surroundings) (req : ReqMsg) (m : CustomNotification) (resp : RespMsg)
      (s : Server Store)
      → s.state.term + 1 < 2 ^ 64
      → Later s.state (take_notification L env req m resp s).0.state
  unfolding take_notification
  take_notification-Later env req m resp s fits =
      if_elim later (m.notification_type == out_of_log_range_warning)
        (handle_out_of_log_msg-Later req m.ctx resp s)
        (if_elim later (m.notification_type == leadership_takeover)
          (handle_leadership_takeover-Later env s fits)
          (if_elim later (m.notification_type == request_resignation)
            (Later-of (state-handle_resignation_request env req s)) (Later-refl s.state)))
    where
      later : Server Store × Option RespMsg → Type 0
      later out = Later s.state out.0.state

  notification_read-Later :
      (r : Result CustomNotification) (env : Surroundings) (req : ReqMsg) (resp : RespMsg)
      (s : Server Store)
      → s.state.term + 1 < 2 ^ 64
      → Later s.state
          (elim r as (λ x. Server Store × Option RespMsg) [
            | ok m ↦ take_notification L env req m resp s
            | throw e ↦ (s, none)
          ]).0.state
  notification_read-Later (ok m) env req resp s fits = take_notification-Later env req m resp s fits
  notification_read-Later (throw e) env req resp s fits = Later-refl s.state

  entries_read-Later :
      (es : List LogEntry) (env : Surroundings) (req : ReqMsg) (resp : RespMsg) (s : Server Store)
      → s.state.term + 1 < 2 ^ 64
      → Later s.state
          (elim es as (λ x. Server Store × Option RespMsg) [
            | [] ↦ (s, some resp)
            | entry ∷ more ↦
                elim (notification_of entry.buff) as (λ x. Server Store × Option RespMsg) [
                  | ok m ↦ take_notification L env req m resp s
                  | throw e ↦ (s, none)
                ]
          ]).0.state
  entries_read-Later [] env req resp s fits = Later-refl s.state
  entries_read-Later (e ∷ es) env req resp s fits =
      notification_read-Later (notification_of e.buff) env req resp s fits

  pub handle_custom_notification_req-Later :
      (env : Surroundings) (req : ReqMsg) (s : Server Store)
      → s.state.term + 1 < 2 ^ 64
      → Later s.state (handle_custom_notification_req L env req s).0.state
  unfolding handle_custom_notification_req
  handle_custom_notification_req-Later env req s fits =
      entries_read-Later req.log_entries env req _ s fits
