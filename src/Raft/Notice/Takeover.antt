-- ===== src/Raft/Notice/Takeover.antt =====
-- What a notification does to a server that is told to take over
-- (src/handle_custom_notification.cxx).
use nu_raft.Common.{◌+◌, ◌%◌, ◌^◌, ◌≡◌, ◌⊎◌, ◌∙◌, arith, false, true, none, List, ◌∷◌}
use nu_raft.Raft.Types.{ReqMsg, LogEntry}
use nu_raft.Raft.LogStore.{LogStore}
use nu_raft.Raft.Server.{Server}
use nu_raft.Raft.Leader.{Surroundings}
use nu_raft.Raft.Election.{initiate_vote}
use nu_raft.Raft.Quorum.{get_quorum_for_election}
use nu_raft.Raft.Election.Asked.{Standing, initiate_vote-Standing}
use nu_raft.Raft.Election.State.{state-initiate_vote_forced, state-await_votes}
use nu_raft.Raft.Notification.{
  CustomNotification, leadership_takeover, notification_bytes, ctx_size,
}
use nu_raft.Raft.Notification.RoundTrip.{IsNotification, notification_of_lem}
use nu_raft.Raft.Notice.{is_leading, handle_leadership_takeover, handle_custom_notification_req}

-- What a leader that resigns sends.
abbrev pub takeover : CustomNotification
takeover = record { notification_type = leadership_takeover; ctx = none }

takeover-IsNotification : IsNotification takeover
unfolding ctx_size
takeover-IsNotification = record {
  type_fits = omega arith;
  ctx_fits = omega arith;
  ctx_filled = λ e. ground (arith, e);
}

module _ (L : LogStore) where
  open L use {Store}

  -- A server that does not lead is told to take over, by the bytes that a leader sends when it
  -- resigns. Then it is in the next term, with its own vote, whatever the priorities are and however
  -- far its state machine lags. Unless the quorum needs no other votes, it is a candidate, and a forced
  -- vote request of that term goes to every voter that is not busy.
  pub handle_custom_notification_req-takeover :
      (env : Surroundings) (req : ReqMsg) (e : LogEntry) (more : List LogEntry) (s : Server Store)
      → req.log_entries ≡ e ∷ more
      → e.buff ≡ notification_bytes takeover
      → is_leading s ≡ false
      → ((handle_custom_notification_req L env req s).0.state
          ≡ record (s.state) { term = (s.state.term + 1) % 2 ^ 64; voted_for = s.id })
        × ((get_quorum_for_election s ≡ 0)
            ⊎ Standing L s (handle_custom_notification_req L env req s).0)
  unfolding handle_custom_notification_req handle_leadership_takeover
  handle_custom_notification_req-takeover env req e more s there bytes follows =
      rw
        (
          there,
          handle_custom_notification_req,
          bytes,
          notification_of_lem takeover takeover-IsNotification,
          follows,
        )
        (
          state-await_votes L (initiate_vote L env true s) ∙ state-initiate_vote_forced L env s,
          initiate_vote-Standing L env s,
        )
