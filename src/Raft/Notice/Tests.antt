-- ===== src/Raft/Notice/Tests.antt =====
-- A follower that is told to take over.
use nu_raft.Common.{◌+◌, ◌%◌, ◌^◌, ◌≡◌, ◌⊎◌, ltb, true, refl, [], ◌∷◌}
use nu_raft.Raft.Types.{ReqMsg, LogEntry, follower, custom}
use nu_raft.Raft.Example.{server_as, append_req, calm}
use nu_raft.Raft.Quorum.{get_quorum_for_election}
use nu_raft.Raft.Election.Asked.{Standing}
use nu_raft.Raft.Notification.{notification_bytes}
use nu_raft.Raft.Notice.{is_leading, handle_custom_notification_req}
use nu_raft.Raft.Notice.Takeover.{takeover, handle_custom_notification_req-takeover}
use nu_raft.InmemLogStore.Interface.{inmem}

abbrev takeover_entry : LogEntry
takeover_entry = record { term = 0; value_type = custom; buff = notification_bytes takeover }

abbrev takeover_req : ReqMsg
takeover_req = record append_req { log_entries = takeover_entry ∷ [] }

handle_custom_notification_req-takeover_example :
    ((handle_custom_notification_req inmem calm takeover_req (server_as follower)).0.state
      ≡ record ((server_as follower).state) {
        term = ((server_as follower).state.term + 1) % 2 ^ 64;
        voted_for = (server_as follower).id;
      })
    × ((get_quorum_for_election (server_as follower) ≡ 0)
        ⊎ Standing inmem
            (server_as follower)
            (handle_custom_notification_req inmem calm takeover_req (server_as follower)).0)
unfolding is_leading
handle_custom_notification_req-takeover_example =
    handle_custom_notification_req-takeover inmem calm takeover_req takeover_entry []
      (server_as follower) refl refl refl

-- The quorum of the example needs other votes, and one of its voters is free.
needs_votes : ltb 0 (get_quorum_for_election (server_as follower)) ≡ true
unfolding get_quorum_for_election nu_raft.Raft.Quorum.quorum_size
    nu_raft.Raft.Quorum.get_num_voting_members nu_raft.Raft.Quorum.is_regular_member
needs_votes = refl
