-- ===== src/Raft/Membership/Tests.antt =====
-- A leader that admits a server, and a follower that is asked to join after it has voted.
use nu_raft.Common.{
  ℕ, ◌+◌, ◌≡◌, ◌≢◌, ◌≤◌, ◌<◌, ◌^◌, refl, arith, Bool, true, false, some, [], ◌∷◌, ◌==◌,
  if◌then◌else◌, length, ok,
}
use nu_raft.Config.{ClusterConfig, get_server}
use nu_raft.Config.Format.{encode_cluster, encode_servers, encode_srv}
use nu_raft.Config.RoundTrip.{IsSrv, IsCluster}
use nu_raft.Buffer
use nu_raft.Raft.Types.{
  leader, follower, conf, LogEntry, ReqMsg, RespMsg, join_cluster_request, no_server,
}
use nu_raft.Raft.Server.{Server, update_target_priority, max_priority, emit, send}
use nu_raft.Raft.Quorum.{quorum_size}
use nu_raft.Raft.Quorum.Majority.{count_of, Overlap}
use nu_raft.Raft.Leader.Become.{config_of}
use nu_raft.Raft.Vote.{handle_vote_req, is_up_to_date, has_low_priority}
use nu_raft.Raft.Reconfigure.{
  reconfigure, note_self, added, add_servers, add_server, not_in, remove_servers, remove_server,
  set_config, follow_config,
}
use nu_raft.Raft.Example.{server_as, peer, member, calm, vote_req, append_req}
use nu_raft.InmemLogStore
use nu_raft.InmemLogStore.Interface.{inmem, HeldStore}
use nu_raft.Raft.Membership.{without_server, latest_conf, invite}
use nu_raft.Raft.Membership.Sent.{config_of-encode_cluster, invite-handle_join_cluster_req}
use nu_raft.Raft.Membership.Voters.{voting}
use nu_raft.Raft.Membership.Overlap.{dismiss, change, servers-removed, change-Overlap}
use nu_raft.Raft.Membership.Join.{follow_new_leader, take_config, handle_join_cluster_req}
use nu_raft.Raft.Membership.Revote.{join-step, handle_vote_req-revote}

-- Server 3 goes.
abbrev leading : Server HeldStore
leading = server_as leader

abbrev first_two : ℕ → Bool
first_two id = if id == 1 then true else id == 2

single : (id : ℕ) → count_of (λ x. x == id) (voting (latest_conf leading).servers) ≤ 1
unfolding latest_conf
single id = ground arith

before_change :
    quorum_size 0 (length (voting (latest_conf leading).servers)) + 1
    ≤ count_of first_two (voting (latest_conf leading).servers)
unfolding latest_conf quorum_size
before_change = omega arith

left_two : (latest_conf (change inmem calm (dismiss 3) leading)).servers ≡ member 1 ∷ member 2 ∷ []
unfolding change without_server latest_conf
left_two = servers-removed inmem calm 3 leading refl

after_change :
    quorum_size 0 (length (voting (latest_conf (change inmem calm (dismiss 3) leading)).servers))
      + 1
    ≤ count_of first_two (voting (latest_conf (change inmem calm (dismiss 3) leading)).servers)
unfolding quorum_size
after_change = rw left_two (omega arith)

change-Overlap_example : Overlap first_two first_two (voting (latest_conf leading).servers)
change-Overlap_example =
    change-Overlap inmem calm (dismiss 3) leading first_two first_two single before_change
      after_change

-- In term 2, with a vote for server 2.
abbrev voted : Server HeldStore
voted = record (server_as follower) {
  state = record { term = 2; voted_for = 2; election_timer_allowed = true };
}

abbrev pair : ClusterConfig
pair = record {
  log_idx = 2;
  prev_log_idx = 1;
  async_replication = false;
  user_ctx = [];
  servers = member 1 ∷ member 3 ∷ [];
}

member-IsSrv : (id : ℕ) → id < 2 ^ 32 → IsSrv (member id)
member-IsSrv id fits = record {
  id_fits = fits;
  dc_id_fits = omega arith;
  priority_fits = omega arith;
  endpoint_text = tt;
  aux_text = tt;
}

pair-IsCluster : IsCluster pair
unfolding encode_cluster encode_servers encode_srv Buffer.shifted_bytes
pair-IsCluster = record {
  log_idx_fits = omega arith;
  prev_log_idx_fits = omega arith;
  servers_fit = (member-IsSrv 1 (omega arith), (member-IsSrv 3 (omega arith), tt));
  small = omega arith;
  count_fits = omega arith;
  ctx_fits = omega arith;
}

abbrev pair_entry : LogEntry
pair_entry = record { term = 2; value_type = conf; buff = encode_cluster pair }

abbrev join_req : ReqMsg
join_req = record append_req { msg_type = join_cluster_request; log_entries = pair_entry ∷ [] }

reads : config_of pair_entry.buff ≡ ok pair
reads = config_of-encode_cluster pair pair-IsCluster

recent : is_up_to_date inmem (vote_req 3 2) (handle_join_cluster_req inmem join_req voted).0 ≡ true
unfolding is_up_to_date take_config reconfigure follow_new_leader note_self added add_servers
    add_server not_in remove_servers set_config update_target_priority get_server emit
    InmemLogStore.last_entry
recent = rw (join-step inmem join_req pair_entry pair voted refl refl reads) refl

high :
    has_low_priority 3
      (handle_join_cluster_req inmem join_req voted).0.target_priority
      (handle_join_cluster_req inmem join_req voted).0.config.servers
    ≡ false
unfolding has_low_priority take_config reconfigure follow_new_leader note_self added add_servers
    add_server not_in remove_servers remove_server set_config update_target_priority get_server emit
    max_priority follow_config
high = rw (join-step inmem join_req pair_entry pair voted refl refl reads) refl

handle_vote_req-revote_example :
    let out =
      handle_vote_req inmem (vote_req 3 2) (handle_join_cluster_req inmem join_req voted).0 in
    (out.1.accepted ≡ true)
    × (out.0.state.term ≡ 2)
    × (out.0.state.voted_for ≡ 3)
    × (out.0.state.voted_for ≢ 2)
handle_vote_req-revote_example =
    handle_vote_req-revote inmem join_req pair_entry pair (vote_req 3 2) voted (omega arith)
      (omega arith) refl refl reads refl refl recent high

-- Server 1 leads with the configuration `pair`, and asks server 4 to join.
abbrev inviting : Server HeldStore
inviting = record (server_as leader) { config = pair }

invite-handle_join_cluster_req_example :
    (req : ReqMsg) × ((invite inmem (peer 4 0) inviting).effects ≡ send req ∷ [])
    × ((handle_join_cluster_req inmem req voted).0.state.term ≡ 2)
    × ((handle_join_cluster_req inmem req voted).0.state.voted_for ≡ no_server)
    × ((handle_join_cluster_req inmem req voted).0.config ≡ pair)
    × ((resp : RespMsg) × ((handle_join_cluster_req inmem req voted).1 ≡ some resp)
        × (resp.accepted ≡ true))
invite-handle_join_cluster_req_example =
    invite-handle_join_cluster_req inmem (peer 4 0) inviting voted pair-IsCluster
