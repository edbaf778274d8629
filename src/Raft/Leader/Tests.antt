-- ===== src/Raft/Leader/Tests.antt =====
-- A leader with three entries and a follower with the first of them.
use nu_raft.Common.{◌≡◌, refl, arith, true, some, [], ◌∷◌}
use nu_raft.Raft.Types.{leader, follower, RespMsg, new_resp, append_entries_response}
use nu_raft.Raft.Server.{Server, Peer, emit, undefined_behavior}
use nu_raft.Raft.Leader.{find_peer, create_append_entries_req}
use nu_raft.Raft.Leader.Request.{next_for, Describes, create_append_entries_req-Describes}
use nu_raft.Raft.Leader.Round.{Paired, Synced, Exchanged, exchange}
use nu_raft.Raft.Leader.Exchange.{exchange-Exchanged}
use nu_raft.Raft.Leader.Converge.{replicate_to, replicate_to-accepts}
use nu_raft.Raft.Leader.Matching.{Matching-take}
use nu_raft.Raft.Leader.Response.{erase_peer, drop_leaving, handle_append_entries_resp}
use nu_raft.Raft.Leader.Dangling.{handle_append_entries_resp-dangling}
use nu_raft.InmemLogStore.{append, fresh}
use nu_raft.InmemLogStore.Interface.{HeldStore, inmem, fresh-Holds, append-Holds}
use nu_raft.InmemLogStore.Tests.{first, second, third}
use nu_raft.Raft.Example.{server_as, peer, willing, calm}

abbrev one_entry : HeldStore
one_entry = record {
  store = append first fresh;
  held = first ∷ [];
  holds = append-Holds fresh [] first fresh-Holds;
}

abbrev behind : Server HeldStore
behind = record (server_as follower) { log_store = one_entry }

behind-Paired : Paired inmem (server_as leader) (peer 3 3) behind
unfolding append
behind-Paired = record {
  whole = refl;
  leader_start = refl;
  next = omega arith;
  small = omega arith;
  role = λ e. ground (arith, e);
  run = refl;
  term = refl;
  start = refl;
  no_snapshot = refl;
  matching = Matching-take 1 (first ∷ second ∷ third ∷ []);
}

create_append_entries_req-Describes_example :
    Describes inmem
      (peer 3 1)
      (server_as leader)
      1
      (create_append_entries_req inmem (peer 3 1) (server_as leader))
unfolding next_for
create_append_entries_req-Describes_example =
    create_append_entries_req-Describes inmem (peer 3 1) (server_as leader) 1 refl refl
      (omega arith)

exchange-Exchanged_example :
    Exchanged inmem
      (server_as leader)
      (peer 3 3)
      behind
      (exchange inmem willing (server_as leader) (peer 3 3) behind)
exchange-Exchanged_example =
    exchange-Exchanged inmem willing (server_as leader) (peer 3 3) behind behind-Paired refl

replicate_to-accepts_example :
    let out = replicate_to inmem 4 willing (server_as leader) (peer 3 3) behind in
    (out.2 ≡ true) × Synced inmem (server_as leader) out.1 out.0
unfolding next_for
replicate_to-accepts_example =
    replicate_to-accepts inmem 4 willing (server_as leader) (peer 3 3) behind behind-Paired refl
      (omega arith)

-- The peer 3 is to leave, and has not answered for a long time.
abbrev late_peer : Peer
late_peer = record (peer 3 1) { resp_elapsed_ms = 3000 }

abbrev leaving : Server HeldStore
leaving = record (server_as leader) {
  peers = peer 2 3 ∷ late_peer ∷ [];
  srv_to_leave = some 3;
  srv_to_leave_target_idx = 3;
}

abbrev refusal : RespMsg
refusal = new_resp 2 append_entries_response 3 1 2

handle_append_entries_resp-dangling_example :
    handle_append_entries_resp inmem calm refusal leaving
    ≡ emit undefined_behavior (drop_leaving inmem 3 leaving)
unfolding find_peer erase_peer
handle_append_entries_resp-dangling_example =
    handle_append_entries_resp-dangling inmem calm refusal leaving late_peer refl refl refl
      (omega arith)
