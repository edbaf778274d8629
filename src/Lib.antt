-- ===== src/Lib.antt =====
-- NuRaft: a Raft server and what it is built on.
--
-- The parts and the files:
-- - Common: names of the libraries, tests on numbers, lists over the native numbers, results of
--   code that may throw.
-- - Buffer: src/buffer.cxx. A buffer is its two header words and its area; `pos`, `size` and the
--   cursor's moves are computed on the words, in both block layouts. `alloc` takes the contents of
--   the memory it gets as a parameter.
-- - Serializer: src/buffer_serializer.cxx, both byte orders, over a Buffer with a cursor of its own.
-- - Config: src/srv_config.cxx, src/cluster_config.cxx. The writers use Buffer, the readers
--   Serializer.
-- - InmemLogStore: examples/in_memory_log_store.cxx. Its map is a sorted association list. It fills
--   the interface Raft.LogStore (include/libnuraft/log_store.hxx).
-- - Snapshot: src/snapshot.cxx, the description of a snapshot, and src/snapshot_sync_req.cxx, the
--   format of a part of one.
-- - Raft.Types, Raft.Server: messages and the state of a server; the transitions that handlers
--   share (`become_follower`, `update_term`, priorities), of src/raft_server.cxx and
--   src/handle_priority.cxx.
-- - Raft.Quorum: quorum sizes and the index to commit, of src/raft_server.cxx and
--   src/handle_append_entries.cxx.
-- - Raft.Follower: `handle_append_entries` of src/handle_append_entries.cxx and `commit` of
--   src/handle_commit.cxx, over any log store that fills the interface.
-- - Raft.Leader: `request_append_entries` and `create_append_entries_req` of
--   src/handle_append_entries.cxx. Its children: Response has `handle_append_entries_resp` and
--   `notify_log_append_completion`, Become has `become_leader` of src/raft_server.cxx; Request,
--   Matching, Round, Exchange and Converge are about rounds between a leader and a follower.
-- - Raft.Vote: `handle_vote_req` and `handle_prevote_req` of src/handle_vote.cxx.
-- - Raft.Election: the candidate's side of src/handle_vote.cxx, from `request_prevote` to
--   `handle_vote_resp`.
-- - Raft.Notification: src/handle_custom_notification.cxx, the formats of notifications.
-- - Raft.Notice: the handlers of src/handle_custom_notification.cxx.
-- - Raft.SavedState: include/libnuraft/srv_state.hxx, the state as it is saved.
-- - Raft.Process: `process_req` of src/raft_server.cxx, which updates the term and dispatches.
-- - Raft.Answer: `handle_peer_resp` of src/raft_server.cxx, which does the same with answers; its
--   child Reach has these, the timers, notifications, elections, reports of the log store, requests of
--   clients and changes of the membership as steps of a server. What `handle_ext_msg` dispatches does
--   not go through `process_req` there.
-- - Raft.ClientRequest: `handle_cli_req` of src/handle_client_request.cxx.
-- - Raft.Leadership: `check_leadership_validity`, `yield_leadership` and `check_leadership_transfer`
--   of src/raft_server.cxx.
-- - Raft.Timeout: `handle_election_timeout` and `handle_hb_timeout` of src/handle_timeout.cxx.
-- - Raft.Membership: src/handle_join_leave.cxx. A change is a configuration that goes through the
--   log. Its child Join has the invitation, the server that joins and the transfer of the committed
--   log to it, in packs of entries (Raft.EntryFormat, InmemLogStore.Pack), Leave has the removal.
-- - Raft.Reconfigure: `reconfigure` of src/handle_commit.cxx.
-- - Raft.Committer: `commit_in_bg_exec` of src/handle_commit.cxx and snapshots as far as the server
--   starts and completes them.
--
-- How the code is modelled. A handler is a function from the state to the state and the response;
-- the locks make it atomic. Calls that leave the server (saving the state, timers, callbacks,
-- requests to peers, the state machine) are recorded as effects, the newest first. What the
-- application, timers and connections answer is an argument. `int32` and `uint64` values are their
-- bit patterns; wrap-around is written out where the code can meet it. Indexes and terms are below
-- 2 ^ 64. `commit` and `request_append_entries` call each other in the code: here `commit` records
-- an effect for each peer that it asks to be sent a request.
--
-- Loops are structural recursion, over the list they go through or the number of their rounds. The
-- loop of the commit thread has as many rounds as there are entries to execute, which is all that
-- it can run while no other thread commits more. Rounds of replication between a leader and one
-- follower are counted by the peer's next index, which every declined request lowers.
--
-- Not modelled: the transfer of snapshots (sending a part of one is an effect) and the configuration
-- a snapshot carries, what waiting clients are told, the threads of timers, of snapshots and of
-- urgent commits, the network service, statistics, logging and user commands. Restarting the
-- election timer is an effect, and so is that it allows that timer again where it was not allowed.
-- What `process_req` does with a request of another kind than append, vote, pre-vote and ping is an
-- argument of it; the handlers of such requests that are modelled are functions of their own. No
-- callback chooses the next term (`set_inc_term_func`). What a writer leaves in a buffer that it
-- throws over is not followed.
-- The clocks and counters that only choose a log message are left out.
pub mod Common
pub mod Buffer
pub mod Serializer
pub mod Config
pub mod InmemLogStore
pub mod Snapshot
pub mod Raft
