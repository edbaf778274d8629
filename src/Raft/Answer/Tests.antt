-- ===== src/Raft/Answer/Tests.antt =====
-- A follower that stands for election, and is then asked for its vote.
use nu_raft.Common.{◌≡◌, ◌≢◌, ◌≤◌, arith, refl, true}
use nu_raft.Raft.Types.{follower, no_server}
use nu_raft.Raft.Server.{Server}
use nu_raft.Raft.Answer.Reach.{
  Event, vote_start, request, handle, Reach, at_start, go_on, Reach-vote,
}
use nu_raft.InmemLogStore.Interface.{HeldStore, inmem}
use nu_raft.InmemLogStore.PackKeep.{inmem_pack}
use nu_raft.Raft.Quorum.{quorum_size}
use nu_raft.Raft.Election.{initiate_vote}
use nu_raft.Raft.Example.{server_as, willing, vote_req, calm}

abbrev stands_up : Event
stands_up = vote_start calm true

abbrev is_asked : Event
is_asked = request (vote_req 3 3) willing

abbrev standing : Server HeldStore
standing = handle inmem inmem_pack stands_up (server_as follower)

abbrev asked : Server HeldStore
asked = handle inmem inmem_pack is_asked standing

-- It stands in term 3, with its own vote.
standing-state : (standing.state.term ≡ 3) × (standing.state.voted_for ≡ 1)
unfolding handle initiate_vote quorum_size
standing-state = (refl, refl)

asked-Reach : Reach inmem inmem_pack standing asked
asked-Reach = go_on at_start is_asked (omega (arith, standing-state.0))

Reach-vote_example :
    (standing.state.term ≤ asked.state.term)
    × (standing.state.term ≡ asked.state.term
        → standing.state.voted_for ≢ no_server
        → asked.state.voted_for ≡ standing.state.voted_for)
Reach-vote_example = Reach-vote inmem inmem_pack standing asked asked-Reach
