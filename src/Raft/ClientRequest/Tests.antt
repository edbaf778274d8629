-- ===== src/Raft/ClientRequest/Tests.antt =====
-- A client's request to a leader.
use nu_raft.Common.{◌+◌, ◌≡◌, ◌≤◌, refl, arith, true, inl, [], ◌∷◌, length, map}
use nu_raft.Raft.Types.{leader}
use nu_raft.Raft.Example.{server_as, append_req, fourth}
use nu_raft.Raft.Server.{Server}
use nu_raft.Raft.ClientRequest.{CliParams, CliAnswer, appended_up_to, stamp, handle_cli_req}
use nu_raft.Raft.ClientRequest.Stored.{Appended, handle_cli_req-Appended}
use nu_raft.InmemLogStore.{next_slot}
use nu_raft.InmemLogStore.Interface.{inmem, HeldStore}
use nu_raft.InmemLogStore.Tests.{third}

abbrev anyone : CliParams
anyone = record { expected_term = 0; appending_accepted = true }

abbrev served : Server HeldStore × CliAnswer
served = handle_cli_req inmem anyone append_req (server_as leader)

low : (server_as leader).precommit_index ≤ inmem.next_slot (server_as leader).log_store
unfolding next_slot
low = omega arith

handle_cli_req-Appended_example :
    Appended inmem (map (stamp 2) (fourth ∷ third ∷ [])) (server_as leader) served.0
    × (served.0.precommit_index + 1 ≡ inmem.next_slot served.0.log_store)
    × (true ≡ true
        → served.1
          ≡ appended_up_to
              (inmem.next_slot (server_as leader).log_store + length (fourth ∷ third ∷ [])))
handle_cli_req-Appended_example =
    handle_cli_req-Appended inmem anyone append_req fourth (third ∷ []) (server_as leader) refl refl
      (inl refl) refl low
