-- ===== src/Raft/SavedState/Tests.antt =====
-- A state, and the theorems of saved states at it.
use nu_raft.Common.{◌≡◌, arith, true, false, ok}
use nu_raft.Buffer.{Buffer}
use nu_raft.Raft.Types.{SrvState}
use nu_raft.Raft.SavedState.{serialize_v0, serialize_v1p, deserialize_state}
use nu_raft.Raft.SavedState.RoundTrip.{IsState, deserialize-serialize_v0, deserialize-serialize_v1p}

abbrev voted : SrvState
voted = record { term = 0x1_0000_0005; voted_for = 3; election_timer_allowed = false }

voted-IsState : IsState voted
voted-IsState = record { term_fits = omega arith; vote_fits = omega arith }

deserialize-serialize_v1p_example :
    (b : Buffer) × (serialize_v1p (λ i. i) 1 voted ≡ ok b) × (deserialize_state b ≡ ok voted)
deserialize-serialize_v1p_example =
    deserialize-serialize_v1p (λ i. i) 1 voted (omega arith) voted-IsState

deserialize-serialize_v0_example :
    (b : Buffer) × (serialize_v0 (λ i. i) voted ≡ ok b)
    × (deserialize_state b ≡ ok (record voted { election_timer_allowed = true }))
deserialize-serialize_v0_example = deserialize-serialize_v0 (λ i. i) voted voted-IsState
