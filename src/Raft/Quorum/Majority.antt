-- ===== src/Raft/Quorum/Majority.antt =====
-- Why the quorums of src/raft_server.cxx are safe: those of an election and of a commit share a
-- member.
use nu_raft.Common.{
  ℕ, ◌+◌, ◌≡◌, ◌≤◌, ◌<◌, refl, arith, Bool, true, false, List, [], ◌∷◌, length, if◌then◌else◌, inl,
  inr, Bool-cases, ◌⊎◌,
}
use nu_raft.Raft.Server.{Server, Peer}
use nu_raft.Raft.Quorum.{
  is_regular_member, count_regular, get_num_voting_members, quorum_size, get_quorum_for_election,
  get_quorum_for_commit,
}

-- The members that vote: the server itself unless it is a learner, and its regular peers.
module _ {S : Type 0} where
  abbrev pub regular_ids : Server S → List Peer → List ℕ
  regular_ids s [] = []
  regular_ids s (p ∷ ps) =
      if is_regular_member s p then p.id ∷ regular_ids s ps else regular_ids s ps

  abbrev pub voters : Server S → List ℕ
  voters s = if s.im_learner then regular_ids s s.peers else s.id ∷ regular_ids s s.peers

abbrev pub count_of : (ℕ → Bool) → List ℕ → ℕ
count_of p [] = 0
count_of p (x ∷ xs) = (if p x then 1 else 0) + count_of p xs

abbrev pub Occurs : ℕ → List ℕ → Type 0
Occurs x [] = ⊥
Occurs x (y ∷ ys) = (x ≡ y) ⊎ Occurs x ys

abbrev pub Overlap : (ℕ → Bool) → (ℕ → Bool) → List ℕ → Type 0
Overlap p q xs = (x : ℕ) × Occurs x xs × (p x ≡ true) × (q x ≡ true)

Overlap-cons : (p q : ℕ → Bool) (x : ℕ) (xs : List ℕ) → Overlap p q xs → Overlap p q (x ∷ xs)
Overlap-cons p q x xs (y, o, py, qy) = (y, inr o, py, qy)

-- Two sets of members that have more members together than there are overlap.
pub overlap :
    (p q : ℕ → Bool) (xs : List ℕ) → length xs < count_of p xs + count_of q xs → Overlap p q xs
overlap p q [] h = elim h [ ]
overlap p q (x ∷ xs) h = elim (Bool-cases (p x)) [
  | inl px ↦ elim (Bool-cases (q x)) [
    | inl qx ↦ (x, inl refl, px, qx)
    | inr qx ↦ Overlap-cons p q x xs (overlap p q xs (ground arith))
  ]
  | inr px ↦ Overlap-cons p q x xs (overlap p q xs (ground arith))
]

module _ {S : Type 0} (s : Server S) where
  length-regular_ids : (ps : List Peer) → length (regular_ids s ps) ≡ count_regular s ps
  unfolding count_regular
  length-regular_ids [] = refl
  length-regular_ids (p ∷ ps) = ground (arith, length-regular_ids ps)

  length-voters : length (voters s) ≡ get_num_voting_members s
  unfolding get_num_voting_members
  length-voters = ground (arith, length-regular_ids s.peers)

  -- With no custom quorum sizes, and where receivers of snapshots count as members: if `granted`
  -- holds of as many voters as an election asks for and `stored` of as many as a commit asks for,
  -- there is a voter of which both hold.
  pub election-commit-Overlap :
      (granted stored : ℕ → Bool)
      → s.params.custom_election_quorum_size ≡ 0
      → s.params.custom_commit_quorum_size ≡ 0
      → s.params.exclude_snp_receiver_from_quorum ≡ false
      → get_quorum_for_election s + 1 ≤ count_of granted (voters s)
      → get_quorum_for_commit s + 1 ≤ count_of stored (voters s)
      → Overlap granted stored (voters s)
  unfolding get_quorum_for_election get_quorum_for_commit
  election-commit-Overlap granted stored no_custom no_custom' all votes copies =
      overlap granted stored (voters s) (omega (arith, length-voters, halves))
    where
      halves :
          get_num_voting_members s < (get_quorum_for_election s + 1) + (get_quorum_for_commit s + 1)
      halves = rw (no_custom, no_custom', all) (unfold quorum_size in omega arith)
