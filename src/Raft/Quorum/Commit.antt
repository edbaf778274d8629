-- ===== src/Raft/Quorum/Commit.antt =====
-- The index that src/handle_append_entries.cxx commits: the highest one that a quorum has.
use nu_raft.Common.{
  ℕ, zero, suc, ◌+◌, ◌-◌, ◌≡◌, ◌≤◌, ◌<◌, refl, ◌∙◌, arith, false, List, [], ◌∷◌, length, get_or,
  leb, if◌then◌else◌,
}
use mathlib.Core.Logic.{∥∥₁_elim}
use mathlib.Core.List.{Perm, Permᴰ}
use native.Mathlib.Nat.{ℕ_set}
use nu_raft.Raft.Server.{Server, Peer}
use nu_raft.Raft.Quorum.{
  count_regular, get_num_voting_members, quorum_size, get_quorum_for_commit, without_receivers,
  regular_matched, matched_indexes, commit_quorum_idx, get_expected_committed_log_idx,
}

-- How many of the indexes are `v` or more.
abbrev pub count_reached : ℕ → List ℕ → ℕ
count_reached v [] = 0
count_reached v (x ∷ xs) = (if leb v x then 1 else 0) + count_reached v xs

abbrev pub AllBelow : ℕ → List ℕ → Type 0
AllBelow n [] = Unit {0}
AllBelow n (x ∷ xs) = (x ≤ n) × AllBelow n xs

abbrev pub Descending : List ℕ → Type 0
Descending [] = Unit {0}
Descending (x ∷ xs) = AllBelow x xs × Descending xs

-- What is relied on of `std::sort` with `std::greater`.
pub record IsSort (sort : List ℕ → List ℕ) : Type 0 where
  pub descending : (xs : List ℕ) → Descending (sort xs)
  pub same : (xs : List ℕ) → Perm (sort xs) xs

get_or-AllBelow : (n q : ℕ) (xs : List ℕ) → AllBelow n xs → get_or xs q 0 ≤ n
get_or-AllBelow n q [] h = omega arith
get_or-AllBelow n zero (x ∷ xs) (h, hs) = h
get_or-AllBelow n (suc q) (x ∷ xs) (h, hs) = get_or-AllBelow n q xs hs

count_reached_above : (n v : ℕ) (xs : List ℕ) → AllBelow n xs → n < v → count_reached v xs ≡ 0
count_reached_above n v [] h lt = refl
count_reached_above n v (x ∷ xs) (h, hs) lt = ground (arith, count_reached_above n v xs hs)

-- In a descending list, `q + 1` elements reach the one at `q`,
reaches_at :
    (q : ℕ) (xs : List ℕ) → Descending xs → q < length xs → suc q ≤ count_reached (get_or xs q 0) xs
reaches_at q [] d h = elim h [ ]
reaches_at zero (x ∷ xs) d h = ground arith
reaches_at (suc q) (x ∷ xs) (h, d) lt =
    ground (arith, reaches_at q xs d (omega arith), get_or-AllBelow x q xs h)

-- and nothing higher is reached by as many.
highest_at :
    (q w : ℕ) (xs : List ℕ) → Descending xs → suc q ≤ count_reached w xs → w ≤ get_or xs q 0
highest_at q w [] d h = elim h [ ]
highest_at zero w (x ∷ xs) (h, d) c = ground (arith, count_reached_above x w xs h)
highest_at (suc q) w (x ∷ xs) (h, d) c =
    ground (arith, count_reached_above x w xs h, highest_at q w xs d)

count_reached-Permᴰ :
    (v : ℕ) {xs ys : List ℕ} → Permᴰ xs ys → count_reached v xs ≡ count_reached v ys
count_reached-Permᴰ v Permᴰ.nil = refl
count_reached-Permᴰ v (Permᴰ.cons e p) = rw e (omega (arith, count_reached-Permᴰ v p))
count_reached-Permᴰ v (Permᴰ.swap e f) = rw (e, f) (omega arith)
count_reached-Permᴰ v (Permᴰ.trans p q) = count_reached-Permᴰ v p ∙ count_reached-Permᴰ v q

count_reached-Perm : (v : ℕ) {xs ys : List ℕ} → Perm xs ys → count_reached v xs ≡ count_reached v ys
count_reached-Perm v p = ∥∥₁_elim p (ℕ_set _ _) (count_reached-Permᴰ v)

length-Permᴰ : {xs ys : List ℕ} → Permᴰ xs ys → length xs ≡ length ys
length-Permᴰ Permᴰ.nil = refl
length-Permᴰ (Permᴰ.cons e p) = omega (arith, length-Permᴰ p)
length-Permᴰ (Permᴰ.swap e f) = refl
length-Permᴰ (Permᴰ.trans p q) = length-Permᴰ p ∙ length-Permᴰ q

length-Perm : {xs ys : List ℕ} → Perm xs ys → length xs ≡ length ys
length-Perm p = ∥∥₁_elim p (ℕ_set _ _) length-Permᴰ

quorum_size-lt : (custom n m : ℕ) → n ≤ m → 0 < m → quorum_size custom n < m
unfolding quorum_size
quorum_size-lt custom n m le pos = ground arith

without_receivers-le : (ps : List Peer) (n : ℕ) → without_receivers ps n ≤ n
unfolding without_receivers
without_receivers-le [] n = omega arith
without_receivers-le (p ∷ ps) n =
    ground (arith, without_receivers-le ps n, without_receivers-le ps (n - 1))

module _ {S : Type 0} (s : Server S) where
  quorum-lt : 0 < get_num_voting_members s → get_quorum_for_commit s < get_num_voting_members s
  unfolding get_quorum_for_commit
  quorum-lt pos =
      quorum_size-lt s.params.custom_commit_quorum_size
        (if s.params.exclude_snp_receiver_from_quorum
          then without_receivers s.peers (get_num_voting_members s)
          else get_num_voting_members s)
        (get_num_voting_members s) smaller pos
    where
      smaller :
          (if s.params.exclude_snp_receiver_from_quorum
            then without_receivers s.peers (get_num_voting_members s)
            else get_num_voting_members s)
          ≤ get_num_voting_members s
      smaller = ground (arith, without_receivers-le s.peers (get_num_voting_members s))

  commit_quorum_idx-lt :
      0 < get_num_voting_members s → commit_quorum_idx s < get_num_voting_members s
  unfolding commit_quorum_idx
  commit_quorum_idx-lt pos = ground (arith, quorum-lt pos)

  length-regular_matched : (ps : List Peer) → length (regular_matched s ps) ≡ count_regular s ps
  unfolding regular_matched count_regular
  length-regular_matched [] = refl
  length-regular_matched (p ∷ ps) = ground (arith, length-regular_matched ps)

  length-matched_indexes :
      (durable_index : ℕ)
      → s.im_learner ≡ false
      → length (matched_indexes durable_index s) ≡ get_num_voting_members s
  unfolding matched_indexes get_num_voting_members
  length-matched_indexes durable_index voter = ground (arith, length-regular_matched s.peers)

  -- On a voting member, and where the state machine does not adjust the index: the index that is
  -- committed is reached by the members that the quorum asks for, itself included, and no higher
  -- index is reached by as many.
  pub expected_commit-quorum :
      (sort : List ℕ → List ℕ) (durable_index : ℕ)
      → IsSort sort
      → s.im_learner ≡ false
      → let v =
          get_expected_committed_log_idx sort (λ current expected. expected) durable_index s in
        (commit_quorum_idx s + 1 ≤ count_reached v (matched_indexes durable_index s))
        × ((w : ℕ)
            → commit_quorum_idx s + 1 ≤ count_reached w (matched_indexes durable_index s)
            → w ≤ v)
  unfolding get_expected_committed_log_idx
  expected_commit-quorum sort durable_index is_sort voter = (
    omega (arith, reaches_at q sorted down (omega (arith, same_length, inside)), as_often v),
    λ w enough. highest_at q w sorted down (omega (arith, enough, as_often w)),
  )
    where
      q : ℕ
      q = commit_quorum_idx s

      sorted : List ℕ
      sorted = sort (matched_indexes durable_index s)

      v : ℕ
      v = get_or sorted q 0

      down : Descending sorted
      down = is_sort.descending (matched_indexes durable_index s)

      as_often :
          (w : ℕ) → count_reached w sorted ≡ count_reached w (matched_indexes durable_index s)
      as_often w = count_reached-Perm w (is_sort.same (matched_indexes durable_index s))

      same_length : length sorted ≡ get_num_voting_members s
      same_length =
          length-Perm (is_sort.same (matched_indexes durable_index s))
          ∙ length-matched_indexes durable_index voter

      inside : q < get_num_voting_members s
      inside = commit_quorum_idx-lt (unfold get_num_voting_members in ground arith)
