-- ===== src/Raft/Membership/Voters.antt =====
-- Counting the voters of a configuration that has one server more or less
-- (src/handle_join_leave.cxx).
use nu_raft.Common.{
  ℕ, ◌+◌, ◌≡◌, ◌≤◌, refl, arith, Bool, List, [], ◌∷◌, ◌++◌, length, if◌then◌else◌, ◌==◌,
}
use nu_raft.Config.{SrvConfig}
use nu_raft.Raft.Quorum.{quorum_size}
use nu_raft.Raft.Quorum.Majority.{count_of, Overlap, overlap}
use nu_raft.Raft.Membership.{without_server}

abbrev pub voting : List SrvConfig → List ℕ
voting [] = []
voting (c ∷ cs) = if c.learner then voting cs else c.id ∷ voting cs

pub count-append :
    (q : ℕ → Bool) (xs ys : List ℕ) → count_of q (xs ++ ys) ≡ count_of q xs + count_of q ys
count-append q [] ys = omega arith
count-append q (x ∷ xs) ys = omega (arith, count-append q xs ys)

pub voting-snoc :
    (cs : List SrvConfig) (c : SrvConfig) → voting (cs ++ (c ∷ [])) ≡ voting cs ++ voting (c ∷ [])
voting-snoc [] c = refl
voting-snoc (d ∷ cs) c = ground (arith, voting-snoc cs c)

-- A majority of `xs` and one of `ys` have more members of `xs` together than there are, where `ys`
-- has `a` members of its own at most, and hardly fewer members.
pub close-Overlap :
    (p q : ℕ → Bool) (xs ys : List ℕ) (a : ℕ)
    → count_of q ys ≤ count_of q xs + a
    → length xs + a + a ≤ length ys + 1
    → quorum_size 0 (length xs) + 1 ≤ count_of p xs
    → quorum_size 0 (length ys) + 1 ≤ count_of q ys
    → Overlap p q xs
unfolding quorum_size
close-Overlap p q xs ys a own long old new = overlap p q xs (omega (arith, own, long, old, new))

pub count-voting-without :
    (q : ℕ → Bool) (id : ℕ) (cs : List SrvConfig)
    → count_of q (voting (without_server id cs)) ≤ count_of q (voting cs)
unfolding without_server
count-voting-without q id [] = omega arith
count-voting-without q id (c ∷ cs) = ground (arith, count-voting-without q id cs)

pub length-voting-without :
    (id : ℕ) (cs : List SrvConfig)
    → length (voting (without_server id cs)) + count_of (λ x. x == id) (voting cs)
      ≡ length (voting cs)
unfolding without_server
length-voting-without id [] = refl
length-voting-without id (c ∷ cs) = ground (arith, length-voting-without id cs)
