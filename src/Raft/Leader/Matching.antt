-- ===== src/Raft/Leader/Matching.antt =====
-- Log matching: two logs that have an entry of one term at one index are the same up to it. What
-- the merge of src/handle_append_entries.cxx does to logs that match.
use nu_raft.Common.{
  ℕ, zero, suc, ◌+◌, ◌≡◌, refl, ap, sym, ◌∙◌, arith, true, some, List, [], ◌∷◌, ◌++◌, length, take,
  drop, take_all, take_past, take-length-take, get_elem?, get_or, ◌==◌, ==_iff, Bool-cases, inl,
  inr,
}
use nu_raft.Raft.Types.{LogEntry}
use nu_raft.Raft.Follower.Merge.{merge}

pub record Matching (a b : List LogEntry) : Type 0 where
  pub agree :
      (i : ℕ) (x y : LogEntry)
      → get_elem? a i ≡ some x
      → get_elem? b i ≡ some y
      → x.term ≡ y.term
      → take (suc i) a ≡ take (suc i) b

no_elem : (i : ℕ) (x : LogEntry) → get_elem? [] i ≡ some x → ⊥
no_elem i x e = ground (arith, e)

Matching-tail : {x : LogEntry} {a b : List LogEntry} → Matching (x ∷ a) (x ∷ b) → Matching a b
Matching-tail m = record {
  agree = λ i x y at_a at_b same. ap (drop 1) (m.agree (suc i) x y at_a at_b same);
}

Matching-cons : (x : LogEntry) {a b : List LogEntry} → Matching a b → Matching (x ∷ a) (x ∷ b)
Matching-cons z {a} {b} m = record { agree = both }
  where
    both :
        (i : ℕ) (x y : LogEntry)
        → get_elem? (z ∷ a) i ≡ some x
        → get_elem? (z ∷ b) i ≡ some y
        → x.term ≡ y.term
        → take (suc i) (z ∷ a) ≡ take (suc i) (z ∷ b)
    both zero x y at_a at_b same = refl
    both (suc i) x y at_a at_b same =
        ap (λ (xs : List LogEntry). z ∷ xs) (m.agree i x y at_a at_b same)

pub Matching-behind :
    (p : List LogEntry) {a b : List LogEntry} → Matching (p ++ a) (p ++ b) → Matching a b
Matching-behind [] m = m
Matching-behind (x ∷ p) m = Matching-behind p (Matching-tail m)

pub Matching-front :
    (p : List LogEntry) {a b : List LogEntry} → Matching a b → Matching (p ++ a) (p ++ b)
Matching-front [] m = m
Matching-front (x ∷ p) m = Matching-cons x (Matching-front p m)

-- What begins with the other log matches it.
take_twice :
    (n i : ℕ) (b : List LogEntry) (x : LogEntry)
    → get_elem? (take n b) i ≡ some x
    → take (suc i) (take n b) ≡ take (suc i) b
take_twice zero i b x e = absurd (no_elem i x e)
take_twice (suc n) i [] x e = refl
take_twice (suc n) zero (y ∷ b) x e = refl
take_twice (suc n) (suc i) (y ∷ b) x e = ap (λ (xs : List LogEntry). y ∷ xs) (take_twice n i b x e)

pub Matching-take : (n : ℕ) (b : List LogEntry) → Matching (take n b) b
Matching-take n b = record { agree = λ i x y at_a at_b same. take_twice n i b x at_a }

same_head :
    (o l : LogEntry) (os ls : List LogEntry)
    → Matching (o ∷ os) (l ∷ ls)
    → (o.term == l.term) ≡ true
    → o ≡ l
same_head o l os ls m same =
    ap (λ xs. get_or xs 0 o) (m.agree 0 o l refl refl ((==_iff o.term l.term).0 same))

-- The log after the merge has the leader's entries where they were sent,
pub merge-take :
    (rest ls : List LogEntry) (m : ℕ)
    → Matching rest ls
    → take (length (take m ls)) (merge rest (take m ls)) ≡ take m ls
unfolding merge
merge-take rest ls zero h = refl
merge-take rest [] (suc m) h = refl
merge-take [] (l ∷ ls) (suc m) h = take_all (suc (length (take m ls))) (l ∷ take m ls) (omega arith)
merge-take (o ∷ os) (l ∷ ls) (suc m) h = elim (Bool-cases (o.term == l.term)) [
  | inl same ↦
      let e = same_head o l os ls h same in
      rw (merge, same)
        (rw e
          (ap (λ (xs : List LogEntry). l ∷ xs) (merge-take os ls m (Matching-tail (rw e at h)))))
  | inr differ ↦
      rw (merge, differ) (take_all (suc (length (take m ls))) (l ∷ take m ls) (omega arith))
]

-- and matches the leader's log again.
pub merge-Matching :
    (rest ls : List LogEntry) (m : ℕ) → Matching rest ls → Matching (merge rest (take m ls)) ls
unfolding merge
merge-Matching [] ls zero h = h
merge-Matching (o ∷ os) ls zero h = h
merge-Matching [] [] (suc m) h = h
merge-Matching (o ∷ os) [] (suc m) h = h
merge-Matching [] (l ∷ ls) (suc m) h = Matching-take (suc m) (l ∷ ls)
merge-Matching (o ∷ os) (l ∷ ls) (suc m) h = elim (Bool-cases (o.term == l.term)) [
  | inl same ↦
      let e = same_head o l os ls h same in
      rw (merge, same) (rw e (Matching-cons l (merge-Matching os ls m (Matching-tail (rw e at h)))))
  | inr differ ↦ rw (merge, differ) (Matching-take (suc m) (l ∷ ls))
]

-- Behind a common front `p`, with `m` entries of the leader's sent.
pub merge-prefix :
    (p rest ls : List LogEntry) (m : ℕ)
    → Matching (p ++ rest) (p ++ ls)
    → (take (length p + length (take m ls)) (p ++ merge rest (take m ls))
        ≡ take (length p + length (take m ls)) (p ++ ls))
      × Matching (p ++ merge rest (take m ls)) (p ++ ls)
merge-prefix p rest ls m h = (
  take_past p (merge rest (take m ls)) (length (take m ls))
      ∙ ap (λ xs. p ++ xs) (merge-take rest ls m behind ∙ sym (take-length-take m ls))
      ∙ sym (take_past p ls (length (take m ls))),
  Matching-front p (merge-Matching rest ls m behind),
)
  where
    behind : Matching rest ls
    behind = Matching-behind p h
