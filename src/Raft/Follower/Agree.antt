-- ===== src/Raft/Follower/Agree.antt =====
-- After `handle_append_entries` (src/handle_append_entries.cxx) accepts, the log agrees with the
-- leader's entries.
use nu_raft.Common.{
  ℕ, ◌+◌, ◌≡◌, ◌≢◌, refl, ap, arith, true, false, List, [], ◌∷◌, ◌++◌, length, take, drop, take_all,
  take_front, drop_front, map, ◌==◌, ==_iff, Bool-cases, inl, inr,
}
use nu_raft.Raft.Types.{LogEntry, ReqMsg, leader}
use nu_raft.Raft.LogStore.{LogStore}
use nu_raft.Raft.Server.{Server}
use nu_raft.Raft.Follower.{Answers, log_okay, handle_append_entries}
use nu_raft.Raft.Follower.Merge.{merge}
use nu_raft.Raft.Follower.Replicate.{handle_append_entries-Accepted}

abbrev pub terms : List LogEntry → List ℕ
terms es = map (λ (e : LogEntry). e.term) es

terms-merge : (olds es : List LogEntry) → terms (take (length es) (merge olds es)) ≡ terms es
unfolding merge
terms-merge [] [] = refl
terms-merge (o ∷ os) [] = refl
terms-merge [] (e ∷ es) = ap terms (take_all (length (e ∷ es)) (e ∷ es) (omega arith))
terms-merge (o ∷ os) (e ∷ es) = elim (Bool-cases (o.term == e.term)) [
  | inl same ↦
      rw (merge, same, terms-merge os es)
        (ap (λ (t : ℕ). t ∷ terms es) ((==_iff o.term e.term).0 same))
  | inr differ ↦ rw (merge, differ) (ap terms (take_all (length (e ∷ es)) (e ∷ es) (omega arith)))
]

module _ (L : LogStore) where
  open L use {Store, start_index, entries}

  -- A server that is not stopping and does not lead gets a request of its own term whose previous
  -- entry it has, whose entries begin inside the log or right behind it, and which the application
  -- does not decline. Then the entries before the request's are as before, and from there on the log
  -- has entries of the request's terms.
  pub handle_append_entries-terms :
      (req : ReqMsg) (answers : Answers) (s : Server Store) (pre rest : List LogEntry)
      → s.role ≢ leader
      → s.stopping ≡ false
      → req.term ≡ s.state.term
      → log_okay L req s ≡ true
      → answers.entries_accepted ≡ true
      → entries s.log_store ≡ pre ++ rest
      → req.last_log_idx + 1 ≡ start_index s.log_store + length pre
      → let log = entries (handle_append_entries L req answers s).0.log_store in
        (take (length pre) log ≡ pre)
        × (terms (take (length req.log_entries) (drop (length pre) log)) ≡ terms req.log_entries)
  handle_append_entries-terms req answers s pre rest not_leader run same okay taken e at =
      let accepted =
        handle_append_entries-Accepted L req answers s pre rest not_leader run same okay taken e
          at in
      (
        rw accepted.log (take_front pre (merge rest req.log_entries)),
        rw (accepted.log, drop_front pre (merge rest req.log_entries))
            (terms-merge rest req.log_entries),
      )
