-- ===== src/Raft/Vote/Compacted.antt =====
-- The check of the candidate's log in `handle_vote_req` (src/handle_vote.cxx) on the store of
-- examples/in_memory_log_store.cxx when all its entries are compacted into a snapshot.
use nu_raft.Common.{
  ℕ, ◌≡◌, ◌≤◌, refl, ap, ◌∙◌, arith, true, false, some, none, [], ◌∷◌, ◌==◌, Bool-cases, inl, inr,
}
use nu_raft.Raft.Types.{LogEntry, ReqMsg, no_server}
use nu_raft.Raft.Server.{Server}
use nu_raft.Raft.Vote.{is_up_to_date, can_grant}
use nu_raft.InmemLogStore.{InmemLogStore, dummy, find, find_or_dummy, last_entry}
use nu_raft.InmemLogStore.Entries.{number}
use nu_raft.InmemLogStore.Interface.{HeldStore, inmem}

-- Where only the dummy entry is left, every search ends at it.
find_or_dummy-dummy :
    (k : ℕ) (s : InmemLogStore) → s.logs ≡ (0, dummy) ∷ [] → find_or_dummy k s ≡ dummy
unfolding find_or_dummy find
find_or_dummy-dummy k s only = elim (Bool-cases (k == 0)) [
  | inl here ↦ rw (find_or_dummy, found here) refl
  | inr far ↦ rw (find_or_dummy, missing far, zero_found)
]
  where
    found : (k == 0) ≡ true → find k s.logs ≡ some dummy
    found here = rw (only, here) refl

    missing : (k == 0) ≡ false → find k s.logs ≡ none
    missing far = rw (only, far) refl

    zero_found : find 0 s.logs ≡ some dummy
    zero_found = rw only refl

last_entry-empty : (h : HeldStore) → h.held ≡ [] → last_entry h.store ≡ dummy
unfolding last_entry number
last_entry-empty h none_left =
    find_or_dummy-dummy _ h.store
      (h.holds.logs_lem ∙ ap (λ es. (0, dummy) ∷ number h.store.start_idx es) none_left)

-- A server whose log is compacted away altogether, and that has not voted in the term, takes any
-- candidate of the term whose last entry has a term above zero for one that it can vote for. Neither
-- the candidate's last index nor the server's last snapshot counts.
pub can_grant-compacted :
    (req : ReqMsg) (s : Server HeldStore)
    → s.log_store.held ≡ []
    → req.term ≡ s.state.term
    → 1 ≤ req.last_log_term
    → s.state.voted_for ≡ no_server
    → can_grant inmem req s ≡ true
unfolding can_grant is_up_to_date
can_grant-compacted req s empty same above open_vote = ground (
  arith,
  same,
  above,
  open_vote,
  ap (λ (e : LogEntry). e.term) (last_entry-empty s.log_store empty),
)
