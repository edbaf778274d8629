-- ===== src/Raft/Leader/Request.antt =====
-- What `create_append_entries_req` of src/handle_append_entries.cxx sends to a peer.
use nu_raft.Common.{
  ℕ, ◌+◌, ◌-◌, ◌≡◌, ◌≤◌, ◌<◌, refl, ap, ◌∙◌, arith, true, false, some, length, take, drop, leb,
  ◌==◌, Bool-cases, inl, inr, if◌then◌else◌,
}
use nu_raft.Raft.Types.{append_entries_request}
use nu_raft.Raft.LogStore.{LogStore}
use nu_raft.Raft.Server.{Server, Peer}
use nu_raft.Raft.Follower.{term_for_log}
use nu_raft.Raft.Leader.{
  Message, request, new_req, known_next_idx, count_retry, read_entries, create_append_entries_req,
}

-- The index from which a peer is served.
unfoldable pub next_for : Peer → ℕ → ℕ
next_for p cur_nxt_idx = if p.next_log_idx == 0 then cur_nxt_idx else p.next_log_idx

module _ (L : LogStore) where
  open L use {
    Store, start_index, next_slot, log_entries_ext, entries, start_pos, log_entries_ext_lem,
  }

  -- A request for the entries from `skipped` places behind the start of the leader's log on.
  pub record Describes (p : Peer) (s : Server Store) (skipped : ℕ) (out : Peer × Message)
      : Type 0 where
    pub count : ℕ
    pub sent :
        out.1
        ≡ request (
            new_req s.state.term append_entries_request s.id p.id
              (term_for_log L s (start_index s.log_store + skipped - 1))
              (start_index s.log_store + skipped - 1)
              s.quick_commit_index
              (take count (drop skipped (entries s.log_store))))
    pub next_idx : out.0.next_log_idx ≡ start_index s.log_store + skipped
    pub sent_idx : out.0.last_sent_idx ≡ start_index s.log_store + skipped
    pub matched : out.0.matched_idx ≡ p.matched_idx

  read_entries-take :
      (last end_idx cur hint skipped : ℕ) (s : Server Store)
      → last + 1 ≡ start_index s.log_store + skipped
      → cur ≡ start_index s.log_store + length (entries s.log_store)
      → last < cur
      → last + 1 ≤ end_idx
      → end_idx ≤ cur
      → (m : ℕ) × (read_entries L last end_idx cur hint s
          ≡ some (take m (drop skipped (entries s.log_store))))
  unfolding read_entries
  read_entries-take last end_idx cur hint skipped s at whole inside low high =
      elim (Bool-cases (leb cur (last + 1))) [
        | inl nothing_new ↦ (0, rw (read_entries, nothing_new, reaches) refl)
        | inr more ↦
            let (m, le, got) =
              log_entries_ext_lem s.log_store skipped (end_idx - (last + 1)) hint
                (omega (arith, at, whole, low, high)) in
            let from : start_index s.log_store + skipped ≡ last + 1 = omega (arith, at) in
            let to : start_index s.log_store + skipped + (end_idx - (last + 1)) ≡ end_idx =
              omega (arith, at, low) in
            (m, rw (read_entries, more, reaches) (rw (to, from) at got))
      ]
    where
      reaches : leb (start_index s.log_store) (last + 1) ≡ true
      reaches = ground (arith, at)

  next-known_next_idx : (p : Peer) (cur : ℕ) → (known_next_idx p cur).next_log_idx ≡ next_for p cur
  unfolding known_next_idx next_for
  next-known_next_idx p cur = ground arith

  matched-known_next_idx : (p : Peer) (cur : ℕ) → (known_next_idx p cur).matched_idx ≡ p.matched_idx
  unfolding known_next_idx
  matched-known_next_idx p cur = ground arith

  end-count_retry :
      (max_size last cur : ℕ) (p : Peer)
      → last < cur
      → (last + 1 ≤ (count_retry max_size last cur p).1)
        × ((count_retry max_size last cur p).1 ≤ cur)
        × ((count_retry max_size last cur p).0.next_log_idx ≡ p.next_log_idx)
        × ((count_retry max_size last cur p).0.matched_idx ≡ p.matched_idx)
  unfolding count_retry
  end-count_retry max_size last cur p h = (ground arith, ground arith, ground arith, ground arith)

  -- Where the leader has all that the peer may lack, whatever batch size and hint apply, it sends
  -- a request of its own term that goes on in its log where the peer's known log ends: the index
  -- and the term before, then a number of the entries that follow, in order and without a gap. The
  -- peer's next index is then known to the leader, and its matched index stays.
  pub create_append_entries_req-Describes :
      (p : Peer) (s : Server Store) (skipped : ℕ)
      → s.precommit_index + 1 ≡ start_index s.log_store + length (entries s.log_store)
      → next_for p (s.precommit_index + 1) ≡ start_index s.log_store + skipped
      → skipped ≤ length (entries s.log_store)
      → Describes p s skipped (create_append_entries_req L p s)
  unfolding create_append_entries_req
  create_append_entries_req-Describes p s skipped whole from inside =
      let (low, high, same_next, same_matched) =
        end-count_retry s.params.max_append_size last cur known below in
      let (m, got) =
        read_entries-take last (count_retry s.params.max_append_size last cur known).1 cur
          p.next_batch_size_hint skipped s at whole below low high in
      let place : last ≡ start_index s.log_store + skipped - 1 = omega (arith, at) in
      rw (create_append_entries_req, not_too_large, got)
        (record {
          count = m;
          sent =
              ap
                (λ (i : ℕ). request (
                  new_req s.state.term append_entries_request s.id p.id (term_for_log L s i) i
                    s.quick_commit_index (take m (drop skipped (entries s.log_store)))))
                place;
          next_idx = same_next ∙ next;
          sent_idx = at;
          matched = same_matched ∙ matched-known_next_idx p cur;
        })
    where
      cur : ℕ
      cur = s.precommit_index + 1

      known : Peer
      known = known_next_idx p cur

      last : ℕ
      last = known.next_log_idx - 1

      next : known.next_log_idx ≡ start_index s.log_store + skipped
      next = next-known_next_idx p cur ∙ from

      at : last + 1 ≡ start_index s.log_store + skipped
      at = omega (arith, next, start_pos s.log_store)

      below : last < cur
      below = omega (arith, at, whole, inside)

      not_too_large : leb cur last ≡ false
      not_too_large = ground (arith, below)
