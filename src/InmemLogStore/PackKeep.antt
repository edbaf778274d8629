-- ===== src/InmemLogStore/PackKeep.antt =====
-- Whatever bytes `apply_pack` of examples/in_memory_log_store.cxx is given at the end of a store
-- without gaps, the store has none afterwards.
use nu_raft.Common.{
  ℕ, zero, suc, ◌+◌, ◌^◌, ◌≡◌, ◌≤◌, refl, ap, sym, ◌∙◌, arith, Bool, true, false, Option, none,
  some, List, [], ◌∷◌, ◌++◌, length, length-append, append_assoc, append-nil, Result, ok, throw,
  ltb, lt→ltb, ◌==◌, if◌then◌else◌, Exception, ◌>>=◌, ◌⊎◌, inl, inr,
}
use nu_raft.Buffer
use nu_raft.Buffer.{Buffer}
use nu_raft.Buffer.Put.{filled}
use nu_raft.Raft.Types.{LogEntry}
use nu_raft.Raft.LogStore.{LogPack}
use nu_raft.InmemLogStore.{InmemLogStore, dummy, next_slot}
use nu_raft.InmemLogStore.Entries.{Holds, number}
use nu_raft.InmemLogStore.Interface.{HeldStore, inmem, assign-Holds, next_slot-Holds}
use nu_raft.InmemLogStore.Pack.{pack, get_entry, apply_entries, first_index, apply_pack}

Result-cases {ℓ} :
    {A : Type ℓ} (r : Result A) → ((a : A) × (r ≡ ok a)) ⊎ ((e : Exception) × (r ≡ throw e))
Result-cases (ok a) = inl (a, refl)
Result-cases (throw e) = inr (e, refl)

-- Where an exception stops the loop, nothing is said.
abbrev Kept : ℕ → List LogEntry → Result (List (ℕ × LogEntry)) → Type 0
Kept k fs (ok logs) = (es : List LogEntry) × (logs ≡ (0, dummy) ∷ number k (fs ++ es))
Kept k fs (throw e) = Unit

Kept-one :
    (k : ℕ) (fs : List LogEntry) (d : LogEntry) (r : Result (List (ℕ × LogEntry)))
    → Kept k (fs ++ (d ∷ [])) r
    → Kept k fs r
Kept-one k fs d (ok logs) (es, same) = (
  d ∷ es,
  same ∙ ap (λ (xs : List LogEntry). (0, dummy) ∷ number k xs) (append_assoc fs (d ∷ []) es),
)
Kept-one k fs d (throw e) kept = tt

apply_entries-Kept :
    (n : ℕ) (fs : List LogEntry) (k idx : ℕ) (b : Buffer)
    → idx ≡ k + length fs
    → 1 ≤ k
    → Kept k fs (apply_entries idx n b ((0, dummy) ∷ number k fs))
unfolding apply_entries
apply_entries-Kept zero fs k idx b at pos =
    ([], ap (λ (xs : List LogEntry). (0, dummy) ∷ number k xs) (sym (append-nil fs)))
apply_entries-Kept (suc n) fs k idx b at pos = elim (Result-cases (get_entry b)) [
  | inr (x, bad) ↦ rw bad tt
  | inl ((d, b1), good) ↦
      rw (good, assign-Holds k fs d idx at pos)
        (Kept-one k fs d (apply_entries (idx + 1) n b1 ((0, dummy) ∷ number k (fs ++ (d ∷ [])))) (
          apply_entries-Kept n (fs ++ (d ∷ [])) k (idx + 1) b1
            (omega (arith, at, length-append fs (d ∷ []))) pos))
]

-- `first_index` may move the start of a store that holds nothing.
first-Holds :
    (k : ℕ) (es : List LogEntry)
    → 1 ≤ k
    → Holds
        (record {
          logs = (0, dummy) ∷ number k es;
          start_idx = first_index ((0, dummy) ∷ number k es);
        })
        es
unfolding first_index number
first-Holds k [] pos = record { start_pos = omega arith; logs_lem = refl }
first-Holds k (e ∷ es) pos = rw (lt→ltb 0 k pos) (record { start_pos = pos; logs_lem = refl })

-- The store holds what it held, and more.
abbrev KeptStore : List LogEntry → Result InmemLogStore → Type 0
KeptStore fs (ok t) = (es : List LogEntry) × Holds t (fs ++ es)
KeptStore fs (throw e) = Unit

applied-KeptStore :
    (k : ℕ) (fs : List LogEntry) (r : Result (List (ℕ × LogEntry)))
    → 1 ≤ k
    → Kept k fs r
    → KeptStore fs (r >>= λ logs. ok (record { logs = logs; start_idx = first_index logs }))
applied-KeptStore k fs (throw e) pos kept = tt
applied-KeptStore k fs (ok logs) pos (es, same) = (es, rw same (first-Holds k (fs ++ es) pos))

pub apply_pack-KeptStore :
    (idx : ℕ) (bytes : List ℕ) (fs : List LogEntry) (t : InmemLogStore)
    → Holds t fs
    → idx ≡ t.start_idx + length fs
    → KeptStore fs (apply_pack idx bytes t)
unfolding apply_pack
apply_pack-KeptStore idx bytes fs t h at =
    elim (Result-cases (filled (λ i. 0) (Buffer.put_raw bytes) (length bytes))) [
      | inr (x, bad) ↦ rw bad tt
      | inl (b, good) ↦ rw good (elim (Result-cases (Buffer.get_int b)) [
        | inr (x, bad) ↦ rw bad tt
        | inl ((num, b1), read) ↦
            rw (read, h.logs_lem)
              (applied-KeptStore t.start_idx fs _ h.start_pos (
                apply_entries-Kept (if ltb num (2 ^ 31) then num else 0) fs t.start_idx idx b1 at
                  h.start_pos))
      ])
    ]

apply_kept : (h : HeldStore) (r : Result InmemLogStore) → KeptStore h.held r → Option HeldStore
apply_kept h (throw e) kept = none
apply_kept h (ok t) (es, holds) = some (record { store = t; held = h.held ++ es; holds = holds })

-- A pack that is not for the end of the store, of which nothing is promised, is refused.
pub apply_at :
    (idx : ℕ) (bytes : List ℕ) (h : HeldStore) (b : Bool)
    → (idx == next_slot h.store) ≡ b
    → Option HeldStore
apply_at idx bytes h false elsewhere = none
apply_at idx bytes h true here = apply_kept h (apply_pack idx bytes h.store) (
    apply_pack-KeptStore idx bytes h.held h.store h.holds
      (ground (arith, here, next_slot-Holds h.store h.held h.holds)))

pub bytes_of : Result (List ℕ) → Option (List ℕ)
bytes_of (ok bytes) = some bytes
bytes_of (throw e) = none

abbrev pub inmem_pack : LogPack inmem
inmem_pack = record {
  pack = λ index cnt h. bytes_of (pack index cnt h.store);
  apply_pack = λ idx bytes h. apply_at idx bytes h (idx == next_slot h.store) refl;
}
