-- ===== src/InmemLogStore/PackRoundTrip.antt =====
-- What `pack` of examples/in_memory_log_store.cxx takes out of one store, `apply_pack` puts behind
-- the entries of another.
use nu_raft.Common.{
  ℕ, ◌+◌, ◌^◌, ◌≡◌, ◌≤◌, ◌<◌, refl, ap, sym, arith, List, [], ◌∷◌, ◌++◌, length, length-append,
  append_assoc, append-nil, take, drop, ok, lt→ltb, length-take, length-drop,
}
use nu_raft.Buffer
use nu_raft.Buffer.{Buffer, shifted_bytes}
use nu_raft.Buffer.Cursor.{At}
use nu_raft.Buffer.Header.{alloc-IsAlloc}
use nu_raft.Buffer.Put.{filled_lem, put_raw-Writes}
use nu_raft.Buffer.Get.{Reads, get_int-Reads, get_buffer-At, sign_extend_small}
use nu_raft.Raft.Types.{LogEntry}
use nu_raft.Raft.EntryFormat.{encode_entry, deserialize-encode_entry}
use nu_raft.InmemLogStore.{InmemLogStore, dummy}
use nu_raft.InmemLogStore.Entries.{Holds, number}
use nu_raft.InmemLogStore.Interface.{assign-Holds}
use nu_raft.InmemLogStore.Pack.{pack, get_entry, apply_entries, first_index, apply_pack}
use nu_raft.InmemLogStore.PackFormat.{
  encode_each, encode_pack, length-encode_each-cons, length-encode_pack, pack-encode_pack,
}

-- The terms fit.
abbrev pub Fit : List LogEntry → Type 0
Fit [] = Unit
Fit (e ∷ es) = (e.term < 2 ^ 64) × Fit es

get_entry-Reads :
    (e : LogEntry)
    → e.term < 2 ^ 64
    → length (encode_entry e) < 2 ^ 31
    → Reads get_entry e (shifted_bytes 4 0 (length (encode_entry e)) ++ encode_entry e)
unfolding get_entry
get_entry-Reads e fits small b front back a =
    let bytes = encode_entry e in
    let len = length bytes in
    let (b1, r1, a1) =
      get_int-Reads len (omega (arith, small)) b front (bytes ++ back)
        (rw (← append_assoc (shifted_bytes 4 0 len) bytes back) a) in
    let (room, r2, new) = alloc-IsAlloc (λ i. 0) len small in
    let (c, b2, r3, a3, a2) =
      get_buffer-At room b1 room.bytes (front ++ shifted_bytes 4 0 len) bytes back
        (record { valid = new.valid; holds = refl; here = new.at_front })
        (omega (arith, new.valid.area, new.of_size)) a1 in
    (
      b2,
      rw (r1, sign_extend_small len small, r2, r3, deserialize-encode_entry e c fits a3) refl,
      rw (← append_assoc front (shifted_bytes 4 0 len) bytes) a2,
    )

apply_entries-number :
    (es fs : List LogEntry) (k idx : ℕ) (b : Buffer) (front : List ℕ)
    → idx ≡ k + length fs
    → 1 ≤ k
    → Fit es
    → length (encode_each es) < 2 ^ 31
    → At b front (encode_each es)
    → apply_entries idx (length es) b ((0, dummy) ∷ number k fs)
      ≡ ok ((0, dummy) ∷ number k (fs ++ es))
unfolding apply_entries
apply_entries-number [] fs k idx b front at pos fits small a =
    ap (λ (xs : List LogEntry). ok ((0, dummy) ∷ number k xs)) (sym (append-nil fs))
apply_entries-number (e ∷ es) fs k idx b front at pos (fit, fits) small a =
    let own = length-encode_each-cons e es in
    let head = shifted_bytes 4 0 (length (encode_entry e)) ++ encode_entry e in
    let (b', r, a') =
      get_entry-Reads e fit (omega (arith, small, own)) b front (encode_each es) (apart a) in
    rw (r, assign-Holds k fs e idx at pos, ← append_assoc fs (e ∷ []) es)
      (apply_entries-number es (fs ++ (e ∷ [])) k (idx + 1) b' (front ++ head)
        (omega (arith, at, length-append fs (e ∷ []))) pos fits (omega (arith, small, own)) a')
  where
    apart :
        At b front (encode_each (e ∷ es))
        → At b front
            ((shifted_bytes 4 0 (length (encode_entry e)) ++ encode_entry e) ++ encode_each es)
    apart a =
        rw
          (append_assoc (shifted_bytes 4 0 (length (encode_entry e))) (encode_entry e)
            (encode_each es))
          (unfold encode_each in a)

first_index-number :
    (k : ℕ) (es : List LogEntry)
    → 1 ≤ k
    → 1 ≤ length es
    → first_index ((0, dummy) ∷ number k es) ≡ k
unfolding first_index number
first_index-number k [] pos some_there = absurd (omega (arith, some_there))
first_index-number k (e ∷ es) pos some_there = rw (lt→ltb 0 k pos) refl

apply-encode_pack :
    (t : InmemLogStore) (fs es : List LogEntry)
    → Holds t fs
    → 1 ≤ length es
    → Fit es
    → length (encode_pack es) < 2 ^ 31
    → (t' : InmemLogStore) × (apply_pack (t.start_idx + length fs) (encode_pack es) t ≡ ok t')
      × Holds t' (fs ++ es)
      × (t'.start_idx ≡ t.start_idx)
unfolding apply_pack
apply-encode_pack t fs es h some_there fits small =
    let own = length-encode_pack es in
    let (b, r, a) =
      filled_lem (λ i. 0) (Buffer.put_raw (encode_pack es)) (encode_pack es)
        (put_raw-Writes (encode_pack es)) small in
    let (b1, r1, a1) =
      get_int-Reads (length es) (omega (arith, count, small, own)) b [] (encode_each es)
        (unfold encode_pack in a) in
    let r2 =
      apply_entries-number es fs t.start_idx (t.start_idx + length fs) b1 _ refl h.start_pos fits
        (omega (arith, small, own)) a1 in
    let first =
      first_index-number t.start_idx (fs ++ es) h.start_pos
        (omega (arith, some_there, length-append fs es)) in
    (
      record { logs = (0, dummy) ∷ number t.start_idx (fs ++ es); start_idx = t.start_idx },
      rw
          (
            r,
            r1,
            lt→ltb (length es) (2 ^ 31) (omega (arith, count, small, own)),
            h.logs_lem,
            r2,
            first,
          )
          refl,
      record { start_pos = h.start_pos; logs_lem = refl },
      refl,
    )
  where
    each : (xs : List LogEntry) → length xs ≤ length (encode_each xs)
    each [] = omega arith
    each (x ∷ xs) = omega (arith, each xs, length-encode_each-cons x xs)

    count : length es ≤ length (encode_each es)
    count = each es

-- A store that holds entries without a gap packs some of them, at least one, into fewer than 2 ^ 31
-- bytes. Another store whose entries end where the pack begins applies the pack: behind its own
-- entries it holds those, without a gap, and it starts where it started.
pub apply_pack-pack :
    (s t : InmemLogStore) (es fs : List LogEntry) (i n : ℕ)
    → Holds s es
    → Holds t fs
    → t.start_idx + length fs ≡ s.start_idx + i
    → 1 ≤ n
    → i + n ≤ length es
    → Fit (take n (drop i es))
    → length (encode_pack (take n (drop i es))) < 2 ^ 31
    → (bytes : List ℕ) × (t' : InmemLogStore) × (pack (s.start_idx + i) n s ≡ ok bytes)
      × (apply_pack (s.start_idx + i) bytes t ≡ ok t')
      × Holds t' (fs ++ take n (drop i es))
      × (t'.start_idx ≡ t.start_idx)
apply_pack-pack s t es fs i n hs ht at some_there inside fits small =
    let (t', applied, holds, start) =
      apply-encode_pack t fs (take n (drop i es)) ht
        (omega (arith, some_there, inside, length-take n (drop i es), length-drop i es)) fits
        small in
    (
      encode_pack (take n (drop i es)),
      t',
      pack-encode_pack s es i n hs inside small,
      rw (← at) applied,
      holds,
      start,
    )
