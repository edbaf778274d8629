-- ===== src/Snapshot/SyncReq/RoundTrip.antt =====
-- What src/snapshot_sync_req.cxx writes, it reads back.
use nu_raft.Common.{
  ℕ, ◌+◌, ◌-◌, ◌^◌, ◌<◌, ◌≡◌, refl, ap, ◌∙◌, arith, Bool, true, false, List, [], ◌∷◌, ◌++◌, length,
  length-append, append_assoc, take_all, ltb, lt→ltb, ◌==◌, if_elim, ok,
}
use nu_raft.Buffer.{Buffer, shifted_bytes}
use nu_raft.Buffer.Put.{
  Writes, filled, filled_lem, then-Writes, put_byte-Writes, put_ulong-Writes, put_buffer-Writes,
  put_raw-Writes,
}
use nu_raft.Buffer.Cursor
use nu_raft.Serializer.{Serializer, little, open_buffer, put_bytes_of, size}
use nu_raft.Serializer.Gets.{
  At, size-At, bytes_here-At, Reads, open_buffer-At, then-Reads, last-Reads, get_u8-Reads,
  get_u64-Reads,
}
use nu_raft.Config.Format.{ulong_bytes}
use nu_raft.Snapshot.RoundTrip.{
  IsSnapshot, encode_snapshot, serialize-encode_snapshot, deserialize_snapshot-Reads,
}
use nu_raft.Snapshot.SyncReq.{
  SnapshotSyncReq, done_byte, put_sync_req, serialize_sync_req, left_bytes, get_sync_head,
  deserialize_sync_req,
}

encode_head : SnapshotSyncReq → List ℕ
unfolding done_byte
encode_head r = encode_snapshot r.snapshot ++ (ulong_bytes r.offset ++ (done_byte r.done ∷ []))

unfoldable pub encode_sync_req : SnapshotSyncReq → List ℕ
unfolding done_byte
encode_sync_req r =
    encode_snapshot r.snapshot
    ++ (ulong_bytes r.offset ++ ((done_byte r.done ∷ []) ++ r.data_bytes))

-- The fields fit their machine types, and the whole fits a buffer.
pub record IsSyncReq (r : SnapshotSyncReq) : Type 0 where
  pub snapshot_fits : IsSnapshot r.snapshot
  pub offset_fits : r.offset < 2 ^ 64
  pub small : length (encode_sync_req r) < 2 ^ 31

encode_parts : (r : SnapshotSyncReq) → encode_head r ++ r.data_bytes ≡ encode_sync_req r
unfolding encode_head encode_sync_req
encode_parts r =
    append_assoc (encode_snapshot r.snapshot) (ulong_bytes r.offset ++ (done_byte r.done ∷ []))
      r.data_bytes
    ∙ ap (λ (xs : List ℕ). encode_snapshot r.snapshot ++ xs)
        (append_assoc (ulong_bytes r.offset) (done_byte r.done ∷ []) r.data_bytes)

put_sync_req-Writes :
    (r : SnapshotSyncReq) (snp_buf : Buffer)
    → Cursor.At snp_buf [] (encode_snapshot r.snapshot)
    → Writes (put_sync_req r snp_buf) (encode_sync_req r)
unfolding put_sync_req encode_sync_req
put_sync_req-Writes r snp_buf a = then-Writes _ _ _ _ (put_buffer-Writes snp_buf _ _ a) (
    then-Writes _ _ _ _ (put_ulong-Writes r.offset)
      (then-Writes _ _ _ _ (put_byte-Writes (done_byte r.done)) (put_raw-Writes r.data_bytes)))

length-encode_sync_req :
    (r : SnapshotSyncReq)
    → length (encode_sync_req r) ≡ length (encode_snapshot r.snapshot) + 8 + 1 + length r.data_bytes
unfolding encode_sync_req shifted_bytes
length-encode_sync_req r = omega (
  arith,
  length-append (encode_snapshot r.snapshot)
      (ulong_bytes r.offset ++ ((done_byte r.done ∷ []) ++ r.data_bytes)),
)

serialize-encode_sync_req :
    (heap : ℕ → ℕ) (r : SnapshotSyncReq)
    → IsSyncReq r
    → (b : Buffer) × (serialize_sync_req heap r ≡ ok b) × Cursor.At b [] (encode_sync_req r)
unfolding serialize_sync_req
serialize-encode_sync_req heap r v =
    let (snp_buf, done, a) = serialize-encode_snapshot heap r.snapshot v.snapshot_fits in
    let (b, e, at) =
      filled_lem heap (put_sync_req r snp_buf) (encode_sync_req r) (put_sync_req-Writes r snp_buf a)
        v.small in
    (
      b,
      rw done (
          ap (filled heap (put_sync_req r snp_buf))
            (omega (arith, length-encode_sync_req r, Cursor.size-At snp_buf [] _ a))
          ∙ e),
      at,
    )

done_byte_fits : (d : Bool) → done_byte d < 2 ^ 8
unfolding done_byte
done_byte_fits true = omega arith
done_byte_fits false = omega arith

done_round_trip : (d : Bool) → (done_byte d == 1) ≡ d
unfolding done_byte
done_round_trip true = refl
done_round_trip false = refl

get_sync_head-Reads :
    (r : SnapshotSyncReq)
    → IsSyncReq r
    → Reads little get_sync_head (r.snapshot, r.offset, done_byte r.done) (encode_head r)
unfolding get_sync_head encode_head put_bytes_of
get_sync_head-Reads r v =
    then-Reads little _ _ r.snapshot _ _ _ (deserialize_snapshot-Reads r.snapshot v.snapshot_fits) (
      then-Reads little _ _ r.offset _ _ _ (get_u64-Reads little r.offset v.offset_fits) (
        last-Reads little _ _ (done_byte r.done) _
          (get_u8-Reads little (done_byte r.done) (done_byte_fits r.done))))

left_bytes-At : (s : Serializer) (front back : List ℕ) → At s front back → left_bytes s ≡ back
unfolding left_bytes
left_bytes-At s front [] a =
    let none_left : size s - s.cursor ≡ 0 = omega (arith, size-At s front [] a, a.here) in
    rw none_left (if_elim (λ (xs : List ℕ). xs ≡ []) (ltb s.cursor (size s)) refl refl)
left_bytes-At s front (x ∷ xs) a =
    let total = size-At s front (x ∷ xs) a in
    let rest : size s - s.cursor ≡ length (x ∷ xs) = omega (arith, total, a.here) in
    rw
      (
        lt→ltb s.cursor (size s) (omega (arith, total, a.here)),
        rest,
        bytes_here-At s front (x ∷ xs) a,
      )
      (take_all (length (x ∷ xs)) (x ∷ xs) (omega arith))

-- Serializing a request that carries a part of a snapshot succeeds, where its fields fit their types
-- and the whole fits a buffer, and deserializing the buffer gives the request back.
pub deserialize-serialize_sync_req :
    (heap : ℕ → ℕ) (r : SnapshotSyncReq)
    → IsSyncReq r
    → (b : Buffer) × (serialize_sync_req heap r ≡ ok b)
      × (deserialize_sync_req (open_buffer little b) ≡ ok r)
unfolding deserialize_sync_req
deserialize-serialize_sync_req heap r v =
    let (b, e, a) = serialize-encode_sync_req heap r v in
    let opened = open_buffer-At little b (encode_sync_req r) a in
    let (s, read, at, same) =
      get_sync_head-Reads r v (open_buffer little b) [] r.data_bytes opened.1
        (rw (encode_parts r) opened.0) in
    (b, e, rw (read, left_bytes-At s _ r.data_bytes at, done_round_trip r.done) refl)
