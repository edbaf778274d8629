-- ===== src/Snapshot/RoundTrip.antt =====
-- What src/snapshot.cxx writes, it reads back.
use nu_raft.Common.{
  ℕ, ◌+◌, ◌*◌, ◌^◌, ◌<◌, ◌≡◌, ap, ◌∙◌, arith, List, [], ◌∷◌, ◌++◌, length, ok, append-nil,
}
use nu_raft.Buffer
use nu_raft.Buffer.{Buffer, shifted_bytes}
use nu_raft.Buffer.Cursor.{At, size-At}
use nu_raft.Buffer.Put.{
  Writes, filled, filled_lem, then-Writes, put_byte-Writes, put_ulong-Writes, put_buffer-Writes,
}
use nu_raft.Serializer.{Serializer, little, open_buffer, put_bytes_of}
use nu_raft.Serializer.Gets.{
  Reads, open_buffer-At, then-Reads, last-Reads, get_u8-Reads, get_u64-Reads,
}
use nu_raft.Config.Format.{encode_cluster, serialize-encode_cluster, ulong_bytes}
use nu_raft.Config.RoundTrip.{IsCluster, deserialize_cluster_config-Reads}
use nu_raft.Snapshot.{Snapshot, put_snapshot, serialize_snapshot, deserialize_snapshot}

-- The fields fit their machine types, and the whole fits a buffer.
pub record IsSnapshot (s : Snapshot) : Type 0 where
  pub type_fits : s.snp_type < 2 ^ 8
  pub idx_fits : s.last_log_idx < 2 ^ 64
  pub term_fits : s.last_log_term < 2 ^ 64
  pub size_fits : s.size < 2 ^ 64
  pub config_fits : IsCluster s.last_config
  pub small : length (encode_cluster s.last_config) + 25 < 2 ^ 31

unfoldable pub encode_snapshot : Snapshot → List ℕ
encode_snapshot s =
    (s.snp_type ∷ [])
    ++ (ulong_bytes s.last_log_idx
        ++ (ulong_bytes s.last_log_term ++ (ulong_bytes s.size ++ encode_cluster s.last_config)))

length-encode_snapshot :
    (s : Snapshot) → length (encode_snapshot s) ≡ length (encode_cluster s.last_config) + 8 * 3 + 1
unfolding encode_snapshot shifted_bytes
length-encode_snapshot s = omega arith

put_snapshot-Writes :
    (s : Snapshot) (conf_buf : Buffer)
    → At conf_buf [] (encode_cluster s.last_config)
    → Writes (put_snapshot s conf_buf) (encode_snapshot s)
unfolding put_snapshot encode_snapshot
put_snapshot-Writes s conf_buf a = then-Writes _ _ _ _ (put_byte-Writes s.snp_type) (
    then-Writes _ _ _ _ (put_ulong-Writes s.last_log_idx) (
      then-Writes _ _ _ _ (put_ulong-Writes s.last_log_term)
        (then-Writes _ _ _ _ (put_ulong-Writes s.size) (put_buffer-Writes conf_buf _ _ a))))

pub serialize-encode_snapshot :
    (heap : ℕ → ℕ) (s : Snapshot)
    → IsSnapshot s
    → (b : Buffer) × (serialize_snapshot heap s ≡ ok b) × At b [] (encode_snapshot s)
unfolding serialize_snapshot
serialize-encode_snapshot heap s v =
    let (conf_buf, done, a) = serialize-encode_cluster heap s.last_config v.config_fits.small in
    let (b, e, at) =
      filled_lem heap (put_snapshot s conf_buf) (encode_snapshot s)
        (put_snapshot-Writes s conf_buf a) (omega (arith, length-encode_snapshot s, v.small)) in
    (
      b,
      rw done (
          ap (filled heap (put_snapshot s conf_buf))
            (omega (arith, length-encode_snapshot s, size-At conf_buf [] _ a))
          ∙ e),
      at,
    )

pub deserialize_snapshot-Reads :
    (s : Snapshot) → IsSnapshot s → Reads little deserialize_snapshot s (encode_snapshot s)
unfolding deserialize_snapshot encode_snapshot put_bytes_of
deserialize_snapshot-Reads s v =
    then-Reads little _ _ s.snp_type _ _ _ (get_u8-Reads little s.snp_type v.type_fits) (
      then-Reads little _ _ s.last_log_idx _ _ _ (get_u64-Reads little s.last_log_idx v.idx_fits) (
        then-Reads little _ _ s.last_log_term _ _ _
          (get_u64-Reads little s.last_log_term v.term_fits)
          (then-Reads little _ _ s.size _ _ _ (get_u64-Reads little s.size v.size_fits) (
            last-Reads little _ _ s.last_config _
              (deserialize_cluster_config-Reads s.last_config v.config_fits)))))

-- Serializing the description of a snapshot whose fields fit succeeds, and deserializing the buffer
-- gives it back and consumes the whole buffer.
pub deserialize-serialize_snapshot :
    (heap : ℕ → ℕ) (s : Snapshot)
    → IsSnapshot s
    → (b : Buffer) × (serialize_snapshot heap s ≡ ok b)
      × ((t : Serializer) × (deserialize_snapshot (open_buffer little b) ≡ ok (s, t))
          × (t.cursor ≡ Buffer.size b))
deserialize-serialize_snapshot heap s v =
    let (b, e, a) = serialize-encode_snapshot heap s v in
    let opened = open_buffer-At little b (encode_snapshot s) a in
    let (t, r, at, same) =
      deserialize_snapshot-Reads s v (open_buffer little b) [] [] opened.1
        (rw append-nil opened.0) in
    (b, e, (t, r, omega (arith, at.here, size-At b [] (encode_snapshot s) a)))
