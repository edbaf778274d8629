-- ===== src/Raft/EntryFormat.antt =====
-- The bytes of a log entry: `serialize` and `deserialize` of include/libnuraft/log_entry.hxx, and
-- the numbers of include/libnuraft/log_val_type.hxx.
use nu_raft.Common.{
  ℕ, ◌+◌, ◌^◌, ◌<◌, ◌≡◌, refl, arith, List, [], ◌∷◌, ◌++◌, length, ◌==◌, if◌then◌else◌, Result, ok,
  throw, fault, ◌>>=◌,
}
use nu_raft.Buffer
use nu_raft.Buffer.{Buffer, shifted_bytes}
use nu_raft.Buffer.Cursor.{At, rest_of-At}
use nu_raft.Buffer.Put.{
  Writes, filled, filled_lem, then-Writes, put_ulong-Writes, put_byte-Writes, put_raw-Writes,
}
use nu_raft.Buffer.Get.{get_ulong-Reads, get_byte-Reads}
use nu_raft.Raft.Types.{
  LogValType, app_log, conf, cluster_server, log_pack, snp_sync_req, custom, LogEntry,
}

unfoldable pub val_type_byte : LogValType → ℕ
val_type_byte app_log = 1
val_type_byte conf = 2
val_type_byte cluster_server = 3
val_type_byte log_pack = 4
val_type_byte snp_sync_req = 5
val_type_byte custom = 231

-- The cast of another byte is no value of the enum.
val_type_of : ℕ → Result LogValType
val_type_of t =
    if t == 1
    then ok app_log
    else if t == 2
    then ok conf
    else if t == 3
    then ok cluster_server
    else if t == 4
    then ok log_pack
    else if t == 5
    then ok snp_sync_req
    else if t == 231
    then ok custom
    else throw fault

put_entry : LogEntry → Buffer → Result Buffer
unfolding val_type_byte
put_entry e b = do
  b1 ← Buffer.put_ulong e.term b
  b2 ← Buffer.put_byte (val_type_byte e.value_type) b1
  Buffer.put_raw e.buff b2

unfoldable pub serialize_entry : LogEntry → Result Buffer
unfolding put_entry filled
serialize_entry e = filled (λ i. 0) (put_entry e) (8 + 1 + length e.buff)

-- The bytes behind the type are copied.
unfoldable pub deserialize_entry : Buffer → Result LogEntry
unfolding val_type_of
deserialize_entry b = do
  (term, b1) ← Buffer.get_ulong b
  (t, b2) ← Buffer.get_byte b1
  value_type ← val_type_of t
  ok (record { term = term; value_type = value_type; buff = Buffer.rest_of b2 })

unfoldable pub encode_entry : LogEntry → List ℕ
unfolding val_type_byte shifted_bytes
encode_entry e = shifted_bytes 8 0 e.term ++ ((val_type_byte e.value_type ∷ []) ++ e.buff)

pub length-encode_entry : (e : LogEntry) → length (encode_entry e) ≡ 8 + 1 + length e.buff
unfolding encode_entry shifted_bytes
length-encode_entry e = omega arith

put_entry-Writes : (e : LogEntry) → Writes (put_entry e) (encode_entry e)
unfolding put_entry encode_entry
put_entry-Writes e =
    then-Writes _ _ _ _ (put_ulong-Writes e.term)
      (then-Writes _ _ _ _ (put_byte-Writes (val_type_byte e.value_type)) (put_raw-Writes e.buff))

pub serialize-encode_entry :
    (e : LogEntry)
    → length (encode_entry e) < 2 ^ 31
    → (b : Buffer) × (serialize_entry e ≡ ok b) × At b [] (encode_entry e)
unfolding serialize_entry
serialize-encode_entry e small =
    let (b, same, a) =
      filled_lem (λ i. 0) (put_entry e) (encode_entry e) (put_entry-Writes e) small in
    (b, rw (← length-encode_entry e) same, a)

val_type_round_trip : (t : LogValType) → val_type_of (val_type_byte t) ≡ ok t
unfolding val_type_of val_type_byte
val_type_round_trip app_log = refl
val_type_round_trip conf = refl
val_type_round_trip cluster_server = refl
val_type_round_trip log_pack = refl
val_type_round_trip snp_sync_req = refl
val_type_round_trip custom = refl

pub deserialize-encode_entry :
    (e : LogEntry) (b : Buffer)
    → e.term < 2 ^ 64
    → At b [] (encode_entry e)
    → deserialize_entry b ≡ ok e
unfolding deserialize_entry encode_entry
deserialize-encode_entry e b fits a =
    let tail = (val_type_byte e.value_type ∷ []) ++ e.buff in
    let (b1, r1, a1) = get_ulong-Reads e.term fits b [] tail a in
    let (b2, r2, a2) =
      get_byte-Reads (val_type_byte e.value_type) b1 (shifted_bytes 8 0 e.term) e.buff a1 in
    rw (r1, r2, val_type_round_trip e.value_type, rest_of-At b2 _ e.buff a2) refl
