-- ===== src/Raft/Notification/RoundTrip.antt =====
-- What src/handle_custom_notification.cxx writes, it reads back, and which bytes these are.
use nu_raft.Common.{
  ℕ, ◌+◌, ◌^◌, ◌<◌, ◌≡◌, ◌≢◌, refl, ap, ◌∙◌, arith, Option, none, some, List, [], ◌∷◌, ◌++◌, length,
  ok, length-append,
}
use nu_raft.Buffer.{Buffer, shifted_bytes}
use nu_raft.Serializer
use nu_raft.Serializer.{Serializer, little, open_buffer, put_bytes_of}
use nu_raft.Serializer.Bytes.{length-put_bytes_of}
use nu_raft.Serializer.Puts.{
  put_raw-Writes, Writes, then-Writes, put_u8-Writes, put_u32-Writes, put_u64-Writes,
  put_bytes-Writes,
}
use nu_raft.Serializer.Gets.{
  Reads, then-Reads, last-Reads, get_u8-Reads, get_u64-Reads, get_bytes-Reads,
}
use nu_raft.Serializer.Written.{read_written}
use nu_raft.Raft.Notification.{
  notification_of, CustomNotification, ctx_size, put_ctx, put_notification, serialize_notification,
  as_ctx, get_notification, deserialize_notification, put_out_of_log, serialize_out_of_log,
  get_out_of_log, deserialize_out_of_log, ctx_bytes, notification_bytes,
}

put_ctx-Writes : (c : Option (List ℕ)) → Writes little (put_ctx c) (ctx_bytes c)
unfolding put_ctx ctx_bytes
put_ctx-Writes none = put_u32-Writes little 0
put_ctx-Writes (some bytes) = put_bytes-Writes little bytes

length-ctx_bytes : (c : Option (List ℕ)) → length (ctx_bytes c) ≡ 4 + ctx_size c
unfolding ctx_bytes ctx_size
length-ctx_bytes none = length-put_bytes_of little 4 0
length-ctx_bytes (some bytes) =
    length-append (put_bytes_of little 4 (length bytes)) bytes
    ∙ ap (λ n. n + length bytes) (length-put_bytes_of little 4 (length bytes))

put_notification-Writes :
    (m : CustomNotification) → Writes little (put_notification m) (notification_bytes m)
unfolding put_notification notification_bytes
put_notification-Writes m =
    then-Writes little _ _ (0 ∷ []) ((m.notification_type ∷ []) ++ ctx_bytes m.ctx)
      (put_u8-Writes little 0)
      (then-Writes little _ _ (m.notification_type ∷ []) (ctx_bytes m.ctx)
        (put_u8-Writes little m.notification_type) (put_ctx-Writes m.ctx))

-- The type is one byte, and a context that is there is not empty and not too long.
pub record IsNotification (m : CustomNotification) : Type 0 where
  pub type_fits : m.notification_type < 2 ^ 8
  pub ctx_fits : 6 + ctx_size m.ctx < 2 ^ 31
  pub ctx_filled : m.ctx ≢ some []

read_ctx : Option (List ℕ) → List ℕ
read_ctx none = []
read_ctx (some bytes) = bytes

read_ctx-Reads :
    (c : Option (List ℕ))
    → ctx_size c < 2 ^ 32
    → Reads little Serializer.get_bytes (read_ctx c) (ctx_bytes c)
unfolding read_ctx ctx_bytes ctx_size put_bytes_of shifted_bytes
read_ctx-Reads none h = get_bytes-Reads little [] (omega arith)
read_ctx-Reads (some bytes) h = get_bytes-Reads little bytes h

as_ctx-read_ctx : (c : Option (List ℕ)) → c ≢ some [] → as_ctx (read_ctx c) ≡ c
unfolding as_ctx read_ctx
as_ctx-read_ctx none h = refl
as_ctx-read_ctx (some []) h = absurd (h refl)
as_ctx-read_ctx (some (b ∷ bs)) h = refl

get_notification-Reads :
    (m : CustomNotification)
    → IsNotification m
    → Reads little get_notification
        (record { notification_type = m.notification_type; ctx = as_ctx (read_ctx m.ctx) })
        (notification_bytes m)
unfolding get_notification notification_bytes
get_notification-Reads m v = then-Reads little _ _ 0 _ _ _ (get_u8-Reads little 0 (omega arith)) (
    then-Reads little _ _ m.notification_type _ _ _
      (get_u8-Reads little m.notification_type v.type_fits)
      (last-Reads little _ _ (read_ctx m.ctx) _ (read_ctx-Reads m.ctx (omega (arith, v.ctx_fits)))))

length-notification_bytes :
    (m : CustomNotification) → length (notification_bytes m) ≡ 1 + 1 + 4 + ctx_size m.ctx
unfolding notification_bytes
length-notification_bytes m = omega (arith, length-ctx_bytes m.ctx)

-- A notification of a one-byte type, whose context is missing or neither empty nor too long, is
-- serialized, and deserializing the buffer gives it back.
pub deserialize-serialize_notification :
    (heap : ℕ → ℕ) (m : CustomNotification)
    → IsNotification m
    → (b : Buffer) × (serialize_notification heap m ≡ ok b) × (deserialize_notification b ≡ ok m)
unfolding serialize_notification deserialize_notification
deserialize-serialize_notification heap m v =
    let (b, done, (s, got, _)) =
      read_written heap (put_notification m) get_notification _ _ (1 + 1 + 4 + ctx_size m.ctx)
        (put_notification-Writes m) (get_notification-Reads m v) (length-notification_bytes m)
        (omega (arith, v.ctx_fits)) in
    (
      b,
      done,
      rw got (
          ap (λ (c : Option (List ℕ)). ok (record m { ctx = c }))
            (as_ctx-read_ctx m.ctx v.ctx_filled)),
    )

-- What an entry holds as bytes is read as the notification it was.
pub notification_of_lem :
    (m : CustomNotification) → IsNotification m → notification_of (notification_bytes m) ≡ ok m
unfolding notification_of deserialize_notification
notification_of_lem m v =
    let (b, done, (s, got, _)) =
      read_written (λ i. 0) (Serializer.put_raw (notification_bytes m)) get_notification _ _
        (length (notification_bytes m)) (put_raw-Writes little (notification_bytes m))
        (get_notification-Reads m v) refl
        (omega (arith, length-notification_bytes m, v.ctx_fits)) in
    rw (done, got)
      (ap (λ (c : Option (List ℕ)). ok (record m { ctx = c })) (as_ctx-read_ctx m.ctx v.ctx_filled))

-- The notice that a server is out of the leader's log carries the start of that log, an index of 64
-- bits, to where it is read.
pub deserialize-serialize_out_of_log :
    (heap : ℕ → ℕ) (start_idx : ℕ)
    → start_idx < 2 ^ 64
    → (b : Buffer) × (serialize_out_of_log heap start_idx ≡ ok b)
      × (deserialize_out_of_log b ≡ ok start_idx)
unfolding serialize_out_of_log deserialize_out_of_log put_out_of_log get_out_of_log
deserialize-serialize_out_of_log heap start_idx fits =
    let (b, done, (s, got, _)) =
      read_written heap (put_out_of_log start_idx) get_out_of_log start_idx
        ((0 ∷ []) ++ put_bytes_of little 8 start_idx) (1 + 8)
        (then-Writes little _ _ (0 ∷ []) (put_bytes_of little 8 start_idx) (put_u8-Writes little 0)
          (put_u64-Writes little start_idx))
        (then-Reads little _ _ 0 _ _ _ (get_u8-Reads little 0 (omega arith))
          (get_u64-Reads little start_idx fits))
        (omega (arith, length-put_bytes_of little 8 start_idx)) (omega arith) in
    (b, done, rw got refl)
