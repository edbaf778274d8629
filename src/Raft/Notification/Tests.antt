-- ===== src/Raft/Notification/Tests.antt =====
-- A notification with a context, and the theorems of the formats at it.
use nu_raft.Common.{◌≡◌, arith, some, [], ◌∷◌, ok}
use nu_raft.Buffer.{Buffer}
use nu_raft.Raft.Notification.{
  CustomNotification, serialize_notification, deserialize_notification, serialize_out_of_log,
  deserialize_out_of_log, ctx_size,
}
use nu_raft.Raft.Notification.RoundTrip.{
  IsNotification, deserialize-serialize_notification, deserialize-serialize_out_of_log,
}

abbrev warning : CustomNotification
warning = record { notification_type = 1; ctx = some (5 ∷ 6 ∷ []) }

warning-IsNotification : IsNotification warning
unfolding ctx_size
warning-IsNotification = record {
  type_fits = omega arith;
  ctx_fits = omega arith;
  ctx_filled = λ e. ground (arith, e);
}

deserialize-serialize_notification_example :
    (b : Buffer) × (serialize_notification (λ i. i) warning ≡ ok b)
    × (deserialize_notification b ≡ ok warning)
deserialize-serialize_notification_example =
    deserialize-serialize_notification (λ i. i) warning warning-IsNotification

deserialize-serialize_out_of_log_example :
    (b : Buffer) × (serialize_out_of_log (λ i. i) 0x1_0000_0007 ≡ ok b)
    × (deserialize_out_of_log b ≡ ok 0x1_0000_0007)
deserialize-serialize_out_of_log_example =
    deserialize-serialize_out_of_log (λ i. i) 0x1_0000_0007 (omega arith)
