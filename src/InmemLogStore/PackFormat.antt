-- ===== src/InmemLogStore/PackFormat.antt =====
-- The bytes that `pack` of examples/in_memory_log_store.cxx writes.
use nu_raft.Common.{
  ℕ, zero, suc, ◌+◌, ◌*◌, ◌^◌, ◌≡◌, ◌≤◌, ◌<◌, refl, ap, ◌∙◌, arith, false, List, [], ◌∷◌, ◌++◌,
  length, length-append, append-nil, take, drop, get_elem?, some, ok, ◌>>=◌, ◌==◌, length-take,
  length-drop, subst,
}
use nu_raft.Buffer
use nu_raft.Buffer.{Buffer, shifted_bytes}
use nu_raft.Buffer.Cursor.{At, size-At}
use nu_raft.Buffer.Put.{Writes, filled_lem, then-Writes, put_int-Writes, put_buffer-Writes}
use nu_raft.Raft.Types.{LogEntry}
use nu_raft.Raft.EntryFormat.{encode_entry, serialize-encode_entry}
use nu_raft.InmemLogStore.{InmemLogStore, find}
use nu_raft.InmemLogStore.Entries.{Holds, find-number}
use nu_raft.InmemLogStore.Range.{drop_at}
use nu_raft.InmemLogStore.Pack.{serialize_range, total_size, put_logs, pack}

unfoldable pub encode_each : List LogEntry → List ℕ
unfolding shifted_bytes encode_entry
encode_each [] = []
encode_each (e ∷ es) =
    shifted_bytes 4 0 (length (encode_entry e)) ++ (encode_entry e ++ encode_each es)

unfoldable pub encode_pack : List LogEntry → List ℕ
unfolding shifted_bytes encode_each
encode_pack es = shifted_bytes 4 0 (length es) ++ encode_each es

-- The buffers hold the entries, in order, with their cursors at the front.
data Hold : List Buffer → List LogEntry → Type 0 where
  none_left : Hold [] []
  one_more :
      {b : Buffer} {e : LogEntry} {bs : List Buffer} {es : List LogEntry}
      → At b [] (encode_entry e)
      → Hold bs es
      → Hold (b ∷ bs) (e ∷ es)

pub length-encode_each-cons :
    (e : LogEntry) (es : List LogEntry)
    → length (encode_each (e ∷ es)) ≡ 4 + length (encode_entry e) + length (encode_each es)
unfolding encode_each shifted_bytes
length-encode_each-cons e es = omega (arith, length-append (encode_entry e) (encode_each es))

pub length-encode_pack :
    (es : List LogEntry) → length (encode_pack es) ≡ 4 + length (encode_each es)
unfolding encode_pack shifted_bytes
length-encode_pack es = omega arith

serialize_range-Hold :
    (s : InmemLogStore) (held : List LogEntry) (i n : ℕ)
    → Holds s held
    → i + n ≤ length held
    → length (encode_each (take n (drop i held))) < 2 ^ 31
    → (bs : List Buffer) × (serialize_range (s.start_idx + i) n s ≡ ok bs)
      × Hold bs (take n (drop i held))
unfolding serialize_range find
serialize_range-Hold s held i zero h inside small = ([], refl, none_left)
serialize_range-Hold s held i (suc n) h inside small =
    let (e, at_i, front) = drop_at held i (omega arith) in
    let rest = take n (drop (suc i) held) in
    let small' : length (encode_each (e ∷ rest)) < 2 ^ 31 =
      subst (λ (xs : List LogEntry). length (encode_each (take (suc n) xs)) < 2 ^ 31) front small in
    let (b, same, a) =
      serialize-encode_entry e (omega (arith, small', length-encode_each-cons e rest)) in
    let (bs, same', hold) =
      serialize_range-Hold s held (suc i) n h (omega arith)
        (omega (arith, small', length-encode_each-cons e rest)) in
    (b ∷ bs, rw (found e at_i, same, next, same') refl, rw front (one_more a hold))
  where
    next : s.start_idx + i + 1 ≡ s.start_idx + suc i
    next = omega arith

    after_dummy : ((s.start_idx + i) == 0) ≡ false
    after_dummy = ground (arith, h.start_pos)

    found : (e : LogEntry) → get_elem? held i ≡ some e → find (s.start_idx + i) s.logs ≡ some e
    found e at_i = rw (h.logs_lem, after_dummy) (find-number s.start_idx i held refl ∙ at_i)

Hold-length : {bs : List Buffer} {es : List LogEntry} → Hold bs es → length bs ≡ length es
Hold-length none_left = refl
Hold-length (one_more a hold) = ap suc (Hold-length hold)

Hold-total_size :
    {bs : List Buffer} {es : List LogEntry}
    → Hold bs es
    → length es * 4 + total_size bs ≡ length (encode_each es)
unfolding total_size encode_each
Hold-total_size none_left = refl
Hold-total_size (one_more {b} {e} {bs} {es} a hold) =
    omega
      (arith, size-At b [] (encode_entry e) a, Hold-total_size hold, length-encode_each-cons e es)

size_of :
    (b : Buffer) (e : LogEntry) → At b [] (encode_entry e) → Buffer.size b ≡ length (encode_entry e)
size_of b e a = omega (arith, size-At b [] (encode_entry e) a)

put_logs-Writes :
    {bs : List Buffer} {es : List LogEntry} → Hold bs es → Writes (put_logs bs) (encode_each es)
unfolding put_logs encode_each
put_logs-Writes none_left = λ b front back a h. (b, refl, rw append-nil a)
put_logs-Writes (one_more {b} {e} {bs} {es} a hold) = rw (size_of b e a) (
    then-Writes (Buffer.put_int (length (encode_entry e)))
      (λ c. Buffer.put_buffer b c >>= put_logs bs) (shifted_bytes 4 0 (length (encode_entry e)))
      (encode_entry e ++ encode_each es) (put_int-Writes (length (encode_entry e)))
      (then-Writes (Buffer.put_buffer b) (put_logs bs) (encode_entry e) (encode_each es)
        (put_buffer-Writes b [] (encode_entry e) a) (put_logs-Writes hold)))

pub pack-encode_pack :
    (s : InmemLogStore) (held : List LogEntry) (i n : ℕ)
    → Holds s held
    → i + n ≤ length held
    → length (encode_pack (take n (drop i held))) < 2 ^ 31
    → pack (s.start_idx + i) n s ≡ ok (encode_pack (take n (drop i held)))
unfolding pack
pack-encode_pack s held i n h inside small =
    let es = take n (drop i held) in
    let (bs, same, hold) =
      serialize_range-Hold s held i n h inside (omega (arith, small, length-encode_pack es)) in
    let (b, same', a) =
      filled_lem (λ i. 0) (λ b. Buffer.put_int n b >>= put_logs bs) (encode_pack es)
        (written bs hold) small in
    let size : 4 + n * 4 + total_size bs ≡ length (encode_pack es) =
      omega (arith, length-encode_pack es, Hold-total_size hold, taken) in
    rw (same, size, same') (ap ok a.holds)
  where
    taken : length (take n (drop i held)) ≡ n
    taken = omega (arith, length-take n (drop i held), length-drop i held, inside)

    written :
        (bs : List Buffer)
        → Hold bs (take n (drop i held))
        → Writes (λ b. Buffer.put_int n b >>= put_logs bs) (encode_pack (take n (drop i held)))
    written bs hold =
        unfold encode_pack in
        (rw taken (
          then-Writes (Buffer.put_int n) (put_logs bs) (shifted_bytes 4 0 n)
            (encode_each (take n (drop i held))) (put_int-Writes n) (put_logs-Writes hold)))
