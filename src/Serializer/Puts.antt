-- ===== src/Serializer/Puts.antt =====
-- The writers of src/buffer_serializer.cxx on plain lists of bytes.
use nu_raft.Common.{
  ℕ, ◌+◌, ◌≤◌, ◌≡◌, refl, ap, ◌∙◌, arith, length, length-append, length-drop, ◌++◌, List, [], ◌∷◌,
  Result, ok, take, drop, overflow_error, append_assoc, take_front, drop_past, drop_add, ◌>>=◌,
  ◌>>◌, guard,
}
use nu_raft.Serializer.{
  Serializer, Endianness, set_pos, is_valid, store, put_word, put_u8, put_u16, put_u32, put_u64,
  put_i32, put_raw, put_bytes, put_bytes_of,
}
use nu_raft.Buffer.Header.{bytes-IsValid}
use nu_raft.Serializer.Bytes.{length-put_bytes_of}
use nu_raft.Serializer.Gets.{At, is_valid-At, set_pos-At}

-- Overwriting the next bytes; the cursor stays.
store-At :
    (s : Serializer) (front back src : List ℕ)
    → At s front back
    → length src ≤ length back
    → At (store src s) front (src ++ drop (length src) back)
unfolding store
store-At s front back src a h = record {
  valid = bytes-IsValid s.buf _ a.valid same_length;
  holds = overwritten;
  here = a.here;
}
  where
    overwritten :
        take s.cursor s.buf.bytes ++ (src ++ drop (s.cursor + length src) s.buf.bytes)
        ≡ front ++ (src ++ drop (length src) back)
    overwritten = rw (a.here, a.holds, take_front front back, drop_past front back (length src))

    same_length :
        length (take s.cursor s.buf.bytes ++ (src ++ drop (s.cursor + length src) s.buf.bytes))
        ≡ length s.buf.bytes
    same_length =
        rw (overwritten, a.holds)
          (omega (
            arith,
            length-append front (src ++ drop (length src) back),
            length-append src (drop (length src) back),
            length-append front back,
            length-drop (length src) back,
          ))

-- `m` writes the bytes `src` in byte order `e` wherever they fit.
abbrev pub Writes : Endianness → (Serializer → Result Serializer) → List ℕ → Type 0
Writes e m src =
    (s : Serializer) (front back : List ℕ)
    → s.endian ≡ e
    → At s front back
    → length src ≤ length back
    → (s' : Serializer) × (m s ≡ ok s')
      × At s' (front ++ src) (drop (length src) back)
      × (s'.endian ≡ e)

-- A guarded copy, the body that the writers share.
copy_in : List ℕ → ℕ → Serializer → Result Serializer
copy_in src n s = do guard (is_valid n s) overflow_error; set_pos (s.cursor + n) (store src s)

copy_in-Writes :
    (e : Endianness) (src : List ℕ) (n : ℕ) → length src ≡ n → Writes e (copy_in src n) src
unfolding copy_in store
copy_in-Writes e src n len s front back order a h =
    let (s', moved, a', same) =
      set_pos-At (store src s) front (src ++ drop (length src) back) (store-At s front back src a h)
        src (drop (length src) back) refl in
    (s', rw (is_valid-At s front back a n (omega (arith, len)), ← len) moved, a', same ∙ order)

pub put_u8-Writes : (e : Endianness) (v : ℕ) → Writes e (put_u8 v) (v ∷ [])
unfolding put_u8 copy_in
put_u8-Writes e v = copy_in-Writes e (v ∷ []) 1 refl

put_word-Writes : (e : Endianness) (n v : ℕ) → Writes e (put_word n v) (put_bytes_of e n v)
unfolding put_word copy_in
put_word-Writes e n v s front back order a h =
    let (s', p, a', same) =
      copy_in-Writes e (put_bytes_of e n v) n (length-put_bytes_of e n v) s front back order a h in
    (s', ap (λ (o : Endianness). copy_in (put_bytes_of o n v) n s) order ∙ p, a', same)

pub put_u16-Writes : (e : Endianness) (v : ℕ) → Writes e (put_u16 v) (put_bytes_of e 2 v)
unfolding put_u16
put_u16-Writes e v = put_word-Writes e 2 v

pub put_u32-Writes : (e : Endianness) (v : ℕ) → Writes e (put_u32 v) (put_bytes_of e 4 v)
unfolding put_u32
put_u32-Writes e v = put_word-Writes e 4 v

pub put_i32-Writes : (e : Endianness) (v : ℕ) → Writes e (put_i32 v) (put_bytes_of e 4 v)
unfolding put_i32
put_i32-Writes e v = put_word-Writes e 4 v

pub put_u64-Writes : (e : Endianness) (v : ℕ) → Writes e (put_u64 v) (put_bytes_of e 8 v)
unfolding put_u64
put_u64-Writes e v = put_word-Writes e 8 v

pub put_raw-Writes : (e : Endianness) (src : List ℕ) → Writes e (put_raw src) src
unfolding put_raw copy_in
put_raw-Writes e src = copy_in-Writes e src (length src) refl

-- Writers one after the other.
pub then-Writes :
    (e : Endianness) (m n : Serializer → Result Serializer) (src more : List ℕ)
    → Writes e m src
    → Writes e n more
    → Writes e (λ s. m s >>= n) (src ++ more)
then-Writes e m n src more w v s front back order a h =
    let (s', p, a', same) = w s front back order a (omega (arith, length-append src more)) in
    let (s'', p', a'', same') =
      v s' (front ++ src) (drop (length src) back) same a'
        (omega (arith, length-append src more, length-drop (length src) back)) in
    (
      s'',
      rw p p',
      rw
          (
            length-append src more,
            drop_add (length src) (length more) back,
            ← append_assoc front src more,
          )
          a'',
      same',
    )

-- The check of `put_bytes` on the whole changes nothing: its two parts check again.
pub put_bytes-Writes :
    (e : Endianness) (src : List ℕ)
    → Writes e (put_bytes src) (put_bytes_of e 4 (length src) ++ src)
unfolding put_bytes
put_bytes-Writes e src s front back order a h =
    let (s', p, a', same) =
      then-Writes e (put_u32 (length src)) (put_raw src) (put_bytes_of e 4 (length src)) src
        (put_u32-Writes e (length src)) (put_raw-Writes e src) s front back order a h in
    (s', rw (is_valid-At s front back a (length src + 4) fits) p, a', same)
  where
    fits : length src + 4 ≤ length back
    fits = omega (
      arith,
      h,
      length-append (put_bytes_of e 4 (length src)) src,
      length-put_bytes_of e 4 (length src),
    )
