-- ===== src/Serializer/RoundTrip.antt =====
-- Whatever sequence of values src/buffer_serializer.cxx puts, the same sequence of gets reads back.
use nu_raft.Common.{
  append-nil, append_assoc, length-append, ltb_of_le, ◌∙◌, sym, ℕ, ◌^◌, ◌≡◌, ◌≤◌, ◌<◌, refl, arith,
  List, [], ◌∷◌, ◌++◌, length, ok, Result, ◌>>=◌, drop,
}
use nu_raft.Serializer.{
  Endianness, Serializer, put_bytes_of, put_u8, put_u16, put_u32, put_i32, put_u64, put_bytes,
  get_u8, get_u16, get_u32, get_i32, get_u64, get_bytes, set_pos, size,
}
use nu_raft.Serializer.Gets.{
  At, size-At, Reads, get_u8-Reads, get_u16-Reads, get_u32-Reads, get_i32-Reads, get_u64-Reads,
  get_bytes-Reads, then-Reads, last-Reads, done-Reads,
}
use nu_raft.Serializer.Puts.{
  Writes, put_u8-Writes, put_u16-Writes, put_u32-Writes, put_i32-Writes, put_u64-Writes,
  put_bytes-Writes, then-Writes,
}

-- A value with the width it is put with.
pub data Field : Type 0 where
  u8 u16 u32 i32 u64 : ℕ → Field
  bytes : List ℕ → Field

pub data Kind : Type 0 where
  a_u8 a_u16 a_u32 a_i32 a_u64 some_bytes : Kind

pub kind_of : Field → Kind
kind_of (u8 v) = a_u8
kind_of (u16 v) = a_u16
kind_of (u32 v) = a_u32
kind_of (i32 v) = a_i32
kind_of (u64 v) = a_u64
kind_of (bytes v) = some_bytes

pub put_field : Field → Serializer → Result Serializer
put_field (u8 v) s = put_u8 v s
put_field (u16 v) s = put_u16 v s
put_field (u32 v) s = put_u32 v s
put_field (i32 v) s = put_i32 v s
put_field (u64 v) s = put_u64 v s
put_field (bytes v) s = put_bytes v s

get_as :
    {A : Type 0}
    → (A → Field)
    → (Serializer → Result (A × Serializer))
    → Serializer
    → Result (Field × Serializer)
get_as f get s = do (v, s') ← get s; ok (f v, s')

pub get_field : Kind → Serializer → Result (Field × Serializer)
unfolding get_as
get_field a_u8 s = get_as u8 get_u8 s
get_field a_u16 s = get_as u16 get_u16 s
get_field a_u32 s = get_as u32 get_u32 s
get_field a_i32 s = get_as i32 get_i32 s
get_field a_u64 s = get_as u64 get_u64 s
get_field some_bytes s = get_as bytes get_bytes s

pub put_fields : List Field → Serializer → Result Serializer
unfolding put_field
put_fields [] s = ok s
put_fields (f ∷ fs) s = do s' ← put_field f s; put_fields fs s'

pub get_fields : List Kind → Serializer → Result (List Field × Serializer)
unfolding get_field
get_fields [] s = ok ([], s)
get_fields (k ∷ ks) s = do (f, s') ← get_field k s; (fs, s'') ← get_fields ks s'; ok (f ∷ fs, s'')

-- The value fits its width.
abbrev pub Fits : Field → Type 0
Fits (u8 v) = v < 2 ^ 8
Fits (u16 v) = v < 2 ^ 16
Fits (u32 v) = v < 2 ^ 32
Fits (i32 v) = v < 2 ^ 32
Fits (u64 v) = v < 2 ^ 64
Fits (bytes v) = length v < 2 ^ 32

abbrev pub AllFit : List Field → Type 0
AllFit [] = Unit {0}
AllFit (f ∷ fs) = Fits f × AllFit fs

encode_field : Endianness → Field → List ℕ
encode_field e (u8 v) = v ∷ []
encode_field e (u16 v) = put_bytes_of e 2 v
encode_field e (u32 v) = put_bytes_of e 4 v
encode_field e (i32 v) = put_bytes_of e 4 v
encode_field e (u64 v) = put_bytes_of e 8 v
encode_field e (bytes v) = put_bytes_of e 4 (length v) ++ v

unfoldable pub encode_fields : Endianness → List Field → List ℕ
unfolding encode_field
encode_fields e [] = []
encode_fields e (f ∷ fs) = encode_field e f ++ encode_fields e fs

put_field-Writes : (e : Endianness) (f : Field) → Writes e (put_field f) (encode_field e f)
unfolding put_field encode_field
put_field-Writes e (u8 v) = put_u8-Writes e v
put_field-Writes e (u16 v) = put_u16-Writes e v
put_field-Writes e (u32 v) = put_u32-Writes e v
put_field-Writes e (i32 v) = put_i32-Writes e v
put_field-Writes e (u64 v) = put_u64-Writes e v
put_field-Writes e (bytes v) = put_bytes-Writes e v

done-Writes : (e : Endianness) → Writes e (λ s. ok s) []
done-Writes e s front back order a h = (s, refl, rw append-nil a, order)

put_fields-Writes :
    (e : Endianness) (fs : List Field) → Writes e (put_fields fs) (encode_fields e fs)
unfolding put_fields encode_fields
put_fields-Writes e [] = done-Writes e
put_fields-Writes e (f ∷ fs) =
    then-Writes e (put_field f) (put_fields fs) (encode_field e f) (encode_fields e fs)
      (put_field-Writes e f) (put_fields-Writes e fs)

get_field-Reads :
    (e : Endianness) (f : Field) → Fits f → Reads e (get_field (kind_of f)) f (encode_field e f)
unfolding get_field get_as kind_of encode_field
get_field-Reads e (u8 v) h = last-Reads e get_u8 u8 v _ (get_u8-Reads e v h)
get_field-Reads e (u16 v) h = last-Reads e get_u16 u16 v _ (get_u16-Reads e v h)
get_field-Reads e (u32 v) h = last-Reads e get_u32 u32 v _ (get_u32-Reads e v h)
get_field-Reads e (i32 v) h = last-Reads e get_i32 i32 v _ (get_i32-Reads e v h)
get_field-Reads e (u64 v) h = last-Reads e get_u64 u64 v _ (get_u64-Reads e v h)
get_field-Reads e (bytes v) h = last-Reads e get_bytes bytes v _ (get_bytes-Reads e v h)

pub kinds_of : List Field → List Kind
kinds_of [] = []
kinds_of (f ∷ fs) = kind_of f ∷ kinds_of fs

get_fields-Reads :
    (e : Endianness) (fs : List Field)
    → AllFit fs
    → Reads e (get_fields (kinds_of fs)) fs (encode_fields e fs)
unfolding get_fields kinds_of encode_fields
get_fields-Reads e [] h = done-Reads e []
get_fields-Reads e (f ∷ fs) (h, hs) =
    then-Reads e (get_field (kind_of f))
      (λ f' s'. get_fields (kinds_of fs) s' >>= λ (fs', s''). ok (f' ∷ fs', s'')) f (f ∷ fs)
      (encode_field e f) (encode_fields e fs) (get_field-Reads e f h)
      (last-Reads e (get_fields (kinds_of fs)) (λ fs'. f ∷ fs') fs (encode_fields e fs)
        (get_fields-Reads e fs hs))

-- Going back to an earlier cursor.
rewind :
    (s : Serializer) (front src rest : List ℕ) (n : ℕ)
    → n ≡ length front
    → At s (front ++ src) rest
    → (t : Serializer) × (set_pos n s ≡ ok t) × At t front (src ++ rest) × (t.endian ≡ s.endian)
unfolding set_pos
rewind s front src rest n at a = (
  record s { cursor = n },
  rw (ltb_of_le (size s) n fits),
  record { valid = a.valid; holds = a.holds ∙ append_assoc front src rest; here = at },
  refl,
)
  where
    fits : n ≤ size s
    fits = omega (arith, size-At s (front ++ src) rest a, length-append front src, at)

-- Values that fit their widths are put wherever the buffer has room for them. Then the gets of the
-- same widths, from the cursor where the first was put, give the same values, and the cursor ends
-- where the puts left it. This holds for both byte orders.
pub get-put_fields :
    (fs : List Field) (s : Serializer) (front room : List ℕ)
    → At s front room
    → AllFit fs
    → length (encode_fields s.endian fs) ≤ length room
    → (t : Serializer) × (put_fields fs s ≡ ok t)
      × ((u : Serializer) × ((set_pos s.cursor t >>= get_fields (kinds_of fs)) ≡ ok (fs, u))
          × (u.cursor ≡ t.cursor))
get-put_fields fs s front room a fit enough =
    let e = s.endian in
    let src = encode_fields e fs in
    let (t, put, at_t, order) = put_fields-Writes e fs s front room refl a enough in
    let (r, back, at_r, order') =
      rewind t front src (drop (length src) room) s.cursor a.here at_t in
    let (u, got, at_u, _) =
      get_fields-Reads e fs fit r front (drop (length src) room) (order' ∙ order) at_r in
    (t, put, (u, rw back got, at_u.here ∙ sym at_t.here))
