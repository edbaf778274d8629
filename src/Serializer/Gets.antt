-- ===== src/Serializer/Gets.antt =====
-- The readers of src/buffer_serializer.cxx on plain lists of bytes.
use nu_raft.Common.{
  ℕ, ◌+◌, ◌*◌, ◌%◌, ◌^◌, ◌≤◌, ◌<◌, ◌≡◌, ◌≢◌, refl, ap, sym, ◌∙◌, arith, length, length-append, ◌++◌,
  List, [], ◌∷◌, Result, ok, throw, overflow_error, fault, append_assoc, append-nil, some, none,
  true, drop_front, take_front, ◌>>=◌, ◌>>◌, guard, ltb_of_le,
}
use nu_raft.Buffer.{Buffer}
use nu_raft.Buffer.Header.{IsValid, size-lt}
use nu_raft.Buffer.Cursor
use nu_raft.Serializer.{
  Serializer, Endianness, open_buffer, size, set_pos, is_valid, bytes_here, get_word, get_u8,
  get_u16, get_u32, get_u64, get_i32, get_raw, get_bytes, get_str, get_cstr, strlen, get_bytes_of,
  put_bytes_of,
}
use nu_raft.Serializer.Bytes.{length-put_bytes_of, get-put_8, get-put_16, get-put_32, get-put_64}

-- `front` lies before the cursor and `back` behind it.
pub record At (s : Serializer) (front back : List ℕ) : Type 0 where
  pub valid : IsValid s.buf
  pub holds : s.buf.bytes ≡ front ++ back
  pub here : s.cursor ≡ length front

module _ (s : Serializer) (front back : List ℕ) (a : At s front back) where
  pub size-At : size s ≡ length front + length back
  unfolding size
  size-At = omega (arith, a.valid.area, ap length a.holds, length-append front back)

  pub is_valid-At : (n : ℕ) → n ≤ length back → is_valid n s ≡ true
  unfolding is_valid
  is_valid-At n h = rw (ltb_of_le _ _ fits)
    where
      fits : (s.cursor + n) % 2 ^ 64 ≤ size s
      fits = omega (arith, a.here, size-At, size-lt s.buf a.valid)

  pub bytes_here-At : bytes_here s ≡ back
  unfolding bytes_here
  bytes_here-At = rw (a.here, a.holds) (drop_front front back)

  pub set_pos-At :
      (mid rest : List ℕ)
      → back ≡ mid ++ rest
      → (s' : Serializer) × (set_pos (s.cursor + length mid) s ≡ ok s')
        × At s' (front ++ mid) rest
        × (s'.endian ≡ s.endian)
  unfolding set_pos
  set_pos-At mid rest e = (
    record s { cursor = s.cursor + length mid },
    rw (ltb_of_le (size s) (s.cursor + length mid) fits),
    record {
      valid = a.valid;
      holds = a.holds ∙ ap (◌++◌ front) e ∙ sym (append_assoc front mid rest);
      here = omega (arith, a.here, length-append front mid);
    },
    refl,
  )
    where
      fits : s.cursor + length mid ≤ size s
      fits = omega (arith, a.here, size-At, ap length e, length-append mid rest)

-- `m` reads the value `a` off the bytes `src` in byte order `e`, and moves over them.
abbrev pub Reads {ℓ} :
    {A : Type ℓ} → Endianness → (Serializer → Result (A × Serializer)) → A → List ℕ → Type ℓ
Reads e m a src =
    (s : Serializer) (front back : List ℕ)
    → s.endian ≡ e
    → At s front (src ++ back)
    → (s' : Serializer) × (m s ≡ ok (a, s')) × At s' (front ++ src) back × (s'.endian ≡ e)

get_word-Reads :
    (e : Endianness) (src : List ℕ) (n v : ℕ)
    → length src ≡ n
    → get_bytes_of e (8 * n) src ≡ v
    → Reads e (get_word n) v src
unfolding get_word
get_word-Reads e src n v len val s front back order a =
    let (s', moved, a', same) = set_pos-At s front (src ++ back) a src back refl in
    (
      s',
      rw
          (
            is_valid-At s front (src ++ back) a n (omega (arith, len, length-append src back)),
            bytes_here-At s front (src ++ back) a,
            ← len,
            moved,
            take_front src back,
            order,
          )
          (rw len (rw val refl)),
      a',
      same ∙ order,
    )

pub get_u8-Reads : (e : Endianness) (v : ℕ) → v < 2 ^ 8 → Reads e get_u8 v (v ∷ [])
unfolding get_u8
get_u8-Reads e v h = get_word-Reads e (v ∷ []) 1 v refl (get-put_8 e v h)

pub get_u16-Reads : (e : Endianness) (v : ℕ) → v < 2 ^ 16 → Reads e get_u16 v (put_bytes_of e 2 v)
unfolding get_u16
get_u16-Reads e v h = get_word-Reads e _ 2 v (length-put_bytes_of e 2 v) (get-put_16 e v h)

pub get_u32-Reads : (e : Endianness) (v : ℕ) → v < 2 ^ 32 → Reads e get_u32 v (put_bytes_of e 4 v)
unfolding get_u32
get_u32-Reads e v h = get_word-Reads e _ 4 v (length-put_bytes_of e 4 v) (get-put_32 e v h)

pub get_i32-Reads : (e : Endianness) (v : ℕ) → v < 2 ^ 32 → Reads e get_i32 v (put_bytes_of e 4 v)
unfolding get_i32
get_i32-Reads e v h = get_word-Reads e _ 4 v (length-put_bytes_of e 4 v) (get-put_32 e v h)

pub get_u64-Reads : (e : Endianness) (v : ℕ) → v < 2 ^ 64 → Reads e get_u64 v (put_bytes_of e 8 v)
unfolding get_u64
get_u64-Reads e v h = get_word-Reads e _ 8 v (length-put_bytes_of e 8 v) (get-put_64 e v h)

pub get_raw-Reads : (e : Endianness) (src : List ℕ) → Reads e (get_raw (length src)) src src
unfolding get_raw
get_raw-Reads e src s front back order a =
    let (s', moved, a', same) = set_pos-At s front (src ++ back) a src back refl in
    (s', rw (moved, bytes_here-At s front (src ++ back) a, take_front src back), a', same ∙ order)

-- Readers one after the other.
pub then-Reads {ℓ κ} :
    {A : Type ℓ} {B : Type κ} (e : Endianness) (m : Serializer → Result (A × Serializer))
    (n : A → Serializer → Result (B × Serializer)) (a : A) (b : B) (src more : List ℕ)
    → Reads e m a src
    → Reads e (n a) b more
    → Reads e (λ s. m s >>= λ (x, s'). n x s') b (src ++ more)
then-Reads e m n a b src more r q s front back order at =
    let (s', p, at', same) =
      r s front (more ++ back) order (rw (← append_assoc src more back) at) in
    let (s'', p', at'', same') = q s' (front ++ src) back same at' in
    (s'', rw p p', rw (← append_assoc front src more) at'', same')

pub done-Reads {ℓ} : {A : Type ℓ} (e : Endianness) (a : A) → Reads e (λ s. ok (a, s)) a []
done-Reads e a s front back order at = (s, refl, rw append-nil at, order)

get_bytes_rest : ℕ → Serializer → Result (List ℕ × Serializer)
get_bytes_rest len s = do guard (is_valid len s) overflow_error; get_raw len s

get_bytes_rest-Reads :
    (e : Endianness) (src : List ℕ) → Reads e (get_bytes_rest (length src)) src src
unfolding get_bytes_rest
get_bytes_rest-Reads e src s front back order a =
    rw (is_valid-At s front (src ++ back) a (length src) (omega (arith, length-append src back)))
      (get_raw-Reads e src s front back order a)

pub get_bytes-Reads :
    (e : Endianness) (src : List ℕ)
    → length src < 2 ^ 32
    → Reads e get_bytes src (put_bytes_of e 4 (length src) ++ src)
unfolding get_bytes get_bytes_rest
get_bytes-Reads e src h =
    then-Reads e get_u32 get_bytes_rest (length src) src (put_bytes_of e 4 (length src)) src
      (get_u32-Reads e (length src) h) (get_bytes_rest-Reads e src)

pub get_str-Reads :
    (e : Endianness) (src : List ℕ)
    → length src < 2 ^ 32
    → Reads e get_str src (put_bytes_of e 4 (length src) ++ src)
unfolding get_str
get_str-Reads = get_bytes-Reads

-- A text with no zero in it.
abbrev pub IsCstr : List ℕ → Type 0
IsCstr [] = Unit {0}
IsCstr (c ∷ cs) = (c ≢ 0) × IsCstr cs

strlen-append_zero : (cs rest : List ℕ) → IsCstr cs → strlen (cs ++ (0 ∷ rest)) ≡ some (length cs)
unfolding strlen
strlen-append_zero [] rest h = refl
strlen-append_zero (c ∷ cs) rest (nz, h) = ground (arith, strlen-append_zero cs rest h)

pub get_cstr-Reads :
    (e : Endianness) (cs : List ℕ) → IsCstr cs → Reads e get_cstr cs (cs ++ (0 ∷ []))
unfolding get_cstr
get_cstr-Reads e cs h s front back order a =
    let back_eq : (cs ++ (0 ∷ [])) ++ back ≡ cs ++ (0 ∷ back) = append_assoc cs (0 ∷ []) back in
    let (s', moved, a', same) =
      set_pos-At s front ((cs ++ (0 ∷ [])) ++ back) a (cs ++ (0 ∷ [])) back refl in
    let moved' : set_pos (s.cursor + length cs + 1) s ≡ ok s' =
      ap (λ (n : ℕ). set_pos n s) (omega (arith, length-append cs (0 ∷ []))) ∙ moved in
    let here : bytes_here s ≡ cs ++ (0 ∷ back) =
      bytes_here-At s front ((cs ++ (0 ∷ [])) ++ back) a ∙ back_eq in
    (
      s',
      rw (here, get_cstr, strlen-append_zero cs back h, moved')
          (ap (λ (w : List ℕ). ok (w, s')) (rw here (take_front cs (0 ∷ back)))),
      a',
      same ∙ order,
    )

strlen-none : (cs : List ℕ) → IsCstr cs → strlen cs ≡ none
unfolding strlen
strlen-none [] h = refl
strlen-none (c ∷ cs) (nz, h) = ground (arith, strlen-none cs h)

-- With no zero from the cursor to the end of a well-formed buffer, `get_cstr` reads beyond the
-- buffer.
pub get_cstr_unterminated :
    (s : Serializer) (front back : List ℕ)
    → At s front back
    → IsCstr back
    → get_cstr s ≡ throw fault
unfolding get_cstr
get_cstr_unterminated s front back a h =
    rw (bytes_here-At s front back a, get_cstr, strlen-none back h)

-- A reader that ends by building its value.
pub last-Reads {ℓ κ} :
    {A : Type ℓ} {B : Type κ} (e : Endianness) (m : Serializer → Result (A × Serializer))
    (f : A → B) (a : A) (src : List ℕ)
    → Reads e m a src
    → Reads e (λ s. m s >>= λ (x, s'). ok (f x, s')) (f a) src
last-Reads e m f a src r s front back order at =
    let (s', p, at', same) = r s front back order at in (s', rw p, at', same)

-- A serializer opened on a buffer starts at the front, wherever the buffer's own cursor is.
pub open_buffer-At :
    (e : Endianness) (b : Buffer) (src : List ℕ)
    → Cursor.At b [] src
    → At (open_buffer e b) [] src × ((open_buffer e b).endian ≡ e)
unfolding open_buffer
open_buffer-At e b src a = (record { valid = a.valid; holds = a.holds; here = refl }, refl)

-- A serializer opened on the buffer that another has worked on starts at the front again.
pub open_buffer_again :
    (e : Endianness) (s : Serializer) (front back : List ℕ)
    → At s front back
    → At (open_buffer e s.buf) [] (front ++ back) × ((open_buffer e s.buf).endian ≡ e)
unfolding open_buffer
open_buffer_again e s front back a =
    (record { valid = a.valid; holds = a.holds; here = refl }, refl)
