-- ===== src/Buffer/Get.antt =====
-- The readers of src/buffer.cxx: each returns what the writer of its type put there.
use nu_raft.Common.{
  sym, ℕ, ◌^◌, ◌<◌, ◌≡◌, refl, ap, ◌∙◌, arith, length, length-append, ◌++◌, List, Result, ok, take,
  overflow_error, ltb, not, take_front, ◌>>◌, ◌>>=◌, ◌∷◌, [], append_assoc, append-nil, drop,
  drop_all, lt→ltb, guard, ltb_of_le,
}
use nu_raft.Buffer.{
  Buffer, mv_fw_block, avail, rest_of, shifted_bytes, sum_bytes, get_int, get_ulong, get_raw,
  get_buffer, store, get_byte, first_byte, get_bytes, sign_extend,
}
use nu_raft.Buffer.Cursor.{At, store-At, avail-At, rest_of-At, mv_fw-At}
use nu_raft.Buffer.Words.{int_round_trip, ulong_round_trip}

-- `m` reads the value `a` off the bytes `src`, and moves over them.
abbrev pub Reads {ℓ} : {A : Type ℓ} → (Buffer → Result (A × Buffer)) → A → List ℕ → Type ℓ
Reads m a src =
    (b : Buffer) (front back : List ℕ)
    → At b front (src ++ back)
    → (b' : Buffer) × (m b ≡ ok (a, b')) × At b' (front ++ src) back

-- A guarded read of `n` bytes, which the readers share.
take_in {ℓ} : {A : Type ℓ} → ℕ → (List ℕ → A) → Buffer → Result (A × Buffer)
take_in n f b = do
  guard (not (ltb (avail b) n)) overflow_error
  ok (f (take n (rest_of b)), mv_fw_block b n)

take_in-Reads {ℓ} :
    {A : Type ℓ} (f : List ℕ → A) (src : List ℕ) → Reads (take_in (length src) f) (f src) src
unfolding take_in
take_in-Reads f src b front back a = (
  mv_fw_block b (length src),
  rw (
    avail-At b front (src ++ back) a,
    ltb_of_le (length (src ++ back)) (length src) (omega (arith, length-append src back)),
    rest_of-At b front (src ++ back) a,
    take_front src back,
  ),
  mv_fw-At b front (src ++ back) a src back refl,
)

pub get_int-Reads : (v : ℕ) → v < 2 ^ 32 → Reads get_int v (shifted_bytes 4 0 v)
unfolding get_int take_in shifted_bytes
get_int-Reads v h b front back a =
    let (b', e, a') =
      take_in-Reads (λ ds. sum_bytes 32 ds 0 0) (shifted_bytes 4 0 v) b front back a in
    (b', e ∙ ap (λ (w : ℕ). ok (w, b')) (int_round_trip v h), a')

pub get_ulong-Reads : (v : ℕ) → v < 2 ^ 64 → Reads get_ulong v (shifted_bytes 8 0 v)
unfolding get_ulong take_in shifted_bytes
get_ulong-Reads v h b front back a =
    let (b', e, a') =
      take_in-Reads (λ ds. sum_bytes 64 ds 0 0) (shifted_bytes 8 0 v) b front back a in
    (b', e ∙ ap (λ (w : ℕ). ok (w, b')) (ulong_round_trip v h), a')

pub get_raw-Reads : (src : List ℕ) → Reads (get_raw (length src)) src src
unfolding get_raw take_in
get_raw-Reads src = take_in-Reads (λ ds. ds) src

-- A buffer at its front is filled with what comes next.
pub get_buffer-At :
    (dst b : Buffer) (old front src back : List ℕ)
    → At dst [] old
    → length old ≡ length src
    → At b front (src ++ back)
    → (dst' : Buffer) × (b' : Buffer) × (get_buffer dst b ≡ ok (dst', b'))
      × At dst' [] src
      × At b' (front ++ src) back
unfolding get_buffer
get_buffer-At dst b old front src back d len a = (
  store dst src,
  mv_fw_block b (length src),
  rw (
    avail-At dst [] old d,
    len,
    avail-At b front (src ++ back) a,
    ltb_of_le (length (src ++ back)) (length src) (omega (arith, length-append src back)),
    rest_of-At b front (src ++ back) a,
    take_front src back,
  ),
  record { valid = filled_up.valid; holds = filled_up.holds ∙ nothing_left; here = filled_up.here },
  mv_fw-At b front (src ++ back) a src back refl,
)
  where
    filled_up : At (store dst src) [] (src ++ drop (length src) old)
    filled_up = store-At dst [] old d src (omega (arith, len))

    nothing_left : src ++ drop (length src) old ≡ src
    nothing_left =
        ap (λ (xs : List ℕ). src ++ xs) (drop_all (length src) old (omega (arith, len)))
        ∙ append-nil src

first_byte-take : (xs : List ℕ) → first_byte (take 1 xs) ≡ first_byte xs
unfolding first_byte
first_byte-take [] = refl
first_byte-take (x ∷ xs) = refl

pub get_byte-Reads : (v : ℕ) → Reads get_byte v (v ∷ [])
unfolding get_byte take_in first_byte
get_byte-Reads v b front back a =
    let (b', e, a') = take_in-Reads first_byte (v ∷ []) b front back a in
    (
      b',
      ap (λ (w : ℕ). guard (not (ltb (avail b) 1)) overflow_error >> ok (w, mv_fw_block b 1))
            (sym (first_byte-take (rest_of b)))
          ∙ e,
      a',
    )

-- Readers one after the other.
pub then-Reads {ℓ κ} :
    {A : Type ℓ} {B : Type κ} (m : Buffer → Result (A × Buffer))
    (n : A → Buffer → Result (B × Buffer)) (a : A) (b : B) (src more : List ℕ)
    → Reads m a src
    → Reads (n a) b more
    → Reads (λ s. m s >>= λ (x, s'). n x s') b (src ++ more)
then-Reads m n a b src more r q s front back at =
    let (s', p, at') = r s front (more ++ back) (rw (← append_assoc src more back) at) in
    let (s'', p', at'') = q s' (front ++ src) back at' in
    (s'', rw p p', rw (← append_assoc front src more) at'')

pub last-Reads {ℓ κ} :
    {A : Type ℓ} {B : Type κ} (m : Buffer → Result (A × Buffer)) (f : A → B) (a : A) (src : List ℕ)
    → Reads m a src
    → Reads (λ s. m s >>= λ (x, s'). ok (f x, s')) (f a) src
last-Reads m f a src r s front back at =
    let (s', p, at') = r s front back at in (s', rw p refl, at')

pub sign_extend_small : (n : ℕ) → n < 2 ^ 31 → sign_extend n ≡ n
unfolding sign_extend
sign_extend_small n h = rw (lt→ltb n (2 ^ 31) h) refl

-- A length below 2 ^ 31 is the same as a `size_t`.
pub get_bytes-Reads :
    (src : List ℕ)
    → length src < 2 ^ 31
    → Reads get_bytes src (shifted_bytes 4 0 (length src) ++ src)
unfolding get_bytes sign_extend
get_bytes-Reads src h =
    then-Reads get_int (λ val b. get_raw (sign_extend val) b) (length src) src
      (shifted_bytes 4 0 (length src)) src (get_int-Reads (length src) (omega arith))
      (rw (lt→ltb (length src) (2 ^ 31) h) (get_raw-Reads src))
