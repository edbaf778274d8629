-- ===== src/Buffer/Put.antt =====
-- The writers of src/buffer.cxx: each copies its bytes to the cursor, or throws.
use nu_raft.Common.{
  ℕ, ◌≤◌, ◌<◌, ◌≡◌, refl, ap, sym, ◌∙◌, arith, length, length-append, length-drop, ◌++◌, List, [],
  ◌∷◌, Result, ok, throw, drop, overflow_error, append_assoc, append-nil, ltb, not, drop_all,
  drop_add, take_all, ◌>>=◌, ◌>>◌, guard, ltb_of_le, lt→ltb, bind_assoc, ◌^◌,
}
use nu_raft.Buffer.{
  Buffer, mv_fw_block, alloc, avail, store, shifted_bytes, put_raw, put_byte, put_int, put_ulong,
  put_bytes, put_str, put_buffer, set_pos,
}
use nu_raft.Buffer.Header.{alloc-IsAlloc, pos-set_pos, bytes-set_pos, set_pos-IsValid}
use nu_raft.Buffer.Cursor.{At, avail-At, rest_of-At, mv_fw-At, store-At}

-- `m` writes the bytes `src` wherever they fit.
abbrev pub Writes : (Buffer → Result Buffer) → List ℕ → Type 0
Writes m src =
    (b : Buffer) (front back : List ℕ)
    → At b front back
    → length src ≤ length back
    → (b' : Buffer) × (m b ≡ ok b') × At b' (front ++ src) (drop (length src) back)

-- `m` throws where `n` bytes do not fit.
abbrev pub Overflows : (Buffer → Result Buffer) → ℕ → Type 0
Overflows m n =
    (b : Buffer) (front back : List ℕ)
    → At b front back
    → length back < n
    → m b ≡ throw overflow_error

-- A guarded copy of `src`, the body that the writers share.
copy_in : List ℕ → Buffer → Result Buffer
copy_in src b = do
  guard (not (ltb (avail b) (length src))) overflow_error
  ok (mv_fw_block (store b src) (length src))

copy_in-Writes : (src : List ℕ) → Writes (copy_in src) src
unfolding copy_in
copy_in-Writes src b front back a h = (
  mv_fw_block (store b src) (length src),
  rw (avail-At b front back a, ltb_of_le (length back) (length src) h),
  mv_fw-At (store b src) front _ (store-At b front back a src h) src _ refl,
)

copy_in-Overflows : (src : List ℕ) → Overflows (copy_in src) (length src)
unfolding copy_in
copy_in-Overflows src b front back a h = rw (avail-At b front back a, lt→ltb _ _ h)

pub put_raw-Writes : (src : List ℕ) → Writes (put_raw src) src
unfolding put_raw copy_in
put_raw-Writes src = copy_in-Writes src

pub put_byte-Writes : (v : ℕ) → Writes (put_byte v) (v ∷ [])
unfolding put_byte copy_in
put_byte-Writes v = copy_in-Writes (v ∷ [])

pub put_int-Writes : (v : ℕ) → Writes (put_int v) (shifted_bytes 4 0 v)
unfolding put_int copy_in shifted_bytes
put_int-Writes v = copy_in-Writes (shifted_bytes 4 0 v)

pub put_ulong-Writes : (v : ℕ) → Writes (put_ulong v) (shifted_bytes 8 0 v)
unfolding put_ulong copy_in shifted_bytes
put_ulong-Writes v = copy_in-Writes (shifted_bytes 8 0 v)

pub put_str-Writes : (s : List ℕ) → Writes (put_str s) (s ++ (0 ∷ []))
unfolding put_str copy_in
put_str-Writes s = rw (← length-append s (0 ∷ [])) (copy_in-Writes (s ++ (0 ∷ [])))

pub put_buffer-Writes :
    (src : Buffer) (front back : List ℕ) → At src front back → Writes (put_buffer src) back
unfolding put_buffer copy_in
put_buffer-Writes src front back s =
    rw
      (
        avail-At src front back s,
        rest_of-At src front back s,
        take_all (length back) back (omega arith),
      )
      (copy_in-Writes back)

-- Writers one after the other.
pub then-Writes :
    (m n : Buffer → Result Buffer) (s t : List ℕ)
    → Writes m s
    → Writes n t
    → Writes (λ b. m b >>= n) (s ++ t)
then-Writes m n s t w v b front back a h =
    let (b', e, a') = w b front back a (omega (arith, length-append s t)) in
    let (b'', e', a'') =
      v b' (front ++ s) (drop (length s) back) a'
        (omega (arith, length-append s t, length-drop (length s) back)) in
    (
      b'',
      rw e e',
      rw (length-append s t, drop_add (length s) (length t) back, ← append_assoc front s t) a'',
    )

pub put_bytes-Writes : (ba : List ℕ) → Writes (put_bytes ba) (shifted_bytes 4 0 (length ba) ++ ba)
unfolding put_bytes copy_in shifted_bytes
put_bytes-Writes ba b front back a h =
    let prefix = shifted_bytes 4 0 (length ba) in
    let (b', e, a') =
      then-Writes (copy_in prefix) (put_raw ba) prefix ba (copy_in-Writes prefix)
        (put_raw-Writes ba) b front back a h in
    (b', sym (bind_assoc (guard (not (ltb (avail b) 4)) overflow_error) _ (put_raw ba)) ∙ e, a')

-- A new buffer that a writer fills and whose cursor goes back to the front.
unfoldable pub filled : (heap : ℕ → ℕ) → (Buffer → Result Buffer) → ℕ → Result Buffer
filled heap m n = do b ← alloc heap n; b' ← m b; ok (set_pos b' 0)

-- Then nothing is left of what the memory held before.
pub filled_lem :
    (heap : ℕ → ℕ) (m : Buffer → Result Buffer) (src : List ℕ)
    → Writes m src
    → length src < 2 ^ 31
    → (b : Buffer) × (filled heap m (length src) ≡ ok b) × At b [] src
unfolding filled
filled_lem heap m src w h =
    let (b, e, fresh) = alloc-IsAlloc heap (length src) h in
    let (b', e', a) =
      w b [] b.bytes (record { valid = fresh.valid; holds = refl; here = fresh.at_front })
        (omega (arith, fresh.valid.area, fresh.of_size)) in
    let done : b'.bytes ≡ src =
      a.holds
      ∙ ap (◌++◌ src) (drop_all _ b.bytes (omega (arith, fresh.valid.area, fresh.of_size)))
      ∙ append-nil src in
    (
      set_pos b' 0,
      rw (e, e'),
      record {
        valid = set_pos-IsValid b' 0 a.valid;
        holds = bytes-set_pos b' 0 ∙ done;
        here = omega (arith, pos-set_pos b' 0 a.valid);
      },
    )
