-- ===== src/Buffer.antt =====
-- src/buffer.cxx: the byte buffer with its packed header, the cursor and the typed accesses.
-- A container is the first `uint` of its header, the second one (read for big blocks only) and
-- the data area. Words are little-endian: the two `ushort` of a small block are the low and the
-- high half of the first word. An `int32` is its bit pattern, a number below 2 ^ 32.
pub mod Header
pub mod Cursor
pub mod Words
pub mod Put
pub mod Get
pub mod RoundTrip
pub mod Tests
use nu_raft.Common.{
  ℕ, zero, suc, ◌+◌, ◌-◌, ◌*◌, ◌/◌, ◌%◌, ◌^◌, Bool, true, false, not, ◌&&◌, ◌||◌, Option, none,
  some, List, [], ◌∷◌, ◌++◌, length, take, drop, ltb, leb, ◌==◌, if◌then◌else◌,
}
use nu_raft.Common.{Result, ok, throw, overflow_error, out_of_range, fault, guard, ◌>>=◌, ◌>>◌}

pub record Buffer : Type 0 where
  pub word0 : ℕ
  pub word1 : ℕ
  pub bytes : List ℕ

unfoldable pub is_big_block : Buffer → Bool
is_big_block b = leb (2 ^ 31) b.word0

-- `w | 0x80000000` and `w ^ 0x80000000` on a 32-bit word.
set_top_bit : ℕ → ℕ
set_top_bit w = w % 2 ^ 31 + 2 ^ 31

flip_top_bit : ℕ → ℕ
flip_top_bit w = if ltb w (2 ^ 31) then w + 2 ^ 31 else w - 2 ^ 31

init_s_block : ℕ → List ℕ → Buffer
init_s_block len area = record { word0 = len % 2 ^ 16; word1 = 0; bytes = area }

init_b_block : ℕ → List ℕ → Buffer
unfolding set_top_bit
init_b_block len area = record { word0 = set_top_bit (len % 2 ^ 32); word1 = 0; bytes = area }

unfoldable pub size : Buffer → ℕ
unfolding is_big_block flip_top_bit
size b = if is_big_block b then flip_top_bit b.word0 else b.word0 % 2 ^ 16

unfoldable pub pos : Buffer → ℕ
unfolding is_big_block
pos b = if is_big_block b then b.word1 else b.word0 / 2 ^ 16

pub container_size : Buffer → ℕ
container_size b = size b + (if is_big_block b then 8 else 4)

pub mv_fw_block : Buffer → ℕ → Buffer
unfolding is_big_block
mv_fw_block b delta =
    if is_big_block b then record b { word1 = (b.word1 + delta) % 2 ^ 32 } else record b {
      word0 = b.word0 % 2 ^ 16 + (b.word0 / 2 ^ 16 + delta % 2 ^ 16) % 2 ^ 16 * 2 ^ 16;
    }

set_block_pos : Buffer → ℕ → Buffer
unfolding is_big_block
set_block_pos b p =
    if is_big_block b
    then record b { word1 = p % 2 ^ 32 }
    else record b { word0 = b.word0 % 2 ^ 16 + p % 2 ^ 16 * 2 ^ 16 }

-- `pos(p)`: a position behind the end is moved to the end.
pub set_pos : Buffer → ℕ → Buffer
unfolding set_block_pos
set_pos b p = set_block_pos b (if ltb (size b) p then size b else p)

-- The first `n` bytes of memory that has just been allocated; nothing is known of them.
fresh : (ℕ → ℕ) → ℕ → ℕ → List ℕ
fresh heap zero i = []
fresh heap (suc n) i = heap i ∷ fresh heap n (suc i)

-- The allocation counters are left out.
pub alloc : (ℕ → ℕ) → ℕ → Result Buffer
unfolding init_s_block init_b_block fresh
alloc heap n =
    if leb 0x80000000 n
    then throw out_of_range
    else if leb 0x8000 n
    then ok (init_b_block n (fresh heap n 0))
    else ok (init_s_block n (fresh heap n 0))

-- `size() - pos()` in `size_t`.
pub avail : Buffer → ℕ
avail b = (size b + 2 ^ 64 - pos b) % 2 ^ 64

-- The bytes from the cursor on, and a copy of `src` to the cursor.
pub rest_of : Buffer → List ℕ
rest_of b = drop (pos b) b.bytes

pub store : Buffer → List ℕ → Buffer
store b src = record b {
  bytes = take (pos b) b.bytes ++ (src ++ drop (pos b + length src) b.bytes);
}

-- `(byte)(val >> (i * 8))` for the `n` indices from `i` on.
unfoldable pub shifted_bytes : ℕ → ℕ → ℕ → List ℕ
shifted_bytes zero i val = []
shifted_bytes (suc n) i val = val / 2 ^ (8 * i) % 256 ∷ shifted_bytes n (suc i) val

-- `val += byte_val << (i * 8)` over the bytes of a word of `w` bits.
pub sum_bytes : ℕ → List ℕ → ℕ → ℕ → ℕ
sum_bytes w [] i val = val
sum_bytes w (d ∷ ds) i val = sum_bytes w ds (suc i) ((val + d * 2 ^ (8 * i) % 2 ^ w) % 2 ^ w)

pub put_raw : List ℕ → Buffer → Result Buffer
unfolding store
put_raw ba b = do
  guard (not (ltb (avail b) (length ba))) overflow_error
  ok (mv_fw_block (store b ba) (length ba))

pub put_byte : ℕ → Buffer → Result Buffer
unfolding store
put_byte v b = do
  guard (not (ltb (avail b) 1)) overflow_error
  ok (mv_fw_block (store b (v ∷ [])) 1)

pub put_int : ℕ → Buffer → Result Buffer
unfolding store
put_int val b = do
  guard (not (ltb (avail b) 4)) overflow_error
  ok (mv_fw_block (store b (shifted_bytes 4 0 val)) 4)

pub put_ulong : ℕ → Buffer → Result Buffer
unfolding store
put_ulong val b = do
  guard (not (ltb (avail b) 8)) overflow_error
  ok (mv_fw_block (store b (shifted_bytes 8 0 val)) 8)

-- `put(const byte*, size_t)`: the length as an int32, then the bytes.
pub put_bytes : List ℕ → Buffer → Result Buffer
unfolding store
put_bytes ba b = do
  guard (not (ltb (avail b) 4)) overflow_error
  put_raw ba (mv_fw_block (store b (shifted_bytes 4 0 (length ba))) 4)

-- `put(const std::string&)`: the characters and a zero.
pub put_str : List ℕ → Buffer → Result Buffer
unfolding store
put_str str b = do
  guard (not (ltb (avail b) (length str + 1))) overflow_error
  ok (mv_fw_block (store b (str ++ (0 ∷ []))) (length str + 1))

-- `put(const buffer&)`: what the other buffer has from its cursor on.
pub put_buffer : Buffer → Buffer → Result Buffer
unfolding store
put_buffer src b = do
  guard (not (ltb (avail b) (avail src))) overflow_error
  ok (mv_fw_block (store b (take (avail src) (rest_of src))) (avail src))

pub get_int : Buffer → Result (ℕ × Buffer)
get_int b = do
  guard (not (ltb (avail b) 4)) overflow_error
  ok (sum_bytes 32 (take 4 (rest_of b)) 0 0, mv_fw_block b 4)

pub get_ulong : Buffer → Result (ℕ × Buffer)
get_ulong b = do
  guard (not (ltb (avail b) 8)) overflow_error
  ok (sum_bytes 64 (take 8 (rest_of b)) 0 0, mv_fw_block b 8)

-- Under the guard there is a byte at the cursor; the clause for none is never reached.
first_byte : List ℕ → ℕ
first_byte [] = 0
first_byte (d ∷ ds) = d

pub get_byte : Buffer → Result (ℕ × Buffer)
unfolding first_byte
get_byte b = do
  guard (not (ltb (avail b) 1)) overflow_error
  ok (first_byte (rest_of b), mv_fw_block b 1)

pub get_raw : ℕ → Buffer → Result (List ℕ × Buffer)
get_raw len b = do
  guard (not (ltb (avail b) len)) overflow_error
  ok (take len (rest_of b), mv_fw_block b len)

-- `get(ptr<buffer>&)` copies as many bytes as the new buffer `dst` has room for, whatever is left.
pub get_buffer : Buffer → Buffer → Result (Buffer × Buffer)
unfolding store
get_buffer dst b = do
  guard (not (ltb (avail b) (avail dst))) fault
  ok (store dst (take (avail dst) (rest_of b)), mv_fw_block b (avail dst))

-- The length is an `int32` put into a `size_t`: a negative one becomes a huge number.
pub sign_extend : ℕ → ℕ
sign_extend val = if ltb val (2 ^ 31) then val else val + (2 ^ 64 - 2 ^ 32)

pub get_bytes : Buffer → Result (List ℕ × Buffer)
unfolding get_int sign_extend
get_bytes b = do (val, b') ← get_int b; get_raw (sign_extend val) b'

-- The characters up to a zero or the end.
chars : List ℕ → List ℕ
chars [] = []
chars (d ∷ ds) = if d == 0 then [] else d ∷ chars ds

-- `none` is the null pointer: the string is empty or not terminated.
pub get_str : Buffer → Option (List ℕ) × Buffer
unfolding chars
get_str b =
    let d = chars (rest_of b) in
    if length d == 0
    then (none, mv_fw_block b 1)
    else if leb (size b) (pos b + length d)
    then (none, b)
    else (some d, mv_fw_block b (length d + 1))

pub copy : (ℕ → ℕ) → Buffer → Result Buffer
copy heap b = do
  other ← alloc heap ((size b + 2 ^ 64 - pos b) % 2 ^ 64)
  other' ← put_buffer b other
  ok (set_pos other' 0)

-- `memcpy` of the whole area to the front of another.
overlay : List ℕ → List ℕ → List ℕ
overlay src dst = src ++ drop (length src) dst

pub clone : (ℕ → ℕ) → Buffer → Result Buffer
unfolding overlay
clone heap b = do
  other ← alloc heap (size b)
  ok (set_pos (record other { bytes = overlay (take (size b) b.bytes) other.bytes }) 0)

pub expand : (ℕ → ℕ) → Buffer → ℕ → Result Buffer
unfolding overlay
expand heap b new_size = do
  guard (not (leb 0x80000000 new_size)) out_of_range
  guard (not (ltb new_size (size b))) out_of_range
  other ← alloc heap new_size
  ok (set_pos (record other { bytes = overlay (take (size b) b.bytes) other.bytes }) (pos b))
