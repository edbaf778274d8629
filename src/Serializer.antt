-- ===== src/Serializer.antt =====
-- src/buffer_serializer.cxx: typed accesses to a buffer through a cursor of its own, in either byte
-- order. Signed values are bit patterns, so `put_i32` and `put_u32` have one body, as in the source.
pub mod Bytes
pub mod Puts
pub mod Gets
pub mod Written
pub mod RoundTrip
pub mod Tests
use nu_raft.Common.{
  ℕ, zero, suc, ◌+◌, ◌-◌, ◌*◌, ◌/◌, ◌%◌, ◌^◌, Bool, true, false, not, Option, none, some, List, [],
  ◌∷◌, ◌++◌, length, take, drop, ltb, leb, ◌==◌, if◌then◌else◌,
}
use nu_raft.Common.{Result, ok, throw, overflow_error, fault, guard, ◌>>=◌, ◌>>◌}
use nu_raft.Buffer
use nu_raft.Buffer.{Buffer}
use mathlib.Core.List.{reverse}

pub data Endianness : Type 0 where
  little big : Endianness

-- `cursor` is `pos_`.
pub record Serializer : Type 0 where
  pub endian : Endianness
  pub buf : Buffer
  pub cursor : ℕ

pub open_buffer : Endianness → Buffer → Serializer
open_buffer e b = record { endian = e; buf = b; cursor = 0 }

pub size : Serializer → ℕ
size s = Buffer.size s.buf

pub set_pos : ℕ → Serializer → Result Serializer
unfolding size
set_pos new_pos s = do
  guard (not (ltb (size s) new_pos)) overflow_error
  ok (record s { cursor = new_pos })

-- The sum is a `size_t`.
pub is_valid : ℕ → Serializer → Bool
unfolding size
is_valid len s = if ltb (size s) ((s.cursor + len) % 2 ^ 64) then false else true

-- The memory from the cursor on.
pub bytes_here : Serializer → List ℕ
bytes_here s = drop s.cursor s.buf.bytes

pub store : List ℕ → Serializer → Serializer
store src s = record s {
  buf = record (s.buf) {
    bytes = take s.cursor s.buf.bytes ++ (src ++ drop (s.cursor + length src) s.buf.bytes);
  };
}

-- put16l to put64l: byte `i` of `n` is `(val >> 8 i) & 0xff`. The big-endian macros reverse them.
unfoldable pub put_little : ℕ → ℕ → List ℕ
put_little n val = Buffer.shifted_bytes n 0 val

unfoldable pub put_bytes_of : Endianness → ℕ → ℕ → List ℕ
unfolding put_little
put_bytes_of little n val = put_little n val
put_bytes_of big n val = reverse (put_little n val)

-- `tmp <<= 8; tmp |= byte`, over bytes from the highest one on, in a word of `w` bits. The shifted
-- word ends in eight zeros, so that `|` is a sum.
pub shift_in : ℕ → ℕ → List ℕ → ℕ
shift_in w tmp [] = tmp
shift_in w tmp (d ∷ ds) = shift_in w (tmp * 2 ^ 8 % 2 ^ w + d) ds

pub get_bytes_of : Endianness → ℕ → List ℕ → ℕ
get_bytes_of little w ds = shift_in w 0 (reverse ds)
get_bytes_of big w ds = shift_in w 0 ds

-- The body that the `put_` functions share: check, write, advance.
pub put_word : ℕ → ℕ → Serializer → Result Serializer
unfolding is_valid store put_bytes_of set_pos
put_word n val s = do
  guard (is_valid n s) overflow_error
  set_pos (s.cursor + n) (store (put_bytes_of s.endian n val) s)

pub put_u8 : ℕ → Serializer → Result Serializer
unfolding is_valid store set_pos
put_u8 val s = do guard (is_valid 1 s) overflow_error; set_pos (s.cursor + 1) (store (val ∷ []) s)

pub put_u16 : ℕ → Serializer → Result Serializer
unfolding put_word
put_u16 = put_word 2

pub put_u32 : ℕ → Serializer → Result Serializer
unfolding put_word
put_u32 = put_word 4

pub put_u64 : ℕ → Serializer → Result Serializer
unfolding put_word
put_u64 = put_word 8

pub put_i32 : ℕ → Serializer → Result Serializer
unfolding put_word
put_i32 = put_word 4

pub put_raw : List ℕ → Serializer → Result Serializer
unfolding is_valid store set_pos
put_raw src s = do
  guard (is_valid (length src) s) overflow_error
  set_pos (s.cursor + length src) (store src s)

pub put_buffer : Buffer → Serializer → Result Serializer
unfolding put_raw
put_buffer b s = put_raw (take (Buffer.avail b) (Buffer.rest_of b)) s

pub put_bytes : List ℕ → Serializer → Result Serializer
unfolding is_valid put_u32 put_raw
put_bytes src s = do
  guard (is_valid (length src + 4) s) overflow_error
  s' ← put_u32 (length src) s
  put_raw src s'

pub put_str : List ℕ → Serializer → Result Serializer
unfolding put_bytes
put_str str s = put_bytes str s

-- The loop checks and writes one character at a time, and the cursor moves at its end only.
put_cstr_loop : List ℕ → Serializer → ℕ → Result Serializer
unfolding is_valid store set_pos size
put_cstr_loop [] s local_pos =
    if leb (size s) local_pos
    then throw overflow_error
    else set_pos (local_pos + 1)
        (record (store (0 ∷ []) (record s { cursor = local_pos })) { cursor = s.cursor })
put_cstr_loop (c ∷ cs) s local_pos =
    let rest =
      put_cstr_loop cs
        (record (store (c ∷ []) (record s { cursor = local_pos })) { cursor = s.cursor })
        (local_pos + 1) in
    if leb (size s) local_pos then throw overflow_error else rest

pub put_cstr : List ℕ → Serializer → Result Serializer
unfolding put_cstr_loop
put_cstr str s = put_cstr_loop str s s.cursor

-- The body that the `get_` functions of `n` bytes share.
pub get_word : ℕ → Serializer → Result (ℕ × Serializer)
unfolding is_valid bytes_here get_bytes_of shift_in set_pos
get_word n s = do
  guard (is_valid n s) overflow_error
  s' ← set_pos (s.cursor + n) s
  ok (get_bytes_of s.endian (8 * n) (take n (bytes_here s)), s')

pub get_u8 : Serializer → Result (ℕ × Serializer)
unfolding get_word
get_u8 = get_word 1

pub get_u16 : Serializer → Result (ℕ × Serializer)
unfolding get_word
get_u16 = get_word 2

pub get_u32 : Serializer → Result (ℕ × Serializer)
unfolding get_word
get_u32 = get_word 4

pub get_u64 : Serializer → Result (ℕ × Serializer)
unfolding get_word
get_u64 = get_word 8

pub get_i32 : Serializer → Result (ℕ × Serializer)
unfolding get_word
get_i32 = get_word 4

-- No check of its own: `pos` throws.
pub get_raw : ℕ → Serializer → Result (List ℕ × Serializer)
unfolding set_pos bytes_here
get_raw len s = do s' ← set_pos (s.cursor + len) s; ok (take len (bytes_here s), s')

pub get_bytes : Serializer → Result (List ℕ × Serializer)
unfolding get_u32 is_valid get_raw
get_bytes s = do (len, s') ← get_u32 s; guard (is_valid len s') overflow_error; get_raw len s'

pub get_str : Serializer → Result (List ℕ × Serializer)
unfolding get_bytes
get_str s = get_bytes s

-- `strlen` from the cursor on. It stops at a zero only: where the memory of the buffer has none it
-- reads beyond it (`none`).
strlen : List ℕ → Option ℕ
strlen [] = none
strlen (c ∷ cs) =
    if c == 0 then some 0 else elim (strlen cs) [ none ↦ none | some n ↦ some (suc n) ]

pub get_cstr : Serializer → Result (List ℕ × Serializer)
unfolding strlen bytes_here set_pos
get_cstr s = elim (strlen (bytes_here s)) [
  | none ↦ throw fault
  | some len ↦ do s' ← set_pos (s.cursor + len + 1) s; ok (take len (bytes_here s), s')
]
