-- ===== src/Serializer/Bytes.antt =====
-- The byte orders of src/buffer_serializer.cxx: what the `put` macros write, the `get` macros read.
use nu_raft.Common.{ℕ, ◌^◌, ◌<◌, ◌≡◌, refl, arith, length, List, [], ◌∷◌, ap, ◌∙◌, length-append}
use mathlib.Core.List.{reverse, reverse-cons}
use nu_raft.Buffer.{shifted_bytes}
use nu_raft.Buffer.Words.{length-shifted_bytes}
use nu_raft.Serializer.{Endianness, little, big, put_bytes_of, get_bytes_of, shift_in}

pub length-reverse {ℓ} : {A : Type ℓ} (xs : List A) → length (reverse xs) ≡ length xs
length-reverse [] = refl
length-reverse (x ∷ xs) =
    omega
      (arith, ap length (reverse-cons x xs), length-append (reverse xs) (x ∷ []), length-reverse xs)

pub length-put_bytes_of : (e : Endianness) (n v : ℕ) → length (put_bytes_of e n v) ≡ n
unfolding put_bytes_of
length-put_bytes_of little n v = length-shifted_bytes n 0 v
length-put_bytes_of big n v = length-reverse (shifted_bytes n 0 v) ∙ length-shifted_bytes n 0 v

-- Per width; a byte order reads what it wrote.
pub get-put_8 : (e : Endianness) (v : ℕ) → v < 2 ^ 8 → get_bytes_of e 8 (v ∷ []) ≡ v
unfolding get_bytes_of shift_in
get-put_8 little v h = omega arith
get-put_8 big v h = omega arith

pub get-put_16 : (e : Endianness) (v : ℕ) → v < 2 ^ 16 → get_bytes_of e 16 (put_bytes_of e 2 v) ≡ v
unfolding get_bytes_of put_bytes_of shift_in shifted_bytes
get-put_16 little v h = omega arith
get-put_16 big v h = omega arith

pub get-put_32 : (e : Endianness) (v : ℕ) → v < 2 ^ 32 → get_bytes_of e 32 (put_bytes_of e 4 v) ≡ v
unfolding get_bytes_of put_bytes_of shift_in shifted_bytes
get-put_32 little v h = omega arith
get-put_32 big v h = omega arith

pub get-put_64 : (e : Endianness) (v : ℕ) → v < 2 ^ 64 → get_bytes_of e 64 (put_bytes_of e 8 v) ≡ v
unfolding get_bytes_of put_bytes_of shift_in shifted_bytes
get-put_64 little v h = omega arith
get-put_64 big v h = omega arith
