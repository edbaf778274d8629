-- ===== src/Buffer/Words.antt =====
-- The little-endian bytes of a word and the sum that reads them back (src/buffer.cxx).
use nu_raft.Common.{ℕ, zero, suc, ◌^◌, ◌<◌, ◌≡◌, refl, arith, length, ap}
use nu_raft.Buffer.{shifted_bytes, sum_bytes}

pub length-shifted_bytes : (n i v : ℕ) → length (shifted_bytes n i v) ≡ n
unfolding shifted_bytes
length-shifted_bytes zero i v = refl
length-shifted_bytes (suc n) i v = ap suc (length-shifted_bytes n (suc i) v)

pub int_round_trip : (v : ℕ) → v < 2 ^ 32 → sum_bytes 32 (shifted_bytes 4 0 v) 0 0 ≡ v
unfolding shifted_bytes sum_bytes
int_round_trip v h = omega arith

pub ulong_round_trip : (v : ℕ) → v < 2 ^ 64 → sum_bytes 64 (shifted_bytes 8 0 v) 0 0 ≡ v
unfolding shifted_bytes sum_bytes
ulong_round_trip v h = omega arith
