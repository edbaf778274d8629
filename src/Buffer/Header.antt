-- ===== src/Buffer/Header.antt =====
-- The packed header of src/buffer.cxx stands for a size and a cursor.
use nu_raft.Common.{
  ℕ, zero, suc, ◌+◌, ◌-◌, ◌^◌, ◌≤◌, ◌<◌, ◌≡◌, ◌⊎◌, refl, ap, true, false, arith, length, List, ok,
  throw,
}
use native.Mathlib.Decide.{dec_lt}
use nu_raft.Common.{◌∙◌, sym, inl, inr, out_of_range, min}
use nu_raft.Buffer.{
  Buffer, init_s_block, init_b_block, is_big_block, size, pos, mv_fw_block, set_pos, fresh, alloc,
  avail,
}

-- A small block holds less than 2 ^ 15 bytes, so that its cursor leaves the top bit clear.
pub record IsValid (b : Buffer) : Type 0 where
  pub kind :
      ((is_big_block b ≡ false) × (b.word0 < 2 ^ 31) × (size b < 2 ^ 15))
      ⊎ ((is_big_block b ≡ true) × (b.word0 < 2 ^ 32) × (b.word1 < 2 ^ 32))
  pub area : length b.bytes ≡ size b
  pub cursor : pos b ≤ size b

pub size-lt : (b : Buffer) → IsValid b → size b < 2 ^ 31
unfolding size
size-lt b v = ground (arith, v.kind)

pub size-mv_fw_block :
    (b : Buffer) (d : ℕ) → IsValid b → pos b + d ≤ size b → size (mv_fw_block b d) ≡ size b
unfolding size pos mv_fw_block
size-mv_fw_block b d v h = ground (arith, v.kind)

pub pos-mv_fw_block :
    (b : Buffer) (d : ℕ) → IsValid b → pos b + d ≤ size b → pos (mv_fw_block b d) ≡ pos b + d
unfolding size pos mv_fw_block
pos-mv_fw_block b d v h = ground (arith, v.kind)

kind-mv_fw_block :
    (b : Buffer) (d : ℕ)
    → IsValid b
    → pos b + d ≤ size b
    → ((is_big_block (mv_fw_block b d) ≡ false)
        × ((mv_fw_block b d).word0 < 2 ^ 31)
        × (size (mv_fw_block b d) < 2 ^ 15))
      ⊎ ((is_big_block (mv_fw_block b d) ≡ true)
          × ((mv_fw_block b d).word0 < 2 ^ 32)
          × ((mv_fw_block b d).word1 < 2 ^ 32))
unfolding size pos mv_fw_block
kind-mv_fw_block b d v h = ground (arith, v.kind)

pub bytes-mv_fw_block : (b : Buffer) (d : ℕ) → (mv_fw_block b d).bytes ≡ b.bytes
unfolding mv_fw_block
bytes-mv_fw_block b d = ground arith

pub mv_fw_block-IsValid :
    (b : Buffer) (d : ℕ) → IsValid b → pos b + d ≤ size b → IsValid (mv_fw_block b d)
mv_fw_block-IsValid b d v h = record {
  kind = kind-mv_fw_block b d v h;
  area = area-mv_fw_block;
  cursor = omega (arith, size-mv_fw_block b d v h, pos-mv_fw_block b d v h);
}
  where
    area-mv_fw_block : length (mv_fw_block b d).bytes ≡ size (mv_fw_block b d)
    area-mv_fw_block = ap length (bytes-mv_fw_block b d) ∙ v.area ∙ sym (size-mv_fw_block b d v h)

pub size-set_pos : (b : Buffer) (p : ℕ) → IsValid b → size (set_pos b p) ≡ size b
unfolding size set_pos
size-set_pos b p v = ground (arith, v.kind)

-- On a well-formed buffer `pos(p)` moves the cursor to `p`, or to the end if that is nearer.
pub pos-set_pos : (b : Buffer) (p : ℕ) → IsValid b → pos (set_pos b p) ≡ min p (size b)
unfolding size pos set_pos
pos-set_pos b p v = ground (arith, v.kind)

pub bytes-set_pos : (b : Buffer) (p : ℕ) → (set_pos b p).bytes ≡ b.bytes
unfolding set_pos
bytes-set_pos b p = ground arith

kind-set_pos :
    (b : Buffer) (p : ℕ)
    → IsValid b
    → ((is_big_block (set_pos b p) ≡ false)
        × ((set_pos b p).word0 < 2 ^ 31)
        × (size (set_pos b p) < 2 ^ 15))
      ⊎ ((is_big_block (set_pos b p) ≡ true)
          × ((set_pos b p).word0 < 2 ^ 32)
          × ((set_pos b p).word1 < 2 ^ 32))
unfolding size pos set_pos
kind-set_pos b p v = ground (arith, v.kind)

pub set_pos-IsValid : (b : Buffer) (p : ℕ) → IsValid b → IsValid (set_pos b p)
set_pos-IsValid b p v = record {
  kind = kind-set_pos b p v;
  area = ap length (bytes-set_pos b p) ∙ v.area ∙ sym (size-set_pos b p v);
  cursor = omega (arith, size-set_pos b p v, pos-set_pos b p v);
}

length-fresh : (heap : ℕ → ℕ) (n i : ℕ) → length (fresh heap n i) ≡ n
unfolding fresh
length-fresh heap zero i = refl
length-fresh heap (suc n) i = ap suc (length-fresh heap n (suc i))

-- What `alloc` returns: a buffer of the size asked for, with the cursor at its front.
pub record IsAlloc (n : ℕ) (b : Buffer) : Type 0 where
  pub valid : IsValid b
  pub of_size : size b ≡ n
  pub at_front : pos b ≡ 0

alloc_small :
    (heap : ℕ → ℕ) (n : ℕ) → n < 0x8000 → (b : Buffer) × (alloc heap n ≡ ok b) × IsAlloc n b
unfolding alloc size pos
alloc_small heap n h = (
  init_s_block n (fresh heap n 0),
  ground arith,
  record {
    valid = record {
      kind = inl (ground arith, omega arith, ground arith);
      area = ground (arith, length-fresh heap n 0);
      cursor = ground arith;
    };
    of_size = ground arith;
    at_front = ground arith;
  },
)

alloc_big :
    (heap : ℕ → ℕ) (n : ℕ)
    → 0x8000 ≤ n
    → n < 2 ^ 31
    → (b : Buffer) × (alloc heap n ≡ ok b) × IsAlloc n b
unfolding alloc size pos
alloc_big heap n lo hi = (
  init_b_block n (fresh heap n 0),
  ground arith,
  record {
    valid = record {
      kind = inr (ground arith, omega arith, omega arith);
      area = ground (arith, length-fresh heap n 0);
      cursor = ground arith;
    };
    of_size = ground arith;
    at_front = ground arith;
  },
)

-- A request of less than 2 ^ 31 bytes gets a well-formed buffer of that size, with the cursor at
-- its front, whatever the memory held.
pub alloc-IsAlloc :
    (heap : ℕ → ℕ) (n : ℕ) → n < 2 ^ 31 → (b : Buffer) × (alloc heap n ≡ ok b) × IsAlloc n b
alloc-IsAlloc heap n h = elim (dec_lt n 0x8000) [
  | yes small ↦ alloc_small heap n small
  | no big ↦ alloc_big heap n (omega arith) h
]

-- A request of 2 ^ 31 bytes or more is refused.
pub alloc_too_large : (heap : ℕ → ℕ) (n : ℕ) → 2 ^ 31 ≤ n → alloc heap n ≡ throw out_of_range
unfolding alloc
alloc_too_large heap n h = ground arith

pub avail_lem : (b : Buffer) → IsValid b → avail b ≡ size b - pos b
unfolding avail
avail_lem b v = omega (arith, size-lt b v, v.cursor)

-- Other bytes, as many.
pub bytes-IsValid :
    (b : Buffer) (xs : List ℕ)
    → IsValid b
    → length xs ≡ length b.bytes
    → IsValid (record b { bytes = xs })
unfolding size pos
bytes-IsValid b xs v e = record { kind = v.kind; area = e ∙ v.area; cursor = v.cursor }

pub size-bytes : (b : Buffer) (xs : List ℕ) → size (record b { bytes = xs }) ≡ size b
unfolding size
size-bytes b xs = refl
