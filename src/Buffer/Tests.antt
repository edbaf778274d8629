-- ===== src/Buffer/Tests.antt =====
-- Buffers of both kinds of block, and the theorems of the buffer at them.
use nu_raft.Common.{◌≡◌, refl, arith, inl, List, [], ◌∷◌, min, ok, throw, out_of_range}
use nu_raft.Buffer
use nu_raft.Buffer.{Buffer, alloc, set_pos}
use nu_raft.Buffer.RoundTrip.{
  Item, a_byte, some_bytes, put_items, get_items, encode_items, encode_item, get-put_items,
}
use nu_raft.Buffer.Header.{IsValid, IsAlloc, alloc-IsAlloc, alloc_too_large, pos-set_pos}

abbrev five : Buffer
five = record { word0 = 5; word1 = 0; bytes = 1 ∷ 2 ∷ 3 ∷ 4 ∷ 5 ∷ [] }

five-IsValid : IsValid five
unfolding Buffer.size Buffer.pos Buffer.is_big_block
five-IsValid = record {
  kind = inl (refl, omega arith, omega arith);
  area = refl;
  cursor = omega arith;
}

alloc-IsAlloc_example : (b : Buffer) × (alloc (λ i. i) 40000 ≡ ok b) × IsAlloc 40000 b
alloc-IsAlloc_example = alloc-IsAlloc (λ i. i) 40000 (omega arith)

alloc_too_large_example : alloc (λ i. i) 0x8000_0000 ≡ throw out_of_range
alloc_too_large_example = alloc_too_large (λ i. i) 0x8000_0000 (omega arith)

pos-set_pos_example : Buffer.pos (set_pos five 9) ≡ min 9 (Buffer.size five)
pos-set_pos_example = pos-set_pos five 9 five-IsValid

abbrev items : List Item
items = a_byte 200 ∷ some_bytes [] ∷ []

get-put_items_example :
    (c : Buffer) × (put_items items five ≡ ok c)
    × ((d : Buffer) × (get_items items (set_pos c (Buffer.pos five)) ≡ ok (items, d))
        × (Buffer.pos d ≡ Buffer.pos c))
unfolding encode_items encode_item Buffer.shifted_bytes Buffer.pos Buffer.is_big_block
get-put_items_example =
    get-put_items items five [] five.bytes
      (record { valid = five-IsValid; holds = refl; here = refl }) (tt, (omega arith, tt))
      (omega arith)
