-- ===== src/Serializer/Written.antt =====
-- A fresh buffer that is filled through a serializer of src/buffer_serializer.cxx, and the
-- serializer that reads it from the front again.
use nu_raft.Common.{
  ℕ, ◌^◌, ◌<◌, ◌≡◌, refl, ◌∙◌, arith, List, [], length, drop, drop_all, append-nil, Result, ok,
  ◌>>=◌,
}
use nu_raft.Buffer
use nu_raft.Buffer.{Buffer}
use nu_raft.Buffer.Header.{alloc-IsAlloc}
use nu_raft.Serializer.{Serializer, little, open_buffer}
use nu_raft.Serializer.Puts.{Writes}
use nu_raft.Serializer.Gets.{At, Reads, open_buffer-At, open_buffer_again}

unfoldable pub written : (ℕ → ℕ) → (Serializer → Result Serializer) → ℕ → Result Buffer
written heap put n = do b ← Buffer.alloc heap n; s ← put (open_buffer little b); ok s.buf

-- A writer that fills the buffer exactly succeeds.
pub written_lem :
    (heap : ℕ → ℕ) (put : Serializer → Result Serializer) (src : List ℕ) (n : ℕ)
    → Writes little put src
    → length src ≡ n
    → n < 2 ^ 31
    → (b : Buffer) × (written heap put n ≡ ok b)
      × At (open_buffer little b) [] src
      × ((open_buffer little b).endian ≡ little)
unfolding written
written_lem heap put src n w full small =
    let (b, allocated, fresh) = alloc-IsAlloc heap n small in
    let room : length b.bytes ≡ n = fresh.valid.area ∙ fresh.of_size in
    let (opened, order) =
      open_buffer-At little b b.bytes
        (record { valid = fresh.valid; holds = refl; here = fresh.at_front }) in
    let (s, put_all, at, same) =
      w (open_buffer little b) [] b.bytes order opened (omega (arith, full, room)) in
    let (again, order') = open_buffer_again little s src (drop (length src) b.bytes) at in
    (
      s.buf,
      rw (allocated, put_all) refl,
      rw (← append-nil src)
          (rw (drop_all (length src) b.bytes (omega (arith, full, room))) at again),
      order',
    )

-- A reader of what was written gives the value back.
pub read_written {ℓ} :
    {A : Type ℓ} (heap : ℕ → ℕ) (put : Serializer → Result Serializer)
    (get : Serializer → Result (A × Serializer)) (a : A) (src : List ℕ) (n : ℕ)
    → Writes little put src
    → Reads little get a src
    → length src ≡ n
    → n < 2 ^ 31
    → (b : Buffer) × (written heap put n ≡ ok b)
      × ((s : Serializer) × (get (open_buffer little b) ≡ ok (a, s)) × (s.cursor ≡ n))
read_written heap put get a src n w r full small =
    let (b, done, at, order) = written_lem heap put src n w full small in
    let (s, got, at', _) = r (open_buffer little b) [] [] order (rw (append-nil src) at) in
    (b, done, (s, got, omega (arith, at'.here, full)))
