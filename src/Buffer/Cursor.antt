-- ===== src/Buffer/Cursor.antt =====
-- Writing and reading at the cursor of a buffer (src/buffer.cxx), as statements on plain lists of
-- bytes: `At b front back` says what lies before and behind the cursor.
use nu_raft.Common.{
  ℕ, ◌+◌, ◌≤◌, ◌≡◌, ap, sym, ◌∙◌, arith, length, length-append, length-drop, ◌++◌, List, take, drop,
  append_assoc, take_front, drop_front, drop_past,
}
use nu_raft.Buffer.{Buffer, size, pos, mv_fw_block, avail, rest_of, store}
use nu_raft.Buffer.Header.{
  IsValid, pos-mv_fw_block, bytes-mv_fw_block, mv_fw_block-IsValid, avail_lem,
}

pub record At (b : Buffer) (front back : List ℕ) : Type 0 where
  pub valid : IsValid b
  pub holds : b.bytes ≡ front ++ back
  pub here : pos b ≡ length front

module _ (b : Buffer) (front back : List ℕ) (a : At b front back) where
  pub size-At : size b ≡ length front + length back
  size-At = omega (arith, a.valid.area, ap length a.holds, length-append front back)

  pub avail-At : avail b ≡ length back
  avail-At = omega (arith, avail_lem b a.valid, size-At, a.here)

  pub rest_of-At : rest_of b ≡ back
  unfolding rest_of
  rest_of-At = rw (a.here, a.holds) (drop_front front back)

  -- Moving over the next bytes.
  pub mv_fw-At :
      (mid rest : List ℕ) → back ≡ mid ++ rest → At (mv_fw_block b (length mid)) (front ++ mid) rest
  mv_fw-At mid rest e = record {
    valid = mv_fw_block-IsValid b (length mid) a.valid fits;
    holds =
        bytes-mv_fw_block b (length mid)
        ∙ a.holds
        ∙ ap (◌++◌ front) e
        ∙ sym (append_assoc front mid rest);
    here =
        omega (arith, pos-mv_fw_block b (length mid) a.valid fits, a.here, length-append front mid);
  }
    where
      fits : pos b + length mid ≤ size b
      fits = omega (arith, a.here, size-At, ap length e, length-append mid rest)

  -- Overwriting the next bytes.
  pub store-At :
      (src : List ℕ)
      → length src ≤ length back
      → At (store b src) front (src ++ drop (length src) back)
  unfolding store size pos
  store-At src h = record {
    valid = record { kind = a.valid.kind; area = same_length; cursor = a.valid.cursor };
    holds = overwritten;
    here = a.here;
  }
    where
      overwritten :
          take (pos b) b.bytes ++ (src ++ drop (pos b + length src) b.bytes)
          ≡ front ++ (src ++ drop (length src) back)
      overwritten = rw (a.here, a.holds, take_front front back, drop_past front back (length src))

      same_length :
          length (take (pos b) b.bytes ++ (src ++ drop (pos b + length src) b.bytes)) ≡ size b
      same_length = rw overwritten (
          omega (
            arith,
            length-append front (src ++ drop (length src) back),
            length-append src (drop (length src) back),
            length-drop (length src) back,
            size-At,
          ))
