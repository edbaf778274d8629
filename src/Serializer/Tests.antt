-- ===== src/Serializer/Tests.antt =====
-- A small buffer, and the theorems of the serializer at it.
use nu_raft.Common.{ℕ, ◌≡◌, refl, arith, inl, List, [], ◌∷◌, ok, throw, fault, ◌>>=◌}
use nu_raft.Buffer
use nu_raft.Buffer.{Buffer}
use nu_raft.Serializer.{Serializer, big, set_pos, get_cstr, put_bytes_of, put_little}
use nu_raft.Serializer.Gets.{At, get_cstr_unterminated}
use nu_raft.Serializer.RoundTrip.{
  Field, u8, u16, bytes, put_fields, get_fields, kinds_of, encode_fields, get-put_fields,
}

-- Twelve bytes, none of them zero.
abbrev room : List ℕ
room = 1 ∷ 2 ∷ 3 ∷ 4 ∷ 5 ∷ 6 ∷ 7 ∷ 8 ∷ 9 ∷ 10 ∷ 11 ∷ 12 ∷ []

abbrev twelve : Serializer
twelve = record { endian = big; buf = record { word0 = 12; word1 = 0; bytes = room }; cursor = 0 }

twelve-At : At twelve [] room
unfolding Buffer.size Buffer.pos Buffer.is_big_block
twelve-At = record {
  valid = record { kind = inl (refl, omega arith, omega arith); area = refl; cursor = omega arith };
  holds = refl;
  here = refl;
}

abbrev fields : List Field
fields = u16 258 ∷ bytes (7 ∷ 0 ∷ []) ∷ u8 255 ∷ []

get-put_fields_example :
    (t : Serializer) × (put_fields fields twelve ≡ ok t)
    × ((u : Serializer) × ((set_pos 0 t >>= get_fields (kinds_of fields)) ≡ ok (fields, u))
        × (u.cursor ≡ t.cursor))
unfolding encode_fields put_bytes_of put_little Buffer.shifted_bytes
get-put_fields_example =
    get-put_fields fields twelve [] room twelve-At (omega arith, (omega arith, (omega arith, tt)))
      (omega arith)

get_cstr_unterminated_example : get_cstr twelve ≡ throw fault
get_cstr_unterminated_example = get_cstr_unterminated twelve [] room twelve-At (
  (λ e. ground arith),
  (
    (λ e. ground arith),
    (
      (λ e. ground arith),
      (
        (λ e. ground arith),
        (
          (λ e. ground arith),
          (
            (λ e. ground arith),
            (
              (λ e. ground arith),
              (
                (λ e. ground arith),
                (
                  (λ e. ground arith),
                  ((λ e. ground arith), ((λ e. ground arith), ((λ e. ground arith), tt))),
                ),
              ),
            ),
          ),
        ),
      ),
    ),
  ),
)
