-- ===== src/Raft/SavedState/RoundTrip.antt =====
-- What include/libnuraft/srv_state.hxx saves, it loads again, in the current and the old format.
use nu_raft.Common.{
  ℕ, ◌^◌, ◌<◌, ◌≡◌, refl, ap, sym, ◌∙◌, arith, Bool, true, false, List, [], ◌∷◌, ◌++◌, length, ok,
  append-nil, ◌==◌, lt→ltb, ltb_of_le, length-append, length-drop, drop,
}
use nu_raft.Buffer
use nu_raft.Buffer.{Buffer, shifted_bytes}
use nu_raft.Buffer.Header.{alloc-IsAlloc}
use nu_raft.Buffer.Cursor
use nu_raft.Buffer.Put
use nu_raft.Buffer.Put.{filled_lem, put_int-Writes, put_ulong-Writes}
use nu_raft.Buffer.Get.{get_int-Reads, get_ulong-Reads}
use nu_raft.Serializer.{Serializer, little, open_buffer, put_bytes_of}
use nu_raft.Serializer.Puts.{Writes, then-Writes, put_u8-Writes, put_u64-Writes, put_i32-Writes}
use nu_raft.Serializer.Gets.{
  At, Reads, open_buffer-At, open_buffer_again, then-Reads, last-Reads, get_u8-Reads, get_u64-Reads,
  get_i32-Reads,
}
use nu_raft.Raft.Types.{SrvState}
use nu_raft.Raft.SavedState.{
  timer_byte, put_v0, serialize_v0, put_v1p, serialize_v1p, deserialize_v0, get_v1p,
  deserialize_v1p, deserialize_state,
}

-- The term and the vote fit their machine types.
pub record IsState (st : SrvState) : Type 0 where
  pub term_fits : st.term < 2 ^ 64
  pub vote_fits : st.voted_for < 2 ^ 32

encode_v1p : ℕ → SrvState → List ℕ
encode_v1p version st =
    (version ∷ [])
    ++ (shifted_bytes 8 0 st.term
        ++ (shifted_bytes 4 0 st.voted_for ++ (timer_byte st.election_timer_allowed ∷ [])))

length-encode_v1p : (version : ℕ) (st : SrvState) → length (encode_v1p version st) ≡ 14
unfolding encode_v1p shifted_bytes
length-encode_v1p version st = refl

put_v1p-Writes :
    (version : ℕ) (st : SrvState) → Writes little (put_v1p version st) (encode_v1p version st)
unfolding put_v1p encode_v1p put_bytes_of
put_v1p-Writes version st = then-Writes little _ _ _ _ (put_u8-Writes little version) (
    then-Writes little _ _ _ _ (put_u64-Writes little st.term) (
      then-Writes little _ _ _ _ (put_i32-Writes little st.voted_for)
        (put_u8-Writes little (timer_byte st.election_timer_allowed))))

timer_round_trip : (b : Bool) → (timer_byte b == 1) ≡ b
unfolding timer_byte
timer_round_trip true = refl
timer_round_trip false = refl

timer_fits : (b : Bool) → timer_byte b < 2 ^ 8
unfolding timer_byte
timer_fits true = omega arith
timer_fits false = omega arith

get_v1p-Reads :
    (version : ℕ) (st : SrvState)
    → version < 2 ^ 8
    → IsState st
    → Reads little get_v1p st (encode_v1p version st)
unfolding get_v1p encode_v1p put_bytes_of
get_v1p-Reads version st small v s front back order at =
    let (s', e, a, same) = parts s front back order at in
    (
      s',
      e
          ∙ ap (λ (t : Bool). ok (record st { election_timer_allowed = t }, s'))
              (timer_round_trip st.election_timer_allowed),
      a,
      same,
    )
  where
    parts :
        Reads little get_v1p
          (record st { election_timer_allowed = timer_byte st.election_timer_allowed == 1 })
          (encode_v1p version st)
    parts = then-Reads little _ _ version _ _ _ (get_u8-Reads little version small) (
        then-Reads little _ _ st.term _ _ _ (get_u64-Reads little st.term v.term_fits) (
          then-Reads little _ _ st.voted_for _ _ _ (get_i32-Reads little st.voted_for v.vote_fits) (
            last-Reads little _ _ (timer_byte st.election_timer_allowed) _ (
              get_u8-Reads little (timer_byte st.election_timer_allowed)
                (timer_fits st.election_timer_allowed)))))

load_v1p :
    (version : ℕ) (st : SrvState) (b : Buffer) (rest : List ℕ)
    → version < 2 ^ 8
    → IsState st
    → At (open_buffer little b) [] (encode_v1p version st ++ rest)
    → (open_buffer little b).endian ≡ little
    → deserialize_v1p b ≡ ok st
unfolding deserialize_v1p
load_v1p version st b rest small v at order =
    let (t, got, _, _) = get_v1p-Reads version st small v (open_buffer little b) [] rest order at in
    rw got refl

save_v1p :
    (heap : ℕ → ℕ) (version : ℕ) (st : SrvState)
    → (s : Serializer) × (serialize_v1p heap version st ≡ ok s.buf)
      × ((rest : List ℕ) × At s (encode_v1p version st) rest × (length rest ≡ 0))
unfolding serialize_v1p
save_v1p heap version st =
    let (b, allocated, fresh) = alloc-IsAlloc heap 14 (omega arith) in
    let room : length b.bytes ≡ 14 = fresh.valid.area ∙ fresh.of_size in
    let (opened, order) =
      open_buffer-At little b b.bytes
        (record { valid = fresh.valid; holds = refl; here = fresh.at_front }) in
    let (s, put, at, same) =
      put_v1p-Writes version st (open_buffer little b) [] b.bytes order opened
        (omega (arith, length-encode_v1p version st, room)) in
    (
      s,
      rw (allocated, put) refl,
      (
        drop (length (encode_v1p version st)) b.bytes,
        at,
        omega (
          arith,
          length-drop (length (encode_v1p version st)) b.bytes,
          length-encode_v1p version st,
          room,
        ),
      ),
    )

-- Saving a state whose term and vote fit their types, with any version number, succeeds, and
-- loading the buffer gives the state back, the election timer's flag included.
pub deserialize-serialize_v1p :
    (heap : ℕ → ℕ) (version : ℕ) (st : SrvState)
    → version < 2 ^ 8
    → IsState st
    → (b : Buffer) × (serialize_v1p heap version st ≡ ok b) × (deserialize_state b ≡ ok st)
unfolding deserialize_state
deserialize-serialize_v1p heap version st small v =
    let (s, saved, (rest, at, none_left)) = save_v1p heap version st in
    let (again, order) = open_buffer_again little s (encode_v1p version st) rest at in
    let total : Buffer.size s.buf ≡ 14 =
      sym at.valid.area
      ∙ ap length at.holds
      ∙ omega (
        arith,
        length-append (encode_v1p version st) rest,
        length-encode_v1p version st,
        none_left,
      ) in
    (
      s.buf,
      saved,
      rw (lt→ltb 12 (Buffer.size s.buf) (omega (arith, total)))
          (load_v1p version st s.buf rest small v again order),
    )

encode_v0 : SrvState → List ℕ
encode_v0 st = shifted_bytes 8 0 st.term ++ shifted_bytes 4 0 st.voted_for

length-encode_v0 : (st : SrvState) → length (encode_v0 st) ≡ 12
unfolding encode_v0 shifted_bytes
length-encode_v0 st = refl

put_v0-Writes : (st : SrvState) → Put.Writes (put_v0 st) (encode_v0 st)
unfolding put_v0 encode_v0
put_v0-Writes st = Put.then-Writes _ _ _ _ (put_ulong-Writes st.term) (put_int-Writes st.voted_for)

-- A state saved in the old format, whose term and vote fit their types, loads with the term and
-- the vote it had, and with the election timer allowed.
pub deserialize-serialize_v0 :
    (heap : ℕ → ℕ) (st : SrvState)
    → IsState st
    → (b : Buffer) × (serialize_v0 heap st ≡ ok b)
      × (deserialize_state b ≡ ok (record st { election_timer_allowed = true }))
unfolding serialize_v0 deserialize_state deserialize_v0
deserialize-serialize_v0 heap st v =
    let (b, saved, at) =
      filled_lem heap (put_v0 st) (encode_v0 st) (put_v0-Writes st)
        (omega (arith, length-encode_v0 st)) in
    let (b1, got_term, at1) =
      get_ulong-Reads st.term v.term_fits b [] (shifted_bytes 4 0 st.voted_for)
        (unfold encode_v0 in at) in
    let (b2, got_vote, _) =
      get_int-Reads st.voted_for v.vote_fits b1 (shifted_bytes 8 0 st.term) []
        (rw append-nil at1) in
    let total : Buffer.size b ≡ 12 =
      omega (arith, Cursor.size-At b [] (encode_v0 st) at, length-encode_v0 st) in
    (
      b,
      ap (Put.filled heap (put_v0 st)) (sym (length-encode_v0 st)) ∙ saved,
      rw (ltb_of_le 12 (Buffer.size b) (omega (arith, total))) (rw (got_term, got_vote) refl),
    )
