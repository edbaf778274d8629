-- ===== src/Buffer/RoundTrip.antt =====
-- Whatever sequence of values src/buffer.cxx puts, the same sequence of gets reads back.
use nu_raft.Common.{
  ℕ, ◌^◌, ◌≡◌, ◌≤◌, ◌<◌, refl, sym, ◌∙◌, arith, List, [], ◌∷◌, ◌++◌, length, length-append, drop,
  Result, ok, ◌>>=◌, append_assoc, append-nil,
}
use nu_raft.Buffer.{
  Buffer, pos, set_pos, shifted_bytes, put_byte, put_int, put_ulong, put_bytes, get_byte, get_int,
  get_ulong, get_bytes,
}
use nu_raft.Buffer.Header.{set_pos-IsValid, bytes-set_pos, pos-set_pos}
use nu_raft.Buffer.Cursor.{At, size-At}
use nu_raft.Buffer.Put.{
  Writes, put_byte-Writes, put_int-Writes, put_ulong-Writes, put_bytes-Writes, then-Writes,
}
use nu_raft.Buffer.Get.{
  Reads, get_byte-Reads, get_int-Reads, get_ulong-Reads, get_bytes-Reads, then-Reads, last-Reads,
}

pub data Item : Type 0 where
  a_byte an_int a_ulong : ℕ → Item
  some_bytes : List ℕ → Item

put_item : Item → Buffer → Result Buffer
put_item (a_byte v) b = put_byte v b
put_item (an_int v) b = put_int v b
put_item (a_ulong v) b = put_ulong v b
put_item (some_bytes v) b = put_bytes v b

-- The get for the type of an item.
get_like : Item → Buffer → Result (Item × Buffer)
get_like (a_byte _) b = do (v, b') ← get_byte b; ok (a_byte v, b')
get_like (an_int _) b = do (v, b') ← get_int b; ok (an_int v, b')
get_like (a_ulong _) b = do (v, b') ← get_ulong b; ok (a_ulong v, b')
get_like (some_bytes _) b = do (v, b') ← get_bytes b; ok (some_bytes v, b')

pub put_items : List Item → Buffer → Result Buffer
unfolding put_item
put_items [] b = ok b
put_items (i ∷ is) b = do b' ← put_item i b; put_items is b'

pub get_items : List Item → Buffer → Result (List Item × Buffer)
unfolding get_like
get_items [] b = ok ([], b)
get_items (i ∷ is) b = do (v, b') ← get_like i b; (vs, b'') ← get_items is b'; ok (v ∷ vs, b'')

abbrev pub Fits : Item → Type 0
Fits (a_byte v) = Unit {0}
Fits (an_int v) = v < 2 ^ 32
Fits (a_ulong v) = v < 2 ^ 64
Fits (some_bytes v) = length v < 2 ^ 31

abbrev pub AllFit : List Item → Type 0
AllFit [] = Unit {0}
AllFit (i ∷ is) = Fits i × AllFit is

unfoldable pub encode_item : Item → List ℕ
encode_item (a_byte v) = v ∷ []
encode_item (an_int v) = shifted_bytes 4 0 v
encode_item (a_ulong v) = shifted_bytes 8 0 v
encode_item (some_bytes v) = shifted_bytes 4 0 (length v) ++ v

unfoldable pub encode_items : List Item → List ℕ
unfolding encode_item
encode_items [] = []
encode_items (i ∷ is) = encode_item i ++ encode_items is

put_item-Writes : (i : Item) → Writes (put_item i) (encode_item i)
unfolding put_item encode_item
put_item-Writes (a_byte v) = put_byte-Writes v
put_item-Writes (an_int v) = put_int-Writes v
put_item-Writes (a_ulong v) = put_ulong-Writes v
put_item-Writes (some_bytes v) = put_bytes-Writes v

done-Writes : Writes (λ b. ok b) []
done-Writes b front back a h = (b, refl, rw append-nil a)

put_items-Writes : (is : List Item) → Writes (put_items is) (encode_items is)
unfolding put_items encode_items
put_items-Writes [] = done-Writes
put_items-Writes (i ∷ is) =
    then-Writes (put_item i) (put_items is) (encode_item i) (encode_items is) (put_item-Writes i)
      (put_items-Writes is)

get_like-Reads : (i : Item) → Fits i → Reads (get_like i) i (encode_item i)
unfolding get_like encode_item
get_like-Reads (a_byte v) h = last-Reads get_byte a_byte v _ (get_byte-Reads v)
get_like-Reads (an_int v) h = last-Reads get_int an_int v _ (get_int-Reads v h)
get_like-Reads (a_ulong v) h = last-Reads get_ulong a_ulong v _ (get_ulong-Reads v h)
get_like-Reads (some_bytes v) h = last-Reads get_bytes some_bytes v _ (get_bytes-Reads v h)

abbrev no_items : List Item
no_items = []

done-Reads : Reads (λ b. ok (no_items, b)) no_items []
done-Reads b front back a = (b, refl, rw append-nil a)

get_items-Reads : (is : List Item) → AllFit is → Reads (get_items is) is (encode_items is)
unfolding get_items encode_items
get_items-Reads [] h = done-Reads
get_items-Reads (i ∷ is) (h, hs) =
    then-Reads (get_like i) (λ i' b'. get_items is b' >>= λ (is', b''). ok (i' ∷ is', b'')) i
      (i ∷ is) (encode_item i) (encode_items is) (get_like-Reads i h)
      (last-Reads (get_items is) (λ is'. i ∷ is') is (encode_items is) (get_items-Reads is hs))

-- Going back to an earlier position.
rewind :
    (b : Buffer) (front src rest : List ℕ) (n : ℕ)
    → n ≡ length front
    → At b (front ++ src) rest
    → At (set_pos b n) front (src ++ rest)
rewind b front src rest n at a = record {
  valid = set_pos-IsValid b n a.valid;
  holds = bytes-set_pos b n ∙ a.holds ∙ append_assoc front src rest;
  here = omega (
    arith,
    pos-set_pos b n a.valid,
    at,
    size-At b (front ++ src) rest a,
    length-append front src,
  );
}

-- Values that fit their types, the lengths of byte strings below 2 ^ 31, are put wherever the buffer
-- has room for them. Then the gets of the same types, from the position where the first was put,
-- give the same values, and the position ends where the puts left it.
pub get-put_items :
    (is : List Item) (b : Buffer) (front room : List ℕ)
    → At b front room
    → AllFit is
    → length (encode_items is) ≤ length room
    → (c : Buffer) × (put_items is b ≡ ok c)
      × ((d : Buffer) × (get_items is (set_pos c (pos b)) ≡ ok (is, d)) × (pos d ≡ pos c))
get-put_items is b front room a fit enough =
    let src = encode_items is in
    let (c, put, at_c) = put_items-Writes is b front room a enough in
    let at_r = rewind c front src (drop (length src) room) (pos b) a.here at_c in
    let (d, got, at_d) =
      get_items-Reads is fit (set_pos c (pos b)) front (drop (length src) room) at_r in
    (c, put, (d, got, at_d.here ∙ sym at_c.here))
