-- ===== src/Raft/Quorum/Sort.antt =====
-- A sort into descending order, to run the code of src/handle_append_entries.cxx with.
use nu_raft.Common.{
  ℕ, ◌≡◌, ◌≤◌, refl, arith, true, false, List, [], ◌∷◌, leb, if◌then◌else◌, Bool-cases, inl, inr,
}
use mathlib.Core.List.{Permᴰ}
use nu_raft.Raft.Quorum.Commit.{IsSort, Descending, AllBelow}

unfoldable pub insert : ℕ → List ℕ → List ℕ
insert x [] = x ∷ []
insert x (y ∷ ys) = let rest = insert x ys in if leb y x then x ∷ y ∷ ys else y ∷ rest

unfoldable pub insertion_sort : List ℕ → List ℕ
unfolding insert
insertion_sort [] = []
insertion_sort (x ∷ xs) = insert x (insertion_sort xs)

AllBelow-trans : (m n : ℕ) (xs : List ℕ) → m ≤ n → AllBelow m xs → AllBelow n xs
AllBelow-trans m n [] h hs = tt
AllBelow-trans m n (x ∷ xs) h (k, hs) = (omega (arith, h, k), AllBelow-trans m n xs h hs)

insert-AllBelow : (n x : ℕ) (xs : List ℕ) → x ≤ n → AllBelow n xs → AllBelow n (insert x xs)
unfolding insert
insert-AllBelow n x [] h hs = (h, tt)
insert-AllBelow n x (y ∷ ys) h (k, hs) = elim (Bool-cases (leb y x)) [
  | inl below ↦ rw (below) (h, (k, hs))
  | inr above ↦ rw (above) (k, insert-AllBelow n x ys h hs)
]

insert-Descending : (x : ℕ) (xs : List ℕ) → Descending xs → Descending (insert x xs)
unfolding insert
insert-Descending x [] h = (tt, tt)
insert-Descending x (y ∷ ys) (h, hs) = elim (Bool-cases (leb y x)) [
  | inl below ↦ rw (below) ((y_le below, AllBelow-trans y x ys (y_le below) h), (h, hs))
  | inr above ↦ rw (above) (insert-AllBelow y x ys (x_le above) h, insert-Descending x ys hs)
]
  where
    y_le : leb y x ≡ true → y ≤ x
    y_le e = ground arith

    x_le : leb y x ≡ false → x ≤ y
    x_le e = ground arith

same_list : (xs : List ℕ) → Permᴰ xs xs
same_list [] = Permᴰ.nil
same_list (x ∷ xs) = Permᴰ.cons refl (same_list xs)

insert-Permᴰ : (x : ℕ) (xs : List ℕ) → Permᴰ (insert x xs) (x ∷ xs)
unfolding insert
insert-Permᴰ x [] = Permᴰ.cons refl Permᴰ.nil
insert-Permᴰ x (y ∷ ys) = elim (Bool-cases (leb y x)) [
  | inl below ↦ rw (below) (same_list (x ∷ y ∷ ys))
  | inr above ↦
      rw (above) (Permᴰ.trans (Permᴰ.cons refl (insert-Permᴰ x ys)) (Permᴰ.swap refl refl))
]

insertion_sort-Permᴰ : (xs : List ℕ) → Permᴰ (insertion_sort xs) xs
unfolding insertion_sort
insertion_sort-Permᴰ [] = Permᴰ.nil
insertion_sort-Permᴰ (x ∷ xs) =
    Permᴰ.trans (insert-Permᴰ x (insertion_sort xs)) (Permᴰ.cons refl (insertion_sort-Permᴰ xs))

insertion_sort-Descending : (xs : List ℕ) → Descending (insertion_sort xs)
unfolding insertion_sort
insertion_sort-Descending [] = tt
insertion_sort-Descending (x ∷ xs) = insert-Descending x _ (insertion_sort-Descending xs)

pub insertion_sort-IsSort : IsSort insertion_sort
insertion_sort-IsSort = record {
  descending = insertion_sort-Descending;
  same = λ xs. ∣ insertion_sort-Permᴰ xs ∣₁;
}
