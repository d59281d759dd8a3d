-- ===== src/Prelude/Sorting.antt =====
-- Insertion sort, as `sort.Slice` and `slices.Sort` run it on short slices.
use Prim.Native.Nat.{ℕ, ◌≤◌, suc}
use mathlib.Core.Path.{◌≡◌, refl, ap}
use mathlib.Core.Bool.{Bool}
use mathlib.Core.List.{List, [], ◌∷◌, ◌++◌, Perm}
use mathlib.Core.List.Perm
use mathlib.Core.Logic.{inl, inr}
use native.Mathlib.Omega.{arith}
use basic_hotstuff.Prelude.Tests.{if◌then◌else◌, Bool-cases, ltb}
use basic_hotstuff.Prelude.Lists.{length, All}

module _ {ℓ} {A : Type ℓ} (less : A → A → Bool) where
  unfoldable pub insert_sorted : A → List A → List A
  insert_sorted x [] = x ∷ []
  insert_sorted x (y ∷ ys) = if less y x then y ∷ insert_sorted x ys else x ∷ y ∷ ys

  unfoldable pub sort_by : List A → List A
  unfolding insert_sorted
  sort_by [] = []
  sort_by (x ∷ xs) = insert_sorted x (sort_by xs)

  pub length-insert_sorted : (x : A) (xs : List A) → length (insert_sorted x xs) ≡ suc (length xs)
  unfolding insert_sorted
  length-insert_sorted x [] = refl
  length-insert_sorted x (y ∷ ys) = ground (arith, length-insert_sorted x ys)

  pub length-sort_by : (xs : List A) → length (sort_by xs) ≡ length xs
  unfolding sort_by
  length-sort_by [] = refl
  length-sort_by (x ∷ xs) = omega (arith, length-insert_sorted x (sort_by xs), length-sort_by xs)

  pub insert_sorted-perm : (x : A) (xs : List A) → Perm (insert_sorted x xs) (x ∷ xs)
  unfolding insert_sorted
  insert_sorted-perm x [] = Perm.refl (x ∷ [])
  insert_sorted-perm x (y ∷ ys) = elim (Bool-cases (less y x)) [
    | inl e ↦ rw e (Perm.trans (Perm.cons y (insert_sorted-perm x ys)) (Perm.swap x y ys))
    | inr e ↦ rw e (Perm.refl (x ∷ y ∷ ys))
  ]

  pub sort_by-perm : (xs : List A) → Perm (sort_by xs) xs
  unfolding sort_by
  sort_by-perm [] = Perm.refl []
  sort_by-perm (x ∷ xs) =
      Perm.trans (insert_sorted-perm x (sort_by xs)) (Perm.cons x (sort_by-perm xs))

-- Sorting by a numeric key.
module _ {ℓ} {A : Type ℓ} (key : A → ℕ) where
  abbrev pub by_key : A → A → Bool
  by_key a b = ltb (key a) (key b)

  abbrev pub IsSortedBy : List A → Type 0
  IsSortedBy [] = Unit
  IsSortedBy (x ∷ xs) = All (λ y. key x ≤ key y) xs × IsSortedBy xs

  All-insert_sorted :
      (n : ℕ) (x : A) (xs : List A)
      → n ≤ key x
      → All (λ y. n ≤ key y) xs
      → All (λ y. n ≤ key y) (insert_sorted by_key x xs)
  unfolding insert_sorted
  All-insert_sorted n x [] h a = (h, tt)
  All-insert_sorted n x (y ∷ ys) h a = elim (Bool-cases (by_key y x)) [
    | inl e ↦ rw e (a.0, All-insert_sorted n x ys h a.1)
    | inr e ↦ rw e (h, a)
  ]

  All-weaken : (m n : ℕ) (xs : List A) → m ≤ n → All (λ y. n ≤ key y) xs → All (λ y. m ≤ key y) xs
  All-weaken m n [] h a = tt
  All-weaken m n (x ∷ xs) h a = (omega arith, All-weaken m n xs h a.1)

  insert_sorted-IsSortedBy :
      (x : A) (xs : List A) → IsSortedBy xs → IsSortedBy (insert_sorted by_key x xs)
  unfolding insert_sorted
  insert_sorted-IsSortedBy x [] s = (tt, tt)
  insert_sorted-IsSortedBy x (y ∷ ys) s = elim (Bool-cases (by_key y x)) [
    | inl e ↦
        rw e (All-insert_sorted (key y) x ys (ground arith) s.0, insert_sorted-IsSortedBy x ys s.1)
    | inr e ↦
        let le : key x ≤ key y = ground arith in
        rw e ((le, All-weaken (key x) (key y) ys le s.0), s)
  ]

  pub sort_by-IsSortedBy : (xs : List A) → IsSortedBy (sort_by by_key xs)
  unfolding sort_by
  sort_by-IsSortedBy [] = tt
  sort_by-IsSortedBy (x ∷ xs) =
      insert_sorted-IsSortedBy x (sort_by by_key xs) (sort_by-IsSortedBy xs)

module _ {ℓ} {A : Type ℓ} where
  -- A nonempty list without its last element, and that element.
  unfoldable pub split_last : A → List A → List A × A
  split_last x [] = ([], x)
  split_last x (y ∷ ys) = let (front, last) = split_last y ys in (x ∷ front, last)

  pub split_last-append :
      (x : A) (xs : List A) → (split_last x xs).0 ++ (split_last x xs).1 ∷ [] ≡ x ∷ xs
  unfolding split_last
  split_last-append x [] = refl
  split_last-append x (y ∷ ys) = ap (◌∷◌ x) (split_last-append y ys)

  pub length-split_last : (x : A) (xs : List A) → length (split_last x xs).0 ≡ length xs
  unfolding split_last
  length-split_last x [] = refl
  length-split_last x (y ∷ ys) = ap suc (length-split_last y ys)

module _ {ℓ} {A : Type ℓ} (key : A → ℕ) where
  last_above :
      (n : ℕ) (x : A) (xs : List A)
      → n ≤ key x
      → All (λ y. n ≤ key y) xs
      → n ≤ key (split_last x xs).1
  unfolding split_last
  last_above n x [] h a = h
  last_above n x (y ∷ ys) h a = last_above n y ys a.0 a.1

  pub split_last-max :
      (x : A) (xs : List A)
      → All (λ y. key x ≤ key y) xs
      → IsSortedBy key xs
      → All (λ y. key y ≤ key (split_last x xs).1) (split_last x xs).0
  unfolding split_last
  split_last-max x [] a s = tt
  split_last-max x (y ∷ ys) a s = (last_above (key x) y ys a.0 a.1, split_last-max y ys s.0 s.1)
