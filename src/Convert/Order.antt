-- ===== src/Convert/Order.antt =====
-- types/types.go, Multi.ToBytes: the bytes of a set of signatures do not depend on the order in which
-- the map is ranged over.
use basic_hotstuff.Prelude.{
  ℕ, ◌+◌, ◌≤◌, ◌≡◌, refl, List, [], ◌∷◌, Option, none, some, arith, keys, lookup, contains, nat_beq,
  nat_eq, if◌then◌else◌, sort_by, insert_sorted, ltb, IsSortedBy, sort_by-IsSortedBy, All,
  Bool-cases, inl, inr, false, ap, sym, ◌∙◌,
}
use basic_hotstuff.Types.{Signature, Multi, signers, append_signatures, multi_to_bytes}
use basic_hotstuff.NodeManager.Quorums.{count}
use basic_hotstuff.Convert.RoundTrip.{IsKeyed}

count-insert_sorted :
    (i x : ℕ) (xs : List ℕ)
    → count i (insert_sorted ltb x xs) ≡ (if nat_beq x i then 1 else 0) + count i xs
unfolding insert_sorted
count-insert_sorted i x [] = refl
count-insert_sorted i x (y ∷ ys) = elim (Bool-cases (ltb y x)) [
  | inl e ↦ rw e (omega (arith, count-insert_sorted i x ys))
  | inr e ↦ rw e refl
]

count-sort_by : (i : ℕ) (xs : List ℕ) → count i (sort_by ltb xs) ≡ count i xs
unfolding sort_by
count-sort_by i [] = refl
count-sort_by i (x ∷ xs) =
    omega (arith, count-insert_sorted i x (sort_by ltb xs), count-sort_by i xs)

-- A number that is counted in a list of numbers from `n` on is not below `n`.
count_bound : (n i : ℕ) (xs : List ℕ) → All (λ y. n ≤ y) xs → 1 ≤ count i xs → n ≤ i
count_bound n i [] all h = absurd (omega arith)
count_bound n i (x ∷ xs) all h = elim (Bool-cases (nat_beq x i)) [
  | inl e ↦ let same : x ≡ i = ground arith in omega (arith, all.0)
  | inr e ↦ count_bound n i xs all.1 (ground arith)
]

-- Two sorted lists of the same numbers, each as often, are equal.
sorted_unique :
    (xs ys : List ℕ)
    → IsSortedBy (λ x. x) xs
    → IsSortedBy (λ x. x) ys
    → ((i : ℕ) → count i xs ≡ count i ys)
    → xs ≡ ys
sorted_unique [] [] hx hy h = refl
sorted_unique [] (y ∷ ys) hx hy h = absurd (ground (arith, h y))
sorted_unique (x ∷ xs) [] hx hy h = absurd (ground (arith, h x))
sorted_unique (x ∷ xs) (y ∷ ys) hx hy h =
    let up : y ≤ x = count_bound y x (y ∷ ys) (omega arith, hy.0) (ground (arith, h x)) in
    let down : x ≤ y = count_bound x y (x ∷ xs) (omega arith, hx.0) (ground (arith, h y)) in
    let same : x ≡ y = omega arith in
    let rest : xs ≡ ys = sorted_unique xs ys hx.1 hy.1 (λ i. ground (arith, h i)) in
    rw (same, rest) refl

present : Option Signature → ℕ
present none = 0
present (some s) = 1

pub count_missing : (i : ℕ) (m : Multi) → contains i m ≡ false → count i (keys m) ≡ 0
unfolding contains
count_missing i [] h = refl
count_missing i ((k, s) ∷ m) h = ground (arith, count_missing i m)

count-keys : (i : ℕ) (m : Multi) → IsKeyed m → count i (keys m) ≡ present (lookup i m)
unfolding lookup present
count-keys i [] h = refl
count-keys i ((k, s) ∷ m) h = elim (Bool-cases (nat_beq k i)) [
  | inl e ↦
      let same : k ≡ i = ground arith in
      let gone : contains i m ≡ false = rw (← same) h.1 in
      rw e (omega (arith, count_missing i m gone))
  | inr e ↦ rw e (omega (arith, count-keys i m h.2))
]

signers-keys : (m : Multi) → IsKeyed m → signers m ≡ keys m
unfolding signers
signers-keys [] h = refl
signers-keys ((k, s) ∷ m) h = rw (h.0, signers-keys m h.2) refl

append_signatures-lookup :
    (m n : Multi) (is : List ℕ)
    → ((i : ℕ) → lookup i m ≡ lookup i n)
    → append_signatures m is ≡ append_signatures n is
unfolding append_signatures
append_signatures-lookup m n [] h = refl
append_signatures-lookup m n (i ∷ is) h = rw (h i, append_signatures-lookup m n is h) refl

-- Two maps of signatures in which every signature stands under its signer, and no id twice, and in
-- which every id reads the same, have the same bytes, in whatever order they hold the ids.
pub multi_to_bytes_order :
    (m n : Multi)
    → IsKeyed m
    → IsKeyed n
    → ((i : ℕ) → lookup i m ≡ lookup i n)
    → multi_to_bytes m ≡ multi_to_bytes n
unfolding multi_to_bytes
multi_to_bytes_order m n hm hn h =
    let ids : sort_by ltb (keys m) ≡ sort_by ltb (keys n) =
      sorted_unique (sort_by ltb (keys m)) (sort_by ltb (keys n))
        (sort_by-IsSortedBy (λ x. x) (keys m)) (sort_by-IsSortedBy (λ x. x) (keys n))
        (λ i.
          count-sort_by i (keys m)
          ∙ (count-keys i m hm
              ∙ (ap present (h i) ∙ (sym (count-keys i n hn) ∙ sym (count-sort_by i (keys n)))))) in
    rw (signers-keys m hm, signers-keys n hn, ids)
      (append_signatures-lookup m n (sort_by ltb (keys n)) h)
