-- ===== src/NodeManager/Quorums.antt =====
-- What the quorum sizes are worth: how much two quorums have in common.
use basic_hotstuff.Prelude.{
  ℕ, zero, suc, ◌+◌, ◌-◌, ◌*◌, ◌/◌, ◌%◌, ◌≤◌, ◌<◌, ◌≡◌, ◌≢◌, refl, List, [], ◌∷◌, Bool, true, ◌&&◌,
  ok, nat_beq, leb, ltb, if◌then◌else◌, arith, length, All, sum_below, sum_below-add, sum_below-hit,
  both, pigeonhole,
}
use basic_hotstuff.NodeManager.{QuorumSizes, cal_quorum_size}

abbrev pub count : ℕ → List ℕ → ℕ
count i [] = 0
count i (x ∷ xs) = (if nat_beq x i then 1 else 0) + count i xs

-- A set of replica ids below `n`, at least `q` of them.
pub record IsQuorum (n q : ℕ) (ids : List ℕ) : Type 0 where
  pub bounded : All (λ i. i < n) ids
  pub distinct : (i : ℕ) → count i ids ≤ 1
  pub enough : q ≤ length ids

-- How many ids below `n` are in both.
abbrev pub shared : ℕ → List ℕ → List ℕ → ℕ
shared n xs ys = sum_below n (λ i. both (count i xs) (count i ys))

pub length-sum_below :
    (n : ℕ) (ids : List ℕ) → All (λ i. i < n) ids → sum_below n (λ i. count i ids) ≡ length ids
length-sum_below n [] h = zeros n
  where
    zeros : (n : ℕ) → sum_below n (λ i. 0) ≡ 0
    zeros zero = refl
    zeros (suc n) = omega (arith, zeros n)
length-sum_below n (x ∷ xs) h = omega (
  arith,
  sum_below-add n (λ i. if nat_beq x i then 1 else 0) (λ i. count i xs),
  sum_below-hit n x h.0,
  length-sum_below n xs h.1,
)

quorum_overlap :
    (n q : ℕ) (xs ys : List ℕ) → IsQuorum n q xs → IsQuorum n q ys → q + q ≤ n + shared n xs ys
quorum_overlap n q xs ys hx hy = omega (
  arith,
  pigeonhole n (λ i. count i xs) (λ i. count i ys) hx.distinct hy.distinct,
  length-sum_below n xs hx.bounded,
  length-sum_below n ys hy.bounded,
  hx.enough,
  hy.enough,
)

-- Where `CalQuorumSize` accepts a total of the form 3k + 1, any two quorums of its size share more
-- than F ids.
pub quorums_intersect :
    (total : ℕ) (sizes : QuorumSizes) (xs ys : List ℕ)
    → cal_quorum_size total ≡ ok sizes
    → total % 3 ≡ 1
    → IsQuorum total sizes.quorum xs
    → IsQuorum total sizes.quorum ys
    → sizes.f < shared total xs ys
unfolding cal_quorum_size
quorums_intersect total sizes xs ys h m hx hy =
    ground (arith, quorum_overlap total sizes.quorum xs ys hx hy)

-- `count` ids from `first` on.
abbrev pub ids_from : ℕ → ℕ → List ℕ
ids_from zero first = []
ids_from (suc n) first = first ∷ ids_from n (suc first)

-- The quorum of the lowest ids and that of the highest.
abbrev pub low_quorum : QuorumSizes → List ℕ
low_quorum s = ids_from s.quorum 0

abbrev pub high_quorum : ℕ → QuorumSizes → List ℕ
high_quorum total s = ids_from s.quorum (total - s.quorum)

ids_from-bounded : (n first total : ℕ) → first + n ≤ total → All (λ i. i < total) (ids_from n first)
ids_from-bounded zero first total h = tt
ids_from-bounded (suc n) first total h =
    (omega arith, ids_from-bounded n (suc first) total (omega arith))

count-ids_below : (n first i : ℕ) → i < first → count i (ids_from n first) ≡ 0
count-ids_below zero first i h = refl
count-ids_below (suc n) first i h = ground (arith, count-ids_below n (suc first) i)

count-ids_from : (n first i : ℕ) → count i (ids_from n first) ≤ 1
count-ids_from zero first i = omega arith
count-ids_from (suc n) first i =
    ground (arith, count-ids_below n (suc first) i, count-ids_from n (suc first) i)

length-ids_from : (n first : ℕ) → length (ids_from n first) ≡ n
length-ids_from zero first = refl
length-ids_from (suc n) first = omega (arith, length-ids_from n (suc first))

ids_from-IsQuorum : (n first total : ℕ) → first + n ≤ total → IsQuorum total n (ids_from n first)
ids_from-IsQuorum n first total h = record {
  bounded = ids_from-bounded n first total h;
  distinct = λ i. count-ids_from n first i;
  enough = omega (arith, length-ids_from n first);
}

-- The sharing of the two quorums is at most F, for one total.
misses : ℕ → Bool
misses total =
    let f = (total - 1) / 3 in
    leb (shared total (ids_from (2 * f + 1) 0) (ids_from (2 * f + 1) (total - (2 * f + 1)))) f

each_up_to : (ℕ → Bool) → ℕ → Bool
each_up_to test zero = true
each_up_to test (suc top) = each_up_to test top && test top

each_up_to-elim :
    (test : ℕ → Bool) (top i : ℕ) → i < top → each_up_to test top ≡ true → test i ≡ true
unfolding each_up_to
each_up_to-elim test zero i lt all = absurd (omega arith)
each_up_to-elim test (suc top) i lt all = ground (arith, each_up_to-elim test top i)

abbrev misses_unless : ℕ → Bool
misses_unless total =
    if ltb total 4 then true else (if nat_beq (total % 3) 1 then true else misses total)

misses_table : each_up_to misses_unless 17 ≡ true
unfolding each_up_to misses
misses_table = refl

-- Where `CalQuorumSize` accepts any other total, the lowest ids and the highest ids are quorums of its
-- size, and share at most F ids.
pub quorums_may_miss :
    (total : ℕ) (sizes : QuorumSizes)
    → cal_quorum_size total ≡ ok sizes
    → total % 3 ≢ 1
    → IsQuorum total sizes.quorum (low_quorum sizes)
      × IsQuorum total sizes.quorum (high_quorum total sizes)
      × (shared total (low_quorum sizes) (high_quorum total sizes) ≤ sizes.f)
unfolding cal_quorum_size misses
quorums_may_miss total sizes h m =
    let size : sizes.quorum ≡ 2 * ((total - 1) / 3) + 1 = ground arith in
    let faults : sizes.f ≡ (total - 1) / 3 = ground arith in
    let low : 4 ≤ total = ground arith in
    let high : total < 17 = ground arith in
    let table : misses_unless total ≡ true =
      each_up_to-elim misses_unless 17 total high misses_table in
    (
      ids_from-IsQuorum sizes.quorum 0 total (omega arith),
      ids_from-IsQuorum sizes.quorum (total - sizes.quorum) total (omega arith),
      rw (size, faults) (ground arith),
    )
