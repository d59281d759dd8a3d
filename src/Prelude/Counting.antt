-- ===== src/Prelude/Counting.antt =====
-- Sums over the numbers below a bound, and the pigeonhole principle that they give.
use Prim.Native.Nat.{ℕ, zero, suc, ◌+◌, ◌≤◌, ◌<◌}
use mathlib.Core.Path.{◌≡◌, refl}
use native.Mathlib.Omega.{arith}
use basic_hotstuff.Prelude.Tests.{nat_beq, if◌then◌else◌}

abbrev pub sum_below : ℕ → (ℕ → ℕ) → ℕ
sum_below zero f = 0
sum_below (suc n) f = f n + sum_below n f

pub sum_below-add :
    (n : ℕ) (f g : ℕ → ℕ) → sum_below n (λ i. f i + g i) ≡ sum_below n f + sum_below n g
sum_below-add zero f g = refl
sum_below-add (suc n) f g = omega (arith, sum_below-add n f g)

pub sum_below-le : (n : ℕ) (f g : ℕ → ℕ) → ((i : ℕ) → f i ≤ g i) → sum_below n f ≤ sum_below n g
sum_below-le zero f g h = omega arith
sum_below-le (suc n) f g h = omega (arith, sum_below-le n f g h, h n)

pub sum_below-suc : (n : ℕ) (f : ℕ → ℕ) → sum_below n (λ i. suc (f i)) ≡ n + sum_below n f
sum_below-suc zero f = refl
sum_below-suc (suc n) f = omega (arith, sum_below-suc n f)

sum_below-miss : (n x : ℕ) → n ≤ x → sum_below n (λ i. if nat_beq x i then 1 else 0) ≡ 0
sum_below-miss zero x h = refl
sum_below-miss (suc n) x h = ground (arith, sum_below-miss n x)

pub sum_below-hit : (n x : ℕ) → x < n → sum_below n (λ i. if nat_beq x i then 1 else 0) ≡ 1
sum_below-hit zero x h = absurd (omega arith)
sum_below-hit (suc n) x h = ground (arith, sum_below-miss n x, sum_below-hit n x)

abbrev pub both : ℕ → ℕ → ℕ
both zero b = 0
both (suc a) zero = 0
both (suc a) (suc b) = 1

both_bound : (a b : ℕ) → a ≤ 1 → b ≤ 1 → a + b ≤ suc (both a b)
both_bound zero b h k = omega arith
both_bound (suc a) zero h k = omega arith
both_bound (suc a) (suc b) h k = omega arith

-- Two families of at most one each below `n` meet as often as their sizes exceed `n`.
pub pigeonhole :
    (n : ℕ) (f g : ℕ → ℕ)
    → ((i : ℕ) → f i ≤ 1)
    → ((i : ℕ) → g i ≤ 1)
    → sum_below n f + sum_below n g ≤ n + sum_below n (λ i. both (f i) (g i))
pigeonhole n f g hf hg = omega (
  arith,
  sum_below-add n f g,
  sum_below-le n (λ i. f i + g i) (λ i. suc (both (f i) (g i)))
      (λ i. both_bound (f i) (g i) (hf i) (hg i)),
  sum_below-suc n (λ i. both (f i) (g i)),
)
