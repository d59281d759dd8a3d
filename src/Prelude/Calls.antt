-- ===== src/Prelude/Calls.antt =====
-- What holds of the value of a call that returns, one rule for each way to build a call.
use mathlib.Core.Path.{◌≡◌, refl}
use mathlib.Core.Option.{Option, none, some}
use mathlib.Core.Bool.{Bool, true, false}
use native.Mathlib.Omega.{arith}
use basic_hotstuff.Prelude.Tests.{if◌then◌else◌}
use basic_hotstuff.Prelude.Results.{
  Error, Result, ok, err, panic, hang, out_of_fuel, ◌>>=◌, attempt, from_option,
}

pub record Yields {ℓ} {A : Type ℓ} (P : A → Type 0) (r : Result A) : Type ℓ where
  pub at : (a : A) → r ≡ ok a → P a

module _ {ℓ} {A : Type ℓ} {P : A → Type 0} where
  pub Yields-ok : (a : A) → P a → Yields P (ok a)
  Yields-ok a h = record { at = λ b e. let same : a ≡ b = ground arith in rw (← same) h }

  pub Yields-err : (e : Error) → Yields P (err e)
  Yields-err e = record { at = λ b h. cc }

  pub Yields-panic : Yields P panic
  Yields-panic = record { at = λ b h. cc }

  pub Yields-hang : Yields P hang
  Yields-hang = record { at = λ b h. cc }

  pub Yields-out_of_fuel : Yields P out_of_fuel
  Yields-out_of_fuel = record { at = λ b h. cc }

  pub Yields-if :
      (b : Bool) (m n : Result A)
      → (b ≡ true → Yields P m)
      → (b ≡ false → Yields P n)
      → Yields P (if b then m else n)
  Yields-if true m n hm hn = hm refl
  Yields-if false m n hm hn = hn refl

module _ {ℓ κ} {A : Type ℓ} {B : Type κ} {Q : B → Type 0} where
  -- The rest may use the value that the first call returned.
  pub Yields-bind :
      (m : Result A) (f : A → Result B) → ((a : A) → m ≡ ok a → Yields Q (f a)) → Yields Q (m >>= f)
  Yields-bind (ok a) f h = h a refl
  Yields-bind (err e) f h = Yields-err e
  Yields-bind panic f h = Yields-panic
  Yields-bind hang f h = Yields-hang
  Yields-bind out_of_fuel f h = Yields-out_of_fuel

  pub Yields-option :
      (o : Option A) (m : Result B) (f : A → Result B)
      → Yields Q m
      → ((a : A) → o ≡ some a → Yields Q (f a))
      → Yields Q (from_option o m f)
  Yields-option none m f hm hf = hm
  Yields-option (some a) m f hm hf = hf a refl

-- The rest may use what holds of the value.
pub Yields->>= {ℓ κ} :
    {A : Type ℓ} {B : Type κ} {P : A → Type 0} {Q : B → Type 0} (m : Result A) (f : A → Result B)
    → Yields P m
    → ((a : A) → P a → Yields Q (f a))
    → Yields Q (m >>= f)
Yields->>= m f h k = Yields-bind m f (λ a e. k a (h.at a e))

pub Yields-attempt {ℓ} :
    {A : Type ℓ} {P : A → Type 0} {Q : Option A → Type 0} (m : Result A)
    → Yields P m
    → Q none
    → ((a : A) → P a → Q (some a))
    → Yields Q (attempt m)
Yields-attempt (ok a) h n s = Yields-ok (some a) (s a (h.at a refl))
Yields-attempt (err e) h n s = Yields-ok none n
Yields-attempt panic h n s = Yields-panic
Yields-attempt hang h n s = Yields-hang
Yields-attempt out_of_fuel h n s = Yields-out_of_fuel

pub ruleset yields_rules =
    (Yields-ok, Yields-err, Yields-panic, Yields-hang, Yields-out_of_fuel, Yields-if)
