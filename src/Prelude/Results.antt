-- ===== src/Prelude/Results.antt =====
-- How a Go call ends: with a value, an error value, a panic, or never (`hang`: it waits for a mutex
-- that its own goroutine holds, or loops for ever); `out_of_fuel` is the model's own.
use mathlib.Core.Path.{◌≡◌, refl, subst}
use mathlib.Core.Option.{Option, none, some}
use mathlib.Core.Bool.{Bool, true, false}
use basic_hotstuff.Prelude.Tests.{if◌then◌else◌}

pub data Error : Type 0 where
  sign_failed combine_multiple combine_overlap file_failed key_failed : Error

pub data Result {ℓ} (A : Type ℓ) : Type ℓ where
  ok : A → Result A
  err : Error → Result A
  panic hang out_of_fuel : Result A

infixl 5 ◌>>=◌
abbrev pub ◌>>=◌ {ℓ κ} : {A : Type ℓ} {B : Type κ} → Result A → (A → Result B) → Result B
ok a >>= f = f a
err e >>= f = err e
panic >>= f = panic
hang >>= f = hang
out_of_fuel >>= f = out_of_fuel

-- `v, err := f()` where the caller tests `err`: the error becomes a value.
abbrev pub attempt {ℓ} : {A : Type ℓ} → Result A → Result (Option A)
attempt (ok a) = ok (some a)
attempt (err e) = ok none
attempt panic = panic
attempt hang = hang
attempt out_of_fuel = out_of_fuel

-- A dereference: nil panics.
abbrev pub deref {ℓ} : {A : Type ℓ} → Option A → Result A
deref none = panic
deref (some a) = ok a

pub >>=-eq-ok {ℓ κ} :
    {X : Type ℓ} {Y : Type κ} (first : Result X) (next : X → Result Y) {y : Y}
    → (first >>= next) ≡ ok y
    → (x : X) × (first ≡ ok x) × (next x ≡ ok y)
>>=-eq-ok panic next h = cc
>>=-eq-ok hang next h = cc
>>=-eq-ok out_of_fuel next h = cc
>>=-eq-ok (err e) next h = cc
>>=-eq-ok (ok x) next h = (x, refl, h)

-- What holds of the value, if there is one, and that the fuel did not run out.
abbrev pub Ends {ℓ} : {A : Type ℓ} → (A → Type 0) → Result A → Type 0
Ends P (ok a) = P a
Ends P (err e) = Unit
Ends P panic = Unit
Ends P hang = Unit
Ends P out_of_fuel = ⊥

pub Ends->>= {ℓ κ} :
    {A : Type ℓ} {B : Type κ} (P : A → Type 0) (Q : B → Type 0) (m : Result A) (f : A → Result B)
    → Ends P m
    → ((a : A) → P a → Ends Q (f a))
    → Ends Q (m >>= f)
Ends->>= P Q (ok a) f h k = k a h
Ends->>= P Q (err e) f h k = tt
Ends->>= P Q panic f h k = tt
Ends->>= P Q hang f h k = tt
Ends->>= P Q out_of_fuel f h k = absurd h

pub Ends-mono {ℓ} :
    {A : Type ℓ} (P Q : A → Type 0) (m : Result A) → Ends P m → ((a : A) → P a → Q a) → Ends Q m
Ends-mono P Q (ok a) h k = k a h
Ends-mono P Q (err e) h k = tt
Ends-mono P Q panic h k = tt
Ends-mono P Q hang h k = tt
Ends-mono P Q out_of_fuel h k = absurd h

pub Ends-ok {ℓ} : {A : Type ℓ} (P : A → Type 0) (m : Result A) (a : A) → Ends P m → m ≡ ok a → P a
Ends-ok P (ok b) a h e = let same : b ≡ a = cc in subst P same h
Ends-ok P (err _) a h e = cc
Ends-ok P panic a h e = cc
Ends-ok P hang a h e = cc
Ends-ok P out_of_fuel a h e = cc

pub Ends-attempt {ℓ} :
    {A : Type ℓ} (m : Result A) → Ends (λ a. Unit) m → Ends (λ a. Unit) (attempt m)
Ends-attempt (ok a) h = tt
Ends-attempt (err e) h = tt
Ends-attempt panic h = tt
Ends-attempt hang h = tt
Ends-attempt out_of_fuel h = absurd h

pub Ends-deref {ℓ} : {A : Type ℓ} (o : Option A) → Ends (λ a. Unit) (deref o)
Ends-deref none = tt
Ends-deref (some a) = tt

pub Ends-if {ℓ} :
    {A : Type ℓ} (P : A → Type 0) (b : Bool) (m n : Result A)
    → Ends P m
    → Ends P n
    → Ends P (if b then m else n)
Ends-if P true m n hm hn = hm
Ends-if P false m n hm hn = hn

abbrev pub from_option {ℓ κ} : {A : Type ℓ} {B : Type κ} → Option A → B → (A → B) → B
from_option o b f = elim o [ none ↦ b | some a ↦ f a ]

pub Ends-option {ℓ κ} :
    {A : Type ℓ} {B : Type κ} (P : B → Type 0) (o : Option A) (m : Result B) (f : A → Result B)
    → Ends P m
    → ((a : A) → Ends P (f a))
    → Ends P (from_option o m f)
Ends-option P none m f hm hf = hm
Ends-option P (some a) m f hm hf = hf a

-- The same rules where the proof needs the value or the test.
pub Ends->>=_eq {ℓ κ} :
    {A : Type ℓ} {B : Type κ} (Q : B → Type 0) (m : Result A) (f : A → Result B)
    → Ends (λ a. Unit) m
    → ((a : A) → m ≡ ok a → Ends Q (f a))
    → Ends Q (m >>= f)
Ends->>=_eq Q (ok a) f h k = k a refl
Ends->>=_eq Q (err e) f h k = tt
Ends->>=_eq Q panic f h k = tt
Ends->>=_eq Q hang f h k = tt
Ends->>=_eq Q out_of_fuel f h k = absurd h

pub Ends-if_eq {ℓ} :
    {A : Type ℓ} (P : A → Type 0) (b : Bool) (m n : Result A)
    → (b ≡ true → Ends P m)
    → (b ≡ false → Ends P n)
    → Ends P (if b then m else n)
Ends-if_eq P true m n hm hn = hm refl
Ends-if_eq P false m n hm hn = hn refl
