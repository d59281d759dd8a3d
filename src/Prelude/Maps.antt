-- ===== src/Prelude/Maps.antt =====
-- Go maps as association lists. `insert` replaces the value of a key that is there already and adds
-- a new key at the end; the order of the list is the order in which the model ranges over the map.
use mathlib.Core.Path.{◌≡◌, refl}
use mathlib.Core.Bool.{Bool, true, false}
use mathlib.Core.List.{List, [], ◌∷◌}
use mathlib.Core.Option.{Option, none, some}
use native.Mathlib.Omega.{arith}
use basic_hotstuff.Prelude.Tests.{Eq, ◌==◌, if◌then◌else◌}

abbrev pub Map {ℓ κ} : Type ℓ → Type κ → Type (ℓ ⊔ κ)
Map K V = List (K × V)

abbrev pub keys {ℓ κ} : {K : Type ℓ} {V : Type κ} → Map K V → List K
keys [] = []
keys ((k, v) ∷ m) = k ∷ keys m

module _ {ℓ κ} {K : Type ℓ} {V : Type κ} ⦃e : Eq K⦄ where
  unfoldable pub lookup : K → Map K V → Option V
  lookup k [] = none
  lookup k ((j, v) ∷ m) = if j == k then some v else lookup k m

  unfoldable pub insert : K → V → Map K V → Map K V
  insert k v [] = (k, v) ∷ []
  insert k v ((j, w) ∷ m) = if j == k then (k, v) ∷ m else (j, w) ∷ insert k v m

  -- `delete(m, k)`.
  unfoldable pub erase : K → Map K V → Map K V
  erase k [] = []
  erase k ((j, v) ∷ m) = if j == k then erase k m else (j, v) ∷ erase k m

  unfoldable pub contains : K → Map K V → Bool
  contains k [] = false
  contains k ((j, v) ∷ m) = if j == k then true else contains k m

  pub lookup-insert :
      (set read : K) (value : V) (m : Map K V)
      → lookup read (insert set value m) ≡ (if set == read then some value else lookup read m)
  unfolding lookup insert
  lookup-insert set read value [] = refl
  lookup-insert set read value ((i, w) ∷ m) =
      ground (
        arith,
        e.beq_iff set read,
        e.beq_iff i set,
        e.beq_iff i read,
        lookup-insert set read value m,
      )

  pub lookup-erase :
      (k j : K) (m : Map K V) → lookup j (erase k m) ≡ (if k == j then none else lookup j m)
  unfolding lookup erase
  lookup-erase k j [] = ground arith
  lookup-erase k j ((i, w) ∷ m) =
      ground (arith, e.beq_iff k j, e.beq_iff i k, e.beq_iff i j, lookup-erase k j m)

  pub contains-insert :
      (k j : K) (v : V) (m : Map K V)
      → contains j (insert k v m) ≡ (if k == j then true else contains j m)
  unfolding contains insert
  contains-insert k j v [] = refl
  contains-insert k j v ((i, w) ∷ m) =
      ground (arith, e.beq_iff k j, e.beq_iff i k, e.beq_iff i j, contains-insert k j v m)

  pub lookup-insert_self : (k : K) (v : V) (m : Map K V) → lookup k (insert k v m) ≡ some v
  lookup-insert_self k v m = ground (arith, lookup-insert k k v m, e.beq_iff k k)

  pub lookup-erase_self : (k : K) (m : Map K V) → lookup k (erase k m) ≡ none
  lookup-erase_self k m = ground (arith, lookup-erase k k m, e.beq_iff k k)

-- A map to slices and a map to bools, read as Go reads a key that is not there.
module _ {ℓ κ} {K : Type ℓ} {V : Type κ} ⦃e : Eq K⦄ where
  unfoldable pub lookup_list : K → Map K (List V) → List V
  lookup_list k m = elim (lookup k m) [ none ↦ [] | some l ↦ l ]

  pub lookup_list-insert :
      (set read : K) (l : List V) (m : Map K (List V))
      → lookup_list read (insert set l m) ≡ (if set == read then l else lookup_list read m)
  unfolding lookup_list
  lookup_list-insert set read l m = ground (arith, lookup-insert set read l m)

  pub lookup_list-erase :
      (gone read : K) (m : Map K (List V))
      → lookup_list read (erase gone m) ≡ (if gone == read then [] else lookup_list read m)
  unfolding lookup_list
  lookup_list-erase gone read m = ground (arith, lookup-erase gone read m)

module _ {ℓ} {K : Type ℓ} ⦃e : Eq K⦄ where
  unfoldable pub flag : K → Map K Bool → Bool
  flag k m = elim (lookup k m) [ none ↦ false | some b ↦ b ]

  pub flag-insert :
      (k j : K) (b : Bool) (m : Map K Bool)
      → flag j (insert k b m) ≡ (if k == j then b else flag j m)
  unfolding flag
  flag-insert k j b m = ground (arith, lookup-insert k j b m)
