-- ===== src/Prelude/Values.antt =====
-- A predicate on every value of a map to slices.
use mathlib.Core.Path.{◌≡◌, subst}
use mathlib.Core.Logic.{inl, inr}
use mathlib.Core.List.{List, [], ◌∷◌, ◌++◌}
use basic_hotstuff.Prelude.Tests.{Eq, ◌==◌, Bool-cases}
use basic_hotstuff.Prelude.Lists.{All}
use basic_hotstuff.Prelude.Maps.{
  Map, insert, erase, lookup, lookup_list, lookup_list-insert, lookup_list-erase,
}

pub All-snoc {ℓ} :
    {A : Type ℓ} (P : A → Type 0) (l : List A) (x : A) → All P l → P x → All P (l ++ x ∷ [])
All-snoc P [] x all p = (p, tt)
All-snoc P (y ∷ l) x all p = (all.0, All-snoc P l x all.1 p)

module _ {ℓ} {K V : Type ℓ} ⦃e : Eq K⦄ where
  abbrev pub EachValue : (K → V → Type 0) → Map K (List V) → Type ℓ
  EachValue P m = (k : K) → All (P k) (lookup_list k m)

  pub EachValue-nil : (P : K → V → Type 0) → EachValue P []
  unfolding lookup_list lookup
  EachValue-nil P k = tt

  pub EachValue-insert :
      (P : K → V → Type 0) (k : K) (v : V) (m : Map K (List V))
      → EachValue P m
      → P k v
      → EachValue P (insert k (lookup_list k m ++ v ∷ []) m)
  EachValue-insert P k v m each p j = elim (Bool-cases (k == j)) [
    | inl same ↦
        let kj : k ≡ j = (e.beq_iff k j).0 same in
        rw (lookup_list-insert k j (lookup_list k m ++ v ∷ []) m, same)
          (subst (λ u. All (P u) (lookup_list k m ++ v ∷ [])) kj
            (All-snoc (P k) (lookup_list k m) v (each k) p))
    | inr other ↦ rw (lookup_list-insert k j (lookup_list k m ++ v ∷ []) m, other) (each j)
  ]

  pub EachValue-erase :
      (P : K → V → Type 0) (k : K) (m : Map K (List V)) → EachValue P m → EachValue P (erase k m)
  EachValue-erase P k m each j = elim (Bool-cases (k == j)) [
    | inl same ↦ rw (lookup_list-erase k j m, same) tt
    | inr other ↦ rw (lookup_list-erase k j m, other) (each j)
  ]
