-- ===== src/NodeManager/Leaders.antt =====
-- The leaders of consecutive views.
use basic_hotstuff.Prelude.{
  ℕ, ◌+◌, ◌-◌, ◌%◌, ◌≤◌, ◌<◌, ◌≡◌, arith, ltb, true, Bool-cases, inl, inr, if◌then◌else◌, sym, ◌∙◌,
}
use native.Mathlib.Nat.{mod-lt, mod-eq_of_lt, mod-eq-sub-mod, mod-add-mod}
use basic_hotstuff.Encoding.{u32_mod}
use basic_hotstuff.Types.{View}
use basic_hotstuff.NodeManager.{get_leader_by_view}

leader_mod :
    (total : ℕ) (v : View)
    → 0 < total
    → total < u32_mod
    → v < 9223372036854775808
    → get_leader_by_view total v ≡ v % total
unfolding get_leader_by_view
leader_mod total v pos small room =
    let test : ltb v 9223372036854775808 ≡ true = ground arith in
    let below = mod-lt v pos in rw test (mod-eq_of_lt (omega arith))

-- A number below twice the modulus.
wrapped : ℕ → ℕ → ℕ
wrapped total x = if ltb x total then x else x - total

mod_wrapped : (total x : ℕ) → 0 < total → x < total + total → x % total ≡ wrapped total x
unfolding wrapped
mod_wrapped total x pos lt = elim (Bool-cases (ltb x total)) [
  | inl e ↦ rw e (mod-eq_of_lt (ground arith))
  | inr e ↦
      let le : total ≤ x = ground arith in rw e (mod-eq-sub-mod le ∙ mod-eq_of_lt (omega arith))
]

leader_wrapped :
    (total k : ℕ) (v : View)
    → 0 < total
    → total < u32_mod
    → v + total ≤ 9223372036854775808
    → k < total
    → get_leader_by_view total (v + k) ≡ wrapped total (v % total + k)
leader_wrapped total k v pos small room lt =
    let below = mod-lt v pos in
    leader_mod total (v + k) pos small (omega arith)
    ∙ (sym (mod-add-mod v total k) ∙ mod_wrapped total (v % total + k) pos (omega arith))

-- Among as many consecutive views as there are replicas, all up to 2^63, each replica index below
-- that number leads exactly one.
pub get_leader_by_view-once :
    (total id : ℕ) (v : View)
    → total < u32_mod
    → v + total ≤ 9223372036854775808
    → id < total
    → (k : ℕ) × (k < total)
      × (get_leader_by_view total (v + k) ≡ id)
      × ((j : ℕ) → j < total → get_leader_by_view total (v + j) ≡ id → j ≡ k)
unfolding wrapped
get_leader_by_view-once total id v small room lt =
    let below = mod-lt v {m = total} (omega arith) in
    elim (Bool-cases (ltb id (v % total))) [
      | inl e ↦
          let k = id + total - v % total in
          let k_lt : k < total = ground arith in
          let here = leader_wrapped total k v (omega arith) small room k_lt in
          (
            k,
            k_lt,
            ground arith,
            λ j j_lt same.
                let there = leader_wrapped total j v (omega arith) small room j_lt in ground arith,
          )
      | inr e ↦
          let k = id - v % total in
          let k_lt : k < total = ground arith in
          let here = leader_wrapped total k v (omega arith) small room k_lt in
          (
            k,
            k_lt,
            ground arith,
            λ j j_lt same.
                let there = leader_wrapped total j v (omega arith) small room j_lt in ground arith,
          )
    ]
