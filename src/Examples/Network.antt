-- ===== src/Examples/Network.antt =====
-- Quorums of four and of six replicas.
use basic_hotstuff.Prelude.{[], ◌∷◌, ◌<◌, ◌≤◌, refl, arith, ◌≡◌, ℕ, ◌+◌}
use basic_hotstuff.NodeManager.{QuorumSizes, cal_quorum_size, get_leader_by_view}
use basic_hotstuff.NodeManager.Leaders.{get_leader_by_view-once}
use basic_hotstuff.NodeManager.Quorums.{IsQuorum, shared, quorums_intersect, quorums_may_miss}

abbrev four_sizes : QuorumSizes
four_sizes = record { f = 1; quorum = 3; timeout_quorum = 2 }

abbrev six_sizes : QuorumSizes
six_sizes = record { f = 1; quorum = 3; timeout_quorum = 2 }

low-IsQuorum : IsQuorum 4 3 (0 ∷ 1 ∷ 2 ∷ [])
low-IsQuorum = record {
  bounded = (omega arith, (omega arith, (omega arith, tt)));
  distinct = λ i. ground arith;
  enough = omega arith;
}

high-IsQuorum : IsQuorum 4 3 (1 ∷ 2 ∷ 3 ∷ [])
high-IsQuorum = record {
  bounded = (omega arith, (omega arith, (omega arith, tt)));
  distinct = λ i. ground arith;
  enough = omega arith;
}

quorums_intersect_example : 1 < shared 4 (0 ∷ 1 ∷ 2 ∷ []) (1 ∷ 2 ∷ 3 ∷ [])
unfolding cal_quorum_size
quorums_intersect_example =
    quorums_intersect 4 four_sizes (0 ∷ 1 ∷ 2 ∷ []) (1 ∷ 2 ∷ 3 ∷ []) refl refl low-IsQuorum
      high-IsQuorum

quorums_may_miss_example :
    IsQuorum 6 3 (0 ∷ 1 ∷ 2 ∷ [])
    × IsQuorum 6 3 (3 ∷ 4 ∷ 5 ∷ [])
    × (shared 6 (0 ∷ 1 ∷ 2 ∷ []) (3 ∷ 4 ∷ 5 ∷ []) ≤ 1)
unfolding cal_quorum_size
quorums_may_miss_example = quorums_may_miss 6 six_sizes refl (λ e. ground arith)

get_leader_by_view-once_example :
    (k : ℕ) × (k < 4)
    × (get_leader_by_view 4 (3 + k) ≡ 2)
    × ((j : ℕ) → j < 4 → get_leader_by_view 4 (3 + j) ≡ 2 → j ≡ k)
get_leader_by_view-once_example =
    get_leader_by_view-once 4 2 3 (omega arith) (omega arith) (omega arith)
