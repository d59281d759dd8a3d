-- ===== src/NodeManager.antt =====
-- service/node.go: quorum sizes, simulated faults, and the leader of a view.
-- Connections are not modelled: a node is the configuration of the replica that it connects to.
pub mod Quorums
pub mod Leaders
use basic_hotstuff.Prelude.{
  ◌++◌, ℕ, zero, suc, ◌+◌, ◌-◌, ◌*◌, ◌/◌, ◌%◌, List, [], ◌∷◌, Option, none, some, Bool, true, false,
  Bytes, Result, ok, panic, ◌>>=◌, deref, ltb, leb, nat_beq, nat_eq, bytes_beq, if◌then◌else◌, Map,
  insert, flag, length, get_elem?, take,
}
use basic_hotstuff.Encoding.{u32_mod, u64_mod}
use basic_hotstuff.Types.{Id32, View}

-- model.ReplicaConfig, without the key files.
pub record ReplicaConfig : Type 0 where
  pub id : ℕ
  pub host : Bytes
  pub port : ℕ

-- What NewNodeManager reads of model.Config; `resolve` is `normalizeAddr` of an address, which asks
-- the name service, with the empty text for an error. `spare` is what the array behind the slice
-- `replica` holds from the slice's length to its capacity.
pub record Config : Type 0 where
  pub id : Id32
  pub replica : List ReplicaConfig
  pub spare : List ReplicaConfig
  pub total_number : ℕ
  pub fault_number : ℕ
  pub resolve : Bytes → ℕ → Bytes

pub record NodeManager : Type 0 where
  pub conf : Config
  pub f : ℕ
  pub quorum_size : ℕ
  pub timeout_quorum_size : ℕ
  pub total_nodes_number : ℕ
  pub fault_nodes : Map Id32 Bool

pub record QuorumSizes : Type 0 where
  pub f : ℕ
  pub quorum : ℕ
  pub timeout_quorum : ℕ

-- `CalQuorumSize`.
unfoldable pub cal_quorum_size : ℕ → Result QuorumSizes
cal_quorum_size total =
    if ltb total 4
    then panic
    else (if ltb 16 total
        then panic
        else ok (record {
          f = (total - 1) / 3;
          quorum = 2 * ((total - 1) / 3) + 1;
          timeout_quorum = (total - 1) / 3 + 1;
        }))

-- The loop of `SetFaultNodes`, from the index `i` on for `rounds` rounds.
unfoldable pub set_fault_nodes : ℕ → ℕ → Map Id32 Bool → Map Id32 Bool
set_fault_nodes zero i m = m
set_fault_nodes (suc rounds) i m = set_fault_nodes rounds (i + 1) (insert ((i + 1) * 3) true m)

-- `NewNodeManager` and `Init`.
unfoldable pub new_node_manager : Config → Result NodeManager
unfolding cal_quorum_size set_fault_nodes
new_node_manager conf = do
  sizes ← cal_quorum_size conf.total_number
  ok (record {
    conf = conf;
    f = sizes.f;
    quorum_size = sizes.quorum;
    timeout_quorum_size = sizes.timeout_quorum;
    total_nodes_number = conf.total_number;
    fault_nodes = set_fault_nodes conf.fault_number 0 [];
  })

-- `IsFaultNode`.
unfoldable pub is_fault_node : NodeManager → Bool
is_fault_node nm = flag nm.conf.id nm.fault_nodes

-- `GetLeaderByView`. `int(cView)` is negative from 2^63 on, `%` keeps its sign, and the conversion
-- to a uint32 wraps.
unfoldable pub get_leader_by_view : ℕ → View → Id32
get_leader_by_view total v =
    if ltb v 9223372036854775808
    then v % total % u32_mod
    else (u32_mod - (u64_mod - v) % total) % u32_mod

-- The nodes that InitAllReplicaClients connects to: all but this replica. A slice expression may
-- go past the length of the configured slice, and panics past its capacity.
unfoldable pub other_nodes : Id32 → List ReplicaConfig → List ReplicaConfig
other_nodes own [] = []
other_nodes own (r ∷ rs) = if nat_beq r.id own then other_nodes own rs else r ∷ other_nodes own rs

unfoldable pub get_nodes : NodeManager → Result (List ReplicaConfig)
unfolding other_nodes
get_nodes nm =
    let slots = nm.conf.replica ++ nm.conf.spare in
    if ltb (length slots) nm.total_nodes_number
    then panic
    else ok (other_nodes nm.conf.id (take nm.total_nodes_number slots))

-- The loop of `GetLeaderNode`; `none` is the nil that it returns when no node has the address.
unfoldable pub find_node : Config → Bytes → List ReplicaConfig → Option ReplicaConfig
find_node conf a [] = none
find_node conf a (r ∷ rs) =
    if bytes_beq a (conf.resolve r.host r.port) then some r else find_node conf a rs

-- `GetLeaderAddress` and `GetLeaderNode`.
unfoldable pub get_leader_node : NodeManager → View → Result (Option ReplicaConfig)
unfolding get_leader_by_view get_nodes find_node
get_leader_node nm v = do
  leader ← deref (get_elem? nm.conf.replica (get_leader_by_view nm.total_nodes_number v))
  nodes ← get_nodes nm
  ok (find_node nm.conf (nm.conf.resolve leader.host leader.port) nodes)
