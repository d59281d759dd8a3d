-- ===== src/Consensus/Phases/Safety.antt =====
-- What a replica votes for, and what it locks on.
use basic_hotstuff.Prelude.{
  suc, ◌<◌, ◌≡◌, refl, Option, none, some, true, not, ok, panic, arith, ltb, nat_beq, nat_beq_refl,
  if◌then◌else◌, Bool-cases, inl, inr, ◌⊎◌, ◌∷◌, Ends, Ends->>=, Ends->>=_eq, Ends-if_eq,
  Ends-option, Option-cases, is_none, ltb→lt,
}
use basic_hotstuff.Types.{PartialCert}
use basic_hotstuff.Block.{Block}
use basic_hotstuff.Proto.{type_beq, Msg, MessageType, PartialCertPb}
use basic_hotstuff.Convert.{block_from_proto, partial_cert_to_proto}
use basic_hotstuff.NodeManager.{ReplicaConfig, get_leader_node, is_fault_node}
use basic_hotstuff.BlockChain.{get}
use basic_hotstuff.BlockChain.Ancestry.{Ancestor, extends_sound}
use basic_hotstuff.Consensus.State.{
  Context, HotStuff, Rpc, unicast, get_leader_id, sign_block, send_to_leader, matching_msg,
  safe_node,
}
use basic_hotstuff.Consensus.Settling.{Settles-Ends, block_from_proto-Settles}
use basic_hotstuff.Consensus.Frame.{
  safe_node-Settles, sign_block-draws, send_to_leader-sent, ToLeader,
}
use basic_hotstuff.Consensus.Phases.{block_msg, send_vote, on_receive_prepare}

-- A block is safe for a replica if it is newer than the locked certificate, or lies on the branch
-- of the locked block.
abbrev pub IsSafe : Block → HotStuff → Type 0
IsSafe b hs =
    (hs.pre_commit_qc.view < b.view)
    ⊎ ((locked : Block) × (get hs.pre_commit_qc.hash hs.block_chain ≡ some locked)
        × (a : Block) × Ancestor hs.block_chain b a
        × (a.hash ≡ locked.hash))

-- A block that `SafeNode` accepts is newer than the locked certificate, or has an ancestor with the
-- hash of the locked block.
pub safe_node-IsSafe : (b : Block) (hs : HotStuff) → safe_node b hs ≡ ok true → IsSafe b hs
unfolding safe_node
safe_node-IsSafe b hs h = elim (Bool-cases (ltb hs.pre_commit_qc.view b.view)) [
  | inl e ↦ inl (ltb→lt _ _ e)
  | inr e ↦ elim (Option-cases (get hs.pre_commit_qc.hash hs.block_chain)) [
    | inl gone ↦ absurd (ground arith)
    | inr (locked, found) ↦
        let (a, up, same, _) = extends_sound hs.block_chain b locked (ground arith) in
        inr (locked, found, a, up, same)
  ]
]

-- A replica that gets a proposal sends nothing, or one vote, to the leader of its view, for a safe
-- block of that leader in a Prepare message of its view.
abbrev pub Voted : Context → Msg → HotStuff → HotStuff → Type 0
Voted c msg hs s =
    (s.sent ≡ hs.sent)
    ⊎ ((b : Block) × (node : ReplicaConfig) × (vote : Option PartialCertPb) × (s.sent
          ≡ unicast node Rpc.prepare_vote
              (block_msg c MessageType.prepare_vote msg.block vote none hs)
            ∷ hs.sent)
        × (get_leader_node c.node_manager hs.current_view ≡ ok (some node))
        × (block_from_proto c.crypto.prims hs.now msg.block ≡ ok b)
        × (b.proposer ≡ get_leader_id c hs)
        × IsSafe b hs
        × (msg.type ≡ MessageType.prepare)
        × (msg.view ≡ hs.current_view)
        × (s.current_block ≡ some b))

type_beq-prepare :
    (type : MessageType) → type_beq type MessageType.prepare ≡ true → type ≡ MessageType.prepare
type_beq-prepare MessageType.prepare e = refl
type_beq-prepare _ e = absurd (ground arith)

vote_sent :
    (c : Context) (msg : Msg) (b : Block) (hs : HotStuff)
    → block_from_proto c.crypto.prims hs.now msg.block ≡ ok b
    → b.proposer ≡ get_leader_id c hs
    → IsSafe b hs
    → msg.type ≡ MessageType.prepare
    → msg.view ≡ hs.current_view
    → Ends (Voted c msg hs) (
        send_vote c Rpc.prepare_vote MessageType.prepare_vote msg b ok
          (record hs { current_block = some b }))
unfolding send_vote
vote_sent c msg b hs from leader safe type view =
    let hs1 = record hs { current_block = some b } in
    Ends->>= (λ (r : Option PartialCert × HotStuff). r.1 ≡ record hs1 { entropy = suc hs1.entropy })
      (Voted c msg hs) (sign_block c b hs1) _ (sign_block-draws c b hs1)
      λ r drawn. Ends-option (Voted c msg hs) r.0 _ _ (inl (ground arith)) λ cert.
        Ends->>= (ToLeader c Rpc.prepare_vote _ r.1) (Voted c msg hs)
          (send_to_leader c Rpc.prepare_vote _ r.1) _ (send_to_leader-sent c Rpc.prepare_vote _ r.1)
          λ s to. inr (
            b,
            to.0,
            (if is_fault_node c.node_manager then none else some (partial_cert_to_proto cert)),
            ground arith,
            ground arith,
            from,
            leader,
            safe,
            type,
            view,
            ground arith,
          )

-- Where `OnReceivePrepare` returns, which needs no fuel, it sent nothing, or one vote, to the
-- leader of its view, for the block of a Prepare message of that view, which the leader proposed
-- and which is safe, and that block is the current one.
pub on_receive_prepare-Voted :
    (c : Context) (msg : Msg) (hs : HotStuff) → Ends (Voted c msg hs) (on_receive_prepare c msg hs)
unfolding on_receive_prepare matching_msg
on_receive_prepare-Voted c msg hs =
    Ends-if_eq (Voted c msg hs) (not (matching_msg msg MessageType.prepare hs)) _ _ (λ e. inl refl)
      λ matching.
        Ends->>=_eq (Voted c msg hs) (block_from_proto c.crypto.prims hs.now msg.block) _
          (Settles-Ends _ (block_from_proto-Settles c.crypto.prims hs.now msg.block))
          λ b from.
            Ends-if_eq (Voted c msg hs) (is_none msg.qc) _ _ (λ e. inl refl)
              λ qc.
                Ends-if_eq (Voted c msg hs) (not (nat_beq (get_leader_id c hs) b.proposer)) _ _
                  (λ e. inl refl)
                  λ leader.
                    Ends->>=_eq (Voted c msg hs) (safe_node b hs) _
                      (Settles-Ends _ (safe_node-Settles b hs))
                      λ safe es.
                        Ends-if_eq (Voted c msg hs) (not safe) _ _ (λ e. inl refl)
                          λ e.
                            vote_sent c msg b hs from (ground arith)
                              (safe_node-IsSafe b hs (ground arith))
                              (type_beq-prepare msg.type (ground arith)) (ground arith)

-- A Prepare message of the current view without a block stops the replica.
pub on_receive_prepare-panic :
    (c : Context) (msg : Msg) (hs : HotStuff)
    → msg.type ≡ MessageType.prepare
    → msg.view ≡ hs.current_view
    → msg.block ≡ none
    → on_receive_prepare c msg hs ≡ panic
unfolding on_receive_prepare matching_msg block_from_proto
on_receive_prepare-panic c msg hs et ev eb = rw (et, ev, eb, nat_beq_refl)
