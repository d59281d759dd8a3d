-- ===== src/Consensus/Phases/Equivocation.antt =====
-- A replica votes for each proposal of its view that passes the checks, not only for the first.
use basic_hotstuff.Prelude.{
  suc, ◌<◌, ◌≡◌, refl, ◌∷◌, some, none, true, false, ok, arith, ltb, nat_beq, is_none, nat_beq_refl,
  if◌then◌else◌, ◌>>=◌,
}
use basic_hotstuff.Types.{PartialCert}
use basic_hotstuff.Block.{Block}
use basic_hotstuff.Crypto.{create_partial_cert}
use basic_hotstuff.Proto.{Msg, MessageType}
use basic_hotstuff.Convert.{block_from_proto, partial_cert_to_proto}
use basic_hotstuff.NodeManager.{get_leader_node, ReplicaConfig, is_fault_node}
use basic_hotstuff.Consensus.State.{
  Context, HotStuff, Rpc, get_leader_id, matching_msg, safe_node, sign_block, send_to_leader,
  unicast,
}
use basic_hotstuff.Consensus.Phases.{block_msg, start_timer, send_vote, on_receive_prepare}

-- A Prepare message of the view, with a certificate, any one, and a block that names the leader as
-- its proposer and a view above the locked certificate's.
pub record Proposal (c : Context) (msg : Msg) (b : Block) (hs : HotStuff) : Type 0 where
  pub matches : matching_msg msg MessageType.prepare hs ≡ true
  pub read : block_from_proto c.crypto.prims hs.now msg.block ≡ ok b
  pub has_qc : is_none msg.qc ≡ false
  pub leader : get_leader_id c hs ≡ b.proposer
  pub newer : hs.pre_commit_qc.view < b.view

-- The vote for a block with which the replica answers.
abbrev pub vote_msg_for : Context → Msg → PartialCert → HotStuff → Msg
vote_msg_for c msg pc hs =
    block_msg c MessageType.prepare_vote msg.block
      (if is_fault_node c.node_manager then none else some (partial_cert_to_proto pc)) none hs

abbrev pub voted : Context → Msg → Block → PartialCert → ReplicaConfig → HotStuff → HotStuff
voted c msg b pc node hs = start_timer (record hs {
  current_block = some b;
  entropy = suc hs.entropy;
  sent = unicast node Rpc.prepare_vote (vote_msg_for c msg pc hs) ∷ hs.sent;
})

Proposal-voted :
    (c : Context) (msg : Msg) (b : Block) (pc : PartialCert) (node : ReplicaConfig) (hs : HotStuff)
    → Proposal c msg b hs
    → create_partial_cert c.crypto hs.entropy b ≡ ok pc
    → get_leader_node c.node_manager hs.current_view ≡ ok (some node)
    → on_receive_prepare c msg hs ≡ ok (voted c msg b pc node hs)
unfolding on_receive_prepare send_vote safe_node sign_block send_to_leader
Proposal-voted c msg b pc node hs p signed found =
    let newer : ltb hs.pre_commit_qc.view b.view ≡ true = let lt = p.newer in ground arith in
    let leader : nat_beq (get_leader_id c hs) b.proposer ≡ true =
      rw (p.leader) (nat_beq_refl b.proposer) in
    rw (p.matches, p.read, p.has_qc, leader, newer, signed, found) refl

-- A replica that gets two proposals of its view, each with some certificate and a block that names
-- the leader and a view above the locked certificate's, votes for both in turn, whatever the blocks
-- are, if it can sign them and finds the leader's node.
pub votes_twice :
    (c : Context) (msg msg' : Msg) (b b' : Block) (pc pc' : PartialCert) (node : ReplicaConfig)
    (hs : HotStuff)
    → Proposal c msg b hs
    → Proposal c msg' b' hs
    → create_partial_cert c.crypto hs.entropy b ≡ ok pc
    → create_partial_cert c.crypto (suc hs.entropy) b' ≡ ok pc'
    → get_leader_node c.node_manager hs.current_view ≡ ok (some node)
    → (on_receive_prepare c msg hs >>= λ s. on_receive_prepare c msg' s)
      ≡ ok (voted c msg' b' pc' node (voted c msg b pc node hs))
unfolding get_leader_id matching_msg
votes_twice c msg msg' b b' pc pc' node hs p p' signed signed' found =
    let s = voted c msg b pc node hs in
    let again : Proposal c msg' b' s = record {
      matches = p'.matches;
      read = p'.read;
      has_qc = p'.has_qc;
      leader = p'.leader;
      newer = p'.newer;
    } in
    let first = Proposal-voted c msg b pc node hs p signed found in
    let second = Proposal-voted c msg' b' pc' node s again signed' found in rw (first, second) refl
