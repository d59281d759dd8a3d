-- ===== src/Consensus/Basic/Deciding.antt =====
-- What a Decide message does whose certificate names the genesis hash.
use basic_hotstuff.Prelude.{
  ◌≡◌, refl, some, true, false, ok, nat_beq, ◌∷◌, arith, bytes_eq, bytes_beq_refl,
}
use basic_hotstuff.Block.{Block}
use basic_hotstuff.BlockChain.{store, clean}
use basic_hotstuff.Proto.{Msg, MessageType, QuorumCertPb}
use basic_hotstuff.Convert.{block_from_proto, quorum_cert_from_proto}
use basic_hotstuff.Crypto.{genesis_hash}
use basic_hotstuff.CmdCache.{is_finished, is_finished-finish}
use basic_hotstuff.NodeManager.{ReplicaConfig, get_leader_by_view, get_leader_node}
use basic_hotstuff.Consensus.State.{
  Context, HotStuff, Rpc, get_leader_id, matching_msg, lock, unlock, send_to_leader, unicast,
  next_view,
}
use basic_hotstuff.Consensus.Phases.Quorum.{read_cert-genesis}
use basic_hotstuff.Consensus.Basic.{
  Process, on_receive_decide, decided, execute, enter_decided, send_new_view, new_view_msg, answer,
}

-- On a Decide message of its view, whose certificate names the genesis hash, with any signatures or
-- none, and whose block can be read and is the leader's, a replica whose mutex is free, and that does
-- not lead the next view and finds its leader's node, returns: the block's command is done, the block
-- is stored, the message's certificate is CommitQC and HighQC, the view is the next and the mutex is
-- free.
pub on_receive_decide-genesis :
    (process : Process) (c : Context) (msg : Msg) (hs : HotStuff) (pb : QuorumCertPb) (b : Block)
    (node : ReplicaConfig)
    → matching_msg msg MessageType.decide hs ≡ true
    → msg.qc ≡ some pb
    → (quorum_cert_from_proto (some pb)).hash ≡ genesis_hash c.crypto
    → block_from_proto c.crypto.prims hs.now msg.block ≡ ok b
    → b.proposer ≡ get_leader_id c hs
    → hs.locked ≡ false
    → nat_beq
        (get_leader_by_view c.node_manager.total_nodes_number (next_view msg.view))
        c.crypto.conf_id
      ≡ false
    → get_leader_node c.node_manager (next_view msg.view) ≡ ok (some node)
    → (s : HotStuff) × (on_receive_decide process c msg hs ≡ ok s)
      × (is_finished b.cmd s.cmd_cache ≡ true)
      × (s.block_chain ≡ clean b (store b hs.block_chain))
      × (s.commit_qc ≡ quorum_cert_from_proto (some pb))
      × (s.high_qc ≡ quorum_cert_from_proto (some pb))
      × (s.current_view ≡ next_view msg.view)
      × (s.locked ≡ false)
unfolding on_receive_decide decided lock unlock send_new_view send_to_leader get_leader_id
on_receive_decide-genesis process c msg hs pb b node match eq eh eb el free other found =
    let qc = quorum_cert_from_proto (some pb) in
    let accepted = read_cert-genesis c msg hs pb b eq eh eb el in
    let entered = enter_decided c msg qc (record (execute b hs) { locked = true }) in
    let told = record entered {
      sent = unicast node Rpc.new_view_basic (new_view_msg entered) ∷ entered.sent;
    } in
    (
      unlock (answer c b told),
      rw (match, accepted, free, other, found) refl,
      ground (arith, is_finished-finish b.cmd b.cmd hs.cmd_cache, bytes_beq_refl b.cmd),
      refl,
      refl,
      refl,
      refl,
      refl,
    )
