-- ===== src/Examples/Forging.antt =====
-- A replica that gets a certificate with another view and hash in it.
use basic_hotstuff.Prelude.{
  ℕ, List, [], ◌∷◌, Option, none, some, ◌≡◌, ◌≢◌, refl, ok, Bool, true, false, not, ◌&&◌, ◌+◌,
  arith, length, ap, flag, bytes_eq, nat_eq, lookup_list, lookup, Result, nat_beq,
}
use basic_hotstuff.Types.{zero_qc, Hash, Multi, PartialCert, QuorumCert}
use basic_hotstuff.Block.{Block, get_genesis}
use basic_hotstuff.Proto.{Msg, MessageType}
use basic_hotstuff.Convert.{quorum_signature_to_proto, quorum_cert_to_proto, quorum_cert_from_proto}
use basic_hotstuff.Crypto.{
  genesis_hash, create_timeout_quorum_cert, verify_timeout_vote_cert, verify_partial_cert,
  verify_quorum_cert,
}
use basic_hotstuff.Consensus.State.{Context, HotStuff, Rpc, multicast}
use basic_hotstuff.Consensus.Phases.{
  read_cert, on_receive_commit, on_receive_prepare, count_prepare_vote,
}
use basic_hotstuff.Consensus.Phases.Forging.{altered, forged_lock}
use basic_hotstuff.NodeManager.{other_nodes}
use basic_hotstuff.Examples.{
  start, proposal, proposal_qc, hash_of_length, msg_of, prepare_msg, result_or, hashes_differ,
}
use basic_hotstuff.Examples.Runs.{follower}

abbrev commit_msg : Msg
commit_msg = msg_of MessageType.commit none (some (quorum_cert_to_proto proposal_qc))

abbrev forged_msg : Msg
forged_msg = altered commit_msg (quorum_cert_to_proto proposal_qc) 9 (hash_of_length 50)

-- The follower after the message as it was sent, and after the altered one.
abbrev locked_in : HotStuff
locked_in = result_or start (on_receive_commit follower commit_msg start)

abbrev forged_qc : QuorumCert
forged_qc = record proposal_qc { view = 9; hash = hash_of_length 50 }

abbrev misled : HotStuff
misled = record locked_in { pre_commit_qc = forged_qc }

locked_in-view : locked_in.pre_commit_qc.view ≡ 1
unfolding on_receive_commit basic_hotstuff.Consensus.State.matching_msg
    basic_hotstuff.Consensus.State.new_hot_stuff basic_hotstuff.Convert.block_from_proto
    basic_hotstuff.Block.new_block basic_hotstuff.Types.qc_to_bytes quorum_cert_from_proto
    basic_hotstuff.Convert.quorum_signature_from_proto basic_hotstuff.Convert.block_to_proto
    quorum_cert_to_proto quorum_signature_to_proto verify_quorum_cert
    basic_hotstuff.Prelude.bytes_beq basic_hotstuff.Convert.copy_into get_genesis
    basic_hotstuff.Encoding.put_le basic_hotstuff.Types.multi_len
    basic_hotstuff.Block.block_to_bytes basic_hotstuff.Block.set_timestamp
    basic_hotstuff.BlockChain.new_block_chain basic_hotstuff.BlockChain.store
    basic_hotstuff.CmdCache.new_cmd_cache read_cert basic_hotstuff.Consensus.Phases.send_vote
    basic_hotstuff.Consensus.State.get_leader_id basic_hotstuff.Consensus.State.lock
    basic_hotstuff.Consensus.State.send_to_leader basic_hotstuff.Consensus.State.sign_block
    basic_hotstuff.Consensus.State.unlock basic_hotstuff.Convert.partial_cert_to_proto
    basic_hotstuff.Convert.signature_from_proto basic_hotstuff.Convert.signature_to_proto
    basic_hotstuff.Convert.signatures_to_proto basic_hotstuff.Crypto.create_partial_cert
    basic_hotstuff.Crypto.sign basic_hotstuff.Crypto.verify basic_hotstuff.Crypto.verify_each
    basic_hotstuff.Crypto.verify_single basic_hotstuff.Encoding.big_bytes
    basic_hotstuff.Encoding.set_bytes basic_hotstuff.NodeManager.find_node
    basic_hotstuff.NodeManager.get_leader_by_view basic_hotstuff.NodeManager.get_leader_node
    basic_hotstuff.NodeManager.get_nodes basic_hotstuff.NodeManager.is_fault_node other_nodes flag
    basic_hotstuff.Prelude.insert lookup basic_hotstuff.Prelude.insert_sorted
    basic_hotstuff.Prelude.sort_by basic_hotstuff.Timer.new_timer basic_hotstuff.Timer.reset
    basic_hotstuff.Timer.soft_start basic_hotstuff.Timer.stop basic_hotstuff.Types.append_signatures
    basic_hotstuff.Types.first_signer basic_hotstuff.Types.multi_to_bytes
    basic_hotstuff.Types.new_partial_cert basic_hotstuff.Types.restore
    basic_hotstuff.Types.restore_from basic_hotstuff.Types.signature_to_bytes
    basic_hotstuff.Types.signers basic_hotstuff.Types.view_to_bytes
locked_in-view = refl

lock-moved : locked_in.pre_commit_qc ≢ start.pre_commit_qc
unfolding basic_hotstuff.Consensus.State.new_hot_stuff
lock-moved e = absurd (omega (arith, ap (λ q. q.view) e, locked_in-view))

other_hash : hash_of_length 50 ≢ hash_of_length 92
other_hash e = ground arith

forged_lock_example :
    (read_cert follower forged_msg start ≡ ok (some (proposal, forged_qc)))
    × (on_receive_commit follower forged_msg start ≡ ok misled)
    × (on_receive_prepare follower prepare_msg misled ≡ ok misled)
unfolding read_cert basic_hotstuff.Convert.block_from_proto basic_hotstuff.Block.new_block
    basic_hotstuff.Types.qc_to_bytes quorum_cert_from_proto
    basic_hotstuff.Convert.quorum_signature_from_proto basic_hotstuff.Convert.block_to_proto
    quorum_cert_to_proto quorum_signature_to_proto verify_quorum_cert
    basic_hotstuff.Prelude.bytes_beq basic_hotstuff.Convert.copy_into get_genesis
    basic_hotstuff.Encoding.put_le basic_hotstuff.Types.multi_len basic_hotstuff.Types.restore
    basic_hotstuff.Convert.signatures_to_proto basic_hotstuff.Block.block_to_bytes
    basic_hotstuff.Block.set_timestamp basic_hotstuff.Consensus.State.get_leader_id
    basic_hotstuff.Convert.signature_from_proto basic_hotstuff.Convert.signature_to_proto
    basic_hotstuff.Crypto.verify basic_hotstuff.Crypto.verify_each
    basic_hotstuff.Crypto.verify_single basic_hotstuff.Encoding.big_bytes
    basic_hotstuff.Encoding.set_bytes basic_hotstuff.NodeManager.get_leader_by_view
    basic_hotstuff.Prelude.insert lookup basic_hotstuff.Prelude.insert_sorted
    basic_hotstuff.Prelude.sort_by basic_hotstuff.Types.append_signatures
    basic_hotstuff.Types.multi_to_bytes basic_hotstuff.Types.restore_from
    basic_hotstuff.Types.signature_to_bytes basic_hotstuff.Types.signers
    basic_hotstuff.Types.view_to_bytes basic_hotstuff.Consensus.State.new_hot_stuff
    on_receive_commit basic_hotstuff.Consensus.State.matching_msg
    basic_hotstuff.Consensus.State.sign_block basic_hotstuff.Crypto.create_partial_cert
    basic_hotstuff.Crypto.sign basic_hotstuff.Types.new_partial_cert
    basic_hotstuff.Consensus.State.send_to_leader basic_hotstuff.NodeManager.get_leader_node
    basic_hotstuff.Consensus.State.lock basic_hotstuff.BlockChain.get
    basic_hotstuff.Consensus.State.unlock basic_hotstuff.BlockChain.new_block_chain
forged_lock_example =
    forged_lock follower commit_msg prepare_msg (quorum_cert_to_proto proposal_qc) 9
      (hash_of_length 50) proposal proposal proposal_qc start locked_in misled refl refl
      (unfold basic_hotstuff.Block.get_genesis in hashes_differ)
      (unfold basic_hotstuff.Block.get_genesis in other_hash) refl lock-moved refl refl refl
      (omega arith)
