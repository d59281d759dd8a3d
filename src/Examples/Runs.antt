-- ===== src/Examples/Runs.antt =====
-- Runs of the leader of view 1: it gets a Decide message whose certificate names the genesis hash,
-- and handles it. A follower gets two proposals.
use basic_hotstuff.Prelude.{
  ℕ, suc, [], ◌∷◌, some, none, ◌≡◌, refl, ok, true, false, arith, ◌>>=◌, Result,
}
use basic_hotstuff.Types.{PartialCert}
use basic_hotstuff.Block.{Block}
use basic_hotstuff.Proto.{Msg}
use basic_hotstuff.Convert.{block_to_proto}
use basic_hotstuff.CmdCache.{is_finished}
use basic_hotstuff.Consensus.State.{Context, HotStuff, Rpc}
use basic_hotstuff.Consensus.Phases.{on_receive_prepare}
use basic_hotstuff.Consensus.Phases.Equivocation.{voted, votes_twice}
use basic_hotstuff.Consensus.Phases.Safety.{Voted, on_receive_prepare-Voted}
use basic_hotstuff.Consensus.Basic.{new_basic_hot_stuff}
use basic_hotstuff.Consensus.MessageLoop.{handle_msg}
use basic_hotstuff.Consensus.Run.{Step, Reach}
use basic_hotstuff.Consensus.Run.Sanity.{Sane, Reach-Sane, Reach-Remembers}
use basic_hotstuff.Consensus.Cogsworth.{Cogsworth, new_cogsworth}
use basic_hotstuff.Consensus.CogsworthRun.{SaneVotes, Reach-SaneVotes}
use basic_hotstuff.Consensus.CogsworthRun
use basic_hotstuff.Server.{deliver}
use basic_hotstuff.Consensus.Certified.{Certified, IsConfigured}
use basic_hotstuff.Consensus.Certified.Run.{Reach-Certified}
use basic_hotstuff.Consensus.Certified.WishesRun.{Reach-CertifiedBase}
use basic_hotstuff.Examples.{
  toy_crypto, four, four_nodes, four_config, start, proposal, prepare_msg, decide_msg, genesis_qc,
  result_or, hash_of_length, replica_at, toy-KeyPair,
}

abbrev at_first : HotStuff
at_first = record start { high_qc = genesis_qc; pre_commit_qc = genesis_qc; ready = 1 }

abbrev got : HotStuff
got = record at_first { msg_chan = decide_msg genesis_qc ∷ [] }

abbrev went_on : HotStuff
went_on = result_or start (handle_msg four (decide_msg genesis_qc) at_first)

at_first-got : deliver false Rpc.decide (decide_msg genesis_qc) at_first ≡ some got
unfolding deliver basic_hotstuff.Consensus.State.new_hot_stuff
at_first-got = refl

got-went_on : handle_msg four (decide_msg genesis_qc) (record got { msg_chan = [] }) ≡ ok went_on
unfolding handle_msg basic_hotstuff.Consensus.State.new_hot_stuff basic_hotstuff.MessageQueue.pop
    basic_hotstuff.Prelude.lookup_list basic_hotstuff.Prelude.lookup
    basic_hotstuff.Consensus.State.matching_msg basic_hotstuff.Consensus.Phases.read_cert
    basic_hotstuff.Convert.block_from_proto basic_hotstuff.Block.new_block
    basic_hotstuff.Types.qc_to_bytes basic_hotstuff.Convert.quorum_cert_from_proto
    basic_hotstuff.Convert.quorum_signature_from_proto block_to_proto
    basic_hotstuff.Convert.quorum_cert_to_proto basic_hotstuff.Convert.quorum_signature_to_proto
    basic_hotstuff.Crypto.verify_quorum_cert basic_hotstuff.Prelude.bytes_beq
    basic_hotstuff.Convert.copy_into basic_hotstuff.Block.get_genesis basic_hotstuff.Encoding.put_le
    basic_hotstuff.Consensus.State.get_leader_id basic_hotstuff.NodeManager.get_leader_by_view
    basic_hotstuff.Consensus.State.lock basic_hotstuff.Consensus.State.send_to_leader
    basic_hotstuff.NodeManager.get_leader_node
got-went_on = refl

run : Reach four at_first went_on
run =
    Reach.after
      (Reach.after Reach.start
        (Step.delivered Rpc.decide (decide_msg genesis_qc) {hs = at_first} {s = got} at_first-got))
      (Step.handled (decide_msg genesis_qc) [] {hs = got} refl got-went_on)

Reach-Sane_example : Sane went_on
unfolding new_basic_hot_stuff basic_hotstuff.Crypto.create_quorum_cert
    basic_hotstuff.Prelude.bytes_beq basic_hotstuff.Block.get_genesis basic_hotstuff.Encoding.put_le
    basic_hotstuff.Consensus.State.get_leader_id basic_hotstuff.NodeManager.get_leader_by_view
Reach-Sane_example = Reach-Sane four at_first went_on refl run

Reach-Remembers_example : is_finished (5 ∷ []) (record went_on { now = 9 }).cmd_cache ≡ true
unfolding new_basic_hot_stuff basic_hotstuff.Crypto.create_quorum_cert
    basic_hotstuff.Prelude.bytes_beq basic_hotstuff.Block.get_genesis basic_hotstuff.Encoding.put_le
    is_finished basic_hotstuff.Prelude.flag basic_hotstuff.Prelude.lookup handle_msg
    basic_hotstuff.Consensus.State.get_leader_id basic_hotstuff.NodeManager.get_leader_by_view
    basic_hotstuff.MessageQueue.pop basic_hotstuff.Prelude.lookup_list
    basic_hotstuff.Consensus.State.matching_msg basic_hotstuff.Consensus.Phases.read_cert
    basic_hotstuff.Convert.block_from_proto basic_hotstuff.Block.new_block
    basic_hotstuff.Types.qc_to_bytes basic_hotstuff.Convert.quorum_cert_from_proto
    basic_hotstuff.Convert.quorum_signature_from_proto block_to_proto
    basic_hotstuff.Convert.quorum_cert_to_proto basic_hotstuff.Convert.quorum_signature_to_proto
    basic_hotstuff.Crypto.verify_quorum_cert basic_hotstuff.Convert.copy_into
    basic_hotstuff.Consensus.State.lock basic_hotstuff.Consensus.State.send_to_leader
    basic_hotstuff.NodeManager.get_leader_node basic_hotstuff.Consensus.State.unlock
    basic_hotstuff.CmdCache.finish basic_hotstuff.Prelude.insert
    basic_hotstuff.CmdCache.new_cmd_cache
Reach-Remembers_example =
    Reach-Remembers four at_first went_on (record went_on { now = 9 }) (5 ∷ []) refl run
      (Reach.after Reach.start (Step.ticked 9)) refl

four-IsConfigured : IsConfigured four
four-IsConfigured = record { public_key = 11; pair = toy-KeyPair 11; listed = refl; sizes = refl }

Reach-Certified_example : Certified four went_on
unfolding new_basic_hot_stuff basic_hotstuff.Crypto.create_quorum_cert
    basic_hotstuff.Prelude.bytes_beq basic_hotstuff.Block.get_genesis basic_hotstuff.Encoding.put_le
    basic_hotstuff.Consensus.State.get_leader_id basic_hotstuff.NodeManager.get_leader_by_view
Reach-Certified_example = Reach-Certified four at_first went_on four-IsConfigured refl run

abbrev no_wishes : Cogsworth
no_wishes = record {
  base = start;
  verified_timeout_votes = [];
  wish_next_view = [];
  wish_finished = [];
  timeout_vote_finished = [];
}

abbrev at_first_with_wishes : Cogsworth
at_first_with_wishes = record no_wishes { base = at_first }

prepare_got :
    deliver true Rpc.prepare prepare_msg at_first
    ≡ some (record at_first { msg_chan = prepare_msg ∷ [] })
unfolding deliver basic_hotstuff.Consensus.State.new_hot_stuff
prepare_got = refl

Reach-SaneVotes_example : SaneVotes four (record at_first_with_wishes {
  base = record at_first_with_wishes.base { msg_chan = prepare_msg ∷ [] };
})
unfolding new_cogsworth basic_hotstuff.Crypto.create_quorum_cert basic_hotstuff.Prelude.bytes_beq
    basic_hotstuff.Block.get_genesis basic_hotstuff.Encoding.put_le basic_hotstuff.Server.deliver
    basic_hotstuff.Consensus.State.get_leader_id basic_hotstuff.NodeManager.get_leader_by_view
Reach-SaneVotes_example =
    Reach-SaneVotes four at_first_with_wishes
      (record at_first_with_wishes {
        base = record at_first_with_wishes.base { msg_chan = prepare_msg ∷ [] };
      })
      refl
      (CogsworthRun.Reach.after CogsworthRun.Reach.start
        (CogsworthRun.Step.delivered Rpc.prepare prepare_msg prepare_got))

Reach-CertifiedBase_example :
    Certified four (record at_first_with_wishes.base { msg_chan = prepare_msg ∷ [] })
unfolding new_cogsworth basic_hotstuff.Crypto.create_quorum_cert basic_hotstuff.Prelude.bytes_beq
    basic_hotstuff.Block.get_genesis basic_hotstuff.Encoding.put_le
    basic_hotstuff.Consensus.State.get_leader_id basic_hotstuff.NodeManager.get_leader_by_view
Reach-CertifiedBase_example =
    Reach-CertifiedBase four at_first_with_wishes
      (record at_first_with_wishes {
        base = record at_first_with_wishes.base { msg_chan = prepare_msg ∷ [] };
      })
      four-IsConfigured refl
      (CogsworthRun.Reach.after CogsworthRun.Reach.start
        (CogsworthRun.Step.delivered Rpc.prepare prepare_msg prepare_got))

-- The replica with id 2, and another block of the leader of view 1.
abbrev pub follower : Context
follower = record {
  node_manager = record four_nodes { conf = record four_config { id = 2 } };
  crypto = record toy_crypto { conf_id = 2; private_key = 12 };
}

abbrev other_proposal : Block
other_proposal = record proposal { cmd = 6 ∷ [] }

abbrev other_prepare_msg : Msg
other_prepare_msg = record prepare_msg { block = some (block_to_proto other_proposal) }

abbrev vote_of_follower : ℕ → PartialCert
vote_of_follower nonce = record {
  signer = 2;
  signature = some ((2, record { r = 12; s = nonce; signer = 2 }) ∷ []);
  block_hash = hash_of_length 93;
}

votes_twice_example :
    (on_receive_prepare follower prepare_msg start >>= λ s.
    on_receive_prepare follower other_prepare_msg s)
    ≡ ok (
        voted follower other_prepare_msg other_proposal
          (vote_of_follower 1)
          (replica_at 1)
          (voted follower prepare_msg proposal (vote_of_follower 0) (replica_at 1) start))
unfolding basic_hotstuff.Consensus.State.matching_msg basic_hotstuff.Consensus.State.new_hot_stuff
    basic_hotstuff.Convert.block_from_proto basic_hotstuff.Block.new_block
    basic_hotstuff.Types.qc_to_bytes basic_hotstuff.Convert.quorum_cert_from_proto
    basic_hotstuff.Convert.quorum_signature_from_proto block_to_proto
    basic_hotstuff.Convert.quorum_cert_to_proto basic_hotstuff.Convert.quorum_signature_to_proto
    basic_hotstuff.Convert.copy_into basic_hotstuff.Encoding.put_le
    basic_hotstuff.Consensus.State.get_leader_id basic_hotstuff.NodeManager.get_leader_by_view
    basic_hotstuff.Crypto.create_partial_cert basic_hotstuff.Crypto.sign
    basic_hotstuff.Types.new_partial_cert basic_hotstuff.Block.block_to_bytes
    basic_hotstuff.Block.get_genesis basic_hotstuff.Block.set_timestamp
    basic_hotstuff.BlockChain.new_block_chain basic_hotstuff.BlockChain.store
    basic_hotstuff.CmdCache.new_cmd_cache basic_hotstuff.Types.first_signer
    basic_hotstuff.Types.multi_to_bytes basic_hotstuff.Types.restore
    basic_hotstuff.Types.restore_from basic_hotstuff.Types.signature_to_bytes
    basic_hotstuff.Types.signers basic_hotstuff.Types.view_to_bytes
    basic_hotstuff.NodeManager.get_leader_node basic_hotstuff.Prelude.bytes_beq
votes_twice_example =
    votes_twice follower prepare_msg other_prepare_msg proposal other_proposal (vote_of_follower 0)
      (vote_of_follower 1) (replica_at 1) start
      (record { matches = refl; read = refl; has_qc = refl; leader = refl; newer = omega arith })
      (record { matches = refl; read = refl; has_qc = refl; leader = refl; newer = omega arith })
      refl refl refl

on_receive_prepare-Voted_example :
    Voted follower prepare_msg start
      (voted follower prepare_msg proposal (vote_of_follower 0) (replica_at 1) start)
unfolding on_receive_prepare basic_hotstuff.Consensus.State.matching_msg
    basic_hotstuff.Consensus.State.new_hot_stuff basic_hotstuff.Convert.block_from_proto
    basic_hotstuff.Block.new_block basic_hotstuff.Types.qc_to_bytes
    basic_hotstuff.Convert.quorum_cert_from_proto basic_hotstuff.Convert.quorum_signature_from_proto
    block_to_proto basic_hotstuff.Convert.quorum_cert_to_proto
    basic_hotstuff.Convert.quorum_signature_to_proto basic_hotstuff.Consensus.State.get_leader_id
    basic_hotstuff.NodeManager.get_leader_by_view basic_hotstuff.Consensus.State.safe_node
    basic_hotstuff.Consensus.State.sign_block basic_hotstuff.Crypto.create_partial_cert
    basic_hotstuff.Crypto.sign basic_hotstuff.Block.block_to_bytes basic_hotstuff.Block.get_genesis
    basic_hotstuff.Block.set_timestamp basic_hotstuff.BlockChain.extends
    basic_hotstuff.BlockChain.extends_loop basic_hotstuff.BlockChain.get
    basic_hotstuff.BlockChain.new_block_chain basic_hotstuff.BlockChain.store
    basic_hotstuff.CmdCache.new_cmd_cache basic_hotstuff.Consensus.Phases.send_vote
    basic_hotstuff.Consensus.State.send_to_leader basic_hotstuff.Convert.copy_into
    basic_hotstuff.Convert.partial_cert_to_proto basic_hotstuff.Convert.signature_from_proto
    basic_hotstuff.Convert.signature_to_proto basic_hotstuff.Convert.signatures_to_proto
    basic_hotstuff.Encoding.big_bytes basic_hotstuff.Encoding.put_le
    basic_hotstuff.Encoding.set_bytes basic_hotstuff.NodeManager.find_node
    basic_hotstuff.NodeManager.get_leader_node basic_hotstuff.NodeManager.get_nodes
    basic_hotstuff.NodeManager.is_fault_node basic_hotstuff.NodeManager.other_nodes
    basic_hotstuff.Prelude.flag basic_hotstuff.Prelude.insert basic_hotstuff.Prelude.lookup
    basic_hotstuff.Prelude.insert_sorted basic_hotstuff.Prelude.sort_by
    basic_hotstuff.Prelude.bytes_beq basic_hotstuff.Timer.new_timer basic_hotstuff.Timer.reset
    basic_hotstuff.Timer.soft_start basic_hotstuff.Timer.stop basic_hotstuff.Types.append_signatures
    basic_hotstuff.Types.first_signer basic_hotstuff.Types.multi_to_bytes
    basic_hotstuff.Types.new_partial_cert basic_hotstuff.Types.restore
    basic_hotstuff.Types.restore_from basic_hotstuff.Types.signature_to_bytes
    basic_hotstuff.Types.signers basic_hotstuff.Types.view_to_bytes
on_receive_prepare-Voted_example = on_receive_prepare-Voted follower prepare_msg start
