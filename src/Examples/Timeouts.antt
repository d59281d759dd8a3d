-- ===== src/Examples/Timeouts.antt =====
-- Replicas that time out, and a replica that gets a Decide message with the genesis certificate.
use basic_hotstuff.Prelude.{
  ℕ, List, [], ◌∷◌, some, none, ◌≡◌, refl, ok, hang, Result, Bool, true, false, bytes_eq, nat_eq,
  flag, Map, suc,
}
use basic_hotstuff.Types.{View, QuorumCert, QuorumSignature}
use basic_hotstuff.Block.{Block, get_genesis}
use basic_hotstuff.BlockChain.{store, clean}
use basic_hotstuff.Convert.{quorum_cert_to_proto, quorum_cert_from_proto}
use basic_hotstuff.CmdCache.{is_finished}
use basic_hotstuff.NodeManager.{NodeManager}
use basic_hotstuff.Consensus.State.{Context, HotStuff}
use basic_hotstuff.Consensus.Basic.{on_receive_decide}
use basic_hotstuff.Consensus.Basic.Deciding.{on_receive_decide-genesis}
use basic_hotstuff.Consensus.MessageLoop.{process_current_view_queue, handle_timeout}
use basic_hotstuff.Consensus.MessageLoop.Timeouts.{timeout_blocks}
use basic_hotstuff.Consensus.Cogsworth.{Cogsworth}
use basic_hotstuff.Consensus.CogsworthLoop
use basic_hotstuff.Examples.{
  four, start, genesis_qc, proposal, proposal_qc, vote_by, vote_msg, decide_msg, replica_at,
}

on_receive_decide-genesis_example :
    (s : HotStuff) × (on_receive_decide
        (process_current_view_queue four)
        four
        (decide_msg genesis_qc)
        start
      ≡ ok s)
    × (is_finished (5 ∷ []) s.cmd_cache ≡ true)
    × (s.block_chain ≡ clean proposal (store proposal start.block_chain))
    × (s.commit_qc ≡ quorum_cert_from_proto (some (quorum_cert_to_proto genesis_qc)))
    × (s.high_qc ≡ quorum_cert_from_proto (some (quorum_cert_to_proto genesis_qc)))
    × (s.current_view ≡ 2)
    × (s.locked ≡ false)
unfolding basic_hotstuff.Consensus.State.matching_msg basic_hotstuff.Consensus.State.new_hot_stuff
    get_genesis quorum_cert_from_proto basic_hotstuff.Convert.copy_into quorum_cert_to_proto
    basic_hotstuff.Encoding.put_le basic_hotstuff.Convert.block_from_proto
    basic_hotstuff.Block.new_block basic_hotstuff.Types.qc_to_bytes
    basic_hotstuff.Convert.quorum_signature_from_proto basic_hotstuff.Convert.block_to_proto
    basic_hotstuff.Convert.quorum_signature_to_proto basic_hotstuff.Consensus.State.get_leader_id
    basic_hotstuff.NodeManager.get_leader_by_view basic_hotstuff.NodeManager.get_leader_node
    basic_hotstuff.Prelude.bytes_beq
on_receive_decide-genesis_example =
    on_receive_decide-genesis (process_current_view_queue four) four (decide_msg genesis_qc) start
      (quorum_cert_to_proto genesis_qc) proposal (replica_at 2) refl refl refl refl refl refl refl
      refl

-- The leader of view 1 with a prepare certificate times out; replica 2 leads the next view.
abbrev with_qc : HotStuff
with_qc = record start { prepare_qc = proposal_qc }

-- A replica of view 0 that leads view 1, with a vote for the proposal in its queue.
abbrev vote_queued : HotStuff
vote_queued = record start { current_view = 0; msg_queue = (1, vote_msg 3 ∷ []) ∷ [] }

timeout_blocks_example : handle_timeout four vote_queued ≡ hang
unfolding basic_hotstuff.Consensus.State.new_hot_stuff basic_hotstuff.NodeManager.get_leader_by_view
    basic_hotstuff.MessageQueue.pop basic_hotstuff.Prelude.lookup_list basic_hotstuff.Prelude.lookup
    basic_hotstuff.Prelude.erase basic_hotstuff.Prelude.insert basic_hotstuff.Prelude.sort_by
    basic_hotstuff.Prelude.split_last basic_hotstuff.Consensus.Phases.read_vote
    basic_hotstuff.Convert.partial_cert_from_proto basic_hotstuff.Types.new_partial_cert
    basic_hotstuff.Convert.quorum_signature_from_proto basic_hotstuff.Convert.partial_cert_to_proto
    basic_hotstuff.Convert.quorum_signature_to_proto basic_hotstuff.Convert.block_from_proto
    basic_hotstuff.Block.new_block basic_hotstuff.Block.block_to_bytes get_genesis
    basic_hotstuff.Block.set_timestamp basic_hotstuff.BlockChain.new_block_chain store
    basic_hotstuff.CmdCache.new_cmd_cache basic_hotstuff.Convert.copy_into quorum_cert_from_proto
    basic_hotstuff.Convert.signature_from_proto basic_hotstuff.Convert.signature_to_proto
    basic_hotstuff.Convert.signatures_to_proto basic_hotstuff.Crypto.verify
    basic_hotstuff.Crypto.verify_each basic_hotstuff.Crypto.verify_partial_cert
    basic_hotstuff.Crypto.verify_single basic_hotstuff.Encoding.big_bytes
    basic_hotstuff.Encoding.put_le basic_hotstuff.Encoding.set_bytes
    basic_hotstuff.MessageQueue.sort_msgs basic_hotstuff.MessageQueue.take_last
    basic_hotstuff.MessageQueue.type_priority flag basic_hotstuff.Prelude.insert_sorted
    basic_hotstuff.Prelude.bytes_beq basic_hotstuff.Timer.new_timer basic_hotstuff.Timer.stop
    basic_hotstuff.Types.append_signatures basic_hotstuff.Types.first_signer
    basic_hotstuff.Types.multi_len basic_hotstuff.Types.multi_to_bytes
    basic_hotstuff.Types.qc_to_bytes basic_hotstuff.Types.restore basic_hotstuff.Types.restore_from
    basic_hotstuff.Types.signature_to_bytes basic_hotstuff.Types.signers
    basic_hotstuff.Types.view_to_bytes basic_hotstuff.Convert.block_to_proto quorum_cert_to_proto
timeout_blocks_example =
    timeout_blocks four vote_queued (vote_msg 3) proposal (vote_by 3) refl refl refl refl refl refl

abbrev own_signature : QuorumSignature
own_signature = some ((1, record { r = 11; s = 0; signer = 1 }) ∷ [])
