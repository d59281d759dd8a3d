-- ===== src/Examples/Replicas.antt =====
-- The leader of view 1 and a message that it handles.
use basic_hotstuff.Prelude.{
  ℕ, List, [], ◌∷◌, ◌++◌, Option, none, some, Bytes, ◌≡◌, ◌≢◌, ◌<◌, ◌≤◌, refl, ok, hang, Result,
  Bool, true, false, arith, length, Ends, ◌>>=◌, lookup_list, ap,
}
use basic_hotstuff.Types.{Multi, QuorumCert}
use basic_hotstuff.Block.{Block, block_to_bytes, get_genesis}
use basic_hotstuff.Convert.{block_from_proto, quorum_cert_to_proto, quorum_cert_from_proto}
use basic_hotstuff.Convert.RoundTrip.{IsKeyed}
use basic_hotstuff.Crypto.{Crypto, verify_quorum_cert}
use basic_hotstuff.Crypto.Verifying.{AllSigned}
use basic_hotstuff.Consensus.State.{HotStuff, get_leader_id, safe_node}
use basic_hotstuff.Consensus.Phases.{
  on_receive_prepare, on_receive_prepare_vote, count_prepare_vote, read_cert, votes_with, with_lock,
}
use basic_hotstuff.Consensus.Phases.Quorum.{
  prepare_qc-verify, duplicate_vote_blocks, read_cert-quorum,
}
use basic_hotstuff.Consensus.MessageLoop.{handle_msg}
use basic_hotstuff.Consensus.MessageLoop.Progress.{Handled, handle_msg-Handled}
use basic_hotstuff.Examples.{
  toy, four, start, proposal, proposal_qc, vote_by, decide_msg, vote_msg, two_votes_in, result_or,
  hashes_differ, hash_of_length,
}

handle_msg-Handled_example : Ends (Handled start) (handle_msg four (decide_msg proposal_qc) start)
handle_msg-Handled_example = handle_msg-Handled four (decide_msg proposal_qc) start

read_cert-quorum_example :
    (m : Multi) × (bytes : Bytes) × (proposal_qc.signature ≡ some m)
    × (block_to_bytes proposal ≡ ok bytes)
    × (3 ≤ length m)
    × IsKeyed m
    × AllSigned four.crypto (toy.sha256 bytes) m
    × (block_from_proto toy 0 (decide_msg proposal_qc).block ≡ ok proposal)
    × (1 ≡ get_leader_id four start)
unfolding read_cert block_from_proto basic_hotstuff.Block.new_block basic_hotstuff.Types.qc_to_bytes
    quorum_cert_from_proto basic_hotstuff.Convert.quorum_signature_from_proto
    basic_hotstuff.Convert.block_to_proto quorum_cert_to_proto
    basic_hotstuff.Convert.quorum_signature_to_proto verify_quorum_cert
    basic_hotstuff.Prelude.bytes_beq basic_hotstuff.Convert.copy_into get_genesis
    basic_hotstuff.Encoding.put_le basic_hotstuff.Types.multi_len basic_hotstuff.Types.restore
    basic_hotstuff.Convert.signatures_to_proto basic_hotstuff.Prelude.insert block_to_bytes
    basic_hotstuff.Block.set_timestamp get_leader_id basic_hotstuff.Convert.signature_from_proto
    basic_hotstuff.Convert.signature_to_proto basic_hotstuff.Crypto.verify
    basic_hotstuff.Crypto.verify_each basic_hotstuff.Crypto.verify_single
    basic_hotstuff.Encoding.big_bytes basic_hotstuff.Encoding.set_bytes
    basic_hotstuff.Prelude.sort_by basic_hotstuff.Types.append_signatures
    basic_hotstuff.Types.multi_to_bytes basic_hotstuff.Types.restore_from
    basic_hotstuff.Types.signature_to_bytes basic_hotstuff.Types.signers
    basic_hotstuff.Types.view_to_bytes basic_hotstuff.Consensus.State.new_hot_stuff
    basic_hotstuff.NodeManager.get_leader_by_view
read_cert-quorum_example =
    read_cert-quorum four (decide_msg proposal_qc) start proposal proposal_qc refl
      (unfold get_genesis in hashes_differ)

-- The leader after the third vote, and after a second vote of the same replica.
abbrev third_vote_in : HotStuff
third_vote_in =
    result_or start (count_prepare_vote four (vote_msg 3) proposal (vote_by 3) two_votes_in)

abbrev second_vote_again : HotStuff
second_vote_again =
    result_or start (count_prepare_vote four (vote_msg 2) proposal (vote_by 2) two_votes_in)

abbrev pub proposal_bytes : Bytes
proposal_bytes =
    hash_of_length 92
    ++ (1 ∷ 0 ∷ 0 ∷ 0 ∷ [])
    ++ (1 ∷ 0 ∷ 0 ∷ 0 ∷ 0 ∷ 0 ∷ 0 ∷ 0 ∷ [])
    ++ (5 ∷ [])
    ++ (0 ∷ 0 ∷ 0 ∷ 0 ∷ 0 ∷ 0 ∷ 0 ∷ 0 ∷ [])
    ++ hash_of_length 92
    ++ (7 ∷ 0 ∷ 0 ∷ 0 ∷ 0 ∷ 0 ∷ 0 ∷ 0 ∷ [])

length-third_vote_in : length third_vote_in.sent ≡ 1
unfolding count_prepare_vote lookup_list basic_hotstuff.Prelude.lookup
    basic_hotstuff.Prelude.bytes_beq basic_hotstuff.NodeManager.is_fault_node
    basic_hotstuff.Prelude.flag basic_hotstuff.Crypto.create_quorum_cert get_genesis
    basic_hotstuff.Encoding.put_le basic_hotstuff.Crypto.combine basic_hotstuff.Crypto.combine_into
    basic_hotstuff.Crypto.add_all basic_hotstuff.Prelude.contains basic_hotstuff.Prelude.insert
    basic_hotstuff.Consensus.State.send_to_all basic_hotstuff.NodeManager.get_nodes
    basic_hotstuff.Consensus.State.sign_block basic_hotstuff.Crypto.create_partial_cert
    block_to_bytes basic_hotstuff.Consensus.Phases.prepared
    basic_hotstuff.Consensus.State.append_vote get_leader_id
    basic_hotstuff.Consensus.State.vote_myself quorum_cert_to_proto
    basic_hotstuff.Convert.quorum_signature_to_proto basic_hotstuff.Convert.signature_to_proto
    basic_hotstuff.Convert.signatures_to_proto basic_hotstuff.Types.multi_len
    basic_hotstuff.Crypto.verify_each basic_hotstuff.Crypto.verify_single
    basic_hotstuff.Types.qc_to_bytes basic_hotstuff.Crypto.sign
    basic_hotstuff.Types.new_partial_cert basic_hotstuff.NodeManager.get_leader_by_view
    basic_hotstuff.Consensus.State.new_hot_stuff
length-third_vote_in = refl

something_sent : third_vote_in.sent ≢ two_votes_in.sent
unfolding basic_hotstuff.Consensus.State.new_hot_stuff
something_sent e = absurd (omega (arith, ap length e, length-third_vote_in))

prepare_qc-verify_example :
    (verify_quorum_cert four.crypto proposal third_vote_in.prepare_qc ≡ ok true)
    × (third_vote_in.prepare_qc.view ≡ 1)
    × (third_vote_in.prepare_qc.hash ≡ hash_of_length 93)
unfolding count_prepare_vote lookup_list basic_hotstuff.Prelude.lookup
    basic_hotstuff.Prelude.bytes_beq basic_hotstuff.NodeManager.is_fault_node
    basic_hotstuff.Prelude.flag basic_hotstuff.Crypto.create_quorum_cert get_genesis
    basic_hotstuff.Encoding.put_le basic_hotstuff.Crypto.combine basic_hotstuff.Crypto.combine_into
    basic_hotstuff.Crypto.add_all basic_hotstuff.Prelude.contains basic_hotstuff.Prelude.insert
    basic_hotstuff.Consensus.State.send_to_all basic_hotstuff.NodeManager.get_nodes
    basic_hotstuff.Consensus.State.sign_block basic_hotstuff.Crypto.create_partial_cert
    block_to_bytes basic_hotstuff.Consensus.Phases.prepared
    basic_hotstuff.Consensus.State.append_vote get_leader_id
    basic_hotstuff.Consensus.State.vote_myself quorum_cert_to_proto
    basic_hotstuff.Convert.quorum_signature_to_proto basic_hotstuff.Convert.signature_to_proto
    basic_hotstuff.Convert.signatures_to_proto basic_hotstuff.Crypto.verify_partial_cert
    basic_hotstuff.Crypto.verify basic_hotstuff.Types.multi_len basic_hotstuff.Crypto.verify_each
    basic_hotstuff.Crypto.verify_single basic_hotstuff.Types.qc_to_bytes basic_hotstuff.Crypto.sign
    basic_hotstuff.Types.new_partial_cert
prepare_qc-verify_example =
    prepare_qc-verify four (vote_msg 3) proposal proposal_bytes (vote_by 3) two_votes_in
      third_vote_in refl refl (refl, (refl, (refl, tt))) refl (unfold get_genesis in hashes_differ)
      something_sent

duplicate_vote_blocks_example :
    (second_vote_again.prepare_qc ≡ two_votes_in.prepare_qc)
    × (second_vote_again.sent ≡ two_votes_in.sent)
unfolding count_prepare_vote lookup_list basic_hotstuff.Prelude.lookup
    basic_hotstuff.Prelude.bytes_beq basic_hotstuff.Encoding.put_le
    basic_hotstuff.NodeManager.is_fault_node basic_hotstuff.Prelude.flag
    basic_hotstuff.Crypto.create_quorum_cert get_genesis basic_hotstuff.Crypto.combine
    basic_hotstuff.Crypto.combine_into basic_hotstuff.Crypto.add_all basic_hotstuff.Prelude.contains
    basic_hotstuff.Prelude.insert
duplicate_vote_blocks_example =
    duplicate_vote_blocks four (vote_msg 2) proposal (vote_by 2) 2 two_votes_in second_vote_again
      (omega arith) (unfold get_genesis in hashes_differ) refl
