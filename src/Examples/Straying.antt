-- ===== src/Examples/Straying.antt =====
-- A leader that counts votes for other bytes.
use basic_hotstuff.Prelude.{
  ℕ, List, [], ◌∷◌, Option, none, some, ◌≡◌, refl, ok, Bool, true, false, not, ◌&&◌, ◌+◌, arith,
  flag, bytes_eq, nat_eq, lookup_list, lookup, Result, nat_beq,
}
use basic_hotstuff.Primitives.{Primitives}
use basic_hotstuff.Types.{zero_qc, Hash, Multi, PartialCert, QuorumCert}
use basic_hotstuff.Block.{Block, get_genesis}
use basic_hotstuff.Proto.{Msg, MessageType}
use basic_hotstuff.Convert.{quorum_signature_to_proto, quorum_cert_to_proto, quorum_cert_from_proto}
use basic_hotstuff.Crypto.{genesis_hash, create_timeout_quorum_cert, verify_timeout_vote_cert}
use basic_hotstuff.Consensus.State.{Context, HotStuff, Rpc, multicast}
use basic_hotstuff.Consensus.Phases.{on_receive_commit, on_receive_prepare, count_prepare_vote}
use basic_hotstuff.NodeManager.{other_nodes}
use basic_hotstuff.Consensus.Cogsworth.{
  Cogsworth, new_view_msg, timeout_vote_of, timeout_votes_with, count_timeout_vote,
  on_receive_new_view,
}
use basic_hotstuff.Consensus.Cogsworth.Moves.{or_state}
use basic_hotstuff.Consensus.Cogsworth.MixedVotes.{mixed_timeout_votes, VotesForTimeout}
use basic_hotstuff.Consensus.Cogsworth.NewViews.{peer}
use basic_hotstuff.Examples.Pacemaker.{with_votes, view_change_msg}
use basic_hotstuff.Examples.{
  toy, toy_crypto, four, four_nodes, vote_by, vote_msg, start, proposal, hash_of_length, result_or,
}

-- Signatures that repeat the key and the length of the text.
abbrev head_of : Hash → ℕ
head_of [] = 0
head_of (d ∷ _) = d

abbrev strict : Primitives
strict = record toy {
  ecdsa_sign = λ key nonce digest. some (key, head_of digest);
  ecdsa_verify = λ key digest r s. nat_beq r key && nat_beq s (head_of digest);
}

abbrev strict_four : Context
strict_four = record four { crypto = record toy_crypto { prims = strict } }

-- The signature of a replica for a text of a length, and its vote for the proposal's hash with it.
abbrev signed_for : ℕ → ℕ → Multi
signed_for i n = (i, record { r = i + 10; s = n; signer = i }) ∷ []

abbrev vote_for : ℕ → ℕ → PartialCert
vote_for i n = record (vote_by i) { signature = some (signed_for i n) }

-- The leader with two votes, one of them for a text of 94 bytes.
abbrev stray_in : HotStuff
stray_in = record start {
  verified_prepare_votes = (hash_of_length 93, vote_for 0 94 ∷ vote_for 2 93 ∷ []) ∷ [];
}

abbrev stray_counted : HotStuff
stray_counted =
    result_or start (count_prepare_vote strict_four (vote_msg 3) proposal (vote_for 3 93) stray_in)

-- The timeout votes of replicas 0 and 2, of which the first is for a text of another length, and the
-- vote of replica 3.
abbrev mixed_in : Cogsworth
mixed_in = with_votes [] ((1, some (signed_for 0 94) ∷ some (signed_for 2 32) ∷ []) ∷ [])

abbrev last_vote : Msg
last_vote = record (view_change_msg MessageType.timeout_vote 3) {
  view_sig = some (quorum_signature_to_proto (some (signed_for 3 32)));
}

abbrev or_zero : Result QuorumCert → QuorumCert
or_zero (ok qc) = qc
or_zero _ = zero_qc

abbrev mixed_qc : QuorumCert
mixed_qc = or_zero (
    create_timeout_quorum_cert strict_four.crypto (timeout_vote_of last_vote)
      (timeout_votes_with last_vote mixed_in))

abbrev announced_view : Msg
announced_view = new_view_msg strict_four last_vote mixed_qc (get_genesis strict)

abbrev peer_of : Context
peer_of = record { node_manager = four_nodes; crypto = peer strict_four.crypto 2 12 }

-- Another replica after the message.
abbrev not_moved : Cogsworth
not_moved = or_state mixed_in (on_receive_new_view peer_of announced_view (with_votes [] []))

mixed-invalid :
    verify_timeout_vote_cert strict_four.crypto (timeout_vote_of last_vote) (some (signed_for 0 94))
    ≡ ok false
unfolding verify_timeout_vote_cert basic_hotstuff.Crypto.tv_to_bytes
    basic_hotstuff.Types.tc_to_bytes basic_hotstuff.Convert.timeout_cert_from_proto
    basic_hotstuff.Convert.quorum_signature_from_proto basic_hotstuff.Convert.timeout_cert_to_proto
    quorum_signature_to_proto basic_hotstuff.Types.multi_to_bytes basic_hotstuff.Prelude.sort_by
    basic_hotstuff.Types.restore basic_hotstuff.Convert.signatures_to_proto
    basic_hotstuff.Prelude.insert lookup basic_hotstuff.Convert.signature_from_proto
    basic_hotstuff.Crypto.verify basic_hotstuff.Types.multi_len basic_hotstuff.Crypto.verify_each
    basic_hotstuff.Convert.signature_to_proto basic_hotstuff.Crypto.verify_single
    basic_hotstuff.Encoding.big_bytes basic_hotstuff.Encoding.put_be basic_hotstuff.Encoding.put_le
    basic_hotstuff.Encoding.set_bytes basic_hotstuff.Prelude.insert_sorted
    basic_hotstuff.Types.append_signatures basic_hotstuff.Types.restore_from
    basic_hotstuff.Types.signature_to_bytes basic_hotstuff.Types.signers
    basic_hotstuff.Types.view_to_bytes
mixed-invalid = refl

mixed :
    ¬ VotesForTimeout strict_four.crypto
      (timeout_vote_of last_vote)
      (timeout_votes_with last_vote mixed_in)
unfolding lookup_list lookup
mixed votes = absurd (ground (arith, votes.0, mixed-invalid))

mixed_timeout_votes_example :
    (s : Cogsworth) × (count_timeout_vote strict_four last_vote mixed_in ≡ ok s)
    × (s.base.sent ≡ multicast Rpc.new_view announced_view ∷ [])
    × (flag 1 s.base.finished_view_change ≡ true)
    × (not_moved ≡ with_votes [] [])
unfolding lookup_list lookup basic_hotstuff.Convert.quorum_signature_from_proto
    quorum_signature_to_proto basic_hotstuff.Types.restore
    basic_hotstuff.Convert.signatures_to_proto basic_hotstuff.Prelude.insert
    basic_hotstuff.Convert.signature_from_proto basic_hotstuff.Encoding.set_bytes
    basic_hotstuff.Encoding.big_bytes basic_hotstuff.Prelude.contains create_timeout_quorum_cert
    basic_hotstuff.Crypto.combine basic_hotstuff.Crypto.combine_into basic_hotstuff.Crypto.add_all
    basic_hotstuff.Crypto.tc_hash basic_hotstuff.Types.tc_to_bytes
    basic_hotstuff.Convert.timeout_cert_from_proto basic_hotstuff.Convert.timeout_cert_to_proto
    basic_hotstuff.Types.multi_to_bytes basic_hotstuff.Prelude.sort_by
    basic_hotstuff.Consensus.State.get_leader_id basic_hotstuff.NodeManager.get_leader_by_view
    basic_hotstuff.Consensus.State.new_hot_stuff basic_hotstuff.BlockChain.get
    basic_hotstuff.BlockChain.new_block_chain basic_hotstuff.Prelude.bytes_beq get_genesis
    basic_hotstuff.BlockChain.store basic_hotstuff.CmdCache.new_cmd_cache
    basic_hotstuff.Convert.signature_to_proto basic_hotstuff.Encoding.put_le
    basic_hotstuff.Prelude.insert_sorted basic_hotstuff.Timer.new_timer basic_hotstuff.Timer.stop
    basic_hotstuff.Types.append_signatures basic_hotstuff.Types.restore_from
    basic_hotstuff.Types.signature_to_bytes basic_hotstuff.Types.signers
    basic_hotstuff.Types.view_to_bytes basic_hotstuff.NodeManager.get_nodes on_receive_new_view
    basic_hotstuff.Crypto.verify_timeout_quorum_cert quorum_cert_from_proto quorum_cert_to_proto
    basic_hotstuff.Types.multi_len basic_hotstuff.Crypto.tv_to_bytes basic_hotstuff.Crypto.verify
    basic_hotstuff.Crypto.verify_each basic_hotstuff.Crypto.verify_single
mixed_timeout_votes_example =
    mixed_timeout_votes strict_four last_vote mixed_in mixed_qc (get_genesis strict)
      (other_nodes 1 four.node_manager.conf.replica) 2 12 four_nodes (with_votes [] []) not_moved
      (
        (signed_for 0 94, refl, omega arith),
        ((signed_for 2 32, refl, omega arith), ((signed_for 3 32, refl, omega arith), tt)),
      )
      ((refl, refl, tt), ((refl, refl, tt), ((refl, refl, tt), tt))) mixed refl (omega arith) refl
      refl refl refl
