-- ===== src/Examples/Pacemaker.antt =====
-- A replica with wishes that gets the wish that completes a timeout quorum, timeout votes in which
-- one replica votes twice, and two view changes.
use basic_hotstuff.Prelude.{
  EachValue-insert, ℕ, List, [], ◌∷◌, ◌++◌, Option, none, some, ◌≡◌, ◌≤◌, refl, ok, panic, Result,
  true, false, arith, Ends, insert, lookup_list, lookup, nat_eq, length, flag,
}
use basic_hotstuff.Types.{QuorumSignature, QuorumCert, TimeoutCert, zero_qc, zero_hash}
use basic_hotstuff.Block.{get_genesis}
use basic_hotstuff.Proto.{Msg, MessageType}
use basic_hotstuff.Convert.{
  quorum_signature_to_proto, timeout_cert_to_proto, timeout_cert_from_proto, quorum_cert_to_proto,
  quorum_cert_from_proto,
}
use basic_hotstuff.Crypto.{verify_timeout_cert}
use basic_hotstuff.NodeManager.{NodeManager, other_nodes}
use basic_hotstuff.Consensus.State.{HotStuff, Rpc, multicast}
use basic_hotstuff.Consensus.Phases.{start_timer}
use basic_hotstuff.Consensus.Cogsworth.{
  Cogsworth, set_base, count_timeout_vote, new_view_msg, on_receive_new_view, process_new_view,
}
use basic_hotstuff.Consensus.Cogsworth.Wishing.{wished, add_wish, on_receive_wish_next_view}
use basic_hotstuff.Consensus.Cogsworth.Moves.{Votes, IsWish, IsTimeoutVote, Verified, or_state}
use basic_hotstuff.Consensus.Cogsworth.Wishes.{wish-quorum}
use basic_hotstuff.Consensus.Cogsworth.NewViews.{timeout_vote-quorum, peer}
use basic_hotstuff.Consensus.Cogsworth.Panics.{repeated_timeout_vote, second_view_change}
use basic_hotstuff.Consensus.CogsworthLoop.{handle_msg}
use basic_hotstuff.Consensus.CogsworthLoop.Progress.{HandledVotes, handle_msg-HandledVotes}
use basic_hotstuff.Consensus.State.{Context}
use basic_hotstuff.Examples.{toy, toy_crypto, four, start, genesis_qc, signed_by}

abbrev pub with_votes : Votes → Votes → Cogsworth
with_votes wishes votes = record {
  base = record start { high_qc = genesis_qc };
  verified_timeout_votes = votes;
  wish_next_view = wishes;
  wish_finished = [];
  timeout_vote_finished = [];
}

abbrev pub view_change_msg : MessageType → ℕ → Msg
view_change_msg type i = record {
  type = type;
  view = 1;
  block = none;
  partial_cert = none;
  qc = none;
  replica_id = i;
  view_sig = some (quorum_signature_to_proto (some (signed_by i)));
  tc = some (timeout_cert_to_proto (record { signature = some (signed_by 0); view = 1 }));
}

-- The wish of replica 0 is in.
abbrev one_wish_in : Cogsworth
one_wish_in = with_votes ((1, some (signed_by 0) ∷ []) ∷ []) []

handle_msg-HandledVotes_example :
    Ends
      (HandledVotes four one_wish_in)
      (handle_msg four (view_change_msg MessageType.wish_next_view 2) one_wish_in)
handle_msg-HandledVotes_example =
    handle_msg-HandledVotes four (view_change_msg MessageType.wish_next_view 2) one_wish_in

one_wish_in-Verified : Verified toy_crypto one_wish_in
unfolding insert lookup_list lookup basic_hotstuff.Prelude.contains basic_hotstuff.Crypto.verify
    basic_hotstuff.Types.multi_len basic_hotstuff.Crypto.verify_each
    basic_hotstuff.Crypto.verify_single
one_wish_in-Verified = record {
  wishes =
      EachValue-insert (IsWish toy_crypto) 1 (some (signed_by 0)) [] (λ v. tt)
        ((refl, refl, tt), refl);
  votes = λ v. tt;
}

wish-quorum_example :
    (cert : TimeoutCert) × (on_receive_wish_next_view four
        (view_change_msg MessageType.wish_next_view 2)
        one_wish_in
      ≡ wished four 1 cert (
          add_wish
            (view_change_msg MessageType.wish_next_view 2)
            (set_base start_timer one_wish_in)))
    × (verify_timeout_cert toy_crypto (timeout_cert_from_proto (some (timeout_cert_to_proto cert)))
        ≡ ok true)
    × (cert.view ≡ 1)
unfolding basic_hotstuff.Prelude.flag lookup basic_hotstuff.Crypto.verify
    basic_hotstuff.Convert.quorum_signature_from_proto quorum_signature_to_proto
    basic_hotstuff.Types.multi_len basic_hotstuff.Types.restore
    basic_hotstuff.Convert.signatures_to_proto insert basic_hotstuff.Crypto.verify_each
    basic_hotstuff.Crypto.verify_single basic_hotstuff.Convert.signature_from_proto
    basic_hotstuff.Encoding.set_bytes basic_hotstuff.Encoding.big_bytes lookup_list
wish-quorum_example =
    wish-quorum four (view_change_msg MessageType.wish_next_view 2) one_wish_in one_wish_in-Verified
      refl refl refl (omega arith) (omega arith) (λ i. ground arith)

-- The timeout votes of replicas 0 and 2 are in.
abbrev two_timeout_votes_in : Cogsworth
two_timeout_votes_in = with_votes [] ((1, some (signed_by 0) ∷ some (signed_by 2) ∷ []) ∷ [])

abbrev some_tc : TimeoutCert
some_tc = record { signature = some (signed_by 0); view = 1 }

two_timeout_votes_in-Verified : Verified toy_crypto two_timeout_votes_in
unfolding insert lookup_list lookup basic_hotstuff.Crypto.verify_timeout_vote_cert
    basic_hotstuff.Crypto.tv_to_bytes basic_hotstuff.Types.tc_to_bytes
    basic_hotstuff.Types.multi_to_bytes basic_hotstuff.Prelude.sort_by basic_hotstuff.Crypto.verify
    basic_hotstuff.Types.multi_len basic_hotstuff.Crypto.verify_each
    basic_hotstuff.Crypto.verify_single
two_timeout_votes_in-Verified = record {
  wishes = λ v. tt;
  votes =
      EachValue-insert (IsTimeoutVote toy_crypto) 1 (some (signed_by 2))
        ((1, some (signed_by 0) ∷ []) ∷ [])
        (EachValue-insert (IsTimeoutVote toy_crypto) 1 (some (signed_by 0)) [] (λ v. tt)
          (some_tc, refl))
        (some_tc, refl);
}

-- Replica 2 votes again.
abbrev vote_again : Msg
vote_again = view_change_msg MessageType.timeout_vote 2

repeated_timeout_vote_example :
    (s : Cogsworth) × (count_timeout_vote four vote_again two_timeout_votes_in ≡ ok s)
    × (s.base.sent
        ≡ multicast Rpc.new_view (new_view_msg four vote_again zero_qc (get_genesis toy)) ∷ [])
    × ((c' : Context) (hs' : Cogsworth)
        → on_receive_new_view c' (new_view_msg four vote_again zero_qc (get_genesis toy)) hs'
          ≡ panic)
unfolding basic_hotstuff.Crypto.verify_timeout_vote_cert basic_hotstuff.Crypto.tv_to_bytes
    basic_hotstuff.Types.tc_to_bytes basic_hotstuff.Types.multi_to_bytes
    basic_hotstuff.Prelude.sort_by lookup basic_hotstuff.Crypto.verify
    basic_hotstuff.Convert.quorum_signature_from_proto quorum_signature_to_proto
    basic_hotstuff.Types.multi_len basic_hotstuff.Types.restore
    basic_hotstuff.Convert.signatures_to_proto insert basic_hotstuff.Crypto.verify_each
    basic_hotstuff.Crypto.verify_single basic_hotstuff.Convert.signature_from_proto
    basic_hotstuff.Encoding.set_bytes basic_hotstuff.Convert.signature_to_proto
    basic_hotstuff.Encoding.big_bytes basic_hotstuff.Encoding.put_be basic_hotstuff.Encoding.put_le
    basic_hotstuff.Prelude.insert_sorted basic_hotstuff.Types.append_signatures
    basic_hotstuff.Types.restore_from basic_hotstuff.Types.signature_to_bytes
    basic_hotstuff.Types.signers basic_hotstuff.Types.view_to_bytes lookup_list
    basic_hotstuff.Consensus.State.get_leader_id basic_hotstuff.NodeManager.get_leader_by_view
    basic_hotstuff.Consensus.State.new_hot_stuff basic_hotstuff.BlockChain.get
    basic_hotstuff.BlockChain.new_block_chain basic_hotstuff.Prelude.bytes_beq get_genesis
    basic_hotstuff.NodeManager.get_nodes
repeated_timeout_vote_example =
    repeated_timeout_vote four vote_again two_timeout_votes_in 2 (get_genesis toy)
      (other_nodes 1 four.node_manager.conf.replica) two_timeout_votes_in-Verified (some_tc, refl)
      (omega arith) (omega arith) (omega arith) refl refl refl

-- Replica 3 votes.
abbrev third_vote : Msg
third_vote = view_change_msg MessageType.timeout_vote 3

timeout_vote-quorum_example :
    (s : Cogsworth) × (qc : QuorumCert) × (count_timeout_vote four third_vote two_timeout_votes_in
      ≡ ok s)
    × (s.base.sent
        ≡ multicast Rpc.new_view (new_view_msg four third_vote qc (get_genesis toy)) ∷ [])
    × (flag 1 s.base.finished_view_change ≡ true)
    × ((id key : ℕ) (nm : NodeManager) (hs' : Cogsworth)
        → let c' : Context = record { node_manager = nm; crypto = peer toy_crypto id key } in
          on_receive_new_view c' (new_view_msg four third_vote qc (get_genesis toy)) hs'
          ≡ process_new_view c'
              (new_view_msg four third_vote qc (get_genesis toy))
              (quorum_cert_from_proto (some (quorum_cert_to_proto qc)))
              hs')
unfolding basic_hotstuff.Crypto.verify_timeout_vote_cert basic_hotstuff.Crypto.tv_to_bytes
    basic_hotstuff.Types.tc_to_bytes timeout_cert_from_proto
    basic_hotstuff.Convert.quorum_signature_from_proto timeout_cert_to_proto
    quorum_signature_to_proto basic_hotstuff.Types.multi_to_bytes basic_hotstuff.Prelude.sort_by
    basic_hotstuff.Types.restore basic_hotstuff.Convert.signatures_to_proto insert lookup
    basic_hotstuff.Convert.signature_from_proto basic_hotstuff.Crypto.verify
    basic_hotstuff.Types.multi_len basic_hotstuff.Crypto.verify_each
    basic_hotstuff.Convert.signature_to_proto basic_hotstuff.Crypto.verify_single
    basic_hotstuff.Encoding.big_bytes basic_hotstuff.Encoding.put_be basic_hotstuff.Encoding.put_le
    basic_hotstuff.Encoding.set_bytes basic_hotstuff.Prelude.insert_sorted
    basic_hotstuff.Types.append_signatures basic_hotstuff.Types.restore_from
    basic_hotstuff.Types.signature_to_bytes basic_hotstuff.Types.signers
    basic_hotstuff.Types.view_to_bytes lookup_list basic_hotstuff.Prelude.contains
    basic_hotstuff.Consensus.State.get_leader_id basic_hotstuff.NodeManager.get_leader_by_view
    basic_hotstuff.Consensus.State.new_hot_stuff basic_hotstuff.BlockChain.get
    basic_hotstuff.BlockChain.new_block_chain basic_hotstuff.Prelude.bytes_beq get_genesis
    basic_hotstuff.NodeManager.get_nodes
timeout_vote-quorum_example =
    timeout_vote-quorum four third_vote two_timeout_votes_in (get_genesis toy)
      (other_nodes 1 four.node_manager.conf.replica) refl
      (((refl, refl, tt), refl), (((refl, refl, tt), refl), (((refl, refl, tt), refl), tt))) refl
      (omega arith) (omega arith) (λ i. ground arith) refl refl refl

-- Replica 1 in view 2, which it does not lead, after the first view change, and as the leader of view 5.
abbrev in_view : ℕ → Cogsworth → Cogsworth
in_view v = set_base (λ b. record b { current_view = v })

abbrev changed_once : Cogsworth
changed_once =
    or_state one_wish_in
      (process_new_view four vote_again genesis_qc (in_view 2 (with_votes [] [])))

second_view_change_example :
    (changed_once.base.high_qc ≡ zero_qc)
    × (process_new_view four vote_again genesis_qc (in_view 5 changed_once) ≡ panic)
unfolding basic_hotstuff.Consensus.State.new_hot_stuff lookup_list lookup process_new_view
    basic_hotstuff.Consensus.State.get_leader_id basic_hotstuff.NodeManager.get_leader_by_view
    basic_hotstuff.BlockChain.get basic_hotstuff.BlockChain.new_block_chain insert
    basic_hotstuff.Prelude.bytes_beq get_genesis basic_hotstuff.Encoding.put_le
second_view_change_example =
    second_view_change four vote_again vote_again genesis_qc genesis_qc
      (in_view 2 (with_votes [] [])) changed_once (in_view 5 changed_once) refl (λ v. tt) refl refl
      refl refl
