-- ===== src/Examples/Views.antt =====
-- The certificates of a view change.
use basic_hotstuff.Prelude.{
  ℕ, List, [], ◌∷◌, Option, none, some, ◌≡◌, ◌≤◌, refl, arith, All, ◌⊎◌, lookup_list, nat_eq,
}
use basic_hotstuff.Types.{zero_qc, QuorumCert}
use basic_hotstuff.Consensus.State.{HotStuff}
use basic_hotstuff.Consensus.Basic.{process_new_view, on_receive_new_view}
use basic_hotstuff.Proto.{Msg, MessageType}
use basic_hotstuff.Convert.{quorum_cert_to_proto, quorum_cert_from_proto}
use basic_hotstuff.Consensus.Basic.ViewChange.{process_new_view-zero, unverified_high_qc}
use basic_hotstuff.Examples.{start, proposal_qc, genesis_qc, four, msg_of}

-- A replica of view 2 that three certificates arrived at.
abbrev entering : HotStuff
entering = record start {
  current_view = 2;
  high_qc = genesis_qc;
  high_qc_tmp = (2, zero_qc ∷ proposal_qc ∷ zero_qc ∷ []) ∷ [];
}

-- A replica of view 2 that no certificate above view 0 arrived at.
abbrev entering_first : HotStuff
entering_first = record entering { high_qc_tmp = (2, zero_qc ∷ genesis_qc ∷ zero_qc ∷ []) ∷ [] }

process_new_view-zero_example : (process_new_view entering_first).high_qc ≡ zero_qc
unfolding lookup_list basic_hotstuff.Consensus.State.new_hot_stuff basic_hotstuff.Prelude.lookup
process_new_view-zero_example =
    process_new_view-zero entering_first refl (omega arith, (omega arith, (omega arith, tt)))

-- A certificate of view 9 without a signature, at a replica that two certificates arrived at.
abbrev unsigned_qc : QuorumCert
unsigned_qc = record zero_qc { view = 9 }

abbrev new_view_msg : Msg
new_view_msg = msg_of MessageType.new_view none (some (quorum_cert_to_proto unsigned_qc))

abbrev leaving : HotStuff
leaving = record start { high_qc_tmp = (1, zero_qc ∷ genesis_qc ∷ []) ∷ [] }

unverified_high_qc_example :
    ((on_receive_new_view four new_view_msg leaving).high_qc
      ≡ quorum_cert_from_proto (some (quorum_cert_to_proto unsigned_qc)))
    × ((on_receive_new_view four new_view_msg leaving).ready ≡ 1)
unfolding basic_hotstuff.Prelude.flag basic_hotstuff.Prelude.lookup
    basic_hotstuff.Consensus.State.new_hot_stuff lookup_list quorum_cert_from_proto
    quorum_cert_to_proto
unverified_high_qc_example =
    unverified_high_qc four new_view_msg (quorum_cert_to_proto unsigned_qc) leaving refl refl
      (omega arith) (omega arith) (omega arith, (omega arith, tt))
