-- ===== src/Examples/Certificates.antt =====
-- Votes and certificates for the proposal.
use basic_hotstuff.Prelude.{
  keys, lookup, contains, nat_eq, ℕ, List, [], ◌∷◌, ◌++◌, Option, none, some, Bytes, ◌≡◌, ◌≢◌, ◌<◌,
  ◌≤◌, refl, ok, Result, Bool, true, false, arith, length, err, ◌↔◌,
}
use basic_hotstuff.Types.{
  Multi, QuorumSignature, QuorumCert, TimeoutCert, new_partial_cert, multi_to_bytes,
}
use basic_hotstuff.Block.{Block, block_to_bytes, set_timestamp, get_genesis}
use basic_hotstuff.Crypto.{
  combine, create_partial_cert, verify_partial_cert, create_quorum_cert, verify_quorum_cert,
  cert_signatures, verify,
}
use basic_hotstuff.Crypto.Forging.{create_quorum_cert-verify_iff}
use basic_hotstuff.Crypto.Verifying.{AllSigned, verify_iff}
use basic_hotstuff.Crypto.Signing.{VotesFor}
use basic_hotstuff.Convert.{
  block_to_proto, block_from_proto, quorum_cert_to_proto, quorum_cert_from_proto,
  partial_cert_to_proto, partial_cert_from_proto, timeout_cert_to_proto, timeout_cert_from_proto,
}
use basic_hotstuff.Convert.Order.{multi_to_bytes_order}
use basic_hotstuff.Convert.Intersection.{verified_certs_intersect}
use basic_hotstuff.NodeManager.{cal_quorum_size}
use basic_hotstuff.NodeManager.Quorums.{shared}
use basic_hotstuff.Convert.RoundTrip.{block_round_trip}
use basic_hotstuff.Examples.{
  toy, toy_crypto, proposal, proposal_qc, signed_by, three_votes, hashes_differ, hash_of_length,
}

abbrev three_signatures : Multi
three_signatures = signed_by 0 ++ (signed_by 2 ++ signed_by 3)

-- The bytes of the proposal.
abbrev proposal_bytes : Bytes
proposal_bytes =
    hash_of_length 92
    ++ (1 ∷ 0 ∷ 0 ∷ 0 ∷ [])
    ++ (1 ∷ 0 ∷ 0 ∷ 0 ∷ 0 ∷ 0 ∷ 0 ∷ 0 ∷ [])
    ++ (5 ∷ [])
    ++ (0 ∷ 0 ∷ 0 ∷ 0 ∷ 0 ∷ 0 ∷ 0 ∷ 0 ∷ [])
    ++ hash_of_length 92
    ++ (7 ∷ 0 ∷ 0 ∷ 0 ∷ 0 ∷ 0 ∷ 0 ∷ 0 ∷ [])

create_quorum_cert-verify_iff_example :
    (verify_quorum_cert toy_crypto proposal proposal_qc ≡ ok true)
    ↔ VotesFor toy_crypto proposal three_votes
unfolding block_to_bytes basic_hotstuff.Types.qc_to_bytes basic_hotstuff.Encoding.put_le
    create_quorum_cert basic_hotstuff.Prelude.bytes_beq get_genesis combine
    basic_hotstuff.Crypto.combine_into basic_hotstuff.Crypto.add_all contains
    basic_hotstuff.Prelude.insert
create_quorum_cert-verify_iff_example =
    create_quorum_cert-verify_iff toy_crypto proposal proposal_bytes three_votes proposal_qc refl
      (
        (signed_by 0, refl, omega arith),
        ((signed_by 2, refl, omega arith), ((signed_by 3, refl, omega arith), tt)),
      )
      (omega arith) (unfold get_genesis in hashes_differ) refl

block_round_trip_example : block_from_proto toy 99 (some (block_to_proto proposal)) ≡ ok proposal
unfolding set_timestamp basic_hotstuff.Types.qc_to_bytes basic_hotstuff.Encoding.put_le
block_round_trip_example = block_round_trip toy 99 proposal refl (tt, refl) refl

abbrev two_timeouts : TimeoutCert
two_timeouts = record { signature = some (signed_by 0 ++ signed_by 3); view = 4 }

-- Another block of the same view, and a certificate for it.
abbrev rival : Block
rival = record proposal { hash = hash_of_length 94; cmd = 6 ∷ 6 ∷ [] }

abbrev rival_qc : QuorumCert
rival_qc = record {
  signature = some (signed_by 1 ++ (signed_by 2 ++ signed_by 3));
  view = 1;
  hash = hash_of_length 94;
}

rival_differs : hash_of_length 94 ≢ hash_of_length 92
rival_differs e = ground arith

verified_certs_intersect_example :
    (m : Multi) × (m' : Multi) × ((quorum_cert_from_proto
        (some (quorum_cert_to_proto proposal_qc))).signature
      ≡ some m)
    × ((quorum_cert_from_proto (some (quorum_cert_to_proto rival_qc))).signature ≡ some m')
    × (1 < shared 4 (keys m) (keys m'))
unfolding cal_quorum_size verify_quorum_cert basic_hotstuff.Prelude.bytes_beq quorum_cert_from_proto
    basic_hotstuff.Convert.copy_into quorum_cert_to_proto get_genesis basic_hotstuff.Encoding.put_le
    basic_hotstuff.Convert.quorum_signature_from_proto
    basic_hotstuff.Convert.quorum_signature_to_proto basic_hotstuff.Types.multi_len
    basic_hotstuff.Types.restore basic_hotstuff.Convert.signatures_to_proto
    basic_hotstuff.Prelude.insert basic_hotstuff.Convert.signature_from_proto block_to_bytes
    basic_hotstuff.Types.qc_to_bytes basic_hotstuff.Crypto.verify
    basic_hotstuff.Convert.signature_to_proto basic_hotstuff.Crypto.verify_each
    basic_hotstuff.Crypto.verify_single basic_hotstuff.Encoding.big_bytes
    basic_hotstuff.Encoding.set_bytes basic_hotstuff.Prelude.lookup
    basic_hotstuff.Prelude.insert_sorted basic_hotstuff.Prelude.sort_by
    basic_hotstuff.Types.append_signatures basic_hotstuff.Types.multi_to_bytes
    basic_hotstuff.Types.restore_from basic_hotstuff.Types.signature_to_bytes
    basic_hotstuff.Types.signers basic_hotstuff.Types.view_to_bytes
verified_certs_intersect_example =
    verified_certs_intersect toy_crypto (record { f = 1; quorum = 3; timeout_quorum = 2 }) proposal
      rival (quorum_cert_to_proto proposal_qc) (quorum_cert_to_proto rival_qc) refl refl refl refl
      refl (unfold get_genesis in hashes_differ) (unfold get_genesis in rival_differs)

verify_iff_example : (verify toy_crypto (some (signed_by 2)) (5 ∷ []) ≡ ok true) ↔ (
    (m : Multi) × (some (signed_by 2) ≡ some m)
    × (0 < length m)
    × AllSigned toy_crypto (hash_of_length 1) m)
verify_iff_example = verify_iff toy_crypto (some (signed_by 2)) (5 ∷ [])

multi_to_bytes_order_example :
    multi_to_bytes (signed_by 0 ++ signed_by 2) ≡ multi_to_bytes (signed_by 2 ++ signed_by 0)
unfolding lookup contains
multi_to_bytes_order_example =
    multi_to_bytes_order (signed_by 0 ++ signed_by 2) (signed_by 2 ++ signed_by 0)
      (refl, refl, (refl, refl, tt)) (refl, refl, (refl, refl, tt)) (λ i. ground arith)
