-- ===== src/Convert.antt =====
-- proto/basichotstuffpb/convert.go: between the protocol messages and the program's own types.
pub mod RoundTrip
pub mod Keyed
pub mod Order
pub mod Intersection
use basic_hotstuff.Prelude.{
  ℕ, zero, suc, List, [], ◌∷◌, ◌++◌, map, Option, none, some, Bytes, Result, ok, panic, ◌>>=◌,
  deref, length,
}
use basic_hotstuff.Encoding.{big_bytes, set_bytes}
use basic_hotstuff.Types.{
  Hash, Signature, Multi, QuorumSignature, PartialCert, QuorumCert, TimeoutCert, new_partial_cert,
  restore,
}
use basic_hotstuff.Primitives.{Primitives}
use basic_hotstuff.Block.{Block, new_block, set_timestamp}
use basic_hotstuff.Proto.{
  EcdsaSignaturePb, QuorumSignaturePb, QuorumCertPb, PartialCertPb, TimeoutCertPb, BlockPb,
}

-- `copy(h[:], b)` into a zeroed array of the given length: shorter slices are padded, longer cut.
unfoldable pub copy_into : ℕ → Bytes → Bytes
copy_into zero b = []
copy_into (suc n) [] = 0 ∷ copy_into n []
copy_into (suc n) (x ∷ b) = x ∷ copy_into n b

unfoldable pub signature_from_proto : EcdsaSignaturePb → Signature
signature_from_proto sig = record { r = set_bytes sig.r; s = set_bytes sig.s; signer = sig.signer }

-- The oneof of a signature message that may be missing.
abbrev pub get_ecdsa_sigs : Option QuorumSignaturePb → Option (List EcdsaSignaturePb)
get_ecdsa_sigs none = none
get_ecdsa_sigs (some sig) = sig.ecdsa_sigs

abbrev pub restore_sigs : Option (List EcdsaSignaturePb) → QuorumSignature
restore_sigs none = none
restore_sigs (some sigs) = some (restore (map signature_from_proto sigs))

unfoldable pub quorum_signature_from_proto : Option QuorumSignaturePb → QuorumSignature
quorum_signature_from_proto sig = restore_sigs (get_ecdsa_sigs sig)

-- The zero value that the getters read of a missing certificate.
abbrev pub empty_qc_pb : QuorumCertPb
empty_qc_pb = record { sig = none; view = 0; hash = [] }

abbrev pub or_empty_qc : Option QuorumCertPb → QuorumCertPb
or_empty_qc none = empty_qc_pb
or_empty_qc (some qc) = qc

unfoldable pub quorum_cert_from_proto : Option QuorumCertPb → QuorumCert
quorum_cert_from_proto m = record {
  signature = quorum_signature_from_proto qc.sig;
  view = qc.view;
  hash = copy_into 32 qc.hash;
}
  where
    qc : QuorumCertPb
    qc = or_empty_qc m

unfoldable pub signature_to_proto : Signature → EcdsaSignaturePb
signature_to_proto s = record { signer = s.signer; r = big_bytes s.r; s = big_bytes s.s }

unfoldable pub signatures_to_proto : Multi → List EcdsaSignaturePb
unfolding signature_to_proto
signatures_to_proto [] = []
signatures_to_proto ((k, s) ∷ m) = signature_to_proto s ∷ signatures_to_proto m

unfoldable pub quorum_signature_to_proto : QuorumSignature → QuorumSignaturePb
quorum_signature_to_proto none = record { ecdsa_sigs = none }
quorum_signature_to_proto (some m) = record { ecdsa_sigs = some (signatures_to_proto m) }

unfoldable pub quorum_cert_to_proto : QuorumCert → QuorumCertPb
quorum_cert_to_proto qc = record {
  sig = some (quorum_signature_to_proto qc.signature);
  view = qc.view;
  hash = qc.hash;
}

unfoldable pub block_to_proto : Block → BlockPb
block_to_proto b = record {
  parent = b.parent;
  hash = b.hash;
  view = b.view;
  command = b.cmd;
  qc = some (quorum_cert_to_proto b.cert);
  proposer = b.proposer;
  timestamp = some b.ts;
}

-- `Timestamp.AsTime` of a missing timestamp is the epoch.
abbrev pub as_time : Option ℕ → ℕ
as_time none = 0
as_time (some ts) = ts

-- `BlockFromProto`, at the time `now`. Reading the Timestamp field of a nil block panics.
unfoldable pub block_from_proto : Primitives → ℕ → Option BlockPb → Result Block
block_from_proto p now m = do
  pb ← deref m
  b ←
      new_block p now (copy_into 32 pb.parent) (quorum_cert_from_proto pb.qc) pb.command pb.view
        pb.proposer
  set_timestamp p b (as_time pb.timestamp)

unfoldable pub partial_cert_to_proto : PartialCert → PartialCertPb
partial_cert_to_proto pc = record {
  sig = some (quorum_signature_to_proto pc.signature);
  hash = pc.block_hash;
}

unfoldable pub partial_cert_from_proto : PartialCertPb → Result PartialCert
partial_cert_from_proto pb =
    new_partial_cert (quorum_signature_from_proto pb.sig) (copy_into 32 pb.hash)

abbrev pub empty_tc_pb : TimeoutCertPb
empty_tc_pb = record { sig = none; view = 0 }

abbrev pub or_empty_tc : Option TimeoutCertPb → TimeoutCertPb
or_empty_tc none = empty_tc_pb
or_empty_tc (some tc) = tc

unfoldable pub timeout_cert_from_proto : Option TimeoutCertPb → TimeoutCert
timeout_cert_from_proto m = record {
  signature = quorum_signature_from_proto tc.sig;
  view = tc.view;
}
  where
    tc : TimeoutCertPb
    tc = or_empty_tc m

unfoldable pub timeout_cert_to_proto : TimeoutCert → TimeoutCertPb
timeout_cert_to_proto tc = record {
  sig = some (quorum_signature_to_proto tc.signature);
  view = tc.view;
}
