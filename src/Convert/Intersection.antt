-- ===== src/Convert/Intersection.antt =====
-- Certificates that arrive in messages and verify have signers in common.
use basic_hotstuff.Prelude.{
  ℕ, zero, suc, ◌%◌, ◌≤◌, ◌<◌, ◌≡◌, ◌≢◌, refl, List, [], ◌∷◌, some, true, false, Bytes, ok, arith,
  All, length, get_elem?, keys, contains, nat_beq, nat_eq, Bool-cases, inl, inr,
}
use basic_hotstuff.Types.{Multi}
use basic_hotstuff.Block.{Block}
use basic_hotstuff.Proto.{QuorumCertPb}
use basic_hotstuff.Crypto.{Crypto, genesis_hash, verify_quorum_cert}
use basic_hotstuff.Crypto.Verifying.{AllSigned, verify_quorum_cert-quorum}
use basic_hotstuff.Convert.{quorum_cert_from_proto}
use basic_hotstuff.Convert.RoundTrip.{IsKeyed, IsKeyedSignature}
use basic_hotstuff.Convert.Order.{count_missing}
use basic_hotstuff.Convert.Keyed.{quorum_signature_from_proto-IsKeyedSignature}
use basic_hotstuff.NodeManager.{QuorumSizes, cal_quorum_size}
use basic_hotstuff.NodeManager.Quorums.{IsQuorum, count, shared, quorums_intersect}

-- The signatures that a certificate from a message holds stand under their distinct signers.
pub quorum_cert_from_proto-IsKeyed :
    (pb : QuorumCertPb) → IsKeyedSignature (quorum_cert_from_proto (some pb)).signature
unfolding quorum_cert_from_proto
quorum_cert_from_proto-IsKeyed pb = quorum_signature_from_proto-IsKeyedSignature pb.sig

get_elem?-bound :
    {A : Type 0} (xs : List A) (i : ℕ) (x : A) → get_elem? xs i ≡ some x → i < length xs
get_elem?-bound [] i x h = cc
get_elem?-bound (y ∷ ys) zero x h = omega arith
get_elem?-bound (y ∷ ys) (suc i) x h = omega (arith, get_elem?-bound ys i x h)

AllSigned-bounded :
    (c : Crypto) (digest : Bytes) (m : Multi)
    → IsKeyed m
    → AllSigned c digest m
    → All (λ i. i < length c.public_keys) (keys m)
AllSigned-bounded c digest [] keyed all = tt
AllSigned-bounded c digest ((k, s) ∷ m) keyed all =
    let (pk, found, _) = all.0 in
    let low : s.signer < length c.public_keys = get_elem?-bound c.public_keys s.signer pk found in
    (ground arith, AllSigned-bounded c digest m keyed.2 all.1)

IsKeyed-count : (i : ℕ) (m : Multi) → IsKeyed m → count i (keys m) ≤ 1
IsKeyed-count i [] h = omega arith
IsKeyed-count i ((k, s) ∷ m) h = elim (Bool-cases (nat_beq k i)) [
  | inl e ↦
      let same : k ≡ i = ground arith in
      let gone : contains i m ≡ false = rw (← same) h.1 in ground (arith, count_missing i m gone)
  | inr e ↦ ground (arith, IsKeyed-count i m h.2)
]

length-keys : (m : Multi) → length (keys m) ≡ length m
length-keys [] = refl
length-keys ((k, s) ∷ m) = omega (arith, length-keys m)

-- The signers of a certificate from a message that verifies, and does not name the genesis hash,
-- are a quorum of the configured replicas.
pub verify_quorum_cert-IsQuorum :
    (c : Crypto) (b : Block) (pb : QuorumCertPb)
    → verify_quorum_cert c b (quorum_cert_from_proto (some pb)) ≡ ok true
    → (quorum_cert_from_proto (some pb)).hash ≢ genesis_hash c
    → (m : Multi) × ((quorum_cert_from_proto (some pb)).signature ≡ some m)
      × IsQuorum (length c.public_keys) c.quorum_size (keys m)
verify_quorum_cert-IsQuorum c b pb valid ne =
    let (m, bytes, em, eb, size, all) =
      verify_quorum_cert-quorum c b (quorum_cert_from_proto (some pb)) valid ne in
    let keyed : IsKeyed m = rw em at (quorum_cert_from_proto-IsKeyed pb) in
    (
      m,
      em,
      record {
        bounded = AllSigned-bounded c (c.prims.sha256 bytes) m keyed all;
        distinct = λ i. IsKeyed-count i m keyed;
        enough = omega (arith, length-keys m);
      },
    )

-- Where the number of configured replicas has the form 3k + 1 and the quorum size is the one that
-- `CalQuorumSize` gives for it, any two certificates from messages that verify for blocks, and do not
-- name the genesis hash, have more than F signers in common, whatever the blocks are.
pub verified_certs_intersect :
    (c : Crypto) (sizes : QuorumSizes) (b b' : Block) (pb pb' : QuorumCertPb)
    → cal_quorum_size (length c.public_keys) ≡ ok sizes
    → length c.public_keys % 3 ≡ 1
    → c.quorum_size ≡ sizes.quorum
    → verify_quorum_cert c b (quorum_cert_from_proto (some pb)) ≡ ok true
    → verify_quorum_cert c b' (quorum_cert_from_proto (some pb')) ≡ ok true
    → (quorum_cert_from_proto (some pb)).hash ≢ genesis_hash c
    → (quorum_cert_from_proto (some pb')).hash ≢ genesis_hash c
    → (m : Multi) × (m' : Multi) × ((quorum_cert_from_proto (some pb)).signature ≡ some m)
      × ((quorum_cert_from_proto (some pb')).signature ≡ some m')
      × (sizes.f < shared (length c.public_keys) (keys m) (keys m'))
verified_certs_intersect c sizes b b' pb pb' calc form size valid valid' ne ne' =
    let (m, em, q) = verify_quorum_cert-IsQuorum c b pb valid ne in
    let (m', em', q') = verify_quorum_cert-IsQuorum c b' pb' valid' ne' in
    (
      m,
      m',
      em,
      em',
      quorums_intersect (length c.public_keys) sizes (keys m) (keys m') calc form (rw size at q)
          (rw size at q'),
    )
