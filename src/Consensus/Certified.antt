-- ===== src/Consensus/Certified.antt =====
-- What the certificates and the votes that a replica keeps are worth, whatever messages it gets.
mod Helpers
mod Counting
mod Phases
mod Deciding
mod Wishes
pub mod Run
mod WishesLoop
pub mod WishesRun
use basic_hotstuff.Prelude.{
  ℕ, ◌≤◌, ◌<◌, ◌≡◌, ◌≢◌, ◌⊎◌, refl, List, [], ◌∷◌, none, some, true, ok, Bytes, Map, arith, length,
  All, EachValue, contains, nat_eq, Option-cases, eq→bytes_beq, ◌>>=◌, bytes_eq, bytes_beq,
  bytes_beq_iff, Bool-cases, inl, inr, >>=-eq-ok, get_elem?, Result,
}
use basic_hotstuff.Types.{
  Hash, Signature, Multi, QuorumSignature, QuorumCert, PartialCert, zero_qc, new_partial_cert,
}
use basic_hotstuff.Primitives.{KeyPair}
use basic_hotstuff.Block.{Block, block_to_bytes}
use basic_hotstuff.Proto.{PartialCertPb}
use basic_hotstuff.Crypto.{
  Crypto, sign, verify, verify_partial_cert, create_partial_cert, create_quorum_cert, genesis_hash,
  cert_signatures, verify_quorum_cert,
}
use basic_hotstuff.Crypto.Combining.{
  Each, Some, Each-combine_into, entries-Some, combine-inv, length-combine,
}
use basic_hotstuff.Crypto.Verifying.{
  IsSigned, AllSigned, verify-AllSigned, verify_quorum_cert-quorum,
}
use basic_hotstuff.Crypto.Signing.{
  create_partial_cert-verify, create_quorum_cert-inv, length-cert_signatures,
}
use basic_hotstuff.Convert.{partial_cert_from_proto, quorum_signature_from_proto}
use basic_hotstuff.Convert.RoundTrip.{IsKeyed, IsKeyedSignature}
use basic_hotstuff.Convert.Keyed.{
  combine-IsKeyedSignature, quorum_signature_from_proto-IsKeyedSignature,
}
use basic_hotstuff.Consensus.State.{Context, HotStuff}

-- A signature that its signer's key accepts for the bytes of some block.
abbrev pub Endorses : Crypto → Signature → Type 0
Endorses c sig =
    (b : Block) × (bytes : Bytes) × (block_to_bytes b ≡ ok bytes)
    × IsSigned c (c.prims.sha256 bytes) sig

-- A vote holds such signatures, each under its own signer, and at least one.
abbrev pub IsVote : Crypto → PartialCert → Type 0
IsVote c pc = Some (Endorses c) pc.signature × IsKeyedSignature pc.signature

-- A certificate is the zero value, or names the genesis hash, or holds such signatures of at least
-- `quorum` different ids.
abbrev pub IsCertified : Crypto → ℕ → QuorumCert → Type 0
IsCertified c quorum qc =
    (qc ≡ zero_qc)
    ⊎ ((qc.hash ≡ genesis_hash c)
        ⊎ ((m : Multi) × (qc.signature ≡ some m)
            × (quorum ≤ length m)
            × IsKeyed m
            × Each (Endorses c) m))

abbrev pub Votes : Type 0
Votes = Map Hash (List PartialCert)

pub record Holds (c : Context) (prepare_qc pre_commit_qc commit_qc : QuorumCert)
    (prepare_votes pre_commit_votes commit_votes : Votes) : Type 0 where
  pub prepare : IsCertified c.crypto c.node_manager.quorum_size prepare_qc
  pub pre_commit : IsCertified c.crypto c.node_manager.quorum_size pre_commit_qc
  pub commit : IsCertified c.crypto c.node_manager.quorum_size commit_qc
  pub prepares : EachValue (λ (h : Hash). IsVote c.crypto) prepare_votes
  pub pre_commits : EachValue (λ (h : Hash). IsVote c.crypto) pre_commit_votes
  pub commits : EachValue (λ (h : Hash). IsVote c.crypto) commit_votes

-- The three certificates and the three maps of votes of a replica.
abbrev pub Certified : Context → HotStuff → Type 0
Certified c hs =
    Holds c hs.prepare_qc hs.pre_commit_qc hs.commit_qc hs.verified_prepare_votes
      hs.verified_pre_commit_votes hs.verified_commit_votes

-- The replica's own key pair is the configured one, and its two quorum sizes agree.
pub record IsConfigured (c : Context) : Type 0 where
  pub public_key : ℕ
  pub pair : KeyPair c.crypto.prims c.crypto.private_key public_key
  pub listed : get_elem? c.crypto.public_keys c.crypto.conf_id ≡ some public_key
  pub sizes : c.crypto.quorum_size ≡ c.node_manager.quorum_size

Each-Endorses :
    (c : Crypto) (b : Block) (bytes : Bytes) (m : Multi)
    → block_to_bytes b ≡ ok bytes
    → AllSigned c (c.prims.sha256 bytes) m
    → Each (Endorses c) m
Each-Endorses c b bytes [] e all = tt
Each-Endorses c b bytes ((k, s) ∷ m) e all =
    ((b, bytes, e, all.0), Each-Endorses c b bytes m e all.1)

verified-Some :
    (c : Crypto) (b : Block) (pc : PartialCert)
    → verify_partial_cert c b pc ≡ ok true
    → Some (Endorses c) pc.signature
unfolding verify_partial_cert
verified-Some c b pc h =
    let (bytes, eb, v) = >>=-eq-ok (block_to_bytes b) (λ bytes. verify c pc.signature bytes) h in
    let (m, em, pos, all) = verify-AllSigned c pc.signature bytes v in
    (m, em, pos, Each-Endorses c b bytes m eb all)

new_partial_cert-signature :
    (sig : QuorumSignature) (h : Hash) (pc : PartialCert)
    → new_partial_cert sig h ≡ ok pc
    → pc.signature ≡ sig
unfolding new_partial_cert
new_partial_cert-signature none h pc e = cc
new_partial_cert-signature (some m) h pc e = ground arith

-- A vote that was read off the wire and verified.
pub read-IsVote :
    (c : Crypto) (pb : PartialCertPb) (b : Block) (pc : PartialCert)
    → partial_cert_from_proto pb ≡ ok pc
    → verify_partial_cert c b pc ≡ ok true
    → IsVote c pc
unfolding partial_cert_from_proto
read-IsVote c pb b pc e v =
    let same = new_partial_cert-signature (quorum_signature_from_proto pb.sig) _ pc e in
    (verified-Some c b pc v, rw same (quorum_signature_from_proto-IsKeyedSignature pb.sig))

pub sign-IsKeyed :
    (c : Crypto) (nonce : ℕ) (bytes : Bytes) (sig : QuorumSignature)
    → sign c nonce bytes ≡ ok sig
    → IsKeyedSignature sig
unfolding sign contains
sign-IsKeyed c nonce bytes sig h =
    elim (Option-cases (c.prims.ecdsa_sign c.private_key nonce (c.prims.sha256 bytes))) [
      | inl e ↦ absurd (ground arith)
      | inr ((r, s), e) ↦
          let made : Multi = (c.conf_id, record { r = r; s = s; signer = c.conf_id }) ∷ [] in
          let eq : sig ≡ some made = ground arith in rw eq (refl, refl, tt)
    ]

-- A vote of this replica.
pub own-IsVote :
    (c : Context) (nonce : ℕ) (b : Block) (pc : PartialCert)
    → IsConfigured c
    → create_partial_cert c.crypto nonce b ≡ ok pc
    → IsVote c.crypto pc
unfolding create_partial_cert
own-IsVote c nonce b pc own h =
    let (bytes, eb, h') =
      >>=-eq-ok (block_to_bytes b)
        (λ bytes. sign c.crypto nonce bytes >>= λ sig. new_partial_cert sig b.hash) h in
    let (sig, es, h'') =
      >>=-eq-ok (sign c.crypto nonce bytes) (λ sig. new_partial_cert sig b.hash) h' in
    let same = new_partial_cert-signature sig b.hash pc h'' in
    let (valid, _) =
      create_partial_cert-verify c.crypto nonce own.public_key b pc own.pair own.listed h in
    (verified-Some c.crypto b pc valid, rw same (sign-IsKeyed c.crypto nonce bytes sig es))

votes-Some :
    (c : Crypto) (votes : List PartialCert)
    → All (IsVote c) votes
    → All (Some (Endorses c)) (cert_signatures votes) × All IsKeyedSignature (cert_signatures votes)
votes-Some c [] all = (tt, tt)
votes-Some c (pc ∷ votes) all =
    let (good, keyed) = votes-Some c votes all.1 in ((all.0.0, good), (all.0.1, keyed))

-- A certificate that is made of a quorum of votes.
pub made-IsCertified :
    (c : Crypto) (quorum : ℕ) (b : Block) (votes : List PartialCert) (qc : QuorumCert)
    → All (IsVote c) votes
    → quorum ≤ length votes
    → create_quorum_cert c b votes ≡ ok qc
    → IsCertified c quorum qc
unfolding create_quorum_cert
made-IsCertified c quorum b votes qc all enough h =
    elim (Bool-cases (bytes_beq b.hash (genesis_hash c))) [
      | inl e ↦ inr (inl (ground arith))
      | inr e ↦
          let differs : b.hash ≢ genesis_hash c = λ same. ground (arith, eq→bytes_beq _ _ same) in
          let (comb, view, hash) = create_quorum_cert-inv c b votes {qc = qc} h differs in
          let sigs = cert_signatures votes in
          let (good, keyed) = votes-Some c votes all in
          let (t, et, went, two) = combine-inv sigs comb in
          let n = length-combine sigs t (rw (comb, et)) in
          let many = entries-Some (Endorses c) sigs good in
          let same = length-cert_signatures votes in
          let alone : IsKeyedSignature qc.signature =
            combine-IsKeyedSignature sigs {sig = qc.signature} comb keyed in
          inr (
            inr (
              t,
              et,
              omega arith,
              rw et at alone,
              Each-combine_into (Endorses c) [] sigs {t = t} went tt good,
            ))
    ]

-- A certificate off the wire that verifies.
pub verified-IsCertified :
    (c : Crypto) (b : Block) (qc : QuorumCert)
    → IsKeyedSignature qc.signature
    → verify_quorum_cert c b qc ≡ ok true
    → IsCertified c c.quorum_size qc
verified-IsCertified c b qc keyed h = elim (Bool-cases (bytes_beq qc.hash (genesis_hash c))) [
  | inl e ↦ inr (inl ((bytes_beq_iff _ _).0 e))
  | inr e ↦
      let differs : qc.hash ≢ genesis_hash c = λ same. ground (arith, eq→bytes_beq _ _ same) in
      let (m, bytes, em, eb, size, all) = verify_quorum_cert-quorum c b qc h differs in
      inr (inr (m, em, size, rw em at keyed, Each-Endorses c b bytes m eb all))
]
