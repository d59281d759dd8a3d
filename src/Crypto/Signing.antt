-- ===== src/Crypto/Signing.antt =====
-- Signatures and certificates that this program makes pass its own checks.
use basic_hotstuff.Prelude.{
  ℕ, ◌≤◌, ◌<◌, ◌≡◌, ◌≢◌, refl, List, [], ◌∷◌, none, some, ok, ◌>>=◌, >>=-eq-ok, nat_eq, arith,
  length, Bool-cases, Option-cases, inl, inr, true, Bytes, bytes_beq, bytes_beq_iff, get_elem?, All,
}
use basic_hotstuff.Types.{
  Multi, QuorumSignature, QuorumCert, PartialCert, new_partial_cert, multi_len,
}
use basic_hotstuff.Primitives.{KeyPair}
use basic_hotstuff.Block.{Block, block_to_bytes}
use basic_hotstuff.Crypto.{
  Crypto, sign, combine_into, combine, verify, verify_quorum_cert, verify_partial_cert,
  create_partial_cert, create_quorum_cert, genesis_hash, cert_signatures,
}
use basic_hotstuff.Crypto.Combining.{
  Some, Each-combine_into, entries-Some, entries, combine-inv, length-combine, occurs_in,
  combine-occurs,
}
use basic_hotstuff.Crypto.Verifying.{IsSigned, AllSigned, verify-AllSigned, AllSigned-verify}

pub sign-verify :
    (c : Crypto) (nonce pk : ℕ) (message : Bytes) {sig : QuorumSignature}
    → KeyPair c.prims c.private_key pk
    → get_elem? c.public_keys c.conf_id ≡ some pk
    → sign c nonce message ≡ ok sig
    → verify c sig message ≡ ok true
unfolding sign
sign-verify c nonce pk message {sig} pair key h =
    elim (Option-cases (c.prims.ecdsa_sign c.private_key nonce (c.prims.sha256 message))) [
      | inl e ↦ absurd (ground arith)
      | inr ((r, s), e) ↦
          let made : Multi = (c.conf_id, record { r = r; s = s; signer = c.conf_id }) ∷ [] in
          let eq : sig ≡ some made = ground arith in
          rw eq (
            AllSigned-verify c made message (omega arith)
              ((pk, key, pair nonce (c.prims.sha256 message) r s e), tt))
    ]

-- The vote that a replica makes for a block has its hash and verifies for it, where the replica's
-- configured public key belongs to its private key.
pub create_partial_cert-verify :
    (c : Crypto) (nonce pk : ℕ) (b : Block) (pc : PartialCert)
    → KeyPair c.prims c.private_key pk
    → get_elem? c.public_keys c.conf_id ≡ some pk
    → create_partial_cert c nonce b ≡ ok pc
    → (verify_partial_cert c b pc ≡ ok true) × (pc.block_hash ≡ b.hash)
unfolding create_partial_cert verify_partial_cert new_partial_cert
create_partial_cert-verify c nonce pk b pc pair key h =
    let (bytes, eb, h') =
      >>=-eq-ok (block_to_bytes b)
        (λ bytes. sign c nonce bytes >>= λ sig. new_partial_cert sig b.hash) h in
    let (sig, es, h'') = >>=-eq-ok (sign c nonce bytes) (λ sig. new_partial_cert sig b.hash) h' in
    let v = sign-verify c nonce pk bytes pair key es in go bytes sig eb h'' v
  where
    go :
        (bytes : Bytes) (sig : QuorumSignature)
        → block_to_bytes b ≡ ok bytes
        → new_partial_cert sig b.hash ≡ ok pc
        → verify c sig bytes ≡ ok true
        → ((block_to_bytes b >>= λ bytes. verify c pc.signature bytes) ≡ ok true)
          × (pc.block_hash ≡ b.hash)
    go bytes none eb h v = cc
    go bytes (some m) eb h v = ground arith

-- Every signature is a set of good signatures with at least one entry.
abbrev pub Good : Crypto → Bytes → QuorumSignature → Type 0
Good c message sig = verify c sig message ≡ ok true

Good-Some :
    (c : Crypto) (message : Bytes) (sigs : List QuorumSignature)
    → All (Good c message) sigs
    → All (Some (IsSigned c (c.prims.sha256 message))) sigs
Good-Some c message [] all = tt
Good-Some c message (sig ∷ sigs) all =
    (verify-AllSigned c sig message all.0, Good-Some c message sigs all.1)

pub AllSigned-combine_into :
    (c : Crypto) (message : Bytes) (sigs : List QuorumSignature) {t : Multi}
    → combine_into [] sigs ≡ ok (some t)
    → All (Good c message) sigs
    → AllSigned c (c.prims.sha256 message) t
AllSigned-combine_into c message sigs {t} h all =
    Each-combine_into (IsSigned c (c.prims.sha256 message)) [] sigs {t = t} h tt
      (Good-Some c message sigs all)

pub entries-Good :
    (c : Crypto) (message : Bytes) (sigs : List QuorumSignature)
    → All (Good c message) sigs
    → length sigs ≤ entries sigs
entries-Good c message sigs all =
    entries-Some (IsSigned c (c.prims.sha256 message)) sigs (Good-Some c message sigs all)

abbrev pub VotesFor : Crypto → Block → List PartialCert → Type 0
VotesFor c b certs = All (λ pc. verify_partial_cert c b pc ≡ ok true) certs

votes-Good :
    (c : Crypto) (b : Block) (bytes : Bytes) (certs : List PartialCert)
    → block_to_bytes b ≡ ok bytes
    → VotesFor c b certs
    → All (Good c bytes) (cert_signatures certs)
unfolding verify_partial_cert
votes-Good c b bytes [] e all = tt
votes-Good c b bytes (pc ∷ certs) e all = (ground arith, votes-Good c b bytes certs e all.1)

pub length-cert_signatures :
    (certs : List PartialCert) → length (cert_signatures certs) ≡ length certs
length-cert_signatures [] = refl
length-cert_signatures (pc ∷ certs) = omega (arith, length-cert_signatures certs)

pub create_quorum_cert-inv :
    (c : Crypto) (b : Block) (certs : List PartialCert) {qc : QuorumCert}
    → create_quorum_cert c b certs ≡ ok qc
    → b.hash ≢ genesis_hash c
    → (combine (cert_signatures certs) ≡ ok qc.signature) × (qc.view ≡ b.view) × (qc.hash ≡ b.hash)
unfolding create_quorum_cert
create_quorum_cert-inv c b certs {qc} h ne = elim (Bool-cases (bytes_beq b.hash (genesis_hash c))) [
  | inl e ↦ absurd (ne ((bytes_beq_iff _ _).0 e))
  | inr e ↦ ground arith
]

-- A certificate that `CreateQuorumCert` makes of at least a quorum of votes, each of which verifies
-- for a block other than genesis, verifies for that block and has its view and hash.
pub create_quorum_cert-verify :
    (c : Crypto) (b : Block) (bytes : Bytes) (certs : List PartialCert) (qc : QuorumCert)
    → block_to_bytes b ≡ ok bytes
    → VotesFor c b certs
    → c.quorum_size ≤ length certs
    → b.hash ≢ genesis_hash c
    → create_quorum_cert c b certs ≡ ok qc
    → (verify_quorum_cert c b qc ≡ ok true) × (qc.view ≡ b.view) × (qc.hash ≡ b.hash)
unfolding verify_quorum_cert multi_len
create_quorum_cert-verify c b bytes certs qc eb votes quorum ne h =
    let (comb, ev, eh) = create_quorum_cert-inv c b certs {qc = qc} h ne in
    let (t, et, went, two) = combine-inv (cert_signatures certs) comb in
    let good = votes-Good c b bytes certs eb votes in
    let all = AllSigned-combine_into c bytes (cert_signatures certs) {t = t} went good in
    let n = length-combine (cert_signatures certs) t (rw (comb, et)) in
    let many = entries-Good c bytes (cert_signatures certs) good in
    let same = length-cert_signatures certs in
    let big : 0 < length t = omega arith in
    let ok_v = AllSigned-verify c t bytes big all in
    (ground (arith, bytes_beq_iff qc.hash (genesis_hash c)), ev, eh)

-- For a block other than genesis, votes in which one id signs twice make no certificate.
pub create_quorum_cert-duplicate :
    (c : Crypto) (b : Block) (certs : List PartialCert) (id : ℕ) (qc : QuorumCert)
    → 2 ≤ occurs_in id (cert_signatures certs)
    → b.hash ≢ genesis_hash c
    → create_quorum_cert c b certs ≢ ok qc
create_quorum_cert-duplicate c b certs id qc twice ne h =
    let (comb, _, _) = create_quorum_cert-inv c b certs {qc = qc} h ne in
    let (t, et, _, _) = combine-inv (cert_signatures certs) comb in
    let (same, once) = combine-occurs (cert_signatures certs) t id (rw (comb, et)) in omega arith
