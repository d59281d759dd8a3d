-- ===== src/Crypto/Verifying.antt =====
-- What a certificate that verifies proves, and what one that was made verifies.
use basic_hotstuff.Prelude.{
  ℕ, ◌≤◌, ◌<◌, ◌≡◌, ◌≢◌, refl, [], ◌∷◌, none, some, ok, ◌>>=◌, >>=-eq-ok, nat_eq, if◌then◌else◌,
  arith, length, Bool-cases, inl, inr, ltb, true, false, ◌↔◌, Bytes, bytes_beq, bytes_beq_iff, ◌&&◌,
  get_elem?, deref,
}
use basic_hotstuff.Types.{Signature, Multi, QuorumSignature, QuorumCert, multi_len}
use basic_hotstuff.Block.{Block, block_to_bytes}
use basic_hotstuff.Crypto.{
  Crypto, verify_single, verify_each, verify, verify_quorum_cert, genesis_hash,
}
use basic_hotstuff.Crypto.Combining.{Each}

-- One signature is good for a digest: its signer has a key, which accepts it.
abbrev pub IsSigned : Crypto → Bytes → Signature → Type 0
IsSigned c digest sig =
    (pk : ℕ) × (get_elem? c.public_keys sig.signer ≡ some pk)
    × (c.prims.ecdsa_verify pk digest sig.r sig.s ≡ true)

abbrev pub AllSigned : Crypto → Bytes → Multi → Type 0
AllSigned c digest = Each (IsSigned c digest)

verify_single-IsSigned :
    (c : Crypto) (sig : Signature) (digest : Bytes)
    → verify_single c sig digest ≡ ok true
    → IsSigned c digest sig
unfolding verify_single
verify_single-IsSigned c sig digest h =
    let (pk, e, v) =
      >>=-eq-ok (deref (get_elem? c.public_keys sig.signer))
        (λ pk. ok (c.prims.ecdsa_verify pk digest sig.r sig.s)) h in
    (pk, ground arith, ground arith)

verify_each-AllSigned :
    (c : Crypto) (m : Multi) (digest : Bytes)
    → verify_each c m digest ≡ ok true
    → AllSigned c digest m
unfolding verify_each
verify_each-AllSigned c [] digest h = tt
verify_each-AllSigned c ((id, sig) ∷ m) digest h =
    let (a, ea, h') =
      >>=-eq-ok (verify_single c sig digest)
        (λ valid. verify_each c m digest >>= λ others. ok (valid && others)) h in
    let (b, eb, e) = >>=-eq-ok (verify_each c m digest) (λ others. ok (a && others)) h' in
    (
      verify_single-IsSigned c sig digest (ground arith),
      verify_each-AllSigned c m digest (ground arith),
    )

AllSigned-verify_each :
    (c : Crypto) (m : Multi) (digest : Bytes)
    → AllSigned c digest m
    → verify_each c m digest ≡ ok true
unfolding verify_each verify_single
AllSigned-verify_each c [] digest h = refl
AllSigned-verify_each c ((id, sig) ∷ m) digest h =
    ground (arith, AllSigned-verify_each c m digest h.1)

-- `Verify` accepts only nonempty sets of good signatures.
pub verify-AllSigned :
    (c : Crypto) (sig : QuorumSignature) (message : Bytes)
    → verify c sig message ≡ ok true
    → (m : Multi) × (sig ≡ some m) × (0 < length m) × AllSigned c (c.prims.sha256 message) m
unfolding verify multi_len
verify-AllSigned c none message h = cc
verify-AllSigned c (some m) message h =
    (m, refl, ground arith, verify_each-AllSigned c m (c.prims.sha256 message) (ground arith))

pub AllSigned-verify :
    (c : Crypto) (m : Multi) (message : Bytes)
    → 0 < length m
    → AllSigned c (c.prims.sha256 message) m
    → verify c (some m) message ≡ ok true
unfolding verify multi_len
AllSigned-verify c m message pos h =
    ground (arith, AllSigned-verify_each c m (c.prims.sha256 message) h)

-- A quorum certificate that verifies, for another hash than the genesis block's, holds valid
-- signatures over the block's bytes under at least a quorum of ids.
pub verify_quorum_cert-quorum :
    (c : Crypto) (b : Block) (qc : QuorumCert)
    → verify_quorum_cert c b qc ≡ ok true
    → qc.hash ≢ genesis_hash c
    → (m : Multi) × (bytes : Bytes) × (qc.signature ≡ some m)
      × (block_to_bytes b ≡ ok bytes)
      × (c.quorum_size ≤ length m)
      × AllSigned c (c.prims.sha256 bytes) m
unfolding verify_quorum_cert multi_len
verify_quorum_cert-quorum c b qc h ne = elim (Bool-cases (bytes_beq qc.hash (genesis_hash c))) [
  | inl e ↦ absurd (ne ((bytes_beq_iff _ _).0 e))
  | inr e ↦ signed qc.signature refl (ground arith)
]
  where
    signed :
        (q : QuorumSignature)
        → qc.signature ≡ q
        → (deref q >>= λ m.
            if ltb (length m) c.quorum_size
            then ok false
            else (block_to_bytes b >>= λ bytes. verify c qc.signature bytes))
          ≡ ok true
        → (m : Multi) × (bytes : Bytes) × (qc.signature ≡ some m)
          × (block_to_bytes b ≡ ok bytes)
          × (c.quorum_size ≤ length m)
          × AllSigned c (c.prims.sha256 bytes) m
    signed none es g = cc
    signed (some m) es g =
        let (bytes, eb, v) =
          >>=-eq-ok (block_to_bytes b) (λ bytes. verify c qc.signature bytes) (ground arith) in
        let (m', em, _, all) = verify-AllSigned c qc.signature bytes v in
        (m', bytes, em, eb, ground arith, all)

-- `Verify` answers yes for a signature if and only if it is a set of signatures, not empty, each of
-- whose signers has a configured key that accepts the message's digest.
pub verify_iff :
    (c : Crypto) (sig : QuorumSignature) (message : Bytes)
    → (verify c sig message ≡ ok true)
      ↔ ((m : Multi) × (sig ≡ some m) × (0 < length m) × AllSigned c (c.prims.sha256 message) m)
verify_iff c sig message = (
  verify-AllSigned c sig message,
  λ (m, e, pos, all). rw e (AllSigned-verify c m message pos all),
)
