-- ===== src/Consensus/Settling.antt =====
-- The calls of the crypto and the conversion packages never run out of the model's fuel.
use basic_hotstuff.Prelude.{
  ℕ, List, [], ◌∷◌, Option, none, some, Bytes, Result, ok, err, panic, hang, out_of_fuel, ◌>>=◌,
  ◌≢◌, refl, arith, Ends, attempt, ltb, nat_eq, contains, insert, Bool-cases, inl, inr, sort_by,
}
use basic_hotstuff.Types.{
  Multi, QuorumSignature, PartialCert, QuorumCert, append_signatures, multi_to_bytes, qc_to_bytes,
  new_partial_cert, optional_bytes, signers, Signature, zero_hash,
}
use basic_hotstuff.Primitives.{Primitives}
use basic_hotstuff.Block.{Block, block_to_bytes, set_timestamp, new_block}
use basic_hotstuff.Proto.{BlockPb, PartialCertPb}
use basic_hotstuff.Convert.{
  block_from_proto, partial_cert_from_proto, copy_into, quorum_cert_from_proto, as_time,
  quorum_signature_from_proto,
}
use basic_hotstuff.Crypto.{
  Crypto, sign, add_all, combine_into, combine, verify_single, verify_each, verify,
  create_partial_cert, create_quorum_cert, verify_partial_cert, verify_quorum_cert, cert_signatures,
}

abbrev pub Settles {ℓ} : {A : Type ℓ} → Result A → Type ℓ
Settles r = r ≢ out_of_fuel

pub Settles-Ends {ℓ} : {A : Type ℓ} (r : Result A) → Settles r → Ends (λ a. Unit) r
Settles-Ends (ok a) h = tt
Settles-Ends (err e) h = tt
Settles-Ends panic h = tt
Settles-Ends hang h = tt
Settles-Ends out_of_fuel h = absurd (h refl)

append_signatures-Settles : (m : Multi) (is : List ℕ) → Settles (append_signatures m is)
unfolding append_signatures
append_signatures-Settles m [] = ground arith
append_signatures-Settles m (i ∷ is) = ground (arith, append_signatures-Settles m is)

pub optional_bytes-Settles : (sig : QuorumSignature) → Settles (optional_bytes sig)
unfolding multi_to_bytes
optional_bytes-Settles none = ground arith
optional_bytes-Settles (some m) = append_signatures-Settles m (sort_by ltb (signers m))

qc_to_bytes-Settles : (qc : QuorumCert) → Settles (qc_to_bytes qc)
unfolding qc_to_bytes
qc_to_bytes-Settles qc = ground (arith, optional_bytes-Settles qc.signature)

block_to_bytes-Settles : (b : Block) → Settles (block_to_bytes b)
unfolding block_to_bytes
block_to_bytes-Settles b = ground (arith, qc_to_bytes-Settles b.cert)

set_timestamp-Settles : (p : Primitives) (b : Block) (ts : ℕ) → Settles (set_timestamp p b ts)
unfolding set_timestamp
set_timestamp-Settles p b ts = ground (arith, block_to_bytes-Settles (record b { ts = ts }))

pub new_block-Settles :
    (p : Primitives) (now : ℕ) (parent : Bytes) (cert : QuorumCert) (cmd : Bytes) (v id : ℕ)
    → Settles (new_block p now parent cert cmd v id)
unfolding new_block
new_block-Settles p now parent cert cmd v id =
    set_timestamp-Settles p
      (record {
        hash = zero_hash;
        parent = parent;
        proposer = id;
        cmd = cmd;
        cert = cert;
        view = v;
        ts = now;
      })
      now

stamp_all-Settles :
    (p : Primitives) (r : Result Block) (ts : ℕ)
    → Settles r
    → Settles (r >>= λ b. set_timestamp p b ts)
stamp_all-Settles p (ok b) ts h = set_timestamp-Settles p b ts
stamp_all-Settles p (err e) ts h = ground arith
stamp_all-Settles p panic ts h = ground arith
stamp_all-Settles p hang ts h = ground arith
stamp_all-Settles p out_of_fuel ts h = h

pub block_from_proto-Settles :
    (p : Primitives) (now : ℕ) (pb : Option BlockPb) → Settles (block_from_proto p now pb)
unfolding block_from_proto
block_from_proto-Settles p now none = ground arith
block_from_proto-Settles p now (some pb) =
    stamp_all-Settles p
      (new_block p now (copy_into 32 pb.parent) (quorum_cert_from_proto pb.qc) pb.command pb.view
        pb.proposer)
      (as_time pb.timestamp)
      (new_block-Settles p now (copy_into 32 pb.parent) (quorum_cert_from_proto pb.qc) pb.command
        pb.view pb.proposer)

new_partial_cert-Settles : (sig : QuorumSignature) (h : Bytes) → Settles (new_partial_cert sig h)
unfolding new_partial_cert
new_partial_cert-Settles none h = ground arith
new_partial_cert-Settles (some m) h = ground arith

pub partial_cert_from_proto-Settles : (pb : PartialCertPb) → Settles (partial_cert_from_proto pb)
unfolding partial_cert_from_proto
partial_cert_from_proto-Settles pb =
    new_partial_cert-Settles (quorum_signature_from_proto pb.sig) (copy_into 32 pb.hash)

-- The rule for a chain of calls.
pub Settles->>= {ℓ κ} :
    {A : Type ℓ} {B : Type κ} (m : Result A) (f : A → Result B)
    → Settles m
    → ((a : A) → Settles (f a))
    → Settles (m >>= f)
Settles->>= (ok a) f h k = k a
Settles->>= (err e) f h k = λ p. cc
Settles->>= panic f h k = λ p. cc
Settles->>= hang f h k = λ p. cc
Settles->>= out_of_fuel f h k = absurd (h refl)

pub Settles-attempt {ℓ} : {A : Type ℓ} (m : Result A) → Settles m → Settles (attempt m)
Settles-attempt (ok a) h = λ p. cc
Settles-attempt (err e) h = λ p. cc
Settles-attempt panic h = λ p. cc
Settles-attempt hang h = λ p. cc
Settles-attempt out_of_fuel h = absurd (h refl)

pub sign-Settles : (c : Crypto) (nonce : ℕ) (message : Bytes) → Settles (sign c nonce message)
unfolding sign
sign-Settles c nonce message = ground arith

pub create_partial_cert-Settles :
    (c : Crypto) (nonce : ℕ) (b : Block) → Settles (create_partial_cert c nonce b)
unfolding create_partial_cert
create_partial_cert-Settles c nonce b =
    Settles->>= (block_to_bytes b) _ (block_to_bytes-Settles b) λ bytes.
      Settles->>= (sign c nonce bytes) _ (sign-Settles c nonce bytes)
        λ sig. new_partial_cert-Settles sig b.hash

add_all-Settles : (ts m : Multi) → Settles (add_all ts m)
unfolding add_all
add_all-Settles ts [] = λ p. cc
add_all-Settles ts ((k, s) ∷ m) = elim (Bool-cases (contains k ts)) [
  | inl e ↦ rw e (λ p. cc)
  | inr e ↦ rw e (add_all-Settles (insert k s ts) m)
]

combine_into-Settles : (ts : Multi) (sigs : List QuorumSignature) → Settles (combine_into ts sigs)
unfolding combine_into
combine_into-Settles ts [] = λ p. cc
combine_into-Settles ts (none ∷ sigs) = λ p. cc
combine_into-Settles ts (some m ∷ sigs) =
    Settles->>= (add_all ts m) _ (add_all-Settles ts m) λ t. combine_into-Settles t sigs

pub combine-Settles : (sigs : List QuorumSignature) → Settles (combine sigs)
unfolding combine
combine-Settles sigs = ground (arith, combine_into-Settles [] sigs)

pub create_quorum_cert-Settles :
    (c : Crypto) (b : Block) (certs : List PartialCert) → Settles (create_quorum_cert c b certs)
unfolding create_quorum_cert
create_quorum_cert-Settles c b certs = ground (arith, combine-Settles (cert_signatures certs))

verify_single-Settles :
    (c : Crypto) (sig : Signature) (digest : Bytes) → Settles (verify_single c sig digest)
unfolding verify_single
verify_single-Settles c sig digest = ground arith

verify_each-Settles : (c : Crypto) (m : Multi) (digest : Bytes) → Settles (verify_each c m digest)
unfolding verify_each
verify_each-Settles c [] digest = λ p. cc
verify_each-Settles c ((k, s) ∷ m) digest =
    ground (arith, verify_single-Settles c s digest, verify_each-Settles c m digest)

pub verify-Settles :
    (c : Crypto) (sig : QuorumSignature) (message : Bytes) → Settles (verify c sig message)
unfolding verify
verify-Settles c none message = λ p. cc
verify-Settles c (some m) message = ground (arith, verify_each-Settles c m (c.prims.sha256 message))

pub verify_partial_cert-Settles :
    (c : Crypto) (b : Block) (pc : PartialCert) → Settles (verify_partial_cert c b pc)
unfolding verify_partial_cert
verify_partial_cert-Settles c b pc =
    Settles->>= (block_to_bytes b) _ (block_to_bytes-Settles b)
      λ bytes. verify-Settles c pc.signature bytes

verify_sized-Settles :
    (c : Crypto) (b : Block) (sig : QuorumSignature)
    → Settles (block_to_bytes b >>= λ bytes. verify c sig bytes)
verify_sized-Settles c b sig =
    Settles->>= (block_to_bytes b) _ (block_to_bytes-Settles b) λ bytes. verify-Settles c sig bytes

pub verify_quorum_cert-Settles :
    (c : Crypto) (b : Block) (qc : QuorumCert) → Settles (verify_quorum_cert c b qc)
unfolding verify_quorum_cert
verify_quorum_cert-Settles c b qc = ground (arith, verify_sized-Settles c b qc.signature)
