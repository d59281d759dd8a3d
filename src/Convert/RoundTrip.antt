-- ===== src/Convert/RoundTrip.antt =====
-- A value that is sent comes back as it was.
use mathlib.Core.List.{append_assoc, append-nil}
use basic_hotstuff.Prelude.{
  ℕ, zero, suc, ◌≡◌, refl, [], ◌∷◌, ◌++◌, map, none, some, Bytes, ok, >>=-eq-ok, arith, length,
  nat_eq, insert, contains, false, ap,
}
use basic_hotstuff.Encoding.{set_bytes-big_bytes}
use basic_hotstuff.Types.{
  Signature, Multi, QuorumSignature, QuorumCert, PartialCert, TimeoutCert, restore, restore_from,
  new_partial_cert, qc_to_bytes,
}
use basic_hotstuff.Primitives.{Primitives}
use basic_hotstuff.Block.{Block, block_to_bytes, new_block, set_timestamp}
use basic_hotstuff.Convert.{
  copy_into, signature_from_proto, signature_to_proto, signatures_to_proto,
  quorum_signature_from_proto, quorum_signature_to_proto, quorum_cert_from_proto,
  quorum_cert_to_proto, block_from_proto, block_to_proto, partial_cert_to_proto,
  partial_cert_from_proto, timeout_cert_from_proto, timeout_cert_to_proto,
}

pub copy_into-length : (n : ℕ) (b : Bytes) → length b ≡ n → copy_into n b ≡ b
unfolding copy_into
copy_into-length zero [] h = refl
copy_into-length zero (x ∷ b) h = absurd (omega arith)
copy_into-length (suc n) [] h = absurd (omega arith)
copy_into-length (suc n) (x ∷ b) h = ap (◌∷◌ x) (copy_into-length n b (omega arith))

-- What the program's own constructors keep of a set of signatures: each stands under its signer,
-- and no id has two.
abbrev pub IsKeyed : Multi → Type 0
IsKeyed [] = Unit {0}
IsKeyed ((k, s) ∷ m) = (k ≡ s.signer) × (contains k m ≡ false) × IsKeyed m

abbrev pub IsKeyedSignature : QuorumSignature → Type 0
IsKeyedSignature none = Unit {0}
IsKeyedSignature (some m) = IsKeyed m

signature_round_trip : (s : Signature) → signature_from_proto (signature_to_proto s) ≡ s
unfolding signature_from_proto signature_to_proto
signature_round_trip s = ground (arith, set_bytes-big_bytes s.r, set_bytes-big_bytes s.s)

-- No key of the second map is a key of the first.
abbrev Apart : Multi → Multi → Type 0
Apart m [] = Unit {0}
Apart m ((k, s) ∷ n) = (contains k m ≡ false) × Apart m n

contains-append :
    (k : ℕ) (m n : Multi)
    → contains k m ≡ false
    → contains k n ≡ false
    → contains k (m ++ n) ≡ false
unfolding contains
contains-append k [] n a b = b
contains-append k ((j, s) ∷ m) n a b = ground (arith, contains-append k m n)

insert_new :
    (k : ℕ) (s : Signature) (m : Multi) → contains k m ≡ false → insert k s m ≡ m ++ (k, s) ∷ []
unfolding contains insert
insert_new k s [] h = refl
insert_new k s ((j, t) ∷ m) h = ground (arith, insert_new k s m)

insert_keyed :
    (k j : ℕ) (s : Signature) (m : Multi)
    → k ≡ j
    → contains k m ≡ false
    → insert j s m ≡ m ++ (k, s) ∷ []
insert_keyed k j s m e h = rw (← e) (insert_new k s m h)

Apart-snoc :
    (k : ℕ) (s : Signature) (m n : Multi)
    → contains k n ≡ false
    → Apart m n
    → Apart (m ++ (k, s) ∷ []) n
unfolding contains
Apart-snoc k s m [] h a = tt
Apart-snoc k s m ((j, t) ∷ n) h a =
    (contains-append j m ((k, s) ∷ []) a.0 (ground arith), Apart-snoc k s m n (ground arith) a.1)

restore_round_trip :
    (m n : Multi)
    → IsKeyed n
    → Apart m n
    → restore_from m (map signature_from_proto (signatures_to_proto n)) ≡ m ++ n
unfolding restore_from signatures_to_proto
restore_round_trip m [] keyed apart = rw append-nil
restore_round_trip m ((k, s) ∷ n) keyed apart = rw signature_round_trip (
    rw (insert_keyed k s.signer s m keyed.0 apart.0) (
      rw (restore_round_trip (m ++ (k, s) ∷ []) n keyed.2 (Apart-snoc k s m n keyed.1 apart.1))
        (rw append_assoc)))

Apart-nil : (n : Multi) → Apart [] n
unfolding contains
Apart-nil [] = tt
Apart-nil ((k, s) ∷ n) = (refl, Apart-nil n)

-- `QuorumSignatureFromProto` after `QuorumSignatureToProto` gives the signature back, nil included.
pub quorum_signature_round_trip :
    (sig : QuorumSignature)
    → IsKeyedSignature sig
    → quorum_signature_from_proto (some (quorum_signature_to_proto sig)) ≡ sig
unfolding quorum_signature_from_proto quorum_signature_to_proto restore
quorum_signature_round_trip none h = refl
quorum_signature_round_trip (some m) h = ap some (restore_round_trip [] m h (Apart-nil m))

abbrev pub IsWireCert : QuorumCert → Type 0
IsWireCert qc = IsKeyedSignature qc.signature × (length qc.hash ≡ 32)

-- A quorum certificate with a hash of 32 bytes, whose signatures stand under their distinct
-- signers, is the same after `QuorumCertToProto` and `QuorumCertFromProto`.
pub quorum_cert_round_trip :
    (qc : QuorumCert) → IsWireCert qc → quorum_cert_from_proto (some (quorum_cert_to_proto qc)) ≡ qc
unfolding quorum_cert_from_proto quorum_cert_to_proto
quorum_cert_round_trip qc h =
    rw (quorum_signature_round_trip qc.signature h.0, copy_into-length 32 qc.hash h.1)

-- A timeout certificate whose signatures stand under their distinct signers is the same after
-- `TimeoutCertToProto` and `TimeoutCertFromProto`.
pub timeout_cert_round_trip :
    (tc : TimeoutCert)
    → IsKeyedSignature tc.signature
    → timeout_cert_from_proto (some (timeout_cert_to_proto tc)) ≡ tc
unfolding timeout_cert_from_proto timeout_cert_to_proto
timeout_cert_round_trip tc h = rw (quorum_signature_round_trip tc.signature h)

-- A partial certificate that `NewPartialCert` made of signatures under their distinct signers and a
-- hash of 32 bytes is the same after `PartialCertToProto` and `PartialCertFromProto`.
partial_cert_round_trip :
    (pc : PartialCert) (m : Multi)
    → new_partial_cert (some m) pc.block_hash ≡ ok pc
    → IsKeyed m
    → length pc.block_hash ≡ 32
    → partial_cert_from_proto (partial_cert_to_proto pc) ≡ ok pc
unfolding partial_cert_from_proto partial_cert_to_proto new_partial_cert
partial_cert_round_trip pc m made keyed len =
    let sig : pc.signature ≡ some m = ground arith in
    rw (sig, quorum_signature_round_trip (some m) keyed, copy_into-length 32 pc.block_hash len)
      (ground arith)

-- The cached hash is that of the contents, as every constructor of a block leaves it.
abbrev pub IsHashed : Primitives → Block → Type 0
IsHashed p b = set_timestamp p b b.ts ≡ ok b

-- A block whose cached hash is that of its contents, whose parent's hash and
-- certificate's hash have 32 bytes and whose certificate's signatures stand under their distinct
-- signers is the same after `BlockToProto` and `BlockFromProto`, at any time.
pub block_round_trip :
    (p : Primitives) (now : ℕ) (b : Block)
    → IsHashed p b
    → IsWireCert b.cert
    → length b.parent ≡ 32
    → block_from_proto p now (some (block_to_proto b)) ≡ ok b
unfolding block_from_proto block_to_proto new_block set_timestamp block_to_bytes
block_round_trip p now b hashed wire len =
    let (bytes, eb, made) =
      >>=-eq-ok (block_to_bytes b) (λ bytes. ok (record b { hash = p.sha256 bytes })) hashed in
    let (cert, ec, laid) = >>=-eq-ok (qc_to_bytes b.cert) _ eb in
    rw (quorum_cert_round_trip b.cert wire, copy_into-length 32 b.parent len) (ground arith)
