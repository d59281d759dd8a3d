-- ===== src/Crypto.antt =====
-- crypto/crypto.go and crypto/ecdsa/ecdsa.go: signing, combining and verifying.
-- `Crypto` is a `CryptoImpl` with what it reads of the configurations; an `err` is a returned error
-- and a `panic` a nil dereference, a failed type assertion or an index out of range.
pub mod Signing
pub mod Combining
pub mod Verifying
pub mod Timeouts
pub mod Forging
use basic_hotstuff.Prelude.{
  ℕ, zero, suc, List, [], ◌∷◌, ◌++◌, map, Option, none, some, Bool, true, false, ◌&&◌, Bytes,
  Result, ok, err, panic, ◌>>=◌, deref, ltb, nat_beq, bytes_beq, nat_eq, if◌then◌else◌, length,
  get_elem?, sign_failed, combine_multiple, combine_overlap, contains, insert,
}
use basic_hotstuff.Encoding.{put_be}
use basic_hotstuff.Types.{
  Id32, View, Hash, Signature, Multi, QuorumSignature, PartialCert, QuorumCert, TimeoutCert,
  TimeoutVote, new_partial_cert, tc_to_bytes, view_to_bytes, multi_len,
}
use basic_hotstuff.Primitives.{Primitives}
use basic_hotstuff.Block.{Block, block_to_bytes, get_genesis}

pub record Crypto : Type 0 where
  pub prims : Primitives
  pub conf_id : Id32
  pub private_key : ℕ
  -- `gConf.ReplicaConf[i].PubKey`
  pub public_keys : List ℕ
  pub quorum_size : ℕ
  pub timeout_quorum_size : ℕ

-- `EcdsaBase.Sign`, with the randomness that it draws.
unfoldable pub sign : Crypto → ℕ → Bytes → Result QuorumSignature
sign c nonce message = elim (c.prims.ecdsa_sign c.private_key nonce (c.prims.sha256 message)) [
  | none ↦ err sign_failed
  | some (r, s) ↦ ok (some ((c.conf_id, record { r = r; s = s; signer = c.conf_id }) ∷ []))
]

-- The inner loop of `Combine`.
unfoldable pub add_all : Multi → Multi → Result Multi
add_all ts [] = ok ts
add_all ts ((id, s) ∷ m) =
    if contains id ts then err combine_overlap else add_all (insert id s ts) m

-- Its outer loop.
unfoldable pub combine_into : Multi → List QuorumSignature → Result QuorumSignature
combine_into ts [] = ok (some ts)
combine_into ts (none ∷ sigs) = panic
combine_into ts (some m ∷ sigs) = do ts' ← add_all ts m; combine_into ts' sigs

-- `EcdsaBase.Combine`.
unfoldable pub combine : List QuorumSignature → Result QuorumSignature
combine sigs = if ltb (length sigs) 2 then err combine_multiple else combine_into [] sigs

-- `verifySingle`: a signer without a configured key is an index out of range.
unfoldable pub verify_single : Crypto → Signature → Bytes → Result Bool
verify_single c sig digest = do
  pk ← deref (get_elem? c.public_keys sig.signer)
  ok (c.prims.ecdsa_verify pk digest sig.r sig.s)

-- The goroutines of `Verify` and the loop that collects their results.
unfoldable pub verify_each : Crypto → Multi → Bytes → Result Bool
verify_each c [] digest = ok true
verify_each c ((id, sig) ∷ m) digest = do
  valid ← verify_single c sig digest
  others ← verify_each c m digest
  ok (valid && others)

-- `EcdsaBase.Verify`.
unfoldable pub verify : Crypto → QuorumSignature → Bytes → Result Bool
verify c none message = panic
verify c (some m) message =
    if nat_beq (multi_len m) 0 then ok false else verify_each c m (c.prims.sha256 message)

unfoldable pub create_partial_cert : Crypto → ℕ → Block → Result PartialCert
create_partial_cert c nonce block = do
  bytes ← block_to_bytes block
  sig ← sign c nonce bytes
  new_partial_cert sig block.hash

abbrev pub genesis_hash : Crypto → Hash
genesis_hash c = (get_genesis c.prims).hash

abbrev pub cert_signatures : List PartialCert → List QuorumSignature
cert_signatures = map (λ pc. pc.signature)

unfoldable pub create_quorum_cert : Crypto → Block → List PartialCert → Result QuorumCert
create_quorum_cert c block certs =
    if bytes_beq block.hash (genesis_hash c)
    then ok (record { signature = none; view = 0; hash = genesis_hash c })
    else (do
      sig ← combine (cert_signatures certs)
      ok (record { signature = sig; view = block.view; hash = block.hash }))

unfoldable pub create_timeout_cert : Crypto → View → List QuorumSignature → Result TimeoutCert
create_timeout_cert c view sigs =
    if nat_beq view 0
    then ok (record { signature = none; view = 0 })
    else (do sig ← combine sigs; ok (record { signature = sig; view = view }))

unfoldable pub verify_partial_cert : Crypto → Block → PartialCert → Result Bool
verify_partial_cert c block cert = do bytes ← block_to_bytes block; verify c cert.signature bytes

unfoldable pub verify_quorum_cert : Crypto → Block → QuorumCert → Result Bool
verify_quorum_cert c block qc = if bytes_beq qc.hash (genesis_hash c) then ok true else (do
  m ← deref qc.signature
  if ltb (multi_len m) c.quorum_size
      then ok false
      else (do bytes ← block_to_bytes block; verify c qc.signature bytes))

unfoldable pub verify_timeout_cert : Crypto → TimeoutCert → Result Bool
verify_timeout_cert c tc = if nat_beq tc.view 0 then ok true else (do
  m ← deref tc.signature
  if ltb (multi_len m) c.timeout_quorum_size
      then ok false
      else verify c tc.signature (view_to_bytes tc.view))

-- `TimeoutCert.Hash`.
unfoldable pub tc_hash : Primitives → TimeoutCert → Result Hash
tc_hash p tc = do bytes ← tc_to_bytes tc; ok (p.sha256 bytes)

-- `TimeoutVote.ToBytes`.
unfoldable pub tv_to_bytes : Primitives → TimeoutVote → Result Bytes
tv_to_bytes p tv = do tc ← tc_to_bytes tv.tc; ok (p.sha256 (put_be 8 tv.view ++ tc))

unfoldable pub create_timeout_vote_cert : Crypto → ℕ → TimeoutVote → Result QuorumSignature
create_timeout_vote_cert c nonce tv = do bytes ← tv_to_bytes c.prims tv; sign c nonce bytes

unfoldable pub verify_timeout_vote_cert : Crypto → TimeoutVote → QuorumSignature → Result Bool
verify_timeout_vote_cert c tv sig = do bytes ← tv_to_bytes c.prims tv; verify c sig bytes

unfoldable pub create_timeout_quorum_cert :
    Crypto → TimeoutVote → List QuorumSignature → Result QuorumCert
create_timeout_quorum_cert c tv sigs = do
  sig ← combine sigs
  hash ← tc_hash c.prims tv.tc
  ok (record { signature = sig; view = tv.view; hash = hash })

unfoldable pub verify_timeout_quorum_cert : Crypto → TimeoutVote → QuorumCert → Result Bool
verify_timeout_quorum_cert c tv qc = do
  m ← deref qc.signature
  if ltb (multi_len m) c.quorum_size
      then ok false
      else (do bytes ← tv_to_bytes c.prims tv; verify c qc.signature bytes)
