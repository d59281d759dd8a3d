-- ===== src/Consensus/Cogsworth/Timeouts.antt =====
-- The calls of the crypto package for the certificates of a view change never run out of the model's
-- fuel.
use basic_hotstuff.Prelude.{ℕ, List, Option, none, some, arith, deref}
use basic_hotstuff.Types.{
  View, QuorumSignature, QuorumCert, TimeoutCert, TimeoutVote, tc_to_bytes, view_to_bytes,
}
use basic_hotstuff.Primitives.{Primitives}
use basic_hotstuff.Crypto.{
  Crypto, tc_hash, tv_to_bytes, create_timeout_cert, verify_timeout_cert, create_timeout_vote_cert,
  verify_timeout_vote_cert, create_timeout_quorum_cert, verify_timeout_quorum_cert,
}
use basic_hotstuff.Consensus.Settling.{
  Settles, Settles->>=, combine-Settles, verify-Settles, sign-Settles, optional_bytes-Settles,
}

deref-Settles {ℓ} : {A : Type ℓ} (o : Option A) → Settles (deref o)
deref-Settles none = λ p. cc
deref-Settles (some a) = λ p. cc

tc_to_bytes-Settles : (tc : TimeoutCert) → Settles (tc_to_bytes tc)
unfolding tc_to_bytes
tc_to_bytes-Settles tc =
    Settles->>= (deref tc.signature) _ (deref-Settles tc.signature)
      λ m. ground (arith, optional_bytes-Settles (some m))

tc_hash-Settles : (p : Primitives) (tc : TimeoutCert) → Settles (tc_hash p tc)
unfolding tc_hash
tc_hash-Settles p tc = ground (arith, tc_to_bytes-Settles tc)

tv_to_bytes-Settles : (p : Primitives) (tv : TimeoutVote) → Settles (tv_to_bytes p tv)
unfolding tv_to_bytes
tv_to_bytes-Settles p tv = ground (arith, tc_to_bytes-Settles tv.tc)

pub create_timeout_cert-Settles :
    (c : Crypto) (v : View) (sigs : List QuorumSignature) → Settles (create_timeout_cert c v sigs)
unfolding create_timeout_cert
create_timeout_cert-Settles c v sigs = ground (arith, combine-Settles sigs)

pub verify_timeout_cert-Settles :
    (c : Crypto) (tc : TimeoutCert) → Settles (verify_timeout_cert c tc)
unfolding verify_timeout_cert
verify_timeout_cert-Settles c tc =
    ground (arith, verify-Settles c tc.signature (view_to_bytes tc.view))

pub create_timeout_vote_cert-Settles :
    (c : Crypto) (nonce : ℕ) (tv : TimeoutVote) → Settles (create_timeout_vote_cert c nonce tv)
unfolding create_timeout_vote_cert
create_timeout_vote_cert-Settles c nonce tv =
    Settles->>= (tv_to_bytes c.prims tv) _ (tv_to_bytes-Settles c.prims tv)
      λ bytes. sign-Settles c nonce bytes

pub verify_timeout_vote_cert-Settles :
    (c : Crypto) (tv : TimeoutVote) (sig : QuorumSignature)
    → Settles (verify_timeout_vote_cert c tv sig)
unfolding verify_timeout_vote_cert
verify_timeout_vote_cert-Settles c tv sig =
    Settles->>= (tv_to_bytes c.prims tv) _ (tv_to_bytes-Settles c.prims tv)
      λ bytes. verify-Settles c sig bytes

pub create_timeout_quorum_cert-Settles :
    (c : Crypto) (tv : TimeoutVote) (sigs : List QuorumSignature)
    → Settles (create_timeout_quorum_cert c tv sigs)
unfolding create_timeout_quorum_cert
create_timeout_quorum_cert-Settles c tv sigs =
    ground (arith, combine-Settles sigs, tc_hash-Settles c.prims tv.tc)

pub verify_timeout_quorum_cert-Settles :
    (c : Crypto) (tv : TimeoutVote) (qc : QuorumCert) → Settles (verify_timeout_quorum_cert c tv qc)
unfolding verify_timeout_quorum_cert verify_timeout_vote_cert
verify_timeout_quorum_cert-Settles c tv qc =
    ground (arith, verify_timeout_vote_cert-Settles c tv qc.signature)
