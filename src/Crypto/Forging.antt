-- ===== src/Crypto/Forging.antt =====
-- What the checks of certificates and votes do not look at.
use basic_hotstuff.Prelude.{
  ℕ, ◌≡◌, ◌≢◌, refl, List, [], ◌∷◌, none, some, true, false, ok, >>=-eq-ok, arith, length, All,
  Bool-cases, inl, inr, bytes_beq, bytes_beq_iff, contains, insert, nat_eq, nat_beq, Bytes, ◌<◌,
  ◌≤◌, ◌↔◌, sym, ◌∙◌,
}
use basic_hotstuff.Types.{Signature, Multi, View, Hash, QuorumSignature, QuorumCert, PartialCert}
use basic_hotstuff.Block.{Block, block_to_bytes}
use basic_hotstuff.Crypto.{
  Crypto, add_all, combine_into, verify, verify_quorum_cert, verify_partial_cert,
  create_quorum_cert, genesis_hash, cert_signatures,
}
use basic_hotstuff.Crypto.Combining.{Each, combine-inv}
use basic_hotstuff.Crypto.Verifying.{
  IsSigned, AllSigned, AllSigned-verify, verify_quorum_cert-quorum,
}
use basic_hotstuff.Crypto.Signing.{create_quorum_cert-inv, create_quorum_cert-verify, VotesFor}

-- The view and the hash of a certificate are not covered by its signatures: a certificate that
-- verifies for a block, and does not name the genesis hash, verifies for it with any view and any
-- hash but the genesis block's.
pub verify_quorum_cert-altered :
    (c : Crypto) (b : Block) (qc : QuorumCert) (v : View) (h : Hash)
    → verify_quorum_cert c b qc ≡ ok true
    → qc.hash ≢ genesis_hash c
    → h ≢ genesis_hash c
    → verify_quorum_cert c b (record qc { view = v; hash = h }) ≡ ok true
unfolding verify_quorum_cert
verify_quorum_cert-altered c b qc v h valid ne ne' =
    let old : bytes_beq qc.hash (genesis_hash c) ≡ false =
      ground (arith, (bytes_beq_iff qc.hash (genesis_hash c)).0) in
    let new : bytes_beq h (genesis_hash c) ≡ false =
      ground (arith, (bytes_beq_iff h (genesis_hash c)).0) in
    rw new (rw old at valid)

module _ (P : Signature → Type 0) where
  Each-insert_inv :
      (k : ℕ) (s : Signature) (m : Multi)
      → contains k m ≡ false
      → Each P (insert k s m)
      → P s × Each P m
  unfolding insert contains
  Each-insert_inv k s [] h all = (all.0, tt)
  Each-insert_inv k s ((j, t) ∷ m) h all = elim (Bool-cases (nat_beq j k)) [
    | inl e ↦ absurd (ground arith)
    | inr e ↦
        let all' : P t × Each P (insert k s m) = rw e at all in
        let (good, rest) = Each-insert_inv k s m (ground arith) all'.1 in (good, (all'.0, rest))
  ]

  Each-add_all_inv :
      (ts m : Multi) {t : Multi} → add_all ts m ≡ ok t → Each P t → Each P ts × Each P m
  unfolding add_all
  Each-add_all_inv ts [] {t} h all = let e : ts ≡ t = ground arith in ((rw e all), tt)
  Each-add_all_inv ts ((k, s) ∷ m) {t} h all = elim (Bool-cases (contains k ts)) [
    | inl e ↦ absurd (ground arith)
    | inr e ↦
        let (first, rest) = Each-add_all_inv (insert k s ts) m {t = t} (ground arith) all in
        let (good, old) = Each-insert_inv k s ts e first in (old, (good, rest))
  ]

  -- What holds of all signatures of a combination holds of those that were combined.
  abbrev pub EachOf : QuorumSignature → Type 0
  EachOf none = Unit {0}
  EachOf (some m) = Each P m

  pub Each-combine_into_inv :
      (ts : Multi) (sigs : List QuorumSignature) {t : Multi}
      → combine_into ts sigs ≡ ok (some t)
      → Each P t
      → Each P ts × All EachOf sigs
  unfolding combine_into
  Each-combine_into_inv ts [] {t} h all = let e : ts ≡ t = ground arith in ((rw e all), tt)
  Each-combine_into_inv ts (none ∷ sigs) h all = cc
  Each-combine_into_inv ts (some m ∷ sigs) {t} h all =
      let (t', e, rest) = >>=-eq-ok (add_all ts m) (λ t. combine_into t sigs) h in
      let (first, others) = Each-combine_into_inv t' sigs {t = t} rest all in
      let (old, these) = Each-add_all_inv ts m {t = t'} e first in (old, (these, others))

-- A vote with a signature, which verified for some block.
abbrev pub Present : PartialCert → Type 0
Present pc = (m : Multi) × (pc.signature ≡ some m) × (0 < length m)

covered-VotesFor :
    (c : Crypto) (b : Block) (bytes : Bytes) (votes : List PartialCert)
    → block_to_bytes b ≡ ok bytes
    → All Present votes
    → All (EachOf (IsSigned c (c.prims.sha256 bytes))) (cert_signatures votes)
    → VotesFor c b votes
unfolding verify_partial_cert
covered-VotesFor c b bytes [] e there all = tt
covered-VotesFor c b bytes (pc ∷ votes) e there all =
    let (m, em, pos) = there.0 in
    let signed : EachOf (IsSigned c (c.prims.sha256 bytes)) (some m) = rw em at all.0 in
    let valid : verify c pc.signature bytes ≡ ok true =
      rw em (AllSigned-verify c m bytes pos signed) in
    (rw (e, valid) refl, covered-VotesFor c b bytes votes e there.1 all.1)

-- A certificate that `CreateQuorumCert` makes of a quorum of votes, none without a signature, for a
-- block other than genesis, verifies for the block if and only if every one of the votes does.
pub create_quorum_cert-verify_iff :
    (c : Crypto) (b : Block) (bytes : Bytes) (votes : List PartialCert) (qc : QuorumCert)
    → block_to_bytes b ≡ ok bytes
    → All Present votes
    → c.quorum_size ≤ length votes
    → b.hash ≢ genesis_hash c
    → create_quorum_cert c b votes ≡ ok qc
    → (verify_quorum_cert c b qc ≡ ok true) ↔ VotesFor c b votes
create_quorum_cert-verify_iff c b bytes votes qc e there quorum ne made =
    let (comb, view, hash) = create_quorum_cert-inv c b votes {qc = qc} made ne in
    let (t, et, went, two) = combine-inv (cert_signatures votes) comb in
    let differs : qc.hash ≢ genesis_hash c = λ same. ne (sym hash ∙ same) in
    (
      λ valid.
          let (m, bytes', em, eb, size, all) = verify_quorum_cert-quorum c b qc valid differs in
          let same : bytes' ≡ bytes = ground arith in
          let one : m ≡ t = ground arith in
          let signed : AllSigned c (c.prims.sha256 bytes) t = rw (same, one) at all in
          covered-VotesFor c b bytes votes e there
            (Each-combine_into_inv (IsSigned c (c.prims.sha256 bytes)) [] (cert_signatures votes)
              {t = t} went signed).1,
      λ votes_for. (create_quorum_cert-verify c b bytes votes qc e votes_for quorum ne made).0,
    )
