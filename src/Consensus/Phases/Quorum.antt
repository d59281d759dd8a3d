-- ===== src/Consensus/Phases/Quorum.antt =====
-- What the certificates that a replica accepts and makes are worth.
use basic_hotstuff.Prelude.{
  ℕ, ◌≤◌, ◌≡◌, ◌≢◌, refl, Option, none, some, true, not, Bytes, Result, ok, err, panic, hang,
  out_of_fuel, arith, attempt, ltb, nat_beq, length, inl, inr, ◌⊎◌, List, ◌∷◌, Ends, Ends->>=, suc,
  from_option, Ends->>=_eq, Ends-if_eq, Ends-option, Ends-ok, eq→bytes_beq, bytes_eq, ltb→le,
}
use basic_hotstuff.Types.{Multi, PartialCert, QuorumCert}
use basic_hotstuff.Block.{Block, block_to_bytes}
use basic_hotstuff.Proto.{Msg, MessageType, QuorumCertPb}
use basic_hotstuff.Convert.{block_from_proto, quorum_cert_from_proto, quorum_cert_to_proto}
use basic_hotstuff.Convert.RoundTrip.{IsKeyed, IsKeyedSignature}
use basic_hotstuff.Convert.Intersection.{quorum_cert_from_proto-IsKeyed}
use basic_hotstuff.Crypto.{create_quorum_cert, verify_quorum_cert, genesis_hash, cert_signatures}
use basic_hotstuff.Crypto.Combining.{occurs_in}
use basic_hotstuff.Crypto.Verifying.{AllSigned, verify_quorum_cert-quorum}
use basic_hotstuff.Crypto.Signing.{
  VotesFor, create_quorum_cert-verify, create_quorum_cert-duplicate,
}
use basic_hotstuff.NodeManager.{is_fault_node}
use basic_hotstuff.Consensus.State.{
  Context, HotStuff, Rpc, multicast, get_leader_id, send_to_all, sign_block, vote_if_signed,
}
use basic_hotstuff.Consensus.Settling.{
  Settles-Ends, Settles-attempt, block_from_proto-Settles, verify_quorum_cert-Settles,
  create_quorum_cert-Settles,
}
use basic_hotstuff.Consensus.Frame.{send_to_all-sent, sign_block-draws, vote_if_signed-keeps}
use basic_hotstuff.Consensus.Phases.{
  read_cert, votes_with, add_prepare_vote, count_prepare_vote, prepared, block_msg,
}

-- What `read_cert` gives for a message that it accepts.
abbrev pub Accepted : Context → Msg → HotStuff → Option (Block × QuorumCert) → Type 0
Accepted c msg hs none = Unit {0}
Accepted c msg hs (some (b, qc)) =
    (verify_quorum_cert c.crypto b qc ≡ ok true)
    × (block_from_proto c.crypto.prims hs.now msg.block ≡ ok b)
    × (b.proposer ≡ get_leader_id c hs)
    × IsKeyedSignature qc.signature

pub read_cert-Accepted :
    (c : Context) (msg : Msg) (hs : HotStuff) → Ends (Accepted c msg hs) (read_cert c msg hs)
unfolding read_cert
read_cert-Accepted c msg hs = Ends-option (Accepted c msg hs) msg.qc _ _ tt λ pb.
    let qc = quorum_cert_from_proto (some pb) in
    Ends->>=_eq (Accepted c msg hs) (block_from_proto c.crypto.prims hs.now msg.block) _
      (Settles-Ends _ (block_from_proto-Settles c.crypto.prims hs.now msg.block))
      λ block eb.
        Ends->>=_eq (Accepted c msg hs) (verify_quorum_cert c.crypto block qc) _
          (Settles-Ends _ (verify_quorum_cert-Settles c.crypto block qc))
          λ valid ev.
            Ends-if_eq (Accepted c msg hs) (not valid) _ _ (λ e. tt)
              λ e.
                Ends-if_eq (Accepted c msg hs) (not (nat_beq (get_leader_id c hs) block.proposer)) _
                  _ (λ e'. tt)
                  (λ e'. (ground arith, eb, ground arith, quorum_cert_from_proto-IsKeyed pb))

-- A certificate that `read_cert` accepts with a PreCommit, Commit or Decide message, if its hash is
-- not the genesis block's, holds valid signatures over the bytes of the message's block, each under
-- its own signer's id, the ids all different and at least a quorum; and the leader of the replica's
-- view proposed the block.
pub read_cert-quorum :
    (c : Context) (msg : Msg) (hs : HotStuff) (b : Block) (qc : QuorumCert)
    → read_cert c msg hs ≡ ok (some (b, qc))
    → qc.hash ≢ genesis_hash c.crypto
    → (m : Multi) × (bytes : Bytes) × (qc.signature ≡ some m)
      × (block_to_bytes b ≡ ok bytes)
      × (c.crypto.quorum_size ≤ length m)
      × IsKeyed m
      × AllSigned c.crypto (c.crypto.prims.sha256 bytes) m
      × (block_from_proto c.crypto.prims hs.now msg.block ≡ ok b)
      × (b.proposer ≡ get_leader_id c hs)
read_cert-quorum c msg hs b qc h ne =
    let (valid, from, leader, keyed) =
      Ends-ok (Accepted c msg hs) (read_cert c msg hs) (some (b, qc)) (read_cert-Accepted c msg hs)
        h in
    let (m, bytes, em, eb, size, all) = verify_quorum_cert-quorum c.crypto b qc valid ne in
    (m, bytes, em, eb, size, rw em at keyed, all, from, leader)

-- The certificate of a message that names the genesis hash is accepted, whatever signatures it holds,
-- if the message's block can be read and the leader of the view proposed it.
pub read_cert-genesis :
    (c : Context) (msg : Msg) (hs : HotStuff) (pb : QuorumCertPb) (b : Block)
    → msg.qc ≡ some pb
    → (quorum_cert_from_proto (some pb)).hash ≡ genesis_hash c.crypto
    → block_from_proto c.crypto.prims hs.now msg.block ≡ ok b
    → b.proposer ≡ get_leader_id c hs
    → read_cert c msg hs ≡ ok (some (b, quorum_cert_from_proto (some pb)))
unfolding read_cert verify_quorum_cert
read_cert-genesis c msg hs pb b eq eh eb el = rw (eq, eb) (ground (arith, eq→bytes_beq _ _ eh))

-- The leader keeps the certificate that it has and sends nothing, or it has a quorum of votes for
-- the hash, keeps the certificate that `CreateQuorumCert` makes of them, and multicasts that one.
abbrev pub Counted : Context → Msg → Block → List PartialCert → HotStuff → HotStuff → Type 0
Counted c msg b votes hs s =
    ((s.prepare_qc ≡ hs.prepare_qc) × (s.sent ≡ hs.sent))
    ⊎ ((c.node_manager.quorum_size ≤ length votes)
        × (create_quorum_cert c.crypto b votes ≡ ok s.prepare_qc)
        × (s.sent
            ≡ multicast Rpc.pre_commit (
                block_msg c MessageType.pre_commit msg.block none
                  (some (quorum_cert_to_proto s.prepare_qc)) hs)
              ∷ hs.sent))

attempt-ok : (r : Result QuorumCert) (qc : QuorumCert) → attempt r ≡ ok (some qc) → r ≡ ok qc
attempt-ok (ok a) qc h = cc
attempt-ok (err e) qc h = cc
attempt-ok panic qc h = cc
attempt-ok hang qc h = cc
attempt-ok out_of_fuel qc h = cc

prepared-Counted :
    (c : Context) (msg : Msg) (b : Block) (pc : PartialCert) (qc : QuorumCert)
    (votes : List PartialCert) (hs hs1 : HotStuff)
    → c.node_manager.quorum_size ≤ length votes
    → create_quorum_cert c.crypto b votes ≡ ok qc
    → hs1.sent ≡ hs.sent
    → hs1.current_view ≡ hs.current_view
    → Ends (Counted c msg b votes hs) (prepared c msg b pc qc hs1)
unfolding prepared
prepared-Counted c msg b pc qc votes hs hs1 quorum made sent view =
    Ends->>= _ (Counted c msg b votes hs) (send_to_all c Rpc.pre_commit _ _) _
      (send_to_all-sent c Rpc.pre_commit _ _)
      λ s1 e1.
        Ends->>=
          (λ (r : Option PartialCert × HotStuff). r.1 ≡ record s1 { entropy = suc s1.entropy })
          (Counted c msg b votes hs) (sign_block c b s1) _ (sign_block-draws c b s1)
          λ r e2.
            let (keeps, _, said) = vote_if_signed-keeps c r.0 MessageType.pre_commit_vote r.1 in
            let same : (vote_if_signed c r.0 MessageType.pre_commit_vote r.1).prepare_qc ≡ qc =
              ground arith in
            inr (quorum, rw same made, rw same (ground arith))

-- Where counting a prepare vote returns, which needs no fuel, the leader kept its prepare
-- certificate and sent nothing; or the votes for the hash, this one included, are a quorum, the new
-- prepare certificate is what `CreateQuorumCert` makes of them, and a PreCommit message with it is
-- all that was sent.
pub count_prepare_vote-Counted :
    (c : Context) (msg : Msg) (b : Block) (pc : PartialCert) (hs : HotStuff)
    → Ends
        (Counted c msg b (votes_with pc hs.verified_prepare_votes) hs)
        (count_prepare_vote c msg b pc hs)
unfolding count_prepare_vote
count_prepare_vote-Counted c msg b pc hs =
    let votes = votes_with pc hs.verified_prepare_votes in
    let hs1 = add_prepare_vote b pc hs in
    Ends-if_eq (Counted c msg b votes hs) (ltb (length votes) c.node_manager.quorum_size) _ _
      (λ few. inl (refl, refl))
      λ enough.
        Ends-if_eq (Counted c msg b votes hs) (is_fault_node c.node_manager) _ _
          (λ fault. inl (refl, refl))
          λ honest.
            Ends->>=_eq (Counted c msg b votes hs) (attempt (create_quorum_cert c.crypto b votes)) _
              (Settles-Ends _ (Settles-attempt _ (create_quorum_cert-Settles c.crypto b votes)))
              λ made e. go made e (ltb→le _ _ enough)
  where
    go :
        (made : Option QuorumCert)
        → attempt (create_quorum_cert c.crypto b (votes_with pc hs.verified_prepare_votes))
          ≡ ok made
        → c.node_manager.quorum_size ≤ length (votes_with pc hs.verified_prepare_votes)
        → Ends (Counted c msg b (votes_with pc hs.verified_prepare_votes) hs) (
            from_option made
              (ok (add_prepare_vote b pc hs))
              (λ qc. prepared c msg b pc qc (add_prepare_vote b pc hs)))
    go none e quorum = inl (refl, refl)
    go (some qc) e quorum =
        prepared-Counted c msg b pc qc (votes_with pc hs.verified_prepare_votes) hs
          (add_prepare_vote b pc hs) quorum
          (attempt-ok (create_quorum_cert c.crypto b (votes_with pc hs.verified_prepare_votes)) qc
            e)
          refl refl

-- If the votes for the hash of a block other than genesis, the new one included, verify for that
-- block, and the two quorum sizes of the program agree, then where counting the new vote sends
-- something, the prepare certificate verifies for the block and has its view and hash.
pub prepare_qc-verify :
    (c : Context) (msg : Msg) (b : Block) (bytes : Bytes) (pc : PartialCert) (hs s : HotStuff)
    → count_prepare_vote c msg b pc hs ≡ ok s
    → block_to_bytes b ≡ ok bytes
    → VotesFor c.crypto b (votes_with pc hs.verified_prepare_votes)
    → c.crypto.quorum_size ≡ c.node_manager.quorum_size
    → b.hash ≢ genesis_hash c.crypto
    → (s.sent ≢ hs.sent)
    → (verify_quorum_cert c.crypto b s.prepare_qc ≡ ok true)
      × (s.prepare_qc.view ≡ b.view)
      × (s.prepare_qc.hash ≡ b.hash)
prepare_qc-verify c msg b bytes pc hs s h eb votes sizes ne said =
    elim (Ends-ok _ _ s (count_prepare_vote-Counted c msg b pc hs) h) [
      | inl (_, quiet) ↦ absurd (said quiet)
      | inr (quorum, made, _) ↦
          create_quorum_cert-verify c.crypto b bytes (votes_with pc hs.verified_prepare_votes)
            s.prepare_qc eb votes (omega arith) ne made
    ]

-- Once one id signs twice in the votes for the hash of a block other than genesis, the next vote
-- for it, where counting returns, makes no certificate: the prepare certificate is as before, and
-- nothing is sent.
pub duplicate_vote_blocks :
    (c : Context) (msg : Msg) (b : Block) (pc : PartialCert) (id : ℕ) (hs s : HotStuff)
    → 2 ≤ occurs_in id (cert_signatures (votes_with pc hs.verified_prepare_votes))
    → b.hash ≢ genesis_hash c.crypto
    → count_prepare_vote c msg b pc hs ≡ ok s
    → (s.prepare_qc ≡ hs.prepare_qc) × (s.sent ≡ hs.sent)
duplicate_vote_blocks c msg b pc id hs s twice ne h =
    elim (Ends-ok _ _ s (count_prepare_vote-Counted c msg b pc hs) h) [
      | inl quiet ↦ quiet
      | inr (_, made, _) ↦ absurd (
          create_quorum_cert-duplicate c.crypto b (votes_with pc hs.verified_prepare_votes) id
            s.prepare_qc twice ne made)
    ]
