-- ===== src/Consensus/Phases/Forging.antt =====
-- A certificate with another view and hash in it, and what it makes a replica do.
use basic_hotstuff.Prelude.{
  Result, ◌>>=◌, if◌then◌else◌, >>=-eq-ok, Bool-cases, sym, suc, inl, inr, ◌≤◌, ◌≡◌, ◌≢◌, refl, ◌∙◌,
  ap, suc, Option, none, some, true, false, not, ok, arith, inl, inr, bytes_eq, Yields, Yields-ok,
  Yields-if, Yields-bind, ltb, nat_beq, Ends-ok,
}
use basic_hotstuff.Types.{PartialCert, View, Hash, QuorumCert}
use basic_hotstuff.Block.{Block}
use basic_hotstuff.BlockChain.{get}
use basic_hotstuff.Proto.{Msg, MessageType, QuorumCertPb}
use basic_hotstuff.Convert.{
  partial_cert_to_proto, block_from_proto, quorum_cert_from_proto, copy_into,
}
use basic_hotstuff.Crypto.{verify_quorum_cert, genesis_hash}
use basic_hotstuff.Crypto.Forging.{verify_quorum_cert-altered}
use basic_hotstuff.Consensus.State.{
  Context, HotStuff, Rpc, safe_node, matching_msg, get_leader_id, lock, unlock, sign_block,
  send_to_leader,
}
use basic_hotstuff.Consensus.Frame.{sign_block-draws}
use basic_hotstuff.Consensus.Phases.{
  read_cert, on_receive_commit, on_receive_prepare, keep_pre_commit_qc, with_lock, send_vote,
  start_timer, block_msg,
}
use basic_hotstuff.NodeManager.{is_fault_node}
use basic_hotstuff.Consensus.Phases.Quorum.{Accepted, read_cert-Accepted}

-- The message with another view and hash in its certificate.
abbrev pub altered : Msg → QuorumCertPb → View → Hash → Msg
altered msg pb v h = record msg { qc = some (record pb { view = v; hash = h }) }

-- A certificate that is accepted is the message's.
abbrev FromMessage : Msg → Option (Block × QuorumCert) → Type 0
FromMessage msg none = Unit {0}
FromMessage msg (some (b, qc)) = qc ≡ quorum_cert_from_proto msg.qc

read_cert-FromMessage :
    (c : Context) (msg : Msg) (pb : QuorumCertPb) (hs : HotStuff)
    → msg.qc ≡ some pb
    → Yields (FromMessage msg) (read_cert c msg hs)
unfolding read_cert
read_cert-FromMessage c msg pb hs e = rw e (
    Yields-bind (block_from_proto c.crypto.prims hs.now msg.block) _ λ b eb.
      Yields-bind (verify_quorum_cert c.crypto b (quorum_cert_from_proto (some pb))) _ λ valid ev.
        Yields-if (not valid) _ _ (λ no. Yields-ok none tt)
          λ yes.
            Yields-if (not (nat_beq (get_leader_id c hs) b.proposer)) _ _ (λ no. Yields-ok none tt)
              λ leads. Yields-ok (some (b, quorum_cert_from_proto (some pb))) refl)

altered-read :
    (c : Context) (msg : Msg) (pb : QuorumCertPb) (v : View) (h : Hash) (hs : HotStuff) (b : Block)
    (qc : QuorumCert)
    → msg.qc ≡ some pb
    → read_cert c msg hs ≡ ok (some (b, qc))
    → qc.hash ≢ genesis_hash c.crypto
    → copy_into 32 h ≢ genesis_hash c.crypto
    → read_cert c (altered msg pb v h) hs
      ≡ ok (some (b, record qc { view = v; hash = copy_into 32 h }))
unfolding read_cert quorum_cert_from_proto
altered-read c msg pb v h hs b qc e read ne ne' =
    let (valid, from, leader, keyed) =
      Ends-ok (Accepted c msg hs) (read_cert c msg hs) (some (b, qc)) (read_cert-Accepted c msg hs)
        read in
    let sent : qc ≡ quorum_cert_from_proto msg.qc =
      (read_cert-FromMessage c msg pb hs e).at (some (b, qc)) read in
    let same : quorum_cert_from_proto (some (record pb { view = v; hash = h }))
        ≡ record qc { view = v; hash = copy_into 32 h } =
      rw (sent, e) refl in
    let accepted = verify_quorum_cert-altered c.crypto b qc v (copy_into 32 h) valid ne ne' in
    let leads : nat_beq (get_leader_id c hs) b.proposer ≡ true = ground arith in
    rw (from, same, accepted, leads) refl

-- A replica that holds a lock of a view, on a block that it does not have, votes for no block of
-- that view or of an earlier one.
locked_out :
    (b : Block) (t : HotStuff)
    → b.view ≤ t.pre_commit_qc.view
    → get t.pre_commit_qc.hash t.block_chain ≡ none
    → safe_node b t ≡ ok false
unfolding safe_node
locked_out b t le missing =
    let low : ltb t.pre_commit_qc.view b.view ≡ false = ground arith in rw (low, missing) refl

-- The rest of a commit vote, once its block is signed or not.
abbrev then_lock :
    Context → Msg → Block → QuorumCert → Option PartialCert → HotStuff → Result HotStuff
then_lock c msg b qc pc hs = elim pc [
  | none ↦ ok hs
  | some cert ↦
      send_to_leader c Rpc.commit_vote
        (block_msg c MessageType.commit_vote msg.block
          (if is_fault_node c.node_manager then none else some (partial_cert_to_proto cert)) none
          hs)
        hs
      >>= λ s. with_lock (keep_pre_commit_qc b qc) (start_timer s)
]

then_lock-locks :
    (c : Context) (msg : Msg) (b : Block) (qc other : QuorumCert) (pc : Option PartialCert)
    (hs s : HotStuff)
    → then_lock c msg b qc pc hs ≡ ok s
    → s.pre_commit_qc ≢ hs.pre_commit_qc
    → then_lock c msg b other pc hs ≡ ok (record s { pre_commit_qc = other })
unfolding unlock
then_lock-locks c msg b qc other none hs s run moved =
    let same : hs ≡ s = ground arith in absurd (moved (ap (λ t. t.pre_commit_qc) (sym same)))
then_lock-locks c msg b qc other (some cert) hs s run moved =
    let (t, et, rest) = >>=-eq-ok (send_to_leader c Rpc.commit_vote _ hs) _ run in
    let (u, eu, done) = >>=-eq-ok (lock (start_timer t)) _ rest in rw (et, eu) (ground arith)

-- Where a replica locks a certificate, it locks any other in the same way.
send_vote-locks :
    (c : Context) (msg : Msg) (b : Block) (qc other : QuorumCert) (hs s : HotStuff)
    → send_vote c Rpc.commit_vote MessageType.commit_vote msg b
        (with_lock (keep_pre_commit_qc b qc))
        hs
      ≡ ok s
    → s.pre_commit_qc ≢ hs.pre_commit_qc
    → send_vote c Rpc.commit_vote MessageType.commit_vote msg b
        (with_lock (keep_pre_commit_qc b other))
        hs
      ≡ ok (record s { pre_commit_qc = other })
unfolding send_vote
send_vote-locks c msg b qc other hs s run moved =
    let ((pc, hs1), er, rest) = >>=-eq-ok (sign_block c b hs) _ run in
    let drawn : hs1 ≡ record hs { entropy = suc hs.entropy } =
      Ends-ok _ (sign_block c b hs) (pc, hs1) (sign_block-draws c b hs) er in
    rw er (
      then_lock-locks c msg b qc other pc hs1 s rest
        (λ same. moved (same ∙ ap (λ t. t.pre_commit_qc) drawn)))

on_receive_commit-locks :
    (c : Context) (msg : Msg) (pb : QuorumCertPb) (v : View) (h : Hash) (hs s : HotStuff)
    (b : Block) (qc other : QuorumCert)
    → read_cert c msg hs ≡ ok (some (b, qc))
    → read_cert c (altered msg pb v h) hs ≡ ok (some (b, other))
    → on_receive_commit c msg hs ≡ ok s
    → s.pre_commit_qc ≢ hs.pre_commit_qc
    → on_receive_commit c (altered msg pb v h) hs ≡ ok (record s { pre_commit_qc = other })
unfolding on_receive_commit matching_msg
on_receive_commit-locks c msg pb v h hs s b qc other read accepted run moved =
    elim (Bool-cases (matching_msg msg MessageType.commit hs)) [
      | inl matches ↦
          let run' = rw (matches, read) at run in
          rw (matches, accepted) (send_vote-locks c msg b qc other hs s run' moved)
      | inr differs ↦
          let quiet : Path (Result HotStuff) (ok hs) (ok s) = rw differs at run in
          let same : hs ≡ s = ground arith in absurd (moved (ap (λ t. t.pre_commit_qc) (sym same)))
    ]

-- `OnReceivePrepare` for a block that is not safe changes nothing.
unsafe-ignored :
    (c : Context) (msg : Msg) (t : HotStuff) (b : Block)
    → block_from_proto c.crypto.prims t.now msg.block ≡ ok b
    → safe_node b t ≡ ok false
    → on_receive_prepare c msg t ≡ ok t
unfolding on_receive_prepare
unsafe-ignored c msg t b eb unsafe = rw (eb, unsafe) (ground arith)

-- A Commit message moves a replica's lock to its certificate, which does not name the genesis hash.
-- Sent with any other view and hash in the certificate instead, but not the genesis hash, the message
-- is accepted too, and the replica does the same but for the lock, which has that view and hash.
-- While the lock is that, and no block with that hash is stored, a Prepare message for a block of that
-- view or an earlier one changes nothing: the replica does not vote.
pub forged_lock :
    (c : Context) (msg prepare : Msg) (pb : QuorumCertPb) (v : View) (h : Hash) (b p : Block)
    (qc : QuorumCert) (hs s t : HotStuff)
    → msg.qc ≡ some pb
    → read_cert c msg hs ≡ ok (some (b, qc))
    → qc.hash ≢ genesis_hash c.crypto
    → copy_into 32 h ≢ genesis_hash c.crypto
    → on_receive_commit c msg hs ≡ ok s
    → s.pre_commit_qc ≢ hs.pre_commit_qc
    → t.pre_commit_qc ≡ record qc { view = v; hash = copy_into 32 h }
    → get (copy_into 32 h) t.block_chain ≡ none
    → block_from_proto c.crypto.prims t.now prepare.block ≡ ok p
    → p.view ≤ v
    → (read_cert c (altered msg pb v h) hs
        ≡ ok (some (b, record qc { view = v; hash = copy_into 32 h })))
      × (on_receive_commit c (altered msg pb v h) hs
          ≡ ok (record s { pre_commit_qc = record qc { view = v; hash = copy_into 32 h } }))
      × (on_receive_prepare c prepare t ≡ ok t)
forged_lock c msg prepare pb v h b p qc hs s t e read ne ne' run moved locked missing ep low =
    let forged = record qc { view = v; hash = copy_into 32 h } in
    let accepted = altered-read c msg pb v h hs b qc e read ne ne' in
    let unsafe =
      locked_out p t (rw (ap (λ q. q.view) locked) low) (rw (ap (λ q. q.hash) locked) missing) in
    (
      accepted,
      on_receive_commit-locks c msg pb v h hs s b qc forged read accepted run moved,
      unsafe-ignored c prepare t p ep unsafe,
    )
