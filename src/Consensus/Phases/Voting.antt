-- ===== src/Consensus/Phases/Voting.antt =====
-- What the handlers of the three phases leave alone.
use basic_hotstuff.Prelude.{
  Option, some, Bool, not, Result, ok, arith, Ends, Ends->>=, attempt, ltb, nat_beq, length,
  is_none, Map, Ends-if, Ends-option, flag, bytes_eq,
}
use basic_hotstuff.Types.{PartialCert, QuorumCert, Hash}
use basic_hotstuff.Block.{Block}
use basic_hotstuff.Crypto.{create_quorum_cert, verify_partial_cert, verify_quorum_cert}
use basic_hotstuff.Proto.{Msg, MessageType}
use basic_hotstuff.Convert.{block_from_proto, partial_cert_from_proto, quorum_cert_from_proto}
use basic_hotstuff.NodeManager.{is_fault_node}
use basic_hotstuff.Consensus.State.{
  Context, HotStuff, Rpc, get_leader_id, send_to_leader, send_to_all, sign_block, matching_msg,
  safe_node,
}
use basic_hotstuff.Consensus.Settling.{
  Settles-Ends, Settles-attempt, block_from_proto-Settles, partial_cert_from_proto-Settles,
  create_quorum_cert-Settles, verify_partial_cert-Settles, verify_quorum_cert-Settles,
}
use basic_hotstuff.Consensus.Phases.{
  start_timer, send_vote, read_vote, read_cert, votes_with, on_receive_prepare, count_prepare_vote,
  prepared, on_receive_prepare_vote, on_receive_pre_commit, pre_committed, count_pre_commit_vote,
  on_receive_pre_commit_vote, on_receive_commit, add_prepare_vote, add_pre_commit_vote,
  keep_prepare_qc, keep_pre_commit_qc,
}
use basic_hotstuff.Consensus.Frame.{
  SameCore, SameCore-refl, Ends-core, sign_block-core, vote_if_signed-core, safe_node-Settles,
  send_to_all-core, send_to_leader-core, with_lock-core,
}

send_vote-core :
    (c : Context) (rpc : Rpc) (type : MessageType) (msg : Msg) (b : Block)
    (after : HotStuff → Result HotStuff) (hs : HotStuff)
    → ((s : HotStuff) → Ends (SameCore s) (after s))
    → Ends (SameCore hs) (send_vote c rpc type msg b after hs)
unfolding send_vote
send_vote-core c rpc type msg b after hs h =
    Ends->>= (λ (r : Option PartialCert × HotStuff). SameCore hs r.1) (SameCore hs)
      (sign_block c b hs) _ (sign_block-core c b hs)
      λ r same. Ends-option (SameCore hs) r.0 _ _ same λ cert.
        Ends->>= (SameCore r.1) (SameCore hs) (send_to_leader c rpc _ r.1) _
          (send_to_leader-core c rpc _ r.1)
          λ s same'. Ends-core hs (start_timer s) _ (ground arith) (h (start_timer s))

-- `OnReceivePrepare` leaves the view, the executed commands, the stored blocks, the kept messages
-- and the mutex as they were.
pub on_receive_prepare-core :
    (c : Context) (msg : Msg) (hs : HotStuff) → Ends (SameCore hs) (on_receive_prepare c msg hs)
unfolding on_receive_prepare
on_receive_prepare-core c msg hs =
    Ends-if (SameCore hs) (not (matching_msg msg MessageType.prepare hs)) _ _ (SameCore-refl hs) (
      Ends->>= (λ b. Unit) (SameCore hs) (block_from_proto c.crypto.prims hs.now msg.block) _
        (Settles-Ends _ (block_from_proto-Settles c.crypto.prims hs.now msg.block))
        λ block _. Ends-if (SameCore hs) (is_none msg.qc) _ _ (SameCore-refl hs) (
          Ends-if (SameCore hs) (not (nat_beq (get_leader_id c hs) block.proposer)) _ _
            (SameCore-refl hs)
            (Ends->>= (λ b. Unit) (SameCore hs) (safe_node block hs) _
              (Settles-Ends _ (safe_node-Settles block hs))
              λ safe _. Ends-if (SameCore hs) (not safe) _ _ (SameCore-refl hs) (
                Ends-core hs (record hs { current_block = some block }) _ (ground arith)
                  (send_vote-core c Rpc.prepare_vote MessageType.prepare_vote msg block ok
                    (record hs { current_block = some block }) (λ s. SameCore-refl s))))))

pub read_vote-Settles :
    (c : Context) (msg : Msg) (finished : HotStuff → Map Hash Bool) (hs : HotStuff)
    → Ends (λ v. Unit) (read_vote c msg finished hs)
unfolding read_vote
read_vote-Settles c msg finished hs =
    Ends-option (λ v. Unit) msg.partial_cert _ _ tt
      λ pb.
        Ends->>= (λ b. Unit) (λ v. Unit) (partial_cert_from_proto pb) _
          (Settles-Ends _ (partial_cert_from_proto-Settles pb))
          λ pc _.
            Ends->>= (λ b. Unit) (λ v. Unit) (block_from_proto c.crypto.prims hs.now msg.block) _
              (Settles-Ends _ (block_from_proto-Settles c.crypto.prims hs.now msg.block))
              λ block _.
                Ends-if (λ v. Unit) (flag pc.block_hash (finished hs)) _ _ tt
                  (Ends->>= (λ b. Unit) (λ v. Unit) (verify_partial_cert c.crypto block pc) _
                    (Settles-Ends _ (verify_partial_cert-Settles c.crypto block pc)) λ valid _. tt)

pub read_cert-Settles :
    (c : Context) (msg : Msg) (hs : HotStuff) → Ends (λ v. Unit) (read_cert c msg hs)
unfolding read_cert
read_cert-Settles c msg hs =
    Ends-option (λ v. Unit) msg.qc _ _ tt
      λ pb.
        Ends->>= (λ b. Unit) (λ v. Unit) (block_from_proto c.crypto.prims hs.now msg.block) _
          (Settles-Ends _ (block_from_proto-Settles c.crypto.prims hs.now msg.block))
          λ block _.
            Ends->>= (λ b. Unit) (λ v. Unit)
              (verify_quorum_cert c.crypto block (quorum_cert_from_proto (some pb))) _
              (Settles-Ends _
                (verify_quorum_cert-Settles c.crypto block (quorum_cert_from_proto (some pb))))
              λ valid _.
                Ends-if (λ v. Unit) (not valid) _ _ tt
                  (Ends-if (λ v. Unit) (not (nat_beq (get_leader_id c hs) block.proposer)) _ _ tt
                    tt)

prepared-core :
    (c : Context) (msg : Msg) (b : Block) (pc : PartialCert) (qc : QuorumCert) (hs : HotStuff)
    → Ends (SameCore hs) (prepared c msg b pc qc hs)
unfolding prepared
prepared-core c msg b pc qc hs =
    Ends->>= (SameCore hs) (SameCore hs) (send_to_all c Rpc.pre_commit _ _) _
      (Ends-core hs _ _ (ground arith) (send_to_all-core c Rpc.pre_commit _ _))
      λ s same.
        Ends->>= (λ (r : Option PartialCert × HotStuff). SameCore s r.1) (SameCore hs)
          (sign_block c b s) _ (sign_block-core c b s)
          λ r same'. ground (arith, vote_if_signed-core c r.0 MessageType.pre_commit_vote r.1)

count_prepare_vote-core :
    (c : Context) (msg : Msg) (b : Block) (pc : PartialCert) (hs : HotStuff)
    → Ends (SameCore hs) (count_prepare_vote c msg b pc hs)
unfolding count_prepare_vote
count_prepare_vote-core c msg b pc hs =
    let votes = votes_with pc hs.verified_prepare_votes in
    Ends-if (SameCore hs) (ltb (length votes) c.node_manager.quorum_size) _ _ (ground arith) (
      Ends-if (SameCore hs) (is_fault_node c.node_manager) _ _ (ground arith) (
        Ends->>= (λ q. Unit) (SameCore hs) (attempt (create_quorum_cert c.crypto b votes)) _
          (Settles-Ends _ (Settles-attempt _ (create_quorum_cert-Settles c.crypto b votes)))
          λ made _. Ends-option (SameCore hs) made _ _ (ground arith) λ qc.
            Ends-core hs (add_prepare_vote b pc hs) _ (ground arith)
              (prepared-core c msg b pc qc (add_prepare_vote b pc hs))))

pub on_receive_prepare_vote-core :
    (c : Context) (msg : Msg) (hs : HotStuff)
    → Ends (SameCore hs) (on_receive_prepare_vote c msg hs)
unfolding on_receive_prepare_vote
on_receive_prepare_vote-core c msg hs =
    Ends-if (SameCore hs) (not (matching_msg msg MessageType.prepare_vote hs)) _ _
      (SameCore-refl hs)
      (Ends->>= (λ v. Unit) (SameCore hs) (read_vote c msg (λ s. s.finished_prepare_votes) hs) _
        (read_vote-Settles c msg (λ s. s.finished_prepare_votes) hs)
        λ vote _. Ends-option (SameCore hs) vote _ _ (SameCore-refl hs) λ v.
          with_lock-core (count_prepare_vote c msg v.0 v.1) hs
            (λ s. count_prepare_vote-core c msg v.0 v.1 s))

pub on_receive_pre_commit-core :
    (c : Context) (msg : Msg) (hs : HotStuff) → Ends (SameCore hs) (on_receive_pre_commit c msg hs)
unfolding on_receive_pre_commit
on_receive_pre_commit-core c msg hs =
    Ends-if (SameCore hs) (not (matching_msg msg MessageType.pre_commit hs)) _ _ (SameCore-refl hs)
      (Ends->>= (λ v. Unit) (SameCore hs) (read_cert c msg hs) _ (read_cert-Settles c msg hs)
        λ cert _. Ends-option (SameCore hs) cert _ _ (SameCore-refl hs) λ v.
          send_vote-core c Rpc.pre_commit_vote MessageType.pre_commit_vote msg v.0 _ hs
            λ s. with_lock-core (keep_prepare_qc v.0 v.1) s (λ s'. ground arith))

pre_committed-core :
    (c : Context) (msg : Msg) (b : Block) (pc : PartialCert) (qc : QuorumCert) (hs : HotStuff)
    → Ends (SameCore hs) (pre_committed c msg b pc qc hs)
unfolding pre_committed
pre_committed-core c msg b pc qc hs =
    Ends->>= (SameCore hs) (SameCore hs) (send_to_all c Rpc.commit _ _) _
      (Ends-core hs _ _ (ground arith) (send_to_all-core c Rpc.commit _ _))
      λ s same.
        Ends->>= (λ (r : Option PartialCert × HotStuff). SameCore s r.1) (SameCore hs)
          (sign_block c b s) _ (sign_block-core c b s)
          λ r same'. ground (arith, vote_if_signed-core c r.0 MessageType.commit_vote r.1)

count_pre_commit_vote-core :
    (c : Context) (msg : Msg) (b : Block) (pc : PartialCert) (hs : HotStuff)
    → Ends (SameCore hs) (count_pre_commit_vote c msg b pc hs)
unfolding count_pre_commit_vote
count_pre_commit_vote-core c msg b pc hs =
    let votes = votes_with pc hs.verified_pre_commit_votes in
    Ends-if (SameCore hs) (ltb (length votes) c.node_manager.quorum_size) _ _ (ground arith) (
      Ends->>= (λ q. Unit) (SameCore hs) (attempt (create_quorum_cert c.crypto b votes)) _
        (Settles-Ends _ (Settles-attempt _ (create_quorum_cert-Settles c.crypto b votes)))
        λ made _. Ends-option (SameCore hs) made _ _ (ground arith) λ qc.
          Ends-core hs (add_pre_commit_vote b pc hs) _ (ground arith)
            (pre_committed-core c msg b pc qc (add_pre_commit_vote b pc hs)))

pub on_receive_pre_commit_vote-core :
    (c : Context) (msg : Msg) (hs : HotStuff)
    → Ends (SameCore hs) (on_receive_pre_commit_vote c msg hs)
unfolding on_receive_pre_commit_vote
on_receive_pre_commit_vote-core c msg hs =
    Ends-if (SameCore hs) (not (matching_msg msg MessageType.pre_commit_vote hs)) _ _ tt (
      Ends->>= (λ v. Unit) (SameCore hs) (read_vote c msg (λ s. s.finished_pre_commit_votes) hs) _
        (read_vote-Settles c msg (λ s. s.finished_pre_commit_votes) hs)
        λ vote _. Ends-option (SameCore hs) vote _ _ (SameCore-refl hs) λ v.
          with_lock-core (count_pre_commit_vote c msg v.0 v.1) hs
            (λ s. count_pre_commit_vote-core c msg v.0 v.1 s))

pub on_receive_commit-core :
    (c : Context) (msg : Msg) (hs : HotStuff) → Ends (SameCore hs) (on_receive_commit c msg hs)
unfolding on_receive_commit
on_receive_commit-core c msg hs =
    Ends-if (SameCore hs) (not (matching_msg msg MessageType.commit hs)) _ _ (SameCore-refl hs) (
      Ends->>= (λ v. Unit) (SameCore hs) (read_cert c msg hs) _ (read_cert-Settles c msg hs)
        λ cert _. Ends-option (SameCore hs) cert _ _ (SameCore-refl hs) λ v.
          send_vote-core c Rpc.commit_vote MessageType.commit_vote msg v.0 _ hs
            λ s. with_lock-core (keep_pre_commit_qc v.0 v.1) s (λ s'. ground arith))
