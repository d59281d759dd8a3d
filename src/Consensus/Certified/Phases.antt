-- ===== src/Consensus/Certified/Phases.antt =====
-- The handlers that both replicas share keep certificates and votes certified.
use basic_hotstuff.Prelude.{
  some, not, ok, length, bytes_eq, ltb, ltb→le, Yields-ok, Yields-panic, Yields-if, Yields-bind,
  Yields->>=, is_none, nat_beq,
}
use basic_hotstuff.Types.{QuorumCert, PartialCert}
use basic_hotstuff.Block.{Block}
use basic_hotstuff.Proto.{Msg, MessageType, Request}
use basic_hotstuff.Convert.{block_from_proto}
use basic_hotstuff.NodeManager.{is_fault_node}
use basic_hotstuff.Consensus.State.{
  Context, HotStuff, Rpc, lock, unlock, send_to_all, sign_block, matching_msg, safe_node,
  create_leaf, is_leader, get_leader_id,
}
use basic_hotstuff.Consensus.Phases.{
  propose, send_prepare, on_receive_prepare, read_vote, votes_with, prepared, count_prepare_vote,
  on_receive_prepare_vote, read_cert, keep_prepare_qc, on_receive_pre_commit, pre_committed,
  count_pre_commit_vote, on_receive_pre_commit_vote, keep_pre_commit_qc, on_receive_commit,
  add_prepare_vote, add_pre_commit_vote,
}
use basic_hotstuff.Consensus.Certified.{IsVote, Certified, IsConfigured}
use basic_hotstuff.Consensus.Certified.Helpers.{
  Kept, IsCert, holds, lock-Certified, send_to_all-Certified, vote_if_signed-Certified,
  sign_block-Signed, send_vote-Certified, read_cert-IsRead, accepting-Certified,
}
use basic_hotstuff.Consensus.Certified.Counting.{
  read_vote-IsReadVote, counted-Certified, votes_with-All, insert-IsVotes, erase-IsVotes,
  counting-Certified,
}

module _ (c : Context) (own : IsConfigured c) where
  pub propose-Certified : (req : Request) (hs : HotStuff) → Kept c hs (propose c req hs)
  unfolding propose
  propose-Certified req hs h =
      Yields-bind (create_leaf c hs.high_qc.hash hs.high_qc req.cmd hs) _ λ block e.
        Yields->>= (send_to_all c Rpc.prepare _ _) _ (send_to_all-Certified c _ _ _ h) λ s kept.
          Yields->>= (sign_block c block s) _ (sign_block-Signed c own block s kept) λ r signed.
            Yields-ok _
              (vote_if_signed-Certified c r.0 MessageType.prepare_vote r.1 signed.0 signed.1)

  pub send_prepare-Certified : (req : Request) (hs : HotStuff) → Kept c hs (send_prepare c req hs)
  unfolding send_prepare unlock
  send_prepare-Certified req hs h = Yields->>= (lock hs) _ (lock-Certified c hs h) λ s held.
      Yields-if (not (is_leader c s)) _ _ (λ no. Yields-ok _ held)
        λ yes.
          Yields->>= (propose c req s) _ (propose-Certified req s held) λ t kept. Yields-ok _ kept

  pub on_receive_prepare-Certified :
      (msg : Msg) (hs : HotStuff) → Kept c hs (on_receive_prepare c msg hs)
  unfolding on_receive_prepare
  on_receive_prepare-Certified msg hs h =
      Yields-if (not (matching_msg msg MessageType.prepare hs)) _ _ (λ no. Yields-ok hs h)
        λ yes. Yields-bind (block_from_proto c.crypto.prims hs.now msg.block) _ λ b eb.
          Yields-if (is_none msg.qc) _ _ (λ no. Yields-ok hs h)
            λ there.
              Yields-if (not (nat_beq (get_leader_id c hs) b.proposer)) _ _ (λ no. Yields-ok hs h)
                λ leader. Yields-bind (safe_node b hs) _ λ safe es.
                  Yields-if (not safe) _ _ (λ no. Yields-ok hs h)
                    λ is_safe.
                      send_vote-Certified c own Rpc.prepare_vote MessageType.prepare_vote msg b ok
                        (record hs { current_block = some b }) (λ s k. Yields-ok s k) h

  -- A quorum of prepare votes became a certificate.
  prepared-Certified :
      (msg : Msg) (b : Block) (pc : PartialCert) (qc : QuorumCert) (hs : HotStuff)
      → IsCert c qc
      → Kept c hs (prepared c msg b pc qc hs)
  unfolding prepared
  prepared-Certified msg b pc qc hs q h =
      Yields->>= (send_to_all c Rpc.pre_commit _ _) _
        (send_to_all-Certified c _ _ _ (
          holds c q h.pre_commit h.commit
            (erase-IsVotes c pc.block_hash hs.verified_prepare_votes h.prepares) h.pre_commits
            h.commits))
        λ s kept. Yields->>= (sign_block c b s) _ (sign_block-Signed c own b s kept) λ r signed.
          Yields-ok _
            (vote_if_signed-Certified c r.0 MessageType.pre_commit_vote r.1 signed.0 signed.1)

  count_prepare_vote-Certified :
      (msg : Msg) (b : Block) (pc : PartialCert) (hs : HotStuff)
      → IsVote c.crypto pc
      → Kept c hs (count_prepare_vote c msg b pc hs)
  unfolding count_prepare_vote
  count_prepare_vote-Certified msg b pc hs p h =
      let votes = votes_with pc hs.verified_prepare_votes in
      let hs1 = add_prepare_vote b pc hs in
      let h1 : Certified c hs1 =
        holds c h.prepare h.pre_commit h.commit
          (insert-IsVotes c pc hs.verified_prepare_votes p h.prepares) h.pre_commits h.commits in
      Yields-if (ltb (length votes) c.node_manager.quorum_size) _ _ (λ few. Yields-ok hs1 h1)
        λ enough.
          Yields-if (is_fault_node c.node_manager) _ _ (λ fault. Yields-ok hs1 h1)
            λ honest.
              counted-Certified c (Certified c) b votes hs1 _
                (votes_with-All c pc hs.verified_prepare_votes p h.prepares) (ltb→le _ _ enough) h1
                (λ qc q. prepared-Certified msg b pc qc hs1 q h1)

  pub on_receive_prepare_vote-Certified :
      (msg : Msg) (hs : HotStuff) → Kept c hs (on_receive_prepare_vote c msg hs)
  unfolding on_receive_prepare_vote
  on_receive_prepare_vote-Certified msg hs h =
      Yields-if (not (matching_msg msg MessageType.prepare_vote hs)) _ _ (λ no. Yields-ok hs h)
        λ yes.
          Yields->>= (read_vote c msg (λ s. s.finished_prepare_votes) hs) _
            (read_vote-IsReadVote c msg (λ s. s.finished_prepare_votes) hs)
            λ vote p.
              counting-Certified c vote hs (count_prepare_vote c msg) p
                (λ b pc s q. count_prepare_vote-Certified msg b pc s q) h

  pub on_receive_pre_commit-Certified :
      (msg : Msg) (hs : HotStuff) → Kept c hs (on_receive_pre_commit c msg hs)
  unfolding on_receive_pre_commit
  on_receive_pre_commit-Certified msg hs h =
      Yields-if (not (matching_msg msg MessageType.pre_commit hs)) _ _ (λ no. Yields-ok hs h)
        λ yes. Yields->>= (read_cert c msg hs) _ (read_cert-IsRead c own msg hs) λ cert q.
          accepting-Certified c own cert Rpc.pre_commit_vote MessageType.pre_commit_vote msg hs
            keep_prepare_qc q
            (λ b qc s p k.
              Yields-ok _ (holds c p k.pre_commit k.commit k.prepares k.pre_commits k.commits))
            h

  -- A quorum of pre-commit votes became a certificate.
  pre_committed-Certified :
      (msg : Msg) (b : Block) (pc : PartialCert) (qc : QuorumCert) (hs : HotStuff)
      → IsCert c qc
      → Kept c hs (pre_committed c msg b pc qc hs)
  unfolding pre_committed
  pre_committed-Certified msg b pc qc hs q h =
      Yields->>= (send_to_all c Rpc.commit _ _) _
        (send_to_all-Certified c _ _ _ (
          holds c h.prepare q h.commit h.prepares
            (erase-IsVotes c pc.block_hash hs.verified_pre_commit_votes h.pre_commits) h.commits))
        λ s kept. Yields->>= (sign_block c b s) _ (sign_block-Signed c own b s kept) λ r signed.
          Yields-ok _ (vote_if_signed-Certified c r.0 MessageType.commit_vote r.1 signed.0 signed.1)

  count_pre_commit_vote-Certified :
      (msg : Msg) (b : Block) (pc : PartialCert) (hs : HotStuff)
      → IsVote c.crypto pc
      → Kept c hs (count_pre_commit_vote c msg b pc hs)
  unfolding count_pre_commit_vote
  count_pre_commit_vote-Certified msg b pc hs p h =
      let votes = votes_with pc hs.verified_pre_commit_votes in
      let hs1 = add_pre_commit_vote b pc hs in
      let h1 : Certified c hs1 =
        holds c h.prepare h.pre_commit h.commit h.prepares
          (insert-IsVotes c pc hs.verified_pre_commit_votes p h.pre_commits) h.commits in
      Yields-if (ltb (length votes) c.node_manager.quorum_size) _ _ (λ few. Yields-ok hs1 h1)
        λ enough.
          counted-Certified c (Certified c) b votes hs1 _
            (votes_with-All c pc hs.verified_pre_commit_votes p h.pre_commits) (ltb→le _ _ enough)
            h1 (λ qc q. pre_committed-Certified msg b pc qc hs1 q h1)

  pub on_receive_pre_commit_vote-Certified :
      (msg : Msg) (hs : HotStuff) → Kept c hs (on_receive_pre_commit_vote c msg hs)
  unfolding on_receive_pre_commit_vote
  on_receive_pre_commit_vote-Certified msg hs h =
      Yields-if (not (matching_msg msg MessageType.pre_commit_vote hs)) _ _ (λ no. Yields-panic)
        λ yes.
          Yields->>= (read_vote c msg (λ s. s.finished_pre_commit_votes) hs) _
            (read_vote-IsReadVote c msg (λ s. s.finished_pre_commit_votes) hs)
            λ vote p.
              counting-Certified c vote hs (count_pre_commit_vote c msg) p
                (λ b pc s q. count_pre_commit_vote-Certified msg b pc s q) h

  pub on_receive_commit-Certified :
      (msg : Msg) (hs : HotStuff) → Kept c hs (on_receive_commit c msg hs)
  unfolding on_receive_commit
  on_receive_commit-Certified msg hs h =
      Yields-if (not (matching_msg msg MessageType.commit hs)) _ _ (λ no. Yields-ok hs h)
        λ yes. Yields->>= (read_cert c msg hs) _ (read_cert-IsRead c own msg hs) λ cert q.
          accepting-Certified c own cert Rpc.commit_vote MessageType.commit_vote msg hs
            keep_pre_commit_qc q
            (λ b qc s p k.
              Yields-ok _ (holds c k.prepare p k.commit k.prepares k.pre_commits k.commits))
            h
