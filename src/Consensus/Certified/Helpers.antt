-- ===== src/Consensus/Certified/Helpers.antt =====
-- The calls that the handlers share keep certificates and votes certified, and what they read is.
use basic_hotstuff.Prelude.{
  Option, none, some, Bool, true, false, not, ok, arith, EachValue, EachValue-insert, bytes_eq,
  Result, deref, attempt, from_option, Yields, Yields-ok, Yields-if, Yields-bind, Yields->>=,
  Yields-option, Yields-attempt, yields_rules, if◌then◌else◌, nat_beq, subst,
}
use basic_hotstuff.Types.{Hash, QuorumCert, PartialCert}
use basic_hotstuff.Block.{Block}
use basic_hotstuff.Proto.{Msg, MessageType}
use basic_hotstuff.Crypto.{create_partial_cert, verify_quorum_cert}
use basic_hotstuff.Convert.{quorum_cert_from_proto, block_from_proto}
use basic_hotstuff.Convert.Intersection.{quorum_cert_from_proto-IsKeyed}
use basic_hotstuff.NodeManager.{get_nodes, get_leader_node}
use basic_hotstuff.Consensus.State.{
  Context, HotStuff, Rpc, lock, unlock, send_to_all, send_to_leader, sign_block, vote_if_signed,
  vote_myself, append_vote, is_leader, get_leader_id,
}
use basic_hotstuff.Consensus.Phases.{send_vote, with_lock, read_cert, start_timer}
use basic_hotstuff.Consensus.Certified.{
  IsVote, IsCertified, Holds, Certified, Votes, IsConfigured, own-IsVote, verified-IsCertified,
}

module _ (c : Context) where
  abbrev pub Kept : HotStuff → Result HotStuff → Type 0
  Kept hs r = Certified c hs → Yields (Certified c) r

  abbrev pub IsVotes : Votes → Type 0
  IsVotes votes = EachValue (λ (h : Hash). IsVote c.crypto) votes

  pub lock-Certified : (hs : HotStuff) → Kept hs (lock hs)
  unfolding lock
  lock-Certified hs h = search (yields_rules)

  pub send_to_all-Certified :
      (rpc : Rpc) (msg : Msg) (hs : HotStuff) → Kept hs (send_to_all c rpc msg hs)
  unfolding send_to_all
  send_to_all-Certified rpc msg hs h =
      Yields-bind (get_nodes c.node_manager) _ λ nodes e. Yields-ok _ h

  pub send_to_leader-Certified :
      (rpc : Rpc) (msg : Msg) (hs : HotStuff) → Kept hs (send_to_leader c rpc msg hs)
  unfolding send_to_leader
  send_to_leader-Certified rpc msg hs h =
      Yields-bind (get_leader_node c.node_manager hs.current_view) _
        λ found e. Yields-bind (deref found) _ λ node e'. Yields-ok _ h

  -- A vote of this replica, if it could sign.
  abbrev pub IsOwnVote : Option PartialCert → Type 0
  IsOwnVote none = Unit {0}
  IsOwnVote (some pc) = IsVote c.crypto pc

  abbrev pub Signed : Option PartialCert × HotStuff → Type 0
  Signed r = IsOwnVote r.0 × Certified c r.1

  append_vote-IsVotes :
      (pc : PartialCert) (votes : Votes)
      → IsVote c.crypto pc
      → IsVotes votes
      → IsVotes (append_vote pc votes)
  unfolding append_vote
  append_vote-IsVotes pc votes p each =
      EachValue-insert (λ (h : Hash). IsVote c.crypto) pc.block_hash pc votes each p

  abbrev pub IsCert : QuorumCert → Type 0
  IsCert = IsCertified c.crypto c.node_manager.quorum_size

  pub holds :
      {prepare_qc pre_commit_qc commit_qc : QuorumCert}
      {prepare_votes pre_commit_votes commit_votes : Votes}
      → IsCert prepare_qc
      → IsCert pre_commit_qc
      → IsCert commit_qc
      → IsVotes prepare_votes
      → IsVotes pre_commit_votes
      → IsVotes commit_votes
      → Holds c prepare_qc pre_commit_qc commit_qc prepare_votes pre_commit_votes commit_votes
  holds prepare pre_commit commit prepares pre_commits commits = record {
    prepare = prepare;
    pre_commit = pre_commit;
    commit = commit;
    prepares = prepares;
    pre_commits = pre_commits;
    commits = commits;
  }

  pub if-Certified :
      (b : Bool) (s t : HotStuff) → Certified c s → Certified c t → Certified c (if b then s else t)
  if-Certified true s t hs ht = hs
  if-Certified false s t hs ht = ht

  pub vote_if_signed-Certified :
      (pc : Option PartialCert) (type : MessageType) (hs : HotStuff)
      → IsOwnVote pc
      → Certified c hs
      → Certified c (vote_if_signed c pc type hs)
  unfolding vote_myself
  vote_if_signed-Certified none type hs p h = h
  vote_if_signed-Certified (some pc) MessageType.prepare_vote hs p h =
      if-Certified (is_leader c hs) _ hs
        (holds h.prepare h.pre_commit h.commit
          (append_vote-IsVotes pc hs.verified_prepare_votes p h.prepares) h.pre_commits h.commits)
        h
  vote_if_signed-Certified (some pc) MessageType.pre_commit_vote hs p h =
      if-Certified (is_leader c hs) _ hs
        (holds h.prepare h.pre_commit h.commit h.prepares
          (append_vote-IsVotes pc hs.verified_pre_commit_votes p h.pre_commits) h.commits)
        h
  vote_if_signed-Certified (some pc) MessageType.commit_vote hs p h =
      if-Certified (is_leader c hs) _ hs
        (holds h.prepare h.pre_commit h.commit h.prepares h.pre_commits
          (append_vote-IsVotes pc hs.verified_commit_votes p h.commits))
        h
  vote_if_signed-Certified (some pc) _ hs p h = if-Certified (is_leader c hs) hs hs h h

  abbrev pub IsRead : Option (Block × QuorumCert) → Type 0
  IsRead none = Unit {0}
  IsRead (some (b, qc)) = IsCert qc

  pub with_lock-Certified :
      (body : HotStuff → Result HotStuff) (hs : HotStuff)
      → ((s : HotStuff) → Kept s (body s))
      → Kept hs (with_lock body hs)
  unfolding unlock
  with_lock-Certified body hs k h =
      Yields->>= (lock hs) _ (lock-Certified hs h)
        λ s held. Yields->>= (body s) _ (k s held) λ t done. Yields-ok _ done

  module _ (own : IsConfigured c) where
    pub sign_block-Signed :
        (b : Block) (hs : HotStuff) → Certified c hs → Yields Signed (sign_block c b hs)
    unfolding sign_block
    sign_block-Signed b hs h =
        Yields->>= {P = IsOwnVote} (attempt (create_partial_cert c.crypto hs.entropy b)) _
          (Yields-attempt {P = IsVote c.crypto} (create_partial_cert c.crypto hs.entropy b)
            (record { at = λ pc e. own-IsVote c hs.entropy b pc own e }) tt (λ pc p. p))
          λ pc p. Yields-ok _ (p, h)

    pub send_vote-Certified :
        (rpc : Rpc) (type : MessageType) (msg : Msg) (b : Block)
        (after : HotStuff → Result HotStuff) (hs : HotStuff)
        → ((s : HotStuff) → Kept s (after s))
        → Kept hs (send_vote c rpc type msg b after hs)
    unfolding send_vote
    send_vote-Certified rpc type msg b after hs k h =
        Yields->>= (sign_block c b hs) _ (sign_block-Signed b hs h) λ r signed.
          Yields-option r.0 _ _ (Yields-ok r.1 signed.1) λ cert e.
            Yields->>= (send_to_leader c rpc _ r.1) _ (send_to_leader-Certified rpc _ r.1 signed.1)
              λ s kept. k (start_timer s) kept

    pub read_cert-IsRead : (msg : Msg) (hs : HotStuff) → Yields IsRead (read_cert c msg hs)
    unfolding read_cert
    read_cert-IsRead msg hs = Yields-option msg.qc _ _ (Yields-ok none tt) λ pb e.
        let qc = quorum_cert_from_proto (some pb) in
        Yields-bind (block_from_proto c.crypto.prims hs.now msg.block) _ λ b eb.
          Yields-bind (verify_quorum_cert c.crypto b qc) _ λ valid ev.
            Yields-if (not valid) _ _ (λ no. Yields-ok none tt)
              λ yes.
                Yields-if (not (nat_beq (get_leader_id c hs) b.proposer)) _ _
                  (λ no. Yields-ok none tt)
                  λ leader. Yields-ok (some (b, qc)) (
                    subst (λ n. IsCertified c.crypto n qc) own.sizes
                      (verified-IsCertified c.crypto b qc (quorum_cert_from_proto-IsKeyed pb)
                        (ground arith)))

    -- What a handler does with a certificate that it has read.
    pub accepting-Certified :
        (cert : Option (Block × QuorumCert)) (rpc : Rpc) (type : MessageType) (msg : Msg)
        (hs : HotStuff) (keep : Block → QuorumCert → HotStuff → Result HotStuff)
        → IsRead cert
        → ((b : Block) (qc : QuorumCert) (s : HotStuff) → IsCert qc → Kept s (keep b qc s))
        → Kept hs (
            from_option cert
              (ok hs)
              (λ v. send_vote c rpc type msg v.0 (with_lock (keep v.0 v.1)) hs))
    accepting-Certified none rpc type msg hs keep q k h = Yields-ok hs h
    accepting-Certified (some (b, qc)) rpc type msg hs keep q k h =
        send_vote-Certified rpc type msg b _ hs
          (λ s. with_lock-Certified (keep b qc) s (λ t. k b qc t q)) h
