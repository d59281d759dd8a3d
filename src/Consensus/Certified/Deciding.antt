-- ===== src/Consensus/Certified/Deciding.antt =====
-- A decision and the view change of the basic replica keep certificates and votes certified.
use basic_hotstuff.Prelude.{
  Option, none, some, not, ok, length, nat_eq, EachValue-nil, lookup_list, bytes_eq, ltb, ltb→le,
  from_option, flag, Yields, Yields-ok, Yields-if, Yields->>=, is_none,
}
use basic_hotstuff.Types.{QuorumCert, PartialCert}
use basic_hotstuff.Block.{Block}
use basic_hotstuff.Proto.{Msg, MessageType}
use basic_hotstuff.Convert.{quorum_cert_from_proto}
use basic_hotstuff.Consensus.State.{Context, HotStuff, Rpc, send_to_all, matching_msg, is_leader}
use basic_hotstuff.Consensus.Phases.{read_vote, votes_with, with_lock, read_cert}
use basic_hotstuff.Consensus.Certified.{IsVote, Certified, IsConfigured}
use basic_hotstuff.Consensus.Certified.Helpers.{
  if-Certified, Kept, IsCert, holds, send_to_all-Certified, send_to_leader-Certified,
  read_cert-IsRead, IsRead, with_lock-Certified,
}
use basic_hotstuff.Consensus.Certified.Counting.{
  read_vote-IsReadVote, counted-Certified, votes_with-All, insert-IsVotes, erase-IsVotes,
  counting-Certified,
}
use basic_hotstuff.Types.{View}
use basic_hotstuff.Consensus.Certified.Phases.{
  on_receive_prepare-Certified, on_receive_prepare_vote-Certified, on_receive_pre_commit-Certified,
  on_receive_pre_commit_vote-Certified, on_receive_commit-Certified,
}
use basic_hotstuff.Consensus.Basic.{
  Process, process_new_view, try_new_view, add_high_qc, on_receive_new_view, send_new_view,
  enter_next_view, committed, add_commit_vote, count_commit_vote, on_receive_commit_vote,
  enter_decided, decided, execute, on_receive_decide,
}
use basic_hotstuff.Consensus.MessageLoop.{dispatch}

abbrev pub Keeping : Context → Process → Type 0
Keeping c process = (v : View) (s : HotStuff) → Kept c s (process v s)

module _ (c : Context) where
  try_new_view-Certified : (hs : HotStuff) → Certified c hs → Certified c (try_new_view c hs)
  unfolding process_new_view
  try_new_view-Certified hs h =
      if-Certified c
        (ltb (length (lookup_list hs.current_view hs.high_qc_tmp)) c.node_manager.quorum_size) hs _
        h
        (holds c h.prepare h.pre_commit h.commit (EachValue-nil _) (EachValue-nil _)
          (EachValue-nil _))

  pub on_receive_new_view-Certified :
      (msg : Msg) (hs : HotStuff) → Certified c hs → Certified c (on_receive_new_view c msg hs)
  unfolding on_receive_new_view
  on_receive_new_view-Certified msg hs h =
      if-Certified c (flag hs.current_view hs.finished_view_change) hs _ h (
        if-Certified c (is_none msg.qc) hs _ h
          (try_new_view-Certified (add_high_qc (quorum_cert_from_proto msg.qc) hs) h))

  pub send_new_view-Certified :
      (process : Process) (hs : HotStuff)
      → Keeping c process
      → Kept c hs (send_new_view process c hs)
  unfolding send_new_view
  send_new_view-Certified process hs k h =
      Yields-if (is_leader c hs) _ _
        (λ leads.
          Yields->>= (process hs.current_view (add_high_qc hs.prepare_qc hs)) _
            (k hs.current_view (add_high_qc hs.prepare_qc hs) h)
            λ s kept. Yields-ok _ (try_new_view-Certified s kept))
        (λ follows. send_to_leader-Certified c _ _ hs h)

  module _ (own : IsConfigured c) (process : Process) (k : Keeping c process) where
    -- A quorum of commit votes became a certificate.
    committed-Certified :
        (msg : Msg) (b : Block) (pc : PartialCert) (qc : QuorumCert) (hs : HotStuff)
        → IsCert c qc
        → Kept c hs (committed process c msg b pc qc hs)
    unfolding committed
    committed-Certified msg b pc qc hs q h =
        Yields->>= (send_to_all c Rpc.decide _ _) _
          (send_to_all-Certified c _ _ _ (
            holds c h.prepare h.pre_commit q h.prepares h.pre_commits
              (erase-IsVotes c pc.block_hash hs.verified_commit_votes h.commits)))
          λ s kept.
            Yields->>= (send_new_view process c (enter_next_view b s)) _
              (send_new_view-Certified process (enter_next_view b s) k kept)
              λ t done. Yields-ok _ done

    count_commit_vote-Certified :
        (msg : Msg) (b : Block) (pc : PartialCert) (hs : HotStuff)
        → IsVote c.crypto pc
        → Kept c hs (count_commit_vote process c msg b pc hs)
    unfolding count_commit_vote
    count_commit_vote-Certified msg b pc hs p h =
        let votes = votes_with pc hs.verified_commit_votes in
        let hs1 = add_commit_vote b pc hs in
        let h1 : Certified c hs1 =
          holds c h.prepare h.pre_commit h.commit h.prepares h.pre_commits
            (insert-IsVotes c pc hs.verified_commit_votes p h.commits) in
        Yields-if (ltb (length votes) c.node_manager.quorum_size) _ _ (λ few. Yields-ok hs1 h1)
          λ enough.
            counted-Certified c (Certified c) b votes hs1 _
              (votes_with-All c pc hs.verified_commit_votes p h.commits) (ltb→le _ _ enough) h1
              (λ qc q. committed-Certified msg b pc qc hs1 q h1)

    on_receive_commit_vote-Certified :
        (msg : Msg) (hs : HotStuff) → Kept c hs (on_receive_commit_vote process c msg hs)
    unfolding on_receive_commit_vote
    on_receive_commit_vote-Certified msg hs h =
        Yields-if (not (matching_msg msg MessageType.commit_vote hs)) _ _ (λ no. Yields-ok hs h)
          λ yes.
            Yields->>= (read_vote c msg (λ s. s.finished_commit_votes) hs) _
              (read_vote-IsReadVote c msg (λ s. s.finished_commit_votes) hs)
              λ vote p.
                counting-Certified c vote hs (count_commit_vote process c msg) p
                  (λ b pc s q. count_commit_vote-Certified msg b pc s q) h

    decided-Certified :
        (msg : Msg) (b : Block) (qc : QuorumCert) (hs : HotStuff)
        → IsCert c qc
        → Kept c hs (decided process c msg b qc hs)
    unfolding decided
    decided-Certified msg b qc hs q h =
        Yields->>= (send_new_view process c (enter_decided c msg qc hs)) _
          (send_new_view-Certified process (enter_decided c msg qc hs) k
            (holds c h.prepare h.pre_commit q h.prepares h.pre_commits h.commits))
          λ s kept. Yields-ok _ kept

    pub on_receive_decide-Certified :
        (msg : Msg) (hs : HotStuff) → Kept c hs (on_receive_decide process c msg hs)
    unfolding on_receive_decide
    on_receive_decide-Certified msg hs h =
        Yields-if (not (matching_msg msg MessageType.decide hs)) _ _ (λ no. Yields-ok hs h)
          λ yes.
            Yields->>= (read_cert c msg hs) _ (read_cert-IsRead c own msg hs) λ cert q. go cert q
      where
        go :
            (cert : Option (Block × QuorumCert))
            → IsRead c cert
            → Yields (Certified c) (
                from_option cert
                  (ok hs)
                  λ v. with_lock (decided process c msg v.0 v.1) (execute v.0 hs))
        go none q = Yields-ok hs h
        go (some (b, qc)) q =
            with_lock-Certified c (decided process c msg b qc) (execute b hs)
              (λ s. decided-Certified msg b qc s q) h

    pub dispatch-Certified :
        (type : MessageType) (msg : Msg) (hs : HotStuff)
        → Kept c hs (dispatch process c type msg hs)
    unfolding dispatch
    dispatch-Certified MessageType.prepare msg hs h = on_receive_prepare-Certified c own msg hs h
    dispatch-Certified MessageType.prepare_vote msg hs h =
        on_receive_prepare_vote-Certified c own msg hs h
    dispatch-Certified MessageType.pre_commit msg hs h =
        on_receive_pre_commit-Certified c own msg hs h
    dispatch-Certified MessageType.pre_commit_vote msg hs h =
        on_receive_pre_commit_vote-Certified c own msg hs h
    dispatch-Certified MessageType.commit msg hs h = on_receive_commit-Certified c own msg hs h
    dispatch-Certified MessageType.commit_vote msg hs h = on_receive_commit_vote-Certified msg hs h
    dispatch-Certified MessageType.decide msg hs h = on_receive_decide-Certified msg hs h
    dispatch-Certified MessageType.new_view msg hs h =
        Yields-ok _ (on_receive_new_view-Certified msg hs h)
    dispatch-Certified _ msg hs h = Yields-ok hs h
