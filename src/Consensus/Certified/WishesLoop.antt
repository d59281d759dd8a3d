-- ===== src/Consensus/Certified/WishesLoop.antt =====
-- The message loop of the replica with wishes keeps certificates and votes certified.
use basic_hotstuff.Prelude.{
  ℕ, Option, none, some, not, ok, length, nat_eq, suc, bytes_eq, ◌>>=◌, ltb, ltb→le, from_option,
  Yields, Yields-ok, Yields-out_of_fuel, zero, Bool-cases, inl, inr, Yields-if, Yields->>=,
  Yields-option,
}
use basic_hotstuff.Types.{QuorumCert, PartialCert}
use basic_hotstuff.Block.{Block}
use basic_hotstuff.Proto.{Msg, MessageType}
use basic_hotstuff.Consensus.State.{Context, Rpc, send_to_all, matching_msg}
use basic_hotstuff.Consensus.Phases.{
  on_receive_prepare, read_vote, votes_with, with_lock, on_receive_prepare_vote, read_cert,
  on_receive_pre_commit, on_receive_pre_commit_vote, on_receive_commit,
}
use basic_hotstuff.Consensus.Certified.{IsVote, IsConfigured}
use basic_hotstuff.Consensus.Certified.Helpers.{
  IsCert, holds, send_to_all-Certified, read_cert-IsRead, IsRead, with_lock-Certified,
}
use basic_hotstuff.Consensus.Certified.Counting.{
  IsReadVote, read_vote-IsReadVote, counted-Certified, votes_with-All, insert-IsVotes,
  erase-IsVotes,
}
use basic_hotstuff.Types.{View}
use basic_hotstuff.MessageQueue.{pop, put}
use basic_hotstuff.Consensus.Certified.Phases.{
  on_receive_prepare-Certified, on_receive_prepare_vote-Certified, on_receive_pre_commit-Certified,
  on_receive_pre_commit_vote-Certified, on_receive_commit-Certified,
}
use basic_hotstuff.Consensus.Basic.{store_commit, answer, add_commit_vote, execute, send_response}
use basic_hotstuff.Types.{View}
use basic_hotstuff.Proto.{type_beq}
use basic_hotstuff.Consensus.Cogsworth.{Cogsworth, on_base, set_base, on_receive_timeout_vote}
use basic_hotstuff.Consensus.Cogsworth.Wishing.{on_receive_wish_next_view, wish_to_advance}
use basic_hotstuff.Consensus.CogsworthLoop.{
  finish_commit, committed, count_commit_vote, on_receive_commit_vote, keep_decided,
  on_receive_decide, dispatch, popped, drain_wishes, drain_timeout_votes, drain_fuel, Process,
  dispatch_queued, process_queue, process_current_view_queue, handle_msg,
}
use basic_hotstuff.Consensus.State.{next_view}
use basic_hotstuff.Consensus.Certified.Wishes.{
  Base, KeptBase, on_base-Certified, on_receive_timeout_vote-Certified,
  on_receive_new_view-Certified, on_receive_wish_next_view-Certified, on_receive_timeout-Certified,
  wish_to_advance-Certified,
}

abbrev Keeping : Context → Process → Type 0
Keeping c process = (v : View) (s : Cogsworth) → KeptBase c s (process v s)

module _ (c : Context) (own : IsConfigured c) where
  committed-Certified :
      (msg : Msg) (b : Block) (pc : PartialCert) (qc : QuorumCert) (hs : Cogsworth)
      → IsCert c qc
      → KeptBase c hs (committed c msg b pc qc hs)
  unfolding committed send_response
  committed-Certified msg b pc qc hs q h =
      let hs1 = set_base (store_commit b pc qc) hs in
      Yields->>= (on_base (send_to_all c Rpc.decide _) hs1) _
        (on_base-Certified c (send_to_all c Rpc.decide _) hs1
          (send_to_all-Certified c Rpc.decide _ hs1.base)
          (holds c h.prepare h.pre_commit q h.prepares h.pre_commits
            (erase-IsVotes c pc.block_hash hs.base.verified_commit_votes h.commits)))
        λ s kept.
          wish_to_advance-Certified c (set_base (λ t. answer c b (finish_commit b qc t)) s) kept

  count_commit_vote-Certified :
      (msg : Msg) (b : Block) (pc : PartialCert) (hs : Cogsworth)
      → IsVote c.crypto pc
      → KeptBase c hs (count_commit_vote c msg b pc hs)
  unfolding count_commit_vote
  count_commit_vote-Certified msg b pc hs p h =
      let votes = votes_with pc hs.base.verified_commit_votes in
      let hs1 = set_base (add_commit_vote b pc) hs in
      let h1 : Base c hs1 =
        holds c h.prepare h.pre_commit h.commit h.prepares h.pre_commits
          (insert-IsVotes c pc hs.base.verified_commit_votes p h.commits) in
      Yields-if (ltb (length votes) c.node_manager.quorum_size) _ _ (λ few. Yields-ok hs1 h1)
        λ enough.
          counted-Certified c (Base c) b votes hs1 _
            (votes_with-All c pc hs.base.verified_commit_votes p h.commits) (ltb→le _ _ enough) h1
            (λ qc q. committed-Certified msg b pc qc hs1 q h1)

  on_receive_commit_vote-Certified :
      (msg : Msg) (hs : Cogsworth) → KeptBase c hs (on_receive_commit_vote c msg hs)
  unfolding on_receive_commit_vote
  on_receive_commit_vote-Certified msg hs h =
      Yields-if (not (matching_msg msg MessageType.commit_vote hs.base)) _ _ (λ no. Yields-ok hs h)
        λ yes.
          Yields->>= (read_vote c msg (λ s. s.finished_commit_votes) hs.base) _
            (read_vote-IsReadVote c msg (λ s. s.finished_commit_votes) hs.base) λ vote p. go vote p
    where
      go :
          (vote : Option (Block × PartialCert))
          → IsReadVote c vote
          → Yields (Base c) (from_option vote (ok hs) λ v. count_commit_vote c msg v.0 v.1 hs)
      go none p = Yields-ok hs h
      go (some (b, pc)) p = count_commit_vote-Certified msg b pc hs p h

  on_receive_decide-Certified :
      (msg : Msg) (hs : Cogsworth) → KeptBase c hs (on_receive_decide c msg hs)
  unfolding on_receive_decide send_response
  on_receive_decide-Certified msg hs h =
      Yields-if (not (matching_msg msg MessageType.decide hs.base)) _ _ (λ no. Yields-ok hs h)
        λ yes.
          Yields->>= (read_cert c msg hs.base) _ (read_cert-IsRead c own msg hs.base)
            λ cert q. go cert q
    where
      go :
          (cert : Option (Block × QuorumCert))
          → IsRead c cert
          → Yields (Base c) (
              from_option cert (ok hs) λ v.
                on_base (with_lock (keep_decided c v.0 v.1)) (set_base (execute v.0) hs) >>= λ s.
                wish_to_advance c s)
      go none q = Yields-ok hs h
      go (some (b, qc)) q =
          let done = set_base (execute b) hs in
          Yields->>= (on_base (with_lock (keep_decided c b qc)) done) _
            (on_base-Certified c (with_lock (keep_decided c b qc)) done
              (with_lock-Certified c (keep_decided c b qc) done.base λ s k.
                Yields-ok _ (holds c k.prepare k.pre_commit q k.prepares k.pre_commits k.commits))
              h)
            (wish_to_advance-Certified c)

  dispatch-Certified :
      (type : MessageType) (msg : Msg) (hs : Cogsworth) → KeptBase c hs (dispatch c type msg hs)
  unfolding dispatch
  dispatch-Certified MessageType.wish_next_view msg hs h =
      on_receive_wish_next_view-Certified c msg hs h
  dispatch-Certified MessageType.timeout msg hs h = on_receive_timeout-Certified c msg hs h
  dispatch-Certified MessageType.timeout_vote msg hs h =
      on_receive_timeout_vote-Certified c msg hs h
  dispatch-Certified MessageType.new_view msg hs h = on_receive_new_view-Certified c msg hs h
  dispatch-Certified MessageType.prepare msg hs h =
      on_base-Certified c (on_receive_prepare c msg) hs
        (on_receive_prepare-Certified c own msg hs.base) h
  dispatch-Certified MessageType.prepare_vote msg hs h =
      on_base-Certified c (on_receive_prepare_vote c msg) hs
        (on_receive_prepare_vote-Certified c own msg hs.base) h
  dispatch-Certified MessageType.pre_commit msg hs h =
      on_base-Certified c (on_receive_pre_commit c msg) hs
        (on_receive_pre_commit-Certified c own msg hs.base) h
  dispatch-Certified MessageType.pre_commit_vote msg hs h =
      on_base-Certified c (on_receive_pre_commit_vote c msg) hs
        (on_receive_pre_commit_vote-Certified c own msg hs.base) h
  dispatch-Certified MessageType.commit msg hs h =
      on_base-Certified c (on_receive_commit c msg) hs
        (on_receive_commit-Certified c own msg hs.base) h
  dispatch-Certified MessageType.commit_vote msg hs h = on_receive_commit_vote-Certified msg hs h
  dispatch-Certified MessageType.decide msg hs h = on_receive_decide-Certified msg hs h
  dispatch-Certified MessageType.unknown msg hs h = Yields-ok hs h

  drain_wishes-Certified :
      (f : ℕ) (v : View) (hs : Cogsworth) → KeptBase c hs (drain_wishes f c v hs)
  unfolding drain_wishes
  drain_wishes-Certified zero v hs h = Yields-out_of_fuel
  drain_wishes-Certified (suc f) v hs h =
      Yields-option (pop v hs.base.msg_queue).0 _ _ (Yields-ok (popped v hs) h) λ m e.
        Yields->>= (on_receive_wish_next_view c m (popped v hs)) _
          (on_receive_wish_next_view-Certified c m (popped v hs) h)
          λ s kept. drain_wishes-Certified f v s kept

  drain_timeout_votes-Certified :
      (f : ℕ) (v : View) (hs : Cogsworth) → KeptBase c hs (drain_timeout_votes f c v hs)
  unfolding drain_timeout_votes
  drain_timeout_votes-Certified zero v hs h = Yields-out_of_fuel
  drain_timeout_votes-Certified (suc f) v hs h =
      Yields-option (pop v hs.base.msg_queue).0 _ _ (Yields-ok (popped v hs) h) λ m e.
        elim (Bool-cases (type_beq m.type MessageType.timeout_vote)) [
          | inl vote ↦ rw vote (
              Yields->>= (on_receive_timeout_vote c m (popped v hs)) _
                (on_receive_timeout_vote-Certified c m (popped v hs) h)
                λ s kept. drain_timeout_votes-Certified f v s kept)
          | inr other ↦ rw other (Yields-ok (popped v hs) h)
        ]

  dispatch_queued-Certified :
      (process : Process) (v : View) (type : MessageType) (msg : Msg) (hs : Cogsworth)
      → Keeping c process
      → KeptBase c hs (dispatch_queued process c v type msg hs)
  unfolding dispatch_queued
  dispatch_queued-Certified process v MessageType.wish_next_view msg hs k h =
      Yields->>= (on_receive_wish_next_view c msg hs) _
        (on_receive_wish_next_view-Certified c msg hs h)
        λ s kept. drain_wishes-Certified (drain_fuel s) v s kept
  dispatch_queued-Certified process v MessageType.timeout_vote msg hs k h =
      Yields->>= (on_receive_timeout_vote c msg hs) _ (on_receive_timeout_vote-Certified c msg hs h)
        λ s kept. drain_timeout_votes-Certified (drain_fuel s) v s kept
  dispatch_queued-Certified process v MessageType.decide msg hs k h =
      Yields->>= (on_receive_decide c msg hs) _ (on_receive_decide-Certified msg hs h)
        λ s kept. k (next_view v) s kept
  dispatch_queued-Certified process v type msg hs k h = dispatch-Certified type msg hs h

  process_queue-Certified : (f : ℕ) → Keeping c (process_queue f c)
  unfolding process_queue
  process_queue-Certified zero v hs h = Yields-out_of_fuel
  process_queue-Certified (suc f) v hs h =
      Yields-option (pop v hs.base.msg_queue).0 _ _ (Yields-ok (popped v hs) h) λ m e.
        dispatch_queued-Certified (process_queue f c) v m.type m (popped v hs)
          (process_queue-Certified f) h

  pub handle_msg-Certified : (msg : Msg) (hs : Cogsworth) → KeptBase c hs (handle_msg c msg hs)
  unfolding handle_msg process_current_view_queue
  handle_msg-Certified msg hs h =
      let v = hs.base.current_view in
      let later = set_base (λ b. record b { msg_queue = put msg b.msg_queue }) hs in
      Yields-if (ltb v msg.view) _ _ (λ e. process_queue-Certified (drain_fuel later) v later h)
        λ e.
          Yields-if (ltb msg.view v) _ _ (λ e'. process_queue-Certified (drain_fuel hs) v hs h)
            λ e'.
              Yields->>= (process_queue (drain_fuel hs) c v hs) _
                (process_queue-Certified (drain_fuel hs) v hs h)
                λ s kept. dispatch-Certified msg.type msg s kept
