-- ===== src/Consensus/Basic/Termination.antt =====
-- The message loop ends: the calls of ProcessCurrentViewQueue by the handlers and back are bounded
-- by the messages in the queue. On the way, how far the view moves.
use basic_hotstuff.Prelude.{
  ℕ, ◌≤◌, ◌≡◌, refl, false, not, arith, Ends, Ends->>=, Ends-mono, Ends-if, Ends-option, attempt,
  ltb, length, Bool-cases, inl, inr, nat_eq, ap,
}
use basic_hotstuff.Types.{PartialCert, QuorumCert}
use basic_hotstuff.Block.{Block}
use basic_hotstuff.Crypto.{create_quorum_cert}
use basic_hotstuff.Proto.{Msg, MessageType}
use basic_hotstuff.MessageQueue.Popping.{queue_size}
use basic_hotstuff.Consensus.State.{Context, HotStuff, Rpc, send_to_all, matching_msg}
use basic_hotstuff.Consensus.Settling.{Settles-Ends, Settles-attempt, create_quorum_cert-Settles}
use basic_hotstuff.Consensus.Frame.{SameCore, send_to_all-core}
use basic_hotstuff.Consensus.Phases.{read_vote, read_cert, votes_with}
use basic_hotstuff.Consensus.Phases.Voting.{read_vote-Settles, read_cert-Settles}
use basic_hotstuff.Consensus.Kept.{
  Kept-refl, Kept-trans, Kept-same, Kept-store, Kept-finish, Kept-execute,
}
use basic_hotstuff.Consensus.Basic.{
  Process, send_new_view, send_response, committed, count_commit_vote, on_receive_commit_vote,
  decided, on_receive_decide, answer, store_commit, enter_next_view, add_commit_vote, enter_decided,
  execute,
}
use basic_hotstuff.Consensus.Basic.Advance.{
  pending, Advance, Advance-refl, Advance-trans, locked_state, with_lock-Advance, Good,
  send_new_view-Advance,
}

answer-Advance :
    (k : ℕ) (hs s : HotStuff) (c : Context) (b : Block)
    → Advance k hs s
    → Advance k hs (answer c b s)
unfolding send_response
answer-Advance k hs s c b h = record {
  queue = h.queue;
  mutex = h.mutex;
  channel = h.channel;
  kept = h.kept;
  view = h.view;
}

committed-Advance :
    (n : ℕ) (process : Process) (c : Context) (msg : Msg) (b : Block) (pc : PartialCert)
    (qc : QuorumCert) (hs : HotStuff)
    → Good n process
    → pending hs ≤ n
    → Ends (Advance 1 hs) (committed process c msg b pc qc hs)
unfolding committed
committed-Advance n process c msg b pc qc hs good le =
    let hs1 = store_commit b pc qc hs in
    Ends->>= (SameCore hs1) (Advance 1 hs) (send_to_all c Rpc.decide _ hs1) _
      (send_to_all-core c Rpc.decide _ hs1)
      λ hs2 same.
        let hs3 = enter_next_view b hs2 in
        let few : pending hs2 ≤ pending hs = omega (arith, ap queue_size same.queue) in
        let adv : Advance 1 hs hs3 = record {
          queue = few;
          mutex = same.mutex;
          channel = same.channel;
          kept = Kept-trans (Kept-store b hs.cmd_cache hs.block_chain) (
              Kept-trans (Kept-same same.cmds same.chain)
                (Kept-finish b.cmd hs2.cmd_cache hs2.block_chain));
          view = λ room. (omega (arith, same.view), omega (arith, same.view, few));
        } in
        Ends->>= (Advance 0 hs3) (Advance 1 hs) (send_new_view process c hs3) _
          (send_new_view-Advance n process c hs3 good (omega arith))
          λ s adv'. answer-Advance 1 hs s c b (Advance-trans 1 0 hs hs3 s adv adv')

count_commit_vote-Advance :
    (n : ℕ) (process : Process) (c : Context) (msg : Msg) (b : Block) (pc : PartialCert)
    (hs : HotStuff)
    → Good n process
    → pending hs ≤ n
    → Ends (Advance 1 hs) (count_commit_vote process c msg b pc hs)
unfolding count_commit_vote
count_commit_vote-Advance n process c msg b pc hs good le =
    let votes = votes_with pc hs.verified_commit_votes in
    let hs1 = add_commit_vote b pc hs in
    let kept : Advance 1 hs hs1 =
      let h = Advance-refl 1 hs in
      record {
        queue = h.queue;
        mutex = h.mutex;
        channel = h.channel;
        kept = h.kept;
        view = h.view;
      } in
    Ends-if (Advance 1 hs) (ltb (length votes) c.node_manager.quorum_size) _ _ kept (
      Ends->>= (λ q. Unit) (Advance 1 hs) (attempt (create_quorum_cert c.crypto b votes)) _
        (Settles-Ends _ (Settles-attempt _ (create_quorum_cert-Settles c.crypto b votes)))
        λ made _. Ends-option (Advance 1 hs) made _ _ kept λ qc.
          Ends-mono (Advance 1 hs1) (Advance 1 hs) _
            (committed-Advance n process c msg b pc qc hs1 good le)
            λ s adv. record {
              queue = adv.queue;
              mutex = adv.mutex;
              channel = adv.channel;
              kept = adv.kept;
              view = adv.view;
            })

pub on_receive_commit_vote-Advance :
    (n : ℕ) (process : Process) (c : Context) (msg : Msg) (hs : HotStuff)
    → Good n process
    → pending hs ≤ n
    → Ends (Advance 1 hs) (on_receive_commit_vote process c msg hs)
unfolding on_receive_commit_vote
on_receive_commit_vote-Advance n process c msg hs good le =
    Ends-if (Advance 1 hs) (not (matching_msg msg MessageType.commit_vote hs)) _ _
      (Advance-refl 1 hs)
      (Ends->>= (λ v. Unit) (Advance 1 hs) (read_vote c msg (λ s. s.finished_commit_votes) hs) _
        (read_vote-Settles c msg (λ s. s.finished_commit_votes) hs)
        λ vote _. Ends-option (Advance 1 hs) vote _ _ (Advance-refl 1 hs) λ v.
          with_lock-Advance 1 (count_commit_vote process c msg v.0 v.1) hs
            (count_commit_vote-Advance n process c msg v.0 v.1 (locked_state hs) good le))

decided-Advance :
    (n : ℕ) (process : Process) (c : Context) (msg : Msg) (b : Block) (qc : QuorumCert)
    (hs : HotStuff)
    → Good n process
    → pending hs ≤ n
    → msg.view ≡ hs.current_view
    → Ends (Advance 1 hs) (decided process c msg b qc hs)
unfolding decided
decided-Advance n process c msg b qc hs good le at_view =
    let hs1 = enter_decided c msg qc hs in
    let adv : Advance 1 hs hs1 = record {
      queue = omega arith;
      mutex = refl;
      channel = refl;
      kept = Kept-refl hs.cmd_cache hs.block_chain;
      view = λ room. (omega arith, omega arith);
    } in
    Ends->>= (Advance 0 hs1) (Advance 1 hs) (send_new_view process c hs1) _
      (send_new_view-Advance n process c hs1 good le)
      λ s adv'. answer-Advance 1 hs s c b (Advance-trans 1 0 hs hs1 s adv adv')

matching_view :
    (msg : Msg) (type : MessageType) (hs : HotStuff)
    → not (matching_msg msg type hs) ≡ false
    → msg.view ≡ hs.current_view
unfolding matching_msg
matching_view msg type hs h = ground arith

pub on_receive_decide-Advance :
    (n : ℕ) (process : Process) (c : Context) (msg : Msg) (hs : HotStuff)
    → Good n process
    → pending hs ≤ n
    → Ends (Advance 1 hs) (on_receive_decide process c msg hs)
unfolding on_receive_decide
on_receive_decide-Advance n process c msg hs good le =
    elim (Bool-cases (not (matching_msg msg MessageType.decide hs))) [
      | inl e ↦ rw e (Advance-refl 1 hs)
      | inr e ↦ rw e (
          Ends->>= (λ v. Unit) (Advance 1 hs) (read_cert c msg hs) _ (read_cert-Settles c msg hs)
            λ cert _. Ends-option (Advance 1 hs) cert _ _ (Advance-refl 1 hs) λ v.
              Ends-mono (Advance 1 (execute v.0 hs)) (Advance 1 hs) _
                (with_lock-Advance 1 (decided process c msg v.0 v.1) (execute v.0 hs) (
                  decided-Advance n process c msg v.0 v.1 (locked_state (execute v.0 hs)) good le
                    (matching_view msg MessageType.decide hs e)))
                λ s adv. record {
                  queue = adv.queue;
                  mutex = adv.mutex;
                  channel = adv.channel;
                  kept = Kept-trans (Kept-execute v.0 hs.cmd_cache hs.block_chain) adv.kept;
                  view = adv.view;
                })
    ]
