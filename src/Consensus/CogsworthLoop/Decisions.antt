-- ===== src/Consensus/CogsworthLoop/Decisions.antt =====
-- Decisions, and the dispatch of a message by its type: what they may change.
use basic_hotstuff.Prelude.{
  ℕ, not, Result, Ends, Ends->>=, Ends-mono, Ends-if, Ends-option, attempt, ltb, length, nat_eq,
}
use basic_hotstuff.Types.{PartialCert, QuorumCert}
use basic_hotstuff.Block.{Block}
use basic_hotstuff.Crypto.{create_quorum_cert}
use basic_hotstuff.Proto.{Msg, MessageType}
use basic_hotstuff.Consensus.State.{Context, HotStuff, Rpc, send_to_all, matching_msg}
use basic_hotstuff.Consensus.Settling.{Settles-Ends, Settles-attempt, create_quorum_cert-Settles}
use basic_hotstuff.Consensus.Frame.{SameCore, send_to_all-core}
use basic_hotstuff.Consensus.Phases.{
  read_vote, read_cert, votes_with, with_lock, on_receive_prepare, on_receive_prepare_vote,
  on_receive_pre_commit, on_receive_pre_commit_vote, on_receive_commit,
}
use basic_hotstuff.Consensus.Phases.Voting.{
  read_vote-Settles, read_cert-Settles, on_receive_prepare-core, on_receive_prepare_vote-core,
  on_receive_pre_commit-core, on_receive_pre_commit_vote-core, on_receive_commit-core,
}
use basic_hotstuff.Consensus.Kept.{Kept-trans, Kept-store, Kept-finish, Kept-execute}
use basic_hotstuff.Consensus.Basic.{send_response, answer, store_commit, add_commit_vote, execute}
use basic_hotstuff.Consensus.Basic.Advance.{
  Advance-refl, core-Advance, locked_state, with_lock-Advance,
}
use basic_hotstuff.Consensus.Cogsworth.{Cogsworth, on_base, set_base}
use basic_hotstuff.Consensus.Cogsworth.Moves.{
  Moves, Moves-refl, Moves-trans, then-Moves, base-Moves, on_base-Moves,
}
use basic_hotstuff.Consensus.Cogsworth.Handlers.{on_receive_timeout_vote-Moves}
use basic_hotstuff.Consensus.Cogsworth.Gathering.{on_receive_wish_next_view-Moves}
use basic_hotstuff.Consensus.Cogsworth.Advancing.{
  on_receive_timeout-Moves, on_receive_new_view-Moves, wish_to_advance-Moves,
}
use basic_hotstuff.Consensus.CogsworthLoop.{
  committed, finish_commit, count_commit_vote, on_receive_commit_vote, keep_decided,
  on_receive_decide, dispatch,
}

committed-Moves :
    (c : Context) (msg : Msg) (b : Block) (pc : PartialCert) (qc : QuorumCert) (hs : Cogsworth)
    → Ends (Moves c.crypto 1 hs) (committed c msg b pc qc hs)
unfolding committed send_response
committed-Moves c msg b pc qc hs =
    let hs1 = set_base (store_commit b pc qc) hs in
    let adv = Advance-refl 0 hs.base in
    Ends->>= (Moves c.crypto 0 hs1) (Moves c.crypto 1 hs) (on_base (send_to_all c Rpc.decide _) hs1)
      _
      (on_base-Moves c.crypto 0 (send_to_all c Rpc.decide _) hs1
        (core-Advance 0 hs1.base _ (send_to_all-core c Rpc.decide _ hs1.base)))
      λ hs2 m.
        let hs3 = set_base (λ s. answer c b (finish_commit b qc s)) hs2 in
        let m3 : Moves c.crypto 0 hs hs3 = record {
          advance = record {
            queue = m.advance.queue;
            mutex = m.advance.mutex;
            channel = m.advance.channel;
            kept = Kept-trans (Kept-store b hs.base.cmd_cache hs.base.block_chain) (
                Kept-trans m.advance.kept
                  (Kept-finish b.cmd hs2.base.cmd_cache hs2.base.block_chain));
            view = m.advance.view;
          };
          verified = λ v.
              let v' = m.verified (record { wishes = v.wishes; votes = v.votes }) in
              record { wishes = v'.wishes; votes = v'.votes };
        } in
        then-Moves c.crypto 0 1 hs hs3 _ m3 (wish_to_advance-Moves c hs3)

count_commit_vote-Moves :
    (c : Context) (msg : Msg) (b : Block) (pc : PartialCert) (hs : Cogsworth)
    → Ends (Moves c.crypto 1 hs) (count_commit_vote c msg b pc hs)
unfolding count_commit_vote
count_commit_vote-Moves c msg b pc hs =
    let votes = votes_with pc hs.base.verified_commit_votes in
    let hs1 = set_base (add_commit_vote b pc) hs in
    let kept : (k : ℕ) → Moves c.crypto k hs hs1 = λ k.
      let adv = Advance-refl k hs.base in
      base-Moves c.crypto k hs hs1.base (record {
        queue = adv.queue;
        mutex = adv.mutex;
        channel = adv.channel;
        kept = adv.kept;
        view = adv.view;
      }) in
    Ends-if (Moves c.crypto 1 hs) (ltb (length votes) c.node_manager.quorum_size) _ _ (kept 1) (
      Ends->>= (λ q. Unit) (Moves c.crypto 1 hs) (attempt (create_quorum_cert c.crypto b votes)) _
        (Settles-Ends _ (Settles-attempt _ (create_quorum_cert-Settles c.crypto b votes)))
        λ made _.
          Ends-option (Moves c.crypto 1 hs) made _ _ (kept 1)
            λ qc. then-Moves c.crypto 0 1 hs hs1 _ (kept 0) (committed-Moves c msg b pc qc hs1))

on_receive_commit_vote-Moves :
    (c : Context) (msg : Msg) (hs : Cogsworth)
    → Ends (Moves c.crypto 1 hs) (on_receive_commit_vote c msg hs)
unfolding on_receive_commit_vote
on_receive_commit_vote-Moves c msg hs =
    let same = Moves-refl c.crypto 1 hs in
    Ends-if (Moves c.crypto 1 hs) (not (matching_msg msg MessageType.commit_vote hs.base)) _ _ same
      (Ends->>= (λ v. Unit) (Moves c.crypto 1 hs)
        (read_vote c msg (λ s. s.finished_commit_votes) hs.base) _
        (read_vote-Settles c msg (λ s. s.finished_commit_votes) hs.base)
        λ vote _.
          Ends-option (Moves c.crypto 1 hs) vote _ _ same
            λ v. count_commit_vote-Moves c msg v.0 v.1 hs)

pub on_receive_decide-Moves :
    (c : Context) (msg : Msg) (hs : Cogsworth)
    → Ends (Moves c.crypto 1 hs) (on_receive_decide c msg hs)
unfolding on_receive_decide send_response
on_receive_decide-Moves c msg hs =
    let same = Moves-refl c.crypto 1 hs in
    Ends-if (Moves c.crypto 1 hs) (not (matching_msg msg MessageType.decide hs.base)) _ _ same (
      Ends->>= (λ v. Unit) (Moves c.crypto 1 hs) (read_cert c msg hs.base) _
        (read_cert-Settles c msg hs.base)
        λ cert _. Ends-option (Moves c.crypto 1 hs) cert _ _ same λ v.
          let hs1 = set_base (execute v.0) hs in
          let adv = Advance-refl 0 (locked_state hs1.base) in
          Ends->>= (Moves c.crypto 0 hs1) (Moves c.crypto 1 hs)
            (on_base (with_lock (keep_decided c v.0 v.1)) hs1) _
            (on_base-Moves c.crypto 0 (with_lock (keep_decided c v.0 v.1)) hs1 (
              with_lock-Advance 0 (keep_decided c v.0 v.1) hs1.base (record {
                queue = adv.queue;
                mutex = adv.mutex;
                channel = adv.channel;
                kept = adv.kept;
                view = adv.view;
              })))
            λ hs2 m.
              let m2 : Moves c.crypto 0 hs hs2 = record {
                advance = record {
                  queue = m.advance.queue;
                  mutex = m.advance.mutex;
                  channel = m.advance.channel;
                  kept =
                      Kept-trans (Kept-execute v.0 hs.base.cmd_cache hs.base.block_chain)
                        m.advance.kept;
                  view = m.advance.view;
                };
                verified = λ w. m.verified (record { wishes = w.wishes; votes = w.votes });
              } in
              then-Moves c.crypto 0 1 hs hs2 _ m2 (wish_to_advance-Moves c hs2))

-- A step that stays in its view is one that moves by at most one.
pub one_more :
    (c : Context) (hs : Cogsworth) (r : Result Cogsworth)
    → Ends (Moves c.crypto 0 hs) r
    → Ends (Moves c.crypto 1 hs) r
one_more c hs r h =
    Ends-mono (Moves c.crypto 0 hs) (Moves c.crypto 1 hs) r h
      (λ s m. Moves-trans c.crypto 0 1 hs s s m (Moves-refl c.crypto 1 s))

phase-Moves :
    (c : Context) (f : HotStuff → Result HotStuff) (hs : Cogsworth)
    → Ends (SameCore hs.base) (f hs.base)
    → Ends (Moves c.crypto 1 hs) (on_base f hs)
phase-Moves c f hs h = on_base-Moves c.crypto 1 f hs (core-Advance 1 hs.base _ h)

pub dispatch-Moves :
    (c : Context) (type : MessageType) (msg : Msg) (hs : Cogsworth)
    → Ends (Moves c.crypto 1 hs) (dispatch c type msg hs)
unfolding dispatch
dispatch-Moves c MessageType.wish_next_view msg hs =
    one_more c hs _ (on_receive_wish_next_view-Moves c msg hs)
dispatch-Moves c MessageType.timeout msg hs = one_more c hs _ (on_receive_timeout-Moves c msg hs)
dispatch-Moves c MessageType.timeout_vote msg hs =
    one_more c hs _ (on_receive_timeout_vote-Moves c msg hs)
dispatch-Moves c MessageType.new_view msg hs = one_more c hs _ (on_receive_new_view-Moves c msg hs)
dispatch-Moves c MessageType.prepare msg hs =
    phase-Moves c (on_receive_prepare c msg) hs (on_receive_prepare-core c msg hs.base)
dispatch-Moves c MessageType.prepare_vote msg hs =
    phase-Moves c (on_receive_prepare_vote c msg) hs (on_receive_prepare_vote-core c msg hs.base)
dispatch-Moves c MessageType.pre_commit msg hs =
    phase-Moves c (on_receive_pre_commit c msg) hs (on_receive_pre_commit-core c msg hs.base)
dispatch-Moves c MessageType.pre_commit_vote msg hs =
    phase-Moves c (on_receive_pre_commit_vote c msg) hs
      (on_receive_pre_commit_vote-core c msg hs.base)
dispatch-Moves c MessageType.commit msg hs =
    phase-Moves c (on_receive_commit c msg) hs (on_receive_commit-core c msg hs.base)
dispatch-Moves c MessageType.commit_vote msg hs = on_receive_commit_vote-Moves c msg hs
dispatch-Moves c MessageType.decide msg hs = on_receive_decide-Moves c msg hs
dispatch-Moves c MessageType.unknown msg hs = Moves-refl c.crypto 1 hs
