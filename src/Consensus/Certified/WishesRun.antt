-- ===== src/Consensus/Certified/WishesRun.antt =====
-- Every step of a run of the replica with wishes keeps certificates and votes certified.
use basic_hotstuff.Prelude.{
  ◌≡◌, [], true, ok, nat_eq, ap, suc, bytes_eq, >>=-eq-ok, if◌then◌else◌, subst,
}
use basic_hotstuff.Crypto.{create_quorum_cert}
use basic_hotstuff.Consensus.State.{Context, is_leader}
use basic_hotstuff.Consensus.Certified.{Certified, IsConfigured}
use basic_hotstuff.Consensus.Certified.Helpers.{if-Certified}
use basic_hotstuff.Timer.{fire}
use basic_hotstuff.Block.{get_genesis}
use basic_hotstuff.Consensus.State.{new_hot_stuff}
use basic_hotstuff.Consensus.Cogsworth.{Cogsworth, set_base, new_cogsworth}
use basic_hotstuff.Consensus.Cogsworth.Moves.{or_state}
use basic_hotstuff.Consensus.MessageLoop.{handle_req}
use basic_hotstuff.Consensus.CogsworthLoop.{handle_timeout, on_beat}
use basic_hotstuff.Consensus.CogsworthRun.{Step, Reach}
use basic_hotstuff.Consensus.Certified.Run.{
  handle_req-Certified, deliver-Certified, send_request-Certified, first-Certified,
}
use basic_hotstuff.Consensus.Certified.Wishes.{Base, on_base-Certified, wish_to_advance-Certified}
use basic_hotstuff.Consensus.Certified.WishesLoop.{handle_msg-Certified}

module _ (c : Context) (own : IsConfigured c) where
  Step-Certified : (hs s : Cogsworth) → Step c hs s → Base c hs → Base c s
  unfolding handle_timeout on_beat
  Step-Certified hs s (Step.delivered rpc msg {b = b} e) h =
      deliver-Certified c true rpc msg hs.base b e h
  Step-Certified hs s (Step.requested req {b = b} e) h = send_request-Certified c req hs.base b e h
  Step-Certified hs s (Step.handled msg rest e run) h =
      (handle_msg-Certified c own msg (set_base (λ b. record b { msg_chan = rest }) hs) h).at s run
  Step-Certified hs s (Step.timed_out run) h =
      (wish_to_advance-Certified c (set_base (λ b. record b { timer = fire b.timer }) hs) h).at s
        run
  Step-Certified hs s (Step.proposed run) h =
      (on_base-Certified c (handle_req c) hs (handle_req-Certified c own hs.base) h).at s run
  Step-Certified hs s (Step.ticked now) h = h

  new-Certified : (hs : Cogsworth) → new_cogsworth c ≡ ok hs → Base c hs
  unfolding new_cogsworth
  new-Certified hs e =
      let (qc, made, rest) =
        >>=-eq-ok (create_quorum_cert c.crypto (get_genesis c.crypto.prims) []) _ e in
      let first = record (new_hot_stuff c) { high_qc = qc; pre_commit_qc = qc } in
      let new : Cogsworth = record {
        base = if is_leader c first then record first { ready = suc first.ready } else first;
        verified_timeout_votes = [];
        wish_next_view = [];
        wish_finished = [];
        timeout_vote_finished = [];
      } in
      let same : new ≡ hs = ap (or_state new) rest in
      let h = first-Certified c qc made in
      subst (Base c) same
        (if-Certified c (is_leader c first) (record first { ready = suc first.ready }) first h h)

-- In every state of a run of a replica with wishes, which any messages, requests, timeouts and
-- clock may drive, PrepareQC, the lock PreCommitQC and CommitQC are each the zero value, or name
-- the genesis hash, or hold signatures of a quorum of different ids, each valid for the bytes of
-- some block; and so are the signatures of every vote that it keeps for a block. The replica's key
-- pair is the configured one, and its two quorum sizes agree.
pub Reach-CertifiedBase :
    (c : Context) (hs s : Cogsworth)
    → IsConfigured c
    → new_cogsworth c ≡ ok hs
    → Reach c hs s
    → Certified c s.base
Reach-CertifiedBase c hs s own e Reach.start = new-Certified c own hs e
Reach-CertifiedBase c hs s own e (Reach.after {s = t} r step) =
    Step-Certified c own t s step (Reach-CertifiedBase c hs t own e r)
