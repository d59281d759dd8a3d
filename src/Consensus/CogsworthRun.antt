-- ===== src/Consensus/CogsworthRun.antt =====
-- Runs of the replica with wishes, and what holds in every state of one. A step is one call of a
-- method from start to end.
use basic_hotstuff.Prelude.{
  ℕ, suc, List, [], ◌∷◌, some, ok, true, false, ◌≡◌, >>=-eq-ok, Ends-ok, subst, ap, length, arith,
  lookup_list, nat_eq, lookup, Bool, if◌then◌else◌,
}
use basic_hotstuff.Block.{get_genesis}
use basic_hotstuff.Crypto.{create_quorum_cert}
use basic_hotstuff.Proto.{Msg, Request}
use basic_hotstuff.Server.{deliver, send_request}
use basic_hotstuff.Consensus.State.{Context, HotStuff, Rpc, new_hot_stuff, is_leader}
use basic_hotstuff.Consensus.MessageLoop.{handle_req}
use basic_hotstuff.Consensus.MessageLoop.Requests.{Requested, handle_req-Requested}
use basic_hotstuff.Consensus.Cogsworth.{Cogsworth, set_base, new_cogsworth}
use basic_hotstuff.Consensus.Cogsworth.Moves.{Verified, or_state}
use basic_hotstuff.Consensus.Cogsworth.Advancing.{MovesOn}
use basic_hotstuff.Consensus.CogsworthLoop.{handle_msg, handle_timeout, on_beat}
use basic_hotstuff.Consensus.CogsworthLoop.Progress.{
  HandledVotes, handle_msg-HandledVotes, handle_timeout-MovesOn,
}
use basic_hotstuff.Consensus.Run.Sanity.{
  Sane, Remembers, deliver-Sane, send_request-Sane, stepped-Sane, first-Sane, Handled-Sane,
  Requested-Sane, ticked-Sane,
}

pub data Step (c : Context) : Cogsworth → Cogsworth → Type 0 where
  delivered :
      (rpc : Rpc) (msg : Msg) {hs : Cogsworth} {b : HotStuff}
      → deliver true rpc msg hs.base ≡ some b
      → Step c hs (record hs { base = b })
  requested :
      (req : Request) {hs : Cogsworth} {b : HotStuff}
      → send_request req hs.base ≡ some b
      → Step c hs (record hs { base = b })
  handled :
      (msg : Msg) (rest : List Msg) {hs s : Cogsworth}
      → hs.base.msg_chan ≡ msg ∷ rest
      → handle_msg c msg (set_base (λ b. record b { msg_chan = rest }) hs) ≡ ok s
      → Step c hs s
  timed_out : {hs s : Cogsworth} → handle_timeout c hs ≡ ok s → Step c hs s
  proposed : {hs s : Cogsworth} → on_beat c hs ≡ ok s → Step c hs s
  ticked : (now : ℕ) {hs : Cogsworth} → Step c hs (set_base (λ b. record b { now = now }) hs)

pub data Reach (c : Context) (hs : Cogsworth) : Cogsworth → Type 0 where
  start : Reach c hs hs
  after : {s t : Cogsworth} → Reach c hs s → Step c s t → Reach c hs t

-- The shared state as in the basic replica, and the kept votes verified.
pub record SaneVotes (c : Context) (hs : Cogsworth) : Type 0 where
  pub sane : Sane hs.base
  pub verified : Verified c.crypto hs

-- What a step keeps.
abbrev KeptVotes : Context → Cogsworth → Cogsworth → Type 0
KeptVotes c hs s = SaneVotes c s × Remembers hs.base s.base

base-KeptVotes :
    (c : Context) (hs : Cogsworth) (b : HotStuff)
    → SaneVotes c hs
    → Sane b × Remembers hs.base b
    → KeptVotes c hs (record hs { base = b })
base-KeptVotes c hs b h (sane, known) = (
  record {
    sane = sane;
    verified = record { wishes = h.verified.wishes; votes = h.verified.votes };
  },
  known,
)

Step-KeptVotes : (c : Context) (hs s : Cogsworth) → Step c hs s → SaneVotes c hs → KeptVotes c hs s
unfolding on_beat
Step-KeptVotes c hs s (Step.delivered rpc msg {b = b} e) h =
    base-KeptVotes c hs b h (deliver-Sane true rpc msg hs.base b e h.sane)
Step-KeptVotes c hs s (Step.requested req {b = b} e) h =
    base-KeptVotes c hs b h (send_request-Sane req hs.base b e h.sane)
Step-KeptVotes c hs s (Step.handled msg rest e run) h =
    let hs1 = set_base (λ b. record b { msg_chan = rest }) hs in
    let (moved, votes) =
      Ends-ok (HandledVotes c hs1) (handle_msg c msg hs1) s (handle_msg-HandledVotes c msg hs1)
        run in
    let (sane, known) = Handled-Sane msg rest hs.base s.base e moved h.sane in
    (
      record {
        sane = sane;
        verified = votes (record { wishes = h.verified.wishes; votes = h.verified.votes });
      },
      known,
    )
Step-KeptVotes c hs s (Step.timed_out run) h =
    let (moved, (view, free)) =
      Ends-ok (MovesOn c hs) (handle_timeout c hs) s (handle_timeout-MovesOn c hs) run in
    let adv = moved.advance in
    (
      record {
        sane =
            stepped-Sane hs.base s.base free (omega (arith, ap length adv.channel, h.sane.messages))
              (omega (arith, ap length adv.kept.requests)) adv.kept.keyed h.sane;
        verified = moved.verified h.verified;
      },
      adv.kept.finished,
    )
Step-KeptVotes c hs s (Step.proposed run) h =
    let (b, eb, es) = >>=-eq-ok (handle_req c hs.base) (λ b. ok (record hs { base = b })) run in
    let same : record hs { base = b } ≡ s = ground arith in
    subst (KeptVotes c hs) same (
      base-KeptVotes c hs b h (
        Requested-Sane hs.base b
          (Ends-ok (Requested hs.base) (handle_req c hs.base) b (handle_req-Requested c hs.base) eb)
          h.sane))
Step-KeptVotes c hs s (Step.ticked now) h =
    base-KeptVotes c hs (record hs.base { now = now }) h
      (ticked-Sane now hs.base h.sane, λ cmd e. e)

signalled-Sane :
    (leads : Bool) (hs : HotStuff)
    → Sane hs
    → Sane (if leads then record hs { ready = suc hs.ready } else hs)
signalled-Sane true hs h = record {
  free = h.free;
  keyed = h.keyed;
  messages = h.messages;
  requests = h.requests;
}
signalled-Sane false hs h = h

new-SaneVotes : (c : Context) (hs : Cogsworth) → new_cogsworth c ≡ ok hs → SaneVotes c hs
unfolding new_cogsworth lookup_list lookup
new-SaneVotes c hs e =
    let (qc, _, made) =
      >>=-eq-ok (create_quorum_cert c.crypto (get_genesis c.crypto.prims) []) _ e in
    let first = record (new_hot_stuff c) { high_qc = qc; pre_commit_qc = qc } in
    let b = if is_leader c first then record first { ready = suc first.ready } else first in
    let new : Cogsworth = record {
      base = b;
      verified_timeout_votes = [];
      wish_next_view = [];
      wish_finished = [];
      timeout_vote_finished = [];
    } in
    let same : new ≡ hs = ap (or_state new) made in
    subst (SaneVotes c) same (record {
      sane = signalled-Sane (is_leader c first) first (first-Sane c qc);
      verified = record { wishes = λ v. tt; votes = λ v. tt };
    })

-- In every state that a replica with wishes reaches from its start, by any messages, requests,
-- timeouts and clock, the mutex is free between two steps, every stored block stands under its own
-- hash, the channels hold at most 1000 messages and 500 requests, and every wish and timeout vote
-- that it keeps was verified: a wish as a signature of its view, a timeout vote as one of its view
-- and some certificate.
pub Reach-SaneVotes :
    (c : Context) (hs s : Cogsworth) → new_cogsworth c ≡ ok hs → Reach c hs s → SaneVotes c s
Reach-SaneVotes c hs s e Reach.start = new-SaneVotes c hs e
Reach-SaneVotes c hs s e (Reach.after {s = t} r step) =
    (Step-KeptVotes c t s step (Reach-SaneVotes c hs t e r)).0
