-- ===== src/Consensus/MessageLoop/Timeouts.antt =====
-- What a timeout does, and where it waits for ever.
use basic_hotstuff.Prelude.{
  Option, from_option, ◌∙◌, ℕ, suc, ◌≡◌, refl, some, true, false, ok, hang, nat_beq, nat_beq_refl,
  nat_eq,
}
use basic_hotstuff.Types.{PartialCert, View}
use basic_hotstuff.Block.{Block}
use basic_hotstuff.Proto.{Msg, MessageType}
use basic_hotstuff.MessageQueue.{pop}
use basic_hotstuff.MessageQueue.Popping.{queue_size}
use basic_hotstuff.Timer.{stop, reset, fire}
use basic_hotstuff.NodeManager.{get_leader_by_view}
use basic_hotstuff.Consensus.State.{Context, HotStuff, get_leader_id, matching_msg, lock, next_view}
use basic_hotstuff.Consensus.Phases.{read_vote, on_receive_prepare_vote}
use basic_hotstuff.Consensus.Basic.{skip_view, send_new_view, add_high_qc}
use basic_hotstuff.Consensus.MessageLoop.{process_queue, dispatch_queued, dispatch, handle_timeout}

from_option-some {ℓ κ} :
    {A : Type ℓ} {B : Type κ} (o : Option A) (b : B) (f : A → B) (a : A)
    → o ≡ some a
    → from_option o b f ≡ f a
from_option-some o b f a e = rw e refl

-- A prepare vote of the queue, met while the mutex is held.
queued_vote-hang :
    (n : ℕ) (c : Context) (v : View) (t : HotStuff) (msg : Msg) (b : Block) (pc : PartialCert)
    → t.locked ≡ true
    → (pop v t.msg_queue).0 ≡ some msg
    → msg.type ≡ MessageType.prepare_vote
    → msg.view ≡ t.current_view
    → read_vote c msg (λ s. s.finished_prepare_votes) t ≡ ok (some (b, pc))
    → process_queue (suc n) c v t ≡ hang
unfolding process_queue dispatch_queued dispatch on_receive_prepare_vote matching_msg read_vote lock
queued_vote-hang n c v t msg b pc held queued type view valid =
    let t1 = record t { msg_queue = (pop v t.msg_queue).1 } in
    let stuck : dispatch_queued (process_queue n c) c v msg.type msg t1 ≡ hang =
      rw (type, view, nat_beq_refl t.current_view) (rw valid (rw held refl)) in
    from_option-some (pop v t.msg_queue).0 _ _ msg queued ∙ stuck

-- A replica that times out with its mutex free, and leads the next view, waits for ever for the mutex
-- if the first message of that view in its queue is a prepare vote that passes the checks of
-- `OnReceivePrepareVote`: `SendNewView` handles the queue while the mutex is held.
pub timeout_blocks :
    (c : Context) (hs : HotStuff) (msg : Msg) (b : Block) (pc : PartialCert)
    → hs.locked ≡ false
    → nat_beq
        (get_leader_by_view c.node_manager.total_nodes_number (next_view hs.current_view))
        c.crypto.conf_id
      ≡ true
    → (pop (next_view hs.current_view) hs.msg_queue).0 ≡ some msg
    → msg.type ≡ MessageType.prepare_vote
    → msg.view ≡ next_view hs.current_view
    → read_vote c msg (λ s. s.finished_prepare_votes) hs ≡ ok (some (b, pc))
    → handle_timeout c hs ≡ hang
unfolding handle_timeout send_new_view lock get_leader_id read_vote
timeout_blocks c hs msg b pc free leads queued type view valid =
    let timed = record hs { timer = stop (reset (fire hs.timer)); locked = true } in
    let waiting = add_high_qc hs.prepare_qc (skip_view timed) in
    let stuck =
      queued_vote-hang (queue_size hs.msg_queue) c (next_view hs.current_view) waiting msg b pc refl
        queued type view valid in
    rw (free, leads, stuck) refl
