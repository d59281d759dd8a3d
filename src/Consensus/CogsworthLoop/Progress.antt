-- ===== src/Consensus/CogsworthLoop/Progress.antt =====
-- What HandleMsg of the replica with wishes does with a message and with a timeout.
use basic_hotstuff.Prelude.{Ends, Ends->>=, Ends-mono, Ends-if, ltb, nat_eq}
use basic_hotstuff.Proto.{Msg}
use basic_hotstuff.MessageQueue.{put}
use basic_hotstuff.Timer.{fire}
use basic_hotstuff.Consensus.State.{Context}
use basic_hotstuff.Consensus.Cogsworth.{Cogsworth, set_base}
use basic_hotstuff.Consensus.Cogsworth.Moves.{Moves, then-Moves, Verified}
use basic_hotstuff.Consensus.Cogsworth.Advancing.{MovesOn, wish_to_advance-MovesOn}
use basic_hotstuff.Consensus.CogsworthLoop.{process_current_view_queue, handle_msg, handle_timeout}
use basic_hotstuff.Consensus.CogsworthLoop.Decisions.{one_more, dispatch-Moves}
use basic_hotstuff.Consensus.CogsworthLoop.Queue.{process_current_view_queue-Moves}
use basic_hotstuff.Consensus.MessageLoop.Progress.{Handled, Advance-Handled, kept-Handled}

-- The shared state was handled as in the basic replica, and the votes stay verified.
abbrev pub HandledVotes : Context → Cogsworth → Cogsworth → Type 0
HandledVotes c hs s = Handled hs.base s.base × (Verified c.crypto hs → Verified c.crypto s)

-- For every message of the channel and in every state, the rounds that `HandleMsg` of the replica
-- with wishes is given for the queue and its inner loops are enough: it does not run out of fuel.
-- Where it returns, the queue grew by at most one message, the channel and the mutex are as before,
-- what was done stays done, no request was taken, and stored blocks are under their own hashes if
-- they were before; where the view cannot reach 2^64, it has not fallen, and it has risen by no
-- more than the messages that left the queue and one; and if every kept wish and timeout vote was
-- verified before, so is each one after.
pub handle_msg-HandledVotes :
    (c : Context) (msg : Msg) (hs : Cogsworth) → Ends (HandledVotes c hs) (handle_msg c msg hs)
unfolding handle_msg
handle_msg-HandledVotes c msg hs =
    let v = hs.base.current_view in
    let queued = set_base (λ b. record b { msg_queue = put msg b.msg_queue }) hs in
    Ends-if (HandledVotes c hs) (ltb v msg.view) _ _
      (Ends-mono _ (HandledVotes c hs) _ (process_current_view_queue-Moves c v queued) (λ s mv. (
        kept-Handled hs.base msg s.base mv.advance,
        λ w. mv.verified (record { wishes = w.wishes; votes = w.votes }),
      )))
      (Ends-if (HandledVotes c hs) (ltb msg.view v) _ _
        (Ends-mono _ (HandledVotes c hs) _
          (one_more c hs _ (process_current_view_queue-Moves c v hs))
          (λ s mv. (Advance-Handled hs.base s.base mv.advance, mv.verified)))
        (Ends->>= (Moves c.crypto 0 hs) (HandledVotes c hs) (process_current_view_queue c v hs) _
          (process_current_view_queue-Moves c v hs)
          λ s mv.
            Ends-mono (Moves c.crypto 1 hs) (HandledVotes c hs) _
              (then-Moves c.crypto 0 1 hs s _ mv (dispatch-Moves c msg.type msg s))
              (λ t mt. (Advance-Handled hs.base t.base mt.advance, mt.verified))))

-- In every state the timeout case of `HandleMsg` of the replica with wishes does not run
-- out of fuel. Where it returns, the mutex was free and
-- is, the channel is as before, what was done stays done, no request was taken, and no message was
-- added to the queue; where the view and the queue together stay below 2^64 - 1, the view has
-- risen, but not by more than the messages that left the queue and one; and if every kept wish and
-- timeout vote was verified before, so is each one after.
pub handle_timeout-MovesOn :
    (c : Context) (hs : Cogsworth) → Ends (MovesOn c hs) (handle_timeout c hs)
unfolding handle_timeout
handle_timeout-MovesOn c hs =
    let hs1 = set_base (λ b. record b { timer = fire b.timer }) hs in
    Ends-mono (MovesOn c hs1) (MovesOn c hs) _ (wish_to_advance-MovesOn c hs1) (λ s (m, left). (
      record {
        advance = record {
          queue = m.advance.queue;
          mutex = m.advance.mutex;
          channel = m.advance.channel;
          kept = m.advance.kept;
          view = m.advance.view;
        };
        verified = λ w. m.verified (record { wishes = w.wishes; votes = w.votes });
      },
      left,
    ))
