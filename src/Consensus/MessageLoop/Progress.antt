-- ===== src/Consensus/MessageLoop/Progress.antt =====
-- What HandleMsg does with a message and with a timeout.
use basic_hotstuff.Prelude.{
  suc, ◌+◌, ◌≤◌, ◌<◌, ◌≡◌, false, arith, Ends, Ends->>=, Ends-mono, Ends-if, ltb, nat_eq, ap, ◌∙◌,
}
use basic_hotstuff.Encoding.{u64_mod}
use basic_hotstuff.Proto.{Msg}
use basic_hotstuff.MessageQueue.{put}
use basic_hotstuff.MessageQueue.Popping.{queue_size-put}
use basic_hotstuff.Consensus.State.{Context, HotStuff, lock, unlock}
use basic_hotstuff.Consensus.Kept.{Kept, Kept-same, Kept-trans}
use basic_hotstuff.Consensus.Frame.{Taken, lock-Taken}
use basic_hotstuff.Timer.{stop, reset, fire}
use basic_hotstuff.Consensus.Basic.{send_new_view, skip_view}
use basic_hotstuff.Consensus.MessageLoop.{
  process_queue, handle_timeout, process_current_view_queue, handle_msg,
}
use basic_hotstuff.Consensus.Basic.Advance.{
  pending, Advance, Advance-refl, Advance-trans, then-Advance, send_new_view-Advance,
}
use basic_hotstuff.Consensus.MessageLoop.Queue.{
  dispatch-Advance, process-Good, process_current_view_queue-Advance,
}

-- What a step of the message loop may do with a message from the channel, which it may keep.
pub record Handled (hs s : HotStuff) : Type 0 where
  pub queue : pending s ≤ pending hs + 1
  pub mutex : s.locked ≡ hs.locked
  pub channel : s.msg_chan ≡ hs.msg_chan
  pub kept : Kept hs.cmd_cache hs.block_chain s.cmd_cache s.block_chain
  pub view :
      hs.current_view + pending hs + 1 < u64_mod
      → (hs.current_view ≤ s.current_view)
        × (s.current_view + pending s ≤ hs.current_view + pending hs + 1)

pub Advance-Handled : (hs s : HotStuff) → Advance 1 hs s → Handled hs s
Advance-Handled hs s h = record {
  queue = omega (arith, h.queue);
  mutex = h.mutex;
  channel = h.channel;
  kept = h.kept;
  view = λ room. h.view room;
}

pub kept-Handled :
    (hs : HotStuff) (msg : Msg) (s : HotStuff)
    → Advance 0 (record hs { msg_queue = put msg hs.msg_queue }) s
    → Handled hs s
kept-Handled hs msg s h =
    let more = queue_size-put msg hs.msg_queue in
    record {
      queue = omega (arith, h.queue);
      mutex = h.mutex;
      channel = h.channel;
      kept = h.kept;
      view = λ room. let (up, most) = h.view (omega arith) in (up, omega arith);
    }

-- For every message of the channel and in every state, the rounds that `HandleMsg` is given for the
-- queue are enough: it does not run out of fuel. Where it returns, the queue grew by at most one
-- message, the channel and the mutex are as before, what was done stays done,
-- no request was taken, and stored blocks are under their own hashes if they were before; where the
-- view cannot reach 2^64, it has not fallen, and it has risen by no more than the messages that
-- left the queue and one.
pub handle_msg-Handled :
    (c : Context) (msg : Msg) (hs : HotStuff) → Ends (Handled hs) (handle_msg c msg hs)
unfolding handle_msg
handle_msg-Handled c msg hs =
    let v = hs.current_view in
    Ends-if (Handled hs) (ltb v msg.view) _ _
      (Ends-mono _ (Handled hs) _
        (process_current_view_queue-Advance c v (record hs { msg_queue = put msg hs.msg_queue }))
        (λ s adv. kept-Handled hs msg s adv))
      (Ends-if (Handled hs) (ltb msg.view v) _ _
        (Ends-mono _ (Handled hs) _ (process_current_view_queue-Advance c v hs)
          (λ s adv. Advance-Handled hs s (Advance-trans 0 1 hs s s adv (Advance-refl 1 s))))
        (Ends->>= (Advance 0 hs) (Handled hs) (process_current_view_queue c v hs) _
          (process_current_view_queue-Advance c v hs)
          λ s adv.
            Ends-mono (Advance 1 hs) (Handled hs) _
              (then-Advance 0 1 hs s _ adv (
                dispatch-Advance (pending s) (process_queue (suc (pending s)) c) c msg.type msg s
                  (process-Good (pending s) c) (omega arith)))
              (λ s' adv'. Advance-Handled hs s' adv')))

-- What a timeout leaves.
pub record TimedOut (hs s : HotStuff) : Type 0 where
  pub free : s.locked ≡ false
  pub channel : s.msg_chan ≡ hs.msg_chan
  pub kept : Kept hs.cmd_cache hs.block_chain s.cmd_cache s.block_chain

-- In every state the timeout case of `HandleMsg` does not run out of fuel. Where it returns, the mutex is free, the
-- channel is as before, what was done stays done, no request was taken, and stored blocks are under
-- their own hashes if they were before.
pub handle_timeout-TimedOut :
    (c : Context) (hs : HotStuff) → Ends (TimedOut hs) (handle_timeout c hs)
unfolding handle_timeout unlock
handle_timeout-TimedOut c hs =
    let hs0 = record hs { timer = stop (reset (fire hs.timer)) } in
    Ends->>= (Taken hs0) (TimedOut hs) (lock hs0) _ (lock-Taken hs0) λ hs1 (_, same).
      let hs2 = skip_view hs1 in
      Ends->>= (Advance 0 hs2) (TimedOut hs)
        (send_new_view (process_queue (suc (pending hs2)) c) c hs2) _
        (send_new_view-Advance (pending hs2) (process_queue (suc (pending hs2)) c) c hs2
          (process-Good (pending hs2) c) (omega arith))
        λ hs3 adv.
          let hs4 = unlock hs3 in
          Ends-mono (Advance 0 hs4) (TimedOut hs) _
            (process_current_view_queue-Advance c hs4.current_view hs4)
            (λ s adv'. record {
              free = adv'.mutex;
              channel = adv'.channel ∙ (adv.channel ∙ ap (λ t. t.msg_chan) same);
              kept =
                  Kept-trans (Kept-same (ap (λ t. t.cmd_cache) same) (ap (λ t. t.block_chain) same))
                    (Kept-trans adv.kept adv'.kept);
            })
