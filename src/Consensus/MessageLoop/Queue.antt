-- ===== src/Consensus/MessageLoop/Queue.antt =====
-- The fuel of ProcessCurrentViewQueue, and what its handlers leave of the state.
use basic_hotstuff.Prelude.{
  ℕ, zero, suc, ◌≤◌, ◌<◌, ◌≡◌, refl, Option, none, some, Result, ok, arith, Ends, Ends->>=,
  Ends-mono, from_option, Bool-cases, inl, inr, is_none, flag, nat_eq, ap,
}
use basic_hotstuff.Types.{View}
use basic_hotstuff.Proto.{Msg, MessageType}
use basic_hotstuff.MessageQueue.{pop}
use basic_hotstuff.MessageQueue.Popping.{queue_size, pop-queue_size, pop-none}
use basic_hotstuff.Convert.{quorum_cert_from_proto}
use basic_hotstuff.Consensus.State.{Context, HotStuff}
use basic_hotstuff.Consensus.Phases.Voting.{
  on_receive_prepare-core, on_receive_prepare_vote-core, on_receive_pre_commit-core,
  on_receive_pre_commit_vote-core, on_receive_commit-core,
}
use basic_hotstuff.Consensus.Kept.{Kept-refl}
use basic_hotstuff.Consensus.Basic.{Process, add_high_qc, on_receive_new_view, on_receive_decide}
use basic_hotstuff.Consensus.MessageLoop.{
  dispatch, drain_new_views, dispatch_queued, process_queue, process_current_view_queue,
}
use basic_hotstuff.Consensus.Basic.Advance.{
  pending, Advance, Advance-refl, Advance-trans, core-Advance, then-Advance, Good,
  try_new_view-Advance,
}
use basic_hotstuff.Consensus.Basic.Termination.{
  on_receive_commit_vote-Advance, on_receive_decide-Advance,
}

on_receive_new_view-Advance :
    (c : Context) (msg : Msg) (hs : HotStuff) → Advance 0 hs (on_receive_new_view c msg hs)
unfolding on_receive_new_view
on_receive_new_view-Advance c msg hs =
    elim (Bool-cases (flag hs.current_view hs.finished_view_change)) [
      | inl e ↦ rw e (Advance-refl 0 hs)
      | inr e ↦ elim (Bool-cases (is_none msg.qc)) [
        | inl e' ↦ rw (e, e') (Advance-refl 0 hs)
        | inr e' ↦
            let hs1 = add_high_qc (quorum_cert_from_proto msg.qc) hs in
            let adv = try_new_view-Advance c hs1 in
            rw (e, e')
              (record {
                queue = adv.queue;
                mutex = adv.mutex;
                channel = adv.channel;
                kept = adv.kept;
                view = adv.view;
              })
      ]
    ]

pub dispatch-Advance :
    (n : ℕ) (process : Process) (c : Context) (type : MessageType) (msg : Msg) (hs : HotStuff)
    → Good n process
    → pending hs ≤ n
    → Ends (Advance 1 hs) (dispatch process c type msg hs)
unfolding dispatch
dispatch-Advance n process c MessageType.prepare msg hs good le =
    core-Advance 1 hs _ (on_receive_prepare-core c msg hs)
dispatch-Advance n process c MessageType.prepare_vote msg hs good le =
    core-Advance 1 hs _ (on_receive_prepare_vote-core c msg hs)
dispatch-Advance n process c MessageType.pre_commit msg hs good le =
    core-Advance 1 hs _ (on_receive_pre_commit-core c msg hs)
dispatch-Advance n process c MessageType.pre_commit_vote msg hs good le =
    core-Advance 1 hs _ (on_receive_pre_commit_vote-core c msg hs)
dispatch-Advance n process c MessageType.commit msg hs good le =
    core-Advance 1 hs _ (on_receive_commit-core c msg hs)
dispatch-Advance n process c MessageType.commit_vote msg hs good le =
    on_receive_commit_vote-Advance n process c msg hs good le
dispatch-Advance n process c MessageType.decide msg hs good le =
    on_receive_decide-Advance n process c msg hs good le
dispatch-Advance n process c MessageType.new_view msg hs good le =
    Advance-trans 0 1 hs (on_receive_new_view c msg hs) (on_receive_new_view c msg hs)
      (on_receive_new_view-Advance c msg hs) (Advance-refl 1 (on_receive_new_view c msg hs))
dispatch-Advance n process c _ msg hs good le = Advance-refl 1 hs

-- The state once `Pop` has run.
abbrev pop_state : View → HotStuff → HotStuff
pop_state v hs = record hs { msg_queue = (pop v hs.msg_queue).1 }

pop-none-Advance :
    (v : View) (hs : HotStuff) → (pop v hs.msg_queue).0 ≡ none → Advance 0 hs (pop_state v hs)
pop-none-Advance v hs e =
    let same : queue_size (pop v hs.msg_queue).1 ≡ queue_size hs.msg_queue =
      ap queue_size (pop-none v hs.msg_queue e) in
    record {
      queue = omega arith;
      mutex = refl;
      channel = refl;
      kept = Kept-refl hs.cmd_cache hs.block_chain;
      view = λ room. (omega arith, omega arith);
    }

-- A message that is taken out pays for one view.
pop-some-Advance :
    (v : View) (hs : HotStuff) (m : Msg) (r : Result HotStuff)
    → (pop v hs.msg_queue).0 ≡ some m
    → Ends (Advance 1 (pop_state v hs)) r
    → Ends (Advance 0 hs) r
pop-some-Advance v hs m r e h =
    let fewer = pop-queue_size v hs.msg_queue m e in
    Ends-mono (Advance 1 (pop_state v hs)) (Advance 0 hs) r h λ s adv. record {
      queue = omega (arith, adv.queue);
      mutex = adv.mutex;
      channel = adv.channel;
      kept = adv.kept;
      view = λ room. let (up, most) = adv.view (omega arith) in (up, omega arith);
    }

drain_new_views-Advance :
    (f : ℕ) (c : Context) (v : View) (hs : HotStuff)
    → pending hs < f
    → Ends (Advance 0 hs) (drain_new_views f c v hs)
unfolding drain_new_views
drain_new_views-Advance zero c v hs lt = absurd (omega arith)
drain_new_views-Advance (suc f) c v hs lt = go (pop v hs.msg_queue).0 refl (λ m fewer.
    let hs1 = on_receive_new_view c m (pop_state v hs) in
    let adv = on_receive_new_view-Advance c m (pop_state v hs) in
    then-Advance 0 1 (pop_state v hs) hs1 _ adv (
      Ends-mono (Advance 0 hs1) (Advance 1 hs1) _
        (drain_new_views-Advance f c v hs1 (omega (arith, adv.queue)))
        λ s a. Advance-trans 0 1 hs1 s s a (Advance-refl 1 s)))
  where
    go :
        (o : Option Msg)
        → (pop v hs.msg_queue).0 ≡ o
        → ((m : Msg)
            → pending (pop_state v hs) < pending hs
            → Ends
                (Advance 1 (pop_state v hs))
                (drain_new_views f c v (on_receive_new_view c m (pop_state v hs))))
        → Ends (Advance 0 hs) (
            from_option o
              (ok (pop_state v hs))
              (λ m. drain_new_views f c v (on_receive_new_view c m (pop_state v hs))))
    go none e rest = pop-none-Advance v hs e
    go (some m) e rest = pop-some-Advance v hs m _ e (rest m (pop-queue_size v hs.msg_queue m e))

dispatch_queued-Advance :
    (n : ℕ) (process : Process) (c : Context) (v : View) (type : MessageType) (msg : Msg)
    (hs : HotStuff)
    → Good n process
    → pending hs ≤ n
    → Ends (Advance 1 hs) (dispatch_queued process c v type msg hs)
unfolding dispatch_queued
dispatch_queued-Advance n process c v MessageType.new_view msg hs good le =
    let hs1 = on_receive_new_view c msg hs in
    let adv = on_receive_new_view-Advance c msg hs in
    then-Advance 0 1 hs hs1 _ adv (
      Ends-mono (Advance 0 hs1) (Advance 1 hs1) _
        (drain_new_views-Advance (suc (pending hs1)) c v hs1 (omega arith))
        λ s a. Advance-trans 0 1 hs1 s s a (Advance-refl 1 s))
dispatch_queued-Advance n process c v MessageType.decide msg hs good le =
    Ends->>= (Advance 1 hs) (Advance 1 hs) (on_receive_decide process c msg hs) _
      (on_receive_decide-Advance n process c msg hs good le)
      λ s adv. then-Advance 1 0 hs s _ adv (good s.current_view s (omega (arith, adv.queue)))
dispatch_queued-Advance n process c v type msg hs good le =
    dispatch-Advance n process c type msg hs good le

process_queue-Advance :
    (f : ℕ) (c : Context) (v : View) (hs : HotStuff)
    → pending hs < f
    → Ends (Advance 0 hs) (process_queue f c v hs)
unfolding process_queue
process_queue-Advance zero c v hs lt = absurd (omega arith)
process_queue-Advance (suc f) c v hs lt = go (pop v hs.msg_queue).0 refl (λ m fewer.
    dispatch_queued-Advance (pending (pop_state v hs)) (process_queue f c) c v m.type m
      (pop_state v hs) (λ w s le. process_queue-Advance f c w s (omega arith)) (omega arith))
  where
    go :
        (o : Option Msg)
        → (pop v hs.msg_queue).0 ≡ o
        → ((m : Msg)
            → pending (pop_state v hs) < pending hs
            → Ends
                (Advance 1 (pop_state v hs))
                (dispatch_queued (process_queue f c) c v m.type m (pop_state v hs)))
        → Ends (Advance 0 hs) (
            from_option o
              (ok (pop_state v hs))
              (λ m. dispatch_queued (process_queue f c) c v m.type m (pop_state v hs)))
    go none e rest = pop-none-Advance v hs e
    go (some m) e rest = pop-some-Advance v hs m _ e (rest m (pop-queue_size v hs.msg_queue m e))

pub process-Good : (f : ℕ) (c : Context) → Good f (process_queue (suc f) c)
process-Good f c v s le = process_queue-Advance (suc f) c v s (omega arith)

-- In every state and for every view `ProcessCurrentViewQueue` returns, panics, or hangs at a held
-- mutex or a cycle of stored blocks: the model's fuel never runs out. Where it returns, no message
-- was added to the queue and the mutex is as before; and where the view cannot reach 2^64, it has
-- not fallen and has risen by no more than the messages that left.
pub process_current_view_queue-Advance :
    (c : Context) (v : View) (hs : HotStuff)
    → Ends (Advance 0 hs) (process_current_view_queue c v hs)
unfolding process_current_view_queue
process_current_view_queue-Advance c v hs =
    process_queue-Advance (suc (pending hs)) c v hs (omega arith)
