-- ===== src/Consensus/CogsworthLoop/Queue.antt =====
-- ProcessCurrentViewQueue calls itself no more often than there are messages in the queue. On the
-- way, how far the view moves.
use basic_hotstuff.Prelude.{
  ℕ, zero, suc, ◌≤◌, ◌<◌, ◌≡◌, refl, Option, none, some, Bool, true, false, arith, Result, ok, Ends,
  Ends->>=, Ends-mono, ap, nat_eq, from_option,
}
use basic_hotstuff.Types.{View}
use basic_hotstuff.Proto.{Msg, MessageType, type_beq}
use basic_hotstuff.MessageQueue.{pop}
use basic_hotstuff.MessageQueue.Popping.{queue_size, pop-none, pop-queue_size}
use basic_hotstuff.Consensus.State.{Context, next_view}
use basic_hotstuff.Consensus.Kept.{Kept-refl}
use basic_hotstuff.Consensus.Basic.Advance.{pending}
use basic_hotstuff.Consensus.Cogsworth.{Cogsworth}
use basic_hotstuff.Consensus.Cogsworth.Moves.{Moves, Moves-refl, then-Moves, base-Moves}
use basic_hotstuff.Consensus.Cogsworth.Handlers.{on_receive_timeout_vote-Moves}
use basic_hotstuff.Consensus.Cogsworth.Gathering.{on_receive_wish_next_view-Moves}
use basic_hotstuff.Consensus.CogsworthLoop.{
  popped, drain_wishes, drain_timeout_votes, drain_fuel, Process, dispatch_queued, process_queue,
  process_current_view_queue,
}
use basic_hotstuff.Consensus.CogsworthLoop.Decisions.{
  one_more, dispatch-Moves, on_receive_decide-Moves,
}

-- A message that is taken out pays for one view.
popped-Moves :
    (c : Context) (v : View) (hs : Cogsworth) (m : Msg) (r : Result Cogsworth)
    → (pop v hs.base.msg_queue).0 ≡ some m
    → Ends (Moves c.crypto 1 (popped v hs)) r
    → Ends (Moves c.crypto 0 hs) r
popped-Moves c v hs m r e h =
    let fewer = pop-queue_size v hs.base.msg_queue m e in
    Ends-mono (Moves c.crypto 1 (popped v hs)) (Moves c.crypto 0 hs) r h λ s mv. record {
      advance = record {
        queue = omega (arith, mv.advance.queue);
        mutex = mv.advance.mutex;
        channel = mv.advance.channel;
        kept = mv.advance.kept;
        view = λ room. let (up, most) = mv.advance.view (omega arith) in (up, omega arith);
      };
      verified = λ w. mv.verified (record { wishes = w.wishes; votes = w.votes });
    }

emptied-Moves :
    (c : Context) (v : View) (hs : Cogsworth)
    → (pop v hs.base.msg_queue).0 ≡ none
    → Moves c.crypto 0 hs (popped v hs)
emptied-Moves c v hs e =
    let same : queue_size (pop v hs.base.msg_queue).1 ≡ queue_size hs.base.msg_queue =
      ap queue_size (pop-none v hs.base.msg_queue e) in
    base-Moves c.crypto 0 hs (popped v hs).base (record {
      queue = omega arith;
      mutex = refl;
      channel = refl;
      kept = Kept-refl hs.base.cmd_cache hs.base.block_chain;
      view = λ room. (omega arith, omega arith);
    })

-- One round of a loop that takes messages of a view out of the queue.
round-Moves :
    (c : Context) (v : View) (hs : Cogsworth) (next : Msg → Result Cogsworth)
    → ((m : Msg)
        → pending (popped v hs).base < pending hs.base
        → Ends (Moves c.crypto 1 (popped v hs)) (next m))
    → Ends (Moves c.crypto 0 hs) (from_option (pop v hs.base.msg_queue).0 (ok (popped v hs)) next)
round-Moves c v hs next rest = go (pop v hs.base.msg_queue).0 refl
  where
    go :
        (o : Option Msg)
        → (pop v hs.base.msg_queue).0 ≡ o
        → Ends (Moves c.crypto 0 hs) (from_option o (ok (popped v hs)) next)
    go none e = emptied-Moves c v hs e
    go (some m) e = popped-Moves c v hs m _ e (rest m (pop-queue_size v hs.base.msg_queue m e))

drain_wishes-Moves :
    (f : ℕ) (c : Context) (v : View) (hs : Cogsworth)
    → pending hs.base < f
    → Ends (Moves c.crypto 0 hs) (drain_wishes f c v hs)
unfolding drain_wishes
drain_wishes-Moves zero c v hs lt = absurd (omega arith)
drain_wishes-Moves (suc f) c v hs lt = round-Moves c v hs _ λ m fewer.
    Ends->>= (Moves c.crypto 0 (popped v hs)) (Moves c.crypto 1 (popped v hs)) _ _
      (on_receive_wish_next_view-Moves c m (popped v hs))
      λ hs1 mv.
        then-Moves c.crypto 0 1 (popped v hs) hs1 _ mv
          (one_more c hs1 _ (drain_wishes-Moves f c v hs1 (omega (arith, mv.advance.queue))))

Ends-elim :
    (P : Cogsworth → Type 0) (b : Bool) (m n : Result Cogsworth)
    → Ends P m
    → Ends P n
    → Ends P (elim b [ false ↦ n | true ↦ m ])
Ends-elim P true m n hm hn = hm
Ends-elim P false m n hm hn = hn

drain_timeout_votes-Moves :
    (f : ℕ) (c : Context) (v : View) (hs : Cogsworth)
    → pending hs.base < f
    → Ends (Moves c.crypto 0 hs) (drain_timeout_votes f c v hs)
unfolding drain_timeout_votes
drain_timeout_votes-Moves zero c v hs lt = absurd (omega arith)
drain_timeout_votes-Moves (suc f) c v hs lt = round-Moves c v hs _ λ m fewer.
    Ends-elim (Moves c.crypto 1 (popped v hs)) (type_beq m.type MessageType.timeout_vote) _ _
      (Ends->>= (Moves c.crypto 0 (popped v hs)) (Moves c.crypto 1 (popped v hs)) _ _
        (on_receive_timeout_vote-Moves c m (popped v hs))
        λ hs1 mv. then-Moves c.crypto 0 1 (popped v hs) hs1 _ mv (
          one_more c hs1 _ (drain_timeout_votes-Moves f c v hs1 (omega (arith, mv.advance.queue)))))
      (Moves-refl c.crypto 1 (popped v hs))

-- What a round supposes of the calls that ProcessCurrentViewQueue makes of itself.
abbrev Good : Context → ℕ → Process → Type 0
Good c n process =
    (v : View) (s : Cogsworth) → pending s.base ≤ n → Ends (Moves c.crypto 0 s) (process v s)

dispatch_queued-Moves :
    (n : ℕ) (process : Process) (c : Context) (v : View) (type : MessageType) (msg : Msg)
    (hs : Cogsworth)
    → Good c n process
    → pending hs.base ≤ n
    → Ends (Moves c.crypto 1 hs) (dispatch_queued process c v type msg hs)
unfolding dispatch_queued
dispatch_queued-Moves n process c v MessageType.wish_next_view msg hs good le =
    Ends->>= (Moves c.crypto 0 hs) (Moves c.crypto 1 hs) _ _
      (on_receive_wish_next_view-Moves c msg hs)
      λ hs1 mv.
        then-Moves c.crypto 0 1 hs hs1 _ mv
          (one_more c hs1 _ (drain_wishes-Moves (drain_fuel hs1) c v hs1 (omega arith)))
dispatch_queued-Moves n process c v MessageType.timeout_vote msg hs good le =
    Ends->>= (Moves c.crypto 0 hs) (Moves c.crypto 1 hs) _ _
      (on_receive_timeout_vote-Moves c msg hs)
      λ hs1 mv.
        then-Moves c.crypto 0 1 hs hs1 _ mv
          (one_more c hs1 _ (drain_timeout_votes-Moves (drain_fuel hs1) c v hs1 (omega arith)))
dispatch_queued-Moves n process c v MessageType.decide msg hs good le =
    Ends->>= (Moves c.crypto 1 hs) (Moves c.crypto 1 hs) _ _ (on_receive_decide-Moves c msg hs)
      λ s mv.
        then-Moves c.crypto 1 0 hs s _ mv (good (next_view v) s (omega (arith, mv.advance.queue)))
dispatch_queued-Moves n process c v type msg hs good le = dispatch-Moves c type msg hs

process_queue-Moves :
    (f : ℕ) (c : Context) (v : View) (hs : Cogsworth)
    → pending hs.base < f
    → Ends (Moves c.crypto 0 hs) (process_queue f c v hs)
unfolding process_queue
process_queue-Moves zero c v hs lt = absurd (omega arith)
process_queue-Moves (suc f) c v hs lt = round-Moves c v hs _ λ m fewer.
    dispatch_queued-Moves (pending (popped v hs).base) (process_queue f c) c v m.type m
      (popped v hs) (λ w s le. process_queue-Moves f c w s (omega arith)) (omega arith)

pub process_current_view_queue-Moves :
    (c : Context) (v : View) (hs : Cogsworth)
    → Ends (Moves c.crypto 0 hs) (process_current_view_queue c v hs)
unfolding process_current_view_queue
process_current_view_queue-Moves c v hs = process_queue-Moves (drain_fuel hs) c v hs (omega arith)
