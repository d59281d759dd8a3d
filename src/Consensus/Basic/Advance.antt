-- ===== src/Consensus/Basic/Advance.antt =====
-- How far a step of the message loop may move the replica.
use basic_hotstuff.Prelude.{
  ℕ, ◌+◌, ◌≤◌, ◌<◌, ◌≡◌, refl, Bool, true, false, Result, ok, hang, ◌>>=◌, arith, Ends, Ends->>=,
  Ends-mono, Ends-if, ltb, length, if◌then◌else◌, Bool-cases, inl, inr, nat_eq, lookup_list, ◌∙◌,
  ap, sym,
}
use basic_hotstuff.Encoding.{u64_mod}
use basic_hotstuff.Types.{View}
use basic_hotstuff.MessageQueue.Popping.{queue_size}
use basic_hotstuff.Consensus.State.{Context, HotStuff, Rpc, lock, unlock, is_leader}
use basic_hotstuff.Consensus.Frame.{SameCore, send_to_leader-core}
use basic_hotstuff.Consensus.Phases.{with_lock}
use basic_hotstuff.Consensus.Kept.{Kept, Kept-refl, Kept-trans, Kept-same}
use basic_hotstuff.Consensus.Basic.{
  Process, process_new_view, add_high_qc, try_new_view, send_new_view,
}

abbrev pub pending : HotStuff → ℕ
pending hs = queue_size hs.msg_queue

-- The queue does not grow, the mutex is as before, what was done and stored is kept, and, where the view cannot reach 2^64, it does
-- not fall, and rises by at most the messages taken out of the queue and `k` more.
pub record Advance (k : ℕ) (hs s : HotStuff) : Type 0 where
  pub queue : pending s ≤ pending hs
  pub mutex : s.locked ≡ hs.locked
  pub channel : s.msg_chan ≡ hs.msg_chan
  pub kept : Kept hs.cmd_cache hs.block_chain s.cmd_cache s.block_chain
  pub view :
      hs.current_view + pending hs + k < u64_mod
      → (hs.current_view ≤ s.current_view)
        × (s.current_view + pending s ≤ hs.current_view + pending hs + k)

pub Advance-refl : (k : ℕ) (hs : HotStuff) → Advance k hs hs
Advance-refl k hs = record {
  queue = omega arith;
  mutex = refl;
  channel = refl;
  kept = Kept-refl hs.cmd_cache hs.block_chain;
  view = λ h. (omega arith, omega arith);
}

pub Advance-trans :
    (j k : ℕ) (a b c : HotStuff) → Advance j a b → Advance k b c → Advance (j + k) a c
Advance-trans j k a b c h g = record {
  queue = omega (arith, h.queue, g.queue);
  mutex = g.mutex ∙ h.mutex;
  channel = g.channel ∙ h.channel;
  kept = Kept-trans h.kept g.kept;
  view = λ room.
      let (up, most) = h.view (omega arith) in
      let (up', most') = g.view (omega arith) in (omega arith, omega arith);
}

SameCore-Advance : (k : ℕ) (hs s : HotStuff) → SameCore hs s → Advance k hs s
SameCore-Advance k hs s h = record {
  queue = omega (arith, ap queue_size h.queue);
  mutex = h.mutex;
  channel = h.channel;
  kept = Kept-same h.cmds h.chain;
  view = λ room. (omega (arith, h.view), omega (arith, h.view, ap queue_size h.queue));
}

pub core-Advance :
    (k : ℕ) (hs : HotStuff) (r : Result HotStuff) → Ends (SameCore hs) r → Ends (Advance k hs) r
core-Advance k hs r h =
    Ends-mono (SameCore hs) (Advance k hs) r h (λ s same. SameCore-Advance k hs s same)

-- After a first part, the rest.
pub then-Advance :
    (j k : ℕ) (a b : HotStuff) (r : Result HotStuff)
    → Advance j a b
    → Ends (Advance k b) r
    → Ends (Advance (j + k) a) r
then-Advance j k a b r h g =
    Ends-mono (Advance k b) (Advance (j + k) a) r g (λ s adv. Advance-trans j k a b s h adv)

abbrev pub locked_state : HotStuff → HotStuff
locked_state hs = record hs { locked = true }

pub with_lock-Advance :
    (k : ℕ) (body : HotStuff → Result HotStuff) (hs : HotStuff)
    → Ends (Advance k (locked_state hs)) (body (locked_state hs))
    → Ends (Advance k hs) (with_lock body hs)
unfolding lock unlock
with_lock-Advance k body hs h = free hs.locked refl
  where
    free :
        (b : Bool)
        → hs.locked ≡ b
        → Ends (Advance k hs) (
            (if b then hang else ok (record hs { locked = true })) >>= λ hs1.
            body hs1 >>= λ hs2. ok (unlock hs2))
    free true e = tt
    free false e =
        Ends->>= (Advance k (record hs { locked = true })) (Advance k hs)
          (body (record hs { locked = true })) _ h
          λ s adv. record {
            queue = adv.queue;
            mutex = sym e;
            channel = adv.channel;
            kept = adv.kept;
            view = adv.view;
          }

-- What the handlers suppose of the calls of ProcessCurrentViewQueue.
abbrev pub Good : ℕ → Process → Type 0
Good n process = (v : View) (s : HotStuff) → pending s ≤ n → Ends (Advance 0 s) (process v s)

pub try_new_view-Advance : (c : Context) (hs : HotStuff) → Advance 0 hs (try_new_view c hs)
unfolding process_new_view
try_new_view-Advance c hs =
    elim (Bool-cases
      (ltb (length (lookup_list hs.current_view hs.high_qc_tmp)) c.node_manager.quorum_size)) [
        | inl e ↦ rw e (Advance-refl 0 hs)
        | inr e ↦ rw e (record {
          queue = omega arith;
          mutex = refl;
          channel = refl;
          kept = Kept-refl hs.cmd_cache hs.block_chain;
          view = λ h. (omega arith, omega arith);
        })
      ]

pub send_new_view-Advance :
    (n : ℕ) (process : Process) (c : Context) (hs : HotStuff)
    → Good n process
    → pending hs ≤ n
    → Ends (Advance 0 hs) (send_new_view process c hs)
unfolding send_new_view
send_new_view-Advance n process c hs good le =
    Ends-if (Advance 0 hs) (is_leader c hs) _ _
      (Ends->>= (Advance 0 (add_high_qc hs.prepare_qc hs)) (Advance 0 hs)
        (process hs.current_view (add_high_qc hs.prepare_qc hs)) _
        (good hs.current_view (add_high_qc hs.prepare_qc hs) le)
        λ s adv.
          Advance-trans 0 0 hs s (try_new_view c s)
            (record {
              queue = adv.queue;
              mutex = adv.mutex;
              channel = adv.channel;
              kept = adv.kept;
              view = adv.view;
            })
            (try_new_view-Advance c s))
      (core-Advance 0 hs _ (send_to_leader-core c Rpc.new_view_basic _ hs))
