-- ===== src/Consensus/Certified/Run.antt =====
-- The message loop of the basic replica keeps certificates and votes certified, and so does a run.
use basic_hotstuff.Prelude.{
  ℕ, ◌≡◌, refl, List, [], ◌∷◌, Option, none, some, Bool, true, false, not, ok, arith, length,
  nat_eq, EachValue-nil, bytes_eq, Result, ltb, from_option, Yields, Yields-ok, Yields-out_of_fuel,
  zero, suc, Bool-cases, Option-cases, >>=-eq-ok, bytes_beq, bytes_beq_refl, inl, inr, ◌++◌,
  Yields-if, Yields->>=, Yields-option, if◌then◌else◌, subst,
}
use basic_hotstuff.Types.{QuorumCert}
use basic_hotstuff.Proto.{Msg, MessageType, Request}
use basic_hotstuff.Crypto.{genesis_hash, create_quorum_cert}
use basic_hotstuff.Consensus.State.{Context, HotStuff, Rpc, lock, unlock, is_leader}
use basic_hotstuff.Consensus.Phases.{send_prepare}
use basic_hotstuff.Consensus.Certified.{Certified, IsConfigured}
use basic_hotstuff.Consensus.Certified.Helpers.{Kept, holds, lock-Certified}
use basic_hotstuff.Types.{View}
use basic_hotstuff.MessageQueue.{pop, put}
use basic_hotstuff.MessageQueue.Popping.{queue_size}
use basic_hotstuff.Timer.{stop, reset, fire}
use basic_hotstuff.Block.{get_genesis}
use basic_hotstuff.Consensus.Certified.Phases.{send_prepare-Certified}
use basic_hotstuff.Consensus.State.{new_hot_stuff, put_msg}
use basic_hotstuff.Consensus.Basic.{
  Process, on_receive_new_view, send_new_view, skip_view, on_receive_decide, new_basic_hot_stuff,
}
use basic_hotstuff.Consensus.MessageLoop.{
  drain_new_views, dispatch_queued, process_queue, process_current_view_queue, handle_msg,
  handle_timeout, handle_req, next_request,
}
use basic_hotstuff.Consensus.Certified.Deciding.{
  Keeping, on_receive_new_view-Certified, send_new_view-Certified, on_receive_decide-Certified,
  dispatch-Certified,
}
use basic_hotstuff.CmdCache.{enqueue}
use basic_hotstuff.Server.{deliver, send_request}
use basic_hotstuff.Consensus.Run.{Step, Reach}

module _ (c : Context) where
  drain_new_views-Certified :
      (f : ℕ) (v : View) (hs : HotStuff) → Kept c hs (drain_new_views f c v hs)
  unfolding drain_new_views
  drain_new_views-Certified zero v hs h = Yields-out_of_fuel
  drain_new_views-Certified (suc f) v hs h =
      let hs1 = record hs { msg_queue = (pop v hs.msg_queue).1 } in
      Yields-option (pop v hs.msg_queue).0 _ _ (Yields-ok hs1 h) λ m e.
        drain_new_views-Certified f v (on_receive_new_view c m hs1)
          (on_receive_new_view-Certified c m hs1 h)

  put_msg-Certified :
      (msg : Msg) (hs s : HotStuff) → put_msg msg hs ≡ some s → Certified c hs → Certified c s
  unfolding put_msg
  put_msg-Certified msg hs s e h = elim (Bool-cases (ltb (length hs.msg_chan) 1000)) [
    | inl room ↦
        let same : record hs { msg_chan = hs.msg_chan ++ msg ∷ [] } ≡ s = ground arith in
        subst (Certified c) same h
    | inr full ↦ absurd (ground arith)
  ]

  turned_away-Certified :
      (b : Bool) (msg : Msg) (hs s : HotStuff)
      → (if b then some hs else put_msg msg hs) ≡ some s
      → Certified c hs
      → Certified c s
  turned_away-Certified true msg hs s e h =
      let same : hs ≡ s = ground arith in subst (Certified c) same h
  turned_away-Certified false msg hs s e h = put_msg-Certified msg hs s e h

  pub deliver-Certified :
      (loaded : Bool) (rpc : Rpc) (msg : Msg) (hs s : HotStuff)
      → deliver loaded rpc msg hs ≡ some s
      → Certified c hs
      → Certified c s
  unfolding deliver
  deliver-Certified loaded Rpc.new_view msg hs s e h =
      turned_away-Certified (not loaded) msg hs s e h
  deliver-Certified loaded Rpc.new_view_basic msg hs s e h =
      turned_away-Certified loaded msg hs s e h
  deliver-Certified loaded _ msg hs s e h = put_msg-Certified msg hs s e h

  pub send_request-Certified :
      (req : Request) (hs s : HotStuff)
      → send_request req hs ≡ some s
      → Certified c hs
      → Certified c s
  unfolding send_request
  send_request-Certified req hs s e h = elim (Option-cases (enqueue req hs.cmd_cache)) [
    | inl full ↦ absurd (ground arith)
    | inr (cache, room) ↦
        let same : record hs { cmd_cache = cache } ≡ s = ground arith in subst (Certified c) same h
  ]

  -- The state that a replica starts with.
  pub first-Certified :
      (qc : QuorumCert)
      → create_quorum_cert c.crypto (get_genesis c.crypto.prims) [] ≡ ok qc
      → Certified c (record (new_hot_stuff c) { high_qc = qc; pre_commit_qc = qc })
  unfolding create_quorum_cert new_hot_stuff
  first-Certified qc made =
      let hash = genesis_hash c.crypto in
      let same : bytes_beq hash hash ≡ true = bytes_beq_refl hash in
      let named : qc.hash ≡ hash = ground arith in
      holds c (inl refl) (inr (inl named)) (inl refl) (EachValue-nil _) (EachValue-nil _)
        (EachValue-nil _)

  module _ (own : IsConfigured c) where
    dispatch_queued-Certified :
        (process : Process) (v : View) (type : MessageType) (msg : Msg) (hs : HotStuff)
        → Keeping c process
        → Kept c hs (dispatch_queued process c v type msg hs)
    unfolding dispatch_queued
    dispatch_queued-Certified process v MessageType.new_view msg hs k h =
        let hs1 = on_receive_new_view c msg hs in
        drain_new_views-Certified (suc (queue_size hs1.msg_queue)) v hs1
          (on_receive_new_view-Certified c msg hs h)
    dispatch_queued-Certified process v MessageType.decide msg hs k h =
        Yields->>= (on_receive_decide process c msg hs) _
          (on_receive_decide-Certified c own process k msg hs h) λ s kept. k s.current_view s kept
    dispatch_queued-Certified process v type msg hs k h =
        dispatch-Certified c own process k type msg hs h

    process_queue-Certified : (f : ℕ) → Keeping c (process_queue f c)
    unfolding process_queue
    process_queue-Certified zero v hs h = Yields-out_of_fuel
    process_queue-Certified (suc f) v hs h =
        let hs1 = record hs { msg_queue = (pop v hs.msg_queue).1 } in
        Yields-option (pop v hs.msg_queue).0 _ _ (Yields-ok hs1 h) λ m e.
          dispatch_queued-Certified (process_queue f c) v m.type m hs1 (process_queue-Certified f) h

    handle_msg-Certified : (msg : Msg) (hs : HotStuff) → Kept c hs (handle_msg c msg hs)
    unfolding handle_msg process_current_view_queue
    handle_msg-Certified msg hs h =
        let v = hs.current_view in
        let later = record hs { msg_queue = put msg hs.msg_queue } in
        Yields-if (ltb v msg.view) _ _
          (λ e. process_queue-Certified (suc (queue_size later.msg_queue)) v later h)
          λ e.
            Yields-if (ltb msg.view v) _ _
              (λ e'. process_queue-Certified (suc (queue_size hs.msg_queue)) v hs h)
              λ e'.
                Yields->>= (process_queue (suc (queue_size hs.msg_queue)) c v hs) _
                  (process_queue-Certified (suc (queue_size hs.msg_queue)) v hs h)
                  λ s kept.
                    dispatch-Certified c own (process_queue (suc (queue_size s.msg_queue)) c)
                      (process_queue-Certified (suc (queue_size s.msg_queue))) msg.type msg s kept

    handle_timeout-Certified : (hs : HotStuff) → Kept c hs (handle_timeout c hs)
    unfolding handle_timeout process_current_view_queue unlock
    handle_timeout-Certified hs h =
        let fired = record hs { timer = stop (reset (fire hs.timer)) } in
        Yields->>= (lock fired) _ (lock-Certified c fired h) λ s held.
          let left = skip_view s in
          let n = suc (queue_size left.msg_queue) in
          Yields->>= (send_new_view (process_queue n c) c left) _
            (send_new_view-Certified c (process_queue n c) left (process_queue-Certified n) held)
            λ t kept.
              process_queue-Certified (suc (queue_size t.msg_queue)) t.current_view (unlock t) kept

    requested-Certified :
        (next : Option (Request × List Request)) (signals : ℕ) (hs : HotStuff)
        → Kept c hs (
            from_option next
              (ok (record hs { cmd_cache = record hs.cmd_cache { channel = [] } }))
              λ r.
                send_prepare c r.0 (record hs {
                  ready = signals;
                  cmd_cache = record hs.cmd_cache { channel = r.1 };
                }))
    requested-Certified none signals hs h = Yields-ok _ h
    requested-Certified (some (req, reqs)) signals hs h = send_prepare-Certified c own req _ h

    pub handle_req-Certified : (hs : HotStuff) → Kept c hs (handle_req c hs)
    unfolding handle_req
    handle_req-Certified hs h = go hs.ready
      where
        go :
            (ready : ℕ)
            → Yields (Certified c) (
                let r : Result HotStuff = elim ready [
                  | zero ↦ ok hs
                  | suc signals ↦
                      from_option
                        (next_request hs.cmd_cache hs.cmd_cache.channel)
                        (ok (record hs { cmd_cache = record hs.cmd_cache { channel = [] } }))
                        λ r. send_prepare c r.0 (record hs {
                          ready = signals;
                          cmd_cache = record hs.cmd_cache { channel = r.1 };
                        })
                ] in
                r)
        go zero = Yields-ok hs h
        go (suc signals) =
            requested-Certified (next_request hs.cmd_cache hs.cmd_cache.channel) signals hs h

    Step-Certified : (hs s : HotStuff) → Step c hs s → Certified c hs → Certified c s
    Step-Certified hs s (Step.delivered rpc msg e) h = deliver-Certified false rpc msg hs s e h
    Step-Certified hs s (Step.requested req e) h = send_request-Certified req hs s e h
    Step-Certified hs s (Step.handled msg rest e run) h =
        (handle_msg-Certified msg (record hs { msg_chan = rest }) h).at s run
    Step-Certified hs s (Step.timed_out run) h = (handle_timeout-Certified hs h).at s run
    Step-Certified hs s (Step.proposed run) h = (handle_req-Certified hs h).at s run
    Step-Certified hs s (Step.ticked now) h = h

    new-Certified : (hs : HotStuff) → new_basic_hot_stuff c ≡ ok hs → Certified c hs
    unfolding new_basic_hot_stuff
    new-Certified hs e =
        let (qc, made, rest) =
          >>=-eq-ok (create_quorum_cert c.crypto (get_genesis c.crypto.prims) []) _ e in
        let first = record (new_hot_stuff c) { high_qc = qc; pre_commit_qc = qc } in
        let h = first-Certified qc made in
        elim (Bool-cases (is_leader c first)) [
          | inl b ↦
              let same : record first { ready = suc first.ready } ≡ hs = ground arith in
              subst (Certified c) same h
          | inr b ↦ let same : first ≡ hs = ground arith in subst (Certified c) same h
        ]

-- In every state of a run of a basic replica, which any messages, requests, timeouts and clock
-- may drive, PrepareQC, the lock PreCommitQC and CommitQC are each the zero value, or name the
-- genesis hash, or hold signatures of a quorum of different ids, each valid for the bytes of some
-- block; and so are the signatures of every vote that it keeps. The replica's key pair is the
-- configured one, and its two quorum sizes agree.
pub Reach-Certified :
    (c : Context) (hs s : HotStuff)
    → IsConfigured c
    → new_basic_hot_stuff c ≡ ok hs
    → Reach c hs s
    → Certified c s
Reach-Certified c hs s own e Reach.start = new-Certified c own hs e
Reach-Certified c hs s own e (Reach.after {s = t} r step) =
    Step-Certified c own t s step (Reach-Certified c hs t own e r)
