-- ===== src/Consensus/Run/Sanity.antt =====
-- What holds in every state of a run of the basic replica.
use basic_hotstuff.Prelude.{
  ℕ, suc, ◌≤◌, ◌≡◌, refl, List, [], ◌∷◌, ◌++◌, some, Bool, true, false, Bytes, not, ok, arith,
  Ends-ok, length, length-append, nat_eq, bytes_eq, lookup, ap, sym, ◌∙◌, ltb, ltb→lt, Bool-cases,
  inl, inr, subst, >>=-eq-ok, if◌then◌else◌,
}
use basic_hotstuff.Proto.{Msg, Request}
use basic_hotstuff.Types.{QuorumCert}
use basic_hotstuff.Primitives.{Primitives}
use basic_hotstuff.Block.{get_genesis}
use basic_hotstuff.Crypto.{create_quorum_cert}
use basic_hotstuff.BlockChain.{new_block_chain, get}
use basic_hotstuff.BlockChain.Cleaning.{IsKeyed, store-IsKeyed}
use basic_hotstuff.CmdCache.{is_finished, enqueue, new_cmd_cache, channel_capacity}
use basic_hotstuff.Server.{deliver, send_request}
use basic_hotstuff.Consensus.State.{Context, HotStuff, Rpc, put_msg, is_leader, new_hot_stuff}
use basic_hotstuff.Consensus.Basic.{new_basic_hot_stuff}
use basic_hotstuff.Consensus.MessageLoop.{handle_msg, handle_timeout, handle_req}
use basic_hotstuff.Consensus.MessageLoop.Progress.{
  Handled, handle_msg-Handled, TimedOut, handle_timeout-TimedOut,
}
use basic_hotstuff.Consensus.MessageLoop.Requests.{Requested, handle_req-Requested}
use basic_hotstuff.Consensus.Run.{Step, Reach}

-- Between two steps the mutex is free, blocks stand under their own hashes, and the two channels are
-- within their capacities.
pub record Sane (hs : HotStuff) : Type 0 where
  pub free : hs.locked ≡ false
  pub keyed : IsKeyed hs.block_chain
  pub messages : length hs.msg_chan ≤ 1000
  pub requests : length hs.cmd_cache.channel ≤ channel_capacity

-- The commands that are done stay done.
abbrev pub Remembers : HotStuff → HotStuff → Type 0
Remembers hs s =
    (cmd : Bytes) → is_finished cmd hs.cmd_cache ≡ true → is_finished cmd s.cmd_cache ≡ true

put_msg-Sane :
    (msg : Msg) (hs s : HotStuff) → put_msg msg hs ≡ some s → Sane hs → Sane s × Remembers hs s
unfolding put_msg
put_msg-Sane msg hs s e sane = elim (Bool-cases (ltb (length hs.msg_chan) 1000)) [
  | inl room ↦
      let same : record hs { msg_chan = hs.msg_chan ++ msg ∷ [] } ≡ s = ground arith in
      let long = length-append hs.msg_chan (msg ∷ []) in
      subst (λ t. Sane t × Remembers hs t) same
        (
          record {
            free = sane.free;
            keyed = sane.keyed;
            messages = omega (arith, ltb→lt _ _ room, long);
            requests = sane.requests;
          },
          λ cmd h. h,
        )
  | inr full ↦ absurd (ground arith)
]

-- A call that the server may turn away.
turned_away-Sane :
    (b : Bool) (msg : Msg) (hs s : HotStuff)
    → (if b then some hs else put_msg msg hs) ≡ some s
    → Sane hs
    → Sane s × Remembers hs s
turned_away-Sane true msg hs s e sane =
    let same : hs ≡ s = ground arith in subst (λ t. Sane t × Remembers hs t) same (sane, λ cmd h. h)
turned_away-Sane false msg hs s e sane = put_msg-Sane msg hs s e sane

pub deliver-Sane :
    (loaded : Bool) (rpc : Rpc) (msg : Msg) (hs s : HotStuff)
    → deliver loaded rpc msg hs ≡ some s
    → Sane hs
    → Sane s × Remembers hs s
unfolding deliver
deliver-Sane loaded Rpc.new_view msg hs s e sane = turned_away-Sane (not loaded) msg hs s e sane
deliver-Sane loaded Rpc.new_view_basic msg hs s e sane = turned_away-Sane loaded msg hs s e sane
deliver-Sane loaded _ msg hs s e sane = put_msg-Sane msg hs s e sane

pub send_request-Sane :
    (req : Request) (hs s : HotStuff)
    → send_request req hs ≡ some s
    → Sane hs
    → Sane s × Remembers hs s
unfolding send_request enqueue is_finished
send_request-Sane req hs s e sane =
    elim (Bool-cases (ltb (length hs.cmd_cache.channel) channel_capacity)) [
      | inl room ↦
          let same : record hs {
            cmd_cache = record hs.cmd_cache { channel = hs.cmd_cache.channel ++ req ∷ [] };
          }
              ≡ s =
            ground arith in
          let long = length-append hs.cmd_cache.channel (req ∷ []) in
          subst (λ t. Sane t × Remembers hs t) same
            (
              record {
                free = sane.free;
                keyed = sane.keyed;
                messages = sane.messages;
                requests = omega (arith, ltb→lt _ _ room, long);
              },
              λ cmd h. h,
            )
      | inr full ↦ absurd (ground arith)
    ]

-- A step of the replica itself that leaves its two channels alone, or shortens the requests.
pub stepped-Sane :
    (hs s : HotStuff)
    → s.locked ≡ false
    → length s.msg_chan ≤ 1000
    → length s.cmd_cache.channel ≤ length hs.cmd_cache.channel
    → (IsKeyed hs.block_chain → IsKeyed s.block_chain)
    → Sane hs
    → Sane s
stepped-Sane hs s free messages requests keyed sane = record {
  free = free;
  keyed = keyed sane.keyed;
  messages = messages;
  requests = omega (arith, requests, sane.requests);
}

pub Handled-Sane :
    (msg : Msg) (rest : List Msg) (hs s : HotStuff)
    → hs.msg_chan ≡ msg ∷ rest
    → Handled (record hs { msg_chan = rest }) s
    → Sane hs
    → Sane s × Remembers hs s
Handled-Sane msg rest hs s e h sane = (
  stepped-Sane hs s (h.mutex ∙ sane.free)
      (omega (arith, ap length h.channel, ap length e, sane.messages))
      (omega (arith, ap length h.kept.requests)) h.kept.keyed sane,
  h.kept.finished,
)

pub Requested-Sane : (hs s : HotStuff) → Requested hs s → Sane hs → Sane s × Remembers hs s
Requested-Sane hs s h sane = (
  stepped-Sane hs s (h.mutex ∙ sane.free) (omega (arith, ap length h.channel, sane.messages))
      h.fewer (λ k. subst IsKeyed (sym h.chain) k) sane,
  h.finished,
)

pub ticked-Sane : (now : ℕ) (hs : HotStuff) → Sane hs → Sane (record hs { now = now })
ticked-Sane now hs sane = record {
  free = sane.free;
  keyed = sane.keyed;
  messages = sane.messages;
  requests = sane.requests;
}

Step-Sane : (c : Context) (hs s : HotStuff) → Step c hs s → Sane hs → Sane s × Remembers hs s
Step-Sane c hs s (Step.delivered rpc msg e) sane = deliver-Sane false rpc msg hs s e sane
Step-Sane c hs s (Step.requested req e) sane = send_request-Sane req hs s e sane
Step-Sane c hs s (Step.handled msg rest e h) sane =
    let hs1 = record hs { msg_chan = rest } in
    Handled-Sane msg rest hs s e
      (Ends-ok (Handled hs1) (handle_msg c msg hs1) s (handle_msg-Handled c msg hs1) h) sane
Step-Sane c hs s (Step.timed_out h) sane =
    let h' = Ends-ok (TimedOut hs) (handle_timeout c hs) s (handle_timeout-TimedOut c hs) h in
    (
      stepped-Sane hs s h'.free (omega (arith, ap length h'.channel, sane.messages))
          (omega (arith, ap length h'.kept.requests)) h'.kept.keyed sane,
      h'.kept.finished,
    )
Step-Sane c hs s (Step.proposed h) sane =
    Requested-Sane hs s (Ends-ok (Requested hs) (handle_req c hs) s (handle_req-Requested c hs) h)
      sane
Step-Sane c hs s (Step.ticked now) sane = (ticked-Sane now hs sane, λ cmd h. h)

new_block_chain-IsKeyed : (p : Primitives) → IsKeyed (new_block_chain p)
unfolding new_block_chain
new_block_chain-IsKeyed p =
    store-IsKeyed (get_genesis p) (record { blocks = []; block_at_height = [] })
      (unfold get lookup in λ h b e. absurd (ground arith))

pub first-Sane :
    (c : Context) (qc : QuorumCert)
    → Sane (record (new_hot_stuff c) { high_qc = qc; pre_commit_qc = qc })
unfolding new_hot_stuff new_cmd_cache
first-Sane c qc = record {
  free = refl;
  keyed = new_block_chain-IsKeyed c.crypto.prims;
  messages = omega arith;
  requests = omega arith;
}

new-Sane : (c : Context) (hs : HotStuff) → new_basic_hot_stuff c ≡ ok hs → Sane hs
unfolding new_basic_hot_stuff
new-Sane c hs e =
    let (qc, _, made) =
      >>=-eq-ok (create_quorum_cert c.crypto (get_genesis c.crypto.prims) []) _ e in
    let first = record (new_hot_stuff c) { high_qc = qc; pre_commit_qc = qc } in
    let sane = first-Sane c qc in
    elim (Bool-cases (is_leader c first)) [
      | inl b ↦
          let same : record first { ready = suc first.ready } ≡ hs = ground arith in
          subst Sane same (record {
            free = sane.free;
            keyed = sane.keyed;
            messages = sane.messages;
            requests = sane.requests;
          })
      | inr b ↦ let same : first ≡ hs = ground arith in subst Sane same sane
    ]

-- In every state that a basic replica reaches from its start, by any messages, requests, timeouts and
-- clock, the mutex is free between two steps, every stored block stands under its own hash, and the
-- channels hold at most 1000 messages and 500 requests.
pub Reach-Sane :
    (c : Context) (hs s : HotStuff) → new_basic_hot_stuff c ≡ ok hs → Reach c hs s → Sane s
Reach-Sane c hs s e Reach.start = new-Sane c hs e
Reach-Sane c hs s e (Reach.after {s = t} r step) = (Step-Sane c t s step (Reach-Sane c hs t e r)).0

Reach-keeps : (c : Context) (hs s : HotStuff) → Reach c hs s → Sane hs → Sane s × Remembers hs s
Reach-keeps c hs s Reach.start sane = (sane, λ cmd h. h)
Reach-keeps c hs s (Reach.after {s = t} r step) sane =
    let (sane', known) = Reach-keeps c hs t r sane in
    let (sane'', known') = Step-Sane c t s step sane' in (sane'', λ cmd h. known' cmd (known cmd h))

-- A command that is done in some state of a run of a basic replica is done in every later state.
pub Reach-Remembers :
    (c : Context) (hs s t : HotStuff) (cmd : Bytes)
    → new_basic_hot_stuff c ≡ ok hs
    → Reach c hs s
    → Reach c s t
    → is_finished cmd s.cmd_cache ≡ true
    → is_finished cmd t.cmd_cache ≡ true
Reach-Remembers c hs s t cmd e r later h = (Reach-keeps c s t later (Reach-Sane c hs s e r)).1 cmd h
