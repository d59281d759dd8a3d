-- ===== src/Consensus/CogsworthLoop.antt =====
-- consensus/basic_with_cogsworth.go: decisions, the queue of early messages, and the loop that takes
-- messages and timeouts. `OnBeat` of the pacemaker is `HandleReq` on the shared state.
pub mod Decisions
pub mod Queue
pub mod Progress
pub mod Timeouts
use basic_hotstuff.Prelude.{
  ℕ, zero, suc, Option, none, some, Bool, true, false, not, ◌&&◌, insert, erase, nat_eq, bytes_eq,
  Result, ok, out_of_fuel, ◌>>=◌, attempt, ltb, length, if◌then◌else◌,
}
use basic_hotstuff.Types.{View, PartialCert, QuorumCert}
use basic_hotstuff.Block.{Block}
use basic_hotstuff.Crypto.{create_quorum_cert}
use basic_hotstuff.Proto.{Msg, MessageType, type_beq}
use basic_hotstuff.Convert.{quorum_cert_to_proto}
use basic_hotstuff.MessageQueue.{put, pop}
use basic_hotstuff.MessageQueue.Popping.{queue_size}
use basic_hotstuff.CmdCache.{finish}
use basic_hotstuff.Timer.{fire}
use basic_hotstuff.Consensus.State.{
  Context, HotStuff, Rpc, lock, unlock, send_to_all, matching_msg, next_view,
}
use basic_hotstuff.Consensus.Phases.{
  block_msg, read_vote, read_cert, votes_with, with_lock, on_receive_prepare,
  on_receive_prepare_vote, on_receive_pre_commit, on_receive_pre_commit_vote, on_receive_commit,
}
use basic_hotstuff.Consensus.Basic.{store_commit, add_commit_vote, answer, execute}
use basic_hotstuff.Consensus.MessageLoop.{handle_req}
use basic_hotstuff.Consensus.Cogsworth.{
  Cogsworth, on_base, set_base, on_receive_timeout_vote, on_receive_new_view,
}
use basic_hotstuff.Consensus.Cogsworth.Wishing.{
  on_receive_wish_next_view, on_receive_timeout, wish_to_advance,
}

-- The command is done; the certificate is the highest.
abbrev pub finish_commit : Block → QuorumCert → HotStuff → HotStuff
finish_commit block qc hs = record hs {
  current_block = none;
  cmd_cache = finish block.cmd hs.cmd_cache;
  high_qc = qc;
}

-- A quorum of commit votes became a certificate. No mutex is held here.
unfoldable pub committed :
    Context → Msg → Block → PartialCert → QuorumCert → Cogsworth → Result Cogsworth
unfolding wish_to_advance
committed c msg block pc qc hs = do
  let hs1 = set_base (store_commit block pc qc) hs
  hs2 ←
      on_base
        (send_to_all c Rpc.decide
          (block_msg c MessageType.decide msg.block none (some (quorum_cert_to_proto qc)) hs1.base))
        hs1
  wish_to_advance c (set_base (λ b. answer c block (finish_commit block qc b)) hs2)

unfoldable pub count_commit_vote :
    Context → Msg → Block → PartialCert → Cogsworth → Result Cogsworth
unfolding committed
count_commit_vote c msg block pc hs =
    let votes = votes_with pc hs.base.verified_commit_votes in
    let hs1 = set_base (add_commit_vote block pc) hs in
    if ltb (length votes) c.node_manager.quorum_size then ok hs1 else (do
      made ← attempt (create_quorum_cert c.crypto block votes)
      elim made [ none ↦ ok hs1 | some qc ↦ committed c msg block pc qc hs1 ])

unfoldable pub on_receive_commit_vote : Context → Msg → Cogsworth → Result Cogsworth
unfolding count_commit_vote
on_receive_commit_vote c msg hs =
    if not (matching_msg msg MessageType.commit_vote hs.base) then ok hs else (do
      vote ← read_vote c msg (λ s. s.finished_commit_votes) hs.base
      elim vote [ none ↦ ok hs | some (block, pc) ↦ count_commit_vote c msg block pc hs ])

-- The part of `OnReceiveDecide` under the mutex.
abbrev pub keep_decided : Context → Block → QuorumCert → HotStuff → Result HotStuff
keep_decided c block qc hs =
    ok (answer c block (record hs { current_block = none; high_qc = qc; commit_qc = qc }))

unfoldable pub on_receive_decide : Context → Msg → Cogsworth → Result Cogsworth
unfolding wish_to_advance
on_receive_decide c msg hs =
    if not (matching_msg msg MessageType.decide hs.base) then ok hs else (do
      cert ← read_cert c msg hs.base
      elim cert [
        | none ↦ ok hs
        | some (block, qc) ↦ (do
          hs1 ← on_base (with_lock (keep_decided c block qc)) (set_base (execute block) hs)
          wish_to_advance c hs1)
      ])

-- The `switch` of `HandleMsg`, for a message of the given type.
unfoldable pub dispatch : Context → MessageType → Msg → Cogsworth → Result Cogsworth
unfolding on_receive_commit_vote on_receive_decide
dispatch c MessageType.wish_next_view msg hs = on_receive_wish_next_view c msg hs
dispatch c MessageType.timeout msg hs = on_receive_timeout c msg hs
dispatch c MessageType.timeout_vote msg hs = on_receive_timeout_vote c msg hs
dispatch c MessageType.new_view msg hs = on_receive_new_view c msg hs
dispatch c MessageType.prepare msg hs = on_base (on_receive_prepare c msg) hs
dispatch c MessageType.prepare_vote msg hs = on_base (on_receive_prepare_vote c msg) hs
dispatch c MessageType.pre_commit msg hs = on_base (on_receive_pre_commit c msg) hs
dispatch c MessageType.pre_commit_vote msg hs = on_base (on_receive_pre_commit_vote c msg) hs
dispatch c MessageType.commit msg hs = on_base (on_receive_commit c msg) hs
dispatch c MessageType.commit_vote msg hs = on_receive_commit_vote c msg hs
dispatch c MessageType.decide msg hs = on_receive_decide c msg hs
dispatch c MessageType.unknown msg hs = ok hs

-- The state once `Pop` has run.
abbrev pub popped : View → Cogsworth → Cogsworth
popped view hs = set_base (λ b. record b { msg_queue = (pop view b.msg_queue).1 }) hs

-- The inner loop of `ProcessCurrentViewQueue` for wishes, which takes every message left of the
-- view for one. It ends after as many rounds as there are messages.
unfoldable pub drain_wishes : ℕ → Context → View → Cogsworth → Result Cogsworth
drain_wishes zero c view hs = out_of_fuel
drain_wishes (suc f) c view hs = elim (pop view hs.base.msg_queue).0 [
  | none ↦ ok (popped view hs)
  | some m ↦ on_receive_wish_next_view c m (popped view hs) >>= λ hs1. drain_wishes f c view hs1
]

-- The inner loop for timeout votes, which ends at a message of another type; that one is lost.
unfoldable pub drain_timeout_votes : ℕ → Context → View → Cogsworth → Result Cogsworth
drain_timeout_votes zero c view hs = out_of_fuel
drain_timeout_votes (suc f) c view hs = elim (pop view hs.base.msg_queue).0 [
  | none ↦ ok (popped view hs)
  | some m ↦ elim (type_beq m.type MessageType.timeout_vote) [
    | false ↦ ok (popped view hs)
    | true ↦
        on_receive_timeout_vote c m (popped view hs) >>= λ hs1. drain_timeout_votes f c view hs1
  ]
]

abbrev pub drain_fuel : Cogsworth → ℕ
drain_fuel hs = suc (queue_size hs.base.msg_queue)

abbrev pub Process : Type 0
Process = View → Cogsworth → Result Cogsworth

-- The `switch` of `ProcessCurrentViewQueue`; `process` stands for the call that it makes of itself.
unfoldable pub dispatch_queued :
    Process → Context → View → MessageType → Msg → Cogsworth → Result Cogsworth
unfolding dispatch drain_wishes drain_timeout_votes
dispatch_queued process c view MessageType.wish_next_view msg hs = do
  hs1 ← on_receive_wish_next_view c msg hs
  drain_wishes (drain_fuel hs1) c view hs1
dispatch_queued process c view MessageType.timeout_vote msg hs = do
  hs1 ← on_receive_timeout_vote c msg hs
  drain_timeout_votes (drain_fuel hs1) c view hs1
dispatch_queued process c view MessageType.decide msg hs = do
  hs1 ← on_receive_decide c msg hs
  process (next_view view) hs1
dispatch_queued process c view type msg hs = dispatch c type msg hs

-- `ProcessCurrentViewQueue`, one round for each message of the queue.
unfoldable pub process_queue : ℕ → Context → View → Cogsworth → Result Cogsworth
unfolding dispatch_queued
process_queue zero c view hs = out_of_fuel
process_queue (suc f) c view hs = elim (pop view hs.base.msg_queue).0 [
  | none ↦ ok (popped view hs)
  | some m ↦ dispatch_queued (process_queue f c) c view m.type m (popped view hs)
]

unfoldable pub process_current_view_queue : Context → View → Cogsworth → Result Cogsworth
unfolding process_queue
process_current_view_queue c view hs = process_queue (drain_fuel hs) c view hs

-- The case of `HandleMsg` for a message from the channel.
unfoldable pub handle_msg : Context → Msg → Cogsworth → Result Cogsworth
unfolding dispatch process_current_view_queue
handle_msg c msg hs =
    let view = hs.base.current_view in
    if ltb view msg.view
    then process_current_view_queue c view
        (set_base (λ b. record b { msg_queue = put msg b.msg_queue }) hs)
    else (if ltb msg.view view
        then process_current_view_queue c view hs
        else (do hs1 ← process_current_view_queue c view hs; dispatch c msg.type msg hs1))

-- The case of `HandleMsg` for a timeout.
unfoldable pub handle_timeout : Context → Cogsworth → Result Cogsworth
unfolding wish_to_advance
handle_timeout c hs = wish_to_advance c (set_base (λ b. record b { timer = fire b.timer }) hs)

-- `CogsWorthPacemaker.OnBeat` after a signal on Ready.
unfoldable pub on_beat : Context → Cogsworth → Result Cogsworth
unfolding handle_req
on_beat c hs = on_base (handle_req c) hs
