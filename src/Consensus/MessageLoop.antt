-- ===== src/Consensus/MessageLoop.antt =====
-- consensus/basic.go: the loop that takes messages and timeouts, and the loop that takes requests.
pub mod Queue
pub mod Progress
pub mod Timeouts
pub mod Requests
use basic_hotstuff.Prelude.{
  ℕ, zero, suc, List, [], ◌∷◌, ◌++◌, Option, none, some, Bool, true, false, not, Bytes, Map, insert,
  erase, flag, lookup_list, nat_eq, bytes_eq, Result, ok, panic, out_of_fuel, ◌>>=◌, attempt, ltb,
  nat_beq, length, is_none, if◌then◌else◌,
}
use basic_hotstuff.Types.{View, Hash, PartialCert, QuorumCert}
use basic_hotstuff.Block.{Block, get_genesis}
use basic_hotstuff.Crypto.{create_quorum_cert}
use basic_hotstuff.Proto.{Msg, MessageType, Request}
use basic_hotstuff.Convert.{quorum_cert_to_proto, quorum_cert_from_proto}
use basic_hotstuff.MessageQueue.{put, pop}
use basic_hotstuff.MessageQueue.Popping.{queue_size}
use basic_hotstuff.BlockChain.{store, clean}
use basic_hotstuff.CmdCache.{CmdCache, finish, is_finished}
use basic_hotstuff.Timer.{stop, reset, fire}
use basic_hotstuff.Client.{Response}
use basic_hotstuff.Consensus.State.{
  Context, HotStuff, Rpc, Sending, new_hot_stuff, lock, unlock, is_leader, send_to_leader,
  send_to_all, matching_msg, next_view, respond,
}
use basic_hotstuff.Consensus.Phases.{
  block_msg, read_vote, read_cert, votes_with, with_lock, send_prepare, on_receive_prepare,
  on_receive_prepare_vote, on_receive_pre_commit, on_receive_pre_commit_vote, on_receive_commit,
}
use basic_hotstuff.Consensus.Basic.{
  on_receive_new_view, Process, send_new_view, skip_view, on_receive_commit_vote, on_receive_decide,
}

-- The `switch` of `HandleMsg`, for a message of the given type.
unfoldable pub dispatch : Process → Context → MessageType → Msg → HotStuff → Result HotStuff
unfolding on_receive_commit_vote on_receive_decide on_receive_new_view
dispatch process c MessageType.prepare msg hs = on_receive_prepare c msg hs
dispatch process c MessageType.prepare_vote msg hs = on_receive_prepare_vote c msg hs
dispatch process c MessageType.pre_commit msg hs = on_receive_pre_commit c msg hs
dispatch process c MessageType.pre_commit_vote msg hs = on_receive_pre_commit_vote c msg hs
dispatch process c MessageType.commit msg hs = on_receive_commit c msg hs
dispatch process c MessageType.commit_vote msg hs = on_receive_commit_vote process c msg hs
dispatch process c MessageType.decide msg hs = on_receive_decide process c msg hs
dispatch process c MessageType.new_view msg hs = ok (on_receive_new_view c msg hs)
dispatch process c _ msg hs = ok hs

-- The inner loop of `ProcessCurrentViewQueue`, which takes every message left of the view for a
-- NewView message. It ends after as many rounds as there are messages.
unfoldable pub drain_new_views : ℕ → Context → View → HotStuff → Result HotStuff
unfolding on_receive_new_view
drain_new_views zero c view hs = out_of_fuel
drain_new_views (suc f) c view hs =
    let (msg, rest) = pop view hs.msg_queue in
    let hs1 = record hs { msg_queue = rest } in
    elim msg [ none ↦ ok hs1 | some m ↦ drain_new_views f c view (on_receive_new_view c m hs1) ]

-- The `switch` of `ProcessCurrentViewQueue`.
unfoldable pub dispatch_queued :
    Process → Context → View → MessageType → Msg → HotStuff → Result HotStuff
unfolding dispatch drain_new_views
dispatch_queued process c view MessageType.new_view msg hs =
    let hs1 = on_receive_new_view c msg hs in
    drain_new_views (suc (queue_size hs1.msg_queue)) c view hs1
dispatch_queued process c view MessageType.decide msg hs = do
  hs1 ← on_receive_decide process c msg hs
  process hs1.current_view hs1
dispatch_queued process c view type msg hs = dispatch process c type msg hs

-- `ProcessCurrentViewQueue`. Every call takes a message out of the queue before it makes another,
-- so one round for each message is enough.
unfoldable pub process_queue : ℕ → Context → View → HotStuff → Result HotStuff
unfolding dispatch_queued
process_queue zero c view hs = out_of_fuel
process_queue (suc f) c view hs =
    let (msg, rest) = pop view hs.msg_queue in
    let hs1 = record hs { msg_queue = rest } in
    elim msg [ none ↦ ok hs1 | some m ↦ dispatch_queued (process_queue f c) c view m.type m hs1 ]

unfoldable pub process_current_view_queue : Context → View → HotStuff → Result HotStuff
unfolding process_queue
process_current_view_queue c view hs = process_queue (suc (queue_size hs.msg_queue)) c view hs

-- The case of `HandleMsg` for a message from the channel.
unfoldable pub handle_msg : Context → Msg → HotStuff → Result HotStuff
unfolding dispatch process_current_view_queue
handle_msg c msg hs =
    let view = hs.current_view in
    if ltb view msg.view
    then process_current_view_queue c view (record hs { msg_queue = put msg hs.msg_queue })
    else (if ltb msg.view view then process_current_view_queue c view hs else (do
      hs1 ← process_current_view_queue c view hs
      dispatch (process_queue (suc (queue_size hs1.msg_queue)) c) c msg.type msg hs1))

-- The case of `HandleMsg` for a timeout.
unfoldable pub handle_timeout : Context → HotStuff → Result HotStuff
unfolding send_new_view process_current_view_queue
handle_timeout c hs = do
  hs1 ← lock (record hs { timer = stop (reset (fire hs.timer)) })
  let hs2 = skip_view hs1
  hs3 ← send_new_view (process_queue (suc (queue_size hs2.msg_queue)) c) c hs2
  let hs4 = unlock hs3
  process_current_view_queue c hs4.current_view hs4

-- The inner loop of `HandleReq`: the next request that is not done, and the requests behind it.
unfoldable pub next_request : CmdCache → List Request → Option (Request × List Request)
next_request cache [] = none
next_request cache (req ∷ reqs) =
    if is_finished req.cmd cache then next_request cache reqs else some (req, reqs)

-- `HandleReq` after a signal on Ready. It waits in `Dequeue` while no such request is there: the
-- signal is then kept.
unfoldable pub handle_req : Context → HotStuff → Result HotStuff
unfolding next_request
handle_req c hs = elim hs.ready [
  | zero ↦ ok hs
  | suc signals ↦ elim (next_request hs.cmd_cache hs.cmd_cache.channel) [
    | none ↦ ok (record hs { cmd_cache = record hs.cmd_cache { channel = [] } })
    | some (req, reqs) ↦
        send_prepare c req
          (record hs { ready = signals; cmd_cache = record hs.cmd_cache { channel = reqs } })
  ]
]
