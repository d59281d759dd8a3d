-- ===== src/Consensus/Basic.antt =====
-- consensus/basic.go: BasicHotStuff, its decisions and its view change.
-- `process` stands for ProcessCurrentViewQueue, which the handlers call again.
pub mod Advance
pub mod Termination
pub mod ViewChange
pub mod Deciding
use basic_hotstuff.Prelude.{
  ℕ, zero, suc, List, [], ◌∷◌, ◌++◌, Option, none, some, Bool, true, false, not, Bytes, Map, insert,
  erase, flag, lookup_list, nat_eq, bytes_eq, Result, ok, panic, out_of_fuel, ◌>>=◌, attempt, ltb,
  nat_beq, length, is_none, if◌then◌else◌,
}
use basic_hotstuff.Types.{View, Hash, PartialCert, QuorumCert}
use basic_hotstuff.Block.{Block, get_genesis}
use basic_hotstuff.Crypto.{create_quorum_cert}
use basic_hotstuff.Proto.{Msg, MessageType, Request}
use basic_hotstuff.Convert.{quorum_cert_to_proto, quorum_cert_from_proto}
use basic_hotstuff.MessageQueue.{put, pop}
use basic_hotstuff.MessageQueue.Popping.{queue_size}
use basic_hotstuff.BlockChain.{store, clean}
use basic_hotstuff.CmdCache.{CmdCache, finish, is_finished}
use basic_hotstuff.Timer.{stop, reset, fire}
use basic_hotstuff.Client.{Response}
use basic_hotstuff.Consensus.State.{
  Context, HotStuff, Rpc, Sending, new_hot_stuff, lock, unlock, is_leader, send_to_leader,
  send_to_all, matching_msg, next_view, respond,
}
use basic_hotstuff.Consensus.Phases.{
  block_msg, read_vote, read_cert, votes_with, with_lock, send_prepare, on_receive_prepare,
  on_receive_prepare_vote, on_receive_pre_commit, on_receive_pre_commit_vote, on_receive_commit,
}

-- `NewBasicHotStuff`, and the signal of its goroutine if this replica leads the first view.
unfoldable pub new_basic_hot_stuff : Context → Result HotStuff
unfolding new_hot_stuff
new_basic_hot_stuff c = do
  qc ← create_quorum_cert c.crypto (get_genesis c.crypto.prims) []
  let hs = record (new_hot_stuff c) { high_qc = qc; pre_commit_qc = qc }
  ok (if is_leader c hs then record hs { ready = suc hs.ready } else hs)

-- `SendResponse`.
unfoldable pub send_response : Context → Bytes → HotStuff → HotStuff
send_response c cmd hs = record hs {
  sent =
      respond (record { result = 79 ∷ 75 ∷ []; cmd = cmd; replica_id = c.crypto.conf_id })
      ∷ hs.sent;
}

-- The loop of `processNewView` over the certificates of the view.
unfoldable pub max_qc : QuorumCert → List QuorumCert → QuorumCert
max_qc best [] = best
max_qc best (qc ∷ qcs) = max_qc (if ltb best.view qc.view then qc else best) qcs

-- `processNewView`. Its last statement sends on the unbuffered channel Ready; how long it waits there
-- for HandleReq is not modelled: `ready` counts the signals that HandleReq has not acted on.
unfoldable pub process_new_view : HotStuff → HotStuff
unfolding max_qc
process_new_view hs = record hs {
  high_qc = max_qc hs.prepare_qc (lookup_list hs.current_view hs.high_qc_tmp);
  high_qc_tmp = erase hs.current_view hs.high_qc_tmp;
  verified_prepare_votes = [];
  verified_pre_commit_votes = [];
  verified_commit_votes = [];
  finished_view_change = insert hs.current_view true hs.finished_view_change;
  view_changing = false;
  ready = suc hs.ready;
}

-- A certificate more for the current view.
abbrev pub add_high_qc : QuorumCert → HotStuff → HotStuff
add_high_qc qc hs = record hs {
  high_qc_tmp =
      insert hs.current_view (lookup_list hs.current_view hs.high_qc_tmp ++ qc ∷ []) hs.high_qc_tmp;
  view_changing = true;
}

-- The view changes once a quorum of certificates is there.
abbrev pub try_new_view : Context → HotStuff → HotStuff
try_new_view c hs =
    if ltb (length (lookup_list hs.current_view hs.high_qc_tmp)) c.node_manager.quorum_size
    then hs
    else process_new_view hs

unfoldable pub on_receive_new_view : Context → Msg → HotStuff → HotStuff
unfolding process_new_view
on_receive_new_view c msg hs =
    if flag hs.current_view hs.finished_view_change
    then hs
    else (if is_none msg.qc
        then hs
        else try_new_view c (add_high_qc (quorum_cert_from_proto msg.qc) hs))

-- The message of `SendNewView`; it leaves the ReplicaId out.
abbrev pub new_view_msg : HotStuff → Msg
new_view_msg hs = record {
  type = MessageType.new_view;
  view = hs.current_view;
  block = none;
  partial_cert = none;
  qc = some (quorum_cert_to_proto hs.prepare_qc);
  replica_id = 0;
  view_sig = none;
  tc = none;
}

abbrev pub Process : Type 0
Process = View → HotStuff → Result HotStuff

-- `SendNewView`.
unfoldable pub send_new_view : Process → Context → HotStuff → Result HotStuff
unfolding process_new_view
send_new_view process c hs =
    if is_leader c hs
    then (do
      let hs1 = add_high_qc hs.prepare_qc hs
      hs2 ← process hs1.current_view hs1
      ok (try_new_view c hs2))
    else send_to_leader c Rpc.new_view_basic (new_view_msg hs) hs

-- A timeout gives the view up.
abbrev pub skip_view : HotStuff → HotStuff
skip_view hs = record hs { current_view = next_view hs.current_view; current_block = none }

-- The certificate is kept, and the block stored.
abbrev pub store_commit : Block → PartialCert → QuorumCert → HotStuff → HotStuff
store_commit block pc qc hs = record hs {
  commit_qc = qc;
  verified_commit_votes = erase pc.block_hash hs.verified_commit_votes;
  finished_commit_votes = insert pc.block_hash true hs.finished_commit_votes;
  block_chain = clean block (store block hs.block_chain);
}

-- The command is done, and the next view begins.
abbrev pub enter_next_view : Block → HotStuff → HotStuff
enter_next_view block hs = record hs {
  current_view = next_view hs.current_view;
  current_block = none;
  cmd_cache = finish block.cmd hs.cmd_cache;
}

-- The response goes out and the timer stops.
abbrev pub answer : Context → Block → HotStuff → HotStuff
answer c block hs = let hs1 = send_response c block.cmd hs in record hs1 { timer = stop hs1.timer }

-- A quorum of commit votes became a certificate.
unfoldable pub committed :
    Process → Context → Msg → Block → PartialCert → QuorumCert → HotStuff → Result HotStuff
unfolding send_new_view send_response
committed process c msg block pc qc hs = do
  let hs1 = store_commit block pc qc hs
  hs2 ←
      send_to_all c Rpc.decide
        (block_msg c MessageType.decide msg.block none (some (quorum_cert_to_proto qc)) hs1) hs1
  hs3 ← send_new_view process c (enter_next_view block hs2)
  ok (answer c block hs3)

-- The vote is stored.
abbrev pub add_commit_vote : Block → PartialCert → HotStuff → HotStuff
add_commit_vote block pc hs = record hs {
  current_block = some block;
  verified_commit_votes =
      insert pc.block_hash (votes_with pc hs.verified_commit_votes) hs.verified_commit_votes;
}

unfoldable pub count_commit_vote :
    Process → Context → Msg → Block → PartialCert → HotStuff → Result HotStuff
unfolding committed
count_commit_vote process c msg block pc hs =
    let votes = votes_with pc hs.verified_commit_votes in
    let hs1 = add_commit_vote block pc hs in
    if ltb (length votes) c.node_manager.quorum_size then ok hs1 else (do
      made ← attempt (create_quorum_cert c.crypto block votes)
      elim made [ none ↦ ok hs1 | some qc ↦ committed process c msg block pc qc hs1 ])

unfoldable pub on_receive_commit_vote : Process → Context → Msg → HotStuff → Result HotStuff
unfolding count_commit_vote
on_receive_commit_vote process c msg hs =
    if not (matching_msg msg MessageType.commit_vote hs) then ok hs else (do
      vote ← read_vote c msg (λ s. s.finished_commit_votes) hs
      elim vote [
        | none ↦ ok hs
        | some (block, pc) ↦ with_lock (count_commit_vote process c msg block pc) hs
      ])

-- The view after a decision, its certificate the highest.
abbrev pub enter_decided : Context → Msg → QuorumCert → HotStuff → HotStuff
enter_decided c msg qc hs =
    let hs1 = record hs { current_view = next_view msg.view; current_block = none } in
    record hs1 {
      view_changing = if is_leader c hs1 then true else hs1.view_changing;
      high_qc = qc;
      commit_qc = qc;
    }

-- The part of `OnReceiveDecide` under the mutex.
unfoldable pub decided : Process → Context → Msg → Block → QuorumCert → HotStuff → Result HotStuff
unfolding send_new_view send_response
decided process c msg block qc hs = do
  hs1 ← send_new_view process c (enter_decided c msg qc hs)
  ok (answer c block hs1)

-- The command is done and the block stored.
abbrev pub execute : Block → HotStuff → HotStuff
execute block hs = record hs {
  cmd_cache = finish block.cmd hs.cmd_cache;
  block_chain = clean block (store block hs.block_chain);
}

unfoldable pub on_receive_decide : Process → Context → Msg → HotStuff → Result HotStuff
unfolding decided
on_receive_decide process c msg hs =
    if not (matching_msg msg MessageType.decide hs) then ok hs else (do
      cert ← read_cert c msg hs
      elim cert [
        | none ↦ ok hs
        | some (block, qc) ↦ with_lock (decided process c msg block qc) (execute block hs)
      ])
