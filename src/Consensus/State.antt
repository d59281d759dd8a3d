-- ===== src/Consensus/State.antt =====
-- consensus/consensus.go: the state of a HotStuffImpl and the helpers of its handlers.
-- A handler is a function of the state; what it sends is recorded in `sent`, newest first.
use basic_hotstuff.Prelude.{
  ℕ, suc, ◌+◌, ◌%◌, List, [], ◌∷◌, ◌++◌, Option, none, some, Bool, true, false, ◌&&◌, Bytes, Map,
  insert, lookup_list, nat_eq, bytes_eq, Result, ok, hang, ◌>>=◌, deref, attempt, ltb, nat_beq,
  length, if◌then◌else◌,
}
use basic_hotstuff.Encoding.{u64_mod}
use basic_hotstuff.Types.{Id32, View, Hash, PartialCert, QuorumCert, zero_qc}
use basic_hotstuff.Block.{Block, new_block}
use basic_hotstuff.Crypto.{Crypto, create_partial_cert}
use basic_hotstuff.Proto.{Msg, MessageType, type_beq}
use basic_hotstuff.NodeManager.{
  NodeManager, ReplicaConfig, get_leader_by_view, get_leader_node, get_nodes,
}
use basic_hotstuff.MessageQueue.{MessageQueue}
use basic_hotstuff.BlockChain.{BlockChain, new_block_chain, get, extends}
use basic_hotstuff.CmdCache.{CmdCache, new_cmd_cache}
use basic_hotstuff.Timer.{Timer, new_timer}
use basic_hotstuff.Client.{Response}

-- The methods of the generated gorums service that a replica calls.
pub data Rpc : Type 0 where
  new_view new_view_basic prepare prepare_vote pre_commit pre_commit_vote commit commit_vote decide
        wish_next_view timeout timeout_vote :
      Rpc

pub data Sending : Type 0 where
  multicast : Rpc → Msg → Sending
  unicast : ReplicaConfig → Rpc → Msg → Sending
  respond : Response → Sending

-- What stays fixed: `hs.NodeManager` and `hs.crypto`, whose `conf_id` is `hs.Conf.Id`.
pub record Context : Type 0 where
  pub node_manager : NodeManager
  pub crypto : Crypto

-- `ready` counts the signals sent on the channel Ready, `entropy` the draws of randomness; `now` is
-- the clock.
pub record HotStuff : Type 0 where
  pub cmd_cache : CmdCache
  pub ready : ℕ
  pub msg_chan : List Msg
  pub msg_queue : MessageQueue
  pub block_chain : BlockChain
  pub timer : Timer
  pub locked : Bool
  pub view_changing : Bool
  pub finished_view_change : Map View Bool
  pub current_block : Option Block
  pub current_view : View
  pub prepare_qc : QuorumCert
  pub pre_commit_qc : QuorumCert
  pub commit_qc : QuorumCert
  pub high_qc : QuorumCert
  pub verified_prepare_votes : Map Hash (List PartialCert)
  pub verified_pre_commit_votes : Map Hash (List PartialCert)
  pub verified_commit_votes : Map Hash (List PartialCert)
  pub finished_prepare_votes : Map Hash Bool
  pub finished_pre_commit_votes : Map Hash Bool
  pub finished_commit_votes : Map Hash Bool
  pub high_qc_tmp : Map View (List QuorumCert)
  pub entropy : ℕ
  pub now : ℕ
  pub sent : List Sending

-- `NewHotStuffImpl`, the part of it that is state.
unfoldable pub new_hot_stuff : Context → HotStuff
new_hot_stuff c = record {
  cmd_cache = new_cmd_cache;
  ready = 0;
  msg_chan = [];
  msg_queue = [];
  block_chain = new_block_chain c.crypto.prims;
  timer = new_timer;
  locked = false;
  view_changing = false;
  finished_view_change = [];
  current_block = none;
  current_view = 1;
  prepare_qc = zero_qc;
  pre_commit_qc = zero_qc;
  commit_qc = zero_qc;
  high_qc = zero_qc;
  verified_prepare_votes = [];
  verified_pre_commit_votes = [];
  verified_commit_votes = [];
  finished_prepare_votes = [];
  finished_pre_commit_votes = [];
  finished_commit_votes = [];
  high_qc_tmp = [];
  entropy = 0;
  now = 0;
  sent = [];
}

-- `PutMsg`. The channel holds 1000 messages; `none`: the sender blocks.
unfoldable pub put_msg : Msg → HotStuff → Option HotStuff
put_msg msg hs =
    if ltb (length hs.msg_chan) 1000
    then some (record hs { msg_chan = hs.msg_chan ++ msg ∷ [] })
    else none

-- `hs.mut.Lock()` by the goroutine that handles messages: it never returns if that goroutine holds
-- the mutex already.
unfoldable pub lock : HotStuff → Result HotStuff
lock hs = if hs.locked then hang else ok (record hs { locked = true })

unfoldable pub unlock : HotStuff → HotStuff
unlock hs = record hs { locked = false }

-- `GetLeaderId`.
unfoldable pub get_leader_id : Context → HotStuff → Id32
get_leader_id c hs = get_leader_by_view c.node_manager.total_nodes_number hs.current_view

abbrev pub is_leader : Context → HotStuff → Bool
is_leader c hs = nat_beq (get_leader_id c hs) c.crypto.conf_id

-- A call on `GetLeaderNode()`, which panics if that is nil.
unfoldable pub send_to_leader : Context → Rpc → Msg → HotStuff → Result HotStuff
send_to_leader c rpc msg hs = do
  found ← get_leader_node c.node_manager hs.current_view
  node ← deref found
  ok (record hs { sent = unicast node rpc msg ∷ hs.sent })

-- A call on `GetNodesCfg()`.
unfoldable pub send_to_all : Context → Rpc → Msg → HotStuff → Result HotStuff
send_to_all c rpc msg hs = do
  nodes ← get_nodes c.node_manager
  ok (record hs { sent = multicast rpc msg ∷ hs.sent })

-- `CreateLeaf`.
unfoldable pub create_leaf : Context → Hash → QuorumCert → Bytes → HotStuff → Result Block
create_leaf c parent cert cmd hs =
    new_block c.crypto.prims hs.now parent cert cmd hs.current_view c.crypto.conf_id

-- `hs.crypto.CreatePartialCert(block)`, with the error as a value.
unfoldable pub sign_block : Context → Block → HotStuff → Result (Option PartialCert × HotStuff)
sign_block c block hs = do
  pc ← attempt (create_partial_cert c.crypto hs.entropy block)
  ok (pc, record hs { entropy = suc hs.entropy })

unfoldable pub append_vote : PartialCert → Map Hash (List PartialCert) → Map Hash (List PartialCert)
append_vote pc votes = insert pc.block_hash (lookup_list pc.block_hash votes ++ pc ∷ []) votes

abbrev vote_of : MessageType → PartialCert → HotStuff → HotStuff
vote_of MessageType.prepare_vote pc hs = record hs {
  verified_prepare_votes = append_vote pc hs.verified_prepare_votes;
}
vote_of MessageType.pre_commit_vote pc hs = record hs {
  verified_pre_commit_votes = append_vote pc hs.verified_pre_commit_votes;
}
vote_of MessageType.commit_vote pc hs = record hs {
  verified_commit_votes = append_vote pc hs.verified_commit_votes;
}
vote_of _ pc hs = hs

-- `VoteMyself`.
unfoldable pub vote_myself : Context → PartialCert → MessageType → HotStuff → HotStuff
unfolding append_vote
vote_myself c pc type hs = if is_leader c hs then vote_of type pc hs else hs

-- `VoteMyself` where the certificate could be made.
abbrev pub vote_if_signed : Context → Option PartialCert → MessageType → HotStuff → HotStuff
vote_if_signed c none type hs = hs
vote_if_signed c (some pc) type hs = vote_myself c pc type hs

-- `MatchingMsg`.
unfoldable pub matching_msg : Msg → MessageType → HotStuff → Bool
matching_msg msg type hs = type_beq msg.type type && nat_beq msg.view hs.current_view

-- `SafeNode`; the locked certificate is PreCommitQC.
unfoldable pub safe_node : Block → HotStuff → Result Bool
safe_node block hs =
    if ltb hs.pre_commit_qc.view block.view
    then ok true
    else elim (get hs.pre_commit_qc.hash hs.block_chain) [
      | none ↦ ok false
      | some locked_block ↦ extends hs.block_chain block locked_block
    ]

-- `hs.CurrentView += 1` on a uint64.
abbrev pub next_view : View → View
next_view v = (v + 1) % u64_mod
