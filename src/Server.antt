-- ===== src/Server.antt =====
-- server/basic.go: what a replica does with a call of another replica or of the client. Which of the
-- two replicas a server runs is fixed when it starts; logging is left out.
use basic_hotstuff.Prelude.{Option, none, some, Bool, Result, ok, ◌>>=◌, if◌then◌else◌, not}
use basic_hotstuff.Proto.{Msg, Request}
use basic_hotstuff.CmdCache.{enqueue}
use basic_hotstuff.Consensus.State.{Context, HotStuff, Rpc, put_msg}
use basic_hotstuff.Consensus.Basic.{new_basic_hot_stuff}
use basic_hotstuff.Consensus.Cogsworth.{Cogsworth, new_cogsworth}

-- The field Consensus of a `BasicHotStuffImpl`.
pub data Consensus : Type 0 where
  basic : HotStuff → Consensus
  with_cogsworth : Cogsworth → Consensus

-- `NewBasicHotStuffImpl`, for the option PacemakerLoaded of the configuration.
unfoldable pub new_server : Bool → Context → Result Consensus
new_server pacemaker_loaded c =
    if pacemaker_loaded
    then (new_cogsworth c >>= λ hs. ok (Consensus.with_cogsworth hs))
    else (new_basic_hot_stuff c >>= λ hs. ok (Consensus.basic hs))

-- The methods of the gorums service, by the call; `none` while `PutMsg` waits. None of them compares
-- the call with the type of the message.
unfoldable pub deliver : Bool → Rpc → Msg → HotStuff → Option HotStuff
unfolding put_msg
deliver pacemaker_loaded Rpc.new_view msg hs =
    if not pacemaker_loaded then some hs else put_msg msg hs
deliver pacemaker_loaded Rpc.new_view_basic msg hs =
    if pacemaker_loaded then some hs else put_msg msg hs
deliver pacemaker_loaded _ msg hs = put_msg msg hs

-- `SendRequest` and `PutReq`; `none` while `Enqueue` waits.
unfoldable pub send_request : Request → HotStuff → Option HotStuff
send_request req hs = elim (enqueue req hs.cmd_cache) [
  | none ↦ none
  | some cache ↦ some (record hs { cmd_cache = cache })
]
