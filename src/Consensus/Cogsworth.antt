-- ===== src/Consensus/Cogsworth.antt =====
-- consensus/basic_with_cogsworth.go and consensus/pacemaker.go: the replica that changes views by
-- wishes and timeout votes, its state, its timeout votes and
-- its view change.
pub mod Wishing
pub mod Timeouts
pub mod Moves
pub mod Handlers
pub mod Gathering
pub mod Advancing
pub mod Wishes
pub mod NewViews
pub mod MixedVotes
pub mod Panics
use basic_hotstuff.Prelude.{
  suc, List, [], ◌∷◌, ◌++◌, Option, none, some, Bool, true, false, not, Map, insert, erase, flag,
  lookup_list, nat_eq, Result, ok, ◌>>=◌, attempt, deref, ltb, length, if◌then◌else◌,
}
use basic_hotstuff.Types.{
  View, QuorumSignature, QuorumCert, TimeoutCert, TimeoutVote, zero_qc, view_to_bytes,
}
use basic_hotstuff.Block.{Block, get_genesis}
use basic_hotstuff.Crypto.{
  sign, verify, create_quorum_cert, create_timeout_cert, verify_timeout_cert,
  create_timeout_vote_cert, verify_timeout_vote_cert, create_timeout_quorum_cert,
  verify_timeout_quorum_cert,
}
use basic_hotstuff.Proto.{Msg, MessageType, type_beq, QuorumSignaturePb, TimeoutCertPb}
use basic_hotstuff.Convert.{
  quorum_signature_to_proto, quorum_signature_from_proto, quorum_cert_to_proto,
  quorum_cert_from_proto, timeout_cert_to_proto, timeout_cert_from_proto, block_to_proto,
}
use basic_hotstuff.BlockChain.{get}
use basic_hotstuff.Timer.{stop, reset}
use basic_hotstuff.Consensus.State.{
  Context, HotStuff, Rpc, new_hot_stuff, lock, unlock, is_leader, send_to_leader, send_to_all,
  next_view,
}
use basic_hotstuff.Consensus.Phases.{start_timer}
use basic_hotstuff.Consensus.Basic.{max_qc, skip_view}

pub record Cogsworth : Type 0 where
  pub base : HotStuff
  pub verified_timeout_votes : Map View (List QuorumSignature)
  pub wish_next_view : Map View (List QuorumSignature)
  pub wish_finished : Map View Bool
  pub timeout_vote_finished : Map View Bool

-- `NewBasicHotStuffWithCogsworth`, and the signal of its goroutine if this replica leads the first view.
unfoldable pub new_cogsworth : Context → Result Cogsworth
unfolding new_hot_stuff
new_cogsworth c = do
  qc ← create_quorum_cert c.crypto (get_genesis c.crypto.prims) []
  let hs = record (new_hot_stuff c) { high_qc = qc; pre_commit_qc = qc }
  ok (record {
    base = if is_leader c hs then record hs { ready = suc hs.ready } else hs;
    verified_timeout_votes = [];
    wish_next_view = [];
    wish_finished = [];
    timeout_vote_finished = [];
  })

-- A step of the shared part of the state.
abbrev pub on_base : (HotStuff → Result HotStuff) → Cogsworth → Result Cogsworth
on_base f hs = f hs.base >>= λ b. ok (record hs { base = b })

abbrev pub set_base : (HotStuff → HotStuff) → Cogsworth → Cogsworth
set_base f hs = record hs { base = f hs.base }

-- `sig, _ := …`: nil where an error is dropped.
abbrev pub or_nil : Option QuorumSignature → QuorumSignature
or_nil none = none
or_nil (some sig) = sig

-- The messages of the view change; the fields that they leave out are nil.
abbrev pub view_msg :
    Context → MessageType → View → Option QuorumSignaturePb → Option TimeoutCertPb → Msg
view_msg c type view sig tc = record {
  type = type;
  view = view;
  block = none;
  partial_cert = none;
  qc = none;
  replica_id = c.crypto.conf_id;
  view_sig = sig;
  tc = tc;
}

abbrev pub timeout_vote_msg :
    Context → View → QuorumSignature → Option TimeoutCertPb → HotStuff → Msg
timeout_vote_msg c view sig tc hs =
    record (view_msg c MessageType.timeout_vote view (some (quorum_signature_to_proto sig)) tc) {
      qc = some (quorum_cert_to_proto hs.prepare_qc);
    }

abbrev pub new_view_msg : Context → Msg → QuorumCert → Block → Msg
new_view_msg c msg qc block = record (view_msg c MessageType.new_view msg.view none msg.tc) {
  qc = some (quorum_cert_to_proto qc);
  block = some (block_to_proto block);
}

-- What the leader does first in `processNewView`; the send on Ready is deferred to its end, and
-- nothing between reads what it changes. How long it waits there for HandleReq, or for ever if HandleReq
-- waits for the mutex that the caller holds, is not modelled: `ready` counts the signals. `BlockToProto` of a block that was not found panics.
abbrev pub announce : Context → Msg → QuorumCert → HotStuff → Result HotStuff
announce c msg qc hs =
    if is_leader c hs
    then (do
      block ← deref (get hs.high_qc.hash hs.block_chain)
      hs1 ← send_to_all c Rpc.new_view (new_view_msg c msg qc block) hs
      ok (record hs1 { ready = suc hs1.ready }))
    else ok hs

-- The rest of `processNewView`.
abbrev pub enter_new_view : HotStuff → HotStuff
enter_new_view hs = record hs {
  high_qc = max_qc hs.prepare_qc (lookup_list hs.current_view hs.high_qc_tmp);
  high_qc_tmp = erase hs.current_view hs.high_qc_tmp;
  verified_prepare_votes = [];
  verified_pre_commit_votes = [];
  verified_commit_votes = [];
  finished_view_change = insert hs.current_view true hs.finished_view_change;
  view_changing = false;
  timer = stop hs.timer;
}

-- `processNewView`.
unfoldable pub process_new_view : Context → Msg → QuorumCert → Cogsworth → Result Cogsworth
unfolding max_qc
process_new_view c msg qc hs = do
  b ← announce c msg qc hs.base
  ok (record hs {
    base = enter_new_view b;
    timeout_vote_finished = insert b.current_view true hs.timeout_vote_finished;
  })

-- The view and the certificate that a message asks for.
abbrev pub timeout_vote_of : Msg → TimeoutVote
timeout_vote_of msg = record { view = msg.view; tc = timeout_cert_from_proto msg.tc }

-- `qc, _ := …`: the zero value where an error is dropped.
abbrev pub or_zero_qc : Option QuorumCert → QuorumCert
or_zero_qc none = zero_qc
or_zero_qc (some qc) = qc

abbrev pub timeout_votes_with : Msg → Cogsworth → List QuorumSignature
timeout_votes_with msg hs =
    lookup_list msg.view hs.verified_timeout_votes ++ quorum_signature_from_proto msg.view_sig ∷ []

-- The vote is stored, with the sender's certificate.
abbrev pub add_timeout_vote : Msg → Cogsworth → Cogsworth
add_timeout_vote msg hs = record hs {
  verified_timeout_votes = insert msg.view (timeout_votes_with msg hs) hs.verified_timeout_votes;
  base = record hs.base {
    high_qc_tmp =
        insert msg.view
          (lookup_list msg.view hs.base.high_qc_tmp ++ quorum_cert_from_proto msg.qc ∷ [])
          hs.base.high_qc_tmp;
    view_changing = true;
  };
}

-- `OnReceiveTimeoutVote` from the stored vote on.
unfoldable pub count_timeout_vote : Context → Msg → Cogsworth → Result Cogsworth
unfolding process_new_view
count_timeout_vote c msg hs =
    let votes = timeout_votes_with msg hs in
    let hs1 = add_timeout_vote msg hs in
    if ltb (length votes) c.node_manager.quorum_size then ok hs1 else (do
      made ← attempt (create_timeout_quorum_cert c.crypto (timeout_vote_of msg) votes)
      hs2 ← process_new_view c msg (or_zero_qc made) hs1
      ok (record hs2 { verified_timeout_votes = erase msg.view hs2.verified_timeout_votes }))

unfoldable pub on_receive_timeout_vote : Context → Msg → Cogsworth → Result Cogsworth
unfolding count_timeout_vote
on_receive_timeout_vote c msg hs =
    if not (type_beq msg.type MessageType.timeout_vote)
    then ok hs
    else (if flag msg.view hs.timeout_vote_finished then ok hs else (do
      let hs1 = set_base start_timer hs
      valid ←
          verify_timeout_vote_cert c.crypto (timeout_vote_of msg)
            (quorum_signature_from_proto msg.view_sig)
      if not valid then ok hs1 else count_timeout_vote c msg hs1))

unfoldable pub on_receive_new_view : Context → Msg → Cogsworth → Result Cogsworth
unfolding process_new_view
on_receive_new_view c msg hs = do
  let qc = quorum_cert_from_proto msg.qc
  valid ← verify_timeout_quorum_cert c.crypto (timeout_vote_of msg) qc
  if not valid then ok hs else process_new_view c msg qc hs
