-- ===== src/Consensus/Phases.antt =====
-- consensus/consensus.go: the handlers that both replicas share, from the proposal to the commit.
-- Each early return of the code is a branch that gives the state back.
pub mod Voting
pub mod Quorum
pub mod Safety
pub mod Equivocation
pub mod Forging
pub mod StrayVotes
use basic_hotstuff.Prelude.{
  ℕ, List, [], ◌∷◌, ◌++◌, Option, none, some, Bool, true, false, not, Bytes, Map, insert, erase,
  flag, lookup_list, bytes_eq, Result, ok, panic, ◌>>=◌, attempt, ltb, nat_beq, length, is_none,
  if◌then◌else◌,
}
use basic_hotstuff.Types.{Hash, PartialCert, QuorumCert}
use basic_hotstuff.Block.{Block}
use basic_hotstuff.Crypto.{create_quorum_cert, verify_partial_cert, verify_quorum_cert}
use basic_hotstuff.Proto.{Msg, MessageType, Request, BlockPb, PartialCertPb, QuorumCertPb}
use basic_hotstuff.Convert.{
  block_from_proto, block_to_proto, quorum_cert_to_proto, quorum_cert_from_proto,
  partial_cert_to_proto, partial_cert_from_proto,
}
use basic_hotstuff.NodeManager.{is_fault_node}
use basic_hotstuff.Timer.{soft_start}
use basic_hotstuff.Consensus.State.{
  Context, HotStuff, Rpc, lock, unlock, get_leader_id, is_leader, send_to_leader, send_to_all,
  create_leaf, sign_block, append_vote, vote_if_signed, matching_msg, safe_node,
}

abbrev pub start_timer : HotStuff → HotStuff
start_timer hs = record hs { timer = soft_start hs.timer }

-- The messages that the handlers build; the fields that they leave out are nil.
abbrev pub block_msg :
    Context
    → MessageType
    → Option BlockPb
    → Option PartialCertPb
    → Option QuorumCertPb
    → HotStuff
    → Msg
block_msg c type block pc qc hs = record {
  type = type;
  view = hs.current_view;
  block = block;
  partial_cert = pc;
  qc = qc;
  replica_id = c.crypto.conf_id;
  view_sig = none;
  tc = none;
}

-- The body of `SendPrepare` under the mutex, for a leader.
unfoldable pub propose : Context → Request → HotStuff → Result HotStuff
propose c req hs = do
  block ← create_leaf c hs.high_qc.hash hs.high_qc req.cmd hs
  let hs1 = record hs { current_block = some block }
  hs2 ←
      send_to_all c Rpc.prepare
        (block_msg c MessageType.prepare (some (block_to_proto block)) none
          (some (quorum_cert_to_proto hs1.high_qc)) hs1)
        hs1
  (pc, hs3) ← sign_block c block hs2
  ok (start_timer (vote_if_signed c pc MessageType.prepare_vote hs3))

-- `SendPrepare`.
unfoldable pub send_prepare : Context → Request → HotStuff → Result HotStuff
unfolding propose
send_prepare c req hs = do
  hs1 ← lock hs
  if not (is_leader c hs1) then ok (unlock hs1) else (do hs2 ← propose c req hs1; ok (unlock hs2))

-- The vote that `OnReceivePrepare`, `OnReceivePreCommit` and `OnReceiveCommit` send to the leader
-- if they can sign the block; then they go on by `after`. A replica that plays a faulty one sends no
-- certificate.
unfoldable pub send_vote :
    Context
    → Rpc
    → MessageType
    → Msg
    → Block
    → (HotStuff → Result HotStuff)
    → HotStuff
    → Result HotStuff
send_vote c rpc type msg block after hs = do
  (pc, hs1) ← sign_block c block hs
  elim pc [
    | none ↦ ok hs1
    | some cert ↦ (do
      let sent_cert =
          if is_fault_node c.node_manager then none else some (partial_cert_to_proto cert)
      hs2 ← send_to_leader c rpc (block_msg c type msg.block sent_cert none hs1) hs1
      after (start_timer hs2))
  ]

unfoldable pub on_receive_prepare : Context → Msg → HotStuff → Result HotStuff
unfolding send_vote
on_receive_prepare c msg hs = if not (matching_msg msg MessageType.prepare hs) then ok hs else (do
  block ← block_from_proto c.crypto.prims hs.now msg.block
  if is_none msg.qc
      then ok hs
      else (if not (nat_beq (get_leader_id c hs) block.proposer) then ok hs else (do
        safe ← safe_node block hs
        if not safe
            then ok hs
            else send_vote c Rpc.prepare_vote MessageType.prepare_vote msg block ok
                (record hs { current_block = some block }))))

-- What the three vote handlers check alike, once the message matches: `none` where they return.
unfoldable pub read_vote :
    Context → Msg → (HotStuff → Map Hash Bool) → HotStuff → Result (Option (Block × PartialCert))
read_vote c msg finished hs = elim msg.partial_cert [
  | none ↦ ok none
  | some pb ↦ (do
    pc ← partial_cert_from_proto pb
    block ← block_from_proto c.crypto.prims hs.now msg.block
    if flag pc.block_hash (finished hs) then ok none else (do
      valid ← verify_partial_cert c.crypto block pc
      ok (if valid then some (block, pc) else none)))
]

-- The votes for the hash of a certificate, that one included.
abbrev pub votes_with : PartialCert → Map Hash (List PartialCert) → List PartialCert
votes_with pc votes = lookup_list pc.block_hash votes ++ pc ∷ []

-- A quorum of prepare votes became a certificate.
unfoldable pub prepared :
    Context → Msg → Block → PartialCert → QuorumCert → HotStuff → Result HotStuff
prepared c msg block pc qc hs = do
  let hs1 = record hs {
    prepare_qc = qc;
    verified_prepare_votes = erase pc.block_hash hs.verified_prepare_votes;
    finished_prepare_votes = insert pc.block_hash true hs.finished_prepare_votes;
  }
  hs2 ←
      send_to_all c Rpc.pre_commit
        (block_msg c MessageType.pre_commit msg.block none (some (quorum_cert_to_proto qc)) hs1) hs1
  (own, hs3) ← sign_block c block hs2
  ok (start_timer (vote_if_signed c own MessageType.pre_commit_vote hs3))

-- The vote is stored.
abbrev pub add_prepare_vote : Block → PartialCert → HotStuff → HotStuff
add_prepare_vote block pc hs = record hs {
  current_block = some block;
  verified_prepare_votes =
      insert pc.block_hash (votes_with pc hs.verified_prepare_votes) hs.verified_prepare_votes;
}

unfoldable pub count_prepare_vote : Context → Msg → Block → PartialCert → HotStuff → Result HotStuff
unfolding prepared
count_prepare_vote c msg block pc hs =
    let votes = votes_with pc hs.verified_prepare_votes in
    let hs1 = add_prepare_vote block pc hs in
    if ltb (length votes) c.node_manager.quorum_size
    then ok hs1
    else (if is_fault_node c.node_manager then ok hs1 else (do
      made ← attempt (create_quorum_cert c.crypto block votes)
      elim made [ none ↦ ok hs1 | some qc ↦ prepared c msg block pc qc hs1 ]))

-- The part of a handler between `hs.mut.Lock()` and the deferred `hs.mut.Unlock()`.
abbrev pub with_lock : (HotStuff → Result HotStuff) → HotStuff → Result HotStuff
with_lock body hs = lock hs >>= λ hs1. body hs1 >>= λ hs2. ok (unlock hs2)

unfoldable pub on_receive_prepare_vote : Context → Msg → HotStuff → Result HotStuff
unfolding read_vote count_prepare_vote
on_receive_prepare_vote c msg hs =
    if not (matching_msg msg MessageType.prepare_vote hs) then ok hs else (do
      vote ← read_vote c msg (λ s. s.finished_prepare_votes) hs
      elim vote [
        | none ↦ ok hs
        | some (block, pc) ↦ with_lock (count_prepare_vote c msg block pc) hs
      ])

-- What `OnReceivePreCommit`, `OnReceiveCommit` and `OnReceiveDecide` check alike, once the message
-- matches: `none` where they return.
unfoldable pub read_cert : Context → Msg → HotStuff → Result (Option (Block × QuorumCert))
read_cert c msg hs = elim msg.qc [
  | none ↦ ok none
  | some pb ↦ (do
    let qc = quorum_cert_from_proto (some pb)
    block ← block_from_proto c.crypto.prims hs.now msg.block
    valid ← verify_quorum_cert c.crypto block qc
    if not valid
        then ok none
        else (if not (nat_beq (get_leader_id c hs) block.proposer)
            then ok none
            else ok (some (block, qc))))
]

abbrev pub keep_prepare_qc : Block → QuorumCert → HotStuff → Result HotStuff
keep_prepare_qc block qc hs = ok (record hs { prepare_qc = qc; current_block = some block })

unfoldable pub on_receive_pre_commit : Context → Msg → HotStuff → Result HotStuff
unfolding read_cert send_vote
on_receive_pre_commit c msg hs =
    if not (matching_msg msg MessageType.pre_commit hs) then ok hs else (do
      cert ← read_cert c msg hs
      elim cert [
        | none ↦ ok hs
        | some (block, qc) ↦
            send_vote c Rpc.pre_commit_vote MessageType.pre_commit_vote msg block
              (with_lock (keep_prepare_qc block qc)) hs
      ])

-- A quorum of pre-commit votes became a certificate.
unfoldable pub pre_committed :
    Context → Msg → Block → PartialCert → QuorumCert → HotStuff → Result HotStuff
pre_committed c msg block pc qc hs = do
  let hs1 = record hs {
    pre_commit_qc = qc;
    verified_pre_commit_votes = erase pc.block_hash hs.verified_pre_commit_votes;
    finished_pre_commit_votes = insert pc.block_hash true hs.finished_pre_commit_votes;
  }
  hs2 ←
      send_to_all c Rpc.commit
        (block_msg c MessageType.commit msg.block none (some (quorum_cert_to_proto qc)) hs1) hs1
  (own, hs3) ← sign_block c block hs2
  ok (start_timer (vote_if_signed c own MessageType.commit_vote hs3))

-- The vote is stored.
abbrev pub add_pre_commit_vote : Block → PartialCert → HotStuff → HotStuff
add_pre_commit_vote block pc hs = record hs {
  current_block = some block;
  verified_pre_commit_votes =
      insert pc.block_hash (votes_with pc hs.verified_pre_commit_votes)
        hs.verified_pre_commit_votes;
}

unfoldable pub count_pre_commit_vote :
    Context → Msg → Block → PartialCert → HotStuff → Result HotStuff
unfolding pre_committed
count_pre_commit_vote c msg block pc hs =
    let votes = votes_with pc hs.verified_pre_commit_votes in
    let hs1 = add_pre_commit_vote block pc hs in
    if ltb (length votes) c.node_manager.quorum_size then ok hs1 else (do
      made ← attempt (create_quorum_cert c.crypto block votes)
      elim made [ none ↦ ok hs1 | some qc ↦ pre_committed c msg block pc qc hs1 ])

-- Here a message that does not match panics.
unfoldable pub on_receive_pre_commit_vote : Context → Msg → HotStuff → Result HotStuff
unfolding read_vote count_pre_commit_vote
on_receive_pre_commit_vote c msg hs =
    if not (matching_msg msg MessageType.pre_commit_vote hs) then panic else (do
      vote ← read_vote c msg (λ s. s.finished_pre_commit_votes) hs
      elim vote [
        | none ↦ ok hs
        | some (block, pc) ↦ with_lock (count_pre_commit_vote c msg block pc) hs
      ])

abbrev pub keep_pre_commit_qc : Block → QuorumCert → HotStuff → Result HotStuff
keep_pre_commit_qc block qc hs = ok (record hs { current_block = some block; pre_commit_qc = qc })

unfoldable pub on_receive_commit : Context → Msg → HotStuff → Result HotStuff
unfolding read_cert send_vote
on_receive_commit c msg hs = if not (matching_msg msg MessageType.commit hs) then ok hs else (do
  cert ← read_cert c msg hs
  elim cert [
    | none ↦ ok hs
    | some (block, qc) ↦
        send_vote c Rpc.commit_vote MessageType.commit_vote msg block
          (with_lock (keep_pre_commit_qc block qc)) hs
  ])
