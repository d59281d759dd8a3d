-- ===== src/Consensus/Frame.antt =====
-- What the helpers of the handlers leave alone.
use basic_hotstuff.Prelude.{
  ℕ, Option, none, some, Bool, true, false, Result, ok, hang, ◌>>=◌, ◌≡◌, refl, arith, Ends,
  Ends->>=, attempt, deref, ltb, if◌then◌else◌, ◌∷◌, Ends->>=_eq, Bool-cases, inl, inr, zero, suc,
  Ends-mono, bytes_eq,
}
use basic_hotstuff.Types.{PartialCert, View}
use basic_hotstuff.Block.{Block}
use basic_hotstuff.Crypto.{create_partial_cert}
use basic_hotstuff.Proto.{Msg, MessageType}
use basic_hotstuff.NodeManager.{get_leader_node, get_nodes, NodeManager, ReplicaConfig}
use basic_hotstuff.BlockChain.{get, extends, extends_fuel, extends_loop, BlockChain}
use basic_hotstuff.Consensus.State.{
  Context, HotStuff, Rpc, lock, unlock, send_to_leader, send_to_all, sign_block, vote_if_signed,
  vote_myself, safe_node, multicast, unicast,
}
use basic_hotstuff.Consensus.Settling.{
  Settles, Settles-Ends, Settles-attempt, create_partial_cert-Settles,
}
use basic_hotstuff.Consensus.Phases.{with_lock}

-- The view, what was executed and stored, the messages kept for later, and the mutex are as before.
pub record SameCore (hs s : HotStuff) : Type 0 where
  pub view : s.current_view ≡ hs.current_view
  pub queue : s.msg_queue ≡ hs.msg_queue
  pub channel : s.msg_chan ≡ hs.msg_chan
  pub chain : s.block_chain ≡ hs.block_chain
  pub cmds : s.cmd_cache ≡ hs.cmd_cache
  pub mutex : s.locked ≡ hs.locked
  pub high : s.high_qc ≡ hs.high_qc
  pub ready : s.ready ≡ hs.ready

pub SameCore-refl : (hs : HotStuff) → SameCore hs hs
SameCore-refl hs = ground arith

SameCore-trans : (a b c : HotStuff) → SameCore a b → SameCore b c → SameCore a c
SameCore-trans a b c h k = ground arith

pub Ends-core :
    (a b : HotStuff) (r : Result HotStuff)
    → SameCore a b
    → Ends (SameCore b) r
    → Ends (SameCore a) r
Ends-core a b r h k = Ends-mono (SameCore b) (SameCore a) r k (λ s same. ground arith)

pub sign_block-core :
    (c : Context) (b : Block) (hs : HotStuff)
    → Ends (λ (r : Option PartialCert × HotStuff). SameCore hs r.1) (sign_block c b hs)
unfolding sign_block
sign_block-core c b hs =
    Ends->>= (λ pc. Unit) (λ (r : Option PartialCert × HotStuff). SameCore hs r.1)
      (attempt (create_partial_cert c.crypto hs.entropy b)) _
      (Settles-Ends _ (Settles-attempt _ (create_partial_cert-Settles c.crypto hs.entropy b)))
      λ pc _. ground arith

get_nodes-Settles : (nm : NodeManager) → Settles (get_nodes nm)
unfolding get_nodes
get_nodes-Settles nm = ground arith

get_leader_node-Settles : (nm : NodeManager) (v : View) → Settles (get_leader_node nm v)
unfolding get_leader_node
get_leader_node-Settles nm v = ground arith

pub send_to_all-core :
    (c : Context) (rpc : Rpc) (msg : Msg) (hs : HotStuff)
    → Ends (SameCore hs) (send_to_all c rpc msg hs)
unfolding send_to_all
send_to_all-core c rpc msg hs =
    Ends->>= (λ nodes. Unit) (SameCore hs) (get_nodes c.node_manager) _
      (Settles-Ends _ (get_nodes-Settles c.node_manager)) λ nodes _. ground arith

pub send_to_leader-core :
    (c : Context) (rpc : Rpc) (msg : Msg) (hs : HotStuff)
    → Ends (SameCore hs) (send_to_leader c rpc msg hs)
unfolding send_to_leader
send_to_leader-core c rpc msg hs =
    Ends->>= (λ node. Unit) (SameCore hs) (get_leader_node c.node_manager hs.current_view) _
      (Settles-Ends _ (get_leader_node-Settles c.node_manager hs.current_view))
      λ node _. ground arith

pub vote_if_signed-core :
    (c : Context) (pc : Option PartialCert) (type : MessageType) (hs : HotStuff)
    → SameCore hs (vote_if_signed c pc type hs)
unfolding vote_myself
vote_if_signed-core c none type hs = ground arith
vote_if_signed-core c (some pc) type hs = ground arith

parent_step-Settles :
    (chain : BlockChain) (t : Block) (o : Option Block) (loop : Block → Result Bool)
    → ((p : Block) → Settles (loop p))
    → Settles (let r : Result Bool = elim o [ none ↦ ok false | some p ↦ loop p ] in r)
parent_step-Settles chain t none loop h = λ p. cc
parent_step-Settles chain t (some p) loop h = h p

extends_loop-Settles :
    (f : ℕ) (chain : BlockChain) (b t : Block) → Settles (extends_loop f chain b t)
unfolding extends_loop
extends_loop-Settles zero chain b t = λ p. cc
extends_loop-Settles (suc f) chain b t = elim (Bool-cases (ltb t.view b.view)) [
  | inr e ↦ rw e (λ p. cc)
  | inl e ↦ rw e (
      parent_step-Settles chain t (get b.parent chain) (λ p. extends_loop f chain p t)
        (λ p. extends_loop-Settles f chain p t))
]

pub safe_node-Settles : (b : Block) (hs : HotStuff) → Settles (safe_node b hs)
unfolding safe_node extends
safe_node-Settles b hs = elim (Bool-cases (ltb hs.pre_commit_qc.view b.view)) [
  | inl e ↦ rw e (λ p. cc)
  | inr e ↦ rw e (
      parent_step-Settles hs.block_chain b (get hs.pre_commit_qc.hash hs.block_chain) _
        (λ t. extends_loop-Settles (extends_fuel hs.block_chain b) hs.block_chain b t))
]

-- The mutex was free, and is now held.
abbrev pub Taken : HotStuff → HotStuff → Type 0
Taken hs s = (hs.locked ≡ false) × (s ≡ record hs { locked = true })

pub lock-Taken : (hs : HotStuff) → Ends (Taken hs) (lock hs)
unfolding lock
lock-Taken hs = free hs.locked refl
  where
    free :
        (b : Bool)
        → hs.locked ≡ b
        → Ends (Taken hs) (if b then hang else ok (record hs { locked = true }))
    free true e = tt
    free false e = (e, refl)

pub with_lock-core :
    (body : HotStuff → Result HotStuff) (hs : HotStuff)
    → ((s : HotStuff) → Ends (SameCore s) (body s))
    → Ends (SameCore hs) (with_lock body hs)
unfolding unlock
with_lock-core body hs h =
    Ends->>= (Taken hs) (SameCore hs) (lock hs) _ (lock-Taken hs) λ held taken.
      Ends->>= (SameCore held) (SameCore hs) (body held) _ (h held) λ s same. ground arith

-- What is sent, exactly.
pub send_to_all-sent :
    (c : Context) (rpc : Rpc) (msg : Msg) (hs : HotStuff)
    → Ends (λ s. s ≡ record hs { sent = multicast rpc msg ∷ hs.sent }) (send_to_all c rpc msg hs)
unfolding send_to_all
send_to_all-sent c rpc msg hs =
    Ends->>= (λ nodes. Unit) (λ s. s ≡ record hs { sent = multicast rpc msg ∷ hs.sent })
      (get_nodes c.node_manager) _ (Settles-Ends _ (get_nodes-Settles c.node_manager))
      λ nodes _. refl

-- A message for the leader goes to a node that `GetLeaderNode` finds.
abbrev pub ToLeader : Context → Rpc → Msg → HotStuff → HotStuff → Type 0
ToLeader c rpc msg hs s =
    (node : ReplicaConfig) × (get_leader_node c.node_manager hs.current_view ≡ ok (some node))
    × (s ≡ record hs { sent = unicast node rpc msg ∷ hs.sent })

pub send_to_leader-sent :
    (c : Context) (rpc : Rpc) (msg : Msg) (hs : HotStuff)
    → Ends (ToLeader c rpc msg hs) (send_to_leader c rpc msg hs)
unfolding send_to_leader
send_to_leader-sent c rpc msg hs =
    Ends->>=_eq (ToLeader c rpc msg hs) (get_leader_node c.node_manager hs.current_view) _
      (Settles-Ends _ (get_leader_node-Settles c.node_manager hs.current_view))
      λ found e. go found e
  where
    go :
        (found : Option ReplicaConfig)
        → get_leader_node c.node_manager hs.current_view ≡ ok found
        → Ends
            (ToLeader c rpc msg hs)
            (deref found >>= λ node. ok (record hs { sent = unicast node rpc msg ∷ hs.sent }))
    go none e = tt
    go (some node) e = (node, e, refl)

pub sign_block-draws :
    (c : Context) (b : Block) (hs : HotStuff)
    → Ends
        (λ (r : Option PartialCert × HotStuff). r.1 ≡ record hs { entropy = suc hs.entropy })
        (sign_block c b hs)
unfolding sign_block
sign_block-draws c b hs =
    Ends->>= (λ pc. Unit)
      (λ (r : Option PartialCert × HotStuff). r.1 ≡ record hs { entropy = suc hs.entropy })
      (attempt (create_partial_cert c.crypto hs.entropy b)) _
      (Settles-Ends _ (Settles-attempt _ (create_partial_cert-Settles c.crypto hs.entropy b)))
      λ pc _. refl

pub vote_if_signed-keeps :
    (c : Context) (pc : Option PartialCert) (type : MessageType) (hs : HotStuff)
    → ((vote_if_signed c pc type hs).prepare_qc ≡ hs.prepare_qc)
      × ((vote_if_signed c pc type hs).pre_commit_qc ≡ hs.pre_commit_qc)
      × ((vote_if_signed c pc type hs).sent ≡ hs.sent)
unfolding vote_myself
vote_if_signed-keeps c none type hs = ground arith
vote_if_signed-keeps c (some pc) type hs = ground arith
