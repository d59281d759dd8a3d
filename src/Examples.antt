-- ===== src/Examples.antt =====
-- Concrete replicas, blocks and messages, and runs of the model on them: four replicas with the
-- quorum sizes 3 and 2, a digest that keeps the length of its text, and signatures that repeat the key.
mod Ledger
mod Queues
mod Certificates
mod Network
mod Replicas
mod Views
mod Pacemaker
mod Runs
mod Forging
mod Straying
mod Timeouts
mod Keys
use basic_hotstuff.Prelude.{
  ℕ, ◌+◌, ◌%◌, List, [], ◌∷◌, ◌++◌, Option, none, some, Bytes, length, nat_beq, ◌≡◌, refl, ok,
  Result, Bool, true, false, ◌≢◌, arith,
}
use basic_hotstuff.Types.{Hash, Signature, QuorumCert, PartialCert, Multi}
use basic_hotstuff.Primitives.{Primitives, KeyPair}
use basic_hotstuff.Block.{Block}
use basic_hotstuff.Crypto.{Crypto}
use basic_hotstuff.Proto.{Msg, MessageType, QuorumCertPb}
use basic_hotstuff.Convert.{block_to_proto, quorum_cert_to_proto, partial_cert_to_proto}
use basic_hotstuff.NodeManager.{Config, NodeManager, ReplicaConfig}
use basic_hotstuff.Consensus.State.{Context, HotStuff, new_hot_stuff}

abbrev pub hash_of_length : ℕ → Hash
hash_of_length n =
    (n % 256)
    ∷ 0
    ∷ 0
    ∷ 0
    ∷ 0
    ∷ 0
    ∷ 0
    ∷ 0
    ∷ 0
    ∷ 0
    ∷ 0
    ∷ 0
    ∷ 0
    ∷ 0
    ∷ 0
    ∷ 0
    ∷ 0
    ∷ 0
    ∷ 0
    ∷ 0
    ∷ 0
    ∷ 0
    ∷ 0
    ∷ 0
    ∷ 0
    ∷ 0
    ∷ 0
    ∷ 0
    ∷ 0
    ∷ 0
    ∷ 0
    ∷ 0
    ∷ []

abbrev pub toy : Primitives
toy = record {
  sha256 = λ text. hash_of_length (length text);
  ecdsa_sign = λ key nonce digest. some (key, nonce);
  ecdsa_verify = λ key digest r s. nat_beq r key;
}

abbrev pub toy_crypto : Crypto
toy_crypto = record {
  prims = toy;
  conf_id = 1;
  private_key = 11;
  public_keys = 10 ∷ 11 ∷ 12 ∷ 13 ∷ [];
  quorum_size = 3;
  timeout_quorum_size = 2;
}

abbrev pub replica_at : ℕ → ReplicaConfig
replica_at i = record { id = i; host = []; port = i }

abbrev pub four_config : Config
four_config = record {
  id = 1;
  replica = replica_at 0 ∷ replica_at 1 ∷ replica_at 2 ∷ replica_at 3 ∷ [];
  spare = [];
  total_number = 4;
  fault_number = 0;
  resolve = λ host port. port ∷ [];
}

abbrev pub four_nodes : NodeManager
four_nodes = record {
  conf = four_config;
  f = 1;
  quorum_size = 3;
  timeout_quorum_size = 2;
  total_nodes_number = 4;
  fault_nodes = [];
}

-- The replica with id 1, which leads view 1.
abbrev pub four : Context
four = record { node_manager = four_nodes; crypto = toy_crypto }

abbrev pub start : HotStuff
start = new_hot_stuff four

-- The certificate of the genesis block, whose bytes are 92.
abbrev pub genesis_qc : QuorumCert
genesis_qc = record { signature = none; view = 0; hash = hash_of_length 92 }

-- A block of view 1 with a command of one byte.
abbrev pub proposal : Block
proposal = record {
  hash = hash_of_length 93;
  parent = hash_of_length 92;
  proposer = 1;
  cmd = 5 ∷ [];
  cert = genesis_qc;
  view = 1;
  ts = 7;
}

-- The signature of one replica, and its vote for the proposal.
abbrev pub signed_by : ℕ → Multi
signed_by i = (i, record { r = i + 10; s = 0; signer = i }) ∷ []

abbrev pub vote_by : ℕ → PartialCert
vote_by i = record { signer = i; signature = some (signed_by i); block_hash = hash_of_length 93 }

abbrev pub three_votes : List PartialCert
three_votes = vote_by 0 ∷ vote_by 2 ∷ vote_by 3 ∷ []

-- The certificate that the three votes make.
abbrev pub proposal_qc : QuorumCert
proposal_qc = record {
  signature = some (signed_by 0 ++ (signed_by 2 ++ signed_by 3));
  view = 1;
  hash = hash_of_length 93;
}

abbrev pub msg_of : MessageType → Option PartialCert → Option QuorumCertPb → Msg
msg_of type none qc = record {
  type = type;
  view = 1;
  block = some (block_to_proto proposal);
  partial_cert = none;
  qc = qc;
  replica_id = 2;
  view_sig = none;
  tc = none;
}
msg_of type (some pc) qc = record {
  type = type;
  view = 1;
  block = some (block_to_proto proposal);
  partial_cert = some (partial_cert_to_proto pc);
  qc = qc;
  replica_id = 2;
  view_sig = none;
  tc = none;
}

abbrev pub prepare_msg : Msg
prepare_msg = msg_of MessageType.prepare none (some (quorum_cert_to_proto genesis_qc))

abbrev pub decide_msg : QuorumCert → Msg
decide_msg qc = msg_of MessageType.decide none (some (quorum_cert_to_proto qc))

abbrev pub vote_msg : ℕ → Msg
vote_msg i = msg_of MessageType.prepare_vote (some (vote_by i)) none

-- The leader once two votes are in.
abbrev pub two_votes_in : HotStuff
two_votes_in = record start {
  verified_prepare_votes = (hash_of_length 93, vote_by 0 ∷ vote_by 2 ∷ []) ∷ [];
}

abbrev pub result_or : HotStuff → Result HotStuff → HotStuff
result_or hs (ok s) = s
result_or hs _ = hs

pub hashes_differ : hash_of_length 93 ≢ hash_of_length 92
hashes_differ e = ground arith

-- Signatures of the toy verify under the key that made them.
pub toy-KeyPair : (key : ℕ) → KeyPair toy key key
toy-KeyPair key nonce digest r s e = ground arith
