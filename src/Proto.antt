-- ===== src/Proto.antt =====
-- The protocol messages, proto/basichotstuffpb/basichotstuff.proto as the handlers read them through
-- the getters: a field that is a message may be missing, and a getter on a missing message gives
-- the zero value of what it reads. The fields MsgSig and Type of QuorumCert are read nowhere.
use basic_hotstuff.Prelude.{ℕ, List, Option, Bytes, Bool, nat_beq}

-- commonpb.MessageType, in the order of its numbers.
pub data MessageType : Type 0 where
  unknown new_view prepare prepare_vote pre_commit pre_commit_vote commit commit_vote decide
        wish_next_view timeout timeout_vote :
      MessageType

abbrev pub type_number : MessageType → ℕ
type_number MessageType.unknown = 0
type_number MessageType.new_view = 1
type_number MessageType.prepare = 2
type_number MessageType.prepare_vote = 3
type_number MessageType.pre_commit = 4
type_number MessageType.pre_commit_vote = 5
type_number MessageType.commit = 6
type_number MessageType.commit_vote = 7
type_number MessageType.decide = 8
type_number MessageType.wish_next_view = 9
type_number MessageType.timeout = 10
type_number MessageType.timeout_vote = 11

abbrev pub type_beq : MessageType → MessageType → Bool
type_beq a b = nat_beq (type_number a) (type_number b)

pub record EcdsaSignaturePb : Type 0 where
  pub signer : ℕ
  pub r : Bytes
  pub s : Bytes

-- The oneof of QuorumSignature: unset, or a list of signatures.
pub record QuorumSignaturePb : Type 0 where
  pub ecdsa_sigs : Option (List EcdsaSignaturePb)

pub record QuorumCertPb : Type 0 where
  pub sig : Option QuorumSignaturePb
  pub view : ℕ
  pub hash : Bytes

pub record PartialCertPb : Type 0 where
  pub sig : Option QuorumSignaturePb
  pub hash : Bytes

pub record TimeoutCertPb : Type 0 where
  pub sig : Option QuorumSignaturePb
  pub view : ℕ

-- A timestamp is given by its nanoseconds.
pub record BlockPb : Type 0 where
  pub parent : Bytes
  pub hash : Bytes
  pub view : ℕ
  pub command : Bytes
  pub qc : Option QuorumCertPb
  pub proposer : ℕ
  pub timestamp : Option ℕ

pub record Msg : Type 0 where
  pub type : MessageType
  pub view : ℕ
  pub block : Option BlockPb
  pub partial_cert : Option PartialCertPb
  pub qc : Option QuorumCertPb
  pub replica_id : ℕ
  pub view_sig : Option QuorumSignaturePb
  pub tc : Option TimeoutCertPb

-- A request of a client.
pub record Request : Type 0 where
  pub cmd : Bytes
  pub client_address : Bytes
