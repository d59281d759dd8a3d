-- ===== src/Consensus/CogsworthLoop/Timeouts.antt =====
-- What a timeout of the replica with wishes does, and what the next leader does with its wish.
use basic_hotstuff.Prelude.{ℕ, some, none, nat_eq}
use basic_hotstuff.Types.{QuorumSignature}
use basic_hotstuff.Proto.{Msg, MessageType}
use basic_hotstuff.Convert.{quorum_signature_to_proto}
use basic_hotstuff.NodeManager.{NodeManager}
use basic_hotstuff.Consensus.State.{Context}
use basic_hotstuff.Consensus.Cogsworth.{Cogsworth, view_msg}

-- The wish of a view with a signature.
abbrev pub wish_msg : Context → ℕ → QuorumSignature → Msg
wish_msg c v sig =
    view_msg c MessageType.wish_next_view v (some (quorum_signature_to_proto sig)) none
