-- ===== src/Consensus/Phases/StrayVotes.antt =====
-- Votes for other bytes, counted under the hash that they claim.
use basic_hotstuff.Prelude.{◌≡◌, true, flag, bytes_eq}
use basic_hotstuff.Types.{PartialCert}
use basic_hotstuff.Block.{Block}
use basic_hotstuff.Consensus.State.{HotStuff}

-- A certificate of prepare votes closes the votes for its hash.
abbrev Closes : PartialCert → HotStuff → Type 0
Closes pc s = flag pc.block_hash s.finished_prepare_votes ≡ true
