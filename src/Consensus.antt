-- ===== src/Consensus.antt =====
-- consensus/: the replicas of basic HotStuff, with and without the Cogsworth view change, and runs.
pub mod State
mod Settling
mod Kept
mod Frame
pub mod Phases
pub mod Basic
pub mod MessageLoop
pub mod Cogsworth
pub mod CogsworthLoop
pub mod Run
pub mod CogsworthRun
pub mod Certified
