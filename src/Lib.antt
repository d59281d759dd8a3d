-- ===== src/Lib.antt =====
-- A model of the two replicas of the basic HotStuff protocol, with and without the Cogsworth view
-- change, and of the services around them, with theorems on their handlers, certificates, stores,
-- message loops and runs.
--
-- Parts and files (paths from the repository's root):
--   * Types, Encoding: src/types/types.go and src/crypto/ecdsa/multisignature.go, the certificates
--     and how Go lays out numbers as bytes; Types/Sets is its IDSet and SyncInfo.
--   * Primitives: the calls of SHA-256 and ECDSA, parameters of everything above.
--   * Block: src/model/block.go. BlockChain: src/service/blockchain.go.
--   * Crypto: src/crypto/crypto.go and src/crypto/ecdsa/ecdsa.go.
--   * Proto, Convert: the messages of src/proto and src/proto/basichotstuffpb/convert.go.
--   * NodeManager, MessageQueue, CmdCache, Timer: src/service/node.go, queue.go, cmd.go, timeout.go.
--   * Client: src/server/client.go, the counting of responses and the loop that sends requests.
--   * Server: src/server/basic.go, which call of the service reaches which channel.
--   * KeyGen: src/crypto/keygen/keygen.go, the key files of the replicas.
--   * Consensus: State and Phases are src/consensus/consensus.go; Basic and MessageLoop are
--     src/consensus/basic.go; Cogsworth and CogsworthLoop are src/consensus/basic_with_cogsworth.go
--     and pacemaker.go. Run and CogsworthRun put a replica, its server, timer and clock together.
--   * Consensus/Certified: what holds of the certificates and the votes that a replica keeps, through
--     each handler (Phases, Deciding, Wishes) and each step of a run (Run, WishesRun). Crypto/Forging,
--     Consensus/Phases/Forging and StrayVotes, and Consensus/Cogsworth/MixedVotes: what the checks
--     let through.
--   * Prelude: shared names, Go maps as association lists, results, sorting, counting.
--   * Examples: concrete replicas, and each theorem that has conditions applied to them.
--
-- How they interact: a message waits in MsgChan until HandleMsg takes it (handle_msg). One of a later
-- view goes to the MessageQueue, one of an earlier view is dropped, and any other goes to its
-- handler (dispatch), each time after ProcessCurrentViewQueue (process_current_view_queue) has taken
-- a message of the view from the queue. A handler reads the message (Convert), checks a vote or a
-- certificate (Crypto), and changes the state and sends messages. Decide and the last commit vote
-- enter the next view by SendNewView, which looks at the queue again; a quorum of NewView messages
-- signals HandleReq (handle_req), which proposes the next request (send_prepare). A timeout enters
-- the next view too (handle_timeout).
--
-- The replica with Cogsworth is the same state with four maps more (Cogsworth, whose field `base` is the
-- HotStuffImpl). It gives its view up by WishToAdvance (wish_to_advance), after a decision or a
-- timeout: it sends a wish to the leader of the next view (send_wish_next_view); the leader makes a
-- certificate of F+1 wishes and multicasts it (on_receive_wish_next_view, wished); replicas answer with
-- timeout votes (on_receive_timeout); and a quorum of those begins the view (on_receive_timeout_vote,
-- process_new_view), which the leader announces by a NewView message (on_receive_new_view).
--
-- A run is a sequence of steps: a call of the server (deliver, send_request), a message or a timeout
-- that HandleMsg takes, a signal that HandleReq takes, or the clock.
--
-- Conventions: a handler is a function of the state HotStuff to a Result. `err` is a returned error,
-- `panic` a Go panic (a nil dereference, a failed assertion, an index out of range, log.Panic), `hang`
-- a wait without end (a mutex that the same goroutine holds, a loop over a cycle of blocks), and
-- `out_of_fuel` the end of the model's fuel alone. `Ends P r` says that r is not out_of_fuel and
-- that P holds of the state if r returns one. Messages sent are kept in `sent`, newest first; a
-- signal on Ready is counted until HandleReq has acted on it. Views are uint64 and wrap at 2^64; ids
-- are uint32. The clock and the randomness of signing are part of the state.
--
-- Fuel: process_queue has one round for each message in the queue and one more, since every call
-- takes a message out before it makes another; drain_new_views, drain_wishes and
-- drain_timeout_votes likewise. The loop of Extends has a round for each stored block and for each
-- view: a longer run has met a block again, and hangs.
--
-- Not modelled: delivery of messages and gRPC, the interleaving of HandleMsg with HandleReq within a
-- handler, log output, metrics and command line. A send on Ready, an unbuffered channel, waits until
-- HandleReq receives; that wait is left out, so no theorem says that a handler which sends there
-- returns in time, and a deadlock with HandleReq over the mutex does not show in the model.
pub mod Prelude
pub mod Encoding
pub mod Types
pub mod Primitives
pub mod Block
pub mod Crypto
pub mod Proto
pub mod Convert
pub mod NodeManager
pub mod MessageQueue
pub mod BlockChain
pub mod CmdCache
pub mod Timer
pub mod Server
pub mod KeyGen
pub mod Client
pub mod Consensus
mod Examples
