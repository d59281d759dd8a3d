-- ===== src/Consensus/Run.antt =====
-- Runs of the basic replica: its server takes messages and requests, its two goroutines handle them,
-- its timer fires and its clock goes on. A step is one call of a method from start to end.
pub mod Sanity
use basic_hotstuff.Prelude.{ℕ, List, ◌∷◌, some, ok, false, ◌≡◌}
use basic_hotstuff.Proto.{Msg, Request}
use basic_hotstuff.Server.{deliver, send_request}
use basic_hotstuff.Consensus.State.{Context, HotStuff, Rpc}
use basic_hotstuff.Consensus.MessageLoop.{handle_msg, handle_timeout, handle_req}

pub data Step (c : Context) : HotStuff → HotStuff → Type 0 where
  delivered :
      (rpc : Rpc) (msg : Msg) {hs s : HotStuff} → deliver false rpc msg hs ≡ some s → Step c hs s
  requested : (req : Request) {hs s : HotStuff} → send_request req hs ≡ some s → Step c hs s
  handled :
      (msg : Msg) (rest : List Msg) {hs s : HotStuff}
      → hs.msg_chan ≡ msg ∷ rest
      → handle_msg c msg (record hs { msg_chan = rest }) ≡ ok s
      → Step c hs s
  timed_out : {hs s : HotStuff} → handle_timeout c hs ≡ ok s → Step c hs s
  proposed : {hs s : HotStuff} → handle_req c hs ≡ ok s → Step c hs s
  ticked : (now : ℕ) {hs : HotStuff} → Step c hs (record hs { now = now })

pub data Reach (c : Context) (hs : HotStuff) : HotStuff → Type 0 where
  start : Reach c hs hs
  after : {s t : HotStuff} → Reach c hs s → Step c s t → Reach c hs t
