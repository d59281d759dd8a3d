-- ===== src/Client.antt =====
-- server/client.go: how the client counts the responses to a command. The send on `Chan` is one
-- more signal for the loop that sends requests, which waits for it.
pub mod Counting
pub mod Requests
use basic_hotstuff.Prelude.{
  ℕ, zero, suc, ◌+◌, List, [], ◌∷◌, ◌++◌, Option, none, some, Bool, true, false, Bytes, Map, lookup,
  insert, erase, contains, bytes_eq, ltb, length, if◌then◌else◌,
}

-- clientpb.Response.
pub record Response : Type 0 where
  pub result : Bytes
  pub cmd : Bytes
  pub replica_id : ℕ

pub record Client : Type 0 where
  -- `NodeManager.F`
  pub f : ℕ
  pub res_map : Map Bytes (List Bytes)
  pub done_map : Map Bytes Bool
  -- the commands that a signal was sent for, newest first
  pub signals : List Bytes

unfoldable pub new_client : ℕ → Client
new_client f = record { f = f; res_map = []; done_map = []; signals = [] }

abbrev add_result : Option (List Bytes) → Response → Client → Client
add_result none res s = record s { res_map = insert res.cmd (res.result ∷ []) s.res_map }
add_result (some v) res s =
    let v' = v ++ res.result ∷ [] in
    if ltb (length v') (s.f + 1)
    then record s { res_map = insert res.cmd v' s.res_map }
    else record s {
      res_map = erase res.cmd s.res_map;
      done_map = insert res.cmd true s.done_map;
      signals = res.cmd ∷ s.signals;
    }

-- `ClientImpl.SendResponse`.
unfoldable pub send_response : Response → Client → Client
send_response res s =
    if contains res.cmd s.done_map then s else add_result (lookup res.cmd s.res_map) res s

unfoldable pub send_responses : List Response → Client → Client
unfolding send_response
send_responses [] s = s
send_responses (res ∷ rs) s = send_responses rs (send_response res s)
