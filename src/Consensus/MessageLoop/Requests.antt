-- ===== src/Consensus/MessageLoop/Requests.antt =====
-- What HandleReq does with the requests.
use basic_hotstuff.Prelude.{
  suc, zero, ℕ, ◌≤◌, ◌≡◌, refl, List, [], ◌∷◌, Option, some, none, true, Bytes, ok, arith, Ends,
  Ends->>=, Ends-if, Ends-mono, length, Bool-cases, inl, inr, bytes_eq, not, ap, from_option,
}
use basic_hotstuff.Types.{PartialCert}
use basic_hotstuff.Proto.{MessageType, Request}
use basic_hotstuff.CmdCache.{CmdCache, is_finished}
use basic_hotstuff.Consensus.State.{
  Context, HotStuff, Rpc, lock, unlock, is_leader, create_leaf, send_to_all, sign_block,
}
use basic_hotstuff.Consensus.Settling.{Settles-Ends, new_block-Settles}
use basic_hotstuff.Consensus.Frame.{
  SameCore, Taken, lock-Taken, Ends-core, send_to_all-core, sign_block-core, vote_if_signed-core,
}
use basic_hotstuff.Consensus.Phases.{propose, send_prepare}
use basic_hotstuff.Consensus.MessageLoop.{next_request, handle_req}

propose-core : (c : Context) (req : Request) (hs : HotStuff) → Ends (SameCore hs) (propose c req hs)
unfolding propose create_leaf
propose-core c req hs =
    Ends->>= (λ b. Unit) (SameCore hs) (create_leaf c hs.high_qc.hash hs.high_qc req.cmd hs) _
      (Settles-Ends _ (new_block-Settles _ _ _ _ _ _ _))
      λ b _.
        let hs1 = record hs { current_block = some b } in
        Ends-core hs hs1 _ (ground arith) (
          Ends->>= (SameCore hs1) (SameCore hs1) (send_to_all c Rpc.prepare _ hs1) _
            (send_to_all-core c Rpc.prepare _ hs1)
            λ hs2 same. Ends-core hs1 hs2 _ same (
              Ends->>= (λ (r : Option PartialCert × HotStuff). SameCore hs2 r.1) (SameCore hs2)
                (sign_block c b hs2) _ (sign_block-core c b hs2)
                λ (pc, hs3) same3.
                  let voted = vote_if_signed-core c pc MessageType.prepare_vote hs3 in
                  ground arith))

send_prepare-core :
    (c : Context) (req : Request) (hs : HotStuff) → Ends (SameCore hs) (send_prepare c req hs)
unfolding send_prepare unlock
send_prepare-core c req hs =
    Ends->>= (Taken hs) (SameCore hs) (lock hs) _ (lock-Taken hs) λ held taken.
      Ends-if (SameCore hs) (not (is_leader c held)) _ _ (ground arith) (
        Ends->>= (SameCore held) (SameCore hs) (propose c req held) _ (propose-core c req held)
          λ s same. ground arith)

-- The mutex, the channel of messages and the stored blocks are as before, the commands that are done
-- stay done, and requests are only taken out.
pub record Requested (hs s : HotStuff) : Type 0 where
  pub mutex : s.locked ≡ hs.locked
  pub channel : s.msg_chan ≡ hs.msg_chan
  pub chain : s.block_chain ≡ hs.block_chain
  pub finished :
      (cmd : Bytes) → is_finished cmd hs.cmd_cache ≡ true → is_finished cmd s.cmd_cache ≡ true
  pub fewer : length s.cmd_cache.channel ≤ length hs.cmd_cache.channel

next_request-fewer :
    (cache : CmdCache) (reqs : List Request) (req : Request) (rest : List Request)
    → next_request cache reqs ≡ some (req, rest)
    → length rest ≤ length reqs
unfolding next_request
next_request-fewer cache [] req rest e = absurd (ground arith)
next_request-fewer cache (r ∷ reqs) req rest e = elim (Bool-cases (is_finished r.cmd cache)) [
  | inl b ↦ ground (arith, next_request-fewer cache reqs req rest)
  | inr b ↦ ground arith
]

pub handle_req-Requested : (c : Context) (hs : HotStuff) → Ends (Requested hs) (handle_req c hs)
unfolding handle_req is_finished
handle_req-Requested c hs = go hs.ready
  where
    cache : CmdCache
    cache = hs.cmd_cache

    waiting : Requested hs (record hs { cmd_cache = record hs.cmd_cache { channel = [] } })
    waiting = record {
      mutex = refl;
      channel = refl;
      chain = refl;
      finished = λ cmd h. h;
      fewer = omega arith;
    }

    taken :
        (signals : ℕ) (o : Option (Request × List Request))
        → next_request cache cache.channel ≡ o
        → Ends (Requested hs) (
            from_option o
              (ok (record hs { cmd_cache = record hs.cmd_cache { channel = [] } }))
              (λ (req, reqs). send_prepare c req (record hs {
                ready = signals;
                cmd_cache = record hs.cmd_cache { channel = reqs };
              })))
    taken signals none e = waiting
    taken signals (some (req, reqs)) e =
        let fewer = next_request-fewer cache cache.channel req reqs e in
        let hs1 = record hs {
          ready = signals;
          cmd_cache = record hs.cmd_cache { channel = reqs };
        } in
        Ends-mono (SameCore hs1) (Requested hs) _ (send_prepare-core c req hs1) λ s same. record {
          mutex = same.mutex;
          channel = same.channel;
          chain = same.chain;
          finished = λ cmd h. rw (same.cmds) h;
          fewer = omega (arith, ap (λ x. length x.channel) same.cmds);
        }

    go :
        (n : ℕ)
        → Ends (Requested hs) (elim n [
          | zero ↦ ok hs
          | suc signals ↦
              from_option
                (next_request cache cache.channel)
                (ok (record hs { cmd_cache = record hs.cmd_cache { channel = [] } }))
                (λ (req, reqs). send_prepare c req (record hs {
                  ready = signals;
                  cmd_cache = record hs.cmd_cache { channel = reqs };
                }))
        ])
    go zero = record {
      mutex = refl;
      channel = refl;
      chain = refl;
      finished = λ cmd h. h;
      fewer = omega arith;
    }
    go (suc signals) = taken signals (next_request cache cache.channel) refl
