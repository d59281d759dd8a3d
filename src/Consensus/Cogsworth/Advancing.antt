-- ===== src/Consensus/Cogsworth/Advancing.antt =====
-- The handlers of timeouts and NewView messages, and how a replica gives its view up: what they may
-- change.
use basic_hotstuff.Prelude.{
  EachValue, suc, ◌≡◌, ◌+◌, ◌<◌, refl, false, not, arith, ok, Ends, Ends->>=, Ends-mono, Ends-if,
  Ends-attempt, attempt, nat_eq, true, some, none, ap, sym, ◌∙◌, subst, ◌>>=◌,
}
use basic_hotstuff.Encoding.{u64_mod}
use basic_hotstuff.Types.{view_to_bytes}
use basic_hotstuff.Crypto.{
  sign, verify_timeout_cert, create_timeout_vote_cert, verify_timeout_quorum_cert,
}
use basic_hotstuff.Proto.{Msg, MessageType, type_beq}
use basic_hotstuff.Convert.{
  quorum_signature_to_proto, quorum_cert_from_proto, timeout_cert_from_proto,
}
use basic_hotstuff.Consensus.State.{Context, Rpc, send_to_leader, lock, unlock, is_leader}
use basic_hotstuff.Consensus.Settling.{Settles-Ends, sign-Settles}
use basic_hotstuff.Consensus.Frame.{Taken, lock-Taken, send_to_leader-core}
use basic_hotstuff.Consensus.Phases.{start_timer}
use basic_hotstuff.Timer.{stop, reset}
use basic_hotstuff.Consensus.Kept.{Kept-trans, Kept-same}
use basic_hotstuff.Consensus.Basic.{skip_view}
use basic_hotstuff.Consensus.Basic.Advance.{pending, core-Advance}
use basic_hotstuff.Consensus.Cogsworth.{
  or_nil, view_msg, Cogsworth, on_base, set_base, timeout_vote_of, on_receive_new_view,
}
use basic_hotstuff.Consensus.Cogsworth.Wishing.{
  on_receive_timeout, send_wish_next_view, wish_to_advance,
}
use basic_hotstuff.Consensus.Cogsworth.Timeouts.{
  verify_timeout_cert-Settles, create_timeout_vote_cert-Settles, verify_timeout_quorum_cert-Settles,
}
use basic_hotstuff.Consensus.Cogsworth.Moves.{
  Moves, Moves-refl, then-Moves, on_base-Moves, IsWish, IsTimeoutVote,
}
use basic_hotstuff.Consensus.Cogsworth.Handlers.{process_new_view-Moves}
use basic_hotstuff.Consensus.Cogsworth.Gathering.{drawn-Moves, on_receive_wish_next_view-Moves}

pub on_receive_timeout-Moves :
    (c : Context) (msg : Msg) (hs : Cogsworth)
    → Ends (Moves c.crypto 0 hs) (on_receive_timeout c msg hs)
unfolding on_receive_timeout
on_receive_timeout-Moves c msg hs =
    let refl_moves = Moves-refl c.crypto 0 hs in
    let tc = timeout_cert_from_proto msg.tc in
    Ends-if (Moves c.crypto 0 hs) (not (type_beq msg.type MessageType.timeout)) _ _ refl_moves (
      Ends->>= (λ o. Unit) (Moves c.crypto 0 hs) (verify_timeout_cert c.crypto tc) _
        (Settles-Ends _ (verify_timeout_cert-Settles c.crypto tc))
        λ valid _. Ends-if (Moves c.crypto 0 hs) (not valid) _ _ refl_moves (
          Ends->>= (λ o. Unit) (Moves c.crypto 0 hs)
            (attempt (create_timeout_vote_cert c.crypto hs.base.entropy (timeout_vote_of msg))) _
            (Ends-attempt _ (Settles-Ends _ (create_timeout_vote_cert-Settles c.crypto _ _)))
            λ made _.
              let hs1 = set_base (λ b. record b { entropy = suc b.entropy }) hs in
              then-Moves c.crypto 0 0 hs hs1 _ (drawn-Moves c hs) (
                on_base-Moves c.crypto 0 (send_to_leader c Rpc.timeout_vote _) hs1
                  (core-Advance 0 hs1.base _ (send_to_leader-core c Rpc.timeout_vote _ hs1.base)))))

pub on_receive_new_view-Moves :
    (c : Context) (msg : Msg) (hs : Cogsworth)
    → Ends (Moves c.crypto 0 hs) (on_receive_new_view c msg hs)
unfolding on_receive_new_view
on_receive_new_view-Moves c msg hs =
    let qc = quorum_cert_from_proto msg.qc in
    Ends->>= (λ o. Unit) (Moves c.crypto 0 hs)
      (verify_timeout_quorum_cert c.crypto (timeout_vote_of msg) qc) _
      (Settles-Ends _ (verify_timeout_quorum_cert-Settles c.crypto (timeout_vote_of msg) qc))
      λ valid _.
        Ends-if (Moves c.crypto 0 hs) (not valid) _ _ (Moves-refl c.crypto 0 hs)
          (process_new_view-Moves c msg qc hs)

send_wish_next_view-Moves :
    (c : Context) (hs : Cogsworth) → Ends (Moves c.crypto 0 hs) (send_wish_next_view c hs)
unfolding send_wish_next_view
send_wish_next_view-Moves c hs =
    Ends->>= (λ o. Unit) (Moves c.crypto 0 hs)
      (attempt (sign c.crypto hs.base.entropy (view_to_bytes hs.base.current_view))) _
      (Ends-attempt _ (Settles-Ends _ (sign-Settles c.crypto _ _)))
      λ made _.
        let hs1 = set_base (λ b. record b { entropy = suc b.entropy }) hs in
        then-Moves c.crypto 0 0 hs hs1 _ (drawn-Moves c hs) (
          Ends-if (Moves c.crypto 0 hs1) (is_leader c hs1.base) _ _
            (on_receive_wish_next_view-Moves c
              (view_msg c MessageType.wish_next_view hs.base.current_view
                (some (quorum_signature_to_proto (or_nil made))) none)
              hs1)
            (on_base-Moves c.crypto 0 (send_to_leader c Rpc.wish_next_view _) hs1
              (core-Advance 0 hs1.base _ (send_to_leader-core c Rpc.wish_next_view _ hs1.base))))

-- A replica that gives its view up is in a later one, where the view cannot reach 2^64, and its
-- mutex is free.
abbrev pub Left : Cogsworth → Cogsworth → Type 0
Left hs s =
    (hs.base.current_view + pending hs.base + 1 < u64_mod
      → hs.base.current_view < s.base.current_view)
    × (s.base.locked ≡ false)

abbrev pub MovesOn : Context → Cogsworth → Cogsworth → Type 0
MovesOn c hs s = Moves c.crypto 1 hs s × Left hs s

pub wish_to_advance-MovesOn :
    (c : Context) (hs : Cogsworth) → Ends (MovesOn c hs) (wish_to_advance c hs)
unfolding wish_to_advance unlock
wish_to_advance-MovesOn c hs =
    let b = record hs.base { timer = stop (reset hs.base.timer) } in
    let hs1 = record hs { base = record b { locked = true } } in
    Ends->>= (λ s. (b.locked ≡ false) × (s ≡ hs1)) (MovesOn c hs)
      (on_base lock (record hs { base = b })) _
      (Ends->>= (Taken b) (λ s. (b.locked ≡ false) × (s ≡ hs1)) (lock b) _ (lock-Taken b)
        λ s (free, same). (free, ap (λ s. record hs { base = s }) same))
      λ s (free, same). entered s free same
  where
    entered :
        (s : Cogsworth)
        → hs.base.locked ≡ false
        → s ≡ record hs {
          base = record hs.base { timer = stop (reset hs.base.timer); locked = true };
        }
        → Ends (MovesOn c hs) (
            send_wish_next_view c (set_base skip_view s) >>= λ hs2.
            ok (set_base (λ b. start_timer (unlock b)) hs2))
    entered s free same =
        let hs2 = set_base skip_view s in
        let queue : pending s.base ≡ pending hs.base = ap (λ t. pending t.base) same in
        let cmds : s.base.cmd_cache ≡ hs.base.cmd_cache = ap (λ t. t.base.cmd_cache) same in
        let chain : s.base.block_chain ≡ hs.base.block_chain = ap (λ t. t.base.block_chain) same in
        let view : s.base.current_view ≡ hs.base.current_view =
          ap (λ t. t.base.current_view) same in
        Ends->>= (Moves c.crypto 0 hs2) (MovesOn c hs) (send_wish_next_view c hs2) _
          (send_wish_next_view-Moves c hs2)
          λ t m. (
            record {
              advance = record {
                queue = omega (arith, m.advance.queue, queue);
                mutex = sym free;
                channel = m.advance.channel ∙ ap (λ t. t.base.msg_chan) same;
                kept = Kept-trans (Kept-same cmds chain) m.advance.kept;
                view = λ room.
                    let (up, most) = m.advance.view (omega (arith, queue, view)) in
                    (omega (arith, queue, view), omega (arith, queue, view));
              };
              verified = λ v.
                  let v' = m.verified (record {
                    wishes =
                        subst (λ u. EachValue (IsWish c.crypto) u.wish_next_view) (sym same)
                          v.wishes;
                    votes =
                        subst (λ u. EachValue (IsTimeoutVote c.crypto) u.verified_timeout_votes)
                          (sym same) v.votes;
                  }) in
                  record { wishes = v'.wishes; votes = v'.votes };
            },
            (
              λ room.
                  let (up, most) = m.advance.view (omega (arith, queue, view)) in
                  omega (arith, queue, view),
              refl,
            ),
          )

pub wish_to_advance-Moves :
    (c : Context) (hs : Cogsworth) → Ends (Moves c.crypto 1 hs) (wish_to_advance c hs)
wish_to_advance-Moves c hs =
    Ends-mono (MovesOn c hs) (Moves c.crypto 1 hs) _ (wish_to_advance-MovesOn c hs) (λ s m. m.0)
