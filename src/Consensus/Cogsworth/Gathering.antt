-- ===== src/Consensus/Cogsworth/Gathering.antt =====
-- The handler of wishes: what it may change.
use basic_hotstuff.Prelude.{
  EachValue-erase, EachValue-insert, suc, not, arith, Ends, Ends->>=, Ends->>=_eq, Ends-if,
  Ends-if_eq, Ends-option, Ends-attempt, attempt, ltb, length, flag, nat_eq, insert, erase, true,
  some,
}
use basic_hotstuff.Types.{View, TimeoutCert, view_to_bytes}
use basic_hotstuff.Crypto.{verify, create_timeout_cert, create_timeout_vote_cert}
use basic_hotstuff.Proto.{Msg}
use basic_hotstuff.Convert.{quorum_signature_from_proto, timeout_cert_to_proto}
use basic_hotstuff.Convert.Keyed.{quorum_signature_from_proto-IsKeyedSignature}
use basic_hotstuff.Consensus.State.{Context, Rpc, send_to_all}
use basic_hotstuff.Consensus.Settling.{Settles-Ends, verify-Settles}
use basic_hotstuff.Consensus.Frame.{send_to_all-core}
use basic_hotstuff.Consensus.Phases.{start_timer}
use basic_hotstuff.Consensus.Basic.Advance.{Advance-refl, core-Advance}
use basic_hotstuff.Consensus.Cogsworth.{or_nil, timeout_vote_msg, Cogsworth, on_base, set_base}
use basic_hotstuff.Consensus.Cogsworth.Wishing.{
  wished, wishes_with, add_wish, count_wish, on_receive_wish_next_view,
}
use basic_hotstuff.Consensus.Cogsworth.Timeouts.{
  create_timeout_cert-Settles, create_timeout_vote_cert-Settles,
}
use basic_hotstuff.Consensus.Cogsworth.Moves.{
  Moves, Moves-refl, Moves-trans, then-Moves, base-Moves, on_base-Moves, IsWish,
}
use basic_hotstuff.Consensus.Cogsworth.Handlers.{timer-Moves, on_receive_timeout_vote-Moves}

-- A draw of randomness.
pub drawn-Moves :
    (c : Context) (hs : Cogsworth)
    → Moves c.crypto 0 hs (set_base (λ b. record b { entropy = suc b.entropy }) hs)
drawn-Moves c hs =
    let adv = Advance-refl 0 hs.base in
    base-Moves c.crypto 0 hs (record hs.base { entropy = suc hs.base.entropy })
      (record {
        queue = adv.queue;
        mutex = adv.mutex;
        channel = adv.channel;
        kept = adv.kept;
        view = adv.view;
      })

wished-Moves :
    (c : Context) (view : View) (cert : TimeoutCert) (hs : Cogsworth)
    → Ends (Moves c.crypto 0 hs) (wished c view cert hs)
unfolding wished
wished-Moves c view cert hs =
    Ends->>= (Moves c.crypto 0 hs) (Moves c.crypto 0 hs) (on_base (send_to_all c Rpc.timeout _) hs)
      _
      (on_base-Moves c.crypto 0 (send_to_all c Rpc.timeout _) hs
        (core-Advance 0 hs.base _ (send_to_all-core c Rpc.timeout _ hs.base)))
      λ hs1 m.
        let hs2 = record hs1 {
          wish_next_view = erase view hs1.wish_next_view;
          wish_finished = insert view true hs1.wish_finished;
        } in
        let erased : Moves c.crypto 0 hs hs2 = record {
          advance = m.advance;
          verified = λ v. record {
            wishes =
                EachValue-erase (IsWish c.crypto) view hs1.wish_next_view (m.verified v).wishes;
            votes = (m.verified v).votes;
          };
        } in
        Ends->>= (λ o. Unit) (Moves c.crypto 0 hs)
          (attempt (
            create_timeout_vote_cert c.crypto hs1.base.entropy (record { view = view; tc = cert })))
          _ (Ends-attempt _ (Settles-Ends _ (create_timeout_vote_cert-Settles c.crypto _ _)))
          λ made _.
            let hs3 = set_base (λ b. record b { entropy = suc b.entropy }) hs2 in
            then-Moves c.crypto 0 0 hs hs3 _
              (Moves-trans c.crypto 0 0 hs hs2 hs3 erased (drawn-Moves c hs2))
              (on_receive_timeout_vote-Moves c
                (timeout_vote_msg c view (or_nil made) (some (timeout_cert_to_proto cert)) hs3.base)
                hs3)

add_wish-Moves :
    (c : Context) (msg : Msg) (hs : Cogsworth)
    → IsWish c.crypto msg.view (quorum_signature_from_proto msg.view_sig)
    → Moves c.crypto 0 hs (add_wish msg hs)
add_wish-Moves c msg hs good =
    let adv = Advance-refl 0 hs.base in
    record {
      advance = adv;
      verified = λ v. record {
        wishes =
            EachValue-insert (IsWish c.crypto) msg.view (quorum_signature_from_proto msg.view_sig)
              hs.wish_next_view v.wishes good;
        votes = v.votes;
      };
    }

count_wish-Moves :
    (c : Context) (msg : Msg) (hs : Cogsworth)
    → IsWish c.crypto msg.view (quorum_signature_from_proto msg.view_sig)
    → Ends (Moves c.crypto 0 hs) (count_wish c msg hs)
unfolding count_wish
count_wish-Moves c msg hs good =
    let wishes = wishes_with msg hs in
    let hs1 = add_wish msg hs in
    let kept = add_wish-Moves c msg hs good in
    Ends-if (Moves c.crypto 0 hs) (ltb (length wishes) c.node_manager.timeout_quorum_size) _ _ kept
      (Ends->>= (λ o. Unit) (Moves c.crypto 0 hs)
        (attempt (create_timeout_cert c.crypto msg.view wishes)) _
        (Ends-attempt _ (Settles-Ends _ (create_timeout_cert-Settles c.crypto msg.view wishes)))
        λ made _.
          Ends-option (Moves c.crypto 0 hs) made _ _ kept
            λ cert. then-Moves c.crypto 0 0 hs hs1 _ kept (wished-Moves c msg.view cert hs1))

pub on_receive_wish_next_view-Moves :
    (c : Context) (msg : Msg) (hs : Cogsworth)
    → Ends (Moves c.crypto 0 hs) (on_receive_wish_next_view c msg hs)
unfolding on_receive_wish_next_view
on_receive_wish_next_view-Moves c msg hs =
    let sig = quorum_signature_from_proto msg.view_sig in
    let hs1 = set_base start_timer hs in
    Ends-if (Moves c.crypto 0 hs) (flag msg.view hs.wish_finished) _ _ (Moves-refl c.crypto 0 hs) (
      then-Moves c.crypto 0 0 hs hs1 _ (timer-Moves c hs) (
        Ends->>=_eq (Moves c.crypto 0 hs1) (verify c.crypto sig (view_to_bytes msg.view)) _
          (Settles-Ends _ (verify-Settles c.crypto sig (view_to_bytes msg.view)))
          λ valid e.
            Ends-if_eq (Moves c.crypto 0 hs1) (not valid) _ _ (λ _. Moves-refl c.crypto 0 hs1)
              (λ good.
                count_wish-Moves c msg hs1
                  (quorum_signature_from_proto-IsKeyedSignature msg.view_sig, ground arith))))
