-- ===== src/Consensus/Cogsworth/Handlers.antt =====
-- The handlers of timeout votes: what they may change.
use basic_hotstuff.Prelude.{
  EachValue-erase, EachValue-insert, not, arith, Ends, Ends->>=, Ends->>=_eq, Ends-if, Ends-if_eq,
  Ends-attempt, Ends-deref, attempt, deref, ltb, length, flag, nat_eq,
}
use basic_hotstuff.Types.{QuorumCert}
use basic_hotstuff.Crypto.{verify_timeout_vote_cert, create_timeout_quorum_cert}
use basic_hotstuff.Proto.{Msg, MessageType, type_beq}
use basic_hotstuff.Convert.{quorum_signature_from_proto, timeout_cert_from_proto}
use basic_hotstuff.BlockChain.{get}
use basic_hotstuff.Consensus.State.{Context, HotStuff, Rpc, send_to_all, is_leader}
use basic_hotstuff.Consensus.Settling.{Settles-Ends}
use basic_hotstuff.Consensus.Frame.{send_to_all-core}
use basic_hotstuff.Consensus.Phases.{start_timer}
use basic_hotstuff.Consensus.Basic.Advance.{Advance, Advance-refl, core-Advance}
use basic_hotstuff.Consensus.Cogsworth.{
  Cogsworth, set_base, announce, process_new_view, timeout_vote_of, or_zero_qc, timeout_votes_with,
  add_timeout_vote, count_timeout_vote, on_receive_timeout_vote,
}
use basic_hotstuff.Consensus.Cogsworth.Timeouts.{
  verify_timeout_vote_cert-Settles, create_timeout_quorum_cert-Settles,
}
use basic_hotstuff.Consensus.Cogsworth.Moves.{
  Moves, Moves-refl, then-Moves, base-Moves, IsTimeoutVote,
}

announce-Advance :
    (c : Context) (msg : Msg) (qc : QuorumCert) (hs : HotStuff)
    → Ends (Advance 0 hs) (announce c msg qc hs)
announce-Advance c msg qc hs =
    Ends-if (Advance 0 hs) (is_leader c hs) _ _
      (Ends->>= (λ b. Unit) (Advance 0 hs) (deref (get hs.high_qc.hash hs.block_chain)) _
        (Ends-deref (get hs.high_qc.hash hs.block_chain))
        λ b _.
          Ends->>= (Advance 0 hs) (Advance 0 hs) (send_to_all c Rpc.new_view _ hs) _
            (core-Advance 0 hs _ (send_to_all-core c Rpc.new_view _ hs))
            λ s adv. record {
              queue = adv.queue;
              mutex = adv.mutex;
              channel = adv.channel;
              kept = adv.kept;
              view = adv.view;
            })
      (Advance-refl 0 hs)

pub process_new_view-Moves :
    (c : Context) (msg : Msg) (qc : QuorumCert) (hs : Cogsworth)
    → Ends (Moves c.crypto 0 hs) (process_new_view c msg qc hs)
unfolding process_new_view
process_new_view-Moves c msg qc hs =
    Ends->>= (Advance 0 hs.base) (Moves c.crypto 0 hs) (announce c msg qc hs.base) _
      (announce-Advance c msg qc hs.base)
      λ s adv. record {
        advance = record {
          queue = adv.queue;
          mutex = adv.mutex;
          channel = adv.channel;
          kept = adv.kept;
          view = adv.view;
        };
        verified = λ v. record { wishes = v.wishes; votes = v.votes };
      }

add_timeout_vote-Moves :
    (c : Context) (msg : Msg) (hs : Cogsworth)
    → IsTimeoutVote c.crypto msg.view (quorum_signature_from_proto msg.view_sig)
    → Moves c.crypto 0 hs (add_timeout_vote msg hs)
add_timeout_vote-Moves c msg hs good =
    let adv = Advance-refl 0 hs.base in
    record {
      advance = record {
        queue = adv.queue;
        mutex = adv.mutex;
        channel = adv.channel;
        kept = adv.kept;
        view = adv.view;
      };
      verified = λ v. record {
        wishes = v.wishes;
        votes =
            EachValue-insert (IsTimeoutVote c.crypto) msg.view
              (quorum_signature_from_proto msg.view_sig) hs.verified_timeout_votes v.votes good;
      };
    }

count_timeout_vote-Moves :
    (c : Context) (msg : Msg) (hs : Cogsworth)
    → IsTimeoutVote c.crypto msg.view (quorum_signature_from_proto msg.view_sig)
    → Ends (Moves c.crypto 0 hs) (count_timeout_vote c msg hs)
unfolding count_timeout_vote
count_timeout_vote-Moves c msg hs good =
    let votes = timeout_votes_with msg hs in
    let hs1 = add_timeout_vote msg hs in
    let kept = add_timeout_vote-Moves c msg hs good in
    Ends-if (Moves c.crypto 0 hs) (ltb (length votes) c.node_manager.quorum_size) _ _ kept (
      Ends->>= (λ q. Unit) (Moves c.crypto 0 hs)
        (attempt (create_timeout_quorum_cert c.crypto (timeout_vote_of msg) votes)) _
        (Ends-attempt _ (
          Settles-Ends _ (create_timeout_quorum_cert-Settles c.crypto (timeout_vote_of msg) votes)))
        λ made _.
          Ends->>= (Moves c.crypto 0 hs) (Moves c.crypto 0 hs)
            (process_new_view c msg (or_zero_qc made) hs1) _
            (then-Moves c.crypto 0 0 hs hs1 _ kept
              (process_new_view-Moves c msg (or_zero_qc made) hs1))
            λ s m. record {
              advance = m.advance;
              verified = λ v. record {
                wishes = (m.verified v).wishes;
                votes =
                    EachValue-erase (IsTimeoutVote c.crypto) msg.view s.verified_timeout_votes
                      (m.verified v).votes;
              };
            })

pub timer-Moves : (c : Context) (hs : Cogsworth) → Moves c.crypto 0 hs (set_base start_timer hs)
timer-Moves c hs =
    let adv = Advance-refl 0 hs.base in
    base-Moves c.crypto 0 hs (start_timer hs.base) (record {
      queue = adv.queue;
      mutex = adv.mutex;
      channel = adv.channel;
      kept = adv.kept;
      view = adv.view;
    })

pub on_receive_timeout_vote-Moves :
    (c : Context) (msg : Msg) (hs : Cogsworth)
    → Ends (Moves c.crypto 0 hs) (on_receive_timeout_vote c msg hs)
unfolding on_receive_timeout_vote
on_receive_timeout_vote-Moves c msg hs =
    let sig = quorum_signature_from_proto msg.view_sig in
    let hs1 = set_base start_timer hs in
    Ends-if (Moves c.crypto 0 hs) (not (type_beq msg.type MessageType.timeout_vote)) _ _
      (Moves-refl c.crypto 0 hs)
      (Ends-if (Moves c.crypto 0 hs) (flag msg.view hs.timeout_vote_finished) _ _
        (Moves-refl c.crypto 0 hs)
        (then-Moves c.crypto 0 0 hs hs1 _ (timer-Moves c hs) (
          Ends->>=_eq (Moves c.crypto 0 hs1)
            (verify_timeout_vote_cert c.crypto (timeout_vote_of msg) sig) _
            (Settles-Ends _ (verify_timeout_vote_cert-Settles c.crypto (timeout_vote_of msg) sig))
            λ valid e.
              Ends-if_eq (Moves c.crypto 0 hs1) (not valid) _ _ (λ _. Moves-refl c.crypto 0 hs1)
                (λ good.
                  count_timeout_vote-Moves c msg hs1
                    (timeout_cert_from_proto msg.tc, ground arith)))))
