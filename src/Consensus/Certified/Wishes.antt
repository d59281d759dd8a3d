-- ===== src/Consensus/Certified/Wishes.antt =====
-- The view change by wishes and timeout votes keeps certificates and votes certified.
use basic_hotstuff.Prelude.{
  none, some, true, not, length, nat_eq, suc, EachValue-nil, insert, erase, bytes_eq, Result, deref,
  attempt, ltb, flag, Yields, Yields-ok, Yields-if, Yields-bind, Yields->>=, Yields-option,
}
use basic_hotstuff.Types.{QuorumCert}
use basic_hotstuff.Proto.{Msg, MessageType}
use basic_hotstuff.Convert.{quorum_cert_from_proto}
use basic_hotstuff.Consensus.State.{
  Context, HotStuff, Rpc, lock, unlock, send_to_all, send_to_leader, is_leader,
}
use basic_hotstuff.Consensus.Phases.{start_timer}
use basic_hotstuff.Consensus.Certified.{Certified}
use basic_hotstuff.Consensus.Certified.Helpers.{
  Kept, holds, lock-Certified, send_to_all-Certified, send_to_leader-Certified,
}
use basic_hotstuff.Types.{View}
use basic_hotstuff.Timer.{stop, reset}
use basic_hotstuff.Consensus.Basic.{skip_view}
use basic_hotstuff.Types.{View, TimeoutCert, view_to_bytes}
use basic_hotstuff.Crypto.{
  sign, verify, create_timeout_cert, verify_timeout_cert, create_timeout_vote_cert,
  verify_timeout_vote_cert, create_timeout_quorum_cert, verify_timeout_quorum_cert,
}
use basic_hotstuff.Proto.{type_beq}
use basic_hotstuff.Convert.{
  quorum_signature_to_proto, timeout_cert_to_proto, quorum_signature_from_proto,
  timeout_cert_from_proto,
}
use basic_hotstuff.BlockChain.{get}
use basic_hotstuff.Consensus.Cogsworth.{
  Cogsworth, on_base, set_base, announce, enter_new_view, process_new_view, add_timeout_vote,
  timeout_votes_with, timeout_vote_of, count_timeout_vote, on_receive_timeout_vote,
  on_receive_new_view, new_view_msg, or_zero_qc, or_nil, timeout_vote_msg, view_msg,
}
use basic_hotstuff.Consensus.Cogsworth.Wishing.{
  wished, add_wish, wishes_with, count_wish, on_receive_wish_next_view, on_receive_timeout,
  send_wish_next_view, wish_to_advance,
}

abbrev pub Base : Context → Cogsworth → Type 0
Base c hs = Certified c hs.base

abbrev pub KeptBase : Context → Cogsworth → Result Cogsworth → Type 0
KeptBase c hs r = Base c hs → Yields (Base c) r

module _ (c : Context) where
  pub on_base-Certified :
      (f : HotStuff → Result HotStuff) (hs : Cogsworth)
      → Kept c hs.base (f hs.base)
      → KeptBase c hs (on_base f hs)
  on_base-Certified f hs k h = Yields->>= (f hs.base) _ (k h) λ b kept. Yields-ok _ kept

  enter_new_view-Certified : (hs : HotStuff) → Certified c hs → Certified c (enter_new_view hs)
  enter_new_view-Certified hs h =
      holds c h.prepare h.pre_commit h.commit (EachValue-nil _) (EachValue-nil _) (EachValue-nil _)

  announce-Certified :
      (msg : Msg) (qc : QuorumCert) (hs : HotStuff) → Kept c hs (announce c msg qc hs)
  announce-Certified msg qc hs h =
      Yields-if (is_leader c hs) _ _
        (λ leads. Yields-bind (deref (get hs.high_qc.hash hs.block_chain)) _ λ b e.
          Yields->>= (send_to_all c Rpc.new_view (new_view_msg c msg qc b) hs) _
            (send_to_all-Certified c _ _ hs h) λ s kept. Yields-ok _ kept)
        (λ follows. Yields-ok hs h)

  process_new_view-Certified :
      (msg : Msg) (qc : QuorumCert) (hs : Cogsworth) → KeptBase c hs (process_new_view c msg qc hs)
  unfolding process_new_view
  process_new_view-Certified msg qc hs h =
      Yields->>= (announce c msg qc hs.base) _ (announce-Certified msg qc hs.base h)
        λ b kept. Yields-ok _ (enter_new_view-Certified b kept)

  count_timeout_vote-Certified :
      (msg : Msg) (hs : Cogsworth) → KeptBase c hs (count_timeout_vote c msg hs)
  unfolding count_timeout_vote
  count_timeout_vote-Certified msg hs h =
      let votes = timeout_votes_with msg hs in
      let hs1 = add_timeout_vote msg hs in
      Yields-if (ltb (length votes) c.node_manager.quorum_size) _ _ (λ few. Yields-ok hs1 h)
        λ enough.
          Yields-bind (attempt (create_timeout_quorum_cert c.crypto (timeout_vote_of msg) votes)) _
            λ made e.
              Yields->>= (process_new_view c msg (or_zero_qc made) hs1) _
                (process_new_view-Certified msg (or_zero_qc made) hs1 h) λ s kept. Yields-ok _ kept

  pub on_receive_timeout_vote-Certified :
      (msg : Msg) (hs : Cogsworth) → KeptBase c hs (on_receive_timeout_vote c msg hs)
  unfolding on_receive_timeout_vote
  on_receive_timeout_vote-Certified msg hs h =
      let hs1 = set_base start_timer hs in
      Yields-if (not (type_beq msg.type MessageType.timeout_vote)) _ _ (λ no. Yields-ok hs h)
        λ yes.
          Yields-if (flag msg.view hs.timeout_vote_finished) _ _ (λ done. Yields-ok hs h)
            λ open_yet.
              Yields-bind
                (verify_timeout_vote_cert c.crypto (timeout_vote_of msg)
                  (quorum_signature_from_proto msg.view_sig))
                _
                λ valid e.
                  Yields-if (not valid) _ _ (λ no. Yields-ok hs1 h)
                    (λ good. count_timeout_vote-Certified msg hs1 h)

  pub on_receive_new_view-Certified :
      (msg : Msg) (hs : Cogsworth) → KeptBase c hs (on_receive_new_view c msg hs)
  unfolding on_receive_new_view
  on_receive_new_view-Certified msg hs h =
      Yields-bind
        (verify_timeout_quorum_cert c.crypto (timeout_vote_of msg) (quorum_cert_from_proto msg.qc))
        _
        λ valid e.
          Yields-if (not valid) _ _ (λ no. Yields-ok hs h)
            (λ good. process_new_view-Certified msg (quorum_cert_from_proto msg.qc) hs h)

  wished-Certified :
      (v : View) (cert : TimeoutCert) (hs : Cogsworth) → KeptBase c hs (wished c v cert hs)
  unfolding wished
  wished-Certified v cert hs h =
      Yields->>= (on_base (send_to_all c Rpc.timeout _) hs) _
        (on_base-Certified (send_to_all c Rpc.timeout _) hs (send_to_all-Certified c _ _ hs.base) h)
        λ s kept.
          Yields-bind
            (attempt
              (create_timeout_vote_cert c.crypto s.base.entropy (record { view = v; tc = cert })))
            _
            λ made e.
              let tc = some (timeout_cert_to_proto cert) in
              let t = record s {
                base = record s.base { entropy = suc s.base.entropy };
                wish_next_view = erase v s.wish_next_view;
                wish_finished = insert v true s.wish_finished;
              } in
              on_receive_timeout_vote-Certified (timeout_vote_msg c v (or_nil made) tc t.base) t
                kept

  count_wish-Certified : (msg : Msg) (hs : Cogsworth) → KeptBase c hs (count_wish c msg hs)
  unfolding count_wish
  count_wish-Certified msg hs h =
      let wishes = wishes_with msg hs in
      let hs1 = add_wish msg hs in
      Yields-if (ltb (length wishes) c.node_manager.timeout_quorum_size) _ _
        (λ few. Yields-ok hs1 h)
        λ enough. Yields-bind (attempt (create_timeout_cert c.crypto msg.view wishes)) _ λ made e.
          Yields-option made _ _ (Yields-ok hs1 h) λ cert e'. wished-Certified msg.view cert hs1 h

  pub on_receive_wish_next_view-Certified :
      (msg : Msg) (hs : Cogsworth) → KeptBase c hs (on_receive_wish_next_view c msg hs)
  unfolding on_receive_wish_next_view
  on_receive_wish_next_view-Certified msg hs h =
      let hs1 = set_base start_timer hs in
      Yields-if (flag msg.view hs.wish_finished) _ _ (λ done. Yields-ok hs h)
        λ open_yet.
          Yields-bind
            (verify c.crypto (quorum_signature_from_proto msg.view_sig) (view_to_bytes msg.view)) _
            λ valid e.
              Yields-if (not valid) _ _ (λ no. Yields-ok hs1 h)
                (λ good. count_wish-Certified msg hs1 h)

  pub on_receive_timeout-Certified :
      (msg : Msg) (hs : Cogsworth) → KeptBase c hs (on_receive_timeout c msg hs)
  unfolding on_receive_timeout
  on_receive_timeout-Certified msg hs h =
      Yields-if (not (type_beq msg.type MessageType.timeout)) _ _ (λ no. Yields-ok hs h)
        λ yes.
          Yields-bind (verify_timeout_cert c.crypto (timeout_cert_from_proto msg.tc)) _ λ valid e.
            Yields-if (not valid) _ _ (λ no. Yields-ok hs h)
              λ good.
                Yields-bind
                  (attempt
                    (create_timeout_vote_cert c.crypto hs.base.entropy (timeout_vote_of msg)))
                  _
                  λ made e'.
                    Yields->>= (send_to_leader c Rpc.timeout_vote _ _) _
                      (send_to_leader-Certified c _ _ _ h) λ b kept. Yields-ok _ kept

  send_wish_next_view-Certified : (hs : Cogsworth) → KeptBase c hs (send_wish_next_view c hs)
  unfolding send_wish_next_view
  send_wish_next_view-Certified hs h =
      Yields-bind (attempt (sign c.crypto hs.base.entropy (view_to_bytes hs.base.current_view))) _
        λ made e.
          let t = record hs { base = record hs.base { entropy = suc hs.base.entropy } } in
          let msg =
            view_msg c MessageType.wish_next_view hs.base.current_view
              (some (quorum_signature_to_proto (or_nil made))) none in
          Yields-if (is_leader c t.base) _ _ (λ leads. on_receive_wish_next_view-Certified msg t h)
            (λ follows.
              on_base-Certified (send_to_leader c Rpc.wish_next_view msg) t
                (send_to_leader-Certified c Rpc.wish_next_view msg t.base) h)

  pub wish_to_advance-Certified : (hs : Cogsworth) → KeptBase c hs (wish_to_advance c hs)
  unfolding wish_to_advance unlock
  wish_to_advance-Certified hs h =
      let stopped = set_base (λ b. record b { timer = stop (reset b.timer) }) hs in
      Yields->>= (on_base lock stopped) _
        (on_base-Certified lock stopped (lock-Certified c stopped.base) h)
        λ s held.
          Yields->>= (send_wish_next_view c (set_base skip_view s)) _
            (send_wish_next_view-Certified (set_base skip_view s) held) λ t kept. Yields-ok _ kept
