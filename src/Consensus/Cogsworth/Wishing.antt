-- ===== src/Consensus/Cogsworth/Wishing.antt =====
-- consensus/basic_with_cogsworth.go and consensus/pacemaker.go: the wishes for a view, and the timeouts
-- that a quorum of them makes.
use basic_hotstuff.Prelude.{
  suc, List, [], ◌∷◌, ◌++◌, none, some, true, not, insert, erase, flag, lookup_list, nat_eq, Result,
  ok, ◌>>=◌, attempt, ltb, length, if◌then◌else◌,
}
use basic_hotstuff.Types.{View, QuorumSignature, TimeoutCert, view_to_bytes}
use basic_hotstuff.Crypto.{
  sign, verify, create_timeout_cert, verify_timeout_cert, create_timeout_vote_cert,
}
use basic_hotstuff.Proto.{Msg, MessageType, type_beq}
use basic_hotstuff.Convert.{
  quorum_signature_to_proto, quorum_signature_from_proto, timeout_cert_to_proto,
  timeout_cert_from_proto,
}
use basic_hotstuff.Timer.{stop, reset}
use basic_hotstuff.Consensus.State.{
  Context, Rpc, lock, unlock, is_leader, send_to_leader, send_to_all,
}
use basic_hotstuff.Consensus.Phases.{start_timer}
use basic_hotstuff.Consensus.Basic.{skip_view}
use basic_hotstuff.Consensus.Cogsworth.{
  Cogsworth, on_base, set_base, or_nil, view_msg, timeout_vote_msg, timeout_vote_of,
  on_receive_timeout_vote,
}

-- A certificate of a quorum of wishes is multicast, and voted for at once.
unfoldable pub wished : Context → View → TimeoutCert → Cogsworth → Result Cogsworth
unfolding on_receive_timeout_vote
wished c view cert hs = do
  let tc = some (timeout_cert_to_proto cert)
  hs1 ← on_base (send_to_all c Rpc.timeout (view_msg c MessageType.timeout view none tc)) hs
  let hs2 = record hs1 {
    wish_next_view = erase view hs1.wish_next_view;
    wish_finished = insert view true hs1.wish_finished;
  }
  made ←
      attempt
        (create_timeout_vote_cert c.crypto hs2.base.entropy (record { view = view; tc = cert }))
  let hs3 = set_base (λ b. record b { entropy = suc b.entropy }) hs2
  on_receive_timeout_vote c (timeout_vote_msg c view (or_nil made) tc hs3.base) hs3

abbrev pub wishes_with : Msg → Cogsworth → List QuorumSignature
wishes_with msg hs =
    lookup_list msg.view hs.wish_next_view ++ quorum_signature_from_proto msg.view_sig ∷ []

-- The wish is stored.
abbrev pub add_wish : Msg → Cogsworth → Cogsworth
add_wish msg hs = record hs {
  wish_next_view = insert msg.view (wishes_with msg hs) hs.wish_next_view;
}

-- `OnReceiveWishNextView` from the stored wish on.
unfoldable pub count_wish : Context → Msg → Cogsworth → Result Cogsworth
unfolding wished
count_wish c msg hs =
    let wishes = wishes_with msg hs in
    let hs1 = add_wish msg hs in
    if ltb (length wishes) c.node_manager.timeout_quorum_size then ok hs1 else (do
      made ← attempt (create_timeout_cert c.crypto msg.view wishes)
      elim made [ none ↦ ok hs1 | some cert ↦ wished c msg.view cert hs1 ])

unfoldable pub on_receive_wish_next_view : Context → Msg → Cogsworth → Result Cogsworth
unfolding count_wish
on_receive_wish_next_view c msg hs = if flag msg.view hs.wish_finished then ok hs else (do
  let hs1 = set_base start_timer hs
  valid ← verify c.crypto (quorum_signature_from_proto msg.view_sig) (view_to_bytes msg.view)
  if not valid then ok hs1 else count_wish c msg hs1)

unfoldable pub on_receive_timeout : Context → Msg → Cogsworth → Result Cogsworth
on_receive_timeout c msg hs = if not (type_beq msg.type MessageType.timeout) then ok hs else (do
  let tc = timeout_cert_from_proto msg.tc
  valid ← verify_timeout_cert c.crypto tc
  if not valid then ok hs else (do
    made ← attempt (create_timeout_vote_cert c.crypto hs.base.entropy (timeout_vote_of msg))
    let hs1 = set_base (λ b. record b { entropy = suc b.entropy }) hs
    on_base
        (send_to_leader c Rpc.timeout_vote
          (timeout_vote_msg c msg.view (or_nil made) msg.tc hs1.base))
        hs1))

-- `SendWishNextView`.
unfoldable pub send_wish_next_view : Context → Cogsworth → Result Cogsworth
unfolding on_receive_wish_next_view
send_wish_next_view c hs = do
  let view = hs.base.current_view
  made ← attempt (sign c.crypto hs.base.entropy (view_to_bytes view))
  let hs1 = set_base (λ b. record b { entropy = suc b.entropy }) hs
  let msg =
      view_msg c MessageType.wish_next_view view (some (quorum_signature_to_proto (or_nil made)))
        none
  if is_leader c hs1.base
      then on_receive_wish_next_view c msg hs1
      else on_base (send_to_leader c Rpc.wish_next_view msg) hs1

-- `CogsWorthPacemaker.WishToAdvance`.
unfoldable pub wish_to_advance : Context → Cogsworth → Result Cogsworth
unfolding send_wish_next_view
wish_to_advance c hs = do
  hs1 ← on_base lock (set_base (λ b. record b { timer = stop (reset b.timer) }) hs)
  hs2 ← send_wish_next_view c (set_base skip_view hs1)
  ok (set_base (λ b. start_timer (unlock b)) hs2)
