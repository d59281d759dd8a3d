-- ===== src/Consensus/Cogsworth/Panics.antt =====
-- Messages of a view change at which a replica panics.
use basic_hotstuff.Prelude.{
  All-snoc, ℕ, suc, ◌≤◌, ◌≡◌, refl, List, [], ◌∷◌, some, none, true, false, ok, err, panic, arith,
  length, nat_eq, All, lookup_list, ltb, attempt, deref, ◌>>=◌, Result, Ends, Ends->>=, Ends-if,
  Ends-deref, Ends-ok, >>=-eq-ok, ap, sym, ◌∙◌, hang, out_of_fuel, erase, insert,
}
use basic_hotstuff.Types.{View, QuorumSignature, QuorumCert, TimeoutVote, zero_qc, zero_hash}
use basic_hotstuff.Block.{Block}
use basic_hotstuff.Crypto.{
  Crypto, create_timeout_quorum_cert, verify_timeout_quorum_cert, verify_timeout_vote_cert,
  tv_to_bytes, verify,
}
use basic_hotstuff.Crypto.Combining.{occurs_in}
use basic_hotstuff.Crypto.Timeouts.{Present, combine-repeated}
use basic_hotstuff.Proto.{Msg}
use basic_hotstuff.Convert.{
  quorum_signature_from_proto, quorum_cert_from_proto, quorum_signature_to_proto,
  quorum_cert_to_proto,
}
use basic_hotstuff.NodeManager.{get_nodes, ReplicaConfig}
use basic_hotstuff.BlockChain.{get}
use basic_hotstuff.Consensus.State.{
  Context, HotStuff, Rpc, send_to_all, is_leader, multicast, get_leader_id,
}
use basic_hotstuff.Consensus.Frame.{send_to_all-sent}
use basic_hotstuff.Consensus.Basic.{max_qc}
use basic_hotstuff.Consensus.Cogsworth.{
  Cogsworth, announce, enter_new_view, process_new_view, new_view_msg, timeout_vote_of,
  timeout_votes_with, add_timeout_vote, count_timeout_vote, on_receive_new_view,
}
use basic_hotstuff.Consensus.Cogsworth.Moves.{or_state, Verified, IsTimeoutVote}

-- A NewView message whose certificate has no signature makes every replica panic.
unsigned-panic :
    (c : Context) (msg : Msg) (hs : Cogsworth)
    → (quorum_cert_from_proto msg.qc).signature ≡ none
    → on_receive_new_view c msg hs ≡ panic
unfolding on_receive_new_view verify_timeout_quorum_cert
unsigned-panic c msg hs e = rw e refl

zero_qc-wire : (quorum_cert_from_proto (some (quorum_cert_to_proto zero_qc))).signature ≡ none
unfolding quorum_cert_from_proto quorum_cert_to_proto quorum_signature_from_proto
    quorum_signature_to_proto
zero_qc-wire = refl

verify-some :
    (c : Crypto) (tv : TimeoutVote) (sig : QuorumSignature)
    → verify_timeout_vote_cert c tv sig ≡ ok true
    → (m : _) × (sig ≡ some m)
unfolding verify_timeout_vote_cert verify
verify-some c tv none h = absurd (go (tv_to_bytes c.prims tv) h)
  where
    go : (r : Result _) → (r >>= λ bytes. verify c none bytes) ≡ ok true → ⊥
    go (ok b) e = cc
    go (err x) e = cc
    go panic e = cc
    go hang e = cc
    go out_of_fuel e = cc
verify-some c tv (some m) h = (m, refl)

votes-Present :
    (c : Crypto) (v : View) (sigs : List QuorumSignature)
    → All (IsTimeoutVote c v) sigs
    → Present sigs
votes-Present c v [] all = tt
votes-Present c v (sig ∷ sigs) all =
    (verify-some c (record { view = v; tc = all.0.0 }) sig all.0.1, votes-Present c v sigs all.1)

repeated-attempt :
    (c : Crypto) (tv : TimeoutVote) (sigs : List QuorumSignature) (id : ℕ)
    → Present sigs
    → 2 ≤ length sigs
    → 2 ≤ occurs_in id sigs
    → attempt (create_timeout_quorum_cert c tv sigs) ≡ ok none
unfolding create_timeout_quorum_cert
repeated-attempt c tv sigs id all two twice = rw (combine-repeated sigs id all two twice) refl

-- A leader that keeps verified timeout votes only, and that the vote of a message makes a quorum of
-- two or more in which one id has voted twice, drops the error of `Combine` and multicasts a NewView
-- message without a signature, if its HighQC's block is stored and its nodes can be found. Every
-- replica that gets the message panics, whatever its state.
pub repeated_timeout_vote :
    (c : Context) (msg : Msg) (hs : Cogsworth) (id : ℕ) (b : Block) (nodes : List ReplicaConfig)
    → Verified c.crypto hs
    → IsTimeoutVote c.crypto msg.view (quorum_signature_from_proto msg.view_sig)
    → 2 ≤ length (timeout_votes_with msg hs)
    → c.node_manager.quorum_size ≤ length (timeout_votes_with msg hs)
    → 2 ≤ occurs_in id (timeout_votes_with msg hs)
    → is_leader c hs.base ≡ true
    → get hs.base.high_qc.hash hs.base.block_chain ≡ some b
    → get_nodes c.node_manager ≡ ok nodes
    → (s : Cogsworth) × (count_timeout_vote c msg hs ≡ ok s)
      × (s.base.sent ≡ multicast Rpc.new_view (new_view_msg c msg zero_qc b) ∷ hs.base.sent)
      × ((c' : Context) (hs' : Cogsworth)
          → on_receive_new_view c' (new_view_msg c msg zero_qc b) hs' ≡ panic)
unfolding count_timeout_vote process_new_view send_to_all get_leader_id
repeated_timeout_vote c msg hs id b nodes kept vote two quorum twice leader stored found =
    let votes = timeout_votes_with msg hs in
    let all : All (IsTimeoutVote c.crypto msg.view) votes =
      All-snoc (IsTimeoutVote c.crypto msg.view) (lookup_list msg.view hs.verified_timeout_votes)
        (quorum_signature_from_proto msg.view_sig) (kept.votes msg.view) vote in
    let enough : ltb (length votes) c.node_manager.quorum_size ≡ false = ground arith in
    let dropped =
      repeated-attempt c.crypto (timeout_vote_of msg) votes id
        (votes-Present c.crypto msg.view votes all) two twice in
    let hs1 = add_timeout_vote msg hs in
    let b1 = record hs1.base {
      sent = multicast Rpc.new_view (new_view_msg c msg zero_qc b) ∷ hs.base.sent;
      ready = suc hs.base.ready;
    } in
    let s = record hs1 {
      base = enter_new_view b1;
      timeout_vote_finished = insert hs.base.current_view true hs.timeout_vote_finished;
      verified_timeout_votes = erase msg.view hs1.verified_timeout_votes;
    } in
    (
      s,
      rw (enough, dropped, leader, stored, found) refl,
      refl,
      λ c' hs'. unsigned-panic c' (new_view_msg c msg zero_qc b) hs' zero_qc-wire,
    )

max_qc-zero : (qcs : List QuorumCert) → All (λ qc. qc ≡ zero_qc) qcs → max_qc zero_qc qcs ≡ zero_qc
unfolding max_qc
max_qc-zero [] all = refl
max_qc-zero (qc ∷ qcs) all = rw (all.0, max_qc-zero qcs all.1) refl

abbrev SameCerts : HotStuff → HotStuff → Type 0
SameCerts hs b = (b.prepare_qc ≡ hs.prepare_qc) × (b.high_qc_tmp ≡ hs.high_qc_tmp)

announce-SameCerts :
    (c : Context) (msg : Msg) (qc : QuorumCert) (hs : HotStuff)
    → Ends (SameCerts hs) (announce c msg qc hs)
announce-SameCerts c msg qc hs =
    Ends-if (SameCerts hs) (is_leader c hs) _ _
      (Ends->>= (λ b. Unit) (SameCerts hs) (deref (get hs.high_qc.hash hs.block_chain)) _
        (Ends-deref (get hs.high_qc.hash hs.block_chain))
        λ b _.
          Ends->>=
            (λ s.
              s ≡ record hs { sent = multicast Rpc.new_view (new_view_msg c msg qc b) ∷ hs.sent })
            (SameCerts hs) (send_to_all c Rpc.new_view (new_view_msg c msg qc b) hs) _
            (send_to_all-sent c Rpc.new_view (new_view_msg c msg qc b) hs)
            λ s e. (ap (λ u. u.prepare_qc) e, ap (λ u. u.high_qc_tmp) e))
      (refl, refl)

-- After a view change of a replica that has no PrepareQC and is told of none, its HighQC is the zero
-- certificate. As the leader of a later view, while it has that HighQC and no block with the zero
-- hash, it panics at the next view change.
pub second_view_change :
    (c : Context) (msg next : Msg) (qc next_qc : QuorumCert) (hs s t : Cogsworth)
    → hs.base.prepare_qc ≡ zero_qc
    → ((v : View) → All (λ q. q ≡ zero_qc) (lookup_list v hs.base.high_qc_tmp))
    → process_new_view c msg qc hs ≡ ok s
    → t.base.high_qc ≡ s.base.high_qc
    → is_leader c t.base ≡ true
    → get zero_hash t.base.block_chain ≡ none
    → (s.base.high_qc ≡ zero_qc) × (process_new_view c next next_qc t ≡ panic)
unfolding process_new_view get_leader_id
second_view_change c msg next qc next_qc hs s t no_prepare told h same leader missing =
    let (b, eb, es) = >>=-eq-ok (announce c msg qc hs.base) _ h in
    let (prepare, tmp) =
      Ends-ok (SameCerts hs.base) (announce c msg qc hs.base) b
        (announce-SameCerts c msg qc hs.base) eb in
    let from : s.base.high_qc ≡ (enter_new_view b).high_qc =
      ap (λ r. (or_state s r).base.high_qc) (sym es) in
    let zero : (enter_new_view b).high_qc ≡ zero_qc =
      rw
        (
          prepare,
          tmp,
          no_prepare,
          max_qc-zero (lookup_list b.current_view hs.base.high_qc_tmp) (told b.current_view),
        )
        refl in
    let high : s.base.high_qc ≡ zero_qc = from ∙ zero in
    let hash : t.base.high_qc.hash ≡ zero_hash = ap (λ q. q.hash) (same ∙ high) in
    (high, rw (leader, hash, missing) refl)
