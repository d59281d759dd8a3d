-- ===== src/Consensus/Cogsworth/MixedVotes.antt =====
-- Timeout votes that name different certificates, counted together.
use basic_hotstuff.Prelude.{
  ℕ, ◌≤◌, ◌<◌, ◌≡◌, refl, sym, ◌∙◌, List, [], ◌∷◌, some, true, ok, Bytes, >>=-eq-ok, arith, length,
  All, flag, Yields, Yields-ok, Yields-bind, Yields-if, ◌≢◌, not, Bool-cases, inl, inr, ltb, nat_eq,
}
use basic_hotstuff.Types.{Multi, QuorumSignature, QuorumCert, TimeoutVote, multi_len}
use basic_hotstuff.Block.{Block}
use basic_hotstuff.Crypto.{
  Crypto, combine, verify, tc_hash, tv_to_bytes, create_timeout_quorum_cert,
  verify_timeout_quorum_cert, verify_timeout_vote_cert,
}
use basic_hotstuff.Crypto.Combining.{combine-inv}
use basic_hotstuff.Crypto.Forging.{EachOf, Each-combine_into_inv}
use basic_hotstuff.Crypto.Verifying.{IsSigned, AllSigned-verify, verify-AllSigned}
use basic_hotstuff.Proto.{Msg}
use basic_hotstuff.Convert.{
  quorum_signature_from_proto, quorum_signature_to_proto, quorum_cert_from_proto,
  quorum_cert_to_proto,
}
use basic_hotstuff.Convert.RoundTrip.{IsKeyedSignature, quorum_signature_round_trip}
use basic_hotstuff.Convert.Keyed.{combine-IsKeyedSignature}
use basic_hotstuff.NodeManager.{get_nodes, ReplicaConfig, NodeManager}
use basic_hotstuff.BlockChain.{get}
use basic_hotstuff.Consensus.State.{Context, Rpc, is_leader, multicast}
use basic_hotstuff.Consensus.Cogsworth.{
  Cogsworth, new_view_msg, timeout_vote_of, timeout_votes_with, count_timeout_vote,
  on_receive_new_view,
}
use basic_hotstuff.Consensus.Cogsworth.NewViews.{
  peer, quorum-announced, verify_timeout_quorum_cert-peer,
}

-- A vote that is there and has a signature.
abbrev pub IsThere : QuorumSignature → Type 0
IsThere sig = (m : Multi) × (sig ≡ some m) × (0 < length m)

abbrev pub VotesForTimeout : Crypto → TimeoutVote → List QuorumSignature → Type 0
VotesForTimeout c tv sigs = All (λ sig. verify_timeout_vote_cert c tv sig ≡ ok true) sigs

covered-Votes :
    (c : Crypto) (tv : TimeoutVote) (bytes : Bytes) (sigs : List QuorumSignature)
    → tv_to_bytes c.prims tv ≡ ok bytes
    → All IsThere sigs
    → All (EachOf (IsSigned c (c.prims.sha256 bytes))) sigs
    → VotesForTimeout c tv sigs
unfolding verify_timeout_vote_cert
covered-Votes c tv bytes [] e there all = tt
covered-Votes c tv bytes (sig ∷ sigs) e there all =
    let (m, em, pos) = there.0 in
    let signed : EachOf (IsSigned c (c.prims.sha256 bytes)) (some m) = rw em at all.0 in
    let valid : verify c sig bytes ≡ ok true = rw em (AllSigned-verify c m bytes pos signed) in
    (rw (e, valid) refl, covered-Votes c tv bytes sigs e there.1 all.1)

-- A certificate that is made of votes verifies, as it is or off the wire, only if they all do.
made-VotesForTimeout :
    (c : Crypto) (tv : TimeoutVote) (sigs : List QuorumSignature) (qc : QuorumCert)
    → All IsThere sigs
    → All IsKeyedSignature sigs
    → create_timeout_quorum_cert c tv sigs ≡ ok qc
    → verify_timeout_quorum_cert c tv (quorum_cert_from_proto (some (quorum_cert_to_proto qc)))
      ≡ ok true
    → VotesForTimeout c tv sigs
unfolding create_timeout_quorum_cert verify_timeout_quorum_cert quorum_cert_from_proto
    quorum_cert_to_proto
made-VotesForTimeout c tv sigs qc there keyed made valid =
    let (sig, comb, rest) = >>=-eq-ok (combine sigs) _ made in
    let (hash, eh, done) = >>=-eq-ok (tc_hash c.prims tv.tc) _ rest in
    let same : qc.signature ≡ sig = ground arith in
    let (t, et, went, two) = combine-inv sigs comb in
    let single = combine-IsKeyedSignature sigs {sig = sig} comb keyed in
    let wire : quorum_signature_from_proto (some (quorum_signature_to_proto qc.signature))
        ≡ some t =
      rw same (quorum_signature_round_trip sig single ∙ et) in
    let h = rw wire at valid in
    elim (Bool-cases (ltb (multi_len t) c.quorum_size)) [
      | inl few ↦ absurd (ground arith)
      | inr enough ↦
          let (bytes, eb, v) = >>=-eq-ok (tv_to_bytes c.prims tv) _ (rw enough at h) in
          let (m, em, pos, all) = verify-AllSigned c (some t) bytes v in
          let one : m ≡ t = ground arith in
          covered-Votes c tv bytes sigs eb there
            (Each-combine_into_inv (IsSigned c (c.prims.sha256 bytes)) [] sigs {t = t} went
              (rw one at all)).1
    ]

-- A NewView message whose certificate does not verify changes nothing.
new_view-ignored :
    (c : Context) (msg : Msg) (hs : Cogsworth)
    → verify_timeout_quorum_cert c.crypto (timeout_vote_of msg) (quorum_cert_from_proto msg.qc)
      ≢ ok true
    → Yields (λ s. s ≡ hs) (on_receive_new_view c msg hs)
unfolding on_receive_new_view
new_view-ignored c msg hs invalid =
    Yields-bind
      (verify_timeout_quorum_cert c.crypto (timeout_vote_of msg) (quorum_cert_from_proto msg.qc)) _
      λ valid e.
        Yields-if (not valid) _ _ (λ no. Yields-ok hs refl) (λ yes. absurd (invalid (ground arith)))

-- A leader whose stored votes of a view, the one of a message included, are off the wire and are a
-- quorum of which a certificate can be made, but which do not all verify for the message's
-- certificate, as the votes of one view may name different ones, begins the view all the same and
-- multicasts a NewView message, if its HighQC's block is stored and its nodes can be found. A
-- replica with the same configured keys and quorum that gets the message and returns is as it was.
pub mixed_timeout_votes :
    (c : Context) (msg : Msg) (hs : Cogsworth) (qc : QuorumCert) (b : Block)
    (nodes : List ReplicaConfig) (id key : ℕ) (nm : NodeManager) (hs' s' : Cogsworth)
    → All IsThere (timeout_votes_with msg hs)
    → All IsKeyedSignature (timeout_votes_with msg hs)
    → ¬ VotesForTimeout c.crypto (timeout_vote_of msg) (timeout_votes_with msg hs)
    → create_timeout_quorum_cert c.crypto (timeout_vote_of msg) (timeout_votes_with msg hs) ≡ ok qc
    → c.node_manager.quorum_size ≤ length (timeout_votes_with msg hs)
    → is_leader c hs.base ≡ true
    → get hs.base.high_qc.hash hs.base.block_chain ≡ some b
    → get_nodes c.node_manager ≡ ok nodes
    → on_receive_new_view
        (record { node_manager = nm; crypto = peer c.crypto id key })
        (new_view_msg c msg qc b)
        hs'
      ≡ ok s'
    → (s : Cogsworth) × (count_timeout_vote c msg hs ≡ ok s)
      × (s.base.sent ≡ multicast Rpc.new_view (new_view_msg c msg qc b) ∷ hs.base.sent)
      × (flag hs.base.current_view s.base.finished_view_change ≡ true)
      × (s' ≡ hs')
mixed_timeout_votes c msg hs qc b nodes id key nm hs' s' there keyed mixed made quorum leader stored
      found got =
    let (s, run, sent, finished) =
      quorum-announced c msg hs qc b nodes made quorum leader stored found in
    let c' : Context = record { node_manager = nm; crypto = peer c.crypto id key } in
    let invalid =
      λ (valid : verify_timeout_quorum_cert c'.crypto (timeout_vote_of msg)
            (quorum_cert_from_proto (some (quorum_cert_to_proto qc)))
          ≡ ok true).
        mixed (
          made-VotesForTimeout c.crypto (timeout_vote_of msg) (timeout_votes_with msg hs) qc there
            keyed made
            (sym (
                verify_timeout_quorum_cert-peer c.crypto id key (timeout_vote_of msg)
                  (quorum_cert_from_proto (some (quorum_cert_to_proto qc))))
              ∙ valid)) in
    (s, run, sent, finished, (new_view-ignored c' (new_view_msg c msg qc b) hs' invalid).at s' got)
