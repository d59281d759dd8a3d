-- ===== src/Consensus/Cogsworth/NewViews.antt =====
-- A quorum of timeout votes, and the NewView message that the leader makes of it.
use mathlib.Core.Path.{fun_ext}
use basic_hotstuff.Prelude.{
  ℕ, suc, ◌≤◌, ◌<◌, ◌≡◌, refl, ◌∙◌, List, [], ◌∷◌, some, none, true, false, ok, Bytes, >>=-eq-ok,
  arith, attempt, length, All, flag, flag-insert, ltb, insert, erase, nat_eq,
}
use basic_hotstuff.Types.{Multi, QuorumSignature, QuorumCert, TimeoutVote, multi_len, tc_to_bytes}
use basic_hotstuff.Block.{Block}
use basic_hotstuff.Crypto.{
  Crypto, verify, verify_each, verify_single, tc_hash, tv_to_bytes, create_timeout_quorum_cert,
  verify_timeout_quorum_cert, verify_timeout_vote_cert,
}
use basic_hotstuff.Crypto.Combining.{occurs_in, combine-inv, length-combine}
use basic_hotstuff.Crypto.Signing.{Good, AllSigned-combine_into, entries-Good}
use basic_hotstuff.Crypto.Verifying.{AllSigned-verify}
use basic_hotstuff.Crypto.Timeouts.{combine-distinct, Good-Present}
use basic_hotstuff.Proto.{Msg}
use basic_hotstuff.Convert.{
  quorum_signature_from_proto, quorum_cert_from_proto, quorum_cert_to_proto,
}
use basic_hotstuff.Convert.RoundTrip.{IsKeyedSignature, quorum_signature_round_trip}
use basic_hotstuff.Convert.Keyed.{combine-IsKeyedSignature}
use basic_hotstuff.NodeManager.{get_nodes, ReplicaConfig, NodeManager}
use basic_hotstuff.BlockChain.{get}
use basic_hotstuff.Consensus.State.{Context, Rpc, send_to_all, is_leader, multicast, get_leader_id}
use basic_hotstuff.Consensus.Cogsworth.{
  Cogsworth, enter_new_view, process_new_view, new_view_msg, timeout_vote_of, timeout_votes_with,
  add_timeout_vote, count_timeout_vote, on_receive_new_view,
}

-- Votes off the wire that verify for one view and certificate.
abbrev pub AllVoteFor : Crypto → TimeoutVote → List QuorumSignature → Type 0
AllVoteFor c tv sigs =
    All (λ sig. IsKeyedSignature sig × (verify_timeout_vote_cert c tv sig ≡ ok true)) sigs

votes-Good :
    (c : Crypto) (tv : TimeoutVote) (bytes : Bytes) (sigs : List QuorumSignature)
    → tv_to_bytes c.prims tv ≡ ok bytes
    → AllVoteFor c tv sigs
    → All (Good c bytes) sigs × All IsKeyedSignature sigs
unfolding verify_timeout_vote_cert
votes-Good c tv bytes [] e all = (tt, tt)
votes-Good c tv bytes (sig ∷ sigs) e all =
    let (good, keyed) = votes-Good c tv bytes sigs e all.1 in
    let v : verify c sig bytes ≡ ok true = ground arith in ((v, good), (all.0.0, keyed))

-- What a vote that verifies shows of the certificate that it is for.
vote-bytes :
    (c : Crypto) (tv : TimeoutVote) (sig : QuorumSignature)
    → verify_timeout_vote_cert c tv sig ≡ ok true
    → (bytes : Bytes) × (hash : Bytes) × (tv_to_bytes c.prims tv ≡ ok bytes)
      × (tc_hash c.prims tv.tc ≡ ok hash)
unfolding verify_timeout_vote_cert tv_to_bytes tc_hash
vote-bytes c tv sig h =
    let (bytes, eb, v) = >>=-eq-ok (tv_to_bytes c.prims tv) (λ bytes. verify c sig bytes) h in
    let (tc, et, rest) = >>=-eq-ok (tc_to_bytes tv.tc) _ eb in
    (bytes, c.prims.sha256 tc, eb, rw et refl)

-- A certificate of a quorum of such votes can be made, and verifies after a trip over the wire.
pub timeout_quorum_cert-verify :
    (c : Crypto) (tv : TimeoutVote) (sig : QuorumSignature) (sigs : List QuorumSignature)
    → verify_timeout_vote_cert c tv sig ≡ ok true
    → AllVoteFor c tv sigs
    → c.quorum_size ≤ length sigs
    → 2 ≤ length sigs
    → ((i : ℕ) → occurs_in i sigs ≤ 1)
    → (qc : QuorumCert) × (create_timeout_quorum_cert c tv sigs ≡ ok qc)
      × (verify_timeout_quorum_cert c tv (quorum_cert_from_proto (some (quorum_cert_to_proto qc)))
          ≡ ok true)
unfolding create_timeout_quorum_cert verify_timeout_quorum_cert quorum_cert_from_proto
    quorum_cert_to_proto multi_len
timeout_quorum_cert-verify c tv sig sigs valid votes quorum two once =
    let (bytes, hash, eb, eh) = vote-bytes c tv sig valid in
    let (good, keyed) = votes-Good c tv bytes sigs eb votes in
    let (t, et) = combine-distinct sigs (Good-Present c bytes sigs good) two once in
    let (u, eu, went, _) = combine-inv sigs et in
    let same : u ≡ t = ground arith in
    let all = AllSigned-combine_into c bytes sigs {t = u} went good in
    let n = length-combine sigs t et in
    let many = entries-Good c bytes sigs good in
    let big : 0 < length t = omega arith in
    let ok_v = AllSigned-verify c t bytes big (rw same at all) in
    let wire =
      quorum_signature_round_trip (some t)
        (combine-IsKeyedSignature sigs {sig = some t} et keyed) in
    let enough : ltb (length t) c.quorum_size ≡ false = ground arith in
    (
      record { signature = some t; view = tv.view; hash = hash },
      rw (et, eh) refl,
      rw (wire, enough, eb, ok_v) refl,
    )

-- Another replica with the same configured keys.
abbrev pub peer : Crypto → ℕ → ℕ → Crypto
peer c id key = record c { conf_id = id; private_key = key }

verify_each-peer :
    (c : Crypto) (id key : ℕ) (m : Multi) (digest : Bytes)
    → verify_each (peer c id key) m digest ≡ verify_each c m digest
unfolding verify_each verify_single
verify_each-peer c id key [] digest = refl
verify_each-peer c id key ((k, s) ∷ m) digest = rw (verify_each-peer c id key m digest) refl

pub verify-peer :
    (c : Crypto) (id key : ℕ) (sig : QuorumSignature) (message : Bytes)
    → verify (peer c id key) sig message ≡ verify c sig message
unfolding verify
verify-peer c id key none message = refl
verify-peer c id key (some m) message =
    rw (verify_each-peer c id key m (c.prims.sha256 message)) refl

pub verify_timeout_quorum_cert-peer :
    (c : Crypto) (id key : ℕ) (tv : TimeoutVote) (qc : QuorumCert)
    → verify_timeout_quorum_cert (peer c id key) tv qc ≡ verify_timeout_quorum_cert c tv qc
unfolding verify_timeout_quorum_cert
verify_timeout_quorum_cert-peer c id key tv qc =
    rw (fun_ext (λ bytes. verify-peer c id key qc.signature bytes)) refl

new_view-accepted :
    (c : Context) (msg : Msg) (hs : Cogsworth)
    → verify_timeout_quorum_cert c.crypto (timeout_vote_of msg) (quorum_cert_from_proto msg.qc)
      ≡ ok true
    → on_receive_new_view c msg hs ≡ process_new_view c msg (quorum_cert_from_proto msg.qc) hs
unfolding on_receive_new_view
new_view-accepted c msg hs h = rw h refl

-- A leader that makes a certificate of the votes begins the view and sends it.
pub quorum-announced :
    (c : Context) (msg : Msg) (hs : Cogsworth) (qc : QuorumCert) (b : Block)
    (nodes : List ReplicaConfig)
    → create_timeout_quorum_cert c.crypto (timeout_vote_of msg) (timeout_votes_with msg hs) ≡ ok qc
    → c.node_manager.quorum_size ≤ length (timeout_votes_with msg hs)
    → is_leader c hs.base ≡ true
    → get hs.base.high_qc.hash hs.base.block_chain ≡ some b
    → get_nodes c.node_manager ≡ ok nodes
    → (s : Cogsworth) × (count_timeout_vote c msg hs ≡ ok s)
      × (s.base.sent ≡ multicast Rpc.new_view (new_view_msg c msg qc b) ∷ hs.base.sent)
      × (flag hs.base.current_view s.base.finished_view_change ≡ true)
unfolding count_timeout_vote process_new_view send_to_all get_leader_id
quorum-announced c msg hs qc b nodes made quorum leader stored found =
    let votes = timeout_votes_with msg hs in
    let enough : ltb (length votes) c.node_manager.quorum_size ≡ false = ground arith in
    let done : attempt (create_timeout_quorum_cert c.crypto (timeout_vote_of msg) votes)
        ≡ ok (some qc) =
      rw made refl in
    let hs1 = add_timeout_vote msg hs in
    let b1 = record hs1.base {
      sent = multicast Rpc.new_view (new_view_msg c msg qc b) ∷ hs.base.sent;
      ready = suc hs.base.ready;
    } in
    let s = record hs1 {
      base = enter_new_view b1;
      timeout_vote_finished = insert hs.base.current_view true hs.timeout_vote_finished;
      verified_timeout_votes = erase msg.view hs1.verified_timeout_votes;
    } in
    let v = hs.base.current_view in
    (
      s,
      rw (enough, done, leader, stored, found) refl,
      refl,
      ground (arith, flag-insert v v true hs.base.finished_view_change),
    )

-- A leader whose stored votes of a view, the one of a message included, are a quorum of two or more
-- that verify for that message's view and timeout certificate, no signer twice among them, begins the
-- view and multicasts one NewView message, if its HighQC's block is stored and its nodes can be found.
-- Every replica with the same configured keys and quorum that gets the message, in any state, finds
-- that its certificate verifies, and goes on with `processNewView`.
pub timeout_vote-quorum :
    (c : Context) (msg : Msg) (hs : Cogsworth) (b : Block) (nodes : List ReplicaConfig)
    → verify_timeout_vote_cert c.crypto
        (timeout_vote_of msg)
        (quorum_signature_from_proto msg.view_sig)
      ≡ ok true
    → AllVoteFor c.crypto (timeout_vote_of msg) (timeout_votes_with msg hs)
    → c.crypto.quorum_size ≡ c.node_manager.quorum_size
    → c.node_manager.quorum_size ≤ length (timeout_votes_with msg hs)
    → 2 ≤ length (timeout_votes_with msg hs)
    → ((i : ℕ) → occurs_in i (timeout_votes_with msg hs) ≤ 1)
    → is_leader c hs.base ≡ true
    → get hs.base.high_qc.hash hs.base.block_chain ≡ some b
    → get_nodes c.node_manager ≡ ok nodes
    → (s : Cogsworth) × (qc : QuorumCert) × (count_timeout_vote c msg hs ≡ ok s)
      × (s.base.sent ≡ multicast Rpc.new_view (new_view_msg c msg qc b) ∷ hs.base.sent)
      × (flag hs.base.current_view s.base.finished_view_change ≡ true)
      × ((id key : ℕ) (nm : NodeManager) (hs' : Cogsworth)
          → let c' : Context = record { node_manager = nm; crypto = peer c.crypto id key } in
            on_receive_new_view c' (new_view_msg c msg qc b) hs'
            ≡ process_new_view c'
                (new_view_msg c msg qc b)
                (quorum_cert_from_proto (some (quorum_cert_to_proto qc)))
                hs')
timeout_vote-quorum c msg hs b nodes valid all sizes quorum two once leader stored found =
    let (qc, made, verifies) =
      timeout_quorum_cert-verify c.crypto (timeout_vote_of msg)
        (quorum_signature_from_proto msg.view_sig) (timeout_votes_with msg hs) valid all
        (omega arith) two once in
    let (s, run, sent, finished) =
      quorum-announced c msg hs qc b nodes made quorum leader stored found in
    (
      s,
      qc,
      run,
      sent,
      finished,
      λ id key nm hs'.
          new_view-accepted (record { node_manager = nm; crypto = peer c.crypto id key })
            (new_view_msg c msg qc b) hs'
            (verify_timeout_quorum_cert-peer c.crypto id key (timeout_vote_of msg)
                (quorum_cert_from_proto (some (quorum_cert_to_proto qc)))
              ∙ verifies),
    )
