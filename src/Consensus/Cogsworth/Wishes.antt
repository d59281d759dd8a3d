-- ===== src/Consensus/Cogsworth/Wishes.antt =====
-- A quorum of wishes.
use basic_hotstuff.Prelude.{
  All-snoc, ℕ, ◌≤◌, ◌≡◌, refl, List, [], ◌∷◌, Bool-cases, inl, inr, some, true, false, ok, arith,
  length, flag, nat_eq, nat_beq, All, lookup_list, ltb,
}
use basic_hotstuff.Types.{View, QuorumSignature, TimeoutCert, view_to_bytes}
use basic_hotstuff.Crypto.{Crypto, verify, create_timeout_cert, verify_timeout_cert}
use basic_hotstuff.Crypto.Combining.{occurs_in}
use basic_hotstuff.Crypto.Signing.{Good}
use basic_hotstuff.Crypto.Timeouts.{
  create_timeout_cert-inv, create_timeout_cert-zero, create_timeout_cert-verify,
  create_timeout_cert-distinct,
}
use basic_hotstuff.Proto.{Msg}
use basic_hotstuff.Convert.{
  quorum_signature_from_proto, timeout_cert_from_proto, timeout_cert_to_proto,
}
use basic_hotstuff.Convert.RoundTrip.{IsKeyedSignature, timeout_cert_round_trip}
use basic_hotstuff.Convert.Keyed.{
  combine-IsKeyedSignature, quorum_signature_from_proto-IsKeyedSignature,
}
use basic_hotstuff.Consensus.State.{Context}
use basic_hotstuff.Consensus.Phases.{start_timer}
use basic_hotstuff.Consensus.Cogsworth.{Cogsworth, set_base}
use basic_hotstuff.Consensus.Cogsworth.Wishing.{
  wished, wishes_with, add_wish, count_wish, on_receive_wish_next_view,
}
use basic_hotstuff.Consensus.Cogsworth.Moves.{Verified, IsWish}

wishes-Good :
    (c : Crypto) (v : View) (sigs : List QuorumSignature)
    → All (IsWish c v) sigs
    → All (Good c (view_to_bytes v)) sigs × All IsKeyedSignature sigs
wishes-Good c v [] all = (tt, tt)
wishes-Good c v (sig ∷ sigs) all =
    let (good, keyed) = wishes-Good c v sigs all.1 in ((all.0.1, good), (all.0.0, keyed))

cert-IsKeyedSignature :
    (c : Crypto) (v : View) (sigs : List QuorumSignature) (tc : TimeoutCert)
    → All IsKeyedSignature sigs
    → create_timeout_cert c v sigs ≡ ok tc
    → IsKeyedSignature tc.signature
cert-IsKeyedSignature c v sigs tc keyed h = elim (Bool-cases (nat_beq v 0)) [
  | inl e ↦
      let v0 : v ≡ 0 = ground arith in
      let (view, sig) = create_timeout_cert-zero c v sigs {tc = tc} h v0 in rw sig tt
  | inr e ↦
      let (comb, view) = create_timeout_cert-inv c v sigs {tc = tc} h (ground arith) in
      combine-IsKeyedSignature sigs {sig = tc.signature} comb keyed
]

-- A replica that keeps verified wishes only, and has made no certificate of a view, makes one of the
-- wish that verifies and completes a timeout quorum of two or more, no signer twice among them. It
-- goes on with that certificate, and a replica with the same keys that reads the certificate off the
-- wire finds that it verifies and has that view.
pub wish-quorum :
    (c : Context) (msg : Msg) (hs : Cogsworth)
    → Verified c.crypto hs
    → flag msg.view hs.wish_finished ≡ false
    → verify c.crypto (quorum_signature_from_proto msg.view_sig) (view_to_bytes msg.view) ≡ ok true
    → c.crypto.timeout_quorum_size ≡ c.node_manager.timeout_quorum_size
    → c.node_manager.timeout_quorum_size ≤ length (wishes_with msg hs)
    → 2 ≤ length (wishes_with msg hs)
    → ((i : ℕ) → occurs_in i (wishes_with msg hs) ≤ 1)
    → (cert : TimeoutCert) × (on_receive_wish_next_view c msg hs
        ≡ wished c msg.view cert (add_wish msg (set_base start_timer hs)))
      × (verify_timeout_cert c.crypto (timeout_cert_from_proto (some (timeout_cert_to_proto cert)))
          ≡ ok true)
      × (cert.view ≡ msg.view)
unfolding on_receive_wish_next_view count_wish
wish-quorum c msg hs kept unmade valid sizes quorum two once =
    let wishes = wishes_with msg hs in
    let sig = quorum_signature_from_proto msg.view_sig in
    let wish : IsWish c.crypto msg.view sig =
      (quorum_signature_from_proto-IsKeyedSignature msg.view_sig, valid) in
    let all : All (IsWish c.crypto msg.view) wishes =
      All-snoc (IsWish c.crypto msg.view) (lookup_list msg.view hs.wish_next_view) sig
        (kept.wishes msg.view) wish in
    let (good, keyed) = wishes-Good c.crypto msg.view wishes all in
    let (cert, made) = create_timeout_cert-distinct c.crypto msg.view wishes good two once in
    let (verifies, view) =
      create_timeout_cert-verify c.crypto msg.view wishes cert good (omega arith) made in
    let enough : ltb (length wishes) c.node_manager.timeout_quorum_size ≡ false = ground arith in
    let wire =
      timeout_cert_round_trip cert
        (cert-IsKeyedSignature c.crypto msg.view wishes cert keyed made) in
    (cert, rw (unmade, valid, enough, made) refl, rw (wire, verifies) refl, view)
