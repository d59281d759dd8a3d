-- ===== src/Convert/Keyed.antt =====
-- Signatures that are read off the wire, and those that are combined, stand under their signers, and
-- no id has two.
use basic_hotstuff.Prelude.{
  ℕ, ◌≡◌, refl, List, [], ◌∷◌, none, some, Option, ok, >>=-eq-ok, nat_eq, nat_beq, arith, map,
  Bool-cases, inl, inr, contains, insert, contains-insert, All,
}
use basic_hotstuff.Types.{Signature, Multi, QuorumSignature, restore, restore_from}
use basic_hotstuff.Proto.{QuorumSignaturePb, EcdsaSignaturePb}
use basic_hotstuff.Convert.{restore_sigs, quorum_signature_from_proto, signature_from_proto}
use basic_hotstuff.Convert.RoundTrip.{IsKeyed, IsKeyedSignature}
use basic_hotstuff.Crypto.{add_all, combine_into, combine}
use basic_hotstuff.Crypto.Combining.{combine-inv}

insert-IsKeyed :
    (k : ℕ) (s : Signature) (m : Multi) → k ≡ s.signer → IsKeyed m → IsKeyed (insert k s m)
unfolding insert contains
insert-IsKeyed k s [] e h = (e, refl, tt)
insert-IsKeyed k s ((j, t) ∷ m) e h = elim (Bool-cases (nat_beq j k)) [
  | inl same ↦ let jk : j ≡ k = ground arith in rw same (e, (rw (← jk) h.1), h.2)
  | inr other ↦ rw other (h.0, ground (arith, contains-insert k j s m), insert-IsKeyed k s m e h.2)
]

restore_from-IsKeyed : (m : Multi) (ss : List Signature) → IsKeyed m → IsKeyed (restore_from m ss)
unfolding restore_from
restore_from-IsKeyed m [] h = h
restore_from-IsKeyed m (s ∷ ss) h =
    restore_from-IsKeyed (insert s.signer s m) ss (insert-IsKeyed s.signer s m refl h)

-- A signature that `QuorumSignatureFromProto` reads, from any message, holds each signature under
-- its signer, and no signer twice.
pub quorum_signature_from_proto-IsKeyedSignature :
    (pb : Option QuorumSignaturePb) → IsKeyedSignature (quorum_signature_from_proto pb)
unfolding quorum_signature_from_proto restore
quorum_signature_from_proto-IsKeyedSignature none = tt
quorum_signature_from_proto-IsKeyedSignature (some pb) = go pb.ecdsa_sigs
  where
    go : (sigs : Option (List EcdsaSignaturePb)) → IsKeyedSignature (restore_sigs sigs)
    go none = tt
    go (some sigs) = restore_from-IsKeyed [] (map signature_from_proto sigs) tt

add_all-IsKeyed :
    (ts m : Multi) {t : Multi} → add_all ts m ≡ ok t → IsKeyed ts → IsKeyed m → IsKeyed t
unfolding add_all
add_all-IsKeyed ts [] {t} e h g = let same : ts ≡ t = ground arith in rw (← same) h
add_all-IsKeyed ts ((k, s) ∷ m) {t} e h g = elim (Bool-cases (contains k ts)) [
  | inl there ↦ absurd (ground arith)
  | inr new ↦
      add_all-IsKeyed (insert k s ts) m {t = t} (ground arith) (insert-IsKeyed k s ts g.0 h) g.2
]

combine_into-IsKeyed :
    (ts : Multi) (sigs : List QuorumSignature) {t : Multi}
    → combine_into ts sigs ≡ ok (some t)
    → IsKeyed ts
    → All IsKeyedSignature sigs
    → IsKeyed t
unfolding combine_into
combine_into-IsKeyed ts [] {t} e h all = let same : ts ≡ t = ground arith in rw (← same) h
combine_into-IsKeyed ts (none ∷ sigs) e h all = cc
combine_into-IsKeyed ts (some m ∷ sigs) {t} e h all =
    let (t', added, rest) = >>=-eq-ok (add_all ts m) (λ t. combine_into t sigs) e in
    combine_into-IsKeyed t' sigs {t = t} rest (add_all-IsKeyed ts m {t = t'} added h all.0) all.1

pub combine-IsKeyedSignature :
    (sigs : List QuorumSignature) {sig : QuorumSignature}
    → combine sigs ≡ ok sig
    → All IsKeyedSignature sigs
    → IsKeyedSignature sig
combine-IsKeyedSignature sigs {sig} e all =
    let (t, same, went, two) = combine-inv sigs e in
    rw same (combine_into-IsKeyed [] sigs {t = t} went tt all)
