-- ===== src/Crypto/Timeouts.antt =====
-- crypto/crypto.go: certificates of a quorum of distinct signers can be made, and the certificates of
-- a view change that are made verify.
use basic_hotstuff.Prelude.{
  ℕ, ◌+◌, ◌≤◌, ◌<◌, ◌≡◌, ◌≢◌, refl, List, [], ◌∷◌, none, some, ok, nat_eq, nat_beq, arith, length,
  Bool-cases, inl, inr, contains, insert, true, All, ◌⊎◌, err, combine_overlap,
}
use basic_hotstuff.Types.{Multi, QuorumSignature, TimeoutCert, View, multi_len, view_to_bytes}
use basic_hotstuff.Crypto.{
  Crypto, add_all, combine_into, combine, verify, create_timeout_cert, verify_timeout_cert,
}
use basic_hotstuff.Crypto.Combining.{
  occurs, occurs_in, occurs-insert, add_all-occurs, combine-inv, combine-occurs, length-combine,
}
use basic_hotstuff.Crypto.Signing.{Good, AllSigned-combine_into, entries-Good}
use basic_hotstuff.Crypto.Verifying.{verify-AllSigned, AllSigned-verify}

occurs-present : (k : ℕ) (m : Multi) → contains k m ≡ true → 1 ≤ occurs k m
unfolding contains
occurs-present k [] h = cc
occurs-present k ((j, s) ∷ m) h = ground (arith, occurs-present k m)

-- Sets without a common signer, each of different ones, are added.
add_all-distinct :
    (ts m : Multi) → ((i : ℕ) → occurs i ts + occurs i m ≤ 1) → (t : Multi) × (add_all ts m ≡ ok t)
unfolding add_all
add_all-distinct ts [] h = (ts, refl)
add_all-distinct ts ((k, s) ∷ m) h = elim (Bool-cases (contains k ts)) [
  | inl e ↦ absurd (ground (arith, h k, occurs-present k ts e))
  | inr e ↦
      let (t, et) =
        add_all-distinct (insert k s ts) m (λ i. ground (arith, h i, occurs-insert i k s ts e)) in
      (t, rw e et)
]

abbrev pub Present : List QuorumSignature → Type 0
Present sigs = All (λ sig. (m : Multi) × (sig ≡ some m)) sigs

combine_into-distinct :
    (ts : Multi) (sigs : List QuorumSignature)
    → Present sigs
    → ((i : ℕ) → occurs i ts + occurs_in i sigs ≤ 1)
    → (t : Multi) × (combine_into ts sigs ≡ ok (some t))
unfolding combine_into
combine_into-distinct ts [] all h = (ts, refl)
combine_into-distinct ts (none ∷ sigs) all h = absurd (let (m, e) = all.0 in ground arith)
combine_into-distinct ts (some m ∷ sigs) all h =
    let (t, et) = add_all-distinct ts m (λ i. omega (arith, h i)) in
    let (u, eu) = combine_into-distinct t sigs all.1 (λ i.
      let (sum, once) = add_all-occurs i ts m {t = t} et (omega (arith, h i)) in
      omega (arith, h i)) in
    (u, rw et eu)

-- Two signatures or more, none nil and no signer in two of them or twice in one, are combined.
pub combine-distinct :
    (sigs : List QuorumSignature)
    → Present sigs
    → 2 ≤ length sigs
    → ((i : ℕ) → occurs_in i sigs ≤ 1)
    → (t : Multi) × (combine sigs ≡ ok (some t))
unfolding combine
combine-distinct sigs all two h =
    let (t, e) = combine_into-distinct [] sigs all (λ i. omega (arith, h i)) in (t, ground arith)

pub Good-Present :
    (c : Crypto) (message : _) (sigs : List QuorumSignature)
    → All (Good c message) sigs
    → Present sigs
Good-Present c message [] all = tt
Good-Present c message (sig ∷ sigs) all =
    let (m, e, _, _) = verify-AllSigned c sig message all.0 in
    ((m, e), Good-Present c message sigs all.1)

pub create_timeout_cert-zero :
    (c : Crypto) (v : View) (sigs : List QuorumSignature) {tc : TimeoutCert}
    → create_timeout_cert c v sigs ≡ ok tc
    → v ≡ 0
    → (tc.view ≡ 0) × (tc.signature ≡ none)
unfolding create_timeout_cert
create_timeout_cert-zero c v sigs {tc} h zero_view = ground arith

pub create_timeout_cert-inv :
    (c : Crypto) (v : View) (sigs : List QuorumSignature) {tc : TimeoutCert}
    → create_timeout_cert c v sigs ≡ ok tc
    → v ≢ 0
    → (combine sigs ≡ ok tc.signature) × (tc.view ≡ v)
unfolding create_timeout_cert
create_timeout_cert-inv c v sigs {tc} h ne = ground arith

-- A certificate that `CreateTimeoutCert` makes of at least a timeout quorum of signatures, each of
-- which verifies for the view, verifies and has that view.
pub create_timeout_cert-verify :
    (c : Crypto) (v : View) (sigs : List QuorumSignature) (tc : TimeoutCert)
    → All (Good c (view_to_bytes v)) sigs
    → c.timeout_quorum_size ≤ length sigs
    → create_timeout_cert c v sigs ≡ ok tc
    → (verify_timeout_cert c tc ≡ ok true) × (tc.view ≡ v)
unfolding verify_timeout_cert multi_len
create_timeout_cert-verify c v sigs tc good quorum h = elim (Bool-cases (nat_beq v 0)) [
  | inl e ↦
      let v0 : v ≡ 0 = ground arith in
      let (view, sig) = create_timeout_cert-zero c v sigs {tc = tc} h v0 in ground arith
  | inr e ↦
      let (comb, view) = create_timeout_cert-inv c v sigs {tc = tc} h (ground arith) in
      let (t, et, went, two) = combine-inv sigs comb in
      let all = AllSigned-combine_into c (view_to_bytes v) sigs {t = t} went good in
      let n = length-combine sigs t (rw (comb, et)) in
      let many = entries-Good c (view_to_bytes v) sigs good in
      let big : 0 < length t = omega arith in
      let ok_v = AllSigned-verify c t (view_to_bytes v) big all in
      let same : verify c tc.signature (view_to_bytes tc.view) ≡ ok true =
        rw (view, et, ok_v) refl in
      ground arith
]

-- Signatures of a view, none nil, at least two and no signer twice, make a certificate.
pub create_timeout_cert-distinct :
    (c : Crypto) (v : View) (sigs : List QuorumSignature)
    → All (Good c (view_to_bytes v)) sigs
    → 2 ≤ length sigs
    → ((i : ℕ) → occurs_in i sigs ≤ 1)
    → (tc : TimeoutCert) × (create_timeout_cert c v sigs ≡ ok tc)
unfolding create_timeout_cert
create_timeout_cert-distinct c v sigs good two once = elim (Bool-cases (nat_beq v 0)) [
  | inl e ↦ (record { signature = none; view = 0 }, rw e refl)
  | inr e ↦
      let (t, et) = combine-distinct sigs (Good-Present c (view_to_bytes v) sigs good) two once in
      (record { signature = some t; view = v }, rw (e, et) refl)
]

add_all-cases :
    (ts m : Multi) → ((t : Multi) × (add_all ts m ≡ ok t)) ⊎ (add_all ts m ≡ err combine_overlap)
unfolding add_all
add_all-cases ts [] = inl (ts, refl)
add_all-cases ts ((k, s) ∷ m) = elim (Bool-cases (contains k ts)) [
  | inl e ↦ inr (rw e refl)
  | inr e ↦ rw e (add_all-cases (insert k s ts) m)
]

combine_into-cases :
    (ts : Multi) (sigs : List QuorumSignature)
    → Present sigs
    → ((t : Multi) × (combine_into ts sigs ≡ ok (some t)))
      ⊎ (combine_into ts sigs ≡ err combine_overlap)
unfolding combine_into
combine_into-cases ts [] all = inl (ts, refl)
combine_into-cases ts (none ∷ sigs) all = absurd (let (m, e) = all.0 in ground arith)
combine_into-cases ts (some m ∷ sigs) all = elim (add_all-cases ts m) [
  | inl (t, e) ↦ rw e (combine_into-cases t sigs all.1)
  | inr e ↦ inr (rw e refl)
]

-- Signatures in which an id signs twice, none nil, make an error.
pub combine-repeated :
    (sigs : List QuorumSignature) (id : ℕ)
    → Present sigs
    → 2 ≤ length sigs
    → 2 ≤ occurs_in id sigs
    → combine sigs ≡ err combine_overlap
unfolding combine
combine-repeated sigs id all two twice = elim (combine_into-cases [] sigs all) [
  | inl (t, e) ↦ absurd (
      let made : combine sigs ≡ ok (some t) = ground arith in
      let (same, once) = combine-occurs sigs t id made in omega arith)
  | inr e ↦ ground arith
]
