-- ===== src/Consensus/Basic/ViewChange.antt =====
-- The certificate with which a new view begins.
use basic_hotstuff.Prelude.{
  ℕ, suc, ◌+◌, ◌++◌, ◌<◌, some, lt→ltb, flag, length, length-append, insert, lookup_list-insert,
  ◌≤◌, ◌≡◌, refl, Bool, true, false, List, [], ◌∷◌, arith, ltb, ltb→lt, ltb→le, le→ltb,
  if◌then◌else◌, All, Bool-cases, inl, inr, ◌⊎◌, lookup_list, nat_eq,
}
use mathlib.Core.List.{Memᴰ}
use basic_hotstuff.Types.{QuorumCert, zero_qc}
use basic_hotstuff.Proto.{Msg, QuorumCertPb}
use basic_hotstuff.Convert.{quorum_cert_from_proto}
use basic_hotstuff.Consensus.State.{Context, HotStuff}
use basic_hotstuff.Consensus.Basic.{max_qc, process_new_view, on_receive_new_view}

max_qc-from :
    (best : QuorumCert) (qcs : List QuorumCert)
    → (max_qc best qcs ≡ best) ⊎ Memᴰ (max_qc best qcs) qcs
unfolding max_qc
max_qc-from best [] = inl refl
max_qc-from best (qc ∷ qcs) = elim (Bool-cases (ltb best.view qc.view)) [
  | inl e ↦ rw e (elim (max_qc-from qc qcs) [
    | inl same ↦ inr (Memᴰ.head same)
    | inr later ↦ inr (Memᴰ.tail later)
  ])
  | inr e ↦
      rw e (elim (max_qc-from best qcs) [ inl same ↦ inl same | inr later ↦ inr (Memᴰ.tail later) ])
]

All-upto :
    (m n : ℕ) (qcs : List QuorumCert)
    → m ≤ n
    → All (λ q. q.view ≤ m) qcs
    → All (λ q. q.view ≤ n) qcs
All-upto m n [] h a = tt
All-upto m n (q ∷ qcs) h a = (omega arith, All-upto m n qcs h a.1)

-- The certificate is at least as high as those that it comes from.
abbrev IsHighest : QuorumCert → List QuorumCert → QuorumCert → Type 0
IsHighest best qcs high = (best.view ≤ high.view) × All (λ q. q.view ≤ high.view) qcs

max_qc-IsHighest :
    (best : QuorumCert) (qcs : List QuorumCert) → IsHighest best qcs (max_qc best qcs)
unfolding max_qc
max_qc-IsHighest best [] = (omega arith, tt)
max_qc-IsHighest best (qc ∷ qcs) =
    pick (ltb best.view qc.view) refl (max_qc-IsHighest qc qcs) (max_qc-IsHighest best qcs)
  where
    pick :
        (t : Bool)
        → ltb best.view qc.view ≡ t
        → IsHighest qc qcs (max_qc qc qcs)
        → IsHighest best qcs (max_qc best qcs)
        → IsHighest best (qc ∷ qcs) (max_qc (if t then qc else best) qcs)
    pick true e (a, b) h =
        let lt = ltb→lt best.view qc.view e in
        let up : best.view ≤ (max_qc qc qcs).view = omega arith in (up, (a, b))
    pick false e h (a, b) =
        let le = ltb→le best.view qc.view e in
        let up : qc.view ≤ (max_qc best qcs).view = omega arith in (a, (up, b))

-- The high certificate of a new view is the replica's own prepare certificate or one that was
-- received for the view, and none of these has a higher view.
pub process_new_view-highest :
    (hs : HotStuff)
    → let received = lookup_list hs.current_view hs.high_qc_tmp in
      let high = (process_new_view hs).high_qc in
      ((high ≡ hs.prepare_qc) ⊎ Memᴰ high received)
      × (hs.prepare_qc.view ≤ high.view)
      × All (λ q. q.view ≤ high.view) received
unfolding process_new_view
process_new_view-highest hs =
    let received = lookup_list hs.current_view hs.high_qc_tmp in
    let (a, b) = max_qc-IsHighest hs.prepare_qc received in
    (max_qc-from hs.prepare_qc received, a, b)

max_qc_tie :
    (best : QuorumCert) (qcs : List QuorumCert)
    → All (λ q. q.view ≤ best.view) qcs
    → max_qc best qcs ≡ best
unfolding max_qc
max_qc_tie best [] a = refl
max_qc_tie best (qc ∷ qcs) a = rw (le→ltb best.view qc.view a.0) (max_qc_tie best qcs a.1)

-- A replica that has never seen a prepare certificate, and is told of none above view 0, begins the
-- new view with the zero certificate, whatever its high certificate was.
pub process_new_view-zero :
    (hs : HotStuff)
    → hs.prepare_qc ≡ zero_qc
    → All (λ q. q.view ≤ 0) (lookup_list hs.current_view hs.high_qc_tmp)
    → (process_new_view hs).high_qc ≡ zero_qc
unfolding process_new_view
process_new_view-zero hs e a =
    rw e (max_qc_tie zero_qc (lookup_list hs.current_view hs.high_qc_tmp) a)

max_qc-last :
    (best last : QuorumCert) (qcs : List QuorumCert)
    → best.view < last.view
    → All (λ q. q.view < last.view) qcs
    → max_qc best (qcs ++ last ∷ []) ≡ last
unfolding max_qc
max_qc-last best last [] lt all = rw (lt→ltb best.view last.view lt) refl
max_qc-last best last (qc ∷ qcs) lt all = elim (Bool-cases (ltb best.view qc.view)) [
  | inl e ↦ rw (max_qc, e) (max_qc-last qc last qcs all.0 all.1)
  | inr e ↦ rw (max_qc, e) (max_qc-last best last qcs lt all.1)
]

-- A NewView message that completes the quorum of a view that is not finished, with a certificate of a
-- higher view than the replica's PrepareQC and all that it was told of: that certificate becomes
-- HighQC, whatever its signatures and its hash are, and the replica signals that it can propose.
pub unverified_high_qc :
    (c : Context) (msg : Msg) (pb : QuorumCertPb) (hs : HotStuff)
    → msg.qc ≡ some pb
    → flag hs.current_view hs.finished_view_change ≡ false
    → c.node_manager.quorum_size ≤ length (lookup_list hs.current_view hs.high_qc_tmp) + 1
    → hs.prepare_qc.view < (quorum_cert_from_proto (some pb)).view
    → All
        (λ q. q.view < (quorum_cert_from_proto (some pb)).view)
        (lookup_list hs.current_view hs.high_qc_tmp)
    → ((on_receive_new_view c msg hs).high_qc ≡ quorum_cert_from_proto (some pb))
      × ((on_receive_new_view c msg hs).ready ≡ suc hs.ready)
unfolding on_receive_new_view process_new_view
unverified_high_qc c msg pb hs e open_yet quorum above all =
    let received = lookup_list hs.current_view hs.high_qc_tmp in
    let qc = quorum_cert_from_proto (some pb) in
    let told : lookup_list hs.current_view
          (insert hs.current_view (received ++ qc ∷ []) hs.high_qc_tmp)
        ≡ received ++ qc ∷ [] =
      ground (
        arith,
        lookup_list-insert hs.current_view hs.current_view (received ++ qc ∷ []) hs.high_qc_tmp,
      ) in
    let long = length-append received (qc ∷ []) in
    let enough : ltb (length (received ++ qc ∷ [])) c.node_manager.quorum_size ≡ false =
      ground arith in
    rw (open_yet, e, told, enough) (max_qc-last hs.prepare_qc qc received above all, refl)
