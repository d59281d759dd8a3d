-- ===== src/Types.antt =====
-- types/types.go and crypto/ecdsa: identities, signatures and the certificates built from them.
-- A Go `types.QuorumSignature` is nil or a `Multi`: an `Option Multi`.
pub mod Sets
use basic_hotstuff.Prelude.{
  ℕ, List, [], ◌∷◌, ◌++◌, Option, none, some, Bool, false, Bytes, Map, length, Result, ok, panic,
  ◌>>=◌, lookup, insert, deref, sort_by, ltb, nat_beq, nat_eq, bytes_beq, if◌then◌else◌, is_none,
  not,
}
use basic_hotstuff.Encoding.{put_le, big_bytes}

-- A replica id is a uint32, a view a uint64, a hash 32 bytes.
abbrev pub Id32 : Type 0
Id32 = ℕ

abbrev pub View : Type 0
View = ℕ

abbrev pub Hash : Type 0
Hash = Bytes

abbrev pub zero_hash : Hash
zero_hash =
    0 ∷ 0 ∷ 0 ∷ 0 ∷ 0 ∷ 0 ∷ 0 ∷ 0 ∷ 0 ∷ 0 ∷ 0 ∷ 0 ∷ 0 ∷ 0 ∷ 0 ∷ 0 ∷ 0 ∷ 0 ∷ 0 ∷ 0 ∷ 0 ∷ 0 ∷ 0 ∷ 0
    ∷ 0 ∷ 0 ∷ 0 ∷ 0 ∷ 0 ∷ 0 ∷ 0 ∷ 0 ∷ []

-- `View.ToBytes`.
unfoldable pub view_to_bytes : View → Bytes
view_to_bytes v = put_le 8 v

-- An ECDSA signature.
pub record Signature : Type 0 where
  pub r : ℕ
  pub s : ℕ
  pub signer : Id32

unfoldable pub signature_to_bytes : Signature → Bytes
signature_to_bytes sig = big_bytes sig.r ++ big_bytes sig.s

-- A set of signatures by signer.
abbrev pub Multi : Type 0
Multi = Map Id32 Signature

abbrev pub QuorumSignature : Type 0
QuorumSignature = Option Multi

-- `Restore`: later entries of the slice replace earlier ones of the same signer.
unfoldable pub restore_from : Multi → List Signature → Multi
restore_from m [] = m
restore_from m (s ∷ ss) = restore_from (insert s.signer s m) ss

unfoldable pub restore : List Signature → Multi
unfolding restore_from
restore ss = restore_from [] ss

unfoldable pub signers : Multi → List Id32
signers [] = []
signers ((k, s) ∷ m) = s.signer ∷ signers m

-- The loop of `Multi.ToBytes` over the sorted ids. An id with no entry reads a nil pointer.
unfoldable pub append_signatures : Multi → List Id32 → Result Bytes
append_signatures m [] = ok []
append_signatures m (i ∷ is) = do
  sig ← deref (lookup i m)
  rest ← append_signatures m is
  ok (signature_to_bytes sig ++ rest)

-- `Multi.ToBytes`.
unfoldable pub multi_to_bytes : Multi → Result Bytes
unfolding append_signatures signers
multi_to_bytes m = append_signatures m (sort_by ltb (signers m))

-- `Multi.Len`.
unfoldable pub multi_len : Multi → ℕ
multi_len m = length m

pub record PartialCert : Type 0 where
  pub signer : Id32
  pub signature : QuorumSignature
  pub block_hash : Hash

-- The first id that `RangeWhile` visits, or the zero value.
unfoldable pub first_signer : Multi → Id32
first_signer [] = 0
first_signer ((k, s) ∷ m) = k

-- `NewPartialCert` calls a method of the signature, so nil panics.
unfoldable pub new_partial_cert : QuorumSignature → Hash → Result PartialCert
unfolding first_signer
new_partial_cert none h = panic
new_partial_cert (some m) h =
    ok (record { signer = first_signer m; signature = some m; block_hash = h })

pub record QuorumCert : Type 0 where
  pub signature : QuorumSignature
  pub view : View
  pub hash : Hash

-- The zero value of a QuorumCert variable.
abbrev pub zero_qc : QuorumCert
zero_qc = record { signature = none; view = 0; hash = zero_hash }

abbrev pub optional_bytes : QuorumSignature → Result Bytes
optional_bytes none = ok []
optional_bytes (some m) = multi_to_bytes m

-- `QuorumCert.ToBytes`.
unfoldable pub qc_to_bytes : QuorumCert → Result Bytes
unfolding view_to_bytes
qc_to_bytes qc = do
  sig ← optional_bytes qc.signature
  ok (view_to_bytes qc.view ++ (qc.hash ++ sig))

abbrev signatures_equal : QuorumSignature → QuorumSignature → Result Bool
signatures_equal none other = ok (is_none other)
signatures_equal (some m) none = ok false
signatures_equal (some m) (some m') = do
  a ← multi_to_bytes m
  b ← multi_to_bytes m'
  ok (bytes_beq a b)

-- `QuorumCert.Equals`.
unfoldable pub qc_equals : QuorumCert → QuorumCert → Result Bool
qc_equals qc other =
    if not (nat_beq qc.view other.view)
    then ok false
    else (if not (bytes_beq qc.hash other.hash)
        then ok false
        else signatures_equal qc.signature other.signature)

pub record TimeoutCert : Type 0 where
  pub signature : QuorumSignature
  pub view : View

-- `TimeoutCert.ToBytes` calls a method of the signature, so nil panics.
unfoldable pub tc_to_bytes : TimeoutCert → Result Bytes
unfolding view_to_bytes
tc_to_bytes tc = do
  m ← deref tc.signature
  sig ← multi_to_bytes m
  ok (view_to_bytes tc.view ++ sig)

-- A view that a replica votes to enter, with the certificate that asks it to.
pub record TimeoutVote : Type 0 where
  pub view : View
  pub tc : TimeoutCert
