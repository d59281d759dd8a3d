-- ===== src/Types/Sets.antt =====
-- types/types.go: IDSet, a set of replica ids, and SyncInfo, an optional pair of certificates.
use basic_hotstuff.Prelude.{
  ℕ, [], ◌∷◌, Option, none, some, Bool, true, false, Map, insert, contains, contains-insert, nat_eq,
  nat_beq, length, if◌then◌else◌, ◌≡◌, refl, ◌||◌, arith,
}
use basic_hotstuff.Types.{Id32, QuorumCert, TimeoutCert, zero_qc}

-- idSetMap, whose values hold nothing.
abbrev pub IdSet : Type 0
IdSet = Map Id32 Unit

abbrev pub new_id_set : IdSet
new_id_set = []

-- `Add`, `Contains` and `Len`.
unfoldable pub add : Id32 → IdSet → IdSet
add id s = insert id tt s

unfoldable pub has : Id32 → IdSet → Bool
has id s = contains id s

unfoldable pub len : IdSet → ℕ
len s = length s

-- `ForEach`, for a function that changes a state.
unfoldable pub for_each {ℓ} : {S : Type ℓ} → (Id32 → S → S) → IdSet → S → S
for_each f [] s = s
for_each f ((id, v) ∷ ids) s = for_each f ids (f id s)

-- `RangeWhile`, for a function that also says whether to go on.
unfoldable pub range_while {ℓ} : {S : Type ℓ} → (Id32 → S → Bool × S) → IdSet → S → S
range_while f [] s = s
range_while f ((id, v) ∷ ids) s =
    let (more, s1) = f id s in let rest = range_while f ids s1 in if more then rest else s1

-- After `Add(id)` the set contains `id` and what it contained before.
pub has-add :
    (id other : Id32) (s : IdSet) → has other (add id s) ≡ (nat_beq id other || has other s)
unfolding has add
has-add id other s = ground (arith, contains-insert id other tt s)

-- An id that is there already is not added again.
pub len-add_again : (id : Id32) (s : IdSet) → has id s ≡ true → len (add id s) ≡ len s
unfolding has add len contains insert
len-add_again id [] h = absurd (ground arith)
len-add_again id ((j, v) ∷ s) h = ground (arith, len-add_again id s)

-- A `RangeWhile` whose function always goes on is a `ForEach`.
pub range_while-for_each {ℓ} :
    {S : Type ℓ} (f : Id32 → S → S) (ids : IdSet) (s : S)
    → range_while (λ id t. (true, f id t)) ids s ≡ for_each f ids s
unfolding range_while for_each
range_while-for_each f [] s = refl
range_while-for_each f ((id, v) ∷ ids) s = range_while-for_each f ids (f id s)

pub record SyncInfo : Type 0 where
  pub qc : Option QuorumCert
  pub tc : Option TimeoutCert

abbrev pub new_sync_info : SyncInfo
new_sync_info = record { qc = none; tc = none }

unfoldable pub with_qc : QuorumCert → SyncInfo → SyncInfo
with_qc qc si = record si { qc = some qc }

unfoldable pub with_tc : TimeoutCert → SyncInfo → SyncInfo
with_tc tc si = record si { tc = some tc }

-- `QC` and `TC`: the zero value and false where there is none.
abbrev qc_or_zero : Option QuorumCert → QuorumCert × Bool
qc_or_zero none = (zero_qc, false)
qc_or_zero (some qc) = (qc, true)

unfoldable pub sync_qc : SyncInfo → QuorumCert × Bool
sync_qc si = qc_or_zero si.qc

abbrev tc_or_zero : Option TimeoutCert → TimeoutCert × Bool
tc_or_zero none = (record { signature = none; view = 0 }, false)
tc_or_zero (some tc) = (tc, true)

unfoldable pub sync_tc : SyncInfo → TimeoutCert × Bool
sync_tc si = tc_or_zero si.tc

-- Both certificates that are put in are read again.
pub sync_info_lem :
    (qc : QuorumCert) (tc : TimeoutCert) (si : SyncInfo)
    → (sync_qc (with_tc tc (with_qc qc si)) ≡ (qc, true))
      × (sync_tc (with_qc qc (with_tc tc si)) ≡ (tc, true))
unfolding sync_qc sync_tc with_qc with_tc
sync_info_lem qc tc si = (refl, refl)
