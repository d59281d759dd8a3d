-- ===== src/Crypto/Combining.antt =====
-- What `Combine` makes of the signatures that it is given.
use basic_hotstuff.Prelude.{
  ℕ, suc, ◌+◌, ◌≤◌, ◌<◌, All, ◌≡◌, refl, List, [], ◌∷◌, none, some, ok, >>=-eq-ok, nat_beq, nat_eq,
  if◌then◌else◌, arith, length, Bool-cases, inl, inr, contains, insert, ltb, false,
}
use basic_hotstuff.Types.{Signature, Multi, QuorumSignature}
use basic_hotstuff.Crypto.{add_all, combine_into, combine}

-- How often an id is a key of a signature, and of the signatures of a list.
abbrev pub occurs : ℕ → Multi → ℕ
occurs i [] = 0
occurs i ((k, s) ∷ m) = (if nat_beq k i then 1 else 0) + occurs i m

abbrev pub occurs_in : ℕ → List QuorumSignature → ℕ
occurs_in i [] = 0
occurs_in i (none ∷ sigs) = occurs_in i sigs
occurs_in i (some m ∷ sigs) = occurs i m + occurs_in i sigs

abbrev pub entries : List QuorumSignature → ℕ
entries [] = 0
entries (none ∷ sigs) = entries sigs
entries (some m ∷ sigs) = length m + entries sigs

pub occurs-contains : (i : ℕ) (m : Multi) → contains i m ≡ false → occurs i m ≡ 0
unfolding contains
occurs-contains i [] h = refl
occurs-contains i ((k, s) ∷ m) h = ground (arith, occurs-contains i m)

pub occurs-insert :
    (i k : ℕ) (s : Signature) (m : Multi)
    → contains k m ≡ false
    → occurs i (insert k s m) ≡ (if nat_beq k i then 1 else 0) + occurs i m
unfolding contains insert
occurs-insert i k s [] h = refl
occurs-insert i k s ((j, t) ∷ m) h = ground (arith, occurs-insert i k s m)

length-insert :
    (k : ℕ) (s : Signature) (m : Multi)
    → contains k m ≡ false
    → length (insert k s m) ≡ suc (length m)
unfolding contains insert
length-insert k s [] h = refl
length-insert k s ((j, t) ∷ m) h = ground (arith, length-insert k s m)

pub add_all-occurs :
    (i : ℕ) (ts m : Multi) {t : Multi}
    → add_all ts m ≡ ok t
    → occurs i ts ≤ 1
    → (occurs i t ≡ occurs i ts + occurs i m) × (occurs i t ≤ 1)
unfolding add_all
add_all-occurs i ts [] {t} h le = ground arith
add_all-occurs i ts ((k, s) ∷ m) {t} h le = elim (Bool-cases (contains k ts)) [
  | inl e ↦ ground arith
  | inr e ↦ ground (
    arith,
    add_all-occurs i (insert k s ts) m {t = t},
    occurs-insert i k s ts,
    occurs-contains k ts e,
  )
]

pub length-add_all :
    (ts m : Multi) {t : Multi} → add_all ts m ≡ ok t → length t ≡ length ts + length m
unfolding add_all
length-add_all ts [] {t} h = ground arith
length-add_all ts ((k, s) ∷ m) {t} h = elim (Bool-cases (contains k ts)) [
  | inl e ↦ ground arith
  | inr e ↦ ground (arith, length-add_all (insert k s ts) m {t = t}, length-insert k s ts)
]

combine_into-occurs :
    (i : ℕ) (ts : Multi) (sigs : List QuorumSignature) {t : Multi}
    → combine_into ts sigs ≡ ok (some t)
    → occurs i ts ≤ 1
    → (occurs i t ≡ occurs i ts + occurs_in i sigs) × (occurs i t ≤ 1)
unfolding combine_into
combine_into-occurs i ts [] h le = ground arith
combine_into-occurs i ts (none ∷ sigs) h le = cc
combine_into-occurs i ts (some m ∷ sigs) h le =
    let (t', e, rest) = >>=-eq-ok (add_all ts m) (λ t. combine_into t sigs) h in
    let (a, b) = add_all-occurs i ts m e le in
    let (a', b') = combine_into-occurs i t' sigs rest b in omega arith

length-combine_into :
    (ts : Multi) (sigs : List QuorumSignature) {t : Multi}
    → combine_into ts sigs ≡ ok (some t)
    → length t ≡ length ts + entries sigs
unfolding combine_into
length-combine_into ts [] h = ground arith
length-combine_into ts (none ∷ sigs) h = cc
length-combine_into ts (some m ∷ sigs) h =
    let (t', e, rest) = >>=-eq-ok (add_all ts m) (λ t. combine_into t sigs) h in
    omega (arith, length-add_all ts m e, length-combine_into t' sigs rest)

combine_into-some :
    (ts : Multi) (sigs : List QuorumSignature) {q : QuorumSignature}
    → combine_into ts sigs ≡ ok q
    → (t : Multi) × (q ≡ some t)
unfolding combine_into
combine_into-some ts [] h = (ts, ground arith)
combine_into-some ts (none ∷ sigs) h = cc
combine_into-some ts (some m ∷ sigs) h =
    let (t', e, rest) = >>=-eq-ok (add_all ts m) (λ t. combine_into t sigs) h in
    combine_into-some t' sigs rest

-- A combination that succeeds went through the loop, and is not nil.
pub combine-inv :
    (sigs : List QuorumSignature) {q : QuorumSignature}
    → combine sigs ≡ ok q
    → (t : Multi) × (q ≡ some t) × (combine_into [] sigs ≡ ok (some t)) × (2 ≤ length sigs)
unfolding combine
combine-inv sigs {q} h = elim (Bool-cases (ltb (length sigs) 2)) [
  | inl e ↦ absurd (ground arith)
  | inr e ↦
      let went : combine_into [] sigs ≡ ok q = ground arith in
      let (t, some_t) = combine_into-some [] sigs went in (t, some_t, ground arith, ground arith)
]

-- When `Combine` returns a signature, each id is a key of it as often as of all the given
-- signatures together, and at most once.
pub combine-occurs :
    (sigs : List QuorumSignature) (t : Multi) (i : ℕ)
    → combine sigs ≡ ok (some t)
    → (occurs i t ≡ occurs_in i sigs) × (occurs i t ≤ 1)
combine-occurs sigs t i h =
    let (t', e, went, _) = combine-inv sigs h in
    let (a, b) = combine_into-occurs i [] sigs went (omega arith) in ground arith

pub length-combine :
    (sigs : List QuorumSignature) (t : Multi) → combine sigs ≡ ok (some t) → length t ≡ entries sigs
length-combine sigs t h =
    let (t', e, went, _) = combine-inv sigs h in ground (arith, length-combine_into [] sigs went)

-- A predicate on every signature of a set.
abbrev pub Each : (Signature → Type 0) → Multi → Type 0
Each P [] = Unit {0}
Each P ((id, sig) ∷ m) = P sig × Each P m

-- A set of such signatures that is there and not empty.
abbrev pub Some : (Signature → Type 0) → QuorumSignature → Type 0
Some P sig = (m : Multi) × (sig ≡ some m) × (0 < length m) × Each P m

module _ (P : Signature → Type 0) where
  Each-insert :
      (k : ℕ) (s : Signature) (m : Multi)
      → contains k m ≡ false
      → P s
      → Each P m
      → Each P (insert k s m)
  unfolding insert contains
  Each-insert k s [] h good all = (good, tt)
  Each-insert k s ((j, t) ∷ m) h good all = elim (Bool-cases (nat_beq j k)) [
    | inl e ↦ rw e (good, all.1)
    | inr e ↦ rw e (all.0, Each-insert k s m (ground arith) good all.1)
  ]

  Each-add_all : (ts m : Multi) {t : Multi} → add_all ts m ≡ ok t → Each P ts → Each P m → Each P t
  unfolding add_all
  Each-add_all ts [] {t} h a b = let e : ts ≡ t = ground arith in rw (← e) a
  Each-add_all ts ((k, s) ∷ m) {t} h a b = elim (Bool-cases (contains k ts)) [
    | inl e ↦ absurd (ground arith)
    | inr e ↦ Each-add_all (insert k s ts) m {t = t} (ground arith) (Each-insert k s ts e b.0 a) b.1
  ]

  pub Each-combine_into :
      (ts : Multi) (sigs : List QuorumSignature) {t : Multi}
      → combine_into ts sigs ≡ ok (some t)
      → Each P ts
      → All (Some P) sigs
      → Each P t
  unfolding combine_into
  Each-combine_into ts [] {t} h a all = let e : ts ≡ t = ground arith in rw (← e) a
  Each-combine_into ts (none ∷ sigs) h a all = cc
  Each-combine_into ts (some m ∷ sigs) {t} h a all =
      let (t', e, rest) = >>=-eq-ok (add_all ts m) (λ t. combine_into t sigs) h in
      let (m', em, _, good) = all.0 in
      let same : m' ≡ m = ground arith in
      Each-combine_into t' sigs {t = t} rest (Each-add_all ts m {t = t'} e a (rw same at good))
        all.1

  pub entries-Some : (sigs : List QuorumSignature) → All (Some P) sigs → length sigs ≤ entries sigs
  entries-Some [] all = omega arith
  entries-Some (none ∷ sigs) all = let (m, e, _, _) = all.0 in cc
  entries-Some (some m ∷ sigs) all =
      let (m', e, pos, _) = all.0 in ground (arith, entries-Some sigs all.1)
