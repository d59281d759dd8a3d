-- ===== src/BlockChain/Cleaning.antt =====
-- What `Store` and `Clean` keep.
use basic_hotstuff.Prelude.{
  ◌<◌, ◌≡◌, none, some, false, bytes_eq, bytes_beq, bytes_beq_iff, if◌then◌else◌, arith, Bool-cases,
  Option-cases, inl, inr, lookup-insert, lookup-erase, ◌⊎◌, ap, sym, ◌∙◌,
}
use basic_hotstuff.Types.{Hash}
use basic_hotstuff.Block.{Block}
use basic_hotstuff.BlockChain.{BlockChain, get, store, clean}
use basic_hotstuff.BlockChain.Ancestry.{IsDescending}

-- Every block stands under its own hash.
abbrev pub IsKeyed : BlockChain → Type 0
IsKeyed chain = (h : Hash) (b : Block) → get h chain ≡ some b → b.hash ≡ h

-- A block that is stored is found under its hash, and the others stay.
pub get-store :
    (b : Block) (chain : BlockChain) (h : Hash)
    → get h (store b chain) ≡ (if bytes_beq b.hash h then some b else get h chain)
unfolding get store
get-store b chain h = lookup-insert b.hash h b chain.blocks

pub store-IsKeyed : (b : Block) (chain : BlockChain) → IsKeyed chain → IsKeyed (store b chain)
store-IsKeyed b chain keyed h x e =
    ground (arith, get-store b chain h, keyed h x, bytes_beq_iff b.hash h)

-- `Clean` either does nothing, or takes out one block, which stands three generations above.
pub clean_cases :
    (b : Block) (chain : BlockChain)
    → ((h : Hash) → get h (clean b chain) ≡ get h chain)
      ⊎ ((p : Block) × (g : Block) × (t : Block) × (get b.parent chain ≡ some p)
          × (get p.parent chain ≡ some g)
          × (get g.parent chain ≡ some t)
          × ((h : Hash)
              → get h (clean b chain) ≡ (if bytes_beq t.hash h then none else get h chain)))
unfolding clean
clean_cases b chain = elim (Option-cases (get b.parent chain)) [
  | inl e ↦ inl (λ h. rw (e, clean))
  | inr (p, ep) ↦ elim (Option-cases (get p.parent chain)) [
    | inl e ↦ inl (λ h. rw (ep, clean) (rw (e)))
    | inr (g, eg) ↦ elim (Option-cases (get g.parent chain)) [
      | inl e ↦ inl (λ h. rw (ep, clean) (rw (eg) (rw (e))))
      | inr (t, et) ↦ inr (
        p,
        g,
        t,
        ep,
        eg,
        et,
        λ h. rw (ep, clean) (rw (eg) (rw (et) (unfold get in lookup-erase t.hash h chain.blocks))),
      )
    ]
  ]
]

apart :
    (chain : BlockChain) (h : Hash) (x g t : Block)
    → IsKeyed chain
    → get h chain ≡ some x
    → get g.parent chain ≡ some t
    → t.view < x.view
    → bytes_beq t.hash h ≡ false
apart chain h x g t keyed ex et lt = elim (Bool-cases (bytes_beq t.hash h)) [
  | inr e ↦ e
  | inl e ↦
      let same : t.hash ≡ h = (bytes_beq_iff t.hash h).0 e in
      let own : t.hash ≡ g.parent = keyed g.parent t et in
      let found : get h chain ≡ some t = ap (λ k. get k chain) (sym same ∙ own) ∙ et in
      let equal : x ≡ t = ground arith in absurd (ground (arith, ap (λ (b : Block). b.view) equal))
]

-- Where blocks stand under their hashes and the views fall along the branches, cleaning up for a
-- block keeps its parent and its grandparent.
pub clean-keeps :
    (b p g : Block) (chain : BlockChain)
    → IsKeyed chain
    → IsDescending chain
    → get b.parent chain ≡ some p
    → get p.parent chain ≡ some g
    → (get b.parent (clean b chain) ≡ some p) × (get p.parent (clean b chain) ≡ some g)
clean-keeps b p g chain keyed d ep eg = elim (clean_cases b chain) [
  | inl same ↦ (same b.parent ∙ ep, same p.parent ∙ eg)
  | inr (p', g', t, ep', eg', et, gone) ↦
      let one : p ≡ p' = ground arith in
      let two : g ≡ g' = ground (arith, ap (λ (x : Block). x.parent) one) in
      let low : t.view < g'.view = d p'.parent g' eg' t et in
      let mid : g.view < p.view = d b.parent p ep g eg in
      let down : t.view < g.view = ground (arith, ap (λ (x : Block). x.view) two) in
      (
        gone b.parent ∙ rw (apart chain b.parent p g' t keyed ep et (omega arith)) ep,
        gone p.parent ∙ rw (apart chain p.parent g g' t keyed eg et down) eg,
      )
]
