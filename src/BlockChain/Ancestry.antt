-- ===== src/BlockChain/Ancestry.antt =====
-- `Extends` decides whether a block lies on the branch of another.
use basic_hotstuff.Prelude.{
  ℕ, zero, suc, ◌≤◌, ◌<◌, ◌≡◌, some, Bool, true, false, ok, ltb, bytes_beq, bytes_beq_iff,
  bytes_beq_refl, lt→ltb, arith, Bool-cases, Option-cases, inl, inr, ltb→le,
}
use basic_hotstuff.Types.{Hash}
use basic_hotstuff.Block.{Block}
use basic_hotstuff.BlockChain.{BlockChain, get, extends, extends_fuel, extends_loop}

-- `a` is `b` or is reached from it over stored parents.
pub data Ancestor (chain : BlockChain) : Block → Block → Type 0 where
  self : (b : Block) → Ancestor chain b b
  parent : {b p a : Block} → get b.parent chain ≡ some p → Ancestor chain p a → Ancestor chain b a

-- The stored parent of a block, if there is one, has a lower view.
abbrev pub IsAboveParent : BlockChain → Block → Type 0
IsAboveParent chain b = (p : Block) → get b.parent chain ≡ some p → p.view < b.view

-- So it is for every stored block.
abbrev pub IsDescending : BlockChain → Type 0
IsDescending chain = (h : Hash) (b : Block) → get h chain ≡ some b → IsAboveParent chain b

extends_loop_sound :
    (f : ℕ) (chain : BlockChain) (b t : Block)
    → extends_loop f chain b t ≡ ok true
    → (a : Block) × Ancestor chain b a × (a.hash ≡ t.hash) × (a.view ≤ t.view)
unfolding extends_loop
extends_loop_sound zero chain b t h = cc
extends_loop_sound (suc f) chain b t h = elim (Bool-cases (ltb t.view b.view)) [
  | inr e ↦ (b, self b, (bytes_beq_iff b.hash t.hash).0 (ground arith), ltb→le t.view b.view e)
  | inl e ↦ elim (Option-cases (get b.parent chain)) [
    | inl none_e ↦ absurd (ground arith)
    | inr (p, some_e) ↦
        let (a, up, eh, ev) = extends_loop_sound f chain p t (ground arith) in
        (a, parent some_e up, eh, ev)
  ]
]

-- If `Extends` answers yes, an ancestor of the block, or the block, has the target's hash, and no
-- higher view.
pub extends_sound :
    (chain : BlockChain) (b t : Block)
    → extends chain b t ≡ ok true
    → (a : Block) × Ancestor chain b a × (a.hash ≡ t.hash) × (a.view ≤ t.view)
unfolding extends
extends_sound chain b t h = extends_loop_sound (extends_fuel chain b) chain b t h

extends_loop-total :
    (f : ℕ) (chain : BlockChain) (b t : Block)
    → IsDescending chain
    → IsAboveParent chain b
    → b.view < f
    → (r : Bool) × (extends_loop f chain b t ≡ ok r)
unfolding extends_loop
extends_loop-total zero chain b t d a h = absurd (omega arith)
extends_loop-total (suc f) chain b t d a h = elim (Bool-cases (ltb t.view b.view)) [
  | inr e ↦ (bytes_beq b.hash t.hash, rw e)
  | inl e ↦ elim (Option-cases (get b.parent chain)) [
    | inl none_e ↦ (false, rw (e, none_e))
    | inr (p, some_e) ↦
        let lower : p.view < b.view = a p some_e in
        rw (e, some_e) (extends_loop-total f chain p t d (d b.parent p some_e) (omega arith))
  ]
]

-- Where the views fall along the branches, from the block on, the loop of `Extends` ends.
pub extends-total :
    (chain : BlockChain) (b t : Block)
    → IsDescending chain
    → IsAboveParent chain b
    → (r : Bool) × (extends chain b t ≡ ok r)
unfolding extends
extends-total chain b t d a = extends_loop-total (extends_fuel chain b) chain b t d a (omega arith)

Ancestor-view :
    {chain : BlockChain} {b a : Block}
    → IsDescending chain
    → IsAboveParent chain b
    → Ancestor chain b a
    → a.view ≤ b.view
Ancestor-view d h (self b) = omega arith
Ancestor-view d h (parent {b = b} {p = p} e up) =
    omega (arith, Ancestor-view d (d b.parent p e) up, h p e)

extends_loop_complete :
    {chain : BlockChain} {b t : Block} (f : ℕ)
    → IsDescending chain
    → IsAboveParent chain b
    → Ancestor chain b t
    → b.view < f
    → extends_loop f chain b t ≡ ok true
unfolding extends_loop
extends_loop_complete zero d above a h = absurd (omega arith)
extends_loop_complete (suc f) d above (self b) h = ground (arith, bytes_beq_refl b.hash)
extends_loop_complete {chain} {b} {t} (suc f) d above (parent {p = p} e up) h =
    let lower : p.view < b.view = above p e in
    let next = d b.parent p e in
    let target : t.view ≤ p.view = Ancestor-view d next up in
    rw (lt→ltb t.view b.view (omega arith), e) (extends_loop_complete f d next up (omega arith))

-- Where the views fall along the branches, from the block on, `Extends` answers yes for every
-- ancestor of the block.
pub extends_complete :
    (chain : BlockChain) (b t : Block)
    → IsDescending chain
    → IsAboveParent chain b
    → Ancestor chain b t
    → extends chain b t ≡ ok true
unfolding extends
extends_complete chain b t d above a =
    extends_loop_complete (extends_fuel chain b) d above a (omega arith)
