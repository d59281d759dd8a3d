-- ===== src/BlockChain.antt =====
-- service/blockchain.go: the stored blocks by hash and by view.
-- The field pruneHeight is used nowhere, and the mutex guards single operations.
pub mod Ancestry
pub mod Cleaning
use basic_hotstuff.Prelude.{
  ℕ, zero, suc, ◌+◌, List, [], Option, none, some, Bool, true, false, Map, lookup, insert, erase,
  nat_eq, bytes_eq, Result, ok, hang, ltb, bytes_beq, if◌then◌else◌, length,
}
use basic_hotstuff.Types.{View, Hash}
use basic_hotstuff.Primitives.{Primitives}
use basic_hotstuff.Block.{Block, get_genesis}

pub record BlockChain : Type 0 where
  pub blocks : Map Hash Block
  pub block_at_height : Map View Block

unfoldable pub store : Block → BlockChain → BlockChain
store b chain = record {
  blocks = insert b.hash b chain.blocks;
  block_at_height = insert b.view b chain.block_at_height;
}

unfoldable pub new_block_chain : Primitives → BlockChain
unfolding store
new_block_chain p = store (get_genesis p) (record { blocks = []; block_at_height = [] })

-- `Get`, and `LocalGet`, which does the same.
unfoldable pub get : Hash → BlockChain → Option Block
get h chain = lookup h chain.blocks

-- The loop of `Extends`, for at most the given number of rounds.
unfoldable pub extends_loop : ℕ → BlockChain → Block → Block → Result Bool
extends_loop zero chain current target = hang
extends_loop (suc f) chain current target =
    if ltb target.view current.view
    then elim (get current.parent chain) [
      | none ↦ ok false
      | some parent ↦ extends_loop f chain parent target
    ]
    else ok (bytes_beq current.hash target.hash)

-- A loop that goes on for longer than there are stored blocks meets one of them again and never
-- ends: it hangs. So it has one round for each block, and one for each view, which is what the lemmas count.
abbrev pub extends_fuel : BlockChain → Block → ℕ
extends_fuel chain block = suc (suc (length chain.blocks + block.view))

unfoldable pub extends : BlockChain → Block → Block → Result Bool
unfolding extends_loop get
extends chain block target = extends_loop (extends_fuel chain block) chain block target

-- `Clean`: the block three generations up goes, if it is there.
unfoldable pub clean : Block → BlockChain → BlockChain
unfolding get
clean block chain = elim (get block.parent chain) [
  | none ↦ chain
  | some parent ↦ elim (get parent.parent chain) [
    | none ↦ chain
    | some grand_parent ↦ elim (get grand_parent.parent chain) [
      | none ↦ chain
      | some target ↦ record {
        blocks = erase target.hash chain.blocks;
        block_at_height = erase target.view chain.block_at_height;
      }
    ]
  ]
]
