-- ===== src/Examples/Ledger.antt =====
-- Blocks, messages and commands in the stores of one replica, and responses at the client.
use basic_hotstuff.Prelude.{
  ℕ, List, [], ◌∷◌, none, some, ◌≡◌, ◌≤◌, refl, ok, Bool, true, arith, bytes_beq, bytes_eq, lookup,
  Bool-cases, inl, inr, ◌⊎◌, bytes_beq_iff,
}
use basic_hotstuff.Types.{Hash}
use basic_hotstuff.Block.{Block, get_genesis}
use basic_hotstuff.BlockChain.{BlockChain, get, extends, clean}
use basic_hotstuff.BlockChain.Ancestry.{
  Ancestor, self, parent, IsDescending, IsAboveParent, extends_sound, extends-total,
  extends_complete,
}
use basic_hotstuff.BlockChain.Cleaning.{IsKeyed, clean-keeps}
use basic_hotstuff.Client.{Response, new_client, send_responses}
use basic_hotstuff.Client.Counting.{count, signalled_once}
use basic_hotstuff.Examples.{hash_of_length, toy, genesis_qc, proposal}

abbrev genesis : Block
genesis = get_genesis toy

-- The genesis block and the proposal.
abbrev two_blocks : BlockChain
two_blocks = record {
  blocks = (hash_of_length 92, genesis) ∷ (hash_of_length 93, proposal) ∷ [];
  block_at_height = (0, genesis) ∷ (1, proposal) ∷ [];
}

-- A block of view 2 on the proposal.
abbrev child : Block
child = record {
  hash = hash_of_length 94;
  parent = hash_of_length 93;
  proposer = 2;
  cmd = 6 ∷ 6 ∷ [];
  cert = genesis_qc;
  view = 2;
  ts = 9;
}

two_blocks_cases :
    (h : Hash) (b : Block)
    → get h two_blocks ≡ some b
    → ((b ≡ genesis) × (h ≡ hash_of_length 92)) ⊎ ((b ≡ proposal) × (h ≡ hash_of_length 93))
unfolding get lookup get_genesis
two_blocks_cases h b e = elim (Bool-cases (bytes_beq (hash_of_length 92) h)) [
  | inl one ↦ let same = (bytes_beq_iff _ _).0 one in inl (ground arith, ground arith)
  | inr differs ↦ elim (Bool-cases (bytes_beq (hash_of_length 93) h)) [
    | inl two ↦ let same = (bytes_beq_iff _ _).0 two in inr (ground arith, ground arith)
    | inr missing ↦ absurd (ground arith)
  ]
]

two_blocks-IsDescending : IsDescending two_blocks
unfolding get_genesis get lookup bytes_beq
two_blocks-IsDescending h b e p ep = elim (two_blocks_cases h b e) [
  | inl (eb, eh) ↦ let gone : get b.parent two_blocks ≡ none = rw eb refl in absurd (ground arith)
  | inr (eb, eh) ↦
      let found : get b.parent two_blocks ≡ some genesis = rw eb refl in
      let same : genesis ≡ p = ground arith in rw (eb, ← same) (omega arith)
]

two_blocks-IsKeyed : IsKeyed two_blocks
unfolding get_genesis basic_hotstuff.Encoding.put_le
two_blocks-IsKeyed h b e = elim (two_blocks_cases h b e) [
  | inl (eb, eh) ↦ rw (eb, eh) refl
  | inr (eb, eh) ↦ rw (eb, eh) refl
]

child-IsAboveParent : IsAboveParent two_blocks child
unfolding get lookup bytes_beq
child-IsAboveParent p ep = let same : proposal ≡ p = ground arith in rw (← same) (omega arith)

extends_sound_example :
    (a : Block) × Ancestor two_blocks child a × (a.hash ≡ hash_of_length 92) × (a.view ≤ 0)
unfolding extends get_genesis get lookup bytes_beq basic_hotstuff.Encoding.put_le
extends_sound_example = extends_sound two_blocks child genesis refl

extends-total_example : (r : Bool) × (extends two_blocks child genesis ≡ ok r)
extends-total_example =
    extends-total two_blocks child genesis two_blocks-IsDescending child-IsAboveParent

extends_complete_example : extends two_blocks child genesis ≡ ok true
unfolding get_genesis get lookup bytes_beq
extends_complete_example =
    extends_complete two_blocks child genesis two_blocks-IsDescending child-IsAboveParent
      (parent {p = proposal} refl (parent {p = genesis} refl (self genesis)))

clean-keeps_example :
    (get (hash_of_length 93) (clean child two_blocks) ≡ some proposal)
    × (get (hash_of_length 92) (clean child two_blocks) ≡ some genesis)
unfolding get_genesis get lookup bytes_beq
clean-keeps_example =
    clean-keeps child proposal genesis two_blocks two_blocks-IsKeyed two_blocks-IsDescending refl
      refl

-- A response of one replica.
abbrev response_of : ℕ → ℕ → Response
response_of i cmd = record { result = 79 ∷ 75 ∷ []; cmd = cmd ∷ []; replica_id = i }

abbrev four_responses : List Response
four_responses = response_of 0 5 ∷ response_of 1 6 ∷ response_of 1 5 ∷ response_of 2 5 ∷ []

signalled_once_example : count (5 ∷ []) (send_responses four_responses (new_client 1)).signals ≡ 1
unfolding bytes_beq
signalled_once_example = signalled_once (5 ∷ []) four_responses 1 (omega arith)
