-- ===== src/Primitives.antt =====
-- What crypto/ecdsa and model/block.go take from Go's crypto packages: SHA-256 and ECDSA. Keys are
-- handles; the randomness that `ecdsa.Sign` draws is an argument.
use basic_hotstuff.Prelude.{ℕ, Bytes, Option, some, Bool, true, ◌≡◌}

pub record Primitives : Type 0 where
  pub sha256 : Bytes → Bytes
  -- private key, randomness, digest; `none` is an error
  pub ecdsa_sign : ℕ → ℕ → Bytes → Option (ℕ × ℕ)
  -- public key, digest, r, s
  pub ecdsa_verify : ℕ → Bytes → ℕ → ℕ → Bool

-- The documented behaviour of `ecdsa.Verify`: it accepts what `ecdsa.Sign` made of the same digest
-- with the private key that belongs to the public key.
abbrev pub KeyPair : Primitives → ℕ → ℕ → Type 0
KeyPair p private_key public_key =
    (nonce : ℕ) (digest : Bytes) (r s : ℕ)
    → p.ecdsa_sign private_key nonce digest ≡ some (r, s)
    → p.ecdsa_verify public_key digest r s ≡ true
