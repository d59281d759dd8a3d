-- ===== src/Encoding.antt =====
-- Numbers as bytes: encoding/binary's fixed-width forms, and the magnitude bytes of math/big, as
-- types/types.go, model/block.go and crypto/ecdsa use them.
use basic_hotstuff.Prelude.{
  ℕ, zero, suc, ◌+◌, ◌*◌, ◌/◌, ◌%◌, ◌^◌, ◌≤◌, ◌<◌, ◌≡◌, refl, [], ◌∷◌, arith, Bytes, nat_beq,
  if◌then◌else◌, length, Bool-cases, inl, inr,
}
use mathlib.Core.List.{reverse}
use native.Mathlib.Nat.{pow-suc}

abbrev pub u32_mod : ℕ
u32_mod = 4294967296

abbrev pub u64_mod : ℕ
u64_mod = 18446744073709551616

-- `binary.LittleEndian.PutUint32` and `PutUint64`, for a width in bytes.
unfoldable pub put_le : ℕ → ℕ → Bytes
put_le zero v = []
put_le (suc w) v = (v % 256) ∷ put_le w (v / 256)

-- `binary.BigEndian.PutUint64`.
unfoldable pub put_be : ℕ → ℕ → Bytes
unfolding put_le
put_be w v = reverse (put_le w v)

pub get_le : Bytes → ℕ
get_le [] = 0
get_le (b ∷ bs) = b + 256 * get_le bs

pub length-put_le : (w v : ℕ) → length (put_le w v) ≡ w
unfolding put_le
length-put_le zero v = refl
length-put_le (suc w) v = omega (arith, length-put_le w (v / 256))

pub get_le-put_le : (w v : ℕ) → v < 256 ^ w → get_le (put_le w v) ≡ v
unfolding get_le put_le
get_le-put_le zero v h = omega arith
get_le-put_le (suc w) v h = omega (arith, get_le-put_le w (v / 256) (omega (arith, pow-suc 256 w)))

pub put_le-injective : (w v u : ℕ) → v < 256 ^ w → u < 256 ^ w → put_le w v ≡ put_le w u → v ≡ u
put_le-injective w v u hv hu e = ground (arith, get_le-put_le w v, get_le-put_le w u)

-- `big.Int.Bytes`: big-endian, without leading zeros. A number has fewer bytes than its value.
big_bytes_from : ℕ → ℕ → Bytes → Bytes
big_bytes_from zero v acc = acc
big_bytes_from (suc f) v acc =
    let rest = big_bytes_from f (v / 256) ((v % 256) ∷ acc) in if nat_beq v 0 then acc else rest

unfoldable pub big_bytes : ℕ → Bytes
unfolding big_bytes_from
big_bytes v = big_bytes_from v v []

-- `big.Int.SetBytes`.
set_bytes_from : ℕ → Bytes → ℕ
set_bytes_from acc [] = acc
set_bytes_from acc (b ∷ bs) = set_bytes_from (acc * 256 + b) bs

unfoldable pub set_bytes : Bytes → ℕ
unfolding set_bytes_from
set_bytes bs = set_bytes_from 0 bs

big_bytes_from_lem :
    (f v : ℕ) (acc : Bytes)
    → v ≤ f
    → set_bytes_from 0 (big_bytes_from f v acc) ≡ set_bytes_from v acc
unfolding big_bytes_from set_bytes_from
big_bytes_from_lem zero v acc h = ap_first (omega arith)
  where
    ap_first : 0 ≡ v → set_bytes_from 0 acc ≡ set_bytes_from v acc
    ap_first e = rw (← e)
big_bytes_from_lem (suc f) v acc h = elim (Bool-cases (nat_beq v 0)) [
  | inl e ↦ ground arith
  | inr e ↦ ground (arith, big_bytes_from_lem f (v / 256) ((v % 256) ∷ acc))
]

pub set_bytes-big_bytes : (v : ℕ) → set_bytes (big_bytes v) ≡ v
unfolding set_bytes big_bytes
set_bytes-big_bytes v = big_bytes_from_lem v v [] (omega arith)
