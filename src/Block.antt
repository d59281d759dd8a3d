-- ===== src/Block.antt =====
-- model/block.go. A timestamp is the uint64 that `UnixNano` gives; `time.Now()` is an argument.
use basic_hotstuff.Prelude.{ℕ, ◌*◌, ◌≡◌, refl, [], ◌++◌, Bytes, Result, ok, ◌>>=◌}
use basic_hotstuff.Encoding.{put_le}
use basic_hotstuff.Types.{Id32, View, Hash, QuorumCert, zero_hash, zero_qc, qc_to_bytes}
use basic_hotstuff.Primitives.{Primitives}

pub record Block : Type 0 where
  pub hash : Hash
  pub parent : Hash
  pub proposer : Id32
  pub cmd : Bytes
  pub cert : QuorumCert
  pub view : View
  pub ts : ℕ

-- `Block.ToBytes`.
unfoldable pub block_to_bytes : Block → Result Bytes
block_to_bytes b = do
  cert ← qc_to_bytes b.cert
  ok (b.parent ++ (put_le 4 b.proposer ++ (put_le 8 b.view ++ (b.cmd ++ (cert ++ put_le 8 b.ts)))))

-- `SetTimestamp`: the hash is computed again.
unfoldable pub set_timestamp : Primitives → Block → ℕ → Result Block
unfolding block_to_bytes
set_timestamp p b ts = do
  let stamped = record b { ts = ts }
  bytes ← block_to_bytes stamped
  ok (record stamped { hash = p.sha256 bytes })

-- `NewBlock`, at the time `now`.
unfoldable pub new_block : Primitives → ℕ → Hash → QuorumCert → Bytes → View → Id32 → Result Block
unfolding set_timestamp
new_block p now parent cert cmd view proposer =
    set_timestamp p
      (record {
        hash = zero_hash;
        parent = parent;
        proposer = proposer;
        cmd = cmd;
        cert = cert;
        view = view;
        ts = now;
      })
      now

-- 2025-01-01 00:00:00 UTC in nanoseconds.
abbrev pub genesis_time : ℕ
genesis_time = 1735689600 * 1000000000

-- The initialiser of `genesisBlock`.
unfoldable pub genesis_block : Primitives → ℕ → Result Block
unfolding new_block set_timestamp
genesis_block p now = do
  b ← new_block p now zero_hash zero_qc [] 0 0
  set_timestamp p b genesis_time

-- `GetGenesis`: the value of that initialiser.
unfoldable pub get_genesis : Primitives → Block
get_genesis p = record {
  hash = p.sha256 (
      zero_hash
      ++ (put_le 4 0
          ++ (put_le 8 0 ++ ([] ++ ((put_le 8 0 ++ (zero_hash ++ [])) ++ put_le 8 genesis_time)))));
  parent = zero_hash;
  proposer = 0;
  cmd = [];
  cert = zero_qc;
  view = 0;
  ts = genesis_time;
}

-- The initialiser succeeds whatever the time, with that value.
pub genesis_block-eq : (p : Primitives) (now : ℕ) → genesis_block p now ≡ ok (get_genesis p)
unfolding genesis_block get_genesis qc_to_bytes
genesis_block-eq p now = refl
