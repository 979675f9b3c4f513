-- ===== src/BlockHeader.antt =====
-- CoinBlockHeader of deps/CoinCore/src/CoinNodeData.cpp: the 80 bytes of a header, its hash, its
-- target and its work. A BigInt is a natural number.
pub mod RoundTrip
pub mod Target
use m_signa.Prelude.{
  ℕ, ◌+◌, ◌-◌, ◌*◌, ◌/◌, ◌%◌, ◌^◌, List, [], ◌∷◌, ◌++◌, Bool, true, false, leb, ◌==◌, ltb,
  if◌then◌else◌, length, reverse,
}
use m_signa.Result.{Result, ok, err, guard, ◌>>=◌, ◌>>◌}
use m_signa.Bytes.{
  Bytes, add32, Error, too_small, little_endian, uint_to_vch, uint_at, vch_to_uint, slice,
}

pub record BlockHeader : Type 0 where
  pub version : ℕ
  pub prev_block_hash : Bytes
  pub merkle_root : Bytes
  pub timestamp : ℕ
  pub bits : ℕ
  pub nonce : ℕ

-- CoinBlockHeader::getSerialized
unfoldable pub put_header : BlockHeader → Bytes
put_header h =
    uint_to_vch 4 h.version little_endian
    ++ (reverse h.prev_block_hash
        ++ (reverse h.merkle_root
            ++ (uint_to_vch 4 h.timestamp little_endian
                ++ (uint_to_vch 4 h.bits little_endian ++ uint_to_vch 4 h.nonce little_endian))))

-- CoinBlockHeader::setSerialized
unfoldable pub get_header : Bytes → Result Error BlockHeader
get_header bytes = do
  guard (leb 80 (length bytes)) too_small
  version ← vch_to_uint 4 bytes little_endian
  prev ← slice 4 36 bytes
  root ← slice 36 68 bytes
  timestamp ← uint_at 4 68 bytes little_endian
  bits ← uint_at 4 72 bytes little_endian
  nonce ← uint_at 4 76 bytes little_endian
  ok (record {
    version = version;
    prev_block_hash = reverse prev;
    merkle_root = reverse root;
    timestamp = timestamp;
    bits = bits;
    nonce = nonce;
  })

-- CoinBlockHeader::getHashLittleEndian, which is `hash()`; `hashfunc` is the static member.
unfoldable pub header_hash : (Bytes → Bytes) → BlockHeader → Bytes
unfolding put_header
header_hash hashfunc h = reverse (hashfunc (put_header h))

-- CoinBlockHeader::getTarget
unfoldable pub target_of_bits : ℕ → ℕ
target_of_bits bits =
    let n_exp = bits / 2 ^ 24 in
    let n_mantissa = bits % 2 ^ 23 in
    if leb n_exp 3 then n_mantissa / 2 ^ (8 * (3 - n_exp)) else n_mantissa * 2 ^ (8 * (n_exp - 3))

-- CoinBlockHeader::getWork
unfoldable pub work_of_bits : ℕ → ℕ
work_of_bits bits = if target_of_bits bits == 0 then 0 else 2 ^ 256 / (target_of_bits bits + 1)
