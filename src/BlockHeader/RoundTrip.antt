-- ===== src/BlockHeader/RoundTrip.antt =====
-- CoinBlockHeader, written and read.
use m_signa.Prelude.{
  ℕ, ◌≤◌, ◌≡◌, sym, ap, ◌∙◌, ◌++◌, le→leb, length, length-append, length-reverse, append_assoc,
  reverse, reverse-reverse, arith,
}
use m_signa.Result.{ok}
use m_signa.Bytes.{Bytes, IsU32, little_endian, uint_to_vch}
use m_signa.Bytes.Numeric.{length-uint_to_vch, vch_to_uint-uint_to_vch}
use m_signa.Bytes.Cursor.{At, At-skip, At-next, slice-At}
use m_signa.VarInt.RoundTrip.{uint_at-At}
use m_signa.BlockHeader.{BlockHeader, put_header, get_header}

-- What the C++ types of the fields give, and two hashes of 32 bytes.
pub record IsHeader (h : BlockHeader) : Type 0 where
  pub version_u32 : IsU32 h.version
  pub prev_size : length h.prev_block_hash ≡ 32
  pub root_size : length h.merkle_root ≡ 32
  pub timestamp_u32 : IsU32 h.timestamp
  pub bits_u32 : IsU32 h.bits
  pub nonce_u32 : IsU32 h.nonce

pub length-put_header : (h : BlockHeader) → IsHeader h → length (put_header h) ≡ 80
unfolding put_header
length-put_header h v = simp length-append (
    omega (
      arith,
      length-uint_to_vch 4 h.version little_endian,
      length-uint_to_vch 4 h.timestamp little_endian,
      length-uint_to_vch 4 h.bits little_endian,
      length-uint_to_vch 4 h.nonce little_endian,
      length-reverse h.prev_block_hash,
      length-reverse h.merkle_root,
      v.prev_size,
      v.root_size,
    ))

-- Every header with 32-byte hashes is read back as it was written, whatever follows it.
pub get_header-put_header :
    (h : BlockHeader) (rest : Bytes) → IsHeader h → get_header (put_header h ++ rest) ≡ ok h
get_header-put_header h rest v =
    let w4 = λ (n : ℕ). uint_to_vch 4 n little_endian in
    let s4 = λ (n : ℕ). length-uint_to_vch 4 n little_endian in
    let prev : Bytes = reverse h.prev_block_hash in
    let root : Bytes = reverse h.merkle_root in
    let prev_size : length prev ≡ 32 = length-reverse h.prev_block_hash ∙ v.prev_size in
    let root_size : length root ≡ 32 = length-reverse h.merkle_root ∙ v.root_size in
    let t3 : Bytes = w4 h.nonce ++ rest in
    let t2 : Bytes = w4 h.bits ++ t3 in
    let t1 : Bytes = w4 h.timestamp ++ t2 in
    let bytes : Bytes = w4 h.version ++ (prev ++ (root ++ t1)) in
    let shape : put_header h ++ rest ≡ bytes = unfold put_header in simp append_assoc in
    let long : 80 ≤ length bytes =
      omega
        (arith, ap length (sym shape), length-append (put_header h) rest, length-put_header h v) in
    let a1 : At 4 bytes (prev ++ (root ++ t1)) = At-skip 4 (w4 h.version) _ (s4 h.version) in
    let a2 : At 36 bytes (root ++ t1) = At-next 4 36 bytes prev _ a1 (omega arith) in
    let a3 : At 68 bytes t1 = At-next 36 68 bytes root _ a2 (omega arith) in
    let a4 : At 72 bytes t2 =
      At-next 68 72 bytes (w4 h.timestamp) _ a3 (omega (arith, s4 h.timestamp)) in
    let a5 : At 76 bytes t3 = At-next 72 76 bytes (w4 h.bits) _ a4 (omega (arith, s4 h.bits)) in
    unfold get_header in
    rw (
      shape,
      le→leb 80 _ long,
      vch_to_uint-uint_to_vch 4 h.version little_endian (prev ++ (root ++ t1)) v.version_u32,
      slice-At 4 36 bytes prev (root ++ t1) a1 (omega arith),
      slice-At 36 68 bytes root t1 a2 (omega arith),
      uint_at-At 4 68 h.timestamp bytes t2 v.timestamp_u32 a3,
      uint_at-At 4 72 h.bits bytes t3 v.bits_u32 a4,
      uint_at-At 4 76 h.nonce bytes rest v.nonce_u32 a5,
      reverse-reverse h.prev_block_hash,
      reverse-reverse h.merkle_root,
    )
