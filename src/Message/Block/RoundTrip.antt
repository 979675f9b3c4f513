-- ===== src/Message/Block/RoundTrip.antt =====
-- MerkleBlock and HeadersMessage, written and read.
use m_signa.Prelude.{
  ℕ, ◌+◌, ◌*◌, ◌%◌, ◌^◌, ◌≤◌, ◌<◌, ◌≡◌, refl, sym, List, [], ◌∷◌, ◌++◌, le→leb, length,
  length-append, append_assoc, append-nil, All, arith,
}
use mathlib.Core.Path.{subst}
use m_signa.Result.{ok}
use m_signa.Bytes.{Bytes, IsU32, add32, add64, little_endian, uint_to_vch}
use m_signa.Bytes.Numeric.{length-uint_to_vch}
use m_signa.Bytes.Cursor.{At, At-skip, At-next, At-length, slice-At, suffix-At}
use m_signa.Bytes.Loop.{flat, Fixed, read_fixed-flat, length-flat}
use m_signa.VarInt.{var_int_size, put_var_int}
use m_signa.VarInt.RoundTrip.{
  uint_at-At, length-put_var_int, var_int_size_bounds, get_var_int-put_var_int,
}
use m_signa.BlockHeader.{BlockHeader, put_header, get_header}
use m_signa.BlockHeader.RoundTrip.{IsHeader, length-put_header, get_header-put_header}
use m_signa.PartialMerkleTree.{PartialMerkleTree, MerkleLeaf, set_uncompressed}
use m_signa.PartialMerkleTree.Serial.{set_compressed-set_uncompressed}
use m_signa.Message.Block.{
  MerkleBlock, merkle_block_of, merkle_tree, put_merkle_block, get_merkle_block, get_hash,
  put_header_item, put_headers_message, get_headers_message, headers_message_size,
  merkle_block_size,
}

header_item-Fixed : (h : BlockHeader) → IsHeader h → Fixed put_header_item get_header 80 81 h
header_item-Fixed h v = record {
  front = put_header h;
  pad = 0 ∷ [];
  shape = refl;
  front_size = length-put_header h v;
  pad_size = refl;
  parsed = rw (append-nil (put_header h)) at (get_header-put_header h [] v);
}

header_items-Fixed :
    (hs : List BlockHeader) → All IsHeader hs → All (Fixed put_header_item get_header 80 81) hs
header_items-Fixed [] v = tt
header_items-Fixed (h ∷ hs) v = (header_item-Fixed h v.0, header_items-Fixed hs v.1)

header_items_size :
    (hs : List BlockHeader) → All IsHeader hs → All (λ h. length (put_header_item h) ≡ 81) hs
header_items_size [] v = tt
header_items_size (h ∷ hs) v = (
  omega (arith, length-append (put_header h) (0 ∷ []), length-put_header h v.0),
  header_items_size hs v.1,
)

-- `getSize` of a headers message is the number of bytes that it is written as.
pub length-put_headers_message :
    (headers : List BlockHeader)
    → All IsHeader headers
    → length (put_headers_message headers) ≡ headers_message_size headers
unfolding put_headers_message headers_message_size
length-put_headers_message headers v = omega (
  arith,
  length-append (put_var_int (length headers)) (flat put_header_item headers),
  length-put_var_int (length headers),
  length-flat put_header_item 81 headers (header_items_size headers v),
)

-- A headers message shorter than 2 ^ 32 bytes is read back as it was written, whatever follows it.
pub get_headers_message-put_headers_message :
    (headers : List BlockHeader) (rest : Bytes)
    → All IsHeader headers
    → length (put_headers_message headers ++ rest) < 2 ^ 32
    → get_headers_message (put_headers_message headers ++ rest) ≡ ok headers
get_headers_message-put_headers_message headers rest v h =
    let n : ℕ = length headers in
    let items : Bytes = flat put_header_item headers in
    let bytes : Bytes = put_var_int n ++ (items ++ rest) in
    let shape : put_headers_message headers ++ rest ≡ bytes =
      unfold put_headers_message in append_assoc (put_var_int n) items rest in
    let short : length bytes < 2 ^ 32 = subst (λ (b : Bytes). length b < 2 ^ 32) shape h in
    let size = length-flat put_header_item 81 headers (header_items_size headers v) in
    let total = length-append (put_var_int n) (items ++ rest) in
    let parts = length-append items rest in
    let fits : (var_int_size n + n * 81) % 2 ^ 64 ≤ length bytes =
      omega (arith, size, total, parts, length-put_var_int n) in
    unfold get_headers_message in
    rw (
      shape,
      get_var_int-put_var_int n (items ++ rest) (omega (arith, size, total, parts)),
      le→leb _ _ fits,
      read_fixed-flat put_header_item get_header 80 81 headers bytes rest (var_int_size n) short
          (header_items-Fixed headers v)
          (At-skip (var_int_size n) (put_var_int n) (items ++ rest) (length-put_var_int n)),
    )

-- What the types of the fields of a Merkle block give, and hashes of 32 bytes.
pub record IsMerkleBlock (b : MerkleBlock) : Type 0 where
  pub header : IsHeader b.header
  pub n_txs_u32 : IsU32 b.n_txs
  pub hash_sizes : All (λ (k : Bytes). length k ≡ 32) b.hashes
  pub some_flag : 0 < length b.flags

hashes-Fixed :
    (ks : List Bytes)
    → All (λ (k : Bytes). length k ≡ 32) ks
    → All (Fixed (λ (k : Bytes). k) get_hash 32 32) ks
hashes-Fixed [] v = tt
hashes-Fixed (k ∷ ks) v = (
  record {
    front = k;
    pad = [];
    shape = sym (append-nil k);
    front_size = v.0;
    pad_size = refl;
    parsed = refl;
  },
  hashes-Fixed ks v.1,
)

-- `getSize` of a Merkle block is the number of bytes that it is written as.
pub length-put_merkle_block :
    (b : MerkleBlock) → IsMerkleBlock b → length (put_merkle_block b) ≡ merkle_block_size b
unfolding put_merkle_block merkle_block_size
length-put_merkle_block b v = simp length-append (
    omega (
      arith,
      length-put_header b.header v.header,
      length-uint_to_vch 4 b.n_txs little_endian,
      length-put_var_int (length b.hashes),
      length-put_var_int (length b.flags),
      length-flat (λ (k : Bytes). k) 32 b.hashes v.hash_sizes,
    ))

-- A Merkle block shorter than 2 ^ 32 bytes is read back as it was written, whatever follows it.
pub get_merkle_block-put_merkle_block :
    (b : MerkleBlock) (rest : Bytes)
    → IsMerkleBlock b
    → length (put_merkle_block b ++ rest) < 2 ^ 32
    → get_merkle_block (put_merkle_block b ++ rest) ≡ ok b
get_merkle_block-put_merkle_block b rest v h =
    let head : Bytes = put_header b.header in
    let count : Bytes = uint_to_vch 4 b.n_txs little_endian in
    let n : ℕ = length b.hashes in
    let m : ℕ = length b.flags in
    let ks : Bytes = flat (λ (k : Bytes). k) b.hashes in
    let t4 : Bytes = b.flags ++ rest in
    let t3 : Bytes = put_var_int m ++ t4 in
    let t2 : Bytes = ks ++ t3 in
    let t1 : Bytes = put_var_int n ++ t2 in
    let bytes : Bytes = head ++ (count ++ t1) in
    let shape : put_merkle_block b ++ rest ≡ bytes = unfold put_merkle_block in simp append_assoc in
    let short : length bytes < 2 ^ 32 = subst (λ (x : Bytes). length x < 2 ^ 32) shape h in
    let sn = length-put_var_int n in
    let sm = length-put_var_int m in
    let bn = var_int_size_bounds n in
    let bm = var_int_size_bounds m in
    let s_count : length count ≡ 4 = length-uint_to_vch 4 b.n_txs little_endian in
    let s_head : length head ≡ 80 = length-put_header b.header v.header in
    let size = length-flat (λ (k : Bytes). k) 32 b.hashes v.hash_sizes in
    let flag = v.some_flag in
    let p1 : ℕ = 84 + var_int_size n in
    let p2 : ℕ = p1 + length ks in
    let p3 : ℕ = p2 + var_int_size m in
    let a0 : At 80 bytes (count ++ t1) = At-skip 80 head (count ++ t1) s_head in
    let a1 : At 84 bytes t1 = At-next 80 84 bytes count t1 a0 (omega (arith, s_count)) in
    let a2 : At p1 bytes t2 = At-next 84 p1 bytes (put_var_int n) t2 a1 (omega (arith, sn)) in
    let a3 : At p2 bytes t3 = At-next p1 p2 bytes ks t3 a2 refl in
    let a4 : At p3 bytes t4 = At-next p2 p3 bytes (put_var_int m) t4 a3 (omega (arith, sm)) in
    let total : length bytes ≡ p3 + m + length rest =
      omega (arith, At-length p3 bytes t4 a4, length-append b.flags rest) in
    let first : add32 84 (var_int_size n) ≡ p1 = omega (arith, total) in
    let last : add32 p2 (var_int_size m) ≡ p3 = omega (arith, total) in
    let long : 86 ≤ length bytes = omega (arith, total) in
    let fits : (p1 + n * 32 + 1) % 2 ^ 64 ≤ length bytes = omega (arith, total, size) in
    let inside : add64 p3 m ≤ length bytes = omega (arith, total) in
    let n_u64 : n < 2 ^ 64 = omega (arith, total, size) in
    let m_u64 : m < 2 ^ 64 = omega (arith, total) in
    unfold get_merkle_block in
    rw (
      shape,
      le→leb 86 _ long,
      get_header-put_header b.header (count ++ t1) v.header,
      uint_at-At 4 80 b.n_txs bytes t1 v.n_txs_u32 a0,
      suffix-At 84 bytes t1 a1,
      get_var_int-put_var_int n t2 n_u64,
      first,
      le→leb _ _ fits,
      read_fixed-flat (λ (k : Bytes). k) get_hash 32 32 b.hashes bytes t3 p1 short
          (hashes-Fixed b.hashes v.hash_sizes) a2,
      suffix-At p2 bytes t3 a3,
      get_var_int-put_var_int m t4 m_u64,
      last,
      le→leb _ _ inside,
      slice-At p3 (p3 + m) bytes b.flags rest a4 refl,
    )

-- A node that receives the Merkle block of a partial tree built over `leaves` rebuilds that tree from
-- the bytes, whatever follows them: same hashes, matched transactions and root.
pub merkle_tree-get_merkle_block :
    (sha256_2 : Bytes → Bytes) (leaves : List MerkleLeaf) (p : PartialMerkleTree)
    (header : BlockHeader) (rest : Bytes)
    → set_uncompressed sha256_2 leaves ≡ ok p
    → IsMerkleBlock (merkle_block_of p header)
    → length (put_merkle_block (merkle_block_of p header) ++ rest) < 2 ^ 32
    → (b : MerkleBlock) × (get_merkle_block (put_merkle_block (merkle_block_of p header) ++ rest)
        ≡ ok b)
      × (merkle_tree sha256_2 b ≡ ok p)
merkle_tree-get_merkle_block sha256_2 leaves p header rest e v h = (
  merkle_block_of p header,
  get_merkle_block-put_merkle_block (merkle_block_of p header) rest v h,
  set_compressed-set_uncompressed sha256_2 leaves p e,
)
