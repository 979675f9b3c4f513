-- ===== src/Message/Block/Cached.antt =====
-- The hashes that a CoinBlockHeader of deps/CoinCore/src/CoinNodeData.cpp keeps, and the operations
-- that change the header or ask for a hash.
use m_signa.Prelude.{
  ℕ, ◌+◌, ◌%◌, ◌^◌, ◌≡◌, refl, ap, ◌∙◌, List, [], ◌∷◌, Bool, true, false, map, reverse,
}
use m_signa.Result.{Result, ok, err}
use m_signa.Bytes.{Bytes, Error}
use m_signa.BlockHeader.{BlockHeader, put_header, get_header, header_hash}
use m_signa.Transaction.{Transaction}
use m_signa.MerkleTree.{get_root_little_endian}
use m_signa.Message.Block.{tx_hash}

-- A header with its hashes. They mean nothing while their flags are not set.
pub record CachedHeader : Type 0 where
  pub header : BlockHeader
  pub hash : Bytes
  pub hash_little_endian : Bytes
  pub is_hash_set : Bool
  pub pow_hash : Bytes
  pub pow_hash_little_endian : Bytes
  pub is_pow_hash_set : Bool

-- CoinBlockHeader::resetHash
unfoldable pub reset_hash : CachedHeader → CachedHeader
reset_hash c = record c { is_hash_set = false; is_pow_hash_set = false }

-- The constructor from the fields.
unfoldable pub new_header : BlockHeader → CachedHeader
new_header h = record {
  header = h;
  hash = [];
  hash_little_endian = [];
  is_hash_set = false;
  pow_hash = [];
  pow_hash_little_endian = [];
  is_pow_hash_set = false;
}

-- CoinBlockHeader::set
unfoldable pub set_fields : BlockHeader → CachedHeader → CachedHeader
set_fields h c = record c { header = h; is_hash_set = false; is_pow_hash_set = false }

-- CoinBlockHeader::nonce
unfoldable pub set_nonce : ℕ → CachedHeader → CachedHeader
set_nonce n c = record c {
  header = record c.header { nonce = n };
  is_hash_set = false;
  is_pow_hash_set = false;
}

-- CoinBlockHeader::incrementNonce
unfoldable pub increment_nonce : CachedHeader → CachedHeader
increment_nonce c = record c {
  header = record c.header { nonce = (c.header.nonce + 1) % 2 ^ 32 };
  is_hash_set = false;
  is_pow_hash_set = false;
}

-- CoinBlockHeader::setSerialized on an object. It throws before it changes a field.
unfoldable pub read_header : Bytes → CachedHeader → CachedHeader
unfolding reset_hash
read_header bytes c = elim (get_header bytes) [
  | err e ↦ c
  | ok h ↦ reset_hash (record c { header = h })
]

-- CoinBlock::updateMerkleRoot, on the header of a block with these transactions.
unfoldable pub update_root : (Bytes → Bytes) → List Transaction → CachedHeader → CachedHeader
unfolding reset_hash
update_root sha256_2 txs c =
    let root = get_root_little_endian sha256_2 (map (tx_hash sha256_2) txs) in
    reset_hash (record c { header = record c.header { merkle_root = root } })

-- What a client may do with a header.
pub data Operation : Type 0 where
  fields_set : BlockHeader → Operation
  nonce_set : ℕ → Operation
  nonce_incremented : Operation
  bytes_read : Bytes → Operation
  root_updated : List Transaction → Operation
  hash_asked hash_little_endian_asked : Operation
  pow_hash_asked pow_hash_little_endian_asked : Operation

module _ (hashfunc : Bytes → Bytes) where
  -- `if (!isHashSet_) { ... }` of getHash and getHashLittleEndian.
  abbrev fill_unless : Bool → CachedHeader → CachedHeader
  fill_unless true c = c
  fill_unless false c = record c {
    hash = hashfunc (put_header c.header);
    hash_little_endian = reverse (hashfunc (put_header c.header));
    is_hash_set = true;
  }

  abbrev pub fill_hash : CachedHeader → CachedHeader
  fill_hash c = fill_unless c.is_hash_set c

  -- CoinBlockHeader::getHash and getHashLittleEndian
  unfoldable pub get_hash : CachedHeader → Bytes × CachedHeader
  get_hash c = let c' = fill_hash c in (c'.hash, c')

  unfoldable pub get_hash_little_endian : CachedHeader → Bytes × CachedHeader
  get_hash_little_endian c = let c' = fill_hash c in (c'.hash_little_endian, c')

module _ (powhashfunc : Bytes → Bytes) where
  -- `if (!isPOWHashSet_) { ... }` of getPOWHash and getPOWHashLittleEndian.
  abbrev fill_pow_unless : Bool → CachedHeader → CachedHeader
  fill_pow_unless true c = c
  fill_pow_unless false c = record c {
    pow_hash = powhashfunc (put_header c.header);
    pow_hash_little_endian = reverse (powhashfunc (put_header c.header));
    is_pow_hash_set = true;
  }

  abbrev pub fill_pow_hash : CachedHeader → CachedHeader
  fill_pow_hash c = fill_pow_unless c.is_pow_hash_set c

  -- CoinBlockHeader::getPOWHash and getPOWHashLittleEndian
  unfoldable pub get_pow_hash : CachedHeader → Bytes × CachedHeader
  get_pow_hash c = let c' = fill_pow_hash c in (c'.pow_hash, c')

  unfoldable pub get_pow_hash_little_endian : CachedHeader → Bytes × CachedHeader
  get_pow_hash_little_endian c = let c' = fill_pow_hash c in (c'.pow_hash_little_endian, c')

module _ (hashfunc powhashfunc sha256_2 : Bytes → Bytes) where
  unfoldable pub run : Operation → CachedHeader → CachedHeader
  unfolding set_fields set_nonce increment_nonce read_header update_root get_hash
      get_hash_little_endian get_pow_hash get_pow_hash_little_endian
  run (fields_set h) c = set_fields h c
  run (nonce_set n) c = set_nonce n c
  run nonce_incremented c = increment_nonce c
  run (bytes_read bytes) c = read_header bytes c
  run (root_updated txs) c = update_root sha256_2 txs c
  run hash_asked c = (get_hash hashfunc c).1
  run hash_little_endian_asked c = (get_hash_little_endian hashfunc c).1
  run pow_hash_asked c = (get_pow_hash powhashfunc c).1
  run pow_hash_little_endian_asked c = (get_pow_hash_little_endian powhashfunc c).1

  unfoldable pub run_all : List Operation → CachedHeader → CachedHeader
  unfolding run
  run_all [] c = c
  run_all (o ∷ os) c = run_all os (run o c)

  -- A hash whose flag is set is that of the header as it is now.
  record IsFresh (c : CachedHeader) : Type 0 where
    pub hash_eq :
        c.is_hash_set ≡ true
        → (c.hash ≡ hashfunc (put_header c.header)) × (c.hash_little_endian ≡ reverse c.hash)
    pub pow_eq :
        c.is_pow_hash_set ≡ true
        → (c.pow_hash ≡ powhashfunc (put_header c.header))
          × (c.pow_hash_little_endian ≡ reverse c.pow_hash)

  unset-IsFresh : (c : CachedHeader) → c.is_hash_set ≡ false → c.is_pow_hash_set ≡ false → IsFresh c
  unset-IsFresh c e f = record { hash_eq = λ g. cc (e, g); pow_eq = λ g. cc (f, g) }

  fill_hash-IsFresh : (c : CachedHeader) → IsFresh c → IsFresh (fill_hash hashfunc c)
  fill_hash-IsFresh c f = from c.is_hash_set
    where
      from : (b : Bool) → IsFresh (fill_unless hashfunc b c)
      from true = f
      from false = record { hash_eq = λ g. (refl, refl); pow_eq = f.pow_eq }

  fill_pow_hash-IsFresh : (c : CachedHeader) → IsFresh c → IsFresh (fill_pow_hash powhashfunc c)
  fill_pow_hash-IsFresh c f = from c.is_pow_hash_set
    where
      from : (b : Bool) → IsFresh (fill_pow_unless powhashfunc b c)
      from true = f
      from false = record { hash_eq = f.hash_eq; pow_eq = λ g. (refl, refl) }

  read_header-IsFresh :
      (bytes : Bytes) (c : CachedHeader) → IsFresh c → IsFresh (read_header bytes c)
  unfolding read_header reset_hash
  read_header-IsFresh bytes c f = from (get_header bytes)
    where
      from :
          (r : Result Error BlockHeader)
          → IsFresh (elim r [ err e ↦ c | ok h ↦ reset_hash (record c { header = h }) ])
      from (err e) = f
      from (ok h) = unset-IsFresh (reset_hash (record c { header = h })) refl refl

  run-IsFresh : (o : Operation) (c : CachedHeader) → IsFresh c → IsFresh (run o c)
  unfolding run set_fields set_nonce increment_nonce update_root reset_hash get_hash
      get_hash_little_endian get_pow_hash get_pow_hash_little_endian
  run-IsFresh (fields_set h) c f = unset-IsFresh _ refl refl
  run-IsFresh (nonce_set n) c f = unset-IsFresh _ refl refl
  run-IsFresh nonce_incremented c f = unset-IsFresh _ refl refl
  run-IsFresh (bytes_read bytes) c f = read_header-IsFresh bytes c f
  run-IsFresh (root_updated txs) c f = unset-IsFresh _ refl refl
  run-IsFresh hash_asked c f = fill_hash-IsFresh c f
  run-IsFresh hash_little_endian_asked c f = fill_hash-IsFresh c f
  run-IsFresh pow_hash_asked c f = fill_pow_hash-IsFresh c f
  run-IsFresh pow_hash_little_endian_asked c f = fill_pow_hash-IsFresh c f

  run_all-IsFresh : (os : List Operation) (c : CachedHeader) → IsFresh c → IsFresh (run_all os c)
  unfolding run_all
  run_all-IsFresh [] c f = f
  run_all-IsFresh (o ∷ os) c f = run_all-IsFresh os (run o c) (run-IsFresh o c f)

  fill_hash-set :
      (c : CachedHeader)
      → ((fill_hash hashfunc c).is_hash_set ≡ true) × ((fill_hash hashfunc c).header ≡ c.header)
  fill_hash-set c = from c.is_hash_set refl
    where
      from :
          (b : Bool)
          → c.is_hash_set ≡ b
          → ((fill_unless hashfunc b c).is_hash_set ≡ true)
            × ((fill_unless hashfunc b c).header ≡ c.header)
      from true e = (e, refl)
      from false e = (refl, refl)

  fill_pow_hash-set :
      (c : CachedHeader)
      → ((fill_pow_hash powhashfunc c).is_pow_hash_set ≡ true)
        × ((fill_pow_hash powhashfunc c).header ≡ c.header)
  fill_pow_hash-set c = from c.is_pow_hash_set refl
    where
      from :
          (b : Bool)
          → c.is_pow_hash_set ≡ b
          → ((fill_pow_unless powhashfunc b c).is_pow_hash_set ≡ true)
            × ((fill_pow_unless powhashfunc b c).header ≡ c.header)
      from true e = (e, refl)
      from false e = (refl, refl)

  -- After any sequence of these operations on a new header object (changes of the fields or the nonce,
  -- reads from bytes, updates of the Merkle root, and earlier calls for hashes), each of the four hash
  -- functions returns the hash of the header as it is then, in its byte order: no stale hash is
  -- returned.
  pub get_hash-run_all :
      (os : List Operation) (h : BlockHeader)
      → let c = run_all os (new_header h) in
        ((get_hash hashfunc c).0 ≡ hashfunc (put_header c.header))
        × ((get_hash_little_endian hashfunc c).0 ≡ header_hash hashfunc c.header)
        × ((get_pow_hash powhashfunc c).0 ≡ powhashfunc (put_header c.header))
        × ((get_pow_hash_little_endian powhashfunc c).0 ≡ header_hash powhashfunc c.header)
  unfolding get_hash get_hash_little_endian get_pow_hash get_pow_hash_little_endian header_hash
  get_hash-run_all os h =
      let c : CachedHeader = run_all os (new_header h) in
      let start : IsFresh (new_header h) =
        unfold new_header in unset-IsFresh (new_header h) refl refl in
      let f = run_all-IsFresh os (new_header h) start in
      let (set, same) = fill_hash-set c in
      let (pow_set, pow_same) = fill_pow_hash-set c in
      let (e1, e2) = (fill_hash-IsFresh c f).hash_eq set in
      let (e3, e4) = (fill_pow_hash-IsFresh c f).pow_eq pow_set in
      let first = e1 ∙ ap (λ (x : BlockHeader). hashfunc (put_header x)) same in
      let third = e3 ∙ ap (λ (x : BlockHeader). powhashfunc (put_header x)) pow_same in
      (first, e2 ∙ ap reverse first, third, e4 ∙ ap reverse third)
