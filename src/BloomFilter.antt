-- ===== src/BloomFilter.antt =====
-- class BloomFilter of deps/CoinCore/src/BloomFilter.h and BloomFilter.cpp. The words of the hash are
-- numbers below 2 ^ 32, which wrap around; they are read in the byte order of x86. The products of
-- the constructor that are computed in floating point are parameters.
pub mod Bits
pub mod Insert
use Prim.Native.Nat.{bit_and, bit_or, bit_xor}
use m_signa.Prelude.{
  ℕ, zero, suc, ◌+◌, ◌-◌, ◌*◌, ◌/◌, ◌%◌, ◌^◌, min, List, [], ◌∷◌, Bool, true, false, ◌==◌,
  if◌then◌else◌, none, some, length, get_elem?, set, replicate,
}
use m_signa.Result.{Result, ok, err, guard, ◌>>=◌, ◌>>◌}
use m_signa.Bytes.{Bytes, add32}

-- Both are undefined in the source.
pub data FilterError : Type 0 where
  division_by_zero out_of_range : FilterError

pub record BloomFilter : Type 0 where
  pub is_set : Bool
  pub filter : Bytes
  pub full : Bool
  pub empty : Bool
  pub n_hash_funcs : ℕ
  pub n_tweak : ℕ
  pub n_flags : ℕ

-- ROTL32
abbrev pub rotl_32 : ℕ → ℕ → ℕ
rotl_32 x r = bit_or (x * 2 ^ r % 2 ^ 32) (x / 2 ^ (32 - r))

abbrev pub mul32 : ℕ → ℕ → ℕ
mul32 x y = x * y % 2 ^ 32

-- What is done to a word before it enters the hash.
abbrev pub scramble : ℕ → ℕ
scramble k = mul32 (rotl_32 (mul32 k 0xcc9e2d51) 15) 0x1b873593

-- The body of `murmurHash3`, and its tail.
unfoldable pub murmur_blocks : ℕ → Bytes → ℕ
murmur_blocks h [] = h
murmur_blocks h (a ∷ []) = bit_xor h (scramble a)
murmur_blocks h (a ∷ b ∷ []) = bit_xor h (scramble (bit_xor (b * 2 ^ 8) a))
murmur_blocks h (a ∷ b ∷ c ∷ []) =
    bit_xor h (scramble (bit_xor (bit_xor (c * 2 ^ 16) (b * 2 ^ 8)) a))
murmur_blocks h (a ∷ b ∷ c ∷ d ∷ rest) =
    murmur_blocks
      (add32 (mul32 (rotl_32 (bit_xor h (scramble (a + 2 ^ 8 * b + 2 ^ 16 * c + 2 ^ 24 * d))) 13) 5)
        0xe6546b64)
      rest

-- murmurHash3
unfoldable pub murmur_hash_3 : ℕ → Bytes → ℕ
unfolding murmur_blocks
murmur_hash_3 seed bytes =
    let h1 = bit_xor (murmur_blocks seed bytes) (length bytes) % 2 ^ 32 in
    let h2 = mul32 (bit_xor h1 (h1 / 2 ^ 16)) 0x85ebca6b in
    let h3 = mul32 (bit_xor h2 (h2 / 2 ^ 13)) 0xc2b2ae35 in bit_xor h3 (h3 / 2 ^ 16)

-- bit_mask
abbrev pub bit_mask : ℕ → ℕ
bit_mask i = 2 ^ i

-- BloomFilter::hash, of a filter of `size` bytes
unfoldable pub filter_hash : (size tweak n : ℕ) → Bytes → Result FilterError ℕ
unfolding murmur_hash_3
filter_hash size tweak n bytes = do
  guard (if size == 0 then false else true) division_by_zero
  ok (murmur_hash_3 (add32 (mul32 n 0xfba4c795) tweak) bytes % (size * 8))

-- `filter[index >> 3]`
unfoldable pub byte_of : Bytes → ℕ → Result FilterError ℕ
byte_of filter index = elim (get_elem? filter (index / 8)) [
  | none ↦ err out_of_range
  | some b ↦ ok b
]

-- `filter[index >> 3] |= bit_mask[7 & index];`
unfoldable pub set_bit : Bytes → ℕ → Result FilterError Bytes
unfolding byte_of
set_bit filter index = do
  b ← byte_of filter index
  ok (set filter (index / 8) (bit_or b (bit_mask (index % 8))))

module _ (tweak : ℕ) (bytes : Bytes) where
  -- The loop of `insert`, from `i` on, with `n` hashes to go.
  unfoldable pub insert_loop : (n i : ℕ) → Bytes → Result FilterError Bytes
  unfolding set_bit filter_hash
  insert_loop zero i filter = ok filter
  insert_loop (suc n) i filter = do
    index ← filter_hash (length filter) tweak i bytes
    filter' ← set_bit filter index
    insert_loop n (i + 1) filter'

  -- The loop of `match`.
  unfoldable pub match_loop : (n i : ℕ) → Bytes → Result FilterError Bool
  unfolding byte_of filter_hash
  match_loop zero i filter = ok true
  match_loop (suc n) i filter = do
    index ← filter_hash (length filter) tweak i bytes
    b ← byte_of filter index
    let rest = match_loop n (i + 1) filter
    if bit_and b (bit_mask (index % 8)) == 0 then ok false else rest

-- BloomFilter::clear
abbrev pub clear : BloomFilter → BloomFilter
clear f = record f { filter = [] }

-- BloomFilter::insert
unfoldable pub insert : BloomFilter → Bytes → Result FilterError BloomFilter
unfolding insert_loop
insert f bytes = if f.full then ok f else (do
  filter' ← insert_loop f.n_tweak bytes f.n_hash_funcs 0 f.filter
  ok (record f { filter = filter'; empty = false }))

-- BloomFilter::match
unfoldable pub matches : BloomFilter → Bytes → Result FilterError Bool
unfolding match_loop
matches f bytes =
    if f.full
    then ok true
    else (if f.empty then ok false else match_loop f.n_tweak bytes f.n_hash_funcs 0 f.filter)

-- BloomFilter::set and the constructor. `bits_wanted` is the first product, converted to an integer,
-- and `times_ln2` the multiplication by LN2.
unfoldable pub new_filter :
    (ℕ → ℕ) → (ℕ → ℕ) → (n_elements tweak flags : ℕ) → Result FilterError BloomFilter
new_filter bits_wanted times_ln2 n_elements tweak flags =
    let filter = replicate (min (bits_wanted n_elements) (36000 * 8) / 8) 0 in
    do
      guard (if n_elements == 0 then false else true) division_by_zero
      ok (record {
        is_set = true;
        filter = filter;
        full = false;
        empty = false;
        n_hash_funcs = min (times_ln2 (length filter * 8 / n_elements)) 50;
        n_tweak = tweak;
        n_flags = flags;
      })
