-- ===== src/Tests/Filter.antt =====
-- The Bloom filter and its hash on small inputs.
use m_signa.Prelude.{◌≡◌, refl, [], ◌∷◌, true, false, arith}
use m_signa.Result.{ok, err}
use m_signa.BloomFilter.{
  BloomFilter, clear, division_by_zero, murmur_hash_3, insert, matches, new_filter, match_loop,
  filter_hash, byte_of,
}
use m_signa.BloomFilter.Insert.{Inserted, insert-Inserted}

-- Values of MurmurHash3.
hash_of_nothing : murmur_hash_3 1 [] ≡ 0x514e28b7
unfolding murmur_hash_3
hash_of_nothing = refl

hash_of_zero : murmur_hash_3 0 (0 ∷ []) ≡ 0x514e28b7
unfolding murmur_hash_3
hash_of_zero = refl

hash_of_five : murmur_hash_3 0 (0x00 ∷ 0x11 ∷ 0x22 ∷ 0x33 ∷ 0x44 ∷ []) ≡ 0xe2301fa8
unfolding murmur_hash_3
hash_of_five = refl

abbrev small_filter : BloomFilter
small_filter = record {
  is_set = true;
  filter = 0 ∷ 0 ∷ 0 ∷ [];
  full = false;
  empty = false;
  n_hash_funcs = 5;
  n_tweak = 7;
  n_flags = 1;
}

made : new_filter (λ n. 24) (λ n. 5) 3 7 1 ≡ ok small_filter
unfolding new_filter
made = refl

nothing_matches : matches small_filter (1 ∷ 2 ∷ []) ≡ ok false
unfolding matches match_loop filter_hash byte_of murmur_hash_3
nothing_matches = refl

cleared : matches (clear small_filter) [] ≡ err division_by_zero
unfolding matches match_loop filter_hash
cleared = refl

insert-Inserted_example :
    (f' : BloomFilter) × (insert small_filter (1 ∷ 2 ∷ []) ≡ ok f')
    × Inserted small_filter (1 ∷ 2 ∷ []) f'
insert-Inserted_example =
    insert-Inserted small_filter (1 ∷ 2 ∷ []) (omega arith, (omega arith, (omega arith, _)))
      (omega arith)
