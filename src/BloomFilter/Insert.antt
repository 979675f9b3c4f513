-- ===== src/BloomFilter/Insert.antt =====
-- `BloomFilter::insert` and `BloomFilter::match` of deps/CoinCore/src/BloomFilter.cpp.
use Prim.Native.Nat.{bit_and, bit_or}
use m_signa.Prelude.{
  ℕ, zero, suc, ◌+◌, ◌*◌, ◌/◌, ◌%◌, ◌^◌, ◌<◌, ◌≡◌, refl, sym, ap, ◌∙◌, inl, inr, [], ◌∷◌, Bool,
  true, false, ◌==◌, if◌then◌else◌, Option, none, some, Bool-cases, ℕ_discrete, All, length,
  length-set, get_elem?, set, arith,
}
use mathlib.Core.Path.{subst}
use native.Mathlib.Nat.{mod-lt}
use m_signa.Result.{ok}
use m_signa.Bytes.{Bytes, IsByte, add32}
use m_signa.BloomFilter.{
  BloomFilter, filter_hash, murmur_hash_3, byte_of, set_bit, insert_loop, match_loop, insert,
  matches, mul32,
}
use m_signa.BloomFilter.Bits.{or_byte, or_sets, or_keeps}

get_elem?-below :
    (xs : Bytes) (i : ℕ)
    → All IsByte xs
    → i < length xs
    → (b : ℕ) × (get_elem? xs i ≡ some b) × (b < 256)
get_elem?-below [] i v low = absurd (omega (arith, low))
get_elem?-below (x ∷ xs) zero v low = (x, refl, v.0)
get_elem?-below (x ∷ xs) (suc i) v low = get_elem?-below xs i v.1 (omega (arith, low))

get_elem?-set_same : (xs : Bytes) (i v : ℕ) → i < length xs → get_elem? (set xs i v) i ≡ some v
get_elem?-set_same [] i v low = absurd (omega (arith, low))
get_elem?-set_same (x ∷ xs) zero v low = refl
get_elem?-set_same (x ∷ xs) (suc i) v low = get_elem?-set_same xs i v (omega (arith, low))

get_elem?-set_other :
    (xs : Bytes) (i j v : ℕ) → (i ≡ j → ⊥) → get_elem? (set xs i v) j ≡ get_elem? xs j
get_elem?-set_other [] i j v apart = refl
get_elem?-set_other (x ∷ xs) zero zero v apart = absurd (apart refl)
get_elem?-set_other (x ∷ xs) zero (suc j) v apart = refl
get_elem?-set_other (x ∷ xs) (suc i) zero v apart = refl
get_elem?-set_other (x ∷ xs) (suc i) (suc j) v apart =
    get_elem?-set_other xs i j v (λ e. apart (ap suc e))

set-IsByte : (xs : Bytes) (i v : ℕ) → All IsByte xs → v < 256 → All IsByte (set xs i v)
set-IsByte [] i v all low = _
set-IsByte (x ∷ xs) zero v all low = (low, all.1)
set-IsByte (x ∷ xs) (suc i) v all low = (all.0, set-IsByte xs i v all.1 low)

-- The bit at `index` is set.
record Holds (filter : Bytes) (index : ℕ) : Type 0 where
  byte : ℕ
  byte_eq : get_elem? filter (index / 8) ≡ some byte
  bit : (bit_and byte (2 ^ (index % 8)) == 0) ≡ false

-- What a change keeps.
record Keeps (filter filter' : Bytes) : Type 0 where
  size : length filter' ≡ length filter
  bytes : All IsByte filter'
  bits : (index : ℕ) → Holds filter index → Holds filter' index

byte_of-some :
    (filter : Bytes) (index b : ℕ)
    → get_elem? filter (index / 8) ≡ some b
    → byte_of filter index ≡ ok b
unfolding byte_of
byte_of-some filter index b e = rw (byte_of, e)

set_bit-Keeps :
    (filter : Bytes) (index : ℕ)
    → All IsByte filter
    → index < length filter * 8
    → (filter' : Bytes) × (set_bit filter index ≡ ok filter')
      × Keeps filter filter'
      × Holds filter' index
unfolding set_bit
set_bit-Keeps filter index v low =
    let i : ℕ = index / 8 in
    let (b, e, small) = get_elem?-below filter i v (omega (arith, low)) in
    let here = get_elem?-set_same filter i (bit_or b (2 ^ (index % 8))) (omega (arith, low)) in
    (
      set filter i (bit_or b (2 ^ (index % 8))),
      rw (byte_of-some filter index b e),
      record {
        size = length-set filter i (bit_or b (2 ^ (index % 8)));
        bytes = set-IsByte filter i _ v (or_byte b (index % 8) small (omega arith));
        bits = λ j h. elim (ℕ_discrete i (j / 8)) [
          | yes same ↦
              let b_h : b ≡ h.byte = injective (sym e ∙ ap (get_elem? filter) same ∙ h.byte_eq) in
              record {
                byte = bit_or b (2 ^ (index % 8));
                byte_eq =
                    ap (get_elem? (set filter i (bit_or b (2 ^ (index % 8))))) (sym same) ∙ here;
                bit =
                    or_keeps b (index % 8) (j % 8) small (omega arith) (omega arith)
                      (subst (λ (c : ℕ). (bit_and c (2 ^ (j % 8)) == 0) ≡ false) (sym b_h) h.bit);
              }
          | no apart ↦ record {
            byte = h.byte;
            byte_eq = get_elem?-set_other filter i (j / 8) _ apart ∙ h.byte_eq;
            bit = h.bit;
          }
        ];
      },
      record {
        byte = bit_or b (2 ^ (index % 8));
        byte_eq = here;
        bit = or_sets b (index % 8) small (omega arith);
      },
    )
  where
    injective : {a c : ℕ} → ◌≡◌ {A = Option ℕ} (some a) (some c) → a ≡ c
    injective {a = a} e = ap (λ o. elim o [ some x ↦ x | none ↦ a ]) e

-- The index for the hash number `n`.
abbrev index_of : (size tweak n : ℕ) → Bytes → ℕ
index_of size tweak n bytes = murmur_hash_3 (add32 (mul32 n 0xfba4c795) tweak) bytes % (size * 8)

filter_hash-index_of :
    (size tweak n : ℕ) (bytes : Bytes)
    → 0 < size
    → (filter_hash size tweak n bytes ≡ ok (index_of size tweak n bytes))
      × (index_of size tweak n bytes < size * 8)
unfolding filter_hash
filter_hash-index_of size tweak n bytes low =
    (rw (positive size low), mod-lt _ (omega (arith, low)))
  where
    positive : (n : ℕ) → 0 < n → (if n == 0 then false else true) ≡ true
    positive n p = ground (arith, p)

module _ (tweak : ℕ) (content : Bytes) where
  -- The loop of `insert` sets the bits of its hashes, and keeps the others.
  insert_loop-Keeps :
      (n i : ℕ) (filter : Bytes)
      → All IsByte filter
      → 0 < length filter
      → (filter' : Bytes) × (insert_loop tweak content n i filter ≡ ok filter')
        × Keeps filter filter'
        × ((j : ℕ) → j < n → Holds filter' (index_of (length filter) tweak (i + j) content))
  unfolding insert_loop
  insert_loop-Keeps zero i filter v low = (
    filter,
    refl,
    record { size = refl; bytes = v; bits = λ j h. h },
    λ j p. absurd (omega (arith, p)),
  )
  insert_loop-Keeps (suc n) i filter v low =
      let (hashed, inside) = filter_hash-index_of (length filter) tweak i content low in
      let (f1, done, k1, here) =
        set_bit-Keeps filter (index_of (length filter) tweak i content) v inside in
      let (f2, done2, k2, all) =
        insert_loop-Keeps n (i + 1) f1 k1.bytes (omega (arith, k1.size, low)) in
      (
        f2,
        rw (hashed, done) done2,
        record {
          size = k2.size ∙ k1.size;
          bytes = k2.bytes;
          bits = λ j h. k2.bits j (k1.bits j h);
        },
        λ j p. place j p f1 f2 k1.size (k2.bits _ here) all,
      )
    where
      place :
          (j : ℕ)
          → j < suc n
          → (f1 f2 : Bytes) → length f1 ≡ length filter
          → Holds f2 (index_of (length filter) tweak i content)
          → ((m : ℕ) → m < n → Holds f2 (index_of (length f1) tweak (i + 1 + m) content))
          → Holds f2 (index_of (length filter) tweak (i + j) content)
      place zero p f1 f2 size here all =
          subst (λ (m : ℕ). Holds f2 (index_of (length filter) tweak m content)) (omega arith) here
      place (suc j) p f1 f2 size here all =
          let up : i + 1 + j ≡ i + suc j = omega arith in
          subst (λ (m : ℕ). Holds f2 (index_of (length filter) tweak m content)) up
            (subst (λ (m : ℕ). Holds f2 (index_of m tweak (i + 1 + j) content)) size
              (all j (omega (arith, p))))

  -- The loop of `match` finds the bits that are set.
  match_loop-Holds :
      (n i : ℕ) (filter : Bytes)
      → 0 < length filter
      → ((j : ℕ) → j < n → Holds filter (index_of (length filter) tweak (i + j) content))
      → match_loop tweak content n i filter ≡ ok true
  unfolding match_loop
  match_loop-Holds zero i filter low all = refl
  match_loop-Holds (suc n) i filter low all =
      let (hashed, inside) = filter_hash-index_of (length filter) tweak i content low in
      let i0 : i + 0 ≡ i = omega arith in
      let h =
        subst (λ (m : ℕ). Holds filter (index_of (length filter) tweak m content)) i0
          (all 0 (omega arith)) in
      rw (hashed, byte_of-some filter _ h.byte h.byte_eq, h.bit)
        (match_loop-Holds n (i + 1) filter low (λ j p.
          subst (λ (m : ℕ). Holds filter (index_of (length filter) tweak m content)) (omega arith)
            (all (suc j) (omega (arith, p)))))

  -- And only those.
  match_loop-eq-true :
      (n i : ℕ) (filter : Bytes)
      → All IsByte filter
      → 0 < length filter
      → match_loop tweak content n i filter ≡ ok true
      → (j : ℕ) → j < n
      → Holds filter (index_of (length filter) tweak (i + j) content)
  unfolding match_loop
  match_loop-eq-true zero i filter v low e j p = absurd (omega (arith, p))
  match_loop-eq-true (suc n) i filter v low e j p =
      let (hashed, inside) = filter_hash-index_of (length filter) tweak i content low in
      let (b, eb, small) =
        get_elem?-below filter (index_of (length filter) tweak i content / 8) v
          (omega (arith, inside)) in
      let e' = rw (hashed, byte_of-some filter _ b eb) at e in
      elim (Bool-cases (bit_and b (2 ^ (index_of (length filter) tweak i content % 8)) == 0)) [
        | inl no_bit ↦ cc (rw no_bit at e')
        | inr there ↦
            place j p (record { byte = b; byte_eq = eb; bit = there })
              (match_loop-eq-true n (i + 1) filter v low (rw there at e'))
      ]
    where
      place :
          (j : ℕ)
          → j < suc n
          → Holds filter (index_of (length filter) tweak i content)
          → ((m : ℕ) → m < n → Holds filter (index_of (length filter) tweak (i + 1 + m) content))
          → Holds filter (index_of (length filter) tweak (i + j) content)
      place zero p here all =
          subst (λ (m : ℕ). Holds filter (index_of (length filter) tweak m content)) (omega arith)
            here
      place (suc j) p here all =
          subst (λ (m : ℕ). Holds filter (index_of (length filter) tweak m content)) (omega arith)
            (all j (omega (arith, p)))

-- The filter after an insertion of `content`: it has the same size and its bytes are bytes, the
-- data matches, and so does all that matched before.
pub record Inserted (f : BloomFilter) (content : Bytes) (f' : BloomFilter) : Type 0 where
  pub size : length f'.filter ≡ length f.filter
  pub bytes : All IsByte f'.filter
  pub found : matches f' content ≡ ok true
  pub kept : (bytes : Bytes) → matches f bytes ≡ ok true → matches f' bytes ≡ ok true

-- A Bloom filter has no false negatives: `insert` into a filter of some bytes always returns, within
-- the bounds of the filter, and afterwards the data matches, and so does all that matched before.
pub insert-Inserted :
    (f : BloomFilter) (content : Bytes)
    → All IsByte f.filter
    → 0 < length f.filter
    → (f' : BloomFilter) × (insert f content ≡ ok f') × Inserted f content f'
unfolding insert matches
insert-Inserted f content v low = elim (Bool-cases f.full) [
  | inl full ↦ (f, rw full, record { size = refl; bytes = v; found = rw full; kept = λ bytes e. e })
  | inr not_full ↦
      let (filter', done, k, all) =
        insert_loop-Keeps f.n_tweak content f.n_hash_funcs 0 f.filter v low in
      (
        record f { filter = filter'; empty = false },
        rw (not_full, done),
        record {
          size = k.size;
          bytes = k.bytes;
          found = rw not_full (
              match_loop-Holds f.n_tweak content f.n_hash_funcs 0 filter'
                (omega (arith, k.size, low)) (λ j p. in_size filter' content k.size j (all j p)));
          kept = λ bytes e. rw not_full (
              match_loop-Holds f.n_tweak bytes f.n_hash_funcs 0 filter' (omega (arith, k.size, low))
                (λ j p. in_size filter' bytes k.size j (
                  k.bits _ (
                    match_loop-eq-true f.n_tweak bytes f.n_hash_funcs 0 f.filter v low
                      (not_empty f.empty bytes (rw not_full at e)) j p))));
        },
      )
]
  where
    in_size :
        (filter' bytes : Bytes)
        → length filter' ≡ length f.filter
        → (j : ℕ) → Holds filter' (index_of (length f.filter) f.n_tweak (0 + j) bytes)
        → Holds filter' (index_of (length filter') f.n_tweak (0 + j) bytes)
    in_size filter' bytes size j h =
        subst (λ (m : ℕ). Holds filter' (index_of m f.n_tweak (0 + j) bytes)) (sym size) h

    not_empty :
        (b : Bool) (bytes : Bytes)
        → (if b then ok false else match_loop f.n_tweak bytes f.n_hash_funcs 0 f.filter) ≡ ok true
        → match_loop f.n_tweak bytes f.n_hash_funcs 0 f.filter ≡ ok true
    not_empty true bytes e = cc
    not_empty false bytes e = e
