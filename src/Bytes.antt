-- ===== src/Bytes.antt =====
-- Byte vectors: deps/stdutils/src/uchar_vector.h and deps/CoinCore/src/numericdata.h.
-- A `uchar_vector` is a list of numbers below 256. A read behind the end of a vector is undefined
-- in C++; here it is the error `out_of_range`.
pub mod Numeric
pub mod Cursor
pub mod Loop
use m_signa.Prelude.{ℕ, zero, suc, ◌+◌, ◌-◌, ◌*◌, ◌/◌, ◌%◌, ◌^◌, ◌<◌, List, [], ◌∷◌, ◌++◌, reverse}
use m_signa.Prelude.{Bool, true, false, ◌≡◌, refl, ◌==◌, ◌&&◌, arith}
use m_signa.Prelude.{length, take, drop, All, leb, if◌then◌else◌}
use m_signa.Result.{Result, ok, err, ◌>>=◌}

abbrev pub Bytes : Type 0
Bytes = List ℕ

abbrev pub IsByte : ℕ → Type 0
IsByte b = b < 256

abbrev pub IsU32 : ℕ → Type 0
IsU32 v = v < 2 ^ 32

abbrev pub IsU64 : ℕ → Type 0
IsU64 v = v < 2 ^ 64

-- `uint` and `uint64_t` addition.
abbrev pub add32 : ℕ → ℕ → ℕ
add32 a b = (a + b) % 2 ^ 32

abbrev pub add64 : ℕ → ℕ → ℕ
add64 a b = (a + b) % 2 ^ 64

-- `==` of two vectors.
abbrev pub bytes_eq : Bytes → Bytes → Bool
bytes_eq [] [] = true
bytes_eq [] (c ∷ cs) = false
bytes_eq (b ∷ bs) [] = false
bytes_eq (b ∷ bs) (c ∷ cs) = b == c && bytes_eq bs cs

pub bytes_eq→eq : (bs cs : Bytes) → bytes_eq bs cs ≡ true → bs ≡ cs
bytes_eq→eq [] [] h = refl
bytes_eq→eq [] (c ∷ cs) h = cc
bytes_eq→eq (b ∷ bs) [] h = cc
bytes_eq→eq (b ∷ bs) (c ∷ cs) h = ground (arith, bytes_eq→eq bs cs)

pub bytes_eq_refl : (bs : Bytes) → bytes_eq bs bs ≡ true
bytes_eq_refl [] = refl
bytes_eq_refl (b ∷ bs) = ground (arith, bytes_eq_refl bs)

-- What a deserialiser throws, and the undefined read.
pub data Error : Type 0 where
  too_small : Error
  length_wrong : Error
  unrecognized_flags : Error
  missing_lock_time : Error
  missing_start_height : Error
  root_mismatch : Error
  unrecognized_command : Error
  no_height : Error
  out_of_range : Error

pub data Endianness : Type 0 where
  little_endian big_endian : Endianness

-- The loop of `uint_to_vch`: `w` bytes, the lowest first.
unfoldable pub low_bytes : ℕ → ℕ → Bytes
low_bytes zero n = []
low_bytes (suc w) n = n % 256 ∷ low_bytes w (n / 256)

unfoldable pub uint_to_vch : (w n : ℕ) → Endianness → Bytes
unfolding low_bytes
uint_to_vch w n little_endian = low_bytes w n
uint_to_vch w n big_endian = reverse (low_bytes w n)

-- The loop of `vch_to_uint`, in a type with `modulus` values.
pub shift_in : ℕ → ℕ → Bytes → ℕ
shift_in modulus n [] = n
shift_in modulus n (b ∷ []) = (n + b) % modulus
shift_in modulus n (b ∷ c ∷ bs) = shift_in modulus ((n + b) % modulus * 256 % modulus) (c ∷ bs)

abbrev pub in_order : Endianness → Bytes → Bytes
in_order little_endian bs = reverse bs
in_order big_endian bs = bs

-- `uchar_vector(bytes.begin() + first, bytes.begin() + last)`, for first ≤ last.
unfoldable pub slice : (first last : ℕ) → Bytes → Result Error Bytes
slice first last bytes =
    if leb last (length bytes)
    then ok (take (last - first) (drop first bytes))
    else err out_of_range

-- `uchar_vector(bytes.begin() + first, bytes.end())`
unfoldable pub suffix : ℕ → Bytes → Result Error Bytes
suffix first bytes = if leb first (length bytes) then ok (drop first bytes) else err out_of_range

-- `vch_to_uint<T>` for a type T of `w` bytes: it reads the first `w` bytes.
unfoldable pub vch_to_uint : (w : ℕ) → Bytes → Endianness → Result Error ℕ
unfolding slice shift_in
vch_to_uint w bytes e = do bs ← slice 0 w bytes; ok (shift_in (256 ^ w) 0 (in_order e bs))

-- `vch_to_uint<T>(uchar_vector(bytes.begin() + pos, bytes.begin() + pos + w), e)`
unfoldable pub uint_at : (w pos : ℕ) → Bytes → Endianness → Result Error ℕ
unfolding slice vch_to_uint
uint_at w pos bytes e = do bs ← slice pos (pos + w) bytes; vch_to_uint w bs e
