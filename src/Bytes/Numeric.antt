-- ===== src/Bytes/Numeric.antt =====
-- `uint_to_vch` and `vch_to_uint` of deps/CoinCore/src/numericdata.h against each other.
use m_signa.Prelude.{
  ℕ, zero, suc, ◌+◌, ◌*◌, ◌/◌, ◌%◌, ◌^◌, ◌≤◌, ◌<◌, ◌≡◌, refl, ap, ◌∙◌, [], ◌∷◌, ◌++◌, reverse,
  length, length-reverse, All, arith,
}
use m_signa.Result.{ok}
use m_signa.Bytes.{
  Bytes, IsByte, Endianness, little_endian, big_endian, low_bytes, uint_to_vch, shift_in, in_order,
  vch_to_uint,
}
use mathlib.Core.List.{reverse-cons}
use m_signa.Bytes.Cursor.{slice-front}
use native.Mathlib.Nat.{mod-eq_of_lt, pow-suc}

pub length-low_bytes : (w n : ℕ) → length (low_bytes w n) ≡ w
unfolding low_bytes
length-low_bytes zero n = refl
length-low_bytes (suc w) n = ap suc (length-low_bytes w (n / 256))

pub length-uint_to_vch : (w n : ℕ) (e : Endianness) → length (uint_to_vch w n e) ≡ w
unfolding uint_to_vch
length-uint_to_vch w n little_endian = length-low_bytes w n
length-uint_to_vch w n big_endian = length-reverse (low_bytes w n) ∙ length-low_bytes w n

pub low_bytes-IsByte : (w n : ℕ) → All IsByte (low_bytes w n)
unfolding low_bytes
low_bytes-IsByte zero n = tt
low_bytes-IsByte (suc w) n = (omega arith, low_bytes-IsByte w (n / 256))

pub uint_to_vch-IsByte : (w n : ℕ) → All IsByte (uint_to_vch w n little_endian)
unfolding uint_to_vch
uint_to_vch-IsByte w n = low_bytes-IsByte w n

-- The last byte read.
shift_in-snoc :
    (m n : ℕ) (xs : Bytes) (b : ℕ)
    → 0 < length xs
    → shift_in m n (xs ++ b ∷ []) ≡ (shift_in m n xs * 256 % m + b) % m
unfolding shift_in
shift_in-snoc m n [] b h = absurd (omega arith)
shift_in-snoc m n (x ∷ []) b h = refl
shift_in-snoc m n (x ∷ y ∷ ys) b h =
    shift_in-snoc m ((n + x) % m * 256 % m) (y ∷ ys) b (omega arith)

low_bytes_rev :
    (w n : ℕ) → reverse (low_bytes (suc w) n) ≡ reverse (low_bytes w (n / 256)) ++ n % 256 ∷ []
unfolding low_bytes
low_bytes_rev w n = reverse-cons (n % 256) (low_bytes w (n / 256))

-- With a modulus that is large enough nothing wraps.
combine : (m v a b : ℕ) → v < m → v ≡ a * 256 + b → (a * 256 % m + b) % m ≡ v
combine m v a b h e = grind arith

shift_in-low_bytes :
    (m w n : ℕ) → n < 256 ^ w → 256 ^ w ≤ m → shift_in m 0 (reverse (low_bytes w n)) ≡ n
shift_in-low_bytes m zero n h k = unfold low_bytes shift_in in omega arith
shift_in-low_bytes m (suc zero) n h k =
    unfold low_bytes shift_in in mod-eq_of_lt {n = 0 + n % 256} {m = m} (omega arith) ∙ omega arith
shift_in-low_bytes m (suc (suc w)) n h k =
    let rest : Bytes = low_bytes (suc w) (n / 256) in
    let ih : shift_in m 0 (reverse rest) ≡ n / 256 =
      shift_in-low_bytes m (suc w) (n / 256) (omega (arith, pow-suc 256 (suc w)))
        (omega (arith, pow-suc 256 (suc w))) in
    let long : 0 < length (reverse rest) =
      omega (arith, length-reverse rest, length-low_bytes (suc w) (n / 256)) in
    ap (shift_in m 0) (low_bytes_rev (suc w) n)
    ∙ shift_in-snoc m 0 (reverse rest) (n % 256) long
    ∙ ap (λ (t : ℕ). (t * 256 % m + n % 256) % m) ih
    ∙ combine m n (n / 256) (n % 256) (omega arith) (omega arith)

-- `vch_to_uint` reads back an integer that fits the type, whatever follows it.
pub vch_to_uint-uint_to_vch :
    (w n : ℕ) (e : Endianness) (rest : Bytes)
    → n < 256 ^ w
    → vch_to_uint w (uint_to_vch w n e ++ rest) e ≡ ok n
unfolding vch_to_uint
vch_to_uint-uint_to_vch w n e rest h =
    rw (slice-front w (uint_to_vch w n e) rest (length-uint_to_vch w n e)) (ap ok (in_order_back e))
  where
    in_order_back : (e : Endianness) → shift_in (256 ^ w) 0 (in_order e (uint_to_vch w n e)) ≡ n
    in_order_back little_endian =
        unfold uint_to_vch in shift_in-low_bytes (256 ^ w) w n h (omega arith)
    in_order_back big_endian =
        unfold uint_to_vch in shift_in-low_bytes (256 ^ w) w n h (omega arith)
