-- ===== src/BloomFilter/Bits.antt =====
-- The bits of the bytes of a filter.
use Prim.Native.Nat.{bit_and, bit_or}
use m_signa.Prelude.{
  ℕ, zero, suc, ◌^◌, ◌<◌, ◌≡◌, refl, Bool, true, false, ◌&&◌, ◌||◌, ◌==◌, ltb, arith,
}

-- Whether a test holds below a number.
abbrev below : ℕ → (ℕ → Bool) → Bool
below zero p = true
below (suc n) p = p n && below n p

below-true : (n : ℕ) (p : ℕ → Bool) (x : ℕ) → below n p ≡ true → x < n → p x ≡ true
below-true zero p x h low = absurd (omega arith)
below-true (suc n) p x h low = ground (arith, below-true n p x)

abbrev flip : Bool → Bool
flip true = false
flip false = true

abbrev has_bit : ℕ → ℕ → Bool
has_bit b i = flip (bit_and b (2 ^ i) == 0)

-- After a bit is set it is there, the others are what they were, and the byte is a byte.
abbrev set_right : ℕ → ℕ → ℕ → Bool
set_right b i j =
    ltb (bit_or b (2 ^ i)) 256
    && (has_bit (bit_or b (2 ^ i)) i && (flip (has_bit b j) || has_bit (bit_or b (2 ^ i)) j))

table : below 256 (λ b. below 8 (λ i. below 8 (λ j. set_right b i j))) ≡ true
table = refl

entry : (b i j : ℕ) → b < 256 → i < 8 → j < 8 → set_right b i j ≡ true
entry b i j p q r =
    below-true 8 (λ j. set_right b i j) j
      (below-true 8 (λ i. below 8 (λ j. set_right b i j)) i
        (below-true 256 (λ b. below 8 (λ i. below 8 (λ j. set_right b i j))) b table p) q)
      r

pub or_byte : (b i : ℕ) → b < 256 → i < 8 → bit_or b (2 ^ i) < 256
or_byte b i p q = ground (arith, entry b i 0 p q (omega arith))

pub or_sets : (b i : ℕ) → b < 256 → i < 8 → (bit_and (bit_or b (2 ^ i)) (2 ^ i) == 0) ≡ false
or_sets b i p q = ground (arith, entry b i 0 p q (omega arith))

pub or_keeps :
    (b i j : ℕ)
    → b < 256
    → i < 8
    → j < 8
    → (bit_and b (2 ^ j) == 0) ≡ false
    → (bit_and (bit_or b (2 ^ i)) (2 ^ j) == 0) ≡ false
or_keeps b i j p q r e = ground (arith, e, entry b i j p q r)
