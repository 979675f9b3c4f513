-- ===== src/PartialMerkleTree/Flags.antt =====
-- The flag bits that `getFlags` packs into bytes and `setCompressed` unpacks.
use m_signa.Prelude.{
  ℕ, zero, suc, ◌+◌, ◌-◌, ◌^◌, ◌≤◌, ◌<◌, ◌≡◌, refl, sym, ap, ◌∙◌, List, [], ◌∷◌, ◌++◌, Bool, true,
  false, ◌&&◌, ◌==◌, ltb, ltb→lt, lt→ltb, ==_iff, if◌then◌else◌, take, replicate, append_assoc,
  append-nil, Bool-cases, inl, inr, arith,
}
use m_signa.PartialMerkleTree.Defs.{unpack, flags_loop, get_flags}
use mathlib.Core.Path.{ap₂}
use Prim.Native.Nat.{bit_or}
use native.Mathlib.Nat.{pow-le-pow_right}

-- The test holds of every number below the bound, which evaluation decides.
each_below : ℕ → (ℕ → Bool) → Bool
each_below zero test = true
each_below (suc bound) test = if test bound then each_below bound test else false

each_below_lem :
    (bound : ℕ) (test : ℕ → Bool) (n : ℕ) → each_below bound test ≡ true → n < bound → test n ≡ true
unfolding each_below
each_below_lem (suc bound) test n all small = ground (arith, each_below_lem bound test n)
each_below_lem zero test n all small = absurd (omega arith)

abbrev bool_eq : Bool → Bool → Bool
bool_eq true b = b
bool_eq false true = false
bool_eq false false = true

bools_eq : List Bool → List Bool → Bool
bools_eq [] [] = true
bools_eq [] (b ∷ bs) = false
bools_eq (a ∷ as') [] = false
bools_eq (a ∷ as') (b ∷ bs) = bool_eq a b && bools_eq as' bs

bools_eq→eq : (xs ys : List Bool) → bools_eq xs ys ≡ true → xs ≡ ys
unfolding bools_eq
bools_eq→eq [] [] h = refl
bools_eq→eq [] (y ∷ ys) h = cc
bools_eq→eq (x ∷ xs) [] h = cc
bools_eq→eq (true ∷ xs) (true ∷ ys) h = ap (◌∷◌ true) (bools_eq→eq xs ys h)
bools_eq→eq (true ∷ xs) (false ∷ ys) h = cc
bools_eq→eq (false ∷ xs) (true ∷ ys) h = cc
bools_eq→eq (false ∷ xs) (false ∷ ys) h = ap (◌∷◌ false) (bools_eq→eq xs ys h)

-- The lowest `c` bits of a byte, and the byte with bit `c` put in.
first_bits : ℕ → ℕ → List Bool
unfolding unpack
first_bits c byte = take c (unpack (byte ∷ []))

abbrev put_bit : Bool → ℕ → ℕ → ℕ
put_bit bit c byte = if bit then bit_or byte (2 ^ c) else byte

put_bit_ok : Bool → ℕ → ℕ → Bool
put_bit_ok bit c byte =
    if ltb byte (2 ^ c)
    then bools_eq (first_bits (c + 1) (put_bit bit c byte)) (first_bits c byte ++ (bit ∷ []))
      && ltb (put_bit bit c byte) (2 ^ (c + 1))
    else true

put_bit_table :
    (each_below 8 (λ c. each_below 128 (λ b. put_bit_ok true c b)) ≡ true)
    × (each_below 8 (λ c. each_below 128 (λ b. put_bit_ok false c b)) ≡ true)
unfolding each_below put_bit_ok first_bits bools_eq
put_bit_table = (refl, refl)

padding_ok : ℕ → ℕ → Bool
padding_ok c byte =
    if ltb byte (2 ^ c)
    then bools_eq (first_bits 8 byte) (first_bits c byte ++ replicate (8 - c) false)
    else true

padding_table : each_below 9 (λ c. each_below 256 (padding_ok c)) ≡ true
unfolding each_below padding_ok first_bits bools_eq
padding_table = refl

and_parts : (a b : Bool) → (a && b) ≡ true → (a ≡ true) × (b ≡ true)
and_parts a b h = ground arith

under_test : (t a : Bool) → t ≡ true → (if t then a else true) ≡ true → a ≡ true
under_test t a h e = ground arith

pow-le : (c n : ℕ) → c ≤ n → 2 ^ c ≤ 2 ^ n
pow-le c n h = pow-le-pow_right (omega arith) h

put_bit_lem :
    (bit : Bool) (c byte : ℕ)
    → c < 8
    → byte < 2 ^ c
    → (first_bits (c + 1) (put_bit bit c byte) ≡ first_bits c byte ++ (bit ∷ []))
      × (put_bit bit c byte < 2 ^ (c + 1))
unfolding put_bit_ok
put_bit_lem bit c byte h k =
    let byte_bound : byte < 128 = omega (arith, pow-le c 7) in
    let checked : put_bit_ok bit c byte ≡ true =
      each_below_lem 128 (put_bit_ok bit c) byte (each_below_lem 8 _ c (table bit) h) byte_bound in
    let (bits, bound) = and_parts _ _ (under_test _ _ (lt→ltb byte (2 ^ c) k) checked) in
    (bools_eq→eq _ _ bits, ltb→lt _ _ bound)
  where
    table : (bit : Bool) → each_below 8 (λ c. each_below 128 (put_bit_ok bit c)) ≡ true
    table true = put_bit_table.0
    table false = put_bit_table.1

padding_lem :
    (c byte : ℕ)
    → c ≤ 8
    → byte < 2 ^ c
    → first_bits 8 byte ≡ first_bits c byte ++ replicate (8 - c) false
unfolding padding_ok
padding_lem c byte h k =
    let byte_bound : byte < 256 = omega (arith, pow-le c 8) in
    bools_eq→eq _ _ (
      under_test _ _ (lt→ltb byte (2 ^ c) k) (
        each_below_lem 256 (padding_ok c) byte
          (each_below_lem 9 (λ c. each_below 256 (padding_ok c)) c padding_table (omega arith))
          byte_bound))

first_bits-zero : first_bits 0 0 ≡ []
unfolding first_bits
first_bits-zero = refl

unpack_first : (byte : ℕ) (rest : List ℕ) → unpack (byte ∷ rest) ≡ first_bits 8 byte ++ unpack rest
unfolding unpack first_bits
unpack_first byte rest = refl

full_step :
    (bit : Bool) (bits : List Bool) (c byte : ℕ)
    → (c == 8) ≡ true
    → flags_loop (bit ∷ bits) c byte ≡ byte ∷ flags_loop bits 1 (put_bit bit 0 0)
unfolding flags_loop
full_step bit bits c byte e = rw e

open_step :
    (bit : Bool) (bits : List Bool) (c byte : ℕ)
    → (c == 8) ≡ false
    → flags_loop (bit ∷ bits) c byte ≡ flags_loop bits (c + 1) (put_bit bit c byte)
unfolding flags_loop
open_step bit bits c byte e = rw e

flags_loop_lem :
    (bits : List Bool) (c byte : ℕ)
    → c ≤ 8
    → byte < 2 ^ c
    → (k : ℕ) × (unpack (flags_loop bits c byte) ≡ first_bits c byte ++ (bits ++ replicate k false))
flags_loop_lem [] c byte h k = (
  8 - c,
  unfold flags_loop first_bits in (unpack_first byte [] ∙ append-nil _ ∙ padding_lem c byte h k),
)
flags_loop_lem (bit ∷ bits) c byte h k = elim (Bool-cases (c == 8)) [
  | inl e ↦
      let eight : c ≡ 8 = (==_iff c 8).0 e in
      let (first, bound) = put_bit_lem bit 0 0 (omega arith) (omega arith) in
      let (n, ih) = flags_loop_lem bits 1 (put_bit bit 0 0) (omega arith) bound in
      (
        n,
        ap unpack (full_step bit bits c byte e)
            ∙ unpack_first byte _
            ∙ ap₂ (λ (u v : List Bool). u ++ v) (ap (λ (m : ℕ). first_bits m byte) (sym eight))
                (ih
                  ∙ ap (λ (u : List Bool). u ++ (bits ++ replicate n false))
                      (first ∙ ap (λ (u : List Bool). u ++ (bit ∷ [])) first_bits-zero)),
      )
  | inr e ↦
      let (first, bound) = put_bit_lem bit c byte (ground arith) k in
      let (n, ih) = flags_loop_lem bits (c + 1) (put_bit bit c byte) (ground arith) bound in
      (
        n,
        ap unpack (open_step bit bits c byte e)
            ∙ ih
            ∙ ap (λ (u : List Bool). u ++ (bits ++ replicate n false)) first
            ∙ append_assoc (first_bits c byte) (bit ∷ []) (bits ++ replicate n false),
      )
]

-- The bits of a tree come back from its flag bytes, followed by at most the padding.
pub unpack-get_flags :
    (bits : List Bool) → (k : ℕ) × (unpack (get_flags bits) ≡ bits ++ replicate k false)
unpack-get_flags bits =
    unfold get_flags first_bits in flags_loop_lem bits 0 0 (omega arith) (omega arith)
