-- ===== src/MerkleTree/Levels.antt =====
-- One level of a Merkle tree, and the depth of the tree above it.
use m_signa.Prelude.{
  ℕ, zero, suc, ◌+◌, ◌-◌, ◌/◌, ◌^◌, ◌≤◌, ◌<◌, ◌≡◌, ◌≢◌, refl, sym, ap, ◌∙◌, List, [], ◌∷◌, ◌++◌,
  length, take, drop, take-nil, drop-nil, ◌==◌, Bool-cases, inl, inr, ==_iff, arith,
}
use m_signa.Bytes.{Bytes}
use m_signa.MerkleTree.{pair_up, depth_loop, tree_depth}
use native.Mathlib.Nat.{pow-suc, zero-add}
use mathlib.Core.Path.{subst}

module _ (sha256_2 : Bytes → Bytes) where
  pub length-pair_up : (hs : List Bytes) → length (pair_up sha256_2 hs) ≡ (length hs + 1) / 2
  unfolding pair_up
  length-pair_up [] = omega arith
  length-pair_up (a ∷ []) = omega arith
  length-pair_up (a ∷ b ∷ rest) = omega (arith, length-pair_up rest)

  -- A level cut at an even place is paired up part by part.
  pub pair_up-take :
      (k n : ℕ) (hs : List Bytes)
      → n ≡ k + k
      → pair_up sha256_2 (take n hs) ≡ take k (pair_up sha256_2 hs)
  unfolding pair_up
  pair_up-take zero zero hs e = refl
  pair_up-take zero (suc n) hs e = absurd (omega arith)
  pair_up-take (suc k) zero hs e = absurd (omega arith)
  pair_up-take (suc k) (suc zero) hs e = absurd (omega arith)
  pair_up-take (suc k) (suc (suc n)) [] e = refl
  pair_up-take (suc k) (suc (suc n)) (a ∷ []) e = sym (ap (◌∷◌ (sha256_2 (a ++ a))) (take-nil k))
  pair_up-take (suc k) (suc (suc n)) (a ∷ b ∷ rest) e =
      ap (◌∷◌ (sha256_2 (a ++ b))) (pair_up-take k n rest (omega arith))

  pub pair_up-drop :
      (k n : ℕ) (hs : List Bytes)
      → n ≡ k + k
      → pair_up sha256_2 (drop n hs) ≡ drop k (pair_up sha256_2 hs)
  unfolding pair_up
  pair_up-drop zero zero hs e = refl
  pair_up-drop zero (suc n) hs e = absurd (omega arith)
  pair_up-drop (suc k) zero hs e = absurd (omega arith)
  pair_up-drop (suc k) (suc zero) hs e = absurd (omega arith)
  pair_up-drop (suc k) (suc (suc n)) [] e = refl
  pair_up-drop (suc k) (suc (suc n)) (a ∷ []) e = sym (drop-nil k)
  pair_up-drop (suc k) (suc (suc n)) (a ∷ b ∷ rest) e = pair_up-drop k n rest (omega arith)

-- `n` has exactly `d` binary digits.
abbrev pub HasBits : ℕ → ℕ → Type 0
HasBits zero n = n ≡ 0
HasBits (suc d) n = (n ≢ 0) × HasBits d (n / 2)

pub HasBits-lt : (d n : ℕ) → HasBits d n → n < 2 ^ d
HasBits-lt zero n h = omega arith
HasBits-lt (suc d) n h = omega (arith, HasBits-lt d (n / 2) h.1, pow-suc 2 d)

depth_loop-HasBits :
    (fuel n acc : ℕ) → n ≤ fuel → (d : ℕ) × HasBits d n × (depth_loop fuel n acc ≡ acc + d)
unfolding depth_loop
depth_loop-HasBits zero n acc h = (0, omega arith, omega arith)
depth_loop-HasBits (suc fuel) n acc h = elim (Bool-cases (n == 0)) [
  | inl e ↦ rw e (0, (==_iff n 0).0 e, omega arith)
  | inr e ↦
      let (d, bits, eq) = depth_loop-HasBits fuel (n / 2) (acc + 1) (ground arith) in
      rw e (suc d, ((λ z. cc (e, (==_iff n 0).1 z)), bits), eq ∙ omega arith)
]

-- The loop ends, and computes the number of binary digits of `n_txs - 1`.
pub tree_depth-HasBits : (n_txs : ℕ) → HasBits (tree_depth n_txs) (n_txs - 1)
unfolding tree_depth
tree_depth-HasBits n_txs =
    let (d, bits, eq) = depth_loop-HasBits (n_txs - 1) (n_txs - 1) 0 (omega arith) in
    rw eq (subst (λ k. HasBits k (n_txs - 1)) (sym (zero-add d)) bits)
