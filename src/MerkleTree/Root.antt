-- ===== src/MerkleTree/Root.antt =====
-- MerkleTree::getRoot, which works level by level, against the root from the top down.
use m_signa.Prelude.{
  ℕ, zero, suc, ◌+◌, ◌-◌, ◌/◌, ◌^◌, ◌≤◌, ◌<◌, ◌≡◌, refl, sym, ap, ◌∙◌, List, [], ◌∷◌, ◌++◌, length,
  take, drop, length-take, length-drop, arith,
}
use m_signa.Bytes.{Bytes}
use m_signa.MerkleTree.{pair_up, root_loop, get_root, tree_root, tree_depth, or_left}
use m_signa.MerkleTree.Levels.{
  length-pair_up, pair_up-take, pair_up-drop, HasBits, HasBits-lt, tree_depth-HasBits,
}
use mathlib.Core.Path.{ap₂, subst}
use native.Mathlib.Nat.{pow-suc}

pub pow-pos : (d : ℕ) → 0 < 2 ^ d
pow-pos zero = omega arith
pow-pos (suc d) = omega (arith, pow-suc 2 d, pow-pos d)

module _ (sha256_2 : Bytes → Bytes) where
  or_left-pair_up :
      (hs : List Bytes) (l r : Bytes) → or_left (pair_up sha256_2 hs) l r ≡ or_left hs l r
  unfolding pair_up
  or_left-pair_up [] l r = refl
  or_left-pair_up (a ∷ []) l r = refl
  or_left-pair_up (a ∷ b ∷ rest) l r = refl

  or_left-eq :
      (hs : List Bytes) (l l' r r' : Bytes)
      → l ≡ l'
      → (0 < length hs → r ≡ r')
      → or_left hs l r ≡ or_left hs l' r'
  or_left-eq [] l l' r r' p q = p
  or_left-eq (a ∷ rest) l l' r r' p q = q (omega arith)

  tree_root_step :
      (d : ℕ) (hs : List Bytes)
      → let left = tree_root sha256_2 d (take (2 ^ d) hs) in
        tree_root sha256_2 (suc d) hs
        ≡ sha256_2 (left ++ or_left (drop (2 ^ d) hs) left (tree_root sha256_2 d (drop (2 ^ d) hs)))
  unfolding tree_root
  tree_root_step d hs = refl

  root_loop_step :
      (fuel : ℕ) (a b : Bytes) (rest : List Bytes)
      → root_loop sha256_2 (suc fuel) (a ∷ b ∷ rest)
        ≡ root_loop sha256_2 fuel (pair_up sha256_2 (a ∷ b ∷ rest))
  unfolding root_loop
  root_loop_step fuel a b rest = refl

  -- A tree of depth `d + 1` is a tree of depth `d` over the next level.
  pub tree_root-pair_up :
      (d : ℕ) (hs : List Bytes)
      → 0 < length hs
      → length hs ≤ 2 ^ suc d
      → tree_root sha256_2 (suc d) hs ≡ tree_root sha256_2 d (pair_up sha256_2 hs)
  tree_root-pair_up zero [] p q = absurd (omega arith)
  tree_root-pair_up zero (a ∷ []) p q = unfold tree_root pair_up in refl
  tree_root-pair_up zero (a ∷ b ∷ []) p q = unfold tree_root pair_up in refl
  tree_root-pair_up zero (a ∷ b ∷ c ∷ rest) p q = absurd (omega arith)
  tree_root-pair_up (suc d) hs p q =
      let n : ℕ = 2 ^ suc d in
      let up : List Bytes = pair_up sha256_2 hs in
      let twice : 2 ^ suc d ≡ 2 ^ d + 2 ^ d = omega (arith, pow-suc 2 d) in
      let left : tree_root sha256_2 (suc d) (take n hs) ≡ tree_root sha256_2 d (take (2 ^ d) up) =
        tree_root-pair_up d (take n hs) (omega (arith, length-take n hs, pow-pos d))
          (omega (arith, length-take n hs))
        ∙ ap (tree_root sha256_2 d) (pair_up-take sha256_2 (2 ^ d) n hs twice) in
      let right : 0 < length (drop n hs)
          → tree_root sha256_2 (suc d) (drop n hs) ≡ tree_root sha256_2 d (drop (2 ^ d) up) =
        λ h.
          tree_root-pair_up d (drop n hs) h (omega (arith, length-drop n hs, pow-suc 2 (suc d)))
          ∙ ap (tree_root sha256_2 d) (pair_up-drop sha256_2 (2 ^ d) n hs twice) in
      tree_root_step (suc d) hs
      ∙ ap₂ (λ l r. sha256_2 (l ++ r)) left
          (or_left-eq (drop n hs) _ _ _ _ left right
            ∙ sym (or_left-pair_up (drop n hs) _ _)
            ∙ ap
                (λ rest.
                  or_left rest (tree_root sha256_2 d (take (2 ^ d) up))
                    (tree_root sha256_2 d (drop (2 ^ d) up)))
                (pair_up-drop sha256_2 (2 ^ d) n hs twice))
      ∙ sym (tree_root_step d up)

  root_loop-tree_root :
      (d fuel : ℕ) (hs : List Bytes)
      → 0 < length hs
      → length hs ≤ fuel
      → HasBits d (length hs - 1)
      → root_loop sha256_2 fuel hs ≡ tree_root sha256_2 d hs
  root_loop-tree_root d fuel [] p q b = absurd (omega arith)
  root_loop-tree_root zero fuel (h ∷ []) p q b = unfold root_loop tree_root in refl
  root_loop-tree_root (suc d) fuel (h ∷ []) p q b = absurd (b.0 (omega arith))
  root_loop-tree_root zero fuel (a ∷ b ∷ rest) p q bits = absurd (omega arith)
  root_loop-tree_root (suc d) zero (a ∷ b ∷ rest) p q bits = absurd (omega arith)
  root_loop-tree_root (suc d) (suc fuel) (a ∷ b ∷ rest) p q bits =
      let hs : List Bytes = a ∷ b ∷ rest in
      let up : List Bytes = pair_up sha256_2 hs in
      let size : length up ≡ (length hs + 1) / 2 = length-pair_up sha256_2 hs in
      let fewer : length up - 1 ≡ (length hs - 1) / 2 = omega arith in
      root_loop_step fuel a b rest
      ∙ root_loop-tree_root d fuel up (omega arith) (omega arith)
          (subst (HasBits d) (sym fewer) bits.1)
      ∙ sym (tree_root-pair_up d hs p (omega (arith, HasBits-lt (suc d) (length hs - 1) bits)))

  -- `getRoot` ends, and its result is the top-down root of a tree of the depth that the partial
  -- trees compute.
  pub get_root-tree_root :
      (hs : List Bytes)
      → 0 < length hs
      → get_root sha256_2 hs ≡ tree_root sha256_2 (tree_depth (length hs)) hs
  unfolding get_root
  get_root-tree_root hs p =
      root_loop-tree_root (tree_depth (length hs)) (length hs) hs p (omega arith)
        (tree_depth-HasBits (length hs))
