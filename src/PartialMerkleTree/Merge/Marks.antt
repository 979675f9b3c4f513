-- ===== src/PartialMerkleTree/Merge/Marks.antt =====
-- Leaves with a match bit for each of two partial trees.
use m_signa.Prelude.{
  ℕ, zero, suc, ◌≡◌, refl, ap, List, [], ◌∷◌, Bool, true, false, ◌||◌, map, take, drop,
}
use m_signa.Bytes.{Bytes}
use m_signa.PartialMerkleTree.Defs.{MerkleLeaf}
use m_signa.PartialMerkleTree.RoundTrip.{matches, hashes_of}

-- A leaf, whether it matches in the first tree, and whether it matches in the second.
abbrev pub Mark : Type 0
Mark = Bytes × Bool × Bool

abbrev pub firsts : List Mark → List MerkleLeaf
firsts = map (λ m. (m.0, m.1))

abbrev pub seconds : List Mark → List MerkleLeaf
seconds = map (λ m. (m.0, m.2))

-- The leaves that match in one of the trees.
abbrev pub eithers : List Mark → List MerkleLeaf
eithers = map (λ m. (m.0, m.1 || m.2))

abbrev pub flips : List Mark → List Mark
flips = map (λ m. (m.0, m.2, m.1))

pub take-map :
    {A B : Type 0} (f : A → B) (n : ℕ) (xs : List A) → take n (map f xs) ≡ map f (take n xs)
take-map f zero xs = refl
take-map f (suc n) [] = refl
take-map f (suc n) (x ∷ xs) = ap (◌∷◌ (f x)) (take-map f n xs)

pub drop-map :
    {A B : Type 0} (f : A → B) (n : ℕ) (xs : List A) → drop n (map f xs) ≡ map f (drop n xs)
drop-map f zero xs = refl
drop-map f (suc n) [] = refl
drop-map f (suc n) (x ∷ xs) = drop-map f n xs

pub firsts-flips : (ms : List Mark) → firsts (flips ms) ≡ seconds ms
firsts-flips [] = refl
firsts-flips (m ∷ ms) = ap (◌∷◌ (m.0, m.2)) (firsts-flips ms)

pub seconds-flips : (ms : List Mark) → seconds (flips ms) ≡ firsts ms
seconds-flips [] = refl
seconds-flips (m ∷ ms) = ap (◌∷◌ (m.0, m.1)) (seconds-flips ms)

pub eithers-flips : (ms : List Mark) → eithers (flips ms) ≡ eithers ms
eithers-flips [] = refl
eithers-flips ((h, a, b) ∷ ms) = rw (eithers-flips ms) (either_order a b)
  where
    either_order : (a b : Bool) → (h, b || a) ∷ eithers ms ≡ (h, a || b) ∷ eithers ms
    either_order true true = refl
    either_order true false = refl
    either_order false true = refl
    either_order false false = refl

pub hashes-firsts : (ms : List Mark) → hashes_of (firsts ms) ≡ hashes_of (seconds ms)
hashes-firsts [] = refl
hashes-firsts (m ∷ ms) = ap (◌∷◌ m.0) (hashes-firsts ms)

pub hashes-eithers : (ms : List Mark) → hashes_of (firsts ms) ≡ hashes_of (eithers ms)
hashes-eithers [] = refl
hashes-eithers (m ∷ ms) = ap (◌∷◌ m.0) (hashes-eithers ms)

-- Where the second tree has no match, its matches add nothing.
pub eithers-firsts : (ms : List Mark) → matches (seconds ms) ≡ [] → eithers ms ≡ firsts ms
unfolding matches
eithers-firsts [] e = refl
eithers-firsts ((h, true, true) ∷ ms) e = cc
eithers-firsts ((h, false, true) ∷ ms) e = cc
eithers-firsts ((h, true, false) ∷ ms) e = ap (◌∷◌ (h, true)) (eithers-firsts ms e)
eithers-firsts ((h, false, false) ∷ ms) e = ap (◌∷◌ (h, false)) (eithers-firsts ms e)

pub eithers-seconds : (ms : List Mark) → matches (firsts ms) ≡ [] → eithers ms ≡ seconds ms
unfolding matches
eithers-seconds [] e = refl
eithers-seconds ((h, true, b) ∷ ms) e = cc
eithers-seconds ((h, false, b) ∷ ms) e = ap (◌∷◌ (h, b)) (eithers-seconds ms e)

pub none_either : (ms : List Mark) → matches (eithers ms) ≡ [] → matches (firsts ms) ≡ []
unfolding matches
none_either [] e = refl
none_either ((h, true, b) ∷ ms) e = cc
none_either ((h, false, true) ∷ ms) e = cc
none_either ((h, false, false) ∷ ms) e = none_either ms e
