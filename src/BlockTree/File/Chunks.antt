-- ===== src/BlockTree/File/Chunks.antt =====
-- The loop of `loadFromFile` over the whole file, 64 records at a time.
use m_signa.Prelude.{
  ℕ, zero, suc, ◌+◌, ◌*◌, ◌<◌, ◌≡◌, refl, sym, ap, ◌∙◌, List, [], ◌∷◌, ◌++◌, true, false, ◌==◌,
  ==_iff, Bool-cases, inl, inr, All, length, take, drop, length-take, length-drop, take-all,
  take-append, take-append-drop, drop-append, arith,
}
use mathlib.Core.Path.{subst}
use m_signa.Result.{ok, >>=-eq-ok}
use m_signa.Bytes.{Bytes}
use m_signa.BlockHeader.{BlockHeader}
use m_signa.BlockTree.Defs.{BlockTree, Hashing}
use m_signa.BlockTree.File.{load_header, load_chunks}
use m_signa.BlockTree.File.Replay.{always, load_headers}
use m_signa.BlockTree.File.Records.{
  Writable, records, length-records, records-append, load_records-exact,
}

equal : (n : ℕ) → (n == n) ≡ true
equal n = (==_iff n n).1 refl

not_equal : (m n : ℕ) → m < n → (m == n) ≡ false
not_equal m n h = elim (Bool-cases (m == n)) [
  | inl e ↦ absurd (omega (arith, h, (==_iff m n).0 e))
  | inr e ↦ e
]

pub All-split :
    {A : Type 0} (P : A → Type 0) (xs ys : List A) → All P (xs ++ ys) → All P xs × All P ys
All-split P [] ys v = (_, v)
All-split P (x ∷ xs) ys v = let (a, b) = All-split P xs ys v.1 in ((v.0, a), b)

module _ (hashing : Hashing) where
  pub load_headers-split :
      (xs ys : List BlockHeader) (t : BlockTree) (count : ℕ) (r : BlockTree × ℕ)
      → load_headers hashing t count (xs ++ ys) ≡ ok r
      → (x : BlockTree × ℕ) × (load_headers hashing t count xs ≡ ok x)
        × (load_headers hashing x.0 x.1 ys ≡ ok r)
  unfolding load_headers
  load_headers-split [] ys t count r e = ((t, count), refl, e)
  load_headers-split (h ∷ xs) ys t count r e =
      let (y, e1, e2) = >>=-eq-ok (load_header hashing true always t count h) _ e in
      let (x, f1, f2) = load_headers-split xs ys y.0 y.1 r e2 in (x, rw e1 f1, f2)

  -- A read that does not fill the buffer is the last one.
  last_chunk :
      (fuel : ℕ) (hs : List BlockHeader) (buf : Bytes) (t : BlockTree) (count : ℕ)
      (r : BlockTree × ℕ)
      → 0 < length hs
      → length hs < 64
      → All (Writable hashing) hs
      → load_headers hashing t count hs ≡ ok r
      → load_chunks hashing true always (suc fuel) (records hashing hs) buf t count ≡ ok r.0
  unfolding load_chunks
  last_chunk fuel hs buf t count r low high v e =
      let size = length-records hashing hs v in
      let got = take-all 5376 (records hashing hs) (omega (arith, size, high)) in
      rw (
        got,
        size,
        load_records-exact hashing hs (records hashing hs ++ drop (84 * length hs) buf) _ count t r
            v refl low (omega (arith, high)) e,
        equal (84 * length hs),
        not_equal (84 * length hs) 5376 (omega (arith, high)),
      )

  -- A read of 64 records.
  pub full_chunk :
      (fuel : ℕ) (xs ys : List BlockHeader) (buf : Bytes) (t : BlockTree) (count : ℕ)
      (r : BlockTree × ℕ)
      → length xs ≡ 64
      → All (Writable hashing) xs
      → load_headers hashing t count xs ≡ ok r
      → load_chunks hashing true always (suc fuel) (records hashing (xs ++ ys)) buf t count
        ≡ load_chunks hashing true always fuel
            (records hashing ys)
            (records hashing xs ++ drop 5376 buf)
            r.0
            r.1
  unfolding load_chunks
  full_chunk fuel xs ys buf t count r many v e =
      let size : length (records hashing xs) ≡ 5376 =
        omega (arith, length-records hashing xs v, many) in
      let exact =
        load_records-exact hashing xs (records hashing xs ++ drop 5376 buf) _ count t r v refl
          (omega (arith, many)) (omega (arith, many)) e in
      let n : 84 * length xs ≡ 5376 = omega (arith, many) in
      rw (
        records-append hashing xs ys,
        take-append 5376 (records hashing xs) (records hashing ys) size,
        size,
        (rw n at exact),
        drop-append 5376 (records hashing xs) (records hashing ys) size,
      )

  -- The whole file, where the number of records is no multiple of 64.
  pub load_chunks-records :
      (q m fuel : ℕ) (hs : List BlockHeader) (buf : Bytes) (t : BlockTree) (count : ℕ)
      (r : BlockTree × ℕ)
      → length hs ≡ 64 * q + m
      → 0 < m
      → m < 64
      → q < fuel
      → All (Writable hashing) hs
      → load_headers hashing t count hs ≡ ok r
      → load_chunks hashing true always fuel (records hashing hs) buf t count ≡ ok r.0
  load_chunks-records q m zero hs buf t count r size low high enough v e = elim enough [ ]
  load_chunks-records zero m (suc fuel) hs buf t count r size low high enough v e =
      last_chunk fuel hs buf t count r (omega (arith, size, low)) (omega (arith, size, high)) v e
  load_chunks-records (suc q) m (suc fuel) hs buf t count r size low high enough v e =
      let shape : take 64 hs ++ drop 64 hs ≡ hs = take-append-drop 64 hs in
      let (v1, v2) =
        All-split (Writable hashing) (take 64 hs) (drop 64 hs)
          (subst (All (Writable hashing)) (sym shape) v) in
      let (x, e1, e2) =
        load_headers-split (take 64 hs) (drop 64 hs) t count r
          (ap (load_headers hashing t count) shape ∙ e) in
      ap
        (λ (l : List BlockHeader).
          load_chunks hashing true always (suc fuel) (records hashing l) buf t count)
        (sym shape)
      ∙ full_chunk fuel (take 64 hs) (drop 64 hs) buf t count x
          (omega (arith, length-take 64 hs, size)) v1 e1
      ∙ load_chunks-records q m fuel (drop 64 hs) _ x.0 x.1 r
          (omega (arith, length-drop 64 hs, size)) low high (omega (arith, enough)) v2 e2
