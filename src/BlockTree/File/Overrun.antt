-- ===== src/BlockTree/File/Overrun.antt =====
-- `loadFromFile` where the file is a multiple of 64 records long: the last read gets nothing, the
-- bound of the loop over the buffer wraps around, and the loop goes over what the buffer still holds.
use m_signa.Prelude.{
  ℕ, zero, suc, ◌+◌, ◌*◌, ◌%◌, ◌^◌, ◌≤◌, ◌<◌, ◌≡◌, refl, sym, ap, ◌∙◌, List, [], ◌∷◌, ◌++◌, true,
  false, ◌==◌, lt→ltb, leb, leb-false, All, some, length, take, drop, length-append, length-take,
  length-drop, take-append-drop, append-nil, arith,
}
use mathlib.Core.Path.{subst}
use m_signa.Result.{ok, err}
use m_signa.Bytes.{Bytes, slice}
use m_signa.Bytes.Cursor.{At, At-start}
use m_signa.BlockHeader.{BlockHeader}
use m_signa.BlockTree.Defs.{ChainHeader, BlockTree, Hashing, insert_header}
use m_signa.BlockTree.File.{load_header, load_record, load_records, load_chunks, out_of_bounds}
use m_signa.BlockTree.File.Replay.{always, load_headers, passes}
use m_signa.BlockTree.File.Records.{Writable, records, length-records, load_records-At}
use m_signa.BlockTree.File.Chunks.{All-split, load_headers-split, full_chunk}

module _ (hashing : Hashing) where
  open hashing use {hash}

  -- The tree has the header already.
  abbrev pub Stored : BlockTree → BlockHeader → Type 0
  Stored u h = (y : ChainHeader) × (u.headers (hash h) ≡ some y)

  -- Headers that are there already change nothing.
  load_headers-Stored :
      (hs : List BlockHeader) (u : BlockTree) (count : ℕ)
      → 0 < u.next_height
      → (u.count == 0) ≡ false
      → All (Stored u) hs
      → (count' : ℕ) × (load_headers hashing u count hs ≡ ok (u, count'))
  unfolding load_headers load_header insert_header
  load_headers-Stored [] u count low some_header v = (count, refl)
  load_headers-Stored (h ∷ hs) u count low some_header ((y, ey), v) =
      let (count', e) = load_headers-Stored hs u ((count + 1) % 2 ^ 32) low some_header v in
      (count', rw (lt→ltb 0 u.next_height low, some_header, ey, passes (count % 10000 == 0)) e)

  -- After the last read, which got nothing.
  stale_chunk :
      (fuel : ℕ) (hs : List BlockHeader) (buf : Bytes) (u : BlockTree) (count : ℕ)
      → buf ≡ records hashing hs
      → length hs ≡ 64
      → All (Writable hashing) hs
      → 0 < u.next_height
      → (u.count == 0) ≡ false
      → All (Stored u) hs
      → load_chunks hashing true always (suc fuel) [] buf u count ≡ err out_of_bounds
  unfolding load_chunks load_records load_record slice
  stale_chunk fuel hs buf u count shape many v low some_header stored =
      let size : length buf ≡ 5376 =
        omega (arith, ap length shape, length-records hashing hs v, many) in
      let (count', known) = load_headers-Stored hs u count low some_header stored in
      let buffer : At 0 buf (records hashing hs ++ []) =
        subst (At 0 buf) (shape ∙ sym (append-nil (records hashing hs))) (At-start buf) in
      let over =
        load_records-At hashing hs 65 1 buf [] 0 0 count u (u, count') (omega (arith, many)) v
          buffer (omega (arith, many)) known in
      let n : 0 + 84 * length hs ≡ 5376 = omega (arith, many) in
      let outside : leb (5376 + 80) (length buf) ≡ false =
        leb-false (5376 + 80) (length buf) (omega (arith, size)) in
      let over' = rw n at over in rw over' (rw outside)

  -- The whole file, where the number of records is a multiple of 64.
  pub load_chunks-overrun :
      (q fuel : ℕ) (hs : List BlockHeader) (buf : Bytes) (t : BlockTree) (count : ℕ)
      (r : BlockTree × ℕ)
      → length hs ≡ 64 * suc q
      → suc q < fuel
      → length buf ≤ 5376
      → All (Writable hashing) hs
      → load_headers hashing t count hs ≡ ok r
      → 0 < r.0.next_height
      → (r.0.count == 0) ≡ false
      → All (Stored r.0) hs
      → load_chunks hashing true always fuel (records hashing hs) buf t count ≡ err out_of_bounds
  load_chunks-overrun q zero hs buf t count r size enough small v e low some_header stored =
      elim enough [ ]
  load_chunks-overrun q (suc zero) hs buf t count r size enough small v e low some_header stored =
      absurd (omega (arith, enough))
  load_chunks-overrun zero (suc (suc fuel)) hs buf t count r size enough small v e low some_header
        stored =
      let empty : drop 5376 buf ≡ [] =
        nothing (drop 5376 buf) (omega (arith, length-drop 5376 buf, small)) in
      ap
        (λ (l : List BlockHeader).
          load_chunks hashing true always (suc (suc fuel)) (records hashing l) buf t count)
        (sym (append-nil hs))
      ∙ full_chunk hashing (suc fuel) hs [] buf t count r (omega (arith, size)) v e
      ∙ stale_chunk fuel hs _ r.0 r.1
          (ap (λ (b : Bytes). records hashing hs ++ b) empty ∙ append-nil (records hashing hs))
          (omega (arith, size)) v low some_header stored
    where
      nothing : (bs : Bytes) → length bs ≡ 0 → bs ≡ []
      nothing [] z = refl
      nothing (b ∷ bs) z = absurd (omega (arith, z))
  load_chunks-overrun (suc q) (suc (suc fuel)) hs buf t count r size enough small v e low
        some_header stored =
      let shape : take 64 hs ++ drop 64 hs ≡ hs = take-append-drop 64 hs in
      let (v1, v2) =
        All-split (Writable hashing) (take 64 hs) (drop 64 hs)
          (subst (All (Writable hashing)) (sym shape) v) in
      let (s1, s2) =
        All-split (Stored r.0) (take 64 hs) (drop 64 hs)
          (subst (All (Stored r.0)) (sym shape) stored) in
      let (x, e1, e2) =
        load_headers-split hashing (take 64 hs) (drop 64 hs) t count r
          (ap (load_headers hashing t count) shape ∙ e) in
      let many : length (take 64 hs) ≡ 64 = omega (arith, length-take 64 hs, size) in
      let buffer : length (records hashing (take 64 hs) ++ drop 5376 buf) ≤ 5376 = omega (
        arith,
        length-append (records hashing (take 64 hs)) (drop 5376 buf),
        length-records hashing (take 64 hs) v1,
        many,
        length-drop 5376 buf,
        small,
      ) in
      ap
        (λ (l : List BlockHeader).
          load_chunks hashing true always (suc (suc fuel)) (records hashing l) buf t count)
        (sym shape)
      ∙ full_chunk hashing (suc fuel) (take 64 hs) (drop 64 hs) buf t count x many v1 e1
      ∙ load_chunks-overrun q (suc fuel) (drop 64 hs) _ x.0 x.1 r
          (omega (arith, length-drop 64 hs, size)) (omega (arith, enough)) buffer v2 e2 low
          some_header s2
