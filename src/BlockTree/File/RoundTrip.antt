-- ===== src/BlockTree/File/RoundTrip.antt =====
-- The block tree, written to a file and loaded from it.
use m_signa.Prelude.{
  ℕ, suc, ◌+◌, ◌*◌, ◌/◌, ◌%◌, ◌≤◌, ◌<◌, ◌≡◌, ◌≢◌, refl, sym, ap, ◌∙◌, List, [], ◌∷◌, true, false,
  ◌==◌, ==_iff, Bool-cases, inl, inr, ◌-◌, if◌then◌else◌, All, some, length, arith,
}
use mathlib.Core.Path.{subst}
use m_signa.Result.{ok, err}
use m_signa.Bytes.{Bytes, bytes_eq_refl}
use m_signa.BlockHeader.{BlockHeader}
use m_signa.BlockTree.Defs.{ChainHeader, BlockTree, Map, Hashing, has_child, empty_tree}
use m_signa.BlockTree.Queries.{at_height}
use m_signa.BlockTree.File.{flush_loop, flush_to_file, load_from_file, out_of_bounds}
use m_signa.BlockTree.Links.{some-injective}
use m_signa.BlockTree.Shape.{Run, Run-unique, behind}
use m_signa.BlockTree.Invariant.{WellFormed}
use m_signa.BlockTree.Lookup.{best_at_height}
use m_signa.BlockTree.File.Replay.{
  Sound, Line, always, headers_of, load_headers, first-Line, rest-Line,
}
use m_signa.BlockTree.File.Records.{Writable, records, length-records, put_record-record_of}
use m_signa.BlockTree.File.Chunks.{load_chunks-records}
use m_signa.BlockTree.File.Overrun.{Stored, load_chunks-overrun}

length-headers_of :
    (s : Map Bytes ChainHeader) (n : ℕ) (p : Bytes) (ks : List Bytes) (r : Run s n p ks)
    → length (headers_of s n p ks r) ≡ length ks
length-headers_of s n p [] r = refl
length-headers_of s n p (k ∷ ks) (h, eh, en, ep, rest) =
    ap suc (length-headers_of s (suc n) k ks rest)

whole : (n : ℕ) → (84 * n % 84 == 0) ≡ true
whole n = (==_iff (84 * n % 84) 0).1 (omega arith)

-- Two trees with the same best chain.
pub record SameBest (t t' : BlockTree) : Type 0 where
  pub heights_eq : (i : ℕ) → t'.heights i ≡ t.heights i
  pub next_height_eq : t'.next_height ≡ t.next_height
  pub total_eq : t'.total_work ≡ t.total_work
  pub head_eq : t'.head ≡ t.head

module _ (hashing : Hashing) (t : BlockTree) (w : WellFormed t)
    (sound : Sound hashing t.headers) where
  headers_of-Writable :
      (n : ℕ) (p : Bytes) (ks : List Bytes) (r : Run t.headers n p ks)
      → All (Writable hashing) (headers_of t.headers n p ks r)
  headers_of-Writable n p [] r = _
  headers_of-Writable n p (k ∷ ks) (h, eh, en, ep, rest) = (
    (
      sound.sized k h eh,
      subst (λ (b : Bytes). 4 ≤ length b) (sym (sound.keyed k h eh)) (sound.hash_size k h eh),
    ),
    headers_of-Writable (suc n) k ks rest,
  )

  -- What the loop of `flushToFile` writes.
  flush_loop-records :
      (n : ℕ) (p : Bytes) (ks : List Bytes) (r : Run t.headers n p ks)
      → ((j : Bytes) → has_child j ks ≡ true → has_child j w.chain ≡ true)
      → flush_loop hashing t (length ks) n ≡ ok (records hashing (headers_of t.headers n p ks r))
  unfolding flush_loop
  flush_loop-records n p [] r inside = refl
  flush_loop-records n p (k ∷ ks) (h, eh, en, ep, rest) inside =
      let (low, found) = best_at_height t w k h eh (inside k (rw (bytes_eq_refl k))) in
      let here : at_height t n ≡ ok h = ap (at_height t) (sym en) ∙ found in
      let writable : Writable hashing h.header =
        (headers_of-Writable n p (k ∷ ks) (h, eh, en, ep, rest)).0 in
      let up : n + 1 ≡ suc n = omega arith in
      let later = flush_loop-records (suc n) k ks rest (λ j e. inside j (behind k ks j e)) in
      rw (here, put_record-record_of hashing h.header writable, up, later)

  -- All headers of the best chain, loaded one after the other.
  replay :
      (origin : Bytes) (ks : List Bytes) (r : Run t.headers 0 origin ks)
      → 0 < length ks
      → (u : BlockTree) × (count : ℕ) × (k : Bytes) × (h : ChainHeader) × (t.headers k ≡ some h)
        × (load_headers hashing empty_tree 0 (headers_of t.headers 0 origin ks r) ≡ ok (u, count))
        × Line t.headers u ks k h
  unfolding load_headers
  replay origin [] r low = absurd (omega (arith, low))
  replay origin (k ∷ post) (h, eh, en, ep, rest) low =
      let (u1, done, l1) = first-Line hashing t.headers w.forest sound k h eh en in
      let (u, count, j, y, ey, done', l) =
        rest-Line hashing t.headers w.forest sound origin (k ∷ []) post k h u1 1 1 rest
          (omega (arith, en)) (h, eh, en, ep, rest) eh l1 in
      (u, count, j, y, ey, rw done done', l)

  Line-SameBest :
      (u : BlockTree) (k : Bytes) (h : ChainHeader)
      → t.headers k ≡ some h
      → Line t.headers u w.chain k h
      → SameBest t u
  Line-SameBest u k h ek l =
      let same : k ≡ w.tip =
        Run-unique t.headers 0 w.charted.origin w.chain k w.tip h w.top w.charted.run l.member
          w.tip_member ek w.tip_eq (omega (arith, l.size, w.tip_last)) in
      let h_top : h ≡ w.top = some-injective (sym ek ∙ ap t.headers same ∙ w.tip_eq) in
      record {
        heights_eq = λ i. l.heights_eq i ∙ sym (w.charted.heights_eq i);
        next_height_eq = l.next_height_eq ∙ sym w.charted.next_height_eq;
        total_eq = omega (
          arith,
          l.tip.total,
          l.work_eq,
          ap (λ (x : ChainHeader). x.chain_work) h_top,
          w.total_eq,
        );
        head_eq = l.head_eq ∙ ap some same ∙ sym w.head_eq;
      }

  headers_of-Stored :
      (u : BlockTree) (n : ℕ) (p : Bytes) (ks : List Bytes) (r : Run t.headers n p ks)
      → ((j : Bytes) → has_child j ks ≡ true → (y : ChainHeader) × (u.headers j ≡ some y))
      → All (Stored hashing u) (headers_of t.headers n p ks r)
  headers_of-Stored u n p [] r inside = _
  headers_of-Stored u n p (k ∷ ks) (h, eh, en, ep, rest) inside =
      let (y, ey) = inside k (rw (bytes_eq_refl k)) in
      (
        (y, ap u.headers (sound.keyed k h eh) ∙ ey),
        headers_of-Stored u (suc n) k ks rest (λ j e. inside j (behind k ks j e)),
      )

  -- The headers of the best chain, in order.
  best_headers :
      (hs : List BlockHeader) × (flush_to_file hashing t ≡ ok (records hashing hs))
      × (length hs ≡ t.next_height)
      × (0 < length hs)
      × All (Writable hashing) hs
      × (u : BlockTree) × (count : ℕ) × (k : Bytes) × (h : ChainHeader) × (t.headers k ≡ some h)
      × (load_headers hashing empty_tree 0 hs ≡ ok (u, count))
      × Line t.headers u w.chain k h
      × All (Stored hashing u) hs
  unfolding flush_to_file
  best_headers =
      let size : t.next_height ≡ length w.chain = w.charted.next_height_eq in
      let low : 0 < length w.chain = omega (arith, w.tip_last) in
      let (u, count, k, h, ek, loads, l) = replay w.charted.origin w.chain w.charted.run low in
      let hs : List BlockHeader = headers_of t.headers 0 w.charted.origin w.chain w.charted.run in
      let many : length hs ≡ t.next_height =
        length-headers_of t.headers 0 w.charted.origin w.chain w.charted.run ∙ sym size in
      let written =
        subst (λ (n : ℕ). flush_loop hashing t n 0 ≡ ok (records hashing hs)) (sym size)
          (flush_loop-records 0 w.charted.origin w.chain w.charted.run (λ j e. e)) in
      (
        hs,
        rw (positive t.next_height (omega (arith, size, low))) written,
        many,
        omega (arith, many, size, low),
        headers_of-Writable 0 w.charted.origin w.chain w.charted.run,
        u,
        count,
        k,
        h,
        ek,
        loads,
        l,
        headers_of-Stored u 0 w.charted.origin w.chain w.charted.run l.all,
      )
    where
      positive : (n : ℕ) → 0 < n → (if n == 0 then false else true) ≡ true
      positive n p = ground (arith, p)

  -- `flushToFile` of a tree with the invariant, whose headers are sound, always succeeds. If the number of headers in the best chain is no multiple of 64, `loadFromFile` of the
  -- file, with the proof of work checked and a callback that never stops it, succeeds too, whatever
  -- its buffer held, and the best chain is the same: its heights, its length, its total work and its
  -- head.
  pub load_from_file-flush_to_file :
      (buf : Bytes)
      → t.next_height % 64 ≢ 0
      → (file : Bytes) × (flush_to_file hashing t ≡ ok file)
        × (t' : BlockTree) × (load_from_file hashing true always buf file ≡ ok t')
        × SameBest t t'
  unfolding load_from_file
  load_from_file-flush_to_file buf odd =
      let (hs, written, many, low, v, u, count, k, h, ek, loads, l, stored) = best_headers in
      (
        records hashing hs,
        written,
        u,
        rw (length-records hashing hs v, whole (length hs))
            (load_chunks-records hashing (t.next_height / 64) (t.next_height % 64)
              (suc (84 * length hs)) hs buf empty_tree 0 (u, count) (omega (arith, many))
              (omega (arith, odd)) (omega arith) (omega (arith, many)) v loads),
        Line-SameBest u k h ek l,
      )

  -- If the number of headers in the best chain is a multiple of 64, `flushToFile` of a tree with the
  -- invariant, whose headers are sound, succeeds all the same, and `loadFromFile` of the file, with
  -- the proof of work checked and a callback that never stops it, always accesses memory behind the
  -- end of its buffer of 5376 bytes.
  pub load_from_file-overrun :
      (buf : Bytes)
      → length buf ≡ 5376
      → t.next_height % 64 ≡ 0
      → (file : Bytes) × (flush_to_file hashing t ≡ ok file)
        × (load_from_file hashing true always buf file ≡ err out_of_bounds)
  unfolding load_from_file
  load_from_file-overrun buf full even =
      let (hs, written, many, low, v, u, count, k, h, ek, loads, l, stored) = best_headers in
      let q : ℕ = t.next_height / 64 - 1 in
      (
        records hashing hs,
        written,
        rw (length-records hashing hs v, whole (length hs))
            (load_chunks-overrun hashing q (suc (84 * length hs)) hs buf empty_tree 0 (u, count)
              (omega (arith, many, even, low)) (omega (arith, many, even, low))
              (omega (arith, full)) v loads (omega (arith, l.next_height_eq, l.size))
              (not_zero u.count l.count_pos) stored),
      )
    where
      not_zero : (n : ℕ) → n ≢ 0 → (n == 0) ≡ false
      not_zero n p = elim (Bool-cases (n == 0)) [
        | inl z ↦ absurd (p ((==_iff n 0).0 z))
        | inr z ↦ z
      ]
