-- ===== src/BlockTree/File/Replay.antt =====
-- The headers of a best chain, given to `loadFromFile` one after the other.
use m_signa.Prelude.{
  ℕ, zero, suc, ◌+◌, ◌%◌, ◌^◌, ◌≤◌, ◌<◌, ◌≡◌, ◌≢◌, refl, sym, ap, ◌∙◌, inl, inr, List, [], ◌∷◌,
  ◌++◌, Bool, true, false, ◌||◌, ◌==◌, ltb, lt→ltb, if◌then◌else◌, none, some, Option-cases,
  Bool-cases, length, length-append, append-nil, append_assoc, get_elem?, arith,
}
use mathlib.Core.Path.{subst}
use m_signa.Result.{Result, ok, ◌>>=◌}
use m_signa.Bytes.{Bytes, bytes_eq, bytes_eq→eq, bytes_eq_refl}
use m_signa.BlockHeader.{BlockHeader, target_of_bits, work_of_bits}
use m_signa.BlockHeader.RoundTrip.{IsHeader}
use m_signa.BlockTree.Defs.{
  ChainHeader, BlockTree, Map, Hashing, has_child, number_of, empty_tree, set_genesis_block, put,
  put_height,
}
use m_signa.BlockTree.File.{FileError, load_header}
use m_signa.BlockTree.Links.{some-injective}
use m_signa.BlockTree.Shape.{bytes_eq_comm, Run, Run-low, Run-split, has_child-append}
use m_signa.BlockTree.Forest.{Forest}
use m_signa.BlockTree.Extend.{IsTip, Extended, insert_header-Extended}
use m_signa.BlockTree.Raise.{put_height-Fits}
use m_signa.BlockTree.Switch.{whole-Fits}

-- What `insertHeader` with its check, and `setGenesisBlock`, give the headers of a tree: the keys are
-- the hashes, of 4 bytes at least, the hashes in a header have 32 bytes, the lowest has its own work
-- only, and the others have a valid proof of work.
pub record Sound (hashing : Hashing) (s : Map Bytes ChainHeader) : Type 0 where
  pub keyed : (k : Bytes) (h : ChainHeader) → s k ≡ some h → hashing.hash h.header ≡ k
  pub sized : (k : Bytes) (h : ChainHeader) → s k ≡ some h → IsHeader h.header
  pub hash_size : (k : Bytes) (h : ChainHeader) → s k ≡ some h → 4 ≤ length k
  pub first_work :
      (k : Bytes) (h : ChainHeader)
      → s k ≡ some h
      → h.height ≡ 0
      → h.chain_work ≡ work_of_bits h.header.bits
  pub proved :
      (k : Bytes) (h : ChainHeader)
      → s k ≡ some h
      → 0 < h.height
      → number_of 0 (hashing.pow_hash h.header) ≤ target_of_bits h.header.bits

-- The headers of a run.
abbrev pub headers_of :
    (s : Map Bytes ChainHeader) (n : ℕ) (p : Bytes) (ks : List Bytes)
    → Run s n p ks
    → List BlockHeader
headers_of s n p [] r = []
headers_of s n p (k ∷ ks) (h, eh, en, ep, rest) = h.header ∷ headers_of s (suc n) k ks rest

-- The tree `u` holds the headers of `pre`, in a line, the last of them `x` under `p`.
pub record Line (s : Map Bytes ChainHeader) (u : BlockTree) (pre : List Bytes) (p : Bytes)
    (x : ChainHeader) : Type 0 where
  pub last : ChainHeader
  pub tip : IsTip u p last
  pub height_eq : last.height ≡ x.height
  pub work_eq : last.chain_work ≡ x.chain_work
  pub size : length pre ≡ suc x.height
  pub member : has_child p pre ≡ true
  pub heights_eq : (i : ℕ) → u.heights i ≡ get_elem? pre i
  pub next_height_eq : u.next_height ≡ length pre
  pub head_eq : u.head ≡ some p
  pub count_pos : u.count ≢ 0
  pub known : (j : Bytes) (y : ChainHeader) → u.headers j ≡ some y → has_child j pre ≡ true
  pub all : (j : Bytes) → has_child j pre ≡ true → (y : ChainHeader) × (u.headers j ≡ some y)

-- With a callback that never stops the load.
abbrev pub always : BlockTree → Bool
always t = true

pub passes : (b : Bool) → (if b then true else true) ≡ true
passes true = refl
passes false = refl

at_end : (k : Bytes) (pre : List Bytes) → has_child k (pre ++ (k ∷ [])) ≡ true
at_end k pre = rw (has_child-append k pre (k ∷ [])) (ground (arith, bytes_eq_refl k))

earlier :
    (j k : Bytes) (pre : List Bytes) → has_child j pre ≡ true → has_child j (pre ++ (k ∷ [])) ≡ true
earlier j k pre e = rw (has_child-append j pre (k ∷ [])) (ground (arith, e))

last_one :
    (j k : Bytes) (pre : List Bytes)
    → has_child j (pre ++ (k ∷ [])) ≡ true
    → has_child j pre ≡ false
    → j ≡ k
last_one j k pre e outside =
    bytes_eq→eq j k
      (only (has_child j pre) (bytes_eq j k) (sym (has_child-append j pre (k ∷ [])) ∙ e) outside)
  where
    only : (a b : Bool) → (a || (b || false)) ≡ true → a ≡ false → b ≡ true
    only a b e p = ground (arith, e, p)

-- The genesis header, and a tree of it alone.
abbrev pub alone : BlockHeader → ChainHeader
alone header = record {
  header = header;
  in_best_chain = true;
  height = 0;
  chain_work = work_of_bits header.bits;
  child_hashes = [];
}

abbrev pub started : Bytes → BlockHeader → BlockTree
started k header = record {
  headers = put k (alone header) empty_tree.headers;
  count = 0 + 1;
  heights = put_height 0 k empty_tree.heights;
  next_height = 1;
  total_work = work_of_bits header.bits;
  head = some k;
}

module _ (hashing : Hashing) where
  open hashing use {hash, pow_hash}

  -- One header after the other.
  unfoldable pub load_headers : BlockTree → ℕ → List BlockHeader → Result FileError (BlockTree × ℕ)
  load_headers t count [] = ok (t, count)
  load_headers t count (h ∷ hs) =
      load_header hashing true always t count h >>= λ r. load_headers r.0 r.1 hs

  module _ (s : Map Bytes ChainHeader) (forest : Forest s) (sound : Sound hashing s) where
    -- The next header of the line.
    next-Line :
        (u : BlockTree) (count : ℕ) (pre : List Bytes) (p k : Bytes) (x h : ChainHeader)
        → Line s u pre p x
        → s p ≡ some x
        → s k ≡ some h
        → h.height ≡ suc x.height
        → h.header.prev_block_hash ≡ p
        → has_child k pre ≡ false
        → (u' : BlockTree) × (load_header hashing true always u count h.header
            ≡ ok (u', (count + 1) % 2 ^ 32))
          × Line s u' (pre ++ (k ∷ [])) k h
    unfolding load_header
    next-Line u count pre p k x h l ep ek high on_top new = elim (forest.up k h ek) [
      | inl at_root ↦ absurd (omega (arith, high, forest.root_low h (ap s (sym at_root) ∙ ek)))
      | inr linked ↦
          let key : hash h.header ≡ k = sound.keyed k h ek in
          let unknown : u.headers (hash h.header) ≡ none = elim (Option-cases (u.headers k)) [
            | inl nothing ↦ ap u.headers key ∙ nothing
            | inr (y, ey) ↦ cc (l.known k y ey, new)
          ] in
          let parent : linked.parent ≡ x =
            some-injective (sym linked.parent_eq ∙ ap s on_top ∙ ep) in
          let (u', done, g) =
            insert_header-Extended hashing u h.header l.last false l.count_pos unknown
              (subst (λ (q : Bytes). IsTip u q l.last) (sym on_top) l.tip) linked.work_pos
              (sound.proved k h ek (omega (arith, high))) in
          let some_height : ltb 0 u.next_height ≡ true =
            lt→ltb 0 u.next_height (omega (arith, l.next_height_eq, l.size)) in
          let g' : Extended u k h.header l.last u' =
            subst (λ (q : Bytes). Extended u q h.header l.last u') key g in
          (
            u',
            rw (some_height, done, passes (count % 10000 == 0)),
            record {
              last = _;
              tip = g'.tip;
              height_eq = omega (arith, l.height_eq, high);
              work_eq =
                  omega (
                    arith,
                    l.work_eq,
                    linked.work_eq,
                    ap (λ (y : ChainHeader). y.chain_work) parent,
                  );
              size = omega (arith, length-append pre (k ∷ []), l.size, high);
              member = at_end k pre;
              heights_eq = λ i.
                  g'.heights_eq i
                  ∙ subst (λ (n : ℕ). put_height n k u.heights i ≡ get_elem? (pre ++ (k ∷ [])) i)
                      (omega (arith, l.size, l.height_eq))
                      (put_height-Fits pre k u.heights i (whole-Fits pre u.heights l.heights_eq));
              next_height_eq =
                  omega (arith, g'.next_height_eq, length-append pre (k ∷ []), l.size, l.height_eq);
              head_eq = g'.head_eq;
              count_pos = λ e. absurd (omega (arith, e, g'.count_eq));
              known = λ j y e. elim (g'.known j y e) [
                | inl at_new ↦
                    subst (λ (i : Bytes). has_child i (pre ++ (k ∷ [])) ≡ true) (sym at_new)
                      (at_end k pre)
                | inr (z, ez) ↦ earlier j k pre (l.known j z ez)
              ];
              all = λ j e. elim (Bool-cases (has_child j pre)) [
                | inl inside ↦ let (y, ey) = l.all j inside in g'.kept j y ey
                | inr outside ↦ (_, ap u'.headers (last_one j k pre e outside) ∙ g'.tip.stored)
              ];
            },
          )
    ]

    -- The genesis header.
    pub first-Line :
        (k : Bytes) (h : ChainHeader)
        → s k ≡ some h
        → h.height ≡ 0
        → (u' : BlockTree) × (load_header hashing true always empty_tree 0 h.header ≡ ok (u', 1))
          × Line s u' (k ∷ []) k h
    unfolding load_header set_genesis_block
    first-Line k h ek low =
        let key : hash h.header ≡ k = sound.keyed k h ek in
        (_, refl, subst (λ (q : Bytes). Line s (started q h.header) (k ∷ []) k h) (sym key) start)
      where
        heights : (i : ℕ) → put_height 0 k (λ j. none) i ≡ get_elem? (k ∷ []) i
        heights zero = refl
        heights (suc i) = ground arith

        only :
            (j : Bytes) (y : ChainHeader)
            → (if bytes_eq k j then some (alone h.header) else none) ≡ some y
            → has_child j (k ∷ []) ≡ true
        only j y e = elim (Bool-cases (bytes_eq k j)) [
          | inl same ↦ rw (bytes_eq_comm j k, same)
          | inr other ↦ cc (rw other at e)
        ]

        alone_in : (j : Bytes) → has_child j (k ∷ []) ≡ true → bytes_eq j k ≡ true
        alone_in j e = ground (arith, e)

        start : Line s (started k h.header) (k ∷ []) k h
        start = record {
          last = alone h.header;
          tip = record { stored = rw (bytes_eq_refl k); best = refl; leaf = refl; total = refl };
          height_eq = sym low;
          work_eq = sym (sound.first_work k h ek low);
          size = omega (arith, low);
          member = rw (bytes_eq_refl k);
          heights_eq = heights;
          next_height_eq = refl;
          head_eq = refl;
          count_pos = λ e. absurd (omega (arith, e));
          known = only;
          all = λ j e. (alone h.header, rw (bytes_eq→eq j k (alone_in j e), bytes_eq_refl k));
        }

    -- The rest of the line.
    pub rest-Line :
        (origin : Bytes) (pre post : List Bytes) (p : Bytes) (x : ChainHeader) (u : BlockTree)
        (count n : ℕ) (r : Run s n p post)
        → n ≡ suc x.height
        → Run s 0 origin (pre ++ post)
        → s p ≡ some x
        → Line s u pre p x
        → (u' : BlockTree) × (count' : ℕ) × (k : Bytes) × (h : ChainHeader) × (s k ≡ some h)
          × (load_headers u count (headers_of s n p post r) ≡ ok (u', count'))
          × Line s u' (pre ++ post) k h
    unfolding load_headers
    rest-Line origin pre [] p x u count n r e whole ep l = (
      u,
      count,
      p,
      x,
      ep,
      refl,
      subst (λ (ks : List Bytes). Line s u ks p x) (sym (append-nil pre)) l,
    )
    rest-Line origin pre (k ∷ post) p x u count n (h, eh, en, on_top, rest) e whole ep l =
        let low = (Run-split s 0 origin pre post k h whole eh).0 in
        let new : has_child k pre ≡ false = elim (Bool-cases (has_child k pre)) [
          | inl inside ↦
              absurd (omega (arith, low, Run-low s 0 origin pre (k ∷ post) k h whole inside eh))
          | inr outside ↦ outside
        ] in
        let (u1, done, l1) = next-Line u count pre p k x h l ep eh (en ∙ e) on_top new in
        let shape : (pre ++ (k ∷ [])) ++ post ≡ pre ++ (k ∷ post) =
          append_assoc pre (k ∷ []) post in
        let (u', count', j, y, ey, done', l') =
          rest-Line origin (pre ++ (k ∷ [])) post k h u1 ((count + 1) % 2 ^ 32) (suc n) rest
            (omega (arith, en)) (subst (Run s 0 origin) (sym shape) whole) eh l1 in
        (
          u',
          count',
          j,
          y,
          ey,
          rw done done',
          subst (λ (ks : List Bytes). Line s u' ks j y) shape l',
        )
