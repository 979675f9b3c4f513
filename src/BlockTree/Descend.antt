-- ===== src/BlockTree/Descend.antt =====
-- The way down the best chain in `unsetBestChain`.
use m_signa.Prelude.{
  ℕ, zero, suc, ◌+◌, ◌<◌, ◌≡◌, refl, sym, ap, ◌∙◌, List, [], ◌∷◌, Bool, true, false, ◌&&◌, ◌||◌,
  ltb, leb, if◌then◌else◌, none, some, Bool-cases, inl, inr, length, arith,
}
use mathlib.Core.Path.{subst}
use m_signa.Result.{ok}
use m_signa.Bytes.{Bytes, bytes_eq, bytes_eq→eq, bytes_eq_refl}
use m_signa.BlockTree.Defs.{
  ChainHeader, Map, Maps, has_child, mark, descend, erase_height, removed_best,
}
use m_signa.BlockTree.Links.{at_hash-some, some-injective}
use m_signa.BlockTree.Shape.{
  Marked, Marked-some, Marked-ext, mark-Marked, Run, Run-height, Run-unique, behind, ahead,
  bytes_eq_comm, first_best-some,
}
use m_signa.BlockTree.Forest.{Forest}

-- The flags without those of `post`.
abbrev pub without : (Bytes → Bool) → List Bytes → Bytes → Bool
without best post j = if has_child j post then false else best j

-- The heights without the `n` of them above `low`.
abbrev pub cleared : ℕ → ℕ → Map ℕ Bytes → Map ℕ Bytes
cleared low n heights i = if ltb low i && leb i (low + n) then none else heights i

-- What is known where the way down stands at `k`: the best chain goes on with `post`, and its last
-- header has no children.
pub record Above (s : Map Bytes ChainHeader) (best : Bytes → Bool) (k : Bytes) (h : ChainHeader)
    (post : List Bytes) : Type 0 where
  pub stored : s k ≡ some h
  pub run : Run s (suc h.height) k post
  pub flagged : (j : Bytes) → has_child j post ≡ true → best j ≡ true
  pub only :
      (j : Bytes) (x : ChainHeader)
      → s j ≡ some x
      → best j ≡ true
      → h.height < x.height
      → has_child j post ≡ true
  pub leaf :
      (j : Bytes) (x : ChainHeader)
      → s j ≡ some x
      → has_child j (k ∷ post) ≡ true
      → x.height ≡ h.height + length post
      → x.child_hashes ≡ []

pub record Descended (s : Map Bytes ChainHeader) (best : Bytes → Bool) (h : ChainHeader)
    (post : List Bytes) (heights : Map ℕ Bytes) (r : Maps) : Type 0 where
  pub marked : Marked s r.0 (without best post)
  pub heights_eq : (i : ℕ) → r.1 i ≡ cleared h.height (length post) heights i

unmasked : (b d : Bool) → (if b then false else d) ≡ true → d ≡ true
unmasked true d e = cc
unmasked false d e = e

pub masked :
    (b b' d e : Bool)
    → b ≡ b'
    → (if d then false else (if b then false else e)) ≡ (if b' || d then false else e)
masked b b' d e p = ground (arith, p)

cleared_step :
    (low high n : ℕ) (heights : Map ℕ Bytes) (i : ℕ)
    → high ≡ suc low
    → cleared high n (erase_height high heights) i ≡ cleared low (suc n) heights i
cleared_step low high n heights i e = ground arith

some_child :
    (c : Bytes) (cs : List Bytes)
    → has_child c cs ≡ true
    → (d : Bytes) × (ds : List Bytes) × (cs ≡ d ∷ ds)
some_child c [] e = cc
some_child c (d ∷ ds) e = (d, ds, refl)

module _ (s : Map Bytes ChainHeader) (forest : Forest s) where
  height_at :
      (j k : Bytes) (x y : ChainHeader) → j ≡ k → s j ≡ some x → s k ≡ some y → x.height ≡ y.height
  height_at j k x y same ex ey =
      ap (λ (z : ChainHeader). z.height) (some-injective (sym ex ∙ ap s same ∙ ey))

  -- Which children of `k` are flagged: the next one in the run.
  pub best_children :
      (best : Bytes → Bool) (k c : Bytes) (h : ChainHeader) (rest : List Bytes)
      → Above s best k h (c ∷ rest)
      → (j : Bytes) → has_child j h.child_hashes ≡ true
      → (y : ChainHeader) × (s j ≡ some y) × (best j ≡ true → j ≡ c)
  best_children best k c h rest a j member =
      let (y, ey, high, on_k) = forest.down k h j a.stored member in
      (y, ey, λ flag. next y ey high (a.only j y ey flag (omega arith)))
    where
      next :
          (y : ChainHeader)
          → s j ≡ some y
          → y.height ≡ suc h.height
          → has_child j (c ∷ rest) ≡ true
          → j ≡ c
      next y ey high inside =
          let (z, ez, low, on_top, run) = a.run in
          Run-unique s (suc h.height) k (c ∷ rest) j c y z a.run inside (rw (bytes_eq_refl c)) ey ez
            (high ∙ sym low)

  -- The next header of the run is a child.
  pub run-child :
      (k c : Bytes) (h x : ChainHeader)
      → s k ≡ some h
      → s c ≡ some x
      → x.height ≡ suc h.height
      → x.header.prev_block_hash ≡ k
      → has_child c h.child_hashes ≡ true
  run-child k c h x ek ec high on_top = elim (forest.up c x ec) [
    | inl at_root ↦ absurd (omega (arith, forest.root_low x (ap s (sym at_root) ∙ ec), high))
    | inr l ↦
        let same : l.parent ≡ h = some-injective (sym l.parent_eq ∙ ap s on_top ∙ ek) in
        subst (λ (p : ChainHeader). has_child c p.child_hashes ≡ true) same l.child
  ]

  -- The rest of the way, with `c` behind.
  pub next-Above :
      (best : Bytes → Bool) (k c : Bytes) (h x : ChainHeader) (rest : List Bytes)
      → Above s best k h (c ∷ rest)
      → s c ≡ some x
      → x.height ≡ suc h.height
      → Above s (λ j. if bytes_eq c j then false else best j) c x rest
  next-Above best k c h x rest a ec high =
      let (z, ez, low, on_top, run) = a.run in
      let tail : Run s (suc x.height) c rest =
        subst (λ (n : ℕ). Run s (suc n) c rest) (sym high) run in
      record {
        stored = ec;
        run = tail;
        flagged = λ j member.
            rw (apart_from j x.height (λ p. later j member p tail))
              (a.flagged j (behind c rest j member));
        only = λ j y ey flag above.
            ahead j c rest
              (a.only j y ey (unmasked (bytes_eq c j) (best j) flag) (omega (arith, high)))
              (λ same. omega (arith, height_at j c y x same ey ec, above));
        leaf = λ j y ey member high'. a.leaf j y ey (behind k (c ∷ rest) j member) (omega arith);
      }
    where
      later : (j : Bytes) → has_child j rest ≡ true → c ≡ j → Run s (suc x.height) c rest → ⊥
      later j member same tail =
          let (w, ew, lo, hi) = Run-height s (suc x.height) c rest j tail member in
          omega (arith, lo, height_at j c w x (sym same) ew ec)

      apart_from : (j : Bytes) (n : ℕ) → (c ≡ j → ⊥) → bytes_eq c j ≡ false
      apart_from j n apart = elim (Bool-cases (bytes_eq c j)) [
        | inl same ↦ absurd (apart (bytes_eq→eq c j same))
        | inr other ↦ other
      ]

  pub descend-Descended :
      (post : List Bytes) (fuel : ℕ) (m : Map Bytes ChainHeader) (best : Bytes → Bool)
      (heights : Map ℕ Bytes) (k : Bytes) (h : ChainHeader)
      → Marked s m best
      → Above s best k h post
      → length post < fuel
      → (r : Maps) × (descend fuel m heights k ≡ ok r) × Descended s best h post heights r
  unfolding descend
  descend-Descended post zero m best heights k h v a low = elim low [ ]
  descend-Descended [] (suc fuel) m best heights k h v a low =
      let here = at_hash-some m k _ (Marked-some s m best k h v a.stored) in
      let no_child : h.child_hashes ≡ [] =
        a.leaf k h a.stored (rw (bytes_eq_refl k)) (omega arith) in
      ((m, heights, []), rw (here, no_child), record { marked = v; heights_eq = λ i. ground arith })
  descend-Descended (c ∷ rest) (suc fuel) m best heights k h v a low =
      let (x, ex, high, on_top, run) = a.run in
      let here = at_hash-some m k _ (Marked-some s m best k h v a.stored) in
      let member = run-child k c h x a.stored ex high on_top in
      let (d, ds, shape) = some_child c h.child_hashes member in
      let found =
        first_best-some s m best h.child_hashes c x v ex (a.flagged c (rw (bytes_eq_refl c))) member
          (best_children best k c h rest a) in
      let (r, done, b) =
        descend-Descended rest fuel (mark c (record x { in_best_chain = true }) false m)
          (λ j. if bytes_eq c j then false else best j) (erase_height x.height heights) c x
          (mark-Marked s m best c x false true v ex) (next-Above best k c h x rest a ex high)
          (omega arith) in
      (
        (r.0, r.1, removed_best c ∷ r.2),
        rw (here, shape, (rw shape at found), done),
        record {
          marked = Marked-ext s r.0 _ (without best (c ∷ rest)) b.marked (λ j y ey.
              masked (bytes_eq c j) (bytes_eq j c) (has_child j rest) (best j) (bytes_eq_comm c j));
          heights_eq =
              λ i. b.heights_eq i ∙ cleared_step h.height x.height (length rest) heights i high;
        },
      )
