-- ===== src/BlockTree/Before.antt =====
-- `getHeaderBefore` on a tree with the invariant.
use m_signa.Prelude.{
  ℕ, zero, suc, ◌+◌, ◌-◌, ◌≤◌, ◌<◌, ◌≡◌, sym, ap, ◌∙◌, ◌⊎◌, inl, inr, true, false, ltb, ◌==◌,
  if◌then◌else◌, Bool-cases, dec_lt, arith,
}
use m_signa.Result.{ok, ok-injective}
use m_signa.BlockTree.Defs.{ChainHeader, BlockTree}
use m_signa.BlockTree.Queries.{at_height, before_loop, get_header_before}
use m_signa.BlockTree.Invariant.{WellFormed}
use m_signa.BlockTree.Lookup.{at_height-best}

-- Where the search ends: at `h`, with no later header up to its height, the root apart, and a later
-- one behind it, if there is one.
pub record Before (t : BlockTree) (timestamp : ℕ) (h : ChainHeader) : Type 0 where
  pub here : at_height t h.height ≡ ok h
  pub front :
      (i : ℕ) (x : ChainHeader)
      → 0 < i
      → i ≤ h.height
      → at_height t i ≡ ok x
      → x.header.timestamp ≤ timestamp
  pub next :
      (suc h.height ≡ t.next_height)
      ⊎ ((x : ChainHeader) × (at_height t (suc h.height) ≡ ok x) × (timestamp < x.header.timestamp))

module _ (t : BlockTree) (w : WellFormed t) (timestamp : ℕ) where
  early : (n m : ℕ) → ltb n m ≡ false → m ≤ n
  early n m e = ground (arith, e)

  later : (n m : ℕ) → ltb n m ≡ true → n < m
  later n m e = ground (arith, e)

  before_loop-Before :
      (n i : ℕ)
      → i + n ≡ t.next_height
      → 0 < i
      → ((j : ℕ) (x : ChainHeader)
          → 0 < j
          → j < i
          → at_height t j ≡ ok x
          → x.header.timestamp ≤ timestamp)
      → (h : ChainHeader) × (before_loop t timestamp n i ≡ ok h) × Before t timestamp h
  unfolding before_loop
  before_loop-Before zero i e low front =
      let (k, h, ek, found, high, flag) = at_height-best t w (i - 1) (omega (arith, e, low)) in
      (
        h,
        found,
        record {
          here = ap (at_height t) high ∙ found;
          front = λ j x p q. front j x p (omega (arith, q, high, low));
          next = inl (omega (arith, high, e, low));
        },
      )
  before_loop-Before (suc n) i e low front =
      let (k, x, ek, found, high, flag) = at_height-best t w i (omega (arith, e)) in
      elim (Bool-cases (ltb timestamp x.header.timestamp)) [
        | inl late ↦
            let (j, h, ej, found', high', flag') =
              at_height-best t w (i - 1) (omega (arith, e, low)) in
            let at_i : i ≡ suc h.height = omega (arith, high', low) in
            (
              h,
              rw (found, late) found',
              record {
                here = ap (at_height t) high' ∙ found';
                front = λ m y p q. front m y p (omega (arith, q, high', low));
                next = inr (
                  x,
                  ap (at_height t) (sym at_i) ∙ found,
                  later timestamp x.header.timestamp late,
                );
              },
            )
        | inr soon ↦
            let (h, done, b) =
              before_loop-Before n (i + 1) (omega (arith, e)) (omega (arith, low))
                (λ m y p q found_m. earlier m y p q found_m x found soon) in
            (h, rw (found, soon) done, b)
      ]
    where
      earlier :
          (m : ℕ) (y : ChainHeader)
          → 0 < m
          → m < i + 1
          → at_height t m ≡ ok y
          → (x : ChainHeader) → at_height t i ≡ ok x
          → ltb timestamp x.header.timestamp ≡ false
          → y.header.timestamp ≤ timestamp
      earlier m y p q found_m x found soon = elim (dec_lt m i) [
        | yes below ↦ front m y p below found_m
        | no above ↦
            let at_i : m ≡ i = omega (arith, q, above) in
            let same : y ≡ x = ok-injective (sym found_m ∙ ap (at_height t) at_i ∙ found) in
            omega (
              arith,
              early timestamp x.header.timestamp soon,
              ap (λ (z : ChainHeader). z.header.timestamp) same,
            )
      ]

  -- `getHeaderBefore` of a tree with the invariant always returns a header of the best chain: every
  -- best header up to it, the root apart, has at most the given timestamp, and the header is the tip
  -- or the next one has a greater timestamp.
  pub get_header_before-Before :
      (h : ChainHeader) × (get_header_before t timestamp ≡ ok h) × Before t timestamp h
  unfolding get_header_before
  get_header_before-Before =
      let some_height : 0 < t.next_height = omega (arith, w.charted.next_height_eq, w.tip_last) in
      let (h, done, b) =
        before_loop-Before (t.next_height - 1) 1 (omega (arith, some_height)) (omega arith)
          (λ j x p q found. absurd (omega (arith, p, q))) in
      (h, rw (positive t.next_height some_height) done, b)
    where
      positive : (n : ℕ) → 0 < n → (if n == 0 then false else true) ≡ true
      positive n p = ground (arith, p)
