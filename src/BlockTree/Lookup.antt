-- ===== src/BlockTree/Lookup.antt =====
-- `getHeader` of a height, `getTip` and `getConfirmations` on a tree with the invariant.
use m_signa.Prelude.{
  ℕ, zero, suc, ◌+◌, ◌-◌, ◌≤◌, ◌<◌, ◌≡◌, ◌≢◌, refl, sym, ap, ◌∙◌, ◌⊎◌, inl, inr, pos, negsuc, List,
  [], ◌∷◌, true, false, ltb, le→leb, none, some, Bool-cases, length, get_elem?, arith,
}
use m_signa.Result.{ok, ok-injective}
use m_signa.Bytes.{Bytes, bytes_eq, bytes_eq→eq, bytes_eq_refl}
use m_signa.BlockTree.Defs.{ChainHeader, BlockTree, Map, has_child}
use m_signa.BlockTree.Queries.{at_height, get_header_at, get_tip, get_tip_height, get_confirmations}
use m_signa.BlockTree.Links.{at_hash-some, some-injective}
use m_signa.BlockTree.Shape.{set_flag, Run, Run-height, behind}
use m_signa.BlockTree.Raise.{get_elem?-none}
use m_signa.BlockTree.Invariant.{WellFormed}

-- The header at a place of a run.
Run-at :
    (s : Map Bytes ChainHeader) (n : ℕ) (p : Bytes) (ks : List Bytes) (i : ℕ)
    → Run s n p ks
    → i < length ks
    → (k : Bytes) × (h : ChainHeader) × (get_elem? ks i ≡ some k)
      × (s k ≡ some h)
      × (h.height ≡ n + i)
      × (has_child k ks ≡ true)
Run-at s n p [] i r low = absurd (omega (arith, low))
Run-at s n p (k ∷ ks) zero (h, eh, en, ep, rest) low =
    (k, h, refl, eh, omega (arith, en), rw (bytes_eq_refl k))
Run-at s n p (k ∷ ks) (suc i) (h, eh, en, ep, rest) low =
    let (j, x, e, ex, high, member) = Run-at s (suc n) k ks i rest (omega (arith, low)) in
    (j, x, e, ex, omega (arith, high), behind k ks j member)

-- The place of a header in a run.
Run-place :
    (s : Map Bytes ChainHeader) (n : ℕ) (p : Bytes) (ks : List Bytes) (k : Bytes) (h : ChainHeader)
    (i : ℕ)
    → Run s n p ks
    → has_child k ks ≡ true
    → s k ≡ some h
    → h.height ≡ n + i
    → get_elem? ks i ≡ some k
Run-place s n p [] k h i r member e high = cc
Run-place s n p (x ∷ ks) k h zero (y, ey, en, ep, rest) member e high =
    elim (Bool-cases (bytes_eq k x)) [
      | inl same ↦ ap some (sym (bytes_eq→eq k x same))
      | inr other ↦
          let (z, ez, lo, hi) = Run-height s (suc n) x ks k rest (rw other at member) in
          let h_z : h ≡ z = some-injective (sym e ∙ ez) in
          absurd (omega (arith, lo, high, ap (λ (w : ChainHeader). w.height) h_z))
    ]
Run-place s n p (x ∷ ks) k h (suc i) (y, ey, en, ep, rest) member e high =
    elim (Bool-cases (bytes_eq k x)) [
      | inl same ↦
          let h_y : h ≡ y = some-injective (sym e ∙ ap s (bytes_eq→eq k x same) ∙ ey) in
          absurd (omega (arith, high, en, ap (λ (z : ChainHeader). z.height) h_y))
      | inr other ↦ Run-place s (suc n) x ks k h i rest (rw other at member) e (omega (arith, high))
    ]

at_height-some :
    (t : BlockTree) (i : ℕ) (k : Bytes) (h : ChainHeader)
    → t.heights i ≡ some k
    → t.headers k ≡ some h
    → at_height t i ≡ ok h
unfolding at_height
at_height-some t i k h ei ek = rw (at_height, ei) (at_hash-some t.headers k h ek)

module _ (t : BlockTree) (w : WellFormed t) where
  pub flag_of :
      (k : Bytes) (h : ChainHeader) → t.headers k ≡ some h → h.in_best_chain ≡ has_child k w.chain
  flag_of k h e =
      ap (λ (x : ChainHeader). x.in_best_chain)
        (some-injective (sym e ∙ w.charted.marked k ∙ ap (set_flag (has_child k w.chain)) e))

  -- A best header stands at each height of the chain.
  pub at_height-best :
      (i : ℕ)
      → i < t.next_height
      → (k : Bytes) × (h : ChainHeader) × (t.headers k ≡ some h)
        × (at_height t i ≡ ok h)
        × (h.height ≡ i)
        × (h.in_best_chain ≡ true)
  at_height-best i low =
      let (k, h, e, ek, high, member) =
        Run-at t.headers 0 w.charted.origin w.chain i w.charted.run
          (omega (arith, low, w.charted.next_height_eq)) in
      (
        k,
        h,
        ek,
        at_height-some t i k h (w.charted.heights_eq i ∙ e) ek,
        omega (arith, high),
        flag_of k h ek ∙ member,
      )

  pub best_at_height :
      (k : Bytes) (h : ChainHeader)
      → t.headers k ≡ some h
      → has_child k w.chain ≡ true
      → (h.height < t.next_height) × (at_height t h.height ≡ ok h)
  best_at_height k h e member =
      let (x, ex, lo, hi) =
        Run-height t.headers 0 w.charted.origin w.chain k w.charted.run member in
      let same : x ≡ h = some-injective (sym ex ∙ e) in
      (
        omega (arith, hi, w.charted.next_height_eq, ap (λ (z : ChainHeader). z.height) same),
        at_height-some t h.height k h
            (w.charted.heights_eq h.height
              ∙ Run-place t.headers 0 w.charted.origin w.chain k h h.height w.charted.run member e
                  (omega arith))
            e,
      )

  not_at_height :
      (k : Bytes) (h : ChainHeader)
      → t.headers k ≡ some h
      → has_child k w.chain ≡ false
      → at_height t h.height ≢ ok h
  unfolding at_height
  not_at_height k h e outside found = elim (Bool-cases (ltb h.height (length w.chain))) [
    | inl low ↦
        let (j, x, ej, e', high, flag) =
          at_height-best h.height (ground (arith, low, w.charted.next_height_eq)) in
        let same : x ≡ h = ok-injective (sym e' ∙ found) in
        cc (flag, flag_of k h e, outside, ap (λ (z : ChainHeader). z.in_best_chain) same)
    | inr high ↦
        let nothing : t.heights h.height ≡ none =
          w.charted.heights_eq h.height ∙ get_elem?-none w.chain h.height (ground (arith, high)) in
        cc (rw (at_height, nothing) at found)
  ]

  -- What `getConfirmations` counts: for a stored header of the best chain, a positive number, and
  -- `getHeader` of that number, negated, is the header, as it is of its height. For a stored header
  -- outside the best chain it is 0, and `getHeader` of its height is not the header.
  pub get_confirmations-get_header_at :
      (k : Bytes) (h : ChainHeader)
      → t.headers k ≡ some h
      → ((h.in_best_chain ≡ true)
          × (n : ℕ) × (get_confirmations t k ≡ pos (suc n))
          × (get_header_at t (negsuc n) ≡ ok h)
          × (get_header_at t (pos h.height) ≡ ok h))
        ⊎ ((h.in_best_chain ≡ false)
            × (get_confirmations t k ≡ pos 0)
            × (get_header_at t (pos h.height) ≢ ok h))
  unfolding get_confirmations get_header_at
  get_confirmations-get_header_at k h e = elim (Bool-cases (has_child k w.chain)) [
    | inl inside ↦
        let (low, found) = best_at_height k h e inside in
        let n : ℕ = t.next_height - suc h.height in
        let back : t.next_height - suc n ≡ h.height = omega arith in
        inl (
          flag_of k h e ∙ inside,
          n,
          rw
              (
                get_confirmations,
                e,
                flag_of k h e,
                inside,
                le→leb h.height t.next_height (omega arith),
              )
              (ap pos (omega arith)),
          rw (le→leb (suc n) t.next_height (omega arith), back) found,
          found,
        )
    | inr outside ↦ inr (
      flag_of k h e ∙ outside,
      rw (get_confirmations, e, flag_of k h e, outside),
      not_at_height k h e outside,
    )
  ]

  -- The tip is what `getTip` and `getHeader` of -1 return, `getTipHeight` is its height, and no
  -- stored header has more chain work.
  pub get_tip-heaviest :
      (h : ChainHeader) × (get_tip t ≡ ok h)
      × (get_header_at t (negsuc 0) ≡ ok h)
      × (get_tip_height t ≡ ok h.height)
      × (suc h.height ≡ t.next_height)
      × ((k : Bytes) (x : ChainHeader) → t.headers k ≡ some x → x.chain_work ≤ h.chain_work)
  unfolding get_tip get_tip_height get_header_at
  get_tip-heaviest =
      let (low, found) = best_at_height w.tip w.top w.tip_eq w.tip_member in
      let next : t.next_height ≡ suc w.top.height = w.charted.next_height_eq ∙ w.tip_last in
      let last : t.next_height - 1 ≡ w.top.height = omega (arith, next) in
      let here = at_hash-some t.headers w.tip w.top w.tip_eq in
      (
        w.top,
        rw w.head_eq here,
        rw (le→leb 1 t.next_height (omega (arith, next)), last) found,
        rw (w.head_eq, here),
        sym next,
        λ k x e. omega (arith, w.heaviest k x e, w.total_eq),
      )
