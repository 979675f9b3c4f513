-- ===== src/BlockTree/Undeletable.antt =====
-- `deleteHeader` on a tree with the invariant.
use m_signa.Prelude.{
  ℕ, zero, suc, ◌≡◌, ◌≢◌, sym, ap, ◌∙◌, inl, inr, List, [], ◌∷◌, Bool, true, false, some,
  Option-cases, Bool-cases, arith,
}
use m_signa.Result.{ok, guard, >>=-eq-ok, guard-eq-ok, ok-injective}
use m_signa.Bytes.{Bytes, bytes_eq_refl}
use m_signa.BlockTree.Defs.{
  ChainHeader, BlockTree, Event, Map, Hashing, has_child, at_hash, unset_best_chain,
  delete_children, remove_header, delete_header,
}
use m_signa.BlockTree.Links.{strip, Same, some-injective, at_hash-eq-ok, unset_best_chain-Lowers}
use m_signa.BlockTree.Invariant.{WellFormed}

-- Headers are stored under their hashes, none is its own child, and children are stored.
record Solid (hashing : Hashing) (s : Map Bytes ChainHeader) : Type 0 where
  keyed : (k : Bytes) (h : ChainHeader) → s k ≡ some h → hashing.hash h.header ≡ k
  own : (k : Bytes) (h : ChainHeader) → s k ≡ some h → has_child k h.child_hashes ≡ false
  children :
      (k : Bytes) (h : ChainHeader) (c : Bytes)
      → s k ≡ some h
      → has_child c h.child_hashes ≡ true
      → (x : ChainHeader) × (s c ≡ some x)

Same-back :
    (m n : Map Bytes ChainHeader) (k : Bytes) (y : ChainHeader)
    → Same m n
    → n k ≡ some y
    → (x : ChainHeader) × (m k ≡ some x) × (y.header ≡ x.header) × (y.child_hashes ≡ x.child_hashes)
Same-back m n k y same e = elim (Option-cases (m k)) [
  | inl nothing ↦ cc (ap strip e, same k, ap strip nothing)
  | inr (x, ex) ↦
      let alike = some-injective (sym (ap strip e) ∙ same k ∙ ap strip ex) in
      (
        x,
        ex,
        ap (λ (z : ChainHeader). z.header) alike,
        ap (λ (z : ChainHeader). z.child_hashes) alike,
      )
]

Same-forth :
    (m n : Map Bytes ChainHeader) (k : Bytes) (x : ChainHeader)
    → Same m n
    → m k ≡ some x
    → (y : ChainHeader) × (n k ≡ some y)
Same-forth m n k x same e = elim (Option-cases (n k)) [
  | inl nothing ↦ cc (ap strip e, same k, ap strip nothing)
  | inr there ↦ there
]

Solid-Same :
    (hashing : Hashing) (m n : Map Bytes ChainHeader) → Same m n → Solid hashing m → Solid hashing n
Solid-Same hashing m n same v = record {
  keyed = λ k y e.
      let (x, ex, header, below) = Same-back m n k y same e in
      ap hashing.hash header ∙ v.keyed k x ex;
  own = λ k y e.
      let (x, ex, header, below) = Same-back m n k y same e in
      ap (has_child k) below ∙ v.own k x ex;
  children = λ k y c e inside.
      let (x, ex, header, below) = Same-back m n k y same e in
      let (z, ez) = v.children k x c ex (sym (ap (has_child c) below) ∙ inside) in
      Same-forth m n c z same ez;
}

module _ (hashing : Hashing) where
  open hashing use {hash}

  -- The end of the operation: the header is not its own child.
  remove_header-fails :
      (t : BlockTree) (k : Bytes) (h x : ChainHeader) (r : Bool × BlockTree × List Event)
      → Solid hashing t.headers
      → t.headers k ≡ some x
      → hash h.header ≡ k
      → remove_header hashing t k h ≢ ok r
  unfolding remove_header
  remove_header-fails t k h x r v ek key e =
      let (parent, e1, e2) = >>=-eq-ok (at_hash t.headers (hash h.header)) _ e in
      let (u, e3, e4) = >>=-eq-ok (guard (has_child k parent.child_hashes) _) _ e2 in
      let stored : t.headers k ≡ some parent =
        ap t.headers (sym key) ∙ at_hash-eq-ok t.headers (hash h.header) parent e1 in
      cc (guard-eq-ok _ _ e3, v.own k parent stored)

  delete_fails :
      (fuel : ℕ) (t : BlockTree) (k : Bytes) (h : ChainHeader) (r : Bool × BlockTree × List Event)
      → Solid hashing t.headers
      → t.headers k ≡ some h
      → delete_header hashing fuel t k ≢ ok r
  unfolding delete_header
  delete_fails zero t k h r v ek e = cc
  delete_fails (suc fuel) t k h r v ek e =
      let e0 = rw (delete_header, ek) at e in
      let (s, e1, e2) = >>=-eq-ok (unset_best_chain t k) _ e0 in
      let lowers = unset_best_chain-Lowers t k s e1 in
      let v1 = Solid-Same hashing t.headers s.0.headers lowers.0 v in
      let (y, ey) = Same-forth t.headers s.0.headers k h lowers.0 ek in
      let (parent, e3, e4) = >>=-eq-ok (at_hash s.0.headers (hash h.header)) _ e2 in
      let (x, e5, e6) =
        >>=-eq-ok (delete_children (delete_header hashing fuel) s.0 h.child_hashes) _ e4 in
      let (z, e7, e8) = >>=-eq-ok (remove_header hashing x.0 k h) _ e6 in
      below h.child_hashes s.0 y x z v1 ey e5 e7
        (λ c inside.
          let (w, ew) = v.children k h c ek inside in
          Same-forth t.headers s.0.headers c w lowers.0 ew)
        (λ c w ew p q. delete_fails fuel s.0 c w p v1 ew q)
    where
      below :
          (cs : List Bytes) (t1 : BlockTree) (y : ChainHeader) (x : BlockTree × List Event)
          (z : Bool × BlockTree × List Event)
          → Solid hashing t1.headers
          → t1.headers k ≡ some y
          → delete_children (delete_header hashing fuel) t1 cs ≡ ok x
          → remove_header hashing x.0 k h ≡ ok z
          → ((c : Bytes) → has_child c cs ≡ true → (w : ChainHeader) × (t1.headers c ≡ some w))
          → ((c : Bytes) (w : ChainHeader)
              → t1.headers c ≡ some w
              → (p : Bool × BlockTree × List Event) → delete_header hashing fuel t1 c ≢ ok p)
          → ⊥
      below [] t1 y x z v1 ey e5 e7 there again =
          let same : t1 ≡ x.0 = ap (λ (q : BlockTree × List Event). q.0) (ok-injective e5) in
          remove_header-fails t1 k h y z v1 ey (v.keyed k h ek)
            (ap (λ (u : BlockTree). remove_header hashing u k h) same ∙ e7)
      below (c ∷ cs) t1 y x z v1 ey e5 e7 there again =
          let (p, f1, f2) = >>=-eq-ok (delete_header hashing fuel t1 c) _ e5 in
          let (w, ew) = there c (rw (bytes_eq_refl c)) in again c w ew p f1

  -- On a tree with the invariant, whose headers are stored under their hashes, `deleteHeader` never
  -- deletes a header: for no stored header does it return, since what it takes for the parent is the
  -- header itself, which is not among its children.
  pub delete_header_never :
      (fuel : ℕ) (t : BlockTree) (k : Bytes) (h : ChainHeader) (r : Bool × BlockTree × List Event)
      → WellFormed t
      → ((j : Bytes) (x : ChainHeader) → t.headers j ≡ some x → hash x.header ≡ j)
      → t.headers k ≡ some h
      → delete_header hashing fuel t k ≢ ok r
  delete_header_never fuel t k h r w keyed ek =
      delete_fails fuel t k h r
        (record {
          keyed = keyed;
          own = λ j x ex. elim (Bool-cases (has_child j x.child_hashes)) [
            | inl itself ↦
                let (y, ey, high, on_top) = w.forest.down j x j ex itself in
                absurd (
                  omega (
                    arith,
                    high,
                    ap (λ (z : ChainHeader). z.height) (some-injective (sym ey ∙ ex)),
                  ))
            | inr other ↦ other
          ];
          children = λ j x c ex inside.
              let (y, ey, high, on_top) = w.forest.down j x c ex inside in (y, ey);
        })
        ek
