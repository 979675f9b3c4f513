-- ===== src/BlockTree/Links.antt =====
-- `setBestChain` and `unsetBestChain`, and the header map without its flags.
use m_signa.Prelude.{
  ℕ, zero, suc, ◌+◌, ◌≡◌, refl, sym, ap, ◌∙◌, List, [], ◌∷◌, Bool, true, false, ◌==◌, if◌then◌else◌,
  Option, none, some, Bool-cases, inl, inr,
}
use mathlib.Core.Path.{subst}
use m_signa.Result.{Result, ok, err, guard, ◌>>=◌, ◌>>◌, >>=-eq-ok, ok-injective}
use m_signa.Bytes.{Bytes, bytes_eq, bytes_eq→eq}
use m_signa.BlockTree.Defs.{
  Error, ChainHeader, BlockTree, Event, Map, Maps, mark, at_hash, first_best, descend, lower,
  unset_best_chain, raise, retrace, switch, set_best_chain, cannot_remove_genesis, not_found, stuck,
  removed_best, erase_height, put_height,
}

-- A header without its flag.
abbrev pub strip : Option ChainHeader → Option ChainHeader
strip none = none
strip (some h) = some (record h { in_best_chain = false })

pub some-injective : {A : Type 0} {a b : A} → ◌≡◌ {A = Option A} (some a) (some b) → a ≡ b
some-injective {a = a} e = ap (λ o. elim o [ some x ↦ x | none ↦ a ]) e

-- The same headers, but for the flag.
abbrev pub Same : Map Bytes ChainHeader → Map Bytes ChainHeader → Type 0
Same m n = (k : Bytes) → strip (n k) ≡ strip (m k)

Same-refl : (m : Map Bytes ChainHeader) → Same m m
Same-refl m k = refl

Same-trans : (l m n : Map Bytes ChainHeader) → Same l m → Same m n → Same l n
Same-trans l m n p q k = q k ∙ p k

pub at_hash-eq-ok :
    (m : Map Bytes ChainHeader) (k : Bytes) (h : ChainHeader) → at_hash m k ≡ ok h → m k ≡ some h
unfolding at_hash
at_hash-eq-ok m k h e = from (m k) e
  where
    from :
        (o : Option ChainHeader)
        → ◌≡◌ {A = Result Error ChainHeader}
            (elim o [ none ↦ err not_found | some x ↦ ok x ])
            (ok h)
        → o ≡ some h
    from none e = cc
    from (some x) e = ap some (ok-injective e)

pub at_hash-some :
    (m : Map Bytes ChainHeader) (k : Bytes) (h : ChainHeader) → m k ≡ some h → at_hash m k ≡ ok h
unfolding at_hash
at_hash-some m k h e =
    subst (λ (o : Option ChainHeader). elim o [ none ↦ err not_found | some x ↦ ok x ] ≡ ok h)
      (sym e) refl

mark-Same :
    (m : Map Bytes ChainHeader) (k : Bytes) (h : ChainHeader) (b : Bool)
    → m k ≡ some h
    → Same m (mark k h b m)
mark-Same m k h b e j = elim (Bool-cases (bytes_eq k j)) [
  | inl same ↦ rw same (sym (ap strip (ap m (sym (bytes_eq→eq k j same)) ∙ e)))
  | inr other ↦ rw other
]

found_here :
    (m : Map Bytes ChainHeader) (x c : Bytes) (y h : ChainHeader)
    (rest : Result Error (Option (Bytes × ChainHeader))) (b : Bool)
    → m x ≡ some y
    → (rest ≡ ok (some (c, h)) → m c ≡ some h)
    → elim b [ true ↦ ok (some (x, y)) | false ↦ rest ] ≡ ok (some (c, h))
    → m c ≡ some h
found_here m x c y h rest true p again q =
    let both : (x, y) ≡ (c, h) = some-injective (ok-injective q) in
    subst (λ (r : Bytes × ChainHeader). m r.0 ≡ some r.1) both p
found_here m x c y h rest false p again q = again q

first_best-eq-ok :
    (m : Map Bytes ChainHeader) (cs : List Bytes) (c : Bytes) (h : ChainHeader)
    → first_best m cs ≡ ok (some (c, h))
    → m c ≡ some h
unfolding first_best
first_best-eq-ok m [] c h e = cc
first_best-eq-ok m (x ∷ cs) c h e =
    let (y, e1, e2) = >>=-eq-ok (at_hash m x) _ e in
    found_here m x c y h (first_best m cs) y.in_best_chain (at_hash-eq-ok m x y e1)
      (first_best-eq-ok m cs c h) e2

-- One step down the best chain, to the child that was found in it.
descend_found :
    (m : Map Bytes ChainHeader) (go : Bytes → ChainHeader → Result Error Maps) (cs : List Bytes)
    (found : Option (Bytes × ChainHeader)) (r : Maps)
    → ((b : Bytes) (child : ChainHeader) (s : Maps)
        → go b child ≡ ok s
        → Same (mark b child false m) s.0)
    → first_best m cs ≡ ok found
    → elim found [
      | none ↦ err stuck
      | some (b, child) ↦ (go b child >>= λ s. ok (s.0, s.1, removed_best b ∷ s.2))
    ]
      ≡ ok r
    → Same m r.0
descend_found m go cs none r again f e = cc
descend_found m go cs (some (b, child)) r again f e =
    let (s, e1, e2) = >>=-eq-ok (go b child) _ e in
    let there : Same (mark b child false m) s.0 = again b child s e1 in
    let marked : Same m (mark b child false m) =
      mark-Same m b child false (first_best-eq-ok m cs b child f) in
    subst (λ (x : Map Bytes ChainHeader). Same m x) (ap (λ (x : Maps). x.0) (ok-injective e2))
      (Same-trans m (mark b child false m) s.0 marked there)

descend_children :
    (m : Map Bytes ChainHeader) (heights : Map ℕ Bytes)
    (go : Bytes → ChainHeader → Result Error Maps) (cs : List Bytes) (r : Maps)
    → ((b : Bytes) (child : ChainHeader) (s : Maps)
        → go b child ≡ ok s
        → Same (mark b child false m) s.0)
    → elim cs [
      | [] ↦ ok (m, heights, [])
      | c ∷ cs ↦ do
        found ← first_best m (c ∷ cs)
        elim found [
          | none ↦ err stuck
          | some (b, child) ↦ (go b child >>= λ s. ok (s.0, s.1, removed_best b ∷ s.2))
        ]
    ]
      ≡ ok r
    → Same m r.0
descend_children m heights go [] r again e =
    subst (λ (x : Map Bytes ChainHeader). Same m x) (ap (λ (x : Maps). x.0) (ok-injective e))
      (Same-refl m)
descend_children m heights go (c ∷ cs) r again e =
    let (found, e1, e2) = >>=-eq-ok (first_best m (c ∷ cs)) _ e in
    descend_found m go (c ∷ cs) found r again e1 e2

descend-Same :
    (fuel : ℕ) (m : Map Bytes ChainHeader) (heights : Map ℕ Bytes) (k : Bytes) (r : Maps)
    → descend fuel m heights k ≡ ok r
    → Same m r.0
unfolding descend
descend-Same zero m heights k r e = cc
descend-Same (suc fuel) m heights k r e =
    let (h, e1, e2) = >>=-eq-ok (at_hash m k) _ e in
    descend_children m heights
      (λ b child. descend fuel (mark b child false m) (erase_height child.height heights) b)
      h.child_hashes r
      (λ b child s.
        descend-Same fuel (mark b child false m) (erase_height child.height heights) b s)
      e2

raise-Same :
    (m : Map Bytes ChainHeader) (heights : Map ℕ Bytes) (ks : List Bytes)
    (r : Map Bytes ChainHeader × Map ℕ Bytes)
    → raise m heights ks ≡ ok r
    → Same m r.0
unfolding raise
raise-Same m heights [] r e =
    subst (λ (x : Map Bytes ChainHeader). Same m x)
      (ap (λ (x : Map Bytes ChainHeader × Map ℕ Bytes). x.0) (ok-injective e)) (Same-refl m)
raise-Same m heights (k ∷ ks) r e =
    let (h, e1, e2) = >>=-eq-ok (at_hash m k) _ e in
    Same-trans m (mark k h true m) r.0 (mark-Same m k h true (at_hash-eq-ok m k h e1))
      (raise-Same (mark k h true m) (put_height h.height k heights) ks r e2)

-- What `unsetBestChain` leaves alone.
abbrev pub Lowers : BlockTree → BlockTree × List Event → Type 0
Lowers t r = Same t.headers r.0.headers × (r.0.count ≡ t.count)

lower-Lowers :
    (t : BlockTree) (k : Bytes) (h parent : ChainHeader) (r : BlockTree × List Event)
    → t.headers k ≡ some h
    → lower t k h parent ≡ ok r
    → Lowers t r
unfolding lower
lower-Lowers t k h parent r p e =
    let (s, e1, e2) =
      >>=-eq-ok (descend (suc t.next_height) (mark k h false t.headers) t.heights k) _ e in
    subst (Lowers t) (ok-injective e2) (
      Same-trans t.headers (mark k h false t.headers) s.0 (mark-Same t.headers k h false p)
          (descend-Same (suc t.next_height) (mark k h false t.headers) t.heights k s e1),
      refl,
    )

unset_in_best :
    (t : BlockTree) (k : Bytes) (h : ChainHeader) (b : Bool) (r : BlockTree × List Event)
    → t.headers k ≡ some h
    → elim b [
      | false ↦ ok (t, [])
      | true ↦ do
        guard (if h.height == 0 then false else true) cannot_remove_genesis
        parent ← at_hash t.headers h.header.prev_block_hash
        lower t k h parent
    ]
      ≡ ok r
    → Lowers t r
unset_in_best t k h false r p e = subst (Lowers t) (ok-injective e) (Same-refl t.headers, refl)
unset_in_best t k h true r p e =
    let (u, e1, e2) = >>=-eq-ok (guard (if h.height == 0 then false else true) _) _ e in
    let (parent, e3, e4) = >>=-eq-ok (at_hash t.headers h.header.prev_block_hash) _ e2 in
    lower-Lowers t k h parent r p e4

pub unset_best_chain-Lowers :
    (t : BlockTree) (k : Bytes) (r : BlockTree × List Event)
    → unset_best_chain t k ≡ ok r
    → Lowers t r
unfolding unset_best_chain
unset_best_chain-Lowers t k r e =
    let (h, e1, e2) = >>=-eq-ok (at_hash t.headers k) _ e in
    unset_in_best t k h h.in_best_chain r (at_hash-eq-ok t.headers k h e1) e2

-- What a switch to the header `h` under the hash `k` leaves alone, and where it ends.
pub record Switched (t : BlockTree) (k : Bytes) (h : ChainHeader) (t' : BlockTree) : Type 0 where
  pub same : Same t.headers t'.headers
  pub count_eq : t'.count ≡ t.count
  pub work_eq : t'.total_work ≡ h.chain_work
  pub height_eq : t'.next_height ≡ h.height + 1
  pub head_eq : t'.head ≡ some k

unset_found :
    (t : BlockTree) (found : Option (Bytes × ChainHeader)) (r : BlockTree × List Event)
    → elim found [ none ↦ ok (t, []) | some (c, child) ↦ unset_best_chain t c ] ≡ ok r
    → Lowers t r
unset_found t none r e = subst (Lowers t) (ok-injective e) (Same-refl t.headers, refl)
unset_found t (some (c, child)) r e = unset_best_chain-Lowers t c r e

switch-Switched :
    (t : BlockTree) (k : Bytes) (h : ChainHeader) (path : List Bytes) (fork : Bytes)
    (r : BlockTree × List Event)
    → switch t k h path fork ≡ ok r
    → Switched t k h r.0
unfolding switch
switch-Switched t k h path fork r e =
    let (f, e1, e2) = >>=-eq-ok (at_hash t.headers fork) _ e in
    let (found, e3, e4) = >>=-eq-ok (first_best t.headers f.child_hashes) _ e2 in
    let (s, e5, e6) =
      >>=-eq-ok (elim found [ none ↦ ok (t, []) | some (c, child) ↦ unset_best_chain t c ]) _ e4 in
    let (m, e7, e8) = >>=-eq-ok (raise s.0.headers s.0.heights path) _ e6 in
    let lowers : Lowers t s = unset_found t found s e5 in
    subst (λ (x : BlockTree × List Event). Switched t k h x.0) (ok-injective e8)
      (record {
        same =
            Same-trans t.headers s.0.headers m.0 lowers.0
              (raise-Same s.0.headers s.0.heights path m e7);
        count_eq = lowers.1;
        work_eq = refl;
        height_eq = refl;
        head_eq = refl;
      })

set_outside :
    (t : BlockTree) (k : Bytes) (h : ChainHeader) (b : Bool) (r : BlockTree × List Event)
    → b ≡ false
    → elim b [
      | true ↦ ok (t, [])
      | false ↦ do (path, fork) ← retrace (suc h.height) t.headers k []; switch t k h path fork
    ]
      ≡ ok r
    → Switched t k h r.0
set_outside t k h true r outside e = cc
set_outside t k h false r outside e =
    let (p, e1, e2) = >>=-eq-ok (retrace (suc h.height) t.headers k []) _ e in
    switch-Switched t k h p.0 p.1 r e2

-- `setBestChain` of a known header outside the best chain, where it returns, keeps every header but
-- for its flag, and makes the header the tip: the total work, the best height and the head are its.
pub set_best_chain-Switched :
    (t : BlockTree) (k : Bytes) (h : ChainHeader) (r : BlockTree × List Event)
    → t.headers k ≡ some h
    → h.in_best_chain ≡ false
    → set_best_chain t k ≡ ok r
    → Switched t k h r.0
unfolding set_best_chain
set_best_chain-Switched t k h r p outside e =
    let (y, e1, e2) = >>=-eq-ok (at_hash t.headers k) _ e in
    let same : y ≡ h = some-injective (sym (at_hash-eq-ok t.headers k y e1) ∙ p) in
    subst (λ (x : ChainHeader). Switched t k x r.0) same
      (set_outside t k y y.in_best_chain r
        (ap (λ (x : ChainHeader). x.in_best_chain) same ∙ outside) e2)
