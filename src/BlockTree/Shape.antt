-- ===== src/BlockTree/Shape.antt =====
-- The headers of a block tree apart from their flags, and runs of headers that follow one another.
use m_signa.Prelude.{
  ℕ, suc, ◌+◌, ◌≤◌, ◌<◌, ◌≡◌, refl, sym, ap, ◌∙◌, List, [], ◌∷◌, ◌++◌, Bool, true, false, ◌||◌,
  if◌then◌else◌, Option, none, some, Bool-cases, Option-cases, inl, inr, length, arith,
}
use mathlib.Core.Path.{subst}
use m_signa.Result.{ok}
use m_signa.Bytes.{Bytes, bytes_eq, bytes_eq→eq, bytes_eq_refl}
use m_signa.BlockTree.Defs.{ChainHeader, Map, mark, has_child, first_best}
use m_signa.BlockTree.Links.{at_hash-some, some-injective}

abbrev pub set_flag : Bool → Option ChainHeader → Option ChainHeader
set_flag b none = none
set_flag b (some h) = some (record h { in_best_chain = b })

-- The map `m` has the headers of `s`, and `best` says which of them are flagged.
abbrev pub Marked : Map Bytes ChainHeader → Map Bytes ChainHeader → (Bytes → Bool) → Type 0
Marked s m best = (k : Bytes) → m k ≡ set_flag (best k) (s k)

pub Marked-some :
    (s m : Map Bytes ChainHeader) (best : Bytes → Bool) (k : Bytes) (h : ChainHeader)
    → Marked s m best
    → s k ≡ some h
    → m k ≡ some (record h { in_best_chain = best k })
Marked-some s m best k h v e = v k ∙ ap (set_flag (best k)) e

pub Marked-back :
    (s m : Map Bytes ChainHeader) (best : Bytes → Bool) (k : Bytes) (y : ChainHeader)
    → Marked s m best
    → m k ≡ some y
    → (h : ChainHeader) × (s k ≡ some h) × (y ≡ record h { in_best_chain = best k })
Marked-back s m best k y v e = elim (Option-cases (s k)) [
  | inl gone ↦ cc (gone, e, v k ∙ ap (set_flag (best k)) gone)
  | inr (h, eh) ↦ (h, eh, some-injective (sym e ∙ v k ∙ ap (set_flag (best k)) eh))
]

-- A map with its own flags.
pub Marked-self :
    (s m : Map Bytes ChainHeader) (best : Bytes → Bool) → Marked s m best → Marked m m best
Marked-self s m best v k = v k ∙ sym (ap (set_flag (best k)) (v k) ∙ twice (best k) (s k))
  where
    twice : (b : Bool) (o : Option ChainHeader) → set_flag b (set_flag b o) ≡ set_flag b o
    twice b none = refl
    twice b (some h) = refl

pub bytes_eq_comm : (j k : Bytes) → bytes_eq j k ≡ bytes_eq k j
bytes_eq_comm [] [] = refl
bytes_eq_comm [] (c ∷ cs) = refl
bytes_eq_comm (b ∷ bs) [] = refl
bytes_eq_comm (b ∷ bs) (c ∷ cs) = ground (arith, bytes_eq_comm bs cs)

-- Setting the flag of one header.
pub mark-Marked :
    (s m : Map Bytes ChainHeader) (best : Bytes → Bool) (k : Bytes) (h : ChainHeader) (b c : Bool)
    → Marked s m best
    → s k ≡ some h
    → Marked s
        (mark k (record h { in_best_chain = c }) b m)
        (λ j. if bytes_eq k j then b else best j)
mark-Marked s m best k h b c v e j = elim (Bool-cases (bytes_eq k j)) [
  | inl same ↦ rw (same, sym (bytes_eq→eq k j same), e)
  | inr other ↦ rw other (v j)
]

pub Marked-ext :
    (s m : Map Bytes ChainHeader) (best best' : Bytes → Bool)
    → Marked s m best
    → ((k : Bytes) (h : ChainHeader) → s k ≡ some h → best k ≡ best' k)
    → Marked s m best'
Marked-ext s m best best' v same k = v k ∙ from (s k) refl
  where
    from : (o : Option ChainHeader) → s k ≡ o → set_flag (best k) o ≡ set_flag (best' k) o
    from none e = refl
    from (some h) e = ap (λ (b : Bool). some (record h { in_best_chain = b })) (same k h e)

-- The keys `ks` follow one another, from the height `n` on, the first one on top of `p`.
abbrev pub Run : Map Bytes ChainHeader → ℕ → Bytes → List Bytes → Type 0
Run s n p [] = Unit {0}
Run s n p (k ∷ ks) =
    (h : ChainHeader) × (s k ≡ some h)
    × (h.height ≡ n)
    × (h.header.prev_block_hash ≡ p)
    × Run s (suc n) k ks

pub has_child-append :
    (j : Bytes) (xs ys : List Bytes) → has_child j (xs ++ ys) ≡ (has_child j xs || has_child j ys)
has_child-append j [] ys = refl
has_child-append j (x ∷ xs) ys = ground (arith, has_child-append j xs ys)

pub has_child-split :
    (k : Bytes) (ks : List Bytes)
    → has_child k ks ≡ true
    → (pre post : List Bytes) × (ks ≡ pre ++ (k ∷ post))
has_child-split k [] e = cc
has_child-split k (x ∷ ks) e = elim (Bool-cases (bytes_eq k x)) [
  | inl same ↦ ([], ks, ap (λ (y : Bytes). y ∷ ks) (sym (bytes_eq→eq k x same)))
  | inr other ↦
      let (pre, post, p) = has_child-split k ks (rw other at e) in (x ∷ pre, post, ap (◌∷◌ x) p)
]

-- A member of a run is stored, at a height in the run.
pub Run-height :
    (s : Map Bytes ChainHeader) (n : ℕ) (p : Bytes) (ks : List Bytes) (k : Bytes)
    → Run s n p ks
    → has_child k ks ≡ true
    → (h : ChainHeader) × (s k ≡ some h) × (n ≤ h.height) × (h.height < n + length ks)
Run-height s n p [] k r e = cc
Run-height s n p (x ∷ ks) k (h, eh, en, ep, rest) e = elim (Bool-cases (bytes_eq k x)) [
  | inl same ↦ (h, ap s (bytes_eq→eq k x same) ∙ eh, omega (arith, en), omega (arith, en))
  | inr other ↦
      let (y, ey, lo, hi) = Run-height s (suc n) x ks k rest (rw other at e) in
      (y, ey, omega (arith, lo), omega (arith, hi))
]

-- A run has one key at a height.
pub Run-unique :
    (s : Map Bytes ChainHeader) (n : ℕ) (p : Bytes) (ks : List Bytes) (j k : Bytes)
    (x y : ChainHeader)
    → Run s n p ks
    → has_child j ks ≡ true
    → has_child k ks ≡ true
    → s j ≡ some x
    → s k ≡ some y
    → x.height ≡ y.height
    → j ≡ k
Run-unique s n p [] j k x y r ej ek sj sk e = cc
Run-unique s n p (a ∷ ks) j k x y (h, eh, en, ep, rest) ej ek sj sk e =
    elim (Bool-cases (bytes_eq j a)) [
      | inl j_first ↦ elim (Bool-cases (bytes_eq k a)) [
        | inl k_first ↦ bytes_eq→eq j a j_first ∙ sym (bytes_eq→eq k a k_first)
        | inr k_later ↦ absurd (later k y (rw k_later at ek) sk (sym e ∙ first j x j_first sj))
      ]
      | inr j_later ↦ elim (Bool-cases (bytes_eq k a)) [
        | inl k_first ↦ absurd (later j x (rw j_later at ej) sj (e ∙ first k y k_first sk))
        | inr k_later ↦
            Run-unique s (suc n) a ks j k x y rest (rw j_later at ej) (rw k_later at ek) sj sk e
      ]
    ]
  where
    first : (i : Bytes) (z : ChainHeader) → bytes_eq i a ≡ true → s i ≡ some z → z.height ≡ n
    first i z same ez =
        let z_h : z ≡ h = some-injective (sym ez ∙ ap s (bytes_eq→eq i a same) ∙ eh) in
        ap (λ (w : ChainHeader). w.height) z_h ∙ en

    later : (i : Bytes) (z : ChainHeader) → has_child i ks ≡ true → s i ≡ some z → z.height ≡ n → ⊥
    later i z member ez low =
        let (w, ew, lo, hi) = Run-height s (suc n) a ks i rest member in
        let w_z : w ≡ z = some-injective (sym ew ∙ ez) in
        omega (arith, ap (λ (v : ChainHeader). v.height) w_z, lo, low)

pub Run-split :
    (s : Map Bytes ChainHeader) (n : ℕ) (p : Bytes) (pre post : List Bytes) (k : Bytes)
    (h : ChainHeader)
    → Run s n p (pre ++ (k ∷ post))
    → s k ≡ some h
    → (h.height ≡ n + length pre) × Run s (suc h.height) k post
Run-split s n p [] post k h (x, ex, en, ep, rest) e =
    let same : x ≡ h = some-injective (sym ex ∙ e) in
    let height : h.height ≡ n = ap (λ (y : ChainHeader). y.height) (sym same) ∙ en in
    (omega (arith, height), subst (λ (i : ℕ). Run s (suc i) k post) (sym height) rest)
Run-split s n p (a ∷ pre) post k h (x, ex, en, ep, rest) e =
    let (height, tail) = Run-split s (suc n) a pre post k h rest e in (omega (arith, height), tail)

-- Another continuation behind a member.
pub Run-replace :
    (s : Map Bytes ChainHeader) (n : ℕ) (p : Bytes) (pre post path : List Bytes) (k : Bytes)
    (h : ChainHeader)
    → Run s n p (pre ++ (k ∷ post))
    → s k ≡ some h
    → Run s (suc h.height) k path
    → Run s n p (pre ++ (k ∷ path))
Run-replace s n p [] post path k h (x, ex, en, ep, rest) e r =
    let same : x ≡ h = some-injective (sym ex ∙ e) in
    let height : h.height ≡ n = ap (λ (y : ChainHeader). y.height) (sym same) ∙ en in
    (x, ex, en, ep, subst (λ (i : ℕ). Run s (suc i) k path) height r)
Run-replace s n p (a ∷ pre) post path k h (x, ex, en, ep, rest) e r =
    (x, ex, en, ep, Run-replace s (suc n) a pre post path k h rest e r)

pub behind :
    (c : Bytes) (cs : List Bytes) (j : Bytes) → has_child j cs ≡ true → has_child j (c ∷ cs) ≡ true
behind c cs j e = ground (arith, e)

pub ahead :
    (k c : Bytes) (cs : List Bytes)
    → has_child k (c ∷ cs) ≡ true
    → (k ≡ c → ⊥)
    → has_child k cs ≡ true
ahead k c cs e apart = elim (Bool-cases (bytes_eq k c)) [
  | inl same ↦ absurd (apart (bytes_eq→eq k c same))
  | inr other ↦ rw other at e
]

-- The search over the children, where the flags are known.
pub first_best-none :
    (s m : Map Bytes ChainHeader) (best : Bytes → Bool) (cs : List Bytes)
    → Marked s m best
    → ((c : Bytes) → has_child c cs ≡ true → (x : ChainHeader) × (s c ≡ some x) × (best c ≡ false))
    → first_best m cs ≡ ok none
unfolding first_best
first_best-none s m best [] v known = refl
first_best-none s m best (c ∷ cs) v known =
    let (x, ex, no_best) = known c (rw (bytes_eq_refl c)) in
    let here = at_hash-some m c _ (Marked-some s m best c x v ex) in
    rw (here, no_best) (first_best-none s m best cs v (λ j e. known j (behind c cs j e)))

pub first_best-some :
    (s m : Map Bytes ChainHeader) (best : Bytes → Bool) (cs : List Bytes) (k : Bytes)
    (h : ChainHeader)
    → Marked s m best
    → s k ≡ some h
    → best k ≡ true
    → has_child k cs ≡ true
    → ((c : Bytes)
        → has_child c cs ≡ true
        → (x : ChainHeader) × (s c ≡ some x) × (best c ≡ true → c ≡ k))
    → first_best m cs ≡ ok (some (k, record h { in_best_chain = true }))
unfolding first_best
first_best-some s m best [] k h v e flag member known = cc
first_best-some s m best (c ∷ cs) k h v e flag member known =
    let (x, ex, only) = known c (rw (bytes_eq_refl c)) in
    let here = at_hash-some m c _ (Marked-some s m best c x v ex) in
    elim (Bool-cases (best c)) [
      | inl yes_best ↦
          let same : c ≡ k = only yes_best in
          let x_h : x ≡ h = some-injective (sym ex ∙ ap s same ∙ e) in
          rw (here, yes_best, x_h, same, flag)
      | inr no_best ↦
          rw (here, no_best)
            (first_best-some s m best cs k h v e flag
              (ahead k c cs member (λ same. cc (flag, no_best, ap best same)))
              (λ j p. known j (behind c cs j p)))
    ]

pub Run-Marked :
    (s m : Map Bytes ChainHeader) (best : Bytes → Bool) (n : ℕ) (p : Bytes) (ks : List Bytes)
    → Marked s m best
    → Run s n p ks
    → Run m n p ks
Run-Marked s m best n p [] v r = r
Run-Marked s m best n p (k ∷ ks) v (h, eh, en, ep, rest) = (
  record h { in_best_chain = best k },
  Marked-some s m best k h v eh,
  en,
  ep,
  Run-Marked s m best (suc n) k ks v rest,
)

-- Where the members of a run's front are.
pub Run-low :
    (s : Map Bytes ChainHeader) (n : ℕ) (p : Bytes) (pre post : List Bytes) (j : Bytes)
    (x : ChainHeader)
    → Run s n p (pre ++ post)
    → has_child j pre ≡ true
    → s j ≡ some x
    → x.height < n + length pre
Run-low s n p [] post j x r member ex = cc
Run-low s n p (k ∷ pre) post j x (h, eh, en, ep, rest) member ex =
    elim (Bool-cases (bytes_eq j k)) [
      | inl same ↦
          let x_h : x ≡ h = some-injective (sym ex ∙ ap s (bytes_eq→eq j k same) ∙ eh) in
          omega (arith, ap (λ (y : ChainHeader). y.height) x_h, en)
      | inr other ↦ omega (arith, Run-low s (suc n) k pre post j x rest (rw other at member) ex)
    ]
