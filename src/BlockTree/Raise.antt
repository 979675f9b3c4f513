-- ===== src/BlockTree/Raise.antt =====
-- The end of `setBestChain`, where the headers passed on the way up enter the best chain.
use m_signa.Prelude.{
  ℕ, zero, suc, ◌-◌, ◌<◌, ◌≤◌, ◌≡◌, refl, sym, ap, ◌∙◌, List, [], ◌∷◌, ◌++◌, Bool, true, false,
  ◌||◌, ◌==◌, ltb, if◌then◌else◌, none, length, length-append, ltb-false, ltb→lt, ==_iff,
  Bool-cases, inl, inr, append_assoc, get_elem?, arith,
}
use mathlib.Core.Path.{subst}
use m_signa.Result.{ok}
use m_signa.Bytes.{Bytes, bytes_eq}
use m_signa.BlockTree.Defs.{ChainHeader, Map, has_child, mark, put_height, raise}
use m_signa.BlockTree.Links.{at_hash-some}
use m_signa.BlockTree.Shape.{Marked, Marked-some, Marked-ext, mark-Marked, bytes_eq_comm, Run}

abbrev pub placed : ℕ → List Bytes → Map ℕ Bytes → Map ℕ Bytes
placed n [] heights = heights
placed n (k ∷ ks) heights = placed (suc n) ks (put_height n k heights)

pub record Raised (s : Map Bytes ChainHeader) (best : Bytes → Bool) (n : ℕ) (path : List Bytes)
    (heights : Map ℕ Bytes) (r : Map Bytes ChainHeader × Map ℕ Bytes) : Type 0 where
  pub marked : Marked s r.0 (λ j. if has_child j path then true else best j)
  pub heights_eq : (i : ℕ) → r.1 i ≡ placed n path heights i

joined :
    (b b' d e : Bool)
    → b ≡ b'
    → (if d then true else (if b then true else e)) ≡ (if b' || d then true else e)
joined b b' d e p = ground (arith, p)

pub raise-Raised :
    (s m : Map Bytes ChainHeader) (best : Bytes → Bool) (heights : Map ℕ Bytes) (n : ℕ) (p : Bytes)
    (path : List Bytes)
    → Marked s m best
    → Run s n p path
    → (r : Map Bytes ChainHeader × Map ℕ Bytes) × (raise m heights path ≡ ok r)
      × Raised s best n path heights r
unfolding raise
raise-Raised s m best heights n p [] v r =
    ((m, heights), refl, record { marked = v; heights_eq = λ i. refl })
raise-Raised s m best heights n p (k ∷ ks) v (h, eh, en, ep, rest) =
    let here = at_hash-some m k _ (Marked-some s m best k h v eh) in
    let (r, done, x) =
      raise-Raised s (mark k (record h { in_best_chain = best k }) true m)
        (λ j. if bytes_eq k j then true else best j) (put_height n k heights) (suc n) k ks
        (mark-Marked s m best k h true (best k) v eh) rest in
    (
      r,
      rw here (
          subst
            (λ (i : ℕ).
              raise (mark k (record h { in_best_chain = best k }) true m) (put_height i k heights)
                ks
              ≡ ok r)
            (sym en) done),
      record {
        marked =
            Marked-ext s r.0 _ (λ j. if has_child j (k ∷ ks) then true else best j) x.marked
              (λ j y ey.
                joined (bytes_eq k j) (bytes_eq j k) (has_child j ks) (best j) (bytes_eq_comm k j));
        heights_eq = x.heights_eq;
      },
    )

not_eq : (a b : ℕ) → (a ≡ b → ⊥) → (a == b) ≡ false
not_eq a b h = elim (Bool-cases (a == b)) [ inl e ↦ absurd (h ((==_iff a b).0 e)) | inr e ↦ e ]

past : (n i : ℕ) → ltb i n ≡ false → (n == i) ≡ false → n < i
past n i p q = ground arith

pub get_elem?-append :
    {A : Type 0} (xs ys : List A) (i : ℕ)
    → get_elem? (xs ++ ys) i
      ≡ (if ltb i (length xs) then get_elem? xs i else get_elem? ys (i - length xs))
get_elem?-append [] ys i = let e : i - 0 ≡ i = omega arith in rw (ltb-false i 0 (omega arith), e)
get_elem?-append (x ∷ xs) ys zero = ground arith
get_elem?-append (x ∷ xs) ys (suc i) = ground (arith, get_elem?-append xs ys i)

-- Heights that agree with `front` below its end, and are empty behind it.
pub record Fits (front : List Bytes) (heights : Map ℕ Bytes) : Type 0 where
  pub inside : (i : ℕ) → i < length front → heights i ≡ get_elem? front i
  pub behind : (i : ℕ) → length front < i → heights i ≡ none

past_one : (k : Bytes) (d : ℕ) → 0 < d → get_elem? (k ∷ []) d ≡ none
past_one k zero h = elim h [ ]
past_one k (suc d) h = refl

-- The heights with one more.
pub put_height-Fits :
    (front : List Bytes) (k : Bytes) (heights : Map ℕ Bytes) (i : ℕ)
    → Fits front heights
    → put_height (length front) k heights i ≡ get_elem? (front ++ (k ∷ [])) i
put_height-Fits front k heights i f = elim (Bool-cases (ltb i (length front))) [
  | inl low ↦
      rw
        (
          get_elem?-append front (k ∷ []) i,
          low,
          not_eq (length front) i (λ e. omega (arith, ltb→lt i (length front) low, e)),
        )
        (f.inside i (ltb→lt i (length front) low))
  | inr high ↦ elim (Bool-cases (length front == i)) [
    | inl here ↦
        let e : i ≡ length front = sym ((==_iff (length front) i).0 here) in
        let z : length front - length front ≡ 0 = omega arith in
        rw (get_elem?-append front (k ∷ []) i, high, here, e, z)
    | inr other ↦
        let above : length front < i = past (length front) i high other in
        rw
          (
            get_elem?-append front (k ∷ []) i,
            high,
            other,
            past_one k (i - length front) (omega arith),
          )
          (f.behind i above)
  ]
]

Fits-put :
    (front : List Bytes) (k : Bytes) (heights : Map ℕ Bytes)
    → Fits front heights
    → Fits (front ++ (k ∷ [])) (put_height (length front) k heights)
Fits-put front k heights f = record {
  inside = λ i h. put_height-Fits front k heights i f;
  behind = λ i h.
      let size = length-append front (k ∷ []) in
      rw (not_eq (length front) i (λ e. omega (arith, size, h, e)))
        (f.behind i (omega (arith, size, h)));
}

pub placed-Fits :
    (ks front : List Bytes) (k : Bytes) (heights : Map ℕ Bytes) (i : ℕ)
    → Fits front heights
    → placed (length front) (k ∷ ks) heights i ≡ get_elem? (front ++ (k ∷ ks)) i
placed-Fits [] front k heights i f = put_height-Fits front k heights i f
placed-Fits (j ∷ ks) front k heights i f =
    let size : length (front ++ (k ∷ [])) ≡ suc (length front) =
      omega (arith, length-append front (k ∷ [])) in
    subst
      (λ (n : ℕ).
        placed n (j ∷ ks) (put_height (length front) k heights) i
        ≡ get_elem? ((front ++ (k ∷ [])) ++ (j ∷ ks)) i)
      size
      (placed-Fits ks (front ++ (k ∷ [])) j (put_height (length front) k heights) i
        (Fits-put front k heights f))
    ∙ ap (λ (l : List Bytes). get_elem? l i) (append_assoc front (k ∷ []) (j ∷ ks))

pub get_elem?-none : {A : Type 0} (xs : List A) (i : ℕ) → length xs ≤ i → get_elem? xs i ≡ none
get_elem?-none [] i h = refl
get_elem?-none (x ∷ xs) zero h = absurd (omega arith)
get_elem?-none (x ∷ xs) (suc i) h = get_elem?-none xs i (omega arith)
