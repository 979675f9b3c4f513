-- ===== src/Bytes/Loop.antt =====
-- The loops that read `count` items one after the other, and the writers they answer to.
use m_signa.Prelude.{
  ℕ, zero, suc, ◌+◌, ◌*◌, ◌^◌, ◌<◌, ◌≡◌, refl, ap, ◌∙◌, List, [], ◌∷◌, ◌++◌, length, length-append,
  append_assoc, All, arith,
}
use mathlib.Core.Path.{subst}
use native.Mathlib.Nat.{mul-suc}
use m_signa.Result.{Result, ok, ◌>>=◌}
use m_signa.Bytes.{Bytes, add32, Error, slice, suffix}
use m_signa.Bytes.Cursor.{At, At-next, At-length, slice-At, suffix-At}

module _ {A : Type 0} where
  -- `for (auto& x: xs) { rval += x.getSerialized(); }`
  unfoldable pub flat : (A → Bytes) → List A → Bytes
  flat put [] = []
  flat put (x ∷ xs) = put x ++ flat put xs

  -- `for (i = 0; i < count; i++) { A x(uchar_vector(bytes.begin() + pos, bytes.end())); ...;
  -- pos += x.getSize(); }`, with the position after the loop.
  unfoldable pub read_items :
      (Bytes → Result Error A) → (A → ℕ) → ℕ → Bytes → ℕ → Result Error (List A × ℕ)
  read_items parse size zero bytes pos = ok ([], pos)
  read_items parse size (suc count) bytes pos = do
    rest ← suffix pos bytes
    x ← parse rest
    (xs, end) ← read_items parse size count bytes (add32 pos (size x))
    ok (x ∷ xs, end)

  -- `put` and `parse` answer to each other at `x`, and `size` is the number of bytes written.
  abbrev pub Reads : (A → Bytes) → (Bytes → Result Error A) → (A → ℕ) → A → Type 0
  Reads put parse size x =
      ((rest : Bytes) → length (put x ++ rest) < 2 ^ 32 → parse (put x ++ rest) ≡ ok x)
      × (length (put x) ≡ size x)

  pub read_items-flat :
      (put : A → Bytes) (parse : Bytes → Result Error A) (size : A → ℕ) (xs : List A)
      (bytes rest : Bytes) (pos : ℕ)
      → length bytes < 2 ^ 32
      → All (Reads put parse size) xs
      → At pos bytes (flat put xs ++ rest)
      → read_items parse size (length xs) bytes pos ≡ ok (xs, pos + length (flat put xs))
  unfolding read_items flat
  read_items-flat put parse size [] bytes rest pos h good a =
      ap (λ (p : ℕ). ok ([], p)) (omega arith)
  read_items-flat put parse size (x ∷ xs) bytes rest pos h good a =
      let tail : Bytes = flat put xs ++ rest in
      let here = subst (At pos bytes) (append_assoc (put x) (flat put xs) rest) a in
      let total = At-length pos bytes (put x ++ tail) here in
      let step : add32 pos (size x) ≡ pos + length (put x) =
        omega (arith, good.0.1, total, length-append (put x) tail) in
      rw
        (
          suffix-At pos bytes (put x ++ tail) here,
          good.0.0 tail (omega arith),
          step,
          read_items-flat put parse size xs bytes rest (pos + length (put x)) h good.1
              (At-next pos (pos + length (put x)) bytes (put x) tail here refl),
        )
        (ap (λ (p : ℕ). ok (x ∷ xs, p)) (omega (arith, length-append (put x) (flat put xs))))

module _ {A : Type 0} where
  -- `for (i = 0; i < count; i++) { A x(uchar_vector(bytes.begin() + pos, bytes.begin() + pos +
  -- width)); ...; pos += step; }`, with the position after the loop.
  unfoldable pub read_fixed :
      (Bytes → Result Error A) → (width step count : ℕ) → Bytes → ℕ → Result Error (List A × ℕ)
  read_fixed parse width step zero bytes pos = ok ([], pos)
  read_fixed parse width step (suc count) bytes pos = do
    part ← slice pos (pos + width) bytes
    x ← parse part
    (xs, end) ← read_fixed parse width step count bytes (add32 pos step)
    ok (x ∷ xs, end)

  -- `put` writes `step` bytes, of which `parse` reads `x` back from the first `width`.
  pub record Fixed (put : A → Bytes) (parse : Bytes → Result Error A) (width step : ℕ) (x : A)
      : Type 0 where
    pub front : Bytes
    pub pad : Bytes
    pub shape : put x ≡ front ++ pad
    pub front_size : length front ≡ width
    pub pad_size : width + length pad ≡ step
    pub parsed : parse front ≡ ok x

  pub read_fixed-flat :
      (put : A → Bytes) (parse : Bytes → Result Error A) (width step : ℕ) (xs : List A)
      (bytes rest : Bytes) (pos : ℕ)
      → length bytes < 2 ^ 32
      → All (Fixed put parse width step) xs
      → At pos bytes (flat put xs ++ rest)
      → read_fixed parse width step (length xs) bytes pos ≡ ok (xs, pos + length (flat put xs))
  unfolding read_fixed flat
  read_fixed-flat put parse width step [] bytes rest pos h good a =
      ap (λ (p : ℕ). ok ([], p)) (omega arith)
  read_fixed-flat put parse width step (x ∷ xs) bytes rest pos h good a =
      let f = good.0 in
      let tail : Bytes = flat put xs ++ rest in
      let apart : (put x ++ flat put xs) ++ rest ≡ f.front ++ (f.pad ++ tail) =
        append_assoc (put x) (flat put xs) rest
        ∙ ap (λ (b : Bytes). b ++ tail) f.shape
        ∙ append_assoc f.front f.pad tail in
      let here : At pos bytes (f.front ++ (f.pad ++ tail)) = subst (At pos bytes) apart a in
      let total = At-length pos bytes (f.front ++ (f.pad ++ tail)) here in
      let lengths = length-append f.front (f.pad ++ tail) in
      let pads = length-append f.pad tail in
      let size : length (put x) ≡ step =
        omega (arith, ap length f.shape, length-append f.front f.pad, f.front_size, f.pad_size) in
      let step_on : add32 pos step ≡ pos + step =
        omega (arith, total, lengths, pads, f.front_size, f.pad_size) in
      let behind : At (pos + width) bytes (f.pad ++ tail) =
        At-next pos (pos + width) bytes f.front (f.pad ++ tail) here
          (omega (arith, f.front_size)) in
      let next : At (pos + step) bytes tail =
        At-next (pos + width) (pos + step) bytes f.pad tail behind (omega (arith, f.pad_size)) in
      rw
        (
          slice-At pos (pos + width) bytes f.front (f.pad ++ tail) here
              (omega (arith, f.front_size)),
          f.parsed,
          step_on,
          read_fixed-flat put parse width step xs bytes rest (pos + step) h good.1 next,
        )
        (ap (λ (p : ℕ). ok (x ∷ xs, p)) (omega (arith, size, length-append (put x) (flat put xs))))

  pub length-flat :
      (put : A → Bytes) (step : ℕ) (xs : List A)
      → All (λ x. length (put x) ≡ step) xs
      → length (flat put xs) ≡ step * length xs
  unfolding flat
  length-flat put step [] h = omega arith
  length-flat put step (x ∷ xs) h =
      let tail = length-flat put step xs h.1 in
      let product = mul-suc step (length xs) in
      omega (arith, length-append (put x) (flat put xs), h.0, tail, product)
