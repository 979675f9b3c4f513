-- ===== src/Message/Block/Height.antt =====
-- CoinBlock::getHeight, the height that a coinbase script begins with.
use m_signa.Prelude.{
  ℕ, zero, suc, ◌+◌, ◌*◌, ◌/◌, ◌%◌, ◌^◌, ◌≤◌, ◌<◌, ◌≡◌, refl, sym, ap, ◌∙◌, List, ◌∷◌, ◌++◌, le→leb,
  lt→ltb, ltb-false, some, length, length-append, take-append, arith,
}
use native.Mathlib.Nat.{add-mul, mul_assoc, mul_comm}
use m_signa.Result.{ok}
use m_signa.Bytes.{Bytes, low_bytes}
use m_signa.Transaction.{Transaction, TxIn}
use m_signa.Message.Block.{CoinBlock, height_loop, height_of_script, get_height}

length-low_bytes : (w n : ℕ) → length (low_bytes w n) ≡ w
unfolding low_bytes
length-low_bytes zero n = refl
length-low_bytes (suc w) n = ap suc (length-low_bytes w (n / 256))

height_loop-low_bytes :
    (w n height coef : ℕ)
    → n < 256 ^ w
    → height_loop (low_bytes w n) height coef ≡ height + n * coef
unfolding low_bytes
height_loop-low_bytes zero n height coef h = let e : n ≡ 0 = omega arith in rw e (omega arith)
height_loop-low_bytes (suc w) n height coef h =
    let q : ℕ = n / 256 in
    let r : ℕ = n % 256 in
    let e : q * 256 + r ≡ n = omega arith in
    let product : n * coef ≡ q * (coef * 256) + r * coef =
      ap (λ (k : ℕ). k * coef) (sym e)
      ∙ add-mul (q * 256) r coef
      ∙ ap (λ (k : ℕ). k + r * coef)
          (mul_assoc q 256 coef ∙ ap (λ (k : ℕ). q * k) (mul_comm 256 coef)) in
    omega (arith, product, height_loop-low_bytes w q (height + r * coef) (coef * 256) (omega arith))

-- The height of a block of version 2 or more whose first script begins with a height
-- of at most 7 bytes, the lowest byte first, behind their number.
pub get_height-low_bytes :
    (b : CoinBlock) (tx : Transaction) (txs : List Transaction) (i : TxIn) (is : List TxIn)
    (w h : ℕ) (rest : Bytes)
    → 2 ≤ b.header.version
    → b.txs ≡ tx ∷ txs
    → tx.inputs ≡ i ∷ is
    → i.script_sig ≡ w ∷ (low_bytes w h ++ rest)
    → w ≤ 7
    → h < 256 ^ w
    → get_height b ≡ ok (some h)
unfolding get_height height_of_script
get_height-low_bytes b tx txs i is w h rest v e1 e2 e3 small fits =
    let size : length (low_bytes w h) ≡ w = length-low_bytes w h in
    let inside : w < suc (length (low_bytes w h ++ rest)) =
      omega (arith, length-append (low_bytes w h) rest) in
    let sum : height_loop (low_bytes w h) 0 1 ≡ h =
      omega (arith, height_loop-low_bytes w h 0 1 fits) in
    rw (
      ltb-false b.header.version 2 v,
      e1,
      e2,
      e3,
      lt→ltb _ _ inside,
      le→leb w 7 small,
      take-append w (low_bytes w h) rest size,
      sum,
    )
