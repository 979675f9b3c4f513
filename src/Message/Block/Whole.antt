-- ===== src/Message/Block/Whole.antt =====
-- CoinBlock with its transactions, written and read, and its Merkle root.
use m_signa.Prelude.{
  ℕ, ◌+◌, ◌^◌, ◌≤◌, ◌<◌, ◌≡◌, refl, List, [], ◌∷◌, ◌++◌, true, le→leb, length, length-append,
  append_assoc, All, arith,
}
use mathlib.Core.Path.{subst}
use m_signa.Result.{ok}
use m_signa.Bytes.{Bytes, IsU32, add32}
use m_signa.Bytes.Cursor.{At, At-skip, At-next, At-length, suffix-At}
use m_signa.Bytes.Loop.{flat}
use m_signa.VarInt.{var_int_size, put_var_int}
use m_signa.VarInt.RoundTrip.{length-put_var_int, var_int_size_bounds, get_var_int-put_var_int}
use m_signa.Transaction.{Transaction, tx_size, put_tx}
use m_signa.Transaction.Body.{IsTransaction}
use m_signa.Transaction.Size.{length-put_tx}
use m_signa.Transaction.RoundTrip.{get_tx-put_tx}
use m_signa.BlockHeader.{put_header}
use m_signa.BlockHeader.RoundTrip.{IsHeader, length-put_header, get_header-put_header}
use m_signa.Message.Block.{CoinBlock, put_block, get_block, read_txs, is_valid_merkle_root}

read_txs-flat :
    (txs : List Transaction) (bytes rest : Bytes) (pos : ℕ)
    → length bytes < 2 ^ 32
    → All IsTransaction txs
    → At pos bytes (flat (put_tx true) txs ++ rest)
    → read_txs (length txs) bytes pos ≡ ok txs
unfolding read_txs flat
read_txs-flat [] bytes rest pos h v a = refl
read_txs-flat (tx ∷ txs) bytes rest pos h v a =
    let tail : Bytes = flat (put_tx true) txs ++ rest in
    let here : At pos bytes (put_tx true tx ++ tail) =
      subst (At pos bytes) (append_assoc (put_tx true tx) (flat (put_tx true) txs) rest) a in
    let total = At-length pos bytes (put_tx true tx ++ tail) here in
    let part = length-append (put_tx true tx) tail in
    let size = length-put_tx true tx v.0.inputs_typed in
    let step : add32 pos (tx_size true tx) ≡ pos + length (put_tx true tx) =
      omega (arith, total, part, size) in
    let fits : pos + length (put_tx true tx) ≤ length bytes = omega (arith, total, part) in
    rw (
      suffix-At pos bytes (put_tx true tx ++ tail) here,
      get_tx-put_tx tx tail v.0 (omega (arith, total)),
      step,
      le→leb _ _ fits,
      read_txs-flat txs bytes rest (pos + length (put_tx true tx)) h v.1
          (At-next pos (pos + length (put_tx true tx)) bytes (put_tx true tx) tail here refl),
    )

-- What the types of a block give: valid fields, and at least 140 bytes, less than 2 ^ 32.
pub record IsBlock (b : CoinBlock) (rest : Bytes) : Type 0 where
  pub header : IsHeader b.header
  pub txs : All IsTransaction b.txs
  pub few : IsU32 (length b.txs)
  pub long : 140 ≤ length (put_block b ++ rest)
  pub short : length (put_block b ++ rest) < 2 ^ 32

module _ (sha256_2 : Bytes → Bytes) where
  -- A block whose Merkle root is valid, with at most 2 ^ 32 - 1 transactions, each of which has an
  -- input, is read back as it was written, whatever follows it, as long as both together have at
  -- least 140 bytes, and less than 2 ^ 32. The transactions that the object held before stay in front
  -- of those that are read.
  pub get_block-put_block :
      (old : List Transaction) (b : CoinBlock) (rest : Bytes)
      → IsBlock b rest
      → is_valid_merkle_root sha256_2 b ≡ true
      → get_block sha256_2 old (put_block b ++ rest) ≡ ok (record b { txs = old ++ b.txs })
  unfolding is_valid_merkle_root
  get_block-put_block old b rest v root =
      let head : Bytes = put_header b.header in
      let n : ℕ = length b.txs in
      let t2 : Bytes = flat (put_tx true) b.txs ++ rest in
      let t1 : Bytes = put_var_int n ++ t2 in
      let bytes : Bytes = head ++ t1 in
      let shape : put_block b ++ rest ≡ bytes = unfold put_block in simp append_assoc in
      let long : 140 ≤ length bytes = subst (λ (x : Bytes). 140 ≤ length x) shape v.long in
      let short : length bytes < 2 ^ 32 = subst (λ (x : Bytes). length x < 2 ^ 32) shape v.short in
      let bn = var_int_size_bounds n in
      let p1 : ℕ = 80 + var_int_size n in
      let a1 : At 80 bytes t1 = At-skip 80 head t1 (length-put_header b.header v.header) in
      let a2 : At p1 bytes t2 =
        At-next 80 p1 bytes (put_var_int n) t2 a1 (omega (arith, length-put_var_int n)) in
      let first : add32 80 (var_int_size n) ≡ p1 = omega arith in
      unfold get_block in
      rw (
        shape,
        le→leb 140 _ long,
        get_header-put_header b.header t1 v.header,
        suffix-At 80 bytes t1 a1,
        get_var_int-put_var_int n t2 (omega (arith, v.few)),
        first,
        read_txs-flat b.txs bytes rest p1 short v.txs a2,
        root,
      )
