-- ===== src/Transaction/Body.antt =====
-- Reading the parts of a transaction one after the other.
use m_signa.Prelude.{
  ℕ, ◌+◌, ◌^◌, ◌≤◌, ◌<◌, ◌≡◌, refl, sym, ap, ◌∙◌, List, [], ◌∷◌, ◌++◌, map, Bool, true,
  if◌then◌else◌, leb, le→leb, length, length-append, length-map, append_assoc, All, arith,
}
use mathlib.Core.Path.{subst}
use m_signa.Result.{Result, ok}
use m_signa.Bytes.{Bytes, IsU32, IsU64, add32, Error, little_endian, uint_to_vch, suffix}
use m_signa.Bytes.Numeric.{length-uint_to_vch}
use m_signa.Bytes.Cursor.{At, At-next, At-length, suffix-At}
use m_signa.Bytes.Loop.{flat, read_items, read_items-flat, Reads}
use m_signa.VarInt.{var_int_size, put_var_int, get_var_int}
use m_signa.VarInt.RoundTrip.{uint_at-At, length-put_var_int, get_var_int-put_var_int}
use m_signa.Transaction.Defs.{
  TxIn, TxOut, Transaction, put_witness, witness_size, tx_in_size, put_tx_in, get_tx_in,
  tx_out_size, put_tx_out, get_tx_out, read_witnesses, read_mask, get_tx,
}
use m_signa.Transaction.Parts.{
  IsTxIn, without_witness, put_tx_out-Reads, get_tx_in-put_tx_in, length-put_tx_in,
  get_witness-put_witness, length-put_witness,
}

-- A transaction that has an input, and whose numbers fit their types.
pub record IsTransaction (tx : Transaction) : Type 0 where
  pub version_u32 : IsU32 tx.version
  pub lock_time_u32 : IsU32 tx.lock_time
  pub inputs_typed : All IsTxIn tx.inputs
  pub outputs_typed : All (λ o. IsU64 o.value) tx.outputs
  pub some_input : 0 < length tx.inputs
  pub inputs_u32 : IsU32 (length tx.inputs)
  pub outputs_u32 : IsU32 (length tx.outputs)

abbrev pub bare : List TxIn → List TxIn
bare = map without_witness

flat-bare : (is : List TxIn) → flat (put_tx_in true) (bare is) ≡ flat (put_tx_in true) is
unfolding flat put_tx_in
flat-bare [] = refl
flat-bare (i ∷ is) = ap (λ (r : Bytes). put_tx_in true i ++ r) (flat-bare is)

bare-Reads :
    (is : List TxIn) → All IsTxIn is → All (Reads (put_tx_in true) get_tx_in tx_in_size) (bare is)
bare-Reads [] v = tt
bare-Reads (i ∷ is) v = (
  (
    (λ rest h. get_tx_in-put_tx_in (without_witness i) rest (again i v.0) h),
    length-put_tx_in (without_witness i) v.0.out_point,
  ),
  bare-Reads is v.1,
)
  where
    again : (i : TxIn) → IsTxIn i → IsTxIn (without_witness i)
    again i v = record { out_point = v.out_point; sequence_u32 = v.sequence_u32 }

outputs-Reads :
    (os : List TxOut)
    → All (λ o. IsU64 o.value) os
    → All (Reads put_tx_out get_tx_out tx_out_size) os
outputs-Reads [] v = tt
outputs-Reads (o ∷ os) v = (put_tx_out-Reads o v.0, outputs-Reads os v.1)

abbrev pub witnesses : List TxIn → Bytes
witnesses = flat (λ i. put_witness i.script_witness)

pub read_witnesses-flat :
    (is : List TxIn) (bytes rest : Bytes) (pos : ℕ)
    → length bytes < 2 ^ 32
    → At pos bytes (witnesses is ++ rest)
    → read_witnesses (bare is) bytes pos ≡ ok (is, pos + length (witnesses is))
unfolding read_witnesses flat
read_witnesses-flat [] bytes rest pos h a = ap (λ (p : ℕ). ok ([], p)) (omega arith)
read_witnesses-flat (i ∷ is) bytes rest pos h a =
    let stack : List Bytes = i.script_witness in
    let tail : Bytes = witnesses is ++ rest in
    let here : At pos bytes (put_witness stack ++ tail) =
      subst (At pos bytes) (append_assoc (put_witness stack) (witnesses is) rest) a in
    let total = At-length pos bytes (put_witness stack ++ tail) here in
    let size = length-append (put_witness stack) tail in
    let own = length-put_witness stack in
    let step : add32 pos (witness_size stack) ≡ pos + length (put_witness stack) = omega arith in
    rw
      (
        suffix-At pos bytes (put_witness stack ++ tail) here,
        get_witness-put_witness stack tail (omega arith),
        step,
        read_witnesses-flat is bytes rest (pos + length (put_witness stack)) h
            (At-next pos _ bytes (put_witness stack) tail here refl),
      )
      (ap (λ (p : ℕ). ok (i ∷ is, p))
        (omega (arith, length-append (put_witness stack) (witnesses is))))

-- A count, and the items behind it.
count_then_items :
    {A : Type 0} (put : A → Bytes) (parse : Bytes → Result Error A) (size : A → ℕ) (xs : List A)
    (bytes rest : Bytes) (pos : ℕ)
    → length bytes < 2 ^ 32
    → All (Reads put parse size) xs
    → IsU32 (length xs)
    → At pos bytes (put_var_int (length xs) ++ (flat put xs ++ rest))
    → (suffix pos bytes ≡ ok (put_var_int (length xs) ++ (flat put xs ++ rest)))
      × (get_var_int (put_var_int (length xs) ++ (flat put xs ++ rest)) ≡ ok (length xs))
      × (end : ℕ) × (read_items parse size (length xs) bytes (add32 pos (var_int_size (length xs)))
          ≡ ok (xs, end))
      × At end bytes rest
count_then_items put parse size xs bytes rest pos h good n a =
    let head : Bytes = put_var_int (length xs) in
    let tail : Bytes = flat put xs ++ rest in
    let total = At-length pos bytes (head ++ tail) a in
    let start : ℕ = pos + var_int_size (length xs) in
    let at_items : At start bytes tail =
      At-next pos start bytes head tail a (omega (arith, length-put_var_int (length xs))) in
    let step : add32 pos (var_int_size (length xs)) ≡ start =
      omega (arith, length-append head tail, length-put_var_int (length xs)) in
    (
      suffix-At pos bytes (head ++ tail) a,
      get_var_int-put_var_int (length xs) tail (omega arith),
      start + length (flat put xs),
      ap (λ (p : ℕ). read_items parse size (length xs) bytes p) step
          ∙ read_items-flat put parse size xs bytes rest start h good at_items,
      At-next start _ bytes (flat put xs) rest at_items refl,
    )

-- All that follows the mask.
pub body :
    (tx : Transaction) (bytes head wits rest : Bytes) (flagged : Bool) (pos0 : ℕ)
    → let lock : Bytes = uint_to_vch 4 tx.lock_time little_endian in
      IsTransaction tx
      → length bytes < 2 ^ 32
      → 10 ≤ length bytes
      → At 0 bytes (uint_to_vch 4 tx.version little_endian ++ head)
      → read_mask bytes ≡ ok (flagged, pos0)
      → At pos0 bytes (
          put_var_int (length tx.inputs)
          ++ (flat (put_tx_in true) tx.inputs
              ++ (put_var_int (length tx.outputs)
                  ++ (flat put_tx_out tx.outputs ++ (wits ++ (lock ++ rest))))))
      → ((pos : ℕ)
          → At pos bytes (wits ++ (lock ++ rest))
          → (if flagged
              then read_witnesses (bare tx.inputs) bytes pos
              else ok (bare tx.inputs, pos))
            ≡ ok (tx.inputs, pos + length wits))
      → get_tx bytes ≡ ok tx
unfolding get_tx
body tx bytes head wits rest flagged pos0 v h long ver mask at_in wit =
    let lock : Bytes = uint_to_vch 4 tx.lock_time little_endian in
    let out : Bytes =
      put_var_int (length tx.outputs) ++ (flat put_tx_out tx.outputs ++ (wits ++ (lock ++ rest))) in
    let n_in : length (bare tx.inputs) ≡ length tx.inputs = length-map without_witness tx.inputs in
    let (s1, c1, p1, r1, a1) =
      count_then_items (put_tx_in true) get_tx_in tx_in_size (bare tx.inputs) bytes out pos0 h
        (bare-Reads tx.inputs v.inputs_typed) (subst IsU32 (sym n_in) v.inputs_u32)
        (rw (n_in, flat-bare tx.inputs) at_in) in
    let (s2, c2, p2, r2, a2) =
      count_then_items put_tx_out get_tx_out tx_out_size tx.outputs bytes (wits ++ (lock ++ rest))
        p1 h (outputs-Reads tx.outputs v.outputs_typed) v.outputs_u32 a1 in
    let a3 : At (p2 + length wits) bytes (lock ++ rest) =
      At-next p2 _ bytes wits (lock ++ rest) a2 refl in
    let total = At-length (p2 + length wits) bytes (lock ++ rest) a3 in
    let lock_size = length-uint_to_vch 4 tx.lock_time little_endian in
    let fits : leb (add32 (p2 + length wits) 4) (length bytes) ≡ true =
      le→leb _ _ (omega (arith, length-append lock rest)) in
    rw (
      le→leb 10 _ long,
      uint_at-At 4 0 tx.version bytes head v.version_u32 ver,
      mask,
      s1,
      c1,
      r1,
      s2,
      c2,
      r2,
      wit p2 a2,
      fits,
      uint_at-At 4 (p2 + length wits) tx.lock_time bytes rest v.lock_time_u32 a3,
    )
