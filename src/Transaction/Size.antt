-- ===== src/Transaction/Size.antt =====
-- `getSize` and `getVSize` of transactions against `getSerialized`.
use m_signa.Prelude.{
  ℕ, ◌+◌, ◌/◌, ◌≡◌, refl, List, [], ◌∷◌, ◌++◌, Bool, true, false, ◌&&◌, length, length-append, All,
  Bool-cases, inl, inr, arith,
}
use m_signa.Bytes.{Bytes, little_endian, uint_to_vch}
use m_signa.Bytes.Numeric.{length-uint_to_vch}
use m_signa.Bytes.Loop.{flat}
use m_signa.VarInt.{var_int_size, put_var_int}
use m_signa.VarInt.RoundTrip.{length-put_var_int}
use m_signa.Transaction.Defs.{
  TxIn, TxOut, Transaction, sum_of, tx_in_size, put_tx_in, tx_out_size, put_tx_out, put_witness,
  witness_size, has_witness, tx_size, tx_v_size, put_tx,
}
use m_signa.Transaction.Parts.{IsTxIn, length-put_tx_in, length-put_tx_out, length-put_witness}

pub length-flat :
    {A : Type 0} (put : A → Bytes) (size : A → ℕ) (xs : List A)
    → All (λ x. length (put x) ≡ size x) xs
    → length (flat put xs) ≡ sum_of size xs
unfolding flat sum_of
length-flat put size [] h = refl
length-flat put size (x ∷ xs) h =
    omega (arith, length-append (put x) (flat put xs), length-flat put size xs h.1, h.0)

inputs_sized :
    (is : List TxIn) → All IsTxIn is → All (λ i. length (put_tx_in true i) ≡ tx_in_size i) is
inputs_sized [] v = tt
inputs_sized (i ∷ is) v = (length-put_tx_in i v.0.out_point, inputs_sized is v.1)

outputs_sized : (os : List TxOut) → All (λ o. length (put_tx_out o) ≡ tx_out_size o) os
outputs_sized [] = tt
outputs_sized (o ∷ os) = (length-put_tx_out o, outputs_sized os)

witnesses_sized :
    (is : List TxIn)
    → All (λ i. length (put_witness i.script_witness) ≡ witness_size i.script_witness) is
witnesses_sized [] = tt
witnesses_sized (i ∷ is) = (length-put_witness i.script_witness, witnesses_sized is)

total :
    (tx : Transaction) (mask wits : Bytes) (n : ℕ)
    → All IsTxIn tx.inputs
    → length mask + length wits ≡ n
    → length (
        uint_to_vch 4 tx.version little_endian
        ++ (mask
            ++ (put_var_int (length tx.inputs)
                ++ (flat (put_tx_in true) tx.inputs
                    ++ (put_var_int (length tx.outputs)
                        ++ (flat put_tx_out tx.outputs
                            ++ (wits ++ uint_to_vch 4 tx.lock_time little_endian)))))))
      ≡ 8
        + var_int_size (length tx.inputs)
        + var_int_size (length tx.outputs)
        + sum_of tx_in_size tx.inputs
        + sum_of tx_out_size tx.outputs
        + n
total tx mask wits n v e = simp length-append (
    omega (
      arith,
      length-uint_to_vch 4 tx.version little_endian,
      length-uint_to_vch 4 tx.lock_time little_endian,
      length-put_var_int (length tx.inputs),
      length-put_var_int (length tx.outputs),
      length-flat (put_tx_in true) tx_in_size tx.inputs (inputs_sized tx.inputs v),
      length-flat put_tx_out tx_out_size tx.outputs (outputs_sized tx.outputs),
    ))

-- For a transaction whose hashes have 32 bytes, with or without witnesses, `getSize` is the number
-- of bytes that `getSerialized` writes.
pub length-put_tx :
    (with_witness : Bool) (tx : Transaction)
    → All IsTxIn tx.inputs
    → length (put_tx with_witness tx) ≡ tx_size with_witness tx
unfolding put_tx tx_size
length-put_tx w tx v = elim (Bool-cases (w && has_witness tx.inputs)) [
  | inl e ↦ rw e (
      total tx (0 ∷ 1 ∷ []) (flat (λ i. put_witness i.script_witness) tx.inputs) _ v (
        omega (
          arith,
          length-flat (λ i. put_witness i.script_witness) (λ i. witness_size i.script_witness)
              tx.inputs (witnesses_sized tx.inputs),
        )))
  | inr e ↦ rw e (total tx [] [] 0 v refl)
]

-- With witnesses, the virtual size counts every byte of the form without them, and a quarter of
-- the witness bytes, rounded up; the two bytes that mark the form with witnesses are in `getSize`
-- only, and `getSize` is what `getSerialized` writes.
pub tx_v_size-eq :
    (tx : Transaction)
    → All IsTxIn tx.inputs
    → has_witness tx.inputs ≡ true
    → let witness_bytes = length (flat (λ i. put_witness i.script_witness) tx.inputs) in
      (tx_v_size tx ≡ length (put_tx false tx) + (witness_bytes + 3) / 4)
      × (length (put_tx true tx) ≡ length (put_tx false tx) + (2 + witness_bytes))
tx_v_size-eq tx v e =
    let bytes =
      length-flat (λ i. put_witness i.script_witness) (λ i. witness_size i.script_witness) tx.inputs
        (witnesses_sized tx.inputs) in
    rw (length-put_tx false tx v, length-put_tx true tx v)
      (unfold tx_v_size tx_size in rw (e, bytes) (omega arith, omega arith))
