-- ===== src/Transaction/RoundTrip.antt =====
-- Transaction::getSerialized and setSerialized, with and without witnesses.
use m_signa.Prelude.{
  ℕ, zero, suc, ◌+◌, ◌^◌, ◌≤◌, ◌<◌, ◌≡◌, refl, sym, ap, ◌∙◌, List, [], ◌∷◌, ◌++◌, Bool, true, false,
  ◌&&◌, ◌||◌, ◌==◌, if◌then◌else◌, length, length-append, get_or, append_assoc, arith, inl, inr,
  Bool-cases, drop,
}
use mathlib.Core.Path.{subst, ap₂}
use m_signa.Result.{ok}
use m_signa.Bytes.{Bytes, little_endian, uint_to_vch}
use m_signa.Bytes.Numeric.{length-uint_to_vch}
use m_signa.Bytes.Cursor.{At, At-start, At-next, At-skip}
use m_signa.Bytes.Loop.{flat}
use m_signa.VarInt.{put_var_int}
use m_signa.VarInt.RoundTrip.{length-put_var_int, var_int_size_bounds}
use m_signa.Transaction.Defs.{
  TxIn, Transaction, put_tx_in, put_tx_out, has_witness, is_some_witness, put_tx, read_witnesses,
  read_mask, get_tx,
}
use m_signa.Transaction.Body.{IsTransaction, bare, witnesses, read_witnesses-flat, body}

get_or-At :
    (pos : ℕ) (bytes rest : Bytes) → At pos bytes rest → get_or bytes pos 0 ≡ get_or rest 0 0
get_or-At pos bytes rest a = get_or-drop pos bytes ∙ ap (λ (r : Bytes). get_or r 0 0) a.remains
  where
    get_or-drop : (n : ℕ) (bs : Bytes) → get_or bs n 0 ≡ get_or (drop n bs) 0 0
    get_or-drop zero bs = refl
    get_or-drop (suc n) [] = refl
    get_or-drop (suc n) (b ∷ bs) = get_or-drop n bs

-- The first byte of a count is 0 only for 0.
put_var_int-head :
    (n : ℕ) (rest : Bytes) → 0 < n → (get_or (put_var_int n ++ rest) 0 0 == 0) ≡ false
unfolding put_var_int
put_var_int-head n rest h = ground arith

unmarked :
    (n : ℕ) (bytes rest : Bytes)
    → 0 < n
    → At 4 bytes (put_var_int n ++ rest)
    → read_mask bytes ≡ ok (false, 4)
unfolding read_mask
unmarked n bytes rest h a =
    rw (get_or-At 4 bytes (put_var_int n ++ rest) a, put_var_int-head n rest h)

marked :
    (bytes rest : Bytes)
    → At 4 bytes (0 ∷ 1 ∷ rest)
    → At 5 bytes (1 ∷ rest)
    → read_mask bytes ≡ ok (true, 6)
unfolding read_mask
marked bytes rest a b = rw (get_or-At 4 bytes (0 ∷ 1 ∷ rest) a, get_or-At 5 bytes (1 ∷ rest) b)

neither : (a b : Bool) → (a || b) ≡ false → (a ≡ false) × (b ≡ false)
neither a b e = ground arith

no_witness : (stack : List Bytes) → is_some_witness stack ≡ false → stack ≡ []
no_witness [] e = refl
no_witness (item ∷ rest) e = cc

-- Without a witness the inputs lose nothing.
bare-id : (is : List TxIn) → has_witness is ≡ false → bare is ≡ is
bare-id [] e = refl
bare-id (i ∷ is) e =
    let (own, others) = neither (is_some_witness i.script_witness) (has_witness is) e in
    ap₂ (λ (s : List Bytes) (js : List TxIn). record i { script_witness = s } ∷ js)
      (sym (no_witness i.script_witness own)) (bare-id is others)

-- The serialised form with its parts bracketed to the right.
abbrev layout : Transaction → Bytes → Bytes → Bytes → Bytes
layout tx mask wits rest =
    uint_to_vch 4 tx.version little_endian
    ++ (mask
        ++ (put_var_int (length tx.inputs)
            ++ (flat (put_tx_in true) tx.inputs
                ++ (put_var_int (length tx.outputs)
                    ++ (flat put_tx_out tx.outputs
                        ++ (wits ++ (uint_to_vch 4 tx.lock_time little_endian ++ rest)))))))

put_tx-layout :
    (with_witness : Bool) (tx : Transaction) (rest : Bytes)
    → let m = with_witness && has_witness tx.inputs in
      put_tx with_witness tx ++ rest
      ≡ layout tx (if m then 0 ∷ 1 ∷ [] else []) (if m then witnesses tx.inputs else []) rest
unfolding put_tx
put_tx-layout w tx rest = simp append_assoc

-- The bytes in this layout are read back, given what the mask and the witnesses read as.
layout_back :
    (tx : Transaction) (mask wits rest : Bytes) (flagged : Bool)
    → let bytes : Bytes = layout tx mask wits rest in
      IsTransaction tx
      → length bytes < 2 ^ 32
      → read_mask bytes ≡ ok (flagged, 4 + length mask)
      → ((pos : ℕ)
          → At pos bytes (wits ++ (uint_to_vch 4 tx.lock_time little_endian ++ rest))
          → (if flagged
              then read_witnesses (bare tx.inputs) bytes pos
              else ok (bare tx.inputs, pos))
            ≡ ok (tx.inputs, pos + length wits))
      → get_tx bytes ≡ ok tx
layout_back tx mask wits rest flagged v h m w =
    let version : Bytes = uint_to_vch 4 tx.version little_endian in
    let lock : Bytes = uint_to_vch 4 tx.lock_time little_endian in
    let outs : Bytes = flat put_tx_out tx.outputs ++ (wits ++ (lock ++ rest)) in
    let n_out : Bytes = put_var_int (length tx.outputs) in
    let ins : Bytes = flat (put_tx_in true) tx.inputs in
    let n_in : Bytes = put_var_int (length tx.inputs) in
    let tail : Bytes = n_in ++ (ins ++ (n_out ++ outs)) in
    let bytes : Bytes = version ++ (mask ++ tail) in
    let long : 10 ≤ length bytes = omega (
      arith,
      length-append version (mask ++ tail),
      length-append mask tail,
      length-append n_in (ins ++ (n_out ++ outs)),
      length-append ins (n_out ++ outs),
      length-append n_out outs,
      length-append (flat put_tx_out tx.outputs) (wits ++ (lock ++ rest)),
      length-append wits (lock ++ rest),
      length-append lock rest,
      length-uint_to_vch 4 tx.version little_endian,
      length-uint_to_vch 4 tx.lock_time little_endian,
      length-put_var_int (length tx.inputs),
      length-put_var_int (length tx.outputs),
      var_int_size_bounds (length tx.inputs),
      var_int_size_bounds (length tx.outputs),
    ) in
    body tx bytes (mask ++ tail) wits rest flagged (4 + length mask) v h long (At-start bytes) m
      (subst (λ (b : Bytes). At (4 + length mask) b tail) (append_assoc version mask tail)
        (At-skip (4 + length mask) (version ++ mask) tail (
          omega
            (arith, length-append version mask, length-uint_to_vch 4 tx.version little_endian))))
      w

version_size : (tx : Transaction) → length (uint_to_vch 4 tx.version little_endian) ≡ 4
version_size tx = length-uint_to_vch 4 tx.version little_endian

with_witnesses :
    (tx : Transaction) (rest : Bytes)
    → let bytes : Bytes = layout tx (0 ∷ 1 ∷ []) (witnesses tx.inputs) rest in
      IsTransaction tx → length bytes < 2 ^ 32 → get_tx bytes ≡ ok tx
with_witnesses tx rest v h =
    let bytes : Bytes = layout tx (0 ∷ 1 ∷ []) (witnesses tx.inputs) rest in
    let at_mask = At-skip 4 (uint_to_vch 4 tx.version little_endian) _ (version_size tx) in
    layout_back tx (0 ∷ 1 ∷ []) (witnesses tx.inputs) rest true v h
      (marked bytes _ at_mask (At-next 4 5 bytes (0 ∷ []) _ at_mask refl))
      (λ pos a. read_witnesses-flat tx.inputs bytes _ pos h a)

without_witnesses :
    (tx : Transaction) (rest : Bytes)
    → let bytes : Bytes = layout tx [] [] rest in
      IsTransaction tx
      → length bytes < 2 ^ 32
      → has_witness tx.inputs ≡ false
      → get_tx bytes ≡ ok tx
without_witnesses tx rest v h e =
    let bytes : Bytes = layout tx [] [] rest in
    layout_back tx [] [] rest false v h
      (unmarked (length tx.inputs) bytes _ v.some_input
        (At-skip 4 (uint_to_vch 4 tx.version little_endian) _ (version_size tx)))
      (λ pos a. ap₂ (λ (is : List TxIn) (p : ℕ). ok (is, p)) (bare-id tx.inputs e) (omega arith))

-- Every transaction that has an input, and whose serialised form is shorter than 2 ^ 32 bytes, is
-- read back as it was written with its witnesses, whatever follows it.
pub get_tx-put_tx :
    (tx : Transaction) (rest : Bytes)
    → IsTransaction tx
    → length (put_tx true tx ++ rest) < 2 ^ 32
    → get_tx (put_tx true tx ++ rest) ≡ ok tx
get_tx-put_tx tx rest v h = elim (Bool-cases (has_witness tx.inputs)) [
  | inl e ↦
      let shape : put_tx true tx ++ rest ≡ layout tx (0 ∷ 1 ∷ []) (witnesses tx.inputs) rest =
        rw e at (put_tx-layout true tx rest) in
      rw shape (with_witnesses tx rest v (rw shape at h))
  | inr e ↦
      let shape : put_tx true tx ++ rest ≡ layout tx [] [] rest =
        rw e at (put_tx-layout true tx rest) in
      rw shape (without_witnesses tx rest v (rw shape at h) e)
]
