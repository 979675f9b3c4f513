-- ===== src/Transaction/Defs.antt =====
-- The data and the byte format of transactions. Positions are `uint`, lengths read are uint64_t.
use m_signa.Prelude.{
  ℕ, zero, suc, ◌+◌, ◌/◌, List, [], ◌∷◌, ◌++◌, Bool, true, false, ◌&&◌, ◌||◌, ◌==◌, leb,
  if◌then◌else◌, length, get_or, reverse,
}
use m_signa.Result.{Result, ok, err, guard, ◌>>=◌, ◌>>◌}
use m_signa.Bytes.{
  Bytes, add32, add64, Error, too_small, unrecognized_flags, missing_lock_time, little_endian,
  uint_to_vch, uint_at, vch_to_uint, slice, suffix,
}
use m_signa.Bytes.Loop.{flat, read_items}
use m_signa.VarInt.{var_int_size, put_var_int, get_var_int}

pub record OutPoint : Type 0 where
  pub hash : Bytes
  pub index : ℕ

pub record TxIn : Type 0 where
  pub previous_out : OutPoint
  pub script_sig : Bytes
  pub sequence : ℕ
  pub script_witness : List Bytes

pub record TxOut : Type 0 where
  pub value : ℕ
  pub script_pub_key : Bytes

pub record Transaction : Type 0 where
  pub version : ℕ
  pub inputs : List TxIn
  pub outputs : List TxOut
  pub lock_time : ℕ

-- OutPoint::getSerialized
unfoldable pub put_out_point : OutPoint → Bytes
put_out_point p = reverse p.hash ++ uint_to_vch 4 p.index little_endian

-- OutPoint::setSerialized
unfoldable pub get_out_point : Bytes → Result Error OutPoint
get_out_point bytes = do
  guard (leb 36 (length bytes)) too_small
  hash_bytes ← slice 0 32 bytes
  index ← uint_at 4 32 bytes little_endian
  ok (record { hash = reverse hash_bytes; index = index })

-- One item of a ScriptWitness.
unfoldable pub put_item : Bytes → Bytes
put_item item = put_var_int (length item) ++ item

-- ScriptWitness::getSize
unfoldable pub items_size : List Bytes → ℕ
items_size [] = 0
items_size (item ∷ rest) = var_int_size (length item) + length item + items_size rest

unfoldable pub witness_size : List Bytes → ℕ
unfolding items_size
witness_size stack = var_int_size (length stack) + items_size stack

-- ScriptWitness::getSerialized
unfoldable pub put_witness : List Bytes → Bytes
unfolding flat put_item
put_witness stack = put_var_int (length stack) ++ flat put_item stack

-- The loop of ScriptWitness::setSerialized.
unfoldable pub witness_loop : ℕ → Bytes → ℕ → Result Error (List Bytes)
witness_loop zero bytes pos = ok []
witness_loop (suc count) bytes pos = do
  rest ← suffix pos bytes
  size ← get_var_int rest
  let start = add32 pos (var_int_size size)
  guard (leb (add64 start size) (length bytes)) too_small
  item ← slice start (start + size) bytes
  stack ← witness_loop count bytes (add32 start size)
  ok (item ∷ stack)

-- ScriptWitness::setSerialized
unfoldable pub get_witness : Bytes → Result Error (List Bytes)
unfolding witness_loop
get_witness bytes = do count ← get_var_int bytes; witness_loop count bytes (var_int_size count)

-- TxIn::getSize
unfoldable pub tx_in_size : TxIn → ℕ
tx_in_size i = var_int_size (length i.script_sig) + length i.script_sig + 40

-- TxIn::getSerialized
unfoldable pub put_tx_in : Bool → TxIn → Bytes
unfolding put_out_point
put_tx_in include_length i =
    put_out_point i.previous_out
    ++ ((if include_length then put_var_int (length i.script_sig) else [])
        ++ (i.script_sig ++ uint_to_vch 4 i.sequence little_endian))

-- TxIn::setSerialized, on a new TxIn. The check covers the script, not the sequence behind it.
unfoldable pub get_tx_in : Bytes → Result Error TxIn
get_tx_in bytes = do
  guard (leb 41 (length bytes)) too_small
  previous_out ← get_out_point bytes
  rest ← suffix 36 bytes
  n ← get_var_int rest
  let pos = add32 (var_int_size n) 36
  guard (leb (add64 pos n) (length bytes)) too_small
  script_sig ← slice pos (pos + n) bytes
  sequence ← uint_at 4 (add32 pos n) bytes little_endian
  ok (record {
    previous_out = previous_out;
    script_sig = script_sig;
    sequence = sequence;
    script_witness = [];
  })

-- TxOut::getSize
unfoldable pub tx_out_size : TxOut → ℕ
tx_out_size o = var_int_size (length o.script_pub_key) + length o.script_pub_key + 8

-- TxOut::getSerialized
unfoldable pub put_tx_out : TxOut → Bytes
put_tx_out o =
    uint_to_vch 8 o.value little_endian
    ++ (put_var_int (length o.script_pub_key) ++ o.script_pub_key)

-- TxOut::setSerialized
unfoldable pub get_tx_out : Bytes → Result Error TxOut
get_tx_out bytes = do
  guard (leb 9 (length bytes)) too_small
  value ← vch_to_uint 8 bytes little_endian
  rest ← suffix 8 bytes
  n ← get_var_int rest
  let pos = add32 (var_int_size n) 8
  guard (leb (add64 pos n) (length bytes)) too_small
  script ← slice pos (pos + n) bytes
  ok (record { value = value; script_pub_key = script })

-- TxIn::hasWitness and Transaction::hasWitness
abbrev pub is_some_witness : List Bytes → Bool
is_some_witness [] = false
is_some_witness (item ∷ rest) = true

abbrev pub has_witness : List TxIn → Bool
has_witness [] = false
has_witness (i ∷ rest) = is_some_witness i.script_witness || has_witness rest

unfoldable pub sum_of : {A : Type 0} → (A → ℕ) → List A → ℕ
sum_of size [] = 0
sum_of size (x ∷ xs) = size x + sum_of size xs

-- Transaction::getSize
unfoldable pub tx_size : Bool → Transaction → ℕ
tx_size with_witness tx =
    8
    + var_int_size (length tx.inputs)
    + var_int_size (length tx.outputs)
    + sum_of tx_in_size tx.inputs
    + sum_of tx_out_size tx.outputs
    + (if with_witness && has_witness tx.inputs
        then 2 + sum_of (λ i. witness_size i.script_witness) tx.inputs
        else 0)

-- Transaction::getVSize
unfoldable pub tx_v_size : Transaction → ℕ
tx_v_size tx =
    8
    + var_int_size (length tx.inputs)
    + var_int_size (length tx.outputs)
    + sum_of tx_in_size tx.inputs
    + sum_of tx_out_size tx.outputs
    + (if has_witness tx.inputs
        then (sum_of (λ i. witness_size i.script_witness) tx.inputs + 3) / 4
        else 0)

-- Transaction::getSerialized
unfoldable pub put_tx : Bool → Transaction → Bytes
put_tx with_witness tx =
    let marked = with_witness && has_witness tx.inputs in
    uint_to_vch 4 tx.version little_endian
    ++ ((if marked then 0 ∷ 1 ∷ [] else [])
        ++ (put_var_int (length tx.inputs)
            ++ (flat (put_tx_in true) tx.inputs
                ++ (put_var_int (length tx.outputs)
                    ++ (flat put_tx_out tx.outputs
                        ++ ((if marked
                              then flat (λ i. put_witness i.script_witness) tx.inputs
                              else [])
                            ++ uint_to_vch 4 tx.lock_time little_endian))))))

-- `for (auto& input: inputs) { input.scriptWitness.setSerialized(...); pos += ...; }`
unfoldable pub read_witnesses : List TxIn → Bytes → ℕ → Result Error (List TxIn × ℕ)
read_witnesses [] bytes pos = ok ([], pos)
read_witnesses (i ∷ is) bytes pos = do
  rest ← suffix pos bytes
  stack ← get_witness rest
  (js, end) ← read_witnesses is bytes (add32 pos (witness_size stack))
  ok (record i { script_witness = stack } ∷ js, end)

-- The mask and the flags: whether witnesses follow, and the position behind them.
unfoldable pub read_mask : Bytes → Result Error (Bool × ℕ)
read_mask bytes =
    if get_or bytes 4 0 == 0
    then (if get_or bytes 5 0 == 1 then ok (true, 6) else err unrecognized_flags)
    else ok (false, 4)

-- Transaction::setSerialized
unfoldable pub get_tx : Bytes → Result Error Transaction
get_tx bytes = do
  guard (leb 10 (length bytes)) too_small
  version ← uint_at 4 0 bytes little_endian
  (flagged, pos0) ← read_mask bytes
  rest1 ← suffix pos0 bytes
  n_in ← get_var_int rest1
  (inputs, pos1) ← read_items get_tx_in tx_in_size n_in bytes (add32 pos0 (var_int_size n_in))
  rest2 ← suffix pos1 bytes
  n_out ← get_var_int rest2
  (outputs, pos2) ← read_items get_tx_out tx_out_size n_out bytes (add32 pos1 (var_int_size n_out))
  (inputs', pos3) ← if flagged then read_witnesses inputs bytes pos2 else ok (inputs, pos2)
  guard (leb (add32 pos3 4) (length bytes)) missing_lock_time
  lock_time ← uint_at 4 pos3 bytes little_endian
  ok (record { version = version; inputs = inputs'; outputs = outputs; lock_time = lock_time })
