-- ===== src/Transaction/Parts.antt =====
-- Out points, witnesses, inputs and outputs of deps/CoinCore/src/CoinNodeData.cpp, written and read.
use m_signa.Prelude.{
  ℕ, ◌+◌, ◌^◌, ◌≤◌, ◌<◌, ◌≡◌, refl, sym, ap, ◌∙◌, List, [], ◌∷◌, ◌++◌, true, leb, le→leb, length,
  length-append, length-reverse, append_assoc, reverse, reverse-reverse, arith,
}
use mathlib.Core.Path.{subst}
use m_signa.Result.{ok}
use m_signa.Bytes.{Bytes, IsU32, IsU64, add32, add64, little_endian, uint_to_vch, slice, suffix}
use m_signa.Bytes.Numeric.{length-uint_to_vch, vch_to_uint-uint_to_vch}
use m_signa.Bytes.Cursor.{At, At-start, At-skip, At-next, At-length, slice-At, suffix-At}
use m_signa.Bytes.Loop.{flat, Reads}
use m_signa.VarInt.{var_int_size, put_var_int, get_var_int}
use m_signa.VarInt.RoundTrip.{
  uint_at-At, length-put_var_int, var_int_size_bounds, get_var_int-put_var_int,
}
use m_signa.Transaction.Defs.{
  OutPoint, TxIn, TxOut, put_out_point, get_out_point, put_item, items_size, witness_size,
  put_witness, witness_loop, get_witness, tx_in_size, put_tx_in, get_tx_in, tx_out_size, put_tx_out,
  get_tx_out,
}

-- What the C++ types of the fields give for nothing.
pub record IsOutPoint (p : OutPoint) : Type 0 where
  pub hash_size : length p.hash ≡ 32
  pub index_u32 : IsU32 p.index

pub record IsTxIn (i : TxIn) : Type 0 where
  pub out_point : IsOutPoint i.previous_out
  pub sequence_u32 : IsU32 i.sequence

pub length-put_out_point : (p : OutPoint) → IsOutPoint p → length (put_out_point p) ≡ 36
unfolding put_out_point
length-put_out_point p v = omega (
  arith,
  length-append (reverse p.hash) (uint_to_vch 4 p.index little_endian),
  length-reverse p.hash,
  v.hash_size,
  length-uint_to_vch 4 p.index little_endian,
)

-- An OutPoint is read back, whatever follows it.
pub get_out_point-put_out_point :
    (p : OutPoint) (rest : Bytes) → IsOutPoint p → get_out_point (put_out_point p ++ rest) ≡ ok p
get_out_point-put_out_point p rest v =
    let hash_bytes : Bytes = reverse p.hash in
    let number : Bytes = uint_to_vch 4 p.index little_endian in
    let size : length hash_bytes ≡ 32 = length-reverse p.hash ∙ v.hash_size in
    let shape : put_out_point p ++ rest ≡ hash_bytes ++ (number ++ rest) =
      unfold put_out_point in append_assoc hash_bytes number rest in
    let long : 36 ≤ length (hash_bytes ++ (number ++ rest)) = omega (
      arith,
      length-append hash_bytes (number ++ rest),
      length-append number rest,
      length-uint_to_vch 4 p.index little_endian,
    ) in
    unfold get_out_point in
    rw (
      shape,
      le→leb 36 _ long,
      slice-At 0 32 _ hash_bytes (number ++ rest) (At-start _) (omega arith),
      uint_at-At 4 32 p.index _ rest v.index_u32 (At-skip 32 hash_bytes (number ++ rest) size),
      reverse-reverse p.hash,
    )

-- A script or witness item behind its length: every step that reads it succeeds.
record ReadsScript (pos start : ℕ) (bytes script rest : Bytes) : Type 0 where
  tail : suffix pos bytes ≡ ok (put_var_int (length script) ++ (script ++ rest))
  count : get_var_int (put_var_int (length script) ++ (script ++ rest)) ≡ ok (length script)
  fits : leb (add64 start (length script)) (length bytes) ≡ true
  content : slice start (start + length script) bytes ≡ ok script
  behind : At (start + length script) bytes rest
  no_wrap : add32 start (length script) ≡ start + length script

script-ReadsScript :
    (pos start : ℕ) (bytes script rest : Bytes)
    → length bytes < 2 ^ 32
    → start ≡ pos + var_int_size (length script)
    → At pos bytes (put_var_int (length script) ++ (script ++ rest))
    → ReadsScript pos start bytes script rest
script-ReadsScript pos start bytes script rest h e a =
    let n : ℕ = length script in
    let total = At-length pos bytes (put_var_int n ++ (script ++ rest)) a in
    let sizes : length bytes ≡ start + n + length rest = omega (
      arith,
      total,
      length-append (put_var_int n) (script ++ rest),
      length-append script rest,
      length-put_var_int n,
    ) in
    let at_start : At start bytes (script ++ rest) =
      At-next pos start bytes (put_var_int n) (script ++ rest) a
        (omega (arith, length-put_var_int n)) in
    record {
      tail = suffix-At pos bytes (put_var_int n ++ (script ++ rest)) a;
      count = get_var_int-put_var_int n (script ++ rest) (omega arith);
      fits = le→leb (add64 start n) (length bytes) (omega arith);
      content = slice-At start (start + n) bytes script rest at_start refl;
      behind = At-next start (start + n) bytes script rest at_start refl;
      no_wrap = omega arith;
    }

pub length-put_tx_out : (o : TxOut) → length (put_tx_out o) ≡ tx_out_size o
unfolding put_tx_out tx_out_size
length-put_tx_out o = omega (
  arith,
  length-append (uint_to_vch 8 o.value little_endian)
      (put_var_int (length o.script_pub_key) ++ o.script_pub_key),
  length-append (put_var_int (length o.script_pub_key)) o.script_pub_key,
  length-put_var_int (length o.script_pub_key),
  length-uint_to_vch 8 o.value little_endian,
)

-- A TxOut with a uint64_t value is read back, whatever follows it.
pub put_tx_out-Reads : (o : TxOut) → IsU64 o.value → Reads put_tx_out get_tx_out tx_out_size o
put_tx_out-Reads o v = (back, length-put_tx_out o)
  where
    back :
        (rest : Bytes)
        → length (put_tx_out o ++ rest) < 2 ^ 32
        → get_tx_out (put_tx_out o ++ rest) ≡ ok o
    back rest h =
        let script : Bytes = o.script_pub_key in
        let number : Bytes = uint_to_vch 8 o.value little_endian in
        let tail : Bytes = put_var_int (length script) ++ (script ++ rest) in
        let shape : put_tx_out o ++ rest ≡ number ++ tail =
          unfold put_tx_out in
          append_assoc number (put_var_int (length script) ++ script) rest
          ∙ ap (◌++◌ number) (append_assoc (put_var_int (length script)) script rest) in
        let start : ℕ = add32 (var_int_size (length script)) 8 in
        let size : length (number ++ tail) ≡ length (put_tx_out o) + length rest =
          ap length (sym shape) ∙ length-append (put_tx_out o) rest in
        let in_size = length-put_tx_out o in
        let min_size = var_int_size_bounds (length script) in
        let long : 9 ≤ length (number ++ tail) = unfold tx_out_size in omega arith in
        let s : ReadsScript 8 start (number ++ tail) script rest =
          script-ReadsScript 8 start (number ++ tail) script rest
            (omega (arith, length-append (put_tx_out o) rest)) (omega arith)
            (At-skip 8 number tail (length-uint_to_vch 8 o.value little_endian)) in
        unfold get_tx_out in
        rw (
          shape,
          le→leb 9 _ long,
          vch_to_uint-uint_to_vch 8 o.value little_endian tail v,
          s.tail,
          s.count,
          s.fits,
          s.content,
        )

pub length-put_tx_in :
    (i : TxIn) → IsOutPoint i.previous_out → length (put_tx_in true i) ≡ tx_in_size i
unfolding put_tx_in tx_in_size
length-put_tx_in i v = omega (
  arith,
  length-append (put_out_point i.previous_out) (
      put_var_int (length i.script_sig)
      ++ (i.script_sig ++ uint_to_vch 4 i.sequence little_endian)),
  length-append (put_var_int (length i.script_sig))
      (i.script_sig ++ uint_to_vch 4 i.sequence little_endian),
  length-append i.script_sig (uint_to_vch 4 i.sequence little_endian),
  length-put_out_point i.previous_out v,
  length-put_var_int (length i.script_sig),
  length-uint_to_vch 4 i.sequence little_endian,
)

-- A TxIn is read back without its witness, which stands elsewhere.
abbrev pub without_witness : TxIn → TxIn
without_witness i = record i { script_witness = [] }

pub get_tx_in-put_tx_in :
    (i : TxIn) (rest : Bytes)
    → IsTxIn i
    → length (put_tx_in true i ++ rest) < 2 ^ 32
    → get_tx_in (put_tx_in true i ++ rest) ≡ ok (without_witness i)
get_tx_in-put_tx_in i rest v h =
    let script : Bytes = i.script_sig in
    let point : Bytes = put_out_point i.previous_out in
    let number : Bytes = uint_to_vch 4 i.sequence little_endian in
    let tail : Bytes = put_var_int (length script) ++ (script ++ (number ++ rest)) in
    let shape : put_tx_in true i ++ rest ≡ point ++ tail =
      unfold put_tx_in in
      append_assoc point (put_var_int (length script) ++ (script ++ number)) rest
      ∙ ap (◌++◌ point) (
          append_assoc (put_var_int (length script)) (script ++ number) rest
          ∙ ap (◌++◌ (put_var_int (length script))) (append_assoc script number rest)) in
    let start : ℕ = add32 (var_int_size (length script)) 36 in
    let size : length (point ++ tail) ≡ length (put_tx_in true i) + length rest =
      ap length (sym shape) ∙ length-append (put_tx_in true i) rest in
    let in_size = length-put_tx_in i v.out_point in
    let min_size = var_int_size_bounds (length script) in
    let total = length-append (put_tx_in true i) rest in
    let long : 41 ≤ length (point ++ tail) = unfold tx_in_size in omega arith in
    let s : ReadsScript 36 start (point ++ tail) script (number ++ rest) =
      script-ReadsScript 36 start (point ++ tail) script (number ++ rest) (omega arith)
        (omega arith) (At-skip 36 point tail (length-put_out_point i.previous_out v.out_point)) in
    unfold get_tx_in in
    rw (
      shape,
      le→leb 41 _ long,
      get_out_point-put_out_point i.previous_out tail v.out_point,
      s.tail,
      s.count,
      s.fits,
      s.content,
      s.no_wrap,
      uint_at-At 4 (start + length script) i.sequence (point ++ tail) rest v.sequence_u32 s.behind,
    )

length-items : (stack : List Bytes) → length (flat put_item stack) ≡ items_size stack
unfolding flat put_item items_size
length-items [] = refl
length-items (item ∷ rest) = omega (
  arith,
  length-append (put_var_int (length item) ++ item) (flat put_item rest),
  length-append (put_var_int (length item)) item,
  length-put_var_int (length item),
  length-items rest,
)

pub length-put_witness : (stack : List Bytes) → length (put_witness stack) ≡ witness_size stack
unfolding put_witness witness_size
length-put_witness stack = omega (
  arith,
  length-append (put_var_int (length stack)) (flat put_item stack),
  length-put_var_int (length stack),
  length-items stack,
)

witness_loop-flat :
    (stack : List Bytes) (bytes rest : Bytes) (pos : ℕ)
    → length bytes < 2 ^ 32
    → At pos bytes (flat put_item stack ++ rest)
    → witness_loop (length stack) bytes pos ≡ ok stack
unfolding witness_loop flat put_item
witness_loop-flat [] bytes rest pos h a = refl
witness_loop-flat (item ∷ stack) bytes rest pos h a =
    let tail : Bytes = flat put_item stack ++ rest in
    let here : At pos bytes (put_var_int (length item) ++ (item ++ tail)) =
      subst (At pos bytes)
        (append_assoc (put_var_int (length item) ++ item) (flat put_item stack) rest
          ∙ append_assoc (put_var_int (length item)) item tail)
        a in
    let start : ℕ = add32 pos (var_int_size (length item)) in
    let total = At-length pos bytes (put_var_int (length item) ++ (item ++ tail)) here in
    let size = length-append (put_var_int (length item)) (item ++ tail) in
    let count = length-put_var_int (length item) in
    let s : ReadsScript pos start bytes item tail =
      script-ReadsScript pos start bytes item tail h (omega arith) here in
    rw (
      s.tail,
      s.count,
      s.fits,
      s.content,
      s.no_wrap,
      witness_loop-flat stack bytes rest (start + length item) h s.behind,
    )

length-le-items_size : (stack : List Bytes) → length stack ≤ items_size stack
unfolding items_size
length-le-items_size [] = omega arith
length-le-items_size (item ∷ rest) =
    omega (arith, length-le-items_size rest, var_int_size_bounds (length item))

-- A witness stack is read back, whatever follows it.
pub get_witness-put_witness :
    (stack : List Bytes) (rest : Bytes)
    → length (put_witness stack ++ rest) < 2 ^ 32
    → get_witness (put_witness stack ++ rest) ≡ ok stack
get_witness-put_witness stack rest h =
    let n : ℕ = length stack in
    let tail : Bytes = flat put_item stack ++ rest in
    let shape : put_witness stack ++ rest ≡ put_var_int n ++ tail =
      unfold put_witness in append_assoc (put_var_int n) (flat put_item stack) rest in
    let size : length (put_var_int n ++ tail) < 2 ^ 32 = omega (arith, ap length shape) in
    let many : n ≤ length (put_var_int n ++ tail) = omega (
      arith,
      length-append (put_var_int n) tail,
      length-append (flat put_item stack) rest,
      length-items stack,
      length-le-items_size stack,
    ) in
    unfold get_witness in
    rw (shape, get_var_int-put_var_int n tail (omega arith))
      (witness_loop-flat stack (put_var_int n ++ tail) rest (var_int_size n) size
        (At-skip (var_int_size n) (put_var_int n) tail (length-put_var_int n)))
