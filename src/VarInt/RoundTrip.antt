-- ===== src/VarInt/RoundTrip.antt =====
-- VarInt and VarString, written and read.
use m_signa.Prelude.{
  ℕ, ◌+◌, ◌^◌, ◌≤◌, ◌<◌, ◌≡◌, refl, [], ◌∷◌, ◌++◌, leb, length, length-append, append_assoc, le→leb,
  arith, true,
}
use m_signa.Result.{ok}
use m_signa.Bytes.{Bytes, IsU64, add64, little_endian, uint_to_vch, uint_at}
use m_signa.Bytes.Numeric.{vch_to_uint-uint_to_vch, length-uint_to_vch}
use m_signa.Bytes.Cursor.{At, At-skip, slice-At}
use m_signa.VarInt.{
  var_int_size, put_var_int, get_var_int, var_string_size, put_var_string, get_var_string,
}
use mathlib.Core.List.{append-nil}

-- An integer at a known position.
pub uint_at-At :
    (w pos v : ℕ) (bytes rest : Bytes)
    → v < 256 ^ w
    → At pos bytes (uint_to_vch w v little_endian ++ rest)
    → uint_at w pos bytes little_endian ≡ ok v
unfolding uint_at
uint_at-At w pos v bytes rest h a =
    rw
      (slice-At pos (pos + w) bytes (uint_to_vch w v little_endian) rest a
        (omega (arith, length-uint_to_vch w v little_endian)))
      (rw (append-nil (uint_to_vch w v little_endian)) at
        (vch_to_uint-uint_to_vch w v little_endian [] h))

-- `getSize` is the number of bytes that `getSerialized` writes.
pub length-put_var_int : (v : ℕ) → length (put_var_int v) ≡ var_int_size v
unfolding put_var_int var_int_size
length-put_var_int v = ground (
  arith,
  length-uint_to_vch 2 v little_endian,
  length-uint_to_vch 4 v little_endian,
  length-uint_to_vch 8 v little_endian,
)

-- The integer behind a tag byte.
behind_tag :
    (w tag v : ℕ) (rest : Bytes)
    → v < 256 ^ w
    → (uint_at w 1 (tag ∷ (uint_to_vch w v little_endian ++ rest)) little_endian ≡ ok v)
      × (length (uint_to_vch w v little_endian ++ rest) ≡ w + length rest)
behind_tag w tag v rest h =
    let bytes : Bytes = uint_to_vch w v little_endian ++ rest in
    (
      uint_at-At w 1 v (tag ∷ bytes) rest h (At-skip 1 (tag ∷ []) bytes refl),
      omega (
        arith,
        length-append (uint_to_vch w v little_endian) rest,
        length-uint_to_vch w v little_endian,
      ),
    )

-- A VarInt is read back, whatever follows it.
pub get_var_int-put_var_int :
    (v : ℕ) (rest : Bytes) → IsU64 v → get_var_int (put_var_int v ++ rest) ≡ ok v
unfolding get_var_int put_var_int
get_var_int-put_var_int v rest h =
    ground (arith, behind_tag 2 0xfd v rest, behind_tag 4 0xfe v rest, behind_tag 8 0xff v rest)

pub length-put_var_string : (value : Bytes) → length (put_var_string value) ≡ var_string_size value
unfolding put_var_string var_string_size
length-put_var_string value =
    omega
      (arith, length-append (put_var_int (length value)) value, length-put_var_int (length value))

pub var_int_size_bounds : (v : ℕ) → (1 ≤ var_int_size v) × (var_int_size v ≤ 9)
unfolding var_int_size
var_int_size_bounds v = ground arith

-- A VarString is read back, whatever follows it.
pub get_var_string-put_var_string :
    (value rest : Bytes)
    → length value < 2 ^ 63
    → get_var_string (put_var_string value ++ rest) ≡ ok value
unfolding get_var_string put_var_string
get_var_string-put_var_string value rest h =
    rw
      (
        append_assoc (put_var_int n) value rest,
        get_var_int-put_var_int n (value ++ rest) (omega arith),
        fits,
      )
      (slice-At (var_int_size n) (var_int_size n + n) bytes value rest
        (At-skip (var_int_size n) (put_var_int n) (value ++ rest) (length-put_var_int n)) refl)
  where
    n : ℕ
    n = length value

    bytes : Bytes
    bytes = put_var_int n ++ (value ++ rest)

    fits : leb (add64 (var_int_size n) n) (length bytes) ≡ true
    fits = le→leb _ _ (
        omega (
          arith,
          var_int_size_bounds n,
          length-put_var_int n,
          length-append (put_var_int n) (value ++ rest),
          length-append value rest,
        ))
