-- ===== src/VarInt.antt =====
-- VarInt and VarString of deps/CoinCore/src/CoinNodeData.cpp: integers in 1, 3, 5 or 9 bytes, and
-- strings behind such a length. Values are uint64_t, positions are `uint`.
pub mod RoundTrip
use m_signa.Prelude.{
  ℕ, ◌+◌, ◌%◌, ◌^◌, ◌<◌, Bool, ◌&&◌, ◌∷◌, [], ◌++◌, ltb, leb, ◌==◌, if◌then◌else◌, length, get_or,
}
use m_signa.Result.{Result, ok, err, guard, ◌>>=◌, ◌>>◌}
use m_signa.Bytes.{
  Bytes, add64, Error, too_small, length_wrong, little_endian, uint_to_vch, uint_at, slice,
}

-- VarInt::getSize
unfoldable pub var_int_size : ℕ → ℕ
var_int_size v =
    if ltb v 0xfd then 1 else if leb v 0xffff then 3 else if leb v 0xffffffff then 5 else 9

-- VarInt::getSerialized
unfoldable pub put_var_int : ℕ → Bytes
put_var_int v =
    if ltb v 0xfd
    then v ∷ []
    else if leb v 0xffff
    then 0xfd ∷ uint_to_vch 2 v little_endian
    else if leb v 0xffffffff
    then 0xfe ∷ uint_to_vch 4 v little_endian
    else 0xff ∷ uint_to_vch 8 v little_endian

-- VarInt::setSerialized
unfoldable pub get_var_int : Bytes → Result Error ℕ
get_var_int bytes =
    let first = get_or bytes 0 0 in
    if ltb (length bytes) 1
    then err too_small
    else if ltb first 0xfd
    then ok first
    else if first == 0xfd && leb 3 (length bytes)
    then uint_at 2 1 bytes little_endian
    else if first == 0xfe && leb 5 (length bytes)
    then uint_at 4 1 bytes little_endian
    else if leb 9 (length bytes)
    then uint_at 8 1 bytes little_endian
    else err length_wrong

-- VarString::getSize
unfoldable pub var_string_size : Bytes → ℕ
var_string_size value = var_int_size (length value) + length value

-- VarString::getSerialized
unfoldable pub put_var_string : Bytes → Bytes
put_var_string value = put_var_int (length value) ++ value

-- VarString::setSerialized
unfoldable pub get_var_string : Bytes → Result Error Bytes
get_var_string bytes = do
  n ← get_var_int bytes
  guard (leb (add64 (var_int_size n) n) (length bytes)) too_small
  slice (var_int_size n) (var_int_size n + n) bytes
