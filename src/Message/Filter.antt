-- ===== src/Message/Filter.antt =====
-- FilterLoadMessage, FilterAddMessage, PingMessage and PongMessage of
-- deps/CoinCore/src/CoinNodeData.cpp.
pub mod RoundTrip
use m_signa.Prelude.{ℕ, ◌+◌, ◌%◌, ◌^◌, [], ◌∷◌, ◌++◌, Bool, leb, ◌==◌, length}
use m_signa.Result.{Result, ok, err, guard, ◌>>=◌, ◌>>◌}
use m_signa.Bytes.{
  Bytes, add32, add64, Error, too_small, length_wrong, little_endian, uint_to_vch, uint_at, slice,
}
use m_signa.VarInt.{var_int_size, put_var_int, get_var_int}

pub record FilterLoad : Type 0 where
  pub filter : Bytes
  pub n_hash_funcs : ℕ
  pub n_tweak : ℕ
  pub n_flags : ℕ

-- FilterLoadMessage::getSize
unfoldable pub filter_load_size : FilterLoad → ℕ
filter_load_size m = var_int_size (length m.filter) + length m.filter + 9

-- FilterLoadMessage::getSerialized
unfoldable pub put_filter_load : FilterLoad → Bytes
put_filter_load m =
    put_var_int (length m.filter)
    ++ (m.filter
        ++ (uint_to_vch 4 m.n_hash_funcs little_endian
            ++ (uint_to_vch 4 m.n_tweak little_endian ++ (m.n_flags ∷ []))))

-- FilterLoadMessage::setSerialized
unfoldable pub get_filter_load : Bytes → Result Error FilterLoad
get_filter_load bytes = do
  guard (leb 10 (length bytes)) too_small
  n ← get_var_int bytes
  guard (length bytes == (var_int_size n + n + 9) % 2 ^ 64) length_wrong
  let pos = add32 (var_int_size n) n
  filter ← slice (var_int_size n) pos bytes
  n_hash_funcs ← uint_at 4 pos bytes little_endian
  n_tweak ← uint_at 4 (add32 pos 4) bytes little_endian
  n_flags ← uint_at 1 (add32 pos 8) bytes little_endian
  ok (record { filter = filter; n_hash_funcs = n_hash_funcs; n_tweak = n_tweak; n_flags = n_flags })

-- FilterAddMessage::setSerialized
unfoldable pub get_filter_add : Bytes → Result Error Bytes
get_filter_add bytes = do
  guard (leb 1 (length bytes)) too_small
  n ← get_var_int bytes
  guard (leb (add64 (var_int_size n) n) (length bytes)) too_small
  slice (var_int_size n) (var_int_size n + n) bytes

-- PingMessage::getSerialized
abbrev pub put_ping : ℕ → Bytes
put_ping nonce = uint_to_vch 8 nonce little_endian

-- PingMessage::setSerialized
unfoldable pub get_ping : Bytes → Result Error ℕ
get_ping bytes = do guard (leb 8 (length bytes)) too_small; uint_at 8 0 bytes little_endian

-- PongMessage::getSerialized
abbrev pub put_pong : ℕ → Bytes
put_pong nonce = uint_to_vch 8 nonce little_endian

-- PongMessage::setSerialized
unfoldable pub get_pong : Bytes → Result Error ℕ
get_pong bytes = do guard (leb 8 (length bytes)) too_small; uint_at 8 0 bytes little_endian
