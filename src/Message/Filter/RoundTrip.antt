-- ===== src/Message/Filter/RoundTrip.antt =====
-- FilterLoadMessage and PingMessage, written and read.
use m_signa.Prelude.{
  ℕ, ◌+◌, ◌%◌, ◌^◌, ◌≤◌, ◌<◌, ◌≡◌, refl, ap, [], ◌∷◌, ◌++◌, true, ◌==◌, le→leb, ==_iff, length,
  length-append, append-nil, arith,
}
use m_signa.Result.{ok}
use m_signa.Bytes.{Bytes, IsByte, IsU32, IsU64, add32, little_endian, uint_to_vch, low_bytes}
use m_signa.Bytes.Numeric.{length-uint_to_vch}
use m_signa.Bytes.Cursor.{At, At-start, At-skip, At-next, At-length, slice-At}
use m_signa.VarInt.{var_int_size, put_var_int}
use m_signa.VarInt.RoundTrip.{
  uint_at-At, length-put_var_int, var_int_size_bounds, get_var_int-put_var_int,
}
use m_signa.Message.Filter.{
  FilterLoad, put_filter_load, get_filter_load, filter_load_size, put_ping, get_ping,
}

pub record IsFilterLoad (m : FilterLoad) : Type 0 where
  pub filter_size : length m.filter < 2 ^ 31
  pub n_hash_funcs_u32 : IsU32 m.n_hash_funcs
  pub n_tweak_u32 : IsU32 m.n_tweak
  pub n_flags_byte : IsByte m.n_flags

-- `getSize` of a filterload message is the number of bytes that it is written as.
pub length-put_filter_load : (m : FilterLoad) → length (put_filter_load m) ≡ filter_load_size m
unfolding put_filter_load filter_load_size
length-put_filter_load m = simp length-append (
    omega (
      arith,
      length-uint_to_vch 4 m.n_hash_funcs little_endian,
      length-uint_to_vch 4 m.n_tweak little_endian,
      length-put_var_int (length m.filter),
    ))

one_byte : (b : ℕ) → IsByte b → uint_to_vch 1 b little_endian ≡ b ∷ []
unfolding uint_to_vch low_bytes
one_byte b h = let e : b % 256 ≡ b = omega arith in ap (λ (x : ℕ). x ∷ []) e

-- A filterload message with a filter shorter than 2 ^ 31 bytes is read back as it was written, where
-- nothing follows it.
pub get_filter_load-put_filter_load :
    (m : FilterLoad) → IsFilterLoad m → get_filter_load (put_filter_load m) ≡ ok m
get_filter_load-put_filter_load m v =
    let n : ℕ = length m.filter in
    let funcs : Bytes = uint_to_vch 4 m.n_hash_funcs little_endian in
    let tweak : Bytes = uint_to_vch 4 m.n_tweak little_endian in
    let flags : Bytes = uint_to_vch 1 m.n_flags little_endian in
    let t3 : Bytes = tweak ++ (flags ++ []) in
    let t2 : Bytes = funcs ++ t3 in
    let t1 : Bytes = m.filter ++ t2 in
    let bytes : Bytes = put_var_int n ++ t1 in
    let byte : flags ≡ m.n_flags ∷ [] = one_byte m.n_flags v.n_flags_byte in
    let shape : put_filter_load m ≡ bytes = unfold put_filter_load in rw (append-nil flags, byte) in
    let small = v.filter_size in
    let sn = length-put_var_int n in
    let bn = var_int_size_bounds n in
    let s_funcs : length funcs ≡ 4 = length-uint_to_vch 4 m.n_hash_funcs little_endian in
    let s_tweak : length tweak ≡ 4 = length-uint_to_vch 4 m.n_tweak little_endian in
    let p1 : ℕ = var_int_size n in
    let p2 : ℕ = p1 + n in
    let a1 : At p1 bytes t1 = At-skip p1 (put_var_int n) t1 sn in
    let a2 : At p2 bytes t2 = At-next p1 p2 bytes m.filter t2 a1 refl in
    let a3 : At (p2 + 4) bytes t3 =
      At-next p2 (p2 + 4) bytes funcs t3 a2 (omega (arith, s_funcs)) in
    let a4 : At (p2 + 8) bytes (flags ++ []) =
      At-next (p2 + 4) (p2 + 8) bytes tweak (flags ++ []) a3 (omega (arith, s_tweak)) in
    let total : length bytes ≡ p2 + 9 = omega (
      arith,
      At-length (p2 + 8) bytes (flags ++ []) a4,
      length-append flags [],
      length-uint_to_vch 1 m.n_flags little_endian,
    ) in
    let at_filter : add32 p1 n ≡ p2 = omega arith in
    let at_tweak : add32 p2 4 ≡ p2 + 4 = omega arith in
    let at_flags : add32 p2 8 ≡ p2 + 8 = omega arith in
    let long : 10 ≤ length bytes = omega (arith, total) in
    let whole : (length bytes == (p1 + n + 9) % 2 ^ 64) ≡ true =
      (==_iff (length bytes) ((p1 + n + 9) % 2 ^ 64)).1 (omega (arith, total)) in
    unfold get_filter_load in
    rw (
      shape,
      le→leb 10 _ long,
      get_var_int-put_var_int n t1 (omega arith),
      whole,
      at_filter,
      at_tweak,
      at_flags,
      slice-At p1 p2 bytes m.filter t2 a1 refl,
      uint_at-At 4 p2 m.n_hash_funcs bytes t3 v.n_hash_funcs_u32 a2,
      uint_at-At 4 (p2 + 4) m.n_tweak bytes (flags ++ []) v.n_tweak_u32 a3,
      uint_at-At 1 (p2 + 8) m.n_flags bytes [] v.n_flags_byte a4,
    )

-- The nonce of a ping is read back, whatever follows it.
pub get_ping-put_ping :
    (nonce : ℕ) (rest : Bytes) → IsU64 nonce → get_ping (put_ping nonce ++ rest) ≡ ok nonce
get_ping-put_ping nonce rest v =
    let bytes : Bytes = put_ping nonce ++ rest in
    let long : 8 ≤ length bytes =
      omega
        (arith, length-append (put_ping nonce) rest, length-uint_to_vch 8 nonce little_endian) in
    unfold get_ping in rw (le→leb 8 _ long, uint_at-At 8 0 nonce bytes rest v (At-start bytes))
