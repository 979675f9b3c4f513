-- ===== src/Message/Address/RoundTrip.antt =====
-- NetworkAddress, written and read.
use m_signa.Prelude.{
  ℕ, ◌+◌, ◌^◌, ◌<◌, ◌≡◌, refl, sym, [], ◌++◌, Option, none, some, length, length-append,
  append_assoc, append-nil, arith,
}
use mathlib.Core.Path.{subst}
use m_signa.Result.{ok}
use m_signa.Bytes.{Bytes, IsU32, IsU64, little_endian, big_endian, uint_to_vch, uint_at}
use m_signa.Bytes.Numeric.{length-uint_to_vch, vch_to_uint-uint_to_vch}
use m_signa.Bytes.Cursor.{At, At-start, At-skip, At-next, slice-At}
use m_signa.VarInt.RoundTrip.{uint_at-At}
use m_signa.Message.Address.{NetworkAddress, put_address, get_address, get_address_at}

abbrev pub IsTime : Option ℕ → Type 0
IsTime none = Unit
IsTime (some t) = IsU32 t

-- What the types of the fields give; the ports are uint16_t.
pub record IsAddress (a : NetworkAddress) : Type 0 where
  pub time_u32 : IsTime a.time
  pub services_u64 : IsU64 a.services
  pub ipv6_size : length a.ipv6 ≡ 16
  pub port_u16 : a.port < 2 ^ 16

uint_at-At_big :
    (w pos v : ℕ) (bytes rest : Bytes)
    → v < 256 ^ w
    → At pos bytes (uint_to_vch w v big_endian ++ rest)
    → uint_at w pos bytes big_endian ≡ ok v
unfolding uint_at
uint_at-At_big w pos v bytes rest h a =
    rw
      (slice-At pos (pos + w) bytes (uint_to_vch w v big_endian) rest a
        (omega (arith, length-uint_to_vch w v big_endian)))
      (rw (append-nil (uint_to_vch w v big_endian)) at
        (vch_to_uint-uint_to_vch w v big_endian [] h))

-- The 26 bytes behind the time.
abbrev pub untimed : NetworkAddress → Bytes
untimed a = uint_to_vch 8 a.services little_endian ++ (a.ipv6 ++ uint_to_vch 2 a.port big_endian)

pub length-untimed : (a : NetworkAddress) → IsAddress a → length (untimed a) ≡ 26
length-untimed a v = simp length-append (
    omega (
      arith,
      length-uint_to_vch 8 a.services little_endian,
      v.ipv6_size,
      length-uint_to_vch 2 a.port big_endian,
    ))

get_address_at-untimed :
    (a : NetworkAddress) (time : Option ℕ) (pos : ℕ) (bytes rest : Bytes)
    → IsAddress a
    → At pos bytes (untimed a ++ rest)
    → get_address_at time pos bytes
      ≡ ok (record { time = time; services = a.services; ipv6 = a.ipv6; port = a.port })
unfolding get_address_at
get_address_at-untimed a time pos bytes rest v here =
    let services : Bytes = uint_to_vch 8 a.services little_endian in
    let port : Bytes = uint_to_vch 2 a.port big_endian in
    let apart : untimed a ++ rest ≡ services ++ (a.ipv6 ++ (port ++ rest)) = simp append_assoc in
    let a0 : At pos bytes (services ++ (a.ipv6 ++ (port ++ rest))) =
      subst (At pos bytes) apart here in
    let a1 : At (pos + 8) bytes (a.ipv6 ++ (port ++ rest)) =
      At-next pos (pos + 8) bytes services (a.ipv6 ++ (port ++ rest)) a0
        (omega (arith, length-uint_to_vch 8 a.services little_endian)) in
    let a2 : At (pos + 24) bytes (port ++ rest) =
      At-next (pos + 8) (pos + 24) bytes a.ipv6 (port ++ rest) a1 (omega (arith, v.ipv6_size)) in
    rw (
      uint_at-At 8 pos a.services bytes (a.ipv6 ++ (port ++ rest)) v.services_u64 a0,
      slice-At (pos + 8) (pos + 24) bytes a.ipv6 (port ++ rest) a1 (omega (arith, v.ipv6_size)),
      uint_at-At_big 2 (pos + 24) a.port bytes rest v.port_u16 a2,
    )

-- Whether the address fills exactly the bytes, its time is told from their number.
get_address_whole :
    (time : Option ℕ) (a : NetworkAddress)
    → a.time ≡ time
    → IsAddress a
    → IsTime time
    → get_address (put_address a) ≡ ok a
get_address_whole none a e v t =
    let bytes : Bytes = untimed a in
    let shape : put_address a ≡ bytes = unfold put_address in rw e in
    let size : length bytes ≡ 26 = length-untimed a v in
    let here : At 0 bytes (bytes ++ []) =
      subst (At 0 bytes) (sym (append-nil bytes)) (At-start bytes) in
    unfold get_address in
    rw (shape, size, get_address_at-untimed a none 0 bytes [] v here) (rw (sym e))
get_address_whole (some t) a e v u =
    let time : Bytes = uint_to_vch 4 t little_endian in
    let bytes : Bytes = time ++ untimed a in
    let shape : put_address a ≡ bytes = unfold put_address in rw e in
    let s4 : length time ≡ 4 = length-uint_to_vch 4 t little_endian in
    let size : length bytes ≡ 30 =
      omega (arith, length-append time (untimed a), length-untimed a v) in
    let here : At 4 bytes (untimed a ++ []) =
      subst (At 4 bytes) (sym (append-nil (untimed a))) (At-skip 4 time (untimed a) s4) in
    unfold get_address in
    rw
      (
        shape,
        size,
        vch_to_uint-uint_to_vch 4 t little_endian (untimed a) u,
        get_address_at-untimed a (some t) 4 bytes [] v here,
      )
      (rw (sym e))

-- An address is read back from exactly the bytes that it was written as, with its time where it has
-- one.
pub get_address-put_address :
    (a : NetworkAddress) → IsAddress a → get_address (put_address a) ≡ ok a
get_address-put_address a v = get_address_whole a.time a refl v v.time_u32
