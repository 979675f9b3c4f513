-- ===== src/Message/Address.antt =====
-- NetworkAddress, MessageHeader, VersionMessage and AddrMessage of
-- deps/CoinCore/src/CoinNodeData.cpp.
pub mod RoundTrip
pub mod Greeting
use m_signa.Prelude.{
  ℕ, zero, suc, ◌+◌, ◌-◌, ◌*◌, ◌/◌, ◌%◌, ◌^◌, ℤ, pos, negsuc, List, [], ◌∷◌, ◌++◌, Bool, true,
  false, ◌==◌, ltb, leb, if◌then◌else◌, Option, none, some, length,
}
use m_signa.Result.{Result, ok, err, guard, ◌>>=◌, ◌>>◌}
use m_signa.Bytes.{
  Bytes, add32, Error, too_small, missing_start_height, little_endian, big_endian, uint_to_vch,
  vch_to_uint, uint_at, slice, suffix,
}
use m_signa.Bytes.Loop.{flat, read_fixed}
use m_signa.VarInt.{
  var_int_size, put_var_int, get_var_int, var_string_size, put_var_string, get_var_string,
}

-- `time` is there where `hasTime` is set. `ipv6` is the 16 bytes of the IPv6 class.
pub record NetworkAddress : Type 0 where
  pub time : Option ℕ
  pub services : ℕ
  pub ipv6 : Bytes
  pub port : ℕ

-- NetworkAddress::getSerialized
unfoldable pub put_address : NetworkAddress → Bytes
put_address a =
    elim a.time [ none ↦ [] | some t ↦ uint_to_vch 4 t little_endian ]
    ++ (uint_to_vch 8 a.services little_endian ++ (a.ipv6 ++ uint_to_vch 2 a.port big_endian))

-- NetworkAddress::setSerialized behind the time, which ends at `start`.
unfoldable pub get_address_at : Option ℕ → ℕ → Bytes → Result Error NetworkAddress
get_address_at time start bytes = do
  services ← uint_at 8 start bytes little_endian
  ipv6 ← slice (start + 8) (start + 24) bytes
  port ← uint_at 2 (start + 24) bytes big_endian
  ok (record { time = time; services = services; ipv6 = ipv6; port = port })

-- NetworkAddress::setSerialized
unfoldable pub get_address : Bytes → Result Error NetworkAddress
get_address bytes = do
  guard (leb 26 (length bytes)) too_small
  if leb 30 (length bytes)
      then (vch_to_uint 4 bytes little_endian >>= λ time. get_address_at (some time) 4 bytes)
      else get_address_at none 0 bytes

-- `command` is the array of 12 characters.
pub record MessageHeader : Type 0 where
  pub magic : ℕ
  pub command : Bytes
  pub size : ℕ
  pub checksum : Option ℕ

-- MessageHeader::getSize
abbrev pub message_header_size : MessageHeader → ℕ
message_header_size h = elim h.checksum [ none ↦ 20 | some c ↦ 24 ]

-- MessageHeader::getSerialized
unfoldable pub put_message_header : MessageHeader → Bytes
put_message_header h =
    uint_to_vch 4 h.magic little_endian
    ++ (h.command
        ++ (uint_to_vch 4 h.size little_endian
            ++ elim h.checksum [ none ↦ [] | some c ↦ uint_to_vch 4 c little_endian ]))

-- MessageHeader::setSerialized. The last test of the source is the first one again.
unfoldable pub get_message_header : Bytes → Result Error MessageHeader
get_message_header bytes = do
  guard (leb 24 (length bytes)) too_small
  magic ← vch_to_uint 4 bytes little_endian
  command ← slice 4 16 bytes
  size ← uint_at 4 16 bytes little_endian
  checksum ←
      if leb 24 (length bytes)
      then (uint_at 4 20 bytes little_endian >>= λ c. ok (some c))
      else ok none
  ok (record { magic = magic; command = command; size = size; checksum = checksum })

-- The bytes that `uint_to_vch<T>` writes of the negative number `-k`, for a signed T of `w` bytes:
-- `%` and `/` round towards 0, so that a byte is the remainder of `k`, negated.
unfoldable pub negative_bytes : (w k : ℕ) → Bytes
negative_bytes zero k = []
negative_bytes (suc w) k = (256 - k % 256) % 256 ∷ negative_bytes w (k / 256)

-- `uint_to_vch<T>(n, LITTLE_ENDIAN_)` for a signed T of `w` bytes.
unfoldable pub int_to_vch : (w : ℕ) → ℤ → Bytes
unfolding negative_bytes
int_to_vch w (pos n) = uint_to_vch w n little_endian
int_to_vch w (negsuc n) = negative_bytes w (suc n)

-- The conversion of an unsigned number of `w` bytes to the signed type of that size.
abbrev pub to_signed : (w n : ℕ) → ℤ
to_signed w n = if ltb n (2 ^ (8 * w - 1)) then pos n else negsuc (2 ^ (8 * w) - 1 - n)

pub record VersionMessage : Type 0 where
  pub version : ℤ
  pub services : ℕ
  pub timestamp : ℤ
  pub recipient : NetworkAddress
  pub sender : NetworkAddress
  pub nonce : ℕ
  pub sub_version : Bytes
  pub start_height : ℤ
  pub relay : Bool

-- `version_ >= 70001`, where version_ is an int32_t.
abbrev pub has_relay : ℤ → Bool
has_relay (pos n) = leb 70001 n
has_relay (negsuc n) = false

-- VersionMessage::getSize
unfoldable pub version_message_size : VersionMessage → ℕ
version_message_size m = var_string_size m.sub_version + 84 + (if has_relay m.version then 1 else 0)

-- VersionMessage::getSerialized
unfoldable pub put_version_message : VersionMessage → Bytes
put_version_message m =
    int_to_vch 4 m.version
    ++ (uint_to_vch 8 m.services little_endian
        ++ (int_to_vch 8 m.timestamp
            ++ (put_address m.recipient
                ++ (put_address m.sender
                    ++ (uint_to_vch 8 m.nonce little_endian
                        ++ (put_var_string m.sub_version
                            ++ (int_to_vch 4 m.start_height
                                ++ (if has_relay m.version
                                    then (if m.relay then 1 else 0) ∷ []
                                    else []))))))))

-- VersionMessage::setSerialized. The length is not checked for the last byte, which is read where
-- the version has the relay flag.
unfoldable pub get_version_message : Bytes → Result Error VersionMessage
get_version_message bytes = do
  guard (leb 84 (length bytes)) too_small
  number ← vch_to_uint 4 bytes little_endian
  let version = to_signed 4 number
  guard (if has_relay version then leb 85 (length bytes) else true) too_small
  services ← uint_at 8 4 bytes little_endian
  timestamp ← uint_at 8 12 bytes little_endian
  to ← slice 20 46 bytes
  recipient ← get_address to
  from ← slice 46 72 bytes
  sender ← get_address from
  nonce ← uint_at 8 72 bytes little_endian
  rest ← suffix 80 bytes
  sub_version ← get_var_string rest
  let end = add32 80 (var_string_size sub_version)
  guard (leb (add32 end 4) (length bytes)) missing_start_height
  start_height ← uint_at 4 end bytes little_endian
  relay ←
      if has_relay version
      then (uint_at 1 (add32 end 4) bytes little_endian >>= λ b.
          ok (if b == 0 then false else true))
      else ok true
  ok (record {
    version = version;
    services = services;
    timestamp = to_signed 8 timestamp;
    recipient = recipient;
    sender = sender;
    nonce = nonce;
    sub_version = sub_version;
    start_height = to_signed 4 start_height;
    relay = relay;
  })

-- AddrMessage::getSerialized
unfoldable pub put_addr_message : List NetworkAddress → Bytes
put_addr_message addresses = put_var_int (length addresses) ++ flat put_address addresses

-- AddrMessage::setSerialized
unfoldable pub get_addr_message : Bytes → Result Error (List NetworkAddress)
get_addr_message bytes = do
  guard (leb 31 (length bytes)) too_small
  count ← get_var_int bytes
  (addresses, end) ← read_fixed get_address 30 30 count bytes (var_int_size count)
  ok addresses
