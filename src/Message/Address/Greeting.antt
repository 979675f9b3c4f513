-- ===== src/Message/Address/Greeting.antt =====
-- MessageHeader, AddrMessage and VersionMessage, written and read.
use m_signa.Prelude.{
  ℕ, zero, suc, ◌+◌, ◌/◌, ◌^◌, ℤ, pos, negsuc, ap, lt→ltb, ◌≤◌, ◌<◌, ◌≡◌, refl, sym, List, [], ◌∷◌,
  ◌++◌, Bool, true, false, leb, ◌==◌, le→leb, if◌then◌else◌, none, some, length, length-append,
  append_assoc, append-nil, Bool-cases, ◌⊎◌, inl, inr, All, arith,
}
use mathlib.Core.Path.{subst}
use m_signa.Result.{Result, ok, ◌>>=◌}
use m_signa.Bytes.{
  Bytes, Error, IsU32, IsU64, add32, little_endian, uint_to_vch, uint_at, low_bytes,
}
use m_signa.Bytes.Numeric.{length-uint_to_vch, vch_to_uint-uint_to_vch}
use m_signa.Bytes.Cursor.{At, At-skip, At-next, At-length, slice-At, suffix-At}
use m_signa.Bytes.Loop.{flat, Fixed, read_fixed-flat, length-flat}
use m_signa.VarInt.{var_int_size, put_var_int, var_string_size, put_var_string}
use m_signa.VarInt.RoundTrip.{
  uint_at-At, length-put_var_int, var_int_size_bounds, get_var_int-put_var_int,
  length-put_var_string, get_var_string-put_var_string,
}
use m_signa.Message.Address.{
  NetworkAddress, put_address, get_address, MessageHeader, put_message_header, get_message_header,
  put_addr_message, get_addr_message, VersionMessage, has_relay, negative_bytes, int_to_vch,
  to_signed, put_version_message, get_version_message, version_message_size,
}
use m_signa.Message.Address.RoundTrip.{IsAddress, untimed, length-untimed, get_address-put_address}

-- A header with its checksum: a command of 12 characters, and uint32_t fields.
pub record IsMessageHeader (h : MessageHeader) (checksum : ℕ) : Type 0 where
  pub checksum_eq : h.checksum ≡ some checksum
  pub magic_u32 : IsU32 h.magic
  pub command_size : length h.command ≡ 12
  pub size_u32 : IsU32 h.size
  pub checksum_u32 : IsU32 checksum

-- A message header that has a checksum is read back as it was written, whatever follows it.
pub get_message_header-put_message_header :
    (h : MessageHeader) (checksum : ℕ) (rest : Bytes)
    → IsMessageHeader h checksum
    → get_message_header (put_message_header h ++ rest) ≡ ok h
get_message_header-put_message_header h checksum rest v =
    let magic : Bytes = uint_to_vch 4 h.magic little_endian in
    let size : Bytes = uint_to_vch 4 h.size little_endian in
    let sum : Bytes = uint_to_vch 4 checksum little_endian in
    let t2 : Bytes = size ++ (sum ++ rest) in
    let t1 : Bytes = h.command ++ t2 in
    let bytes : Bytes = magic ++ t1 in
    let shape : put_message_header h ++ rest ≡ bytes =
      unfold put_message_header in rw v.checksum_eq (simp append_assoc) in
    let a1 : At 4 bytes t1 = At-skip 4 magic t1 (length-uint_to_vch 4 h.magic little_endian) in
    let a2 : At 16 bytes t2 = At-next 4 16 bytes h.command t2 a1 (omega (arith, v.command_size)) in
    let a3 : At 20 bytes (sum ++ rest) =
      At-next 16 20 bytes size (sum ++ rest) a2
        (omega (arith, length-uint_to_vch 4 h.size little_endian)) in
    let long : 24 ≤ length bytes = omega (
      arith,
      At-length 20 bytes (sum ++ rest) a3,
      length-append sum rest,
      length-uint_to_vch 4 checksum little_endian,
    ) in
    unfold get_message_header in
    rw (
      shape,
      le→leb 24 _ long,
      vch_to_uint-uint_to_vch 4 h.magic little_endian t1 v.magic_u32,
      slice-At 4 16 bytes h.command t2 a1 (omega (arith, v.command_size)),
      uint_at-At 4 16 h.size bytes (sum ++ rest) v.size_u32 a2,
      uint_at-At 4 20 checksum bytes rest v.checksum_u32 a3,
      sym v.checksum_eq,
    )

-- An address with its time takes 30 bytes.
pub record IsTimed (a : NetworkAddress) : Type 0 where
  pub time : ℕ
  pub time_eq : a.time ≡ some time
  pub valid : IsAddress a

timed_size : (a : NetworkAddress) → IsTimed a → length (put_address a) ≡ 30
unfolding put_address
timed_size a v = rw v.time_eq (
    omega (
      arith,
      length-append (uint_to_vch 4 v.time little_endian) (untimed a),
      length-untimed a v.valid,
      length-uint_to_vch 4 v.time little_endian,
    ))

timed-Fixed :
    (list : List NetworkAddress) → All IsTimed list → All (Fixed put_address get_address 30 30) list
timed-Fixed [] v = tt
timed-Fixed (a ∷ list) v = (
  record {
    front = put_address a;
    pad = [];
    shape = sym (append-nil (put_address a));
    front_size = timed_size a v.0;
    pad_size = refl;
    parsed = get_address-put_address a v.0.valid;
  },
  timed-Fixed list v.1,
)

timed_sizes :
    (list : List NetworkAddress) → All IsTimed list → All (λ a. length (put_address a) ≡ 30) list
timed_sizes [] v = tt
timed_sizes (a ∷ list) v = (timed_size a v.0, timed_sizes list v.1)

-- A list of at least one address with times, as an addr message shorter than 2 ^ 32 bytes, is read
-- back as it was written, whatever follows it.
pub get_addr_message-put_addr_message :
    (addresses : List NetworkAddress) (rest : Bytes)
    → All IsTimed addresses
    → 0 < length addresses
    → length (put_addr_message addresses ++ rest) < 2 ^ 32
    → get_addr_message (put_addr_message addresses ++ rest) ≡ ok addresses
get_addr_message-put_addr_message addresses rest v one h =
    let n : ℕ = length addresses in
    let items : Bytes = flat put_address addresses in
    let bytes : Bytes = put_var_int n ++ (items ++ rest) in
    let shape : put_addr_message addresses ++ rest ≡ bytes =
      unfold put_addr_message in append_assoc (put_var_int n) items rest in
    let short : length bytes < 2 ^ 32 = subst (λ (b : Bytes). length b < 2 ^ 32) shape h in
    let size = length-flat put_address 30 addresses (timed_sizes addresses v) in
    let total = length-append (put_var_int n) (items ++ rest) in
    let parts = length-append items rest in
    let bn = var_int_size_bounds n in
    let long : 31 ≤ length bytes = omega (arith, size, total, parts, length-put_var_int n) in
    unfold get_addr_message in
    rw (
      shape,
      le→leb 31 _ long,
      get_var_int-put_var_int n (items ++ rest) (omega (arith, size, total, parts)),
      read_fixed-flat put_address get_address 30 30 addresses bytes rest (var_int_size n) short
          (timed-Fixed addresses v)
          (At-skip (var_int_size n) (put_var_int n) (items ++ rest) (length-put_var_int n)),
    )

-- The two addresses of a version message have no time.
pub record IsUntimed (a : NetworkAddress) : Type 0 where
  pub time_eq : a.time ≡ none
  pub valid : IsAddress a

untimed_size : (a : NetworkAddress) → IsUntimed a → length (put_address a) ≡ 26
unfolding put_address
untimed_size a v = rw v.time_eq (length-untimed a v.valid)

-- What the types of the fields give, signed fields that are not negative, and a relay flag that is
-- set where it is not sent.
pub record IsVersionMessage (m : VersionMessage) : Type 0 where
  pub version : ℕ
  pub version_eq : m.version ≡ pos version
  pub version_i32 : version < 2 ^ 31
  pub services_u64 : IsU64 m.services
  pub timestamp : ℕ
  pub timestamp_eq : m.timestamp ≡ pos timestamp
  pub timestamp_i64 : timestamp < 2 ^ 63
  pub recipient_valid : IsUntimed m.recipient
  pub sender_valid : IsUntimed m.sender
  pub nonce_u64 : IsU64 m.nonce
  pub start_height : ℕ
  pub start_height_eq : m.start_height ≡ pos start_height
  pub start_height_i32 : start_height < 2 ^ 31
  pub relay_default : (has_relay m.version ≡ true) ⊎ (m.relay ≡ true)

abbrev relay_bytes : VersionMessage → Bytes
relay_bytes m = if has_relay m.version then (if m.relay then 1 else 0) ∷ [] else []

abbrev read_relay : Bool → ℕ → Bytes → Result Error Bool
read_relay flagged place bytes =
    if flagged
    then (uint_at 1 place bytes little_endian >>= λ b. ok (if b == 0 then false else true))
    else ok true

relay_bit :
    (b : Bool) → uint_to_vch 1 (if b then 1 else 0) little_endian ≡ (if b then 1 else 0) ∷ []
unfolding uint_to_vch low_bytes
relay_bit true = refl
relay_bit false = refl

relay_value : (b : Bool) → (if (if b then 1 else 0) == 0 then false else true) ≡ b
relay_value true = refl
relay_value false = refl

bit_IsByte : (b : Bool) → (if b then 1 else 0) < 256
bit_IsByte true = omega arith
bit_IsByte false = omega arith

read_relay-At :
    (m : VersionMessage) (place : ℕ) (bytes rest : Bytes)
    → IsVersionMessage m
    → At place bytes (relay_bytes m ++ rest)
    → read_relay (has_relay m.version) place bytes ≡ ok m.relay
read_relay-At m place bytes rest v a = elim (Bool-cases (has_relay m.version)) [
  | inl e ↦
      let byte : Bytes = uint_to_vch 1 (if m.relay then 1 else 0) little_endian in
      let here : At place bytes (byte ++ rest) = rw (relay_bit m.relay) (rw e at a) in
      rw (
        e,
        uint_at-At 1 place (if m.relay then 1 else 0) bytes rest (bit_IsByte m.relay) here,
        relay_value m.relay,
      )
  | inr e ↦ rw e (elim v.relay_default [ inl t ↦ cc | inr t ↦ rw t ])
]

passes : (b c : Bool) → c ≡ true → (if b then c else true) ≡ true
passes true c e = e
passes false c e = refl

relay_size : (m : VersionMessage) → length (relay_bytes m) ≡ (if has_relay m.version then 1 else 0)
relay_size m = elim (Bool-cases (has_relay m.version)) [ inl e ↦ rw e | inr e ↦ rw e ]

length-negative_bytes : (w k : ℕ) → length (negative_bytes w k) ≡ w
unfolding negative_bytes
length-negative_bytes zero k = refl
length-negative_bytes (suc w) k = ap suc (length-negative_bytes w (k / 256))

length-int_to_vch : (w : ℕ) (z : ℤ) → length (int_to_vch w z) ≡ w
unfolding int_to_vch
length-int_to_vch w (pos n) = length-uint_to_vch w n little_endian
length-int_to_vch w (negsuc n) = length-negative_bytes w (suc n)

-- `getSize` of a version message is the number of bytes that it is written as.
pub length-put_version_message :
    (m : VersionMessage)
    → IsVersionMessage m
    → length (put_version_message m) ≡ version_message_size m
unfolding put_version_message version_message_size
length-put_version_message m v = simp length-append (
    omega (
      arith,
      length-int_to_vch 4 m.version,
      length-uint_to_vch 8 m.services little_endian,
      length-int_to_vch 8 m.timestamp,
      untimed_size m.recipient v.recipient_valid,
      untimed_size m.sender v.sender_valid,
      length-uint_to_vch 8 m.nonce little_endian,
      length-put_var_string m.sub_version,
      length-int_to_vch 4 m.start_height,
      relay_size m,
    ))

-- A version message shorter than 2 ^ 32 bytes, whose version, time and height are not negative, whose
-- addresses have no time and whose relay flag is set where the version has no such flag, is read back as it was written, whatever follows it.
pub get_version_message-put_version_message :
    (m : VersionMessage) (rest : Bytes)
    → IsVersionMessage m
    → length (put_version_message m ++ rest) < 2 ^ 32
    → get_version_message (put_version_message m ++ rest) ≡ ok m
get_version_message-put_version_message m rest v h =
    let version : Bytes = uint_to_vch 4 v.version little_endian in
    let services : Bytes = uint_to_vch 8 m.services little_endian in
    let timestamp : Bytes = uint_to_vch 8 v.timestamp little_endian in
    let nonce : Bytes = uint_to_vch 8 m.nonce little_endian in
    let height : Bytes = uint_to_vch 4 v.start_height little_endian in
    let name : Bytes = put_var_string m.sub_version in
    let t8 : Bytes = relay_bytes m ++ rest in
    let t7 : Bytes = height ++ t8 in
    let t6 : Bytes = name ++ t7 in
    let t5 : Bytes = nonce ++ t6 in
    let t4 : Bytes = put_address m.sender ++ t5 in
    let t3 : Bytes = put_address m.recipient ++ t4 in
    let t2 : Bytes = timestamp ++ t3 in
    let t1 : Bytes = services ++ t2 in
    let bytes : Bytes = version ++ t1 in
    let shape : put_version_message m ++ rest ≡ bytes =
      unfold put_version_message int_to_vch in
      rw (v.version_eq, v.timestamp_eq, v.start_height_eq) (simp append_assoc) in
    let short : length bytes < 2 ^ 32 = subst (λ (x : Bytes). length x < 2 ^ 32) shape h in
    let s_name = length-put_var_string m.sub_version in
    let b_name = var_int_size_bounds (length m.sub_version) in
    let s8 = λ (n : ℕ). length-uint_to_vch 8 n little_endian in
    let s_height : length height ≡ 4 = length-uint_to_vch 4 v.start_height little_endian in
    let p1 : ℕ = 80 + var_string_size m.sub_version in
    let a1 : At 4 bytes t1 = At-skip 4 version t1 (length-uint_to_vch 4 v.version little_endian) in
    let a2 : At 12 bytes t2 = At-next 4 12 bytes services t2 a1 (omega (arith, s8 m.services)) in
    let a3 : At 20 bytes t3 = At-next 12 20 bytes timestamp t3 a2 (omega (arith, s8 v.timestamp)) in
    let to = untimed_size m.recipient v.recipient_valid in
    let from = untimed_size m.sender v.sender_valid in
    let a4 : At 46 bytes t4 =
      At-next 20 46 bytes (put_address m.recipient) t4 a3 (omega (arith, to)) in
    let a5 : At 72 bytes t5 =
      At-next 46 72 bytes (put_address m.sender) t5 a4 (omega (arith, from)) in
    let a6 : At 80 bytes t6 = At-next 72 80 bytes nonce t6 a5 (omega (arith, s8 m.nonce)) in
    let a7 : At p1 bytes t7 = At-next 80 p1 bytes name t7 a6 (omega (arith, s_name)) in
    let a8 : At (p1 + 4) bytes t8 =
      At-next p1 (p1 + 4) bytes height t8 a7 (omega (arith, s_height)) in
    let total : length bytes ≡ p1 + 4 + length (relay_bytes m) + length rest =
      omega (arith, At-length (p1 + 4) bytes t8 a8, length-append (relay_bytes m) rest) in
    let at_height : add32 80 (var_string_size m.sub_version) ≡ p1 = omega (arith, total) in
    let at_relay : add32 p1 4 ≡ p1 + 4 = omega (arith, total) in
    let small : 85 ≤ p1 + 4 = unfold var_string_size in omega (arith, b_name) in
    let name_small : length m.sub_version < 2 ^ 63 =
      let e : length m.sub_version ≤ var_string_size m.sub_version =
        unfold var_string_size in omega arith in
      omega (arith, total) in
    let long : 84 ≤ length bytes = omega (arith, total) in
    let longer : 85 ≤ length bytes = omega (arith, total) in
    let fits : p1 + 4 ≤ length bytes = omega (arith, total) in
    let checked : (if has_relay m.version then leb 85 (length bytes) else true) ≡ true =
      passes (has_relay m.version) (leb 85 (length bytes)) (le→leb 85 _ longer) in
    let signed_version : to_signed 4 v.version ≡ m.version =
      rw (lt→ltb v.version (2 ^ 31) v.version_i32) (sym v.version_eq) in
    let signed_timestamp : to_signed 8 v.timestamp ≡ m.timestamp =
      rw (lt→ltb v.timestamp (2 ^ 63) v.timestamp_i64) (sym v.timestamp_eq) in
    let signed_height : to_signed 4 v.start_height ≡ m.start_height =
      rw (lt→ltb v.start_height (2 ^ 31) v.start_height_i32) (sym v.start_height_eq) in
    unfold get_version_message in
    rw (
      shape,
      le→leb 84 _ long,
      vch_to_uint-uint_to_vch 4 v.version little_endian t1 (omega (arith, v.version_i32)),
      signed_version,
      checked,
      uint_at-At 8 4 m.services bytes t2 v.services_u64 a1,
      uint_at-At 8 12 v.timestamp bytes t3 (omega (arith, v.timestamp_i64)) a2,
      slice-At 20 46 bytes (put_address m.recipient) t4 a3 (omega (arith, to)),
      get_address-put_address m.recipient v.recipient_valid.valid,
      slice-At 46 72 bytes (put_address m.sender) t5 a4 (omega (arith, from)),
      get_address-put_address m.sender v.sender_valid.valid,
      uint_at-At 8 72 m.nonce bytes t6 v.nonce_u64 a5,
      suffix-At 80 bytes t6 a6,
      get_var_string-put_var_string m.sub_version t7 name_small,
      at_height,
      at_relay,
      le→leb _ _ fits,
      uint_at-At 4 p1 v.start_height bytes t8 (omega (arith, v.start_height_i32)) a7,
      read_relay-At m (p1 + 4) bytes rest v a8,
      signed_timestamp,
      signed_height,
    )
