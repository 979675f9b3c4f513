-- ===== src/Tests/Wire.antt =====
-- Integers, strings, headers and the small messages on concrete values.
use m_signa.Prelude.{
  ℕ, pos, negsuc, ◌^◌, ◌<◌, ◌≡◌, ◌≢◌, ◌↔◌, refl, [], ◌∷◌, ◌++◌, false, Option, none, some, length,
  replicate, inl, arith,
}
use m_signa.Result.{ok, map_ok}
use m_signa.Bytes.{Bytes, big_endian, little_endian, uint_to_vch, vch_to_uint, low_bytes}
use m_signa.Bytes.Numeric.{vch_to_uint-uint_to_vch}
use m_signa.Bytes.Loop.{flat}
use m_signa.VarInt.{put_var_int, get_var_int, put_var_string, get_var_string}
use m_signa.VarInt.RoundTrip.{get_var_int-put_var_int, get_var_string-put_var_string}
use m_signa.BlockHeader.{BlockHeader, put_header, get_header, target_of_bits, work_of_bits}
use m_signa.BlockHeader.RoundTrip.{IsHeader, get_header-put_header}
use m_signa.BlockHeader.Target.{work_of_bits-pos}
use m_signa.Message.Address.{
  NetworkAddress, MessageHeader, VersionMessage, put_address, put_message_header,
  get_message_header, put_addr_message, get_addr_message, put_version_message, get_version_message,
  int_to_vch, negative_bytes, to_signed,
}
use m_signa.Message.Address.Greeting.{
  IsUntimed, IsVersionMessage, get_message_header-put_message_header,
  get_addr_message-put_addr_message, get_version_message-put_version_message,
}
use m_signa.Message.Inventory.{
  InventoryItem, put_inventory_item, put_inventory, get_inventory, Locator, put_get_blocks,
  get_get_blocks,
}
use m_signa.Message.Inventory.RoundTrip.{get_inventory-put_inventory, get_get_blocks-put_get_blocks}
use m_signa.Message.Filter.{FilterLoad, put_filter_load, get_filter_load}
use m_signa.Message.Filter.RoundTrip.{get_filter_load-put_filter_load}
use m_signa.Message.Block.{put_headers_message, get_headers_message}
use m_signa.Message.Block.RoundTrip.{get_headers_message-put_headers_message}

vch_to_uint-uint_to_vch_example :
    vch_to_uint 4 (uint_to_vch 4 70001 big_endian ++ (9 ∷ [])) big_endian ≡ ok 70001
vch_to_uint-uint_to_vch_example = vch_to_uint-uint_to_vch 4 70001 big_endian (9 ∷ []) (omega arith)

get_var_int-put_var_int_example : get_var_int (put_var_int 515 ++ (7 ∷ [])) ≡ ok 515
get_var_int-put_var_int_example = get_var_int-put_var_int 515 (7 ∷ []) (omega arith)

get_var_string-put_var_string_example :
    get_var_string (put_var_string (97 ∷ 98 ∷ []) ++ (7 ∷ [])) ≡ ok (97 ∷ 98 ∷ [])
get_var_string-put_var_string_example =
    get_var_string-put_var_string (97 ∷ 98 ∷ []) (7 ∷ []) (omega arith)

abbrev a_hash : ℕ → Bytes
a_hash b = replicate 32 b

abbrev a_header : BlockHeader
a_header = record {
  version = 2;
  prev_block_hash = a_hash 1;
  merkle_root = a_hash 2;
  timestamp = 1400000000;
  bits = 486604799;
  nonce = 77;
}

a_header-IsHeader : IsHeader a_header
a_header-IsHeader = record {
  version_u32 = omega arith;
  prev_size = refl;
  root_size = refl;
  timestamp_u32 = omega arith;
  bits_u32 = omega arith;
  nonce_u32 = omega arith;
}

get_header-put_header_example : get_header (put_header a_header ++ (5 ∷ [])) ≡ ok a_header
get_header-put_header_example = get_header-put_header a_header (5 ∷ []) a_header-IsHeader

work_of_bits-pos_example :
    (0 < work_of_bits 486604799)
    ↔ ((target_of_bits 486604799 ≢ 0) × (target_of_bits 486604799 < 2 ^ 256))
work_of_bits-pos_example = work_of_bits-pos 486604799

headers_short : length (put_headers_message (a_header ∷ []) ++ []) < 2 ^ 32
unfolding put_headers_message put_header flat put_var_int uint_to_vch low_bytes
headers_short = omega arith

get_headers_message-put_headers_message_example :
    get_headers_message (put_headers_message (a_header ∷ []) ++ []) ≡ ok (a_header ∷ [])
get_headers_message-put_headers_message_example =
    get_headers_message-put_headers_message (a_header ∷ []) [] (a_header-IsHeader, tt) headers_short

abbrev an_item : InventoryItem
an_item = record { item_type = 2; hash = a_hash 3 }

inventory_short : length (put_inventory (an_item ∷ []) ++ []) < 2 ^ 32
unfolding put_inventory put_inventory_item flat put_var_int uint_to_vch low_bytes
inventory_short = omega arith

get_inventory-put_inventory_example :
    get_inventory (an_item ∷ []) (put_inventory (an_item ∷ []) ++ [])
    ≡ ok ((an_item ∷ []) ++ (an_item ∷ []))
get_inventory-put_inventory_example =
    get_inventory-put_inventory (an_item ∷ []) (an_item ∷ []) []
      (record { type_u32 = omega arith; hash_size = refl }, tt) inventory_short

abbrev a_locator : Locator
a_locator = record {
  version = 70001;
  block_locator_hashes = a_hash 4 ∷ a_hash 5 ∷ [];
  hash_stop = a_hash 0;
}

locator_short : length (put_get_blocks a_locator ++ []) < 2 ^ 32
unfolding put_get_blocks flat put_var_int uint_to_vch low_bytes
locator_short = omega arith

get_get_blocks-put_get_blocks_example :
    get_get_blocks (put_get_blocks a_locator ++ []) ≡ ok a_locator
get_get_blocks-put_get_blocks_example =
    get_get_blocks-put_get_blocks a_locator []
      (record { version_u32 = omega arith; hash_sizes = (refl, (refl, tt)); stop_size = refl })
      (omega arith) locator_short

abbrev a_filter : FilterLoad
a_filter = record { filter = 1 ∷ 2 ∷ []; n_hash_funcs = 5; n_tweak = 6; n_flags = 1 }

get_filter_load-put_filter_load_example : get_filter_load (put_filter_load a_filter) ≡ ok a_filter
get_filter_load-put_filter_load_example = get_filter_load-put_filter_load a_filter (record {
  filter_size = omega arith;
  n_hash_funcs_u32 = omega arith;
  n_tweak_u32 = omega arith;
  n_flags_byte = omega arith;
})

abbrev an_address : Option ℕ → NetworkAddress
an_address time = record { time = time; services = 1; ipv6 = replicate 16 9; port = 8333 }

abbrev a_message_header : MessageHeader
a_message_header = record {
  magic = 3652501241;
  command = 112 ∷ 105 ∷ 110 ∷ 103 ∷ replicate 8 0;
  size = 8;
  checksum = some 99;
}

get_message_header-put_message_header_example :
    get_message_header (put_message_header a_message_header ++ (1 ∷ [])) ≡ ok a_message_header
get_message_header-put_message_header_example =
    get_message_header-put_message_header a_message_header 99 (1 ∷ []) (record {
      checksum_eq = refl;
      magic_u32 = omega arith;
      command_size = refl;
      size_u32 = omega arith;
      checksum_u32 = omega arith;
    })

addr_short : length (put_addr_message (an_address (some 1400000000) ∷ []) ++ []) < 2 ^ 32
unfolding put_addr_message put_address flat put_var_int uint_to_vch low_bytes
addr_short = omega arith

get_addr_message-put_addr_message_example :
    get_addr_message (put_addr_message (an_address (some 1400000000) ∷ []) ++ [])
    ≡ ok (an_address (some 1400000000) ∷ [])
get_addr_message-put_addr_message_example =
    get_addr_message-put_addr_message (an_address (some 1400000000) ∷ []) []
      (
        record {
          time = 1400000000;
          time_eq = refl;
          valid = record {
            time_u32 = omega arith;
            services_u64 = omega arith;
            ipv6_size = refl;
            port_u16 = omega arith;
          };
        },
        tt,
      )
      (omega arith) addr_short

abbrev a_version : VersionMessage
a_version = record {
  version = pos 70001;
  services = 1;
  timestamp = pos 1400000000;
  recipient = an_address none;
  sender = an_address none;
  nonce = 12345;
  sub_version = 47 ∷ 109 ∷ 47 ∷ [];
  start_height = pos 300000;
  relay = false;
}

an_address-IsUntimed : IsUntimed (an_address none)
an_address-IsUntimed = record {
  time_eq = refl;
  valid = record {
    time_u32 = tt;
    services_u64 = omega arith;
    ipv6_size = refl;
    port_u16 = omega arith;
  };
}

a_version-IsVersionMessage : IsVersionMessage a_version
a_version-IsVersionMessage = record {
  version = 70001;
  version_eq = refl;
  version_i32 = omega arith;
  services_u64 = omega arith;
  timestamp = 1400000000;
  timestamp_eq = refl;
  timestamp_i64 = omega arith;
  recipient_valid = an_address-IsUntimed;
  sender_valid = an_address-IsUntimed;
  nonce_u64 = omega arith;
  start_height = 300000;
  start_height_eq = refl;
  start_height_i32 = omega arith;
  relay_default = inl refl;
}

version_short : length (put_version_message a_version ++ []) < 2 ^ 32
unfolding put_version_message int_to_vch put_address put_var_string put_var_int uint_to_vch
    low_bytes
version_short = omega arith

get_version_message-put_version_message_example :
    get_version_message (put_version_message a_version ++ []) ≡ ok a_version
get_version_message-put_version_message_example =
    get_version_message-put_version_message a_version [] a_version-IsVersionMessage version_short

-- A negative number is not read back: -1 is written as 255.
negative_height : int_to_vch 4 (negsuc 0) ≡ 255 ∷ (0 ∷ (0 ∷ (0 ∷ [])))
unfolding int_to_vch negative_bytes
negative_height = refl

negative_read :
    map_ok (to_signed 4) (vch_to_uint 4 (int_to_vch 4 (negsuc 0)) little_endian) ≡ ok (pos 255)
unfolding int_to_vch negative_bytes vch_to_uint
negative_read = refl
