-- ===== src/Message/Payload.antt =====
-- CoinNodeMessage of deps/CoinCore/src/CoinNodeData.cpp: a header, and the payload that its command
-- names.
use m_signa.Prelude.{ℕ, ◌+◌, List, [], ◌∷◌, leb, ◌==◌, if◌then◌else◌, Option, none, some, length}
use m_signa.Result.{Result, ok, err, guard, ◌>>=◌, ◌>>◌, map_ok}
use m_signa.Bytes.{Bytes, bytes_eq, Error, too_small, unrecognized_command, slice}
use m_signa.Transaction.{Transaction, get_tx}
use m_signa.BlockHeader.{BlockHeader}
use m_signa.Message.Address.{
  NetworkAddress, MessageHeader, message_header_size, get_message_header, VersionMessage,
  get_version_message, get_addr_message,
}
use m_signa.Message.Inventory.{
  InventoryItem, Locator, get_inventory, get_get_blocks, get_get_headers,
}
use m_signa.Message.Block.{CoinBlock, MerkleBlock, get_block, get_merkle_block, get_headers_message}
use m_signa.Message.Filter.{FilterLoad, get_filter_load, get_filter_add, get_ping, get_pong}

-- The commands, and `blank` for those whose payload is empty.
pub data Command : Type 0 where
  version_command addr_command inv_command get_data_command not_found_command : Command
  get_blocks_command get_headers_command tx_command block_command merkle_block_command : Command
  headers_command filter_load_command filter_add_command ping_command pong_command : Command
  blank_command : Command

pub data Payload : Type 0 where
  version_payload : VersionMessage → Payload
  addr_payload : List NetworkAddress → Payload
  inv_payload get_data_payload not_found_payload : List InventoryItem → Payload
  get_blocks_payload get_headers_payload : Locator → Payload
  tx_payload : Transaction → Payload
  block_payload : CoinBlock → Payload
  merkle_block_payload : MerkleBlock → Payload
  headers_payload : List BlockHeader → Payload
  filter_load_payload : FilterLoad → Payload
  filter_add_payload : Bytes → Payload
  ping_payload pong_payload : ℕ → Payload
  blank_payload : Payload

-- `string command = header.command`: the characters before the first NUL.
abbrev pub c_string : Bytes → Bytes
c_string [] = []
c_string (c ∷ cs) = if c == 0 then [] else c ∷ c_string cs

-- The names of the commands, in the order of the tests of `setSerialized`.
abbrev pub commands : List (Bytes × Command)
commands =
    (118 ∷ 101 ∷ 114 ∷ 115 ∷ 105 ∷ 111 ∷ 110 ∷ [], version_command)
    ∷ (118 ∷ 101 ∷ 114 ∷ 97 ∷ 99 ∷ 107 ∷ [], blank_command)
    ∷ (109 ∷ 101 ∷ 109 ∷ 112 ∷ 111 ∷ 111 ∷ 108 ∷ [], blank_command)
    ∷ (97 ∷ 100 ∷ 100 ∷ 114 ∷ [], addr_command)
    ∷ (105 ∷ 110 ∷ 118 ∷ [], inv_command)
    ∷ (103 ∷ 101 ∷ 116 ∷ 100 ∷ 97 ∷ 116 ∷ 97 ∷ [], get_data_command)
    ∷ (110 ∷ 111 ∷ 116 ∷ 102 ∷ 111 ∷ 117 ∷ 110 ∷ 100 ∷ [], not_found_command)
    ∷ (103 ∷ 101 ∷ 116 ∷ 98 ∷ 108 ∷ 111 ∷ 99 ∷ 107 ∷ 115 ∷ [], get_blocks_command)
    ∷ (103 ∷ 101 ∷ 116 ∷ 104 ∷ 101 ∷ 97 ∷ 100 ∷ 101 ∷ 114 ∷ 115 ∷ [], get_headers_command)
    ∷ (116 ∷ 120 ∷ [], tx_command)
    ∷ (98 ∷ 108 ∷ 111 ∷ 99 ∷ 107 ∷ [], block_command)
    ∷ (109 ∷ 101 ∷ 114 ∷ 107 ∷ 108 ∷ 101 ∷ 98 ∷ 108 ∷ 111 ∷ 99 ∷ 107 ∷ [], merkle_block_command)
    ∷ (104 ∷ 101 ∷ 97 ∷ 100 ∷ 101 ∷ 114 ∷ 115 ∷ [], headers_command)
    ∷ (103 ∷ 101 ∷ 116 ∷ 97 ∷ 100 ∷ 100 ∷ 114 ∷ [], blank_command)
    ∷ (102 ∷ 105 ∷ 108 ∷ 116 ∷ 101 ∷ 114 ∷ 108 ∷ 111 ∷ 97 ∷ 100 ∷ [], filter_load_command)
    ∷ (102 ∷ 105 ∷ 108 ∷ 116 ∷ 101 ∷ 114 ∷ 97 ∷ 100 ∷ 100 ∷ [], filter_add_command)
    ∷ (102 ∷ 105 ∷ 108 ∷ 116 ∷ 101 ∷ 114 ∷ 99 ∷ 108 ∷ 101 ∷ 97 ∷ 114 ∷ [], blank_command)
    ∷ (112 ∷ 105 ∷ 110 ∷ 103 ∷ [], ping_command)
    ∷ (112 ∷ 111 ∷ 110 ∷ 103 ∷ [], pong_command)
    ∷ []

abbrev pub command_of : Bytes → List (Bytes × Command) → Option Command
command_of name [] = none
command_of name ((key, c) ∷ rest) = if bytes_eq name key then some c else command_of name rest

module _ (sha256_2 : Bytes → Bytes) where
  -- The constructors that `setSerialized` calls with the bytes of the payload.
  unfoldable pub get_payload : Command → Bytes → Result Error Payload
  get_payload version_command bytes = map_ok version_payload (get_version_message bytes)
  get_payload addr_command bytes = map_ok addr_payload (get_addr_message bytes)
  get_payload inv_command bytes = map_ok inv_payload (get_inventory [] bytes)
  get_payload get_data_command bytes = map_ok get_data_payload (get_inventory [] bytes)
  get_payload not_found_command bytes = map_ok not_found_payload (get_inventory [] bytes)
  get_payload get_blocks_command bytes = map_ok get_blocks_payload (get_get_blocks bytes)
  get_payload get_headers_command bytes = map_ok get_headers_payload (get_get_headers bytes)
  get_payload tx_command bytes = map_ok tx_payload (get_tx bytes)
  get_payload block_command bytes = map_ok block_payload (get_block sha256_2 [] bytes)
  get_payload merkle_block_command bytes = map_ok merkle_block_payload (get_merkle_block bytes)
  get_payload headers_command bytes = map_ok headers_payload (get_headers_message bytes)
  get_payload filter_load_command bytes = map_ok filter_load_payload (get_filter_load bytes)
  get_payload filter_add_command bytes = map_ok filter_add_payload (get_filter_add bytes)
  get_payload ping_command bytes = map_ok ping_payload (get_ping bytes)
  get_payload pong_command bytes = map_ok pong_payload (get_pong bytes)
  get_payload blank_command bytes = ok blank_payload

  -- CoinNodeMessage::setSerialized
  unfoldable pub get_message : Bytes → Result Error (MessageHeader × Payload)
  get_message bytes = do
    header ← get_message_header bytes
    let start = message_header_size header
    guard (leb (start + header.size) (length bytes)) too_small
    elim (command_of (c_string header.command) commands) [
      | none ↦ err unrecognized_command
      | some command ↦ do
        part ← slice start (start + header.size) bytes
        payload ← get_payload command part
        ok (header, payload)
    ]
