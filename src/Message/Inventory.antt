-- ===== src/Message/Inventory.antt =====
-- InventoryItem, Inventory (with GetDataMessage and NotFoundMessage, which differ in the command),
-- GetBlocksMessage and GetHeadersMessage of deps/CoinCore/src/CoinNodeData.cpp.
pub mod RoundTrip
use m_signa.Prelude.{ℕ, ◌+◌, ◌*◌, ◌%◌, ◌^◌, List, [], ◌∷◌, ◌++◌, Bool, leb, length, reverse, take}
use m_signa.Result.{Result, ok, err, guard, ◌>>=◌, ◌>>◌}
use m_signa.Bytes.{
  Bytes, add32, Error, too_small, length_wrong, little_endian, uint_to_vch, vch_to_uint, uint_at,
  slice, suffix,
}
use m_signa.Bytes.Loop.{flat, read_items, read_fixed}
use m_signa.VarInt.{var_int_size, put_var_int, get_var_int}

pub record InventoryItem : Type 0 where
  pub item_type : ℕ
  pub hash : Bytes

-- InventoryItem::getSerialized
unfoldable pub put_inventory_item : InventoryItem → Bytes
put_inventory_item i = uint_to_vch 4 i.item_type little_endian ++ reverse i.hash

-- InventoryItem::setSerialized
unfoldable pub get_inventory_item : Bytes → Result Error InventoryItem
get_inventory_item bytes = do
  guard (leb 36 (length bytes)) too_small
  item_type ← vch_to_uint 4 bytes little_endian
  hash ← slice 4 36 bytes
  ok (record { item_type = item_type; hash = reverse hash })

-- Inventory::getSerialized
unfoldable pub put_inventory : List InventoryItem → Bytes
put_inventory items = put_var_int (length items) ++ flat put_inventory_item items

-- Inventory::setSerialized, on an inventory with the items `old`, which are kept.
unfoldable pub get_inventory : List InventoryItem → Bytes → Result Error (List InventoryItem)
get_inventory old bytes = do
  count ← get_var_int bytes
  guard (leb ((var_int_size count + 36 * count) % 2 ^ 64) (length bytes)) too_small
  (items, end) ←
      read_items get_inventory_item (λ i. length (put_inventory_item i)) count bytes
        (var_int_size count)
  ok (old ++ items)

-- What GetBlocksMessage and GetHeadersMessage hold.
pub record Locator : Type 0 where
  pub version : ℕ
  pub block_locator_hashes : List Bytes
  pub hash_stop : Bytes

-- A hash of the locator as it is written: its first 32 bytes, the last first.
abbrev pub put_locator_hash : Bytes → Bytes
put_locator_hash hash = reverse (take 32 hash)

abbrev pub get_locator_hash : Bytes → Result Error Bytes
get_locator_hash hash = ok (reverse hash)

-- GetBlocksMessage::getSerialized
unfoldable pub put_get_blocks : Locator → Bytes
put_get_blocks m =
    uint_to_vch 4 m.version little_endian
    ++ (put_var_int (length m.block_locator_hashes)
        ++ (flat put_locator_hash m.block_locator_hashes ++ reverse m.hash_stop))

-- GetBlocksMessage::setSerialized
unfoldable pub get_get_blocks : Bytes → Result Error Locator
get_get_blocks bytes = do
  guard (leb 69 (length bytes)) too_small
  version ← vch_to_uint 4 bytes little_endian
  rest ← suffix 4 bytes
  count ← get_var_int rest
  let pos = add32 4 (var_int_size count)
  guard (leb ((pos + 32 * (count + 1)) % 2 ^ 64) (length bytes)) length_wrong
  (hashes, end) ← read_fixed get_locator_hash 32 32 count bytes pos
  stop ← slice end (end + 32) bytes
  ok (record { version = version; block_locator_hashes = hashes; hash_stop = reverse stop })

-- GetHeadersMessage::getSerialized, the same code again.
abbrev pub put_get_headers : Locator → Bytes
put_get_headers m = put_get_blocks m

-- GetHeadersMessage::setSerialized, the same code again, with the constants of GetBlocksMessage.
abbrev pub get_get_headers : Bytes → Result Error Locator
get_get_headers bytes = get_get_blocks bytes
