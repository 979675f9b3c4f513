-- ===== src/Message/Inventory/RoundTrip.antt =====
-- Inventory and GetBlocksMessage, written and read.
use m_signa.Prelude.{
  ℕ, ◌+◌, ◌*◌, ◌%◌, ◌^◌, ◌≤◌, ◌<◌, ◌≡◌, refl, sym, ◌∙◌, List, [], ◌∷◌, ◌++◌, le→leb, length,
  length-append, length-reverse, append_assoc, append-nil, reverse, reverse-reverse, take-all, All,
  arith,
}
use mathlib.Core.Path.{subst}
use m_signa.Result.{ok}
use m_signa.Bytes.{Bytes, IsU32, add32, little_endian, uint_to_vch}
use m_signa.Bytes.Numeric.{length-uint_to_vch, vch_to_uint-uint_to_vch}
use m_signa.Bytes.Cursor.{At, At-skip, At-next, At-length, slice-At, suffix-At}
use m_signa.Bytes.Loop.{flat, Reads, Fixed, read_items-flat, read_fixed-flat, length-flat}
use m_signa.VarInt.{var_int_size, put_var_int}
use m_signa.VarInt.RoundTrip.{length-put_var_int, var_int_size_bounds, get_var_int-put_var_int}
use m_signa.Message.Inventory.{
  InventoryItem, put_inventory_item, get_inventory_item, put_inventory, get_inventory, Locator,
  put_locator_hash, get_locator_hash, put_get_blocks, get_get_blocks,
}

-- What the types of the fields give.
pub record IsInventoryItem (i : InventoryItem) : Type 0 where
  pub type_u32 : IsU32 i.item_type
  pub hash_size : length i.hash ≡ 32

length-put_inventory_item :
    (i : InventoryItem) → IsInventoryItem i → length (put_inventory_item i) ≡ 36
unfolding put_inventory_item
length-put_inventory_item i v = omega (
  arith,
  length-append (uint_to_vch 4 i.item_type little_endian) (reverse i.hash),
  length-reverse i.hash,
  v.hash_size,
  length-uint_to_vch 4 i.item_type little_endian,
)

inventory_item-Reads :
    (i : InventoryItem)
    → IsInventoryItem i
    → Reads put_inventory_item get_inventory_item (λ j. length (put_inventory_item j)) i
inventory_item-Reads i v = (back, refl)
  where
    back :
        (rest : Bytes)
        → length (put_inventory_item i ++ rest) < 2 ^ 32
        → get_inventory_item (put_inventory_item i ++ rest) ≡ ok i
    back rest h =
        let number : Bytes = uint_to_vch 4 i.item_type little_endian in
        let hash : Bytes = reverse i.hash in
        let bytes : Bytes = number ++ (hash ++ rest) in
        let shape : put_inventory_item i ++ rest ≡ bytes =
          unfold put_inventory_item in append_assoc number hash rest in
        let size : length hash ≡ 32 = length-reverse i.hash ∙ v.hash_size in
        let s4 : length number ≡ 4 = length-uint_to_vch 4 i.item_type little_endian in
        let long : 36 ≤ length bytes =
          omega (arith, length-append number (hash ++ rest), length-append hash rest) in
        unfold get_inventory_item in
        rw (
          shape,
          le→leb 36 _ long,
          vch_to_uint-uint_to_vch 4 i.item_type little_endian (hash ++ rest) v.type_u32,
          slice-At 4 36 bytes hash rest (At-skip 4 number (hash ++ rest) s4) (omega (arith, size)),
          reverse-reverse i.hash,
        )

inventory_items-Reads :
    (is : List InventoryItem)
    → All IsInventoryItem is
    → All (Reads put_inventory_item get_inventory_item (λ j. length (put_inventory_item j))) is
inventory_items-Reads [] v = tt
inventory_items-Reads (i ∷ is) v = (inventory_item-Reads i v.0, inventory_items-Reads is v.1)

item_sizes :
    (is : List InventoryItem)
    → All IsInventoryItem is
    → All (λ i. length (put_inventory_item i) ≡ 36) is
item_sizes [] v = tt
item_sizes (i ∷ is) v = (length-put_inventory_item i v.0, item_sizes is v.1)

-- The items of an inventory message shorter than 2 ^ 32 bytes are read behind the items that the
-- object had before; a new object gets exactly the items written.
pub get_inventory-put_inventory :
    (old items : List InventoryItem) (rest : Bytes)
    → All IsInventoryItem items
    → length (put_inventory items ++ rest) < 2 ^ 32
    → get_inventory old (put_inventory items ++ rest) ≡ ok (old ++ items)
get_inventory-put_inventory old items rest v h =
    let n : ℕ = length items in
    let body : Bytes = flat put_inventory_item items in
    let bytes : Bytes = put_var_int n ++ (body ++ rest) in
    let shape : put_inventory items ++ rest ≡ bytes =
      unfold put_inventory in append_assoc (put_var_int n) body rest in
    let short : length bytes < 2 ^ 32 = subst (λ (b : Bytes). length b < 2 ^ 32) shape h in
    let size = length-flat put_inventory_item 36 items (item_sizes items v) in
    let total = length-append (put_var_int n) (body ++ rest) in
    let parts = length-append body rest in
    let fits : (var_int_size n + 36 * n) % 2 ^ 64 ≤ length bytes =
      omega (arith, size, total, parts, length-put_var_int n) in
    unfold get_inventory in
    rw (
      shape,
      get_var_int-put_var_int n (body ++ rest) (omega (arith, size, total, parts)),
      le→leb _ _ fits,
      read_items-flat put_inventory_item get_inventory_item (λ j. length (put_inventory_item j))
          items bytes rest (var_int_size n) short (inventory_items-Reads items v)
          (At-skip (var_int_size n) (put_var_int n) (body ++ rest) (length-put_var_int n)),
    )

-- What the types of the fields of a locator give, and hashes of 32 bytes.
pub record IsLocator (m : Locator) : Type 0 where
  pub version_u32 : IsU32 m.version
  pub hash_sizes : All (λ (k : Bytes). length k ≡ 32) m.block_locator_hashes
  pub stop_size : length m.hash_stop ≡ 32

locator_hash_size : (k : Bytes) → length k ≡ 32 → length (put_locator_hash k) ≡ 32
locator_hash_size k e = rw (take-all 32 k (omega arith)) (length-reverse k ∙ e)

locator_hashes-Fixed :
    (ks : List Bytes)
    → All (λ (k : Bytes). length k ≡ 32) ks
    → All (Fixed put_locator_hash get_locator_hash 32 32) ks
locator_hashes-Fixed [] v = tt
locator_hashes-Fixed (k ∷ ks) v = (
  record {
    front = reverse k;
    pad = [];
    shape = rw (take-all 32 k (omega (arith, v.0))) (sym (append-nil (reverse k)));
    front_size = length-reverse k ∙ v.0;
    pad_size = refl;
    parsed = rw (reverse-reverse k);
  },
  locator_hashes-Fixed ks v.1,
)

locator_sizes :
    (ks : List Bytes)
    → All (λ (k : Bytes). length k ≡ 32) ks
    → All (λ (k : Bytes). length (put_locator_hash k) ≡ 32) ks
locator_sizes [] v = tt
locator_sizes (k ∷ ks) v = (locator_hash_size k v.0, locator_sizes ks v.1)

-- A getblocks message with at least one locator hash, shorter than 2 ^ 32 bytes, is read back as it
-- was written, whatever follows it.
pub get_get_blocks-put_get_blocks :
    (m : Locator) (rest : Bytes)
    → IsLocator m
    → 0 < length m.block_locator_hashes
    → length (put_get_blocks m ++ rest) < 2 ^ 32
    → get_get_blocks (put_get_blocks m ++ rest) ≡ ok m
get_get_blocks-put_get_blocks m rest v some h =
    let version : Bytes = uint_to_vch 4 m.version little_endian in
    let n : ℕ = length m.block_locator_hashes in
    let ks : Bytes = flat put_locator_hash m.block_locator_hashes in
    let stop : Bytes = reverse m.hash_stop in
    let t2 : Bytes = ks ++ (stop ++ rest) in
    let t1 : Bytes = put_var_int n ++ t2 in
    let bytes : Bytes = version ++ t1 in
    let shape : put_get_blocks m ++ rest ≡ bytes = unfold put_get_blocks in simp append_assoc in
    let short : length bytes < 2 ^ 32 = subst (λ (x : Bytes). length x < 2 ^ 32) shape h in
    let s4 : length version ≡ 4 = length-uint_to_vch 4 m.version little_endian in
    let sn = length-put_var_int n in
    let bn = var_int_size_bounds n in
    let size =
      length-flat put_locator_hash 32 m.block_locator_hashes
        (locator_sizes m.block_locator_hashes v.hash_sizes) in
    let s_stop : length stop ≡ 32 = length-reverse m.hash_stop ∙ v.stop_size in
    let p1 : ℕ = 4 + var_int_size n in
    let p2 : ℕ = p1 + length ks in
    let a1 : At 4 bytes t1 = At-skip 4 version t1 s4 in
    let a2 : At p1 bytes t2 = At-next 4 p1 bytes (put_var_int n) t2 a1 (omega (arith, sn)) in
    let a3 : At p2 bytes (stop ++ rest) = At-next p1 p2 bytes ks (stop ++ rest) a2 refl in
    let total : length bytes ≡ p2 + 32 + length rest =
      omega (arith, At-length p2 bytes (stop ++ rest) a3, length-append stop rest) in
    let first : add32 4 (var_int_size n) ≡ p1 = omega (arith, total) in
    let long : 69 ≤ length bytes = omega (arith, total, size) in
    let fits : (p1 + 32 * (n + 1)) % 2 ^ 64 ≤ length bytes = omega (arith, total, size) in
    let n_u64 : n < 2 ^ 64 = omega (arith, total, size) in
    unfold get_get_blocks in
    rw (
      shape,
      le→leb 69 _ long,
      vch_to_uint-uint_to_vch 4 m.version little_endian t1 v.version_u32,
      suffix-At 4 bytes t1 a1,
      get_var_int-put_var_int n t2 n_u64,
      first,
      le→leb _ _ fits,
      read_fixed-flat put_locator_hash get_locator_hash 32 32 m.block_locator_hashes bytes
          (stop ++ rest) p1 short (locator_hashes-Fixed m.block_locator_hashes v.hash_sizes) a2,
      slice-At p2 (p2 + 32) bytes stop rest a3 (omega (arith, s_stop)),
      reverse-reverse m.hash_stop,
    )
