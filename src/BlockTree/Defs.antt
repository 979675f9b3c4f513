-- ===== src/BlockTree/Defs.antt =====
-- The state and the operations of the block tree. The two maps of the source are functions here;
-- pointers into the header map are the keys that they point at. Each operation returns the signals
-- that it sends, in order. Hashing is a parameter.
use m_signa.Prelude.{
  ℕ, zero, suc, ◌+◌, ◌-◌, ◌*◌, List, [], ◌∷◌, ◌++◌, Bool, true, false, ◌&&◌, ◌||◌, ◌==◌, ltb, leb,
  if◌then◌else◌, Option, none, some,
}
use m_signa.Result.{Result, ok, err, guard, ◌>>=◌, ◌>>◌}
use m_signa.Bytes.{Bytes, bytes_eq}
use m_signa.BlockHeader.{BlockHeader, target_of_bits, work_of_bits}

-- What the operations throw. `not_found` is also the std::out_of_range of `at`; `assertion_failed`
-- is a failed assert; `stuck` is no exception: it marks a loop of the source that does not end.
pub data Error : Type 0 where
  no_genesis parent_not_found hash_too_big tree_not_empty tree_empty : Error
  cannot_remove_genesis not_found assertion_failed stuck : Error

pub record ChainHeader : Type 0 where
  pub header : BlockHeader
  pub in_best_chain : Bool
  pub height : ℕ
  pub chain_work : ℕ
  pub child_hashes : List Bytes

pub data Event : Type 0 where
  inserted added_best removed_best reorganized deleted : Bytes → Event

-- A std::map.
abbrev pub Map : Type 0 → Type 0 → Type 0
Map K V = K → Option V

abbrev pub put : {V : Type 0} → Bytes → V → Map Bytes V → Map Bytes V
put k v m j = if bytes_eq k j then some v else m j

abbrev pub erase : {V : Type 0} → Bytes → Map Bytes V → Map Bytes V
erase k m j = if bytes_eq k j then none else m j

abbrev pub put_height : ℕ → Bytes → Map ℕ Bytes → Map ℕ Bytes
put_height k v m j = if k == j then some v else m j

abbrev pub erase_height : ℕ → Map ℕ Bytes → Map ℕ Bytes
erase_height k m j = if k == j then none else m j

-- `count` is mHeaderHashMap.size(). `best_height` is 1 more than mBestHeight, which is -1 in an
-- empty tree.
pub record BlockTree : Type 0 where
  pub headers : Map Bytes ChainHeader
  pub count : ℕ
  pub heights : Map ℕ Bytes
  pub next_height : ℕ
  pub total_work : ℕ
  pub head : Option Bytes

abbrev pub empty_tree : BlockTree
empty_tree = record {
  headers = λ k. none;
  count = 0;
  heights = λ k. none;
  next_height = 0;
  total_work = 0;
  head = none;
}

-- mHeaderHashMap.at(hash)
unfoldable pub at_hash : Map Bytes ChainHeader → Bytes → Result Error ChainHeader
at_hash m k = elim (m k) [ none ↦ err not_found | some h ↦ ok h ]

-- `header.inBestChain = b`, through the pointer.
abbrev pub mark : Bytes → ChainHeader → Bool → Map Bytes ChainHeader → Map Bytes ChainHeader
mark k h b = put k (record h { in_best_chain = b })

-- The retrace loop of `setBestChain`, on fuel: the headers passed, the oldest first, and the hash of
-- the best header where it ends.
unfoldable pub retrace :
    ℕ → Map Bytes ChainHeader → Bytes → List Bytes → Result Error (List Bytes × Bytes)
retrace zero m k passed = err stuck
retrace (suc fuel) m k passed = do
  h ← at_hash m k
  elim h.in_best_chain [
    | true ↦ ok (passed, k)
    | false ↦ retrace fuel m h.header.prev_block_hash (k ∷ passed)
  ]

-- The search of the loops over `childHashes`: the first child in the best chain.
unfoldable pub first_best :
    Map Bytes ChainHeader → List Bytes → Result Error (Option (Bytes × ChainHeader))
first_best m [] = ok none
first_best m (c ∷ cs) = do
  h ← at_hash m c
  elim h.in_best_chain [ true ↦ ok (some (c, h)) | false ↦ first_best m cs ]

-- The two maps, and the signals sent.
abbrev pub Maps : Type 0
Maps = Map Bytes ChainHeader × Map ℕ Bytes × List Event

-- The loop of `unsetBestChain`, on fuel: down the best chain, from below `k`. Where a header has
-- children and none of them is in the best chain, the loop of the source does not end.
unfoldable pub descend : ℕ → Map Bytes ChainHeader → Map ℕ Bytes → Bytes → Result Error Maps
descend zero m heights k = err stuck
descend (suc fuel) m heights k = do
  h ← at_hash m k
  elim h.child_hashes [
    | [] ↦ ok (m, heights, [])
    | c ∷ cs ↦ do
      found ← first_best m (c ∷ cs)
      elim found [
        | none ↦ err stuck
        | some (b, child) ↦ do
          (m', heights', events) ←
              descend fuel (mark b child false m) (erase_height child.height heights) b
          ok (m', heights', removed_best b ∷ events)
      ]
  ]

-- After the early returns of `unsetBestChain`.
unfoldable pub lower :
    BlockTree → Bytes → ChainHeader → ChainHeader → Result Error (BlockTree × List Event)
lower t k h parent = do
  (m, heights, events) ← descend (suc t.next_height) (mark k h false t.headers) t.heights k
  ok (
    record t {
      headers = m;
      heights = heights;
      next_height = if parent.in_best_chain then parent.height + 1 else t.next_height;
      total_work = if parent.in_best_chain then parent.chain_work else t.total_work;
    },
    removed_best k ∷ events,
  )

-- unsetBestChain
unfoldable pub unset_best_chain : BlockTree → Bytes → Result Error (BlockTree × List Event)
unset_best_chain t k = do
  h ← at_hash t.headers k
  elim h.in_best_chain [
    | false ↦ ok (t, [])
    | true ↦ do
      guard (if h.height == 0 then false else true) cannot_remove_genesis
      parent ← at_hash t.headers h.header.prev_block_hash
      lower t k h parent
  ]

-- The last loop of `setBestChain`: the headers of the path enter the best chain, the oldest first.
unfoldable pub raise :
    Map Bytes ChainHeader
    → Map ℕ Bytes
    → List Bytes
    → Result Error (Map Bytes ChainHeader × Map ℕ Bytes)
raise m heights [] = ok (m, heights)
raise m heights (k ∷ ks) = do
  h ← at_hash m k
  raise (mark k h true m) (put_height h.height k heights) ks

abbrev pub added : List Bytes → List Event
added [] = []
added (k ∷ ks) = added_best k ∷ added ks

-- The signals of that loop.
abbrev pub raised : List Bytes → List Event
raised [] = []
raised (k ∷ ks) = reorganized k ∷ (added_best k ∷ added ks)

-- The part of `setBestChain` behind the retrace loop, for the header `k`.
unfoldable pub switch :
    BlockTree → Bytes → ChainHeader → List Bytes → Bytes → Result Error (BlockTree × List Event)
switch t k h path fork = do
  f ← at_hash t.headers fork
  found ← first_best t.headers f.child_hashes
  (t', events) ← elim found [ none ↦ ok (t, []) | some (c, child) ↦ unset_best_chain t c ]
  (m, heights) ← raise t'.headers t'.heights path
  ok (
    record t' {
      headers = m;
      heights = heights;
      next_height = h.height + 1;
      total_work = h.chain_work;
      head = some k;
    },
    events ++ raised path,
  )

-- setBestChain
unfoldable pub set_best_chain : BlockTree → Bytes → Result Error (BlockTree × List Event)
set_best_chain t k = do
  h ← at_hash t.headers k
  elim h.in_best_chain [
    | true ↦ ok (t, [])
    | false ↦ do (path, fork) ← retrace (suc h.height) t.headers k []; switch t k h path fork
  ]

-- `childHashes.insert(hash)`
abbrev pub insert_hash : Bytes → List Bytes → List Bytes
insert_hash k [] = k ∷ []
insert_hash k (c ∷ cs) = if bytes_eq k c then c ∷ cs else c ∷ insert_hash k cs

-- The number that the hash of a header is compared with its target as.
unfoldable pub number_of : ℕ → Bytes → ℕ
number_of n [] = n
number_of n (b ∷ bs) = number_of (n * 256 + b) bs

-- The hash that keys a header, and the one that its proof of work is about, in the byte order in
-- which the source reads it.
pub record Hashing : Type 0 where
  pub hash : BlockHeader → Bytes
  pub pow_hash : BlockHeader → Bytes

-- A new header under its parent, and the parent with the child.
unfoldable pub attach : BlockTree → Bytes → BlockHeader → ChainHeader → BlockTree
attach t k header parent = record t {
  headers =
      put header.prev_block_hash
        (record parent { child_hashes = insert_hash k parent.child_hashes })
        (put k
          (record {
            header = header;
            in_best_chain = false;
            height = parent.height + 1;
            chain_work = parent.chain_work + work_of_bits header.bits;
            child_hashes = [];
          })
          t.headers);
  count = t.count + 1;
}

module _ (hashing : Hashing) where
  open hashing use {hash, pow_hash}

  -- setGenesisBlock
  unfoldable pub set_genesis_block : BlockTree → BlockHeader → Result Error (BlockTree × List Event)
  set_genesis_block t header = do
    guard (t.count == 0) tree_not_empty
    ok (
      record t {
        headers =
            put (hash header)
              (record {
                header = header;
                in_best_chain = true;
                height = 0;
                chain_work = work_of_bits header.bits;
                child_hashes = [];
              })
              t.headers;
        count = t.count + 1;
        heights = put_height 0 (hash header) t.heights;
        next_height = 1;
        total_work = work_of_bits header.bits;
        head = some (hash header);
      },
      inserted (hash header) ∷ (added_best (hash header) ∷ []),
    )

  -- insertHeader, where the header is new and its parent is known.
  unfoldable pub insert_under :
      BlockTree
      → BlockHeader
      → ChainHeader
      → Bool
      → Bool
      → Result Error (Bool × BlockTree × List Event)
  insert_under t header parent check_work replace_tip = do
    guard
        (if check_work
          then leb (number_of 0 (pow_hash header)) (target_of_bits header.bits)
          else true)
        hash_too_big
    let work = parent.chain_work + work_of_bits header.bits
    let t' = attach t (hash header) header parent
    (t'', events) ←
        if (replace_tip && leb t.total_work work) || ltb t.total_work work
        then set_best_chain t' (hash header)
        else ok (t', [])
    ok (true, t'', inserted (hash header) ∷ events)

  -- insertHeader. The flag of the result is the source's: whether the header was added.
  unfoldable pub insert_header :
      BlockTree → BlockHeader → Bool → Bool → Result Error (Bool × BlockTree × List Event)
  unfolding insert_under
  insert_header t header check_work replace_tip = do
    guard (if t.count == 0 then false else true) no_genesis
    elim (t.headers (hash header)) [
      | some old ↦ ok (false, t, [])
      | none ↦ elim (t.headers header.prev_block_hash) [
        | none ↦ err parent_not_found
        | some parent ↦ insert_under t header parent check_work replace_tip
      ]
    ]

-- `for (auto& child: childHashes) { deleteHeader(child); }`, where `delete` is the call.
abbrev pub delete_children :
    (BlockTree → Bytes → Result Error (Bool × BlockTree × List Event))
    → BlockTree
    → List Bytes
    → Result Error (BlockTree × List Event)
delete_children delete t [] = ok (t, [])
delete_children delete t (c ∷ cs) = do
  (done, t', events) ← delete t c
  (t'', more) ← delete_children delete t' cs
  ok (t'', events ++ more)

-- `childHashes.count(hash)`
abbrev pub has_child : Bytes → List Bytes → Bool
has_child k [] = false
has_child k (c ∷ cs) = bytes_eq k c || has_child k cs

abbrev pub erase_hash : Bytes → List Bytes → List Bytes
erase_hash k [] = []
erase_hash k (c ∷ cs) = if bytes_eq k c then cs else c ∷ erase_hash k cs

module _ (hashing : Hashing) where
  open hashing use {hash}

  -- The end of `deleteHeader`. What the source takes for the parent is the header that is found
  -- under the hash of the header itself.
  unfoldable pub remove_header :
      BlockTree → Bytes → ChainHeader → Result Error (Bool × BlockTree × List Event)
  remove_header t k h = do
    parent ← at_hash t.headers (hash h.header)
    guard (has_child k parent.child_hashes) assertion_failed
    ok (
      true,
      record t {
        headers = erase k (
            put (hash h.header) (record parent { child_hashes = erase_hash k parent.child_hashes })
              t.headers);
        count = t.count - 1;
      },
      deleted k ∷ [],
    )

  -- deleteHeader, on fuel.
  unfoldable pub delete_header :
      ℕ → BlockTree → Bytes → Result Error (Bool × BlockTree × List Event)
  delete_header zero t k = err stuck
  delete_header (suc fuel) t k = elim (t.headers k) [
    | none ↦ ok (false, t, [])
    | some h ↦ do
      (t1, lowered) ← unset_best_chain t k
      parent ← at_hash t1.headers (hash h.header)
      (t2, below) ← delete_children (delete_header fuel) t1 h.child_hashes
      (done, t3, events) ← remove_header t2 k h
      ok (done, t3, lowered ++ (below ++ events))
  ]
