-- ===== src/BlockTree/File.antt =====
-- `loadFromFile` and `flushToFile` of the block tree. A file is the list of its bytes; that it is
-- there, and that reading and writing it does not fail, is left out, as the renaming of the new file.
-- `go_on` is the callback, which is constantly true where there is none.
pub mod Replay
pub mod Records
pub mod Chunks
pub mod Overrun
pub mod RoundTrip
pub mod Checked
use m_signa.Prelude.{
  ℕ, zero, suc, ◌+◌, ◌-◌, ◌%◌, ◌^◌, List, [], ◌∷◌, ◌++◌, Bool, true, false, ◌==◌, ltb, leb,
  if◌then◌else◌, length, take, drop,
}
use m_signa.Result.{Result, ok, err, guard, ◌>>=◌, ◌>>◌}
use m_signa.Bytes.{Bytes, bytes_eq, slice}
use m_signa.Bytes
use m_signa.BlockHeader.{BlockHeader, put_header, get_header}
use m_signa.BlockTree.Defs.{
  Error, ChainHeader, BlockTree, Hashing, empty_tree, tree_empty, insert_header, set_genesis_block,
}
use m_signa.BlockTree.Queries.{at_height}

-- What is thrown: `thrown` by the tree, `malformed` by the header. `out_of_bounds` is no exception:
-- it marks an access behind the end of a buffer, which is undefined.
pub data FileError : Type 0 where
  thrown : Error → FileError
  malformed : m_signa.Bytes.Error → FileError
  invalid_length checksum_error interrupted unexpected_end out_of_bounds : FileError

abbrev pub in_tree : {A : Type 0} → Result Error A → Result FileError A
in_tree (ok a) = ok a
in_tree (err e) = err (thrown e)

abbrev pub in_header : {A : Type 0} → Result m_signa.Bytes.Error A → Result FileError A
in_header (ok a) = ok a
in_header (err e) = err (malformed e)

abbrev pub in_buffer : {A : Type 0} → Result m_signa.Bytes.Error A → Result FileError A
in_buffer (ok a) = ok a
in_buffer (err e) = err out_of_bounds

module _ (hashing : Hashing) where
  open hashing use {hash}

  -- One record of `flushToFile`: the 80 bytes of the header and 4 bytes of its hash.
  unfoldable pub put_record : BlockHeader → Result FileError Bytes
  put_record h = do
    guard (leb 80 (length (put_header h))) out_of_bounds
    guard (leb 4 (length (hash h))) out_of_bounds
    ok (take 80 (put_header h) ++ take 4 (hash h))

  -- The loop of `flushToFile`, at the height `i`, with `n` heights to go.
  unfoldable pub flush_loop : BlockTree → ℕ → ℕ → Result FileError Bytes
  unfolding put_record
  flush_loop t zero i = ok []
  flush_loop t (suc n) i = do
    h ← in_tree (at_height t i)
    front ← put_record h.header
    rest ← flush_loop t n (i + 1)
    ok (front ++ rest)

  -- flushToFile: the bytes of the new file
  unfoldable pub flush_to_file : BlockTree → Result FileError Bytes
  unfolding flush_loop
  flush_to_file t = do
    guard (if t.next_height == 0 then false else true) (thrown tree_empty)
    flush_loop t t.next_height 0

  module _ (check_work : Bool) (go_on : BlockTree → Bool) where
    -- What `loadFromFile` does with a header, as number `count`.
    unfoldable pub load_header : BlockTree → ℕ → BlockHeader → Result FileError (BlockTree × ℕ)
    load_header t count header =
        if ltb 0 t.next_height
        then (do
          (added, t', events) ← in_tree (insert_header hashing t header check_work false)
          guard (if count % 10000 == 0 then go_on t' else true) interrupted
          ok (t', (count + 1) % 2 ^ 32))
        else (do
          (t', events) ← in_tree (set_genesis_block hashing t header)
          guard (go_on t') interrupted
          ok (t', (count + 1) % 2 ^ 32))

    -- What it does with the record at `pos` of the buffer.
    unfoldable pub load_record : Bytes → ℕ → BlockTree → ℕ → Result FileError (BlockTree × ℕ)
    unfolding load_header
    load_record buf pos t count = do
      bytes ← in_buffer (slice pos (pos + 80) buf)
      header ← in_header (get_header bytes)
      check ← in_buffer (slice (pos + 80) (pos + 84) buf)
      guard (bytes_eq check (take 4 (hash header))) checksum_error
      load_header t count header

    -- The loop over the buffer, on fuel, where `n` bytes were read; the bound wraps around. It
    -- returns also where it stops.
    unfoldable pub load_records :
        ℕ → Bytes → ℕ → ℕ → BlockTree → ℕ → Result FileError (BlockTree × ℕ × ℕ)
    unfolding load_record
    load_records zero buf n pos t count = err out_of_bounds
    load_records (suc fuel) buf n pos t count =
        if leb pos ((n + 2 ^ 32 - 84) % 2 ^ 32)
        then (do
          (t', count') ← load_record buf pos t count
          load_records fuel buf n (pos + 84) t' count')
        else ok (t, count, pos)

    -- The loop over the file, on fuel: 64 records at a time, as long as the last read was full. What
    -- a read does not fill of the buffer stays.
    unfoldable pub load_chunks : ℕ → Bytes → Bytes → BlockTree → ℕ → Result FileError BlockTree
    unfolding load_records
    load_chunks zero file buf t count = err unexpected_end
    load_chunks (suc fuel) file buf t count =
        let got = take 5376 file in
        let buf' = got ++ drop (length got) buf in
        do
          (t', count', pos) ← load_records 65 buf' (length got) 0 t count
          guard (pos == length got) unexpected_end
          if length got == 5376 then load_chunks fuel (drop 5376 file) buf' t' count' else ok t'

    -- loadFromFile. `buf` is what the buffer held before.
    unfoldable pub load_from_file : Bytes → Bytes → Result FileError BlockTree
    unfolding load_chunks
    load_from_file buf file = do
      guard (length file % 84 == 0) invalid_length
      load_chunks (suc (length file)) file buf empty_tree 0
