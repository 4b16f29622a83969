-- ===== src/SsTable.antt =====
-- storage/sstable_codec.rs: a table file is its blocks, the sparse index, the Bloom filter and the
-- footer, in that order.
pub mod Blocks
pub mod RoundTrip
pub mod Whole
use cere_db.Base.{
  ℕ, zero, suc, ◌+◌, ◌-◌, Bool, Option, none, some, List, [], ◌∷◌, ◌++◌, length, drop, get_elem?,
  ltb, ◌==◌, if◌then◌else◌, Ordering,
}
use cere_db.Error.{Result, ok, err, storage_error, corrupted, ◌>>=◌}
use cere_db.Bytes.{Bytes, to_be_bytes}
use cere_db.Bytes.Reader
use cere_db.Bytes.Reader.{Reader, read_be}
use cere_db.Key.{key_lt}
use cere_db.Bloom
use cere_db.Bloom.{FastBloom, BloomFilterWrapper}
use cere_db.Index.{SparseIndexEntry, encode_entries, decode_entries}
use cere_db.Footer
use cere_db.Footer.{SsTableFooter}
use cere_db.Block
use cere_db.Block.{Block}

pub record SsTableCodec (fast : FastBloom) : Type 0 where
  pub blocks : List Block
  pub index : List SparseIndexEntry
  pub bloom : BloomFilterWrapper fast

-- What a seek to `position` and a reader make of a file; the cursor's new position is not used.
unfoldable pub read_at {ℓ} : {A : Type ℓ} → Bytes → ℕ → Reader A → Result A
read_at file position m = elim (m (drop position file)) [ ok (a, rest) ↦ ok a | err e ↦ err e ]

-- What `binary_search_by` returns.
pub data Search : Type 0 where
  found missing : ℕ → Search

-- The place where the search ends on a slice that is sorted by `f`: the first element that is not
-- `Less`. (On such a slice at most one block's range holds the key.)
unfoldable pub binary_search_by {ℓ} : {A : Type ℓ} → (A → Ordering) → ℕ → List A → Search
binary_search_by f i [] = missing i
binary_search_by f i (x ∷ xs) = elim (f x) [
  | Ordering.lt ↦ binary_search_by f (suc i) xs
  | Ordering.eq ↦ found i
  | Ordering.gt ↦ missing i
]

-- Where the range of a block lies, as seen from the key.
unfoldable pub range_cmp : Bytes → SparseIndexEntry → Ordering
range_cmp key e =
    if key_lt key e.first_key
    then Ordering.gt
    else if key_lt e.last_key key
    then Ordering.lt
    else Ordering.eq

-- The position of the block to read.
unfoldable pub index_position : List SparseIndexEntry → Bytes → Result ℕ
unfolding binary_search_by
index_position index key = elim (binary_search_by (range_cmp key) 0 index) [
  | found i ↦ ok i
  | missing zero ↦ err (storage_error "key is smaller than the first key in the index")
  | missing (suc i) ↦ ok i
]

unfoldable pub range_from_index : List SparseIndexEntry → Option (Bytes × Bytes)
range_from_index [] = none
range_from_index (e ∷ []) = some (e.first_key, e.last_key)
range_from_index (e ∷ (d ∷ es)) = elim (range_from_index (d ∷ es)) [
  | none ↦ none
  | some (_, largest) ↦ some (e.first_key, largest)
]

-- `index[index_position]`. The search ends in range, so the panic of `none` is not reached.
abbrev entry_at : List SparseIndexEntry → ℕ → Result SparseIndexEntry
entry_at index i = elim (get_elem? index i) [
  | some e ↦ ok e
  | none ↦ err (corrupted "index out of bounds")
]

-- The end of a block: the start of the next one, or the end of the data.
abbrev pub end_of : SsTableFooter → Option SparseIndexEntry → ℕ
end_of footer none = footer.data_block_end
end_of footer (some next) = next.block_offset

module _ (crc32 : Bytes → ℕ) where
  unfoldable pub encode_blocks : List Block → Bytes
  encode_blocks [] = []
  encode_blocks (b ∷ bs) = Block.encode crc32 b ++ encode_blocks bs

  -- One entry for each block, with the length of what has been written before it.
  unfoldable pub index_entries : ℕ → List Block → List SparseIndexEntry
  index_entries out_len [] = []
  index_entries out_len (b ∷ bs) =
      (record {
        first_key = b.first_key;
        block_offset = out_len;
        last_key = b.last_key;
        record_count = b.record_count;
      })
      ∷ index_entries (out_len + length (Block.encode crc32 b)) bs

  unfoldable pub get_block : Bytes → SsTableFooter → List SparseIndexEntry → Bytes → Result Block
  unfolding index_position
  get_block file footer index key = do
    position ← index_position index key
    entry ← entry_at index position
    let end = end_of footer (get_elem? index (suc position))
    if ltb end entry.block_offset
        then err (corrupted "invalid block range in sparse index")
        else read_at file entry.block_offset (Block.async_decode crc32)

  -- `for entry in index.iter()`, over what is left of the index.
  unfoldable pub get_blocks :
      Bytes → SsTableFooter → List SparseIndexEntry → List SparseIndexEntry → Result (List Block)
  get_blocks file footer index [] = ok []
  get_blocks file footer index (e ∷ es) = do
    block ← get_block file footer index e.first_key
    blocks ← get_blocks file footer index es
    ok (block ∷ blocks)

  unfoldable pub get_all_blocks :
      Bytes → SsTableFooter → List SparseIndexEntry → Result (List Block)
  unfolding get_blocks
  get_all_blocks file footer index = get_blocks file footer index index

unfoldable pub index_block : List SparseIndexEntry → Bytes
index_block indexes = to_be_bytes 8 (length indexes) ++ encode_entries indexes

-- The reader of the entries goes on where that of their number stopped.
unfoldable pub read_index : Reader (List SparseIndexEntry)
read_index = Reader.◌>>=◌ (read_be 8) decode_entries

module _ (crc32 : Bytes → ℕ) (fast : FastBloom) where
  unfoldable pub footer_of : SsTableCodec fast → SsTableFooter
  footer_of t =
      let blocks = encode_blocks crc32 t.blocks in
      let index = index_block (index_entries crc32 0 t.blocks) in
      let bloom = Bloom.encode fast t.bloom in
      record {
        data_block_start = 0;
        data_block_end = length blocks;
        index_block_start = length blocks;
        index_block_end = length (blocks ++ index);
        bloom_block_start = length (blocks ++ index);
        bloom_block_end = length ((blocks ++ index) ++ bloom);
        index_checksum = crc32 index;
        bloom_checksum = crc32 bloom;
      }

  unfoldable pub serialize : SsTableCodec fast → Bytes × SsTableFooter
  unfolding footer_of
  serialize t = (
    encode_blocks crc32 t.blocks
        ++ (index_block (index_entries crc32 0 t.blocks)
            ++ (Bloom.encode fast t.bloom ++ Footer.encode crc32 (footer_of t))),
    footer_of t,
  )

  unfoldable pub deserialize_sections :
      Bytes → Result (SsTableFooter × List SparseIndexEntry × BloomFilterWrapper fast)
  unfolding read_index
  deserialize_sections file = do
    footer ← Footer.async_decode crc32 file
    indexes ← read_at file footer.data_block_end read_index
    bloom ← read_at file footer.bloom_block_start (Bloom.decode fast)
    ok (footer, indexes, bloom)

  -- Blocks stay on disk.
  unfoldable pub deserialize : Bytes → Result (SsTableCodec fast)
  deserialize file = do
    (footer, index, bloom) ← deserialize_sections file
    ok (record { blocks = []; index = index; bloom = bloom })

  -- The reads of an input table in `compaction`: the sections, then every block of the index.
  unfoldable pub read_table : Bytes → Result (SsTableFooter × BloomFilterWrapper fast × List Block)
  read_table file = do
    (footer, index, bloom) ← deserialize_sections file
    blocks ← get_all_blocks crc32 file footer index
    ok (footer, bloom, blocks)
