-- ===== src/Samples/Storage.antt =====
-- The theorems on the storage format and the compaction, at concrete inputs.
use cere_db.Base.{
  ◌+◌, ◌<◌, ◌^◌, ◌≡◌, refl, inl, inr, true, false, some, List, [], ◌∷◌, ◌++◌, arith, length, All,
}
use cere_db.Error.{ok}
use cere_db.Outcome.{returned}
use cere_db.Bytes.{Bytes, to_be_bytes, to_le_bytes}
use cere_db.Index.{encode_entries, encode_sparse}
use cere_db.Key
use cere_db.Ord.{bytes_ord}
use cere_db.TreeMap
use cere_db.TreeMap.Laws.{IsSorted}
use cere_db.Record
use cere_db.Record.RoundTrip
use cere_db.Record.{put, delete}
use cere_db.Memtable
use cere_db.Memtable.{MemtableRecord, record_length}
use cere_db.Memtable.RoundTrip as VersionTrip
use cere_db.Bloom
use cere_db.Bloom.RoundTrip as BloomTrip
use cere_db.Bloom.{BloomFilterWrapper}
use cere_db.Footer
use cere_db.Footer.{SsTableFooter}
use cere_db.Footer.RoundTrip as FooterTrip
use cere_db.Block
use cere_db.Block.{Block}
use cere_db.Block.RoundTrip as BlockTrip
use cere_db.Block.RoundTrip.{total_length}
use cere_db.Block.Builder.Keys.{keys}
use cere_db.SsTable.{
  SsTableCodec, index_block, serialize, read_table, get_block, encode_blocks, index_entries,
}
use cere_db.SsTable.Blocks.{get_block-encode_blocks}
use cere_db.Compaction.{
  Merged, is_reclaimed, is_protected, merge_blocks, merge_records, offer, choose_winner,
  merge_tables, merge_files_with_reclamation, build_output,
}
use cere_db.Compaction.Winners.{Newest, table_records, block_records, merge_tables-Newest}
use cere_db.Compaction.Packing.{IsSound, IsAddable}
use cere_db.Compaction.Written.{Holds, kept, build_output-Holds, merge_files-Holds}
use cere_db.Compaction.Readback.{read_table-Holds}
use cere_db.Compaction.Partition.{partition_output}
use cere_db.Compaction.Partition.Chunks.{Partitioned, partition_output-Partitioned}
use cere_db.Samples.{sum_crc, sum_crc-lt, one_bit, one_bit_laws, old_a, new_a, no_b}

-- A log record.
abbrev put_a : Record.Record
put_a = record { offset = 0; record_type = put; timestamp = 7; key = 97 ∷ []; value = 1 ∷ 2 ∷ [] }

record-decode-encode_example :
    Record.decode sum_crc (Record.encode sum_crc put_a ++ 5 ∷ [])
    ≡ ok (record put_a { offset = 29 + 1 + 2 }, 5 ∷ [])
record-decode-encode_example =
    RoundTrip.decode-encode_record sum_crc sum_crc-lt put_a (5 ∷ [])
      (record { timestamp = omega arith; sizes = omega arith })

-- A version in a block.
abbrev pub new_a-Fits : VersionTrip.Fits new_a
new_a-Fits = record { lsn = omega arith; key = omega arith; value = omega arith }

abbrev pub no_b-Fits : VersionTrip.Fits no_b
no_b-Fits = record { lsn = omega arith; key = omega arith; value = omega arith }

version-decode-encode_example :
    Memtable.decode (Memtable.encode new_a (97 ∷ []) ++ 9 ∷ []) ≡ ok (new_a, 9 ∷ [])
version-decode-encode_example = VersionTrip.decode-encode_version new_a (9 ∷ []) new_a-Fits

length-encode_example : length (Memtable.encode new_a (97 ∷ [])) ≡ record_length new_a (97 ∷ [])
length-encode_example = VersionTrip.length-encode new_a (97 ∷ [])

bloom-decode-encode_example :
    (b : BloomFilterWrapper one_bit) × (Bloom.decode one_bit (
        Bloom.encode one_bit
          (Bloom.insert_all one_bit (Bloom.with_rate one_bit 10 0) ((97 ∷ []) ∷ (98 ∷ []) ∷ [])))
      ≡ ok (b, []))
    × All (λ k. Bloom.contains one_bit b k ≡ true) ((97 ∷ []) ∷ (98 ∷ []) ∷ [])
bloom-decode-encode_example =
    BloomTrip.decode-encode_bloom one_bit one_bit_laws 10 0 ((97 ∷ []) ∷ (98 ∷ []) ∷ [])

abbrev small_footer : SsTableFooter
small_footer = record {
  data_block_start = 0;
  data_block_end = 60;
  index_block_start = 60;
  index_block_end = 90;
  index_checksum = 7;
  bloom_block_start = 90;
  bloom_block_end = 130;
  bloom_checksum = 8;
}

async_decode-encode_example :
    Footer.async_decode sum_crc ((1 ∷ 2 ∷ []) ++ Footer.encode sum_crc small_footer)
    ≡ ok small_footer
async_decode-encode_example =
    FooterTrip.async_decode-encode sum_crc sum_crc-lt small_footer (1 ∷ 2 ∷ []) (record {
      data_block_start = omega arith;
      data_block_end = omega arith;
      index_block_start = omega arith;
      index_block_end = omega arith;
      index_checksum = omega arith;
      bloom_block_start = omega arith;
      bloom_block_end = omega arith;
      bloom_checksum = omega arith;
    })

-- A block of two versions.
abbrev pub two : List MemtableRecord
two = new_a ∷ no_b ∷ []

abbrev pub two_block : Block
two_block = record {
  offset = 0;
  first_key = 97 ∷ [];
  last_key = 98 ∷ [];
  record_count = 2;
  data_size = 38;
  records = some two;
}

two_block-Fits : BlockTrip.Fits two_block two
unfolding total_length record_length
two_block-Fits = record {
  records = refl;
  count = refl;
  size = refl;
  all_fit = (new_a-Fits, (no_b-Fits, tt));
  first_key = omega arith;
  last_key = omega arith;
  count_u32 = omega arith;
  size_u32 = omega arith;
}

abbrev before : Bytes
before = 0 ∷ 0 ∷ []

block-decode-encode_example :
    Block.decode sum_crc (length before) (before ++ (Block.encode sum_crc two_block ++ 4 ∷ []))
    ≡ ok (record two_block { offset = length before }, 4 ∷ [])
block-decode-encode_example =
    BlockTrip.decode-encode_block sum_crc sum_crc-lt two_block two before (4 ∷ []) two_block-Fits

-- A key that lies in the block, in a file of that block.
get_block-encode_blocks_example :
    get_block sum_crc
      (encode_blocks sum_crc ([] ++ two_block ∷ []) ++ 1 ∷ [])
      (record small_footer { data_block_end = length (encode_blocks sum_crc (two_block ∷ [])) })
      (index_entries sum_crc 0 ([] ++ two_block ∷ []))
      (97 ∷ 5 ∷ [])
    ≡ ok (record two_block { offset = 0 })
get_block-encode_blocks_example =
    get_block-encode_blocks sum_crc sum_crc-lt
      (record small_footer { data_block_end = length (encode_blocks sum_crc (two_block ∷ [])) }) []
      two_block [] two (1 ∷ []) (97 ∷ 5 ∷ []) refl (unfold Key.cmp in (refl, tt, tt)) two_block-Fits
      (unfold Key.cmp in (refl, refl))

-- Two tables with versions of the same key.
abbrev table : List MemtableRecord → SsTableCodec one_bit
table rs = record {
  blocks = (record two_block { records = some rs }) ∷ [];
  index = [];
  bloom = Bloom.with_rate one_bit 1 0;
}

abbrev tables : List (SsTableCodec one_bit)
tables = table (old_a ∷ []) ∷ table two ∷ []

merge_tables-Newest_example :
    (m : Merged) × (merge_tables (λ _. false) 0 [] tables ≡ ok m)
    × IsSorted m
    × ((k : Bytes) → Newest k (table_records tables) (TreeMap.get k m))
merge_tables-Newest_example = merge_tables-Newest (λ _. false) (λ t. refl) tables

-- The merge of the tables.
abbrev merged : Merged
merged = (97 ∷ [], new_a) ∷ (98 ∷ [], no_b) ∷ []

two-IsAddable : All IsAddable two
two-IsAddable = (
  record { key = λ e. ground arith; size = unfold record_length in omega arith },
  (record { key = λ e. ground arith; size = unfold record_length in omega arith }, tt),
)

build_output-Holds_example :
    (t : SsTableCodec one_bit) × (build_output sum_crc one_bit 0 two ≡ returned t)
    × Holds (Bloom.with_rate one_bit 2 0) t two
build_output-Holds_example =
    build_output-Holds sum_crc one_bit 0 two two-IsAddable
      (unfold total_length record_length in omega arith)

merge_files-Holds_example :
    (t : SsTableCodec one_bit) × (merge_files_with_reclamation sum_crc one_bit
        (λ _. false)
        (some [])
        0
        tables
      ≡ returned (ok t))
    × Holds (Bloom.with_rate one_bit 1000000 0) t (kept (some []) (TreeMap.values merged))
merge_files-Holds_example =
    merge_files-Holds sum_crc one_bit (some []) 0 merged tables
      (unfold merge_tables merge_blocks merge_records offer choose_winner TreeMap.get TreeMap.insert
          Key.cmp in
        refl)
      (unfold TreeMap.values is_reclaimed is_protected in (two-IsAddable.0, tt))
      (unfold TreeMap.values is_reclaimed is_protected total_length record_length in omega arith)

-- A table of one block.
abbrev pub written : SsTableCodec one_bit
written = record {
  blocks = two_block ∷ [];
  index = [];
  bloom = Bloom.insert_all one_bit (Bloom.with_rate one_bit 2 0) (keys two);
}

two_block-IsSound : IsSound two_block
unfolding Key.cmp total_length record_length
two_block-IsSound = record {
  rs = two;
  counted = record {
    records = refl;
    size = refl;
    count = refl;
    limit = inl (omega arith);
    size_u32 = omega arith;
    count_u32 = omega arith;
  };
  spans = (inl refl, inr (inl refl), ((refl, refl), ((refl, refl), tt)));
}

pub written-Holds : Holds (Bloom.with_rate one_bit 2 0) written two
written-Holds = record {
  content = unfold block_records in refl;
  sound = (two_block-IsSound, tt);
  filter = refl;
}

pub written-small : length (serialize sum_crc one_bit written).0 < 2 ^ 64
unfolding serialize encode_blocks Block.encode Block.covered to_be_bytes Block.encode_records
    Memtable.encode to_le_bytes index_block encode_entries index_entries encode_sparse Bloom.encode
    Bloom.encode_words Bloom.insert_all Bloom.insert Footer.encode Footer.body
written-small = omega arith

read_table-Holds_example :
    (bloom : BloomFilterWrapper one_bit) × (blocks : List Block) × (read_table sum_crc one_bit
        (serialize sum_crc one_bit written).0
      ≡ ok ((serialize sum_crc one_bit written).1, bloom, blocks))
    × (block_records blocks ≡ two)
    × All (λ k. Bloom.contains one_bit bloom k ≡ true) (keys two)
read_table-Holds_example =
    read_table-Holds sum_crc sum_crc-lt one_bit one_bit_laws 2 0 written two written-Holds
      (unfold Key.cmp in ((refl, tt), (tt, tt))) (new_a-Fits, (no_b-Fits, tt)) written-small

partition_output-Partitioned_example :
    (ts : List (SsTableCodec one_bit)) × (partition_output sum_crc one_bit 0 20 written
      ≡ returned ts)
    × Partitioned {fast = one_bit} 0 20 (block_records written.blocks) ts
partition_output-Partitioned_example =
    partition_output-Partitioned sum_crc one_bit 0 20 written
      (unfold block_records in two-IsAddable)
      (unfold block_records total_length record_length in omega arith)
