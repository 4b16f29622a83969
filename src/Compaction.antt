-- ===== src/Compaction.antt =====
-- storage/compactionmanager/compaction.rs: the merge of input tables into sorted output tables. The
-- file system, the manifest's leases and the choice of the input files are not here.

pub mod Written
pub mod Packing
pub mod Partition
pub mod Readback
pub mod Winners
use cere_db.Base.{
  ℕ, suc, ◌+◌, ◌-◌, ◌^◌, Bool, true, false, not, Option, none, some, List, [], ◌∷◌, ◌++◌, length,
  min, ltb, ◌&&◌, ◌||◌, if◌then◌else◌,
}
use cere_db.Error.{Result, ok, err, storage_error}
use cere_db.Outcome.{Outcome, returned, panicked, ◌>>=◌}
use cere_db.Bytes.{Bytes}
use cere_db.Key.{key_lt}
use cere_db.Ord.{bytes_ord}
use cere_db.TreeMap
use cere_db.TreeMap.{TreeMap}
use cere_db.Record.{RecordType, put, delete}
use cere_db.Memtable.{MemtableRecord, record_length}
use cere_db.Bloom
use cere_db.Bloom.{FastBloom, BloomFilterWrapper, with_rate}
use cere_db.Block.{Block}
use cere_db.Block.Builder.{
  BlockBuilder, BlockBuilderState, enough_space, full, new, add_record, build,
}
use cere_db.SsTable.{SsTableCodec}

-- Of two versions of a key, the one to keep.
choose_by_type : MemtableRecord → MemtableRecord → RecordType → RecordType → MemtableRecord
choose_by_type current candidate delete t = current
choose_by_type current candidate put delete = candidate
choose_by_type current candidate put put = current

unfoldable pub choose_winner : MemtableRecord → MemtableRecord → MemtableRecord
unfolding choose_by_type
choose_winner current candidate =
    if ltb current.lsn candidate.lsn
    then candidate
    else if ltb candidate.lsn current.lsn
    then current
    else choose_by_type current candidate current.record_type candidate.record_type

abbrev pub Merged : Type 0
Merged = TreeMap Bytes MemtableRecord

-- The body of the innermost loop: `merged_by_key.insert(key, winner)`.
unfoldable pub offer : Merged → MemtableRecord → Merged
offer m r = elim (TreeMap.get r.key m) [
  | some existing ↦ TreeMap.insert r.key (choose_winner existing r) m
  | none ↦ TreeMap.insert r.key r m
]

unfoldable pub merge_records : Merged → List MemtableRecord → Merged
merge_records m [] = m
merge_records m (r ∷ rs) = merge_records (offer m r) rs

-- `if let Some(records) = &block.data`
abbrev pub records_of : Block → List MemtableRecord
records_of b = elim b.records [ some rs ↦ rs | none ↦ [] ]

unfoldable pub merge_blocks : Merged → List Block → Merged
merge_blocks m [] = m
merge_blocks m (b ∷ bs) = merge_blocks (merge_records m (records_of b)) bs

abbrev pub cancelled {ℓ} : {A : Type ℓ} → Result A
cancelled = err (storage_error "compaction cancelled")

-- `cancel t` is the answer of the token at the `t`-th time that it is asked.
module _ {fast : FastBloom} (cancel : ℕ → Bool) where
  unfoldable pub merge_tables : ℕ → Merged → List (SsTableCodec fast) → Result Merged
  merge_tables t m [] = ok m
  merge_tables t m (s ∷ ss) =
      let rest = merge_tables (suc t) (merge_blocks m s.blocks) ss in
      if cancel t then cancelled else rest

abbrev pub KeyRange : Type 0
KeyRange = Bytes × Bytes

-- `ranges.iter().any(|(start, end)| start <= &winner.key && &winner.key <= end)`
unfoldable pub is_protected : List KeyRange → Bytes → Bool
is_protected [] key = false
is_protected ((start, last) ∷ rs) key =
    (not (key_lt key start) && not (key_lt last key)) || is_protected rs key

-- A tombstone is dropped if ranges are given and none of them holds its key.
unfoldable pub is_reclaimed : Option (List KeyRange) → MemtableRecord → Bool
is_reclaimed none w = false
is_reclaimed (some ranges) w = elim w.record_type [
  | delete ↦ not (is_protected ranges w.key)
  | put ↦ false
]

-- What `flush_winner` changes: the builder, the finished blocks and the filter.
pub record Output (fast : FastBloom) : Type 0 where
  pub builder : BlockBuilder
  pub blocks : List Block
  pub bloom : BloomFilterWrapper fast

module _ (crc32 : Bytes → ℕ) (fast : FastBloom) where
  -- After `Full` the record is added again, to the new block; that answer is not looked at.
  flush_into :
      Output fast → MemtableRecord → BlockBuilder × BlockBuilderState → Outcome (Output fast)
  flush_into o w (b, enough_space) = returned (record o { builder = b })
  flush_into o w (b, full block block_data) = do
    (b', again) ← add_record crc32 b w.key w
    returned (record o { builder = b'; blocks = o.blocks ++ block ∷ [] })

  unfoldable pub flush_winner : Output fast → MemtableRecord → Outcome (Output fast)
  unfolding flush_into
  flush_winner o w = do
    added ← add_record crc32 o.builder w.key w
    flush_into (record o { bloom = Bloom.insert fast o.bloom w.key }) w added

  unfoldable pub flush_all : Output fast → List MemtableRecord → Outcome (Output fast)
  flush_all o [] = returned o
  flush_all o (w ∷ ws) = do o' ← flush_winner o w; flush_all o' ws

  -- The last block, if there is one.
  unfoldable pub finish : Output fast → Outcome (SsTableCodec fast)
  finish o = do
    last ← build o.builder
    returned (record {
      blocks = elim last [ some (block, _) ↦ o.blocks ++ block ∷ [] | none ↦ o.blocks ];
      index = [];
      bloom = o.bloom;
    })

  abbrev pub start : BloomFilterWrapper fast → Output fast
  start bloom = record { builder = new 0; blocks = []; bloom = bloom }

  unfoldable pub build_output : fast.Rate → List MemtableRecord → Outcome (SsTableCodec fast)
  unfolding flush_all finish
  build_output rate rs = do o ← flush_all (start (with_rate fast (length rs) rate)) rs; finish o

  -- The loop over the winners. It asks the token before each.
  unfoldable pub write_winners :
      (ℕ → Bool)
      → Option (List KeyRange)
      → ℕ
      → Output fast
      → List MemtableRecord
      → Outcome (Result (Output fast))
  write_winners cancel protected t o [] = returned (ok o)
  write_winners cancel protected t o (w ∷ ws) = elim (cancel t) [
    | true ↦ returned cancelled
    | false ↦ elim (is_reclaimed protected w) [
      | true ↦ write_winners cancel protected (suc t) o ws
      | false ↦ flush_winner o w >>= λ o'. write_winners cancel protected (suc t) o' ws
    ]
  ]

  unfoldable pub finish_written : Result (Output fast) → Outcome (Result (SsTableCodec fast))
  finish_written (err e) = returned (err e)
  finish_written (ok o) = finish o >>= λ t. returned (ok t)

  unfoldable pub write_merged :
      (ℕ → Bool)
      → Option (List KeyRange)
      → fast.Rate
      → ℕ
      → Result Merged
      → Outcome (Result (SsTableCodec fast))
  write_merged cancel protected rate t (err e) = returned (err e)
  write_merged cancel protected rate t (ok m) = do
    written ←
        write_winners cancel protected t (start (with_rate fast 1000000 rate)) (TreeMap.values m)
    finish_written written

  unfoldable pub merge_files_with_reclamation :
      (ℕ → Bool)
      → Option (List KeyRange)
      → fast.Rate
      → List (SsTableCodec fast)
      → Outcome (Result (SsTableCodec fast))
  unfolding write_merged finish_written
  merge_files_with_reclamation cancel protected rate sstables =
      write_merged cancel protected rate (length sstables) (merge_tables cancel 0 [] sstables)
