-- ===== src/Read/Scan.antt =====
-- storage/readmanager/read.rs: the scan of a range of keys, over the memtable and the tables.
use cere_db.Base.{ℕ, ◌-◌, ◌^◌, ltb, ◌&&◌, ◌||◌, not, Bool, true, false, none, some, List, [], ◌∷◌}
use cere_db.Error.{Result, ok, ◌>>=◌}
use cere_db.Bytes.{Bytes}
use cere_db.Key.{key_lt, key_eq}
use cere_db.Ord.{bytes_ord}
use cere_db.TreeMap
use cere_db.Memtable.{MemtableRecord}
use cere_db.Bloom.{FastBloom}
use cere_db.Index.{SparseIndexEntry}
use cere_db.Footer.{SsTableFooter}
use cere_db.SsTable.{deserialize_sections, get_block}
use cere_db.Compaction.{Merged, records_of}
use cere_db.Manifest.{SsTableMeta}
use cere_db.Manifest.Snapshot.{SnapshotLevels}
use cere_db.Read.{is_newer_record, is_delete, MemtableMap}

pub data Bound {ℓ} (A : Type ℓ) : Type ℓ where
  included excluded : A → Bound A
  unbounded : Bound A

pub record ScanRange : Type 0 where
  pub start : Bound Bytes
  pub last : Bound Bytes

unfoldable pub is_below : Bytes → Bound Bytes → Bool
is_below key (included start) = key_lt key start
is_below key (excluded start) = not (key_lt start key)
is_below key unbounded = Bool.false

unfoldable pub is_above : Bytes → Bound Bytes → Bool
is_above key (included last) = key_lt last key
is_above key (excluded last) = not (key_lt key last)
is_above key unbounded = Bool.false

unfoldable pub key_in_range : Bytes → ScanRange → Bool
unfolding is_below is_above
key_in_range key range = not (is_below key range.start) && not (is_above key range.last)

-- The key of a bound, if it has one, makes the test; `unbounded` lets all pass.
unfoldable pub ends_before : Bytes → Bound Bytes → Bool
ends_before end_key (included start) = key_lt end_key start
ends_before end_key (excluded start) = key_lt end_key start
ends_before end_key unbounded = Bool.false

unfoldable pub starts_after : Bytes → Bound Bytes → Bool
starts_after start_key (included last) = key_lt last start_key
starts_after start_key (excluded last) = key_lt last start_key
starts_after start_key unbounded = Bool.false

unfoldable pub ranges_overlap : ScanRange → Bytes → Bytes → Bool
unfolding ends_before starts_after
ranges_overlap range sst_start sst_end =
    not (starts_after sst_start range.last) && not (ends_before sst_end range.start)

-- `collect_range_bounds`: the bounds on pairs of a key and a sequence number.
unfoldable pub start_bound : Bound Bytes → Bound (Bytes × ℕ)
start_bound (included key) = included (key, 0)
start_bound (excluded key) = excluded (key, 2 ^ 64 - 1)
start_bound unbounded = unbounded

unfoldable pub end_bound : Bound Bytes → Bound (Bytes × ℕ)
end_bound (included key) = included (key, 2 ^ 64 - 1)
end_bound (excluded key) = excluded (key, 0)
end_bound unbounded = unbounded

abbrev pub pair_lt : Bytes × ℕ → Bytes × ℕ → Bool
pair_lt a b = key_lt a.0 b.0 || (key_eq a.0 b.0 && ltb a.1 b.1)

-- Whether `SkipMap::range` gives the entry.
unfoldable pub after_start : Bytes × ℕ → Bound (Bytes × ℕ) → Bool
after_start a (included b) = not (pair_lt a b)
after_start a (excluded b) = pair_lt b a
after_start a unbounded = Bool.true

unfoldable pub before_end : Bytes × ℕ → Bound (Bytes × ℕ) → Bool
before_end a (included b) = not (pair_lt b a)
before_end a (excluded b) = pair_lt a b
before_end a unbounded = Bool.true

-- The version replaces what has been merged if that is older.
unfoldable pub offer_newer : Bytes → Merged → MemtableRecord → Merged
unfolding is_newer_record
offer_newer key merged r = elim (TreeMap.get key merged) [
  | none ↦ TreeMap.insert key r merged
  | some current ↦ elim (is_newer_record r current) [
    | true ↦ TreeMap.insert key r merged
    | false ↦ merged
  ]
]

unfoldable pub scan_memtable : ScanRange → ℕ → Merged → MemtableMap → Merged
unfolding after_start before_end start_bound end_bound offer_newer
scan_memtable range sequence_number merged [] = merged
scan_memtable range sequence_number merged ((k, r) ∷ m) =
    elim (after_start k (start_bound range.start)
      && before_end k (end_bound range.last)
      && not (ltb sequence_number k.1)) [
        | true ↦ scan_memtable range sequence_number (offer_newer k.0 merged r) m
        | false ↦ scan_memtable range sequence_number merged m
      ]

-- `for record in records`, in `scan_single_sstable`.
unfoldable pub scan_records : ScanRange → ℕ → Merged → List MemtableRecord → Merged
unfolding offer_newer key_in_range
scan_records range sequence_number merged [] = merged
scan_records range sequence_number merged (r ∷ rs) =
    elim (not (ltb sequence_number r.lsn) && key_in_range r.key range) [
      | true ↦ scan_records range sequence_number (offer_newer r.key merged r) rs
      | false ↦ scan_records range sequence_number merged rs
    ]

module _ (crc32 : Bytes → ℕ) (fast : FastBloom) (range : ScanRange) (sequence_number : ℕ) where
  -- `for index_entry in index.iter()`, over what is left of the index.
  unfoldable pub scan_index :
      Bytes → SsTableFooter → List SparseIndexEntry → Merged → List SparseIndexEntry → Result Merged
  unfolding scan_records
  scan_index file footer index merged [] = ok merged
  scan_index file footer index merged (e ∷ es) =
      elim (ranges_overlap range e.first_key e.last_key) [
        | false ↦ scan_index file footer index merged es
        | true ↦ get_block crc32 file footer index e.first_key >>= λ block.
            scan_index file footer index
              (scan_records range sequence_number merged (records_of block)) es
      ]

  unfoldable pub scan_file : Merged → Bytes → Result Merged
  unfolding scan_index
  scan_file merged file = do
    (footer, index, bloom) ← deserialize_sections crc32 fast file
    scan_index file footer index merged index

  module _ (open_file : Bytes → Result Bytes) where
    unfoldable pub scan_single_sstable : Merged → SsTableMeta → Result Merged
    unfolding scan_file ranges_overlap
    scan_single_sstable merged s = elim (ranges_overlap range s.smallest_key s.largest_key) [
      | false ↦ ok merged
      | true ↦ open_file s.path >>= λ file. scan_file merged file
    ]

    -- The files of a level, and the levels in order.
    unfoldable pub scan_files : Merged → List SsTableMeta → Result Merged
    unfolding scan_single_sstable
    scan_files merged [] = ok merged
    scan_files merged (s ∷ ss) = scan_single_sstable merged s >>= λ merged'. scan_files merged' ss

    unfoldable pub scan_sstables : Merged → SnapshotLevels → Result Merged
    unfolding scan_files
    scan_sstables merged [] = ok merged
    scan_sstables merged ((level, files) ∷ ls) =
        scan_files merged files >>= λ merged'. scan_sstables merged' ls

-- `.filter(|(_, record)| record.record_type != RecordType::Delete)`; the map is in key order.
unfoldable pub drop_deleted : Merged → List (Bytes × MemtableRecord)
drop_deleted [] = []
drop_deleted ((k, r) ∷ m) =
    let rest = drop_deleted m in
    elim (is_delete r.record_type) [ true ↦ rest | false ↦ (k, r) ∷ rest ]

unfoldable pub scan_records_range :
    (Bytes → ℕ)
    → FastBloom
    → (Bytes → Result Bytes)
    → MemtableMap
    → SnapshotLevels
    → ScanRange
    → ℕ
    → Result (List (Bytes × MemtableRecord))
unfolding scan_memtable scan_sstables drop_deleted
scan_records_range crc32 fast open_file memtable levels range sequence_number = do
  merged ←
      scan_sstables crc32 fast range sequence_number open_file
        (scan_memtable range sequence_number [] memtable) levels
  ok (drop_deleted merged)
