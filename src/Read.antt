-- ===== src/Read.antt =====
-- storage/readmanager/read.rs: which version of a key a reader gets, from the memtable and the tables.
-- The files are a function from paths to contents; the cache of open files is transparent.
pub mod Best
pub mod Get
pub mod Levels
pub mod Merge
pub mod Scan
pub mod ScanTable
pub mod Table
use cere_db.Base.{
  ℕ, zero, suc, ltb, leb, ◌==◌, ◌&&◌, ◌||◌, not, Bool, true, false, Option, none, some, List, [],
  ◌∷◌, ◌++◌, if◌then◌else◌,
}
use cere_db.Error.{Result, ok, err, ◌>>=◌}
use cere_db.Bytes.{Bytes}
use cere_db.Key.{key_lt, key_eq}
use cere_db.Record.{RecordType, put, delete}
use cere_db.Memtable.{MemtableRecord}
use cere_db.Bloom.{FastBloom, contains}
use cere_db.Index.{SparseIndexEntry}
use cere_db.Footer.{SsTableFooter}
use cere_db.SsTable.{deserialize_sections, get_block}
use cere_db.Compaction.{records_of}
use cere_db.Manifest.{SsTableMeta}
use cere_db.Manifest.Snapshot.{SnapshotLevels}

-- `for record in records { if record.key == key { return ... } }`
unfoldable pub find_record : Bytes → List MemtableRecord → Option MemtableRecord
find_record key [] = none
find_record key (r ∷ rs) = elim (key_eq r.key key) [ true ↦ some r | false ↦ find_record key rs ]

-- `key < first_key || key > last_key`
abbrev pub is_outside : Bytes → SparseIndexEntry → Bool
is_outside key e = key_lt key e.first_key || key_lt e.last_key key

-- A record that is found ends the search.
abbrev pub or_else :
    Option MemtableRecord → Result (Option MemtableRecord) → Result (Option MemtableRecord)
or_else none rest = rest
or_else (some r) rest = ok (some r)

-- A tombstone reads as nothing.
abbrev pub visible : MemtableRecord → Option MemtableRecord
visible r = elim r.record_type [ delete ↦ none | put ↦ some r ]

unfoldable pub is_delete : RecordType → Bool
is_delete delete = Bool.true
is_delete put = Bool.false

unfoldable pub is_newer_record : MemtableRecord → MemtableRecord → Bool
unfolding is_delete
is_newer_record candidate current =
    ltb current.lsn candidate.lsn
    || (candidate.lsn == current.lsn
        && is_delete candidate.record_type
        && not (is_delete current.record_type))

module _ (crc32 : Bytes → ℕ) (fast : FastBloom) where
  -- `for index_entry in index.iter()`, over what is left of the index.
  unfoldable pub search_index :
      Bytes
      → SsTableFooter
      → List SparseIndexEntry
      → Bytes
      → List SparseIndexEntry
      → Result (Option MemtableRecord)
  search_index file footer index key [] = ok none
  search_index file footer index key (e ∷ es) =
      let rest = search_index file footer index key es in
      elim (is_outside key e) [
        | true ↦ rest
        | false ↦ get_block crc32 file footer index e.first_key >>= λ block.
            or_else (find_record key (records_of block)) rest
      ]

  unfoldable pub get_from_single_sstable : Bytes → Bytes → Result (Option MemtableRecord)
  unfolding search_index
  get_from_single_sstable file key = do
    (footer, index, bloom) ← deserialize_sections crc32 fast file
    if contains fast bloom key then search_index file footer index key index else ok none

-- `best` after one more file: the greater sequence number wins, and the earlier file on a tie.
unfoldable pub newer_of : Option MemtableRecord → Option MemtableRecord → Option MemtableRecord
newer_of best none = best
newer_of none (some r) = some r
newer_of (some b) (some r) = elim (ltb b.lsn r.lsn) [ true ↦ some r | false ↦ some b ]

-- `files.iter().rev()`
unfoldable pub reversed : List SsTableMeta → List SsTableMeta
reversed [] = []
reversed (s ∷ ss) = reversed ss ++ s ∷ []

abbrev pub visible_of : Option MemtableRecord → Option MemtableRecord
visible_of none = none
visible_of (some r) = visible r

-- The search of the levels. `get_one` is `get_from_single_sstable`, the opening of the file included.
module _ (get_one : SsTableMeta → Result (Option MemtableRecord)) where
  unfoldable pub search_all :
      Option MemtableRecord → List SsTableMeta → Result (Option MemtableRecord)
  unfolding newer_of
  search_all best [] = ok best
  search_all best (s ∷ ss) = get_one s >>= λ found. search_all (newer_of best found) ss

  unfoldable pub search_first : List SsTableMeta → Result (Option MemtableRecord)
  search_first [] = ok none
  search_first (s ∷ ss) = get_one s >>= λ found. or_else found (search_first ss)

  unfoldable pub search_level : ℕ → List SsTableMeta → Result (Option MemtableRecord)
  unfolding search_all search_first reversed
  search_level level files = elim (level == 0) [
    | true ↦ search_all none files
    | false ↦ search_first (reversed files)
  ]

  -- The first level with a version of the key decides.
  unfoldable pub search_levels : SnapshotLevels → Result (Option MemtableRecord)
  unfolding search_level
  search_levels [] = ok none
  search_levels ((level, files) ∷ ls) = search_level level files >>= λ found. elim found [
    | some r ↦ ok (visible r)
    | none ↦ search_levels ls
  ]

-- The memtable in the order of its keys and sequence numbers.
abbrev pub MemtableMap : Type 0
MemtableMap = List ((Bytes × ℕ) × MemtableRecord)

-- `range((key, 0)..=(key, sequence_number)).next_back()`
unfoldable pub latest_visible : Bytes → ℕ → MemtableMap → Option MemtableRecord
latest_visible key sequence_number [] = none
latest_visible key sequence_number (((k, lsn), r) ∷ m) =
    elim (latest_visible key sequence_number m) [
      | some later ↦ some later
      | none ↦ elim (key_eq k key && leb lsn sequence_number) [ true ↦ some r | false ↦ none ]
    ]

-- `open_file` is what the file system makes of a path.
unfoldable pub get :
    (Bytes → ℕ)
    → FastBloom
    → (Bytes → Result Bytes)
    → MemtableMap
    → SnapshotLevels
    → Bytes
    → ℕ
    → Result (Option MemtableRecord)
unfolding get_from_single_sstable search_levels latest_visible
get crc32 fast open_file memtable levels key sequence_number =
    elim (latest_visible key sequence_number memtable) [
      | some r ↦ ok (some r)
      | none ↦
          search_levels
            (λ s. open_file s.path >>= λ file. get_from_single_sstable crc32 fast file key) levels
    ]
