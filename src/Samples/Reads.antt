-- ===== src/Samples/Reads.antt =====
-- The theorems on reads and scans, at concrete inputs.
use cere_db.Base.{
  ℕ, ◌≡◌, ◌⊎◌, ◌==◌, sym, ap, refl, inl, inr, true, false, Option, none, some, [], ◌∷◌, ◌++◌, arith,
  Has, if◌then◌else◌,
}
use cere_db.Error.{Result, ok}
use cere_db.Bytes.{Bytes}
use cere_db.Key
use cere_db.Ord.{bytes_ord}
use cere_db.TreeMap
use cere_db.TreeMap.Laws.{IsSorted}
use cere_db.Record.{put}
use cere_db.Memtable.{MemtableRecord}
use cere_db.SsTable.{serialize}
use cere_db.Compaction.{Merged, choose_winner}
use cere_db.Compaction.Winners.{Newest}
use cere_db.Manifest.{SsTableMeta}
use cere_db.Manifest.Snapshot.{SnapshotLevels}
use cere_db.Read.{
  MemtableMap, get, find_record, get_from_single_sstable, is_newer_record, search_levels,
  visible_of,
}
use cere_db.Read.Table.{get_from_single_sstable-Holds}
use cere_db.Read.Get.{Latest, get-Best}
use cere_db.Read.Best.{Best, IsLayered, all_files}
use cere_db.Read.Levels.{search_levels-Best}
use cere_db.Read.Scan.{included, excluded, ScanRange, key_in_range, ranges_overlap, scan_file}
use cere_db.Read.Merge.{eligible, choose_winner-is_newer_record, ranges_overlap-key_in_range}
use cere_db.Read.ScanTable.{scan_file-Newest}
use cere_db.Samples.{sum_crc, sum_crc-lt, one_bit, one_bit_laws, old_a, new_a}
use cere_db.Samples.Storage.{two, written, new_a-Fits, no_b-Fits, written-Holds, written-small}

get_from_single_sstable-Holds_example :
    get_from_single_sstable sum_crc one_bit (serialize sum_crc one_bit written).0 (97 ∷ [])
    ≡ ok (find_record (97 ∷ []) two)
get_from_single_sstable-Holds_example =
    get_from_single_sstable-Holds sum_crc sum_crc-lt one_bit one_bit_laws 2 0 written two (97 ∷ [])
      written-Holds (unfold Key.cmp in ((refl, tt), (tt, tt))) (new_a-Fits, (no_b-Fits, tt))
      written-small

written_lookup :
    get_from_single_sstable sum_crc one_bit (serialize sum_crc one_bit written).0 (97 ∷ [])
    ≡ ok (find_record (97 ∷ []) two)
written_lookup =
    get_from_single_sstable-Holds sum_crc sum_crc-lt one_bit one_bit_laws 2 0 written two (97 ∷ [])
      written-Holds (unfold Key.cmp in ((refl, tt), (tt, tt))) (new_a-Fits, (no_b-Fits, tt))
      written-small

-- The keys from `a` on, before `c`.
abbrev a_to_c : ScanRange
a_to_c = record { start = included (97 ∷ []); last = excluded (99 ∷ []) }

scan_file-Newest_example :
    (m : Merged) × (scan_file sum_crc one_bit a_to_c 5 [] (serialize sum_crc one_bit written).0
      ≡ ok m)
    × IsSorted m
    × ((k : Bytes) → Newest k ([] ++ eligible a_to_c 5 two) (TreeMap.get k m))
scan_file-Newest_example =
    scan_file-Newest sum_crc sum_crc-lt one_bit one_bit_laws a_to_c 5 [] [] 2 0 written two tt
      (λ k. unfold TreeMap.get in tt) written-Holds (unfold Key.cmp in ((refl, tt), (tt, tt)))
      (new_a-Fits, (no_b-Fits, tt)) written-small

choose_winner-is_newer_record_example :
    choose_winner old_a new_a ≡ (if is_newer_record new_a old_a then new_a else old_a)
choose_winner-is_newer_record_example = choose_winner-is_newer_record old_a new_a

ranges_overlap-key_in_range_example : ranges_overlap a_to_c (97 ∷ []) (100 ∷ []) ≡ true
ranges_overlap-key_in_range_example =
    ranges_overlap-key_in_range a_to_c (98 ∷ []) (97 ∷ []) (100 ∷ []) (unfold Key.cmp in refl)
      (unfold Key.cmp in refl) (unfold key_in_range Key.cmp in refl)

-- A file in level 0 that has the newer version, and one below it with the older one.
abbrev file_of : ℕ → ℕ → SsTableMeta
file_of level file_id = record {
  file_id = file_id;
  level = level;
  path = [];
  record_count = 1;
  smallest_key = 97 ∷ [];
  largest_key = 97 ∷ [];
  bloom_offset = 0;
  bloom_size = 0;
}

abbrev levels : SnapshotLevels
levels = (0, file_of 0 2 ∷ []) ∷ (1, file_of 1 1 ∷ []) ∷ []

abbrev found : SsTableMeta → Option MemtableRecord
found s = elim (s.level == 0) [ true ↦ some new_a | false ↦ some old_a ]

lsn_of : Option MemtableRecord → ℕ
lsn_of none = 0
lsn_of (some r) = r.lsn

upper_lsn :
    (s : SsTableMeta) (r : MemtableRecord) → Has s (file_of 0 2 ∷ []) → found s ≡ some r → r.lsn ≡ 3
unfolding lsn_of
upper_lsn s r (inl e) h = sym (ap lsn_of (rw e at h))
upper_lsn s r (inr e) h = absurd e

lower_lsn :
    (s : SsTableMeta) (r : MemtableRecord) → Has s (file_of 1 1 ∷ []) → found s ≡ some r → r.lsn ≡ 1
unfolding lsn_of
lower_lsn s r (inl e) h = sym (ap lsn_of (rw e at h))
lower_lsn s r (inr e) h = absurd e

levels-IsLayered : IsLayered found levels
levels-IsLayered = (
  (λ ne s t r w h i e k. absurd (ne refl)),
  (λ s t r w h i e k. omega (arith, upper_lsn s r h e, lower_lsn t w i k)),
  (
    (λ ne s t r w h i e k. omega (arith, lower_lsn s r h e, lower_lsn t w i k)),
    (λ s t r w h i e k. absurd i),
    tt,
  ),
)

search_levels-Best_example :
    (o : Option MemtableRecord) × (search_levels (λ s. ok (found s)) levels ≡ ok (visible_of o))
    × Best found o (all_files levels)
search_levels-Best_example =
    search_levels-Best (λ s. ok (found s)) found levels (λ s h. refl) levels-IsLayered

-- A memtable whose version of `a` is too new for a read at 6, and a table with an older one.
abbrev memtable : MemtableMap
memtable = ((97 ∷ [], 7), record { record_type = put; lsn = 7; key = 97 ∷ []; value = [] }) ∷ []

abbrev open_file : Bytes → Result Bytes
open_file path = ok (serialize sum_crc one_bit written).0

abbrev one_level : SnapshotLevels
one_level = (0, file_of 0 2 ∷ []) ∷ []

abbrev in_table : SsTableMeta → Option MemtableRecord
in_table s = find_record (97 ∷ []) two

get-Best_example :
    ((r : MemtableRecord) × Latest (97 ∷ []) 6 memtable (some r)
      × (get sum_crc one_bit open_file memtable one_level (97 ∷ []) 6 ≡ ok (some r)))
    ⊎ (Latest (97 ∷ []) 6 memtable none
        × ((o : Option MemtableRecord) × (get sum_crc one_bit open_file memtable one_level
                (97 ∷ [])
                6
              ≡ ok (visible_of o))
            × Best in_table o (all_files one_level)))
get-Best_example =
    get-Best (97 ∷ []) 6 sum_crc one_bit open_file memtable one_level in_table (tt, tt)
      (λ s h. written_lookup)
      ((λ ne s t r w h i e k. absurd (ne refl)), (λ s t r w h i e k. absurd i), tt)

-- A get at an old snapshot answers with a newer version that is in a table.
old_snapshot : get sum_crc one_bit open_file [] one_level (97 ∷ []) 1 ≡ ok (some new_a)
unfolding get search_levels cere_db.Read.search_level find_record Key.cmp
old_snapshot = rw (written_lookup, get, search_levels, cere_db.Read.search_level) refl
