-- ===== src/Manifest/Snapshot.antt =====
-- storage/manifest_codec.rs: the snapshot of the manifest, and whether two snapshots list the same
-- tables.
use cere_db.Base.{ℕ, Bool, Option, List, [], ◌∷◌, ◌==◌, ◌&&◌}
use cere_db.Key.{key_eq}
use cere_db.Ord.{nat_ord}
use cere_db.TreeMap
use cere_db.TreeMap.{TreeMap}
use cere_db.Manifest.{SsTableMeta, RecoveryCheckpoint, Levels, ManifestState}

abbrev pub SnapshotLevels : Type 0
SnapshotLevels = TreeMap ℕ (List SsTableMeta)

pub record ManifestSnapshot : Type 0 where
  pub version : ℕ
  pub next_file_id : ℕ
  pub active_wal_segment : ℕ
  pub recovery_checkpoint : Option RecoveryCheckpoint
  pub levels : SnapshotLevels

-- `.map(|(level, files)| (*level, files.values().cloned().collect()))`
unfoldable pub levels_of : Levels → SnapshotLevels
levels_of [] = []
levels_of ((level, files) ∷ rest) = (level, TreeMap.values files) ∷ levels_of rest

unfoldable pub snapshot_from_state : ManifestState → ManifestSnapshot
unfolding levels_of
snapshot_from_state s = record {
  version = s.version;
  next_file_id = s.next_file_id;
  active_wal_segment = s.active_wal_segment;
  recovery_checkpoint = s.recovery_checkpoint;
  levels = levels_of s.levels;
}

-- The derived `PartialEq` of `SSTableMeta`.
unfoldable pub same_meta : SsTableMeta → SsTableMeta → Bool
same_meta a b =
    a.file_id == b.file_id
    && a.level == b.level
    && key_eq a.path b.path
    && a.record_count == b.record_count
    && key_eq a.smallest_key b.smallest_key
    && key_eq a.largest_key b.largest_key
    && a.bloom_offset == b.bloom_offset
    && a.bloom_size == b.bloom_size

unfoldable pub same_files : List SsTableMeta → List SsTableMeta → Bool
unfolding same_meta
same_files [] [] = Bool.true
same_files [] (b ∷ ys) = Bool.false
same_files (a ∷ xs) [] = Bool.false
same_files (a ∷ xs) (b ∷ ys) = same_meta a b && same_files xs ys

-- `==` on the maps of two snapshots.
unfoldable pub same_levels : SnapshotLevels → SnapshotLevels → Bool
unfolding same_files
same_levels [] [] = Bool.true
same_levels [] (b ∷ ys) = Bool.false
same_levels (a ∷ xs) [] = Bool.false
same_levels ((i, fs) ∷ xs) ((j, gs) ∷ ys) = i == j && same_files fs gs && same_levels xs ys
