-- ===== src/Manifest.antt =====
-- storage/manifest_codec.rs: the manifest says which tables are live. It is a log of entries, and a
-- state that the entries make.
pub mod Encode
pub mod Entries
pub mod Decode
pub mod Logged
pub mod Lookup
pub mod Manager
pub mod Operations
pub mod Replay
pub mod CompactionTrip
pub mod Restart
pub mod RoundTrip
pub mod Snapshot
use cere_db.Base.{ℕ, Option, none, []}
use cere_db.Bytes.{Bytes}
use cere_db.TreeMap.{TreeMap}

-- A path is the bytes of its string.
pub record SsTableMeta : Type 0 where
  pub file_id : ℕ
  pub level : ℕ
  pub path : Bytes
  pub record_count : ℕ
  pub smallest_key : Bytes
  pub largest_key : Bytes
  pub bloom_offset : ℕ
  pub bloom_size : ℕ

pub record RecoveryCheckpoint : Type 0 where
  pub replay_start_segment : ℕ
  pub next_physical_lsn : ℕ
  pub committed_sequence : ℕ

-- `HashMap` is taken as a sorted map: nothing depends on the order of its iteration.
abbrev pub Levels : Type 0
Levels = TreeMap ℕ (TreeMap ℕ SsTableMeta)

pub record ManifestState : Type 0 where
  pub version : ℕ
  pub next_file_id : ℕ
  pub checkpoint_lsn : ℕ
  pub active_wal_segment : ℕ
  pub recovery_checkpoint : Option RecoveryCheckpoint
  pub levels : Levels

-- `ManifestState::default()`
abbrev pub initial : ManifestState
initial = record {
  version = 1;
  next_file_id = 1;
  checkpoint_lsn = 0;
  active_wal_segment = 0;
  recovery_checkpoint = none;
  levels = [];
}

-- `ENTRY_KIND_ADD` and the others.
abbrev pub kind_add : ℕ
kind_add = 1

abbrev pub kind_remove : ℕ
kind_remove = 2

abbrev pub kind_checkpoint : ℕ
kind_checkpoint = 3

abbrev pub kind_compaction : ℕ
kind_compaction = 4

abbrev pub kind_recovery_checkpoint : ℕ
kind_recovery_checkpoint = 5

abbrev pub kind_compaction_outputs : ℕ
kind_compaction_outputs = 6
