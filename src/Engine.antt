-- ===== src/Engine.antt =====
-- storage/kv2.rs, `KV2`: the memtable that is rebuilt from the log when the engine is opened. The manifest
-- gives the checkpoint; its tables, the workers and the readers are left out. Sizes fit a `usize`.
pub mod Reopen
pub mod Serve
pub mod Versions
use cere_db.Base.{
  ℕ, ◌+◌, Bool, true, ◌==◌, max, Option, none, some, List, [], ◌∷◌, length, if◌then◌else◌,
}
use cere_db.Error.{Result, ok, err, ◌>>=◌}
use cere_db.Bytes.{Bytes}
use cere_db.Record.{RecordType, put, delete}
use cere_db.Memtable
use cere_db.Manifest.{RecoveryCheckpoint}
use cere_db.Read.{MemtableMap}
use cere_db.Wal.{WalRecord}
use cere_db.Wal.Manager.{WalManager, new_inner, recover_records}
use cere_db.Wal.Segments.{Segments}
use cere_db.Wal.Owner.{register_checkpoint_owner, reclaim_checkpointed_segments}
use cere_db.Writes.{WriteComponent, insert_version}

pub record Recovered : Type 0 where
  pub memtable : MemtableMap
  pub max_lsn : ℕ
  pub total_size : ℕ

abbrev pub nothing_recovered : Recovered
nothing_recovered = record { memtable = []; max_lsn = 0; total_size = 0 }

abbrev pub recovered_value : RecordType → Bytes → Bytes
recovered_value put value = value
recovered_value delete value = []

unfoldable pub add_version : Recovered → RecordType → Bytes → Bytes → ℕ → Recovered
add_version m record_type key value lsn = record {
  memtable =
      insert_version key lsn (Memtable.new (recovered_value record_type value) record_type lsn)
        m.memtable;
  max_lsn = max m.max_lsn lsn;
  total_size = m.total_size + (length key + length (recovered_value record_type value));
}

-- A record of no known type is skipped.
unfoldable pub recover_version : Recovered → WalRecord → Recovered
unfolding add_version
recover_version m r =
    if r.record_type == 1
    then add_version m put r.key r.value r.lsn
    else if r.record_type == 2
    then add_version m delete r.key r.value r.lsn
    else m

unfoldable pub build_from : Recovered → List WalRecord → Recovered
unfolding recover_version
build_from m [] = m
build_from m (r ∷ rs) = build_from (recover_version m r) rs

unfoldable pub build_recovered_memtable : List WalRecord → Recovered
unfolding build_from
build_recovered_memtable rs = build_from nothing_recovered rs

-- What is covered is removed, or is left for later.
unfoldable pub reclaim_again : Option RecoveryCheckpoint → WalManager → WalManager
reclaim_again none w = w
reclaim_again (some c) w = (reclaim_checkpointed_segments none c w).0

abbrev pub committed_of : Option RecoveryCheckpoint → ℕ
committed_of none = 0
committed_of (some c) = c.committed_sequence

-- `token` is the identity of the owner that is registered.
unfoldable pub open_engine :
    (Bytes → ℕ) → ℕ → Segments → ℕ → Option RecoveryCheckpoint → Result WriteComponent
unfolding build_recovered_memtable reclaim_again
open_engine crc32 token files max_segment_size checkpoint =
    new_inner crc32 files max_segment_size checkpoint Bool.true >>= λ w.
    recover_records crc32 w >>= λ rs.
    let m = build_recovered_memtable rs in
    let (wal, owner) = register_checkpoint_owner token (reclaim_again checkpoint w) in
    ok (record {
      memtable = m.memtable;
      memtable_size = m.total_size;
      sequence_number = max m.max_lsn (committed_of checkpoint);
      wal_manager = wal;
      checkpoint_owner = owner;
    })
