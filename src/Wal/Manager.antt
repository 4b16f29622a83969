-- ===== src/Wal/Manager.antt =====
-- storage/recovermanager/wal.rs, `WALManager`: the writer of the log, and the recovery.
use cere_db.Base.{
  not, ℕ, ◌+◌, ◌-◌, ◌%◌, ◌^◌, Bool, ◌&&◌, ltb, min, Option, none, some, List, [], ◌∷◌, ◌++◌, length,
  take, if◌then◌else◌,
}
use cere_db.Error.{already_exists, Result, ok, err, io, other, storage_error, ◌>>=◌}
use cere_db.Bytes.{Bytes}
use cere_db.Ord.{nat_ord}
use cere_db.TreeMap
use cere_db.TreeMap.{TreeMap}
use cere_db.LogStore.{LogCommand}
use cere_db.Manifest.{RecoveryCheckpoint}
use cere_db.Wal.{
  WalRecord, Analysis, IdSet, WalValueRef, RecoveredWalUpdate, wal_header_size, wal_version,
  max_group_count,
}
use cere_db.Wal.Codec.{decode_record_type}
use cere_db.Wal.Plan.{Plan, plan_transactions, all_receipts}
use cere_db.Wal.Recovery.{redo, redo_with_refs}
use cere_db.Wal.Segments.{
  is_missing, Segments, segment_paths, floor_of, analysis_from, create_segment, size_of, ids_of,
  scan_all, active_segment,
}
use cere_db.Wal.Scan.{repair, reject}
use cere_db.Wal.Header.{encode, default_header}

-- `WALManager` with its `WriterState` and its directory. `file` is the segment `segment_id`.
pub record WalManager : Type 0 where
  pub files : Segments
  pub segment_id : ℕ
  pub size : ℕ
  pub next_lsn : ℕ
  pub poisoned : Bool
  pub sealed : IdSet
  pub checkpoint : Option RecoveryCheckpoint
  pub max_segment_size : ℕ
  pub raw_writes : Bool
  pub checkpoint_owner : Bool
  pub checkpoint_owner_registered : Bool
  pub checkpoint_token : Option ℕ

-- What becomes of the write of a group: it is on disk, or it fails with its first bytes in the file.
pub data Write : Type 0 where
  written : Write
  torn : ℕ → Write

unfoldable pub ensure_healthy : WalManager → Result (Unit {0})
ensure_healthy w =
    if w.poisoned
    then err (storage_error "WAL write interrupted or failed; reopen before reuse")
    else ok tt

unfoldable pub file_of : WalManager → Bytes
file_of w = elim (TreeMap.get w.segment_id w.files) [ some bytes ↦ bytes | none ↦ [] ]

-- `write_all` on the active segment.
unfoldable pub write_file : WalManager → Bytes → WalManager
unfolding file_of
write_file w bytes = record w { files = TreeMap.insert w.segment_id (file_of w ++ bytes) w.files }

unfoldable pub write_group : WalManager → Bytes → ℕ → Write → WalManager × Result (Unit {0})
unfolding write_file
write_group w bytes next_lsn written = (
  record (write_file w bytes) {
    size = w.size + length bytes;
    next_lsn = next_lsn;
    poisoned = Bool.false;
  },
  ok tt,
)
write_group w bytes next_lsn (torn n) =
    (record (write_file w (take n bytes)) { poisoned = Bool.true }, err (io other))

abbrev pub start_plan : WalManager → Plan
start_plan w = record { bytes = []; next_lsn = w.next_lsn; planned = [] }

module _ (crc32 : Bytes → ℕ) where
  unfoldable pub new_inner : Segments → ℕ → Option RecoveryCheckpoint → Bool → Result WalManager
  unfolding segment_paths analysis_from scan_all active_segment size_of ids_of
  new_inner directory max_segment_size checkpoint checkpoint_owner =
      segment_paths directory (floor_of checkpoint) >>= λ paths.
      analysis_from Bool.false checkpoint >>= λ a.
      scan_all crc32 repair wal_version a directory paths >>= λ r.
      active_segment crc32 paths r >>= λ active. ok (record {
        files = active.1;
        segment_id = active.0;
        size = size_of active.0 active.1;
        next_lsn = (r.analysis.latest_lsn + 1) % 2 ^ 64;
        poisoned = Bool.false;
        sealed = TreeMap.remove active.0 (ids_of paths);
        checkpoint = checkpoint;
        max_segment_size = max_segment_size;
        raw_writes = Bool.false;
        checkpoint_owner = checkpoint_owner;
        checkpoint_owner_registered = Bool.false;
        checkpoint_token = none;
      })

  -- The state is as it was if there is an error.
  unfoldable pub rotate_locked : WalManager → Result WalManager
  unfolding create_segment
  rotate_locked w =
      if ltb (w.segment_id + 1) (2 ^ 64)
      then (create_segment crc32 (w.segment_id + 1) w.files >>= λ files. ok (record w {
        files = files;
        sealed = TreeMap.insert w.segment_id tt w.sealed;
        segment_id = w.segment_id + 1;
        size = wal_header_size;
      }))
      else err (storage_error "WAL segment ID exhausted")

  unfoldable pub rotate_wal_file : WalManager → WalManager × Result ℕ
  unfolding ensure_healthy rotate_locked
  rotate_wal_file w = elim (ensure_healthy w) [
    | err e ↦ (w, err e)
    | ok _ ↦ elim (rotate_locked w) [
      | err e ↦ (record w { poisoned = Bool.true }, err e)
      | ok r ↦ (r, ok r.segment_id)
    ]
  ]

  -- A rotation that fails, or is interrupted, with the first `n` bytes of the header in the new segment.
  unfoldable pub interrupt_rotation : ℕ → WalManager → WalManager × Result ℕ
  unfolding ensure_healthy is_missing
  interrupt_rotation n w = elim (ensure_healthy w) [
    | err e ↦ (w, err e)
    | ok _ ↦
        if not (ltb (w.segment_id + 1) (2 ^ 64))
        then (record w { poisoned = Bool.true }, err (storage_error "WAL segment ID exhausted"))
        else if is_missing (w.segment_id + 1) w.files
        then (
          record w {
            files =
                TreeMap.insert (w.segment_id + 1) (take n (encode crc32 default_header)) w.files;
            poisoned = Bool.true;
          },
          err (io other),
        )
        else (record w { poisoned = Bool.true }, err (io already_exists))
  ]

  -- A group that does not fit goes into a new segment.
  unfoldable pub make_room : WalManager → Bytes → Result WalManager
  unfolding rotate_locked
  make_room w bytes =
      if ltb wal_header_size w.size
        && ltb w.max_segment_size (min (w.size + length bytes) (2 ^ 64 - 1))
      then rotate_locked w
      else ok w

  unfoldable pub append_planned :
      WalManager → Plan → Write → WalManager × Result (List (List WalValueRef))
  unfolding make_room write_group
  append_planned w p outcome = elim (make_room w p.bytes) [
    | err e ↦ (record w { poisoned = Bool.true }, err e)
    | ok r ↦ elim (all_receipts r.segment_id r.size p.planned) [
      | err e ↦ (record r { poisoned = Bool.true }, err e)
      | ok receipts ↦
          let (after, result) = write_group r p.bytes p.next_lsn outcome in
          (after, result >>= λ _. ok receipts)
    ]
  ]

  unfoldable pub append_transactions :
      WalManager
      → List (List LogCommand)
      → Bool
      → Write
      → WalManager × Result (List (List WalValueRef))
  unfolding ensure_healthy append_planned
  append_transactions w [] collecting outcome = (w, ok [])
  append_transactions w (g ∷ gs) collecting outcome =
      if ltb max_group_count (length (g ∷ gs))
      then (w, err (storage_error "WAL transaction group exceeds count limit"))
      else elim (ensure_healthy w) [
        | err e ↦ (w, err e)
        | ok _ ↦ elim (plan_transactions crc32 collecting (start_plan w) (g ∷ gs)) [
          | err e ↦ (w, err e)
          | ok p ↦ append_planned w p outcome
        ]
      ]

  unfoldable pub analyze_committed : WalManager → Bool → Result Analysis
  unfolding ensure_healthy analysis_from segment_paths scan_all
  analyze_committed w track_refs = ensure_healthy w >>= λ _.
      analysis_from track_refs w.checkpoint >>= λ a.
      segment_paths w.files (floor_of w.checkpoint) >>= λ paths.
      scan_all crc32 reject wal_version a w.files paths >>= λ r. ok r.analysis

  unfoldable pub recover_records : WalManager → Result (List WalRecord)
  unfolding analyze_committed
  recover_records w = analyze_committed w Bool.false >>= λ a. ok (redo a)

  unfoldable pub recover_records_with_refs : WalManager → Result (List RecoveredWalUpdate)
  unfolding analyze_committed
  recover_records_with_refs w = analyze_committed w Bool.true >>= λ a. redo_with_refs crc32 a

-- The records as commands again.
unfoldable pub commands_of : List WalRecord → Result (List LogCommand)
commands_of [] = ok []
commands_of (r ∷ rs) = decode_record_type r.record_type >>= λ t. commands_of rs >>= λ cs.
    ok ((record { record_type = t; key = r.key; value = r.value; lsn = r.lsn }) ∷ cs)

unfoldable pub recover_commands : (Bytes → ℕ) → WalManager → Result (List LogCommand)
unfolding recover_records commands_of
recover_commands crc32 w = recover_records crc32 w >>= commands_of
