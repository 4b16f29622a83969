-- ===== src/Wal/Owner.antt =====
-- storage/recovermanager/wal.rs, `WALManager`: the calls of the engine and of others around
-- `append_transactions`, the position of the writer and the segments that a checkpoint covers.
-- A `CheckpointOwner` is a number, which the caller of `register_checkpoint_owner` chooses as the
-- allocator does. A reclaim finds regular files only; `failing` is the removal that fails, if one does.
pub mod Untracked
pub mod Reclaim
pub mod Refused
use cere_db.Base.{
  ℕ, zero, suc, Bool, true, false, not, ◌||◌, ◌&&◌, ltb, ◌==◌, Option, none, some, List, [], ◌∷◌,
  if◌then◌else◌,
}
use cere_db.Error.{DbError, Result, ok, err, io, other, storage_error, ◌>>=◌}
use cere_db.Bytes.{Bytes}
use cere_db.Record.{RecordType}
use cere_db.Ord.{nat_ord}
use cere_db.TreeMap
use cere_db.LogStore.{LogCommand}
use cere_db.Manifest.{RecoveryCheckpoint}
use cere_db.Wal.{IdSet, WalValueRef}
use cere_db.Wal.Manager.{WalManager, Write, ensure_healthy, append_transactions}
use cere_db.Wal.Segments.{Segments, segments_from}
use cere_db.Wal.Recovery.{has_id}

abbrev pub mark_untracked_mutation : WalManager → WalManager
mark_untracked_mutation w = record w { raw_writes = Bool.true }

unfoldable pub register_checkpoint_owner : ℕ → WalManager → WalManager × Option ℕ
register_checkpoint_owner token w =
    if not w.checkpoint_owner || w.checkpoint_owner_registered then (w, none) else (
      record w { checkpoint_owner_registered = Bool.true; checkpoint_token = some token },
      some token,
    )

-- `Arc::ptr_eq` of two tokens that are there.
abbrev pub same_token : Option ℕ → Option ℕ → Bool
same_token (some t) (some o) = t == o
same_token (some t) none = Bool.false
same_token none o = Bool.false

unfoldable pub owns_recovery_checkpoints : WalManager → Option ℕ → Bool
owns_recovery_checkpoints w owner = w.checkpoint_owner && same_token w.checkpoint_token owner

unfoldable pub recovery_position : WalManager → Result (ℕ × ℕ)
recovery_position w = ensure_healthy w >>= λ _. ok (w.segment_id, w.next_lsn)

unfoldable pub trusted_recovery_position : WalManager → Result (Option (ℕ × ℕ))
trusted_recovery_position w =
    ensure_healthy w >>= λ _. if w.raw_writes then ok none else ok (some (w.segment_id, w.next_lsn))

unfoldable pub change_to_reserve : ℕ → WalManager → WalManager × Result ℕ
change_to_reserve id w = elim (ensure_healthy w) [
  | err e ↦ (w, err e)
  | ok _ ↦
      if has_id id w.sealed
      then (record w { sealed = TreeMap.remove id w.sealed }, ok id)
      else (w, err (storage_error "WAL segment is not sealed"))
]

-- The segments below the floor go one by one, in the order of their identifiers.
unfoldable pub remove_covered : Option ℕ → ℕ → Segments → IdSet → Segments × IdSet × Bool
remove_covered failing floor [] sealed = ([], sealed, Bool.true)
remove_covered none floor ((id, bytes) ∷ ss) sealed =
    let rest = remove_covered none floor ss (TreeMap.remove id sealed) in
    if ltb id floor then rest else ((id, bytes) ∷ ss, sealed, Bool.true)
remove_covered (some zero) floor ((id, bytes) ∷ ss) sealed =
    ((id, bytes) ∷ ss, sealed, not (ltb id floor))
remove_covered (some (suc n)) floor ((id, bytes) ∷ ss) sealed =
    let rest = remove_covered (some n) floor ss (TreeMap.remove id sealed) in
    if ltb id floor then rest else ((id, bytes) ∷ ss, sealed, Bool.true)

unfoldable pub reclaim_checkpointed_segments :
    Option ℕ → RecoveryCheckpoint → WalManager → WalManager × Result (Unit {0})
unfolding remove_covered
reclaim_checkpointed_segments failing c w =
    if not w.checkpoint_owner
    then (w, err (storage_error "WAL manager has no engine checkpoint authority"))
    else elim (ensure_healthy w) [
      | err e ↦ (w, err e)
      | ok _ ↦
          if ltb w.segment_id c.replay_start_segment || ltb w.next_lsn c.next_physical_lsn
          then (w, err (storage_error "WAL checkpoint is ahead of the writer state"))
          else let (files, sealed, done) =
              remove_covered failing c.replay_start_segment w.files w.sealed in
            (
              record w { files = files; sealed = sealed; checkpoint = some c },
              (if done then ok tt else err (io other)),
            )
    ]

module _ (crc32 : Bytes → ℕ) where
  unfoldable pub write_transaction :
      WalManager → List LogCommand → Write → WalManager × Result (Unit {0})
  write_transaction w commands outcome =
      let (after, r) =
        append_transactions crc32 (mark_untracked_mutation w) (commands ∷ []) Bool.false outcome in
      (after, r >>= λ _. ok tt)

  unfoldable pub write_log :
      WalManager → Bytes → Bytes → ℕ → RecordType → Write → WalManager × Result ℕ
  unfolding write_transaction
  write_log w key value lsn record_type outcome =
      let (after, r) =
        write_transaction w
          ((record { record_type = record_type; key = key; value = value; lsn = lsn }) ∷ [])
          outcome in
      (after, r >>= λ _. ok lsn)

  unfoldable pub append_engine_transactions :
      WalManager
      → List (List LogCommand)
      → Option ℕ
      → Bool
      → Write
      → WalManager × Result (List (List WalValueRef))
  append_engine_transactions w groups owner collecting outcome =
      append_transactions crc32
        (if same_token w.checkpoint_token owner then w else mark_untracked_mutation w) groups
        collecting outcome
