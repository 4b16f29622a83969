-- ===== src/Manifest/Manager.antt =====
-- storage/manifest_codec.rs, `ManifestManager`: the operations that change the manifest. Each appends
-- an entry to the file and makes the same change to the state in memory. Appending succeeds here.
use cere_db.Base.{ℕ, ◌+◌, ◌^◌, Bool, true, false, List, ◌++◌, leb, ltb, map}
use cere_db.Error.{Result, ok, err, storage_error}
use cere_db.Bytes.{Bytes}
use cere_db.Manifest.{
  SsTableMeta, RecoveryCheckpoint, ManifestState, kind_add, kind_remove, kind_checkpoint,
  kind_recovery_checkpoint,
}
use cere_db.Manifest.Snapshot.{ManifestSnapshot, levels_of, same_levels}
use cere_db.Manifest.Encode.{
  encode_entry, encode_add_payload, encode_remove_payload, encode_checkpoint_payload,
  encode_recovery_payload, encode_compaction,
}
use cere_db.Manifest.Replay.{put_meta, replay_remove, replay_recovery, apply_compaction}

-- The file of the manifest, and the state behind the lock.
pub record ManifestManager : Type 0 where
  pub file : Bytes
  pub state : ManifestState

-- An entry that could be encoded is appended, and the state becomes `s`; an error changes nothing.
unfoldable pub commit :
    ManifestManager → Result Bytes → ManifestState → ManifestManager × Result (Unit {0})
commit m (err e) s = (m, err e)
commit m (ok entry) s = (record { file = m.file ++ entry; state = s }, ok tt)

unfoldable pub allocate_file_id : ManifestManager → ManifestManager × Result ℕ
allocate_file_id m = elim (ltb (m.state.next_file_id + 1) (2 ^ 64)) [
  | true ↦ (
    record m { state = record m.state { next_file_id = m.state.next_file_id + 1 } },
    ok m.state.next_file_id,
  )
  | false ↦ (m, err (storage_error "manifest file id overflow"))
]

unfoldable pub encode_payload : (Bytes → ℕ) → ℕ → Result Bytes → Result Bytes
encode_payload crc32 kind (err e) = err e
encode_payload crc32 kind (ok payload) = encode_entry crc32 kind payload

-- The identifier that follows is set last, so an overflow leaves the entry and the table in place.
unfoldable pub bump :
    SsTableMeta → ManifestManager × Result (Unit {0}) → ManifestManager × Result (Unit {0})
bump meta (m, err e) = (m, err e)
bump meta (m, ok _) = elim (leb m.state.next_file_id meta.file_id) [
  | false ↦ (m, ok tt)
  | true ↦ elim (ltb (meta.file_id + 1) (2 ^ 64)) [
    | true ↦ (record m { state = record m.state { next_file_id = meta.file_id + 1 } }, ok tt)
    | false ↦ (m, err (storage_error "manifest file id overflow"))
  ]
]

module _ (crc32 : Bytes → ℕ) where
  unfoldable pub register_sstable :
      ManifestManager → SsTableMeta → ManifestManager × Result (Unit {0})
  unfolding commit bump encode_payload
  register_sstable m meta = bump meta (
      commit m (encode_payload crc32 kind_add (encode_add_payload meta))
        (record m.state { levels = put_meta meta m.state.levels }))

  unfoldable pub remove_sstable : ManifestManager → ℕ → ℕ → ManifestManager × Result (Unit {0})
  unfolding commit
  remove_sstable m level file_id =
      commit m (encode_entry crc32 kind_remove (encode_remove_payload level file_id))
        (replay_remove m.state level file_id)

  unfoldable pub mark_checkpoint : ManifestManager → ℕ → ℕ → ManifestManager × Result (Unit {0})
  unfolding commit
  mark_checkpoint m checkpoint_lsn active_wal_segment =
      commit m
        (encode_entry crc32 kind_checkpoint
          (encode_checkpoint_payload checkpoint_lsn active_wal_segment))
        (record m.state {
          checkpoint_lsn = checkpoint_lsn;
          active_wal_segment = active_wal_segment;
        })

  unfoldable pub publish_recovery_checkpoint :
      ManifestManager → RecoveryCheckpoint → ManifestManager × Result (Unit {0})
  unfolding commit
  publish_recovery_checkpoint m c =
      commit m (encode_entry crc32 kind_recovery_checkpoint (encode_recovery_payload c))
        (replay_recovery m.state c)

abbrev pub identity_of : SsTableMeta → ℕ × ℕ
identity_of m = (m.level, m.file_id)

-- `levels != expected.levels`
abbrev pub is_expected : ManifestManager → ManifestSnapshot → Bool
is_expected m expected = same_levels (levels_of m.state.levels) expected.levels

unfoldable pub publish_compaction :
    (Bytes → ℕ)
    → ManifestManager
    → ManifestSnapshot
    → List SsTableMeta
    → List SsTableMeta
    → ManifestManager × Result (Unit {0})
unfolding commit same_levels levels_of
publish_compaction crc32 m expected inputs outputs = elim (is_expected m expected) [
  | false ↦ (m, err (storage_error "manifest changed during compaction"))
  | true ↦
      commit m (encode_compaction crc32 (map identity_of inputs) outputs)
        (apply_compaction m.state (map identity_of inputs) outputs)
]
