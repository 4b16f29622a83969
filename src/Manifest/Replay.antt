-- ===== src/Manifest/Replay.antt =====
-- storage/manifest_codec.rs: what the entries of the manifest do to its state, and the replay.
use cere_db.Base.{
  ℕ, zero, suc, ◌+◌, ◌%◌, ◌^◌, max, true, false, Option, none, some, List, [], ◌∷◌, length, leb,
  ◌==◌, if◌then◌else◌,
}
use cere_db.Error.{Result, ok, err, corrupted, ◌>>=◌}
use cere_db.Bytes.{Bytes}
use cere_db.Ord.{nat_ord}
use cere_db.TreeMap
use cere_db.TreeMap.{TreeMap}
use cere_db.Manifest.{
  SsTableMeta, RecoveryCheckpoint, Levels, ManifestState, initial, kind_add, kind_remove,
  kind_checkpoint, kind_compaction, kind_recovery_checkpoint, kind_compaction_outputs,
}
use cere_db.Manifest.Decode.{
  decode_entry, decode_add_payload, decode_remove_payload, decode_compaction_payload,
  decode_compaction_outputs, decode_checkpoint_payload, decode_recovery_payload,
}

abbrev pub or_default : Option (TreeMap ℕ SsTableMeta) → TreeMap ℕ SsTableMeta
or_default none = []
or_default (some files) = files

-- `levels.entry(level).or_default().insert(file_id, meta)`
unfoldable pub put_meta : SsTableMeta → Levels → Levels
put_meta m levels =
    TreeMap.insert m.level (TreeMap.insert m.file_id m (or_default (TreeMap.get m.level levels)))
      levels

-- A level whose files are all gone is removed.
unfoldable pub settle : ℕ → TreeMap ℕ SsTableMeta → Levels → Levels
settle level [] levels = TreeMap.remove level levels
settle level (f ∷ files) levels = TreeMap.insert level (f ∷ files) levels

-- `if let Some(files) = levels.get_mut(&level) { files.remove(&file_id); ... }`
unfoldable pub drop_meta : ℕ → ℕ → Levels → Levels
unfolding settle
drop_meta level file_id levels = elim (TreeMap.get level levels) [
  | none ↦ levels
  | some files ↦ settle level (TreeMap.remove file_id files) levels
]

unfoldable pub drop_all : List (ℕ × ℕ) → Levels → Levels
unfolding drop_meta
drop_all [] levels = levels
drop_all ((level, file_id) ∷ rs) levels = drop_all rs (drop_meta level file_id levels)

-- `file_id + 1` wraps in a release build.
abbrev pub id_after : ℕ → ℕ
id_after file_id = (file_id + 1) % 2 ^ 64

unfoldable pub add_output : ManifestState → SsTableMeta → ManifestState
unfolding put_meta
add_output s m = record s {
  next_file_id = max s.next_file_id (id_after m.file_id);
  levels = put_meta m s.levels;
}

unfoldable pub add_outputs : ManifestState → List SsTableMeta → ManifestState
unfolding add_output
add_outputs s [] = s
add_outputs s (m ∷ ms) = add_outputs (add_output s m) ms

unfoldable pub apply_compaction : ManifestState → List (ℕ × ℕ) → List SsTableMeta → ManifestState
unfolding drop_all add_outputs
apply_compaction s removals outputs =
    add_outputs (record s { levels = drop_all removals s.levels }) outputs

unfoldable pub replay_add : ManifestState → SsTableMeta → ManifestState
unfolding put_meta
replay_add s m = record s {
  levels = put_meta m s.levels;
  next_file_id = elim (leb s.next_file_id m.file_id) [
    | true ↦ id_after m.file_id
    | false ↦ s.next_file_id
  ];
}

unfoldable pub replay_remove : ManifestState → ℕ → ℕ → ManifestState
unfolding drop_meta
replay_remove s level file_id = record s { levels = drop_meta level file_id s.levels }

unfoldable pub replay_recovery : ManifestState → RecoveryCheckpoint → ManifestState
replay_recovery s c = record s {
  active_wal_segment = c.replay_start_segment;
  recovery_checkpoint = some c;
}

abbrev pub outputs_of : Option SsTableMeta → List SsTableMeta
outputs_of none = []
outputs_of (some m) = m ∷ []

-- The body of the loop: `match kind`.
unfoldable pub replay_entry : ManifestState → ℕ → Bytes → Result ManifestState
unfolding replay_add replay_remove replay_recovery apply_compaction
replay_entry s kind payload =
    if kind == kind_add
    then (decode_add_payload payload >>= λ m. ok (replay_add s m))
    else if kind == kind_remove
    then (decode_remove_payload payload >>= λ r. ok (replay_remove s r.0 r.1))
    else if kind == kind_compaction
    then (decode_compaction_payload payload >>= λ c. ok (apply_compaction s c.0 (outputs_of c.1)))
    else if kind == kind_compaction_outputs
    then (decode_compaction_outputs payload >>= λ c. ok (apply_compaction s c.0 c.1))
    else if kind == kind_checkpoint
    then (decode_checkpoint_payload payload >>= λ c. ok (record s { active_wal_segment = c.1 }))
    else if kind == kind_recovery_checkpoint
    then (decode_recovery_payload payload >>= λ c. ok (replay_recovery s c))
    else err (corrupted "unknown manifest entry kind")

-- `while offset < data.len()`, on fuel: each entry takes bytes away, so the length is enough.
unfoldable pub replay_from : (Bytes → ℕ) → ℕ → ManifestState → Bytes → Result ManifestState
unfolding replay_entry
replay_from crc32 fuel s [] = ok s
replay_from crc32 zero s (b ∷ bs) = err (corrupted "out of fuel")
replay_from crc32 (suc fuel) s (b ∷ bs) = decode_entry crc32 (b ∷ bs) >>= λ e.
    replay_entry s e.0.0 e.0.1 >>= λ s'. replay_from crc32 fuel s' e.1

unfoldable pub replay_manifest : (Bytes → ℕ) → Bytes → Result ManifestState
unfolding replay_from
replay_manifest crc32 content = replay_from crc32 (length content) initial content
