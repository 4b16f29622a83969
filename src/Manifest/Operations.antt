-- ===== src/Manifest/Operations.antt =====
-- Each operation of the manifest, on its file and its state.
use cere_db.Base.{
  ℕ, ◌+◌, ◌<◌, ◌^◌, ◌≡◌, refl, leb, ltb, Bool-cases, inl, inr, List, arith, All, map,
}
use cere_db.Error.{Result-cases}
use cere_db.Bytes.{Bytes}
use cere_db.Manifest.{
  SsTableMeta, RecoveryCheckpoint, kind_add, kind_remove, kind_checkpoint, kind_recovery_checkpoint,
}
use cere_db.Manifest.Snapshot.{ManifestSnapshot}
use cere_db.Manifest.Encode.{encode_add_payload}
use cere_db.Manifest.Replay.{replay_add, replay_remove, replay_recovery, apply_compaction}
use cere_db.Manifest.RoundTrip.{Fits, FitsRecovery}
use cere_db.Manifest.CompactionTrip.{FitRemoval}
use cere_db.Manifest.Manager.{
  ManifestManager, commit, allocate_file_id, encode_payload, bump, register_sstable, remove_sstable,
  mark_checkpoint, publish_recovery_checkpoint, publish_compaction, is_expected, identity_of,
}
use cere_db.Manifest.Lookup.{
  HasNext, IsFresh-replay_add, IsFresh-replay_remove, IsFresh-apply_compaction,
}
use cere_db.Manifest.Logged.{
  registered, Agrees-registered, Agrees-replay_remove, Agrees-replay_recovery,
  Agrees-apply_compaction, Logs-encode_entry, IsLogged, commit-IsLogged,
}
use cere_db.Manifest.Entries.{
  Logs-encode_payload, replay_entry-add, replay_entry-remove, replay_entry-checkpoint,
  replay_entry-recover, Logs-encode_compaction,
}

module _ (crc32 : Bytes → ℕ) (crc32_u32 : (bs : Bytes) → crc32 bs < 2 ^ 32) (P : Type 0) where
  pub allocate-IsLogged :
      (m : ManifestManager) → IsLogged crc32 P m → IsLogged crc32 P (allocate_file_id m).0
  unfolding allocate_file_id
  allocate-IsLogged m h = elim (Bool-cases (ltb (m.state.next_file_id + 1) (2 ^ 64))) [
    | inr e ↦ rw (e, allocate_file_id) h
    | inl e ↦
        rw (e, allocate_file_id)
          (record {
            shadow = h.shadow;
            count = h.count;
            count_le = h.count_le;
            replays = h.replays;
            agrees = record {
              version = h.agrees.version;
              next_file_id = omega (arith, h.agrees.next_file_id);
              active_wal_segment = h.agrees.active_wal_segment;
              recovery_checkpoint = h.agrees.recovery_checkpoint;
              levels = h.agrees.levels;
            };
            fresh = h.fresh;
          })
  ]

  -- Registering is one commit: the state in memory has the identifier that follows, if there is one.
  register-commit :
      (m : ManifestManager) (meta : SsTableMeta)
      → (register_sstable crc32 m meta).0
        ≡ (commit m
            (encode_payload crc32 kind_add (encode_add_payload meta))
            (registered m.state meta)).0
  unfolding register_sstable commit bump
  register-commit m meta =
      elim (Result-cases (encode_payload crc32 kind_add (encode_add_payload meta))) [
        | inr (e, h) ↦ rw (h, register_sstable) refl
        | inl (entry, h) ↦ elim (Bool-cases (leb m.state.next_file_id meta.file_id)) [
          | inl e ↦ elim (Bool-cases (ltb (meta.file_id + 1) (2 ^ 64))) [
            | inl f ↦ ground (arith, h, e, f)
            | inr f ↦ ground (arith, h, e, f)
          ]
          | inr e ↦ ground (arith, h, e)
        ]
      ]

  pub register-IsLogged :
      (m : ManifestManager) (meta : SsTableMeta)
      → Fits meta
      → (P → HasNext meta)
      → IsLogged crc32 P m
      → IsLogged crc32 P (register_sstable crc32 m meta).0
  register-IsLogged m meta f next h = rw (register-commit m meta) (
      commit-IsLogged crc32 P m _ _ h (replay_add h.shadow meta)
        (Logs-encode_payload crc32 crc32_u32 kind_add _ _ _ (omega arith)
          (λ payload e. replay_entry-add crc32 crc32_u32 h.shadow meta payload f e))
        (Agrees-registered h.shadow m.state meta f.file_id h.agrees)
        (λ p. IsFresh-replay_add h.shadow meta (next p) (h.fresh p)))

  pub remove-IsLogged :
      (m : ManifestManager) (level id : ℕ)
      → level < 2 ^ 32
      → id < 2 ^ 64
      → IsLogged crc32 P m
      → IsLogged crc32 P (remove_sstable crc32 m level id).0
  unfolding remove_sstable
  remove-IsLogged m level id hl hi h =
      commit-IsLogged crc32 P m _ _ h (replay_remove h.shadow level id)
        (Logs-encode_entry crc32 crc32_u32 kind_remove _ h.shadow _ (omega arith)
          (replay_entry-remove crc32 crc32_u32 h.shadow level id hl hi))
        (Agrees-replay_remove h.shadow m.state level id h.agrees)
        (λ p. IsFresh-replay_remove h.shadow level id (h.fresh p))

  pub checkpoint-IsLogged :
      (m : ManifestManager) (lsn segment : ℕ)
      → lsn < 2 ^ 64
      → segment < 2 ^ 64
      → IsLogged crc32 P m
      → IsLogged crc32 P (mark_checkpoint crc32 m lsn segment).0
  unfolding mark_checkpoint
  checkpoint-IsLogged m lsn segment hl hs h =
      commit-IsLogged crc32 P m _ _ h (record h.shadow { active_wal_segment = segment })
        (Logs-encode_entry crc32 crc32_u32 kind_checkpoint _ h.shadow _ (omega arith)
          (replay_entry-checkpoint crc32 crc32_u32 h.shadow lsn segment hl hs))
        (record {
          version = h.agrees.version;
          next_file_id = h.agrees.next_file_id;
          active_wal_segment = refl;
          recovery_checkpoint = h.agrees.recovery_checkpoint;
          levels = h.agrees.levels;
        })
        h.fresh

  pub recover-IsLogged :
      (m : ManifestManager) (c : RecoveryCheckpoint)
      → FitsRecovery c
      → IsLogged crc32 P m
      → IsLogged crc32 P (publish_recovery_checkpoint crc32 m c).0
  unfolding publish_recovery_checkpoint
  recover-IsLogged m c f h =
      commit-IsLogged crc32 P m _ _ h (replay_recovery h.shadow c)
        (Logs-encode_entry crc32 crc32_u32 kind_recovery_checkpoint _ h.shadow _ (omega arith)
          (replay_entry-recover crc32 crc32_u32 h.shadow c f))
        (Agrees-replay_recovery h.shadow m.state c h.agrees)
        (λ p. unfold replay_recovery in h.fresh p)

  pub publish-IsLogged :
      (m : ManifestManager) (expected : ManifestSnapshot) (inputs outputs : List SsTableMeta)
      → All FitRemoval (map identity_of inputs)
      → All Fits outputs
      → (P → All HasNext outputs)
      → IsLogged crc32 P m
      → IsLogged crc32 P (publish_compaction crc32 m expected inputs outputs).0
  unfolding publish_compaction
  publish-IsLogged m expected inputs outputs h f next l =
      elim (Bool-cases (is_expected m expected)) [
        | inr e ↦ rw (e, publish_compaction) l
        | inl e ↦
            rw (e, publish_compaction)
              (commit-IsLogged crc32 P m _ _ l
                (apply_compaction l.shadow (map identity_of inputs) outputs)
                (Logs-encode_compaction crc32 crc32_u32 l.shadow (map identity_of inputs) outputs h
                  f)
                (Agrees-apply_compaction l.shadow m.state (map identity_of inputs) outputs l.agrees)
                (λ p.
                  IsFresh-apply_compaction l.shadow (map identity_of inputs) outputs (next p)
                    (l.fresh p)))
      ]
