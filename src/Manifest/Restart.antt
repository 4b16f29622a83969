-- ===== src/Manifest/Restart.antt =====
-- Sequences of operations on a new manifest, and then a restart.
use cere_db.Base.{
  ℕ, ◌+◌, ◌<◌, ◌^◌, ◌≡◌, refl, sym, ◌∙◌, Option-cases, ◌⊎◌, inl, inr, none, List, [], ◌∷◌, arith,
  All, map,
}
use cere_db.Error.{ok, eq_of_ok}
use cere_db.Bytes.{Bytes}
use cere_db.Manifest.{SsTableMeta, RecoveryCheckpoint, ManifestState, initial}
use cere_db.Manifest.Snapshot.{ManifestSnapshot}
use cere_db.Manifest.Replay.{replay_manifest}
use cere_db.Manifest.RoundTrip.{Fits, FitsRecovery}
use cere_db.Manifest.CompactionTrip.{FitRemoval}
use cere_db.Manifest.Manager.{
  ManifestManager, allocate_file_id, register_sstable, remove_sstable, mark_checkpoint,
  publish_recovery_checkpoint, publish_compaction, identity_of,
}
use cere_db.Manifest.Lookup.{lookup, HasNext, IsFresh, IsFresh-initial}
use cere_db.Manifest.Logged.{Agrees, IsLogged, replay_manifest-IsLogged}
use cere_db.Manifest.Operations.{
  allocate-IsLogged, register-IsLogged, remove-IsLogged, checkpoint-IsLogged, recover-IsLogged,
  publish-IsLogged,
}

-- The operations that change the manifest.
pub data ManifestOp : Type 0 where
  allocate : ManifestOp
  register : SsTableMeta → ManifestOp
  remove : ℕ → ℕ → ManifestOp
  checkpoint : ℕ → ℕ → ManifestOp
  recover : RecoveryCheckpoint → ManifestOp
  publish : ManifestSnapshot → List SsTableMeta → List SsTableMeta → ManifestOp

-- The arguments are of the integer types that the code gives them.
abbrev pub FitsOp : ManifestOp → Type 0
FitsOp allocate = Unit {0}
FitsOp (register m) = Fits m
FitsOp (remove level id) = (level < 2 ^ 32) × (id < 2 ^ 64)
FitsOp (checkpoint lsn segment) = (lsn < 2 ^ 64) × (segment < 2 ^ 64)
FitsOp (recover c) = FitsRecovery c
FitsOp (publish expected inputs outputs) =
    All FitRemoval (map identity_of inputs) × All Fits outputs

-- The file identifiers of tables that are registered or published are below `u64::MAX`.
abbrev pub HasNextOp : ManifestOp → Type 0
HasNextOp allocate = Unit {0}
HasNextOp (register m) = HasNext m
HasNextOp (remove level id) = Unit {0}
HasNextOp (checkpoint lsn segment) = Unit {0}
HasNextOp (recover c) = Unit {0}
HasNextOp (publish expected inputs outputs) = All HasNext outputs

module _ (crc32 : Bytes → ℕ) where
  -- The manifest after an operation, whether it succeeded or not.
  unfoldable pub perform : ManifestManager → ManifestOp → ManifestManager
  perform m allocate = (allocate_file_id m).0
  perform m (register meta) = (register_sstable crc32 m meta).0
  perform m (remove level id) = (remove_sstable crc32 m level id).0
  perform m (checkpoint lsn segment) = (mark_checkpoint crc32 m lsn segment).0
  perform m (recover c) = (publish_recovery_checkpoint crc32 m c).0
  perform m (publish expected inputs outputs) =
      (publish_compaction crc32 m expected inputs outputs).0

  unfoldable pub perform_all : ManifestManager → List ManifestOp → ManifestManager
  unfolding perform
  perform_all m [] = m
  perform_all m (op ∷ ops) = perform_all (perform m op) ops

abbrev pub new_manifest : ManifestManager
new_manifest = record { file = []; state = initial }

module _ (crc32 : Bytes → ℕ) (crc32_u32 : (bs : Bytes) → crc32 bs < 2 ^ 32) where
  perform-IsLogged :
      (P : Type 0) (m : ManifestManager) (op : ManifestOp)
      → FitsOp op
      → (P → HasNextOp op)
      → IsLogged crc32 P m
      → IsLogged crc32 P (perform crc32 m op)
  unfolding perform
  perform-IsLogged P m allocate f next h = allocate-IsLogged crc32 crc32_u32 P m h
  perform-IsLogged P m (register meta) f next h =
      register-IsLogged crc32 crc32_u32 P m meta f next h
  perform-IsLogged P m (remove level id) f next h =
      remove-IsLogged crc32 crc32_u32 P m level id f.0 f.1 h
  perform-IsLogged P m (checkpoint lsn segment) f next h =
      checkpoint-IsLogged crc32 crc32_u32 P m lsn segment f.0 f.1 h
  perform-IsLogged P m (recover c) f next h = recover-IsLogged crc32 crc32_u32 P m c f h
  perform-IsLogged P m (publish expected inputs outputs) f next h =
      publish-IsLogged crc32 crc32_u32 P m expected inputs outputs f.0 f.1 next h

  perform_all-IsLogged :
      (P : Type 0) (m : ManifestManager) (ops : List ManifestOp)
      → All FitsOp ops
      → (P → All HasNextOp ops)
      → IsLogged crc32 P m
      → IsLogged crc32 P (perform_all crc32 m ops)
  unfolding perform_all
  perform_all-IsLogged P m [] f next h = h
  perform_all-IsLogged P m (op ∷ ops) f next h =
      perform_all-IsLogged P (perform crc32 m op) ops f.1 (λ p. (next p).1)
        (perform-IsLogged P m op f.0 (λ p. (next p).0) h)

  new_manifest-IsLogged : (P : Type 0) → IsLogged crc32 P new_manifest
  new_manifest-IsLogged P = record {
    shadow = initial;
    count = 0;
    count_le = omega arith;
    replays = λ n rest. let e : n + 0 ≡ n = omega arith in rw e refl;
    agrees = record {
      version = refl;
      next_file_id = omega arith;
      active_wal_segment = refl;
      recovery_checkpoint = refl;
      levels = refl;
    };
    fresh = λ p. IsFresh-initial;
  }

  -- After any operations on a new manifest, whether each succeeded or not, the file replays without an
  -- error, and the replayed state has the version, the tables, the segment and the recovery checkpoint
  -- of the state in memory, and no greater next identifier.
  pub replay_manifest-perform_all :
      (ops : List ManifestOp)
      → All FitsOp ops
      → (s : ManifestState) × (replay_manifest crc32 (perform_all crc32 new_manifest ops).file
          ≡ ok s)
        × Agrees s (perform_all crc32 new_manifest ops).state
  replay_manifest-perform_all ops f =
      let (s, e, a, fresh) =
        replay_manifest-IsLogged crc32 (All HasNextOp ops) (perform_all crc32 new_manifest ops) (
          perform_all-IsLogged (All HasNextOp ops) new_manifest ops f (λ p. p)
            (new_manifest-IsLogged (All HasNextOp ops))) in
      (s, e, a)

  allocated-is_free :
      (m : ManifestManager) (id : ℕ)
      → IsFresh m.state
      → (allocate_file_id m).1 ≡ ok id
      → (level : ℕ) → lookup level id m.state.levels ≡ none
  unfolding allocate_file_id
  allocated-is_free m id f e level = elim (Option-cases (lookup level id m.state.levels)) [
    | inl h ↦ h
    | inr (w, h) ↦
        let below : id < m.state.next_file_id = f level id w h in
        let same : id ≡ m.state.next_file_id = ground (arith, e) in
        absurd (omega (arith, below, same))
  ]

  -- An identifier that is handed out after any operations on a new manifest, in which the file
  -- identifiers of tables that are registered or published are below `u64::MAX`, is that of no table
  -- at any level; nor is one that is handed out after a restart.
  pub allocate_file_id-lookup :
      (ops : List ManifestOp) (s : ManifestState) (id : ℕ)
      → All FitsOp ops
      → All HasNextOp ops
      → replay_manifest crc32 (perform_all crc32 new_manifest ops).file ≡ ok s
      → ((allocate_file_id (perform_all crc32 new_manifest ops)).1 ≡ ok id)
        ⊎ ((allocate_file_id
              (record { file = (perform_all crc32 new_manifest ops).file; state = s })).1
            ≡ ok id)
      → (level : ℕ) → lookup level id (perform_all crc32 new_manifest ops).state.levels ≡ none
  allocate_file_id-lookup ops s id f next e h level =
      let m : ManifestManager = perform_all crc32 new_manifest ops in
      let (s', e', a, is_fresh) = replay_manifest-IsLogged crc32 (All HasNextOp ops) m (
        perform_all-IsLogged (All HasNextOp ops) new_manifest ops f (λ p. p)
          (new_manifest-IsLogged (All HasNextOp ops))) in
      let fresh : IsFresh s' = is_fresh next in
      let same : s' ≡ s = eq_of_ok s' s (sym e' ∙ e) in
      let live : IsFresh m.state =
        λ l i w q. omega (arith, a.next_file_id, fresh l i w (rw a.levels q)) in
      elim h [
        | inl k ↦ allocated-is_free m id live k level
        | inr k ↦
            rw (sym a.levels)
              (allocated-is_free (record { file = m.file; state = s' }) id fresh (rw same k) level)
      ]
