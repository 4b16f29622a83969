-- ===== src/Manifest/Logged.antt =====
-- The file of the manifest beside its state in memory.
use cere_db.Base.{
  true, false, leb, ltb, ℕ, suc, ◌+◌, ◌-◌, ◌<◌, ◌≤◌, ◌^◌, ◌≡◌, refl, ◌∙◌, List, [], ◌∷◌, ◌++◌,
  append-nil, append_assoc, length, length-append, arith,
}
use cere_db.Error.{DbError, Result, ok, err}
use cere_db.Bytes.{Bytes}
use cere_db.Bytes.RoundTrip.{length-to_be_bytes}
use cere_db.Manifest.{SsTableMeta, RecoveryCheckpoint, ManifestState, initial}
use cere_db.Manifest.Encode.{encode_entry}
use cere_db.Manifest.Decode.{decode_entry}
use cere_db.Manifest.Replay.{
  replay_from, replay_entry, replay_add, replay_remove, replay_recovery, apply_compaction,
  add_outputs, add_output, put_meta, replay_manifest,
}
use cere_db.Manifest.RoundTrip.{entry_bytes, encode_entry-ok, decode_entry-Reads}
use cere_db.Manifest.Lookup.{IsFresh}
use cere_db.Manifest.Manager.{ManifestManager, commit}

-- A replayed state, and the state that it stands for: they say the same of tables, segments and
-- recovery; identifiers that were handed out and not used are forgotten, and so is the old
-- checkpoint's sequence number, which the replay does not restore.
pub record Agrees (s t : ManifestState) : Type 0 where
  pub version : s.version ≡ t.version
  pub next_file_id : s.next_file_id ≤ t.next_file_id
  pub active_wal_segment : s.active_wal_segment ≡ t.active_wal_segment
  pub recovery_checkpoint : s.recovery_checkpoint ≡ t.recovery_checkpoint
  pub levels : s.levels ≡ t.levels

-- What a registration makes of the state in memory.
abbrev pub registered : ManifestState → SsTableMeta → ManifestState
registered t m = record t {
  levels = put_meta m t.levels;
  next_file_id = elim (leb t.next_file_id m.file_id) [
    | true ↦ elim (ltb (m.file_id + 1) (2 ^ 64)) [ true ↦ m.file_id + 1 | false ↦ t.next_file_id ]
    | false ↦ t.next_file_id
  ];
}

pub Agrees-registered :
    (s t : ManifestState) (m : SsTableMeta)
    → m.file_id < 2 ^ 64
    → Agrees s t
    → Agrees (replay_add s m) (registered t m)
unfolding replay_add
Agrees-registered s t m small h = record {
  version = h.version;
  next_file_id = ground (arith, h.next_file_id);
  active_wal_segment = h.active_wal_segment;
  recovery_checkpoint = h.recovery_checkpoint;
  levels = rw h.levels refl;
}

pub Agrees-replay_remove :
    (s t : ManifestState) (level id : ℕ)
    → Agrees s t
    → Agrees (replay_remove s level id) (replay_remove t level id)
unfolding replay_remove
Agrees-replay_remove s t level id h = record {
  version = h.version;
  next_file_id = h.next_file_id;
  active_wal_segment = h.active_wal_segment;
  recovery_checkpoint = h.recovery_checkpoint;
  levels = rw h.levels refl;
}

pub Agrees-replay_recovery :
    (s t : ManifestState) (c : RecoveryCheckpoint)
    → Agrees s t
    → Agrees (replay_recovery s c) (replay_recovery t c)
unfolding replay_recovery
Agrees-replay_recovery s t c h = record {
  version = h.version;
  next_file_id = h.next_file_id;
  active_wal_segment = refl;
  recovery_checkpoint = refl;
  levels = h.levels;
}

Agrees-add_outputs :
    (s t : ManifestState) (ms : List SsTableMeta)
    → Agrees s t
    → Agrees (add_outputs s ms) (add_outputs t ms)
unfolding add_outputs add_output
Agrees-add_outputs s t [] h = h
Agrees-add_outputs s t (m ∷ ms) h =
    Agrees-add_outputs (add_output s m) (add_output t m) ms (record {
      version = h.version;
      next_file_id = omega (arith, h.next_file_id);
      active_wal_segment = h.active_wal_segment;
      recovery_checkpoint = h.recovery_checkpoint;
      levels = rw h.levels refl;
    })

pub Agrees-apply_compaction :
    (s t : ManifestState) (rs : List (ℕ × ℕ)) (ms : List SsTableMeta)
    → Agrees s t
    → Agrees (apply_compaction s rs ms) (apply_compaction t rs ms)
unfolding apply_compaction
Agrees-apply_compaction s t rs ms h = Agrees-add_outputs _ _ ms (record {
  version = h.version;
  next_file_id = h.next_file_id;
  active_wal_segment = h.active_wal_segment;
  recovery_checkpoint = h.recovery_checkpoint;
  levels = rw h.levels refl;
})

module _ (crc32 : Bytes → ℕ) where
  -- If `r` is an entry, the replay goes over it from `s` to `s'`.
  pub record Logs (r : Result Bytes) (s s' : ManifestState) : Type 0 where
    pub pos : (entry : Bytes) → r ≡ ok entry → 1 ≤ length entry
    pub at :
        (entry : Bytes) (n : ℕ) (rest : Bytes)
        → r ≡ ok entry
        → replay_from crc32 (suc n) s (entry ++ rest) ≡ replay_from crc32 n s' rest

  replay_from-step :
      (n : ℕ) (s s' : ManifestState) (kind : ℕ) (payload rest : Bytes) (bs : Bytes)
      → 1 ≤ length bs
      → decode_entry crc32 bs ≡ ok ((kind, payload), rest)
      → replay_entry s kind payload ≡ ok s'
      → replay_from crc32 (suc n) s bs ≡ replay_from crc32 n s' rest
  unfolding replay_from
  replay_from-step n s s' kind payload rest [] h e k = absurd (ground (arith, h))
  replay_from-step n s s' kind payload rest (b ∷ bs) h e k = rw (e, k) refl

  entry_bytes-pos :
      (kind : ℕ) (payload rest : Bytes) → 1 ≤ length (entry_bytes crc32 kind payload ++ rest)
  entry_bytes-pos kind payload rest =
      rw (length-append, length-append, length-append, length-to_be_bytes) (omega arith)

  module _ (crc32_u32 : (bs : Bytes) → crc32 bs < 2 ^ 32) where
    pub Logs-encode_entry :
        (kind : ℕ) (payload : Bytes) (s s' : ManifestState)
        → kind < 256
        → replay_entry s kind payload ≡ ok s'
        → Logs (encode_entry crc32 kind payload) s s'
    Logs-encode_entry kind payload s s' hk e = record {
      pos = λ entry h.
          let same : entry ++ [] ≡ entry = append-nil entry in
          rw (encode_entry-ok crc32 kind payload entry h).1
            (rw append-nil at (entry_bytes-pos kind payload []));
      at = λ entry n rest h.
          let (small, same) = encode_entry-ok crc32 kind payload entry h in
          rw same (
            replay_from-step n s s' kind payload rest (entry_bytes crc32 kind payload ++ rest)
              (entry_bytes-pos kind payload rest)
              ((decode_entry-Reads crc32 crc32_u32 kind payload hk small).at rest) e);
    }

    -- Anything that comes from an entry that is replayed.
    pub Logs-encoded :
        (kind : ℕ) (r : Result Bytes) (s s' : ManifestState)
        → kind < 256
        → ((entry : Bytes)
            → r ≡ ok entry
            → (payload : Bytes) × (encode_entry crc32 kind payload ≡ ok entry)
              × (replay_entry s kind payload ≡ ok s'))
        → Logs r s s'
    Logs-encoded kind r s s' hk f = record {
      pos = λ entry h.
          let (payload, e, k) = f entry h in (Logs-encode_entry kind payload s s' hk k).pos entry e;
      at = λ entry n rest h.
          let (payload, e, k) = f entry h in
          (Logs-encode_entry kind payload s s' hk k).at entry n rest e;
    }

  -- The file replays to a state that agrees with the one in memory, and each of its entries takes
  -- some bytes. If `P` holds, no table has an identifier that is still to be handed out.
  pub record IsLogged (P : Type 0) (m : ManifestManager) : Type 0 where
    pub shadow : ManifestState
    pub count : ℕ
    pub count_le : count ≤ length m.file
    pub replays :
        (n : ℕ) (rest : Bytes)
        → replay_from crc32 (n + count) initial (m.file ++ rest) ≡ replay_from crc32 n shadow rest
    pub agrees : Agrees shadow m.state
    pub fresh : P → IsFresh shadow

  commit_err :
      (P : Type 0) (m : ManifestManager) (e : DbError) (t : ManifestState)
      → IsLogged P m
      → IsLogged P (commit m (err e) t).0
  unfolding commit
  commit_err P m e t h = h

  commit_ok :
      (P : Type 0) (m : ManifestManager) (entry : Bytes) (s' t : ManifestState)
      → (h : IsLogged P m) → Logs (ok entry) h.shadow s'
      → Agrees s' t
      → (P → IsFresh s')
      → IsLogged P (commit m (ok entry) t).0
  unfolding commit
  commit_ok P m entry s' t h l a f = record {
    shadow = s';
    count = suc h.count;
    count_le = omega (arith, h.count_le, l.pos entry refl, length-append m.file entry);
    replays = λ n rest.
        let shift : n + suc h.count ≡ suc n + h.count = omega arith in
        rw (shift, append_assoc m.file entry rest)
          (h.replays (suc n) (entry ++ rest) ∙ l.at entry n rest refl);
    agrees = a;
    fresh = f;
  }

  -- An operation that appends an entry, or fails and changes nothing.
  pub commit-IsLogged :
      (P : Type 0) (m : ManifestManager) (r : Result Bytes) (t : ManifestState) (h : IsLogged P m)
      (s' : ManifestState)
      → Logs r h.shadow s'
      → Agrees s' t
      → (P → IsFresh s')
      → IsLogged P (commit m r t).0
  commit-IsLogged P m (err e) t h s' l a f = commit_err P m e t h
  commit-IsLogged P m (ok entry) t h s' l a f = commit_ok P m entry s' t h l a f

  -- What a restart makes of the file.
  pub replay_manifest-IsLogged :
      (P : Type 0) (m : ManifestManager)
      → IsLogged P m
      → (s : ManifestState) × (replay_manifest crc32 m.file ≡ ok s)
        × Agrees s m.state
        × (P → IsFresh s)
  unfolding replay_manifest replay_from
  replay_manifest-IsLogged P m h =
      let split : length m.file ≡ (length m.file - h.count) + h.count = omega (arith, h.count_le) in
      let whole : replay_from crc32 ((length m.file - h.count) + h.count) initial (m.file ++ [])
          ≡ ok h.shadow =
        h.replays (length m.file - h.count) [] in
      (h.shadow, rw (append-nil, ← split) at whole, h.agrees, h.fresh)
