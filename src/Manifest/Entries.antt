-- ===== src/Manifest/Entries.antt =====
-- What each operation's entry does in a replay, beside what the operation does to the state.
use cere_db.Base.{
  ℕ, ◌<◌, ◌^◌, ◌≡◌, refl, Option, none, some, List, [], ◌∷◌, ◌++◌, append_assoc, length, arith, All,
}
use cere_db.Error.{Result, ok, err, bind-ok_lem, ◌>>=◌}
use cere_db.Bytes.{Bytes, to_be_bytes}
use cere_db.Manifest.{
  SsTableMeta, RecoveryCheckpoint, ManifestState, kind_add, kind_remove, kind_checkpoint,
  kind_compaction, kind_recovery_checkpoint, kind_compaction_outputs,
}
use cere_db.Manifest.Encode.{
  encode_entry, encode_add_payload, encode_remove_payload, encode_checkpoint_payload,
  encode_recovery_payload, encode_compaction, encode_compaction_payload, encode_outputs,
  encode_removals,
}
use cere_db.Manifest.Replay.{
  replay_entry, replay_add, replay_remove, replay_recovery, apply_compaction, outputs_of,
}
use cere_db.Manifest.RoundTrip.{
  Fits, FitsRecovery, try_u32-ok, decode_add_payload-encode, decode_remove_payload-encode,
  decode_checkpoint_payload-encode, decode_recovery_payload-encode,
}
use cere_db.Manifest.CompactionTrip.{
  FitRemoval, FitsOption, outputs_bytes, encode_removals_only, decode_compaction_payload-encode,
  decode_compaction_outputs-encode,
}
use cere_db.Manifest.Manager.{encode_payload}
use cere_db.Manifest.Logged.{Logs, Logs-encode_entry, Logs-encoded}

module _ (crc32 : Bytes → ℕ) (crc32_u32 : (bs : Bytes) → crc32 bs < 2 ^ 32) where
  -- What is encoded twice, as the payload and as the entry around it.
  pub Logs-encode_payload :
      (kind : ℕ) (r : Result Bytes) (s s' : ManifestState)
      → kind < 256
      → ((payload : Bytes) → r ≡ ok payload → replay_entry s kind payload ≡ ok s')
      → Logs crc32 (encode_payload crc32 kind r) s s'
  unfolding encode_payload
  Logs-encode_payload kind (err e) s s' hk h = record {
    pos = λ entry e. absurd (ground arith);
    at = λ entry n rest e. absurd (ground arith);
  }
  Logs-encode_payload kind (ok payload) s s' hk h =
      Logs-encode_entry crc32 crc32_u32 kind payload s s' hk (h payload refl)

  pub replay_entry-add :
      (s : ManifestState) (m : SsTableMeta) (payload : Bytes)
      → Fits m
      → encode_add_payload m ≡ ok payload
      → replay_entry s kind_add payload ≡ ok (replay_add s m)
  unfolding replay_entry
  replay_entry-add s m payload f e = ground (arith, decode_add_payload-encode m payload f e)

  pub replay_entry-remove :
      (s : ManifestState) (level id : ℕ)
      → level < 2 ^ 32
      → id < 2 ^ 64
      → replay_entry s kind_remove (encode_remove_payload level id) ≡ ok (replay_remove s level id)
  unfolding replay_entry
  replay_entry-remove s level id hl hi = ground (arith, decode_remove_payload-encode level id hl hi)

  pub replay_entry-checkpoint :
      (s : ManifestState) (lsn segment : ℕ)
      → lsn < 2 ^ 64
      → segment < 2 ^ 64
      → replay_entry s kind_checkpoint (encode_checkpoint_payload lsn segment)
        ≡ ok (record s { active_wal_segment = segment })
  unfolding replay_entry
  replay_entry-checkpoint s lsn segment hl hs =
      ground (arith, decode_checkpoint_payload-encode lsn segment hl hs)

  pub replay_entry-recover :
      (s : ManifestState) (c : RecoveryCheckpoint)
      → FitsRecovery c
      → replay_entry s kind_recovery_checkpoint (encode_recovery_payload c)
        ≡ ok (replay_recovery s c)
  unfolding replay_entry
  replay_entry-recover s c f = ground (arith, decode_recovery_payload-encode c f)

  replay_entry-compaction :
      (s : ManifestState) (rs : List (ℕ × ℕ)) (o : Option SsTableMeta) (payload : Bytes)
      → All FitRemoval rs
      → FitsOption o
      → encode_compaction_payload rs o ≡ ok payload
      → replay_entry s kind_compaction payload ≡ ok (apply_compaction s rs (outputs_of o))
  unfolding replay_entry
  replay_entry-compaction s rs o payload h f e =
      ground (arith, decode_compaction_payload-encode rs o payload h f e)

  replay_entry-outputs :
      (s : ManifestState) (rs : List (ℕ × ℕ)) (ms : List SsTableMeta) (out : Bytes)
      → All FitRemoval rs
      → All Fits ms
      → length rs < 2 ^ 32
      → length ms < 2 ^ 32
      → encode_outputs ms ≡ ok out
      → replay_entry s kind_compaction_outputs (outputs_bytes rs ms out)
        ≡ ok (apply_compaction s rs ms)
  unfolding replay_entry
  replay_entry-outputs s rs ms out h f n k e =
      ground (arith, decode_compaction_outputs-encode rs ms out h f n k e)

  Logs-compaction_one :
      (s : ManifestState) (rs : List (ℕ × ℕ)) (o : Option SsTableMeta)
      → All FitRemoval rs
      → FitsOption o
      → Logs crc32
          (encode_compaction_payload rs o >>= λ p. encode_entry crc32 kind_compaction p)
          s
          (apply_compaction s rs (outputs_of o))
  Logs-compaction_one s rs o h f =
      Logs-encoded crc32 crc32_u32 kind_compaction _ s _ (omega arith) (λ entry e.
        let (payload, e1, e2) = bind-ok_lem _ _ _ e in
        (payload, e2, replay_entry-compaction s rs o payload h f e1))

  regroup :
      (rs : List (ℕ × ℕ)) (ms : List SsTableMeta) (out payload : Bytes) (count : ℕ)
      → payload ≡ to_be_bytes 4 (length rs) ++ encode_removals rs
      → count ≡ length ms
      → payload ++ (to_be_bytes 4 count ++ out) ≡ outputs_bytes rs ms out
  regroup rs ms out payload count e k = rw (e, k, append_assoc)

  pub Logs-encode_compaction :
      (s : ManifestState) (rs : List (ℕ × ℕ)) (ms : List SsTableMeta)
      → All FitRemoval rs
      → All Fits ms
      → Logs crc32 (encode_compaction crc32 rs ms) s (apply_compaction s rs ms)
  unfolding encode_compaction
  Logs-encode_compaction s rs [] h f = Logs-compaction_one s rs none h tt
  Logs-encode_compaction s rs (m ∷ []) h f = Logs-compaction_one s rs (some m) h f.0
  Logs-encode_compaction s rs (m ∷ (n ∷ ms)) h f =
      Logs-encoded crc32 crc32_u32 kind_compaction_outputs _ s _ (omega arith) (λ entry e.
        let (payload, e1, h1) = bind-ok_lem _ _ _ e in
        let (count, e2, h2) = bind-ok_lem _ _ _ h1 in
        let (out, e3, h3) = bind-ok_lem _ _ _ h2 in
        let (small, same) = try_u32-ok (length (m ∷ (n ∷ ms))) _ count e2 in
        let (short, payload_eq) = encode_removals_only rs payload e1 in
        let whole : payload ++ (to_be_bytes 4 count ++ out) ≡ outputs_bytes rs (m ∷ (n ∷ ms)) out =
          regroup rs (m ∷ (n ∷ ms)) out payload count payload_eq same in
        let encoded : encode_entry crc32 kind_compaction_outputs
              (payload ++ (to_be_bytes 4 count ++ out))
            ≡ ok entry =
          h3 in
        (
          outputs_bytes rs (m ∷ (n ∷ ms)) out,
          rw whole at encoded,
          replay_entry-outputs s rs (m ∷ (n ∷ ms)) out h f short small e3,
        ))
