-- ===== src/Manifest/Encode.antt =====
-- storage/manifest_codec.rs: the binary form of the manifest's entries.
use cere_db.Base.{ℕ, ◌^◌, true, false, Option, none, some, List, [], ◌∷◌, ◌++◌, length, ltb}
use cere_db.Error.{DbError, Result, ok, err, storage_error, ◌>>=◌}
use cere_db.Bytes.{Bytes, to_be_bytes}
use cere_db.Manifest.{SsTableMeta, RecoveryCheckpoint, kind_compaction, kind_compaction_outputs}

-- `u32::try_from(n)`, with the error that it is mapped to.
unfoldable pub try_u32 : ℕ → DbError → Result ℕ
try_u32 n e = elim (ltb n (2 ^ 32)) [ true ↦ ok n | false ↦ err e ]

unfoldable pub encode_entry : (Bytes → ℕ) → ℕ → Bytes → Result Bytes
unfolding try_u32
encode_entry crc32 kind payload = do
  payload_len ← try_u32 (length payload) (storage_error "manifest entry payload too large")
  let bytes = to_be_bytes 1 kind ++ (to_be_bytes 4 payload_len ++ payload)
  ok (bytes ++ to_be_bytes 4 (crc32 bytes))

-- `push_bytes`: what it appends.
unfoldable pub push_bytes : Bytes → Result Bytes
unfolding try_u32
push_bytes value = do
  len ← try_u32 (length value) (storage_error "field length exceeds u32")
  ok (to_be_bytes 4 len ++ value)

unfoldable pub encode_add_payload : SsTableMeta → Result Bytes
unfolding push_bytes
encode_add_payload m = do
  path ← push_bytes m.path
  smallest ← push_bytes m.smallest_key
  largest ← push_bytes m.largest_key
  ok (
      to_be_bytes 4 m.level
      ++ (to_be_bytes 8 m.file_id
          ++ (to_be_bytes 8 m.record_count
              ++ (path
                  ++ (to_be_bytes 8 m.bloom_offset
                      ++ (to_be_bytes 8 m.bloom_size ++ (smallest ++ largest)))))))

unfoldable pub encode_remove_payload : ℕ → ℕ → Bytes
encode_remove_payload level file_id = to_be_bytes 4 level ++ to_be_bytes 8 file_id

unfoldable pub encode_removals : List (ℕ × ℕ) → Bytes
unfolding encode_remove_payload
encode_removals [] = []
encode_removals ((level, file_id) ∷ rs) = encode_remove_payload level file_id ++ encode_removals rs

-- `if let Some(meta) = output`
unfoldable pub encode_output : Option SsTableMeta → Result Bytes
encode_output none = ok []
encode_output (some m) = encode_add_payload m

unfoldable pub encode_compaction_payload : List (ℕ × ℕ) → Option SsTableMeta → Result Bytes
unfolding try_u32 encode_output
encode_compaction_payload removals output = do
  count ← try_u32 (length removals) (storage_error "too many compaction inputs")
  added ← encode_output output
  ok (to_be_bytes 4 count ++ (encode_removals removals ++ added))

-- `for meta in &outputs`, in `publish_compaction`.
unfoldable pub encode_outputs : List SsTableMeta → Result Bytes
unfolding encode_add_payload push_bytes
encode_outputs [] = ok []
encode_outputs (m ∷ ms) = do
  payload ← encode_add_payload m
  output ← push_bytes payload
  rest ← encode_outputs ms
  ok (output ++ rest)

unfoldable pub encode_checkpoint_payload : ℕ → ℕ → Bytes
encode_checkpoint_payload checkpoint_lsn active_wal_segment =
    to_be_bytes 8 checkpoint_lsn ++ to_be_bytes 8 active_wal_segment

unfoldable pub encode_recovery_payload : RecoveryCheckpoint → Bytes
encode_recovery_payload c =
    to_be_bytes 8 c.replay_start_segment
    ++ (to_be_bytes 8 c.next_physical_lsn ++ to_be_bytes 8 c.committed_sequence)

-- The entry of a compaction: one kind for at most one output, and another for more.
unfoldable pub encode_compaction : (Bytes → ℕ) → List (ℕ × ℕ) → List SsTableMeta → Result Bytes
unfolding encode_entry encode_compaction_payload encode_outputs try_u32
encode_compaction crc32 removals [] = do
  payload ← encode_compaction_payload removals none
  encode_entry crc32 kind_compaction payload
encode_compaction crc32 removals (m ∷ []) = do
  payload ← encode_compaction_payload removals (some m)
  encode_entry crc32 kind_compaction payload
encode_compaction crc32 removals (m ∷ (n ∷ ms)) = do
  payload ← encode_compaction_payload removals none
  count ← try_u32 (length (m ∷ (n ∷ ms))) (storage_error "too many compaction outputs")
  outputs ← encode_outputs (m ∷ (n ∷ ms))
  encode_entry crc32 kind_compaction_outputs (payload ++ (to_be_bytes 4 count ++ outputs))
