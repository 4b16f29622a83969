-- ===== src/Manifest/Decode.antt =====
-- storage/manifest_codec.rs: the decoders of the manifest's entries, and the replay of a log.
use cere_db.Base.{
  ℕ, zero, suc, ◌+◌, ◌-◌, ◌/◌, true, false, Option, none, some, List, [], ◌∷◌, ◌++◌, length, leb,
  ltb, ◌==◌,
}
use cere_db.Error.{Result, ok, err, corrupted}
use cere_db.Bytes.{Bytes, from_be_bytes}
use cere_db.Bytes.Reader.{Reader, read_be, read_exact, pure, lift, guard, remaining, ◌>>=◌, ◌>>◌}
use cere_db.Ord.{nat_ord}
use cere_db.Utf8.{is_utf8}
use cere_db.Manifest.{SsTableMeta, RecoveryCheckpoint}

-- A reader at the front of a slice; what is left behind it is not looked at.
unfoldable pub read_slice {ℓ} : {A : Type ℓ} → Reader A → Bytes → Result A
read_slice m s = elim (m s) [ ok (a, rest) ↦ ok a | err e ↦ err e ]

-- The offset is kept as the bytes behind it: the comparisons with the length of the data become
-- those with the length of what is left. The sums of the code do not overflow for data in memory.
unfoldable pub decode_entry : (Bytes → ℕ) → Reader (ℕ × Bytes)
decode_entry crc32 = do
  left ← remaining
  guard (leb 5 left) (corrupted "truncated manifest entry header")
  kind ← read_exact 1
  len ← read_exact 4
  guard (leb (5 + from_be_bytes len + 4) left) (corrupted "truncated manifest entry payload")
  payload ← read_exact (from_be_bytes len)
  stored_checksum ← read_be 4
  guard (stored_checksum == crc32 (kind ++ (len ++ payload)))
      (corrupted "manifest entry checksum mismatch")
  pure (from_be_bytes kind, payload)

unfoldable pub read_vec : Reader Bytes
read_vec = do len ← read_be 4; read_exact len

unfoldable pub read_string : Reader Bytes
unfolding read_vec
read_string = do
  bytes ← read_vec
  guard (is_utf8 bytes) (corrupted "invalid UTF-8 in manifest path")
  pure bytes

-- Old payloads end before the filter's place, or before the keys.
unfoldable pub read_bloom_place : ℕ → Reader (ℕ × ℕ)
read_bloom_place left = elim (leb 16 left) [
  | true ↦ do bloom_offset ← read_be 8; bloom_size ← read_be 8; pure (bloom_offset, bloom_size)
  | false ↦ pure (0, 0)
]

unfoldable pub read_keys : ℕ → Reader (Bytes × Bytes)
unfolding read_vec
read_keys left = elim (ltb 0 left) [
  | true ↦ do smallest_key ← read_vec; largest_key ← read_vec; pure (smallest_key, largest_key)
  | false ↦ pure ([], [])
]

unfoldable pub add_reader : Reader SsTableMeta
unfolding read_string read_bloom_place read_keys
add_reader = do
  level ← read_be 4
  file_id ← read_be 8
  record_count ← read_be 8
  path ← read_string
  left ← remaining
  (bloom_offset, bloom_size) ← read_bloom_place left
  left' ← remaining
  (smallest_key, largest_key) ← read_keys left'
  pure (record {
    file_id = file_id;
    level = level;
    path = path;
    record_count = record_count;
    smallest_key = smallest_key;
    largest_key = largest_key;
    bloom_offset = bloom_offset;
    bloom_size = bloom_size;
  })

unfoldable pub decode_add_payload : Bytes → Result SsTableMeta
unfolding read_slice add_reader
decode_add_payload payload = read_slice add_reader payload

-- `for _ in 0..count`, over the removals.
unfoldable pub read_removals : ℕ → Reader (List (ℕ × ℕ))
read_removals zero = pure []
read_removals (suc n) = do
  level ← read_be 4
  file_id ← read_be 8
  rest ← read_removals n
  pure ((level, file_id) ∷ rest)

-- What is left is the output, if anything is left.
unfoldable pub decode_rest : Bytes → Result (Option SsTableMeta)
decode_rest [] = ok none
decode_rest (b ∷ bs) = elim (decode_add_payload (b ∷ bs)) [ ok m ↦ ok (some m) | err e ↦ err e ]

unfoldable pub compaction_reader : ℕ → Reader (List (ℕ × ℕ) × Option SsTableMeta)
unfolding decode_rest
compaction_reader payload_len = do
  count ← read_be 4
  guard (leb count ((payload_len - 4) / 12)) (corrupted "invalid compaction input count")
  removals ← read_removals count
  left ← remaining
  rest ← read_exact left
  output ← lift (decode_rest rest)
  pure (removals, output)

unfoldable pub decode_compaction_payload : Bytes → Result (List (ℕ × ℕ) × Option SsTableMeta)
unfolding read_slice compaction_reader
decode_compaction_payload payload = read_slice (compaction_reader (length payload)) payload

unfoldable pub read_outputs : ℕ → Reader (List SsTableMeta)
read_outputs zero = pure []
read_outputs (suc n) = do
  len ← read_be 4
  left ← remaining
  guard (leb len left) (corrupted "truncated compaction output")
  slice ← read_exact len
  meta ← lift (decode_add_payload slice)
  rest ← read_outputs n
  pure (meta ∷ rest)

unfoldable pub outputs_reader : ℕ → Reader (List (ℕ × ℕ) × List SsTableMeta)
unfolding read_removals read_outputs
outputs_reader payload_len = do
  count ← read_be 4
  guard (leb count ((payload_len - 8) / 12)) (corrupted "invalid compaction input count")
  removals ← read_removals count
  output_count ← read_be 4
  left ← remaining
  guard (leb output_count (left / 4)) (corrupted "invalid compaction output count")
  outputs ← read_outputs output_count
  left' ← remaining
  guard (left' == 0) (corrupted "trailing compaction output bytes")
  pure (removals, outputs)

unfoldable pub decode_compaction_outputs : Bytes → Result (List (ℕ × ℕ) × List SsTableMeta)
unfolding read_slice outputs_reader
decode_compaction_outputs payload = read_slice (outputs_reader (length payload)) payload

unfoldable pub decode_remove_payload : Bytes → Result (ℕ × ℕ)
unfolding read_slice
decode_remove_payload payload = elim (length payload == 12) [
  | false ↦ err (corrupted "remove payload length must be 12 bytes")
  | true ↦ read_slice (do level ← read_be 4; file_id ← read_be 8; pure (level, file_id)) payload
]

unfoldable pub decode_checkpoint_payload : Bytes → Result (ℕ × ℕ)
unfolding read_slice
decode_checkpoint_payload payload = elim (length payload == 16) [
  | false ↦ err (corrupted "checkpoint payload length must be 16 bytes")
  | true ↦
      read_slice
        (do
          checkpoint_lsn ← read_be 8
          active_wal_segment ← read_be 8
          pure (checkpoint_lsn, active_wal_segment))
        payload
]

unfoldable pub decode_recovery_payload : Bytes → Result RecoveryCheckpoint
unfolding read_slice
decode_recovery_payload payload = elim (length payload == 24) [
  | false ↦ err (corrupted "recovery checkpoint payload length must be 24 bytes")
  | true ↦
      read_slice
        (do
          replay_start_segment ← read_be 8
          next_physical_lsn ← read_be 8
          committed_sequence ← read_be 8
          pure (record {
            replay_start_segment = replay_start_segment;
            next_physical_lsn = next_physical_lsn;
            committed_sequence = committed_sequence;
          }))
        payload
]
