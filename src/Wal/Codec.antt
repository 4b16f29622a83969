-- ===== src/Wal/Codec.antt =====
-- storage/recovermanager/wal.rs: the binary form of a frame, a header with two checksums and a body.
pub mod RoundTrip
use cere_db.Base.{
  ℕ, ◌+◌, ◌*◌, Bool, true, false, not, List, [], ◌∷◌, ◌++◌, length, take, drop, ltb, ◌==◌, ◌&&◌,
  if◌then◌else◌,
}
use cere_db.Error.{Result, ok, err, corrupted, storage_error}
use cere_db.Bytes.{Bytes, to_be_bytes, from_be_bytes}
use cere_db.Bytes.Reader.{Reader, pure, lift, guard, ◌>>=◌, ◌>>◌, read_exact, read_be, remaining}
use cere_db.Record.{RecordType, put, delete, type_byte}
use cere_db.LogStore.{LogCommand}
use cere_db.Wal.{TransactionRecord, update, commit, Frame, max_frame_size}

unfoldable pub is_empty : Bytes → Bool
is_empty [] = Bool.true
is_empty (b ∷ bs) = Bool.false

unfoldable pub is_delete : RecordType → Bool
is_delete put = Bool.false
is_delete delete = Bool.true

-- A delete with a value is refused by the writer and by the reader.
unfoldable pub has_stray_value : RecordType → Bytes → Bool
unfolding is_empty is_delete
has_stray_value t value = is_delete t && not (is_empty value)

abbrev pub kind_of : TransactionRecord → ℕ
kind_of (update c) = 1
kind_of commit = 2

unfoldable pub update_bytes : LogCommand → Bytes
update_bytes c =
    to_be_bytes 1 (type_byte c.record_type)
    ++ (to_be_bytes 8 c.lsn
        ++ (to_be_bytes 8 (length c.key) ++ (to_be_bytes 8 (length c.value) ++ (c.key ++ c.value))))

abbrev pub record_bytes : TransactionRecord → Bytes
record_bytes (update c) = update_bytes c
record_bytes commit = []

unfoldable pub frame_body : Frame → Bytes
frame_body f =
    to_be_bytes 1 (kind_of f.body)
    ++ (to_be_bytes 8 f.transaction_id ++ (to_be_bytes 8 f.previous_lsn ++ record_bytes f.body))

-- The first test of `encode_frame`; lengths do not overflow a `usize`.
abbrev pub is_oversized : TransactionRecord → Bool
is_oversized (update c) = ltb max_frame_size (42 + length c.key + length c.value)
is_oversized commit = Bool.false

unfoldable pub decode_record_type : ℕ → Result RecordType
decode_record_type b =
    if b == 1 then ok put else if b == 2 then ok delete else err (corrupted "Invalid WAL operation")

-- `Decoder` is a reader: `take` is `read_exact`, `number` is `read_be 8`.
unfoldable pub decode_update : Reader TransactionRecord
decode_update = do
  type_number ← read_be 1
  record_type ← lift (decode_record_type type_number)
  command_lsn ← read_be 8
  key_length ← read_be 8
  value_length ← read_be 8
  key ← read_exact key_length
  value ← read_exact value_length
  guard (not (has_stray_value record_type value)) (corrupted "Delete contains a value")
  pure (update (record { record_type = record_type; key = key; value = value; lsn = command_lsn }))

unfoldable pub decode_record : ℕ → Reader TransactionRecord
unfolding decode_update
decode_record kind =
    if kind == 1
    then decode_update
    else if kind == 2
    then pure commit
    else lift (err (corrupted "Invalid WAL transaction record"))

unfoldable pub decode_frame : ℕ → Reader Frame
unfolding decode_record
decode_frame lsn = do
  kind ← read_be 1
  transaction_id ← read_be 8
  previous_lsn ← read_be 8
  body ← decode_record kind
  left ← remaining
  guard (left == 0) (corrupted "Trailing WAL record bytes")
  pure (record {
    lsn = lsn;
    transaction_id = transaction_id;
    previous_lsn = previous_lsn;
    body = body;
  })

-- The integer in `bytes[offset..offset + 4]`, and in `bytes[offset..offset + 8]`.
unfoldable pub be_u32 : Bytes → ℕ → ℕ
be_u32 bytes offset = from_be_bytes (take 4 (drop offset bytes))

unfoldable pub be_u64 : Bytes → ℕ → ℕ
be_u64 bytes offset = from_be_bytes (take 8 (drop offset bytes))

module _ (crc32 : Bytes → ℕ) where
  unfoldable pub frame_checksum : ℕ → Bytes → ℕ
  frame_checksum lsn body = crc32 ((to_be_bytes 8 lsn ++ to_be_bytes 4 (length body)) ++ body)

  -- The header but for its own checksum, which is the last of its fields.
  unfoldable pub header_start : ℕ → Bytes → Bytes
  unfolding frame_checksum
  header_start lsn body =
      (to_be_bytes 8 lsn ++ to_be_bytes 4 (length body)) ++ to_be_bytes 4 (frame_checksum lsn body)

  unfoldable pub frame_header : ℕ → Bytes → Bytes
  unfolding header_start
  frame_header lsn body = let start = header_start lsn body in start ++ to_be_bytes 4 (crc32 start)

  unfoldable pub encode_frame : Frame → Result Bytes
  encode_frame f =
      let body = frame_body f in
      if is_oversized f.body
      then err (storage_error "WAL frame exceeds 64 MiB")
      else if ltb max_frame_size (length body)
      then err (storage_error "WAL frame exceeds 64 MiB")
      else ok (frame_header f.lsn body ++ body)

  unfoldable pub decode_frame_header : Bytes → Result (ℕ × ℕ)
  unfolding be_u32 be_u64
  decode_frame_header bytes =
      if be_u32 bytes 16 == crc32 (take 16 bytes)
      then ok (be_u64 bytes 0, be_u32 bytes 8)
      else err (corrupted "WAL frame header checksum mismatch")

  unfoldable pub verify_frame_body : Bytes → Bytes → Result ℕ
  unfolding be_u32
  verify_frame_body header body =
      let checksum = be_u32 header 12 in
      if checksum == crc32 (take 12 header ++ body)
      then ok checksum
      else err (corrupted "WAL frame checksum mismatch")
