-- ===== src/Wal/Scan.antt =====
-- storage/recovermanager/wal.rs, `scan_segment_with_tail_handling`: what is read of a segment, and what
-- is left of its file.
pub mod Frames
pub mod Fuel
pub mod Header
pub mod Left
pub mod Segment
use cere_db.Base.{
  ℕ, zero, suc, ◌+◌, ◌-◌, ◌*◌, Bool, true, false, not, ◌||◌, ◌&&◌, ltb, leb, ◌==◌, Option, none,
  some, List, [], ◌∷◌, ◌++◌, length, take, drop, if◌then◌else◌,
}
use cere_db.Error.{
  DbError, IoKind, Result, ok, err, io, unexpected_eof, invalid_input, corrupted, try_into_error,
  mutex_poisoned, storage_error, not_found, ◌>>=◌,
}
use cere_db.Bytes.{Bytes, from_be_bytes}
use cere_db.Bytes.Reader.{read_be, read_exact}
use cere_db.Key.{key_eq}
use cere_db.Wal.{
  WalRecord, Frame, FramePosition, Analysis, wal_header_size, wal_version, legacy_wal_version,
  max_frame_size, frame_header_size,
}
use cere_db.Wal.Codec.{decode_record_type, decode_frame, decode_frame_header, verify_frame_body}
use cere_db.Wal.Header.{WalHeader, default_header, decode, encode}
use cere_db.Wal.Recovery.{accept}

pub data TailHandling : Type 0 where
  repair allow reject : TailHandling

abbrev pub is_reject : TailHandling → Bool
is_reject reject = Bool.true
is_reject _ = Bool.false

-- What a frame is read from, and where the next one starts.
pub record ReadFrame : Type 0 where
  pub frame : Frame
  pub checksum : ℕ
  pub size : ℕ
  pub left : Bytes

-- `map_err`
abbrev pub or_error {ℓ} : {A : Type ℓ} → Result A → DbError → Result A
or_error (ok a) e = ok a
or_error (err _) e = err e

unfoldable pub bad_size : ℕ → Bool
bad_size length = ltb length 17 || ltb max_frame_size length

pub record Scanned : Type 0 where
  pub version : ℕ
  pub analysis : Analysis
  pub file : Bytes

unfoldable pub starts_with : Bytes → Bytes → Bool
starts_with header bytes = key_eq (take (length bytes) header) bytes

unfoldable pub position_of : ℕ → Analysis → ℕ → ℕ → FramePosition
position_of segment_id a offset size = record {
  segment_id = if a.track_refs then segment_id else 0;
  offset = offset;
  length = size;
}

-- The payload of a record of the old format, and what is left behind it.
unfoldable pub legacy_payload : Bytes → Result (WalRecord × Bytes)
legacy_payload bytes = read_be 1 bytes >>= λ t. decode_record_type t.0 >>= λ record_type.
    read_be 8 t.1 >>= λ l. read_be 8 l.1 >>= λ k. read_exact k.0 k.1 >>= λ key.
    read_be 8 key.1 >>= λ v. read_exact v.0 v.1 >>= λ value.
    ok
      (record { record_type = t.0; lsn = l.0; key = key.0; value = value.0; checksum = 0 }, value.1)

abbrev pub or_out_of_fuel {ℓ} : {A : Type ℓ} → Option (Result A) → Result A
or_out_of_fuel (some r) = r
or_out_of_fuel none = err (storage_error "out of fuel")

abbrev pub is_eof : DbError → Bool
is_eof (io unexpected_eof) = Bool.true
is_eof _ = Bool.false

unfoldable pub check_header : Analysis → WalHeader → Result (Unit {0})
check_header a h =
    if h.version == legacy_wal_version && not (a.latest_lsn == 0)
    then err (corrupted "Legacy WAL after transactional segment")
    else if not (h.last_checkpoint == 0) || not (h.last_checkpoint_offset == 0)
    then err (corrupted "Unsupported WAL checkpoint metadata")
    else ok tt

-- The file that is left: `original` is what was read, `bytes` has its header completed.
unfoldable pub finish : TailHandling → ℕ → Bytes → Bytes → Analysis × ℕ → Result Scanned
finish repair version original bytes (a, offset) =
    ok (record { version = version; analysis = a; file = take offset bytes })
finish allow version original bytes (a, offset) =
    ok (record { version = version; analysis = a; file = original })
finish reject version original bytes (a, offset) =
    if offset == length bytes
    then ok (record { version = version; analysis = a; file = original })
    else err (corrupted "Incomplete WAL frame in sealed segment")

-- An incomplete frame at the end is `none`, as is the end itself: it has less than a header.
module _ (crc32 : Bytes → ℕ) where
  unfoldable pub read_body : ℕ → ℕ → Bytes → Bytes → Result (Option ReadFrame)
  read_body lsn size header rest =
      if bad_size size
      then err (corrupted "Invalid WAL frame size")
      else if ltb (length rest) size
      then ok none
      else (verify_frame_body crc32 header (take size rest) >>= λ checksum.
          or_error (decode_frame lsn (take size rest)) (corrupted "Invalid WAL frame: ")
          >>= λ decoded. ok (
              some (record {
                frame = decoded.0;
                checksum = checksum;
                size = frame_header_size + size;
                left = drop size rest;
              })))

  unfoldable pub next_frame : Bytes → Result (Option ReadFrame)
  unfolding read_body
  next_frame rest =
      if ltb (length rest) frame_header_size
      then ok none
      else (decode_frame_header crc32 (take frame_header_size rest) >>= λ head.
          read_body head.0 head.1 (take frame_header_size rest) (drop frame_header_size rest))

  -- The loop, over what is left behind `offset`. It ends with the analysis and the offset, or with an
  -- error; `none` is that it has run out of fuel. It breaks when `offset` stays where it was.
  unfoldable pub scan_frames : ℕ → ℕ → Analysis → ℕ → Bytes → Option (Result (Analysis × ℕ))
  unfolding next_frame position_of
  scan_frames zero segment_id a offset rest = none
  scan_frames (suc fuel) segment_id a offset rest = elim (next_frame rest) [
    | err e ↦ some (err e)
    | ok none ↦ some (ok (a, offset))
    | ok (some r) ↦ elim (accept a r.frame r.checksum (position_of segment_id a offset r.size)) [
      | err e ↦ some (err e)
      | ok b ↦ elim (offset + r.size == offset) [
        | true ↦ some (ok (b, offset + r.size))
        | false ↦ scan_frames fuel segment_id b (offset + r.size) r.left
      ]
    ]
  ]

  unfoldable pub decode_legacy : Bytes → Result (WalRecord × ℕ)
  unfolding legacy_payload
  decode_legacy bytes = legacy_payload bytes >>= λ p. read_be 4 p.1 >>= λ c.
      if crc32 (take (length bytes - length p.1) bytes) == c.0
      then ok (record p.0 { checksum = c.0 }, length bytes - length c.1)
      else err (corrupted "Legacy WAL checksum mismatch")

  -- The same loop over records of the old format.
  unfoldable pub scan_legacy : ℕ → Analysis → ℕ → Bytes → Option (Result (Analysis × ℕ))
  unfolding decode_legacy
  scan_legacy zero a offset rest = none
  scan_legacy (suc fuel) a offset rest = elim (decode_legacy rest) [
    | ok (r, size) ↦
        let b = record a { legacy = a.legacy ++ r ∷ [] } in
        elim (offset + size == offset) [
          | true ↦ some (ok (b, offset + size))
          | false ↦ scan_legacy fuel b (offset + size) (drop size rest)
        ]
    | err e ↦ if is_eof e then some (ok (a, offset)) else some (err e)
  ]

  -- The header that an incomplete one is the start of.
  unfoldable pub complete_header : Analysis → Bytes → Result Bytes
  unfolding starts_with
  complete_header a bytes =
      let current = encode crc32 default_header in
      let legacy = encode crc32 (record default_header { version = legacy_wal_version }) in
      if starts_with current bytes
      then ok current
      else if a.latest_lsn == 0 && starts_with legacy bytes
      then ok legacy
      else err (corrupted "Invalid incomplete WAL header")

  -- What the scan reads: the bytes of the file, with a header that is complete.
  unfoldable pub with_header : TailHandling → Analysis → Bytes → Result Bytes
  unfolding complete_header
  with_header t a bytes =
      if ltb (length bytes) wal_header_size && not (is_reject t)
      then complete_header a bytes
      else ok bytes

  -- The fuel is more than the bytes of the file, with which the loops never run out.
  unfoldable pub scan_body : WalHeader → ℕ → Analysis → Bytes → Result (Analysis × ℕ)
  unfolding scan_frames scan_legacy
  scan_body h segment_id a bytes =
      let body = drop wal_header_size bytes in
      if h.version == legacy_wal_version
      then or_out_of_fuel (scan_legacy (suc (length bytes)) a wal_header_size body)
      else or_out_of_fuel (scan_frames (suc (length bytes)) segment_id a wal_header_size body)

  unfoldable pub scan_segment_with_tail_handling :
      ℕ → Bytes → TailHandling → Analysis → Result Scanned
  unfolding with_header check_header scan_body finish
  scan_segment_with_tail_handling segment_id original t a = with_header t a original >>= λ bytes.
      decode crc32 bytes >>= λ h. check_header a h >>= λ _.
      scan_body h segment_id a bytes >>= λ end. finish t h.version original bytes end
