-- ===== src/Wal/Codec/RoundTrip.antt =====
-- A frame and its binary form.
use cere_db.Base.{
  ℕ, ◌+◌, ◌≤◌, ◌<◌, ◌^◌, ◌≡◌, refl, ap, false, not, ==_refl, [], ◌++◌, append_assoc, length,
  length-append, take, arith,
}
use cere_db.Error.{ok}
use cere_db.Bytes.{Bytes, to_be_bytes}
use cere_db.Bytes.RoundTrip.{length-to_be_bytes}
use cere_db.Bytes.Slices.{
  take_of_length, slice_number, slice_number_last, length-to_be_bytes-append,
}
use cere_db.Bytes.Reads.{
  Reads, Reads-read_be, Reads-read_exact, Reads-bind, Reads-bind_last, Reads-lift, Reads-guard,
  Reads-pure,
}
use cere_db.Bytes.Ends.{Ends-Reads, Ends-bind, Ends-then, Ends-remaining, Ends-guard, Ends-pure_eq}
use cere_db.Record.{RecordType, put, delete, type_byte}
use cere_db.Record.RoundTrip.{type_byte-lt}
use cere_db.LogStore.{LogCommand}
use cere_db.Wal.{TransactionRecord, update, commit, Frame, max_frame_size}
use cere_db.Wal.Codec.{
  has_stray_value, kind_of, update_bytes, record_bytes, frame_body, decode_record_type,
  decode_record, decode_frame, be_u32, be_u64, frame_checksum, header_start, frame_header,
  decode_frame_header, verify_frame_body,
}

-- A command that the log takes: a delete has no value, and the payload fits a frame.
pub record FitsCommand (c : LogCommand) : Type 0 where
  pub lsn : c.lsn < 2 ^ 64
  pub plain : has_stray_value c.record_type c.value ≡ false
  pub size : 42 + length c.key + length c.value ≤ max_frame_size

abbrev pub FitsRecord : TransactionRecord → Type 0
FitsRecord (update c) = FitsCommand c
FitsRecord commit = Unit {0}

pub record FitsFrame (f : Frame) : Type 0 where
  pub lsn : f.lsn < 2 ^ 64
  pub transaction_id : f.transaction_id < 2 ^ 64
  pub previous_lsn : f.previous_lsn < 2 ^ 64
  pub content : FitsRecord f.body

pub decode_record_type-type_byte : (t : RecordType) → decode_record_type (type_byte t) ≡ ok t
unfolding decode_record_type
decode_record_type-type_byte put = ground arith
decode_record_type-type_byte delete = ground arith

kind_of-lt : (t : TransactionRecord) → kind_of t < 256 ^ 1
kind_of-lt (update c) = omega arith
kind_of-lt commit = omega arith

decode_record-Reads :
    (t : TransactionRecord) → FitsRecord t → Reads (decode_record (kind_of t)) (record_bytes t) t
unfolding decode_record update_bytes
decode_record-Reads (update c) fits =
    Reads-bind _ (Reads-read_be 1 _ (type_byte-lt c.record_type)) (
      Reads-lift _ (decode_record_type-type_byte c.record_type) (
        Reads-bind _ (Reads-read_be 8 _ (omega (arith, fits.lsn))) (
          Reads-bind _ (Reads-read_be 8 _ (omega (arith, fits.size))) (
            Reads-bind _ (Reads-read_be 8 _ (omega (arith, fits.size))) (
              Reads-bind _ (Reads-read_exact c.key) (
                Reads-bind_last _ (Reads-read_exact c.value)
                  (Reads-guard _ (ap not fits.plain) (Reads-pure (update c)))))))))
decode_record-Reads commit fits = Reads-pure commit

-- The body of a frame whose fields fit is read back.
pub decode_frame-frame_body :
    (f : Frame) → FitsFrame f → decode_frame f.lsn (frame_body f) ≡ ok (f, [])
unfolding decode_frame frame_body
decode_frame-frame_body f fits =
    (Ends-bind _ (Reads-read_be 1 _ (kind_of-lt f.body)) (
      Ends-bind _ (Reads-read_be 8 _ (omega (arith, fits.transaction_id))) (
        Ends-bind _ (Reads-read_be 8 _ (omega (arith, fits.previous_lsn))) (
          Ends-then _ (Ends-Reads (decode_record-Reads f.body fits.content))
            (Ends-remaining _ (Ends-guard _ refl (Ends-pure_eq refl))))))).at

pub length-update_bytes :
    (c : LogCommand) → length (update_bytes c) ≡ 25 + length c.key + length c.value
unfolding update_bytes
length-update_bytes c = simp (length-to_be_bytes-append, length-append) (omega arith)

pub length-frame_body : (f : Frame) → length (frame_body f) ≡ 17 + length (record_bytes f.body)
unfolding frame_body
length-frame_body f = simp (length-to_be_bytes-append) (omega arith)

module _ (crc32 : Bytes → ℕ) (crc32_u32 : (bs : Bytes) → crc32 bs < 2 ^ 32) where
  length-header_start : (lsn : ℕ) (body : Bytes) → length (header_start crc32 lsn body) ≡ 16
  unfolding header_start
  length-header_start lsn body =
      simp (append_assoc, length-to_be_bytes-append, length-to_be_bytes) (omega arith)

  pub length-frame_header : (lsn : ℕ) (body : Bytes) → length (frame_header crc32 lsn body) ≡ 20
  unfolding frame_header
  length-frame_header lsn body = omega (
    arith,
    length-append (header_start crc32 lsn body)
        (to_be_bytes 4 (crc32 (header_start crc32 lsn body))),
    length-to_be_bytes 4 (crc32 (header_start crc32 lsn body)),
    length-header_start lsn body,
  )

  header_number :
      (lsn : ℕ) (body : Bytes) → lsn < 2 ^ 64 → be_u64 (frame_header crc32 lsn body) 0 ≡ lsn
  unfolding be_u64 frame_header header_start
  header_number lsn body h =
      let first = to_be_bytes 8 lsn in
      let second = to_be_bytes 4 (length body) in
      let third = to_be_bytes 4 (frame_checksum crc32 lsn body) in
      let fourth = to_be_bytes 4 (crc32 (header_start crc32 lsn body)) in
      let parts : ((first ++ second) ++ third) ++ fourth ≡ first ++ (second ++ (third ++ fourth)) =
        simp append_assoc in
      rw parts (slice_number 8 0 lsn [] (second ++ (third ++ fourth)) refl h)

  header_length :
      (lsn : ℕ) (body : Bytes)
      → length body < 2 ^ 32
      → be_u32 (frame_header crc32 lsn body) 8 ≡ length body
  unfolding be_u32 frame_header header_start
  header_length lsn body h =
      let first = to_be_bytes 8 lsn in
      let second = to_be_bytes 4 (length body) in
      let third = to_be_bytes 4 (frame_checksum crc32 lsn body) in
      let fourth = to_be_bytes 4 (crc32 (header_start crc32 lsn body)) in
      let parts : ((first ++ second) ++ third) ++ fourth ≡ first ++ (second ++ (third ++ fourth)) =
        simp append_assoc in
      rw parts (slice_number 4 8 (length body) first (third ++ fourth) (length-to_be_bytes 8 lsn) h)

  header_checksum :
      (lsn : ℕ) (body : Bytes)
      → be_u32 (frame_header crc32 lsn body) 12 ≡ frame_checksum crc32 lsn body
  unfolding be_u32 frame_header header_start
  header_checksum lsn body =
      let first = to_be_bytes 8 lsn ++ to_be_bytes 4 (length body) in
      let third = to_be_bytes 4 (frame_checksum crc32 lsn body) in
      let fourth = to_be_bytes 4 (crc32 (header_start crc32 lsn body)) in
      rw (append_assoc first third fourth) (
        slice_number 4 12 (frame_checksum crc32 lsn body) first fourth
          (omega (
            arith,
            length-to_be_bytes-append 8 lsn (to_be_bytes 4 (length body)),
            length-to_be_bytes 4 (length body),
          ))
          (unfold frame_checksum in crc32_u32 (first ++ body)))

  header_own_checksum :
      (lsn : ℕ) (body : Bytes)
      → be_u32 (frame_header crc32 lsn body) 16 ≡ crc32 (header_start crc32 lsn body)
  unfolding be_u32 frame_header
  header_own_checksum lsn body =
      slice_number_last 4 16 (crc32 (header_start crc32 lsn body)) (header_start crc32 lsn body)
        (length-header_start lsn body) (crc32_u32 (header_start crc32 lsn body))

  -- The header of a frame says its number and the length of its body.
  pub decode_frame_header-frame_header :
      (lsn : ℕ) (body : Bytes)
      → lsn < 2 ^ 64
      → length body < 2 ^ 32
      → decode_frame_header crc32 (frame_header crc32 lsn body) ≡ ok (lsn, length body)
  unfolding decode_frame_header
  decode_frame_header-frame_header lsn body h small =
      let start : take 16 (frame_header crc32 lsn body) ≡ header_start crc32 lsn body =
        unfold frame_header in
        take_of_length 16 (header_start crc32 lsn body)
          (to_be_bytes 4 (crc32 (header_start crc32 lsn body))) (length-header_start lsn body) in
      rw
        (
          header_own_checksum lsn body,
          start,
          ==_refl (crc32 (header_start crc32 lsn body)),
          header_number lsn body h,
          header_length lsn body small,
        )
        refl

  pub verify_frame_body-frame_header :
      (lsn : ℕ) (body : Bytes)
      → verify_frame_body crc32 (frame_header crc32 lsn body) body
        ≡ ok (frame_checksum crc32 lsn body)
  unfolding verify_frame_body
  verify_frame_body-frame_header lsn body =
      let first = to_be_bytes 8 lsn ++ to_be_bytes 4 (length body) in
      let third = to_be_bytes 4 (frame_checksum crc32 lsn body) in
      let fourth = to_be_bytes 4 (crc32 (header_start crc32 lsn body)) in
      let start : take 12 (frame_header crc32 lsn body) ≡ first =
        unfold frame_header header_start in
        rw (append_assoc first third fourth) (
          take_of_length 12 first (third ++ fourth) (
            omega (
              arith,
              length-to_be_bytes-append 8 lsn (to_be_bytes 4 (length body)),
              length-to_be_bytes 4 (length body),
            ))) in
      let same : crc32 (first ++ body) ≡ frame_checksum crc32 lsn body =
        unfold frame_checksum in refl in
      rw (header_checksum lsn body, start, same, ==_refl (frame_checksum crc32 lsn body)) refl
