-- ===== src/Wal/Scan/Frames.antt =====
-- A frame that the scan reads, whole or cut off.
use cere_db.Base.{
  ℕ, ◌+◌, ◌-◌, ◌≤◌, ◌<◌, ◌^◌, ◌≡◌, refl, true, false, Bool-cases, ltb, none, some, ◌++◌,
  append_assoc, length, length-append, length-take, take, arith, inl, inr,
}
use cere_db.Error.{ok}
use cere_db.Bytes.{Bytes}
use cere_db.Bytes.Slices.{take_of_length, drop_of_length, take-append_ge}
use cere_db.Wal.{Frame, max_frame_size, frame_header_size, TransactionRecord, update, commit}
use cere_db.Wal.Codec.{
  frame_body, frame_header, frame_checksum, encode_frame, is_oversized, record_bytes,
}
use cere_db.Wal.Codec.RoundTrip.{
  FitsFrame, FitsRecord, decode_frame-frame_body, length-frame_body, length-update_bytes,
  length-frame_header, decode_frame_header-frame_header, verify_frame_body-frame_header,
}
use cere_db.Wal.Scan.{ReadFrame, bad_size, read_body, next_frame}

-- The size of a body that fits.
body_size :
    (f : Frame)
    → FitsFrame f
    → (17 ≤ length (frame_body f)) × (length (frame_body f) ≤ max_frame_size)
body_size f fits = (omega (arith, length-frame_body f), by_record f.body f refl fits.content)
  where
    by_record :
        (t : TransactionRecord) (f : Frame)
        → f.body ≡ t
        → FitsRecord t
        → length (frame_body f) ≤ max_frame_size
    by_record (update c) f e fits =
        let same : length (record_bytes f.body) ≡ 25 + length c.key + length c.value =
          rw e (length-update_bytes c) in
        omega (arith, length-frame_body f, same, fits.size)
    by_record commit f e fits =
        let same : length (record_bytes f.body) ≡ 0 = rw e refl in
        omega (arith, length-frame_body f, same)

fits_oversized : (t : TransactionRecord) → FitsRecord t → is_oversized t ≡ false
fits_oversized (update c) fits = ground (arith, fits.size)
fits_oversized commit fits = refl

fits_bad_size : (n : ℕ) → 17 ≤ n → n ≤ max_frame_size → bad_size n ≡ false
unfolding bad_size
fits_bad_size n h k = ground arith

module _ (crc32 : Bytes → ℕ) (crc32_u32 : (bs : Bytes) → crc32 bs < 2 ^ 32) where
  -- The bytes of a frame.
  abbrev pub frame_bytes : Frame → Bytes
  frame_bytes f = frame_header crc32 f.lsn (frame_body f) ++ frame_body f

  pub length-frame_bytes :
      (f : Frame) → length (frame_bytes f) ≡ frame_header_size + length (frame_body f)
  length-frame_bytes f = omega (
    arith,
    length-append (frame_header crc32 f.lsn (frame_body f)) (frame_body f),
    length-frame_header crc32 crc32_u32 f.lsn (frame_body f),
  )

  pub encode_frame-ok : (f : Frame) → FitsFrame f → encode_frame crc32 f ≡ ok (frame_bytes f)
  unfolding encode_frame
  encode_frame-ok f fits =
      let (low, high) = body_size f fits in
      let small : ltb max_frame_size (length (frame_body f)) ≡ false = ground (arith, high) in
      rw (fits_oversized f.body fits.content, small) refl

  abbrev pub read_of : Frame → Bytes → ReadFrame
  read_of f rest = record {
    frame = f;
    checksum = frame_checksum crc32 f.lsn (frame_body f);
    size = frame_header_size + length (frame_body f);
    left = rest;
  }

  -- The header of a frame, and what is behind it, cut off or not.
  next_frame-header :
      (f : Frame) (rest : Bytes)
      → FitsFrame f
      → next_frame crc32 (frame_header crc32 f.lsn (frame_body f) ++ rest)
        ≡ read_body crc32 f.lsn
            (length (frame_body f))
            (frame_header crc32 f.lsn (frame_body f))
            rest
  unfolding next_frame
  next_frame-header f rest fits =
      let header = frame_header crc32 f.lsn (frame_body f) in
      let size = length-frame_header crc32 crc32_u32 f.lsn (frame_body f) in
      let (low, high) = body_size f fits in
      let enough : ltb (length (header ++ rest)) frame_header_size ≡ false =
        ground (arith, length-append header rest, size) in
      rw
        (
          enough,
          take_of_length 20 header rest size,
          drop_of_length 20 header rest size,
          decode_frame_header-frame_header crc32 crc32_u32 f.lsn (frame_body f) fits.lsn
              (omega (arith, high)),
        )
        refl

  -- A whole frame is read, and what follows it is left.
  pub next_frame-whole :
      (f : Frame) (rest : Bytes)
      → FitsFrame f
      → next_frame crc32 (frame_bytes f ++ rest) ≡ ok (some (read_of f rest))
  unfolding next_frame read_body
  next_frame-whole f rest fits =
      let header = frame_header crc32 f.lsn (frame_body f) in
      let body = frame_body f in
      let (low, high) = body_size f fits in
      let enough : ltb (length (body ++ rest)) (length body) ≡ false =
        ground (arith, length-append body rest) in
      rw
        (
          append_assoc header body rest,
          next_frame-header f (body ++ rest) fits,
          read_body,
          fits_bad_size (length body) low high,
          enough,
          take_of_length (length body) body rest refl,
          drop_of_length (length body) body rest refl,
          verify_frame_body-frame_header crc32 crc32_u32 f.lsn body,
          decode_frame-frame_body f fits,
        )
        refl

  -- Less than a frame is not read.
  pub next_frame-torn :
      (f : Frame) (n : ℕ)
      → FitsFrame f
      → n < length (frame_bytes f)
      → next_frame crc32 (take n (frame_bytes f)) ≡ ok none
  unfolding next_frame read_body
  next_frame-torn f n fits h =
      let header = frame_header crc32 f.lsn (frame_body f) in
      let body = frame_body f in
      let size = length-frame_header crc32 crc32_u32 f.lsn body in
      let (low, high) = body_size f fits in
      elim (Bool-cases (ltb n 20)) [
        | inl short ↦
            let small : ltb (length (take n (frame_bytes f))) frame_header_size ≡ true =
              ground (arith, length-take n (frame_bytes f), short) in
            rw small refl
        | inr long ↦
            let ge : length header ≤ n = ground (arith, long, size) in
            let cut : ltb (length (take (n - length header) body)) (length body) ≡ true =
              ground
                (arith, length-take (n - length header) body, length-frame_bytes f, h, size, ge) in
            rw
              (
                take-append_ge n header body ge,
                next_frame-header f (take (n - length header) body) fits,
                read_body,
                fits_bad_size (length body) low high,
                cut,
              )
              refl
      ]
