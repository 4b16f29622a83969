-- ===== src/Wal/Scan/Segment.antt =====
-- The scan of a segment that holds a header and frames, and perhaps less than a frame at its end.
use cere_db.Base.{
  ℕ, suc, ◌+◌, ◌-◌, ◌<◌, ◌^◌, ◌≡◌, refl, ap, ◌∙◌, false, ltb, ==_refl, none, some, List, [], ◌++◌,
  append_assoc, append-nil, length, length-append, drop, arith, All,
}
use cere_db.Error.{ok}
use cere_db.Bytes.{Bytes}
use cere_db.Bytes.Slices.{take_of_length, drop_of_length, take_all}
use cere_db.Wal.{Frame, Analysis, wal_header_size, wal_version}
use cere_db.Wal.Codec.RoundTrip.{FitsFrame}
use cere_db.Wal.Header.{default_header, encode, decode, length-encode_header, decode-encode_header}
use cere_db.Wal.Log.{log_bytes, accept_frames, scan_frames-log_bytes, length-le-log_bytes}
use cere_db.Wal.Scan.{
  or_out_of_fuel, TailHandling, repair, allow, reject, next_frame, scan_frames, with_header,
  check_header, scan_body, finish, scan_segment_with_tail_handling,
}

module _ (crc32 : Bytes → ℕ) (crc32_u32 : (bs : Bytes) → crc32 bs < 2 ^ 32) where
  -- A segment of these frames.
  unfoldable pub segment_bytes : List Frame → Bytes
  segment_bytes fs = encode crc32 default_header ++ log_bytes crc32 crc32_u32 fs

  module _ (segment_id : ℕ) (a b : Analysis) (fs : List Frame) (torn : Bytes)
      (fits : All FitsFrame fs)
      (accepted : accept_frames crc32 crc32_u32 segment_id a wal_header_size fs ≡ ok b)
      (stops : next_frame crc32 torn ≡ ok none) where
    scan_frames-segment :
        (fuel : ℕ)
        → length fs < fuel
        → scan_frames crc32 fuel segment_id a wal_header_size (log_bytes crc32 crc32_u32 fs ++ torn)
          ≡ some (ok (b, wal_header_size + length (log_bytes crc32 crc32_u32 fs)))
    unfolding scan_frames
    scan_frames-segment fuel h =
        let split : fuel ≡ length fs + suc (fuel - length fs - 1) = omega (arith, h) in
        rw split (
          scan_frames-log_bytes crc32 crc32_u32 fs (suc (fuel - length fs - 1)) segment_id a b
            wal_header_size torn fits accepted
          ∙ rw (stops, scan_frames) refl)

    abbrev file : Bytes
    file = segment_bytes fs ++ torn

    scan_body-segment :
        scan_body crc32 default_header segment_id a file
        ≡ ok (b, wal_header_size + length (log_bytes crc32 crc32_u32 fs))
    unfolding scan_body segment_bytes
    scan_body-segment =
        let header = encode crc32 default_header in
        let frames = log_bytes crc32 crc32_u32 fs in
        let behind : drop wal_header_size file ≡ frames ++ torn =
          ap (drop wal_header_size) (append_assoc header frames torn)
          ∙ drop_of_length wal_header_size header (frames ++ torn) (length-encode_header crc32) in
        let enough : length fs < suc (length file) = omega (
          arith,
          length-le-log_bytes crc32 crc32_u32 fs,
          length-append header frames,
          length-append (header ++ frames) torn,
        ) in
        rw behind (ap or_out_of_fuel (scan_frames-segment (suc (length file)) enough))

    scan_segment-finish :
        (t : TailHandling)
        → scan_segment_with_tail_handling crc32 segment_id file t a
          ≡ finish t wal_version file file
              (b, wal_header_size + length (log_bytes crc32 crc32_u32 fs))
    unfolding scan_segment_with_tail_handling with_header check_header segment_bytes
    scan_segment-finish t =
        let header = encode crc32 default_header in
        let frames = log_bytes crc32 crc32_u32 fs in
        let long : ltb (length file) wal_header_size ≡ false = ground (
          arith,
          length-encode_header crc32,
          length-append header frames,
          length-append (header ++ frames) torn,
        ) in
        let read : decode crc32 file ≡ ok default_header =
          ap (decode crc32) (append_assoc header frames torn)
          ∙ decode-encode_header crc32 crc32_u32 (frames ++ torn) in
        rw (long, read, scan_body-segment) refl

  module _ (segment_id : ℕ) (a b : Analysis) (fs : List Frame) (fits : All FitsFrame fs)
      (accepted : accept_frames crc32 crc32_u32 segment_id a wal_header_size fs ≡ ok b) where
    length-segment_bytes :
        length (segment_bytes fs) ≡ wal_header_size + length (log_bytes crc32 crc32_u32 fs)
    unfolding segment_bytes
    length-segment_bytes = omega (
      arith,
      length-encode_header crc32,
      length-append (encode crc32 default_header) (log_bytes crc32 crc32_u32 fs),
    )

    no_frame : next_frame crc32 [] ≡ ok none
    unfolding next_frame
    no_frame = refl

    finish-whole :
        (t : TailHandling)
        → finish t wal_version
            (segment_bytes fs)
            (segment_bytes fs)
            (b, wal_header_size + length (log_bytes crc32 crc32_u32 fs))
          ≡ ok (record { version = wal_version; analysis = b; file = segment_bytes fs })
    unfolding finish
    finish-whole repair =
        rw (← length-segment_bytes, take_all (length (segment_bytes fs)) (segment_bytes fs) refl)
          refl
    finish-whole allow = refl
    finish-whole reject = rw (← length-segment_bytes, ==_refl (length (segment_bytes fs))) refl

    -- A segment of whole frames is read to its end, and stays as it is.
    pub scan_segment-whole :
        (t : TailHandling)
        → scan_segment_with_tail_handling crc32 segment_id (segment_bytes fs) t a
          ≡ ok (record { version = wal_version; analysis = b; file = segment_bytes fs })
    scan_segment-whole t =
        rw (append-nil (segment_bytes fs)) at
          (scan_segment-finish segment_id a b fs [] fits accepted no_frame t)
        ∙ finish-whole t

    -- What is torn off at the end of a segment is cut by a repair.
    pub scan_segment-repair :
        (torn : Bytes)
        → next_frame crc32 torn ≡ ok none
        → scan_segment_with_tail_handling crc32 segment_id (segment_bytes fs ++ torn) repair a
          ≡ ok (record { version = wal_version; analysis = b; file = segment_bytes fs })
    unfolding finish
    scan_segment-repair torn stops =
        scan_segment-finish segment_id a b fs torn fits accepted stops repair
        ∙ rw
            (
              ← length-segment_bytes,
              take_of_length (length (segment_bytes fs)) (segment_bytes fs) torn refl,
            )
            refl
