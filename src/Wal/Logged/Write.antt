-- ===== src/Wal/Logged/Write.antt =====
-- The write of an append on a log that is open: frames that are written whole or in part.
use cere_db.Base.{
  ℕ, ◌+◌, ◌<◌, ◌^◌, ◌≡◌, refl, sym, ap, ◌∙◌, Bool, Option, some, none, List, [], ◌∷◌, ◌++◌,
  append_assoc, length, length-append, arith, All, All-append,
}
use cere_db.Error.{ok}
use cere_db.Bytes.{Bytes}
use cere_db.Ord.{nat_ord}
use cere_db.TreeMap
use cere_db.Wal.{Frame, Analysis, wal_header_size, wal_version}
use cere_db.Wal.Codec.RoundTrip.{FitsFrame}
use cere_db.Wal.Header.{default_header, encode}
use cere_db.Wal.Log.{log_bytes, log_bytes-append, accept_frames, accept_frames-append}
use cere_db.Wal.Scan.{next_frame, repair, scan_segment_with_tail_handling}
use cere_db.Wal.Scan.Segment.{segment_bytes, scan_segment-whole, scan_segment-repair}
use cere_db.Wal.Manager.{WalManager, file_of, write_file}
use cere_db.Wal.Segments.{Segments, floor_of}
use cere_db.Wal.Directory.{IsFrom, IsFrom-last, insert-last, get-last}
use cere_db.Wal.Recovery.Sound.{IsSound}
use cere_db.Wal.Logged.{Journal, FitsSegment, entries, Replays, IsLogged}

module _ (crc32 : Bytes → ℕ) (crc32_u32 : (bs : Bytes) → crc32 bs < 2 ^ 32) where
  -- A directory whose frames lead to `a`, once its last segment is repaired.
  pub record HasLog (track_refs : Bool) (directory : Segments) (floor : Option ℕ)
      (origin a : Analysis) : Type 0 where
    pub first : ℕ
    pub id : ℕ
    pub sealed : Journal
    pub frames : List Frame
    pub file : Bytes
    pub before : Analysis
    pub files : directory ≡ entries crc32 crc32_u32 sealed ++ (id, file) ∷ []
    pub consecutive : IsFrom first (entries crc32 crc32_u32 sealed ++ (id, file) ∷ [])
    pub floor_first : (n : ℕ) → floor ≡ some n → n ≡ first
    pub fits_sealed : All FitsSegment sealed
    pub fits : All FitsFrame frames
    pub repairs :
        scan_segment_with_tail_handling crc32 id file repair before
        ≡ ok (record {
          version = wal_version;
          analysis = a;
          file = segment_bytes crc32 crc32_u32 frames;
        })
    pub replays : Replays crc32 crc32_u32 origin sealed before
    pub accepted : accept_frames crc32 crc32_u32 id before wal_header_size frames ≡ ok a
    pub sound : IsSound a
    pub bound : a.latest_lsn + 1 < 2 ^ 64

  module _ (track_refs : Bool) (w : WalManager) (a : Analysis)
      (h : IsLogged crc32 crc32_u32 track_refs w a) where
    abbrev old_file : Bytes
    old_file = segment_bytes crc32 crc32_u32 h.frames

    abbrev there : ℕ
    there = wal_header_size + length (log_bytes crc32 crc32_u32 h.frames)

    file_of-IsLogged : file_of w ≡ old_file
    unfolding file_of
    file_of-IsLogged =
        let found : TreeMap.get w.segment_id w.files ≡ some old_file = rw h.files (
          get-last h.first w.segment_id old_file (entries crc32 crc32_u32 h.sealed)
            h.consecutive) in
        rw (found, file_of) refl

    -- The directory after a write of any bytes.
    files-write_file :
        (bytes : Bytes)
        → (write_file w bytes).files
          ≡ entries crc32 crc32_u32 h.sealed ++ (w.segment_id, old_file ++ bytes) ∷ []
    unfolding write_file
    files-write_file bytes =
        rw (file_of-IsLogged, h.files)
          (insert-last h.first w.segment_id old_file (old_file ++ bytes)
            (entries crc32 crc32_u32 h.sealed) h.consecutive)

    segment_bytes-append :
        (gs : List Frame)
        → old_file ++ log_bytes crc32 crc32_u32 gs ≡ segment_bytes crc32 crc32_u32 (h.frames ++ gs)
    unfolding segment_bytes
    segment_bytes-append gs =
        append_assoc (encode crc32 default_header) (log_bytes crc32 crc32_u32 h.frames)
          (log_bytes crc32 crc32_u32 gs)
        ∙ ap (λ bs. encode crc32 default_header ++ bs)
            (sym (log_bytes-append crc32 crc32_u32 h.frames gs))

    -- Frames that are written and accepted.
    abbrev extended : Bytes → ℕ → WalManager
    extended bytes next_lsn = record (write_file w bytes) {
      size = w.size + length bytes;
      next_lsn = next_lsn;
      poisoned = Bool.false;
    }

    pub extended-IsLogged :
        (b : Analysis) (gs : List Frame) (bytes : Bytes) (next_lsn : ℕ)
        → bytes ≡ log_bytes crc32 crc32_u32 gs
        → All FitsFrame gs
        → accept_frames crc32 crc32_u32 w.segment_id a there gs ≡ ok b
        → IsSound b
        → b.latest_lsn + 1 ≡ next_lsn
        → next_lsn < 2 ^ 64
        → IsLogged crc32 crc32_u32 track_refs (extended bytes next_lsn) b
    unfolding write_file
    extended-IsLogged b gs bytes next_lsn e fits accepted sound next bound =
        let whole : old_file ++ bytes ≡ segment_bytes crc32 crc32_u32 (h.frames ++ gs) =
          ap (λ bs. old_file ++ bs) e ∙ segment_bytes-append gs in
        record {
          first = h.first;
          sealed = h.sealed;
          frames = h.frames ++ gs;
          origin = h.origin;
          before = h.before;
          files =
              files-write_file bytes
              ∙ ap (λ bs. entries crc32 crc32_u32 h.sealed ++ (w.segment_id, bs) ∷ []) whole;
          consecutive =
              IsFrom-last h.first w.segment_id old_file
                (segment_bytes crc32 crc32_u32 (h.frames ++ gs)) (entries crc32 crc32_u32 h.sealed)
                h.consecutive;
          floor = h.floor;
          starts = h.starts;
          fits_sealed = h.fits_sealed;
          fits = All-append FitsFrame h.frames gs h.fits fits;
          replays = h.replays;
          accepted =
              accept_frames-append crc32 crc32_u32 w.segment_id h.before a wal_header_size h.frames
                gs h.accepted
              ∙ accepted;
          sound = sound;
          next = next;
          bound = bound;
          size = omega (
            arith,
            h.size,
            ap (λ bs. length bs) e,
            ap (λ bs. length bs) (log_bytes-append crc32 crc32_u32 h.frames gs),
            length-append (log_bytes crc32 crc32_u32 h.frames) (log_bytes crc32 crc32_u32 gs),
          );
          healthy = refl;
        }

    -- The first bytes of a write.
    pub written-HasLog :
        (b : Analysis) (gs : List Frame) (torn bytes : Bytes)
        → bytes ≡ log_bytes crc32 crc32_u32 gs ++ torn
        → next_frame crc32 torn ≡ ok none
        → All FitsFrame gs
        → accept_frames crc32 crc32_u32 w.segment_id a there gs ≡ ok b
        → IsSound b
        → b.latest_lsn + 1 < 2 ^ 64
        → HasLog track_refs (write_file w bytes).files (floor_of w.checkpoint) h.origin b
    written-HasLog b gs torn bytes e stops fits accepted sound bound =
        let whole : old_file ++ bytes ≡ segment_bytes crc32 crc32_u32 (h.frames ++ gs) ++ torn =
          ap (λ bs. old_file ++ bs) e
          ∙ sym (append_assoc old_file (log_bytes crc32 crc32_u32 gs) torn)
          ∙ ap (λ bs. bs ++ torn) (segment_bytes-append gs) in
        let all_fits = All-append FitsFrame h.frames gs h.fits fits in
        let all_accepted =
          accept_frames-append crc32 crc32_u32 w.segment_id h.before a wal_header_size h.frames gs
            h.accepted
          ∙ accepted in
        record {
          first = h.first;
          id = w.segment_id;
          sealed = h.sealed;
          frames = h.frames ++ gs;
          file = segment_bytes crc32 crc32_u32 (h.frames ++ gs) ++ torn;
          before = h.before;
          files =
              files-write_file bytes
              ∙ ap (λ bs. entries crc32 crc32_u32 h.sealed ++ (w.segment_id, bs) ∷ []) whole;
          consecutive =
              IsFrom-last h.first w.segment_id old_file
                (segment_bytes crc32 crc32_u32 (h.frames ++ gs) ++ torn)
                (entries crc32 crc32_u32 h.sealed) h.consecutive;
          floor_first = h.floor;
          fits_sealed = h.fits_sealed;
          fits = all_fits;
          repairs =
              scan_segment-repair crc32 crc32_u32 w.segment_id h.before b (h.frames ++ gs) all_fits
                all_accepted torn stops;
          replays = h.replays;
          accepted = all_accepted;
          sound = sound;
          bound = bound;
        }

    -- The log is as it is, with nothing torn off.
    pub IsLogged-HasLog : HasLog track_refs w.files (floor_of w.checkpoint) h.origin a
    IsLogged-HasLog = record {
      first = h.first;
      id = w.segment_id;
      sealed = h.sealed;
      frames = h.frames;
      file = old_file;
      before = h.before;
      files = h.files;
      consecutive = h.consecutive;
      floor_first = h.floor;
      fits_sealed = h.fits_sealed;
      fits = h.fits;
      repairs =
          scan_segment-whole crc32 crc32_u32 w.segment_id h.before a h.frames h.fits h.accepted
            repair;
      replays = h.replays;
      accepted = h.accepted;
      sound = h.sound;
      bound = omega (arith, h.next, h.bound);
    }
