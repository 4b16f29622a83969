-- ===== src/Wal/Logged/Rotate.antt =====
-- A new segment of a log that is open.
use cere_db.Base.{
  take, ℕ, ◌+◌, ◌<◌, ◌^◌, ◌≡◌, refl, sym, ◌∙◌, true, ltb, Bool, Bool-cases, inl, inr, [], ◌∷◌, ◌++◌,
  append-nil, arith, All-append,
}
use cere_db.Error.{ok, eq_of_ok}
use cere_db.Bytes.{Bytes}
use cere_db.Ord.{nat_ord}
use cere_db.TreeMap
use cere_db.Wal.{Analysis, wal_header_size}
use cere_db.Wal.Header.{default_header, encode}
use cere_db.Wal.Log.{log_bytes, accept_frames}
use cere_db.Wal.Scan.Header.{scan_segment-header}
use cere_db.Wal.Logged.Write.{HasLog}
use cere_db.Wal.Scan.Segment.{segment_bytes}
use cere_db.Wal.Manager.{WalManager, rotate_locked}
use cere_db.Wal.Segments.{floor_of, is_missing, create_segment}
use cere_db.Wal.Directory.{IsFrom-next, insert-next, next-is_missing}
use cere_db.Wal.Logged.{FitsSegment, entries, entries-append, Replays-append, IsLogged}

module _ (crc32 : Bytes → ℕ) (crc32_u32 : (bs : Bytes) → crc32 bs < 2 ^ 32) where
  module _ (track_refs : Bool) (w : WalManager) (a : Analysis)
      (h : IsLogged crc32 crc32_u32 track_refs w a) where
    abbrev old_file : Bytes
    old_file = segment_bytes crc32 crc32_u32 h.frames

    abbrev rotated : WalManager
    rotated = record w {
      files = TreeMap.insert (w.segment_id + 1) (encode crc32 default_header) w.files;
      sealed = TreeMap.insert w.segment_id tt w.sealed;
      segment_id = w.segment_id + 1;
      size = wal_header_size;
    }

    rotated-IsLogged : IsLogged crc32 crc32_u32 track_refs rotated a
    unfolding segment_bytes log_bytes accept_frames
    rotated-IsLogged =
        let empty : segment_bytes crc32 crc32_u32 [] ≡ encode crc32 default_header =
          append-nil (encode crc32 default_header) in
        let olds = entries crc32 crc32_u32 h.sealed in
        let sealed' : entries crc32 crc32_u32 (h.sealed ++ (w.segment_id, h.frames) ∷ [])
            ≡ olds ++ (w.segment_id, old_file) ∷ [] =
          entries-append crc32 crc32_u32 h.sealed ((w.segment_id, h.frames) ∷ [])
          ∙ (unfold entries in refl) in
        record {
          first = h.first;
          sealed = h.sealed ++ (w.segment_id, h.frames) ∷ [];
          frames = [];
          origin = h.origin;
          before = a;
          files =
              rw (sealed', empty, h.files)
                (insert-next h.first w.segment_id old_file (encode crc32 default_header) olds
                  h.consecutive);
          consecutive =
              rw (sealed', empty)
                (IsFrom-next h.first w.segment_id old_file (encode crc32 default_header) olds
                  h.consecutive);
          floor = h.floor;
          starts = h.starts;
          fits_sealed = All-append FitsSegment h.sealed (_ ∷ []) h.fits_sealed (h.fits, tt);
          fits = tt;
          replays =
              Replays-append crc32 crc32_u32 h.origin h.before a h.sealed
                ((w.segment_id, h.frames) ∷ []) h.replays (a, h.accepted, refl);
          accepted = refl;
          sound = h.sound;
          next = h.next;
          bound = h.bound;
          size = omega arith;
          healthy = h.healthy;
        }

    rotate_locked-rotated : (r : WalManager) → rotate_locked crc32 w ≡ ok r → r ≡ rotated
    unfolding rotate_locked create_segment
    rotate_locked-rotated r e =
        let missing : is_missing (w.segment_id + 1) w.files ≡ true = rw h.files (
          next-is_missing h.first w.segment_id old_file (entries crc32 crc32_u32 h.sealed)
            h.consecutive) in
        elim (Bool-cases (ltb (w.segment_id + 1) (2 ^ 64))) [
          | inr f ↦ absurd (ground (arith, e, f))
          | inl t ↦ sym (eq_of_ok rotated r (rw (t, missing) at e))
        ]

    -- A new segment changes nothing of what is logged.
    pub rotate_locked-IsLogged :
        (r : WalManager)
        → rotate_locked crc32 w ≡ ok r
        → IsLogged crc32 crc32_u32 track_refs r a
          × (r.next_lsn ≡ w.next_lsn)
          × (r.checkpoint ≡ w.checkpoint)
    rotate_locked-IsLogged r e =
        let same = rotate_locked-rotated r e in rw same (rotated-IsLogged, refl, refl)

    -- The new segment is empty.
    pub rotate_locked-empty :
        (r : WalManager)
        → rotate_locked crc32 w ≡ ok r
        → (k : IsLogged crc32 crc32_u32 track_refs r a) × (k.frames ≡ [])
    unfolding rotated-IsLogged
    rotate_locked-empty r e = rw (rotate_locked-rotated r e) (rotated-IsLogged, refl)

    -- A new segment whose header is cut off: its repair completes the header.
    pub interrupted-HasLog :
        (n : ℕ)
        → HasLog crc32 crc32_u32 track_refs
            (TreeMap.insert (w.segment_id + 1) (take n (encode crc32 default_header)) w.files)
            (floor_of w.checkpoint)
            h.origin
            a
    unfolding accept_frames
    interrupted-HasLog n =
        let olds = entries crc32 crc32_u32 h.sealed in
        let file = take n (encode crc32 default_header) in
        let sealed' : entries crc32 crc32_u32 (h.sealed ++ (w.segment_id, h.frames) ∷ [])
            ≡ olds ++ (w.segment_id, old_file) ∷ [] =
          entries-append crc32 crc32_u32 h.sealed ((w.segment_id, h.frames) ∷ [])
          ∙ (unfold entries in refl) in
        record {
          first = h.first;
          id = w.segment_id + 1;
          sealed = h.sealed ++ (w.segment_id, h.frames) ∷ [];
          frames = [];
          file = file;
          before = a;
          files =
              rw (sealed', h.files)
                (insert-next h.first w.segment_id old_file file olds h.consecutive);
          consecutive =
              rw sealed' (IsFrom-next h.first w.segment_id old_file file olds h.consecutive);
          floor_first = h.floor;
          fits_sealed = All-append FitsSegment h.sealed (_ ∷ []) h.fits_sealed (h.fits, tt);
          fits = tt;
          repairs = scan_segment-header crc32 crc32_u32 n (w.segment_id + 1) a;
          replays =
              Replays-append crc32 crc32_u32 h.origin h.before a h.sealed
                ((w.segment_id, h.frames) ∷ []) h.replays (a, h.accepted, refl);
          accepted = refl;
          sound = h.sound;
          bound = omega (arith, h.next, h.bound);
        }
