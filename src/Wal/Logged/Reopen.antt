-- ===== src/Wal/Logged/Reopen.antt =====
-- `new_inner` on the directory that a writer leaves, whatever became of its last write.
use cere_db.Base.{
  ℕ, ◌+◌, ◌%◌, ◌<◌, ◌^◌, ◌≡◌, refl, sym, ap, ◌∙◌, false, Bool, Option, some, none, [], ◌∷◌, ◌++◌,
  length, length-append, arith,
}
use cere_db.Error.{ok}
use cere_db.Bytes.{Bytes}
use cere_db.Ord.{nat_ord}
use cere_db.TreeMap
use cere_db.Manifest.{RecoveryCheckpoint}
use cere_db.Wal.{Analysis, wal_version}
use cere_db.Wal.Header.{default_header, encode, length-encode_header}
use cere_db.Wal.Log.{log_bytes}
use cere_db.Wal.Scan.{repair}
use cere_db.Wal.Scan.Segment.{segment_bytes}
use cere_db.Wal.Manager.{WalManager, new_inner}
use cere_db.Wal.Segments.{
  Segments, ScannedAll, analysis_from, floor_of, is_empty_directory, size_of, ids_of, scan_all,
  active_segment,
}
use cere_db.Wal.Directory.{IsFrom-last, insert-last, get-last, last_id-IsFrom, segment_paths-IsFrom}
use cere_db.Wal.Logged.{entries, scan_all-last, IsLogged}
use cere_db.Wal.Logged.Write.{HasLog}

last-is_empty_directory :
    (ss : Segments) (id : ℕ) (file : Bytes) → is_empty_directory (ss ++ (id, file) ∷ []) ≡ false
last-is_empty_directory [] id file = refl
last-is_empty_directory (s ∷ ss) id file = refl

module _ (crc32 : Bytes → ℕ) (crc32_u32 : (bs : Bytes) → crc32 bs < 2 ^ 32)
    (checkpoint : Option RecoveryCheckpoint) (max_segment_size : ℕ) (owner : Bool)
    (files : Segments) (origin a : Analysis)
    (starts : analysis_from Bool.false checkpoint ≡ ok origin)
    (h : HasLog crc32 crc32_u32 Bool.false files (floor_of checkpoint) origin a) where
  abbrev olds : Segments
  olds = entries crc32 crc32_u32 h.sealed

  abbrev left : Segments
  left = olds ++ (h.id, h.file) ∷ []

  abbrev repaired : Segments
  repaired = olds ++ (h.id, segment_bytes crc32 crc32_u32 h.frames) ∷ []

  abbrev scanned : ScannedAll
  scanned = record { version = wal_version; analysis = a; files = repaired }

  abbrev reopened : WalManager
  reopened = record {
    files = repaired;
    segment_id = h.id;
    size = size_of h.id repaired;
    next_lsn = (a.latest_lsn + 1) % 2 ^ 64;
    poisoned = Bool.false;
    sealed = TreeMap.remove h.id (ids_of left);
    checkpoint = checkpoint;
    max_segment_size = max_segment_size;
    raw_writes = Bool.false;
    checkpoint_owner = owner;
    checkpoint_owner_registered = Bool.false;
    checkpoint_token = none;
  }

  scan_all-repaired : scan_all crc32 repair wal_version origin left left ≡ ok scanned
  scan_all-repaired =
      scan_all-last crc32 crc32_u32 repair wal_version origin h.before left h.sealed h.id h.file _
        h.fits_sealed h.replays h.repairs
      ∙ ap (λ ss. ok (record { version = wal_version; analysis = a; files = ss }))
          (insert-last h.first h.id h.file (segment_bytes crc32 crc32_u32 h.frames) olds
            h.consecutive)

  active_segment-repaired : active_segment crc32 left scanned ≡ ok (h.id, repaired)
  unfolding active_segment
  active_segment-repaired =
      let file = h.file in
      rw (last-is_empty_directory olds h.id file, last_id-IsFrom h.first h.id file olds) refl

  new_inner-left : new_inner crc32 left max_segment_size checkpoint owner ≡ ok reopened
  unfolding new_inner
  new_inner-left =
      let paths =
        segment_paths-IsFrom h.first h.id h.file olds (floor_of checkpoint) h.consecutive
          h.floor_first in
      rw (paths, starts, scan_all-repaired, active_segment-repaired) refl

  reopened-IsLogged : IsLogged crc32 crc32_u32 Bool.false reopened a
  unfolding segment_bytes size_of
  reopened-IsLogged =
      let file = segment_bytes crc32 crc32_u32 h.frames in
      let consecutive = IsFrom-last h.first h.id h.file file olds h.consecutive in
      let found : TreeMap.get h.id repaired ≡ some file =
        get-last h.first h.id file olds consecutive in
      let sized : size_of h.id repaired ≡ length file = rw (found, size_of) refl in
      let wraps : (a.latest_lsn + 1) % 2 ^ 64 ≡ a.latest_lsn + 1 = omega (arith, h.bound) in
      record {
        first = h.first;
        sealed = h.sealed;
        frames = h.frames;
        origin = origin;
        before = h.before;
        files = refl;
        consecutive = consecutive;
        floor = h.floor_first;
        starts = starts;
        fits_sealed = h.fits_sealed;
        fits = h.fits;
        replays = h.replays;
        accepted = h.accepted;
        sound = h.sound;
        next = sym wraps;
        bound = omega (arith, wraps, h.bound);
        size =
            sized
            ∙ (omega (
              arith,
              length-encode_header crc32,
              length-append (encode crc32 default_header) (log_bytes crc32 crc32_u32 h.frames),
            ));
        healthy = refl;
      }

  -- The log that is opened again holds what the directory held.
  pub new_inner-HasLog :
      (r : WalManager) × (new_inner crc32 files max_segment_size checkpoint owner ≡ ok r)
      × IsLogged crc32 crc32_u32 Bool.false r a
      × (r.checkpoint ≡ checkpoint)
      × (r.max_segment_size ≡ max_segment_size)
  new_inner-HasLog = (
    reopened,
    ap (λ ss. new_inner crc32 ss max_segment_size checkpoint owner) h.files ∙ new_inner-left,
    reopened-IsLogged,
    refl,
    refl,
  )
