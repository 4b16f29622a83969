-- ===== src/Wal/Segments.antt =====
-- storage/recovermanager/wal.rs: the directory of the log, which is a map from the identifiers of
-- segments to their bytes and holds nothing else, and the scan of its segments.
use cere_db.Base.{
  ℕ, ◌+◌, ◌-◌, ◌^◌, Bool, not, ◌&&◌, ltb, ◌==◌, Option, none, some, [], ◌∷◌, length, if◌then◌else◌,
}
use cere_db.Error.{Result, ok, err, io, already_exists, corrupted, storage_error, ◌>>=◌}
use cere_db.Bytes.{Bytes}
use cere_db.Ord.{nat_ord}
use cere_db.TreeMap
use cere_db.TreeMap.{TreeMap}
use cere_db.Manifest.{RecoveryCheckpoint}
use cere_db.Wal.{Analysis, IdSet, no_analysis, legacy_wal_version}
use cere_db.Wal.Header.{default_header, encode}
use cere_db.Wal.Recovery.{is_some}
use cere_db.Wal.Scan.{TailHandling, reject, scan_segment_with_tail_handling}

abbrev pub Segments : Type 0
Segments = TreeMap ℕ Bytes

-- The segments from `floor` on.
unfoldable pub segments_from : ℕ → Segments → Segments
segments_from floor [] = []
segments_from floor ((id, bytes) ∷ ss) =
    let rest = segments_from floor ss in if ltb id floor then rest else (id, bytes) ∷ rest

unfoldable pub starts_at : ℕ → Segments → Bool
starts_at floor [] = Bool.false
starts_at floor ((id, bytes) ∷ ss) = id == floor

unfoldable pub is_consecutive : Segments → Bool
is_consecutive [] = Bool.true
is_consecutive ((id, bytes) ∷ []) = Bool.true
is_consecutive ((id, bytes) ∷ (next, more) ∷ ss) =
    next == id + 1 && is_consecutive ((next, more) ∷ ss)

unfoldable pub check_consecutive : Segments → Result Segments
unfolding is_consecutive
check_consecutive ss =
    if is_consecutive ss then ok ss else err (corrupted "Duplicate or missing WAL segment")

unfoldable pub segment_paths : Segments → Option ℕ → Result Segments
unfolding segments_from starts_at check_consecutive
segment_paths files none = check_consecutive files
segment_paths files (some floor) =
    if starts_at floor (segments_from floor files)
    then check_consecutive (segments_from floor files)
    else err (corrupted "Missing WAL checkpoint segment")

abbrev pub floor_of : Option RecoveryCheckpoint → Option ℕ
floor_of none = none
floor_of (some c) = some c.replay_start_segment

-- The analysis before the first segment.
unfoldable pub analysis_from : Bool → Option RecoveryCheckpoint → Result Analysis
analysis_from track_refs none = ok (record no_analysis { track_refs = track_refs })
analysis_from track_refs (some c) =
    if c.next_physical_lsn == 0
    then err (corrupted "invalid checkpoint physical LSN")
    else ok (record no_analysis { track_refs = track_refs; latest_lsn = c.next_physical_lsn - 1 })

unfoldable pub is_missing : ℕ → Segments → Bool
is_missing id files = not (is_some (TreeMap.get id files))

-- The directory after a segment has been created.
unfoldable pub create_segment : (Bytes → ℕ) → ℕ → Segments → Result Segments
unfolding is_missing
create_segment crc32 id files =
    if is_missing id files
    then ok (TreeMap.insert id (encode crc32 default_header) files)
    else err (io already_exists)

unfoldable pub size_of : ℕ → Segments → ℕ
size_of id files = elim (TreeMap.get id files) [ some bytes ↦ length bytes | none ↦ 0 ]

unfoldable pub last_id : Segments → ℕ
last_id [] = 0
last_id ((id, bytes) ∷ []) = id
last_id ((id, bytes) ∷ s ∷ ss) = last_id (s ∷ ss)

unfoldable pub ids_of : Segments → IdSet
ids_of [] = []
ids_of ((id, bytes) ∷ ss) = TreeMap.insert id tt (ids_of ss)

-- Segments that are read: the last version, the analysis, and the directory as it is left.
pub record ScannedAll : Type 0 where
  pub version : ℕ
  pub analysis : Analysis
  pub files : Segments

abbrev pub is_empty_directory : Segments → Bool
is_empty_directory [] = Bool.true
is_empty_directory (s ∷ ss) = Bool.false

module _ (crc32 : Bytes → ℕ) where
  -- Every segment but the last is sealed; `last` is how the last one's tail is handled.
  unfoldable pub scan_all : TailHandling → ℕ → Analysis → Segments → Segments → Result ScannedAll
  scan_all last version a files [] = ok (record { version = version; analysis = a; files = files })
  scan_all last version a files ((id, bytes) ∷ []) =
      scan_segment_with_tail_handling crc32 id bytes last a >>= λ r. ok (record {
        version = r.version;
        analysis = r.analysis;
        files = TreeMap.insert id r.file files;
      })
  scan_all last version a files ((id, bytes) ∷ s ∷ ss) =
      scan_segment_with_tail_handling crc32 id bytes reject a >>= λ r.
      scan_all last r.version r.analysis files (s ∷ ss)

  -- The segment that the writer appends to, and the directory with it: a new one if there is none, or
  -- if the last is of the old format.
  unfoldable pub active_segment : Segments → ScannedAll → Result (ℕ × Segments)
  unfolding last_id create_segment
  active_segment paths r =
      let last = last_id paths in
      if is_empty_directory paths
      then (create_segment crc32 0 r.files >>= λ files. ok (0, files))
      else if r.version == legacy_wal_version
      then (if ltb (last + 1) (2 ^ 64)
          then (create_segment crc32 (last + 1) r.files >>= λ files. ok (last + 1, files))
          else err (storage_error "WAL segment ID exhausted"))
      else ok (last, r.files)
  -- `new_inner`
