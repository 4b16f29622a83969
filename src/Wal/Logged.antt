-- ===== src/Wal/Logged.antt =====
-- The writer, its directory and the analysis of its log together.
pub mod Answer
pub mod Append
pub mod Flags
pub mod Recover
pub mod Reference
pub mod Reopen
pub mod Rotate
pub mod Write
use mathlib.Core.Path.{subst}
use cere_db.Base.{
  ℕ, suc, ◌+◌, ◌-◌, ◌%◌, ◌≤◌, ◌<◌, ◌^◌, ◌≡◌, refl, sym, ap, ◌∙◌, true, false, ltb, Bool, Option,
  some, none, List, [], ◌∷◌, ◌++◌, append_assoc, length, length-append, arith, All, All-append,
  if◌then◌else◌,
}
use cere_db.Error.{Result, ok, err, ◌>>=◌}
use cere_db.Bytes.{Bytes}
use cere_db.Ord.{nat_ord}
use cere_db.TreeMap
use cere_db.LogStore.{LogCommand}
use cere_db.Wal.{Frame, Analysis, wal_header_size, wal_version, no_analysis}
use cere_db.Wal.Codec.RoundTrip.{FitsFrame}
use cere_db.Wal.Log.{log_bytes, accept_frames}
use cere_db.Wal.Scan.{TailHandling, repair, allow, reject, Scanned, scan_segment_with_tail_handling}
use cere_db.Wal.Scan.Segment.{segment_bytes, scan_segment-whole, scan_segment-repair}
use cere_db.Wal.Manager.{WalManager, ensure_healthy, analyze_committed}
use cere_db.Wal.Segments.{Segments, ScannedAll, analysis_from, scan_all, floor_of, segment_paths}
use cere_db.Wal.Directory.{IsFrom, insert-last, segment_paths-IsFrom}
use cere_db.Wal.Recovery.Sound.{IsSound, commands}

-- The segments as lists of frames.
abbrev pub Journal : Type 0
Journal = List (ℕ × List Frame)

abbrev pub FitsSegment : ℕ × List Frame → Type 0
FitsSegment s = All FitsFrame s.1

module _ (crc32 : Bytes → ℕ) (crc32_u32 : (bs : Bytes) → crc32 bs < 2 ^ 32) where
  unfoldable pub entries : Journal → Segments
  entries [] = []
  entries ((id, fs) ∷ j) = (id, segment_bytes crc32 crc32_u32 fs) ∷ entries j

  -- The frames of the segments lead from `a` to `b`.
  abbrev pub Replays : Analysis → Journal → Analysis → Type 0
  Replays a [] b = a ≡ b
  Replays a ((id, fs) ∷ j) b =
      (c : Analysis) × (accept_frames crc32 crc32_u32 id a wal_header_size fs ≡ ok c)
      × Replays c j b

  pub entries-append : (i j : Journal) → entries (i ++ j) ≡ entries i ++ entries j
  unfolding entries
  entries-append [] j = refl
  entries-append ((id, fs) ∷ i) j =
      ap (λ ss. (id, segment_bytes crc32 crc32_u32 fs) ∷ ss) (entries-append i j)

  pub Replays-append :
      (a b c : Analysis) (i j : Journal) → Replays a i b → Replays b j c → Replays a (i ++ j) c
  Replays-append a b c [] j h k = subst (λ x. Replays x j c) (sym h) k
  Replays-append a b c ((id, fs) ∷ i) j (d, e, h) k = (d, e, Replays-append d b c i j h k)

  -- A scan reads the sealed segments, and then the last one as its tail is handled.
  pub scan_all-last :
      (t : TailHandling) (version : ℕ) (a b : Analysis) (files : Segments) (j : Journal) (id : ℕ)
      (file : Bytes) (r : Scanned)
      → All FitsSegment j
      → Replays a j b
      → scan_segment_with_tail_handling crc32 id file t b ≡ ok r
      → scan_all crc32 t version a files (entries j ++ (id, file) ∷ [])
        ≡ ok (record {
          version = r.version;
          analysis = r.analysis;
          files = TreeMap.insert id r.file files;
        })
  unfolding scan_all entries
  scan_all-last t version a b files [] id file r fits h e =
      let same : scan_segment_with_tail_handling crc32 id file t a ≡ ok r = rw h e in rw same refl
  scan_all-last t version a b files ((k, fs) ∷ []) id file r fits (c, e, h) last =
      let whole = scan_segment-whole crc32 crc32_u32 k a c fs fits.0 e reject in
      rw whole (scan_all-last t wal_version c b files [] id file r tt h last)
  scan_all-last t version a b files ((k, fs) ∷ (l, gs) ∷ j) id file r fits (c, e, h) last =
      let whole = scan_segment-whole crc32 crc32_u32 k a c fs fits.0 e reject in
      rw whole (scan_all-last t wal_version c b files ((l, gs) ∷ j) id file r fits.1 h last)

  -- The directory is the sealed segments and the active one, whose frames lead to the analysis `a`.
  pub record IsLogged (track_refs : Bool) (w : WalManager) (a : Analysis) : Type 0 where
    pub first : ℕ
    pub sealed : Journal
    pub frames : List Frame
    pub origin : Analysis
    pub before : Analysis
    pub files :
        w.files ≡ entries sealed ++ (w.segment_id, segment_bytes crc32 crc32_u32 frames) ∷ []
    pub consecutive :
        IsFrom first (entries sealed ++ (w.segment_id, segment_bytes crc32 crc32_u32 frames) ∷ [])
    pub floor : (n : ℕ) → floor_of w.checkpoint ≡ some n → n ≡ first
    pub starts : analysis_from track_refs w.checkpoint ≡ ok origin
    pub fits_sealed : All FitsSegment sealed
    pub fits : All FitsFrame frames
    pub replays : Replays origin sealed before
    pub accepted : accept_frames crc32 crc32_u32 w.segment_id before wal_header_size frames ≡ ok a
    pub sound : IsSound a
    pub next : a.latest_lsn + 1 ≡ w.next_lsn
    pub bound : w.next_lsn < 2 ^ 64
    pub size : w.size ≡ wal_header_size + length (log_bytes crc32 crc32_u32 frames)
    pub healthy : w.poisoned ≡ false

  pub ensure_healthy-ok : (w : WalManager) → w.poisoned ≡ false → ensure_healthy w ≡ ok tt
  unfolding ensure_healthy
  ensure_healthy-ok w h = rw h refl

  -- A recovery of a log that is open finds its analysis.
  pub analyze_committed-IsLogged :
      (track_refs : Bool) (w : WalManager) (a : Analysis)
      → IsLogged track_refs w a
      → analyze_committed crc32 w track_refs ≡ ok a
  unfolding analyze_committed
  analyze_committed-IsLogged track_refs w a h =
      let paths : segment_paths w.files (floor_of w.checkpoint) ≡ ok w.files = rw h.files (
        segment_paths-IsFrom h.first w.segment_id (segment_bytes crc32 crc32_u32 h.frames)
          (entries h.sealed) (floor_of w.checkpoint) h.consecutive h.floor) in
      let last =
        scan_segment-whole crc32 crc32_u32 w.segment_id h.before a h.frames h.fits h.accepted
          reject in
      let all =
        scan_all-last reject wal_version h.origin h.before w.files h.sealed w.segment_id
          (segment_bytes crc32 crc32_u32 h.frames) _ h.fits_sealed h.replays last in
      let scanned : scan_all crc32 reject wal_version h.origin w.files w.files ≡ _ =
        ap (λ ss. scan_all crc32 reject wal_version h.origin w.files ss) h.files ∙ all in
      rw (ensure_healthy-ok w h.healthy, h.starts, paths, scanned) refl
