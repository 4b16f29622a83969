-- ===== src/Wal/Owner/Reclaim.antt =====
-- A checkpoint at the position of the writer, right after a rotation, as the flush of the memtable
-- takes it: what is left of the log.
use cere_db.Base.{
  ℕ, ◌+◌, ◌-◌, ◌<◌, ◌^◌, ◌≡◌, refl, sym, ap, ◌∙◌, true, false, not, ltb, ◌||◌, ◌==◌, Bool, none,
  some, [], ◌∷◌, ◌++◌, arith,
}
use cere_db.Error.{ok}
use cere_db.Bytes.{Bytes}
use cere_db.Ord.{nat_ord}
use cere_db.TreeMap
use cere_db.Manifest.{RecoveryCheckpoint}
use cere_db.Wal.{Analysis, IdSet, no_analysis}
use cere_db.Wal.Directory.{IsFrom, last-le}
use cere_db.Wal.Log.{accept_frames}
use cere_db.Wal.Logged.{IsLogged, entries, ensure_healthy-ok}
use cere_db.Wal.Manager.{WalManager}
use cere_db.Wal.Segments.{Segments, analysis_from}
use cere_db.Wal.Owner.{remove_covered, reclaim_checkpointed_segments}
use cere_db.Wal.Recovery.{previous_of, has_id}
use cere_db.Wal.Recovery.Sound.{IsSound}
use cere_db.Wal.Scan.Segment.{segment_bytes}

-- The checkpoint that the engine takes of a writer.
abbrev pub checkpoint_of : WalManager → ℕ → RecoveryCheckpoint
checkpoint_of w committed_sequence = record {
  replay_start_segment = w.segment_id;
  next_physical_lsn = w.next_lsn;
  committed_sequence = committed_sequence;
}

abbrev pub analysis_at : ℕ → Analysis
analysis_at latest_lsn = record no_analysis { latest_lsn = latest_lsn }

pub analysis_at-IsSound : (latest_lsn : ℕ) → IsSound (analysis_at latest_lsn)
unfolding previous_of has_id TreeMap.get
analysis_at-IsSound latest_lsn = record {
  updates = tt;
  previous = λ k h. refl;
  committed = λ k h. refl;
  modern = refl;
}

remove_covered-last :
    (first id : ℕ) (file : Bytes) (ss : Segments) (sealed : IdSet)
    → IsFrom first (ss ++ (id, file) ∷ [])
    → (left : IdSet) × (remove_covered none id (ss ++ (id, file) ∷ []) sealed
        ≡ ((id, file) ∷ [], left, true))
unfolding remove_covered
remove_covered-last first id file [] sealed h = (sealed, ground arith)
remove_covered-last first id file ((j, bytes) ∷ ss) sealed h =
    let (left, e) = remove_covered-last (first + 1) id file ss (TreeMap.remove j sealed) h.1 in
    let below : ltb j id ≡ true = ground (arith, h.0, last-le (first + 1) id file ss h.1) in
    (left, rw (below, remove_covered) e)

module _ (crc32 : Bytes → ℕ) (crc32_u32 : (bs : Bytes) → crc32 bs < 2 ^ 32) where
  -- If the active segment holds no frame, a checkpoint at the position of the writer leaves that
  -- segment alone, and the log is empty behind it.
  pub reclaim-IsLogged :
      (w : WalManager) (a : Analysis) (committed_sequence : ℕ)
      → (h : IsLogged crc32 crc32_u32 Bool.false w a) → h.frames ≡ []
      → w.checkpoint_owner ≡ true
      → (r : WalManager) × (reclaim_checkpointed_segments none
            (checkpoint_of w committed_sequence)
            w
          ≡ (r, ok tt))
        × IsLogged crc32 crc32_u32 Bool.false r (analysis_at (w.next_lsn - 1))
        × (r.checkpoint ≡ some (checkpoint_of w committed_sequence))
  unfolding reclaim_checkpointed_segments analysis_from
  reclaim-IsLogged w a committed_sequence h empty owner =
      let file = segment_bytes crc32 crc32_u32 h.frames in
      let olds = entries crc32 crc32_u32 h.sealed in
      let (left, removed) =
        remove_covered-last h.first w.segment_id file olds w.sealed h.consecutive in
      let covered : remove_covered none w.segment_id w.files w.sealed
          ≡ ((w.segment_id, file) ∷ [], left, true) =
        ap (λ ss. remove_covered none w.segment_id ss w.sealed) h.files ∙ removed in
      let allowed : (not w.checkpoint_owner) ≡ false = ground (arith, owner) in
      let within : ltb w.segment_id w.segment_id || ltb w.next_lsn w.next_lsn ≡ false =
        ground arith in
      let some_lsn : (w.next_lsn == 0) ≡ false = ground (arith, h.next) in
      let r : WalManager = record w {
        files = (w.segment_id, file) ∷ [];
        sealed = left;
        checkpoint = some (checkpoint_of w committed_sequence);
      } in
      (
        r,
        rw (allowed, ensure_healthy-ok crc32 crc32_u32 w h.healthy, within, covered) refl,
        (record {
          first = w.segment_id;
          sealed = [];
          frames = h.frames;
          origin = analysis_at (w.next_lsn - 1);
          before = analysis_at (w.next_lsn - 1);
          files = unfold entries in refl;
          consecutive = unfold entries in (refl, tt);
          floor = λ n e. ap (λ o. elim o [ some x ↦ x | none ↦ n ]) (sym e);
          starts = rw some_lsn refl;
          fits_sealed = tt;
          fits = rw empty tt;
          replays = refl;
          accepted = rw empty (unfold accept_frames in refl);
          sound = analysis_at-IsSound (w.next_lsn - 1);
          next = omega (arith, h.next);
          bound = h.bound;
          size = h.size;
          healthy = h.healthy;
        }),
        refl,
      )
