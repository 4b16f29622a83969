-- ===== src/Samples/Logs.antt =====
-- The theorems on the write-ahead log, at concrete inputs.
use cere_db.Base.{◌<◌, ◌+◌, length, ℕ, ◌≡◌, refl, Bool, some, List, [], ◌∷◌, ◌++◌, arith, All}
use cere_db.Error.{Result, ok, err, io, other}
use cere_db.Wal.{WalValueRef, Frame, Analysis, update, commit, no_analysis, wal_header_size}
use cere_db.Wal.Codec.{has_stray_value}
use cere_db.Wal.Codec.RoundTrip.{FitsFrame}
use cere_db.Wal.Log.{log_bytes, accept_frames}
use cere_db.Bytes.{Bytes}
use cere_db.Wal.Logged.Reference.{committed_of, scan_segment-committed_of}
use cere_db.Wal.Owner.{trusted_recovery_position}
use cere_db.Wal.Owner.Refused.{IsClosed, append_transactions-IsClosed}
use cere_db.Wal.Owner.Untracked.{Call, calls, trusted_recovery_position-untracked}
use cere_db.Wal.Recovery.{redo}
use cere_db.Wal.Scan.{Scanned, reject, scan_frames, scan_legacy, scan_segment_with_tail_handling}
use cere_db.Wal.Scan.Fuel.{scan_loops_fuel}
use cere_db.Wal.Scan.Segment.{segment_bytes}
use cere_db.Wal.Manager.{
  WalManager, ensure_healthy, written, torn, append_transactions, commands_of,
}
use cere_db.Wal.Session.{open_again}
use cere_db.Wal.Session.Recovery.{fresh, fresh-IsLogged}
use cere_db.Samples.{sum_crc, sum_crc-lt}
use cere_db.Samples.Sessions.{put_a, delete_b}

-- A writer that the engine owns, and whose position is lost by a write of another.
abbrev owned : WalManager
owned = fresh sum_crc sum_crc-lt 4096 Bool.true

abbrev some_calls : List Call
some_calls = Call.register 1 ∷ Call.append ((put_a ∷ []) ∷ []) (some 1) Bool.true written ∷ []

trusted_recovery_position-untracked_example : ¬ (
    trusted_recovery_position
      (calls sum_crc owned (some_calls ++ Call.write (delete_b ∷ []) written ∷ Call.rotate ∷ []))
    ≡ ok (some (1, 6)))
trusted_recovery_position-untracked_example =
    trusted_recovery_position-untracked sum_crc owned some_calls (Call.rotate ∷ [])
      (Call.write (delete_b ∷ []) written) (1, 6) refl

-- A group of one command, whose write fails after 30 bytes.
abbrev torn_append : WalManager × Result (List (List WalValueRef))
torn_append = append_transactions sum_crc owned ((put_a ∷ []) ∷ []) Bool.false (torn 30)

whole_append : (append_transactions sum_crc owned ((put_a ∷ []) ∷ []) Bool.false written).1 ≡ ok []
unfolding append_transactions cere_db.TreeMap.get cere_db.Wal.Plan.plan_transactions
    cere_db.Wal.Codec.has_stray_value cere_db.Wal.Codec.encode_frame cere_db.Wal.Codec.frame_body
    cere_db.Bytes.to_be_bytes cere_db.Wal.Codec.update_bytes cere_db.Wal.Codec.frame_header
    cere_db.TreeMap.insert cere_db.Wal.Header.encode cere_db.Wal.Plan.all_receipts
whole_append = refl

append_transactions-IsClosed_example :
    (torn_append.1 ≡ err (io other))
    × IsClosed sum_crc torn_append.0
    × ((r : WalManager) × (open_again sum_crc torn_append.0 ≡ ok r) × (ensure_healthy r ≡ ok tt))
append_transactions-IsClosed_example =
    append_transactions-IsClosed sum_crc sum_crc-lt owned no_analysis (put_a ∷ []) [] Bool.false 30
      [] (fresh-IsLogged sum_crc sum_crc-lt 4096 Bool.true) ((omega arith, tt), tt) whole_append

-- A transaction that is committed, and one that is not.
abbrev frames : List Frame
frames =
    (record { lsn = 1; transaction_id = 1; previous_lsn = 0; body = update put_a })
    ∷ (record { lsn = 2; transaction_id = 1; previous_lsn = 1; body = commit })
    ∷ (record { lsn = 3; transaction_id = 3; previous_lsn = 0; body = update delete_b })
    ∷ []

abbrev frames-FitsFrame : All FitsFrame frames
frames-FitsFrame = (
  record {
    lsn = omega arith;
    transaction_id = omega arith;
    previous_lsn = omega arith;
    content = record {
      lsn = omega arith;
      plain = unfold has_stray_value in refl;
      size = omega arith;
    };
  },
  (
    record {
      lsn = omega arith;
      transaction_id = omega arith;
      previous_lsn = omega arith;
      content = tt;
    },
    (
      record {
        lsn = omega arith;
        transaction_id = omega arith;
        previous_lsn = omega arith;
        content = record {
          lsn = omega arith;
          plain = unfold has_stray_value in refl;
          size = omega arith;
        };
      },
      tt,
    ),
  ),
)

abbrev frames-analysis : Analysis
frames-analysis = elim (accept_frames sum_crc sum_crc-lt 0 no_analysis wal_header_size frames) [
  | ok a ↦ a
  | err e ↦ no_analysis
]

frames-accepted :
    accept_frames sum_crc sum_crc-lt 0 no_analysis wal_header_size frames ≡ ok frames-analysis
unfolding accept_frames cere_db.Wal.Recovery.accept cere_db.TreeMap.get cere_db.TreeMap.insert
frames-accepted = refl

scan_segment-committed_of_example :
    (r : Scanned) × (scan_segment_with_tail_handling sum_crc 0
        (segment_bytes sum_crc sum_crc-lt frames)
        reject
        no_analysis
      ≡ ok r)
    × (commands_of (redo r.analysis) ≡ ok (committed_of frames))
scan_segment-committed_of_example =
    scan_segment-committed_of sum_crc sum_crc-lt reject 0 frames-analysis frames frames-FitsFrame
      frames-accepted

-- The scan goes through the three frames, and the fuel that is left does not count.
abbrev log : Bytes
log = log_bytes sum_crc sum_crc-lt frames

frames_scanned :
    scan_frames sum_crc 200 0 no_analysis wal_header_size log
    ≡ some (ok (frames-analysis, wal_header_size + length log))
unfolding scan_frames log_bytes cere_db.Wal.Codec.frame_header cere_db.Bytes.to_be_bytes
    cere_db.Wal.Codec.frame_body cere_db.Wal.Codec.update_bytes
    cere_db.Wal.Codec.decode_frame_header cere_db.Bytes.from_be_bytes cere_db.Wal.Scan.bad_size
    cere_db.Wal.Codec.verify_frame_body cere_db.Wal.Codec.decode_frame cere_db.Bytes.Reader.◌>>=◌
    cere_db.Bytes.Reader.read_be cere_db.Bytes.Reader.read_exact
    cere_db.Wal.Codec.decode_record_type has_stray_value cere_db.Bytes.Reader.remaining
    cere_db.Bytes.Reader.guard cere_db.Bytes.Reader.lift cere_db.Bytes.Reader.pure
    cere_db.TreeMap.get cere_db.TreeMap.insert cere_db.Wal.Recovery.accept accept_frames
frames_scanned = refl

scan_loops_fuel_example :
    ((end : Result (Analysis × ℕ)) × ((n : ℕ)
        → length log < n
        → scan_frames sum_crc n 0 no_analysis wal_header_size log ≡ some end))
    × ((end : Result (Analysis × ℕ)) × ((n : ℕ)
          → length log < n
          → scan_legacy sum_crc n no_analysis wal_header_size log ≡ some end))
scan_loops_fuel_example = scan_loops_fuel sum_crc 0 no_analysis wal_header_size log
