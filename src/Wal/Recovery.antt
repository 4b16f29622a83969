-- ===== src/Wal/Recovery.antt =====
-- storage/recovermanager/wal.rs, `Analysis`: what a scan of the log collects, and the records of the
-- committed transactions.
pub mod Open
pub mod Sound
use cere_db.Base.{
  ℕ, ◌+◌, ◌%◌, ◌^◌, Bool, true, false, not, ◌||◌, ◌&&◌, ltb, ◌==◌, Option, none, some, List, [],
  ◌∷◌, ◌++◌, length, if◌then◌else◌,
}
use cere_db.Error.{Result, ok, err, corrupted, storage_error, ◌>>=◌}
use cere_db.Bytes.{Bytes}
use cere_db.Ord.{nat_ord}
use cere_db.TreeMap
use cere_db.TreeMap.{TreeMap}
use cere_db.Record.{type_byte}
use cere_db.LogStore.{LogCommand}
use cere_db.Wal.{
  WalRecord, TransactionRecord, update, commit, Frame, FramePosition, UpdatePosition,
  CommitPosition, LoggedUpdate, IdSet, Analysis, WalValueRef, RecoveredWalUpdate,
}

-- `unwrap_or`
abbrev pub or_number : Option ℕ → ℕ → ℕ
or_number none n = n
or_number (some k) n = k

abbrev pub is_some {ℓ} : {A : Type ℓ} → Option A → Bool
is_some none = Bool.false
is_some (some a) = Bool.true

unfoldable pub has_id : ℕ → IdSet → Bool
has_id id ids = is_some (TreeMap.get id ids)

unfoldable pub previous_of : ℕ → Analysis → ℕ
previous_of transaction_id a = or_number (TreeMap.get transaction_id a.previous_lsns) 0

-- The increment wraps as in a release build.
unfoldable pub breaks_chain : Analysis → Frame → Bool
unfolding has_id previous_of
breaks_chain a f =
    not (f.lsn == (a.latest_lsn + 1) % 2 ^ 64)
    || f.transaction_id == 0
    || has_id f.transaction_id a.committed_transactions
    || not (f.previous_lsn == previous_of f.transaction_id a)

-- The first update of a transaction is where the transaction starts.
unfoldable pub starts_with : Analysis → Frame → FramePosition → TreeMap ℕ ℕ
unfolding previous_of
starts_with a f position =
    if a.track_refs && previous_of f.transaction_id a == 0
    then TreeMap.insert f.transaction_id position.offset a.transaction_starts
    else a.transaction_starts

unfoldable pub update_position : Frame → FramePosition → TreeMap ℕ ℕ → UpdatePosition
update_position f position starts = record {
  segment_id = position.segment_id;
  transaction_start_offset = or_number (TreeMap.get f.transaction_id starts) position.offset;
  frame_offset = position.offset;
  frame_length = position.length;
  physical_lsn = f.lsn;
}

-- `self.track_refs.then(...)`
abbrev pub tracked : Bool → UpdatePosition → Option UpdatePosition
tracked true p = some p
tracked false p = none

unfoldable pub accept_update : Analysis → Frame → LogCommand → ℕ → FramePosition → Analysis
unfolding starts_with update_position
accept_update a f c checksum position = record a {
  latest_lsn = f.lsn;
  previous_lsns = TreeMap.insert f.transaction_id f.lsn a.previous_lsns;
  transaction_starts = starts_with a f position;
  updates =
      a.updates
      ++ (record {
        transaction_id = f.transaction_id;
        command = c;
        checksum = checksum;
        position = tracked a.track_refs (update_position f position (starts_with a f position));
      })
        ∷ [];
}

unfoldable pub accept_commit : Analysis → Frame → FramePosition → Analysis
accept_commit a f position = record a {
  latest_lsn = f.lsn;
  previous_lsns = TreeMap.insert f.transaction_id f.lsn a.previous_lsns;
  committed_transactions = TreeMap.insert f.transaction_id tt a.committed_transactions;
  commit_positions =
      if a.track_refs
      then TreeMap.insert f.transaction_id
          (record { frame_offset = position.offset; commit_lsn = f.lsn }) a.commit_positions
      else a.commit_positions;
}

unfoldable pub accept_record :
    Analysis → Frame → TransactionRecord → ℕ → FramePosition → Result Analysis
unfolding previous_of accept_update accept_commit
accept_record a f (update c) checksum position = ok (accept_update a f c checksum position)
accept_record a f commit checksum position =
    if previous_of f.transaction_id a == 0
    then err (corrupted "Commit without update")
    else ok (accept_commit a f position)

unfoldable pub accept : Analysis → Frame → ℕ → FramePosition → Result Analysis
unfolding breaks_chain accept_record
accept a f checksum position =
    if breaks_chain a f
    then err (corrupted "Invalid WAL transaction chain")
    else accept_record a f f.body checksum position

unfoldable pub is_committed : IdSet → LoggedUpdate → Bool
unfolding has_id
is_committed committed u = has_id u.transaction_id committed

unfoldable pub record_of : LogCommand → ℕ → WalRecord
record_of c checksum = record {
  record_type = type_byte c.record_type;
  lsn = c.lsn;
  key = c.key;
  value = c.value;
  checksum = checksum;
}

-- `filter(..).map(..)`
unfoldable pub committed_records : IdSet → List LoggedUpdate → List WalRecord
unfolding is_committed record_of
committed_records committed [] = []
committed_records committed (u ∷ us) =
    let rest = committed_records committed us in
    if is_committed committed u then record_of u.command u.checksum ∷ rest else rest

unfoldable pub redo : Analysis → List WalRecord
unfolding committed_records
redo a = a.legacy ++ committed_records a.committed_transactions a.updates

-- `ok_or_else`
abbrev pub some_or {ℓ} : {A : Type ℓ} → Option A → Result A → Result A
some_or none r = r
some_or (some a) r = ok a

unfoldable pub is_empty_list {ℓ} : {A : Type ℓ} → List A → Bool
is_empty_list [] = Bool.true
is_empty_list (x ∷ xs) = Bool.false

module _ (crc32 : Bytes → ℕ) where
  -- The reference of an update in its committed transaction. `u32::try_from` is a test.
  unfoldable pub reference_of : LoggedUpdate → UpdatePosition → CommitPosition → Result WalValueRef
  reference_of u p c =
      if ltb (length u.command.key) (2 ^ 32)
      then ok (record {
        segment_id = p.segment_id;
        transaction_id = u.transaction_id;
        transaction_start_offset = p.transaction_start_offset;
        commit_offset = c.frame_offset;
        commit_lsn = c.commit_lsn;
        frame_offset = p.frame_offset;
        frame_length = p.frame_length;
        physical_lsn = p.physical_lsn;
        application_sequence = u.command.lsn;
        record_type = u.command.record_type;
        key_length = length u.command.key;
        key_checksum = crc32 u.command.key;
        value_length = length u.command.value;
        value_checksum = crc32 u.command.value;
      })
      else err (corrupted "WAL key length overflow")

  unfoldable pub refer : TreeMap ℕ CommitPosition → LoggedUpdate → Result RecoveredWalUpdate
  unfolding reference_of record_of
  refer commits u =
      some_or u.position (err (storage_error "WAL recovery is missing an update position")) >>= λ p.
      some_or (TreeMap.get u.transaction_id commits)
        (err (storage_error "WAL recovery is missing a commit position"))
      >>= λ c. reference_of u p c >>= λ r.
          ok (record { recovered = record_of u.command u.checksum; reference = r })

  unfoldable pub refer_all :
      IdSet → TreeMap ℕ CommitPosition → List LoggedUpdate → Result (List RecoveredWalUpdate)
  unfolding refer is_committed
  refer_all committed commits [] = ok []
  refer_all committed commits (u ∷ us) =
      let rest = refer_all committed commits us in
      if is_committed committed u
      then (refer commits u >>= λ r. rest >>= λ rs. ok (r ∷ rs))
      else rest

  unfoldable pub redo_with_refs : Analysis → Result (List RecoveredWalUpdate)
  unfolding refer_all is_empty_list
  redo_with_refs a =
      if is_empty_list a.legacy
      then refer_all a.committed_transactions a.commit_positions a.updates
      else err (storage_error "Legacy WAL records do not carry value references")
