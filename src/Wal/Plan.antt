-- ===== src/Wal/Plan.antt =====
-- storage/recovermanager/wal.rs, `append_transactions`: the bytes of a group of transactions, and the
-- references to their updates.
pub mod Groups
pub mod Prefix
pub mod Updates
use cere_db.Base.{
  ℕ, ◌+◌, ◌^◌, Bool, true, false, not, ltb, List, [], ◌∷◌, ◌++◌, length, if◌then◌else◌,
}
use cere_db.Error.{Result, ok, err, storage_error, ◌>>=◌}
use cere_db.Bytes.{Bytes}
use cere_db.Record.{RecordType}
use cere_db.LogStore.{LogCommand}
use cere_db.Wal.{TransactionRecord, update, commit, Frame, WalValueRef, max_group_encoded_size}
use cere_db.Wal.Codec.{has_stray_value, encode_frame}

-- Its offsets count from the start of the group.
pub record PlannedUpdate : Type 0 where
  pub transaction_id : ℕ
  pub transaction_start_offset : ℕ
  pub frame_offset : ℕ
  pub frame_length : ℕ
  pub physical_lsn : ℕ
  pub application_sequence : ℕ
  pub record_type : RecordType
  pub key_length : ℕ
  pub key_checksum : ℕ
  pub value_length : ℕ
  pub value_checksum : ℕ

pub record PlannedTransaction : Type 0 where
  pub updates : List PlannedUpdate
  pub commit_offset : ℕ
  pub commit_lsn : ℕ

-- The variables of the two loops: `bytes`, `next_lsn` and `planned_transactions` outside, the others
-- for one transaction.
pub record Plan : Type 0 where
  pub bytes : Bytes
  pub next_lsn : ℕ
  pub planned : List PlannedTransaction

pub record OpenPlan : Type 0 where
  pub bytes : Bytes
  pub next_lsn : ℕ
  pub previous_lsn : ℕ
  pub group_size : ℕ
  pub updates : List PlannedUpdate

abbrev pub update_frame : ℕ → ℕ → ℕ → LogCommand → Frame
update_frame transaction_id previous_lsn lsn c = record {
  lsn = lsn;
  transaction_id = transaction_id;
  previous_lsn = previous_lsn;
  body = update c;
}

abbrev pub commit_frame : ℕ → ℕ → ℕ → Frame
commit_frame transaction_id previous_lsn lsn = record {
  lsn = lsn;
  transaction_id = transaction_id;
  previous_lsn = previous_lsn;
  body = commit;
}

abbrev pub open_plan : Plan → OpenPlan
open_plan p = record {
  bytes = p.bytes;
  next_lsn = p.next_lsn;
  previous_lsn = 0;
  group_size = 0;
  updates = [];
}

-- `checked_add` on a `u64`
unfoldable pub add_u64 : ℕ → ℕ → Result ℕ
add_u64 a b = if ltb (a + b) (2 ^ 64) then ok (a + b) else err (storage_error "WAL offset overflow")

-- Lengths fit a `u64`, and a frame's length a `u32`.
module _ (crc32 : Bytes → ℕ) (collecting : Bool) where
  unfoldable pub planned_update : ℕ → ℕ → OpenPlan → LogCommand → Bytes → PlannedUpdate
  planned_update transaction_id start p c frame = record {
    transaction_id = transaction_id;
    transaction_start_offset = start;
    frame_offset = length p.bytes;
    frame_length = length frame;
    physical_lsn = p.next_lsn;
    application_sequence = c.lsn;
    record_type = c.record_type;
    key_length = length c.key;
    key_checksum = crc32 c.key;
    value_length = length c.value;
    value_checksum = crc32 c.value;
  }

  unfoldable pub with_update : ℕ → ℕ → OpenPlan → LogCommand → Bytes → OpenPlan
  unfolding planned_update
  with_update transaction_id start p c frame = record {
    bytes = p.bytes ++ frame;
    next_lsn = p.next_lsn + 1;
    previous_lsn = p.next_lsn;
    group_size = p.group_size + length frame;
    updates =
        if collecting
        then p.updates ++ planned_update transaction_id start p c frame ∷ []
        else p.updates;
  }

  unfoldable pub plan_update : ℕ → ℕ → OpenPlan → LogCommand → Result OpenPlan
  unfolding with_update
  plan_update transaction_id start p c =
      if has_stray_value c.record_type c.value
      then err (storage_error "Delete contains a value")
      else if not (ltb (length c.key) (2 ^ 32))
      then err (storage_error "WAL key length overflow")
      else (encode_frame crc32 (update_frame transaction_id p.previous_lsn p.next_lsn c)
          >>= λ frame.
              if ltb max_group_encoded_size (p.group_size + length frame)
              then err (storage_error "WAL transaction exceeds group limit")
              else if not (ltb (p.next_lsn + 1) (2 ^ 64))
              then err (storage_error "WAL LSN exhausted")
              else ok (with_update transaction_id start p c frame))

  unfoldable pub plan_updates : ℕ → ℕ → OpenPlan → List LogCommand → Result OpenPlan
  unfolding plan_update
  plan_updates transaction_id start p [] = ok p
  plan_updates transaction_id start p (c ∷ cs) =
      plan_update transaction_id start p c >>= λ q. plan_updates transaction_id start q cs

  unfoldable pub plan_commit : ℕ → List PlannedTransaction → OpenPlan → Result Plan
  plan_commit transaction_id planned p =
      encode_frame crc32 (commit_frame transaction_id p.previous_lsn p.next_lsn) >>= λ frame.
      if ltb max_group_encoded_size (p.group_size + length frame)
      then err (storage_error "WAL transaction exceeds group limit")
      else if not (ltb (p.next_lsn + 1) (2 ^ 64))
      then err (storage_error "WAL LSN exhausted")
      else ok (record {
        bytes = p.bytes ++ frame;
        next_lsn = p.next_lsn + 1;
        planned =
            if collecting
            then planned
              ++ (record {
                updates = p.updates;
                commit_offset = length p.bytes;
                commit_lsn = p.next_lsn;
              })
                ∷ []
            else planned;
      })

  unfoldable pub plan_transaction : Plan → List LogCommand → Result Plan
  unfolding plan_updates plan_commit
  plan_transaction p [] = err (storage_error "WAL transaction must contain an update")
  plan_transaction p (c ∷ cs) =
      plan_updates p.next_lsn (length p.bytes) (open_plan p) (c ∷ cs) >>= λ q.
      plan_commit p.next_lsn p.planned q

  unfoldable pub plan_transactions : Plan → List (List LogCommand) → Result Plan
  unfolding plan_transaction
  plan_transactions p [] = ok p
  plan_transactions p (cs ∷ groups) = plan_transaction p cs >>= λ q. plan_transactions q groups

-- The references, once the segment and the place of the group in it are known.
module _ (segment_id segment_start : ℕ) where
  unfoldable pub receipt : ℕ → ℕ → PlannedUpdate → Result WalValueRef
  unfolding add_u64
  receipt commit_offset commit_lsn u = add_u64 segment_start u.transaction_start_offset >>= λ start.
      add_u64 segment_start u.frame_offset >>= λ frame_offset. ok (record {
        segment_id = segment_id;
        transaction_id = u.transaction_id;
        transaction_start_offset = start;
        commit_offset = commit_offset;
        commit_lsn = commit_lsn;
        frame_offset = frame_offset;
        frame_length = u.frame_length;
        physical_lsn = u.physical_lsn;
        application_sequence = u.application_sequence;
        record_type = u.record_type;
        key_length = u.key_length;
        key_checksum = u.key_checksum;
        value_length = u.value_length;
        value_checksum = u.value_checksum;
      })

  unfoldable pub receipts_of : ℕ → ℕ → List PlannedUpdate → Result (List WalValueRef)
  unfolding receipt
  receipts_of commit_offset commit_lsn [] = ok []
  receipts_of commit_offset commit_lsn (u ∷ us) = receipt commit_offset commit_lsn u >>= λ r.
      receipts_of commit_offset commit_lsn us >>= λ rs. ok (r ∷ rs)

  unfoldable pub all_receipts : List PlannedTransaction → Result (List (List WalValueRef))
  unfolding receipts_of add_u64
  all_receipts [] = ok []
  all_receipts (t ∷ ts) = add_u64 segment_start t.commit_offset >>= λ commit_offset.
      receipts_of commit_offset t.commit_lsn t.updates >>= λ rs.
      all_receipts ts >>= λ rest. ok (rs ∷ rest)
