-- ===== src/Writes.antt =====
-- storage/writemanager/write.rs, `WriteComponent` with inline payloads: the test of a batch, and the body
-- of the runner's loop: the commands of the drained requests, their append to the log, and their
-- versions in the memtable. A `SkipMap` is the list of its entries in order. Sizes fit a `usize`.
pub mod Commands
pub mod Sizes
use cere_db.Base.{
  ℕ, ◌+◌, ◌^◌, ◌*◌, Bool, true, false, ltb, ◌==◌, compare, Ordering, Option, none, some, List, [],
  ◌∷◌, ◌++◌, length, if◌then◌else◌,
}
use cere_db.Error.{Result, ok, err, storage_error, ◌>>=◌}
use cere_db.Bytes.{Bytes}
use cere_db.Key
use cere_db.Record.{RecordType, put, delete}
use cere_db.Memtable.{MemtableRecord}
use cere_db.Memtable
use cere_db.LogStore.{LogCommand}
use cere_db.Admission.{BatchOperation, put_key, delete_key}
use cere_db.Read.{MemtableMap}
use cere_db.Wal.Codec.{is_delete}
use cere_db.Wal.Manager.{WalManager, Write}
use cere_db.Wal.Owner.{append_engine_transactions}

abbrev pub max_wal_frame_bytes : ℕ
max_wal_frame_bytes = 64 * 1024 * 1024

abbrev pub max_wal_transaction_bytes : ℕ
max_wal_transaction_bytes = 256 * 1024 * 1024

abbrev pub key_of : BatchOperation → Bytes
key_of (put_key key value) = key
key_of (delete_key key) = key

abbrev pub value_of : BatchOperation → Bytes
value_of (put_key key value) = value
value_of (delete_key key) = []

unfoldable pub validate_from : ℕ → List BatchOperation → Result ℕ
validate_from transaction_bytes [] = ok transaction_bytes
validate_from transaction_bytes (operation ∷ operations) =
    let frame_payload = 42 + length (key_of operation) + length (value_of operation) in
    let total = transaction_bytes + (20 + frame_payload) in
    let rest = validate_from total operations in
    if ltb max_wal_frame_bytes frame_payload
    then err (storage_error "WAL frame exceeds 64 MiB")
    else if ltb max_wal_transaction_bytes total
    then err (storage_error "WAL transaction exceeds group limit")
    else rest

unfoldable pub validate_batch : List BatchOperation → Result ℕ
unfolding validate_from
validate_batch operations = validate_from 37 operations

abbrev pub command_of : BatchOperation → ℕ → LogCommand
command_of (put_key key value) lsn = record {
  record_type = put;
  key = key;
  value = value;
  lsn = lsn;
}
command_of (delete_key key) lsn = record { record_type = delete; key = key; value = []; lsn = lsn }

-- The commands of a request, and the sequence number after them.
unfoldable pub build_commands : ℕ → List BatchOperation → Result (List LogCommand × ℕ)
build_commands next_lsn [] = ok ([], next_lsn)
build_commands next_lsn (operation ∷ operations) =
    let rest = build_commands (next_lsn + 1) operations in
    if ltb (next_lsn + 1) (2 ^ 64)
    then (rest >>= λ r. ok (command_of operation (next_lsn + 1) ∷ r.0, r.1))
    else err (storage_error "batch sequence exhausted")

unfoldable pub build_groups : ℕ → List (List BatchOperation) → Result (List (List LogCommand) × ℕ)
unfolding build_commands
build_groups next_lsn [] = ok ([], next_lsn)
build_groups next_lsn (operations ∷ requests) = build_commands next_lsn operations >>= λ c.
    build_groups c.1 requests >>= λ r. ok (c.0 ∷ r.0, r.1)

-- `insert((key, lsn), record)`: an entry of the same key and number is replaced.
unfoldable pub insert_version : Bytes → ℕ → MemtableRecord → MemtableMap → MemtableMap
insert_version key lsn r [] = ((key, lsn), r) ∷ []
insert_version key lsn r (((k, n), s) ∷ m) = elim (Key.cmp key k) [
  | Ordering.lt ↦ ((key, lsn), r) ∷ (((k, n), s) ∷ m)
  | Ordering.gt ↦ ((k, n), s) ∷ insert_version key lsn r m
  | Ordering.eq ↦ elim (compare lsn n) [
    | Ordering.lt ↦ ((key, lsn), r) ∷ (((k, n), s) ∷ m)
    | Ordering.gt ↦ ((k, n), s) ∷ insert_version key lsn r m
    | Ordering.eq ↦ ((key, lsn), r) ∷ m
  ]
]

pub record WriteComponent : Type 0 where
  pub memtable : MemtableMap
  pub memtable_size : ℕ
  pub sequence_number : ℕ
  pub wal_manager : WalManager
  pub checkpoint_owner : Option ℕ

unfoldable pub append_to_memtable : WriteComponent → LogCommand → WriteComponent
unfolding insert_version
append_to_memtable w c = record w {
  memtable = insert_version c.key c.lsn (Memtable.new c.value c.record_type c.lsn) w.memtable;
  memtable_size =
      w.memtable_size
      + (if is_delete c.record_type then length c.key else length c.key + length c.value);
}

unfoldable pub append_all : WriteComponent → List LogCommand → WriteComponent
unfolding append_to_memtable
append_all w [] = w
append_all w (c ∷ cs) = append_all (append_to_memtable w c) cs

unfoldable pub append_groups : WriteComponent → List (List LogCommand) → WriteComponent
unfolding append_all
append_groups w [] = w
append_groups w (cs ∷ groups) = append_groups (append_all w cs) groups

module _ (crc32 : Bytes → ℕ) where
  -- The drained requests, and what becomes of the write of their group.
  unfoldable pub write_requests :
      WriteComponent → List (List BatchOperation) → Write → WriteComponent × Result (Unit {0})
  unfolding build_groups append_groups
  write_requests w requests outcome = elim (build_groups w.sequence_number requests) [
    | err e ↦ (w, err e)
    | ok (groups, next_lsn) ↦
        let (wal, answer) =
          append_engine_transactions crc32 w.wal_manager groups w.checkpoint_owner Bool.false
            outcome in
        elim answer [
          | err e ↦ (record w { wal_manager = wal }, err e)
          | ok receipts ↦ (
            record (append_groups (record w { wal_manager = wal }) groups) {
              sequence_number = next_lsn;
            },
            ok tt,
          )
        ]
  ]
