-- ===== src/Wal.antt =====
-- storage/recovermanager/wal.rs: the write-ahead log. Its types and constants; `CheckpointOwner` is
-- a token that only its identity tells apart.
pub mod Log
pub mod Logged
pub mod Manager
pub mod Owner
pub mod Plan
pub mod Recovery
pub mod Scan
pub mod Segments
pub mod Session
pub mod Codec
pub mod Directory
pub mod Header
use cere_db.Base.{ℕ, ◌+◌, ◌*◌, Bool, false, Option, none, List, []}
use cere_db.Bytes.{Bytes}
use cere_db.TreeMap.{TreeMap}
use cere_db.Record.{RecordType}
use cere_db.LogStore.{LogCommand}

abbrev pub wal_header_size : ℕ
wal_header_size = 36

abbrev pub wal_version : ℕ
wal_version = 2

abbrev pub legacy_wal_version : ℕ
legacy_wal_version = 1

abbrev pub max_frame_size : ℕ
max_frame_size = 64 * 1024 * 1024

abbrev pub frame_header_size : ℕ
frame_header_size = 20

abbrev pub max_group_count : ℕ
max_group_count = 1024

abbrev pub max_group_encoded_size : ℕ
max_group_encoded_size = 256 * 1024 * 1024

pub record WalRecord : Type 0 where
  pub record_type : ℕ
  pub lsn : ℕ
  pub key : Bytes
  pub value : Bytes
  pub checksum : ℕ

pub data TransactionRecord : Type 0 where
  update : LogCommand → TransactionRecord
  commit : TransactionRecord

pub record Frame : Type 0 where
  pub lsn : ℕ
  pub transaction_id : ℕ
  pub previous_lsn : ℕ
  pub body : TransactionRecord

pub record FramePosition : Type 0 where
  pub segment_id : ℕ
  pub offset : ℕ
  pub length : ℕ

pub record UpdatePosition : Type 0 where
  pub segment_id : ℕ
  pub transaction_start_offset : ℕ
  pub frame_offset : ℕ
  pub frame_length : ℕ
  pub physical_lsn : ℕ

pub record CommitPosition : Type 0 where
  pub frame_offset : ℕ
  pub commit_lsn : ℕ

pub record LoggedUpdate : Type 0 where
  pub transaction_id : ℕ
  pub command : LogCommand
  pub checksum : ℕ
  pub position : Option UpdatePosition

-- A `BTreeSet` is a map to nothing.
abbrev pub IdSet : Type 0
IdSet = TreeMap ℕ (Unit {0})

pub record Analysis : Type 0 where
  pub latest_lsn : ℕ
  pub previous_lsns : TreeMap ℕ ℕ
  pub committed_transactions : IdSet
  pub updates : List LoggedUpdate
  pub legacy : List WalRecord
  pub track_refs : Bool
  pub transaction_starts : TreeMap ℕ ℕ
  pub commit_positions : TreeMap ℕ CommitPosition

-- `Analysis::default()`
abbrev pub no_analysis : Analysis
no_analysis = record {
  latest_lsn = 0;
  previous_lsns = [];
  committed_transactions = [];
  updates = [];
  legacy = [];
  track_refs = Bool.false;
  transaction_starts = [];
  commit_positions = [];
}

pub record WalValueRef : Type 0 where
  pub segment_id : ℕ
  pub transaction_id : ℕ
  pub transaction_start_offset : ℕ
  pub commit_offset : ℕ
  pub commit_lsn : ℕ
  pub frame_offset : ℕ
  pub frame_length : ℕ
  pub physical_lsn : ℕ
  pub application_sequence : ℕ
  pub record_type : RecordType
  pub key_length : ℕ
  pub key_checksum : ℕ
  pub value_length : ℕ
  pub value_checksum : ℕ

pub record RecoveredWalUpdate : Type 0 where
  pub recovered : WalRecord
  pub reference : WalValueRef
