-- ===== src/LogStore.antt =====
-- storage/recovermanager/log_store.rs: the commands of the log, and their own binary form.
use cere_db.Base.{ℕ}
use cere_db.Bytes.{Bytes}
use cere_db.Record.{RecordType}

pub record LogCommand : Type 0 where
  pub record_type : RecordType
  pub key : Bytes
  pub value : Bytes
  pub lsn : ℕ
