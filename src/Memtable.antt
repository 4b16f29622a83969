-- ===== src/Memtable.antt =====
-- storage/record.rs, `MemtableRecord`: the versions of a key that the memtable and the SSTables hold.
pub mod RoundTrip
use cere_db.Base.{ℕ, ◌+◌, ◌≡◌, Bool, [], ◌++◌, length, ◌==◌, ◌&&◌, compare, Ordering}
use cere_db.Bytes.{Bytes, to_be_bytes, to_le_bytes}
use cere_db.Bytes.Reader.{Reader, pure, lift, ◌>>=◌, read_exact, read_be, read_le}
use cere_db.Key.{cmp}
use cere_db.Record.{RecordType, type_byte, record_type_of}

pub record MemtableRecord : Type 0 where
  pub record_type : RecordType
  pub lsn : ℕ
  pub key : Bytes
  pub value : Bytes

unfoldable pub new : Bytes → RecordType → ℕ → MemtableRecord
new value record_type lsn = record { record_type = record_type; lsn = lsn; key = []; value = value }

unfoldable pub with_key : MemtableRecord → Bytes → MemtableRecord
with_key r key = record r { key = key }

-- `as u32` keeps the low four bytes, as `to_le_bytes 4` does.
unfoldable pub encode : MemtableRecord → Bytes → Bytes
encode r key =
    to_le_bytes 4 (length key)
    ++ (key
        ++ (to_le_bytes 4 (length r.value)
            ++ (r.value ++ (to_be_bytes 1 (type_byte r.record_type) ++ to_le_bytes 8 r.lsn))))

unfoldable pub record_length : MemtableRecord → Bytes → ℕ
record_length r key = 4 + length key + 4 + length r.value + 1 + 8

-- `async_decode` makes the same reads in the same order.
unfoldable pub decode : Reader MemtableRecord
decode = do
  key_len ← read_le 4
  key ← read_exact key_len
  value_len ← read_le 4
  value ← read_exact value_len
  record_type_byte ← read_be 1
  record_type ← lift (record_type_of record_type_byte)
  lsn ← read_le 8
  pure (record { record_type = record_type; lsn = lsn; key = key; value = value })

-- `Ord::cmp`: by key, and the newer version of a key first.
abbrev then_newer : Ordering → ℕ → ℕ → Ordering
then_newer Ordering.eq a b = compare b a
then_newer o a b = o

unfoldable pub cmp_records : MemtableRecord → MemtableRecord → Ordering
cmp_records a b = then_newer (cmp a.key b.key) a.lsn b.lsn
