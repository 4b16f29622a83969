-- ===== src/Record.antt =====
-- storage/record.rs: key-value records, their binary forms, and the order of versions.
-- `usize` has 64 bits, and `vec![0u8; n]` does not fail.
pub mod RoundTrip
use cere_db.Base.{
  ◌≡◌, refl, ◌⊎◌, inl, inr, ℕ, zero, ◌+◌, ◌%◌, ◌^◌, Bool, String, List, [], ◌∷◌, ◌++◌, length, ◌==◌,
  ◌&&◌, if◌then◌else◌, compare, Ordering,
}
use cere_db.Error.{DbError, Result, ok, err, corrupted}
use cere_db.Bytes.{Bytes, to_be_bytes}
use cere_db.Bytes.Reader.{Reader, pure, lift, guard, ◌>>=◌, ◌>>◌, read_exact, read_be}

pub data RecordType : Type 0 where
  put delete : RecordType

pub RecordType-cases : (t : RecordType) → (t ≡ put) ⊎ (t ≡ delete)
RecordType-cases put = inl refl
RecordType-cases delete = inr refl

-- `record_type as u8`
abbrev pub type_byte : RecordType → ℕ
type_byte put = 1
type_byte delete = 2

-- The `match` on a type byte that every decoder of the file has.
unfoldable pub record_type_of : ℕ → Result RecordType
record_type_of b =
    if b == 1 then ok put else if b == 2 then ok delete else err (corrupted "Invalid record type")

pub record Record : Type 0 where
  pub key : Bytes
  pub value : Bytes
  pub record_type : RecordType
  pub timestamp : ℕ
  pub offset : ℕ

unfoldable pub new : Bytes → Bytes → RecordType → ℕ → Record
new key value record_type timestamp = record {
  key = key;
  value = value;
  record_type = record_type;
  timestamp = timestamp;
  offset = 0;
}

unfoldable pub tombstone : Bytes → ℕ → Record
tombstone key timestamp = record {
  key = key;
  value = [];
  record_type = delete;
  timestamp = timestamp;
  offset = 0;
}

module _ (crc32 : Bytes → ℕ) where
  unfoldable pub encode : Record → Bytes
  encode r =
      to_be_bytes 1 (type_byte r.record_type)
      ++ (to_be_bytes 8 r.timestamp
          ++ (to_be_bytes 8 (length r.key)
              ++ (to_be_bytes 8 (length r.value)
                  ++ (r.key ++ (r.value ++ to_be_bytes 4 (crc32 r.value))))))

  unfoldable pub decode : Reader Record
  decode = do
    record_type_byte ← read_be 1
    timestamp ← read_be 8
    key_len ← read_be 8
    value_len ← read_be 8
    key ← read_exact key_len
    value ← read_exact value_len
    checksum ← read_be 4
    guard (crc32 value == checksum) (corrupted "Checksum mismatch")
    record_type ← lift (record_type_of record_type_byte)
    pure (record {
      key = key;
      value = value;
      record_type = record_type;
      timestamp = timestamp;
      offset = (1 + 8 + 8 + 8 + key_len + value_len + 4) % 2 ^ 64;
    })
