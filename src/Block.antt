-- ===== src/Block.antt =====
-- storage/writemanager/block.rs: the data block of an SSTable, its binary form and its builder.

pub mod Builder
pub mod RoundTrip
use cere_db.Base.{
  ℕ, zero, suc, ◌+◌, ◌%◌, ◌^◌, Option, none, some, List, [], ◌∷◌, ◌++◌, length, drop,
}
use cere_db.Error.{Result, ok, err}
use cere_db.Bytes.{Bytes, to_be_bytes}
use cere_db.Bytes.Reader.{Reader, pure, lift, ◌>>=◌, ◌>>◌, read_exact, read_be}
use cere_db.Checksum.{calculate_crc32, verify_crc32}
use cere_db.Memtable
use cere_db.Memtable.{MemtableRecord}

pub record Block : Type 0 where
  pub offset : ℕ
  pub first_key : Bytes
  pub last_key : Bytes
  pub record_count : ℕ
  pub data_size : ℕ
  pub records : Option (List MemtableRecord)

-- `for record in records { buf.extend_from_slice(&record.encode(&record.key)) }`
unfoldable pub encode_records : List MemtableRecord → Bytes
encode_records [] = []
encode_records (r ∷ rs) = Memtable.encode r r.key ++ encode_records rs

abbrev records_of : Option (List MemtableRecord) → List MemtableRecord
records_of none = []
records_of (some rs) = rs

-- The bytes that the checksum covers, over the bytes of the records: `encode` writes them, and the
-- decoders put them together again from what they read.
unfoldable pub covered : Bytes → Bytes → ℕ → ℕ → Bytes → Bytes
covered first_key last_key record_count data_size record_bytes =
    to_be_bytes 4 (length first_key)
    ++ (first_key
        ++ (to_be_bytes 4 (length last_key)
            ++ (last_key
                ++ (to_be_bytes 4 record_count ++ (to_be_bytes 4 data_size ++ record_bytes)))))

-- `for _ in 0..record_count` over a cursor of its own: what the loop leaves is dropped.
unfoldable pub decode_records : ℕ → Reader (List MemtableRecord)
decode_records zero = pure []
decode_records (suc n) = do r ← Memtable.decode; rs ← decode_records n; pure (r ∷ rs)

abbrev unread {ℓ} : {A : Type ℓ} → Result (A × Bytes) → Result A
unread (ok (a, s)) = ok a
unread (err e) = err e

module _ (crc32 : Bytes → ℕ) where
  unfoldable pub encode : Block → Bytes
  encode b =
      let buf =
        covered b.first_key b.last_key b.record_count b.data_size
          (encode_records (records_of b.records)) in
      buf ++ to_be_bytes 4 (calculate_crc32 crc32 buf)

  -- `async_decode`, at the position of the reader; its block has `offset` 0.
  unfoldable pub async_decode : Reader Block
  async_decode = do
    first_key_len ← read_be 4
    first_key ← read_exact first_key_len
    last_key_len ← read_be 4
    last_key ← read_exact last_key_len
    record_count ← read_be 4
    data_size ← read_be 4
    record_bytes ← read_exact data_size
    stored_checksum ← read_be 4
    lift (
        verify_crc32 crc32 (covered first_key last_key record_count data_size record_bytes)
          stored_checksum)
    records ← lift (unread (decode_records record_count record_bytes))
    pure (record {
      offset = 0;
      first_key = first_key;
      last_key = last_key;
      record_count = record_count;
      data_size = data_size;
      records = some records;
    })

  -- `decode` seeks to `offset` first, and keeps it in the block. The reads are those of
  -- `async_decode`. A seek behind the end leaves nothing to read.
  unfoldable pub decode : ℕ → Reader Block
  decode offset file =
      (async_decode >>= λ b. pure (record b { offset = offset })) (drop offset file)
