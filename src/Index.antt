-- ===== src/Index.antt =====
-- storage/index.rs: the entries of the sparse index and of the older full index.
pub mod RoundTrip
use cere_db.Base.{ℕ, zero, suc, List, [], ◌∷◌, ◌++◌, length, ◌==◌, if◌then◌else◌}
use cere_db.Error.{Result, ok, err, corrupted}
use cere_db.Bytes.{Bytes, to_be_bytes}
use cere_db.Bytes.Reader.{Reader, pure, ◌>>=◌, read_exact, read_be}

pub record IndexEntry : Type 0 where
  pub key : Bytes
  pub offset : ℕ

pub record SparseIndexEntry : Type 0 where
  pub first_key : Bytes
  pub block_offset : ℕ
  pub last_key : Bytes
  pub record_count : ℕ

unfoldable pub encode_entry : IndexEntry → Bytes
encode_entry e = to_be_bytes 8 (length e.key) ++ (e.key ++ to_be_bytes 8 e.offset)

unfoldable pub decode_entry : Reader IndexEntry
decode_entry = do
  key_len ← read_be 8
  key ← read_exact key_len
  offset ← read_be 8
  pure (record { key = key; offset = offset })

unfoldable pub encode_sparse : SparseIndexEntry → Bytes
encode_sparse e =
    to_be_bytes 8 (length e.first_key)
    ++ (e.first_key
        ++ (to_be_bytes 8 e.block_offset
            ++ (to_be_bytes 8 (length e.last_key) ++ (e.last_key ++ to_be_bytes 4 e.record_count))))

-- `async_decode` makes the same reads in the same order.
unfoldable pub decode_sparse : Reader SparseIndexEntry
decode_sparse = do
  first_key_len ← read_be 8
  first_key ← read_exact first_key_len
  block_offset ← read_be 8
  last_key_len ← read_be 8
  last_key ← read_exact last_key_len
  record_count ← read_be 4
  pure (record {
    first_key = first_key;
    block_offset = block_offset;
    last_key = last_key;
    record_count = record_count;
  })

unfoldable pub encode_entries : List SparseIndexEntry → Bytes
encode_entries [] = []
encode_entries (e ∷ es) = encode_sparse e ++ encode_entries es

-- `for _ in 0..index_len`
unfoldable pub decode_entries : ℕ → Reader (List SparseIndexEntry)
decode_entries zero = pure []
decode_entries (suc n) = do e ← decode_sparse; es ← decode_entries n; pure (e ∷ es)

unfoldable pub verify_index_checksum : (Bytes → ℕ) → Bytes → ℕ → Result (Unit {0})
verify_index_checksum crc32 bytes expected =
    if crc32 bytes == expected then ok tt else err (corrupted "Index block checksum mismatch")
