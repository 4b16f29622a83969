-- ===== src/Footer.antt =====
-- storage/footer.rs: the 64 bytes at the end of an SSTable.
pub mod RoundTrip
use cere_db.Base.{ℕ, ◌-◌, List, ◌++◌, length, drop, take, ltb, ◌==◌, if◌then◌else◌}
use cere_db.Error.{Result, ok, err, io, invalid_input, corrupted}
use cere_db.Bytes.{Bytes, to_be_bytes, from_be_bytes}
use cere_db.Bytes.Reader.{Reader, pure, guard, ◌>>=◌, ◌>>◌, read_exact}

abbrev pub footer_size : ℕ
footer_size = 64

abbrev pub magic_number : ℕ
magic_number = 0xDB055555

pub record SsTableFooter : Type 0 where
  pub data_block_start : ℕ
  pub data_block_end : ℕ
  pub index_block_start : ℕ
  pub index_block_end : ℕ
  pub index_checksum : ℕ
  pub bloom_block_start : ℕ
  pub bloom_block_end : ℕ
  pub bloom_checksum : ℕ

-- What the footer's own checksum covers.
unfoldable pub body : SsTableFooter → Bytes
body f =
    to_be_bytes 8 f.data_block_start
    ++ (to_be_bytes 8 f.data_block_end
        ++ (to_be_bytes 8 f.index_block_start
            ++ (to_be_bytes 8 f.index_block_end
                ++ (to_be_bytes 4 f.index_checksum
                    ++ (to_be_bytes 8 f.bloom_block_start
                        ++ (to_be_bytes 8 f.bloom_block_end
                            ++ (to_be_bytes 4 f.bloom_checksum ++ to_be_bytes 4 magic_number)))))))

module _ (crc32 : Bytes → ℕ) where
  unfoldable pub encode : SsTableFooter → Bytes
  encode f = body f ++ to_be_bytes 4 (crc32 (body f))

  -- The buffers are kept: `footer_data` is what has been read, and each number is read from one.
  unfoldable pub decode : Reader SsTableFooter
  decode = do
    b1 ← read_exact 8
    b2 ← read_exact 8
    b3 ← read_exact 8
    b4 ← read_exact 8
    b5 ← read_exact 4
    b6 ← read_exact 8
    b7 ← read_exact 8
    b8 ← read_exact 4
    b9 ← read_exact 4
    guard (from_be_bytes b9 == magic_number) (corrupted "Invalid magic number")
    b10 ← read_exact 4
    guard
        (from_be_bytes b10
          == crc32 (b1 ++ (b2 ++ (b3 ++ (b4 ++ (b5 ++ (b6 ++ (b7 ++ (b8 ++ b9)))))))))
        (corrupted "Footer checksum mismatch")
    pure (record {
      data_block_start = from_be_bytes b1;
      data_block_end = from_be_bytes b2;
      index_block_start = from_be_bytes b3;
      index_block_end = from_be_bytes b4;
      index_checksum = from_be_bytes b5;
      bloom_block_start = from_be_bytes b6;
      bloom_block_end = from_be_bytes b7;
      bloom_checksum = from_be_bytes b8;
    })

  -- A seek to `End(-64)` fails on a file that is shorter; the cursor over the buffer is dropped.
  unfoldable pub async_decode : Bytes → Result SsTableFooter
  async_decode file =
      if ltb (length file) footer_size
      then err (io invalid_input)
      else elim (decode (drop (length file - footer_size) file)) [
        | ok (f, rest) ↦ ok f
        | err e ↦ err e
      ]
