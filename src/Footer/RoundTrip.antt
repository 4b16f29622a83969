-- ===== src/Footer/RoundTrip.antt =====
-- The footer's binary form and its reader.
use cere_db.Base.{
  ℕ, ◌-◌, ◌<◌, ◌^◌, ◌≡◌, ◌++◌, arith, length, length-append, append_assoc, drop, ==_iff, ◌==◌, true,
}
use cere_db.Error.{ok}
use cere_db.Bytes.{Bytes, to_be_bytes, from_be_bytes}
use cere_db.Bytes.RoundTrip.{length-to_be_bytes, from_be_bytes-to_be_bytes, drop-length-append}
use cere_db.Bytes.Reads.{
  Reads, Reads-read_bytes, Reads-bind, Reads-bind_last, Reads-guard, Reads-pure_eq, Reads-at_end,
}
use cere_db.Footer.{SsTableFooter, footer_size, magic_number, body, encode, decode, async_decode}

pub record Fits (f : SsTableFooter) : Type 0 where
  pub data_block_start : f.data_block_start < 2 ^ 64
  pub data_block_end : f.data_block_end < 2 ^ 64
  pub index_block_start : f.index_block_start < 2 ^ 64
  pub index_block_end : f.index_block_end < 2 ^ 64
  pub index_checksum : f.index_checksum < 2 ^ 32
  pub bloom_block_start : f.bloom_block_start < 2 ^ 64
  pub bloom_block_end : f.bloom_block_end < 2 ^ 64
  pub bloom_checksum : f.bloom_checksum < 2 ^ 32

body_split :
    (f : SsTableFooter) (tail : Bytes)
    → body f ++ tail
      ≡ to_be_bytes 8 f.data_block_start
        ++ (to_be_bytes 8 f.data_block_end
            ++ (to_be_bytes 8 f.index_block_start
                ++ (to_be_bytes 8 f.index_block_end
                    ++ (to_be_bytes 4 f.index_checksum
                        ++ (to_be_bytes 8 f.bloom_block_start
                            ++ (to_be_bytes 8 f.bloom_block_end
                                ++ (to_be_bytes 4 f.bloom_checksum
                                    ++ (to_be_bytes 4 magic_number ++ tail))))))))
unfolding body
body_split f tail = simp append_assoc

magic_matches : (from_be_bytes (to_be_bytes 4 magic_number) == magic_number) ≡ true
magic_matches = (==_iff _ _).1 (from_be_bytes-to_be_bytes 4 magic_number (omega arith))

fields :
    (f : SsTableFooter)
    → Fits f
    → ◌≡◌ {A = SsTableFooter}
        (record {
          data_block_start = from_be_bytes (to_be_bytes 8 f.data_block_start);
          data_block_end = from_be_bytes (to_be_bytes 8 f.data_block_end);
          index_block_start = from_be_bytes (to_be_bytes 8 f.index_block_start);
          index_block_end = from_be_bytes (to_be_bytes 8 f.index_block_end);
          index_checksum = from_be_bytes (to_be_bytes 4 f.index_checksum);
          bloom_block_start = from_be_bytes (to_be_bytes 8 f.bloom_block_start);
          bloom_block_end = from_be_bytes (to_be_bytes 8 f.bloom_block_end);
          bloom_checksum = from_be_bytes (to_be_bytes 4 f.bloom_checksum);
        })
        f
fields f h = λ i. record {
  data_block_start = from_be_bytes-to_be_bytes 8 _ h.data_block_start i;
  data_block_end = from_be_bytes-to_be_bytes 8 _ h.data_block_end i;
  index_block_start = from_be_bytes-to_be_bytes 8 _ h.index_block_start i;
  index_block_end = from_be_bytes-to_be_bytes 8 _ h.index_block_end i;
  index_checksum = from_be_bytes-to_be_bytes 4 _ h.index_checksum i;
  bloom_block_start = from_be_bytes-to_be_bytes 8 _ h.bloom_block_start i;
  bloom_block_end = from_be_bytes-to_be_bytes 8 _ h.bloom_block_end i;
  bloom_checksum = from_be_bytes-to_be_bytes 4 _ h.bloom_checksum i;
}

drop_eq : (n m : ℕ) (xs : Bytes) → n ≡ m → drop m xs ≡ drop n xs
drop_eq n m xs e = rw e

module _ (crc32 : Bytes → ℕ) where
  pub length-encode : (f : SsTableFooter) → length (encode crc32 f) ≡ footer_size
  unfolding encode body
  length-encode f = simp (length-append, length-to_be_bytes)

  module _ (crc32_u32 : (bs : Bytes) → crc32 bs < 2 ^ 32) where
    checksum_matches :
        (f : SsTableFooter)
        → (from_be_bytes (to_be_bytes 4 (crc32 (body f))) == crc32 (body f)) ≡ true
    checksum_matches f = (==_iff _ _).1 (from_be_bytes-to_be_bytes 4 _ (crc32_u32 (body f)))

    decode-Reads : (f : SsTableFooter) → Fits f → Reads (decode crc32) (encode crc32 f) f
    unfolding encode decode
    decode-Reads f fits = rw (body_split f (to_be_bytes 4 (crc32 (body f)))) (
        Reads-bind _ (Reads-read_bytes 8 _) (
          Reads-bind _ (Reads-read_bytes 8 _) (
            Reads-bind _ (Reads-read_bytes 8 _) (
              Reads-bind _ (Reads-read_bytes 8 _) (
                Reads-bind _ (Reads-read_bytes 4 _) (
                  Reads-bind _ (Reads-read_bytes 8 _) (
                    Reads-bind _ (Reads-read_bytes 8 _) (
                      Reads-bind _ (Reads-read_bytes 4 _) (
                        Reads-bind _ (Reads-read_bytes 4 _) (
                          Reads-guard _ magic_matches (
                            Reads-bind_last _ (Reads-read_bytes 4 _) (
                              Reads-guard _ (unfold body in checksum_matches f)
                                (Reads-pure_eq (fields f fits))))))))))))))

    -- The footer is found and read back at the end of any file that ends with it.
    pub async_decode-encode :
        (f : SsTableFooter) (before : Bytes)
        → Fits f
        → async_decode crc32 (before ++ encode crc32 f) ≡ ok f
    unfolding async_decode
    async_decode-encode f before fits = ground (
      arith,
      length-append before (encode crc32 f),
      length-encode f,
      drop_eq (length before) (length (before ++ encode crc32 f) - 64) (before ++ encode crc32 f),
      drop-length-append before (encode crc32 f),
      Reads-at_end (decode-Reads f fits),
    )
