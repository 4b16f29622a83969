-- ===== src/Block/RoundTrip.antt =====
-- `Block::decode` after `Block::encode`.
use cere_db.Base.{
  ℕ, ◌+◌, ◌<◌, ◌^◌, ◌≡◌, refl, ap, some, List, [], ◌∷◌, ◌++◌, arith, length, length-append,
  append_assoc,
}
use cere_db.Error.{ok}
use cere_db.Bytes.{Bytes, to_be_bytes}
use cere_db.Bytes.RoundTrip.{drop-length-append, length-to_be_bytes}
use cere_db.Bytes.Reads.{
  Reads, Reads-read_be, Reads-read_exact, Reads-bind, Reads-bind_last, Reads-lift, Reads-pure,
  Reads-at_end,
}
use cere_db.Checksum.{calculate_crc32-lt, verify_crc32-calculate_crc32}
use cere_db.Memtable
use cere_db.Memtable.{MemtableRecord, record_length}
use cere_db.Memtable.RoundTrip
use cere_db.Block.{
  Block, encode_records, covered, decode_records, encode, async_decode, decode, unread,
}

abbrev pub AllFit : List MemtableRecord → Type 0
AllFit [] = Unit {0}
AllFit (r ∷ rs) = RoundTrip.Fits r × AllFit rs

-- The bytes that a list of records takes in a block.
unfoldable pub total_length : List MemtableRecord → ℕ
total_length [] = 0
total_length (r ∷ rs) = record_length r r.key + total_length rs

pub length-encode_records :
    (rs : List MemtableRecord) → length (encode_records rs) ≡ total_length rs
unfolding encode_records total_length
length-encode_records [] = refl
length-encode_records (r ∷ rs) = omega (
  arith,
  length-append (Memtable.encode r r.key) (encode_records rs),
  RoundTrip.length-encode r r.key,
  length-encode_records rs,
)

decode_records-Reads :
    (rs : List MemtableRecord)
    → AllFit rs
    → Reads (decode_records (length rs)) (encode_records rs) rs
unfolding decode_records encode_records
decode_records-Reads [] h = Reads-pure []
decode_records-Reads (r ∷ rs) h =
    Reads-bind _ (RoundTrip.decode-Reads r h.0)
      (Reads-bind_last _ (decode_records-Reads rs h.1) (Reads-pure (r ∷ rs)))

covered_split :
    (first last : Bytes) (count size : ℕ) (body tail : Bytes)
    → covered first last count size body ++ tail
      ≡ to_be_bytes 4 (length first)
        ++ (first
            ++ (to_be_bytes 4 (length last)
                ++ (last ++ (to_be_bytes 4 count ++ (to_be_bytes 4 size ++ (body ++ tail))))))
unfolding covered
covered_split first last count size body tail = simp append_assoc

-- A block as the builder makes it: counts that tell the records, and sizes that fit their fields.
pub record Fits (b : Block) (rs : List MemtableRecord) : Type 0 where
  pub records : b.records ≡ some rs
  pub count : b.record_count ≡ length rs
  pub size : b.data_size ≡ total_length rs
  pub all_fit : AllFit rs
  pub first_key : length b.first_key < 2 ^ 32
  pub last_key : length b.last_key < 2 ^ 32
  pub count_u32 : b.record_count < 2 ^ 32
  pub size_u32 : b.data_size < 2 ^ 32

-- The bytes of a block: its two keys, 20 bytes of counts and checksum, and its records.
pub length-encode :
    (crc32 : Bytes → ℕ) (b : Block) (rs : List MemtableRecord)
    → b.records ≡ some rs
    → length (encode crc32 b) ≡ 20 + length b.first_key + length b.last_key + total_length rs
unfolding encode covered
length-encode crc32 b rs e =
    simp (e, length-append, length-to_be_bytes, length-encode_records) (omega arith)

pub encode-pos : (crc32 : Bytes → ℕ) (b : Block) → 0 < length (encode crc32 b)
unfolding encode
encode-pos crc32 b = rw length-append (rw length-to_be_bytes (omega arith))

module _ (crc32 : Bytes → ℕ) (crc32_u32 : (bs : Bytes) → crc32 bs < 2 ^ 32) where
  pub async_decode-Reads :
      (b : Block) (rs : List MemtableRecord)
      → Fits b rs
      → Reads (async_decode crc32) (encode crc32 b) (record b { offset = 0 })
  unfolding encode async_decode
  async_decode-Reads b rs fits =
      rw (fits.records, fits.count, fits.size, ← length-encode_records rs, covered_split)
        (Reads-bind _ (Reads-read_be 4 _ (omega arith)) (
          Reads-bind _ (Reads-read_exact b.first_key) (
            Reads-bind _ (Reads-read_be 4 _ (omega arith)) (
              Reads-bind _ (Reads-read_exact b.last_key) (
                Reads-bind _ (Reads-read_be 4 _ (omega arith)) (
                  Reads-bind _ (Reads-read_be 4 _ (omega (arith, length-encode_records rs))) (
                    Reads-bind _ (Reads-read_exact (encode_records rs)) (
                      Reads-bind_last _ (Reads-read_be 4 _ (calculate_crc32-lt crc32 crc32_u32 _)) (
                        Reads-lift _ (verify_crc32-calculate_crc32 crc32 _) (
                          Reads-lift _
                            (ap unread (Reads-at_end (decode_records-Reads rs fits.all_fit)))
                            (Reads-pure _)))))))))))

  -- A block in the middle of a file, decoded at the offset where it begins.
  pub decode-encode_block :
      (b : Block) (rs : List MemtableRecord) (before after : Bytes)
      → Fits b rs
      → decode crc32 (length before) (before ++ (encode crc32 b ++ after))
        ≡ ok (record b { offset = length before }, after)
  unfolding decode
  decode-encode_block b rs before after fits =
      rw (drop-length-append before (encode crc32 b ++ after))
        ((Reads-bind_last _ (async_decode-Reads b rs fits) (Reads-pure _)).at after)
