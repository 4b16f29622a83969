-- ===== src/Record/RoundTrip.antt =====
-- `Record::decode` after `Record::encode`.
use cere_db.Base.{ℕ, ◌+◌, ◌<◌, ◌^◌, ◌≡◌, ◌++◌, arith, length, ==_refl}
use cere_db.Error.{ok}
use cere_db.Bytes.{Bytes}
use cere_db.Bytes.Reads.{
  Reads, Reads-read_be, Reads-read_exact, Reads-bind, Reads-bind_last, Reads-lift, Reads-guard,
  Reads-pure_eq,
}
use cere_db.Record.{Record, put, delete, type_byte, RecordType, record_type_of, encode, decode}

-- What a record holds fits the fields of its binary form.
pub record Fits (r : Record) : Type 0 where
  pub timestamp : r.timestamp < 2 ^ 64
  pub sizes : 29 + length r.key + length r.value < 2 ^ 64

pub type_byte-lt : (t : RecordType) → type_byte t < 256 ^ 1
type_byte-lt put = omega arith
type_byte-lt delete = omega arith

pub record_type_of-type_byte : (t : RecordType) → record_type_of (type_byte t) ≡ ok t
unfolding record_type_of
record_type_of-type_byte put = ground arith
record_type_of-type_byte delete = ground arith

module _ (crc32 : Bytes → ℕ) (crc32_u32 : (bs : Bytes) → crc32 bs < 2 ^ 32) where
  decode-Reads :
      (r : Record)
      → Fits r
      → Reads
          (decode crc32)
          (encode crc32 r)
          (record r { offset = 29 + length r.key + length r.value })
  unfolding encode decode
  decode-Reads r fits = Reads-bind _ (Reads-read_be 1 _ (type_byte-lt r.record_type)) (
      Reads-bind _ (Reads-read_be 8 _ (omega arith)) (
        Reads-bind _ (Reads-read_be 8 _ (omega arith)) (
          Reads-bind _ (Reads-read_be 8 _ (omega arith)) (
            Reads-bind _ (Reads-read_exact r.key) (
              Reads-bind _ (Reads-read_exact r.value) (
                Reads-bind_last _ (Reads-read_be 4 _ (crc32_u32 r.value)) (
                  Reads-guard _ (==_refl (crc32 r.value)) (
                    Reads-lift _ (record_type_of-type_byte r.record_type)
                      (Reads-pure_eq (ground arith))))))))))

  -- A log record whose fields fit is read back from its encoding, whatever follows it; the offset of
  -- the record that is read is the length of the encoding: 25 bytes of the header, 4 of the checksum of
  -- the value, the key and the value.
  pub decode-encode_record :
      (r : Record) (rest : Bytes)
      → Fits r
      → decode crc32 (encode crc32 r ++ rest)
        ≡ ok (record r { offset = 29 + length r.key + length r.value }, rest)
  decode-encode_record r rest fits = (decode-Reads r fits).at rest
