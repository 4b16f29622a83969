-- ===== src/Memtable/RoundTrip.antt =====
-- `MemtableRecord::decode` after `encode`, and `record_length`.
use cere_db.Base.{◌<◌, ◌^◌, ◌≡◌, ◌++◌, arith, length, length-append}
use cere_db.Error.{ok}
use cere_db.Bytes.{Bytes}
use cere_db.Bytes.RoundTrip.{length-to_be_bytes, length-to_le_bytes}
use cere_db.Bytes.Reads.{
  Reads, Reads-read_be, Reads-read_le, Reads-read_exact, Reads-bind, Reads-bind_last, Reads-lift,
  Reads-pure,
}
use cere_db.Record.RoundTrip.{type_byte-lt, record_type_of-type_byte}
use cere_db.Memtable.{MemtableRecord, encode, decode, record_length}

-- What a version holds fits the fields of its binary form.
pub record Fits (r : MemtableRecord) : Type 0 where
  pub lsn : r.lsn < 2 ^ 64
  pub key : length r.key < 2 ^ 32
  pub value : length r.value < 2 ^ 32

pub decode-Reads : (r : MemtableRecord) → Fits r → Reads decode (encode r r.key) r
unfolding encode decode
decode-Reads r fits = Reads-bind _ (Reads-read_le 4 _ (omega arith)) (
    Reads-bind _ (Reads-read_exact r.key) (
      Reads-bind _ (Reads-read_le 4 _ (omega arith)) (
        Reads-bind _ (Reads-read_exact r.value) (
          Reads-bind _ (Reads-read_be 1 _ (type_byte-lt r.record_type)) (
            Reads-lift _ (record_type_of-type_byte r.record_type)
              (Reads-bind_last _ (Reads-read_le 8 _ (omega arith)) (Reads-pure r)))))))

-- `record_length` is the length of the encoding, whatever the sizes.
pub length-encode : (r : MemtableRecord) (key : Bytes) → length (encode r key) ≡ record_length r key
unfolding encode record_length
length-encode r key = simp (length-append, length-to_le_bytes, length-to_be_bytes) (omega arith)

-- Decoding the encoding of a version gives that version and leaves what follows.
pub decode-encode_version :
    (r : MemtableRecord) (rest : Bytes) → Fits r → decode (encode r r.key ++ rest) ≡ ok (r, rest)
decode-encode_version r rest fits = (decode-Reads r fits).at rest
