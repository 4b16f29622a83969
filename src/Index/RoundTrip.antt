-- ===== src/Index/RoundTrip.antt =====
-- Index entries and their binary form.
use cere_db.Base.{◌<◌, ◌^◌, List, [], ◌∷◌, arith, length, All}
use cere_db.Bytes.Reads.{
  Reads, Reads-read_be, Reads-read_exact, Reads-bind, Reads-bind_last, Reads-pure,
}
use cere_db.Index.{
  IndexEntry, SparseIndexEntry, encode_entry, decode_entry, encode_sparse, decode_sparse,
  encode_entries, decode_entries,
}

pub record Fits (e : SparseIndexEntry) : Type 0 where
  pub first_key : length e.first_key < 2 ^ 64
  pub block_offset : e.block_offset < 2 ^ 64
  pub last_key : length e.last_key < 2 ^ 64
  pub record_count : e.record_count < 2 ^ 32

pub decode_entry-Reads :
    (e : IndexEntry)
    → length e.key < 2 ^ 64
    → e.offset < 2 ^ 64
    → Reads decode_entry (encode_entry e) e
unfolding decode_entry encode_entry
decode_entry-Reads e h k = Reads-bind _ (Reads-read_be 8 _ (omega arith)) (
    Reads-bind _ (Reads-read_exact e.key)
      (Reads-bind_last _ (Reads-read_be 8 _ (omega arith)) (Reads-pure e)))

pub decode_sparse-Reads : (e : SparseIndexEntry) → Fits e → Reads decode_sparse (encode_sparse e) e
unfolding decode_sparse encode_sparse
decode_sparse-Reads e fits = Reads-bind _ (Reads-read_be 8 _ (omega arith)) (
    Reads-bind _ (Reads-read_exact e.first_key) (
      Reads-bind _ (Reads-read_be 8 _ (omega arith)) (
        Reads-bind _ (Reads-read_be 8 _ (omega arith)) (
          Reads-bind _ (Reads-read_exact e.last_key)
            (Reads-bind_last _ (Reads-read_be 4 _ (omega arith)) (Reads-pure e))))))

pub decode_entries-Reads :
    (es : List SparseIndexEntry)
    → All Fits es
    → Reads (decode_entries (length es)) (encode_entries es) es
unfolding decode_entries encode_entries
decode_entries-Reads [] h = Reads-pure []
decode_entries-Reads (e ∷ es) h =
    Reads-bind _ (decode_sparse-Reads e h.0)
      (Reads-bind_last _ (decode_entries-Reads es h.1) (Reads-pure (e ∷ es)))
