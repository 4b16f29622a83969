-- ===== src/SsTable/RoundTrip.antt =====
-- The sections of a table file, and `serialize`.
use cere_db.Base.{
  ℕ, suc, ◌+◌, ◌<◌, ◌≤◌, ◌^◌, ◌≡◌, refl, ap, List, [], ◌∷◌, ◌++◌, arith, length, length-append,
  append_assoc, All,
}
use cere_db.Error.{ok}
use cere_db.Bytes.{Bytes}
use cere_db.Bytes.Reader.{Reader}
use cere_db.Bytes.RoundTrip.{drop-length-append}
use cere_db.Bytes.Reads.{Reads, Reads-read_be, Reads-bind}
use cere_db.Bloom
use cere_db.Bloom.{FastBloom, BloomLaws, BloomFilterWrapper}
use cere_db.Bloom.RoundTrip.{IsSeeded, decode-Reads}
use cere_db.Index.{SparseIndexEntry}
use cere_db.Index.RoundTrip.{Fits, decode_entries-Reads}
use cere_db.Footer
use cere_db.Footer.{SsTableFooter}
use cere_db.Footer.RoundTrip.{async_decode-encode}
use cere_db.Footer.RoundTrip as FooterTrip
use cere_db.Block
use cere_db.Block.RoundTrip.{encode-pos}
use cere_db.Block.{Block}
use cere_db.SsTable.{
  SsTableCodec, read_at, encode_blocks, index_entries, index_block, footer_of, serialize,
  read_index, deserialize_sections,
}

pub read_at-Reads {ℓ} :
    {A : Type ℓ} {m : Reader A} {xs : Bytes} {a : A} (before after : Bytes)
    → Reads m xs a
    → read_at (before ++ (xs ++ after)) (length before) m ≡ ok a
unfolding read_at
read_at-Reads {m} {xs} before after h =
    ground (arith, ap m (drop-length-append before (xs ++ after)), h.at after)

read_index-Reads :
    (es : List SparseIndexEntry)
    → All Fits es
    → length es < 2 ^ 64
    → Reads read_index (index_block es) es
unfolding read_index index_block
read_index-Reads es h n = Reads-bind _ (Reads-read_be 8 _ (omega arith)) (decode_entries-Reads es h)

-- The blocks of a table fit: keys and counts as in a block, offsets by the size of the file.
pub record IsSmall (b : Block) : Type 0 where
  pub first_key : length b.first_key < 2 ^ 32
  pub last_key : length b.last_key < 2 ^ 32
  pub record_count : b.record_count < 2 ^ 32

module _ (crc32 : Bytes → ℕ) where
  index_entries-Fits :
      (n : ℕ) (bs : List Block)
      → All IsSmall bs
      → n + length (encode_blocks crc32 bs) < 2 ^ 64
      → All Fits (index_entries crc32 n bs)
  unfolding index_entries encode_blocks
  index_entries-Fits n [] h k = tt
  index_entries-Fits n (b ∷ bs) h k = (
    record {
      first_key = omega (arith, h.0.first_key);
      block_offset = omega arith;
      last_key = omega (arith, h.0.last_key);
      record_count = h.0.record_count;
    },
    index_entries-Fits (n + length (Block.encode crc32 b)) bs h.1
        (omega (arith, length-append (Block.encode crc32 b) (encode_blocks crc32 bs))),
  )

  length-index_entries : (n : ℕ) (bs : List Block) → length (index_entries crc32 n bs) ≡ length bs
  unfolding index_entries
  length-index_entries n [] = refl
  length-index_entries n (b ∷ bs) =
      ap suc (length-index_entries (n + length (Block.encode crc32 b)) bs)

  length_le-encode_blocks : (bs : List Block) → length bs ≤ length (encode_blocks crc32 bs)
  unfolding encode_blocks
  length_le-encode_blocks [] = omega arith
  length_le-encode_blocks (b ∷ bs) = omega (
    arith,
    length-append (Block.encode crc32 b) (encode_blocks crc32 bs),
    length_le-encode_blocks bs,
    encode-pos crc32 b,
  )

  sections-read :
      {fast : FastBloom} (blocks index bloom footer : Bytes) (es : List SparseIndexEntry)
      (b : BloomFilterWrapper fast) (f : SsTableFooter)
      → Footer.async_decode crc32 ((blocks ++ (index ++ bloom)) ++ footer) ≡ ok f
      → Reads read_index index es
      → Reads (Bloom.decode fast) bloom b
      → f.data_block_end ≡ length blocks
      → f.bloom_block_start ≡ length (blocks ++ index)
      → deserialize_sections crc32 fast (blocks ++ (index ++ (bloom ++ footer))) ≡ ok (f, es, b)
  unfolding deserialize_sections
  sections-read {fast} blocks index bloom footer es b f hf hi hb start_index start_bloom =
      let file : Bytes = blocks ++ (index ++ (bloom ++ footer)) in
      let regroup : (blocks ++ (index ++ bloom)) ++ footer ≡ file = simp append_assoc in
      let at_bloom : (blocks ++ index) ++ (bloom ++ footer) ≡ file = simp append_assoc in
      let e1 : Footer.async_decode crc32 file ≡ ok f = rw regroup at hf in
      let e2 : read_at file f.data_block_end read_index ≡ ok es =
        rw start_index (read_at-Reads blocks (bloom ++ footer) hi) in
      let e3 : read_at file f.bloom_block_start (Bloom.decode fast) ≡ ok b =
        rw (start_bloom, ← at_bloom) (read_at-Reads (blocks ++ index) footer hb) in
      ground (arith, e1, e2, e3)

  module _ (crc32_u32 : (bs : Bytes) → crc32 bs < 2 ^ 32) (fast : FastBloom) (laws : BloomLaws fast)
      (t : SsTableCodec fast) (small : All IsSmall t.blocks)
      (fits : length (serialize crc32 fast t).0 < 2 ^ 64) where
    footer-Fits : FooterTrip.Fits (footer_of crc32 fast t)
    unfolding footer_of serialize
    footer-Fits =
        let blocks : Bytes = encode_blocks crc32 t.blocks in
        let index : Bytes = index_block (index_entries crc32 0 t.blocks) in
        let bloom : Bytes = Bloom.encode fast t.bloom in
        let footer : Bytes = Footer.encode crc32 (footer_of crc32 fast t) in
        let total : length (blocks ++ (index ++ (bloom ++ footer))) < 2 ^ 64 = fits in
        let l1 = length-append blocks (index ++ (bloom ++ footer)) in
        let l2 = length-append index (bloom ++ footer) in
        let l3 = length-append bloom footer in
        let l4 = length-append blocks index in
        let l5 = length-append (blocks ++ index) bloom in
        record {
          data_block_start = omega arith;
          data_block_end = omega arith;
          index_block_start = omega arith;
          index_block_end = omega arith;
          index_checksum = crc32_u32 index;
          bloom_block_start = omega arith;
          bloom_block_end = omega arith;
          bloom_checksum = crc32_u32 bloom;
        }

    data-lt : length (encode_blocks crc32 t.blocks) < 2 ^ 64
    unfolding footer_of
    data-lt = footer-Fits.data_block_end

    -- The footer, an entry for each block and the filter come back from the file.
    pub deserialize_sections-serialize :
        IsSeeded fast laws t.bloom
        → deserialize_sections crc32 fast (serialize crc32 fast t).0
          ≡ ok ((serialize crc32 fast t).1, index_entries crc32 0 t.blocks, t.bloom)
    unfolding serialize
    deserialize_sections-serialize seeded =
        let small_data = data-lt in
        let count = length-index_entries 0 t.blocks in
        let blocks : Bytes = encode_blocks crc32 t.blocks in
        let index : Bytes = index_block (index_entries crc32 0 t.blocks) in
        let bloom : Bytes = Bloom.encode fast t.bloom in
        sections-read blocks index bloom (Footer.encode crc32 (footer_of crc32 fast t))
          (index_entries crc32 0 t.blocks) t.bloom (footer_of crc32 fast t)
          (async_decode-encode crc32 crc32_u32 (footer_of crc32 fast t) (blocks ++ (index ++ bloom))
            footer-Fits)
          (read_index-Reads (index_entries crc32 0 t.blocks)
            (index_entries-Fits 0 t.blocks small (omega arith))
            (omega (arith, length_le-encode_blocks t.blocks)))
          (decode-Reads fast laws t.bloom seeded) (unfold footer_of in refl)
          (unfold footer_of in refl)
