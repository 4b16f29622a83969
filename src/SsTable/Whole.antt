-- ===== src/SsTable/Whole.antt =====
-- A table that is written and read back, as compaction reads its inputs.
use cere_db.Base.{ℕ, ◌<◌, ◌^◌, ◌≡◌, refl, ◌++◌, map, arith, length, All}
use cere_db.Error.{ok}
use cere_db.Bytes.{Bytes}
use cere_db.Bloom
use cere_db.Bloom.{FastBloom, BloomLaws, BloomFilterWrapper}
use cere_db.Bloom.RoundTrip.{IsSeeded}
use cere_db.Footer
use cere_db.Footer.{SsTableFooter}
use cere_db.SsTable.{
  SsTableCodec, serialize, footer_of, index_entries, index_block, get_all_blocks, read_table,
}
use cere_db.SsTable.RoundTrip.{IsSmall, deserialize_sections-serialize}
use cere_db.SsTable.Blocks.{AreOrdered, FitsBlock, at_zero, get_all_blocks-encode_blocks}

-- A table that a writer makes: sorted blocks that fit their fields, and a filter with its seed.
pub record IsWritten {fast : FastBloom} (crc32 : Bytes → ℕ) (laws : BloomLaws fast)
    (t : SsTableCodec fast) : Type 0 where
  pub seeded : IsSeeded fast laws t.bloom
  pub small : All IsSmall t.blocks
  pub fit : All FitsBlock t.blocks
  pub ordered : AreOrdered t.blocks
  pub size : length (serialize crc32 fast t).0 < 2 ^ 64

module _ (crc32 : Bytes → ℕ) (crc32_u32 : (bs : Bytes) → crc32 bs < 2 ^ 32) (fast : FastBloom)
    (laws : BloomLaws fast) where
  blocks-serialize :
      (t : SsTableCodec fast)
      → IsWritten crc32 laws t
      → get_all_blocks crc32
          (serialize crc32 fast t).0
          (footer_of crc32 fast t)
          (index_entries crc32 0 t.blocks)
        ≡ ok (map at_zero t.blocks)
  unfolding serialize
  blocks-serialize t h =
      get_all_blocks-encode_blocks crc32 crc32_u32 (footer_of crc32 fast t) t.blocks
        (index_block (index_entries crc32 0 t.blocks)
          ++ (Bloom.encode fast t.bloom ++ Footer.encode crc32 (footer_of crc32 fast t)))
        (unfold footer_of in refl) h.ordered h.fit

  -- Reading the file of a written table gives its footer, its Bloom filter and all its blocks, in
  -- order; only the blocks' own offsets, which are not in the file, are lost.
  pub read_table-serialize :
      (t : SsTableCodec fast)
      → IsWritten crc32 laws t
      → read_table crc32 fast (serialize crc32 fast t).0
        ≡ ok ((serialize crc32 fast t).1, t.bloom, map at_zero t.blocks)
  unfolding read_table
  read_table-serialize t h = ground (
    arith,
    deserialize_sections-serialize crc32 crc32_u32 fast laws t h.small h.size h.seeded,
    footer t,
    blocks-serialize t h,
  )
    where
      footer : (t : SsTableCodec fast) → (serialize crc32 fast t).1 ≡ footer_of crc32 fast t
      footer t = unfold serialize in refl
