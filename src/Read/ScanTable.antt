-- ===== src/Read/ScanTable.antt =====
-- A scan of a table's file, beside the table's records.
use cere_db.Base.{
  ℕ, ◌+◌, ◌<◌, ◌^◌, ◌≡◌, refl, sym, ap, ◌∙◌, inl, inr, ltb, ◌&&◌, not, true, false, Bool-cases,
  List, [], ◌∷◌, ◌++◌, append_assoc, arith, length, All,
}
use cere_db.Error.{ok}
use cere_db.Bytes.{Bytes}
use cere_db.Key.Order.{key_lt_irrefl}
use cere_db.Ord.{bytes_ord}
use cere_db.TreeMap
use cere_db.TreeMap.Laws.{IsSorted}
use cere_db.Memtable.{MemtableRecord}
use cere_db.Bloom
use cere_db.Bloom.{FastBloom, BloomLaws, with_rate}
use cere_db.Footer.{SsTableFooter}
use cere_db.Footer
use cere_db.Block
use cere_db.Block.{Block}
use cere_db.Block.RoundTrip.{AllFit}
use cere_db.Block.Builder.Keys.{InRange}
use cere_db.SsTable.{
  SsTableCodec, serialize, footer_of, index_block, encode_blocks, index_entries, get_block,
}
use cere_db.SsTable.RoundTrip.{deserialize_sections-serialize}
use cere_db.SsTable.Blocks.{AreOrdered, FitsBlock, at_zero, get_block-encode_blocks, ordered_range}
use cere_db.SsTable.Whole.{IsWritten}
use cere_db.Compaction.{Merged, records_of, merge_records}
use cere_db.Compaction.Winners.{
  block_records, Newest, merge_records-Newest, merge_records-IsSorted, merge_records-append,
}
use cere_db.Compaction.Packing.{IsSound}
use cere_db.Compaction.Written.{Holds}
use cere_db.Compaction.Readback.{AreAscending, Holds-IsWritten, records_of-IsSound}
use cere_db.Read.Scan.{ScanRange, key_in_range, ranges_overlap, scan_index, scan_file}
use cere_db.Read.Merge.{
  eligible, eligible-append, ranges_overlap-key_in_range, scan_records-merge_records,
}

eligible-outside :
    (range : ScanRange) (n : ℕ) (first last : Bytes) (rs : List MemtableRecord)
    → ranges_overlap range first last ≡ false
    → All (InRange first last) rs
    → eligible range n rs ≡ []
eligible-outside range n first last [] o h = refl
eligible-outside range n first last (r ∷ rs) o h = elim (Bool-cases (key_in_range r.key range)) [
  | inl e ↦
      let hit : ranges_overlap range first last ≡ true =
        ranges_overlap-key_in_range range r.key first last h.0.0 h.0.1 e in
      absurd (ground (arith, o, hit))
  | inr e ↦
      let skip : (not (ltb n r.lsn) && key_in_range r.key range) ≡ false = ground (arith, e) in
      rw skip (eligible-outside range n first last rs o h.1)
]

module _ (crc32 : Bytes → ℕ) (crc32_u32 : (bs : Bytes) → crc32 bs < 2 ^ 32) (fast : FastBloom)
    (range : ScanRange) (seq : ℕ) (f : SsTableFooter) (blocks : List Block) (rest : Bytes)
    (hend : f.data_block_end ≡ length (encode_blocks crc32 blocks))
    (ordered : AreOrdered blocks) where
  scan_index-suffix :
      (merged : Merged) (pre : List Block) (n : ℕ) (post : List Block)
      → IsSorted merged
      → blocks ≡ pre ++ post
      → All FitsBlock post
      → All IsSound post
      → scan_index crc32 fast range seq
          (encode_blocks crc32 blocks ++ rest)
          f
          (index_entries crc32 0 blocks)
          merged
          (index_entries crc32 n post)
        ≡ ok (merge_records merged (eligible range seq (block_records post)))
  unfolding scan_index index_entries block_records
  scan_index-suffix merged pre n [] sorted e h s = unfold merge_records in refl
  scan_index-suffix merged pre n (b ∷ post) sorted e h s =
      let whole : AreOrdered (pre ++ b ∷ post) = rw e at ordered in
      let ends : f.data_block_end ≡ length (encode_blocks crc32 (pre ++ b ∷ post)) = rw e at hend in
      let read : get_block crc32 (encode_blocks crc32 blocks ++ rest) f
            (index_entries crc32 0 blocks) b.first_key
          ≡ ok (at_zero b) =
        rw e (
          get_block-encode_blocks crc32 crc32_u32 f pre b post h.0.0 rest b.first_key ends whole
            h.0.1 (key_lt_irrefl b.first_key, ordered_range pre b post whole)) in
      let here : List MemtableRecord = eligible range seq (records_of b) in
      let split : eligible range seq (records_of b ++ block_records post)
          ≡ here ++ eligible range seq (block_records post) =
        eligible-append range seq (records_of b) (block_records post) in
      let next : blocks ≡ (pre ++ b ∷ []) ++ post = e ∙ sym (append_assoc pre (b ∷ []) post) in
      elim (Bool-cases (ranges_overlap range b.first_key b.last_key)) [
        | inl o ↦
            let later =
              scan_index-suffix (merge_records merged here) (pre ++ b ∷ [])
                (n + length (Block.encode crc32 b)) post (merge_records-IsSorted merged here sorted)
                next h.1 s.1 in
            rw
              (
                o,
                scan_index,
                read,
                scan_records-merge_records range seq merged (records_of b) sorted,
                later,
                split,
              )
              (ap ok
                (sym (merge_records-append merged here (eligible range seq (block_records post)))))
        | inr o ↦
            let nothing : eligible range seq (records_of b) ≡ [] =
              rw (records_of-IsSound b s.0)
                (eligible-outside range seq b.first_key b.last_key s.0.rs o s.0.spans.2) in
            let later =
              scan_index-suffix merged (pre ++ b ∷ []) (n + length (Block.encode crc32 b)) post
                sorted next h.1 s.1 in
            rw (o, scan_index, later, split, nothing) refl
      ]

module _ (crc32 : Bytes → ℕ) (crc32_u32 : (bs : Bytes) → crc32 bs < 2 ^ 32) (fast : FastBloom)
    (laws : BloomLaws fast) where
  scan-serialize :
      (range : ScanRange) (seq : ℕ) (merged : Merged) (t : SsTableCodec fast)
      → IsSorted merged
      → IsWritten crc32 laws t
      → All IsSound t.blocks
      → scan_index crc32 fast range seq
          (serialize crc32 fast t).0
          (footer_of crc32 fast t)
          (index_entries crc32 0 t.blocks)
          merged
          (index_entries crc32 0 t.blocks)
        ≡ ok (merge_records merged (eligible range seq (block_records t.blocks)))
  unfolding serialize
  scan-serialize range seq merged t sorted w s =
      scan_index-suffix crc32 crc32_u32 fast range seq (footer_of crc32 fast t) t.blocks
        (index_block (index_entries crc32 0 t.blocks)
          ++ (Bloom.encode fast t.bloom ++ Footer.encode crc32 (footer_of crc32 fast t)))
        (unfold footer_of in refl) w.ordered merged [] 0 t.blocks sorted refl w.fit s

  -- A scan of the file of a table that holds records in strict key order succeeds. If what was merged
  -- before holds the newest versions of `done`, in key order, then what is merged after holds the newest
  -- versions of these and the table's records that are in range and visible, in key order.
  pub scan_file-Newest :
      (range : ScanRange) (seq : ℕ) (merged : Merged) (done : List MemtableRecord) (n : ℕ)
      (rate : fast.Rate) (t : SsTableCodec fast) (rs : List MemtableRecord)
      → IsSorted merged
      → ((k : Bytes) → Newest k done (TreeMap.get k merged))
      → Holds (with_rate fast n rate) t rs
      → AreAscending rs
      → AllFit rs
      → length (serialize crc32 fast t).0 < 2 ^ 64
      → (m : Merged) × (scan_file crc32 fast range seq merged (serialize crc32 fast t).0 ≡ ok m)
        × IsSorted m
        × ((k : Bytes) → Newest k (done ++ eligible range seq rs) (TreeMap.get k m))
  unfolding scan_file
  scan_file-Newest range seq merged done n rate t rs sorted newest h asc fit small =
      let w : IsWritten crc32 laws t =
        Holds-IsWritten crc32 crc32_u32 fast laws n rate t rs h asc fit small in
      let sections =
        deserialize_sections-serialize crc32 crc32_u32 fast laws t w.small small w.seeded in
      let footer : (serialize crc32 fast t).1 ≡ footer_of crc32 fast t = unfold serialize in refl in
      let scan = scan-serialize range seq merged t sorted w h.sound in
      (
        merge_records merged (eligible range seq rs),
        rw (sections, scan_file, footer, scan, h.content) refl,
        merge_records-IsSorted merged (eligible range seq rs) sorted,
        merge_records-Newest merged done (eligible range seq rs) newest,
      )
