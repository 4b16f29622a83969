-- ===== src/Read/Table.antt =====
-- A lookup in the file of a table, beside the table's records.
use cere_db.Base.{
  ℕ, ◌+◌, ◌<◌, ◌^◌, ◌≡◌, refl, sym, ap, ◌∙◌, ◌⊎◌, inl, inr, true, false, Bool-cases, none, List, [],
  ◌∷◌, ◌++◌, append_assoc, arith, length, All, All-Has, Has, ◌||◌,
}
use cere_db.Error.{ok}
use cere_db.Bytes.{Bytes}
use cere_db.Key.{key_lt, key_eq}
use cere_db.Key.Order.{key_eq_iff, key_lt_irrefl}
use cere_db.Memtable.{MemtableRecord}
use cere_db.Bloom
use cere_db.Bloom.{FastBloom, BloomLaws, contains, with_rate}
use cere_db.Bloom.RoundTrip.{All-contains}
use cere_db.Footer.{SsTableFooter}
use cere_db.Footer
use cere_db.Block.{Block}
use cere_db.Block.RoundTrip.{AllFit}
use cere_db.Block.Builder.Keys.{keys, InRange}
use cere_db.SsTable.{
  SsTableCodec, serialize, footer_of, index_block, encode_blocks, index_entries, get_block,
}
use cere_db.SsTable.RoundTrip.{deserialize_sections-serialize}
use cere_db.SsTable.Blocks.{AreOrdered, FitsBlock, at_zero, get_block-encode_blocks, ordered_range}
use cere_db.SsTable.Whole.{IsWritten}
use cere_db.Compaction.{records_of}
use cere_db.Compaction.Winners.{block_records}
use cere_db.Compaction.Packing.{IsSound}
use cere_db.Compaction.Written.{Holds}
use cere_db.Compaction.Readback.{AreAscending, Holds-IsWritten, records_of-IsSound}
use cere_db.Read.{find_record, or_else, search_index, get_from_single_sstable}

find_record-append :
    (key : Bytes) (rs ss : List MemtableRecord)
    → ok (find_record key (rs ++ ss)) ≡ or_else (find_record key rs) (ok (find_record key ss))
unfolding find_record
find_record-append key [] ss = refl
find_record-append key (r ∷ rs) ss = elim (Bool-cases (key_eq r.key key)) [
  | inl e ↦ rw (e, find_record) refl
  | inr e ↦ rw (e, find_record) (find_record-append key rs ss)
]

-- A record that is not found has another key, and one that is found has this key.
find_record-cases :
    (key : Bytes) (rs : List MemtableRecord) → (find_record key rs ≡ none) ⊎ Has key (keys rs)
unfolding find_record
find_record-cases key [] = inl refl
find_record-cases key (r ∷ rs) = elim (Bool-cases (key_eq r.key key)) [
  | inl e ↦ inr (inl (sym ((key_eq_iff r.key key).0 e)))
  | inr e ↦ elim (find_record-cases key rs) [
    | inl h ↦ inl (rw (e, find_record) h)
    | inr h ↦ inr (inr h)
  ]
]

find_record-outside :
    (key first last : Bytes) (rs : List MemtableRecord)
    → (key_lt key first || key_lt last key) ≡ true
    → All (InRange first last) rs
    → find_record key rs ≡ none
unfolding find_record
find_record-outside key first last [] o h = refl
find_record-outside key first last (r ∷ rs) o h = elim (Bool-cases (key_eq r.key key)) [
  | inr e ↦ rw (e, find_record) (find_record-outside key first last rs o h.1)
  | inl e ↦
      let same : r.key ≡ key = (key_eq_iff r.key key).0 e in
      let low : key_lt key first ≡ false = rw same at h.0.0 in
      let high : key_lt last key ≡ false = rw same at h.0.1 in absurd (ground (arith, o, low, high))
]

module _ (crc32 : Bytes → ℕ) (crc32_u32 : (bs : Bytes) → crc32 bs < 2 ^ 32) (fast : FastBloom)
    (f : SsTableFooter) (blocks : List Block) (rest : Bytes)
    (hend : f.data_block_end ≡ length (encode_blocks crc32 blocks))
    (ordered : AreOrdered blocks) where
  -- The loop over the index, with `pre` looked at and `post` to look at.
  search_index-suffix :
      (key : Bytes) (pre : List Block) (n : ℕ) (post : List Block)
      → blocks ≡ pre ++ post
      → All FitsBlock post
      → All IsSound post
      → search_index crc32 fast
          (encode_blocks crc32 blocks ++ rest)
          f
          (index_entries crc32 0 blocks)
          key
          (index_entries crc32 n post)
        ≡ ok (find_record key (block_records post))
  unfolding search_index index_entries block_records
  search_index-suffix key pre n [] e h s = unfold find_record in refl
  search_index-suffix key pre n (b ∷ post) e h s =
      let whole : AreOrdered (pre ++ b ∷ post) = rw e at ordered in
      let ends : f.data_block_end ≡ length (encode_blocks crc32 (pre ++ b ∷ post)) = rw e at hend in
      let read : get_block crc32 (encode_blocks crc32 blocks ++ rest) f
            (index_entries crc32 0 blocks) b.first_key
          ≡ ok (at_zero b) =
        rw e (
          get_block-encode_blocks crc32 crc32_u32 f pre b post h.0.0 rest b.first_key ends whole
            h.0.1 (key_lt_irrefl b.first_key, ordered_range pre b post whole)) in
      let later =
        search_index-suffix key (pre ++ b ∷ []) (n + length (cere_db.Block.encode crc32 b)) post
          (e ∙ sym (append_assoc pre (b ∷ []) post)) h.1 s.1 in
      elim (Bool-cases (key_lt key b.first_key || key_lt b.last_key key)) [
        | inr o ↦
            rw (o, search_index, read, later)
              (sym (find_record-append key (records_of b) (block_records post)))
        | inl o ↦
            let nothing : find_record key (records_of b) ≡ none =
              rw (records_of-IsSound b s.0)
                (find_record-outside key b.first_key b.last_key s.0.rs o s.0.spans.2) in
            rw (o, search_index, later)
              (sym (
                find_record-append key (records_of b) (block_records post)
                ∙ ap (λ r. or_else r (ok (find_record key (block_records post)))) nothing))
      ]

module _ (crc32 : Bytes → ℕ) (crc32_u32 : (bs : Bytes) → crc32 bs < 2 ^ 32) (fast : FastBloom)
    (laws : BloomLaws fast) where
  search-serialize :
      (t : SsTableCodec fast) (key : Bytes)
      → IsWritten crc32 laws t
      → All IsSound t.blocks
      → search_index crc32 fast
          (serialize crc32 fast t).0
          (footer_of crc32 fast t)
          (index_entries crc32 0 t.blocks)
          key
          (index_entries crc32 0 t.blocks)
        ≡ ok (find_record key (block_records t.blocks))
  unfolding serialize
  search-serialize t key w s =
      search_index-suffix crc32 crc32_u32 fast (footer_of crc32 fast t) t.blocks
        (index_block (index_entries crc32 0 t.blocks)
          ++ (Bloom.encode fast t.bloom ++ Footer.encode crc32 (footer_of crc32 fast t)))
        (unfold footer_of in refl) w.ordered key [] 0 t.blocks refl w.fit s

  -- In the file of a table that holds records in strict key order, and the filter of their keys, a
  -- lookup finds the record of the key if the table holds one, and nothing otherwise.
  pub get_from_single_sstable-Holds :
      (n : ℕ) (rate : fast.Rate) (t : SsTableCodec fast) (rs : List MemtableRecord) (key : Bytes)
      → Holds (with_rate fast n rate) t rs
      → AreAscending rs
      → AllFit rs
      → length (serialize crc32 fast t).0 < 2 ^ 64
      → get_from_single_sstable crc32 fast (serialize crc32 fast t).0 key ≡ ok (find_record key rs)
  unfolding get_from_single_sstable
  get_from_single_sstable-Holds n rate t rs key h asc fit small =
      let w : IsWritten crc32 laws t =
        Holds-IsWritten crc32 crc32_u32 fast laws n rate t rs h asc fit small in
      let sections =
        deserialize_sections-serialize crc32 crc32_u32 fast laws t w.small small w.seeded in
      let footer : (serialize crc32 fast t).1 ≡ footer_of crc32 fast t = unfold serialize in refl in
      let search = search-serialize t key w h.sound in
      let all : All (λ k. contains fast t.bloom k ≡ true) (keys rs) =
        rw h.filter (All-contains fast laws (with_rate fast n rate) (keys rs)) in
      elim (Bool-cases (contains fast t.bloom key)) [
        | inl e ↦ rw (sections, get_from_single_sstable, e, footer, search, h.content) refl
        | inr e ↦ elim (find_record-cases key rs) [
          | inl none_there ↦ rw (sections, get_from_single_sstable, e, none_there) refl
          | inr there ↦
              let found : contains fast t.bloom key ≡ true =
                All-Has (λ k. contains fast t.bloom k ≡ true) (keys rs) key all there in
              absurd (ground (arith, e, found))
        ]
      ]
