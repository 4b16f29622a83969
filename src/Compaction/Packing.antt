-- ===== src/Compaction/Packing.antt =====
-- Records that are written into blocks: their order, and the shape of the blocks.
use cere_db.Base.{
  ℕ, ◌+◌, ◌*◌, ◌<◌, ◌≤◌, ◌^◌, ◌≡◌, ◌≢◌, refl, sym, ap, ◌∙◌, ◌⊎◌, inl, inr, true, false, Bool-cases,
  List, [], ◌∷◌, ◌++◌, arith, length, append_assoc, append-nil, All, All-append,
}
use cere_db.Outcome.{returned}
use cere_db.Bytes.{Bytes}
use cere_db.Memtable.{MemtableRecord, record_length}
use cere_db.Bloom
use cere_db.Bloom.{FastBloom, BloomFilterWrapper, insert_all}
use cere_db.Block
use cere_db.Block.{Block}
use cere_db.Block.RoundTrip.{total_length, length-encode}
use cere_db.Block.Builder.{
  BlockBuilder, enough_space, full, or_empty, is_full, is_empty, new, store, finished, take_full,
  add_record, sstable_block_size,
}
use cere_db.Block.Builder.Sizes.{
  IsCounted, IsCountedBlock, new-IsCounted, store-IsCounted, finished-IsCountedBlock,
  total_length-append, count-le-total_length,
}
use cere_db.Block.Builder.Keys.{
  IsKeyed, empty, spanned, Spans, keys, new-IsKeyed, store-IsKeyed, length-le-total_length,
}
use cere_db.Compaction.{Output, records_of, flush_winner, flush_into}
use cere_db.Compaction.Winners.{block_records}

-- A finished block: its sizes are those of its records, and its keys span them.
pub record IsSound (b : Block) : Type 0 where
  pub rs : List MemtableRecord
  pub counted : IsCountedBlock b rs
  pub spans : Spans b.first_key b.last_key rs

-- What can be added: a record whose key is not empty and whose size fits the block's fields.
pub record IsAddable (r : MemtableRecord) : Type 0 where
  pub key : r.key ≢ []
  pub size : record_length r r.key < 2 ^ 32

pub finished-IsSound :
    (b : BlockBuilder) → IsCounted b → IsKeyed b → b.records ≢ [] → IsSound (finished b)
unfolding finished
finished-IsSound b c (empty e f l) ne = absurd (ne e)
finished-IsSound b c (spanned first last f l h) ne = record {
  rs = b.records;
  counted = finished-IsCountedBlock b c;
  spans = rw (f, l) h;
}

-- What `done` has become: the records stand in the blocks and in the builder, in order.
pub record IsPacked {fast : FastBloom} (bloom0 : BloomFilterWrapper fast)
    (done : List MemtableRecord) (o : Output fast) : Type 0 where
  pub counted : IsCounted o.builder
  pub keyed : IsKeyed o.builder
  pub blocks : All IsSound o.blocks
  pub content : block_records o.blocks ++ o.builder.records ≡ done
  pub filter : o.bloom ≡ insert_all fast bloom0 (keys done)
  pub offset : o.builder.block_offset + 5 * o.builder.data_size ≤ 5 * total_length done

room :
    (b : BlockBuilder) (key : Bytes) (r : MemtableRecord)
    → is_full b key r ≡ false
    → (b.data_size + record_length r key ≤ sstable_block_size) ⊎ (b.records ≡ [])
unfolding is_empty
room b key r h = ground arith

total_length-pos : (rs : List MemtableRecord) → rs ≢ [] → 17 ≤ total_length rs
total_length-pos [] h = absurd (h refl)
total_length-pos (r ∷ rs) h = omega (arith, count-le-total_length (r ∷ rs))

-- A full block does not overflow the offset while the input is small.
length-finished :
    (crc32 : Bytes → ℕ) (b : BlockBuilder)
    → IsCounted b
    → IsKeyed b
    → b.records ≢ []
    → length (Block.encode crc32 (finished b)) ≤ 5 * b.data_size
unfolding finished
length-finished crc32 b c (empty e f l) ne = absurd (ne e)
length-finished crc32 b c (spanned first last f l h) ne = omega (
  arith,
  length-encode crc32 (finished b) b.records refl,
  ap (λ k. length (or_empty k)) f,
  ap (λ k. length (or_empty k)) l,
  length-le-total_length first b.records h.0,
  length-le-total_length last b.records h.1,
  total_length-pos b.records ne,
)

pub records_of-finished : (b : BlockBuilder) → records_of (finished b) ≡ b.records
unfolding finished
records_of-finished b = refl

pub block_records-append :
    (bs : List Block) (b : Block) → block_records (bs ++ b ∷ []) ≡ block_records bs ++ records_of b
unfolding block_records
block_records-append [] b = append-nil (records_of b)
block_records-append (c ∷ bs) b =
    rw (block_records-append bs b)
      (sym (append_assoc (records_of c) (block_records bs) (records_of b)))

insert_all-append_one :
    (fast : FastBloom) (b : BloomFilterWrapper fast) (rs : List MemtableRecord) (r : MemtableRecord)
    → insert_all fast b (keys (rs ++ r ∷ []))
      ≡ Bloom.insert fast (insert_all fast b (keys rs)) r.key
unfolding insert_all
insert_all-append_one fast b [] r = refl
insert_all-append_one fast b (s ∷ rs) r =
    insert_all-append_one fast (Bloom.insert fast b s.key) rs r

module _ {fast : FastBloom} (bloom0 : BloomFilterWrapper fast) where
  -- The record is stored.
  store-IsPacked :
      (done : List MemtableRecord) (o : Output fast) (r : MemtableRecord)
      → IsPacked bloom0 done o
      → IsAddable r
      → (o.builder.data_size + record_length r r.key ≤ sstable_block_size)
        ⊎ (o.builder.records ≡ [])
      → IsPacked bloom0
          (done ++ r ∷ [])
          (record o { builder = store o.builder r.key r; bloom = Bloom.insert fast o.bloom r.key })
  unfolding store total_length
  store-IsPacked done o r p a fits = record {
    counted = store-IsCounted o.builder r.key r p.counted a.size fits;
    keyed = store-IsKeyed o.builder r.key r a.key p.keyed;
    blocks = p.blocks;
    content =
        sym (append_assoc (block_records o.blocks) o.builder.records (r ∷ []))
        ∙ ap (λ t. t ++ r ∷ []) p.content;
    filter = rw insert_all-append_one (ap (λ b. Bloom.insert fast b r.key) p.filter);
    offset = omega (arith, total_length-append done (r ∷ []));
  }

  -- The full block is handed out, and a new one begun.
  take_full-IsPacked :
      (crc32 : Bytes → ℕ) (done : List MemtableRecord) (o : Output fast)
      → IsPacked bloom0 done o
      → o.builder.records ≢ []
      → IsPacked bloom0 done (record o {
        builder = new (o.builder.block_offset + length (Block.encode crc32 (finished o.builder)));
        blocks = o.blocks ++ finished o.builder ∷ [];
      })
  unfolding new
  take_full-IsPacked crc32 done o p ne = record {
    counted = new-IsCounted _;
    keyed = new-IsKeyed _;
    blocks = All-append _ o.blocks _ p.blocks (finished-IsSound o.builder p.counted p.keyed ne, tt);
    content =
        rw
          (
            append-nil,
            block_records-append o.blocks (finished o.builder),
            records_of-finished o.builder,
          )
          p.content;
    filter = p.filter;
    offset = omega (arith, length-finished crc32 o.builder p.counted p.keyed ne);
  }

records-ne :
    (b : BlockBuilder) (key : Bytes) (r : MemtableRecord) → is_full b key r ≡ true → b.records ≢ []
unfolding is_empty
records-ne b key r h e = ground arith

-- The two branches of `add_record`.
add_record-store :
    (crc32 : Bytes → ℕ) (b : BlockBuilder) (key : Bytes) (r : MemtableRecord)
    → is_full b key r ≡ false
    → add_record crc32 b key r ≡ returned (store b key r, enough_space)
unfolding add_record
add_record-store crc32 b key r e = rw e refl

add_record-full :
    (crc32 : Bytes → ℕ) (b : BlockBuilder) (key : Bytes) (r : MemtableRecord)
    → is_full b key r ≡ true
    → b.block_offset + length (Block.encode crc32 (finished b)) < 2 ^ 64
    → add_record crc32 b key r
      ≡ returned (
        new (b.block_offset + length (Block.encode crc32 (finished b))),
        full (finished b) (Block.encode crc32 (finished b)),
      )
unfolding add_record take_full
add_record-full crc32 b key r e small = rw e (ground (arith, small))

new-is_full : (offset : ℕ) (key : Bytes) (r : MemtableRecord) → is_full (new offset) key r ≡ false
unfolding new is_empty
new-is_full offset key r = refl

module _ (crc32 : Bytes → ℕ) (fast : FastBloom) where
  -- The builder after the full block, and what stands behind it.
  next : Output fast → BlockBuilder
  next o = new (o.builder.block_offset + length (Block.encode crc32 (finished o.builder)))

  handed_out : Output fast → Output fast
  handed_out o = record o { builder = next o; blocks = o.blocks ++ finished o.builder ∷ [] }

  flush_winner-full :
      (o : Output fast) (r : MemtableRecord)
      → is_full o.builder r.key r ≡ true
      → o.builder.block_offset + length (Block.encode crc32 (finished o.builder)) < 2 ^ 64
      → flush_winner crc32 fast o r
        ≡ returned (record (handed_out o) {
          builder = store (next o) r.key r;
          bloom = Bloom.insert fast o.bloom r.key;
        })
  unfolding flush_winner flush_into next handed_out
  flush_winner-full o r e small =
      rw
        (
          add_record-full crc32 o.builder r.key r e small,
          add_record-store crc32 (next o) r.key r (new-is_full _ r.key r),
        )
        refl

  pub flush_winner-IsPacked :
      (bloom0 : BloomFilterWrapper fast) (done : List MemtableRecord) (o : Output fast)
      (r : MemtableRecord)
      → IsPacked bloom0 done o
      → IsAddable r
      → 5 * total_length (done ++ r ∷ []) < 2 ^ 64
      → (o' : Output fast) × (flush_winner crc32 fast o r ≡ returned o')
        × IsPacked bloom0 (done ++ r ∷ []) o'
  unfolding flush_winner flush_into
  flush_winner-IsPacked bloom0 done o r p a small = elim (Bool-cases (is_full o.builder r.key r)) [
    | inr e ↦ (
      record o { builder = store o.builder r.key r; bloom = Bloom.insert fast o.bloom r.key },
      rw (add_record-store crc32 o.builder r.key r e) refl,
      store-IsPacked bloom0 done o r p a (room o.builder r.key r e),
    )
    | inl e ↦
        let ne : o.builder.records ≢ [] = records-ne o.builder r.key r e in
        let p1 : IsPacked bloom0 done (handed_out o) =
          unfold handed_out next in take_full-IsPacked bloom0 crc32 done o p ne in
        (
          _,
          flush_winner-full o r e (
              omega (
                arith,
                p.offset,
                length-finished crc32 o.builder p.counted p.keyed ne,
                total_length-append done (r ∷ []),
                small,
              )),
          unfold handed_out next in
              store-IsPacked bloom0 done (handed_out o) r p1 a
                (inr (unfold handed_out next new in refl)),
        )
  ]
