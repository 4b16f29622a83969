-- ===== src/Block/Builder/Sizes.antt =====
-- The counters of a block builder, beside what it holds.
use cere_db.Base.{
  ℕ, ◌+◌, ◌*◌, ◌<◌, ◌≤◌, ◌^◌, ◌≡◌, refl, List, [], ◌∷◌, ◌++◌, ◌⊎◌, inl, inr, arith, length,
  length-append, some,
}
use cere_db.Bytes.{Bytes}
use cere_db.Memtable.{MemtableRecord, record_length}
use cere_db.Block.{Block}
use cere_db.Block.RoundTrip.{total_length}
use cere_db.Block.Builder.{BlockBuilder, sstable_block_size, new, store, finished}

pub total_length-append :
    (rs ss : List MemtableRecord) → total_length (rs ++ ss) ≡ total_length rs + total_length ss
unfolding total_length
total_length-append [] ss = omega arith
total_length-append (r ∷ rs) ss = omega (arith, total_length-append rs ss)

-- The sizes agree with the records, and only a single record may pass the limit.
pub record IsCounted (b : BlockBuilder) : Type 0 where
  pub size : b.data_size ≡ total_length b.records
  pub count : b.record_count ≡ length b.records
  pub limit : (b.data_size ≤ sstable_block_size) ⊎ (b.record_count ≤ 1)
  pub size_u32 : b.data_size < 2 ^ 32

-- A record has at least 17 bytes, so the count stays far below its 32 bits.
pub count-le-total_length : (rs : List MemtableRecord) → 17 * length rs ≤ total_length rs
unfolding total_length record_length
count-le-total_length [] = omega arith
count-le-total_length (r ∷ rs) = omega (arith, count-le-total_length rs)

pub new-IsCounted : (offset : ℕ) → IsCounted (new offset)
unfolding new total_length
new-IsCounted offset = record {
  size = refl;
  count = refl;
  limit = inl (omega arith);
  size_u32 = omega arith;
}

pub store-IsCounted :
    (b : BlockBuilder) (key : Bytes) (r : MemtableRecord)
    → IsCounted b
    → record_length r key < 2 ^ 32
    → (b.data_size + record_length r key ≤ sstable_block_size) ⊎ (b.records ≡ [])
    → IsCounted (store b key r)
unfolding store total_length record_length
store-IsCounted b key r h small (inl room) = ground (
  arith,
  total_length-append b.records ((record r { key = key }) ∷ []),
  length-append b.records ((record r { key = key }) ∷ []),
  count-le-total_length b.records,
)
store-IsCounted b key r h small (inr empty) = ground (
  arith,
  total_length-append b.records ((record r { key = key }) ∷ []),
  length-append b.records ((record r { key = key }) ∷ []),
  count-le-total_length b.records,
)

-- Whether the record is stored or the block is handed out, the builder stays counted, and a block
-- that is handed out has the sizes of its records and keeps to the limit.
pub record IsCountedBlock (b : Block) (rs : List MemtableRecord) : Type 0 where
  pub records : b.records ≡ some rs
  pub size : b.data_size ≡ total_length rs
  pub count : b.record_count ≡ length rs
  pub limit : (b.data_size ≤ sstable_block_size) ⊎ (b.record_count ≤ 1)
  pub size_u32 : b.data_size < 2 ^ 32
  pub count_u32 : b.record_count < 2 ^ 32

pub finished-IsCountedBlock :
    (b : BlockBuilder) → IsCounted b → IsCountedBlock (finished b) b.records
unfolding finished
finished-IsCountedBlock b h = record {
  records = refl;
  size = omega (arith, h.size);
  count = h.count;
  limit = ground (arith, h.limit);
  size_u32 = omega arith;
  count_u32 = omega (arith, count-le-total_length b.records);
}
