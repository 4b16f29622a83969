-- ===== src/Compaction/Readback.antt =====
-- The file of a compaction's output, read back.
use cere_db.Base.{
  ℕ, ◌<◌, ◌^◌, ◌≡◌, refl, ◌∙◌, inl, inr, true, false, List, [], ◌∷◌, ◌++◌, map, arith, length, All,
  All-Has, Has,
}
use cere_db.Error.{ok}
use cere_db.Bytes.{Bytes}
use cere_db.Key.{key_lt}
use cere_db.Memtable.{MemtableRecord}
use cere_db.Bloom.{FastBloom, BloomLaws, BloomFilterWrapper, with_rate, contains}
use cere_db.Bloom.RoundTrip.{insert_all-IsSeeded, with_rate-IsSeeded, All-contains}
use cere_db.Block.{Block}
use cere_db.Block.RoundTrip.{AllFit}
use cere_db.Block.Builder.Keys.{keys, InRange, length-le-total_length}
use cere_db.SsTable.{SsTableCodec, serialize, read_table}
use cere_db.SsTable.RoundTrip.{IsSmall}
use cere_db.SsTable.Blocks.{AreOrdered, FitsBlock, at_zero}
use cere_db.SsTable.Whole.{IsWritten, read_table-serialize}
use cere_db.Compaction.{records_of}
use cere_db.Compaction.Winners.{block_records}
use cere_db.Compaction.Packing.{IsSound}
use cere_db.Compaction.Written.{Holds}

-- The records stand in strict order of their keys.
abbrev pub AreAscending : List MemtableRecord → Type 0
AreAscending [] = Unit {0}
AreAscending (r ∷ rs) = All (λ k. key_lt r.key k ≡ true) (keys rs) × AreAscending rs

AreAscending-left : (rs ss : List MemtableRecord) → AreAscending (rs ++ ss) → AreAscending ss
AreAscending-left [] ss h = h
AreAscending-left (r ∷ rs) ss h = AreAscending-left rs ss h.1

All-keys_right :
    (P : Bytes → Type 0) (rs ss : List MemtableRecord) → All P (keys (rs ++ ss)) → All P (keys ss)
All-keys_right P [] ss h = h
All-keys_right P (r ∷ rs) ss h = All-keys_right P rs ss h.1

-- A key on the left is less than one on the right.
AreAscending-across :
    (rs ss : List MemtableRecord) (k : Bytes)
    → AreAscending (rs ++ ss)
    → Has k (keys rs)
    → All (λ j. key_lt k j ≡ true) (keys ss)
AreAscending-across [] ss k h m = absurd m
AreAscending-across (r ∷ rs) ss k h (inl e) = rw e (All-keys_right _ rs ss h.0)
AreAscending-across (r ∷ rs) ss k h (inr m) = AreAscending-across rs ss k h.1 m

InRange-key :
    (first last k : Bytes) (rs : List MemtableRecord)
    → All (InRange first last) rs
    → Has k (keys rs)
    → key_lt k first ≡ false
InRange-key first last k [] h m = absurd m
InRange-key first last k (r ∷ rs) h (inl e) = rw e h.0.0
InRange-key first last k (r ∷ rs) h (inr m) = InRange-key first last k rs h.1 m

-- The records of a sound block.
pub records_of-IsSound : (b : Block) (s : IsSound b) → records_of b ≡ s.rs
records_of-IsSound b s = rw s.counted.records

Has-keys-append_left :
    (k : Bytes) (rs ss : List MemtableRecord) → Has k (keys rs) → Has k (keys (rs ++ ss))
Has-keys-append_left k [] ss h = absurd h
Has-keys-append_left k (r ∷ rs) ss (inl e) = inl e
Has-keys-append_left k (r ∷ rs) ss (inr h) = inr (Has-keys-append_left k rs ss h)

-- What holds of all keys holds of the blocks' first keys.
All-first_keys :
    (P : Bytes → Type 0) (bs : List Block)
    → All IsSound bs
    → All P (keys (block_records bs))
    → All (λ b. P b.first_key) bs
unfolding block_records
All-first_keys P [] s h = tt
All-first_keys P (b ∷ bs) s h = (
  All-Has P (keys (block_records (b ∷ bs))) b.first_key h (
      unfold block_records in
      Has-keys-append_left b.first_key (records_of b) (block_records bs)
        (rw (records_of-IsSound b s.0) s.0.spans.0)),
  All-first_keys P bs s.1 (All-keys_right P (records_of b) (block_records bs) h),
)

AreOrdered-blocks :
    (bs : List Block) → All IsSound bs → AreAscending (block_records bs) → AreOrdered bs
unfolding block_records
AreOrdered-blocks [] s h = tt
AreOrdered-blocks (b ∷ bs) s h = (
  InRange-key b.first_key b.last_key b.last_key s.0.rs s.0.spans.2 s.0.spans.1,
  All-first_keys (λ k. key_lt b.last_key k ≡ true) bs s.1
      (AreAscending-across (records_of b) (block_records bs) b.last_key h
        (rw (records_of-IsSound b s.0) s.0.spans.1)),
  AreOrdered-blocks bs s.1 (AreAscending-left (records_of b) (block_records bs) h),
)

AllFit-left : (rs ss : List MemtableRecord) → AllFit (rs ++ ss) → AllFit rs × AllFit ss
AllFit-left [] ss h = (tt, h)
AllFit-left (r ∷ rs) ss h = ((h.0, (AllFit-left rs ss h.1).0), (AllFit-left rs ss h.1).1)

IsSound-IsSmall : (b : Block) → IsSound b → IsSmall b
IsSound-IsSmall b s = record {
  first_key = omega (
    arith,
    length-le-total_length b.first_key s.rs s.spans.0,
    s.counted.size,
    s.counted.size_u32,
  );
  last_key =
      omega (
        arith,
        length-le-total_length b.last_key s.rs s.spans.1,
        s.counted.size,
        s.counted.size_u32,
      );
  record_count = s.counted.count_u32;
}

IsSound-FitsBlock : (b : Block) (s : IsSound b) → AllFit (records_of b) → FitsBlock b
IsSound-FitsBlock b s h = (
  s.rs,
  record {
    records = s.counted.records;
    count = s.counted.count;
    size = s.counted.size;
    all_fit = rw (records_of-IsSound b s) at h;
    first_key = (IsSound-IsSmall b s).first_key;
    last_key = (IsSound-IsSmall b s).last_key;
    count_u32 = s.counted.count_u32;
    size_u32 = s.counted.size_u32;
  },
)

All-IsSmall : (bs : List Block) → All IsSound bs → All IsSmall bs
All-IsSmall [] s = tt
All-IsSmall (b ∷ bs) s = (IsSound-IsSmall b s.0, All-IsSmall bs s.1)

All-FitsBlock : (bs : List Block) → All IsSound bs → AllFit (block_records bs) → All FitsBlock bs
unfolding block_records
All-FitsBlock [] s h = tt
All-FitsBlock (b ∷ bs) s h = (
  IsSound-FitsBlock b s.0 (AllFit-left (records_of b) (block_records bs) h).0,
  All-FitsBlock bs s.1 (AllFit-left (records_of b) (block_records bs) h).1,
)

block_records-at_zero : (bs : List Block) → block_records (map at_zero bs) ≡ block_records bs
unfolding block_records
block_records-at_zero [] = refl
block_records-at_zero (b ∷ bs) = rw (block_records-at_zero bs)

module _ (crc32 : Bytes → ℕ) (crc32_u32 : (bs : Bytes) → crc32 bs < 2 ^ 32) (fast : FastBloom)
    (laws : BloomLaws fast) where
  pub Holds-IsWritten :
      (n : ℕ) (rate : fast.Rate) (t : SsTableCodec fast) (rs : List MemtableRecord)
      → Holds (with_rate fast n rate) t rs
      → AreAscending rs
      → AllFit rs
      → length (serialize crc32 fast t).0 < 2 ^ 64
      → IsWritten crc32 laws t
  Holds-IsWritten n rate t rs h asc fit small = record {
    seeded =
        rw h.filter
          (insert_all-IsSeeded fast laws _ (keys rs) (with_rate-IsSeeded fast laws n rate));
    small = All-IsSmall t.blocks h.sound;
    fit = All-FitsBlock t.blocks h.sound (rw h.content fit);
    ordered = AreOrdered-blocks t.blocks h.sound (rw h.content asc);
    size = small;
  }

  -- A table that holds records in strict key order, and the filter of their keys, is read back from
  -- its file as blocks with exactly these records, in order, and a filter that reports each key.
  pub read_table-Holds :
      (n : ℕ) (rate : fast.Rate) (t : SsTableCodec fast) (rs : List MemtableRecord)
      → Holds (with_rate fast n rate) t rs
      → AreAscending rs
      → AllFit rs
      → length (serialize crc32 fast t).0 < 2 ^ 64
      → (bloom : BloomFilterWrapper fast) × (blocks : List Block) × (read_table crc32 fast
            (serialize crc32 fast t).0
          ≡ ok ((serialize crc32 fast t).1, bloom, blocks))
        × (block_records blocks ≡ rs)
        × All (λ k. contains fast bloom k ≡ true) (keys rs)
  read_table-Holds n rate t rs h asc fit small = (
    t.bloom,
    map at_zero t.blocks,
    read_table-serialize crc32 crc32_u32 fast laws t (Holds-IsWritten n rate t rs h asc fit small),
    block_records-at_zero t.blocks ∙ h.content,
    rw h.filter (All-contains fast laws (with_rate fast n rate) (keys rs)),
  )
