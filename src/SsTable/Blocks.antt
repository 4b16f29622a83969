-- ===== src/SsTable/Blocks.antt =====
-- The way from a key through the sparse index to a block of the file.
use cere_db.Base.{
  ℕ, suc, ◌+◌, ◌<◌, ◌≤◌, ◌^◌, ◌≡◌, refl, ap, sym, ◌∙◌, true, false, List, [], ◌∷◌, ◌++◌, map, arith,
  length, length-append, append_assoc, get_elem?, All, All-at, Ordering,
}
use native.Mathlib.Nat.{zero-add}
use cere_db.Error.{ok}
use cere_db.Bytes.{Bytes}
use cere_db.Key.{key_lt}
use cere_db.Key.Order.{key_lt_asymm, key_le_lt_trans, key_lt_le_trans, key_lt_irrefl}
use cere_db.Memtable.{MemtableRecord}
use cere_db.Footer.{SsTableFooter}
use cere_db.Index.{SparseIndexEntry}
use cere_db.Block
use cere_db.Block.{Block}
use cere_db.Block.RoundTrip.{Fits, async_decode-Reads}
use cere_db.SsTable.{
  found, binary_search_by, range_cmp, index_position, encode_blocks, index_entries, get_block,
  get_blocks, get_all_blocks, end_of, read_at,
}
use cere_db.SsTable.RoundTrip.{read_at-Reads}

-- Each block's keys lie behind those of the blocks before it.
abbrev pub AreOrdered : List Block → Type 0
AreOrdered [] = Unit {0}
AreOrdered (b ∷ bs) =
    (key_lt b.last_key b.first_key ≡ false)
    × All (λ c. key_lt b.last_key c.first_key ≡ true) bs
    × AreOrdered bs

-- The block ends before the key.
abbrev IsBefore : Bytes → Block → Type 0
IsBefore key c = (key_lt c.last_key key ≡ true) × (key_lt c.last_key c.first_key ≡ false)

-- The key is in the block's range.
abbrev pub IsWithin : Bytes → Block → Type 0
IsWithin key b = (key_lt key b.first_key ≡ false) × (key_lt b.last_key key ≡ false)

binary_search_by-append {ℓ} :
    {A : Type ℓ} (f : A → Ordering) (i : ℕ) (xs : List A) (y : A) (ys : List A)
    → All (λ x. f x ≡ Ordering.lt) xs
    → f y ≡ Ordering.eq
    → binary_search_by f i (xs ++ y ∷ ys) ≡ found (i + length xs)
unfolding binary_search_by
binary_search_by-append f i [] y ys h e = ground (arith, e)
binary_search_by-append f i (x ∷ xs) y ys h e =
    ground (arith, h.0, binary_search_by-append f (suc i) xs y ys h.1 e)

get_elem?-append {ℓ} :
    {A : Type ℓ} (xs ys : List A) (i : ℕ) → get_elem? (xs ++ ys) (i + length xs) ≡ get_elem? ys i
get_elem?-append [] ys i = ground arith
get_elem?-append (x ∷ xs) ys i = ground (arith, get_elem?-append xs ys i)

module _ (crc32 : Bytes → ℕ) where
  encode_blocks-append :
      (bs cs : List Block)
      → encode_blocks crc32 (bs ++ cs) ≡ encode_blocks crc32 bs ++ encode_blocks crc32 cs
  unfolding encode_blocks
  encode_blocks-append [] cs = refl
  encode_blocks-append (b ∷ bs) cs = simp (encode_blocks-append bs cs, append_assoc)

  index_entries-append :
      (n : ℕ) (bs cs : List Block)
      → index_entries crc32 n (bs ++ cs)
        ≡ index_entries crc32 n bs ++ index_entries crc32 (n + length (encode_blocks crc32 bs)) cs
  unfolding index_entries encode_blocks
  index_entries-append n [] cs =
      let e : n ≡ n + 0 = omega arith in ap (λ k. index_entries crc32 k cs) e
  index_entries-append n (b ∷ bs) cs =
      let m : ℕ = n + length (Block.encode crc32 b) in
      let e : m + length (encode_blocks crc32 bs)
          ≡ n + length (Block.encode crc32 b ++ encode_blocks crc32 bs) =
        omega (arith, length-append (Block.encode crc32 b) (encode_blocks crc32 bs)) in
      rw (index_entries-append m bs cs, e)

  -- Seen from a key behind them, all these blocks lie before.
  entries_before :
      (key : Bytes) (n : ℕ) (bs : List Block)
      → All (IsBefore key) bs
      → All (λ e. range_cmp key e ≡ Ordering.lt) (index_entries crc32 n bs)
  unfolding index_entries range_cmp
  entries_before key n [] h = tt
  entries_before key n (b ∷ bs) h = (
    ground (
      arith,
      h.0.0,
      key_lt_asymm b.first_key key,
      key_le_lt_trans b.first_key b.last_key key,
      h.0.1,
    ),
    entries_before key (n + length (Block.encode crc32 b)) bs h.1,
  )

  index_position-finds :
      (key : Bytes) (xs : List SparseIndexEntry) (y : SparseIndexEntry) (ys : List SparseIndexEntry)
      → All (λ e. range_cmp key e ≡ Ordering.lt) xs
      → range_cmp key y ≡ Ordering.eq
      → index_position (xs ++ y ∷ ys) key ≡ ok (0 + length xs)
  unfolding index_position
  index_position-finds key xs y ys h e =
      ground (arith, binary_search_by-append (range_cmp key) 0 xs y ys h e)

  -- The entry at the position and the one behind it, and the read between.
  get_block-at :
      (file : Bytes) (f : SsTableFooter) (key : Bytes) (xs : List SparseIndexEntry)
      (y : SparseIndexEntry) (ys : List SparseIndexEntry) (b : Block)
      → All (λ e. range_cmp key e ≡ Ordering.lt) xs
      → range_cmp key y ≡ Ordering.eq
      → y.block_offset ≤ end_of f (get_elem? ys 0)
      → read_at file y.block_offset (Block.async_decode crc32) ≡ ok b
      → get_block crc32 file f (xs ++ y ∷ ys) key ≡ ok b
  unfolding get_block
  get_block-at file f key xs y ys b h e bound decoded =
      let next : get_elem? (xs ++ y ∷ ys) (suc (0 + length xs)) ≡ get_elem? ys 0 =
        let shift : suc (0 + length xs) ≡ 1 + length xs = omega arith in
        rw shift (get_elem?-append xs (y ∷ ys) 1) in
      ground (
        arith,
        index_position-finds key xs y ys h e,
        get_elem?-append xs (y ∷ ys) 0,
        next,
        decoded,
        bound,
      )

-- What a sorted list of blocks says of those before and behind one of them.
IsBefore-of :
    (key : Bytes) (pre : List Block) (b : Block) (post : List Block)
    → AreOrdered (pre ++ b ∷ post)
    → IsWithin key b
    → All (IsBefore key) pre
IsBefore-of key [] b post h w = tt
IsBefore-of key (c ∷ pre) b post h w = (
  (
    key_lt_le_trans c.last_key b.first_key key
        (All-at (λ d. key_lt c.last_key d.first_key ≡ true) pre b post h.1) w.0,
    h.0,
  ),
  IsBefore-of key pre b post h.2 w,
)

range_cmp-within :
    (key : Bytes) (e : SparseIndexEntry)
    → key_lt key e.first_key ≡ false
    → key_lt e.last_key key ≡ false
    → range_cmp key e ≡ Ordering.eq
unfolding range_cmp
range_cmp-within key e h k = ground (arith, h, k)

module _ (crc32 : Bytes → ℕ) where
  -- The next block starts, or the data end, behind the block's own start.
  next_offset :
      (f : SsTableFooter) (n m : ℕ) (post : List Block)
      → n + m ≤ f.data_block_end
      → n ≤ end_of f (get_elem? (index_entries crc32 (n + m) post) 0)
  unfolding index_entries
  next_offset f n m [] h = omega arith
  next_offset f n m (c ∷ post) h = omega arith

  blocks_split :
      (pre : List Block) (b : Block) (post : List Block) (rest : Bytes)
      → encode_blocks crc32 (pre ++ b ∷ post) ++ rest
        ≡ encode_blocks crc32 pre ++ (Block.encode crc32 b ++ (encode_blocks crc32 post ++ rest))
  blocks_split pre b post rest =
      rw (encode_blocks-append crc32 pre (b ∷ post)) (unfold encode_blocks in simp append_assoc)

-- The entry that `serialize` writes for a block.
abbrev entry_of : ℕ → Block → SparseIndexEntry
entry_of offset b = record {
  first_key = b.first_key;
  block_offset = offset;
  last_key = b.last_key;
  record_count = b.record_count;
}

module _ (crc32 : Bytes → ℕ) (crc32_u32 : (bs : Bytes) → crc32 bs < 2 ^ 32) where
  -- In a file that begins with sorted blocks, every key in the range of a block leads to that block.
  pub get_block-encode_blocks :
      (f : SsTableFooter) (pre : List Block) (b : Block) (post : List Block)
      (rs : List MemtableRecord) (rest key : Bytes)
      → f.data_block_end ≡ length (encode_blocks crc32 (pre ++ b ∷ post))
      → AreOrdered (pre ++ b ∷ post)
      → Fits b rs
      → IsWithin key b
      → get_block crc32
          (encode_blocks crc32 (pre ++ b ∷ post) ++ rest)
          f
          (index_entries crc32 0 (pre ++ b ∷ post))
          key
        ≡ ok (record b { offset = 0 })
  unfolding index_entries
  get_block-encode_blocks f pre b post rs rest key hend ordered fits w =
      let start : ℕ = length (encode_blocks crc32 pre) in
      let after : Bytes = encode_blocks crc32 post ++ rest in
      rw (index_entries-append crc32 0 pre (b ∷ post), blocks_split crc32 pre b post rest)
        (get_block-at crc32 _ f key (index_entries crc32 0 pre) (entry_of (0 + start) b)
          (index_entries crc32 (0 + start + length (Block.encode crc32 b)) post)
          (record b { offset = 0 })
          (entries_before crc32 key 0 pre (IsBefore-of key pre b post ordered w))
          (range_cmp-within key (entry_of (0 + start) b) w.0 w.1)
          (next_offset crc32 f (0 + start) (length (Block.encode crc32 b)) post (
            omega (
              arith,
              ap length (blocks_split crc32 pre b post []),
              length-append (encode_blocks crc32 pre)
                  (Block.encode crc32 b ++ (encode_blocks crc32 post ++ [])),
              length-append (Block.encode crc32 b) (encode_blocks crc32 post ++ []),
              length-append (encode_blocks crc32 (pre ++ b ∷ post)) [],
            )))
          (rw zero-add (
            read_at-Reads (encode_blocks crc32 pre) after
              (async_decode-Reads crc32 crc32_u32 b rs fits))))

-- The sizes and records of a block agree, as in every block that the builder makes.
abbrev pub FitsBlock : Block → Type 0
FitsBlock b = (rs : List MemtableRecord) × Fits b rs

-- A block as it is read back: its own offset is not in the file.
abbrev pub at_zero : Block → Block
at_zero b = record b { offset = 0 }

pub ordered_range :
    (pre : List Block) (b : Block) (post : List Block)
    → AreOrdered (pre ++ b ∷ post)
    → key_lt b.last_key b.first_key ≡ false
ordered_range [] b post h = h.0
ordered_range (c ∷ pre) b post h = ordered_range pre b post h.2

module _ (crc32 : Bytes → ℕ) (crc32_u32 : (bs : Bytes) → crc32 bs < 2 ^ 32) (f : SsTableFooter)
    (blocks : List Block) (rest : Bytes)
    (hend : f.data_block_end ≡ length (encode_blocks crc32 blocks))
    (ordered : AreOrdered blocks) where
  -- The loop of `get_all_blocks`, with `pre` read and `post` to read.
  get_blocks-suffix :
      (pre : List Block) (n : ℕ) (post : List Block)
      → blocks ≡ pre ++ post
      → All FitsBlock post
      → get_blocks crc32
          (encode_blocks crc32 blocks ++ rest)
          f
          (index_entries crc32 0 blocks)
          (index_entries crc32 n post)
        ≡ ok (map at_zero post)
  unfolding get_blocks index_entries
  get_blocks-suffix pre n [] e h = refl
  get_blocks-suffix pre n (b ∷ post) e h =
      let whole : AreOrdered (pre ++ b ∷ post) = rw e at ordered in
      let ends : f.data_block_end ≡ length (encode_blocks crc32 (pre ++ b ∷ post)) = rw e at hend in
      let first : get_block crc32 (encode_blocks crc32 blocks ++ rest) f
            (index_entries crc32 0 blocks) b.first_key
          ≡ ok (at_zero b) =
        rw e (
          get_block-encode_blocks crc32 crc32_u32 f pre b post h.0.0 rest b.first_key ends whole
            h.0.1 (key_lt_irrefl b.first_key, ordered_range pre b post whole)) in
      ground (
        arith,
        first,
        get_blocks-suffix (pre ++ b ∷ []) (n + length (Block.encode crc32 b)) post
            (e ∙ sym (append_assoc pre (b ∷ []) post)) h.1,
      )

  -- Reading all blocks of a file that begins with sorted blocks gives those blocks.
  pub get_all_blocks-encode_blocks :
      All FitsBlock blocks
      → get_all_blocks crc32 (encode_blocks crc32 blocks ++ rest) f (index_entries crc32 0 blocks)
        ≡ ok (map at_zero blocks)
  unfolding get_all_blocks
  get_all_blocks-encode_blocks h = get_blocks-suffix [] 0 blocks refl h
