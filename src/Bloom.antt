-- ===== src/Bloom.antt =====
-- storage/bloom.rs: the wrapper of fastbloom's filter. `FastBloom` is what the code uses of that
-- crate: its filters, and what its documentation promises.
pub mod RoundTrip
use cere_db.Base.{ℕ, zero, suc, ◌<◌, ◌^◌, ◌≡◌, Bool, true, List, [], ◌∷◌, ◌++◌, length, All}
use cere_db.Bytes.{Bytes, to_be_bytes}
use cere_db.Bytes.Reader.{Reader, pure, ◌>>=◌, read_be}

pub record FastBloom : Type 1 where
  pub Filter : Type 0
  -- a false positive rate, an `f64`
  pub Rate : Type 0
  -- `with_false_pos(rate).seed(&seed).expected_items(n)`
  pub with_false_pos : Rate → ℕ → ℕ → Filter
  -- `with_num_bits(num_bits).seed(&seed).expected_items(n)`
  pub with_num_bits : ℕ → ℕ → ℕ → Filter
  -- `from_vec(words).seed(&seed).hashes(n)`
  pub from_vec : List ℕ → ℕ → ℕ → Filter
  pub insert : Filter → Bytes → Filter
  pub clear : Filter → Filter
  pub contains : Filter → Bytes → Bool
  pub num_bits : Filter → ℕ
  pub num_hashes : Filter → ℕ
  pub as_slice : Filter → List ℕ

-- What the crate documents of a filter that was built with a seed.
pub record BloomLaws (fast : FastBloom) : Type 1 where
  pub Seeded : fast.Filter → ℕ → Type 0
  pub with_false_pos-Seeded :
      (r : fast.Rate) (seed n : ℕ) → Seeded (fast.with_false_pos r seed n) seed
  pub with_num_bits-Seeded : (bits seed n : ℕ) → Seeded (fast.with_num_bits bits seed n) seed
  pub insert-Seeded :
      (f : fast.Filter) (k : Bytes) (seed : ℕ) → Seeded f seed → Seeded (fast.insert f k) seed
  -- no false negatives
  pub contains-insert_self :
      (f : fast.Filter) (k : Bytes) → fast.contains (fast.insert f k) k ≡ true
  pub contains-insert :
      (f : fast.Filter) (k j : Bytes)
      → fast.contains f j ≡ true
      → fast.contains (fast.insert f k) j ≡ true
  -- the words, the seed and the number of hashes make the filter
  pub from_vec-as_slice :
      (f : fast.Filter) (seed : ℕ)
      → Seeded f seed
      → fast.from_vec (fast.as_slice f) seed (fast.num_hashes f) ≡ f
  -- the integer types
  pub num_bits-lt : (f : fast.Filter) → fast.num_bits f < 2 ^ 64
  pub num_hashes-lt : (f : fast.Filter) → fast.num_hashes f < 2 ^ 32
  pub words-lt : (f : fast.Filter) → All (λ w. w < 2 ^ 64) (fast.as_slice f)
  pub length-lt : (f : fast.Filter) → length (fast.as_slice f) < 2 ^ 64

pub record BloomFilterWrapper (fast : FastBloom) : Type 0 where
  pub filter : fast.Filter
  pub seed : ℕ

-- `DEFAULT_BLOOM_SEED`
abbrev pub default_bloom_seed : ℕ
default_bloom_seed = 0

-- `for &word in bitmap_slice { buf.extend_from_slice(&word.to_be_bytes()) }`
unfoldable pub encode_words : List ℕ → Bytes
encode_words [] = []
encode_words (w ∷ ws) = to_be_bytes 8 w ++ encode_words ws

-- `for _ in 0..num_words`
unfoldable pub decode_words : ℕ → Reader (List ℕ)
decode_words zero = pure []
decode_words (suc n) = do w ← read_be 8; ws ← decode_words n; pure (w ∷ ws)

module _ (fast : FastBloom) where
  unfoldable pub new : ℕ → ℕ → BloomFilterWrapper fast
  new num_bits expected_items = record {
    filter = fast.with_num_bits num_bits default_bloom_seed expected_items;
    seed = default_bloom_seed;
  }

  unfoldable pub with_rate : ℕ → fast.Rate → BloomFilterWrapper fast
  with_rate expected_items rate = record {
    filter = fast.with_false_pos rate default_bloom_seed expected_items;
    seed = default_bloom_seed;
  }

  unfoldable pub insert : BloomFilterWrapper fast → Bytes → BloomFilterWrapper fast
  insert b key = record b { filter = fast.insert b.filter key }

  -- `for key in keys { bloom.insert(key) }`
  unfoldable pub insert_all : BloomFilterWrapper fast → List Bytes → BloomFilterWrapper fast
  insert_all b [] = b
  insert_all b (k ∷ ks) = insert_all (insert b k) ks

  unfoldable pub contains : BloomFilterWrapper fast → Bytes → Bool
  contains b key = fast.contains b.filter key

  unfoldable pub clear : BloomFilterWrapper fast → BloomFilterWrapper fast
  clear b = record b { filter = fast.clear b.filter }

  unfoldable pub encode : BloomFilterWrapper fast → Bytes
  encode b =
      to_be_bytes 16 b.seed
      ++ (to_be_bytes 8 (fast.num_bits b.filter)
          ++ (to_be_bytes 4 (fast.num_hashes b.filter)
              ++ (to_be_bytes 8 (length (fast.as_slice b.filter))
                  ++ encode_words (fast.as_slice b.filter))))

  -- `async_decode` makes the same reads in the same order.
  unfoldable pub decode : Reader (BloomFilterWrapper fast)
  decode = do
    seed ← read_be 16
    num_bits ← read_be 8
    num_hashes ← read_be 4
    num_words ← read_be 8
    bitmap_words ← decode_words num_words
    pure (record { filter = fast.from_vec bitmap_words seed num_hashes; seed = seed })
