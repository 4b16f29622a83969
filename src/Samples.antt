-- ===== src/Samples.antt =====
-- Concrete inputs for the examples: a checksum, a Bloom filter with one bit, and some versions.
pub mod Engines
pub mod Logs
pub mod Reads
pub mod Sessions
pub mod Storage
pub mod Tables
pub mod Writes
use cere_db.Base.{
  ℕ, zero, suc, ◌+◌, ◌%◌, ◌^◌, ◌<◌, ◌≡◌, refl, Bool, true, false, not, List, [], ◌∷◌, arith, All,
  ◌==◌, length, sym,
}
use cere_db.Bytes.{Bytes}
use cere_db.Record.{put, delete}
use cere_db.Memtable.{MemtableRecord}
use cere_db.Bloom.{FastBloom, BloomLaws}

-- The sum of the bytes, in 32 bits.
abbrev pub sum_of : Bytes → ℕ
sum_of [] = 0
sum_of (b ∷ bs) = b + sum_of bs

abbrev pub sum_crc : Bytes → ℕ
sum_crc bs = sum_of bs % 2 ^ 32

pub sum_crc-lt : (bs : Bytes) → sum_crc bs < 2 ^ 32
sum_crc-lt bs = omega arith

-- A filter of one bit, which any key sets, and its seed.
pub record OneBit : Type 0 where
  pub bit : Bool
  pub seed : ℕ

abbrev words_of : Bool → List ℕ
words_of true = 1 ∷ []
words_of false = 0 ∷ []

abbrev bit_of : List ℕ → Bool
bit_of [] = Bool.false
bit_of (w ∷ ws) = w == 1

abbrev pub one_bit : FastBloom
one_bit = record {
  Filter = OneBit;
  Rate = ℕ;
  with_false_pos = λ rate seed n. record { bit = Bool.false; seed = seed };
  with_num_bits = λ bits seed n. record { bit = Bool.false; seed = seed };
  from_vec = λ ws seed n. record { bit = bit_of ws; seed = seed };
  insert = λ f k. record f { bit = Bool.true };
  clear = λ f. record f { bit = Bool.false };
  contains = λ f k. f.bit;
  num_bits = λ f. 64;
  num_hashes = λ f. 1;
  as_slice = λ f. words_of f.bit;
}

pub bit_of-words_of : (b : Bool) → bit_of (words_of b) ≡ b
bit_of-words_of true = ground arith
bit_of-words_of false = ground arith

pub words_of-lt : (b : Bool) → All (λ w. w < 2 ^ 64) (words_of b)
words_of-lt true = (omega arith, tt)
words_of-lt false = (omega arith, tt)

pub length-words_of : (b : Bool) → length (words_of b) < 2 ^ 64
length-words_of true = omega arith
length-words_of false = omega arith

abbrev pub one_bit_laws : BloomLaws one_bit
one_bit_laws = record {
  Seeded = λ f seed. f.seed ≡ seed;
  with_false_pos-Seeded = λ r seed n. refl;
  with_num_bits-Seeded = λ bits seed n. refl;
  insert-Seeded = λ f k seed h. h;
  contains-insert_self = λ f k. refl;
  contains-insert = λ f k j h. refl;
  from_vec-as_slice = λ f seed h i. record { bit = bit_of-words_of f.bit i; seed = sym h i };
  num_bits-lt = λ f. omega arith;
  num_hashes-lt = λ f. omega arith;
  words-lt = λ f. words_of-lt f.bit;
  length-lt = λ f. length-words_of f.bit;
}

-- Three versions: two of the key `a`, and a tombstone of the key `b`.
abbrev pub old_a : MemtableRecord
old_a = record { record_type = put; lsn = 1; key = 97 ∷ []; value = 1 ∷ [] }

abbrev pub new_a : MemtableRecord
new_a = record { record_type = put; lsn = 3; key = 97 ∷ []; value = 2 ∷ 3 ∷ [] }

abbrev pub no_b : MemtableRecord
no_b = record { record_type = delete; lsn = 2; key = 98 ∷ []; value = [] }
