-- ===== src/Bloom/RoundTrip.antt =====
-- `BloomFilterWrapper::decode` after `encode`, and membership across it.
use cere_db.Base.{ℕ, ◌<◌, ◌^◌, ◌≡◌, List, [], ◌∷◌, arith, length, All, true}
use cere_db.Error.{ok}
use cere_db.Bytes.{Bytes}
use cere_db.Bytes.Reads.{
  Reads, Reads-read_be, Reads-bind, Reads-bind_last, Reads-pure, Reads-pure_eq, Reads-at_end,
}
use cere_db.Bloom.{
  FastBloom, BloomLaws, BloomFilterWrapper, encode_words, decode_words, encode, decode, with_rate,
  insert, contains, insert_all,
}

pub decode_words-Reads :
    (ws : List ℕ) → All (λ w. w < 2 ^ 64) ws → Reads (decode_words (length ws)) (encode_words ws) ws
unfolding decode_words encode_words
decode_words-Reads [] h = Reads-pure []
decode_words-Reads (w ∷ ws) h =
    Reads-bind _ (Reads-read_be 8 w (omega arith))
      (Reads-bind_last _ (decode_words-Reads ws h.1) (Reads-pure (w ∷ ws)))

module _ (fast : FastBloom) (laws : BloomLaws fast) where
  -- The wrapper's seed is the filter's.
  pub record IsSeeded (b : BloomFilterWrapper fast) : Type 0 where
    pub seeded : laws.Seeded b.filter b.seed
    pub u128 : b.seed < 2 ^ 128

  pub decode-Reads :
      (b : BloomFilterWrapper fast) → IsSeeded b → Reads (decode fast) (encode fast b) b
  unfolding encode decode
  decode-Reads b h = Reads-bind _ (Reads-read_be 16 _ (omega (arith, h.u128))) (
      Reads-bind _ (Reads-read_be 8 _ (omega (arith, laws.num_bits-lt b.filter))) (
        Reads-bind _ (Reads-read_be 4 _ (omega (arith, laws.num_hashes-lt b.filter))) (
          Reads-bind _ (Reads-read_be 8 _ (omega (arith, laws.length-lt b.filter))) (
            Reads-bind_last _ (decode_words-Reads (fast.as_slice b.filter) (laws.words-lt b.filter))
              (Reads-pure_eq
                (λ i. record b { filter = laws.from_vec-as_slice b.filter b.seed h.seeded i }))))))

  pub with_rate-IsSeeded : (n : ℕ) (rate : fast.Rate) → IsSeeded (with_rate fast n rate)
  unfolding with_rate
  with_rate-IsSeeded n rate = record {
    seeded = laws.with_false_pos-Seeded rate 0 n;
    u128 = omega arith;
  }

  insert-IsSeeded :
      (b : BloomFilterWrapper fast) (k : Bytes) → IsSeeded b → IsSeeded (insert fast b k)
  unfolding insert
  insert-IsSeeded b k h = record {
    seeded = laws.insert-Seeded b.filter k b.seed h.seeded;
    u128 = h.u128;
  }

  pub insert_all-IsSeeded :
      (b : BloomFilterWrapper fast) (ks : List Bytes) → IsSeeded b → IsSeeded (insert_all fast b ks)
  unfolding insert_all
  insert_all-IsSeeded b [] h = h
  insert_all-IsSeeded b (k ∷ ks) h =
      insert_all-IsSeeded (insert fast b k) ks (insert-IsSeeded b k h)

  contains-insert_all :
      (b : BloomFilterWrapper fast) (ks : List Bytes) (j : Bytes)
      → contains fast b j ≡ true
      → contains fast (insert_all fast b ks) j ≡ true
  unfolding contains insert insert_all
  contains-insert_all b [] j h = h
  contains-insert_all b (k ∷ ks) j h =
      contains-insert_all (insert fast b k) ks j (laws.contains-insert b.filter k j h)

  pub All-contains :
      (b : BloomFilterWrapper fast) (ks : List Bytes)
      → All (λ k. contains fast (insert_all fast b ks) k ≡ true) ks
  unfolding contains insert insert_all
  All-contains b [] = tt
  All-contains b (k ∷ ks) = (
    contains-insert_all (insert fast b k) ks k (laws.contains-insert_self b.filter k),
    All-contains (insert fast b k) ks,
  )

  -- A new filter that keys have been inserted into is read back from its encoding, and reports each
  -- of the keys after that.
  pub decode-encode_bloom :
      (n : ℕ) (rate : fast.Rate) (ks : List Bytes)
      → (b : BloomFilterWrapper fast) × (decode fast
            (encode fast (insert_all fast (with_rate fast n rate) ks))
          ≡ ok (b, []))
        × All (λ k. contains fast b k ≡ true) ks
  decode-encode_bloom n rate ks = (
    insert_all fast (with_rate fast n rate) ks,
    Reads-at_end (decode-Reads _ (insert_all-IsSeeded _ ks (with_rate-IsSeeded n rate))),
    All-contains (with_rate fast n rate) ks,
  )
