-- ===== src/Compaction/Written.antt =====
-- What a compaction writes: the merged versions, less the tombstones that may be dropped.
use cere_db.Base.{
  ℕ, suc, ◌*◌, ◌<◌, ◌^◌, ◌≡◌, ◌≢◌, refl, sym, if◌then◌else◌, false, Option, none, some, List, [],
  ◌∷◌, ◌++◌, arith, length, append_assoc, append-nil, All, All-append, Bool-cases, inl, inr,
}
use cere_db.Error.{ok}
use cere_db.Outcome.{returned, ◌>>=◌, bind_assoc}
use cere_db.Bytes.{Bytes}
use cere_db.Ord.{bytes_ord}
use cere_db.TreeMap
use cere_db.Memtable.{MemtableRecord}
use cere_db.Bloom.{FastBloom, BloomFilterWrapper, with_rate, insert_all}
use cere_db.Block.RoundTrip.{total_length}
use cere_db.Block.Builder.{BlockBuilder, build, build_with, new, is_empty, finished}
use cere_db.Block.Builder.Sizes.{total_length-append, new-IsCounted}
use cere_db.Block.Builder.Keys.{keys, empty, spanned, Spans, new-IsKeyed}
use cere_db.SsTable.{SsTableCodec}
use cere_db.Compaction.{
  Output, Merged, KeyRange, flush_winner, flush_all, finish, start, build_output, is_reclaimed,
  write_winners, finish_written, write_merged, merge_tables, merge_files_with_reclamation,
}
use cere_db.Compaction.Winners.{block_records}
use cere_db.Compaction.Packing.{
  IsSound, IsAddable, IsPacked, finished-IsSound, records_of-finished, block_records-append,
  flush_winner-IsPacked,
}

-- A finished output that holds the records `rs`, in order, in sound blocks, and whose filter has
-- been given their keys.
pub record Holds {fast : FastBloom} (bloom0 : BloomFilterWrapper fast) (t : SsTableCodec fast)
    (rs : List MemtableRecord) : Type 0 where
  pub content : block_records t.blocks ≡ rs
  pub sound : All IsSound t.blocks
  pub filter : t.bloom ≡ insert_all fast bloom0 (keys rs)

-- `build` answers for every builder that no empty key has been put into.
build-empty : (b : BlockBuilder) → b.records ≡ [] → build b ≡ returned none
unfolding build is_empty
build-empty b e = rw e refl

build-spanned :
    (b : BlockBuilder) (f l : Bytes)
    → b.records ≢ []
    → b.first_key ≡ some f
    → b.last_key ≡ some l
    → build b ≡ returned (some (finished b, []))
unfolding build is_empty build_with
build-spanned b f l ne ef el = rw (ef, el) (ground (arith, ne))

start-IsPacked :
    (crc32 : Bytes → ℕ) (fast : FastBloom) (bloom : BloomFilterWrapper fast)
    → IsPacked bloom [] (start crc32 fast bloom)
unfolding new block_records insert_all
start-IsPacked crc32 fast bloom = record {
  counted = new-IsCounted 0;
  keyed = new-IsKeyed 0;
  blocks = tt;
  content = refl;
  filter = refl;
  offset = omega arith;
}

Spans-ne : (f l : Bytes) (rs : List MemtableRecord) → Spans f l rs → rs ≢ []
Spans-ne f l [] h e = absurd h.0
Spans-ne f l (r ∷ rs) h e = ground arith

-- The winners that are not reclaimed.
abbrev pub kept : Option (List KeyRange) → List MemtableRecord → List MemtableRecord
kept protected [] = []
kept protected (w ∷ ws) =
    let rest = kept protected ws in if is_reclaimed protected w then rest else w ∷ rest

module _ (crc32 : Bytes → ℕ) (fast : FastBloom) where
  flush_all-IsPacked :
      (bloom0 : BloomFilterWrapper fast) (done : List MemtableRecord) (o : Output fast)
      (rs : List MemtableRecord)
      → IsPacked bloom0 done o
      → All IsAddable rs
      → 5 * total_length (done ++ rs) < 2 ^ 64
      → (o' : Output fast) × (flush_all crc32 fast o rs ≡ returned o')
        × IsPacked bloom0 (done ++ rs) o'
  unfolding flush_all
  flush_all-IsPacked bloom0 done o [] p h small = (o, refl, rw (append-nil done) p)
  flush_all-IsPacked bloom0 done o (r ∷ rs) p h small =
      let same : (done ++ r ∷ []) ++ rs ≡ done ++ r ∷ rs = append_assoc done (r ∷ []) rs in
      let small' : 5 * total_length ((done ++ r ∷ []) ++ rs) < 2 ^ 64 = rw same small in
      let (o', e, p') =
        flush_winner-IsPacked crc32 fast bloom0 done o r p h.0
          (omega (arith, small', total_length-append (done ++ r ∷ []) rs)) in
      let (o'', e', p'') = flush_all-IsPacked bloom0 (done ++ r ∷ []) o' rs p' h.1 small' in
      (o'', rw (e, e') refl, rw (sym same) p'')

  finish-Holds :
      (bloom0 : BloomFilterWrapper fast) (done : List MemtableRecord) (o : Output fast)
      → IsPacked bloom0 done o
      → (t : SsTableCodec fast) × (finish crc32 fast o ≡ returned t) × Holds bloom0 t done
  unfolding finish
  finish-Holds bloom0 done o p = elim p.keyed [
    | empty e f l ↦ (
      record { blocks = o.blocks; index = []; bloom = o.bloom },
      rw (build-empty o.builder e) refl,
      record { content = rw (e, append-nil) at p.content; sound = p.blocks; filter = p.filter },
    )
    | spanned f l ef el h ↦
        let ne : o.builder.records ≢ [] = Spans-ne f l o.builder.records h in
        (
          record { blocks = o.blocks ++ finished o.builder ∷ []; index = []; bloom = o.bloom },
          rw (build-spanned o.builder f l ne ef el) refl,
          record {
            content = rw (block_records-append, records_of-finished o.builder) p.content;
            sound =
                All-append _ o.blocks _ p.blocks
                  (finished-IsSound o.builder p.counted p.keyed ne, tt);
            filter = p.filter;
          },
        )
  ]

  -- A table that is built of records with keys holds exactly these, in their order, in blocks whose
  -- sizes, counts and key bounds are right; the code answers for every such input.
  pub build_output-Holds :
      (rate : fast.Rate) (rs : List MemtableRecord)
      → All IsAddable rs
      → 5 * total_length rs < 2 ^ 64
      → (t : SsTableCodec fast) × (build_output crc32 fast rate rs ≡ returned t)
        × Holds (with_rate fast (length rs) rate) t rs
  unfolding build_output
  build_output-Holds rate rs h small =
      let bloom : BloomFilterWrapper fast = with_rate fast (length rs) rate in
      let (o, e, p) =
        flush_all-IsPacked bloom [] (start crc32 fast bloom) rs (start-IsPacked crc32 fast bloom) h
          small in
      let (t, e', q) = finish-Holds bloom rs o p in (t, rw (e, e') refl, q)

  -- The winners that are written: those that are not reclaimed.
  write_winners-flush_all :
      (protected : Option (List KeyRange)) (t : ℕ) (o : Output fast) (ws : List MemtableRecord)
      → write_winners crc32 fast (λ _. false) protected t o ws
        ≡ (flush_all crc32 fast o (kept protected ws) >>= λ o'. returned (ok o'))
  unfolding write_winners flush_all
  write_winners-flush_all protected t o [] = refl
  write_winners-flush_all protected t o (w ∷ ws) = elim (Bool-cases (is_reclaimed protected w)) [
    | inl e ↦ rw (e, write_winners) (write_winners-flush_all protected (suc t) o ws)
    | inr e ↦
        rw (e, write_winners, bind_assoc (flush_winner crc32 fast o w))
          (λ i.
            flush_winner crc32 fast o w >>= λ o'. write_winners-flush_all protected (suc t) o' ws i)
  ]

  pub merge_files-Holds :
      (protected : Option (List KeyRange)) (rate : fast.Rate) (m : Merged)
      (sstables : List (SsTableCodec fast))
      → merge_tables (λ _. false) 0 [] sstables ≡ ok m
      → All IsAddable (kept protected (TreeMap.values m))
      → 5 * total_length (kept protected (TreeMap.values m)) < 2 ^ 64
      → (t : SsTableCodec fast) × (merge_files_with_reclamation crc32 fast
            (λ _. false)
            protected
            rate
            sstables
          ≡ returned (ok t))
        × Holds (with_rate fast 1000000 rate) t (kept protected (TreeMap.values m))
  unfolding merge_files_with_reclamation write_merged finish_written
  merge_files-Holds protected rate m sstables em h small =
      let bloom : BloomFilterWrapper fast = with_rate fast 1000000 rate in
      let ws : List MemtableRecord = kept protected (TreeMap.values m) in
      let (o, e, p) =
        flush_all-IsPacked bloom [] (start crc32 fast bloom) ws (start-IsPacked crc32 fast bloom) h
          small in
      let (t, e', q) = finish-Holds bloom ws o p in
      (
        t,
        rw
            (
              em,
              write_winners-flush_all protected (length sstables) (start crc32 fast bloom)
                  (TreeMap.values m),
              e,
              e',
            )
            refl,
        q,
      )
