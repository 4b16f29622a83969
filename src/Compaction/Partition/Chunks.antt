-- ===== src/Compaction/Partition/Chunks.antt =====
-- The outputs of a partition, as chunks of its records.
use cere_db.Base.{
  ℕ, ◌+◌, ◌*◌, ◌<◌, ◌≤◌, ◌^◌, ◌≡◌, ◌≢◌, refl, sym, ◌⊎◌, inl, inr, true, false, Bool-cases, List, [],
  ◌∷◌, ◌++◌, arith, length, append_assoc, append-nil, All, All-append,
}
use cere_db.Outcome.{returned}
use cere_db.Bytes.{Bytes}
use cere_db.Memtable.{MemtableRecord, record_length}
use cere_db.Bloom.{FastBloom, with_rate}
use cere_db.Block.RoundTrip.{total_length}
use cere_db.Block.Builder.Sizes.{total_length-append}
use cere_db.SsTable.{SsTableCodec}
use cere_db.Compaction.Winners.{block_records}
use cere_db.Compaction.Packing.{IsAddable}
use cere_db.Compaction.Written.{Holds, build_output-Holds}
use cere_db.Compaction.Partition.{
  saturating_add, no_records, is_cut, push_last, partition_from, partition_output,
}

abbrev pub concat : List (List MemtableRecord) → List MemtableRecord
concat [] = []
concat (c ∷ cs) = c ++ concat cs

-- A table of one chunk: it is not empty, and it keeps to the target unless it is a single record.
abbrev pub IsChunk : ℕ → List MemtableRecord → Type 0
IsChunk target c = (c ≢ []) × ((total_length c ≤ target) ⊎ (length c ≡ 1))

-- One output for each chunk, in order, that holds it.
abbrev pub AllHold :
    {fast : FastBloom} → fast.Rate → List (List MemtableRecord) → List (SsTableCodec fast) → Type 0
AllHold rate [] [] = Unit {0}
AllHold rate [] (t ∷ ts) = ⊥
AllHold rate (c ∷ cs) [] = ⊥
AllHold {fast} rate (c ∷ cs) (t ∷ ts) =
    Holds (with_rate fast (length c) rate) t c × AllHold rate cs ts

AllHold-append :
    {fast : FastBloom} (rate : fast.Rate) (cs : List (List MemtableRecord))
    (ts : List (SsTableCodec fast)) (c : List MemtableRecord) (t : SsTableCodec fast)
    → AllHold rate cs ts
    → Holds (with_rate fast (length c) rate) t c
    → AllHold rate (cs ++ c ∷ []) (ts ++ t ∷ [])
AllHold-append rate [] [] c t h k = (k, tt)
AllHold-append rate [] (t' ∷ ts) c t h k = absurd h
AllHold-append rate (c' ∷ cs) [] c t h k = absurd h
AllHold-append rate (c' ∷ cs) (t' ∷ ts) c t h k = (h.0, AllHold-append rate cs ts c t h.1 k)

concat-append :
    (cs : List (List MemtableRecord)) (c : List MemtableRecord)
    → concat (cs ++ c ∷ []) ≡ concat cs ++ c
concat-append [] c = append-nil c
concat-append (d ∷ cs) c = rw (concat-append cs c) (sym (append_assoc d (concat cs) c))

-- The state of the loop: the chunks that have been built, and the records of the next one.
record IsCut {fast : FastBloom} (rate : fast.Rate) (target : ℕ) (outputs : List (SsTableCodec fast))
    (records : List MemtableRecord) (bytes : ℕ) (cs : List (List MemtableRecord)) : Type 0 where
  built : AllHold rate cs outputs
  chunks : All (IsChunk target) cs
  bytes_eq : bytes ≡ total_length records
  next : (total_length records ≤ target) ⊎ (length records ≤ 1)

-- The outputs of a partition of `rs`: a chunk of records for each, which together are `rs`.
pub record Partitioned {fast : FastBloom} (rate : fast.Rate) (target : ℕ) (rs : List MemtableRecord)
    (outputs : List (SsTableCodec fast)) : Type 0 where
  pub cs : List (List MemtableRecord)
  pub built : AllHold rate cs outputs
  pub chunks : All (IsChunk target) cs
  pub content : concat cs ≡ rs

cons-ne : (r : MemtableRecord) (rs : List MemtableRecord) → r ∷ rs ≢ []
cons-ne r rs e = ground arith

snoc-ne : (rs : List MemtableRecord) (r : MemtableRecord) → rs ++ r ∷ [] ≢ []
snoc-ne [] r e = ground arith
snoc-ne (s ∷ rs) r e = ground arith

IsChunk-of_length :
    (target : ℕ) (c : List MemtableRecord)
    → c ≢ []
    → (total_length c ≤ target) ⊎ (length c ≤ 1)
    → IsChunk target c
IsChunk-of_length target [] ne h = absurd (ne refl)
IsChunk-of_length target (r ∷ rs) ne h = (ne, ground arith)

module _ (crc32 : Bytes → ℕ) (fast : FastBloom) (rate : fast.Rate) (target : ℕ) where
  push_last-Partitioned :
      (outputs : List (SsTableCodec fast)) (records : List MemtableRecord) (bytes : ℕ)
      (cs : List (List MemtableRecord))
      → IsCut rate target outputs records bytes cs
      → All IsAddable records
      → 5 * total_length records < 2 ^ 64
      → (ts : List (SsTableCodec fast)) × (push_last crc32 fast rate target outputs records
          ≡ returned ts)
        × Partitioned rate target (concat cs ++ records) ts
  unfolding push_last
  push_last-Partitioned outputs [] bytes cs h a small = (
    outputs,
    refl,
    record { cs = cs; built = h.built; chunks = h.chunks; content = sym (append-nil (concat cs)) },
  )
  push_last-Partitioned outputs (r ∷ rs) bytes cs h a small =
      let (t, e, q) = build_output-Holds crc32 fast rate (r ∷ rs) a small in
      (
        outputs ++ t ∷ [],
        rw e refl,
        record {
          cs = cs ++ (r ∷ rs) ∷ [];
          built = AllHold-append rate cs outputs (r ∷ rs) t h.built q;
          chunks =
              All-append _ cs _ h.chunks
                (IsChunk-of_length target (r ∷ rs) (cons-ne r rs) h.next, tt);
          content = concat-append cs (r ∷ rs);
        },
      )

  -- One record more in the chunk.
  IsCut-more :
      (outputs : List (SsTableCodec fast)) (records : List MemtableRecord) (bytes : ℕ)
      (cs : List (List MemtableRecord)) (r : MemtableRecord)
      → IsCut rate target outputs records bytes cs
      → is_cut target records bytes r ≡ false
      → total_length records + record_length r r.key < 2 ^ 62
      → IsCut rate target outputs
          (records ++ r ∷ [])
          (saturating_add bytes (record_length r r.key))
          cs
  unfolding saturating_add total_length is_cut no_records
  IsCut-more outputs [] bytes cs r h e small = record {
    built = h.built;
    chunks = h.chunks;
    bytes_eq = ground (arith, h.bytes_eq);
    next = inr (omega arith);
  }
  IsCut-more outputs (s ∷ records) bytes cs r h e small = record {
    built = h.built;
    chunks = h.chunks;
    bytes_eq = ground (arith, h.bytes_eq, total_length-append (s ∷ records) (r ∷ []));
    next = inl (ground (arith, h.bytes_eq, total_length-append (s ∷ records) (r ∷ [])));
  }

  -- The chunk is built, and the record begins the next one.
  IsCut-next :
      (outputs : List (SsTableCodec fast)) (records : List MemtableRecord) (bytes : ℕ)
      (cs : List (List MemtableRecord)) (r : MemtableRecord) (t : SsTableCodec fast)
      → IsCut rate target outputs records bytes cs
      → records ≢ []
      → record_length r r.key < 2 ^ 62
      → Holds (with_rate fast (length records) rate) t records
      → IsCut rate target
          (outputs ++ t ∷ [])
          (r ∷ [])
          (saturating_add 0 (record_length r r.key))
          (cs ++ records ∷ [])
  unfolding saturating_add total_length
  IsCut-next outputs records bytes cs r t h ne small q = record {
    built = AllHold-append rate cs outputs records t h.built q;
    chunks = All-append _ cs _ h.chunks (IsChunk-of_length target records ne h.next, tt);
    bytes_eq = ground arith;
    next = inr (omega arith);
  }

  is_cut-ne :
      (records : List MemtableRecord) (bytes : ℕ) (r : MemtableRecord)
      → is_cut target records bytes r ≡ true
      → records ≢ []
  unfolding is_cut no_records
  is_cut-ne records bytes r e q = ground arith

  next_content :
      (cs : List (List MemtableRecord)) (records : List MemtableRecord) (r : MemtableRecord)
      (rs : List MemtableRecord)
      → (concat (cs ++ records ∷ []) ++ r ∷ []) ++ rs ≡ (concat cs ++ records) ++ r ∷ rs
  next_content cs records r rs =
      rw (concat-append cs records) (append_assoc (concat cs ++ records) (r ∷ []) rs)

  more_content :
      (cs : List (List MemtableRecord)) (records : List MemtableRecord) (r : MemtableRecord)
      (rs : List MemtableRecord)
      → (concat cs ++ (records ++ r ∷ [])) ++ rs ≡ (concat cs ++ records) ++ r ∷ rs
  more_content cs records r rs = simp append_assoc

  partition_from-Partitioned :
      (outputs : List (SsTableCodec fast)) (records : List MemtableRecord) (bytes : ℕ)
      (cs : List (List MemtableRecord)) (rs : List MemtableRecord)
      → IsCut rate target outputs records bytes cs
      → All IsAddable records
      → All IsAddable rs
      → 5 * (total_length records + total_length rs) < 2 ^ 64
      → (ts : List (SsTableCodec fast)) × (partition_from crc32 fast rate target outputs records
            bytes rs
          ≡ returned ts)
        × Partitioned rate target ((concat cs ++ records) ++ rs) ts
  unfolding partition_from total_length
  partition_from-Partitioned outputs records bytes cs [] h a b small =
      rw append-nil (push_last-Partitioned outputs records bytes cs h a (omega arith))
  partition_from-Partitioned outputs records bytes cs (r ∷ rs) h a b small =
      elim (Bool-cases (is_cut target records bytes r)) [
        | inl e ↦
            let (t, e', q) = build_output-Holds crc32 fast rate records a (omega arith) in
            let h' =
              IsCut-next outputs records bytes cs r t h (is_cut-ne records bytes r e)
                (omega (arith, small)) q in
            let (ts, e'', p) =
              partition_from-Partitioned (outputs ++ t ∷ []) (r ∷ []) _ (cs ++ records ∷ []) rs h'
                (b.0, tt) b.1 (omega (arith, small)) in
            (ts, rw (e, partition_from, e') e'', rw (next_content cs records r rs) at p)
        | inr e ↦
            let (ts, e', p) =
              partition_from-Partitioned outputs (records ++ r ∷ []) _ cs rs
                (IsCut-more outputs records bytes cs r h e (omega (arith, small)))
                (All-append _ records _ a (b.0, tt)) b.1
                (omega (arith, small, total_length-append records (r ∷ []))) in
            (ts, rw (e, partition_from) e', rw (more_content cs records r rs) at p)
      ]

  -- For a merged table whose records have keys and are small enough together, the code returns
  -- outputs that hold the records in order, cut into chunks that are not empty; each output holds its
  -- chunk, and keeps to the target size unless the chunk is a single record.
  pub partition_output-Partitioned :
      (merged : SsTableCodec fast)
      → All IsAddable (block_records merged.blocks)
      → 5 * total_length (block_records merged.blocks) < 2 ^ 64
      → (ts : List (SsTableCodec fast)) × (partition_output crc32 fast rate target merged
          ≡ returned ts)
        × Partitioned rate target (block_records merged.blocks) ts
  unfolding partition_output total_length
  partition_output-Partitioned merged h small =
      partition_from-Partitioned [] [] 0 [] (block_records merged.blocks)
        (record { built = tt; chunks = tt; bytes_eq = refl; next = inl (omega arith) }) tt h
        (omega (arith, small))
