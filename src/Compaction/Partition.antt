-- ===== src/Compaction/Partition.antt =====
-- storage/compactionmanager/compaction.rs, `partition_output`: a merged table is cut into tables of
-- about the target size.
pub mod Chunks
use cere_db.Base.{
  ℕ, ◌+◌, ◌-◌, ◌*◌, ◌<◌, ◌≤◌, ◌^◌, ◌≡◌, ◌≢◌, refl, sym, ap, ◌∙◌, ◌⊎◌, inl, inr, Bool, true, false,
  not, Bool-cases, List, [], ◌∷◌, ◌++◌, arith, length, length-append, append_assoc, append-nil, All,
  All-append, min, ltb, ◌&&◌, if◌then◌else◌,
}
use cere_db.Outcome.{Outcome, returned, panicked, ◌>>=◌}
use cere_db.Bytes.{Bytes}
use cere_db.Memtable.{MemtableRecord, record_length}
use cere_db.Bloom.{FastBloom, with_rate}
use cere_db.Block.RoundTrip.{total_length}
use cere_db.Block.Builder.Sizes.{total_length-append}
use cere_db.SsTable.{SsTableCodec}
use cere_db.Compaction.{build_output}
use cere_db.Compaction.Winners.{block_records}
use cere_db.Compaction.Packing.{IsAddable}
use cere_db.Compaction.Written.{Holds, build_output-Holds}

-- `u64::saturating_add`
unfoldable pub saturating_add : ℕ → ℕ → ℕ
saturating_add a b = min (a + b) (2 ^ 64 - 1)

unfoldable pub no_records : List MemtableRecord → Bool
no_records [] = Bool.true
no_records (r ∷ rs) = Bool.false

-- Whether the record starts a new table.
unfoldable pub is_cut : ℕ → List MemtableRecord → ℕ → MemtableRecord → Bool
unfolding no_records saturating_add
is_cut target_sstable_bytes records bytes r =
    not (no_records records)
    && ltb target_sstable_bytes (saturating_add bytes (record_length r r.key))

module _ (crc32 : Bytes → ℕ) (fast : FastBloom) (rate : fast.Rate) (target_sstable_bytes : ℕ) where
  -- The records of the last table.
  unfoldable pub push_last :
      List (SsTableCodec fast) → List MemtableRecord → Outcome (List (SsTableCodec fast))
  push_last outputs [] = returned outputs
  push_last outputs (r ∷ rs) =
      build_output crc32 fast rate (r ∷ rs) >>= λ t. returned (outputs ++ t ∷ [])

  -- The loop, with the variables `outputs`, `records` and `bytes`.
  unfoldable pub partition_from :
      List (SsTableCodec fast)
      → List MemtableRecord
      → ℕ
      → List MemtableRecord
      → Outcome (List (SsTableCodec fast))
  unfolding push_last
  partition_from outputs records bytes [] = push_last outputs records
  partition_from outputs records bytes (r ∷ rs) =
      elim (is_cut target_sstable_bytes records bytes r) [
        | true ↦ build_output crc32 fast rate records >>= λ t.
            partition_from (outputs ++ t ∷ []) (r ∷ []) (saturating_add 0 (record_length r r.key))
              rs
        | false ↦
            partition_from outputs (records ++ r ∷ [])
              (saturating_add bytes (record_length r r.key)) rs
      ]

  unfoldable pub partition_output : SsTableCodec fast → Outcome (List (SsTableCodec fast))
  partition_output merged = partition_from [] [] 0 (block_records merged.blocks)
