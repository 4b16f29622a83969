-- ===== src/Block/Builder.antt =====
-- storage/writemanager/block.rs, `BlockBuilder`: records are added until a block is full.
pub mod Keys
pub mod Sizes
use cere_db.Base.{
  ℕ, ◌+◌, ◌%◌, ◌^◌, Bool, not, Option, none, some, List, [], ◌∷◌, ◌++◌, length, ltb, ◌&&◌,
  if◌then◌else◌,
}
use cere_db.Outcome.{Outcome, returned, panicked}
use cere_db.Bytes.{Bytes}
use cere_db.Key.{key_lt}
use cere_db.Memtable.{MemtableRecord, record_length}
use cere_db.Block.{Block, encode}

-- storage/constant.rs
abbrev pub sstable_block_size : ℕ
sstable_block_size = 4096

pub data BlockBuilderState : Type 0 where
  enough_space : BlockBuilderState
  full : Block → Bytes → BlockBuilderState

pub record BlockBuilder : Type 0 where
  pub records : List MemtableRecord
  pub data_size : ℕ
  pub first_key : Option Bytes
  pub last_key : Option Bytes
  pub record_count : ℕ
  pub block_offset : ℕ

unfoldable pub new : ℕ → BlockBuilder
new block_offset = record {
  records = [];
  data_size = 0;
  first_key = none;
  last_key = none;
  record_count = 0;
  block_offset = block_offset;
}

unfoldable pub is_empty : BlockBuilder → Bool
is_empty b = elim b.records [ [] ↦ Bool.true | _ ∷ _ ↦ Bool.false ]

-- `unwrap_or_default`, and `unwrap_or(&vec![])`.
abbrev pub or_empty : Option Bytes → Bytes
or_empty none = []
or_empty (some k) = k

-- `first_key` becomes the key if there is none, and then if the key is smaller.
unfoldable pub lower_first : Option Bytes → Bytes → Option Bytes
lower_first none key = some key
lower_first (some first) key = if key_lt key first then some key else some first

-- `last_key` becomes the key if the key is greater than it, or than the empty key if there is none.
unfoldable pub raise_last : Option Bytes → Bytes → Option Bytes
raise_last last key = if key_lt (or_empty last) key then some key else last

-- The block that the records so far make.
unfoldable pub finished : BlockBuilder → Block
finished b = record {
  offset = b.block_offset;
  first_key = or_empty b.first_key;
  last_key = or_empty b.last_key;
  record_count = b.record_count;
  data_size = b.data_size % 2 ^ 32;
  records = some b.records;
}

-- The branch that stores the record. In a release build the counters wrap.
unfoldable pub store : BlockBuilder → Bytes → MemtableRecord → BlockBuilder
store b key r = record {
  records = b.records ++ (record r { key = key }) ∷ [];
  data_size = (b.data_size + record_length r key) % 2 ^ 64;
  first_key = lower_first b.first_key key;
  last_key = raise_last b.last_key key;
  record_count = (b.record_count + 1) % 2 ^ 32;
  block_offset = b.block_offset;
}

abbrev pub is_full : BlockBuilder → Bytes → MemtableRecord → Bool
is_full b key r = not (is_empty b) && ltb sstable_block_size (b.data_size + record_length r key)

-- `build`, with the panics of its two `unwrap`s; a block that it returns has no bytes beside it.
unfoldable pub build_with : Option Bytes → Option Bytes → Block → Outcome (Option (Block × Bytes))
build_with (some first) (some last) block = returned (some (block, []))
build_with _ _ block = panicked

unfoldable pub build : BlockBuilder → Outcome (Option (Block × Bytes))
unfolding is_empty build_with
build b = if is_empty b then returned none else build_with b.first_key b.last_key (finished b)

module _ (crc32 : Bytes → ℕ) where
  -- The branch that hands the full block out and starts the next one, without the record.
  unfoldable pub take_full : BlockBuilder → Outcome (BlockBuilder × BlockBuilderState)
  take_full b =
      let block = finished b in
      let block_data = encode crc32 block in
      if ltb (b.block_offset + length block_data) (2 ^ 64)
      then returned (new (b.block_offset + length block_data), full block block_data)
      else panicked

  unfoldable pub add_record :
      BlockBuilder → Bytes → MemtableRecord → Outcome (BlockBuilder × BlockBuilderState)
  unfolding is_empty
  add_record b key r =
      if is_full b key r then take_full b else returned (store b key r, enough_space)
