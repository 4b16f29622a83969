-- ===== src/Lib.antt =====
-- CereDB: a log-structured key-value store. Writes go to a log and a memtable; full memtables become
-- table files (SSTables); compactions merge tables; the manifest says which tables are live.
--
-- The files, and the code that each is about:
--   Base, Base/Tests, Base/Lists     names, lists and tests that the other files share
--   Error, Outcome                   src/error.rs; results, and calls that may panic
--   Bytes, Bytes/*                   big- and little-endian integers, and readers over a buffer
--                                    (std::io::Read, byteorder)
--   Checksum                         src/storage/checksum.rs
--   Key, Ord, TreeMap                the order of keys, and std's BTreeMap as a sorted list
--   Record, Memtable                 src/storage/record.rs: Record and MemtableRecord
--   Bloom                            src/storage/bloom.rs
--   Index                            src/storage/index.rs: the entries of the two indexes
--   Footer                           src/storage/footer.rs
--   Block, Block/Builder             src/storage/writemanager/block.rs: Block and BlockBuilder
--   SsTable                          src/storage/sstable_codec.rs
--   Compaction, Compaction/Partition src/storage/compactionmanager/compaction.rs: the merge, and the
--                                    cut into output files
--   Utf8                             std's String::from_utf8
--   Manifest, Manifest/Encode,       src/storage/manifest_codec.rs: the state, the entries, the replay,
--   Manifest/Decode, Replay, Manager the operations and the snapshot; the other files under Manifest
--                                    hold the proofs
--   Read, Read/Scan                  src/storage/readmanager/read.rs: lookups and scans; the other files
--                                    under Read hold the proofs
--   Admission, Admission/*           src/storage/writemanager/admission.rs: the queue of writes
--   LogStore                         src/storage/recovermanager/log_store.rs: the commands of the log
--   Wal, Wal/Codec, Header, Scan,    src/storage/recovermanager/wal.rs: the types, the frames, the header
--   Recovery, Plan, Segments,        of a segment, the scan, `Analysis`, the plan of a group, the segments
--   Manager, Owner                   and their writer, and the calls of the engine
--   Wal/Session                      a client of the log, with the checkpoints of
--                                    src/storage/writemanager/write.rs; the other files under Wal hold
--                                    the proofs
--   Writes, Writes/*                 src/storage/writemanager/write.rs: the test of a batch, and the runner
--   Engine, Engine/*                 src/storage/kv2.rs: the opening of the engine on its log
--   Samples, Samples/*               the theorems at concrete inputs
--
-- A file is the list of its bytes. A function that reads is a reader: it takes the bytes in front of
-- it and returns a value and the rest, or an error. The synchronous and the asynchronous decoders make
-- the same reads, and are one definition. Integers are natural numbers; a cast or a wrapping addition
-- is a remainder; a builder's counters wrap, as in a release build. A call that may panic returns an
-- `Outcome`. Loops run over a list or a count; the replay of the manifest and the scans of the log run
-- on fuel, the length of their data and one more, which is enough as each step takes at least one byte.
-- The loops of a scan return `none` without fuel.
--
-- The third-party crates are parameters: crc32fast is a function from bytes to numbers below 2 ^ 32,
-- and fastbloom is a record of operations (`FastBloom`) with what its documentation promises
-- (`BloomLaws`). Rust's `binary_search_by` is modelled by the place where it ends on a sorted slice.
--
-- The manifest's maps are sorted lists, so two maps are equal when they hold the same. Appending to its
-- file succeeds; a failed append, and what a crash leaves of one, is not modelled.
--
-- A reader's files are a function from paths to contents; the cache of open files and the leases are
-- transparent. The memtable is the list of its entries in order.
--
-- The log's directory is a map from identifiers to bytes, and holds its segments only. A write of a group
-- either is on disk, or fails with any number of its first bytes in the file and poisons the writer, as
-- a crash in the middle of it does. A rotation may be interrupted at any byte of the header of the new
-- segment, but the rotation that an append begins with is not. The removal of covered segments may stop
-- at any of them, but not in a session. The same checkpoint is used to open the log again. Tokens of ownership are numbers. The
-- engine registers its token after an opening and appends under it; a write without the token keeps its
-- checkpoints from being taken until the next opening.
--
-- The admission queue's semaphores are their free permits; permits that are set aside for a client
-- which still waits count as free. A client takes its slot in one step and its byte permits in another,
-- and may be dropped in between; clients and the runner interleave as steps.
--
-- Not modelled: tasks, locks, the file system and its errors beyond the end of a file, and the
-- components that the repository builds beside the tables and the log (raft, search).
pub mod Base
pub mod Error
pub mod Outcome
pub mod Bytes
pub mod Utf8
pub mod Checksum
pub mod Key
pub mod Ord
pub mod TreeMap
pub mod Record
pub mod Memtable
pub mod Bloom
pub mod Index
pub mod Footer
pub mod Block
pub mod SsTable
pub mod Compaction
pub mod Manifest
pub mod Read
pub mod Admission
pub mod LogStore
pub mod Wal
pub mod Writes
pub mod Engine
pub mod Samples
