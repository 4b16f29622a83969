-- ===== src/Samples/Tables.antt =====
-- The theorems on the manifest, at concrete operations.
use cere_db.Base.{◌≡◌, refl, inr, Option, none, some, List, [], ◌∷◌, arith, All}
use cere_db.Error.{Result, ok, ◌>>=◌}
use cere_db.Bytes.{to_be_bytes, from_be_bytes}
use cere_db.Bytes.Reader.{remaining, read_exact, read_be}
use cere_db.TreeMap
use cere_db.Manifest.Encode.{encode_add_payload, encode_entry}
use cere_db.Manifest.Decode.{decode_entry, decode_add_payload}
use cere_db.Utf8.{is_utf8}
use cere_db.Manifest.{SsTableMeta, RecoveryCheckpoint, ManifestState, initial}
use cere_db.Manifest.Manager.{register_sstable, allocate_file_id}
use cere_db.Manifest.Replay.{replay_manifest}
use cere_db.Manifest.Snapshot.{ManifestSnapshot}
use cere_db.Manifest.RoundTrip.{Fits}
use cere_db.Manifest.Lookup.{lookup}
use cere_db.Manifest.Logged.{Agrees}
use cere_db.Manifest.Restart.{
  ManifestOp, allocate, register, remove, checkpoint, recover, publish, FitsOp, perform_all,
  new_manifest, replay_manifest-perform_all, allocate_file_id-lookup,
}
use cere_db.Samples.{sum_crc, sum_crc-lt}

abbrev table_one : SsTableMeta
table_one = record {
  file_id = 1;
  level = 0;
  path = 97 ∷ [];
  record_count = 2;
  smallest_key = 97 ∷ [];
  largest_key = 98 ∷ [];
  bloom_offset = 60;
  bloom_size = 40;
}

abbrev table_two : SsTableMeta
table_two = record table_one { file_id = 2; level = 1 }

abbrev start_four : RecoveryCheckpoint
start_four = record { replay_start_segment = 4; next_physical_lsn = 91; committed_sequence = 12 }

-- Tables with the first and the last identifier.
abbrev table_zero : SsTableMeta
table_zero = record table_one { file_id = 0 }

abbrev table_last : SsTableMeta
table_last = record table_one { file_id = 18446744073709551615 }

-- The snapshot that a compaction of the first table has taken.
abbrev seen : ManifestSnapshot
seen = record {
  version = 1;
  next_file_id = 2;
  active_wal_segment = 3;
  recovery_checkpoint = none;
  levels = (0, table_one ∷ []) ∷ [];
}

abbrev ops : List ManifestOp
ops =
    register table_one
    ∷ checkpoint 7 3
    ∷ allocate
    ∷ publish seen (table_one ∷ []) (table_two ∷ [])
    ∷ recover start_four
    ∷ remove 1 9
    ∷ register table_last
    ∷ []

table_one-Fits : Fits table_one
table_one-Fits = record {
  level = omega arith;
  file_id = omega arith;
  record_count = omega arith;
  bloom_offset = omega arith;
  bloom_size = omega arith;
  path = unfold is_utf8 in refl;
}

table_two-Fits : Fits table_two
table_two-Fits = record {
  level = omega arith;
  file_id = omega arith;
  record_count = omega arith;
  bloom_offset = omega arith;
  bloom_size = omega arith;
  path = unfold is_utf8 in refl;
}

table_last-Fits : Fits table_last
table_last-Fits = record {
  level = omega arith;
  file_id = omega arith;
  record_count = omega arith;
  bloom_offset = omega arith;
  bloom_size = omega arith;
  path = unfold is_utf8 in refl;
}

ops-FitsOp : All FitsOp ops
ops-FitsOp = (
  table_one-Fits,
  (
    (omega arith, omega arith),
    (
      tt,
      (
        (((omega arith, omega arith), tt), (table_two-Fits, tt)),
        (
          record {
            replay_start_segment = omega arith;
            next_physical_lsn = omega arith;
            committed_sequence = omega arith;
          },
          ((omega arith, omega arith), (table_last-Fits, tt)),
        ),
      ),
    ),
  ),
)

replay_manifest-perform_all_example :
    (s : ManifestState) × (replay_manifest sum_crc (perform_all sum_crc new_manifest ops).file
      ≡ ok s)
    × Agrees s (perform_all sum_crc new_manifest ops).state
replay_manifest-perform_all_example = replay_manifest-perform_all sum_crc sum_crc-lt ops ops-FitsOp

-- The state with the first table.
abbrev with_one : ManifestState
with_one = record initial { next_file_id = 2; levels = (0, (1, table_one) ∷ []) ∷ [] }

replayed :
    replay_manifest sum_crc (perform_all sum_crc new_manifest (register table_one ∷ [])).file
    ≡ ok with_one
unfolding replay_manifest perform_all register_sstable encode_add_payload encode_entry to_be_bytes
    decode_entry cere_db.Bytes.Reader.◌>>=◌ remaining read_exact from_be_bytes read_be
    decode_add_payload is_utf8 TreeMap.insert TreeMap.get
replayed = refl

allocate_file_id-lookup_example :
    lookup 0 2 (perform_all sum_crc new_manifest (register table_one ∷ [])).state.levels ≡ none
allocate_file_id-lookup_example =
    allocate_file_id-lookup sum_crc sum_crc-lt (register table_one ∷ []) with_one 2
      (table_one-Fits, tt) (omega arith, tt) replayed (inr (unfold allocate_file_id in refl)) 0

-- The table with the last identifier is logged and then refused. After a restart, the next identifier is
-- that of the table with the first one.
abbrev wrapped : List ManifestOp
wrapped = register table_zero ∷ register table_last ∷ []

-- The table that has the identifier which is handed out after a restart.
abbrev table_at_next : List ManifestOp → Result (Option SsTableMeta)
table_at_next os = replay_manifest sum_crc (perform_all sum_crc new_manifest os).file >>= λ s.
    (allocate_file_id (record { file = []; state = s })).1 >>= λ id. ok (lookup 0 id s.levels)

identifier_reused : table_at_next wrapped ≡ ok (some table_zero)
unfolding replay_manifest perform_all register_sstable encode_add_payload encode_entry to_be_bytes
    decode_entry cere_db.Bytes.Reader.◌>>=◌ remaining read_exact from_be_bytes read_be
    decode_add_payload is_utf8 TreeMap.insert TreeMap.get allocate_file_id lookup
identifier_reused = refl
