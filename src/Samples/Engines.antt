-- ===== src/Samples/Engines.antt =====
-- The theorems on the write path and the opening of the engine, at concrete inputs.
use cere_db.Base.{◌+◌, ◌≡◌, refl, Bool, none, List, [], ◌∷◌, arith, length}
use cere_db.Error.{ok, err, ◌>>=◌}
use cere_db.LogStore.{LogCommand}
use cere_db.Admission.{BatchOperation, put_key, delete_key}
use cere_db.Wal.Manager.{Write, written}
use cere_db.Wal.Plan.{Plan, plan_transaction}
use cere_db.Wal.Session.Recovery.{fresh}
use cere_db.Writes.{WriteComponent, build_commands, validate_batch}
use cere_db.Writes.Sizes.{validate_batch-plan_transaction}
use cere_db.Engine.{open_engine}
use cere_db.Engine.Serve.{serve, open_engine-serve}
use cere_db.Samples.{sum_crc, sum_crc-lt}

abbrev put_a : BatchOperation
put_a = put_key (97 ∷ []) (1 ∷ 2 ∷ [])

abbrev delete_b : BatchOperation
delete_b = delete_key (98 ∷ [])

abbrev no_plan : Plan
no_plan = record { bytes = 7 ∷ []; next_lsn = 4; planned = [] }

batch-validated : validate_batch (put_a ∷ delete_b ∷ []) ≡ ok 165
unfolding validate_batch
batch-validated = refl

validate_batch-plan_transaction_example :
    (cs : List LogCommand) × (build_commands 9 (put_a ∷ delete_b ∷ []) ≡ ok (cs, 9 + 2))
    × ((q : Plan) × (plan_transaction sum_crc Bool.true no_plan cs ≡ ok q)
        × (length q.bytes ≡ length (no_plan.bytes) + 165))
validate_batch-plan_transaction_example =
    validate_batch-plan_transaction sum_crc sum_crc-lt Bool.true no_plan put_a (delete_b ∷ []) 9 165
      batch-validated (omega arith) (omega arith)

-- Two clients' batches in one group.
abbrev all : List (List (List BatchOperation) × Write)
all = (((put_a ∷ []) ∷ (delete_b ∷ []) ∷ []), written) ∷ []

abbrev served : WriteComponent
served = elim (open_engine sum_crc 1 [] 4096 none >>= λ s. serve sum_crc s all) [
  | ok s ↦ s
  | err e ↦ record {
    memtable = [];
    memtable_size = 0;
    sequence_number = 0;
    wal_manager = fresh sum_crc sum_crc-lt 4096 Bool.true;
    checkpoint_owner = none;
  }
]

served-ran : (open_engine sum_crc 1 [] 4096 none >>= λ s. serve sum_crc s all) ≡ ok served
unfolding open_engine cere_db.Wal.Manager.new_inner cere_db.TreeMap.get
    cere_db.Wal.Manager.recover_records cere_db.TreeMap.insert
    cere_db.Wal.Scan.scan_segment_with_tail_handling cere_db.Wal.Header.encode
    cere_db.Bytes.to_be_bytes cere_db.Wal.Header.decode cere_db.Key.cmp cere_db.Bytes.from_be_bytes
    serve cere_db.Writes.write_requests cere_db.Wal.Recovery.redo
    cere_db.Wal.Owner.append_engine_transactions cere_db.Wal.Manager.append_transactions
    cere_db.Wal.Owner.register_checkpoint_owner cere_db.Wal.Plan.plan_transactions
    cere_db.Wal.Codec.has_stray_value cere_db.Wal.Codec.encode_frame cere_db.Wal.Codec.frame_body
    cere_db.Wal.Codec.update_bytes cere_db.Wal.Codec.frame_header cere_db.Wal.Plan.all_receipts
served-ran = refl

open_engine-serve_example :
    (r : WriteComponent) × (open_engine sum_crc 2 served.wal_manager.files 4096 none ≡ ok r)
    × (r.memtable ≡ served.memtable)
    × (r.memtable_size ≡ served.memtable_size)
    × (r.sequence_number ≡ served.sequence_number)
open_engine-serve_example = open_engine-serve sum_crc sum_crc-lt 1 2 4096 all served served-ran
