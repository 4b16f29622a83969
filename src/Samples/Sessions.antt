-- ===== src/Samples/Sessions.antt =====
-- The theorems on sessions of a log, at concrete inputs, and checkpoints that are taken or refused.
use cere_db.Base.{◌≡◌, refl, Bool, Option, none, some, List, [], ◌∷◌, ◌++◌, arith, All}
use cere_db.Error.{Result, ok, err, ◌>>=◌}
use cere_db.Record.{put, delete}
use cere_db.LogStore.{LogCommand}
use cere_db.Manifest.{RecoveryCheckpoint}
use cere_db.Wal.{IdSet, Frame, Analysis, update, commit, no_analysis, wal_header_size}
use cere_db.Wal.Codec.{has_stray_value}
use cere_db.Wal.Owner.{trusted_recovery_position, change_to_reserve, reclaim_checkpointed_segments}
use cere_db.Wal.Segments.{ids_of}
use cere_db.Wal.Manager.{
  WalManager, written, torn, append_transactions, rotate_wal_file, commands_of, recover_commands,
}
use cere_db.Wal.Plan.Prefix.{concat}
use cere_db.Wal.Session.{
  Use, register, append, rotate, interrupt, checkpoint, reopen, History, Session, start, run,
  recover,
}
use cere_db.Wal.Session.Durable.{AllowsUse, Survives}
use cere_db.Wal.Session.Recovery.{fresh, recover-Survives, recover-acknowledged}
use cere_db.Samples.{sum_crc, sum_crc-lt}

abbrev pub put_a : LogCommand
put_a = record { record_type = put; key = 97 ∷ []; value = 1 ∷ 2 ∷ []; lsn = 5 }

abbrev pub delete_b : LogCommand
delete_b = record { record_type = delete; key = 98 ∷ []; value = []; lsn = 6 }

-- The engine registers, a group is written, the next is torn off, the directory is opened again, a
-- rotation is interrupted, the directory is opened once more, the engine registers again, a new segment
-- begins, and one more group is written and covered by a checkpoint. Behind it the engine writes a group
-- and another client one, so that the last checkpoint is not taken.
abbrev uses : List Use
uses =
    register 1
    ∷ append (some 1) ((put_a ∷ delete_b ∷ []) ∷ (put_a ∷ []) ∷ []) Bool.true written
    ∷ append (some 1) ((delete_b ∷ []) ∷ []) Bool.false (torn 30)
    ∷ reopen
    ∷ interrupt 5
    ∷ reopen
    ∷ register 1
    ∷ rotate
    ∷ append (some 1) ((delete_b ∷ []) ∷ []) Bool.false written
    ∷ checkpoint (some 1) 6
    ∷ append (some 1) ((put_a ∷ []) ∷ []) Bool.false written
    ∷ append none ((delete_b ∷ []) ∷ []) Bool.false written
    ∷ checkpoint (some 1) 7
    ∷ []

abbrev uses-AllowsUse : All AllowsUse uses
uses-AllowsUse = (
  tt,
  (
    ((omega arith, (omega arith, tt)), ((omega arith, tt), tt)),
    (
      ((omega arith, tt), tt),
      (
        tt,
        (
          tt,
          (
            tt,
            (
              tt,
              (
                tt,
                (
                  ((omega arith, tt), tt),
                  (tt, (((omega arith, tt), tt), (((omega arith, tt), tt), (tt, tt)))),
                ),
              ),
            ),
          ),
        ),
      ),
    ),
  ),
)

recover-Survives_example :
    (s : Session) × ((start sum_crc 4096 Bool.true >>= λ t. run sum_crc t uses) ≡ ok s)
    × ((cs : List LogCommand) × (recover sum_crc s ≡ ok cs) × Survives s.history cs)
recover-Survives_example = recover-Survives sum_crc sum_crc-lt 4096 Bool.true uses uses-AllowsUse

abbrev one_use : List Use
one_use = append (some 1) ((put_a ∷ []) ∷ []) Bool.false written ∷ []

abbrev after_one : Session
after_one = elim (start sum_crc 4096 Bool.true >>= λ t. run sum_crc t one_use) [
  | ok s ↦ s
  | err e ↦ record { writer = fresh sum_crc sum_crc-lt 4096 Bool.true; history = [] }
]

after_one-ran : (start sum_crc 4096 Bool.true >>= λ t. run sum_crc t one_use) ≡ ok after_one
unfolding start cere_db.Wal.Manager.new_inner cere_db.TreeMap.get run cere_db.Wal.Session.use_once
after_one-ran = refl

after_one-history : after_one.history ≡ [] ++ ((put_a ∷ []) ∷ [], Bool.true) ∷ []
unfolding start cere_db.Wal.Manager.new_inner cere_db.TreeMap.get run cere_db.Wal.Session.use_once
    cere_db.Wal.Manager.append_transactions cere_db.Wal.Plan.plan_transactions
    cere_db.Wal.Codec.has_stray_value cere_db.Wal.Codec.encode_frame cere_db.Wal.Codec.frame_body
    cere_db.Bytes.to_be_bytes cere_db.Wal.Codec.update_bytes cere_db.Wal.Codec.frame_header
    cere_db.TreeMap.insert cere_db.Wal.Header.encode cere_db.Wal.Plan.all_receipts
    cere_db.Wal.Owner.append_engine_transactions
after_one-history = refl

recover-acknowledged_example :
    (before : List LogCommand) × ((after : List LogCommand) × (recover sum_crc after_one
        ≡ ok (before ++ (concat ((put_a ∷ []) ∷ []) ++ after))))
recover-acknowledged_example =
    recover-acknowledged sum_crc sum_crc-lt 4096 Bool.true one_use after_one [] []
      ((put_a ∷ []) ∷ []) (((omega arith, tt), tt), tt) after_one-ran after_one-history

-- What is left of the history, the segments and the checkpoint.
abbrev left_by : List Use → Result (History × IdSet × Option RecoveryCheckpoint)
left_by us = start sum_crc 4096 Bool.true >>= λ t.
    run sum_crc t us >>= λ s. ok (s.history, ids_of s.writer.files, s.writer.checkpoint)

-- The checkpoint is taken: the first group is covered, and its segment is gone.
checkpoint_taken :
    left_by (
      register 1
      ∷ append (some 1) ((put_a ∷ []) ∷ []) Bool.false written
      ∷ checkpoint (some 1) 5
      ∷ append (some 1) ((delete_b ∷ []) ∷ []) Bool.false written
      ∷ [])
    ≡ ok (
      ((delete_b ∷ []) ∷ [], Bool.true) ∷ [],
      (1, tt) ∷ [],
      some (record { replay_start_segment = 1; next_physical_lsn = 3; committed_sequence = 5 }),
    )
unfolding start cere_db.Wal.Manager.new_inner cere_db.TreeMap.get run cere_db.Wal.Session.use_once
    cere_db.Wal.Manager.append_transactions cere_db.Wal.Plan.plan_transactions
    cere_db.Wal.Codec.has_stray_value cere_db.Wal.Codec.encode_frame cere_db.Wal.Codec.frame_body
    cere_db.Bytes.to_be_bytes cere_db.Wal.Codec.update_bytes cere_db.Wal.Codec.frame_header
    cere_db.TreeMap.insert cere_db.Wal.Header.encode cere_db.Wal.Plan.all_receipts
    cere_db.Wal.Owner.append_engine_transactions cere_db.Wal.Owner.register_checkpoint_owner ids_of
    cere_db.Wal.Session.reclaim_log cere_db.Wal.Owner.owns_recovery_checkpoints
    cere_db.Wal.Owner.trusted_recovery_position cere_db.Wal.Owner.reclaim_checkpointed_segments
    cere_db.Wal.Owner.remove_covered cere_db.Wal.Manager.rotate_wal_file
    cere_db.Wal.Manager.rotate_locked cere_db.TreeMap.remove
checkpoint_taken = refl

-- A write without the token: no checkpoint is taken.
checkpoint_refused :
    left_by
      (register 1 ∷ append none ((put_a ∷ []) ∷ []) Bool.false written ∷ checkpoint (some 1) 5 ∷ [])
    ≡ ok (((put_a ∷ []) ∷ [], Bool.true) ∷ [], (0, tt) ∷ (1, tt) ∷ [], none)
unfolding start cere_db.Wal.Manager.new_inner cere_db.TreeMap.get run cere_db.Wal.Session.use_once
    cere_db.Wal.Manager.append_transactions cere_db.Wal.Plan.plan_transactions
    cere_db.Wal.Codec.has_stray_value cere_db.Wal.Codec.encode_frame cere_db.Wal.Codec.frame_body
    cere_db.Bytes.to_be_bytes cere_db.Wal.Codec.update_bytes cere_db.Wal.Codec.frame_header
    cere_db.TreeMap.insert cere_db.Wal.Header.encode cere_db.Wal.Plan.all_receipts
    cere_db.Wal.Owner.append_engine_transactions cere_db.Wal.Owner.register_checkpoint_owner ids_of
    cere_db.Wal.Session.reclaim_log cere_db.Wal.Owner.owns_recovery_checkpoints
    cere_db.Wal.Owner.trusted_recovery_position cere_db.Wal.Owner.reclaim_checkpointed_segments
    cere_db.Wal.Owner.remove_covered cere_db.Wal.Manager.rotate_wal_file
    cere_db.Wal.Manager.rotate_locked cere_db.TreeMap.remove
checkpoint_refused = refl
