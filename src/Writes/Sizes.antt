-- ===== src/Writes/Sizes.antt =====
-- A batch that is admitted, and the plan of its transaction in the log.
use cere_db.Base.{
  ℕ, ◌+◌, ◌≤◌, ◌<◌, ◌^◌, ◌≡◌, refl, ap, false, not, ltb, Bool, List, [], ◌∷◌, ◌++◌, length,
  length-append, arith, if◌then◌else◌,
}
use cere_db.Error.{ok, eq_of_ok, refuse-ok_lem}
use cere_db.Bytes.{Bytes}
use cere_db.LogStore.{LogCommand}
use cere_db.Admission.{BatchOperation}
use cere_db.Wal.{Frame, max_frame_size, max_group_encoded_size}
use cere_db.Wal.Codec.RoundTrip.{FitsFrame, length-frame_body, length-update_bytes}
use cere_db.Wal.Plan.{
  Plan, OpenPlan, PlannedTransaction, update_frame, commit_frame, open_plan, with_update,
  plan_update, plan_updates, plan_commit, plan_transaction,
}
use cere_db.Wal.Scan.Frames.{frame_bytes, length-frame_bytes, encode_frame-ok}
use cere_db.Writes.{key_of, value_of, command_of, validate_from, validate_batch, build_commands}
use cere_db.Writes.Commands.{
  commands_from, build_commands-ok, key_of-command, value_of-command, lsn-command, command_of-plain,
}

-- What is counted keeps to the limit of a transaction.
validate_from-le :
    (total : ℕ) (operations : List BatchOperation) (n : ℕ)
    → validate_from total operations ≡ ok n
    → total ≤ max_group_encoded_size
    → n ≤ max_group_encoded_size
unfolding validate_from
validate_from-le total [] n h le = omega (arith, eq_of_ok total n h, le)
validate_from-le total (operation ∷ operations) n h le =
    let payload = 42 + length (key_of operation) + length (value_of operation) in
    let (within, h1) = refuse-ok_lem (ltb _ payload) _ _ n h in
    let (group, h2) = refuse-ok_lem (ltb _ (total + (20 + payload))) _ _ n h1 in
    validate_from-le (total + (20 + payload)) operations n h2 (ground (arith, group))

module _ (crc32 : Bytes → ℕ) (crc32_u32 : (bs : Bytes) → crc32 bs < 2 ^ 32)
    (collecting : Bool) where
  module _ (id start : ℕ) (o : OpenPlan) (operation : BatchOperation) (lsn : ℕ) where
    abbrev c : LogCommand
    c = command_of operation lsn

    abbrev frame : Frame
    frame = update_frame id o.previous_lsn o.next_lsn c

    abbrev planned : OpenPlan
    planned = with_update crc32 collecting id start o c (frame_bytes crc32 crc32_u32 frame)

    abbrev payload : ℕ
    payload = 42 + length (key_of operation) + length (value_of operation)

    length-frame : length (frame_bytes crc32 crc32_u32 frame) ≡ 20 + payload
    length-frame = omega (
      arith,
      length-frame_bytes crc32 crc32_u32 frame,
      length-frame_body frame,
      length-update_bytes c,
      ap (λ bs. length bs) (key_of-command operation lsn),
      ap (λ bs. length bs) (value_of-command operation lsn),
    )

    plan_update-ok :
        id < 2 ^ 64
        → o.previous_lsn < 2 ^ 64
        → o.next_lsn + 1 < 2 ^ 64
        → lsn < 2 ^ 64
        → payload ≤ max_frame_size
        → o.group_size + (20 + payload) ≤ max_group_encoded_size
        → plan_update crc32 collecting id start o c ≡ ok planned
    unfolding plan_update
    plan_update-ok small previous next number within group =
        let keys = ap (λ bs. length bs) (key_of-command operation lsn) in
        let values = ap (λ bs. length bs) (value_of-command operation lsn) in
        let short : not (ltb (length c.key) (2 ^ 32)) ≡ false = ground (arith, keys, within) in
        let fits : FitsFrame frame = record {
          lsn = omega (arith, next);
          transaction_id = small;
          previous_lsn = previous;
          content = record {
            lsn = omega (arith, lsn-command operation lsn, number);
            plain = command_of-plain operation lsn;
            size = omega (arith, keys, values, within);
          };
        } in
        let size : ltb max_group_encoded_size
              (o.group_size + length (frame_bytes crc32 crc32_u32 frame))
            ≡ false =
          ground (arith, length-frame, group) in
        let room : not (ltb (o.next_lsn + 1) (2 ^ 64)) ≡ false = ground (arith, next) in
        rw
          (
            command_of-plain operation lsn,
            short,
            encode_frame-ok crc32 crc32_u32 frame fits,
            size,
            room,
          )
          refl

  plan_updates-ok :
      (id start : ℕ) (o : OpenPlan) (operations : List BatchOperation) (lsn n : ℕ)
      → validate_from (37 + o.group_size) operations ≡ ok n
      → id < 2 ^ 64
      → o.previous_lsn < 2 ^ 64
      → o.next_lsn + length operations < 2 ^ 64
      → lsn + length operations < 2 ^ 64
      → (q : OpenPlan) × (plan_updates crc32 collecting id start o (commands_from lsn operations)
          ≡ ok q)
        × (37 + q.group_size ≡ n)
        × (length q.bytes + o.group_size ≡ length o.bytes + q.group_size)
        × (q.next_lsn ≡ o.next_lsn + length operations)
        × (q.previous_lsn < 2 ^ 64)
  unfolding plan_updates validate_from with_update
  plan_updates-ok id start o [] lsn n h small previous next number =
      (o, refl, eq_of_ok (37 + o.group_size) n h, omega arith, omega arith, previous)
  plan_updates-ok id start o (operation ∷ operations) lsn n h small previous next number =
      let total = 37 + o.group_size + (20 + payload id start o operation (lsn + 1)) in
      let (within, h1) = refuse-ok_lem (ltb _ (payload id start o operation (lsn + 1))) _ _ n h in
      let (group, h2) = refuse-ok_lem (ltb _ total) _ _ n h1 in
      let sized = length-frame id start o operation (lsn + 1) in
      let r = planned id start o operation (lsn + 1) in
      let one =
        plan_update-ok id start o operation (lsn + 1) small previous (omega (arith, next))
          (omega (arith, number)) (ground (arith, within)) (ground (arith, group)) in
      let there : total ≡ 37 + r.group_size = omega (arith, sized) in
      let (q, e, size, bytes, last, prev) =
        plan_updates-ok id start r operations (lsn + 1) n (rw there at h2) small
          (omega (arith, next)) (omega (arith, next)) (omega (arith, number)) in
      (
        q,
        rw one e,
        size,
        omega (
          arith,
          bytes,
          sized,
          length-append o.bytes
              (frame_bytes crc32 crc32_u32 (frame id start o operation (lsn + 1))),
        ),
        omega (arith, last),
        prev,
      )

  length-commit_frame :
      (id previous_lsn lsn : ℕ)
      → length (frame_bytes crc32 crc32_u32 (commit_frame id previous_lsn lsn)) ≡ 37
  length-commit_frame id previous_lsn lsn =
      let f = commit_frame id previous_lsn lsn in
      omega (arith, length-frame_bytes crc32 crc32_u32 f, length-frame_body f)

  -- A batch that is not empty and is found valid is built into commands and planned as a transaction of
  -- the log, whatever is planned before it, and takes exactly the bytes that the test has counted. The
  -- log and the engine have a number of 64 bits left for each command, and the log one for the commit;
  -- checksums have 32 bits.
  pub validate_batch-plan_transaction :
      (p : Plan) (operation : BatchOperation) (operations : List BatchOperation) (lsn n : ℕ)
      → validate_batch (operation ∷ operations) ≡ ok n
      → p.next_lsn + length (operation ∷ operations) + 1 < 2 ^ 64
      → lsn + length (operation ∷ operations) < 2 ^ 64
      → (cs : List LogCommand) × (build_commands lsn (operation ∷ operations)
          ≡ ok (cs, lsn + length (operation ∷ operations)))
        × ((q : Plan) × (plan_transaction crc32 collecting p cs ≡ ok q)
            × (length q.bytes ≡ length p.bytes + n))
  unfolding validate_batch plan_transaction plan_commit
  validate_batch-plan_transaction p operation operations lsn n h next number =
      let all = operation ∷ operations in
      let (o, e, size, bytes, last, prev) =
        plan_updates-ok p.next_lsn (length p.bytes) (open_plan p) all lsn n h (omega (arith, next))
          (omega arith) (omega (arith, next)) number in
      let f = commit_frame p.next_lsn o.previous_lsn o.next_lsn in
      let fits : FitsFrame f = record {
        lsn = omega (arith, last, next);
        transaction_id = omega (arith, next);
        previous_lsn = prev;
        content = tt;
      } in
      let commit_size = length-commit_frame p.next_lsn o.previous_lsn o.next_lsn in
      let group : ltb max_group_encoded_size (o.group_size + length (frame_bytes crc32 crc32_u32 f))
          ≡ false =
        ground (arith, commit_size, size, validate_from-le 37 all n h (omega arith)) in
      let room : not (ltb (o.next_lsn + 1) (2 ^ 64)) ≡ false = ground (arith, last, next) in
      let transaction : PlannedTransaction = record {
        updates = o.updates;
        commit_offset = length o.bytes;
        commit_lsn = o.next_lsn;
      } in
      let q : Plan = record {
        bytes = o.bytes ++ frame_bytes crc32 crc32_u32 f;
        next_lsn = o.next_lsn + 1;
        planned = if collecting then p.planned ++ transaction ∷ [] else p.planned;
      } in
      (
        commands_from lsn all,
        build_commands-ok lsn all number,
        (
          q,
          rw (e, encode_frame-ok crc32 crc32_u32 f fits, group, room) refl,
          omega (
            arith,
            commit_size,
            size,
            bytes,
            length-append o.bytes (frame_bytes crc32 crc32_u32 f),
          ),
        ),
      )
