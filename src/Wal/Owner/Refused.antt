-- ===== src/Wal/Owner/Refused.antt =====
-- storage/recovermanager/wal.rs: a writer whose last write failed, until it is opened again.
use cere_db.Base.{
  ℕ, ◌≤◌, ◌<◌, ◌^◌, ◌≡◌, refl, true, false, not, ltb, Bool, Bool-cases, inl, inr, Option, List, ◌∷◌,
  length, arith, All,
}
use cere_db.Error.{DbError, Result-cases, ok, err, io, other, storage_error}
use cere_db.Bytes.{Bytes}
use cere_db.LogStore.{LogCommand}
use cere_db.Manifest.{RecoveryCheckpoint}
use cere_db.Wal.{Analysis, WalValueRef, max_group_count}
use cere_db.Wal.Plan.{Plan, plan_transactions, all_receipts}
use cere_db.Wal.Plan.Updates.{HasLsn}
use cere_db.Wal.Manager.{
  WalManager, Write, written, torn, make_room, start_plan, append_planned, ensure_healthy,
  append_transactions, rotate_wal_file, analyze_committed, recover_records, recover_commands,
}
use cere_db.Wal.Logged.{IsLogged, ensure_healthy-ok}
use cere_db.Wal.Logged.Append.{append_transactions-KeepsPrefix}
use cere_db.Wal.Logged.Reopen.{new_inner-HasLog}
use cere_db.Wal.Owner.{trusted_recovery_position, change_to_reserve, reclaim_checkpointed_segments}
use cere_db.Wal.Logged.Write.{HasLog}
use cere_db.Wal.Segments.{analysis_from, floor_of}
use cere_db.Wal.Session.{open_again}

abbrev pub poisoned_error : DbError
poisoned_error = storage_error "WAL write interrupted or failed; reopen before reuse"

module _ (crc32 : Bytes → ℕ) (w : WalManager) (h : w.poisoned ≡ true) where
  unhealthy : ensure_healthy w ≡ err poisoned_error
  unfolding ensure_healthy
  unhealthy = rw h refl

  refused_append :
      (g : List LogCommand) (gs : List (List LogCommand)) (collecting : Bool) (outcome : Write)
      → length (g ∷ gs) ≤ max_group_count
      → append_transactions crc32 w (g ∷ gs) collecting outcome ≡ (w, err poisoned_error)
  unfolding append_transactions
  refused_append g gs collecting outcome le =
      let within : ltb max_group_count (length (g ∷ gs)) ≡ false = ground (arith, le) in
      rw (within, unhealthy) refl

  refused_rotate : rotate_wal_file crc32 w ≡ (w, err poisoned_error)
  unfolding rotate_wal_file
  refused_rotate = rw (unhealthy, rotate_wal_file) refl

  refused_reserve : (id : ℕ) → change_to_reserve id w ≡ (w, err poisoned_error)
  unfolding change_to_reserve
  refused_reserve id = rw (unhealthy, change_to_reserve) refl

  refused_reclaim :
      (failing : Option ℕ) (c : RecoveryCheckpoint)
      → w.checkpoint_owner ≡ true
      → reclaim_checkpointed_segments failing c w ≡ (w, err poisoned_error)
  unfolding reclaim_checkpointed_segments
  refused_reclaim failing c owner =
      let allowed : (not w.checkpoint_owner) ≡ false = ground (arith, owner) in
      rw (allowed, unhealthy) refl

  refused_position : trusted_recovery_position w ≡ err poisoned_error
  unfolding trusted_recovery_position
  refused_position = rw (unhealthy, trusted_recovery_position) refl

  refused_recovery : recover_commands crc32 w ≡ err poisoned_error
  unfolding recover_commands recover_records analyze_committed
  refused_recovery = rw (unhealthy, analyze_committed) refl

-- Whatever it is called for, the writer keeps its state and answers with the same error: an append of a
-- group that is not empty and not too long, a rotation, the reservation of a segment, a reclaim by an
-- owner of checkpoints, the question for its position and a recovery.
pub record IsClosed (crc32 : Bytes → ℕ) (w : WalManager) : Type 0 where
  pub appends :
      (g : List LogCommand) (gs : List (List LogCommand)) (collecting : Bool) (outcome : Write)
      → length (g ∷ gs) ≤ max_group_count
      → append_transactions crc32 w (g ∷ gs) collecting outcome ≡ (w, err poisoned_error)
  pub rotates : rotate_wal_file crc32 w ≡ (w, err poisoned_error)
  pub reserves : (id : ℕ) → change_to_reserve id w ≡ (w, err poisoned_error)
  pub reclaims :
      (failing : Option ℕ) (c : RecoveryCheckpoint)
      → w.checkpoint_owner ≡ true
      → reclaim_checkpointed_segments failing c w ≡ (w, err poisoned_error)
  pub position : trusted_recovery_position w ≡ err poisoned_error
  pub recovers : recover_commands crc32 w ≡ err poisoned_error

poisoned-IsClosed : (crc32 : Bytes → ℕ) (w : WalManager) → w.poisoned ≡ true → IsClosed crc32 w
poisoned-IsClosed crc32 w h = record {
  appends = refused_append crc32 w h;
  rotates = refused_rotate crc32 w h;
  reserves = refused_reserve crc32 w h;
  reclaims = refused_reclaim crc32 w h;
  position = refused_position crc32 w h;
  recovers = refused_recovery crc32 w h;
}

module _ (crc32 : Bytes → ℕ) (w : WalManager) (n : ℕ) where
  -- A planned group whose write would succeed.
  append_planned-torn :
      (p : Plan) (receipts : List (List WalValueRef))
      → (append_planned crc32 w p written).1 ≡ ok receipts
      → ((append_planned crc32 w p (torn n)).1 ≡ err (io other))
        × ((append_planned crc32 w p (torn n)).0.poisoned ≡ true)
  unfolding append_planned
  append_planned-torn p receipts h = elim (Result-cases (make_room crc32 w p.bytes)) [
    | inr (e, q) ↦ absurd (ground (arith, (rw (q, append_planned) at h)))
    | inl (r, q) ↦ elim (Result-cases (all_receipts r.segment_id r.size p.planned)) [
      | inr (e, x) ↦ absurd (ground (arith, (rw (q, append_planned, x) at h)))
      | inl (rs, x) ↦ rw (q, append_planned, x) (refl, refl)
    ]
  ]

  append_transactions-torn :
      (g : List LogCommand) (gs : List (List LogCommand)) (collecting : Bool)
      (receipts : List (List WalValueRef))
      → (append_transactions crc32 w (g ∷ gs) collecting written).1 ≡ ok receipts
      → ((append_transactions crc32 w (g ∷ gs) collecting (torn n)).1 ≡ err (io other))
        × ((append_transactions crc32 w (g ∷ gs) collecting (torn n)).0.poisoned ≡ true)
  unfolding append_transactions
  append_transactions-torn g gs collecting receipts h =
      elim (Bool-cases (ltb max_group_count (length (g ∷ gs)))) [
        | inl t ↦ absurd (ground (arith, (rw (t, append_transactions) at h)))
        | inr f ↦ elim (Result-cases (ensure_healthy w)) [
          | inr (e, q) ↦ absurd (ground (arith, (rw (f, append_transactions, q) at h)))
          | inl (u, q) ↦
              elim (Result-cases (plan_transactions crc32 collecting (start_plan w) (g ∷ gs))) [
                | inr (e, x) ↦ absurd (ground (arith, (rw (f, append_transactions, q, x) at h)))
                | inl (p, x) ↦
                    rw (f, append_transactions, q, x)
                      (append_planned-torn p receipts (rw (f, append_transactions, q, x) at h))
              ]
        ]
      ]

-- What is left of a log can be opened.
opened-ensure_healthy :
    (crc32 : Bytes → ℕ) (crc32_u32 : (bs : Bytes) → crc32 bs < 2 ^ 32) (w : WalManager)
    (c : Option RecoveryCheckpoint) (origin last : Analysis)
    → w.checkpoint ≡ c
    → analysis_from Bool.false c ≡ ok origin
    → HasLog crc32 crc32_u32 Bool.false w.files (floor_of c) origin last
    → (r : WalManager) × (open_again crc32 w ≡ ok r) × (ensure_healthy r ≡ ok tt)
unfolding open_again
opened-ensure_healthy crc32 crc32_u32 w c origin last e starts log =
    let (r, opened, logged, same, size) =
      new_inner-HasLog crc32 crc32_u32 w.checkpoint w.max_segment_size w.checkpoint_owner w.files
        origin last (rw e starts) (rw e log) in
    (r, opened, ensure_healthy-ok crc32 crc32_u32 r logged.healthy)

-- If an append would succeed on a writer whose directory holds a log, and its write fails after any
-- number of bytes, it answers with the error of the write. After it the writer keeps its state and
-- answers with the same error, that it must be opened again, to an append of a group that is not empty
-- and not too long, to a rotation, to the reservation of a segment, to a reclaim by an owner of
-- checkpoints, to the question for its position and to a recovery. An opening of the directory that it
-- leaves succeeds, and the new writer is healthy. The commands carry numbers of 64 bits and checksums
-- have 32 bits.
pub append_transactions-IsClosed :
    (crc32 : Bytes → ℕ) (crc32_u32 : (bs : Bytes) → crc32 bs < 2 ^ 32) (w : WalManager)
    (a : Analysis) (g : List LogCommand) (gs : List (List LogCommand)) (collecting : Bool) (n : ℕ)
    (receipts : List (List WalValueRef))
    → IsLogged crc32 crc32_u32 Bool.false w a
    → All (All HasLsn) (g ∷ gs)
    → (append_transactions crc32 w (g ∷ gs) collecting written).1 ≡ ok receipts
    → ((append_transactions crc32 w (g ∷ gs) collecting (torn n)).1 ≡ err (io other))
      × IsClosed crc32 (append_transactions crc32 w (g ∷ gs) collecting (torn n)).0
      × ((r : WalManager) × (open_again crc32
              (append_transactions crc32 w (g ∷ gs) collecting (torn n)).0
            ≡ ok r)
          × (ensure_healthy r ≡ ok tt))
append_transactions-IsClosed crc32 crc32_u32 w a g gs collecting n receipts h has answer =
    let after : WalManager = (append_transactions crc32 w (g ∷ gs) collecting (torn n)).0 in
    let (failed, poisoned) = append_transactions-torn crc32 w n g gs collecting receipts answer in
    let k =
      append_transactions-KeepsPrefix crc32 crc32_u32 Bool.false w a (g ∷ gs) collecting (torn n) h
        has in
    (
      failed,
      poisoned-IsClosed crc32 after poisoned,
      opened-ensure_healthy crc32 crc32_u32 after w.checkpoint k.origin k.last k.checkpoint k.starts
          k.log,
    )
