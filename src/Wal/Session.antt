-- ===== src/Wal/Session.antt =====
-- A client of the log: registrations of an owner of checkpoints, as `WriteComponent::new` of
-- storage/writemanager/write.rs makes them, appends under the token of an owner or without one, whose
-- writes may be torn, rotations, which may be interrupted, checkpoints as write.rs takes them at the end
-- of a flush, and openings of the directory that is left.
pub mod Appends
pub mod Durable
pub mod Recovery
pub mod Steps
use cere_db.Base.{ℕ, Bool, true, false, Option, none, some, List, [], ◌∷◌, if◌then◌else◌}
use cere_db.Error.{Result, ok, err, ◌>>=◌}
use cere_db.Bytes.{Bytes}
use cere_db.LogStore.{LogCommand}
use cere_db.Wal.Owner.{
  register_checkpoint_owner, owns_recovery_checkpoints, trusted_recovery_position,
  reclaim_checkpointed_segments, append_engine_transactions,
}
use cere_db.Wal.Manager.{
  WalManager, Write, rotate_wal_file, interrupt_rotation, new_inner, recover_commands,
}

pub data Use : Type 0 where
  register : ℕ → Use
  append : Option ℕ → List (List LogCommand) → Bool → Write → Use
  rotate : Use
  interrupt : ℕ → Use
  checkpoint : Option ℕ → ℕ → Use
  reopen : Use

-- The groups that were appended since the last checkpoint, the newest first, and whether the append
-- succeeded.
abbrev pub History : Type 0
History = List (List (List LogCommand) × Bool)

pub record Session : Type 0 where
  pub writer : WalManager
  pub history : History

abbrev pub is_ok {ℓ} : {A : Type ℓ} → Result A → Bool
is_ok (ok a) = Bool.true
is_ok (err e) = Bool.false

-- Whether the log was reclaimed. `committed_sequence` is that of the checkpoint.
unfoldable pub reclaim_log : WalManager → Option ℕ → ℕ → WalManager × Bool
reclaim_log w owner committed_sequence =
    if owns_recovery_checkpoints w owner
    then elim (trusted_recovery_position w) [
      | err e ↦ (w, Bool.false)
      | ok none ↦ (w, Bool.false)
      | ok (some (replay_start_segment, next_physical_lsn)) ↦
          let (after, answer) =
            reclaim_checkpointed_segments none
              (record {
                replay_start_segment = replay_start_segment;
                next_physical_lsn = next_physical_lsn;
                committed_sequence = committed_sequence;
              })
              w in
          (after, is_ok answer)
    ]
    else (w, Bool.false)

module _ (crc32 : Bytes → ℕ) where
  unfoldable pub open_again : WalManager → Result WalManager
  open_again w = new_inner crc32 w.files w.max_segment_size w.checkpoint w.checkpoint_owner

  unfoldable pub start : ℕ → Bool → Result Session
  start max_segment_size owner = new_inner crc32 [] max_segment_size none owner >>= λ w.
      ok (record { writer = w; history = [] })

  unfoldable pub use_once : Session → Use → Result Session
  use_once s (register token) =
      ok (record s { writer = (register_checkpoint_owner token s.writer).0 })
  use_once s (append owner groups collecting outcome) =
      let (after, answer) =
        append_engine_transactions crc32 s.writer groups owner collecting outcome in
      ok (record { writer = after; history = (groups, is_ok answer) ∷ s.history })
  use_once s rotate = ok (record s { writer = (rotate_wal_file crc32 s.writer).0 })
  use_once s (interrupt n) = ok (record s { writer = (interrupt_rotation crc32 n s.writer).0 })
  use_once s (checkpoint owner committed_sequence) =
      let (rotated, answer) = rotate_wal_file crc32 s.writer in
      if is_ok answer
      then (let (after, reclaimed) = reclaim_log rotated owner committed_sequence in
          ok (record { writer = after; history = if reclaimed then [] else s.history }))
      else ok (record { writer = rotated; history = s.history })
  use_once s reopen = open_again s.writer >>= λ w. ok (record s { writer = w })

  unfoldable pub run : Session → List Use → Result Session
  run s [] = ok s
  run s (u ∷ us) = use_once s u >>= λ t. run t us

  -- What the next process finds in the directory.
  unfoldable pub recover : Session → Result (List LogCommand)
  recover s = open_again s.writer >>= recover_commands crc32
