-- ===== src/Wal/Logged/Recover.antt =====
-- `recover_commands` on a log that is open, and the writer's answers on one that is not.
use cere_db.Base.{ℕ, ◌<◌, ◌^◌, ◌≡◌, refl, Bool, Bool-cases, inl, inr, List, [], ◌∷◌}
use cere_db.Error.{ok}
use cere_db.Bytes.{Bytes}
use cere_db.Wal.{Analysis, IdSet, LoggedUpdate}
use cere_db.Wal.Codec.RoundTrip.{decode_record_type-type_byte}
use cere_db.Wal.Manager.{WalManager, commands_of, recover_records, recover_commands}
use cere_db.Wal.Recovery.{is_committed, record_of, committed_records, redo}
use cere_db.Wal.Recovery.Sound.{committed_commands, commands}
use cere_db.Wal.Logged.{IsLogged, analyze_committed-IsLogged}

-- The records of committed updates are their commands.
pub commands_of-committed_records :
    (c : IdSet) (us : List LoggedUpdate)
    → commands_of (committed_records c us) ≡ ok (committed_commands c us)
unfolding commands_of committed_records committed_commands record_of
commands_of-committed_records c [] = refl
commands_of-committed_records c (u ∷ us) = elim (Bool-cases (is_committed c u)) [
  | inl e ↦
      rw
        (
          e,
          commands_of,
          decode_record_type-type_byte u.command.record_type,
          commands_of-committed_records c us,
        )
        refl
  | inr e ↦ rw (e, commands_of-committed_records c us) refl
]

module _ (crc32 : Bytes → ℕ) (crc32_u32 : (bs : Bytes) → crc32 bs < 2 ^ 32) where
  -- A recovery of an open log gives the commands of the committed transactions.
  pub recover_commands-IsLogged :
      (w : WalManager) (a : Analysis)
      → IsLogged crc32 crc32_u32 Bool.false w a
      → recover_commands crc32 w ≡ ok (commands a)
  unfolding recover_commands recover_records redo
  recover_commands-IsLogged w a h =
      rw (analyze_committed-IsLogged crc32 crc32_u32 Bool.false w a h, h.sound.modern)
        (commands_of-committed_records a.committed_transactions a.updates)
