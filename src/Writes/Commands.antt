-- ===== src/Writes/Commands.antt =====
-- The commands of a batch.
use cere_db.Base.{
  ℕ, suc, ◌+◌, ◌<◌, ◌^◌, ◌≡◌, refl, ap, true, false, ltb, List, [], ◌∷◌, length, arith,
}
use cere_db.Error.{ok}
use cere_db.LogStore.{LogCommand}
use cere_db.Admission.{BatchOperation, put_key, delete_key}
use cere_db.Wal.Codec.{has_stray_value}
use cere_db.Writes.{key_of, value_of, command_of, build_commands}

-- The commands of operations, of which the first has the number after `next_lsn`.
abbrev pub commands_from : ℕ → List BatchOperation → List LogCommand
commands_from next_lsn [] = []
commands_from next_lsn (operation ∷ operations) =
    command_of operation (next_lsn + 1) ∷ commands_from (next_lsn + 1) operations

pub build_commands-ok :
    (next_lsn : ℕ) (operations : List BatchOperation)
    → next_lsn + length operations < 2 ^ 64
    → build_commands next_lsn operations
      ≡ ok (commands_from next_lsn operations, next_lsn + length operations)
unfolding build_commands
build_commands-ok next_lsn [] h = ap (λ n. ok ([], n)) (omega arith)
build_commands-ok next_lsn (operation ∷ operations) h =
    let room : ltb (next_lsn + 1) (2 ^ 64) ≡ true = ground (arith, h) in
    let last : next_lsn + 1 + length operations ≡ next_lsn + suc (length operations) =
      omega arith in
    rw (room, build_commands-ok (next_lsn + 1) operations (omega (arith, h)))
      (ap
        (λ n. ok (command_of operation (next_lsn + 1) ∷ commands_from (next_lsn + 1) operations, n))
        last)

pub key_of-command :
    (operation : BatchOperation) (lsn : ℕ) → (command_of operation lsn).key ≡ key_of operation
key_of-command (put_key key value) lsn = refl
key_of-command (delete_key key) lsn = refl

pub value_of-command :
    (operation : BatchOperation) (lsn : ℕ) → (command_of operation lsn).value ≡ value_of operation
value_of-command (put_key key value) lsn = refl
value_of-command (delete_key key) lsn = refl

pub lsn-command : (operation : BatchOperation) (lsn : ℕ) → (command_of operation lsn).lsn ≡ lsn
lsn-command (put_key key value) lsn = refl
lsn-command (delete_key key) lsn = refl

pub command_of-plain :
    (operation : BatchOperation) (lsn : ℕ)
    → has_stray_value (command_of operation lsn).record_type (command_of operation lsn).value
      ≡ false
unfolding has_stray_value
command_of-plain (put_key key value) lsn = refl
command_of-plain (delete_key key) lsn = refl
