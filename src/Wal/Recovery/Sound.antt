-- ===== src/Wal/Recovery/Sound.antt =====
-- What an analysis knows of the transactions it has met, and one more frame.
use cere_db.Base.{
  ℕ, ◌≤◌, ◌<◌, ◌≡◌, refl, ◌∙◌, true, false, ◌==◌, Bool, Bool-cases, inl, inr, List, [], ◌∷◌, ◌++◌,
  append-nil, arith, All, if◌then◌else◌,
}
use cere_db.Ord.{nat_ord}
use cere_db.TreeMap
use cere_db.TreeMap.{TreeMap, is_eq}
use cere_db.TreeMap.Laws.{get-insert}
use cere_db.LogStore.{LogCommand}
use cere_db.Wal.{LoggedUpdate, IdSet, Analysis}
use cere_db.Wal.Recovery.{has_id, previous_of, is_committed}

pub has_id-insert :
    (id k : ℕ) (ids : IdSet)
    → has_id k (TreeMap.insert id tt ids) ≡ (if k == id then Bool.true else has_id k ids)
unfolding has_id
has_id-insert id k ids = rw (get-insert id k tt ids) (ground arith)

-- The commands of committed transactions, in the order of the log.
unfoldable pub committed_commands : IdSet → List LoggedUpdate → List LogCommand
unfolding is_committed
committed_commands committed [] = []
committed_commands committed (u ∷ us) =
    let rest = committed_commands committed us in
    if is_committed committed u then u.command ∷ rest else rest

pub committed_commands-append :
    (c : IdSet) (us vs : List LoggedUpdate)
    → committed_commands c (us ++ vs) ≡ committed_commands c us ++ committed_commands c vs
unfolding committed_commands
committed_commands-append c [] vs = refl
committed_commands-append c (u ∷ us) vs = elim (Bool-cases (is_committed c u)) [
  | inl e ↦ rw (e, committed_commands-append c us vs) refl
  | inr e ↦ rw (e, committed_commands-append c us vs) refl
]

abbrev pub IsOlder : ℕ → LoggedUpdate → Type 0
IsOlder n u = u.transaction_id ≤ n

-- A transaction that has not been met changes nothing.
pub committed_commands-insert :
    (c : IdSet) (n id : ℕ) (us : List LoggedUpdate)
    → n < id
    → All (IsOlder n) us
    → committed_commands (TreeMap.insert id tt c) us ≡ committed_commands c us
unfolding committed_commands is_committed
committed_commands-insert c n id [] h older = refl
committed_commands-insert c n id (u ∷ us) h older =
    let other : (u.transaction_id == id) ≡ false = ground (arith, h, older.0) in
    rw (has_id-insert id u.transaction_id c, other, committed_commands-insert c n id us h older.1)
      refl

-- Transactions are known only up to the last number.
pub record IsSound (a : Analysis) : Type 0 where
  pub updates : All (IsOlder a.latest_lsn) a.updates
  pub previous : (k : ℕ) → a.latest_lsn < k → previous_of k a ≡ 0
  pub committed : (k : ℕ) → a.latest_lsn < k → has_id k a.committed_transactions ≡ false
  pub modern : a.legacy ≡ []

abbrev pub commands : Analysis → List LogCommand
commands a = committed_commands a.committed_transactions a.updates

pub previous_of-insert :
    (id lsn k : ℕ) (a b : Analysis)
    → b.previous_lsns ≡ TreeMap.insert id lsn a.previous_lsns
    → previous_of k b ≡ (if k == id then lsn else previous_of k a)
unfolding previous_of
previous_of-insert id lsn k a b e = rw (e, get-insert id k lsn a.previous_lsns) (ground arith)

-- One more update.
pub committed_commands-hit :
    (c : IdSet) (us : List LoggedUpdate) (u : LoggedUpdate)
    → has_id u.transaction_id c ≡ true
    → committed_commands c (us ++ u ∷ []) ≡ committed_commands c us ++ u.command ∷ []
unfolding committed_commands is_committed
committed_commands-hit c us u h = committed_commands-append c us (u ∷ []) ∙ rw h refl

pub committed_commands-miss :
    (c : IdSet) (us : List LoggedUpdate) (u : LoggedUpdate)
    → has_id u.transaction_id c ≡ false
    → committed_commands c (us ++ u ∷ []) ≡ committed_commands c us
unfolding committed_commands is_committed
committed_commands-miss c us u h =
    committed_commands-append c us (u ∷ []) ∙ rw h (append-nil (committed_commands c us))
