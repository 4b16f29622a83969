-- ===== src/Bytes/Reader.antt =====
-- Readers over a cursor: `Read::read_exact`, and integers read through a buffer of fixed size.
-- After an error the callers return at once, so a reader that fails leaves no position behind.
use cere_db.Base.{ℕ, Bool, true, false, leb, length, take, drop, if◌then◌else◌}
use cere_db.Error.{DbError, Result, ok, err, io, unexpected_eof}
use cere_db.Bytes.{Bytes, from_be_bytes, from_le_bytes}

-- A reader takes bytes from the front of what is left, or fails.
abbrev pub Reader {ℓ} : Type ℓ → Type ℓ
Reader A = Bytes → Result (A × Bytes)

unfoldable pub pure {ℓ} : {A : Type ℓ} → A → Reader A
pure a s = ok (a, s)

-- A check that reads nothing.
unfoldable pub lift {ℓ} : {A : Type ℓ} → Result A → Reader A
lift r s = elim r [ ok a ↦ ok (a, s) | err e ↦ err e ]

-- `if !b { return Err(e) }`
unfoldable pub guard : Bool → DbError → Reader (Unit {0})
guard true e s = ok (tt, s)
guard false e s = err e

infixl 5 ◌>>=◌ ◌>>◌
-- Opening this opens the three above too.
unfoldable pub ◌>>=◌ {ℓ κ} : {A : Type ℓ} {B : Type κ} → Reader A → (A → Reader B) → Reader B
unfolding pure lift guard
◌>>=◌ m f s = elim (m s) [ ok (a, s') ↦ f a s' | err e ↦ err e ]

abbrev pub ◌>>◌ {ℓ} : {B : Type ℓ} → Reader (Unit {0}) → Reader B → Reader B
m >> k = m >>= λ _. k

-- `read_exact` on a buffer of `n` bytes.
unfoldable pub read_exact : ℕ → Reader Bytes
read_exact n s = if leb n (length s) then ok (take n s, drop n s) else err (io unexpected_eof)

-- A buffer of `w` bytes, and the integer in it.
unfoldable pub read_be : ℕ → Reader ℕ
read_be w = do buf ← read_exact w; pure (from_be_bytes buf)

unfoldable pub read_le : ℕ → Reader ℕ
read_le w = do buf ← read_exact w; pure (from_le_bytes buf)

-- `data.len() - position`, which reads nothing.
unfoldable pub remaining : Reader ℕ
remaining s = ok (length s, s)
