-- ===== src/Bytes.antt =====
-- Byte strings, integers in them, and readers over them: `to_be_bytes`, `from_be_bytes` and their
-- little-endian versions of Rust's integers, and `Read::read_exact` over a cursor.

pub mod Reader
pub mod Ends
pub mod Reads
pub mod RoundTrip
pub mod Slices
use cere_db.Base.{ℕ, zero, suc, ◌+◌, ◌*◌, ◌/◌, ◌%◌, ◌<◌, List, [], ◌∷◌, ◌++◌}
use mathlib.Core.List.{foldl}

abbrev pub Bytes : Type 0
Bytes = List ℕ

-- The `w` bytes of `n`, the most significant first; what does not fit is cut off.
unfoldable pub to_be_bytes : ℕ → ℕ → Bytes
to_be_bytes zero n = []
to_be_bytes (suc w) n = to_be_bytes w (n / 256) ++ (n % 256) ∷ []

unfoldable pub from_be_bytes : Bytes → ℕ
from_be_bytes = foldl (λ acc b. acc * 256 + b) 0

-- The same, the least significant byte first.
unfoldable pub to_le_bytes : ℕ → ℕ → Bytes
to_le_bytes zero n = []
to_le_bytes (suc w) n = (n % 256) ∷ to_le_bytes w (n / 256)

unfoldable pub from_le_bytes : Bytes → ℕ
from_le_bytes [] = 0
from_le_bytes (b ∷ bs) = b + 256 * from_le_bytes bs

abbrev pub IsByte : ℕ → Type 0
IsByte b = b < 256
