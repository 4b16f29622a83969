-- ===== src/Key.antt =====
-- The order of byte strings, Rust's `Ord` of `Vec<u8>` and of slices: lexicographic by bytes.
pub mod Order
use cere_db.Base.{ℕ, Bool, true, false, [], ◌∷◌, compare, Ordering}
use cere_db.Bytes.{Bytes}

unfoldable pub cmp : Bytes → Bytes → Ordering
cmp [] [] = Ordering.eq
cmp [] (y ∷ ys) = Ordering.lt
cmp (x ∷ xs) [] = Ordering.gt
cmp (x ∷ xs) (y ∷ ys) = elim (compare x y) [
  | Ordering.lt ↦ Ordering.lt
  | Ordering.gt ↦ Ordering.gt
  | Ordering.eq ↦ cmp xs ys
]

-- `a < b`, `a <= b` and `a == b` on keys.
abbrev pub key_lt : Bytes → Bytes → Bool
key_lt a b = elim (cmp a b) [ Ordering.lt ↦ true | _ ↦ false ]

abbrev pub key_le : Bytes → Bytes → Bool
key_le a b = elim (cmp a b) [ Ordering.gt ↦ false | _ ↦ true ]

abbrev pub key_eq : Bytes → Bytes → Bool
key_eq a b = elim (cmp a b) [ Ordering.eq ↦ true | _ ↦ false ]

-- `Ordering::reverse`
abbrev pub swap : Ordering → Ordering
swap Ordering.lt = Ordering.gt
swap Ordering.eq = Ordering.eq
swap Ordering.gt = Ordering.lt
