-- ===== src/Bytes/RoundTrip.antt =====
-- Integers read back from the bytes that were written, and what the readers take.
use cere_db.Base.{
  ℕ, zero, suc, ◌+◌, ◌*◌, ◌/◌, ◌%◌, ◌^◌, ◌<◌, ◌≡◌, refl, ap, [], ◌∷◌, ◌++◌, arith, length,
  length-append, take, drop,
}
use cere_db.Error.{ok}
use cere_db.Bytes.{Bytes, to_be_bytes, from_be_bytes, to_le_bytes, from_le_bytes}
use cere_db.Bytes.Reader.{◌>>=◌, read_exact, read_be, read_le}
use mathlib.Core.List.{foldl-append}
use native.Mathlib.Nat.{pow-suc}

from_be_bytes-append :
    (bs : Bytes) (b : ℕ) → from_be_bytes (bs ++ b ∷ []) ≡ from_be_bytes bs * 256 + b
unfolding from_be_bytes
from_be_bytes-append bs b = rw foldl-append

high_bytes : (w n : ℕ) → n < 256 ^ suc w → n / 256 < 256 ^ w
high_bytes w n h = omega (arith, pow-suc 256 w)

pub from_be_bytes-to_be_bytes : (w n : ℕ) → n < 256 ^ w → from_be_bytes (to_be_bytes w n) ≡ n
unfolding to_be_bytes from_be_bytes
from_be_bytes-to_be_bytes zero n h = omega arith
from_be_bytes-to_be_bytes (suc w) n h =
    rw from_be_bytes-append
      (omega (arith, from_be_bytes-to_be_bytes w (n / 256) (high_bytes w n h)))

pub from_le_bytes-to_le_bytes : (w n : ℕ) → n < 256 ^ w → from_le_bytes (to_le_bytes w n) ≡ n
unfolding to_le_bytes from_le_bytes
from_le_bytes-to_le_bytes zero n h = omega arith
from_le_bytes-to_le_bytes (suc w) n h =
    omega (arith, from_le_bytes-to_le_bytes w (n / 256) (high_bytes w n h))

pub length-to_be_bytes : (w n : ℕ) → length (to_be_bytes w n) ≡ w
unfolding to_be_bytes
length-to_be_bytes zero n = refl
length-to_be_bytes (suc w) n =
    omega (
      arith,
      length-append (to_be_bytes w (n / 256)) (n % 256 ∷ []),
      length-to_be_bytes w (n / 256),
    )

pub length-to_le_bytes : (w n : ℕ) → length (to_le_bytes w n) ≡ w
unfolding to_le_bytes
length-to_le_bytes zero n = refl
length-to_le_bytes (suc w) n = ap suc (length-to_le_bytes w (n / 256))

pub take-length-append : (xs ys : Bytes) → take (length xs) (xs ++ ys) ≡ xs
take-length-append [] ys = refl
take-length-append (x ∷ xs) ys = ap (λ t. x ∷ t) (take-length-append xs ys)

pub drop-length-append : (xs ys : Bytes) → drop (length xs) (xs ++ ys) ≡ ys
drop-length-append [] ys = refl
drop-length-append (x ∷ xs) ys = drop-length-append xs ys

pub read_exact-append : (xs rest : Bytes) → read_exact (length xs) (xs ++ rest) ≡ ok (xs, rest)
unfolding read_exact
read_exact-append xs rest =
    ground (arith, take-length-append xs rest, drop-length-append xs rest, length-append xs rest)

pub read_exact_of_length :
    (n : ℕ) (xs rest : Bytes) → length xs ≡ n → read_exact n (xs ++ rest) ≡ ok (xs, rest)
read_exact_of_length n xs rest e = rw (← e) (read_exact-append xs rest)

pub read_be-to_be_bytes :
    (w n : ℕ) (rest : Bytes) → n < 256 ^ w → read_be w (to_be_bytes w n ++ rest) ≡ ok (n, rest)
unfolding read_be ◌>>=◌
read_be-to_be_bytes w n rest h = ground (
  arith,
  read_exact_of_length w (to_be_bytes w n) rest (length-to_be_bytes w n),
  from_be_bytes-to_be_bytes w n h,
)

pub read_le-to_le_bytes :
    (w n : ℕ) (rest : Bytes) → n < 256 ^ w → read_le w (to_le_bytes w n ++ rest) ≡ ok (n, rest)
unfolding read_le ◌>>=◌
read_le-to_le_bytes w n rest h = ground (
  arith,
  read_exact_of_length w (to_le_bytes w n) rest (length-to_le_bytes w n),
  from_le_bytes-to_le_bytes w n h,
)
