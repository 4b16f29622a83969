-- ===== src/Ord.antt =====
-- Rust's `Ord` as an interface, and the orders of byte strings and of integers.
use cere_db.Base.{ℕ, ◌≡◌, compare, Ordering, arith}
use cere_db.Bytes.{Bytes}
use cere_db.Key.{swap}
use cere_db.Key
use cere_db.Key.Order

pub record Ord (K : Type 0) : Type 0 where
  pub cmp : K → K → Ordering
  pub cmp_refl : (a : K) → cmp a a ≡ Ordering.eq
  pub cmp-swap : (a b : K) → cmp b a ≡ swap (cmp a b)
  pub eq_of_cmp : (a b : K) → cmp a b ≡ Ordering.eq → a ≡ b
  pub cmp_trans :
      (a b c : K) → cmp a b ≡ Ordering.lt → cmp b c ≡ Ordering.lt → cmp a c ≡ Ordering.lt

pub compare_refl : (a : ℕ) → compare a a ≡ Ordering.eq
compare_refl a = ground arith

pub compare-swap : (a b : ℕ) → compare b a ≡ swap (compare a b)
compare-swap a b = ground arith

pub eq_of_compare : (a b : ℕ) → compare a b ≡ Ordering.eq → a ≡ b
eq_of_compare a b h = ground arith

pub compare_trans :
    (a b c : ℕ) → compare a b ≡ Ordering.lt → compare b c ≡ Ordering.lt → compare a c ≡ Ordering.lt
compare_trans a b c h k = ground arith

instance abbrev pub bytes_ord : Ord Bytes
bytes_ord = record {
  cmp = Key.cmp;
  cmp_refl = Order.cmp_refl;
  cmp-swap = Order.cmp-swap;
  eq_of_cmp = Order.eq_of_cmp;
  cmp_trans = Order.cmp_trans;
}

instance abbrev pub nat_ord : Ord ℕ
nat_ord = record {
  cmp = compare;
  cmp_refl = compare_refl;
  cmp-swap = compare-swap;
  eq_of_cmp = eq_of_compare;
  cmp_trans = compare_trans;
}
