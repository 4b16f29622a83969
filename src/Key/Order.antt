-- ===== src/Key/Order.antt =====
-- Laws of the order of byte strings.
use cere_db.Base.{◌↔◌, ◌≡◌, refl, [], ◌∷◌, Ordering, arith, true, false}
use cere_db.Bytes.{Bytes}
use cere_db.Key.{cmp, swap, key_lt, key_eq}

pub cmp_refl : (a : Bytes) → cmp a a ≡ Ordering.eq
unfolding cmp
cmp_refl [] = refl
cmp_refl (x ∷ xs) = ground (arith, cmp_refl xs)

pub cmp-swap : (a b : Bytes) → cmp b a ≡ swap (cmp a b)
unfolding cmp
cmp-swap [] [] = refl
cmp-swap [] (y ∷ ys) = refl
cmp-swap (x ∷ xs) [] = refl
cmp-swap (x ∷ xs) (y ∷ ys) = ground (arith, cmp-swap xs ys)

pub eq_of_cmp : (a b : Bytes) → cmp a b ≡ Ordering.eq → a ≡ b
unfolding cmp
eq_of_cmp [] [] h = refl
eq_of_cmp [] (y ∷ ys) h = cc
eq_of_cmp (x ∷ xs) [] h = cc
eq_of_cmp (x ∷ xs) (y ∷ ys) h = ground (arith, eq_of_cmp xs ys)

pub cmp_trans :
    (a b c : Bytes) → cmp a b ≡ Ordering.lt → cmp b c ≡ Ordering.lt → cmp a c ≡ Ordering.lt
unfolding cmp
cmp_trans [] [] c h k = cc
cmp_trans [] (y ∷ ys) [] h k = cc
cmp_trans [] (y ∷ ys) (z ∷ zs) h k = refl
cmp_trans (x ∷ xs) [] c h k = cc
cmp_trans (x ∷ xs) (y ∷ ys) [] h k = cc
cmp_trans (x ∷ xs) (y ∷ ys) (z ∷ zs) h k = ground (arith, cmp_trans xs ys zs)

-- The same for the tests on keys; `key_lt b a ≡ false` is `a ≤ b`.
pub key_lt_asymm : (a b : Bytes) → key_lt a b ≡ true → key_lt b a ≡ false
key_lt_asymm a b h = ground (arith, cmp-swap a b)

pub key_lt_irrefl : (a : Bytes) → key_lt a a ≡ false
key_lt_irrefl a = ground (arith, cmp_refl a)

pub key_lt_trans : (a b c : Bytes) → key_lt a b ≡ true → key_lt b c ≡ true → key_lt a c ≡ true
key_lt_trans a b c h k = ground (arith, cmp_trans a b c)

eq_of_not_lt : (a b : Bytes) → key_lt b a ≡ false → key_lt a b ≡ false → a ≡ b
eq_of_not_lt a b h k = eq_of_cmp a b (ground (arith, cmp-swap a b))

pub key_le_lt_trans : (a b c : Bytes) → key_lt b a ≡ false → key_lt b c ≡ true → key_lt a c ≡ true
key_le_lt_trans a b c h k = ground (arith, key_lt_trans a b c, eq_of_not_lt a b)

pub key_lt_le_trans : (a b c : Bytes) → key_lt a b ≡ true → key_lt c b ≡ false → key_lt a c ≡ true
key_lt_le_trans a b c h k = ground (arith, key_lt_trans a b c, eq_of_not_lt b c)

pub key_le_trans : (a b c : Bytes) → key_lt b a ≡ false → key_lt c b ≡ false → key_lt c a ≡ false
key_le_trans a b c h k = ground (arith, key_lt_le_trans c a b, key_lt_irrefl c)

pub key_eq_iff : (a b : Bytes) → (key_eq a b ≡ true) ↔ (a ≡ b)
key_eq_iff a b = (λ h. eq_of_cmp a b (ground arith), λ e. ground (arith, cmp_refl b))
