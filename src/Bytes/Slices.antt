-- ===== src/Bytes/Slices.antt =====
-- Slices `bytes[n..n + w]` of bytes that are put together of pieces.
use cere_db.Base.{
  ℕ, zero, suc, ◌+◌, ◌-◌, ◌≤◌, ◌<◌, ◌^◌, ◌≡◌, refl, sym, ap, ◌∙◌, [], ◌∷◌, ◌++◌, append-nil, length,
  length-append, take, drop, arith,
}
use cere_db.Bytes.{Bytes, to_be_bytes, from_be_bytes}
use cere_db.Bytes.RoundTrip.{
  take-length-append, drop-length-append, from_be_bytes-to_be_bytes, length-to_be_bytes,
}

pub take_of_length : (n : ℕ) (xs ys : Bytes) → length xs ≡ n → take n (xs ++ ys) ≡ xs
take_of_length n xs ys e = rw (← e) (take-length-append xs ys)

pub drop_of_length : (n : ℕ) (xs ys : Bytes) → length xs ≡ n → drop n (xs ++ ys) ≡ ys
drop_of_length n xs ys e = rw (← e) (drop-length-append xs ys)

pub take_all : (n : ℕ) (xs : Bytes) → length xs ≡ n → take n xs ≡ xs
take_all n xs e = ap (take n) (sym (append-nil xs)) ∙ take_of_length n xs [] e

-- The integer behind `before`.
pub slice_number :
    (w n value : ℕ) (before after : Bytes)
    → length before ≡ n
    → value < 256 ^ w
    → from_be_bytes (take w (drop n (before ++ (to_be_bytes w value ++ after)))) ≡ value
slice_number w n value before after e h =
    ap (λ bs. from_be_bytes (take w bs)) (drop_of_length n before (to_be_bytes w value ++ after) e)
    ∙ ap from_be_bytes (take_of_length w (to_be_bytes w value) after (length-to_be_bytes w value))
    ∙ from_be_bytes-to_be_bytes w value h

pub slice_number_last :
    (w n value : ℕ) (before : Bytes)
    → length before ≡ n
    → value < 256 ^ w
    → from_be_bytes (take w (drop n (before ++ to_be_bytes w value))) ≡ value
slice_number_last w n value before e h =
    ap (λ bs. from_be_bytes (take w (drop n (before ++ bs))))
      (sym (append-nil (to_be_bytes w value)))
    ∙ slice_number w n value before [] e h

pub length-to_be_bytes-append :
    (w n : ℕ) (ys : Bytes) → length (to_be_bytes w n ++ ys) ≡ w + length ys
length-to_be_bytes-append w n ys =
    omega (arith, length-append (to_be_bytes w n) ys, length-to_be_bytes w n)

pub take-append_ge :
    (n : ℕ) (xs ys : Bytes) → length xs ≤ n → take n (xs ++ ys) ≡ xs ++ take (n - length xs) ys
take-append_ge n [] ys h = ap (λ k. take k ys) (omega arith)
take-append_ge zero (x ∷ xs) ys h = absurd (omega (arith, h))
take-append_ge (suc n) (x ∷ xs) ys h =
    ap (λ t. x ∷ t) (take-append_ge n xs ys (omega arith) ∙ ap (λ k. xs ++ take k ys) (omega arith))

pub take-append_le : (n : ℕ) (xs ys : Bytes) → n ≤ length xs → take n (xs ++ ys) ≡ take n xs
take-append_le zero xs ys h = refl
take-append_le (suc n) [] ys h = absurd (omega (arith, h))
take-append_le (suc n) (x ∷ xs) ys h = ap (λ t. x ∷ t) (take-append_le n xs ys (omega arith))

pub take-nil : (n : ℕ) → take {A = ℕ} n [] ≡ []
take-nil zero = refl
take-nil (suc n) = refl
