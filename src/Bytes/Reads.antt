-- ===== src/Bytes/Reads.antt =====
-- What a reader makes of the bytes in front of it, one rule for each way to build a reader.
use cere_db.Base.{
  ℕ, ◌<◌, ◌^◌, ◌≡◌, refl, ap, ◌∙◌, Bool, true, [], ◌++◌, append_assoc, append-nil, length, arith,
}
use cere_db.Error.{DbError, Result, ok}
use cere_db.Bytes.{Bytes, to_be_bytes, to_le_bytes}
use cere_db.Bytes.Reader.{Reader, pure, lift, guard, ◌>>=◌, ◌>>◌, read_exact, read_be, read_le}
use cere_db.Bytes.RoundTrip.{
  read_be-to_be_bytes, read_le-to_le_bytes, read_exact-append, read_exact_of_length,
  length-to_be_bytes,
}

-- `m` reads `xs` as `a`, and leaves whatever follows.
pub record Reads {ℓ} {A : Type ℓ} (m : Reader A) (xs : Bytes) (a : A) : Type ℓ where
  pub at : (rest : Bytes) → m (xs ++ rest) ≡ ok (a, rest)

pub Reads-at_end {ℓ} :
    {A : Type ℓ} {m : Reader A} {xs : Bytes} {a : A} → Reads m xs a → m xs ≡ ok (a, [])
Reads-at_end {m} {xs} {a} h = rw append-nil at (h.at [])

pub Reads-read_be : (w n : ℕ) → n < 256 ^ w → Reads (read_be w) (to_be_bytes w n) n
Reads-read_be w n h = record { at = λ rest. read_be-to_be_bytes w n rest h }

pub Reads-read_le : (w n : ℕ) → n < 256 ^ w → Reads (read_le w) (to_le_bytes w n) n
Reads-read_le w n h = record { at = λ rest. read_le-to_le_bytes w n rest h }

pub Reads-read_exact : (xs : Bytes) → Reads (read_exact (length xs)) xs xs
Reads-read_exact xs = record { at = read_exact-append xs }

-- A buffer that an integer fills.
pub Reads-read_bytes : (w n : ℕ) → Reads (read_exact w) (to_be_bytes w n) (to_be_bytes w n)
Reads-read_bytes w n = record {
  at = λ rest. read_exact_of_length w (to_be_bytes w n) rest (length-to_be_bytes w n);
}

pub Reads-pure {ℓ} : {A : Type ℓ} (a : A) → Reads (pure a) [] a
unfolding pure
Reads-pure a = record { at = λ rest. refl }

pub Reads-pure_eq {ℓ} : {A : Type ℓ} {a b : A} → a ≡ b → Reads (pure a) [] b
unfolding pure
Reads-pure_eq e = record { at = λ rest. ap (λ x. ok (x, rest)) e }

module _ {ℓ κ} {A : Type ℓ} {B : Type κ} where
  pub bind-ok :
      (m : Reader A) (f : A → Reader B) {s s' : Bytes} {a : A}
      → m s ≡ ok (a, s')
      → (m >>= f) s ≡ f a s'
  unfolding ◌>>=◌
  bind-ok m f {s} {s'} {a} e = ground (arith, e)

  pub Reads-bind :
      (f : A → Reader B) {m : Reader A} {xs ys : Bytes} {a : A} {b : B}
      → Reads m xs a
      → Reads (f a) ys b
      → Reads (m >>= f) (xs ++ ys) b
  Reads-bind f {m} {xs} {ys} h k = record {
    at = λ rest.
        ap (m >>= f) (append_assoc xs ys rest) ∙ bind-ok m f (h.at (ys ++ rest)) ∙ k.at rest;
  }

  -- The last piece of an encoding stands with nothing appended to it.
  pub Reads-bind_last :
      (f : A → Reader B) {m : Reader A} {xs : Bytes} {a : A} {b : B}
      → Reads m xs a
      → Reads (f a) [] b
      → Reads (m >>= f) xs b
  Reads-bind_last f {m} {xs} h k = record { at = λ rest. bind-ok m f (h.at rest) ∙ k.at rest }

  pub Reads-lift :
      (f : A → Reader B) {r : Result A} {xs : Bytes} {a : A} {b : B}
      → r ≡ ok a
      → Reads (f a) xs b
      → Reads (lift r >>= f) xs b
  unfolding lift
  Reads-lift f {r} {xs} e k = record {
    at = λ rest. bind-ok (lift r) f (ap (λ q. lift q (xs ++ rest)) e) ∙ k.at rest;
  }

pub Reads-guard {ℓ} :
    {B : Type ℓ} (e : DbError) {c : Bool} {k : Reader B} {xs : Bytes} {b : B}
    → c ≡ true
    → Reads k xs b
    → Reads (guard c e >> k) xs b
unfolding guard
Reads-guard e {k = k} {xs} h r = record {
  at = λ rest. bind-ok (guard _ e) (λ _. k) (ap (λ q. guard q e (xs ++ rest)) h) ∙ r.at rest;
}

pub ruleset reads_rules = (
  Reads-read_be, Reads-read_le, Reads-read_exact, Reads-pure, Reads-bind, Reads-bind_last,
  Reads-lift, Reads-guard,
)
