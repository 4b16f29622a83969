-- ===== src/Bytes/Ends.antt =====
-- Readers that read a slice to its end, where they may ask how much is left.
use cere_db.Base.{ℕ, ◌≤◌, ◌≡◌, refl, ap, ◌∙◌, Bool, true, [], ◌++◌, length, length-append, arith}
use cere_db.Error.{DbError, Result, ok}
use cere_db.Bytes.{Bytes}
use cere_db.Bytes.Reader.{Reader, pure, lift, guard, remaining, ◌>>=◌, ◌>>◌}
use cere_db.Bytes.Reads.{Reads, Reads-at_end, bind-ok}

-- `m` reads all of `xs` as `a`.
pub record Ends {ℓ} {A : Type ℓ} (m : Reader A) (xs : Bytes) (a : A) : Type ℓ where
  pub at : m xs ≡ ok (a, [])

pub Ends-Reads {ℓ} : {A : Type ℓ} {m : Reader A} {xs : Bytes} {a : A} → Reads m xs a → Ends m xs a
Ends-Reads h = record { at = Reads-at_end h }

pub Ends-pure_eq {ℓ} : {A : Type ℓ} {a b : A} → a ≡ b → Ends (pure a) [] b
unfolding pure
Ends-pure_eq e = record { at = ap (λ x. ok (x, [])) e }

module _ {ℓ κ} {A : Type ℓ} {B : Type κ} where
  pub Ends-bind :
      (f : A → Reader B) {m : Reader A} {xs ys : Bytes} {a : A} {b : B}
      → Reads m xs a
      → Ends (f a) ys b
      → Ends (m >>= f) (xs ++ ys) b
  Ends-bind f {m} {xs} {ys} h k = record { at = bind-ok m f (h.at ys) ∙ k.at }

  -- The first reader reads all there is.
  pub Ends-then :
      (f : A → Reader B) {m : Reader A} {xs : Bytes} {a : A} {b : B}
      → Ends m xs a
      → Ends (f a) [] b
      → Ends (m >>= f) xs b
  Ends-then f {m} h k = record { at = bind-ok m f h.at ∙ k.at }

  pub Ends-lift :
      (f : A → Reader B) {r : Result A} {xs : Bytes} {a : A} {b : B}
      → r ≡ ok a
      → Ends (f a) xs b
      → Ends (lift r >>= f) xs b
  unfolding lift
  Ends-lift f {r} {xs} e k = record { at = bind-ok (lift r) f (ap (λ q. lift q xs) e) ∙ k.at }

module _ {κ} {B : Type κ} where
  pub Ends-guard :
      (e : DbError) {c : Bool} {k : Reader B} {xs : Bytes} {b : B}
      → c ≡ true
      → Ends k xs b
      → Ends (guard c e >> k) xs b
  unfolding guard
  Ends-guard e {k = k} {xs} h r = record {
    at = bind-ok (guard _ e) (λ _. k) (ap (λ q. guard q e xs) h) ∙ r.at;
  }

  pub Ends-remaining :
      (f : ℕ → Reader B) {xs : Bytes} {b : B}
      → Ends (f (length xs)) xs b
      → Ends (remaining >>= f) xs b
  unfolding remaining
  Ends-remaining f {xs} k = record { at = bind-ok remaining f refl ∙ k.at }

  -- A reader that needs no more than `xs` reads the same whatever is left behind it.
  pub Reads-remaining :
      (f : ℕ → Reader B) {xs : Bytes} {b : B}
      → ((n : ℕ) → length xs ≤ n → Reads (f n) xs b)
      → Reads (remaining >>= f) xs b
  unfolding remaining
  Reads-remaining f {xs} k = record {
    at = λ rest.
        bind-ok remaining f refl
        ∙ (k (length (xs ++ rest)) (omega (arith, length-append xs rest))).at rest;
  }
