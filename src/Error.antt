-- ===== src/Error.antt =====
-- error.rs: the errors of the engine, and `Result` as the value of a fallible call.
-- A formatted message keeps its fixed beginning; the numbers printed into it are left out.
use cere_db.Base.{String, Bool, true, false, if◌then◌else◌, ◌≡◌, refl, ap, ◌⊎◌, inl, inr, arith}

-- The kinds of `std::io::Error` that the modelled code meets.
pub data IoKind : Type 0 where
  unexpected_eof invalid_input already_exists other : IoKind

pub data DbError : Type 0 where
  io : IoKind → DbError
  try_into_error : DbError
  corrupted : String → DbError
  mutex_poisoned : String → DbError
  storage_error : String → DbError
  not_found : DbError

pub data Result {ℓ} (A : Type ℓ) : Type ℓ where
  ok : A → Result A
  err : DbError → Result A

-- The `?` operator.
infixl 5 ◌>>=◌
abbrev pub ◌>>=◌ {ℓ κ} : {A : Type ℓ} {B : Type κ} → Result A → (A → Result B) → Result B
ok a >>= f = f a
err e >>= f = err e

pub Result-cases {ℓ} :
    {A : Type ℓ} (r : Result A) → ((a : A) × (r ≡ ok a)) ⊎ ((e : DbError) × (r ≡ err e))
Result-cases (ok a) = inl (a, refl)
Result-cases (err e) = inr (e, refl)

-- A chain that succeeds has succeeded at its first step.
pub bind-ok_lem {ℓ κ} :
    {A : Type ℓ} {B : Type κ} (r : Result A) (f : A → Result B) (b : B)
    → (r >>= f) ≡ ok b
    → (a : A) × (r ≡ ok a) × (f a ≡ ok b)
bind-ok_lem (ok a) f b h = (a, refl, h)
bind-ok_lem (err e) f b h = absurd (ground arith)

pub eq_of_ok {ℓ} : {A : Type ℓ} (a b : A) → ok a ≡ ok b → a ≡ b
eq_of_ok a b h = ap (λ r. elim r [ ok x ↦ x | err e ↦ a ]) h

-- A chain that succeeds has passed a test that refuses.
pub refuse-ok_lem {ℓ} :
    {A : Type ℓ} (c : Bool) (e : DbError) (r : Result A) (b : A)
    → (if c then err e else r) ≡ ok b
    → (c ≡ false) × (r ≡ ok b)
refuse-ok_lem true e r b h = absurd (ground arith)
refuse-ok_lem false e r b h = (refl, h)
