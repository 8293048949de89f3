-- ===== src/Prelude/Errors.antt =====
-- The negative return codes of the C functions, and fallible results.
use mathlib.Core.Path.{◌≡◌, refl}
use mathlib.Core.Logic.{◌⊎◌, inl, inr}

pub data Errno : Type 0 where
  einval enoent enomem enotsup eio ebadmsg ebusy eagain enomsg : Errno
  ealready ehostunreach etimedout enodev : Errno

-- `ok a` is a return value that is not negative, with what the function wrote to its outputs.
pub data Result {ℓ} (A : Type ℓ) : Type ℓ where
  ok : A → Result A
  err : Errno → Result A

infixl 5 ◌>>=◌
abbrev pub ◌>>=◌ {ℓ κ} : {A : Type ℓ} {B : Type κ} → Result A → (A → Result B) → Result B
ok a >>= f = f a
err e >>= f = err e

pub Result-cases {ℓ} :
    {A : Type ℓ} (r : Result A) → ((e : Errno) × (r ≡ err e)) ⊎ ((a : A) × (r ≡ ok a))
Result-cases (err e) = inl (e, refl)
Result-cases (ok a) = inr (a, refl)

-- Of a chain that succeeds, the first step does, and then the rest on its value.
pub first_step {ℓ} :
    {A B : Type ℓ} (next : A → Result B) (first : Result A) {last : B}
    → first >>= next ≡ ok last
    → (value : A) × (first ≡ ok value) × (next value ≡ ok last)
first_step next (ok value) done = (value, refl, done)
first_step next (err why) done = absurd (cc done)
