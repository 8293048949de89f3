-- ===== src/Prelude/Arrays.antt =====
-- An array with a default out of range, and writes to it.
use Prim.Native.Nat.{ℕ, zero, suc, ◌-◌, ◌<◌}
use mathlib.Core.Path.{◌≡◌, refl}
use mathlib.Core.List.{List, [], ◌∷◌}
use native.Mathlib.Omega.{arith}
use meshtastic_zephyr.Prelude.Lists.{length, get_or, set}

module _ {ℓ} {A : Type ℓ} where
  -- A write of `ys`' entry keeps an entry that is `ys`' already.
  pub get_or-set_keep :
      (xs ys : List A) (i j : ℕ) (d : A)
      → i < length xs
      → get_or xs j d ≡ get_or ys j d
      → get_or (set xs i (get_or ys i d)) j d ≡ get_or ys j d
  get_or-set_keep [] ys i j d h e = absurd (omega arith)
  get_or-set_keep (x ∷ xs) [] zero zero d h e = refl
  get_or-set_keep (x ∷ xs) (y ∷ ys) zero zero d h e = refl
  get_or-set_keep (x ∷ xs) ys zero (suc j) d h e = e
  get_or-set_keep (x ∷ xs) ys (suc i) zero d h e = e
  get_or-set_keep (x ∷ xs) [] (suc i) (suc j) d h e = get_or-set_keep xs [] i j d (omega arith) e
  get_or-set_keep (x ∷ xs) (y ∷ ys) (suc i) (suc j) d h e =
      get_or-set_keep xs ys i j d (omega arith) e

  pub get_or-ext :
      (xs ys : List A) (d : A)
      → length xs ≡ length ys
      → ((i : ℕ) → i < length ys → get_or xs i d ≡ get_or ys i d)
      → xs ≡ ys
  get_or-ext [] [] d e same = refl
  get_or-ext [] (y ∷ ys) d e same = absurd (omega arith)
  get_or-ext (x ∷ xs) [] d e same = absurd (omega arith)
  get_or-ext (x ∷ xs) (y ∷ ys) d e same =
      cc
        (same 0 (omega arith), get_or-ext xs ys d (omega arith) (λ i h. same (suc i) (omega arith)))

module _ {ℓ κ} {A : Type ℓ} where
  -- What holds of each entry holds after one more is written.
  pub get_or-set_each :
      (P : ℕ → A → Type κ) (xs : List A) (i : ℕ) (v d : A) (n : ℕ)
      → P i v
      → ((j : ℕ) → j < n → P j (get_or xs j d))
      → (j : ℕ) → j < n
      → P j (get_or (set xs i v) j d)
  get_or-set_each P [] i v d n new old j lt = old j lt
  get_or-set_each P (x ∷ xs) zero v d n new old zero lt = new
  get_or-set_each P (x ∷ xs) zero v d n new old (suc j) lt = old (suc j) lt
  get_or-set_each P (x ∷ xs) (suc i) v d n new old zero lt = old zero lt
  get_or-set_each P (x ∷ xs) (suc i) v d n new old (suc j) lt =
      get_or-set_each (λ k. P (suc k)) xs i v d (n - 1) new (λ k h. old (suc k) (omega arith)) j
        (omega arith)
