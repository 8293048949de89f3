-- ===== src/Prelude/Circular.antt =====
-- A circular array read as a list: the `n` items from index `s` on, going round at `size`.
use Prim.Native.Nat.{ℕ, zero, suc, ◌+◌, ◌-◌, ◌%◌, ◌≤◌, ◌<◌}
use mathlib.Core.Path.{◌≡◌, refl, ap, ap₂, ◌∙◌, sym}
use mathlib.Core.Logic.{◌≢◌}
use mathlib.Core.List.{List, [], ◌∷◌, ◌++◌}
use native.Mathlib.Nat.{mod-add-mod, mod-eq_of_lt, mod-eq-sub-mod, add-mod_right, add-zero}
use native.Mathlib.Decide.{dec_lt}
use native.Mathlib.Omega.{arith}
use meshtastic_zephyr.Prelude.Lists.{length, get_or, set, take, drop}

-- One step and `k` more are `k + 1` steps.
pub step-mod : (s k size : ℕ) → ((s + 1) % size + k) % size ≡ (s + suc k) % size
step-mod s k size = rw mod-add-mod (ap (λ t. t % size) (omega arith))

pub step_back-mod : (s size : ℕ) → s < size → ((s + size - 1) % size + 1) % size ≡ s
step_back-mod s size h = rw mod-add-mod (
    omega (
      arith,
      ap (λ t. t % size) (sum h),
      mod-eq-sub-mod {n = s + size} {m = size} (omega arith),
      mod-eq_of_lt {n = s + size - size} {m = size} (omega arith),
    ))
  where
    sum : s < size → s + size - 1 + 1 ≡ s + size
    sum h = omega arith

-- One step back from `k` steps ahead.
pub ahead_back-mod :
    (s k size : ℕ) → 0 < size → 0 < k → ((s + k) % size + size - 1) % size ≡ (s + (k - 1)) % size
ahead_back-mod s k size hs hk =
    ap (λ t. t % size) regroup
    ∙ mod-add-mod (s + k) size (size - 1)
    ∙ ap (λ t. t % size) shift
    ∙ add-mod_right (s + (k - 1)) size
  where
    regroup : (s + k) % size + size - 1 ≡ (s + k) % size + (size - 1)
    regroup = omega arith

    shift : s + k + (size - 1) ≡ s + (k - 1) + size
    shift = omega arith

-- Fewer than `size` steps forward lead to another index.
pub ahead-mod_ne : (s m size : ℕ) → s < size → 0 < m → m < size → (s + m) % size ≢ s
ahead-mod_ne s m size hs hm hl = elim (dec_lt (s + m) size) [
  | yes below ↦ omega (arith, mod-eq_of_lt {n = s + m} {m = size} below)
  | no above ↦ omega (
    arith,
    mod-eq-sub-mod {n = s + m} {m = size} (omega arith),
    mod-eq_of_lt {n = s + m - size} {m = size} (omega arith),
  )
]

module _ {ℓ} {A : Type ℓ} (d : A) where
  abbrev pub window : List A → ℕ → ℕ → ℕ → List A
  window xs size s zero = []
  window xs size s (suc n) = get_or xs s d ∷ window xs size ((s + 1) % size) n

  pub length-window : (xs : List A) (size s n : ℕ) → length (window xs size s n) ≡ n
  length-window xs size s zero = refl
  length-window xs size s (suc n) = ap suc (length-window xs size ((s + 1) % size) n)

  pub get_or-set : (xs : List A) (i j : ℕ) (v : A) → i ≢ j → get_or (set xs i v) j d ≡ get_or xs j d
  get_or-set [] i j v h = refl
  get_or-set (x ∷ xs) zero zero v h = absurd (h refl)
  get_or-set (x ∷ xs) zero (suc j) v h = refl
  get_or-set (x ∷ xs) (suc i) zero v h = refl
  get_or-set (x ∷ xs) (suc i) (suc j) v h = get_or-set xs i j v (λ e. h (ap suc e))

  pub get_or-set_self : (xs : List A) (i : ℕ) (v : A) → i < length xs → get_or (set xs i v) i d ≡ v
  get_or-set_self [] i v h = elim h [ ]
  get_or-set_self (x ∷ xs) zero v h = refl
  get_or-set_self (x ∷ xs) (suc i) v h = get_or-set_self xs i v (omega arith)

  -- A write `m` steps ahead, at or past the end of the window, is not seen in it.
  pub window-set :
      (xs : List A) (size s n m j : ℕ) (v : A)
      → s < size
      → n ≤ m
      → m < size
      → j ≡ (s + m) % size
      → window (set xs j v) size s n ≡ window xs size s n
  window-set xs size s zero m j v hs hn hm e = refl
  window-set xs size s (suc n) zero j v hs hn hm e = absurd (omega arith)
  window-set xs size s (suc n) (suc m) j v hs hn hm e =
      ap₂ ◌∷◌ (get_or-set xs j s v (rw e (ahead-mod_ne s (suc m) size hs (omega arith) hm))) (
        window-set xs size ((s + 1) % size) n m j v (omega arith) (omega arith) (omega arith)
          (e ∙ sym (step-mod s m size)))

  pub window-snoc :
      (xs : List A) (size s n j : ℕ)
      → s < size
      → j ≡ (s + n) % size
      → window xs size s (suc n) ≡ window xs size s n ++ (get_or xs j d ∷ [])
  window-snoc xs size s zero j hs e =
      ap (λ (k : ℕ). get_or xs k d ∷ []) (sym (rw (e, add-zero) (mod-eq_of_lt hs)))
  window-snoc xs size s (suc n) j hs e =
      ap (◌∷◌ (get_or xs s d))
        (window-snoc xs size ((s + 1) % size) n j (omega arith) (e ∙ sym (step-mod s n size)))

  -- The window without its first item, and without its last one.
  pub window-drop :
      (xs : List A) (size s n : ℕ)
      → window xs size ((s + 1) % size) (n - 1) ≡ drop 1 (window xs size s n)
  window-drop xs size s zero = refl
  window-drop xs size s (suc n) = ap (window xs size ((s + 1) % size)) (omega arith)

  pub window-take :
      (xs : List A) (size s n k : ℕ) → k ≤ n → window xs size s k ≡ take k (window xs size s n)
  window-take xs size s n zero h = refl
  window-take xs size s zero (suc k) h = absurd (omega arith)
  window-take xs size s (suc n) (suc k) h =
      ap (◌∷◌ (get_or xs s d)) (window-take xs size ((s + 1) % size) n k (omega arith))
