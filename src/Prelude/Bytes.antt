-- ===== src/Prelude/Bytes.antt =====
-- Laws of `&`, `|` and `^` on bytes, read off tables of all values, and little-endian words.
use Prim.Native.Nat.{ℕ, zero, suc, ◌+◌, ◌*◌, ◌/◌, ◌%◌, ◌^◌, ◌<◌, bit_and}
use mathlib.Core.Path.{◌≡◌, refl}
use mathlib.Core.Bool.{Bool, true, ◌&&◌}
use mathlib.Core.List.{List, [], ◌∷◌}
use native.Mathlib.Omega.{arith}
use meshtastic_zephyr.Prelude.Tests.{◌==◌, ==_iff}

-- A test on bytes or smaller words is decided by running it on every one.
unfoldable pub every : (ℕ → Bool) → ℕ → Bool
every test zero = true
every test (suc last) = every test last && test last

module _ (test : ℕ → Bool) where
  pub at-every : {byte : ℕ} (size : ℕ) → byte < size → every test size ≡ true → test byte ≡ true
  unfolding every
  at-every {byte} zero below passed = absurd (omega arith)
  at-every {byte} (suc last) below passed = ground (arith, at-every {byte = byte} last)

-- `sys_put_le32` and `sys_get_le32`, also the layout of a packed `uint32_t` in wire order.
unfoldable pub put_le32 : ℕ → List ℕ
put_le32 n = n % 256 ∷ n / 256 % 256 ∷ n / 65536 % 256 ∷ n / 16777216 % 256 ∷ []

unfoldable pub get_le32 : ℕ → ℕ → ℕ → ℕ → ℕ
get_le32 a b c d = a + b * 256 + c * 65536 + d * 16777216

pub get_le32-put :
    (n : ℕ)
    → n < 2 ^ 32
    → get_le32 (n % 256) (n / 256 % 256) (n / 65536 % 256) (n / 16777216 % 256) ≡ n
unfolding get_le32
get_le32-put n h = omega arith

and_seven_table : every (λ x. bit_and x 7 == x % 8) 256 ≡ true
unfolding every
and_seven_table = refl

pub bit_and_seven : (x : ℕ) → x < 256 → bit_and x 7 ≡ x % 8
bit_and_seven x h = (==_iff _ _).0 (at-every _ {byte = x} 256 h and_seven_table)
