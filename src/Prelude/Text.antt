-- ===== src/Prelude/Text.antt =====
-- C strings as the bytes before their NUL, and what the sources use of <string.h> and <stdlib.h>.
use Prim.Native.Char.{code}
use Prim.Native.String.{String}
use Prim.Native.Nat.{ℕ, ◌+◌, ◌-◌, ◌*◌, ◌%◌}
use mathlib.Core.Path.{◌≡◌, refl}
use mathlib.Core.Bool.{Bool, true, false, ◌&&◌, ◌||◌}
use mathlib.Core.List.{List, [], ◌∷◌, ◌++◌}
use mathlib.Core.Option.{Option, none, some}
use native.Mathlib.Omega.{arith}
use meshtastic_zephyr.Prelude.Tests.{ltb, leb, ◌==◌, if◌then◌else◌}

-- A literal's bytes; every literal here is ASCII.
abbrev pub codes : String → List ℕ
codes String.[] = []
codes (String.◌∷◌ c s) = code c ∷ codes s

-- `strncmp(s, prefix, strlen(prefix)) == 0`, with `s + strlen(prefix)`.
abbrev pub after_prefix : List ℕ → List ℕ → Option (List ℕ)
after_prefix [] s = some s
after_prefix (p ∷ prefix) [] = none
after_prefix (p ∷ prefix) (c ∷ s) = if p == c then after_prefix prefix s else none

pub after_prefix-append : (p s : List ℕ) → after_prefix p (p ++ s) ≡ some s
after_prefix-append [] s = refl
after_prefix-append (c ∷ p) s = ground (arith, after_prefix-append p s)

-- The characters of a buffer up to its first NUL.
abbrev pub until_nul : List ℕ → List ℕ
until_nul [] = []
until_nul (c ∷ s) = if c == 0 then [] else c ∷ until_nul s

abbrev pub is_space : ℕ → Bool
is_space c = c == 32 || leb 9 c && leb c 13

abbrev pub is_digit : ℕ → Bool
is_digit c = leb b'0' c && leb c b'9'

abbrev pub skip_spaces : List ℕ → List ℕ
skip_spaces [] = []
skip_spaces (c ∷ s) = if is_space c then skip_spaces s else c ∷ s

-- The value of the leading digits after `acc`, and what follows them.
abbrev pub digits : ℕ → List ℕ → ℕ × List ℕ
digits acc [] = (acc, [])
digits acc (c ∷ s) = if is_digit c then digits (acc * 10 + (c - b'0')) s else (acc, c ∷ s)

-- `strtoul` past the sign: with no digit nothing is converted, and `end` is the whole text.
abbrev pub strtoul_digits : ℕ → Bool → List ℕ → List ℕ → ℕ × List ℕ
strtoul_digits ulong_max minus whole [] = (0, whole)
strtoul_digits ulong_max minus whole (c ∷ s) =
    let (n, end) = digits 0 (c ∷ s) in
    if is_digit c
    then (
      (if ltb ulong_max n
          then ulong_max
          else if minus
          then (ulong_max + 1 - n) % (ulong_max + 1)
          else n),
      end,
    )
    else (0, whole)

abbrev pub strtoul_signed : ℕ → List ℕ → List ℕ → ℕ × List ℕ
strtoul_signed ulong_max whole [] = (0, whole)
strtoul_signed ulong_max whole (c ∷ s) =
    if c == b'-'
    then strtoul_digits ulong_max true whole s
    else if c == b'+'
    then strtoul_digits ulong_max false whole s
    else strtoul_digits ulong_max false whole (c ∷ s)

-- `strtoul(s, &end, 10)`: the value, at most `ulong_max`, and the text at `end`.
abbrev pub strtoul : ℕ → List ℕ → ℕ × List ℕ
strtoul ulong_max s = strtoul_signed ulong_max s (skip_spaces s)
