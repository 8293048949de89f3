-- ===== src/DupCache.antt =====
-- The duplicate cache of src/meshtastic_router.c: `dup_check`, `dup_add` and what the ring remembers.
pub mod Memory
mod Tests
use meshtastic_zephyr.Prelude.{
  ℕ, zero, suc, ◌+◌, ◌-◌, ◌%◌, ◌≤◌, ◌<◌, ◌==◌, ltb, ◌≡◌, refl, sym, ap, ap₂, ◌∙◌, Bool, true, false,
  ◌&&◌, ◌||◌, List, [], ◌∷◌, ◌++◌, append_assoc, append-nil, arith, length, length-set,
  length-append, length-drop, length-replicate, length-take, set, take, drop, replicate,
  if◌then◌else◌, dec_lt, drop-add_one, min,
}
use native.Mathlib.Numerals.{add-one}
use native.Mathlib.Nat.{mod-eq_of_lt}

-- `struct meshtastic_dup_entry`, and the ring with its head; its size is that of the array.
pub record DupEntry : Type 0 where
  pub src : ℕ
  pub id : ℕ

pub record DupCache : Type 0 where
  pub entries : List DupEntry
  pub head : ℕ

abbrev pub zero_dup : DupEntry
zero_dup = record { src = 0; id = 0 }

-- The `memset` of `meshtastic_init`
unfoldable pub init : ℕ → DupCache
init size = record { entries = replicate size zero_dup; head = 0 }

-- The search of `dup_check`
unfoldable pub found : ℕ → ℕ → List DupEntry → Bool
found src id [] = false
found src id (e ∷ es) = (e.src == src) && (e.id == id) || found src id es

-- `dup_check`, but for the counter, which the router adds to
unfoldable pub dup_check : DupCache → ℕ → ℕ → Bool
dup_check c src id = found src id c.entries

-- `dup_add`; the head is a `uint8_t`
unfoldable pub dup_add : ℕ → DupEntry → DupCache → DupCache
dup_add size e c = record { entries = set c.entries c.head e; head = (c.head + 1) % size % 256 }
