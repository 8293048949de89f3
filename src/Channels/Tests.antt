-- ===== src/Channels/Tests.antt =====
-- The channel table of src/meshtastic_channels.c: the default slot 0, and slot 1 made PRIMARY.
use meshtastic_zephyr.Prelude.{
  ℕ, zero, suc, ◌+◌, ◌≤◌, ◌<◌, ◌≡◌, ◌≢◌, refl, ◌⊎◌, true, false, List, [], ◌∷◌, ◌++◌, none, some,
  ok, arith, length, set, get_or, replicate,
}
use meshtastic_zephyr.Messages.{Channel, primary, secondary, zero_channel, zero_settings}
use meshtastic_zephyr.Channels.{
  Channels, other_role, all, slot, is_primary, default_psk, long_fast, get_key, get_key_fuel,
  inherits, own_key, expand_short_psk, set_slot, store, store_and_demote, demote_other_primary,
  demote_from, demote_one, fixup, fixed_slot, generate_hash, hash_of, xor_hash_bytes, get_name,
  refresh,
}
use meshtastic_zephyr.Channels.Key.{own_answer, key_slot, get_key-returns}
use meshtastic_zephyr.Channels.Primary.{IsTable, set_slot-IsTable}
use meshtastic_zephyr.Channels.Hash.{IsCoherent, fixed_table, set_slot_hashes}
use meshtastic_zephyr.Channels.Diverge.{set_slot-diverges}

abbrev primary_slot : Channel
primary_slot = record {
  index = 0;
  has_settings = true;
  settings = record zero_settings { name = long_fast; psk = default_psk };
  role = primary;
}

abbrev free_slot : Channel
free_slot = record zero_channel { has_settings = true }

abbrev table_of : Channel → List Channel
table_of ch =
    ch ∷ free_slot ∷ free_slot ∷ free_slot ∷ free_slot ∷ free_slot ∷ free_slot ∷ free_slot ∷ []

abbrev test_table : Channels
test_table = record {
  slots = table_of primary_slot;
  hashes = 8 ∷ 0 ∷ 0 ∷ 0 ∷ 0 ∷ 0 ∷ 0 ∷ 0 ∷ [];
  primary_index = 0;
  device_role = other_role 0;
  rebroadcast_mode = all;
  ch_hash = 8;
  channel_name = long_fast;
}

only_first : (j : ℕ) → j < 8 → is_primary (slot test_table j).role ≡ true → j ≡ 0
only_first zero lt p = refl
only_first (suc zero) lt p = ground arith
only_first (suc (suc zero)) lt p = ground arith
only_first (suc (suc (suc zero))) lt p = ground arith
only_first (suc (suc (suc (suc zero)))) lt p = ground arith
only_first (suc (suc (suc (suc (suc zero))))) lt p = ground arith
only_first (suc (suc (suc (suc (suc (suc zero)))))) lt p = ground arith
only_first (suc (suc (suc (suc (suc (suc (suc zero))))))) lt p = ground arith
only_first (suc (suc (suc (suc (suc (suc (suc (suc j)))))))) lt p = absurd (omega arith)

test_table-IsTable : IsTable test_table
test_table-IsTable = record { eight = refl; index_in = omega arith; unique = only_first }

-- A PRIMARY channel "a" with the default key
abbrev new_primary : Channel
new_primary = record {
  index = 0;
  has_settings = true;
  settings = record zero_settings { name = b'a' ∷ []; psk = 1 ∷ [] };
  role = primary;
}

abbrev changed_table : Channels
changed_table = record test_table {
  slots =
      set (table_of (record primary_slot { role = secondary })) 1
        (record new_primary { index = 1 });
  hashes = 8 ∷ 99 ∷ 0 ∷ 0 ∷ 0 ∷ 0 ∷ 0 ∷ 0 ∷ [];
  primary_index = 1;
  ch_hash = 99;
  channel_name = b'a' ∷ [];
}

test_set : set_slot test_table 1 (some new_primary) ≡ some (ok changed_table)
unfolding set_slot store_and_demote store demote_other_primary demote_from demote_one fixup
    fixed_slot generate_hash hash_of xor_hash_bytes get_name get_key get_key_fuel own_key
    expand_short_psk refresh
test_set = refl

set_slot-IsTable_example : IsTable changed_table
set_slot-IsTable_example =
    set_slot-IsTable test_table changed_table 1 new_primary test_table-IsTable test_set

set_slot_hashes_example :
    IsCoherent changed_table 1
    × ((is_primary new_primary.role ≡ false) ⊎ (1 ≡ test_table.primary_index)
        → (j : ℕ) → j ≢ 1
        → get_or changed_table.hashes j 0 ≡ get_or test_table.hashes j 0)
set_slot_hashes_example =
    set_slot_hashes test_table changed_table 1 new_primary test_table-IsTable refl test_set

own_keys : inherits test_table (key_slot test_table 0) ≡ false
unfolding inherits key_slot
own_keys = refl

get_key-returns_example :
    (get_key_fuel (3 + 2) test_table 0 ≡ some (own_answer test_table (key_slot test_table 0)))
    × (get_key test_table 0 ≡ some (own_answer test_table (key_slot test_table 0)))
get_key-returns_example = get_key-returns test_table 0 3 own_keys

test_psks : (j : ℕ) → length (slot test_table j).settings.psk ≤ 32
test_psks zero = omega arith
test_psks (suc zero) = omega arith
test_psks (suc (suc zero)) = omega arith
test_psks (suc (suc (suc zero))) = omega arith
test_psks (suc (suc (suc (suc zero)))) = omega arith
test_psks (suc (suc (suc (suc (suc zero))))) = omega arith
test_psks (suc (suc (suc (suc (suc (suc zero)))))) = omega arith
test_psks (suc (suc (suc (suc (suc (suc (suc zero))))))) = omega arith
test_psks (suc (suc (suc (suc (suc (suc (suc (suc j)))))))) = omega arith

test_key :
    get_key test_table 0 ≡ some (ok (record { bytes = default_psk ++ replicate 16 0; len = 16 }))
unfolding get_key get_key_fuel own_key
test_key = refl

-- Slot 0 SECONDARY and without a key of its own, but still the primary one
abbrev keyless : Channel
keyless = record primary_slot {
  role = secondary;
  settings = record zero_settings { name = long_fast };
}

abbrev broken_table : Channels
broken_table = record test_table { slots = table_of keyless }

broken_inherits : inherits broken_table 0 ≡ true
unfolding inherits
broken_inherits = refl

set_slot-diverges_example :
    ((depth : ℕ) → get_key_fuel depth (fixed_table (store test_table 0 keyless) 0) 0 ≡ none)
    × (set_slot test_table 0 (some keyless) ≡ none)
set_slot-diverges_example = set_slot-diverges test_table keyless test_table-IsTable refl refl refl
