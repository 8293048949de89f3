-- ===== src/Channels/Diverge.antt =====
-- The slot that makes `channel_get_key`, called by `set_slot` of src/meshtastic_channels.c, call itself
-- without end.
use meshtastic_zephyr.Prelude.{
  ℕ, leb, ◌≡◌, inl, true, false, [], none, some, arith, length-set, set, get_or, get_or-set_self,
}
use meshtastic_zephyr.Messages.{Channel, secondary, zero_channel}
use meshtastic_zephyr.Channels.{
  Channels, max_channels, is_primary, inherits, fixed_slot, fixup, store, set_slot, get_key,
  get_key_fuel, generate_hash,
}
use meshtastic_zephyr.Channels.Key.{get_key-diverges}
use meshtastic_zephyr.Channels.Primary.{IsTable}
use meshtastic_zephyr.Channels.Hash.{fixed_table, store_only}

-- The table that `set_slot` works on once the channel is stored and fixed up.
fixed_inherits :
    (t : Channels) (channel : Channel)
    → IsTable t
    → channel.role ≡ secondary
    → channel.has_settings ≡ true
    → channel.settings.psk ≡ []
    → inherits (fixed_table (store t t.primary_index channel) t.primary_index) t.primary_index
      ≡ true
unfolding inherits store fixed_slot
fixed_inherits t channel v r h p =
    let c = record channel { index = t.primary_index } in
    let slots = set t.slots t.primary_index c in
    let fixed = fixed_slot t.primary_index (get_or slots t.primary_index zero_channel) in
    ground (
      arith,
      v.eight,
      v.index_in,
      length-set t.slots t.primary_index c,
      get_or-set_self zero_channel t.slots t.primary_index c,
      get_or-set_self zero_channel slots t.primary_index fixed,
    )

store_index :
    (t : Channels) (channel : Channel)
    → (store t t.primary_index channel).primary_index ≡ t.primary_index
unfolding store
store_index t channel = ground arith

fixed_diverges :
    (t : Channels) (channel : Channel) (f : ℕ)
    → inherits (fixed_table (store t t.primary_index channel) t.primary_index) t.primary_index
      ≡ true
    → get_key_fuel f (fixed_table (store t t.primary_index channel) t.primary_index) t.primary_index
      ≡ none
unfolding store inherits
fixed_diverges t channel f i =
    let u = fixed_table (store t t.primary_index channel) t.primary_index in
    let at : u.primary_index ≡ t.primary_index = store_index t channel in
    get_key-diverges u t.primary_index f (rw at i) i

-- A SECONDARY channel with settings and no PSK is set at the primary slot: on the table with the channel
-- in its place, `channel_get_key` calls itself without end, so that at no depth of calls it has returned,
-- and `set_slot`, which asks it for the key of the slot's new hash, does not return.
pub set_slot-diverges :
    (t : Channels) (channel : Channel)
    → IsTable t
    → channel.role ≡ secondary
    → channel.has_settings ≡ true
    → channel.settings.psk ≡ []
    → ((depth : ℕ)
        → get_key_fuel depth
            (fixed_table (store t t.primary_index channel) t.primary_index)
            t.primary_index
          ≡ none)
      × (set_slot t t.primary_index (some channel) ≡ none)
unfolding set_slot fixup generate_hash get_key
set_slot-diverges t channel v r h p =
    let not_p : is_primary channel.role ≡ false = rw r in
    let inside : leb max_channels t.primary_index ≡ false = ground (arith, v.index_in) in
    let keyless = fixed_inherits t channel v r h p in
    let lost = fixed_diverges t channel 2 keyless in
    (
      λ depth. fixed_diverges t channel depth keyless,
      rw (inside, store_only t t.primary_index channel v (inl not_p), lost),
    )
