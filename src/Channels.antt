-- ===== src/Channels.antt =====
-- src/meshtastic_channels.c: the channel table, the key and wire hash of each slot, and the device's
-- role and rebroadcast mode. With the table stand the two fields of `mt` that `set_slot` refreshes.
pub mod Key
pub mod Hash
pub mod Diverge
pub mod Policy
mod Tests
pub mod Demote
pub mod Primary
use meshtastic_zephyr.Prelude.{
  ℕ, zero, suc, ◌+◌, ◌-◌, ◌%◌, ◌==◌, ltb, leb, Bool, true, false, not, ◌&&◌, ◌||◌, List, [], ◌∷◌,
  ◌++◌, Option, none, some, Result, ok, err, einval, enoent, if◌then◌else◌, length, get_or, set,
  take, replicate, bit_xor,
}
use mathlib.Core.Option
use meshtastic_zephyr.Messages.{
  Channel, ChannelRole, ChannelSettings, disabled, primary, secondary, zero_channel, zero_settings,
}

abbrev pub max_channels : ℕ
max_channels = 8

-- `meshtastic_default_psk` of src/meshtastic.c
abbrev pub default_psk : List ℕ
default_psk =
    0xd4 ∷ 0xf1 ∷ 0xbb ∷ 0x3a ∷ 0x20 ∷ 0x29 ∷ 0x07 ∷ 0x59 ∷ 0xf0 ∷ 0xbc ∷ 0xff ∷ 0xab ∷ 0xcf ∷ 0x4e
    ∷ 0x69 ∷ 0x01 ∷ []

-- `MESHTASTIC_CHANNEL_LONGFAST`, "LongFast", and "Default"
abbrev pub long_fast : List ℕ
long_fast = b'L' ∷ b'o' ∷ b'n' ∷ b'g' ∷ b'F' ∷ b'a' ∷ b's' ∷ b't' ∷ []

abbrev pub default_name : List ℕ
default_name = b'D' ∷ b'e' ∷ b'f' ∷ b'a' ∷ b'u' ∷ b'l' ∷ b't' ∷ []

-- `strcmp(a, b) == 0`
abbrev pub str_eq : List ℕ → List ℕ → Bool
str_eq [] [] = true
str_eq [] (b ∷ bs) = false
str_eq (a ∷ as') [] = false
str_eq (a ∷ as') (b ∷ bs) = (a == b) && str_eq as' bs

-- `meshtastic_Config_DeviceConfig_Role`, as far as it is told apart here, and `..._RebroadcastMode`
pub data DeviceRole : Type 0 where
  client_mute : DeviceRole
  other_role : ℕ → DeviceRole

pub data RebroadcastMode : Type 0 where
  all all_skip_decoding local_only known_only none_mode core_portnums_only : RebroadcastMode
  unnamed_mode : ℕ → RebroadcastMode

pub record Channels : Type 0 where
  pub slots : List Channel
  pub hashes : List ℕ
  pub primary_index : ℕ
  pub device_role : DeviceRole
  pub rebroadcast_mode : RebroadcastMode
  pub ch_hash : ℕ
  pub channel_name : List ℕ

-- `struct meshtastic_channel_key`: 32 bytes, of which the first `len` are the key.
pub record ChannelKey : Type 0 where
  pub bytes : List ℕ
  pub len : ℕ

abbrev pub slot : Channels → ℕ → Channel
slot t index = get_or t.slots index zero_channel

abbrev pub is_disabled : ChannelRole → Bool
is_disabled disabled = true
is_disabled _ = false

abbrev pub is_primary : ChannelRole → Bool
is_primary primary = true
is_primary _ = false

abbrev pub is_secondary : ChannelRole → Bool
is_secondary secondary = true
is_secondary _ = false

abbrev pub is_empty : List ℕ → Bool
is_empty [] = true
is_empty _ = false

-- A PSK copied into a zeroed 32-byte buffer.
abbrev pub padded : List ℕ → List ℕ
padded psk = take 32 (psk ++ replicate 32 0)

-- `expand_short_psk`: the last byte of the default key is counted up, as a `uint8_t`.
unfoldable pub expand_short_psk : ℕ → ChannelKey
expand_short_psk psk_index = record {
  bytes = padded (
      if ltb 1 psk_index then set default_psk 15 ((0x01 + (psk_index - 1)) % 256) else default_psk);
  len = 16;
}

-- The length that a key is padded up to.
abbrev pub padded_len : ℕ → ℕ
padded_len len = if ltb len 16 then 16 else if ltb 16 len && ltb len 32 then 32 else len

-- `channel_get_key` on a slot's own PSK.
unfoldable pub own_key : List ℕ → ChannelKey
own_key [] = record { bytes = padded []; len = 0 }
own_key (b ∷ []) =
    if b == 0 then record { bytes = padded (b ∷ []); len = 0 } else expand_short_psk b
own_key (b ∷ c ∷ psk) = record {
  bytes = padded (b ∷ c ∷ psk);
  len = padded_len (length (b ∷ c ∷ psk));
}

-- The test by which `channel_get_key` goes on to the primary slot's key.
unfoldable pub inherits : Channels → ℕ → Bool
inherits t index =
    let ch = slot t index in
    ltb index max_channels && ch.has_settings && is_empty ch.settings.psk && is_secondary ch.role

-- `channel_get_key`, with fuel for the depth of its calls of itself: `none` is the call that has not
-- returned at that depth.
unfoldable pub get_key_fuel : ℕ → Channels → ℕ → Option (Result ChannelKey)
get_key_fuel zero t index = none
get_key_fuel (suc fuel) t index =
    let inherited = get_key_fuel fuel t t.primary_index in
    let ch = slot t index in
    if leb max_channels index
    then some (err einval)
    else if not ch.has_settings || is_disabled ch.role
    then some (err enoent)
    else if is_empty ch.settings.psk && is_secondary ch.role
    then inherited
    else some (ok (own_key ch.settings.psk))

-- A depth of two is enough for every call that returns (`Key.get_key-returns`); where it gives `none`,
-- there is no depth that is enough (`Key.get_key-none`).
unfoldable pub get_key : Channels → ℕ → Option (Result ChannelKey)
get_key = get_key_fuel 2

-- `xor_hash_bytes`
unfoldable pub xor_hash_bytes : ℕ → List ℕ → ℕ
xor_hash_bytes code [] = code
xor_hash_bytes code (b ∷ data') = xor_hash_bytes (bit_xor code b) data'

-- `meshtastic_channels_get_name`
unfoldable pub get_name : Channels → ℕ → List ℕ
get_name t index =
    if leb max_channels index
    then []
    else if not (slot t index).has_settings || is_empty (slot t index).settings.name
    then long_fast
    else (slot t index).settings.name

-- `channel_generate_hash` on what `channel_get_key` returned
unfoldable pub hash_of : List ℕ → Result ChannelKey → ℕ
hash_of name (err e) = 0
hash_of name (ok key) =
    let h = xor_hash_bytes 0 name in
    if key.len == 0 then h else bit_xor h (xor_hash_bytes 0 (take key.len key.bytes))

unfoldable pub generate_hash : Channels → ℕ → Option ℕ
generate_hash t index = Option.map (hash_of (get_name t index)) (get_key t index)

-- The slot that `channel_fixup` leaves.
unfoldable pub fixed_slot : ℕ → Channel → Channel
fixed_slot index ch = rename (if ch.has_settings then record ch { index = index } else cleared)
  where
    cleared : Channel
    cleared = record {
      index = index;
      has_settings = true;
      settings = zero_settings;
      role = disabled;
    }

    rename : Channel → Channel
    rename c =
        if str_eq c.settings.name default_name
        then record c { settings = record (c.settings) { name = [] } }
        else c

-- `channel_fixup`; `none` where computing the hash does not return.
unfoldable pub fixup : Channels → ℕ → Option Channels
fixup t index =
    let t' : Channels = record t { slots = set t.slots index (fixed_slot index (slot t index)) } in
    Option.map (λ h. record t' { hashes = set t.hashes index h }) (generate_hash t' index)

-- One turn of `demote_other_primary`.
unfoldable pub demote_one : ℕ → ℕ → Channels → Option Channels
demote_one index i t =
    if i == index
    then some t
    else if is_primary (slot t i).role
    then fixup (record t { slots = set t.slots i (record (slot t i) { role = secondary }) }) i
    else some t

-- The turns from `i` on, `n` of them.
unfoldable pub demote_from : ℕ → ℕ → ℕ → Channels → Option Channels
demote_from index zero i t = some t
demote_from index (suc n) i t = elim (demote_one index i t) [
  | none ↦ none
  | some t' ↦ demote_from index n (i + 1) t'
]

-- `demote_other_primary`
unfoldable pub demote_other_primary : Channels → ℕ → Option Channels
demote_other_primary t index = demote_from index max_channels 0 t

-- The end of `set_slot`: refresh `mt` for the primary slot.
unfoldable pub refresh : ℕ → Channels → Channels
refresh index t =
    if index == t.primary_index
    then record t { ch_hash = get_or t.hashes index 0; channel_name = get_name t index }
    else t

-- The first part of `set_slot`: the channel is stored, and if it is PRIMARY it becomes the table's.
unfoldable pub store : Channels → ℕ → Channel → Channels
store t index channel =
    let stored : Channels = record t {
      slots = set t.slots index (record channel { index = index });
    } in
    if is_primary channel.role then record stored { primary_index = index } else stored

unfoldable pub store_and_demote : Channels → ℕ → Channel → Option Channels
store_and_demote t index channel =
    if is_primary channel.role
    then demote_other_primary (store t index channel) index
    else some (store t index channel)

-- `meshtastic_channels_set_slot`, with `none` for a NULL channel. The outer `none` is a call that
-- does not return; an error leaves the table as it was.
unfoldable pub set_slot : Channels → ℕ → Option Channel → Option (Result Channels)
set_slot t index none = some (err einval)
set_slot t index (some channel) =
    if leb max_channels index then some (err einval) else elim (store_and_demote t index channel) [
      | none ↦ none
      | some t' ↦ Option.map (λ u. ok (refresh index u)) (fixup t' index)
    ]
