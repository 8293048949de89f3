-- ===== src/ConfigStore/Apply.antt =====
-- The functions of src/meshtastic_config_store.c that fill the store, change it, and put it into use in
-- `mt` and the channel table.
use meshtastic_zephyr.Prelude.{
  ℕ, zero, ◌+◌, ◌-◌, ◌%◌, ◌==◌, ltb, leb, Bool, ◌&&◌, List, [], ◌∷◌, Option, none, some, ok, err,
  Errno, if◌then◌else◌,
}
use meshtastic_zephyr.Packet.{ℤ}
use meshtastic_zephyr.Messages.{Channel}
use meshtastic_zephyr.Channels.{Channels, set_slot}
use meshtastic_zephyr.Configs.{
  Config, DeviceConfig, LoraConfig, role_of, mode_of, zero_device, zero_lora,
}
use meshtastic_zephyr.ConfigStore.{Store}
use meshtastic_zephyr.ConfigStore.Settings.{config_at}

-- `mt.long_name` and `mt.short_name`: into the store, or at another text
pub data NamePointer : Type 0 where
  of_store : NamePointer
  elsewhere : List ℕ → NamePointer

-- What of `mt` the store writes, with the channel table
pub record Node : Type 0 where
  pub long_name : NamePointer
  pub short_name : NamePointer
  pub hop_limit : ℕ
  pub tx_power : ℤ
  pub frequency : ℕ
  pub channels : Channels

-- The float operations `f > 0.0f` and `(uint32_t)(f * 1000000.0f)`, on the float's bits
pub record Floats : Type 0 where
  pub is_positive : ℕ → Bool
  pub to_hz : ℕ → ℕ

-- `frequency_from_region`: UNSET is 0, US 1, EU_433 2 and EU_868 3.
unfoldable pub frequency_from_region : ℕ → ℕ
frequency_from_region region =
    if region == 1
    then 906875000
    else if region == 3
    then 869525000
    else if region == 2
    then 433175000
    else 0

-- An `int32_t` stored into an `int8_t`
unfoldable pub to_int8 : ℤ → ℤ
to_int8 (ℤ.pos n) = if ltb (n % 256) 128 then ℤ.pos (n % 256) else ℤ.negsuc (255 - n % 256)
to_int8 (ℤ.negsuc n) = if ltb (n % 256) 128 then ℤ.negsuc (n % 256) else ℤ.pos (255 - n % 256)

-- The places that `index_for_config_tag` gives for the device and the LoRa section
abbrev pub device_idx : ℕ
device_idx = 0

abbrev pub lora_idx : ℕ
lora_idx = 5

-- Reads of the payload union under a tag; the store's shape rules the last clauses out.
abbrev pub device_of : Config → DeviceConfig
device_of (Config.device c) = c
device_of _ = zero_device

abbrev pub lora_of : Config → LoraConfig
lora_of (Config.lora c) = c
lora_of _ = zero_lora

-- The turns of the loop of `set_slot` from slot `i` on; the first error ends it.
unfoldable pub apply_channels : ℕ → List Channel → Channels → Option (Option Errno × Channels)
apply_channels i [] t = some (none, t)
apply_channels i (c ∷ cs) t = elim (set_slot t i (some c)) [
  | none ↦ none
  | some (err e) ↦ some (some e, t)
  | some (ok t') ↦ apply_channels (i + 1) cs t'
]

unfoldable pub apply_power : ℤ → ℤ → ℤ
apply_power (ℤ.pos zero) old = old
apply_power power old = to_int8 power

-- The part of `meshtastic_config_store_apply_core` after the loop
unfoldable pub apply_radio : Floats → DeviceConfig → LoraConfig → Node → Node
apply_radio f device lora n =
    let region_hz = frequency_from_region lora.region in
    record n {
      channels = record (n.channels) {
        device_role = role_of device.role;
        rebroadcast_mode = mode_of device.rebroadcast_mode;
      };
      hop_limit =
          if leb 1 lora.hop_limit && leb lora.hop_limit 7 then lora.hop_limit else n.hop_limit;
      tx_power = apply_power lora.tx_power n.tx_power;
      frequency =
          if f.is_positive lora.override_frequency
          then f.to_hz lora.override_frequency
          else if region_hz == 0
          then n.frequency
          else region_hz;
    }

-- `meshtastic_config_store_apply_core`: `none` where a key lookup of the channel table does not return.
unfoldable pub apply_core : Floats → Store → Node → Option (Option Errno × Node)
apply_core f s n =
    let named : Node = record n { long_name = of_store; short_name = of_store } in
    elim (apply_channels 0 s.channels named.channels) [
      | none ↦ none
      | some (some e, t) ↦ some (some e, record named { channels = t })
      | some (none, t) ↦ some (
        none,
        apply_radio f (device_of (config_at s device_idx)) (lora_of (config_at s lora_idx))
            (record named { channels = t }),
      )
    ]
