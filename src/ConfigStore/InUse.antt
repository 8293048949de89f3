-- ===== src/ConfigStore/InUse.antt =====
-- What `meshtastic_config_store_apply_core` of src/meshtastic_config_store.c puts into use.
use meshtastic_zephyr.Prelude.{
  zero, suc, ◌≢◌, ◌<◌, ◌≤◌, ◌≡◌, refl, ◌⊎◌, inl, inr, true, false, none, some, arith, Option-cases,
}
use meshtastic_zephyr.Channels.{Channels}
use meshtastic_zephyr.Configs.{role_of, mode_of}
use meshtastic_zephyr.Packet.{ℤ}
use meshtastic_zephyr.ConfigStore.{Store}
use meshtastic_zephyr.ConfigStore.Settings.{config_at}
use meshtastic_zephyr.ConfigStore.Apply.{
  Node, Floats, of_store, apply_channels, apply_core, apply_radio, apply_power, to_int8,
  frequency_from_region, device_of, lora_of, device_idx, lora_idx,
}

-- `stored` is in use in `m`, that was `n` before: the eight channels are set in the channel table one after
-- the other, and the names, the role, the rebroadcast mode and the radio's settings are those of the store;
-- a hop limit that is not from 1 to 7, a power of 0 and a region without a frequency of its own change
-- nothing.
pub record IsInUse (f : Floats) (stored : Store) (n m : Node) : Type 0 where
  pub table : Channels
  pub channels_set : apply_channels 0 stored.channels n.channels ≡ some (none, table)
  pub channels : m.channels ≡ record table {
    device_role = role_of (device_of (config_at stored device_idx)).role;
    rebroadcast_mode = mode_of (device_of (config_at stored device_idx)).rebroadcast_mode;
  }
  pub names : (m.long_name ≡ of_store) × (m.short_name ≡ of_store)
  pub hop_limit :
      (1 ≤ (lora_of (config_at stored lora_idx)).hop_limit
        → (lora_of (config_at stored lora_idx)).hop_limit ≤ 7
        → m.hop_limit ≡ (lora_of (config_at stored lora_idx)).hop_limit)
      × (((lora_of (config_at stored lora_idx)).hop_limit ≡ 0)
            ⊎ (7 < (lora_of (config_at stored lora_idx)).hop_limit)
          → m.hop_limit ≡ n.hop_limit)
  pub power :
      ((lora_of (config_at stored lora_idx)).tx_power ≡ ℤ.pos 0 → m.tx_power ≡ n.tx_power)
      × ((lora_of (config_at stored lora_idx)).tx_power ≢ ℤ.pos 0
          → m.tx_power ≡ to_int8 (lora_of (config_at stored lora_idx)).tx_power)
  pub override :
      f.is_positive (lora_of (config_at stored lora_idx)).override_frequency ≡ true
      → m.frequency ≡ f.to_hz (lora_of (config_at stored lora_idx)).override_frequency
  pub region :
      f.is_positive (lora_of (config_at stored lora_idx)).override_frequency ≡ false
      → ((lora_of (config_at stored lora_idx)).region ≡ 1 → m.frequency ≡ 906875000)
        × ((lora_of (config_at stored lora_idx)).region ≡ 2 → m.frequency ≡ 433175000)
        × ((lora_of (config_at stored lora_idx)).region ≡ 3 → m.frequency ≡ 869525000)
        × ((lora_of (config_at stored lora_idx)).region ≡ 0 → m.frequency ≡ n.frequency)
        × (3 < (lora_of (config_at stored lora_idx)).region → m.frequency ≡ n.frequency)

apply_power_zero : (p old : ℤ) → p ≡ ℤ.pos 0 → apply_power p old ≡ old
unfolding apply_power
apply_power_zero p old e = rw e refl

apply_power_set : (p old : ℤ) → p ≢ ℤ.pos 0 → apply_power p old ≡ to_int8 p
unfolding apply_power
apply_power_set (ℤ.pos zero) old e = absurd (e refl)
apply_power_set (ℤ.pos (suc k)) old e = refl
apply_power_set (ℤ.negsuc k) old e = refl

pub apply_core-IsInUse :
    (f : Floats) (s : Store) (n m : Node) → apply_core f s n ≡ some (none, m) → IsInUse f s n m
unfolding apply_core apply_radio frequency_from_region
apply_core-IsInUse f s n m e = elim (Option-cases (apply_channels 0 s.channels n.channels)) [
  | inl lost ↦ absurd (ground (arith, e, lost))
  | inr ((some why, t), back) ↦ absurd (ground (arith, e, back))
  | inr ((none, t), back) ↦
      let lora = lora_of (config_at s lora_idx) in
      let named : Node = record n { long_name = of_store; short_name = of_store; channels = t } in
      let is : m ≡ apply_radio f (device_of (config_at s device_idx)) lora named =
        ground (arith, e, back) in
      rw is (record {
        table = t;
        channels_set = back;
        channels = refl;
        names = (refl, refl);
        hop_limit = (λ one seven. ground arith, λ out. ground arith);
        power = (apply_power_zero lora.tx_power _, apply_power_set lora.tx_power _);
        override = λ positive. ground (arith, positive);
        region = λ none_set. (
          λ r. ground (arith, none_set),
          λ r. ground (arith, none_set),
          λ r. ground (arith, none_set),
          λ r. ground (arith, none_set),
          λ r. ground (arith, none_set),
        );
      })
]
