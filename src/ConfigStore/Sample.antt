-- ===== src/ConfigStore/Sample.antt =====
-- A plain encoding of the messages and a seeded store, to run src/meshtastic_config_store.c on.
pub mod Messages
pub mod Modules
use meshtastic_zephyr.Prelude.{◌≤◌, ◌≡◌, ◌==◌, ◌||◌, ◌&&◌, not, Bool, true, false, arith}
use meshtastic_zephyr.ConfigStore.{Library}
use meshtastic_zephyr.ConfigStore.Restore.{IsLibrary, Full}
use meshtastic_zephyr.Configs.{ModuleConfig, MqttConfig, config_tag}
use meshtastic_zephyr.ConfigStore.Sample.Messages.{
  fit, fit-IsBack, fit-IsWithin, channel_bytes, channel_from, channel_back, config_bytes,
  config_from, config_back,
}
use meshtastic_zephyr.ConfigStore.Sample.Modules.{module_bytes, module_from, module_back}

abbrev pub plain_library : Library
plain_library = record {
  encode_channel = λ size c. fit size (channel_bytes c);
  decode_channel = channel_from;
  encode_config = λ size c. fit size (config_bytes c);
  decode_config = config_from;
  encode_module = λ size m. fit size (module_bytes m);
  decode_module = module_from;
  ulong_max = 0xFFFFFFFF;
}

-- Map report settings without their flag are zero.
abbrev pub map_report_whole : ModuleConfig → Bool
map_report_whole (ModuleConfig.mqtt c) =
    c.has_map_report_settings
    || ((c.publish_interval_secs == 0)
        && (c.position_precision == 0)
        && not c.should_report_location)
map_report_whole _ = true

pub map_report_zero :
    (c : MqttConfig)
    → map_report_whole (ModuleConfig.mqtt c) ≡ true
    → c.has_map_report_settings ≡ false
    → (c.publish_interval_secs ≡ 0)
      × (c.position_precision ≡ 0)
      × (c.should_report_location ≡ false)
map_report_zero c whole unset = ground arith

abbrev pub plain_full : Full
plain_full = record {
  is_config = λ c. 0 ≤ config_tag c;
  is_module = λ m. map_report_whole m ≡ true;
  map_report = map_report_zero;
}

pub plain_library-IsLibrary : IsLibrary plain_library plain_full
plain_library-IsLibrary = record {
  channel_within = λ c. fit-IsWithin (channel_bytes c);
  config_within = λ c. fit-IsWithin (config_bytes c);
  module_within = λ m. fit-IsWithin (module_bytes m);
  channel_back = λ c _. fit-IsBack c (channel_bytes c) channel_from (channel_back c);
  config_back = λ c _. fit-IsBack c (config_bytes c) config_from (config_back c);
  module_back = λ m _. fit-IsBack m (module_bytes m) module_from (module_back m);
  ulong_big = omega arith;
}
