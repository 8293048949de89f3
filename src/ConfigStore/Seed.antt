-- ===== src/ConfigStore/Seed.antt =====
-- What src/meshtastic_config_store.c fills the store with at first.
use meshtastic_zephyr.Prelude.{
  ℕ, zero, suc, ◌+◌, leb, Bool, true, false, ◌&&◌, List, [], ◌∷◌, Option, none, some, if◌then◌else◌,
  Result, ok, err, einval,
}
use meshtastic_zephyr.Messages.{Channel}
use meshtastic_zephyr.Channels.{
  Channels, DeviceRole, RebroadcastMode, client_mute, other_role, all, all_skip_decoding,
  local_only, known_only, none_mode, core_portnums_only, unnamed_mode, max_channels, slot,
}
use meshtastic_zephyr.Configs.{
  Config, ModuleConfig, MqttConfig, zero_device, zero_position, zero_lora, zero_bluetooth,
  zero_mqtt,
}
use meshtastic_zephyr.ConfigStore.{Store, long_name_len, short_name_len, copy_string}
use meshtastic_zephyr.ConfigStore.Apply.{Node}

-- `struct meshtastic_config`, as far as it is read here
pub record InitConfig : Type 0 where
  pub frequency : ℕ
  pub long_name : Option (List ℕ)
  pub short_name : Option (List ℕ)

-- The build options: those of MQTT are `none` where it is left out, as is the fixed passkey.
pub record MqttOptions : Type 0 where
  pub broker_host : List ℕ
  pub username : List ℕ
  pub password : List ℕ
  pub root : List ℕ
  pub encryption_enabled : Bool
  pub map_report : Option (ℕ × ℕ)

pub record Options : Type 0 where
  pub node_long_name : List ℕ
  pub node_short_name : List ℕ
  pub with_serial : Bool
  pub with_gnss : Bool
  pub with_ble : Bool
  pub with_settings : Bool
  pub fixed_passkey : Option ℕ
  pub mqtt : Option MqttOptions

-- `lora_region_from_frequency`
unfoldable pub lora_region_from_frequency : ℕ → ℕ
lora_region_from_frequency hz =
    if leb 902000000 hz && leb hz 928000000
    then 1
    else if leb 869000000 hz && leb hz 870000000
    then 3
    else if leb 433000000 hz && leb hz 434000000
    then 2
    else 0

-- `meshtastic_device_role` and `meshtastic_rebroadcast_mode`, as the enums' numbers
unfoldable pub role_number : DeviceRole → ℕ
role_number client_mute = 1
role_number (other_role role) = role

unfoldable pub mode_number : RebroadcastMode → ℕ
mode_number all = 0
mode_number all_skip_decoding = 1
mode_number local_only = 2
mode_number known_only = 3
mode_number none_mode = 4
mode_number core_portnums_only = 5
mode_number (unnamed_mode mode) = mode

abbrev is_some {ℓ} : {A : Type ℓ} → Option A → Bool
is_some (some a) = true
is_some none = false

-- `seed_config_defaults`
unfoldable pub seed_config_defaults : Options → InitConfig → Node → List Config
seed_config_defaults o cfg n =
    Config.device (record zero_device {
      role = role_number n.channels.device_role;
      rebroadcast_mode = mode_number n.channels.rebroadcast_mode;
      serial_enabled = o.with_serial;
    })
    ∷ Config.position (record zero_position { gps_mode = if o.with_gnss then 1 else 2 })
    ∷ Config.power []
    ∷ Config.network []
    ∷ Config.display []
    ∷ Config.lora (record zero_lora {
      use_preset = true;
      modem_preset = 0;
      region = lora_region_from_frequency cfg.frequency;
      hop_limit = n.hop_limit;
      tx_enabled = true;
      tx_power = n.tx_power;
    })
    ∷ Config.bluetooth (record zero_bluetooth {
      enabled = o.with_ble;
      mode = if is_some o.fixed_passkey then 1 else 2;
      fixed_pin = elim o.fixed_passkey [ none ↦ 0 | some pin ↦ pin ];
    })
    ∷ Config.security []
    ∷ Config.sessionkey []
    ∷ Config.device_ui []
    ∷ []

-- The MQTT section of `seed_module_defaults`; the text members' sizes are those of
-- src/proto/meshtastic/module_config.options.
unfoldable pub seed_mqtt : Option MqttOptions → MqttConfig
seed_mqtt none = zero_mqtt
seed_mqtt (some o) = record zero_mqtt {
  enabled = true;
  address = copy_string 64 o.broker_host;
  username = copy_string 64 o.username;
  password = copy_string 32 o.password;
  root = copy_string 32 o.root;
  encryption_enabled = o.encryption_enabled;
  map_reporting_enabled = is_some o.map_report;
  has_map_report_settings = is_some o.map_report;
  publish_interval_secs = elim o.map_report [ none ↦ 0 | some (interval, precision) ↦ interval ];
  position_precision = elim o.map_report [ none ↦ 0 | some (interval, precision) ↦ precision ];
  should_report_location = is_some o.map_report;
}

-- `seed_module_defaults`
unfoldable pub seed_module_defaults : Options → List ModuleConfig
seed_module_defaults o =
    ModuleConfig.mqtt (seed_mqtt o.mqtt)
    ∷ ModuleConfig.serial []
    ∷ ModuleConfig.external_notification []
    ∷ ModuleConfig.store_forward []
    ∷ ModuleConfig.range_test []
    ∷ ModuleConfig.telemetry []
    ∷ ModuleConfig.canned_message []
    ∷ ModuleConfig.audio []
    ∷ ModuleConfig.remote_hardware []
    ∷ ModuleConfig.neighbor_info []
    ∷ ModuleConfig.ambient_lighting []
    ∷ ModuleConfig.detection_sensor []
    ∷ ModuleConfig.paxcounter []
    ∷ ModuleConfig.statusmessage []
    ∷ ModuleConfig.traffic_management []
    ∷ ModuleConfig.tak []
    ∷ []

-- The turns of the loop of `meshtastic_config_store_seed` over the channel table, from `i` on
unfoldable pub seed_channels : Channels → ℕ → ℕ → List Channel
seed_channels t i zero = []
seed_channels t i (suc n) = record (slot t i) { index = i } ∷ seed_channels t (i + 1) n

abbrev or_default : Option (List ℕ) → List ℕ → List ℕ
or_default none text = text
or_default (some name) text = name

-- `meshtastic_config_store_seed`, with `none` for a NULL configuration
unfoldable pub seed : Options → Option InitConfig → Node → Result Store
seed o none n = err einval
seed o (some cfg) n = ok (record {
  long_name = copy_string long_name_len (or_default cfg.long_name o.node_long_name);
  short_name = copy_string short_name_len (or_default cfg.short_name o.node_short_name);
  channels = seed_channels n.channels 0 max_channels;
  configs = seed_config_defaults o cfg n;
  modules = seed_module_defaults o;
})
