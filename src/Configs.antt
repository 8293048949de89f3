-- ===== src/Configs.antt =====
-- The messages of src/proto/meshtastic/config.proto and module_config.proto, as nanopb's structs. Of a
-- struct the members that the sources under src/ read or write one by one stand by themselves; the
-- others are its `content`. An enum is its number, which nanopb takes from the wire as it is.
use meshtastic_zephyr.Prelude.{ℕ, ◌==◌, Bool, false, List, [], if◌then◌else◌}
use meshtastic_zephyr.Packet.{ℤ}
use meshtastic_zephyr.Channels.{
  DeviceRole, RebroadcastMode, client_mute, other_role, all, all_skip_decoding, local_only,
  known_only, none_mode, core_portnums_only, unnamed_mode,
}

-- `meshtastic_Config_DeviceConfig`
pub record DeviceConfig : Type 0 where
  pub role : ℕ
  pub rebroadcast_mode : ℕ
  pub serial_enabled : Bool
  pub content : List ℕ

-- `meshtastic_Config_PositionConfig`
pub record PositionConfig : Type 0 where
  pub gps_mode : ℕ
  pub content : List ℕ

-- `meshtastic_Config_LoRaConfig`; the float is its bits.
pub record LoraConfig : Type 0 where
  pub use_preset : Bool
  pub modem_preset : ℕ
  pub region : ℕ
  pub hop_limit : ℕ
  pub tx_enabled : Bool
  pub tx_power : ℤ
  pub override_frequency : ℕ
  pub content : List ℕ

-- `meshtastic_Config_BluetoothConfig`
pub record BluetoothConfig : Type 0 where
  pub enabled : Bool
  pub mode : ℕ
  pub fixed_pin : ℕ
  pub content : List ℕ

-- `meshtastic_Config`: its payload union with the tag. `unset` is any other tag.
pub data Config : Type 0 where
  device : DeviceConfig → Config
  position : PositionConfig → Config
  power network display : List ℕ → Config
  lora : LoraConfig → Config
  bluetooth : BluetoothConfig → Config
  security sessionkey device_ui : List ℕ → Config
  unset : Config

-- `which_payload_variant`
abbrev pub config_tag : Config → ℕ
config_tag (device c) = 1
config_tag (position c) = 2
config_tag (power c) = 3
config_tag (network c) = 4
config_tag (display c) = 5
config_tag (lora c) = 6
config_tag (bluetooth c) = 7
config_tag (security c) = 8
config_tag (sessionkey c) = 9
config_tag (device_ui c) = 10
config_tag unset = 0

-- `meshtastic_ModuleConfig_MQTTConfig`, its map report settings in line
pub record MqttConfig : Type 0 where
  pub enabled : Bool
  pub address : List ℕ
  pub username : List ℕ
  pub password : List ℕ
  pub encryption_enabled : Bool
  pub root : List ℕ
  pub map_reporting_enabled : Bool
  pub has_map_report_settings : Bool
  pub publish_interval_secs : ℕ
  pub position_precision : ℕ
  pub should_report_location : Bool
  pub content : List ℕ

-- `meshtastic_ModuleConfig`: its payload union with the tag. `unset_module` is any other tag.
pub data ModuleConfig : Type 0 where
  mqtt : MqttConfig → ModuleConfig
  serial external_notification store_forward range_test telemetry : List ℕ → ModuleConfig
  canned_message audio remote_hardware neighbor_info : List ℕ → ModuleConfig
  ambient_lighting detection_sensor paxcounter statusmessage : List ℕ → ModuleConfig
  traffic_management tak : List ℕ → ModuleConfig
  unset_module : ModuleConfig

abbrev pub module_tag : ModuleConfig → ℕ
module_tag (mqtt c) = 1
module_tag (serial c) = 2
module_tag (external_notification c) = 3
module_tag (store_forward c) = 4
module_tag (range_test c) = 5
module_tag (telemetry c) = 6
module_tag (canned_message c) = 7
module_tag (audio c) = 8
module_tag (remote_hardware c) = 9
module_tag (neighbor_info c) = 10
module_tag (ambient_lighting c) = 11
module_tag (detection_sensor c) = 12
module_tag (paxcounter c) = 13
module_tag (statusmessage c) = 14
module_tag (traffic_management c) = 15
module_tag (tak c) = 16
module_tag unset_module = 0

-- The enums' numbers as the channel table keeps them.
unfoldable pub role_of : ℕ → DeviceRole
role_of role = if role == 1 then client_mute else other_role role

unfoldable pub mode_of : ℕ → RebroadcastMode
mode_of mode =
    if mode == 0
    then all
    else if mode == 1
    then all_skip_decoding
    else if mode == 2
    then local_only
    else if mode == 3
    then known_only
    else if mode == 4
    then none_mode
    else if mode == 5
    then core_portnums_only
    else unnamed_mode mode

-- The structs that `..._init_zero` gives
abbrev pub zero_device : DeviceConfig
zero_device = record { role = 0; rebroadcast_mode = 0; serial_enabled = false; content = [] }

abbrev pub zero_position : PositionConfig
zero_position = record { gps_mode = 0; content = [] }

abbrev pub zero_lora : LoraConfig
zero_lora = record {
  use_preset = false;
  modem_preset = 0;
  region = 0;
  hop_limit = 0;
  tx_enabled = false;
  tx_power = ℤ.pos 0;
  override_frequency = 0;
  content = [];
}

abbrev pub zero_bluetooth : BluetoothConfig
zero_bluetooth = record { enabled = false; mode = 0; fixed_pin = 0; content = [] }

abbrev pub zero_mqtt : MqttConfig
zero_mqtt = record {
  enabled = false;
  address = [];
  username = [];
  password = [];
  encryption_enabled = false;
  root = [];
  map_reporting_enabled = false;
  has_map_report_settings = false;
  publish_interval_secs = 0;
  position_precision = 0;
  should_report_location = false;
  content = [];
}
