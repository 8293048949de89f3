-- ===== src/Messages.antt =====
-- The protobuf messages that the stack builds and reads, as the C structs that nanopb generates from
-- src/proto. Encoding and decoding them is nanopb's work, and a parameter wherever it is used.
use meshtastic_zephyr.Prelude.{ℕ, Bool, false, List, []}
use meshtastic_zephyr.Packet.{ℤ}

-- `meshtastic_Channel_Role`
pub data ChannelRole : Type 0 where
  disabled primary secondary : ChannelRole
  unnamed_role : ℕ → ChannelRole

-- `meshtastic_ChannelSettings`; the name is without its NUL.
pub record ChannelSettings : Type 0 where
  pub name : List ℕ
  pub psk : List ℕ
  pub uplink_enabled : Bool
  pub downlink_enabled : Bool
  pub has_module_settings : Bool
  pub position_precision : ℕ

-- `meshtastic_Channel`
pub record Channel : Type 0 where
  pub index : ℕ
  pub has_settings : Bool
  pub settings : ChannelSettings
  pub role : ChannelRole

-- `meshtastic_ChannelSettings_init_zero` and `meshtastic_Channel_init_zero`
abbrev pub zero_settings : ChannelSettings
zero_settings = record {
  name = [];
  psk = [];
  uplink_enabled = false;
  downlink_enabled = false;
  has_module_settings = false;
  position_precision = 0;
}

abbrev pub zero_channel : Channel
zero_channel = record {
  index = 0;
  has_settings = false;
  settings = zero_settings;
  role = ChannelRole.disabled;
}

-- `meshtastic_User`
pub record User : Type 0 where
  pub user_id : List ℕ
  pub long_name : List ℕ
  pub short_name : List ℕ
  pub macaddr : List ℕ
  pub hw_model : ℕ
  pub role : ℕ
  pub is_licensed : Bool
  pub public_key : List ℕ
  pub has_is_unmessagable : Bool
  pub is_unmessagable : Bool

-- `meshtastic_Data`
pub record Data : Type 0 where
  pub portnum : ℕ
  pub payload : List ℕ
  pub want_response : Bool
  pub dest : ℕ
  pub source : ℕ
  pub request_id : ℕ
  pub reply_id : ℕ

-- The payload union of `meshtastic_MeshPacket` with its tag. `unset` is a tag that is neither, with
-- the bytes that the `encrypted` member of the union holds all the same.
pub data MeshPayload : Type 0 where
  decoded : Data → MeshPayload
  encrypted : List ℕ → MeshPayload
  unset : List ℕ → MeshPayload

pub data TransportMechanism : Type 0 where
  transport_internal transport_lora transport_mqtt : TransportMechanism

pub data Priority : Type 0 where
  priority_unset priority_ack : Priority

-- `meshtastic_MeshPacket`
pub record MeshPacket : Type 0 where
  pub from : ℕ
  pub to : ℕ
  pub channel : ℕ
  pub id : ℕ
  pub rx_snr : ℤ
  pub rx_rssi : ℤ
  pub hop_limit : ℕ
  pub hop_start : ℕ
  pub want_ack : Bool
  pub via_mqtt : Bool
  pub next_hop : ℕ
  pub relay_node : ℕ
  pub priority : Priority
  pub transport_mechanism : TransportMechanism
  pub payload : MeshPayload

-- `meshtastic_QueueStatus`
pub record QueueStatus : Type 0 where
  pub res : ℤ
  pub free : ℕ
  pub maxlen : ℕ
  pub mesh_packet_id : ℕ

-- `meshtastic_FromRadio`'s variants. Of `my_info` and `metadata` the constant members are left out;
-- a configuration sub-message is its tag and its content as the configuration store gives it.
pub data Variant : Type 0 where
  packet : MeshPacket → Variant
  my_info : (my_node_num : ℕ) → Variant
  device_ui_config : (content : List ℕ) → Variant
  node_info : (num : ℕ) → User → Variant
  metadata : (role hw_model : ℕ) → Variant
  channel : Channel → Variant
  config : (tag : ℕ) → (content : List ℕ) → Variant
  module_config : (tag : ℕ) → (content : List ℕ) → Variant
  queue_status : QueueStatus → Variant
  config_complete_id : ℕ → Variant
  rebooted : Variant

pub record FromRadio : Type 0 where
  pub id : ℕ
  pub variant : Variant
