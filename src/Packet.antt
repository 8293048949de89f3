-- ===== src/Packet.antt =====
-- The types of include/zephyr/meshtastic/meshtastic.h: packets, events and status counters.
use meshtastic_zephyr.Prelude.{ℕ, Bool, List, Option, Errno, ◌^◌, ◌+◌, ◌%◌, none}

-- Signed radio readings are stored and passed on, never computed with. `negsuc n` is -(n + 1).
pub data ℤ : Type 0 where
  pos : ℕ → ℤ
  negsuc : ℕ → ℤ

abbrev pub node_broadcast : ℕ
node_broadcast = 0xFFFFFFFF

abbrev pub max_payload_len : ℕ
max_payload_len = 233

abbrev pub channel_index_invalid : ℕ
channel_index_invalid = 0xFF

abbrev pub port_text_message : ℕ
port_text_message = 1

abbrev pub port_position : ℕ
port_position = 3

abbrev pub port_nodeinfo : ℕ
port_nodeinfo = 4

abbrev pub port_routing : ℕ
port_routing = 5

-- `meshtastic_PortNum_TEXT_MESSAGE_COMPRESSED_APP`
abbrev pub port_text_message_compressed : ℕ
port_text_message_compressed = 7

abbrev pub port_node_status : ℕ
port_node_status = 36

abbrev pub port_telemetry : ℕ
port_telemetry = 67

-- `struct meshtastic_packet`. `payload` is `none` for NULL, and otherwise the bytes that it points
-- at; the unsigned fields are numbers of their C width.
pub record Packet : Type 0 where
  pub from : ℕ
  pub to : ℕ
  pub id : ℕ
  pub portnum : ℕ
  pub payload : Option (List ℕ)
  pub payload_len : ℕ
  pub data_dest : ℕ
  pub data_source : ℕ
  pub request_id : ℕ
  pub reply_id : ℕ
  pub hop_limit : ℕ
  pub hop_start : ℕ
  pub channel : ℕ
  pub channel_index : ℕ
  pub next_hop : ℕ
  pub relay_node : ℕ
  pub want_ack : Bool
  pub via_mqtt : Bool
  pub want_response : Bool
  pub rssi : ℤ
  pub snr : ℤ

-- `struct meshtastic_packet packet = {0}`
abbrev pub zero_packet : Packet
zero_packet = record {
  from = 0;
  to = 0;
  id = 0;
  portnum = 0;
  payload = none;
  payload_len = 0;
  data_dest = 0;
  data_source = 0;
  request_id = 0;
  reply_id = 0;
  hop_limit = 0;
  hop_start = 0;
  channel = 0;
  channel_index = 0;
  next_hop = 0;
  relay_node = 0;
  want_ack = Bool.false;
  via_mqtt = Bool.false;
  want_response = Bool.false;
  rssi = ℤ.pos 0;
  snr = ℤ.pos 0;
}

-- `enum meshtastic_event_type`
pub data EventType : Type 0 where
  packet_received text_message tx_done tx_failed ble_connected ble_disconnected : EventType
  gnss_fix metrics_error tx_acked tx_no_ack : EventType

-- `struct meshtastic_event`; `error` is `none` for a zero `err`.
pub record Event : Type 0 where
  pub type : EventType
  pub error : Option Errno
  pub packet : Option Packet

-- The counters of `struct meshtastic_status` that packet handling changes.
pub record Status : Type 0 where
  pub tx_packets : ℕ
  pub tx_failures : ℕ
  pub rx_packets : ℕ
  pub relayed_packets : ℕ
  pub duplicate_packets : ℕ
  pub decode_failures : ℕ
  pub rx_dropped : ℕ
  pub rx_rearm_failures : ℕ
  pub last_rx_from : ℕ
  pub last_rssi : ℤ
  pub last_snr : ℤ

-- `x++` on a `uint32_t`
abbrev pub inc32 : ℕ → ℕ
inc32 n = (n + 1) % 2 ^ 32
