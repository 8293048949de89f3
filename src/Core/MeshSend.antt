-- ===== src/Core/MeshSend.antt =====
-- `meshtastic_send_mesh_pb` of src/meshtastic_packet.c: a `MeshPacket` message from a phone, from MQTT
-- or from the stack itself is sent.
pub mod Hops
use meshtastic_zephyr.Prelude.{
  ℕ, ◌%◌, ◌==◌, ltb, Bool, true, false, not, List, [], ◌∷◌, ◌++◌, Option, none, some, Errno, einval,
  enotsup, if◌then◌else◌, length,
}
use meshtastic_zephyr.Packet.{Packet, zero_packet, node_broadcast, channel_index_invalid, ℤ}
use meshtastic_zephyr.Messages.{Data, MeshPacket, MeshPayload, decoded, encrypted, unset}
use meshtastic_zephyr.Wire.{header_bytes, build_header, payload_max}
use meshtastic_zephyr.Channels.{max_channels}
use meshtastic_zephyr.Codec.Mesh.{mesh_hash, mesh_slot}
use meshtastic_zephyr.Core.{
  Core, Env, Wait, forever, Action, radio_send, mqtt_on_tx, Sent, send_packet, allocate_packet_id,
  radio_status, radio_events,
}

-- The packet that a decoded message is sent as.
unfoldable pub mesh_packet : MeshPacket → Data → Packet
mesh_packet mesh data' = record {
  from = mesh.from;
  to = if mesh.to == 0 then node_broadcast else mesh.to;
  id = mesh.id;
  portnum = data'.portnum;
  payload = some data'.payload;
  payload_len = length data'.payload;
  data_dest = data'.dest;
  data_source = data'.source;
  request_id = data'.request_id;
  reply_id = data'.reply_id;
  hop_limit = mesh.hop_limit;
  hop_start = mesh.hop_start;
  channel = 0;
  channel_index = mesh_slot mesh.channel;
  next_hop = mesh.next_hop;
  relay_node = mesh.relay_node;
  want_ack = mesh.want_ack;
  via_mqtt = mesh.via_mqtt;
  want_response = data'.want_response;
  rssi = ℤ.pos 0;
  snr = ℤ.pos 0;
}

-- The header's fields for an encrypted message, as the packet that MQTT is told of holds them.
pub encrypted_packet : Core → MeshPacket → Packet
encrypted_packet c mesh =
    let hop_limit = (if mesh.hop_limit == 0 then c.hop_limit else mesh.hop_limit) in
    record zero_packet {
      from = if mesh.from == 0 then c.node_id else mesh.from;
      to = if mesh.to == 0 then node_broadcast else mesh.to;
      id = if mesh.id == 0 then (allocate_packet_id c.next_pkt_id).0 else mesh.id;
      hop_limit = hop_limit;
      hop_start = if mesh.hop_start == 0 then hop_limit else mesh.hop_start;
      channel = mesh_hash c.channels mesh.channel;
      want_ack = mesh.want_ack;
      via_mqtt = mesh.via_mqtt;
      next_hop = mesh.next_hop;
      relay_node = mesh.relay_node;
    }

-- The branch for an encrypted message. The shared buffer that the header is read from again once the
-- radio has answered is taken to be as it was written.
pub send_encrypted : Env → MeshPacket → List ℕ → Core → Sent
send_encrypted e mesh enc c =
    let tx_packet = encrypted_packet c mesh in
    let wire = header_bytes (build_header tx_packet tx_packet.channel) ++ enc in
    let counted : Core = record c {
      next_pkt_id = if mesh.id == 0 then (allocate_packet_id c.next_pkt_id).1 else c.next_pkt_id;
    } in
    let ret = e.send_wire forever wire in
    let outcome = e.tx_outcome forever wire in
    if ltb payload_max (length enc)
    then record { ret = some einval; core = c; actions = [] }
    else record {
      ret = ret;
      core = record counted { status = radio_status outcome counted.status };
      actions =
          radio_send forever wire
          ∷ (radio_events c outcome ++ elim ret [
            | some error ↦ []
            | none ↦ if e.with_mqtt then mqtt_on_tx tx_packet wire ∷ [] else []
          ]);
    }

-- `meshtastic_send_mesh_pb`
unfoldable pub send_mesh_pb : Env → Option MeshPacket → Core → Option Sent
send_mesh_pb e none c = some (record { ret = some einval; core = c; actions = [] })
send_mesh_pb e (some mesh) c = elim mesh.payload [
  | decoded data' ↦ send_packet e (some (mesh_packet mesh data')) forever c
  | encrypted enc ↦ some (send_encrypted e mesh enc c)
  | unset enc ↦ some (record { ret = some enotsup; core = c; actions = [] })
]
