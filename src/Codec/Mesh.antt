-- ===== src/Codec/Mesh.antt =====
-- The conversions between packets and `MeshPacket` messages in src/meshtastic_packet.c.
pub mod Convert
use meshtastic_zephyr.Prelude.{
  ℕ, ◌%◌, ◌==◌, ltb, true, false, not, List, [], Option, none, some, Result, ok, err, einval,
  enotsup, if◌then◌else◌, length,
}
use meshtastic_zephyr.Packet.{Packet, ℤ, channel_index_invalid}
use meshtastic_zephyr.Messages.{
  Data, MeshPacket, MeshPayload, decoded, encrypted, unset, transport_mqtt, transport_lora,
  priority_unset,
}
use meshtastic_zephyr.Channels.{Channels, max_channels}
use meshtastic_zephyr.Channels.Policy.{get_hash}
use meshtastic_zephyr.Codec.{
  Platform, bad_payload, packet_data, encode_packet_data, try_decrypt_wire_hash, copy_data_payload,
}

-- The message that `meshtastic_packet_to_mesh_pb` makes.
pub mesh_of : Packet → MeshPacket
mesh_of p = record {
  from = p.from;
  to = p.to;
  channel = if p.channel_index == channel_index_invalid then 0 else p.channel_index;
  id = p.id;
  rx_snr = p.snr;
  rx_rssi = p.rssi;
  hop_limit = p.hop_limit;
  hop_start = p.hop_start;
  want_ack = p.want_ack;
  via_mqtt = p.via_mqtt;
  next_hop = p.next_hop;
  relay_node = p.relay_node;
  priority = priority_unset;
  transport_mechanism = if p.via_mqtt then transport_mqtt else transport_lora;
  payload = decoded (packet_data p);
}

-- `meshtastic_packet_to_mesh_pb`
pub packet_to_mesh_pb : Option Packet → Result MeshPacket
packet_to_mesh_pb none = err einval
packet_to_mesh_pb (some p) = if bad_payload p then err einval else ok (mesh_of p)

-- The decryption of `meshtastic_mesh_pb_try_decode`. A message without a channel is tried with the
-- hash of the primary one.
pub decrypt_mesh : Platform → Channels → MeshPacket → List ℕ → Option (Result MeshPacket)
decrypt_mesh c t mesh enc =
    let wire_hash : ℕ = (if mesh.channel == 0 then t.ch_hash else mesh.channel % 256) in
    elim (try_decrypt_wire_hash c t wire_hash mesh.from mesh.id enc) [
      | none ↦ none
      | some (err e) ↦ some (err e)
      | some (ok (data', ch_index)) ↦
          some (ok (record mesh { payload = decoded data'; channel = ch_index }))
    ]

-- `meshtastic_mesh_pb_try_decode`: the message with its payload decrypted. Where it fails no caller
-- reads the message again, whose tag may have been set.
unfoldable pub mesh_pb_try_decode : Platform → Channels → MeshPacket → Option (Result MeshPacket)
mesh_pb_try_decode c t mesh = elim mesh.payload [
  | decoded data' ↦ some (ok mesh)
  | encrypted enc ↦ if length enc == 0 then some (err einval) else decrypt_mesh c t mesh enc
  | unset enc ↦ if length enc == 0 then some (err enotsup) else decrypt_mesh c t mesh enc
]

-- The hash and the slot of a message's channel
abbrev pub mesh_hash : Channels → ℕ → ℕ
mesh_hash t channel =
    if ltb channel max_channels
    then get_hash t channel
    else if not (channel == 0)
    then channel % 256
    else t.ch_hash

abbrev pub mesh_slot : ℕ → ℕ
mesh_slot channel = if ltb channel max_channels then channel else channel_index_invalid

-- `meshtastic_mesh_pb_to_packet` on a message that is decoded
pub decoded_to_packet : Channels → MeshPacket → Data → ℕ → Result Packet
decoded_to_packet t mesh data' payload_len = elim (copy_data_payload data' payload_len) [
  | err e ↦ err e
  | ok payload ↦ ok (record {
    from = mesh.from;
    to = mesh.to;
    id = mesh.id;
    portnum = data'.portnum;
    payload = payload;
    payload_len = length data'.payload;
    data_dest = data'.dest;
    data_source = data'.source;
    request_id = data'.request_id;
    reply_id = data'.reply_id;
    hop_limit = mesh.hop_limit;
    hop_start = mesh.hop_start;
    channel = mesh_hash t mesh.channel;
    channel_index = mesh_slot mesh.channel;
    next_hop = mesh.next_hop;
    relay_node = mesh.relay_node;
    want_ack = mesh.want_ack;
    via_mqtt = mesh.via_mqtt;
    want_response = data'.want_response;
    rssi = ℤ.pos 0;
    snr = ℤ.pos 0;
  })
]

-- `meshtastic_mesh_pb_to_packet` with a buffer of `payload_len` bytes; the call of itself is made on a
-- message that was decoded.
pub mesh_pb_to_packet : Platform → Channels → Option MeshPacket → ℕ → Option (Result Packet)
mesh_pb_to_packet c t none payload_len = some (err einval)
mesh_pb_to_packet c t (some mesh) payload_len = elim (mesh_pb_try_decode c t mesh) [
  | none ↦ none
  | some (err e) ↦ some (err e)
  | some (ok work) ↦ elim work.payload [
    | decoded data' ↦ some (decoded_to_packet t work data' payload_len)
    | _ ↦ some (err enotsup)
  ]
]
