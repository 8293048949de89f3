-- ===== src/Codec/Mesh/Convert.antt =====
-- A packet made a `MeshPacket` message and back.
use meshtastic_zephyr.Prelude.{◌<◌, ◌≡◌, false, some, ok, arith, length}
use meshtastic_zephyr.Packet.{Packet, ℤ, max_payload_len}
use meshtastic_zephyr.Messages.{MeshPacket}
use meshtastic_zephyr.Channels.{Channels, max_channels}
use meshtastic_zephyr.Channels.Policy.{get_hash}
use meshtastic_zephyr.Codec.{Platform, bad_payload, packet_data, payload_bytes}
use meshtastic_zephyr.Codec.Roundtrip.{received_payload, payload_small, copied_payload}
use meshtastic_zephyr.Codec.Mesh.{
  packet_to_mesh_pb, mesh_of, mesh_pb_try_decode, mesh_pb_to_packet, decoded_to_packet,
}

-- A packet with a good payload and a channel slot becomes a message, and the message that packet
-- again, but for the reception readings, which are dropped: the payload in a buffer of its length, and
-- the slot's present hash.
pub to_packet-to_mesh :
    (c : Platform) (t : Channels) (p : Packet)
    → bad_payload p ≡ false
    → p.channel_index < max_channels
    → (m : MeshPacket) × (packet_to_mesh_pb (some p) ≡ ok m)
      × (mesh_pb_to_packet c t (some m) max_payload_len
          ≡ some (
              ok (record p {
                payload = received_payload p;
                payload_len = length (payload_bytes p);
                channel = get_hash t p.channel_index;
                rssi = ℤ.pos 0;
                snr = ℤ.pos 0;
              })))
unfolding packet_to_mesh_pb mesh_pb_to_packet mesh_pb_try_decode decoded_to_packet packet_data
    mesh_of
to_packet-to_mesh c t p good lt =
    let copied = copied_payload p (payload_small p good) in
    (mesh_of p, ground (arith, good), ground (arith, copied))
