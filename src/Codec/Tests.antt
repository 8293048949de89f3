-- ===== src/Codec/Tests.antt =====
-- One packet through src/meshtastic_packet.c, with a plain encoding and a cipher that changes nothing.
use meshtastic_zephyr.Prelude.{
  ℕ, ◌≡◌, refl, true, false, List, [], ◌∷◌, ◌++◌, some, ok, arith, length,
}
use meshtastic_zephyr.Packet.{Packet, ℤ, zero_packet, max_payload_len}
use meshtastic_zephyr.Messages.{Data, MeshPacket}
use meshtastic_zephyr.Wire.{header_bytes, build_header}
use meshtastic_zephyr.Wire.Codec.{PacketFits}
use meshtastic_zephyr.Channels.{get_key, get_key_fuel, own_key}
use meshtastic_zephyr.Channels.Policy.{get_hash, resolve_send_index, decode_known_only}
use meshtastic_zephyr.Codec.{
  build_wire_packet, try_decode_wire_packet, encode_packet_data, bad_payload, packet_data, crypt,
  ctr_crypt, payload_bytes, try_slot, decrypt_mesh_encrypted_key,
}
use meshtastic_zephyr.Codec.Roundtrip.{received, received_payload, try_decode-build}
use meshtastic_zephyr.Codec.Mesh.{packet_to_mesh_pb, mesh_pb_to_packet}
use meshtastic_zephyr.Codec.Mesh.Convert.{to_packet-to_mesh}
use meshtastic_zephyr.Codec.Sample.{
  plain_bytes, plain, plain-IsPlatform, primary_only, nobody, primary_psks, primary_own,
  primary_tried, note, note_good,
}

abbrev hello : Packet
hello = record zero_packet {
  from = 0x11223344;
  to = 0xFFFFFFFF;
  id = 77;
  portnum = 1;
  payload = some (b'h' ∷ b'i' ∷ []);
  payload_len = 2;
  hop_limit = 3;
  hop_start = 3;
}

abbrev hello_data : Data
hello_data = record {
  portnum = 1;
  payload = b'h' ∷ b'i' ∷ [];
  want_response = false;
  dest = 0;
  source = 0;
  request_id = 0;
  reply_id = 0;
}

abbrev hello_frame : List ℕ
hello_frame = header_bytes (build_header hello (get_hash primary_only 0)) ++ plain_bytes hello_data

hello-PacketFits : PacketFits hello
hello-PacketFits = record {
  to_fits = omega arith;
  from_fits = omega arith;
  id_fits = omega arith;
  hop_limit_fits = omega arith;
  hop_start_fits = omega arith;
}

hello_built : build_wire_packet plain nobody primary_only hello ≡ some (ok hello_frame)
unfolding build_wire_packet encode_packet_data bad_payload packet_data crypt ctr_crypt get_key
    get_key_fuel own_key resolve_send_index
hello_built = refl

hello_slot :
    resolve_send_index nobody.channel primary_only hello.to hello.channel_index hello.channel ≡ 0
unfolding resolve_send_index
hello_slot = refl

hello_known : decode_known_only nobody.known primary_only hello.from ≡ true
unfolding decode_known_only
hello_known = refl

try_decode-build_example :
    try_decode_wire_packet plain nobody primary_only
      (some hello_frame)
      (ℤ.negsuc 89)
      (ℤ.pos 6)
      zero_packet
      max_payload_len
    ≡ some (ok (received primary_only hello 0 (ℤ.negsuc 89) (ℤ.pos 6) zero_packet, true))
try_decode-build_example =
    try_decode-build plain nobody primary_only hello zero_packet hello_frame (ℤ.negsuc 89) (ℤ.pos 6)
      0 plain-IsPlatform hello-PacketFits (omega arith) (omega arith) hello_slot primary_psks
      primary_own hello_known primary_tried (λ j lt. absurd (omega arith)) hello_built

hello_slot_data :
    try_slot plain primary_only 0x11223344 77 (plain_bytes hello_data) 0 ≡ some (ok hello_data)
unfolding try_slot get_key get_key_fuel own_key decrypt_mesh_encrypted_key crypt ctr_crypt
hello_slot_data = refl

to_packet-to_mesh_example :
    (m : MeshPacket) × (packet_to_mesh_pb (some note) ≡ ok m)
    × (mesh_pb_to_packet plain primary_only (some m) max_payload_len
        ≡ some (
            ok (record note {
              payload = received_payload note;
              payload_len = length (payload_bytes note);
              channel = get_hash primary_only note.channel_index;
              rssi = ℤ.pos 0;
              snr = ℤ.pos 0;
            })))
to_packet-to_mesh_example =
    to_packet-to_mesh plain primary_only note (note_good note refl refl) (omega arith)
