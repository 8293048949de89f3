-- ===== src/Routing/Tests.antt =====
-- A text message to node 9 in src/meshtastic_routing.c.
use meshtastic_zephyr.Prelude.{◌≡◌, ◌≢◌, refl, true, [], ◌∷◌, some}
use meshtastic_zephyr.Packet.{Packet, zero_packet, port_routing}
use meshtastic_zephyr.Messages.{MeshPacket, decoded, Data}
use meshtastic_zephyr.Routing.{Node, ack_packet, send_ack, on_decoded, packet_is_to_us}
use meshtastic_zephyr.Routing.Replies.{on_decoded_acks}

abbrev test_node : Node
test_node = record { node_id = 9; hop_limit = 3; primary_index = 0 }

abbrev text_message : Packet
text_message = record zero_packet {
  from = 4;
  to = 9;
  id = 77;
  portnum = 1;
  want_ack = true;
  hop_start = 3;
  hop_limit = 2;
}

abbrev test_ack : MeshPacket
test_ack = ack_packet test_node 100 (24 ∷ 0 ∷ []) text_message

ack_sent : (on_decoded test_node 100 (some (24 ∷ 0 ∷ [])) (some text_message)).1 ≡ some test_ack
unfolding on_decoded send_ack packet_is_to_us
ack_sent = refl

on_decoded_acks_example :
    (text_message.want_ack ≡ true)
    × (text_message.to ≡ test_node.node_id)
    × (text_message.from ≢ test_node.node_id)
    × (test_ack.to ≡ text_message.from)
    × (test_ack.want_ack ≡ true → text_message.portnum ≢ port_routing)
    × ((data' : Data) × (test_ack.payload ≡ decoded data')
        × (data'.portnum ≡ port_routing)
        × (data'.request_id ≡ text_message.id))
on_decoded_acks_example = on_decoded_acks test_node 100 (some (24 ∷ 0 ∷ [])) text_message ack_sent
