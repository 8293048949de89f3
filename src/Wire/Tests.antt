-- ===== src/Wire/Tests.antt =====
-- The wire header on one packet.
use meshtastic_zephyr.Prelude.{◌≢◌, true, arith}
use meshtastic_zephyr.Packet.{Packet, zero_packet}
use meshtastic_zephyr.Wire.{Header, flags_hop_limit}
use meshtastic_zephyr.Wire.Codec.{HeaderFits, PacketFits}

abbrev test_packet : Packet
test_packet = record zero_packet {
  from = 0x11223344;
  to = 0xFFFFFFFF;
  id = 77;
  hop_limit = 3;
  hop_start = 3;
  want_ack = true;
}

test_packet-PacketFits : PacketFits test_packet
test_packet-PacketFits = record {
  to_fits = omega arith;
  from_fits = omega arith;
  id_fits = omega arith;
  hop_limit_fits = omega arith;
  hop_start_fits = omega arith;
}

abbrev test_header : Header
test_header = record {
  dest = 0xFFFFFFFF;
  src = 0x11223344;
  id = 77;
  flags = 0x6b;
  channel = 8;
  next_hop = 0;
  relay_node = 0;
}

test_header-HeaderFits : HeaderFits test_header
test_header-HeaderFits = record {
  dest_fits = omega arith;
  src_fits = omega arith;
  id_fits = omega arith;
}

has_hops : flags_hop_limit 0x6b ≢ 0
unfolding flags_hop_limit
has_hops = omega arith
