-- ===== src/Router/Tests.antt =====
-- One broadcast frame through src/meshtastic_router.c, and the same frame again.
use meshtastic_zephyr.Prelude.{
  ℕ, get_le32, ◌≤◌, ◌≡◌, refl, ◌⊎◌, true, false, List, [], ◌∷◌, none, some, ok, arith,
}
use meshtastic_zephyr.Packet.{Packet, ℤ, Status, zero_packet}
use meshtastic_zephyr.Wire.{Header, parse_header, flags_hop_limit, relay_flags}
use meshtastic_zephyr.Channels.{all}
use meshtastic_zephyr.DupCache.{zero_dup, dup_check, found}
use meshtastic_zephyr.DupCache.Memory.{IsRing}
use meshtastic_zephyr.Router.{
  Mt, Deps, send_frame, relay_packet, sniff_rebroadcast, must_not_relay, process_lora_rx,
}
use meshtastic_zephyr.Router.Relay.{IsRelay, Hops, here, relayed, sniff_rebroadcast_relays, Hops-le}
use meshtastic_zephyr.Router.Receive.{IsQuiet, Reception, process_all, process_again}

-- From node 1 to all, id 5, with one of three hops left
abbrev test_frame : List ℕ
test_frame = 255 ∷ 255 ∷ 255 ∷ 255 ∷ 1 ∷ 0 ∷ 0 ∷ 0 ∷ 5 ∷ 0 ∷ 0 ∷ 0 ∷ 0x61 ∷ 8 ∷ 0 ∷ 0 ∷ 42 ∷ []

abbrev frame_header : Header
frame_header = record {
  dest = 0xFFFFFFFF;
  src = 1;
  id = 5;
  flags = 0x61;
  channel = 8;
  next_hop = 0;
  relay_node = 0;
}

frame_parses : parse_header test_frame ≡ some frame_header
unfolding parse_header get_le32
frame_parses = refl

abbrev test_status : Status
test_status = record {
  tx_packets = 0;
  tx_failures = 0;
  rx_packets = 0;
  relayed_packets = 0;
  duplicate_packets = 0;
  decode_failures = 0;
  rx_dropped = 0;
  rx_rearm_failures = 0;
  last_rx_from = 0;
  last_rssi = ℤ.pos 0;
  last_snr = ℤ.pos 0;
}

-- Node 9 with two entries in its cache
abbrev test_mt : Mt
test_mt = record {
  node_id = 9;
  dup = record { entries = zero_dup ∷ zero_dup ∷ []; head = 0 };
  status = test_status;
}

abbrev test_deps : Deps
test_deps = record {
  try_decode = λ buf rssi snr.
      ok (record zero_packet { from = 1; to = 0xFFFFFFFF; id = 5; portnum = 1 }, true);
  send_wire = λ frame. none;
  packet_ms = λ len. len;
  is_rebroadcaster = true;
  rebroadcast_mode = all;
  has_recv_cb = false;
  with_mqtt = false;
  ignore_mqtt = false;
  dup_cache_size = 2;
}

test_mt-IsRing : IsRing 2 test_mt.dup
test_mt-IsRing = record { small = omega arith; full = refl; head_in = omega arith }

frame_new : dup_check test_mt.dup 1 5 ≡ false
unfolding dup_check found
frame_new = refl

abbrev other_frame : List Reception
other_frame = record { buf = none; rssi = ℤ.pos 0; snr = ℤ.pos 0 } ∷ []

process_again_example :
    IsQuiet test_deps test_frame
      (process_lora_rx test_deps (some test_frame) (ℤ.pos 0) (ℤ.pos 0) (
        process_all test_deps other_frame
          (process_lora_rx test_deps (some test_frame) (ℤ.pos 0) (ℤ.pos 0) test_mt).0)).1
process_again_example =
    process_again test_deps test_mt test_frame test_frame frame_header frame_header other_frame
      (ℤ.pos 0) (ℤ.pos 0) (ℤ.pos 0) (ℤ.pos 0) test_mt-IsRing frame_parses refl frame_new
      frame_parses (refl, refl) (omega arith)

abbrev decoded_packet : Packet
decoded_packet = record zero_packet { from = 1; to = 0xFFFFFFFF; id = 5; portnum = 1 }

sniff_rebroadcast_relays_example :
    ((sniff_rebroadcast test_deps frame_header test_frame decoded_packet test_mt).1 ≡ [])
    ⊎ ((frame : List ℕ) × ((sniff_rebroadcast test_deps frame_header test_frame decoded_packet
            test_mt).1
          ≡ send_frame frame ∷ [])
        × IsRelay test_mt test_frame frame_header frame)
sniff_rebroadcast_relays_example =
    sniff_rebroadcast_relays test_deps frame_header test_frame decoded_packet test_mt frame_parses
      (omega arith)

abbrev relayed_frame : List ℕ
relayed_frame = 255 ∷ 255 ∷ 255 ∷ 255 ∷ 1 ∷ 0 ∷ 0 ∷ 0 ∷ 5 ∷ 0 ∷ 0 ∷ 0 ∷ 0x60 ∷ 8 ∷ 0 ∷ 0 ∷ 42 ∷ []

frame_sent :
    (sniff_rebroadcast test_deps frame_header test_frame decoded_packet test_mt).1
    ≡ send_frame relayed_frame ∷ []
unfolding sniff_rebroadcast relay_packet must_not_relay flags_hop_limit relay_flags
frame_sent = refl

one_hop : Hops 1 test_frame
one_hop = relayed test_deps decoded_packet test_mt frame_parses (omega arith) frame_sent here

Hops-le_example : 1 ≤ flags_hop_limit frame_header.flags
Hops-le_example = Hops-le 1 test_frame frame_header frame_parses one_hop
