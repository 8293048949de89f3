-- ===== src/Router/Inject/Tests.antt =====
-- A message without a payload that comes in over MQTT and is then heard by radio.
use meshtastic_zephyr.Prelude.{
  ℕ, ◌≡◌, refl, true, false, List, [], ◌∷◌, none, some, err, einval, arith, get_le32,
}
use meshtastic_zephyr.Packet.{ℤ}
use meshtastic_zephyr.Messages.{MeshPacket, unset, priority_unset, transport_internal}
use meshtastic_zephyr.Wire.{Header, parse_header}
use meshtastic_zephyr.Channels.{all}
use meshtastic_zephyr.DupCache.{zero_dup, dup_check, dup_add, found}
use meshtastic_zephyr.DupCache.Memory.{IsRing}
use meshtastic_zephyr.Codec.Mesh.{mesh_pb_try_decode}
use meshtastic_zephyr.Core.Sample.{node, good_radio}
use meshtastic_zephyr.Router.{Deps, process_lora_rx}
use meshtastic_zephyr.Router.Receive.{IsQuiet, process_all}
use meshtastic_zephyr.Router.Inject.{
  Bridge, Injected, reception, is_local, is_relayed, deliver, finish, inject_new, known, inject,
}
use meshtastic_zephyr.Router.Inject.Again.{inject_again}

abbrev test_deps : Deps
test_deps = record {
  try_decode = λ buf rssi snr. err einval;
  send_wire = λ frame. none;
  packet_ms = λ len. len;
  is_rebroadcaster = true;
  rebroadcast_mode = all;
  has_recv_cb = false;
  with_mqtt = true;
  ignore_mqtt = false;
  dup_cache_size = 2;
}

abbrev test_bridge : Bridge
test_bridge = record { core = node; dup = record { entries = zero_dup ∷ zero_dup ∷ []; head = 0 } }

-- From node 7 to node 9, id 77
abbrev message : MeshPacket
message = record {
  from = 7;
  to = 9;
  channel = 0;
  id = 77;
  rx_snr = ℤ.pos 0;
  rx_rssi = ℤ.pos 0;
  hop_limit = 1;
  hop_start = 3;
  want_ack = false;
  via_mqtt = false;
  next_hop = 0;
  relay_node = 0;
  priority = priority_unset;
  transport_mechanism = transport_internal;
  payload = unset [];
}

abbrev heard_frame : List ℕ
heard_frame = 9 ∷ 0 ∷ 0 ∷ 0 ∷ 7 ∷ 0 ∷ 0 ∷ 0 ∷ 77 ∷ 0 ∷ 0 ∷ 0 ∷ 0x61 ∷ 8 ∷ 0 ∷ 0 ∷ []

abbrev heard_header : Header
heard_header = record {
  dest = 9;
  src = 7;
  id = 77;
  flags = 0x61;
  channel = 8;
  next_hop = 0;
  relay_node = 0;
}

heard_parses : parse_header heard_frame ≡ some heard_header
unfolding parse_header get_le32
heard_parses = refl

test_bridge-IsRing : IsRing 2 test_bridge.dup
test_bridge-IsRing = record { small = omega arith; full = refl; head_in = omega arith }

message_new : dup_check test_bridge.dup 7 77 ≡ false
unfolding dup_check found
message_new = refl

abbrev left : Injected
left = record {
  ret = none;
  bridge = record test_bridge { dup = dup_add 2 (record { src = 7; id = 77 }) test_bridge.dup };
  calls = [];
}

message_in : inject good_radio test_deps (some message) test_bridge ≡ some left
unfolding inject inject_new finish is_local is_relayed deliver dup_check found mesh_pb_try_decode
message_in = refl

kept : left.bridge.dup ≡ (process_all test_deps [] (reception left.bridge)).dup
unfolding process_all
kept = refl

inject_again_example :
    IsQuiet test_deps heard_frame
      (process_lora_rx test_deps
        (some heard_frame)
        (ℤ.pos 0)
        (ℤ.pos 0)
        (process_all test_deps [] (reception left.bridge))).1
    × (inject good_radio test_deps (some message) left.bridge ≡ some (known left.bridge))
inject_again_example =
    inject_again good_radio test_deps message test_bridge left.bridge left [] heard_frame
      heard_header (ℤ.pos 0) (ℤ.pos 0) test_bridge-IsRing refl message_new message_in (omega arith)
      heard_parses (refl, refl) (kept, refl)
