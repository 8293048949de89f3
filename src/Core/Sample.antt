-- ===== src/Core/Sample.antt =====
-- A node with one channel, and a radio that takes every frame or none, to run src/meshtastic.c on.
use meshtastic_zephyr.Prelude.{true, false, [], none, some, ebusy}
use meshtastic_zephyr.Packet.{Status, ℤ}
use meshtastic_zephyr.Codec.Sample.{plain, primary_only, nobody}
use meshtastic_zephyr.Core.{Core, Env}

abbrev pub zero_status : Status
zero_status = record {
  tx_packets = 0;
  tx_failures = 0;
  rx_packets = 0;
  relayed_packets = 0;
  duplicate_packets = 0;
  decode_failures = 0;
  rx_dropped = 0;
  rx_rearm_failures = 0;
  last_rx_from = 0;
  last_rssi = ℤ.pos 0;
  last_snr = ℤ.pos 0;
}

abbrev pub node : Core
node = record {
  initialized = true;
  node_id = 9;
  hop_limit = 3;
  next_pkt_id = 5;
  has_event_cb = false;
  status = zero_status;
  channels = primary_only;
  reliable = record { entries = []; timer = none };
}

abbrev pub good_radio : Env
good_radio = record {
  platform = plain;
  peers = nobody;
  kconfig = record {
    max_pending = 0;
    retransmissions = 3;
    retry_interval_ms = 5000;
    retry_jitter_ms = 0;
  };
  with_mqtt = false;
  send_wire = λ wait wire. none;
  tx_outcome = λ wait wire. none;
  now = 0;
  random = 0;
}

abbrev pub busy_radio : Env
busy_radio = record good_radio {
  send_wire = λ wait wire. some ebusy;
  tx_outcome = λ wait wire. some (some ebusy);
}
