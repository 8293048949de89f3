-- ===== src/Phone/ToRadio/Tests.antt =====
-- A packet from a phone and a heartbeat, on a ring of two frames.
use meshtastic_zephyr.Prelude.{
  ℕ, ◌≡◌, refl, false, List, [], ◌∷◌, Option, none, some, arith, ◌==◌, if◌then◌else◌,
}
use meshtastic_zephyr.Packet.{ℤ}
use meshtastic_zephyr.Messages.{MeshPacket, Variant, unset, transport_internal, priority_unset}
use meshtastic_zephyr.Phone.{PhoneApi, idle, data_ready}
use meshtastic_zephyr.Phone.Queue.Refines.{IsValid, frames, push_back}
use meshtastic_zephyr.Phone.Handshake.{Source, Session}
use meshtastic_zephyr.Phone.ToRadio.{
  ToRadio, packet, heartbeat, handle_toradio, register, is_registered,
}
use meshtastic_zephyr.Phone.ToRadio.Answers.{IsNearest, status_for, handle_toradio_packet}

abbrev message : MeshPacket
message = record {
  from = 0;
  to = 9;
  channel = 0;
  id = 77;
  rx_snr = ℤ.pos 0;
  rx_rssi = ℤ.pos 0;
  hop_limit = 0;
  hop_start = 0;
  want_ack = false;
  via_mqtt = false;
  next_hop = 0;
  relay_node = 0;
  priority = priority_unset;
  transport_mechanism = transport_internal;
  payload = unset [];
}

abbrev named : Variant → List ℕ
named (Variant.queue_status status) = status.mesh_packet_id ∷ []
named _ = []

abbrev source : Source
source = record {
  node_id = 7;
  user = record {
    user_id = [];
    long_name = b'a' ∷ [];
    short_name = b'a' ∷ [];
    macaddr = [];
    hw_model = 0;
    role = 0;
    is_licensed = false;
    public_key = [];
    has_is_unmessagable = false;
    is_unmessagable = false;
  };
  device_role = 0;
  hw_model = 0;
  device_ui_content = [];
  get_channel = λ i. none;
  get_config = λ tag. none;
  get_module = λ tag. none;
  encode_fromradio = λ m. some (named m.variant);
}

abbrev ring : PhoneApi
ring = record {
  queue = (1 ∷ []) ∷ (2 ∷ []) ∷ [];
  current = [];
  queue_size = 2;
  head = 0;
  tail = 0;
  count = 2;
  current_valid = false;
  from_num = 2;
  config_state = idle;
  config_index = 0;
  config_request_id = 0;
}

ring-IsValid : IsValid ring
ring-IsValid = record {
  storage = omega arith;
  has_room = omega arith;
  tail_in = omega arith;
  count_in = omega arith;
  head_at = refl;
}

abbrev session : Session
session = record { api = ring; next_id = 41 }

-- The bytes 1 and 2 are a packet and a heartbeat.
abbrev decode : List ℕ → Option ToRadio
decode (b ∷ []) = if b == 1 then some (packet message) else if b == 2 then some heartbeat else none
decode _ = none

abbrev sends : MeshPacket → ℤ
sends m = ℤ.pos 0

-- The encoder writes the identifier that a queue status names.
names_packet : source.encode_fromradio (status_for message (ℤ.pos 0) session) ≡ some (77 ∷ [])
names_packet = refl

zero-IsNearest : IsNearest (sends message) (ℤ.pos 0)
zero-IsNearest = record { above = λ k e. ground arith; below = λ k e. absurd (cc e) }

handle_toradio_packet_example :
    IsValid (handle_toradio decode source sends false (1 ∷ []) session).session.api
    × (frames (handle_toradio decode source sends false (1 ∷ []) session).session.api
        ≡ push_back 2 (frames ring) (77 ∷ []))
    × ((handle_toradio decode source sends false (1 ∷ []) session).signals ≡ data_ready ∷ [])
handle_toradio_packet_example =
    handle_toradio_packet decode source sends false (1 ∷ []) session message (ℤ.pos 0) (77 ∷ [])
      ring-IsValid refl zero-IsNearest names_packet

third_transport : register 3 (register 2 (register 2 (register 1 []))) ≡ 1 ∷ 2 ∷ []
unfolding register is_registered
third_transport = refl
