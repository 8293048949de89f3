-- ===== src/Wire/Codec.antt =====
-- Writing and reading back the wire header.
use meshtastic_zephyr.Prelude.{
  ℕ, ◌%◌, ◌<◌, ◌^◌, ◌≡◌, refl, List, ◌++◌, some, arith, length, put_le32, get_le32-put,
}
use meshtastic_zephyr.Packet.{Packet, ℤ, channel_index_invalid}
use meshtastic_zephyr.Wire.{
  flags_hop_limit, Header, header_bytes, parse_header, build_header, fill_packet_from_header,
  hdr_len,
}
use meshtastic_zephyr.Wire.Flags.{make_flags-Reads}

-- The three words of a header fit `uint32_t`.
pub record HeaderFits (h : Header) : Type 0 where
  pub dest_fits : h.dest < 2 ^ 32
  pub src_fits : h.src < 2 ^ 32
  pub id_fits : h.id < 2 ^ 32

-- The packet fields that the header carries fit their C types.
pub record PacketFits (p : Packet) : Type 0 where
  pub to_fits : p.to < 2 ^ 32
  pub from_fits : p.from < 2 ^ 32
  pub id_fits : p.id < 2 ^ 32
  pub hop_limit_fits : p.hop_limit < 256
  pub hop_start_fits : p.hop_start < 256

pub length-header_bytes : (h : Header) → length (header_bytes h) ≡ hdr_len
unfolding header_bytes put_le32
length-header_bytes h = refl

-- The header of a frame is read back from its bytes, whatever follows it.
pub parse_header-header_bytes :
    (h : Header) (rest : List ℕ) → HeaderFits h → parse_header (header_bytes h ++ rest) ≡ some h
unfolding parse_header header_bytes put_le32
parse_header-header_bytes h rest v =
    ground (arith, get_le32-put h.dest, get_le32-put h.src, get_le32-put h.id)

-- What a receiver knows of a packet from its header alone.
abbrev pub header_view : Packet → ℕ → ℤ → ℤ → Packet → Packet
header_view p wire_hash rssi snr q = record q {
  from = p.from;
  to = p.to;
  id = p.id;
  hop_limit = p.hop_limit % 8;
  hop_start = p.hop_start % 8;
  channel = wire_hash;
  channel_index = channel_index_invalid;
  next_hop = p.next_hop;
  relay_node = p.relay_node;
  want_ack = p.want_ack;
  via_mqtt = p.via_mqtt;
  rssi = rssi;
  snr = snr;
}

-- A receiver reads a packet's addresses, its marks and its hop counts modulo 8 from the header that
-- the sender built for it.
pub fill-build_header :
    (p q : Packet) (wire_hash : ℕ) (rssi snr : ℤ)
    → PacketFits p
    → fill_packet_from_header (build_header p wire_hash) rssi snr q
      ≡ header_view p wire_hash rssi snr q
unfolding fill_packet_from_header build_header
fill-build_header p q wire_hash rssi snr v =
    ground (arith, make_flags-Reads p.hop_limit p.hop_start p.want_ack p.via_mqtt)

pub build_header-HeaderFits :
    (p : Packet) (wire_hash : ℕ) → PacketFits p → HeaderFits (build_header p wire_hash)
unfolding build_header
build_header-HeaderFits p wire_hash v = ground arith

pub build_header_channel :
    (p : Packet) (wire_hash : ℕ) → (build_header p wire_hash).channel ≡ wire_hash
unfolding build_header
build_header_channel p wire_hash = refl

pub flags_hop_limit-build_header :
    (p : Packet) (wire_hash : ℕ)
    → PacketFits p
    → flags_hop_limit (build_header p wire_hash).flags ≡ p.hop_limit % 8
unfolding build_header
flags_hop_limit-build_header p wire_hash v =
    (make_flags-Reads p.hop_limit p.hop_start p.want_ack p.via_mqtt v.hop_limit_fits
      v.hop_start_fits).0
