-- ===== src/Wire.antt =====
-- The 16-byte header of a LoRa frame: `struct meshtastic_wire_header` of src/meshtastic_packet.h, its
-- flags byte, and `fill_packet_from_header` of src/meshtastic_packet.c.
pub mod Flags
pub mod Codec
pub mod Rewrite
mod Tests
use meshtastic_zephyr.Prelude.{
  ℕ, ◌*◌, ◌/◌, ◌-◌, ◌==◌, Bool, not, List, [], ◌∷◌, ◌++◌, Option, none, some, if◌then◌else◌,
  bit_and, bit_or, put_le32, get_le32,
}
use meshtastic_zephyr.Packet.{Packet, ℤ, channel_index_invalid}

abbrev pub pkt_max : ℕ
pkt_max = 255

abbrev pub hdr_len : ℕ
hdr_len = 16

abbrev pub payload_max : ℕ
payload_max = 239

pub record Header : Type 0 where
  pub dest : ℕ
  pub src : ℕ
  pub id : ℕ
  pub flags : ℕ
  pub channel : ℕ
  pub next_hop : ℕ
  pub relay_node : ℕ

-- The header's bytes in memory: packed, little-endian (`sys_cpu_to_le32`).
pub header_bytes : Header → List ℕ
header_bytes h =
    put_le32 h.dest
    ++ (put_le32 h.src ++ (put_le32 h.id ++ (h.flags ∷ h.channel ∷ h.next_hop ∷ h.relay_node ∷ [])))

-- `(const struct meshtastic_wire_header *)buf`, with `sys_le32_to_cpu`; `none` if fewer than
-- `hdr_len` bytes are there, which the callers test before.
unfoldable pub parse_header : List ℕ → Option Header
parse_header (d0 ∷ d1 ∷ d2 ∷ d3 ∷ s0 ∷ s1 ∷ s2 ∷ s3 ∷ i0 ∷ i1 ∷ i2 ∷ i3 ∷ f ∷ c ∷ n ∷ r ∷ rest) =
    some (record {
      dest = get_le32 d0 d1 d2 d3;
      src = get_le32 s0 s1 s2 s3;
      id = get_le32 i0 i1 i2 i3;
      flags = f;
      channel = c;
      next_hop = n;
      relay_node = r;
    })
parse_header _ = none

-- `flags & MESHTASTIC_FLAGS_HOP_LIMIT_MASK`
unfoldable pub flags_hop_limit : ℕ → ℕ
flags_hop_limit f = bit_and f 7

-- `(flags & MESHTASTIC_FLAGS_HOP_START_MASK) >> MESHTASTIC_FLAGS_HOP_START_SHIFT`
pub flags_hop_start : ℕ → ℕ
flags_hop_start f = bit_and f 0xe0 / 32

pub flags_want_ack : ℕ → Bool
flags_want_ack f = not (bit_and f 8 == 0)

pub flags_via_mqtt : ℕ → Bool
flags_via_mqtt f = not (bit_and f 16 == 0)

-- The flags that `meshtastic_build_wire_packet` writes.
pub make_flags : ℕ → ℕ → Bool → Bool → ℕ
make_flags hop_limit hop_start want_ack via_mqtt =
    let base : ℕ = bit_or (bit_and hop_limit 7) (bit_and hop_start 7 * 32) in
    let acked : ℕ = (if want_ack then bit_or base 8 else base) in
    if via_mqtt then bit_or acked 16 else acked

-- The flags that `relay_packet` writes; `~0x07` keeps the five high bits of the byte.
unfoldable pub relay_flags : ℕ → ℕ → ℕ
relay_flags flags hop_limit = bit_or (bit_and flags 0xf8) (bit_and (hop_limit - 1) 7)

-- `fill_packet_from_header`
pub fill_packet_from_header : Header → ℤ → ℤ → Packet → Packet
fill_packet_from_header h rssi snr p = record p {
  from = h.src;
  to = h.dest;
  id = h.id;
  hop_limit = flags_hop_limit h.flags;
  hop_start = flags_hop_start h.flags;
  channel = h.channel;
  channel_index = channel_index_invalid;
  next_hop = h.next_hop;
  relay_node = h.relay_node;
  want_ack = flags_want_ack h.flags;
  via_mqtt = flags_via_mqtt h.flags;
  rssi = rssi;
  snr = snr;
}

-- The header that `meshtastic_build_wire_packet` writes for a packet and a channel hash.
pub build_header : Packet → ℕ → Header
build_header p wire_hash = record {
  dest = p.to;
  src = p.from;
  id = p.id;
  flags = make_flags p.hop_limit p.hop_start p.want_ack p.via_mqtt;
  channel = wire_hash;
  next_hop = p.next_hop;
  relay_node = p.relay_node;
}
