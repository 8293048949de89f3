-- ===== src/Routing.antt =====
-- src/meshtastic_routing.c: when and how a packet is acknowledged.
pub mod Replies
mod Tests
use meshtastic_zephyr.Prelude.{
  ℕ, ◌+◌, ◌-◌, ◌%◌, ◌==◌, ltb, Bool, true, false, not, ◌&&◌, ◌||◌, List, [], Option, none, some,
  Result, ok, err, einval, enomem, if◌then◌else◌, length,
}
use meshtastic_zephyr.Packet.{
  ℤ, Packet, channel_index_invalid, node_broadcast, port_routing, port_text_message,
  port_text_message_compressed,
}
use meshtastic_zephyr.Messages.{
  Data, MeshPacket, MeshPayload, decoded, transport_internal, Priority, priority_ack,
}

-- `ROUTING_REPLY_HOP_MARGIN`
abbrev pub reply_hop_margin : ℕ
reply_hop_margin = 2

-- The fields of `mt` that are read: the node, its hop limit and the primary slot
pub record Node : Type 0 where
  pub node_id : ℕ
  pub hop_limit : ℕ
  pub primary_index : ℕ

-- `packet_is_to_us`
pub packet_is_to_us : Node → Packet → Bool
packet_is_to_us n p = (p.to == n.node_id) || (p.to == node_broadcast)

-- `routing_hop_limit_for_reply`
unfoldable pub hop_limit_for_reply : Node → Option Packet → ℕ
hop_limit_for_reply n none = n.hop_limit
hop_limit_for_reply n (some req) =
    let hops_used = req.hop_start - req.hop_limit in
    if req.hop_start == 0
    then 0
    else if ltb req.hop_start req.hop_limit
    then n.hop_limit
    else if ltb n.hop_limit hops_used
    then hops_used % 256
    else if ltb ((hops_used + reply_hop_margin) % 256) n.hop_limit
    then (hops_used + reply_hop_margin) % 256
    else n.hop_limit

-- `routing_ack_should_request_ack`
unfoldable pub should_request_ack : Node → Packet → Bool
should_request_ack n req =
    req.want_ack
    && (req.to == n.node_id)
    && ((req.portnum == port_text_message) || (req.portnum == port_text_message_compressed))

-- The data of an acknowledgement
abbrev pub ack_data : List ℕ → Packet → Data
ack_data payload req = record {
  portnum = port_routing;
  payload = payload;
  want_response = false;
  dest = 0;
  source = 0;
  request_id = req.id;
  reply_id = 0;
}

-- The message that `routing_send_ack` sends; `id` is the identifier allocated for it, and `payload`
-- nanopb's encoding of a `meshtastic_Routing` without error.
unfoldable pub ack_packet : Node → ℕ → List ℕ → Packet → MeshPacket
ack_packet n id payload req =
    let hop_limit = hop_limit_for_reply n (some req) in
    record {
      from = n.node_id;
      to = req.from;
      channel =
          if req.channel_index == channel_index_invalid then n.primary_index else req.channel_index;
      id = id;
      rx_snr = ℤ.pos 0;
      rx_rssi = ℤ.pos 0;
      hop_limit = hop_limit;
      hop_start = hop_limit;
      want_ack = should_request_ack n req;
      via_mqtt = false;
      next_hop = 0;
      relay_node = 0;
      priority = priority_ack;
      transport_mechanism = transport_internal;
      payload = decoded (ack_data payload req);
    }

-- `routing_send_ack` up to the sending; the encoder may fail.
pub send_ack : Node → ℕ → Option (List ℕ) → Packet → Result MeshPacket
send_ack n id encoded req =
    if not (req.to == n.node_id)
    then err einval
    else elim encoded [ none ↦ err enomem | some payload ↦ ok (ack_packet n id payload req) ]

-- `meshtastic_routing_on_decoded`: whether `meshtastic_reliable_on_routing` is called with the packet,
-- and the acknowledgement that is sent
pub on_decoded : Node → ℕ → Option (List ℕ) → Option Packet → Bool × Option MeshPacket
on_decoded n id encoded none = (false, none)
on_decoded n id encoded (some p) =
    if not (packet_is_to_us n p) || (p.from == n.node_id)
    then (false, none)
    else if p.want_ack && (p.to == n.node_id)
    then (true, elim (send_ack n id encoded p) [ err e ↦ none | ok mesh ↦ some mesh ])
    else (true, none)
