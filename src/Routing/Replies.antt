-- ===== src/Routing/Replies.antt =====
-- Acknowledgements of src/meshtastic_routing.c: their way back, and that they come to an end.
use meshtastic_zephyr.Prelude.{
  ℕ, ◌-◌, ◌≤◌, ◌<◌, ◌≡◌, ◌≢◌, refl, ap, true, List, Option, some, arith, max, Option-cases, inl,
  inr,
}
use meshtastic_zephyr.Packet.{Packet, port_routing}
use meshtastic_zephyr.Messages.{MeshPacket, decoded, Data}
use meshtastic_zephyr.Routing.{
  Node, hop_limit_for_reply, should_request_ack, ack_data, ack_packet, send_ack, on_decoded,
  packet_is_to_us,
}

-- The hop limit of a reply to a request that states its hops reaches back as far as the request came,
-- and is no more than the node's own limit or that distance, whichever is greater.
pub hop_limit_for_reply_lem :
    (n : Node) (req : Packet)
    → req.hop_start ≢ 0
    → req.hop_limit ≤ req.hop_start
    → req.hop_start < 8
    → n.hop_limit < 8
    → (req.hop_start - req.hop_limit ≤ hop_limit_for_reply n (some req))
      × (hop_limit_for_reply n (some req) ≤ max n.hop_limit (req.hop_start - req.hop_limit))
unfolding hop_limit_for_reply
hop_limit_for_reply_lem n req some_hops sane small limit = ground arith

on_decoded_sent :
    (n : Node) (id : ℕ) (encoded : Option (List ℕ)) (p : Packet) {mesh : MeshPacket}
    → (on_decoded n id encoded (some p)).1 ≡ some mesh
    → (p.want_ack ≡ true)
      × (p.to ≡ n.node_id)
      × (p.from ≢ n.node_id)
      × ((payload : List ℕ) × (mesh ≡ ack_packet n id payload p))
unfolding on_decoded send_ack packet_is_to_us
on_decoded_sent n id encoded p {mesh} e = elim (Option-cases encoded) [
  | inl failed ↦ absurd (ground arith)
  | inr (payload, done) ↦ (ground arith, ground arith, ground arith, (payload, ground arith))
]

request_ack_text :
    (n : Node) (p : Packet) → should_request_ack n p ≡ true → p.portnum ≢ port_routing
unfolding should_request_ack
request_ack_text n p h = ground arith

-- What is sent in answer to a packet is an acknowledgement of it to its sender, and only where it asked
-- for one and was addressed to this node alone. An acknowledgement asks for one itself only in answer
-- to a text message.
pub on_decoded_acks :
    (n : Node) (id : ℕ) (encoded : Option (List ℕ)) (p : Packet) {mesh : MeshPacket}
    → (on_decoded n id encoded (some p)).1 ≡ some mesh
    → (p.want_ack ≡ true)
      × (p.to ≡ n.node_id)
      × (p.from ≢ n.node_id)
      × (mesh.to ≡ p.from)
      × (mesh.want_ack ≡ true → p.portnum ≢ port_routing)
      × ((data' : Data) × (mesh.payload ≡ decoded data')
          × (data'.portnum ≡ port_routing)
          × (data'.request_id ≡ p.id))
unfolding ack_packet
on_decoded_acks n id encoded p {mesh} e =
    let (asked, ours, foreign, (payload, sent)) = on_decoded_sent n id encoded p e in
    (
      asked,
      ours,
      foreign,
      ap (λ (m : MeshPacket). m.to) sent,
      rw sent (request_ack_text n p),
      (_, ap (λ (m : MeshPacket). m.payload) sent, refl, refl),
    )

pub ack_hop_limit :
    (n : Node) (id : ℕ) (payload : List ℕ) (req : Packet)
    → req.hop_start ≡ 0
    → ((ack_packet n id payload req).hop_limit ≡ 0)
      × ((ack_packet n id payload req).payload ≡ decoded (ack_data payload req))
unfolding ack_packet hop_limit_for_reply
ack_hop_limit n id payload req unknown = (ground arith, refl)
