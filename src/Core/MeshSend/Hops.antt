-- ===== src/Core/MeshSend/Hops.antt =====
-- The hop limit that an acknowledgement of src/meshtastic_routing.c goes out with.
use meshtastic_zephyr.Prelude.{
  ℕ, ◌%◌, ◌==◌, ◌≡◌, refl, ◌∙◌, List, ◌∷◌, some, none, ok, if◌then◌else◌,
}
use mathlib.Core.Path.{subst}
use meshtastic_zephyr.Packet.{Packet}
use meshtastic_zephyr.Messages.{Data, MeshPacket, decoded}
use meshtastic_zephyr.Wire.{Header, parse_header, flags_hop_limit}
use meshtastic_zephyr.Wire.Codec.{PacketFits, flags_hop_limit-build_header}
use meshtastic_zephyr.Codec.{build_wire_packet}
use meshtastic_zephyr.Codec.Roundtrip.{parse_header-build}
use meshtastic_zephyr.Routing.{Node, ack_data, ack_packet}
use meshtastic_zephyr.Routing.Replies.{ack_hop_limit}
use meshtastic_zephyr.Core.{
  Core, Env, forever, Action, radio_send, Sent, with_defaults, send_packet,
}
use meshtastic_zephyr.Core.Send.{send_packet-Success}
use meshtastic_zephyr.Core.MeshSend.{mesh_packet, send_mesh_pb}

-- A frame sent for a packet has the packet's hop limit, or the node's where the packet's is 0.
sent_hops :
    (e : Env) (p : Packet) (c : Core) (sent : Sent)
    → PacketFits (with_defaults c p)
    → send_packet e (some p) forever c ≡ some sent
    → sent.ret ≡ none
    → (wire : List ℕ) × (rest : List Action) × (h : Header) × (sent.actions
        ≡ radio_send forever wire ∷ rest)
      × (parse_header wire ≡ some h)
      × (flags_hop_limit h.flags ≡ (if p.hop_limit == 0 then c.hop_limit else p.hop_limit) % 8)
unfolding with_defaults
sent_hops e p c sent fits called done =
    let s = send_packet-Success e (some p) forever c sent called done in
    let same : s.given ≡ p = cc in
    (
      s.wire,
      _,
      _,
      s.calls,
      parse_header-build e.platform e.peers c.channels (with_defaults c p) s.wire fits (
          subst
            (λ g.
              build_wire_packet e.platform e.peers c.channels (with_defaults c g)
              ≡ some (ok s.wire))
            same s.frame),
      flags_hop_limit-build_header (with_defaults c p) _ fits,
    )

send_decoded :
    (e : Env) (mesh : MeshPacket) (data' : Data) (c : Core)
    → mesh.payload ≡ decoded data'
    → send_packet e (some (mesh_packet mesh data')) forever c ≡ send_mesh_pb e (some mesh) c
unfolding send_mesh_pb mesh_packet
send_decoded e mesh data' c is = rw (is, send_mesh_pb) refl

-- For a request without a hop start, whose way cannot be known, the routing code asks for an
-- acknowledgement with no hops, and yet the frame that is sent has the node's own hop limit.
pub ack_zero_hops :
    (e : Env) (n : Node) (id : ℕ) (payload : List ℕ) (req : Packet) (c : Core) (sent : Sent)
    → req.hop_start ≡ 0
    → PacketFits
        (with_defaults c (mesh_packet (ack_packet n id payload req) (ack_data payload req)))
    → send_mesh_pb e (some (ack_packet n id payload req)) c ≡ some sent
    → sent.ret ≡ none
    → ((ack_packet n id payload req).hop_limit ≡ 0)
      × ((wire : List ℕ) × (rest : List Action) × (h : Header) × (sent.actions
            ≡ radio_send forever wire ∷ rest)
          × (parse_header wire ≡ some h)
          × (flags_hop_limit h.flags ≡ c.hop_limit % 8))
unfolding mesh_packet
ack_zero_hops e n id payload req c sent unknown fits called done =
    let (none_left, is) = ack_hop_limit n id payload req unknown in
    let (wire, rest, h, calls, parsed, hops) =
      sent_hops e (mesh_packet (ack_packet n id payload req) (ack_data payload req)) c sent fits
        (send_decoded e _ _ c is ∙ called) done in
    (none_left, (wire, rest, h, calls, parsed, rw none_left at hops))
