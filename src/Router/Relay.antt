-- ===== src/Router/Relay.antt =====
-- What `relay_packet` of src/meshtastic_router.c sends, and how often a frame is relayed.
use meshtastic_zephyr.Prelude.{
  ℕ, zero, suc, ◌-◌, ◌≤◌, ◌<◌, ◌==◌, ltb, ◌≡◌, ◌≢◌, ap, ◌⊎◌, inl, inr, false, ◌||◌, List, [], ◌∷◌,
  some, arith, length, length-set, get_or, get_or-set, sym, Bool-cases,
}
use meshtastic_zephyr.Packet.{Packet}
use meshtastic_zephyr.Wire.{
  Header, hdr_len, pkt_max, parse_header, flags_hop_limit, flags_hop_start, flags_want_ack,
  flags_via_mqtt, relay_flags,
}
use meshtastic_zephyr.Wire.Flags.{Reads, relay_flags-Reads}
use meshtastic_zephyr.Wire.Rewrite.{parse_header-set}
use meshtastic_zephyr.Router.{
  Mt, Deps, send_frame, write_flags, relay_packet, sniff_rebroadcast, must_not_relay,
}

-- A frame that a node sends on for another: each byte but the flags as it was, and in the flags a hop
-- limit that is one lower; a frame from or to the node itself is none.
pub record IsRelay (m : Mt) (wire : List ℕ) (hdr : Header) (frame : List ℕ) : Type 0 where
  pub flags : ℕ
  pub foreign : (hdr.src ≢ m.node_id) × (hdr.dest ≢ m.node_id)
  pub live : flags_hop_limit hdr.flags ≢ 0
  pub same_length : length frame ≡ length wire
  pub same_bytes : (i : ℕ) → i ≢ 12 → get_or frame i 0 ≡ get_or wire i 0
  pub reads :
      Reads flags
        (flags_hop_limit hdr.flags - 1)
        (flags_hop_start hdr.flags)
        (flags_want_ack hdr.flags)
        (flags_via_mqtt hdr.flags)
  pub parses : parse_header frame ≡ some (record hdr { flags = flags })

must_not_relay-false :
    (d : Deps) (m : Mt) (hdr : Header) (packet : Packet)
    → must_not_relay d m hdr packet ≡ false
    → (hdr.src ≢ m.node_id) × (hdr.dest ≢ m.node_id) × (flags_hop_limit hdr.flags ≢ 0)
unfolding must_not_relay
must_not_relay-false d m hdr packet h = ground arith

relay_packet_cases :
    (d : Deps) (wire : List ℕ) (hdr : Header) (hop_limit : ℕ) (m : Mt)
    → ((relay_packet d wire hdr hop_limit m).1 ≡ [])
      ⊎ ((relay_packet d wire hdr hop_limit m).1
          ≡ send_frame (write_flags wire (relay_flags hdr.flags hop_limit)) ∷ [])
unfolding relay_packet
relay_packet_cases d wire hdr hop_limit m =
    elim (Bool-cases (ltb pkt_max (length wire) || (hop_limit == 0))) [
      | inl e ↦ inl (rw e)
      | inr e ↦ inr (rw e)
    ]

-- A received frame is sent on as it is but for a hop limit lowered by one, if at all, and only if it
-- is neither from this node nor to it and has a hop left.
pub sniff_rebroadcast_relays :
    (d : Deps) (hdr : Header) (wire : List ℕ) (packet : Packet) (m : Mt)
    → parse_header wire ≡ some hdr
    → hdr.flags < 256
    → ((sniff_rebroadcast d hdr wire packet m).1 ≡ [])
      ⊎ ((frame : List ℕ) × ((sniff_rebroadcast d hdr wire packet m).1 ≡ send_frame frame ∷ [])
          × IsRelay m wire hdr frame)
unfolding sniff_rebroadcast
sniff_rebroadcast_relays d hdr wire packet m parsed small =
    elim (Bool-cases (ltb (length wire) hdr_len || must_not_relay d m hdr packet)) [
      | inl stop ↦ inl (rw stop)
      | inr go ↦ elim (relay_packet_cases d wire hdr (flags_hop_limit hdr.flags) m) [
        | inl quiet ↦ inl (rw go quiet)
        | inr sent ↦
            let free = must_not_relay-false d m hdr packet (ground arith) in
            let flags = relay_flags hdr.flags (flags_hop_limit hdr.flags) in
            inr (
              write_flags wire flags,
              rw go sent,
              record {
                flags = flags;
                foreign = (free.0, free.1);
                live = free.2;
                same_length = length-set wire 12 flags;
                same_bytes = λ i ne. get_or-set 0 wire 12 i flags (λ q. ne (sym q));
                reads = relay_flags-Reads hdr.flags small free.2;
                parses = parse_header-set wire hdr flags parsed;
              },
            )
      ]
    ]

-- A frame and the nodes that sent it on, one after the other.
pub data Hops : ℕ → List ℕ → Type 0 where
  here : {wire : List ℕ} → Hops 0 wire
  relayed :
      {n : ℕ} {wire frame : List ℕ} {hdr : Header} (d : Deps) (packet : Packet) (m : Mt)
      → parse_header wire ≡ some hdr
      → hdr.flags < 256
      → (sniff_rebroadcast d hdr wire packet m).1 ≡ send_frame frame ∷ []
      → Hops n frame
      → Hops (suc n) wire

sent_frame :
    (d : Deps) (hdr : Header) (wire frame : List ℕ) (packet : Packet) (m : Mt)
    → parse_header wire ≡ some hdr
    → hdr.flags < 256
    → (sniff_rebroadcast d hdr wire packet m).1 ≡ send_frame frame ∷ []
    → IsRelay m wire hdr frame
sent_frame d hdr wire frame packet m parsed small sent =
    elim (sniff_rebroadcast_relays d hdr wire packet m parsed small) [
      | inl quiet ↦ absurd (ground arith)
      | inr (frame', sent', relay) ↦ let same : frame' ≡ frame = ground arith in rw same at relay
    ]

-- However the nodes along the way are set up, a frame is sent on at most as often as its hop limit.
pub Hops-le :
    (n : ℕ) (wire : List ℕ) (hdr : Header)
    → parse_header wire ≡ some hdr
    → Hops n wire
    → n ≤ flags_hop_limit hdr.flags
Hops-le zero wire hdr parsed here = omega arith
Hops-le (suc n) wire hdr parsed
      (relayed {frame = frame} {hdr = hdr'} d packet m parsed' small sent rest) =
    let relay = sent_frame d hdr' wire frame packet m parsed' small sent in
    let same : hdr' ≡ hdr = ground arith in
    let later = Hops-le n frame (record hdr' { flags = relay.flags }) relay.parses rest in
    let limit = ap (λ (h : Header). flags_hop_limit h.flags) same in
    omega (arith, later, relay.reads.0, relay.live, limit)
