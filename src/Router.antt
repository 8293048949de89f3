-- ===== src/Router.antt =====
-- src/meshtastic_router.c: what is done with a received frame. The calls of other components stand in
-- `Deps`, and what is handed to them is listed in the order of the calls.
pub mod Relay
pub mod Receive
pub mod Inject
mod Tests
use meshtastic_zephyr.Prelude.{
  ℕ, ◌+◌, ◌-◌, ◌%◌, ◌^◌, ◌==◌, ltb, leb, Bool, true, false, not, ◌&&◌, ◌||◌, List, [], ◌∷◌, ◌++◌,
  Option, none, some, Result, ok, err, Errno, if◌then◌else◌, length, set,
}
use meshtastic_zephyr.Packet.{
  Packet, Status, ℤ, EventType, packet_received, inc32, node_broadcast, port_text_message,
  port_position, port_nodeinfo, port_routing, port_telemetry,
}
use meshtastic_zephyr.Wire.{
  Header, hdr_len, pkt_max, parse_header, flags_hop_limit, flags_want_ack, flags_via_mqtt,
  relay_flags,
}
use meshtastic_zephyr.Channels.{RebroadcastMode, local_only, core_portnums_only}
use meshtastic_zephyr.Airtime.{AirtimeType, rx, rx_all}
use meshtastic_zephyr.DupCache.{DupCache, dup_check, dup_add}

-- The fields of `mt` that the router reads and writes.
pub record Mt : Type 0 where
  pub node_id : ℕ
  pub dup : DupCache
  pub status : Status

-- The answers of the other components, and the build options.
pub record Deps : Type 0 where
  pub try_decode : List ℕ → ℤ → ℤ → Result (Packet × Bool)
  pub send_wire : List ℕ → Option Errno
  pub packet_ms : ℕ → ℕ
  pub is_rebroadcaster : Bool
  pub rebroadcast_mode : RebroadcastMode
  pub has_recv_cb : Bool
  pub with_mqtt : Bool
  pub ignore_mqtt : Bool
  pub dup_cache_size : ℕ

-- A call of another component.
pub data Action : Type 0 where
  send_frame : List ℕ → Action
  log_airtime : AirtimeType → ℕ → Action
  recv_cb : Packet → Action
  emit_event : EventType → Packet → Action
  phoneapi_on_packet : Packet → Action
  mqtt_on_rx : Packet → List ℕ → Action
  routing_on_decoded : Packet → Action
  dispatch_modules : Packet → Action

-- `struct meshtastic_wire_header *relay_hdr`: the flags are byte 12 of the frame.
abbrev pub write_flags : List ℕ → ℕ → List ℕ
write_flags buf flags = set buf 12 flags

-- `relay_packet`
pub relay_packet : Deps → List ℕ → Header → ℕ → Mt → Mt × List Action
relay_packet d buf hdr hop_limit m =
    let frame : List ℕ = write_flags buf (relay_flags hdr.flags hop_limit) in
    let relayed : Status = record (m.status) { relayed_packets = inc32 m.status.relayed_packets } in
    if ltb pkt_max (length buf) || (hop_limit == 0) then (m, []) else (
      elim (d.send_wire frame) [ none ↦ record m { status = relayed } | some e ↦ m ],
      send_frame frame ∷ [],
    )

abbrev pub is_local_only : RebroadcastMode → Bool
is_local_only local_only = true
is_local_only _ = false

abbrev pub is_core_only : RebroadcastMode → Bool
is_core_only core_portnums_only = true
is_core_only _ = false

-- The tests of `meshtastic_routing_sniff_rebroadcast` after those of its arguments.
pub must_not_relay : Deps → Mt → Header → Packet → Bool
must_not_relay d m hdr packet =
    not d.is_rebroadcaster
    || (hdr.src == m.node_id)
    || (hdr.dest == m.node_id)
    || (flags_hop_limit hdr.flags == 0)
    || ((hdr.dest == node_broadcast) && (packet.id == 0))
    || is_local_only d.rebroadcast_mode

-- `meshtastic_routing_sniff_rebroadcast`
pub sniff_rebroadcast : Deps → Header → List ℕ → Packet → Mt → Mt × List Action
sniff_rebroadcast d hdr wire packet m =
    let relayed = relay_packet d wire hdr (flags_hop_limit hdr.flags) m in
    if ltb (length wire) hdr_len || must_not_relay d m hdr packet then (m, []) else relayed

-- `deliver_packet`
pub deliver_packet : Deps → Packet → List Action
deliver_packet d packet =
    (if d.has_recv_cb then recv_cb packet ∷ [] else [])
    ++ (emit_event packet_received packet ∷ phoneapi_on_packet packet ∷ [])

-- The ports that `CORE_PORTNUMS_ONLY` lets through.
pub is_core_port : ℕ → Bool
is_core_port portnum =
    (portnum == port_text_message)
    || (portnum == port_position)
    || (portnum == port_nodeinfo)
    || (portnum == port_routing)
    || (portnum == port_telemetry)

-- The actions of `meshtastic_handle_inbound_packet` on a packet that was decoded.
pub handle_decoded : Deps → Packet → List ℕ → Mt → List Action
handle_decoded d packet wire m =
    (if is_core_only d.rebroadcast_mode && not (is_core_port packet.portnum)
      then []
      else if (packet.to == m.node_id) || (packet.to == node_broadcast)
      then deliver_packet d packet
      else [])
    ++ ((if d.with_mqtt then mqtt_on_rx packet wire ∷ [] else [])
        ++ (routing_on_decoded packet ∷ dispatch_modules packet ∷ []))

-- `meshtastic_handle_inbound_packet`; a NULL `wire` is the empty list.
pub handle_inbound_packet : Deps → Packet → List ℕ → Bool → Mt → Mt × List Action
handle_inbound_packet d packet wire decoded m =
    let handled = (if decoded then handle_decoded d packet wire m else []) in
    elim (parse_header wire) [
      | none ↦ (m, handled)
      | some hdr ↦
          let relayed = sniff_rebroadcast d hdr wire packet m in (relayed.0, handled ++ relayed.1)
    ]

-- `reack_duplicate`
pub reack_duplicate : Deps → List ℕ → Header → ℤ → ℤ → Mt → List Action
reack_duplicate d buf hdr rssi snr m =
    if not (flags_want_ack hdr.flags) || not (hdr.dest == m.node_id)
    then []
    else elim (d.try_decode buf rssi snr) [
      | err e ↦ []
      | ok (packet, decoded) ↦ if decoded then routing_on_decoded packet ∷ [] else []
    ]

-- The counters that a received frame changes.
pub count_rx : Header → ℤ → ℤ → Bool → Status → Status
count_rx hdr rssi snr decoded s = record s {
  decode_failures = if decoded then s.decode_failures else inc32 s.decode_failures;
  rx_packets = inc32 s.rx_packets;
  last_rx_from = hdr.src;
  last_rssi = rssi;
  last_snr = snr;
}

-- `meshtastic_router_process_lora_rx` from `dup_add` on
pub process_new : Deps → List ℕ → Header → ℤ → ℤ → Mt → Mt × List Action
process_new d buf hdr rssi snr m =
    let ms = d.packet_ms (length buf) in
    let added : Mt = record m {
      dup = dup_add d.dup_cache_size (record { src = hdr.src; id = hdr.id }) m.dup;
    } in
    elim (d.try_decode buf rssi snr) [
      | err e ↦ (added, log_airtime rx_all ms ∷ [])
      | ok (packet, decoded) ↦
          let counted = count_rx hdr rssi snr decoded added.status in
          let handled =
            handle_inbound_packet d packet buf decoded (record added { status = counted }) in
          (handled.0, log_airtime (if packet.from == 0 then rx_all else rx) ms ∷ handled.1)
    ]

-- `meshtastic_router_process_lora_rx`, with `none` for a NULL buffer
pub process_lora_rx : Deps → Option (List ℕ) → ℤ → ℤ → Mt → Mt × List Action
process_lora_rx d none rssi snr m = (m, [])
process_lora_rx d (some buf) rssi snr m = elim (parse_header buf) [
  | none ↦ (m, [])
  | some hdr ↦
      let seen = log_airtime rx_all (d.packet_ms (length buf)) in
      let again : Status = record (m.status) {
        duplicate_packets = inc32 m.status.duplicate_packets;
      } in
      let fresh = process_new d buf hdr rssi snr m in
      if d.ignore_mqtt && flags_via_mqtt hdr.flags
      then (m, seen ∷ [])
      else if dup_check m.dup hdr.src hdr.id
      then (record m { status = again }, seen ∷ reack_duplicate d buf hdr rssi snr m)
      else fresh
]
