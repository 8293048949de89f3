-- ===== src/Core/Tests.antt =====
-- Packets sent through src/meshtastic.c on a node with one channel, and what the radio is handed.
use meshtastic_zephyr.Prelude.{
  ℕ, ◌^◌, ◌%◌, ◌≡◌, ◌≢◌, refl, true, List, [], ◌∷◌, none, some, ok, ebusy, arith, ◌-◌,
}
use meshtastic_zephyr.Packet.{Packet, tx_failed, ℤ, zero_packet, max_payload_len}
use meshtastic_zephyr.Wire.{Header, parse_header, flags_hop_limit}
use meshtastic_zephyr.Wire.Codec.{PacketFits}
use meshtastic_zephyr.Channels.Policy.{resolve_send_index, decode_known_only}
use meshtastic_zephyr.Codec.{try_decode_wire_packet}
use meshtastic_zephyr.Codec.Roundtrip.{received}
use meshtastic_zephyr.Codec.Sample.{
  plain, plain-IsPlatform, primary_only, nobody, primary_psks, primary_own, primary_tried, note,
  note_wire, note_built, note_good, note_slot, ack, ack_wire, ack_built, ack_good,
}
use meshtastic_zephyr.Routing.{Node, ack_data, ack_packet, hop_limit_for_reply, should_request_ack}
use meshtastic_zephyr.Core.{
  Core, no_wait, forever, Action, radio_send, event, radio_events, Sent, bad_packet, with_defaults,
  count_id, new_id, allocate_packet_id, send_packet_prepare, send_packet_complete, transmit,
  send_packet,
}
use meshtastic_zephyr.Core.Ids.{nth_id, nth_id_distinct}
use meshtastic_zephyr.Core.Send.{send_packet-try_decode}
use meshtastic_zephyr.Core.MeshSend.{mesh_packet, send_mesh_pb}
use meshtastic_zephyr.Core.MeshSend.Hops.{ack_zero_hops}
use meshtastic_zephyr.Core.Sample.{node, good_radio}

-- The counter wraps from its last value over 0 to 1.
last_id : nth_id 1 (2 ^ 32 - 1) ≡ 1
unfolding nth_id allocate_packet_id
last_id = refl

nth_id_distinct_example :
    (nth_id 0 (2 ^ 32 - 1) ≢ 0) × (nth_id 0 (2 ^ 32 - 1) ≢ nth_id 1 (2 ^ 32 - 1))
nth_id_distinct_example = nth_id_distinct 0 1 (2 ^ 32 - 1) (omega arith) (omega arith) (omega arith)

-- The note before it gets its defaults.
abbrev draft : Packet
draft = record note { from = 0; id = 0; hop_limit = 0; hop_start = 0 }

draft_defaults : with_defaults node draft ≡ note
unfolding with_defaults new_id allocate_packet_id
draft_defaults = refl

draft_slot :
    resolve_send_index nobody.channel primary_only draft.to
      (with_defaults node draft).channel_index
      draft.channel
    ≡ 0
draft_slot = rw draft_defaults note_slot

draft_known : decode_known_only nobody.known primary_only (with_defaults node draft).from ≡ true
unfolding decode_known_only
draft_known = refl

draft_prepared :
    send_packet_prepare good_radio (some draft) node
    ≡ some (ok (note, note_wire), record node { next_pkt_id = 6 })
unfolding send_packet_prepare bad_packet with_defaults new_id count_id allocate_packet_id
draft_prepared = rw (note_good draft refl refl, note_built) refl

abbrev draft_result : Sent
draft_result = transmit good_radio no_wait note note_wire (record node { next_pkt_id = 6 })

draft_sent : send_packet good_radio (some draft) no_wait node ≡ some draft_result
unfolding send_packet
draft_sent = rw (draft_prepared, send_packet) refl

draft_done : draft_result.ret ≡ none
unfolding transmit
draft_done = refl

draft_calls : draft_result.actions ≡ radio_send no_wait note_wire ∷ []
unfolding transmit send_packet_complete radio_events
draft_calls = refl

draft_fits : PacketFits (with_defaults node draft)
draft_fits = rw draft_defaults (record {
  to_fits = omega arith;
  from_fits = omega arith;
  id_fits = omega arith;
  hop_limit_fits = omega arith;
  hop_start_fits = omega arith;
})

send_packet-try_decode_example :
    (wire : List ℕ) × (rest : List Action) × (draft_result.actions ≡ radio_send no_wait wire ∷ rest)
    × (try_decode_wire_packet plain nobody primary_only
          (some wire)
          (ℤ.negsuc 89)
          (ℤ.pos 6)
          zero_packet
          max_payload_len
        ≡ some (
            ok (
              received primary_only
                  (with_defaults node draft)
                  0
                  (ℤ.negsuc 89)
                  (ℤ.pos 6)
                  zero_packet,
              true,
            )))
send_packet-try_decode_example =
    send_packet-try_decode good_radio draft zero_packet no_wait node draft_result (ℤ.negsuc 89)
      (ℤ.pos 6) 0 plain-IsPlatform draft_fits (omega arith) (omega arith) draft_slot primary_psks
      primary_own draft_known primary_tried (λ j lt. absurd (omega arith)) draft_sent draft_done

abbrev listening : Core
listening = record node { has_event_cb = true }

-- A radio that finds the channel busy
abbrev busy_result : Sent
busy_result = record {
  ret = some ebusy;
  core = record listening {
    next_pkt_id = 6;
    status = record (listening.status) { tx_failures = 1 };
  };
  actions =
      radio_send forever note_wire
      ∷ event (record { type = tx_failed; error = some ebusy; packet = none })
      ∷ [];
}

-- A request of node 7 that does not tell its hops, and the acknowledgement of it.
abbrev request : Packet
request = record zero_packet { from = 7; to = 9; id = 77; portnum = 3; want_ack = true }

abbrev router : Node
router = record { node_id = 9; hop_limit = 3; primary_index = 0 }

abbrev ack_draft : Packet
ack_draft = mesh_packet (ack_packet router 5 (0 ∷ []) request) (ack_data (0 ∷ []) request)

ack_defaults : with_defaults node ack_draft ≡ ack
unfolding with_defaults new_id mesh_packet ack_packet hop_limit_for_reply should_request_ack
ack_defaults = refl

ack_fits : PacketFits (with_defaults node ack_draft)
ack_fits = rw ack_defaults (record {
  to_fits = omega arith;
  from_fits = omega arith;
  id_fits = omega arith;
  hop_limit_fits = omega arith;
  hop_start_fits = omega arith;
})

ack_prepared :
    send_packet_prepare good_radio (some ack_draft) node
    ≡ some (ok (ack, ack_wire), record node { next_pkt_id = 5 })
unfolding send_packet_prepare bad_packet with_defaults new_id count_id mesh_packet ack_packet
    hop_limit_for_reply should_request_ack
ack_prepared = rw (ack_good ack_draft refl refl, ack_built) refl

abbrev ack_result : Sent
ack_result = transmit good_radio forever ack ack_wire (record node { next_pkt_id = 5 })

ack_sent :
    send_mesh_pb good_radio (some (ack_packet router 5 (0 ∷ []) request)) node ≡ some ack_result
unfolding send_mesh_pb send_packet ack_packet
ack_sent = rw (ack_prepared, send_packet) refl

ack_done : ack_result.ret ≡ none
unfolding transmit
ack_done = refl

ack_zero_hops_example :
    ((ack_packet router 5 (0 ∷ []) request).hop_limit ≡ 0)
    × ((wire : List ℕ) × (rest : List Action) × (h : Header) × (ack_result.actions
          ≡ radio_send forever wire ∷ rest)
        × (parse_header wire ≡ some h)
        × (flags_hop_limit h.flags ≡ 3 % 8))
ack_zero_hops_example =
    ack_zero_hops good_radio router 5 (0 ∷ []) request node ack_result refl ack_fits ack_sent
      ack_done
