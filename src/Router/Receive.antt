-- ===== src/Router/Receive.antt =====
-- What `meshtastic_router_process_lora_rx` of src/meshtastic_router.c does with a frame that comes again.
use meshtastic_zephyr.Prelude.{
  ℕ, ◌≤◌, ◌<◌, ◌==◌, ltb, ◌≡◌, refl, ap, ◌∙◌, ◌⊎◌, inl, inr, Bool, true, false, ◌||◌, ◌&&◌, List,
  [], ◌∷◌, Option, none, some, arith, length, Bool-cases, Option-cases, Result-cases, not,
}
use meshtastic_zephyr.Packet.{Packet, ℤ}
use meshtastic_zephyr.Airtime.{rx_all}
use meshtastic_zephyr.Wire.{
  Header, parse_header, flags_via_mqtt, flags_want_ack, flags_hop_limit, relay_flags, pkt_max,
  hdr_len,
}
use meshtastic_zephyr.DupCache.{DupEntry, dup_check, dup_add}
use meshtastic_zephyr.DupCache.Memory.{IsRing, add_all, dup_check-recent}
use meshtastic_zephyr.Router.{
  Mt, Deps, Action, log_airtime, routing_on_decoded, write_flags, must_not_relay, count_rx,
  relay_packet, sniff_rebroadcast, handle_inbound_packet, reack_duplicate, process_new,
  process_lora_rx,
}

relay_packet-dup :
    (d : Deps) (wire : List ℕ) (hdr : Header) (hop_limit : ℕ) (m : Mt)
    → (relay_packet d wire hdr hop_limit m).0.dup ≡ m.dup
unfolding relay_packet
relay_packet-dup d wire hdr hop_limit m =
    elim (Option-cases (d.send_wire (write_flags wire (relay_flags hdr.flags hop_limit)))) [
      | inl sent ↦ elim (Bool-cases (ltb pkt_max (length wire) || (hop_limit == 0))) [
        | inl e ↦ rw e
        | inr e ↦ rw (e, sent)
      ]
      | inr (error, failed) ↦ elim (Bool-cases (ltb pkt_max (length wire) || (hop_limit == 0))) [
        | inl e ↦ rw e
        | inr e ↦ rw (e, failed)
      ]
    ]

sniff_rebroadcast-dup :
    (d : Deps) (hdr : Header) (wire : List ℕ) (packet : Packet) (m : Mt)
    → (sniff_rebroadcast d hdr wire packet m).0.dup ≡ m.dup
unfolding sniff_rebroadcast
sniff_rebroadcast-dup d hdr wire packet m =
    elim (Bool-cases (ltb (length wire) hdr_len || must_not_relay d m hdr packet)) [
      | inl stop ↦ rw stop
      | inr go ↦ rw go (relay_packet-dup d wire hdr (flags_hop_limit hdr.flags) m)
    ]

handle_inbound-dup :
    (d : Deps) (packet : Packet) (wire : List ℕ) (decoded : Bool) (m : Mt)
    → (handle_inbound_packet d packet wire decoded m).0.dup ≡ m.dup
unfolding handle_inbound_packet
handle_inbound-dup d packet wire decoded m = elim (Option-cases (parse_header wire)) [
  | inl none_there ↦ rw (none_there, handle_inbound_packet)
  | inr (hdr, parsed) ↦
      rw (parsed, handle_inbound_packet) (sniff_rebroadcast-dup d hdr wire packet m)
]

-- The packet's identity in the duplicate cache.
abbrev pub key_of : Header → DupEntry
key_of hdr = record { src = hdr.src; id = hdr.id }

process_new-dup :
    (d : Deps) (buf : List ℕ) (hdr : Header) (rssi snr : ℤ) (m : Mt)
    → (process_new d buf hdr rssi snr m).0.dup ≡ dup_add d.dup_cache_size (key_of hdr) m.dup
unfolding process_new
process_new-dup d buf hdr rssi snr m = elim (Result-cases (d.try_decode buf rssi snr)) [
  | inl (e, failed) ↦ rw (failed, process_new)
  | inr ((packet, decoded), done) ↦
      let added = record m {
        dup = dup_add d.dup_cache_size (key_of hdr) m.dup;
        status = count_rx hdr rssi snr decoded m.status;
      } in
      rw (done, process_new) (handle_inbound-dup d packet buf decoded added)
]

-- One frame: the cache stays as it is, or takes one packet in.
process_dup :
    (d : Deps) (buf : Option (List ℕ)) (rssi snr : ℤ) (m : Mt)
    → ((process_lora_rx d buf rssi snr m).0.dup ≡ m.dup)
      ⊎ ((e : DupEntry) × ((process_lora_rx d buf rssi snr m).0.dup
            ≡ dup_add d.dup_cache_size e m.dup))
unfolding process_lora_rx
process_dup d none rssi snr m = inl refl
process_dup d (some buf) rssi snr m = elim (Option-cases (parse_header buf)) [
  | inl short ↦ inl (rw (short, process_lora_rx))
  | inr (hdr, parsed) ↦ elim (Bool-cases (d.ignore_mqtt && flags_via_mqtt hdr.flags)) [
    | inl ignored ↦ inl (rw (parsed, ignored, process_lora_rx))
    | inr regarded ↦ elim (Bool-cases (dup_check m.dup hdr.src hdr.id)) [
      | inl again ↦ inl (rw (parsed, regarded, again, process_lora_rx))
      | inr fresh ↦ inr (
        key_of hdr,
        rw (parsed, regarded, fresh, process_lora_rx) (process_new-dup d buf hdr rssi snr m),
      )
    ]
  ]
]

-- A received frame, with its signal readings.
pub record Reception : Type 0 where
  pub buf : Option (List ℕ)
  pub rssi : ℤ
  pub snr : ℤ

unfoldable pub process_all : Deps → List Reception → Mt → Mt
process_all d [] m = m
process_all d (r ∷ rs) m = process_all d rs (process_lora_rx d r.buf r.rssi r.snr m).0

pub process_all-dup :
    (d : Deps) (rs : List Reception) (m : Mt)
    → (es : List DupEntry) × (length es ≤ length rs)
      × ((process_all d rs m).dup ≡ add_all d.dup_cache_size es m.dup)
unfolding process_all add_all
process_all-dup d [] m = ([], omega arith, refl)
process_all-dup d (r ∷ rs) m =
    let next = (process_lora_rx d r.buf r.rssi r.snr m).0 in
    let (es, few, later) = process_all-dup d rs next in
    elim (process_dup d r.buf r.rssi r.snr m) [
      | inl same ↦ (es, omega arith, later ∙ ap (add_all d.dup_cache_size es) same)
      | inr (e, added) ↦ (e ∷ es, omega arith, later ∙ ap (add_all d.dup_cache_size es) added)
    ]

-- The calls made for a duplicate: its air time is logged and it may be acknowledged again.
abbrev pub IsQuiet : Deps → List ℕ → List Action → Type 0
IsQuiet d buf actions =
    (actions ≡ log_airtime rx_all (d.packet_ms (length buf)) ∷ [])
    ⊎ ((packet : Packet) × (actions
          ≡ log_airtime rx_all (d.packet_ms (length buf)) ∷ routing_on_decoded packet ∷ []))

reack_duplicate_cases :
    (d : Deps) (buf : List ℕ) (hdr : Header) (rssi snr : ℤ) (m : Mt)
    → (reack_duplicate d buf hdr rssi snr m ≡ [])
      ⊎ ((packet : Packet) × (reack_duplicate d buf hdr rssi snr m
            ≡ routing_on_decoded packet ∷ []))
unfolding reack_duplicate
reack_duplicate_cases d buf hdr rssi snr m =
    elim (Bool-cases (not (flags_want_ack hdr.flags) || not (hdr.dest == m.node_id))) [
      | inl unasked ↦ inl (rw unasked)
      | inr asked ↦ elim (Result-cases (d.try_decode buf rssi snr)) [
        | inl (e, failed) ↦ inl (rw (asked, failed))
        | inr ((packet, true), done) ↦ inr (packet, rw (asked, done))
        | inr ((packet, false), done) ↦ inl (rw (asked, done))
      ]
    ]

pub duplicate-IsQuiet :
    (d : Deps) (buf : List ℕ) (hdr : Header) (rssi snr : ℤ) (m : Mt)
    → parse_header buf ≡ some hdr
    → dup_check m.dup hdr.src hdr.id ≡ true
    → IsQuiet d buf (process_lora_rx d (some buf) rssi snr m).1
unfolding process_lora_rx
duplicate-IsQuiet d buf hdr rssi snr m parsed again =
    elim (Bool-cases (d.ignore_mqtt && flags_via_mqtt hdr.flags)) [
      | inl ignored ↦ inl (rw (parsed, ignored, process_lora_rx))
      | inr regarded ↦ elim (reack_duplicate_cases d buf hdr rssi snr m) [
        | inl silent ↦ inl (
            rw (parsed, regarded, again, process_lora_rx)
              (ap (◌∷◌ (log_airtime rx_all (d.packet_ms (length buf)))) silent))
        | inr (packet, acked) ↦ inr (
          packet,
          rw (parsed, regarded, again, process_lora_rx)
              (ap (◌∷◌ (log_airtime rx_all (d.packet_ms (length buf)))) acked),
        )
      ]
    ]

taken_dup :
    (d : Deps) (buf : List ℕ) (hdr : Header) (rssi snr : ℤ) (m : Mt)
    → parse_header buf ≡ some hdr
    → (d.ignore_mqtt && flags_via_mqtt hdr.flags) ≡ false
    → dup_check m.dup hdr.src hdr.id ≡ false
    → (process_lora_rx d (some buf) rssi snr m).0.dup ≡ dup_add d.dup_cache_size (key_of hdr) m.dup
unfolding process_lora_rx
taken_dup d buf hdr rssi snr m parsed regarded fresh =
    rw (parsed, regarded, fresh, process_lora_rx) (process_new-dup d buf hdr rssi snr m)

-- After a frame is taken in, and fewer further frames than the cache has entries, a frame of the
-- same packet is handled as a duplicate: its air time is logged and it may be acknowledged again, but
-- it is neither delivered nor sent on.
pub process_again :
    (d : Deps) (m : Mt) (buf buf' : List ℕ) (hdr hdr' : Header) (rs : List Reception)
    (r0 s0 rssi snr : ℤ)
    → IsRing d.dup_cache_size m.dup
    → parse_header buf ≡ some hdr
    → (d.ignore_mqtt && flags_via_mqtt hdr.flags) ≡ false
    → dup_check m.dup hdr.src hdr.id ≡ false
    → parse_header buf' ≡ some hdr'
    → (hdr'.src ≡ hdr.src) × (hdr'.id ≡ hdr.id)
    → length rs < d.dup_cache_size
    → IsQuiet d buf'
        (process_lora_rx d
          (some buf')
          rssi
          snr
          (process_all d rs (process_lora_rx d (some buf) r0 s0 m).0)).1
process_again d m buf buf' hdr hdr' rs r0 s0 rssi snr ring parsed regarded fresh parsed' same
      fewer =
    let first = (process_lora_rx d (some buf) r0 s0 m).0 in
    let (es, few, later) = process_all-dup d rs first in
    let taken = taken_dup d buf hdr r0 s0 m parsed regarded fresh in
    let found_again = dup_check-recent d.dup_cache_size (key_of hdr) es m.dup ring (omega arith) in
    duplicate-IsQuiet d buf' hdr' rssi snr (process_all d rs first) parsed'
      (rw (same.0, same.1, later, taken) found_again)
