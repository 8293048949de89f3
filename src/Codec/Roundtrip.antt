-- ===== src/Codec/Roundtrip.antt =====
-- A frame that `meshtastic_build_wire_packet` of src/meshtastic_packet.c builds is decoded again.
use meshtastic_zephyr.Prelude.{
  ℕ, ◌≤◌, ◌<◌, ◌==◌, ◌≡◌, ◌≢◌, sym, ap, ◌∙◌, true, false, List, ◌++◌, Option, none, some, ok, err,
  arith, length, drop, if◌then◌else◌, Option-cases, Result-cases, inl, inr, drop-append_self,
  length-take,
}
use meshtastic_zephyr.Packet.{Packet, ℤ, max_payload_len}
use meshtastic_zephyr.Messages.{Data}
use meshtastic_zephyr.Wire.{
  Header, header_bytes, parse_header, build_header, fill_packet_from_header, hdr_len,
}
use meshtastic_zephyr.Wire.Codec.{
  PacketFits, build_header-HeaderFits, parse_header-header_bytes, length-header_bytes, header_view,
  fill-build_header, build_header_channel,
}
use meshtastic_zephyr.Channels.{Channels, ChannelKey, slot, max_channels, get_key, inherits}
use meshtastic_zephyr.Channels.Key.{key_slot, get_key_len}
use meshtastic_zephyr.Channels.Policy.{get_hash, resolve_send_index, decode_known_only}
use meshtastic_zephyr.Codec.{
  Platform, Peers, crypt, packet_nonce, packet_data, payload_bytes, bad_payload, encode_packet_data,
  decrypt_mesh_encrypted_key, is_tried, try_slot, try_decrypt_wire_hash, copy_data_payload,
  with_data, try_decode_wire_packet, build_wire_packet,
}
use meshtastic_zephyr.Codec.Slots.{try_decrypt_first}
use meshtastic_zephyr.Codec.Decrypt.{IsPlatform, encoded_data, decrypt_encoded}

-- The parts of a frame that was built for slot `i`.
record Built (c : Platform) (t : Channels) (p : Packet) (i : ℕ) (frame : List ℕ) : Type 0 where
  encoded : List ℕ
  key : ChannelKey
  enc : List ℕ
  encodes : encode_packet_data c p ≡ ok encoded
  keyed : get_key t i ≡ some (ok key)
  crypts : crypt c key (packet_nonce p.id p.from) encoded ≡ ok enc
  result : frame ≡ header_bytes (build_header p (get_hash t i)) ++ enc

build-Built :
    (c : Platform) (peers : Peers) (t : Channels) (p : Packet) (frame : List ℕ)
    → build_wire_packet c peers t p ≡ some (ok frame)
    → Built c t p (resolve_send_index peers.channel t p.to p.channel_index p.channel) frame
unfolding build_wire_packet
build-Built c peers t p frame e =
    let ch_index = resolve_send_index peers.channel t p.to p.channel_index p.channel in
    elim (Result-cases (encode_packet_data c p)) [
      | inl (error, failed) ↦ absurd (ground arith)
      | inr (encoded, encodes) ↦ elim (Option-cases (get_key t ch_index)) [
        | inl lost ↦ absurd (ground arith)
        | inr (err error, missing) ↦ absurd (ground arith)
        | inr (ok key, keyed) ↦
            elim (Result-cases (crypt c key (packet_nonce p.id p.from) encoded)) [
              | inl (error, failed) ↦ absurd (ground arith)
              | inr (enc, crypts) ↦ record {
                encoded = encoded;
                key = key;
                enc = enc;
                encodes = encodes;
                keyed = keyed;
                crypts = crypts;
                result = ground arith;
              }
            ]
      ]
    ]

-- The payload that the receiver is handed: none where it is empty.
abbrev pub received_payload : Packet → Option (List ℕ)
received_payload p = if length (payload_bytes p) == 0 then none else some (payload_bytes p)

pub payload_small :
    (p : Packet) → bad_payload p ≡ false → length (payload_bytes p) ≤ max_payload_len
unfolding bad_payload
payload_small p good = elim (Option-cases p.payload) [
  | inl nothing ↦ rw nothing (omega arith)
  | inr (bytes, there) ↦ rw there (ground (arith, length-take p.payload_len bytes))
]

pub copied_payload :
    (p : Packet)
    → length (payload_bytes p) ≤ max_payload_len
    → copy_data_payload (packet_data p) max_payload_len ≡ ok (received_payload p)
unfolding copy_data_payload packet_data
copied_payload p small = ground arith

-- What the receiver makes of a packet: the header's fields, the sender's data and the slot.
abbrev pub received : Channels → Packet → ℕ → ℤ → ℤ → Packet → Packet
received t p i rssi snr q = record (header_view p (get_hash t i) rssi snr q) {
  portnum = p.portnum;
  payload = received_payload p;
  payload_len = length (payload_bytes p);
  data_dest = p.data_dest;
  data_source = p.data_source;
  request_id = p.request_id;
  reply_id = p.reply_id;
  want_response = p.want_response;
  channel_index = i;
}

Built-at :
    (c : Platform) (peers : Peers) (t : Channels) (p : Packet) (frame : List ℕ) (i : ℕ)
    → resolve_send_index peers.channel t p.to p.channel_index p.channel ≡ i
    → build_wire_packet c peers t p ≡ some (ok frame)
    → Built c t p i frame
Built-at c peers t p frame i sends e = rw sends at (build-Built c peers t p frame e)

built_parses :
    (p : Packet) (hash : ℕ) (enc : List ℕ)
    → PacketFits p
    → parse_header (header_bytes (build_header p hash) ++ enc) ≡ some (build_header p hash)
built_parses p hash enc fits =
    parse_header-header_bytes (build_header p hash) enc (build_header-HeaderFits p hash fits)

built_drops :
    (p : Packet) (hash : ℕ) (enc : List ℕ)
    → drop hdr_len (header_bytes (build_header p hash) ++ enc) ≡ enc
built_drops p hash enc =
    let bytes = header_bytes (build_header p hash) in
    ap (λ n. drop n (bytes ++ enc)) (sym (length-header_bytes (build_header p hash)))
    ∙ drop-append_self bytes enc

slot_found :
    (c : Platform) (t : Channels) (from id : ℕ) (enc : List ℕ) (i : ℕ) (key : ChannelKey)
    (data' : Data)
    → get_key t i ≡ some (ok key)
    → decrypt_mesh_encrypted_key c from id enc key ≡ ok data'
    → try_slot c t from id enc i ≡ some (ok data')
unfolding try_slot
slot_found c t from id enc i key data' keyed plain = rw (keyed, try_slot) (ap some plain)

decode_parts :
    (c : Platform) (peers : Peers) (t : Channels) (frame : List ℕ) (rssi snr : ℤ) (q : Packet)
    (len : ℕ) (hdr : Header) (hash from id : ℕ) (enc : List ℕ) (data' : Data) (i : ℕ)
    (payload : Option (List ℕ))
    → parse_header frame ≡ some hdr
    → hdr.channel ≡ hash
    → ((fill_packet_from_header hdr rssi snr q).from ≡ from)
      × ((fill_packet_from_header hdr rssi snr q).id ≡ id)
    → drop hdr_len frame ≡ enc
    → decode_known_only peers.known t from ≡ true
    → try_decrypt_wire_hash c t hash from id enc ≡ some (ok (data', i))
    → copy_data_payload data' len ≡ ok payload
    → try_decode_wire_packet c peers t (some frame) rssi snr q len
      ≡ some (
          ok (
            with_data
                (record (fill_packet_from_header hdr rssi snr q) {
                  payload = none;
                  payload_len = 0;
                })
                data'
                payload
                i,
            true,
          ))
unfolding try_decode_wire_packet
decode_parts c peers t frame rssi snr q len hdr hash from id enc data' i payload parsed hashed ids
      rest known found copied =
    let found' : try_decrypt_wire_hash c t hdr.channel (fill_packet_from_header hdr rssi snr q).from
          (fill_packet_from_header hdr rssi snr q).id (drop hdr_len frame)
        ≡ some (ok (data', i)) =
      rw (ids.0, ids.1, rest, hashed) found in
    let known' : decode_known_only peers.known t (fill_packet_from_header hdr rssi snr q).from
        ≡ true =
      rw ids.0 known in
    rw (parsed, known', found', copied, try_decode_wire_packet)

-- A frame built for a packet with a port other than 0 is decoded to its fields, its hop counts modulo 8,
-- its payload and the slot it was sent on, if the receiver has the sender's table: the sender is not unknown
-- to a node that decodes known nodes only, the slot is enabled with its hash up to date and does not
-- inherit its key from a slot that inherits, and no slot before it has that hash.
pub try_decode-build :
    (c : Platform) (peers : Peers) (t : Channels) (p q : Packet) (frame : List ℕ) (rssi snr : ℤ)
    (i : ℕ)
    → IsPlatform c
    → PacketFits p
    → p.portnum ≢ 0
    → i < max_channels
    → resolve_send_index peers.channel t p.to p.channel_index p.channel ≡ i
    → ((j : ℕ) → length (slot t j).settings.psk ≤ 32)
    → inherits t (key_slot t i) ≡ false
    → decode_known_only peers.known t p.from ≡ true
    → is_tried t i (get_hash t i) ≡ true
    → ((j : ℕ) → j < i → is_tried t j (get_hash t i) ≡ false)
    → build_wire_packet c peers t p ≡ some (ok frame)
    → try_decode_wire_packet c peers t (some frame) rssi snr q max_payload_len
      ≡ some (ok (received t p i rssi snr q, true))
unfolding with_data packet_data
try_decode-build c peers t p q frame rssi snr i v fits port lt sends psks own known tried earlier
      e =
    let b = Built-at c peers t p frame i sends e in
    let hash = get_hash t i in
    let hdr = build_header p hash in
    let plain =
      decrypt_encoded c v p b.key b.encoded b.enc (get_key_len t i psks own b.keyed) port b.encodes
        b.crypts in
    let found = slot_found c t p.from p.id b.enc i b.key (packet_data p) b.keyed plain in
    let all =
      try_decrypt_first c t hash p.from p.id b.enc i (packet_data p) lt earlier tried found in
    let copied = copied_payload p (payload_small p (encoded_data c p b.encoded b.encodes).1) in
    let filled = fill-build_header p q hash rssi snr fits in
    rw b.result (
      decode_parts c peers t (header_bytes hdr ++ b.enc) rssi snr q max_payload_len hdr hash p.from
        p.id b.enc (packet_data p) i (received_payload p) (built_parses p hash b.enc fits)
        (build_header_channel p hash)
        (ap (λ (f : Packet). f.from) filled, ap (λ (f : Packet). f.id) filled)
        (built_drops p hash b.enc) known all copied
      ∙ ap
          (λ (f : Packet). some (
            ok (
              with_data (record f { payload = none; payload_len = 0 }) (packet_data p)
                  (received_payload p) i,
              true,
            )))
          filled)

-- The header that stands in front of a frame that was built.
pub parse_header-build :
    (c : Platform) (peers : Peers) (t : Channels) (p : Packet) (frame : List ℕ)
    → PacketFits p
    → build_wire_packet c peers t p ≡ some (ok frame)
    → parse_header frame
      ≡ some (
          build_header p
            (get_hash t (resolve_send_index peers.channel t p.to p.channel_index p.channel)))
parse_header-build c peers t p frame fits e =
    let b = build-Built c peers t p frame e in
    let hash = get_hash t (resolve_send_index peers.channel t p.to p.channel_index p.channel) in
    rw b.result (built_parses p hash b.enc fits)
