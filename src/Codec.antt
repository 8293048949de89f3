-- ===== src/Codec.antt =====
-- src/meshtastic_packet.c: packets, `MeshPacket` messages and frames made of one another. AES-CTR is
-- PSA Crypto's, and the encoding of `meshtastic_Data` nanopb's: both are parameters.
pub mod Roundtrip
pub mod Decrypt
pub mod Slots
pub mod Mesh
pub mod Sample
mod Tests
use meshtastic_zephyr.Prelude.{
  ℕ, zero, suc, ◌+◌, ◌%◌, ◌==◌, ltb, leb, Bool, true, false, not, ◌&&◌, ◌||◌, List, [], ◌∷◌, ◌++◌,
  Option, none, some, Result, ok, err, Errno, einval, eio, enomem, enotsup, ebadmsg, if◌then◌else◌,
  length, take, drop, replicate, put_le32,
}
use meshtastic_zephyr.Packet.{
  Packet, zero_packet, ℤ, max_payload_len, channel_index_invalid, node_broadcast,
}
use meshtastic_zephyr.Messages.{
  Data, MeshPacket, MeshPayload, decoded, encrypted, unset, transport_mqtt, transport_lora,
  priority_unset,
}
use meshtastic_zephyr.Wire.{
  Header, header_bytes, parse_header, build_header, fill_packet_from_header, hdr_len, payload_max,
}
use meshtastic_zephyr.Channels.{Channels, ChannelKey, slot, max_channels, is_disabled, get_key}
use meshtastic_zephyr.Channels.Policy.{
  get_hash, decrypt_for_hash, resolve_send_index, decode_known_only,
}

-- PSA Crypto's AES-CTR on a key, a nonce and data, with `none` where any call of it fails, and
-- nanopb on `meshtastic_Data`, whose encoder is given the size of the buffer.
pub record Platform : Type 0 where
  pub psa_ctr : List ℕ → List ℕ → List ℕ → Option (List ℕ)
  pub encode_data : ℕ → Data → Option (List ℕ)
  pub decode_data : List ℕ → Option Data

-- What NodeDB answers: whether a node is known, and the channel that it was heard on.
pub record Peers : Type 0 where
  pub known : ℕ → Bool
  pub channel : ℕ → Option ℕ

-- `ctr_crypt`
pub ctr_crypt : Platform → List ℕ → List ℕ → List ℕ → Result (List ℕ)
ctr_crypt c key nonce input = elim (c.psa_ctr key nonce input) [
  | none ↦ err eio
  | some output ↦ ok output
]

-- The nonce: the packet's identifier and its sender, each padded to eight bytes.
pub packet_nonce : ℕ → ℕ → List ℕ
packet_nonce id from = put_le32 id ++ (replicate 4 0 ++ (put_le32 from ++ replicate 4 0))

-- `key.len` is 0 where a channel is not encrypted, and the data is passed on as it is.
pub crypt : Platform → ChannelKey → List ℕ → List ℕ → Result (List ℕ)
crypt c key nonce input =
    if key.len == 0 then ok input else ctr_crypt c (take key.len key.bytes) nonce input

-- The payload's bytes; no payload is the empty list.
abbrev pub payload_bytes : Packet → List ℕ
payload_bytes p = elim p.payload [ none ↦ [] | some bytes ↦ take p.payload_len bytes ]

-- A NULL payload with a length, or a payload too long
pub bad_payload : Packet → Bool
bad_payload p = elim p.payload [
  | none ↦ not (p.payload_len == 0)
  | some bytes ↦ ltb max_payload_len p.payload_len
]

-- The `meshtastic_Data` of a packet
pub packet_data : Packet → Data
packet_data p = record {
  portnum = p.portnum;
  payload = payload_bytes p;
  want_response = p.want_response;
  dest = p.data_dest;
  source = p.data_source;
  request_id = p.request_id;
  reply_id = p.reply_id;
}

-- `encode_packet_data`
pub encode_packet_data : Platform → Packet → Result (List ℕ)
encode_packet_data c p =
    if bad_payload p then err einval else elim (c.encode_data payload_max (packet_data p)) [
      | none ↦ err enomem
      | some bytes ↦ ok bytes
    ]

-- `decrypt_mesh_encrypted_key`
pub decrypt_mesh_encrypted_key : Platform → ℕ → ℕ → List ℕ → ChannelKey → Result Data
decrypt_mesh_encrypted_key c from id enc key =
    if (length enc == 0) || ltb payload_max (length enc)
    then err einval
    else if not ((key.len == 0) || (key.len == 16) || (key.len == 32))
    then err einval
    else elim (crypt c key (packet_nonce id from) enc) [
      | err e ↦ err e
      | ok plain ↦ elim (c.decode_data plain) [
        | none ↦ err eio
        | some data' ↦ if data'.portnum == 0 then err eio else ok data'
      ]
    ]

-- The slots that `try_decrypt_wire_hash` tries.
pub is_tried : Channels → ℕ → ℕ → Bool
is_tried t ch wire_hash = not (is_disabled (slot t ch).role) && decrypt_for_hash t ch wire_hash

-- One slot: its key, where it has one, on the data
pub try_slot : Platform → Channels → ℕ → ℕ → List ℕ → ℕ → Option (Result Data)
try_slot c t from id enc ch = elim (get_key t ch) [
  | none ↦ none
  | some (err e) ↦ some (err e)
  | some (ok key) ↦ some (decrypt_mesh_encrypted_key c from id enc key)
]

-- `try_decrypt_wire_hash` on the slots from `ch` on, `n` of them: the data and the slot that it was
-- found for. The outer `none` is a key lookup that does not return.
pub try_decrypt_from : Platform → Channels → ℕ → ℕ → ℕ → List ℕ → ℕ → ℕ → Option (Result (Data × ℕ))
try_decrypt_from c t wire_hash from id enc zero ch = some (err ebadmsg)
try_decrypt_from c t wire_hash from id enc (suc n) ch =
    let rest = try_decrypt_from c t wire_hash from id enc n (ch + 1) in
    let tried : Option (Result (Data × ℕ)) = elim (try_slot c t from id enc ch) [
      | none ↦ none
      | some (err e) ↦ rest
      | some (ok data') ↦ some (ok (data', ch))
    ] in
    if is_tried t ch wire_hash then tried else rest

pub try_decrypt_wire_hash : Platform → Channels → ℕ → ℕ → ℕ → List ℕ → Option (Result (Data × ℕ))
try_decrypt_wire_hash c t wire_hash from id enc =
    try_decrypt_from c t wire_hash from id enc max_channels 0

-- `copy_data_payload` into a buffer of `payload_len` bytes
pub copy_data_payload : Data → ℕ → Result (Option (List ℕ))
copy_data_payload data' payload_len =
    if length data'.payload == 0
    then ok none
    else if ltb payload_len (length data'.payload)
    then err enomem
    else ok (some data'.payload)

-- The packet that the header and the data give.
pub with_data : Packet → Data → Option (List ℕ) → ℕ → Packet
with_data p data' payload channel_index = record p {
  portnum = data'.portnum;
  payload = payload;
  payload_len = length data'.payload;
  data_dest = data'.dest;
  data_source = data'.source;
  request_id = data'.request_id;
  reply_id = data'.reply_id;
  want_response = data'.want_response;
  channel_index = channel_index;
}

-- `meshtastic_try_decode_wire_packet`, with the value of `*decoded`. `p` is what the caller's packet
-- held before.
pub try_decode_wire_packet :
    Platform
    → Peers
    → Channels
    → Option (List ℕ)
    → ℤ
    → ℤ
    → Packet
    → ℕ
    → Option (Result (Packet × Bool))
try_decode_wire_packet c peers t none rssi snr p payload_len = some (err einval)
try_decode_wire_packet c peers t (some buf) rssi snr p payload_len = elim (parse_header buf) [
  | none ↦ some (err einval)
  | some hdr ↦
      let filled : Packet = record (fill_packet_from_header hdr rssi snr p) {
        payload = none;
        payload_len = 0;
      } in
      if not (decode_known_only peers.known t filled.from)
      then some (ok (filled, false))
      else elim (try_decrypt_wire_hash c t hdr.channel filled.from filled.id (drop hdr_len buf)) [
        | none ↦ none
        | some (err e) ↦ some (ok (filled, false))
        | some (ok (data', channel_index)) ↦ elim (copy_data_payload data' payload_len) [
          | err e ↦ some (err e)
          | ok payload ↦ some (ok (with_data filled data' payload channel_index, true))
        ]
      ]
]

-- `meshtastic_decode_wire_packet`
pub decode_wire_packet :
    Platform → Peers → Channels → Option (List ℕ) → ℤ → ℤ → Packet → ℕ → Option (Result Packet)
decode_wire_packet c peers t buf rssi snr p payload_len =
    elim (try_decode_wire_packet c peers t buf rssi snr p payload_len) [
      | none ↦ none
      | some (err e) ↦ some (err e)
      | some (ok (packet, was_decoded)) ↦
          if was_decoded then some (ok packet) else some (err ebadmsg)
    ]

-- `meshtastic_build_wire_packet`
pub build_wire_packet : Platform → Peers → Channels → Packet → Option (Result (List ℕ))
build_wire_packet c peers t p = elim (encode_packet_data c p) [
  | err e ↦ some (err e)
  | ok encoded ↦
      let ch_index = resolve_send_index peers.channel t p.to p.channel_index p.channel in
      elim (get_key t ch_index) [
        | none ↦ none
        | some (err e) ↦ some (err e)
        | some (ok key) ↦ elim (crypt c key (packet_nonce p.id p.from) encoded) [
          | err e ↦ some (err e)
          | ok enc ↦ some (ok (header_bytes (build_header p (get_hash t ch_index)) ++ enc))
        ]
      ]
]
