-- ===== src/Codec/Sample.antt =====
-- A plain encoding, a cipher that changes nothing and a table with one channel, to run
-- src/meshtastic_packet.c and its callers on.
use meshtastic_zephyr.Prelude.{
  ℕ, zero, suc, ◌≤◌, ◌==◌, leb, ◌≡◌, refl, true, false, List, [], ◌∷◌, ◌++◌, Option, none, some, ok,
  arith, length, if◌then◌else◌, Bool-cases, inl, inr,
}
use meshtastic_zephyr.Packet.{Packet, zero_packet}
use meshtastic_zephyr.Messages.{Data, primary, zero_settings}
use meshtastic_zephyr.Wire.{header_bytes, build_header}
use meshtastic_zephyr.Channels.{
  Channels, other_role, all, slot, default_psk, long_fast, get_key, get_key_fuel, own_key, inherits,
}
use meshtastic_zephyr.Channels.Key.{key_slot}
use meshtastic_zephyr.Channels.Policy.{get_hash, resolve_send_index, decrypt_for_hash}
use meshtastic_zephyr.Codec.{
  Platform, Peers, build_wire_packet, encode_packet_data, bad_payload, packet_data, crypt,
  ctr_crypt, is_tried,
}
use meshtastic_zephyr.Codec.Decrypt.{IsPlatform}

abbrev pub plain_bytes : Data → List ℕ
plain_bytes d =
    d.portnum
    ∷ (if d.want_response then 1 else 0)
    ∷ d.dest
    ∷ d.source
    ∷ d.request_id
    ∷ d.reply_id
    ∷ d.payload

abbrev pub plain_encode : ℕ → Data → Option (List ℕ)
plain_encode size d = if leb (length (plain_bytes d)) size then some (plain_bytes d) else none

abbrev pub plain_decode : List ℕ → Option Data
plain_decode (p ∷ w ∷ d ∷ s ∷ rq ∷ rp ∷ bytes) = some (record {
  portnum = p;
  payload = bytes;
  want_response = w == 1;
  dest = d;
  source = s;
  request_id = rq;
  reply_id = rp;
})
plain_decode _ = none

abbrev pub plain : Platform
plain = record {
  psa_ctr = λ key nonce input. some input;
  encode_data = plain_encode;
  decode_data = plain_decode;
}

decodes : (d : Data) → plain_decode (plain_bytes d) ≡ some d
decodes d = elim (Bool-cases d.want_response) [ inl w ↦ rw w | inr w ↦ rw w ]

encodes_as :
    (size : ℕ) (d : Data) (bytes : List ℕ)
    → plain_encode size d ≡ some bytes
    → (bytes ≡ plain_bytes d) × (length bytes ≤ size)
encodes_as size d bytes e = elim (Bool-cases (leb (length (plain_bytes d)) size)) [
  | inl fits ↦ let same : some (plain_bytes d) ≡ some bytes = rw fits at e in ground arith
  | inr big ↦ absurd (ground arith)
]

pub plain-IsPlatform : IsPlatform plain
plain-IsPlatform = record {
  undoes = λ key nonce input output e. ground arith;
  keeps_length = λ key nonce input output e. ground arith;
  reads_back = λ size d bytes e. rw (encodes_as size d bytes e).0 (decodes d);
  fits = λ size d bytes e. (encodes_as size d bytes e).1;
  writes = λ size d bytes e port. rw (encodes_as size d bytes e).0 (omega arith);
}

abbrev pub primary_only : Channels
primary_only = record {
  slots =
      record {
        index = 0;
        has_settings = true;
        settings = record zero_settings { name = long_fast; psk = default_psk };
        role = primary;
      }
      ∷ [];
  hashes = 8 ∷ 0 ∷ 0 ∷ 0 ∷ 0 ∷ 0 ∷ 0 ∷ 0 ∷ [];
  primary_index = 0;
  device_role = other_role 0;
  rebroadcast_mode = all;
  ch_hash = 8;
  channel_name = long_fast;
}

abbrev pub nobody : Peers
nobody = record { known = λ n. false; channel = λ n. none }

pub primary_psks : (j : ℕ) → length (slot primary_only j).settings.psk ≤ 32
primary_psks zero = omega arith
primary_psks (suc j) = omega arith

pub primary_own : inherits primary_only (key_slot primary_only 0) ≡ false
unfolding inherits key_slot
primary_own = refl

pub primary_tried : is_tried primary_only 0 (get_hash primary_only 0) ≡ true
unfolding is_tried get_hash decrypt_for_hash
primary_tried = refl

-- A text from node 9 to node 7, and its frame
abbrev pub note : Packet
note = record zero_packet {
  from = 9;
  to = 7;
  id = 5;
  portnum = 1;
  payload = some (b'h' ∷ b'i' ∷ []);
  payload_len = 2;
  hop_limit = 3;
  hop_start = 3;
}

abbrev pub note_wire : List ℕ
note_wire = header_bytes (build_header note 8) ++ (1 ∷ 0 ∷ 0 ∷ 0 ∷ 0 ∷ 0 ∷ b'h' ∷ b'i' ∷ [])

pub note_built : build_wire_packet plain nobody primary_only note ≡ some (ok note_wire)
unfolding build_wire_packet encode_packet_data bad_payload packet_data crypt ctr_crypt get_key
    get_key_fuel own_key resolve_send_index get_hash
note_built = refl

pub note_good : (p : Packet) → p.payload ≡ note.payload → p.payload_len ≡ 2 → bad_payload p ≡ false
unfolding bad_payload
note_good p e l = rw e (ground arith)

pub note_slot :
    resolve_send_index nobody.channel primary_only note.to note.channel_index note.channel ≡ 0
unfolding resolve_send_index
note_slot = refl

-- An acknowledgement from node 9 to node 7
abbrev pub ack : Packet
ack = record zero_packet {
  from = 9;
  to = 7;
  id = 5;
  portnum = 5;
  payload = some (0 ∷ []);
  payload_len = 1;
  request_id = 77;
  hop_limit = 3;
  hop_start = 3;
}

abbrev pub ack_wire : List ℕ
ack_wire = header_bytes (build_header ack 8) ++ (5 ∷ 0 ∷ 0 ∷ 0 ∷ 77 ∷ 0 ∷ 0 ∷ [])

pub ack_built : build_wire_packet plain nobody primary_only ack ≡ some (ok ack_wire)
unfolding build_wire_packet encode_packet_data bad_payload packet_data crypt ctr_crypt get_key
    get_key_fuel own_key resolve_send_index get_hash
ack_built = refl

pub ack_good : (p : Packet) → p.payload ≡ ack.payload → p.payload_len ≡ 1 → bad_payload p ≡ false
unfolding bad_payload
ack_good p e l = rw e (ground arith)
