-- ===== src/Codec/Decrypt.antt =====
-- Encryption and decryption of the data in src/meshtastic_packet.c undo each other.
use meshtastic_zephyr.Prelude.{
  ℕ, ◌≤◌, ◌<◌, ◌==◌, ◌≡◌, ◌≢◌, false, List, some, ok, arith, length, take, Bool-cases, Option-cases,
  inl, inr,
}
use meshtastic_zephyr.Packet.{Packet}
use meshtastic_zephyr.Messages.{Data}
use meshtastic_zephyr.Wire.{payload_max}
use meshtastic_zephyr.Channels.{ChannelKey}
use meshtastic_zephyr.Channels.Key.{IsKeyLen}
use meshtastic_zephyr.Codec.{
  Platform, ctr_crypt, crypt, packet_nonce, packet_data, bad_payload, encode_packet_data,
  decrypt_mesh_encrypted_key,
}

-- What the code relies on of the two libraries: AES-CTR undoes itself and keeps the length, and
-- nanopb reads back what it wrote, in at most the bytes it was given, and writes a port that is not 0.
pub record IsPlatform (c : Platform) : Type 0 where
  pub undoes :
      (key nonce input output : List ℕ)
      → c.psa_ctr key nonce input ≡ some output
      → c.psa_ctr key nonce output ≡ some input
  pub keeps_length :
      (key nonce input output : List ℕ)
      → c.psa_ctr key nonce input ≡ some output
      → length output ≡ length input
  pub reads_back :
      (size : ℕ) (d : Data) (bytes : List ℕ)
      → c.encode_data size d ≡ some bytes
      → c.decode_data bytes ≡ some d
  pub fits :
      (size : ℕ) (d : Data) (bytes : List ℕ)
      → c.encode_data size d ≡ some bytes
      → length bytes ≤ size
  pub writes :
      (size : ℕ) (d : Data) (bytes : List ℕ)
      → c.encode_data size d ≡ some bytes
      → d.portnum ≢ 0
      → 0 < length bytes

crypt_undoes :
    (c : Platform)
    → IsPlatform c
    → (key : ChannelKey) (nonce input output : List ℕ) → crypt c key nonce input ≡ ok output
    → (crypt c key nonce output ≡ ok input) × (length output ≡ length input)
unfolding crypt ctr_crypt
crypt_undoes c v key nonce input output e = elim (Bool-cases (key.len == 0)) [
  | inl plain ↦ ground arith
  | inr closed ↦ elim (Option-cases (c.psa_ctr (take key.len key.bytes) nonce input)) [
    | inl failed ↦ absurd (ground arith)
    | inr (out, done) ↦
        let back = v.undoes (take key.len key.bytes) nonce input out done in
        let size = v.keeps_length (take key.len key.bytes) nonce input out done in ground arith
  ]
]

pub encoded_data :
    (c : Platform) (p : Packet) (encoded : List ℕ)
    → encode_packet_data c p ≡ ok encoded
    → (c.encode_data payload_max (packet_data p) ≡ some encoded) × (bad_payload p ≡ false)
unfolding encode_packet_data
encoded_data c p encoded e = elim (Option-cases (c.encode_data payload_max (packet_data p))) [
  | inl full ↦ absurd (ground arith)
  | inr (bytes, written) ↦ ground arith
]

pub decrypt_encoded :
    (c : Platform)
    → IsPlatform c
    → (p : Packet) (key : ChannelKey) (encoded enc : List ℕ) → IsKeyLen key.len
    → p.portnum ≢ 0
    → encode_packet_data c p ≡ ok encoded
    → crypt c key (packet_nonce p.id p.from) encoded ≡ ok enc
    → decrypt_mesh_encrypted_key c p.from p.id enc key ≡ ok (packet_data p)
unfolding decrypt_mesh_encrypted_key packet_data
decrypt_encoded c v p key encoded enc len port encodes crypts =
    let nonce = packet_nonce p.id p.from in
    let back = crypt_undoes c v key nonce encoded enc crypts in
    let written = (encoded_data c p encoded encodes).0 in
    ground (
      arith,
      back,
      v.reads_back payload_max (packet_data p) encoded written,
      v.fits payload_max (packet_data p) encoded written,
      v.writes payload_max (packet_data p) encoded written,
    )
