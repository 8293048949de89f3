-- ===== src/Codec/Slots.antt =====
-- `try_decrypt_wire_hash` of src/meshtastic_packet.c: the slot that it decrypts with.
use meshtastic_zephyr.Prelude.{
  ℕ, zero, suc, ◌+◌, ◌≤◌, ◌<◌, ◌≡◌, ap, true, false, List, some, ok, arith, ℕ_discrete,
}
use meshtastic_zephyr.Messages.{Data}
use meshtastic_zephyr.Channels.{Channels, max_channels}
use meshtastic_zephyr.Codec.{Platform, is_tried, try_slot, try_decrypt_from, try_decrypt_wire_hash}

module _ (c : Platform) (t : Channels) (wire_hash from id : ℕ) (enc : List ℕ) where
  try_decrypt_from_first :
      (n ch i : ℕ) (data' : Data)
      → ch ≤ i
      → i < ch + n
      → ((j : ℕ) → ch ≤ j → j < i → is_tried t j wire_hash ≡ false)
      → is_tried t i wire_hash ≡ true
      → try_slot c t from id enc i ≡ some (ok data')
      → try_decrypt_from c t wire_hash from id enc n ch ≡ some (ok (data', i))
  unfolding try_decrypt_from
  try_decrypt_from_first zero ch i data' ge lt earlier tried found = absurd (omega arith)
  try_decrypt_from_first (suc n) ch i data' ge lt earlier tried found = elim (ℕ_discrete ch i) [
    | yes here ↦ rw (here, tried, found) (ap (λ k. some (ok (data', k))) here)
    | no before ↦
        let skipped = earlier ch (omega arith) (omega arith) in
        rw skipped (
          try_decrypt_from_first n (ch + 1) i data' (omega arith) (omega arith)
            (λ j le low. earlier j (omega arith) low) tried found)
  ]

  -- Where one slot with the hash decrypts the data and no slot before it has the hash, the data is
  -- decrypted with that slot.
  pub try_decrypt_first :
      (i : ℕ) (data' : Data)
      → i < max_channels
      → ((j : ℕ) → j < i → is_tried t j wire_hash ≡ false)
      → is_tried t i wire_hash ≡ true
      → try_slot c t from id enc i ≡ some (ok data')
      → try_decrypt_wire_hash c t wire_hash from id enc ≡ some (ok (data', i))
  unfolding try_decrypt_wire_hash
  try_decrypt_first i data' lt earlier tried found =
      try_decrypt_from_first max_channels 0 i data' (omega arith) (omega arith)
        (λ j ge low. earlier j low) tried found
