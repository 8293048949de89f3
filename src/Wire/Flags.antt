-- ===== src/Wire/Flags.antt =====
-- The flags byte: what is packed is read back, and what a relay changes.
use meshtastic_zephyr.Prelude.{
  ℕ, ◌+◌, ◌*◌, ◌/◌, ◌%◌, ◌-◌, ◌<◌, ◌==◌, ◌≡◌, ◌≢◌, refl, Bool, true, false, not, ◌&&◌, ◌||◌,
  if◌then◌else◌, arith, bit_or, every, at-every, bit_and_seven,
}
use meshtastic_zephyr.Wire.{
  flags_hop_limit, flags_hop_start, flags_want_ack, flags_via_mqtt, make_flags, relay_flags,
}

abbrev bool_eq : Bool → Bool → Bool
bool_eq true b = b
bool_eq false b = not b

-- The four fields of `f`, compared with the values wanted.
abbrev reads : ℕ → ℕ → ℕ → Bool → Bool → Bool
reads f limit start ack mqtt =
    (flags_hop_limit f == limit)
    && (flags_hop_start f == start)
    && bool_eq (flags_want_ack f) ack
    && bool_eq (flags_via_mqtt f) mqtt

abbrev pub Reads : ℕ → ℕ → ℕ → Bool → Bool → Type 0
Reads f limit start ack mqtt =
    (flags_hop_limit f ≡ limit)
    × (flags_hop_start f ≡ start)
    × (flags_want_ack f ≡ ack)
    × (flags_via_mqtt f ≡ mqtt)

reads-Reads :
    (f limit start : ℕ) (ack mqtt : Bool)
    → reads f limit start ack mqtt ≡ true
    → Reads f limit start ack mqtt
reads-Reads f limit start ack mqtt h = ground arith

-- `make_flags` behind its two masks.
abbrev packed : ℕ → ℕ → Bool → Bool → ℕ
packed l s a v =
    let base : ℕ = bit_or l (s * 32) in
    let acked : ℕ = (if a then bit_or base 8 else base) in if v then bit_or acked 16 else acked

packed_table :
    (a v : Bool) → every (λ x. reads (packed (x % 8) (x / 8) a v) (x % 8) (x / 8) a v) 64 ≡ true
unfolding every flags_hop_limit flags_hop_start flags_want_ack flags_via_mqtt
packed_table true true = refl
packed_table true false = refl
packed_table false true = refl
packed_table false false = refl

packed-Reads : (l s : ℕ) (a v : Bool) → l < 8 → s < 8 → Reads (packed l s a v) l s a v
packed-Reads l s a v hl hs = reads-Reads _ l s a v (at_sum (omega arith) (omega arith))
  where
    at_sum : (l + s * 8) % 8 ≡ l → (l + s * 8) / 8 ≡ s → reads (packed l s a v) l s a v ≡ true
    at_sum el es = rw el at (
        rw es at (
          at-every (λ x. reads (packed (x % 8) (x / 8) a v) (x % 8) (x / 8) a v) {byte = l + s * 8}
            64 (omega arith) (packed_table a v)))

-- The three low bits of both hop counts and the two marks are read back from the flags byte that
-- is built from them.
pub make_flags-Reads :
    (limit start : ℕ) (ack mqtt : Bool)
    → limit < 256
    → start < 256
    → Reads (make_flags limit start ack mqtt) (limit % 8) (start % 8) ack mqtt
unfolding make_flags
make_flags-Reads limit start ack mqtt hl hs =
    rw (bit_and_seven limit hl, bit_and_seven start hs)
      (packed-Reads (limit % 8) (start % 8) ack mqtt (omega arith) (omega arith))

relay_table :
    every
      (λ f.
        (flags_hop_limit f == 0)
        || reads
            (relay_flags f (flags_hop_limit f))
            (flags_hop_limit f - 1)
            (flags_hop_start f)
            (flags_want_ack f)
            (flags_via_mqtt f))
      256
    ≡ true
unfolding every flags_hop_limit flags_hop_start flags_want_ack flags_via_mqtt relay_flags
relay_table = refl

-- A relay lowers the hop limit by one, and leaves the hop start and both marks as they were.
pub relay_flags-Reads :
    (f : ℕ)
    → f < 256
    → flags_hop_limit f ≢ 0
    → Reads
        (relay_flags f (flags_hop_limit f))
        (flags_hop_limit f - 1)
        (flags_hop_start f)
        (flags_want_ack f)
        (flags_via_mqtt f)
relay_flags-Reads f h live =
    reads-Reads _ _ _ _ _ (ground (arith, at-every _ {byte = f} 256 h relay_table))
