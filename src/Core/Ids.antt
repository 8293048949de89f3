-- ===== src/Core/Ids.antt =====
-- Packet identifiers in src/meshtastic.c.
use meshtastic_zephyr.Prelude.{
  ℕ, zero, suc, ◌+◌, ◌-◌, ◌%◌, ◌^◌, ◌<◌, ◌==◌, ◌≡◌, ◌≢◌, arith, if◌then◌else◌,
}
use meshtastic_zephyr.Core.{allocate_packet_id}

-- The identifier of the call after `n` calls.
unfoldable pub nth_id : ℕ → ℕ → ℕ
nth_id zero next = (allocate_packet_id next).0
nth_id (suc n) next = nth_id n (allocate_packet_id next).1

abbrev first_id : ℕ → ℕ
first_id next = if next == 0 then 1 else next

-- A call gives the counter's value, or 1 for 0, and the next call the one after it.
allocate_step :
    (next : ℕ)
    → next < 2 ^ 32
    → ((allocate_packet_id next).0 ≡ first_id next)
      × ((allocate_packet_id next).1 < 2 ^ 32)
      × (first_id (allocate_packet_id next).1 ≡ first_id next % (2 ^ 32 - 1) + 1)
unfolding allocate_packet_id
allocate_step next h = ground arith

first_id_pos : (next : ℕ) → next < 2 ^ 32 → (0 < first_id next) × (first_id next < 2 ^ 32)
first_id_pos next h = ground arith

-- The identifiers go round all values but 0.
nth_id-eq :
    (n next : ℕ) → next < 2 ^ 32 → nth_id n next ≡ (first_id next - 1 + n) % (2 ^ 32 - 1) + 1
unfolding nth_id
nth_id-eq zero next h = omega (arith, allocate_step next h, first_id_pos next h)
nth_id-eq (suc n) next h =
    let (_, small, next_first) = allocate_step next h in
    omega (arith, nth_id-eq n (allocate_packet_id next).1 small, next_first, first_id_pos next h)

-- No identifier is 0, and any 2 ^ 32 - 1 that are allocated in a row are distinct.
pub nth_id_distinct :
    (m n next : ℕ)
    → next < 2 ^ 32
    → m < n
    → n - m < 2 ^ 32 - 1
    → (nth_id m next ≢ 0) × (nth_id m next ≢ nth_id n next)
nth_id_distinct m n next h lt near = (
  λ e. omega (arith, nth_id-eq m next h, e),
  λ e. omega (arith, nth_id-eq m next h, nth_id-eq n next h, e),
)
