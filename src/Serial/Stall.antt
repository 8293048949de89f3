-- ===== src/Serial/Stall.antt =====
-- A receive ring that is smaller than the frame at its head never moves again. Kconfig.serial allows
-- rings from 64 bytes on; the longest frame has 516.
use meshtastic_zephyr.Prelude.{
  ℕ, suc, ◌+◌, ◌*◌, ◌≤◌, ◌<◌, ◌≡◌, refl, ap, ◌∙◌, List, [], ◌∷◌, ◌++◌, arith, length,
}
use meshtastic_zephyr.Serial.{
  need_more, pop_after_header, rx_pop_frame, rx_work_handler, isr_rx, api_frame_max, start1, start2,
  header,
}
use meshtastic_zephyr.Serial.Stream.{work_wait}

-- What may happen to a ring of `capacity` bytes, with the payloads that are handed on: the interrupt
-- with any bytes in the UART and any contiguous room that the ring can offer, or the receive work.
pub data RxStep (capacity : ℕ) (ring : List ℕ) : List (List ℕ) → List ℕ → Type 0 where
  receive :
      (region : ℕ) (fifo : List ℕ)
      → length ring + region ≤ capacity
      → RxStep capacity ring [] (isr_rx region ring fifo).0
  work : RxStep capacity ring (rx_work_handler ring).0 (rx_work_handler ring).1

pub data RxSteps (capacity : ℕ) (ring : List ℕ) : List (List ℕ) → List ℕ → Type 0 where
  here : RxSteps capacity ring [] ring
  next :
      {ps qs : List (List ℕ)} {mid last : List ℕ}
      → RxSteps capacity ring ps mid
      → RxStep capacity mid qs last
      → RxSteps capacity ring (ps ++ qs) last

-- A full ring that begins with the header of a frame which does not fit it.
pub record IsStuck (capacity : ℕ) (ring : List ℕ) : Type 0 where
  pub full : length ring ≡ capacity
  pub hi : ℕ
  pub lo : ℕ
  pub rest : List ℕ
  pub starts : ring ≡ start1 ∷ start2 ∷ hi ∷ lo ∷ rest
  pub accepted : hi * 256 + lo ≤ api_frame_max
  pub too_long : capacity < header + (hi * 256 + lo)

stuck-pop :
    {capacity : ℕ} {ring : List ℕ} → IsStuck capacity ring → rx_pop_frame ring ≡ (need_more, ring)
unfolding rx_pop_frame pop_after_header
stuck-pop s = let l = ap length s.starts in rw s.starts (ground arith)

stuck-step :
    {capacity : ℕ} {ring : List ℕ} {ps : List (List ℕ)} {after : List ℕ}
    → IsStuck capacity ring
    → RxStep capacity ring ps after
    → (ps ≡ []) × (after ≡ ring)
unfolding isr_rx rx_work_handler
stuck-step {ring = ring} s (receive region fifo h) =
    let none_offered : region ≡ 0 = omega (arith, s.full) in (refl, rw none_offered)
stuck-step {ring = ring} s work =
    rw (work_wait (suc (length ring)) ring (rw (stuck-pop s))) (refl, refl)

-- Once a ring is full of the start of a frame that does not fit it, no deliveries of the UART and no
-- runs of the receive work hand on a payload or change the ring.
pub stuck-RxSteps :
    {capacity : ℕ} {ring after : List ℕ} {payloads : List (List ℕ)}
    → IsStuck capacity ring
    → RxSteps capacity ring payloads after
    → (payloads ≡ []) × (after ≡ ring)
stuck-RxSteps s here = (refl, refl)
stuck-RxSteps {capacity} {ring} s (next {ps} {qs} {mid} {last} steps step) =
    let before = stuck-RxSteps s steps in
    let stuck : IsStuck capacity mid = rw before.1 s in
    let now = stuck-step stuck step in (rw (before.0, now.0), now.1 ∙ before.1)
