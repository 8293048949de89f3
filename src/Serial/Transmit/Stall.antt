-- ===== src/Serial/Transmit/Stall.antt =====
-- A transmit ring that is smaller than the oldest frame: Kconfig allows 256 bytes.
use meshtastic_zephyr.Prelude.{
  ℕ, zero, suc, ◌+◌, ◌<◌, ◌≡◌, refl, ap, ◌∙◌, append-nil, sym, inl, inr, List, [], ◌∷◌, ◌++◌,
  Option, none, some, arith, length,
}
use meshtastic_zephyr.Phone.{Frame}
use meshtastic_zephyr.Phone.Queue.Refines.{frames, length-frames}
use meshtastic_zephyr.Phone.Handshake.{Source, Session, pop_frame}
use meshtastic_zephyr.Phone.Handshake.Rest.{
  IsReady, Taken, nothing, oldest, pop_frame-Taken, push_frame_front-IsReady,
}
use meshtastic_zephyr.Serial.{encode_frame}
use meshtastic_zephyr.Serial.Transmit.{wire_max, push_fromradio, tx_work_handler, isr_tx}
use meshtastic_zephyr.Serial.Transmit.Order.{
  wire_of, wire_of-none, wire_of-some, queue_wire-cases, work-defer,
}
use meshtastic_zephyr.Serial.Transmit.Rounds.{
  Line, TxSteps, start, work, interrupt, work_step, isr_step,
}

isr_tx-empty : (n : ℕ) → isr_tx n [] ≡ ([], [])
unfolding isr_tx
isr_tx-empty zero = refl
isr_tx-empty (suc n) = refl

module _ (src : Source) (size : ℕ) where
  -- The queue's oldest frame is longer on the wire than the whole ring.
  unfoldable pub Blocked : Frame → List Frame → Session → Type 0
  Blocked f fs s = IsReady s × (frames s.api ≡ f ∷ fs) × (size < length (wire_of f))

  pushed-Blocked :
      (f : Frame) (fs : List Frame) (s next : Session)
      → Blocked f fs s
      → IsReady next
      → f ∷ frames next.api ≡ f ∷ fs
      → next.api.queue_size ≡ s.api.queue_size
      → Blocked f fs (push_fromradio next f)
  unfolding push_fromradio Blocked
  pushed-Blocked f fs s next (r, order, long) rn same width =
      let room : next.api.count < next.api.queue_size = omega (
        arith,
        r.valid.count_in,
        ap length order,
        ap length same,
        length-frames s.api,
        length-frames next.api,
        width,
      ) in
      let (ready, back) = push_frame_front-IsReady next f rn room in (ready, back ∙ same, long)

  handler-Blocked :
      (f : Frame) (fs : List Frame) (s : Session)
      → Blocked f fs s
      → Blocked f fs (tx_work_handler size src s []).0 × ((tx_work_handler size src s []).1 ≡ [])
  unfolding tx_work_handler Blocked
  handler-Blocked f fs s (r, order, long) = by_pop (pop_frame src s) refl (pop_frame-Taken src s r)
    where
      Goal : Type 0
      Goal =
          Blocked f fs (tx_work_handler size src s []).0 × ((tx_work_handler size src s []).1 ≡ [])

      by_wire :
          (next : Session)
          → pop_frame src s ≡ (some f, next)
          → IsReady next
          → f ∷ frames next.api ≡ f ∷ fs
          → next.api.queue_size ≡ s.api.queue_size
          → (w : Option (List ℕ)) → encode_frame f wire_max ≡ w
          → Goal
      by_wire next e rn same width none ew =
          absurd (omega (arith, ap length (wire_of-none f ew), long))
      by_wire next e rn same width (some wire) ew =
          elim (queue_wire-cases size [] wire (omega arith)) [
            | inl (full, _) ↦
                rw (work-defer src size (s.api.count + size) s next f [] e wire ew full)
                  (pushed-Blocked f fs s next (r, order, long) rn same width, refl)
            | inr (_, fit) ↦ absurd (omega (arith, ap length (wire_of-some f ew), long, fit))
          ]

      by_pop : (q : Option Frame × Session) → pop_frame src s ≡ q → Taken s q → Goal
      by_pop (none, _) e (nothing empty) = absurd (omega (arith, ap length empty, ap length order))
      by_pop (some _, _) e (oldest g next rn first width) =
          let same : g ≡ f = cc in
          by_wire next (e ∙ ap (λ h. (some h, next)) same) rn
            (ap (λ h. h ∷ frames next.api) (sym same) ∙ sym first ∙ order) width
            (encode_frame f wire_max) refl

  -- With an empty ring and a valid queue outside the handshake, whose oldest frame is longer on the
  -- wire than the whole ring, no order of runs of the work item and of the interrupt gives the UART
  -- another byte, and the frame stays where it is.
  pub Blocked-TxSteps :
      (f : Frame) (fs : List Frame) {a b : Line}
      → Blocked f fs a.session
      → a.ring ≡ []
      → TxSteps src size a b
      → Blocked f fs b.session × (b.ring ≡ []) × (b.out ≡ a.out)
  unfolding work_step isr_step
  Blocked-TxSteps f fs stuck empty start = (stuck, empty, refl)
  Blocked-TxSteps f fs stuck empty (work {b} steps) =
      let (still, ring, same) = Blocked-TxSteps f fs stuck empty steps in
      let after = handler-Blocked f fs b.session still in rw ring (after.0, after.1, same)
  Blocked-TxSteps f fs stuck empty (interrupt {b} n steps) =
      let (still, ring, same) = Blocked-TxSteps f fs stuck empty steps in
      let sent = ap (isr_tx n) ring ∙ isr_tx-empty n in
      (still, ap (λ r. r.1) sent, ap (λ r. b.out ++ r.0) sent ∙ append-nil b.out ∙ same)
