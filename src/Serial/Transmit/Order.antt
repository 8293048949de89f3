-- ===== src/Serial/Transmit/Order.antt =====
-- The UART is sent the frames of the phone queue whole and in order.
use meshtastic_zephyr.Prelude.{
  ℕ, zero, suc, ◌+◌, ◌≤◌, ◌<◌, ◌≡◌, refl, ap, ◌∙◌, sym, inl, inr, ◌⊎◌, List, [], ◌∷◌, ◌++◌, Option,
  none, some, arith, length, length-append, append_assoc, append-nil,
}
use meshtastic_zephyr.Phone.{Frame}
use meshtastic_zephyr.Phone.Queue.Refines.{frames, length-frames}
use meshtastic_zephyr.Phone.Handshake.{Source, Session, pop_frame}
use meshtastic_zephyr.Phone.Handshake.Rest.{
  IsReady, Taken, nothing, oldest, pop_frame-Taken, push_frame_front-IsReady,
}
use meshtastic_zephyr.Serial.{encode_frame}
use meshtastic_zephyr.Serial.Transmit.{
  wire_max, push_fromradio, serial_tx_queue, queue_wire, tx_work, tx_work_handler,
}

-- What a frame is on the wire: nothing, if it is too long to be encoded.
abbrev pub wire_of : Frame → List ℕ
wire_of f = elim (encode_frame f wire_max) [ none ↦ [] | some wire ↦ wire ]

abbrev pub on_wire : List Frame → List ℕ
on_wire [] = []
on_wire (f ∷ fs) = wire_of f ++ on_wire fs

pub wire_of-none : (f : Frame) → encode_frame f wire_max ≡ none → wire_of f ≡ []
wire_of-none f e = rw (wire_of, e) refl

pub wire_of-some :
    (f : Frame) {wire : List ℕ} → encode_frame f wire_max ≡ some wire → wire_of f ≡ wire
wire_of-some f e = rw (wire_of, e) refl

wire_of_le : (f : Frame) → length (wire_of f) ≤ wire_max
unfolding encode_frame
wire_of_le f = ground arith

pub queue_wire-cases :
    (size : ℕ) (ring wire : List ℕ)
    → length ring ≤ size
    → ((queue_wire size ring wire ≡ none) × (size < length ring + length wire))
      ⊎ ((queue_wire size ring wire ≡ some (ring ++ wire)) × (length ring + length wire ≤ size))
unfolding queue_wire serial_tx_queue
queue_wire-cases size ring wire h = ground arith

-- What a run of the loop does: nothing is lost or reordered, and it stops because the queue is
-- empty or its oldest frame does not fit the ring.
pub record Sent (size : ℕ) (s : Session) (ring : List ℕ) (r : Session × List ℕ) : Type 0 where
  pub ready : IsReady r.0
  pub kept : r.1 ++ on_wire (frames r.0.api) ≡ ring ++ on_wire (frames s.api)
  pub no_more : length (frames r.0.api) ≤ length (frames s.api)
  pub fits : length r.1 ≤ size
  pub progress :
      length ring + wire_max ≤ size
      → (frames s.api ≡ []) ⊎ (length (frames r.0.api) < length (frames s.api))
  pub settled :
      (frames r.0.api ≡ [])
      ⊎ ((f : Frame) × (fs : List Frame) × (frames r.0.api ≡ f ∷ fs)
          × (size < length r.1 + length (wire_of f)))

module _ (src : Source) (size : ℕ) where
  work-none :
      (fuel : ℕ) (s : Session) (ring : List ℕ)
      → pop_frame src s ≡ (none, s)
      → tx_work (suc fuel) size src s ring ≡ (s, ring)
  unfolding tx_work
  work-none fuel s ring e = ground (arith, e)

  module _ (fuel : ℕ) (s next : Session) (f : Frame) (ring : List ℕ)
      (popped : pop_frame src s ≡ (some f, next)) where
    work-skip :
        encode_frame f wire_max ≡ none
        → tx_work (suc fuel) size src s ring ≡ tx_work fuel size src next ring
    unfolding tx_work
    work-skip e = ground (arith, popped, e)

    pub work-defer :
        (wire : List ℕ)
        → encode_frame f wire_max ≡ some wire
        → queue_wire size ring wire ≡ none
        → tx_work (suc fuel) size src s ring ≡ (push_fromradio next f, ring)
    unfolding tx_work
    work-defer wire e q = ground (arith, popped, e, q)

    work-put :
        (wire longer : List ℕ)
        → encode_frame f wire_max ≡ some wire
        → queue_wire size ring wire ≡ some longer
        → tx_work (suc fuel) size src s ring ≡ tx_work fuel size src next longer
    unfolding tx_work
    work-put wire longer e q = ground (arith, popped, e, q)

  -- A turn that goes on, and what the rest of the run then does.
  Sent-next :
      {s next : Session} {f : Frame} {ring longer : List ℕ} {r : Session × List ℕ}
      → frames s.api ≡ f ∷ frames next.api
      → longer ≡ ring ++ wire_of f
      → Sent size next longer r
      → Sent size s ring r
  Sent-next {s} {next} {f} {ring} {longer} {r} order more t = record {
    ready = t.ready;
    kept = t.kept ∙ rw (more, order) (append_assoc ring (wire_of f) (on_wire (frames next.api)));
    no_more = omega (arith, t.no_more, ap length order);
    fits = t.fits;
    progress = λ room. inr (omega (arith, t.no_more, ap length order));
    settled = t.settled;
  }

  Sent-defer :
      {s next : Session} (f : Frame) (ring : List ℕ)
      → IsReady s
      → IsReady next
      → frames s.api ≡ f ∷ frames next.api
      → next.api.queue_size ≡ s.api.queue_size
      → length ring ≤ size
      → size < length ring + length (wire_of f)
      → Sent size s ring (push_fromradio next f, ring)
  unfolding push_fromradio
  Sent-defer {s} {next} f ring rs r order same h full =
      let room : next.api.count < next.api.queue_size = omega (
        arith,
        rs.valid.count_in,
        ap length order,
        length-frames s.api,
        length-frames next.api,
        same,
      ) in
      let (ready, back) = push_frame_front-IsReady next f r room in
      record {
        ready = ready;
        kept = ap (λ fs. ring ++ on_wire fs) (back ∙ sym order);
        no_more = omega (arith, ap length (back ∙ sym order));
        fits = h;
        progress = λ spare. absurd (omega (arith, wire_of_le f));
        settled = inr (f, frames next.api, back, full);
      }

  turn-Sent :
      (fuel : ℕ) (s : Session) (ring : List ℕ)
      → ((next : Session) (longer : List ℕ)
          → IsReady next
          → next.api.count < fuel
          → length longer ≤ size
          → Sent size next longer (tx_work fuel size src next longer))
      → IsReady s
      → s.api.count < suc fuel
      → length ring ≤ size
      → Sent size s ring (tx_work (suc fuel) size src s ring)
  turn-Sent fuel s ring rest r enough h = by_pop (pop_frame src s) refl (pop_frame-Taken src s r)
    where
      Goal : Type 0
      Goal = Sent size s ring (tx_work (suc fuel) size src s ring)

      fewer :
          (next : Session) {f : Frame} → frames s.api ≡ f ∷ frames next.api → next.api.count < fuel
      fewer next order = omega (arith, ap length order, length-frames s.api, length-frames next.api)

      by_wire :
          (f : Frame) (next : Session)
          → pop_frame src s ≡ (some f, next)
          → IsReady next
          → frames s.api ≡ f ∷ frames next.api
          → next.api.queue_size ≡ s.api.queue_size
          → (w : Option (List ℕ)) → encode_frame f wire_max ≡ w
          → Goal
      by_wire f next e rn order same none ew = rw (work-skip fuel s next f ring e ew) (
          Sent-next order (sym (ap (λ w. ring ++ w) (wire_of-none f ew) ∙ append-nil ring))
            (rest next ring rn (fewer next order) h))
      by_wire f next e rn order same (some wire) ew = elim (queue_wire-cases size ring wire h) [
        | inl (full, long) ↦ rw (work-defer fuel s next f ring e wire ew full) (
            Sent-defer f ring r rn order same h
              (omega (arith, long, ap length (wire_of-some f ew))))
        | inr (put, fit) ↦ rw (work-put fuel s next f ring e wire (ring ++ wire) ew put) (
            Sent-next order (ap (λ w. ring ++ w) (sym (wire_of-some f ew))) (
              rest next (ring ++ wire) rn (fewer next order)
                (omega (arith, fit, length-append ring wire))))
      ]

      by_pop : (q : Option Frame × Session) → pop_frame src s ≡ q → Taken s q → Goal
      by_pop (none, _) e (nothing empty) = rw (work-none fuel s ring e) (record {
        ready = r;
        kept = refl;
        no_more = omega arith;
        fits = h;
        progress = λ room. inl empty;
        settled = inl empty;
      })
      by_pop (some _, _) e (oldest f next rn order same) =
          by_wire f next e rn order same (encode_frame f wire_max) refl

  tx_work-Sent :
      (fuel : ℕ) (s : Session) (ring : List ℕ)
      → IsReady s
      → s.api.count < fuel
      → length ring ≤ size
      → Sent size s ring (tx_work fuel size src s ring)
  tx_work-Sent zero s ring r enough h = absurd (omega arith)
  tx_work-Sent (suc fuel) s ring r enough h = turn-Sent fuel s ring (tx_work-Sent fuel) r enough h

  -- From a valid queue outside the handshake, and a ring that is not overfull, `tx_work_handler`
  -- moves whole frames to the ring: the ring's bytes and the frames left on the wire are together what
  -- they were before, the queue stays valid, the ring does not overflow, with room for a longest
  -- frame one frame or more leaves a queue that is not empty, and the loop ends because the queue is
  -- empty or its oldest frame does not fit.
  pub tx_work_handler-Sent :
      (s : Session) (ring : List ℕ)
      → IsReady s
      → length ring ≤ size
      → Sent size s ring (tx_work_handler size src s ring)
  unfolding tx_work_handler
  tx_work_handler-Sent s ring r h = tx_work-Sent (suc (s.api.count + size)) s ring r (omega arith) h
