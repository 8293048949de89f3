-- ===== src/Serial/Transmit/Rounds.antt =====
-- Runs of `tx_work_handler` and of the transmit interrupt, and how they drain the phone queue.
use meshtastic_zephyr.Prelude.{
  ℕ, zero, suc, ◌≤◌, ◌≡◌, refl, ap, ◌∙◌, sym, List, [], ◌++◌, arith, length, length-drop,
  append_assoc, take, drop, take-append-drop,
}
use meshtastic_zephyr.Phone.Queue.Refines.{frames}
use meshtastic_zephyr.Phone.Handshake.{Source, Session}
use meshtastic_zephyr.Phone.Handshake.Rest.{IsReady}
use meshtastic_zephyr.Serial.Transmit.{tx_work_handler, isr_tx}
use meshtastic_zephyr.Serial.Transmit.Order.{on_wire, tx_work_handler-Sent}

-- The phone session, the transmit ring, and what the UART has been given.
pub record Line : Type 0 where
  pub session : Session
  pub ring : List ℕ
  pub out : List ℕ

module _ (src : Source) (size : ℕ) where
  unfoldable pub work_step : Line → Line
  work_step l =
      let r = tx_work_handler size src l.session l.ring in record l { session = r.0; ring = r.1 }

  unfoldable pub isr_step : ℕ → Line → Line
  isr_step sent l = let r = isr_tx sent l.ring in record l { ring = r.1; out = l.out ++ r.0 }

  -- Runs of the work item and of the interrupt, in any order.
  pub data TxSteps (a : Line) : Line → Type 0 where
    start : TxSteps a a
    work : {b : Line} → TxSteps a b → TxSteps a (work_step b)
    interrupt : {b : Line} (sent : ℕ) → TxSteps a b → TxSteps a (isr_step sent b)

  -- The bytes sent, those in the ring, and those of the frames that wait.
  pub all_bytes : Line → List ℕ
  all_bytes l = l.out ++ (l.ring ++ on_wire (frames l.session.api))

  -- Whatever the order of the runs of the work item and of the interrupt, from a valid queue outside
  -- the handshake and a ring that is not overfull: the bytes given to the UART, those in the ring and
  -- those of the frames that wait are together always the same, the queue stays valid and the ring
  -- does not overflow.
  pub TxSteps-all_bytes :
      {a b : Line}
      → IsReady a.session
      → length a.ring ≤ size
      → TxSteps a b
      → IsReady b.session × (length b.ring ≤ size) × (all_bytes b ≡ all_bytes a)
  unfolding work_step isr_step isr_tx all_bytes
  TxSteps-all_bytes r h start = (r, h, refl)
  TxSteps-all_bytes r h (work {b} steps) =
      let (rb, hb, same) = TxSteps-all_bytes r h steps in
      let sent = tx_work_handler-Sent src size b.session b.ring rb hb in
      (sent.ready, sent.fits, ap (λ bytes. b.out ++ bytes) sent.kept ∙ same)
  TxSteps-all_bytes r h (interrupt {b} n steps) =
      let (rb, hb, same) = TxSteps-all_bytes r h steps in
      (
        rb,
        omega (arith, length-drop n b.ring),
        append_assoc b.out (take n b.ring) (drop n b.ring ++ on_wire (frames b.session.api))
            ∙ ap (λ bytes. b.out ++ bytes)
                (sym (append_assoc (take n b.ring) (drop n b.ring) (on_wire (frames b.session.api)))
                  ∙ ap (λ bytes. bytes ++ on_wire (frames b.session.api))
                      (take-append-drop n b.ring))
            ∙ same,
      )

  -- The work item, and then the interrupt until the ring is empty, which submits the work item again.
  pub rounds : ℕ → Session → Session × List ℕ
  rounds zero s = (s, [])
  rounds (suc n) s =
      let put = tx_work_handler size src s [] in
      let rest = rounds n put.0 in (rest.0, put.1 ++ rest.1)
