-- ===== src/Serial/Transmit.antt =====
-- The transmit side of src/meshtastic_serial.c: `tx_work_handler`, which moves frames of the phone
-- queue to the transmit ring, and `serial_isr_tx`, which moves the ring's bytes to the UART. A run
-- of the work item is one step: that another thread enqueues a frame, or the interrupt takes bytes,
-- while it runs is not modelled.
pub mod Order
pub mod Rounds
pub mod Stall
mod Tests
use meshtastic_zephyr.Prelude.{
  ℕ, zero, suc, ◌+◌, ◌-◌, ltb, leb, Bool, true, false, List, [], ◌++◌, Option, none, some,
  if◌then◌else◌, length, take, drop,
}
use meshtastic_zephyr.Phone.{Frame}
use meshtastic_zephyr.Phone.Queue.{push_frame_front}
use meshtastic_zephyr.Phone.Handshake.{Source, Session, pop_frame}
use meshtastic_zephyr.Serial.{encode_frame, api_frame_max, header}

abbrev pub wire_max : ℕ
wire_max = api_frame_max + header

-- `push_fromradio`
pub push_fromradio : Session → Frame → Session
push_fromradio s frame = record s { api = push_frame_front s.api frame }

-- `serial_tx_queue` on a ring of `size` bytes that holds `ring`.
pub serial_tx_queue : ℕ → List ℕ → List ℕ → Bool × List ℕ
serial_tx_queue size ring wire =
    if leb (length wire) (size - length ring) then (true, ring ++ wire) else (false, ring)

-- The two tests of the room in the ring: the new ring, or `none` where the frame is deferred.
pub queue_wire : ℕ → List ℕ → List ℕ → Option (List ℕ)
queue_wire size ring wire =
    let (ok, longer) = serial_tx_queue size ring wire in
    if ltb (size - length ring) (length wire) then none else if ok then some longer else none

-- The loop of `tx_work_handler`, to the phone session and the ring that it leaves.
pub tx_work : ℕ → ℕ → Source → Session → List ℕ → Session × List ℕ
tx_work zero size src s ring = (s, ring)
tx_work (suc fuel) size src s ring =
    let popped = pop_frame src s in
    elim popped.0 [
      | none ↦ (popped.1, ring)
      | some frame ↦ elim (encode_frame frame wire_max) [
        | none ↦ tx_work fuel size src popped.1 ring
        | some wire ↦ elim (queue_wire size ring wire) [
          | none ↦ (push_fromradio popped.1 frame, ring)
          | some longer ↦ tx_work fuel size src popped.1 longer
        ]
      ]
    ]

-- `tx_work_handler`. A turn that goes on takes a frame of the queue, or one of the handshake, whose
-- header and payload then take room in the ring.
pub tx_work_handler : ℕ → Source → Session → List ℕ → Session × List ℕ
tx_work_handler size src s ring = tx_work (suc (s.api.count + size)) size src s ring

-- `serial_isr_tx`, where the UART takes `sent` bytes: the bytes that go out, and the ring.
pub isr_tx : ℕ → List ℕ → List ℕ × List ℕ
isr_tx sent ring = (take sent ring, drop sent ring)
