-- ===== src/Radio.antt =====
-- src/meshtastic_radio.c: the transmission of one frame around the LoRa driver, and the queue of
-- received frames between the driver's callback and the processing thread. The semaphore and the mutex
-- make a transmission one step.
pub mod Sending
pub mod Reception
mod Tests
use meshtastic_zephyr.Prelude.{
  ℕ, zero, suc, ◌+◌, ◌-◌, ◌%◌, ◌==◌, ltb, leb, Bool, true, false, ◌||◌, List, [], ◌∷◌, ◌++◌, Option,
  none, some, Errno, ebusy, if◌then◌else◌, length,
}
use meshtastic_zephyr.Packet.{Status, ℤ, Event, tx_failed, inc32}
use meshtastic_zephyr.Wire.{pkt_max}

-- `struct mt_rx_slot`
pub record RxSlot : Type 0 where
  pub buf : List ℕ
  pub rssi : ℤ
  pub snr : ℤ

-- The part of `mt` that the radio writes, and the queue of received frames.
pub record Radio : Type 0 where
  pub rx_armed : Bool
  pub status : Status
  pub rx_queue : List RxSlot

-- The build options that this file reads.
pub record Kconfig : Type 0 where
  pub tx_busy_retries : ℕ
  pub backoff_min_ms : ℕ
  pub backoff_max_ms : ℕ
  pub rx_queue_depth : ℕ
  pub with_airtime : Bool

-- The driver's answers in one transmission, `none` for 0: to the configuration for sending, to each
-- attempt to send, and to the arming of reception; and the random number after each attempt.
pub record Driver : Type 0 where
  pub config_tx : Option Errno
  pub send : ℕ → Option Errno
  pub arm : Option Errno
  pub random : ℕ → ℕ

-- A call of the driver, the clock or another component.
pub data RadioCall : Type 0 where
  recv_stop recv_start config_tx config_rx : RadioCall
  lora_send : List ℕ → RadioCall
  sleep_ms : ℕ → RadioCall
  emit : Event → RadioCall
  log_tx_airtime : ℕ → RadioCall

-- `mt_radio_arm_rx`
pub arm_rx : Option Errno → Radio → Radio
arm_rx none r = record r { rx_armed = true }
arm_rx (some error) r = record r {
  rx_armed = false;
  status = record (r.status) { rx_rearm_failures = inc32 r.status.rx_rearm_failures };
}

-- `mt_busy_backoff_ms`, on the random number that it draws
pub busy_backoff_ms : Kconfig → ℕ → ℕ
busy_backoff_ms k random =
    if leb k.backoff_max_ms k.backoff_min_ms
    then k.backoff_min_ms
    else k.backoff_min_ms + random % (k.backoff_max_ms - k.backoff_min_ms + 1)

abbrev pub is_busy : Option Errno → Bool
is_busy (some ebusy) = true
is_busy _ = false

-- The loop of `meshtastic_radio_send_wire_now` with `retries` left, from attempt `i` on: the answer that
-- it ends with, and its calls.
pub send_loop : Kconfig → Driver → List ℕ → ℕ → ℕ → Option Errno × List RadioCall
send_loop k d pkt zero i = (d.send i, lora_send pkt ∷ [])
send_loop k d pkt (suc retries) i =
    let rest = send_loop k d pkt retries (i + 1) in
    if is_busy (d.send i)
    then (rest.0, lora_send pkt ∷ sleep_ms (busy_backoff_ms k (d.random i)) ∷ rest.1)
    else (d.send i, lora_send pkt ∷ [])

-- What the driver is asked between the stopping and the arming of reception, and its last answer.
pub configured_send : Kconfig → Driver → List ℕ → Option Errno × List RadioCall
configured_send k d pkt = elim d.config_tx [
  | some error ↦ (some error, [])
  | none ↦ send_loop k d pkt k.tx_busy_retries 0
]

-- The counters and the calls after a transmission, by its outcome
unfoldable pub count_tx : Option Errno → Status → Status
count_tx none s = record s { tx_packets = inc32 s.tx_packets }
count_tx (some error) s = record s { tx_failures = inc32 s.tx_failures }

pub report_tx : Kconfig → List ℕ → Option Errno → List RadioCall
report_tx k pkt none = if k.with_airtime then log_tx_airtime (length pkt) ∷ [] else []
report_tx k pkt (some error) =
    emit (record { type = tx_failed; error = some error; packet = none }) ∷ []

-- What a call leaves: its return value, the state and its calls in their order.
pub record Transmitted : Type 0 where
  pub ret : Option Errno
  pub radio : Radio
  pub calls : List RadioCall

-- `meshtastic_radio_send_wire_now`
pub send_wire_now : Kconfig → Driver → List ℕ → Radio → Transmitted
send_wire_now k d pkt r =
    let sent = configured_send k d pkt in
    let armed = arm_rx d.arm (record r { rx_armed = false }) in
    record {
      ret = sent.0;
      radio = record armed { status = count_tx sent.0 armed.status };
      calls =
          (recv_stop ∷ config_tx ∷ sent.1)
          ++ ((config_rx ∷ recv_start ∷ []) ++ report_tx k pkt sent.0);
    }

-- `mt_rx_cb`
pub rx_cb : Kconfig → RxSlot → Radio → Radio
rx_cb k slot r =
    if (length slot.buf == 0) || ltb pkt_max (length slot.buf)
    then r
    else if ltb (length r.rx_queue) k.rx_queue_depth
    then record r { rx_queue = r.rx_queue ++ (slot ∷ []) }
    else record r { status = record (r.status) { rx_dropped = inc32 r.status.rx_dropped } }

-- A turn of `mt_thread_fn`: the frame handed to the router, where there is one. With none in time, a
-- radio that is not armed is armed again, and `arm` is the driver's answer.
pub turn_on : Option Errno → List RxSlot → Radio → Option RxSlot × Radio
turn_on arm [] r = if r.rx_armed then (none, r) else (none, arm_rx arm r)
turn_on arm (slot ∷ slots) r = (some slot, record r { rx_queue = slots })

pub thread_turn : Option Errno → Radio → Option RxSlot × Radio
thread_turn arm r = turn_on arm r.rx_queue r
