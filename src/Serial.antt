-- ===== src/Serial.antt =====
-- The StreamAPI framing of src/meshtastic_serial.c: `meshtastic_serial_encode_frame`, and
-- `serial_rx_pop_frame` with the loop of `rx_work_handler` and the receive interrupt.
pub mod Stream
pub mod Frames
pub mod Stall
pub mod Transmit
mod Tests
use meshtastic_zephyr.Prelude.{
  ℕ, zero, suc, ◌+◌, ◌-◌, ◌*◌, ◌/◌, ◌%◌, ◌==◌, ltb, leb, List, [], ◌∷◌, ◌++◌, Option, none, some,
  not, Bool, true, false, ◌||◌, if◌then◌else◌, length, take, drop,
}

abbrev pub api_frame_max : ℕ
api_frame_max = 512

abbrev pub start1 : ℕ
start1 = 0x94

abbrev pub start2 : ℕ
start2 = 0xc3

abbrev pub header : ℕ
header = 4

-- `meshtastic_serial_encode_frame` into a buffer of `out_len` bytes: what it writes, or `none` where
-- it returns 0.
pub encode_frame : List ℕ → ℕ → Option (List ℕ)
encode_frame payload out_len =
    if ltb api_frame_max (length payload) || ltb out_len (length payload + header)
    then none
    else some (start1 ∷ start2 ∷ length payload / 256 % 256 ∷ length payload % 256 ∷ payload)

-- What one call of `serial_rx_pop_frame` does.
pub data Pop : Type 0 where
  need_more : Pop  -- returns 0
  resync : Pop  -- returns -1 after dropping a byte
  delivered : List ℕ → Pop  -- returns 1 with this payload in `serial.rx_payload`

-- `serial_rx_pop_frame` on the ring buffer's bytes, oldest first. A `peek` for bytes that are there
-- succeeds.
pub pop_after_header : ℕ → ℕ → ℕ → ℕ → List ℕ → Pop × List ℕ
pop_after_header b0 b1 b2 b3 rest =
    let pkt_len : ℕ = b2 * 256 + b3 in
    if not (b0 == start1)
    then (resync, b1 ∷ b2 ∷ b3 ∷ rest)
    else if not (b1 == start2)
    then (resync, b1 ∷ b2 ∷ b3 ∷ rest)
    else if ltb api_frame_max pkt_len
    then (resync, b1 ∷ b2 ∷ b3 ∷ rest)
    else if ltb (length rest + header) (header + pkt_len)
    then (need_more, b0 ∷ b1 ∷ b2 ∷ b3 ∷ rest)
    else (delivered (take pkt_len rest), drop pkt_len rest)

pub rx_pop_frame : List ℕ → Pop × List ℕ
rx_pop_frame (b0 ∷ b1 ∷ b2 ∷ b3 ∷ rest) = pop_after_header b0 b1 b2 b3 rest
rx_pop_frame bytes = (need_more, bytes)

-- The loop of `rx_work_handler`: the payloads handed to `handle_toradio`, and the bytes left. Each
-- turn takes a byte or more, so as much fuel as there are bytes, and one more, is enough. A frame
-- with an empty payload is ignored.
abbrev pub keep_payload : List ℕ → List (List ℕ) × List ℕ → List (List ℕ) × List ℕ
keep_payload [] r = r
keep_payload (b ∷ payload) r = ((b ∷ payload) ∷ r.0, r.1)

pub rx_work : ℕ → List ℕ → List (List ℕ) × List ℕ
rx_work zero bytes = ([], bytes)
rx_work (suc fuel) bytes =
    let popped = rx_pop_frame bytes in
    let rest = rx_work fuel popped.1 in
    elim popped.0 [
      | need_more ↦ ([], popped.1)
      | resync ↦ rest
      | delivered payload ↦ keep_payload payload rest
    ]

-- `rx_work_handler`
pub rx_work_handler : List ℕ → List (List ℕ) × List ℕ
rx_work_handler bytes = rx_work (suc (length bytes)) bytes

-- `serial_isr_rx`, where `region` is the contiguous room that the ring buffer offers and `fifo` what
-- the UART holds. With no room, all of `fifo` is read and dropped; otherwise as much is read as fits
-- the region.
pub isr_rx : ℕ → List ℕ → List ℕ → List ℕ × List ℕ
isr_rx region ring fifo =
    if region == 0 then (ring, []) else (ring ++ take region fifo, drop region fifo)
