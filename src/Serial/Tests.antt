-- ===== src/Serial/Tests.antt =====
-- The receive loop of src/meshtastic_serial.c on one frame behind noise, and on a ring of four bytes.
use meshtastic_zephyr.Prelude.{ℕ, ◌≡◌, refl, List, [], ◌∷◌, ◌++◌, some, arith}
use meshtastic_zephyr.Serial.{encode_frame, rx_work_handler, start1, start2}
use meshtastic_zephyr.Serial.Stream.{rx_work_handler-append}
use meshtastic_zephyr.Serial.Frames.{IsStream, done, noise, frame, rx_work_handler-stream}
use meshtastic_zephyr.Serial.Stall.{RxSteps, here, next, work, IsStuck, stuck-RxSteps}

abbrev frame_bytes : List ℕ
frame_bytes = start1 ∷ start2 ∷ 0 ∷ 1 ∷ 9 ∷ []

framed : encode_frame (9 ∷ []) 100 ≡ some frame_bytes
unfolding encode_frame
framed = refl

noisy : IsStream (7 ∷ frame_bytes) ((9 ∷ []) ∷ [])
noisy =
    noise (omega arith) (omega arith) (frame (9 ∷ []) frame_bytes [] [] 100 framed refl refl done)

rx_work_handler-stream_example : rx_work_handler (7 ∷ frame_bytes) ≡ ((9 ∷ []) ∷ [], [])
rx_work_handler-stream_example = rx_work_handler-stream noisy

rx_work_handler-append_example : rx_work_handler ((7 ∷ 148 ∷ []) ++ (195 ∷ 0 ∷ [])) ≡ (
  (rx_work_handler (7 ∷ 148 ∷ [])).0
      ++ (rx_work_handler ((rx_work_handler (7 ∷ 148 ∷ [])).1 ++ (195 ∷ 0 ∷ []))).0,
  (rx_work_handler ((rx_work_handler (7 ∷ 148 ∷ [])).1 ++ (195 ∷ 0 ∷ []))).1,
)
rx_work_handler-append_example = rx_work_handler-append (7 ∷ 148 ∷ []) (195 ∷ 0 ∷ [])

-- Four bytes that announce a frame of one byte more.
abbrev small_ring : List ℕ
small_ring = start1 ∷ start2 ∷ 0 ∷ 1 ∷ []

small_ring-IsStuck : IsStuck 4 small_ring
small_ring-IsStuck = record {
  full = refl;
  hi = 0;
  lo = 1;
  rest = [];
  starts = refl;
  accepted = omega arith;
  too_long = omega arith;
}

small_ring_steps :
    RxSteps 4 small_ring ([] ++ (rx_work_handler small_ring).0) (rx_work_handler small_ring).1
small_ring_steps = next here work

stuck-RxSteps_example :
    ([] ++ (rx_work_handler small_ring).0 ≡ []) × ((rx_work_handler small_ring).1 ≡ small_ring)
stuck-RxSteps_example = stuck-RxSteps small_ring-IsStuck small_ring_steps
