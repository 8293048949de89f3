-- ===== src/Serial/Frames.antt =====
-- The receive loop finds the frames that `encode_frame` writes, between other bytes.
use meshtastic_zephyr.Prelude.{
  ℕ, zero, suc, ◌≤◌, ◌<◌, ◌≡◌, ◌≢◌, refl, ap, ◌∙◌, List, [], ◌∷◌, ◌++◌, some, arith, length,
  length-append, take-append_self, drop-append_self,
}
use meshtastic_zephyr.Serial.{
  resync, delivered, pop_after_header, rx_pop_frame, rx_work, rx_work_handler, encode_frame, start1,
}
use meshtastic_zephyr.Serial.Stream.{taken, work_step}

-- A stream of frames that `encode_frame` wrote, with bytes other than START1 before them, each with four
-- more bytes of the stream behind it, and the payloads to be handed on: the frames' own, without the empty ones.
pub data IsStream : List ℕ → List (List ℕ) → Type 0 where
  done : IsStream [] []
  noise :
      {b : ℕ} {bytes : List ℕ} {payloads : List (List ℕ)}
      → b ≢ start1
      → 4 ≤ length bytes
      → IsStream bytes payloads
      → IsStream (b ∷ bytes) payloads
  frame :
      (payload wire bytes : List ℕ) (payloads : List (List ℕ)) (out_len : ℕ) {all : List ℕ}
      {handed : List (List ℕ)}
      → encode_frame payload out_len ≡ some wire
      → all ≡ wire ++ bytes
      → handed ≡ taken (delivered payload) ++ payloads
      → IsStream bytes payloads
      → IsStream all handed

pop-noise :
    (b : ℕ) (bytes : List ℕ)
    → b ≢ start1
    → 3 ≤ length bytes
    → rx_pop_frame (b ∷ bytes) ≡ (resync, bytes)
unfolding rx_pop_frame pop_after_header
pop-noise b [] h l = absurd (omega arith)
pop-noise b (c ∷ []) h l = absurd (omega arith)
pop-noise b (c ∷ d ∷ []) h l = absurd (omega arith)
pop-noise b (c ∷ d ∷ e ∷ rest) h l = ground arith

pop-frame :
    (payload wire bytes : List ℕ) (out_len : ℕ)
    → encode_frame payload out_len ≡ some wire
    → rx_pop_frame (wire ++ bytes) ≡ (delivered payload, bytes)
unfolding encode_frame rx_pop_frame pop_after_header
pop-frame payload wire bytes out_len e = ground (
  arith,
  length-append payload bytes,
  take-append_self payload bytes,
  drop-append_self payload bytes,
)

length-frame :
    (payload wire : List ℕ) (out_len : ℕ)
    → encode_frame payload out_len ≡ some wire
    → 0 < length wire
unfolding encode_frame
length-frame payload wire out_len e = ground arith

rx_work-stream :
    (f : ℕ) {bytes : List ℕ} {payloads : List (List ℕ)}
    → IsStream bytes payloads
    → length bytes < f
    → rx_work f bytes ≡ (payloads, [])
unfolding rx_work rx_pop_frame
rx_work-stream zero s h = absurd (omega arith)
rx_work-stream (suc f) done h = refl
rx_work-stream (suc f) (noise {b} {bytes} {payloads} nb l s) h =
    let e = pop-noise b bytes nb (omega arith) in
    let step = work_step f (b ∷ bytes) (rw e (λ q. cc)) in
    (rw e at step) ∙ rx_work-stream f s (omega arith)
rx_work-stream (suc f) (frame payload wire bytes payloads out_len {all} {handed} e ea eh s) h =
    let p = pop-frame payload wire bytes out_len e in
    let step = work_step f (wire ++ bytes) (rw p (λ q. cc)) in
    let shorter = length-frame payload wire out_len e in
    let rest =
      rx_work-stream f {bytes = bytes} s (omega (arith, ap length ea, length-append wire bytes)) in
    rw (ea, eh) ((rw p at step) ∙ ap (λ r. (taken (delivered payload) ++ r.0, r.1)) rest)

-- From a stream of written frames with bytes other than START1 before them, each of which has four more
-- bytes of the stream behind it, the receive loop hands on exactly the frames' payloads that are not empty,
-- in order, and leaves nothing.
pub rx_work_handler-stream :
    {bytes : List ℕ} {payloads : List (List ℕ)}
    → IsStream bytes payloads
    → rx_work_handler bytes ≡ (payloads, [])
unfolding rx_work_handler
rx_work_handler-stream {bytes} s = rx_work-stream (suc (length bytes)) s (omega arith)
