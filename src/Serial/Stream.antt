-- ===== src/Serial/Stream.antt =====
-- The receive loop on a byte stream: it ends, and it does not depend on how the bytes
-- arrive.
use meshtastic_zephyr.Prelude.{
  ℕ, zero, suc, ◌+◌, ◌*◌, ◌≤◌, ◌<◌, ◌≡◌, ◌≢◌, refl, sym, ap, ◌∙◌, List, [], ◌∷◌, ◌++◌, arith,
  length, ◌⊎◌, inl, inr, length-append, length-drop, take-append, drop-append, append_assoc,
}
use meshtastic_zephyr.Serial.{
  Pop, need_more, resync, delivered, pop_after_header, rx_pop_frame, rx_work, rx_work_handler,
  api_frame_max,
}

-- A call that waits leaves the bytes; any other takes some, and does the same with more behind.
pop_wait : (bytes : List ℕ) → (rx_pop_frame bytes).0 ≡ need_more → (rx_pop_frame bytes).1 ≡ bytes
unfolding rx_pop_frame pop_after_header
pop_wait [] h = refl
pop_wait (a ∷ []) h = refl
pop_wait (a ∷ b ∷ []) h = refl
pop_wait (a ∷ b ∷ c ∷ []) h = refl
pop_wait (a ∷ b ∷ c ∷ d ∷ rest) h = ground arith

pop_shrink :
    (bytes : List ℕ)
    → (rx_pop_frame bytes).0 ≢ need_more
    → length (rx_pop_frame bytes).1 < length bytes
unfolding rx_pop_frame pop_after_header
pop_shrink [] h = absurd (h refl)
pop_shrink (a ∷ []) h = absurd (h refl)
pop_shrink (a ∷ b ∷ []) h = absurd (h refl)
pop_shrink (a ∷ b ∷ c ∷ []) h = absurd (h refl)
pop_shrink (a ∷ b ∷ c ∷ d ∷ rest) h = ground (arith, length-drop (c * 256 + d) rest)

pop_extend :
    (bytes more : List ℕ)
    → (rx_pop_frame bytes).0 ≢ need_more
    → rx_pop_frame (bytes ++ more) ≡ ((rx_pop_frame bytes).0, (rx_pop_frame bytes).1 ++ more)
unfolding rx_pop_frame pop_after_header
pop_extend [] more h = absurd (h refl)
pop_extend (a ∷ []) more h = absurd (h refl)
pop_extend (a ∷ b ∷ []) more h = absurd (h refl)
pop_extend (a ∷ b ∷ c ∷ []) more h = absurd (h refl)
pop_extend (a ∷ b ∷ c ∷ d ∷ rest) more h = ground (
  arith,
  length-append rest more,
  take-append (c * 256 + d) rest more,
  drop-append (c * 256 + d) rest more,
)

-- One turn of the loop, by what the call does.
pub work_wait :
    (f : ℕ) (bytes : List ℕ) → (rx_pop_frame bytes).0 ≡ need_more → rx_work f bytes ≡ ([], bytes)
unfolding rx_work
work_wait zero bytes h = refl
work_wait (suc f) bytes h = ground (arith, pop_wait bytes h)

waits? : (p : Pop) → (p ≡ need_more) ⊎ (p ≢ need_more)
waits? need_more = inl refl
waits? resync = inr (λ e. cc)
waits? (delivered d) = inr (λ e. cc)

-- The payload that a call hands on.
abbrev pub taken : Pop → List (List ℕ)
taken (delivered (b ∷ payload)) = (b ∷ payload) ∷ []
taken _ = []

pub work_step :
    (f : ℕ) (bytes : List ℕ)
    → (rx_pop_frame bytes).0 ≢ need_more
    → let rest = rx_work f (rx_pop_frame bytes).1 in
      rx_work (suc f) bytes ≡ (taken (rx_pop_frame bytes).0 ++ rest.0, rest.1)
unfolding rx_work
work_step f bytes go = by_pop (rx_pop_frame bytes) refl go
  where
    by_pop :
        (r : Pop × List ℕ)
        → rx_pop_frame bytes ≡ r
        → r.0 ≢ need_more
        → let rest = rx_work f r.1 in rx_work (suc f) bytes ≡ (taken r.0 ++ rest.0, rest.1)
    by_pop (need_more, left) e h = absurd (h refl)
    by_pop (resync, left) e h = ground arith
    by_pop (delivered [], left) e h = ground arith
    by_pop (delivered (b ∷ d), left) e h = ground arith

-- More fuel than bytes is enough: any such fuel gives the same.
pub rx_work_fuel :
    (f g : ℕ) (bytes : List ℕ)
    → length bytes < f
    → length bytes < g
    → rx_work f bytes ≡ rx_work g bytes
rx_work_fuel zero g bytes hf hg = absurd (omega arith)
rx_work_fuel (suc f) zero bytes hf hg = absurd (omega arith)
rx_work_fuel (suc f) (suc g) bytes hf hg = elim (waits? (rx_pop_frame bytes).0) [
  | inl w ↦ work_wait (suc f) bytes w ∙ sym (work_wait (suc g) bytes w)
  | inr go ↦
      let less = pop_shrink bytes go in
      work_step f bytes go
      ∙ ap (λ r. (taken (rx_pop_frame bytes).0 ++ r.0, r.1))
          (rx_work_fuel f g (rx_pop_frame bytes).1 (omega arith) (omega arith))
      ∙ sym (work_step g bytes go)
]

length-rx_work : (f : ℕ) (bytes : List ℕ) → length (rx_work f bytes).1 ≤ length bytes
unfolding rx_work
length-rx_work zero bytes = omega arith
length-rx_work (suc f) bytes = elim (waits? (rx_pop_frame bytes).0) [
  | inl w ↦ rw (work_wait (suc f) bytes w) (omega arith)
  | inr go ↦
      rw (work_step f bytes go)
        (omega (arith, length-rx_work f (rx_pop_frame bytes).1, pop_shrink bytes go))
]

-- What the loop does on `bytes ++ more`, from what it does on `bytes`.
rx_work-append :
    (f : ℕ) (bytes more : List ℕ)
    → length bytes + length more < f
    → let first = rx_work f bytes in
      let second = rx_work f (first.1 ++ more) in
      rx_work f (bytes ++ more) ≡ (first.0 ++ second.0, second.1)
rx_work-append zero bytes more h = absurd (omega arith)
rx_work-append (suc f) bytes more h = elim (waits? (rx_pop_frame bytes).0) [
  | inl w ↦ rw (work_wait (suc f) bytes w)
  | inr go ↦
      let left = (rx_pop_frame bytes).1 in
      let first = rx_work f left in
      let e = pop_extend bytes more go in
      let less = pop_shrink bytes go in
      ground (
        arith,
        work_step f bytes go,
        rw e at (work_step f (bytes ++ more) (rw e go)),
        rx_work-append f left more,
        rx_work_fuel (suc f) f (first.1 ++ more),
        length-append first.1 more,
        length-rx_work f left,
        append_assoc (taken (rx_pop_frame bytes).0) first.0 (rx_work f (first.1 ++ more)).0,
      )
]

rx_work-waits :
    (f : ℕ) (bytes : List ℕ) → length bytes < f → (rx_pop_frame (rx_work f bytes).1).0 ≡ need_more
rx_work-waits zero bytes h = absurd (omega arith)
rx_work-waits (suc f) bytes h = elim (waits? (rx_pop_frame bytes).0) [
  | inl w ↦ rw (work_wait (suc f) bytes w) w
  | inr go ↦
      rw (work_step f bytes go)
        (rx_work-waits f (rx_pop_frame bytes).1 (omega (arith, pop_shrink bytes go)))
]

wait_length :
    (bytes : List ℕ) → (rx_pop_frame bytes).0 ≡ need_more → length bytes < api_frame_max + 4
unfolding rx_pop_frame pop_after_header
wait_length [] h = omega arith
wait_length (a ∷ []) h = omega arith
wait_length (a ∷ b ∷ []) h = omega arith
wait_length (a ∷ b ∷ c ∷ []) h = omega arith
wait_length (a ∷ b ∷ c ∷ d ∷ rest) h = ground arith

-- The receive loop ends because it waits for bytes, not for want of fuel; it leaves no more bytes
-- than it found, and fewer than the 516 of a longest frame.
pub rx_work_handler_settles :
    (bytes : List ℕ)
    → let left = (rx_work_handler bytes).1 in
      (rx_pop_frame left ≡ (need_more, left))
      × (length left ≤ length bytes)
      × (length left < api_frame_max + 4)
unfolding rx_work_handler
rx_work_handler_settles bytes =
    let w = rx_work-waits (suc (length bytes)) bytes (omega arith) in
    let left = (rx_work (suc (length bytes)) bytes).1 in
    (
      ground (arith, w, pop_wait left w),
      length-rx_work (suc (length bytes)) bytes,
      wait_length left w,
    )

-- How the bytes are cut into deliveries does not matter: the loop run on some bytes, and again when
-- more have come, hands on the same payloads in the same order, and leaves the same bytes, as one
-- run on all of them.
pub rx_work_handler-append :
    (bytes more : List ℕ)
    → let first = rx_work_handler bytes in
      let second = rx_work_handler (first.1 ++ more) in
      rx_work_handler (bytes ++ more) ≡ (first.0 ++ second.0, second.1)
unfolding rx_work_handler
rx_work_handler-append bytes more =
    let f = suc (length bytes + length more) in
    let first = rx_work (suc (length bytes)) bytes in
    let total = length-append bytes more in
    let kept = length-append first.1 more in
    let shorter = length-rx_work (suc (length bytes)) bytes in
    ground (
      arith,
      rx_work_fuel (suc (length (bytes ++ more))) f (bytes ++ more),
      rx_work_fuel f (suc (length bytes)) bytes,
      rx_work_fuel f (suc (length (first.1 ++ more))) (first.1 ++ more),
      rx_work-append f bytes more,
    )
