-- ===== src/Core/Send.antt =====
-- What `meshtastic_send_packet` of src/meshtastic.c hands to the radio, and what it leaves where it
-- fails.
use meshtastic_zephyr.Prelude.{
  ℕ, ◌≤◌, ◌<◌, ◌≡◌, ◌≢◌, refl, sym, ap, ◌∙◌, inl, inr, true, false, not, ◌||◌, List, [], ◌∷◌, ◌++◌,
  if◌then◌else◌, Option, none, some, Result, ok, err, Errno, einval, arith, length, Option-cases,
  Bool-cases,
}
use mathlib.Core.Path.{subst}
use meshtastic_zephyr.Packet.{Packet, Status, tx_failed, inc32, ℤ, max_payload_len}
use meshtastic_zephyr.Wire.Codec.{PacketFits}
use meshtastic_zephyr.Channels.{slot, max_channels, inherits}
use meshtastic_zephyr.Channels.Key.{key_slot}
use meshtastic_zephyr.Channels.Policy.{get_hash, resolve_send_index, decode_known_only}
use meshtastic_zephyr.Codec.{build_wire_packet, try_decode_wire_packet, is_tried}
use meshtastic_zephyr.Codec.Decrypt.{IsPlatform}
use meshtastic_zephyr.Codec.Roundtrip.{received, try_decode-build}
use meshtastic_zephyr.Core.{
  Core, Env, Wait, Action, radio_send, event, radio_events, Sent, bad_packet, with_defaults,
  count_id, send_packet_prepare, send_packet_complete, is_forever, transmit, send_packet,
}

-- The cases of `send_packet_prepare`.
data Prepared (e : Env) (packet : Option Packet) (c : Core)
    : Option (Result (Packet × List ℕ) × Core) → Type 0 where
  refused : Prepared e packet c (some (err einval, c))
  lost : Prepared e packet c none
  unbuilt :
      (p : Packet) (error : Errno)
      → packet ≡ some p
      → Prepared e packet c (some (err error, count_id c p))
  built :
      (p : Packet) (wire : List ℕ)
      → packet ≡ some p
      → c.initialized ≡ true
      → bad_packet (some p) ≡ false
      → build_wire_packet e.platform e.peers c.channels (with_defaults c p) ≡ some (ok wire)
      → Prepared e packet c (some (ok (with_defaults c p, wire), count_id c p))

prepare-Prepared :
    (e : Env) (packet : Option Packet) (c : Core)
    → Prepared e packet c (send_packet_prepare e packet c)
unfolding send_packet_prepare
prepare-Prepared e none c = refused
prepare-Prepared e (some p) c = elim (Bool-cases (not c.initialized || bad_packet (some p))) [
  | inl bad ↦ rw bad refused
  | inr good ↦ rw good (
      by_frame (ground arith) (ground arith)
        (build_wire_packet e.platform e.peers c.channels (with_defaults c p)) refl)
]
  where
    by_frame :
        c.initialized ≡ true
        → bad_packet (some p) ≡ false
        → (r : Option (Result (List ℕ)))
        → build_wire_packet e.platform e.peers c.channels (with_defaults c p) ≡ r
        → Prepared e (some p) c (elim r [
          | none ↦ none
          | some (err error) ↦ some (err error, count_id c p)
          | some (ok wire) ↦ some (ok (with_defaults c p, wire), count_id c p)
        ])
    by_frame ready good none b = lost
    by_frame ready good (some (err error)) b = unbuilt p error refl
    by_frame ready good (some (ok wire)) b = built p wire refl ready good b

returned : (s : Sent) {t : Sent} → some s ≡ some t → s ≡ t
returned s h = cc

abbrev after_prepare : Env → Wait → Option (Result (Packet × List ℕ) × Core) → Option Sent
after_prepare e wait q = elim q [
  | none ↦ none
  | some (err error, c') ↦ some (record { ret = some error; core = c'; actions = [] })
  | some (ok (local, wire), c') ↦ some (transmit e wait local wire c')
]

-- A transmission that ended before the wait did is what the radio answers.
pub record IsRadio (e : Env) : Type 0 where
  pub answers :
      (wait : Wait) (wire : List ℕ) {outcome : Option Errno}
      → e.tx_outcome wait wire ≡ some outcome
      → e.send_wire wait wire ≡ outcome

-- A failure before the radio, at its queue or within the wait, and in the transmission.
pub data Failure (e : Env) (wait : Wait) (c : Core) (error : Errno)
    : Status → List Action → Type 0 where
  unsent : Failure e wait c error c.status []
  untransmitted :
      (wire : List ℕ)
      → e.send_wire wait wire ≡ some error
      → e.tx_outcome wait wire ≡ none
      → Failure e wait c error c.status (radio_send wait wire ∷ [])
  in_transmission :
      (wire : List ℕ)
      → e.tx_outcome wait wire ≡ some (some error)
      → Failure e wait c error
          (record (c.status) { tx_failures = inc32 c.status.tx_failures })
          (radio_send wait wire
            ∷ (if c.has_event_cb
                then event (record { type = tx_failed; error = some error; packet = none }) ∷ []
                else []))

-- What a call that fails with `error` leaves.
pub record Failed (e : Env) (wait : Wait) (c : Core) (error : Errno) (sent : Sent) : Type 0 where
  pub untracked : sent.core.reliable ≡ c.reliable
  pub failure : Failure e wait c error sent.core.status sent.actions

-- What a call that succeeds has done: it built the frame of the packet with its defaults, the radio
-- took it, and the packet is tracked.
pub record Success (e : Env) (packet : Option Packet) (wait : Wait) (c : Core) (sent : Sent)
    : Type 0 where
  pub given : Packet
  pub wire : List ℕ
  pub is_given : packet ≡ some given
  pub is_good : bad_packet (some given) ≡ false
  pub frame :
      build_wire_packet e.platform e.peers c.channels (with_defaults c given) ≡ some (ok wire)
  pub taken : e.send_wire wait wire ≡ none
  pub calls :
      sent.actions
      ≡ radio_send wait wire
        ∷ (radio_events (count_id c given) (e.tx_outcome wait wire)
            ++ send_packet_complete e
                (count_id c given)
                (with_defaults c given)
                wire
                (is_forever wait))

transmit-calls :
    (e : Env) (wait : Wait) (local : Packet) (wire : List ℕ) (c : Core)
    → (transmit e wait local wire c).ret ≡ none
    → (e.send_wire wait wire ≡ none)
      × ((transmit e wait local wire c).actions
          ≡ radio_send wait wire
            ∷ (radio_events c (e.tx_outcome wait wire)
                ++ send_packet_complete e c local wire (is_forever wait)))
unfolding transmit
transmit-calls e wait local wire c done = elim (Option-cases (e.send_wire wait wire)) [
  | inl taken ↦ (taken, ground (arith, taken))
  | inr (code, radio) ↦ absurd (ground (arith, radio))
]

pub send_packet-Success :
    (e : Env) (packet : Option Packet) (wait : Wait) (c : Core) (sent : Sent)
    → send_packet e packet wait c ≡ some sent
    → sent.ret ≡ none
    → Success e packet wait c sent
unfolding send_packet count_id
send_packet-Success e packet wait c sent called done =
    by_prepare (send_packet_prepare e packet c) (prepare-Prepared e packet c) called
  where
    failed :
        (error : Errno) (c' : Core)
        → record { ret = some error; core = c'; actions = [] } ≡ sent
        → Success e packet wait c sent
    failed error c' is = absurd (ground (arith, ap (λ (s : Sent). s.ret) is, done))

    by_prepare :
        (q : Option (Result (Packet × List ℕ) × Core))
        → Prepared e packet c q
        → after_prepare e wait q ≡ some sent
        → Success e packet wait c sent
    by_prepare _ refused h = failed einval c (returned _ h)
    by_prepare _ lost h = cc
    by_prepare _ (unbuilt p code given) h = failed code (count_id c p) (returned _ h)
    by_prepare _ (built p wire given ready good frame) h =
        let is = returned _ h in
        let (taken, calls) =
          transmit-calls e wait (with_defaults c p) wire (count_id c p)
            (ap (λ (s : Sent). s.ret) is ∙ done) in
        record {
          given = p;
          wire = wire;
          is_given = given;
          is_good = good;
          frame = frame;
          taken = taken;
          calls = ap (λ (s : Sent). s.actions) (sym is) ∙ calls;
        }

-- Where meshtastic_send_packet succeeds for a packet with a port other than 0, its first call hands the
-- radio a frame that a receiver with the sender's channel table and NodeDB decodes to the packet with its
-- defaults filled in, its hop counts modulo 8, under the conditions of decoding: the slot `i` it is sent on
-- is enabled with its hash up to date and does not inherit its key from a slot that inherits, no slot before
-- it has that hash, and the sender is not unknown to a node that decodes known nodes only.
pub send_packet-try_decode :
    (e : Env) (p q : Packet) (wait : Wait) (c : Core) (sent : Sent) (rssi snr : ℤ) (i : ℕ)
    → IsPlatform e.platform
    → PacketFits (with_defaults c p)
    → p.portnum ≢ 0
    → i < max_channels
    → resolve_send_index e.peers.channel c.channels p.to (with_defaults c p).channel_index p.channel
      ≡ i
    → ((j : ℕ) → length (slot c.channels j).settings.psk ≤ 32)
    → inherits c.channels (key_slot c.channels i) ≡ false
    → decode_known_only e.peers.known c.channels (with_defaults c p).from ≡ true
    → is_tried c.channels i (get_hash c.channels i) ≡ true
    → ((j : ℕ) → j < i → is_tried c.channels j (get_hash c.channels i) ≡ false)
    → send_packet e (some p) wait c ≡ some sent
    → sent.ret ≡ none
    → (wire : List ℕ) × (rest : List Action) × (sent.actions ≡ radio_send wait wire ∷ rest)
      × (try_decode_wire_packet e.platform e.peers c.channels (some wire) rssi snr q max_payload_len
          ≡ some (ok (received c.channels (with_defaults c p) i rssi snr q, true)))
unfolding with_defaults
send_packet-try_decode e p q wait c sent rssi snr i v fits port lt sends psks own known tried
      earlier called done =
    let s = send_packet-Success e (some p) wait c sent called done in
    let same : s.given ≡ p = cc in
    (
      s.wire,
      radio_events (count_id c s.given) (e.tx_outcome wait s.wire)
          ++ send_packet_complete e (count_id c s.given) (with_defaults c s.given) s.wire
              (is_forever wait),
      s.calls,
      try_decode-build e.platform e.peers c.channels (with_defaults c p) q s.wire rssi snr i v fits
          port lt sends psks own known tried earlier
          (subst
            (λ g.
              build_wire_packet e.platform e.peers c.channels (with_defaults c g)
              ≡ some (ok s.wire))
            same s.frame),
    )

pub with_defaults-want_response :
    (c : Core) (p : Packet) → (with_defaults c p).want_response ≡ p.want_response
unfolding with_defaults
with_defaults-want_response c p = refl
