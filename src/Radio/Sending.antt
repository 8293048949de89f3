-- ===== src/Radio/Sending.antt =====
-- A transmission: how often the driver is asked to send, and that reception is armed again.
use meshtastic_zephyr.Prelude.{
  ℕ, zero, suc, ◌+◌, ◌≤◌, ◌<◌, ◌≡◌, ◌≢◌, refl, ap, ◌∙◌, inl, inr, true, false, List, [], ◌∷◌, ◌++◌,
  Option, none, some, Errno, arith, Option-cases, Bool-cases,
}
use meshtastic_zephyr.Packet.{Status, inc32}
use meshtastic_zephyr.Radio.{
  Radio, Kconfig, Driver, RadioCall, recv_stop, recv_start, config_tx, config_rx, lora_send,
  sleep_ms, is_busy, send_loop, configured_send, count_tx, report_tx, Transmitted, send_wire_now,
  arm_rx,
}

-- The attempts to send among calls
unfoldable pub attempts : List RadioCall → ℕ
attempts [] = 0
attempts (lora_send pkt ∷ cs) = suc (attempts cs)
attempts (recv_stop ∷ cs) = attempts cs
attempts (recv_start ∷ cs) = attempts cs
attempts (config_tx ∷ cs) = attempts cs
attempts (config_rx ∷ cs) = attempts cs
attempts (sleep_ms ms ∷ cs) = attempts cs
attempts (RadioCall.emit event ∷ cs) = attempts cs
attempts (RadioCall.log_tx_airtime len ∷ cs) = attempts cs

-- The loop's outcome: `n` attempts of which all but the last found the channel busy, whose answer is
-- the last one's; it gives up on a busy channel only with no retries left.
pub record Tried (d : Driver) (retries i : ℕ) (r : Option Errno × List RadioCall) : Type 0 where
  pub more : ℕ
  pub counted : attempts r.1 ≡ suc more
  pub bounded : more ≤ retries
  pub answer : r.0 ≡ d.send (i + more)
  pub busy_before : (j : ℕ) → j < more → is_busy (d.send (i + j)) ≡ true
  pub not_early : more < retries → is_busy r.0 ≡ false

send_loop-Tried :
    (k : Kconfig) (d : Driver) (pkt : List ℕ) (retries i : ℕ)
    → Tried d retries i (send_loop k d pkt retries i)
unfolding send_loop attempts
send_loop-Tried k d pkt zero i = record {
  more = 0;
  counted = refl;
  bounded = omega arith;
  answer = ap d.send (omega arith);
  busy_before = λ j lt. absurd (omega arith);
  not_early = λ lt. absurd (omega arith);
}
send_loop-Tried k d pkt (suc retries) i = elim (Bool-cases (is_busy (d.send i))) [
  | inl busy ↦
      let t = send_loop-Tried k d pkt retries (i + 1) in
      rw busy (record {
        more = suc t.more;
        counted = ap suc t.counted;
        bounded = omega (arith, t.bounded);
        answer = t.answer ∙ ap d.send (omega arith);
        busy_before = busy_all i t.more busy t.busy_before;
        not_early = λ lt. t.not_early (omega arith);
      })
  | inr answered ↦ rw answered (record {
    more = 0;
    counted = refl;
    bounded = omega arith;
    answer = ap d.send (omega arith);
    busy_before = λ j lt. absurd (omega arith);
    not_early = λ lt. answered;
  })
]
  where
    busy_all :
        (i more : ℕ)
        → is_busy (d.send i) ≡ true
        → ((j : ℕ) → j < more → is_busy (d.send (i + 1 + j)) ≡ true)
        → (j : ℕ) → j < suc more
        → is_busy (d.send (i + j)) ≡ true
    busy_all i more first rest zero lt = ap (λ n. is_busy (d.send n)) (omega arith) ∙ first
    busy_all i more first rest (suc j) lt =
        ap (λ n. is_busy (d.send n)) (omega arith) ∙ rest j (omega arith)

attempts-append : (cs ds : List RadioCall) → attempts (cs ++ ds) ≡ attempts cs + attempts ds
unfolding attempts
attempts-append [] ds = omega arith
attempts-append (lora_send pkt ∷ cs) ds = omega (arith, attempts-append cs ds)
attempts-append (recv_stop ∷ cs) ds = attempts-append cs ds
attempts-append (recv_start ∷ cs) ds = attempts-append cs ds
attempts-append (config_tx ∷ cs) ds = attempts-append cs ds
attempts-append (config_rx ∷ cs) ds = attempts-append cs ds
attempts-append (sleep_ms ms ∷ cs) ds = attempts-append cs ds
attempts-append (RadioCall.emit event ∷ cs) ds = attempts-append cs ds
attempts-append (RadioCall.log_tx_airtime len ∷ cs) ds = attempts-append cs ds

report_tx-quiet :
    (k : Kconfig) (pkt : List ℕ) (ret : Option Errno) → attempts (report_tx k pkt ret) ≡ 0
unfolding attempts report_tx
report_tx-quiet k pkt none = elim (Bool-cases k.with_airtime) [ inl w ↦ rw w | inr w ↦ rw w ]
report_tx-quiet k pkt (some error) = refl

configured_send_attempts :
    (k : Kconfig) (d : Driver) (pkt : List ℕ)
    → (attempts (configured_send k d pkt).1 ≤ suc k.tx_busy_retries)
      × (d.config_tx ≡ none
          → is_busy (configured_send k d pkt).0 ≡ true
          → attempts (configured_send k d pkt).1 ≡ suc k.tx_busy_retries)
      × (d.config_tx ≢ none → attempts (configured_send k d pkt).1 ≡ 0)
unfolding configured_send attempts send_loop
configured_send_attempts k d pkt = elim (Option-cases d.config_tx) [
  | inl configured ↦
      let t = send_loop-Tried k d pkt k.tx_busy_retries 0 in
      rw configured (
        omega (arith, t.counted, t.bounded),
        λ c busy. ground (arith, t.counted, t.bounded, t.not_early, busy),
        λ refused. absurd (refused refl),
      )
  | inr (error, refused) ↦ rw refused (omega arith, λ c. cc, λ r. refl)
]

-- The outcome of a transmission in the counters
abbrev pub Counted : Option Errno → Status → Status → Type 0
Counted none before after =
    (after.tx_packets ≡ inc32 before.tx_packets) × (after.tx_failures ≡ before.tx_failures)
Counted (some error) before after =
    (after.tx_packets ≡ before.tx_packets) × (after.tx_failures ≡ inc32 before.tx_failures)

count_tx-Counted :
    (arm ret : Option Errno) (r : Radio)
    → Counted ret r.status (count_tx ret (arm_rx arm (record r { rx_armed = false })).status)
unfolding count_tx arm_rx
count_tx-Counted none none r = (refl, refl)
count_tx-Counted none (some error) r = (refl, refl)
count_tx-Counted (some e) none r = (refl, refl)
count_tx-Counted (some e) (some error) r = (refl, refl)

pub arm_rx_armed :
    (arm : Option Errno) (r : Radio)
    → (arm ≡ none → (arm_rx arm r).rx_armed ≡ true) × (arm ≢ none → (arm_rx arm r).rx_armed ≡ false)
unfolding arm_rx
arm_rx_armed none r = (λ e. refl, λ n. absurd (n refl))
arm_rx_armed (some error) r = (λ e. cc, λ n. refl)

-- What a transmission that leaves `t` has done.
pub record Sends (k : Kconfig) (d : Driver) (r : Radio) (t : Transmitted) : Type 0 where
  pub most : attempts t.calls ≤ suc k.tx_busy_retries
  pub refused : d.config_tx ≢ none → attempts t.calls ≡ 0
  pub gives_up :
      d.config_tx ≡ none → is_busy t.ret ≡ true → attempts t.calls ≡ suc k.tx_busy_retries
  pub counted : Counted t.ret r.status t.radio.status
  pub armed : d.arm ≡ none → t.radio.rx_armed ≡ true
  pub deaf : d.arm ≢ none → t.radio.rx_armed ≡ false

-- A transmission asks the driver to send at most once more than there are retries, and never where the
-- driver refuses the configuration. It ends on a busy channel only after the last retry. It is
-- counted as sent or as failed, by what it returns, and reception is armed exactly if the driver then
-- accepts it.
pub send_wire_now-Sends :
    (k : Kconfig) (d : Driver) (pkt : List ℕ) (r : Radio) → Sends k d r (send_wire_now k d pkt r)
unfolding send_wire_now attempts
send_wire_now-Sends k d pkt r =
    let sent = configured_send k d pkt in
    let (most, all, nothing) = configured_send_attempts k d pkt in
    let arming = arm_rx_armed d.arm (record r { rx_armed = false }) in
    let same : attempts (send_wire_now k d pkt r).calls ≡ attempts sent.1 = omega (
      arith,
      attempts-append sent.1 (config_rx ∷ recv_start ∷ report_tx k pkt sent.0),
      report_tx-quiet k pkt sent.0,
    ) in
    record {
      most = omega arith;
      refused = λ error. same ∙ nothing error;
      gives_up = λ configured busy. same ∙ all configured busy;
      counted = count_tx-Counted d.arm sent.0 r;
      armed = arming.0;
      deaf = arming.1;
    }
