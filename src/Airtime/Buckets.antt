-- ===== src/Airtime/Buckets.antt =====
-- The counters of src/meshtastic_airtime.c after any sequence of `meshtastic_airtime_log` and ticks.
use meshtastic_zephyr.Prelude.{
  ℕ, zero, suc, ◌+◌, ◌%◌, ◌^◌, ◌≤◌, ◌<◌, ◌==◌, ◌/◌, true, false, List, [], ◌∷◌, replicate, get_or,
  arith, ◌≡◌, ◌≢◌, refl, ℕ_discrete,
}
use meshtastic_zephyr.Packet.{inc32}
use meshtastic_zephyr.Airtime.{
  Airtime, AirtimeType, tx, rx, rx_all, other_type, init, log, tick, channel_util_add, sum32,
  period_util_hour, period_util_minute,
}
use meshtastic_zephyr.Airtime.Window.{
  Logged, within, Past, recent, minute_clock, hour_clock, Holds, add_at-Holds, tick_buckets-Holds,
  first-Holds, sum32-Holds,
}

-- A call of `meshtastic_airtime_log`, or a tick of the timer.
pub data Op : Type 0 where
  log_op : AirtimeType → ℕ → Op
  tick_op : Op

unfoldable pub run_op : Op → Airtime → Airtime
run_op (log_op type ms) a = log type ms a
run_op tick_op a = tick a

-- What a device has done since it started: the seconds, and all that was logged.
pub record History : Type 0 where
  pub seconds : ℕ
  pub all_logged : List Logged
  pub tx_logged : List Logged

unfoldable pub noted : Op → History → History
noted (log_op tx ms) h =
    let l : Logged = record { sec = h.seconds; ms = ms } in
    record h { all_logged = l ∷ h.all_logged; tx_logged = l ∷ h.tx_logged }
noted (log_op rx ms) h =
    let l : Logged = record { sec = h.seconds; ms = ms } in
    record h { all_logged = l ∷ h.all_logged }
noted (log_op rx_all ms) h =
    let l : Logged = record { sec = h.seconds; ms = ms } in
    record h { all_logged = l ∷ h.all_logged }
noted (log_op other_type ms) h = h
noted tick_op h = record h { seconds = h.seconds + 1 }

-- The operations, the last one first.
unfoldable pub run : List Op → Airtime
run [] = init
run (op ∷ ops) = run_op op (run ops)

unfoldable pub history : List Op → History
history [] = record { seconds = 0; all_logged = []; tx_logged = [] }
history (op ∷ ops) = noted op (history ops)

record Tracks (a : Airtime) (h : History) : Type 0 where
  clock : a.sec_since_boot ≡ h.seconds
  started : a.first_tick ≡ (h.seconds == 0)
  last : h.seconds ≢ 0 → a.last_util_period ≡ (h.seconds / 10) % 6
  last_tx : h.seconds ≢ 0 → a.last_util_period_tx ≡ (h.seconds / 60) % 60
  channel : Holds 10 6 minute_clock h.seconds a.channel_utilization h.all_logged
  hour : Holds 60 60 hour_clock h.seconds a.utilization_tx h.tx_logged

log-Tracks :
    (type : AirtimeType) (ms : ℕ) (a : Airtime) (h : History)
    → Tracks a h
    → Tracks (log type ms a) (noted (log_op type ms) h)
unfolding log noted channel_util_add period_util_minute period_util_hour
log-Tracks tx ms a h t = record {
  clock = t.clock;
  started = t.started;
  last = t.last;
  last_tx = t.last_tx;
  channel =
      rw t.clock
        (add_at-Holds 10 6 minute_clock h.seconds ms a.channel_utilization h.all_logged t.channel);
  hour =
      rw t.clock (add_at-Holds 60 60 hour_clock h.seconds ms a.utilization_tx h.tx_logged t.hour);
}
log-Tracks rx ms a h t = record {
  clock = t.clock;
  started = t.started;
  last = t.last;
  last_tx = t.last_tx;
  channel =
      rw t.clock
        (add_at-Holds 10 6 minute_clock h.seconds ms a.channel_utilization h.all_logged t.channel);
  hour = t.hour;
}
log-Tracks rx_all ms a h t = record {
  clock = t.clock;
  started = t.started;
  last = t.last;
  last_tx = t.last_tx;
  channel =
      rw t.clock
        (add_at-Holds 10 6 minute_clock h.seconds ms a.channel_utilization h.all_logged t.channel);
  hour = t.hour;
}
log-Tracks other_type ms a h t = t

first_tick-Tracks :
    (a : Airtime) (h : History) → h.seconds ≡ 0 → Tracks a h → Tracks (tick a) (noted tick_op h)
unfolding tick noted period_util_minute period_util_hour
first_tick-Tracks a h zero_sec t =
    let boot : a.sec_since_boot ≡ 0 = omega (arith, t.clock) in
    let first : a.first_tick ≡ true = ground (arith, t.started) in
    rw (first, boot, zero_sec)
      (record {
        clock = refl;
        started = refl;
        last = λ ne. refl;
        last_tx = λ ne. refl;
        channel =
            first-Holds 10 6 minute_clock a.channel_utilization h.all_logged
              (rw zero_sec at t.channel);
        hour = first-Holds 60 60 hour_clock a.utilization_tx h.tx_logged (rw zero_sec at t.hour);
      })

later_tick-Tracks :
    (a : Airtime) (h : History)
    → h.seconds ≢ 0
    → h.seconds + 1 < 2 ^ 32
    → Tracks a h
    → Tracks (tick a) (noted tick_op h)
unfolding tick noted period_util_minute period_util_hour
later_tick-Tracks a h ne low t =
    let next : inc32 a.sec_since_boot ≡ h.seconds + 1 = omega (arith, t.clock) in
    let later : a.first_tick ≡ false = ground (arith, t.started) in
    let c =
      tick_buckets-Holds 10 6 minute_clock h.seconds a.last_util_period a.channel_utilization
        h.all_logged t.channel (t.last ne) in
    let m =
      tick_buckets-Holds 60 60 hour_clock h.seconds a.last_util_period_tx a.utilization_tx
        h.tx_logged t.hour (t.last_tx ne) in
    rw (later, next)
      (record {
        clock = refl;
        started = ground arith;
        last = λ ne. c.1;
        last_tx = λ ne. m.1;
        channel = c.0;
        hour = m.0;
      })

init_buckets : (n i : ℕ) → get_or {A = ℕ} (replicate n 0) i 0 ≡ 0
init_buckets zero i = refl
init_buckets (suc n) zero = refl
init_buckets (suc n) (suc i) = init_buckets n i

seconds_past : (op : Op) (h : History) → h.seconds ≤ (noted op h).seconds
unfolding noted
seconds_past (log_op tx ms) h = omega arith
seconds_past (log_op rx ms) h = omega arith
seconds_past (log_op rx_all ms) h = omega arith
seconds_past (log_op other_type ms) h = omega arith
seconds_past tick_op h = omega arith

run-Tracks : (ops : List Op) → (history ops).seconds < 2 ^ 32 → Tracks (run ops) (history ops)
unfolding run history run_op init within Past noted
run-Tracks [] low = record {
  clock = refl;
  started = refl;
  last = λ ne. absurd (ne refl);
  last_tx = λ ne. absurd (ne refl);
  channel = (refl, omega arith, λ i lt. init_buckets 6 i);
  hour = (refl, omega arith, λ i lt. init_buckets 60 i);
}
run-Tracks (log_op type ms ∷ ops) low =
    log-Tracks type ms (run ops) (history ops)
      (run-Tracks ops (omega (arith, seconds_past (log_op type ms) (history ops))))
run-Tracks (tick_op ∷ ops) low =
    let before = run-Tracks ops (omega (arith, seconds_past tick_op (history ops))) in
    elim (ℕ_discrete (history ops).seconds 0) [
      | yes first ↦ first_tick-Tracks (run ops) (history ops) first before
      | no later ↦ later_tick-Tracks (run ops) (history ops) later (omega (arith, low)) before
    ]

-- In the first 2 ^ 32 seconds, and modulo 2 ^ 32, the counters that the channel utilisation is
-- computed from add up to what was logged in the current ten-second period and the five before it,
-- and those of the transmit utilisation to what was transmitted in this minute and the 59 before it.
pub run_sums :
    (ops : List Op)
    → (history ops).seconds < 2 ^ 32
    → (sum32 0 (run ops).channel_utilization
        ≡ recent 10 6 (history ops).seconds (history ops).all_logged % 2 ^ 32)
      × (sum32 0 (run ops).utilization_tx
          ≡ recent 60 60 (history ops).seconds (history ops).tx_logged % 2 ^ 32)
run_sums ops low =
    let t = run-Tracks ops low in
    (
      sum32-Holds 10 6 minute_clock (history ops).seconds (run ops).channel_utilization
          (history ops).all_logged t.channel,
      sum32-Holds 60 60 hour_clock (history ops).seconds (run ops).utilization_tx
          (history ops).tx_logged t.hour,
    )
