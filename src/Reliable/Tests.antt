-- ===== src/Reliable/Tests.antt =====
-- One packet through src/meshtastic_reliable.c: taken, sent again and given up.
use meshtastic_zephyr.Prelude.{
  ℕ, ◌+◌, ◌*◌, ◌-◌, ◌%◌, ◌≤◌, ◌≡◌, ◌≢◌, true, List, [], ◌∷◌, Option, none, some, arith, length,
}
use meshtastic_zephyr.Packet.{Packet, zero_packet}
use meshtastic_zephyr.Reliable.{
  Kconfig, Reliable, Routing, reset, pending, work_fn, work_from, reschedule, next_due,
  retry_delay_ms,
}
use meshtastic_zephyr.Reliable.Counts.{held, settled, budget}
use meshtastic_zephyr.Reliable.Outcomes.{Op, track_op, work_op}
use meshtastic_zephyr.Reliable.Runs.{run, takes, takes_for, run_outcomes, run_retries}
use meshtastic_zephyr.Reliable.Timer.{NoneBefore, SomeAt, work_fn_timer}

abbrev test_kconfig : Kconfig
test_kconfig = record {
  max_pending = 3;
  retransmissions = 3;
  retry_interval_ms = 12000;
  retry_jitter_ms = 3000;
}

abbrev no_routing : List ℕ → Option Routing
no_routing bytes = none

abbrev sent_packet : Packet
sent_packet = record zero_packet { from = 9; to = 4; id = 77; portnum = 1; want_ack = true }

abbrev test_ops : List Op
test_ops = track_op 0 0 (some sent_packet) (some (1 ∷ 2 ∷ [])) 2 ∷ work_op 15000 (λ i. 0) ∷ []

run_outcomes_example :
    held 77 (run test_kconfig no_routing 9 test_ops (reset test_kconfig)).state.entries
      + settled 77 (run test_kconfig no_routing 9 test_ops (reset test_kconfig)).events
    ≡ takes_for test_kconfig no_routing 9 77 test_ops (reset test_kconfig)
run_outcomes_example = run_outcomes test_kconfig no_routing 9 77 test_ops (omega arith)

run_retries_example :
    budget (run test_kconfig no_routing 9 test_ops (reset test_kconfig)).state.entries
      + length (run test_kconfig no_routing 9 test_ops (reset test_kconfig)).sent
    ≤ takes test_kconfig no_routing 9 test_ops (reset test_kconfig) * (3 % 256)
run_retries_example = run_retries test_kconfig no_routing 9 test_ops

abbrev waiting : ℕ → ℕ → Reliable
waiting due attempts = record {
  entries =
      record {
        id = 77;
        dest = 4;
        portnum = 1;
        due_ms = due;
        wire_len = 2;
        attempts_left = attempts;
        wire = 1 ∷ 2 ∷ [];
      }
      ∷ [];
  timer = some 0;
}

abbrev expired : Reliable
expired = (work_fn test_kconfig 9 100 (λ i. 0) (waiting 100 0)).state

still_waiting : pending (work_fn test_kconfig 9 100 (λ i. 0) (waiting 100 2)).state.entries ≢ 0
unfolding work_fn work_from pending reschedule next_due retry_delay_ms
still_waiting = omega arith

work_fn_timer_example :
    (next : ℕ) × ((work_fn test_kconfig 9 100 (λ i. 0) (waiting 100 2)).state.timer
      ≡ some (next - 100))
    × NoneBefore next (work_fn test_kconfig 9 100 (λ i. 0) (waiting 100 2)).state.entries
    × SomeAt next (work_fn test_kconfig 9 100 (λ i. 0) (waiting 100 2)).state.entries
work_fn_timer_example = work_fn_timer test_kconfig 9 100 (λ i. 0) (waiting 100 2) still_waiting
